-- ===== src/Wal/Frames.antt =====
-- The bytes of the write-ahead log: records behind their lengths, how the journal writes one, and how
-- the sweep goes through them.
use mathlib.Core.List.{append_assoc, append-nil}
use iso8583paymentsengine.Base.{
  ℕ, zero, suc, ◌+◌, ◌-◌, ◌^◌, ◌≤◌, ◌<◌, ◌≡◌, refl, sym, ap, ◌∙◌, Option, List, [], ◌∷◌, ◌++◌, ltb,
  if_cases, length, take, drop, replicate, All, length-append, take-append, drop-append, arith, leb,
  ◌==◌,
}
use iso8583paymentsengine.Base.Text.{Bytes}
use iso8583paymentsengine.Canonical.{Transaction}
use iso8583paymentsengine.Wal.Journal.{copy_at, to_be_bytes}
use iso8583paymentsengine.Wal.Settle.{Db, from_be_bytes, tally_bytes, sweep}

drop-replicate : (k n : ℕ) → k ≤ n → drop {A = ℕ} k (replicate n 0) ≡ replicate (n - k) 0
drop-replicate zero n h = let same : n ≡ n - 0 = omega arith in ap (λ k. replicate k 0) same
drop-replicate (suc k) zero h = elim h [ ]
drop-replicate (suc k) (suc n) h =
    let same : n - k ≡ suc n - suc k = omega arith in
    drop-replicate k n (omega arith) ∙ ap (λ m. replicate m 0) same

drop-append_add : (pre ys : Bytes) (k : ℕ) → drop (length pre + k) (pre ++ ys) ≡ drop k ys
drop-append_add [] ys k = let n : 0 + k ≡ k = omega arith in ap (λ m. drop m ys) n
drop-append_add (x ∷ pre) ys k =
    let n : suc (length pre) + k ≡ suc (length pre + k) = omega arith in
    rw n (drop-append_add pre ys k)

-- A write at the start of the blank rest of a file.
pub copy_at-blank :
    (pre bytes : Bytes) (n : ℕ)
    → length bytes ≤ n
    → copy_at (length pre) bytes (pre ++ replicate n 0)
      ≡ (pre ++ bytes) ++ replicate (n - length bytes) 0
unfolding copy_at
copy_at-blank pre bytes n h =
    rw
      (
        take-append pre (replicate n 0),
        drop-append_add pre (replicate n 0) (length bytes),
        drop-replicate (length bytes) n h,
        append_assoc pre bytes (replicate (n - length bytes) 0),
      )
      refl

from-to_be_bytes : (n : ℕ) (rest : Bytes) → n < 2 ^ 32 → from_be_bytes (to_be_bytes n ++ rest) ≡ n
from-to_be_bytes n rest h = omega arith

-- The record of a transaction in the file.
abbrev pub frame : Bytes → Bytes
frame bytes = to_be_bytes (length bytes) ++ bytes

abbrev pub frames : List Bytes → Bytes
frames [] = []
frames (bytes ∷ records) = frame bytes ++ frames records

-- A record that the sweep takes for one: not empty, and with a length of 32 bits.
abbrev pub IsRecord : Bytes → Type 0
IsRecord bytes = (1 ≤ length bytes) × (length bytes < 2 ^ 32)

-- What a sweep makes of records.
abbrev pub tally_all : (Bytes → Option Transaction) → List Bytes → Db → Db
tally_all decode [] db = db
tally_all decode (bytes ∷ records) db = tally_all decode records (tally_bytes decode bytes db)

pub from_be_bytes-replicate : (n : ℕ) → from_be_bytes (replicate n 0) ≡ 0
from_be_bytes-replicate zero = refl
from_be_bytes-replicate (suc zero) = refl
from_be_bytes-replicate (suc (suc zero)) = refl
from_be_bytes-replicate (suc (suc (suc zero))) = refl
from_be_bytes-replicate (suc (suc (suc (suc n)))) = refl

sweep-blank :
    (decode : Bytes → Option Transaction) (fuel : ℕ) (pre : Bytes) (n : ℕ) (db : Db)
    → sweep decode fuel (pre ++ replicate n 0) (length pre) db ≡ (length pre, db)
unfolding sweep
sweep-blank decode zero pre n db = refl
sweep-blank decode (suc fuel) pre n db =
    rw (drop-append pre (replicate n 0), from_be_bytes-replicate n)
      (if_cases (λ r. r ≡ (length pre, db)) (leb (length pre + 4) (length (pre ++ replicate n 0)))
        (λ _. refl) (λ _. refl))

sweep-step :
    (decode : Bytes → Option Transaction) (fuel : ℕ) (mmap : Bytes) (cursor : ℕ) (db : Db) {len : ℕ}
    {bytes : Bytes}
    → from_be_bytes (drop cursor mmap) ≡ len
    → take len (drop (cursor + 4) mmap) ≡ bytes
    → 1 ≤ len
    → cursor + (4 + len) ≤ length mmap
    → sweep decode (suc fuel) mmap cursor db
      ≡ sweep decode fuel mmap (cursor + (4 + len)) (tally_bytes decode bytes db)
unfolding sweep
sweep-step decode fuel mmap cursor db {len} {bytes} e k some_bytes fits =
    let later = sweep decode fuel mmap (cursor + (4 + len)) (tally_bytes decode bytes db) in
    let P : ℕ × Db → Type 0 = λ r. r ≡ later in
    rw (e, k)
      (if_cases P (leb (cursor + 4) (length mmap))
        (λ _.
          if_cases P (len == 0) (λ z. ground arith)
            (λ _.
              if_cases P (ltb (length mmap) (cursor + (4 + len))) (λ l. ground arith) (λ _. refl)))
        (λ l. ground arith))

-- The first record behind a part of the file: its length, its bytes, and that they are inside the file.
pub record Head (pre bytes : Bytes) (records : List Bytes) (n : ℕ) (mmap : Bytes) : Type 0 where
  pub len : from_be_bytes (drop (length pre) mmap) ≡ length bytes
  pub payload : take (length bytes) (drop (length pre + 4) mmap) ≡ bytes
  pub fits : length pre + (4 + length bytes) ≤ length mmap
  pub whole : (pre ++ frame bytes) ++ (frames records ++ replicate n 0) ≡ mmap
  pub at : length (pre ++ frame bytes) ≡ length pre + (4 + length bytes)

pub frames-Head :
    (pre bytes : Bytes) (records : List Bytes) (n : ℕ)
    → IsRecord bytes
    → Head pre bytes records n (pre ++ (frames (bytes ∷ records) ++ replicate n 0))
frames-Head pre bytes records n h =
    let blank = replicate n 0 in
    let rest = frames records ++ blank in
    let first : drop (length pre) (pre ++ ((frame bytes ++ frames records) ++ blank))
        ≡ to_be_bytes (length bytes) ++ (bytes ++ frames records ++ blank) =
      drop-append pre ((frame bytes ++ frames records) ++ blank) in
    record {
      len =
          ap from_be_bytes first
          ∙ from-to_be_bytes (length bytes) (bytes ++ frames records ++ blank) h.1;
      payload =
          ap (take (length bytes)) (
            drop-append_add pre ((frame bytes ++ frames records) ++ blank) 4
            ∙ append_assoc bytes (frames records) blank)
          ∙ take-append bytes rest;
      fits = omega (
        arith,
        length-append pre ((frame bytes ++ frames records) ++ blank),
        length-append (frame bytes ++ frames records) blank,
        length-append (frame bytes) (frames records),
      );
      whole =
          append_assoc pre (frame bytes) rest
          ∙ ap (◌++◌ pre) (sym (append_assoc (frame bytes) (frames records) blank));
      at = omega (arith, length-append pre (frame bytes));
    }

-- The sweep goes through whole records and stops at the blank rest of the file.
pub sweep-frames :
    (decode : Bytes → Option Transaction) (fuel : ℕ) (pre : Bytes) (records : List Bytes) (n : ℕ)
    (db : Db)
    → All IsRecord records
    → length records ≤ fuel
    → sweep decode fuel (pre ++ (frames records ++ replicate n 0)) (length pre) db
      ≡ (length (pre ++ frames records), tally_all decode records db)
sweep-frames decode fuel pre [] n db h k =
    sweep-blank decode fuel pre n db ∙ ap (λ p. (length p, db)) (sym (append-nil pre))
sweep-frames decode zero pre (bytes ∷ records) n db h k = elim k [ ]
sweep-frames decode (suc fuel) pre (bytes ∷ records) n db h k =
    let mmap = pre ++ (frames (bytes ∷ records) ++ replicate n 0) in
    let head = frames-Head pre bytes records n h.0 in
    let db' = tally_bytes decode bytes db in
    sweep-step decode fuel mmap (length pre) db head.len head.payload h.0.0 head.fits
    ∙ (ap (λ c. sweep decode fuel mmap c db') (sym head.at)
        ∙ (ap (λ m. sweep decode fuel m (length (pre ++ frame bytes)) db') (sym head.whole)
            ∙ (sweep-frames decode fuel (pre ++ frame bytes) records n db' h.1 (omega arith)
                ∙ ap (λ p. (length p, tally_all decode records db'))
                    (append_assoc pre (frame bytes) (frames records)))))

pub frames-append : (xs ys : List Bytes) → frames (xs ++ ys) ≡ frames xs ++ frames ys
frames-append [] ys = refl
frames-append (x ∷ xs) ys =
    ap (◌++◌ (frame x)) (frames-append xs ys) ∙ sym (append_assoc (frame x) (frames xs) (frames ys))

pub length-frames : (records : List Bytes) → length records ≤ length (frames records)
length-frames [] = omega arith
length-frames (bytes ∷ records) =
    omega (arith, length-frames records, length-append (frame bytes) (frames records))
