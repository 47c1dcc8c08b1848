-- ===== src/Tests/Log.antt =====
-- A run of the write-ahead log, with a protobuf codec in place of prost's.
use iso8583paymentsengine.Base.{
  ℕ, zero, suc, ◌-◌, ◌≡◌, refl, ap, ◌∙◌, Option, none, some, List, [], ◌∷◌, ◌++◌, length, take,
  drop, take-append, drop-append, arith,
}
use iso8583paymentsengine.Base.Text.{Bytes, codes, bytes_eq}
use iso8583paymentsengine.Base.Utf8.{from_utf8_lossy}
use iso8583paymentsengine.Base.Int.{ℤ, pos, negsuc}
use iso8583paymentsengine.Canonical.{Transaction}
use iso8583paymentsengine.Wal.Journal.{Wal, new_wal, write_records}
use iso8583paymentsengine.Base.Dict.{lookup, insert}
use iso8583paymentsengine.Wal.Settle.{
  Db, sweep, settle_tick, cursor_key, count_key, ends_with, execute_cutoff,
}
use iso8583paymentsengine.Wal.Resumed.{settle_tick-execute_cutoff}
use iso8583paymentsengine.Wal.Emptied.{execute_cutoff_empties}
use iso8583paymentsengine.Wal.Settled.{accepted, tally_each, sweep-write_records}

-- Texts behind their lengths.
abbrev join : List Bytes → Bytes
join [] = []
join (t ∷ ts) = length t ∷ (t ++ join ts)

abbrev split : ℕ → Bytes → List Bytes
split zero s = []
split (suc n) [] = []
split (suc n) (k ∷ s) = take k s ∷ split n (drop k s)

abbrev amount_text : ℤ → Bytes
amount_text (pos n) = 0 ∷ n ∷ []
amount_text (negsuc n) = 1 ∷ n ∷ []

abbrev texts : Transaction → List Bytes
texts tx =
    tx.mti
    ∷ tx.pan
    ∷ tx.processing_code
    ∷ amount_text tx.amount
    ∷ tx.stan
    ∷ tx.rrn
    ∷ tx.response_code
    ∷ tx.acquirer_id
    ∷ tx.pin_block
    ∷ tx.local_time
    ∷ tx.local_date
    ∷ []

abbrev amount_of : Bytes → ℤ
amount_of (zero ∷ n ∷ []) = pos n
amount_of (suc _ ∷ n ∷ []) = negsuc n
amount_of _ = pos 0

abbrev from_texts : List Bytes → Option Transaction
from_texts (a ∷ b ∷ c ∷ d ∷ e ∷ f ∷ g ∷ h ∷ i ∷ j ∷ k ∷ []) = some (record {
  mti = a;
  pan = b;
  processing_code = c;
  amount = amount_of d;
  stan = e;
  rrn = f;
  response_code = g;
  acquirer_id = h;
  pin_block = i;
  local_time = j;
  local_date = k;
})
from_texts _ = none

abbrev pub sample_encode : Transaction → Bytes
sample_encode tx = join (texts tx)

abbrev pub sample_decode : Bytes → Option Transaction
sample_decode s = from_texts (split 11 s)

split-join : (ts : List Bytes) → split (length ts) (join ts) ≡ ts
split-join [] = refl
split-join (t ∷ ts) =
    ap (λ u. u ∷ split (length ts) (drop (length t) (t ++ join ts))) (take-append t (join ts))
    ∙ (ap (λ u. t ∷ split (length ts) u) (drop-append t (join ts))
        ∙ ap (λ u. t ∷ u) (split-join ts))

amount_of-amount_text : (a : ℤ) → amount_of (amount_text a) ≡ a
amount_of-amount_text (pos n) = refl
amount_of-amount_text (negsuc n) = refl

pub decode_sample : (tx : Transaction) → sample_decode (sample_encode tx) ≡ some tx
decode_sample tx =
    ap from_texts (split-join (texts tx))
    ∙ ap (λ a. some (record tx { amount = a })) (amount_of-amount_text tx.amount)

abbrev pub approved_sale : Transaction
approved_sale = record {
  mti = codes "0100";
  pan = codes "4111222233334444";
  processing_code = codes "000000";
  amount = pos 500;
  stan = codes "000123";
  rrn = codes "000000000077";
  response_code = codes "00";
  acquirer_id = codes "ACQ1";
  pin_block = [];
  local_time = codes "101500";
  local_date = codes "0425";
}

sweep-write_records_example :
    let w = write_records sample_encode (approved_sale ∷ []) (new_wal 300) in
    let w' = write_records sample_encode (approved_sale ∷ approved_sale ∷ approved_sale ∷ []) w in
    sweep sample_decode (length w'.mmap) w'.mmap w.offset [] ≡ (
      w'.offset,
      tally_each
          (accepted sample_encode
            (length w.mmap - w.offset)
            (approved_sale ∷ approved_sale ∷ approved_sale ∷ []))
          [],
    )
sweep-write_records_example =
    sweep-write_records sample_encode sample_decode decode_sample 300 (approved_sale ∷ [])
      (approved_sale ∷ approved_sale ∷ approved_sale ∷ []) [] (ground arith)

-- A database with one acquirer, its count and the cursor.
abbrev tallied : Db
tallied = (codes "ACQ1", 1500) ∷ (codes "ACQ1_count", 3) ∷ (codes "cursor_offset", 282) ∷ []

-- The log of a day with one sale, and with one more after the cutoff.
abbrev day_log : Wal
day_log = write_records sample_encode (approved_sale ∷ []) (new_wal 300)

abbrev next_log : Wal
next_log = write_records sample_encode (approved_sale ∷ []) day_log

abbrev swept_day : Db
swept_day =
    (codes "ACQ1", 500) ∷ (codes "ACQ1_count", 1) ∷ (codes "cursor_offset", day_log.offset) ∷ []

settle_tick-execute_cutoff_example :
    settle_tick sample_decode next_log.mmap (execute_cutoff swept_day).1
    ≡ insert cursor_key next_log.offset (
        tally_each
          (accepted sample_encode (length day_log.mmap - day_log.offset) (approved_sale ∷ []))
          (execute_cutoff swept_day).1)
unfolding lookup write_records bytes_eq
settle_tick-execute_cutoff_example =
    settle_tick-execute_cutoff sample_encode sample_decode decode_sample 300 (approved_sale ∷ [])
      (approved_sale ∷ []) swept_day (ground arith) refl (ground arith) (ground arith)

execute_cutoff_empties_example :
    let left = (execute_cutoff tallied).1 in
    (lookup (codes "ACQ1") left ≡ none) × (lookup (count_key (codes "ACQ1")) left ≡ none)
unfolding lookup from_utf8_lossy bytes_eq ends_with
execute_cutoff_empties_example =
    execute_cutoff_empties (codes "ACQ1") 1500 tallied (refl, (refl, (refl, tt))) refl refl refl
