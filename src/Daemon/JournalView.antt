-- ===== src/Daemon/JournalView.antt =====
-- What `get_journal` of payment-daemon/src/main.rs shows of a log that switch-core/src/journal.rs has
-- written, and that its loop ends on any file.
use mathlib.Core.List.{reverse}
use iso8583paymentsengine.Base.{
  ℕ, zero, suc, ◌+◌, ◌≤◌, ◌≡◌, refl, sym, ap, ◌∙◌, Option, some, List, [], ◌∷◌, ◌++◌, true, false,
  map, leb, ltb, ◌==◌, if_cases, length, take, drop, replicate, All, drop-append, length-append,
  arith,
}
use iso8583paymentsengine.Base.Text.{Bytes}
use iso8583paymentsengine.Canonical.{Transaction}
use iso8583paymentsengine.Wal.Journal.{Wal, new_wal, write_records}
use iso8583paymentsengine.Wal.Settle.{from_be_bytes}
use iso8583paymentsengine.Wal.Frames.{
  frame, frames, IsRecord, frames-Head, from_be_bytes-replicate, length-frames,
}
use iso8583paymentsengine.Wal.Settled.{
  accepted, accepted-IsRecord, left, wal_of, write_records-wal_of,
}
use iso8583paymentsengine.Daemon.Journal.{
  JournalEvent, event_of, push_event, journal_events, get_journal,
}

module _ (decode : Bytes → Option Transaction) where
  journal_events-past :
      (fuel : ℕ) (mmap : Bytes) (offset : ℕ)
      → length mmap ≤ offset
      → journal_events decode fuel mmap offset ≡ []
  unfolding journal_events
  journal_events-past zero mmap offset h = refl
  journal_events-past (suc fuel) mmap offset h = ground arith

  journal_events-fuel :
      (fuel extra : ℕ) (mmap : Bytes) (offset : ℕ)
      → length mmap ≤ fuel + offset
      → journal_events decode (extra + fuel) mmap offset ≡ journal_events decode fuel mmap offset
  unfolding journal_events
  journal_events-fuel zero extra mmap offset h =
      journal_events-past (extra + zero) mmap offset (omega arith)
  journal_events-fuel (suc fuel) extra mmap offset h =
      let n : extra + suc fuel ≡ suc (extra + fuel) = omega arith in
      let len = from_be_bytes (drop offset mmap) in
      let rest : journal_events decode (extra + fuel) mmap (offset + 4 + len)
          ≡ journal_events decode fuel mmap (offset + 4 + len) =
        journal_events-fuel fuel extra mmap (offset + 4 + len) (omega arith) in
      rw n (rw rest refl)

  -- On any file whatever, well formed or not: the loop has ended within as many rounds as the file has
  -- bytes, and more rounds show nothing else.
  pub get_journal_ends :
      (extra : ℕ) (mmap : Bytes)
      → take 100 (reverse (journal_events decode (extra + length mmap) mmap 0))
        ≡ get_journal decode mmap
  unfolding get_journal
  get_journal_ends extra mmap =
      ap (λ l. take 100 (reverse l)) (journal_events-fuel (length mmap) extra mmap 0 (omega arith))

  journal_events-blank :
      (fuel : ℕ) (pre : Bytes) (n : ℕ)
      → journal_events decode fuel (pre ++ replicate n 0) (length pre) ≡ []
  unfolding journal_events
  journal_events-blank zero pre n = refl
  journal_events-blank (suc fuel) pre n =
      rw (drop-append pre (replicate n 0), from_be_bytes-replicate n)
        (if_cases (λ l. l ≡ []) (leb (length pre + 4) (length (pre ++ replicate n 0))) (λ _. refl)
          (λ _. refl))

  journal_events-step :
      (fuel : ℕ) (mmap : Bytes) (offset : ℕ) {len : ℕ} {bytes : Bytes}
      → from_be_bytes (drop offset mmap) ≡ len
      → take len (drop (offset + 4) mmap) ≡ bytes
      → 1 ≤ len
      → offset + (4 + len) ≤ length mmap
      → journal_events decode (suc fuel) mmap offset
        ≡ push_event decode bytes (journal_events decode fuel mmap (offset + (4 + len)))
  unfolding journal_events
  journal_events-step fuel mmap offset {len} {bytes} e k some_bytes fits =
      let inside : leb (offset + 4) (length mmap) ≡ true = ground arith in
      let full : (len == 0) ≡ false = ground arith in
      let room : ltb (length mmap) (offset + 4 + len) ≡ false = ground arith in
      let at : offset + 4 + len ≡ offset + (4 + len) = omega arith in
      rw (e, k, inside, full, room, at) refl

  abbrev push_all : List Bytes → List JournalEvent
  push_all [] = []
  push_all (bytes ∷ records) = push_event decode bytes (push_all records)

  journal_events-frames :
      (fuel : ℕ) (pre : Bytes) (records : List Bytes) (n : ℕ)
      → All IsRecord records
      → length records ≤ fuel
      → journal_events decode fuel (pre ++ (frames records ++ replicate n 0)) (length pre)
        ≡ push_all records
  journal_events-frames fuel pre [] n h k = journal_events-blank fuel pre n
  journal_events-frames zero pre (bytes ∷ records) n h k = elim k [ ]
  journal_events-frames (suc fuel) pre (bytes ∷ records) n h k =
      let mmap = pre ++ (frames (bytes ∷ records) ++ replicate n 0) in
      let head = frames-Head pre bytes records n h.0 in
      journal_events-step fuel mmap (length pre) head.len head.payload h.0.0 head.fits
      ∙ ap (push_event decode bytes) (
          ap (journal_events decode fuel mmap) (sym head.at)
          ∙ (ap (λ m. journal_events decode fuel m (length (pre ++ frame bytes))) (sym head.whole)
              ∙ journal_events-frames fuel (pre ++ frame bytes) records n h.1 (omega arith)))

  push_all-map :
      (encode : Transaction → Bytes)
      (round_trip : (tx : Transaction) → decode (encode tx) ≡ some tx) (txs : List Transaction)
      → push_all (map encode txs) ≡ map event_of txs
  unfolding push_event
  push_all-map encode round_trip [] = refl
  push_all-map encode round_trip (tx ∷ txs) =
      rw (round_trip tx, push_event) (ap (◌∷◌ (event_of tx)) (push_all-map encode round_trip txs))

module _ (encode : Transaction → Bytes) (decode : Bytes → Option Transaction) where
  -- The operator who looks at a log sees the last hundred of the transactions that the journal has
  -- accepted, the latest first and each once: if the decoder inverts the encoder, and the transactions
  -- have encodings that are neither empty nor of 2^32 bytes and more.
  pub get_journal-write_records :
      ((tx : Transaction) → decode (encode tx) ≡ some tx)
      → (size : ℕ) (txs : List Transaction) → All (λ tx. IsRecord (encode tx)) txs
      → get_journal decode (write_records encode txs (new_wal size)).mmap
        ≡ take 100 (reverse (map event_of (accepted encode size txs)))
  unfolding get_journal
  get_journal-write_records round_trip size txs h =
      let kept = accepted encode size txs in
      let records = map encode kept in
      let n = left encode size txs in
      let w = wal_of records n in
      let enough : length records ≤ length w.mmap =
        omega (arith, length-append (frames records) (replicate n 0), length-frames records) in
      let shown : journal_events decode (length w.mmap) w.mmap 0 ≡ map event_of kept =
        journal_events-frames decode (length w.mmap) [] records n
          (accepted-IsRecord encode decode size txs h) enough
        ∙ push_all-map decode encode round_trip kept in
      ap (λ (z : Wal). take 100 (reverse (journal_events decode (length z.mmap) z.mmap 0)))
        (write_records-wal_of encode txs [] size)
      ∙ ap (λ l. take 100 (reverse l)) shown
