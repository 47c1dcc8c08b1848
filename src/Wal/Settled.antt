-- ===== src/Wal/Settled.antt =====
-- What the sweep of the settlement daemon reads of what the journal has written.
use mathlib.Core.Path.{subst}
use mathlib.Core.List.{append_assoc, append-nil}
use iso8583paymentsengine.Base.{
  ℕ, ◌+◌, ◌-◌, ◌≤◌, ◌≡◌, refl, sym, ap, ◌∙◌, true, false, Option, some, List, [], ◌∷◌, ◌++◌, map,
  ltb, if◌then◌else◌, if_cases, length, replicate, All, length-append, length-replicate, arith,
  Bool-cases, inl, inr,
}
use iso8583paymentsengine.Base.Text.{Bytes}
use iso8583paymentsengine.Canonical.{Transaction}
use iso8583paymentsengine.Wal.Journal.{
  Wal, new_wal, copy_at, to_be_bytes, write_record, write_records,
}
use iso8583paymentsengine.Wal.Settle.{Db, tally, tally_bytes, sweep}
use iso8583paymentsengine.Wal.Frames.{
  frame, frames, IsRecord, tally_all, copy_at-blank, frames-append, length-frames, sweep-frames,
}

-- The writer behind these records, with so many zeros left in the file.
abbrev pub wal_of : List Bytes → ℕ → Wal
wal_of records n = record {
  mmap = frames records ++ replicate n 0;
  offset = length (frames records);
}

length-frame_added :
    (records : List Bytes) (bytes : Bytes)
    → length (frames records) + 4 + length bytes ≡ length (frames (records ++ bytes ∷ []))
length-frame_added records bytes =
    let all = ap length (frames-append records (bytes ∷ [])) in
    omega (
      arith,
      all,
      length-append (frames records) (frames (bytes ∷ [])),
      length-append (frame bytes) [],
    )

module _ (encode : Transaction → Bytes) where
  -- The transactions that fit into so many bytes, one behind the other, and the bytes left then.
  abbrev pub accepted : ℕ → List Transaction → List Transaction
  accepted n [] = []
  accepted n (tx ∷ txs) =
      let size = 4 + length (encode tx) in
      let passed = accepted n txs in
      let kept = accepted (n - size) txs in if ltb n size then passed else tx ∷ kept

  pub left : ℕ → List Transaction → ℕ
  left n [] = n
  left n (tx ∷ txs) =
      let size = 4 + length (encode tx) in
      let passed = left n txs in
      let kept = left (n - size) txs in if ltb n size then passed else kept

  write_record-room :
      (tx : Transaction) (records : List Bytes) (n : ℕ)
      → 4 + length (encode tx) ≤ n
      → copy_at (length (frames records) + 4) (encode tx) (
          copy_at
            (length (frames records))
            (to_be_bytes (length (encode tx)))
            (frames records ++ replicate n 0))
        ≡ frames (records ++ encode tx ∷ []) ++ replicate (n - (4 + length (encode tx))) 0
  write_record-room tx records n h =
      let bytes = encode tx in
      let pre = frames records in
      let head = to_be_bytes (length bytes) in
      let at : length pre + 4 ≡ length (pre ++ head) = omega (arith, length-append pre head) in
      let rest : (n - 4) - length bytes ≡ n - (4 + length bytes) = omega arith in
      let first = copy_at-blank pre head n (omega arith) in
      let second = copy_at-blank (pre ++ head) bytes (n - 4) (omega arith) in
      let whole : (pre ++ head) ++ bytes ≡ frames (records ++ bytes ∷ []) =
        append_assoc pre head bytes
        ∙ (ap (◌++◌ pre) (sym (append-nil (frame bytes)))
            ∙ sym (frames-append records (bytes ∷ []))) in
      rw (first, at)
        (second
          ∙ (ap (λ z. z ++ replicate ((n - 4) - length bytes) 0) whole
              ∙ ap (λ m. frames (records ++ bytes ∷ []) ++ replicate m 0) rest))

  write_record-wal_of :
      (tx : Transaction) (records : List Bytes) (n : ℕ)
      → write_record encode tx (wal_of records n) ≡ (
          if ltb n (4 + length (encode tx))
          then wal_of records n
          else wal_of (records ++ encode tx ∷ []) (n - (4 + length (encode tx))))
  unfolding write_record
  write_record-wal_of tx records n =
      let bytes = encode tx in
      let pre = frames records in
      let P : Wal → Type 0 = λ w. w ≡ (
        if ltb n (4 + length bytes)
        then wal_of records n
        else wal_of (records ++ bytes ∷ []) (n - (4 + length bytes))) in
      let size : length (pre ++ replicate n 0) ≡ length pre + n =
        length-append pre (replicate n 0) ∙ ap (◌+◌ (length pre)) (length-replicate n 0) in
      if_cases P (ltb (length (pre ++ replicate n 0)) (length pre + (4 + length bytes)))
        (λ full. let over : ltb n (4 + length bytes) ≡ true = ground arith in rw over refl)
        (λ room.
          let fits : ltb n (4 + length bytes) ≡ false = ground arith in
          let at : length pre + 4 + length bytes ≡ length (frames (records ++ bytes ∷ [])) =
            length-frame_added records bytes in
          rw fits (cc (write_record-room tx records n (ground arith), at)))

  pub write_records-wal_of :
      (txs : List Transaction) (records : List Bytes) (n : ℕ)
      → write_records encode txs (wal_of records n)
        ≡ wal_of (records ++ map encode (accepted n txs)) (left n txs)
  unfolding write_records left
  write_records-wal_of [] records n = ap (λ r. wal_of r n) (sym (append-nil records))
  write_records-wal_of (tx ∷ txs) records n =
      ap (write_records encode txs) (write_record-wal_of tx records n)
      ∙ elim (Bool-cases (ltb n (4 + length (encode tx)))) [
        | inl over ↦ rw over (write_records-wal_of txs records n)
        | inr fits ↦ rw fits (
            write_records-wal_of txs (records ++ encode tx ∷ []) (n - (4 + length (encode tx)))
            ∙ ap (λ r. wal_of r (left (n - (4 + length (encode tx))) txs))
                (append_assoc records (encode tx ∷ [])
                  (map encode (accepted (n - (4 + length (encode tx))) txs))))
      ]

-- What the transactions add to the totals, one after the other.
abbrev pub tally_each : List Transaction → Db → Db
tally_each [] db = db
tally_each (tx ∷ txs) db = tally_each txs (tally tx db)

module _ (encode : Transaction → Bytes) (decode : Bytes → Option Transaction) where
  tally_all-map :
      (round_trip : (tx : Transaction) → decode (encode tx) ≡ some tx)
      → (txs : List Transaction) (db : Db)
      → tally_all decode (map encode txs) db ≡ tally_each txs db
  unfolding tally_bytes
  tally_all-map round_trip [] db = refl
  tally_all-map round_trip (tx ∷ txs) db =
      let one : tally_bytes decode (encode tx) db ≡ tally tx db =
        rw (round_trip tx, tally_bytes) refl in
      ap (tally_all decode (map encode txs)) one ∙ tally_all-map round_trip txs (tally tx db)

  pub accepted-IsRecord :
      (n : ℕ) (txs : List Transaction)
      → All (λ tx. IsRecord (encode tx)) txs
      → All IsRecord (map encode (accepted encode n txs))
  accepted-IsRecord n [] h = tt
  accepted-IsRecord n (tx ∷ txs) h =
      let size = 4 + length (encode tx) in
      let passed = accepted-IsRecord n txs h.1 in
      let kept = accepted-IsRecord (n - size) txs h.1 in
      if_cases (λ l. All IsRecord (map encode l)) (ltb n size) (λ _. passed) (λ _. (h.0, kept))

  -- The sweep over the records that stand behind the first ones.
  sweep-later :
      (records news : List Bytes) (n : ℕ) (db : Db)
      → All IsRecord news
      → (let w = wal_of (records ++ news) n in
          sweep decode (length w.mmap) w.mmap (length (frames records)) db
          ≡ (w.offset, tally_all decode news db))
  sweep-later records news n db h =
      let w = wal_of (records ++ news) n in
      let pre = frames records in
      let start = length pre in
      let split = frames-append records news in
      let mmap : w.mmap ≡ pre ++ (frames news ++ replicate n 0) =
        ap (λ z. z ++ replicate n 0) split ∙ append_assoc pre (frames news) (replicate n 0) in
      let enough : length news ≤ length w.mmap = omega (
        arith,
        ap length split,
        length-append (frames (records ++ news)) (replicate n 0),
        length-append pre (frames news),
        length-frames news,
      ) in
      ap (λ m. sweep decode (length w.mmap) m start db) mmap
      ∙ (sweep-frames decode (length w.mmap) pre news n db h enough
          ∙ ap (λ z. (length z, tally_all decode news db)) (sym split))

  -- What the theorem below states of a log.
  abbrev pub Swept : List Transaction → Db → Wal → Type 0
  Swept later db w =
      let w' = write_records encode later w in
      sweep decode (length w'.mmap) w'.mmap w.offset db
      ≡ (w'.offset, tally_each (accepted encode (length w.mmap - w.offset) later) db)

  wal_of-Swept :
      ((tx : Transaction) → decode (encode tx) ≡ some tx)
      → (records : List Bytes) (n : ℕ) (later : List Transaction) (db : Db)
      → All (λ tx. IsRecord (encode tx)) later
      → Swept later db (wal_of records n)
  wal_of-Swept round_trip records n later db h =
      let pre = frames records in
      let room : n ≡ length (pre ++ replicate n 0) - length pre =
        omega (arith, length-append pre (replicate n 0), length-replicate {A = ℕ} n 0) in
      let news = map encode (accepted encode n later) in
      let swept = sweep-later records news (left encode n later) db (accepted-IsRecord n later h) in
      let W : Wal → Type 0 = λ w'.
        sweep decode (length w'.mmap) w'.mmap (length pre) db
        ≡ (w'.offset, tally_all decode news db) in
      subst W (sym (write_records-wal_of encode later records n)) swept
      ∙ ap (λ d. ((write_records encode later (wal_of records n)).offset, d))
          (tally_all-map round_trip (accepted encode n later) db
            ∙ ap (λ m. tally_each (accepted encode m later) db) room)

  -- Sweeping from where the log ended adds each transaction that the journal has accepted since to the
  -- totals exactly once, in order, and moves the cursor to the log's new end, whatever was journaled
  -- before: if the decoder inverts the encoder, and the new transactions have encodings that are
  -- neither empty nor of 2^32 bytes and more.
  pub sweep-write_records :
      ((tx : Transaction) → decode (encode tx) ≡ some tx)
      → (size : ℕ) (earlier later : List Transaction) (db : Db)
      → All (λ tx. IsRecord (encode tx)) later
      → (let w = write_records encode earlier (new_wal size) in
          let w' = write_records encode later w in
          sweep decode (length w'.mmap) w'.mmap w.offset db
          ≡ (w'.offset, tally_each (accepted encode (length w.mmap - w.offset) later) db))
  sweep-write_records round_trip size earlier later db h =
      subst (Swept later db) (sym (write_records-wal_of encode earlier [] size)) (
        wal_of-Swept round_trip (map encode (accepted encode size earlier))
          (left encode size earlier) later db h)
