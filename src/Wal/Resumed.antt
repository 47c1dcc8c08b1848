-- ===== src/Wal/Resumed.antt =====
-- The tick of the settlement daemon that follows its cutoff.
use iso8583paymentsengine.Base.{
  ℕ, ◌-◌, ◌<◌, ◌≤◌, ◌≡◌, refl, ap, ◌∙◌, false, ◌||◌, Option, some, List, length, leb, ltb, All,
  arith,
}
use iso8583paymentsengine.Base.Text.{Bytes}
use iso8583paymentsengine.Base.Dict.{lookup, insert}
use iso8583paymentsengine.Canonical.{Transaction}
use iso8583paymentsengine.Wal.Journal.{Wal, new_wal, write_records}
use iso8583paymentsengine.Wal.Settle.{
  Db, cursor_key, get_number, sweep, settle_tick, execute_cutoff,
}
use iso8583paymentsengine.Wal.Frames.{IsRecord}
use iso8583paymentsengine.Wal.Cutoff.{execute_cutoff-cursor}
use iso8583paymentsengine.Wal.Settled.{accepted, tally_each, sweep-write_records}

module _ (encode : Transaction → Bytes) (decode : Bytes → Option Transaction) where
  -- A tick that its guards let through is the sweep from the stored cursor.
  settle_tick-sweep :
      (mmap : Bytes) (cursor at : ℕ) (db db' : Db)
      → lookup cursor_key db ≡ some cursor
      → 4 ≤ length mmap
      → cursor < length mmap
      → sweep decode (length mmap) mmap cursor db ≡ (at, db')
      → settle_tick decode mmap db ≡ insert cursor_key at db'
  unfolding settle_tick
  settle_tick-sweep mmap cursor at db db' stored long behind swept =
      let passes : (ltb (length mmap) 4 || leb (length mmap) cursor) ≡ false = ground arith in
      let found : get_number cursor_key db ≡ cursor = rw (stored, get_number) refl in
      rw (found, passes) (ap (λ r. insert cursor_key r.0 r.1) swept)

  -- The log after these transactions, in a file of this size.
  abbrev pub log : ℕ → List Transaction → Wal
  log size earlier = write_records encode earlier (new_wal size)

  -- The tick after a cutoff tallies what was journaled since the last sweep, and nothing that was
  -- swept before the cutoff: if the stored cursor is the end of the log at the cutoff, the log's file
  -- has four bytes at least and goes on behind that place, the decoder inverts the encoder, and the new
  -- transactions have encodings that are neither empty nor of 2^32 bytes and more. The tick adds each
  -- new transaction that the log accepted exactly once, in order, to the totals that the cutoff left,
  -- and stores the log's new end as the cursor.
  pub settle_tick-execute_cutoff :
      ((tx : Transaction) → decode (encode tx) ≡ some tx)
      → (size : ℕ) (earlier later : List Transaction) (db : Db)
      → All (λ tx. IsRecord (encode tx)) later
      → lookup cursor_key db ≡ some (log size earlier).offset
      → 4 ≤ length (write_records encode later (log size earlier)).mmap
      → (log size earlier).offset < length (write_records encode later (log size earlier)).mmap
      → (let w = log size earlier in
          let w' = write_records encode later w in
          let reset = (execute_cutoff db).1 in
          settle_tick decode w'.mmap reset
          ≡ insert cursor_key w'.offset
              (tally_each (accepted encode (length w.mmap - w.offset) later) reset))
  settle_tick-execute_cutoff round_trip size earlier later db h stored long behind =
      let w = log size earlier in
      let w' = write_records encode later w in
      let reset = (execute_cutoff db).1 in
      settle_tick-sweep w'.mmap w.offset w'.offset reset
        (tally_each (accepted encode (length w.mmap - w.offset) later) reset)
        (execute_cutoff-cursor db ∙ stored) long behind
        (sweep-write_records encode decode round_trip size earlier later reset h)
