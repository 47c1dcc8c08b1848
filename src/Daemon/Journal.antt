-- ===== src/Daemon/Journal.antt =====
-- `get_journal` of payment-daemon/src/main.rs: the last hundred events of the write-ahead log, the latest
-- first.
use mathlib.Core.List.{reverse}
use iso8583paymentsengine.Base.{
  ℕ, zero, suc, ◌+◌, ◌||◌, Option, none, some, List, [], ◌∷◌, leb, ltb, ◌==◌, if◌then◌else◌, length,
  take, drop,
}
use iso8583paymentsengine.Base.Text.{Bytes}
use iso8583paymentsengine.Base.Int.{ℤ}
use iso8583paymentsengine.Canonical.{Transaction}
use iso8583paymentsengine.Wal.Settle.{from_be_bytes}

pub record JournalEvent : Type 0 where
  pub mti : Bytes
  pub rrn : Bytes
  pub amount : ℤ
  pub response_code : Bytes

abbrev pub event_of : Transaction → JournalEvent
event_of tx = record {
  mti = tx.mti;
  rrn = tx.rrn;
  amount = tx.amount;
  response_code = tx.response_code;
}

-- The protobuf decoder is prost's.
module _ (decode : Bytes → Option Transaction) where
  -- The event of a record, if it can be read, in front of those that follow.
  unfoldable pub push_event : Bytes → List JournalEvent → List JournalEvent
  push_event bytes later = elim (decode bytes) [ none ↦ later | some tx ↦ event_of tx ∷ later ]

  -- The `while` loop; a round takes five bytes at least, so the file's length is fuel enough.
  unfoldable pub journal_events : ℕ → Bytes → ℕ → List JournalEvent
  unfolding push_event
  journal_events zero mmap offset = []
  journal_events (suc fuel) mmap offset =
      let len = from_be_bytes (drop offset mmap) in
      let later = journal_events fuel mmap (offset + 4 + len) in
      if leb (offset + 4) (length mmap)
      then (if len == 0 || ltb (length mmap) (offset + 4 + len)
          then []
          else push_event (take len (drop (offset + 4) mmap)) later)
      else []

  unfoldable pub get_journal : Bytes → List JournalEvent
  unfolding journal_events
  get_journal mmap = take 100 (reverse (journal_events (length mmap) mmap 0))
