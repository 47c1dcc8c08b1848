-- ===== src/Wal/Journal.antt =====
-- The journal's writer thread, switch-core/src/journal.rs: each transaction behind its length, in a
-- file of a fixed size that starts as zeros.
use iso8583paymentsengine.Base.{
  ℕ, ◌+◌, ◌/◌, ◌%◌, ◌^◌, List, [], ◌∷◌, ◌++◌, ltb, if◌then◌else◌, length, take, drop, replicate,
}
use iso8583paymentsengine.Base.Text.{Bytes}
use iso8583paymentsengine.Canonical.{Transaction}

-- The mapped file, and where the next record goes.
pub record Wal : Type 0 where
  pub mmap : Bytes
  pub offset : ℕ

abbrev pub new_wal : ℕ → Wal
new_wal size = record { mmap = replicate size 0; offset = 0 }

-- `mmap[at..at + bytes.len()].copy_from_slice(bytes)`, inside the file.
unfoldable pub copy_at : ℕ → Bytes → Bytes → Bytes
copy_at at bytes mmap = take at mmap ++ (bytes ++ drop (at + length bytes) mmap)

-- `(n as u32).to_be_bytes()`
abbrev pub to_be_bytes : ℕ → Bytes
to_be_bytes n = (n / 2 ^ 24) % 256 ∷ (n / 2 ^ 16) % 256 ∷ (n / 2 ^ 8) % 256 ∷ n % 256 ∷ []

-- The protobuf encoding is prost's.
module _ (encode : Transaction → Bytes) where
  -- A record that does not fit is dropped.
  unfoldable pub write_record : Transaction → Wal → Wal
  unfolding copy_at
  write_record tx w =
      let encoded = encode tx in
      if ltb (length w.mmap) (w.offset + (4 + length encoded)) then w else record {
        mmap =
            copy_at (w.offset + 4) encoded (copy_at w.offset (to_be_bytes (length encoded)) w.mmap);
        offset = w.offset + 4 + length encoded;
      }

  unfoldable pub write_records : List Transaction → Wal → Wal
  unfolding write_record
  write_records [] w = w
  write_records (tx ∷ txs) w = write_records txs (write_record tx w)
