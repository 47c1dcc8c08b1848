-- ===== src/Wal/Settle.antt =====
-- The settlement daemon, switch-core/src/bin/settle.rs: its sweep over the write-ahead log, and the
-- cutoff of the day's totals.
use iso8583paymentsengine.Base.{
  ℕ, zero, suc, ◌+◌, ◌-◌, ◌*◌, ◌%◌, ◌^◌, Bool, ◌&&◌, ◌||◌, Option, none, some, List, [], ◌∷◌, ◌++◌,
  ltb, leb, ◌==◌, if◌then◌else◌, length, take, drop, get_or,
}
use iso8583paymentsengine.Base.Text.{Bytes, codes, bytes_eq}
use iso8583paymentsengine.Base.Utf8.{from_utf8_lossy}
use iso8583paymentsengine.Base.Dict.{Dict, lookup, insert, remove}
use iso8583paymentsengine.Base.Digits.{format_uint}
use iso8583paymentsengine.Base.Int.{as_u64}
use iso8583paymentsengine.Canonical.{Transaction}

-- The tally database: every value is a 64-bit number.
abbrev pub Db : Type 0
Db = Dict ℕ

abbrev pub get_number : Bytes → Db → ℕ
get_number key db = elim (lookup key db) [ none ↦ 0 | some n ↦ n ]

abbrev pub count_key : Bytes → Bytes
count_key acquirer_id = acquirer_id ++ codes "_count"

abbrev pub cursor_key : Bytes
cursor_key = codes "cursor_offset"

-- What an approved authorization adds to its acquirer's totals.
unfoldable pub tally : Transaction → Db → Db
unfolding bytes_eq lookup insert
tally tx db =
    if bytes_eq tx.mti (codes "0100") && bytes_eq tx.response_code (codes "00")
    then (let current_total = get_number tx.acquirer_id db in
        let current_count = get_number (count_key tx.acquirer_id) db in
        insert (count_key tx.acquirer_id) ((current_count + 1) % 2 ^ 64)
          (insert tx.acquirer_id ((current_total + as_u64 tx.amount) % 2 ^ 64) db))
    else db

-- `u32::from_be_bytes` of the four bytes at the cursor.
abbrev pub from_be_bytes : Bytes → ℕ
from_be_bytes bytes =
    get_or bytes 0 0 * 2 ^ 24
    + get_or bytes 1 0 * 2 ^ 16
    + get_or bytes 2 0 * 2 ^ 8
    + get_or bytes 3 0

-- The protobuf decoder is prost's.
module _ (decode : Bytes → Option Transaction) where
  unfoldable pub tally_bytes : Bytes → Db → Db
  unfolding tally
  tally_bytes bytes db = elim (decode bytes) [ none ↦ db | some tx ↦ tally tx db ]

  -- The `while` loop; a record takes five bytes at least, so the file's length is fuel enough.
  unfoldable pub sweep : ℕ → Bytes → ℕ → Db → ℕ × Db
  unfolding tally_bytes
  sweep zero mmap cursor db = (cursor, db)
  sweep (suc fuel) mmap cursor db =
      let len = from_be_bytes (drop cursor mmap) in
      let later =
        sweep fuel mmap (cursor + (4 + len)) (tally_bytes (take len (drop (cursor + 4) mmap)) db) in
      if leb (cursor + 4) (length mmap)
      then (if len == 0
          then (cursor, db)
          else if ltb (length mmap) (cursor + (4 + len))
          then (cursor, db)
          else later)
      else (cursor, db)

  -- One tick of `run_settlement_loop`, with the file there.
  unfoldable pub settle_tick : Bytes → Db → Db
  unfolding sweep
  settle_tick mmap db =
      let cursor = get_number cursor_key db in
      let (at, db') = sweep (length mmap) mmap cursor db in
      if ltb (length mmap) 4 || leb (length mmap) cursor then db else insert cursor_key at db'

-- `key.ends_with(suffix)`
unfoldable pub ends_with : Bytes → Bytes → Bool
ends_with suffix key =
    leb (length suffix) (length key) && bytes_eq suffix (drop (length key - length suffix) key)

abbrev pub is_system_key : Bytes → Bool
is_system_key key = bytes_eq key cursor_key || ends_with (codes "_count") key

-- The rows of the report, and the keys to reset, over the entries that the iterator yields.
unfoldable pub cutoff_rows : Dict ℕ → Db → List (List Bytes) × List Bytes
cutoff_rows [] db = ([], [])
cutoff_rows ((key, total_amt) ∷ entries) db =
    let k_str = from_utf8_lossy key in
    let (rows, keys) = cutoff_rows entries db in
    let count_val = get_number (count_key k_str) db in
    if is_system_key k_str then (rows, keys) else (
      (k_str ∷ format_uint count_val ∷ format_uint total_amt ∷ []) ∷ rows,
      k_str ∷ count_key k_str ∷ keys,
    )

unfoldable pub remove_all : List Bytes → Db → Db
remove_all [] db = db
remove_all (k ∷ ks) db = remove_all ks (remove k db)

-- The report, its header first, and the database that is left.
unfoldable pub execute_cutoff : Db → List (List Bytes) × Db
unfolding cutoff_rows remove_all
execute_cutoff db =
    let (rows, keys_to_reset) = cutoff_rows db db in
    (
      (codes "Acquirer ID" ∷ codes "Total Count" ∷ codes "Total Settlement Amount" ∷ []) ∷ rows,
      remove_all keys_to_reset db,
    )
