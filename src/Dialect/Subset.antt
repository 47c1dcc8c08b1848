-- ===== src/Dialect/Subset.antt =====
-- The fields that `universal_decode` of iso-dialect/src/lib.rs and the parsers of
-- payment-proto/src/dialects read in the same words, and the loop over the bits of a bitmap.
pub mod Plan
pub mod Lays
pub mod Steps
pub mod Common
pub mod Message
pub mod Cryptogram
use iso8583paymentsengine.Base.{ℕ, zero, suc, ◌+◌, Bool, ◌==◌, if◌then◌else◌}
use iso8583paymentsengine.Base.Text.{Bytes}
use iso8583paymentsengine.Base.Utf8.{from_utf8_lossy}
use iso8583paymentsengine.Canonical.{UniversalPaymentEvent}
use iso8583paymentsengine.Dialect.Fields.{Outcome, ok, ◌>>=◌, read_fixed, read_llvar}
use iso8583paymentsengine.Dialect.Event.{parse_amount, store_entry_mode}

-- The event so far, and the offset into the message.
abbrev pub Cursor : Type 0
Cursor = UniversalPaymentEvent × ℕ

-- Stores what a reader found and moves behind it.
unfoldable pub store_read :
    (Bytes → UniversalPaymentEvent → UniversalPaymentEvent)
    → UniversalPaymentEvent
    → Outcome (Bytes × ℕ)
    → Outcome Cursor
store_read store tx found = found >>= λ (bytes, at). ok (store bytes tx, at)

-- The arms of the `match field` that the parsers share. Any other field is skipped, and nothing is
-- read for it.
unfoldable pub read_subset : Bytes → ℕ → Cursor → Outcome Cursor
unfolding store_read
read_subset raw field (tx, offset) =
    if field == 2
    then store_read (λ b t. record t { fpan = b }) tx (read_llvar raw offset)
    else if field == 3
    then store_read (λ b t. record t { processing_code = from_utf8_lossy b }) tx
        (read_fixed raw offset 6)
    else if field == 4
    then store_read (λ b t. record t { amount = parse_amount b }) tx (read_fixed raw offset 12)
    else if field == 11
    then store_read (λ b t. record t { stan = from_utf8_lossy b }) tx (read_fixed raw offset 6)
    else if field == 12
    then store_read (λ b t. record t { local_time = from_utf8_lossy b }) tx
        (read_fixed raw offset 6)
    else if field == 13
    then store_read (λ b t. record t { local_date = from_utf8_lossy b }) tx
        (read_fixed raw offset 4)
    else if field == 22
    then store_read store_entry_mode tx (read_fixed raw offset 3)
    else if field == 32
    then store_read (λ b t. record t { acquirer_id = b }) tx (read_llvar raw offset)
    else if field == 37
    then store_read (λ b t. record t { rrn = from_utf8_lossy b }) tx (read_fixed raw offset 12)
    else if field == 39
    then store_read (λ b t. record t { response_code = from_utf8_lossy b }) tx
        (read_fixed raw offset 2)
    else if field == 52
    then store_read (λ b t. record t { pin_block = b }) tx (read_fixed raw offset 16)
    else ok (tx, offset)

-- The rounds left of `for field in …`, from this field on; a round is run if the field's bit is set.
unfoldable pub for_fields :
    (ℕ → Bool) → (ℕ → Cursor → Outcome Cursor) → ℕ → ℕ → Cursor → Outcome Cursor
for_fields is_set round zero field c = ok c
for_fields is_set round (suc left) field c =
    (if is_set field then round field c else ok c) >>= λ c'.
    for_fields is_set round left (field + 1) c'
