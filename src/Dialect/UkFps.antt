-- ===== src/Dialect/UkFps.antt =====
-- `UkFpsDialect` of payment-proto/src/dialects/uk_fps.rs.
pub mod Accounts
pub mod RoundTrip
use iso8583paymentsengine.Base.{
  ℕ, ◌-◌, Bool, false, Option, none, some, [], ◌++◌, ltb, leb, ◌==◌, if◌then◌else◌, length,
  replicate,
}
use iso8583paymentsengine.Base.Text.{Bytes, codes, is_empty}
use iso8583paymentsengine.Base.Utf8.{from_utf8_lossy}
use iso8583paymentsengine.Canonical.{UniversalPaymentEvent}
use iso8583paymentsengine.Dialect.Fields.{
  Outcome, ok, err, ◌>>=◌, length_error, set_bit, is_bit_set, read_fixed, read_llvar, write_llvar,
}
use iso8583paymentsengine.Dialect.Event.{
  blank_event, Frame, empty_frame, write_common, write_routing, write_pin, response_mti,
}
use iso8583paymentsengine.Dialect.Subset.{Cursor, store_read, read_subset, for_fields}

-- The source account stands in for the PAN that a message without field 2 lacks.
unfoldable pub store_source : Bytes → UniversalPaymentEvent → UniversalPaymentEvent
store_source bytes tx =
    let f102 = from_utf8_lossy bytes in
    let tx' = record tx { source_account = some f102 } in
    if is_empty tx.fpan then record tx' { fpan = codes "UKFPS-" ++ f102 } else tx'

-- The `match field`, with the accounts of the fields 102 and 103.
unfoldable pub read_uk_fps : Bytes → ℕ → Cursor → Outcome Cursor
unfolding store_read read_subset store_source
read_uk_fps raw field (tx, offset) =
    if field == 102
    then store_read store_source tx (read_llvar raw offset)
    else if field == 103
    then store_read (λ b t. record t { destination_account = some (from_utf8_lossy b) }) tx
        (read_llvar raw offset)
    else read_subset raw field (tx, offset)

unfoldable pub is_set : Bytes → Bytes → ℕ → Bool
is_set bitmap secondary_bitmap field =
    if leb field 64
    then is_bit_set bitmap field
    else if is_bit_set bitmap 1
    then is_bit_set secondary_bitmap (field - 64)
    else false

-- The secondary bitmap, zeros if the first bit does not announce one.
unfoldable pub read_secondary : Bytes → Bytes → ℕ → Outcome (Bytes × ℕ)
read_secondary bitmap raw offset =
    if is_bit_set bitmap 1 then read_fixed raw offset 8 else ok (replicate 8 0, offset)

unfoldable pub parse : Bytes → Outcome UniversalPaymentEvent
unfolding for_fields read_secondary is_set
parse raw =
    if ltb (length raw) 12
    then err length_error
    else (read_fixed raw 0 4 >>= λ (mti, at). read_fixed raw at 8 >>= λ (bitmap, at').
        read_secondary bitmap raw at' >>= λ (secondary_bitmap, at'').
        for_fields (is_set bitmap secondary_bitmap) (read_uk_fps raw) 128 1 (blank_event mti, at'')
        >>= λ (tx, _). ok tx)

-- The two bitmaps and the payload; an account sets bit 1 and its bit of the second bitmap.
unfoldable pub write_account : Option Bytes → ℕ → Frame × Bytes → Frame × Bytes
write_account none field fs = fs
write_account (some account) field (f, secondary_bitmap) = (
  record { bitmap = set_bit f.bitmap 1; payload = f.payload ++ write_llvar account },
  set_bit secondary_bitmap (field - 64),
)

unfoldable pub build_response : UniversalPaymentEvent → Bytes
unfolding write_account
build_response e =
    let early = write_pin e (write_routing e (write_common e empty_frame)) in
    let f102 = write_account e.source_account 102 (early, replicate 8 0) in
    let (f, secondary_bitmap) = write_account e.destination_account 103 f102 in
    let extension = if is_bit_set f.bitmap 1 then secondary_bitmap else [] in
    response_mti e ++ (f.bitmap ++ (extension ++ f.payload))
