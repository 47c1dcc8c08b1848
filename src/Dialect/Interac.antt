-- ===== src/Dialect/Interac.antt =====
-- `InteracDialect` of payment-proto/src/dialects/interac.rs.
pub mod RoundTrip
use iso8583paymentsengine.Base.{ℕ, some, ◌++◌, ltb, ◌==◌, if◌then◌else◌, length}
use iso8583paymentsengine.Base.Text.{Bytes, codes, bytes_eq}
use iso8583paymentsengine.Base.Utf8.{from_utf8_lossy}
use iso8583paymentsengine.Canonical.{UniversalPaymentEvent}
use iso8583paymentsengine.Dialect.Fields.{
  Outcome, ok, err, ◌>>=◌, length_error, is_bit_set, read_fixed, read_lllvar, write_lllvar,
}
use iso8583paymentsengine.Dialect.Event.{
  blank_event, empty_frame, write_pan, write_common, write_routing, write_some, write_pin,
  response_mti,
}
use iso8583paymentsengine.Dialect.Subset.{Cursor, store_read, read_subset, for_fields}

-- The `match field`, with field 48 stored whole and the settlement data of field 63.
unfoldable pub read_interac : Bytes → ℕ → Cursor → Outcome Cursor
unfolding store_read read_subset
read_interac raw field (tx, offset) =
    if field == 48
    then store_read (λ b t. record t { tavv_cryptogram = some (from_utf8_lossy b) }) tx
        (read_lllvar raw offset)
    else if field == 63
    then store_read (λ b t. record t { domestic_settlement_data = some (from_utf8_lossy b) }) tx
        (read_lllvar raw offset)
    else read_subset raw field (tx, offset)

unfoldable pub parse : Bytes → Outcome UniversalPaymentEvent
unfolding for_fields bytes_eq
parse raw =
    if ltb (length raw) 12
    then err length_error
    else (read_fixed raw 0 4 >>= λ (mti, at). read_fixed raw at 8 >>= λ (bitmap, at').
        (let tx = record (blank_event mti) {
          requires_instant_clearing = bytes_eq mti (codes "0200");
        } in
          for_fields (is_bit_set bitmap) (read_interac raw) 64 1 (tx, at') >>= λ (tx', _). ok tx'))

unfoldable pub build_response : UniversalPaymentEvent → Bytes
build_response e =
    let early = write_routing e (write_common e (write_pan e empty_frame)) in
    let f52 = write_pin e (write_some e.tavv_cryptogram 48 write_lllvar early) in
    let f = write_some e.domestic_settlement_data 63 write_lllvar f52 in
    response_mti e ++ (f.bitmap ++ f.payload)
