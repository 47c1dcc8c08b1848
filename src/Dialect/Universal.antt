-- ===== src/Dialect/Universal.antt =====
-- `universal_decode`, `universal_encode` and the `DialectRouter` of iso-dialect/src/lib.rs.
pub mod RoundTrip
use iso8583paymentsengine.Base.{ℕ, ◌++◌, ltb, ◌==◌, if◌then◌else◌, length}
use iso8583paymentsengine.Base.Text.{Bytes}
use iso8583paymentsengine.Base.Utf8.{from_utf8_lossy}
use iso8583paymentsengine.Canonical.{UniversalPaymentEvent}
use iso8583paymentsengine.Dialect.Fields.{
  Outcome, ok, err, ◌>>=◌, length_error, is_bit_set, read_fixed, read_lllvar, write_lllvar,
}
use iso8583paymentsengine.Dialect.Event.{
  blank_event, is_reversal_mti, store_private_data, store_cryptogram, empty_frame, write_pan,
  write_common, write_routing, write_some, write_pin, response_mti,
}
use iso8583paymentsengine.Dialect.Subset.{Cursor, store_read, read_subset, for_fields}

-- The `match field`, with the fields 48 and 126 that only this dialect reads.
unfoldable pub read_universal : Bytes → ℕ → Cursor → Outcome Cursor
unfolding store_read read_subset
read_universal raw field (tx, offset) =
    if field == 48
    then (read_lllvar raw offset >>= λ (bytes, at).
        store_private_data bytes tx >>= λ tx'. ok (tx', at))
    else if field == 126
    then store_read (λ b t. store_cryptogram (from_utf8_lossy b) t) tx (read_lllvar raw offset)
    else read_subset raw field (tx, offset)

unfoldable pub universal_decode : Bytes → Outcome UniversalPaymentEvent
unfolding for_fields
universal_decode raw =
    if ltb (length raw) 12
    then err length_error
    else (read_fixed raw 0 4 >>= λ (mti, at). read_fixed raw at 8 >>= λ (bitmap, at').
        (let tx = record (blank_event mti) { is_reversal = is_reversal_mti mti } in
          for_fields (is_bit_set bitmap) (read_universal raw) 64 1 (tx, at') >>= λ (tx', _).
          ok tx'))

unfoldable pub universal_encode : UniversalPaymentEvent → Outcome Bytes
universal_encode tx =
    let early = write_routing tx (write_common tx (write_pan tx empty_frame)) in
    let f48 =
      if tx.is_tokenized then write_some tx.tavv_cryptogram 48 write_lllvar early else early in
    let f = write_pin tx f48 in ok (response_mti tx ++ (f.bitmap ++ f.payload))

pub data DialectRouter : Type 0 where
  base24 connex : DialectRouter

unfoldable pub decode : DialectRouter → Bytes → Outcome UniversalPaymentEvent
unfolding universal_decode
decode base24 raw = universal_decode raw
decode connex raw = universal_decode raw

unfoldable pub encode : DialectRouter → UniversalPaymentEvent → Outcome Bytes
unfolding universal_encode
encode base24 tx = universal_encode tx
encode connex tx = universal_encode tx
