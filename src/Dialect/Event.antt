-- ===== src/Dialect/Event.antt =====
-- What the dialects share: the event that a parser starts from, the fields that it stores, and the
-- fields that a builder writes.
use iso8583paymentsengine.Base.{
  ℕ, ◌^◌, Bool, true, false, not, ◌&&◌, ◌||◌, Option, none, some, [], ◌++◌, ltb, leb, if◌then◌else◌,
  length, take, replicate,
}
use iso8583paymentsengine.Base.Text.{Bytes, codes, bytes_eq, starts_with, is_empty, slice}
use iso8583paymentsengine.Base.Utf8.{from_utf8_lossy}
use iso8583paymentsengine.Base.Digits.{parse_uint, format_padded}
use iso8583paymentsengine.Canonical.{MessageClass, financial, purchase, UniversalPaymentEvent}
use iso8583paymentsengine.Canonical.Convert.{class_of_mti}
use iso8583paymentsengine.Dialect.Fields.{
  Outcome, ok, panic, ◌>>=◌, set_bit, write_fixed, write_llvar,
}

-- The event before any field is read.
unfoldable pub blank_event : Bytes → UniversalPaymentEvent
blank_event mti = record {
  message_class = class_of_mti mti;
  transaction_type = purchase;
  mti = mti;
  fpan = [];
  dpan = none;
  is_tokenized = false;
  tavv_cryptogram = none;
  processing_code = [];
  amount = 0;
  stan = [];
  local_time = [];
  local_date = [];
  rrn = [];
  response_code = [];
  acquirer_id = [];
  pin_block = [];
  risk_score = 0;
  requires_instant_clearing = false;
  domestic_settlement_data = none;
  source_account = none;
  destination_account = none;
  original_data_elements = none;
  mac_data = none;
  is_reversal = false;
}

-- The MTIs that mark a reversal.
unfoldable pub is_reversal_mti : Bytes → Bool
unfolding bytes_eq
is_reversal_mti mti =
    bytes_eq mti (codes "0400") || bytes_eq mti (codes "0420") || bytes_eq mti (codes "1420")

-- `amt_str.parse().unwrap_or(0)`
unfoldable pub parse_amount : Bytes → ℕ
parse_amount text = elim (parse_uint (2 ^ 64) (from_utf8_lossy text)) [ none ↦ 0 | some n ↦ n ]

-- Field 22 sets the flag and never clears it.
unfoldable pub store_entry_mode : Bytes → UniversalPaymentEvent → UniversalPaymentEvent
unfolding bytes_eq
store_entry_mode bytes tx =
    let entry_mode = from_utf8_lossy bytes in
    if bytes_eq entry_mode (codes "071") || bytes_eq entry_mode (codes "072")
    then record tx { is_tokenized = true }
    else tx

unfoldable pub store_score : Bytes → UniversalPaymentEvent → UniversalPaymentEvent
store_score text tx = elim (parse_uint 256 text) [
  | none ↦ tx
  | some score ↦ record tx { risk_score = score }
]

unfoldable pub store_cryptogram : Bytes → UniversalPaymentEvent → UniversalPaymentEvent
store_cryptogram text tx = if tx.is_tokenized then record tx { tavv_cryptogram = some text } else tx

-- Slicing a `String`.
unfoldable pub cut : ℕ → ℕ → Bytes → Outcome Bytes
cut lo hi s = elim (slice lo hi s) [ none ↦ panic | some t ↦ ok t ]

-- Field 48: the risk score of a `RSK:NNN:` prefix, and the cryptogram behind it.
unfoldable pub store_private_data : Bytes → UniversalPaymentEvent → Outcome UniversalPaymentEvent
unfolding starts_with cut
store_private_data bytes tx =
    let f48 = from_utf8_lossy bytes in
    if starts_with (codes "RSK:") f48 && leb 8 (length f48)
    then (cut 4 7 f48 >>= λ score. cut 8 (length f48) f48 >>= λ remainder.
        (let scored = store_score score tx in
          ok (if is_empty remainder then scored else store_cryptogram remainder scored)))
    else ok (store_cryptogram f48 tx)

-- The bitmap and the payload of a message that is being built.
pub record Frame : Type 0 where
  pub bitmap : Bytes
  pub payload : Bytes

abbrev pub empty_frame : Frame
empty_frame = record { bitmap = replicate 8 0; payload = [] }

-- `if present { set_bit(&mut bitmap, field); write…(&mut payload, …); }`
unfoldable pub write_if : Bool → ℕ → Bytes → Frame → Frame
write_if present field bytes f =
    if present then record { bitmap = set_bit f.bitmap field; payload = f.payload ++ bytes } else f

abbrev pub is_financial : MessageClass → Bool
is_financial financial = true
is_financial _ = false

-- Whether the amount is written: if it is positive, or if the message is a financial 02xx.
unfoldable pub has_amount : UniversalPaymentEvent → Bool
unfolding starts_with
has_amount e = ltb 0 e.amount || (starts_with (codes "02") e.mti && is_financial e.message_class)

-- Fields 3 to 13, the same in all builders.
unfoldable pub write_common : UniversalPaymentEvent → Frame → Frame
write_common e f =
    let f3 =
      write_if (not (is_empty e.processing_code)) 3 (write_fixed e.processing_code 6 b'0' false)
        f in
    let f4 = write_if (has_amount e) 4 (write_fixed (format_padded 12 e.amount) 12 b'0' false) f3 in
    let f11 = write_if (not (is_empty e.stan)) 11 (write_fixed e.stan 6 b'0' false) f4 in
    let f12 =
      write_if (not (is_empty e.local_time)) 12 (write_fixed e.local_time 6 b'0' false) f11 in
    write_if (not (is_empty e.local_date)) 13 (write_fixed e.local_date 4 b'0' false) f12

-- Fields 22 to 39, the same in all builders.
unfoldable pub write_routing : UniversalPaymentEvent → Frame → Frame
write_routing e f =
    let f22 = write_if e.is_tokenized 22 (write_fixed (codes "071") 3 b'0' false) f in
    let f32 = write_if (not (is_empty e.acquirer_id)) 32 (write_llvar e.acquirer_id) f22 in
    let f37 = write_if (not (is_empty e.rrn)) 37 (write_fixed e.rrn 12 b' ' true) f32 in
    write_if (not (is_empty e.response_code)) 39 (write_fixed e.response_code 2 b' ' false) f37

unfoldable pub write_pan : UniversalPaymentEvent → Frame → Frame
write_pan e = write_if (not (is_empty e.fpan)) 2 (write_llvar e.fpan)

unfoldable pub write_pin : UniversalPaymentEvent → Frame → Frame
write_pin e = write_if (not (is_empty e.pin_block)) 52 (write_fixed e.pin_block 16 b'0' false)

-- A field that is written if its value is there.
unfoldable pub write_some : Option Bytes → ℕ → (Bytes → Bytes) → Frame → Frame
write_some none field write f = f
write_some (some v) field write f = write_if true field (write v) f

-- The MTI of the event, or 0110 if that is shorter than four bytes.
unfoldable pub response_mti : UniversalPaymentEvent → Bytes
response_mti e = if leb 4 (length e.mti) then take 4 e.mti else codes "0110"
