-- ===== src/Dialect/Standard.antt =====
-- `StandardDialect` of payment-proto/src/iso_dialect.rs, with its data dictionaries.
pub mod RoundTrip
use iso8583paymentsengine.Base.{
  ℕ, zero, suc, ◌+◌, ◌*◌, bit_and, Bool, not, ◌&&◌, ◌||◌, Option, none, some, [], ◌++◌, ltb, ◌==◌,
  if◌then◌else◌, length, get_or,
}
use iso8583paymentsengine.Base.Text.{Bytes}
use iso8583paymentsengine.Base.Utf8.{from_utf8_lossy}
use iso8583paymentsengine.Canonical.{UniversalPaymentEvent}
use iso8583paymentsengine.Dialect.Fields.{
  Outcome, ok, err, panic, ◌>>=◌, length_error, invalid_format, is_bit_set, read_fixed, read_llvar,
  read_lllvar, write_lllvar,
}
use iso8583paymentsengine.Dialect.Event.{
  blank_event, is_reversal_mti, parse_amount, store_entry_mode, store_private_data, empty_frame,
  write_pan, write_common, write_routing, write_some, write_pin, response_mti,
}

pub data FieldType : Type 0 where
  fixed : ℕ → FieldType
  llvar lllvar : FieldType

-- `Iso1987Dictionary::field_type`
unfoldable pub field_type_1987 : ℕ → Option FieldType
field_type_1987 field =
    if field == 2 || field == 32
    then some llvar
    else if field == 3 || field == 11 || field == 12
    then some (fixed 6)
    else if field == 4 || field == 37
    then some (fixed 12)
    else if field == 13
    then some (fixed 4)
    else if field == 22
    then some (fixed 3)
    else if field == 39
    then some (fixed 2)
    else if field == 48
    then some lllvar
    else if field == 52 || field == 64 || field == 128
    then some (fixed 16)
    else if field == 90
    then some (fixed 42)
    else none

-- `Iso1993Dictionary` and `Iso2003Dictionary` delegate.
unfoldable pub field_type_1993 : ℕ → Option FieldType
unfolding field_type_1987
field_type_1993 = field_type_1987

unfoldable pub field_type_2003 : ℕ → Option FieldType
unfolding field_type_1987
field_type_2003 = field_type_1987

-- The dictionary that the first byte of the MTI selects.
unfoldable pub dictionary : ℕ → ℕ → Option FieldType
unfolding field_type_1987 field_type_1993 field_type_2003
dictionary version =
    if version == b'0'
    then field_type_1987
    else if version == b'1'
    then field_type_1993
    else if version == b'2'
    then field_type_2003
    else field_type_1987

-- The bitmaps, each with the bit that announces the next; at most three rounds can be made.
unfoldable pub read_bitmaps : ℕ → ℕ → Bytes → ℕ → Bytes → Outcome (Bytes × ℕ)
read_bitmaps zero bit_offset raw offset bitmap = panic
read_bitmaps (suc fuel) bit_offset raw offset bitmap = read_fixed raw offset 8 >>= λ (chunk, at).
    (let more = read_bitmaps fuel (bit_offset + 64) raw at (bitmap ++ chunk) in
      if not (bit_and (get_or chunk 0 0) 0x80 == 0) && ltb bit_offset 129
      then more
      else ok (bitmap ++ chunk, at))

unfoldable pub read_typed : FieldType → Bytes → ℕ → Outcome (Bytes × ℕ)
read_typed (fixed len) raw offset = read_fixed raw offset len
read_typed llvar raw offset = read_llvar raw offset
read_typed lllvar raw offset = read_lllvar raw offset

-- The `match field` on the field's bytes; the flag is bit 1 of the bitmap.
unfoldable pub store_field :
    Bool → ℕ → Bytes → UniversalPaymentEvent → Outcome UniversalPaymentEvent
store_field extended field bytes tx =
    let text = from_utf8_lossy bytes in
    if field == 2
    then ok (record tx { fpan = bytes })
    else if field == 3
    then ok (record tx { processing_code = text })
    else if field == 4
    then ok (record tx { amount = parse_amount bytes })
    else if field == 11
    then ok (record tx { stan = text })
    else if field == 12
    then ok (record tx { local_time = text })
    else if field == 13
    then ok (record tx { local_date = text })
    else if field == 22
    then ok (store_entry_mode bytes tx)
    else if field == 32
    then ok (record tx { acquirer_id = bytes })
    else if field == 37
    then ok (record tx { rrn = text })
    else if field == 39
    then ok (record tx { response_code = text })
    else if field == 48
    then store_private_data bytes tx
    else if field == 52
    then ok (record tx { pin_block = bytes })
    else if field == 64
    then ok (if extended then tx else record tx { mac_data = some text })
    else if field == 90
    then ok (record tx { original_data_elements = some text })
    else if field == 128
    then ok (if extended then record tx { mac_data = some text } else tx)
    else ok tx

abbrev pub is_extension : ℕ → Bool
is_extension field = field == 1 || field == 65 || field == 129

-- One round of the loop over the fields.
unfoldable pub read_field :
    (ℕ → Option FieldType)
    → Bytes
    → Bytes
    → ℕ
    → UniversalPaymentEvent × ℕ
    → Outcome (UniversalPaymentEvent × ℕ)
read_field dict bitmap raw field (tx, offset) =
    if is_extension field
    then ok (tx, offset)
    else if is_bit_set bitmap field
    then elim (dict field) [
      | none ↦ err invalid_format
      | some type ↦ read_typed type raw offset >>= λ (bytes, at).
          store_field (is_bit_set bitmap 1) field bytes tx >>= λ tx'. ok (tx', at)
    ]
    else ok (tx, offset)

-- The rounds left, from this field on.
unfoldable pub read_fields :
    (ℕ → Option FieldType)
    → Bytes
    → Bytes
    → ℕ
    → ℕ
    → UniversalPaymentEvent × ℕ
    → Outcome (UniversalPaymentEvent × ℕ)
read_fields dict bitmap raw zero field st = ok st
read_fields dict bitmap raw (suc left) field st =
    read_field dict bitmap raw field st >>= λ st'. read_fields dict bitmap raw left (field + 1) st'

unfoldable pub parse : Bytes → Outcome UniversalPaymentEvent
parse raw =
    if ltb (length raw) 12
    then err length_error
    else (read_fixed raw 0 4 >>= λ (mti, at). read_bitmaps 3 1 raw at [] >>= λ (bitmap, at').
        (let tx = record (blank_event mti) { is_reversal = is_reversal_mti mti } in
          read_fields (dictionary (get_or mti 0 0)) bitmap raw (length bitmap * 8) 1 (tx, at')
          >>= λ (tx', _). ok tx'))

unfoldable pub build_response : UniversalPaymentEvent → Bytes
build_response e =
    let early = write_routing e (write_common e (write_pan e empty_frame)) in
    let f48 =
      if e.is_tokenized then write_some e.tavv_cryptogram 48 write_lllvar early else early in
    let f = write_pin e f48 in response_mti e ++ (f.bitmap ++ f.payload)
