-- ===== src/Dialect/Interac/RoundTrip.antt =====
-- The parser of `InteracDialect`, payment-proto/src/dialects/interac.rs, on what its builder writes.
use mathlib.Core.Path.{subst}
use iso8583paymentsengine.Base.{
  ◌≤◌, ◌≡◌, ◌⊎◌, refl, sym, ap, ◌∙◌, Bool, false, some, [], ◌++◌, length, arith,
}
use iso8583paymentsengine.Base.Text.{Bytes, codes, IsAscii, bytes_eq}
use iso8583paymentsengine.Base.Utf8.{from_utf8_lossy, from_utf8_lossy-IsAscii}
use iso8583paymentsengine.Canonical.{UniversalPaymentEvent}
use iso8583paymentsengine.Dialect.Fields.{ok, write_lllvar}
use iso8583paymentsengine.Dialect.Event.{
  blank_event, Frame, empty_frame, write_pan, write_common, write_routing, write_some, write_pin,
}
use iso8583paymentsengine.Dialect.Subset.{read_subset}
use iso8583paymentsengine.Dialect.Subset.Lays.{Lays, Lays-empty}
use iso8583paymentsengine.Dialect.Subset.Steps.{Lays-fixed, Lays-llvar, Lays-some}
use iso8583paymentsengine.Dialect.Subset.Common.{
  FitsCommon, SharesArms, after_mti, after_2, after_39, Lays-routing,
}
use iso8583paymentsengine.Dialect.Subset.Message.{parse_with, parse_with-Lays, response_mti_whole}
use iso8583paymentsengine.Dialect.Interac.{read_interac, parse, build_response}

abbrev pub is_instant : Bytes → Bool
is_instant mti = bytes_eq mti (codes "0200")

-- An event that a message can carry: the common fields fit their places; the MTI has four bytes, the
-- PAN at most 99 and the PIN block, if there is one, sixteen; the cryptogram and the settlement data,
-- if they are there, are ASCII texts of at most 999 bytes; and what no field says is at its default.
pub record IsBuildable (e : UniversalPaymentEvent) : Type 0 where
  pub mti_length : length e.mti ≡ 4
  pub fpan_length : length e.fpan ≤ 99
  pub fits : FitsCommon e
  pub cryptogram : (t : Bytes) → e.tavv_cryptogram ≡ some t → IsAscii t × (length t ≤ 999)
  pub pin_block_length : (e.pin_block ≡ []) ⊎ (length e.pin_block ≡ 16)
  pub settlement_data :
      (t : Bytes) → e.domestic_settlement_data ≡ some t → IsAscii t × (length t ≤ 999)
  pub derived : e ≡ record (after_39 e false (is_instant e.mti) e.fpan) {
    tavv_cryptogram = e.tavv_cryptogram;
    pin_block = e.pin_block;
    domestic_settlement_data = e.domestic_settlement_data;
  }

read_interac-SharesArms : SharesArms read_interac
unfolding read_interac read_subset
read_interac-SharesArms = record {
  arm_3 = λ r t o. refl;
  arm_4 = λ r t o. refl;
  arm_11 = λ r t o. refl;
  arm_12 = λ r t o. refl;
  arm_13 = λ r t o. refl;
  arm_22 = λ r t o. refl;
  arm_32 = λ r t o. refl;
  arm_37 = λ r t o. refl;
  arm_39 = λ r t o. refl;
  arm_52 = λ r t o. refl;
}

module _ (e : UniversalPaymentEvent) (c : IsBuildable e) where
  abbrev start : UniversalPaymentEvent
  start = after_mti e false (is_instant e.mti) e.fpan

  Lays-pan :
      Lays read_interac 3
        (write_pan e empty_frame)
        start
        (after_2 e false (is_instant e.mti) e.fpan)
  unfolding blank_event write_pan read_interac read_subset
  Lays-pan =
      Lays-llvar read_interac 2 e.fpan (λ b t. record t { fpan = b }) (λ r t o. refl) c.fpan_length
        refl (λ z. ap (λ v. record start { fpan = v }) (sym z)) (omega arith) (omega arith)
        (omega arith) (Lays-empty read_interac start)

  -- The frame of the whole message.
  frame : Frame
  frame =
      let early = write_routing e (write_common e (write_pan e empty_frame)) in
      write_some e.domestic_settlement_data 63 write_lllvar
        (write_pin e (write_some e.tavv_cryptogram 48 write_lllvar early))

  Lays-frame : Lays read_interac 64 frame start e
  unfolding frame blank_event write_pin read_interac
  Lays-frame =
      let t39 = after_39 e false (is_instant e.mti) e.fpan in
      let t48 : UniversalPaymentEvent = record t39 { tavv_cryptogram = e.tavv_cryptogram } in
      let t52 : UniversalPaymentEvent = record t48 { pin_block = e.pin_block } in
      let t63 : UniversalPaymentEvent = record t52 {
        domestic_settlement_data = e.domestic_settlement_data;
      } in
      let f39 =
        Lays-routing read_interac read_interac-SharesArms e c.fits false (is_instant e.mti) e.fpan
          Lays-pan in
      let f48 =
        Lays-some read_interac 48 e.tavv_cryptogram
          (λ b t. record t { tavv_cryptogram = some (from_utf8_lossy b) }) {next = t48}
          (λ r t o. refl)
          (λ v is. (
            (c.cryptogram v is).1,
            ap (λ o. record t39 { tavv_cryptogram = o })
                (ap some (from_utf8_lossy-IsAscii v (c.cryptogram v is).0) ∙ sym is),
          ))
          (λ z. ap (λ o. record t39 { tavv_cryptogram = o }) (sym z)) (omega arith) (omega arith)
          (omega arith) f39 in
      let f52 =
        Lays-fixed read_interac 52 16 b'0' false e.pin_block (λ b t. record t { pin_block = b })
          {next = t52} read_interac-SharesArms.arm_52 c.pin_block_length refl
          (λ z. ap (λ v. record t48 { pin_block = v }) (sym z)) (omega arith) (omega arith)
          (omega arith) f48 in
      let f63 =
        Lays-some read_interac 63 e.domestic_settlement_data
          (λ b t. record t { domestic_settlement_data = some (from_utf8_lossy b) }) {next = t63}
          (λ r t o. refl)
          (λ v is. (
            (c.settlement_data v is).1,
            ap (λ o. record t52 { domestic_settlement_data = o })
                (ap some (from_utf8_lossy-IsAscii v (c.settlement_data v is).0) ∙ sym is),
          ))
          (λ z. ap (λ o. record t52 { domestic_settlement_data = o }) (sym z)) (omega arith)
          (omega arith) (omega arith) f52 in
      subst (Lays read_interac 64 frame start) (sym c.derived) f63

  build_response-frame : build_response e ≡ e.mti ++ (frame.bitmap ++ frame.payload)
  unfolding build_response frame
  build_response-frame =
      ap (λ m. m ++ (frame.bitmap ++ frame.payload)) (response_mti_whole e c.mti_length)

abbrev start_of : Bytes → UniversalPaymentEvent
start_of m = record (blank_event m) { requires_instant_clearing = is_instant m }

parse-parse_with : (raw : Bytes) → parse raw ≡ parse_with read_interac start_of raw
unfolding parse
parse-parse_with raw = refl

-- The Interac dialect parses a message that it has built as the event that it was built from, if that
-- event is one that such a message can carry.
pub parse-build_interac :
    (e : UniversalPaymentEvent) → IsBuildable e → parse (build_response e) ≡ ok e
unfolding blank_event
parse-build_interac e c =
    ap parse (build_response-frame e c)
    ∙ (parse-parse_with _
        ∙ parse_with-Lays read_interac start_of e.mti 64 c.mti_length (omega arith)
            (Lays-frame e c))
