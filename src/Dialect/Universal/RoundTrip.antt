-- ===== src/Dialect/Universal/RoundTrip.antt =====
-- `universal_decode` of iso-dialect/src/lib.rs on the messages that `universal_encode` writes.
use mathlib.Core.Path.{subst}
use iso8583paymentsengine.Base.{
  ◌≤◌, ◌≡◌, ◌⊎◌, refl, sym, ap, ◌∙◌, true, false, some, [], ◌++◌, if◌then◌else◌, length, arith,
}
use iso8583paymentsengine.Base.Text.{Bytes, codes, IsAscii, starts_with}
use iso8583paymentsengine.Canonical.{UniversalPaymentEvent}
use iso8583paymentsengine.Dialect.Fields.{ok, ◌>>=◌, write_lllvar}
use iso8583paymentsengine.Dialect.Event.{
  blank_event, is_reversal_mti, Frame, empty_frame, write_pan, write_common, write_routing,
  write_some, write_pin,
}
use iso8583paymentsengine.Dialect.Subset.{read_subset}
use iso8583paymentsengine.Dialect.Subset.Lays.{Lays, Lays-empty}
use iso8583paymentsengine.Dialect.Subset.Steps.{Lays-fixed, Lays-llvar}
use iso8583paymentsengine.Dialect.Subset.Common.{
  FitsCommon, SharesArms, after_mti, after_2, after_39, Lays-routing,
}
use iso8583paymentsengine.Dialect.Subset.Message.{parse_with, parse_with-Lays, response_mti_whole}
use iso8583paymentsengine.Dialect.Universal.{read_universal, universal_decode, universal_encode}
use iso8583paymentsengine.Dialect.Subset.Cryptogram.{Lays-cryptogram}

-- An event that a message can carry: the common fields fit their places; the MTI has four bytes, the
-- PAN at most 99 and the PIN block, if there is one, sixteen; a cryptogram is the ASCII text of a
-- tokenized payment, of at most 999 bytes, and does not start like a score; and what no field says is
-- at its default.
pub record IsEncodable (e : UniversalPaymentEvent) : Type 0 where
  pub mti_length : length e.mti ≡ 4
  pub fpan_length : length e.fpan ≤ 99
  pub fits : FitsCommon e
  pub cryptogram :
      (t : Bytes)
      → e.tavv_cryptogram ≡ some t
      → (e.is_tokenized ≡ true)
        × IsAscii t
        × (length t ≤ 999)
        × (starts_with (codes "RSK:") t ≡ false)
  pub pin_block_length : (e.pin_block ≡ []) ⊎ (length e.pin_block ≡ 16)
  pub derived : e ≡ record (after_39 e (is_reversal_mti e.mti) false e.fpan) {
    tavv_cryptogram = e.tavv_cryptogram;
    pin_block = e.pin_block;
  }

read_universal-SharesArms : SharesArms read_universal
unfolding read_universal read_subset
read_universal-SharesArms = record {
  arm_3 = λ r t o. refl;
  arm_4 = λ r t o. refl;
  arm_11 = λ r t o. refl;
  arm_12 = λ r t o. refl;
  arm_13 = λ r t o. refl;
  arm_22 = λ r t o. refl;
  arm_32 = λ r t o. refl;
  arm_37 = λ r t o. refl;
  arm_39 = λ r t o. refl;
  arm_52 = λ r t o. refl;
}

module _ (e : UniversalPaymentEvent) (c : IsEncodable e) where
  abbrev start : UniversalPaymentEvent
  start = after_mti e (is_reversal_mti e.mti) false e.fpan

  Lays-pan :
      Lays read_universal 3
        (write_pan e empty_frame)
        start
        (after_2 e (is_reversal_mti e.mti) false e.fpan)
  unfolding blank_event write_pan read_universal read_subset
  Lays-pan =
      Lays-llvar read_universal 2 e.fpan (λ b t. record t { fpan = b }) (λ r t o. refl)
        c.fpan_length refl (λ z. ap (λ v. record start { fpan = v }) (sym z)) (omega arith)
        (omega arith) (omega arith) (Lays-empty read_universal start)

  -- The frame of the whole message.
  frame : Frame
  frame =
      let early = write_routing e (write_common e (write_pan e empty_frame)) in
      write_pin e
        (if e.is_tokenized then write_some e.tavv_cryptogram 48 write_lllvar early else early)

  Lays-frame : Lays read_universal 53 frame start e
  unfolding frame blank_event write_pin read_universal
  Lays-frame =
      let t39 = after_39 e (is_reversal_mti e.mti) false e.fpan in
      let t48 : UniversalPaymentEvent = record t39 { tavv_cryptogram = e.tavv_cryptogram } in
      let t52 : UniversalPaymentEvent = record t48 { pin_block = e.pin_block } in
      let f39 =
        Lays-routing read_universal read_universal-SharesArms e c.fits (is_reversal_mti e.mti) false
          e.fpan Lays-pan in
      let f48 =
        Lays-cryptogram read_universal (λ r t o. refl) e.is_tokenized e.tavv_cryptogram refl refl
          c.cryptogram f39 in
      let f52 =
        Lays-fixed read_universal 52 16 b'0' false e.pin_block (λ b t. record t { pin_block = b })
          {next = t52} read_universal-SharesArms.arm_52 c.pin_block_length refl
          (λ z. ap (λ v. record t48 { pin_block = v }) (sym z)) (omega arith) (omega arith)
          (omega arith) f48 in
      subst (Lays read_universal 53 frame start) (sym c.derived) f52

  encode-frame : universal_encode e ≡ ok (e.mti ++ (frame.bitmap ++ frame.payload))
  unfolding universal_encode frame
  encode-frame =
      ap (λ m. ok (m ++ (frame.bitmap ++ frame.payload))) (response_mti_whole e c.mti_length)

universal_decode-parse_with :
    (raw : Bytes)
    → universal_decode raw
      ≡ parse_with read_universal
          (λ m. record (blank_event m) { is_reversal = is_reversal_mti m })
          raw
unfolding universal_decode
universal_decode-parse_with raw = refl

-- A message that `universal_encode` writes is read back by `universal_decode` as the event that it was
-- written from, if that event is one that a message can carry.
pub decode-encode_universal :
    (e : UniversalPaymentEvent) → IsEncodable e → (universal_encode e >>= universal_decode) ≡ ok e
unfolding blank_event
decode-encode_universal e c =
    ap (λ r. r >>= universal_decode) (encode-frame e c)
    ∙ (universal_decode-parse_with _
        ∙ parse_with-Lays read_universal
            (λ m. record (blank_event m) { is_reversal = is_reversal_mti m }) e.mti 53 c.mti_length
            (omega arith) (Lays-frame e c))
