-- ===== src/Dialect/Standard/RoundTrip.antt =====
-- The parser of `StandardDialect`, payment-proto/src/iso_dialect.rs, on what its builder writes.
use mathlib.Core.Path.{subst}
use iso8583paymentsengine.Base.{
  ℕ, zero, suc, ◌+◌, ◌*◌, ◌≤◌, ◌≡◌, refl, sym, ap, ◌∙◌, bit_and, Bool, false, not, ◌&&◌, Option,
  none, some, [], ◌++◌, ◌==◌, if◌then◌else◌, if_cases, Bool-cases, inl, inr, length, get_or, arith,
}
use iso8583paymentsengine.Base.Text.{Bytes}
use iso8583paymentsengine.Canonical.{UniversalPaymentEvent}
use iso8583paymentsengine.Dialect.Fields.{
  Outcome, ok, err, panic, ◌>>=◌, invalid_format, read_fixed, read_llvar, write_lllvar, is_bit_set,
}
use iso8583paymentsengine.Dialect.Fields.Bits.{is_bit_set-bit}
use iso8583paymentsengine.Dialect.Event.{
  blank_event, is_reversal_mti, Frame, empty_frame, write_pan, write_common, write_routing,
  write_some, write_pin,
}
use iso8583paymentsengine.Dialect.Subset.{Cursor, store_read, for_fields}
use iso8583paymentsengine.Dialect.Subset.Lays.{Lays, Lays-empty, is_bit_set-Lays}
use iso8583paymentsengine.Dialect.Subset.Steps.{Lays-fixed, Lays-llvar}
use iso8583paymentsengine.Dialect.Subset.Common.{
  SharesArms, after_mti, after_2, after_39, Lays-routing,
}
use iso8583paymentsengine.Dialect.Subset.Cryptogram.{Lays-cryptogram}
use iso8583paymentsengine.Dialect.Subset.Message.{Lays-Parts, response_mti_whole}
use iso8583paymentsengine.Dialect.Universal.RoundTrip.{IsEncodable}
use iso8583paymentsengine.Dialect.Standard.{
  FieldType, field_type_1987, field_type_1993, field_type_2003, dictionary, read_bitmaps,
  read_typed, store_field, is_extension, read_field, read_fields, parse, build_response,
}

-- What a round does for a field that is set and is no extension bit.
abbrev round : (ℕ → Option FieldType) → Bool → Bytes → ℕ → Cursor → Outcome Cursor
round dict extended raw field (tx, offset) = elim (dict field) [
  | none ↦ err invalid_format
  | some type ↦ read_typed type raw offset >>= λ (bytes, at).
      store_field extended field bytes tx >>= λ tx'. ok (tx', at)
]

abbrev is_read : Bytes → ℕ → Bool
is_read bitmap field = not (is_extension field) && is_bit_set bitmap field

bind-ext :
    {A B : Type 0} (m : Outcome A) {f g : A → Outcome B}
    → ((a : A) → f a ≡ g a)
    → (m >>= f) ≡ (m >>= g)
bind-ext (ok a) h = h a
bind-ext (err e) h = refl
bind-ext panic h = refl

read_fields-for_fields :
    (dict : ℕ → Option FieldType) (bitmap raw : Bytes) (left field : ℕ) (c : Cursor)
    → read_fields dict bitmap raw left field c
      ≡ for_fields (is_read bitmap) (round dict (is_bit_set bitmap 1) raw) left field c
unfolding read_fields for_fields read_field
read_fields-for_fields dict bitmap raw zero field c = refl
read_fields-for_fields dict bitmap raw (suc left) field c =
    let same : read_field dict bitmap raw field c
        ≡ (if is_read bitmap field then round dict (is_bit_set bitmap 1) raw field c else ok c) =
      if_cases
        (λ r.
          r ≡ (if is_read bitmap field then round dict (is_bit_set bitmap 1) raw field c else ok c))
        (is_extension field) (λ e. rw e refl) (λ e. rw e refl) in
    ap (λ m. m >>= λ c'. read_fields dict bitmap raw left (field + 1) c') same
    ∙ bind-ext (if is_read bitmap field then round dict (is_bit_set bitmap 1) raw field c else ok c)
        (read_fields-for_fields dict bitmap raw left (field + 1))

dictionary_one : (version : ℕ) → dictionary version ≡ field_type_1987
unfolding dictionary field_type_1993 field_type_2003
dictionary_one version =
    let P : (ℕ → Option FieldType) → Type 0 = λ d. d ≡ field_type_1987 in
    if_cases P (version == b'0') (λ _. refl)
      (λ _.
        if_cases P (version == b'1') (λ _. refl)
          (λ _. if_cases P (version == b'2') (λ _. refl) (λ _. refl)))

read_bitmaps_one :
    (raw bits : Bytes)
    → length bits ≡ 8
    → is_bit_set bits 1 ≡ false
    → read_fixed raw 4 8 ≡ ok (bits, 12)
    → read_bitmaps 3 1 raw 4 [] ≡ ok (bits, 12)
unfolding read_bitmaps
read_bitmaps_one raw bits eight off e =
    let first : not (bit_and (get_or bits 0 0) 0x80 == 0) ≡ false =
      sym (is_bit_set-bit bits 1 (omega arith, omega (arith, eight))) ∙ off in
    rw (e, first) refl

abbrev plain_round : Bytes → ℕ → Cursor → Outcome Cursor
plain_round = round field_type_1987 false

plain_round-SharesArms : SharesArms plain_round
unfolding field_type_1987 read_typed store_field store_read
plain_round-SharesArms = record {
  arm_3 = λ r t o. bind-ext (read_fixed r o 6) (λ p. refl);
  arm_4 = λ r t o. bind-ext (read_fixed r o 12) (λ p. refl);
  arm_11 = λ r t o. bind-ext (read_fixed r o 6) (λ p. refl);
  arm_12 = λ r t o. bind-ext (read_fixed r o 6) (λ p. refl);
  arm_13 = λ r t o. bind-ext (read_fixed r o 4) (λ p. refl);
  arm_22 = λ r t o. bind-ext (read_fixed r o 3) (λ p. refl);
  arm_32 = λ r t o. bind-ext (read_llvar r o) (λ p. refl);
  arm_37 = λ r t o. bind-ext (read_fixed r o 12) (λ p. refl);
  arm_39 = λ r t o. bind-ext (read_fixed r o 2) (λ p. refl);
  arm_52 = λ r t o. bind-ext (read_fixed r o 16) (λ p. refl);
}

module _ (e : UniversalPaymentEvent) (c : IsEncodable e) where
  abbrev start : UniversalPaymentEvent
  start = after_mti e (is_reversal_mti e.mti) false e.fpan

  Lays-pan :
      Lays plain_round 3
        (write_pan e empty_frame)
        start
        (after_2 e (is_reversal_mti e.mti) false e.fpan)
  unfolding blank_event write_pan field_type_1987 read_typed store_field store_read
  Lays-pan =
      Lays-llvar plain_round 2 e.fpan (λ b t. record t { fpan = b })
        (λ r t o. bind-ext (read_llvar r o) (λ p. refl)) c.fpan_length refl
        (λ z. ap (λ v. record start { fpan = v }) (sym z)) (omega arith) (omega arith) (omega arith)
        (Lays-empty plain_round start)

  -- The frame of the whole message.
  frame : Frame
  frame =
      let early = write_routing e (write_common e (write_pan e empty_frame)) in
      write_pin e
        (if e.is_tokenized then write_some e.tavv_cryptogram 48 write_lllvar early else early)

  Lays-frame : Lays plain_round 53 frame start e
  unfolding frame blank_event write_pin field_type_1987 read_typed store_field
  Lays-frame =
      let t39 = after_39 e (is_reversal_mti e.mti) false e.fpan in
      let t48 : UniversalPaymentEvent = record t39 { tavv_cryptogram = e.tavv_cryptogram } in
      let t52 : UniversalPaymentEvent = record t48 { pin_block = e.pin_block } in
      let f39 =
        Lays-routing plain_round plain_round-SharesArms e c.fits (is_reversal_mti e.mti) false
          e.fpan Lays-pan in
      let f48 =
        Lays-cryptogram plain_round (λ r t o. refl) e.is_tokenized e.tavv_cryptogram refl refl
          c.cryptogram f39 in
      let f52 =
        Lays-fixed plain_round 52 16 b'0' false e.pin_block (λ b t. record t { pin_block = b })
          {next = t52} plain_round-SharesArms.arm_52 c.pin_block_length refl
          (λ z. ap (λ v. record t48 { pin_block = v }) (sym z)) (omega arith) (omega arith)
          (omega arith) f48 in
      subst (Lays plain_round 53 frame start) (sym c.derived) f52

  build_response-frame : build_response e ≡ e.mti ++ (frame.bitmap ++ frame.payload)
  unfolding build_response frame
  build_response-frame =
      ap (λ m. m ++ (frame.bitmap ++ frame.payload)) (response_mti_whole e c.mti_length)

  is_read-frame : (g : ℕ) → 1 ≤ g → g ≤ 64 → is_read frame.bitmap g ≡ is_bit_set frame.bitmap g
  is_read-frame g lo hi = elim (Bool-cases (g == 1)) [
    | inl one ↦
        let at : g ≡ 1 = ground arith in
        let off = is_bit_set-Lays plain_round 53 Lays-frame in rw (at, off) refl
    | inr other ↦ let inner : is_extension g ≡ false = ground arith in rw inner refl
  ]

  parse-frame : parse (e.mti ++ (frame.bitmap ++ frame.payload)) ≡ ok e
  unfolding parse blank_event
  parse-frame =
      let raw = e.mti ++ (frame.bitmap ++ frame.payload) in
      let p =
        Lays-Parts plain_round (is_read frame.bitmap) e.mti 53 is_read-frame c.mti_length
          (omega arith) Lays-frame in
      let off = is_bit_set-Lays plain_round 53 Lays-frame in
      let eight : length frame.bitmap ≡ 8 = Lays-frame.bitmap.0 in
      let bitmaps = read_bitmaps_one raw frame.bitmap eight off p.second in
      let fields : length frame.bitmap * 8 ≡ 64 = omega (arith, eight) in
      let loop : read_fields (dictionary (get_or e.mti 0 0)) frame.bitmap raw
            (length frame.bitmap * 8) 1 (start, 12)
          ≡ ok (e, length raw) =
        ap (λ d. read_fields d frame.bitmap raw (length frame.bitmap * 8) 1 (start, 12))
          (dictionary_one (get_or e.mti 0 0))
        ∙ (ap (λ n. read_fields field_type_1987 frame.bitmap raw n 1 (start, 12)) fields
            ∙ (read_fields-for_fields field_type_1987 frame.bitmap raw 64 1 (start, 12)
                ∙ (ap
                      (λ b.
                        for_fields (is_read frame.bitmap) (round field_type_1987 b raw) 64 1
                          (start, 12))
                      off
                    ∙ p.loop))) in
      rw (p.long, p.first, bitmaps, loop) refl

-- The standard dialect parses a message that it has built as the event that it was built from, under
-- every version of the MTI, if that event is one that a message can carry.
pub parse-build_standard :
    (e : UniversalPaymentEvent) → IsEncodable e → parse (build_response e) ≡ ok e
parse-build_standard e c = ap parse (build_response-frame e c) ∙ parse-frame e c
