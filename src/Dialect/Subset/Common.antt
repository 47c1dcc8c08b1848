-- ===== src/Dialect/Subset/Common.antt =====
-- The fields 3 to 39, which every builder writes in the same words, as the parsers read them.
use iso8583paymentsengine.Base.{
  ℕ, ◌^◌, ◌≤◌, ◌<◌, ◌≡◌, ◌⊎◌, refl, sym, ap, Bool, true, false, not, [], length, arith,
}
use iso8583paymentsengine.Base.Text.{Bytes, IsAscii, is_empty}
use iso8583paymentsengine.Base.Utf8.{from_utf8_lossy, from_utf8_lossy-IsAscii}
use iso8583paymentsengine.Base.Digits.{format_padded}
use iso8583paymentsengine.Canonical.{UniversalPaymentEvent}
use iso8583paymentsengine.Dialect.Fields.{Outcome, read_fixed, read_llvar, write_fixed}
use iso8583paymentsengine.Dialect.Event.{
  blank_event, Frame, write_if, write_common, write_routing, has_amount, parse_amount,
  store_entry_mode,
}
use iso8583paymentsengine.Dialect.Subset.{Cursor}
use iso8583paymentsengine.Dialect.Subset.Lays.{Lays}
use iso8583paymentsengine.Dialect.Subset.Steps.{
  Arm, Lays-fixed, Lays-llvar, has_amount-zero, Lays-amount, Lays-tokenized,
}

-- A text of so many bytes of ASCII, or none.
abbrev pub IsText : ℕ → Bytes → Type 0
IsText n s = IsAscii s × ((s ≡ []) ⊎ (length s ≡ n))

-- The common fields of an event fit their places: each text is empty or of its field's length, and the
-- amount has twelve digits at most.
pub record FitsCommon (e : UniversalPaymentEvent) : Type 0 where
  pub processing_code_text : IsText 6 e.processing_code
  pub amount_bound : e.amount < 10 ^ 12
  pub stan_text : IsText 6 e.stan
  pub local_time_text : IsText 6 e.local_time
  pub local_date_text : IsText 4 e.local_date
  pub acquirer_id_length : length e.acquirer_id ≤ 99
  pub rrn_text : IsText 12 e.rrn
  pub response_code_text : IsText 2 e.response_code

-- A parser with the arms that the parsers share.
pub record SharesArms (round : Bytes → ℕ → Cursor → Outcome Cursor) : Type 0 where
  pub arm_3 :
      Arm round 3
        (λ b t. record t { processing_code = from_utf8_lossy b })
        (λ r o. read_fixed r o 6)
  pub arm_4 : Arm round 4 (λ b t. record t { amount = parse_amount b }) (λ r o. read_fixed r o 12)
  pub arm_11 : Arm round 11 (λ b t. record t { stan = from_utf8_lossy b }) (λ r o. read_fixed r o 6)
  pub arm_12 :
      Arm round 12 (λ b t. record t { local_time = from_utf8_lossy b }) (λ r o. read_fixed r o 6)
  pub arm_13 :
      Arm round 13 (λ b t. record t { local_date = from_utf8_lossy b }) (λ r o. read_fixed r o 4)
  pub arm_22 : Arm round 22 store_entry_mode (λ r o. read_fixed r o 3)
  pub arm_32 : Arm round 32 (λ b t. record t { acquirer_id = b }) read_llvar
  pub arm_37 : Arm round 37 (λ b t. record t { rrn = from_utf8_lossy b }) (λ r o. read_fixed r o 12)
  pub arm_39 :
      Arm round 39 (λ b t. record t { response_code = from_utf8_lossy b }) (λ r o. read_fixed r o 2)
  pub arm_52 : Arm round 52 (λ b t. record t { pin_block = b }) (λ r o. read_fixed r o 16)

-- The event as it is known after the fields 1, 2, 4, 13 and 39, from the flags that the MTI sets and a
-- PAN.
module _ (e : UniversalPaymentEvent) (reversal instant : Bool) (pan : Bytes) where
  abbrev pub after_mti : UniversalPaymentEvent
  after_mti = record (blank_event e.mti) {
    is_reversal = reversal;
    requires_instant_clearing = instant;
  }

  abbrev pub after_2 : UniversalPaymentEvent
  after_2 = record after_mti { fpan = pan }

  abbrev after_4 : UniversalPaymentEvent
  after_4 = record after_2 { processing_code = e.processing_code; amount = e.amount }

  abbrev after_13 : UniversalPaymentEvent
  after_13 = record after_4 { stan = e.stan; local_time = e.local_time; local_date = e.local_date }

  abbrev pub after_39 : UniversalPaymentEvent
  after_39 = record after_13 {
    is_tokenized = e.is_tokenized;
    acquirer_id = e.acquirer_id;
    rrn = e.rrn;
    response_code = e.response_code;
  }

module _ (round : Bytes → ℕ → Cursor → Outcome Cursor) (arms : SharesArms round)
    (e : UniversalPaymentEvent) (c : FitsCommon e) (reversal instant : Bool) (pan : Bytes)
    {f : Frame}
    (before : Lays round 3 f
      (after_mti e reversal instant pan)
      (after_2 e reversal instant pan)) where
  Lays-to_4 :
      Lays round 5
        (write_if (has_amount e) 4 (write_fixed (format_padded 12 e.amount) 12 b'0' false) (
          write_if
            (not (is_empty e.processing_code))
            3
            (write_fixed e.processing_code 6 b'0' false)
            f))
        (after_mti e reversal instant pan)
        (after_4 e reversal instant pan)
  unfolding blank_event
  Lays-to_4 =
      let t2 = after_2 e reversal instant pan in
      let t3 : UniversalPaymentEvent = record t2 { processing_code = e.processing_code } in
      let f3 =
        Lays-fixed round 3 6 b'0' false e.processing_code
          (λ b t. record t { processing_code = from_utf8_lossy b }) {next = t3} arms.arm_3
          c.processing_code_text.1
          (ap (λ v. record t2 { processing_code = v })
            (from_utf8_lossy-IsAscii e.processing_code c.processing_code_text.0))
          (λ z. ap (λ v. record t2 { processing_code = v }) (sym z)) (omega arith) (omega arith)
          (omega arith) before in
      Lays-amount round e.amount (has_amount e) arms.arm_4 c.amount_bound
        (λ z. ap (λ a. record t3 { amount = a }) (sym (has_amount-zero e z))) f3

  Lays-common :
      Lays round 14
        (write_common e f)
        (after_mti e reversal instant pan)
        (after_13 e reversal instant pan)
  unfolding blank_event write_common
  Lays-common =
      let t4 = after_4 e reversal instant pan in
      let t11 : UniversalPaymentEvent = record t4 { stan = e.stan } in
      let t12 : UniversalPaymentEvent = record t11 { local_time = e.local_time } in
      let t13 = after_13 e reversal instant pan in
      let f11 =
        Lays-fixed round 11 6 b'0' false e.stan (λ b t. record t { stan = from_utf8_lossy b })
          {next = t11} arms.arm_11 c.stan_text.1
          (ap (λ v. record t4 { stan = v }) (from_utf8_lossy-IsAscii e.stan c.stan_text.0))
          (λ z. ap (λ v. record t4 { stan = v }) (sym z)) (omega arith) (omega arith) (omega arith)
          Lays-to_4 in
      let f12 =
        Lays-fixed round 12 6 b'0' false e.local_time
          (λ b t. record t { local_time = from_utf8_lossy b }) {next = t12} arms.arm_12
          c.local_time_text.1
          (ap (λ v. record t11 { local_time = v })
            (from_utf8_lossy-IsAscii e.local_time c.local_time_text.0))
          (λ z. ap (λ v. record t11 { local_time = v }) (sym z)) (omega arith) (omega arith)
          (omega arith) f11 in
      Lays-fixed round 13 4 b'0' false e.local_date
        (λ b t. record t { local_date = from_utf8_lossy b }) {next = t13} arms.arm_13
        c.local_date_text.1
        (ap (λ v. record t12 { local_date = v })
          (from_utf8_lossy-IsAscii e.local_date c.local_date_text.0))
        (λ z. ap (λ v. record t12 { local_date = v }) (sym z)) (omega arith) (omega arith)
        (omega arith) f12

  pub Lays-routing :
      Lays round 40
        (write_routing e (write_common e f))
        (after_mti e reversal instant pan)
        (after_39 e reversal instant pan)
  unfolding blank_event write_routing
  Lays-routing =
      let t13 = after_13 e reversal instant pan in
      let t22 : UniversalPaymentEvent = record t13 { is_tokenized = e.is_tokenized } in
      let t32 : UniversalPaymentEvent = record t22 { acquirer_id = e.acquirer_id } in
      let t37 : UniversalPaymentEvent = record t32 { rrn = e.rrn } in
      let t39 = after_39 e reversal instant pan in
      let f22 = Lays-tokenized round e.is_tokenized arms.arm_22 refl Lays-common in
      let f32 =
        Lays-llvar round 32 e.acquirer_id (λ b t. record t { acquirer_id = b }) {next = t32}
          arms.arm_32 c.acquirer_id_length refl
          (λ z. ap (λ v. record t22 { acquirer_id = v }) (sym z)) (omega arith) (omega arith)
          (omega arith) f22 in
      let f37 =
        Lays-fixed round 37 12 b' ' true e.rrn (λ b t. record t { rrn = from_utf8_lossy b })
          {next = t37} arms.arm_37 c.rrn_text.1
          (ap (λ v. record t32 { rrn = v }) (from_utf8_lossy-IsAscii e.rrn c.rrn_text.0))
          (λ z. ap (λ v. record t32 { rrn = v }) (sym z)) (omega arith) (omega arith) (omega arith)
          f32 in
      Lays-fixed round 39 2 b' ' false e.response_code
        (λ b t. record t { response_code = from_utf8_lossy b }) {next = t39} arms.arm_39
        c.response_code_text.1
        (ap (λ v. record t37 { response_code = v })
          (from_utf8_lossy-IsAscii e.response_code c.response_code_text.0))
        (λ z. ap (λ v. record t37 { response_code = v }) (sym z)) (omega arith) (omega arith)
        (omega arith) f37
