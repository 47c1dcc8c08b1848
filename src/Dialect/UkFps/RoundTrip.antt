-- ===== src/Dialect/UkFps/RoundTrip.antt =====
-- The parser of `UkFpsDialect`, payment-proto/src/dialects/uk_fps.rs, on what its builder writes.
use mathlib.Core.Path.{subst}
use mathlib.Core.List.{append_assoc}
use iso8583paymentsengine.Base.{
  ℕ, ◌+◌, ◌≤◌, ◌≡◌, ◌⊎◌, refl, sym, ap, ◌∙◌, true, false, Option, none, some, [], ◌++◌, ltb,
  if◌then◌else◌, length, replicate, length-append, arith, Bool-cases, inl, inr,
}
use iso8583paymentsengine.Base.Text.{Bytes, codes, IsAscii}
use iso8583paymentsengine.Base.Utf8.{from_utf8_lossy, from_utf8_lossy-IsAscii}
use iso8583paymentsengine.Canonical.{UniversalPaymentEvent}
use iso8583paymentsengine.Dialect.Fields.{Outcome, ok, is_bit_set, read_fixed, ◌>>=◌}
use iso8583paymentsengine.Dialect.Fields.Written.{read_fixed-append}
use iso8583paymentsengine.Dialect.Event.{
  blank_event, Frame, empty_frame, write_if, write_common, write_routing, write_pin,
}
use iso8583paymentsengine.Dialect.Subset.{Cursor, read_subset, for_fields}
use iso8583paymentsengine.Dialect.Subset.Lays.{Lays, Lays-empty, Lays-none}
use iso8583paymentsengine.Dialect.Subset.Steps.{Lays-fixed}
use iso8583paymentsengine.Dialect.Subset.Common.{
  FitsCommon, SharesArms, after_mti, after_2, after_39, Lays-routing,
}
use iso8583paymentsengine.Dialect.Subset.Message.{response_mti_whole}
use iso8583paymentsengine.Dialect.UkFps.{
  read_uk_fps, is_set, read_secondary, store_source, write_account, parse, build_response,
}
use iso8583paymentsengine.Dialect.UkFps.Accounts.{
  LaysBoth, LaysBoth-near, LaysBoth-account, for_fields-LaysBoth,
}

-- The PAN that a message without field 2 is given.
abbrev pub pan_of : Option Bytes → Bytes
pan_of none = []
pan_of (some account) = codes "UKFPS-" ++ account

-- An event that a message can carry: the common fields fit their places; the MTI has four bytes and
-- the PIN block, if there is one, sixteen; the accounts, if they are there, are ASCII texts of at most
-- 99 bytes; the PAN is the one that the source account gives; and what no field says is at its default.
pub record IsFasterPayment (e : UniversalPaymentEvent) : Type 0 where
  pub mti_length : length e.mti ≡ 4
  pub fits : FitsCommon e
  pub pin_block_length : (e.pin_block ≡ []) ⊎ (length e.pin_block ≡ 16)
  pub source : (t : Bytes) → e.source_account ≡ some t → IsAscii t × (length t ≤ 99)
  pub destination : (t : Bytes) → e.destination_account ≡ some t → IsAscii t × (length t ≤ 99)
  pub derived : e ≡ record (after_39 e false false (pan_of e.source_account)) {
    pin_block = e.pin_block;
    source_account = e.source_account;
    destination_account = e.destination_account;
  }

read_uk_fps-SharesArms : SharesArms read_uk_fps
unfolding read_uk_fps read_subset
read_uk_fps-SharesArms = record {
  arm_3 = λ r t o. refl;
  arm_4 = λ r t o. refl;
  arm_11 = λ r t o. refl;
  arm_12 = λ r t o. refl;
  arm_13 = λ r t o. refl;
  arm_22 = λ r t o. refl;
  arm_32 = λ r t o. refl;
  arm_37 = λ r t o. refl;
  arm_39 = λ r t o. refl;
  arm_52 = λ r t o. refl;
}

read_uk_fps_first : (raw : Bytes) (c : Cursor) → read_uk_fps raw 1 c ≡ ok c
unfolding read_uk_fps read_subset
read_uk_fps_first raw (tx, offset) = refl

-- A part of a message is read where it stands.
read_fixed-part :
    (raw pre v rest : Bytes) (at len : ℕ)
    → raw ≡ pre ++ (v ++ rest)
    → length pre ≡ at
    → length v ≡ len
    → read_fixed raw at len ≡ ok (v, at + len)
read_fixed-part raw pre v rest at len whole start size =
    subst (λ n. read_fixed raw n len ≡ ok (v, n + len)) start
      (subst (λ m. read_fixed raw (length pre) m ≡ ok (v, length pre + m)) size
        (ap (λ r. read_fixed r (length pre) (length v)) whole ∙ read_fixed-append pre v rest))

module _ (mti : Bytes) (fs : Frame × Bytes) (e : UniversalPaymentEvent)
    (h : LaysBoth read_uk_fps 104 fs (blank_event mti) e) where
  -- What is done with the second bitmap, or the zeros in its place.
  abbrev read_rest : Bytes → Bytes × ℕ → Outcome UniversalPaymentEvent
  read_rest raw (secondary_bitmap, at) =
      for_fields (is_set fs.0.bitmap secondary_bitmap) (read_uk_fps raw) 128 1 (blank_event mti, at)
      >>= λ (tx, _). ok tx

  read_rest-LaysBoth :
      (raw pre secondary_bitmap : Bytes) (at : ℕ)
      → raw ≡ pre ++ fs.0.payload
      → length pre ≡ at
      → (is_bit_set fs.0.bitmap 1 ≡ true → secondary_bitmap ≡ fs.1)
      → read_rest raw (secondary_bitmap, at) ≡ ok e
  read_rest-LaysBoth raw pre secondary_bitmap at whole start second =
      let read =
        for_fields-LaysBoth read_uk_fps 104 fs pre secondary_bitmap read_uk_fps_first second h
          (omega arith) in
      subst (λ r. read_rest r (secondary_bitmap, at) ≡ ok e) (sym whole)
        (subst (λ n. read_rest (pre ++ fs.0.payload) (secondary_bitmap, n) ≡ ok e) start
          (ap (λ o. o >>= λ (tx, _). ok tx) read))

  read_secondary-rest :
      (raw pre far : Bytes)
      → raw ≡ pre ++ (far ++ fs.0.payload)
      → length pre ≡ 12
      → far ≡ (if is_bit_set fs.0.bitmap 1 then fs.1 else [])
      → (read_secondary fs.0.bitmap raw 12 >>= read_rest raw) ≡ ok e
  unfolding read_secondary
  read_secondary-rest raw pre far whole start extension =
      elim (Bool-cases (is_bit_set fs.0.bitmap 1)) [
        | inl on ↦
            let far' : far ≡ fs.1 = extension ∙ ap (λ b. if b then fs.1 else []) on in
            let whole' : raw ≡ pre ++ (fs.1 ++ fs.0.payload) =
              whole ∙ ap (λ b. pre ++ (b ++ fs.0.payload)) far' in
            let second : read_fixed raw 12 8 ≡ ok (fs.1, 20) =
              read_fixed-part raw pre fs.1 fs.0.payload 12 8 whole' start h.extension.0 in
            let rest =
              read_rest-LaysBoth raw (pre ++ fs.1) fs.1 20
                (whole' ∙ sym (append_assoc pre fs.1 fs.0.payload))
                (omega (arith, length-append pre fs.1, start, h.extension.0)) (λ _. refl) in
            ap (λ b. (if b then read_fixed raw 12 8 else ok (replicate 8 0, 12)) >>= read_rest raw)
              on
            ∙ (ap (λ o. o >>= read_rest raw) second ∙ rest)
        | inr off ↦
            let far' : far ≡ [] = extension ∙ ap (λ b. if b then fs.1 else []) off in
            ap (λ b. (if b then read_fixed raw 12 8 else ok (replicate 8 0, 12)) >>= read_rest raw)
              off
            ∙ read_rest-LaysBoth raw pre (replicate 8 0) 12
                (whole ∙ ap (λ b. pre ++ (b ++ fs.0.payload)) far') start (λ on. cc)
      ]

-- The whole message: MTI, bitmap, the second bitmap if it is announced, payload.
parse-parts :
    (mti : Bytes) (fs : Frame × Bytes) (e : UniversalPaymentEvent)
    → length mti ≡ 4
    → LaysBoth read_uk_fps 104 fs (blank_event mti) e
    → parse
        (mti ++ (fs.0.bitmap ++ ((if is_bit_set fs.0.bitmap 1 then fs.1 else []) ++ fs.0.payload)))
      ≡ ok e
unfolding parse
parse-parts mti (f, s) e four h =
    let bits = f.bitmap in
    let far = if is_bit_set bits 1 then s else [] in
    let raw = mti ++ (bits ++ (far ++ f.payload)) in
    let eight = h.bitmap.0 in
    let long : ltb (length raw) 12 ≡ false = ground (
      arith,
      length-append mti (bits ++ (far ++ f.payload)),
      length-append bits (far ++ f.payload),
      four,
      eight,
    ) in
    let first : read_fixed raw 0 4 ≡ ok (mti, 4) =
      read_fixed-part raw [] mti (bits ++ (far ++ f.payload)) 0 4 refl refl four in
    let second : read_fixed raw 4 8 ≡ ok (bits, 12) =
      read_fixed-part raw mti bits (far ++ f.payload) 4 8 refl four eight in
    rw (long, first, second)
      (read_secondary-rest mti (f, s) e h raw (mti ++ bits) far
        (sym (append_assoc mti bits (far ++ f.payload)))
        (omega (arith, length-append mti bits, four, eight)) refl)

module _ (e : UniversalPaymentEvent) (c : IsFasterPayment e) where
  -- The frame of the fields of the first bitmap.
  near_frame : Frame
  near_frame = write_pin e (write_routing e (write_common e empty_frame))

  abbrev near_event : UniversalPaymentEvent
  near_event = record (after_39 e false false []) { pin_block = e.pin_block }

  Lays-near : Lays read_uk_fps 53 near_frame (blank_event e.mti) near_event
  unfolding near_frame blank_event write_pin write_if
  Lays-near =
      let start = after_mti e false false [] in
      let t39 = after_39 e false false [] in
      let f2 : Lays read_uk_fps 3 empty_frame start (after_2 e false false []) =
        Lays-none read_uk_fps 2 2 [] (Lays-empty read_uk_fps start) (omega arith) in
      let f39 = Lays-routing read_uk_fps read_uk_fps-SharesArms e c.fits false false [] f2 in
      Lays-fixed read_uk_fps 52 16 b'0' false e.pin_block (λ b t. record t { pin_block = b })
        {next = near_event} read_uk_fps-SharesArms.arm_52 c.pin_block_length refl
        (λ z. ap (λ v. record t39 { pin_block = v }) (sym z)) (omega arith) (omega arith)
        (omega arith) f39

  -- The frame with the accounts and the second bitmap.
  both : Frame × Bytes
  both =
      write_account e.destination_account 103
        (write_account e.source_account 102 (near_frame, replicate 8 0))

  LaysBoth-both : LaysBoth read_uk_fps 104 both (blank_event e.mti) e
  unfolding both blank_event store_source read_uk_fps
  LaysBoth-both =
      let t102 : UniversalPaymentEvent = record near_event {
        fpan = pan_of e.source_account;
        source_account = e.source_account;
      } in
      let f52 = LaysBoth-near read_uk_fps 53 Lays-near (omega arith) in
      let f102 =
        LaysBoth-account read_uk_fps 102 e.source_account store_source (near_frame, replicate 8 0)
          {next = t102} (λ r t o. refl)
          (λ v is. (
            (c.source v is).1,
            ap (λ o. record near_event { fpan = pan_of o; source_account = o })
                (ap some (from_utf8_lossy-IsAscii v (c.source v is).0) ∙ sym is),
          ))
          (λ z. ap (λ o. record near_event { fpan = pan_of o; source_account = o }) (sym z))
          (omega arith) (omega arith) (omega arith) f52 in
      let f103 =
        LaysBoth-account read_uk_fps 103 e.destination_account
          (λ b t. record t { destination_account = some (from_utf8_lossy b) })
          (write_account e.source_account 102 (near_frame, replicate 8 0))
          {next = record t102 { destination_account = e.destination_account }} (λ r t o. refl)
          (λ v is. (
            (c.destination v is).1,
            ap (λ o. record t102 { destination_account = o })
                (ap some (from_utf8_lossy-IsAscii v (c.destination v is).0) ∙ sym is),
          ))
          (λ z. ap (λ o. record t102 { destination_account = o }) (sym z)) (omega arith)
          (omega arith) (omega arith) f102 in
      subst (LaysBoth read_uk_fps 104 both (blank_event e.mti)) (sym c.derived) f103

-- The UK Faster Payments dialect parses a message that it has built as the event that it was built from,
-- with one bitmap or with two, if that event is one that such a message can carry.
pub parse-build_uk_fps :
    (e : UniversalPaymentEvent) → IsFasterPayment e → parse (build_response e) ≡ ok e
unfolding build_response both near_frame
parse-build_uk_fps e c =
    let message =
      (both e c).0.bitmap
      ++ ((if is_bit_set (both e c).0.bitmap 1 then (both e c).1 else [])
          ++ (both e c).0.payload) in
    ap (λ m. parse (m ++ message)) (response_mti_whole e c.mti_length)
    ∙ parse-parts e.mti (both e c) e c.mti_length (LaysBoth-both e c)
