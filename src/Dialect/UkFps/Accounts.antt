-- ===== src/Dialect/UkFps/Accounts.antt =====
-- The two bitmaps of `UkFpsDialect` in payment-proto/src/dialects/uk_fps.rs: the accounts that stand
-- behind the fields of the first one, and what the loop over both reads.
use mathlib.Core.Path.{subst}
use mathlib.Core.List.{append-nil}
use iso8583paymentsengine.Base.{
  ℕ, ◌+◌, ◌-◌, ◌≤◌, ◌<◌, ◌≡◌, refl, sym, ap, ◌∙◌, Bool, true, false, ◌||◌, Option, none, some, [],
  ◌∷◌, ◌++◌, ◌==◌, leb, length, replicate, All, All-append, arith, if_cases, suc,
}
use iso8583paymentsengine.Base.Text.{Bytes}
use iso8583paymentsengine.Canonical.{UniversalPaymentEvent}
use iso8583paymentsengine.Dialect.Fields.{
  Outcome, ok, ◌>>=◌, set_bit, is_bit_set, read_llvar, write_llvar,
}
use iso8583paymentsengine.Dialect.Fields.Bits.{
  is_bit_set-set_bit, set_bit-IsBitmap, IsBitmap, is_bit_set-zeros,
}
use iso8583paymentsengine.Dialect.Event.{Frame}
use iso8583paymentsengine.Dialect.Subset.{Cursor, for_fields}
use iso8583paymentsengine.Dialect.Subset.Plan.{
  Plan, Entry, Reads, payload_of, run, has_field, Ascending, for_fields-run, has_field-snoc,
  Ascending-snoc, All-weaken, payload_of-append, run-append,
}
use iso8583paymentsengine.Dialect.Subset.Lays.{Lays}
use iso8583paymentsengine.Dialect.Subset.Steps.{Store, Arm, var-Reads, write_llvar-digits}
use iso8583paymentsengine.Dialect.UkFps.{is_set, write_account}

has_field-below : (p : Plan) (g : ℕ) → All (λ x. x.field < g) p → has_field g p ≡ false
has_field-below [] g h = refl
has_field-below (x ∷ p) g h =
    let later : has_field g p ≡ false = has_field-below p g h.1 in ground (arith, h.0)

first_skipped :
    (set : ℕ → Bool) (round : ℕ → Cursor → Outcome Cursor) (left : ℕ) (c : Cursor)
    → ((d : Cursor) → round 1 d ≡ ok d)
    → for_fields set round (suc left) 1 c ≡ for_fields set round left 2 c
unfolding for_fields
first_skipped set round left c skip =
    if_cases
      (λ (o : Outcome Cursor).
        (o >>= λ d. for_fields set round left 2 d) ≡ for_fields set round left 2 c)
      (set 1) (λ _. ap (λ o. o >>= λ d. for_fields set round left 2 d) (skip c)) (λ _. refl)

module _ (round : Bytes → ℕ → Cursor → Outcome Cursor) where
  -- The frame and the second bitmap with the plan that they lay out.
  pub record LaysBoth (bound : ℕ) (fs : Frame × Bytes) (start now : UniversalPaymentEvent)
      : Type 0 where
    pub plan : Plan
    pub payload : fs.0.payload ≡ payload_of plan
    pub bitmap : IsBitmap fs.0.bitmap
    pub extension : IsBitmap fs.1
    pub bits : (g : ℕ) → 2 ≤ g → g ≤ 64 → is_bit_set fs.0.bitmap g ≡ has_field g plan
    pub far_bits : (g : ℕ) → 65 ≤ g → g ≤ 128 → is_bit_set fs.1 (g - 64) ≡ has_field g plan
    pub announced : is_bit_set fs.0.bitmap 1 ≡ false → All (λ x. x.field < 65) plan
    pub ascending : Ascending 2 plan
    pub below : All (λ x. x.field < bound) plan
    pub reads : All (Reads round) plan
    pub event : run plan start ≡ now

  pub LaysBoth-near :
      (bound : ℕ) {f : Frame} {start now : UniversalPaymentEvent}
      → Lays round bound f start now
      → bound ≤ 65
      → LaysBoth bound (f, replicate 8 0) start now
  LaysBoth-near bound h le =
      let near = All-weaken bound 65 h.plan le h.below in
      record {
        plan = h.plan;
        payload = h.payload;
        bitmap = h.bitmap;
        extension = (refl, ground arith);
        bits = λ g a b. h.bits g (omega arith) b;
        far_bits = λ g a b.
            is_bit_set-zeros (g - 64) (omega arith)
            ∙ sym (has_field-below h.plan g (All-weaken 65 g h.plan a near));
        announced = λ _. near;
        ascending = h.ascending;
        below = h.below;
        reads = h.reads;
        event = h.event;
      }

  far_entry :
      (bound : ℕ) (fs : Frame × Bytes) {start now : UniversalPaymentEvent} (account : Bytes)
      (x : Entry)
      → LaysBoth bound fs start now
      → bound ≤ x.field
      → 65 ≤ x.field
      → x.field ≤ 128
      → x.bytes ≡ write_llvar account
      → Reads round x
      → LaysBoth (x.field + 1) (write_account (some account) x.field fs) start (x.store now)
  unfolding write_account
  far_entry bound fs {start} {now} account x h lo far hi written reads =
      let grown = set_bit-IsBitmap fs.0.bitmap 1 (omega arith) (omega arith) h.bitmap in
      record {
        plan = h.plan ++ x ∷ [];
        payload =
            ap (λ z. z ++ write_llvar account) h.payload
            ∙ (ap (◌++◌ (payload_of h.plan)) (sym written ∙ sym (append-nil x.bytes))
                ∙ sym (payload_of-append h.plan (x ∷ [])));
        bitmap = grown;
        extension = set_bit-IsBitmap fs.1 (x.field - 64) (omega arith) (omega arith) h.extension;
        bits = λ g a b.
            let own : (x.field == g) ≡ false = ground arith in
            let one : (1 == g) ≡ false = ground arith in
            is_bit_set-set_bit fs.0.bitmap 1 g h.bitmap.1 (omega arith, omega (arith, h.bitmap.0))
              (omega arith, omega (arith, h.bitmap.0))
            ∙ (ap (λ c. c || is_bit_set fs.0.bitmap g) one
                ∙ (h.bits g a b
                    ∙ sym (has_field-snoc h.plan x g ∙ ap (λ c. c || has_field g h.plan) own)));
        far_bits = λ g a b.
            let own : (x.field - 64 == g - 64) ≡ (x.field == g) = ground arith in
            is_bit_set-set_bit fs.1 (x.field - 64) (g - 64) h.extension.1
              (omega arith, omega (arith, h.extension.0))
              (omega arith, omega (arith, h.extension.0))
            ∙ (ap (λ c. c || is_bit_set fs.1 (g - 64)) own
                ∙ (ap (λ c. x.field == g || c) (h.far_bits g a b)
                    ∙ sym (has_field-snoc h.plan x g)));
        announced = λ e.
            let on : is_bit_set (set_bit fs.0.bitmap 1) 1 ≡ true =
              is_bit_set-set_bit fs.0.bitmap 1 1 h.bitmap.1 (omega arith, omega (arith, h.bitmap.0))
                (omega arith, omega (arith, h.bitmap.0)) in
            cc;
        ascending =
            Ascending-snoc 2 h.plan x h.ascending (All-weaken bound x.field h.plan lo h.below)
              (omega arith);
        below =
            All-append (λ y. y.field < x.field + 1) h.plan (x ∷ [])
              (All-weaken bound (x.field + 1) h.plan (omega arith) h.below) (omega arith, tt);
        reads = All-append (Reads round) h.plan (x ∷ []) h.reads (reads, tt);
        event = run-append h.plan (x ∷ []) start ∙ ap x.store h.event;
      }

  -- The step of an account, which is written if it is there.
  pub LaysBoth-account :
      (field : ℕ) (o : Option Bytes) (store : Store) {bound : ℕ} (fs : Frame × Bytes)
      {start now next : UniversalPaymentEvent}
      → Arm round field store read_llvar
      → ((v : Bytes) → o ≡ some v → (length v ≤ 99) × (store v now ≡ next))
      → (o ≡ none → now ≡ next)
      → bound ≤ field
      → 65 ≤ field
      → field ≤ 128
      → LaysBoth bound fs start now
      → LaysBoth (field + 1) (write_account o field fs) start next
  unfolding write_account read_llvar
  LaysBoth-account field none store {bound} fs {start} {now} {next} arm there absent lo far hi h =
      subst (LaysBoth (field + 1) fs start) (absent refl) (record {
        plan = h.plan;
        payload = h.payload;
        bitmap = h.bitmap;
        extension = h.extension;
        bits = h.bits;
        far_bits = h.far_bits;
        announced = h.announced;
        ascending = h.ascending;
        below = All-weaken bound (field + 1) h.plan (omega arith) h.below;
        reads = h.reads;
        event = h.event;
      })
  LaysBoth-account field (some v) store {bound} fs {start} {now} {next} arm there absent lo far hi
        h =
      let (short, stored) = there v refl in
      subst (λ t. LaysBoth (field + 1) (write_account (some v) field fs) start t) stored
        (far_entry bound fs v (record { field = field; bytes = write_llvar v; store = store v }) h
          lo far hi refl
          (subst (λ b. Reads round (record { field = field; bytes = b; store = store v }))
            (write_llvar-digits v short)
            (var-Reads round field 2 v store arm (omega arith) (omega arith) (omega arith))))

  is_set-LaysBoth :
      (bound : ℕ) (fs : Frame × Bytes) {start now : UniversalPaymentEvent}
      (secondary_bitmap : Bytes)
      → (is_bit_set fs.0.bitmap 1 ≡ true → secondary_bitmap ≡ fs.1)
      → (h : LaysBoth bound fs start now) → (g : ℕ) → 2 ≤ g
      → g < 129
      → is_set fs.0.bitmap secondary_bitmap g ≡ has_field g h.plan
  unfolding is_set
  is_set-LaysBoth bound fs secondary_bitmap second h g lo hi =
      let P : Bool → Type 0 = λ b. b ≡ has_field g h.plan in
      if_cases P (leb g 64) (λ near. h.bits g lo (ground arith))
        (λ far.
          let past : 65 ≤ g = ground arith in
          if_cases P (is_bit_set fs.0.bitmap 1)
            (λ on. ap (λ s. is_bit_set s (g - 64)) (second on) ∙ h.far_bits g past (omega arith))
            (λ off. sym (has_field-below h.plan g (All-weaken 65 g h.plan past (h.announced off)))))

  -- The loop over both bitmaps, where the field of the first bit is no field.
  pub for_fields-LaysBoth :
      (bound : ℕ) (fs : Frame × Bytes) {start now : UniversalPaymentEvent}
      (pre secondary_bitmap : Bytes)
      → ((raw : Bytes) (c : Cursor) → round raw 1 c ≡ ok c)
      → (is_bit_set fs.0.bitmap 1 ≡ true → secondary_bitmap ≡ fs.1)
      → LaysBoth bound fs start now
      → bound ≤ 129
      → for_fields
          (is_set fs.0.bitmap secondary_bitmap)
          (round (pre ++ fs.0.payload))
          128
          1
          (start, length pre)
        ≡ ok (now, length (pre ++ fs.0.payload))
  for_fields-LaysBoth bound fs {start} {now} pre secondary_bitmap skip second h le =
      let set : ℕ → Bool = is_set fs.0.bitmap secondary_bitmap in
      let raw = pre ++ fs.0.payload in
      let rest : for_fields set (round raw) 127 2 (start, length pre) ≡ ok (now, length raw) =
        for_fields-run round set 127 2 raw pre h.plan start (ap (◌++◌ pre) h.payload)
          (is_set-LaysBoth bound fs secondary_bitmap second h) h.ascending
          (All-weaken bound 129 h.plan le h.below) h.reads
        ∙ ap (λ t. ok (t, length raw)) h.event in
      first_skipped set (round raw) 127 (start, length pre) (skip raw) ∙ rest
