-- ===== src/Dialect/Subset/Lays.antt =====
-- What a builder has laid out of a message with one bitmap, step by step, and what the parser reads of
-- it.
use mathlib.Core.Path.{subst}
use mathlib.Core.List.{append-nil}
use iso8583paymentsengine.Base.{
  ℕ, ◌+◌, ◌≤◌, ◌<◌, ◌≡◌, refl, sym, ap, ◌∙◌, Bool, true, false, ◌||◌, [], ◌∷◌, ◌++◌, ◌==◌, length,
  All, All-append, arith,
}
use iso8583paymentsengine.Base.Text.{Bytes}
use iso8583paymentsengine.Canonical.{UniversalPaymentEvent}
use iso8583paymentsengine.Dialect.Fields.{Outcome, ok, is_bit_set}
use iso8583paymentsengine.Dialect.Fields.Bits.{
  is_bit_set-set_bit, set_bit-IsBitmap, IsBitmap, is_bit_set-zeros,
}
use iso8583paymentsengine.Dialect.Event.{Frame, empty_frame, write_if}
use iso8583paymentsengine.Dialect.Subset.{Cursor, for_fields}
use iso8583paymentsengine.Dialect.Subset.Plan.{
  Plan, Entry, Reads, payload_of, run, has_field, Ascending, for_fields-run, has_field-Ascending,
  payload_of-append, run-append, has_field-snoc, Ascending-snoc, Ascending-weaken, All-weaken,
}

-- A builder's frame with the plan that it has laid out, for fields below a bound.
module _ (round : Bytes → ℕ → Cursor → Outcome Cursor) where
  pub record Lays (bound : ℕ) (f : Frame) (start now : UniversalPaymentEvent) : Type 0 where
    pub plan : Plan
    pub payload : f.payload ≡ payload_of plan
    pub bitmap : IsBitmap f.bitmap
    pub bits : (g : ℕ) → 1 ≤ g → g ≤ 64 → is_bit_set f.bitmap g ≡ has_field g plan
    pub ascending : Ascending 2 plan
    pub below : All (λ x. x.field < bound) plan
    pub reads : All (Reads round) plan
    pub event : run plan start ≡ now

module _ (round : Bytes → ℕ → Cursor → Outcome Cursor) where
  -- A field that is not written leaves the plan.
  pub Lays-none :
      (bound : ℕ) {f : Frame} {start now : UniversalPaymentEvent} (field : ℕ) (bytes : Bytes)
      → Lays round bound f start now
      → bound ≤ field
      → Lays round (field + 1) (write_if false field bytes f) start now
  unfolding write_if
  Lays-none bound field bytes h k = record {
    plan = h.plan;
    payload = h.payload;
    bitmap = h.bitmap;
    bits = h.bits;
    ascending = h.ascending;
    below = All-weaken bound (field + 1) h.plan (omega arith) h.below;
    reads = h.reads;
    event = h.event;
  }

  -- A field that is written is the next entry.
  Lays-entry :
      (bound : ℕ) {f : Frame} {start now : UniversalPaymentEvent} (x : Entry)
      → Lays round bound f start now
      → 2 ≤ bound
      → bound ≤ x.field
      → x.field ≤ 64
      → Reads round x
      → Lays round (x.field + 1) (write_if true x.field x.bytes f) start (x.store now)
  unfolding write_if
  Lays-entry bound {f} {start} {now} x h one lo hi reads = record {
    plan = h.plan ++ x ∷ [];
    payload =
        ap (λ z. z ++ x.bytes) h.payload
        ∙ (ap (◌++◌ (payload_of h.plan)) (sym (append-nil x.bytes))
            ∙ sym (payload_of-append h.plan (x ∷ [])));
    bitmap = set_bit-IsBitmap f.bitmap x.field (omega arith) hi h.bitmap;
    bits = λ g a b.
        is_bit_set-set_bit f.bitmap x.field g h.bitmap.1 (omega arith, omega (arith, h.bitmap.0))
          (a, omega (arith, h.bitmap.0))
        ∙ (ap (λ c. x.field == g || c) (h.bits g a b) ∙ sym (has_field-snoc h.plan x g));
    ascending =
        Ascending-snoc 2 h.plan x h.ascending (All-weaken bound x.field h.plan lo h.below)
          (omega arith);
    below =
        All-append (λ y. y.field < x.field + 1) h.plan (x ∷ [])
          (All-weaken bound (x.field + 1) h.plan (omega arith) h.below) (omega arith, tt);
    reads = All-append (Reads round) h.plan (x ∷ []) h.reads (reads, tt);
    event = run-append h.plan (x ∷ []) start ∙ ap x.store h.event;
  }

  -- A field that is written if a test says so; either way the event is the next one.
  pub Lays-if :
      (bound : ℕ) {f : Frame} {start now next : UniversalPaymentEvent} (present : Bool) (x : Entry)
      → Lays round bound f start now
      → 2 ≤ bound
      → bound ≤ x.field
      → x.field ≤ 64
      → (present ≡ true → Reads round x × (x.store now ≡ next))
      → (present ≡ false → now ≡ next)
      → Lays round (x.field + 1) (write_if present x.field x.bytes f) start next
  Lays-if bound {f} {start} {now} {next} true x h one lo hi there absent =
      let (reads, e) = there refl in
      subst (λ t. Lays round (x.field + 1) (write_if true x.field x.bytes f) start t) e
        (Lays-entry bound x h one lo hi reads)
  Lays-if bound {f} {start} {now} {next} false x h one lo hi there absent =
      subst (λ t. Lays round (x.field + 1) (write_if false x.field x.bytes f) start t) (absent refl)
        (Lays-none bound x.field x.bytes h lo)

  pub Lays-empty : (start : UniversalPaymentEvent) → Lays round 2 empty_frame start start
  Lays-empty start = record {
    plan = [];
    payload = refl;
    bitmap = (refl, ground arith);
    bits = λ g a b. is_bit_set-zeros g b;
    ascending = tt;
    below = tt;
    reads = tt;
    event = refl;
  }

  -- A builder never sets the first bit, which would announce another bitmap.
  pub is_bit_set-Lays :
      (bound : ℕ) {f : Frame} {start now : UniversalPaymentEvent}
      → Lays round bound f start now
      → is_bit_set f.bitmap 1 ≡ false
  is_bit_set-Lays bound h =
      h.bits 1 (omega arith) (omega arith)
      ∙ has_field-Ascending h.plan 1 2 h.ascending (omega arith)

  -- What a builder has laid out is read as the event that it stands for.
  pub for_fields-Lays :
      (is_set : ℕ → Bool) (bound : ℕ) {f : Frame} {start now : UniversalPaymentEvent} (pre : Bytes)
      → ((g : ℕ) → 1 ≤ g → g ≤ 64 → is_set g ≡ is_bit_set f.bitmap g)
      → Lays round bound f start now
      → bound ≤ 65
      → for_fields is_set (round (pre ++ f.payload)) 64 1 (start, length pre)
        ≡ ok (now, length (pre ++ f.payload))
  for_fields-Lays is_set bound {f} {start} {now} pre same h le =
      for_fields-run round is_set 64 1 (pre ++ f.payload) pre h.plan start (ap (◌++◌ pre) h.payload)
        (λ g a b. same g a (omega arith) ∙ h.bits g a (omega arith))
        (Ascending-weaken 1 2 h.plan (omega arith) h.ascending)
        (All-weaken bound 65 h.plan le h.below) h.reads
      ∙ ap (λ t. ok (t, length (pre ++ f.payload))) h.event
