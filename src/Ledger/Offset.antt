-- ===== src/Ledger/Offset.antt =====
-- The 64-bit arithmetic of switch-core/src/ledger_worker.rs and its chains of slices that may panic.
use mathlib.Core.Path.{subst}
use mathlib.Core.Option.{some-injective}
use iso8583paymentsengine.Base.{
  ℕ, ◌-◌, ◌%◌, ◌^◌, ◌<◌, ◌≤◌, ◌≡◌, ◌≢◌, refl, ap, Option, none, some, ◌>>=◌, Bool-cases, inl, inr,
  ◌==◌, arith,
}
use iso8583paymentsengine.Base.Int.{
  ℤ, pos, negsuc, pos_part, neg_part, ◌+ℤ◌, ◌-ℤ◌, as_i64, as_i64_small, +ℤ_parts, -ℤ_parts,
  eq_of_parts,
}
use iso8583paymentsengine.Ledger.{wrap_i64, neg_i64}

-- A number that a 64-bit word holds.
abbrev pub IsI64 : ℤ → Type 0
IsI64 a = (pos_part a < 2 ^ 63) × (neg_part a ≤ 2 ^ 63)

pub as_i64-IsI64 : (x : ℕ) → x < 2 ^ 64 → IsI64 (as_i64 x)
unfolding as_i64
as_i64-IsI64 x h = ground arith

pub wrap_i64-IsI64 : (a : ℤ) → IsI64 (wrap_i64 a)
unfolding wrap_i64
wrap_i64-IsI64 (pos n) = as_i64-IsI64 (n % 2 ^ 64) (omega arith)
wrap_i64-IsI64 (negsuc n) = as_i64-IsI64 (2 ^ 64 - 1 - n % 2 ^ 64) (omega arith)

pub as_i64_negative : (n : ℕ) → n < 2 ^ 63 → as_i64 (2 ^ 64 - 1 - n) ≡ negsuc n
unfolding as_i64
as_i64_negative n h = ground arith

pub wrap_i64_fits : (a : ℤ) → IsI64 a → wrap_i64 a ≡ a
unfolding wrap_i64
wrap_i64_fits (pos n) h =
    let same : n % 2 ^ 64 ≡ n = omega (arith, h.0) in rw same (as_i64_small n h.0)
wrap_i64_fits (negsuc n) h =
    let same : n % 2 ^ 64 ≡ n = omega (arith, h.1) in
    rw same (as_i64_negative n (omega (arith, h.1)))

pub negated-IsI64 : (a : ℤ) → IsI64 a → a ≢ negsuc (2 ^ 63 - 1) → IsI64 (pos 0 -ℤ a)
unfolding ◌-ℤ◌
negated-IsI64 (pos n) h k = ground (arith, h.0)
negated-IsI64 (negsuc n) h k = elim (Bool-cases (n == 2 ^ 63 - 1)) [
  | inl e ↦ absurd (k (ap negsuc (ground arith)))
  | inr e ↦ let small : n < 2 ^ 63 - 1 = ground (arith, h.1) in ground arith
]

-- Only the least number has no negative.
pub neg_i64-offsets : (a : ℤ) → IsI64 a → a ≢ negsuc (2 ^ 63 - 1) → neg_i64 a +ℤ a ≡ pos 0
unfolding neg_i64
neg_i64-offsets a h k =
    let fits = negated-IsI64 a h k in
    rw (wrap_i64_fits (pos 0 -ℤ a) fits) (
      eq_of_parts ((pos 0 -ℤ a) +ℤ a) (pos 0)
        (omega (arith, -ℤ_parts (pos 0) a, +ℤ_parts (pos 0 -ℤ a) a)))

pub bind_map :
    {A B C R S : Type 0} (o : Option A) (p : Option B) (q : Option C) (g : A → B → C → R)
    (g' : A → B → C → S) (f : R → S)
    → ((a : A) (b : B) (c : C) → g' a b c ≡ f (g a b c))
    → (o >>= λ a. p >>= λ b. q >>= λ c. some (g' a b c))
      ≡ ((o >>= λ a. p >>= λ b. q >>= λ c. some (g a b c)) >>= λ r. some (f r))
bind_map none p q g g' f h = refl
bind_map (some a) none q g g' f h = refl
bind_map (some a) (some b) none g g' f h = refl
bind_map (some a) (some b) (some c) g g' f h = ap some (h a b c)

pub bind_inv :
    {A B C R : Type 0} (o : Option A) (p : Option B) (q : Option C) (g : A → B → C → R)
    (P : R → Type 0) (r : R)
    → ((a : A) (b : B) (c : C) → P (g a b c))
    → (o >>= λ a. p >>= λ b. q >>= λ c. some (g a b c)) ≡ some r
    → P r
bind_inv none p q g P r h e = cc e
bind_inv (some a) none q g P r h e = cc e
bind_inv (some a) (some b) none g P r h e = cc e
bind_inv (some a) (some b) (some c) g P r h e = subst P (some-injective _ _ e) (h a b c)
