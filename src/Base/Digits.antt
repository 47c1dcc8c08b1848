-- ===== src/Base/Digits.antt =====
-- Decimal text: `str::parse` of unsigned numbers, and `format!("{:0w$}")`.
use Prim.Native.Nat.{◌<◌, ℕ, zero, suc, ◌+◌, ◌-◌, ◌*◌, ◌/◌, ◌%◌, ◌^◌}
use mathlib.Core.Path.{◌≡◌, refl, sym}
use native.Mathlib.Nat.{pow-suc}
use mathlib.Core.Bool.{Bool, ◌&&◌}
use mathlib.Core.Option.{Option, none, some}
use mathlib.Core.List.{[], ◌∷◌, ◌++◌}
use native.Mathlib.Omega.{arith}
use iso8583paymentsengine.Base.Tests.{ltb, leb, ◌==◌, if◌then◌else◌}
use iso8583paymentsengine.Base.Lists.{length, length-append, All-append}
use iso8583paymentsengine.Base.Text.{Bytes, IsAscii}

abbrev pub is_digit : ℕ → Bool
is_digit b = leb b'0' b && leb b b'9'

-- The digits left of a number below `bound`, most significant first, over the value read so far.
unfoldable pub parse_digits : ℕ → ℕ → Bytes → Option ℕ
parse_digits bound acc [] = some acc
parse_digits bound acc (b ∷ s) =
    if is_digit b && ltb (acc * 10 + (b - b'0')) bound
    then parse_digits bound (acc * 10 + (b - b'0')) s
    else none

-- `s.parse::<uN>()` for the type with values below `bound`: one `+` may stand in front, a sign
-- alone or no text at all is refused, and so is what overflows.
unfoldable pub parse_uint : ℕ → Bytes → Option ℕ
unfolding parse_digits
parse_uint bound [] = none
parse_uint bound (b ∷ []) = parse_digits bound 0 (b ∷ [])
parse_uint bound (b ∷ c ∷ s) =
    if b == b'+' then parse_digits bound 0 (c ∷ s) else parse_digits bound 0 (b ∷ c ∷ s)

-- The last `w` decimal digits of a number.
unfoldable pub fixed_digits : ℕ → ℕ → Bytes
fixed_digits zero n = []
fixed_digits (suc w) n = fixed_digits w (n / 10) ++ (b'0' + n % 10) ∷ []

-- The decimal digits of a number, none for 0, with fuel above the number of its digits.
unfoldable pub digits_of : ℕ → ℕ → Bytes
digits_of zero n = []
digits_of (suc f) n =
    let more = digits_of f (n / 10) in if n == 0 then [] else more ++ (b'0' + n % 10) ∷ []

-- `format!("{:0w}", n)` of a word (at most 20 digits).
unfoldable pub format_padded : ℕ → ℕ → Bytes
unfolding fixed_digits digits_of
format_padded w n = if ltb n (10 ^ w) then fixed_digits w n else digits_of 20 n

-- `format!("{}", n)`.
unfoldable pub format_uint : ℕ → Bytes
unfolding digits_of
format_uint n = if n == 0 then b'0' ∷ [] else digits_of 20 n

pub length-fixed_digits : (w n : ℕ) → length (fixed_digits w n) ≡ w
unfolding fixed_digits
length-fixed_digits zero n = refl
length-fixed_digits (suc w) n = omega (
  arith,
  length-append (fixed_digits w (n / 10)) ((b'0' + n % 10) ∷ []),
  length-fixed_digits w (n / 10),
)

one-ne-more : (y : ℕ) (t : Bytes) (a b : ℕ) → a ∷ [] ≡ y ∷ (t ++ b ∷ []) → ⊥
one-ne-more y [] a b e = cc
one-ne-more y (z ∷ t) a b e = cc

concat-injective : (s t : Bytes) {a b : ℕ} → s ++ a ∷ [] ≡ t ++ b ∷ [] → (s ≡ t) × (a ≡ b)
concat-injective [] [] e = ground arith
concat-injective [] (y ∷ t) e = absurd (one-ne-more y t _ _ e)
concat-injective (x ∷ s) [] e = absurd (one-ne-more x s _ _ (sym e))
concat-injective (x ∷ s) (y ∷ t) {a} {b} e =
    let r : s ++ a ∷ [] ≡ t ++ b ∷ [] = cc in let (p, q) = concat-injective s t r in (cc, q)

pub fixed_digits-IsAscii : (w n : ℕ) → IsAscii (fixed_digits w n)
unfolding fixed_digits
fixed_digits-IsAscii zero n = tt
fixed_digits-IsAscii (suc w) n =
    All-append (λ b. b < 128) (fixed_digits w (n / 10)) ((b'0' + n % 10) ∷ [])
      (fixed_digits-IsAscii w (n / 10)) (omega arith, tt)

-- Numbers below 10^w are told apart by their last w digits.
pub fixed_digits-injective :
    (w m n : ℕ) → m < 10 ^ w → n < 10 ^ w → fixed_digits w m ≡ fixed_digits w n → m ≡ n
unfolding fixed_digits
fixed_digits-injective zero m n h k e = omega arith
fixed_digits-injective (suc w) m n h k e =
    let ends = concat-injective (fixed_digits w (m / 10)) (fixed_digits w (n / 10)) e in
    let front =
      fixed_digits-injective w (m / 10) (n / 10) (below w m (rw pow-suc at h))
        (below w n (rw pow-suc at k)) ends.0 in
    omega (arith, front, ends.1)
  where
    below : (v a : ℕ) → a < 10 ^ v * 10 → a / 10 < 10 ^ v
    below v a p = omega arith
