-- ===== src/Dialect/Fields/Bits.antt =====
-- The bits of a bitmap: which fields are set after a field has been set.
use mathlib.Core.Path.{subst}
use iso8583paymentsengine.Base.{
  ℕ, zero, suc, ◌-◌, ◌*◌, ◌/◌, ◌%◌, ◌^◌, ◌<◌, ◌≤◌, ◌≡◌, ◌≢◌, [], ◌∷◌, refl, sym, ap, ◌∙◌,
  Bool-cases, inl, inr, ==_iff, length, length-set, get_or, set, All, ltb, bit_and, bit_or, Bool,
  true, false, not, ◌&&◌, ◌||◌, ◌==◌, ltb→lt, replicate, arith,
}
use iso8583paymentsengine.Base.Text.{Bytes}
use iso8583paymentsengine.Dialect.Fields.{out_of_range, set_bit, is_bit_set}

-- A test of the numbers below a bound.
abbrev all_below : ℕ → (ℕ → Bool) → Bool
all_below zero p = true
all_below (suc n) p = p n && all_below n p

all_below-true : (n : ℕ) (p : ℕ → Bool) → all_below n p ≡ true → (k : ℕ) → k < n → p k ≡ true
all_below-true zero p e k h = absurd (omega arith)
all_below-true (suc n) p e k h =
    let both : (p n ≡ true) × (all_below n p ≡ true) = ground arith in
    elim (Bool-cases (k == n)) [
      | inl last ↦ subst (λ m. p m ≡ true) (sym ((==_iff k n).0 last)) both.0
      | inr earlier ↦ all_below-true n p both.1 k (ground arith)
    ]

abbrev same : Bool → Bool → Bool
same true b = b
same false b = not b

abbrev bit : ℕ → ℕ → Bool
bit x i = not (bit_and x (0x80 / 2 ^ i) == 0)

abbrev bit_law : ℕ → ℕ → ℕ → Bool
bit_law x i j = same (bit (bit_or x (0x80 / 2 ^ i)) j) (i == j || bit x j)

bit_law-checked : all_below 256 (λ x. all_below 8 (λ i. all_below 8 (bit_law x i))) ≡ true
bit_law-checked = refl

bit_law-true : (x i j : ℕ) → x < 256 → i < 8 → j < 8 → bit_law x i j ≡ true
bit_law-true x i j h k l =
    all_below-true 8 (bit_law x i)
      (all_below-true 8 (λ m. all_below 8 (bit_law x m))
        (all_below-true 256 (λ y. all_below 8 (λ m. all_below 8 (bit_law y m))) bit_law-checked x h)
        i k)
      j l

same-true : (a b : Bool) → same a b ≡ true → a ≡ b
same-true a b e = ground arith

get_or-set_self : (xs : Bytes) (i v : ℕ) → i < length xs → get_or (set xs i v) i 0 ≡ v
get_or-set_self [] i v h = absurd (omega arith)
get_or-set_self (x ∷ xs) zero v h = refl
get_or-set_self (x ∷ xs) (suc i) v h = get_or-set_self xs i v (omega arith)

get_or-set_ne : (xs : Bytes) (i j v : ℕ) → i ≢ j → get_or (set xs i v) j 0 ≡ get_or xs j 0
get_or-set_ne [] i j v h = refl
get_or-set_ne (x ∷ xs) zero zero v h = absurd (h refl)
get_or-set_ne (x ∷ xs) zero (suc j) v h = refl
get_or-set_ne (x ∷ xs) (suc i) zero v h = refl
get_or-set_ne (x ∷ xs) (suc i) (suc j) v h = get_or-set_ne xs i j v (λ e. h (ap suc e))

get_or-All : (xs : Bytes) (i : ℕ) → All (λ b. b < 256) xs → get_or xs i 0 < 256
get_or-All [] i h = omega arith
get_or-All (x ∷ xs) zero h = h.0
get_or-All (x ∷ xs) (suc i) h = get_or-All xs i h.1

-- The fields that a bitmap of bytes has room for.
abbrev pub HasRoom : Bytes → ℕ → Type 0
HasRoom bitmap field = (1 ≤ field) × (field ≤ length bitmap * 8)

bit-bit_or :
    (x i j : ℕ) → x < 256 → i < 8 → j < 8 → bit (bit_or x (0x80 / 2 ^ i)) j ≡ (i == j || bit x j)
bit-bit_or x i j h k l = same-true _ _ (bit_law-true x i j h k l)

pub is_bit_set-bit :
    (bitmap : Bytes) (field : ℕ)
    → HasRoom bitmap field
    → is_bit_set bitmap field ≡ bit (get_or bitmap ((field - 1) / 8) 0) ((field - 1) % 8)
unfolding is_bit_set
is_bit_set-bit bitmap field room =
    let inside : out_of_range bitmap field ≡ false = ground arith in rw inside refl

set_bit-set :
    (bitmap : Bytes) (field : ℕ)
    → HasRoom bitmap field
    → set_bit bitmap field ≡ (
        let i = (field - 1) / 8 in
        set bitmap i (bit_or (get_or bitmap i 0) (0x80 / 2 ^ ((field - 1) % 8))))
unfolding set_bit
set_bit-set bitmap field room =
    let inside : out_of_range bitmap field ≡ false = ground arith in rw inside refl

-- Setting a field's bit in a bitmap sets that bit and leaves every other bit as it was, for all the
-- fields that the bitmap has room for.
pub is_bit_set-set_bit :
    (bitmap : Bytes) (field other : ℕ)
    → All (λ b. b < 256) bitmap
    → HasRoom bitmap field
    → HasRoom bitmap other
    → is_bit_set (set_bit bitmap field) other ≡ (field == other || is_bit_set bitmap other)
is_bit_set-set_bit bitmap field other bytes room room' =
    let i = (field - 1) / 8 in
    let j = (other - 1) / 8 in
    let m = (field - 1) % 8 in
    let n = (other - 1) % 8 in
    let v = bit_or (get_or bitmap i 0) (0x80 / 2 ^ m) in
    let wide : HasRoom (set bitmap i v) other = (room'.0, omega (arith, length-set bitmap i v)) in
    let left : is_bit_set (set_bit bitmap field) other ≡ bit (get_or (set bitmap i v) j 0) n =
      ap (λ b. is_bit_set b other) (set_bit-set bitmap field room)
      ∙ is_bit_set-bit (set bitmap i v) other wide in
    let right : is_bit_set bitmap other ≡ bit (get_or bitmap j 0) n =
      is_bit_set-bit bitmap other room' in
    elim (Bool-cases (i == j)) [
      | inl e ↦
          let at : i ≡ j = (==_iff i j).0 e in
          let same_bit : (m == n) ≡ (field == other) = ground arith in
          let written : get_or (set bitmap i v) j 0 ≡ v =
            ap (λ k. get_or (set bitmap i v) k 0) (sym at)
            ∙ get_or-set_self bitmap i v (omega arith) in
          let law : bit v n ≡ (m == n || bit (get_or bitmap i 0) n) =
            bit-bit_or (get_or bitmap i 0) m n (get_or-All bitmap i bytes) (omega arith)
              (omega arith) in
          left
          ∙ (ap (λ x. bit x n) written
              ∙ (law
                  ∙ (ap (λ b. b || bit (get_or bitmap i 0) n) same_bit
                      ∙ ap (λ b. field == other || b)
                          (ap (λ k. bit (get_or bitmap k 0) n) at ∙ sym right))))
      | inr e ↦
          let apart : i ≢ j = λ p. ground (arith, ==_iff i j) in
          let differ : (field == other) ≡ false = ground arith in
          left
          ∙ (ap (λ x. bit x n) (get_or-set_ne bitmap i j v apart)
              ∙ (sym right ∙ ap (λ b. b || is_bit_set bitmap other) (sym differ)))
    ]

byte_law-checked : all_below 256 (λ x. all_below 8 (λ i. ltb (bit_or x (0x80 / 2 ^ i)) 256)) ≡ true
byte_law-checked = refl

bit_or-lt : (x i : ℕ) → x < 256 → i < 8 → bit_or x (0x80 / 2 ^ i) < 256
bit_or-lt x i h k = ltb→lt (bit_or x (0x80 / 2 ^ i)) 256 (
    all_below-true 8 (λ m. ltb (bit_or x (0x80 / 2 ^ m)) 256)
      (all_below-true 256 (λ y. all_below 8 (λ m. ltb (bit_or y (0x80 / 2 ^ m)) 256))
        byte_law-checked x h)
      i k)

All-set : (xs : Bytes) (i v : ℕ) → All (λ b. b < 256) xs → v < 256 → All (λ b. b < 256) (set xs i v)
All-set [] i v h k = tt
All-set (x ∷ xs) zero v h k = (k, h.1)
All-set (x ∷ xs) (suc i) v h k = (h.0, All-set xs i v h.1 k)

-- Eight bytes.
abbrev pub IsBitmap : Bytes → Type 0
IsBitmap bitmap = (length bitmap ≡ 8) × All (λ b. b < 256) bitmap

pub set_bit-IsBitmap :
    (bitmap : Bytes) (field : ℕ)
    → 1 ≤ field
    → field ≤ 64
    → IsBitmap bitmap
    → IsBitmap (set_bit bitmap field)
set_bit-IsBitmap bitmap field lo hi (size, bytes) =
    let i = (field - 1) / 8 in
    let v = bit_or (get_or bitmap i 0) (0x80 / 2 ^ ((field - 1) % 8)) in
    let room : HasRoom bitmap field = (lo, omega arith) in
    let small : v < 256 =
      bit_or-lt (get_or bitmap i 0) ((field - 1) % 8) (get_or-All bitmap i bytes) (omega arith) in
    subst IsBitmap (sym (set_bit-set bitmap field room))
      (length-set bitmap i v ∙ size, All-set bitmap i v bytes small)

zeros-checked : all_below 65 (λ g. not (is_bit_set (replicate 8 0) g)) ≡ true
unfolding is_bit_set
zeros-checked = refl

pub is_bit_set-zeros : (g : ℕ) → g ≤ 64 → is_bit_set (replicate 8 0) g ≡ false
is_bit_set-zeros g h =
    let off : not (is_bit_set (replicate 8 0) g) ≡ true =
      all_below-true 65 (λ k. not (is_bit_set (replicate 8 0) k)) zeros-checked g (omega arith) in
    ground arith
