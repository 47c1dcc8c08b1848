-- ===== src/Dialect/Fields/Written.antt =====
-- The readers of one field on what the writers of one field have written.
use mathlib.Core.List.{append_assoc}
use native.Mathlib.Nat.{pow-suc}
use iso8583paymentsengine.Base.{
  ℕ, zero, suc, ◌+◌, ◌-◌, ◌*◌, ◌/◌, ◌%◌, ◌^◌, ◌≤◌, ◌<◌, ◌≡◌, refl, sym, ap, ◌∙◌, Bool, some, [],
  ◌∷◌, ◌++◌, ltb, leb, ◌==◌, if_cases, length, take, All, All-append, length-append, take-append,
  drop-append, arith, take-all,
}
use iso8583paymentsengine.Base.Text.{Bytes}
use iso8583paymentsengine.Base.Utf8.{is_utf8-IsAscii}
use iso8583paymentsengine.Base.Digits.{
  parse_digits, parse_uint, fixed_digits, length-fixed_digits, fixed_digits-IsAscii,
}
use iso8583paymentsengine.Dialect.Fields.{ok, read_fixed, read_var, parse_length, write_fixed}

parse_digits-append :
    (bound acc : ℕ) (s t : Bytes) {n : ℕ}
    → parse_digits bound acc s ≡ some n
    → parse_digits bound acc (s ++ t) ≡ parse_digits bound n t
unfolding parse_digits
parse_digits-append bound acc [] t e = ground arith
parse_digits-append bound acc (b ∷ s) t {n} e =
    ground (arith, parse_digits-append bound (acc * 10 + (b - 48)) s t {n = n})

fixed_digits-digits : (w n : ℕ) → All (λ b. (48 ≤ b) × (b ≤ 57)) (fixed_digits w n)
unfolding fixed_digits
fixed_digits-digits zero n = tt
fixed_digits-digits (suc w) n =
    All-append (λ b. (48 ≤ b) × (b ≤ 57)) (fixed_digits w (n / 10)) ((48 + n % 10) ∷ [])
      (fixed_digits-digits w (n / 10)) ((omega arith, omega arith), tt)

parse_digits-fixed_digits :
    (bound w n : ℕ) → n < 10 ^ w → n < bound → parse_digits bound 0 (fixed_digits w n) ≡ some n
unfolding parse_digits fixed_digits
parse_digits-fixed_digits bound zero n h k = ground arith
parse_digits-fixed_digits bound (suc w) n h k =
    let below : n < 10 ^ w * 10 = rw pow-suc at h in
    let front : parse_digits bound 0 (fixed_digits w (n / 10)) ≡ some (n / 10) =
      parse_digits-fixed_digits bound w (n / 10) (omega arith) (omega arith) in
    parse_digits-append bound 0 (fixed_digits w (n / 10)) ((48 + n % 10) ∷ []) front ∙ ground arith

parse_uint-digits :
    (bound : ℕ) (s : Bytes)
    → 1 ≤ length s
    → All (λ b. (48 ≤ b) × (b ≤ 57)) s
    → parse_uint bound s ≡ parse_digits bound 0 s
unfolding parse_uint
parse_uint-digits bound [] h k = absurd (omega arith)
parse_uint-digits bound (b ∷ []) h k = refl
parse_uint-digits bound (b ∷ c ∷ s) h k =
    if_cases (λ r. r ≡ parse_digits bound 0 (b ∷ c ∷ s)) (b == b'+') (λ e. ground arith) (λ _. refl)

pub read_fixed-append :
    (pre v rest : Bytes)
    → read_fixed (pre ++ (v ++ rest)) (length pre) (length v) ≡ ok (v, length pre + length v)
unfolding read_fixed
read_fixed-append pre v rest =
    let raw = pre ++ (v ++ rest) in
    if_cases (λ r. r ≡ ok (v, length pre + length v)) (ltb (length raw) (length pre + length v))
      (λ e. ground (arith, length-append pre (v ++ rest), length-append v rest))
      (λ _.
        ap (λ t. ok (t, length pre + length v))
          (ap (take (length v)) (drop-append pre (v ++ rest)) ∙ take-append v rest))

-- A field that the writer pads or cuts to a length that it has is written as it is.
pub write_fixed_exact :
    (v : Bytes) (len pad : ℕ) (right : Bool) → length v ≡ len → write_fixed v len pad right ≡ v
unfolding write_fixed
write_fixed_exact v len pad right e =
    if_cases (λ r. r ≡ v) (leb len (length v)) (λ _. take-all len v (omega arith))
      (λ f. ground arith)

pub parse_uint-fixed_digits :
    (bound w n : ℕ) → 1 ≤ w → n < 10 ^ w → n < bound → parse_uint bound (fixed_digits w n) ≡ some n
parse_uint-fixed_digits bound w n one h k =
    parse_uint-digits bound (fixed_digits w n) (omega (arith, length-fixed_digits w n))
      (fixed_digits-digits w n)
    ∙ parse_digits-fixed_digits bound w n h k

parse_length-fixed_digits :
    (w n : ℕ) → 1 ≤ w → n < 10 ^ w → n < 2 ^ 64 → parse_length (fixed_digits w n) ≡ ok n
unfolding parse_length
parse_length-fixed_digits w n one h k =
    rw
      (
        is_utf8-IsAscii (fixed_digits w n) (fixed_digits-IsAscii w n),
        parse_uint-fixed_digits (2 ^ 64) w n one h k,
      )
      refl

-- A field behind the digits of its length is read as it was written, and the reader stops behind it.
pub read_var-append :
    (w : ℕ) (pre v rest : Bytes)
    → 1 ≤ w
    → length v < 10 ^ w
    → length v < 2 ^ 64
    → read_var w (pre ++ ((fixed_digits w (length v) ++ v) ++ rest)) (length pre)
      ≡ ok (v, length pre + (w + length v))
unfolding read_var
read_var-append w pre v rest one h k =
    let len = fixed_digits w (length v) in
    let raw = pre ++ ((len ++ v) ++ rest) in
    let size = length-fixed_digits w (length v) in
    let head : read_fixed raw (length pre) w ≡ ok (len, length pre + w) =
      ap (λ r. read_fixed (pre ++ r) (length pre) w) (append_assoc len v rest)
      ∙ (ap (λ n. read_fixed (pre ++ (len ++ (v ++ rest))) (length pre) n) (sym size)
          ∙ (read_fixed-append pre len (v ++ rest) ∙ ap (λ n. ok (len, length pre + n)) size)) in
    let at : length (pre ++ len) ≡ length pre + w = omega (arith, length-append pre len, size) in
    let same : (pre ++ len) ++ (v ++ rest) ≡ raw =
      append_assoc pre len (v ++ rest) ∙ ap (◌++◌ pre) (sym (append_assoc len v rest)) in
    let end : length (pre ++ len) + length v ≡ length pre + (w + length v) = omega arith in
    let body : read_fixed raw (length pre + w) (length v) ≡ ok (v, length pre + (w + length v)) =
      ap (λ r. read_fixed r (length pre + w) (length v)) (sym same)
      ∙ (ap (λ n. read_fixed ((pre ++ len) ++ (v ++ rest)) n (length v)) (sym at)
          ∙ (read_fixed-append (pre ++ len) v rest ∙ ap (λ n. ok (v, n)) end)) in
    rw (head, parse_length-fixed_digits w (length v) one h k) body
