-- ===== src/Dialect/Fields.antt =====
-- The bitmaps and the field readers and writers at the end of payment-proto/src/iso_dialect.rs.
pub mod Bits
pub mod Written
use iso8583paymentsengine.Base.{
  ℕ, ◌+◌, ◌-◌, ◌*◌, ◌/◌, ◌%◌, ◌^◌, bit_and, bit_or, Bool, false, not, ◌||◌, [], ◌++◌, ltb, leb,
  ◌==◌, if◌then◌else◌, length, take, drop, get_or, set, replicate, none, some,
}
use iso8583paymentsengine.Base.Text.{Bytes}
use iso8583paymentsengine.Base.Utf8.{is_utf8}
use iso8583paymentsengine.Base.Digits.{parse_uint, format_padded}

pub data ParseError : Type 0 where
  invalid_format unknown_mti length_error : ParseError

-- A reader's result, or the panic of a slice inside a character.
pub data Outcome {ℓ} (A : Type ℓ) : Type ℓ where
  ok : A → Outcome A
  err : ParseError → Outcome A
  panic : Outcome A

infixl 5 ◌>>=◌
abbrev pub ◌>>=◌ {ℓ κ} : {A : Type ℓ} {B : Type κ} → Outcome A → (A → Outcome B) → Outcome B
ok a >>= f = f a
err e >>= f = err e
panic >>= f = panic

-- The mask of a field's bit inside its byte: 0x80 >> ((field - 1) % 8).
abbrev pub bit_mask : ℕ → ℕ
bit_mask field = 0x80 / 2 ^ ((field - 1) % 8)

abbrev pub out_of_range : Bytes → ℕ → Bool
out_of_range bitmap field = ltb field 1 || ltb (length bitmap * 8) field

unfoldable pub set_bit : Bytes → ℕ → Bytes
set_bit bitmap field =
    if out_of_range bitmap field
    then bitmap
    else (let i = (field - 1) / 8 in set bitmap i (bit_or (get_or bitmap i 0) (bit_mask field)))

unfoldable pub is_bit_set : Bytes → ℕ → Bool
is_bit_set bitmap field =
    if out_of_range bitmap field
    then false
    else not (bit_and (get_or bitmap ((field - 1) / 8) 0) (bit_mask field) == 0)

-- The bytes of a field and the offset behind it.
unfoldable pub read_fixed : Bytes → ℕ → ℕ → Outcome (Bytes × ℕ)
read_fixed input offset len =
    if ltb (length input) (offset + len)
    then err length_error
    else ok (take len (drop offset input), offset + len)

-- `str::from_utf8` and `parse::<usize>` of a length prefix.
unfoldable pub parse_length : Bytes → Outcome ℕ
parse_length text =
    if is_utf8 text
    then elim (parse_uint (2 ^ 64) text) [ none ↦ err invalid_format | some n ↦ ok n ]
    else err invalid_format

-- A field behind a length of `w` digits.
unfoldable pub read_var : ℕ → Bytes → ℕ → Outcome (Bytes × ℕ)
unfolding read_fixed parse_length
read_var w input offset =
    read_fixed input offset w >>= λ (text, at). parse_length text >>= λ len. read_fixed input at len

unfoldable pub read_llvar : Bytes → ℕ → Outcome (Bytes × ℕ)
unfolding read_var
read_llvar = read_var 2

unfoldable pub read_lllvar : Bytes → ℕ → Outcome (Bytes × ℕ)
unfolding read_var
read_lllvar = read_var 3

-- What `write_fixed` appends: the value cut or padded to its length.
unfoldable pub write_fixed : Bytes → ℕ → ℕ → Bool → Bytes
write_fixed val len pad_char pad_right =
    if leb len (length val)
    then take len val
    else (let padding = replicate (len - length val) pad_char in
        if pad_right then val ++ padding else padding ++ val)

-- What `write_llvar` and `write_lllvar` append: nothing, if the value is too long.
unfoldable pub write_llvar : Bytes → Bytes
write_llvar val = if ltb 99 (length val) then [] else format_padded 2 (length val) ++ val

unfoldable pub write_lllvar : Bytes → Bytes
write_lllvar val = if ltb 999 (length val) then [] else format_padded 3 (length val) ++ val
