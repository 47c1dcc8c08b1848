-- ===== src/Base/Text.antt =====
-- Byte strings: Rust's `Bytes`, `&[u8]` and `String` (a string is its UTF-8 bytes), with the
-- tests and the slicing that the source uses.
use Prim.Native.Char.{code}
use Prim.Native.String.{String}
use Prim.Native.Nat.{ℕ, zero, suc, ◌-◌, ◌≤◌, ◌<◌}
use mathlib.Core.Path.{◌≡◌, refl}
use mathlib.Core.Logic.{◌↔◌}
use mathlib.Core.Bool.{Bool, true, false, not, ◌&&◌, ◌||◌}
use mathlib.Core.Option.{Option, none, some}
use mathlib.Core.List.{List, [], ◌∷◌}
use native.Mathlib.Omega.{arith}
use iso8583paymentsengine.Base.Tests.{ltb, leb, ◌==◌, if◌then◌else◌}
use iso8583paymentsengine.Base.Lists.{length, get_or, take, drop, All}

abbrev pub Bytes : Type 0
Bytes = List ℕ

-- A text literal as bytes (used on ASCII literals only).
abbrev pub codes : String → Bytes
codes String.[] = []
codes (String.◌∷◌ c s) = code c ∷ codes s

-- `==` on byte strings.
unfoldable pub bytes_eq : Bytes → Bytes → Bool
bytes_eq [] [] = true
bytes_eq (x ∷ xs) (y ∷ ys) = x == y && bytes_eq xs ys
bytes_eq _ _ = false

-- `a.starts_with(b)`, the prefix first.
unfoldable pub starts_with : Bytes → Bytes → Bool
starts_with [] s = true
starts_with (p ∷ ps) [] = false
starts_with (p ∷ ps) (x ∷ xs) = p == x && starts_with ps xs

abbrev pub is_empty : Bytes → Bool
is_empty [] = true
is_empty (x ∷ xs) = false

-- A byte 0x80..0xBF, which never starts a character.
abbrev pub is_continuation : ℕ → Bool
is_continuation b = leb 128 b && ltb b 192

-- `str::is_char_boundary` for a position inside the string or at its end.
unfoldable pub is_boundary : Bytes → ℕ → Bool
is_boundary s i = i == length s || (ltb i (length s) && not (is_continuation (get_or s i 0)))

-- `&s[lo..hi]` on a `str`: `none` is the panic of an index out of range or inside a character.
unfoldable pub slice : ℕ → ℕ → Bytes → Option Bytes
unfolding is_boundary
slice lo hi s =
    if leb lo hi && leb hi (length s) && is_boundary s lo && is_boundary s hi
    then some (take (hi - lo) (drop lo s))
    else none

abbrev pub IsAscii : Bytes → Type 0
IsAscii = All (λ b. b < 128)

pub bytes_eq_iff : (a b : Bytes) → (bytes_eq a b ≡ true) ↔ (a ≡ b)
unfolding bytes_eq
bytes_eq_iff (x ∷ a) (y ∷ b) = ground (arith, bytes_eq_iff a b)
bytes_eq_iff _ _ = ground arith

pub bytes_eq_self : (a : Bytes) → bytes_eq a a ≡ true
bytes_eq_self a = (bytes_eq_iff a a).1 refl

get_or-IsAscii : (s : Bytes) (i : ℕ) → IsAscii s → get_or s i 0 < 128
get_or-IsAscii [] i h = omega arith
get_or-IsAscii (x ∷ s) zero h = h.0
get_or-IsAscii (x ∷ s) (suc i) h = get_or-IsAscii s i h.1

-- Slicing ASCII text inside its length never panics.
pub slice-IsAscii :
    (lo hi : ℕ) (s : Bytes)
    → IsAscii s
    → lo ≤ hi
    → hi ≤ length s
    → slice lo hi s ≡ some (take (hi - lo) (drop lo s))
unfolding slice
slice-IsAscii lo hi s a h k = ground (arith, get_or-IsAscii s lo a, get_or-IsAscii s hi a)
