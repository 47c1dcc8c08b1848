-- ===== src/Base/Utf8.antt =====
-- Rust's `str::from_utf8` and `String::from_utf8_lossy` over the whole of UTF-8.
use Prim.Native.Nat.{ℕ, zero, suc, ◌-◌, ◌<◌}
use mathlib.Core.Path.{◌≡◌, refl}
use mathlib.Core.Bool.{Bool, true, false, ◌&&◌}
use mathlib.Core.List.{[], ◌∷◌, ◌++◌}
use native.Mathlib.Omega.{arith}
use iso8583paymentsengine.Base.Tests.{ltb, leb, ◌==◌, if◌then◌else◌}
use iso8583paymentsengine.Base.Lists.{get_or}
use iso8583paymentsengine.Base.Text.{Bytes, is_continuation, IsAscii}

-- What a read at the front of the bytes finds: a character of that many bytes, or an ill-formed
-- part of that many bytes (the "maximal subpart" that one replacement character stands for).
pub data Chunk : Type 0 where
  character broken : ℕ → Chunk

abbrev within : ℕ → ℕ → ℕ → Bool
within lo hi b = leb lo b && leb b hi

-- The second byte that a lead byte of three or four bytes admits.
abbrev second_ok : ℕ → ℕ → Bool
second_ok lead b =
    if lead == 0xE0
    then within 0xA0 0xBF b
    else if lead == 0xED
    then within 0x80 0x9F b
    else if lead == 0xF0
    then within 0x90 0xBF b
    else if lead == 0xF4
    then within 0x80 0x8F b
    else is_continuation b

-- Past the end a byte reads as 0, which is no continuation byte.
unfoldable pub chunk : ℕ → Bytes → Chunk
chunk lead rest =
    let b1 = get_or rest 0 0 in
    let b2 = get_or rest 1 0 in
    let b3 = get_or rest 2 0 in
    if ltb lead 0x80
    then character 1
    else if within 0xC2 0xDF lead
    then (if is_continuation b1 then character 2 else broken 1)
    else if within 0xE0 0xEF lead
    then (if second_ok lead b1
        then (if is_continuation b2 then character 3 else broken 2)
        else broken 1)
    else if within 0xF0 0xF4 lead
    then (if second_ok lead b1
        then (if is_continuation b2
            then (if is_continuation b3 then character 4 else broken 3)
            else broken 2)
        else broken 1)
    else broken 1

-- How many bytes of the current character are still to copy, or of a broken part to skip.
pub data Pending : Type 0 where
  copy skip : ℕ → Pending

abbrev replacement : Bytes
replacement = 0xEF ∷ 0xBF ∷ 0xBD ∷ []

abbrev enter : ℕ → Chunk → Bytes × Pending
enter b (character n) = (b ∷ [], copy (n - 1))
enter b (broken n) = (replacement, skip (n - 1))

abbrev lossy_step : Pending → ℕ → Bytes → Bytes × Pending
lossy_step (copy (suc n)) b rest = (b ∷ [], copy n)
lossy_step (skip (suc n)) b rest = ([], skip n)
lossy_step (copy zero) b rest = enter b (chunk b rest)
lossy_step (skip zero) b rest = enter b (chunk b rest)

lossy_from : Pending → Bytes → Bytes
lossy_from p [] = []
lossy_from p (b ∷ rest) = let (out, p') = lossy_step p b rest in out ++ lossy_from p' rest

unfoldable pub from_utf8_lossy : Bytes → Bytes
unfolding lossy_from chunk
from_utf8_lossy = lossy_from (copy 0)

abbrev pub is_character : Chunk → Bool
is_character (character n) = true
is_character (broken n) = false

abbrev utf8_step : ℕ → ℕ → Bytes → Bool × ℕ
utf8_step (suc n) b rest = (true, n)
utf8_step zero b rest = elim (chunk b rest) [ character n ↦ (true, n - 1) | broken n ↦ (false, 0) ]

utf8_from : ℕ → Bytes → Bool
utf8_from n [] = true
utf8_from n (b ∷ rest) = let (good, n') = utf8_step n b rest in good && utf8_from n' rest

-- Whether `str::from_utf8` gives `Ok`.
unfoldable pub is_utf8 : Bytes → Bool
unfolding utf8_from chunk
is_utf8 = utf8_from 0

chunk-ascii : (b : ℕ) (rest : Bytes) → b < 128 → chunk b rest ≡ character 1
unfolding chunk
chunk-ascii b rest h = ground arith

lossy_from-IsAscii : (s : Bytes) → IsAscii s → lossy_from (copy 0) s ≡ s
unfolding lossy_from
lossy_from-IsAscii [] h = refl
lossy_from-IsAscii (b ∷ s) h =
    rw (chunk-ascii b s h.0, lossy_step, enter) (rw (lossy_from-IsAscii s h.1))

-- ASCII text is its own lossy reading.
pub from_utf8_lossy-IsAscii : (s : Bytes) → IsAscii s → from_utf8_lossy s ≡ s
unfolding from_utf8_lossy
from_utf8_lossy-IsAscii s h = lossy_from-IsAscii s h

utf8_from-IsAscii : (s : Bytes) → IsAscii s → utf8_from 0 s ≡ true
unfolding utf8_from
utf8_from-IsAscii [] h = refl
utf8_from-IsAscii (b ∷ s) h = rw (chunk-ascii b s h.0, utf8_step) (utf8_from-IsAscii s h.1)

pub is_utf8-IsAscii : (s : Bytes) → IsAscii s → is_utf8 s ≡ true
unfolding is_utf8
is_utf8-IsAscii s h = utf8_from-IsAscii s h
