-- ===== src/Edge/Frame.antt =====
-- `Iso8583Codec`: the length-prefixed frames of edge-ingress/src/codec.rs, which
-- edge-egress/src/client.rs repeats word for word.
pub mod Stream
use iso8583paymentsengine.Base.{
  ℕ, zero, suc, ◌+◌, ◌*◌, ◌/◌, ◌%◌, ◌^◌, Bool, true, false, Option, none, some, List, [], ◌∷◌, ◌++◌,
  ltb, if◌then◌else◌, length, take, drop,
}
use iso8583paymentsengine.Base.Text.{Bytes}

-- `put_u16` of a length that is cut to 16 bits.
abbrev pub put_u16 : ℕ → Bytes
put_u16 len = (len % 2 ^ 16) / 256 ∷ (len % 2 ^ 16) % 256 ∷ []

-- The frame that the buffer starts with, if it is there as a whole, and what is left in the buffer.
unfoldable pub decode : Bytes → Option Bytes × Bytes
decode (hi ∷ lo ∷ src) =
    let len = hi * 256 + lo in
    if ltb (length src) len then (none, hi ∷ lo ∷ src) else (some (take len src), drop len src)
decode src = (none, src)

-- The buffer behind the write.
unfoldable pub encode : Bytes → Bytes → Bytes
encode item dst = dst ++ (put_u16 (length item) ++ item)
