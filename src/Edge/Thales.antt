-- ===== src/Edge/Thales.antt =====
-- `ThalesCodec` of payment-proto/src/thales.rs: the frames of the HSM's connection.
pub mod RoundTrip
use iso8583paymentsengine.Base.{
  ℕ, zero, suc, ◌+◌, ◌*◌, ◌/◌, ◌%◌, ◌^◌, Bool, true, false, Option, none, some, List, [], ◌∷◌, ◌++◌,
  ltb, if◌then◌else◌, length, take, drop,
}
use iso8583paymentsengine.Base.Text.{Bytes, slice}
use iso8583paymentsengine.Base.Utf8.{is_utf8}
use iso8583paymentsengine.Edge.Frame.{put_u16}
use iso8583paymentsengine.Switch.Hsm.{ThalesMessage}

-- What the decoder returns: nothing yet, a message, an `InvalidData` error, or the panic of a slice
-- inside a character.
pub data Decoded : Type 0 where
  incomplete : Decoded
  message : ThalesMessage → Decoded
  invalid_utf8 too_short : Decoded
  panic : Decoded

-- The three slices of a frame's text.
unfoldable pub split_message : Bytes → Decoded
split_message text = elim (slice 0 4 text) [
  | none ↦ panic
  | some header ↦ elim (slice 4 6 text) [
    | none ↦ panic
    | some command ↦ elim (slice 6 (length text) text) [
      | none ↦ panic
      | some payload ↦ message (record { header = header; command = command; payload = payload })
    ]
  ]
]

unfoldable pub read_message : Bytes → Decoded
unfolding split_message
read_message data' =
    if is_utf8 data'
    then (if ltb (length data') 6 then too_short else split_message data')
    else invalid_utf8

-- A frame that is there as a whole is taken from the buffer, also when it is refused.
unfoldable pub decode : Bytes → Decoded × Bytes
unfolding read_message
decode (hi ∷ lo ∷ src) =
    let len = hi * 256 + lo in
    if ltb (length src) len
    then (incomplete, hi ∷ lo ∷ src)
    else (read_message (take len src), drop len src)
decode src = (incomplete, src)

-- The buffer behind the write; `none` is the error of a message that is too long.
unfoldable pub encode : ThalesMessage → Bytes → Option Bytes
encode item dst =
    let payload_len = length item.header + length item.command + length item.payload in
    if ltb 65535 payload_len
    then none
    else some (dst ++ (put_u16 payload_len ++ (item.header ++ (item.command ++ item.payload))))
