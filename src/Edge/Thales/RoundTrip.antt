-- ===== src/Edge/Thales/RoundTrip.antt =====
-- The decoder of `ThalesCodec`, payment-proto/src/thales.rs, on what its encoder writes.
use iso8583paymentsengine.Base.{
  ◌+◌, ◌-◌, ◌*◌, ◌/◌, ◌%◌, ◌^◌, ◌≤◌, ◌≡◌, refl, ap, ◌∙◌, false, none, some, [], ◌∷◌, ◌++◌, ltb,
  lt→ltb, if◌then◌else◌, if_cases, length, length-append, take-all, take-append, drop-append, arith,
  ◌>>=◌,
}
use iso8583paymentsengine.Base.Text.{Bytes, slice, IsAscii, slice-IsAscii}
use iso8583paymentsengine.Base.Utf8.{is_utf8-IsAscii}
use iso8583paymentsengine.Switch.Hsm.{ThalesMessage}
use iso8583paymentsengine.Edge.Frame.{put_u16}
use iso8583paymentsengine.Edge.Thales.{message, split_message, read_message, decode, encode}

abbrev pub text : ThalesMessage → Bytes
text m = m.header ++ (m.command ++ m.payload)

-- A command with a header of four bytes and a code of two, in ASCII.
abbrev pub IsCommand : ThalesMessage → Type 0
IsCommand m = (length m.header ≡ 4) × (length m.command ≡ 2) × IsAscii (text m)

split_message-slices :
    (s : Bytes) {h c p : Bytes}
    → slice 0 4 s ≡ some h
    → slice 4 6 s ≡ some c
    → slice 6 (length s) s ≡ some p
    → split_message s ≡ message (record { header = h; command = c; payload = p })
unfolding split_message
split_message-slices s e f g = rw (e, f, g, split_message) refl

read-text :
    (h c p : Bytes)
    → length h ≡ 4
    → length c ≡ 2
    → IsAscii (h ++ (c ++ p))
    → read_message (h ++ (c ++ p)) ≡ message (record { header = h; command = c; payload = p })
unfolding read_message
read-text (a ∷ b ∷ c ∷ d ∷ []) (e ∷ f ∷ []) p k l ascii =
    let s : Bytes = a ∷ b ∷ c ∷ d ∷ e ∷ f ∷ p in
    let m : ThalesMessage = record {
      header = a ∷ b ∷ c ∷ d ∷ [];
      command = e ∷ f ∷ [];
      payload = p;
    } in
    let last : slice 6 (length s) s ≡ some p =
      slice-IsAscii 6 (length s) s ascii (omega arith) (omega arith)
      ∙ ap some (take-all (length s - 6) p (omega arith)) in
    let split : split_message s ≡ message m =
      split_message-slices s (slice-IsAscii 0 4 s ascii (omega arith) (omega arith))
        (slice-IsAscii 4 6 s ascii (omega arith) (omega arith)) last in
    rw (is_utf8-IsAscii s ascii)
      (if_cases (λ r. r ≡ message m) (ltb (length s) 6) (λ lt. ground arith) (λ _. split))
read-text h c p k l ascii = absurd (omega arith)

length-text :
    (m : ThalesMessage) → length (text m) ≡ length m.header + length m.command + length m.payload
length-text m =
    omega
      (arith, length-append m.header (m.command ++ m.payload), length-append m.command m.payload)

decode-frame :
    (m : ThalesMessage) (rest : Bytes)
    → IsCommand m
    → length m.payload ≤ 65529
    → decode (put_u16 (length m.header + length m.command + length m.payload) ++ (text m ++ rest))
      ≡ (message m, rest)
unfolding decode
decode-frame m rest (hl, cl, ascii) short =
    let n = length m.header + length m.command + length m.payload in
    let len : (n % 2 ^ 16) / 256 * 256 + (n % 2 ^ 16) % 256 ≡ length (text m) =
      omega (arith, length-text m) in
    rw len (
      if_cases (λ r. r ≡ (message m, rest)) (ltb (length (text m ++ rest)) (length (text m)))
        (λ e. ground (arith, length-append (text m) rest))
        (λ e. cc (
          take-append (text m) rest,
          drop-append (text m) rest,
          read-text m.header m.command m.payload hl cl ascii,
        )))

-- A command in ASCII with a header of four bytes and a code of two is read back as it was written, and
-- the bytes behind it stay, if its payload has at most 65,529 bytes; with a longer one nothing is
-- written.
pub decode-encode_thales :
    (m : ThalesMessage) (rest : Bytes)
    → IsCommand m
    → (encode m [] >>= λ frame. some (decode (frame ++ rest)))
      ≡ (if ltb 65529 (length m.payload) then none else some (message m, rest))
unfolding encode
decode-encode_thales m rest (hl, cl, ascii) =
    let n = length m.header + length m.command + length m.payload in
    if_cases
      (λ r.
        (r >>= λ frame. some (decode (frame ++ rest)))
        ≡ (if ltb 65529 (length m.payload) then none else some (message m, rest)))
      (ltb 65535 n) (λ long. rw (lt→ltb 65529 (length m.payload) (ground arith)) refl)
      (λ short.
        let fits : ltb 65529 (length m.payload) ≡ false = ground arith in
        let got = decode-frame m rest (hl, cl, ascii) (ground arith) in rw fits (ap some got))
