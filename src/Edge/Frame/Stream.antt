-- ===== src/Edge/Frame/Stream.antt =====
-- What a connection receives through `Iso8583Codec`, however its bytes are cut into reads.
use iso8583paymentsengine.Base.{
  ℕ, zero, suc, ◌+◌, ◌*◌, ◌/◌, ◌%◌, ◌^◌, ◌≤◌, ◌<◌, ◌≡◌, refl, sym, ap, ◌∙◌, Option, none, some,
  List, [], ◌∷◌, ◌++◌, ltb, if_cases, length, All, length-append, length-drop, take-append,
  drop-append, take-append_le, drop-append_le, Bool-cases, inl, inr, arith,
}
use mathlib.Core.Path.{subst}
use mathlib.Core.List.{append_assoc, append-nil}
use iso8583paymentsengine.Base.Text.{Bytes}
use iso8583paymentsengine.Edge.Frame.{decode, encode}

-- Frames short enough for their length to fit 16 bits.
abbrev pub Short : Bytes → Type 0
Short item = length item < 65536

-- Calling the decoder until it has no frame: the frames, and the bytes left.
data Drains : Bytes → List Bytes → Bytes → Type 0 where
  dry : {src : Bytes} → decode src ≡ (none, src) → Drains src [] src
  frame :
      {src next rest : Bytes} {item : Bytes} {items : List Bytes}
      → decode src ≡ (some item, next)
      → Drains next items rest
      → Drains src (item ∷ items) rest

-- The same as a function, with a frame for each two bytes at most.
unfoldable pub drain : ℕ → Bytes → List Bytes × Bytes
unfolding decode
drain zero src = ([], src)
drain (suc fuel) src =
    let (found, next) = decode src in
    let (items, rest) = drain fuel next in
    elim found [ none ↦ ([], src) | some item ↦ (item ∷ items, rest) ]

-- A connection: each read is put behind the bytes left, and the decoder is called until it is dry.
unfoldable pub receive : Bytes → List Bytes → List Bytes × Bytes
unfolding drain
receive buffer [] = ([], buffer)
receive buffer (chunk ∷ chunks) =
    let (items, rest) = drain (length (buffer ++ chunk)) (buffer ++ chunk) in
    let (more, last) = receive rest chunks in (items ++ more, last)

abbrev pub concat : List Bytes → Bytes
concat [] = []
concat (chunk ∷ chunks) = chunk ++ concat chunks

-- The frames of a sender, one behind the other.
abbrev pub encode_all : List Bytes → Bytes
encode_all [] = []
encode_all (item ∷ items) = encode item [] ++ encode_all items

decode-nil : decode [] ≡ (none, [])
unfolding decode
decode-nil = refl

pub decode-encode :
    (item rest : Bytes) → Short item → decode (encode item [] ++ rest) ≡ (some item, rest)
unfolding decode encode
decode-encode item rest h =
    let len : (length item % 2 ^ 16) / 256 * 256 + (length item % 2 ^ 16) % 256 ≡ length item =
      omega arith in
    rw len (
      if_cases (λ r. r ≡ (some item, rest)) (ltb (length (item ++ rest)) (length item))
        (λ e. ground (arith, length-append item rest))
        (λ e. cc (take-append item rest, drop-append item rest)))

-- A frame that is there stays the first one when more bytes arrive.
decode-append :
    (src more : Bytes) {item next : Bytes}
    → decode src ≡ (some item, next)
    → decode (src ++ more) ≡ (some item, next ++ more)
unfolding decode
decode-append [] more e = cc
decode-append (hi ∷ []) more e = cc
decode-append (hi ∷ lo ∷ src) more {item} {next} e = ground (
  arith,
  length-append src more,
  take-append_le (hi * 256 + lo) src more,
  drop-append_le (hi * 256 + lo) src more,
)

-- A decoder that finds a frame takes at least two bytes.
decode-shrinks :
    (src : Bytes) {item next : Bytes}
    → decode src ≡ (some item, next)
    → length next + 2 ≤ length src
unfolding decode
decode-shrinks [] e = cc
decode-shrinks (hi ∷ []) e = cc
decode-shrinks (hi ∷ lo ∷ src) e = elim (Bool-cases (ltb (length src) (hi * 256 + lo))) [
  | inl short ↦ ground (arith)
  | inr there ↦ ground (arith, length-drop (hi * 256 + lo) src)
]

decode-none : (src : Bytes) {next : Bytes} → decode src ≡ (none, next) → next ≡ src
unfolding decode
decode-none [] e = cc
decode-none (hi ∷ []) e = cc
decode-none (hi ∷ lo ∷ src) e = ground arith

Drains-append :
    {src : Bytes} (more : Bytes) {xs ys : List Bytes} {rest last : Bytes}
    → Drains src xs rest
    → Drains (rest ++ more) ys last
    → Drains (src ++ more) (xs ++ ys) last
Drains-append more (dry e) d = d
Drains-append {src} more (frame e ds) d = frame (decode-append src more e) (Drains-append more ds d)

Drains-unique :
    {src : Bytes} {xs ys : List Bytes} {rest last : Bytes}
    → Drains src xs rest
    → Drains src ys last
    → (xs ≡ ys) × (rest ≡ last)
Drains-unique (dry e) (dry k) = (refl, refl)
Drains-unique (dry e) (frame k ds) = cc
Drains-unique (frame e ds) (dry k) = cc
Drains-unique {rest} {last} (frame {next = n} {item = x} {items = us} e ds)
      (frame {next = m} {item = y} {items = vs} k dt) =
    let found : some x ≡ some y = ap (λ d. d.0) (sym e ∙ k) in
    let same : m ≡ n = ap (λ d. d.1) (sym k ∙ e) in
    let tails : (us ≡ vs) × (rest ≡ last) =
      Drains-unique ds (subst (λ z. Drains z vs last) same dt) in
    (cc tails.0, tails.1)

Drains-dry :
    {src : Bytes} {xs : List Bytes} {rest : Bytes} → Drains src xs rest → decode rest ≡ (none, rest)
Drains-dry (dry e) = e
Drains-dry (frame e ds) = Drains-dry ds

drain-Drains :
    (fuel : ℕ) (src : Bytes) → length src ≤ fuel → Drains src (drain fuel src).0 (drain fuel src).1
unfolding drain
drain-Drains zero [] h = dry refl
drain-Drains zero (b ∷ src) h = elim h [ ]
drain-Drains (suc fuel) src h =
    from (decode src).0 (decode src).1 refl (drain-Drains fuel (decode src).1)
  where
    from :
        (found : Option Bytes) (next : Bytes)
        → decode src ≡ (found, next)
        → (length next ≤ fuel → Drains next (drain fuel next).0 (drain fuel next).1)
        → (let d : List Bytes × Bytes = elim found [
          | none ↦ ([], src)
          | some item ↦ (item ∷ (drain fuel next).0, (drain fuel next).1)
        ] in
            Drains src d.0 d.1)
    from none next e later = dry (subst (λ r. decode src ≡ (none, r)) (decode-none src e) e)
    from (some item) next e later = frame e (later (omega (arith, decode-shrinks src e)))

receive-Drains :
    (chunks : List Bytes) (buffer : Bytes)
    → decode buffer ≡ (none, buffer)
    → Drains (buffer ++ concat chunks) (receive buffer chunks).0 (receive buffer chunks).1
unfolding receive
receive-Drains [] buffer e = subst (λ b. Drains b [] buffer) (sym (append-nil buffer)) (dry e)
receive-Drains (chunk ∷ chunks) buffer e =
    let first = drain-Drains (length (buffer ++ chunk)) (buffer ++ chunk) (omega arith) in
    let later = receive-Drains chunks _ (Drains-dry first) in
    let found = receive buffer (chunk ∷ chunks) in
    subst (λ b. Drains b found.0 found.1) (append_assoc buffer chunk (concat chunks))
      (Drains-append (concat chunks) first later)

encode_all-Drains : (items : List Bytes) → All Short items → Drains (encode_all items) items []
encode_all-Drains [] h = dry decode-nil
encode_all-Drains (item ∷ items) h =
    frame (decode-encode item (encode_all items) h.0) (encode_all-Drains items h.1)

pair :
    {p : List Bytes × Bytes} {items : List Bytes} {rest : Bytes}
    → p.0 ≡ items
    → p.1 ≡ rest
    → p ≡ (items, rest)
pair e k = cc

-- However the bytes of a sender's frames are cut into reads, the connection receives the frames one by
-- one, as they were sent, and no byte is left, if each is shorter than 65,536 bytes.
pub receive-encode_all :
    (items chunks : List Bytes)
    → All Short items
    → concat chunks ≡ encode_all items
    → receive [] chunks ≡ (items, [])
receive-encode_all items chunks h e =
    let sent = encode_all-Drains items h in
    let got = receive-Drains chunks [] decode-nil in
    let found = receive [] chunks in
    let same = Drains-unique (subst (λ b. Drains b found.0 found.1) e got) sent in
    pair same.0 same.1
