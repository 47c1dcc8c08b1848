-- ===== src/Simulator/SecurityModule.antt =====
-- The simulated security module of src/bin/mock_hsm.rs: its answer to each command.
pub mod Verified
use iso8583paymentsengine.Base.{
  ℕ, ◌+◌, ◌-◌, Option, none, some, List, [], ◌∷◌, ◌++◌, leb, length, if◌then◌else◌, ◌>>=◌,
}
use iso8583paymentsengine.Base.Text.{Bytes, codes, bytes_eq, slice, is_continuation}
use iso8583paymentsengine.Switch.Hsm.{ThalesMessage, Hsm}

-- `chars().rev()` on a text: each character is its first byte and the continuation bytes behind it.
unfoldable pub reverse_onto : Bytes → Bytes → Bytes → Bytes
reverse_onto [] char done = char ++ done
reverse_onto (b ∷ s) char done =
    if is_continuation b
    then reverse_onto s (char ++ (b ∷ [])) done
    else reverse_onto s (b ∷ []) (char ++ done)

abbrev pub reverse_chars : Bytes → Bytes
reverse_chars s = reverse_onto s [] []

abbrev pub reply : ThalesMessage → Bytes → Bytes → ThalesMessage
reply msg command payload = record msg { command = command; payload = payload }

-- The PIN block behind two keys and the length comes back reversed.
unfoldable pub translate : ThalesMessage → Option ThalesMessage
unfolding reverse_onto
translate msg =
    if leb 50 (length msg.payload)
    then (slice 34 50 msg.payload >>= λ pin_block.
        some (reply msg (codes "CB") (codes "00" ++ reverse_chars pin_block)))
    else some (reply msg (codes "CB") (codes "01"))

-- Every PIN is right but for the PVV 9999.
unfoldable pub verify : ThalesMessage → Option ThalesMessage
verify msg =
    let p = msg.payload in
    if leb 66 (length p)
    then (slice (length p - 4) (length p) p >>= λ pvv.
        some
          (reply msg (codes "DB") (if bytes_eq pvv (codes "9999") then codes "05" else codes "00")))
    else some (reply msg (codes "DB") (codes "01"))

-- The first character of the command, with its continuation bytes.
unfoldable pub first_char : Bytes → Option Bytes
first_char [] = none
first_char (b ∷ s) = some (b ∷ continuations s)
  where
    continuations : Bytes → Bytes
    continuations [] = []
    continuations (c ∷ t) = if is_continuation c then c ∷ continuations t else []

-- `process_hsm_command`; none is a panic.
unfoldable pub process_hsm_command : ThalesMessage → Option ThalesMessage
unfolding translate verify first_char
process_hsm_command msg =
    if bytes_eq msg.command (codes "CA")
    then translate msg
    else if bytes_eq msg.command (codes "DA")
    then verify msg
    else if bytes_eq msg.command (codes "M0")
    then some (reply msg (codes "M1") (codes "00"))
    else (first_char msg.command >>= λ c. some (reply msg (c ++ codes "B") (codes "15")))

-- The module as the switch meets it: where it panics there is no response.
abbrev pub mock_hsm : Hsm
mock_hsm = record { respond = process_hsm_command }
