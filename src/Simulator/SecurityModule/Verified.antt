-- ===== src/Simulator/SecurityModule/Verified.antt =====
-- The PIN check of the switch against the simulated security module of src/bin/mock_hsm.rs.
use mathlib.Core.List.{append_assoc}
use iso8583paymentsengine.Base.{
  ℕ, ◌+◌, ◌-◌, ◌≤◌, ◌≡◌, ◌<◌, refl, sym, ap, ◌∙◌, Bool-cases, inl, inr, Bool, true, false, not,
  Option, some, [], ◌∷◌, ◌++◌, leb, length, drop, take, All-append, length-append, drop-append,
  take-all, if◌then◌else◌, arith,
}
use iso8583paymentsengine.Base.Text.{
  Bytes, codes, bytes_eq, slice, slice-IsAscii, IsAscii, is_empty, starts_with,
}
use iso8583paymentsengine.Switch.Hsm.{
  ThalesMessage, format_pan, verify_pin_message, check_pin, read_verdict, is_valid,
}
use iso8583paymentsengine.Simulator.SecurityModule.{verify, process_hsm_command, mock_hsm}

-- The end of a text is cut off where it begins.
slice_end :
    (front back : Bytes)
    → IsAscii (front ++ back)
    → slice (length (front ++ back) - length back) (length (front ++ back)) (front ++ back)
      ≡ some back
slice_end front back h =
    let n = length (front ++ back) in
    let whole : n ≡ length front + length back = length-append front back in
    let start : n - length back ≡ length front = omega (arith, whole) in
    let size : n - (n - length back) ≡ length back = omega (arith, whole) in
    slice-IsAscii (n - length back) n (front ++ back) h (omega arith) (omega arith)
    ∙ (ap (λ k. some (take k (drop (n - length back) (front ++ back)))) size
        ∙ (ap (λ k. some (take (length back) (drop k (front ++ back)))) start
            ∙ (ap (λ t. some (take (length back) t)) (drop-append front back)
                ∙ ap some (take-all (length back) back (omega arith)))))

-- The answer to a PIN command whose payload ends with a PVV of four bytes.
verify-pvv :
    (header command front pvv : Bytes)
    → IsAscii (front ++ pvv)
    → length pvv ≡ 4
    → 62 ≤ length front
    → verify (record { header = header; command = command; payload = front ++ pvv })
      ≡ some (record {
        header = header;
        command = codes "DB";
        payload = if bytes_eq pvv (codes "9999") then codes "05" else codes "00";
      })
unfolding verify
verify-pvv header command front pvv h four long =
    let whole = length-append front pvv in
    let enough : leb 66 (length (front ++ pvv)) ≡ true = ground (arith, whole, four, long) in
    rw enough (rw (← four) (rw (slice_end front pvv h) refl))

-- The payload of a PIN command in front of its PVV.
abbrev front_of : Bytes → Bytes → Bytes
front_of pin formatted =
    codes "AWK1234567890123" ++ (pin ++ (codes "01" ++ (formatted ++ codes "PVK1234567890123")))

front_of-append :
    (pin formatted pvv : Bytes)
    → front_of pin formatted ++ pvv
      ≡ codes "AWK1234567890123"
        ++ (pin ++ (codes "01" ++ (formatted ++ (codes "PVK1234567890123" ++ pvv))))
front_of-append pin formatted pvv =
    let key = codes "PVK1234567890123" in
    ap (λ t. codes "AWK1234567890123" ++ t)
      (append_assoc pin (codes "01" ++ (formatted ++ key)) pvv
        ∙ ap (λ t. pin ++ (codes "01" ++ t)) (append_assoc formatted key pvv))

front_of-IsAscii :
    (pin formatted : Bytes) → IsAscii pin → IsAscii formatted → IsAscii (front_of pin formatted)
front_of-IsAscii pin formatted p f =
    let ascii : ℕ → Type 0 = λ b. b < 128 in
    All-append ascii (codes "AWK1234567890123") _ (ground arith) (
      All-append ascii pin _ p (
        All-append ascii (codes "01") _ (ground arith)
          (All-append ascii formatted (codes "PVK1234567890123") f (ground arith))))

front_of-length :
    (pin formatted : Bytes)
    → length pin ≡ 16
    → length formatted ≡ 12
    → length (front_of pin formatted) ≡ 62
front_of-length pin formatted p f = omega (
  arith,
  p,
  f,
  length-append pin (codes "01" ++ (formatted ++ codes "PVK1234567890123")),
  length-append formatted (codes "PVK1234567890123"),
)

-- The command of a PIN check and what the module answers to it.
respond-verify_pin_message :
    (header pin formatted pvv : Bytes)
    → length pin ≡ 16
    → length formatted ≡ 12
    → length pvv ≡ 4
    → IsAscii pin
    → IsAscii formatted
    → IsAscii pvv
    → process_hsm_command (record {
      header = header;
      command = codes "DA";
      payload =
          codes "AWK1234567890123"
          ++ (pin ++ (codes "01" ++ (formatted ++ (codes "PVK1234567890123" ++ pvv))));
    })
      ≡ some (record {
        header = header;
        command = codes "DB";
        payload = if bytes_eq pvv (codes "9999") then codes "05" else codes "00";
      })
unfolding process_hsm_command bytes_eq
respond-verify_pin_message header pin formatted pvv p f four ascii_pin ascii_pan ascii_pvv =
    ap
      (λ payload.
        process_hsm_command (record { header = header; command = codes "DA"; payload = payload }))
      (sym (front_of-append pin formatted pvv))
    ∙ verify-pvv header (codes "DA") (front_of pin formatted) pvv
        (All-append (λ b. b < 128) (front_of pin formatted) pvv
          (front_of-IsAscii pin formatted ascii_pin ascii_pan) ascii_pvv)
        four (omega (arith, front_of-length pin formatted p f))

verdict-pvv :
    (header pvv : Bytes)
    → is_valid (
        read_verdict (codes "DB") (
          some (record {
            header = header;
            command = codes "DB";
            payload = if bytes_eq pvv (codes "9999") then codes "05" else codes "00";
          })))
      ≡ not (bytes_eq pvv (codes "9999"))
unfolding read_verdict starts_with bytes_eq
verdict-pvv header pvv = elim (Bool-cases (bytes_eq pvv (codes "9999"))) [
  | inl e ↦ rw e refl
  | inr e ↦ rw e refl
]

is_empty-pin : (pin : Bytes) → length pin ≡ 16 → is_empty pin ≡ false
is_empty-pin [] p = absurd (omega (arith, p))
is_empty-pin (b ∷ pin) p = refl

-- A PIN block of sixteen bytes, a PVV of four and twelve bytes of the PAN, all ASCII, in a check against the
-- simulated security module: the switch takes the PIN as valid exactly if the PVV is not 9999.
pub check_pin-mock_hsm :
    (header pin pan formatted pvv : Bytes)
    → format_pan pan ≡ some formatted
    → length pin ≡ 16
    → length formatted ≡ 12
    → length pvv ≡ 4
    → IsAscii pin
    → IsAscii formatted
    → IsAscii pvv
    → check_pin mock_hsm header pin pan pvv ≡ some (not (bytes_eq pvv (codes "9999")))
unfolding check_pin verify_pin_message
check_pin-mock_hsm header pin pan formatted pvv fmt p f four ascii_pin ascii_pan ascii_pvv =
    let answer : Option ThalesMessage → Option Bool =
      λ r. some (is_valid (read_verdict (codes "DB") r)) in
    rw (is_empty-pin pin p, fmt)
      (ap answer (
          respond-verify_pin_message header pin formatted pvv p f four ascii_pin ascii_pan
            ascii_pvv)
        ∙ ap some (verdict-pvv header pvv))
