-- ===== src/Tests/Security.antt =====
-- A run of the HSM client, with a response that comes twice and one that comes too late, and a PIN check.
use iso8583paymentsengine.Base.{◌≤◌, ◌≡◌, refl, not, some, List, [], ◌∷◌, All, arith}
use iso8583paymentsengine.Base.Text.{codes, bytes_eq, slice}
use iso8583paymentsengine.Switch.Hsm.{ThalesMessage, format_pan, check_pin}
use iso8583paymentsengine.Switch.Hsm.Correlation.{
  Event, command, gives_up, response, run, connected,
}
use iso8583paymentsengine.Switch.Hsm.Correlation.Matched.{answered, Matches, run-Matches}
use iso8583paymentsengine.Simulator.SecurityModule.{mock_hsm}
use iso8583paymentsengine.Simulator.SecurityModule.Verified.{check_pin-mock_hsm}

abbrev verified : ThalesMessage
verified = record { header = codes "0001"; command = codes "DB"; payload = codes "00" }

abbrev late : ThalesMessage
late = record { header = codes "0000"; command = codes "M1"; payload = codes "00" }

abbrev traffic : List Event
traffic =
    command
    ∷ command
    ∷ response verified
    ∷ response verified
    ∷ gives_up (codes "0000")
    ∷ response late
    ∷ []

run-Matches_example :
    (answered 1 (run traffic connected).answers ≤ 1) × All Matches (run traffic connected).answers
run-Matches_example = run-Matches 1 traffic

check_pin-mock_hsm_example :
    check_pin mock_hsm
      (codes "0007")
      (codes "1234567890ABCDEF")
      (codes "4111222233334444")
      (codes "9999")
    ≡ some (not (bytes_eq (codes "9999") (codes "9999")))
unfolding format_pan slice
check_pin-mock_hsm_example =
    check_pin-mock_hsm (codes "0007") (codes "1234567890ABCDEF") (codes "4111222233334444")
      (codes "122223333444") (codes "9999") refl refl refl refl (ground arith) (ground arith)
      (ground arith)
