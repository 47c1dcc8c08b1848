-- ===== src/Tests/Wire.antt =====
-- Runs of the frames of the edges.
use iso8583paymentsengine.Base.{◌≡◌, refl, some, [], ◌∷◌, ◌++◌, ◌>>=◌, arith}
use iso8583paymentsengine.Base.Text.{codes}
use iso8583paymentsengine.Switch.Hsm.{ThalesMessage}
use iso8583paymentsengine.Edge.Frame.{encode}
use iso8583paymentsengine.Edge.Frame.Stream.{receive, receive-encode_all}
use iso8583paymentsengine.Edge.Thales.{message}
use iso8583paymentsengine.Edge.Thales as Thales
use iso8583paymentsengine.Edge.Thales.RoundTrip.{decode-encode_thales}

-- Two frames in three reads, cut inside the first frame and inside the second length.
receive-encode_all_example :
    receive [] ((0 ∷ 2 ∷ b'A' ∷ []) ∷ (b'B' ∷ 0 ∷ []) ∷ (1 ∷ b'C' ∷ []) ∷ [])
    ≡ (codes "AB" ∷ codes "C" ∷ [], [])
unfolding encode
receive-encode_all_example =
    receive-encode_all (codes "AB" ∷ codes "C" ∷ [])
      ((0 ∷ 2 ∷ b'A' ∷ []) ∷ (b'B' ∷ 0 ∷ []) ∷ (1 ∷ b'C' ∷ []) ∷ []) (ground arith) refl

abbrev echo_command : ThalesMessage
echo_command = record { header = codes "0001"; command = codes "B2"; payload = codes "0005HELLO" }

decode-encode_thales_example :
    (Thales.encode echo_command [] >>= λ f. some (Thales.decode (f ++ codes "more")))
    ≡ some (message echo_command, codes "more")
decode-encode_thales_example =
    decode-encode_thales echo_command (codes "more") (refl, refl, ground arith)
