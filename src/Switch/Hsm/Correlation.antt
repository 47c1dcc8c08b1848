-- ===== src/Switch/Hsm/Correlation.antt =====
-- The correlation map of switch-core/src/hsm_client.rs: how the reader task finds the caller of a response.
pub mod Matched
use iso8583paymentsengine.Base.{
  ℕ, ◌+◌, ◌≤◌, ◌<◌, ◌≡◌, ◌==◌, refl, sym, ap, ◌∙◌, Bool, true, false, Option, none, some, List, [],
  ◌∷◌, ◌++◌, All, All-append, if◌then◌else◌, Bool-cases, Option-cases, inl, inr, arith,
}
use iso8583paymentsengine.Base.Text.{Bytes, bytes_eq, bytes_eq_iff}
use iso8583paymentsengine.Base.Dict.{Dict, lookup, insert, remove}
use iso8583paymentsengine.Switch.Hsm.{ThalesMessage, next_header}

-- The sending half of a caller's channel: which call it is of, and the header that this call took.
pub record Waiter : Type 0 where
  pub call_number : ℕ
  pub header : Bytes

-- `HsmClient`, with the number of the calls so far and what was sent back to the callers.
pub record HsmClient : Type 0 where
  pub correlation_map : Dict Waiter
  pub counter : ℕ
  pub calls : ℕ
  pub answers : List (Waiter × ThalesMessage)

-- A command registers its caller; a command that cannot be sent, or that times out, takes its header out
-- of the map; and the reader gets a message.
pub data Event : Type 0 where
  command : Event
  gives_up : Bytes → Event
  response : ThalesMessage → Event

unfoldable pub register : HsmClient → HsmClient
unfolding next_header
register c =
    let (header, counter) = next_header c.counter in
    record {
      correlation_map =
          insert header (record { call_number = c.calls; header = header }) c.correlation_map;
      counter = counter;
      calls = c.calls + 1;
      answers = c.answers;
    }

unfoldable pub read_response : ThalesMessage → HsmClient → HsmClient
read_response msg c = elim (lookup msg.header c.correlation_map) [
  | none ↦ c
  | some waiter ↦ record c {
    correlation_map = remove msg.header c.correlation_map;
    answers = c.answers ++ ((waiter, msg) ∷ []);
  }
]

unfoldable pub step : Event → HsmClient → HsmClient
unfolding register read_response
step command c = register c
step (gives_up header) c = record c { correlation_map = remove header c.correlation_map }
step (response msg) c = read_response msg c

unfoldable pub run : List Event → HsmClient → HsmClient
unfolding step
run [] c = c
run (e ∷ es) c = run es (step e c)

-- `HsmClient::connect`
unfoldable pub connected : HsmClient
connected = record { correlation_map = []; counter = 0; calls = 0; answers = [] }
