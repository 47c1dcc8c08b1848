-- ===== src/Switch/Hsm.antt =====
-- The HSM client of switch-core/src/hsm_client.rs, up to the socket, and one pass of the HSM worker
-- of engine.rs.
pub mod Correlation
use iso8583paymentsengine.Base.{
  ℕ, ◌+◌, ◌-◌, ◌%◌, ◌^◌, Bool, true, false, ◌&&◌, Option, none, some, ◌++◌, leb, ltb, if◌then◌else◌,
  length, ◌>>=◌, drop,
}
use iso8583paymentsengine.Base.Text.{Bytes, codes, bytes_eq, starts_with, is_empty, slice}
use iso8583paymentsengine.Base.Utf8.{from_utf8_lossy}
use iso8583paymentsengine.Base.Digits.{format_padded}
use iso8583paymentsengine.Base.Dict.{lookup, contains_key}
use iso8583paymentsengine.Canonical.{UniversalPaymentEvent}
use iso8583paymentsengine.Canonical.Convert.{to_pb}
use iso8583paymentsengine.Routing.{RouteDestination, internal_crdb, external_node, find}
use iso8583paymentsengine.Switch.State.{
  TransactionContext, Engine, Environment, send_reply, send_to, decline, append_journal,
}
use iso8583paymentsengine.Switch.Ingress.{live_node}

pub record ThalesMessage : Type 0 where
  pub header : Bytes
  pub command : Bytes
  pub payload : Bytes

-- `next_header`: four digits of a 32-bit counter, before it is incremented.
unfoldable pub next_header : ℕ → Bytes × ℕ
next_header counter = (format_padded 4 (counter % 10000), (counter + 1) % 2 ^ 32)

-- `&pan[pan.len() - 13..pan.len() - 1]`: for twelve bytes the start lies before the text, a panic.
unfoldable pub format_pan : Bytes → Option Bytes
format_pan pan =
    if leb 12 (length pan)
    then (if ltb (length pan) 13 then none else slice (length pan - 13) (length pan - 1) pan)
    else some pan

unfoldable pub verify_pin_message : Bytes → Bytes → Bytes → Bytes → Option ThalesMessage
verify_pin_message header pin pan pvv = do
  formatted ← format_pan pan
  some (record {
    header = header;
    command = codes "DA";
    payload =
        codes "AWK1234567890123"
        ++ (pin ++ (codes "01" ++ (formatted ++ (codes "PVK1234567890123" ++ pvv))));
  })

unfoldable pub translate_pin_message : Bytes → Bytes → Bytes → Option ThalesMessage
translate_pin_message header pin pan = do
  formatted ← format_pan pan
  some (record {
    header = header;
    command = codes "CA";
    payload =
        codes "AWK1234567890123"
        ++ (codes "ZWK1234567890123" ++ (codes "12" ++ (pin ++ (codes "01" ++ formatted))));
  })

unfoldable pub verify_mac_message : Bytes → Bytes → Bytes → Option ThalesMessage
verify_mac_message header mac pan = do
  formatted ← format_pan pan
  some (record {
    header = header;
    command = codes "M0";
    payload = codes "MAK1234567890123" ++ (mac ++ formatted);
  })

-- What a command comes back with: a response, or none (closed, dropped, or two seconds passed).
abbrev pub Response : Type 0
Response = Option ThalesMessage

-- `verify_pin` and `verify_mac` on the response: true, false, or an error.
unfoldable pub read_verdict : Bytes → Response → Option Bool
unfolding starts_with bytes_eq
read_verdict command none = none
read_verdict command (some resp) =
    if bytes_eq resp.command command && starts_with (codes "00") resp.payload
    then some true
    else if bytes_eq resp.command command && starts_with (codes "05") resp.payload
    then some false
    else none

-- `translate_pin` on the response.
unfoldable pub read_translation : Response → Option Bytes
unfolding starts_with bytes_eq
read_translation none = none
read_translation (some resp) =
    if bytes_eq resp.command (codes "CB") && starts_with (codes "00") resp.payload
    then some (drop 2 resp.payload)
    else none

-- The security module as the worker meets it: its response to each message.
pub record Hsm : Type 0 where
  pub respond : ThalesMessage → Response

-- The correlation headers that the two commands of a pass took from the shared counter.
pub record Headers : Type 0 where
  pub mac : Bytes
  pub pin : Bytes

-- The outcome of the checks: the transaction is refused, or goes on with its channel, if it has one.
pub data Verdict : Type 0 where
  refused : Verdict
  passed : UniversalPaymentEvent → Option Bytes → Verdict

abbrev pub is_valid : Option Bool → Bool
is_valid (some true) = true
is_valid _ = false

-- `local_mac_valid`; no MAC is a valid one. `none` is the panic of the client.
unfoldable pub check_mac : Hsm → Bytes → UniversalPaymentEvent → Bytes → Option Bool
check_mac hsm header e pan = elim e.mac_data [
  | none ↦ some true
  | some mac ↦ verify_mac_message header mac pan >>= λ m.
      some (is_valid (read_verdict (codes "M1") (hsm.respond m)))
]

-- The channel of a node, if it has one.
unfoldable pub channel_of : Bytes → Engine → Option Bytes
channel_of n s = if contains_key n s.egress_channels then some n else none

-- A card of the local database: its PIN is verified where the message has one.
unfoldable pub check_pin : Hsm → Bytes → Bytes → Bytes → Bytes → Option Bool
check_pin hsm header pin pan pvv =
    if is_empty pin
    then some true
    else (verify_pin_message header pin pan pvv >>= λ m.
        some (is_valid (read_verdict (codes "DB") (hsm.respond m))))

unfoldable pub verify_local : Hsm → Headers → UniversalPaymentEvent → Engine → Option Verdict
verify_local hsm headers e s =
    let pan = from_utf8_lossy e.fpan in
    elim (lookup pan s.crdb_cards) [
      | none ↦ some refused
      | some card ↦ check_mac hsm headers.mac e pan >>= λ mac.
          check_pin hsm headers.pin (from_utf8_lossy e.pin_block) pan card.pvv >>= λ pin.
          some (if pin && mac then passed e (channel_of (codes "CRDB_DOMAIN_2") s) else refused)
    ]

-- The node that a checked transaction goes to, if it or its failover is live.
unfoldable pub external_channel : Bytes → Option Bytes → Engine → Option Bytes
external_channel n failover s = live_node n failover s >>= λ m. channel_of m s

-- An external node: its PIN block is translated where the message has one.
unfoldable pub translate :
    Hsm → Bytes → UniversalPaymentEvent → Bytes → Option (Option UniversalPaymentEvent)
translate hsm header e pan =
    let pin = from_utf8_lossy e.pin_block in
    if is_empty pin
    then some (some e)
    else (translate_pin_message header pin pan >>= λ m.
        some (elim (read_translation (hsm.respond m)) [
          | none ↦ none
          | some translated ↦ some (record e { pin_block = translated })
        ]))

unfoldable pub verify_external :
    Hsm → Headers → UniversalPaymentEvent → Bytes → Option Bytes → Engine → Option Verdict
verify_external hsm headers e n failover s =
    let pan = from_utf8_lossy e.fpan in
    check_mac hsm headers.mac e pan >>= λ mac.
    if mac
    then (translate hsm headers.pin e pan >>= λ t.
        some (elim t [ none ↦ refused | some e' ↦ passed e' (external_channel n failover s) ]))
    else some refused

unfoldable pub verify_for :
    Hsm
    → Headers
    → UniversalPaymentEvent
    → Option Bytes
    → RouteDestination
    → Engine
    → Option Verdict
verify_for hsm headers e failover internal_crdb s = verify_local hsm headers e s
verify_for hsm headers e failover (external_node n) s = verify_external hsm headers e n failover s

-- With no route nothing is verified, and no channel is chosen.
unfoldable pub verify : Hsm → Headers → UniversalPaymentEvent → Engine → Option Verdict
unfolding verify_for
verify hsm headers e s = elim (find s.router e.fpan) [
  | none ↦ some (passed e none)
  | some route ↦ verify_for hsm headers e route.failover_node route.destination s
]

unfoldable pub finish_verified : Environment → TransactionContext → Verdict → Engine → Engine
finish_verified env ctx refused s =
    send_reply ctx.responder (decline (codes "55") ctx.transaction) s
finish_verified env ctx (passed e target) s =
    if env.journal_open
    then (let s' = append_journal (to_pb e) s in
        elim target [
          | none ↦ s'
          | some n ↦ if env.accepts n then send_to n (record ctx { transaction = e }) s' else s'
        ])
    else s

-- One context of the HSM queue.
unfoldable pub hsm_pass : Hsm → Environment → Headers → TransactionContext → Engine → Option Engine
unfolding finish_verified
hsm_pass hsm env headers ctx s = do
  verdict ← verify hsm headers ctx.transaction s
  some (finish_verified env ctx verdict s)
