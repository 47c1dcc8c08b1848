-- ===== src/Switch/Reaper.antt =====
-- One pass of the reaper thread of engine.rs: it times out what the bank left unanswered, and prunes
-- what has ended.
pub mod Survivors
use iso8583paymentsengine.Base.{
  ℕ, ◌-◌, ◌/◌, Bool, true, false, ◌&&◌, Option, none, some, List, [], ◌∷◌, ltb, if◌then◌else◌,
}
use iso8583paymentsengine.Base.Text.{Bytes, codes}
use iso8583paymentsengine.Base.Dict.{Dict, lookup}
use iso8583paymentsengine.Canonical.{UniversalPaymentEvent, Transaction}
use iso8583paymentsengine.Canonical.Convert.{from_pb}
use iso8583paymentsengine.Routing.{RouteDestination, internal_crdb, external_node, find}
use iso8583paymentsengine.Switch.State.{
  NetworkState, upstream_sent, reversed, completed, ActiveTransaction, TransactionContext, Engine,
  Environment, send_reply, send_to, put_entry, drop_entry,
}
use iso8583paymentsengine.Switch.Reply.{forget_stan}

-- The milliseconds that the thread sleeps between two passes.
unfoldable pub sleep_interval : ℕ → ℕ
sleep_interval timeout_ms =
    let interval = if ltb timeout_ms 1000 then timeout_ms / 2 else 1000 in
    if ltb interval 1 then 1 else interval

abbrev pub prune_after : ℕ
prune_after = 30000

abbrev pub is_upstream_sent : NetworkState → Bool
is_upstream_sent upstream_sent = true
is_upstream_sent _ = false

abbrev pub is_over : NetworkState → Bool
is_over completed = true
is_over reversed = true
is_over _ = false

-- `Instant::duration_since` is zero where the clock went back.
unfoldable pub is_expired : ℕ → ℕ → ActiveTransaction → Bool
is_expired now timeout_ms a = is_upstream_sent a.state && ltb timeout_ms (now - a.created_at)

unfoldable pub is_stale : ℕ → ActiveTransaction → Bool
is_stale now a = is_over a.state && ltb prune_after (now - a.created_at)

-- The keys of the entries that pass a test, in the order of the map.
unfoldable pub keys_where : (ActiveTransaction → Bool) → Dict ActiveTransaction → List Bytes
keys_where test [] = []
keys_where test ((k, a) ∷ d) = let rest = keys_where test d in if test a then k ∷ rest else rest

unfoldable pub timeout_reply : Transaction → UniversalPaymentEvent
timeout_reply tx = from_pb (record tx { mti = codes "0110"; response_code = codes "68" })

-- The autonomous reversal: the transaction as it was received, under MTI 0420.
unfoldable pub reversal_context : Transaction → TransactionContext
reversal_context tx = record {
  transaction = from_pb (record tx { mti = codes "0420" });
  responder = none;
}

unfoldable pub send_to_destination : RouteDestination → TransactionContext → Engine → Engine
send_to_destination internal_crdb ctx s = s
send_to_destination (external_node n) ctx s = send_to n ctx s

-- The reversal goes to the external node of the route, whatever its health, and nowhere else.
unfoldable pub send_reversal : TransactionContext → Engine → Engine
unfolding send_to_destination
send_reversal ctx s = elim (find s.router ctx.transaction.fpan) [
  | none ↦ s
  | some route ↦ send_to_destination route.destination ctx s
]

abbrev pub reversed_entry : ActiveTransaction → ActiveTransaction
reversed_entry a = record a { responder = none; state = reversed; egress_stan = none }

unfoldable pub forget_egress : Option Bytes → Engine → Engine
forget_egress none s = s
forget_egress (some stan) s = forget_stan stan s

-- One timed-out entry: answer 68, send the reversal, free its STAN, and evict it.
unfoldable pub reverse_entry : Bytes → ActiveTransaction → Engine → Engine
reverse_entry key a s = drop_entry key (
    forget_egress a.egress_stan (
      send_reversal (reversal_context a.transaction_data) (
        send_reply a.responder (timeout_reply a.transaction_data)
          (put_entry key (reversed_entry a) s))))

-- The state of the entry is read again under its lock.
unfoldable pub reap_key : Bytes → Engine → Engine
reap_key key s = elim (lookup key s.idempotency_guard) [
  | none ↦ s
  | some a ↦ if is_upstream_sent a.state then reverse_entry key a s else s
]

unfoldable pub reap_keys : List Bytes → Engine → Engine
reap_keys [] s = s
reap_keys (k ∷ ks) s = reap_keys ks (reap_key k s)

unfoldable pub prune_keys : List Bytes → Engine → Engine
prune_keys [] s = s
prune_keys (k ∷ ks) s = prune_keys ks (drop_entry k s)

unfoldable pub reaper_pass : ℕ → Environment → Engine → Engine
unfolding keys_where reap_keys prune_keys
reaper_pass timeout_ms env s =
    let s' = reap_keys (keys_where (is_expired env.now timeout_ms) s.idempotency_guard) s in
    prune_keys (keys_where (is_stale env.now) s'.idempotency_guard) s'
