-- ===== src/Switch/Ingress.antt =====
-- One pass of an ingress worker of engine.rs, stage by stage in the order of the source. `none` is
-- a panic, which ends the worker thread.
pub mod Screen
pub mod Silent
use iso8583paymentsengine.Base.{
  ℕ, ◌+◌, ◌-◌, ◌%◌, ◌^◌, Bool, true, false, not, ◌&&◌, ◌||◌, Option, none, some, List, [], ◌∷◌,
  ◌++◌, ltb, leb, if◌then◌else◌, length, ◌>>=◌,
}
use iso8583paymentsengine.Base.Text.{Bytes, codes, bytes_eq, starts_with, is_empty, slice}
use iso8583paymentsengine.Base.Utf8.{from_utf8_lossy}
use iso8583paymentsengine.Base.Digits.{format_padded}
use iso8583paymentsengine.Base.Dict.{Dict, lookup, contains_key, insert}
use iso8583paymentsengine.Canonical.{
  MessageClass, authorization, financial, reversal_advice, network_management,
  network_management_response, UniversalPaymentEvent,
}
use iso8583paymentsengine.Canonical.Convert.{to_pb}
use iso8583paymentsengine.Routing.{Route, internal_crdb, external_node, find}
use iso8583paymentsengine.Switch.State.{
  reversed_pending, upstream_sent, completed, ActiveTransaction, TransactionContext, Engine,
  Environment, detokenize, evaluate, send_reply, send_to, is_online, decline, append_journal,
  send_ledger, put_entry, drop_entry,
}
use iso8583paymentsengine.Switch.Stip.{stip_fallback}

-- `format!("{}-{}-{}", rrn, stan, acquirer_id)`
unfoldable pub guard_key : Bytes → Bytes → Bytes → Bytes
guard_key rrn stan acquirer = rrn ++ (b'-' ∷ (stan ++ (b'-' ∷ acquirer)))

-- The key of an event in the idempotency guard.
abbrev pub event_key : UniversalPaymentEvent → Bytes
event_key e = guard_key e.rrn e.stan (from_utf8_lossy e.acquirer_id)

unfoldable pub refuse : Bytes → TransactionContext → Engine → Engine
refuse rc ctx s = send_reply ctx.responder (decline rc ctx.transaction) s

unfoldable pub is_routable : MessageClass → Bool
is_routable authorization = true
is_routable financial = true
is_routable reversal_advice = true
is_routable network_management = true
is_routable _ = false

abbrev crdb_node : Bytes
crdb_node = codes "CRDB_DOMAIN_2"

-- The node itself if it is online, its failover if that one is, and none if both are down.
unfoldable pub live_node : Bytes → Option Bytes → Engine → Option Bytes
live_node n failover s =
    if is_online n s
    then some n
    else elim failover [ none ↦ none | some f ↦ if is_online f s then some f else none ]

unfoldable pub node_for : Route → Engine → Option Bytes
unfolding live_node
node_for route s = elim route.destination [
  | internal_crdb ↦ some crdb_node
  | external_node n ↦ live_node n route.failover_node s
]

-- `target_egress`: the node that an event goes to, if one is live and has a channel.
unfoldable pub target_egress : UniversalPaymentEvent → Engine → Option Bytes
target_egress e s =
    if is_routable e.message_class
    then (do
      route ← find s.router e.fpan
      n ← node_for route s
      if contains_key n s.egress_channels then some n else none)
    else none

-- Six digits from the counter, before it is incremented.
unfoldable pub next_egress_stan : Engine → Bytes
next_egress_stan s = format_padded 6 (s.stan_counter % 10 ^ 6)

abbrev pub set_egress_stan : Bytes → ActiveTransaction → ActiveTransaction
set_egress_stan stan a = record a { egress_stan = some stan }

-- `if let Some(mut entry) = guard.get_mut(&key) { … }`
unfoldable pub update_entry :
    Bytes
    → (ActiveTransaction → ActiveTransaction)
    → Dict ActiveTransaction
    → Dict ActiveTransaction
update_entry key f d = elim (lookup key d) [ none ↦ d | some a ↦ insert key (f a) d ]

-- The outbound STAN translation: a fresh egress STAN, noted in the table and in the guard entry.
unfoldable pub translate_stan : Bytes → UniversalPaymentEvent → Engine → Engine
unfolding next_egress_stan
translate_stan key e s = record s {
  stan_nat = insert (next_egress_stan s) e.stan s.stan_nat;
  stan_counter = (s.stan_counter + 1) % 2 ^ 64;
  idempotency_guard = update_entry key (set_egress_stan (next_egress_stan s)) s.idempotency_guard;
}

abbrev pub with_stan : Bytes → TransactionContext → TransactionContext
with_stan stan ctx = record ctx { transaction = record ctx.transaction { stan = stan } }

unfoldable pub forward : Environment → Bytes → Bytes → TransactionContext → Engine → Engine
forward env key target ctx s =
    let sent = with_stan (next_egress_stan s) ctx in
    let s' = send_ledger env sent.transaction (translate_stan key ctx.transaction s) in
    if env.accepts target then send_to target sent s' else stip_fallback env sent s'

abbrev pub finish_entry : ActiveTransaction → ActiveTransaction
finish_entry a = record a { responder = none; state = completed }

-- Answer 05 through the responder in the guard entry, and mark the entry completed.
unfoldable pub answer_held : Bytes → UniversalPaymentEvent → Engine → Engine
answer_held key e s = elim (lookup key s.idempotency_guard) [
  | none ↦ s
  | some a ↦ send_reply a.responder (decline (codes "05") e) (put_entry key (finish_entry a) s)
]

-- No live node: answer, and drop the entry.
unfoldable pub no_egress : Bytes → TransactionContext → Engine → Engine
unfolding answer_held
no_egress key ctx s = drop_entry key (answer_held key ctx.transaction s)

unfoldable pub journal_and_route : Environment → Bytes → TransactionContext → Engine → Engine
journal_and_route env key ctx s =
    if env.journal_open
    then (let s' = append_journal (to_pb ctx.transaction) s in
        elim (target_egress ctx.transaction s') [
          | none ↦ no_egress key ctx s'
          | some n ↦ forward env key n ctx s'
        ])
    else s

unfoldable pub needs_hsm : UniversalPaymentEvent → Bool
needs_hsm e = not (is_empty e.pin_block) || (elim e.mac_data [ none ↦ false | some _ ↦ true ])

abbrev pub new_entry : Environment → TransactionContext → ActiveTransaction
new_entry env ctx = record {
  created_at = env.now;
  state = upstream_sent;
  responder = ctx.responder;
  transaction_data = to_pb ctx.transaction;
  egress_stan = none;
}

abbrev pub taken : TransactionContext → TransactionContext
taken ctx = record ctx { responder = none }

-- The vacant entry of the guard: the responder moves from the context into it.
unfoldable pub admit : Environment → TransactionContext → Engine → Engine
admit env ctx s =
    let key = event_key ctx.transaction in
    let s' = put_entry key (new_entry env ctx) s in
    if needs_hsm ctx.transaction
    then (if env.hsm_open then record s' { hsm_queue = s'.hsm_queue ++ (taken ctx ∷ []) } else s')
    else journal_and_route env key (taken ctx) s'

unfoldable pub admit_once : Environment → TransactionContext → Engine → Engine
admit_once env ctx s =
    if contains_key (event_key ctx.transaction) s.idempotency_guard
    then refuse (codes "94") ctx s
    else admit env ctx s

-- One entry of the guard under the loop over it: whether it is the reversed one, by STAN alone.
unfoldable pub reverse_entries :
    Environment
    → Bytes
    → UniversalPaymentEvent
    → Dict ActiveTransaction
    → List UniversalPaymentEvent
    → Dict ActiveTransaction × List UniversalPaymentEvent
reverse_entries env stan e [] ledger = ([], ledger)
reverse_entries env stan e ((k, a) ∷ d) ledger =
    let hit = bytes_eq a.transaction_data.stan stan in
    let (d', ledger') = reverse_entries env stan e d (
      if hit && env.ledger_open
      then ledger ++ (record e { rrn = a.transaction_data.rrn } ∷ [])
      else ledger) in
    ((k, (if hit then record a { state = reversed_pending } else a)) ∷ d', ledger')

unfoldable pub mark_reversed : Environment → Bytes → UniversalPaymentEvent → Engine → Engine
unfolding reverse_entries
mark_reversed env stan e s =
    let (d, ledger) = reverse_entries env stan e s.idempotency_guard s.ledger_queue in
    record s { idempotency_guard = d; ledger_queue = ledger }

unfoldable pub reversal_reply : UniversalPaymentEvent → UniversalPaymentEvent
reversal_reply e = record e { mti = codes "0430"; response_code = codes "00" }

-- `odata[4..10]`, the STAN inside the original data elements.
unfoldable pub reverse_original : Environment → UniversalPaymentEvent → Engine → Option Engine
reverse_original env e s = elim e.original_data_elements [
  | none ↦ some s
  | some odata ↦
      if leb 20 (length odata)
      then (slice 4 10 odata >>= λ stan. some (mark_reversed env stan e s))
      else some s
]

unfoldable pub reverse : Environment → TransactionContext → Engine → Option Engine
reverse env ctx s = do
  s' ← reverse_original env ctx.transaction s
  some (send_reply ctx.responder (reversal_reply ctx.transaction) s')

unfoldable pub echo_reply : UniversalPaymentEvent → UniversalPaymentEvent
echo_reply e = record e {
  message_class = network_management_response;
  mti = codes "0810";
  response_code = codes "00";
}

abbrev pub is_network_management : MessageClass → Bool
is_network_management network_management = true
is_network_management _ = false

-- A network management message that is for no card network is answered here.
unfoldable pub is_echo : UniversalPaymentEvent → Bool
unfolding starts_with
is_echo e =
    is_network_management e.message_class
    && not (starts_with (codes "4") e.fpan)
    && not (starts_with (codes "5") e.fpan)

unfoldable pub dispatch : Environment → TransactionContext → Engine → Option Engine
dispatch env ctx s =
    if is_echo ctx.transaction
    then some (send_reply ctx.responder (echo_reply ctx.transaction) s)
    else if ctx.transaction.is_reversal
    then reverse env ctx s
    else some (admit_once env ctx s)

unfoldable pub network_id : UniversalPaymentEvent → Bytes
unfolding starts_with
network_id e =
    if starts_with (codes "4") e.fpan
    then codes "VISA"
    else if starts_with (codes "5") e.fpan
    then codes "MASTERCARD"
    else codes "DEFAULT"

-- The configured limit of a network; 100 where there is no rule.
unfoldable pub risk_threshold : UniversalPaymentEvent → Engine → ℕ
unfolding network_id
risk_threshold e s = elim (lookup (network_id e) s.stip_rules) [
  | none ↦ 100
  | some r ↦ r.max_risk_score
]

unfoldable pub is_risky : UniversalPaymentEvent → Engine → Bool
is_risky e s = ltb 0 e.risk_score && ltb (risk_threshold e s) e.risk_score

unfoldable pub risk_screen : Environment → TransactionContext → Engine → Option Engine
risk_screen env ctx s =
    if is_risky ctx.transaction s then some (refuse (codes "59") ctx s) else dispatch env ctx s

-- The log line slices the token, and panics where that has fewer than six bytes.
unfoldable pub mask_pan : Bytes → Option Bytes
mask_pan pan = do
  front ← slice 0 6 pan
  back ← slice (length pan - 4) (length pan) pan
  some (front ++ (codes "****" ++ back))

abbrev pub with_pan : Bytes → Bytes → TransactionContext → TransactionContext
with_pan real dpan ctx = record ctx {
  transaction = record ctx.transaction { fpan = real; dpan = some dpan };
}

unfoldable pub detokenize_stage : Environment → TransactionContext → Engine → Option Engine
detokenize_stage env ctx s =
    if ctx.transaction.is_tokenized
    then (let dpan = from_utf8_lossy ctx.transaction.fpan in
        elim (detokenize s.token_map dpan) [
          | none ↦ some (refuse (codes "56") ctx s)
          | some real ↦ mask_pan dpan >>= λ masked. risk_screen env (with_pan real dpan ctx) s
        ])
    else risk_screen env ctx s

unfoldable pub ingress : Environment → TransactionContext → Engine → Option Engine
ingress env ctx s = do
  blocked ← evaluate s.compliance_cache ctx
  if blocked then some (refuse (codes "93") ctx s) else detokenize_stage env ctx s
