-- ===== src/Tests/Switch.antt =====
-- Runs of the switch engine and of the routing trie.
use iso8583paymentsengine.Base.{
  ◌+◌, ◌≤◌, ◌≡◌, ◌⊎◌, refl, Bool, true, false, none, some, List, [], ◌∷◌, ◌++◌, if◌then◌else◌, ◌||◌,
  arith,
}
use iso8583paymentsengine.Base.Text.{codes, bytes_eq, starts_with, slice}
use iso8583paymentsengine.Base.Utf8.{from_utf8_lossy}
use iso8583paymentsengine.Base.Digits.{format_padded}
use iso8583paymentsengine.Base.Int.{ℤ, pos, negsuc}
use iso8583paymentsengine.Base.Dict.{lookup, contains_key, insert}
use iso8583paymentsengine.Canonical.{UniversalPaymentEvent, Transaction}
use iso8583paymentsengine.Canonical.Convert.{to_pb, from_pb, IsText, stripped, from_pb-to_pb}
use iso8583paymentsengine.Routing.{Route, internal_crdb, find, find_from, get, insert_from}
use iso8583paymentsengine.Routing.LongestPrefix.{route_at, longest, route_at-insert, find-longest}
use iso8583paymentsengine.Switch.State.{
  upstream_sent, completed, ActiveTransaction, CardProfile, Engine, new_engine, send_reply,
  evaluate, append_journal, put_entry, is_online,
}
use iso8583paymentsengine.Switch.Stip.{stip_fallback}
use iso8583paymentsengine.Switch.Stip.Balance.{Profiled, Decision, stip_fallback_decides}
use iso8583paymentsengine.Switch.Stip.Solvent.{Solvent, fallbacks, fallbacks-Solvent}
use iso8583paymentsengine.Switch.Ingress.{
  event_key, guard_key, ingress, detokenize_stage, risk_screen, is_risky, dispatch, is_echo,
  admit_once, admit, refuse, needs_hsm, next_egress_stan, target_egress, node_for, live_node,
  is_routable,
}
use iso8583paymentsengine.Switch.Ingress.Screen.{Screened, OnlyAnswered, ingress_screens}
use iso8583paymentsengine.Switch.Ingress.Silent.{admit-unanswered}
use iso8583paymentsengine.Switch.Reply.{bank_reply, approval}
use iso8583paymentsengine.Switch.Reaper.{is_expired, is_stale, reaper_pass}
use iso8583paymentsengine.Switch.Reaper.Survivors.{survivors, reaper_pass-survivors}
use iso8583paymentsengine.Switch.Responders.{owes, answered, queued, uses}
use iso8583paymentsengine.Switch.Responders.Ingress.{ingress-uses}
use iso8583paymentsengine.Switch.Translation.{Forwards, admit-bank_reply}
use iso8583paymentsengine.Switch.Hsm.{Hsm}
use iso8583paymentsengine.Switch.Run.{Pass, arrival, bank, reap, security, run}
use iso8583paymentsengine.Switch.Run.Once.{arrivals, run-answered_once}
use iso8583paymentsengine.Edge.Server.{drop_reversal, drop_reversal-lost}
use iso8583paymentsengine.Tests.Samples.{sale, sale_context, routed, visa_router, env}

-- The bank's reply to the sale, under the first egress STAN.
abbrev sale_reply : Transaction
sale_reply = record {
  mti = codes "0210";
  pan = codes "4111222233334444";
  processing_code = codes "000000";
  amount = pos 500;
  stan = codes "000000";
  rrn = codes "000000000077";
  response_code = codes "00";
  acquirer_id = codes "ACQ1";
  pin_block = [];
  local_time = codes "101500";
  local_date = codes "0425";
}

-- A security module that answers nothing.
abbrev silent_hsm : Hsm
silent_hsm = record { respond = λ m. none }

abbrev day : List Pass
day =
    arrival env sale_context
    ∷ security silent_hsm env (record { mac = codes "0000"; pin = codes "0001" }) 0
    ∷ bank env sale_reply
    ∷ bank env sale_reply
    ∷ reap env
    ∷ arrival env (record sale_context { responder = some 8 })
    ∷ []

run-answered_once_example : answered 7 (run 15000 day new_engine).replies ≤ 1
unfolding arrivals owes
run-answered_once_example = run-answered_once 7 15000 day (omega arith)

ingress-sale : ingress env sale_context routed ≡ some (admit env sale_context routed)
unfolding ingress evaluate slice lookup contains_key detokenize_stage risk_screen is_risky dispatch
    is_echo admit_once from_utf8_lossy starts_with new_engine
ingress-sale = refl

ingress-uses_example :
    let t = admit env sale_context routed in
    (uses 7 t ≡ uses 7 routed + owes 7 (some 7))
    × (answered 7 routed.replies ≤ answered 7 t.replies)
    × (answered 7 t.replies ≤ answered 7 routed.replies + owes 7 (some 7))
    × (queued 7 t.hsm_queue ≡ queued 7 routed.hsm_queue)
ingress-uses_example = ingress-uses 7 env sale_context routed ingress-sale

ingress_screens_example :
    Screened routed sale_context ⊎ OnlyAnswered routed sale_context (admit env sale_context routed)
ingress_screens_example = ingress_screens env sale_context routed ingress-sale

sale-Forwards : Forwards env sale_context routed (codes "MockVisaNode")
unfolding lookup contains_key new_engine needs_hsm target_egress node_for live_node is_routable find
    find_from get append_journal put_entry is_online bytes_eq
sale-Forwards = record {
  fresh = refl;
  no_hsm = refl;
  journaled = refl;
  routed = refl;
  accepted = refl;
}

admit-bank_reply_example :
    let u = bank_reply env sale_reply (admit env sale_context routed) in
    (u.replies ≡ (send_reply (some 7) (approval sale_reply) routed).replies)
    × (u.idempotency_guard ≡ routed.idempotency_guard)
    × (u.stan_nat ≡ routed.stan_nat)
unfolding lookup new_engine next_egress_stan format_padded from_utf8_lossy
admit-bank_reply_example =
    admit-bank_reply env env sale_context routed (codes "MockVisaNode") sale_reply sale-Forwards
      refl refl refl refl refl

abbrev aged_entry : ActiveTransaction
aged_entry = record {
  created_at = 10000;
  state = completed;
  responder = none;
  transaction_data = sale_reply;
  egress_stan = none;
}

abbrev waiting_entry : ActiveTransaction
waiting_entry = record aged_entry { created_at = 49000; state = upstream_sent; responder = some 7 }

-- A completed entry of forty seconds, and one that has waited for one.
abbrev aged : Engine
aged = record new_engine {
  idempotency_guard = (codes "a", aged_entry) ∷ (codes "b", waiting_entry) ∷ [];
}

reaper_pass-survivors_example :
    (reaper_pass 15000 env aged).idempotency_guard
    ≡ survivors (λ a. is_expired 50000 15000 a || is_stale 50000 a) aged.idempotency_guard
unfolding lookup bytes_eq
reaper_pass-survivors_example = reaper_pass-survivors 15000 env aged (refl, (refl, tt))

abbrev profile : CardProfile
profile = record { balance = pos 800; is_blocked = false }

abbrev profiled : Engine
profiled = record new_engine { stip_db = (codes "4111222233334444", env.serialize profile) ∷ [] }

sale-Profiled : Profiled env sale profiled profile
unfolding lookup bytes_eq
sale-Profiled = record { cached = env.serialize profile; db = refl; stored = refl; reads = refl }

deserialize-serialize : (q : CardProfile) → env.deserialize (env.serialize q) ≡ some q
deserialize-serialize q = of q.balance q.is_blocked
  where
    of :
        (b : ℤ) (k : Bool)
        → (let p : CardProfile = record { balance = b; is_blocked = k } in
            env.deserialize (env.serialize p) ≡ some p)
    of (pos n) true = refl
    of (pos n) false = refl
    of (negsuc n) true = refl
    of (negsuc n) false = refl

stip_fallback_decides_example :
    let t = stip_fallback env sale_context profiled in
    (answer : UniversalPaymentEvent) × (q : CardProfile) × Decision sale profile answer q
    × Profiled env sale t q
    × (t.journal ≡ profiled.journal ++ (to_pb answer ∷ []))
    × (t.replies ≡ (send_reply (some 7) answer profiled).replies)
stip_fallback_decides_example =
    stip_fallback_decides env sale_context profiled profile sale-Profiled (omega arith) refl
      deserialize-serialize

fallbacks-Solvent_example :
    Solvent env sale (pos 800) (fallbacks env (sale_context ∷ sale_context ∷ []) profiled)
fallbacks-Solvent_example =
    fallbacks-Solvent env sale (sale_context ∷ sale_context ∷ []) (pos 800) profiled
      ((refl, omega arith), ((refl, omega arith), tt)) deserialize-serialize
      (profile, sale-Profiled, omega arith, omega arith)

-- An engine that holds the sale.
abbrev holding : Engine
holding = put_entry (event_key sale) waiting_entry new_engine

drop_reversal-lost_example : holding ≡ holding
unfolding ingress evaluate slice lookup insert contains_key detokenize_stage risk_screen is_risky
    dispatch is_echo admit_once refuse from_utf8_lossy starts_with new_engine put_entry guard_key
    bytes_eq drop_reversal send_reply
drop_reversal-lost_example = drop_reversal-lost env sale holding refl refl refl

abbrev backup : Route
backup = record { destination = internal_crdb; failover_node = none }

find-longest_example :
    find visa_router (codes "4111")
    ≡ longest (λ q. route_at q visa_router) (codes "4111") (route_at [] visa_router)
find-longest_example = find-longest visa_router (codes "4111")

route_at-insert_example :
    route_at (codes "4") (insert_from (codes "41") backup visa_router)
    ≡ (if bytes_eq (codes "4") (codes "41") then some backup else route_at (codes "4") visa_router)
route_at-insert_example = route_at-insert (codes "4") (codes "41") backup visa_router

sale-IsText : IsText sale
sale-IsText = record {
  mti = ground arith;
  fpan = ground arith;
  acquirer_id = ground arith;
  pin_block = ground arith;
}

from_pb-to_pb_example : from_pb (to_pb sale) ≡ stripped sale
from_pb-to_pb_example = from_pb-to_pb sale sale-IsText (omega arith)

-- The node takes nothing, and the fallback debits the card.
admit-unanswered_example :
    (admit
      (record env { accepts = λ n. false })
      sale_context
      (record profiled { router = visa_router })).replies
    ≡ []
unfolding lookup contains_key new_engine needs_hsm target_egress node_for live_node is_routable find
    find_from get append_journal put_entry is_online bytes_eq
admit-unanswered_example =
    admit-unanswered (record env { accepts = λ n. false }) sale_context
      (record profiled { router = visa_router }) (codes "MockVisaNode") refl refl
