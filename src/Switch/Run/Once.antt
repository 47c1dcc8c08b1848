-- ===== src/Switch/Run/Once.antt =====
-- How often the schedules of engine.rs's loops answer a terminal.
use iso8583paymentsengine.Base.{ℕ, ◌+◌, ◌≤◌, List, [], ◌∷◌, arith, option_cases}
use iso8583paymentsengine.Switch.State.{
  Responder, Engine, Environment, TransactionContext, new_engine,
}
use iso8583paymentsengine.Switch.Ingress.{ingress}
use iso8583paymentsengine.Switch.Responders.{owes, held, answered, queued, uses}
use iso8583paymentsengine.Switch.Responders.Ingress.{ingress-uses}
use iso8583paymentsengine.Switch.Responders.Loops.{uses-bank_reply_le, uses-reaper_pass_le}
use iso8583paymentsengine.Switch.Responders.Security.{uses-verify_queued_le}
use iso8583paymentsengine.Switch.Run.{Pass, arrival, bank, reap, security, step, run}

-- How many contexts of the schedule carry the responder.
unfoldable pub arrivals : Responder → List Pass → ℕ
arrivals r [] = 0
arrivals r (arrival env ctx ∷ ps) = owes r ctx.responder + arrivals r ps
arrivals r (bank env tx ∷ ps) = arrivals r ps
arrivals r (reap env ∷ ps) = arrivals r ps
arrivals r (security hsm env headers n ∷ ps) = arrivals r ps

uses-arrival :
    (r : Responder) (timeout_ms : ℕ) (env : Environment) (ctx : TransactionContext) (s : Engine)
    → uses r (step timeout_ms (arrival env ctx) s) ≤ uses r s + owes r ctx.responder
unfolding step
uses-arrival r timeout_ms env ctx s =
    option_cases (λ t. uses r t ≤ uses r s + owes r ctx.responder) (ingress env ctx s)
      (λ _. omega arith) (λ t h. omega (arith, (ingress-uses r env ctx s h).0))

uses-run :
    (r : Responder) (timeout_ms : ℕ) (ps : List Pass) (s : Engine)
    → uses r (run timeout_ms ps s) ≤ uses r s + arrivals r ps
unfolding run arrivals step
uses-run r timeout_ms [] s = omega arith
uses-run r timeout_ms (arrival env ctx ∷ ps) s = omega (
  arith,
  uses-run r timeout_ms ps (step timeout_ms (arrival env ctx) s),
  uses-arrival r timeout_ms env ctx s,
)
uses-run r timeout_ms (bank env tx ∷ ps) s = omega (
  arith,
  uses-run r timeout_ms ps (step timeout_ms (bank env tx) s),
  uses-bank_reply_le r env tx s,
)
uses-run r timeout_ms (reap env ∷ ps) s = omega (
  arith,
  uses-run r timeout_ms ps (step timeout_ms (reap env) s),
  uses-reaper_pass_le r timeout_ms env s,
)
uses-run r timeout_ms (security hsm env headers n ∷ ps) s = omega (
  arith,
  uses-run r timeout_ms ps (step timeout_ms (security hsm env headers n) s),
  uses-verify_queued_le r hsm env headers n s,
)

-- From the state in which the engine starts, after any interleaving of ingress passes, tasks of the HSM
-- worker, bank replies and reaper passes, a terminal whose responder came in with at most one context has been sent at
-- most one reply.
pub run-answered_once :
    (r : Responder) (timeout_ms : ℕ) (ps : List Pass)
    → arrivals r ps ≤ 1
    → answered r (run timeout_ms ps new_engine).replies ≤ 1
unfolding uses new_engine held answered queued
run-answered_once r timeout_ms ps h = omega (arith, uses-run r timeout_ms ps new_engine)
