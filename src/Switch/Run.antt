-- ===== src/Switch/Run.antt =====
-- The threads of `SwitchEngine::start` as interleavings: a schedule is the sequence of the passes
-- that the loops make, in the order in which they take effect on the shared state.
pub mod Once
use iso8583paymentsengine.Base.{ℕ, zero, suc, Option, none, some, List, [], ◌∷◌, ◌>>=◌}
use iso8583paymentsengine.Canonical.{Transaction}
use iso8583paymentsengine.Switch.State.{TransactionContext, Engine, Environment}
use iso8583paymentsengine.Switch.Ingress.{ingress}
use iso8583paymentsengine.Switch.Reply.{bank_reply}
use iso8583paymentsengine.Switch.Reaper.{reaper_pass}
use iso8583paymentsengine.Switch.Hsm.{Hsm, Headers, hsm_pass}

pub data Pass : Type 0 where
  arrival : Environment → TransactionContext → Pass
  bank : Environment → Transaction → Pass
  reap : Environment → Pass
  security : Hsm → Environment → Headers → ℕ → Pass

-- The context of that number among those that wait for the HSM worker, and the others. Each is verified
-- in a task of its own, so that they may end in any order.
unfoldable pub take_queued :
    ℕ → List TransactionContext → Option (TransactionContext × List TransactionContext)
take_queued n [] = none
take_queued zero (ctx ∷ q) = some (ctx, q)
take_queued (suc n) (ctx ∷ q) = take_queued n q >>= λ (taken, rest). some (taken, ctx ∷ rest)

unfoldable pub verify_queued : Hsm → Environment → Headers → ℕ → Engine → Engine
unfolding take_queued
verify_queued hsm env headers n s = elim (take_queued n s.hsm_queue) [
  | none ↦ s
  | some (ctx, rest) ↦
      let s' : Engine = record s { hsm_queue = rest } in
      elim (hsm_pass hsm env headers ctx s') [ none ↦ s' | some t ↦ t ]
]

-- A worker that panics changes nothing more: the shared state stays as it was.
unfoldable pub step : ℕ → Pass → Engine → Engine
unfolding verify_queued
step timeout_ms (arrival env ctx) s = elim (ingress env ctx s) [ none ↦ s | some t ↦ t ]
step timeout_ms (bank env tx) s = bank_reply env tx s
step timeout_ms (reap env) s = reaper_pass timeout_ms env s
step timeout_ms (security hsm env headers n) s = verify_queued hsm env headers n s

unfoldable pub run : ℕ → List Pass → Engine → Engine
unfolding step
run timeout_ms [] s = s
run timeout_ms (p ∷ ps) s = run timeout_ms ps (step timeout_ms p s)
