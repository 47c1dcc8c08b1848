-- ===== src/Switch/Responders/Security.antt =====
-- The uses of a responder under a task of the HSM worker of engine.rs.
use mathlib.Core.Path.{subst}
use iso8583paymentsengine.Base.{
  ℕ, zero, suc, ◌+◌, ◌≤◌, Option, none, some, List, [], ◌∷◌, ◌≡◌, if_cases, option_cases,
  bind_cases, arith,
}
use iso8583paymentsengine.Base.Text.{codes}
use iso8583paymentsengine.Canonical.Convert.{to_pb}
use iso8583paymentsengine.Switch.State.{
  Responder, TransactionContext, Engine, Environment, append_journal, decline,
}
use iso8583paymentsengine.Switch.Hsm.{
  Hsm, Headers, Verdict, refused, passed, verify, finish_verified, hsm_pass,
}
use iso8583paymentsengine.Switch.Run.{take_queued, verify_queued}
use iso8583paymentsengine.Switch.Responders.Count.{owes, queued, uses, uses-send_reply}
use iso8583paymentsengine.Switch.Responders.Forward.{uses-append_journal, uses-send_to}

module _ (r : Responder) where
  uses-finish_verified :
      (env : Environment) (ctx : TransactionContext) (v : Verdict) (s : Engine)
      → uses r (finish_verified env ctx v s) ≤ uses r s + owes r ctx.responder
  unfolding finish_verified
  uses-finish_verified env ctx refused s =
      omega (arith, uses-send_reply r ctx.responder (decline (codes "55") ctx.transaction) s)
  uses-finish_verified env ctx (passed e target) s =
      let P : Engine → Type 0 = λ t. uses r t ≤ uses r s + owes r ctx.responder in
      let s' = append_journal (to_pb e) s in
      let same = uses-append_journal r (to_pb e) s in
      if_cases P env.journal_open
        (λ _.
          option_cases P target (λ _. omega (arith, same))
            (λ n _.
              if_cases P (env.accepts n)
                (λ _. omega (arith, same, uses-send_to r n (record ctx { transaction = e }) s'))
                (λ _. omega (arith, same))))
        (λ _. omega arith)

  -- The count after a task, if that returns.
  abbrev AtMost : ℕ → Option Engine → Type 0
  AtMost n none = Unit
  AtMost n (some t) = uses r t ≤ n

  hsm_pass-AtMost :
      (hsm : Hsm) (env : Environment) (headers : Headers) (ctx : TransactionContext) (s : Engine)
      → AtMost (uses r s + owes r ctx.responder) (hsm_pass hsm env headers ctx s)
  unfolding hsm_pass
  hsm_pass-AtMost hsm env headers ctx s =
      bind_cases (AtMost (uses r s + owes r ctx.responder)) (verify hsm headers ctx.transaction s)
        tt (λ v _. uses-finish_verified env ctx v s)

  -- What the queue counts is split between the context that was taken and the others.
  abbrev Took :
      List TransactionContext → Option (TransactionContext × List TransactionContext) → Type 0
  Took q none = Unit
  Took q (some (ctx, rest)) = queued r q ≡ queued r rest + owes r ctx.responder

  take_queued-Took : (n : ℕ) (q : List TransactionContext) → Took q (take_queued n q)
  unfolding take_queued queued
  take_queued-Took n [] = tt
  take_queued-Took zero (c ∷ q) = omega arith
  take_queued-Took (suc n) (c ∷ q) =
      let ih = take_queued-Took n q in
      bind_cases (Took (c ∷ q)) (take_queued n q) tt (λ (ctx, rest) e.
        let split : Took q (some (ctx, rest)) = subst (Took q) e ih in omega (arith, split))

  pub uses-verify_queued_le :
      (hsm : Hsm) (env : Environment) (headers : Headers) (n : ℕ) (s : Engine)
      → uses r (verify_queued hsm env headers n s) ≤ uses r s
  unfolding verify_queued uses
  uses-verify_queued_le hsm env headers n s =
      let P : Engine → Type 0 = λ t. uses r t ≤ uses r s in
      option_cases P (take_queued n s.hsm_queue) (λ _. omega arith)
        (λ (ctx, rest) e.
          let s' : Engine = record s { hsm_queue = rest } in
          let split : Took s.hsm_queue (some (ctx, rest)) =
            subst (Took s.hsm_queue) e (take_queued-Took n s.hsm_queue) in
          option_cases P (hsm_pass hsm env headers ctx s') (λ _. omega (arith, split))
            (λ t done.
              let counted : uses r t ≤ uses r s' + owes r ctx.responder =
                subst (AtMost (uses r s' + owes r ctx.responder)) done
                  (hsm_pass-AtMost hsm env headers ctx s') in
              omega (arith, split, counted)))
