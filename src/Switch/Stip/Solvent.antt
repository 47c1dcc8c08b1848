-- ===== src/Switch/Stip/Solvent.antt =====
-- The balance of a card under any number of stand-in decisions of engine.rs.
use mathlib.Core.Path.{subst}
use iso8583paymentsengine.Base.{◌<◌, ◌^◌, some, List, [], ◌∷◌, ◌≡◌, sym, if_cases, All, ap, ◌∙◌}
use iso8583paymentsengine.Base.Int.{ℤ, pos, ◌≤ℤ◌, as_i64_small, int_laws}
use iso8583paymentsengine.Base.Dict.{lookup}
use iso8583paymentsengine.Canonical.{UniversalPaymentEvent}
use iso8583paymentsengine.Canonical.Convert.{to_pb}
use iso8583paymentsengine.Switch.State.{TransactionContext, CardProfile, Engine, Environment}
use iso8583paymentsengine.Switch.Stip.{stip_answer, stip_fallback}
use iso8583paymentsengine.Switch.Stip.Balance.{
  Profiled, Decision, blocked, approved, short, Decided, stip_answer-Profiled, stip_decide-Decided,
  send_reply-Profiled, append_journal-Profiled,
}

-- The fallbacks of these contexts, one after the other.
abbrev pub fallbacks : Environment → List TransactionContext → Engine → Engine
fallbacks env [] s = s
fallbacks env (ctx ∷ ctxs) s = fallbacks env ctxs (stip_fallback env ctx s)

-- The balance is neither overdrawn nor raised by a decision.
abbrev Spends : CardProfile → CardProfile → Type 0
Spends p q = (pos 0 ≤ℤ q.balance) × (q.balance ≤ℤ p.balance)

Decision-Spends :
    {e f : UniversalPaymentEvent} {p q : CardProfile}
    → Decision e p f q
    → e.amount < 2 ^ 63
    → pos 0 ≤ℤ p.balance
    → Spends p q
Decision-Spends (blocked _) small h = (h, omega int_laws)
Decision-Spends (approved _ c) small h = rw as_i64_small (omega int_laws, omega int_laws)
Decision-Spends (short _ _) small h = (h, omega int_laws)

module _ (env : Environment) where
  -- A stored profile that is not overdrawn, with at most this balance.
  abbrev pub Solvent : UniversalPaymentEvent → ℤ → Engine → Type 0
  Solvent e limit s =
      (q : CardProfile) × Profiled env e s q × (pos 0 ≤ℤ q.balance) × (q.balance ≤ℤ limit)

  -- The profile is that of the card number.
  same_card :
      (e f : UniversalPaymentEvent) (s : Engine) (q : CardProfile)
      → f.fpan ≡ e.fpan
      → Profiled env e s q
      → Profiled env f s q
  same_card e f s q h k = record {
    cached = k.cached;
    db = k.db;
    stored = ap (λ c. lookup c s.stip_db) h ∙ k.stored;
    reads = k.reads;
  }

  stip_fallback-Solvent :
      (ctx : TransactionContext) (limit : ℤ) (s : Engine)
      → ctx.transaction.amount < 2 ^ 63
      → ((q : CardProfile) → env.deserialize (env.serialize q) ≡ some q)
      → Solvent ctx.transaction limit s
      → Solvent ctx.transaction limit (stip_fallback env ctx s)
  unfolding stip_fallback
  stip_fallback-Solvent ctx limit s small back (p, h, above, below) =
      let e = ctx.transaction in
      let r = stip_answer env e s in
      let d : Decided env e s p r =
        subst (Decided env e s p) (sym (stip_answer-Profiled env e s p h))
          (stip_decide-Decided env e s p h small back) in
      let spent = Decision-Spends d.1 small above in
      (
        d.0,
        if_cases (λ t. Profiled env e t d.0) env.journal_open
            (λ _.
              send_reply-Profiled env e d.0 ctx.responder r.0 _
                (append_journal-Profiled env e d.0 (to_pb r.0) r.1 d.2))
            (λ _. d.2),
        spent.0,
        omega (int_laws, spent.1, below),
      )

-- However many transactions of a card fall to the stand-in approval, one after the other, the profile
-- that is stored for the card in the end is not overdrawn and has at most the balance it had: if the
-- card has a stored profile that is not overdrawn, the amounts are below 2^63, and profiles read back
-- as they were written. The journal may be open or not.
pub fallbacks-Solvent :
    (env : Environment) (e : UniversalPaymentEvent) (ctxs : List TransactionContext) (limit : ℤ)
    (s : Engine)
    → All (λ ctx. (ctx.transaction.fpan ≡ e.fpan) × (ctx.transaction.amount < 2 ^ 63)) ctxs
    → ((q : CardProfile) → env.deserialize (env.serialize q) ≡ some q)
    → Solvent env e limit s
    → Solvent env e limit (fallbacks env ctxs s)
fallbacks-Solvent env e [] limit s h back k = k
fallbacks-Solvent env e (ctx ∷ ctxs) limit s h back (p, stored, above, below) =
    let f = ctx.transaction in
    let (q, kept, more, less) =
      stip_fallback-Solvent env ctx limit s h.0.1 back
        (p, same_card env e f s p h.0.0 stored, above, below) in
    let t = stip_fallback env ctx s in
    fallbacks-Solvent env e ctxs limit t h.1 back
      (q, same_card env f e t q (sym h.0.0) kept, more, less)
