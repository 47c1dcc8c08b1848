-- ===== src/Switch/Responders/Answers.antt =====
-- The replies and the queue of the HSM worker under the operations of an ingress pass of engine.rs: who
-- is answered.
use iso8583paymentsengine.Base.{
  ℕ, ◌+◌, ◌≤◌, Option, none, some, List, ◌≡◌, refl, ◌∙◌, if_cases, option_cases, arith,
}
use iso8583paymentsengine.Base.Text.{Bytes, codes}
use iso8583paymentsengine.Base.Dict.{lookup}
use iso8583paymentsengine.Base.Int.{leb_ℤ, as_i64}
use iso8583paymentsengine.Canonical.{UniversalPaymentEvent}
use iso8583paymentsengine.Canonical.Convert.{to_pb}
use iso8583paymentsengine.Switch.State.{
  Responder, ActiveTransaction, TransactionContext, Engine, Environment, send_reply, send_to,
  append_journal, send_ledger, put_entry, drop_entry, decline, CardProfile,
}
use iso8583paymentsengine.Switch.Stip.{
  stip_answer, stip_decide, stip_entry, stip_fallback, store_profile,
}
use iso8583paymentsengine.Switch.Ingress.{
  translate_stan, with_stan, forward, no_egress, answer_held, finish_entry, journal_and_route,
  target_egress, next_egress_stan,
}
use iso8583paymentsengine.Switch.Responders.Count.{owes, answered, queued, answered-append}

-- What the engine has sent to the terminals, and what waits for the HSM worker.
abbrev pub Outbox : Type 0
Outbox = List (Responder × UniversalPaymentEvent) × List TransactionContext

abbrev pub outbox : Engine → Outbox
outbox s = (s.replies, s.hsm_queue)

outbox-send_to :
    (n : Bytes) (ctx : TransactionContext) (s : Engine) → outbox (send_to n ctx s) ≡ outbox s
unfolding send_to
outbox-send_to n ctx s =
    option_cases (λ t. outbox t ≡ outbox s) (lookup n s.egress_channels) (λ _. refl) (λ q _. refl)

outbox-send_ledger :
    (env : Environment) (e : UniversalPaymentEvent) (s : Engine)
    → outbox (send_ledger env e s) ≡ outbox s
unfolding send_ledger
outbox-send_ledger env e s =
    if_cases (λ t. outbox t ≡ outbox s) env.ledger_open (λ _. refl) (λ _. refl)

outbox-store_profile :
    (env : Environment) (e : UniversalPaymentEvent) (p : CardProfile) (s : Engine)
    → outbox (store_profile env e p s) ≡ outbox s
unfolding store_profile
outbox-store_profile env e p s =
    if_cases (λ t. outbox t ≡ outbox s) env.db_open (λ _. refl) (λ _. refl)

outbox-stip_answer :
    (env : Environment) (e : UniversalPaymentEvent) (s : Engine)
    → outbox (stip_answer env e s).1 ≡ outbox s
unfolding stip_answer stip_decide
outbox-stip_answer env e s =
    let P : UniversalPaymentEvent × Engine → Type 0 = λ t. outbox t.1 ≡ outbox s in
    option_cases P (stip_entry env e s) (λ _. refl)
      (λ c _.
        option_cases P (env.deserialize c) (λ _. refl)
          (λ p _.
            if_cases P p.is_blocked (λ _. refl)
              (λ _.
                if_cases P (leb_ℤ (as_i64 e.amount) p.balance) (λ _. outbox-store_profile env e _ s)
                  (λ _. refl))))

outbox-send_reply :
    (o : Option Responder) (e : UniversalPaymentEvent) (s : Engine)
    → o ≡ none
    → outbox (send_reply o e s) ≡ outbox s
unfolding send_reply
outbox-send_reply none e s h = refl
outbox-send_reply (some q) e s h = cc

outbox-stip_fallback :
    (env : Environment) (ctx : TransactionContext) (s : Engine)
    → ctx.responder ≡ none
    → outbox (stip_fallback env ctx s) ≡ outbox s
unfolding stip_fallback append_journal
outbox-stip_fallback env ctx s h =
    let same = outbox-stip_answer env ctx.transaction s in
    if_cases (λ t. outbox t ≡ outbox s) env.journal_open
      (λ _. outbox-send_reply ctx.responder (stip_answer env ctx.transaction s).0 _ h ∙ same)
      (λ _. same)

outbox-forward :
    (env : Environment) (key n : Bytes) (ctx : TransactionContext) (s : Engine)
    → ctx.responder ≡ none
    → outbox (forward env key n ctx s) ≡ outbox s
unfolding forward translate_stan
outbox-forward env key n ctx s h =
    let sent = with_stan (next_egress_stan s) ctx in
    let t = translate_stan key ctx.transaction s in
    let u = send_ledger env sent.transaction t in
    let booked : outbox u ≡ outbox s = outbox-send_ledger env sent.transaction t in
    if_cases (λ v. outbox v ≡ outbox s) (env.accepts n) (λ _. outbox-send_to n sent u ∙ booked)
      (λ _. outbox-stip_fallback env sent u h ∙ booked)

module _ (r : Responder) where
  -- The responder is answered at most so many times more, and waits as often as before.
  abbrev pub Answers : ℕ → Outbox → Outbox → Type 0
  Answers n o o' =
      (answered r o.0 ≤ answered r o'.0)
      × (answered r o'.0 ≤ answered r o.0 + n)
      × (queued r o'.1 ≡ queued r o.1)

  pub outbox-Answers : (n : ℕ) (o o' : Outbox) → o' ≡ o → Answers n o o'
  outbox-Answers n o o' h = rw h (omega arith, omega arith, refl)

  pub send_reply-Answers :
      (o : Option Responder) (e : UniversalPaymentEvent) (s : Engine)
      → Answers (owes r o) (outbox s) (outbox (send_reply o e s))
  unfolding send_reply
  send_reply-Answers none e s = (omega arith, omega arith, refl)
  send_reply-Answers (some q) e s =
      let one = answered-append r s.replies q e in (omega (arith, one), omega (arith, one), refl)

  no_egress-Answers :
      (key : Bytes) (ctx : TransactionContext) (a : ActiveTransaction) (s : Engine)
      → lookup key s.idempotency_guard ≡ some a
      → Answers (owes r a.responder) (outbox s) (outbox (no_egress key ctx s))
  unfolding no_egress drop_entry put_entry
  no_egress-Answers key ctx a s h =
      rw (h, answer_held)
        (send_reply-Answers a.responder (decline (codes "05") ctx.transaction)
          (put_entry key (finish_entry a) s))

  -- The pass over an entry of the guard answers no responder but that of the entry.
  pub journal_and_route-Answers :
      (env : Environment) (key : Bytes) (ctx : TransactionContext) (a : ActiveTransaction)
      (s : Engine)
      → ctx.responder ≡ none
      → lookup key s.idempotency_guard ≡ some a
      → Answers (owes r a.responder) (outbox s) (outbox (journal_and_route env key ctx s))
  unfolding journal_and_route append_journal
  journal_and_route-Answers env key ctx a s h l =
      let s' = append_journal (to_pb ctx.transaction) s in
      let P : Engine → Type 0 = λ t. Answers (owes r a.responder) (outbox s) (outbox t) in
      let same = outbox-Answers (owes r a.responder) (outbox s) in
      if_cases P env.journal_open
        (λ _.
          option_cases P (target_egress ctx.transaction s') (λ _. no_egress-Answers key ctx a s' l)
            (λ n _. same (outbox (forward env key n ctx s')) (outbox-forward env key n ctx s' h)))
        (λ _. same (outbox s) refl)
