-- ===== src/Switch/Responders/Forward.antt =====
-- The uses of a responder under the journal, the routing and the stand-in fallback of engine.rs.
use iso8583paymentsengine.Base.{
  ◌+◌, none, ◌≡◌, refl, ◌∙◌, inl, inr, if◌then◌else◌, if_cases, option_cases, Option-cases, arith,
}
use iso8583paymentsengine.Base.Text.{Bytes, codes}
use iso8583paymentsengine.Base.Dict.{Dict, lookup}
use iso8583paymentsengine.Base.Int.{leb_ℤ, as_i64}
use iso8583paymentsengine.Canonical.Convert.{to_pb}
use iso8583paymentsengine.Canonical.{UniversalPaymentEvent, Transaction}
use iso8583paymentsengine.Switch.State.{
  Responder, ActiveTransaction, TransactionContext, Engine, Environment, send_reply, send_to,
  append_journal, send_ledger, put_entry, decline, CardProfile,
}
use iso8583paymentsengine.Switch.Stip.{
  stip_answer, stip_decide, stip_entry, stip_fallback, store_profile,
}
use iso8583paymentsengine.Switch.Ingress.{
  update_entry, set_egress_stan, translate_stan, with_stan, forward, no_egress, answer_held,
  finish_entry, journal_and_route, target_egress, next_egress_stan,
}
use iso8583paymentsengine.Switch.Guard.{guard-send_reply, lookup-put_entry}
use iso8583paymentsengine.Switch.Responders.Count.{
  owes, held, uses, owes-none, uses-send_reply, held-insert, uses-put_entry, uses-drop_entry,
  uses-drop_entry-none,
}

module _ (r : Responder) where
  pub uses-append_journal :
      (tx : Transaction) (s : Engine) → uses r (append_journal tx s) ≡ uses r s
  unfolding append_journal uses
  uses-append_journal tx s = refl

  pub uses-send_to :
      (n : Bytes) (ctx : TransactionContext) (s : Engine) → uses r (send_to n ctx s) ≡ uses r s
  unfolding send_to uses
  uses-send_to n ctx s =
      option_cases (λ t. uses r t ≡ uses r s) (lookup n s.egress_channels) (λ _. refl) (λ q _. refl)

  uses-send_ledger :
      (env : Environment) (e : UniversalPaymentEvent) (s : Engine)
      → uses r (send_ledger env e s) ≡ uses r s
  unfolding send_ledger uses
  uses-send_ledger env e s =
      if_cases (λ t. uses r t ≡ uses r s) env.ledger_open (λ _. refl) (λ _. refl)

  uses-store_profile :
      (env : Environment) (e : UniversalPaymentEvent) (p : CardProfile) (s : Engine)
      → uses r (store_profile env e p s) ≡ uses r s
  unfolding store_profile uses
  uses-store_profile env e p s =
      if_cases (λ t. uses r t ≡ uses r s) env.db_open (λ _. refl) (λ _. refl)

  uses-stip_answer :
      (env : Environment) (e : UniversalPaymentEvent) (s : Engine)
      → uses r (stip_answer env e s).1 ≡ uses r s
  unfolding stip_answer stip_decide
  uses-stip_answer env e s =
      let P : UniversalPaymentEvent × Engine → Type 0 = λ t. uses r t.1 ≡ uses r s in
      option_cases P (stip_entry env e s) (λ _. refl)
        (λ c _.
          option_cases P (env.deserialize c) (λ _. refl)
            (λ p _.
              if_cases P p.is_blocked (λ _. refl)
                (λ _.
                  if_cases P (leb_ℤ (as_i64 e.amount) p.balance) (λ _. uses-store_profile env e _ s)
                    (λ _. refl))))

  -- With no responder in its context the fallback answers nobody.
  pub uses-stip_fallback :
      (env : Environment) (ctx : TransactionContext) (s : Engine)
      → uses r (stip_fallback env ctx s)
        ≡ uses r s + (if env.journal_open then owes r ctx.responder else 0)
  unfolding stip_fallback
  uses-stip_fallback env ctx s = ground (
    arith,
    uses-send_reply r ctx.responder (stip_answer env ctx.transaction s).0 (
        append_journal (to_pb (stip_answer env ctx.transaction s).0)
          (stip_answer env ctx.transaction s).1),
    uses-append_journal (to_pb (stip_answer env ctx.transaction s).0)
        (stip_answer env ctx.transaction s).1,
    uses-stip_answer env ctx.transaction s,
  )

  held-update_entry :
      (key stan : Bytes) (d : Dict ActiveTransaction)
      → held r (update_entry key (set_egress_stan stan) d) ≡ held r d
  unfolding update_entry
  held-update_entry key stan d =
      option_cases (λ t. held r t ≡ held r d) (lookup key d) (λ _. refl)
        (λ a e. omega (arith, held-insert r key (set_egress_stan stan a) a d e))

  uses-translate_stan :
      (key : Bytes) (e : UniversalPaymentEvent) (s : Engine)
      → uses r (translate_stan key e s) ≡ uses r s
  unfolding translate_stan uses
  uses-translate_stan key e s = rw held-update_entry refl

  uses-forward :
      (env : Environment) (key n : Bytes) (ctx : TransactionContext) (s : Engine)
      → ctx.responder ≡ none
      → uses r (forward env key n ctx s) ≡ uses r s
  unfolding forward
  uses-forward env key n ctx s h =
      let t = translate_stan key ctx.transaction s in
      let sent = with_stan (next_egress_stan s) ctx in
      let u = send_ledger env sent.transaction t in
      ground (
        arith,
        uses-send_ledger env sent.transaction t,
        uses-translate_stan key ctx.transaction s,
        uses-send_to n sent u,
        uses-stip_fallback env sent u,
        owes-none r,
      )

  uses-no_egress :
      (key : Bytes) (ctx : TransactionContext) (s : Engine)
      → uses r (no_egress key ctx s) ≡ uses r s
  unfolding no_egress
  uses-no_egress key ctx s = elim (Option-cases (lookup key s.idempotency_guard)) [
    | inl h ↦ rw (h, answer_held) (uses-drop_entry-none r key s h)
    | inr (a, h) ↦
        let t = put_entry key (finish_entry a) s in
        let e = decline (codes "05") ctx.transaction in
        let u = send_reply a.responder e t in
        rw (h, answer_held)
          (omega (
            arith,
            uses-send_reply r a.responder e t,
            owes-none r,
            uses-put_entry r key (finish_entry a) a s h,
            uses-drop_entry r key (finish_entry a) u
                (rw guard-send_reply (lookup-put_entry key (finish_entry a) s)),
          ))
  ]

  pub uses-journal_and_route :
      (env : Environment) (key : Bytes) (ctx : TransactionContext) (s : Engine)
      → ctx.responder ≡ none
      → uses r (journal_and_route env key ctx s) ≡ uses r s
  unfolding journal_and_route
  uses-journal_and_route env key ctx s h =
      let s' = append_journal (to_pb ctx.transaction) s in
      if_cases (λ t. uses r t ≡ uses r s) env.journal_open
        (λ _.
          option_cases (λ t. uses r t ≡ uses r s) (target_egress ctx.transaction s')
            (λ _. uses-no_egress key ctx s' ∙ uses-append_journal _ s)
            (λ n _. uses-forward env key n ctx s' h ∙ uses-append_journal _ s))
        (λ _. refl)
