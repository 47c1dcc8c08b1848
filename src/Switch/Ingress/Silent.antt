-- ===== src/Switch/Ingress/Silent.antt =====
-- What the worker of engine.rs that forwards an event answers.
use iso8583paymentsengine.Base.{false, Option, none, some, ◌≡◌, refl, ◌∙◌, if_cases, option_cases}
use iso8583paymentsengine.Base.Text.{Bytes}
use iso8583paymentsengine.Base.Dict.{lookup}
use iso8583paymentsengine.Base.Int.{◌-ℤ◌, leb_ℤ, as_i64}
use iso8583paymentsengine.Canonical.{UniversalPaymentEvent}
use iso8583paymentsengine.Canonical.Convert.{to_pb}
use iso8583paymentsengine.Switch.State.{
  Responder, CardProfile, TransactionContext, Engine, Environment, send_reply, send_to,
  append_journal, send_ledger, put_entry,
}
use iso8583paymentsengine.Switch.Stip.{
  store_profile, stip_entry, stip_decide, stip_answer, stip_fallback,
}
use iso8583paymentsengine.Switch.Ingress.{
  event_key, needs_hsm, new_entry, target_egress, admit, journal_and_route, forward, translate_stan,
  next_egress_stan, with_stan, taken,
}

replies-store_profile :
    (env : Environment) (e : UniversalPaymentEvent) (q : CardProfile) (s : Engine)
    → (store_profile env e q s).replies ≡ s.replies
unfolding store_profile
replies-store_profile env e q s =
    if_cases (λ (t : Engine). t.replies ≡ s.replies) env.db_open (λ _. refl) (λ _. refl)

replies-stip_answer :
    (env : Environment) (e : UniversalPaymentEvent) (s : Engine)
    → (stip_answer env e s).1.replies ≡ s.replies
unfolding stip_answer stip_decide
replies-stip_answer env e s =
    let P : UniversalPaymentEvent × Engine → Type 0 = λ r. r.1.replies ≡ s.replies in
    option_cases P (stip_entry env e s) (λ _. refl)
      (λ cached _.
        option_cases P (env.deserialize cached) (λ _. refl)
          (λ p _.
            if_cases P p.is_blocked (λ _. refl)
              (λ _.
                if_cases P (leb_ℤ (as_i64 e.amount) p.balance)
                  (λ _.
                    replies-store_profile env e
                      (record p { balance = p.balance -ℤ as_i64 e.amount }) s)
                  (λ _. refl))))

replies-send_none :
    (o : Option Responder) (e : UniversalPaymentEvent) (s : Engine)
    → o ≡ none
    → (send_reply o e s).replies ≡ s.replies
unfolding send_reply
replies-send_none none e s h = refl
replies-send_none (some r) e s h = cc

replies-stip_fallback :
    (env : Environment) (ctx : TransactionContext) (s : Engine)
    → ctx.responder ≡ none
    → (stip_fallback env ctx s).replies ≡ s.replies
unfolding stip_fallback append_journal
replies-stip_fallback env ctx s h =
    let kept = replies-stip_answer env ctx.transaction s in
    if_cases (λ (t : Engine). t.replies ≡ s.replies) env.journal_open
      (λ _. replies-send_none ctx.responder _ _ h ∙ kept) (λ _. kept)

replies-send_to :
    (n : Bytes) (ctx : TransactionContext) (s : Engine) → (send_to n ctx s).replies ≡ s.replies
unfolding send_to
replies-send_to n ctx s =
    option_cases (λ (t : Engine). t.replies ≡ s.replies) (lookup n s.egress_channels) (λ _. refl)
      (λ q _. refl)

replies-forward :
    (env : Environment) (key n : Bytes) (ctx : TransactionContext) (s : Engine)
    → ctx.responder ≡ none
    → (forward env key n ctx s).replies ≡ s.replies
unfolding forward translate_stan send_ledger
replies-forward env key n ctx s h =
    let sent = with_stan (next_egress_stan s) ctx in
    let u = send_ledger env sent.transaction (translate_stan key ctx.transaction s) in
    let before : u.replies ≡ s.replies =
      if_cases (λ (t : Engine). t.replies ≡ s.replies) env.ledger_open (λ _. refl) (λ _. refl) in
    if_cases (λ (t : Engine). t.replies ≡ s.replies) (env.accepts n)
      (λ _. replies-send_to n sent u ∙ before) (λ _. replies-stip_fallback env sent u h ∙ before)

-- An event without PIN and MAC for which there is a live node is not answered while it is admitted:
-- neither if the node takes it, nor if it does not and the stand-in fallback decides, and perhaps
-- debits the card, instead.
pub admit-unanswered :
    (env : Environment) (ctx : TransactionContext) (s : Engine) (n : Bytes)
    → needs_hsm ctx.transaction ≡ false
    → target_egress ctx.transaction (
        append_journal
          (to_pb ctx.transaction)
          (put_entry (event_key ctx.transaction) (new_entry env ctx) s))
      ≡ some n
    → (admit env ctx s).replies ≡ s.replies
unfolding admit journal_and_route append_journal put_entry
admit-unanswered env ctx s n plain routed =
    let P : Engine → Type 0 = λ t. t.replies ≡ s.replies in
    let key = event_key ctx.transaction in
    let s' = append_journal (to_pb ctx.transaction) (put_entry key (new_entry env ctx) s) in
    if_cases P (needs_hsm ctx.transaction) (λ e. cc)
      (λ _.
        if_cases P env.journal_open
          (λ _.
            option_cases P (target_egress ctx.transaction s') (λ e. cc)
              (λ m _. replies-forward env key m (taken ctx) s' refl))
          (λ _. refl))
