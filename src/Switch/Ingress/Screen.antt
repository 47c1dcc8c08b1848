-- ===== src/Switch/Ingress/Screen.antt =====
-- What an event must pass before anything but an answer comes of it.
use iso8583paymentsengine.Base.{
  true, false, Option, none, some, ◌≡◌, ap, ◌∙◌, ◌⊎◌, refl, inl, inr, if_cases, option_cases,
  bind_cases,
}
use iso8583paymentsengine.Base.Text.{Bytes}
use iso8583paymentsengine.Base.Utf8.{from_utf8_lossy}
use iso8583paymentsengine.Base.Dict.{contains_key}
use iso8583paymentsengine.Canonical.{UniversalPaymentEvent}
use iso8583paymentsengine.Switch.State.{
  TransactionContext, Engine, Environment, detokenize, evaluate, send_reply,
}
use iso8583paymentsengine.Switch.Ingress.{
  event_key, refuse, admit_once, reverse, dispatch, is_echo, is_risky, risk_screen, mask_pan,
  with_pan, detokenize_stage, ingress,
}

-- The context behind the detokenizer: the PAN of a token is the one that the vault has for it.
pub data Detokenized (s : Engine) (ctx : TransactionContext) : TransactionContext → Type 0 where
  plain : ctx.transaction.is_tokenized ≡ false → Detokenized s ctx ctx
  real :
      (pan : Bytes)
      → ctx.transaction.is_tokenized ≡ true
      → detokenize s.token_map (from_utf8_lossy ctx.transaction.fpan) ≡ some pan
      → Detokenized s ctx (with_pan pan (from_utf8_lossy ctx.transaction.fpan) ctx)

-- The event is past every screen: compliance, the token vault, the risk limit of its network, the
-- echo answer, and, unless it is a reversal, the idempotency guard.
pub record Screened (s : Engine) (ctx : TransactionContext) : Type 0 where
  pub clear : evaluate s.compliance_cache ctx ≡ some false
  pub behind : TransactionContext
  pub detokenized : Detokenized s ctx behind
  pub not_risky : is_risky behind.transaction s ≡ false
  pub not_echo : is_echo behind.transaction ≡ false
  pub unseen :
      (behind.transaction.is_reversal ≡ true)
      ⊎ (contains_key (event_key behind.transaction) s.idempotency_guard ≡ false)

-- All that happened is that the responder of the context, if there is one, was sent some reply.
abbrev pub OnlyAnswered : Engine → TransactionContext → Engine → Type 0
OnlyAnswered s ctx t = (e : UniversalPaymentEvent) × (t ≡ send_reply ctx.responder e s)

module _ (s : Engine) (ctx : TransactionContext) where
  abbrev Screens : Option Engine → Type 0
  Screens none = Unit
  Screens (some t) = Screened s ctx ⊎ OnlyAnswered s ctx t

  all_Screens : Screened s ctx → (o : Option Engine) → Screens o
  all_Screens h none = tt
  all_Screens h (some t) = inl h

  -- The part behind the detokenizer, whose context has the same responder.
  risk_screen-Screens :
      (env : Environment) (c : TransactionContext)
      → evaluate s.compliance_cache ctx ≡ some false
      → Detokenized s ctx c
      → c.responder ≡ ctx.responder
      → Screens (risk_screen env c s)
  unfolding risk_screen dispatch admit_once refuse
  risk_screen-Screens env c clear d r =
      let e = c.transaction in
      let answer : (f : UniversalPaymentEvent) → Screens (some (send_reply c.responder f s)) =
        λ f. inr (f, ap (λ o. send_reply o f s) r) in
      if_cases Screens (is_risky e s) (λ _. answer _)
        (λ calm.
          if_cases Screens (is_echo e) (λ _. answer _)
            (λ quiet.
              if_cases Screens e.is_reversal
                (λ v.
                  all_Screens
                    (record {
                      clear = clear;
                      behind = c;
                      detokenized = d;
                      not_risky = calm;
                      not_echo = quiet;
                      unseen = inl v;
                    })
                    (reverse env c s))
                (λ _.
                  if_cases (λ (t : Engine). Screens (some t))
                    (contains_key (event_key e) s.idempotency_guard) (λ _. answer _)
                    (λ fresh. inl (record {
                      clear = clear;
                      behind = c;
                      detokenized = d;
                      not_risky = calm;
                      not_echo = quiet;
                      unseen = inr fresh;
                    })))))

  ingress-Screens : (env : Environment) → Screens (ingress env ctx s)
  unfolding ingress detokenize_stage refuse
  ingress-Screens env =
      let e = ctx.transaction in
      let dpan = from_utf8_lossy e.fpan in
      let answer : (f : UniversalPaymentEvent) → Screens (some (send_reply ctx.responder f s)) =
        λ f. inr (f, refl) in
      bind_cases Screens (evaluate s.compliance_cache ctx) tt (λ b eq.
        if_cases Screens b (λ _. answer _)
          (λ clear.
            if_cases Screens e.is_tokenized
              (λ token.
                option_cases Screens (detokenize s.token_map dpan) (λ _. answer _)
                  (λ pan found. bind_cases Screens (mask_pan dpan) tt (λ _ _.
                    risk_screen-Screens env (with_pan pan dpan ctx) (eq ∙ ap some clear)
                      (real pan token found) refl)))
              (λ bare. risk_screen-Screens env ctx (eq ∙ ap some clear) (plain bare) refl)))

-- After a pass of an ingress worker that returns, either the event is past every screen (the BIN is
-- not blocked; a token is known to the vault; the risk score is within the limit of the network of the
-- real PAN; it is no echo for the switch; and it is a reversal or its key is not in the guard), or
-- nothing of the engine has changed but for at most one reply to the event's own responder.
pub ingress_screens :
    (env : Environment) (ctx : TransactionContext) (s : Engine) {t : Engine}
    → ingress env ctx s ≡ some t
    → Screened s ctx ⊎ OnlyAnswered s ctx t
ingress_screens env ctx s h = rw h at (ingress-Screens s ctx env)
