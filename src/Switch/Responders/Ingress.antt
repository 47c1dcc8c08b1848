-- ===== src/Switch/Responders/Ingress.antt =====
-- The uses of a responder under the ingress pass of engine.rs: in the guard or among the replies.
use iso8583paymentsengine.Base.{
  ℕ, ◌+◌, ◌≤◌, ◌&&◌, Option, none, some, List, [], ◌∷◌, ◌++◌, ◌≡◌, refl, ◌∙◌, ap, inl, inr,
  if◌then◌else◌, if_cases, option_cases, bind_cases, Option-cases, arith, ◌>>=◌, leb, length,
}
use iso8583paymentsengine.Base.Text.{Bytes, bytes_eq, slice}
use iso8583paymentsengine.Base.Dict.{Dict, lookup, contains_key}
use iso8583paymentsengine.Base.Utf8.{from_utf8_lossy}
use iso8583paymentsengine.Canonical.{UniversalPaymentEvent}
use iso8583paymentsengine.Switch.State.{
  Responder, ActiveTransaction, TransactionContext, Engine, Environment, send_reply, put_entry,
  detokenize, evaluate,
}
use iso8583paymentsengine.Switch.Stip.{}
use iso8583paymentsengine.Switch.Ingress.{
  needs_hsm, new_entry, taken, admit, admit_once, event_key, refuse, reverse_entries, mark_reversed,
  reverse, reverse_original, dispatch, risk_screen, is_risky, is_echo, reversal_reply, mask_pan,
  with_pan, detokenize_stage, ingress,
}
use iso8583paymentsengine.Switch.Responders.Count.{
  owes, held, answered, queued, uses, owes-none, queued-append, uses-send_reply, uses-put_entry_new,
  uses-enqueue,
}
use iso8583paymentsengine.Switch.Responders.Answers.{
  Answers, outbox, outbox-Answers, send_reply-Answers, journal_and_route-Answers,
}
use iso8583paymentsengine.Switch.Guard.{lookup-put_entry}
use iso8583paymentsengine.Switch.Responders.Forward.{uses-journal_and_route}

module _ (r : Responder) where
  queued-taken :
      (ctx : TransactionContext) (q : List TransactionContext)
      → queued r (q ++ (taken ctx ∷ [])) ≡ queued r q
  queued-taken ctx q = omega (arith, queued-append r q (taken ctx), owes-none r)

  held-reverse_entries :
      (env : Environment) (stan : Bytes) (e : UniversalPaymentEvent) (d : Dict ActiveTransaction)
      (l : List UniversalPaymentEvent)
      → held r (reverse_entries env stan e d l).0 ≡ held r d
  unfolding reverse_entries held
  held-reverse_entries env stan e [] l = refl
  held-reverse_entries env stan e ((k, a) ∷ d) l =
      let hit = bytes_eq a.transaction_data.stan stan in
      ground (
        arith,
        held-reverse_entries env stan e d (
            if hit && env.ledger_open
            then l ++ (record e { rrn = a.transaction_data.rrn } ∷ [])
            else l),
      )

  uses-admit_once :
      (env : Environment) (ctx : TransactionContext) (s : Engine)
      → uses r (admit_once env ctx s) ≡ uses r s + owes r ctx.responder
  unfolding admit_once admit contains_key refuse
  uses-admit_once env ctx s =
      let P : Engine → Type 0 = λ t. uses r t ≡ uses r s + owes r ctx.responder in
      let key = event_key ctx.transaction in
      let t = put_entry key (new_entry env ctx) s in
      elim (Option-cases (lookup key s.idempotency_guard)) [
        | inl h ↦
            rw (h, contains_key)
              (if_cases P (needs_hsm ctx.transaction)
                (λ _.
                  if_cases P env.hsm_open
                    (λ _.
                      uses-enqueue r (taken ctx) t refl
                      ∙ uses-put_entry_new r key (new_entry env ctx) s h)
                    (λ _. uses-put_entry_new r key (new_entry env ctx) s h))
                (λ _.
                  uses-journal_and_route r env key (taken ctx) t refl
                  ∙ uses-put_entry_new r key (new_entry env ctx) s h))
        | inr (a, h) ↦ rw (h, contains_key) (uses-send_reply r ctx.responder _ s)
      ]

  -- The entry that was just put into the guard holds the responder, so that nobody else is answered.
  admit_once-Answers :
      (env : Environment) (ctx : TransactionContext) (s : Engine)
      → Answers r (owes r ctx.responder) (outbox s) (outbox (admit_once env ctx s))
  unfolding admit_once admit contains_key refuse put_entry queued
  admit_once-Answers env ctx s =
      let P : Engine → Type 0 = λ t. Answers r (owes r ctx.responder) (outbox s) (outbox t) in
      let key = event_key ctx.transaction in
      let entry = new_entry env ctx in
      let t = put_entry key entry s in
      let same = outbox-Answers r (owes r ctx.responder) (outbox s) (outbox s) refl in
      if_cases P (contains_key key s.idempotency_guard)
        (λ _. send_reply-Answers r ctx.responder _ s)
        (λ _.
          if_cases P (needs_hsm ctx.transaction)
            (λ _.
              if_cases P env.hsm_open (λ _. (same.0, same.1, queued-taken ctx s.hsm_queue))
                (λ _. same))
            (λ _.
              journal_and_route-Answers r env key (taken ctx) entry t refl
                (lookup-put_entry key entry s)))

  uses-mark_reversed :
      (env : Environment) (stan : Bytes) (e : UniversalPaymentEvent) (s : Engine)
      → uses r (mark_reversed env stan e s) ≡ uses r s
  unfolding mark_reversed uses
  uses-mark_reversed env stan e s =
      omega (arith, held-reverse_entries env stan e s.idempotency_guard s.ledger_queue)

  -- One pass raises the uses of the responder by so much, answers it at most that often, and puts no
  -- context that carries it into the queue.
  pub record Holds (n : ℕ) (s t : Engine) : Type 0 where
    pub counted : uses r t ≡ uses r s + n
    pub answers : Answers r n (outbox s) (outbox t)

  -- The same, if the pass returns.
  abbrev Counts : ℕ → Engine → Option Engine → Type 0
  Counts n s none = Unit
  Counts n s (some t) = Holds n s t

  send_reply-Holds :
      (o : Option Responder) (e : UniversalPaymentEvent) (s : Engine)
      → Holds (owes r o) s (send_reply o e s)
  send_reply-Holds o e s = record {
    counted = uses-send_reply r o e s;
    answers = send_reply-Answers r o e s;
  }

  reverse-Holds :
      (env : Environment) (stan : Bytes) (ctx : TransactionContext) (s : Engine)
      → (let e = ctx.transaction in
          let t = send_reply ctx.responder (reversal_reply e) (mark_reversed env stan e s) in
          Holds (owes r ctx.responder) s t)
  unfolding mark_reversed
  reverse-Holds env stan ctx s =
      let e = ctx.transaction in
      let t = mark_reversed env stan e s in
      record {
        counted =
            uses-send_reply r ctx.responder (reversal_reply e) t
            ∙ ap (λ (n : ℕ). n + owes r ctx.responder) (uses-mark_reversed env stan e s);
        answers = send_reply-Answers r ctx.responder (reversal_reply e) t;
      }

  reverse-Counts :
      (env : Environment) (ctx : TransactionContext) (s : Engine)
      → Counts (owes r ctx.responder) s (reverse env ctx s)
  unfolding reverse reverse_original
  reverse-Counts env ctx s =
      let e = ctx.transaction in
      let P : Option Engine → Type 0 = Counts (owes r ctx.responder) s in
      let Q : Option Engine → Type 0 =
        λ o. P (o >>= λ t. some (send_reply ctx.responder (reversal_reply e) t)) in
      let same = send_reply-Holds ctx.responder (reversal_reply e) s in
      option_cases Q e.original_data_elements (λ _. same)
        (λ odata _.
          if_cases Q (leb 20 (length odata))
            (λ _. bind_cases Q (slice 4 10 odata) tt (λ stan _. reverse-Holds env stan ctx s))
            (λ _. same))

  dispatch-Counts :
      (env : Environment) (ctx : TransactionContext) (s : Engine)
      → Counts (owes r ctx.responder) s (dispatch env ctx s)
  unfolding dispatch
  dispatch-Counts env ctx s =
      let P : Option Engine → Type 0 = Counts (owes r ctx.responder) s in
      if_cases P (is_echo ctx.transaction) (λ _. send_reply-Holds ctx.responder _ s)
        (λ _.
          if_cases P ctx.transaction.is_reversal (λ _. reverse-Counts env ctx s)
            (λ _. record {
              counted = uses-admit_once env ctx s;
              answers = admit_once-Answers env ctx s;
            }))

  risk_screen-Counts :
      (env : Environment) (ctx : TransactionContext) (s : Engine)
      → Counts (owes r ctx.responder) s (risk_screen env ctx s)
  unfolding risk_screen refuse
  risk_screen-Counts env ctx s =
      if_cases (Counts (owes r ctx.responder) s) (is_risky ctx.transaction s)
        (λ _. send_reply-Holds ctx.responder _ s) (λ _. dispatch-Counts env ctx s)

  detokenize_stage-Counts :
      (env : Environment) (ctx : TransactionContext) (s : Engine)
      → Counts (owes r ctx.responder) s (detokenize_stage env ctx s)
  unfolding detokenize_stage refuse
  detokenize_stage-Counts env ctx s =
      let P : Option Engine → Type 0 = Counts (owes r ctx.responder) s in
      let dpan = from_utf8_lossy ctx.transaction.fpan in
      if_cases P ctx.transaction.is_tokenized
        (λ _.
          option_cases P (detokenize s.token_map dpan) (λ _. send_reply-Holds ctx.responder _ s)
            (λ real _.
              bind_cases P (mask_pan dpan) tt
                (λ _ _. risk_screen-Counts env (with_pan real dpan ctx) s)))
        (λ _. risk_screen-Counts env ctx s)

  ingress-Counts :
      (env : Environment) (ctx : TransactionContext) (s : Engine)
      → Counts (owes r ctx.responder) s (ingress env ctx s)
  unfolding ingress refuse
  ingress-Counts env ctx s =
      let P : Option Engine → Type 0 = Counts (owes r ctx.responder) s in
      bind_cases P (evaluate s.compliance_cache ctx) tt (λ blocked _.
        if_cases P blocked (λ _. send_reply-Holds ctx.responder _ s)
          (λ _. detokenize_stage-Counts env ctx s))

-- A pass of an ingress worker that returns, on any context, in any state of the engine and for every
-- responder. It raises the number of times that the responder is held by the guard, was sent a reply or
-- waits with a context for the HSM worker by one if the responder is the context's, and by none if not.
-- It takes back no reply and sends the responder at most that many more, and the contexts that wait for
-- the HSM worker carry it as often as before. So the context's responder is held or answered once more,
-- and never both; and a responder that is not the context's is held, answered and waiting exactly as
-- often as before.
pub ingress-uses :
    (r : Responder) (env : Environment) (ctx : TransactionContext) (s : Engine) {t : Engine}
    → ingress env ctx s ≡ some t
    → (uses r t ≡ uses r s + owes r ctx.responder)
      × (answered r s.replies ≤ answered r t.replies)
      × (answered r t.replies ≤ answered r s.replies + owes r ctx.responder)
      × (queued r t.hsm_queue ≡ queued r s.hsm_queue)
ingress-uses r env ctx s h =
    let done = rw h at (ingress-Counts r env ctx s) in
    (done.counted, done.answers.0, done.answers.1, done.answers.2)
