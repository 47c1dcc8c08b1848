-- ===== src/Switch/Responders/Loops.antt =====
-- The bank reply workers and the reaper: a responder moves from the guard to the replies.
use iso8583paymentsengine.Base.{
  ℕ, ◌+◌, ◌≤◌, Option, none, some, List, [], ◌∷◌, ◌≡◌, refl, ◌∙◌, ap, inl, inr, if_cases,
  option_cases, Option-cases, arith,
}
use iso8583paymentsengine.Base.Text.{Bytes}
use iso8583paymentsengine.Base.Dict.{lookup}
use iso8583paymentsengine.Canonical.{Transaction}
use iso8583paymentsengine.Routing.{RouteDestination, find, internal_crdb, external_node}
use iso8583paymentsengine.Switch.State.{
  Responder, ActiveTransaction, TransactionContext, Engine, Environment, send_reply, append_journal,
  put_entry, drop_entry,
}
use iso8583paymentsengine.Switch.Reply.{
  ingress_stan, forget_stan, is_reversed, approval, complete_entry, answer_entry, settle_reply,
  bank_reply,
}
use iso8583paymentsengine.Switch.Reaper.{
  is_upstream_sent, timeout_reply, reversal_context, send_to_destination, send_reversal,
  reversed_entry, forget_egress, reverse_entry, reap_key, reap_keys, prune_keys, keys_where,
  is_expired, is_stale, reaper_pass,
}
use iso8583paymentsengine.Switch.Ingress.{guard_key}
use iso8583paymentsengine.Switch.Responders.Count.{
  owes, uses, owes-none, uses-send_reply, uses-put_entry, uses-drop_entry, uses-drop_entry-none,
}
use iso8583paymentsengine.Switch.Guard.{
  guard-send_reply, lookup-put_entry, guard-forget_stan, guard-forget_egress, guard-send_reversal,
  guard-append_journal,
}
use iso8583paymentsengine.Switch.Responders.Forward.{uses-append_journal, uses-send_to}

module _ (r : Responder) where
  uses-forget_stan : (stan : Bytes) (s : Engine) → uses r (forget_stan stan s) ≡ uses r s
  unfolding forget_stan uses
  uses-forget_stan stan s = refl

  uses-forget_egress : (o : Option Bytes) (s : Engine) → uses r (forget_egress o s) ≡ uses r s
  unfolding forget_egress
  uses-forget_egress none s = refl
  uses-forget_egress (some stan) s = uses-forget_stan stan s

  uses-send_to_destination :
      (d : RouteDestination) (ctx : TransactionContext) (s : Engine)
      → uses r (send_to_destination d ctx s) ≡ uses r s
  unfolding send_to_destination
  uses-send_to_destination internal_crdb ctx s = refl
  uses-send_to_destination (external_node n) ctx s = uses-send_to r n ctx s

  uses-send_reversal :
      (ctx : TransactionContext) (s : Engine) → uses r (send_reversal ctx s) ≡ uses r s
  unfolding send_reversal
  uses-send_reversal ctx s =
      option_cases (λ t. uses r t ≡ uses r s) (find s.router ctx.transaction.fpan) (λ _. refl)
        (λ route _. uses-send_to_destination route.destination ctx s)

  -- An entry that is emptied, answered through its responder, and dropped: nothing changes.
  uses_handover :
      (key : Bytes) (a b : ActiveTransaction) (s t : Engine)
      → lookup key s.idempotency_guard ≡ some a
      → b.responder ≡ none
      → uses r t ≡ uses r (put_entry key b s) + owes r a.responder
      → lookup key t.idempotency_guard ≡ some b
      → uses r (drop_entry key t) ≡ uses r s
  uses_handover key a b s t h e u l =
      let x : owes r b.responder ≡ 0 = ap (owes r) e ∙ owes-none r in
      omega (arith, uses-put_entry r key b a s h, uses-drop_entry r key b t l)

  uses-settle_reply :
      (env : Environment) (key : Bytes) (a : ActiveTransaction) (tx : Transaction) (s : Engine)
      → lookup key s.idempotency_guard ≡ some a
      → uses r (settle_reply env key a tx s) ≡ uses r s
  unfolding settle_reply
  uses-settle_reply env key a tx s h =
      let b = answer_entry a in
      let u = append_journal tx (put_entry key b s) in
      if_cases (λ t. uses r t ≡ uses r s) env.journal_open
        (λ _.
          uses_handover key a b s (send_reply a.responder (approval tx) u) h refl
            (uses-send_reply r a.responder (approval tx) u
              ∙ ap (λ (n : ℕ). n + owes r a.responder)
                  (uses-append_journal r tx (put_entry key b s)))
            (rw guard-send_reply (rw guard-append_journal (lookup-put_entry key b s))))
        (λ _. omega (arith, uses-put_entry r key (complete_entry a) a s h))

  uses-reverse_entry :
      (key : Bytes) (a : ActiveTransaction) (s : Engine)
      → lookup key s.idempotency_guard ≡ some a
      → uses r (reverse_entry key a s) ≡ uses r s
  unfolding reverse_entry
  uses-reverse_entry key a s h =
      let b = reversed_entry a in
      let p = put_entry key b s in
      let q = send_reply a.responder (timeout_reply a.transaction_data) p in
      let c = reversal_context a.transaction_data in
      uses_handover key a b s (forget_egress a.egress_stan (send_reversal c q)) h refl
        (uses-forget_egress a.egress_stan (send_reversal c q)
          ∙ uses-send_reversal c q
          ∙ uses-send_reply r a.responder (timeout_reply a.transaction_data) p)
        (rw guard-forget_egress
          (rw guard-send_reversal (rw guard-send_reply (lookup-put_entry key b s))))

  uses-reap_key : (key : Bytes) (s : Engine) → uses r (reap_key key s) ≡ uses r s
  unfolding reap_key
  uses-reap_key key s =
      let P : Engine → Type 0 = λ t. uses r t ≡ uses r s in
      option_cases P (lookup key s.idempotency_guard) (λ _. refl)
        (λ a h.
          if_cases P (is_upstream_sent a.state) (λ _. uses-reverse_entry key a s h) (λ _. refl))

  uses-reap_keys : (ks : List Bytes) (s : Engine) → uses r (reap_keys ks s) ≡ uses r s
  unfolding reap_keys
  uses-reap_keys [] s = refl
  uses-reap_keys (k ∷ ks) s = uses-reap_keys ks (reap_key k s) ∙ uses-reap_key k s

  uses-drop_entry_le : (key : Bytes) (s : Engine) → uses r (drop_entry key s) ≤ uses r s
  uses-drop_entry_le key s = elim (Option-cases (lookup key s.idempotency_guard)) [
    | inl h ↦ omega (arith, uses-drop_entry-none r key s h)
    | inr (a, h) ↦ omega (arith, uses-drop_entry r key a s h)
  ]

  uses-prune_keys_le : (ks : List Bytes) (s : Engine) → uses r (prune_keys ks s) ≤ uses r s
  unfolding prune_keys
  uses-prune_keys_le [] s = omega arith
  uses-prune_keys_le (k ∷ ks) s =
      omega (arith, uses-prune_keys_le ks (drop_entry k s), uses-drop_entry_le k s)

  pub uses-reaper_pass_le :
      (timeout_ms : ℕ) (env : Environment) (s : Engine)
      → uses r (reaper_pass timeout_ms env s) ≤ uses r s
  unfolding reaper_pass
  uses-reaper_pass_le timeout_ms env s =
      let ks = keys_where (is_expired env.now timeout_ms) s.idempotency_guard in
      omega (
        arith,
        uses-reap_keys ks s,
        uses-prune_keys_le (keys_where (is_stale env.now) (reap_keys ks s).idempotency_guard)
            (reap_keys ks s),
      )

  pub uses-bank_reply_le :
      (env : Environment) (tx : Transaction) (s : Engine) → uses r (bank_reply env tx s) ≤ uses r s
  unfolding bank_reply
  uses-bank_reply_le env tx s =
      let t = forget_stan tx.stan s in
      let key = guard_key tx.rrn (ingress_stan tx s) tx.acquirer_id in
      let P : Engine → Type 0 = λ u. uses r u ≤ uses r s in
      let same = uses-forget_stan tx.stan s in
      option_cases P (lookup key s.idempotency_guard) (λ _. omega arith)
        (λ a h.
          if_cases P (is_reversed a.state) (λ _. omega (arith, uses-drop_entry_le key t))
            (λ _. omega (arith, uses-settle_reply env key a tx t (rw guard-forget_stan h))))
