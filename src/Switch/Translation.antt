-- ===== src/Switch/Translation.antt =====
-- The STAN translation of engine.rs, from the ingress STAN of a terminal to the egress STAN of the
-- bank and back.
use iso8583paymentsengine.Base.{
  ℕ, ◌+◌, ◌<◌, ◌≤◌, ◌%◌, ◌^◌, true, false, Option, none, some, ◌≡◌, refl, sym, ap, ◌∙◌, arith,
  option_cases, if_cases,
}
use iso8583paymentsengine.Base.Text.{Bytes}
use iso8583paymentsengine.Base.Utf8.{from_utf8_lossy}
use iso8583paymentsengine.Base.Digits.{format_padded, fixed_digits, fixed_digits-injective}
use iso8583paymentsengine.Base.Dict.{
  Dict, lookup, insert, remove, lookup-insert_self, remove-insert, remove_absent, insert-insert,
}
use iso8583paymentsengine.Canonical.{UniversalPaymentEvent, Transaction}
use iso8583paymentsengine.Canonical.Convert.{to_pb}
use iso8583paymentsengine.Switch.State.{
  Responder, TransactionContext, ActiveTransaction, Engine, Environment, put_entry, append_journal,
  send_reply, drop_entry, send_to, send_ledger,
}
use iso8583paymentsengine.Switch.Ingress.{
  event_key, guard_key, admit, taken, new_entry, needs_hsm, target_egress, next_egress_stan,
  journal_and_route, forward, translate_stan, update_entry, set_egress_stan,
}
use iso8583paymentsengine.Switch.Guard.{guard-send_reply, replies-send_reply}
use iso8583paymentsengine.Switch.Reply.{
  is_reversed, ingress_stan, forget_stan, approval, answer_entry, settle_reply, bank_reply,
}

-- Two states whose counters lie less than a million apart give different egress STANs, unless the
-- counters are equal.
pub next_egress_stan-injective :
    (s t : Engine)
    → s.stan_counter ≤ t.stan_counter
    → t.stan_counter < s.stan_counter + 10 ^ 6
    → next_egress_stan s ≡ next_egress_stan t
    → s.stan_counter ≡ t.stan_counter
unfolding next_egress_stan format_padded
next_egress_stan-injective s t h k e =
    let a = s.stan_counter % 10 ^ 6 in
    let b = t.stan_counter % 10 ^ 6 in
    let small : (x : ℕ) → x < 10 ^ 6 → format_padded 6 x ≡ fixed_digits 6 x = λ x p. ground arith in
    let same : a ≡ b =
      fixed_digits-injective 6 a b (omega arith) (omega arith)
        (sym (small a (omega arith)) ∙ e ∙ small b (omega arith)) in
    omega (arith, same)

-- The guard entry of a forwarded transaction.
abbrev waiting : Environment → TransactionContext → Engine → ActiveTransaction
waiting env ctx s = set_egress_stan (next_egress_stan s) (new_entry env ctx)

-- What an admitted and forwarded transaction has changed of the guard, the table and the replies.
record Forwarded (env : Environment) (ctx : TransactionContext) (s t : Engine) : Type 0 where
  guard :
      t.idempotency_guard
      ≡ insert (event_key ctx.transaction) (waiting env ctx s) s.idempotency_guard
  table : t.stan_nat ≡ insert (next_egress_stan s) ctx.transaction.stan s.stan_nat
  quiet : t.replies ≡ s.replies

send_to-Forwarded :
    (env : Environment) (ctx c : TransactionContext) (n : Bytes) (s t : Engine)
    → Forwarded env ctx s t
    → Forwarded env ctx s (send_to n c t)
unfolding send_to
send_to-Forwarded env ctx c n s t f =
    option_cases (Forwarded env ctx s) (lookup n t.egress_channels) (λ _. f)
      (λ _ _. record { guard = f.guard; table = f.table; quiet = f.quiet })

send_ledger-Forwarded :
    (env : Environment) (ctx : TransactionContext) (e : UniversalPaymentEvent) (s t : Engine)
    → Forwarded env ctx s t
    → Forwarded env ctx s (send_ledger env e t)
unfolding send_ledger
send_ledger-Forwarded env ctx e s t f =
    if_cases (Forwarded env ctx s) env.ledger_open
      (λ _. record { guard = f.guard; table = f.table; quiet = f.quiet }) (λ _. f)

update_entry-insert :
    (key : Bytes) (f : ActiveTransaction → ActiveTransaction) (a : ActiveTransaction)
    (d : Dict ActiveTransaction)
    → update_entry key f (insert key a d) ≡ insert key (f a) d
unfolding update_entry
update_entry-insert key f a d =
    rw (lookup-insert_self key a d, update_entry) (insert-insert key a (f a) d)

-- The event of a context goes to this node when the context is admitted.
pub record Forwards (env : Environment) (ctx : TransactionContext) (s : Engine) (n : Bytes)
    : Type 0 where
  pub fresh : lookup (event_key ctx.transaction) s.idempotency_guard ≡ none
  pub no_hsm : needs_hsm ctx.transaction ≡ false
  pub journaled : env.journal_open ≡ true
  pub routed :
      target_egress ctx.transaction (
        append_journal
          (to_pb ctx.transaction)
          (put_entry (event_key ctx.transaction) (new_entry env ctx) s))
      ≡ some n
  pub accepted : env.accepts n ≡ true

forward-Forwarded :
    (env : Environment) (ctx : TransactionContext) (s : Engine) (n : Bytes)
    → env.accepts n ≡ true
    → Forwarded env ctx s (
        forward env (event_key ctx.transaction) n (taken ctx) (
          append_journal
            (to_pb ctx.transaction)
            (put_entry (event_key ctx.transaction) (new_entry env ctx) s)))
unfolding forward append_journal put_entry translate_stan
forward-Forwarded env ctx s n ok =
    if_cases (Forwarded env ctx s) (env.accepts n)
      (λ _. send_to-Forwarded env ctx _ n s _ (
        send_ledger-Forwarded env ctx _ s _ (record {
          guard =
              update_entry-insert (event_key ctx.transaction) (set_egress_stan (next_egress_stan s))
                (new_entry env ctx) s.idempotency_guard;
          table = refl;
          quiet = refl;
        })))
      (λ no. cc)

some_eq : {m n : Bytes} → some m ≡ some n → m ≡ n
some_eq e = cc

admit-Forwarded :
    (env : Environment) (ctx : TransactionContext) (s : Engine) (n : Bytes)
    → Forwards env ctx s n
    → Forwarded env ctx s (admit env ctx s)
unfolding admit journal_and_route
admit-Forwarded env ctx s n f =
    let P : Engine → Type 0 = Forwarded env ctx s in
    let s' =
      append_journal (to_pb ctx.transaction)
        (put_entry (event_key ctx.transaction) (new_entry env ctx) s) in
    if_cases P (needs_hsm ctx.transaction) (λ e. cc (f.no_hsm))
      (λ _.
        if_cases P env.journal_open
          (λ _.
            option_cases P (target_egress ctx.transaction s') (λ e. cc (f.routed))
              (λ m e.
                forward-Forwarded env ctx s m
                  (ap env.accepts (some_eq (sym e ∙ f.routed)) ∙ f.accepted)))
          (λ e. cc (f.journaled)))

table-send_reply :
    (o : Option Responder) (e : UniversalPaymentEvent) (s : Engine)
    → (send_reply o e s).stan_nat ≡ s.stan_nat
unfolding send_reply
table-send_reply none e s = refl
table-send_reply (some r) e s = refl

ingress_stan_of :
    (tx : Transaction) (t : Engine) {stan : Bytes}
    → lookup tx.stan t.stan_nat ≡ some stan
    → ingress_stan tx t ≡ stan
unfolding ingress_stan
ingress_stan_of tx t h = rw (h, ingress_stan) refl

abbrev reply_key : Transaction → Engine → Bytes
reply_key tx t = guard_key tx.rrn (ingress_stan tx t) tx.acquirer_id

-- What a bank reply that ends a transaction has changed.
record Ended (tx : Transaction) (o : Option Responder) (t u : Engine) : Type 0 where
  guard : u.idempotency_guard ≡ remove (reply_key tx t) t.idempotency_guard
  table : u.stan_nat ≡ remove tx.stan t.stan_nat
  replies : u.replies ≡ (send_reply o (approval tx) t).replies

bank_reply-Ended :
    (env : Environment) (tx : Transaction) (t : Engine) {a : ActiveTransaction}
    → lookup (reply_key tx t) t.idempotency_guard ≡ some a
    → is_reversed a.state ≡ false
    → env.journal_open ≡ true
    → Ended tx a.responder t (bank_reply env tx t)
unfolding bank_reply settle_reply drop_entry put_entry append_journal forget_stan
bank_reply-Ended env tx t {a} found waits journal =
    let P : Engine → Type 0 = Ended tx a.responder t in
    rw (found, bank_reply)
      (if_cases P (is_reversed a.state) (λ e. cc)
        (λ _.
          if_cases P env.journal_open
            (λ _. record {
              guard =
                  ap (remove (reply_key tx t)) (guard-send_reply a.responder (approval tx) _)
                  ∙ remove-insert (reply_key tx t) (answer_entry a) t.idempotency_guard;
              table = table-send_reply a.responder (approval tx) _;
              replies = replies-send_reply a.responder (approval tx) _ t refl;
            })
            (λ e. cc)))

-- A fresh event that is forwarded to a node, and the bank's reply to it: a reply that carries the
-- event's RRN and acquirer and, as its STAN, the egress STAN that was free in the table when the event
-- was admitted. If the journal is open both times and nothing happens in between, the terminal is sent
-- the approval, and the guard and the translation table are again exactly what they were before the
-- event came in.
pub admit-bank_reply :
    (env env' : Environment) (ctx : TransactionContext) (s : Engine) (n : Bytes) (tx : Transaction)
    → Forwards env ctx s n
    → env'.journal_open ≡ true
    → lookup (next_egress_stan s) s.stan_nat ≡ none
    → tx.stan ≡ next_egress_stan s
    → tx.rrn ≡ ctx.transaction.rrn
    → tx.acquirer_id ≡ from_utf8_lossy ctx.transaction.acquirer_id
    → let u = bank_reply env' tx (admit env ctx s) in
      (u.replies ≡ (send_reply ctx.responder (approval tx) s).replies)
      × (u.idempotency_guard ≡ s.idempotency_guard)
      × (u.stan_nat ≡ s.stan_nat)
admit-bank_reply env env' ctx s n tx f journal free stan rrn acquirer =
    let t = admit env ctx s in
    let d = admit-Forwarded env ctx s n f in
    let key = event_key ctx.transaction in
    let back : ingress_stan tx t ≡ ctx.transaction.stan = ingress_stan_of tx t (
      rw (d.table, stan)
        (lookup-insert_self (next_egress_stan s) ctx.transaction.stan s.stan_nat)) in
    let same : reply_key tx t ≡ key = cc in
    let found : lookup (reply_key tx t) t.idempotency_guard ≡ some (waiting env ctx s) =
      rw (same, d.guard) (lookup-insert_self key (waiting env ctx s) s.idempotency_guard) in
    let e = bank_reply-Ended env' tx t found refl journal in
    (
      e.replies ∙ replies-send_reply ctx.responder (approval tx) t s d.quiet,
      e.guard
          ∙ rw (same, d.guard)
              (remove-insert key _ s.idempotency_guard ∙ remove_absent key _ f.fresh),
      e.table
          ∙ rw (stan, d.table)
              (remove-insert (next_egress_stan s) _ s.stan_nat ∙ remove_absent _ _ free),
    )
