-- ===== src/Switch/Responders/Count.antt =====
-- How often a responder stands in the guard and among the replies, under each update of the two.
use iso8583paymentsengine.Base.{
  ℕ, ◌+◌, ◌==◌, Option, none, some, List, [], ◌∷◌, ◌++◌, ◌≡◌, refl, ap, ◌∙◌, inl, inr,
  if◌then◌else◌, Bool-cases, arith,
}
use iso8583paymentsengine.Base.Text.{Bytes, bytes_eq}
use iso8583paymentsengine.Base.Dict.{Dict, lookup, insert, remove}
use iso8583paymentsengine.Canonical.{UniversalPaymentEvent}
use iso8583paymentsengine.Switch.State.{
  Responder, ActiveTransaction, TransactionContext, Engine, send_reply, put_entry, drop_entry,
}

-- 1 if the responder is this one.
unfoldable pub owes : Responder → Option Responder → ℕ
owes r none = 0
owes r (some q) = if q == r then 1 else 0

-- How many entries of the guard hold the responder.
unfoldable pub held : Responder → Dict ActiveTransaction → ℕ
held r [] = 0
held r ((_, a) ∷ d) = owes r a.responder + held r d

-- How many replies went to the responder.
unfoldable pub answered : Responder → List (Responder × UniversalPaymentEvent) → ℕ
answered r [] = 0
answered r ((q, _) ∷ l) = owes r (some q) + answered r l

-- How many contexts that wait for the HSM worker carry the responder.
unfoldable pub queued : Responder → List TransactionContext → ℕ
queued r [] = 0
queued r (ctx ∷ q) = owes r ctx.responder + queued r q

-- How often the engine holds or has answered the responder, and still may answer it.
unfoldable pub uses : Responder → Engine → ℕ
uses r s = held r s.idempotency_guard + answered r s.replies + queued r s.hsm_queue

pub owes-none : (r : Responder) → owes r none ≡ 0
unfolding owes
owes-none r = refl

pub answered-append :
    (r : Responder) (l : List (Responder × UniversalPaymentEvent)) (q : Responder)
    (e : UniversalPaymentEvent)
    → answered r (l ++ ((q, e) ∷ [])) ≡ answered r l + owes r (some q)
unfolding answered
answered-append r [] q e = omega arith
answered-append r ((p, f) ∷ l) q e = omega (arith, answered-append r l q e)

-- A reply is counted for the responder that it takes, and the guard stays.
pub uses-send_reply :
    (r : Responder) (o : Option Responder) (e : UniversalPaymentEvent) (s : Engine)
    → uses r (send_reply o e s) ≡ uses r s + owes r o
unfolding send_reply uses
uses-send_reply r none e s = rw owes-none (omega arith)
uses-send_reply r (some q) e s = omega (arith, answered-append r s.replies q e)

-- A new entry adds its responder, and a replaced one gives its own back.
pub held-insert_new :
    (r : Responder) (k : Bytes) (a : ActiveTransaction) (d : Dict ActiveTransaction)
    → lookup k d ≡ none
    → held r (insert k a d) ≡ held r d + owes r a.responder
unfolding lookup insert held
held-insert_new r k a [] h = omega arith
held-insert_new r k a ((j, b) ∷ d) h = elim (Bool-cases (bytes_eq k j)) [
  | inl e ↦ ground arith
  | inr e ↦ rw e (omega (arith, held-insert_new r k a d (rw e at h)))
]

pub held-insert :
    (r : Responder) (k : Bytes) (a old : ActiveTransaction) (d : Dict ActiveTransaction)
    → lookup k d ≡ some old
    → held r (insert k a d) + owes r old.responder ≡ held r d + owes r a.responder
unfolding lookup insert held
held-insert r k a old [] h = ground arith
held-insert r k a old ((j, b) ∷ d) h = elim (Bool-cases (bytes_eq k j)) [
  | inl e ↦ rw e (ground (arith, h))
  | inr e ↦ rw e (omega (arith, held-insert r k a old d (rw e at h)))
]

pub held-remove :
    (r : Responder) (k : Bytes) (old : ActiveTransaction) (d : Dict ActiveTransaction)
    → lookup k d ≡ some old
    → held r (remove k d) + owes r old.responder ≡ held r d
unfolding lookup remove held
held-remove r k old [] h = ground arith
held-remove r k old ((j, b) ∷ d) h = elim (Bool-cases (bytes_eq k j)) [
  | inl e ↦ rw e (ground (arith, h))
  | inr e ↦ rw e (omega (arith, held-remove r k old d (rw e at h)))
]

pub held-remove-none :
    (r : Responder) (k : Bytes) (d : Dict ActiveTransaction)
    → lookup k d ≡ none
    → held r (remove k d) ≡ held r d
unfolding lookup remove held
held-remove-none r k [] h = refl
held-remove-none r k ((j, b) ∷ d) h = elim (Bool-cases (bytes_eq k j)) [
  | inl e ↦ ground arith
  | inr e ↦ rw e (omega (arith, held-remove-none r k d (rw e at h)))
]

-- The same for the whole engine.
pub uses-put_entry_new :
    (r : Responder) (k : Bytes) (a : ActiveTransaction) (s : Engine)
    → lookup k s.idempotency_guard ≡ none
    → uses r (put_entry k a s) ≡ uses r s + owes r a.responder
unfolding uses put_entry
uses-put_entry_new r k a s h = omega (arith, held-insert_new r k a s.idempotency_guard h)

pub uses-put_entry :
    (r : Responder) (k : Bytes) (a old : ActiveTransaction) (s : Engine)
    → lookup k s.idempotency_guard ≡ some old
    → uses r (put_entry k a s) + owes r old.responder ≡ uses r s + owes r a.responder
unfolding uses put_entry
uses-put_entry r k a old s h = omega (arith, held-insert r k a old s.idempotency_guard h)

pub uses-drop_entry :
    (r : Responder) (k : Bytes) (old : ActiveTransaction) (s : Engine)
    → lookup k s.idempotency_guard ≡ some old
    → uses r (drop_entry k s) + owes r old.responder ≡ uses r s
unfolding uses drop_entry
uses-drop_entry r k old s h = omega (arith, held-remove r k old s.idempotency_guard h)

pub uses-drop_entry-none :
    (r : Responder) (k : Bytes) (s : Engine)
    → lookup k s.idempotency_guard ≡ none
    → uses r (drop_entry k s) ≡ uses r s
unfolding uses drop_entry
uses-drop_entry-none r k s h = omega (arith, held-remove-none r k s.idempotency_guard h)

pub queued-append :
    (r : Responder) (q : List TransactionContext) (ctx : TransactionContext)
    → queued r (q ++ (ctx ∷ [])) ≡ queued r q + owes r ctx.responder
unfolding queued
queued-append r [] ctx = omega arith
queued-append r (c ∷ q) ctx = omega (arith, queued-append r q ctx)

-- A context without a responder that is put into the queue of the HSM worker.
pub uses-enqueue :
    (r : Responder) (ctx : TransactionContext) (s : Engine)
    → ctx.responder ≡ none
    → uses r (record s { hsm_queue = s.hsm_queue ++ (ctx ∷ []) }) ≡ uses r s
unfolding uses
uses-enqueue r ctx s h =
    let nobody : owes r ctx.responder ≡ 0 = ap (owes r) h ∙ owes-none r in
    omega (arith, queued-append r s.hsm_queue ctx, nobody)
