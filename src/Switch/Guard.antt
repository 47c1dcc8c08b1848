-- ===== src/Switch/Guard.antt =====
-- The operations of the engine that leave the idempotency guard alone.
use iso8583paymentsengine.Base.{[], ◌∷◌, ◌++◌, ap, Option, none, some, ◌≡◌, refl, option_cases}
use iso8583paymentsengine.Base.Text.{Bytes}
use iso8583paymentsengine.Base.Dict.{lookup, lookup-insert_self}
use iso8583paymentsengine.Canonical.{UniversalPaymentEvent, Transaction}
use iso8583paymentsengine.Routing.{RouteDestination, find, internal_crdb, external_node}
use iso8583paymentsengine.Switch.State.{
  Responder, TransactionContext, ActiveTransaction, Engine, send_reply, send_to, append_journal,
  put_entry,
}
use iso8583paymentsengine.Switch.Reply.{forget_stan}
use iso8583paymentsengine.Switch.Reaper.{send_to_destination, send_reversal, forget_egress}

pub guard-forget_stan :
    (stan : Bytes) (s : Engine) → (forget_stan stan s).idempotency_guard ≡ s.idempotency_guard
unfolding forget_stan
guard-forget_stan stan s = refl

pub guard-forget_egress :
    (o : Option Bytes) (s : Engine) → (forget_egress o s).idempotency_guard ≡ s.idempotency_guard
unfolding forget_egress
guard-forget_egress none s = refl
guard-forget_egress (some stan) s = guard-forget_stan stan s

pub guard-send_to :
    (n : Bytes) (ctx : TransactionContext) (s : Engine)
    → (send_to n ctx s).idempotency_guard ≡ s.idempotency_guard
unfolding send_to
guard-send_to n ctx s =
    option_cases (λ (t : Engine). t.idempotency_guard ≡ s.idempotency_guard)
      (lookup n s.egress_channels) (λ _. refl) (λ _ _. refl)

pub guard-send_to_destination :
    (d : RouteDestination) (ctx : TransactionContext) (s : Engine)
    → (send_to_destination d ctx s).idempotency_guard ≡ s.idempotency_guard
unfolding send_to_destination
guard-send_to_destination internal_crdb ctx s = refl
guard-send_to_destination (external_node n) ctx s = guard-send_to n ctx s

pub guard-send_reversal :
    (ctx : TransactionContext) (s : Engine)
    → (send_reversal ctx s).idempotency_guard ≡ s.idempotency_guard
unfolding send_reversal
guard-send_reversal ctx s =
    option_cases (λ (t : Engine). t.idempotency_guard ≡ s.idempotency_guard)
      (find s.router ctx.transaction.fpan) (λ _. refl)
      (λ route _. guard-send_to_destination route.destination ctx s)

pub guard-append_journal :
    (tx : Transaction) (s : Engine) → (append_journal tx s).idempotency_guard ≡ s.idempotency_guard
unfolding append_journal
guard-append_journal tx s = refl

pub guard-send_reply :
    (o : Option Responder) (e : UniversalPaymentEvent) (s : Engine)
    → (send_reply o e s).idempotency_guard ≡ s.idempotency_guard
unfolding send_reply
guard-send_reply none e s = refl
guard-send_reply (some q) e s = refl

pub lookup-put_entry :
    (k : Bytes) (a : ActiveTransaction) (s : Engine)
    → lookup k (put_entry k a s).idempotency_guard ≡ some a
unfolding put_entry
lookup-put_entry k a s = lookup-insert_self k a s.idempotency_guard

pub replies-send_reply :
    (o : Option Responder) (e : UniversalPaymentEvent) (s t : Engine)
    → s.replies ≡ t.replies
    → (send_reply o e s).replies ≡ (send_reply o e t).replies
unfolding send_reply
replies-send_reply none e s t h = h
replies-send_reply (some r) e s t h = ap (λ l. l ++ ((r, e) ∷ [])) h
