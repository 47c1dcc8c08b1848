-- ===== src/Edge/Server.antt =====
-- One message of a connection of edge-ingress/src/server.rs, behind the parser.
use iso8583paymentsengine.Base.{true, false, none, some, ◌≡◌, inl, inr, refl}
use iso8583paymentsengine.Base.Text.{codes}
use iso8583paymentsengine.Base.Dict.{contains_key}
use iso8583paymentsengine.Canonical.{UniversalPaymentEvent}
use iso8583paymentsengine.Switch.State.{
  Responder, TransactionContext, Engine, Environment, send_reply,
}
use iso8583paymentsengine.Switch.Ingress.{event_key, ingress}
use iso8583paymentsengine.Switch.Ingress.Screen.{
  Screened, Detokenized, plain, real, ingress_screens,
}

-- The context of a parsed message.
unfoldable pub message_context : UniversalPaymentEvent → Responder → TransactionContext
message_context tx responder = record { transaction = tx; responder = some responder }

-- The reversal that the edge sends into the engine when the socket drops before the bank replied.
unfoldable pub drop_reversal : UniversalPaymentEvent → TransactionContext
drop_reversal tx = record { transaction = record tx { mti = codes "0420" }; responder = none }

-- Detokenization changes neither the reversal flag nor the key of an event.
Detokenized-key :
    {s : Engine} {ctx c : TransactionContext}
    → Detokenized s ctx c
    → (c.transaction.is_reversal ≡ ctx.transaction.is_reversal)
      × (event_key c.transaction ≡ event_key ctx.transaction)
Detokenized-key (plain _) = (refl, refl)
Detokenized-key (real _ _ _) = (refl, refl)

Screened-absurd :
    (s : Engine) (ctx : TransactionContext)
    → ctx.transaction.is_reversal ≡ false
    → contains_key (event_key ctx.transaction) s.idempotency_guard ≡ true
    → Screened s ctx
    → ⊥
Screened-absurd s ctx f k h =
    let (same, key) = Detokenized-key h.detokenized in
    elim h.unseen [ inl e ↦ cc | inr e ↦ let e' = rw key at e in cc ]

-- While the engine holds a transaction that is not flagged as a reversal, the reversal that the edge
-- sends for it on a dropped connection does nothing: a pass that returns leaves the engine as it was,
-- so no bank and no ledger learns of it.
pub drop_reversal-lost :
    (env : Environment) (tx : UniversalPaymentEvent) (s : Engine) {t : Engine}
    → tx.is_reversal ≡ false
    → contains_key (event_key tx) s.idempotency_guard ≡ true
    → ingress env (drop_reversal tx) s ≡ some t
    → t ≡ s
unfolding drop_reversal send_reply
drop_reversal-lost env tx s {t} plain_tx held h =
    elim (ingress_screens env (drop_reversal tx) s h) [
      | inl screened ↦ absurd (Screened-absurd s (drop_reversal tx) plain_tx held screened)
      | inr (e, p) ↦ p
    ]
