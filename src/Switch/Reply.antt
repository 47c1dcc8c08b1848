-- ===== src/Switch/Reply.antt =====
-- One pass of a bank reply worker of engine.rs.
use iso8583paymentsengine.Base.{Bool, true, false, none, some, if◌then◌else◌}
use iso8583paymentsengine.Base.Text.{Bytes, codes}
use iso8583paymentsengine.Base.Dict.{lookup, remove}
use iso8583paymentsengine.Canonical.{UniversalPaymentEvent, Transaction}
use iso8583paymentsengine.Canonical.Convert.{from_pb}
use iso8583paymentsengine.Switch.State.{
  NetworkState, reversed, completed, ActiveTransaction, Engine, Environment, send_reply,
  append_journal, put_entry, drop_entry,
}
use iso8583paymentsengine.Switch.Ingress.{guard_key}

-- The ingress STAN of a reply: what the table has for its STAN, or that STAN itself.
unfoldable pub ingress_stan : Transaction → Engine → Bytes
ingress_stan tx s = elim (lookup tx.stan s.stan_nat) [ none ↦ tx.stan | some i ↦ i ]

unfoldable pub forget_stan : Bytes → Engine → Engine
forget_stan stan s = record s { stan_nat = remove stan s.stan_nat }

abbrev pub is_reversed : NetworkState → Bool
is_reversed reversed = true
is_reversed _ = false

unfoldable pub approval : Transaction → UniversalPaymentEvent
approval tx = from_pb (record tx { mti = codes "0110" })

abbrev pub complete_entry : ActiveTransaction → ActiveTransaction
complete_entry a = record a { state = completed }

abbrev pub answer_entry : ActiveTransaction → ActiveTransaction
answer_entry a = record a { responder = none; state = completed }

-- An entry that is not reversed: complete it, journal, and answer if the journal took the reply.
unfoldable pub settle_reply :
    Environment → Bytes → ActiveTransaction → Transaction → Engine → Engine
settle_reply env key a tx s =
    if env.journal_open
    then drop_entry key (
        send_reply a.responder (approval tx) (append_journal tx (put_entry key (answer_entry a) s)))
    else put_entry key (complete_entry a) s

unfoldable pub bank_reply : Environment → Transaction → Engine → Engine
bank_reply env tx s =
    let key = guard_key tx.rrn (ingress_stan tx s) tx.acquirer_id in
    let s' = forget_stan tx.stan s in
    elim (lookup key s.idempotency_guard) [
      | none ↦ s'
      | some a ↦ if is_reversed a.state then drop_entry key s' else settle_reply env key a tx s'
    ]
