-- ===== src/Switch/Stip.antt =====
-- The stand-in approval of engine.rs, for a transaction whose egress channel did not take it.
pub mod Balance
pub mod Solvent
use iso8583paymentsengine.Base.{Option, none, some, if◌then◌else◌}
use iso8583paymentsengine.Base.Text.{Bytes, codes}
use iso8583paymentsengine.Base.Int.{◌-ℤ◌, leb_ℤ, as_i64}
use iso8583paymentsengine.Base.Dict.{lookup, insert}
use iso8583paymentsengine.Canonical.{UniversalPaymentEvent}
use iso8583paymentsengine.Canonical.Convert.{to_pb}
use iso8583paymentsengine.Switch.State.{
  TransactionContext, CardProfile, Engine, Environment, send_reply, decline, append_journal,
}

-- `stip_db.get(&fpan)`
unfoldable pub stip_entry : Environment → UniversalPaymentEvent → Engine → Option Bytes
stip_entry env e s = if env.db_open then lookup e.fpan s.stip_db else none

-- `stip_db.insert(&fpan, bincode::serialize(&profile))`
unfoldable pub store_profile : Environment → UniversalPaymentEvent → CardProfile → Engine → Engine
store_profile env e p s =
    if env.db_open then record s { stip_db = insert e.fpan (env.serialize p) s.stip_db } else s

unfoldable pub approve : UniversalPaymentEvent → UniversalPaymentEvent
approve e = record e {
  mti = codes "0110";
  processing_code = codes "STIP12";
  response_code = codes "00";
}

-- The three answers from a card profile.
unfoldable pub stip_decide :
    Environment → UniversalPaymentEvent → CardProfile → Engine → UniversalPaymentEvent × Engine
stip_decide env e p s =
    if p.is_blocked
    then (decline (codes "41") e, s)
    else if leb_ℤ (as_i64 e.amount) p.balance
    then (approve e, store_profile env e (record p { balance = p.balance -ℤ as_i64 e.amount }) s)
    else (decline (codes "51") e, s)

unfoldable pub stip_answer :
    Environment → UniversalPaymentEvent → Engine → UniversalPaymentEvent × Engine
unfolding stip_entry
stip_answer env e s = elim (stip_entry env e s) [
  | none ↦ (decline (codes "05") e, s)
  | some cached ↦ elim (env.deserialize cached) [
    | none ↦ (decline (codes "05") e, s)
    | some p ↦ stip_decide env e p s
  ]
]

-- The whole fallback: answer, journal, and reply through the responder of the failed context.
unfoldable pub stip_fallback : Environment → TransactionContext → Engine → Engine
stip_fallback env ctx s =
    let (answer, s') = stip_answer env ctx.transaction s in
    if env.journal_open
    then send_reply ctx.responder answer (append_journal (to_pb answer) s')
    else s'
