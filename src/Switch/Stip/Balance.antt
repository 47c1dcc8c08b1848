-- ===== src/Switch/Stip/Balance.antt =====
-- What the stand-in approval does to the balance of a card, and whom it answers.
use mathlib.Core.Path.{subst}
use iso8583paymentsengine.Base.{
  ◌<◌, ◌^◌, true, false, Option, none, some, [], ◌∷◌, ◌++◌, ◌≡◌, refl, sym, ◌∙◌, ap, if_cases,
}
use iso8583paymentsengine.Base.Text.{Bytes, codes}
use iso8583paymentsengine.Base.Int.{
  pos, ◌-ℤ◌, ◌≤ℤ◌, leb_ℤ, as_i64, as_i64_small, leb_ℤ-true, leb_ℤ-false,
}
use iso8583paymentsengine.Base.Dict.{lookup, lookup-insert_self}
use iso8583paymentsengine.Canonical.{Transaction, UniversalPaymentEvent}
use iso8583paymentsengine.Canonical.Convert.{to_pb}
use iso8583paymentsengine.Switch.State.{
  Responder, TransactionContext, CardProfile, Engine, Environment, send_reply, append_journal,
  decline,
}
use iso8583paymentsengine.Switch.Guard.{replies-send_reply}
use iso8583paymentsengine.Switch.Stip.{
  stip_entry, store_profile, approve, stip_decide, stip_answer, stip_fallback,
}

-- The database is open and holds this profile for the card, in bytes that read back.
pub record Profiled (env : Environment) (e : UniversalPaymentEvent) (s : Engine) (p : CardProfile)
    : Type 0 where
  pub cached : Bytes
  pub db : env.db_open ≡ true
  pub stored : lookup e.fpan s.stip_db ≡ some cached
  pub reads : env.deserialize cached ≡ some p

-- The card's profile after an approval of the amount.
abbrev pub debited : UniversalPaymentEvent → CardProfile → CardProfile
debited e p = record p { balance = p.balance -ℤ as_i64 e.amount }

-- What the fallback may answer, and the stored profile that each answer leaves.
pub data Decision (e : UniversalPaymentEvent) (p : CardProfile)
    : UniversalPaymentEvent → CardProfile → Type 0 where
  blocked : p.is_blocked ≡ true → Decision e p (decline (codes "41") e) p
  approved :
      p.is_blocked ≡ false → pos e.amount ≤ℤ p.balance → Decision e p (approve e) (debited e p)
  short :
      p.is_blocked ≡ false → ¬ (pos e.amount ≤ℤ p.balance) → Decision e p (decline (codes "51") e) p

module _ (env : Environment) (e : UniversalPaymentEvent) (s : Engine) (p : CardProfile) where
  pub stip_answer-Profiled : Profiled env e s p → stip_answer env e s ≡ stip_decide env e p s
  unfolding stip_answer stip_entry
  stip_answer-Profiled h =
      let entry : stip_entry env e s ≡ some h.cached =
        if_cases (λ o. o ≡ some h.cached) env.db_open (λ _. h.stored) (λ c. cc (h.db)) in
      rw (entry, stip_answer) (rw (h.reads, stip_answer) refl)

  store_profile-Profiled :
      (q : CardProfile)
      → Profiled env e s p
      → env.deserialize (env.serialize q) ≡ some q
      → Profiled env e (store_profile env e q s) q
  unfolding store_profile
  store_profile-Profiled q h back =
      if_cases (λ t. Profiled env e t q) env.db_open
        (λ _. record {
          cached = env.serialize q;
          db = h.db;
          stored = lookup-insert_self e.fpan (env.serialize q) s.stip_db;
          reads = back;
        })
        (λ c. cc (h.db))

  replies-store_profile : (q : CardProfile) → (store_profile env e q s).replies ≡ s.replies
  unfolding store_profile
  replies-store_profile q =
      if_cases (λ (t : Engine). t.replies ≡ s.replies) env.db_open (λ _. refl) (λ _. refl)

  journal-store_profile : (q : CardProfile) → (store_profile env e q s).journal ≡ s.journal
  unfolding store_profile
  journal-store_profile q =
      if_cases (λ (t : Engine). t.journal ≡ s.journal) env.db_open (λ _. refl) (λ _. refl)

  -- The answer, the profile that it leaves, and the replies and the journal, which stay.
  abbrev pub Decided : UniversalPaymentEvent × Engine → Type 0
  Decided r =
      (q : CardProfile) × Decision e p r.0 q
      × Profiled env e r.1 q
      × (r.1.replies ≡ s.replies)
      × (r.1.journal ≡ s.journal)

  pub stip_decide-Decided :
      Profiled env e s p
      → e.amount < 2 ^ 63
      → ((q : CardProfile) → env.deserialize (env.serialize q) ≡ some q)
      → Decided (stip_decide env e p s)
  unfolding stip_decide
  stip_decide-Decided h small back =
      let cast = as_i64_small e.amount small in
      if_cases Decided p.is_blocked (λ b. (p, blocked b, h, refl, refl))
        (λ b.
          if_cases Decided (leb_ℤ (as_i64 e.amount) p.balance)
            (λ c. (
              debited e p,
              approved b
                  (subst (λ z. z ≤ℤ p.balance) cast (leb_ℤ-true (as_i64 e.amount) p.balance c)),
              store_profile-Profiled (debited e p) h (back _),
              replies-store_profile (debited e p),
              journal-store_profile (debited e p),
            ))
            (λ c. (
              p,
              short b (
                  subst (λ z. ¬ (z ≤ℤ p.balance)) cast (leb_ℤ-false (as_i64 e.amount) p.balance c)),
              h,
              refl,
              refl,
            )))

pub send_reply-Profiled :
    (env : Environment) (e : UniversalPaymentEvent) (q : CardProfile) (o : Option Responder)
    (a : UniversalPaymentEvent) (s : Engine)
    → Profiled env e s q
    → Profiled env e (send_reply o a s) q
unfolding send_reply
send_reply-Profiled env e q none a s h = h
send_reply-Profiled env e q (some r) a s h = record {
  cached = h.cached;
  db = h.db;
  stored = h.stored;
  reads = h.reads;
}

pub append_journal-Profiled :
    (env : Environment) (e : UniversalPaymentEvent) (q : CardProfile) (tx : Transaction)
    (s : Engine)
    → Profiled env e s q
    → Profiled env e (append_journal tx s) q
unfolding append_journal
append_journal-Profiled env e q tx s h = record {
  cached = h.cached;
  db = h.db;
  stored = h.stored;
  reads = h.reads;
}

journal-send_reply :
    (o : Option Responder) (a : UniversalPaymentEvent) (s : Engine)
    → (send_reply o a s).journal ≡ s.journal
unfolding send_reply
journal-send_reply none a s = refl
journal-send_reply (some r) a s = refl

-- The fallback for a card with a stored profile, an amount below 2^63, an open journal, and profiles
-- that read back as they were written. It gives one of three answers: 41 if the card is blocked, 00 if
-- the amount is covered, 51 if it is not. Only the answer 00 changes the profile, by taking the amount
-- off the balance; the answer is journaled; and it is sent to the responder of the failed context, if
-- that has one.
pub stip_fallback_decides :
    (env : Environment) (ctx : TransactionContext) (s : Engine) (p : CardProfile)
    → Profiled env ctx.transaction s p
    → ctx.transaction.amount < 2 ^ 63
    → env.journal_open ≡ true
    → ((q : CardProfile) → env.deserialize (env.serialize q) ≡ some q)
    → let t = stip_fallback env ctx s in
      (answer : UniversalPaymentEvent) × (q : CardProfile) × Decision ctx.transaction p answer q
      × Profiled env ctx.transaction t q
      × (t.journal ≡ s.journal ++ (to_pb answer ∷ []))
      × (t.replies ≡ (send_reply ctx.responder answer s).replies)
unfolding stip_fallback append_journal
stip_fallback_decides env ctx s p h small journal back =
    let e = ctx.transaction in
    let r = stip_answer env e s in
    let d : Decided env e s p r =
      subst (Decided env e s p) (sym (stip_answer-Profiled env e s p h))
        (stip_decide-Decided env e s p h small back) in
    (
      r.0,
      d.0,
      d.1,
      if_cases (λ t. Profiled env e t d.0) env.journal_open
          (λ _.
            send_reply-Profiled env e d.0 ctx.responder r.0 _
              (append_journal-Profiled env e d.0 (to_pb r.0) r.1 d.2))
          (λ c. cc),
      if_cases (λ (t : Engine). t.journal ≡ s.journal ++ (to_pb r.0 ∷ [])) env.journal_open
          (λ _. journal-send_reply ctx.responder r.0 _ ∙ ap (λ l. l ++ (to_pb r.0 ∷ [])) d.4)
          (λ c. cc),
      if_cases (λ (t : Engine). t.replies ≡ (send_reply ctx.responder r.0 s).replies)
          env.journal_open (λ _. replies-send_reply ctx.responder r.0 _ s d.3) (λ c. cc),
    )
