-- ===== src/Switch/Reaper/Survivors.antt =====
-- What the reaper leaves in the guard.
use iso8583paymentsengine.Base.{
  ℕ, Bool, true, false, ◌||◌, none, some, List, [], ◌∷◌, ◌≡◌, refl, sym, ap, ◌∙◌, inl, inr,
  if◌then◌else◌, arith, All, if_cases, Bool-cases, Option-cases,
}
use iso8583paymentsengine.Base.Text.{Bytes, bytes_eq, bytes_eq_iff, bytes_eq_self}
use iso8583paymentsengine.Base.Dict.{
  Dict, IsDict, lookup, remove, remove-insert, remove_absent, remove-IsDict, lookup-remove_self,
  lookup-remove_ne,
}
use iso8583paymentsengine.Switch.State.{
  ActiveTransaction, Engine, Environment, put_entry, drop_entry,
}
use iso8583paymentsengine.Switch.Guard.{guard-forget_egress, guard-send_reversal, guard-send_reply}
use iso8583paymentsengine.Switch.Reaper.{
  is_upstream_sent, is_expired, is_stale, keys_where, reverse_entry, reap_key, reap_keys,
  prune_keys, reaper_pass,
}

-- The entries that fail a test, in order.
pub survivors : (ActiveTransaction → Bool) → Dict ActiveTransaction → Dict ActiveTransaction
survivors test [] = []
survivors test ((k, a) ∷ d) = if test a then survivors test d else (k, a) ∷ survivors test d

remove_all : List Bytes → Dict ActiveTransaction → Dict ActiveTransaction
remove_all [] d = d
remove_all (k ∷ ks) d = remove_all ks (remove k d)

-- Removing keys that a map does not list passes over its first entry.
remove_all_past :
    (test : ActiveTransaction → Bool) (k : Bytes) (a : ActiveTransaction)
    (e d : Dict ActiveTransaction)
    → lookup k e ≡ none
    → remove_all (keys_where test e) ((k, a) ∷ d) ≡ (k, a) ∷ remove_all (keys_where test e) d
unfolding remove_all keys_where lookup remove
remove_all_past test k a [] d h = refl
remove_all_past test k a ((j, b) ∷ e) d h = ground (
  arith,
  bytes_eq_iff j k,
  bytes_eq_iff k j,
  remove_all_past test k a e d,
  remove_all_past test k a e (remove j d),
)

remove_all-keys_where :
    (test : ActiveTransaction → Bool) (d : Dict ActiveTransaction)
    → IsDict d
    → remove_all (keys_where test d) d ≡ survivors test d
unfolding remove_all keys_where survivors remove
remove_all-keys_where test [] h = refl
remove_all-keys_where test ((k, a) ∷ d) h =
    ground
      (arith, bytes_eq_self k, remove_all_past test k a d d h.0, remove_all-keys_where test d h.1)

guard-reverse_entry :
    (key : Bytes) (a : ActiveTransaction) (s : Engine)
    → (reverse_entry key a s).idempotency_guard ≡ remove key s.idempotency_guard
unfolding reverse_entry drop_entry put_entry
guard-reverse_entry key a s =
    rw guard-forget_egress
      (rw guard-send_reversal (rw guard-send_reply (remove-insert key _ s.idempotency_guard)))

-- A key is removed with its entry, if that waits on the bank.
guard-reap_key :
    (key : Bytes) (s : Engine)
    → ((a : ActiveTransaction)
        → lookup key s.idempotency_guard ≡ some a
        → is_upstream_sent a.state ≡ true)
    → (reap_key key s).idempotency_guard ≡ remove key s.idempotency_guard
unfolding reap_key
guard-reap_key key s p = elim (Option-cases (lookup key s.idempotency_guard)) [
  | inl h ↦ rw (h, reap_key) (sym (remove_absent key s.idempotency_guard h))
  | inr (a, h) ↦ rw (h, reap_key) (rw (p a h) (guard-reverse_entry key a s))
]

keys_where-ne :
    (test : ActiveTransaction → Bool) (j : Bytes) (d : Dict ActiveTransaction)
    → lookup j d ≡ none
    → All (λ k. bytes_eq k j ≡ false) (keys_where test d)
unfolding keys_where lookup
keys_where-ne test j [] h = tt
keys_where-ne test j ((k, b) ∷ d) h =
    let rest = keys_where-ne test j d (ground arith) in
    if_cases (All (λ i. bytes_eq i j ≡ false)) (test b)
      (λ _. (ground (arith, bytes_eq_iff j k, bytes_eq_iff k j), rest)) (λ _. rest)

-- The entry that a key is found at, if there is one, passes the test.
abbrev Passes : (ActiveTransaction → Bool) → Dict ActiveTransaction → Bytes → Type 0
Passes test d k = (a : ActiveTransaction) → lookup k d ≡ some a → test a ≡ true

Passes-cons :
    (test : ActiveTransaction → Bool) (j : Bytes) (b : ActiveTransaction)
    (d : Dict ActiveTransaction) (ks : List Bytes)
    → All (λ k. bytes_eq k j ≡ false) ks
    → All (Passes test d) ks
    → All (Passes test ((j, b) ∷ d)) ks
unfolding lookup
Passes-cons test j b d [] h p = tt
Passes-cons test j b d (k ∷ ks) h p =
    (λ a e. p.0 a (ground arith), Passes-cons test j b d ks h.1 p.1)

keys_where-Passes :
    (test : ActiveTransaction → Bool) (d : Dict ActiveTransaction)
    → IsDict d
    → All (Passes test d) (keys_where test d)
unfolding keys_where lookup
keys_where-Passes test [] h = tt
keys_where-Passes test ((j, b) ∷ d) h =
    let rest =
      Passes-cons test j b d (keys_where test d) (keys_where-ne test j d h.0)
        (keys_where-Passes test d h.1) in
    if_cases (All (Passes test ((j, b) ∷ d))) (test b)
      (λ t. (λ a e. ground (arith, bytes_eq_self j), rest)) (λ _. rest)

Passes-remove :
    (test : ActiveTransaction → Bool) (k : Bytes) (d : Dict ActiveTransaction) (ks : List Bytes)
    → IsDict d
    → All (Passes test d) ks
    → All (Passes test (remove k d)) ks
Passes-remove test k d [] h p = tt
Passes-remove test k d (j ∷ ks) h p = (λ a e. p.0 a (found a e), Passes-remove test k d ks h p.1)
  where
    found : (a : ActiveTransaction) → lookup j (remove k d) ≡ some a → lookup j d ≡ some a
    found a e = elim (Bool-cases (bytes_eq j k)) [
      | inl same ↦
          let gone = lookup-remove_self k d h in
          let q = (bytes_eq_iff j k).0 same in ground (arith, rw q at e)
      | inr other ↦ sym (lookup-remove_ne j k d (λ q. ground (arith, bytes_eq_iff j k))) ∙ e
    ]

guard-reap_keys :
    (ks : List Bytes) (s : Engine)
    → IsDict s.idempotency_guard
    → All (Passes (λ a. is_upstream_sent a.state) s.idempotency_guard) ks
    → (reap_keys ks s).idempotency_guard ≡ remove_all ks s.idempotency_guard
unfolding reap_keys remove_all
guard-reap_keys [] s h p = refl
guard-reap_keys (k ∷ ks) s h p =
    let g = guard-reap_key k s p.0 in
    guard-reap_keys ks (reap_key k s) (rw g (remove-IsDict k s.idempotency_guard h))
      (rw g (Passes-remove _ k s.idempotency_guard ks h p.1))
    ∙ ap (remove_all ks) g

guard-prune_keys :
    (ks : List Bytes) (s : Engine)
    → (prune_keys ks s).idempotency_guard ≡ remove_all ks s.idempotency_guard
unfolding prune_keys remove_all drop_entry
guard-prune_keys [] s = refl
guard-prune_keys (k ∷ ks) s = guard-prune_keys ks (drop_entry k s)

remove_all-IsDict :
    (ks : List Bytes) (d : Dict ActiveTransaction) → IsDict d → IsDict (remove_all ks d)
unfolding remove_all
remove_all-IsDict [] d h = h
remove_all-IsDict (k ∷ ks) d h = remove_all-IsDict ks (remove k d) (remove-IsDict k d h)

expired-is_upstream_sent :
    (now timeout_ms : ℕ) (d : Dict ActiveTransaction) (ks : List Bytes)
    → All (Passes (is_expired now timeout_ms) d) ks
    → All (Passes (λ a. is_upstream_sent a.state) d) ks
unfolding is_expired
expired-is_upstream_sent now timeout_ms d [] p = tt
expired-is_upstream_sent now timeout_ms d (k ∷ ks) p =
    (λ a e. ground (arith, p.0 a e), expired-is_upstream_sent now timeout_ms d ks p.1)

survivors-survivors :
    (f g : ActiveTransaction → Bool) (d : Dict ActiveTransaction)
    → survivors g (survivors f d) ≡ survivors (λ a. f a || g a) d
unfolding survivors
survivors-survivors f g [] = refl
survivors-survivors f g ((k, a) ∷ d) = ground (arith, survivors-survivors f g d)

-- One pass of the reaper, on a guard that lists no key twice, leaves exactly the entries, in order
-- and unchanged, that neither wait on the bank for longer than the timeout nor were ended more than
-- thirty seconds after they were made.
pub reaper_pass-survivors :
    (timeout_ms : ℕ) (env : Environment) (s : Engine)
    → IsDict s.idempotency_guard
    → (reaper_pass timeout_ms env s).idempotency_guard
      ≡ survivors (λ a. is_expired env.now timeout_ms a || is_stale env.now a) s.idempotency_guard
unfolding reaper_pass
reaper_pass-survivors timeout_ms env s h =
    let expired = is_expired env.now timeout_ms in
    let stale = is_stale env.now in
    let d = s.idempotency_guard in
    let ks = keys_where expired d in
    let t = reap_keys ks s in
    let reaped : t.idempotency_guard ≡ remove_all ks d =
      guard-reap_keys ks s h
        (expired-is_upstream_sent env.now timeout_ms d ks (keys_where-Passes expired d h)) in
    let dict : IsDict t.idempotency_guard = rw reaped (remove_all-IsDict ks d h) in
    guard-prune_keys (keys_where stale t.idempotency_guard) t
    ∙ remove_all-keys_where stale t.idempotency_guard dict
    ∙ ap (survivors stale) (reaped ∙ remove_all-keys_where expired d h)
    ∙ survivors-survivors expired stale d
