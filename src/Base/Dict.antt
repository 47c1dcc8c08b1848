-- ===== src/Base/Dict.antt =====
-- The source's hash maps (`DashMap`, `HashMap`, `sled::Db`), keyed by byte strings, as association
-- lists. Their iteration order is the list's.
use iso8583paymentsengine.Base.Text.{Bytes, bytes_eq, bytes_eq_iff, bytes_eq_self}
use iso8583paymentsengine.Base.Tests.{if◌then◌else◌, Bool-cases}
use mathlib.Core.Path.{◌≡◌, refl, ◌∙◌}
use mathlib.Core.Logic.{◌≢◌, inl, inr}
use mathlib.Core.Bool.{Bool, true, false}
use mathlib.Core.Option.{Option, none, some}
use mathlib.Core.List.{List, [], ◌∷◌}
use native.Mathlib.Omega.{arith}

abbrev pub Dict {ℓ} : Type ℓ → Type ℓ
Dict V = List (Bytes × V)

module _ {ℓ} {V : Type ℓ} where
  unfoldable pub lookup : Bytes → Dict V → Option V
  lookup k [] = none
  lookup k ((j, v) ∷ d) = if bytes_eq k j then some v else lookup k d

  unfoldable pub contains_key : Bytes → Dict V → Bool
  contains_key k d = elim (lookup k d) [ none ↦ false | some _ ↦ true ]

  unfoldable pub insert : Bytes → V → Dict V → Dict V
  insert k v [] = (k, v) ∷ []
  insert k v (e ∷ d) = if bytes_eq k e.0 then (k, v) ∷ d else e ∷ insert k v d

  unfoldable pub remove : Bytes → Dict V → Dict V
  remove k [] = []
  remove k (e ∷ d) = if bytes_eq k e.0 then d else e ∷ remove k d

  -- No key is listed twice.
  abbrev pub IsDict : Dict V → Type ℓ
  IsDict [] = Unit
  IsDict ((k, _) ∷ d) = (lookup k d ≡ none) × IsDict d

-- The later of two answers, if there is one.
abbrev pub later {ℓ} : {A : Type ℓ} → Option A → Option A → Option A
later none early = early
later (some a) early = some a

pub later_assoc {ℓ} : {A : Type ℓ} (a b c : Option A) → later a (later b c) ≡ later (later a b) c
later_assoc none b c = refl
later_assoc (some a) b c = refl

pub later-none {ℓ} : {A : Type ℓ} (a : Option A) → later a none ≡ a
later-none none = refl
later-none (some a) = refl

module _ {ℓ} {V : Type ℓ} where
  pub lookup-insert_self : (k : Bytes) (v : V) (d : Dict V) → lookup k (insert k v d) ≡ some v
  unfolding lookup insert
  lookup-insert_self k v [] = ground (arith, bytes_eq_self k)
  lookup-insert_self k v (e ∷ d) = ground (arith, bytes_eq_self k, lookup-insert_self k v d)

  pub lookup-insert_ne :
      (j k : Bytes) (v : V) (d : Dict V) → j ≢ k → lookup j (insert k v d) ≡ lookup j d
  unfolding lookup insert
  lookup-insert_ne j k v [] h = ground (arith, bytes_eq_iff j k)
  lookup-insert_ne j k v (e ∷ d) h =
      ground (arith, bytes_eq_iff j k, bytes_eq_iff k e.0, lookup-insert_ne j k v d h)

  -- Looking a key up after an insertion.
  pub lookup-insert :
      (j k : Bytes) (v : V) (d : Dict V)
      → lookup j (insert k v d) ≡ (if bytes_eq j k then some v else lookup j d)
  lookup-insert j k v d = elim (Bool-cases (bytes_eq j k)) [
    | inl e ↦ rw e (rw ((bytes_eq_iff j k).0 e) (lookup-insert_self k v d))
    | inr e ↦ rw e (lookup-insert_ne j k v d (λ p. ground (arith, bytes_eq_iff j k)))
  ]

  pub lookup-insert-later :
      (j k : Bytes) (v : V) (d : Dict V)
      → lookup j (insert k v d) ≡ later (if bytes_eq j k then some v else none) (lookup j d)
  lookup-insert-later j k v d = lookup-insert j k v d ∙ ground arith

  pub lookup-remove_ne : (j k : Bytes) (d : Dict V) → j ≢ k → lookup j (remove k d) ≡ lookup j d
  unfolding lookup remove
  lookup-remove_ne j k [] h = refl
  lookup-remove_ne j k (e ∷ d) h =
      ground (arith, bytes_eq_iff j e.0, bytes_eq_iff k e.0, lookup-remove_ne j k d h)

  pub lookup-remove_self : (k : Bytes) (d : Dict V) → IsDict d → lookup k (remove k d) ≡ none
  unfolding lookup remove
  lookup-remove_self k [] h = refl
  lookup-remove_self k (e ∷ d) h = ground (arith, bytes_eq_iff k e.0, lookup-remove_self k d h.1)

  pub insert-IsDict : (k : Bytes) (v : V) (d : Dict V) → IsDict d → IsDict (insert k v d)
  unfolding lookup insert
  insert-IsDict k v [] h = (refl, tt)
  insert-IsDict k v (e ∷ d) h = elim (Bool-cases (bytes_eq k e.0)) [
    | inl same ↦ rw same (rw (← ((bytes_eq_iff k e.0).0 same)) at h)
    | inr other ↦ rw other (
      lookup-insert_ne e.0 k v d (λ p. ground (arith, bytes_eq_iff k e.0)) ∙ h.0,
      insert-IsDict k v d h.1,
    )
  ]

  pub remove-IsDict : (k : Bytes) (d : Dict V) → IsDict d → IsDict (remove k d)
  unfolding lookup remove
  remove-IsDict k [] h = tt
  remove-IsDict k (e ∷ d) h = elim (Bool-cases (bytes_eq k e.0)) [
    | inl same ↦ rw same h.1
    | inr other ↦ rw other (
      lookup-remove_ne e.0 k d (λ p. ground (arith, bytes_eq_iff k e.0)) ∙ h.0,
      remove-IsDict k d h.1,
    )
  ]

  pub remove-insert : (k : Bytes) (v : V) (d : Dict V) → remove k (insert k v d) ≡ remove k d
  unfolding remove insert
  remove-insert k v [] = ground (arith, bytes_eq_self k)
  remove-insert k v (e ∷ d) = ground (arith, bytes_eq_self k, remove-insert k v d)

  pub remove_absent : (k : Bytes) (d : Dict V) → lookup k d ≡ none → remove k d ≡ d
  unfolding lookup remove
  remove_absent k [] h = refl
  remove_absent k (e ∷ d) h = ground (arith, remove_absent k d)

  pub insert-insert : (k : Bytes) (v w : V) (d : Dict V) → insert k w (insert k v d) ≡ insert k w d
  unfolding insert
  insert-insert k v w [] = ground (arith, bytes_eq_self k)
  insert-insert k v w (e ∷ d) = ground (arith, bytes_eq_self k, insert-insert k v w d)
