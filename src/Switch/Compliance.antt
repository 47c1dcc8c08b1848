-- ===== src/Switch/Compliance.antt =====
-- The poll of the sanctions list in switch-core/src/compliance.rs, and what the check of a PAN comes to
-- after one.
use iso8583paymentsengine.Base.{
  ◌≡◌, refl, ap, ◌∙◌, Bool, true, false, ◌||◌, Option, none, some, List, [], ◌∷◌, ◌++◌,
  if◌then◌else◌, ◌>>=◌, leb, length, if_cases, Bool-cases, inl, inr, arith,
}
use iso8583paymentsengine.Base.Text.{Bytes, codes, bytes_eq, bytes_eq_iff, slice}
use iso8583paymentsengine.Base.Utf8.{from_utf8_lossy}
use iso8583paymentsengine.Base.Dict.{Dict, lookup, contains_key, insert, lookup-insert}
use iso8583paymentsengine.Switch.State.{TransactionContext, evaluate}

-- `DashMap::retain`
unfoldable pub retain : (Bytes → Bool) → Dict Bytes → Dict Bytes
retain keep [] = []
retain keep ((k, v) ∷ d) = if keep k then (k, v) ∷ retain keep d else retain keep d

unfoldable pub insert_all : Dict Bytes → Dict Bytes → Dict Bytes
insert_all [] cache = cache
insert_all ((k, v) ∷ d) cache = insert_all d (insert k v cache)

bind_pointwise :
    (o : Option Bytes) (f g : Bytes → Bool)
    → ((b : Bytes) → f b ≡ g b)
    → (o >>= λ b. some (f b)) ≡ (o >>= λ b. some (g b))
bind_pointwise none f g h = refl
bind_pointwise (some b) f g h = ap some (h b)

-- `str::to_lowercase` and `str::to_uppercase`, which map all of Unicode.
module _ (to_lowercase to_uppercase : Bytes → Bytes) where
  abbrev pub sanction_key : Bytes × Bytes → Bytes
  sanction_key (l_type, l_value) = to_lowercase l_type ++ (codes ":" ++ to_uppercase l_value)

  -- The rows of the query; `none` is one that cannot be read.
  unfoldable pub temp_cache : List (Option (Bytes × Bytes)) → Dict Bytes → Dict Bytes
  temp_cache [] d = d
  temp_cache (none ∷ rows) d = temp_cache rows d
  temp_cache (some row ∷ rows) d = temp_cache rows (insert (sanction_key row) (codes "block") d)

  -- A poll that the database answers.
  unfoldable pub poll : List (Option (Bytes × Bytes)) → Dict Bytes → Dict Bytes
  unfolding retain insert_all temp_cache
  poll rows cache =
      let temp = temp_cache rows [] in insert_all temp (retain (λ k. contains_key k temp) cache)

  -- A row of the list has the key.
  abbrev pub is_listed : Bytes → List (Option (Bytes × Bytes)) → Bool
  is_listed k [] = false
  is_listed k (none ∷ rows) = is_listed k rows
  is_listed k (some row ∷ rows) = bytes_eq k (sanction_key row) || is_listed k rows

  contains_key-insert :
      (j k v : Bytes) (d : Dict Bytes)
      → contains_key j (insert k v d) ≡ (bytes_eq j k || contains_key j d)
  unfolding contains_key
  contains_key-insert j k v d = rw (lookup-insert j k v d, contains_key) (ground arith)

  contains_key-temp_cache :
      (k : Bytes) (rows : List (Option (Bytes × Bytes))) (d : Dict Bytes)
      → contains_key k (temp_cache rows d) ≡ (is_listed k rows || contains_key k d)
  unfolding temp_cache
  contains_key-temp_cache k [] d = refl
  contains_key-temp_cache k (none ∷ rows) d = contains_key-temp_cache k rows d
  contains_key-temp_cache k (some row ∷ rows) d =
      let key = sanction_key row in
      ground (
        arith,
        contains_key-temp_cache k rows (insert key (codes "block") d),
        contains_key-insert k key (codes "block") d,
      )

  contains_key-insert_all :
      (k : Bytes) (d cache : Dict Bytes)
      → contains_key k (insert_all d cache) ≡ (contains_key k d || contains_key k cache)
  unfolding insert_all contains_key lookup
  contains_key-insert_all k [] cache = refl
  contains_key-insert_all k ((j, v) ∷ d) cache =
      ground
        (arith, contains_key-insert_all k d (insert j v cache), contains_key-insert k j v cache)

  contains_key-retain :
      (k : Bytes) (keep : Bytes → Bool) (d : Dict Bytes)
      → (keep k || contains_key k (retain keep d)) ≡ keep k
  unfolding retain contains_key lookup
  contains_key-retain k keep [] = ground arith
  contains_key-retain k keep ((j, v) ∷ d) =
      let P : Dict Bytes → Type 0 = λ m. (keep k || contains_key k m) ≡ keep k in
      let ih = contains_key-retain k keep d in
      if_cases P (keep j)
        (λ kept. elim (Bool-cases (bytes_eq k j)) [
          | inl e ↦ let it : keep k ≡ true = ap keep ((bytes_eq_iff k j).0 e) ∙ kept in rw it refl
          | inr e ↦ rw (e, contains_key) ih
        ])
        (λ _. ih)

  contains_key-poll :
      (k : Bytes) (rows : List (Option (Bytes × Bytes))) (cache : Dict Bytes)
      → contains_key k (poll rows cache) ≡ is_listed k rows
  unfolding poll contains_key lookup
  contains_key-poll k rows cache =
      let temp = temp_cache rows [] in
      contains_key-insert_all k temp (retain (λ j. contains_key j temp) cache)
      ∙ (contains_key-retain k (λ j. contains_key j temp) cache
          ∙ (contains_key-temp_cache k rows [] ∙ ground arith))

  -- After a poll of the sanctions list, whatever the cache held before it: a PAN of less than six bytes
  -- passes, and a longer one is refused exactly if a row that can be read has its first six bytes under
  -- the type `bin`, in the case of the list; where they end inside a character the check panics.
  pub evaluate-poll :
      (rows : List (Option (Bytes × Bytes))) (cache : Dict Bytes) (ctx : TransactionContext)
      → evaluate (poll rows cache) ctx ≡ (
          let pan = from_utf8_lossy ctx.transaction.fpan in
          if leb 6 (length pan)
          then (slice 0 6 pan >>= λ bin. some (is_listed (codes "bin:" ++ bin) rows))
          else some false)
  unfolding evaluate
  evaluate-poll rows cache ctx =
      let pan = from_utf8_lossy ctx.transaction.fpan in
      ap (λ (o : Option Bool). if leb 6 (length pan) then o else some false)
        (bind_pointwise (slice 0 6 pan)
          (λ bin. contains_key (codes "bin:" ++ bin) (poll rows cache))
          (λ bin. is_listed (codes "bin:" ++ bin) rows)
          (λ bin. contains_key-poll (codes "bin:" ++ bin) rows cache))
