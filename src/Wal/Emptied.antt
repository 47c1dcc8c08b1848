-- ===== src/Wal/Emptied.antt =====
-- What the cutoff of the settlement daemon removes from the tally database.
use iso8583paymentsengine.Base.{
  ℕ, ◌≡◌, ◌⊎◌, inl, inr, refl, ap, ◌∙◌, sym, true, false, Bool-cases, none, some, List, [], ◌∷◌,
  if_cases, arith,
}
use iso8583paymentsengine.Base.Text.{Bytes, bytes_eq, bytes_eq_iff}
use iso8583paymentsengine.Base.Utf8.{from_utf8_lossy}
use iso8583paymentsengine.Base.Dict.{
  Dict, lookup, remove, IsDict, lookup-remove_self, remove-IsDict,
}
use iso8583paymentsengine.Wal.Settle.{
  Db, count_key, is_system_key, cutoff_rows, remove_all, execute_cutoff,
}

lookup-remove-none : (j k : Bytes) (db : Db) → lookup j db ≡ none → lookup j (remove k db) ≡ none
unfolding lookup remove
lookup-remove-none j k [] h = refl
lookup-remove-none j k (e ∷ db) h = ground (arith, lookup-remove-none j k db)

lookup-remove_all-none :
    (j : Bytes) (ks : List Bytes) (db : Db)
    → lookup j db ≡ none
    → lookup j (remove_all ks db) ≡ none
unfolding remove_all
lookup-remove_all-none j [] db h = h
lookup-remove_all-none j (k ∷ ks) db h =
    lookup-remove_all-none j ks (remove k db) (lookup-remove-none j k db h)

abbrev IsListed : Bytes → List Bytes → Type 0
IsListed j [] = ⊥
IsListed j (k ∷ ks) = (j ≡ k) ⊎ IsListed j ks

lookup-remove_all :
    (j : Bytes) (ks : List Bytes) (db : Db)
    → IsListed j ks
    → IsDict db
    → lookup j (remove_all ks db) ≡ none
unfolding remove_all
lookup-remove_all j [] db l d = absurd l
lookup-remove_all j (k ∷ ks) db (inl e) d =
    lookup-remove_all-none j ks (remove k db)
      (ap (λ i. lookup j (remove i db)) (sym e) ∙ lookup-remove_self j db d)
lookup-remove_all j (k ∷ ks) db (inr l) d =
    lookup-remove_all j ks (remove k db) l (remove-IsDict k db d)

-- Both keys of an acquirer are on the list of those to reset.
cutoff_rows-IsListed :
    (k : Bytes) (total : ℕ) (entries : Dict ℕ) (db : Db)
    → lookup k entries ≡ some total
    → from_utf8_lossy k ≡ k
    → is_system_key k ≡ false
    → IsListed k (cutoff_rows entries db).1 × IsListed (count_key k) (cutoff_rows entries db).1
unfolding cutoff_rows lookup
cutoff_rows-IsListed k total [] db h u own = ground arith
cutoff_rows-IsListed k total ((key, amount) ∷ entries) db h u own =
    let P : List (List Bytes) × List Bytes → Type 0 =
      λ r. IsListed k r.1 × IsListed (count_key k) r.1 in
    elim (Bool-cases (bytes_eq k key)) [
      | inl same ↦
          let e : k ≡ key = (bytes_eq_iff k key).0 same in
          let name : from_utf8_lossy key ≡ k = ap from_utf8_lossy (sym e) ∙ u in
          if_cases P (is_system_key (from_utf8_lossy key))
            (λ s.
              let other : is_system_key k ≡ true = ap is_system_key (sym name) ∙ s in ground arith)
            (λ _. (inl (sym name), inr (inl (ap count_key (sym name)))))
      | inr other ↦
          let later = cutoff_rows-IsListed k total entries db (rw other at h) u own in
          if_cases P (is_system_key (from_utf8_lossy key)) (λ _. later)
            (λ _. (inr (inr later.0), inr (inr later.1)))
    ]

-- The cutoff removes the total and the count of every acquirer in the database, which lists no key
-- twice, if the acquirer's name is valid UTF-8 and is neither the cursor's nor ends as a count's does.
pub execute_cutoff_empties :
    (k : Bytes) (total : ℕ) (db : Db)
    → IsDict db
    → lookup k db ≡ some total
    → from_utf8_lossy k ≡ k
    → is_system_key k ≡ false
    → (lookup k (execute_cutoff db).1 ≡ none) × (lookup (count_key k) (execute_cutoff db).1 ≡ none)
unfolding execute_cutoff
execute_cutoff_empties k total db d h u own =
    let both = cutoff_rows-IsListed k total db db h u own in
    (
      lookup-remove_all k (cutoff_rows db db).1 db both.0 d,
      lookup-remove_all (count_key k) (cutoff_rows db db).1 db both.1 d,
    )
