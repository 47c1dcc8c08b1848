-- ===== src/Ops/History.antt =====
-- How the versioned tables of ops-control-plane/src/main.rs keep their history, and which of them can
-- be updated.
use iso8583paymentsengine.Base.{
  ℕ, ◌≡◌, refl, ◌∙◌, Bool, true, false, none, some, List, [], ◌∷◌, ◌++◌, Bool-cases, Option-cases,
  inl, inr, All, All-append,
}
use iso8583paymentsengine.Ops.Table.{
  Row, Table, not_found, has_id, find_live, retire, insert_row, create, update, Request, create_row,
  update_row, handle, handle_all,
}

module _ {Key Terms : Type 0} where
  -- The rows of one table still stand in another, with the same ids, keys, terms, versions and beginnings,
  -- and none that was not live is live again.
  abbrev pub Kept : List (Row Key Terms) → List (Row Key Terms) → Type 0
  Kept [] later = Unit
  Kept (r ∷ rows) [] = ⊥
  Kept (r ∷ rows) (q ∷ later) =
      (q.id ≡ r.id)
      × (q.key ≡ r.key)
      × (q.terms ≡ r.terms)
      × (q.version ≡ r.version)
      × (q.valid_from ≡ r.valid_from)
      × (r.is_live ≡ false → q.is_live ≡ false)
      × Kept rows later

  Kept-refl : (rows : List (Row Key Terms)) → Kept rows rows
  Kept-refl [] = tt
  Kept-refl (r ∷ rows) = (refl, refl, refl, refl, refl, λ e. e, Kept-refl rows)

  Kept-append : (rows more : List (Row Key Terms)) → Kept rows (rows ++ more)
  Kept-append [] more = tt
  Kept-append (r ∷ rows) more = (refl, refl, refl, refl, refl, λ e. e, Kept-append rows more)

  Kept-trans : (a b c : List (Row Key Terms)) → Kept a b → Kept b c → Kept a c
  Kept-trans [] b c h k = tt
  Kept-trans (x ∷ a) [] c h k = absurd h
  Kept-trans (x ∷ a) (y ∷ b) [] h k = absurd k
  Kept-trans (x ∷ a) (y ∷ b) (z ∷ c) h k = (
    k.0 ∙ h.0,
    k.1 ∙ h.1,
    k.2 ∙ h.2,
    k.3 ∙ h.3,
    k.4 ∙ h.4,
    λ e. k.5 (h.5 e),
    Kept-trans a b c h.6 k.6,
  )

  Kept-retire : (now id : ℕ) (rows : List (Row Key Terms)) → Kept rows (retire now id rows)
  unfolding retire
  Kept-retire now id [] = tt
  Kept-retire now id (r ∷ rows) = elim (Bool-cases (has_id id r)) [
    | inl own ↦ rw own (refl, refl, refl, refl, refl, λ e. refl, Kept-retire now id rows)
    | inr other ↦ rw other (refl, refl, refl, refl, refl, λ e. e, Kept-retire now id rows)
  ]

  handle-Kept :
      (q : Bool × ℕ × Request Key Terms) (t : Table Key Terms) → Kept t.rows (handle q t).rows
  unfolding handle create update insert_row
  handle-Kept (true, now, create_row key terms) t = Kept-append t.rows _
  handle-Kept (false, now, create_row key terms) t = Kept-refl t.rows
  handle-Kept (false, now, update_row id terms) t = Kept-refl t.rows
  handle-Kept (true, now, update_row id terms) t = elim (Option-cases (find_live id t.rows)) [
    | inl e ↦ rw (e, handle) (Kept-refl t.rows)
    | inr (r, e) ↦
        rw (e, handle)
          (Kept-trans t.rows (retire now id t.rows) (retire now id t.rows ++ _)
            (Kept-retire now id t.rows) (Kept-append (retire now id t.rows) _))
  ]

  -- Whatever the operators ask for, on any table: no version is erased or rewritten. Each row still
  -- stands in its place with its id, key, terms, version and beginning, and one that was retired is never
  -- live again.
  pub handle_all-Kept :
      (qs : List (Bool × ℕ × Request Key Terms)) (t : Table Key Terms)
      → Kept t.rows (handle_all qs t).rows
  unfolding handle_all
  handle_all-Kept [] t = Kept-refl t.rows
  handle_all-Kept (q ∷ qs) t =
      Kept-trans t.rows (handle q t).rows (handle_all qs (handle q t)).rows (handle-Kept q t)
        (handle_all-Kept qs (handle q t))

  -- Rows whose id is NULL, as those of routing_rules are.
  abbrev pub IsUnnumbered : Table Key Terms → Type 0
  IsUnnumbered t = (t.sequence ≡ none) × All (λ r. r.id ≡ none) t.rows

  find_live-IsUnnumbered :
      (id : ℕ) (rows : List (Row Key Terms))
      → All (λ r. r.id ≡ none) rows
      → find_live id rows ≡ none
  unfolding find_live
  find_live-IsUnnumbered id [] h = refl
  find_live-IsUnnumbered id (r ∷ rows) h = rw h.0 (find_live-IsUnnumbered id rows h.1)

  handle-IsUnnumbered :
      (q : Bool × ℕ × Request Key Terms) (t : Table Key Terms)
      → IsUnnumbered t
      → IsUnnumbered (handle q t)
  unfolding handle create update insert_row
  handle-IsUnnumbered (true, now, create_row key terms) t (s, h) =
      (rw s, All-append (λ r. r.id ≡ none) t.rows _ h (s, tt))
  handle-IsUnnumbered (false, now, create_row key terms) t h = h
  handle-IsUnnumbered (false, now, update_row id terms) t h = h
  handle-IsUnnumbered (true, now, update_row id terms) t h =
      rw (find_live-IsUnnumbered id t.rows h.1, handle) h

  handle_all-IsUnnumbered :
      (qs : List (Bool × ℕ × Request Key Terms)) (t : Table Key Terms)
      → IsUnnumbered t
      → IsUnnumbered (handle_all qs t)
  unfolding handle_all
  handle_all-IsUnnumbered [] t h = h
  handle_all-IsUnnumbered (q ∷ qs) t h =
      handle_all-IsUnnumbered qs (handle q t) (handle-IsUnnumbered q t h)

  -- A table whose ids are NULL, after any requests: every update of it that the database answers is
  -- refused with 404 and changes nothing, whatever id it names.
  pub update_unnumbered :
      (qs : List (Bool × ℕ × Request Key Terms)) (t : Table Key Terms) (now id : ℕ) (terms : Terms)
      → IsUnnumbered t
      → update true now id terms (handle_all qs t) ≡ (handle_all qs t, some not_found)
  unfolding update
  update_unnumbered qs t now id terms h =
      rw (find_live-IsUnnumbered id (handle_all qs t).rows (handle_all-IsUnnumbered qs t h).1) refl
