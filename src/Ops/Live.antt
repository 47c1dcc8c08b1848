-- ===== src/Ops/Live.antt =====
-- The live rows of the versioned tables of ops-control-plane/src/main.rs.
use iso8583paymentsengine.Base.{
  ℕ, suc, ◌+◌, ◌≤◌, ◌<◌, ◌≡◌, refl, ap, ◌∙◌, Bool, ◌&&◌, true, false, Option, none, some, List, [],
  ◌∷◌, ◌++◌, if◌then◌else◌, if_cases, Bool-cases, Option-cases, inl, inr, arith,
}
use iso8583paymentsengine.Base.Int.{ℤ, pos}
use iso8583paymentsengine.Ops.Table.{
  Row, Table, next_version, has_id, find_live, retire, insert_row, create, update, Request,
  create_row, update_row, handle, handle_all,
}

module _ {Key Terms : Type 0} where
  -- The ids are numbers below a bound, each above the one before it.
  abbrev pub IsNumbered : ℕ → ℕ → List (Row Key Terms) → Type 0
  IsNumbered lo hi [] = lo ≤ hi
  IsNumbered lo hi (r ∷ rows) = (i : ℕ) × (r.id ≡ some i) × (lo ≤ i) × IsNumbered (suc i) hi rows

  abbrev pub IsTable : Table Key Terms → Type 0
  IsTable t = (n : ℕ) × (t.sequence ≡ some n) × IsNumbered 0 n t.rows

  -- The live rows whose keys pass the test.
  abbrev pub live_count : (Key → Bool) → List (Row Key Terms) → ℕ
  live_count f [] = 0
  live_count f (r ∷ rows) = (if r.is_live && f r.key then 1 else 0) + live_count f rows

  IsNumbered-le : (lo hi : ℕ) (rows : List (Row Key Terms)) → IsNumbered lo hi rows → lo ≤ hi
  IsNumbered-le lo hi [] h = h
  IsNumbered-le lo hi (r ∷ rows) h = omega (arith, h.2, IsNumbered-le (suc h.0) hi rows h.3)

  IsNumbered-snoc :
      (lo n : ℕ) (rows : List (Row Key Terms)) (r : Row Key Terms)
      → IsNumbered lo n rows
      → r.id ≡ some n
      → IsNumbered lo (n + 1) (rows ++ r ∷ [])
  IsNumbered-snoc lo n [] r h e = (n, e, h, omega arith)
  IsNumbered-snoc lo n (q ∷ rows) r h e = (h.0, h.1, h.2, IsNumbered-snoc (suc h.0) n rows r h.3 e)

  id-retire :
      (now id : ℕ) (r : Row Key Terms)
      → (if has_id id r then record r { is_live = false; valid_to = some now } else r).id ≡ r.id
  id-retire now id r =
      if_cases (λ (q : Row Key Terms). q.id ≡ r.id) (has_id id r) (λ _. refl) (λ _. refl)

  retire-IsNumbered :
      (now id lo hi : ℕ) (rows : List (Row Key Terms))
      → IsNumbered lo hi rows
      → IsNumbered lo hi (retire now id rows)
  unfolding retire
  retire-IsNumbered now id lo hi [] h = h
  retire-IsNumbered now id lo hi (r ∷ rows) h =
      (h.0, id-retire now id r ∙ h.1, h.2, retire-IsNumbered now id (suc h.0) hi rows h.3)

  -- An id below those of the rows is none of theirs.
  retire-below :
      (f : Key → Bool) (now id lo hi : ℕ) (rows : List (Row Key Terms))
      → IsNumbered lo hi rows
      → id < lo
      → live_count f (retire now id rows) ≡ live_count f rows
  unfolding retire
  retire-below f now id lo hi [] h k = refl
  retire-below f now id lo hi (r ∷ rows) h k =
      let off : has_id id r ≡ false = rw h.1 (ground (arith, h.2)) in
      rw off (
        ap (λ n. (if r.is_live && f r.key then 1 else 0) + n)
          (retire-below f now id (suc h.0) hi rows h.3 (omega (arith, h.2))))

  find_live-below :
      (id lo hi : ℕ) (rows : List (Row Key Terms))
      → IsNumbered lo hi rows
      → id < lo
      → find_live id rows ≡ none
  unfolding find_live
  find_live-below id lo hi [] h k = refl
  find_live-below id lo hi (r ∷ rows) h k =
      let off : has_id id r ≡ false = rw h.1 (ground (arith, h.2)) in
      rw off (find_live-below id (suc h.0) hi rows h.3 (omega (arith, h.2)))

  -- Retiring a live row takes exactly one from the live rows of its key, and none from the others.
  live_count-retire :
      (f : Key → Bool) (now id lo hi : ℕ) (rows : List (Row Key Terms)) (q : Row Key Terms)
      → IsNumbered lo hi rows
      → find_live id rows ≡ some q
      → live_count f (retire now id rows) + (if f q.key then 1 else 0) ≡ live_count f rows
  unfolding retire find_live
  live_count-retire f now id lo hi [] q h e = cc
  live_count-retire f now id lo hi (r ∷ rows) q h e = elim (Bool-cases (has_id id r)) [
    | inl own ↦
        let at : id ≡ h.0 = ground (arith, h.1, own) in
        let rest : live_count f (retire now id rows) ≡ live_count f rows =
          retire-below f now id (suc h.0) hi rows h.3 (omega (arith, at)) in
        let gone : find_live id rows ≡ none =
          find_live-below id (suc h.0) hi rows h.3 (omega (arith, at)) in
        elim (Bool-cases r.is_live) [
          | inl alive ↦
              let same : r.key ≡ q.key =
                ap (λ (o : Option (Row Key Terms)). elim o [ none ↦ r.key | some x ↦ x.key ])
                  (rw (own, alive) at e) in
              rw (own, alive, ← same) (omega (arith, rest))
          | inr dead ↦ ground (arith, gone)
        ]
    | inr other ↦
        let later : live_count f (retire now id rows) + (if f q.key then 1 else 0)
            ≡ live_count f rows =
          live_count-retire f now id (suc h.0) hi rows q h.3 (rw other at e) in
        rw other (omega (arith, later))
  ]

  live_count-snoc :
      (f : Key → Bool) (rows : List (Row Key Terms)) (r : Row Key Terms)
      → r.is_live ≡ true
      → live_count f (rows ++ r ∷ []) ≡ live_count f rows + (if f r.key then 1 else 0)
  live_count-snoc f [] r e = rw e (omega arith)
  live_count-snoc f (q ∷ rows) r e = omega (arith, live_count-snoc f rows r e)

  -- The rows that a request adds to the live ones with such a key.
  abbrev creation : (Key → Bool) → Bool × ℕ × Request Key Terms → ℕ
  creation f (db_ok, _, create_row key _) = if db_ok && f key then 1 else 0
  creation f (_, _, update_row _ _) = 0

  abbrev pub creations : (Key → Bool) → List (Bool × ℕ × Request Key Terms) → ℕ
  creations f [] = 0
  creations f (q ∷ qs) = creation f q + creations f qs

  insert_row-IsTable :
      (now : ℕ) (key : Key) (terms : Terms) (version : ℤ) (t : Table Key Terms)
      → IsTable t
      → IsTable (insert_row now key terms version t)
  unfolding insert_row
  insert_row-IsTable now key terms version t (n, s, h) =
      (n + 1, rw s, IsNumbered-snoc 0 n t.rows _ h s)

  live_count-insert_row :
      (f : Key → Bool) (now : ℕ) (key : Key) (terms : Terms) (version : ℤ) (t : Table Key Terms)
      → live_count f (insert_row now key terms version t).rows
        ≡ live_count f t.rows + (if f key then 1 else 0)
  unfolding insert_row
  live_count-insert_row f now key terms version t = live_count-snoc f t.rows _ refl

  update-IsTable :
      (f : Key → Bool) (db_ok : Bool) (now id : ℕ) (terms : Terms) (t : Table Key Terms)
      → IsTable t
      → IsTable (update db_ok now id terms t).0
        × (live_count f (update db_ok now id terms t).0.rows ≡ live_count f t.rows)
  unfolding update
  update-IsTable f false now id terms t h = (h, refl)
  update-IsTable f true now id terms t h = elim (Option-cases (find_live id t.rows)) [
    | inl e ↦ rw e (h, refl)
    | inr (r, e) ↦
        let retired : Table Key Terms = record t { rows = retire now id t.rows } in
        let kept : IsTable retired = (h.0, h.1, retire-IsNumbered now id 0 h.0 t.rows h.2) in
        rw e (
          insert_row-IsTable now r.key terms (next_version r.version) retired kept,
          live_count-insert_row f now r.key terms (next_version r.version) retired
              ∙ live_count-retire f now id 0 h.0 t.rows r h.2 e,
        )
  ]

  handle-IsTable :
      (f : Key → Bool) (q : Bool × ℕ × Request Key Terms) (t : Table Key Terms)
      → IsTable t
      → IsTable (handle q t) × (live_count f (handle q t).rows ≡ live_count f t.rows + creation f q)
  unfolding handle create
  handle-IsTable f (true, now, create_row key terms) t h = (
    insert_row-IsTable now key terms (pos 1) t h,
    live_count-insert_row f now key terms (pos 1) t,
  )
  handle-IsTable f (false, now, create_row key terms) t h = (h, omega arith)
  handle-IsTable f (b, now, update_row id terms) t h =
      let u = update-IsTable f b now id terms t h in (u.0, omega (arith, u.1))

  -- Whatever the operators ask for, on a table with an AUTOINCREMENT column that starts with distinct ids
  -- in order: the ids stay distinct and in order; and for every test on keys, the live rows whose keys
  -- pass it are as many as before and one more for each creation with such a key that the database
  -- answered. So an update leaves as many live rows of each key as there were.
  pub handle_all-IsTable :
      (f : Key → Bool) (qs : List (Bool × ℕ × Request Key Terms)) (t : Table Key Terms)
      → IsTable t
      → IsTable (handle_all qs t)
        × (live_count f (handle_all qs t).rows ≡ live_count f t.rows + creations f qs)
  unfolding handle_all
  handle_all-IsTable f [] t h = (h, omega arith)
  handle_all-IsTable f (q ∷ qs) t h =
      let (kept, one) = handle-IsTable f q t h in
      let (kept', more) = handle_all-IsTable f qs (handle q t) kept in
      (kept', omega (arith, one, more))
