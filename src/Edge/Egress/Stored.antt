-- ===== src/Edge/Egress/Stored.antt =====
-- The store of edge-egress/src/client.rs: which advices are in it, and which leave it.
use mathlib.Core.Option.{some-injective}
use iso8583paymentsengine.Base.{
  ◌≡◌, refl, sym, ap, ◌∙◌, Bool, true, false, Option, none, some, List, [], ◌∷◌, ◌++◌, ◌⊎◌,
  if◌then◌else◌, if_cases, option_cases, Bool-cases, All, inl, inr, arith,
}
use iso8583paymentsengine.Base.Text.{Bytes, bytes_eq, bytes_eq_iff, bytes_eq_self}
use iso8583paymentsengine.Base.Dict.{Dict, lookup, remove, IsDict}
use iso8583paymentsengine.Canonical.{Transaction}
use iso8583paymentsengine.Edge.Egress.{
  UpstreamClient, row_frame, is_delivered, flush_rows, remove_keys, saf_flush,
}

-- A frame that is among those sent.
abbrev pub IsSent : Bytes → List Bytes → Type 0
IsSent frame [] = ⊥
IsSent frame (f ∷ sent) = (frame ≡ f) ⊎ IsSent frame sent

pub IsSent-append_left : (frame : Bytes) (a b : List Bytes) → IsSent frame a → IsSent frame (a ++ b)
IsSent-append_left frame [] b h = absurd h
IsSent-append_left frame (f ∷ a) b (inl e) = inl e
IsSent-append_left frame (f ∷ a) b (inr h) = inr (IsSent-append_left frame a b h)

pub IsSent-append_right :
    (frame : Bytes) (a b : List Bytes) → IsSent frame b → IsSent frame (a ++ b)
IsSent-append_right frame [] b h = h
IsSent-append_right frame (f ∷ a) b h = inr (IsSent-append_right frame a b h)

module _ (decode : Bytes → Option Transaction) (writes : Bytes → Bool) where
  -- The rows that a sweep cannot deliver.
  abbrev pub undelivered : Dict Bytes → Dict Bytes
  undelivered [] = []
  undelivered (row ∷ rows) =
      if is_delivered decode writes row then undelivered rows else row ∷ undelivered rows

  -- The frames of the others.
  abbrev pub frames_of : Dict Bytes → List Bytes
  frames_of [] = []
  frames_of ((key, val) ∷ rows) = elim (row_frame decode val) [
    | none ↦ frames_of rows
    | some frame ↦ if writes key then frame ∷ frames_of rows else frames_of rows
  ]

  flush_rows-apart :
      (k : Bytes) (rows : Dict Bytes)
      → lookup k rows ≡ none
      → All (λ j. bytes_eq j k ≡ false) (flush_rows decode writes rows).0
  unfolding flush_rows lookup
  flush_rows-apart k [] h = tt
  flush_rows-apart k ((j, val) ∷ rows) h =
      let P : List Bytes × List Bytes → Type 0 = λ r. All (λ i. bytes_eq i k ≡ false) r.0 in
      let other : bytes_eq j k ≡ false = ground (arith, bytes_eq_iff j k, bytes_eq_iff k j) in
      let here : bytes_eq k j ≡ false = ground (arith, bytes_eq_iff j k, bytes_eq_iff k j) in
      let ih = flush_rows-apart k rows (rw here at h) in
      option_cases P (row_frame decode val) (λ _. ih)
        (λ frame _. if_cases P (writes j) (λ _. (other, ih)) (λ _. ih))

  remove_keys-cons :
      (ks : List Bytes) (k val : Bytes) (rows : Dict Bytes)
      → All (λ j. bytes_eq j k ≡ false) ks
      → remove_keys ks ((k, val) ∷ rows) ≡ (k, val) ∷ remove_keys ks rows
  unfolding remove_keys remove
  remove_keys-cons [] k val rows h = refl
  remove_keys-cons (j ∷ ks) k val rows h = rw h.0 (remove_keys-cons ks k val (remove j rows) h.1)

  remove_head : (k val : Bytes) (rows : Dict Bytes) → remove k ((k, val) ∷ rows) ≡ rows
  unfolding remove
  remove_head k val rows = rw (bytes_eq_self k) refl

  -- One row, by what its frame and its write come to.
  flush_row-lem :
      (k val : Bytes) (rows : Dict Bytes) (keys frames : List Bytes)
      → remove_keys keys ((k, val) ∷ rows) ≡ (k, val) ∷ undelivered rows
      → remove_keys keys (remove k ((k, val) ∷ rows)) ≡ undelivered rows
      → frames ≡ frames_of rows
      → (o : Option Bytes)
      → (let r : List Bytes × List Bytes = elim o [
        | none ↦ (keys, frames)
        | some frame ↦ if writes k then (k ∷ keys, frame ∷ frames) else (keys, frames)
      ] in
          (remove_keys r.0 ((k, val) ∷ rows) ≡ (
            if elim o [ none ↦ false | some _ ↦ writes k ]
            then undelivered rows
            else (k, val) ∷ undelivered rows))
          × (r.1 ≡ elim o [
            | none ↦ frames_of rows
            | some frame ↦ if writes k then frame ∷ frames_of rows else frames_of rows
          ]))
  unfolding remove_keys
  flush_row-lem k val rows keys frames kept gone same none = (kept, same)
  flush_row-lem k val rows keys frames kept gone same (some frame) = elim (Bool-cases (writes k)) [
    | inl w ↦ rw w (gone, ap (◌∷◌ frame) same)
    | inr w ↦ rw w (kept, same)
  ]

  flush_rows-lem :
      (rows : Dict Bytes)
      → IsDict rows
      → (remove_keys (flush_rows decode writes rows).0 rows ≡ undelivered rows)
        × ((flush_rows decode writes rows).1 ≡ frames_of rows)
  unfolding flush_rows remove_keys remove
  flush_rows-lem [] d = (refl, refl)
  flush_rows-lem ((k, val) ∷ rows) d =
      let ih = flush_rows-lem rows d.1 in
      let apart = flush_rows-apart k rows d.0 in
      let keys = (flush_rows decode writes rows).0 in
      let kept : remove_keys keys ((k, val) ∷ rows) ≡ (k, val) ∷ undelivered rows =
        remove_keys-cons keys k val rows apart ∙ ap (◌∷◌ (k, val)) ih.0 in
      let gone : remove_keys keys (remove k ((k, val) ∷ rows)) ≡ undelivered rows =
        ap (remove_keys keys) (remove_head k val rows) ∙ ih.0 in
      flush_row-lem k val rows keys (flush_rows decode writes rows).1 kept gone ih.1
        (row_frame decode val)

  pub undelivered-none :
      (k : Bytes) (rows : Dict Bytes) → lookup k rows ≡ none → lookup k (undelivered rows) ≡ none
  unfolding lookup
  undelivered-none k [] h = refl
  undelivered-none k ((j, val) ∷ rows) h =
      let off : bytes_eq k j ≡ false = ground (arith, bytes_eq_iff k j) in
      let ih = undelivered-none k rows (rw off at h) in
      if_cases (λ (d : Dict Bytes). lookup k d ≡ none) (is_delivered decode writes (j, val))
        (λ _. ih) (λ _. rw off ih)

  pub undelivered-IsDict : (rows : Dict Bytes) → IsDict rows → IsDict (undelivered rows)
  undelivered-IsDict [] d = tt
  undelivered-IsDict ((k, val) ∷ rows) d =
      let ih = undelivered-IsDict rows d.1 in
      if_cases (λ (e : Dict Bytes). IsDict e) (is_delivered decode writes (k, val)) (λ _. ih)
        (λ _. (undelivered-none k rows d.0, ih))

  -- A row leaves the store exactly if it is delivered.
  pub lookup-undelivered :
      (k val : Bytes) (rows : Dict Bytes)
      → IsDict rows
      → lookup k rows ≡ some val
      → lookup k (undelivered rows)
        ≡ (if is_delivered decode writes (k, val) then none else some val)
  unfolding lookup
  lookup-undelivered k val [] d h = cc
  lookup-undelivered k val ((j, v) ∷ rows) d h = elim (Bool-cases (bytes_eq k j)) [
    | inl e ↦
        let key : k ≡ j = (bytes_eq_iff k j).0 e in
        let same : v ≡ val = ground (arith, e) in
        let one : is_delivered decode writes (j, v) ≡ is_delivered decode writes (k, val) =
          ap (λ i. is_delivered decode writes (i, v)) (sym key)
          ∙ ap (λ x. is_delivered decode writes (k, x)) same in
        let answer : Bool → Option Bytes = λ b. if b then none else some val in
        if_cases (λ (u : Dict Bytes). lookup k u ≡ answer (is_delivered decode writes (k, val)))
          (is_delivered decode writes (j, v))
          (λ gone.
            undelivered-none k rows (ap (λ i. lookup i rows) key ∙ d.0)
            ∙ ap answer (sym (sym one ∙ gone)))
          (λ kept. rw e (ap some same ∙ ap answer (sym (sym one ∙ kept))))
    | inr e ↦
        let ih = lookup-undelivered k val rows d.1 (rw e at h) in
        if_cases
          (λ (u : Dict Bytes).
            lookup k u ≡ (if is_delivered decode writes (k, val) then none else some val))
          (is_delivered decode writes (j, v)) (λ _. ih) (λ _. rw e ih)
  ]

  pub frames_of-IsSent :
      (k val frame : Bytes) (rows : Dict Bytes)
      → lookup k rows ≡ some val
      → row_frame decode val ≡ some frame
      → writes k ≡ true
      → IsSent frame (frames_of rows)
  unfolding lookup
  frames_of-IsSent k val frame [] h f w = cc
  frames_of-IsSent k val frame ((j, v) ∷ rows) h f w = elim (Bool-cases (bytes_eq k j)) [
    | inl e ↦
        let key : k ≡ j = (bytes_eq_iff k j).0 e in
        let same : v ≡ val = ground (arith, e) in
        let wj : writes j ≡ true = ap writes (sym key) ∙ w in
        let fv : row_frame decode v ≡ some frame = ap (row_frame decode) same ∙ f in
        option_cases (λ (l : List Bytes). IsSent frame l) (row_frame decode v) (λ no. cc (no, fv))
          (λ g is.
            if_cases (λ (l : List Bytes). IsSent frame l) (writes j)
              (λ _. inl (some-injective _ _ (sym fv ∙ is))) (λ no. cc (no, wj)))
    | inr e ↦
        let ih = frames_of-IsSent k val frame rows (rw e at h) f w in
        option_cases (λ (l : List Bytes). IsSent frame l) (row_frame decode v) (λ _. ih)
          (λ g _. if_cases (λ (l : List Bytes). IsSent frame l) (writes j) (λ _. inr ih) (λ _. ih))
  ]

  -- One sweep, on a store that lists no key twice: without a connection nothing changes. With one, the
  -- frames of the rows that can be read and whose writes succeed are sent, in order, and exactly the other
  -- rows are left in the store.
  pub saf_flush-undelivered :
      (connects : Bool) (c : UpstreamClient) (db : Dict Bytes)
      → IsDict db
      → saf_flush decode connects writes (c, db) ≡ (
          if connects
          then (record c { sent = c.sent ++ frames_of db }, undelivered db)
          else (c, db))
  unfolding saf_flush
  saf_flush-undelivered true c db d =
      let (rest, sent) = flush_rows-lem db d in
      ap
        (λ (l : List Bytes).
          (record c { sent = c.sent ++ l }, remove_keys (flush_rows decode writes db).0 db))
        sent
      ∙ ap (λ (e : Dict Bytes). (record c { sent = c.sent ++ frames_of db }, e)) rest
  saf_flush-undelivered false c db d = refl
