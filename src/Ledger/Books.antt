-- ===== src/Ledger/Books.antt =====
-- What the worker of switch-core/src/ledger_worker.rs has booked after any rounds of its loop.
use mathlib.Core.Path.{subst}
use mathlib.Core.List.{append_assoc, append-nil}
use iso8583paymentsengine.Base.{
  ℕ, ◌<◌, ◌≡◌, refl, sym, ap, ◌∙◌, true, some, List, [], ◌∷◌, ◌++◌, All, length, Bool-cases, inl,
  inr, arith,
}
use iso8583paymentsengine.Base.Int.{ℤ}
use iso8583paymentsengine.Base.Dict.{Dict}
use iso8583paymentsengine.Canonical.{UniversalPaymentEvent}
use iso8583paymentsengine.Ledger.{
  FeeRule, AccountMapping, LedgerRow, Received, received, timeout, disconnected, Worker, Round,
  running, stopped, panicked, book, Surroundings, write_rows, is_due, flush, round, rounds,
}

abbrev pub heard : Received → List UniversalPaymentEvent
heard (received tx) = tx ∷ []
heard timeout = []
heard disconnected = []

abbrev pub IsOpen : Received → Type 0
IsOpen disconnected = ⊥
IsOpen _ = Unit

module _ (F : Type 0) (percentage : ℕ → F → ℤ) (fees : Dict (FeeRule F))
    (coa : Dict AccountMapping) where
  -- The rows of the events, one for each and in their order.
  abbrev pub Booked : List UniversalPaymentEvent → List LedgerRow → Type 0
  Booked [] [] = Unit
  Booked (tx ∷ txs) (r ∷ rs) = (book F percentage fees coa tx ≡ some r) × Booked txs rs
  Booked _ _ = ⊥

  -- The switch has not gone, the caches are these, and the database takes everything.
  abbrev pub Sound : Surroundings F percentage → Type 0
  Sound p =
      IsOpen p.recv
      × (p.fee_cache ≡ fees)
      × (p.coa_cache ≡ coa)
      × (p.begins ≡ true)
      × (p.prepares ≡ true)
      × (p.commits ≡ true)
      × ((r : LedgerRow) → p.inserts r ≡ true)

  abbrev pub messages : List (Surroundings F percentage) → List UniversalPaymentEvent
  messages [] = []
  messages (p ∷ ps) = heard p.recv ++ messages ps

  -- The worker goes on. The first of the rows are in the table, behind what was there; the others are
  -- those of its buffer, which is short.
  abbrev pub AtWork : List LedgerRow → List LedgerRow → Round → Type 0
  AtWork table rows (running w table') =
      (done : List LedgerRow) × (rest : List LedgerRow) × (rows ≡ done ++ rest)
      × (table' ≡ table ++ done)
      × Booked w.batch_buffer rest
      × (length w.batch_buffer < 1000)
  AtWork table rows (stopped _) = ⊥
  AtWork table rows (panicked _) = ⊥

  Booked-append :
      (es fs : List UniversalPaymentEvent) (rs bs : List LedgerRow)
      → Booked es rs
      → Booked fs bs
      → Booked (es ++ fs) (rs ++ bs)
  Booked-append [] fs [] bs h k = k
  Booked-append [] fs (a ∷ rs) bs h k = absurd h
  Booked-append (e ∷ es) fs [] bs h k = absurd h
  Booked-append (e ∷ es) fs (a ∷ rs) bs h k = (h.0, Booked-append es fs rs bs h.1 k)

  write_rows-Booked :
      (p : Surroundings F percentage) (es : List UniversalPaymentEvent) (rs : List LedgerRow)
      → Sound p
      → Booked es rs
      → write_rows F percentage p es ≡ some rs
  unfolding write_rows
  write_rows-Booked p [] [] s h = refl
  write_rows-Booked p [] (r ∷ rs) s h = absurd h
  write_rows-Booked p (e ∷ es) [] s h = absurd h
  write_rows-Booked p (e ∷ es) (r ∷ rs) s h =
      let (_, fee, acc, _, _, _, takes) = s in
      let ih = write_rows-Booked p es rs s h.1 in
      let row : book F percentage p.fee_cache p.coa_cache e ≡ some r =
        ap (λ f. book F percentage f p.coa_cache e) fee
        ∙ (ap (λ c. book F percentage fees c e) acc ∙ h.0) in
      rw (row, ih, takes r) refl

  flush-AtWork :
      (p : Surroundings F percentage) (w : Worker) (table rows : List LedgerRow)
      → Sound p
      → Booked w.batch_buffer rows
      → AtWork table rows (flush F percentage p w table)
  unfolding flush
  flush-AtWork p w table rows s h = elim (Bool-cases (is_due F percentage p.now w)) [
    | inl due ↦
        let (_, _, _, begun, prepared, done, _) = s in
        let written = write_rows-Booked p w.batch_buffer rows s h in
        rw (due, begun, prepared, written, done)
          (rows, [], sym (append-nil rows), refl, tt, ground arith)
    | inr early ↦ rw early ([], rows, refl, sym (append-nil table), h, ground (arith, early))
  ]

  heard_by :
      (p : Surroundings F percentage) (w : Worker) (table : List LedgerRow) (v : Received)
      → p.recv ≡ v
      → round F percentage p w table ≡ elim v [
        | received tx ↦
            flush F percentage p (record w { batch_buffer = w.batch_buffer ++ (tx ∷ []) }) table
        | timeout ↦ flush F percentage p w table
        | disconnected ↦ stopped table
      ]
  unfolding round
  heard_by p w table v e =
      ap
        (λ (u : Received). elim u [
          | received tx ↦
              flush F percentage p (record w { batch_buffer = w.batch_buffer ++ (tx ∷ []) }) table
          | timeout ↦ flush F percentage p w table
          | disconnected ↦ stopped table
        ])
        e

  -- More rounds of a worker that goes on.
  AtWork-trans :
      (table rows more : List LedgerRow) (w : Worker) (done rest : List LedgerRow) (r : Round)
      → rows ≡ done ++ rest
      → AtWork (table ++ done) (rest ++ more) r
      → AtWork table (rows ++ more) r
  AtWork-trans table rows more w done rest (running w' table') e (d, k, split, at, booked, short) =
      (
        done ++ d,
        k,
        ap (λ l. l ++ more) e
            ∙ (append_assoc done rest more ∙ (ap (◌++◌ done) split ∙ sym (append_assoc done d k))),
        at ∙ append_assoc table done d,
        booked,
        short,
      )
  AtWork-trans table rows more w done rest (stopped _) e h = absurd h
  AtWork-trans table rows more w done rest (panicked _) e h = absurd h

  round-AtWork :
      (p : Surroundings F percentage) (w : Worker) (table rows more : List LedgerRow) (v : Received)
      → Sound p
      → p.recv ≡ v
      → Booked w.batch_buffer rows
      → Booked (heard v) more
      → AtWork table (rows ++ more) (round F percentage p w table)
  round-AtWork p w table rows more (received tx) s e h k = rw (heard_by p w table (received tx) e) (
      flush-AtWork p (record w { batch_buffer = w.batch_buffer ++ (tx ∷ []) }) table (rows ++ more)
        s (Booked-append w.batch_buffer (tx ∷ []) rows more h k))
  round-AtWork p w table rows [] timeout s e h k =
      rw (heard_by p w table timeout e, append-nil rows) (flush-AtWork p w table rows s h)
  round-AtWork p w table rows (r ∷ more) timeout s e h k = absurd k
  round-AtWork p w table rows more disconnected s e h k = absurd (subst IsOpen e s.0)

  Booked-split :
      (es fs : List UniversalPaymentEvent) (rs : List LedgerRow)
      → Booked (es ++ fs) rs
      → (a : List LedgerRow) × (b : List LedgerRow) × (rs ≡ a ++ b) × Booked es a × Booked fs b
  Booked-split [] fs rs h = ([], rs, refl, tt, h)
  Booked-split (e ∷ es) fs [] h = absurd h
  Booked-split (e ∷ es) fs (r ∷ rs) h =
      let (a, b, split, left, right) = Booked-split es fs rs h.1 in
      (r ∷ a, b, ap (◌∷◌ r) split, (h.0, left), right)

  rounds-AtWork :
      (ps : List (Surroundings F percentage)) (table rows more : List LedgerRow) (r : Round)
      → All Sound ps
      → AtWork table rows r
      → Booked (messages ps) more
      → AtWork table (rows ++ more) (rounds F percentage ps r)
  unfolding rounds
  rounds-AtWork [] table rows [] r s at h = rw (append-nil rows) at
  rounds-AtWork [] table rows (m ∷ more) r s at h = absurd h
  rounds-AtWork (p ∷ ps) table rows more (running w table') s
        (done, rest, split, where_at, booked, short) h =
      let (a, b, e, left, right) = Booked-split (heard p.recv) (messages ps) more h in
      let one = round-AtWork p w table' rest a p.recv s.0 refl booked left in
      let all : AtWork table' ((rest ++ a) ++ b)
          (rounds F percentage ps (round F percentage p w table')) =
        rounds-AtWork ps table' (rest ++ a) b (round F percentage p w table') s.1 one right in
      let next = rounds F percentage ps (round F percentage p w table') in
      let rows_at : (rest ++ a) ++ b ≡ rest ++ more =
        append_assoc rest a b ∙ ap (◌++◌ rest) (sym e) in
      AtWork-trans table rows more w done rest next split (
        subst (λ l. AtWork l (rest ++ more) next) where_at
          (subst (λ l. AtWork table' l next) rows_at all))
  rounds-AtWork (p ∷ ps) table rows more (stopped _) s at h = absurd at
  rounds-AtWork (p ∷ ps) table rows more (panicked _) s at h = absurd at

  -- The caches stay the same, the switch does not go, no event panics, and the database takes
  -- everything. Then after any rounds, whatever they receive and whenever, the worker goes on, each event
  -- that it has been sent is booked exactly once and in order, in the table or at the next commit, and
  -- less than 1000 events wait for that one.
  pub rounds-books :
      (ps : List (Surroundings F percentage)) (w : Worker) (table rows : List LedgerRow)
      → All Sound ps
      → length w.batch_buffer < 1000
      → Booked (w.batch_buffer ++ messages ps) rows
      → AtWork table rows (rounds F percentage ps (running w table))
  rounds-books ps w table rows s short h =
      let (a, b, e, left, right) = Booked-split w.batch_buffer (messages ps) rows h in
      rw e (
        rounds-AtWork ps table a b (running w table) s
          ([], a, refl, sym (append-nil table), left, short) right)
