-- ===== src/Dialect/Subset/Plan.antt =====
-- The message that a builder lays out field by field, and what the loop over the bits reads of it.
use mathlib.Core.Path.{subst}
use mathlib.Core.List.{append_assoc, append-nil}
use iso8583paymentsengine.Base.{
  ℕ, zero, suc, ◌+◌, ◌≤◌, ◌<◌, ◌≡◌, refl, sym, ap, ◌∙◌, Bool, true, false, ◌||◌, List, [], ◌∷◌,
  ◌++◌, ◌==◌, ==_iff, length, All, length-append, arith, Bool-cases, inl, inr,
}
use iso8583paymentsengine.Base.Text.{Bytes}
use iso8583paymentsengine.Canonical.{UniversalPaymentEvent}
use iso8583paymentsengine.Dialect.Fields.{Outcome, ok}
use iso8583paymentsengine.Dialect.Fields.Bits.{}
use iso8583paymentsengine.Dialect.Subset.{Cursor, for_fields}

-- A field that is laid out: its number, its bytes, and what reading it does to the event.
pub record Entry : Type 0 where
  pub field : ℕ
  pub bytes : Bytes
  pub store : UniversalPaymentEvent → UniversalPaymentEvent

abbrev pub Plan : Type 0
Plan = List Entry

abbrev pub payload_of : Plan → Bytes
payload_of [] = []
payload_of (x ∷ p) = x.bytes ++ payload_of p

abbrev pub has_field : ℕ → Plan → Bool
has_field g [] = false
has_field g (x ∷ p) = x.field == g || has_field g p

abbrev pub run : Plan → UniversalPaymentEvent → UniversalPaymentEvent
run [] tx = tx
run (x ∷ p) tx = run p (x.store tx)

abbrev pub Ascending : ℕ → Plan → Type 0
Ascending lo [] = Unit
Ascending lo (x ∷ p) = (lo ≤ x.field) × Ascending (x.field + 1) p

module _ (round : Bytes → ℕ → Cursor → Outcome Cursor) where
  -- The reader takes the entry's bytes wherever they stand, and stores what the entry says.
  abbrev pub Reads : Entry → Type 0
  Reads x =
      (pre rest : Bytes) (tx : UniversalPaymentEvent)
      → round (pre ++ (x.bytes ++ rest)) x.field (tx, length pre)
        ≡ ok (x.store tx, length pre + length x.bytes)

pub has_field-Ascending : (p : Plan) (g lo : ℕ) → Ascending lo p → g < lo → has_field g p ≡ false
has_field-Ascending [] g lo h k = refl
has_field-Ascending (x ∷ p) g lo h k =
    let later : has_field g p ≡ false = has_field-Ascending p g (x.field + 1) h.1 (omega arith) in
    ground arith

module _ (round : Bytes → ℕ → Cursor → Outcome Cursor) (is_set : ℕ → Bool) where
  -- The loop reads the entries one by one, if the set bits are the entries' fields.
  pub for_fields-run :
      (left field : ℕ) (raw pre : Bytes) (p : Plan) (tx : UniversalPaymentEvent)
      → raw ≡ pre ++ payload_of p
      → ((g : ℕ) → field ≤ g → g < field + left → is_set g ≡ has_field g p)
      → Ascending field p
      → All (λ x. x.field < field + left) p
      → All (Reads round) p
      → for_fields is_set (round raw) left field (tx, length pre) ≡ ok (run p tx, length raw)
  unfolding for_fields
  for_fields-run zero field raw pre [] tx e set asc below reads =
      let n : length raw ≡ length pre = ap length (e ∙ append-nil pre) in
      ap (λ m. ok (tx, m)) (sym n)
  for_fields-run zero field raw pre (x ∷ p) tx e set asc below reads =
      absurd (omega (arith, asc.0, below.0))
  for_fields-run (suc left) field raw pre [] tx e set asc below reads =
      let off : is_set field ≡ false = set field (omega arith) (omega arith) in
      rw off (
        for_fields-run left (field + 1) raw pre [] tx e (λ g h k. set g (omega arith) (omega arith))
          tt tt tt)
  for_fields-run (suc left) field raw pre (x ∷ p) tx e set asc below reads =
      let bound : field + suc left ≡ field + 1 + left = omega arith in
      let below' = subst (λ n. All (λ y. y.field < n) (x ∷ p)) bound below in
      elim (Bool-cases (x.field == field)) [
        | inl now ↦
            let at : x.field ≡ field = (==_iff x.field field).0 now in
            let on : is_set field ≡ true =
              set field (omega arith) (omega arith) ∙ ap (λ b. b || has_field field p) now in
            let got : round raw field (tx, length pre) ≡ ok (x.store tx, length (pre ++ x.bytes)) =
              ap (λ r. round r field (tx, length pre)) e
              ∙ (ap (λ k. round (pre ++ (x.bytes ++ payload_of p)) k (tx, length pre)) (sym at)
                  ∙ (reads.0 pre (payload_of p) tx
                      ∙ ap (λ n. ok (x.store tx, n)) (sym (length-append pre x.bytes)))) in
            rw (on, got)
              (for_fields-run left (field + 1) raw (pre ++ x.bytes) p (x.store tx)
                (e ∙ sym (append_assoc pre x.bytes (payload_of p)))
                (λ g h k.
                  let past : (x.field == g) ≡ false = ground (arith, at) in
                  set g (omega arith) (omega arith) ∙ ap (λ b. b || has_field g p) past)
                (subst (λ n. Ascending (n + 1) p) at asc.1) below'.1 reads.1)
        | inr other ↦
            let next : field + 1 ≤ x.field = ground (arith, asc.0) in
            let off : is_set field ≡ false =
              set field (omega arith) (omega arith)
              ∙ has_field-Ascending (x ∷ p) field (field + 1) (next, asc.1) (omega arith) in
            rw off (
              for_fields-run left (field + 1) raw pre (x ∷ p) tx e
                (λ g h k. set g (omega arith) (omega arith)) (next, asc.1) below' reads)
      ]

pub payload_of-append : (p q : Plan) → payload_of (p ++ q) ≡ payload_of p ++ payload_of q
payload_of-append [] q = refl
payload_of-append (x ∷ p) q =
    ap (◌++◌ x.bytes) (payload_of-append p q)
    ∙ sym (append_assoc x.bytes (payload_of p) (payload_of q))

pub run-append : (p q : Plan) (tx : UniversalPaymentEvent) → run (p ++ q) tx ≡ run q (run p tx)
run-append [] q tx = refl
run-append (x ∷ p) q tx = run-append p q (x.store tx)

pub has_field-snoc :
    (p : Plan) (x : Entry) (g : ℕ) → has_field g (p ++ x ∷ []) ≡ (x.field == g || has_field g p)
has_field-snoc [] x g = refl
has_field-snoc (y ∷ p) x g =
    let later : has_field g (p ++ x ∷ []) ≡ (x.field == g || has_field g p) =
      has_field-snoc p x g in
    ground arith

pub Ascending-snoc :
    (lo : ℕ) (p : Plan) (x : Entry)
    → Ascending lo p
    → All (λ y. y.field < x.field) p
    → lo ≤ x.field
    → Ascending lo (p ++ x ∷ [])
Ascending-snoc lo [] x asc below h = (h, tt)
Ascending-snoc lo (y ∷ p) x asc below h =
    (asc.0, Ascending-snoc (y.field + 1) p x asc.1 below.1 (omega (arith, below.0)))

pub Ascending-weaken : (m n : ℕ) (p : Plan) → m ≤ n → Ascending n p → Ascending m p
Ascending-weaken m n [] h a = tt
Ascending-weaken m n (x ∷ p) h a = (omega (arith, a.0), a.1)

pub All-weaken : (m n : ℕ) (p : Plan) → m ≤ n → All (λ x. x.field < m) p → All (λ x. x.field < n) p
All-weaken m n [] h k = tt
All-weaken m n (x ∷ p) h k = (omega (arith, k.0), All-weaken m n p h k.1)
