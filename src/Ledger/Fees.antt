-- ===== src/Ledger/Fees.antt =====
-- The polls of switch-core/src/ledger_worker.rs: what its caches hold after one.
use iso8583paymentsengine.Base.{
  ◌≡◌, refl, ap, ◌∙◌, Option, none, some, List, [], ◌∷◌, if◌then◌else◌,
}
use iso8583paymentsengine.Base.Text.{Bytes, bytes_eq}
use iso8583paymentsengine.Base.Dict.{Dict, lookup, insert, later, later_assoc, lookup-insert-later}
use iso8583paymentsengine.Ledger.{FeeRule}
use iso8583paymentsengine.Ledger.Polls.{FeeRow, fee_key, poll_fees}

module _ (F : Type 0) where
  -- The rule of the last readable row that is filed under the key.
  abbrev pub last_fee : List (Option (FeeRow F)) → Bytes → Option (FeeRule F)
  last_fee [] key = none
  last_fee (none ∷ rows) key = last_fee rows key
  last_fee (some row ∷ rows) key =
      later (last_fee rows key) (if bytes_eq key (fee_key F row) then some row.rule else none)

  -- After a poll a key has the rule of the last readable row that is filed under it, and the rule that
  -- it had before where there is no such row: no rule ever leaves the cache, also not one that the matrix
  -- no longer has.
  pub lookup-poll_fees :
      (key : Bytes) (rows : List (Option (FeeRow F))) (cache : Dict (FeeRule F))
      → lookup key (poll_fees F rows cache) ≡ later (last_fee rows key) (lookup key cache)
  unfolding poll_fees
  lookup-poll_fees key [] cache = refl
  lookup-poll_fees key (none ∷ rows) cache = lookup-poll_fees key rows cache
  lookup-poll_fees key (some row ∷ rows) cache =
      let k = fee_key F row in
      lookup-poll_fees key rows (insert k row.rule cache)
      ∙ (ap (later (last_fee rows key)) (lookup-insert-later key k row.rule cache)
          ∙ later_assoc (last_fee rows key) (if bytes_eq key k then some row.rule else none)
              (lookup key cache))
