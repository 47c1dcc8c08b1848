-- ===== src/Ledger/Polls.antt =====
-- The polls of switch-core/src/ledger_worker.rs, which fill its two caches.
use iso8583paymentsengine.Base.{Option, none, some, List, [], ◌∷◌}
use iso8583paymentsengine.Base.Text.{Bytes, codes}
use iso8583paymentsengine.Base.Dict.{Dict, insert}
use iso8583paymentsengine.Ledger.{FeeRule, AccountMapping}

module _ (F : Type 0) where
  -- A row of the fee matrix that can be read: its MCC, its BIN and its rule.
  pub record FeeRow : Type 0 where
    pub mcc : Option Bytes
    pub bin_prefix : Option Bytes
    pub rule : FeeRule F

  unfoldable pub fee_key : FeeRow → Bytes
  fee_key row = elim row.mcc [
    | some m ↦ m
    | none ↦ elim row.bin_prefix [ some b ↦ b | none ↦ codes "DEFAULT" ]
  ]

  -- A poll of the fee matrix: `none` is a row that cannot be read.
  unfoldable pub poll_fees : List (Option FeeRow) → Dict (FeeRule F) → Dict (FeeRule F)
  unfolding fee_key
  poll_fees [] cache = cache
  poll_fees (none ∷ rows) cache = poll_fees rows cache
  poll_fees (some row ∷ rows) cache = poll_fees rows (insert (fee_key row) row.rule cache)

-- A poll of the chart of accounts.
unfoldable pub poll_accounts :
    List (Option (Bytes × AccountMapping)) → Dict AccountMapping → Dict AccountMapping
poll_accounts [] cache = cache
poll_accounts (none ∷ rows) cache = poll_accounts rows cache
poll_accounts (some (inst, mapping) ∷ rows) cache = poll_accounts rows (insert inst mapping cache)
