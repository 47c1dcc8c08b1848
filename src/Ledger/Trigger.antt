-- ===== src/Ledger/Trigger.antt =====
-- `trigger_settlement` of ops-control-plane/src/main.rs, on the table of the ledger.
use iso8583paymentsengine.Base.{ℕ, ◌+◌, Bool, List, [], ◌∷◌, if◌then◌else◌}
use iso8583paymentsengine.Base.Text.{codes, bytes_eq}
use iso8583paymentsengine.Ledger.{LedgerRow}

-- `UPDATE general_ledger SET status = 'settled' WHERE status = 'shadow'`, and the rows it changed.
unfoldable pub settle_rows : List LedgerRow → List LedgerRow × ℕ
settle_rows [] = ([], 0)
settle_rows (r ∷ rows) =
    let (rows', n) = settle_rows rows in
    if bytes_eq r.status (codes "shadow")
    then (record r { status = codes "settled" } ∷ rows', n + 1)
    else (r ∷ rows', n)

-- `trigger_settlement`, by whether the database takes the statement.
unfoldable pub trigger_settlement : Bool → List LedgerRow → List LedgerRow × ℕ
unfolding settle_rows
trigger_settlement db_ok rows = if db_ok then settle_rows rows else (rows, 0)
