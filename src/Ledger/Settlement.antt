-- ===== src/Ledger/Settlement.antt =====
-- What the settlement of ops-control-plane/src/main.rs makes of the rows that
-- switch-core/src/ledger_worker.rs books for a sale and for its reversal.
use mathlib.Core.List.{map-append}
use iso8583paymentsengine.Base.{
  ℕ, ◌+◌, ◌-◌, ◌^◌, ◌<◌, ◌≡◌, ◌≢◌, refl, ap, ◌∙◌, Bool, true, false, Option, none, some, List, [],
  ◌∷◌, ◌++◌, map, if◌then◌else◌, ◌>>=◌, if_cases, arith,
}
use iso8583paymentsengine.Base.Int.{ℤ, pos, negsuc, ◌+ℤ◌, as_i64, as_i64_small}
use iso8583paymentsengine.Base.Text.{Bytes, codes, bytes_eq}
use iso8583paymentsengine.Base.Utf8.{from_utf8_lossy}
use iso8583paymentsengine.Base.Dict.{Dict}
use iso8583paymentsengine.Canonical.{UniversalPaymentEvent}
use iso8583paymentsengine.Ledger.{
  FeeRule, AccountMapping, LedgerRow, neg_i64, interchange_fee, fee_rule, mask_pan, routing_bin_of,
  row_of, book,
}
use iso8583paymentsengine.Ledger.Trigger.{settle_rows, trigger_settlement}
use iso8583paymentsengine.Ledger.Offset.{IsI64, wrap_i64-IsI64, neg_i64-offsets, bind_map, bind_inv}

abbrev pub is_shadow : LedgerRow → Bool
is_shadow r = bytes_eq r.status (codes "shadow")

abbrev pub settled : LedgerRow → LedgerRow
settled r = if is_shadow r then record r { status = codes "settled" } else r

abbrev pub shadows : List LedgerRow → ℕ
shadows [] = 0
shadows (r ∷ rows) = if is_shadow r then shadows rows + 1 else shadows rows

settle_rows_lem : (rows : List LedgerRow) → settle_rows rows ≡ (map settled rows, shadows rows)
unfolding settle_rows
settle_rows_lem [] = refl
settle_rows_lem (r ∷ rows) = rw (settle_rows_lem rows) (ground arith)

settled-settled : (r : LedgerRow) → is_shadow (settled r) ≡ false
unfolding bytes_eq
settled-settled r =
    if_cases (λ (x : LedgerRow). is_shadow x ≡ false) (is_shadow r) (λ _. refl) (λ no. no)

settle_rows-map-settled :
    (rows : List LedgerRow) → settle_rows (map settled rows) ≡ (map settled rows, 0)
unfolding settle_rows
settle_rows-map-settled [] = refl
settle_rows-map-settled (r ∷ rows) = rw (settled-settled r, settle_rows-map-settled rows) refl

-- A settlement that the database takes settles the shadow rows and no others, changes nothing else of
-- them, and reports how many they were; one straight after it finds none and changes nothing.
pub trigger_settlement-shadows :
    (rows : List LedgerRow)
    → (trigger_settlement true rows ≡ (map settled rows, shadows rows))
      × (trigger_settlement true (trigger_settlement true rows).0 ≡ (map settled rows, 0))
unfolding trigger_settlement
trigger_settlement-shadows rows =
    (settle_rows_lem rows, rw (settle_rows_lem rows) (settle_rows-map-settled rows))

-- What a reversal is booked as, from the row of its sale.
abbrev pub offset_row : UniversalPaymentEvent → LedgerRow → LedgerRow
offset_row reversal r = record r {
  trace_stan = reversal.stan;
  trace_rrn = reversal.rrn;
  principal_amount = neg_i64 r.principal_amount;
  fee_amount = neg_i64 r.fee_amount;
  status = codes "reversed_offset_hold";
}

module _ (F : Type 0) (percentage : ℕ → F → ℤ) (fees : Dict (FeeRule F))
    (coa : Dict AccountMapping) where
  row_of-reversal :
      (sale reversal : UniversalPaymentEvent) (rule : Option (FeeRule F)) (masked bin : Bytes)
      → sale.is_reversal ≡ false
      → reversal.is_reversal ≡ true
      → reversal.fpan ≡ sale.fpan
      → reversal.amount ≡ sale.amount
      → row_of F percentage coa reversal rule masked bin
        ≡ offset_row reversal (row_of F percentage coa sale rule masked bin)
  unfolding row_of
  row_of-reversal sale reversal rule masked bin first back pan amount =
      rw (pan, amount, back, first) refl

  book-reversal :
      (sale reversal : UniversalPaymentEvent)
      → sale.is_reversal ≡ false
      → reversal.is_reversal ≡ true
      → reversal.fpan ≡ sale.fpan
      → reversal.amount ≡ sale.amount
      → (r : LedgerRow) → book F percentage fees coa sale ≡ some r
      → book F percentage fees coa reversal ≡ some (offset_row reversal r)
  unfolding book
  book-reversal sale reversal first back pan amount r h =
      let row : Option (FeeRule F) → Bytes → Bytes → LedgerRow = row_of F percentage coa sale in
      let same : (rule : Option (FeeRule F)) (masked bin : Bytes)
          → row_of F percentage coa reversal rule masked bin
            ≡ offset_row reversal (row rule masked bin) =
        λ rule masked bin. row_of-reversal sale reversal rule masked bin first back pan amount in
      let chain : Option LedgerRow → Option LedgerRow =
        λ o. o >>= λ x. some (offset_row reversal x) in
      let bin_rows : Bytes → Option LedgerRow = λ t. fee_rule F percentage fees t >>= λ rule.
      mask_pan t >>= λ masked. routing_bin_of t >>= λ bin. some (row rule masked bin) in
      let text' = from_utf8_lossy reversal.fpan in
      bind_map (fee_rule F percentage fees text') (mask_pan text') (routing_bin_of text') row
        (row_of F percentage coa reversal) (offset_row reversal) same
      ∙ (ap (λ p. chain (bin_rows (from_utf8_lossy p))) pan ∙ ap chain h)

  interchange_fee-IsI64 :
      (rule : Option (FeeRule F)) (amount : ℕ) → IsI64 (interchange_fee F percentage rule amount)
  unfolding interchange_fee
  interchange_fee-IsI64 none amount = (omega arith, omega arith)
  interchange_fee-IsI64 (some rule) amount = wrap_i64-IsI64 _

  -- What a sale is booked as.
  abbrev IsSale : UniversalPaymentEvent → LedgerRow → Type 0
  IsSale sale r =
      (r.principal_amount ≡ as_i64 sale.amount) × IsI64 r.fee_amount × (r.status ≡ codes "shadow")

  row_of-IsSale :
      (sale : UniversalPaymentEvent) (rule : Option (FeeRule F)) (masked bin : Bytes)
      → sale.is_reversal ≡ false
      → IsSale sale (row_of F percentage coa sale rule masked bin)
  unfolding row_of
  row_of-IsSale sale rule masked bin first =
      rw first (refl, interchange_fee-IsI64 rule sale.amount, refl)

  book-IsSale :
      (sale : UniversalPaymentEvent) (r : LedgerRow)
      → sale.is_reversal ≡ false
      → book F percentage fees coa sale ≡ some r
      → IsSale sale r
  unfolding book
  book-IsSale sale r first h =
      let text = from_utf8_lossy sale.fpan in
      bind_inv (fee_rule F percentage fees text) (mask_pan text) (routing_bin_of text)
        (row_of F percentage coa sale) (IsSale sale) r
        (λ rule masked bin. row_of-IsSale sale rule masked bin first) h

  -- A sale of less than 2^63 whose row is booked, with a fee that is not the least 64-bit number, and a
  -- reversal of the same card and amount. The reversal is booked too; its principal and its fee are the
  -- negatives of those of the sale. But a settlement settles the row of the sale in full, while the
  -- offset stays on hold.
  pub reversed_sale-settled :
      (sale reversal : UniversalPaymentEvent) (table : List LedgerRow) (r : LedgerRow)
      → sale.is_reversal ≡ false
      → reversal.is_reversal ≡ true
      → reversal.fpan ≡ sale.fpan
      → reversal.amount ≡ sale.amount
      → sale.amount < 2 ^ 63
      → book F percentage fees coa sale ≡ some r
      → r.fee_amount ≢ negsuc (2 ^ 63 - 1)
      → (let r' = offset_row reversal r in
          (book F percentage fees coa reversal ≡ some r')
          × (r'.principal_amount +ℤ r.principal_amount ≡ pos 0)
          × (r'.fee_amount +ℤ r.fee_amount ≡ pos 0)
          × ((trigger_settlement true (table ++ (r ∷ r' ∷ []))).0
              ≡ map settled table ++ (record r { status = codes "settled" } ∷ r' ∷ [])))
  unfolding trigger_settlement bytes_eq
  reversed_sale-settled sale reversal table r first back pan amount small h fee =
      let (principal, fits, shadow) = book-IsSale sale r first h in
      let whole : r.principal_amount ≡ pos sale.amount =
        principal ∙ as_i64_small sale.amount small in
      let r' = offset_row reversal r in
      let pair : map settled (r ∷ r' ∷ []) ≡ record r { status = codes "settled" } ∷ r' ∷ [] =
        rw (shadow, settled) refl in
      (
        book-reversal sale reversal first back pan amount r h,
        ap (λ a. neg_i64 a +ℤ a) whole
            ∙ neg_i64-offsets (pos sale.amount) (small, omega arith) (λ e. cc e),
        neg_i64-offsets r.fee_amount fits fee,
        ap (λ x. x.0) (settle_rows_lem (table ++ (r ∷ r' ∷ [])))
            ∙ (map-append settled table (r ∷ r' ∷ []) ∙ ap (◌++◌ (map settled table)) pair),
      )
