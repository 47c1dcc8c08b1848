-- ===== src/Ledger.antt =====
-- The shadow ledger: `LedgerWorker` of switch-core/src/ledger_worker.rs, which books the events that the
-- switch sends it; the children have its polls, and the settlement of its rows.
pub mod Books
pub mod Polls
pub mod Offset
pub mod Trigger
pub mod Settlement
pub mod Fees
use iso8583paymentsengine.Base.{
  ℕ, ◌+◌, ◌-◌, ◌%◌, ◌^◌, min, Bool, true, false, not, ◌&&◌, ◌||◌, Option, none, some, List, [], ◌∷◌,
  ◌++◌, leb, length, if◌then◌else◌, ◌>>=◌,
}
use iso8583paymentsengine.Base.Int.{ℤ, pos, negsuc, ◌+ℤ◌, ◌-ℤ◌, as_i64}
use iso8583paymentsengine.Base.Text.{Bytes, codes, bytes_eq, starts_with, slice}
use iso8583paymentsengine.Base.Utf8.{from_utf8_lossy}
use iso8583paymentsengine.Base.Dict.{Dict, lookup, insert}
use iso8583paymentsengine.Canonical.{UniversalPaymentEvent}

-- `F` stands for `f64`.
pub record FeeRule (F : Type 0) : Type 0 where
  pub base_pct : F
  pub flat_fee_cents : ℤ
  pub fx_markup_pct : F

pub record AccountMapping : Type 0 where
  pub vostro_account_id : Bytes
  pub nostro_account_id : Bytes

-- A row of `general_ledger`, less its `fx_rate`, which is always 1, its number and its time.
pub record LedgerRow : Type 0 where
  pub trace_stan : Bytes
  pub trace_rrn : Bytes
  pub masked_pan : Bytes
  pub routing_bin : Bytes
  pub source_account_id : Bytes
  pub target_account_id : Bytes
  pub principal_amount : ℤ
  pub fee_amount : ℤ
  pub status : Bytes
  pub institution_id : Bytes

-- Sums and negations of `i64` keep the low 64 bits.
unfoldable pub wrap_i64 : ℤ → ℤ
wrap_i64 (pos n) = as_i64 (n % 2 ^ 64)
wrap_i64 (negsuc n) = as_i64 (2 ^ 64 - 1 - n % 2 ^ 64)

unfoldable pub neg_i64 : ℤ → ℤ
unfolding wrap_i64
neg_i64 a = wrap_i64 (pos 0 -ℤ a)

-- The account that a card is booked for.
unfoldable pub institution : Bytes → Bytes
institution pan =
    if starts_with (codes "4") pan
    then codes "CITI"
    else if starts_with (codes "5") pan
    then codes "DANSKE_BANK"
    else codes "DEFAULT_INST"

-- The slices of the PAN panic, `none`, where they would cut a character.
unfoldable pub mask_pan : Bytes → Option Bytes
mask_pan pan = slice 0 (min 6 (length pan)) pan >>= λ head.
    slice (length pan - 4) (length pan) pan >>= λ tail. some (head ++ (codes "****" ++ tail))

unfoldable pub routing_bin_of : Bytes → Option Bytes
routing_bin_of pan = if leb 6 (length pan) then slice 0 6 pan else some (codes "000000")

unfoldable pub vostro_of : Dict AccountMapping → Bytes → Bytes
vostro_of coa inst_id = elim (lookup inst_id coa) [
  | none ↦ codes "UNKNOWN"
  | some c ↦ c.vostro_account_id
]

unfoldable pub nostro_of : Dict AccountMapping → Bytes → Bytes
nostro_of coa inst_id = elim (lookup inst_id coa) [
  | none ↦ codes "UNKNOWN"
  | some c ↦ c.nostro_account_id
]

-- What a round of the worker receives within its 50 ms.
pub data Received : Type 0 where
  received : UniversalPaymentEvent → Received
  timeout : Received
  disconnected : Received

-- The worker's own state.
pub record Worker : Type 0 where
  pub batch_buffer : List UniversalPaymentEvent
  pub last_commit : ℕ

-- The worker and its table after a round: it goes on, it has left its loop, or it has panicked.
pub data Round : Type 0 where
  running : Worker → List LedgerRow → Round
  stopped : List LedgerRow → Round
  panicked : List LedgerRow → Round

-- The product of two `f64` and its cast to `i64`: `percentage amount pct` is `(amount as f64 * pct) as i64`.
module _ (F : Type 0) (percentage : ℕ → F → ℤ) where
  -- The rule of the PAN's first six bytes, or the default rule; a short PAN has none.
  unfoldable pub fee_rule : Dict (FeeRule F) → Bytes → Option (Option (FeeRule F))
  fee_rule fees pan =
      if leb 6 (length pan)
      then (slice 0 6 pan >>= λ bin.
          some (elim (lookup bin fees) [
            | none ↦ lookup (codes "DEFAULT") fees
            | some rule ↦ some rule
          ]))
      else some none

  unfoldable pub interchange_fee : Option (FeeRule F) → ℕ → ℤ
  interchange_fee none amount = pos 0
  interchange_fee (some rule) amount =
      wrap_i64 (percentage amount rule.base_pct +ℤ rule.flat_fee_cents)

  -- The parameters of the insertion, from the rule, the masked PAN and the BIN.
  unfoldable pub row_of :
      Dict AccountMapping → UniversalPaymentEvent → Option (FeeRule F) → Bytes → Bytes → LedgerRow
  unfolding interchange_fee institution vostro_of nostro_of neg_i64
  row_of coa tx rule masked bin =
      let inst_id = institution (from_utf8_lossy tx.fpan) in
      let principal = as_i64 tx.amount in
      let fee = interchange_fee rule tx.amount in
      record {
        trace_stan = tx.stan;
        trace_rrn = tx.rrn;
        masked_pan = masked;
        routing_bin = bin;
        source_account_id = vostro_of coa inst_id;
        target_account_id = nostro_of coa inst_id;
        principal_amount = if tx.is_reversal then neg_i64 principal else principal;
        fee_amount = if tx.is_reversal then neg_i64 fee else fee;
        status = if tx.is_reversal then codes "reversed_offset_hold" else codes "shadow";
        institution_id = inst_id;
      }

  -- The row of an event, or a panic.
  unfoldable pub book :
      Dict (FeeRule F) → Dict AccountMapping → UniversalPaymentEvent → Option LedgerRow
  unfolding fee_rule row_of mask_pan routing_bin_of
  book fees coa tx =
      let pan = from_utf8_lossy tx.fpan in
      fee_rule fees pan >>= λ rule.
      mask_pan pan >>= λ masked. routing_bin_of pan >>= λ bin. some (row_of coa tx rule masked bin)

  -- What a round meets: the message, the clock when the batch is looked at and when it is done, the
  -- caches, and whether the database begins, prepares the statement, takes each row, and commits.
  pub record Surroundings : Type 0 where
    pub recv : Received
    pub now : ℕ
    pub after : ℕ
    pub fee_cache : Dict (FeeRule F)
    pub coa_cache : Dict AccountMapping
    pub begins : Bool
    pub prepares : Bool
    pub inserts : LedgerRow → Bool
    pub commits : Bool

  -- The loop over the batch; a row that the database refuses is passed over.
  unfoldable pub write_rows : Surroundings → List UniversalPaymentEvent → Option (List LedgerRow)
  write_rows p [] = some []
  write_rows p (tx ∷ txs) =
      let rest = write_rows p txs in
      book p.fee_cache p.coa_cache tx >>= λ r.
      rest >>= λ rs. some (if p.inserts r then r ∷ rs else rs)

  abbrev pub is_due : ℕ → Worker → Bool
  is_due now w =
      leb 1000 (length w.batch_buffer)
      || (leb 1 (length w.batch_buffer) && leb 100 (now - w.last_commit))

  -- The commit of a batch. A panic rolls its transaction back.
  unfoldable pub flush : Surroundings → Worker → List LedgerRow → Round
  unfolding write_rows
  flush p w table =
      let emptied : Worker = record { batch_buffer = []; last_commit = p.after } in
      if is_due p.now w
      then if p.begins
        then if p.prepares
          then (elim (write_rows p w.batch_buffer) [
            | none ↦ panicked table
            | some rows ↦ running emptied (if p.commits then table ++ rows else table)
          ])
          else panicked table
        else running emptied table
      else running w table

  unfoldable pub round : Surroundings → Worker → List LedgerRow → Round
  unfolding flush
  round p w table = elim p.recv [
    | received tx ↦ flush p (record w { batch_buffer = w.batch_buffer ++ (tx ∷ []) }) table
    | timeout ↦ flush p w table
    | disconnected ↦ stopped table
  ]

  unfoldable pub rounds : List Surroundings → Round → Round
  unfolding round
  rounds [] r = r
  rounds (p ∷ ps) (running w table) = rounds ps (round p w table)
  rounds (p ∷ ps) (stopped table) = stopped table
  rounds (p ∷ ps) (panicked table) = panicked table
