-- ===== src/Tests/Ledger.antt =====
-- Runs of the ledger worker and of the settlement, with fees in hundredths of a per cent.
use iso8583paymentsengine.Base.{
  ℕ, ◌+◌, ◌*◌, ◌/◌, ◌≡◌, refl, true, Option, none, some, List, [], ◌∷◌, ◌++◌, map, arith,
}
use iso8583paymentsengine.Base.Text.{codes, bytes_eq, slice, starts_with}
use iso8583paymentsengine.Base.Utf8.{from_utf8_lossy}
use iso8583paymentsengine.Base.Int.{ℤ, pos, ◌+ℤ◌, as_i64}
use iso8583paymentsengine.Base.Dict.{Dict, lookup, later}
use iso8583paymentsengine.Canonical.{UniversalPaymentEvent}
use iso8583paymentsengine.Ledger.{
  FeeRule, AccountMapping, LedgerRow, Received, received, timeout, Worker, running, book,
  Surroundings, rounds,
}
use iso8583paymentsengine.Ledger.Polls.{FeeRow, poll_fees}
use iso8583paymentsengine.Ledger.Trigger.{trigger_settlement}
use iso8583paymentsengine.Ledger.Books.{IsOpen, Sound, AtWork, rounds-books}
use iso8583paymentsengine.Ledger.Fees.{last_fee, lookup-poll_fees}
use iso8583paymentsengine.Ledger.Settlement.{settled, offset_row, reversed_sale-settled}
use iso8583paymentsengine.Tests.Samples.{sale}

abbrev basis_points : ℕ → ℕ → ℤ
basis_points amount pct = pos (amount * pct / 10000)

abbrev one_per_cent : FeeRule ℕ
one_per_cent = record { base_pct = 100; flat_fee_cents = pos 10; fx_markup_pct = 0 }

abbrev fees : Dict (FeeRule ℕ)
fees = (codes "DEFAULT", one_per_cent) ∷ []

abbrev coa : Dict AccountMapping
coa = (codes "CITI", record { vostro_account_id = codes "V1"; nostro_account_id = codes "N1" }) ∷ []

abbrev sale_row : LedgerRow
sale_row = record {
  trace_stan = codes "000123";
  trace_rrn = codes "000000000077";
  masked_pan = codes "411122****4444";
  routing_bin = codes "411122";
  source_account_id = codes "V1";
  target_account_id = codes "N1";
  principal_amount = pos 500;
  fee_amount = pos 15;
  status = codes "shadow";
  institution_id = codes "CITI";
}

abbrev reversal : UniversalPaymentEvent
reversal = record sale { mti = codes "0420"; stan = codes "000124"; is_reversal = true }

booked_sale : book ℕ basis_points fees coa sale ≡ some sale_row
unfolding book from_utf8_lossy slice lookup bytes_eq starts_with as_i64 ◌+ℤ◌
booked_sale = refl

reversed_sale-settled_example :
    let r' = offset_row reversal sale_row in
    (book ℕ basis_points fees coa reversal ≡ some r')
    × (r'.principal_amount +ℤ sale_row.principal_amount ≡ pos 0)
    × (r'.fee_amount +ℤ sale_row.fee_amount ≡ pos 0)
    × ((trigger_settlement true ((sale_row ∷ []) ++ (sale_row ∷ r' ∷ []))).0
        ≡ map settled (sale_row ∷ []) ++ (record sale_row { status = codes "settled" } ∷ r' ∷ []))
reversed_sale-settled_example =
    reversed_sale-settled ℕ basis_points fees coa sale reversal (sale_row ∷ []) sale_row refl refl
      refl refl (ground arith) booked_sale (λ e. cc e)

abbrev hears : Received → ℕ → Surroundings ℕ basis_points
hears v time = record {
  recv = v;
  now = time;
  after = time + 1;
  fee_cache = fees;
  coa_cache = coa;
  begins = true;
  prepares = true;
  inserts = λ r. true;
  commits = true;
}

hears-Sound : (v : Received) (time : ℕ) → IsOpen v → Sound ℕ basis_points fees coa (hears v time)
hears-Sound v time is_open = (is_open, refl, refl, refl, refl, refl, λ r. refl)

-- Two sales within the first tenth of a second, and a third one later.
abbrev day : List (Surroundings ℕ basis_points)
day =
    hears (received sale) 10
    ∷ hears (received sale) 20
    ∷ hears timeout 120
    ∷ hears (received sale) 130
    ∷ []

abbrev idle : Worker
idle = record { batch_buffer = []; last_commit = 0 }

rounds-books_example :
    AtWork ℕ basis_points fees coa []
      (sale_row ∷ sale_row ∷ sale_row ∷ [])
      (rounds ℕ basis_points day (running idle []))
rounds-books_example =
    rounds-books ℕ basis_points fees coa day idle [] (sale_row ∷ sale_row ∷ sale_row ∷ [])
      (
        hears-Sound (received sale) 10 tt,
        (
          hears-Sound (received sale) 20 tt,
          (hears-Sound timeout 120 tt, (hears-Sound (received sale) 130 tt, tt)),
        ),
      )
      (ground arith) (booked_sale, (booked_sale, (booked_sale, tt)))

abbrev matrix : List (Option (FeeRow ℕ))
matrix =
    some (record { mcc = none; bin_prefix = some (codes "411122"); rule = one_per_cent })
    ∷ none
    ∷ some (record { mcc = some (codes "5411"); bin_prefix = none; rule = one_per_cent })
    ∷ []

lookup-poll_fees_example :
    lookup (codes "411122") (poll_fees ℕ matrix fees)
    ≡ later (last_fee ℕ matrix (codes "411122")) (lookup (codes "411122") fees)
lookup-poll_fees_example = lookup-poll_fees ℕ (codes "411122") matrix fees
