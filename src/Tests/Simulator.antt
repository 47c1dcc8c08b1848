-- ===== src/Tests/Simulator.antt =====
-- Runs of the simulated bank, of the traffic generator's counters, and of a poll of the sanctions list.
use iso8583paymentsengine.Base.{
  ℕ, zero, suc, ◌+◌, ◌-◌, ◌≤◌, ◌<◌, ◌≡◌, refl, Bool, true, false, ◌||◌, Option, none, some, List,
  [], ◌∷◌, ◌++◌, leb, length, if◌then◌else◌, arith,
}
use iso8583paymentsengine.Base as Base
use iso8583paymentsengine.Base.Text.{Bytes, codes, slice}
use iso8583paymentsengine.Base.Utf8.{from_utf8_lossy}
use iso8583paymentsengine.Dialect.Fields.{ok, panic, ◌>>=◌}
use iso8583paymentsengine.Dialect.Universal.{connex, encode, decode}
use iso8583paymentsengine.Switch.State.{evaluate}
use iso8583paymentsengine.Switch.Compliance.{poll, is_listed, evaluate-poll}
use iso8583paymentsengine.Simulator.Bank.{answer}
use iso8583paymentsengine.Simulator.Bank.Answered.{purchase_response, answer-purchase}
use iso8583paymentsengine.Simulator.Traffic.{happy_path, visa, emv, connex_name}
use iso8583paymentsengine.Simulator.Traffic.Counters.{
  SimEngine, HistoryRecord, succeeded, idle, finished, go, ends, Step, worker, cancelled, watched,
  start_sim, new_sim, run,
}
use iso8583paymentsengine.Simulator.Traffic.Counts.{load}
use iso8583paymentsengine.Simulator.Traffic.Capped.{run_capped}
use iso8583paymentsengine.Tests.Samples.{sale, sale_context}
use iso8583paymentsengine.Tests.Dialect.{sale-IsEncodable}

answer-purchase_example :
    (encode connex sale >>= answer connex >>= λ o. elim o [
      | none ↦ panic
      | some reply ↦ decode connex reply
    ])
    ≡ ok (purchase_response sale)
answer-purchase_example = answer-purchase connex sale sale-IsEncodable refl refl

abbrev sanctions : List (Option (Bytes × Bytes))
sanctions = some (codes "bin", codes "400000") ∷ none ∷ some (codes "bin", codes "411122") ∷ []

abbrev unchanged : Bytes → Bytes
unchanged text = text

evaluate-poll_example :
    evaluate
      (poll unchanged unchanged sanctions ((codes "bin:555555", codes "block") ∷ []))
      sale_context
    ≡ (let pan = from_utf8_lossy sale.fpan in
        if leb 6 (length pan)
        then Base.◌>>=◌
            (slice 0 6 pan)
            (λ bin. some (is_listed unchanged unchanged (codes "bin:" ++ bin) sanctions))
        else some false)
evaluate-poll_example =
    evaluate-poll unchanged unchanged sanctions ((codes "bin:555555", codes "block") ∷ [])
      sale_context

abbrev approved : HistoryRecord
approved = record {
  id = codes "A1B2C3D";
  timestamp = codes "2025-04-25T10:15:00Z";
  tx_type = happy_path;
  status = succeeded;
  amount = 500;
  total_duration_ms = 40;
  raw_iso = [];
  response_code = codes "00";
  network = visa;
  entry_mode = emv;
  dialect = connex_name;
}

-- Two workers for one transaction: both raise the counter before either looks at the target. The one
-- that is too late takes its number back, and the other is left between the completed ones and the
-- successes.
abbrev race : List Step
race =
    worker 0 (go 1)
    ∷ worker 1 (go 1)
    ∷ worker 0 (go 2)
    ∷ worker 1 (go 2)
    ∷ worker 1 (go 3)
    ∷ worker 0 (go 3)
    ∷ worker 0 (go 4)
    ∷ worker 1 (go 4)
    ∷ worker 0 (ends approved)
    ∷ cancelled
    ∷ worker 0 (go 40)
    ∷ []

abbrev started : SimEngine
started = record new_sim { status = record new_sim.status { running = true; total_target = 1 } }

run_capped_example :
    let (qs, e') = run race (idle ∷ idle ∷ []) started in
    let c = e'.status in
    let l = load 1 qs in
    (c.completed + c.in_flight + l.ending ≤ 1)
    × (c.completed + c.in_flight + l.ending + l.pending ≤ c.generated)
    × (c.generated ≤ 1 + l.pending)
    × (l.pending ≤ 2)
    × (l.at_work ≤ c.in_flight)
    × (c.completed ≡ c.success + c.timeout + c.decline + l.unsorted)
    × (length e'.history ≤ 100)
unfolding start_sim new_sim
run_capped_example =
    run_capped (some 1) (some 2) new_sim started (idle ∷ idle ∷ []) race refl (ground arith)

-- One worker through its whole round, and the flag that is down behind it.
abbrev round : List Step
round =
    worker 0 (go 1)
    ∷ worker 0 (go 1)
    ∷ worker 0 (go 1)
    ∷ worker 0 (go 1)
    ∷ worker 0 (ends approved)
    ∷ worker 0 (go 41)
    ∷ worker 0 (go 41)
    ∷ worker 0 (go 41)
    ∷ worker 0 (go 41)
    ∷ worker 0 (go 41)
    ∷ worker 0 (go 41)
    ∷ worker 0 (go 41)
    ∷ worker 0 (go 41)
    ∷ watched 1
    ∷ worker 0 (go 42)
    ∷ []

round_counts : run round (idle ∷ []) started ≡ (
  finished ∷ [],
  record {
    status = record started.status {
      running = false;
      generated = 1;
      completed = 1;
      success = 1;
      avg_latency_ms = 40;
    };
    history = approved ∷ [];
    total_latency_sum = 40;
    completion_times = 41 ∷ [];
  },
)
unfolding run new_sim
round_counts = refl
