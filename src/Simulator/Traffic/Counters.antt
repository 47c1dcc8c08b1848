-- ===== src/Simulator/Traffic/Counters.antt =====
-- The counters and the history of ISO8583PaymentSimulator/src/engine.rs, and the rounds of `run_worker`
-- as single atomic operations between which the other workers may run.
use iso8583paymentsengine.Base.{
  ℕ, zero, suc, ◌+◌, ◌-◌, ◌%◌, ◌/◌, ◌^◌, Bool, true, false, ◌||◌, Option, none, some, List, [], ◌∷◌,
  ◌++◌, leb, ltb, length, replicate, if◌then◌else◌,
}
use iso8583paymentsengine.Base.Text.{Bytes, codes, bytes_eq}
use iso8583paymentsengine.Simulator.Traffic.{TxType, Network, EntryMode, DialectName}

-- The atomic `usize` counters keep 64 bits.
abbrev pub increment : ℕ → ℕ
increment n = (n + 1) % 2 ^ 64

abbrev pub decrement : ℕ → ℕ
decrement n = (n + (2 ^ 64 - 1)) % 2 ^ 64

abbrev pub at_least_1 : ℕ → ℕ
at_least_1 n = if leb 1 n then n else 1

abbrev pub or_else : ℕ → Option ℕ → ℕ
or_else d none = d
or_else d (some n) = n

pub record StatusCounters : Type 0 where
  pub running : Bool
  pub total_target : ℕ
  pub generated : ℕ
  pub in_flight : ℕ
  pub completed : ℕ
  pub success : ℕ
  pub timeout : ℕ
  pub decline : ℕ
  pub tps : ℕ
  pub avg_latency_ms : ℕ

pub data Status : Type 0 where
  succeeded timed_out declined : Status

pub record HistoryRecord : Type 0 where
  pub id : Bytes
  pub timestamp : Bytes
  pub tx_type : TxType
  pub status : Status
  pub amount : ℕ
  pub total_duration_ms : ℕ
  pub raw_iso : Bytes
  pub response_code : Bytes
  pub network : Network
  pub entry_mode : EntryMode
  pub dialect : DialectName

-- `SimEngine`, less the pulses that the console animates. The history starts with the latest record.
pub record SimEngine : Type 0 where
  pub status : StatusCounters
  pub history : List HistoryRecord
  pub total_latency_sum : ℕ
  pub completion_times : List ℕ

unfoldable pub new_sim : SimEngine
new_sim = record {
  status = record {
    running = false;
    total_target = 0;
    generated = 0;
    in_flight = 0;
    completed = 0;
    success = 0;
    timeout = 0;
    decline = 0;
    tps = 0;
    avg_latency_ms = 0;
  };
  history = [];
  total_latency_sum = 0;
  completion_times = [];
}

-- The completions of the last five seconds.
unfoldable pub recent : ℕ → List ℕ → List ℕ
recent now [] = []
recent now (t ∷ times) = if ltb 5000 (now - t) then recent now times else t ∷ times

unfoldable pub update_tps : ℕ → SimEngine → SimEngine
unfolding recent
update_tps now e =
    let times = recent now e.completion_times in
    record e { completion_times = times; status = record e.status { tps = length times / 5 } }

-- The code of a reply, and 68 for a time-out or a broken connection.
unfoldable pub code_of : Option Bytes → Bytes
code_of none = codes "68"
code_of (some rc) = rc

unfoldable pub status_of : Bytes → ℕ → Status
status_of rc duration_ms =
    if bytes_eq rc (codes "00")
    then succeeded
    else if bytes_eq rc (codes "68") || leb 5000 duration_ms
    then timed_out
    else declined

unfoldable pub count_status : Status → StatusCounters → StatusCounters
count_status succeeded c = record c { success = increment c.success }
count_status timed_out c = record c { timeout = increment c.timeout }
count_status declined c = record c { decline = increment c.decline }

-- `VecDeque::pop_back`
unfoldable pub drop_last : {A : Type 0} → List A → List A
drop_last [] = []
drop_last (x ∷ []) = []
drop_last (x ∷ y ∷ xs) = x ∷ drop_last (y ∷ xs)

unfoldable pub push_history : HistoryRecord → List HistoryRecord → List HistoryRecord
unfolding drop_last
push_history h hs = if ltb 100 (length (h ∷ hs)) then drop_last (h ∷ hs) else h ∷ hs

-- Where a worker stands: each phase is behind one operation on what the workers share and in front of
-- the next. `entered` has read the flag; `claimed` has raised the generated ones from the number; `over`
-- and `allowed` have compared it with the target; `busy` is at a transaction. Then, with the record for
-- the history: `ended` is out of flight, `counted` has raised the completed ones to the number,
-- `sorted` has raised the counter of the status, `summed` has added the latency, `divided` has worked
-- out the average, `averaged` has stored it, `timed` has noted the time, and `rated` has updated the
-- rate.
pub data Phase : Type 0 where
  idle entered over allowed busy finished : Phase
  claimed : ℕ → Phase
  ended : HistoryRecord → Phase
  counted sorted summed divided : HistoryRecord → ℕ → Phase
  averaged timed rated : HistoryRecord → Phase

-- What a worker does next: it goes on from where it stands, at a time in milliseconds, the transaction
-- cannot be encoded, the run is cancelled, or the transaction ends.
pub data Act : Type 0 where
  go : ℕ → Act
  unencodable : Act
  cancel : Act
  ends : HistoryRecord → Act

-- The head of the loop, up to the transaction: `break` leads to `finished`.
unfoldable pub claim : Phase → SimEngine → Phase × SimEngine
claim idle e = if e.status.running then (entered, e) else (finished, e)
claim entered e =
    let c = e.status in
    (claimed c.generated, record e { status = record c { generated = increment c.generated } })
claim (claimed n) e = if leb e.status.total_target n then (over, e) else (allowed, e)
claim over e =
    let c = e.status in
    (finished, record e { status = record c { generated = decrement c.generated } })
claim allowed e =
    let c = e.status in (busy, record e { status = record c { in_flight = increment c.in_flight } })
claim q e = (q, e)

-- The end of the loop's body, one operation at a time. The time stamps and the rate are written under
-- the lock of the times, and the history under its own.
unfoldable pub settle : ℕ → Phase → SimEngine → Phase × SimEngine
unfolding count_status update_tps push_history
settle now (ended h) e =
    let c = e.status in
    (
      counted h (c.completed + 1),
      record e { status = record c { completed = increment c.completed } },
    )
settle now (counted h n) e = (sorted h n, record e { status = count_status h.status e.status })
settle now (sorted h n) e = (
  summed h n,
  record e { total_latency_sum = (e.total_latency_sum + h.total_duration_ms) % 2 ^ 64 },
)
settle now (summed h n) e = (divided h (e.total_latency_sum / n), e)
settle now (divided h average) e =
    (averaged h, record e { status = record e.status { avg_latency_ms = average } })
settle now (averaged h) e =
    (timed h, record e { completion_times = e.completion_times ++ (now ∷ []) })
settle now (timed h) e = (rated h, update_tps now e)
settle now (rated h) e = (idle, record e { history = push_history h e.history })
settle now q e = claim q e

-- A transaction goes out of flight.
abbrev pub land : SimEngine → SimEngine
land e = record e { status = record e.status { in_flight = decrement e.status.in_flight } }

unfoldable pub act : Act → Phase → SimEngine → Phase × SimEngine
unfolding settle claim
act (go now) q e = settle now q e
act unencodable busy e = (idle, land e)
act cancel busy e = (finished, e)
act (ends h) busy e = (ended h, land e)
act _ q e = (q, e)

-- One step of the worker of that number.
unfoldable pub step_at : ℕ → Act → List Phase → SimEngine → List Phase × SimEngine
unfolding act
step_at i a [] e = ([], e)
step_at zero a (p ∷ ps) e = let (p', e') = act a p e in (p' ∷ ps, e')
step_at (suc i) a (p ∷ ps) e = let (ps', e') = step_at i a ps e in (p ∷ ps', e')

-- `cancel_sim`, less the signal to the workers.
unfoldable pub cancel_sim : SimEngine → SimEngine
cancel_sim e = record e { status = record e.status { running = false } }

-- A look of the task that waits for the end of the run. If it lowers the flag later than it reads the
-- counter, that is a `cancelled` step.
unfoldable pub watch : ℕ → SimEngine → SimEngine
watch volume e =
    if leb volume e.status.completed
    then record e { status = record e.status { running = false } }
    else e

-- `start_sim`, from the volume and the number of workers of the request; none is the answer 409. The
-- workers are those that it starts.
unfoldable pub start_sim : Option ℕ → Option ℕ → SimEngine → Option (List Phase × SimEngine)
start_sim volume concurrency e =
    if e.status.running
    then none
    else some (
      replicate (at_least_1 (or_else 10 concurrency)) idle,
      record {
        status = record {
          running = true;
          total_target = at_least_1 (or_else 100 volume);
          generated = 0;
          in_flight = 0;
          completed = 0;
          success = 0;
          timeout = 0;
          decline = 0;
          tps = 0;
          avg_latency_ms = 0;
        };
        history = [];
        total_latency_sum = 0;
        completion_times = [];
      },
    )

pub data Step : Type 0 where
  worker : ℕ → Act → Step
  cancelled : Step
  watched : ℕ → Step

unfoldable pub step : Step → List Phase → SimEngine → List Phase × SimEngine
unfolding step_at cancel_sim watch
step (worker i a) ps e = step_at i a ps e
step cancelled ps e = (ps, cancel_sim e)
step (watched volume) ps e = (ps, watch volume e)

unfoldable pub run : List Step → List Phase → SimEngine → List Phase × SimEngine
unfolding step
run [] ps e = (ps, e)
run (s ∷ steps) ps e = let (ps', e') = step s ps e in run steps ps' e'
