-- ===== src/Simulator/Traffic/Counts.antt =====
-- The counters of ISO8583PaymentSimulator/src/engine.rs against where its workers stand.
use iso8583paymentsengine.Base.{ℕ, ◌+◌, ◌≤◌, ◌≡◌, List, [], ◌∷◌, ltb, length, if◌then◌else◌, arith}
use iso8583paymentsengine.Simulator.Traffic.Counters.{
  StatusCounters, Phase, idle, entered, over, allowed, busy, finished, claimed, ended, counted,
  sorted, summed, divided, averaged, timed, rated,
}

-- How many workers have raised the generated ones, and neither put a transaction in flight nor taken
-- the number back; how many of these will put one in flight; how many are at a transaction; how many
-- have taken one out of flight and not counted it as completed; and how many have counted it as
-- completed and not by its status.
pub record Load : Type 0 where
  pub pending : ℕ
  pub good : ℕ
  pub at_work : ℕ
  pub ending : ℕ
  pub unsorted : ℕ

abbrev pub no_load : Load
no_load = record { pending = 0; good = 0; at_work = 0; ending = 0; unsorted = 0 }

abbrev pub plus : Load → Load → Load
plus a b = record {
  pending = a.pending + b.pending;
  good = a.good + b.good;
  at_work = a.at_work + b.at_work;
  ending = a.ending + b.ending;
  unsorted = a.unsorted + b.unsorted;
}

abbrev pub load_of : ℕ → Phase → Load
load_of target (claimed n) = record no_load { pending = 1; good = if ltb n target then 1 else 0 }
load_of target over = record no_load { pending = 1 }
load_of target allowed = record no_load { pending = 1; good = 1 }
load_of target busy = record no_load { at_work = 1 }
load_of target (ended h) = record no_load { ending = 1 }
load_of target (counted h n) = record no_load { unsorted = 1 }
load_of target _ = no_load

abbrev pub load : ℕ → List Phase → Load
load target [] = no_load
load target (q ∷ qs) = plus (load_of target q) (load target qs)

-- The counters against the workers.
pub record Counts (target : ℕ) (l : Load) (c : StatusCounters) : Type 0 where
  pub same_target : c.total_target ≡ target
  pub capped : c.generated + l.good ≤ target + l.pending
  pub covered : c.completed + c.in_flight + l.ending + l.pending ≤ c.generated
  pub working : l.at_work ≤ c.in_flight
  pub shared_out : c.completed ≡ c.success + c.timeout + c.decline + l.unsorted

module _ (target : ℕ) (c : StatusCounters) where
  pub Counts-plus_assoc :
      (a b d : Load) → Counts target (plus a (plus b d)) c → Counts target (plus (plus a b) d) c
  Counts-plus_assoc a b d h = record {
    same_target = h.same_target;
    capped = omega (arith, h.capped);
    covered = omega (arith, h.covered);
    working = omega (arith, h.working);
    shared_out = omega (arith, h.shared_out);
  }

  pub Counts-assoc_plus :
      (a b d : Load) → Counts target (plus (plus a b) d) c → Counts target (plus a (plus b d)) c
  Counts-assoc_plus a b d h = record {
    same_target = h.same_target;
    capped = omega (arith, h.capped);
    covered = omega (arith, h.covered);
    working = omega (arith, h.working);
    shared_out = omega (arith, h.shared_out);
  }

  pub Counts-plus_comm :
      (a b d : Load) → Counts target (plus a (plus b d)) c → Counts target (plus a (plus d b)) c
  Counts-plus_comm a b d h = record {
    same_target = h.same_target;
    capped = omega (arith, h.capped);
    covered = omega (arith, h.covered);
    working = omega (arith, h.working);
    shared_out = omega (arith, h.shared_out);
  }

  pub Counts-plus_none : (l : Load) → Counts target l c → Counts target (plus no_load l) c
  Counts-plus_none l h = record {
    same_target = h.same_target;
    capped = omega (arith, h.capped);
    covered = omega (arith, h.covered);
    working = omega (arith, h.working);
    shared_out = omega (arith, h.shared_out);
  }

  pub Counts-none_plus : (l : Load) → Counts target (plus no_load l) c → Counts target l c
  Counts-none_plus l h = record {
    same_target = h.same_target;
    capped = omega (arith, h.capped);
    covered = omega (arith, h.covered);
    working = omega (arith, h.working);
    shared_out = omega (arith, h.shared_out);
  }

-- A worker pends at most once, and goes on only if it pends.
module _ (target : ℕ) where
  pub load_of-pending :
      (q : Phase)
      → ((load_of target q).pending ≤ 1) × ((load_of target q).good ≤ (load_of target q).pending)
  load_of-pending (claimed n) = (omega arith, ground arith)
  load_of-pending idle = (omega arith, omega arith)
  load_of-pending entered = (omega arith, omega arith)
  load_of-pending over = (omega arith, omega arith)
  load_of-pending allowed = (omega arith, omega arith)
  load_of-pending busy = (omega arith, omega arith)
  load_of-pending finished = (omega arith, omega arith)
  load_of-pending (ended h) = (omega arith, omega arith)
  load_of-pending (counted h n) = (omega arith, omega arith)
  load_of-pending (sorted h n) = (omega arith, omega arith)
  load_of-pending (summed h n) = (omega arith, omega arith)
  load_of-pending (divided h n) = (omega arith, omega arith)
  load_of-pending (averaged h) = (omega arith, omega arith)
  load_of-pending (timed h) = (omega arith, omega arith)
  load_of-pending (rated h) = (omega arith, omega arith)

  pub load-pending :
      (qs : List Phase)
      → ((load target qs).pending ≤ length qs) × ((load target qs).good ≤ (load target qs).pending)
  load-pending [] = (omega arith, omega arith)
  load-pending (q ∷ qs) =
      let one = load_of-pending q in
      let rest = load-pending qs in (omega (arith, one.0, rest.0), omega (arith, one.1, rest.1))
