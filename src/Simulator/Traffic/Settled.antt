-- ===== src/Simulator/Traffic/Settled.antt =====
-- The counters of ISO8583PaymentSimulator/src/engine.rs under one step of a worker.
use iso8583paymentsengine.Base.{ℕ, zero, suc, ◌+◌, ◌^◌, ◌<◌, ◌≤◌, List, [], ◌∷◌, length, arith}
use iso8583paymentsengine.Simulator.Traffic.Counters.{
  HistoryRecord, Status, succeeded, timed_out, declined, count_status, StatusCounters, SimEngine,
  update_tps, claim, settle, Phase, idle, entered, over, allowed, busy, finished, claimed, ended,
  counted, sorted, summed, divided, averaged, timed, rated, Act, go, unencodable, cancel, ends, act,
  step_at,
}
use iso8583paymentsengine.Simulator.Traffic.Counts.{
  Load, plus, load_of, load, Counts, Counts-plus_assoc, Counts-assoc_plus, Counts-plus_comm,
  load_of-pending, load-pending,
}
use iso8583paymentsengine.Simulator.Traffic.Counted.{
  Counted, claim-idle, claim-entered, claim-claimed, claim-over, claim-allowed,
}

module _ (target : ℕ) where
  -- Out of flight, into the completed ones, and into those of the status.
  settle-ended :
      (l : Load) (now : ℕ) (r : HistoryRecord) (e : SimEngine)
      → target + l.pending + 4 < 2 ^ 64
      → Counted target l (ended r, e)
      → Counted target l (settle now (ended r) e)
  unfolding settle
  settle-ended l now r e small h = record {
    same_target = h.same_target;
    capped = h.capped;
    covered = omega (arith, h.capped, h.covered);
    working = h.working;
    shared_out = omega (arith, h.capped, h.covered, h.shared_out);
  }

  count_status-Counts :
      (l : Load) (r : HistoryRecord) (st : Status) (c : StatusCounters)
      → target + l.pending + 4 < 2 ^ 64
      → Counts target (plus l (load_of target (counted r 0))) c
      → Counts target (plus l (load_of target idle)) (count_status st c)
  unfolding count_status
  count_status-Counts l r succeeded c small h = record {
    same_target = h.same_target;
    capped = h.capped;
    covered = h.covered;
    working = h.working;
    shared_out = omega (arith, h.capped, h.covered, h.shared_out);
  }
  count_status-Counts l r timed_out c small h = record {
    same_target = h.same_target;
    capped = h.capped;
    covered = h.covered;
    working = h.working;
    shared_out = omega (arith, h.capped, h.covered, h.shared_out);
  }
  count_status-Counts l r declined c small h = record {
    same_target = h.same_target;
    capped = h.capped;
    covered = h.covered;
    working = h.working;
    shared_out = omega (arith, h.capped, h.covered, h.shared_out);
  }

  settle-Counted :
      (l : Load) (now : ℕ) (q : Phase) (e : SimEngine)
      → target + l.pending + 4 < 2 ^ 64
      → l.good ≤ l.pending
      → Counted target l (q, e)
      → Counted target l (settle now q e)
  unfolding settle claim update_tps
  settle-Counted l now idle e small among h = claim-idle target l e h
  settle-Counted l now entered e small among h = claim-entered target l e small among h
  settle-Counted l now (claimed n) e small among h = claim-claimed target l n e h
  settle-Counted l now over e small among h = claim-over target l e small h
  settle-Counted l now allowed e small among h = claim-allowed target l e small h
  settle-Counted l now busy e small among h = h
  settle-Counted l now finished e small among h = h
  settle-Counted l now (ended r) e small among h = settle-ended l now r e small h
  settle-Counted l now (counted r n) e small among h =
      count_status-Counts l r r.status e.status small h
  settle-Counted l now (sorted r n) e small among h = h
  settle-Counted l now (summed r n) e small among h = h
  settle-Counted l now (divided r n) e small among h = record {
    same_target = h.same_target;
    capped = h.capped;
    covered = h.covered;
    working = h.working;
    shared_out = h.shared_out;
  }
  settle-Counted l now (averaged r) e small among h = h
  settle-Counted l now (timed r) e small among h = record {
    same_target = h.same_target;
    capped = h.capped;
    covered = h.covered;
    working = h.working;
    shared_out = h.shared_out;
  }
  settle-Counted l now (rated r) e small among h = h

  act-Counted :
      (l : Load) (a : Act) (q : Phase) (e : SimEngine)
      → target + l.pending + 4 < 2 ^ 64
      → l.good ≤ l.pending
      → Counted target l (q, e)
      → Counted target l (act a q e)
  unfolding act
  act-Counted l (go now) q e small among h = settle-Counted l now q e small among h
  act-Counted l unencodable busy e small among h = record {
    same_target = h.same_target;
    capped = h.capped;
    covered = omega (arith, h.capped, h.covered, h.working);
    working = omega (arith, h.capped, h.covered, h.working);
    shared_out = h.shared_out;
  }
  act-Counted l cancel busy e small among h = record {
    same_target = h.same_target;
    capped = h.capped;
    covered = h.covered;
    working = omega (arith, h.working);
    shared_out = h.shared_out;
  }
  act-Counted l (ends r) busy e small among h = record {
    same_target = h.same_target;
    capped = h.capped;
    covered = omega (arith, h.capped, h.covered, h.working);
    working = omega (arith, h.capped, h.covered, h.working);
    shared_out = h.shared_out;
  }
  act-Counted l a q e small among h = h

  pub step_at-Counts :
      (l : Load) (i : ℕ) (a : Act) (qs : List Phase) (e : SimEngine)
      → target + l.pending + length qs + 4 < 2 ^ 64
      → l.good ≤ l.pending
      → Counts target (plus l (load target qs)) e.status
      → (let (qs', e') = step_at i a qs e in Counts target (plus l (load target qs')) e'.status)
  unfolding step_at
  step_at-Counts l i a [] e small among h = h
  step_at-Counts l zero a (q ∷ qs) e small among h =
      let rest = load-pending target qs in
      let (q', e') = act a q e in
      let others = load target qs in
      let own =
        act-Counted (plus l others) a q e (omega (arith, small, rest.0))
          (omega (arith, among, rest.1))
          (Counts-plus_assoc target e.status l others (load_of target q)
            (Counts-plus_comm target e.status l (load_of target q) others h)) in
      Counts-plus_comm target e'.status l others (load_of target q')
        (Counts-assoc_plus target e'.status l others (load_of target q') own)
  step_at-Counts l (suc i) a (q ∷ qs) e small among h =
      let one = load_of-pending target q in
      let (qs', e') = step_at i a qs e in
      Counts-assoc_plus target e'.status l (load_of target q) (load target qs') (
        step_at-Counts (plus l (load_of target q)) i a qs e (omega (arith, small, one.0))
          (omega (arith, among, one.1))
          (Counts-plus_assoc target e.status l (load_of target q) (load target qs) h))
