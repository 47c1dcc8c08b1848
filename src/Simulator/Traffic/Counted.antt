-- ===== src/Simulator/Traffic/Counted.antt =====
-- The counters of ISO8583PaymentSimulator/src/engine.rs at the head of a worker's loop.
use iso8583paymentsengine.Base.{
  ℕ, ◌+◌, ◌^◌, ◌<◌, ◌≤◌, ◌≡◌, leb, ltb, if◌then◌else◌, if_cases, arith,
}
use iso8583paymentsengine.Simulator.Traffic.Counters.{
  increment, SimEngine, claim, Phase, idle, entered, over, allowed, claimed,
}
use iso8583paymentsengine.Simulator.Traffic.Counts.{Load, plus, load_of, Counts}

-- The load of the other workers, and one worker's step.
module _ (target : ℕ) where
  abbrev pub Counted : Load → Phase × SimEngine → Type 0
  Counted l (q, e) = Counts target (plus l (load_of target q)) e.status

  pub claim-entered :
      (l : Load) (e : SimEngine)
      → target + l.pending + 4 < 2 ^ 64
      → l.good ≤ l.pending
      → Counted l (entered, e)
      → Counted l (claim entered e)
  unfolding claim
  claim-entered l e small among h =
      if_cases
        (λ (n : ℕ).
          Counts target
            (plus l (record { pending = 1; good = n; at_work = 0; ending = 0; unsorted = 0 }))
            (record e.status { generated = increment e.status.generated }))
        (ltb e.status.generated target)
        (λ b.
          let below : e.status.generated < target = ground (arith, b) in
          record {
            same_target = h.same_target;
            capped = omega (arith, h.capped);
            covered = omega (arith, h.covered, h.capped);
            working = h.working;
            shared_out = h.shared_out;
          })
        (λ _. record {
          same_target = h.same_target;
          capped = omega (arith, h.capped);
          covered = omega (arith, h.covered, h.capped);
          working = h.working;
          shared_out = h.shared_out;
        })

  pub claim-claimed :
      (l : Load) (n : ℕ) (e : SimEngine)
      → Counted l (claimed n, e)
      → Counted l (claim (claimed n) e)
  unfolding claim
  claim-claimed l n e h =
      let good_now : ℕ = if ltb n target then 1 else 0 in
      if_cases (Counted l) (leb e.status.total_target n)
        (λ b.
          let none_left : good_now ≡ 0 = ground (arith, b, h.same_target) in
          record {
            same_target = h.same_target;
            capped = omega (arith, h.capped, none_left);
            covered = h.covered;
            working = h.working;
            shared_out = h.shared_out;
          })
        (λ b.
          let one_left : good_now ≡ 1 = ground (arith, b, h.same_target) in
          record {
            same_target = h.same_target;
            capped = omega (arith, h.capped, one_left);
            covered = h.covered;
            working = h.working;
            shared_out = h.shared_out;
          })

  pub claim-over :
      (l : Load) (e : SimEngine)
      → target + l.pending + 4 < 2 ^ 64
      → Counted l (over, e)
      → Counted l (claim over e)
  unfolding claim
  claim-over l e small h = record {
    same_target = h.same_target;
    capped = omega (arith, h.capped, h.covered);
    covered = omega (arith, h.capped, h.covered);
    working = h.working;
    shared_out = h.shared_out;
  }

  pub claim-allowed :
      (l : Load) (e : SimEngine)
      → target + l.pending + 4 < 2 ^ 64
      → Counted l (allowed, e)
      → Counted l (claim allowed e)
  unfolding claim
  claim-allowed l e small h = record {
    same_target = h.same_target;
    capped = omega (arith, h.capped);
    covered = omega (arith, h.capped, h.covered);
    working = omega (arith, h.capped, h.covered, h.working);
    shared_out = h.shared_out;
  }

  pub claim-idle : (l : Load) (e : SimEngine) → Counted l (idle, e) → Counted l (claim idle e)
  unfolding claim
  claim-idle l e h = if_cases (Counted l) e.status.running (λ _. h) (λ _. h)
