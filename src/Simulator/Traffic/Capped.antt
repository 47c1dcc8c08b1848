-- ===== src/Simulator/Traffic/Capped.antt =====
-- What the counters of ISO8583PaymentSimulator/src/engine.rs say, however its workers interleave.
use mathlib.Core.Path.{subst}
use mathlib.Core.Option.{some-injective}
use iso8583paymentsengine.Base.{
  ℕ, zero, suc, ◌+◌, ◌^◌, ◌<◌, ◌≤◌, ◌≡◌, refl, ap, false, Option, some, List, [], ◌∷◌, leb, ltb,
  length, replicate, if_cases, Bool-cases, inl, inr, arith,
}
use iso8583paymentsengine.Simulator.Traffic.Counters.{
  StatusCounters, HistoryRecord, SimEngine, at_least_1, or_else, watch, cancel_sim, update_tps,
  drop_last, push_history, claim, settle, Phase, idle, busy, claimed, ended, counted, sorted,
  summed, divided, averaged, timed, rated, Act, go, unencodable, cancel, ends, act, step_at, Step,
  worker, cancelled, watched, step, run, start_sim,
}
use iso8583paymentsengine.Simulator.Traffic.Counts.{
  Load, no_load, load, Counts, Counts-plus_none, Counts-none_plus, load-pending,
}
use iso8583paymentsengine.Simulator.Traffic.Settled.{step_at-Counts}

length-drop_last : {A : Type 0} (x : A) (xs : List A) → length (drop_last (x ∷ xs)) ≡ length xs
unfolding drop_last
length-drop_last x [] = refl
length-drop_last x (y ∷ xs) = omega (arith, length-drop_last y xs)

length-push_history :
    (r : HistoryRecord) (rs : List HistoryRecord)
    → length rs ≤ 100
    → length (push_history r rs) ≤ 100
unfolding push_history
length-push_history r rs h =
    if_cases (λ (l : List HistoryRecord). length l ≤ 100) (ltb 100 (length (r ∷ rs)))
      (λ _. omega (arith, length-drop_last r rs, h)) (λ b. ground (arith, b))

claim-history : (q : Phase) (e : SimEngine) → (claim q e).1.history ≡ e.history
unfolding claim
claim-history idle e =
    if_cases (λ (r : Phase × SimEngine). r.1.history ≡ e.history) e.status.running (λ _. refl)
      (λ _. refl)
claim-history (claimed n) e =
    if_cases (λ (r : Phase × SimEngine). r.1.history ≡ e.history) (leb e.status.total_target n)
      (λ _. refl) (λ _. refl)
claim-history q e = refl

act-history :
    (a : Act) (q : Phase) (e : SimEngine)
    → length e.history ≤ 100
    → length (act a q e).1.history ≤ 100
unfolding act settle update_tps
act-history (go now) (rated r) e h = length-push_history r e.history h
act-history (go now) (ended r) e h = h
act-history (go now) (counted r n) e h = h
act-history (go now) (sorted r n) e h = h
act-history (go now) (summed r n) e h = h
act-history (go now) (divided r n) e h = h
act-history (go now) (averaged r) e h = h
act-history (go now) (timed r) e h = h
act-history (go now) q e h = omega (arith, ap length (claim-history q e))
act-history (ends r) busy e h = h
act-history unencodable busy e h = h
act-history cancel busy e h = h
act-history a q e h = h

step_at-history :
    (i : ℕ) (a : Act) (qs : List Phase) (e : SimEngine)
    → length e.history ≤ 100
    → (length (step_at i a qs e).1.history ≤ 100) × (length (step_at i a qs e).0 ≡ length qs)
unfolding step_at
step_at-history i a [] e h = (h, refl)
step_at-history zero a (q ∷ qs) e h = (act-history a q e h, refl)
step_at-history (suc i) a (q ∷ qs) e h =
    let (short, same) = step_at-history i a qs e h in (short, omega (arith, same))

Counts-stop :
    (target : ℕ) (l : Load) (c : StatusCounters)
    → Counts target l c
    → Counts target l (record c { running = false })
Counts-stop target l c h = record {
  same_target = h.same_target;
  capped = h.capped;
  covered = h.covered;
  working = h.working;
  shared_out = h.shared_out;
}

-- The counters and the workers.
abbrev Consistent : ℕ → List Phase → SimEngine → Type 0
Consistent target qs e = Counts target (load target qs) e.status × (length e.history ≤ 100)

module _ (target : ℕ) where
  watch-Consistent :
      (volume : ℕ) (qs : List Phase) (e : SimEngine)
      → Consistent target qs e
      → Consistent target qs (watch volume e)
  unfolding watch
  watch-Consistent volume qs e h =
      if_cases (λ (d : SimEngine). Consistent target qs d) (leb volume e.status.completed)
        (λ _. (Counts-stop target _ e.status h.0, h.1)) (λ _. h)

  step-Consistent :
      (s : Step) (qs : List Phase) (e : SimEngine)
      → target + length qs + 4 < 2 ^ 64
      → Consistent target qs e
      → Consistent target (step s qs e).0 (step s qs e).1 × (length (step s qs e).0 ≡ length qs)
  unfolding step cancel_sim
  step-Consistent (worker i a) qs e small h =
      let (short, same) = step_at-history i a qs e h.1 in
      let (qs', e') = step_at i a qs e in
      let counts =
        step_at-Counts target no_load i a qs e (omega (arith, small)) (omega arith)
          (Counts-plus_none target e.status (load target qs) h.0) in
      ((Counts-none_plus target e'.status (load target qs') counts, short), same)
  step-Consistent cancelled qs e small h = ((Counts-stop target _ e.status h.0, h.1), refl)
  step-Consistent (watched volume) qs e small h = (watch-Consistent volume qs e h, refl)

  run-Consistent :
      (steps : List Step) (qs : List Phase) (e : SimEngine)
      → target + length qs + 4 < 2 ^ 64
      → Consistent target qs e
      → Consistent target (run steps qs e).0 (run steps qs e).1
        × (length (run steps qs e).0 ≡ length qs)
  unfolding run
  run-Consistent [] qs e small h = (h, refl)
  run-Consistent (s ∷ steps) qs e small h =
      let (kept, same) = step-Consistent s qs e small h in
      let (qs', e') = step s qs e in
      let (all, same') = run-Consistent steps qs' e' (omega (arith, same)) kept in
      (all, omega (arith, same, same'))

-- Workers at the head of their loops count for nothing.
idle-Counts :
    (target n : ℕ) (c : StatusCounters)
    → Counts target no_load c
    → Counts target (load target (replicate n idle)) c
idle-Counts target zero c h = h
idle-Counts target (suc n) c h = Counts-plus_none target c _ (idle-Counts target n c h)

start_sim-Consistent :
    (volume concurrency : Option ℕ) (e started : SimEngine) (workers : List Phase)
    → start_sim volume concurrency e ≡ some (workers, started)
    → Consistent started.status.total_target workers started
unfolding start_sim
start_sim-Consistent volume concurrency e started workers h = elim (Bool-cases e.status.running) [
  | inl b ↦ cc (rw b at h)
  | inr b ↦
      subst (λ (x : List Phase × SimEngine). Consistent x.1.status.total_target x.0 x.1)
        (some-injective _ _ (rw b at h))
        (
          idle-Counts (at_least_1 (or_else 100 volume)) (at_least_1 (or_else 10 concurrency)) _
              (record {
                same_target = refl;
                capped = omega arith;
                covered = omega arith;
                working = omega arith;
                shared_out = omega arith;
              }),
          omega arith,
        )
]

-- A run that is started on an engine that is not running and has no workers left, with fewer than
-- 2^64 - 4 transactions and workers. After any atomic operations of the workers in any order, with
-- cancellations and looks of the task that waits for the end anywhere among them: no more transactions
-- than the target are completed, in flight, or between the two; the generated ones cover these and the
-- workers that have not looked at the target or acted on it yet, and exceed the target by at most those
-- workers, whose number is at most that of all; a worker that is at a transaction has it in flight; the
-- completed ones are the successes, the time-outs, the declines, and those that their workers have not
-- sorted yet; and the history has at most 100 records.
pub run_capped :
    (volume concurrency : Option ℕ) (e started : SimEngine) (workers : List Phase)
    (steps : List Step)
    → start_sim volume concurrency e ≡ some (workers, started)
    → started.status.total_target + length workers + 4 < 2 ^ 64
    → (let target = started.status.total_target in
        let (qs, e') = run steps workers started in
        let c = e'.status in
        let l = load target qs in
        (c.completed + c.in_flight + l.ending ≤ target)
        × (c.completed + c.in_flight + l.ending + l.pending ≤ c.generated)
        × (c.generated ≤ target + l.pending)
        × (l.pending ≤ length workers)
        × (l.at_work ≤ c.in_flight)
        × (c.completed ≡ c.success + c.timeout + c.decline + l.unsorted)
        × (length e'.history ≤ 100))
run_capped volume concurrency e started workers steps begun small =
    let target = started.status.total_target in
    let fresh = start_sim-Consistent volume concurrency e started workers begun in
    let (kept, same) = run-Consistent target steps workers started small fresh in
    let (qs, e') = run steps workers started in
    (
      omega (arith, kept.0.covered, kept.0.capped),
      kept.0.covered,
      omega (arith, kept.0.capped),
      omega (arith, (load-pending target qs).0, same),
      kept.0.working,
      kept.0.shared_out,
      kept.1,
    )
