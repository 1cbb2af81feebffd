-- ===== src/Dns/Scheduler/Runs.antt =====
-- Whole runs of the scheduler.
use mathlib.Core.Option
use verkkokyyla.Dns.Scheduler.Ring.{
  start_queries_bound, start_queries_full, latest, push_sample-latest,
}
use verkkokyyla.Dns.Scheduler.{
  SchedulerConfig, Sample, SampleCell, Completion, World, Progress, CellRun, default_sample_cap,
  effective, task_sample, start_queries, fill, join_one, snapshot, run_loop, run, nothing_yet,
}
use verkkokyyla.Prelude.Machine.{clamp}
use verkkokyyla.Prelude.{
  ℕ, zero, suc, ◌+◌, ◌-◌, ◌≤◌, ◌<◌, ◌≡◌, refl, ap, false, List, [], ◌++◌, some, arith, ltb, ◌==◌,
  min,
}

module _ {L : Type 0} (c : SchedulerConfig) (world : World L) (done : ℕ → Completion L) where
  -- The samples of the tasks, in the order in which they come back.
  abbrev pub sample_at : ℕ → Sample L
  sample_at k = task_sample world (done k)

  -- The state after so many tasks came back.
  abbrev reached : ℕ → ℕ → ℕ → Progress L
  reached turn r f = record {
    remaining = r;
    in_flight = f;
    ring = latest sample_at c.sample_cap turn;
    truncated = ltb c.sample_cap turn;
  }

  abbrev pub final_cell : ℕ → SampleCell L
  final_cell total = record {
    target = c.endpoint_name;
    samples = latest sample_at c.sample_cap total;
    truncated = ltb c.sample_cap total;
  }

  abbrev Finishes : ℕ → CellRun L → Type 0
  Finishes total out = (cells : List (SampleCell L)) × (out ≡ some (cells, final_cell total))

  prepend :
      (total : ℕ) (cells : List (SampleCell L)) (out : CellRun L)
      → Finishes total out
      → Finishes total (Option.map (λ rest. (cells ++ rest.0, rest.1)) out)
  prepend total cells out (rest, e) = (cells ++ rest, rw e refl)

  -- A turn with these queries after the inner loop, when the later turns finish.
  turn-Finishes :
      (total fuel turn r f : ℕ) (x : ℕ × ℕ)
      → ((n : ℕ) → world.is_cancelled turn n ≡ false)
      → world.join_next turn ≡ some (done turn)
      → 0 < c.concurrency
      → 0 < c.sample_cap
      → f ≤ c.concurrency
      → r + f + turn ≡ total
      → r + f < suc fuel
      → start_queries world turn c.concurrency r f ≡ x
      → ((r2 f2 : ℕ)
          → f2 ≤ c.concurrency
          → r2 + f2 + (turn + 1) ≡ total
          → r2 + f2 < fuel
          → Finishes total (run_loop c world fuel (turn + 1) (reached (turn + 1) r2 f2)))
      → Finishes total (run_loop c world (suc fuel) turn (reached turn r f))
  unfolding run_loop fill join_one
  turn-Finishes total fuel turn r f (r2, zero) live joins pos room fits sum enough e later =
      let over : turn ≡ total = omega (
        arith,
        ap (λ y. y.0) e,
        ap (λ y. y.1) e,
        start_queries_bound world turn c.concurrency r f fits,
        start_queries_full world turn c.concurrency r f live,
        sum,
        pos,
      ) in
      rw (e, ← over) ([], refl)
  turn-Finishes total fuel turn r f (r2, suc f2) live joins pos room fits sum enough e later =
      let bound = start_queries_bound world turn c.concurrency r f fits in
      let left = ap (λ y. y.0) e in
      let flying = ap (λ y. y.1) e in
      let busy : (suc f2 == 0) ≡ false = ground arith in
      let taken : suc f2 - 1 ≡ f2 = omega arith in
      rw (e, joins, push_sample-latest sample_at c.sample_cap turn room, busy, taken)
        (prepend total (snapshot c world turn (reached (turn + 1) r2 f2)) _ (
          later r2 f2 (omega (arith, bound, left, flying)) (omega (arith, bound, left, flying, sum))
            (omega (arith, bound, left, flying, enough))))

  -- The loop in a run that nobody cancels, whose tasks all come back.
  uncancelled_loop :
      (total fuel turn r f : ℕ)
      → ((k n : ℕ) → world.is_cancelled k n ≡ false)
      → ((k : ℕ) → world.join_next k ≡ some (done k))
      → 0 < c.concurrency
      → 0 < c.sample_cap
      → f ≤ c.concurrency
      → r + f + turn ≡ total
      → r + f < fuel
      → Finishes total (run_loop c world fuel turn (reached turn r f))
  uncancelled_loop total zero turn r f live joins pos room fits sum enough = elim enough [ ]
  uncancelled_loop total (suc fuel) turn r f live joins pos room fits sum enough =
      turn-Finishes total fuel turn r f (start_queries world turn c.concurrency r f) (live turn)
        (joins turn) pos room fits sum enough refl
        (λ r2 f2. uncancelled_loop total fuel (turn + 1) r2 f2 live joins pos room)

  none_at_first : latest sample_at c.sample_cap 0 ≡ []
  none_at_first = let none_yet : min 0 c.sample_cap ≡ 0 = omega arith in rw none_yet refl

  starts_empty : (total : ℕ) → reached 0 total 0 ≡ nothing_yet total
  starts_empty total =
      let below : ltb c.sample_cap 0 ≡ false = ground arith in rw (none_at_first, below) refl

  whole_run :
      (total : ℕ)
      → ((k n : ℕ) → world.is_cancelled k n ≡ false)
      → ((k : ℕ) → world.join_next k ≡ some (done k))
      → 0 < c.concurrency
      → 0 < c.sample_cap
      → Finishes total (run_loop c world (total + 1) 0 (nothing_yet total))
  whole_run total live joins pos room = rw (← starts_empty total) (
      uncancelled_loop total (total + 1) 0 total 0 live joins pos room (omega arith) (omega arith)
        (omega arith))

clamped :
    (x : ℕ)
    → (0 < clamp x 1 default_sample_cap) × (clamp x 1 default_sample_cap ≤ default_sample_cap)
unfolding clamp
clamped x = ground arith

effective_bounds :
    (config : SchedulerConfig)
    → 0 < config.concurrency
    → (0 < (effective config).concurrency) × (0 < (effective config).sample_cap)
unfolding effective
effective_bounds config pos = (omega (arith, pos), (clamped config.sample_cap).0)

-- A run with a concurrency above 0 that nobody cancels, whose tasks all come back, ends within one
-- turn more than it has queries. Its cell holds the samples of the latest tasks that came back, in
-- their order, up to the effective cap, and is marked truncated exactly if there were more.
pub run-latest :
    {L : Type 0} (config : SchedulerConfig) (world : World L) (done : ℕ → Completion L) (total : ℕ)
    → ((k n : ℕ) → world.is_cancelled k n ≡ false)
    → ((k : ℕ) → world.join_next k ≡ some (done k))
    → 0 < config.concurrency
    → (cells : List (SampleCell L)) × (run (total + 1) world config total
        ≡ some (cells, final_cell (effective config) world done total))
unfolding run
run-latest config world done zero live joins pos =
    let below : ltb (effective config).sample_cap 0 ≡ false = ground arith in
    ([], rw (none_at_first (effective config) world done, below) refl)
run-latest config world done (suc total) live joins pos =
    let wanted : (suc total == 0) ≡ false = ground arith in
    rw wanted (
      whole_run (effective config) world done (suc total) live joins (effective_bounds config pos).0
        (effective_bounds config pos).1)
