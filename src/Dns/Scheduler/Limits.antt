-- ===== src/Dns/Scheduler/Limits.antt =====
-- The limits of a run in every world: cancelled at any moment, with tasks that panic.
use verkkokyyla.Dns.Scheduler.Ring.{start_queries_bound}
use verkkokyyla.Dns.Scheduler.{
  SchedulerConfig, Sample, SampleCell, Completion, World, Progress, CellRun, default_sample_cap,
  effective, task_sample, pop_front, push_sample, fill, join_one, collect, cell_of, snapshot,
  turn_end, run_loop, run, nothing_yet,
}
use verkkokyyla.Prelude.Machine.{clamp}
use verkkokyyla.Prelude.{
  ℕ, zero, suc, ◌+◌, ◌-◌, ◌≤◌, ◌<◌, ◌≡◌, refl, Bool, List, [], ◌∷◌, ◌++◌, Option, none, some, arith,
  length, leb, ◌==◌, Bool-cases, inl, inr,
}

length-snoc : {A : Type 0} (xs : List A) (x : A) → length (xs ++ x ∷ []) ≡ length xs + 1
length-snoc [] x = refl
length-snoc (y ∷ ys) x = omega (arith, length-snoc ys x)

length-pop_front : {A : Type 0} (xs : List A) → length (pop_front xs) ≡ length xs - 1
length-pop_front [] = refl
length-pop_front (x ∷ xs) = omega arith

push_sample_limit :
    {L : Type 0} (limit : ℕ) (s : Sample L) (ring : List (Sample L)) (b : Bool)
    → 0 < limit
    → length ring ≤ limit
    → length (push_sample limit s ring b).0 ≤ limit
unfolding push_sample
push_sample_limit limit s ring b pos h = elim (Bool-cases (leb limit (length ring))) [
  | inl full ↦
      rw full (rw (length-snoc (pop_front ring) s, length-pop_front ring) (omega (arith, pos, h)))
  | inr free ↦ rw free (rw (length-snoc ring s) (ground (arith, free)))
]

-- No query in flight above the bound, no sample above the cap.
abbrev pub IsLimited : {L : Type 0} → SchedulerConfig → Progress L → Type 0
IsLimited c p = (p.in_flight ≤ c.concurrency) × (length p.ring ≤ c.sample_cap)

-- Every cell of a run, snapshots and the last one, is within the limit.
abbrev pub AreWithin : {L : Type 0} → ℕ → List (SampleCell L) → Type 0
AreWithin limit [] = Unit
AreWithin limit (cell ∷ cells) = (length cell.samples ≤ limit) × AreWithin limit cells

-- The run ends, with cells within the limit.
abbrev pub EndsWithin : {L : Type 0} → ℕ → CellRun L → Type 0
EndsWithin {L = L} limit out =
    (cells : List (SampleCell L)) × (last : SampleCell L) × (out ≡ some (cells, last))
    × AreWithin limit cells
    × (length last.samples ≤ limit)

module _ {L : Type 0} (c : SchedulerConfig) (world : World L) where
  fill-IsLimited :
      (turn : ℕ) (p : Progress L)
      → IsLimited c p
      → IsLimited c (fill c world turn p)
        × ((fill c world turn p).remaining + (fill c world turn p).in_flight
            ≡ p.remaining + p.in_flight)
  unfolding fill
  fill-IsLimited turn p (fits, within) =
      let b = start_queries_bound world turn c.concurrency p.remaining p.in_flight fits in
      ((b.0, within), b.1)

  -- A state for the next turn has one task less before it, and keeps the limits.
  abbrev GoesOn : Progress L → Option (Progress L) → Type 0
  GoesOn p none = Unit
  GoesOn p (some q) = IsLimited c q × (q.remaining + q.in_flight + 1 ≡ p.remaining + p.in_flight)

  collect-GoesOn :
      (p : Progress L) (next : Option (Completion L))
      → 0 < c.sample_cap
      → 0 < p.in_flight
      → IsLimited c p
      → GoesOn p (collect c world p next)
  collect-GoesOn p none room busy v = tt
  collect-GoesOn p (some done) room busy (fits, within) = (
    (
      omega (arith, fits),
      push_sample_limit c.sample_cap (task_sample world done) p.ring p.truncated room within,
    ),
    omega (arith, busy),
  )

  join_one-GoesOn :
      (turn : ℕ) (p : Progress L)
      → 0 < c.sample_cap
      → IsLimited c p
      → GoesOn p (join_one c world turn p)
  unfolding join_one
  join_one-GoesOn turn p room v = elim (Bool-cases (p.in_flight == 0)) [
    | inl idle ↦ rw idle tt
    | inr busy ↦ rw busy (collect-GoesOn p (world.join_next turn) room (ground (arith, busy)) v)
  ]

  turn_end-EndsWithin :
      (turn : ℕ) (p : Progress L) (rest : Progress L → CellRun L) (next : Option (Progress L))
      → IsLimited c p
      → GoesOn p next
      → ((q : Progress L)
          → IsLimited c q
          → q.remaining + q.in_flight + 1 ≡ p.remaining + p.in_flight
          → EndsWithin c.sample_cap (rest q))
      → EndsWithin c.sample_cap (turn_end c world turn p rest next)
  turn_end-EndsWithin turn p rest none v g later = ([], cell_of c p, refl, tt, v.1)
  turn_end-EndsWithin turn p rest (some q) v g later =
      let (cells, last, e, all, final) = later q g.0 g.1 in
      (snapshot c world turn q ++ cells, last, rw e refl, with_snapshot turn q cells g.0 all, final)
    where
      with_snapshot :
          (turn : ℕ) (q : Progress L) (cells : List (SampleCell L))
          → IsLimited c q
          → AreWithin c.sample_cap cells
          → AreWithin c.sample_cap (snapshot c world turn q ++ cells)
      with_snapshot turn q cells g all = elim (Bool-cases (world.snapshot_due turn)) [
        | inl due ↦ rw due (g.1, all)
        | inr early ↦ rw early all
      ]

  run_loop-EndsWithin :
      (fuel turn : ℕ) (p : Progress L)
      → 0 < c.sample_cap
      → IsLimited c p
      → p.remaining + p.in_flight < fuel
      → EndsWithin c.sample_cap (run_loop c world fuel turn p)
  unfolding run_loop
  run_loop-EndsWithin zero turn p room v enough = elim enough [ ]
  run_loop-EndsWithin (suc fuel) turn p room v enough =
      let f = fill-IsLimited turn p v in
      let filled = fill c world turn p in
      turn_end-EndsWithin turn filled (run_loop c world fuel (turn + 1))
        (join_one c world turn filled) f.0 (join_one-GoesOn turn filled room f.0)
        (λ q w sum. run_loop-EndsWithin fuel (turn + 1) q room w (omega (arith, sum, f.1, enough)))

effective_cap :
    (config : SchedulerConfig)
    → (0 < (effective config).sample_cap) × ((effective config).sample_cap ≤ default_sample_cap)
unfolding effective clamp
effective_cap config = ground arith

-- Whatever is asked for, cancelled at any moment and with any tasks that panic, a run ends within one
-- turn more than it has queries, and neither a snapshot nor the final cell holds more samples than
-- the effective cap, which lies between 1 and 100000.
pub run-EndsWithin :
    {L : Type 0} (config : SchedulerConfig) (world : World L) (total : ℕ)
    → EndsWithin (effective config).sample_cap (run (total + 1) world config total)
      × (0 < (effective config).sample_cap)
      × ((effective config).sample_cap ≤ default_sample_cap)
unfolding run
run-EndsWithin config world total = elim (Bool-cases (total == 0)) [
  | inl idle ↦ let b = effective_cap config in (rw idle ([], _, refl, tt, omega arith), b.0, b.1)
  | inr wanted ↦
      let b = effective_cap config in
      (
        rw wanted (
            run_loop-EndsWithin (effective config) world (total + 1) 0 (nothing_yet total) b.0
              (omega arith, omega arith) (omega arith)),
        b.0,
        b.1,
      )
]
