-- ===== src/Dns/Scheduler.antt =====
-- dns/bench/scheduler.rs: queries with a bound on those in flight, and the latest samples kept in a
-- ring. What the tasks answer, the moments of a cancellation and the clock are the record `World`.
pub mod Ring
pub mod Runs
pub mod Limits
use mathlib.Core.Option
use verkkokyyla.Dns.Error.{DnsError, error_kind}
use verkkokyyla.Prelude.Machine.{clamp}
use verkkokyyla.Prelude.Text.{Text, codes, text_eq}
use verkkokyyla.Prelude.{
  ℕ, zero, suc, ◌+◌, ◌-◌, min, Bool, true, false, not, ◌&&◌, List, [], ◌∷◌, ◌++◌, Option, none,
  some, length, ltb, leb, ◌==◌, if◌then◌else◌,
}

abbrev pub hard_concurrency_cap : ℕ
hard_concurrency_cap = 64

abbrev pub default_sample_cap : ℕ
default_sample_cap = 100000

-- The fields that bound a run; the endpoint is its name.
pub record SchedulerConfig : Type 0 where
  pub endpoint_name : Text
  pub concurrency : ℕ
  pub sample_cap : ℕ

unfoldable pub effective : SchedulerConfig → SchedulerConfig
unfolding clamp
effective c = record c {
  concurrency = min c.concurrency hard_concurrency_cap;
  sample_cap = clamp c.sample_cap 1 default_sample_cap;
}

pub data SampleOutcome : Type 0 where
  succeeded timed_out servfail refused nxdomain no_data : SampleOutcome

-- A latency is a float, of a type `L`.
pub record Sample (L : Type 0) : Type 0 where
  pub latency_ms : L
  pub outcome : SampleOutcome
  pub cold_conn : Bool

pub record SampleCell (L : Type 0) : Type 0 where
  pub target : Text
  pub samples : List (Sample L)
  pub truncated : Bool

-- By the kind of the error.
abbrev pub classify_kind : Text → SampleOutcome
classify_kind kind =
    if text_eq kind (codes "timeout")
    then timed_out
    else if text_eq kind (codes "servfail")
    then servfail
    else if text_eq kind (codes "refused")
    then refused
    else if text_eq kind (codes "nxdomain")
    then nxdomain
    else no_data

abbrev pub classify_error : DnsError → SampleOutcome
classify_error e = classify_kind (error_kind e)

-- How a task ends: it saw the cancellation, its query was answered, or its query failed with this
-- error.
pub data Completion (L : Type 0) : Type 0 where
  cancelled : Completion L
  answered : L → Completion L
  failed : L → DnsError → Completion L

-- The world of a run, by the turn of its loop: `is_cancelled` at a test before the next query with so
-- many in flight, the task that `join_next` hands over (none for one that panicked), and whether a
-- snapshot is due.
pub record World (L : Type 0) : Type 0 where
  pub no_latency : L
  pub is_cancelled : ℕ → ℕ → Bool
  pub join_next : ℕ → Option (Completion L)
  pub snapshot_due : ℕ → Bool

-- The value of a task.
abbrev pub task_sample : {L : Type 0} → World L → Completion L → Sample L
task_sample world cancelled = record {
  latency_ms = world.no_latency;
  outcome = timed_out;
  cold_conn = false;
}
task_sample world (answered ms) = record { latency_ms = ms; outcome = succeeded; cold_conn = false }
task_sample world (failed ms e) = record {
  latency_ms = ms;
  outcome = classify_error e;
  cold_conn = false;
}

pub record Progress (L : Type 0) : Type 0 where
  pub remaining : ℕ
  pub in_flight : ℕ
  pub ring : List (Sample L)
  pub truncated : Bool

abbrev pub pop_front {ℓ} : {A : Type ℓ} → List A → List A
pop_front [] = []
pop_front (x ∷ xs) = xs

-- The inner loop: remaining and in flight after it.
unfoldable pub start_queries : {L : Type 0} → World L → ℕ → ℕ → ℕ → ℕ → ℕ × ℕ
start_queries world turn concurrency zero in_flight = (zero, in_flight)
start_queries world turn concurrency (suc remaining) in_flight =
    let rest = start_queries world turn concurrency remaining (in_flight + 1) in
    if ltb in_flight concurrency && not (world.is_cancelled turn in_flight)
    then rest
    else (suc remaining, in_flight)

unfoldable pub push_sample :
    {L : Type 0} → ℕ → Sample L → List (Sample L) → Bool → List (Sample L) × Bool
push_sample cap sample ring truncated =
    if leb cap (length ring)
    then (pop_front ring ++ sample ∷ [], true)
    else (ring ++ sample ∷ [], truncated)

abbrev pub cell_of : {L : Type 0} → SchedulerConfig → Progress L → SampleCell L
cell_of c p = record { target = c.endpoint_name; samples = p.ring; truncated = p.truncated }

abbrev pub collect :
    {L : Type 0}
    → SchedulerConfig
    → World L
    → Progress L
    → Option (Completion L)
    → Option (Progress L)
collect c world p none = none
collect c world p (some done) =
    let kept = push_sample c.sample_cap (task_sample world done) p.ring p.truncated in
    some (record p { in_flight = p.in_flight - 1; ring = kept.0; truncated = kept.1 })

-- What a turn of the outer loop hands to the next one, after the inner loop: nothing when it breaks.
unfoldable pub join_one :
    {L : Type 0} → SchedulerConfig → World L → ℕ → Progress L → Option (Progress L)
join_one c world turn p =
    if p.in_flight == 0 then none else collect c world p (world.join_next turn)

unfoldable pub fill : {L : Type 0} → SchedulerConfig → World L → ℕ → Progress L → Progress L
fill c world turn p =
    let started = start_queries world turn c.concurrency p.remaining p.in_flight in
    record p { remaining = started.0; in_flight = started.1 }

abbrev pub snapshot :
    {L : Type 0} → SchedulerConfig → World L → ℕ → Progress L → List (SampleCell L)
snapshot c world turn p = if world.snapshot_due turn then cell_of c p ∷ [] else []

abbrev pub CellRun : Type 0 → Type 0
CellRun L = Option (List (SampleCell L) × SampleCell L)

-- The end of a turn: the final cell when the loop breaks, or the snapshot and the other turns.
abbrev pub turn_end :
    {L : Type 0}
    → SchedulerConfig
    → World L
    → ℕ
    → Progress L
    → (Progress L → CellRun L)
    → Option (Progress L)
    → CellRun L
turn_end c world turn p rest none = some ([], cell_of c p)
turn_end c world turn p rest (some q) =
    Option.map (λ out. (snapshot c world turn q ++ out.0, out.1)) (rest q)

-- The outer loop, on fuel: the snapshots and the final cell.
unfoldable pub run_loop : {L : Type 0} → SchedulerConfig → World L → ℕ → ℕ → Progress L → CellRun L
run_loop c world zero turn p = none
run_loop c world (suc fuel) turn p =
    let filled = fill c world turn p in
    turn_end c world turn filled (run_loop c world fuel (turn + 1)) (join_one c world turn filled)

abbrev pub nothing_yet : {L : Type 0} → ℕ → Progress L
nothing_yet total_queries = record {
  remaining = total_queries;
  in_flight = 0;
  ring = [];
  truncated = false;
}

-- `BenchScheduler::new` and `run`.
unfoldable pub run : {L : Type 0} → ℕ → World L → SchedulerConfig → ℕ → CellRun L
run fuel world config total_queries =
    let c = effective config in
    if total_queries == 0
    then some ([], record { target = c.endpoint_name; samples = []; truncated = false })
    else run_loop c world fuel 0 (nothing_yet total_queries)
