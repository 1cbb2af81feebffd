-- ===== src/Tests/Mtu.antt =====
-- Path MTU discovery at concrete paths.
use verkkokyyla.Mtu.Rows.RoundTrip.{row_result_to_dto-result_kind_to_row}
use verkkokyyla.Mtu.Rows.{result_kind_to_row, row_result_to_dto, result_dto}
use verkkokyyla.Mtu.Runtime.Converges.{Answers, run_mtu-finds_link}
use verkkokyyla.Mtu.Runtime.Endless.{IsAnswer, narrow_config, run_mtu-endless}
use verkkokyyla.Mtu.Runtime.Ends.{Ended}
use verkkokyyla.Mtu.Runtime.Journal.{attempts, numbers_after, Reports, run_mtu-attempts}
use verkkokyyla.Mtu.Runtime.Total.{HasRoom, run_mtu_total}
use verkkokyyla.Mtu.Runtime.{
  Env, Effect, RunResult, stopped, finish_run, run_loop, run_mtu, cancel_run, probe_effects,
}
use verkkokyyla.Mtu.Search.Descent.{probe_limit}
use verkkokyyla.Mtu.Search.Knowledge.{Knows, start, next, Run-Knows}
use verkkokyyla.Mtu.Search.{
  new, payload_to_mtu, confirm_attempts, mtu_to_payload, hint_to_payload, next_refine_payload,
  initial_action, emit_probe, finish, emit_bracket_probe, start_bracket, emit_refine_probe,
  continue_refine, step_baseline, step_bracket, step_refine, step,
}
use verkkokyyla.Mtu.Types.{
  ProbeOutcome, ok, too_big, timeout, default_config, IsValid, ResultKind, exact, lower_bound,
  timeout_above, SearchResult,
}
use verkkokyyla.Prelude.Machine.{clamp, saturate, bump_u64}
use verkkokyyla.Prelude.Text.{codes}
use verkkokyyla.Prelude.{
  ℕ, ◌+◌, ◌%◌, ◌==◌, ◌≤◌, ◌≡◌, inl, refl, true, false, List, ◌++◌, Option, none, some, arith, leb,
  if◌then◌else◌, Bool-cases, inr,
}

default_config-IsValid : IsValid default_config
default_config-IsValid = record {
  overhead_le_floor = omega arith;
  floor_lt_start = omega arith;
  start_le_ceiling = omega arith;
  ceiling_fits = omega arith;
  probes_fit = omega arith;
  baseline_le_floor = omega arith;
}

default_config-HasRoom : HasRoom default_config
default_config-HasRoom = record {
  floor_below = omega arith;
  ceiling_le = omega arith;
  ne_1501 = omega arith;
  ne_3001 = omega arith;
  ne_6001 = omega arith;
}

-- A path of a given MTU that answers every probe, with no hints.
abbrev answer : ℕ → ℕ → ProbeOutcome
answer link payload = if leb (payload + 28) link then ok 1000000 else too_big none

answer-Answers : (link payload : ℕ) → Answers link payload (answer link payload)
answer-Answers link payload = elim (Bool-cases (leb (payload + 28) link)) [
  | inl fits ↦ rw fits (ground arith)
  | inr large ↦ rw large (ground arith)
]

abbrev path : ℕ → Env ℕ
path link = record {
  engine = λ seq payload. answer link payload;
  stop = λ seq. false;
  now = λ seq. codes "now";
  as_ms = λ rtt. rtt;
  finish_stored = true;
}

-- The kind and the count that a run reports.
abbrev reported : Option (List (Effect ℕ) × RunResult) → Option RunResult
reported none = none
reported (some (log, result)) = some result

-- Eleven probes find an MTU of 1420.
probes_1420 : reported (run_mtu (path 1420) 100 default_config) ≡ some (stopped 11)
unfolding run_mtu run_loop new initial_action step step_baseline step_bracket step_refine
    start_bracket emit_bracket_probe emit_refine_probe continue_refine emit_probe finish
    payload_to_mtu mtu_to_payload hint_to_payload next_refine_payload confirm_attempts clamp
    saturate bump_u64 finish_run probe_effects
probes_1420 = refl

default_limit : probe_limit default_config ≤ 36002
unfolding confirm_attempts
default_limit = omega arith

run_mtu-finds_link_example :
    (r : SearchResult) × (log : List (Effect ℕ)) × (r.kind ≡ exact 1420)
    × (run_mtu (path 1420) 36002 default_config
        ≡ some (log ++ (finish_run (path 1420) r).0, (finish_run (path 1420) r).1))
run_mtu-finds_link_example =
    run_mtu-finds_link (path 1420) default_config default_config-IsValid 1420 (omega arith)
      (λ seq payload. answer-Answers 1420 payload) (λ seq. refl) 36002 default_limit

-- An engine that loses every third probe, and is stopped before the ninth.
abbrev lossy : Env ℕ
lossy = record (path 1420) {
  engine = λ seq payload. if seq % 3 == 0 then timeout else answer 1420 payload;
  stop = λ seq. seq == 9;
}

run_mtu_total_example : Ended lossy (λ r. Unit) (run_mtu lossy 36002 default_config)
run_mtu_total_example =
    run_mtu_total lossy default_config default_config-IsValid default_config-HasRoom 36002
      default_limit

-- The path narrows after the second probe.
abbrev narrowing : Env ℕ
narrowing = record (path 1420) {
  engine = λ seq payload. if leb seq 2 then ok 1000000 else too_big none;
}

narrowing-IsAnswer : (seq payload : ℕ) → IsAnswer (narrowing.engine seq payload)
narrowing-IsAnswer seq payload = elim (Bool-cases (leb seq 2)) [
  | inl early ↦ rw early tt
  | inr late ↦ rw late tt
]

run_mtu-endless_example : run_mtu narrowing 1000 narrow_config ≡ none
run_mtu-endless_example =
    run_mtu-endless narrowing (λ seq. refl) 1000000 1000000 none none narrowing-IsAnswer refl refl
      refl refl 1000

-- The search after the baseline and 1500 bytes passed on a path of 2000 bytes.
Run-Knows_example :
    Knows 2000 default_config (step (step (new default_config) (ok 5)).0 (ok 5)).0.phase
unfolding new step step_baseline step_bracket start_bracket emit_bracket_probe emit_probe
    mtu_to_payload clamp saturate
Run-Knows_example =
    Run-Knows default_config-IsValid (omega arith)
      (next (ok 5) (next (ok 5) start (omega arith)) (omega arith))

abbrev lower_bound_1420 : ResultKind
lower_bound_1420 = lower_bound 1420 (timeout_above 1500)

row_result_to_dto-result_kind_to_row_example :
    row_result_to_dto (result_kind_to_row lower_bound_1420) ≡ result_dto lower_bound_1420
row_result_to_dto-result_kind_to_row_example =
    row_result_to_dto-result_kind_to_row lower_bound_1420 (omega arith)

-- A run that is stopped before its second probe.
abbrev halted : Env ℕ
halted = record (path 1420) { stop = λ seq. seq == 2 }

abbrev halted_log : List (Effect ℕ)
halted_log = probe_effects halted 1 56 84 (ok 1000000) ++ (cancel_run halted 1).0

halted_run : run_mtu halted 5 default_config ≡ some (halted_log, stopped 1)
unfolding run_mtu run_loop new initial_action step step_baseline start_bracket emit_bracket_probe
    emit_probe payload_to_mtu mtu_to_payload clamp saturate bump_u64 cancel_run probe_effects
halted_run = refl

run_mtu-attempts_example :
    (k : ℕ) × (attempts halted_log ≡ numbers_after 0 k) × Reports (stopped 1) k
run_mtu-attempts_example = run_mtu-attempts halted default_config 5 (omega arith) halted_run
