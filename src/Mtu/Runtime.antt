-- ===== src/Mtu/Runtime.antt =====
-- mtu/runtime.rs: the loop that feeds probe outcomes to the search controller, streams events and
-- persists rows. Its effects are a list, in order. Each step of the loop takes one unit of fuel;
-- `none` means that the fuel ran out.
pub mod Ends
pub mod Converges
pub mod Endless
pub mod Total
pub mod BelowFloor
pub mod Journal
use mathlib.Core.Option
use verkkokyyla.Mtu.Rows.{
  ResultKindDto, result_dto, ResultRow, result_kind_to_row, ProbeOutcomeDto, outcome_dto,
  NewMtuProbe, probe_row,
}
use verkkokyyla.Mtu.Search.{SearchController, new, initial_action, step}
use verkkokyyla.Mtu.Types.{ProbeOutcome, MtuConfig, SearchResult, SearchAction, probe, done}
use verkkokyyla.Prelude.Machine.{i64_max, saturate}
use verkkokyyla.Prelude.Text.{Text, codes}
use verkkokyyla.Prelude.{
  ℕ, zero, suc, max, Bool, true, false, List, [], ◌∷◌, ◌++◌, Option, none, some, if◌then◌else◌,
}

-- What the loop meets: the outcome of the probe with this number and payload, the stop flag as it
-- reads before that probe, the clock at that probe, and whether the last write succeeds. A failed
-- write of a probe row is ignored by the source, so `add_mtu_probe` has no outcome here.
pub record Env (F : Type 0) : Type 0 where
  pub engine : ℕ → ℕ → ProbeOutcome
  pub stop : ℕ → Bool
  pub now : ℕ → Text
  pub as_ms : ℕ → F
  pub finish_stored : Bool

pub data Effect (F : Type 0) : Type 0 where
  attempt : ℕ → ℕ → ℕ → Effect F
  outcome : ℕ → ProbeOutcomeDto F → Effect F
  add_mtu_probe : NewMtuProbe F → Effect F
  finish_mtu_run : ResultRow → ℕ → Effect F
  completed : ResultKindDto → ℕ → Effect F
  cancelled : ℕ → Effect F
  clear_active : Effect F

-- `Result<StoppedMtuDto, MtuError>`, for the run at hand.
pub data RunResult : Type 0 where
  stopped : ℕ → RunResult
  db_error : RunResult

module _ {F : Type 0} (env : Env F) where
  unfoldable pub cancel_run : ℕ → List (Effect F) × RunResult
  cancel_run probes_sent =
      let row : ResultRow = record {
        result_kind = codes "cancelled";
        result_mtu = none;
        detail = none;
      } in
      let write = finish_mtu_run row (saturate i64_max probes_sent) in
      if env.finish_stored
      then (write ∷ cancelled probes_sent ∷ clear_active ∷ [], stopped probes_sent)
      else (write ∷ [], db_error)

  unfoldable pub finish_run : SearchResult → List (Effect F) × RunResult
  finish_run result =
      let write =
        finish_mtu_run (result_kind_to_row result.kind) (saturate i64_max result.probes_sent) in
      if env.finish_stored
      then (
        write ∷ completed (result_dto result.kind) result.probes_sent ∷ clear_active ∷ [],
        stopped result.probes_sent,
      )
      else (write ∷ [], db_error)

  -- What one probe does, before the controller's step.
  unfoldable pub probe_effects : ℕ → ℕ → ℕ → ProbeOutcome → List (Effect F)
  probe_effects seq payload_size mtu_size o =
      attempt seq payload_size mtu_size
      ∷ outcome seq (outcome_dto env.as_ms o)
      ∷ add_mtu_probe (probe_row env.as_ms seq payload_size mtu_size o (env.now seq))
      ∷ []

  abbrev pub before :
      List (Effect F) → Option (List (Effect F) × RunResult) → Option (List (Effect F) × RunResult)
  before log none = none
  before log (some (rest, result)) = some (log ++ rest, result)

  -- One turn of the loop at a probe, given the rest of the loop.
  unfoldable pub turn :
      (SearchController → SearchAction → ℕ → Option (List (Effect F) × RunResult))
      → SearchController
      → ℕ
      → ℕ
      → ℕ
      → ℕ
      → Bool
      → Option (List (Effect F) × RunResult)
  turn continue c seq payload_size mtu_size probes_sent true = some (cancel_run probes_sent)
  turn continue c seq payload_size mtu_size probes_sent false =
      let o = env.engine seq payload_size in
      let next = step c o in
      before (probe_effects seq payload_size mtu_size o)
        (continue next.0 next.1 (max probes_sent seq))

  unfoldable pub run_loop :
      ℕ → SearchController → SearchAction → ℕ → Option (List (Effect F) × RunResult)
  unfolding turn
  run_loop fuel c (done result) probes_sent = some (finish_run result)
  run_loop zero c (probe seq payload_size mtu_size) probes_sent = none
  run_loop (suc fuel) c (probe seq payload_size mtu_size) probes_sent =
      turn (run_loop fuel) c seq payload_size mtu_size probes_sent (env.stop seq)

  unfoldable pub run_mtu : ℕ → MtuConfig → Option (List (Effect F) × RunResult)
  run_mtu fuel config = let c = new config in run_loop fuel c (initial_action c) 0
