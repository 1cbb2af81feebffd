-- ===== src/Ping/Loop.antt =====
-- engine/mod.rs: the loop that probes until it is stopped. Each turn takes one unit of fuel; `none`
-- means that the fuel ran out.
pub mod Numbers
use mathlib.Core.Option
use verkkokyyla.Prelude.Machine.{bump_u64}
use verkkokyyla.Prelude.Text.{Text}
use verkkokyyla.Prelude.{ℕ, zero, suc, Bool, List, [], ◌∷◌, Option, none, some, if◌then◌else◌}

pub data ProbeResult : Type 0 where
  rtt : ℕ → ProbeResult
  timeout : ProbeResult
  error : Text → ProbeResult

pub record LoopProbe : Type 0 where
  pub seq : ℕ
  pub result : ProbeResult

-- The loop's surroundings: the stop flag as it reads after so many probes, the answer to a probe,
-- whether the sink takes it, and whether the wait after it ends with the stop flag set.
pub record Surroundings : Type 0 where
  pub stop_set : ℕ → Bool
  pub engine : ℕ → ProbeResult
  pub sink_open : ℕ → Bool
  pub stop_wakes : ℕ → Bool

-- The probes that reach the sink, from the one after `seq` on.
unfoldable pub probe_turns : Surroundings → ℕ → ℕ → Option (List LoopProbe)
probe_turns w zero seq = none
probe_turns w (suc fuel) seq =
    let next = bump_u64 seq in
    let probe : LoopProbe = record { seq = next; result = w.engine next } in
    let rest = probe_turns w fuel next in
    if w.stop_set seq
    then some []
    else if w.sink_open next
    then if w.stop_wakes next then some (probe ∷ []) else Option.map (λ ps. probe ∷ ps) rest
    else some []

unfoldable pub run_probe_loop : Surroundings → ℕ → Option (List LoopProbe)
run_probe_loop w fuel = probe_turns w fuel 0
