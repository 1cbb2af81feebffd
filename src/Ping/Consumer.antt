-- ===== src/Ping/Consumer.antt =====
-- session.rs: the task that feeds the statistics, streams the events and stores the probes in
-- batches. Its inputs are the probes and the ticks of its timer, in their order; then the channel
-- closes. `insert_ok` is what the database answers to a batch: the batches of a session differ, as
-- the probes have numbers.
pub mod Batches
pub mod Outcomes
use verkkokyyla.Ping.Loop.{ProbeResult, LoopProbe}
use verkkokyyla.Ping.Stats.{Floats, ProbeOutcome, StatsEngine, feed}
use verkkokyyla.Prelude.Machine.{i64_max, saturate}
use verkkokyyla.Prelude.Text.{Text}
use verkkokyyla.Prelude.{
  ℕ, Bool, true, false, List, [], ◌∷◌, ◌++◌, Option, none, some, length, leb, if◌then◌else◌,
}

abbrev pub flush_batch_size : ℕ
flush_batch_size = 50

pub record ProbeRow (F : Type 0) : Type 0 where
  pub seq : ℕ
  pub rtt_ms : Option F
  pub loss : Bool
  pub probed_at : Text

pub record ProbeEvent (F : Type 0) : Type 0 where
  pub seq : ℕ
  pub rtt_ms : Option F
  pub lost : Bool
  pub probed_at : Text

pub data Effect (F : Type 0) : Type 0 where
  probe_event : ProbeEvent F → Effect F
  insert_probes_batch : List (ProbeRow F) → Effect F
  error_status : Effect F

pub data Input : Type 0 where
  received : LoopProbe → Input
  ticked : Input

abbrev pub outcome_of : ProbeResult → ProbeOutcome
outcome_of (ProbeResult.rtt ns) = ProbeOutcome.rtt ns
outcome_of ProbeResult.timeout = ProbeOutcome.timeout
outcome_of (ProbeResult.error message) = ProbeOutcome.error message

pub record Consumer (F : Type 0) : Type 0 where
  pub batch : List (ProbeRow F)
  pub stats : StatsEngine F

-- `stamp` is the clock of the statistics, `now` that of the rows and the events.
module _ {F : Type 0} (f : Floats F) (stamp now : ℕ → Text) where
  abbrev pub rtt_ms_of : ProbeResult → Option F
  rtt_ms_of (ProbeResult.rtt ns) = some (f.ms_of ns)
  rtt_ms_of ProbeResult.timeout = none
  rtt_ms_of (ProbeResult.error message) = none

  abbrev pub is_lost : ProbeResult → Bool
  is_lost (ProbeResult.rtt ns) = false
  is_lost ProbeResult.timeout = true
  is_lost (ProbeResult.error message) = true

  -- The clock is read once for the row and the event.
  unfoldable pub map_probe : ℕ → ProbeResult → ProbeOutcome × ProbeRow F × ProbeEvent F
  map_probe seq result = (
    outcome_of result,
    record {
      seq = saturate i64_max seq;
      rtt_ms = rtt_ms_of result;
      loss = is_lost result;
      probed_at = now seq;
    },
    record { seq = seq; rtt_ms = rtt_ms_of result; lost = is_lost result; probed_at = now seq },
  )

  module _ (insert_ok : List (ProbeRow F) → Bool) where
    -- The batch is cleared whether the insert succeeds or not.
    unfoldable pub flush_batch : List (ProbeRow F) → List (Effect F)
    flush_batch [] = []
    flush_batch (row ∷ rows) =
        insert_probes_batch (row ∷ rows)
        ∷ (if insert_ok (row ∷ rows) then [] else error_status ∷ [])

    unfoldable pub take : Consumer F → Input → Consumer F × List (Effect F)
    take c (received probe) =
        let mapped = map_probe probe.seq probe.result in
        let stats = feed f stamp c.stats mapped.0 in
        let batch = c.batch ++ mapped.1 ∷ [] in
        let event = probe_event mapped.2 in
        if leb flush_batch_size (length batch)
        then (record { batch = []; stats = stats }, event ∷ flush_batch batch)
        else (record { batch = batch; stats = stats }, event ∷ [])
    take c ticked = (record c { batch = [] }, flush_batch c.batch)

    unfoldable pub take_all : Consumer F → List Input → Consumer F × List (Effect F)
    take_all c [] = (c, [])
    take_all c (i ∷ is) =
        let here = take c i in let later = take_all here.0 is in (later.0, here.1 ++ later.1)

    -- The whole task: the statistics that it leaves, and its effects.
    unfoldable pub consume_probes : StatsEngine F → List Input → StatsEngine F × List (Effect F)
    consume_probes stats inputs =
        let ran = take_all (record { batch = []; stats = stats }) inputs in
        (ran.0.stats, ran.1 ++ flush_batch ran.0.batch)
