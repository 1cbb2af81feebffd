-- ===== src/Tests/Ping.antt =====
-- A session of four probes, of which the second is lost; its timer ticks once.
use verkkokyyla.Ping.Consumer.Batches.{probes_of, errors, Moves, take_all-Moves}
use verkkokyyla.Ping.Consumer.{
  ProbeRow, Consumer, Input, received, ticked, flush_batch_size, map_probe, flush_batch, take,
  take_all, consume_probes,
}
use verkkokyyla.Ping.Loop.{ProbeResult, LoopProbe, Surroundings}
use verkkokyyla.Ping.Manager.Starts.{Factory}
use verkkokyyla.Ping.Manager.{primary, fallback, socket, Active, Answers}
use verkkokyyla.Ping.Stats.Answers.{feed_all}
use verkkokyyla.Ping.Stats.Totals.{Counted, Summary, feed_all_totals}
use verkkokyyla.Ping.Stats.{Floats, ProbeOutcome, new_stats, feed, feed_rtt}
use verkkokyyla.Prelude.Machine.{saturate}
use verkkokyyla.Prelude.Results.{ok, err}
use verkkokyyla.Prelude.Text.{Text}
use verkkokyyla.Prelude.{
  ℕ, ◌+◌, ◌-◌, ◌*◌, ◌/◌, ◌<◌, ◌≡◌, refl, min, max, Bool, true, false, List, [], ◌∷◌, some, arith,
  length, ◌==◌, if◌then◌else◌,
}

-- Milliseconds as natural numbers.
abbrev whole : Floats ℕ
whole = record {
  zero_f = 0;
  sixteen = 16;
  add = λ a b. a + b;
  sub = λ a b. a - b;
  mul = λ a b. a * b;
  div = λ a b. a / b;
  abs = λ a. a;
  min_f = min;
  max_f = max;
  sqrt = λ a. a;
  of_nat = λ n. n;
  ms_of = λ ns. ns / 1000000;
}

abbrev clock : ℕ → Text
clock n = n ∷ []

abbrev reply : ℕ → ProbeResult
reply n = if n == 2 then ProbeResult.timeout else ProbeResult.rtt (n * 16000000)

-- The stop comes during the wait after the fourth probe.
abbrev surroundings : Surroundings
surroundings = record {
  stop_set = λ n. n == 4;
  engine = reply;
  sink_open = λ n. true;
  stop_wakes = λ n. n == 4;
}

abbrev probe_at : ℕ → LoopProbe
probe_at n = record { seq = n; result = reply n }

abbrev inputs : List Input
inputs =
    received (probe_at 1)
    ∷ received (probe_at 2)
    ∷ ticked
    ∷ received (probe_at 3)
    ∷ received (probe_at 4)
    ∷ []

-- The database refuses the batch that the tick writes.
abbrev insert_ok : List (ProbeRow ℕ) → Bool
insert_ok [] = true
insert_ok (row ∷ rows) = if row.seq == 1 then false else true

abbrev active : Active ℕ
active = (7, record { session_id = 7; stats = new_stats whole }) ∷ []

one_error : errors (consume_probes whole clock clock insert_ok (new_stats whole) inputs).1 ≡ 1
unfolding consume_probes take_all take flush_batch map_probe saturate
one_error = refl

abbrev waiting : Consumer ℕ
waiting = record { batch = []; stats = new_stats whole }

take_all-Moves_example :
    Moves whole clock clock insert_ok []
      (probes_of inputs)
      (take_all whole clock clock insert_ok waiting inputs).1
      (take_all whole clock clock insert_ok waiting inputs).0.batch
    × (length (take_all whole clock clock insert_ok waiting inputs).0.batch < flush_batch_size)
take_all-Moves_example = take_all-Moves whole clock clock insert_ok waiting inputs (omega arith)

abbrev outcomes : List ProbeOutcome
outcomes =
    ProbeOutcome.rtt 10000000
    ∷ ProbeOutcome.timeout
    ∷ ProbeOutcome.rtt 20000000
    ∷ ProbeOutcome.rtt 52000000
    ∷ []

jitter_run : (feed_all whole clock (new_stats whole) outcomes).jitter_ms ≡ some 2
unfolding feed feed_rtt
jitter_run = refl

feed_all_totals_example :
    Counted whole clock (new_stats whole) outcomes (feed_all whole clock (new_stats whole) outcomes)
    × Summary whole clock outcomes (feed_all whole clock (new_stats whole) outcomes)
feed_all_totals_example = feed_all_totals whole clock outcomes (omega arith)

-- The raw socket is not permitted.
abbrev denied : Factory
denied primary = err (socket true)
denied fallback = ok tt

abbrev answers : Answers
answers = record { resolved = ok true; factory = denied; created = some 8 }
