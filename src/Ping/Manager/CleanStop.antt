-- ===== src/Ping/Manager/CleanStop.antt =====
-- A whole session: the loop, the consumer and the stop.
use verkkokyyla.Ping.Consumer.Outcomes.{outcomes_of}
use verkkokyyla.Ping.Consumer.{ProbeRow}
use verkkokyyla.Ping.Loop.{ProbeResult, LoopProbe}
use verkkokyyla.Ping.Stats.Totals.{losses}
use verkkokyyla.Ping.Stats.{Floats}
use verkkokyyla.Prelude.Text.{Text}
use verkkokyyla.Prelude.{ℕ, Bool, true, false, List, [], ◌∷◌, none, some, leb, if◌then◌else◌}

abbrev pub lost_probes : List LoopProbe → ℕ
lost_probes ps = losses (outcomes_of ps)

module _ {F : Type 0} (f : Floats F) (stamp now : ℕ → Text)
    (insert_ok : List (ProbeRow F) → Bool) where
  -- The row of an answer: its number, as far as an i64 goes, and its time unless it is lost.
  abbrev pub session_row : ℕ → ProbeResult → ProbeRow F
  session_row seq (ProbeResult.rtt ns) = record {
    seq = if leb seq 9223372036854775807 then seq else 9223372036854775807;
    rtt_ms = some (f.ms_of ns);
    loss = false;
    probed_at = now seq;
  }
  session_row seq ProbeResult.timeout = record {
    seq = if leb seq 9223372036854775807 then seq else 9223372036854775807;
    rtt_ms = none;
    loss = true;
    probed_at = now seq;
  }
  session_row seq (ProbeResult.error message) = record {
    seq = if leb seq 9223372036854775807 then seq else 9223372036854775807;
    rtt_ms = none;
    loss = true;
    probed_at = now seq;
  }

  abbrev pub session_rows : List LoopProbe → List (ProbeRow F)
  session_rows [] = []
  session_rows (p ∷ ps) = session_row p.seq p.result ∷ session_rows ps
