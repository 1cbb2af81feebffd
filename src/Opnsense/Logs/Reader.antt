-- ===== src/Opnsense/Logs/Reader.antt =====
-- opnsense/logs.rs, `run_reader`: the task that reads a log stream, from what it waits for to what
-- the interface receives. `accepts n` is the answer of the event sink to the event of number n.
pub mod Delivery
use verkkokyyla.Opnsense.Activity.{OpnsenseActivity, log_enter, log_exit}
use verkkokyyla.Opnsense.Logs.{Json, LogEvent, ParseFailure, SseParser, new_parser, feed}
use verkkokyyla.Prelude.Assoc.{remove}
use verkkokyyla.Prelude.Results.{Result, ok, err}
use verkkokyyla.Prelude.Text.{Text}
use verkkokyyla.Prelude.{ℕ, ◌+◌, Bool, true, false, List, [], ◌∷◌, ◌++◌, if◌then◌else◌}

-- A stop or the end of its sender; the end of the response; a chunk; an error of the connection.
pub data Turn : Type 0 where
  stop_changed : Turn
  closed : Turn
  chunk : List ℕ → Turn
  broken : Text → Turn

-- What the interface receives: statuses, and the events that are given to the sink.
pub data Output : Type 0 where
  started stopped warning oversized : ℕ → Output
  error : ℕ → Text → Output
  event : LogEvent → Output

pub data End : Type 0 where
  reading : End
  finished : End
  too_large : End
  api_error : Text → End

abbrev pub stamp : ℕ → LogEvent → LogEvent
stamp profile_id e = record e { profile_id = profile_id }

-- The `for` loop over the events of a chunk: what is given to the sink, the number of the next event
-- and whether the stream goes on.
abbrev pub deliver : (ℕ → Bool) → ℕ → ℕ → List LogEvent → List Output × (ℕ × Bool)
deliver accepts profile_id n [] = ([], (n, true))
deliver accepts profile_id n (e ∷ es) =
    let rest = deliver accepts profile_id (n + 1) es in
    if accepts n
    then (event (stamp profile_id e) ∷ rest.0, rest.1)
    else (event (stamp profile_id e) ∷ [], (n + 1, false))

abbrev pub Read : Type 0
Read = List Output × End

abbrev pub after_delivery : List Output × (ℕ × Bool) → (ℕ → Read) → Read
after_delivery (outputs, (n, true)) next = (outputs ++ (next n).0, (next n).1)
after_delivery (outputs, (n, false)) next = (outputs, finished)

abbrev pub after_feed :
    (ℕ → Bool)
    → ℕ
    → ℕ
    → Result ParseFailure (List LogEvent × SseParser)
    → (SseParser → ℕ → Read)
    → Read
after_feed accepts profile_id n (ok (events, parser)) next =
    after_delivery (deliver accepts profile_id n events) (next parser)
after_feed accepts profile_id n (err e) next = (oversized profile_id ∷ [], too_large)

unfoldable pub read_loop : Json → (ℕ → Bool) → ℕ → SseParser → ℕ → List Turn → Read
read_loop json accepts p parser n [] = ([], reading)
read_loop json accepts p parser n (stop_changed ∷ turns) = ([], finished)
read_loop json accepts p parser n (closed ∷ turns) = (warning p ∷ [], finished)
read_loop json accepts p parser n (broken e ∷ turns) = (error p e ∷ [], api_error e)
read_loop json accepts p parser n (chunk bytes ∷ turns) =
    after_feed accepts p n (feed json parser bytes)
      (λ next m. read_loop json accepts p next m turns)

-- A reader with what it shares: its outputs, its end, the registry and the slots.
pub record ReaderRun : Type 0 where
  pub outputs : List Output
  pub end : End
  pub activity : OpnsenseActivity
  pub slots : List (ℕ × ℕ)

abbrev pub shut_down : ℕ → OpnsenseActivity → List (ℕ × ℕ) → Read → ReaderRun
shut_down p activity slots (outputs, reading) = record {
  outputs = outputs;
  end = reading;
  activity = activity;
  slots = slots;
}
shut_down p activity slots (outputs, end) = record {
  outputs = outputs ++ stopped p ∷ [];
  end = end;
  activity = log_exit activity p;
  slots = remove p slots;
}

abbrev pub with_start : ℕ → ReaderRun → ReaderRun
with_start p run = record run { outputs = started p ∷ run.outputs }

-- `go` is whether the slot is published before a stop.
unfoldable pub run_reader :
    Json → (ℕ → Bool) → ℕ → Bool → List Turn → OpnsenseActivity → List (ℕ × ℕ) → ReaderRun
run_reader json accepts p true turns activity slots =
    with_start p
      (shut_down p (log_enter activity p) slots (read_loop json accepts p new_parser 0 turns))
run_reader json accepts p false turns activity slots = record {
  outputs = [];
  end = finished;
  activity = activity;
  slots = slots;
}
