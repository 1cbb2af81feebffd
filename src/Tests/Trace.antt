-- ===== src/Tests/Trace.antt =====
-- A trace of three hops, two of which have the same address.
use verkkokyyla.Prelude.Text.{Text, codes}
use verkkokyyla.Prelude.{
  ℕ, ◌≤◌, ◌≡◌, refl, ◌↔◌, Bool, true, List, [], ◌∷◌, map, Option, none, some, length, if◌then◌else◌,
}
use verkkokyyla.Trace.Runtime.Lookups.{spawns, run_turns-one_lookup}
use verkkokyyla.Trace.Runtime.Writes.{final_writes, stored_status, IsReached}
use verkkokyyla.Trace.Runtime.Rows.{bare, hop_rows, run_trace-rows}
use verkkokyyla.Trace.Runtime.{
  RawHop, TraceHopRow, Turn, hop_event, stream_over, stopped, db_error, initial_state, row_of,
  first_lock, second_lock, emit_hostname_event, take_turn, run_turns, run_trace, finish_trace,
}

-- Addresses are texts of one letter.
abbrev parse_ip : Text → Option ℕ
parse_ip (c ∷ []) = some c
parse_ip _ = none

abbrev show_ip : ℕ → Text
show_ip a = a ∷ []

abbrev hop_at : ℕ → Text → RawHop ℕ
hop_at n address = record {
  hop = n;
  address = some address;
  rtts = some 10 ∷ [];
  annotation = none;
}

abbrev first : Turn ℕ
first = record {
  raw = hop_at 1 (codes "a");
  at = codes "t1";
  between = [];
  later = (b'a', some (codes "gw")) ∷ [];
}

abbrev turns : List (Turn ℕ)
turns =
    first
    ∷ record { raw = hop_at 2 (codes "b"); at = codes "t2"; between = []; later = [] }
    ∷ record { raw = hop_at 3 (codes "a"); at = codes "t3"; between = []; later = [] }
    ∷ []

names :
    map (λ row. row.hostname) (run_turns parse_ip show_ip initial_state turns).0.hops
    ≡ some (codes "gw") ∷ none ∷ none ∷ []
unfolding run_turns take_turn first_lock second_lock emit_hostname_event
names = refl

run_trace-rows_example :
    (reached : Bool) × (rows : List (TraceHopRow ℕ)) × (final_writes
        (run_trace parse_ip show_ip b'b' turns stream_over true).0
      ≡ (stored_status stream_over, reached, rows) ∷ [])
    × ((reached ≡ true) ↔ IsReached parse_ip show_ip b'b' turns)
    × (map bare rows ≡ hop_rows turns)
    × ((run_trace parse_ip show_ip b'b' turns stream_over true).1
        ≡ (if true then stopped (length turns) else db_error))
run_trace-rows_example = run_trace-rows parse_ip show_ip b'b' turns stream_over true

run_turns-one_lookup_example : spawns b'a' (run_turns parse_ip show_ip initial_state turns).1 ≤ 1
run_turns-one_lookup_example = run_turns-one_lookup ℕ parse_ip show_ip b'a' turns

looked_up :
    (verkkokyyla.Trace.Runtime.has_pending b'a'
      (run_turns parse_ip show_ip initial_state (first ∷ [])).0.pending)
    ≡ true
unfolding run_turns take_turn first_lock second_lock emit_hostname_event
looked_up = refl
