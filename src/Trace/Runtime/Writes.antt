-- ===== src/Trace/Runtime/Writes.antt =====
-- The final write of a trace.
use verkkokyyla.Prelude.Text.{Text, codes}
use verkkokyyla.Prelude.{
  ℕ, ◌≡◌, refl, ap, ◌↔◌, ◌⊎◌, Bool, true, false, List, [], ◌∷◌, ◌++◌, Option, none, some, arith,
  length, if◌then◌else◌,
}
use verkkokyyla.Trace.Runtime.{
  TraceHopRow, RunState, Turn, Ended, Ending, stopped, db_error, address_of, is_some_eq,
  emit_hostname_event, end_lookups, second_lock, take_turn, run_turns, finish_trace, Effect,
  hop_event, update_trace_hop_hostname, hostname_event, spawn_lookup, complete_trace_with_hops,
  error_status, cancelled_status, completed_status, clear_active, stream_over, stop_requested,
  stream_error, emit_effects, spawn_effects, name_effects, reaches,
}

-- The status that is stored.
abbrev pub stored_status : Ending → Text
stored_status stream_over = codes "completed"
stored_status stop_requested = codes "cancelled"
stored_status stream_error = codes "error"

is_some_eq-some : (o : Option ℕ) (a : ℕ) → (is_some_eq o a ≡ true) ↔ (o ≡ some a)
is_some_eq-some none a = ((λ e. cc), λ e. cc)
is_some_eq-some (some b) a = ground arith

module _ {F : Type 0} where
  -- The rows of the writes that end a trace, with the status and the flag that are stored.
  abbrev pub final_writes : List (Effect F) → List (Text × Bool × List (TraceHopRow F))
  final_writes [] = []
  final_writes (complete_trace_with_hops status reached rows ∷ es) =
      (status, reached, rows) ∷ final_writes es
  final_writes (hop_event row ∷ es) = final_writes es
  final_writes (update_trace_hop_hostname hop hostname ∷ es) = final_writes es
  final_writes (hostname_event hop address hostname ∷ es) = final_writes es
  final_writes (spawn_lookup address ∷ es) = final_writes es
  final_writes (error_status ∷ es) = final_writes es
  final_writes (cancelled_status count ∷ es) = final_writes es
  final_writes (completed_status count reached ∷ es) = final_writes es
  final_writes (clear_active ∷ es) = final_writes es

  pub final_writes-append :
      (es fs : List (Effect F)) → final_writes (es ++ fs) ≡ final_writes es ++ final_writes fs
  final_writes-append [] fs = refl
  final_writes-append (complete_trace_with_hops status reached rows ∷ es) fs =
      ap (λ ws. (status, reached, rows) ∷ ws) (final_writes-append es fs)
  final_writes-append (hop_event row ∷ es) fs = final_writes-append es fs
  final_writes-append (update_trace_hop_hostname hop hostname ∷ es) fs = final_writes-append es fs
  final_writes-append (hostname_event hop address hostname ∷ es) fs = final_writes-append es fs
  final_writes-append (spawn_lookup address ∷ es) fs = final_writes-append es fs
  final_writes-append (error_status ∷ es) fs = final_writes-append es fs
  final_writes-append (cancelled_status count ∷ es) fs = final_writes-append es fs
  final_writes-append (completed_status count reached ∷ es) fs = final_writes-append es fs
  final_writes-append (clear_active ∷ es) fs = final_writes-append es fs

module _ {F : Type 0} (parse_ip : Text → Option ℕ) (show_ip : ℕ → Text) where
  name_effects-quiet :
      (addr : ℕ) (hostname : Option Text) (hops : List ℕ)
      → final_writes (name_effects {F = F} parse_ip show_ip addr hostname hops) ≡ []
  name_effects-quiet addr hostname [] = refl
  name_effects-quiet addr hostname (hop ∷ hops) = name_effects-quiet addr hostname hops

  end_lookups-quiet :
      (state : RunState F) (ends : List Ended)
      → final_writes (end_lookups parse_ip show_ip state ends).1 ≡ []
  unfolding emit_hostname_event
  end_lookups-quiet state [] = refl
  end_lookups-quiet state (e ∷ es) =
      rw (final_writes-append, name_effects-quiet)
        (end_lookups-quiet (emit_hostname_event parse_ip show_ip state e.0 e.1).0 es)

  emit_effects-quiet :
      (hop : ℕ) (o : Option (ℕ × Option Text))
      → final_writes (emit_effects {F = F} parse_ip show_ip hop o) ≡ []
  emit_effects-quiet hop none = refl
  emit_effects-quiet hop (some (addr, hostname)) = refl

  spawn_effects-quiet :
      (o : Option ℕ) → final_writes (spawn_effects {F = F} parse_ip show_ip o) ≡ []
  spawn_effects-quiet none = refl
  spawn_effects-quiet (some addr) = refl

  take_turn-quiet :
      (state : RunState F) (t : Turn F) → final_writes (take_turn parse_ip show_ip state t).1 ≡ []
  unfolding take_turn second_lock
  take_turn-quiet state t =
      simp (final_writes-append, end_lookups-quiet, emit_effects-quiet, spawn_effects-quiet)

  pub run_turns-quiet :
      (state : RunState F) (ts : List (Turn F))
      → final_writes (run_turns parse_ip show_ip state ts).1 ≡ []
  unfolding run_turns
  run_turns-quiet state [] = refl
  run_turns-quiet state (t ∷ ts) =
      rw (final_writes-append, take_turn-quiet)
        (run_turns-quiet (take_turn parse_ip show_ip state t).0 ts)

  -- Some hop has the address of the target.
  abbrev pub IsReached : ℕ → List (Turn F) → Type 0
  IsReached resolved_ip [] = ⊥
  IsReached resolved_ip (t ∷ ts) =
      (address_of parse_ip t.raw.address ≡ some resolved_ip) ⊎ IsReached resolved_ip ts

  pub reaches-IsReached :
      (resolved_ip : ℕ) (ts : List (Turn F))
      → (reaches parse_ip show_ip resolved_ip ts ≡ true) ↔ IsReached resolved_ip ts
  reaches-IsReached resolved_ip [] = ((λ e. cc), λ v. absurd v)
  reaches-IsReached resolved_ip (t ∷ ts) = ground (
    arith,
    is_some_eq-some (address_of parse_ip t.raw.address) resolved_ip,
    reaches-IsReached resolved_ip ts,
  )

  pub finish_trace-writes :
      (state : RunState F) (reached : Bool) (ending : Ending) (is_stored : Bool)
      → final_writes (finish_trace parse_ip show_ip state reached ending is_stored).0
        ≡ (stored_status ending, reached, state.hops) ∷ []
  unfolding finish_trace
  finish_trace-writes state reached stream_over true = refl
  finish_trace-writes state reached stream_over false = refl
  finish_trace-writes state reached stop_requested true = refl
  finish_trace-writes state reached stop_requested false = refl
  finish_trace-writes state reached stream_error true = refl
  finish_trace-writes state reached stream_error false = refl

  pub finish_trace-count :
      (state : RunState F) (reached : Bool) (ending : Ending) (is_stored : Bool)
      → (finish_trace parse_ip show_ip state reached ending is_stored).1
        ≡ (if is_stored then stopped (length state.hops) else db_error)
  unfolding finish_trace
  finish_trace-count state reached ending true = refl
  finish_trace-count state reached ending false = refl
