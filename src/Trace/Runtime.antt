-- ===== src/Trace/Runtime.antt =====
-- trace/runtime.rs: the loop that takes hops from the tracer, and the name lookups that share its
-- state under a lock. A run is the sequence of its inputs: hops, and the ends of lookups between
-- them. An IpAddr is a number; its parser and printer are parameters.
pub mod Writes
pub mod Rows
pub mod Lookups
use verkkokyyla.Prelude.Assoc.{get, insert}
use verkkokyyla.Prelude.Text.{Text, codes}
use verkkokyyla.Prelude.{
  ℕ, ◌-◌, Bool, true, false, ◌&&◌, ◌||◌, List, [], ◌∷◌, ◌++◌, map, Option, none, some, length, ◌==◌,
  if◌then◌else◌,
}
use mathlib.Core.Option

pub record RawHop (F : Type 0) : Type 0 where
  pub hop : ℕ
  pub address : Option Text
  pub rtts : List (Option F)
  pub annotation : Option Text

pub record TraceHopRow (F : Type 0) : Type 0 where
  pub hop : ℕ
  pub address : Option Text
  pub hostname : Option Text
  pub rtt1_ms : Option F
  pub rtt2_ms : Option F
  pub rtt3_ms : Option F
  pub annotation : Option Text
  pub created_at : Text

pub record RunState (F : Type 0) : Type 0 where
  pub hops : List (TraceHopRow F)
  pub cache : List (ℕ × Option Text)
  pub pending : List ℕ
  pub hops_by_address : List (ℕ × List ℕ)

abbrev pub initial_state : {F : Type 0} → RunState F
initial_state = record { hops = []; cache = []; pending = []; hops_by_address = [] }

-- `spawn_lookup` is the call of `spawn_hostname_lookup`.
pub data Effect (F : Type 0) : Type 0 where
  hop_event : TraceHopRow F → Effect F
  update_trace_hop_hostname : ℕ → Option Text → Effect F
  hostname_event : ℕ → Text → Option Text → Effect F
  spawn_lookup : ℕ → Effect F
  complete_trace_with_hops : Text → Bool → List (TraceHopRow F) → Effect F
  error_status : Effect F
  cancelled_status : ℕ → Effect F
  completed_status : ℕ → Bool → Effect F
  clear_active : Effect F

-- How the loop ends, and the count of `StoppedTraceDto` or the error of the last write.
pub data Ending : Type 0 where
  stream_over stop_requested stream_error : Ending

pub data TraceResult : Type 0 where
  stopped : ℕ → TraceResult
  db_error : TraceResult

-- `rtts.get(i).copied().flatten()`.
abbrev pub rtt_at : {F : Type 0} → ℕ → List (Option F) → Option F
rtt_at i [] = none
rtt_at i (r ∷ rs) = if i == 0 then r else rtt_at (i - 1) rs

abbrev pub has_pending : ℕ → List ℕ → Bool
has_pending a [] = false
has_pending a (p ∷ ps) = if p == a then true else has_pending a ps

abbrev pub is_none : {A : Type 0} → Option A → Bool
is_none none = true
is_none (some a) = false

-- `== Some(address)`.
abbrev pub is_some_eq : Option ℕ → ℕ → Bool
is_some_eq none a = false
is_some_eq (some b) a = b == a

abbrev pub address_of : (Text → Option ℕ) → Option Text → Option ℕ
address_of parse_ip none = none
address_of parse_ip (some text) = parse_ip text

-- What the first lock decides for a hop: the stored name, whether the cache had it, and the lookup.
pub record Lookup : Type 0 where
  pub row_hostname : Option Text
  pub emit_hostname : Option (ℕ × Option Text)
  pub spawn_address : Option ℕ

-- A lookup that ends with this answer.
abbrev pub Ended : Type 0
Ended = ℕ × Option Text

-- A hop with the time of its row, and the lookups that end between its two locks and after it.
pub record Turn (F : Type 0) : Type 0 where
  pub raw : RawHop F
  pub at : Text
  pub between : List Ended
  pub later : List Ended

abbrev pub status_text : Ending → Text
status_text stream_over = codes "completed"
status_text stop_requested = codes "cancelled"
status_text stream_error = codes "error"

module _ {F : Type 0} (parse_ip : Text → Option ℕ) (show_ip : ℕ → Text) where
  abbrev pub lookup_at : RunState F → ℕ → Option (Option Text) → RunState F × Lookup
  lookup_at state addr (some hostname) = (
    state,
    record { row_hostname = hostname; emit_hostname = some (addr, hostname); spawn_address = none },
  )
  lookup_at state addr none =
      if has_pending addr state.pending
      then (state, record { row_hostname = none; emit_hostname = none; spawn_address = none })
      else (
        record state { pending = addr ∷ state.pending },
        record { row_hostname = none; emit_hostname = none; spawn_address = some addr },
      )

  unfoldable pub first_lock : RunState F → ℕ → Option ℕ → RunState F × Lookup
  first_lock state hop none =
      (state, record { row_hostname = none; emit_hostname = none; spawn_address = none })
  first_lock state hop (some addr) =
      let hops = Option.get_or (get addr state.hops_by_address) [] ++ hop ∷ [] in
      lookup_at (record state { hops_by_address = insert addr hops state.hops_by_address }) addr
        (get addr state.cache)

  abbrev pub row_of : RawHop F → Option Text → Text → TraceHopRow F
  row_of raw hostname at = record {
    hop = raw.hop;
    address = raw.address;
    hostname = hostname;
    rtt1_ms = rtt_at 0 raw.rtts;
    rtt2_ms = rtt_at 1 raw.rtts;
    rtt3_ms = rtt_at 2 raw.rtts;
    annotation = raw.annotation;
    created_at = at;
  }

  abbrev pub emit_effects : ℕ → Option (ℕ × Option Text) → List (Effect F)
  emit_effects hop none = []
  emit_effects hop (some (addr, hostname)) =
      update_trace_hop_hostname hop hostname ∷ hostname_event hop (show_ip addr) hostname ∷ []

  abbrev pub spawn_effects : Option ℕ → List (Effect F)
  spawn_effects none = []
  spawn_effects (some addr) = spawn_lookup addr ∷ []

  -- The first row of this hop and address without a name gets the name; none if there is no such row.
  abbrev pub set_first : ℕ → ℕ → Option Text → List (TraceHopRow F) → Option (List (TraceHopRow F))
  set_first hop addr hostname [] = none
  set_first hop addr hostname (row ∷ rows) =
      if (row.hop == hop)
        && is_some_eq (address_of parse_ip row.address) addr
        && is_none row.hostname
      then some (record row { hostname = hostname } ∷ rows)
      else Option.map (λ rest. row ∷ rest) (set_first hop addr hostname rows)

  abbrev pub updated_by :
      ℕ → List (TraceHopRow F) → Option (List (TraceHopRow F)) → List (TraceHopRow F) × List ℕ
  updated_by hop rows none = (rows, [])
  updated_by hop rows (some next) = (next, hop ∷ [])

  -- The rows after the loop over the hops of an address, and the hops that it updated.
  abbrev pub update_rows :
      ℕ → Option Text → List ℕ → List (TraceHopRow F) → List (TraceHopRow F) × List ℕ
  update_rows addr hostname [] rows = (rows, [])
  update_rows addr hostname (hop ∷ hops) rows =
      let here = updated_by hop rows (set_first hop addr hostname rows) in
      let later = update_rows addr hostname hops here.0 in (later.0, here.1 ++ later.1)

  abbrev pub name_effects : ℕ → Option Text → List ℕ → List (Effect F)
  name_effects addr hostname [] = []
  name_effects addr hostname (hop ∷ hops) =
      update_trace_hop_hostname hop hostname
      ∷ hostname_event hop (show_ip addr) hostname
      ∷ name_effects addr hostname hops

  unfoldable pub emit_hostname_event : RunState F → ℕ → Option Text → RunState F × List (Effect F)
  emit_hostname_event state addr hostname =
      let hops = Option.get_or (get addr state.hops_by_address) [] in
      let updated = update_rows addr hostname hops state.hops in
      (record state { hops = updated.0 }, name_effects addr hostname updated.1)

  -- The second lock and the events of a hop, after what the first lock decided.
  unfoldable pub second_lock : RunState F → RawHop F → Text → Lookup → RunState F × List (Effect F)
  second_lock state raw at l =
      let row = row_of raw l.row_hostname at in
      (
        record state { hops = state.hops ++ row ∷ [] },
        hop_event row ∷ emit_effects raw.hop l.emit_hostname ++ spawn_effects l.spawn_address,
      )

  -- Lookups that end one after the other.
  abbrev pub end_lookups : RunState F → List Ended → RunState F × List (Effect F)
  end_lookups state [] = (state, [])
  end_lookups state (e ∷ es) =
      let here = emit_hostname_event state e.0 e.1 in
      let later = end_lookups here.0 es in (later.0, here.1 ++ later.1)

  unfoldable pub take_turn : RunState F → Turn F → RunState F × List (Effect F)
  take_turn state t =
      let decided = first_lock state t.raw.hop (address_of parse_ip t.raw.address) in
      let ended = end_lookups decided.0 t.between in
      let stored = second_lock ended.0 t.raw t.at decided.1 in
      let after = end_lookups stored.0 t.later in (after.0, ended.1 ++ stored.1 ++ after.1)

  -- The loop of `run_trace` over the hops that the tracer sent before it ended or was stopped.
  unfoldable pub run_turns : RunState F → List (Turn F) → RunState F × List (Effect F)
  run_turns state [] = (state, [])
  run_turns state (t ∷ ts) =
      let here = take_turn state t in
      let later = run_turns here.0 ts in (later.0, here.1 ++ later.1)

  abbrev pub reaches : ℕ → List (Turn F) → Bool
  reaches resolved_ip [] = false
  reaches resolved_ip (t ∷ ts) =
      if is_some_eq (address_of parse_ip t.raw.address) resolved_ip
      then true
      else reaches resolved_ip ts

  abbrev pub status_effects : Ending → ℕ → Bool → List (Effect F)
  status_effects stream_over count reached = completed_status count reached ∷ []
  status_effects stop_requested count reached = cancelled_status count ∷ []
  status_effects stream_error count reached = []

  abbrev pub error_effects : Ending → List (Effect F)
  error_effects stream_error = error_status ∷ []
  error_effects _ = []

  -- What follows the loop; `is_stored` is the success of the last write.
  unfoldable pub finish_trace : RunState F → Bool → Ending → Bool → List (Effect F) × TraceResult
  finish_trace state reached ending is_stored =
      let count = length state.hops in
      let write = complete_trace_with_hops (status_text ending) reached state.hops in
      if is_stored
      then (
        error_effects ending ++ write ∷ status_effects ending count reached ++ clear_active ∷ [],
        stopped count,
      )
      else (error_effects ending ++ write ∷ [], db_error)

  unfoldable pub run_trace : ℕ → List (Turn F) → Ending → Bool → List (Effect F) × TraceResult
  run_trace resolved_ip turns ending is_stored =
      let ran = run_turns initial_state turns in
      let finished = finish_trace ran.0 (reaches resolved_ip turns) ending is_stored in
      (ran.1 ++ finished.0, finished.1)
