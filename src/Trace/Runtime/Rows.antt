-- ===== src/Trace/Runtime/Rows.antt =====
-- The rows of a trace against the hops that the tracer sent.
use verkkokyyla.Prelude.Assoc.{get}
use verkkokyyla.Prelude.Text.{Text}
use verkkokyyla.Prelude.{
  ℕ, zero, suc, ◌≡◌, refl, sym, ap, ◌∙◌, ◌↔◌, Bool, true, ◌&&◌, List, [], ◌∷◌, ◌++◌, map, Option,
  none, some, arith, length, ◌==◌, if◌then◌else◌, Bool-cases, inl, inr,
}
use verkkokyyla.Trace.Runtime.{
  rtt_at, TraceHopRow, RunState, Turn, Ended, Ending, stopped, db_error, initial_state, address_of,
  row_of, is_some_eq, is_none, set_first, updated_by, update_rows, emit_hostname_event, end_lookups,
  lookup_at, has_pending, first_lock, second_lock, take_turn, run_turns, run_trace, reaches,
}
use verkkokyyla.Trace.Runtime.Writes.{
  final_writes, final_writes-append, run_turns-quiet, IsReached, reaches-IsReached, stored_status,
  finish_trace-writes, finish_trace-count,
}
use mathlib.Core.Option
use mathlib.Core.List.{append_assoc, append-nil}

-- A row without its name.
abbrev pub bare : {F : Type 0} → TraceHopRow F → TraceHopRow F
bare row = record row { hostname = none }

-- The time of the probe with this number, from 0 on, if it was sent and answered.
abbrev pub nth_time : {F : Type 0} → ℕ → List (Option F) → Option F
nth_time n [] = none
nth_time zero (r ∷ rs) = r
nth_time (suc n) (r ∷ rs) = nth_time n rs

rtt_at-nth_time : {F : Type 0} (n : ℕ) (rs : List (Option F)) → rtt_at n rs ≡ nth_time n rs
rtt_at-nth_time n [] = refl
rtt_at-nth_time zero (r ∷ rs) = refl
rtt_at-nth_time (suc n) (r ∷ rs) = ground (arith, rtt_at-nth_time n rs)

-- The hops as rows without names.
abbrev pub hop_rows : {F : Type 0} → List (Turn F) → List (TraceHopRow F)
hop_rows [] = []
hop_rows (t ∷ ts) =
    record {
      hop = t.raw.hop;
      address = t.raw.address;
      hostname = none;
      rtt1_ms = nth_time 0 t.raw.rtts;
      rtt2_ms = nth_time 1 t.raw.rtts;
      rtt3_ms = nth_time 2 t.raw.rtts;
      annotation = t.raw.annotation;
      created_at = t.at;
    }
    ∷ hop_rows ts

map_append : {A B : Type 0} (f : A → B) (xs ys : List A) → map f (xs ++ ys) ≡ map f xs ++ map f ys
map_append f [] ys = refl
map_append f (x ∷ xs) ys = ap (λ zs. f x ∷ zs) (map_append f xs ys)

length-map : {A B : Type 0} (f : A → B) (xs : List A) → length (map f xs) ≡ length xs
length-map f [] = refl
length-map f (x ∷ xs) = omega (arith, length-map f xs)

module _ {F : Type 0} (parse_ip : Text → Option ℕ) (show_ip : ℕ → Text) where
  -- The rows of a result are these but for names.
  abbrev IsRenaming : List (TraceHopRow F) → Option (List (TraceHopRow F)) → Type 0
  IsRenaming rows none = Unit
  IsRenaming rows (some next) = map bare next ≡ map bare rows

  cons-IsRenaming :
      (row : TraceHopRow F) (rows : List (TraceHopRow F)) (o : Option (List (TraceHopRow F)))
      → IsRenaming rows o
      → IsRenaming (row ∷ rows) (Option.map (λ rest. row ∷ rest) o)
  cons-IsRenaming row rows none v = tt
  cons-IsRenaming row rows (some next) v = ap (λ zs. bare row ∷ zs) v

  set_first-IsRenaming :
      (hop addr : ℕ) (hostname : Option Text) (rows : List (TraceHopRow F))
      → IsRenaming rows (set_first parse_ip show_ip hop addr hostname rows)
  set_first-IsRenaming hop addr hostname [] = tt
  set_first-IsRenaming hop addr hostname (row ∷ rows) =
      elim (Bool-cases (
        (row.hop == hop)
        && is_some_eq (address_of parse_ip row.address) addr
        && is_none row.hostname)) [
          | inl e ↦ rw e refl
          | inr e ↦ rw e (cons-IsRenaming row rows _ (set_first-IsRenaming hop addr hostname rows))
        ]

  updated_by-bare :
      (hop : ℕ) (rows : List (TraceHopRow F)) (o : Option (List (TraceHopRow F)))
      → IsRenaming rows o
      → map bare (updated_by parse_ip show_ip hop rows o).0 ≡ map bare rows
  updated_by-bare hop rows none v = refl
  updated_by-bare hop rows (some next) v = v

  update_rows-bare :
      (addr : ℕ) (hostname : Option Text) (hops : List ℕ) (rows : List (TraceHopRow F))
      → map bare (update_rows parse_ip show_ip addr hostname hops rows).0 ≡ map bare rows
  update_rows-bare addr hostname [] rows = refl
  update_rows-bare addr hostname (hop ∷ hops) rows =
      update_rows-bare addr hostname hops _
      ∙ updated_by-bare hop rows _ (set_first-IsRenaming hop addr hostname rows)

  end_lookups-bare :
      (state : RunState F) (ends : List Ended)
      → map bare (end_lookups parse_ip show_ip state ends).0.hops ≡ map bare state.hops
  unfolding emit_hostname_event
  end_lookups-bare state [] = refl
  end_lookups-bare state (e ∷ es) =
      end_lookups-bare (emit_hostname_event parse_ip show_ip state e.0 e.1).0 es
      ∙ update_rows-bare e.0 e.1 (Option.get_or (get e.0 state.hops_by_address) []) state.hops

  lookup_at-hops :
      (state : RunState F) (addr : ℕ) (o : Option (Option Text))
      → (lookup_at parse_ip show_ip state addr o).0.hops ≡ state.hops
  lookup_at-hops state addr (some hostname) = refl
  lookup_at-hops state addr none = elim (Bool-cases (has_pending addr state.pending)) [
    | inl e ↦ rw e refl
    | inr e ↦ rw e refl
  ]

  first_lock-hops :
      (state : RunState F) (hop : ℕ) (o : Option ℕ)
      → (first_lock parse_ip show_ip state hop o).0.hops ≡ state.hops
  unfolding first_lock
  first_lock-hops state hop none = refl
  first_lock-hops state hop (some addr) = lookup_at-hops _ addr _

  take_turn-bare :
      (state : RunState F) (t : Turn F)
      → map bare (take_turn parse_ip show_ip state t).0.hops
        ≡ map bare state.hops ++ row_of parse_ip show_ip t.raw none t.at ∷ []
  unfolding take_turn second_lock
  take_turn-bare state t =
      end_lookups-bare _ t.later
      ∙ map_append bare _ _
      ∙ ap (λ rows. rows ++ row_of parse_ip show_ip t.raw none t.at ∷ [])
          (end_lookups-bare _ t.between
            ∙ ap (λ rows. map bare rows)
                (first_lock-hops state t.raw.hop (address_of parse_ip t.raw.address)))

  run_turns-bare :
      (state : RunState F) (ts : List (Turn F))
      → map bare (run_turns parse_ip show_ip state ts).0.hops
        ≡ map bare state.hops ++ map (λ t. row_of parse_ip show_ip t.raw none t.at) ts
  unfolding run_turns
  run_turns-bare state [] = sym (append-nil _)
  run_turns-bare state (t ∷ ts) =
      run_turns-bare (take_turn parse_ip show_ip state t).0 ts
      ∙ ap (λ rows. rows ++ map (λ t. row_of parse_ip show_ip t.raw none t.at) ts)
          (take_turn-bare state t)
      ∙ append_assoc (map bare state.hops) _ _

  hop_rows-row_of :
      (ts : List (Turn F)) → map (λ t. row_of parse_ip show_ip t.raw none t.at) ts ≡ hop_rows ts
  hop_rows-row_of [] = refl
  hop_rows-row_of (t ∷ ts) =
      let h0 = rtt_at-nth_time 0 t.raw.rtts in
      let h1 = rtt_at-nth_time 1 t.raw.rtts in
      let h2 = rtt_at-nth_time 2 t.raw.rtts in rw (h0, h1, h2, hop_rows-row_of ts) refl

  -- However lookups end between and within the hops, a trace makes one final write: its status is
  -- that of the way in which the trace ended, the target counts as reached exactly if some hop had its
  -- address, and the rows are the hops in their order, with their times, addresses and annotations,
  -- and differ from them in names alone. The count that it reports is the number of hops, unless that
  -- write fails.
  pub run_trace-rows :
      (resolved_ip : ℕ) (turns : List (Turn F)) (ending : Ending) (is_stored : Bool)
      → (reached : Bool) × (rows : List (TraceHopRow F)) × (final_writes
            (run_trace parse_ip show_ip resolved_ip turns ending is_stored).0
          ≡ (stored_status ending, reached, rows) ∷ [])
        × ((reached ≡ true) ↔ IsReached parse_ip show_ip resolved_ip turns)
        × (map bare rows ≡ hop_rows turns)
        × ((run_trace parse_ip show_ip resolved_ip turns ending is_stored).1
            ≡ (if is_stored then stopped (length turns) else db_error))
  unfolding run_trace
  run_trace-rows resolved_ip turns ending is_stored =
      let ran = run_turns parse_ip show_ip initial_state turns in
      let reached = reaches parse_ip show_ip resolved_ip turns in
      let rows = run_turns-bare initial_state turns in
      let count : length ran.0.hops ≡ length turns =
        sym (length-map bare _) ∙ ap length rows ∙ length-map _ turns in
      (
        reached,
        ran.0.hops,
        rw (final_writes-append, run_turns-quiet)
            (finish_trace-writes parse_ip show_ip ran.0 reached ending is_stored),
        reaches-IsReached parse_ip show_ip resolved_ip turns,
        rows ∙ hop_rows-row_of turns,
        finish_trace-count parse_ip show_ip ran.0 reached ending is_stored
            ∙ ap (λ n. if is_stored then stopped n else db_error) count,
      )
