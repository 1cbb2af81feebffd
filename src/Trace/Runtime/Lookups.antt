-- ===== src/Trace/Runtime/Lookups.antt =====
-- The lookups that a trace starts, and the names that it does not find again.
use verkkokyyla.Prelude.Text.{Text}
use verkkokyyla.Prelude.{
  ℕ, ◌+◌, ◌≤◌, ◌≡◌, refl, ap, ◌∙◌, true, List, [], ◌∷◌, ◌++◌, Option, none, some, arith, ◌==◌,
  if◌then◌else◌, Bool-cases, inl, inr,
}
use verkkokyyla.Trace.Runtime.{
  RawHop, RunState, Effect, hop_event, update_trace_hop_hostname, hostname_event, spawn_lookup,
  complete_trace_with_hops, error_status, cancelled_status, completed_status, clear_active, Turn,
  Ended, initial_state, address_of, row_of, name_effects, emit_effects, spawn_effects,
  emit_hostname_event, end_lookups, has_pending, first_lock, second_lock, take_turn, run_turns,
}

-- How often a lookup of the address is started.
abbrev pub spawns : {F : Type 0} → ℕ → List (Effect F) → ℕ
spawns a [] = 0
spawns a (spawn_lookup b ∷ log) = if b == a then spawns a log + 1 else spawns a log
spawns a (hop_event row ∷ log) = spawns a log
spawns a (update_trace_hop_hostname hop name ∷ log) = spawns a log
spawns a (hostname_event hop ip name ∷ log) = spawns a log
spawns a (complete_trace_with_hops status reached rows ∷ log) = spawns a log
spawns a (error_status ∷ log) = spawns a log
spawns a (cancelled_status count ∷ log) = spawns a log
spawns a (completed_status count reached ∷ log) = spawns a log
spawns a (clear_active ∷ log) = spawns a log

spawns_append :
    {F : Type 0} (a : ℕ) (xs ys : List (Effect F)) → spawns a (xs ++ ys) ≡ spawns a xs + spawns a ys
spawns_append a [] ys = omega arith
spawns_append a (spawn_lookup b ∷ xs) ys = ground (arith, spawns_append a xs ys)
spawns_append a (hop_event row ∷ xs) ys = spawns_append a xs ys
spawns_append a (update_trace_hop_hostname hop name ∷ xs) ys = spawns_append a xs ys
spawns_append a (hostname_event hop ip name ∷ xs) ys = spawns_append a xs ys
spawns_append a (complete_trace_with_hops status reached rows ∷ xs) ys = spawns_append a xs ys
spawns_append a (error_status ∷ xs) ys = spawns_append a xs ys
spawns_append a (cancelled_status count ∷ xs) ys = spawns_append a xs ys
spawns_append a (completed_status count reached ∷ xs) ys = spawns_append a xs ys
spawns_append a (clear_active ∷ xs) ys = spawns_append a xs ys

-- Lookups of the address that are still to be started, at most.
abbrev allowance : ℕ → List ℕ → ℕ
allowance a pending = if has_pending a pending then 0 else 1

module _ (F : Type 0) (parse_ip : Text → Option ℕ) (show_ip : ℕ → Text) where
  name_effects-spawns :
      (a addr : ℕ) (hostname : Option Text) (hops : List ℕ)
      → spawns a (name_effects {F = F} parse_ip show_ip addr hostname hops) ≡ 0
  name_effects-spawns a addr hostname [] = refl
  name_effects-spawns a addr hostname (hop ∷ hops) = name_effects-spawns a addr hostname hops

  emit_effects-spawns :
      (a hop : ℕ) (o : Option (ℕ × Option Text))
      → spawns a (emit_effects {F = F} parse_ip show_ip hop o) ≡ 0
  emit_effects-spawns a hop none = refl
  emit_effects-spawns a hop (some (addr, hostname)) = refl

  -- The end of lookups starts none, and leaves the pending addresses and the cache.
  end_lookups-spawns :
      (a : ℕ) (state : RunState F) (ends : List Ended)
      → (spawns a (end_lookups parse_ip show_ip state ends).1 ≡ 0)
        × ((end_lookups parse_ip show_ip state ends).0.pending ≡ state.pending)
        × ((end_lookups parse_ip show_ip state ends).0.cache ≡ state.cache)
  unfolding emit_hostname_event
  end_lookups-spawns a state [] = (refl, refl, refl)
  end_lookups-spawns a state (e ∷ es) =
      let rest = end_lookups-spawns a (emit_hostname_event parse_ip show_ip state e.0 e.1).0 es in
      (
        rw
            (
              spawns_append a _
                  (end_lookups parse_ip show_ip
                    (emit_hostname_event parse_ip show_ip state e.0 e.1).0 es).1,
              rest.0,
              name_effects-spawns a e.0 e.1 _,
            )
            refl,
        rest.1,
        rest.2,
      )

  first_lock-spawns :
      (a hop : ℕ) (state : RunState F) (o : Option ℕ)
      → state.cache ≡ []
      → ((first_lock parse_ip show_ip state hop o).0.cache ≡ [])
        × (spawns a (
                spawn_effects {F = F} parse_ip show_ip
                  (first_lock parse_ip show_ip state hop o).1.spawn_address)
              + allowance a (first_lock parse_ip show_ip state hop o).0.pending
            ≡ allowance a state.pending)
  unfolding first_lock
  first_lock-spawns a hop state none e = (e, omega arith)
  first_lock-spawns a hop state (some addr) e =
      rw e (elim (Bool-cases (has_pending addr state.pending)) [
        | inl h ↦ rw h (refl, omega arith)
        | inr h ↦ rw h (refl, ground (arith, h))
      ])

  take_turn-spawns :
      (a : ℕ) (state : RunState F) (t : Turn F)
      → state.cache ≡ []
      → ((take_turn parse_ip show_ip state t).0.cache ≡ [])
        × (spawns a (take_turn parse_ip show_ip state t).1
              + allowance a (take_turn parse_ip show_ip state t).0.pending
            ≡ allowance a state.pending)
  unfolding take_turn second_lock
  take_turn-spawns a state t e =
      let decided =
        first_lock parse_ip show_ip state t.raw.hop (address_of parse_ip t.raw.address) in
      let d = first_lock-spawns a t.raw.hop state (address_of parse_ip t.raw.address) e in
      let b = end_lookups-spawns a decided.0 t.between in
      let ended = end_lookups parse_ip show_ip decided.0 t.between in
      let stored = second_lock parse_ip show_ip ended.0 t.raw t.at decided.1 in
      let l = end_lookups-spawns a stored.0 t.later in
      let last = end_lookups parse_ip show_ip stored.0 t.later in
      let names : List (Effect F) =
        emit_effects parse_ip show_ip t.raw.hop decided.1.emit_hostname in
      let starts : List (Effect F) = spawn_effects parse_ip show_ip decided.1.spawn_address in
      let all : spawns a (ended.1 ++ stored.1 ++ last.1) ≡ spawns a starts =
        spawns_append a (ended.1 ++ stored.1) last.1
        ∙ omega (
          arith,
          b.0,
          l.0,
          spawns_append a ended.1 stored.1,
          spawns_append a names starts,
          emit_effects-spawns a t.raw.hop decided.1.emit_hostname,
        ) in
      let left : allowance a last.0.pending ≡ allowance a decided.0.pending =
        ap (allowance a) (l.1 ∙ b.1) in
      (
        l.2 ∙ b.2 ∙ d.0,
        ap (λ n. n + allowance a last.0.pending) all ∙ ap (λ n. spawns a starts + n) left ∙ d.1,
      )

  run_turns-spawns :
      (a : ℕ) (state : RunState F) (ts : List (Turn F))
      → state.cache ≡ []
      → spawns a (run_turns parse_ip show_ip state ts).1 ≤ allowance a state.pending
  unfolding run_turns
  run_turns-spawns a state [] e = omega arith
  run_turns-spawns a state (t ∷ ts) e =
      let here = take_turn parse_ip show_ip state t in
      let h = take_turn-spawns a state t e in
      rw (spawns_append a here.1 _) (omega (arith, h.1, run_turns-spawns a here.0 ts h.0))

  -- A trace starts at most one lookup of an address, however many hops have it and however the
  -- lookups end.
  pub run_turns-one_lookup :
      (a : ℕ) (ts : List (Turn F)) → spawns a (run_turns parse_ip show_ip initial_state ts).1 ≤ 1
  run_turns-one_lookup a ts = run_turns-spawns a initial_state ts refl

  run_turns-cache :
      (state : RunState F) (ts : List (Turn F))
      → state.cache ≡ []
      → (run_turns parse_ip show_ip state ts).0.cache ≡ []
  unfolding run_turns
  run_turns-cache state [] e = e
  run_turns-cache state (t ∷ ts) e =
      run_turns-cache (take_turn parse_ip show_ip state t).0 ts (take_turn-spawns 0 state t e).0

  -- A hop whose address had a lookup before is stored without a name, even if that lookup has ended
  -- with one: its only effect is its own event, unless a lookup ends during its turn.
  late_hop_unnamed :
      (ts : List (Turn F)) (raw : RawHop F) (at : Text) (a : ℕ)
      → address_of parse_ip raw.address ≡ some a
      → has_pending a (run_turns parse_ip show_ip initial_state ts).0.pending ≡ true
      → (take_turn parse_ip show_ip
          (run_turns parse_ip show_ip initial_state ts).0
          (record { raw = raw; at = at; between = []; later = [] })).1
        ≡ hop_event (row_of parse_ip show_ip raw none at) ∷ []
  unfolding take_turn first_lock second_lock
  late_hop_unnamed ts raw at a e p =
      let empty = run_turns-cache initial_state ts refl in rw (e, empty, p) refl
