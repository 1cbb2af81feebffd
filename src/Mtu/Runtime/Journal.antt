-- ===== src/Mtu/Runtime/Journal.antt =====
-- The run's effects: numbered attempts, one end.
use verkkokyyla.Mtu.Runtime.{
  Env, Effect, attempt, clear_active, RunResult, stopped, db_error, cancel_run, finish_run,
  probe_effects, before, turn, run_loop, run_mtu,
}
use verkkokyyla.Mtu.Search.{
  Phase, baseline, bracket, refine, SearchController, new, initial_action, emit_probe, finish,
  emit_bracket_probe, start_bracket, emit_refine_probe, continue_refine, step_baseline,
  step_bracket, step_refine, step_in, step,
}
use verkkokyyla.Mtu.Types.{ProbeOutcome, MtuConfig, SearchAction, SearchResult, probe}
use verkkokyyla.Prelude.Machine.{u64_mod, bump_u64}
use verkkokyyla.Prelude.{
  ℕ, zero, suc, ◌+◌, ◌<◌, ◌≡◌, ◌≢◌, ◌⊎◌, refl, ap, max, inl, inr, Bool, true, false, List, [], ◌∷◌,
  Option, none, some, arith, Bool-cases,
}

module _ {F : Type 0} where
  -- The sequence numbers of the attempts, in order.
  abbrev pub attempts : List (Effect F) → List ℕ
  attempts [] = []
  attempts (attempt seq payload mtu ∷ log) = seq ∷ attempts log
  attempts (_ ∷ log) = attempts log

  -- How often the run gave up its slot in the manager.
  abbrev pub clears : List (Effect F) → ℕ
  clears [] = 0
  clears (clear_active ∷ log) = suc (clears log)
  clears (_ ∷ log) = clears log

-- The numbers n + 1, n + 2, …, n + k.
abbrev pub numbers_after : ℕ → ℕ → List ℕ
numbers_after n zero = []
numbers_after n (suc k) = (n + 1) ∷ numbers_after (n + 1) k

abbrev IsRunning : Phase → Type 0
IsRunning (Phase.done r) = ⊥
IsRunning _ = Unit

-- After `sent` outcomes, the pending action.
abbrev IsNumbered : ℕ → SearchController → SearchAction → Type 0
IsNumbered sent c (probe seq payload mtu) =
    (seq ≡ sent + 1) × (c.probes_sent ≡ sent + 1) × (c.next_seq ≡ sent + 2) × IsRunning c.phase
IsNumbered sent c (SearchAction.done r) = r.probes_sent ≡ sent

step_in-IsNumbered :
    (c : SearchController) (s : Phase) (o : ProbeOutcome) (sent : ℕ)
    → IsRunning s
    → c.probes_sent ≡ sent + 1
    → c.next_seq ≡ sent + 2
    → sent + 3 < u64_mod
    → IsNumbered (sent + 1) (step_in s c o).0 (step_in s c o).1
unfolding step_in step_baseline step_bracket step_refine start_bracket emit_bracket_probe
    emit_refine_probe continue_refine emit_probe finish bump_u64
step_in-IsNumbered c (baseline n) o sent r p n' h = ground arith
step_in-IsNumbered c (bracket s) o sent r p n' h = ground arith
step_in-IsNumbered c (refine s) o sent r p n' h = ground arith
step_in-IsNumbered c (Phase.done x) o sent r p n' h = absurd r

-- What a finished run reports.
abbrev pub Reports : RunResult → ℕ → Type 0
Reports (stopped n) m = n ≡ m
Reports db_error m = Unit

module _ {F : Type 0} (env : Env F) where
  -- The attempts of a run that has `sent` of them behind it, and what it reports.
  abbrev Counts : ℕ → Option (List (Effect F) × RunResult) → Type 0
  Counts sent none = Unit
  Counts sent (some (log, result)) =
      (k : ℕ) × (attempts log ≡ numbers_after sent k) × Reports result (sent + k)

  end-Counts :
      (sent : ℕ) (stored : Bool)
      → env.finish_stored ≡ stored
      → Counts sent (some (cancel_run env sent))
  unfolding cancel_run
  end-Counts sent true e = (0, rw e refl, rw e (omega arith))
  end-Counts sent false e = (0, rw e refl, rw e tt)

  finish-Counts :
      (sent : ℕ) (stored : Bool) (c : SearchController) (r : SearchResult)
      → env.finish_stored ≡ stored
      → r.probes_sent ≡ sent
      → Counts sent (some (finish_run env r))
  unfolding finish_run
  finish-Counts sent true c r e n = (0, rw e refl, rw e (omega arith))
  finish-Counts sent false c r e n = (0, rw e refl, rw e tt)

  before-Counts :
      (sent payload mtu : ℕ) (o : ProbeOutcome) (x : Option (List (Effect F) × RunResult))
      → Counts (sent + 1) x
      → Counts sent (before env (probe_effects env (sent + 1) payload mtu o) x)
  unfolding probe_effects
  before-Counts sent payload mtu o none k = tt
  before-Counts sent payload mtu o (some (log, result)) (k, e, r) =
      (suc k, ap (◌∷◌ (sent + 1)) e, shift result r)
    where
      shift : (result : RunResult) → Reports result (sent + 1 + k) → Reports result (sent + suc k)
      shift (stopped n) h = omega arith
      shift db_error h = tt

  run_loop-Counts :
      (fuel : ℕ) (c : SearchController) (a : SearchAction) (sent : ℕ)
      → IsNumbered sent c a
      → sent + fuel + 3 < u64_mod
      → Counts sent (run_loop env fuel c a sent)
  unfolding run_loop step
  run_loop-Counts fuel c (SearchAction.done r) sent n h =
      finish-Counts sent env.finish_stored c r refl n
  run_loop-Counts zero c (probe seq payload mtu) sent n h = tt
  run_loop-Counts (suc fuel) c (probe seq payload mtu) sent n h = elim (Bool-cases (env.stop seq)) [
    | inl halt ↦ rw (halt, turn) (end-Counts sent env.finish_stored refl)
    | inr go ↦
        let o = env.engine seq payload in
        let latest : max sent seq ≡ sent + 1 = omega arith in
        let numbered = step_in-IsNumbered c c.phase o sent n.3 n.1 n.2 (omega arith) in
        rw (go, turn, latest, n.0)
          (before-Counts sent payload mtu _ _
            (run_loop-Counts fuel _ _ (sent + 1) (rw n.0 at numbered) (omega arith)))
  ]

  -- The attempts of a run are numbered 1, 2, …, k with no gap, and k is the count of probes that it
  -- reports, stopped or not, if the fuel stays below the range of a u64.
  pub run_mtu-attempts :
      (config : MtuConfig) (fuel : ℕ) {log : List (Effect F)} {result : RunResult}
      → fuel + 3 < u64_mod
      → run_mtu env fuel config ≡ some (log, result)
      → (k : ℕ) × (attempts log ≡ numbers_after 0 k) × Reports result k
  unfolding run_mtu new initial_action
  run_mtu-attempts config fuel {log} {result} h e =
      let counted =
        run_loop-Counts fuel (new config) (initial_action (new config)) 0 (refl, refl, refl, tt)
          (omega arith) in
      let (k, a, r) = rw e at counted in (k, a, ground arith)

  -- One hand-back of the slot exactly if the last write was stored.
  abbrev HandsBack : Option (List (Effect F) × RunResult) → Type 0
  HandsBack none = Unit
  HandsBack (some (log, result)) =
      ((env.finish_stored ≡ true) × (clears log ≡ 1) × (result ≢ db_error))
      ⊎ ((env.finish_stored ≡ false) × (clears log ≡ 0) × (result ≡ db_error))

  cancel_run-HandsBack : (sent : ℕ) → HandsBack (some (cancel_run env sent))
  unfolding cancel_run
  cancel_run-HandsBack sent = elim (Bool-cases env.finish_stored) [
    | inl e ↦ rw e (inl (refl, refl, λ d. cc))
    | inr e ↦ rw e (inr (refl, refl, refl))
  ]

  finish_run-HandsBack : (r : SearchResult) → HandsBack (some (finish_run env r))
  unfolding finish_run
  finish_run-HandsBack r = elim (Bool-cases env.finish_stored) [
    | inl e ↦ rw e (inl (refl, refl, λ d. cc))
    | inr e ↦ rw e (inr (refl, refl, refl))
  ]

  before-HandsBack :
      (seq payload mtu : ℕ) (o : ProbeOutcome) (x : Option (List (Effect F) × RunResult))
      → HandsBack x
      → HandsBack (before env (probe_effects env seq payload mtu o) x)
  unfolding probe_effects
  before-HandsBack seq payload mtu o none h = tt
  before-HandsBack seq payload mtu o (some (log, result)) h = h

  run_loop-HandsBack :
      (fuel : ℕ) (c : SearchController) (a : SearchAction) (sent : ℕ)
      → HandsBack (run_loop env fuel c a sent)
  unfolding run_loop
  run_loop-HandsBack fuel c (SearchAction.done r) sent = finish_run-HandsBack r
  run_loop-HandsBack zero c (probe seq payload mtu) sent = tt
  run_loop-HandsBack (suc fuel) c (probe seq payload mtu) sent = elim (Bool-cases (env.stop seq)) [
    | inl halt ↦ rw (halt, turn) (cancel_run-HandsBack sent)
    | inr go ↦
        let next = step c (env.engine seq payload) in
        rw (go, turn)
          (before-HandsBack seq payload mtu _ _
            (run_loop-HandsBack fuel next.0 next.1 (max sent seq)))
  ]

  -- A run that ends gives its slot in the manager back once if its last write to the database
  -- succeeds, and otherwise fails and never gives it back.
  run_mtu-clear_active :
      (config : MtuConfig) (fuel : ℕ) {log : List (Effect F)} {result : RunResult}
      → run_mtu env fuel config ≡ some (log, result)
      → ((env.finish_stored ≡ true) × (clears log ≡ 1) × (result ≢ db_error))
        ⊎ ((env.finish_stored ≡ false) × (clears log ≡ 0) × (result ≡ db_error))
  unfolding run_mtu
  run_mtu-clear_active config fuel e =
      rw e at (run_loop-HandsBack fuel (new config) (initial_action (new config)) 0)
