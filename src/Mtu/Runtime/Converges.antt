-- ===== src/Mtu/Runtime/Converges.antt =====
-- On a path that answers every probe the run ends with the path's MTU.
use verkkokyyla.Mtu.Runtime.Ends.{Ended, finished, stopped_at, run_mtu_ends}
use verkkokyyla.Mtu.Runtime.{Env, Effect, finish_run, run_mtu}
use verkkokyyla.Mtu.Search.Bounds.{payload_to_mtu_fits, mtu_to_payload_inside}
use verkkokyyla.Mtu.Search.Descent.{IsSound, Agrees, probe_limit}
use verkkokyyla.Mtu.Search.Knowledge.{probed, Allows, Knows, step-config, step-Knows}
use verkkokyyla.Mtu.Search.{
  BracketState, RefineState, Phase, baseline, bracket, refine, SearchController, new,
  mtu_to_payload, emit_probe, finish, emit_bracket_probe, start_bracket, emit_refine_probe,
  continue_refine, step_baseline, step_bracket, step_refine, step_in, step,
}
use verkkokyyla.Mtu.Types.{
  ProbeOutcome, ok, too_big, timeout, error, MtuConfig, IsValid, ResultKind, exact, lower_bound,
  ceiling_reached, SearchResult,
}
use verkkokyyla.Prelude.{
  ℕ, ◌+◌, ◌≤◌, ◌<◌, ◌≡◌, refl, sym, subst, false, List, ◌++◌, some, arith, ltb, if◌then◌else◌,
}

-- The path answers each probe: with a reply if the packet fits, else with "too big" and any hint.
abbrev pub Answers : ℕ → ℕ → ProbeOutcome → Type 0
Answers link payload (ok rtt) = payload + 28 ≤ link
Answers link payload (too_big hint) = link < payload + 28
Answers link payload timeout = ⊥
Answers link payload (error message) = ⊥

-- What a run should report on a path of MTU `link`.
abbrev pub verdict : MtuConfig → ℕ → ResultKind
verdict c link =
    if ltb link c.ceiling_mtu then exact link else lower_bound c.ceiling_mtu ceiling_reached

-- The right verdict, once the search is done.
abbrev IsRight : ℕ → MtuConfig → Phase → Type 0
IsRight link c (Phase.done r) = r.kind ≡ verdict c link
IsRight link c _ = Unit

Answers-Allows :
    (link payload : ℕ) (o : ProbeOutcome) → Answers link payload o → Allows link payload o
Answers-Allows link payload (ok rtt) a = a
Answers-Allows link payload (too_big hint) a = a
Answers-Allows link payload timeout a = tt
Answers-Allows link payload (error message) a = tt

module _ (link : ℕ) (c : SearchController) (v : IsValid c.config) where
  step_refine-IsRight :
      (s : RefineState) (o : ProbeOutcome)
      → Knows link c.config (refine s)
      → Answers link s.current_payload o
      → IsRight link c.config (step_refine c s o).0.phase
  unfolding step_refine continue_refine emit_refine_probe emit_probe finish
  step_refine-IsRight s (ok rtt) k a = ground (arith, payload_to_mtu_fits s.current_payload)
  step_refine-IsRight s (too_big hint) k a = ground (arith, payload_to_mtu_fits s.low_payload)
  step_refine-IsRight s timeout k a = absurd a
  step_refine-IsRight s (error message) k a = absurd a

  step_bracket-IsRight :
      (s : BracketState) (o : ProbeOutcome)
      → Knows link c.config (bracket s)
      → Answers link (mtu_to_payload c.config s.current_mtu) o
      → IsRight link c.config (step_bracket c s o).0.phase
  unfolding step_bracket emit_bracket_probe emit_refine_probe emit_probe finish
  step_bracket-IsRight s (ok rtt) k a =
      ground (arith, mtu_to_payload_inside c.config s.current_mtu v)
  step_bracket-IsRight s (too_big hint) k a = tt
  step_bracket-IsRight s timeout k a = absurd a
  step_bracket-IsRight s (error message) k a = absurd a

  step_in-IsRight :
      (s : Phase) (o : ProbeOutcome)
      → c.phase ≡ s
      → c.config.floor_mtu ≤ link
      → Knows link c.config s
      → IsRight link c.config s
      → Answers link (probed c.config s) o
      → IsRight link c.config (step_in s c o).0.phase
  unfolding step_in step_baseline start_bracket emit_bracket_probe emit_probe
  step_in-IsRight (baseline n) (ok rtt) e h k w a = tt
  step_in-IsRight (baseline n) (too_big hint) e h k w a =
      absurd (omega (arith, v.baseline_le_floor))
  step_in-IsRight (baseline n) timeout e h k w a = absurd a
  step_in-IsRight (baseline n) (error message) e h k w a = absurd a
  step_in-IsRight (bracket s) o e h k w a = step_bracket-IsRight s o k a
  step_in-IsRight (refine s) o e h k w a = step_refine-IsRight s o k a
  step_in-IsRight (Phase.done r) o e h k w a = rw e w

-- With no refusal below what is known to pass.
Agrees-Answers :
    (link : ℕ) (c : MtuConfig) (s : Phase) (o : ProbeOutcome)
    → Knows link c s
    → Answers link (probed c s) o
    → Agrees s o
Agrees-Answers link c (refine s) (too_big hint) k a = omega arith
Agrees-Answers link c (refine s) (ok rtt) k a = tt
Agrees-Answers link c (refine s) timeout k a = tt
Agrees-Answers link c (refine s) (error message) k a = tt
Agrees-Answers link c (baseline n) o k a = tt
Agrees-Answers link c (bracket s) o k a = tt
Agrees-Answers link c (Phase.done r) o k a = tt

step-IsRight :
    (link : ℕ) (c : SearchController) (o : ProbeOutcome)
    → IsValid c.config
    → c.config.floor_mtu ≤ link
    → Knows link c.config c.phase
    → IsRight link c.config c.phase
    → Answers link (probed c.config c.phase) o
    → IsRight link (step c o).0.config (step c o).0.phase
unfolding step
step-IsRight link c o v h k w a =
    subst (λ d. IsRight link d (step_in c.phase c o).0.phase) (sym (step-config c o))
      (step_in-IsRight link c v c.phase o refl h k w a)

module _ {F : Type 0} (env : Env F) (config : MtuConfig) (v : IsValid config) (link : ℕ)
    (above_floor : config.floor_mtu ≤ link)
    (answers : (seq payload : ℕ) → Answers link payload (env.engine seq payload)) where
  abbrev Informed : SearchController → Type 0
  Informed c = Knows link c.config c.phase × IsRight link c.config c.phase

  abbrev Right : SearchResult → Type 0
  Right r = r.kind ≡ verdict config link

  keep :
      (c : SearchController) (seq : ℕ)
      → c.config ≡ config
      → IsSound c.config c.phase
      → Informed c
      → Informed (step c (env.engine seq (probed c.config c.phase))).0
  keep c seq e k p =
      let a = answers seq (probed c.config c.phase) in
      let o = env.engine seq (probed c.config c.phase) in
      (
        step-Knows link c o (rw e v) (rw e above_floor) p.0 (Answers-Allows link _ o a),
        step-IsRight link c o (rw e v) (rw e above_floor) p.0 p.1 a,
      )

  final :
      (c : SearchController) (r : SearchResult)
      → c.config ≡ config
      → Informed c
      → c.phase ≡ Phase.done r
      → Right r
  final c r e p d = let right : IsRight link c.config (Phase.done r) = rw d at p.1 in rw e at right

  agrees :
      (c : SearchController) (seq : ℕ)
      → c.config ≡ config
      → IsSound c.config c.phase
      → Informed c
      → Agrees c.phase (env.engine seq (probed c.config c.phase))
  agrees c seq e k p = Agrees-Answers link c.config c.phase _ p.0 (answers seq _)

  converges : (fuel : ℕ) → probe_limit config ≤ fuel → Ended env Right (run_mtu env fuel config)
  unfolding new
  converges = run_mtu_ends env config v Informed Right keep agrees final (tt, tt)

  -- On a path of MTU `link`, at least the floor, that answers every probe (with any hints), a run
  -- that nobody stops ends within `probe_limit` turns of the loop, and the effects that end it are
  -- those of the result `exact link`, or of the ceiling as lower bound if the path reaches it.
  pub run_mtu-finds_link :
      ((seq : ℕ) → env.stop seq ≡ false)
      → (fuel : ℕ) → probe_limit config ≤ fuel
      → (r : SearchResult) × (log : List (Effect F)) × (r.kind ≡ verdict config link)
        × (run_mtu env fuel config ≡ some (log ++ (finish_run env r).0, (finish_run env r).1))
  run_mtu-finds_link never fuel h = not_stopped (converges fuel h)
    where
      not_stopped :
          Ended env Right (run_mtu env fuel config)
          → (r : SearchResult) × (log : List (Effect F)) × (r.kind ≡ verdict config link)
            × (run_mtu env fuel config ≡ some (log ++ (finish_run env r).0, (finish_run env r).1))
      not_stopped (finished r log q e) = (r, log, q, e)
      not_stopped (stopped_at seq sent log s e) = absurd (cc (never seq))
