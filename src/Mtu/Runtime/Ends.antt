-- ===== src/Mtu/Runtime/Ends.antt =====
-- A rule for the loop: an invariant that rules out refusals of known sizes makes the run end, and
-- end with a result that the invariant vouches for.
use mathlib.Core.List.{append_assoc}
use verkkokyyla.Mtu.Runtime.{
  Env, Effect, RunResult, cancel_run, finish_run, before, turn, run_loop, run_mtu,
}
use verkkokyyla.Mtu.Search.Descent.{
  measure, IsSound, Agrees, Falls, ended, goes_on, step_in-Falls, probe_limit, new-IsSound,
  new-measure,
}
use verkkokyyla.Mtu.Search.Knowledge.{probed, step-config}
use verkkokyyla.Mtu.Search.{
  Phase, baseline, bracket, refine, SearchController, new, initial_action, payload_to_mtu,
  emit_probe, finish, emit_bracket_probe, start_bracket, emit_refine_probe, continue_refine,
  step_baseline, step_bracket, step_refine, step_in, step,
}
use verkkokyyla.Mtu.Types.{ProbeOutcome, MtuConfig, IsValid, SearchResult, SearchAction, probe}
use verkkokyyla.Prelude.{
  ℕ, zero, suc, max, true, ◌≤◌, ◌<◌, ◌≡◌, refl, sym, subst, ◌∙◌, inl, inr, List, [], ◌++◌, Option,
  some, arith, Bool-cases,
}

-- The action that goes with a phase: a probe of the phase's payload, or its result.
abbrev pub Announces : MtuConfig → Phase → SearchAction → Type 0
Announces c (Phase.done r) a = a ≡ SearchAction.done r
Announces c s (SearchAction.done r) = ⊥
Announces c s (probe seq payload mtu) = (payload ≡ probed c s) × (mtu ≡ payload_to_mtu payload)

step_in-Announces :
    (c : SearchController) (s : Phase) (o : ProbeOutcome)
    → c.phase ≡ s
    → Announces c.config (step_in s c o).0.phase (step_in s c o).1
unfolding step_in step_baseline step_bracket step_refine start_bracket emit_bracket_probe
    emit_refine_probe continue_refine emit_probe finish
step_in-Announces c (baseline n) o e = ground arith
step_in-Announces c (bracket s) o e = ground arith
step_in-Announces c (refine s) o e = ground arith
step_in-Announces c (Phase.done r) o e = rw e refl

step-Announces :
    (c : SearchController) (o : ProbeOutcome)
    → Announces (step c o).0.config (step c o).0.phase (step c o).1
unfolding step
step-Announces c o =
    subst (λ k. Announces k (step_in c.phase c o).0.phase (step_in c.phase c o).1)
      (sym (step-config c o)) (step_in-Announces c c.phase o refl)

step-Falls :
    (c : SearchController) (o : ProbeOutcome)
    → IsValid c.config
    → IsSound c.config c.phase
    → Agrees c.phase o
    → Falls (step c o).0.config c.phase (step c o).0.phase
unfolding step
step-Falls c o v k a =
    subst (λ d. Falls d c.phase (step_in c.phase c o).0.phase) (sym (step-config c o))
      (step_in-Falls c v c.phase o refl k a)

announced_payload :
    (c : MtuConfig) (s : Phase) (seq payload mtu : ℕ)
    → Announces c s (probe seq payload mtu)
    → payload ≡ probed c s
announced_payload c (baseline n) seq payload mtu h = h.0
announced_payload c (bracket s) seq payload mtu h = h.0
announced_payload c (refine s) seq payload mtu h = h.0
announced_payload c (Phase.done r) seq payload mtu h = cc

announced_result :
    (c : MtuConfig) (s : Phase) (r : SearchResult)
    → Announces c s (SearchAction.done r)
    → s ≡ Phase.done r
announced_result c (Phase.done r) q h = cc
announced_result c _ q h = elim h [ ]

-- How a run ends: with the effects of a result, or with those of a stop that was seen.
pub data Ended {F : Type 0} (env : Env F) (Q : SearchResult → Type 0)
    (x : Option (List (Effect F) × RunResult)) : Type 0 where
  finished :
      (r : SearchResult) (log : List (Effect F))
      → Q r
      → x ≡ some (log ++ (finish_run env r).0, (finish_run env r).1)
      → Ended env Q x
  stopped_at :
      (seq probes_sent : ℕ) (log : List (Effect F))
      → env.stop seq ≡ true
      → x ≡ some (log ++ (cancel_run env probes_sent).0, (cancel_run env probes_sent).1)
      → Ended env Q x

Ended-before :
    {F : Type 0} (env : Env F) {Q : SearchResult → Type 0} (head : List (Effect F))
    (x : Option (List (Effect F) × RunResult))
    → Ended env Q x
    → Ended env Q (before env head x)
Ended-before env head x (finished r log q e) = finished r (head ++ log) q (rw (e, append_assoc))
Ended-before env head x (stopped_at seq sent log s e) =
    stopped_at seq sent (head ++ log) s (rw (e, append_assoc))

-- `keep`: the invariant survives each step. `agrees`: the engine refuses no size that is known to
-- pass. `final`: the invariant vouches for the result.
module _ {F : Type 0} (env : Env F) (config : MtuConfig) (v : IsValid config)
    (P : SearchController → Type 0) (Q : SearchResult → Type 0)
    (keep : (c : SearchController) (seq : ℕ)
      → c.config ≡ config
      → IsSound c.config c.phase
      → P c
      → P (step c (env.engine seq (probed c.config c.phase))).0)
    (agrees : (c : SearchController) (seq : ℕ)
      → c.config ≡ config
      → IsSound c.config c.phase
      → P c
      → Agrees c.phase (env.engine seq (probed c.config c.phase)))
    (final : (c : SearchController) (r : SearchResult)
      → c.config ≡ config
      → P c
      → c.phase ≡ Phase.done r
      → Q r) where
  abbrev Runs : ℕ → Type 0
  Runs fuel =
      (c : SearchController) (a : SearchAction) (probes_sent : ℕ)
      → c.config ≡ config
      → P c
      → IsSound c.config c.phase
      → Announces c.config c.phase a
      → measure c.config c.phase < fuel
      → Ended env Q (run_loop env fuel c a probes_sent)

  -- The rest of the run after a step from phase `s`.
  resume :
      (fuel : ℕ) (s : Phase) (c : SearchController) (a : SearchAction) (probes_sent : ℕ)
      → Runs fuel
      → c.config ≡ config
      → P c
      → Announces c.config c.phase a
      → Falls c.config s c.phase
      → measure c.config s ≤ fuel
      → Ended env Q (run_loop env fuel c a probes_sent)
  unfolding run_loop
  resume fuel s c a sent runs e p n (goes_on sound less) h = runs c a sent e p sound n (omega arith)
  resume fuel s c a sent runs e p n (ended r d) h =
      let result : a ≡ SearchAction.done r = rw d at n in
      finished r [] (final c r e p d) (rw result refl)

  pub run_loop_ends : (fuel : ℕ) → Runs fuel
  unfolding run_loop
  run_loop_ends fuel c (SearchAction.done r) sent e p k a h =
      finished r [] (final c r e p (announced_result c.config c.phase r a)) refl
  run_loop_ends zero c (probe seq payload mtu) sent e p k a h = absurd (omega arith)
  run_loop_ends (suc fuel) c (probe seq payload mtu) sent e p k a h =
      elim (Bool-cases (env.stop seq)) [
        | inl halt ↦ stopped_at seq sent [] halt (rw (halt, turn))
        | inr go ↦
            rw (go, turn, announced_payload c.config c.phase seq payload mtu a)
              (Ended-before env _ _ (
                resume fuel c.phase next.0 next.1 (max sent seq) (run_loop_ends fuel)
                  (step-config c o ∙ e) (keep c seq e k p) (step-Announces c o)
                  (step-Falls c o (rw e v) k (agrees c seq e k p))
                  (rw (step-config c o) (omega arith))))
      ]
    where
      o : ProbeOutcome
      o = env.engine seq (probed c.config c.phase)

      next : SearchController × SearchAction
      next = step c o

  -- A run ends with enough fuel.
  pub run_mtu_ends :
      P (new config)
      → (fuel : ℕ) → probe_limit config ≤ fuel
      → Ended env Q (run_mtu env fuel config)
  unfolding run_mtu new initial_action
  run_mtu_ends p fuel h =
      run_loop_ends fuel (new config) (initial_action (new config)) 0 refl p (new-IsSound config)
        (refl, refl) (omega (arith, new-measure config))
