-- ===== src/Mtu/Runtime/Total.antt =====
-- Whatever the engine answers, a run ends, if no step of the bracket is one byte wide.
use verkkokyyla.Mtu.Runtime.Ends.{Ended, run_mtu_ends}
use verkkokyyla.Mtu.Runtime.{Env, run_mtu}
use verkkokyyla.Mtu.Search.Bounds.{mtu_to_payload_inside}
use verkkokyyla.Mtu.Search.Descent.{IsSound, Agrees, probe_limit}
use verkkokyyla.Mtu.Search.Knowledge.{step-config}
use verkkokyyla.Mtu.Search.{
  BracketState, RefineState, Phase, baseline, bracket, refine, SearchController, new, emit_probe,
  finish, emit_bracket_probe, start_bracket, emit_refine_probe, continue_refine, step_baseline,
  step_bracket, step_refine, step_in, step,
}
use verkkokyyla.Mtu.Types.{ProbeOutcome, ok, too_big, timeout, error, MtuConfig, IsValid}
use verkkokyyla.Prelude.Machine.{clamp, saturate, u32_max}
use verkkokyyla.Prelude.{ℕ, ◌+◌, ◌*◌, ◌≤◌, ◌≡◌, ◌≢◌, refl, sym, subst, ◌⊎◌, min, arith}

-- The bracket visits 1500, 3000, 6000 and the ceiling; none of these may follow another directly.
pub record HasRoom (c : MtuConfig) : Type 0 where
  pub floor_below : c.floor_mtu + 2 ≤ 1500
  pub ceiling_le : c.ceiling_mtu ≤ 10240
  pub ne_1501 : c.ceiling_mtu ≢ 1501
  pub ne_3001 : c.ceiling_mtu ≢ 3001
  pub ne_6001 : c.ceiling_mtu ≢ 6001

abbrev Visits : MtuConfig → ℕ → Type 0
Visits c mtu = (mtu ≡ 1500) ⊎ (mtu ≡ 3000) ⊎ (mtu ≡ 6000) ⊎ (mtu ≡ c.ceiling_mtu)

abbrev IsWide : MtuConfig → Phase → Type 0
IsWide c (bracket s) = (s.largest_ok_mtu + 2 ≤ s.current_mtu) × Visits c s.current_mtu
IsWide c (refine s) = s.low_payload + 2 ≤ s.high_payload
IsWide c _ = Unit

module _ (c : SearchController) (v : IsValid c.config) (room : HasRoom c.config) where
  start_bracket-IsWide : IsWide c.config (start_bracket c).0.phase
  unfolding start_bracket emit_bracket_probe emit_probe clamp
  start_bracket-IsWide = ground arith

  next_bracket-IsWide :
      (mtu : ℕ)
      → mtu ≤ c.config.ceiling_mtu
      → mtu ≢ c.config.ceiling_mtu
      → Visits c.config mtu
      → IsWide c.config
          (emit_bracket_probe c (min (saturate u32_max (mtu * 2)) c.config.ceiling_mtu) mtu).0.phase
  unfolding emit_bracket_probe emit_probe saturate
  next_bracket-IsWide mtu le ne at = ground arith

  step_bracket-IsWide :
      (s : BracketState) (o : ProbeOutcome)
      → IsSound c.config (bracket s)
      → IsWide c.config (bracket s)
      → IsWide c.config (step_bracket c s o).0.phase
  unfolding step_bracket emit_refine_probe emit_probe finish
  step_bracket-IsWide s (ok rtt) k w =
      let o = k.ordered in ground (arith, next_bracket-IsWide s.current_mtu)
  step_bracket-IsWide s (too_big hint) k w =
      let o = k.ordered in
      omega (
        arith,
        mtu_to_payload_inside c.config s.current_mtu v,
        mtu_to_payload_inside c.config s.largest_ok_mtu v,
      )
  step_bracket-IsWide s timeout k w = ground arith
  step_bracket-IsWide s (error message) k w = tt

  step_refine-IsWide :
      (s : RefineState) (o : ProbeOutcome)
      → IsSound c.config (refine s)
      → IsWide c.config (refine s)
      → IsWide c.config (step_refine c s o).0.phase
  unfolding step_refine continue_refine emit_refine_probe emit_probe finish
  step_refine-IsWide s o k w = let inside = k.ordered in ground arith

  step_in-IsWide :
      (s : Phase) (o : ProbeOutcome)
      → c.phase ≡ s
      → IsSound c.config s
      → IsWide c.config s
      → IsWide c.config (step_in s c o).0.phase
  unfolding step_in step_baseline emit_probe finish
  step_in-IsWide (baseline n) (ok rtt) e k w = start_bracket-IsWide
  step_in-IsWide (baseline n) o e k w = ground arith
  step_in-IsWide (bracket s) o e k w = step_bracket-IsWide s o k w
  step_in-IsWide (refine s) o e k w = step_refine-IsWide s o k w
  step_in-IsWide (Phase.done r) o e k w = rw e tt

step-IsWide :
    (c : SearchController) (o : ProbeOutcome)
    → IsValid c.config
    → HasRoom c.config
    → IsSound c.config c.phase
    → IsWide c.config c.phase
    → IsWide (step c o).0.config (step c o).0.phase
unfolding step
step-IsWide c o v room k w =
    subst (λ d. IsWide d (step_in c.phase c o).0.phase) (sym (step-config c o))
      (step_in-IsWide c v room c.phase o refl k w)

Agrees-IsWide :
    (c : MtuConfig) (s : Phase) (o : ProbeOutcome) → IsSound c s → IsWide c s → Agrees s o
Agrees-IsWide c (refine s) (too_big hint) k w = k.ordered.2 w
Agrees-IsWide c (refine s) (ok rtt) k w = tt
Agrees-IsWide c (refine s) timeout k w = tt
Agrees-IsWide c (refine s) (error message) k w = tt
Agrees-IsWide c (baseline n) o k w = tt
Agrees-IsWide c (bracket s) o k w = tt
Agrees-IsWide c (Phase.done r) o k w = tt

-- For every engine, however it answers, and every moment of a stop, a run ends within `probe_limit`
-- turns of the loop: with the effects of a result, or with those of a stop that was requested.
pub run_mtu_total :
    {F : Type 0} (env : Env F) (config : MtuConfig)
    → IsValid config
    → HasRoom config
    → (fuel : ℕ) → probe_limit config ≤ fuel
    → Ended env (λ r. Unit) (run_mtu env fuel config)
unfolding new
run_mtu_total env config v room =
    run_mtu_ends env config v (λ c. IsWide c.config c.phase) (λ r. Unit)
      (λ c seq e k w. step-IsWide c _ (rw e v) (rw e room) k w)
      (λ c seq e k w. Agrees-IsWide c.config c.phase _ k w) (λ c r e p d. tt) tt
