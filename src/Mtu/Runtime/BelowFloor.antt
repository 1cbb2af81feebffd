-- ===== src/Mtu/Runtime/BelowFloor.antt =====
-- The search takes the floor as known to pass, and never probes it.
use verkkokyyla.Mtu.Runtime.Converges.{Answers}
use verkkokyyla.Mtu.Runtime.Ends.{finished, stopped_at, run_mtu_ends}
use verkkokyyla.Mtu.Runtime.Total.{HasRoom}
use verkkokyyla.Mtu.Runtime.{Env, Effect, finish_run, run_mtu}
use verkkokyyla.Mtu.Search.Bounds.{
  payload_to_mtu_fits, mtu_to_payload_inside, next_refine_payload_bounds,
}
use verkkokyyla.Mtu.Search.Descent.{Agrees, probe_limit}
use verkkokyyla.Mtu.Search.Knowledge.{probed, step-config}
use verkkokyyla.Mtu.Search.{
  BracketState, RefineState, Phase, baseline, bracket, refine, SearchController, new,
  mtu_to_payload, emit_probe, finish, emit_bracket_probe, start_bracket, emit_refine_probe,
  continue_refine, step_baseline, step_bracket, step_refine, step_in, step,
}
use verkkokyyla.Mtu.Types.{
  ProbeOutcome, ok, too_big, timeout, error, MtuConfig, IsValid, exact, SearchResult,
}
use verkkokyyla.Prelude.Machine.{clamp}
use verkkokyyla.Prelude.{
  ℕ, ◌+◌, ◌≤◌, ◌<◌, ◌≡◌, refl, sym, subst, min, false, List, ◌++◌, some, arith,
}

-- The lower bound is the floor still.
abbrev IsAtFloor : MtuConfig → Phase → Type 0
IsAtFloor c (baseline n) = Unit
IsAtFloor c (bracket s) =
    (s.largest_ok_mtu ≡ c.floor_mtu)
    × (c.floor_mtu + 2 ≤ s.current_mtu)
    × (s.current_mtu ≤ c.ceiling_mtu)
IsAtFloor c (refine s) =
    (s.low_payload + 28 ≡ c.floor_mtu)
    × (s.low_payload + 2 ≤ s.high_payload)
    × (s.low_payload < s.current_payload)
IsAtFloor c (Phase.done r) = r.kind ≡ exact c.floor_mtu

module _ (link : ℕ) (c : SearchController) (v : IsValid c.config) (room : HasRoom c.config)
    (below : link < c.config.floor_mtu) where
  step_bracket-IsAtFloor :
      (s : BracketState) (o : ProbeOutcome)
      → IsAtFloor c.config (bracket s)
      → Answers link (mtu_to_payload c.config s.current_mtu) o
      → IsAtFloor c.config (step_bracket c s o).0.phase
  unfolding step_bracket emit_refine_probe emit_probe
  step_bracket-IsAtFloor s (ok rtt) k a =
      absurd (omega (arith, mtu_to_payload_inside c.config s.current_mtu v))
  step_bracket-IsAtFloor s (too_big hint) k a =
      let low = mtu_to_payload c.config s.largest_ok_mtu in
      let high = mtu_to_payload c.config s.current_mtu in
      let gap : low + 2 ≤ high = omega (
        arith,
        mtu_to_payload_inside c.config s.current_mtu v,
        mtu_to_payload_inside c.config s.largest_ok_mtu v,
      ) in
      (
        omega (arith, mtu_to_payload_inside c.config s.largest_ok_mtu v),
        gap,
        (next_refine_payload_bounds c.config low high hint (omega arith)).2 gap,
      )
  step_bracket-IsAtFloor s timeout k a = absurd a
  step_bracket-IsAtFloor s (error message) k a = absurd a

  step_refine-IsAtFloor :
      (s : RefineState) (o : ProbeOutcome)
      → IsAtFloor c.config (refine s)
      → Answers link s.current_payload o
      → IsAtFloor c.config (step_refine c s o).0.phase
  unfolding step_refine continue_refine emit_refine_probe emit_probe finish
  step_refine-IsAtFloor s (ok rtt) k a = absurd (omega arith)
  step_refine-IsAtFloor s (too_big hint) k a = ground (
    arith,
    payload_to_mtu_fits s.low_payload,
    v.ceiling_fits,
    v.floor_lt_start,
    next_refine_payload_bounds c.config s.low_payload (min s.high_payload s.current_payload) hint,
  )
  step_refine-IsAtFloor s timeout k a = absurd a
  step_refine-IsAtFloor s (error message) k a = absurd a

  step_in-IsAtFloor :
      (s : Phase) (o : ProbeOutcome)
      → c.phase ≡ s
      → c.config.baseline_payload + 28 ≤ link
      → IsAtFloor c.config s
      → Answers link (probed c.config s) o
      → IsAtFloor c.config (step_in s c o).0.phase
  unfolding step_in step_baseline start_bracket emit_bracket_probe emit_probe clamp
  step_in-IsAtFloor (baseline n) (ok rtt) e b k a =
      ground (arith, v.start_le_ceiling, room.floor_below)
  step_in-IsAtFloor (baseline n) (too_big hint) e b k a = absurd (omega arith)
  step_in-IsAtFloor (baseline n) timeout e b k a = absurd a
  step_in-IsAtFloor (baseline n) (error message) e b k a = absurd a
  step_in-IsAtFloor (bracket s) o e b k a = step_bracket-IsAtFloor s o k a
  step_in-IsAtFloor (refine s) o e b k a = step_refine-IsAtFloor s o k a
  step_in-IsAtFloor (Phase.done r) o e b k a = rw e k

Agrees-IsAtFloor : (c : MtuConfig) (s : Phase) (o : ProbeOutcome) → IsAtFloor c s → Agrees s o
Agrees-IsAtFloor c (refine s) (too_big hint) k = k.2
Agrees-IsAtFloor c (refine s) (ok rtt) k = tt
Agrees-IsAtFloor c (refine s) timeout k = tt
Agrees-IsAtFloor c (refine s) (error message) k = tt
Agrees-IsAtFloor c (baseline n) o k = tt
Agrees-IsAtFloor c (bracket s) o k = tt
Agrees-IsAtFloor c (Phase.done r) o k = tt

step-IsAtFloor :
    (link : ℕ) (c : SearchController) (o : ProbeOutcome)
    → IsValid c.config
    → HasRoom c.config
    → link < c.config.floor_mtu
    → c.config.baseline_payload + 28 ≤ link
    → IsAtFloor c.config c.phase
    → Answers link (probed c.config c.phase) o
    → IsAtFloor (step c o).0.config (step c o).0.phase
unfolding step
step-IsAtFloor link c o v room below b k a =
    subst (λ d. IsAtFloor d (step_in c.phase c o).0.phase) (sym (step-config c o))
      (step_in-IsAtFloor link c v room below c.phase o refl b k a)

-- On a path that answers every probe and whose MTU is below the floor, but not below the baseline
-- packet, a run that nobody stops ends with the result `exact floor_mtu`, more than the path's MTU.
run_mtu-below_floor :
    {F : Type 0} (env : Env F) (config : MtuConfig) (link : ℕ)
    → IsValid config
    → HasRoom config
    → link < config.floor_mtu
    → config.baseline_payload + 28 ≤ link
    → ((seq payload : ℕ) → Answers link payload (env.engine seq payload))
    → ((seq : ℕ) → env.stop seq ≡ false)
    → (fuel : ℕ) → probe_limit config ≤ fuel
    → (r : SearchResult) × (log : List (Effect F)) × (r.kind ≡ exact config.floor_mtu)
      × (run_mtu env fuel config ≡ some (log ++ (finish_run env r).0, (finish_run env r).1))
unfolding new
run_mtu-below_floor env config link v room below b answers never fuel h =
    elim (run_mtu_ends env config v (λ c. IsAtFloor c.config c.phase)
      (λ r. r.kind ≡ exact config.floor_mtu)
      (λ c seq e k w.
        step-IsAtFloor link c _ (rw e v) (rw e room) (rw e below) (rw e b) w (answers seq _))
      (λ c seq e k w. Agrees-IsAtFloor c.config c.phase _ w) at_end tt fuel h) [
        | finished r log q e ↦ (r, log, q, e)
        | stopped_at seq sent log s e ↦ absurd (cc (never seq))
      ]
  where
    at_end :
        (c : SearchController) (r : SearchResult)
        → c.config ≡ config
        → IsAtFloor c.config c.phase
        → c.phase ≡ Phase.done r
        → r.kind ≡ exact config.floor_mtu
    at_end c r e w d = let k : IsAtFloor c.config (Phase.done r) = rw d at w in rw e at k
