-- ===== src/Mtu/Runtime/Endless.antt =====
-- A refinement whose two bounds have met does not end.
use verkkokyyla.Mtu.Runtime.{run_mtu, Env, before, turn, run_loop}
use verkkokyyla.Mtu.Search.{
  RefineState, Phase, bracket, refine, hint_to_payload, SearchController, new, initial_action,
  step_baseline, step_bracket, start_bracket, emit_bracket_probe, mtu_to_payload, payload_to_mtu,
  next_refine_payload, emit_probe, emit_refine_probe, continue_refine, step_refine, step_in, step,
}
use verkkokyyla.Prelude.Machine.{clamp, saturate, bump_u64}
use verkkokyyla.Mtu.Types.{
  default_config, ProbeOutcome, ok, too_big, timeout, error, MtuConfig, SearchAction, probe,
}
use verkkokyyla.Prelude.{ℕ, zero, suc, ◌+◌, max, ◌≡◌, refl, ap, false, Option, none, some, arith}

-- The bounds and the probed payload are one.
abbrev IsMet : Phase → Type 0
IsMet (refine s) = (s.high_payload ≡ s.low_payload) × (s.current_payload ≡ s.low_payload)
IsMet _ = ⊥

-- A reply or a refusal; what ends such a run is a timeout, an engine error or a stop.
abbrev pub IsAnswer : ProbeOutcome → Type 0
IsAnswer (ok rtt) = Unit
IsAnswer (too_big hint) = Unit
IsAnswer _ = ⊥

abbrev IsProbe : SearchAction → Type 0
IsProbe (probe seq payload mtu) = Unit
IsProbe (SearchAction.done r) = ⊥

met_payload : (c : MtuConfig) (p : ℕ) (hint : Option ℕ) → next_refine_payload c p p hint ≡ p
unfolding next_refine_payload
met_payload c p none = omega arith
met_payload c p (some mtu) = ground arith

step_refine-IsMet :
    (c : SearchController) (s : RefineState) (o : ProbeOutcome)
    → IsMet (refine s)
    → IsAnswer o
    → IsMet (step_refine c s o).0.phase × IsProbe (step_refine c s o).1
unfolding step_refine continue_refine emit_refine_probe emit_probe
step_refine-IsMet c s (ok rtt) m a = ground (arith, met_payload c.config s.low_payload none)
step_refine-IsMet c s (too_big hint) m a = ground (arith, met_payload c.config s.low_payload hint)
step_refine-IsMet c s timeout m a = absurd a
step_refine-IsMet c s (error message) m a = absurd a

step_in-IsMet :
    (c : SearchController) (s : Phase) (o : ProbeOutcome)
    → IsMet s
    → IsAnswer o
    → IsMet (step_in s c o).0.phase × IsProbe (step_in s c o).1
unfolding step_in
step_in-IsMet c (refine s) o m a = step_refine-IsMet c s o m a
step_in-IsMet c _ o m a = elim m [ ]

module _ {F : Type 0} (env : Env F) (never : (seq : ℕ) → env.stop seq ≡ false) where
  run_loop-IsMet :
      (answers : (seq payload : ℕ) → IsAnswer (env.engine seq payload)) (fuel : ℕ)
      (c : SearchController) (a : SearchAction) (probes_sent : ℕ)
      → IsMet c.phase
      → IsProbe a
      → run_loop env fuel c a probes_sent ≡ none
  unfolding run_loop step
  run_loop-IsMet answers zero c (probe seq payload mtu) sent m p = refl
  run_loop-IsMet answers (suc fuel) c (probe seq payload mtu) sent m p =
      let met = step_in-IsMet c c.phase (env.engine seq payload) m (answers seq payload) in
      rw (never seq, turn)
        (ap (before env _) (run_loop-IsMet answers fuel _ _ (max sent seq) met.0 met.1))
  run_loop-IsMet answers fuel c (SearchAction.done r) sent m p = elim p [ ]

  -- One turn that does not end the run.
  run_loop-probe :
      (c : SearchController) (seq payload mtu : ℕ) (o : ProbeOutcome) (c' : SearchController)
      (a' : SearchAction)
      → env.engine seq payload ≡ o
      → step c o ≡ (c', a')
      → ((fuel sent : ℕ) → run_loop env fuel c' a' sent ≡ none)
      → (fuel sent : ℕ) → run_loop env fuel c (probe seq payload mtu) sent ≡ none
  unfolding run_loop
  run_loop-probe c seq payload mtu o c' a' e d rest zero sent = refl
  run_loop-probe c seq payload mtu o c' a' e d rest (suc fuel) sent =
      rw (never seq, turn, e, d) (ap (before env _) (rest fuel (max sent seq)))

abbrev pub narrow_config : MtuConfig
narrow_config = record default_config { ceiling_mtu = 1501 }

-- The controller after `n` probes.
abbrev after_probes : ℕ → Phase → SearchController
after_probes n phase = record {
  config = narrow_config;
  phase = phase;
  next_seq = n + 1;
  probes_sent = n;
}

abbrev bracket_at : ℕ → ℕ → Phase
bracket_at mtu largest =
    bracket (record { current_mtu = mtu; attempts_sent = 1; largest_ok_mtu = largest })

abbrev refine_below : ℕ → Phase
refine_below high =
    refine (record {
      low_payload = 1472;
      high_payload = high;
      current_payload = 1472;
      attempts_sent = 1;
    })

first_step :
    (t : ℕ)
    → step (new narrow_config) (ok t) ≡ (after_probes 2 (bracket_at 1500 576), probe 2 1472 1500)
unfolding new step step_baseline start_bracket emit_bracket_probe emit_probe mtu_to_payload clamp
    payload_to_mtu saturate bump_u64
first_step t = refl

second_step :
    (t : ℕ)
    → step (after_probes 2 (bracket_at 1500 576)) (ok t)
      ≡ (after_probes 3 (bracket_at 1501 1500), probe 3 1473 1501)
unfolding step step_bracket emit_bracket_probe emit_probe mtu_to_payload clamp payload_to_mtu
    saturate bump_u64
second_step t = refl

refused_step :
    (c : SearchController) (hint : Option ℕ)
    → c ≡ after_probes 3 (bracket_at 1501 1500)
    → step c (too_big hint) ≡ (after_probes 4 (refine_below 1473), probe 4 1472 1500)
unfolding step step_bracket emit_refine_probe emit_probe next_refine_payload hint_to_payload
    mtu_to_payload clamp payload_to_mtu saturate bump_u64
refused_step c none e = rw e refl
refused_step c (some mtu) e = rw e (ground arith)

refused_again :
    (hint : Option ℕ)
    → IsMet (step (after_probes 4 (refine_below 1473)) (too_big hint)).0.phase
      × IsProbe (step (after_probes 4 (refine_below 1473)) (too_big hint)).1
unfolding step step_in step_refine continue_refine emit_refine_probe emit_probe
refused_again hint = ground (arith, met_payload narrow_config 1472 hint)

module _ {F : Type 0} (env : Env F) (never : (seq : ℕ) → env.stop seq ≡ false) (t₁ t₂ : ℕ)
    (h₃ h₄ : Option ℕ) (answers : (seq payload : ℕ) → IsAnswer (env.engine seq payload))
    (e₁ : env.engine 1 56 ≡ ok t₁) (e₂ : env.engine 2 1472 ≡ ok t₂)
    (e₃ : env.engine 3 1473 ≡ too_big h₃) (e₄ : env.engine 4 1472 ≡ too_big h₄) where
  met :
      (fuel sent : ℕ)
      → run_loop env fuel (after_probes 4 (refine_below 1473)) (probe 4 1472 1500) sent ≡ none
  met =
      let next = step (after_probes 4 (refine_below 1473)) (too_big h₄) in
      let m = refused_again h₄ in
      run_loop-probe env never _ 4 1472 1500 (too_big h₄) next.0 next.1 e₄ refl
        (λ fuel sent. run_loop-IsMet env never answers fuel next.0 next.1 sent m.0 m.1)

  -- With a ceiling of 1501, a path that passes 1500 bytes once and refuses them afterwards, and
  -- loses no probe, keeps a run that nobody stops probing for ever: no fuel is enough.
  pub run_mtu-endless : (fuel : ℕ) → run_mtu env fuel narrow_config ≡ none
  unfolding run_mtu initial_action payload_to_mtu saturate new
  run_mtu-endless fuel =
      run_loop-probe env never (new narrow_config) 1 56 84 (ok t₁) _ _ e₁ (first_step t₁)
        (run_loop-probe env never _ 2 1472 1500 (ok t₂) _ _ e₂ (second_step t₂)
          (run_loop-probe env never _ 3 1473 1501 (too_big h₃) _ _ e₃ (refused_step _ h₃ refl) met))
        fuel 0
