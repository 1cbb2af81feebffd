-- ===== src/Mtu/Search/Knowledge.antt =====
-- What the controller's state says of the path, whatever order the outcomes come in.
use verkkokyyla.Mtu.Search.Bounds.{
  payload_to_mtu_fits, mtu_to_payload_inside, next_refine_payload_bounds,
}
use verkkokyyla.Mtu.Search.{
  BracketState, RefineState, Phase, baseline, bracket, refine, SearchController, new,
  mtu_to_payload, emit_probe, finish, emit_bracket_probe, start_bracket, emit_refine_probe,
  continue_refine, step_baseline, step_bracket, step_refine, step_in, step,
}
use verkkokyyla.Mtu.Types.{
  ProbeOutcome, ok, too_big, timeout, error, MtuConfig, IsValid, ResultKind, exact, lower_bound,
}
use verkkokyyla.Prelude.Machine.{clamp, saturate}
use verkkokyyla.Prelude.{ℕ, ◌+◌, ◌≤◌, ◌<◌, ◌≡◌, refl, ◌∙◌, Option, none, min, arith}

-- The payload of the probe that a phase waits for.
abbrev pub probed : MtuConfig → Phase → ℕ
probed c (baseline n) = c.baseline_payload
probed c (bracket s) = mtu_to_payload c s.current_mtu
probed c (refine s) = s.current_payload
probed c (Phase.done r) = 0

-- The outcomes that a path of MTU `link` allows. A timeout or an engine error says nothing.
abbrev pub Allows : ℕ → ℕ → ProbeOutcome → Type 0
Allows link payload (ok rtt) = payload + 28 ≤ link
Allows link payload (too_big hint) = link < payload + 28
Allows link payload timeout = Unit
Allows link payload (error message) = Unit

abbrev pub IsTrue : ℕ → ResultKind → Type 0
IsTrue link (exact mtu) = mtu ≡ link
IsTrue link (lower_bound mtu reason) = mtu ≤ link
IsTrue link _ = Unit

abbrev pub Knows : ℕ → MtuConfig → Phase → Type 0
Knows link c (baseline n) = Unit
Knows link c (bracket s) =
    (c.floor_mtu ≤ s.largest_ok_mtu)
    × (s.largest_ok_mtu < s.current_mtu)
    × (s.current_mtu ≤ c.ceiling_mtu)
    × (s.largest_ok_mtu ≤ link)
Knows link c (refine s) =
    (c.floor_mtu ≤ s.low_payload + 28)
    × (s.low_payload ≤ s.current_payload)
    × (s.current_payload < s.high_payload)
    × (s.high_payload + 28 ≤ c.ceiling_mtu)
    × (s.low_payload + 28 ≤ link)
    × (link < s.high_payload + 28)
Knows link c (Phase.done r) = IsTrue link r.kind

pub step-config : (c : SearchController) (o : ProbeOutcome) → (step c o).0.config ≡ c.config
unfolding step step_baseline step_bracket step_refine start_bracket emit_bracket_probe
    emit_refine_probe continue_refine emit_probe finish
step-config c o = go c.phase o
  where
    go : (s : Phase) (o : ProbeOutcome) → (step_in s c o).0.config ≡ c.config
    go (baseline n) o = ground arith
    go (bracket s) o = ground arith
    go (refine s) o = ground arith
    go (Phase.done r) o = refl

module _ (link : ℕ) where
  abbrev Informed : SearchController → Type 0
  Informed c = Knows link c.config c.phase

  module _ (c : SearchController) (v : IsValid c.config) where
    start_bracket-Knows : c.config.floor_mtu ≤ link → Informed (start_bracket c).0
    unfolding start_bracket emit_bracket_probe emit_probe clamp
    start_bracket-Knows h = ground arith

    emit_refine_probe-Knows :
        (low high : ℕ) (hint : Option ℕ)
        → low < high
        → c.config.floor_mtu ≤ low + 28
        → high + 28 ≤ c.config.ceiling_mtu
        → low + 28 ≤ link
        → link < high + 28
        → Informed (emit_refine_probe c low high hint).0
    unfolding emit_refine_probe emit_probe
    emit_refine_probe-Knows low high hint h f t l u =
        ground (arith, next_refine_payload_bounds c.config low high hint h)

    continue_refine-Knows :
        (low high : ℕ) (hint : Option ℕ)
        → c.config.floor_mtu ≤ low + 28
        → high + 28 ≤ c.config.ceiling_mtu
        → low + 28 ≤ link
        → link < high + 28
        → Informed (continue_refine c low high hint).0
    unfolding continue_refine finish
    continue_refine-Knows low high hint f t l u =
        ground (arith, payload_to_mtu_fits low, emit_refine_probe-Knows low high hint)

    step_bracket-Knows :
        (s : BracketState) (o : ProbeOutcome)
        → Knows link c.config (bracket s)
        → Allows link (probed c.config (bracket s)) o
        → Informed (step_bracket c s o).0
    unfolding step_bracket emit_bracket_probe emit_probe finish saturate
    step_bracket-Knows s (too_big hint) k a =
        let low = mtu_to_payload_inside c.config s.largest_ok_mtu v (omega arith) (omega arith) in
        let high = mtu_to_payload_inside c.config s.current_mtu v (omega arith) (omega arith) in
        emit_refine_probe-Knows (mtu_to_payload c.config s.largest_ok_mtu)
          (mtu_to_payload c.config s.current_mtu) hint (omega arith) (omega arith) (omega arith)
          (omega arith) (omega arith)
    step_bracket-Knows s o k a = ground (arith, mtu_to_payload_inside c.config s.current_mtu v)

    step_refine-Knows :
        (s : RefineState) (o : ProbeOutcome)
        → Knows link c.config (refine s)
        → Allows link s.current_payload o
        → Informed (step_refine c s o).0
    unfolding step_refine emit_probe finish
    step_refine-Knows s (ok rtt) k a =
        continue_refine-Knows s.current_payload s.high_payload none (omega arith) (omega arith) a
          (omega arith)
    step_refine-Knows s (too_big hint) k a =
        continue_refine-Knows s.low_payload (min s.high_payload s.current_payload) hint
          (omega arith) (omega arith) (omega arith) (omega arith)
    step_refine-Knows s o k a = ground (arith, payload_to_mtu_fits s.low_payload)

    step_in-Knows :
        (s : Phase) (o : ProbeOutcome)
        → c.phase ≡ s
        → c.config.floor_mtu ≤ link
        → Knows link c.config s
        → Allows link (probed c.config s) o
        → Informed (step_in s c o).0
    unfolding step_in step_baseline emit_probe finish
    step_in-Knows (baseline n) (ok rtt) e h k a = start_bracket-Knows h
    step_in-Knows (baseline n) o e h k a = ground arith
    step_in-Knows (bracket s) o e h k a = step_bracket-Knows s o k a
    step_in-Knows (refine s) o e h k a = step_refine-Knows s o k a
    step_in-Knows (Phase.done r) o e h k a = rw e k

-- The states that the controller reaches on outcomes that the path allows.
pub data Run (link : ℕ) (config : MtuConfig) : SearchController → Type 0 where
  start : Run link config (new config)
  next :
      {c : SearchController} (o : ProbeOutcome)
      → Run link config c
      → Allows link (probed c.config c.phase) o
      → Run link config (step c o).0

Run-config :
    {link : ℕ} {config : MtuConfig} {c : SearchController} → Run link config c → c.config ≡ config
unfolding new
Run-config start = refl
Run-config (next {c} o r a) = step-config c o ∙ Run-config r

pub step-Knows :
    (link : ℕ) (c : SearchController) (o : ProbeOutcome)
    → IsValid c.config
    → c.config.floor_mtu ≤ link
    → Knows link c.config c.phase
    → Allows link (probed c.config c.phase) o
    → Knows link (step c o).0.config (step c o).0.phase
unfolding step
step-Knows link c o v h k a = step_in-Knows link c v c.phase o refl h k a

-- On a path whose MTU is at least the floor, every state that the controller reaches, on outcomes
-- that the path allows and with timeouts and errors anywhere, holds true bounds on the path MTU.
pub Run-Knows :
    {link : ℕ} {config : MtuConfig} {c : SearchController}
    → IsValid config
    → config.floor_mtu ≤ link
    → Run link config c
    → Knows link c.config c.phase
unfolding new
Run-Knows v h start = tt
Run-Knows {link} v h (next {c} o r a) =
    let e = Run-config r in step-Knows link c o (rw e v) (rw e h) (Run-Knows v h r) a
