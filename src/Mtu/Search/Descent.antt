-- ===== src/Mtu/Search/Descent.antt =====
-- The search cannot go on for ever: a measure falls at each probe, as long as no probe of a payload
-- that is known to pass is refused.
use verkkokyyla.Mtu.Search.Bounds.{
  mtu_to_payload_inside, next_refine_payload_bounds, confirm_attempts_pos,
}
use verkkokyyla.Mtu.Search.{
  BracketState, RefineState, Phase, baseline, bracket, refine, SearchController, new,
  confirm_attempts, mtu_to_payload, emit_probe, finish, emit_bracket_probe, start_bracket,
  emit_refine_probe, continue_refine, step_baseline, step_bracket, step_refine, step_in,
}
use verkkokyyla.Mtu.Types.{
  ProbeOutcome, ok, too_big, timeout, error, MtuConfig, IsValid, SearchResult, ResultKind,
  unreachable,
}
use verkkokyyla.Prelude.Machine.{clamp, saturate, bump_u64, u32_max, bump_u64_fits}
use verkkokyyla.Prelude.{
  ℕ, suc, ◌+◌, ◌-◌, ◌*◌, ◌≤◌, ◌<◌, ◌≡◌, refl, ◌∙◌, inl, inr, Option, none, min, arith, Bool-cases,
  ltb, ◌==◌, if◌then◌else◌, ◌≢◌,
}

-- How far the search is from its end, and how often the present size was tried.
abbrev pub level : MtuConfig → Phase → ℕ
level c (baseline n) = 2 * c.ceiling_mtu
level c (bracket s) = 2 * c.ceiling_mtu - s.current_mtu
level c (refine s) = s.high_payload - s.low_payload
level c (Phase.done r) = 0

abbrev pub tried : Phase → ℕ
tried (baseline n) = n
tried (bracket s) = s.attempts_sent
tried (refine s) = s.attempts_sent
tried (Phase.done r) = 0

pub measure : MtuConfig → Phase → ℕ
measure c s = level c s * confirm_attempts c + (confirm_attempts c - tried s)

abbrev pub IsOrdered : MtuConfig → Phase → Type 0
IsOrdered c (baseline n) = Unit
IsOrdered c (bracket s) =
    (c.floor_mtu ≤ s.largest_ok_mtu)
    × (s.largest_ok_mtu < s.current_mtu)
    × (s.current_mtu ≤ c.ceiling_mtu)
IsOrdered c (refine s) =
    (s.low_payload ≤ s.current_payload)
    × (s.current_payload < s.high_payload)
    × (s.low_payload + 2 ≤ s.high_payload → s.low_payload < s.current_payload)
IsOrdered c (Phase.done r) = Unit

pub record IsSound (c : MtuConfig) (s : Phase) : Type 0 where
  pub attempted : 1 ≤ tried s
  pub believed : tried s ≤ confirm_attempts c
  pub ordered : IsOrdered c s

-- No probe of a payload that is known to pass is refused.
abbrev pub Agrees : Phase → ProbeOutcome → Type 0
Agrees (refine s) (too_big hint) = s.low_payload < s.current_payload
Agrees _ _ = Unit

-- The search ended, or goes on closer to its end.
pub data Falls (c : MtuConfig) (s : Phase) (next : Phase) : Type 0 where
  ended : (r : SearchResult) → next ≡ Phase.done r → Falls c s next
  goes_on : IsSound c next → measure c next < measure c s → Falls c s next

product_falls : (l k a t : ℕ) → k < l → t ≤ a → 1 ≤ a → k * a + (a - 1) < l * a + (a - t)
product_falls l k a t h b p = omega (arith, rows)
  where
    rows : suc k * a ≤ l * a
    rows = grind arith

-- A fresh size at a lower level.
fresh :
    (c : MtuConfig) (s next : Phase)
    → IsSound c s
    → tried next ≡ 1
    → level c next < level c s
    → IsOrdered c next
    → Falls c s next
unfolding measure
fresh c s next k one l o =
    goes_on
      (record {
        attempted = omega arith;
        believed = omega (arith, confirm_attempts_pos c);
        ordered = o;
      })
      (rw one (
        product_falls (level c s) (level c next) (confirm_attempts c) (tried s) l k.believed
          (confirm_attempts_pos c)))

-- One more try of the same size.
again :
    (c : MtuConfig) (s next : Phase)
    → tried s < confirm_attempts c
    → tried next ≡ tried s + 1
    → level c next ≡ level c s
    → IsOrdered c next
    → Falls c s next
unfolding measure
again c s next h t l o =
    goes_on (record { attempted = omega arith; believed = omega arith; ordered = o })
      (rw l (omega arith))

bump_attempts : (c : MtuConfig) (n : ℕ) → IsValid c → n < confirm_attempts c → bump_u64 n ≡ n + 1
unfolding confirm_attempts
bump_attempts c n v h = bump_u64_fits n (omega (arith, v.probes_fit))

module _ (c : SearchController) (v : IsValid c.config) where
  start_bracket-Falls :
      (n : ℕ)
      → IsSound c.config (baseline n)
      → Falls c.config (baseline n) (start_bracket c).0.phase
  unfolding start_bracket emit_bracket_probe emit_probe clamp
  start_bracket-Falls n k =
      fresh c.config (baseline n) (start_bracket c).0.phase k refl (ground arith) (ground arith)

  emit_refine_probe-Falls :
      (s : Phase) (low high : ℕ) (hint : Option ℕ)
      → IsSound c.config s
      → low < high
      → high - low < level c.config s
      → Falls c.config s (emit_refine_probe c low high hint).0.phase
  unfolding emit_refine_probe emit_probe
  emit_refine_probe-Falls s low high hint k h l =
      let inside = next_refine_payload_bounds c.config low high hint h in
      fresh c.config s (emit_refine_probe c low high hint).0.phase k refl l inside

  continue_refine-Falls :
      (s : Phase) (low high : ℕ) (hint : Option ℕ)
      → IsSound c.config s
      → low < high
      → (low + 1 ≢ high → high - low < level c.config s)
      → Falls c.config s (continue_refine c low high hint).0.phase
  unfolding continue_refine finish
  continue_refine-Falls s low high hint k h l = elim (Bool-cases (high == (low + 1))) [
    | inl adjacent ↦ rw adjacent (ended _ refl)
    | inr apart ↦ rw apart (emit_refine_probe-Falls s low high hint k h (l (ground arith)))
  ]

  retry-Falls :
      (s next : Phase) (payload : ℕ) (kind : ResultKind)
      → tried next ≡ bump_u64 (tried s)
      → level c.config next ≡ level c.config s
      → IsOrdered c.config next
      → Falls c.config s
          (if ltb (tried s) (confirm_attempts c.config)
            then emit_probe c payload next
            else finish c kind).0.phase
  unfolding emit_probe finish
  retry-Falls s next payload kind t l o =
      elim (Bool-cases (ltb (tried s) (confirm_attempts c.config))) [
        | inl more ↦
            let fewer : tried s < confirm_attempts c.config = ground arith in
            rw more (again c.config s next fewer (t ∙ bump_attempts c.config (tried s) v fewer) l o)
        | inr last ↦ rw last (ended _ refl)
      ]

  step_baseline-Falls :
      (n : ℕ) (o : ProbeOutcome)
      → IsSound c.config (baseline n)
      → Falls c.config (baseline n) (step_baseline c n o).0.phase
  unfolding step_baseline finish
  step_baseline-Falls n (ok rtt) k = start_bracket-Falls n k
  step_baseline-Falls n (too_big hint) k = ended _ refl
  step_baseline-Falls n timeout k =
      retry-Falls (baseline n) (baseline (bump_u64 n)) c.config.baseline_payload unreachable refl
        refl tt
  step_baseline-Falls n (error message) k = ended _ refl

  next_bracket-Falls :
      (s : BracketState)
      → IsSound c.config (bracket s)
      → s.current_mtu ≢ c.config.ceiling_mtu
      → Falls c.config
          (bracket s)
          (emit_bracket_probe c
            (min (saturate u32_max (s.current_mtu * 2)) c.config.ceiling_mtu)
            s.current_mtu).0.phase
  unfolding emit_bracket_probe emit_probe saturate
  next_bracket-Falls s k h =
      let o = k.ordered in
      fresh c.config (bracket s)
        (emit_bracket_probe c (min (saturate u32_max (s.current_mtu * 2)) c.config.ceiling_mtu)
          s.current_mtu).0.phase
        k refl (ground arith) (ground arith)

  step_bracket-Falls :
      (s : BracketState) (o : ProbeOutcome)
      → IsSound c.config (bracket s)
      → Falls c.config (bracket s) (step_bracket c s o).0.phase
  unfolding step_bracket finish
  step_bracket-Falls s (ok rtt) k = elim (Bool-cases (s.current_mtu == c.config.ceiling_mtu)) [
    | inl top ↦ rw top (ended _ refl)
    | inr below ↦ rw below (next_bracket-Falls s k (ground arith))
  ]
  step_bracket-Falls s (too_big hint) k =
      let o = k.ordered in
      let low = mtu_to_payload_inside c.config s.largest_ok_mtu v (omega arith) (omega arith) in
      let high = mtu_to_payload_inside c.config s.current_mtu v (omega arith) (omega arith) in
      emit_refine_probe-Falls (bracket s) (mtu_to_payload c.config s.largest_ok_mtu)
        (mtu_to_payload c.config s.current_mtu) hint k (omega arith) (omega arith)
  step_bracket-Falls s timeout k =
      retry-Falls (bracket s) (bracket (record s { attempts_sent = bump_u64 s.attempts_sent }))
        (mtu_to_payload c.config s.current_mtu) _ refl refl k.ordered
  step_bracket-Falls s (error message) k = ended _ refl

  step_refine-Falls :
      (s : RefineState) (o : ProbeOutcome)
      → IsSound c.config (refine s)
      → Agrees (refine s) o
      → Falls c.config (refine s) (step_refine c s o).0.phase
  unfolding step_refine finish
  step_refine-Falls s (ok rtt) k a =
      let o = k.ordered in
      continue_refine-Falls (refine s) s.current_payload s.high_payload none k (omega arith)
        (λ apart. omega arith)
  step_refine-Falls s (too_big hint) k a =
      let o = k.ordered in
      continue_refine-Falls (refine s) s.low_payload (min s.high_payload s.current_payload) hint k
        (omega arith) (λ apart. omega arith)
  step_refine-Falls s timeout k a =
      retry-Falls (refine s) (refine (record s { attempts_sent = bump_u64 s.attempts_sent }))
        s.current_payload _ refl refl k.ordered
  step_refine-Falls s (error message) k a = ended _ refl

  pub step_in-Falls :
      (s : Phase) (o : ProbeOutcome)
      → c.phase ≡ s
      → IsSound c.config s
      → Agrees s o
      → Falls c.config s (step_in s c o).0.phase
  unfolding step_in
  step_in-Falls (baseline n) o e k a = step_baseline-Falls n o k
  step_in-Falls (bracket s) o e k a = step_bracket-Falls s o k
  step_in-Falls (refine s) o e k a = step_refine-Falls s o k a
  step_in-Falls (Phase.done r) o e k a = ended r e

-- The probes that any run needs at most.
abbrev pub probe_limit : MtuConfig → ℕ
probe_limit c = (2 * c.ceiling_mtu + 1) * confirm_attempts c

pub new-measure : (c : MtuConfig) → measure c (baseline 1) < probe_limit c
unfolding measure
new-measure c = omega (arith, confirm_attempts_pos c)

pub new-IsSound : (c : MtuConfig) → IsSound c (new c).phase
unfolding new
new-IsSound c = record { attempted = omega arith; believed = confirm_attempts_pos c; ordered = tt }
