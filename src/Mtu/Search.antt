-- ===== src/Mtu/Search.antt =====
-- mtu/search.rs: the search controller. A `&mut self` method returns the new controller and its
-- action. The u64 counters wrap; the u32 and usize sums saturate as in the source, where a usize
-- has 64 bits.
pub mod Bounds
pub mod Knowledge
pub mod Descent
use verkkokyyla.Mtu.Types.{
  ProbeOutcome, ok, too_big, timeout, error, MtuConfig, floor_payload, ceiling_payload,
  timeout_above, ceiling_reached, ResultKind, exact, lower_bound, unreachable, failed, SearchResult,
  SearchAction, probe, ipv4_icmp_overhead,
}
use verkkokyyla.Prelude.Machine.{u32_max, clamp, saturate, bump_u64}
use verkkokyyla.Prelude.Text.{Text, codes, decimal}
use verkkokyyla.Prelude.{
  ℕ, ◌+◌, ◌-◌, ◌*◌, ◌/◌, min, max, ◌&&◌, Option, none, some, ◌++◌, ltb, ◌==◌, if◌then◌else◌,
}
use mathlib.Core.Option

pub record BracketState : Type 0 where
  pub current_mtu : ℕ
  pub attempts_sent : ℕ
  pub largest_ok_mtu : ℕ

pub record RefineState : Type 0 where
  pub low_payload : ℕ
  pub high_payload : ℕ
  pub current_payload : ℕ
  pub attempts_sent : ℕ

pub data Phase : Type 0 where
  baseline : ℕ → Phase
  bracket : BracketState → Phase
  refine : RefineState → Phase
  done : SearchResult → Phase

pub record SearchController : Type 0 where
  pub config : MtuConfig
  pub phase : Phase
  pub next_seq : ℕ
  pub probes_sent : ℕ

-- `SearchController::new`.
unfoldable pub new : MtuConfig → SearchController
new config = record { config = config; phase = baseline 1; next_seq = 2; probes_sent = 1 }

unfoldable pub payload_to_mtu : ℕ → ℕ
payload_to_mtu payload_size = saturate u32_max (saturate u32_max payload_size + ipv4_icmp_overhead)

unfoldable pub initial_action : SearchController → SearchAction
initial_action c = probe 1 c.config.baseline_payload (payload_to_mtu c.config.baseline_payload)

unfoldable pub confirm_attempts : MtuConfig → ℕ
confirm_attempts c = max c.confirm_probes 1

unfoldable pub mtu_to_payload : MtuConfig → ℕ → ℕ
mtu_to_payload c mtu =
    let clamped = clamp mtu c.floor_mtu c.ceiling_mtu in
    clamp (clamped - ipv4_icmp_overhead) (floor_payload c) (ceiling_payload c)

unfoldable pub hint_to_payload : MtuConfig → ℕ → ℕ
hint_to_payload c hint_mtu =
    let lower = saturate u32_max (c.floor_mtu + 1) in
    mtu_to_payload c (clamp hint_mtu lower c.ceiling_mtu)

-- The match on the hinted payload.
midpoint_unless_inside : ℕ → ℕ → Option ℕ → ℕ
midpoint_unless_inside low high (some payload) =
    if ltb low payload && ltb payload high then payload else low + (high - low) / 2
midpoint_unless_inside low high none = low + (high - low) / 2

unfoldable pub next_refine_payload : MtuConfig → ℕ → ℕ → Option ℕ → ℕ
unfolding midpoint_unless_inside
next_refine_payload c low high hint_mtu =
    midpoint_unless_inside low high (Option.map (hint_to_payload c) hint_mtu)

unfoldable pub emit_probe : SearchController → ℕ → Phase → SearchController × SearchAction
emit_probe c payload_size phase = (
  record c { next_seq = bump_u64 c.next_seq; probes_sent = bump_u64 c.probes_sent; phase = phase },
  probe c.next_seq payload_size (payload_to_mtu payload_size),
)

unfoldable pub finish : SearchController → ResultKind → SearchController × SearchAction
finish c kind =
    let result : SearchResult = record { kind = kind; probes_sent = c.probes_sent } in
    (record c { phase = done result }, SearchAction.done result)

unfoldable pub emit_bracket_probe : SearchController → ℕ → ℕ → SearchController × SearchAction
emit_bracket_probe c current_mtu largest_ok_mtu =
    emit_probe c (mtu_to_payload c.config current_mtu) (
      bracket
        (record { current_mtu = current_mtu; attempts_sent = 1; largest_ok_mtu = largest_ok_mtu }))

unfoldable pub start_bracket : SearchController → SearchController × SearchAction
start_bracket c =
    let mtu = clamp 1500 c.config.floor_mtu c.config.ceiling_mtu in
    emit_bracket_probe c mtu c.config.floor_mtu

unfoldable pub emit_refine_probe :
    SearchController → ℕ → ℕ → Option ℕ → SearchController × SearchAction
emit_refine_probe c low high hint_mtu =
    let current = next_refine_payload c.config low high hint_mtu in
    emit_probe c current (
      refine (record {
        low_payload = low;
        high_payload = high;
        current_payload = current;
        attempts_sent = 1;
      }))

unfoldable pub continue_refine :
    SearchController → ℕ → ℕ → Option ℕ → SearchController × SearchAction
continue_refine c low high hint_mtu =
    if high == (low + 1)
    then finish c (exact (payload_to_mtu low))
    else emit_refine_probe c low high hint_mtu

unfoldable pub baseline_rejected_message : Option ℕ → Text
baseline_rejected_message (some mtu) =
    codes "baseline probe rejected: too big (hint MTU " ++ (decimal mtu ++ codes ")")
baseline_rejected_message none = codes "baseline probe rejected: too big"

unfoldable pub step_baseline : SearchController → ℕ → ProbeOutcome → SearchController × SearchAction
step_baseline c attempts_sent (ok rtt) = start_bracket c
step_baseline c attempts_sent (too_big hint_mtu) =
    finish c (failed (baseline_rejected_message hint_mtu))
step_baseline c attempts_sent timeout =
    if ltb attempts_sent (confirm_attempts c.config)
    then emit_probe c c.config.baseline_payload (baseline (bump_u64 attempts_sent))
    else finish c unreachable
step_baseline c attempts_sent (error message) = finish c (failed message)

unfoldable pub step_bracket :
    SearchController → BracketState → ProbeOutcome → SearchController × SearchAction
step_bracket c state (ok rtt) =
    if state.current_mtu == c.config.ceiling_mtu
    then finish c (lower_bound c.config.ceiling_mtu ceiling_reached)
    else emit_bracket_probe c (min (saturate u32_max (state.current_mtu * 2)) c.config.ceiling_mtu)
        state.current_mtu
step_bracket c state (too_big hint_mtu) =
    emit_refine_probe c (mtu_to_payload c.config state.largest_ok_mtu)
      (mtu_to_payload c.config state.current_mtu) hint_mtu
step_bracket c state timeout =
    if ltb state.attempts_sent (confirm_attempts c.config)
    then emit_probe c (mtu_to_payload c.config state.current_mtu)
        (bracket (record state { attempts_sent = bump_u64 state.attempts_sent }))
    else finish c (lower_bound state.largest_ok_mtu (timeout_above state.current_mtu))
step_bracket c state (error message) = finish c (failed message)

unfoldable pub step_refine :
    SearchController → RefineState → ProbeOutcome → SearchController × SearchAction
step_refine c state (ok rtt) = continue_refine c state.current_payload state.high_payload none
step_refine c state (too_big hint_mtu) =
    continue_refine c state.low_payload (min state.high_payload state.current_payload) hint_mtu
step_refine c state timeout =
    if ltb state.attempts_sent (confirm_attempts c.config)
    then emit_probe c state.current_payload
        (refine (record state { attempts_sent = bump_u64 state.attempts_sent }))
    else finish c (
        lower_bound (payload_to_mtu state.low_payload)
          (timeout_above (payload_to_mtu state.current_payload)))
step_refine c state (error message) = finish c (failed message)

-- The match on the phase.
unfoldable pub step_in : Phase → SearchController → ProbeOutcome → SearchController × SearchAction
step_in (done result) c outcome = (c, SearchAction.done result)
step_in (baseline attempts_sent) c outcome = step_baseline c attempts_sent outcome
step_in (bracket state) c outcome = step_bracket c state outcome
step_in (refine state) c outcome = step_refine c state outcome

unfoldable pub step : SearchController → ProbeOutcome → SearchController × SearchAction
unfolding step_in
step c outcome = step_in c.phase c outcome
