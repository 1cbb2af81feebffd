-- ===== src/Mtu/Rows/RoundTrip.antt =====
-- What a run writes to the database is what the history view reads back.
use verkkokyyla.Mtu.Rows.{
  result_dto, result_kind_to_row, row_result_to_dto, option_i64_to_u32,
  lower_bound_reason_from_detail, outcome_dto, probe_row, mtu_probe_to_dto,
}
use verkkokyyla.Mtu.Types.{
  ProbeOutcome, too_big, timeout_above, ceiling_reached, ResultKind, exact, lower_bound,
  unreachable, failed,
}
use verkkokyyla.Prelude.Machine.{u32_max, i64_max, saturate}
use verkkokyyla.Prelude.Text.{Text, parse_uint-decimal}
use verkkokyyla.Prelude.{ℕ, ◌≤◌, ◌≡◌, refl, none, some, arith}

-- A result whose numbers are u32 values.
abbrev pub Fits : ResultKind → Type 0
Fits (exact mtu) = mtu ≤ u32_max
Fits (lower_bound mtu (timeout_above tried)) = (mtu ≤ u32_max) × (tried ≤ u32_max)
Fits (lower_bound mtu ceiling_reached) = mtu ≤ u32_max
Fits _ = Unit

-- The history view shows the result that the run ended with, its numbers and messages included.
pub row_result_to_dto-result_kind_to_row :
    (kind : ResultKind) → Fits kind → row_result_to_dto (result_kind_to_row kind) ≡ result_dto kind
unfolding row_result_to_dto result_kind_to_row result_dto option_i64_to_u32
    lower_bound_reason_from_detail
row_result_to_dto-result_kind_to_row (exact mtu) h = ground arith
row_result_to_dto-result_kind_to_row (lower_bound mtu (timeout_above tried)) h =
    ground (arith, parse_uint-decimal u32_max tried h.1)
row_result_to_dto-result_kind_to_row (lower_bound mtu ceiling_reached) h = ground arith
row_result_to_dto-result_kind_to_row unreachable h = refl
row_result_to_dto-result_kind_to_row (failed message) h = refl

abbrev pub HintFits : ProbeOutcome → Type 0
HintFits (too_big (some hint)) = hint ≤ u32_max
HintFits _ = Unit

module _ {F : Type 0} (as_ms : ℕ → F) (zero_ms : F) where
  -- A stored probe is shown with its sequence number, sizes, outcome and time, for values that fit
  -- the columns.
  mtu_probe_to_dto-probe_row :
      (seq payload mtu : ℕ) (o : ProbeOutcome) (at : Text)
      → seq ≤ i64_max
      → payload ≤ i64_max
      → mtu ≤ u32_max
      → HintFits o
      → mtu_probe_to_dto zero_ms (probe_row as_ms seq payload mtu o at) ≡ record {
        seq = seq;
        payload_size = payload;
        mtu_size = mtu;
        outcome = outcome_dto as_ms o;
        at = at;
      }
  unfolding mtu_probe_to_dto probe_row outcome_dto saturate
  mtu_probe_to_dto-probe_row seq payload mtu (too_big (some hint)) at h k l f = ground arith
  mtu_probe_to_dto-probe_row seq payload mtu (too_big none) at h k l f = ground arith
  mtu_probe_to_dto-probe_row seq payload mtu o at h k l f = ground arith
