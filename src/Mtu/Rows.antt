-- ===== src/Mtu/Rows.antt =====
-- How a run's results and probes are written to the database (mtu/runtime.rs) and read back for the
-- history view (mtu/manager.rs). A duration in milliseconds is a float of the type `F`.
pub mod RoundTrip
use mathlib.Core.Option
use verkkokyyla.Mtu.Types.{ProbeOutcome, LowerBoundReason, ResultKind}
use verkkokyyla.Prelude.Int.{ℤ, pos, negsuc}
use verkkokyyla.Prelude.Machine.{u32_max, i64_max, u64_mod, saturate}
use verkkokyyla.Prelude.Text.{Text, codes, text_eq, strip_prefix, decimal, parse_uint}
use verkkokyyla.Prelude.{ℕ, ◌-◌, ◌||◌, ◌++◌, Option, none, some, and_then, leb, if◌then◌else◌}

pub data LowerBoundReasonDto : Type 0 where
  timeout_above : ℕ → LowerBoundReasonDto
  ceiling_reached : LowerBoundReasonDto

pub data ResultKindDto : Type 0 where
  exact : ℕ → ResultKindDto
  lower_bound : ℕ → LowerBoundReasonDto → ResultKindDto
  unreachable : ResultKindDto
  failed : Text → ResultKindDto

reason_dto : LowerBoundReason → LowerBoundReasonDto
reason_dto (LowerBoundReason.timeout_above tried) = LowerBoundReasonDto.timeout_above tried
reason_dto LowerBoundReason.ceiling_reached = LowerBoundReasonDto.ceiling_reached

-- `impl From<&ResultKind> for ResultKindDto`.
unfoldable pub result_dto : ResultKind → ResultKindDto
unfolding reason_dto
result_dto (ResultKind.exact mtu) = ResultKindDto.exact mtu
result_dto (ResultKind.lower_bound mtu reason) = ResultKindDto.lower_bound mtu (reason_dto reason)
result_dto ResultKind.unreachable = ResultKindDto.unreachable
result_dto (ResultKind.failed message) = ResultKindDto.failed message

-- The three result columns of a run.
pub record ResultRow : Type 0 where
  pub result_kind : Text
  pub result_mtu : Option ℤ
  pub detail : Option Text

detail_of : LowerBoundReason → Text
detail_of (LowerBoundReason.timeout_above tried) = codes "timeout-above:" ++ decimal tried
detail_of LowerBoundReason.ceiling_reached = codes "ceiling"

unfoldable pub result_kind_to_row : ResultKind → ResultRow
unfolding detail_of
result_kind_to_row (ResultKind.exact mtu) = record {
  result_kind = codes "exact";
  result_mtu = some (pos mtu);
  detail = none;
}
result_kind_to_row (ResultKind.lower_bound mtu reason) = record {
  result_kind = codes "lower-bound";
  result_mtu = some (pos mtu);
  detail = some (detail_of reason);
}
result_kind_to_row ResultKind.unreachable = record {
  result_kind = codes "unreachable";
  result_mtu = none;
  detail = none;
}
result_kind_to_row (ResultKind.failed message) = record {
  result_kind = codes "failed";
  result_mtu = none;
  detail = some message;
}

-- `u32::try_from` and its like on an i64: none if the value does not fit.
try_from : ℕ → ℤ → Option ℕ
try_from limit (pos n) = if leb n limit then some n else none
try_from limit (negsuc n) = none

unfoldable pub option_i64_to_u32 : Option ℤ → ℕ
unfolding try_from
option_i64_to_u32 value = Option.get_or (and_then value (try_from u32_max)) 0

-- The arm of a detail that begins with "timeout-above:", given what follows the prefix.
reason_after_prefix : Option Text → LowerBoundReasonDto
reason_after_prefix (some raw) =
    LowerBoundReasonDto.timeout_above (Option.get_or (parse_uint u32_max raw) 0)
reason_after_prefix none = LowerBoundReasonDto.ceiling_reached

unfoldable pub lower_bound_reason_from_detail : Option Text → LowerBoundReasonDto
unfolding reason_after_prefix
lower_bound_reason_from_detail (some value) =
    if text_eq value (codes "ceiling")
    then LowerBoundReasonDto.ceiling_reached
    else reason_after_prefix (strip_prefix (codes "timeout-above:") value)
lower_bound_reason_from_detail none = LowerBoundReasonDto.ceiling_reached

unfoldable pub row_result_to_dto : ResultRow → ResultKindDto
row_result_to_dto r =
    if text_eq r.result_kind (codes "exact")
    then ResultKindDto.exact (option_i64_to_u32 r.result_mtu)
    else if text_eq r.result_kind (codes "lower-bound")
    then ResultKindDto.lower_bound (option_i64_to_u32 r.result_mtu)
        (lower_bound_reason_from_detail r.detail)
    else if text_eq r.result_kind (codes "unreachable")
    then ResultKindDto.unreachable
    else if text_eq r.result_kind (codes "failed")
        || text_eq r.result_kind (codes "cancelled")
        || text_eq r.result_kind (codes "running")
    then ResultKindDto.failed (Option.get_or r.detail r.result_kind)
    else ResultKindDto.failed r.result_kind

pub data ProbeOutcomeDto (F : Type 0) : Type 0 where
  ok : F → ProbeOutcomeDto F
  too_big : Option ℕ → ProbeOutcomeDto F
  timeout : ProbeOutcomeDto F
  error : Text → ProbeOutcomeDto F

-- The columns of a probe row, but for the run's id.
pub record NewMtuProbe (F : Type 0) : Type 0 where
  pub seq : ℤ
  pub payload_size : ℤ
  pub mtu_size : ℤ
  pub outcome : Text
  pub rtt_ms : Option F
  pub hint_mtu : Option ℤ
  pub message : Option Text
  pub at : Text

pub record MtuProbeDto (F : Type 0) : Type 0 where
  pub seq : ℕ
  pub payload_size : ℕ
  pub mtu_size : ℕ
  pub outcome : ProbeOutcomeDto F
  pub at : Text

-- `as_ms` is `rtt.as_secs_f64() * 1000.0`, and `zero_ms` the float 0.0.
module _ {F : Type 0} (as_ms : ℕ → F) where
  -- `impl From<ProbeOutcome> for ProbeOutcomeDto`.
  unfoldable pub outcome_dto : ProbeOutcome → ProbeOutcomeDto F
  outcome_dto (ProbeOutcome.ok rtt) = ProbeOutcomeDto.ok (as_ms rtt)
  outcome_dto (ProbeOutcome.too_big hint) = ProbeOutcomeDto.too_big hint
  outcome_dto ProbeOutcome.timeout = ProbeOutcomeDto.timeout
  outcome_dto (ProbeOutcome.error message) = ProbeOutcomeDto.error message

  -- The four columns that the outcome decides.
  outcome_columns : ProbeOutcome → Text × Option F × Option ℤ × Option Text
  outcome_columns (ProbeOutcome.ok rtt) = (codes "ok", some (as_ms rtt), none, none)
  outcome_columns (ProbeOutcome.too_big hint) = (codes "too-big", none, Option.map pos hint, none)
  outcome_columns ProbeOutcome.timeout = (codes "timeout", none, none, none)
  outcome_columns (ProbeOutcome.error message) = (codes "error", none, none, some message)

  unfoldable pub probe_row : ℕ → ℕ → ℕ → ProbeOutcome → Text → NewMtuProbe F
  unfolding outcome_columns
  probe_row seq payload_size mtu_size outcome at =
      let columns = outcome_columns outcome in
      record {
        seq = pos (saturate i64_max seq);
        payload_size = pos (saturate i64_max payload_size);
        mtu_size = pos mtu_size;
        outcome = columns.0;
        rtt_ms = columns.1;
        hint_mtu = columns.2;
        message = columns.3;
        at = at;
      }

module _ {F : Type 0} (zero_ms : F) where
  unfoldable pub row_probe_outcome_to_dto :
      Text → Option F → Option ℤ → Option Text → ProbeOutcomeDto F
  unfolding try_from
  row_probe_outcome_to_dto outcome rtt_ms hint_mtu message =
      if text_eq outcome (codes "ok")
      then ProbeOutcomeDto.ok (Option.get_or rtt_ms zero_ms)
      else if text_eq outcome (codes "too-big")
      then ProbeOutcomeDto.too_big (and_then hint_mtu (try_from u32_max))
      else if text_eq outcome (codes "timeout")
      then ProbeOutcomeDto.timeout
      else if text_eq outcome (codes "error")
      then ProbeOutcomeDto.error (Option.get_or message (codes "engine error"))
      else ProbeOutcomeDto.error (codes "unknown outcome")

  unfoldable pub mtu_probe_to_dto : NewMtuProbe F → MtuProbeDto F
  unfolding try_from row_probe_outcome_to_dto
  mtu_probe_to_dto row = record {
    seq = Option.get_or (try_from (u64_mod - 1) row.seq) 0;
    payload_size = Option.get_or (try_from (u64_mod - 1) row.payload_size) 0;
    mtu_size = Option.get_or (try_from u32_max row.mtu_size) 0;
    outcome = row_probe_outcome_to_dto row.outcome row.rtt_ms row.hint_mtu row.message;
    at = row.at;
  }
