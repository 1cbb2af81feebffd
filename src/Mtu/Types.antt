-- ===== src/Mtu/Types.antt =====
-- mtu/types.rs: probe outcomes, the search's tuning, its actions and results.
use verkkokyyla.Prelude.{ℕ, ◌+◌, ◌-◌, ◌≤◌, ◌<◌, Option}
use verkkokyyla.Prelude.Text.{Text}
use verkkokyyla.Prelude.Machine.{u32_max}

abbrev pub ipv4_icmp_overhead : ℕ
ipv4_icmp_overhead = 28

abbrev pub default_floor_mtu : ℕ
default_floor_mtu = 576

abbrev pub default_ceiling_mtu : ℕ
default_ceiling_mtu = 9000

abbrev pub max_ceiling_mtu : ℕ
max_ceiling_mtu = 10240

abbrev pub baseline_payload_size : ℕ
baseline_payload_size = 56

abbrev pub default_confirm_probes : ℕ
default_confirm_probes = 2

-- A round-trip time is a number of nanoseconds.
pub data ProbeOutcome : Type 0 where
  ok : ℕ → ProbeOutcome
  too_big : Option ℕ → ProbeOutcome
  timeout : ProbeOutcome
  error : Text → ProbeOutcome

pub record MtuConfig : Type 0 where
  pub floor_mtu : ℕ
  pub ceiling_mtu : ℕ
  pub confirm_probes : ℕ
  pub baseline_payload : ℕ

-- `MtuConfig::default`.
abbrev pub default_config : MtuConfig
default_config = record {
  floor_mtu = default_floor_mtu;
  ceiling_mtu = default_ceiling_mtu;
  confirm_probes = default_confirm_probes;
  baseline_payload = baseline_payload_size;
}

-- `saturating_sub` is the subtraction on ℕ.
abbrev pub floor_payload : MtuConfig → ℕ
floor_payload c = c.floor_mtu - ipv4_icmp_overhead

abbrev pub ceiling_payload : MtuConfig → ℕ
ceiling_payload c = c.ceiling_mtu - ipv4_icmp_overhead

pub data LowerBoundReason : Type 0 where
  timeout_above : ℕ → LowerBoundReason
  ceiling_reached : LowerBoundReason

pub data ResultKind : Type 0 where
  exact : ℕ → ResultKind
  lower_bound : ℕ → LowerBoundReason → ResultKind
  unreachable : ResultKind
  failed : Text → ResultKind

pub record SearchResult : Type 0 where
  pub kind : ResultKind
  pub probes_sent : ℕ

-- `probe seq payload_size mtu_size`.
pub data SearchAction : Type 0 where
  probe : ℕ → ℕ → ℕ → SearchAction
  done : SearchResult → SearchAction

-- What every configuration that the manager builds satisfies (see Mtu/Manager).
pub record IsValid (c : MtuConfig) : Type 0 where
  pub overhead_le_floor : ipv4_icmp_overhead ≤ c.floor_mtu
  pub floor_lt_start : c.floor_mtu < 1500
  pub start_le_ceiling : 1500 ≤ c.ceiling_mtu
  pub ceiling_fits : c.ceiling_mtu ≤ u32_max
  pub probes_fit : c.confirm_probes ≤ 255
  pub baseline_le_floor : c.baseline_payload + ipv4_icmp_overhead ≤ c.floor_mtu
