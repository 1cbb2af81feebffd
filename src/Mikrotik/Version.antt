-- ===== src/Mikrotik/Version.antt =====
-- mikrotik/version.rs: the check for updates and firmware of a router, and what is done with its
-- result. The API, the database, the manager's map and the JSON of the results are parameters, and
-- so is `to_lowercase`, whose tables are Unicode's.
pub mod Probe
pub mod Report
pub mod Reading
pub mod Replay
pub mod Polls
pub mod Delivery
use verkkokyyla.Mikrotik.Error.{
  MikrotikError, connect, parse, api, begins, contains, is_no_such_command,
}
use verkkokyyla.Prelude.Effects.{
  Outcome, Effect, ret, raise, inspect, call, attempt, proceed, ◌>>=◌, ◌>>◌,
}
use verkkokyyla.Prelude.Int.{ℤ}
use verkkokyyla.Prelude.Results.{Result, ok, err, map_err}
use verkkokyyla.Prelude.Text.{Text, codes, text_eq}
use verkkokyyla.Prelude.{
  ℕ, zero, suc, Bool, true, false, not, ◌||◌, ◌&&◌, [], ◌∷◌, ◌++◌, Option, none, some, ◌==◌,
  if◌then◌else◌,
}

abbrev pub update_poll : ℕ
update_poll = 2_000

abbrev pub update_poll_limit : ℕ
update_poll_limit = 15

pub record UpdateStatusDto : Type 0 where
  pub installed_version : Option Text
  pub latest_version : Option Text
  pub channel : Option Text
  pub status : Option Text

pub record RouterboardDto : Type 0 where
  pub routerboard : Option Bool
  pub model : Option Text
  pub serial_number : Option Text
  pub current_firmware : Option Text
  pub upgrade_firmware : Option Text

pub data UpdateState : Type 0 where
  update_available update_up_to_date update_unknown : UpdateState

pub record UpdateStatusResultDto : Type 0 where
  pub installed_version : Option Text
  pub latest_version : Option Text
  pub channel : Option Text
  pub status : Text
  pub state : UpdateState

pub data FirmwareState : Type 0 where
  firmware_available firmware_up_to_date firmware_not_applicable firmware_unknown : FirmwareState

pub record FirmwareStatusDto : Type 0 where
  pub state : FirmwareState
  pub current_firmware : Option Text
  pub upgrade_firmware : Option Text
  pub model : Option Text

pub record VersionFirmwareResultDto : Type 0 where
  pub update_status : UpdateStatusResultDto
  pub firmware_status : FirmwareStatusDto

pub record Probed (W : Type 0) : Type 0 where
  pub check_for_updates : W → Result MikrotikError UpdateStatusDto × W
  pub get_update_status : W → Result MikrotikError UpdateStatusDto × W
  pub get_routerboard : W → Result MikrotikError RouterboardDto × W
  pub sleep : ℕ → W → W
  pub is_live : ℤ → W → Bool
  pub set_version_status : ℤ → Text → Text → W → Result Text (Unit {0}) × W
  pub update_json : UpdateStatusResultDto → Result Text Text
  pub firmware_json : FirmwareStatusDto → Result Text Text
  pub lower : Text → Text

pub data VersionCall : Type 0 where
  checked : Result MikrotikError UpdateStatusDto → VersionCall
  polled : Result MikrotikError UpdateStatusDto → VersionCall
  slept : ℕ → VersionCall
  asked_board : Result MikrotikError RouterboardDto → VersionCall
  stored : ℤ → Text → Text → Result MikrotikError (Unit {0}) → VersionCall
  sent : ℤ → VersionFirmwareResultDto → VersionCall

-- An unknown update, as `unknown_update` makes it.
abbrev pub unknown_update : UpdateStatusResultDto
unknown_update = record {
  installed_version = none;
  latest_version = none;
  channel = none;
  status = codes "unknown";
  state = update_unknown;
}

abbrev pub is_none : Option Text → Bool
is_none none = true
is_none (some t) = false

abbrev pub is_unknown : UpdateState → Bool
is_unknown update_unknown = true
is_unknown s = false

abbrev pub is_unclear : FirmwareState → Bool
is_unclear firmware_not_applicable = true
is_unclear firmware_unknown = true
is_unclear s = false

unfoldable pub should_deliver_spawned_probe : VersionFirmwareResultDto → Bool
should_deliver_spawned_probe r =
    let u = r.update_status in
    not (
      (is_unknown u.state
        && text_eq u.status (codes "unknown")
        && is_none u.installed_version
        && is_none u.latest_version
        && is_none u.channel)
      && is_unclear r.firmware_status.state)

abbrev pub firmware_state : Option Bool → Option Text → Option Text → FirmwareState
firmware_state (some true) (some current) (some upgrade) =
    if text_eq current upgrade then firmware_up_to_date else firmware_available
firmware_state (some true) _ _ = firmware_unknown
firmware_state _ _ _ = firmware_not_applicable

abbrev pub firmware_from_routerboard : RouterboardDto → FirmwareStatusDto
firmware_from_routerboard dto = record {
  state = firmware_state dto.routerboard dto.current_firmware dto.upgrade_firmware;
  current_firmware = dto.current_firmware;
  upgrade_firmware = dto.upgrade_firmware;
  model = dto.model;
}

abbrev pub no_firmware : FirmwareState → FirmwareStatusDto
no_firmware state = record {
  state = state;
  current_firmware = none;
  upgrade_firmware = none;
  model = none;
}

abbrev pub unwrap_or_unknown : Option Text → Text
unwrap_or_unknown none = codes "unknown"
unwrap_or_unknown (some t) = t

abbrev pub known :
    Option (Result MikrotikError UpdateStatusResultDto)
    → Option (Result MikrotikError UpdateStatusResultDto)
known (some (err e)) = some (ok unknown_update)
known r = r
