-- ===== src/Mikrotik/Version/Probe.antt =====
-- mikrotik/version.rs: the probes of a router, and the delivery of what they find.
use verkkokyyla.Mikrotik.Error.{
  MikrotikError, connect, parse, api, begins, contains, is_no_such_command,
}
use verkkokyyla.Mikrotik.Version.{
  update_poll, update_poll_limit, UpdateStatusDto, RouterboardDto, UpdateState,
  UpdateStatusResultDto, FirmwareStatusDto, VersionFirmwareResultDto, Probed, VersionCall,
  should_deliver_spawned_probe, firmware_from_routerboard, no_firmware, unwrap_or_unknown, known,
  update_available, update_up_to_date, update_unknown, firmware_not_applicable, firmware_unknown,
  checked, polled, slept, asked_board, stored, sent,
}
use verkkokyyla.Prelude.Effects.{Effect, ret, inspect, call, attempt, ◌>>=◌, ◌>>◌}
use verkkokyyla.Prelude.Int.{ℤ}
use verkkokyyla.Prelude.Results.{Result, ok, err, map_err}
use verkkokyyla.Prelude.Text.{Text, codes}
use verkkokyyla.Prelude.{
  ℕ, zero, suc, Bool, true, false, not, ◌||◌, [], ◌∷◌, ◌++◌, Option, none, some, ◌==◌,
  if◌then◌else◌,
}

module _ {W : Type 0} (probed : Probed W) where
  abbrev pub Probe : Type 0 → Type 0
  Probe A = Effect MikrotikError VersionCall W A

  abbrev pub is_terminal : Option Text → Bool
  is_terminal none = true
  is_terminal (some status) =
      let lower = probed.lower status in
      not (
        begins (codes "checking") lower
        || begins (codes "downloading") lower
        || begins (codes "installing") lower
        || begins (codes "finding out latest version") lower)

  abbrev pub update_state : Option Text → Option Text → UpdateState
  update_state latest none = update_unknown
  update_state none (some status) = update_unknown
  update_state (some latest) (some status) =
      if contains (codes "available") (probed.lower status)
      then update_available
      else if contains (codes "up to date") (probed.lower status)
      then update_up_to_date
      else update_unknown

  abbrev pub update_result : UpdateStatusDto → UpdateStatusResultDto
  update_result dto = record {
    installed_version = dto.installed_version;
    latest_version = dto.latest_version;
    channel = dto.channel;
    status = unwrap_or_unknown dto.status;
    state = update_state dto.latest_version dto.status;
  }

  abbrev pub pause : ℕ → Probe (Unit {0})
  pause d w = record { result = some (ok tt); calls = slept d ∷ []; world = probed.sleep d w }

  -- The loop, with what was last read and how many turns are left.
  unfoldable pub poll_updates : ℕ → UpdateStatusDto → Probe UpdateStatusDto
  poll_updates zero current = ret current
  poll_updates (suc turns) current = do
    pause update_poll
    next ← call polled probed.get_update_status
    if is_terminal next.status then ret next else poll_updates turns next

  unfoldable pub probe_update : Probe UpdateStatusResultDto
  probe_update = do
    first ← call checked probed.check_for_updates
    last ← if is_terminal first.status then ret first else poll_updates update_poll_limit first
    ret (update_result last)

  abbrev pub is_routerboard_not_applicable : MikrotikError → Bool
  is_routerboard_not_applicable (api status message) =
      status == 404 || is_no_such_command probed.lower (api status message)
  is_routerboard_not_applicable e = false

  abbrev pub firmware_of : Result MikrotikError RouterboardDto → FirmwareStatusDto
  firmware_of (ok dto) = firmware_from_routerboard dto
  firmware_of (err e) =
      if is_routerboard_not_applicable e
      then no_firmware firmware_not_applicable
      else no_firmware firmware_unknown

  unfoldable pub probe_firmware : Probe FirmwareStatusDto
  probe_firmware = do answer ← attempt asked_board probed.get_routerboard; ret (firmware_of answer)

  -- The error of the update probe is not passed on.
  abbrev pub or_unknown : Probe UpdateStatusResultDto → Probe UpdateStatusResultDto
  or_unknown body w =
      let o = body w in record { result = known o.result; calls = o.calls; world = o.world }

  -- The code interleaves the calls of the two probes; here they follow each other.
  unfoldable pub probe_once : Probe VersionFirmwareResultDto
  probe_once = do
    update_status ← or_unknown probe_update
    firmware_status ← probe_firmware
    ret (record { update_status = update_status; firmware_status = firmware_status })

  abbrev pub json_error : Text → Text → MikrotikError
  json_error what message = parse (codes "serialize " ++ what ++ codes ": " ++ message)

  unfoldable pub persist_result : ℤ → VersionFirmwareResultDto → Probe (Unit {0})
  persist_result session_id r = do
    update ←
        inspect
          (λ w. map_err (json_error (codes "update status")) (probed.update_json r.update_status))
    firmware ← inspect (λ w.
        map_err (json_error (codes "firmware status")) (probed.firmware_json r.firmware_status))
    call (stored session_id update firmware) (λ w.
        let (answer, after) = probed.set_version_status session_id update firmware w in
        (map_err connect answer, after))

  abbrev pub emit : ℤ → VersionFirmwareResultDto → Probe (Unit {0})
  emit session_id r w = record { result = some (ok tt); calls = sent session_id r ∷ []; world = w }

  unfoldable pub persist_for_active_session : ℤ → VersionFirmwareResultDto → Probe (Unit {0})
  persist_for_active_session session_id r w =
      if probed.is_live session_id w
      then (persist_result session_id r >> emit session_id r) w
      else ret tt w

  -- The spawned task: it swallows the errors of the write.
  abbrev pub swallow : Probe (Unit {0}) → Probe (Unit {0})
  swallow body w =
      let o = body w in record { result = some (ok tt); calls = o.calls; world = o.world }

  unfoldable pub run_version_probe : ℤ → Probe (Unit {0})
  run_version_probe session_id = do
    r ← probe_once
    if should_deliver_spawned_probe r
        then swallow (persist_for_active_session session_id r)
        else ret tt

  abbrev pub for_target : Option ℤ → VersionFirmwareResultDto → Probe (Unit {0})
  for_target none r = ret tt
  for_target (some session_id) r = persist_for_active_session session_id r

  unfoldable pub manual_check : Option ℤ → Probe VersionFirmwareResultDto
  manual_check target = do r ← probe_once; for_target target r; ret r
