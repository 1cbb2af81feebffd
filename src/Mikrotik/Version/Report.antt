-- ===== src/Mikrotik/Version/Report.antt =====
-- What a check reports, from the answers that it got.
use verkkokyyla.Mikrotik.Error.{MikrotikError, contains}
use verkkokyyla.Mikrotik.Version.Probe.{
  update_state, update_result, is_routerboard_not_applicable, firmware_of,
}
use verkkokyyla.Mikrotik.Version.{
  UpdateStatusDto, RouterboardDto, UpdateState, update_available, update_up_to_date, update_unknown,
  UpdateStatusResultDto, FirmwareState, firmware_available, firmware_up_to_date,
  firmware_not_applicable, firmware_unknown, FirmwareStatusDto, VersionFirmwareResultDto, Probed,
  VersionCall, checked, polled, slept, asked_board, stored, sent, unknown_update, no_firmware,
  firmware_state, unwrap_or_unknown, should_deliver_spawned_probe, is_none, is_unknown, is_unclear,
}
use verkkokyyla.Prelude.Results.{Result, ok, err}
use verkkokyyla.Prelude.Text.{Text, codes, text_eq, text_eq-eq, text_eq_refl}
use verkkokyyla.Prelude.{
  ◌≡◌, ◌≢◌, ◌⊎◌, refl, Bool, true, false, List, [], ◌∷◌, Option, none, some, arith, Bool-cases, inl,
  inr,
}

-- The last answer on the updates, and the last one on the board.
abbrev pub last_status :
    Option (Result MikrotikError UpdateStatusDto)
    → List VersionCall
    → Option (Result MikrotikError UpdateStatusDto)
last_status a [] = a
last_status a (checked r ∷ cs) = last_status (some r) cs
last_status a (polled r ∷ cs) = last_status (some r) cs
last_status a (slept d ∷ cs) = last_status a cs
last_status a (asked_board r ∷ cs) = last_status a cs
last_status a (stored id u f r ∷ cs) = last_status a cs
last_status a (sent id r ∷ cs) = last_status a cs

abbrev pub last_board :
    Option (Result MikrotikError RouterboardDto)
    → List VersionCall
    → Option (Result MikrotikError RouterboardDto)
last_board a [] = a
last_board a (asked_board r ∷ cs) = last_board (some r) cs
last_board a (checked r ∷ cs) = last_board a cs
last_board a (polled r ∷ cs) = last_board a cs
last_board a (slept d ∷ cs) = last_board a cs
last_board a (stored id u f r ∷ cs) = last_board a cs
last_board a (sent id r ∷ cs) = last_board a cs

module _ (lower : Text → Text) where
  -- The state of the updates, by the latest version and the status.
  pub data IsUpdateState : Option Text → Option Text → UpdateState → Type 0 where
    no_status : (latest : Option Text) → IsUpdateState latest none update_unknown
    no_latest : (status : Text) → IsUpdateState none (some status) update_unknown
    says_available :
        (latest status : Text)
        → contains (codes "available") (lower status) ≡ true
        → IsUpdateState (some latest) (some status) update_available
    says_up_to_date :
        (latest status : Text)
        → contains (codes "available") (lower status) ≡ false
        → contains (codes "up to date") (lower status) ≡ true
        → IsUpdateState (some latest) (some status) update_up_to_date
    says_neither :
        (latest status : Text)
        → contains (codes "available") (lower status) ≡ false
        → contains (codes "up to date") (lower status) ≡ false
        → IsUpdateState (some latest) (some status) update_unknown

-- The text of a status, if there is one.
pub data IsStatusText : Option Text → Text → Type 0 where
  no_text : IsStatusText none (codes "unknown")
  a_text : (status : Text) → IsStatusText (some status) status

-- The state of the firmware, by whether there is a board and by its versions.
pub data IsFirmwareState : Option Bool → Option Text → Option Text → FirmwareState → Type 0 where
  unknown_board :
      (current upgrade : Option Text) → IsFirmwareState none current upgrade firmware_not_applicable
  no_board :
      (current upgrade : Option Text)
      → IsFirmwareState (some false) current upgrade firmware_not_applicable
  no_current : (upgrade : Option Text) → IsFirmwareState (some true) none upgrade firmware_unknown
  no_upgrade : (current : Text) → IsFirmwareState (some true) (some current) none firmware_unknown
  is_current :
      (version : Text)
      → IsFirmwareState (some true) (some version) (some version) firmware_up_to_date
  is_older :
      (current upgrade : Text)
      → current ≢ upgrade
      → IsFirmwareState (some true) (some current) (some upgrade) firmware_available

firmware_state-IsFirmwareState :
    (board : Option Bool) (current upgrade : Option Text)
    → IsFirmwareState board current upgrade (firmware_state board current upgrade)
firmware_state-IsFirmwareState none current upgrade = unknown_board current upgrade
firmware_state-IsFirmwareState (some false) current upgrade = no_board current upgrade
firmware_state-IsFirmwareState (some true) none upgrade = no_current upgrade
firmware_state-IsFirmwareState (some true) (some current) none = no_upgrade current
firmware_state-IsFirmwareState (some true) (some current) (some upgrade) =
    elim (Bool-cases (text_eq current upgrade)) [
      | inl y ↦ rw (y, text_eq-eq current upgrade y) (is_current upgrade)
      | inr n ↦ rw n (is_older current upgrade (λ e. cc (n, e, text_eq_refl current)))
    ]

-- The result says nothing about the updates, and nothing about the firmware.
pub record SaysNothing (r : VersionFirmwareResultDto) : Type 0 where
  pub no_state : r.update_status.state ≡ update_unknown
  pub no_status_text : r.update_status.status ≡ codes "unknown"
  pub not_installed : r.update_status.installed_version ≡ none
  pub nothing_new : r.update_status.latest_version ≡ none
  pub on_no_channel : r.update_status.channel ≡ none
  pub no_firmware_state :
      (r.firmware_status.state ≡ firmware_not_applicable)
      ⊎ (r.firmware_status.state ≡ firmware_unknown)

is_none-none : (o : Option Text) → is_none o ≡ true → o ≡ none
is_none-none none e = refl
is_none-none (some t) e = cc

is_unknown-unknown : (s : UpdateState) → is_unknown s ≡ true → s ≡ update_unknown
is_unknown-unknown update_unknown e = refl
is_unknown-unknown update_available e = cc
is_unknown-unknown update_up_to_date e = cc

is_unclear-either :
    (s : FirmwareState)
    → is_unclear s ≡ true
    → (s ≡ firmware_not_applicable) ⊎ (s ≡ firmware_unknown)
is_unclear-either firmware_not_applicable e = inl refl
is_unclear-either firmware_unknown e = inr refl
is_unclear-either firmware_available e = cc
is_unclear-either firmware_up_to_date e = cc

pub should_deliver-SaysNothing :
    (r : VersionFirmwareResultDto) → should_deliver_spawned_probe r ≡ false → SaysNothing r
unfolding should_deliver_spawned_probe
should_deliver-SaysNothing r e =
    let u = r.update_status in
    let s1 = is_unknown-unknown u.state in
    let s2 = text_eq-eq u.status (codes "unknown") in
    let s3 = is_none-none u.installed_version in
    let s4 = is_none-none u.latest_version in
    let s5 = is_none-none u.channel in
    let s6 = is_unclear-either r.firmware_status.state in
    record {
      no_state = ground (arith, e, s1);
      no_status_text = s2 (ground (arith, e));
      not_installed = ground (arith, e, s3);
      nothing_new = ground (arith, e, s4);
      on_no_channel = ground (arith, e, s5);
      no_firmware_state = s6 (ground (arith, e));
    }

unclear_either :
    (s : FirmwareState)
    → (s ≡ firmware_not_applicable) ⊎ (s ≡ firmware_unknown)
    → is_unclear s ≡ true
unclear_either s (inl e) = rw e refl
unclear_either s (inr e) = rw e refl

pub SaysNothing-should_deliver :
    (r : VersionFirmwareResultDto) → SaysNothing r → should_deliver_spawned_probe r ≡ false
unfolding should_deliver_spawned_probe
SaysNothing-should_deliver r n =
    rw
      (
        n.no_state,
        n.no_status_text,
        n.not_installed,
        n.nothing_new,
        n.on_no_channel,
        unclear_either r.firmware_status.state n.no_firmware_state,
      )
      refl

module _ {W : Type 0} (probed : Probed W) where
  -- What is reported on the updates: an error leaves nothing known.
  pub data IsUpdate : Result MikrotikError UpdateStatusDto → UpdateStatusResultDto → Type 0 where
    not_told : (e : MikrotikError) → IsUpdate (err e) unknown_update
    was_told :
        (dto : UpdateStatusDto) (status : Text) (state : UpdateState)
        → IsStatusText dto.status status
        → IsUpdateState probed.lower dto.latest_version dto.status state
        → IsUpdate (ok dto) (record {
          installed_version = dto.installed_version;
          latest_version = dto.latest_version;
          channel = dto.channel;
          status = status;
          state = state;
        })

  -- What is reported on the firmware.
  pub data IsFirmware : Result MikrotikError RouterboardDto → FirmwareStatusDto → Type 0 where
    has_no_board :
        (e : MikrotikError)
        → is_routerboard_not_applicable probed e ≡ true
        → IsFirmware (err e) (no_firmware firmware_not_applicable)
    board_failed :
        (e : MikrotikError)
        → is_routerboard_not_applicable probed e ≡ false
        → IsFirmware (err e) (no_firmware firmware_unknown)
    has_board :
        (dto : RouterboardDto) (state : FirmwareState)
        → IsFirmwareState dto.routerboard dto.current_firmware dto.upgrade_firmware state
        → IsFirmware (ok dto) (record {
          state = state;
          current_firmware = dto.current_firmware;
          upgrade_firmware = dto.upgrade_firmware;
          model = dto.model;
        })

  unwrap_or_unknown-IsStatusText : (o : Option Text) → IsStatusText o (unwrap_or_unknown o)
  unwrap_or_unknown-IsStatusText none = no_text
  unwrap_or_unknown-IsStatusText (some t) = a_text t

  update_state-IsUpdateState :
      (latest status : Option Text)
      → IsUpdateState probed.lower latest status (update_state probed latest status)
  update_state-IsUpdateState latest none = no_status latest
  update_state-IsUpdateState none (some status) = no_latest status
  update_state-IsUpdateState (some latest) (some status) =
      elim (Bool-cases (contains (codes "available") (probed.lower status))) [
        | inl y ↦ rw y (says_available latest status y)
        | inr n ↦ rw n (elim (Bool-cases (contains (codes "up to date") (probed.lower status))) [
          | inl u ↦ rw u (says_up_to_date latest status n u)
          | inr v ↦ rw v (says_neither latest status n v)
        ])
      ]

  -- The update that is reported for an answer.
  abbrev pub update_for : Result MikrotikError UpdateStatusDto → UpdateStatusResultDto
  update_for (err e) = unknown_update
  update_for (ok dto) = update_result probed dto

  pub update_for-IsUpdate : (r : Result MikrotikError UpdateStatusDto) → IsUpdate r (update_for r)
  update_for-IsUpdate (err e) = not_told e
  update_for-IsUpdate (ok dto) =
      was_told dto _ _ (unwrap_or_unknown-IsStatusText dto.status)
        (update_state-IsUpdateState dto.latest_version dto.status)

  pub firmware_of-IsFirmware :
      (r : Result MikrotikError RouterboardDto) → IsFirmware r (firmware_of probed r)
  firmware_of-IsFirmware (ok dto) =
      has_board dto _
        (firmware_state-IsFirmwareState dto.routerboard dto.current_firmware dto.upgrade_firmware)
  firmware_of-IsFirmware (err e) = elim (Bool-cases (is_routerboard_not_applicable probed e)) [
    | inl y ↦ rw y (has_no_board e y)
    | inr n ↦ rw n (board_failed e n)
  ]
