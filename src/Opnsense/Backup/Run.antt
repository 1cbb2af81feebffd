-- ===== src/Opnsense/Backup/Run.antt =====
-- opnsense/backup.rs, `OpnsenseBackupManager`: the revisions of a firewall, and storing one of them.
use verkkokyyla.Opnsense.Backup.Checks.{
  valid_revision_id, sort_newest_first, validate_backup_name, validate_passphrase,
  validate_config_xml,
}
use verkkokyyla.Opnsense.Backup.{
  OpnsenseBackupError, destination_invalid, no_revisions, invalid_revision_id, api_error,
  SetupError, setup_error, OpnsenseRevisionDto, OpnsenseBackupResultDto, Device, listed, downloaded,
  Flow, encrypt_to_file,
}
use verkkokyyla.Prelude.Effects.{ret, inspect, call, ◌>>=◌, ◌>>◌}
use verkkokyyla.Prelude.Int.{ℤ}
use verkkokyyla.Prelude.Results.{Result, ok, err, map_err}
use verkkokyyla.Prelude.Text.{Text, codes, text_eq}
use verkkokyyla.Prelude.{ℕ, List, [], ◌∷◌, ◌++◌, Option, none, some, if◌then◌else◌}

module _ {D P C A W : Type 0} (device : Device D P C A W) where
  -- A part of the setup: no call of the firewall or the disk.
  abbrev pub set_up : {B : Type 0} → (W → Result (SetupError D) B × W) → Flow device B
  set_up f w = record { result = some (map_err setup_error (f w).0); calls = []; world = (f w).1 }

  unfoldable pub api_for : ℤ → Flow device A
  api_for profile_id = do
    profile ← set_up (device.require_profile profile_id)
    conn ← set_up (device.connection_for profile)
    set_up (device.factory conn)

  abbrev pub backup_revisions : A → Flow device (List OpnsenseRevisionDto)
  backup_revisions api =
      call listed
        (λ w. let (r, after) = device.backup_revisions api w in (map_err api_error r, after))

  abbrev pub download_revision : A → Text → Flow device (List ℕ)
  download_revision api id =
      call (downloaded id)
        (λ w. let (r, after) = device.download_revision api id w in (map_err api_error r, after))

  abbrev pub find_revision :
      Text → List OpnsenseRevisionDto → Result (OpnsenseBackupError D) OpnsenseRevisionDto
  find_revision id [] = err (invalid_revision_id id)
  find_revision id (r ∷ rs) = if text_eq r.id id then ok r else find_revision id rs

  abbrev pub check_any : List OpnsenseRevisionDto → Result (OpnsenseBackupError D) (Unit {0})
  check_any [] = err no_revisions
  check_any (r ∷ rs) = ok tt

  -- The revision that was asked for, or the first one. The list is not empty when this is called.
  abbrev pub select :
      Option Text → List OpnsenseRevisionDto → Result (OpnsenseBackupError D) OpnsenseRevisionDto
  select wanted [] = err no_revisions
  select (some id) (r ∷ rs) = find_revision id (r ∷ rs)
  select none (r ∷ rs) = ok r

  abbrev pub check_id : Text → Result (OpnsenseBackupError D) (Unit {0})
  check_id id = if valid_revision_id id then ok tt else err (invalid_revision_id id)

  abbrev pub check_wanted : Option Text → Result (OpnsenseBackupError D) (Unit {0})
  check_wanted none = ok tt
  check_wanted (some id) = check_id id

  abbrev pub check_destination : Text → W → Result (OpnsenseBackupError D) (Unit {0})
  check_destination dir w =
      if device.is_dir dir w
      then ok tt
      else err
          (destination_invalid (device.debug dir ++ codes " does not exist or is not a directory"))

  abbrev pub output_path : Text → Text → Text
  output_path dir name = device.join dir (name ++ codes ".xml.age")

  abbrev pub result_of : Text → OpnsenseRevisionDto → OpnsenseBackupResultDto
  result_of path source = record {
    path = path;
    source_revision_id = source.id;
    source_time_iso = source.time_iso;
  }

  -- What is done once the list of revisions is there.
  abbrev pub store_revision :
      A → Text → Text → Option Text → List OpnsenseRevisionDto → Flow device OpnsenseBackupResultDto
  store_revision api path passphrase wanted revisions = do
    inspect (λ w. check_any revisions)
    source ← inspect (λ w. select wanted (sort_newest_first revisions))
    inspect (λ w. check_id source.id)
    bytes ← download_revision api source.id
    inspect (λ w. validate_config_xml device bytes)
    encrypt_to_file device path bytes passphrase
    ret (result_of path source)

  unfoldable pub backup : ℤ → Text → Text → Text → Option Text → Flow device OpnsenseBackupResultDto
  backup profile_id destination_dir backup_name passphrase revision_id = do
    inspect (λ w. validate_passphrase device passphrase)
    inspect (λ w. validate_backup_name backup_name)
    inspect (λ w. check_wanted revision_id)
    inspect (check_destination destination_dir)
    api ← api_for profile_id
    revisions ← backup_revisions api
    store_revision api (output_path destination_dir backup_name) passphrase revision_id revisions
