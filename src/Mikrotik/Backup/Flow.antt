-- ===== src/Mikrotik/Backup/Flow.antt =====
-- mikrotik/backup.rs, `run_backup` and the functions under it.
pub mod Steps
pub mod Follows
pub mod Download
pub mod Calls
pub mod Ends
pub mod Refusals
pub mod Course
pub mod Stored
use verkkokyyla.Backup.Filename.{InvalidBackupName, invalid_backup_name}
use verkkokyyla.Backup.Filename as Filename
use verkkokyyla.Mikrotik.Backup.World.{
  BackupError, invalid_name, destination_invalid, output_exists, local_write, ssh_unreachable,
  ssh_auth, sftp, backup_timeout, partial_download, rest, sftp_port, FilePoll, default_poll,
  BackupResultDto, BackupParams, World, Call, saved, listed, exported, deleted, fetched, wrote,
  slept,
}
use verkkokyyla.Mikrotik.Error.{MikrotikError, file_not_found}
use verkkokyyla.Prelude.Effects.{
  Outcome, Effect, ret, raise, inspect, call, attempt, ◌>>=◌, ◌>>◌, proceed,
}
use verkkokyyla.Prelude.Results.{Result, ok, err, map_err}
use verkkokyyla.Prelude.Text.{Text, codes, text_eq, decimal}
use verkkokyyla.Prelude.{
  ℕ, zero, suc, ◌+◌, ◌/◌, Bool, true, false, not, ◌||◌, List, [], ◌∷◌, ◌++◌, Option, none, some,
  leb, if◌then◌else◌,
}

abbrev pub offending : InvalidBackupName → BackupError
offending (invalid_backup_name name) = invalid_name name

unfoldable pub validate_backup_name : Text → Result BackupError (Unit {0})
validate_backup_name name = map_err offending (Filename.validate_backup_name name)

abbrev pub backup_file : Text → Text
backup_file name = name ++ codes ".backup"

abbrev pub export_file : Text → Text
export_file name = name ++ codes ".rsc"

abbrev pub created_files : BackupParams → List Text
created_files p =
    if p.include_rsc
    then backup_file p.backup_name ∷ export_file p.backup_name ∷ []
    else backup_file p.backup_name ∷ []

module _ {W : Type 0} (world : World W) where
  unfoldable pub classify_download_error : BackupError → BackupError
  classify_download_error (ssh_unreachable host message) = ssh_unreachable host message
  classify_download_error (ssh_auth message) = ssh_auth message
  classify_download_error other = partial_download (world.to_string other)

  -- Where the entry would be, were it no link.
  abbrev pub expected_path : Text → W → Option Text
  expected_path path w = in_parent (world.parent path) (world.file_name path)
    where
      join_to : Result Text Text → Option Text → Option Text
      join_to (ok dir) (some name) = some (world.join dir name)
      join_to (ok dir) none = none
      join_to (err e) name = none

      in_parent : Option Text → Option Text → Option Text
      in_parent none name = none
      in_parent (some dir) name = join_to (world.canonicalize dir w) name

  abbrev pub is_path : Text → Option Text → Bool
  is_path path none = false
  is_path path (some expected) = text_eq expected path

  abbrev pub refuse_output : Text → Result Text Text → Option Text → Result BackupError (Unit {0})
  refuse_output path (err e) expected = err (output_exists path)
  refuse_output path (ok canonical) expected =
      if is_path canonical expected
      then err (output_exists path)
      else err (
          destination_invalid (
            codes "output path "
            ++ path
            ++ codes " resolves to "
            ++ canonical
            ++ codes " outside the destination directory"))

  unfoldable pub check_output : Text → Bool → W → Result BackupError (Unit {0})
  check_output path overwrite w =
      if not (world.path_exists path w) || overwrite
      then ok tt
      else refuse_output path (world.canonicalize path w) (expected_path path w)

  -- A call of the client, whose errors the flow carries on.
  abbrev pub ask :
      {A : Type 0}
      → (Result BackupError A → Call)
      → (W → Result MikrotikError A × W)
      → Effect BackupError Call W A
  ask c f = call c (λ w. let (r, after) = f w in (map_err rest r, after))

  abbrev pub is_listed : Text → List (Option Text) → Bool
  is_listed name [] = false
  is_listed name (none ∷ files) = is_listed name files
  is_listed name (some f ∷ files) = text_eq f name || is_listed name files

  abbrev pub pause : ℕ → Effect BackupError Call W (Unit {0})
  pause d w = record { result = some (ok tt); calls = slept d ∷ []; world = world.sleep d w }

  abbrev pub late : FilePoll → Text → BackupError
  late poll name = backup_timeout (
      codes "/rest/file never listed "
      ++ name
      ++ codes " within "
      ++ decimal (poll.timeout / 1_000)
      ++ codes "s")

  abbrev pub if_late :
      {A : Type 0} → ℕ → BackupError → Effect BackupError Call W A → Effect BackupError Call W A
  if_late deadline e more w = if leb deadline (world.now w) then raise e w else more w

  -- The loop of `wait_for_file`. Each turn takes one unit of fuel.
  unfoldable pub wait_until : ℕ → Text → FilePoll → ℕ → Effect BackupError Call W (Unit {0})
  wait_until zero name poll deadline w = record { result = none; calls = []; world = w }
  wait_until (suc fuel) name poll deadline w =
      let rest_of_loop = wait_until fuel name poll deadline in
      (do
        files ← ask listed world.list_files
        if is_listed name files
            then ret tt
            else if_late deadline (late poll name) (do pause poll.interval; rest_of_loop))
        w

  unfoldable pub wait_for_file : ℕ → Text → FilePoll → Effect BackupError Call W (Unit {0})
  wait_for_file fuel name poll w = wait_until fuel name poll (world.now w + poll.timeout) w

  abbrev pub write_output : Text → List ℕ → Effect BackupError Call W (Unit {0})
  write_output path bytes =
      call (wrote path bytes)
        (λ w. let (r, after) = world.write path bytes w in (map_err (local_write path) r, after))

  -- The SFTP download, always on one port, with its errors classified.
  abbrev pub fetch : BackupParams → Text → Effect BackupError Call W (List ℕ)
  fetch p remote = call (fetched p.sftp_host sftp_port p.sftp_username p.sftp_password remote) (λ w.
      let (r, after) =
        world.fetch_file p.sftp_host sftp_port p.sftp_username p.sftp_password remote w in
      (map_err classify_download_error r, after))

  -- The name of the export on the router, once it is there.
  abbrev pub export_step : Bool → ℕ → BackupParams → Effect BackupError Call W (Option Text)
  export_step false fuel p = ret none
  export_step true fuel p = do
    ask (exported p.backup_name) (world.export_rsc p.backup_name)
    wait_for_file fuel (export_file p.backup_name) p.file_poll
    ret (some (export_file p.backup_name))

  abbrev pub export_output :
      BackupParams → Text → Option Text → Effect BackupError Call W (Option Text)
  export_output p path none = ret none
  export_output p path (some remote) = do
    bytes ← fetch p remote
    write_output path bytes
    ret (some path)

  unfoldable pub download_and_write :
      ℕ → BackupParams → Text → Text → Effect BackupError Call W BackupResultDto
  download_and_write fuel p backup_path export_path = do
    wait_for_file fuel (backup_file p.backup_name) p.file_poll
    export_remote ← export_step p.include_rsc fuel p
    bytes ← fetch p (backup_file p.backup_name)
    write_output backup_path bytes
    export_to ← export_output p export_path export_remote
    ret (record { backup_path = backup_path; export_path = export_to; cleanup_warnings = [] })

  -- A file that is not there leaves nothing to clean.
  abbrev pub warnings_for : Text → Result MikrotikError (Unit {0}) → List Text
  warnings_for name (ok u) = []
  warnings_for name (err (file_not_found t)) = []
  warnings_for name (err e) =
      (codes "saved locally; router temp file "
        ++ name
        ++ codes " may remain: "
        ++ world.show_error e)
      ∷ []

  -- The cleanup guard.
  unfoldable pub delete_all : List Text → Effect BackupError Call W (List Text)
  delete_all [] = ret []
  delete_all (name ∷ names) = do
    answer ← attempt (deleted name) (world.delete_file name)
    warnings ← delete_all names
    ret (warnings_for name answer ++ warnings)

  -- `outcome?`, then the warnings.
  abbrev pub with_warnings :
      Result BackupError BackupResultDto → List Text → Effect BackupError Call W BackupResultDto
  with_warnings (err e) warnings = raise e
  with_warnings (ok dto) warnings = ret (record dto { cleanup_warnings = warnings })

  -- What is done after the download, however it ended.
  abbrev pub clean_up :
      List Text
      → Option (Result BackupError BackupResultDto)
      → Effect BackupError Call W BackupResultDto
  clean_up names none w = record { result = none; calls = []; world = w }
  clean_up names (some outcome) w = (delete_all names >>= with_warnings outcome) w

  abbrev pub guarded :
      List Text
      → Effect BackupError Call W BackupResultDto
      → Effect BackupError Call W BackupResultDto
  guarded names body w =
      let o = body w in
      let c = clean_up names o.result o.world in
      record { result = c.result; calls = o.calls ++ c.calls; world = c.world }

  -- The directory, if it is there and is one.
  abbrev pub if_dir : Text → Result Text Text → W → Result BackupError Text
  if_dir dir (err e) w = err (destination_invalid (dir ++ codes ": " ++ e))
  if_dir dir (ok d) w =
      if world.is_dir d w
      then ok d
      else err (destination_invalid (d ++ codes " is not a directory"))

  abbrev pub destination : Text → W → Result BackupError Text
  destination dir w = if_dir dir (world.canonicalize dir w) w

  abbrev pub backup_path_in : BackupParams → Text → Text
  backup_path_in p dir = world.join dir (backup_file p.backup_name)

  abbrev pub export_path_in : BackupParams → Text → Text
  export_path_in p dir = world.join dir (export_file p.backup_name)

  unfoldable pub run_backup : ℕ → BackupParams → Effect BackupError Call W BackupResultDto
  run_backup fuel p = do
    inspect (λ w. validate_backup_name p.backup_name)
    dir ← inspect (destination p.destination_dir)
    inspect (check_output (backup_path_in p dir) p.overwrite)
    inspect
        (λ w. if p.include_rsc then check_output (export_path_in p dir) p.overwrite w else ok tt)
    ask (saved p.backup_name p.password) (world.backup_save p.backup_name p.password)
    guarded (created_files p)
        (download_and_write fuel p (backup_path_in p dir) (export_path_in p dir))
