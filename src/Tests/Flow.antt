-- ===== src/Tests/Flow.antt =====
-- Tests of the backup flow and of the library of backups.
use verkkokyyla.Backup.Filename as Filename
use verkkokyyla.Mikrotik.Backup.Diff.{
  add, remove, line_of, row_of, trim_start, trim_end, table_of, walk, diff_middle, diff_of,
  lines_from, lines_of, diff_lines,
}
use verkkokyyla.Mikrotik.Backup.Flow.Calls.{IsAllowed, run_backup-IsAllowed}
use verkkokyyla.Mikrotik.Backup.Flow.Course.{Course}
use verkkokyyla.Mikrotik.Backup.Flow.Stored.{IsComplete, run_backup-IsComplete}
use verkkokyyla.Mikrotik.Backup.Flow.{
  validate_backup_name, check_output, wait_until, wait_for_file, download_and_write, delete_all,
  run_backup,
}
use verkkokyyla.Mikrotik.Backup.Library.Counts.{IsDiff, diff_backup_records-IsDiff}
use verkkokyyla.Mikrotik.Backup.Library.Deletion.{
  DeletionCourse, delete_backup_record-DeletionCourse,
}
use verkkokyyla.Mikrotik.Backup.Library.{
  MikrotikBackupRecord, not_found, Store, BackupDiffDto, find, remove_backup_file,
  delete_backup_record, diff_texts, diff_backup_records,
}
use verkkokyyla.Mikrotik.Backup.World.{BackupParams, BackupResultDto, World, default_poll}
use verkkokyyla.Mikrotik.Error.{timeout}
use verkkokyyla.Prelude.Effects.{All, ◌>>=◌}
use verkkokyyla.Prelude.Int.{pos}
use verkkokyyla.Prelude.Results.{ok, err}
use verkkokyyla.Prelude.Text.{Text, codes, text_eq, is_digit}
use verkkokyyla.Prelude.{
  ℕ, ◌+◌, ◌≡◌, refl, true, false, [], ◌∷◌, ◌++◌, none, some, ltb, if◌then◌else◌,
}

-- A router that lists its files only after a while; the world is the clock.
abbrev router : World ℕ
router = record {
  backup_save = λ name password w. (ok tt, w);
  list_files = λ w. (
    ok (
        if ltb w 2_000
        then none ∷ []
        else none ∷ some (codes "r.backup") ∷ some (codes "r.rsc") ∷ []),
    w,
  );
  export_rsc = λ name w. (ok tt, w);
  delete_file =
      λ name w. (if text_eq name (codes "r.rsc") then err (timeout (codes "60s")) else ok tt, w);
  fetch_file = λ host port username password remote w. (ok (7 ∷ 8 ∷ []), w);
  write = λ path bytes w. (ok tt, w);
  sleep = λ d w. w + d;
  now = λ w. w;
  path_exists = λ path w. false;
  is_dir = λ path w. true;
  canonicalize = λ path w. ok path;
  join = λ dir name. dir ++ codes "/" ++ name;
  parent = λ path. none;
  file_name = λ path. none;
  to_string = λ e. codes "error";
  show_error = λ e. codes "timeout: 60s";
}

abbrev both_files : BackupParams
both_files = record {
  sftp_host = codes "10.0.0.1";
  sftp_username = codes "admin";
  sftp_password = codes "secret";
  destination_dir = codes "/b";
  backup_name = codes "r";
  password = none;
  include_rsc = true;
  overwrite = false;
  file_poll = default_poll;
}

abbrev router_result : BackupResultDto
router_result = record {
  backup_path = codes "/b/r.backup";
  export_path = some (codes "/b/r.rsc");
  cleanup_warnings = codes "saved locally; router temp file r.rsc may remain: timeout: 60s" ∷ [];
}

run_example : (run_backup router 31 both_files 0).result ≡ some (ok router_result)
unfolding run_backup validate_backup_name check_output wait_until wait_for_file download_and_write
    delete_all ◌>>=◌ Filename.validate_backup_name Filename.is_alphanumeric Filename.is_allowed
    Filename.is_windows_device_name is_digit
run_example = refl

run_backup-IsAllowed_example :
    All (IsAllowed router both_files 0) (run_backup router 31 both_files 0).calls
run_backup-IsAllowed_example = run_backup-IsAllowed router 31 both_files 0

run_backup-IsComplete_example :
    IsComplete router both_files 0 router_result (run_backup router 31 both_files 0).calls
run_backup-IsComplete_example =
    run_backup-IsComplete router 31 both_files 0 router_result run_example

abbrev entry : MikrotikBackupRecord
entry = record {
  id = pos 4;
  profile_id = none;
  profile_name = codes "p";
  name = codes "r";
  backup_path = codes "/b/r.backup";
  export_path = some (codes "/b/r.rsc");
  created_at = codes "2026";
  size_bytes = pos 9;
  has_rsc_export = true;
}

-- A library with one record, the binary file of which is missing.
abbrev shelf : Store Text ℕ
shelf = record {
  load_mikrotik_backup = λ id w. (ok (some entry), w);
  delete_mikrotik_backup_record = λ id w. (ok tt, w + 1);
  remove_file =
      λ path w. (if text_eq path (codes "/b/r.backup") then err not_found else ok tt, w + 1);
  read_to_string = λ path w. (ok (if ltb w 1 then codes "a" else codes "b"), w + 1);
}

deletion_example :
    (delete_backup_record shelf (pos 4) 0).result
    ≡ some
        (ok (record { deleted = true; warnings = codes "file already missing: /b/r.backup" ∷ [] }))
unfolding delete_backup_record find remove_backup_file ◌>>=◌
deletion_example = refl

delete_backup_record-DeletionCourse_example :
    DeletionCourse
      (pos 4)
      (delete_backup_record shelf (pos 4) 0).result
      (delete_backup_record shelf (pos 4) 0).calls
delete_backup_record-DeletionCourse_example = delete_backup_record-DeletionCourse shelf (pos 4) 0

abbrev difference : BackupDiffDto
difference = record {
  older_id = pos 4;
  older_name = codes "r";
  older_created_at = codes "2026";
  newer_id = pos 5;
  newer_name = codes "r";
  newer_created_at = codes "2026";
  lines = line_of remove (codes "a") ∷ line_of add (codes "b") ∷ [];
  added = 1;
  removed = 1;
}

difference_example : (diff_backup_records shelf (pos 4) (pos 5) 0).result ≡ some (ok difference)
unfolding diff_backup_records find diff_texts ◌>>=◌ diff_lines diff_of diff_middle walk trim_start
    trim_end table_of row_of lines_of lines_from
difference_example = refl

diff_backup_records-IsDiff_example :
    IsDiff (pos 4) (pos 5) difference (diff_backup_records shelf (pos 4) (pos 5) 0).calls
diff_backup_records-IsDiff_example =
    diff_backup_records-IsDiff shelf (pos 4) (pos 5) 0 difference difference_example
