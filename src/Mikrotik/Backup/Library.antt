-- ===== src/Mikrotik/Backup/Library.antt =====
-- mikrotik/backup.rs: deleting a backup from the library, and the difference of two. The database, the
-- removal and the reading of files are parameters, whose answers depend on the world as it is then.
pub mod Deletion
pub mod Counts
use verkkokyyla.Mikrotik.Backup.Diff.{Kind, same, add, remove, DiffLine, diff_lines}
use verkkokyyla.Prelude.Effects.{Outcome, Effect, ret, raise, call, attempt, proceed, ◌>>=◌, ◌>>◌}
use verkkokyyla.Prelude.Int.{ℤ}
use verkkokyyla.Prelude.Results.{Result, ok, err, map_err}
use verkkokyyla.Prelude.Text.{Text, codes}
use verkkokyyla.Prelude.{ℕ, ◌+◌, Bool, true, List, [], ◌∷◌, ◌++◌, Option, none, some}

pub record MikrotikBackupRecord : Type 0 where
  pub id : ℤ
  pub profile_id : Option ℤ
  pub profile_name : Text
  pub name : Text
  pub backup_path : Text
  pub export_path : Option Text
  pub created_at : Text
  pub size_bytes : ℤ
  pub has_rsc_export : Bool

-- The errors that these functions can end with; `D` is the database's own.
pub data LibraryError (D : Type 0) : Type 0 where
  db : D → LibraryError D
  backup_record_not_found : ℤ → LibraryError D
  missing_export : ℤ → LibraryError D
  diff_read : (path message : Text) → LibraryError D
  delete_failed : (path message : Text) → LibraryError D

-- `std::io::Error`, as far as its kind is looked at.
pub data IoError : Type 0 where
  not_found : IoError
  other : Text → IoError

pub record Store (D W : Type 0) : Type 0 where
  pub load_mikrotik_backup : ℤ → W → Result D (Option MikrotikBackupRecord) × W
  pub delete_mikrotik_backup_record : ℤ → W → Result D (Unit {0}) × W
  pub remove_file : Text → W → Result IoError (Unit {0}) × W
  pub read_to_string : Text → W → Result Text Text × W

pub data LibraryCall (D : Type 0) : Type 0 where
  loaded : ℤ → Result (LibraryError D) (Option MikrotikBackupRecord) → LibraryCall D
  removed : Text → Result IoError (Unit {0}) → LibraryCall D
  dropped : ℤ → Result (LibraryError D) (Unit {0}) → LibraryCall D
  read : Text → Result (LibraryError D) Text → LibraryCall D

pub record DeleteBackupResultDto : Type 0 where
  pub deleted : Bool
  pub warnings : List Text

pub record BackupDiffDto : Type 0 where
  pub older_id : ℤ
  pub older_name : Text
  pub older_created_at : Text
  pub newer_id : ℤ
  pub newer_name : Text
  pub newer_created_at : Text
  pub lines : List DiffLine
  pub added : ℕ
  pub removed : ℕ

-- `lines.iter().filter(…).count()`.
abbrev pub one_if_add : Kind → ℕ
one_if_add same = 0
one_if_add add = 1
one_if_add remove = 0

abbrev pub one_if_remove : Kind → ℕ
one_if_remove same = 0
one_if_remove add = 0
one_if_remove remove = 1

abbrev pub count : (Kind → ℕ) → List DiffLine → ℕ
count f [] = 0
count f (l ∷ ls) = f l.kind + count f ls

module _ {D W : Type 0} (store : Store D W) where
  abbrev pub LibraryTask : Type 0 → Type 0
  LibraryTask A = Effect (LibraryError D) (LibraryCall D) W A

  abbrev pub load : ℤ → LibraryTask (Option MikrotikBackupRecord)
  load id =
      call (loaded id)
        (λ w. let (r, after) = store.load_mikrotik_backup id w in (map_err db r, after))

  -- `ok_or`.
  abbrev pub or_not_found : ℤ → Option MikrotikBackupRecord → LibraryTask MikrotikBackupRecord
  or_not_found id none = raise (backup_record_not_found id)
  or_not_found id (some record_of) = ret record_of

  unfoldable pub find : ℤ → LibraryTask MikrotikBackupRecord
  find id = do found ← load id; or_not_found id found

  -- The warnings that a removal leaves, or its error.
  abbrev pub after_removal : Text → List Text → Result IoError (Unit {0}) → LibraryTask (List Text)
  after_removal path warnings (ok u) = ret warnings
  after_removal path warnings (err not_found) =
      ret (warnings ++ (codes "file already missing: " ++ path) ∷ [])
  after_removal path warnings (err (other message)) = raise (delete_failed path message)

  unfoldable pub remove_backup_file : Text → List Text → LibraryTask (List Text)
  remove_backup_file path warnings =
      attempt (removed path) (store.remove_file path) >>= after_removal path warnings

  abbrev pub remove_export : Option Text → List Text → LibraryTask (List Text)
  remove_export none warnings = ret warnings
  remove_export (some path) warnings = remove_backup_file path warnings

  -- Both files of a record.
  abbrev pub remove_files : MikrotikBackupRecord → LibraryTask (List Text)
  remove_files entry = remove_backup_file entry.backup_path [] >>= remove_export entry.export_path

  abbrev pub drop_record : ℤ → LibraryTask (Unit {0})
  drop_record id =
      call (dropped id)
        (λ w. let (r, after) = store.delete_mikrotik_backup_record id w in (map_err db r, after))

  abbrev pub delete_entry : ℤ → MikrotikBackupRecord → LibraryTask DeleteBackupResultDto
  delete_entry id entry = do
    warnings ← remove_files entry
    drop_record id
    ret (record { deleted = true; warnings = warnings })

  unfoldable pub delete_backup_record : ℤ → LibraryTask DeleteBackupResultDto
  delete_backup_record id = do entry ← find id; delete_entry id entry

  abbrev pub read_export : ℤ → Option Text → LibraryTask Text
  read_export id none = raise (missing_export id)
  read_export id (some path) =
      call (read path)
        (λ w. let (r, after) = store.read_to_string path w in (map_err (diff_read path) r, after))

  -- `none` of `diff_lines`, which never comes, is a loop that ran out of fuel.
  abbrev pub diffed : Option (List DiffLine) → LibraryTask (List DiffLine)
  diffed none w = record { result = none; calls = []; world = w }
  diffed (some lines) w = ret lines w

  -- The difference of the texts of two records.
  unfoldable pub diff_texts :
      ℤ → ℤ → MikrotikBackupRecord → MikrotikBackupRecord → Text → Text → LibraryTask BackupDiffDto
  diff_texts older_id newer_id older newer older_text newer_text = do
    lines ← diffed (diff_lines older_text newer_text)
    ret (record {
      older_id = older_id;
      older_name = older.name;
      older_created_at = older.created_at;
      newer_id = newer_id;
      newer_name = newer.name;
      newer_created_at = newer.created_at;
      lines = lines;
      added = count one_if_add lines;
      removed = count one_if_remove lines;
    })

  unfoldable pub diff_backup_records : ℤ → ℤ → LibraryTask BackupDiffDto
  diff_backup_records older_id newer_id = do
    older ← find older_id
    newer ← find newer_id
    older_text ← read_export older.id older.export_path
    newer_text ← read_export newer.id newer.export_path
    diff_texts older_id newer_id older newer older_text newer_text
