-- ===== src/Mikrotik/Backup/Flow/Course.antt =====
-- The course of a run: which calls it makes in which order, and what it ends with.
use verkkokyyla.Mikrotik.Backup.Flow.Follows.{Downloads}
use verkkokyyla.Mikrotik.Backup.Flow.Refusals.{IsRefusal}
use verkkokyyla.Mikrotik.Backup.Flow.{backup_file, export_file, warnings_for, created_files}
use verkkokyyla.Mikrotik.Backup.World.{
  BackupError, BackupResultDto, BackupParams, World, Call, saved, listed, exported, deleted,
  fetched, wrote, slept,
}
use verkkokyyla.Mikrotik.Error.{MikrotikError}
use verkkokyyla.Prelude.Effects.{All, Calls, Ends}
use verkkokyyla.Prelude.Results.{Result, ok, err}
use verkkokyyla.Prelude.Text.{Text}
use verkkokyyla.Prelude.{◌≡◌, List, [], ◌∷◌, ◌++◌, Option, some}

-- Anything but a deletion.
abbrev IsKept : Call → Type 0
IsKept (deleted name r) = ⊥
IsKept (saved name password r) = Unit
IsKept (listed r) = Unit
IsKept (exported name r) = Unit
IsKept (fetched host port username password remote r) = Unit
IsKept (wrote path bytes r) = Unit
IsKept (slept d) = Unit

-- One deletion for each name, in order, whatever the answers.
pub data AreDeletions : List Text → List Call → Type 0 where
  no_more : AreDeletions [] []
  deletes :
      {names : List Text} {calls : List Call}
      → (name : Text) (r : Result MikrotikError (Unit {0})) → AreDeletions names calls
      → AreDeletions (name ∷ names) (deleted name r ∷ calls)

module _ {W : Type 0} (world : World W) where
  -- The warnings of the deletions that failed, a file that was not there aside.
  abbrev pub warnings_of : List Call → List Text
  warnings_of [] = []
  warnings_of (deleted name r ∷ calls) = warnings_for world name r ++ warnings_of calls
  warnings_of (c ∷ calls) = warnings_of calls

  -- What a run returns after a download that ended so.
  abbrev pub answer :
      List Text → Result BackupError BackupResultDto → Result BackupError BackupResultDto
  answer warnings (err e) = err e
  answer warnings (ok dto) = ok (record dto { cleanup_warnings = warnings })

  pub data Course (p : BackupParams) (w : W)
      : Option (Result BackupError BackupResultDto) → List Call → Type 0 where
    refused : (e : BackupError) → IsRefusal p e → Course p w (some (err e)) []
    not_saved :
        (e : BackupError) → Course p w (some (err e)) (saved p.backup_name p.password (err e) ∷ [])
    cleaned :
        (dir : Text) (download : Result BackupError BackupResultDto) (between deletions : List Call)
        → world.canonicalize p.destination_dir w ≡ ok dir
        → Downloads p
            (world.join dir (backup_file p.backup_name))
            (world.join dir (export_file p.backup_name))
            p.include_rsc
            download
            between
        → All IsKept between
        → AreDeletions (created_files p) deletions
        → Course p w
            (some (answer (warnings_of deletions) download))
            (saved p.backup_name p.password (ok tt) ∷ between ++ deletions)
