-- ===== src/Mikrotik/Backup/Library/Deletion.antt =====
-- Deleting a backup drops its record last, and only once none of its files is left.
use mathlib.Core.List.{append-nil}
use verkkokyyla.Mikrotik.Backup.Library.{
  MikrotikBackupRecord, LibraryError, db, backup_record_not_found, delete_failed, IoError,
  not_found, other, Store, LibraryCall, loaded, removed, dropped, DeleteBackupResultDto,
  or_not_found, find, after_removal, remove_backup_file, remove_export, remove_files, drop_record,
  delete_entry, delete_backup_record,
}
use verkkokyyla.Prelude.Effects.{ret, proceed, ◌>>=◌, ◌>>◌}
use verkkokyyla.Prelude.Int.{ℤ}
use verkkokyyla.Prelude.Results.{Result, ok, err, map_err}
use verkkokyyla.Prelude.Text.{Text, codes}
use verkkokyyla.Prelude.{sym, subst, true, List, [], ◌∷◌, ◌++◌, Option, none, some}

abbrev export_of : Option Text → List Text
export_of none = []
export_of (some path) = path ∷ []

abbrev files_of : MikrotikBackupRecord → List Text
files_of entry = entry.backup_path ∷ export_of entry.export_path

module _ {D : Type 0} where
  -- All of the files were removed or were not there, with a warning for each of the latter.
  pub data AreGone : List Text → List (LibraryCall D) → List Text → Type 0 where
    none_left : AreGone [] [] []
    was_removed :
        {paths warnings : List Text} {calls : List (LibraryCall D)}
        → (path : Text) → AreGone paths calls warnings
        → AreGone (path ∷ paths) (removed path (ok tt) ∷ calls) warnings
    was_missing :
        {paths warnings : List Text} {calls : List (LibraryCall D)}
        → (path : Text) → AreGone paths calls warnings
        → AreGone
            (path ∷ paths)
            (removed path (err not_found) ∷ calls)
            ((codes "file already missing: " ++ path) ∷ warnings)

  -- One of the files could not be removed, which was the last attempt.
  pub data IsStuck : List Text → List (LibraryCall D) → Text → Text → Type 0 where
    fails :
        (path message : Text) (paths : List Text)
        → IsStuck (path ∷ paths) (removed path (err (other message)) ∷ []) path message
    fails_after :
        {paths : List Text} {calls gone : List (LibraryCall D)} {first path message : Text}
        {warnings : List Text}
        → AreGone (first ∷ []) gone warnings
        → IsStuck paths calls path message
        → IsStuck (first ∷ paths) (gone ++ calls) path message

  data Removed (paths before : List Text)
      : Option (Result (LibraryError D) (List Text)) → List (LibraryCall D) → Type 0 where
    all_gone :
        {calls : List (LibraryCall D)} (warnings : List Text)
        → AreGone paths calls warnings
        → Removed paths before (some (ok (before ++ warnings))) calls
    stuck :
        {calls : List (LibraryCall D)} (path message : Text)
        → IsStuck paths calls path message
        → Removed paths before (some (err (delete_failed path message))) calls

  -- What a deletion may come to: the record is not there, or is kept, or is dropped.
  pub data DeletionCourse (id : ℤ)
      : Option (Result (LibraryError D) DeleteBackupResultDto) → List (LibraryCall D) → Type 0 where
    not_loaded : (e : D) → DeletionCourse id (some (err (db e))) (loaded id (err (db e)) ∷ [])
    not_there :
        DeletionCourse id (some (err (backup_record_not_found id))) (loaded id (ok none) ∷ [])
    kept :
        {calls : List (LibraryCall D)} (entry : MikrotikBackupRecord) (path message : Text)
        → IsStuck (files_of entry) calls path message
        → DeletionCourse id
            (some (err (delete_failed path message)))
            (loaded id (ok (some entry)) ∷ calls)
    not_dropped :
        {calls : List (LibraryCall D)} (entry : MikrotikBackupRecord) (warnings : List Text) (e : D)
        → AreGone (files_of entry) calls warnings
        → DeletionCourse id
            (some (err (db e)))
            (loaded id (ok (some entry)) ∷ calls ++ dropped id (err (db e)) ∷ [])
    gone :
        {calls : List (LibraryCall D)} (entry : MikrotikBackupRecord) (warnings : List Text)
        → AreGone (files_of entry) calls warnings
        → DeletionCourse id
            (some (ok (record { deleted = true; warnings = warnings })))
            (loaded id (ok (some entry)) ∷ calls ++ dropped id (ok tt) ∷ [])

  AreGone-append :
      {xs ys v w : List Text} {c d : List (LibraryCall D)}
      → AreGone xs c v
      → AreGone ys d w
      → AreGone (xs ++ ys) (c ++ d) (v ++ w)
  AreGone-append none_left h = h
  AreGone-append (was_removed path g) h = was_removed path (AreGone-append g h)
  AreGone-append (was_missing path g) h = was_missing path (AreGone-append g h)

  IsStuck-more :
      {first path message : Text} (rest : List Text) {calls : List (LibraryCall D)}
      → IsStuck (first ∷ []) calls path message
      → IsStuck (first ∷ rest) calls path message
  IsStuck-more rest (fails path message _) = fails path message rest
  IsStuck-more rest (fails_after g s) = elim s [ ]

  Removed-after :
      {first : Text} {rest warnings : List Text} {c d : List (LibraryCall D)}
      {o : Option (Result (LibraryError D) (List Text))}
      → AreGone (first ∷ []) c warnings
      → Removed rest warnings o d
      → Removed (first ∷ rest) [] o (c ++ d)
  Removed-after {warnings = warnings} g (all_gone more h) =
      all_gone (warnings ++ more) (AreGone-append g h)
  Removed-after g (stuck path message s) = stuck path message (fails_after g s)

  module _ {W : Type 0} (store : Store D W) where
    remove_backup_file-Removed :
        (path : Text) (before : List Text) (w : W)
        → Removed
            (path ∷ [])
            before
            (remove_backup_file store path before w).result
            (remove_backup_file store path before w).calls
    unfolding remove_backup_file ◌>>=◌
    remove_backup_file-Removed path before w = at (store.remove_file path w).0
      where
        at :
            (r : Result IoError (Unit {0}))
            → let o = after_removal store path before r (store.remove_file path w).1 in
              Removed (path ∷ []) before o.result (removed path r ∷ o.calls)
        at (ok u) =
            subst (λ ws. Removed (path ∷ []) before (some (ok ws)) (removed path (ok tt) ∷ []))
              (append-nil before) (all_gone [] (was_removed path none_left))
        at (err not_found) =
            all_gone ((codes "file already missing: " ++ path) ∷ []) (was_missing path none_left)
        at (err (other message)) = stuck path message (fails path message [])

    remove_export-Removed :
        (export : Option Text) (before : List Text) (w : W)
        → Removed
            (export_of export)
            before
            (remove_export store export before w).result
            (remove_export store export before w).calls
    remove_export-Removed none before w =
        subst (λ ws. Removed [] before (some (ok ws)) []) (append-nil before)
          (all_gone [] none_left)
    remove_export-Removed (some path) before w = remove_backup_file-Removed path before w

    remove_files-Removed :
        (entry : MikrotikBackupRecord) (w : W)
        → Removed
            (files_of entry)
            []
            (remove_files store entry w).result
            (remove_files store entry w).calls
    unfolding ◌>>=◌
    remove_files-Removed entry w =
        at (remove_backup_file store entry.backup_path [] w).world
          (remove_backup_file-Removed entry.backup_path [] w)
      where
        at :
            {o : Option (Result (LibraryError D) (List Text))} {c : List (LibraryCall D)}
            (after : W)
            → Removed (entry.backup_path ∷ []) [] o c
            → let rest = proceed o (remove_export store entry.export_path) after in
              Removed (files_of entry) [] rest.result (c ++ rest.calls)
        at after (all_gone warnings g) =
            Removed-after g (remove_export-Removed entry.export_path warnings after)
        at {c = c} after (stuck path message s) =
            subst (λ cs. Removed (files_of entry) [] (some (err (delete_failed path message))) cs)
              (sym (append-nil c)) (stuck path message (IsStuck-more _ s))

    delete_entry-DeletionCourse :
        (id : ℤ) (entry : MikrotikBackupRecord) (w : W)
        → DeletionCourse id
            (delete_entry store id entry w).result
            (loaded id (ok (some entry)) ∷ (delete_entry store id entry w).calls)
    unfolding ◌>>=◌
    delete_entry-DeletionCourse id entry w =
        at (remove_files store entry w).world (remove_files-Removed entry w)
      where
        answered :
            {c : List (LibraryCall D)} (warnings : List Text) (after : W) (r : Result D (Unit {0}))
            → AreGone (files_of entry) c warnings
            → let o =
                proceed {B = DeleteBackupResultDto}
                  (some (map_err db r))
                  (λ u. ret {C = LibraryCall D} (record { deleted = true; warnings = warnings }))
                  after in
              DeletionCourse id o.result
                (loaded id (ok (some entry)) ∷ c ++ dropped id (map_err db r) ∷ o.calls)
        answered warnings after (ok u) g = gone entry warnings g
        answered warnings after (err e) g = not_dropped entry warnings e g

        at :
            {o : Option (Result (LibraryError D) (List Text))} {c : List (LibraryCall D)}
            (after : W)
            → Removed (files_of entry) [] o c
            → let rest =
                proceed {B = DeleteBackupResultDto} o
                  (λ warnings.
                    drop_record store id >> ret (record { deleted = true; warnings = warnings }))
                  after in
              DeletionCourse id rest.result (loaded id (ok (some entry)) ∷ c ++ rest.calls)
        at after (all_gone warnings g) =
            answered warnings (store.delete_mikrotik_backup_record id after).1
              (store.delete_mikrotik_backup_record id after).0 g
        at {c = c} after (stuck path message s) =
            subst
              (λ cs.
                DeletionCourse id (some (err (delete_failed path message)))
                  (loaded id (ok (some entry)) ∷ cs))
              (sym (append-nil c)) (kept entry path message s)

-- Deleting a backup takes one of five courses. The record cannot be loaded, or is not there: nothing
-- is touched. A file cannot be removed, which ends the deletion with the record kept. Or each file of
-- the record was removed or was not there, with a warning for each of the latter, and only then, last,
-- is the record dropped: the database's error is passed on, and otherwise the deletion succeeds with these warnings.
pub delete_backup_record-DeletionCourse :
    {D W : Type 0} (store : Store D W) (id : ℤ) (w : W)
    → DeletionCourse id
        (delete_backup_record store id w).result
        (delete_backup_record store id w).calls
unfolding delete_backup_record find ◌>>=◌
delete_backup_record-DeletionCourse {D} {W} store id w =
    at (store.load_mikrotik_backup id w).0 (store.load_mikrotik_backup id w).1
  where
    at :
        (r : Result D (Option MikrotikBackupRecord)) (after : W)
        → let o = proceed (some (map_err db r)) (or_not_found store id) after in
          let q = proceed o.result (delete_entry store id) o.world in
          DeletionCourse id q.result ((loaded id (map_err db r) ∷ o.calls) ++ q.calls)
    at (err e) after = not_loaded e
    at (ok none) after = not_there
    at (ok (some entry)) after = delete_entry-DeletionCourse store id entry after
