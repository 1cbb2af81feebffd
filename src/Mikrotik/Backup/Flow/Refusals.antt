-- ===== src/Mikrotik/Backup/Flow/Refusals.antt =====
-- The runs that are refused before any call.
use verkkokyyla.Backup.Filename.Allowed.{IsBackupName, validate_backup_name-IsBackupName}
use verkkokyyla.Mikrotik.Backup.Flow.{
  validate_backup_name, check_output, refuse_output, is_path, if_dir, expected_path, destination,
}
use verkkokyyla.Mikrotik.Backup.World.{
  BackupError, invalid_name, destination_invalid, output_exists, BackupParams, World,
}
use verkkokyyla.Prelude.Results.{Result, ok, err}
use verkkokyyla.Prelude.Text.{Text, codes}
use verkkokyyla.Prelude.{
  ◌≡◌, Bool, true, false, ◌++◌, Option, arith, if◌then◌else◌, Bool-cases, inl, inr,
}

-- Why a run is refused: its name, its destination, or a file that it must not replace.
pub data IsRefusal (p : BackupParams) : BackupError → Type 0 where
  bad_name : ¬ IsBackupName p.backup_name → IsRefusal p (invalid_name p.backup_name)
  bad_destination : (what : Text) → IsRefusal p (destination_invalid what)
  would_replace : (path : Text) → p.overwrite ≡ false → IsRefusal p (output_exists path)

module _ {W : Type 0} (world : World W) where
  pub name-IsRefusal :
      (p : BackupParams) (e : BackupError)
      → validate_backup_name p.backup_name ≡ err e
      → IsRefusal p e
  unfolding validate_backup_name
  name-IsRefusal p e h =
      let (rule, either) = validate_backup_name-IsBackupName p.backup_name in
      elim either [
        | inl passes ↦ absurd (cc (passes, h))
        | inr fails ↦
            let same : invalid_name p.backup_name ≡ e = cc (fails, h) in
            rw (← same) (bad_name (λ v. cc (rule.1 v, fails)))
      ]

  pub destination-IsRefusal :
      (p : BackupParams) (w : W) (e : BackupError)
      → destination world p.destination_dir w ≡ err e
      → IsRefusal p e
  destination-IsRefusal p w e = at (world.canonicalize p.destination_dir w)
    where
      at : (r : Result Text Text) → if_dir world p.destination_dir r w ≡ err e → IsRefusal p e
      at (err x) = λ h.
          let same : destination_invalid (p.destination_dir ++ codes ": " ++ x) ≡ e = cc h in
          rw (← same) (bad_destination _)
      at (ok d) = elim (Bool-cases (world.is_dir d w)) [
        | inl y ↦ rw y (λ h. absurd (cc h))
        | inr n ↦ rw n (λ h.
            let same : destination_invalid (d ++ codes " is not a directory") ≡ e = cc h in
            rw (← same) (bad_destination _))
      ]

  refuse_output-IsRefusal :
      (p : BackupParams) (path : Text) (r : Result Text Text) (expected : Option Text)
      (e : BackupError)
      → p.overwrite ≡ false
      → refuse_output world path r expected ≡ err e
      → IsRefusal p e
  refuse_output-IsRefusal p path (err x) expected e o =
      λ h. let same : output_exists path ≡ e = cc h in rw (← same) (would_replace path o)
  refuse_output-IsRefusal p path (ok c) expected e o =
      elim (Bool-cases (is_path world c expected)) [
        | inl y ↦
            rw y
              (λ h. let same : output_exists path ≡ e = cc h in rw (← same) (would_replace path o))
        | inr n ↦ rw n (λ h. refused_elsewhere e _ h)
      ]
    where
      refused_elsewhere :
          (e : BackupError) (t : Text)
          → ◌≡◌ {A = Result BackupError (Unit {0})} (err (destination_invalid t)) (err e)
          → IsRefusal p e
      refused_elsewhere e t h =
          let same : destination_invalid t ≡ e = cc h in rw (← same) (bad_destination t)

  pub output-IsRefusal :
      (p : BackupParams) (path : Text) (w : W) (e : BackupError)
      → check_output world path p.overwrite w ≡ err e
      → IsRefusal p e
  unfolding check_output
  output-IsRefusal p path w e h = elim (Bool-cases p.overwrite) [
    | inl y ↦ absurd (ground (arith, y, h))
    | inr n ↦ elim (Bool-cases (world.path_exists path w)) [
      | inl there ↦
          refuse_output-IsRefusal p path (world.canonicalize path w) (expected_path world path w) e
            n (ground (arith, n, there, h))
      | inr free ↦ absurd (ground (arith, n, free, h))
    ]
  ]

  -- The test of the second path, where there is one.
  pub export-IsRefusal :
      (p : BackupParams) (b : Bool) (path : Text) (w : W) (e : BackupError)
      → (if b then check_output world path p.overwrite w else ok tt) ≡ err e
      → IsRefusal p e
  export-IsRefusal p true path w e h = output-IsRefusal p path w e h
  export-IsRefusal p false path w e h = absurd (cc h)
