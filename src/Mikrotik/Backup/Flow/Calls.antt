-- ===== src/Mikrotik/Backup/Flow/Calls.antt =====
-- What the flow may call.
use verkkokyyla.Mikrotik.Backup.Flow.{
  check_output, ask, download_and_write, backup_file, export_file, delete_all, created_files,
  clean_up, guarded, if_dir, refuse_output, is_path, expected_path, destination, backup_path_in,
  export_path_in, run_backup,
}
use verkkokyyla.Mikrotik.Backup.Flow.Download.{IsCreated, Covers, download_and_write-Calls}
use verkkokyyla.Mikrotik.Backup.World.{
  BackupError, BackupResultDto, BackupParams, World, Call, saved, listed, exported, deleted,
  fetched, wrote, slept,
}
use verkkokyyla.Prelude.Effects.{
  Effect, inspect, attempt, All, All-append, Calls, >>=-All, >>=-Calls,
}
use verkkokyyla.Prelude.Results.{Result, ok, err}
use verkkokyyla.Prelude.Text.{Text}
use verkkokyyla.Prelude.{
  ℕ, ◌≡◌, ◌⊎◌, refl, sym, subst, true, false, List, [], ◌∷◌, Option, none, some, if◌then◌else◌,
  Bool-cases, inl, inr,
}

module _ {W : Type 0} (world : World W) (p : BackupParams) (w : W) where
  -- A local path that was free, unless the caller lets it be replaced.
  abbrev IsFree : Text → Type 0
  IsFree path = (p.overwrite ≡ true) ⊎ (world.path_exists path w ≡ false)

  -- A call that a run from `w` may make: the login of the profile on port 22 and no other, the
  -- created files and no others, and local files in the chosen directory that were free.
  abbrev pub IsAllowed : Call → Type 0
  IsAllowed (saved name password r) = (name ≡ p.backup_name) × (password ≡ p.password)
  IsAllowed (listed r) = Unit
  IsAllowed (exported name r) = (name ≡ p.backup_name) × (p.include_rsc ≡ true)
  IsAllowed (deleted name r) = IsCreated p name
  IsAllowed (fetched host port username password remote r) =
      (host ≡ p.sftp_host)
      × (port ≡ 22)
      × (username ≡ p.sftp_username)
      × (password ≡ p.sftp_password)
      × IsCreated p remote
  IsAllowed (wrote path bytes r) =
      (dir remote : Text) × (world.canonicalize p.destination_dir w ≡ ok dir)
      × IsCreated p remote
      × (path ≡ world.join dir remote)
      × IsFree path
  IsAllowed (slept d) = d ≡ p.file_poll.interval

  -- A path of the chosen directory for a download.
  abbrev IsTarget : Text → Text → Type 0
  IsTarget remote path =
      (dir : Text) × (world.canonicalize p.destination_dir w ≡ ok dir)
      × (path ≡ world.join dir remote)
      × IsFree path

  IsAllowed-Covers :
      (backup_path export_path : Text)
      → IsTarget (backup_file p.backup_name) backup_path
      → (p.include_rsc ≡ true → IsTarget (export_file p.backup_name) export_path)
      → Covers IsAllowed p backup_path export_path
  IsAllowed-Covers backup_path export_path (dir, chosen, joined, free) target = record {
    lists = λ r. tt;
    sleeps = refl;
    exports = λ y r. (refl, y);
    fetches = λ remote created r. (refl, refl, refl, refl, created);
    writes_backup = λ bytes r. (dir, backup_file p.backup_name, chosen, inl refl, joined, free);
    writes_export = λ y bytes r.
        let (d, c, j, f) = target y in (d, export_file p.backup_name, c, inr (y, refl), j, f);
  }

  delete_all-IsAllowed :
      (names : List Text) → All (IsCreated p) names → Calls IsAllowed (delete_all world names)
  unfolding delete_all
  delete_all-IsAllowed [] created w1 = tt
  delete_all-IsAllowed (name ∷ names) (c, created) w1 =
      >>=-Calls IsAllowed (attempt (deleted name) (world.delete_file name)) _ (λ w2. (c, tt))
        (λ answer. >>=-Calls IsAllowed _ _ (delete_all-IsAllowed names created) (λ warnings w3. tt))
        w1

  created_files-IsCreated : All (IsCreated p) (created_files p)
  created_files-IsCreated =
      let one = backup_file p.backup_name ∷ [] in
      let both = backup_file p.backup_name ∷ export_file p.backup_name ∷ [] in
      elim (Bool-cases p.include_rsc) [
        | inl y ↦
            subst (λ b. All (IsCreated p) (if b then both else one)) (sym y)
              (inl refl, (inr (y, refl), tt))
        | inr n ↦ subst (λ b. All (IsCreated p) (if b then both else one)) (sym n) (inl refl, tt)
      ]

  clean_up-IsAllowed :
      (o : Option (Result BackupError BackupResultDto))
      → Calls IsAllowed (clean_up world (created_files p) o)
  clean_up-IsAllowed none w1 = tt
  clean_up-IsAllowed (some (err e)) w1 =
      >>=-Calls IsAllowed _ _ (delete_all-IsAllowed (created_files p) created_files-IsCreated)
        (λ warnings w3. tt) w1
  clean_up-IsAllowed (some (ok dto)) w1 =
      >>=-Calls IsAllowed _ _ (delete_all-IsAllowed (created_files p) created_files-IsCreated)
        (λ warnings w3. tt) w1

  refuse_output_fails :
      (path : Text) (r : Result Text Text) (expected : Option Text) (u : Unit {0})
      → ¬ (refuse_output world path r expected ≡ ok u)
  refuse_output_fails path (err x) expected u e = absurd cc
  refuse_output_fails path (ok canonical) expected u e =
      elim (Bool-cases (is_path world canonical expected)) [
        | inl y ↦ absurd (cc (e, y))
        | inr n ↦ absurd (cc (e, n))
      ]

  check_output-IsFree :
      (path : Text) (u : Unit {0}) → check_output world path p.overwrite w ≡ ok u → IsFree path
  unfolding check_output
  check_output-IsFree path u e = elim (Bool-cases p.overwrite) [
    | inl y ↦ inl y
    | inr n ↦ elim (Bool-cases (world.path_exists path w)) [
      | inl there ↦ absurd (
          refuse_output_fails path (world.canonicalize path w) (expected_path world path w) u
            (cc (e, n, there)))
      | inr free ↦ inr free
    ]
  ]

  pub destination-dir :
      (dir : Text)
      → destination world p.destination_dir w ≡ ok dir
      → world.canonicalize p.destination_dir w ≡ ok dir
  destination-dir dir e = at (world.canonicalize p.destination_dir w) refl e
    where
      at :
          (r : Result Text Text)
          → world.canonicalize p.destination_dir w ≡ r
          → if_dir world p.destination_dir r w ≡ ok dir
          → world.canonicalize p.destination_dir w ≡ ok dir
      at (err x) f e = absurd cc
      at (ok d) f e = elim (Bool-cases (world.is_dir d w)) [
        | inl y ↦ cc (e, f, y)
        | inr n ↦ absurd (cc (e, n))
      ]

  guarded-IsAllowed :
      (body : Effect BackupError Call W BackupResultDto)
      → Calls IsAllowed body
      → Calls IsAllowed (guarded world (created_files p) body)
  guarded-IsAllowed body h w1 =
      All-append IsAllowed (body w1).calls
        (clean_up world (created_files p) (body w1).result (body w1).world).calls (h w1)
        (clean_up-IsAllowed (body w1).result (body w1).world)

-- Whatever the router, the disk and the clock answer, a run makes only calls that its parameters allow:
-- it saves under the given name, exports only if the export is to be included, deletes and downloads
-- only the files that it has the router create, logs in at the profile's host on port 22 with the
-- profile's credentials, and writes only local files of the chosen directory that are named like a
-- downloaded one and were not there when the run began, unless the caller lets them be replaced.
pub run_backup-IsAllowed :
    {W : Type 0} (world : World W) (fuel : ℕ) (p : BackupParams) (w : W)
    → All (IsAllowed world p w) (run_backup world fuel p w).calls
unfolding run_backup
run_backup-IsAllowed world fuel p w =
    let P = IsAllowed world p w in
    >>=-All P (inspect _) _ w tt (λ u e.
      >>=-All P (inspect (destination world p.destination_dir)) _ w tt (λ dir d.
        >>=-All P (inspect _) _ w tt (λ u c. >>=-All P (inspect _) _ w tt (λ u x.
          >>=-All P
            (ask world (saved p.backup_name p.password)
              (world.backup_save p.backup_name p.password))
            _ w ((refl, refl), tt)
            (λ u s.
              guarded-IsAllowed world p w
                (download_and_write world fuel p (backup_path_in world p dir)
                  (export_path_in world p dir))
                (download_and_write-Calls world P p (backup_path_in world p dir)
                  (export_path_in world p dir)
                  (IsAllowed-Covers world p w (backup_path_in world p dir)
                    (export_path_in world p dir)
                    (
                      dir,
                      destination-dir world p w dir (cc d),
                      refl,
                      check_output-IsFree world p w (backup_path_in world p dir) tt (cc c),
                    )
                    (λ y. (
                      dir,
                      destination-dir world p w dir (cc d),
                      refl,
                      check_output-IsFree world p w (export_path_in world p dir) tt (cc (x, y)),
                    )))
                  fuel)
                _)))))
