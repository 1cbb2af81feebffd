-- ===== src/Mikrotik/Backup/Flow/Follows.antt =====
-- The download phase, step by step.
use mathlib.Core.Option.{some-injective}
use verkkokyyla.Mikrotik.Backup.Flow.Steps.{
  Step, Then, Done, IsListed, Waits, not_listed, is_there, too_late, not_yet, Exports, exports,
  Fetches, fetches, Writes, writes, Meets, bind-Meets, assoc-Meets, ret-Meets, done-Meets,
}
use verkkokyyla.Mikrotik.Backup.Flow.{
  ask, is_listed, pause, late, if_late, wait_until, wait_for_file, fetch, write_output, export_step,
  export_output, download_and_write, backup_file, export_file,
}
use verkkokyyla.Mikrotik.Backup.World.{
  BackupError, BackupResultDto, BackupParams, World, Call, listed, exported,
}
use verkkokyyla.Prelude.Effects.{Effect, ret, proceed, ◌>>=◌, ◌>>◌}
use verkkokyyla.Prelude.Results.{Result, ok, err, map_err}
use verkkokyyla.Prelude.Text.{Text, text_eq, text_eq-eq, text_eq_refl}
use verkkokyyla.Prelude.{
  ℕ, zero, suc, ◌+◌, ◌≡◌, ◌↔◌, refl, ap, Bool, true, false, List, [], ◌∷◌, Option, none, some, leb,
  if◌then◌else◌, Bool-cases, inl, inr,
}

module _ (p : BackupParams) (backup_path export_path : Text) where
  abbrev backup_only : BackupResultDto
  backup_only = record { backup_path = backup_path; export_path = none; cleanup_warnings = [] }

  abbrev with_export : BackupResultDto
  with_export = record {
    backup_path = backup_path;
    export_path = some export_path;
    cleanup_warnings = [];
  }

  -- A file of the router is downloaded, its bytes are written, and then there is more to do.
  abbrev Stores : {A : Type 0} → Text → Text → Step A → Step A
  Stores remote path more = Then (Fetches p remote) (λ bytes. Then (Writes path bytes) (λ u. more))

  -- The download, without and with the export.
  abbrev pub Downloads : Bool → Step BackupResultDto
  Downloads false =
      Then (Waits p (backup_file p.backup_name))
        (λ u. Stores (backup_file p.backup_name) backup_path (Done backup_only))
  Downloads true = Then (Waits p (backup_file p.backup_name)) (λ u. Then (Exports p) (λ u.
      Then (Waits p (export_file p.backup_name)) (λ u.
        Stores (backup_file p.backup_name) backup_path
          (Stores (export_file p.backup_name) export_path (Done with_export)))))

module _ {W : Type 0} (world : World W) (p : BackupParams) where
  is_listed_iff :
      (name : Text) (files : List (Option Text))
      → (is_listed world name files ≡ true) ↔ IsListed name files
  is_listed_iff name [] = ((λ e. cc), λ v. absurd v)
  is_listed_iff name (none ∷ files) =
      let ih = is_listed_iff name files in
      (λ e. inr (ih.0 e), λ v. elim v [ inl e ↦ absurd (cc e) | inr i ↦ ih.1 i ])
  is_listed_iff name (some f ∷ files) =
      let ih = is_listed_iff name files in
      elim (Bool-cases (text_eq f name)) [
        | inl y ↦ rw y (λ e. inl (ap (λ t. some t) (text_eq-eq f name y)), λ v. refl)
        | inr n ↦ rw n (
          λ e. inr (ih.0 e),
          λ v. elim v [
            | inl e ↦ absurd (cc (n, some-injective _ _ e, text_eq_refl f))
            | inr i ↦ ih.1 i
          ],
        )
      ]

  wait_until-Waits :
      (fuel : ℕ) (name : Text) (deadline : ℕ) (w : W) (r : Result BackupError (Unit {0}))
      → (wait_until world fuel name p.file_poll deadline w).result ≡ some r
      → Waits p name r (wait_until world fuel name p.file_poll deadline w).calls
  unfolding wait_until ◌>>=◌
  wait_until-Waits zero name deadline w r e = absurd (cc e)
  wait_until-Waits (suc fuel) name deadline w r e =
      at (map_err BackupError.rest (world.list_files w).0)
        (wait_until-Waits fuel name deadline (world.sleep p.file_poll.interval after)) e
    where
      after : W
      after = (world.list_files w).1

      slept_on : W
      slept_on = world.sleep p.file_poll.interval after

      turn : List (Option Text) → Effect BackupError Call W (Unit {0})
      turn files =
          if is_listed world name files
          then ret tt
          else if_late world deadline (late world p.file_poll name)
              (pause world p.file_poll.interval >> wait_until world fuel name p.file_poll deadline)

      missing :
          (files : List (Option Text)) → is_listed world name files ≡ false → ¬ IsListed name files
      missing files n i = cc (n, (is_listed_iff name files).1 i)

      at :
          (a : Result BackupError (List (Option Text)))
          → ((r : Result BackupError (Unit {0}))
              → (wait_until world fuel name p.file_poll deadline slept_on).result ≡ some r
              → Waits p name r (wait_until world fuel name p.file_poll deadline slept_on).calls)
          → (proceed (some a) turn after).result ≡ some r
          → Waits p name r (listed a ∷ (proceed (some a) turn after).calls)
      at (err x) ih = λ g. rw (← some-injective _ _ g) (not_listed x)
      at (ok files) ih = elim (Bool-cases (is_listed world name files)) [
        | inl y ↦
            rw y
              (λ g. rw (← some-injective _ _ g) (is_there files ((is_listed_iff name files).0 y)))
        | inr n ↦ rw n (elim (Bool-cases (leb deadline (world.now after))) [
          | inl l ↦ rw l (λ g. rw (← some-injective _ _ g) (too_late files _ (missing files n)))
          | inr early ↦ rw early (λ g. not_yet files r _ (missing files n) (ih r g))
        ])
      ]

  wait_for_file-Meets :
      (fuel : ℕ) (name : Text) → Meets (Waits p name) (wait_for_file world fuel name p.file_poll)
  unfolding wait_for_file
  wait_for_file-Meets fuel name = record {
    shows = λ w. wait_until-Waits fuel name (world.now w + p.file_poll.timeout) w;
  }

  asks_export :
      Meets (Exports p) (ask world (exported p.backup_name) (world.export_rsc p.backup_name))
  asks_export = record { shows = λ w r e. rw (← some-injective _ _ e) (exports _) }

  fetch-Meets : (remote : Text) → Meets (Fetches p remote) (fetch world p remote)
  fetch-Meets remote = record { shows = λ w r e. rw (← some-injective _ _ e) (fetches _) }

  write_output-Meets :
      (path : Text) (bytes : List ℕ) → Meets (Writes path bytes) (write_output world path bytes)
  write_output-Meets path bytes = record { shows = λ w r e. rw (← some-injective _ _ e) (writes _) }

  stores-Meets :
      {A : Type 0} (remote path : Text) (more : Step A) (f : Effect BackupError Call W A)
      → Meets more f
      → Meets
          (Then (Fetches p remote) (λ bytes. Then (Writes path bytes) (λ u. more)))
          (fetch world p remote >>= λ bytes. write_output world path bytes >> f)
  stores-Meets remote path more f h =
      bind-Meets _ _ _ _ (fetch-Meets remote)
        (λ bytes. bind-Meets _ _ _ _ (write_output-Meets path bytes) (λ u. h))

  module _ (backup_path export_path : Text) where
    -- What follows the export step.
    abbrev rest_of_download : Option Text → Effect BackupError Call W BackupResultDto
    rest_of_download remote = fetch world p (backup_file p.backup_name) >>= λ bytes.
        write_output world backup_path bytes
        >> (export_output world p export_path remote >>= λ export_to.
            ret (record {
              backup_path = backup_path;
              export_path = export_to;
              cleanup_warnings = [];
            }))

    download-Meets :
        (b : Bool) (fuel : ℕ)
        → Meets (Downloads p backup_path export_path b) (
            wait_for_file world fuel (backup_file p.backup_name) p.file_poll
            >> (export_step world b fuel p >>= rest_of_download))
    download-Meets false fuel =
        bind-Meets _ _ _ _ (wait_for_file-Meets fuel (backup_file p.backup_name)) (λ u.
          ret-Meets _ none rest_of_download
            (stores-Meets _ _ _ _ (ret-Meets _ none _ (done-Meets _))))
    download-Meets true fuel =
        bind-Meets _ _ _ _ (wait_for_file-Meets fuel (backup_file p.backup_name)) (λ u.
          assoc-Meets _ _ _ rest_of_download (
            bind-Meets _ _ _ _ asks_export (λ u. assoc-Meets _ _ _ rest_of_download (
              bind-Meets _ _ _ _ (wait_for_file-Meets fuel (export_file p.backup_name)) (λ u.
                ret-Meets _ (some (export_file p.backup_name)) rest_of_download (
                  stores-Meets _ _ _ _ (
                    assoc-Meets _ _ _ _ (
                      bind-Meets _ _ _ _ (fetch-Meets _) (λ bytes. assoc-Meets _ _ _ _ (
                        bind-Meets _ _ _ _ (write_output-Meets export_path bytes)
                          (λ u. ret-Meets _ (some export_path) _ (done-Meets _))))))))))))

    pub download_and_write-Downloads :
        (fuel : ℕ)
        → Meets
            (Downloads p backup_path export_path p.include_rsc)
            (download_and_write world fuel p backup_path export_path)
    unfolding download_and_write
    download_and_write-Downloads fuel = download-Meets p.include_rsc fuel
