-- ===== src/Mikrotik/Backup/Flow/Download.antt =====
-- What the download phase may call.
use verkkokyyla.Mikrotik.Backup.Flow.{
  ask, is_listed, pause, wait_until, wait_for_file, fetch, write_output, export_step, export_output,
  download_and_write, backup_file, export_file,
}
use verkkokyyla.Mikrotik.Backup.World.{
  BackupError, BackupParams, World, Call, listed, exported, fetched, wrote, slept,
}
use verkkokyyla.Prelude.Effects.{Calls, >>=-All, >>=-Calls, >>=-ok}
use verkkokyyla.Prelude.Results.{Result, ok}
use verkkokyyla.Prelude.Text.{Text}
use verkkokyyla.Prelude.{
  ℕ, zero, suc, ◌+◌, ◌≡◌, ◌⊎◌, refl, Bool, true, false, List, Option, none, some, leb, Bool-cases,
  inl, inr,
}

-- One of the two files that a run has the router create.
abbrev pub IsCreated : BackupParams → Text → Type 0
IsCreated p remote =
    (remote ≡ backup_file p.backup_name)
    ⊎ ((p.include_rsc ≡ true) × (remote ≡ export_file p.backup_name))

-- What is downloaded after the backup: the export, or nothing.
pub export_step-remote :
    {W : Type 0} (world : World W) (p : BackupParams) (b : Bool) (fuel : ℕ) (w1 : W)
    (remote : Option Text)
    → (export_step world b fuel p w1).result ≡ some (ok remote)
    → ((b ≡ false) × (remote ≡ none)) ⊎ ((b ≡ true) × (remote ≡ some (export_file p.backup_name)))
export_step-remote world p false fuel w1 remote e = inl (refl, cc)
export_step-remote world p true fuel w1 remote e =
    let (u, asked, waited, c) = >>=-ok _ _ w1 remote e in
    let (v, there, last, d) = >>=-ok _ _ _ remote waited in inr (refl, cc last)

-- A property of calls that those of a download into these two paths have.
pub record Covers (P : Call → Type 0) (p : BackupParams) (backup_path export_path : Text)
    : Type 0 where
  pub lists : (r : Result BackupError (List (Option Text))) → P (listed r)
  pub sleeps : P (slept p.file_poll.interval)
  pub exports :
      p.include_rsc ≡ true → (r : Result BackupError (Unit {0})) → P (exported p.backup_name r)
  pub fetches :
      (remote : Text)
      → IsCreated p remote
      → (r : Result BackupError (List ℕ))
      → P (fetched p.sftp_host 22 p.sftp_username p.sftp_password remote r)
  pub writes_backup :
      (bytes : List ℕ) (r : Result BackupError (Unit {0})) → P (wrote backup_path bytes r)
  pub writes_export :
      p.include_rsc ≡ true
      → (bytes : List ℕ) (r : Result BackupError (Unit {0})) → P (wrote export_path bytes r)

module _ {W : Type 0} (world : World W) (P : Call → Type 0) (p : BackupParams)
    (backup_path export_path : Text) (covers : Covers P p backup_path export_path) where
  wait_until-Calls :
      (fuel : ℕ) (name : Text) (deadline : ℕ)
      → Calls P (wait_until world fuel name p.file_poll deadline)
  unfolding wait_until
  wait_until-Calls zero name deadline w1 = tt
  wait_until-Calls (suc fuel) name deadline w1 =
      >>=-Calls P (ask world listed world.list_files) _ (λ w2. (covers.lists _, tt))
        (λ files w2. elim (Bool-cases (is_listed world name files)) [
          | inl there ↦ rw there tt
          | inr missing ↦ rw missing (elim (Bool-cases (leb deadline (world.now w2))) [
            | inl is_late ↦ rw is_late tt
            | inr early ↦ rw early (
                >>=-Calls P (pause world p.file_poll.interval) _ (λ w3. (covers.sleeps, tt))
                  (λ u. wait_until-Calls fuel name deadline) w2)
          ])
        ])
        w1

  wait_for_file-Calls :
      (fuel : ℕ) (name : Text) → Calls P (wait_for_file world fuel name p.file_poll)
  unfolding wait_for_file
  wait_for_file-Calls fuel name w1 =
      wait_until-Calls fuel name (world.now w1 + p.file_poll.timeout) w1

  -- The export is only asked for, and only then downloaded, when it was to be included.
  export_step-Calls :
      (b : Bool) (fuel : ℕ)
      → (b ≡ true → p.include_rsc ≡ true)
      → Calls P (export_step world b fuel p)
  export_step-Calls false fuel h w1 = tt
  export_step-Calls true fuel h w1 =
      >>=-Calls P (ask world (exported p.backup_name) (world.export_rsc p.backup_name)) _
        (λ w2. (covers.exports (h refl) _, tt))
        (λ u.
          >>=-Calls P (wait_for_file world fuel (export_file p.backup_name) p.file_poll) _
            (wait_for_file-Calls fuel (export_file p.backup_name)) (λ u w3. tt))
        w1

  export_output-Calls :
      (remote : Option Text) (b : Bool)
      → (b ≡ true → p.include_rsc ≡ true)
      → ((b ≡ false) × (remote ≡ none)) ⊎ ((b ≡ true) × (remote ≡ some (export_file p.backup_name)))
      → Calls P (export_output world p export_path remote)
  export_output-Calls remote b h (inl (e, f)) w1 = rw f tt
  export_output-Calls remote b h (inr (e, f)) w1 = rw f (
      >>=-Calls P (fetch world p (export_file p.backup_name)) _
        (λ w2. (covers.fetches _ (inr (h e, refl)) _, tt))
        (λ bytes.
          >>=-Calls P (write_output world export_path bytes) _
            (λ w2. (covers.writes_export (h e) bytes _, tt)) (λ u w2. tt))
        w1)

  pub download_and_write-Calls :
      (fuel : ℕ) → Calls P (download_and_write world fuel p backup_path export_path)
  unfolding download_and_write
  download_and_write-Calls fuel =
      >>=-Calls P _ _ (wait_for_file-Calls fuel (backup_file p.backup_name)) (λ u w2.
        >>=-All P (export_step world p.include_rsc fuel p) _ w2
          (export_step-Calls p.include_rsc fuel (λ e. e) w2)
          (λ remote e.
            let kind = export_step-remote world p p.include_rsc fuel w2 remote e in
            >>=-Calls P (fetch world p (backup_file p.backup_name)) _
              (λ w3. (covers.fetches _ (inl refl) _, tt))
              (λ bytes.
                >>=-Calls P (write_output world backup_path bytes) _
                  (λ w3. (covers.writes_backup bytes _, tt))
                  (λ u.
                    >>=-Calls P _ _ (export_output-Calls remote p.include_rsc (λ e. e) kind)
                      (λ path w3. tt)))
              _))
