-- ===== src/Mikrotik/Backup/Flow/Stored.antt =====
-- What a backup that succeeds has downloaded and written.
use mathlib.Core.Option.{some-injective}
use mathlib.Core.List.{append_assoc}
use verkkokyyla.Mikrotik.Backup.Flow.{
  validate_backup_name, check_output, ask, wait_for_file, fetch, write_output, export_step,
  export_output, download_and_write, backup_file, export_file, delete_all, created_files, clean_up,
  guarded, destination, backup_path_in, export_path_in, run_backup,
}
use verkkokyyla.Mikrotik.Backup.Flow.Calls.{destination-dir}
use verkkokyyla.Mikrotik.Backup.Flow.Download.{export_step-remote}
use verkkokyyla.Mikrotik.Backup.World.{
  BackupError, BackupResultDto, BackupParams, World, Call, saved, fetched, wrote,
}
use verkkokyyla.Prelude.Effects.{Outcome, Effect, ret, inspect, ◌>>=◌, ◌>>◌, >>=-ok}
use verkkokyyla.Prelude.Results.{Result, ok, err}
use verkkokyyla.Prelude.Text.{Text}
use verkkokyyla.Prelude.{
  ℕ, ◌≡◌, ◌∙◌, ◌⊎◌, refl, ap, sym, subst, true, false, List, [], ◌∷◌, ◌++◌, Option, none, some, inl,
  inr,
}

-- The remote file was downloaded over port 22, and its bytes were then at once written to the path.
pub record IsStored (p : BackupParams) (remote path : Text) (calls : List Call) : Type 0 where
  pub bytes : List ℕ
  pub before : List Call
  pub after : List Call
  pub in_order :
      calls
      ≡ before
        ++ fetched p.sftp_host 22 p.sftp_username p.sftp_password remote (ok bytes)
          ∷ wrote path bytes (ok tt)
          ∷ after

module _ (p : BackupParams) (remote path : Text) where
  later : (xs ys : List Call) → IsStored p remote path ys → IsStored p remote path (xs ++ ys)
  later xs ys s = record {
    bytes = s.bytes;
    before = xs ++ s.before;
    after = s.after;
    in_order = ap (λ c. xs ++ c) s.in_order ∙ sym (append_assoc xs s.before _);
  }

  earlier : (xs ys : List Call) → IsStored p remote path xs → IsStored p remote path (xs ++ ys)
  earlier xs ys s = record {
    bytes = s.bytes;
    before = s.before;
    after = s.after ++ ys;
    in_order = ap (λ c. c ++ ys) s.in_order ∙ append_assoc s.before _ ys;
  }

  later_in :
      (xs : List Call) {ys zs : List Call}
      → ys ≡ xs ++ zs
      → IsStored p remote path zs
      → IsStored p remote path ys
  later_in xs {ys} {zs} e s = subst (IsStored p remote path) (sym e) (later xs zs s)

-- What is left of a chain after the download and the writing of one file.
record Rest {W B : Type 0} (p : BackupParams) (remote path : Text)
    (more : List ℕ → Effect BackupError Call W B) (o : Outcome BackupError Call W B) (b : B)
    : Type 0 where
  bytes : List ℕ
  world : W
  result : (more bytes world).result ≡ some (ok b)
  calls :
      o.calls
      ≡ fetched p.sftp_host 22 p.sftp_username p.sftp_password remote (ok bytes)
        ∷ wrote path bytes (ok tt)
        ∷ (more bytes world).calls

module _ {W : Type 0} (world : World W) (p : BackupParams) where
  store :
      {B : Type 0} (remote path : Text) (more : List ℕ → Effect BackupError Call W B) (w : W)
      (b : B)
      → ((fetch world p remote >>= λ bytes. write_output world path bytes >> more bytes) w).result
        ≡ some (ok b)
      → Rest p remote path more
          ((fetch world p remote >>= λ bytes. write_output world path bytes >> more bytes) w)
          b
  store remote path more w b e =
      let (bytes, got, written, c) = >>=-ok (fetch world p remote) _ w b e in
      let after = (fetch world p remote w).world in
      let (u, put, last, d) =
        >>=-ok (write_output world path bytes) (λ u. more bytes) after b written in
      record {
        bytes = bytes;
        world = (write_output world path bytes after).world;
        result = last;
        calls =
            c
            ∙ ap (λ r. got_by r ∷ ((write_output world path bytes >> more bytes) after).calls)
                (some-injective _ _ got)
            ∙ ap (λ cs. got_by (ok bytes) ∷ cs)
                (d
                  ∙ ap
                      (λ r.
                        wrote path bytes r
                        ∷ (more bytes (write_output world path bytes after).world).calls)
                      (some-injective _ _ put));
      }
    where
      got_by : Result BackupError (List ℕ) → Call
      got_by = fetched p.sftp_host 22 p.sftp_username p.sftp_password remote

  -- What the optional second download leaves.
  abbrev pub HasExport : Text → Option Text → List Call → Type 0
  HasExport path found calls =
      ((p.include_rsc ≡ false) × (found ≡ none))
      ⊎ ((p.include_rsc ≡ true)
          × (found ≡ some path)
          × IsStored p (export_file p.backup_name) path calls)

  export_output-HasExport :
      (path : Text) (remote found : Option Text) (w : W)
      → (export_output world p path remote w).result ≡ some (ok found)
      → ((p.include_rsc ≡ false) × (remote ≡ none))
        ⊎ ((p.include_rsc ≡ true) × (remote ≡ some (export_file p.backup_name)))
      → HasExport path found (export_output world p path remote w).calls
  export_output-HasExport path none found w e (inl (n, f)) = inl (n, cc e)
  export_output-HasExport path none found w e (inr (y, f)) = absurd (cc f)
  export_output-HasExport path (some remote) found w e (inl (n, f)) = absurd (cc f)
  export_output-HasExport path (some remote) found w e (inr (y, f)) =
      let s = store remote path (λ bytes. ret (some path)) w found e in
      inr (
        y,
        cc (s.result),
        record {
          bytes = s.bytes;
          before = [];
          after = [];
          in_order =
              s.calls
              ∙ ap
                  (λ r.
                    fetched p.sftp_host 22 p.sftp_username p.sftp_password r (ok s.bytes)
                    ∷ wrote path s.bytes (ok tt)
                    ∷ [])
                  (some-injective _ _ f);
        },
      )

  HasExport-map :
      (path : Text) (found : Option Text) (xs ys : List Call)
      → (IsStored p (export_file p.backup_name) path xs
          → IsStored p (export_file p.backup_name) path ys)
      → HasExport path found xs
      → HasExport path found ys
  HasExport-map path found xs ys f (inl h) = inl h
  HasExport-map path found xs ys f (inr (y, e, s)) = inr (y, e, f s)

  -- Both files, for a download into these two paths.
  abbrev pub HasFiles : Text → Text → BackupResultDto → List Call → Type 0
  HasFiles backup_path export_path dto calls =
      (dto.backup_path ≡ backup_path)
      × IsStored p (backup_file p.backup_name) backup_path calls
      × HasExport export_path dto.export_path calls

  HasFiles-map :
      (backup_path export_path : Text) (dto : BackupResultDto) (xs ys : List Call)
      → ((remote path : Text) → IsStored p remote path xs → IsStored p remote path ys)
      → HasFiles backup_path export_path dto xs
      → HasFiles backup_path export_path dto ys
  HasFiles-map backup_path export_path dto xs ys f (named, stored, export) = (
    named,
    f (backup_file p.backup_name) backup_path stored,
    HasExport-map export_path dto.export_path xs ys (f (export_file p.backup_name) export_path)
        export,
  )

  -- The download phase once both files are on the router.
  abbrev both : Text → Text → Option Text → Effect BackupError Call W BackupResultDto
  both backup_path export_path remote = do
    bytes ← fetch world p (backup_file p.backup_name)
    write_output world backup_path bytes
    export_to ← export_output world p export_path remote
    ret (record { backup_path = backup_path; export_path = export_to; cleanup_warnings = [] })

  both-HasFiles :
      (backup_path export_path : Text) (remote : Option Text) (w : W) (dto : BackupResultDto)
      → (both backup_path export_path remote w).result ≡ some (ok dto)
      → ((p.include_rsc ≡ false) × (remote ≡ none))
        ⊎ ((p.include_rsc ≡ true) × (remote ≡ some (export_file p.backup_name)))
      → HasFiles backup_path export_path dto (both backup_path export_path remote w).calls
  both-HasFiles backup_path export_path remote w dto e kind =
      let s = store (backup_file p.backup_name) backup_path _ w dto e in
      let (found, exported_to, last, c) =
        >>=-ok (export_output world p export_path remote) _ s.world dto s.result in
      let h = export_output-HasExport export_path remote found s.world exported_to kind in
      let start =
        fetched p.sftp_host 22 p.sftp_username p.sftp_password (backup_file p.backup_name)
          (ok s.bytes)
        ∷ wrote backup_path s.bytes (ok tt)
        ∷ [] in
      let exports = (export_output world p export_path remote s.world).calls in
      let whole = s.calls ∙ ap (λ cs. start ++ cs) c in
      let fields : record { backup_path = backup_path; export_path = found; cleanup_warnings = [] }
          ≡ dto =
        cc last in
      (
        sym (ap (λ d. d.backup_path) fields),
        record { bytes = s.bytes; before = []; after = _; in_order = s.calls },
        subst
            (λ d. HasExport export_path d.export_path (both backup_path export_path remote w).calls)
            fields
            (HasExport-map export_path found exports (both backup_path export_path remote w).calls
              (λ x.
                later_in p (export_file p.backup_name) export_path start whole
                  (earlier p (export_file p.backup_name) export_path exports [] x))
              h),
      )

  download_and_write-HasFiles :
      (fuel : ℕ) (backup_path export_path : Text) (w : W) (dto : BackupResultDto)
      → (download_and_write world fuel p backup_path export_path w).result ≡ some (ok dto)
      → HasFiles backup_path export_path dto
          (download_and_write world fuel p backup_path export_path w).calls
  unfolding download_and_write
  download_and_write-HasFiles fuel backup_path export_path w dto e =
      let (u, there, r1, c1) =
        >>=-ok (wait_for_file world fuel (backup_file p.backup_name) p.file_poll) _ w dto e in
      let (remote, found, r2, c2) = >>=-ok (export_step world p.include_rsc fuel p) _ _ dto r1 in
      let kind = export_step-remote world p p.include_rsc fuel _ remote found in
      let h = both-HasFiles backup_path export_path remote _ dto r2 kind in
      HasFiles-map backup_path export_path dto _ _
        (λ remote path x. later_in p remote path _ c1 (later_in p remote path _ c2 x)) h

  -- A run that succeeds, for the directory that it was given.
  abbrev pub IsComplete : W → BackupResultDto → List Call → Type 0
  IsComplete w dto calls =
      (dir : Text) × (world.canonicalize p.destination_dir w ≡ ok dir)
      × HasFiles (backup_path_in world p dir) (export_path_in world p dir) dto calls

  -- The cleanup keeps what the download has returned.
  guarded-HasFiles :
      (body : Effect BackupError Call W BackupResultDto) (w : W) (backup_path export_path : Text)
      (dto : BackupResultDto)
      → (guarded world (created_files p) body w).result ≡ some (ok dto)
      → ((d : BackupResultDto)
          → (body w).result ≡ some (ok d)
          → HasFiles backup_path export_path d (body w).calls)
      → HasFiles backup_path export_path dto (guarded world (created_files p) body w).calls
  guarded-HasFiles body w backup_path export_path dto e h = at (body w).result refl e
    where
      after : W
      after = (body w).world

      at :
          (o : Option (Result BackupError BackupResultDto))
          → (body w).result ≡ o
          → (clean_up world (created_files p) o after).result ≡ some (ok dto)
          → HasFiles backup_path export_path dto
              ((body w).calls ++ (clean_up world (created_files p) (body w).result after).calls)
      at none f e = absurd cc
      at (some (err x)) f e =
          let (warnings, gone, last, c) =
            >>=-ok (delete_all world (created_files p)) _ after dto e in
          absurd (cc last)
      at (some (ok d)) f e =
          let (warnings, gone, last, c) =
            >>=-ok (delete_all world (created_files p)) _ after dto e in
          let fields : record d { cleanup_warnings = warnings } ≡ dto = cc last in
          subst
            (λ x.
              HasFiles backup_path export_path x
                ((body w).calls ++ (clean_up world (created_files p) (body w).result after).calls))
            fields
            (HasFiles-map backup_path export_path (record d { cleanup_warnings = warnings })
              (body w).calls _ (λ remote path x. earlier p remote path _ _ x) (h d f))

-- A run that succeeds has downloaded the backup over port 22 and at once written exactly the bytes that
-- came to the path that it returns, in the chosen directory and named after the backup; the same holds
-- of the export if it is to be included, and otherwise no export's path is returned.
pub run_backup-IsComplete :
    {W : Type 0} (world : World W) (fuel : ℕ) (p : BackupParams) (w : W) (dto : BackupResultDto)
    → (run_backup world fuel p w).result ≡ some (ok dto)
    → IsComplete world p w dto (run_backup world fuel p w).calls
unfolding run_backup
run_backup-IsComplete world fuel p w dto e =
    let (u, valid, e1, c1) = >>=-ok (inspect (λ w. validate_backup_name p.backup_name)) _ w dto e in
    let (dir, is_dir, e2, c2) = >>=-ok (inspect (destination world p.destination_dir)) _ w dto e1 in
    let (v, free, e3, c3) =
      >>=-ok (inspect (check_output world (backup_path_in world p dir) p.overwrite)) _ w dto e2 in
    let (v, free, e4, c4) = >>=-ok (inspect _) _ w dto e3 in
    let (v, created, e5, c5) =
      >>=-ok
        (ask world (saved p.backup_name p.password) (world.backup_save p.backup_name p.password)) _
        w dto e4 in
    let bp = backup_path_in world p dir in
    let ep = export_path_in world p dir in
    let h =
      guarded-HasFiles world p (download_and_write world fuel p bp ep) _ bp ep dto e5
        (λ d f. download_and_write-HasFiles world p fuel bp ep _ d f) in
    (
      dir,
      destination-dir world p w dir (some-injective _ _ is_dir),
      HasFiles-map world p bp ep dto _ _
          (λ remote path x.
            later_in p remote path
              (ask world (saved p.backup_name p.password)
                (world.backup_save p.backup_name p.password) w).calls
              (c1 ∙ c2 ∙ c3 ∙ c4 ∙ c5) x)
          h,
    )
