-- ===== src/Opnsense/Backup/Source.antt =====
-- What a backup that succeeds has stored.
use mathlib.Core.Option.{some-injective}
use verkkokyyla.Opnsense.Backup.Checks.{
  valid_revision_id, sort_newest_first, validate_backup_name, validate_passphrase,
  validate_config_xml,
}
use verkkokyyla.Opnsense.Backup.Revisions.{IsChoice, select-IsChoice}
use verkkokyyla.Opnsense.Backup.Run.{
  set_up, api_for, backup_revisions, download_revision, check_any, select, check_id, check_wanted,
  check_destination, output_path, result_of, store_revision, backup,
}
use verkkokyyla.Opnsense.Backup.Writing.{
  Writing, exists_already, not_created, written, undone, all_done, all_steps,
  encrypt_to_file-Writing,
}
use verkkokyyla.Opnsense.Backup.{
  OpnsenseBackupError, OpnsenseRevisionDto, OpnsenseBackupResultDto, Device, Call, listed,
  downloaded, created, encrypt_to_file,
}
use verkkokyyla.Prelude.Effects.{inspect, All, >>=-ok, >>=-Calls}
use verkkokyyla.Prelude.Int.{ℤ}
use verkkokyyla.Prelude.Results.{Result, ok}
use verkkokyyla.Prelude.Text.{Text}
use verkkokyyla.Prelude.{
  ℕ, ◌≡◌, ◌∙◌, refl, ap, true, List, [], ◌∷◌, ◌++◌, Option, some, Bool-cases, inl, inr,
}

module _ {D P C A W : Type 0} (device : Device D P C A W) where
  -- A choice of the listed revisions was downloaded, found to be a configuration, and encrypted whole
  -- into a new file; nothing else was called.
  pub record IsStored (path passphrase : Text) (wanted : Option Text)
      (dto : OpnsenseBackupResultDto) (calls : List (Call D)) : Type 0 where
    pub revisions : List OpnsenseRevisionDto
    pub source : OpnsenseRevisionDto
    pub bytes : List ℕ
    pub in_order :
        calls
        ≡ listed (ok revisions)
          ∷ downloaded source.id (ok bytes)
          ∷ created path (ok tt)
          ∷ all_done path bytes passphrase all_steps
    pub choice : IsChoice wanted source revisions
    pub single_file : valid_revision_id source.id ≡ true
    pub config : validate_config_xml device bytes ≡ ok tt
    pub returned : result_of device path source ≡ dto

  step :
      {all first rest first' rest' : List (Call D)}
      → all ≡ first ++ rest
      → first ≡ first'
      → rest ≡ rest'
      → all ≡ first' ++ rest'
  step e f g = e ∙ rw (f, g) refl

  -- The setup calls neither the firewall nor the disk.
  api_for-calls : (id : ℤ) (w : W) → (api_for device id w).calls ≡ []
  unfolding api_for
  api_for-calls id w = none_called (api_for device id w).calls (
      >>=-Calls (λ c. ⊥) (set_up device (device.require_profile id)) _ (λ w. tt)
        (λ profile.
          >>=-Calls (λ c. ⊥) (set_up device (device.connection_for profile)) _ (λ w. tt)
            (λ conn w. tt))
        w)
    where
      none_called : (cs : List (Call D)) → All (λ c. ⊥) cs → cs ≡ []
      none_called [] h = refl
      none_called (c ∷ cs) (h, hs) = absurd h

  pub check_id-true :
      (id : Text) (u : Unit {0}) → check_id device id ≡ ok u → valid_revision_id id ≡ true
  check_id-true id u e = elim (Bool-cases (valid_revision_id id)) [
    | inl y ↦ y
    | inr n ↦ absurd (cc (e, n))
  ]

  -- A writing that went well.
  Writing-done :
      {o : Option (Result (OpnsenseBackupError D) (Unit {0}))} {calls : List (Call D)} (path : Text)
      (bytes : List ℕ) (passphrase : Text)
      → Writing path bytes passphrase o calls
      → o ≡ some (ok tt)
      → calls ≡ created path (ok tt) ∷ all_done path bytes passphrase all_steps
  Writing-done path bytes passphrase exists_already e = absurd (cc e)
  Writing-done path bytes passphrase (not_created message) e = absurd (cc e)
  Writing-done path bytes passphrase written e = refl
  Writing-done path bytes passphrase (undone message r f) e = absurd (cc e)

  -- What follows the list of revisions.
  record Rest (path passphrase : Text) (wanted : Option Text) (revisions : List OpnsenseRevisionDto)
      (dto : OpnsenseBackupResultDto) (calls : List (Call D)) : Type 0 where
    source : OpnsenseRevisionDto
    bytes : List ℕ
    in_order :
        calls
        ≡ downloaded source.id (ok bytes)
          ∷ created path (ok tt)
          ∷ all_done path bytes passphrase all_steps
    choice : IsChoice wanted source revisions
    single_file : valid_revision_id source.id ≡ true
    config : validate_config_xml device bytes ≡ ok tt
    returned : result_of device path source ≡ dto

  store_revision-Rest :
      (api : A) (path passphrase : Text) (wanted : Option Text)
      (revisions : List OpnsenseRevisionDto) (w : W) (dto : OpnsenseBackupResultDto)
      → (store_revision device api path passphrase wanted revisions w).result ≡ some (ok dto)
      → Rest path passphrase wanted revisions dto
          (store_revision device api path passphrase wanted revisions w).calls
  store_revision-Rest api path passphrase wanted revisions w dto e =
      let (u, g1, e1, c1) = >>=-ok (inspect (λ w. check_any device revisions)) _ w dto e in
      let (source, g2, e2, c2) =
        >>=-ok (inspect (λ w. select device wanted (sort_newest_first revisions))) _ w dto e1 in
      let (v, g3, e3, c3) = >>=-ok (inspect (λ w. check_id device source.id)) _ w dto e2 in
      let (bytes, g4, e4, c4) = >>=-ok (download_revision device api source.id) _ w dto e3 in
      let (x, g5, e5, c5) = >>=-ok (inspect (λ w. validate_config_xml device bytes)) _ _ dto e4 in
      let (y, g6, e6, c6) = >>=-ok (encrypt_to_file device path bytes passphrase) _ _ dto e5 in
      record {
        source = source;
        bytes = bytes;
        in_order =
            c1
            ∙ c2
            ∙ c3
            ∙ step c4 (ap (λ r. downloaded source.id r ∷ []) (some-injective _ _ g4)) (
                c5
                ∙ step c6
                    (Writing-done path bytes passphrase
                      (encrypt_to_file-Writing path bytes passphrase device _) g6)
                    refl);
        choice = select-IsChoice device wanted revisions source (some-injective _ _ g2);
        single_file = check_id-true source.id v (some-injective _ _ g3);
        config = some-injective _ _ g5;
        returned = cc e6;
      }

-- A backup that succeeds listed the revisions, downloaded one of them, and encrypted it into a new
-- file, with no other call of the firewall or the disk. The one is the one that was asked for, or one than
-- which no listed revision is newer; its id is a single file's name; what came is not empty, no HTML
-- page, and XML with the root that a configuration has; exactly that was encrypted, with the given
-- passphrase, which is strong enough; and the answer is the file's path with the revision's id and time.
pub backup-IsStored :
    {D P C A W : Type 0} (device : Device D P C A W) (profile_id : ℤ)
    (destination_dir backup_name passphrase : Text) (wanted : Option Text) (w : W)
    (dto : OpnsenseBackupResultDto)
    → (backup device profile_id destination_dir backup_name passphrase wanted w).result
      ≡ some (ok dto)
    → (validate_passphrase device passphrase ≡ ok tt)
      × IsStored device
          (output_path device destination_dir backup_name)
          passphrase
          wanted
          dto
          (backup device profile_id destination_dir backup_name passphrase wanted w).calls
unfolding backup
backup-IsStored device profile_id destination_dir backup_name passphrase wanted w dto e =
    let (u1, g1, e1, c1) =
      >>=-ok (inspect (λ w. validate_passphrase device passphrase)) _ w dto e in
    let (u2, g2, e2, c2) = >>=-ok (inspect (λ w. validate_backup_name backup_name)) _ w dto e1 in
    let (u3, g3, e3, c3) = >>=-ok (inspect (λ w. check_wanted device wanted)) _ w dto e2 in
    let (u4, g4, e4, c4) = >>=-ok (inspect (check_destination device destination_dir)) _ w dto e3 in
    let (api, g5, e5, c5) = >>=-ok (api_for device profile_id) _ w dto e4 in
    let (revisions, g6, e6, c6) = >>=-ok (backup_revisions device api) _ _ dto e5 in
    let r =
      store_revision-Rest device api (output_path device destination_dir backup_name) passphrase
        wanted revisions _ dto e6 in
    (
      some-injective _ _ g1,
      record {
        revisions = revisions;
        source = r.source;
        bytes = r.bytes;
        in_order =
            c1
            ∙ c2
            ∙ c3
            ∙ c4
            ∙ step device c5 (api_for-calls device profile_id w)
                (step device c6 (ap (λ x. listed x ∷ []) (some-injective _ _ g6)) r.in_order);
        choice = r.choice;
        single_file = r.single_file;
        config = r.config;
        returned = r.returned;
      },
    )
