-- ===== src/Opnsense/Backup/Calls.antt =====
-- What a backup may call, however it ends.
use mathlib.Core.Option.{some-injective}
use verkkokyyla.Opnsense.Backup.Checks.{
  valid_revision_id, sort_newest_first, validate_backup_name, validate_passphrase,
  validate_config_xml,
}
use verkkokyyla.Opnsense.Backup.Run.{
  set_up, api_for, backup_revisions, download_revision, check_any, select, check_id, check_wanted,
  check_destination, output_path, store_revision, backup,
}
use verkkokyyla.Opnsense.Backup.Source.{check_id-true}
use verkkokyyla.Opnsense.Backup.Writing.{
  Fails, now, later, Writing, exists_already, not_created, written, undone, encrypt_to_file-Writing,
}
use verkkokyyla.Opnsense.Backup.{
  OpnsenseBackupError, OpnsenseRevisionDto, Step, Device, Call, listed, downloaded, created,
  encrypted, removed, encrypt_to_file,
}
use verkkokyyla.Prelude.Effects.{inspect, All, All-append, Calls, >>=-All, >>=-Calls}
use verkkokyyla.Prelude.Int.{ℤ}
use verkkokyyla.Prelude.Results.{Result, ok}
use verkkokyyla.Prelude.Text.{Text}
use verkkokyyla.Prelude.{ℕ, ◌≡◌, refl, true, List, Option}

module _ {D P C A W : Type 0} (device : Device D P C A W)
    (destination_dir backup_name passphrase : Text) (wanted : Option Text) (w : W) where
  abbrev out : Text
  out = output_path device destination_dir backup_name

  -- All that is checked locally has passed.
  abbrev pub AreChecked : Type 0
  AreChecked =
      (validate_passphrase device passphrase ≡ ok tt)
      × (validate_backup_name {D = D} backup_name ≡ ok tt)
      × (check_wanted device wanted ≡ ok tt)
      × (check_destination device destination_dir w ≡ ok tt)

  abbrev pub IsAllowed : Call D → Type 0
  IsAllowed (listed r) = AreChecked
  IsAllowed (downloaded id r) = AreChecked × (valid_revision_id id ≡ true)
  IsAllowed (created path r) = AreChecked × (path ≡ out)
  IsAllowed (encrypted s bytes secret r) =
      (secret ≡ passphrase) × (validate_config_xml device bytes ≡ ok tt)
  IsAllowed (removed path r) = path ≡ out

  module _ (checked : AreChecked) (bytes : List ℕ)
      (config : validate_config_xml device bytes ≡ ok tt) where
    Fails-IsAllowed :
        {steps : List Step} {calls : List (Call D)} {message : Text}
        → Fails out bytes passphrase steps calls message
        → All IsAllowed calls
    Fails-IsAllowed (now s message) = ((refl, config), tt)
    Fails-IsAllowed (later s f) = ((refl, config), Fails-IsAllowed f)

    Writing-IsAllowed :
        {o : Option (Result (OpnsenseBackupError D) (Unit {0}))} {calls : List (Call D)}
        → Writing out bytes passphrase o calls
        → All IsAllowed calls
    Writing-IsAllowed exists_already = ((checked, refl), tt)
    Writing-IsAllowed (not_created message) = ((checked, refl), tt)
    Writing-IsAllowed written = (
      (checked, refl),
      ((refl, config), ((refl, config), ((refl, config), ((refl, config), ((refl, config), tt))))),
    )
    Writing-IsAllowed (undone {calls = calls} message r f) =
        ((checked, refl), All-append IsAllowed calls _ (Fails-IsAllowed f) (refl, tt))

  store_revision-IsAllowed :
      (checked : AreChecked) (api : A) (revisions : List OpnsenseRevisionDto)
      → Calls IsAllowed (store_revision device api out passphrase wanted revisions)
  store_revision-IsAllowed checked api revisions =
      >>=-Calls IsAllowed (inspect (λ w. check_any device revisions)) _ (λ w. tt)
        (λ u.
          >>=-Calls IsAllowed (inspect (λ w. select device wanted (sort_newest_first revisions))) _
            (λ w. tt)
            (λ source w1.
              >>=-All IsAllowed (inspect (λ w. check_id device source.id)) _ w1 tt (λ v e.
                let single = check_id-true device source.id v (some-injective _ _ e) in
                >>=-Calls IsAllowed (download_revision device api source.id) _
                  (λ w. ((checked, single), tt))
                  (λ bytes w2.
                    >>=-All IsAllowed (inspect (λ w. validate_config_xml device bytes)) _ w2 tt
                      (λ x f.
                        >>=-Calls IsAllowed (encrypt_to_file device out bytes passphrase) _
                          (λ w.
                            Writing-IsAllowed checked bytes (some-injective _ _ f)
                              (encrypt_to_file-Writing out bytes passphrase device w))
                          (λ y w. tt) w2))
                  w1)))

  api_for-IsAllowed : (id : ℤ) → Calls IsAllowed (api_for device id)
  unfolding api_for
  api_for-IsAllowed id =
      >>=-Calls IsAllowed (set_up device (device.require_profile id)) _ (λ w. tt)
        (λ profile.
          >>=-Calls IsAllowed (set_up device (device.connection_for profile)) _ (λ w. tt)
            (λ conn w. tt))

-- Whatever the firewall, the disk and the encryptor answer, a backup calls the firewall and makes a file
-- only if the passphrase, the name, the id that was asked for and the directory have passed their
-- checks; it downloads only revisions whose id is a single file's name, creates and removes only its own
-- output, and hands to the encryptor only the given passphrase and bytes that were found to be a configuration.
pub backup-IsAllowed :
    {D P C A W : Type 0} (device : Device D P C A W) (profile_id : ℤ)
    (destination_dir backup_name passphrase : Text) (wanted : Option Text) (w : W)
    → All
        (IsAllowed device destination_dir backup_name passphrase wanted w)
        (backup device profile_id destination_dir backup_name passphrase wanted w).calls
unfolding backup
backup-IsAllowed device profile_id destination_dir backup_name passphrase wanted w =
    let P = IsAllowed device destination_dir backup_name passphrase wanted w in
    >>=-All P (inspect (λ w. validate_passphrase device passphrase)) _ w tt (λ u1 e1.
      >>=-All P (inspect (λ w. validate_backup_name backup_name)) _ w tt (λ u2 e2.
        >>=-All P (inspect (λ w. check_wanted device wanted)) _ w tt (λ u3 e3.
          >>=-All P (inspect (check_destination device destination_dir)) _ w tt (λ u4 e4.
            let checked : AreChecked device destination_dir backup_name passphrase wanted w = (
              some-injective _ _ e1,
              some-injective _ _ e2,
              some-injective _ _ e3,
              some-injective _ _ e4,
            ) in
            >>=-Calls P (api_for device profile_id) _
              (api_for-IsAllowed device destination_dir backup_name passphrase wanted w profile_id)
              (λ api.
                >>=-Calls P (backup_revisions device api) _ (λ w. (checked, tt))
                  (λ revisions.
                    store_revision-IsAllowed device destination_dir backup_name passphrase wanted w
                      checked api revisions))
              w))))
