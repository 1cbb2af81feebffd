-- ===== src/Tests/Backup.antt =====
-- Names of backups.
use verkkokyyla.Backup.Filename.Allowed.{IsBackupName, validate_backup_name-IsBackupName}
use verkkokyyla.Backup.Filename.{
  invalid_backup_name, is_alphanumeric, is_allowed, is_windows_device_name, validate_backup_name,
}
use verkkokyyla.Prelude.Results.{ok, err}
use verkkokyyla.Prelude.Text.{codes, is_digit}
use verkkokyyla.Prelude.{◌≡◌, ◌↔◌, ◌⊎◌, refl}

accepted : validate_backup_name (codes "router-1.backup") ≡ ok tt
unfolding validate_backup_name is_alphanumeric is_allowed is_windows_device_name is_digit
accepted = refl

refused : validate_backup_name (codes "com7.rsc") ≡ err (invalid_backup_name (codes "com7.rsc"))
unfolding validate_backup_name is_alphanumeric is_allowed is_windows_device_name is_digit
refused = refl

hidden : validate_backup_name (codes ".rsc") ≡ err (invalid_backup_name (codes ".rsc"))
unfolding validate_backup_name is_alphanumeric is_allowed is_windows_device_name is_digit
hidden = refl

validate_backup_name-IsBackupName_example :
    ((validate_backup_name (codes "com7.rsc") ≡ ok tt) ↔ IsBackupName (codes "com7.rsc"))
    × ((validate_backup_name (codes "com7.rsc") ≡ ok tt)
        ⊎ (validate_backup_name (codes "com7.rsc") ≡ err (invalid_backup_name (codes "com7.rsc"))))
validate_backup_name-IsBackupName_example = validate_backup_name-IsBackupName (codes "com7.rsc")
