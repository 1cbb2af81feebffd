-- ===== src/Tests/Firewall.antt =====
-- Tests of a firewall's backup.
use verkkokyyla.Backup.Filename as Filename
use verkkokyyla.Opnsense.Backup.Calls.{IsAllowed, backup-IsAllowed}
use verkkokyyla.Opnsense.Backup.Checks.{
  is_whitespace, valid_revision_id, looks_like_html, validate_backup_name, validate_passphrase,
  validate_config_xml,
}
use verkkokyyla.Opnsense.Backup.Run.{api_for, backup}
use verkkokyyla.Opnsense.Backup.Source.{IsStored, backup-IsStored}
use verkkokyyla.Opnsense.Backup.Writing.{Writing, encrypt_to_file-Writing}
use verkkokyyla.Opnsense.Backup.{
  OpnsenseRevisionDto, OpnsenseBackupResultDto, Device, encrypt_to_file, setup_error,
}
use verkkokyyla.Prelude.Effects.{All, ◌>>=◌}
use verkkokyyla.Prelude.Int.{pos}
use verkkokyyla.Prelude.Results.{ok, err}
use verkkokyyla.Prelude.Text.{Text, codes, is_digit}
use verkkokyyla.Prelude.{
  ℕ, ◌+◌, ◌≡◌, refl, true, [], ◌∷◌, ◌++◌, Option, none, some, ltb, if◌then◌else◌,
}

abbrev revision : Text → Option Text → OpnsenseRevisionDto
revision id time_iso = record { id = id; time_iso = time_iso; description = none; filesize = none }

-- Each step of the encryption counts up the world, and the step at 8 fails.
abbrev firewall : Device ℕ ℕ ℕ ℕ ℕ
firewall = record {
  require_profile = λ id w. (ok 1, w);
  connection_for = λ profile w. (ok 2, w);
  factory = λ conn w. (ok 3, w);
  backup_revisions = λ a w. (
    ok (
        revision (codes "config-1.xml") none
        ∷ revision (codes "config-2.xml") (some (codes "2026-01"))
        ∷ revision (codes "config-3.xml") (some (codes "2026-02"))
        ∷ []),
    w,
  );
  download_revision = λ a id w. (ok (codes "<opnsense/>"), w);
  create_new = λ path w. (ok tt, w);
  encrypt = λ s bytes secret w. (if ltb w 8 then ok tt else err (codes "disk full"), w + 1);
  remove_file = λ path w. (ok tt, w);
  is_dir = λ path w. true;
  join = λ dir name. dir ++ codes "/" ++ name;
  debug = λ t. t;
  is_letter_or_digit = Filename.is_alphanumeric;
  from_utf8 = λ bytes. some bytes;
  root_element = λ text. ok (codes "opnsense");
}

abbrev secret : Text
secret = codes "correct-horse-7"

abbrev stored : OpnsenseBackupResultDto
stored = record {
  path = codes "/b/fw.xml.age";
  source_revision_id = codes "config-3.xml";
  source_time_iso = some (codes "2026-02");
}

backup_example :
    (backup firewall (pos 1) (codes "/b") (codes "fw") secret none 0).result ≡ some (ok stored)
unfolding backup api_for encrypt_to_file validate_passphrase validate_backup_name
    validate_config_xml looks_like_html valid_revision_id is_whitespace setup_error ◌>>=◌
    Filename.validate_backup_name Filename.is_alphanumeric Filename.is_allowed
    Filename.is_windows_device_name is_digit
backup_example = refl

backup-IsStored_example :
    (validate_passphrase firewall secret ≡ ok tt)
    × IsStored firewall
        (codes "/b/fw.xml.age")
        secret
        none
        stored
        (backup firewall (pos 1) (codes "/b") (codes "fw") secret none 0).calls
backup-IsStored_example =
    backup-IsStored firewall (pos 1) (codes "/b") (codes "fw") secret none 0 stored backup_example

backup-IsAllowed_example :
    All
      (IsAllowed firewall (codes "/b") (codes "fw") secret none 4)
      (backup firewall (pos 1) (codes "/b") (codes "fw") secret none 4).calls
backup-IsAllowed_example = backup-IsAllowed firewall (pos 1) (codes "/b") (codes "fw") secret none 4

encrypt_to_file-Writing_example :
    Writing
      (codes "/b/fw.xml.age")
      (60 ∷ [])
      secret
      (encrypt_to_file firewall (codes "/b/fw.xml.age") (60 ∷ []) secret 6).result
      (encrypt_to_file firewall (codes "/b/fw.xml.age") (60 ∷ []) secret 6).calls
encrypt_to_file-Writing_example =
    encrypt_to_file-Writing (codes "/b/fw.xml.age") (60 ∷ []) secret firewall 6
