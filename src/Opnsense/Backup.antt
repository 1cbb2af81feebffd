-- ===== src/Opnsense/Backup.antt =====
-- opnsense/backup.rs: downloading a saved configuration and storing it encrypted. The database, the
-- keyring, the client, the disk, the XML parser, the age encryptor and Unicode's tables are parameters.
pub mod Checks
pub mod Run
pub mod Writing
pub mod Revisions
pub mod Source
pub mod Calls
use verkkokyyla.Prelude.Effects.{Effect, ret, raise, inspect, call, attempt, ◌>>=◌, ◌>>◌}
use verkkokyyla.Prelude.Int.{ℤ}
use verkkokyyla.Prelude.Results.{Result, ok, err, map_err}
use verkkokyyla.Prelude.Text.{Text, codes, text_eq}
use verkkokyyla.Prelude.{
  ℕ, Bool, true, false, ◌||◌, ◌&&◌, not, List, [], ◌∷◌, ◌++◌, Option, none, some, if◌then◌else◌,
}

pub data OpnsenseError : Type 0 where
  connect : Text → OpnsenseError
  timeout : Text → OpnsenseError
  tls : Text → OpnsenseError
  unauthorized : OpnsenseError
  forbidden : OpnsenseError
  not_found : Text → OpnsenseError
  http : (status : ℕ) (message : Text) → OpnsenseError
  parse : Text → OpnsenseError
  too_large : ℕ → OpnsenseError

-- The errors of `OpnsenseManagerError` that `setup_error` keeps apart, and the others by their text.
pub data SetupError (D : Type 0) : Type 0 where
  profile_not_found : ℤ → SetupError D
  db : D → SetupError D
  not_stored : SetupError D
  api : OpnsenseError → SetupError D
  other : Text → SetupError D

-- The database's errors are `D`.
pub data OpnsenseBackupError (D : Type 0) : Type 0 where
  invalid_name : Text → OpnsenseBackupError D
  destination_invalid : Text → OpnsenseBackupError D
  output_exists : Text → OpnsenseBackupError D
  local_write : (path message : Text) → OpnsenseBackupError D
  passphrase_blank : OpnsenseBackupError D
  passphrase_weak : OpnsenseBackupError D
  no_revisions : OpnsenseBackupError D
  invalid_revision_id : Text → OpnsenseBackupError D
  invalid_config : Text → OpnsenseBackupError D
  no_profile : ℤ → OpnsenseBackupError D
  api_error : OpnsenseError → OpnsenseBackupError D
  credentials_not_stored : OpnsenseBackupError D
  db_error : D → OpnsenseBackupError D

unfoldable pub setup_error : {D : Type 0} → SetupError D → OpnsenseBackupError D
setup_error (profile_not_found id) = no_profile id
setup_error (db e) = db_error e
setup_error not_stored = credentials_not_stored
setup_error (api e) = api_error e
setup_error (other message) = api_error (parse (codes "profile setup failed: " ++ message))

pub record OpnsenseRevisionDto : Type 0 where
  pub id : Text
  pub time_iso : Option Text
  pub description : Option Text
  pub filesize : Option ℤ

pub record OpnsenseBackupResultDto : Type 0 where
  pub path : Text
  pub source_revision_id : Text
  pub source_time_iso : Option Text

-- `std::io::Error`, as far as its kind is looked at.
pub data IoError : Type 0 where
  already_exists : IoError
  failed : Text → IoError

-- What the encryptor is made to do with the open file.
pub data Step : Type 0 where
  wrap_output write_all finish flush sync_all : Step

-- The profiles are `P`, the connections `C` and the API handles `A`.
pub record Device (D P C A W : Type 0) : Type 0 where
  pub require_profile : ℤ → W → Result (SetupError D) P × W
  pub connection_for : P → W → Result (SetupError D) C × W
  pub factory : C → W → Result (SetupError D) A × W
  pub backup_revisions : A → W → Result OpnsenseError (List OpnsenseRevisionDto) × W
  pub download_revision : A → Text → W → Result OpnsenseError (List ℕ) × W
  pub create_new : Text → W → Result IoError (Unit {0}) × W
  pub encrypt : Step → List ℕ → Text → W → Result Text (Unit {0}) × W
  pub remove_file : Text → W → Result Text (Unit {0}) × W
  pub is_dir : Text → W → Bool
  pub join : Text → Text → Text
  pub debug : Text → Text
  pub is_letter_or_digit : ℕ → Bool
  pub from_utf8 : List ℕ → Option Text
  pub root_element : Text → Result Text Text

-- The calls that reach the firewall or the disk, with their answers.
pub data Call (D : Type 0) : Type 0 where
  listed : Result (OpnsenseBackupError D) (List OpnsenseRevisionDto) → Call D
  downloaded : Text → Result (OpnsenseBackupError D) (List ℕ) → Call D
  created : Text → Result IoError (Unit {0}) → Call D
  encrypted : Step → List ℕ → Text → Result (OpnsenseBackupError D) (Unit {0}) → Call D
  removed : Text → Result Text (Unit {0}) → Call D

module _ {D P C A W : Type 0} (device : Device D P C A W) where
  abbrev pub Flow : Type 0 → Type 0
  Flow B = Effect (OpnsenseBackupError D) (Call D) W B

  abbrev pub encrypting : Text → List ℕ → Text → Step → Flow (Unit {0})
  encrypting path bytes passphrase s = call (encrypted s bytes passphrase) (λ w.
      let (r, after) = device.encrypt s bytes passphrase w in (map_err (local_write path) r, after))

  abbrev pub encryption : Text → List ℕ → Text → Flow (Unit {0})
  encryption path bytes passphrase = do
    encrypting path bytes passphrase wrap_output
    encrypting path bytes passphrase write_all
    encrypting path bytes passphrase finish
    encrypting path bytes passphrase flush
    encrypting path bytes passphrase sync_all

  -- A failed encryption leaves no file: the answer to the removal is not looked at.
  abbrev pub on_failure :
      Text → Option (Result (OpnsenseBackupError D) (Unit {0})) → Flow (Unit {0})
  on_failure path none w = record { result = none; calls = []; world = w }
  on_failure path (some (ok u)) w = ret u w
  on_failure path (some (err e)) w =
      (attempt (removed path) (device.remove_file path) >>= λ r. raise e) w

  abbrev pub or_removed : Text → Flow (Unit {0}) → Flow (Unit {0})
  or_removed path body w =
      let o = body w in
      let c = on_failure path o.result o.world in
      record { result = c.result; calls = o.calls ++ c.calls; world = c.world }

  abbrev pub once_created : Text → List ℕ → Text → Result IoError (Unit {0}) → Flow (Unit {0})
  once_created path bytes passphrase (ok u) = or_removed path (encryption path bytes passphrase)
  once_created path bytes passphrase (err already_exists) = raise (output_exists path)
  once_created path bytes passphrase (err (failed message)) = raise (local_write path message)

  unfoldable pub encrypt_to_file : Text → List ℕ → Text → Flow (Unit {0})
  encrypt_to_file path bytes passphrase =
      attempt (created path) (device.create_new path) >>= once_created path bytes passphrase
