-- ===== src/Mikrotik/Backup/World.antt =====
-- mikrotik/backup.rs: what the backup flow is given, what it calls, and what it answers.
use verkkokyyla.Mikrotik.Error.{MikrotikError}
use verkkokyyla.Prelude.Results.{Result}
use verkkokyyla.Prelude.Text.{Text}
use verkkokyyla.Prelude.{ℕ, Bool, List, Option}

-- The errors that this flow can end with.
pub data BackupError : Type 0 where
  invalid_name : Text → BackupError
  destination_invalid : Text → BackupError
  output_exists : Text → BackupError
  local_write : (path message : Text) → BackupError
  ssh_unreachable : (host message : Text) → BackupError
  ssh_auth : Text → BackupError
  sftp : Text → BackupError
  backup_timeout : Text → BackupError
  partial_download : Text → BackupError
  rest : MikrotikError → BackupError

abbrev pub sftp_port : ℕ
sftp_port = 22

-- In milliseconds.
pub record FilePoll : Type 0 where
  pub interval : ℕ
  pub timeout : ℕ

abbrev pub default_poll : FilePoll
default_poll = record { interval = 2_000; timeout = 60_000 }

pub record BackupResultDto : Type 0 where
  pub backup_path : Text
  pub export_path : Option Text
  pub cleanup_warnings : List Text

pub record BackupParams : Type 0 where
  pub sftp_host : Text
  pub sftp_username : Text
  pub sftp_password : Text
  pub destination_dir : Text
  pub backup_name : Text
  pub password : Option Text
  pub include_rsc : Bool
  pub overwrite : Bool
  pub file_poll : FilePoll

-- What the flow calls: the client, the SFTP seam, the disk and the clock, whose answers depend on the
-- world as it is then, and `std::path`. `to_string` and `show_error` are the texts that thiserror
-- generates for the errors.
pub record World (W : Type 0) : Type 0 where
  pub backup_save : Text → Option Text → W → Result MikrotikError (Unit {0}) × W
  pub list_files : W → Result MikrotikError (List (Option Text)) × W
  pub export_rsc : Text → W → Result MikrotikError (Unit {0}) × W
  pub delete_file : Text → W → Result MikrotikError (Unit {0}) × W
  pub fetch_file : Text → ℕ → Text → Text → Text → W → Result BackupError (List ℕ) × W
  pub write : Text → List ℕ → W → Result Text (Unit {0}) × W
  pub sleep : ℕ → W → W
  pub now : W → ℕ
  pub path_exists : Text → W → Bool
  pub is_dir : Text → W → Bool
  pub canonicalize : Text → W → Result Text Text
  pub join : Text → Text → Text
  pub parent : Text → Option Text
  pub file_name : Text → Option Text
  pub to_string : BackupError → Text
  pub show_error : MikrotikError → Text

-- The calls that reach the router or change the disk, with their answers.
pub data Call : Type 0 where
  saved : Text → Option Text → Result BackupError (Unit {0}) → Call
  listed : Result BackupError (List (Option Text)) → Call
  exported : Text → Result BackupError (Unit {0}) → Call
  deleted : Text → Result MikrotikError (Unit {0}) → Call
  fetched :
      (host : Text) (port : ℕ) (username password remote : Text)
      → Result BackupError (List ℕ)
      → Call
  wrote : Text → List ℕ → Result BackupError (Unit {0}) → Call
  slept : ℕ → Call
