-- ===== src/Opnsense/Terminal.antt =====
-- opnsense/terminal.rs: terminals over SSH. This file is the connection, up to the shell, with what
-- leaves the application on the way; Terminal/Slots is the table of terminals. A fingerprint and a
-- host are texts; what the server, the database and the SSH library answer is the record `Answers`.
pub mod HostKey
pub mod Slots
use verkkokyyla.Prelude.Int.{ℤ, pos, negsuc}
use verkkokyyla.Prelude.Results.{Result, ok, err}
use verkkokyyla.Prelude.Text.{Text, text_eq}
use verkkokyyla.Prelude.{
  ℕ, Bool, true, false, List, [], ◌∷◌, ◌++◌, Option, none, some, leb, if◌then◌else◌,
}

-- The errors of `OpnsenseManagerError` that the terminals return.
pub data TerminalError : Type 0 where
  too_many_terminals : TerminalError
  profile_not_found : TerminalError
  invalid_ssh_port : ℤ → TerminalError
  unknown_host_key : Text → TerminalError
  host_key_mismatch : Text → Text → TerminalError
  ssh_auth_failed : TerminalError
  connect_error : TerminalError
  db_error : TerminalError
  terminal_not_found : ℕ → TerminalError

pub data HostKeyOutcome : Type 0 where
  accepted : Text → HostKeyOutcome
  unknown : Text → HostKeyOutcome
  mismatch : Text → Text → HostKeyOutcome

abbrev pub against_confirmed : Option Text → Text → Bool × HostKeyOutcome
against_confirmed (some confirmed) fingerprint =
    if text_eq confirmed fingerprint
    then (true, accepted fingerprint)
    else (false, unknown fingerprint)
against_confirmed none fingerprint = (false, unknown fingerprint)

-- Whether the key is accepted, and the outcome that is recorded.
unfoldable pub check_server_key : Option Text → Option Text → Text → Bool × HostKeyOutcome
check_server_key (some pinned) confirmed fingerprint =
    if text_eq pinned fingerprint
    then (true, accepted fingerprint)
    else (false, mismatch pinned fingerprint)
check_server_key none confirmed fingerprint = against_confirmed confirmed fingerprint

abbrev pub host_key_error : Option HostKeyOutcome → Option TerminalError
host_key_error (some (unknown fingerprint)) = some (unknown_host_key fingerprint)
host_key_error (some (mismatch expected actual)) = some (host_key_mismatch expected actual)
host_key_error (some (accepted fingerprint)) = none
host_key_error none = none

abbrev pub accepted_fingerprint : Option HostKeyOutcome → Option Text
accepted_fingerprint (some (accepted fingerprint)) = some fingerprint
accepted_fingerprint (some (unknown fingerprint)) = none
accepted_fingerprint (some (mismatch expected actual)) = none
accepted_fingerprint none = none

-- `u16::try_from`.
abbrev pub port_of : ℤ → Result TerminalError ℕ
port_of (pos n) = if leb n 65535 then ok n else err (invalid_ssh_port (pos n))
port_of (negsuc n) = err (invalid_ssh_port (negsuc n))

-- The columns of a profile that a terminal reads.
pub record Profile : Type 0 where
  pub ssh_port : ℤ
  pub ssh_host_key : Option Text

pub data Auth : Type 0 where
  auth_error rejected success : Auth

-- `presented` is the key that the server shows, none when the connection fails before; `handshake`
-- is the success of the rest of it.
pub record Answers : Type 0 where
  pub profile : Option Profile
  pub presented : Option Text
  pub handshake : Bool
  pub auth : Auth
  pub pin_stored : Bool
  pub channel_opened : Bool
  pub pty_granted : Bool
  pub shell_granted : Bool

-- What leaves the application, and the write of the pin.
pub data Effect : Type 0 where
  send_password : Effect
  set_ssh_host_key : Text → Effect

-- A step that may have effects and may fail.
abbrev pub Attempt : Type 0 → Type 0
Attempt A = List Effect × Result TerminalError A

abbrev pub after_result :
    {A B : Type 0} → List Effect → Result TerminalError A → (A → Attempt B) → Attempt B
after_result log (ok a) next = (log ++ (next a).0, (next a).1)
after_result log (err e) next = (log, err e)

infixl 5 ◌>>=◌
abbrev pub ◌>>=◌ : {A B : Type 0} → Attempt A → (A → Attempt B) → Attempt B
m >>= next = after_result m.0 m.1 next

abbrev pub quiet : {A : Type 0} → Result TerminalError A → Attempt A
quiet r = ([], r)

abbrev pub require_profile : Option Profile → Result TerminalError Profile
require_profile (some p) = ok p
require_profile none = err profile_not_found

abbrev pub require : Bool → TerminalError → Result TerminalError (Unit {0})
require true e = ok tt
require false e = err e

abbrev pub rejected_or : Option HostKeyOutcome → TerminalError
rejected_or outcome = at (host_key_error outcome)
  where
    at : Option TerminalError → TerminalError
    at (some e) = e
    at none = connect_error

-- The handshake: it fails when the key is refused. The outcome that it records comes with it.
abbrev pub after_key : Bool → Bool × HostKeyOutcome → Result TerminalError (Option HostKeyOutcome)
after_key handshake (true, outcome) =
    if handshake then ok (some outcome) else err (rejected_or (some outcome))
after_key handshake (false, outcome) = err (rejected_or (some outcome))

unfoldable pub handshake_with :
    Option Text → Option Text → Option Text → Bool → Result TerminalError (Option HostKeyOutcome)
handshake_with pinned confirmed none handshake = err (rejected_or none)
handshake_with pinned confirmed (some fingerprint) handshake =
    after_key handshake (check_server_key pinned confirmed fingerprint)

unfoldable pub authenticate : Auth → Attempt (Unit {0})
authenticate auth_error = (send_password ∷ [], err connect_error)
authenticate rejected = (send_password ∷ [], err ssh_auth_failed)
authenticate success = (send_password ∷ [], ok tt)

abbrev pub store_pin : Option Text → Bool → Attempt (Unit {0})
store_pin (some fingerprint) stored = (set_ssh_host_key fingerprint ∷ [], require stored db_error)
store_pin none stored = quiet (ok tt)

unfoldable pub pin_first : Option Text → Option HostKeyOutcome → Bool → Attempt (Unit {0})
pin_first (some pinned) outcome stored = quiet (ok tt)
pin_first none outcome stored = store_pin (accepted_fingerprint outcome) stored

-- `connect_terminal` up to the shell.
unfoldable pub connect : Option Text → Answers → Attempt (Unit {0})
connect confirmed a = do
  profile ← quiet (require_profile a.profile)
  port ← quiet (port_of profile.ssh_port)
  outcome ← quiet (handshake_with profile.ssh_host_key confirmed a.presented a.handshake)
  logged_in ← authenticate a.auth
  pinned ← pin_first profile.ssh_host_key outcome a.pin_stored
  channel ← quiet (require a.channel_opened connect_error)
  pty ← quiet (require a.pty_granted connect_error)
  quiet (require a.shell_granted connect_error)
