-- ===== src/Mikrotik/Error.antt =====
-- mikrotik/error.rs: the errors of the REST client.
use verkkokyyla.Prelude.Text.{Text, codes, strip_prefix}
use verkkokyyla.Prelude.{ℕ, Bool, true, false, ◌||◌, ◌&&◌, [], ◌∷◌, Option, none, some, ◌==◌}

pub data MikrotikError : Type 0 where
  connect : Text → MikrotikError
  timeout : Text → MikrotikError
  unauthorized : MikrotikError
  forbidden : MikrotikError
  tls : Text → MikrotikError
  api : (status : ℕ) (message : Text) → MikrotikError
  parse : Text → MikrotikError
  file_not_found : Text → MikrotikError
  unsupported_version : Text → MikrotikError

abbrev is_some : Option Text → Bool
is_some none = false
is_some (some t) = true

-- `str::starts_with`.
abbrev pub begins : Text → Text → Bool
begins part s = is_some (strip_prefix part s)

-- `str::contains`.
abbrev pub contains : Text → Text → Bool
contains part [] = begins part []
contains part (c ∷ cs) = begins part (c ∷ cs) || contains part cs

-- A command that the router does not know. `lower` is `str::to_lowercase`.
unfoldable pub is_no_such_command : (Text → Text) → MikrotikError → Bool
is_no_such_command lower (api status message) =
    (status == 400 || status == 406) && contains (codes "no such command") (lower message)
is_no_such_command lower e = false
