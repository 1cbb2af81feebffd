-- ===== src/Backup/Filename.antt =====
-- backup_filename.rs: the names under which a backup may be stored.
pub mod Rule
pub mod Allowed
use verkkokyyla.Prelude.Results.{Result, ok, err, ◌>>=◌}
use verkkokyyla.Prelude.Text.{Text, codes, text_eq, strip_prefix, is_digit}
use verkkokyyla.Prelude.{
  ℕ, ◌+◌, ◌-◌, Bool, true, false, not, ◌&&◌, ◌||◌, List, [], ◌∷◌, map, Option, none, some, length,
  ltb, leb, ◌==◌, if◌then◌else◌,
}

-- It carries the offending name.
pub data InvalidBackupName : Type 0 where
  invalid_backup_name : Text → InvalidBackupName

-- `str::len`: the bytes of the UTF-8 form.
abbrev pub char_len : ℕ → ℕ
char_len c = if ltb c 128 then 1 else if ltb c 2048 then 2 else if ltb c 65536 then 3 else 4

abbrev pub byte_len : Text → ℕ
byte_len [] = 0
byte_len (c ∷ cs) = char_len c + byte_len cs

-- `char::is_ascii_alphanumeric`.
unfoldable pub is_alphanumeric : ℕ → Bool
unfolding is_digit
is_alphanumeric c = is_digit c || leb b'A' c && leb c b'Z' || leb b'a' c && leb c b'z'

unfoldable pub is_allowed : ℕ → Bool
unfolding is_alphanumeric
is_allowed c = is_alphanumeric c || c == b'.' || c == b'_' || c == b'-'

abbrev pub all_allowed : Text → Bool
all_allowed [] = true
all_allowed (c ∷ cs) = is_allowed c && all_allowed cs

abbrev pub to_ascii_uppercase : ℕ → ℕ
to_ascii_uppercase c = if leb b'a' c && leb c b'z' then c - 32 else c

-- The text before the first dot.
abbrev pub stem_of : Text → Text
stem_of [] = []
stem_of (c ∷ cs) = if c == b'.' then [] else c ∷ stem_of cs

-- The rest after COM or LPT is one digit other than 0.
abbrev pub is_port_digit : Option Text → Bool
is_port_digit (some (d ∷ [])) = is_digit d && not (d == b'0')
is_port_digit _ = false

unfoldable pub is_windows_device_name : Text → Bool
is_windows_device_name stem =
    let upper = map to_ascii_uppercase stem in
    text_eq upper (codes "CON")
    || text_eq upper (codes "PRN")
    || text_eq upper (codes "AUX")
    || text_eq upper (codes "NUL")
    || is_port_digit (strip_prefix (codes "COM") upper)
    || is_port_digit (strip_prefix (codes "LPT") upper)

unfoldable pub validate_backup_name : Text → Result InvalidBackupName (Unit {0})
validate_backup_name [] = err (invalid_backup_name [])
validate_backup_name (first ∷ rest) =
    let name = first ∷ rest in
    if not (is_alphanumeric first && leb (byte_len name) 64 && all_allowed name)
    then err (invalid_backup_name name)
    else if is_windows_device_name (stem_of name)
    then err (invalid_backup_name name)
    else ok tt
