-- ===== src/Opnsense/Backup/Checks.antt =====
-- opnsense/backup.rs: the checks of the passphrase, of a revision's id and of a downloaded
-- configuration, and the order of the revisions.
use verkkokyyla.Backup.Filename as Filename
use verkkokyyla.Backup.Filename.{InvalidBackupName, invalid_backup_name}
use verkkokyyla.Opnsense.Backup.{
  OpnsenseBackupError, invalid_name, passphrase_blank, passphrase_weak, invalid_config,
  OpnsenseRevisionDto, Device,
}
use verkkokyyla.Prelude.Results.{Result, ok, err, map_err}
use verkkokyyla.Prelude.Text.{Text, codes, text_eq, strip_prefix, is_digit}
use verkkokyyla.Prelude.{
  ℕ, ◌+◌, ◌-◌, Bool, true, false, ◌||◌, ◌&&◌, not, List, [], ◌∷◌, ◌++◌, map, Option, none, some,
  length, drop, take, all, ltb, leb, ◌==◌, if◌then◌else◌,
}

-- `Iterator::any`.
abbrev pub any : (ℕ → Bool) → Text → Bool
any p [] = false
any p (c ∷ cs) = p c || any p cs

-- `char::is_whitespace`: the characters of Unicode's property White_Space.
unfoldable pub is_whitespace : ℕ → Bool
is_whitespace c =
    leb 9 c && leb c 13
    || c == 32
    || c == 133
    || c == 160
    || c == 5760
    || leb 8192 c && leb c 8202
    || c == 8232
    || c == 8233
    || c == 8239
    || c == 8287
    || c == 12288

abbrev pub is_lowercase : ℕ → Bool
is_lowercase c = leb b'a' c && leb c b'z'

abbrev pub is_uppercase : ℕ → Bool
is_uppercase c = leb b'A' c && leb c b'Z'

abbrev pub one_if : Bool → ℕ
one_if true = 1
one_if false = 0

-- What follows leading white space.
abbrev pub trim_start : Text → Text
trim_start [] = []
trim_start (c ∷ cs) = if is_whitespace c then trim_start cs else c ∷ cs

-- `str::strip_suffix`.
abbrev pub strip_suffix : Text → Text → Option Text
strip_suffix suffix s =
    let n = length s - length suffix in
    if leb (length suffix) (length s) && text_eq (drop n s) suffix then some (take n s) else none

abbrev pub is_id_char : ℕ → Bool
is_id_char c = Filename.is_alphanumeric c || c == b'.' || c == b'_' || c == b'-'

abbrev pub valid_stem : Option Text → Bool
valid_stem none = false
valid_stem (some []) = false
valid_stem (some (c ∷ cs)) = all is_id_char (c ∷ cs)

abbrev pub without_suffix : Option Text → Option Text
without_suffix none = none
without_suffix (some rest) = strip_suffix (codes ".xml") rest

unfoldable pub valid_revision_id : Text → Bool
valid_revision_id id = valid_stem (without_suffix (strip_prefix (codes "config-") id))

-- `to_lowercase` of the characters below 256.
abbrev pub to_lowercase : ℕ → ℕ
to_lowercase c = if is_uppercase c || leb 192 c && leb c 222 && not (c == 215) then c + 32 else c

abbrev pub starts_with : Text → Text → Bool
starts_with prefix s = is_some (strip_prefix prefix s)
  where
    is_some : Option Text → Bool
    is_some none = false
    is_some (some t) = true

-- Each byte stands for the character of that number.
unfoldable pub looks_like_html : List ℕ → Bool
looks_like_html bytes =
    let trimmed = trim_start (map to_lowercase (take 128 bytes)) in
    starts_with (codes "<!doctype") trimmed || starts_with (codes "<html") trimmed

-- `a.cmp(b)` is `Less`.
abbrev pub text_lt : Text → Text → Bool
text_lt [] [] = false
text_lt [] (d ∷ t) = true
text_lt (c ∷ s) [] = false
text_lt (c ∷ s) (d ∷ t) = ltb c d || c == d && text_lt s t

abbrev pub time_lt : Option Text → Option Text → Bool
time_lt none none = false
time_lt none (some b) = true
time_lt (some a) none = false
time_lt (some a) (some b) = text_lt a b

-- Before the first revision that is not newer: the sort is stable.
abbrev pub insert : OpnsenseRevisionDto → List OpnsenseRevisionDto → List OpnsenseRevisionDto
insert r [] = r ∷ []
insert r (s ∷ rs) = if time_lt r.time_iso s.time_iso then s ∷ insert r rs else r ∷ s ∷ rs

abbrev pub sort_newest_first : List OpnsenseRevisionDto → List OpnsenseRevisionDto
sort_newest_first [] = []
sort_newest_first (r ∷ rs) = insert r (sort_newest_first rs)

module _ {D : Type 0} where
  abbrev offending : InvalidBackupName → OpnsenseBackupError D
  offending (invalid_backup_name name) = invalid_name name

  unfoldable pub validate_backup_name : Text → Result (OpnsenseBackupError D) (Unit {0})
  validate_backup_name name = map_err offending (Filename.validate_backup_name name)

  module _ {P C A W : Type 0} (device : Device D P C A W) where
    -- How many kinds of characters there are: lower case, upper case, digits and the others.
    abbrev pub class_count : Text → ℕ
    class_count s =
        one_if (any is_lowercase s)
        + one_if (any is_uppercase s)
        + one_if (any is_digit s)
        + one_if (any (λ c. not (device.is_letter_or_digit c)) s)

    unfoldable pub validate_passphrase : Text → Result (OpnsenseBackupError D) (Unit {0})
    validate_passphrase passphrase =
        if all is_whitespace passphrase
        then err passphrase_blank
        else if ltb (length passphrase) 12 || ltb (class_count passphrase) 2
        then err passphrase_weak
        else ok tt

    abbrev pub check_root : Result Text Text → Result (OpnsenseBackupError D) (Unit {0})
    check_root (err e) = err (invalid_config (codes "XML parse failed: " ++ e))
    check_root (ok root) =
        if text_eq root (codes "opnsense")
        then ok tt
        else err (
            invalid_config
              (codes "root element is " ++ device.debug root ++ codes ", expected \"opnsense\""))

    abbrev pub check_text : Option Text → Result (OpnsenseBackupError D) (Unit {0})
    check_text none = err (invalid_config (codes "the bytes are not valid UTF-8"))
    check_text (some text) = check_root (device.root_element text)

    unfoldable pub validate_config_xml : List ℕ → Result (OpnsenseBackupError D) (Unit {0})
    validate_config_xml [] = err (invalid_config (codes "the download was empty"))
    validate_config_xml (b ∷ bs) =
        if looks_like_html (b ∷ bs)
        then err (invalid_config (codes "the response looks like an HTML error page, not XML"))
        else check_text (device.from_utf8 (b ∷ bs))
