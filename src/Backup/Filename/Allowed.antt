-- ===== src/Backup/Filename/Allowed.antt =====
-- The names that pass.
use verkkokyyla.Backup.Filename.{
  invalid_backup_name, char_len, byte_len, is_alphanumeric, is_allowed, all_allowed, stem_of,
  is_windows_device_name, validate_backup_name,
}
use verkkokyyla.Backup.Filename.Rule.{
  IsLetterOrDigit, IsNameCharacter, IsDevice, IsStem, IsStem-unique, alphanumeric_iff,
  all_allowed_iff, IsDevice-iff, stem_of-IsStem,
}
use verkkokyyla.Prelude.Effects.{All}
use verkkokyyla.Prelude.Results.{ok, err}
use verkkokyyla.Prelude.Text.{Text, is_digit}
use verkkokyyla.Prelude.{
  ℕ, ◌≤◌, ◌≡◌, ◌↔◌, refl, true, false, [], ◌∷◌, arith, length, ◌⊎◌, inl, inr, Bool-cases,
}

-- The rule: it begins with a letter or a digit, has at most 64 characters, all of them letters,
-- digits, dots, underscores and dashes, and what stands before its first dot is no device.
pub record IsBackupName (name : Text) : Type 0 where
  pub begins : (first : ℕ) × (others : Text) × (name ≡ first ∷ others) × IsLetterOrDigit first
  pub short : length name ≤ 64
  pub characters : All IsNameCharacter name
  pub plain : (stem : Text) → IsStem stem name → ¬ IsDevice stem

allowed-ascii : (c : ℕ) → is_allowed c ≡ true → char_len c ≡ 1
unfolding is_allowed is_alphanumeric is_digit
allowed-ascii c h = ground (arith, h)

byte_len-allowed : (cs : Text) → all_allowed cs ≡ true → byte_len cs ≡ length cs
byte_len-allowed [] h = refl
byte_len-allowed (c ∷ cs) h = ground (arith, h, allowed-ascii c, byte_len-allowed cs)

-- The four tests of the code, with characters in place of bytes.
abbrev Passes : ℕ → Text → Type 0
Passes first others =
    (is_alphanumeric first ≡ true)
    × (length (first ∷ others) ≤ 64)
    × (all_allowed (first ∷ others) ≡ true)
    × (is_windows_device_name (stem_of (first ∷ others)) ≡ false)

Passes-IsBackupName :
    (first : ℕ) (others : Text) → Passes first others → IsBackupName (first ∷ others)
Passes-IsBackupName first others (start, short, allowed, device) = record {
  begins = (first, others, refl, (alphanumeric_iff first).0 start);
  short = short;
  characters = (all_allowed_iff (first ∷ others)).0 allowed;
  plain = λ stem is_stem d.
      absurd (cc ((IsDevice-iff stem).1 d, IsStem-unique stem (first ∷ others) is_stem, device));
}

IsBackupName-Passes :
    (first : ℕ) (others : Text) → IsBackupName (first ∷ others) → Passes first others
IsBackupName-Passes first others v =
    let (c, cs, e, start) = v.begins in
    (
      (let h = (alphanumeric_iff c).1 start in cc (e, h)),
      v.short,
      (all_allowed_iff (first ∷ others)).1 v.characters,
      elim (Bool-cases (is_windows_device_name (stem_of (first ∷ others)))) [
        | inl y ↦ absurd (
            v.plain _ (stem_of-IsStem (first ∷ others))
              ((IsDevice-iff (stem_of (first ∷ others))).0 y))
        | inr n ↦ n
      ],
    )

validate_backup_name-Passes :
    (first : ℕ) (others : Text)
    → (validate_backup_name (first ∷ others) ≡ ok tt) ↔ Passes first others
unfolding validate_backup_name
validate_backup_name-Passes first others = ground (arith, byte_len-allowed (first ∷ others))

-- A name passes exactly if it begins with a letter or a digit, has at most 64 characters, all of them
-- ASCII letters, digits, dots, underscores and dashes, and the part before its first dot is, in any
-- case of the letters, none of CON, PRN, AUX, NUL, COM1 to COM9 and LPT1 to LPT9, although the code
-- counts bytes and not characters; every other name is refused with itself.
pub validate_backup_name-IsBackupName :
    (name : Text)
    → ((validate_backup_name name ≡ ok tt) ↔ IsBackupName name)
      × ((validate_backup_name name ≡ ok tt)
          ⊎ (validate_backup_name name ≡ err (invalid_backup_name name)))
unfolding validate_backup_name
validate_backup_name-IsBackupName [] = (((λ e. cc), λ v. absurd (cc (v.begins.2))), inr refl)
validate_backup_name-IsBackupName (first ∷ others) =
    let f = validate_backup_name-Passes first others in
    (
      (
        λ e. Passes-IsBackupName first others (f.0 e),
        λ v. f.1 (IsBackupName-Passes first others v),
      ),
      ground arith,
    )
