-- ===== src/Backup/Filename/Rule.antt =====
-- The rule for the names of backups, in terms of characters and of the names of devices.
use verkkokyyla.Backup.Filename.{
  is_alphanumeric, is_allowed, all_allowed, to_ascii_uppercase, stem_of, is_port_digit,
  is_windows_device_name,
}
use verkkokyyla.Prelude.Effects.{All}
use verkkokyyla.Prelude.Text.{Text, codes, text_eq, strip_prefix, is_digit}
use verkkokyyla.Prelude.{
  ℕ, ◌+◌, ◌-◌, ◌≤◌, ◌≡◌, ◌≢◌, ◌↔◌, refl, ap, ◌∙◌, Bool, true, false, ◌||◌, [], ◌∷◌, ◌++◌, map,
  arith, ◌==◌, Bool-cases, ◌⊎◌, inl, inr,
}

abbrev pub IsBetween : ℕ → ℕ → ℕ → Type 0
IsBetween lo hi c = (lo ≤ c) × (c ≤ hi)

abbrev pub IsLetterOrDigit : ℕ → Type 0
IsLetterOrDigit c = IsBetween b'0' b'9' c ⊎ IsBetween b'A' b'Z' c ⊎ IsBetween b'a' b'z' c

abbrev pub IsNameCharacter : ℕ → Type 0
IsNameCharacter c = IsLetterOrDigit c ⊎ (c ≡ b'.') ⊎ (c ≡ b'_') ⊎ (c ≡ b'-')

-- The second text, with some of its capital letters replaced by the small ones.
abbrev pub IsSpelling : Text → Text → Type 0
IsSpelling [] [] = Unit
IsSpelling (c ∷ cs) (d ∷ ds) = ((c ≡ d) ⊎ (IsBetween b'A' b'Z' d × (c ≡ d + 32))) × IsSpelling cs ds
IsSpelling _ _ = ⊥

-- The prefix and a number from 1 to 9.
abbrev pub IsPort : Text → Text → Type 0
IsPort prefix stem = (n : ℕ) × (1 ≤ n) × (n ≤ 9) × IsSpelling stem (prefix ++ (b'0' + n) ∷ [])

abbrev pub IsDevice : Text → Type 0
IsDevice stem =
    ((((IsSpelling stem (codes "CON") ⊎ IsSpelling stem (codes "PRN"))
          ⊎ IsSpelling stem (codes "AUX"))
        ⊎ IsSpelling stem (codes "NUL"))
      ⊎ IsPort (codes "COM") stem)
    ⊎ IsPort (codes "LPT") stem

-- The part of a name before its first dot.
abbrev pub IsStem : Text → Text → Type 0
IsStem stem name =
    All (λ c. c ≢ b'.') stem × ((name ≡ stem) ⊎ ((tail : Text) × (name ≡ stem ++ b'.' ∷ tail)))

pub alphanumeric_iff : (c : ℕ) → (is_alphanumeric c ≡ true) ↔ IsLetterOrDigit c
unfolding is_alphanumeric is_digit
alphanumeric_iff c = ground arith

allowed_iff : (c : ℕ) → (is_allowed c ≡ true) ↔ IsNameCharacter c
unfolding is_allowed
allowed_iff c = ground (arith, alphanumeric_iff c)

pub all_allowed_iff : (cs : Text) → (all_allowed cs ≡ true) ↔ All IsNameCharacter cs
all_allowed_iff [] = ((λ e. tt), λ v. refl)
all_allowed_iff (c ∷ cs) = ground (arith, allowed_iff c, all_allowed_iff cs)

-- A letter that no small letter stands for.
abbrev IsNoSmall : ℕ → Type 0
IsNoSmall d = d ≤ 96

upper_iff :
    (c d : ℕ)
    → IsNoSmall d
    → (to_ascii_uppercase c ≡ d) ↔ ((c ≡ d) ⊎ (IsBetween b'A' b'Z' d × (c ≡ d + 32)))
upper_iff c d small = ground arith

IsSpelling-iff :
    (s ds : Text)
    → All IsNoSmall ds
    → (text_eq (map to_ascii_uppercase s) ds ≡ true) ↔ IsSpelling s ds
IsSpelling-iff [] [] h = ((λ e. tt), λ v. refl)
IsSpelling-iff [] (d ∷ ds) h = ((λ e. cc), λ v. absurd v)
IsSpelling-iff (c ∷ s) [] h = ((λ e. cc), λ v. absurd v)
IsSpelling-iff (c ∷ s) (d ∷ ds) h = ground (arith, upper_iff c d h.0, IsSpelling-iff s ds h.1)

IsPort-iff :
    (prefix s : Text)
    → All IsNoSmall prefix
    → (is_port_digit (strip_prefix prefix (map to_ascii_uppercase s)) ≡ true) ↔ IsPort prefix s
unfolding is_digit
IsPort-iff [] [] h = ((λ e. cc), λ v. absurd v.3)
IsPort-iff [] (c ∷ []) h = (
  λ e. (c - 48, ground (arith, e), ground (arith, e), (ground (arith, e), tt)),
  λ v. ground (arith, v.1, v.2, v.3.0),
)
IsPort-iff [] (c ∷ d ∷ s) h = ((λ e. cc), λ v. absurd v.3.1)
IsPort-iff (p ∷ ps) [] h = ((λ e. cc), λ v. absurd v.3)
IsPort-iff (p ∷ ps) (c ∷ s) h =
    let ih = IsPort-iff ps s h.1 in
    let up = upper_iff c p h.0 in
    (
      λ e.
          let v : (to_ascii_uppercase c ≡ p) × IsPort ps s = ground (arith, e, ih.0) in
          (v.1.0, v.1.1, v.1.2, (up.0 v.0, v.1.3)),
      λ v. ground (arith, up.1 v.3.0, ih.1 (v.0, v.1, v.2, v.3.1)),
    )

or_iff : {P Q : Type 0} (a b : Bool) → (a ≡ true) ↔ P → (b ≡ true) ↔ Q → ((a || b) ≡ true) ↔ (P ⊎ Q)
or_iff true b f g = ((λ e. inl (f.0 refl)), λ v. refl)
or_iff false b f g = (λ e. inr (g.0 e), λ v. elim v [ inl p ↦ absurd (cc (f.1 p)) | inr q ↦ g.1 q ])

pub IsDevice-iff : (stem : Text) → (is_windows_device_name stem ≡ true) ↔ IsDevice stem
unfolding is_windows_device_name
IsDevice-iff stem =
    let spells = IsSpelling-iff stem in
    let con_prn =
      or_iff _ _ (spells (codes "CON") (omega arith)) (spells (codes "PRN") (omega arith)) in
    let aux = or_iff _ _ con_prn (spells (codes "AUX") (omega arith)) in
    let nul = or_iff _ _ aux (spells (codes "NUL") (omega arith)) in
    let com_port = or_iff _ _ nul (IsPort-iff (codes "COM") stem (omega arith)) in
    or_iff _ _ com_port (IsPort-iff (codes "LPT") stem (omega arith))

pub stem_of-IsStem : (name : Text) → IsStem (stem_of name) name
stem_of-IsStem [] = (tt, inl refl)
stem_of-IsStem (c ∷ cs) = elim (Bool-cases (c == b'.')) [
  | inl dot ↦ rw dot (tt, inr (cs, ap (λ d. d ∷ cs) (ground (arith, dot))))
  | inr other ↦ rw other (longer (stem_of-IsStem cs) other)
]
  where
    longer : IsStem (stem_of cs) cs → (c == b'.') ≡ false → IsStem (c ∷ stem_of cs) (c ∷ cs)
    longer (free, inl e) other = ((ground (arith, other), free), inl (ap (λ t. c ∷ t) e))
    longer (free, inr (tail, e)) other =
        ((ground (arith, other), free), inr (tail, ap (λ t. c ∷ t) e))

stem_whole : (stem : Text) → All (λ c. c ≢ b'.') stem → stem_of stem ≡ stem
stem_whole [] h = refl
stem_whole (c ∷ cs) h = ground (arith, h.0, stem_whole cs h.1)

stem_before : (stem tail : Text) → All (λ c. c ≢ b'.') stem → stem_of (stem ++ b'.' ∷ tail) ≡ stem
stem_before [] tail h = refl
stem_before (c ∷ cs) tail h = ground (arith, h.0, stem_before cs tail h.1)

pub IsStem-unique : (stem name : Text) → IsStem stem name → stem_of name ≡ stem
IsStem-unique stem name (free, inl e) = ap stem_of e ∙ stem_whole stem free
IsStem-unique stem name (free, inr (tail, e)) = ap stem_of e ∙ stem_before stem tail free
