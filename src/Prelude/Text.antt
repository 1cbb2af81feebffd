-- ===== src/Prelude/Text.antt =====
-- Text as the list of its code points, and the decimal forms that `format!` writes and
-- `str::parse` reads for an unsigned integer with a largest value.
use Prim.Native.Char.{code}
use Prim.Native.Nat.{ℕ, zero, suc, ◌+◌, ◌-◌, ◌*◌, ◌/◌, ◌%◌, ◌≤◌, ◌<◌}
use Prim.Native.String.{String}
use mathlib.Core.Bool.{Bool, true, false, ◌&&◌}
use mathlib.Core.List.{List, [], ◌∷◌, ◌++◌, append_assoc, append-nil}
use mathlib.Core.Option.{Option, none, some}
use mathlib.Core.Path.{◌≡◌, refl, sym, ap, ◌∙◌}
use native.Mathlib.Omega.{arith}
use verkkokyyla.Prelude.Tests.{ltb, leb, ◌==◌, if◌then◌else◌, Bool-cases}
use mathlib.Core.Logic.{inl, inr}

abbrev pub Text : Type 0
Text = List ℕ

abbrev pub codes : String → Text
codes String.[] = []
codes (String.◌∷◌ c s) = code c ∷ codes s

-- `==` on strings.
abbrev pub text_eq : Text → Text → Bool
text_eq [] [] = true
text_eq (x ∷ xs) (y ∷ ys) = x == y && text_eq xs ys
text_eq _ _ = false

pub text_eq-eq : (s t : Text) → text_eq s t ≡ true → s ≡ t
text_eq-eq [] [] e = refl
text_eq-eq [] (d ∷ t) e = cc
text_eq-eq (c ∷ s) [] e = cc
text_eq-eq (c ∷ s) (d ∷ t) e = ground (arith, e, text_eq-eq s t)

pub text_eq_refl : (s : Text) → text_eq s s ≡ true
text_eq_refl [] = refl
text_eq_refl (c ∷ s) = ground (arith, text_eq_refl s)

-- `char::is_ascii_digit`.
unfoldable pub is_digit : ℕ → Bool
is_digit c = leb b'0' c && leb c b'9'

-- `str::strip_prefix`: what follows the prefix, if the text begins with it.
abbrev pub strip_prefix : Text → Text → Option Text
strip_prefix [] s = some s
strip_prefix (p ∷ ps) [] = none
strip_prefix (p ∷ ps) (c ∷ cs) = if p == c then strip_prefix ps cs else none

-- The decimal digits of a number below the fuel.
decimal_fuel : ℕ → ℕ → Text
decimal_fuel zero n = []
decimal_fuel (suc f) n =
    let rest = decimal_fuel f (n / 10) in
    if ltb n 10 then (b'0' + n) ∷ [] else rest ++ (b'0' + n % 10) ∷ []

-- `n.to_string()`.
unfoldable pub decimal : ℕ → Text
unfolding decimal_fuel
decimal n = decimal_fuel (suc n) n

-- The digits of `str::parse`; a value above the limit is refused.
unfoldable pub read_digits : ℕ → ℕ → Text → Option ℕ
unfolding is_digit
read_digits limit acc [] = some acc
read_digits limit acc (c ∷ cs) =
    let value = acc * 10 + (c - b'0') in
    let rest = read_digits limit value cs in if is_digit c && leb value limit then rest else none

-- `str::parse` for an unsigned type whose largest value is `limit`: one leading `+` is allowed, and
-- at least one digit is needed.
unfoldable pub parse_uint : ℕ → Text → Option ℕ
unfolding read_digits
parse_uint limit [] = none
parse_uint limit (c ∷ []) = if c == b'+' then none else read_digits limit 0 (c ∷ [])
parse_uint limit (c ∷ d ∷ cs) =
    if c == b'+' then read_digits limit 0 (d ∷ cs) else read_digits limit 0 (c ∷ d ∷ cs)

read_digits-decimal_fuel :
    (f n limit : ℕ) (rest : Text)
    → n < f
    → n ≤ limit
    → read_digits limit 0 (decimal_fuel f n ++ rest) ≡ read_digits limit n rest
unfolding decimal_fuel read_digits
read_digits-decimal_fuel zero n limit rest h k = elim h [ ]
read_digits-decimal_fuel (suc f) n limit rest h k = elim (Bool-cases (ltb n 10)) [
  | inl small ↦ rw small (ground arith)
  | inr large ↦ rw large (
      rw append_assoc
        (read_digits-decimal_fuel f (n / 10) limit _ (ground arith) (ground arith) ∙ ground arith))
]

-- The text of a number begins with a digit.
decimal_fuel_starts :
    (f n : ℕ) → n < f → (c : ℕ) × (cs : Text) × (decimal_fuel f n ≡ c ∷ cs) × ((c == b'+') ≡ false)
unfolding decimal_fuel
decimal_fuel_starts zero n h = elim h [ ]
decimal_fuel_starts (suc f) n h = elim (Bool-cases (ltb n 10)) [
  | inl small ↦ (b'0' + n, [], rw small, ground arith)
  | inr large ↦
      let (c, cs, e, digit) = decimal_fuel_starts f (n / 10) (ground arith) in
      (c, cs ++ (b'0' + n % 10) ∷ [], rw (large, e), digit)
]

parse_uint-digits :
    (limit c : ℕ) (cs s : Text)
    → s ≡ c ∷ cs
    → (c == b'+') ≡ false
    → parse_uint limit s ≡ read_digits limit 0 s
unfolding parse_uint
parse_uint-digits limit c cs [] e h = cc
parse_uint-digits limit c cs (x ∷ []) e h = ground arith
parse_uint-digits limit c cs (x ∷ d ∷ ds) e h = ground arith

-- What is written is read back.
pub parse_uint-decimal : (limit n : ℕ) → n ≤ limit → parse_uint limit (decimal n) ≡ some n
unfolding decimal read_digits
parse_uint-decimal limit n h =
    let (c, cs, e, plain) = decimal_fuel_starts (suc n) n (omega arith) in
    parse_uint-digits limit c cs (decimal_fuel (suc n) n) e plain
    ∙ ap (read_digits limit 0) (sym (append-nil (decimal_fuel (suc n) n)))
    ∙ read_digits-decimal_fuel (suc n) n limit [] (omega arith) h
