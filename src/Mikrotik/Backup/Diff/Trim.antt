-- ===== src/Mikrotik/Backup/Diff/Trim.antt =====
-- The lines that both exports begin and end with, and what is between.
use mathlib.Core.List.{append_assoc}
use verkkokyyla.Mikrotik.Backup.Diff.{trim_start, line_at, trim_end, slice}
use verkkokyyla.Prelude.Text.{Text, text_eq, text_eq-eq}
use verkkokyyla.Prelude.{
  ℕ, zero, suc, ◌+◌, ◌-◌, ◌≤◌, ◌<◌, ◌≡◌, ◌∙◌, refl, ap, sym, ◌&&◌, List, [], ◌∷◌, ◌++◌, arith,
  length, drop, take, append-take-drop, ltb, Bool-cases, inl, inr,
}

pub trim_start-take :
    (old new : List Text) → take (trim_start old new) old ≡ take (trim_start old new) new
unfolding trim_start
trim_start-take [] new = refl
trim_start-take (x ∷ old) [] = refl
trim_start-take (x ∷ old) (y ∷ new) = elim (Bool-cases (text_eq x y)) [
  | inl e ↦ rw (e, trim_start-take old new, text_eq-eq x y e) refl
  | inr n ↦ rw n refl
]

pub trim_start_le :
    (old new : List Text) → (trim_start old new ≤ length old) × (trim_start old new ≤ length new)
unfolding trim_start
trim_start_le [] new = omega arith
trim_start_le (x ∷ old) [] = omega arith
trim_start_le (x ∷ old) (y ∷ new) = ground (arith, trim_start_le old new)

drop-length : (xs : List Text) → drop (length xs) xs ≡ []
drop-length [] = refl
drop-length (x ∷ xs) = drop-length xs

drop-line_at : (n : ℕ) (xs : List Text) → n < length xs → drop n xs ≡ line_at xs n ∷ drop (suc n) xs
drop-line_at n [] h = absurd (omega (arith, h))
drop-line_at zero (x ∷ xs) h = refl
drop-line_at (suc n) (x ∷ xs) h = drop-line_at n xs (omega (arith, h))

-- What the ends are: after the start, and before lines that are the same.
pub record AreEnds (old new : List Text) (start : ℕ) (ends : ℕ × ℕ) : Type 0 where
  pub old_after : start ≤ ends.0
  pub new_after : start ≤ ends.1
  pub old_within : ends.0 ≤ length old
  pub new_within : ends.1 ≤ length new
  pub same_rest : drop ends.0 old ≡ drop ends.1 new

trim_end-AreEnds :
    (old new : List Text) (start a b : ℕ)
    → start ≤ a
    → start ≤ b
    → a ≤ length old
    → b ≤ length new
    → drop a old ≡ drop b new
    → AreEnds old new start (trim_end old new start a b)
unfolding trim_end
trim_end-AreEnds old new start zero b h k i j e = record {
  old_after = h;
  new_after = k;
  old_within = i;
  new_within = j;
  same_rest = e;
}
trim_end-AreEnds old new start (suc a) zero h k i j e = record {
  old_after = h;
  new_after = k;
  old_within = i;
  new_within = j;
  same_rest = e;
}
trim_end-AreEnds old new start (suc a) (suc b) h k i j e =
    elim (Bool-cases
      (ltb start (suc a) && ltb start (suc b) && text_eq (line_at old a) (line_at new b))) [
        | inl more ↦ rw more (
            trim_end-AreEnds old new start a b (ground (arith, more)) (ground (arith, more))
              (omega (arith, i)) (omega (arith, j))
              (drop-line_at a old (omega (arith, i))
                ∙ ap (λ l. l ∷ drop (suc a) old) (text_eq-eq _ _ (ground (arith, more)))
                ∙ ap (λ ls. line_at new b ∷ ls) e
                ∙ sym (drop-line_at b new (omega (arith, j)))))
        | inr last ↦
            rw last (record {
              old_after = h;
              new_after = k;
              old_within = i;
              new_within = j;
              same_rest = e;
            })
      ]

pub ends-AreEnds :
    (old new : List Text)
    → AreEnds old new
        (trim_start old new)
        (trim_end old new (trim_start old new) (length old) (length new))
ends-AreEnds old new =
    let (h, k) = trim_start_le old new in
    trim_end-AreEnds old new (trim_start old new) (length old) (length new) h k (omega arith)
      (omega arith) (drop-length old ∙ sym (drop-length new))

take-drop-at :
    (a b n : ℕ) (xs : List Text) → b ≡ a + n → take n (drop a xs) ++ drop b xs ≡ drop a xs
take-drop-at zero b n xs e = let f : b ≡ n = omega (arith, e) in rw f (append-take-drop n xs)
take-drop-at (suc a) zero n xs e = absurd (omega (arith, e))
take-drop-at (suc a) (suc b) zero [] e = refl
take-drop-at (suc a) (suc b) (suc n) [] e = refl
take-drop-at (suc a) (suc b) n (x ∷ xs) e = take-drop-at a b n xs (omega (arith, e))

slice-drop : (a b : ℕ) (xs : List Text) → a ≤ b → slice a b xs ++ drop b xs ≡ drop a xs
slice-drop a b xs h = take-drop-at a b (b - a) xs (omega (arith, h))

-- A list is its start, its middle and its rest.
pub three_parts :
    (start end : ℕ) (xs : List Text)
    → start ≤ end
    → take start xs ++ slice start end xs ++ drop end xs ≡ xs
three_parts start end xs h =
    append_assoc (take start xs) (slice start end xs) (drop end xs)
    ∙ ap (λ r. take start xs ++ r) (slice-drop start end xs h)
    ∙ append-take-drop start xs
