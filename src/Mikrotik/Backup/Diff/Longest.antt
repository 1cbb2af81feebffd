-- ===== src/Mikrotik/Backup/Diff/Longest.antt =====
-- A difference keeps as many lines as can be kept.
use mathlib.Core.Option
use verkkokyyla.Mikrotik.Backup.Diff.Subsequences.{skips, keeps, IsBest, IsSub-tail}
use verkkokyyla.Mikrotik.Backup.Diff.Table.{lcs, lcs_step, lcs_nil, nil_lcs, cell-table_of}
use verkkokyyla.Mikrotik.Backup.Diff.{
  Kind, same, add, remove, DiffLine, as_kind, table_of, cell, line_of, walk,
}
use verkkokyyla.Prelude.Text.{Text, text_eq, text_eq_refl}
use verkkokyyla.Prelude.{
  ℕ, zero, suc, ◌+◌, ◌*◌, ◌≤◌, ◌<◌, ◌≡◌, ◌∙◌, refl, ap, max, false, List, [], ◌∷◌, ◌++◌, Option,
  none, some, arith, length, drop, leb, Bool-cases, inl, inr,
}

-- Both lists begin with the same line, or with lines that differ.
heads_same-IsBest :
    (n : ℕ) (x y : Text) (old new : List Text)
    → IsBest n old new
    → IsBest (n + 1) (x ∷ old) (y ∷ new)
heads_same-IsBest n x y old new best [] sx sy = omega arith
heads_same-IsBest n x y old new best (z ∷ zs) sx sy =
    omega (arith, best zs (IsSub-tail sx) (IsSub-tail sy))

heads_differ-IsBest :
    (n m : ℕ) (x y : Text) (old new : List Text)
    → text_eq x y ≡ false
    → IsBest n old (y ∷ new)
    → IsBest m (x ∷ old) new
    → IsBest (max n m) (x ∷ old) (y ∷ new)
heads_differ-IsBest n m x y old new d down right zs (skips _ s) t = ground (arith, down zs s t)
heads_differ-IsBest n m x y old new d down right zs s (skips _ t) = ground (arith, right zs s t)
heads_differ-IsBest n m x y old new d down right (z ∷ zs) (keeps _ s) (keeps _ t) =
    absurd (cc (text_eq_refl z, d))

lcs_cons-IsBest :
    (x : Text) (old : List Text)
    → ((new : List Text) → IsBest (lcs old new) old new)
    → (new : List Text) → IsBest (lcs (x ∷ old) new) (x ∷ old) new
lcs_cons-IsBest x old best [] [] s t = omega arith
lcs_cons-IsBest x old best [] (_ ∷ _) s t = elim t [ ]
lcs_cons-IsBest x old best (y ∷ new) zs s t = elim (Bool-cases (text_eq x y)) [
  | inl e ↦
      rw (lcs_step x y old new, e) (heads_same-IsBest (lcs old new) x y old new (best new) zs s t)
  | inr d ↦
      rw (lcs_step x y old new, d)
        (heads_differ-IsBest (lcs old (y ∷ new)) (lcs (x ∷ old) new) x y old new d (best (y ∷ new))
          (lcs_cons-IsBest x old best new) zs s t)
]

pub lcs-IsBest : (old new : List Text) → IsBest (lcs old new) old new
lcs-IsBest [] new [] s t = omega arith
lcs-IsBest [] new (_ ∷ _) s t = elim s [ ]
lcs-IsBest (x ∷ old) new zs s t = lcs_cons-IsBest x old (lcs-IsBest old) new zs s t

-- How many lines a difference keeps.
abbrev of_kind : Kind → ℕ
of_kind same = 1
of_kind add = 0
of_kind remove = 0

abbrev pub kept : List DiffLine → ℕ
kept [] = 0
kept (l ∷ ls) = of_kind l.kind + kept ls

pub kept-append : (xs ys : List DiffLine) → kept (xs ++ ys) ≡ kept xs + kept ys
kept-append [] ys = omega arith
kept-append (x ∷ xs) ys = omega (arith, kept-append xs ys)

pub kept-as_kind :
    (k : Kind) (lines : List Text) → kept (as_kind k lines) ≡ of_kind k * length lines
kept-as_kind same [] = refl
kept-as_kind add [] = refl
kept-as_kind remove [] = refl
kept-as_kind same (l ∷ ls) = omega (arith, kept-as_kind same ls)
kept-as_kind add (l ∷ ls) = omega (arith, kept-as_kind add ls)
kept-as_kind remove (l ∷ ls) = omega (arith, kept-as_kind remove ls)

map-kept :
    (k : Kind) (t : Text) (o : Option (List DiffLine)) (n : ℕ)
    → Option.map kept o ≡ some n
    → Option.map kept (Option.map (λ ls. line_of k t ∷ ls) o) ≡ some (of_kind k + n)
map-kept k t none n e = cc
map-kept k t (some ls) n e = ap (λ o. Option.map (λ m. of_kind k + m) o) e

drop-cons :
    (i : ℕ) (lines : List Text) (x : Text) (xs : List Text)
    → x ∷ xs ≡ drop i lines
    → (xs ≡ drop (i + 1) lines) × (i + 1 ≤ length lines)
drop-cons zero [] x xs e = absurd cc
drop-cons (suc i) [] x xs e = absurd cc
drop-cons zero (l ∷ ls) x xs e = (cc, omega arith)
drop-cons (suc i) (l ∷ ls) x xs e =
    let (f, h) = drop-cons i ls x xs e in
    let s : suc i + 1 ≡ suc (i + 1) = omega arith in (rw s f, omega (arith, h))

pub walk-kept :
    (all_old all_new : List Text) (fuel i : ℕ) (old : List Text) (j : ℕ) (new : List Text)
    → length old + length new < fuel
    → old ≡ drop i all_old
    → new ≡ drop j all_new
    → Option.map kept (walk fuel (table_of all_old all_new) i old j new) ≡ some (lcs old new)
unfolding walk
walk-kept ao an zero i old j new h e f = absurd (omega (arith, h))
walk-kept ao an (suc fuel) i [] j new h e f =
    ap some (omega (arith, nil_lcs new, kept-as_kind add new))
walk-kept ao an (suc fuel) i (x ∷ old) j [] h e f =
    ap some (omega (arith, lcs_nil (x ∷ old), kept-as_kind remove (x ∷ old)))
walk-kept ao an (suc fuel) i (x ∷ old) j (y ∷ new) h e f =
    let (e', hi) = drop-cons i ao x old e in
    let (f', hj) = drop-cons j an y new f in
    let c : cell (table_of ao an) (i + 1) j ≡ lcs old (y ∷ new) =
      cell-table_of (i + 1) j ao an hi (omega (arith, hj)) ∙ rw (← e', ← f) refl in
    let d : cell (table_of ao an) i (j + 1) ≡ lcs (x ∷ old) new =
      cell-table_of i (j + 1) ao an (omega (arith, hi)) hj ∙ rw (← e, ← f') refl in
    elim (Bool-cases (text_eq x y)) [
      | inl eq ↦
          rw (lcs_step x y old new, eq)
            (map-kept same x (walk fuel (table_of ao an) (i + 1) old (j + 1) new) (lcs old new)
                (walk-kept ao an fuel (i + 1) old (j + 1) new (omega (arith, h)) e' f')
              ∙ ap some (omega arith))
      | inr ne ↦
          rw (lcs_step x y old new, ne)
            (elim (Bool-cases
              (leb (cell (table_of ao an) i (j + 1)) (cell (table_of ao an) (i + 1) j))) [
                | inl down ↦ rw down (
                    map-kept remove x (walk fuel (table_of ao an) (i + 1) old j (y ∷ new))
                      (lcs old (y ∷ new))
                      (walk-kept ao an fuel (i + 1) old j (y ∷ new) (omega (arith, h)) e' f)
                    ∙ ap some (ground (arith, c, d, down)))
                | inr right ↦ rw right (
                    map-kept add y (walk fuel (table_of ao an) i (x ∷ old) (j + 1) new)
                      (lcs (x ∷ old) new)
                      (walk-kept ao an fuel i (x ∷ old) (j + 1) new (omega (arith, h)) e f')
                    ∙ ap some (ground (arith, c, d, right)))
              ])
    ]
