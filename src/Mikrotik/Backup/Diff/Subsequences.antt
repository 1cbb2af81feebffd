-- ===== src/Mikrotik/Backup/Diff/Subsequences.antt =====
-- Common subsequences, and a bound on their length.
use mathlib.Core.List.{append_assoc, append-nil}
use verkkokyyla.Prelude.Text.{Text}
use verkkokyyla.Prelude.{ℕ, ◌+◌, ◌≤◌, sym, subst, List, [], ◌∷◌, ◌++◌, arith, length}

-- The first list is a subsequence of the second one.
pub data IsSub : List Text → List Text → Type 0 where
  nothing : IsSub [] []
  skips : {zs xs : List Text} → (x : Text) → IsSub zs xs → IsSub zs (x ∷ xs)
  keeps : {zs xs : List Text} → (x : Text) → IsSub zs xs → IsSub (x ∷ zs) (x ∷ xs)

-- No common subsequence is longer.
abbrev pub IsBest : ℕ → List Text → List Text → Type 0
IsBest n xs ys = (zs : List Text) → IsSub zs xs → IsSub zs ys → length zs ≤ n

pub nil-IsSub : (xs : List Text) → IsSub [] xs
nil-IsSub [] = nothing
nil-IsSub (x ∷ xs) = skips x (nil-IsSub xs)

pub IsSub-uncons : {z : Text} {zs xs : List Text} → IsSub (z ∷ zs) xs → IsSub zs xs
IsSub-uncons (skips x s) = skips x (IsSub-uncons s)
IsSub-uncons (keeps x s) = skips x s

pub IsSub-tail : {z x : Text} {zs xs : List Text} → IsSub (z ∷ zs) (x ∷ xs) → IsSub zs xs
IsSub-tail (skips x s) = IsSub-uncons s
IsSub-tail (keeps x s) = s

init : List Text → List Text
init [] = []
init (z ∷ []) = []
init (z ∷ w ∷ ws) = z ∷ init (w ∷ ws)

length-init : (zs : List Text) → length zs ≤ length (init zs) + 1
unfolding init
length-init [] = omega arith
length-init (z ∷ []) = omega arith
length-init (z ∷ w ∷ ws) = omega (arith, length-init (w ∷ ws))

IsSub-init : (x : Text) (xs zs : List Text) → IsSub zs (xs ++ x ∷ []) → IsSub (init zs) xs
unfolding init
IsSub-init x [] zs (skips _ nothing) = nothing
IsSub-init x [] zs (keeps _ nothing) = nothing
IsSub-init x (a ∷ xs) zs (skips _ s) = skips a (IsSub-init x xs zs s)
IsSub-init x (a ∷ xs) (z ∷ []) s = nil-IsSub (a ∷ xs)
IsSub-init x (a ∷ xs) (z ∷ w ∷ ws) (keeps _ s) = keeps z (IsSub-init x xs (w ∷ ws) s)

prefix_one-IsBest :
    (n : ℕ) (x : Text) (xs ys : List Text) → IsBest n xs ys → IsBest (n + 1) (x ∷ xs) (x ∷ ys)
prefix_one-IsBest n x xs ys best [] s t = omega arith
prefix_one-IsBest n x xs ys best (z ∷ zs) s t = omega (arith, best zs (IsSub-tail s) (IsSub-tail t))

suffix_one-IsBest :
    (n : ℕ) (x : Text) (xs ys : List Text)
    → IsBest n xs ys
    → IsBest (n + 1) (xs ++ x ∷ []) (ys ++ x ∷ [])
suffix_one-IsBest n x xs ys best zs s t =
    omega (arith, best (init zs) (IsSub-init x xs zs s) (IsSub-init x ys zs t), length-init zs)

pub prefix-IsBest :
    (p : List Text) (n : ℕ) (xs ys : List Text)
    → IsBest n xs ys
    → IsBest (length p + n) (p ++ xs) (p ++ ys)
prefix-IsBest [] n xs ys best zs s t = omega (arith, best zs s t)
prefix-IsBest (x ∷ p) n xs ys best zs s t =
    let h =
      prefix_one-IsBest (length p + n) x (p ++ xs) (p ++ ys) (prefix-IsBest p n xs ys best) zs s
        t in
    omega (arith, h)

pub suffix-IsBest :
    (r : List Text) (n : ℕ) (xs ys : List Text)
    → IsBest n xs ys
    → IsBest (n + length r) (xs ++ r) (ys ++ r)
suffix-IsBest [] n xs ys best zs s t =
    omega (arith, best zs (subst (IsSub zs) (append-nil xs) s) (subst (IsSub zs) (append-nil ys) t))
suffix-IsBest (x ∷ r) n xs ys best zs s t =
    let h =
      suffix-IsBest r (n + 1) (xs ++ x ∷ []) (ys ++ x ∷ []) (suffix_one-IsBest n x xs ys best) zs
        (subst (IsSub zs) (sym (append_assoc xs (x ∷ []) r)) s)
        (subst (IsSub zs) (sym (append_assoc ys (x ∷ []) r)) t) in
    omega (arith, h)
