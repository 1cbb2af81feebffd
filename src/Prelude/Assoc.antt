-- ===== src/Prelude/Assoc.antt =====
-- A `HashMap` with integer keys, as an association list in which a key stands once. An id is only
-- ever compared, so i64 ids are natural numbers here.
use verkkokyyla.Prelude.Lists.{length}
use verkkokyyla.Prelude.Tests.{◌==◌, if◌then◌else◌}
use Prim.Native.Nat.{ℕ, ◌+◌, ◌≤◌}
use mathlib.Core.Bool.{Bool, true, false}
use mathlib.Core.List.{List, [], ◌∷◌}
use mathlib.Core.Option.{Option, none, some}
use mathlib.Core.Path.{◌≡◌, refl}
use native.Mathlib.Omega.{arith}

module _ {ℓ} {V : Type ℓ} where
  abbrev pub get : ℕ → List (ℕ × V) → Option V
  get k [] = none
  get k ((j, v) ∷ m) = if j == k then some v else get k m

  abbrev pub contains_key : ℕ → List (ℕ × V) → Bool
  contains_key k [] = false
  contains_key k ((j, v) ∷ m) = if j == k then true else contains_key k m

  abbrev pub insert : ℕ → V → List (ℕ × V) → List (ℕ × V)
  insert k v [] = (k, v) ∷ []
  insert k v ((j, w) ∷ m) = if j == k then (k, v) ∷ m else (j, w) ∷ insert k v m

  abbrev pub remove : ℕ → List (ℕ × V) → List (ℕ × V)
  remove k [] = []
  remove k ((j, v) ∷ m) = if j == k then m else (j, v) ∷ remove k m

  abbrev pub retain : (V → Bool) → List (ℕ × V) → List (ℕ × V)
  retain keep [] = []
  retain keep ((j, v) ∷ m) = if keep v then (j, v) ∷ retain keep m else retain keep m

  -- No key stands twice.
  abbrev pub HasDistinctKeys : List (ℕ × V) → Type 0
  HasDistinctKeys [] = Unit
  HasDistinctKeys ((k, v) ∷ m) = (contains_key k m ≡ false) × HasDistinctKeys m

  pub get-insert :
      (k j : ℕ) (v : V) (m : List (ℕ × V))
      → get j (insert k v m) ≡ (if k == j then some v else get j m)
  get-insert k j v [] = refl
  get-insert k j v ((i, w) ∷ m) = ground (arith, get-insert k j v m)

  pub contains_key-insert :
      (k j : ℕ) (v : V) (m : List (ℕ × V))
      → contains_key j (insert k v m) ≡ (if k == j then true else contains_key j m)
  contains_key-insert k j v [] = refl
  contains_key-insert k j v ((i, w) ∷ m) = ground (arith, contains_key-insert k j v m)

  pub get_absent : (k : ℕ) (m : List (ℕ × V)) → contains_key k m ≡ false → get k m ≡ none
  get_absent k [] h = refl
  get_absent k ((j, v) ∷ m) h = ground (arith, get_absent k m)

  pub get_present : (k : ℕ) (v : V) (m : List (ℕ × V)) → get k m ≡ some v → contains_key k m ≡ true
  get_present k v [] h = cc
  get_present k v ((j, w) ∷ m) h = ground (arith, get_present k v m, h)

  pub get-remove :
      (k j : ℕ) (m : List (ℕ × V))
      → HasDistinctKeys m
      → get j (remove k m) ≡ (if k == j then none else get j m)
  get-remove k j [] d = ground arith
  get-remove k j ((i, w) ∷ m) d = ground (arith, get-remove k j m d.1, get_absent k m)

  pub contains_key-remove :
      (k j : ℕ) (m : List (ℕ × V))
      → HasDistinctKeys m
      → contains_key j (remove k m) ≡ (if k == j then false else contains_key j m)
  contains_key-remove k j [] d = ground arith
  contains_key-remove k j ((i, w) ∷ m) d = ground (arith, contains_key-remove k j m d.1)

  pub insert-HasDistinctKeys :
      (k : ℕ) (v : V) (m : List (ℕ × V)) → HasDistinctKeys m → HasDistinctKeys (insert k v m)
  insert-HasDistinctKeys k v [] d = (refl, tt)
  insert-HasDistinctKeys k v ((j, w) ∷ m) d =
      ground (arith, insert-HasDistinctKeys k v m d.1, contains_key-insert k j v m)

  pub remove-HasDistinctKeys :
      (k : ℕ) (m : List (ℕ × V)) → HasDistinctKeys m → HasDistinctKeys (remove k m)
  remove-HasDistinctKeys k [] d = tt
  remove-HasDistinctKeys k ((j, w) ∷ m) d =
      ground (arith, remove-HasDistinctKeys k m d.1, contains_key-remove k j m d.1)

  pub retain_absent :
      (keep : V → Bool) (k : ℕ) (m : List (ℕ × V))
      → contains_key k m ≡ false
      → contains_key k (retain keep m) ≡ false
  retain_absent keep k [] h = refl
  retain_absent keep k ((j, v) ∷ m) h = ground (arith, retain_absent keep k m)

  pub retain-HasDistinctKeys :
      (keep : V → Bool) (m : List (ℕ × V)) → HasDistinctKeys m → HasDistinctKeys (retain keep m)
  retain-HasDistinctKeys keep [] d = tt
  retain-HasDistinctKeys keep ((j, v) ∷ m) d =
      ground (arith, retain-HasDistinctKeys keep m d.1, retain_absent keep j m)

  pub length-remove_le : (k : ℕ) (m : List (ℕ × V)) → length (remove k m) ≤ length m
  length-remove_le k [] = omega arith
  length-remove_le k ((j, v) ∷ m) = ground (arith, length-remove_le k m)

  pub length-retain_le : (keep : V → Bool) (m : List (ℕ × V)) → length (retain keep m) ≤ length m
  length-retain_le keep [] = omega arith
  length-retain_le keep ((j, v) ∷ m) = ground (arith, length-retain_le keep m)

  pub length-insert_absent :
      (k : ℕ) (v : V) (m : List (ℕ × V))
      → contains_key k m ≡ false
      → length (insert k v m) ≡ length m + 1
  length-insert_absent k v [] h = omega arith
  length-insert_absent k v ((j, w) ∷ m) h = ground (arith, length-insert_absent k v m)
