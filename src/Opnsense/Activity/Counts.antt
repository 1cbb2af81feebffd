-- ===== src/Opnsense/Activity/Counts.antt =====
-- The registry implements a count of live sessions for each kind and profile.
use mathlib.Core.Option
use verkkokyyla.Opnsense.Activity.{Sessions, enter, exit, exit_at}
use verkkokyyla.Prelude.Assoc.{
  get, contains_key, insert, remove, HasDistinctKeys, get-insert, get-remove,
  insert-HasDistinctKeys, remove-HasDistinctKeys,
}
use verkkokyyla.Prelude.{
  ℕ, ◌+◌, ◌-◌, ◌≤◌, ◌≡◌, inl, inr, refl, [], ◌∷◌, Option, none, some, arith, ltb, ◌==◌,
  if◌then◌else◌, Bool-cases, Option-cases,
}

abbrev pub count : ℕ → Sessions → ℕ
count p m = Option.get_or (get p m) 0

-- No entry counts nothing.
abbrev pub IsCounted : Sessions → Type 0
IsCounted [] = Unit
IsCounted ((k, n) ∷ m) = (1 ≤ n) × IsCounted m

pub record IsRegistry (m : Sessions) : Type 0 where
  pub distinct : HasDistinctKeys m
  pub counted : IsCounted m

get_positive : (p n : ℕ) (m : Sessions) → IsCounted m → get p m ≡ some n → 1 ≤ n
get_positive p n [] c e = cc
get_positive p n ((k, i) ∷ m) c e = ground (arith, get_positive p n m c.1)

insert-IsCounted : (p n : ℕ) (m : Sessions) → 1 ≤ n → IsCounted m → IsCounted (insert p n m)
insert-IsCounted p n [] h c = (h, tt)
insert-IsCounted p n ((k, i) ∷ m) h c = ground (arith, insert-IsCounted p n m h c.1)

remove-IsCounted : (p : ℕ) (m : Sessions) → IsCounted m → IsCounted (remove p m)
remove-IsCounted p [] c = tt
remove-IsCounted p ((k, i) ∷ m) c = ground (arith, remove-IsCounted p m c.1)

pub enter-IsRegistry : (m : Sessions) (p : ℕ) → IsRegistry m → IsRegistry (enter m p)
unfolding enter
enter-IsRegistry m p v = record {
  distinct = insert-HasDistinctKeys p _ m v.distinct;
  counted = insert-IsCounted p _ m (omega arith) v.counted;
}

pub exit-IsRegistry : (m : Sessions) (p : ℕ) → IsRegistry m → IsRegistry (exit m p)
unfolding exit
exit-IsRegistry m p v = at (get p m)
  where
    at : (o : Option ℕ) → IsRegistry (exit_at m p o)
    at none = v
    at (some n) = elim (Bool-cases ((n - 1) == 0)) [
      | inl last ↦ rw last (record {
        distinct = remove-HasDistinctKeys p m v.distinct;
        counted = remove-IsCounted p m v.counted;
      })
      | inr more ↦ rw more (record {
        distinct = insert-HasDistinctKeys p _ m v.distinct;
        counted = insert-IsCounted p _ m (ground arith) v.counted;
      })
    ]

-- A profile has an entry exactly if its count is not 0.
pub contains_key_iff : (m : Sessions) (p : ℕ) → IsCounted m → contains_key p m ≡ ltb 0 (count p m)
contains_key_iff [] p c = refl
contains_key_iff ((k, n) ∷ m) p c = ground (arith, contains_key_iff m p c.1)

pub count-enter :
    (m : Sessions) (p q : ℕ) → count q (enter m p) ≡ (if p == q then count q m + 1 else count q m)
unfolding enter
count-enter m p q = ground (arith, get-insert p q (count p m + 1) m)

pub count-exit :
    (m : Sessions) (p q : ℕ)
    → IsRegistry m
    → count q (exit m p) ≡ (if p == q then count q m - 1 else count q m)
unfolding exit exit_at
count-exit m p q v = elim (Option-cases (get p m)) [
  | inl e ↦ rw (e, exit_at) (ground (arith, e))
  | inr (n, e) ↦
      rw (e, exit_at)
        (ground (
          arith,
          e,
          get_positive p n m v.counted e,
          get-insert p q (n - 1) m,
          get-remove p q m v.distinct,
        ))
]
