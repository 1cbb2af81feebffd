-- ===== src/Opnsense/Backup/Revisions.antt =====
-- The order of the revisions: the first one after the sort is a newest one.
use verkkokyyla.Opnsense.Backup.Checks.{text_lt, time_lt, insert, sort_newest_first}
use verkkokyyla.Opnsense.Backup.Run.{find_revision, select}
use verkkokyyla.Opnsense.Backup.{OpnsenseRevisionDto, Device}
use verkkokyyla.Prelude.Effects.{All}
use verkkokyyla.Prelude.Results.{ok}
use verkkokyyla.Prelude.Text.{Text, text_eq, text_eq-eq}
use verkkokyyla.Prelude.{
  ◌≡◌, ◌≢◌, refl, subst, true, false, List, [], ◌∷◌, Option, none, some, arith, if◌then◌else◌,
  Bool-cases, inl, inr,
}

text_lt_asym : (s t : Text) → text_lt s t ≡ true → text_lt t s ≡ false
text_lt_asym [] [] e = refl
text_lt_asym [] (d ∷ t) e = refl
text_lt_asym (c ∷ s) [] e = absurd (cc e)
text_lt_asym (c ∷ s) (d ∷ t) e = ground (arith, e, text_lt_asym s t)

text_lt_irrefl : (s : Text) → text_lt s s ≡ false
text_lt_irrefl [] = refl
text_lt_irrefl (c ∷ s) = ground (arith, text_lt_irrefl s)

-- What is not before a text is not before a text that this one is not before.
text_lt_trans : (s t u : Text) → text_lt s t ≡ false → text_lt t u ≡ false → text_lt s u ≡ false
text_lt_trans [] [] u e f = f
text_lt_trans [] (d ∷ t) u e f = absurd (cc e)
text_lt_trans (c ∷ s) t [] e f = refl
text_lt_trans (c ∷ s) [] (x ∷ u) e f = absurd (cc f)
text_lt_trans (c ∷ s) (d ∷ t) (x ∷ u) e f = ground (arith, e, f, text_lt_trans s t u)

time_lt_asym : (a b : Option Text) → time_lt a b ≡ true → time_lt b a ≡ false
time_lt_asym none none e = refl
time_lt_asym none (some b) e = refl
time_lt_asym (some a) none e = absurd (cc e)
time_lt_asym (some a) (some b) e = text_lt_asym a b e

time_lt_irrefl : (a : Option Text) → time_lt a a ≡ false
time_lt_irrefl none = refl
time_lt_irrefl (some a) = text_lt_irrefl a

time_lt_trans :
    (a b c : Option Text) → time_lt a b ≡ false → time_lt b c ≡ false → time_lt a c ≡ false
time_lt_trans none none c e f = f
time_lt_trans none (some b) c e f = absurd (cc e)
time_lt_trans (some a) b none e f = refl
time_lt_trans (some a) none (some c) e f = absurd (cc f)
time_lt_trans (some a) (some b) (some c) e f = text_lt_trans a b c e f

-- No revision of the list is newer.
abbrev pub IsNewest : OpnsenseRevisionDto → List OpnsenseRevisionDto → Type 0
IsNewest r rs = All (λ s. time_lt r.time_iso s.time_iso ≡ false) rs

pub data IsIn : OpnsenseRevisionDto → List OpnsenseRevisionDto → Type 0 where
  here : (r : OpnsenseRevisionDto) (rs : List OpnsenseRevisionDto) → IsIn r (r ∷ rs)
  there :
      {r : OpnsenseRevisionDto} {rs : List OpnsenseRevisionDto} (s : OpnsenseRevisionDto)
      → IsIn r rs
      → IsIn r (s ∷ rs)

-- The first revision of a list.
abbrev pub IsFirst : OpnsenseRevisionDto → List OpnsenseRevisionDto → Type 0
IsFirst r [] = ⊥
IsFirst r (s ∷ rs) = s ≡ r

IsNewest-trans :
    (r s : OpnsenseRevisionDto) (rs : List OpnsenseRevisionDto)
    → time_lt r.time_iso s.time_iso ≡ false
    → IsNewest s rs
    → IsNewest r rs
IsNewest-trans r s [] e h = tt
IsNewest-trans r s (x ∷ rs) e (f, h) =
    (time_lt_trans r.time_iso s.time_iso x.time_iso e f, IsNewest-trans r s rs e h)

IsIn-cons :
    {x : OpnsenseRevisionDto} (s : OpnsenseRevisionDto) {xs ys : List OpnsenseRevisionDto}
    → (IsIn x xs → IsIn x ys)
    → IsIn x (s ∷ xs)
    → IsIn x (s ∷ ys)
IsIn-cons s {ys = ys} f (here _ _) = here s ys
IsIn-cons s f (there _ h) = there s (f h)

IsIn-swap :
    {x : OpnsenseRevisionDto} (s r : OpnsenseRevisionDto) {rs : List OpnsenseRevisionDto}
    → IsIn x (s ∷ r ∷ rs)
    → IsIn x (r ∷ s ∷ rs)
IsIn-swap s r {rs} (here _ _) = there r (here s rs)
IsIn-swap s r {rs} (there _ (here _ _)) = here r (s ∷ rs)
IsIn-swap s r (there _ (there _ h)) = there r (there s h)

insert-IsIn :
    (x r : OpnsenseRevisionDto) (rs : List OpnsenseRevisionDto)
    → IsIn x (insert r rs)
    → IsIn x (r ∷ rs)
insert-IsIn x r [] h = h
insert-IsIn x r (s ∷ rs) h = elim (Bool-cases (time_lt r.time_iso s.time_iso)) [
  | inl y ↦
      let g = subst (λ b. IsIn x (if b then s ∷ insert r rs else r ∷ s ∷ rs)) y h in
      IsIn-swap s r (IsIn-cons s (insert-IsIn x r rs) g)
  | inr n ↦ subst (λ b. IsIn x (if b then s ∷ insert r rs else r ∷ s ∷ rs)) n h
]

sort_newest_first-IsIn :
    (x : OpnsenseRevisionDto) (rs : List OpnsenseRevisionDto)
    → IsIn x (sort_newest_first rs)
    → IsIn x rs
sort_newest_first-IsIn x [] h = h
sort_newest_first-IsIn x (r ∷ rs) h =
    IsIn-cons r (sort_newest_first-IsIn x rs) (insert-IsIn x r (sort_newest_first rs) h)

insert-IsNewest :
    (x : OpnsenseRevisionDto) (sorted rs : List OpnsenseRevisionDto)
    → (sorted ≡ [] → rs ≡ [])
    → ((m : OpnsenseRevisionDto) → IsFirst m sorted → IsNewest m rs)
    → (r : OpnsenseRevisionDto) → IsFirst r (insert x sorted)
    → IsNewest r (x ∷ rs)
insert-IsNewest x [] rs f h r e =
    subst (λ q. IsNewest q (x ∷ rs)) e (rw (f refl) (time_lt_irrefl x.time_iso, tt))
insert-IsNewest x (s ∷ sorted) rs f h r e = elim (Bool-cases (time_lt x.time_iso s.time_iso)) [
  | inl y ↦
      let g = subst (λ b. IsFirst r (if b then s ∷ insert x sorted else x ∷ s ∷ sorted)) y e in
      subst (λ q. IsNewest q (x ∷ rs)) g (time_lt_asym x.time_iso s.time_iso y, h s refl)
  | inr n ↦
      let g = subst (λ b. IsFirst r (if b then s ∷ insert x sorted else x ∷ s ∷ sorted)) n e in
      subst (λ q. IsNewest q (x ∷ rs)) g
        (time_lt_irrefl x.time_iso, IsNewest-trans x s rs n (h s refl))
]

insert-cons : (x : OpnsenseRevisionDto) (rs : List OpnsenseRevisionDto) → insert x rs ≢ []
insert-cons x [] e = absurd (cc e)
insert-cons x (s ∷ rs) e = elim (Bool-cases (time_lt x.time_iso s.time_iso)) [
  | inl y ↦ absurd (cc (e, y))
  | inr n ↦ absurd (cc (e, n))
]

sort_newest_first-nil : (rs : List OpnsenseRevisionDto) → sort_newest_first rs ≡ [] → rs ≡ []
sort_newest_first-nil [] e = refl
sort_newest_first-nil (r ∷ rs) e = absurd (insert-cons r (sort_newest_first rs) e)

sort_newest_first-IsNewest :
    (rs : List OpnsenseRevisionDto) (r : OpnsenseRevisionDto)
    → IsFirst r (sort_newest_first rs)
    → IsNewest r rs
sort_newest_first-IsNewest [] r h = tt
sort_newest_first-IsNewest (x ∷ rs) r h =
    insert-IsNewest x (sort_newest_first rs) rs (sort_newest_first-nil rs)
      (sort_newest_first-IsNewest rs) r h

-- What a backup may take: the revision with the id that was asked for, or a newest one.
abbrev pub IsChoice : Option Text → OpnsenseRevisionDto → List OpnsenseRevisionDto → Type 0
IsChoice (some id) source rs = (source.id ≡ id) × IsIn source rs
IsChoice none source rs = IsNewest source rs × IsIn source rs

module _ {D P C A W : Type 0} (device : Device D P C A W) where
  find_revision-IsIn :
      (id : Text) (rs : List OpnsenseRevisionDto) (source : OpnsenseRevisionDto)
      → find_revision device id rs ≡ ok source
      → (source.id ≡ id) × IsIn source rs
  find_revision-IsIn id [] source e = absurd (cc e)
  find_revision-IsIn id (r ∷ rs) source e = elim (Bool-cases (text_eq r.id id)) [
    | inl y ↦
        let f : r ≡ source = cc (e, y) in
        subst (λ q. (q.id ≡ id) × IsIn q (r ∷ rs)) f (text_eq-eq r.id id y, here r rs)
    | inr n ↦ let (f, h) = find_revision-IsIn id rs source (cc (e, n)) in (f, there r h)
  ]

  pub select-IsChoice :
      (wanted : Option Text) (rs : List OpnsenseRevisionDto) (source : OpnsenseRevisionDto)
      → select device wanted (sort_newest_first rs) ≡ ok source
      → IsChoice wanted source rs
  select-IsChoice wanted rs source e =
      at wanted (sort_newest_first rs) (sort_newest_first-IsNewest rs source)
        (sort_newest_first-IsIn source rs) e
    where
      at :
          (wanted : Option Text) (sorted : List OpnsenseRevisionDto)
          → (IsFirst source sorted → IsNewest source rs)
          → (IsIn source sorted → IsIn source rs)
          → select device wanted sorted ≡ ok source
          → IsChoice wanted source rs
      at wanted [] f g e = absurd (cc e)
      at (some id) (r ∷ sorted) f g e =
          let (h, i) = find_revision-IsIn id (r ∷ sorted) source e in (h, g i)
      at none (r ∷ sorted) f g e =
          let same : r ≡ source = cc e in
          (f same, g (subst (λ q. IsIn q (r ∷ sorted)) same (here r sorted)))
