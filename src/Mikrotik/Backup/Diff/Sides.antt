-- ===== src/Mikrotik/Backup/Diff/Sides.antt =====
-- A difference says what both exports are.
use mathlib.Core.List.{append_assoc, append-nil}
use verkkokyyla.Mikrotik.Backup.Diff.Trim.{ends-AreEnds, trim_start-take, three_parts}
use verkkokyyla.Mikrotik.Backup.Diff.{
  Kind, same, add, remove, DiffLine, as_kind, lines_of, trim_start, trim_end, max_cells, table_of,
  cell, line_of, walk, diff_middle, slice, diff_of, diff_lines,
}
use verkkokyyla.Prelude.Text.{Text, text_eq, text_eq-eq}
use verkkokyyla.Prelude.{
  ℕ, zero, suc, ◌+◌, ◌*◌, ◌<◌, ◌≡◌, ◌∙◌, refl, ap, sym, List, [], ◌∷◌, ◌++◌, Option, some, arith,
  length, drop, take, ltb, leb, Bool-cases, inl, inr,
}

-- What a line of a difference says of the older export and of the newer one.
abbrev pub of_older : Kind → Text → List Text
of_older same text = text ∷ []
of_older add text = []
of_older remove text = text ∷ []

abbrev pub of_newer : Kind → Text → List Text
of_newer same text = text ∷ []
of_newer add text = text ∷ []
of_newer remove text = []

abbrev side : (Kind → Text → List Text) → List DiffLine → List Text
side pick [] = []
side pick (l ∷ ls) = pick l.kind l.text ++ side pick ls

-- The older export, without the lines that were added, and the newer one, without those removed.
abbrev pub older_side : List DiffLine → List Text
older_side = side of_older

abbrev pub newer_side : List DiffLine → List Text
newer_side = side of_newer

side-append :
    (pick : Kind → Text → List Text) (xs ys : List DiffLine)
    → side pick (xs ++ ys) ≡ side pick xs ++ side pick ys
side-append pick [] ys = refl
side-append pick (x ∷ xs) ys =
    rw (side-append pick xs ys)
      (sym (append_assoc (pick x.kind x.text) (side pick xs) (side pick ys)))

-- Lines of one kind are all of a side, or none of it.
side-kept :
    (pick : Kind → Text → List Text) (k : Kind)
    → ((t : Text) → pick k t ≡ t ∷ [])
    → (lines : List Text) → side pick (as_kind k lines) ≡ lines
side-kept pick k h [] = refl
side-kept pick k h (l ∷ ls) = rw (h l, side-kept pick k h ls) refl

side-dropped :
    (pick : Kind → Text → List Text) (k : Kind)
    → ((t : Text) → pick k t ≡ [])
    → (lines : List Text) → side pick (as_kind k lines) ≡ []
side-dropped pick k h [] = refl
side-dropped pick k h (l ∷ ls) = rw (h l, side-dropped pick k h ls) refl

-- A result that is there, with these two sides.
pub record HasSides (old new : List Text) (result : Option (List DiffLine)) : Type 0 where
  pub diff : List DiffLine
  pub found : result ≡ some diff
  pub older : older_side diff ≡ old
  pub newer : newer_side diff ≡ new

walk-HasSides :
    (fuel : ℕ) (table : List (List ℕ)) (i : ℕ) (old : List Text) (j : ℕ) (new : List Text)
    → length old + length new < fuel
    → HasSides old new (walk fuel table i old j new)
unfolding walk
walk-HasSides zero table i old j new h = absurd (omega (arith, h))
walk-HasSides (suc fuel) table i [] j new h = record {
  diff = as_kind add new;
  found = refl;
  older = side-dropped of_older add (λ t. refl) new;
  newer = side-kept of_newer add (λ t. refl) new;
}
walk-HasSides (suc fuel) table i (x ∷ old) j [] h = record {
  diff = as_kind remove (x ∷ old);
  found = refl;
  older = side-kept of_older remove (λ t. refl) (x ∷ old);
  newer = side-dropped of_newer remove (λ t. refl) (x ∷ old);
}
walk-HasSides (suc fuel) table i (x ∷ old) j (y ∷ new) h = elim (Bool-cases (text_eq x y)) [
  | inl e ↦
      let r = walk-HasSides fuel table (i + 1) old (j + 1) new (omega (arith, h)) in
      rw e (record {
        diff = line_of same x ∷ r.diff;
        found = rw r.found refl;
        older = ap (λ ls. x ∷ ls) r.older;
        newer = rw (text_eq-eq x y e) (ap (λ ls. y ∷ ls) r.newer);
      })
  | inr n ↦ rw n (elim (Bool-cases (leb (cell table i (j + 1)) (cell table (i + 1) j))) [
    | inl down ↦
        let r = walk-HasSides fuel table (i + 1) old j (y ∷ new) (omega (arith, h)) in
        rw down (record {
          diff = line_of remove x ∷ r.diff;
          found = rw r.found refl;
          older = ap (λ ls. x ∷ ls) r.older;
          newer = r.newer;
        })
    | inr right ↦
        let r = walk-HasSides fuel table i (x ∷ old) (j + 1) new (omega (arith, h)) in
        rw right (record {
          diff = line_of add y ∷ r.diff;
          found = rw r.found refl;
          older = r.older;
          newer = ap (λ ls. y ∷ ls) r.newer;
        })
  ])
]

pub diff_middle-HasSides : (old new : List Text) → HasSides old new (diff_middle old new)
unfolding diff_middle
diff_middle-HasSides old new = elim (Bool-cases (ltb max_cells (length old * length new))) [
  | inl large ↦ rw large (record {
    diff = as_kind remove old ++ as_kind add new;
    found = refl;
    older =
        side-append of_older (as_kind remove old) (as_kind add new)
        ∙ rw (side-kept of_older remove (λ t. refl) old, side-dropped of_older add (λ t. refl) new)
            (append-nil old);
    newer =
        side-append of_newer (as_kind remove old) (as_kind add new)
        ∙ rw (side-dropped of_newer remove (λ t. refl) old, side-kept of_newer add (λ t. refl) new)
            refl;
  })
  | inr small ↦
      rw small
        (walk-HasSides (length old + length new + 1) (table_of old new) 0 old 0 new (omega arith))
]

-- A middle between lines that stay.
around :
    (pick : Kind → Text → List Text)
    → ((t : Text) → pick same t ≡ t ∷ [])
    → (start rest lines : List Text) (middle : List DiffLine) → side pick middle ≡ lines
    → side pick (as_kind same start ++ middle ++ as_kind same rest) ≡ start ++ lines ++ rest
around pick h start rest lines middle e =
    rw
      (
        side-append pick (as_kind same start ++ middle) (as_kind same rest),
        side-append pick (as_kind same start) middle,
        side-kept pick same h start,
        side-kept pick same h rest,
        e,
      )
      refl

pub diff_of-HasSides : (old new : List Text) → HasSides old new (diff_of old new)
unfolding diff_of
diff_of-HasSides old new =
    let start = trim_start old new in
    let ends = trim_end old new start (length old) (length new) in
    let v = ends-AreEnds old new in
    let m = diff_middle-HasSides (slice start ends.0 old) (slice start ends.1 new) in
    record {
      diff = as_kind same (take start old) ++ m.diff ++ as_kind same (drop ends.0 old);
      found = rw m.found refl;
      older =
          around of_older (λ t. refl) (take start old) (drop ends.0 old) (slice start ends.0 old)
            m.diff m.older
          ∙ three_parts start ends.0 old v.old_after;
      newer =
          around of_newer (λ t. refl) (take start old) (drop ends.0 old) (slice start ends.1 new)
            m.diff m.newer
          ∙ rw (trim_start-take old new, v.same_rest) (three_parts start ends.1 new v.new_after);
    }

-- The difference of two exports is always there: without the lines that were added it is the lines of
-- the older export, and without the lines that were removed the lines of the newer one.
pub diff_lines-HasSides :
    (older newer : Text) → HasSides (lines_of older) (lines_of newer) (diff_lines older newer)
unfolding diff_lines
diff_lines-HasSides older newer = diff_of-HasSides (lines_of older) (lines_of newer)
