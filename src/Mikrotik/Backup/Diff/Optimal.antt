-- ===== src/Mikrotik/Backup/Diff/Optimal.antt =====
-- A difference keeps as many lines as any common subsequence has.
use verkkokyyla.Mikrotik.Backup.Diff.Longest.{
  kept, kept-append, kept-as_kind, walk-kept, lcs-IsBest,
}
use verkkokyyla.Mikrotik.Backup.Diff.Sides.{diff_middle-HasSides}
use verkkokyyla.Mikrotik.Backup.Diff.Subsequences.{IsSub, IsBest, prefix-IsBest, suffix-IsBest}
use verkkokyyla.Mikrotik.Backup.Diff.Table.{lcs}
use verkkokyyla.Mikrotik.Backup.Diff.Trim.{ends-AreEnds, trim_start-take, three_parts}
use verkkokyyla.Mikrotik.Backup.Diff.{
  same, DiffLine, as_kind, trim_start, trim_end, max_cells, diff_middle, slice, diff_of, lines_of,
  diff_lines,
}
use verkkokyyla.Prelude.Text.{Text}
use verkkokyyla.Prelude.{
  ℕ, ◌+◌, ◌*◌, ◌≤◌, ◌≡◌, refl, ap, sym, subst, false, List, ◌++◌, Option, some, arith, length,
  length-append, drop, take, ltb,
}
use mathlib.Core.Option
use native.Mathlib.Nat.{mul-le-mul_left}

diff_middle-kept :
    (old new : List Text)
    → length old * length new ≤ max_cells
    → Option.map kept (diff_middle old new) ≡ some (lcs old new)
unfolding diff_middle
diff_middle-kept old new h =
    let small : ltb max_cells (length old * length new) ≡ false = ground (arith, h) in
    rw small (walk-kept old new (length old + length new + 1) 0 old 0 new (omega arith) refl refl)

length-slice :
    (start end : ℕ) (xs : List Text) → start ≤ end → length (slice start end xs) ≤ length xs
length-slice start end xs h =
    let whole = ap length (three_parts start end xs h) in
    omega (
      arith,
      whole,
      length-append (take start xs ++ slice start end xs) (drop end xs),
      length-append (take start xs) (slice start end xs),
    )

le-mul : {a b c d n : ℕ} → a ≤ c → b ≤ d → c * d ≤ n → a * b ≤ n
le-mul {a = a} {d = d} h k l =
    let x = mul-le-mul_left a k in let y = mul-le-mul_left d h in grind (arith, x, y, l)

kept-around :
    (start rest : List Text) (middle : List DiffLine)
    → kept (as_kind same start ++ middle ++ as_kind same rest)
      ≡ length start + kept middle + length rest
kept-around start rest middle = omega (
  arith,
  kept-append (as_kind same start ++ middle) (as_kind same rest),
  kept-append (as_kind same start) middle,
  kept-as_kind same start,
  kept-as_kind same rest,
)

around-IsBest :
    (start older newer rest : List Text)
    → IsBest
        (length start + lcs older newer + length rest)
        (start ++ older ++ rest)
        (start ++ newer ++ rest)
around-IsBest start older newer rest =
    suffix-IsBest rest (length start + lcs older newer) (start ++ older) (start ++ newer)
      (prefix-IsBest start (lcs older newer) older newer (lcs-IsBest older newer))

-- A difference that is there, and of which no common subsequence keeps more lines.
pub record KeepsMost (old new : List Text) (result : Option (List DiffLine)) : Type 0 where
  pub diff : List DiffLine
  pub found : result ≡ some diff
  pub most : IsBest (kept diff) old new

pub diff_of-KeepsMost :
    (old new : List Text)
    → length old * length new ≤ max_cells
    → KeepsMost old new (diff_of old new)
unfolding diff_of
diff_of-KeepsMost old new h =
    let start = trim_start old new in
    let ends = trim_end old new start (length old) (length new) in
    let v = ends-AreEnds old new in
    let older = slice start ends.0 old in
    let newer = slice start ends.1 new in
    let m = diff_middle-HasSides older newer in
    let small : length older * length newer ≤ max_cells =
      le-mul (length-slice start ends.0 old v.old_after) (length-slice start ends.1 new v.new_after)
        h in
    let n : kept m.diff ≡ lcs older newer = cc (m.found, diff_middle-kept older newer small) in
    record {
      diff = as_kind same (take start old) ++ m.diff ++ as_kind same (drop ends.0 old);
      found = rw m.found refl;
      most = λ zs s t.
          let h =
            around-IsBest (take start old) older newer (drop ends.0 old) zs
              (subst (IsSub zs) (sym (three_parts start ends.0 old v.old_after)) s)
              (subst (IsSub zs)
                (sym (
                  rw (trim_start-take old new, v.same_rest)
                    (three_parts start ends.1 new v.new_after)))
                t) in
          omega (arith, h, n, kept-around (take start old) (drop ends.0 old) m.diff);
    }

-- The difference of two exports within the table's limit is there and keeps at least as many lines
-- as any common subsequence of the lines of both has, so that as few as possible are shown as changed.
pub diff_lines-KeepsMost :
    (older newer : Text)
    → length (lines_of older) * length (lines_of newer) ≤ max_cells
    → KeepsMost (lines_of older) (lines_of newer) (diff_lines older newer)
unfolding diff_lines
diff_lines-KeepsMost older newer h = diff_of-KeepsMost (lines_of older) (lines_of newer) h
