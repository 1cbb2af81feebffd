-- ===== src/Tests/Diff.antt =====
-- Tests of the difference of two exports.
use verkkokyyla.Mikrotik.Backup.Diff.Optimal.{KeepsMost, diff_lines-KeepsMost}
use verkkokyyla.Mikrotik.Backup.Diff.Sides.{HasSides, diff_lines-HasSides}
use verkkokyyla.Mikrotik.Backup.Diff.{
  same, add, remove, line_of, row_of, trim_start, trim_end, table_of, walk, diff_middle, diff_of,
  lines_from, lines_of, diff_lines,
}
use verkkokyyla.Prelude.Text.{Text}
use verkkokyyla.Prelude.{◌≡◌, refl, [], ◌∷◌, some, arith}

abbrev old_export : Text
old_export = 97 ∷ 13 ∷ 10 ∷ 98 ∷ 10 ∷ 99 ∷ 10 ∷ 120 ∷ 10 ∷ []

abbrev new_export : Text
new_export = 97 ∷ 10 ∷ 99 ∷ 10 ∷ 100 ∷ 10 ∷ 120 ∷ []

diff_example :
    diff_lines old_export new_export
    ≡ some (
        line_of same (97 ∷ [])
        ∷ line_of remove (98 ∷ [])
        ∷ line_of same (99 ∷ [])
        ∷ line_of add (100 ∷ [])
        ∷ line_of same (120 ∷ [])
        ∷ [])
unfolding diff_lines diff_of diff_middle walk trim_start trim_end table_of row_of lines_of
    lines_from
diff_example = refl

diff_lines-HasSides_example :
    HasSides (lines_of old_export) (lines_of new_export) (diff_lines old_export new_export)
diff_lines-HasSides_example = diff_lines-HasSides old_export new_export

diff_lines-KeepsMost_example :
    KeepsMost (lines_of old_export) (lines_of new_export) (diff_lines old_export new_export)
unfolding lines_of lines_from
diff_lines-KeepsMost_example = diff_lines-KeepsMost old_export new_export (omega arith)
