-- ===== src/Mikrotik/Backup/Diff.antt =====
-- mikrotik/backup.rs, `diff_lines`: the difference of two exports, line by line. The table of the
-- lengths of common subsequences is a list of rows. Its cells are u32 values, which the limit on the
-- table's size keeps far below their end.
pub mod Trim
pub mod Sides
pub mod Table
pub mod Longest
pub mod Subsequences
pub mod Optimal
use verkkokyyla.Prelude.Text.{Text, text_eq}
use verkkokyyla.Prelude.{
  ℕ, zero, suc, ◌+◌, ◌-◌, ◌*◌, max, Bool, true, false, ◌&&◌, List, [], ◌∷◌, ◌++◌, map, Option, none,
  some, length, drop, take, ltb, leb, ◌==◌, if◌then◌else◌,
}
use mathlib.Core.Option

pub data Kind : Type 0 where
  same add remove : Kind

pub record DiffLine : Type 0 where
  pub kind : Kind
  pub text : Text

abbrev pub as_kind : Kind → List Text → List DiffLine
as_kind k lines = map (λ line. record { kind = k; text = line }) lines

-- `str::lines`: a line ends at a line feed or at the end; a carriage return before a line feed is
-- not part of the line. `line` is what was read of the line at hand, and whether that is anything.
abbrev pub without_cr : Text → Text
without_cr [] = []
without_cr (c ∷ []) = if c == 13 then [] else c ∷ []
without_cr (c ∷ d ∷ cs) = c ∷ without_cr (d ∷ cs)

abbrev pub last_line : Text → List Text
last_line [] = []
last_line (c ∷ cs) = (c ∷ cs) ∷ []

unfoldable pub lines_from : Text → Text → List Text
lines_from line [] = last_line line
lines_from line (c ∷ cs) =
    if c == 10 then without_cr line ∷ lines_from [] cs else lines_from (line ++ c ∷ []) cs

unfoldable pub lines_of : Text → List Text
lines_of text = lines_from [] text

-- The loop that counts the lines that both begin with.
unfoldable pub trim_start : List Text → List Text → ℕ
trim_start [] new = 0
trim_start (x ∷ old) [] = 0
trim_start (x ∷ old) (y ∷ new) = if text_eq x y then suc (trim_start old new) else 0

abbrev pub line_at : List Text → ℕ → Text
line_at [] n = []
line_at (x ∷ xs) zero = x
line_at (x ∷ xs) (suc n) = line_at xs n

-- The loop that moves both ends back over the lines that both end with.
unfoldable pub trim_end : List Text → List Text → ℕ → ℕ → ℕ → ℕ × ℕ
trim_end old new start zero b = (zero, b)
trim_end old new start (suc a) zero = (suc a, zero)
trim_end old new start (suc a) (suc b) =
    let rest = trim_end old new start a b in
    if ltb start (suc a) && ltb start (suc b) && text_eq (line_at old a) (line_at new b)
    then rest
    else (suc a, suc b)

abbrev pub max_cells : ℕ
max_cells = 16_000_000

abbrev pub zeros : List Text → List ℕ
zeros [] = 0 ∷ []
zeros (y ∷ ys) = 0 ∷ zeros ys

abbrev pub first : List ℕ → ℕ
first [] = 0
first (n ∷ ns) = n

abbrev pub rest_of : List ℕ → List ℕ
rest_of [] = []
rest_of (n ∷ ns) = ns

-- A row of the table, from its end on, given the row below it: the inner loop.
unfoldable pub row_of : Text → List Text → List ℕ → List ℕ
row_of x [] below = 0 ∷ []
row_of x (y ∷ ys) below =
    let rest = row_of x ys (rest_of below) in
    (if text_eq x y then first (rest_of below) + 1 else max (first below) (first rest)) ∷ rest

abbrev pub first_row : List (List ℕ) → List ℕ
first_row [] = []
first_row (r ∷ rs) = r

-- The table, from its last row on: the outer loop.
unfoldable pub table_of : List Text → List Text → List (List ℕ)
table_of [] new = zeros new ∷ []
table_of (x ∷ old) new = let below = table_of old new in row_of x new (first_row below) ∷ below

abbrev pub nth_row : List (List ℕ) → ℕ → List ℕ
nth_row [] i = []
nth_row (r ∷ rs) zero = r
nth_row (r ∷ rs) (suc i) = nth_row rs i

abbrev pub nth_cell : List ℕ → ℕ → ℕ
nth_cell [] j = 0
nth_cell (n ∷ ns) zero = n
nth_cell (n ∷ ns) (suc j) = nth_cell ns j

-- `table[i * cols + j]`.
abbrev pub cell : List (List ℕ) → ℕ → ℕ → ℕ
cell table i j = nth_cell (nth_row table i) j

abbrev pub line_of : Kind → Text → DiffLine
line_of k text = record { kind = k; text = text }

-- The walk through the table: `old` and `new` are the lines from `i` and from `j` on. Each turn
-- takes one unit of fuel.
unfoldable pub walk : ℕ → List (List ℕ) → ℕ → List Text → ℕ → List Text → Option (List DiffLine)
walk zero table i old j new = none
walk (suc fuel) table i [] j new = some (as_kind add new)
walk (suc fuel) table i (x ∷ old) j [] = some (as_kind remove (x ∷ old))
walk (suc fuel) table i (x ∷ old) j (y ∷ new) =
    let both = walk fuel table (i + 1) old (j + 1) new in
    let down = walk fuel table (i + 1) old j (y ∷ new) in
    let right = walk fuel table i (x ∷ old) (j + 1) new in
    if text_eq x y
    then Option.map (λ ls. line_of same x ∷ ls) both
    else if leb (cell table i (j + 1)) (cell table (i + 1) j)
    then Option.map (λ ls. line_of remove x ∷ ls) down
    else Option.map (λ ls. line_of add y ∷ ls) right

-- The changed middle.
unfoldable pub diff_middle : List Text → List Text → Option (List DiffLine)
diff_middle old new =
    let walked = walk (length old + length new + 1) (table_of old new) 0 old 0 new in
    if ltb max_cells (length old * length new)
    then some (as_kind remove old ++ as_kind add new)
    else walked

-- `lines[a..b]`.
abbrev pub slice : ℕ → ℕ → List Text → List Text
slice a b lines = take (b - a) (drop a lines)

unfoldable pub diff_of : List Text → List Text → Option (List DiffLine)
diff_of old new =
    let start = trim_start old new in
    let ends = trim_end old new start (length old) (length new) in
    Option.map (λ middle. as_kind same (take start old) ++ middle ++ as_kind same (drop ends.0 old))
      (diff_middle (slice start ends.0 old) (slice start ends.1 new))

unfoldable pub diff_lines : Text → Text → Option (List DiffLine)
diff_lines older newer = diff_of (lines_of older) (lines_of newer)
