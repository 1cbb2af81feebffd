-- ===== src/Mikrotik/Backup/Diff/Table.antt =====
-- The cells of the table, and the recurrence that they meet.
use verkkokyyla.Mikrotik.Backup.Diff.{
  first, rest_of, row_of, first_row, table_of, nth_row, nth_cell, cell,
}
use verkkokyyla.Prelude.Text.{Text, text_eq}
use verkkokyyla.Prelude.{
  ℕ, zero, suc, ◌+◌, ◌≤◌, ◌≡◌, ◌∙◌, refl, ap, max, List, [], ◌∷◌, arith, length, drop,
  if◌then◌else◌,
}

-- The cell at the start of both lists.
abbrev pub lcs : List Text → List Text → ℕ
lcs old new = first (first_row (table_of old new))

-- A row, from the second column on, is that row for the rest of the newer lines.
rest-first_row :
    (old : List Text) (y : Text) (new : List Text)
    → rest_of (first_row (table_of old (y ∷ new))) ≡ first_row (table_of old new)
unfolding table_of row_of
rest-first_row [] y new = refl
rest-first_row (x ∷ old) y new = ap (row_of x new) (rest-first_row old y new)

pub lcs_step :
    (x y : Text) (old new : List Text)
    → lcs (x ∷ old) (y ∷ new)
      ≡ (if text_eq x y then lcs old new + 1 else max (lcs old (y ∷ new)) (lcs (x ∷ old) new))
unfolding table_of row_of
lcs_step x y old new = rw (rest-first_row old y new) refl

pub lcs_nil : (old : List Text) → lcs old [] ≡ 0
unfolding table_of row_of
lcs_nil [] = refl
lcs_nil (x ∷ old) = refl

pub nil_lcs : (new : List Text) → lcs [] new ≡ 0
unfolding table_of
nil_lcs [] = refl
nil_lcs (y ∷ new) = refl

nth_row-table_of :
    (i : ℕ) (old new : List Text)
    → i ≤ length old
    → nth_row (table_of old new) i ≡ first_row (table_of (drop i old) new)
unfolding table_of
nth_row-table_of zero [] new h = refl
nth_row-table_of zero (x ∷ old) new h = refl
nth_row-table_of (suc i) [] new h = absurd (omega (arith, h))
nth_row-table_of (suc i) (x ∷ old) new h = nth_row-table_of i old new (omega (arith, h))

nth_cell_zero : (r : List ℕ) → nth_cell r 0 ≡ first r
nth_cell_zero [] = refl
nth_cell_zero (n ∷ r) = refl

nth_cell-suc : (r : List ℕ) (j : ℕ) → nth_cell r (suc j) ≡ nth_cell (rest_of r) j
nth_cell-suc [] j = refl
nth_cell-suc (n ∷ r) j = refl

nth_cell-first_row :
    (j : ℕ) (old new : List Text)
    → j ≤ length new
    → nth_cell (first_row (table_of old new)) j ≡ lcs old (drop j new)
nth_cell-first_row zero old new h = nth_cell_zero (first_row (table_of old new))
nth_cell-first_row (suc j) old [] h = absurd (omega (arith, h))
nth_cell-first_row (suc j) old (y ∷ new) h =
    nth_cell-suc (first_row (table_of old (y ∷ new))) j
    ∙ ap (λ r. nth_cell r j) (rest-first_row old y new)
    ∙ nth_cell-first_row j old new (omega (arith, h))

-- A cell of the table is the cell at the start of what is left of both lists.
pub cell-table_of :
    (i j : ℕ) (old new : List Text)
    → i ≤ length old
    → j ≤ length new
    → cell (table_of old new) i j ≡ lcs (drop i old) (drop j new)
cell-table_of i j old new h k =
    ap (λ r. nth_cell r j) (nth_row-table_of i old new h) ∙ nth_cell-first_row j (drop i old) new k
