-- ===== src/Occupancy/Cells.antt =====
-- The runs that Occupancy::Of (src/reduce/occupancy.cc) reads off the cells that regions occupy.
use carta_zarr.Base.{
  ℕ, zero, suc, ◌+◌, ◌-◌, ◌*◌, ◌/◌, ◌%◌, ◌^◌, ◌<◌, ◌≤◌, ◌≡◌, refl, sym, ap, ◌∙◌, List, [], ◌∷◌,
  ◌++◌, append_assoc, append-nil, arith, ◌==◌, Bool-cases, inl, inr, add64, add64_lem, ==→eq,
}
use carta_zarr.Occupancy.{ColumnRun, OccupiedRow, add_column, add_cell, occupied_rows}
use native.Mathlib.Nat.{mod-lt, mod-add-div'}

-- The cells `at`, `at + 1`, …, so many of them.
abbrev pub cells_from : ℕ → ℕ → List ℕ
cells_from at zero = []
cells_from at (suc n) = at ∷ cells_from (suc at) n

-- The cells of a row's runs, and of all the rows.
abbrev pub run_cells : ℕ → List ColumnRun → List ℕ
run_cells start [] = []
run_cells start (run ∷ runs) =
    cells_from (start + run.first) (suc run.last - run.first) ++ run_cells start runs

abbrev pub row_cells : ℕ → List OccupiedRow → List ℕ
row_cells columns [] = []
row_cells columns (r ∷ rows) = run_cells (r.row * columns) r.runs ++ row_cells columns rows

-- Every run is within a row of so many columns.
abbrev pub AreRuns : ℕ → List ColumnRun → Type 0
AreRuns columns [] = Unit
AreRuns columns (run ∷ runs) = (run.first ≤ run.last) × (run.last < columns) × AreRuns columns runs

abbrev pub AreRows : ℕ → List OccupiedRow → Type 0
AreRows columns [] = Unit
AreRows columns (r ∷ rows) = AreRuns columns r.runs × AreRows columns rows

cells_from_more : (at n : ℕ) → cells_from at (suc n) ≡ cells_from at n ++ ((at + n) ∷ [])
cells_from_more at zero = let e : at + 0 ≡ at = omega arith in rw e refl
cells_from_more at (suc n) =
    let e : suc at + n ≡ at + suc n = omega arith in
    ap (λ (t : List ℕ). at ∷ t)
      (cells_from_more (suc at) n ∙ ap (λ (k : ℕ). cells_from (suc at) n ++ (k ∷ [])) e)

one_cell :
    (start column : ℕ) → cells_from (start + column) (suc column - column) ≡ (start + column) ∷ []
one_cell start column = let e : suc column - column ≡ 1 = omega arith in rw e refl

longer :
    (start first last column : ℕ)
    → first ≤ last
    → column ≡ last + 1
    → cells_from (start + first) (suc column - first)
      ≡ cells_from (start + first) (suc last - first) ++ ((start + column) ∷ [])
longer start first last column f e =
    let count : suc column - first ≡ suc (suc last - first) = omega arith in
    let at : start + first + (suc last - first) ≡ start + column = omega arith in
    rw count (
      cells_from_more (start + first) (suc last - first)
      ∙ ap (λ (k : ℕ). cells_from (start + first) (suc last - first) ++ (k ∷ [])) at)

module _ (columns : ℕ) (few : columns < 2 ^ 64) where
  add_column-cells :
      (start : ℕ) (runs : List ColumnRun) (column : ℕ)
      → AreRuns columns runs
      → column < columns
      → run_cells start (add_column runs column) ≡ run_cells start runs ++ ((start + column) ∷ [])
  unfolding add_column
  add_column-cells start [] column v c = append-nil _ ∙ one_cell start column
  add_column-cells start (run ∷ []) column (f, l, v) c =
      elim (Bool-cases (add64 run.last 1 == column)) [
        | inl next ↦
            rw (next, append-nil (cells_from (start + run.first) (suc run.last - run.first)))
              (append-nil _
                ∙ longer start run.first run.last column f
                    (sym (==→eq _ _ next) ∙ add64_lem run.last 1 (omega arith)))
        | inr gap ↦
            rw
              (
                gap,
                append-nil (cells_from (start + run.first) (suc run.last - run.first)),
                append-nil (cells_from (start + column) (suc column - column)),
                one_cell start column,
              )
              refl
      ]
  add_column-cells start (run ∷ next ∷ runs) column (f, l, v) c =
      ap (λ (t : List ℕ). cells_from (start + run.first) (suc run.last - run.first) ++ t)
        (add_column-cells start (next ∷ runs) column v c)
      ∙ sym (append_assoc (cells_from (start + run.first) (suc run.last - run.first)) _ _)

  add_column-AreRuns :
      (runs : List ColumnRun) (column : ℕ)
      → AreRuns columns runs
      → column < columns
      → AreRuns columns (add_column runs column)
  unfolding add_column
  add_column-AreRuns [] column v c = (omega arith, c, tt)
  add_column-AreRuns (run ∷ []) column (f, l, v) c =
      elim (Bool-cases (add64 run.last 1 == column)) [
        | inl next ↦
            rw next (omega (arith, ==→eq _ _ next, add64_lem run.last 1 (omega arith)), c, tt)
        | inr gap ↦ rw gap (f, l, (omega arith, c, tt))
      ]
  add_column-AreRuns (run ∷ next ∷ runs) column (f, l, v) c =
      (f, l, add_column-AreRuns (next ∷ runs) column v c)

  add_cell-cells :
      (rows : List OccupiedRow) (row column : ℕ)
      → AreRows columns rows
      → column < columns
      → row_cells columns (add_cell rows row column)
        ≡ row_cells columns rows ++ ((row * columns + column) ∷ [])
  unfolding add_cell
  add_cell-cells [] row column v c = append-nil _ ∙ add_column-cells (row * columns) [] column tt c
  add_cell-cells (r ∷ []) row column (here, v) c = elim (Bool-cases (r.row == row)) [
    | inl same ↦
        rw (same, append-nil (run_cells (r.row * columns) r.runs))
          (append-nil _
            ∙ add_column-cells (r.row * columns) r.runs column here c
            ∙ ap (λ (k : ℕ). run_cells (r.row * columns) r.runs ++ ((k * columns + column) ∷ []))
                (==→eq r.row row same))
    | inr below ↦
        rw
          (
            below,
            append-nil (run_cells (r.row * columns) r.runs),
            append-nil (run_cells (row * columns) (add_column [] column)),
          )
          (ap (λ (t : List ℕ). run_cells (r.row * columns) r.runs ++ t)
            (add_column-cells (row * columns) [] column tt c))
  ]
  add_cell-cells (r ∷ next ∷ rows) row column (here, v) c =
      ap (λ (t : List ℕ). run_cells (r.row * columns) r.runs ++ t)
        (add_cell-cells (next ∷ rows) row column v c)
      ∙ sym (append_assoc (run_cells (r.row * columns) r.runs) _ _)

  add_cell-AreRows :
      (rows : List OccupiedRow) (row column : ℕ)
      → AreRows columns rows
      → column < columns
      → AreRows columns (add_cell rows row column)
  unfolding add_cell
  add_cell-AreRows [] row column v c = (add_column-AreRuns [] column tt c, tt)
  add_cell-AreRows (r ∷ []) row column (here, v) c = elim (Bool-cases (r.row == row)) [
    | inl same ↦ rw same (add_column-AreRuns r.runs column here c, tt)
    | inr below ↦ rw below (here, (add_column-AreRuns [] column tt c, tt))
  ]
  add_cell-AreRows (r ∷ next ∷ rows) row column (here, v) c =
      (here, add_cell-AreRows (next ∷ rows) row column v c)

  occupied_rows-more :
      (cells : List ℕ) (rows : List OccupiedRow)
      → 0 < columns
      → AreRows columns rows
      → row_cells columns (occupied_rows columns cells rows) ≡ row_cells columns rows ++ cells
  unfolding occupied_rows
  occupied_rows-more [] rows p v = sym (append-nil _)
  occupied_rows-more (cell ∷ cells) rows p v =
      let inside : cell % columns < columns = mod-lt cell p in
      let back : cell / columns * columns + cell % columns ≡ cell =
        omega (arith, mod-add-div' cell columns) in
      occupied_rows-more cells (add_cell rows (cell / columns) (cell % columns)) p
        (add_cell-AreRows rows (cell / columns) (cell % columns) v inside)
      ∙ ap (λ (t : List ℕ). t ++ cells)
          (add_cell-cells rows (cell / columns) (cell % columns) v inside)
      ∙ append_assoc (row_cells columns rows) _ cells
      ∙ ap (λ (k : ℕ). row_cells columns rows ++ (k ∷ cells)) back

  pub occupied_rows-AreRows :
      (cells : List ℕ) (rows : List OccupiedRow)
      → 0 < columns
      → AreRows columns rows
      → AreRows columns (occupied_rows columns cells rows)
  unfolding occupied_rows
  occupied_rows-AreRows [] rows p v = v
  occupied_rows-AreRows (cell ∷ cells) rows p v =
      occupied_rows-AreRows cells (add_cell rows (cell / columns) (cell % columns)) p
        (add_cell-AreRows rows (cell / columns) (cell % columns) v (mod-lt cell p))

  -- The rows that Occupancy::Of reads off its occupied cells, of a grid of one column or more and fewer
  -- than 2^64: the cells of
  -- their runs, row by row and run by run, are those cells, each as often as it was there and in the
  -- order that they were in.
  pub occupied_rows_cells :
      (cells : List ℕ) → 0 < columns → row_cells columns (occupied_rows columns cells []) ≡ cells
  occupied_rows_cells cells p = occupied_rows-more cells [] p tt
