-- ===== src/Occupancy.antt =====
-- src/reduce/occupancy.h and occupancy.cc: which rows of a box a placed region has, and the runs of
-- chunks that a set of regions occupies.
pub mod Within
pub mod Cells
pub mod Footprints
pub mod Counts
pub mod Spans
pub mod Selects
use carta_zarr.Base.{
  ℕ, zero, suc, ◌+◌, ◌/◌, ◌%◌, min, max, List, [], ◌∷◌, ◌||◌, if◌then◌else◌, leb, ◌==◌, add64,
}

-- class PlacedRegion's box
pub record PlacedRegion : Type 0 where
  pub u_start : ℕ
  pub v_start : ℕ
  pub u_size : ℕ
  pub v_size : ℕ

-- struct PlacedRegion::Rows
pub record Rows : Type 0 where
  pub first : ℕ
  pub last : ℕ

-- PlacedRegion::RowsWithin
pub rows_within : PlacedRegion → ℕ → ℕ → ℕ → ℕ → Rows
rows_within region u0 u1 v0 v1 =
    let first_u = max u0 region.u_start in
    let last_u = min u1 (add64 region.u_start region.u_size) in
    let first_v = max v0 region.v_start in
    let last_v = min v1 (add64 region.v_start region.v_size) in
    if leb last_u first_u || leb last_v first_v
    then record { first = 0; last = 0 }
    else record { first = first_v; last = last_v }

-- struct ColumnRun, its `last` inclusive
pub record ColumnRun : Type 0 where
  pub first : ℕ
  pub last : ℕ

-- struct OccupiedRow
pub record OccupiedRow : Type 0 where
  pub row : ℕ
  pub runs : List ColumnRun

-- Of the runs of a row, the last made longer by the column next to it, or a new one after it.
pub add_column : List ColumnRun → ℕ → List ColumnRun
add_column [] column = record { first = column; last = column } ∷ []
add_column (run ∷ []) column =
    if add64 run.last 1 == column
    then record { first = run.first; last = column } ∷ []
    else run ∷ record { first = column; last = column } ∷ []
add_column (run ∷ next ∷ runs) column = run ∷ add_column (next ∷ runs) column

-- The loop's body: into the last row, or a new one after it.
pub add_cell : List OccupiedRow → ℕ → ℕ → List OccupiedRow
unfolding add_column
add_cell [] row column = record { row = row; runs = add_column [] column } ∷ []
add_cell (r ∷ []) row column =
    if r.row == row
    then record { row = r.row; runs = add_column r.runs column } ∷ []
    else r ∷ record { row = row; runs = add_column [] column } ∷ []
add_cell (r ∷ next ∷ rows) row column = r ∷ add_cell (next ∷ rows) row column

-- Occupancy::Of's loop over the occupied cells, into `_occupied_rows`.
pub occupied_rows : ℕ → List ℕ → List OccupiedRow → List OccupiedRow
unfolding add_cell
occupied_rows columns [] rows = rows
occupied_rows columns (cell ∷ cells) rows =
    occupied_rows columns cells (add_cell rows (cell / columns) (cell % columns))
