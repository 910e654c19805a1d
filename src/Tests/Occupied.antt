-- ===== src/Tests/Occupied.antt =====
-- The results about occupied chunks at a concrete input: a region of 8 by 6 pixels, and seven occupied
-- cells of a grid of five columns.
use carta_zarr.Base.{refl, ℕ, ◌+◌, ◌<◌, ◌≤◌, ◌≡◌, ◌↔◌, List, [], ◌∷◌, arith}
use carta_zarr.Occupancy.{PlacedRegion, rows_within, occupied_rows}
use carta_zarr.Occupancy.Within.{rows_within_lem}
use carta_zarr.Occupancy.Cells.{row_cells, occupied_rows_cells}
use carta_zarr.Occupancy.Spans.{in_runs, for_each_span}
use carta_zarr.Occupancy.Selects.{SelectsRow, for_each_span-SelectsRow}
use carta_zarr.Occupancy.Footprints.{OccupiedBox, occupied_footprints}
use carta_zarr.Occupancy.Counts.{Cut, occupied_footprints-Cut}

abbrev region : PlacedRegion
region = record { u_start = 10; v_start = 20; u_size = 8; v_size = 6 }

rows_within_lem_example :
    (((rows_within region 12 40 0 23).first ≤ 21) × (21 < (rows_within region 12 40 0 23).last)) ↔ (
      (0 ≤ 21)
      × (21 < 23)
      × (20 ≤ 21)
      × (21 < 20 + 6)
      × ((x : ℕ) × (12 ≤ x) × (x < 40) × (10 ≤ x) × (x < 10 + 8)))
rows_within_lem_example = rows_within_lem region 12 40 0 23 (omega arith) (omega arith) 21

abbrev occupied : List ℕ
occupied = 1 ∷ 2 ∷ 4 ∷ 5 ∷ 6 ∷ 7 ∷ 19 ∷ []

occupied_rows_cells_example : row_cells 5 (occupied_rows 5 occupied []) ≡ occupied
occupied_rows_cells_example = occupied_rows_cells 5 (omega arith) occupied (omega arith)

-- Chunks of 4 by 3 pixels, the first of them at column 2 and row 6.
abbrev box : OccupiedBox
box = record {
  chunk_u = 4;
  chunk_v = 3;
  u0 = 9;
  v0 = 20;
  u1 = 27;
  v1 = 29;
  chunk_cu0 = 2;
  chunk_cv0 = 6;
}

occupied_footprints-Cut_example : Cut 2 7 (occupied_footprints box 2 (occupied_rows 5 occupied []))
occupied_footprints-Cut_example =
    occupied_footprints-Cut box 5 2 occupied (omega arith) (omega arith) (omega arith)

-- The second row of the region has pixels 1 and 2, and 5 to 7, of it.
abbrev runs : List ℕ
runs = 0 ∷ 8 ∷ 1 ∷ 3 ∷ 5 ∷ 8 ∷ []

abbrev run_offsets : List ℕ
run_offsets = 0 ∷ 1 ∷ 3 ∷ []

for_each_span-SelectsRow_example :
    SelectsRow 10 10 12 17 16
      ((1, 3) ∷ (5, 8) ∷ [])
      (for_each_span region (in_runs runs run_offsets) 21 12 17)
for_each_span-SelectsRow_example =
    for_each_span-SelectsRow region runs run_offsets ((1, 3) ∷ (5, 8) ∷ []) 21 12 17 1 16
      (omega arith) (omega arith) refl refl (refl, refl, (refl, refl, tt))
      (omega arith, omega arith, omega arith, (omega arith, omega arith, omega arith, tt))
      (omega arith)
