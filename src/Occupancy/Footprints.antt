-- ===== src/Occupancy/Footprints.antt =====
-- Occupancy::Footprints of src/reduce/occupancy.cc: the occupied runs cut into what one read decodes.
use carta_zarr.Base.{
  ℕ, zero, suc, ◌+◌, min, max, Bool, true, false, ◌&&◌, List, [], ◌∷◌, ◌++◌, Option, none, some,
  if◌then◌else◌, ltb, leb, ◌==◌, length, add64, sub64, mul64,
}
use carta_zarr.Chunk.{units_affordable}
use carta_zarr.Pass.{SlabFootprint}
use carta_zarr.Occupancy.{ColumnRun, OccupiedRow}

-- struct OccupiedFootprint
pub record OccupiedFootprint : Type 0 where
  pub slab : SlabFootprint
  pub chunk_cu_begin : ℕ
  pub chunk_cu_end : ℕ
  pub chunk_cv_begin : ℕ
  pub chunk_cv_end : ℕ

-- What Footprints reads of class Occupancy, beside the rows: the chunk shape, the box of the regions in
-- pixels, and its first chunk.
pub record OccupiedBox : Type 0 where
  pub chunk_u : ℕ
  pub chunk_v : ℕ
  pub u0 : ℕ
  pub v0 : ℕ
  pub u1 : ℕ
  pub v1 : ℕ
  pub chunk_cu0 : ℕ
  pub chunk_cv0 : ℕ

-- `last - first + 1`
unfoldable pub run_width : ℕ → ℕ → ℕ
run_width first last = add64 (sub64 last first) 1

unfoldable pub widest_run : ℕ → List ColumnRun → ℕ
unfolding run_width
widest_run widest [] = widest
widest_run widest (run ∷ runs) = widest_run (max widest (run_width run.first run.last)) runs

-- ColumnRun::operator==, over vectors
unfoldable pub same_runs : List ColumnRun → List ColumnRun → Bool
same_runs [] [] = true
same_runs [] (run ∷ runs) = false
same_runs (run ∷ runs) [] = false
same_runs (a ∷ runs) (b ∷ others) = a.first == b.first && a.last == b.last && same_runs runs others

-- The loop of `next`: how many rows the band has, `taken` of them so far, with the rows after it.
unfoldable pub take_band : ℕ → ℕ → List ColumnRun → ℕ → List OccupiedRow → ℕ × List OccupiedRow
unfolding same_runs
take_band row limit runs taken [] = (taken, [])
take_band row limit runs taken (r ∷ rows) =
    let more = take_band row limit runs (taken + 1) rows in
    if r.row == add64 row taken && ltb taken limit && same_runs r.runs runs
    then more
    else (taken, r ∷ rows)

module _ (box : OccupiedBox) where
  -- The body of the loop over a run: `width` chunk columns from `first` on, of `band_rows` chunk rows.
  unfoldable pub footprint_at : ℕ → ℕ → ℕ → ℕ → OccupiedFootprint
  footprint_at row band_rows first width =
      let cv_begin = add64 box.chunk_cv0 row in
      let cv_end = add64 box.chunk_cv0 (add64 row band_rows) in
      let v_begin = max box.v0 (mul64 cv_begin box.chunk_v) in
      let v_end = min box.v1 (mul64 cv_end box.chunk_v) in
      let cu_begin = add64 box.chunk_cu0 first in
      let cu_end = add64 cu_begin width in
      let u_begin = max box.u0 (mul64 cu_begin box.chunk_u) in
      let u_end = min box.u1 (mul64 cu_end box.chunk_u) in
      record {
        slab = record {
          u_start = u_begin;
          u_count = sub64 u_end u_begin;
          u_stride = 1;
          v_start = v_begin;
          v_count = sub64 v_end v_begin;
          v_stride = 1;
          chunks = mul64 width band_rows;
        };
        chunk_cu_begin = cu_begin;
        chunk_cu_end = cu_end;
        chunk_cv_begin = cv_begin;
        chunk_cv_end = cv_end;
      }

  -- The loop over one run, at most `limit` chunk columns at a time.
  unfoldable pub run_segments : ℕ → ℕ → ℕ → ℕ → ℕ → ℕ → Option (List OccupiedFootprint)
  unfolding footprint_at run_width
  run_segments row band_rows limit zero last first = none
  run_segments row band_rows limit (suc fuel) last first =
      let width = min limit (run_width first last) in
      let rest = run_segments row band_rows limit fuel last (add64 first width) in
      if leb first last
      then elim rest [
        | none ↦ none
        | some footprints ↦ some (footprint_at row band_rows first width ∷ footprints)
      ]
      else some []

  -- The loop over the runs of a band.
  unfoldable pub band_segments : ℕ → ℕ → ℕ → List ColumnRun → Option (List OccupiedFootprint)
  unfolding run_segments run_width
  band_segments row band_rows limit [] = some []
  band_segments row band_rows limit (run ∷ runs) =
      elim (run_segments row band_rows limit (suc (run_width run.first run.last)) run.last
        run.first) [
          | none ↦ none
          | some footprints ↦ elim (band_segments row band_rows limit runs) [
            | none ↦ none
            | some more ↦ some (footprints ++ more)
          ]
        ]

  -- The loop over the bands.
  unfoldable pub over_occupied : ℕ → ℕ → List OccupiedRow → Option (List OccupiedFootprint)
  unfolding take_band widest_run band_segments
  over_occupied chunks_per_read zero rows = none
  over_occupied chunks_per_read (suc fuel) [] = some []
  over_occupied chunks_per_read (suc fuel) (r ∷ rows) =
      let limit = units_affordable chunks_per_read (widest_run 0 r.runs) in
      let band = take_band r.row limit r.runs 1 rows in
      elim (band_segments r.row band.0 (units_affordable chunks_per_read band.0) r.runs) [
        | none ↦ none
        | some footprints ↦ elim (over_occupied chunks_per_read fuel band.1) [
          | none ↦ none
          | some more ↦ some (footprints ++ more)
        ]
      ]

  -- Occupancy::Footprints
  unfoldable pub occupied_footprints : ℕ → List OccupiedRow → Option (List OccupiedFootprint)
  unfolding over_occupied
  occupied_footprints chunks_per_read rows = over_occupied chunks_per_read (suc (length rows)) rows
