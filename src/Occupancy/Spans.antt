-- ===== src/Occupancy/Spans.antt =====
-- PlacedRegion::ForEachSpan of src/reduce/occupancy.h: the spans of a row that a region selects. `none` is
-- a read past the end of the runs.
use carta_zarr.Base.{
  ℕ, zero, suc, ◌+◌, ◌-◌, ◌*◌, min, max, List, [], ◌∷◌, Option, none, some, if◌then◌else◌, ltb, leb,
  get_elem?, add64, sub64, mul64,
}
use carta_zarr.Occupancy.{PlacedRegion}

-- A call of `span`: its pixels, and the raster's byte for the first with the step to the next, where the
-- raster is to be asked.
pub record Span : Type 0 where
  pub from : ℕ
  pub to : ℕ
  pub selected : Option (ℕ × ℕ)

-- How a region's pixels are encoded, as its null pointers say: runs with their offsets, a raster by its
-- steps along u and v, or the whole box.
pub data Encoding : Type 0 where
  in_runs : List ℕ → List ℕ → Encoding
  in_raster : ℕ → ℕ → Encoding
  whole_box : Encoding

-- The loop over the runs of a row, `n` of them from run `k` on.
unfoldable pub run_spans : ℕ → List ℕ → ℕ → ℕ → ℕ → ℕ → Option (List Span)
run_spans u_start runs first last zero k = some []
run_spans u_start runs first last (suc n) k =
    let rest = run_spans u_start runs first last n (k + 1) in
    elim (get_elem? runs (2 * k)) [
      | none ↦ none
      | some begin ↦
          if leb last (add64 u_start begin) then some [] else elim (get_elem? runs (2 * k + 1)) [
            | none ↦ none
            | some end ↦
                if ltb (max first (add64 u_start begin)) (min last (add64 u_start end))
                then elim rest [
                  | none ↦ none
                  | some spans ↦ some (
                      record {
                        from = max first (add64 u_start begin);
                        to = min last (add64 u_start end);
                        selected = none;
                      }
                      ∷ spans)
                ]
                else rest
          ]
    ]

unfoldable pub row_spans : ℕ → List ℕ → List ℕ → ℕ → ℕ → ℕ → Option (List Span)
unfolding run_spans
row_spans u_start runs offsets row first last = elim (get_elem? offsets row) [
  | none ↦ none
  | some k ↦ elim (get_elem? offsets (row + 1)) [
    | none ↦ none
    | some end ↦ run_spans u_start runs first last (end - k) k
  ]
]

-- PlacedRegion::ForEachSpan, the spans in the order of the calls
unfoldable pub for_each_span : PlacedRegion → Encoding → ℕ → ℕ → ℕ → Option (List Span)
unfolding row_spans
for_each_span region encoding y u0 u1 =
    let first = max u0 region.u_start in
    let last = min u1 (add64 region.u_start region.u_size) in
    if leb last first then some [] else elim encoding [
      | in_runs runs offsets ↦
          row_spans region.u_start runs offsets (sub64 y region.v_start) first last
      | in_raster u_step v_step ↦ some (
          record {
            from = first;
            to = last;
            selected = some (
              add64 (mul64 (sub64 y region.v_start) v_step)
                  (mul64 (sub64 first region.u_start) u_step),
              u_step,
            );
          }
          ∷ [])
      | whole_box ↦ some (record { from = first; to = last; selected = none } ∷ [])
    ]
