-- ===== src/Occupancy/Counts.antt =====
-- Occupancy::Footprints of src/reduce/occupancy.cc: the chunks that its footprints count.
use carta_zarr.Base.{
  ℕ, zero, suc, ◌+◌, ◌-◌, ◌*◌, ◌^◌, ◌<◌, ◌≤◌, ◌≡◌, refl, sym, ap, ◌∙◌, min, max, Bool, true, false,
  ◌&&◌, List, [], ◌∷◌, ◌++◌, Option, some, ltb, leb, ◌==◌, ==→eq, leb→le, leb→lt, ltb→lt, arith,
  Bool-cases, inl, inr, length, length-append, add64, mul64, add64_lem, sub64_lem, mul64_lem,
  dec_le,
}
use carta_zarr.Chunk.{units_affordable}
use carta_zarr.Chunk.Cost.{units_affordable_lem}
use carta_zarr.Occupancy.{ColumnRun, OccupiedRow, occupied_rows}
use carta_zarr.Occupancy.Cells.{
  cells_from, run_cells, row_cells, AreRuns, AreRows, occupied_rows-AreRows, occupied_rows_cells,
}
use carta_zarr.Occupancy.Footprints.{
  OccupiedFootprint, OccupiedBox, run_width, widest_run, same_runs, take_band, footprint_at,
  run_segments, band_segments, over_occupied, occupied_footprints,
}
use native.Mathlib.Nat.{div-le_self}

-- The cells of runs and of rows, counted.
abbrev count_runs : List ColumnRun → ℕ
count_runs [] = 0
count_runs (run ∷ runs) = (suc run.last - run.first) + count_runs runs

abbrev count_rows : List OccupiedRow → ℕ
count_rows [] = 0
count_rows (r ∷ rows) = count_runs r.runs + count_rows rows

abbrev pub chunk_total : List OccupiedFootprint → ℕ
chunk_total [] = 0
chunk_total (f ∷ footprints) = f.slab.chunks + chunk_total footprints

-- No footprint has more chunks than so many.
abbrev pub AreAfforded : ℕ → List OccupiedFootprint → Type 0
AreAfforded most [] = Unit
AreAfforded most (f ∷ footprints) = (f.slab.chunks ≤ most) × AreAfforded most footprints

-- There are footprints, none of them of more than `most` chunks and of so many in all.
abbrev pub Cut : ℕ → ℕ → Option (List OccupiedFootprint) → Type 0
Cut most total given =
    (footprints : List OccupiedFootprint) × (given ≡ some footprints)
    × (chunk_total footprints ≡ total)
    × AreAfforded most footprints

chunk_total-append :
    (fs gs : List OccupiedFootprint) → chunk_total (fs ++ gs) ≡ chunk_total fs + chunk_total gs
chunk_total-append [] gs = omega arith
chunk_total-append (f ∷ fs) gs = omega (arith, chunk_total-append fs gs)

AreAfforded-append :
    (most : ℕ) (fs gs : List OccupiedFootprint)
    → AreAfforded most fs
    → AreAfforded most gs
    → AreAfforded most (fs ++ gs)
AreAfforded-append most [] gs v w = w
AreAfforded-append most (f ∷ fs) gs (h, v) w = (h, AreAfforded-append most fs gs v w)

mul_add : (w r b : ℕ) → (w + r) * b ≡ w * b + r * b
mul_add w r b = grind arith

mul_mono : (w x b : ℕ) → w ≤ x → w * b ≤ x * b
mul_mono w x b h = grind arith

run_width_lem :
    (first last : ℕ) → first ≤ last → last + 1 < 2 ^ 64 → run_width first last ≡ suc last - first
unfolding run_width
run_width_lem first last h b =
    rw (sub64_lem last first h (omega arith), add64_lem (last - first) 1 (omega arith))
      (omega arith)

both : (a b : Bool) → (a && b) ≡ true → (a ≡ true) × (b ≡ true)
both true b e = (refl, e)
both false b e = absurd cc

-- What a read affords, of bands of no more rows than it does.
afforded_segment :
    (chunks_per_read band_rows : ℕ)
    → 1 ≤ band_rows
    → band_rows ≤ max 1 chunks_per_read
    → (1 ≤ units_affordable chunks_per_read band_rows)
      × (units_affordable chunks_per_read band_rows * band_rows ≤ max 1 chunks_per_read)
unfolding units_affordable
afforded_segment chunks_per_read band_rows h k = elim (dec_le band_rows chunks_per_read) [
  | yes l ↦
      let (one, _, fits) = units_affordable_lem chunks_per_read band_rows (omega arith) in
      (one, omega (arith, fits l))
  | no l ↦
      let none_read : chunks_per_read ≡ 0 = omega arith in
      let one_row : band_rows ≡ 1 = omega arith in
      rw (none_read, one_row) (omega arith, omega arith)
]

afforded_band :
    (chunks_per_read widest : ℕ) → units_affordable chunks_per_read widest ≤ max 1 chunks_per_read
unfolding units_affordable
afforded_band chunks_per_read widest = omega (arith, div-le_self chunks_per_read (max 1 widest))

-- Rows taken into a band of these runs, and the rows that are left.
record IsBand (columns limit taken : ℕ) (runs : List ColumnRun) (rows : List OccupiedRow)
    (band : ℕ × List OccupiedRow) : Type 0 where
  more : taken ≤ band.0
  fits : band.0 ≤ max taken limit
  counts : band.0 * count_runs runs + count_rows band.1 ≡ taken * count_runs runs + count_rows rows
  fewer : length band.1 ≤ length rows
  left : AreRows columns band.1

same_runs-count : (xs ys : List ColumnRun) → same_runs xs ys ≡ true → count_runs xs ≡ count_runs ys
unfolding same_runs
same_runs-count [] [] e = refl
same_runs-count [] (b ∷ ys) e = absurd cc
same_runs-count (a ∷ xs) [] e = absurd cc
same_runs-count (a ∷ xs) (b ∷ ys) e =
    let (ends, others) = both (a.first == b.first && a.last == b.last) (same_runs xs ys) e in
    let (first, last) = both (a.first == b.first) (a.last == b.last) ends in
    omega
      (arith, ==→eq a.first b.first first, ==→eq a.last b.last last, same_runs-count xs ys others)

take_band-IsBand :
    (columns row limit : ℕ) (runs : List ColumnRun) (taken : ℕ) (rows : List OccupiedRow)
    → AreRows columns rows
    → IsBand columns limit taken runs rows (take_band row limit runs taken rows)
unfolding take_band
take_band-IsBand columns row limit runs taken [] v = record {
  more = omega arith;
  fits = omega arith;
  counts = refl;
  fewer = omega arith;
  left = v;
}
take_band-IsBand columns row limit runs taken (r ∷ rows) v =
    elim (Bool-cases (r.row == add64 row taken && ltb taken limit && same_runs r.runs runs)) [
      | inr f ↦
          rw (f, take_band)
            (record {
              more = omega arith;
              fits = omega arith;
              counts = refl;
              fewer = omega arith;
              left = v;
            })
      | inl f ↦
          let (fits, alike) =
            both (r.row == add64 row taken && ltb taken limit) (same_runs r.runs runs) f in
          let (_, few) = both (r.row == add64 row taken) (ltb taken limit) fits in
          let same : count_runs r.runs ≡ count_runs runs = same_runs-count r.runs runs alike in
          let band : IsBand columns limit (taken + 1) runs rows
              (take_band row limit runs (taken + 1) rows) =
            take_band-IsBand columns row limit runs (taken + 1) rows v.1 in
          rw (f, take_band)
            (record {
              more = omega (arith, band.more);
              fits = omega (arith, band.fits, ltb→lt taken limit few);
              counts = omega (arith, band.counts, mul_add taken 1 (count_runs runs), same);
              fewer = omega (arith, band.fewer);
              left = band.left;
            })
    ]

-- The first piece of a run of chunk columns.
first_width :
    (limit first last : ℕ)
    → 1 ≤ limit
    → first ≤ last
    → last + 1 < 2 ^ 64
    → (w : ℕ) × (1 ≤ w)
      × (min limit (run_width first last) ≡ w)
      × (add64 first w ≡ first + w)
      × (suc last - first ≡ w + (suc last - (first + w)))
      × (w ≤ limit)
first_width limit first last l h b = (
  min limit (suc last - first),
  omega arith,
  ap (min limit) (run_width_lem first last h b),
  add64_lem first (min limit (suc last - first)) (omega arith),
  omega arith,
  omega arith,
)

module _ (box : OccupiedBox) (most : ℕ) where
  Cut-append :
      (total a b : ℕ) (fs gs : List OccupiedFootprint)
      → total ≡ a + b
      → chunk_total fs ≡ a
      → AreAfforded most fs
      → chunk_total gs ≡ b
      → AreAfforded most gs
      → Cut most total (some (fs ++ gs))
  Cut-append total a b fs gs sum e v f w =
      (fs ++ gs, refl, omega (arith, chunk_total-append fs gs), AreAfforded-append most fs gs v w)

  run_segments-Cut :
      (row band_rows limit fuel last first : ℕ)
      → 1 ≤ limit
      → limit * band_rows ≤ most
      → last + 1 < 2 ^ 64
      → first ≤ last + 1
      → last + 1 < first + fuel
      → (suc last - first) * band_rows < 2 ^ 64
      → Cut most
          ((suc last - first) * band_rows)
          (run_segments box row band_rows limit fuel last first)
  unfolding run_segments footprint_at
  run_segments-Cut row band_rows limit zero last first l m b f k t = absurd (omega arith)
  run_segments-Cut row band_rows limit (suc fuel) last first l m b f k t =
      elim (Bool-cases (leb first last)) [
        | inr past ↦
            let empty : suc last - first ≡ 0 = omega (arith, leb→lt first last past) in
            rw (past, empty, run_segments) ([], refl, omega arith, tt)
        | inl within ↦
            let h : first ≤ last = leb→le first last within in
            let (w, one, wide, next, sum, small) = first_width limit first last l h b in
            let split : (suc last - first) * band_rows
                ≡ w * band_rows + (suc last - (first + w)) * band_rows =
              rw sum (mul_add w (suc last - (first + w)) band_rows) in
            let here : (footprint_at box row band_rows first
                  (min limit (run_width first last))).slab.chunks
                ≡ w * band_rows =
              ap (λ (k : ℕ). mul64 k band_rows) wide
              ∙ mul64_lem w band_rows (omega (arith, split, t)) in
            let (fs, run, total, v) =
              run_segments-Cut row band_rows limit fuel last (first + w) l m b (omega arith)
                (omega arith) (omega (arith, split, t)) in
            rw (within, wide, next, run, run_segments)
              (
                _,
                refl,
                omega (arith, total, split, here),
                (omega (arith, here, mul_mono w limit band_rows small, m), v),
              )
      ]

  band_segments-Cut :
      (columns row band_rows limit : ℕ) (runs : List ColumnRun)
      → columns < 2 ^ 64
      → AreRuns columns runs
      → 1 ≤ limit
      → limit * band_rows ≤ most
      → count_runs runs * band_rows < 2 ^ 64
      → Cut most (count_runs runs * band_rows) (band_segments box row band_rows limit runs)
  unfolding band_segments
  band_segments-Cut columns row band_rows limit [] few v l m t = ([], refl, omega arith, tt)
  band_segments-Cut columns row band_rows limit (run ∷ runs) few (h, within, v) l m t =
      let width : run_width run.first run.last ≡ suc run.last - run.first =
        run_width_lem run.first run.last h (omega arith) in
      let split : ((suc run.last - run.first) + count_runs runs) * band_rows
          ≡ (suc run.last - run.first) * band_rows + count_runs runs * band_rows =
        mul_add (suc run.last - run.first) (count_runs runs) band_rows in
      let (fs, here, e, v0) =
        run_segments-Cut row band_rows limit (suc (run_width run.first run.last)) run.last run.first
          l m (omega arith) (omega arith) (omega (arith, width, h)) (omega (arith, split, t)) in
      let (gs, rest, f, v1) =
        band_segments-Cut columns row band_rows limit runs few v l m (omega (arith, split, t)) in
      rw (here, rest, band_segments)
        (Cut-append (((suc run.last - run.first) + count_runs runs) * band_rows)
          ((suc run.last - run.first) * band_rows) (count_runs runs * band_rows) fs gs split e v0 f
          v1)

over_occupied-Cut :
    (box : OccupiedBox) (columns chunks_per_read fuel : ℕ) (rows : List OccupiedRow)
    → columns < 2 ^ 64
    → AreRows columns rows
    → count_rows rows < 2 ^ 64
    → length rows < fuel
    → Cut (max 1 chunks_per_read) (count_rows rows) (over_occupied box chunks_per_read fuel rows)
unfolding over_occupied
over_occupied-Cut box columns chunks_per_read zero rows few v t k = absurd (omega arith)
over_occupied-Cut box columns chunks_per_read (suc fuel) [] few v t k = ([], refl, refl, tt)
over_occupied-Cut box columns chunks_per_read (suc fuel) (r ∷ rows) few v t k =
    let limit : ℕ = units_affordable chunks_per_read (widest_run 0 r.runs) in
    let band = take_band-IsBand columns r.row limit r.runs 1 rows v.1 in
    let n : ℕ = (take_band r.row limit r.runs 1 rows).0 in
    let (one, affords) =
      afforded_segment chunks_per_read n band.more
        (omega (arith, band.fits, afforded_band chunks_per_read (widest_run 0 r.runs))) in
    let counts : count_runs r.runs * n + count_rows (take_band r.row limit r.runs 1 rows).1
        ≡ count_runs r.runs + count_rows rows =
      grind (arith, band.counts) in
    let (fs, here, e, v0) =
      band_segments-Cut box (max 1 chunks_per_read) columns r.row n
        (units_affordable chunks_per_read n) r.runs few v.0 one affords
        (omega (arith, counts, t)) in
    let (gs, rest, f, v1) =
      over_occupied-Cut box columns chunks_per_read fuel (take_band r.row limit r.runs 1 rows).1 few
        band.left (omega (arith, counts, t)) (omega (arith, band.fewer, k)) in
    rw (here, rest, over_occupied)
      (Cut-append box (max 1 chunks_per_read) (count_runs r.runs + count_rows rows)
        (count_runs r.runs * n) (count_rows (take_band r.row limit r.runs 1 rows).1) fs gs
        (sym counts) e v0 f v1)

length-cells_from : (at n : ℕ) → length (cells_from at n) ≡ n
length-cells_from at zero = refl
length-cells_from at (suc n) = ap suc (length-cells_from (suc at) n)

length-run_cells :
    (start : ℕ) (runs : List ColumnRun) → length (run_cells start runs) ≡ count_runs runs
length-run_cells start [] = refl
length-run_cells start (run ∷ runs) =
    let head = length-cells_from (start + run.first) (suc run.last - run.first) in
    omega (
      arith,
      length-append (cells_from (start + run.first) (suc run.last - run.first))
          (run_cells start runs),
      head,
      length-run_cells start runs,
    )

length-row_cells :
    (columns : ℕ) (rows : List OccupiedRow) → length (row_cells columns rows) ≡ count_rows rows
length-row_cells columns [] = refl
length-row_cells columns (r ∷ rows) = omega (
  arith,
  length-append (run_cells (r.row * columns) r.runs) (row_cells columns rows),
  length-run_cells (r.row * columns) r.runs,
  length-row_cells columns rows,
)

-- Footprints, over the rows that Occupancy::Of reads off its occupied cells, of a grid of one column or
-- more and fewer than 2^64 and of fewer than 2^64 cells: its loops end; the chunks of the footprints add
-- up to the number of the occupied cells, which is what LayerChunks says; and no footprint has more chunks
-- than a read affords, or than one where a read affords none.
pub occupied_footprints-Cut :
    (box : OccupiedBox) (columns chunks_per_read : ℕ) (cells : List ℕ)
    → 0 < columns
    → columns < 2 ^ 64
    → length cells < 2 ^ 64
    → Cut
        (max 1 chunks_per_read)
        (length cells)
        (occupied_footprints box chunks_per_read (occupied_rows columns cells []))
unfolding occupied_footprints
occupied_footprints-Cut box columns chunks_per_read cells p few t =
    let rows = occupied_rows columns cells [] in
    let count : count_rows (occupied_rows columns cells []) ≡ length cells =
      sym (length-row_cells columns rows) ∙ ap length (occupied_rows_cells columns few cells p) in
    let all : Cut (max 1 chunks_per_read) (count_rows (occupied_rows columns cells []))
        (occupied_footprints box chunks_per_read (occupied_rows columns cells [])) =
      over_occupied-Cut box columns chunks_per_read (suc (length rows)) rows few
        (occupied_rows-AreRows columns few cells [] p tt) (omega (arith, count, t)) (omega arith) in
    (rw count at all)
