-- ===== src/Tests.antt =====
-- The results at concrete inputs: an image of two axes, a read of it, and a run of two tasks by the
-- calling thread and one more.
mod Walks
mod Ahead
mod Remembered
mod Occupied
mod Documents
mod Histograms
mod Waiting
use carta_zarr.Base.{
  inr, inl, ◌++◌, replicate, drop, length-replicate, ℕ, ◌+◌, ◌*◌, ◌^◌, ◌<◌, ◌≤◌, ◌≡◌, refl, ◌⊎◌,
  ◌↔◌, true, false, List, [], ◌∷◌, some, none, ok, arith, add64, sub64, mul64,
}
use carta_zarr.Image.{
  AxisRole, AxisDescriptor, DataType, data_type-discrete, ImageDescriptor, ChunkGeometry, Range,
  ReadRequest, ReadOptions,
}
use carta_zarr.Chunk.{
  ReadCost, aligned_block_end, chunks_touched, chunks_sampled, decoded_chunk_bytes, chunk_elements,
  multiply_extents, find_data_type, find_in, data_types, default_read_bytes, units_affordable,
  flag_chunks_across, decoded_bytes_per_read, max_decoded_bytes_per_read, read_cost,
  applies_pixel_mask,
}
use carta_zarr.Chunk.Align.{IsBlock, aligned_block_end-IsBlock}
use carta_zarr.Chunk.Touched.{distinct_chunks, chunks_touched-eq-distinct}
use carta_zarr.Chunk.Sampled.{Enumerates, chunks_sampled-Enumerates}
use carta_zarr.Chunk.Cost.{
  default_read_bytes_bounds, units_affordable_lem, IsMostAcross, flag_chunks_across-IsMostAcross,
}
use carta_zarr.Chunk.Grid.{chunk_at}
use carta_zarr.Read.Selection.{
  DestinationOrder, PixelSelection, ReadControl, build_selection, check_read_control, place_axes,
  check_axis, place_axis, count_elements, order_axes, blank, with_elements, reversed,
}
use carta_zarr.Read.Selection.Accepts.{AllAccepted}
use carta_zarr.Read.Selection.Build.{
  IsMatched, Selects, build_selection-Selects, build_selection-accepts,
}
use carta_zarr.Read.Pieces.{
  Piece, slowest_below, slowest_selected_axis, cut_along, plan_pieces, sample_range,
}
use carta_zarr.Read.Pieces.Tiles.{Tiles}
use carta_zarr.Read.Pieces.Fills.{IsPlannable, Fills, cut_along-Tiles, plan_pieces-Fills}
use carta_zarr.Read.Pieces.Sample.{Touches, sample_range_lem}
use carta_zarr.Read.InPieces.{PixelSource, declined, read_pieces}
use carta_zarr.Read.InPieces.Serves.{IsServing, shown, read_pieces-Serves}
use carta_zarr.Strings.{append_utf8, failure}
use carta_zarr.Strings.Utf8.{IsScalar, read_utf8, append_utf8_lem}
use carta_zarr.Pool.{
  finished, Call, start, parked_workers, leave, task_rows, plan_row_tasks, Step, wake, claim, drain,
  complete, count_out, Reach, here, after, IsReturned,
}
use carta_zarr.Pool.Once.{count, Run_each_once}
use carta_zarr.Pool.Rows.{IsIn, task_rows-partition, IsPlan, plan_row_tasks-IsPlan}

aligned_block_end-IsBlock_example : IsBlock 0 5 20 3 2 4 (aligned_block_end 0 5 20 3 2 4)
aligned_block_end-IsBlock_example =
    aligned_block_end-IsBlock 0 5 20 3 2 4 (omega arith) (omega arith) (omega arith) (omega arith)

chunks_touched-eq-distinct_example : chunks_touched 3 20 2 4 ≡ distinct_chunks 3 2 4 20
chunks_touched-eq-distinct_example =
    chunks_touched-eq-distinct 3 20 2 4 (omega arith) (omega arith) (omega arith)

chunks_sampled-Enumerates_example : Enumerates 100 3 8 (chunks_sampled 100 8 3)
chunks_sampled-Enumerates_example = chunks_sampled-Enumerates 100 8 3 (omega arith)

default_read_bytes_bounds_example :
    (decoded_bytes_per_read ≤ default_read_bytes 100)
    × (default_read_bytes 100 ≤ max_decoded_bytes_per_read)
    × (100 < 2 ^ 61
        → ((8 * 100 ≤ default_read_bytes 100)
            ⊎ (default_read_bytes 100 ≡ max_decoded_bytes_per_read))
          × ((a : ℕ) → a ≤ 100 → default_read_bytes a ≤ default_read_bytes 100))
default_read_bytes_bounds_example = default_read_bytes_bounds 100

flag_chunks_across-IsMostAcross_example :
    (n : ℕ) × (flag_chunks_across 20 6 4 ≡ some n) × IsMostAcross 20 6 4 n
flag_chunks_across-IsMostAcross_example =
    flag_chunks_across-IsMostAcross 20 6 4 (omega arith) (omega arith) (omega arith)

task_rows-partition_example :
    (t : ℕ) × (t < 3)
    × IsIn (task_rows t 3 10) 7
    × ((u : ℕ) → u < 3 → IsIn (task_rows u 3 10) 7 → u ≡ t)
task_rows-partition_example = task_rows-partition 3 10 7 (omega arith) (omega arith) (omega arith)

plan_row_tasks-IsPlan_example : IsPlan 1000 64 8 4096 (plan_row_tasks 1000 64 8 4096)
plan_row_tasks-IsPlan_example = plan_row_tasks-IsPlan 1000 64 8 4096 (omega arith)

-- Both threads take a task and come back.
abbrev run_end : Call
run_end = record {
  tasks = 2;
  next = 2;
  out = 0;
  failure = none;
  workers = finished ∷ finished ∷ [];
  done = 0 ∷ 1 ∷ [];
}

run_to_end : Reach (start 1 2) run_end
unfolding start parked_workers leave
run_to_end =
    after
      (after
        (after
          (after
            (after
              (after
                (after (after (after here (claim 0 refl refl)) (wake 1 refl)) (claim 1 refl refl))
                (complete 1 1 refl))
              (drain 1 refl refl))
            (complete 0 0 refl))
          (drain 0 refl refl))
        (count_out 1 refl))
      (count_out 0 refl)

Run_each_once_example :
    (count 1 run_end.done ≤ 1) × (run_end.failure ≡ none → count 1 run_end.done ≡ 1)
Run_each_once_example =
    Run_each_once 1 2 run_end run_to_end (record { caller = refl; none_out = refl }) 1

abbrev axis : AxisRole → ℕ → ℕ → AxisDescriptor
axis role size at = record { name = "axis"; role = role; length = size; storage_index = at }

-- Logical axes x and y of 8 and 6 elements, stored y last.
abbrev image : ImageDescriptor
image = record {
  id = "sky";
  stored_type = DataType.float32;
  axes = axis AxisRole.spatial_x 8 0 ∷ axis AxisRole.spatial_y 6 1 ∷ [];
  has_pixel_mask = false;
}

abbrev chunks : ChunkGeometry
chunks = record {
  fastest_spatial_axis = AxisRole.spatial_y;
  chunk_shape = 4 ∷ 2 ∷ [];
  shard_shape = [];
  grid_shape = [];
  sharded = false;
  compressor = "";
}

abbrev over_x : Range
over_x = record { start = 1; count = 3; stride = 2 }

abbrev over_y : Range
over_y = record { start = 0; count = 6; stride = 1 }

abbrev request : ReadRequest
request = record { axes = over_x ∷ over_y ∷ [] }

image-IsMatched : IsMatched image request
image-IsMatched = record {
  rank = refl;
  words = (omega arith, omega arith, (omega arith, omega arith, tt));
  apart = (((λ e. omega (arith, e)), tt), (tt, tt));
}

abbrev selection : PixelSelection
selection = record {
  start = 1 ∷ 0 ∷ [];
  count = 3 ∷ 6 ∷ [];
  stride = 2 ∷ 1 ∷ [];
  destination_to_stored = 1 ∷ 0 ∷ [];
  elements = 18;
}

selected : build_selection image request DestinationOrder.stored ≡ some (ok selection)
unfolding build_selection place_axes check_axis place_axis count_elements order_axes blank
    with_elements reversed sub64 mul64
selected = refl

build_selection-Selects_example : Selects image request DestinationOrder.stored selection
build_selection-Selects_example =
    build_selection-Selects image request DestinationOrder.stored selection image-IsMatched selected

build_selection-accepts_example :
    ((s : PixelSelection) × (build_selection image request DestinationOrder.stored ≡ some (ok s)))
    ↔ (AllAccepted 2 image.axes request.axes × (18 < 2 ^ 64))
build_selection-accepts_example =
    build_selection-accepts image request DestinationOrder.stored image-IsMatched

request-IsPlannable : IsPlannable chunks request
request-IsPlannable = record {
  selects = (omega arith, (omega arith, tt));
  counted = omega arith;
  no_wrap = (omega arith, omega arith, (omega arith, omega arith, tt));
}

abbrev cost : ReadCost
cost = record { apply_mask = false; chunk_bytes = 32; budget_bytes = 64 }

abbrev options : ReadOptions
options = record { apply_pixel_mask = false; read_budget_bytes = 64 }

slowest : slowest_selected_axis request ≡ some 1
unfolding slowest_selected_axis slowest_below
slowest = refl

costed : read_cost image chunks chunks options ≡ some cost
unfolding read_cost applies_pixel_mask decoded_chunk_bytes chunk_elements multiply_extents
    find_data_type find_in data_types data_type-discrete add64 mul64
costed = refl

cut_along-Tiles_example :
    (pieces : List Piece) × (cut_along request chunks 1 cost ≡ some pieces)
    × Tiles request 1 2 3 0 pieces
cut_along-Tiles_example =
    cut_along-Tiles chunks request 1 cost request-IsPlannable slowest (omega arith)

plan_pieces-Fills_example :
    (pieces : List Piece) × (plan_pieces image chunks chunks request options true ≡ some pieces)
    × Fills 0 18 pieces
plan_pieces-Fills_example =
    plan_pieces-Fills image chunks chunks request options true cost request-IsPlannable costed
      (omega arith)

sample_range_lem_example :
    ((q : ℕ) → Touches 4 (sample_range 4 over_x) q ↔ Touches 4 over_x q)
    × (0 < 4
        → (i j : ℕ) → i < j
        → chunk_at (sample_range 4 over_x).start (sample_range 4 over_x).stride 4 i
          < chunk_at (sample_range 4 over_x).start (sample_range 4 over_x).stride 4 j)
sample_range_lem_example =
    sample_range_lem 4 over_x
      (record { selects = omega arith; strides = omega arith; span = omega arith })

-- The image with a flag.
abbrev flagged_image : ImageDescriptor
flagged_image = record image { has_pixel_mask = true }

-- A source of sevens with no flag set.
abbrev sevens : PixelSelection → List ℕ
sevens s = replicate s.elements 7

abbrev no_flags : PixelSelection → List ℕ
no_flags s = replicate s.elements 0

abbrev seven_source : PixelSource ℕ
seven_source = record {
  read_pixels = λ s buffer control. (sevens s ++ drop s.elements buffer, ok tt);
  read_mask = λ s buffer control. (no_flags s ++ drop s.elements buffer, ok tt);
}

seven_source-IsServing : IsServing flagged_image seven_source sevens no_flags
seven_source-IsServing = record {
  sized = λ s made. length-replicate s.elements 7;
  reads = λ s buffer control made going h. refl;
  masks = λ s buffer control flagged made going h. refl;
}

abbrev logical_selection : PixelSelection
logical_selection = record selection { destination_to_stored = 0 ∷ 1 ∷ [] }

logically :
    build_selection flagged_image request DestinationOrder.logical ≡ some (ok logical_selection)
unfolding build_selection place_axes check_axis place_axis count_elements order_axes blank
    with_elements sub64 mul64
logically = refl

abbrev whole : Piece
whole = record { request = request; first_element = 0 }

abbrev idle_control : ReadControl
idle_control = record { cancellation_requested = false; deadline_passed = false }

unstopped : check_read_control idle_control flagged_image.id ≡ ok tt
unfolding check_read_control
unstopped = refl

undeclined : (n : ℕ) → declined none 18 n ≡ false
unfolding declined
undeclined n = refl

read_pieces-Serves_example :
    read_pieces 99 seven_source flagged_image options idle_control none true 18
      (whole ∷ [])
      (replicate 20 0)
    ≡ record {
      buffer = shown 99 true sevens no_flags logical_selection ++ [] ++ (0 ∷ 0 ∷ []);
      answer = some (ok 18);
    }
read_pieces-Serves_example =
    read_pieces-Serves 99 seven_source sevens no_flags flagged_image seven_source-IsServing options
      idle_control none true 18 unstopped (λ _. refl) 0 18 (whole ∷ []) (logical_selection ∷ []) []
      (replicate 20 0) (logically, refl, refl) (λ _. (inr (omega arith), tt)) refl (omega arith)
      undeclined

-- The euro sign after an A.
append_utf8_lem_example :
    (IsScalar 8364
      → (bytes : List ℕ) × (append_utf8 (65 ∷ []) 8364 ≡ inr ((65 ∷ []) ++ bytes))
        × ((rest : List ℕ) → read_utf8 (bytes ++ rest) ≡ some (8364, rest)))
    × ((IsScalar 8364 → ⊥)
        → append_utf8 (65 ∷ []) 8364 ≡ inl (failure "Invalid Unicode code point"))
append_utf8_lem_example = append_utf8_lem (65 ∷ []) 8364
