-- ===== src/Read/Pieces.antt =====
-- src/read/pieces.cc: how a read is cut into pieces, and the sample of one element a chunk.
pub mod Tiles
pub mod Sample
pub mod Fills
use carta_zarr.Base.{
  ℕ, zero, suc, ◌+◌, ◌-◌, ◌*◌, ◌/◌, ◌%◌, max, Bool, true, false, ◌&&◌, ◌||◌, not, List, [], ◌∷◌,
  Option, none, some, if◌then◌else◌, ltb, leb, ◌==◌, length, get_or, set, add64, sub64, mul64,
}
use carta_zarr.Image.{ImageDescriptor, ChunkGeometry, Range, ReadRequest, ReadOptions}
use carta_zarr.Chunk.{ReadCost, read_cost, chunks_touched, aligned_block_end}
use mathlib.Core.Option

-- struct Piece
pub record Piece : Type 0 where
  pub request : ReadRequest
  pub first_element : ℕ

-- `Range{}`, which stands for a range that is not there: the source's `at` throws.
abbrev pub no_range : Range
no_range = record { start = 0; count = 0; stride = 1 }

abbrev pub range_at : List Range → ℕ → Range
range_at axes i = get_or axes i no_range

-- The loop of SlowestSelectedAxis over the axes below `i`, the last first.
unfoldable pub slowest_below : List Range → ℕ → Option ℕ
slowest_below axes zero = none
slowest_below axes (suc i) = if ltb 1 (range_at axes i).count then some i else slowest_below axes i

unfoldable pub slowest_selected_axis : ReadRequest → Option ℕ
unfolding slowest_below
slowest_selected_axis request = slowest_below request.axes (length request.axes)

-- The loop of UnitsPerPiece over the axes from `i` on.
other_chunks_from : ℕ → ChunkGeometry → List Range → ℕ → ℕ → ℕ
other_chunks_from axis geometry [] i other_chunks = other_chunks
other_chunks_from axis geometry (range ∷ axes) i other_chunks =
    let chunk = get_or geometry.chunk_shape i 0 in
    let touched =
      if chunk == 0 then 1 else max 1 (chunks_touched range.start range.count range.stride chunk) in
    other_chunks_from axis geometry axes (i + 1)
      (if i == axis then other_chunks else mul64 other_chunks touched)

-- How many chunks of the cut axis the budget lets one piece hold, and how many of its elements.
pub chunks_per_piece : ReadRequest → ChunkGeometry → ℕ → ReadCost → ℕ
unfolding other_chunks_from
chunks_per_piece request geometry axis cost =
    let other_chunks = other_chunks_from axis geometry request.axes 0 1 in
    let row_bytes = mul64 cost.chunk_bytes other_chunks in
    max 1 (cost.budget_bytes / max 1 row_bytes)

pub units_per_piece : ReadRequest → ChunkGeometry → ℕ → ReadCost → ℕ
unfolding chunks_per_piece
units_per_piece request geometry axis cost =
    let chunks = chunks_per_piece request geometry axis cost in
    let chunk = get_or geometry.chunk_shape axis 0 in
    let stride = max 1 (range_at request.axes axis).stride in
    if not (chunk == 0) && leb chunk stride
    then chunks
    else max 1 (mul64 chunks (max 1 chunk) / stride)

-- The elements that the axes below `axis` select together.
pub elements_below : ℕ → List Range → ℕ → ℕ
elements_below zero axes elements = elements
elements_below (suc axis) [] elements = elements
elements_below (suc axis) (range ∷ axes) elements =
    elements_below axis axes (mul64 elements range.count)

-- The request with `count` elements of its range along `axis`, from the `begin`-th on.
pub narrow : ReadRequest → ℕ → ℕ → ℕ → ReadRequest
narrow request axis begin count =
    let cut = range_at request.axes axis in
    record {
      axes =
          set request.axes axis
            (record cut { start = add64 cut.start (mul64 begin cut.stride); count = count });
    }

-- The loop that cuts, on fuel.
pub cut_pieces : ℕ → ReadRequest → ℕ → ℕ → ℕ → ℕ → ℕ → Option (List Piece)
cut_pieces zero request axis units chunk per_unit begin = none
cut_pieces (suc fuel) request axis units chunk per_unit begin =
    let cut = range_at request.axes axis in
    let end = aligned_block_end begin units cut.count cut.start cut.stride chunk in
    let piece : Piece = record {
      request = narrow request axis begin (sub64 end begin);
      first_element = mul64 begin per_unit;
    } in
    let rest = cut_pieces fuel request axis units chunk per_unit end in
    if ltb begin cut.count then Option.map (λ pieces. piece ∷ pieces) rest else some []

-- The cut of a read along `axis`, once the cost of a chunk is known. A piece holds an element at
-- least, so one round for each element of the axis and one to stop are enough.
pub cut_along : ReadRequest → ChunkGeometry → ℕ → ReadCost → Option (List Piece)
unfolding cut_pieces elements_below
cut_along request geometry axis cost =
    cut_pieces (suc (range_at request.axes axis).count) request axis
      (units_per_piece request geometry axis cost) (get_or geometry.chunk_shape axis 0)
      (elements_below axis request.axes 1) 0

pub whole_piece : ReadRequest → Piece
whole_piece request = record { request = request; first_element = 0 }

cut_costed : ReadRequest → ChunkGeometry → ℕ → Option ReadCost → Option (List Piece)
cut_costed request geometry axis none = none
cut_costed request geometry axis (some cost) = cut_along request geometry axis cost

cut_or_whole :
    ImageDescriptor
    → ChunkGeometry
    → ChunkGeometry
    → ReadRequest
    → ReadOptions
    → Bool
    → Option ℕ
    → Option (List Piece)
cut_or_whole descriptor geometry flag_geometry request options watching none =
    some (whole_piece request ∷ [])
cut_or_whole descriptor geometry flag_geometry request options watching (some axis) =
    if not watching && options.read_budget_bytes == 0
    then some (whole_piece request ∷ [])
    else cut_costed request geometry axis (read_cost descriptor geometry flag_geometry options)

-- PlanPieces
unfoldable pub plan_pieces :
    ImageDescriptor
    → ChunkGeometry
    → ChunkGeometry
    → ReadRequest
    → ReadOptions
    → Bool
    → Option (List Piece)
unfolding cut_or_whole cut_costed whole_piece slowest_selected_axis
plan_pieces descriptor geometry flag_geometry request options watching =
    cut_or_whole descriptor geometry flag_geometry request options watching
      (slowest_selected_axis request)

-- OneElementPerChunk: the loop's body for one axis, and the loop.
pub sample_range : ℕ → Range → Range
sample_range chunk range =
    let first = range.start / chunk in
    let last = add64 range.start (mul64 (sub64 range.count 1) range.stride) / chunk in
    if chunk == 0 || leb chunk range.stride
    then range
    else record { start = mul64 first chunk; count = add64 (sub64 last first) 1; stride = chunk }

pub sample_axes : List ℕ → List Range → List Range
sample_axes shape [] = []
sample_axes [] (range ∷ axes) = sample_range 0 range ∷ sample_axes [] axes
sample_axes (chunk ∷ shape) (range ∷ axes) = sample_range chunk range ∷ sample_axes shape axes

pub one_element_per_chunk : ChunkGeometry → ReadRequest → ReadRequest
unfolding sample_axes sample_range
one_element_per_chunk geometry request = record {
  axes = sample_axes geometry.chunk_shape request.axes;
}
