-- ===== src/ReadAhead.antt =====
-- src/read_ahead.h, src/read_ahead.cc and include/carta-zarr/read_ahead.h: the runs of chunks that the
-- planes of an animation are in, what the caches they are read through have to hold, and what is
-- decoded ahead. ReadAhead/Player.antt is the animation itself.
pub mod Player
pub mod Runs
pub mod Fits
use carta_zarr.Base.{
  ℕ, zero, suc, ◌+◌, ◌/◌, ◌^◌, min, max, Bool, true, false, ◌&&◌, ◌||◌, List, [], ◌∷◌, ◌++◌, Option,
  none, some, String, ErrorCode, Part, text, number, Result, ok, err, fail, if◌then◌else◌, ltb, leb,
  ◌==◌, length, get_or, add64, sub64, mul64,
}
use carta_zarr.Image.{AxisRole, AxisDescriptor, ImageDescriptor, ChunkGeometry, Range, ReadRequest}
use carta_zarr.Chunk.{chunk_elements, decoded_chunk_bytes, flag_chunks_across, flag_layout}
use Prim.Native.String.{[] as no_text, ◌∷◌ as ◌then◌, ◌++◌ as ◌followed_by◌}

-- Size
pub size_parts : ℕ → List Part
size_parts bytes =
    if ltb bytes (2 ^ 20)
    then number bytes ∷ text " bytes" ∷ []
    else number (bytes / 2 ^ 20) ∷ text " MiB" ∷ []

-- ChunksAlong
unfoldable pub chunks_along : ℕ → ℕ → ℕ
chunks_along length chunk = if chunk == 0 then 1 else max 1 (sub64 (add64 length chunk) 1 / chunk)

-- struct Run
pub record Run : Type 0 where
  pub first : List ℕ
  pub last : List ℕ

-- Run's operator==, of the vectors and of the two of them.
unfoldable pub same_list : List ℕ → List ℕ → Bool
same_list [] [] = true
same_list [] (y ∷ ys) = false
same_list (x ∷ xs) [] = false
same_list (x ∷ xs) (y ∷ ys) = x == y && same_list xs ys

unfoldable pub same_run : Run → Run → Bool
unfolding same_list
same_run r s = same_list r.first s.first && same_list r.last s.last

-- The last element that a range selects.
unfoldable pub last_of : Range → ℕ
last_of range =
    add64 range.start
      (if range.count == 0 then 0 else mul64 (sub64 range.count 1) (max 1 range.stride))

unfoldable pub run_chunk : ℕ → ℕ → ℕ
run_chunk chunk element = if chunk == 0 then 0 else element / chunk

unfoldable pub push_chunks : ℕ → ℕ → Run → Run
push_chunks first last run = record { first = first ∷ run.first; last = last ∷ run.last }

-- RunOf's loop, over the axes from `axis` on.
unfoldable pub run_from : List ℕ → ℕ → List Range → Run
unfolding last_of run_chunk push_chunks
run_from chunks axis [] = record { first = []; last = [] }
run_from chunks axis (range ∷ ranges) =
    let chunk = get_or chunks axis 0 in
    push_chunks (run_chunk chunk range.start) (run_chunk chunk (last_of range))
      (run_from chunks (axis + 1) ranges)

-- RunOf
unfoldable pub run_of : ChunkGeometry → ReadRequest → Run
unfolding run_from
run_of geometry request = run_from geometry.chunk_shape 0 request.axes

-- The whole chunks that a range of an axis touches.
unfoldable pub whole_chunks : ℕ → ℕ → ℕ → ℕ → Range
whole_chunks length chunk first_chunk last_chunk =
    let first = if chunk == 0 then 0 else min length (mul64 first_chunk chunk) in
    let end = if chunk == 0 then length else min length (mul64 (add64 last_chunk 1) chunk) in
    record { start = first; count = sub64 end first; stride = 1 }

-- RunRequest's loop, over the axes of the request and of the descriptor from `axis` on.
unfoldable pub run_ranges : List AxisDescriptor → List ℕ → Run → ℕ → List Range → List Range
unfolding whole_chunks
run_ranges axes chunks run axis [] = []
run_ranges [] chunks run axis (range ∷ ranges) = range ∷ ranges
run_ranges (a ∷ axes) chunks run axis (range ∷ ranges) =
    whole_chunks a.length (get_or chunks axis 0) (get_or run.first axis 0) (get_or run.last axis 0)
    ∷ run_ranges axes chunks run (axis + 1) ranges

-- RunRequest
unfoldable pub run_request : ImageDescriptor → ChunkGeometry → ReadRequest → ReadRequest
unfolding run_of run_ranges
run_request descriptor geometry plane = record {
  axes = run_ranges descriptor.axes geometry.chunk_shape (run_of geometry plane) 0 plane.axes;
}

-- AxisIndex, of the two roles that a plane lies along.
unfoldable pub is_role : AxisRole → AxisRole → Bool
is_role AxisRole.spatial_x AxisRole.spatial_x = true
is_role AxisRole.spatial_y AxisRole.spatial_y = true
is_role AxisRole.spectral AxisRole.spectral = true
is_role AxisRole.polarization AxisRole.polarization = true
is_role AxisRole.time AxisRole.time = true
is_role AxisRole.other AxisRole.other = true
is_role _ _ = false

unfoldable pub axis_index_from : List AxisDescriptor → AxisRole → ℕ → Option ℕ
unfolding is_role
axis_index_from [] role index = none
axis_index_from (a ∷ axes) role index =
    if is_role a.role role then some index else axis_index_from axes role (index + 1)

unfoldable pub axis_index : List AxisDescriptor → AxisRole → Option ℕ
unfolding axis_index_from
axis_index axes role = axis_index_from axes role 0

-- PlaneRunBytes' loop over the axes of the flag; `none` is flag_chunks_across's.
unfoldable pub flag_chunks_from : List AxisDescriptor → List ℕ → List ℕ → ℕ → ℕ → ℕ → ℕ → Option ℕ
unfolding chunks_along
flag_chunks_from [] pixels flag x y axis flag_chunks = some flag_chunks
flag_chunks_from (a ∷ axes) pixels flag x y axis flag_chunks =
    let flag_chunk = get_or flag axis 0 in
    let across =
      if axis == x || axis == y
      then some (chunks_along a.length flag_chunk)
      else flag_chunks_across a.length (get_or pixels axis 0) flag_chunk in
    elim across [
      | none ↦ none
      | some n ↦ flag_chunks_from axes pixels flag x y (axis + 1) (mul64 flag_chunks n)
    ]

abbrev length_of : List AxisDescriptor → ℕ → ℕ
length_of [] i = 0
length_of (a ∷ axes) zero = a.length
length_of (a ∷ axes) (suc i) = length_of axes i

-- PlaneRunBytes
unfoldable pub plane_run_bytes : ImageDescriptor → ChunkGeometry → ChunkGeometry → Bool → Option ℕ
unfolding chunks_along axis_index flag_chunks_from flag_layout
plane_run_bytes descriptor geometry flag_geometry apply_mask =
    let flag = flag_layout geometry flag_geometry in
    elim (axis_index descriptor.axes AxisRole.spatial_x) [
      | none ↦ some 0
      | some x ↦ elim (axis_index descriptor.axes AxisRole.spatial_y) [
        | none ↦ some 0
        | some y ↦
            let chunks =
              mul64 (chunks_along (length_of descriptor.axes x) (get_or geometry.chunk_shape x 0))
                (chunks_along (length_of descriptor.axes y) (get_or geometry.chunk_shape y 0)) in
            let pixels = mul64 chunks (decoded_chunk_bytes descriptor geometry) in
            if apply_mask
            then elim (flag_chunks_from descriptor.axes geometry.chunk_shape flag.chunk_shape x y 0
                1) [
                  | none ↦ none
                  | some flag_chunks ↦ some (add64 pixels (mul64 flag_chunks (chunk_elements flag)))
                ]
            else some pixels
      ]
    ]

-- struct CacheShare, its identity a number that orders as the source's pointer does.
pub record CacheShare : Type 0 where
  pub identity : ℕ
  pub bytes : ℕ

-- class RunSource, as far as it answers; what its Prefetch does is a step of Player.antt.
pub record RunSource : Type 0 where
  pub runs : ReadRequest → Run
  pub run_bytes : ℕ
  pub cache : CacheShare
  pub name : String

-- struct Demand
pub record Demand : Type 0 where
  pub needed : ℕ
  pub holds : ℕ
  pub images : String

unfoldable pub is_empty : String → Bool
is_empty no_text = true
is_empty (c then s) = false

-- What For's first loop adds to the demand on a source's cache.
unfoldable pub demand_more : RunSource → Demand → Demand
unfolding is_empty
demand_more source demand = record {
  needed = add64 demand.needed (mul64 2 source.run_bytes);
  holds = source.cache.bytes;
  images =
      demand.images
      followed_by ((if is_empty demand.images then "" else ", ") followed_by source.name);
}

abbrev pub no_demand : Demand
no_demand = record { needed = 0; holds = 0; images = "" }

-- `caches[identity]` and the update of it: the table is in the order of its keys.
unfoldable pub demand_on : RunSource → List (ℕ × Demand) → List (ℕ × Demand)
unfolding demand_more
demand_on source [] = (source.cache.identity, demand_more source no_demand) ∷ []
demand_on source ((identity, demand) ∷ rest) =
    if source.cache.identity == identity
    then (identity, demand_more source demand) ∷ rest
    else if ltb source.cache.identity identity
    then (source.cache.identity, demand_more source no_demand) ∷ (identity, demand) ∷ rest
    else (identity, demand) ∷ demand_on source rest

-- For's first loop: `none` is a source that is not there.
unfoldable pub demands : List (Option RunSource) → List (ℕ × Demand) → Result (List (ℕ × Demand))
unfolding demand_on
demands [] caches = ok caches
demands (none ∷ sources) caches =
    fail ErrorCode.invalid_argument
      (text "Reading ahead needs a plane of every image, and "
        ∷ text "one image"
        ∷ text " has none"
        ∷ [])
      ""
demands (some source ∷ sources) caches =
    if source.run_bytes == 0
    then fail ErrorCode.invalid_argument
        (text "Reading ahead needs a plane of every image, and "
          ∷ text source.name
          ∷ text " has none"
          ∷ [])
        source.name
    else demands sources (demand_on source caches)

-- For's second loop
unfoldable pub check_room : List (ℕ × Demand) → Result (Unit {0})
unfolding size_parts
check_room [] = ok tt
check_room ((identity, demand) ∷ caches) =
    if ltb demand.holds demand.needed
    then fail ErrorCode.buffer_too_small
        (text
              "Reading ahead needs room for two runs of chunks of each image in the cache it reads through: "
            ∷ text demand.images
            ∷ text " need "
            ∷ size_parts demand.needed
          ++ (text " and their cache holds " ∷ size_parts demand.holds))
        ""
    else check_room caches

unfoldable pub check_caches : Result (List (ℕ × Demand)) → Result (Unit {0})
unfolding check_room
check_caches (err e) = err e
check_caches (ok caches) = check_room caches

-- ReadingAhead::For, up to making the object from the sources.
unfoldable pub for_sources : List (Option RunSource) → Result (Unit {0})
unfolding demands check_caches
for_sources [] =
    fail ErrorCode.invalid_argument (text "Reading ahead needs an image to read ahead of" ∷ []) ""
for_sources (source ∷ sources) = check_caches (demands (source ∷ sources) [])
