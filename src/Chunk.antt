-- ===== src/Chunk.antt =====
-- src/chunk_blocks.h (with src/zarr/data_type.h and src/pixel_mask.h's test): how chunks bound what
-- a read asks for. Every function is the source's, on 64-bit words.
pub mod Grid
pub mod Align
pub mod Touched
pub mod Sampled
pub mod Cost
use carta_zarr.Base.{
  ℕ, zero, suc, ◌+◌, ◌-◌, ◌*◌, ◌/◌, ◌%◌, ◌^◌, min, max, Bool, true, false, ◌&&◌, ◌||◌, List, [],
  ◌∷◌, Option, none, some, ltb, leb, ◌==◌, if◌then◌else◌, get_or, add64, sub64, mul64, String,
}
use carta_zarr.Image.{
  DataType, data_type-discrete, AxisDescriptor, ImageDescriptor, ChunkGeometry, ReadOptions,
}
use text.Mathlib.Text.{◌==◌ as ◌same_text◌}
use mathlib.Core.Bool.{not}
use mathlib.Core.Logic.{ite}

-- kDecodedBytesPerRead, kMinChunksPerRead, kMaxDecodedBytesPerRead
abbrev pub decoded_bytes_per_read : ℕ
decoded_bytes_per_read = 64 * 2 ^ 20

abbrev pub min_chunks_per_read : ℕ
min_chunks_per_read = 8

abbrev pub max_decoded_bytes_per_read : ℕ
max_decoded_bytes_per_read = 256 * 2 ^ 20

unfoldable pub default_read_bytes : ℕ → ℕ
default_read_bytes chunk_bytes =
    let wanted = mul64 (max 1 chunk_bytes) min_chunks_per_read in
    min max_decoded_bytes_per_read (max decoded_bytes_per_read wanted)

unfoldable pub units_affordable : ℕ → ℕ → ℕ
units_affordable chunks_per_read chunks_per_unit = max 1 (chunks_per_read / max 1 chunks_per_unit)

-- The loop of ChunkElements over the chunk's extents.
unfoldable pub multiply_extents : ℕ → List ℕ → ℕ
multiply_extents elements [] = elements
multiply_extents elements (extent ∷ rest) = multiply_extents (mul64 elements (max 1 extent)) rest

unfoldable pub chunk_elements : ChunkGeometry → ℕ
unfolding multiply_extents
chunk_elements geometry = multiply_extents 1 geometry.chunk_shape

-- struct DataTypeInfo
pub record DataTypeInfo : Type 0 where
  pub name : String
  pub kind : DataType
  pub element_bytes : ℕ
  pub real : Bool

abbrev info : String → DataType → ℕ → Bool → DataTypeInfo
info s k n r = record { name = s; kind = k; element_bytes = n; real = r }

-- kDataTypes, in the table's order.
unfoldable pub data_types : List DataTypeInfo
data_types =
    info "bool" DataType.boolean 1 false
    ∷ info "int8" DataType.int8 1 true
    ∷ info "uint8" DataType.uint8 1 true
    ∷ info "int16" DataType.int16 2 true
    ∷ info "uint16" DataType.uint16 2 true
    ∷ info "int32" DataType.int32 4 true
    ∷ info "uint32" DataType.uint32 4 true
    ∷ info "int64" DataType.int64 8 true
    ∷ info "uint64" DataType.uint64 8 true
    ∷ info "float16" DataType.float16 2 true
    ∷ info "float32" DataType.float32 4 true
    ∷ info "float64" DataType.float64 8 true
    ∷ info "complex64" DataType.complex64 8 false
    ∷ info "complex128" DataType.complex128 16 false
    ∷ []

unfoldable pub find_in : List DataTypeInfo → DataType → Option DataTypeInfo
find_in [] kind = none
find_in (i ∷ rest) kind = ite (data_type-discrete i.kind kind) (some i) (find_in rest kind)

-- FindDataType by the enum.
unfoldable pub find_data_type : DataType → Option DataTypeInfo
unfolding find_in data_types
find_data_type kind = find_in data_types kind

-- FindDataType by the name.
unfoldable pub find_named_in : List DataTypeInfo → String → Option DataTypeInfo
find_named_in [] name = none
find_named_in (i ∷ rest) name = if i.name same_text name then some i else find_named_in rest name

unfoldable pub find_named_data_type : String → Option DataTypeInfo
unfolding find_named_in data_types
find_named_data_type name = find_named_in data_types name

-- `info != nullptr ? info->element_bytes : 4`
abbrev element_bytes_of : Option DataTypeInfo → ℕ
element_bytes_of (some i) = i.element_bytes
element_bytes_of none = 4

unfoldable pub decoded_chunk_bytes : ImageDescriptor → ChunkGeometry → ℕ
decoded_chunk_bytes descriptor geometry =
    max 1
      (mul64 (chunk_elements geometry) (element_bytes_of (find_data_type descriptor.stored_type)))

-- The loop of FlagChunksAcross from the pixel chunk that begins at `first`, on fuel.
unfoldable pub flag_walk : ℕ → ℕ → ℕ → ℕ → ℕ → ℕ → Option ℕ
flag_walk zero length step flag_chunk first most = none
flag_walk (suc fuel) length step flag_chunk first most =
    let last = sub64 (min (add64 first step) length) 1 in
    let most' = max most (add64 (sub64 (last / flag_chunk) (first / flag_chunk)) 1) in
    let rest = flag_walk fuel length step flag_chunk (add64 first step) most' in
    if ltb first length then rest else some most

-- `length + 1` rounds are enough, each moving on by an element at least: Chunk/Cost.antt.
unfoldable pub flag_chunks_across : ℕ → ℕ → ℕ → Option ℕ
flag_chunks_across length pixel_chunk flag_chunk =
    if flag_chunk == 0 || length == 0 || flag_chunk == pixel_chunk
    then some 1
    else flag_walk (length + 1) length (if pixel_chunk == 0 then length else pixel_chunk) flag_chunk
        0 1

-- The loop of DecodedFlagBytes over the axes, from axis `axis` on.
flag_bytes_from : List AxisDescriptor → List ℕ → List ℕ → ℕ → ℕ → Option ℕ
flag_bytes_from [] pixels flag axis bytes = some bytes
flag_bytes_from (a ∷ axes) pixels flag axis bytes =
    elim (flag_chunks_across a.length (get_or pixels axis 0) (get_or flag axis 0)) [
      | none ↦ none
      | some across ↦
          flag_bytes_from axes pixels flag (axis + 1)
            (mul64 bytes (mul64 across (max 1 (get_or flag axis 0))))
    ]

-- The layout that the flag is kept in: the pixels' where it has no chunk shape of its own.
unfoldable pub flag_layout : ChunkGeometry → ChunkGeometry → ChunkGeometry
flag_layout geometry flag_geometry = elim flag_geometry.chunk_shape [
  | [] ↦ geometry
  | c ∷ cs ↦ flag_geometry
]

unfoldable pub decoded_flag_bytes : ImageDescriptor → ChunkGeometry → ChunkGeometry → Option ℕ
unfolding flag_bytes_from flag_layout
decoded_flag_bytes descriptor geometry flag_geometry =
    flag_bytes_from descriptor.axes geometry.chunk_shape
      (flag_layout geometry flag_geometry).chunk_shape 0 1

unfoldable pub applies_pixel_mask : ReadOptions → ImageDescriptor → Bool
applies_pixel_mask options descriptor = options.apply_pixel_mask && descriptor.has_pixel_mask

-- struct ReadCost
pub record ReadCost : Type 0 where
  pub apply_mask : Bool
  pub chunk_bytes : ℕ
  pub budget_bytes : ℕ

abbrev with_flag : Bool → ℕ → ℕ → ReadOptions → ReadCost
with_flag apply_mask pixel_bytes flag_bytes options =
    let chunk_bytes = add64 pixel_bytes flag_bytes in
    record {
      apply_mask = apply_mask;
      chunk_bytes = chunk_bytes;
      budget_bytes =
          if options.read_budget_bytes == 0
          then default_read_bytes chunk_bytes
          else options.read_budget_bytes;
    }

-- ReadCost::Of
unfoldable pub read_cost :
    ImageDescriptor → ChunkGeometry → ChunkGeometry → ReadOptions → Option ReadCost
unfolding applies_pixel_mask
read_cost descriptor geometry flag_geometry options =
    let apply_mask = applies_pixel_mask options descriptor in
    let pixel_bytes = decoded_chunk_bytes descriptor geometry in
    elim (if apply_mask then decoded_flag_bytes descriptor geometry flag_geometry else some 0) [
      | none ↦ none
      | some flag_bytes ↦ some (with_flag apply_mask pixel_bytes flag_bytes options)
    ]

-- AlignedBlockEnd's `chunk_of` and `first_at`.
unfoldable pub chunk_of : ℕ → ℕ → ℕ → ℕ → ℕ
chunk_of axis_start stride chunk index = add64 axis_start (mul64 index stride) / chunk

unfoldable pub first_at : ℕ → ℕ → ℕ → ℕ
first_at axis_start stride absolute =
    let offset = sub64 absolute axis_start in
    if leb absolute axis_start
    then 0
    else add64 (offset / stride) (if offset % stride == 0 then 0 else 1)

-- AlignedBlockEnd from its `target` on, and whole.
unfoldable pub aligned_from_target : ℕ → ℕ → ℕ → ℕ → ℕ → ℕ → ℕ
aligned_from_target begin target total axis_start stride chunk =
    let chunk_index = chunk_of axis_start stride chunk target in
    let chunk_first = first_at axis_start stride (mul64 chunk_index chunk) in
    if leb total target || chunk == 0 || stride == 0
    then target
    else if not (chunk_of axis_start stride chunk (sub64 target 1) == chunk_index)
    then target
    else if ltb begin chunk_first
    then chunk_first
    else min (first_at axis_start stride (mul64 (add64 chunk_index 1) chunk)) total

unfoldable pub aligned_block_end : ℕ → ℕ → ℕ → ℕ → ℕ → ℕ → ℕ
aligned_block_end begin desired total axis_start stride chunk =
    aligned_from_target begin (min (add64 begin (if desired == 0 then 1 else desired)) total) total
      axis_start stride chunk

unfoldable pub chunks_touched : ℕ → ℕ → ℕ → ℕ → ℕ
chunks_touched start count stride chunk =
    let last = add64 start (mul64 (sub64 count 1) (if stride == 0 then 1 else stride)) in
    if count == 0
    then 0
    else if chunk == 0 || leb chunk stride
    then count
    else add64 (sub64 (last / chunk) (start / chunk)) 1

-- class SampledChunks: what its constructor leaves.
pub record SampledChunks : Type 0 where
  pub chunk : ℕ
  pub stride : ℕ
  pub size : ℕ
  pub every : Bool

-- The constructor, which ChunksSampled calls.
unfoldable pub chunks_sampled : ℕ → ℕ → ℕ → SampledChunks
chunks_sampled length chunk stride =
    let c = max 1 chunk in
    let k = max 1 stride in
    let samples = add64 (sub64 length 1 / k) 1 in
    let every = ltb k c in
    if length == 0 then record { chunk = c; stride = k; size = 0; every = true } else record {
      chunk = c;
      stride = k;
      size = if every then add64 (mul64 (sub64 samples 1) k / c) 1 else samples;
      every = every;
    }

-- operator[]
unfoldable pub sampled_chunk : SampledChunks → ℕ → ℕ
sampled_chunk s index = if s.every then index else mul64 index s.stride / s.chunk
