-- ===== src/Pass.antt =====
-- What a pass over an image's planes decides before it reads: src/reduce/pass_plan.h and
-- src/reduce/pass.cc; footprints are src/reduce/footprint.h.
pub mod Walk
pub mod Sampled
pub mod Emits
pub mod Planned
use carta_zarr.Base.{
  ℕ, zero, suc, ◌+◌, ◌-◌, ◌*◌, ◌/◌, ◌%◌, ◌^◌, min, max, Bool, true, false, not, ◌&&◌, List, [], ◌∷◌,
  Option, none, some, if◌then◌else◌, ltb, leb, ◌==◌, get_elem?, add64, sub64, mul64,
}
use carta_zarr.Image.{AxisRole, AxisDescriptor, ImageDescriptor, ChunkGeometry, Range, ReadOptions}
use carta_zarr.Chunk.{
  ReadCost, read_cost, units_affordable, aligned_block_end, chunks_touched, SampledChunks,
  sampled_chunk,
}
use carta_zarr.Planes.{AxisMap, PlaneSelection, length_at}

-- kSpectralEmitBudgetBytes
abbrev pub spectral_emit_budget_bytes : ℕ
spectral_emit_budget_bytes = 64 * 2 ^ 20

-- class PassPlan
pub record PassPlan : Type 0 where
  pub descriptor : ImageDescriptor
  pub map : AxisMap
  pub axis_u : ℕ
  pub axis_v : ℕ
  pub u_length : ℕ
  pub v_length : ℕ
  pub chunk_u : ℕ
  pub chunk_v : ℕ
  pub chunk_bytes : ℕ
  pub slab_budget_bytes : ℕ
  pub band_rows : ℕ
  pub layer_chunks : ℕ
  pub planes : PlaneSelection
  pub sample : ℕ
  pub apply_mask : Bool
  pub chunk_depth : ℕ
  pub least_channels : ℕ

-- PassPlan::ChunksPerRead
unfoldable pub chunks_per_read : ℕ → ℕ → ℕ
chunks_per_read slab_budget_bytes chunk_bytes = slab_budget_bytes / max 1 chunk_bytes

-- PlanPass' `touched`
unfoldable pub sample_touched : ℕ → ℕ → ℕ → ℕ
sample_touched sample length chunk =
    if length == 0 then 0 else chunks_touched 0 (add64 (sub64 length 1 / sample) 1) sample chunk

unfoldable pub swaps : ChunkGeometry → Bool
swaps geometry = elim geometry.fastest_spatial_axis [ AxisRole.spatial_y ↦ true | _ ↦ false ]

-- PlanPass, once the chunks along u, v and the spectrum are there and the cost of a read is known.
unfoldable pub plan_costed :
    ImageDescriptor → Bool → AxisMap → PlaneSelection → ℕ → ℕ → ℕ → ℕ → ReadCost → PassPlan
unfolding chunks_per_read sample_touched
plan_costed descriptor swap map planes sample' chunk_u' chunk_v' depth cost =
    let axis_u = if swap then map.y else map.x in
    let axis_v = if swap then map.x else map.y in
    let chunk_u = max 1 chunk_u' in
    let chunk_v = max 1 chunk_v' in
    let chunk_depth = max 1 depth in
    let stride = planes.spectral.stride in
    let sample = max 1 sample' in
    let row_chunks = max 1 (sample_touched sample (length_at descriptor axis_u) chunk_u) in
    let column_chunks = max 1 (sample_touched sample (length_at descriptor axis_v) chunk_v) in
    record {
      descriptor = descriptor;
      map = map;
      axis_u = axis_u;
      axis_v = axis_v;
      u_length = length_at descriptor axis_u;
      v_length = length_at descriptor axis_v;
      chunk_u = chunk_u;
      chunk_v = chunk_v;
      chunk_bytes = cost.chunk_bytes;
      slab_budget_bytes = cost.budget_bytes;
      band_rows = units_affordable (chunks_per_read cost.budget_bytes cost.chunk_bytes) row_chunks;
      layer_chunks = max 1 (mul64 row_chunks column_chunks);
      planes = planes;
      sample = sample;
      apply_mask = cost.apply_mask;
      chunk_depth = chunk_depth;
      least_channels = add64 (chunk_depth / stride) (if chunk_depth % stride == 0 then 0 else 1);
    }

-- Whether `descriptor.axes.at(axis)` finds an axis.
unfoldable pub has_axis : ImageDescriptor → ℕ → Bool
has_axis descriptor axis = elim (get_elem? descriptor.axes axis) [ none ↦ false | some a ↦ true ]

-- PlanPass. `none` is what `at` throws, and where the cost of a read is not found.
unfoldable pub plan_pass :
    ImageDescriptor
    → ChunkGeometry
    → ChunkGeometry
    → AxisMap
    → PlaneSelection
    → ℕ
    → ReadOptions
    → Option PassPlan
unfolding plan_costed swaps has_axis
plan_pass descriptor geometry flag_geometry map planes sample options =
    let swap = swaps geometry in
    let axis_u = if swap then map.y else map.x in
    let axis_v = if swap then map.x else map.y in
    if not (has_axis descriptor axis_u && has_axis descriptor axis_v)
    then none
    else elim (get_elem? geometry.chunk_shape axis_u) [
      | none ↦ none
      | some chunk_u ↦ elim (get_elem? geometry.chunk_shape axis_v) [
        | none ↦ none
        | some chunk_v ↦ elim (get_elem? geometry.chunk_shape map.spectral) [
          | none ↦ none
          | some depth ↦ elim (read_cost descriptor geometry flag_geometry options) [
            | none ↦ none
            | some cost ↦
                some (plan_costed descriptor swap map planes sample chunk_u chunk_v depth cost)
          ]
        ]
      ]
    ]

module _ (plan : PassPlan) where
  -- PassPlan::ChunksTouched, of the selected channels [begin, end)
  pub channels_touched : ℕ → ℕ → ℕ
  channels_touched begin end =
      let spectral = plan.planes.spectral in
      chunks_touched (add64 spectral.start (mul64 begin spectral.stride)) (sub64 end begin)
        spectral.stride plan.chunk_depth

  -- PassPlan::ChunksCovering
  pub chunks_covering : ℕ → ℕ → ℕ → ℕ
  unfolding channels_touched
  chunks_covering layer_chunks begin end = max 1 (mul64 layer_chunks (channels_touched begin end))

  -- PassPlan::UnitsAffordable
  pub plan_units_affordable : ℕ → ℕ
  unfolding chunks_per_read
  plan_units_affordable chunks_per_unit =
      units_affordable (chunks_per_read plan.slab_budget_bytes plan.chunk_bytes) chunks_per_unit

  -- PassPlan::SlabChannels
  pub slab_channels : ℕ → ℕ
  unfolding plan_units_affordable
  slab_channels footprint_chunks =
      max 1 (mul64 (plan_units_affordable footprint_chunks) plan.least_channels)

  -- PassPlan::AlignedSlabEnd
  pub aligned_slab_end : ℕ → ℕ → ℕ → ℕ
  aligned_slab_end begin desired end =
      let spectral = plan.planes.spectral in
      aligned_block_end begin desired end spectral.start spectral.stride plan.chunk_depth

  -- PassPlan::EmitChannels
  pub emit_channels : ℕ → ℕ → ℕ → ℕ
  unfolding plan_units_affordable
  emit_channels layer_chunks bytes_per_channel hint =
      let count = plan.planes.spectral.count in
      let budget_channels = max 1 (spectral_emit_budget_bytes / max 1 bytes_per_channel) in
      let spatial_channels =
        if layer_chunks == 0
        then count
        else mul64 (min count (plan_units_affordable layer_chunks)) plan.least_channels in
      min (min (if hint == 0 then spatial_channels else hint) budget_channels) count

-- struct SlabFootprint
pub record SlabFootprint : Type 0 where
  pub u_start : ℕ
  pub u_count : ℕ
  pub u_stride : ℕ
  pub v_start : ℕ
  pub v_count : ℕ
  pub v_stride : ℕ
  pub chunks : ℕ

-- SampledRange: the start and the count of the samples of `stride` in [begin, end).
pub rounded_up : ℕ → ℕ → ℕ
rounded_up stride value = add64 (value / stride) (if value % stride == 0 then 0 else 1)

pub sampled_range : ℕ → ℕ → ℕ → ℕ × ℕ
unfolding rounded_up
sampled_range begin end stride =
    let first = rounded_up stride begin in
    let last = rounded_up stride end in
    (mul64 first stride, if ltb first last then sub64 last first else 0)
