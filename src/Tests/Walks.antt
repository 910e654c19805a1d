-- ===== src/Tests/Walks.antt =====
-- The results about planes and passes at a concrete input: a cube of 8 by 6 pixels and 20 channels,
-- in chunks of 4 by 2 by 4, of which every second channel from the third on is walked.
use carta_zarr.Base.{
  ℕ, ◌+◌, ◌*◌, ◌<◌, ◌≤◌, ◌≡◌, ◌≢◌, refl, ◌⊎◌, ◌↔◌, Bool, true, false, List, [], ◌∷◌, ◌++◌, Option,
  some, ok, Result, arith, replicate, drop, String,
}
use carta_zarr.Image.{AxisRole, AxisDescriptor, DataType, ImageDescriptor, ChunkGeometry, Range}
use carta_zarr.Read.Selection.{ReadControl}
use carta_zarr.Read.InPieces.{PixelSource}
use carta_zarr.Planes.{
  AxisMap, map_axes, note_axes, note_role, finish_map, nothing_found, PlaneSelection,
  checked_planes, StorageLayout, shard_at, build_chunk_geometry,
}
use carta_zarr.Planes.Axes.{IsMapped, map_axes-IsMapped}
use carta_zarr.Planes.Checked.{IsServed, checked_planes-IsServed}
use carta_zarr.Planes.Geometry.{Permutes, build_chunk_geometry-Permutes}
use carta_zarr.Base.{add64, sub64, mul64}
use carta_zarr.Image.{ReadOptions, data_type-discrete}
use carta_zarr.Chunk.{
  units_affordable, chunks_touched, read_cost, applies_pixel_mask, decoded_chunk_bytes,
  chunk_elements, multiply_extents, find_data_type, find_in, data_types,
}
use carta_zarr.Pass.{plan_pass, plan_costed, swaps, has_axis, chunks_per_read, sample_touched}
use carta_zarr.Pass.Planned.{IsReady, plan_pass-IsReady}
use carta_zarr.Steps.{for_each}
use carta_zarr.Pass.Walk.{over_bands}
use carta_zarr.Pass.Walk.Held.{OnlyOne}
use carta_zarr.Pass.Walk.Bands.{IsPlane, Holds, over_bands-Covers}
use carta_zarr.Steps.Tiling.{Tiling, over_runs}
use carta_zarr.Pass.{
  PassPlan, SlabFootprint, emit_channels, spectral_emit_budget_bytes, sampled_range,
}
use carta_zarr.Pass.Sampled.{sampled_range_lem}
use carta_zarr.Pass.Emits.{emit_channels-bounds}
use carta_zarr.Pass.Walk.{Slab, Walked, Shape, slab_round, over, block_round, in_blocks}
use carta_zarr.Pass.Walk.Tiles.{
  IsWalkable, EndsChunks, next_slab, over-Tiling, next_block, in_blocks-Tiling,
}

abbrev axis : String → AxisRole → ℕ → ℕ → AxisDescriptor
axis name role size at = record { name = name; role = role; length = size; storage_index = at }

abbrev cube_axes : List AxisDescriptor
cube_axes =
    axis "x" AxisRole.spatial_x 8 2
    ∷ axis "y" AxisRole.spatial_y 6 1
    ∷ axis "frequency" AxisRole.spectral 20 0
    ∷ []

abbrev cube : ImageDescriptor
cube = record {
  id = "sky";
  stored_type = DataType.float32;
  axes = cube_axes;
  has_pixel_mask = false;
}

abbrev cube_map : AxisMap
cube_map = record {
  x = 0;
  y = 1;
  spectral = 2;
  has_polarization = false;
  polarization = 0;
  has_time = false;
  time = 0;
}

mapped : map_axes cube ≡ ok cube_map
unfolding map_axes note_axes note_role finish_map nothing_found
mapped = refl

map_axes-IsMapped_example : IsMapped cube_axes cube_map
map_axes-IsMapped_example = map_axes-IsMapped cube cube_map mapped

abbrev channels : Range
channels = record { start = 2; count = 9; stride = 2 }

abbrev planes : PlaneSelection
planes = record { spectral = channels; polarization = 0; time = 0 }

checked_planes-IsServed_example :
    (checked_planes cube cube_map planes ≡ ok planes) ↔ IsServed cube cube_map planes
checked_planes-IsServed_example =
    checked_planes-IsServed cube cube_map planes (omega arith) (omega arith)

abbrev layout : StorageLayout
layout = record { chunk_shape = 4 ∷ 2 ∷ 4 ∷ []; shard_shape = []; compressor = ""; sharded = false }

unsharded : (stored chunk : ℕ) → shard_at layout stored chunk ≡ some chunk
unfolding shard_at
unsharded stored chunk = refl

build_chunk_geometry-Permutes_example :
    (g : ChunkGeometry) × (build_chunk_geometry cube layout ≡ some g)
    × Permutes layout cube_axes g.chunk_shape g.shard_shape g.grid_shape
build_chunk_geometry-Permutes_example = build_chunk_geometry-Permutes cube layout (
  4,
  4,
  omega arith,
  refl,
  unsharded 2 4,
  omega arith,
  (
    2,
    2,
    omega arith,
    refl,
    unsharded 1 2,
    omega arith,
    (4, 4, omega arith, refl, unsharded 0 4, omega arith, tt),
  ),
)

sampled_range_lem_example :
    ((4 ≤ 2 * 3) × (2 * 3 < 8))
    ↔ ((i : ℕ) × (i < (sampled_range 4 8 3).1) × (2 * 3 ≡ (sampled_range 4 8 3).0 + i * 3))
sampled_range_lem_example = sampled_range_lem 4 8 3 (omega arith) (omega arith) (omega arith) 2

abbrev plan : PassPlan
plan = record {
  descriptor = cube;
  map = cube_map;
  axis_u = 0;
  axis_v = 1;
  u_length = 8;
  v_length = 6;
  chunk_u = 4;
  chunk_v = 2;
  chunk_bytes = 128;
  slab_budget_bytes = 256;
  band_rows = 1;
  layer_chunks = 6;
  planes = planes;
  sample = 1;
  apply_mask = false;
  chunk_depth = 4;
  least_channels = 2;
}

abbrev chunks : ChunkGeometry
chunks = record {
  fastest_spatial_axis = AxisRole.spatial_x;
  chunk_shape = 4 ∷ 2 ∷ 4 ∷ [];
  shard_shape = [];
  grid_shape = [];
  sharded = false;
  compressor = "";
}

abbrev options : ReadOptions
options = record { apply_pixel_mask = false; read_budget_bytes = 256 }

planned : plan_pass cube chunks chunks cube_map planes 1 options ≡ some plan
unfolding plan_pass plan_costed swaps has_axis chunks_per_read sample_touched units_affordable
    chunks_touched read_cost applies_pixel_mask decoded_chunk_bytes chunk_elements multiply_extents
    find_data_type find_in data_types data_type-discrete add64 sub64 mul64
planned = refl

plan_pass-IsReady_example : IsReady planes plan
plan_pass-IsReady_example =
    plan_pass-IsReady cube chunks chunks cube_map planes 1 options plan planned

plan-IsWalkable : IsWalkable plan 9
plan-IsWalkable = record {
  short = omega arith;
  span = omega arith;
  deep = omega arith;
  strides = omega arith;
}

emit_channels-bounds_example :
    (emit_channels plan 6 100 3 ≤ 9)
    × (◌≢◌ {A = ℕ} 3 0 → emit_channels plan 6 100 3 ≤ 3)
    × ((emit_channels plan 6 100 3 * 100 ≤ spectral_emit_budget_bytes)
        ⊎ (emit_channels plan 6 100 3 ≤ 1))
emit_channels-bounds_example = emit_channels-bounds plan 6 100 3

-- A source of sevens with no flag set, a caller that counts what it is shown, and no cancelling.
abbrev sevens : PixelSource ℕ
sevens = record {
  read_pixels = λ s buffer control. (replicate s.elements 7 ++ drop s.elements buffer, ok tt);
  read_mask = λ s buffer control. (replicate s.elements 0 ++ drop s.elements buffer, ok tt);
}

abbrev patient : ℕ → ReadControl
patient n = record { cancellation_requested = false; deadline_passed = false }

abbrev reports : ℕ → ℕ → ℕ × Result (Unit {0})
reports chunks_done n = (n, ok tt)

abbrev counts : Slab ℕ → ℕ → ℕ
counts slab n = n + slab.channel_count

abbrev counts_for : Option SlabFootprint → Slab ℕ → ℕ → ℕ
counts_for footprint slab n = n + slab.channel_count

abbrev hands_over : ℕ → ℕ → Bool → ℕ × ℕ → ℕ → ℕ × Bool
hands_over first_channel size complete completeness n = (n, true)

abbrev corner : SlabFootprint
corner = record {
  u_start = 0;
  u_count = 4;
  u_stride = 1;
  v_start = 0;
  v_count = 2;
  v_stride = 1;
  chunks = 1;
}

over-Tiling_example :
    (slabs : List (ℕ × ℕ)) × Tiling
      (next_slab 99 0 sevens plan patient reports counts corner 9)
      0
      9
      slabs
    × EndsChunks plan 9 slabs
    × ((w : Walked ℕ ℕ)
        → over 99 0 sevens plan patient reports counts corner 0 9 w
          ≡ over_runs slabs (slab_round 99 0 sevens plan patient reports counts corner 0) w)
over-Tiling_example =
    over-Tiling 99 0 sevens plan patient reports counts corner 0 9 plan-IsWalkable (omega arith)

in_blocks-Tiling_example :
    (blocks : List (ℕ × ℕ)) × Tiling (next_block plan 6 100 3) 0 9 blocks
    × EndsChunks plan 9 blocks
    × ((w : Walked ℕ ℕ)
        → in_blocks
            (λ f. f)
            99
            0
            sevens
            plan
            patient
            Shape.plane_bands
            6
            "stopped"
            counts_for
            (λ size n. 0)
            hands_over
            100
            3
            w
          ≡ over_runs blocks
              (block_round
                (λ f. f)
                99
                0
                sevens
                plan
                patient
                Shape.plane_bands
                6
                "stopped"
                counts_for
                (λ size n. 0)
                hands_over)
              w)
in_blocks-Tiling_example =
    in_blocks-Tiling (λ f. f) 99 0 sevens plan patient Shape.plane_bands 6 "stopped" counts_for
      (λ size n. 0) hands_over 100 3 plan-IsWalkable

plan-IsPlane : IsPlane plan
plan-IsPlane = record {
  wide = omega arith;
  high = omega arith;
  samples = omega arith;
  bands = omega arith;
  u_chunks = omega arith;
  v_chunks = omega arith;
  u_samples = omega arith;
  v_samples = omega arith;
}

over_bands-Covers_example :
    (footprints : List SlabFootprint) × ((w : Walked ℕ ℕ)
      → over_bands 99 0 sevens plan patient reports counts 0 9 w
        ≡ for_each footprints (λ f. over 99 0 sevens plan patient reports counts f 0 9) w)
    × ((i j : ℕ) → i * 1 < 8 → j * 1 < 6 → OnlyOne (Holds (i * 1) (j * 1)) footprints)
over_bands-Covers_example =
    over_bands-Covers 99 0 sevens plan patient reports counts 0 9 plan-IsPlane
