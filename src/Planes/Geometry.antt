-- ===== src/Planes/Geometry.antt =====
-- BuildChunkGeometry of src/schema/chunk_geometry.h: an array's chunks in the image's logical order.
use carta_zarr.Base.{
  ℕ, zero, suc, ◌+◌, ◌-◌, ◌*◌, ◌/◌, ◌^◌, ◌≤◌, ◌<◌, ◌≡◌, refl, List, [], ◌∷◌, some, arith, get_elem?,
  add64, sub64, add64_lem, sub64_lem,
}
use carta_zarr.Image.{AxisDescriptor, ImageDescriptor, ChunkGeometry}
use carta_zarr.Planes.{StorageLayout, shard_at, build_axes, build_chunk_geometry}
use carta_zarr.Chunk.Grid.{div-bounds}

-- Every axis is stored at a dimension that the layout has, in chunks of an element or more, and no
-- rounding up of its length wraps.
abbrev pub IsStored : StorageLayout → List AxisDescriptor → Type 0
IsStored layout [] = Unit
IsStored layout (a ∷ axes) =
    (c : ℕ) × (h : ℕ) × (0 < c)
    × (get_elem? layout.chunk_shape a.storage_index ≡ some c)
    × (shard_at layout a.storage_index c ≡ some h)
    × (a.length + c < 2 ^ 64)
    × IsStored layout axes

-- For each axis, its chunk and shard are those of the dimension where it is stored, and its grid has
-- just the chunks that its elements need.
abbrev pub Permutes : StorageLayout → List AxisDescriptor → List ℕ → List ℕ → List ℕ → Type 0
Permutes layout [] [] [] [] = Unit
Permutes layout (a ∷ axes) (c ∷ chunks) (h ∷ shards) (n ∷ grid) =
    (get_elem? layout.chunk_shape a.storage_index ≡ some c)
    × (shard_at layout a.storage_index c ≡ some h)
    × (a.length ≤ n * c)
    × (n * c < a.length + c)
    × Permutes layout axes chunks shards grid
Permutes layout _ _ _ _ = ⊥

abbrev IsBare : ChunkGeometry → Type 0
IsBare g = (g.chunk_shape ≡ []) × (g.shard_shape ≡ []) × (g.grid_shape ≡ [])

grid_bounds :
    (length c : ℕ)
    → 0 < c
    → length + c < 2 ^ 64
    → (length ≤ sub64 (add64 length c) 1 / c * c) × (sub64 (add64 length c) 1 / c * c < length + c)
grid_bounds length c pc bound =
    rw (add64_lem length c bound, sub64_lem (length + c) 1 (omega arith) bound)
      (omega (arith, div-bounds (length + c - 1) c pc))

build_axes-Permutes :
    (layout : StorageLayout) (axes : List AxisDescriptor) (base : ChunkGeometry)
    → IsBare base
    → IsStored layout axes
    → (g : ChunkGeometry) × (build_axes layout axes base ≡ some g)
      × Permutes layout axes g.chunk_shape g.shard_shape g.grid_shape
      × (g.fastest_spatial_axis ≡ base.fastest_spatial_axis)
unfolding build_axes
build_axes-Permutes layout [] base bare v = (base, refl, rw (bare.0, bare.1, bare.2) tt, refl)
build_axes-Permutes layout (a ∷ axes) base bare (zero, h, pc, ec, eh, bound, v) =
    absurd (omega arith)
build_axes-Permutes layout (a ∷ axes) base bare (suc c, h, pc, ec, eh, bound, v) =
    let (g, run, rest, fast) = build_axes-Permutes layout axes base bare v in
    let (low, high) = grid_bounds a.length (suc c) pc bound in
    rw (ec, eh, run, build_axes) (_, refl, (ec, eh, low, high, rest), fast)

-- BuildChunkGeometry, of a layout that has, for every axis, a dimension where it is stored, in chunks of
-- an element or more, where the axis's length and its chunk's are less than 2^64 together: it gives, in
-- the image's order of axes, the chunk and the shard of the dimension where each is stored, and as many
-- chunks along it as its elements need: enough for them, and none without one.
pub build_chunk_geometry-Permutes :
    (d : ImageDescriptor) (layout : StorageLayout)
    → IsStored layout d.axes
    → (g : ChunkGeometry) × (build_chunk_geometry d layout ≡ some g)
      × Permutes layout d.axes g.chunk_shape g.shard_shape g.grid_shape
unfolding build_chunk_geometry
build_chunk_geometry-Permutes d layout v =
    let (g, run, p, fast) = build_axes-Permutes layout d.axes _ (refl, refl, refl) v in (g, run, p)
