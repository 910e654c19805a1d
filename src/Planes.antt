-- ===== src/Planes.antt =====
-- Which planes of an image a walk is over: src/axis_map.h, src/reduce/plane_selection.h, and the
-- chunks of an image in its logical order, src/schema/chunk_geometry.h.
pub mod Axes
pub mod Checked
pub mod Geometry
use carta_zarr.Base.{
  ℕ, zero, suc, ◌+◌, ◌/◌, Bool, true, false, ◌&&◌, ◌||◌, not, List, [], ◌∷◌, Option, none, some,
  String, ErrorCode, Part, text, Result, ok, err, fail, if◌then◌else◌, ltb, leb, ◌==◌, get_elem?,
  add64, sub64,
}
use carta_zarr.Image.{AxisRole, AxisDescriptor, ImageDescriptor, ChunkGeometry, Range}

-- struct AxisMap
pub record AxisMap : Type 0 where
  pub x : ℕ
  pub y : ℕ
  pub spectral : ℕ
  pub has_polarization : Bool
  pub polarization : ℕ
  pub has_time : Bool
  pub time : ℕ

-- MapAxes' variables.
pub record Found : Type 0 where
  pub map : AxisMap
  pub has_x : Bool
  pub has_y : Bool
  pub has_spectral : Bool

unfoldable pub nothing_found : Found
nothing_found = record {
  map = record {
    x = 0;
    y = 0;
    spectral = 0;
    has_polarization = false;
    polarization = 0;
    has_time = false;
    time = 0;
  };
  has_x = false;
  has_y = false;
  has_spectral = false;
}

-- The switch on an axis's role.
unfoldable pub note_role : AxisRole → String → ℕ → AxisDescriptor → Found → Result Found
note_role AxisRole.spatial_x node at axis f =
    ok (record f { map = record f.map { x = at }; has_x = true })
note_role AxisRole.spatial_y node at axis f =
    ok (record f { map = record f.map { y = at }; has_y = true })
note_role AxisRole.spectral node at axis f =
    ok (record f { map = record f.map { spectral = at }; has_spectral = true })
note_role AxisRole.polarization node at axis f =
    ok (record f { map = record f.map { polarization = at; has_polarization = true } })
note_role AxisRole.time node at axis f =
    ok (record f { map = record f.map { time = at; has_time = true } })
note_role AxisRole.other node at axis f =
    if not (axis.length == 1)
    then fail ErrorCode.not_implemented
        (text "Axis '" ∷ text axis.name ∷ text "' has no known role and is not degenerate" ∷ [])
        node
    else ok f

-- The loop over the axes from the `at`-th on.
unfoldable pub note_axes : String → ℕ → List AxisDescriptor → Found → Result Found
unfolding note_role
note_axes node at [] f = ok f
note_axes node at (axis ∷ axes) f = elim (note_role axis.role node at axis f) [
  | err e ↦ err e
  | ok f' ↦ note_axes node (at + 1) axes f'
]

unfoldable pub finish_map : String → Found → Result AxisMap
finish_map node f =
    if not f.has_x || not f.has_y || not f.has_spectral
    then fail ErrorCode.not_implemented
        (text "A plane walk needs both spatial axes and a spectral axis" ∷ []) node
    else ok f.map

-- MapAxes
unfoldable pub map_axes : ImageDescriptor → Result AxisMap
unfolding note_axes finish_map nothing_found
map_axes descriptor = elim (note_axes descriptor.id 0 descriptor.axes nothing_found) [
  | err e ↦ err e
  | ok f ↦ finish_map descriptor.id f
]

-- struct PlaneSelection
pub record PlaneSelection : Type 0 where
  pub spectral : Range
  pub polarization : ℕ
  pub time : ℕ

-- `descriptor.axes.at(i).length`, where MapAxes found an axis; the source's `at` throws elsewhere.
abbrev pub length_at : ImageDescriptor → ℕ → ℕ
length_at descriptor i = elim (get_elem? descriptor.axes i) [ none ↦ 0 | some axis ↦ axis.length ]

-- `range` does not lie among `channels` of them.
unfoldable pub falls_outside : ℕ → Range → Bool
falls_outside channels range =
    range.stride == 0
    || range.count == 0
    || leb channels range.start
    || ltb (sub64 (sub64 channels 1) range.start / range.stride) (sub64 range.count 1)

-- CheckedPlanes::Of, whose value holds the selection.
unfoldable pub checked_planes : ImageDescriptor → AxisMap → PlaneSelection → Result PlaneSelection
unfolding falls_outside
checked_planes descriptor map planes =
    if falls_outside (length_at descriptor map.spectral) planes.spectral
    then fail ErrorCode.invalid_argument (text "The spectral range falls outside the image" ∷ [])
        descriptor.id
    else if not map.has_polarization && not (planes.polarization == 0)
    then fail ErrorCode.invalid_argument
        (text "The image has no polarization axis, so only polarization 0 selects a plane" ∷ [])
        descriptor.id
    else if map.has_polarization && leb (length_at descriptor map.polarization) planes.polarization
    then fail ErrorCode.invalid_argument
        (text "The polarization index falls outside the image" ∷ []) descriptor.id
    else if not map.has_time && not (planes.time == 0)
    then fail ErrorCode.invalid_argument
        (text "The image has no time axis, so only time 0 selects a plane" ∷ []) descriptor.id
    else if map.has_time && leb (length_at descriptor map.time) planes.time
    then fail ErrorCode.invalid_argument (text "The time index falls outside the image" ∷ [])
        descriptor.id
    else ok planes

-- struct StorageLayout
pub record StorageLayout : Type 0 where
  pub chunk_shape : List ℕ
  pub shard_shape : List ℕ
  pub compressor : String
  pub sharded : Bool

-- One axis put before those after it.
prepend : ℕ → ℕ → ℕ → Option ChunkGeometry → Option ChunkGeometry
prepend length chunk shard none = none
prepend length chunk shard (some g) = some (record g {
  chunk_shape = chunk ∷ g.chunk_shape;
  shard_shape = shard ∷ g.shard_shape;
  grid_shape = (sub64 (add64 length chunk) 1 / chunk) ∷ g.grid_shape;
})

unfoldable pub shard_at : StorageLayout → ℕ → ℕ → Option ℕ
shard_at layout stored chunk =
    if layout.sharded then get_elem? layout.shard_shape stored else some chunk

-- BuildChunkGeometry: the loop over the logical axes. `none` is what `at` throws, and the division by
-- a chunk of no elements.
pub build_axes : StorageLayout → List AxisDescriptor → ChunkGeometry → Option ChunkGeometry
unfolding prepend shard_at
build_axes layout [] geometry = some geometry
build_axes layout (axis ∷ axes) geometry =
    let rest = build_axes layout axes geometry in
    elim (get_elem? layout.chunk_shape axis.storage_index) [
      | none ↦ none
      | some zero ↦ none
      | some (suc c) ↦ elim (shard_at layout axis.storage_index (suc c)) [
        | none ↦ none
        | some shard ↦ prepend axis.length (suc c) shard rest
      ]
    ]

-- The loop that finds where the spatial axes are stored.
pub spatial_stored : List AxisDescriptor → ℕ × ℕ → ℕ × ℕ
spatial_stored [] found = found
spatial_stored (axis ∷ axes) (x, y) = spatial_stored axes (elim axis.role [
  | AxisRole.spatial_x ↦ (axis.storage_index, y)
  | AxisRole.spatial_y ↦ (x, axis.storage_index)
  | _ ↦ (x, y)
])

pub build_chunk_geometry : ImageDescriptor → StorageLayout → Option ChunkGeometry
unfolding build_axes spatial_stored
build_chunk_geometry descriptor layout =
    let (x_stored, y_stored) = spatial_stored descriptor.axes (0, 0) in
    build_axes layout descriptor.axes (record {
      fastest_spatial_axis =
          if ltb x_stored y_stored then AxisRole.spatial_y else AxisRole.spatial_x;
      chunk_shape = [];
      shard_shape = [];
      grid_shape = [];
      sharded = layout.sharded;
      compressor = layout.compressor;
    })
