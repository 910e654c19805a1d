-- ===== src/Image.antt =====
-- The values that callers and the library exchange about an image: include/carta-zarr/descriptor.h
-- and include/carta-zarr/read.h, as far as reads and reductions use them.
use carta_zarr.Base.{ℕ, List, Bool, String}

-- enum class AxisRole
pub data AxisRole : Type 0 where
  spatial_x spatial_y spectral polarization time other : AxisRole

-- struct AxisDescriptor; its unit is not read by the code modelled here.
pub record AxisDescriptor : Type 0 where
  pub name : String
  pub role : AxisRole
  pub length : ℕ
  pub storage_index : ℕ

-- enum class DataType
pub data DataType : Type 0 where
  unknown boolean int8 uint8 int16 uint16 int32 uint32 int64 uint64 : DataType
  float16 float32 float64 complex64 complex128 : DataType

unfoldable pub data_type-discrete : Discrete DataType
data_type-discrete = hlevel

-- struct ImageDescriptor, as far as sizing and selecting read it.
pub record ImageDescriptor : Type 0 where
  pub id : String
  pub stored_type : DataType
  pub axes : List AxisDescriptor
  pub has_pixel_mask : Bool

-- struct ChunkGeometry
pub record ChunkGeometry : Type 0 where
  pub fastest_spatial_axis : AxisRole
  pub chunk_shape : List ℕ
  pub shard_shape : List ℕ
  pub grid_shape : List ℕ
  pub sharded : Bool
  pub compressor : String

-- struct Range
pub record Range : Type 0 where
  pub start : ℕ
  pub count : ℕ
  pub stride : ℕ

-- struct ReadRequest
pub record ReadRequest : Type 0 where
  pub axes : List Range

-- struct ReadOptions without its control, which the reads take beside it.
pub record ReadOptions : Type 0 where
  pub apply_pixel_mask : Bool
  pub read_budget_bytes : ℕ
