-- ===== src/Tests/Documents.antt =====
-- The results about array metadata at a concrete document: an array of 6 by 8 elements, transposed and
-- then sharded. A JSON value is its place in a list of values.
use carta_zarr.Base.{ℕ, ◌≡◌, refl, true, List, [], ◌∷◌, none, some, ok, String, Result, get_or}
use carta_zarr.Json.{
  View, object_of, array_of, string_of, find_member, member, is_text, non_negative, positive,
  all_numbers,
}
use carta_zarr.Planes.{StorageLayout}
use carta_zarr.Metadata.{ArrayMetadata}
use carta_zarr.Metadata.Codecs.{transpose_order}
use carta_zarr.Metadata.Parse.{parse_array_metadata}
use carta_zarr.Metadata.Stored.{parse_storage_layout}
use carta_zarr.Metadata.Order.{IsOrder, transpose_order-IsOrder}
use carta_zarr.Metadata.Accepts.{
  IsAccepted, parse_array_metadata-IsAccepted, parse_array_metadata-some,
}
use carta_zarr.Metadata.WellFormed.{IsWellFormed, parse_array_metadata-IsWellFormed}
use carta_zarr.Metadata.Layout.{IsLayout, parse_storage_layout-IsLayout}

abbrev values : List (View ℕ)
values =
    View.object (
      ("node_type", 1)
      ∷ ("zarr_format", 2)
      ∷ ("shape", 3)
      ∷ ("data_type", 6)
      ∷ ("chunk_grid", 7)
      ∷ ("codecs", 13)
      ∷ [])
    ∷ View.string "array"
    ∷ View.unsigned 3
    ∷ View.array (4 ∷ 5 ∷ [])
    ∷ View.unsigned 6
    ∷ View.unsigned 8
    ∷ View.string "float32"
    ∷ View.object (("name", 8) ∷ ("configuration", 9) ∷ [])
    ∷ View.string "regular"
    ∷ View.object (("chunk_shape", 10) ∷ [])
    ∷ View.array (11 ∷ 11 ∷ [])
    ∷ View.unsigned 4
    ∷ View.unsigned 2
    ∷ View.array (14 ∷ 18 ∷ [])
    ∷ View.object (("name", 15) ∷ ("configuration", 16) ∷ [])
    ∷ View.string "transpose"
    ∷ View.object (("order", 17) ∷ [])
    ∷ View.array (20 ∷ 21 ∷ [])
    ∷ View.object (("name", 19) ∷ ("configuration", 22) ∷ [])
    ∷ View.string "sharding_indexed"
    ∷ View.unsigned 1
    ∷ View.unsigned 0
    ∷ View.object (("chunk_shape", 23) ∷ ("codecs", 24) ∷ [])
    ∷ View.array (11 ∷ 12 ∷ [])
    ∷ View.array (25 ∷ [])
    ∷ View.object (("name", 26) ∷ [])
    ∷ View.string "zstd"
    ∷ []

abbrev value_at : ℕ → View ℕ
value_at j = get_or values j View.null

abbrev no_members : List (String × ℕ)
no_members = []

abbrev sharded_array : ArrayMetadata ℕ
sharded_array = record {
  shape = 6 ∷ 8 ∷ [];
  dimension_names = [];
  data_type = "float32";
  data_type_configuration = none;
  attributes = no_members;
  chunk_shape = 4 ∷ 4 ∷ [];
  codecs = 14 ∷ 18 ∷ [];
  chunk_key_encoding = no_members;
  fill_value = none;
}

transpose_parsed : transpose_order value_at 14 2 ≡ some (1 ∷ 0 ∷ [])
unfolding transpose_order member string_of array_of non_negative
transpose_parsed = refl

transpose_order-IsOrder_example : IsOrder 2 (1 ∷ 0 ∷ [])
transpose_order-IsOrder_example =
    transpose_order-IsOrder value_at 14 2 (1 ∷ 0 ∷ []) transpose_parsed

array_parsed : parse_array_metadata value_at 0 "image" ≡ some (ok sharded_array)
unfolding parse_array_metadata object_of find_member is_text non_negative array_of all_numbers
    member positive
array_parsed = refl

parse_array_metadata-IsWellFormed_example : IsWellFormed value_at sharded_array
parse_array_metadata-IsWellFormed_example =
    parse_array_metadata-IsWellFormed value_at 0 "image" sharded_array array_parsed

parse_array_metadata-some_example :
    (r : Result (ArrayMetadata ℕ)) × (parse_array_metadata value_at 0 "image" ≡ some r)
parse_array_metadata-some_example = parse_array_metadata-some value_at 0 "image"

sharded_array-IsAccepted : IsAccepted value_at sharded_array
sharded_array-IsAccepted =
    parse_array_metadata-IsAccepted value_at 0 "image" sharded_array array_parsed

parse_storage_layout-IsLayout_example :
    (layout : StorageLayout) × (parse_storage_layout value_at sharded_array ≡ some layout)
    × IsLayout 2 (4 ∷ 4 ∷ []) layout
parse_storage_layout-IsLayout_example =
    parse_storage_layout-IsLayout value_at sharded_array sharded_array-IsAccepted

-- The inner chunks, of 4 by 2 elements after the transpose, are of 2 by 4 of the array.
sharded_array_layout :
    parse_storage_layout value_at sharded_array
    ≡ some (record {
      chunk_shape = 2 ∷ 4 ∷ [];
      shard_shape = 4 ∷ 4 ∷ [];
      compressor = "zstd";
      sharded = true;
    })
unfolding parse_storage_layout object_of find_member string_of member is_text array_of non_negative
sharded_array_layout = refl
