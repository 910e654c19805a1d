-- ===== src/Metadata.antt =====
-- src/zarr/array_metadata.h and array_metadata.cc: what a zarr.json says of an array, checked, and how
-- the array is stored. `none` is an exception that the JSON library throws, or an access that has no
-- meaning.
pub mod Codecs
pub mod Stored
pub mod Parse
pub mod Named
pub mod Order
pub mod Members
pub mod Accepts
pub mod Layout
pub mod WellFormed
use carta_zarr.Base.{
  ℕ, zero, suc, ◌+◌, ◌-◌, ◌%◌, Bool, true, false, not, ◌&&◌, ◌||◌, List, [], ◌∷◌, map, Option, none,
  some, String, ErrorCode, Part, text, Result, ok, err, fail, ◌>>=◌, if◌then◌else◌, ltb, leb, ◌==◌,
  length, get_or, set, replicate,
}
use carta_zarr.Image.{DataType}
use carta_zarr.Chunk.{find_named_data_type}
use carta_zarr.Json.{
  View, object_of, array_of, string_of, find_member, member, is_text, non_negative, positive,
  all_numbers, all_of,
}
use package.text.Mathlib.Text.{◌==◌ as ◌same_text◌}

-- struct ArrayMetadata. A value that the document may leave out is none where it does: the source has
-- null, or an empty array or object, in its place.
pub record ArrayMetadata (J : Type 0) : Type 0 where
  pub shape : List ℕ
  pub dimension_names : List String
  pub data_type : String
  pub data_type_configuration : Option (List (String × J))
  pub attributes : List (String × J)
  pub chunk_shape : List ℕ
  pub codecs : List J
  pub chunk_key_encoding : List (String × J)
  pub fill_value : Option J

-- IsRealDataType and ParseDataType
unfoldable pub is_real_data_type : String → Bool
is_real_data_type name = elim (find_named_data_type name) [ none ↦ false | some info ↦ info.real ]

unfoldable pub parse_data_type : String → DataType
parse_data_type name = elim (find_named_data_type name) [
  | none ↦ DataType.unknown
  | some info ↦ info.kind
]

-- ErrorCodeName
unfoldable pub error_code_name : ErrorCode → String
error_code_name ErrorCode.not_found = "not_found"
error_code_name ErrorCode.not_zarr = "not_zarr"
error_code_name ErrorCode.unsupported_transport = "unsupported_transport"
error_code_name ErrorCode.unsupported_zarr_version = "unsupported_zarr_version"
error_code_name ErrorCode.unsupported_schema = "unsupported_schema"
error_code_name ErrorCode.unsupported_schema_version = "unsupported_schema_version"
error_code_name ErrorCode.ambiguous_schema = "ambiguous_schema"
error_code_name ErrorCode.invalid_argument = "invalid_argument"
error_code_name ErrorCode.invalid_metadata = "invalid_metadata"
error_code_name ErrorCode.unsupported_data_type = "unsupported_data_type"
error_code_name ErrorCode.unsupported_codec = "unsupported_codec"
error_code_name ErrorCode.invalid_slice = "invalid_slice"
error_code_name ErrorCode.buffer_too_small = "buffer_too_small"
error_code_name ErrorCode.io_error = "io_error"
error_code_name ErrorCode.decode_error = "decode_error"
error_code_name ErrorCode.cancelled = "cancelled"
error_code_name ErrorCode.not_implemented = "not_implemented"

-- The search of FindDimensionIndex, from position `at` on.
unfoldable pub find_name_from : List String → String → ℕ → Option ℕ
find_name_from [] name at = none
find_name_from (n ∷ names) name at =
    if n same_text name then some at else find_name_from names name (at + 1)

module _ {J : Type 0} (view : J → View J) where
  -- IsFixedLengthUtf32 and FindDimensionIndex
  unfoldable pub is_whole_words : Option ℕ → Bool
  is_whole_words none = false
  is_whole_words (some bytes) = bytes % 4 == 0

  unfoldable pub is_fixed_length_utf32 : ArrayMetadata J → Bool
  unfolding is_whole_words
  is_fixed_length_utf32 metadata =
      metadata.data_type same_text "fixed_length_utf32" && elim metadata.data_type_configuration [
        | none ↦ false
        | some configuration ↦ elim (find_member view configuration "length_bytes") [
          | none ↦ false
          | some j ↦ is_whole_words (positive view j)
        ]
      ]

unfoldable pub find_dimension_index : {J : Type 0} → ArrayMetadata J → String → Option ℕ
unfolding find_name_from
find_dimension_index metadata name = find_name_from metadata.dimension_names name 0
