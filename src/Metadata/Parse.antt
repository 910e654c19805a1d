-- ===== src/Metadata/Parse.antt =====
-- ParseArrayMetadata of src/zarr/array_metadata.cc: a zarr.json checked. `none` is an exception that the
-- JSON library throws.
use carta_zarr.Base.{
  ℕ, Bool, true, false, not, ◌&&◌, ◌||◌, List, [], ◌∷◌, Option, none, some, String, ErrorCode, text,
  Result, ok, err, fail, ◌>>=◌, if◌then◌else◌, ◌==◌, length,
}
use carta_zarr.Json.{
  View, object_of, array_of, string_of, find_member, member, is_text, non_negative, positive,
  all_numbers,
}
use package.text.Mathlib.Text.{◌==◌ as ◌same_text◌}
use carta_zarr.Metadata.{ArrayMetadata}
use carta_zarr.Metadata.Codecs.{
  FoundCodec, thrown, absent, found, find_codec, codec_names_are_strings, is_transpose,
  transpose_order,
}
use carta_zarr.Metadata.Stored.{inner_shape, inner_codecs}

unfoldable pub names_contain : List String → String → Bool
names_contain [] name = false
names_contain (n ∷ names) name = n same_text name || names_contain names name

-- `unique_dimensions.size() == dimension_names.size()`
unfoldable pub are_unique : List String → Bool
unfolding names_contain
are_unique [] = true
are_unique (n ∷ names) = not (names_contain names n) && are_unique names

module _ {J : Type 0} (view : J → View J) where
  -- ParseArrayMetadata's checks of the kind of node.
  unfoldable pub invalid : {A : Type 0} → String → String → Result A
  invalid message node = fail ErrorCode.invalid_metadata (text message ∷ []) node

  unfoldable pub require : Bool → String → String → Result (Unit {0})
  unfolding invalid
  require test message node = if test then ok tt else invalid message node

  unfoldable pub is_member_text : List (String × J) → String → String → Bool
  is_member_text members key value = elim (find_member view members key) [
    | none ↦ false
    | some j ↦ is_text view j value
  ]

  unfoldable pub check_format : List (String × J) → String → Result (Unit {0})
  unfolding invalid
  check_format doc node = elim (find_member view doc "zarr_format") [
    | none ↦ invalid "Zarr array metadata has no valid zarr_format" node
    | some j ↦ elim (non_negative view j) [
      | none ↦ invalid "Zarr array metadata has no valid zarr_format" node
      | some format ↦
          if format == 3
          then ok tt
          else fail ErrorCode.unsupported_zarr_version
              (text "Only Zarr format 3 arrays are supported" ∷ []) node
    ]
  ]

  unfoldable pub parse_shape : List (String × J) → String → Result (List ℕ)
  unfolding invalid
  parse_shape doc node = elim (find_member view doc "shape") [
    | none ↦ invalid "Zarr array metadata requires a shape" node
    | some j ↦ elim (array_of view j) [
      | none ↦ invalid "Zarr array metadata requires a shape" node
      | some dimensions ↦ elim (all_numbers view (non_negative view) dimensions) [
        | none ↦ invalid "Zarr array shape must contain non-negative integers" node
        | some shape ↦ ok shape
      ]
    ]
  ]

  -- The dimension names, of the document or of its attributes.
  unfoldable pub names_given : List (String × J) → Option J
  names_given doc = elim (find_member view doc "dimension_names") [
    | some j ↦ some j
    | none ↦ elim (find_member view doc "attributes") [
      | none ↦ none
      | some attributes ↦ member view attributes "dimension_names"
    ]
  ]

  unfoldable pub all_texts : List J → Option (List String)
  all_texts [] = some []
  all_texts (j ∷ js) = elim (string_of view j) [
    | none ↦ none
    | some s ↦ elim (all_texts js) [ none ↦ none | some ss ↦ some (s ∷ ss) ]
  ]

  unfoldable pub check_names : List J → ℕ → String → Result (List String)
  unfolding invalid all_texts are_unique
  check_names names rank node =
      if not (length names == rank)
      then invalid "Array dimension_names must match shape rank" node
      else elim (all_texts names) [
        | none ↦ invalid "Array dimension names must be strings" node
        | some texts ↦
            if are_unique texts
            then ok texts
            else invalid "Array dimension names must be unique" node
      ]

  unfoldable pub parse_names : List (String × J) → ℕ → String → Result (List String)
  unfolding names_given check_names invalid
  parse_names doc rank node = elim (names_given doc) [
    | none ↦ ok []
    | some j ↦ elim (array_of view j) [
      | none ↦ invalid "Array dimension_names must match shape rank" node
      | some names ↦ check_names names rank node
    ]
  ]

  -- The data type's name, with its configuration.
  unfoldable pub unrecognized : String → Result (String × Option (List (String × J)))
  unrecognized node =
      fail ErrorCode.unsupported_data_type (text "Zarr array data_type is not recognized" ∷ []) node

  unfoldable pub parse_type_object :
      List (String × J) → String → Result (String × Option (List (String × J)))
  unfolding unrecognized invalid
  parse_type_object members node = elim (find_member view members "name") [
    | none ↦ unrecognized node
    | some n ↦ elim (string_of view n) [
      | none ↦ unrecognized node
      | some name ↦ elim (find_member view members "configuration") [
        | none ↦ ok (name, none)
        | some c ↦ elim (object_of view c) [
          | none ↦ invalid "Zarr data_type configuration must be an object" node
          | some configuration ↦ ok (name, some configuration)
        ]
      ]
    ]
  ]

  unfoldable pub parse_type :
      List (String × J) → String → Result (String × Option (List (String × J)))
  unfolding unrecognized parse_type_object invalid
  parse_type doc node = elim (find_member view doc "data_type") [
    | none ↦ invalid "Zarr array metadata requires data_type" node
    | some j ↦ elim (string_of view j) [
      | some name ↦ ok (name, none)
      | none ↦ elim (object_of view j) [
        | none ↦ unrecognized node
        | some members ↦ parse_type_object members node
      ]
    ]
  ]

  unfoldable pub parse_attributes : List (String × J) → String → Result (List (String × J))
  unfolding invalid
  parse_attributes doc node = elim (find_member view doc "attributes") [
    | none ↦ ok []
    | some j ↦ elim (object_of view j) [
      | none ↦ invalid "Zarr array attributes must be an object" node
      | some attributes ↦ ok attributes
    ]
  ]

  -- The codecs, none where the document has no list of them.
  unfoldable pub parse_codecs : List (String × J) → String → Result (List J)
  unfolding codec_names_are_strings invalid
  parse_codecs doc node = elim (find_member view doc "codecs") [
    | none ↦ ok []
    | some j ↦ elim (array_of view j) [
      | none ↦ ok []
      | some codecs ↦
          if codec_names_are_strings view codecs
          then ok codecs
          else invalid "Zarr codec names must be strings" node
    ]
  ]

  unfoldable pub parse_key_encoding : List (String × J) → List (String × J)
  parse_key_encoding doc = elim (find_member view doc "chunk_key_encoding") [
    | none ↦ []
    | some j ↦ elim (object_of view j) [ none ↦ [] | some encoding ↦ encoding ]
  ]

  -- The chunk shape's elements, of a regular chunk grid.
  unfoldable pub grid_shape : List (String × J) → Option J
  unfolding is_member_text
  grid_shape doc = elim (find_member view doc "chunk_grid") [
    | none ↦ none
    | some j ↦ elim (object_of view j) [
      | none ↦ none
      | some grid ↦
          if is_member_text grid "name" "regular"
          then elim (find_member view grid "configuration") [
            | none ↦ none
            | some configuration ↦ member view configuration "chunk_shape"
          ]
          else none
    ]
  ]

  -- `!chunks.is_array() || chunks.size() != rank || !all_of(chunks, IsPositiveInteger)`
  unfoldable pub sized_numbers : ℕ → Option (List J) → Option (List ℕ)
  sized_numbers rank none = none
  sized_numbers rank (some js) =
      if length js == rank then all_numbers view (positive view) js else none

  unfoldable pub parse_chunks : List (String × J) → ℕ → String → Result (List ℕ)
  unfolding grid_shape sized_numbers invalid
  parse_chunks doc rank node = elim (grid_shape doc) [
    | none ↦
        fail ErrorCode.unsupported_codec (text "Only regular Zarr chunk grids are supported" ∷ [])
          node
    | some j ↦ elim (sized_numbers rank (array_of view j)) [
      | none ↦ invalid "Zarr chunk_shape must be positive and match shape rank" node
      | some chunks ↦ ok chunks
    ]
  ]

  -- The loop that refuses a transpose whose order is no permutation.
  unfoldable pub transposes_hold : ℕ → List J → Bool
  unfolding is_transpose transpose_order
  transposes_hold rank [] = true
  transposes_hold rank (codec ∷ codecs) =
      let rest = transposes_hold rank codecs in
      if is_transpose view codec
      then elim (transpose_order view codec rank) [ none ↦ false | some order ↦ rest ]
      else rest

  unfoldable pub check_sharding : FoundCodec J → ℕ → String → Option (Result (Unit {0}))
  unfolding inner_shape sized_numbers inner_codecs codec_names_are_strings require invalid
  check_sharding thrown rank node = none
  check_sharding absent rank node = some (ok tt)
  check_sharding (found before sharding) rank node =
      some (elim (sized_numbers rank (inner_shape view sharding)) [
        | none ↦ invalid "Sharding codec chunk_shape must be positive and match the array rank" node
        | some inner ↦
            require (codec_names_are_strings view (inner_codecs view sharding))
              "Zarr codec names must be strings" node
      ])

  -- ParseArrayMetadata's checks of the kind of node, the members that it takes, and the checks of the
  -- codecs.
  unfoldable pub check_kind : List (String × J) → String → Result (Unit {0})
  unfolding require is_member_text check_format
  check_kind doc node =
      require (is_member_text doc "node_type" "array") "Zarr node is not an array" node >>= λ _.
      check_format doc node

  unfoldable pub take_members : List (String × J) → String → Result (ArrayMetadata J)
  unfolding parse_shape parse_names parse_type parse_attributes parse_codecs parse_chunks
      parse_key_encoding check_kind
  take_members doc node = do
    _ ← check_kind doc node
    shape ← parse_shape doc node
    names ← parse_names doc (length shape) node
    typed ← parse_type doc node
    attributes ← parse_attributes doc node
    codecs ← parse_codecs doc node
    chunks ← parse_chunks doc (length shape) node
    ok (record {
      shape = shape;
      dimension_names = names;
      data_type = typed.0;
      data_type_configuration = typed.1;
      attributes = attributes;
      chunk_shape = chunks;
      codecs = codecs;
      chunk_key_encoding = parse_key_encoding doc;
      fill_value = find_member view doc "fill_value";
    })

  unfoldable pub check_codecs : ArrayMetadata J → String → Option (Result (ArrayMetadata J))
  unfolding transposes_hold check_sharding find_codec invalid
  check_codecs metadata node =
      if transposes_hold (length metadata.shape) metadata.codecs
      then elim (check_sharding (find_codec view metadata.codecs "sharding_indexed")
          (length metadata.shape) node) [
            | none ↦ none
            | some checked ↦ some (checked >>= λ _. ok metadata)
          ]
      else some (invalid "Transpose codec order must be a permutation of the array's axes" node)

  -- ParseArrayMetadata
  unfoldable pub parse_array_metadata : J → String → Option (Result (ArrayMetadata J))
  unfolding take_members check_codecs invalid
  parse_array_metadata j node = elim (object_of view j) [
    | none ↦ some (invalid "Zarr array metadata must be a JSON object" node)
    | some doc ↦ elim (take_members doc node) [
      | err e ↦ some (err e)
      | ok metadata ↦ check_codecs metadata node
    ]
  ]
