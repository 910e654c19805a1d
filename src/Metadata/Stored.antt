-- ===== src/Metadata/Stored.antt =====
-- ParseStorageLayout of src/zarr/array_metadata.cc: how an array is stored. `none` is an exception that
-- the JSON library throws, or an access that has no meaning.
use carta_zarr.Base.{
  ℕ, true, false, List, [], ◌∷◌, map, Option, none, some, String, text, if◌then◌else◌, length,
  get_or, set, replicate,
}
use carta_zarr.Json.{View, array_of, find_member, member, non_negative}
use package.text.Mathlib.Text.{◌==◌ as ◌same_text◌}
use carta_zarr.Planes.{StorageLayout}
use carta_zarr.Metadata.{ArrayMetadata}
use carta_zarr.Metadata.Codecs.{
  thrown, absent, found, find_codec, find_compressor, is_transpose, transpose_order, axes_up,
}

module _ {J : Type 0} (view : J → View J) where
  -- ApplyShardingLayout's loop over the codecs before the sharding one: for each axis of the array
  -- that reaches it, the decoded axis that it is.
  unfoldable pub decoded_axes : ℕ → List J → List ℕ → Option (List ℕ)
  unfolding is_transpose transpose_order
  decoded_axes rank [] decoded = some decoded
  decoded_axes rank (codec ∷ codecs) decoded =
      if is_transpose view codec
      then elim (transpose_order view codec rank) [
        | none ↦ none
        | some order ↦ decoded_axes rank codecs (map (λ i. get_or decoded i 0) order)
      ]
      else decoded_axes rank codecs decoded

  -- Its last loop: each extent of the inner chunks at its decoded axis.
  unfoldable pub place_inner : List ℕ → List J → List ℕ → Option (List ℕ)
  place_inner [] inner shape = some shape
  place_inner (axis ∷ decoded) [] shape = none
  place_inner (axis ∷ decoded) (j ∷ inner) shape = elim (non_negative view j) [
    | none ↦ none
    | some n ↦ place_inner decoded inner (set shape axis n)
  ]

  -- The inner chunk shape of a sharding codec's configuration, and its own codecs: none of them where
  -- it has no list of codecs.
  unfoldable pub inner_shape : List (String × J) → Option (List J)
  inner_shape sharding = elim (find_member view sharding "configuration") [
    | none ↦ none
    | some configuration ↦ elim (member view configuration "chunk_shape") [
      | none ↦ none
      | some shape ↦ array_of view shape
    ]
  ]

  unfoldable pub inner_codecs : List (String × J) → List J
  inner_codecs sharding = elim (find_member view sharding "configuration") [
    | none ↦ []
    | some configuration ↦ elim (member view configuration "codecs") [
      | none ↦ []
      | some codecs ↦ elim (array_of view codecs) [ none ↦ [] | some js ↦ js ]
    ]
  ]

  -- `if (layout.compressor.empty()) …`
  unfoldable pub outer_compressor : List J → String → Option String
  unfolding find_compressor
  outer_compressor codecs compressor =
      if compressor same_text "" then find_compressor view codecs else some compressor

  -- ApplyShardingLayout, and the rest of ParseStorageLayout after it.
  unfoldable pub sharded_layout :
      List ℕ → List J → List J → List (String × J) → Option StorageLayout
  unfolding decoded_axes place_inner inner_shape inner_codecs find_compressor outer_compressor
  sharded_layout shard_shape codecs before sharding =
      let rank = length shard_shape in
      elim (decoded_axes rank before (axes_up 0 rank)) [
        | none ↦ none
        | some decoded ↦ elim (inner_shape sharding) [
          | none ↦ none
          | some inner ↦ elim (place_inner decoded inner (replicate rank 0)) [
            | none ↦ none
            | some chunk_shape ↦ elim (find_compressor view (inner_codecs sharding)) [
              | none ↦ none
              | some inner_compressor ↦ elim (outer_compressor codecs inner_compressor) [
                | none ↦ none
                | some compressor ↦ some (record {
                  chunk_shape = chunk_shape;
                  shard_shape = shard_shape;
                  compressor = compressor;
                  sharded = true;
                })
              ]
            ]
          ]
        ]
      ]

  -- ParseStorageLayout
  unfoldable pub parse_storage_layout : ArrayMetadata J → Option StorageLayout
  unfolding find_codec sharded_layout find_compressor
  parse_storage_layout metadata = elim (find_codec view metadata.codecs "sharding_indexed") [
    | thrown ↦ none
    | found before sharding ↦ sharded_layout metadata.chunk_shape metadata.codecs before sharding
    | absent ↦ elim (find_compressor view metadata.codecs) [
      | none ↦ none
      | some compressor ↦ some (record {
        chunk_shape = metadata.chunk_shape;
        shard_shape = [];
        compressor = compressor;
        sharded = false;
      })
    ]
  ]
