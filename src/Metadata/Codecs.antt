-- ===== src/Metadata/Codecs.antt =====
-- FindCodec, FindCompressor and TransposeOrder of src/zarr/array_metadata.cc: what a chain of codecs says.
-- `none` is an exception that the JSON library throws, or a transpose that has no order.
use carta_zarr.Base.{
  ℕ, zero, suc, Bool, true, false, ◌||◌, List, [], ◌∷◌, Option, none, some, String, text,
  if◌then◌else◌, leb, ◌==◌, length, get_or, set, replicate,
}
use carta_zarr.Json.{
  View, object_of, array_of, string_of, find_member, member, is_text, non_negative, all_of,
}
use package.text.Mathlib.Text.{◌==◌ as ◌same_text◌}

-- The axes 0 … n - 1 in order, from `at` on, and backwards.
unfoldable pub axes_up : ℕ → ℕ → List ℕ
axes_up at zero = []
axes_up at (suc n) = at ∷ axes_up (suc at) n

unfoldable pub axes_down : ℕ → List ℕ
axes_down zero = []
axes_down (suc n) = n ∷ axes_down n

-- What FindCodec finds: it throws at a name that is no string; there is none; or the codec's members,
-- with the codecs before it.
pub data FoundCodec (J : Type 0) : Type 0 where
  thrown absent : FoundCodec J
  found : List J → List (String × J) → FoundCodec J

unfoldable pub after_codec : {J : Type 0} → J → FoundCodec J → FoundCodec J
after_codec codec thrown = thrown
after_codec codec absent = absent
after_codec codec (found before members) = found (codec ∷ before) members

module _ {J : Type 0} (view : J → View J) where
  -- `codec.value("name", "")`
  unfoldable pub codec_name : List (String × J) → Option String
  codec_name members = elim (find_member view members "name") [
    | none ↦ some ""
    | some j ↦ string_of view j
  ]

  -- FindCodec
  unfoldable pub find_codec : List J → String → FoundCodec J
  unfolding codec_name after_codec
  find_codec [] name = absent
  find_codec (codec ∷ codecs) name =
      let rest = after_codec codec (find_codec codecs name) in
      elim (object_of view codec) [
        | none ↦ rest
        | some members ↦ elim (codec_name members) [
          | none ↦ thrown
          | some n ↦ if n same_text name then found [] members else rest
        ]
      ]

  -- CodecNamesAreStrings
  unfoldable pub has_text_name : J → Bool
  has_text_name codec = elim (member view codec "name") [
    | none ↦ true
    | some j ↦ elim (string_of view j) [ none ↦ false | some s ↦ true ]
  ]

  unfoldable pub codec_names_are_strings : List J → Bool
  unfolding has_text_name all_of
  codec_names_are_strings codecs = all_of view has_text_name codecs

  -- FindCompressor's loop over the names of compressors.
  unfoldable pub first_codec : List J → List String → Option String
  first_codec codecs [] = some ""
  first_codec codecs (name ∷ names) = elim (find_codec codecs name) [
    | thrown ↦ none
    | absent ↦ first_codec codecs names
    | found before members ↦ some name
  ]

  unfoldable pub find_compressor : List J → Option String
  unfolding first_codec
  find_compressor codecs = first_codec codecs ("zstd" ∷ "gzip" ∷ "blosc" ∷ [])

  -- TransposeOrder's loop over a list of axes, with the axes seen before.
  unfoldable pub read_order : ℕ → List Bool → List J → Option (List ℕ)
  read_order rank seen [] = some []
  read_order rank seen (j ∷ js) = elim (non_negative view j) [
    | none ↦ none
    | some axis ↦
        let rest = read_order rank (set seen axis true) js in
        if leb rank axis || get_or seen axis false
        then none
        else elim rest [ none ↦ none | some axes ↦ some (axis ∷ axes) ]
  ]

  -- The two spellings from before the list.
  unfoldable pub spelled_order : ℕ → String → Option (List ℕ)
  unfolding axes_up axes_down
  spelled_order rank spelling =
      if spelling same_text "C"
      then some (axes_up 0 rank)
      else if spelling same_text "F"
      then some (axes_down rank)
      else none

  unfoldable pub listed_order : ℕ → Option (List J) → Option (List ℕ)
  unfolding read_order
  listed_order rank none = none
  listed_order rank (some js) =
      if length js == rank then read_order rank (replicate rank false) js else none

  -- TransposeOrder
  unfoldable pub transpose_order : J → ℕ → Option (List ℕ)
  unfolding spelled_order listed_order
  transpose_order codec rank = elim (member view codec "configuration") [
    | none ↦ none
    | some configuration ↦ elim (member view configuration "order") [
      | none ↦ none
      | some order ↦ elim (string_of view order) [
        | some spelling ↦ spelled_order rank spelling
        | none ↦ listed_order rank (array_of view order)
      ]
    ]
  ]

  unfoldable pub is_transpose : J → Bool
  is_transpose codec = elim (member view codec "name") [
    | none ↦ false
    | some name ↦ is_text view name "transpose"
  ]
