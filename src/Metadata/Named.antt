-- ===== src/Metadata/Named.antt =====
-- FindCodec and FindCompressor of src/zarr/array_metadata.cc, over codecs whose names are strings.
use carta_zarr.Base.{
  ℕ, ◌≡◌, refl, inl, inr, true, List, [], ◌∷◌, some, String, Bool-cases, Option-cases,
}
use carta_zarr.Json.{View, object_of, string_of, find_member, member, all_of}
use carta_zarr.Metadata.Codecs.{
  FoundCodec, absent, found, after_codec, codec_name, find_codec, has_text_name,
  codec_names_are_strings, first_codec, find_compressor, is_transpose, transpose_order,
}
use carta_zarr.Metadata.Parse.{transposes_hold}
use package.text.Mathlib.Text.{◌==◌ as ◌same_text◌}

module _ {J : Type 0} (view : J → View J) where
  pub codec_names_are_strings_split :
      (codec : J) (codecs : List J)
      → codec_names_are_strings view (codec ∷ codecs) ≡ true
      → (has_text_name view codec ≡ true) × (codec_names_are_strings view codecs ≡ true)
  unfolding codec_names_are_strings all_of
  codec_names_are_strings_split codec codecs e = elim (Bool-cases (has_text_name view codec)) [
    | inl f ↦ (f, (rw f at e))
    | inr f ↦ absurd (let bad = (rw f at e) in cc)
  ]

  pub codec_name-some :
      (codec : J) (members : List (String × J))
      → object_of view codec ≡ some members
      → has_text_name view codec ≡ true
      → (name : String) × (codec_name view members ≡ some name)
  unfolding has_text_name member codec_name
  codec_name-some codec members o e = elim (Option-cases (find_member view members "name")) [
    | inl f ↦ ("", rw (f, codec_name) refl)
    | inr (j, f) ↦ elim (Option-cases (string_of view j)) [
      | inl g ↦ absurd (let bad = (rw (o, f, g, has_text_name, member) at e) in cc)
      | inr (s, g) ↦ (s, rw (f, g, codec_name) refl)
    ]
  ]

  -- A search that is not thrown out of; where it finds a codec, the transposes before it hold.
  pub data IsSearched (rank : ℕ) (codecs : List J) : FoundCodec J → Type 0 where
    none_found : IsSearched rank codecs absent
    one_found :
        (before : List J) (members : List (String × J))
        → (transposes_hold view rank codecs ≡ true → transposes_hold view rank before ≡ true)
        → IsSearched rank codecs (found before members)

  transposes_hold_cons :
      (rank : ℕ) (codec : J) (codecs before : List J)
      → (transposes_hold view rank codecs ≡ true → transposes_hold view rank before ≡ true)
      → transposes_hold view rank (codec ∷ codecs) ≡ true
      → transposes_hold view rank (codec ∷ before) ≡ true
  unfolding transposes_hold
  transposes_hold_cons rank codec codecs before h e = elim (Bool-cases (is_transpose view codec)) [
    | inr f ↦ rw f (h (rw f at e))
    | inl f ↦ elim (Option-cases (transpose_order view codec rank)) [
      | inl g ↦ absurd (let bad = (rw (f, g, transposes_hold) at e) in cc)
      | inr (order, g) ↦ rw (f, g, transposes_hold) (h (rw (f, g, transposes_hold) at e))
    ]
  ]

  after_codec-IsSearched :
      (rank : ℕ) (codec : J) (codecs : List J) (f : FoundCodec J)
      → IsSearched rank codecs f
      → IsSearched rank (codec ∷ codecs) (after_codec codec f)
  unfolding after_codec
  after_codec-IsSearched rank codec codecs _ none_found = none_found
  after_codec-IsSearched rank codec codecs _ (one_found before members h) =
      one_found (codec ∷ before) members (transposes_hold_cons rank codec codecs before h)

  pub find_codec-IsSearched :
      (rank : ℕ) (codecs : List J) (name : String)
      → codec_names_are_strings view codecs ≡ true
      → IsSearched rank codecs (find_codec view codecs name)
  unfolding find_codec transposes_hold
  find_codec-IsSearched rank [] name e = none_found
  find_codec-IsSearched rank (codec ∷ codecs) name e =
      let (here, rest) = codec_names_are_strings_split codec codecs e in
      let later =
        after_codec-IsSearched rank codec codecs (find_codec view codecs name)
          (find_codec-IsSearched rank codecs name rest) in
      elim (Option-cases (object_of view codec)) [
        | inl f ↦ rw (f, find_codec) later
        | inr (members, f) ↦
            let (n, named) = codec_name-some codec members f here in
            elim (Bool-cases (n same_text name)) [
              | inl g ↦ rw (f, named, g, find_codec) (one_found [] members (λ h. refl))
              | inr g ↦ rw (f, named, g, find_codec) later
            ]
      ]

  -- One turn of the loop over the names of compressors.
  next_codec-some :
      (codecs : List J) (name : String) (names : List String) (f : FoundCodec J)
      → find_codec view codecs name ≡ f
      → IsSearched 0 codecs f
      → (n : String) × (first_codec view codecs names ≡ some n)
      → (n : String) × (first_codec view codecs (name ∷ names) ≡ some n)
  unfolding first_codec
  next_codec-some codecs name names _ same none_found (n, more) = (n, rw (same, first_codec) more)
  next_codec-some codecs name names _ same (one_found before members h) later =
      (name, rw (same, first_codec) refl)

  first_codec-some :
      (codecs : List J) (names : List String)
      → codec_names_are_strings view codecs ≡ true
      → (name : String) × (first_codec view codecs names ≡ some name)
  unfolding first_codec
  first_codec-some codecs [] e = ("", refl)
  first_codec-some codecs (name ∷ names) e =
      next_codec-some codecs name names (find_codec view codecs name) refl
        (find_codec-IsSearched 0 codecs name e) (first_codec-some codecs names e)

  pub find_compressor-some :
      (codecs : List J)
      → codec_names_are_strings view codecs ≡ true
      → (name : String) × (find_compressor view codecs ≡ some name)
  unfolding find_compressor
  find_compressor-some codecs e = first_codec-some codecs ("zstd" ∷ "gzip" ∷ "blosc" ∷ []) e
