-- ===== src/Metadata/Accepts.antt =====
-- ParseArrayMetadata of src/zarr/array_metadata.cc: what holds of the metadata that it accepts.
use carta_zarr.Base.{
  ℕ, ◌≡◌, refl, true, List, [], some, String, Result, ok, err, Bool-cases, Option-cases,
  Result-cases, inl, inr, length, ◌⊎◌,
}
use carta_zarr.Json.{View, object_of}
use carta_zarr.Metadata.{ArrayMetadata}
use carta_zarr.Metadata.Codecs.{FoundCodec, find_codec, codec_names_are_strings}
use carta_zarr.Metadata.Named.{IsSearched, none_found, one_found, find_codec-IsSearched}
use carta_zarr.Metadata.Parse.{
  parse_array_metadata, take_members, check_codecs, transposes_hold, check_sharding, are_unique,
  invalid,
}
use carta_zarr.Metadata.Members.{IsExtent, take_members-ok}

module _ {J : Type 0} (view : J → View J) where
  -- The chunk shape has the rank of the array's shape and no extent of zero; the dimensions have no name
  -- or one each, all different; and the codecs are what the layout is read out of.
  pub record IsAccepted (metadata : ArrayMetadata J) : Type 0 where
    pub chunks : IsExtent (length metadata.shape) metadata.chunk_shape
    pub names :
        (metadata.dimension_names ≡ [])
        ⊎ ((length metadata.dimension_names ≡ length metadata.shape)
            × (are_unique metadata.dimension_names ≡ true))
    pub named : codec_names_are_strings view metadata.codecs ≡ true
    pub transposes : transposes_hold view (length metadata.shape) metadata.codecs ≡ true
    pub sharding :
        (node : String) × (check_sharding view
            (find_codec view metadata.codecs "sharding_indexed")
            (length metadata.shape)
            node
          ≡ some (ok tt))

  check_sharding-some :
      {codecs : List J} {f : FoundCodec J} (rank : ℕ) (node : String)
      → IsSearched view rank codecs f
      → (r : Result (Unit {0})) × (check_sharding view f rank node ≡ some r)
  unfolding check_sharding
  check_sharding-some rank node none_found = (ok tt, refl)
  check_sharding-some rank node (one_found before members h) = (_, refl)

  -- What the check of the sharding codec leaves to be accepted.
  check_codecs-IsAccepted :
      (given m : ArrayMetadata J) (node : String)
      → IsExtent (length given.shape) given.chunk_shape
      → ((given.dimension_names ≡ [])
          ⊎ ((length given.dimension_names ≡ length given.shape)
              × (are_unique given.dimension_names ≡ true)))
      → codec_names_are_strings view given.codecs ≡ true
      → check_codecs view given node ≡ some (ok m)
      → IsAccepted m
  unfolding check_codecs
  check_codecs-IsAccepted given m node chunks names named e =
      elim (Bool-cases (transposes_hold view (length given.shape) given.codecs)) [
        | inr f ↦ absurd (let bad = (rw (f, invalid) at e) in cc)
        | inl f ↦
            elim (Option-cases (
              check_sharding view (find_codec view given.codecs "sharding_indexed")
                (length given.shape) node)) [
                  | inl g ↦ absurd (let bad = (rw (f, g) at e) in cc)
                  | inr (err x, g) ↦ absurd (let bad = (rw (f, g) at e) in cc)
                  | inr (ok tt, g) ↦
                      let one : given ≡ m = (let same = (rw (f, g) at e) in cc) in
                      rw (← one) (record {
                        chunks = chunks;
                        names = names;
                        named = named;
                        transposes = f;
                        sharding = (node, g);
                      })
                ]
      ]

  -- What ParseArrayMetadata accepts passes its checks; what they are worth is WellFormed's.
  pub parse_array_metadata-IsAccepted :
      (j : J) (node : String) (m : ArrayMetadata J)
      → parse_array_metadata view j node ≡ some (ok m)
      → IsAccepted m
  unfolding parse_array_metadata
  parse_array_metadata-IsAccepted j node m e = elim (Option-cases (object_of view j)) [
    | inl f ↦ absurd (let bad = (rw (f, invalid, parse_array_metadata) at e) in cc)
    | inr (doc, f) ↦ elim (Result-cases (take_members view doc node)) [
      | inr (x, g) ↦ absurd (let bad = (rw (f, g, parse_array_metadata) at e) in cc)
      | inl (given, g) ↦
          let (chunks, names, named) = take_members-ok view doc node given g in
          check_codecs-IsAccepted given m node chunks names named
            (rw (f, g, parse_array_metadata) at e)
    ]
  ]

  check_codecs-some :
      (given : ArrayMetadata J) (node : String)
      → codec_names_are_strings view given.codecs ≡ true
      → (r : Result (ArrayMetadata J)) × (check_codecs view given node ≡ some r)
  unfolding check_codecs
  check_codecs-some given node named =
      elim (Bool-cases (transposes_hold view (length given.shape) given.codecs)) [
        | inr f ↦ rw f (_, refl)
        | inl f ↦
            let (r, g) = check_sharding-some (length given.shape) node (
              find_codec-IsSearched view (length given.shape) given.codecs "sharding_indexed"
                named) in
            rw (f, g) (_, refl)
      ]

  -- ParseArrayMetadata looks up no codec by a name that would throw: it returns the metadata or an error,
  -- whatever the document is.
  pub parse_array_metadata-some :
      (j : J) (node : String)
      → (r : Result (ArrayMetadata J)) × (parse_array_metadata view j node ≡ some r)
  unfolding parse_array_metadata
  parse_array_metadata-some j node = elim (Option-cases (object_of view j)) [
    | inl f ↦ rw (f, parse_array_metadata) (_, refl)
    | inr (doc, f) ↦ elim (Result-cases (take_members view doc node)) [
      | inr (x, g) ↦ rw (f, g, parse_array_metadata) (_, refl)
      | inl (given, g) ↦
          let (chunks, names, named) = take_members-ok view doc node given g in
          let (r, h) = check_codecs-some given node named in
          rw (f, g, h, parse_array_metadata) (r, refl)
    ]
  ]
