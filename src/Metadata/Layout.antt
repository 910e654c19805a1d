-- ===== src/Metadata/Layout.antt =====
-- ParseStorageLayout of src/zarr/array_metadata.cc, over metadata that ParseArrayMetadata has accepted.
use carta_zarr.Base.{
  ℕ, zero, suc, ◌<◌, ◌≡◌, refl, sym, ap, ◌∙◌, ◌⊎◌, inl, inr, true, List, [], ◌∷◌, map, Option, none,
  some, String, ok, arith, tests, if◌then◌else◌, ltb, Bool-cases, Option-cases, length, get_or, set,
  replicate, length-set, length-replicate, get_or-set_self, get_or-set_ne, ℕ_discrete,
}
use carta_zarr.Json.{View, non_negative, positive, positive_of, all_numbers}
use carta_zarr.Planes.{StorageLayout}
use carta_zarr.Metadata.{ArrayMetadata}
use carta_zarr.Metadata.Codecs.{
  FoundCodec, find_codec, is_transpose, transpose_order, axes_up, codec_names_are_strings,
}
use carta_zarr.Metadata.Parse.{transposes_hold, check_sharding, sized_numbers, require, invalid}
use carta_zarr.Metadata.Stored.{
  decoded_axes, place_inner, inner_shape, inner_codecs, outer_compressor, sharded_layout,
  parse_storage_layout,
}
use carta_zarr.Metadata.Named.{
  IsSearched, none_found, one_found, find_codec-IsSearched, find_compressor-some,
}
use carta_zarr.Metadata.Order.{IsOrder, axes_up-IsOrder, transpose_order-IsOrder}
use carta_zarr.Metadata.Members.{IsExtent, sized_numbers-IsExtent}
use carta_zarr.Metadata.Accepts.{IsAccepted}
use package.text.Mathlib.Text.{◌==◌ as ◌same_text◌}

length-map : (f : ℕ → ℕ) (xs : List ℕ) → length (map f xs) ≡ length xs
length-map f [] = refl
length-map f (x ∷ xs) = ap suc (length-map f xs)

get_or-map :
    (f : ℕ → ℕ) (xs : List ℕ) (i : ℕ) → i < length xs → get_or (map f xs) i 0 ≡ f (get_or xs i 0)
get_or-map f [] i h = absurd (omega arith)
get_or-map f (x ∷ xs) zero h = refl
get_or-map f (x ∷ xs) (suc i) h = get_or-map f xs i (omega arith)

-- One transpose after others.
IsOrder-compose :
    (rank : ℕ) (decoded order : List ℕ)
    → IsOrder rank decoded
    → IsOrder rank order
    → IsOrder rank (map (λ i. get_or decoded i 0) order)
IsOrder-compose rank decoded order d o = record {
  sized = length-map (λ i. get_or decoded i 0) order ∙ o.sized;
  below = λ i h. rw (at i h) (d.below (get_or order i 0) (o.below i h));
  onto = onto;
}
  where
    at :
        (i : ℕ)
        → i < rank
        → get_or (map (λ i. get_or decoded i 0) order) i 0 ≡ get_or decoded (get_or order i 0) 0
    at i h = get_or-map (λ i. get_or decoded i 0) order i (omega (arith, o.sized))

    onto :
        (j : ℕ)
        → j < rank
        → (i : ℕ) × (i < rank) × (get_or (map (λ i. get_or decoded i 0) order) i 0 ≡ j)
    onto j h =
        let (k, inside, same) = d.onto j h in
        let (i, within, here) = o.onto k inside in
        (i, within, at i within ∙ ap (λ a. get_or decoded a 0) here ∙ same)

-- The layout of an array whose shape has `rank` axes, stored in chunks of `chunk_shape`.
pub record IsLayout (rank : ℕ) (chunk_shape : List ℕ) (layout : StorageLayout) : Type 0 where
  pub chunks : IsExtent rank layout.chunk_shape
  pub shards : layout.shard_shape ≡ (if layout.sharded then chunk_shape else [])

module _ {J : Type 0} (view : J → View J) where
  decoded_axes-IsOrder :
      (rank : ℕ) (codecs : List J) (decoded : List ℕ)
      → transposes_hold view rank codecs ≡ true
      → IsOrder rank decoded
      → (axes : List ℕ) × (decoded_axes view rank codecs decoded ≡ some axes) × IsOrder rank axes
  unfolding decoded_axes transposes_hold
  decoded_axes-IsOrder rank [] decoded e d = (decoded, refl, d)
  decoded_axes-IsOrder rank (codec ∷ codecs) decoded e d =
      elim (Bool-cases (is_transpose view codec)) [
        | inr f ↦
            rw (f, decoded_axes)
              (decoded_axes-IsOrder rank codecs decoded (rw (f, transposes_hold) at e) d)
        | inl f ↦ elim (Option-cases (transpose_order view codec rank)) [
          | inl g ↦ absurd (let bad = (rw (f, g, transposes_hold) at e) in cc)
          | inr (order, g) ↦
              rw (f, g, decoded_axes)
                (decoded_axes-IsOrder rank codecs (map (λ i. get_or decoded i 0) order)
                  (rw (f, g, transposes_hold) at e)
                  (IsOrder-compose rank decoded order d
                    (transpose_order-IsOrder view codec rank order g)))
        ]
      ]

  -- Positive already, or one of the axes still to be placed.
  Placed : List ℕ → List ℕ → ℕ → Type 0
  Placed decoded shape j =
      (0 < get_or shape j 0) ⊎ ((i : ℕ) × (i < length decoded) × (get_or decoded i 0 ≡ j))

  positive_of-some : (o : Option ℕ) (n : ℕ) → positive_of view o ≡ some n → (o ≡ some n) × (0 < n)
  unfolding positive_of
  positive_of-some none n e = absurd cc
  positive_of-some (some k) n e = elim (Bool-cases (ltb 0 k)) [
    | inl f ↦ let one : k ≡ n = (let same = (rw f at e) in cc) in (ap some one, omega (tests, one))
    | inr f ↦ absurd (let bad = (rw f at e) in cc)
  ]

  Placed-set :
      (axis n : ℕ) (decoded shape : List ℕ) (j : ℕ)
      → 0 < n
      → j < length shape
      → Placed (axis ∷ decoded) shape j
      → Placed decoded (set shape axis n) j
  unfolding Placed
  Placed-set axis n decoded shape j pn h p = elim (ℕ_discrete axis j) [
    | yes same ↦
        inl (rw (ap (λ a. get_or (set shape a n) j 0) same, get_or-set_self shape j n 0 h) pn)
    | no other ↦ elim p [
      | inl here ↦ inl (rw (get_or-set_ne shape axis j n 0 other) here)
      | inr (zero, inside, at) ↦ absurd (other at)
      | inr (suc i, inside, at) ↦ inr (i, omega arith, at)
    ]
  ]

  place_inner-some :
      (decoded : List ℕ) (js : List J) (ns shape : List ℕ)
      → all_numbers view (positive view) js ≡ some ns
      → length decoded ≡ length js
      → (placed : List ℕ) × (place_inner view decoded js shape ≡ some placed)
        × (length placed ≡ length shape)
        × ((j : ℕ) → j < length shape → Placed decoded shape j → 0 < get_or placed j 0)
  unfolding place_inner all_numbers positive Placed
  place_inner-some [] js ns shape e len = (
    shape,
    refl,
    refl,
    λ j h p. elim p [ inl here ↦ here | inr (i, inside, at) ↦ absurd (omega arith) ],
  )
  place_inner-some (axis ∷ decoded) [] ns shape e len = absurd (omega arith)
  place_inner-some (axis ∷ decoded) (j ∷ js) ns shape e len =
      elim (Option-cases (positive_of view (non_negative view j))) [
        | inl gone ↦ absurd (let bad = (rw (gone, all_numbers) at e) in cc)
        | inr (n, given) ↦ elim (Option-cases (all_numbers view (positive view) js)) [
          | inl gone ↦ absurd (let bad = (rw (given, gone, all_numbers) at e) in cc)
          | inr (rest, more) ↦
              let (read, pn) = positive_of-some (non_negative view j) n given in
              let (placed, run, size, all) =
                place_inner-some decoded js rest (set shape axis n) more (omega arith) in
              rw (read, place_inner)
                (
                  placed,
                  run,
                  size ∙ length-set shape axis n,
                  λ k h p.
                      all k (omega (arith, length-set shape axis n))
                        (Placed-set axis n decoded shape k pn h p),
                )
        ]
      ]

  place_all-IsExtent :
      (rank : ℕ) (decoded : List ℕ) (js : List J) (ns : List ℕ)
      → IsOrder rank decoded
      → length decoded ≡ length js
      → all_numbers view (positive view) js ≡ some ns
      → (placed : List ℕ) × (place_inner view decoded js (replicate rank 0) ≡ some placed)
        × IsExtent rank placed
  unfolding Placed
  place_all-IsExtent rank decoded js ns order len read =
      let (placed, place, size, all) = place_inner-some decoded js ns (replicate rank 0) read len in
      let zeros : length {A = ℕ} (replicate rank 0) ≡ rank = length-replicate rank 0 in
      (
        placed,
        place,
        record {
          sized = size ∙ zeros;
          positive = λ j h.
              let (i, inside, at) = order.onto j h in
              all j (omega (arith, h, zeros)) (inr (i, omega (arith, inside, order.sized), at));
        },
      )

  -- What the check of a sharding codec that is found establishes.
  pub check_sharding-found :
      (rank : ℕ) (before : List J) (sharding : List (String × J)) (node : String)
      → check_sharding view (FoundCodec.found before sharding) rank node ≡ some (ok tt)
      → (inner : List J) × (ns : List ℕ) × (inner_shape view sharding ≡ some inner)
        × (length inner ≡ rank)
        × (all_numbers view (positive view) inner ≡ some ns)
        × (codec_names_are_strings view (inner_codecs view sharding) ≡ true)
  unfolding check_sharding
  check_sharding-found rank before sharding node e =
      elim (Option-cases (sized_numbers view rank (inner_shape view sharding))) [
        | inl f ↦ absurd (let bad = (rw (f, invalid) at e) in cc)
        | inr (ns, f) ↦
            let (inner, given, size, read, extent) =
              sized_numbers-IsExtent view rank (inner_shape view sharding) ns f in
            elim (Bool-cases (codec_names_are_strings view (inner_codecs view sharding))) [
              | inl g ↦ (inner, ns, given, size, read, g)
              | inr g ↦ absurd (let bad = (rw (f, g, require, invalid) at e) in cc)
            ]
      ]

  outer_compressor-some :
      (codecs : List J) (compressor : String)
      → codec_names_are_strings view codecs ≡ true
      → (name : String) × (outer_compressor view codecs compressor ≡ some name)
  unfolding outer_compressor
  outer_compressor-some codecs compressor named = elim (Bool-cases (compressor same_text "")) [
    | inl f ↦ rw f (find_compressor-some view codecs named)
    | inr f ↦ rw f (compressor, refl)
  ]

  sharded_layout-IsLayout :
      (shard_shape : List ℕ) (codecs before : List J) (sharding : List (String × J)) (node : String)
      → transposes_hold view (length shard_shape) before ≡ true
      → codec_names_are_strings view codecs ≡ true
      → check_sharding view (FoundCodec.found before sharding) (length shard_shape) node
        ≡ some (ok tt)
      → (layout : StorageLayout) × (sharded_layout view shard_shape codecs before sharding
          ≡ some layout)
        × IsLayout (length shard_shape) shard_shape layout
  unfolding sharded_layout
  sharded_layout-IsLayout shard_shape codecs before sharding node holds named check =
      let rank = length shard_shape in
      let (inner, ns, given, size, read, within) =
        check_sharding-found rank before sharding node check in
      let (decoded, run, order) =
        decoded_axes-IsOrder rank before (axes_up 0 rank) holds (axes_up-IsOrder rank) in
      let (placed, place, extent) =
        place_all-IsExtent rank decoded inner ns order (order.sized ∙ sym size) read in
      let (inner_compressor, found_inner) =
        find_compressor-some view (inner_codecs view sharding) within in
      let (compressor, found_outer) = outer_compressor-some codecs inner_compressor named in
      rw (run, given, place, found_inner, found_outer, sharded_layout)
        (_, refl, record { chunks = extent; shards = refl })

  storage_layout_of :
      (m : ArrayMetadata J) (f : FoundCodec J) (node : String)
      → find_codec view m.codecs "sharding_indexed" ≡ f
      → IsSearched view (length m.shape) m.codecs f
      → IsAccepted view m
      → check_sharding view f (length m.shape) node ≡ some (ok tt)
      → (layout : StorageLayout) × (parse_storage_layout view m ≡ some layout)
        × IsLayout (length m.shape) m.chunk_shape layout
  unfolding parse_storage_layout
  storage_layout_of m _ node same none_found v check =
      let (compressor, run) = find_compressor-some view m.codecs v.named in
      rw (same, run, parse_storage_layout) (_, refl, record { chunks = v.chunks; shards = refl })
  storage_layout_of m _ node same (one_found before sharding holds) v check =
      let rank : length m.chunk_shape ≡ length m.shape = v.chunks.sized in
      let (layout, run, is) =
        sharded_layout-IsLayout m.chunk_shape m.codecs before sharding node
          (rw rank (holds v.transposes)) v.named (rw rank check) in
      rw (same, run, parse_storage_layout) (layout, refl, (rw rank at is))

  -- ParseStorageLayout, of metadata that ParseArrayMetadata accepts, neither throws nor reads out of range:
  -- it gives a layout whose chunks have the rank of the array and no extent of zero, after the transposes
  -- and the sharding codec too, and whose shards are the array's chunks where it is sharded, and none where
  -- it is not.
  pub parse_storage_layout-IsLayout :
      (m : ArrayMetadata J)
      → IsAccepted view m
      → (layout : StorageLayout) × (parse_storage_layout view m ≡ some layout)
        × IsLayout (length m.shape) m.chunk_shape layout
  parse_storage_layout-IsLayout m v =
      let (node, check) = v.sharding in
      storage_layout_of m (find_codec view m.codecs "sharding_indexed") node refl
        (find_codec-IsSearched view (length m.shape) m.codecs "sharding_indexed" v.named) v check
