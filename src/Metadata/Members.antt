-- ===== src/Metadata/Members.antt =====
-- ParseArrayMetadata of src/zarr/array_metadata.cc: what holds of the members that it takes.
use carta_zarr.Base.{
  ℕ, zero, suc, ◌<◌, ◌≡◌, refl, sym, ap, ◌∙◌, true, List, [], ◌∷◌, Option, none, some, String,
  Result, ok, err, ◌>>=◌, arith, tests, ltb, ◌==◌, ==→eq, Bool-cases, Option-cases, inl, inr,
  length, get_or, ◌⊎◌,
}
use carta_zarr.Json.{
  View, array_of, string_of, non_negative, positive, positive_of, all_numbers, find_member,
}
use carta_zarr.Metadata.{ArrayMetadata}
use carta_zarr.Metadata.Codecs.{codec_names_are_strings}
use carta_zarr.Metadata.Parse.{
  take_members, check_kind, parse_shape, parse_names, parse_type, parse_attributes, parse_codecs,
  parse_chunks, sized_numbers, grid_shape, names_given, check_names, all_texts, are_unique, invalid,
  parse_key_encoding,
}

-- Positive numbers, `rank` of them.
pub record IsExtent (rank : ℕ) (shape : List ℕ) : Type 0 where
  pub sized : length shape ≡ rank
  pub positive : (i : ℕ) → i < rank → 0 < get_or shape i 0

-- The value that a chain of results goes on with.
bind-ok :
    {A B : Type 0} (m : Result A) (f : A → Result B) (b : B)
    → (m >>= f) ≡ ok b
    → (a : A) × (m ≡ ok a) × (f a ≡ ok b)
bind-ok (err e) f b h = absurd cc
bind-ok (ok a) f b h = (a, refl, h)

IsExtent-cons :
    (rank n : ℕ) (shape : List ℕ) → 0 < n → IsExtent rank shape → IsExtent (suc rank) (n ∷ shape)
IsExtent-cons rank n shape h v = record { sized = ap suc v.sized; positive = at }
  where
    at : (i : ℕ) → i < suc rank → 0 < get_or (n ∷ shape) i 0
    at zero l = h
    at (suc i) l = v.positive i (omega arith)

module _ {J : Type 0} (view : J → View J) where
  positive_of-lt : (o : Option ℕ) (n : ℕ) → positive_of view o ≡ some n → 0 < n
  unfolding positive_of
  positive_of-lt none n e = absurd cc
  positive_of-lt (some k) n e = elim (Bool-cases (ltb 0 k)) [
    | inl f ↦ let one : k ≡ n = (let same = (rw f at e) in cc) in omega (tests, one)
    | inr f ↦ absurd (let bad = (rw f at e) in cc)
  ]

  pub all_numbers-positive :
      (js : List J) (ns : List ℕ)
      → all_numbers view (positive view) js ≡ some ns
      → IsExtent (length js) ns
  unfolding all_numbers positive
  all_numbers-positive [] ns e =
      let one : ns ≡ [] = cc in
      rw one (record { sized = refl; positive = λ i h. absurd (omega arith) })
  all_numbers-positive (j ∷ js) ns e =
      elim (Option-cases (positive_of view (non_negative view j))) [
        | inl gone ↦ absurd (let bad = (rw (gone, all_numbers) at e) in cc)
        | inr (n, given) ↦ elim (Option-cases (all_numbers view (positive view) js)) [
          | inl gone ↦ absurd (let bad = (rw (given, gone, all_numbers) at e) in cc)
          | inr (rest, more) ↦
              let one : ns ≡ n ∷ rest = (let both = (rw (given, more, all_numbers) at e) in cc) in
              rw one (
                IsExtent-cons (length js) n rest (positive_of-lt (non_negative view j) n given)
                  (all_numbers-positive js rest more))
        ]
      ]

  pub sized_numbers-IsExtent :
      (rank : ℕ) (js : Option (List J)) (ns : List ℕ)
      → sized_numbers view rank js ≡ some ns
      → (elements : List J) × (js ≡ some elements)
        × (length elements ≡ rank)
        × (all_numbers view (positive view) elements ≡ some ns)
        × IsExtent rank ns
  unfolding sized_numbers
  sized_numbers-IsExtent rank none ns e = absurd cc
  sized_numbers-IsExtent rank (some js) ns e = elim (Bool-cases (length js == rank)) [
    | inr f ↦ absurd (let bad = (rw f at e) in cc)
    | inl f ↦
        let size : length js ≡ rank = ==→eq (length js) rank f in
        let read : all_numbers view (positive view) js ≡ some ns = (rw f at e) in
        (js, refl, size, read, (rw size at (all_numbers-positive js ns read)))
  ]

  parse_chunks-IsExtent :
      (doc : List (String × J)) (rank : ℕ) (node : String) (chunks : List ℕ)
      → parse_chunks view doc rank node ≡ ok chunks
      → IsExtent rank chunks
  unfolding parse_chunks
  parse_chunks-IsExtent doc rank node chunks e = elim (Option-cases (grid_shape view doc)) [
    | inl f ↦ absurd (let bad = (rw (f, parse_chunks) at e) in cc)
    | inr (j, f) ↦ elim (Option-cases (sized_numbers view rank (array_of view j))) [
      | inl g ↦ absurd (let bad = (rw (f, g, parse_chunks, invalid) at e) in cc)
      | inr (ns, g) ↦
          let one : ns ≡ chunks = (let same = (rw (f, g, parse_chunks) at e) in cc) in
          let (js, given, size, read, extent) =
            sized_numbers-IsExtent rank (array_of view j) ns g in
          (rw one at extent)
    ]
  ]

  parse_codecs-named :
      (doc : List (String × J)) (node : String) (codecs : List J)
      → parse_codecs view doc node ≡ ok codecs
      → codec_names_are_strings view codecs ≡ true
  unfolding parse_codecs codec_names_are_strings
  parse_codecs-named doc node codecs e = elim (Option-cases (find_member view doc "codecs")) [
    | inl f ↦ let one : codecs ≡ [] = (let same = (rw (f, parse_codecs) at e) in cc) in rw one refl
    | inr (j, f) ↦ elim (Option-cases (array_of view j)) [
      | inl g ↦
          let one : codecs ≡ [] = (let same = (rw (f, g, parse_codecs) at e) in cc) in rw one refl
      | inr (js, g) ↦ elim (Bool-cases (codec_names_are_strings view js)) [
        | inl h ↦
            let one : js ≡ codecs = (let same = (rw (f, g, h, parse_codecs) at e) in cc) in
            (rw one at h)
        | inr h ↦ absurd (let bad = (rw (f, g, h, parse_codecs, invalid) at e) in cc)
      ]
    ]
  ]

  length-all_texts :
      (js : List J) (texts : List String)
      → all_texts view js ≡ some texts
      → length texts ≡ length js
  unfolding all_texts
  length-all_texts [] texts e = let one : texts ≡ [] = cc in rw one refl
  length-all_texts (j ∷ js) texts e = elim (Option-cases (string_of view j)) [
    | inl f ↦ absurd (let bad = (rw (f, all_texts) at e) in cc)
    | inr (t, f) ↦ elim (Option-cases (all_texts view js)) [
      | inl g ↦ absurd (let bad = (rw (f, g, all_texts) at e) in cc)
      | inr (ts, g) ↦
          let one : texts ≡ t ∷ ts = (let same = (rw (f, g, all_texts) at e) in cc) in
          rw one (ap suc (length-all_texts js ts g))
    ]
  ]

  check_names-Unique :
      (names : List J) (rank : ℕ) (node : String) (texts : List String)
      → check_names view names rank node ≡ ok texts
      → (length texts ≡ rank) × (are_unique texts ≡ true)
  unfolding check_names
  check_names-Unique names rank node texts e = elim (Bool-cases (length names == rank)) [
    | inr f ↦ absurd (let bad = (rw (f, check_names, invalid) at e) in cc)
    | inl f ↦ elim (Option-cases (all_texts view names)) [
      | inl g ↦ absurd (let bad = (rw (f, g, check_names, invalid) at e) in cc)
      | inr (ts, g) ↦ elim (Bool-cases (are_unique ts)) [
        | inl h ↦
            let one : ts ≡ texts = (let same = (rw (f, g, h, check_names) at e) in cc) in
            (
              ap length (sym one) ∙ length-all_texts names ts g ∙ ==→eq (length names) rank f,
              (rw one at h),
            )
        | inr h ↦ absurd (let bad = (rw (f, g, h, check_names, invalid) at e) in cc)
      ]
    ]
  ]

  parse_names-Unique :
      (doc : List (String × J)) (rank : ℕ) (node : String) (texts : List String)
      → parse_names view doc rank node ≡ ok texts
      → (texts ≡ []) ⊎ ((length texts ≡ rank) × (are_unique texts ≡ true))
  unfolding parse_names
  parse_names-Unique doc rank node texts e = elim (Option-cases (names_given view doc)) [
    | inl f ↦ inl (let same = (rw (f, parse_names) at e) in cc)
    | inr (j, f) ↦ elim (Option-cases (array_of view j)) [
      | inl g ↦ absurd (let bad = (rw (f, g, parse_names, invalid) at e) in cc)
      | inr (js, g) ↦ inr (check_names-Unique js rank node texts (rw (f, g, parse_names) at e))
    ]
  ]

  pub take_members-ok :
      (doc : List (String × J)) (node : String) (m : ArrayMetadata J)
      → take_members view doc node ≡ ok m
      → IsExtent (length m.shape) m.chunk_shape
        × ((m.dimension_names ≡ [])
            ⊎ ((length m.dimension_names ≡ length m.shape) × (are_unique m.dimension_names ≡ true)))
        × (codec_names_are_strings view m.codecs ≡ true)
  unfolding take_members
  take_members-ok doc node m e =
      let (k, e0, r0) = bind-ok (check_kind view doc node) _ m e in
      let (shape, e1, r1) = bind-ok (parse_shape view doc node) _ m r0 in
      let (names, e2, r2) = bind-ok (parse_names view doc (length shape) node) _ m r1 in
      let (typed, e3, r3) = bind-ok (parse_type view doc node) _ m r2 in
      let (attributes, e4, r4) = bind-ok (parse_attributes view doc node) _ m r3 in
      let (codecs, e5, r5) = bind-ok (parse_codecs view doc node) _ m r4 in
      let (chunks, e6, r6) = bind-ok (parse_chunks view doc (length shape) node) _ m r5 in
      let one : record {
        shape = shape;
        dimension_names = names;
        data_type = typed.0;
        data_type_configuration = typed.1;
        attributes = attributes;
        chunk_shape = chunks;
        codecs = codecs;
        chunk_key_encoding = parse_key_encoding view doc;
        fill_value = find_member view doc "fill_value";
      }
          ≡ m =
        cc in
      rw (← one) (
        parse_chunks-IsExtent doc (length shape) node chunks e6,
        parse_names-Unique doc (length shape) node names e2,
        parse_codecs-named doc node codecs e5,
      )
