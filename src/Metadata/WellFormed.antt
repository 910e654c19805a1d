-- ===== src/Metadata/WellFormed.antt =====
-- ParseArrayMetadata of src/zarr/array_metadata.cc: what the metadata that it accepts says, apart from the
-- tests that it makes.
use carta_zarr.Base.{
  ℕ, zero, suc, ◌<◌, ◌≡◌, ◌≢◌, refl, sym, ap, ◌∙◌, ◌⊎◌, inl, inr, Bool, true, false, not, ◌&&◌,
  List, [], ◌∷◌, some, String, ok, Bool-cases, Option-cases, arith, length, get_elem?, get_or,
}
use carta_zarr.Json.{
  View, object_of, string_of, find_member, member, is_text, positive, all_numbers,
}
use carta_zarr.Metadata.{ArrayMetadata}
use carta_zarr.Metadata.Codecs.{
  found, find_codec, after_codec, codec_name, has_text_name, codec_names_are_strings, is_transpose,
  transpose_order,
}
use carta_zarr.Metadata.Stored.{inner_shape, inner_codecs}
use carta_zarr.Metadata.Parse.{names_contain, are_unique, transposes_hold, parse_array_metadata}
use carta_zarr.Metadata.Named.{codec_names_are_strings_split, codec_name-some}
use carta_zarr.Metadata.Members.{IsExtent, all_numbers-positive}
use carta_zarr.Metadata.Accepts.{IsAccepted, parse_array_metadata-IsAccepted}
use carta_zarr.Metadata.Order.{IsOrder, transpose_order-IsOrder}
use carta_zarr.Metadata.Layout.{check_sharding-found}
use package.text.Mathlib.Text.{◌==◌ as ◌same_text◌}
use package.text.Mathlib.TextEquality.{eq_iff}

-- No name stands at two places.
abbrev pub AreDistinct : List String → Type 0
AreDistinct names = (i j : ℕ) → i < j → j < length names → get_or names i "" ≢ get_or names j ""

both : (a b : Bool) → (a && b) ≡ true → (a ≡ true) × (b ≡ true)
both true b e = (refl, e)
both false b e = absurd cc

-- A name that a list does not contain stands at none of its places.
names_contain-ne :
    (names : List String) (name : String) (j : ℕ)
    → names_contain names name ≡ false
    → j < length names
    → name ≢ get_or names j ""
unfolding names_contain
names_contain-ne [] name j e h same = absurd (omega arith)
names_contain-ne (n ∷ names) name zero e h same =
    let met : (n same_text name) ≡ true = (eq_iff n name).1 (sym same) in
    absurd (let bad = (rw met at e) in cc)
names_contain-ne (n ∷ names) name (suc j) e h same = elim (Bool-cases (n same_text name)) [
  | inl f ↦ absurd (let bad = (rw f at e) in cc)
  | inr f ↦ names_contain-ne names name j (rw f at e) (omega arith) same
]

are_unique-AreDistinct : (names : List String) → are_unique names ≡ true → AreDistinct names
unfolding are_unique
are_unique-AreDistinct [] e i j l h same = absurd (omega arith)
are_unique-AreDistinct (n ∷ names) e i zero l h same = absurd (omega arith)
are_unique-AreDistinct (n ∷ names) e zero (suc j) l h same =
    elim (Bool-cases (names_contain names n)) [
      | inl f ↦ absurd (let bad = (rw f at e) in cc)
      | inr f ↦ names_contain-ne names n j f (omega arith) same
    ]
are_unique-AreDistinct (n ∷ names) e (suc i) (suc j) l h same =
    are_unique-AreDistinct names (both (not (names_contain names n)) (are_unique names) e).1 i j
      (omega arith) (omega arith) same

module _ {J : Type 0} (view : J → View J) where
  -- A codec that names itself so.
  abbrev pub IsNamed : J → String → Type 0
  IsNamed codec name =
      (j : J) × (member view codec "name" ≡ some j) × (string_of view j ≡ some name)

  -- Every name that a codec of these has is a string.
  abbrev pub AreNamed : List J → Type 0
  AreNamed codecs =
      (i : ℕ) (codec j : J)
      → get_elem? codecs i ≡ some codec
      → member view codec "name" ≡ some j
      → (name : String) × (string_of view j ≡ some name)

  -- A sharding codec's inner chunks have `rank` extents, none of them zero, and the names of its own
  -- codecs are strings.
  pub record IsSharding (rank : ℕ) (members : List (String × J)) : Type 0 where
    pub inner : List J
    pub extents : List ℕ
    pub given : inner_shape view members ≡ some inner
    pub read : all_numbers view (positive view) inner ≡ some extents
    pub extent : IsExtent rank extents
    pub named : AreNamed (inner_codecs view members)

  -- No codec before the `i`-th names itself so.
  abbrev pub NoneBefore : List J → ℕ → String → Type 0
  NoneBefore codecs i name =
      (k : ℕ) (codec : J) → k < i → get_elem? codecs k ≡ some codec → IsNamed codec name → ⊥

  pub record IsWellFormed (metadata : ArrayMetadata J) : Type 0 where
    pub chunks : IsExtent (length metadata.shape) metadata.chunk_shape
    pub names :
        (metadata.dimension_names ≡ [])
        ⊎ ((length metadata.dimension_names ≡ length metadata.shape)
            × AreDistinct metadata.dimension_names)
    pub named : AreNamed metadata.codecs
    pub transposes :
        (i : ℕ) (codec : J)
        → get_elem? metadata.codecs i ≡ some codec
        → IsNamed codec "transpose"
        → (order : List ℕ) × (transpose_order view codec (length metadata.shape) ≡ some order)
          × IsOrder (length metadata.shape) order
    pub sharding :
        (i : ℕ) (codec : J) (members : List (String × J))
        → get_elem? metadata.codecs i ≡ some codec
        → object_of view codec ≡ some members
        → IsNamed codec "sharding_indexed"
        → NoneBefore metadata.codecs i "sharding_indexed"
        → IsSharding (length metadata.shape) members

  has_text_name-named :
      (codec j : J)
      → has_text_name view codec ≡ true
      → member view codec "name" ≡ some j
      → (name : String) × (string_of view j ≡ some name)
  unfolding has_text_name
  has_text_name-named codec j e f = elim (Option-cases (string_of view j)) [
    | inl g ↦ absurd (let bad = (rw (f, g, has_text_name) at e) in cc)
    | inr name ↦ name
  ]

  codecs-AreNamed : (codecs : List J) → codec_names_are_strings view codecs ≡ true → AreNamed codecs
  codecs-AreNamed [] e i codec j at f = absurd cc
  codecs-AreNamed (c ∷ codecs) e zero codec j at f =
      let same : c ≡ codec = cc in
      has_text_name-named codec j (rw same at ((codec_names_are_strings_split view c codecs e).0)) f
  codecs-AreNamed (c ∷ codecs) e (suc i) codec j at f =
      codecs-AreNamed codecs (codec_names_are_strings_split view c codecs e).1 i codec j at f

  named-is_transpose : (codec : J) → IsNamed codec "transpose" → is_transpose view codec ≡ true
  unfolding is_transpose is_text
  named-is_transpose codec (j, f, g) =
      rw (f, g, is_transpose, is_text) ((eq_iff "transpose" "transpose").1 refl)

  transpose_held :
      (rank : ℕ) (codecs : List J) (i : ℕ) (codec : J)
      → transposes_hold view rank codecs ≡ true
      → get_elem? codecs i ≡ some codec
      → IsNamed codec "transpose"
      → (order : List ℕ) × (transpose_order view codec rank ≡ some order) × IsOrder rank order
  unfolding transposes_hold
  transpose_held rank [] i codec e at n = absurd cc
  transpose_held rank (c ∷ codecs) zero codec e at n =
      let same : c ≡ codec = cc in
      let here : is_transpose view c ≡ true = rw same (named-is_transpose codec n) in
      elim (Option-cases (transpose_order view codec rank)) [
        | inl f ↦ absurd (let bad = (rw (here, same, f, transposes_hold) at e) in cc)
        | inr (order, f) ↦ (order, f, transpose_order-IsOrder view codec rank order f)
      ]
  transpose_held rank (c ∷ codecs) (suc i) codec e at n = elim (Bool-cases (is_transpose view c)) [
    | inr f ↦ transpose_held rank codecs i codec (rw (f, transposes_hold) at e) at n
    | inl f ↦ elim (Option-cases (transpose_order view c rank)) [
      | inl g ↦ absurd (let bad = (rw (f, g, transposes_hold) at e) in cc)
      | inr (order, g) ↦ transpose_held rank codecs i codec (rw (f, g, transposes_hold) at e) at n
    ]
  ]

  -- A codec that FindCodec's test matches names itself so.
  matched :
      (codec : J) (members : List (String × J)) (n name : String)
      → object_of view codec ≡ some members
      → codec_name view members ≡ some n
      → n ≡ name
      → ("" same_text name) ≡ false
      → IsNamed codec name
  unfolding member codec_name
  matched codec members n name o e same empty =
      elim (Option-cases (find_member view members "name")) [
        | inl f ↦
            let blank : "" ≡ n = (let got = (rw (f, codec_name) at e) in cc) in
            absurd (let met = (eq_iff "" name).1 (blank ∙ same) in cc)
        | inr (j, f) ↦ (j, rw (o, f, member) refl, (rw (f, codec_name) at e) ∙ ap some same)
      ]

  first_found :
      (codecs : List J) (i : ℕ) (codec : J) (members : List (String × J)) (name : String)
      → codec_names_are_strings view codecs ≡ true
      → get_elem? codecs i ≡ some codec
      → object_of view codec ≡ some members
      → IsNamed codec name
      → NoneBefore codecs i name
      → ("" same_text name) ≡ false
      → (before : List J) × (find_codec view codecs name ≡ found before members)
  unfolding find_codec codec_name member after_codec
  first_found [] i codec members name s at o n first empty = absurd cc
  first_found (c ∷ codecs) zero codec members name s at o (j, f, g) first empty =
      let same : c ≡ codec = cc in
      let named : find_member view members "name" ≡ some j = (rw (o, member) at f) in
      rw (same, o, named, g, (eq_iff name name).1 refl, find_codec, codec_name) ([], refl)
  first_found (c ∷ codecs) (suc i) codec members name s at o n first empty =
      let (here, rest) = codec_names_are_strings_split view c codecs s in
      let (before, later) =
        first_found codecs i codec members name rest at o n (λ k d h. first (suc k) d (omega arith))
          empty in
      elim (Option-cases (object_of view c)) [
        | inl f ↦ rw (f, later, find_codec) (c ∷ before, refl)
        | inr (ms, f) ↦
            let (m, named) = codec_name-some view c ms f here in
            elim (Bool-cases (m same_text name)) [
              | inl g ↦ absurd (
                  first 0 c (omega arith) refl
                    (matched c ms m name f named ((eq_iff m name).0 g) empty))
              | inr g ↦ rw (f, named, g, later, find_codec) (c ∷ before, refl)
            ]
      ]

  found-IsSharding :
      (m : ArrayMetadata J) (before : List J) (members : List (String × J))
      → IsAccepted view m
      → find_codec view m.codecs "sharding_indexed" ≡ found before members
      → IsSharding (length m.shape) members
  found-IsSharding m before members v same =
      let (node, check) = v.sharding in
      let (inner, extents, given, size, read, named) =
        check_sharding-found view (length m.shape) before members node (rw same at check) in
      record {
        inner = inner;
        extents = extents;
        given = given;
        read = read;
        extent = (rw size at (all_numbers-positive view inner extents read));
        named = codecs-AreNamed (inner_codecs view members) named;
      }

  -- Whatever document ParseArrayMetadata accepts: the chunk shape that it gives has the rank of the
  -- array's shape and no extent of zero; the dimensions have no name, or one each and no two the same;
  -- every name that a codec has is a string; every codec that is named "transpose" has an order, which is
  -- a permutation of the array's axes; and of the first codec that is named "sharding_indexed", the chunk
  -- shape has the array's rank and no extent of zero, and every name that a codec within it has is a
  -- string.
  pub parse_array_metadata-IsWellFormed :
      (j : J) (node : String) (m : ArrayMetadata J)
      → parse_array_metadata view j node ≡ some (ok m)
      → IsWellFormed m
  parse_array_metadata-IsWellFormed j node m e =
      let v = parse_array_metadata-IsAccepted view j node m e in
      record {
        chunks = v.chunks;
        names = elim v.names [
          | inl bare ↦ inl bare
          | inr (sized, unique) ↦ inr (sized, are_unique-AreDistinct m.dimension_names unique)
        ];
        named = codecs-AreNamed m.codecs v.named;
        transposes =
            λ i codec at n. transpose_held (length m.shape) m.codecs i codec v.transposes at n;
        sharding = λ i codec members at o n first.
            let (before, same) =
              first_found m.codecs i codec members "sharding_indexed" v.named at o n first refl in
            found-IsSharding m before members v same;
      }
