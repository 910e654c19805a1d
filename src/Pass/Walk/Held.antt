-- ===== src/Pass/Walk/Held.antt =====
-- The footprints that OverBands of src/reduce/pass.h makes along one axis, and which samples are in them.
use carta_zarr.Base.{
  ℕ, ◌+◌, ◌-◌, ◌*◌, ◌/◌, ◌^◌, ◌<◌, ◌≤◌, ◌≡◌, ◌⊎◌, inl, inr, ◌↔◌, min, max, List, [], ◌∷◌, ◌++◌, map,
  arith, add64, mul64, add64_lem, mul64_lem, dec_lt,
}
use carta_zarr.Chunk.{chunks_sampled, sampled_chunk}
use carta_zarr.Chunk.Grid.{chunk_at, div-bounds, le-div, div-lt}
use carta_zarr.Chunk.Sampled.{Enumerates, chunks_sampled-Enumerates}
use carta_zarr.Pass.{sampled_range}
use carta_zarr.Pass.Sampled.{sampled_range_lem}
use carta_zarr.Steps.Tiling.{Tiling}
use native.Mathlib.Nat.{mul-le-mul_right, mul-le-mul_left}

-- No element of a list is so, and just one is.
abbrev pub NoneOf : {X : Type 0} → (X → Type 0) → List X → Type 0
NoneOf P [] = Unit
NoneOf P (x ∷ xs) = (P x → ⊥) × NoneOf P xs

abbrev pub OnlyOne : {X : Type 0} → (X → Type 0) → List X → Type 0
OnlyOne P [] = ⊥
OnlyOne P (x ∷ xs) = (P x × NoneOf P xs) ⊎ ((P x → ⊥) × OnlyOne P xs)

module _ {X : Type 0} (P : X → Type 0) where
  pub NoneOf-append : (xs ys : List X) → NoneOf P xs → NoneOf P ys → NoneOf P (xs ++ ys)
  NoneOf-append [] ys v w = w
  NoneOf-append (x ∷ xs) ys (h, v) w = (h, NoneOf-append xs ys v w)

  pub OnlyOne-first : (xs ys : List X) → OnlyOne P xs → NoneOf P ys → OnlyOne P (xs ++ ys)
  OnlyOne-first [] ys v w = absurd v
  OnlyOne-first (x ∷ xs) ys (inl (h, v)) w = inl (h, NoneOf-append xs ys v w)
  OnlyOne-first (x ∷ xs) ys (inr (h, v)) w = inr (h, OnlyOne-first xs ys v w)

  pub OnlyOne-second : (xs ys : List X) → NoneOf P xs → OnlyOne P ys → OnlyOne P (xs ++ ys)
  OnlyOne-second [] ys v w = w
  OnlyOne-second (x ∷ xs) ys (h, v) w = inr (h, OnlyOne-second xs ys v w)

  -- Runs that lie end to end, each standing for what holds an index in it, where `A` is so.
  module _ (F : ℕ → ℕ → X) (A : Type 0) (c end : ℕ)
      (holds : (first last : ℕ)
        → first < last
        → last ≤ end
        → P (F first last) ↔ (A × (first ≤ c) × (c < last))) where
    pub runs_none :
        (next : ℕ → ℕ) (at : ℕ) (runs : List (ℕ × ℕ))
        → Tiling next at end runs
        → ((A → ⊥) ⊎ (c < at))
        → NoneOf P (map (λ r. F r.0 r.1) runs)
    runs_none next at [] t h = tt
    runs_none next at ((first, last) ∷ runs) t h = (
      (λ p.
          let (a, low, high) = (holds first last (omega arith) (omega arith)).0 p in
          elim h [ inl no_row ↦ no_row a | inr before ↦ omega arith ]),
      runs_none next last runs t.4
          (elim h [ inl no_row ↦ inl no_row | inr before ↦ inr (omega arith) ]),
    )

    pub runs_one :
        (next : ℕ → ℕ) (at : ℕ) (runs : List (ℕ × ℕ))
        → Tiling next at end runs
        → A
        → at ≤ c
        → c < end
        → OnlyOne P (map (λ r. F r.0 r.1) runs)
    runs_one next at [] t a low high = omega arith
    runs_one next at ((first, last) ∷ runs) t a low high = elim (dec_lt c last) [
      | yes here ↦ inl (
        (holds first last (omega arith) (omega arith)).1 (a, omega arith, here),
        runs_none next last runs t.4 (inr here),
      )
      | no past ↦ inr (
        (λ p. let (_, _, high) = (holds first last (omega arith) (omega arith)).0 p in past high),
        runs_one next last runs t.4 a (omega arith) high,
      )
    ]

-- The samples in the chunks from the `first`-th to before the `last`-th of those that hold one.
abbrev pub chunk_range : ℕ → ℕ → ℕ → ℕ → ℕ → ℕ × ℕ
chunk_range length c k first last =
    let chunks = chunks_sampled length c k in
    sampled_range (mul64 (sampled_chunk chunks first) c)
      (min length (mul64 (add64 (sampled_chunk chunks (last - 1)) 1) c)) k

module _ (length c k : ℕ) (pc : 0 < c) (pk : 0 < k) (few_c : length + c < 2 ^ 64)
    (few_k : length + k < 2 ^ 64) where
  pub enumerated : Enumerates length k c (chunks_sampled length c k)
  enumerated =
      let ek : max 1 k ≡ k = omega arith in
      let ec : max 1 c ≡ c = omega arith in
      (rw (ek, ec) at (chunks_sampled-Enumerates length c k (omega arith)))

  chunk_of : ℕ → ℕ
  chunk_of i = sampled_chunk (chunks_sampled length c k) i

  size_of : ℕ
  size_of = (chunks_sampled length c k).size

  order_iff : (i j : ℕ) → i < size_of → j < size_of → (i ≤ j) ↔ (chunk_of i ≤ chunk_of j)
  unfolding chunk_of size_of
  order_iff i j hi hj = (to, back)
    where
      to : i ≤ j → chunk_of i ≤ chunk_of j
      to h = elim (dec_lt i j) [
        | yes l ↦ omega (arith, enumerated.ascending i j l hj)
        | no g ↦ let same : i ≡ j = omega arith in rw same (omega arith)
      ]

      back : chunk_of i ≤ chunk_of j → i ≤ j
      back h = elim (dec_lt j i) [
        | yes l ↦ absurd (omega (arith, enumerated.ascending j i l hi))
        | no g ↦ omega arith
      ]

  -- A chunk that holds a sample begins before the end.
  begins : (i : ℕ) → i < size_of → chunk_of i * c < length
  unfolding chunk_of size_of
  begins i h =
      let (j, inside, same) = enumerated.held i h in
      rw (← same) (omega (arith, div-bounds (0 + j * k) c pc))

  -- A sample of a chunk that is the `r`-th of those that hold one is in the range just where the chunk is.
  pub chunk_range-holds :
      (j r first last : ℕ)
      → j * k < length
      → r < (chunks_sampled length c k).size
      → sampled_chunk (chunks_sampled length c k) r ≡ chunk_at 0 k c j
      → first < last
      → last ≤ (chunks_sampled length c k).size
      → ((i : ℕ) × (i < (chunk_range length c k first last).1)
          × (j * k ≡ (chunk_range length c k first last).0 + i * k))
        ↔ ((first ≤ r) × (r < last))
  unfolding chunk_of size_of
  chunk_range-holds j r first last inside hr same h l =
      rw
        (
          mul64_lem (chunk_of first) c (omega (arith, start)),
          wide,
          mul64_lem (chunk_of (last - 1) + 1) c (omega (arith, finish)),
        )
        ((λ found. from_range ((range j).1 found)), (λ both. (range j).0 (to_range both)))
    where
      start : chunk_of first * c < length
      start = begins first (omega arith)

      finish : (chunk_of (last - 1) + 1) * c < length + c
      finish = let b = begins (last - 1) (omega arith) in grind arith

      wide : add64 (chunk_of (last - 1)) 1 ≡ chunk_of (last - 1) + 1
      wide = add64_lem (chunk_of (last - 1)) 1 (
          omega (
            arith,
            begins (last - 1) (omega arith),
            mul-le-mul_left {m = 1} {n = c} (chunk_of (last - 1)) pc,
          ))

      step : (chunk_of (last - 1) + 1) * c ≡ chunk_of (last - 1) * c + c
      step = grind arith

      at : chunk_of r ≡ (0 + j * k) / c
      at = same

      from_first : chunk_of first * c ≤ min length ((chunk_of (last - 1) + 1) * c)
      from_first =
          let low = (order_iff first (last - 1) (omega arith) (omega arith)).0 (omega arith) in
          omega (
            arith,
            start,
            step,
            mul-le-mul_right {m = chunk_of first} {n = chunk_of (last - 1)} c low,
          )

      range :
          (j : ℕ)
          → ((chunk_of first * c ≤ j * k) × (j * k < min length ((chunk_of (last - 1) + 1) * c)))
            ↔ ((i : ℕ) × (i
                  < (sampled_range
                      (chunk_of first * c)
                      (min length ((chunk_of (last - 1) + 1) * c))
                      k).1)
                × (j * k
                    ≡ (sampled_range
                        (chunk_of first * c)
                        (min length ((chunk_of (last - 1) + 1) * c))
                        k).0
                      + i * k))
      range =
          sampled_range_lem (chunk_of first * c) (min length ((chunk_of (last - 1) + 1) * c)) k pk
            from_first (omega arith)

      from_range :
          (chunk_of first * c ≤ j * k) × (j * k < min length ((chunk_of (last - 1) + 1) * c))
          → (first ≤ r) × (r < last)
      from_range (low, high) =
          let above : chunk_of first ≤ (0 + j * k) / c =
            le-div (chunk_of first) c (0 + j * k) pc (omega arith) in
          let below : (0 + j * k) / c < chunk_of (last - 1) + 1 =
            div-lt (chunk_of (last - 1) + 1) c (0 + j * k) pc (omega arith) in
          let under = (order_iff r (last - 1) hr (omega arith)).1 (omega (arith, at, below)) in
          ((order_iff first r (omega arith) hr).1 (omega (arith, at, above)), omega (arith, under))

      to_range :
          (first ≤ r) × (r < last)
          → (chunk_of first * c ≤ j * k) × (j * k < min length ((chunk_of (last - 1) + 1) * c))
      to_range (low, high) =
          let above = (order_iff first r (omega arith) hr).0 low in
          let below = (order_iff r (last - 1) hr (omega arith)).0 (omega arith) in
          let floor = div-bounds (0 + j * k) c pc in
          let over_first =
            mul-le-mul_right {m = chunk_of first} {n = (0 + j * k) / c} c
              (omega (arith, at, above)) in
          let under_last =
            mul-le-mul_right {m = (0 + j * k) / c} {n = chunk_of (last - 1)} c
              (omega (arith, at, below)) in
          (omega (arith, floor, over_first), omega (arith, floor, under_last, step, inside))
