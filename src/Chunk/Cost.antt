-- ===== src/Chunk/Cost.antt =====
-- The sizing rules of src/chunk_blocks.h: the library's own read budget, the units that a budget
-- affords, and the flag chunks that one pixel chunk lies across.
use carta_zarr.Base.{
  ℕ, zero, suc, ◌+◌, ◌-◌, ◌*◌, ◌/◌, ◌^◌, ◌≤◌, ◌<◌, min, max, ◌≡◌, refl, ◌⊎◌, inl, inr, some, arith,
  tests, Bool-cases, ltb, ◌==◌, if◌then◌else◌, add64, sub64, add64_lem, sub64_lem, mul64_lem, ne→==,
  ==_self, ltb→lt, ltb→le, dec_le,
}
use carta_zarr.Chunk.{
  decoded_bytes_per_read, max_decoded_bytes_per_read, default_read_bytes, units_affordable,
  flag_walk, flag_chunks_across,
}
use carta_zarr.Chunk.Grid.{div-bounds, div-lt, le-div, div-le-div}
use native.Mathlib.Nat.{div-le_self, mul-le-mul_right}

-- The library's own budget lies between its floor and its ceiling whatever a chunk decodes to; and
-- for chunks of less than 2^61 bytes it holds eight chunks or is the ceiling, and never falls as
-- chunks grow.
pub default_read_bytes_bounds :
    (b : ℕ)
    → (decoded_bytes_per_read ≤ default_read_bytes b)
      × (default_read_bytes b ≤ max_decoded_bytes_per_read)
      × (b < 2 ^ 61
          → ((8 * b ≤ default_read_bytes b) ⊎ (default_read_bytes b ≡ max_decoded_bytes_per_read))
            × ((a : ℕ) → a ≤ b → default_read_bytes a ≤ default_read_bytes b))
unfolding default_read_bytes
default_read_bytes_bounds b = (
  omega arith,
  omega arith,
  λ small. (
    rw (mul64_lem (max 1 b) 8 (omega arith))
        (elim (dec_le (8 * b) (2 ^ 28)) [ yes h ↦ inl (omega arith) | no h ↦ inr (omega arith) ]),
    λ a h.
        rw (mul64_lem (max 1 b) 8 (omega arith), mul64_lem (max 1 a) 8 (omega arith)) (omega arith),
  ),
)

-- A read is given the most units that its budget of chunks affords, and one at the least.
pub units_affordable_lem :
    (budget per : ℕ)
    → 0 < per
    → (1 ≤ units_affordable budget per)
      × (budget < (units_affordable budget per + 1) * per)
      × (per ≤ budget → units_affordable budget per * per ≤ budget)
unfolding units_affordable
units_affordable_lem budget per h =
    let e : max 1 per ≡ per = omega arith in
    rw e (
      omega arith,
      elim (dec_le 1 (budget / per)) [
        | yes p ↦
            (let m : max 1 (budget / per) ≡ budget / per = omega arith in
              rw m (omega (arith, div-bounds budget per h)))
        | no p ↦
            (let m : max 1 (budget / per) ≡ 1 = omega arith in
              let z : budget / per ≡ 0 = omega arith in
              rw m (omega (arith, rw z at (div-bounds budget per h).1)))
      ],
      λ enough.
          let one : 1 ≤ budget / per = le-div 1 per budget h (omega arith) in
          let m : max 1 (budget / per) ≡ budget / per = omega arith in
          rw m (div-bounds budget per h).0,
    )

-- The flag chunks of `f` that the pixel chunk of `step` elements from `first` on lies across, cut
-- off at `length`.
pub across : ℕ → ℕ → ℕ → ℕ → ℕ
across length step f first = (min (first + step) length - 1) / f - first / f + 1

-- The most over the pixel chunks from the `p`-th on, or `most` where that is more.
record IsMostFrom (length step f p most n : ℕ) : Type 0 where
  least : most ≤ n
  above : (q : ℕ) → p ≤ q → q * step < length → across length step f (q * step) ≤ n
  attained : (n ≡ most) ⊎ ((q : ℕ) × (q * step < length) × (across length step f (q * step) ≡ n))

module _ (length step f : ℕ) (ps : 0 < step) (pf : 0 < f) (bound : length + step < 2 ^ 64) where
  round-eq :
      (first : ℕ)
      → first < length
      → add64 (sub64 (sub64 (min (add64 first step) length) 1 / f) (first / f)) 1
        ≡ across length step f first
  unfolding across
  round-eq first h =
      rw
        (
          add64_lem first step (omega arith),
          sub64_lem (min (first + step) length) 1 (omega arith) (omega arith),
          sub64_lem ((min (first + step) length - 1) / f) (first / f)
              (div-le-div _ _ f pf (omega arith))
              (omega (arith, div-le_self (min (first + step) length - 1) f)),
        )
        (add64_lem _ 1 (omega (arith, div-le_self (min (first + step) length - 1) f)))

  done-IsMostFrom :
      (p first most : ℕ) → first ≡ p * step → length ≤ first → IsMostFrom length step f p most most
  done-IsMostFrom p first most e over = record {
    least = omega arith;
    above = λ q h l. absurd (omega (arith, mul-le-mul_right {m = p} {n = q} step h));
    attained = inl refl;
  }

  -- One more round before the rounds from the next pixel chunk on.
  more-IsMostFrom :
      (p first most n : ℕ)
      → first ≡ p * step
      → first < length
      → IsMostFrom length step f (p + 1) (max most (across length step f first)) n
      → IsMostFrom length step f p most n
  more-IsMostFrom p first most n e inside w = record {
    least = omega (arith, w.least);
    above = λ q h l. elim (dec_le (p + 1) q) [
      | yes later ↦ w.above q later l
      | no now ↦ let here : q ≡ p = omega arith in rw (here, ← e) (omega (arith, w.least))
    ];
    attained = elim w.attained [
      | inr later ↦ inr later
      | inl new ↦ elim (dec_le (across length step f first) most) [
        | yes below ↦ inl (omega arith)
        | no over ↦ inr (p, omega arith, rw (← e) (omega arith))
      ]
    ];
  }

  flag_walk-IsMostFrom :
      (fuel p first most : ℕ)
      → first ≡ p * step
      → length < first + fuel
      → 0 < fuel
      → (n : ℕ) × (flag_walk fuel length step f first most ≡ some n)
        × IsMostFrom length step f p most n
  unfolding flag_walk
  flag_walk-IsMostFrom zero p first most e enough h = absurd (omega arith)
  flag_walk-IsMostFrom (suc fuel) p first most e enough h = elim (Bool-cases (ltb first length)) [
    | inr out ↦ rw out (most, refl, done-IsMostFrom p first most e (ltb→le _ _ out))
    | inl inside ↦
        let l : first < length = ltb→lt _ _ inside in
        let next : (p + 1) * step ≡ first + step = omega arith in
        let (n, run, w) =
          flag_walk-IsMostFrom fuel (p + 1) (first + step) (max most (across length step f first))
            (omega arith) (omega arith) (omega arith) in
        rw (inside, round-eq first l, add64_lem first step (omega arith))
          (n, run, more-IsMostFrom p first most n e l w)
  ]

-- The most flag chunks that a pixel chunk of an axis lies across: no pixel chunk lies across more,
-- and one lies across so many.
pub record IsMostAcross (length step f n : ℕ) : Type 0 where
  pub bounds : (q : ℕ) → q * step < length → across length step f (q * step) ≤ n
  pub reached : (q : ℕ) × (q * step < length) × (across length step f (q * step) ≡ n)

across-pos : (length step f first : ℕ) → 1 ≤ across length step f first
unfolding across
across-pos length step f first = omega arith

across-one : (length f q : ℕ) → 0 < f → q * f < length → across length f f (q * f) ≡ 1
unfolding across
across-one length f q pf h = omega (arith, low, high, whole)
  where
    whole : q * f / f ≡ q
    whole =
        omega
          (arith, le-div q f (q * f) pf (omega arith), div-lt (q + 1) f (q * f) pf (omega arith))

    low : q ≤ (min (q * f + f) length - 1) / f
    low = le-div q f _ pf (omega arith)

    high : (min (q * f + f) length - 1) / f < q + 1
    high = div-lt (q + 1) f _ pf (omega arith)

-- Over an axis that holds an element and a flag that is chunked, no step of the walk wrapping,
-- FlagChunksAcross ends, and gives the most flag chunks that a pixel chunk lies across (an axis whose
-- pixels have no chunk being one pixel chunk): the shortcut for a flag chunked as its pixels are too.
pub flag_chunks_across-IsMostAcross :
    (length pixel f : ℕ)
    → 0 < length
    → 0 < f
    → length + max pixel length < 2 ^ 64
    → (n : ℕ) × (flag_chunks_across length pixel f ≡ some n)
      × IsMostAcross length (if pixel == 0 then length else pixel) f n
unfolding flag_chunks_across
flag_chunks_across-IsMostAcross length pixel f pl pf bound =
    rw (ne→== f 0 (omega arith), ne→== length 0 (omega arith))
      (elim (Bool-cases (f == pixel)) [
        | inl alike ↦
            let same : pixel ≡ f = omega tests in
            rw (same, ==_self f, ne→== f 0 (omega arith))
              (
                1,
                refl,
                record {
                  bounds = λ q h. omega (arith, across-one length f q pf h);
                  reached = (0, omega arith, across-one length f 0 pf (omega arith));
                },
              )
        | inr other ↦
            let (n, run, w) =
              flag_walk-IsMostFrom length step f step_pos pf (omega (arith, step_bound))
                (length + 1) 0 0 1 (omega arith) (omega arith) (omega arith) in
            rw other (n, run, record { bounds = λ q. w.above q (omega arith); reached = found n w })
      ])
  where
    step : ℕ
    step = if pixel == 0 then length else pixel

    step_pos : 0 < step
    step_pos = ground arith

    step_bound : step ≤ max pixel length
    step_bound = ground arith

    found :
        (n : ℕ)
        → IsMostFrom length step f 0 1 n
        → (q : ℕ) × (q * step < length) × (across length step f (q * step) ≡ n)
    found n w = elim w.attained [
      | inr somewhere ↦ somewhere
      | inl one ↦ (0, omega arith, omega (arith, w.above 0 (omega arith) (omega arith), across_pos))
    ]
      where
        across_pos : 1 ≤ across length step f (0 * step)
        across_pos = across-pos length step f _
