-- ===== src/Read/Pieces/Sample.antt =====
-- OneElementPerChunk of src/read/pieces.cc: the sample decodes the chunks of the request.
use carta_zarr.Base.{
  ℕ, ◌+◌, ◌-◌, ◌*◌, ◌/◌, ◌^◌, ◌≤◌, ◌<◌, ◌≡◌, sym, ◌∙◌, ◌↔◌, inl, inr, ◌||◌, true, arith, Bool-cases,
  leb, ◌==◌, add64_lem, sub64_lem, mul64_lem, ne→==, lt→leb,
}
use carta_zarr.Image.{Range}
use carta_zarr.Read.Pieces.{sample_range}
use carta_zarr.Chunk.Grid.{
  chunk_at, first_index, first_index-le, first_index-inside, mul-pred, div-bounds, div-le-div,
}
use carta_zarr.Chunk.Touched.{apart}
use native.Mathlib.Nat.{mul-le-mul_right, div-le_self, mul-div_left}

-- Chunk `q` of `c` elements holds an element that the range selects.
abbrev pub Touches : ℕ → Range → ℕ → Type 0
Touches c r q = (i : ℕ) × (i < r.count) × (chunk_at r.start r.stride c i ≡ q)

-- A range that the sample is made of: it selects something, and nothing along it wraps.
pub record IsSampleable (c : ℕ) (r : Range) : Type 0 where
  pub selects : 0 < r.count
  pub strides : 0 < r.stride
  pub span : r.start + r.count * r.stride + c < 2 ^ 64

-- The chunk of an element of a range that takes one element of each chunk from `q` on.
per_chunk : (c q i : ℕ) → 0 < c → chunk_at (q * c) c c i ≡ q + i
per_chunk c q i pc =
    let e : q * c + i * c ≡ (q + i) * c = omega arith in rw e (mul-div_left (q + i) pc)

module _ (c s n k : ℕ) (selects : 0 < n) (strides : 0 < k) (span : s + n * k + c < 2 ^ 64)
    (short : k < c) where
  abbrev sampled : Range
  sampled = record { start = s / c * c; count = chunk_at s k c (n - 1) - s / c + 1; stride = c }

  last-lt : s + (n - 1) * k < 2 ^ 64
  last-lt = omega (arith, mul-pred n k selects)

  mono : (i j : ℕ) → i ≤ j → chunk_at s k c i ≤ chunk_at s k c j
  mono i j h = div-le-div _ _ c (omega arith) (omega (arith, mul-le-mul_right {m = i} {n = j} k h))

  first-le : (i : ℕ) → s / c ≤ chunk_at s k c i
  first-le i = div-le-div s _ c (omega arith) (omega arith)

  sample_range-eq : sample_range c (record { start = s; count = n; stride = k }) ≡ sampled
  unfolding sample_range
  sample_range-eq = rw (
    ne→== c 0 (omega arith),
    lt→leb c k short,
    sub64_lem n 1 selects (omega (arith, wide)),
    mul64_lem (n - 1) k (omega (arith, last-lt)),
    add64_lem s ((n - 1) * k) last-lt,
    sub64_lem (chunk_at s k c (n - 1)) (s / c) (first-le (n - 1))
        (omega (arith, div-le_self (s + (n - 1) * k) c, last-lt)),
    add64_lem (chunk_at s k c (n - 1) - s / c) 1
        (omega (arith, mul-pred n k selects, div-le_self (s + (n - 1) * k) c, last-lt)),
    mul64_lem (s / c) c (omega (arith, div-bounds s c (omega arith))),
  )
    where
      wide : n ≤ n * k
      wide = grind arith

  -- What the sample touches, the request does.
  to_request :
      (q : ℕ) → Touches c sampled q → Touches c (record { start = s; count = n; stride = k }) q
  to_request q (i, h, e) =
      let at_q : s / c + i ≡ q = sym (per_chunk c (s / c) i (omega arith)) ∙ e in
      let reach : q ≤ chunk_at s k c (n - 1) = omega (arith, first-le (n - 1)) in
      (
        first_index s k (q * c),
        omega (
          arith,
          first_index-le s k (q * c) (n - 1) strides (
              omega (
                arith,
                mul-le-mul_right {m = q} {n = chunk_at s k c (n - 1)} c reach,
                div-bounds (s + (n - 1) * k) c (omega arith),
              )),
        ),
        first_index-inside s k c q strides short (omega arith),
      )

  to_sample :
      (q : ℕ) → Touches c (record { start = s; count = n; stride = k }) q → Touches c sampled q
  to_sample q (i, h, e) = (
    q - s / c,
    omega (arith, mono i (n - 1) (omega arith), first-le i),
    per_chunk c (s / c) (q - s / c) (omega arith) ∙ omega (arith, first-le i),
  )

-- OneElementPerChunk along one axis, of a range that selects something and does not wrap: the sample
-- has an element in exactly the chunks that the range has one in; and over a chunked axis its
-- elements lie in ascending chunks, so no chunk holds two.
pub sample_range_lem :
    (c : ℕ) (r : Range)
    → IsSampleable c r
    → ((q : ℕ) → Touches c (sample_range c r) q ↔ Touches c r q)
      × (0 < c
          → (i j : ℕ) → i < j
          → chunk_at (sample_range c r).start (sample_range c r).stride c i
            < chunk_at (sample_range c r).start (sample_range c r).stride c j)
sample_range_lem c r v = elim (Bool-cases (c == 0 || leb c r.stride)) [
  | inl kept ↦
      rw (unchanged kept)
        ((λ q. (λ t. t, λ t. t)), λ pc i j. apart r.start r.stride c pc (wide kept pc) i j)
  | inr cut ↦
      let short : r.stride < c = ground arith in
      rw (sample_range-eq c r.start r.count r.stride v.selects v.strides v.span short) (
        (λ q. (
          to_request c r.start r.count r.stride v.selects v.strides v.span short q,
          to_sample c r.start r.count r.stride v.selects v.strides v.span short q,
        )),
        λ pc i j h.
            rw (per_chunk c (r.start / c) i pc, per_chunk c (r.start / c) j pc) (omega arith),
      )
]
  where
    unchanged : (c == 0 || leb c r.stride) ≡ true → sample_range c r ≡ r
    unchanged e = unfold sample_range in rw e

    wide : (c == 0 || leb c r.stride) ≡ true → 0 < c → c ≤ r.stride
    wide e pc = ground arith
