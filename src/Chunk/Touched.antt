-- ===== src/Chunk/Touched.antt =====
-- ChunksTouched and SampledChunks of src/chunk_blocks.h: the chunks that hold a selected element.
use carta_zarr.Base.{
  ℕ, zero, suc, ◌+◌, ◌-◌, ◌*◌, ◌/◌, ◌^◌, ◌≤◌, ◌<◌, ◌≡◌, ◌≢◌, refl, inl, inr, ◌||◌, Bool, true,
  false, arith, Bool-cases, leb, ◌==◌, if◌then◌else◌, add64, sub64, mul64, add64_lem, sub64_lem,
  mul64_lem, ne→==, ==→ne, ==→eq, leb→le, leb→lt,
}
use carta_zarr.Chunk.{chunks_touched}
use carta_zarr.Chunk.Grid.{chunk_at, div-bounds, div-lt, le-div, div-le-div}
use native.Mathlib.Nat.{mul-le-mul_right, div-le_self}

-- Whether one of the first `n` elements lies in chunk `q`, and how many chunks they lie in.
seen : ℕ → ℕ → ℕ → ℕ → ℕ → Bool
seen s k c zero q = false
seen s k c (suc n) q = chunk_at s k c n == q || seen s k c n q

pub distinct_chunks : ℕ → ℕ → ℕ → ℕ → ℕ
distinct_chunks s k c zero = 0
distinct_chunks s k c (suc n) =
    distinct_chunks s k c n + (if seen s k c n (chunk_at s k c n) then 0 else 1)

seen-false : (s k c n q : ℕ) → ((i : ℕ) → i < n → chunk_at s k c i < q) → seen s k c n q ≡ false
unfolding seen
seen-false s k c zero q below = refl
seen-false s k c (suc n) q below =
    ground (arith, below n (omega arith), seen-false s k c n q (λ i h. below i (omega arith)))

-- A step of a chunk or more puts each element in a chunk of its own.
pub apart : (s k c : ℕ) → 0 < c → c ≤ k → (i j : ℕ) → i < j → chunk_at s k c i < chunk_at s k c j
apart s k c pc wide i j h = omega (
  arith,
  le-div (chunk_at s k c i + 1) c (s + j * k) pc (
      omega
        (arith, div-bounds (s + i * k) c pc, mul-le-mul_right {m = i + 1} {n = j} k (omega arith))),
)

distinct_apart : (s k c n : ℕ) → 0 < c → c ≤ k → distinct_chunks s k c n ≡ n
unfolding distinct_chunks
distinct_apart s k c zero pc wide = refl
distinct_apart s k c (suc n) pc wide =
    rw (seen-false s k c n _ (λ i. apart s k c pc wide i n))
      (omega (arith, distinct_apart s k c n pc wide))

-- A shorter step moves on by a chunk at most.
step_short :
    (s k c n : ℕ)
    → 0 < c
    → k < c
    → (chunk_at s k c n ≤ chunk_at s k c (suc n)) × (chunk_at s k c (suc n) ≤ chunk_at s k c n + 1)
step_short s k c n pc short = (
  div-le-div _ _ c pc (omega arith),
  omega (
    arith,
    div-lt (chunk_at s k c n + 2) c (s + suc n * k) pc (omega (arith, div-bounds (s + n * k) c pc)),
  ),
)

pub mono : (s k c i j : ℕ) → 0 < c → i ≤ j → chunk_at s k c i ≤ chunk_at s k c j
mono s k c i j pc h = div-le-div _ _ c pc (omega (arith, mul-le-mul_right k h))

seen-last : (s k c n q : ℕ) → chunk_at s k c n ≡ q → seen s k c (suc n) q ≡ true
unfolding seen
seen-last s k c n q e = ground arith

distinct_old :
    (s k c n : ℕ)
    → seen s k c n (chunk_at s k c n) ≡ true
    → distinct_chunks s k c (suc n) ≡ distinct_chunks s k c n
unfolding distinct_chunks
distinct_old s k c n e = rw e (omega arith)

distinct_new :
    (s k c n : ℕ)
    → seen s k c n (chunk_at s k c n) ≡ false
    → distinct_chunks s k c (suc n) ≡ distinct_chunks s k c n + 1
unfolding distinct_chunks
distinct_new s k c n e = rw e

distinct_zero : (s k c : ℕ) → distinct_chunks s k c 0 ≡ 0
unfolding distinct_chunks
distinct_zero s k c = refl

distinct_close :
    (s k c n : ℕ)
    → 0 < c
    → k < c
    → distinct_chunks s k c (suc n) ≡ chunk_at s k c n - chunk_at s k c 0 + 1
distinct_close s k c zero pc short = omega (
  arith,
  distinct_zero s k c,
  distinct_new s k c 0 (seen-false s k c 0 _ (λ i h. absurd (omega arith))),
)
distinct_close s k c (suc n) pc short =
    elim (Bool-cases (chunk_at s k c n == chunk_at s k c (suc n))) [
      | inl same ↦ omega (
        arith,
        distinct_close s k c n pc short,
        ==→eq (chunk_at s k c n) (chunk_at s k c (suc n)) same,
        distinct_old s k c (suc n) (seen-last s k c n _ (==→eq _ _ same)),
      )
      | inr moved ↦ omega (
        arith,
        distinct_close s k c n pc short,
        step_short s k c n pc short,
        mono s k c 0 n pc (omega arith),
        ==→ne (chunk_at s k c n) (chunk_at s k c (suc n)) moved,
        distinct_new s k c (suc n) (seen-false s k c (suc n) _ (earlier (==→ne _ _ moved))),
      )
    ]
  where
    earlier :
        chunk_at s k c n ≢ chunk_at s k c (suc n)
        → (i : ℕ) → i < suc n
        → chunk_at s k c i < chunk_at s k c (suc n)
    earlier ne i h = omega (arith, step_short s k c n pc short, mono s k c i n pc (omega arith))

-- ChunksTouched of a selection whose last element and chunk do not wrap, over an axis that is
-- chunked and with a stride of at least one, is the number of different chunks that the selected
-- elements lie in.
pub chunks_touched-eq-distinct :
    (s n k c : ℕ)
    → 0 < k
    → 0 < c
    → s + n * k < 2 ^ 64
    → chunks_touched s n k c ≡ distinct_chunks s k c n
unfolding chunks_touched
chunks_touched-eq-distinct s zero k c pk pc span = rw (distinct_zero s k c)
chunks_touched-eq-distinct s (suc n) k c pk pc span = elim (Bool-cases (leb c k)) [
  | inl wide ↦
      rw (ne→== c 0 (omega arith), wide, ne→== (suc n) 0 (omega arith))
        (rw (distinct_apart s k c (suc n) pc (leb→le _ _ wide)))
  | inr short ↦
      rw
        (
          ne→== c 0 (omega arith),
          short,
          ne→== k 0 (omega arith),
          ne→== (suc n) 0 (omega arith),
          distinct_close s k c n pc (leb→lt _ _ short),
        )
        no_step_wraps
]
  where
    many : suc n ≤ suc n * k
    many = grind arith

    last : add64 s (mul64 (sub64 (suc n) 1) k) ≡ s + n * k
    last = rw (sub64_lem (suc n) 1 (omega arith) (omega (arith, many))) (
        let e : suc n - 1 ≡ n = omega arith in
        rw (e, mul64_lem n k (omega arith), add64_lem s (n * k) (omega arith)))

    below : s / c ≤ (s + n * k) / c
    below = div-le-div _ _ c pc (omega arith)

    no_step_wraps :
        add64 (sub64 (add64 s (mul64 (sub64 (suc n) 1) k) / c) (s / c)) 1
        ≡ (s + n * k) / c - (s + 0 * k) / c + 1
    no_step_wraps =
        let first : s + 0 * k ≡ s = omega arith in
        rw
          (
            last,
            first,
            sub64_lem ((s + n * k) / c) (s / c) below (omega (arith, div-le_self (s + n * k) c)),
          )
          (add64_lem _ 1 (omega (arith, div-le_self (s + n * k) c)))
