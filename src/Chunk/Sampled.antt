-- ===== src/Chunk/Sampled.antt =====
-- SampledChunks of src/chunk_blocks.h: the chunks that a sample of every `stride`th element is in.
use carta_zarr.Base.{
  ℕ, zero, suc, ◌+◌, ◌-◌, ◌*◌, ◌/◌, ◌^◌, ◌≤◌, ◌<◌, max, ◌≡◌, refl, inl, inr, ◌∙◌, sym, true, false,
  arith, Bool-cases, ltb, add64, sub64, mul64, add64_lem, sub64_lem, mul64_lem, ne→==, ltb→lt,
  ltb→le,
}
use carta_zarr.Chunk.{SampledChunks, chunks_sampled, sampled_chunk}
use carta_zarr.Chunk.Grid.{
  chunk_at, first_index, first_index-inside, first_index-le, div-bounds, le-div, div-le-div,
}
use carta_zarr.Chunk.Touched.{apart}
use native.Mathlib.Nat.{mul-le-mul_right, div-le_self, zero-div}

-- The chunks of a sample, in order: each named once, none that holds no sampled element, and none
-- of those that do left out.
pub record Enumerates (length k c : ℕ) (s : SampledChunks) : Type 0 where
  pub ascending : (i j : ℕ) → i < j → j < s.size → sampled_chunk s i < sampled_chunk s j
  pub held :
      (j : ℕ) → j < s.size → (i : ℕ) × (i * k < length) × (chunk_at 0 k c i ≡ sampled_chunk s j)
  pub complete :
      (i : ℕ) → i * k < length → (j : ℕ) × (j < s.size) × (sampled_chunk s j ≡ chunk_at 0 k c i)

abbrev wide_sample : ℕ → ℕ → ℕ → SampledChunks
wide_sample m k c = record { chunk = c; stride = k; size = m + 1; every = false }

abbrev close_sample : ℕ → ℕ → ℕ → SampledChunks
close_sample m k c = record { chunk = c; stride = k; size = m * k / c + 1; every = true }

module _ (length k c : ℕ) (pl : 0 < length) (bound : length < 2 ^ 64) (pk : 0 < k)
    (pc : 0 < c) where
  last_sample : (length - 1) / k * k < length
  last_sample = omega (arith, div-bounds (length - 1) k pk)

  sample-le : (i : ℕ) → i * k < length → i ≤ (length - 1) / k
  sample-le i h = le-div i k (length - 1) pk (omega arith)

  le-sample : (i : ℕ) → i ≤ (length - 1) / k → i * k < length
  le-sample i h = omega (arith, last_sample, mul-le-mul_right {m = i} {n = (length - 1) / k} k h)

  wide_chunk :
      (j : ℕ)
      → j ≤ (length - 1) / k
      → sampled_chunk (wide_sample ((length - 1) / k) k c) j ≡ chunk_at 0 k c j
  unfolding sampled_chunk
  wide_chunk j h =
      let e : 0 + j * k ≡ j * k = omega arith in
      rw (mul64_lem j k (omega (arith, le-sample j h)), e)

  wide-Enumerates : c ≤ k → Enumerates length k c (wide_sample ((length - 1) / k) k c)
  wide-Enumerates w = record {
    ascending = λ i j h l.
        rw (wide_chunk i (omega arith), wide_chunk j (omega arith)) (apart 0 k c pc w i j h);
    held = λ j l. (j, le-sample j (omega arith), sym (wide_chunk j (omega arith)));
    complete = λ i h. (i, omega (arith, sample-le i h), wide_chunk i (sample-le i h));
  }

  close_chunk : (m j : ℕ) → sampled_chunk (close_sample m k c) j ≡ j
  unfolding sampled_chunk
  close_chunk m j = refl

  first_inside : k < c → (j : ℕ) → chunk_at 0 k c (first_index 0 k (j * c)) ≡ j
  first_inside short j = first_index-inside 0 k c j pk short (omega (arith, zero-div c))

  close-Enumerates : k < c → Enumerates length k c (close_sample ((length - 1) / k) k c)
  close-Enumerates short = record {
    ascending = λ i j h l. rw (close_chunk _ i, close_chunk _ j) h;
    held = λ j l. (
      first_index 0 k (j * c),
      le-sample _ (
          first_index-le 0 k (j * c) ((length - 1) / k) pk (
            omega (
              arith,
              div-bounds ((length - 1) / k * k) c pc,
              mul-le-mul_right {m = j} {n = (length - 1) / k * k / c} c (omega arith),
            ))),
      first_inside short j ∙ sym (close_chunk _ j),
    );
    complete = λ i h. (
      chunk_at 0 k c i,
      omega (
        arith,
        div-le-div (0 + i * k) ((length - 1) / k * k) c pc
            (omega (arith, mul-le-mul_right {m = i} {n = (length - 1) / k} k (sample-le i h))),
      ),
      close_chunk _ _,
    );
  }

  -- Nothing that the constructor computes wraps.
  samples-eq : add64 (sub64 length 1 / k) 1 ≡ (length - 1) / k + 1
  samples-eq =
      rw (sub64_lem length 1 (omega arith) bound)
        (add64_lem _ 1 (omega (arith, div-le_self (length - 1) k)))

  close_size-eq :
      add64 (mul64 (sub64 ((length - 1) / k + 1) 1) k / c) 1 ≡ (length - 1) / k * k / c + 1
  close_size-eq =
      let e : (length - 1) / k + 1 - 1 ≡ (length - 1) / k = omega arith in
      rw
        (
          sub64_lem ((length - 1) / k + 1) 1 (omega arith)
              (omega (arith, div-le_self (length - 1) k)),
          e,
          mul64_lem ((length - 1) / k) k (omega (arith, last_sample)),
        )
        (add64_lem _ 1 (omega (arith, last_sample, div-le_self ((length - 1) / k * k) c)))

-- SampledChunks over an axis of `length` elements below 2^64, whatever the chunk and the stride (one
-- of zero being taken as one): its `size` indices name, in ascending order, exactly the chunks that
-- hold an element of the sample.
pub chunks_sampled-Enumerates :
    (length chunk stride : ℕ)
    → length < 2 ^ 64
    → Enumerates length (max 1 stride) (max 1 chunk) (chunks_sampled length chunk stride)
unfolding chunks_sampled
chunks_sampled-Enumerates zero chunk stride bound = record {
  ascending = λ i j h l. absurd (omega arith);
  held = λ j l. absurd (omega arith);
  complete = λ i h. absurd (omega arith);
}
chunks_sampled-Enumerates (suc n) chunk stride bound =
    rw
      (
        ne→== (suc n) 0 (omega arith),
        samples-eq (suc n) k c (omega arith) bound (omega arith) (omega arith),
      )
      (elim (Bool-cases (ltb k c)) [
        | inl short ↦
            rw (short, close_size-eq (suc n) k c (omega arith) bound (omega arith) (omega arith))
              (close-Enumerates (suc n) k c (omega arith) bound (omega arith) (omega arith)
                (ltb→lt _ _ short))
        | inr wide ↦ rw wide (
            wide-Enumerates (suc n) k c (omega arith) bound (omega arith) (omega arith)
              (ltb→le _ _ wide))
      ])
  where
    k : ℕ
    k = max 1 stride

    c : ℕ
    c = max 1 chunk
