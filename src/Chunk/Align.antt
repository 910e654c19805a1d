-- ===== src/Chunk/Align.antt =====
-- AlignedBlockEnd of src/chunk_blocks.h: where a block of selected elements ends.
use carta_zarr.Base.{
  ℕ, ◌+◌, ◌-◌, ◌*◌, ◌/◌, ◌%◌, ◌^◌, ◌≤◌, ◌<◌, min, max, ◌≡◌, ◌≢◌, ap, ◌⊎◌, inl, inr, ◌||◌, not, true,
  false, arith, lt→leb, ne→==, ==→ne, ==→eq, ltb→lt, ltb→le, tests, Bool-cases, ltb, leb, ◌==◌,
  if◌then◌else◌, add64, add64_lem, sub64_lem, mul64_lem, dec_le,
}
use carta_zarr.Chunk.{chunk_of, first_at, aligned_from_target, aligned_block_end}
use carta_zarr.Chunk.Grid.{
  chunk_at, first_index, first_index_reaches, first_index-le, first_index-lt, div-bounds, div-lt,
  le-div, div-le-div,
}
use native.Mathlib.Nat.{mod-add-div', mul-le-mul_right, div-le_self}

pub chunk_of-eq : (s k c i : ℕ) → s + i * k < 2 ^ 64 → chunk_of s k c i ≡ chunk_at s k c i
unfolding chunk_of
chunk_of-eq s k c i h = rw (mul64_lem i k (omega arith), add64_lem s (i * k) h)

offset-div-lt : (d k : ℕ) → 0 < k → d % k ≢ 0 → d / k + 1 ≤ d
offset-div-lt d k h r = grind (arith, mod-add-div' d k)

first_at-eq : (s k x : ℕ) → 0 < k → x < 2 ^ 64 → first_at s k x ≡ first_index s k x
unfolding first_at first_index
first_at-eq s k x h b = elim (Bool-cases (leb x s)) [
  | inl e ↦ rw e
  | inr e ↦ rw (e, sub64_lem x s (omega tests) b) (rounded (Bool-cases ((x - s) % k == 0)))
]
  where
    rounded :
        (((x - s) % k == 0) ≡ true) ⊎ (((x - s) % k == 0) ≡ false)
        → add64 ((x - s) / k) (if (x - s) % k == 0 then 0 else 1)
          ≡ (x - s) / k + (if (x - s) % k == 0 then 0 else 1)
    rounded (inl d) = rw d (add64_lem _ 0 (omega (arith, div-le_self (x - s) k)))
    rounded (inr d) = rw d (add64_lem _ 1 (omega (tests, offset-div-lt (x - s) k h (omega tests))))

-- The rule over plain numbers, from the target on.
end_from : ℕ → ℕ → ℕ → ℕ → ℕ → ℕ → ℕ
end_from begin t total s k c =
    if leb total t || c == 0 || k == 0
    then t
    else if not (chunk_at s k c (t - 1) == chunk_at s k c t)
    then t
    else if ltb begin (first_index s k (chunk_at s k c t * c))
    then first_index s k (chunk_at s k c t * c)
    else min (first_index s k ((chunk_at s k c t + 1) * c)) total

module _ (begin t total s k c : ℕ) (span : s + total * k + c < 2 ^ 64) (begins : begin < t) where
  aligned_from_target-eq :
      t < total
      → 0 < c
      → 0 < k
      → aligned_from_target begin t total s k c ≡ end_from begin t total s k c
  unfolding aligned_from_target end_from
  aligned_from_target-eq short pc pk = rw (
    sub64_lem t 1 (omega arith) (omega (arith, step, wide)),
    chunk_of-eq s k c t (omega (arith, step)),
    chunk_of-eq s k c (t - 1)
        (omega (arith, step, mul-le-mul_right {m = t - 1} {n = t} k (omega arith))),
    add64_lem (chunk_at s k c t) 1 (omega (arith, step, div-le_self (s + t * k) c)),
    mul64_lem (chunk_at s k c t) c (omega (arith, step, in_chunk)),
    mul64_lem (chunk_at s k c t + 1) c (omega (arith, step, in_chunk)),
    first_at-eq s k (chunk_at s k c t * c) pk (omega (arith, step, in_chunk)),
    first_at-eq s k ((chunk_at s k c t + 1) * c) pk (omega (arith, step, in_chunk)),
  )
    where
      wide : total ≤ total * k
      wide = grind arith

      step : t * k + k ≤ total * k
      step = omega (arith, mul-le-mul_right {m = t + 1} {n = total} k (omega arith))

      in_chunk : chunk_at s k c t * c ≤ s + t * k
      in_chunk = (div-bounds (s + t * k) c pc).0

-- A block [begin, end) of `total` selected elements that was to end at `target`.
pub record IsBlock (begin target total s k c end : ℕ) : Type 0 where
  pub forward : begin < end
  pub within : end ≤ total
  pub whole : 0 < c → 0 < k → end < total → chunk_at s k c (end - 1) < chunk_at s k c end
  pub ends : target ≡ total → end ≡ total
  pub grown : 0 < c → 0 < k → target < end → chunk_at s k c begin ≡ chunk_at s k c (end - 1)

-- Between the elements before a chunk and those from it on lies a chunk boundary.
cut_before :
    (s k c q : ℕ)
    → 0 < c
    → 0 < k
    → 0 < first_index s k (q * c)
    → (chunk_at s k c (first_index s k (q * c) - 1) < q)
      × (q ≤ chunk_at s k c (first_index s k (q * c)))
cut_before s k c q pc pk h = (
  div-lt q c _ pc (first_index-lt s k (q * c) _ pk (omega arith)),
  le-div q c _ pc (first_index_reaches s k (q * c) pk),
)

module _ (begin t total s k c : ℕ) (begins : begin < t) (short : t < total) (pc : 0 < c)
    (pk : 0 < k) where
  before_target :
      chunk_at s k c (t - 1) ≡ chunk_at s k c t → first_index s k (chunk_at s k c t * c) ≤ t - 1
  before_target e = first_index-le s k _ (t - 1) pk (rw (← e) (div-bounds (s + (t - 1) * k) c pc).0)

  after_target : t < first_index s k ((chunk_at s k c t + 1) * c)
  after_target = elim (dec_le (first_index s k ((chunk_at s k c t + 1) * c)) t) [
    | yes h ↦ absurd (
        omega (
          arith,
          first_index_reaches s k ((chunk_at s k c t + 1) * c) pk,
          mul-le-mul_right {m = first_index s k ((chunk_at s k c t + 1) * c)} {n = t} k h,
          div-bounds (s + t * k) c pc,
        ))
    | no h ↦ omega arith
  ]

  chunk_mono : (i j : ℕ) → i ≤ j → chunk_at s k c i ≤ chunk_at s k c j
  chunk_mono i j h = div-le-div _ _ c pc (omega (arith, mul-le-mul_right k h))

  -- The block ends at the target: a chunk boundary is there already.
  at_target : chunk_at s k c (t - 1) ≢ chunk_at s k c t → IsBlock begin t total s k c t
  at_target split = record {
    forward = begins;
    within = omega arith;
    whole = λ _ _ _. omega (arith, chunk_mono (t - 1) t (omega arith));
    ends = λ e. absurd (omega arith);
    grown = λ _ _ h. absurd (omega arith);
  }

  -- It is moved back to where the target's chunk begins.
  moved_back :
      chunk_at s k c (t - 1) ≡ chunk_at s k c t
      → begin < first_index s k (chunk_at s k c t * c)
      → IsBlock begin t total s k c (first_index s k (chunk_at s k c t * c))
  moved_back same early = record {
    forward = early;
    within = omega (arith, before_target same);
    whole = λ _ _ _. omega (arith, cut_before s k c (chunk_at s k c t) pc pk (omega arith));
    ends = λ e. absurd (omega arith);
    grown = λ _ _ h. absurd (omega (arith, before_target same));
  }

  -- It begins inside the target's chunk, and is grown to that chunk's end.
  moved_on :
      chunk_at s k c (t - 1) ≡ chunk_at s k c t
      → first_index s k (chunk_at s k c t * c) ≤ begin
      → IsBlock begin t total s k c (min (first_index s k ((chunk_at s k c t + 1) * c)) total)
  moved_on same late = record {
    forward = omega (arith, after_target);
    within = omega arith;
    whole = λ _ _ h.
        let e : min (first_index s k ((chunk_at s k c t + 1) * c)) total
            ≡ first_index s k ((chunk_at s k c t + 1) * c) =
          omega arith in
        rw e (
          omega
            (arith, cut_before s k c (chunk_at s k c t + 1) pc pk (omega (arith, after_target))));
    ends = λ e. absurd (omega arith);
    grown = λ _ _ h. omega (arith, from_here, to_here, up, down);
  }
    where
      last : ℕ
      last = min (first_index s k ((chunk_at s k c t + 1) * c)) total - 1

      from_here : chunk_at s k c t ≤ chunk_at s k c begin
      from_here = le-div (chunk_at s k c t) c _ pc (
          omega (
            arith,
            first_index_reaches s k (chunk_at s k c t * c) pk,
            mul-le-mul_right {m = first_index s k (chunk_at s k c t * c)} {n = begin} k late,
          ))

      to_here : chunk_at s k c begin ≤ chunk_at s k c (t - 1)
      to_here = chunk_mono begin (t - 1) (omega arith)

      up : chunk_at s k c t ≤ chunk_at s k c last
      up = chunk_mono t last (omega (arith, after_target))

      down : chunk_at s k c last < chunk_at s k c t + 1
      down =
          div-lt (chunk_at s k c t + 1) c _ pc
            (first_index-lt s k _ last pk (omega (arith, after_target)))

  end_from-IsBlock : IsBlock begin t total s k c (end_from begin t total s k c)
  unfolding end_from
  end_from-IsBlock =
      rw (lt→leb total t short, ne→== c 0 (omega arith), ne→== k 0 (omega arith))
        (elim (Bool-cases (chunk_at s k c (t - 1) == chunk_at s k c t)) [
          | inr split ↦ rw split (at_target (==→ne _ _ split))
          | inl same ↦
              rw same (elim (Bool-cases (ltb begin (first_index s k (chunk_at s k c t * c)))) [
                | inl early ↦ rw early (moved_back (==→eq _ _ same) (ltb→lt _ _ early))
                | inr late ↦ rw late (moved_on (==→eq _ _ same) (ltb→le _ _ late))
              ])
        ])

-- The early return.
returned :
    (begin t total s k c : ℕ)
    → begin < t
    → t ≤ total
    → (leb total t || c == 0 || k == 0) ≡ true
    → IsBlock begin t total s k c t
returned begin t total s k c h w e = record {
  forward = h;
  within = w;
  whole = λ pc pk short. absurd (ground arith);
  ends = λ e. e;
  grown = λ _ _ over. absurd (omega arith);
}

aligned_from_target-IsBlock :
    (begin t total s k c : ℕ)
    → s + total * k + c < 2 ^ 64
    → begin < t
    → t ≤ total
    → IsBlock begin t total s k c (aligned_from_target begin t total s k c)
aligned_from_target-IsBlock begin t total s k c span h w =
    elim (Bool-cases (leb total t || c == 0 || k == 0)) [
      | inl e ↦ unfold aligned_from_target in rw e (returned begin t total s k c h w e)
      | inr e ↦
          let (short, pc, pk) = inside e in
          rw (aligned_from_target-eq begin t total s k c span h short pc pk)
            (end_from-IsBlock begin t total s k c h short pc pk)
    ]
  where
    inside : (leb total t || c == 0 || k == 0) ≡ false → (t < total) × (0 < c) × (0 < k)
    inside e = ground arith

-- AlignedBlockEnd of a block that begins before `total`, with no step of it wrapping: the block
-- holds an element and stays within the selection; where it stops short of the end a chunk boundary
-- lies right before it, so that no chunk is shared with the next block; one that was to end with the
-- selection does; and it is longer than asked for only inside the chunk that it began in.
pub aligned_block_end-IsBlock :
    (begin desired total s k c : ℕ)
    → begin < total
    → begin + desired < 2 ^ 64
    → total < 2 ^ 64
    → s + total * k + c < 2 ^ 64
    → IsBlock begin
        (min (begin + max 1 desired) total)
        total
        s
        k
        c
        (aligned_block_end begin desired total s k c)
unfolding aligned_block_end
aligned_block_end-IsBlock begin desired total s k c h r w span =
    rw target (aligned_from_target-IsBlock begin _ total s k c span (omega arith) (omega arith))
  where
    target :
        min (add64 begin (if desired == 0 then 1 else desired)) total
        ≡ min (begin + max 1 desired) total
    target = rw wished (ap (λ x. min x total) (add64_lem begin (max 1 desired) (omega arith)))
      where
        wished : (if desired == 0 then 1 else desired) ≡ max 1 desired
        wished = ground arith
