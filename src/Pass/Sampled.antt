-- ===== src/Pass/Sampled.antt =====
-- SampledRange of src/reduce/pass.h: which samples of a plane lie in a band.
use carta_zarr.Base.{
  ℕ, zero, suc, ◌+◌, ◌-◌, ◌*◌, ◌/◌, ◌%◌, ◌^◌, ◌≤◌, ◌<◌, ◌≡◌, sym, subst, ◌↔◌, arith, tests, ltb,
  ◌==◌, add64_lem, mul64_lem, sub64_lem, Bool-cases, inl, inr, dec_lt, lt→leb,
}
use carta_zarr.Chunk.Grid.{
  first_index, first_index_reaches, first_index-le, first_index-lt, mul-pred,
}
use carta_zarr.Pass.{rounded_up, sampled_range}
use native.Mathlib.Nat.{mul-le-mul_right, mul-le-mul_left, div-le_self, zero-div, zero-mod}

rounded_up-eq : (k x : ℕ) → 0 < k → x + 1 < 2 ^ 64 → rounded_up k x ≡ first_index 0 k x
unfolding rounded_up first_index
rounded_up-eq k zero pk h = rw (zero-div k, zero-mod k) (omega (arith, add64_lem 0 0 (omega arith)))
rounded_up-eq k (suc x) pk h =
    let same : suc x - 0 ≡ suc x = omega arith in
    rw (lt→leb (suc x) 0 (omega arith), same)
      (elim (Bool-cases (suc x % k == 0)) [
        | inl e ↦ rw e (add64_lem (suc x / k) 0 (omega (arith, div-le_self (suc x) k)))
        | inr e ↦ rw e (add64_lem (suc x / k) 1 (omega (arith, div-le_self (suc x) k)))
      ])

-- The first multiple of `k` from `x` on.
reaches_iff : (k x j : ℕ) → 0 < k → (x ≤ j * k) ↔ (first_index 0 k x ≤ j)
reaches_iff k x j pk = (
  (λ h. first_index-le 0 k x j pk (omega arith)),
  (λ h.
      omega (
        arith,
        first_index_reaches 0 k x pk,
        mul-le-mul_right {m = first_index 0 k x} {n = j} k h,
      )),
)

first_index-small : (k x : ℕ) → 0 < k → first_index 0 k x * k < x + k
first_index-small k x pk = elim (dec_lt 0 (first_index 0 k x)) [
  | yes h ↦ omega (
    arith,
    mul-pred (first_index 0 k x) k h,
    first_index-lt 0 k x (first_index 0 k x - 1) pk (omega arith),
  )
  | no h ↦ let z : first_index 0 k x ≡ 0 = omega arith in rw z (omega arith)
]

first_index_mono : (k x y : ℕ) → 0 < k → x ≤ y → first_index 0 k x ≤ first_index 0 k y
first_index_mono k x y pk h =
    first_index-le 0 k x (first_index 0 k y) pk (omega (arith, first_index_reaches 0 k y pk))

lies_iff :
    (k begin end j : ℕ)
    → 0 < k
    → ((begin ≤ j * k) × (j * k < end)) ↔ ((first_index 0 k begin ≤ j) × (j < first_index 0 k end))
lies_iff k begin end j pk = (
  (λ lies. ((reaches_iff k begin j pk).0 lies.0, before lies.1)),
  (λ lies.
      ((reaches_iff k begin j pk).1 lies.0, omega (arith, first_index-lt 0 k end j pk lies.1))),
)
  where
    before : j * k < end → j < first_index 0 k end
    before h = elim (dec_lt j (first_index 0 k end)) [
      | yes l ↦ l
      | no l ↦ absurd (omega (arith, (reaches_iff k end j pk).1 (omega arith)))
    ]

count_iff :
    (k first last j : ℕ)
    → 0 < k
    → ((first ≤ j) × (j < last)) ↔ ((i : ℕ) × (i < last - first) × (j * k ≡ first * k + i * k))
count_iff k first last j pk = (
  (λ lies. (j - first, omega (arith, lies.0, lies.1), ahead lies.0)),
  (λ at. let e : j ≡ first + at.0 = back at.0 at.2 in (omega arith, omega (arith, at.1))),
)
  where
    ahead : first ≤ j → j * k ≡ first * k + (j - first) * k
    ahead h =
        let e : j ≡ first + (j - first) = omega arith in
        subst (λ n. n * k ≡ first * k + (j - first) * k) (sym e) (grind arith)

    back : (i : ℕ) → j * k ≡ first * k + i * k → j ≡ first + i
    back i h = elim (dec_lt j (first + i)) [
      | yes l ↦
          absurd (omega (arith, h, mul-le-mul_right {m = j + 1} {n = first + i} k (omega arith)))
      | no l ↦ elim (dec_lt (first + i) j) [
        | yes m ↦
            absurd (omega (arith, h, mul-le-mul_right {m = first + i + 1} {n = j} k (omega arith)))
        | no m ↦ omega arith
      ]
    ]

-- SampledRange, with the range's end and the multiple of the stride after it below 2^64: its `count`
-- samples from its `start` on are exactly the multiples of the stride that lie in [begin, end).
pub sampled_range_lem :
    (begin end stride : ℕ)
    → 0 < stride
    → begin ≤ end
    → end + stride < 2 ^ 64
    → (j : ℕ)
    → ((begin ≤ j * stride) × (j * stride < end)) ↔ (
        (i : ℕ) × (i < (sampled_range begin end stride).1)
        × (j * stride ≡ (sampled_range begin end stride).0 + i * stride))
unfolding sampled_range
sampled_range_lem begin end stride pk h bound j =
    let first = first_index 0 stride begin in
    let last = first_index 0 stride end in
    let start_fits : first * stride < 2 ^ 64 = omega (arith, first_index-small stride begin pk) in
    let last_fits : last < 2 ^ 64 =
      omega
        (arith, first_index-small stride end pk, mul-le-mul_left {m = 1} {n = stride} last pk) in
    rw
      (
        rounded_up-eq stride begin pk (omega arith),
        rounded_up-eq stride end pk (omega arith),
        mul64_lem first stride start_fits,
      )
      (elim (Bool-cases (ltb first last)) [
        | inl some_left ↦
            rw (some_left, sub64_lem last first (omega tests) last_fits)
              (
                (λ lies.
                    (count_iff stride first last j pk).0 ((lies_iff stride begin end j pk).0 lies)),
                (λ at.
                    (lies_iff stride begin end j pk).1 ((count_iff stride first last j pk).1 at)),
              )
        | inr none_left ↦ rw none_left (
          (λ lies. absurd (
              let both = (lies_iff stride begin end j pk).0 lies in omega (tests, both.0, both.1))),
          (λ at. none_there at.0 at.1),
        )
      ])
  where
    none_there : {Y : Type 0} (i : ℕ) → i < 0 → Y
    none_there i l = absurd (omega arith)
