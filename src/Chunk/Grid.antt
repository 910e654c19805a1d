-- ===== src/Chunk/Grid.antt =====
-- Positions, chunks and rounding over plain numbers: the facts that the sizing code relies on.
use carta_zarr.Base.{
  ℕ, zero, suc, ◌+◌, ◌-◌, ◌*◌, ◌/◌, ◌%◌, ◌≤◌, ◌<◌, arith, dec_lt, dec_le, ◌≡◌, tests, Bool-cases,
  inl, inr, leb, ◌==◌, if◌then◌else◌,
}
use native.Mathlib.Nat.{
  le-div_iff_mul-le, div-lt_iff_lt-mul, div-mul-le_self, lt-div-mul-add, mod-add-div', mod-lt,
}

-- The chunk that the `i`-th of the elements `s`, `s + k`, … lies in.
abbrev pub chunk_at : ℕ → ℕ → ℕ → ℕ → ℕ
chunk_at s k c i = (s + i * k) / c

-- The first of those elements that is not before `x`.
unfoldable pub first_index : ℕ → ℕ → ℕ → ℕ
first_index s k x = if leb x s then 0 else (x - s) / k + (if (x - s) % k == 0 then 0 else 1)

pub le-div : (q c x : ℕ) → 0 < c → q * c ≤ x → q ≤ x / c
le-div q c x h = (le-div_iff_mul-le h).1

pub div-lt : (q c x : ℕ) → 0 < c → x < q * c → x / c < q
div-lt q c x h = (div-lt_iff_lt-mul h).1

pub div-bounds : (x c : ℕ) → 0 < c → (x / c * c ≤ x) × (x < x / c * c + c)
div-bounds x c h = (div-mul-le_self x c, lt-div-mul-add h)

pub div-le-div : (x y c : ℕ) → 0 < c → x ≤ y → x / c ≤ y / c
div-le-div x y c h l = le-div (x / c) c y h (omega (arith, div-bounds x c h))

pub first_index_reaches : (s k x : ℕ) → 0 < k → x ≤ s + first_index s k x * k
unfolding first_index
first_index_reaches s k x h = elim (Bool-cases (leb x s)) [
  | inl e ↦ rw e (omega tests)
  | inr e ↦ rw e (elim (Bool-cases ((x - s) % k == 0)) [
    | inl d ↦ rw d (omega (tests, mod-add-div' (x - s) k))
    | inr d ↦ rw d (omega (tests, mod-add-div' (x - s) k, mod-lt (x - s) h))
  ])
]

pub first_index-le : (s k x i : ℕ) → 0 < k → x ≤ s + i * k → first_index s k x ≤ i
unfolding first_index
first_index-le s k x i h l =
    ground (arith, mod-add-div' (x - s) k, div-lt (i + 1) k (x - s) h (omega arith))

pub first_index-lt : (s k x i : ℕ) → 0 < k → i < first_index s k x → s + i * k < x
first_index-lt s k x i h l = elim (dec_lt (s + i * k) x) [
  | yes p ↦ p
  | no p ↦ absurd (omega (arith, first_index-le s k x i h (omega arith)))
]

pub mul-pred : (f k : ℕ) → 0 < f → f * k ≡ (f - 1) * k + k
mul-pred zero k h = absurd (omega arith)
mul-pred (suc f) k h = let e : suc f - 1 ≡ f = omega arith in rw e (omega arith)

-- A step shorter than a chunk finds an element in every chunk from the first element's on.
pub first_index-inside :
    (s k c q : ℕ) → 0 < k → k < c → s / c ≤ q → chunk_at s k c (first_index s k (q * c)) ≡ q
first_index-inside s k c q pk short from = omega (
  arith,
  le-div q c (s + first_index s k (q * c) * k) pc (first_index_reaches s k (q * c) pk),
  above,
)
  where
    pc : 0 < c
    pc = omega arith

    above : chunk_at s k c (first_index s k (q * c)) < q + 1
    above = div-lt (q + 1) c _ pc (elim (dec_le (first_index s k (q * c)) 0) [
      | yes z ↦
          let e : first_index s k (q * c) ≡ 0 = omega arith in
          rw e (omega (arith, div-bounds s c pc, div-step (s / c) q c from))
      | no p ↦ omega (
        arith,
        first_index-lt s k (q * c) (first_index s k (q * c) - 1) pk (omega arith),
        mul-pred (first_index s k (q * c)) k (omega arith),
      )
    ])
      where
        div-step : (x y c : ℕ) → x ≤ y → x * c + c ≤ y * c + c
        div-step x y c h = grind arith
