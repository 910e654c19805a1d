-- ===== src/Read/Selection/Places.antt =====
-- What BuildSelection makes of a request that it accepts.
use carta_zarr.Base.{
  ℕ, ◌+◌, ◌*◌, ◌/◌, ◌^◌, ◌<◌, ◌≡◌, ap, ◌∙◌, inl, inr, List, [], ◌∷◌, some, ok, Result-cases,
  Bool-cases, arith, tests, ltb, ◌==◌, if◌then◌else◌, product, mul64_lem, u64_max, ne→==, le→ltb,
  ltb→le, assign,
}
use carta_zarr.Image.{AxisDescriptor, ImageDescriptor, Range}
use carta_zarr.Read.Selection.{PixelSelection, place_axis, place_axes, check_axis, count_elements}
use carta_zarr.Chunk.Grid.{div-bounds, le-div}
use native.Mathlib.Nat.{mul-le-mul_right}

-- What the loop writes: at each axis's stored dimension, a number of its range.
unfoldable pub pairs : (Range → ℕ) → List AxisDescriptor → List Range → List (ℕ × ℕ)
pairs f [] ranges = []
pairs f (a ∷ axes) [] = []
pairs f (a ∷ axes) (r ∷ ranges) = (a.storage_index, f r) ∷ pairs f axes ranges

unfoldable pub order_pairs : ℕ → List AxisDescriptor → List Range → List (ℕ × ℕ)
order_pairs at [] ranges = []
order_pairs at (a ∷ axes) [] = []
order_pairs at (a ∷ axes) (r ∷ ranges) = (at, a.storage_index) ∷ order_pairs (at + 1) axes ranges

-- The stride that is kept: one over a single element says nothing.
abbrev pub kept_stride : Range → ℕ
kept_stride r = if r.count == 1 then 1 else r.stride

pub record IsPlaced (at : ℕ) (axes : List AxisDescriptor) (ranges : List Range)
    (s s' : PixelSelection) : Type 0 where
  pub starts : s'.start ≡ assign (pairs (λ r. r.start) axes ranges) s.start
  pub counts : s'.count ≡ assign (pairs (λ r. r.count) axes ranges) s.count
  pub strides : s'.stride ≡ assign (pairs kept_stride axes ranges) s.stride
  pub order : s'.destination_to_stored ≡ assign (order_pairs at axes ranges) s.destination_to_stored

pub place_axes-IsPlaced :
    (d : ImageDescriptor) (rank at : ℕ) (axes : List AxisDescriptor) (ranges : List Range)
    (s s' : PixelSelection)
    → place_axes d rank at axes ranges s ≡ ok s'
    → IsPlaced at axes ranges s s'
unfolding place_axes place_axis pairs order_pairs assign
place_axes-IsPlaced d rank at [] ranges s s' e = ground arith
place_axes-IsPlaced d rank at (a ∷ axes) [] s s' e = ground arith
place_axes-IsPlaced d rank at (a ∷ axes) (r ∷ ranges) s s' e =
    elim (Result-cases (check_axis d rank a r)) [
      | inr (x, bad) ↦ cc (rw (bad, place_axes) at e)
      | inl (u, good) ↦
          let p =
            place_axes-IsPlaced d rank (at + 1) axes ranges (place_axis at a r s) s'
              (rw (good, place_axes) at e) in
          record { starts = p.starts; counts = p.counts; strides = p.strides; order = p.order }
    ]

-- The counting loop, when every count is positive and the product fits.
pub count_elements-product :
    (d : ImageDescriptor) (counts : List ℕ) (n : ℕ)
    → 0 < product counts
    → n * product counts < 2 ^ 64
    → count_elements d counts n ≡ some (ok (n * product counts))
unfolding count_elements
count_elements-product d [] n pos fits = rw (one n)
  where
    one : (n : ℕ) → n * 1 ≡ n
    one n = omega arith
count_elements-product d (c ∷ counts) n pos fits =
    rw
      (
        ne→== c 0 (omega (arith, factors)),
        le→ltb (u64_max / c) n (le-div n c u64_max (omega (arith, factors)) (omega (arith, room))),
        mul64_lem n c (omega (arith, room)),
      )
      (count_elements-product d counts (n * c) (omega (arith, factors)) (omega (arith, regroup))
        ∙ ap (λ (k : ℕ). some (ok k)) regroup)
  where
    factors : (0 < c) × (0 < product counts)
    factors = (grind arith, grind arith)

    regroup : n * c * product counts ≡ n * (c * product counts)
    regroup = omega arith

    room : n * c < 2 ^ 64
    room = omega (arith, mul-le-mul_right (n * c) factors.1, regroup)

pub product-count_elements :
    (d : ImageDescriptor) (counts : List ℕ) (n m : ℕ)
    → n < 2 ^ 64
    → count_elements d counts n ≡ some (ok m)
    → (m ≡ n * product counts) × (m < 2 ^ 64)
unfolding count_elements
product-count_elements d [] n m small e = ground arith
product-count_elements d (c ∷ counts) n m small e = elim (Bool-cases (c == 0)) [
  | inl zero_count ↦ cc (rw zero_count at e)
  | inr nonzero ↦ elim (Bool-cases (ltb (u64_max / c) n)) [
    | inl over ↦ cc (rw (nonzero, over) at e)
    | inr fits ↦
        let pc : 0 < c = omega tests in
        let room : n * c < 2 ^ 64 = omega (
          arith,
          mul-le-mul_right {m = n} {n = u64_max / c} c (ltb→le _ _ fits),
          div-bounds u64_max c pc,
        ) in
        let (m-eq, small') =
          product-count_elements d counts (n * c) m room
            (rw (nonzero, fits, mul64_lem n c room) at e) in
        (omega (arith, m-eq), small')
  ]
]
