-- ===== src/Occupancy/Within.antt =====
-- PlacedRegion::RowsWithin of src/reduce/occupancy.h.
use carta_zarr.Base.{
  true, false, ℕ, ◌+◌, ◌^◌, ◌<◌, ◌≤◌, ◌≡◌, ◌↔◌, arith, tests, max, min, add64_lem, ◌||◌, leb,
  Bool-cases, inl, inr,
}
use carta_zarr.Occupancy.{PlacedRegion, rows_within}

apart_one : (a b c d x y : ℕ) → (leb b a || leb d c) ≡ true → a ≤ x → x < b → c ≤ y → y < d → ⊥
apart_one a b c d x y e ax xb cy yd = elim (Bool-cases (leb b a)) [
  | inl f ↦ omega tests
  | inr f ↦ let g : leb d c ≡ true = (rw f at e) in omega tests
]

meet_both : (a b c d : ℕ) → (leb b a || leb d c) ≡ false → (a < b) × (c < d)
meet_both a b c d e = elim (Bool-cases (leb b a)) [
  | inl f ↦ absurd (let g = (rw f at e) in cc)
  | inr f ↦ let g : leb d c ≡ false = (rw f at e) in (omega tests, omega tests)
]

-- RowsWithin of a region whose ends do not wrap: its rows are those of the box that the region has,
-- none where the region and the box have no column in common.
pub rows_within_lem :
    (region : PlacedRegion) (u0 u1 v0 v1 : ℕ)
    → region.u_start + region.u_size < 2 ^ 64
    → region.v_start + region.v_size < 2 ^ 64
    → (y : ℕ)
    → (((rows_within region u0 u1 v0 v1).first ≤ y) × (y < (rows_within region u0 u1 v0 v1).last))
      ↔ ((v0 ≤ y)
          × (y < v1)
          × (region.v_start ≤ y)
          × (y < region.v_start + region.v_size)
          × ((x : ℕ) × (u0 ≤ x)
              × (x < u1)
              × (region.u_start ≤ x)
              × (x < region.u_start + region.u_size)))
unfolding rows_within
rows_within_lem region u0 u1 v0 v1 fu fv y =
    rw (add64_lem region.u_start region.u_size fu, add64_lem region.v_start region.v_size fv)
      (elim (Bool-cases (
        leb (min u1 (region.u_start + region.u_size)) (max u0 region.u_start)
        || leb (min v1 (region.v_start + region.v_size)) (max v0 region.v_start))) [
          | inl apart ↦ rw apart (
            (λ h. absurd (omega (arith, h.0, h.1))),
            (λ h.
                let (x, xa, xb, xc, xd) = h.4 in
                absurd (
                  apart_one (max u0 region.u_start) (min u1 (region.u_start + region.u_size))
                    (max v0 region.v_start) (min v1 (region.v_start + region.v_size)) x y apart
                    (omega arith) (omega arith) (omega (arith, h.0, h.2))
                    (omega (arith, h.1, h.3)))),
          )
          | inr meet ↦ rw meet (
            (λ h.
                let some_column =
                  (meet_both (max u0 region.u_start) (min u1 (region.u_start + region.u_size))
                    (max v0 region.v_start) (min v1 (region.v_start + region.v_size)) meet).0 in
                (
                  omega (arith, h.0),
                  omega (arith, h.1),
                  omega (arith, h.0),
                  omega (arith, h.1),
                  (max u0 region.u_start, omega arith, omega arith, omega arith, omega arith),
                )),
            (λ h. (omega (arith, h.0, h.2), omega (arith, h.1, h.3))),
          )
        ])
