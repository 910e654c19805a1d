-- ===== src/Read/Selection/Accepts.antt =====
-- Which requests BuildSelection accepts, axis by axis.
use carta_zarr.Base.{
  ℕ, ◌+◌, ◌-◌, ◌*◌, ◌/◌, ◌^◌, ◌≤◌, ◌<◌, ◌≡◌, refl, inl, inr, List, [], ◌∷◌, Result-cases, ok, arith,
  sub64, sub64_lem, ne→==, lt→leb, le→ltb,
}
use carta_zarr.Image.{AxisDescriptor, ImageDescriptor, Range}
use carta_zarr.Read.Selection.{PixelSelection, check_axis, place_axis, place_axes}
use carta_zarr.Chunk.Grid.{le-div, div-bounds}
use native.Mathlib.Nat.{mul-le-mul_right}

-- A range that an axis can serve: it selects something, its last element lies on the axis, and the
-- axis is stored at a dimension that the array has.
pub record Accepted (rank : ℕ) (axis : AxisDescriptor) (range : Range) : Type 0 where
  pub strides : 0 < range.stride
  pub selects : 0 < range.count
  pub inside : range.start + (range.count - 1) * range.stride < axis.length
  pub stored : axis.storage_index < rank

abbrev pub AllAccepted : ℕ → List AxisDescriptor → List Range → Type 0
AllAccepted rank [] ranges = Unit
AllAccepted rank (a ∷ axes) [] = Unit
AllAccepted rank (a ∷ axes) (r ∷ ranges) = Accepted rank a r × AllAccepted rank axes ranges

-- The numbers of a request and its image are 64-bit words.
abbrev pub Words : List AxisDescriptor → List Range → Type 0
Words [] ranges = Unit
Words (a ∷ axes) [] = Unit
Words (a ∷ axes) (r ∷ ranges) = (a.length < 2 ^ 64) × (r.count < 2 ^ 64) × Words axes ranges

module _ (d : ImageDescriptor) (rank : ℕ) (a : AxisDescriptor) (r : Range) (wl : a.length < 2 ^ 64)
    (wc : r.count < 2 ^ 64) where
  room-eq : r.start < a.length → sub64 (sub64 a.length 1) r.start ≡ a.length - 1 - r.start
  room-eq h =
      rw (sub64_lem a.length 1 (omega arith) wl)
        (sub64_lem (a.length - 1) r.start (omega arith) (omega arith))

  pub check_axis-Accepted : Accepted rank a r → check_axis d rank a r ≡ ok tt
  unfolding check_axis
  check_axis-Accepted v = rw (
    ne→== r.stride 0 (omega (arith, v.strides)),
    ne→== r.count 0 (omega (arith, v.selects)),
    lt→leb a.length r.start (omega (arith, v.inside)),
    room-eq (omega (arith, v.inside)),
    sub64_lem r.count 1 v.selects wc,
    le→ltb ((a.length - 1 - r.start) / r.stride) (r.count - 1) (
        le-div (r.count - 1) r.stride (a.length - 1 - r.start) v.strides (omega (arith, v.inside))),
    lt→leb rank a.storage_index v.stored,
  )

  passed :
      check_axis d rank a r ≡ ok tt
      → (0 < r.stride)
        × (0 < r.count)
        × (r.start < a.length)
        × (sub64 r.count 1 ≤ sub64 (sub64 a.length 1) r.start / r.stride)
        × (a.storage_index < rank)
  unfolding check_axis
  passed e = ground arith

  pub Accepted-check_axis : check_axis d rank a r ≡ ok tt → Accepted rank a r
  Accepted-check_axis e =
      let (strides, selects, starts, fits, stored) = passed e in
      record {
        strides = strides;
        selects = selects;
        inside = omega (
          arith,
          mul-le-mul_right r.stride (rw (sub64_lem r.count 1 selects wc, room-eq starts) at fits),
          div-bounds (a.length - 1 - r.start) r.stride strides,
        );
        stored = stored;
      }

-- The loop accepts exactly the requests of which it accepts each axis.
pub place_axes-AllAccepted :
    (d : ImageDescriptor) (rank at : ℕ) (axes : List AxisDescriptor) (ranges : List Range)
    (s : PixelSelection)
    → Words axes ranges
    → AllAccepted rank axes ranges
    → (s' : PixelSelection) × (place_axes d rank at axes ranges s ≡ ok s')
unfolding place_axes
place_axes-AllAccepted d rank at [] ranges s w v = (s, refl)
place_axes-AllAccepted d rank at (a ∷ axes) [] s w v = (s, refl)
place_axes-AllAccepted d rank at (a ∷ axes) (r ∷ ranges) s w v =
    rw (check_axis-Accepted d rank a r w.0 w.1 v.0, place_axes)
      (place_axes-AllAccepted d rank (at + 1) axes ranges (place_axis at a r s) w.2 v.1)

pub AllAccepted-place_axes :
    (d : ImageDescriptor) (rank at : ℕ) (axes : List AxisDescriptor) (ranges : List Range)
    (s s' : PixelSelection)
    → Words axes ranges
    → place_axes d rank at axes ranges s ≡ ok s'
    → AllAccepted rank axes ranges
unfolding place_axes
AllAccepted-place_axes d rank at [] ranges s s' w e = tt
AllAccepted-place_axes d rank at (a ∷ axes) [] s s' w e = tt
AllAccepted-place_axes d rank at (a ∷ axes) (r ∷ ranges) s s' w e =
    elim (Result-cases (check_axis d rank a r)) [
      | inl (u, good) ↦ (
        Accepted-check_axis d rank a r w.0 w.1 good,
        AllAccepted-place_axes d rank (at + 1) axes ranges _ s' w.2 (rw (good, place_axes) at e),
      )
      | inr (x, bad) ↦ cc (rw (bad, place_axes) at e)
    ]
