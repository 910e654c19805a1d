-- ===== src/Planes/Checked.antt =====
-- CheckedPlanes::Of of src/reduce/plane_selection.h: which planes an image agrees to serve.
use carta_zarr.Base.{
  ℕ, ◌+◌, ◌-◌, ◌*◌, ◌/◌, ◌^◌, ◌≤◌, ◌<◌, ◌≡◌, ◌↔◌, true, false, ok, arith, sub64, sub64_lem, ne→==,
  lt→leb, le→ltb,
}
use carta_zarr.Image.{ImageDescriptor, Range}
use carta_zarr.Planes.{AxisMap, PlaneSelection, length_at, checked_planes, falls_outside}
use carta_zarr.Chunk.Grid.{le-div, div-bounds}
use native.Mathlib.Nat.{mul-le-mul_right}

-- Every channel of the range lies among the `channels`, and there is one.
pub record IsInside (channels : ℕ) (r : Range) : Type 0 where
  pub strides : 0 < r.stride
  pub selects : 0 < r.count
  pub last : r.start + (r.count - 1) * r.stride < channels

-- The planes that an image has.
pub record IsServed (d : ImageDescriptor) (map : AxisMap) (planes : PlaneSelection) : Type 0 where
  pub spectral : IsInside (length_at d map.spectral) planes.spectral
  pub polarization :
      map.has_polarization ≡ true → planes.polarization < length_at d map.polarization
  pub no_polarization : map.has_polarization ≡ false → planes.polarization ≡ 0
  pub time : map.has_time ≡ true → planes.time < length_at d map.time
  pub no_time : map.has_time ≡ false → planes.time ≡ 0

module _ (channels : ℕ) (r : Range) (wl : channels < 2 ^ 64) (wc : r.count < 2 ^ 64) where
  room-eq : r.start < channels → sub64 (sub64 channels 1) r.start ≡ channels - 1 - r.start
  room-eq h =
      rw (sub64_lem channels 1 (omega arith) wl)
        (sub64_lem (channels - 1) r.start (omega arith) (omega arith))

  IsInside-falls_outside : IsInside channels r → falls_outside channels r ≡ false
  unfolding falls_outside
  IsInside-falls_outside v = rw (
    ne→== r.stride 0 (omega (arith, v.strides)),
    ne→== r.count 0 (omega (arith, v.selects)),
    lt→leb channels r.start (omega (arith, v.last)),
    room-eq (omega (arith, v.last)),
    sub64_lem r.count 1 v.selects wc,
    le→ltb ((channels - 1 - r.start) / r.stride) (r.count - 1)
        (le-div (r.count - 1) r.stride (channels - 1 - r.start) v.strides (omega (arith, v.last))),
  )

  kept :
      falls_outside channels r ≡ false
      → (0 < r.stride)
        × (0 < r.count)
        × (r.start < channels)
        × (sub64 r.count 1 ≤ sub64 (sub64 channels 1) r.start / r.stride)
  unfolding falls_outside
  kept e = ground arith

  falls_outside-IsInside : falls_outside channels r ≡ false → IsInside channels r
  falls_outside-IsInside e =
      let (strides, selects, starts, fits) = kept e in
      record {
        strides = strides;
        selects = selects;
        last = omega (
          arith,
          mul-le-mul_right r.stride (rw (sub64_lem r.count 1 selects wc, room-eq starts) at fits),
          div-bounds (channels - 1 - r.start) r.stride strides,
        );
      }

passed :
    (d : ImageDescriptor) (map : AxisMap) (planes : PlaneSelection)
    → checked_planes d map planes ≡ ok planes
    → (falls_outside (length_at d map.spectral) planes.spectral ≡ false)
      × (map.has_polarization ≡ true → planes.polarization < length_at d map.polarization)
      × (map.has_polarization ≡ false → planes.polarization ≡ 0)
      × (map.has_time ≡ true → planes.time < length_at d map.time)
      × (map.has_time ≡ false → planes.time ≡ 0)
unfolding checked_planes
passed d map planes e = ground arith

-- With channels and a count of 64 bits, CheckedPlanes::Of agrees to a selection exactly when the image
-- has its planes.
pub checked_planes-IsServed :
    (d : ImageDescriptor) (map : AxisMap) (planes : PlaneSelection)
    → length_at d map.spectral < 2 ^ 64
    → planes.spectral.count < 2 ^ 64
    → (checked_planes d map planes ≡ ok planes) ↔ IsServed d map planes
unfolding checked_planes
checked_planes-IsServed d map planes wl wc = (
  λ e.
      let (s, p, q, t, u) = passed d map planes e in
      record {
        spectral = falls_outside-IsInside (length_at d map.spectral) planes.spectral wl wc s;
        polarization = p;
        no_polarization = q;
        time = t;
        no_time = u;
      },
  λ v.
      let s = IsInside-falls_outside (length_at d map.spectral) planes.spectral wl wc v.spectral in
      ground (arith, s, v.polarization, v.no_polarization, v.time, v.no_time),
)
