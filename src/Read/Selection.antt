-- ===== src/Read/Selection.antt =====
-- BuildSelection, DestinationStrides and CheckReadControl of src/zarr/pixel_selection.cc.
pub mod Accepts
pub mod Places
pub mod Build
use carta_zarr.Base.{
  ℕ, zero, suc, ◌+◌, ◌/◌, Bool, Option, none, some, not, true, false, ◌||◌, List, [], ◌∷◌, String,
  ErrorCode, Part, text, number, Result, ok, err, fail, if◌then◌else◌, ltb, leb, ◌==◌, length,
  get_or, set, replicate, sub64, mul64, u64_max,
}
use carta_zarr.Image.{AxisDescriptor, ImageDescriptor, Range, ReadRequest}

-- enum class DestinationOrder
pub data DestinationOrder : Type 0 where
  logical stored : DestinationOrder

-- class PixelSelection
pub record PixelSelection : Type 0 where
  pub start : List ℕ
  pub count : List ℕ
  pub stride : List ℕ
  pub destination_to_stored : List ℕ
  pub elements : ℕ

abbrev pub about_axis : AxisDescriptor → String → List Part → List Part
about_axis axis what rest = text "Axis '" ∷ text axis.name ∷ text what ∷ rest

-- The checks that the loop of BuildSelection makes of one axis, in its order.
unfoldable pub check_axis : ImageDescriptor → ℕ → AxisDescriptor → Range → Result (Unit {0})
check_axis descriptor rank axis range =
    if range.stride == 0
    then fail ErrorCode.invalid_argument (about_axis axis "' has a zero stride" []) descriptor.id
    else if range.count == 0
    then fail ErrorCode.invalid_argument (about_axis axis "' selects no elements" []) descriptor.id
    else if leb axis.length range.start
        || ltb (sub64 (sub64 axis.length 1) range.start / range.stride) (sub64 range.count 1)
    then fail ErrorCode.invalid_argument
        (about_axis axis "' request exceeds its length of " (number axis.length ∷ [])) descriptor.id
    else if leb rank axis.storage_index
    then fail ErrorCode.invalid_metadata (about_axis axis "' has an out-of-range storage index" [])
        descriptor.id
    else ok tt

-- What the loop's body writes for one accepted axis.
unfoldable pub place_axis : ℕ → AxisDescriptor → Range → PixelSelection → PixelSelection
place_axis at axis range s = record s {
  start = set s.start axis.storage_index range.start;
  count = set s.count axis.storage_index range.count;
  stride = set s.stride axis.storage_index (if range.count == 1 then 1 else range.stride);
  destination_to_stored = set s.destination_to_stored at axis.storage_index;
}

-- The loop over the logical axes, from axis `at` on.
unfoldable pub place_axes :
    ImageDescriptor
    → ℕ
    → ℕ
    → List AxisDescriptor
    → List Range
    → PixelSelection
    → Result PixelSelection
place_axes descriptor rank at [] ranges s = ok s
place_axes descriptor rank at (axis ∷ axes) [] s = ok s
place_axes descriptor rank at (axis ∷ axes) (range ∷ ranges) s =
    elim (check_axis descriptor rank axis range) [
      | err e ↦ err e
      | ok _ ↦ place_axes descriptor rank (at + 1) axes ranges (place_axis at axis range s)
    ]

-- rank - 1, …, 1, 0
unfoldable pub reversed : ℕ → List ℕ
reversed zero = []
reversed (suc n) = n ∷ reversed n

unfoldable pub order_axes : DestinationOrder → ℕ → PixelSelection → PixelSelection
order_axes DestinationOrder.logical rank s = s
order_axes DestinationOrder.stored rank s = record s { destination_to_stored = reversed rank }

-- The product of the counts, refused where it does not fit. A count of 0, which no accepted axis
-- has, is a division by zero in the source: `none`.
unfoldable pub count_elements : ImageDescriptor → List ℕ → ℕ → Option (Result ℕ)
count_elements descriptor [] elements = some (ok elements)
count_elements descriptor (count ∷ counts) elements =
    if count == 0
    then none
    else if ltb (u64_max / count) elements
    then some (
        fail ErrorCode.invalid_argument
          (text "Request selects more elements than can be counted" ∷ []) descriptor.id)
    else count_elements descriptor counts (mul64 elements count)

unfoldable pub blank : ℕ → PixelSelection
blank rank = record {
  start = replicate rank 0;
  count = replicate rank 0;
  stride = replicate rank 1;
  destination_to_stored = replicate rank 0;
  elements = 0;
}

unfoldable pub with_elements : PixelSelection → Option (Result ℕ) → Option (Result PixelSelection)
with_elements s none = none
with_elements s (some (err e)) = some (err e)
with_elements s (some (ok n)) = some (ok (record s { elements = n }))

-- `none` is the division by zero of `count_elements`.
unfoldable pub build_selection :
    ImageDescriptor → ReadRequest → DestinationOrder → Option (Result PixelSelection)
unfolding place_axes count_elements order_axes blank with_elements
build_selection descriptor request order =
    let rank = length descriptor.axes in
    if not (length request.axes == rank)
    then some (
        fail ErrorCode.invalid_argument
          (text "Request has "
            ∷ number (length request.axes)
            ∷ text " axes but the image has "
            ∷ number rank
            ∷ [])
          descriptor.id)
    else elim (place_axes descriptor rank 0 descriptor.axes request.axes (blank rank)) [
      | err e ↦ some (err e)
      | ok placed ↦
          let s = order_axes order rank placed in
          with_elements s (count_elements descriptor s.count 1)
    ]

-- DestinationStrides: the loop over the destination's axes, fastest first.
pub stride_loop : List ℕ → List ℕ → ℕ → List ℕ → List ℕ
stride_loop [] count running strides = strides
stride_loop (d ∷ rest) count running strides =
    stride_loop rest count (mul64 running (get_or count d 0)) (set strides d running)

pub destination_strides : PixelSelection → List ℕ
unfolding stride_loop
destination_strides s = stride_loop s.destination_to_stored s.count 1 (replicate (length s.count) 1)

-- struct ReadControl as far as CheckReadControl reads it: what its callback answers, and whether
-- the steady clock has reached its deadline.
pub record ReadControl : Type 0 where
  pub cancellation_requested : Bool
  pub deadline_passed : Bool

unfoldable pub check_read_control : ReadControl → String → Result (Unit {0})
check_read_control control node =
    if control.cancellation_requested
    then fail ErrorCode.cancelled (text "Pixel read was cancelled" ∷ []) node
    else if control.deadline_passed
    then fail ErrorCode.cancelled (text "Pixel read deadline expired" ∷ []) node
    else ok tt
