-- ===== src/Read/InPieces.antt =====
-- ReadInPieces of src/read/pieces_read.cc: a read, piece by piece, from a pixel source.
pub mod Serves
use carta_zarr.Base.{
  ℕ, zero, suc, ◌*◌, Bool, true, false, ◌&&◌, not, List, [], ◌∷◌, ◌++◌, Option, none, some, String,
  ErrorCode, Part, text, Result, ok, err, fail, if◌then◌else◌, ltb, ◌==◌, length, take, drop,
  replicate, add64,
}
use carta_zarr.Image.{ImageDescriptor, ChunkGeometry, ReadRequest, ReadOptions}
use carta_zarr.Chunk.{applies_pixel_mask}
use carta_zarr.Read.Selection.{
  DestinationOrder, PixelSelection, ReadControl, build_selection, check_read_control,
}
use carta_zarr.Read.Pieces.{Piece, plan_pieces}

-- class PixelSource, over pixels `P`: what each of its reads leaves in the buffer that it is handed,
-- and its answer.
pub record PixelSource (P : Type 0) : Type 0 where
  pub read_pixels : PixelSelection → List P → ReadControl → List P × Result (Unit {0})
  pub read_mask : PixelSelection → List ℕ → ReadControl → List ℕ × Result (Unit {0})

-- What a read leaves in the caller's buffer, and its answer: `none` where the selection would divide
-- by zero, or the plan ran out of fuel.
pub record Outcome (P A : Type 0) : Type 0 where
  pub buffer : List P
  pub answer : Option (Result A)

pub check_size : ImageDescriptor → ℕ → ReadControl → PixelSelection → Result PixelSelection
check_size descriptor size control s =
    if ltb size s.elements
    then fail ErrorCode.invalid_argument
        (text "Destination buffer is too small for the request" ∷ []) descriptor.id
    else elim (check_read_control control descriptor.id) [ err e ↦ err e | ok _ ↦ ok s ]

-- CheckRead
pub check_read : ImageDescriptor → ReadRequest → ℕ → ReadControl → Option (Result PixelSelection)
unfolding check_size
check_read descriptor request size control =
    elim (build_selection descriptor request DestinationOrder.logical) [
      | none ↦ none
      | some (err e) ↦ some (err e)
      | some (ok s) ↦ some (check_size descriptor size control s)
    ]

-- `progress && !progress(finished, elements)`
unfoldable pub declined : Option (ℕ → ℕ → Bool) → ℕ → ℕ → Bool
declined none elements finished = false
declined (some progress) elements finished = not (progress finished elements)

module _ {P : Type 0} (nan : P) where
  -- ApplyPixelMask over the first `count` pixels.
  unfoldable pub apply_pixel_mask : ℕ → List P → List ℕ → List P
  apply_pixel_mask zero pixels mask = pixels
  apply_pixel_mask (suc count) [] mask = []
  apply_pixel_mask (suc count) (p ∷ pixels) [] = p ∷ pixels
  apply_pixel_mask (suc count) (p ∷ pixels) (m ∷ mask) =
      (if m == 0 then p else nan) ∷ apply_pixel_mask count pixels mask

  module _ (source : PixelSource P) (descriptor : ImageDescriptor) (options : ReadOptions)
      (control : ReadControl) (progress : Option (ℕ → ℕ → Bool)) (apply_mask : Bool)
      (elements : ℕ) where
    -- The pixels of a piece, once its mask is there: read into the buffer from where it lands.
    pub read_masked : Piece → ℕ → PixelSelection → List ℕ → List P → Outcome P (Unit {0})
    unfolding apply_pixel_mask declined
    read_masked piece n s mask buffer =
        let before = take piece.first_element buffer in
        let (rest, answer) = source.read_pixels s (drop piece.first_element buffer) control in
        elim answer [
          | err e ↦ record { buffer = before ++ rest; answer = some (err e) }
          | ok _ ↦ record {
            buffer = before ++ (if apply_mask then apply_pixel_mask n rest mask else rest);
            answer = some (
                if declined progress elements (add64 piece.first_element n)
                then fail ErrorCode.cancelled
                    (text "The read was cancelled by its progress callback" ∷ []) descriptor.id
                else ok tt);
          }
        ]

    pub read_selected : Piece → PixelSelection → List P → Outcome P (Unit {0})
    unfolding read_masked
    read_selected piece s buffer =
        let n = s.elements in
        let (mask, answer) = source.read_mask s (replicate n 0) control in
        if not apply_mask
        then read_masked piece n s [] buffer
        else if not (options.read_budget_bytes == 0) && ltb options.read_budget_bytes n
        then record {
          buffer = buffer;
          answer = some (
              fail ErrorCode.buffer_too_small
                (text "Pixel mask temporary buffer exceeds the read budget" ∷ []) descriptor.id);
        }
        else elim answer [
          | err e ↦ record { buffer = buffer; answer = some (err e) }
          | ok _ ↦ read_masked piece n s mask buffer
        ]

    -- The loop's body.
    pub read_piece : Piece → List P → Outcome P (Unit {0})
    unfolding read_selected
    read_piece piece buffer =
        elim (build_selection descriptor piece.request DestinationOrder.logical) [
          | none ↦ record { buffer = buffer; answer = none }
          | some (err e) ↦ record { buffer = buffer; answer = some (err e) }
          | some (ok s) ↦ read_selected piece s buffer
        ]

    -- The loop over the pieces.
    pub read_pieces : List Piece → List P → Outcome P ℕ
    read_pieces [] buffer = record { buffer = buffer; answer = some (ok elements) }
    read_pieces (piece ∷ pieces) buffer =
        let done = read_piece piece buffer in
        let rest = read_pieces pieces done.buffer in
        elim done.answer [
          | none ↦ record { buffer = done.buffer; answer = none }
          | some (err e) ↦ record { buffer = done.buffer; answer = some (err e) }
          | some (ok _) ↦ rest
        ]

-- ReadInPieces; the elements of the whole request are what its selection counts.
read_planned :
    {P : Type 0}
    → P
    → PixelSource P
    → ImageDescriptor
    → ReadOptions
    → ReadControl
    → Option (ℕ → ℕ → Bool)
    → ℕ
    → Option (List Piece)
    → List P
    → Outcome P ℕ
read_planned nan source descriptor options control progress elements none buffer = record {
  buffer = buffer;
  answer = none;
}
read_planned nan source descriptor options control progress elements (some pieces) buffer =
    read_pieces nan source descriptor options control progress
      (applies_pixel_mask options descriptor) elements pieces buffer

is_given : Option (ℕ → ℕ → Bool) → Bool
is_given none = false
is_given (some call) = true

pub read_in_pieces :
    {P : Type 0}
    → P
    → PixelSource P
    → ImageDescriptor
    → ChunkGeometry
    → ChunkGeometry
    → ReadRequest
    → List P
    → ReadOptions
    → ReadControl
    → Option (ℕ → ℕ → Bool)
    → Outcome P ℕ
unfolding read_planned is_given
read_in_pieces nan source descriptor geometry flag_geometry request buffer options control
      progress =
    elim (check_read descriptor request (length buffer) control) [
      | none ↦ record { buffer = buffer; answer = none }
      | some (err e) ↦ record { buffer = buffer; answer = some (err e) }
      | some (ok s) ↦
          read_planned nan source descriptor options control progress s.elements
            (plan_pieces descriptor geometry flag_geometry request options (is_given progress))
            buffer
    ]
