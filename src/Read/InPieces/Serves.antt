-- ===== src/Read/InPieces/Serves.antt =====
-- ReadInPieces of src/read/pieces_read.cc over a source that serves what it is asked for.
use carta_zarr.Base.{
  ℕ, zero, suc, ◌+◌, ◌-◌, ◌≤◌, ◌≡◌, refl, ap, sym, ◌∙◌, Bool, true, false, not, ◌&&◌, List, [], ◌∷◌,
  ◌++◌, append_assoc, append-nil, Option, some, ok, if◌then◌else◌, ltb, ◌==◌, length, length-append,
  take, drop, replicate, length-replicate, add64, arith, Bool-cases, inl, inr, ◌⊎◌, le→ltb,
}
use carta_zarr.Image.{ImageDescriptor, ReadOptions, ReadRequest}
use carta_zarr.Read.Selection.{
  DestinationOrder, PixelSelection, ReadControl, build_selection, check_read_control,
}
use carta_zarr.Read.Pieces.{Piece}
use carta_zarr.Read.InPieces.{
  PixelSource, apply_pixel_mask, declined, read_masked, read_selected, read_piece, read_pieces,
}

module _ {A : Type 0} where
  take-append : (xs ys : List A) → take (length xs) (xs ++ ys) ≡ xs
  take-append [] ys = refl
  take-append (x ∷ xs) ys = ap (λ t. x ∷ t) (take-append xs ys)

  drop-append : (xs ys : List A) → drop (length xs) (xs ++ ys) ≡ ys
  drop-append [] ys = refl
  drop-append (x ∷ xs) ys = drop-append xs ys

  drop-nil : (n : ℕ) → drop {A = A} n [] ≡ []
  drop-nil zero = refl
  drop-nil (suc n) = refl

  drop-replicate : (n : ℕ) (a : A) → drop n (replicate n a) ≡ []
  drop-replicate zero a = refl
  drop-replicate (suc n) a = drop-replicate n a

  drop-drop : (m n : ℕ) (xs : List A) → drop n (drop m xs) ≡ drop (m + n) xs
  drop-drop zero n xs = let e : 0 + n ≡ n = omega arith in rw e refl
  drop-drop (suc m) n [] = let e : suc m + n ≡ suc (m + n) = omega arith in rw e (drop-nil n)
  drop-drop (suc m) n (x ∷ xs) =
      let e : suc m + n ≡ suc (m + n) = omega arith in rw e (drop-drop m n xs)

  length-drop : (n : ℕ) (xs : List A) → length (drop n xs) ≡ length xs - n
  length-drop zero xs = omega arith
  length-drop (suc n) [] = omega arith
  length-drop (suc n) (x ∷ xs) = omega (arith, length-drop n xs)

-- A selection that BuildSelection makes of some request of the image.
abbrev pub IsMade : ImageDescriptor → PixelSelection → Type 0
IsMade descriptor s =
    (request : ReadRequest) × (build_selection descriptor request DestinationOrder.logical
      ≡ some (ok s))

-- A source of the image whose reads do not fail: as PixelSource documents, a read of a selection of the
-- image whose destination can hold its elements writes them into its front, and nothing past them, as
-- long as the read's control does not stop it; and so does a read of the flag of an image that has one.
pub record IsServing {P : Type 0} (descriptor : ImageDescriptor) (source : PixelSource P)
    (pixels : PixelSelection → List P) (flags : PixelSelection → List ℕ) : Type 0 where
  pub sized : (s : PixelSelection) → IsMade descriptor s → length (pixels s) ≡ s.elements
  pub reads :
      (s : PixelSelection) (buffer : List P) (control : ReadControl)
      → IsMade descriptor s
      → check_read_control control descriptor.id ≡ ok tt
      → s.elements ≤ length buffer
      → source.read_pixels s buffer control ≡ (pixels s ++ drop s.elements buffer, ok tt)
  pub masks :
      (s : PixelSelection) (buffer : List ℕ) (control : ReadControl)
      → descriptor.has_pixel_mask ≡ true
      → IsMade descriptor s
      → check_read_control control descriptor.id ≡ ok tt
      → s.elements ≤ length buffer
      → source.read_mask s buffer control ≡ (flags s ++ drop s.elements buffer, ok tt)

module _ {P : Type 0} (nan : P) where
  -- Masking looks at the pixels of the selection alone.
  mask-append :
      (n : ℕ) (xs ys : List P) (mask : List ℕ)
      → length xs ≡ n
      → apply_pixel_mask nan n (xs ++ ys) mask ≡ apply_pixel_mask nan n xs mask ++ ys
  unfolding apply_pixel_mask
  mask-append zero [] ys mask e = refl
  mask-append zero (x ∷ xs) ys mask e = absurd (omega arith)
  mask-append (suc n) [] ys mask e = absurd (omega arith)
  mask-append (suc n) (x ∷ xs) ys [] e = refl
  mask-append (suc n) (x ∷ xs) ys (m ∷ mask) e =
      ap (λ t. (if m == 0 then x else nan) ∷ t) (mask-append n xs ys mask (omega arith))

  length-mask :
      (n : ℕ) (xs : List P) (mask : List ℕ) → length (apply_pixel_mask nan n xs mask) ≡ length xs
  unfolding apply_pixel_mask
  length-mask zero xs mask = refl
  length-mask (suc n) [] mask = refl
  length-mask (suc n) (x ∷ xs) [] = refl
  length-mask (suc n) (x ∷ xs) (m ∷ mask) = omega (arith, length-mask n xs mask)

  -- What a read shows of a selection: its pixels, with NaN where the flag is set if that is asked for.
  pub shown : Bool → (PixelSelection → List P) → (PixelSelection → List ℕ) → PixelSelection → List P
  shown apply_mask pixels flags s =
      if apply_mask then apply_pixel_mask nan s.elements (pixels s) (flags s) else pixels s

  module _ (source : PixelSource P) (pixels : PixelSelection → List P)
      (flags : PixelSelection → List ℕ) (descriptor : ImageDescriptor)
      (serving : IsServing descriptor source pixels flags) (options : ReadOptions)
      (control : ReadControl) (progress : Option (ℕ → ℕ → Bool)) (apply_mask : Bool) (elements : ℕ)
      (unstopped : check_read_control control descriptor.id ≡ ok tt)
      (flagged_image : apply_mask ≡ true → descriptor.has_pixel_mask ≡ true) where
    length-shown :
        (s : PixelSelection)
        → IsMade descriptor s
        → length (shown apply_mask pixels flags s) ≡ s.elements
    unfolding shown
    length-shown s made = elim (Bool-cases apply_mask) [
      | inl e ↦
          rw e (omega (arith, length-mask s.elements (pixels s) (flags s), serving.sized s made))
      | inr e ↦ rw e (serving.sized s made)
    ]

    masked_read :
        (p : Piece) (s : PixelSelection) (mask : List ℕ) (before rest : List P)
        → IsMade descriptor s
        → (apply_mask ≡ true → mask ≡ flags s)
        → length before ≡ p.first_element
        → s.elements ≤ length rest
        → declined progress elements (add64 p.first_element s.elements) ≡ false
        → read_masked nan source descriptor options control progress apply_mask elements p
            s.elements s mask
            (before ++ rest)
          ≡ record {
            buffer = before ++ (shown apply_mask pixels flags s ++ drop s.elements rest);
            answer = some (ok tt);
          }
    unfolding read_masked shown
    masked_read p s mask before rest made flagged at fits going =
        let first-eq : take p.first_element (before ++ rest) ≡ before =
          rw (← at) (take-append before rest) in
        let last-eq : drop p.first_element (before ++ rest) ≡ rest =
          rw (← at) (drop-append before rest) in
        let read-eq : source.read_pixels s (drop p.first_element (before ++ rest)) control
            ≡ (pixels s ++ drop s.elements rest, ok tt) =
          rw last-eq (serving.reads s rest control made unstopped fits) in
        rw (read-eq, read-eq, first-eq, going, read_masked)
          (elim (Bool-cases apply_mask) [
            | inl e ↦
                rw
                  (
                    e,
                    flagged e,
                    mask-append s.elements (pixels s) (drop s.elements rest) (flags s)
                        (serving.sized s made),
                  )
                  refl
            | inr e ↦ rw e refl
          ])

    -- A piece lands where it says, and leaves what lies past it.
    piece_read :
        (p : Piece) (s : PixelSelection) (before rest : List P)
        → build_selection descriptor p.request DestinationOrder.logical ≡ some (ok s)
        → length before ≡ p.first_element
        → s.elements ≤ length rest
        → (apply_mask ≡ true
            → (not (options.read_budget_bytes == 0) && ltb options.read_budget_bytes s.elements)
              ≡ false)
        → declined progress elements (add64 p.first_element s.elements) ≡ false
        → read_piece nan source descriptor options control progress apply_mask elements p
            (before ++ rest)
          ≡ record {
            buffer = before ++ (shown apply_mask pixels flags s ++ drop s.elements rest);
            answer = some (ok tt);
          }
    unfolding read_piece read_selected
    piece_read p s before rest built at fits affords going =
        rw (built, read_piece)
          (elim (Bool-cases apply_mask) [
            | inl e ↦
                rw (masked e, masked e, affords e, e, read_selected)
                  (rw e at (
                    masked_read p s (flags s) before rest (p.request, built) (λ _. refl) at fits
                      going))
            | inr e ↦
                rw (e, read_selected)
                  (rw e at
                    (masked_read p s [] before rest (p.request, built) (λ t. cc) at fits going))
          ])
      where
        masked :
            apply_mask ≡ true
            → source.read_mask s (replicate s.elements 0) control ≡ (flags s, ok tt)
        masked e =
            rw
              (
                serving.masks s (replicate s.elements 0) control (flagged_image e)
                    (p.request, built) unstopped
                    (omega (arith, length-replicate {A = ℕ} s.elements 0)),
                drop-replicate {A = ℕ} s.elements 0,
                append-nil (flags s),
              )
              refl

    -- The flag of each selection is within the budget of a read, where it has one.
    abbrev pub AreAffordable : List PixelSelection → Type 0
    AreAffordable [] = Unit
    AreAffordable (s ∷ ss) =
        ((options.read_budget_bytes ≡ 0) ⊎ (s.elements ≤ options.read_budget_bytes))
        × AreAffordable ss

    affordable_test :
        (budget n : ℕ) → ((budget ≡ 0) ⊎ (n ≤ budget)) → (not (budget == 0) && ltb budget n) ≡ false
    affordable_test budget n (inl unbounded) = rw unbounded refl
    affordable_test budget n (inr within) = elim (Bool-cases (budget == 0)) [
      | inl z ↦ rw z refl
      | inr some_budget ↦ rw (some_budget, le→ltb budget n within) refl
    ]

    -- The pieces select `ss`, which land end to end from element `from` to element `total`.
    abbrev pub Lands : ℕ → ℕ → List Piece → List PixelSelection → Type 0
    Lands from total [] [] = from ≡ total
    Lands from total [] (s ∷ ss) = ⊥
    Lands from total (p ∷ ps) [] = ⊥
    Lands from total (p ∷ ps) (s ∷ ss) =
        (build_selection descriptor p.request DestinationOrder.logical ≡ some (ok s))
        × (p.first_element ≡ from)
        × Lands (from + s.elements) total ps ss

    -- All that the selections show, in their order.
    abbrev pub all_shown : List PixelSelection → List P
    all_shown [] = []
    all_shown (s ∷ ss) = shown apply_mask pixels flags s ++ all_shown ss

    Lands-le :
        (from total : ℕ) (ps : List Piece) (ss : List PixelSelection)
        → Lands from total ps ss
        → from ≤ total
    Lands-le from total [] [] l = omega arith
    Lands-le from total [] (s ∷ ss) l = absurd l
    Lands-le from total (p ∷ ps) [] l = absurd l
    Lands-le from total (p ∷ ps) (s ∷ ss) (b, f, l) =
        omega (arith, Lands-le (from + s.elements) total ps ss l)

    -- One round of the loop, of a piece that was read.
    round :
        (p : Piece) (ps : List Piece) (buffer after : List P)
        → read_piece nan source descriptor options control progress apply_mask elements p buffer
          ≡ record { buffer = after; answer = some (ok tt) }
        → read_pieces nan source descriptor options control progress apply_mask elements
            (p ∷ ps)
            buffer
          ≡ read_pieces nan source descriptor options control progress apply_mask elements ps after
    unfolding read_pieces
    round p ps buffer after e = rw (e, e, read_pieces) refl

    -- The loop of ReadInPieces from a source of the image whose reads do not fail, over pieces that land
    -- end to end in a buffer with room for them, where the read's control does not stop it, no progress
    -- callback declines to go on, and, if the flag is to be folded in, the image has one and every
    -- piece's is within the budget of a read, where it has one: the answer is the count that the loop was
    -- given, what stands before the first piece's place stays, then come the pixels that the pieces'
    -- selections show, in order, masked if the flag is folded in, and what lies past the last piece stays
    -- as well.
    pub read_pieces-Serves :
        (from total : ℕ) (ps : List Piece) (ss : List PixelSelection) (before rest : List P)
        → Lands from total ps ss
        → (apply_mask ≡ true → AreAffordable ss)
        → length before ≡ from
        → total ≤ length before + length rest
        → ((n : ℕ) → declined progress elements n ≡ false)
        → read_pieces nan source descriptor options control progress apply_mask elements ps
            (before ++ rest)
          ≡ record {
            buffer = before ++ (all_shown ss ++ drop (total - from) rest);
            answer = some (ok elements);
          }
    unfolding read_pieces
    read_pieces-Serves from total [] [] before rest l affords at room going =
        let none_left : total - from ≡ 0 = omega arith in rw none_left refl
    read_pieces-Serves from total [] (s ∷ ss) before rest l affords at room going = absurd l
    read_pieces-Serves from total (p ∷ ps) [] before rest l affords at room going = absurd l
    read_pieces-Serves from total (p ∷ ps) (s ∷ ss) before rest (built, first, l) affords at room
          going =
        let fits : s.elements ≤ length rest = omega (arith, Lands-le _ total ps ss l) in
        let shape = shown apply_mask pixels flags s in
        let step =
          piece_read p s before rest built (at ∙ sym first) fits
            (λ e. affordable_test options.read_budget_bytes s.elements (affords e).0) (going _) in
        let longer : length (before ++ shape) ≡ from + s.elements =
          omega (arith, length-append before shape, length-shown s (p.request, built)) in
        let rest_of =
          read_pieces-Serves (from + s.elements) total ps ss (before ++ shape)
            (drop s.elements rest) l (λ e. (affords e).1) longer
            (omega (arith, length-drop s.elements rest, longer, fits)) going in
        let skip : s.elements + (total - (from + s.elements)) ≡ total - from =
          omega (arith, Lands-le _ total ps ss l) in
        let past : drop (total - (from + s.elements)) (drop s.elements rest)
            ≡ drop (total - from) rest =
          drop-drop s.elements (total - (from + s.elements)) rest ∙ ap (λ k. drop k rest) skip in
        round p ps (before ++ rest) _ step
        ∙ rw
            (
              ← append_assoc before shape (drop s.elements rest),
              rest_of,
              past,
              append_assoc before shape (all_shown ss ++ drop (total - from) rest),
              append_assoc shape (all_shown ss) (drop (total - from) rest),
            )
            refl
