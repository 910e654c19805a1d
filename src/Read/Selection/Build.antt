-- ===== src/Read/Selection/Build.antt =====
-- BuildSelection as a whole: which requests it accepts, and the selection that it makes of one.
use carta_zarr.Base.{
  ℕ, zero, suc, ◌^◌, ◌<◌, ◌≡◌, refl, ap, ◌∙◌, ◌↔◌, inl, inr, List, [], ◌∷◌, map, Option, none, some,
  Result, ok, err, Result-cases, arith, length, get_elem?, get_or, replicate, product, ==_self,
  assign, Avoids, Distinct, Below, Positive, Has, values, get_or-assign, product-assign,
  length-replicate,
}
use carta_zarr.Image.{AxisDescriptor, ImageDescriptor, Range, ReadRequest}
use carta_zarr.Read.Selection.{
  PixelSelection, DestinationOrder, place_axes, count_elements, order_axes, blank, with_elements,
  build_selection, reversed,
}
use carta_zarr.Read.Selection.Accepts.{
  AllAccepted, Words, place_axes-AllAccepted, AllAccepted-place_axes,
}
use carta_zarr.Read.Selection.Places.{
  pairs, kept_stride, IsPlaced, place_axes-IsPlaced, count_elements-product, product-count_elements,
}

abbrev pub counts : List Range → List ℕ
counts = map (λ r. r.count)

abbrev pub keys : List AxisDescriptor → List (ℕ × ℕ)
keys [] = []
keys (a ∷ axes) = (a.storage_index, a.length) ∷ keys axes

-- A request and an image that belong together: a range for each axis, 64-bit words, and no two axes
-- stored at one dimension.
pub record IsMatched (d : ImageDescriptor) (r : ReadRequest) : Type 0 where
  pub rank : length r.axes ≡ length d.axes
  pub words : Words d.axes r.axes
  pub apart : Distinct (keys d.axes)

module _ (f : Range → ℕ) where
  Avoids-pairs :
      (i : ℕ) (axes : List AxisDescriptor) (ranges : List Range)
      → Avoids i (keys axes)
      → Avoids i (pairs f axes ranges)
  unfolding pairs
  Avoids-pairs i [] ranges h = tt
  Avoids-pairs i (a ∷ axes) [] h = tt
  Avoids-pairs i (a ∷ axes) (r ∷ ranges) h = (h.0, Avoids-pairs i axes ranges h.1)

  Distinct-pairs :
      (axes : List AxisDescriptor) (ranges : List Range)
      → Distinct (keys axes)
      → Distinct (pairs f axes ranges)
  unfolding pairs
  Distinct-pairs [] ranges h = tt
  Distinct-pairs (a ∷ axes) [] h = tt
  Distinct-pairs (a ∷ axes) (r ∷ ranges) h =
      (Avoids-pairs a.storage_index axes ranges h.0, Distinct-pairs axes ranges h.1)

  Below-pairs :
      (n : ℕ) (axes : List AxisDescriptor) (ranges : List Range)
      → AllAccepted n axes ranges
      → Below n (pairs f axes ranges)
  unfolding pairs
  Below-pairs n [] ranges h = tt
  Below-pairs n (a ∷ axes) [] h = tt
  Below-pairs n (a ∷ axes) (r ∷ ranges) h = (h.0.stored, Below-pairs n axes ranges h.1)

  values-pairs :
      (axes : List AxisDescriptor) (ranges : List Range)
      → length ranges ≡ length axes
      → (values (pairs f axes ranges) ≡ map f ranges) × (length (pairs f axes ranges) ≡ length axes)
  unfolding pairs values
  values-pairs [] [] h = (refl, refl)
  values-pairs [] (r ∷ ranges) h = absurd (omega arith)
  values-pairs (a ∷ axes) [] h = absurd (omega arith)
  values-pairs (a ∷ axes) (r ∷ ranges) h =
      let (e, l) = values-pairs axes ranges (omega arith) in (rw e, omega arith)

  Has-pairs :
      (i : ℕ) (axes : List AxisDescriptor) (ranges : List Range) (a : AxisDescriptor) (r : Range)
      → get_elem? axes i ≡ some a
      → get_elem? ranges i ≡ some r
      → Has a.storage_index (f r) (pairs f axes ranges)
  unfolding pairs
  Has-pairs i [] ranges a r p q = cc
  Has-pairs i (a' ∷ axes) [] a r p q = cc
  Has-pairs zero (a' ∷ axes) (r' ∷ ranges) a r p q = inl (ground arith, ground arith)
  Has-pairs (suc i) (a' ∷ axes) (r' ∷ ranges) a r p q = inr (Has-pairs i axes ranges a r p q)

Positive-pairs :
    (n : ℕ) (axes : List AxisDescriptor) (ranges : List Range)
    → AllAccepted n axes ranges
    → Positive (pairs (λ r. r.count) axes ranges)
unfolding pairs
Positive-pairs n [] ranges h = tt
Positive-pairs n (a ∷ axes) [] h = tt
Positive-pairs n (a ∷ axes) (r ∷ ranges) h = (h.0.selects, Positive-pairs n axes ranges h.1)

counts-positive :
    (n : ℕ) (axes : List AxisDescriptor) (ranges : List Range)
    → length ranges ≡ length axes
    → AllAccepted n axes ranges
    → 0 < product (counts ranges)
counts-positive n [] [] l h = omega arith
counts-positive n [] (r ∷ ranges) l h = absurd (omega arith)
counts-positive n (a ∷ axes) [] l h = absurd (omega arith)
counts-positive n (a ∷ axes) (r ∷ ranges) l h =
    let rest = counts-positive n axes ranges (omega arith) h.1 in
    let here = h.0.selects in grind arith

-- The counts by stored dimension multiply to what the request's do.
placed-product :
    (d : ImageDescriptor) (r : ReadRequest) (s : PixelSelection)
    → IsMatched d r
    → AllAccepted (length d.axes) d.axes r.axes
    → IsPlaced 0 d.axes r.axes (blank (length d.axes)) s
    → product s.count ≡ product (counts r.axes)
unfolding blank
placed-product d r s m v p =
    let (e, l) = values-pairs (λ r. r.count) d.axes r.axes m.rank in
    ap product p.counts
    ∙ product-assign (length d.axes) (pairs (λ r. r.count) d.axes r.axes) l
        (Distinct-pairs _ d.axes r.axes m.apart) (Below-pairs _ _ d.axes r.axes v)
        (Positive-pairs _ d.axes r.axes v)
    ∙ ap product e

ordered-count :
    (o : DestinationOrder) (n : ℕ) (s : PixelSelection) → (order_axes o n s).count ≡ s.count
unfolding order_axes
ordered-count DestinationOrder.logical n s = refl
ordered-count DestinationOrder.stored n s = refl

accepts :
    (d : ImageDescriptor) (r : ReadRequest) (o : DestinationOrder)
    → IsMatched d r
    → AllAccepted (length d.axes) d.axes r.axes
    → product (counts r.axes) < 2 ^ 64
    → (s : PixelSelection) × (build_selection d r o ≡ some (ok s))
unfolding build_selection
accepts d r o m v fits =
    let (placed, run) =
      place_axes-AllAccepted d (length d.axes) 0 d.axes r.axes (blank (length d.axes)) m.words v in
    let p =
      place_axes-IsPlaced d (length d.axes) 0 d.axes r.axes (blank (length d.axes)) placed run in
    let size = placed-product d r placed m v p in
    let pos = counts-positive (length d.axes) d.axes r.axes m.rank v in
    rw
      (
        m.rank,
        ==_self (length d.axes),
        run,
        ordered-count o (length d.axes) placed,
        count_elements-product d placed.count 1 (omega arith) (omega arith),
      )
      (_, refl)

-- A selection of what the request asks for.
pub record Selects (d : ImageDescriptor) (r : ReadRequest) (o : DestinationOrder)
    (s : PixelSelection) : Type 0 where
  pub accepted : AllAccepted (length d.axes) d.axes r.axes
  pub elements : s.elements ≡ product (counts r.axes)
  pub counted : product (counts r.axes) < 2 ^ 64
  pub axis :
      (i : ℕ) (a : AxisDescriptor) (range : Range)
      → get_elem? d.axes i ≡ some a
      → get_elem? r.axes i ≡ some range
      → (get_or s.start a.storage_index 0 ≡ range.start)
        × (get_or s.count a.storage_index 0 ≡ range.count)
        × (get_or s.stride a.storage_index 0 ≡ kept_stride range)
  pub ordered : o ≡ DestinationOrder.stored → s.destination_to_stored ≡ reversed (length d.axes)

stored-AllAccepted :
    (n i : ℕ) (axes : List AxisDescriptor) (ranges : List Range) (a : AxisDescriptor) (r : Range)
    → AllAccepted n axes ranges
    → get_elem? axes i ≡ some a
    → get_elem? ranges i ≡ some r
    → a.storage_index < n
stored-AllAccepted n i [] ranges a r v p q = cc
stored-AllAccepted n i (b ∷ axes) [] a r v p q = cc
stored-AllAccepted n zero (b ∷ axes) (t ∷ ranges) a r v p q =
    let e : b ≡ a = ground arith in rw (← e) v.0.stored
stored-AllAccepted n (suc i) (b ∷ axes) (t ∷ ranges) a r v p q =
    stored-AllAccepted n i axes ranges a r v.1 p q

module _ (d : ImageDescriptor) (r : ReadRequest) (m : IsMatched d r) (placed : PixelSelection)
    (v : AllAccepted (length d.axes) d.axes r.axes)
    (p : IsPlaced 0 d.axes r.axes (blank (length d.axes)) placed) where
  read_back :
      (f : Range → ℕ) (z i : ℕ) (a : AxisDescriptor) (range : Range)
      → get_elem? d.axes i ≡ some a
      → get_elem? r.axes i ≡ some range
      → get_or (assign (pairs f d.axes r.axes) (replicate (length d.axes) z)) a.storage_index 0
        ≡ f range
  read_back f z i a range pa pr =
      get_or-assign (pairs f d.axes r.axes) (replicate (length d.axes) z) a.storage_index (f range)
        0 (Distinct-pairs f d.axes r.axes m.apart)
        (omega (
          arith,
          length-replicate {A = ℕ} (length d.axes) z,
          stored-AllAccepted _ i d.axes r.axes a range v pa pr,
        ))
        (Has-pairs f i d.axes r.axes a range pa pr)

  finished :
      (o : DestinationOrder) (n : ℕ) (s : PixelSelection)
      → count_elements d placed.count 1 ≡ some (ok n)
      → record (order_axes o (length d.axes) placed) { elements = n } ≡ s
      → Selects d r o s
  unfolding order_axes blank
  finished o n s c e =
      let size = placed-product d r placed m v p in
      let (total, fits) = product-count_elements d placed.count 1 n (omega arith) c in
      rw (← e) (record {
        accepted = v;
        elements = omega (arith, size, total);
        counted = omega (arith, size, total);
        axis = λ i a range pa pr. (
          rw (same_start o, p.starts) (read_back (λ x. x.start) 0 i a range pa pr),
          rw (ordered-count o _ placed, p.counts) (read_back (λ x. x.count) 0 i a range pa pr),
          rw (same_stride o, p.strides) (read_back kept_stride 1 i a range pa pr),
        );
        ordered = λ q. in_order o q;
      })
    where
      same_start :
          (o : DestinationOrder) → (order_axes o (length d.axes) placed).start ≡ placed.start
      same_start DestinationOrder.logical = refl
      same_start DestinationOrder.stored = refl

      same_stride :
          (o : DestinationOrder) → (order_axes o (length d.axes) placed).stride ≡ placed.stride
      same_stride DestinationOrder.logical = refl
      same_stride DestinationOrder.stored = refl

      in_order :
          (o : DestinationOrder)
          → o ≡ DestinationOrder.stored
          → (order_axes o (length d.axes) placed).destination_to_stored ≡ reversed (length d.axes)
      in_order DestinationOrder.logical q = cc
      in_order DestinationOrder.stored q = refl

with_elements-eq :
    (t s : PixelSelection) (x : Option (Result ℕ))
    → with_elements t x ≡ some (ok s)
    → (n : ℕ) × (x ≡ some (ok n)) × (record t { elements = n } ≡ s)
unfolding with_elements
with_elements-eq t s none e = cc
with_elements-eq t s (some (err x)) e = cc
with_elements-eq t s (some (ok n)) e = (n, refl, ground arith)

-- A selection that BuildSelection makes, of a range for each axis of an image whose axes are stored
-- apart, counts the request's elements, and holds at each axis's stored dimension the
-- start and the count that were asked for and the stride, or 1 over a single element; in stored
-- order its destination's axes are the stored dimensions, last first.
pub build_selection-Selects :
    (d : ImageDescriptor) (r : ReadRequest) (o : DestinationOrder) (s : PixelSelection)
    → IsMatched d r
    → build_selection d r o ≡ some (ok s)
    → Selects d r o s
unfolding build_selection
build_selection-Selects d r o s m e =
    elim (Result-cases (place_axes d (length d.axes) 0 d.axes r.axes (blank (length d.axes)))) [
      | inr (x, bad) ↦ cc (rw (m.rank, ==_self (length d.axes), bad) at e)
      | inl (placed, run) ↦
          let v =
            AllAccepted-place_axes d _ 0 d.axes r.axes (blank (length d.axes)) placed m.words run in
          let p = place_axes-IsPlaced d _ 0 d.axes r.axes (blank (length d.axes)) placed run in
          let (n, c, q) = with_elements-eq (order_axes o (length d.axes) placed) s _ (
            rw (m.rank, ==_self (length d.axes), run, ordered-count o (length d.axes) placed) at
              e) in
          finished d r m placed v p o n s c q
    ]

-- BuildSelection, of a range for each axis of an image whose axes are stored apart, makes a
-- selection exactly when each axis can serve its range and the counts' product fits in 64 bits.
pub build_selection-accepts :
    (d : ImageDescriptor) (r : ReadRequest) (o : DestinationOrder)
    → IsMatched d r
    → ((s : PixelSelection) × (build_selection d r o ≡ some (ok s)))
      ↔ (AllAccepted (length d.axes) d.axes r.axes × (product (counts r.axes) < 2 ^ 64))
build_selection-accepts d r o m = (
  λ made. let q = build_selection-Selects d r o made.0 m made.1 in (q.accepted, q.counted),
  λ good. accepts d r o m good.0 good.1,
)
