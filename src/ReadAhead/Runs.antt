-- ===== src/ReadAhead/Runs.antt =====
-- RunRequest of src/read_ahead.cc: what is decoded ahead for a plane is the run of chunks that it is in.
use carta_zarr.Base.{
  ℕ, suc, ◌+◌, ◌-◌, ◌*◌, ◌/◌, ◌^◌, ◌≤◌, ◌<◌, ◌≡◌, refl, ap, sym, ◌∙◌, min, max, List, [], ◌∷◌,
  arith, dec_lt, get_or, add64_lem, sub64_lem, mul64_lem, ne→==,
}
use carta_zarr.Image.{AxisDescriptor, ImageDescriptor, ChunkGeometry, Range, ReadRequest}
use native.Mathlib.Nat.{div-le_self, mul-le-mul_left}
use carta_zarr.Chunk.Grid.{div-bounds, div-lt, le-div}
use carta_zarr.ReadAhead.{
  Run, last_of, run_chunk, push_chunks, run_from, run_of, whole_chunks, run_ranges, run_request,
}

-- The last element that a range selects.
abbrev pub final : Range → ℕ
final range = range.start + (range.count - 1) * max 1 range.stride

-- A range that selects an element or more, all of them within an axis whose positions do not wrap.
pub record IsWithin (length chunk : ℕ) (range : Range) : Type 0 where
  pub some_elements : 0 < range.count
  pub inside : final range < length
  pub span : length + chunk < 2 ^ 64

-- One such range for each axis.
abbrev pub AreWithin : List AxisDescriptor → List ℕ → ℕ → List Range → Type 0
AreWithin [] chunks axis [] = Unit
AreWithin [] chunks axis (range ∷ ranges) = ⊥
AreWithin (a ∷ axes) chunks axis [] = ⊥
AreWithin (a ∷ axes) chunks axis (range ∷ ranges) =
    IsWithin a.length (get_or chunks axis 0) range × AreWithin axes chunks (axis + 1) ranges

-- Every element of `range` is one of `wide`, which is a part of the axis taken whole.
pub record IsCovered (length : ℕ) (range wide : Range) : Type 0 where
  pub starts : wide.start ≤ range.start
  pub ends : final range < wide.start + wide.count
  pub stays : wide.start + wide.count ≤ length
  pub whole : wide.stride ≡ 1

abbrev pub AreCovered : List AxisDescriptor → List Range → List Range → Type 0
AreCovered [] ranges wide = Unit
AreCovered (a ∷ axes) [] wide = wide ≡ []
AreCovered (a ∷ axes) (range ∷ ranges) [] = ⊥
AreCovered (a ∷ axes) (range ∷ ranges) (w ∷ wide) =
    IsCovered a.length range w × AreCovered axes ranges wide

last_of-eq :
    (length : ℕ) (range : Range)
    → 0 < range.count
    → final range < length
    → length < 2 ^ 64
    → last_of range ≡ final range
unfolding last_of
last_of-eq length range pc h small =
    rw
      (
        ne→== range.count 0 (omega arith),
        sub64_lem range.count 1 pc (omega (arith, steps)),
        mul64_lem (range.count - 1) (max 1 range.stride) (omega arith),
      )
      (add64_lem range.start ((range.count - 1) * max 1 range.stride) (omega arith))
  where
    steps : range.count - 1 ≤ (range.count - 1) * max 1 range.stride
    steps =
        omega
          (arith, mul-le-mul_left {m = 1} {n = max 1 range.stride} (range.count - 1) (omega arith))

same_chunk : (c q x : ℕ) → 0 < c → q * c ≤ x → x < q * c + c → x / c ≡ q
same_chunk c q x pc from below =
    omega (arith, le-div q c x pc from, div-lt (q + 1) c x pc (omega arith))

run_chunk-eq : (c q x : ℕ) → 0 < c → q * c ≤ x → x < q * c + c → run_chunk c x ≡ q
unfolding run_chunk
run_chunk-eq c q x pc from below = rw (ne→== c 0 (omega arith)) (same_chunk c q x pc from below)

run_chunk-zero : (x : ℕ) → run_chunk 0 x ≡ 0
unfolding run_chunk
run_chunk-zero x = refl

whole_axis-eq :
    (length first last : ℕ)
    → length < 2 ^ 64
    → whole_chunks length 0 first last ≡ record { start = 0; count = length; stride = 1 }
unfolding whole_chunks
whole_axis-eq length first last h =
    let e : length - 0 ≡ length = omega arith in rw (sub64_lem length 0 (omega arith) h, e) refl

-- What RunRequest takes of an axis: whole chunks, from the range's first to its last.
module _ (length chunk : ℕ) (range : Range) (v : IsWithin length chunk range) where
  wide : Range
  wide = whole_chunks length chunk (run_chunk chunk range.start) (run_chunk chunk (last_of range))

  ends-here : last_of range ≡ final range
  ends-here = last_of-eq length range v.some_elements v.inside (omega (arith, v.span))

  whole_chunks-eq :
      0 < chunk
      → whole_chunks length chunk (run_chunk chunk range.start) (run_chunk chunk (last_of range))
        ≡ record {
          start = range.start / chunk * chunk;
          count = min length ((final range / chunk + 1) * chunk) - range.start / chunk * chunk;
          stride = 1;
        }
  unfolding whole_chunks run_chunk
  whole_chunks-eq pc =
      rw
        (
          ne→== chunk 0 (omega arith),
          ends-here,
          add64_lem (final range / chunk) 1
              (omega (arith, v.span, v.inside, div-le_self (final range) chunk)),
          mul64_lem (range.start / chunk) chunk (omega (arith, v.span, v.inside, starts)),
          mul64_lem (final range / chunk + 1) chunk (omega (arith, v.span, v.inside, last_starts)),
          inside_first,
          sub64_lem (min length ((final range / chunk + 1) * chunk)) (range.start / chunk * chunk)
              (omega (arith, v.inside, starts, last_ends)) (omega (arith, v.span)),
        )
        refl
    where
      starts : range.start / chunk * chunk ≤ range.start
      starts = (div-bounds range.start chunk pc).0

      last_starts : (final range / chunk + 1) * chunk ≤ final range + chunk
      last_starts = omega (arith, div-bounds (final range) chunk pc)

      last_ends : final range < (final range / chunk + 1) * chunk
      last_ends = omega (arith, div-bounds (final range) chunk pc)

      inside_first : min length (range.start / chunk * chunk) ≡ range.start / chunk * chunk
      inside_first = omega (arith, v.inside, starts)

  -- Where the wide range ends, and that its ends are in the chunks that the range's are in.
  pub whole_chunks-Covers :
      IsCovered length range
        (whole_chunks length chunk (run_chunk chunk range.start) (run_chunk chunk (last_of range)))
      × (run_chunk chunk
            (whole_chunks length chunk
              (run_chunk chunk range.start)
              (run_chunk chunk (last_of range))).start
          ≡ run_chunk chunk range.start)
      × (run_chunk chunk (
            last_of (
              whole_chunks length chunk
                (run_chunk chunk range.start)
                (run_chunk chunk (last_of range))))
          ≡ run_chunk chunk (last_of range))
  whole_chunks-Covers = elim (dec_lt 0 chunk) [
    | yes pc ↦ rw (whole_chunks-eq pc) (covered pc, same_first pc, same_last pc)
    | no none ↦
        let c : chunk ≡ 0 = omega arith in
        rw
          (
            c,
            whole_axis-eq length (run_chunk 0 range.start) (run_chunk 0 (last_of range))
                (omega (arith, v.span)),
          )
          (
            record {
              starts = omega arith;
              ends = omega (arith, v.inside);
              stays = omega arith;
              whole = refl;
            },
            run_chunk-zero 0 ∙ sym (run_chunk-zero range.start),
            run_chunk-zero _ ∙ sym (run_chunk-zero (last_of range)),
          )
  ]
    where
      end : ℕ
      end = min length ((final range / chunk + 1) * chunk)

      begins : 0 < chunk → range.start / chunk * chunk ≤ range.start
      begins pc = (div-bounds range.start chunk pc).0

      reaches : 0 < chunk → final range < (final range / chunk + 1) * chunk
      reaches pc = omega (arith, div-bounds (final range) chunk pc)

      covered :
          0 < chunk
          → IsCovered length range (record {
            start = range.start / chunk * chunk;
            count = end - range.start / chunk * chunk;
            stride = 1;
          })
      covered pc = record {
        starts = begins pc;
        ends = omega (arith, v.inside, begins pc, reaches pc);
        stays = omega (arith, v.inside, begins pc, reaches pc);
        whole = refl;
      }

      same_first :
          0 < chunk → run_chunk chunk (range.start / chunk * chunk) ≡ run_chunk chunk range.start
      same_first pc =
          run_chunk-eq chunk (range.start / chunk) (range.start / chunk * chunk) pc (omega arith)
            (omega arith)
          ∙ sym (
              run_chunk-eq chunk (range.start / chunk) range.start pc (begins pc)
                (omega (arith, div-bounds range.start chunk pc)))

      same_last :
          0 < chunk
          → run_chunk chunk (
              last_of (record {
                start = range.start / chunk * chunk;
                count = end - range.start / chunk * chunk;
                stride = 1;
              }))
            ≡ run_chunk chunk (last_of range)
      same_last pc =
          rw
            (
              ends-here,
              last_of-eq length
                  (record {
                    start = range.start / chunk * chunk;
                    count = end - range.start / chunk * chunk;
                    stride = 1;
                  })
                  (omega (arith, begins pc, reaches pc, v.inside))
                  (omega (arith, begins pc, reaches pc, v.inside)) (omega (arith, v.span)),
            )
            (run_chunk-eq chunk (final range / chunk) _ pc
                (omega (arith, begins pc, reaches pc, v.inside, div-bounds (final range) chunk pc))
                (omega (arith, begins pc, reaches pc, v.inside, div-bounds (final range) chunk pc))
              ∙ sym (
                  run_chunk-eq chunk (final range / chunk) (final range) pc
                    (omega (arith, div-bounds (final range) chunk pc))
                    (omega (arith, div-bounds (final range) chunk pc))))

-- The run that RunRequest reads off, from the axis that its loop is at.
record IsRest (run rest : Run) (axis : ℕ) : Type 0 where
  firsts : (i : ℕ) → get_or run.first (axis + i) 0 ≡ get_or rest.first i 0
  lasts : (i : ℕ) → get_or run.last (axis + i) 0 ≡ get_or rest.last i 0

run_ranges-Covers :
    (axes : List AxisDescriptor) (chunks : List ℕ) (run : Run) (axis : ℕ) (ranges : List Range)
    → AreWithin axes chunks axis ranges
    → IsRest run (run_from chunks axis ranges) axis
    → AreCovered axes ranges (run_ranges axes chunks run axis ranges)
      × (run_from chunks axis (run_ranges axes chunks run axis ranges)
          ≡ run_from chunks axis ranges)
unfolding run_ranges run_from push_chunks
run_ranges-Covers [] chunks run axis [] v at = (tt, refl)
run_ranges-Covers [] chunks run axis (range ∷ ranges) v at = absurd v
run_ranges-Covers (a ∷ axes) chunks run axis [] v at = absurd v
run_ranges-Covers (a ∷ axes) chunks run axis (range ∷ ranges) (here, v) at =
    let (covered, first, last) = whole_chunks-Covers a.length (get_or chunks axis 0) range here in
    let (rest_covered, same) = run_ranges-Covers axes chunks run (axis + 1) ranges v (record {
      firsts = λ (i : ℕ). moved run.first i ∙ at.firsts (suc i);
      lasts = λ (i : ℕ). moved run.last i ∙ at.lasts (suc i);
    }) in
    rw (unmoved run.first ∙ at.firsts 0, unmoved run.last ∙ at.lasts 0)
      ((covered, rest_covered), rw (first, last, same) refl)
  where
    moved : (xs : List ℕ) (i : ℕ) → get_or xs (axis + 1 + i) 0 ≡ get_or xs (axis + suc i) 0
    moved xs i =
        let e : axis + 1 + i ≡ axis + suc i = omega arith in ap (λ (n : ℕ). get_or xs n 0) e

    unmoved : (xs : List ℕ) → get_or xs axis 0 ≡ get_or xs (axis + 0) 0
    unmoved xs = let e : axis ≡ axis + 0 = omega arith in ap (λ (n : ℕ). get_or xs n 0) e

-- RunRequest of a plane that selects elements within each of the image's axes, which do not wrap:
-- on each axis it asks for a part of the axis taken whole that has every element of the plane in it,
-- and the run of chunks that it is in is the run that the plane is in.
pub run_request-Covers :
    (descriptor : ImageDescriptor) (geometry : ChunkGeometry) (plane : ReadRequest)
    → AreWithin descriptor.axes geometry.chunk_shape 0 plane.axes
    → AreCovered descriptor.axes plane.axes (run_request descriptor geometry plane).axes
      × (run_of geometry (run_request descriptor geometry plane) ≡ run_of geometry plane)
unfolding run_request run_of
run_request-Covers descriptor geometry plane v =
    run_ranges-Covers descriptor.axes geometry.chunk_shape
      (run_from geometry.chunk_shape 0 plane.axes) 0 plane.axes v
      (record {
        firsts = from_start (run_of geometry plane).first;
        lasts = from_start (run_of geometry plane).last;
      })
  where
    from_start : (xs : List ℕ) (i : ℕ) → get_or xs (0 + i) 0 ≡ get_or xs i 0
    from_start xs i = let e : 0 + i ≡ i = omega arith in ap (λ (n : ℕ). get_or xs n 0) e
