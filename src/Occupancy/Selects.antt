-- ===== src/Occupancy/Selects.antt =====
-- PlacedRegion::ForEachSpan of src/reduce/occupancy.h, for a region whose pixels are encoded as runs.
use carta_zarr.Base.{
  none, ℕ, ◌+◌, ◌-◌, ◌*◌, ◌^◌, ◌<◌, ◌≤◌, ◌≡◌, refl, ◌⊎◌, inl, inr, ◌↔◌, min, max, List, [], ◌∷◌,
  Option, some, ltb, leb, ltb→lt, ltb→le, leb→le, length, get_elem?, arith, Bool-cases, add64,
  sub64, add64_lem, sub64_lem,
}
use carta_zarr.Occupancy.{PlacedRegion}
use carta_zarr.Occupancy.Spans.{Span, in_runs, run_spans, row_spans, for_each_span}

-- The runs from `k` on are these pairs of a beginning and an end.
abbrev pub Encodes : List ℕ → ℕ → List (ℕ × ℕ) → Type 0
Encodes runs k [] = Unit
Encodes runs k ((begin, end) ∷ pairs) =
    (get_elem? runs (2 * k) ≡ some begin)
    × (get_elem? runs (2 * k + 1) ≡ some end)
    × Encodes runs (k + 1) pairs

-- They begin no sooner than `low`, each no sooner than the one before it ends, and end by `size`.
abbrev pub AreAscending : ℕ → ℕ → List (ℕ × ℕ) → Type 0
AreAscending low size [] = Unit
AreAscending low size ((begin, end) ∷ pairs) =
    (low ≤ begin) × (begin ≤ end) × (end ≤ size) × AreAscending end size pairs

abbrev pub InPairs : ℕ → ℕ → List (ℕ × ℕ) → Type 0
InPairs u_start x [] = ⊥
InPairs u_start x ((begin, end) ∷ pairs) =
    ((u_start + begin ≤ x) × (x < u_start + end)) ⊎ InPairs u_start x pairs

abbrev pub InSpans : ℕ → List Span → Type 0
InSpans x [] = ⊥
InSpans x (span ∷ spans) = ((span.from ≤ x) × (x < span.to)) ⊎ InSpans x spans

-- Each with a pixel or more, and none before the end of the one before it.
abbrev pub AreOrdered : ℕ → List Span → Type 0
AreOrdered low [] = Unit
AreOrdered low (span ∷ spans) = (low ≤ span.from) × (span.from < span.to) × AreOrdered span.to spans

-- Pixels past a place are in no run that begins by it.
InPairs-below :
    (u_start size low x : ℕ) (pairs : List (ℕ × ℕ))
    → AreAscending low size pairs
    → InPairs u_start x pairs
    → u_start + low ≤ x
InPairs-below u_start size low x [] v h = absurd h
InPairs-below u_start size low x ((begin, end) ∷ pairs) v (inl h) = omega (arith, v.0, h.0)
InPairs-below u_start size low x ((begin, end) ∷ pairs) v (inr h) =
    omega (arith, v.0, v.1, InPairs-below u_start size end x pairs v.3 h)

AreOrdered-weaken :
    (low lower : ℕ) (spans : List Span)
    → lower ≤ low
    → AreOrdered low spans
    → AreOrdered lower spans
AreOrdered-weaken low lower [] h v = tt
AreOrdered-weaken low lower (span ∷ spans) h (a, b, v) = (omega arith, b, v)

-- What is selected of a row from `first` to `last`, with one run before others.
span_before :
    (first last b e x : ℕ) {R P : Type 0}
    → (R ↔ ((first ≤ x) × (x < last) × P))
    → ((((max first b ≤ x) × (x < min last e)) ⊎ R)
        ↔ ((first ≤ x) × (x < last) × (((b ≤ x) × (x < e)) ⊎ P)))
span_before first last b e x {R} {P} h = (to, back)
  where
    to :
        (((max first b ≤ x) × (x < min last e)) ⊎ R)
        → (first ≤ x) × (x < last) × (((b ≤ x) × (x < e)) ⊎ P)
    to (inl (l, m)) = (omega arith, omega arith, inl (omega arith, omega arith))
    to (inr r) = let (l, m, p) = h.0 r in (l, m, inr p)

    back :
        (first ≤ x) × (x < last) × (((b ≤ x) × (x < e)) ⊎ P)
        → (((max first b ≤ x) × (x < min last e)) ⊎ R)
    back (l, m, inl (c, d)) = inl (omega arith, omega arith)
    back (l, m, inr p) = inr (h.1 (l, m, p))

-- And where that run has no pixel there.
none_before :
    (first last b e x : ℕ) {R P : Type 0}
    → min last e ≤ max first b
    → (R ↔ ((first ≤ x) × (x < last) × P))
    → (R ↔ ((first ≤ x) × (x < last) × (((b ≤ x) × (x < e)) ⊎ P)))
none_before first last b e x {R} {P} k h = (to, back)
  where
    to : R → (first ≤ x) × (x < last) × (((b ≤ x) × (x < e)) ⊎ P)
    to r = let (l, m, p) = h.0 r in (l, m, inr p)

    back : (first ≤ x) × (x < last) × (((b ≤ x) × (x < e)) ⊎ P) → R
    back (l, m, inl (c, d)) = absurd (omega arith)
    back (l, m, inr p) = h.1 (l, m, p)

-- The spans of some runs of a row are in order, and hold a pixel just where a run does.
abbrev pub SelectsRow : ℕ → ℕ → ℕ → ℕ → ℕ → List (ℕ × ℕ) → Option (List Span) → Type 0
SelectsRow u_start low first last x pairs given =
    (spans : List Span) × (given ≡ some spans)
    × AreOrdered low spans
    × (InSpans x spans ↔ ((first ≤ x) × (x < last) × InPairs u_start x pairs))

run_spans-SelectsRow :
    (u_start size low first last k x : ℕ) (runs : List ℕ) (pairs : List (ℕ × ℕ))
    → Encodes runs k pairs
    → AreAscending low size pairs
    → u_start + size < 2 ^ 64
    → SelectsRow u_start
        (u_start + low)
        first
        last
        x
        pairs
        (run_spans u_start runs first last (length pairs) k)
unfolding run_spans
run_spans-SelectsRow u_start size low first last k x runs [] c v t =
    ([], refl, tt, (λ h. absurd h, λ h. absurd h.2))
run_spans-SelectsRow u_start size low first last k x runs ((begin, end) ∷ pairs) (eb, ee, c)
      (lb, be, es, v) t =
    let b64 : add64 u_start begin ≡ u_start + begin = add64_lem u_start begin (omega arith) in
    let e64 : add64 u_start end ≡ u_start + end = add64_lem u_start end (omega arith) in
    elim (Bool-cases (leb last (u_start + begin))) [
      | inl past ↦
          rw (eb, b64, past, run_spans)
            (
              [],
              refl,
              tt,
              (
                λ h. absurd h,
                λ h. absurd (
                    omega (
                      arith,
                      h.1,
                      leb→le last (u_start + begin) past,
                      InPairs-below u_start size begin x ((begin, end) ∷ pairs)
                          (omega arith, be, es, v) h.2,
                    )),
              ),
            )
      | inr more ↦
          let (spans, run, order, iff) =
            run_spans-SelectsRow u_start size end first last (k + 1) x runs pairs c v t in
          elim (Bool-cases (ltb (max first (u_start + begin)) (min last (u_start + end)))) [
            | inl some_pixels ↦
                rw (eb, b64, more, ee, b64, e64, some_pixels, run, run_spans)
                  (
                    record {
                      from = max first (u_start + begin);
                      to = min last (u_start + end);
                      selected = none;
                    }
                        ∷ spans,
                    rw (b64, e64) refl,
                    (
                      omega arith,
                      ltb→lt (max first (u_start + begin)) (min last (u_start + end)) some_pixels,
                      AreOrdered-weaken (u_start + end) (min last (u_start + end)) spans
                          (omega arith) order,
                    ),
                    span_before first last (u_start + begin) (u_start + end) x iff,
                  )
            | inr no_pixel ↦
                rw (eb, b64, more, ee, b64, e64, no_pixel, run, run_spans)
                  (
                    spans,
                    refl,
                    AreOrdered-weaken (u_start + end) (u_start + low) spans (omega arith) order,
                    none_before first last (u_start + begin) (u_start + end) x
                        (ltb→le (max first (u_start + begin)) (min last (u_start + end)) no_pixel)
                        iff,
                  )
          ]
    ]

-- ForEachSpan for a row `y` of a region in runs, those of the row being `pairs`, from run `k` on, in
-- ascending order and within the region, which ends before 2^64: it reads none past the end of the runs;
-- the spans are in order, each of a pixel or more and none before the end of the one before it; and they
-- hold a pixel `x` just where it is in [u0, u1), in the region's box and in one of the row's runs.
pub for_each_span-SelectsRow :
    (region : PlacedRegion) (runs offsets : List ℕ) (pairs : List (ℕ × ℕ)) (y u0 u1 k x : ℕ)
    → region.v_start ≤ y
    → y < 2 ^ 64
    → get_elem? offsets (y - region.v_start) ≡ some k
    → get_elem? offsets (y - region.v_start + 1) ≡ some (k + length pairs)
    → Encodes runs k pairs
    → AreAscending 0 region.u_size pairs
    → region.u_start + region.u_size < 2 ^ 64
    → SelectsRow region.u_start region.u_start
        (max u0 region.u_start)
        (min u1 (region.u_start + region.u_size))
        x
        pairs
        (for_each_span region (in_runs runs offsets) y u0 u1)
unfolding for_each_span row_spans
for_each_span-SelectsRow region runs offsets pairs y u0 u1 k x h z e f c v t =
    let u64 : add64 region.u_start region.u_size ≡ region.u_start + region.u_size =
      add64_lem region.u_start region.u_size t in
    let v64 : sub64 y region.v_start ≡ y - region.v_start = sub64_lem y region.v_start h z in
    elim (Bool-cases (leb (min u1 (region.u_start + region.u_size)) (max u0 region.u_start))) [
      | inl empty ↦
          rw (u64, empty, for_each_span)
            (
              [],
              refl,
              tt,
              (
                λ h. absurd h,
                λ h. absurd (
                    omega (
                      arith,
                      h.0,
                      h.1,
                      leb→le (min u1 (region.u_start + region.u_size)) (max u0 region.u_start)
                          empty,
                    )),
              ),
            )
      | inr pixels ↦
          let count : k + length pairs - k ≡ length pairs = omega arith in
          let start : region.u_start + 0 ≡ region.u_start = omega arith in
          let row =
            run_spans-SelectsRow region.u_start region.u_size 0 (max u0 region.u_start)
              (min u1 (region.u_start + region.u_size)) k x runs pairs c v t in
          rw (u64, pixels, v64, e, v64, f, count, u64, for_each_span, row_spans) (rw start at row)
    ]
