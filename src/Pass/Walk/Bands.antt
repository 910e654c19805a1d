-- ===== src/Pass/Walk/Bands.antt =====
-- OverBands of src/reduce/pass.h: a plane is walked in bands of chunk rows, and a band in segments of
-- chunk columns.
use carta_zarr.Base.{
  ℕ, suc, ◌+◌, ◌-◌, ◌*◌, ◌^◌, ◌<◌, ◌≤◌, ◌≡◌, refl, sym, ap, subst, ◌∙◌, ◌⊎◌, inl, inr, ◌↔◌, List,
  [], ◌∷◌, ◌++◌, map, Option, none, some, arith, Result, ok, err, dec_lt,
}
use mathlib.Core.Path.{fun_ext}
use carta_zarr.Chunk.{chunks_sampled, sampled_chunk, units_affordable}
use carta_zarr.Chunk.Grid.{chunk_at}
use carta_zarr.Read.Selection.{ReadControl}
use carta_zarr.Read.InPieces.{PixelSource}
use carta_zarr.Steps.{Action, resume, for_each, by_runs, done}
use carta_zarr.Steps.Tiling.{Tiling, over_runs, in_steps-Tiling, by_runs-Advances}
use carta_zarr.Pass.{PassPlan, SlabFootprint, plan_units_affordable}
use carta_zarr.Pass.Walk.{Slab, Walked, over, band_of, over_segments, over_bands}
use carta_zarr.Pass.Walk.Held.{
  NoneOf, OnlyOne, NoneOf-append, OnlyOne-first, OnlyOne-second, runs_none, runs_one, enumerated,
  chunk_range-holds,
}

plan_units_affordable_positive :
    (plan : PassPlan) (chunks : ℕ) → 0 < plan_units_affordable plan chunks
unfolding plan_units_affordable units_affordable
plan_units_affordable_positive plan chunks = omega arith

-- Two loops over items, one after the other, and a loop over what items stand for.
module _ {W A : Type 0} (body : A → Action W) where
  resume_assoc :
      (m : W × Option (Result (Unit {0}))) (f g : Action W)
      → resume (resume m f) g ≡ resume m (λ w. resume (f w) g)
  unfolding resume
  resume_assoc (w, none) f g = refl
  resume_assoc (w, some (err e)) f g = refl
  resume_assoc (w, some (ok t)) f g = refl

  for_each-append :
      (xs ys : List A) (w : W)
      → for_each (xs ++ ys) body w ≡ resume (for_each xs body w) (for_each ys body)
  unfolding for_each done resume
  for_each-append [] ys w = refl
  for_each-append (x ∷ xs) ys w =
      ap (resume (body x w)) (fun_ext (for_each-append xs ys))
      ∙ sym (resume_assoc (body x w) (for_each xs body) (for_each ys body))

  for_each-map :
      {B : Type 0} (f : B → A) (xs : List B) (w : W)
      → for_each (map f xs) body w ≡ for_each xs (λ b. body (f b)) w
  unfolding for_each
  for_each-map f [] w = refl
  for_each-map f (x ∷ xs) w = ap (resume (body (f x) w)) (fun_ext (for_each-map f xs))

-- A plane whose plan steps by something along every axis, and whose lengths do not wrap when they are
-- rounded up.
pub record IsPlane (plan : PassPlan) : Type 0 where
  pub wide : 0 < plan.chunk_u
  pub high : 0 < plan.chunk_v
  pub samples : 0 < plan.sample
  pub bands : 0 < plan.band_rows
  pub u_chunks : plan.u_length + plan.chunk_u < 2 ^ 64
  pub v_chunks : plan.v_length + plan.chunk_v < 2 ^ 64
  pub u_samples : plan.u_length + plan.sample < 2 ^ 64
  pub v_samples : plan.v_length + plan.sample < 2 ^ 64

-- The pixel is one of those that a footprint reads.
abbrev pub Holds : ℕ → ℕ → SlabFootprint → Type 0
Holds u v f =
    ((i : ℕ) × (i < f.v_count) × (v ≡ f.v_start + i * f.v_stride))
    × ((i : ℕ) × (i < f.u_count) × (u ≡ f.u_start + i * f.u_stride))

-- The sample is in the chunk that is the `at`-th of those that hold one.
abbrev IsAt : ℕ → ℕ → ℕ → ℕ → ℕ → Type 0
IsAt length c k j at =
    (j * k < length)
    × (at < (chunks_sampled length c k).size)
    × (sampled_chunk (chunks_sampled length c k) at ≡ chunk_at 0 k c j)

both_iff : {P Q A B C : Type 0} → (P ↔ A) → (Q ↔ (B × C)) → ((P × Q) ↔ (A × B × C))
both_iff p q =
    ((λ h. let both = q.0 h.1 in (p.0 h.0, both.0, both.1)), (λ h. (p.1 h.0, q.1 (h.1, h.2))))

module _ {S P : Type 0} (nan nought : P) (source : PixelSource P) (plan : PassPlan)
    (control : S → ReadControl) (report : ℕ → S → S × Result (Unit {0})) (visit : Slab P → S → S)
    (begin end : ℕ) (plane : IsPlane plan) where
  rows : ℕ
  rows = (chunks_sampled plan.v_length plan.chunk_v plan.sample).size

  columns : ℕ
  columns = (chunks_sampled plan.u_length plan.chunk_u plan.sample).size

  footprint : ℕ → ℕ → ℕ → ℕ → SlabFootprint
  footprint row row_end column column_end =
      band_of nan nought source plan control report visit row row_end column column_end

  walk_over : SlabFootprint → Action (Walked S P)
  walk_over f = over nan nought source plan control report visit f begin end

  footprint-Holds :
      (i j c r row row_end column column_end : ℕ)
      → IsAt plan.u_length plan.chunk_u plan.sample i c
      → IsAt plan.v_length plan.chunk_v plan.sample j r
      → row < row_end
      → row_end ≤ rows
      → column < column_end
      → column_end ≤ columns
      → Holds (i * plan.sample) (j * plan.sample) (footprint row row_end column column_end)
        ↔ (((row ≤ r) × (r < row_end)) × (column ≤ c) × (c < column_end))
  unfolding footprint band_of rows columns
  footprint-Holds i j c r row row_end column column_end (ui, uc, us) (vi, vr, vs) hr lr hc lc =
      both_iff
        (chunk_range-holds plan.v_length plan.chunk_v plan.sample plane.high plane.samples
          plane.v_chunks plane.v_samples j r row row_end vi vr vs hr lr)
        (chunk_range-holds plan.u_length plan.chunk_u plan.sample plane.wide plane.samples
          plane.u_chunks plane.u_samples i c column column_end ui uc us hc lc)

  -- The footprints of the bands from chunk row `at` on.
  abbrev Once : ℕ → List SlabFootprint → Type 0
  Once at footprints =
      (i j c r : ℕ)
      → IsAt plan.u_length plan.chunk_u plan.sample i c
      → IsAt plan.v_length plan.chunk_v plan.sample j r
      → ((at ≤ r) × OnlyOne (Holds (i * plan.sample) (j * plan.sample)) footprints)
        ⊎ ((r < at) × NoneOf (Holds (i * plan.sample) (j * plan.sample)) footprints)

  -- One band, and those after it.
  band_before :
      (row row_end : ℕ) (segments : List (ℕ × ℕ)) (next : ℕ → ℕ) (later : List SlabFootprint)
      → row < row_end
      → row_end ≤ rows
      → Tiling next 0 columns segments
      → Once row_end later
      → Once row (map (λ s. footprint row row_end s.0 s.1) segments ++ later)
  unfolding columns
  band_before row row_end segments next later h l tiling rest i j c r ui vj =
      let holds : (first last : ℕ)
          → first < last
          → last ≤ columns
          → Holds (i * plan.sample) (j * plan.sample) (footprint row row_end first last)
            ↔ (((row ≤ r) × (r < row_end)) × (first ≤ c) × (c < last)) =
        λ first last f k. footprint-Holds i j c r row row_end first last ui vj h l f k in
      let none_here : (((row ≤ r) × (r < row_end)) → ⊥)
          → NoneOf (Holds (i * plan.sample) (j * plan.sample))
              (map (λ s. footprint row row_end s.0 s.1) segments) =
        λ out.
          runs_none (Holds (i * plan.sample) (j * plan.sample)) (footprint row row_end)
            ((row ≤ r) × (r < row_end)) c columns holds next 0 segments tiling (inl out) in
      elim (rest i j c r ui vj) [
        | inl (past, one) ↦ inl (
          omega arith,
          OnlyOne-second (Holds (i * plan.sample) (j * plan.sample)) _ later
              (none_here (λ a. absurd (omega (arith, a.1, past)))) one,
        )
        | inr (within, none_later) ↦ elim (dec_lt r row) [
          | yes before ↦ inr (
            before,
            NoneOf-append (Holds (i * plan.sample) (j * plan.sample)) _ later
                (none_here (λ a. absurd (omega (arith, a.0, before)))) none_later,
          )
          | no from ↦ inl (
            omega arith,
            OnlyOne-first (Holds (i * plan.sample) (j * plan.sample)) _ later
                (runs_one (Holds (i * plan.sample) (j * plan.sample)) (footprint row row_end)
                  ((row ≤ r) × (r < row_end)) c columns holds next 0 segments tiling
                  (omega arith, within) (omega arith) ui.1)
                none_later,
          )
        ]
      ]

  -- The bands that lie end to end from `at` on, as the footprints that are walked over.
  all_bands :
      (at : ℕ) (bands : List (ℕ × ℕ)) (next : ℕ → ℕ)
      → Tiling next at rows bands
      → (footprints : List SlabFootprint) × ((w : Walked S P)
          → over_runs bands (over_segments nan nought source plan control report visit begin end) w
            ≡ for_each footprints walk_over w)
        × Once at footprints
  unfolding for_each rows columns over_segments footprint walk_over
  all_bands at [] next t = ([], (λ w. refl), (λ i j c r ui vj. inr (omega (arith, vj.1), tt)))
  all_bands at ((first, last) ∷ bands) next (starts, _, h, l, t) =
      let (later, run, once) = all_bands last bands next t in
      let most = plan_units_affordable plan (last - first) in
      let (segments, tiling, same) =
        in_steps-Tiling (suc columns) (by_runs most columns) columns
          (λ column column_end. walk_over (footprint first last column column_end)) 0
          (by_runs-Advances most columns (plan_units_affordable_positive plan (last - first)))
          (omega arith) (omega arith) in
      let here = map (λ s. footprint first last s.0 s.1) segments in
      (
        here ++ later,
        (λ w.
            ap
              (λ m. resume m (
                over_runs bands
                  (over_segments nan nought source plan control report visit begin end)))
              (same w ∙ sym (for_each-map walk_over (λ s. footprint first last s.0 s.1) segments w))
            ∙ ap (resume (for_each here walk_over w)) (fun_ext run)
            ∙ sym (for_each-append walk_over here later w)),
        subst (λ (a : ℕ). Once a (map (λ s. footprint first last s.0 s.1) segments ++ later)) starts
            (band_before first last segments (by_runs most columns) later (omega arith) l tiling
              once),
      )

  -- OverBands of a plan that steps by something along every axis, of a plane whose lengths do not wrap
  -- when they are rounded up to a chunk or to a sample: its loops end, and it is a number of footprints
  -- walked over one after another until one fails; and each pixel of the plane's sample is in just one of
  -- those footprints.
  pub over_bands-Covers :
      (footprints : List SlabFootprint) × ((w : Walked S P)
        → over_bands nan nought source plan control report visit begin end w
          ≡ for_each footprints
              (λ f. over nan nought source plan control report visit f begin end)
              w)
      × ((i j : ℕ)
          → i * plan.sample < plan.u_length
          → j * plan.sample < plan.v_length
          → OnlyOne (Holds (i * plan.sample) (j * plan.sample)) footprints)
  unfolding over_bands rows walk_over
  over_bands-Covers =
      let (bands, tiling, same) =
        in_steps-Tiling (suc rows) (by_runs plan.band_rows rows) rows
          (over_segments nan nought source plan control report visit begin end) 0
          (by_runs-Advances plan.band_rows rows plane.bands) (omega arith) (omega arith) in
      let (footprints, run, once) = all_bands 0 bands (by_runs plan.band_rows rows) tiling in
      (
        footprints,
        (λ w. same w ∙ run w),
        (λ i j hu hv.
            let (c, lc, sc) =
              (enumerated plan.u_length plan.chunk_u plan.sample plane.wide plane.samples
                  plane.u_chunks plane.u_samples).complete
                i hu in
            let (r, lr, sr) =
              (enumerated plan.v_length plan.chunk_v plan.sample plane.high plane.samples
                  plane.v_chunks plane.v_samples).complete
                j hv in
            elim (once i j c r (hu, lc, sc) (hv, lr, sr)) [
              | inl (_, one) ↦ one
              | inr (past, _) ↦ absurd (omega arith)
            ]),
      )
