-- ===== src/ReadAhead/Player/Next.antt =====
-- The search of ReadingAhead::Served (src/read_ahead.cc) for the plane to decode ahead for an image.
use carta_zarr.Base.{ℕ, ◌≡◌, true, false, List, [], ◌∷◌, some, ◌⊎◌}
use carta_zarr.ReadAhead.{Run, RunSource, same_run}
use carta_zarr.ReadAhead.Player.{AnimatedPlane, find_plane}

-- The frame has no plane of the image, or one of the run that the image shows now.
abbrev pub IsPassed : RunSource → Run → ℕ → List AnimatedPlane → Type 0
IsPassed source run_now image planes =
    (plane : AnimatedPlane)
    → find_plane image planes ≡ some plane
    → same_run (source.runs plane.request) run_now ≡ true

abbrev pub ArePassed : RunSource → Run → ℕ → List (List AnimatedPlane) → Type 0
ArePassed source run_now image [] = Unit
ArePassed source run_now image (planes ∷ frames) =
    IsPassed source run_now image planes × ArePassed source run_now image frames

-- `plane` is the image's in the first frame that is not passed.
abbrev pub IsNext : RunSource → Run → ℕ → List (List AnimatedPlane) → AnimatedPlane → Type 0
IsNext source run_now image [] plane = ⊥
IsNext source run_now image (planes ∷ frames) plane =
    ((find_plane image planes ≡ some plane)
      × (same_run (source.runs plane.request) run_now ≡ false))
    ⊎ (IsPassed source run_now image planes × IsNext source run_now image frames plane)
