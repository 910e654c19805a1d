-- ===== src/Steps.antt =====
-- Loops that do something to a world at each step and stop at the first error: what the walks over
-- channels, bands and blocks (src/reduce/pass.h) and over the pieces of a sample
-- (src/read/pieces_read.cc) have in common.
pub mod Tiling
use carta_zarr.Base.{
  ℕ, zero, suc, ◌+◌, ◌-◌, min, List, [], ◌∷◌, Option, none, some, Result, ok, err, if◌then◌else◌,
  ltb,
}

-- What it leaves of the world, and its answer: `none` where a loop ran out of fuel.
abbrev pub Action : Type 0 → Type 0
Action W = W → W × Option (Result (Unit {0}))

-- `if (!done) return done.error();`, and on.
unfoldable pub resume :
    {W : Type 0} → W × Option (Result (Unit {0})) → Action W → W × Option (Result (Unit {0}))
resume (w, none) rest = (w, none)
resume (w, some (err e)) rest = (w, some (err e))
resume (w, some (ok _)) rest = rest w

module _ {W : Type 0} where
  unfoldable pub done : Action W
  done w = (w, some (ok tt))

  unfoldable pub answer : Result (Unit {0}) → Action W
  answer r w = (w, some r)

  -- for (at = …; at < end;) { next = …; body(at, next); at = next; }
  unfoldable pub in_steps : ℕ → (ℕ → ℕ) → ℕ → (ℕ → ℕ → Action W) → ℕ → Action W
  unfolding resume done
  in_steps zero next end body at w = (w, none)
  in_steps (suc fuel) next end body at w =
      let round = resume (body at (next at) w) (in_steps fuel next end body (next at)) in
      if ltb at end then round else done w

  -- for (const auto& item : items)
  unfoldable pub for_each : {A : Type 0} → List A → (A → Action W) → Action W
  unfolding resume done
  for_each [] body w = done w
  for_each (a ∷ items) body w = resume (body a w) (for_each items body)

-- The step of a loop that takes `most` at a time, or what is left: at + min(most, end - at).
abbrev pub by_runs : ℕ → ℕ → ℕ → ℕ
by_runs most end at = at + min most (end - at)
