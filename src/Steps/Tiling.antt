-- ===== src/Steps/Tiling.antt =====
-- A loop whose step always moves on goes over runs that lie end to end.
use carta_zarr.Base.{
  ℕ, zero, suc, ◌+◌, ◌≤◌, ◌<◌, ◌≡◌, refl, ap, List, [], ◌∷◌, arith, ltb, Bool-cases, inl, inr,
  ltb→lt, ltb→le,
}
use mathlib.Core.Path.{fun_ext}
use carta_zarr.Steps.{Action, resume, in_steps, for_each, by_runs}

-- The step moves on, and not past the end.
abbrev pub Advances : (ℕ → ℕ) → ℕ → Type 0
Advances next end = (at : ℕ) → at < end → (at < next at) × (next at ≤ end)

-- The runs from `at` to `end`, each from where the one before it ended to where the step leads from there.
abbrev pub Tiling : (ℕ → ℕ) → ℕ → ℕ → List (ℕ × ℕ) → Type 0
Tiling next at end [] = at ≡ end
Tiling next at end ((first, last) ∷ runs) =
    (first ≡ at) × (last ≡ next at) × (at < last) × (last ≤ end) × Tiling next last end runs

module _ {W : Type 0} where
  -- Each run's body, in order, until one fails.
  abbrev pub over_runs : List (ℕ × ℕ) → (ℕ → ℕ → Action W) → Action W
  over_runs runs body = for_each runs (λ r. body r.0 r.1)

  pub in_steps-Tiling :
      (fuel : ℕ) (next : ℕ → ℕ) (end : ℕ) (body : ℕ → ℕ → Action W) (at : ℕ)
      → Advances next end
      → at ≤ end
      → end < at + fuel
      → (runs : List (ℕ × ℕ)) × Tiling next at end runs
        × ((w : W) → in_steps fuel next end body at w ≡ over_runs runs body w)
  unfolding in_steps for_each
  in_steps-Tiling zero next end body at adv h enough = absurd (omega arith)
  in_steps-Tiling (suc fuel) next end body at adv h enough = elim (Bool-cases (ltb at end)) [
    | inr out ↦ ([], omega (arith, ltb→le at end out), λ w. rw out refl)
    | inl inside ↦
        let (forward, within) = adv at (ltb→lt at end inside) in
        let (runs, tiling, same) =
          in_steps-Tiling fuel next end body (next at) adv within (omega arith) in
        (
          (at, next at) ∷ runs,
          (refl, refl, forward, within, tiling),
          λ w. rw inside (ap (λ rest. resume (body at (next at) w) rest) (fun_ext same)),
        )
  ]

pub by_runs-Advances : (most end : ℕ) → 0 < most → Advances (by_runs most end) end
by_runs-Advances most end pm at h = (omega arith, omega arith)
