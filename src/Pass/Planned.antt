-- ===== src/Pass/Planned.antt =====
-- PlanPass of src/reduce/pass.cc: what every plan that it makes can be walked by.
use carta_zarr.Base.{
  ℕ, ◌<◌, ◌≡◌, Bool, not, ◌&&◌, Option, none, some, arith, Bool-cases, Option-cases, inl, inr,
  get_elem?, subst, refl, if◌then◌else◌,
}
use carta_zarr.Image.{ImageDescriptor, ChunkGeometry, ReadOptions}
use carta_zarr.Chunk.{ReadCost, read_cost, units_affordable}
use carta_zarr.Planes.{AxisMap, PlaneSelection}
use carta_zarr.Pass.{PassPlan, plan_pass, plan_costed, has_axis, swaps}

-- Nothing that a walk divides or steps by is zero, and the plan is of the planes that it was made for.
pub record IsReady (planes : PlaneSelection) (plan : PassPlan) : Type 0 where
  pub deep : 0 < plan.chunk_depth
  pub wide : 0 < plan.chunk_u
  pub high : 0 < plan.chunk_v
  pub samples : 0 < plan.sample
  pub bands : 0 < plan.band_rows
  pub layers : 0 < plan.layer_chunks
  pub same : plan.planes ≡ planes

plan_costed-IsReady :
    (descriptor : ImageDescriptor) (swap : Bool) (map : AxisMap) (planes : PlaneSelection)
    (sample chunk_u chunk_v depth : ℕ) (cost : ReadCost)
    → IsReady planes (plan_costed descriptor swap map planes sample chunk_u chunk_v depth cost)
unfolding plan_costed units_affordable
plan_costed-IsReady descriptor swap map planes sample chunk_u chunk_v depth cost = record {
  deep = omega arith;
  wide = omega arith;
  high = omega arith;
  samples = omega arith;
  bands = omega arith;
  layers = omega arith;
  same = refl;
}

-- An Option that holds only what `Q` is true of.
AllOf : {A : Type 0} → (A → Type 0) → Option A → Type 0
AllOf Q none = Unit
AllOf Q (some a) = Q a

AllOf-some : {A : Type 0} (Q : A → Type 0) (o : Option A) (a : A) → o ≡ some a → AllOf Q o → Q a
unfolding AllOf
AllOf-some Q none a e h = absurd cc
AllOf-some Q (some b) a e h = let one : b ≡ a = cc in subst Q one h

plan_pass-AllOf :
    (descriptor : ImageDescriptor) (geometry flag_geometry : ChunkGeometry) (map : AxisMap)
    (planes : PlaneSelection) (sample : ℕ) (options : ReadOptions)
    → AllOf (IsReady planes) (plan_pass descriptor geometry flag_geometry map planes sample options)
unfolding plan_pass AllOf
plan_pass-AllOf descriptor geometry flag_geometry map planes sample options =
    elim (Bool-cases (not (has_axis descriptor axis_u && has_axis descriptor axis_v))) [
      | inl gone ↦ rw (gone, plan_pass) tt
      | inr there ↦ elim (Option-cases (get_elem? geometry.chunk_shape axis_u)) [
        | inl e ↦ rw (there, e, plan_pass) tt
        | inr (chunk_u, e) ↦ elim (Option-cases (get_elem? geometry.chunk_shape axis_v)) [
          | inl f ↦ rw (there, e, f, plan_pass) tt
          | inr (chunk_v, f) ↦ elim (Option-cases (get_elem? geometry.chunk_shape map.spectral)) [
            | inl g ↦ rw (there, e, f, g, plan_pass) tt
            | inr (depth, g) ↦
                elim (Option-cases (read_cost descriptor geometry flag_geometry options)) [
                  | inl h ↦ rw (there, e, f, g, h, plan_pass) tt
                  | inr (cost, h) ↦
                      rw (there, e, f, g, h, plan_pass)
                        (plan_costed-IsReady descriptor (swaps geometry) map planes sample chunk_u
                          chunk_v depth cost)
                ]
          ]
        ]
      ]
    ]
  where
    axis_u : ℕ
    axis_u = if swaps geometry then map.y else map.x

    axis_v : ℕ
    axis_v = if swaps geometry then map.x else map.y

-- PlanPass: in every plan that it makes, the chunks hold an element or more along each axis, the sample
-- takes a step of one or more, a band holds a chunk row and a layer a chunk, whatever the image, its
-- layout and the read's options say; and the planes are those that it was given.
pub plan_pass-IsReady :
    (descriptor : ImageDescriptor) (geometry flag_geometry : ChunkGeometry) (map : AxisMap)
    (planes : PlaneSelection) (sample : ℕ) (options : ReadOptions) (plan : PassPlan)
    → plan_pass descriptor geometry flag_geometry map planes sample options ≡ some plan
    → IsReady planes plan
plan_pass-IsReady descriptor geometry flag_geometry map planes sample options plan made =
    AllOf-some (IsReady planes) _ plan made
      (plan_pass-AllOf descriptor geometry flag_geometry map planes sample options)
