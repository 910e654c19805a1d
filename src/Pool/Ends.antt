-- ===== src/Pool/Ends.antt =====
-- A call of WorkPool::Run (src/work_pool.cc): what steps are left to its workers, their waits apart.
use carta_zarr.Base.{
  ℕ, suc, ◌+◌, ◌-◌, ◌*◌, ◌<◌, ◌≡◌, refl, ◌⊎◌, inl, inr, List, [], ◌∷◌, some, arith, ltb, get_elem?,
  length, length-set, ◌∙◌, ltb→lt, Bool-cases,
}
use carta_zarr.Pool.{
  Phase, parked, claiming, running, leaving, finished, Call, start, Step, wake, claim, drain,
  complete, throw, count_out, Reach, here, after, IsReturned,
}
use carta_zarr.Pool.Once.{sum_over, sum_over-set, is_out, pool_workers, Reach-Inv, start-Inv}

weight : Phase → ℕ
weight parked = 3
weight claiming = 2
weight (running t) = 4
weight leaving = 1
weight finished = 0

-- The steps that are left, at most.
pub steps_left : Call → ℕ
steps_left c = 4 * (c.tasks - c.next) + sum_over weight c.workers

pub Step-steps_left : {c d : Call} → Step c d → steps_left d < steps_left c
unfolding steps_left weight
Step-steps_left {c} (wake w e) = omega (arith, sum_over-set weight c.workers w parked claiming e)
Step-steps_left {c} (claim w e l) =
    omega
      (arith, ltb→lt c.next c.tasks l, sum_over-set weight c.workers w claiming (running c.next) e)
Step-steps_left {c} (drain w e l) =
    omega (arith, sum_over-set weight c.workers w claiming leaving e)
Step-steps_left {c} (complete w t e) =
    omega (arith, sum_over-set weight c.workers w (running t) claiming e)
Step-steps_left {c} (throw w t x e) =
    omega (arith, sum_over-set weight c.workers w (running t) leaving e)
Step-steps_left {c} (count_out w e) =
    omega (arith, sum_over-set weight c.workers w leaving finished e)

-- A worker in `p` that has not counted itself out has a step to make.
worker_moves :
    (c : Call) (w : ℕ) (p : Phase)
    → get_elem? c.workers w ≡ some p
    → (p ≡ finished) ⊎ ((d : Call) × Step c d)
worker_moves c w parked e = inr (_, wake w e)
worker_moves c w claiming e = elim (Bool-cases (ltb c.next c.tasks)) [
  | inl more ↦ inr (_, claim w e more)
  | inr less ↦ inr (_, drain w e less)
]
worker_moves c w (running t) e = inr (_, complete w t e)
worker_moves c w leaving e = inr (_, count_out w e)
worker_moves c w finished e = inl refl

-- Either everybody has counted themselves out, or somebody can step.
somebody :
    (c : Call) (ps : List Phase)
    → ((w : ℕ) (p : Phase) → get_elem? ps w ≡ some p → (p ≡ finished) ⊎ ((d : Call) × Step c d))
    → (sum_over is_out ps ≡ 0) ⊎ ((d : Call) × Step c d)
unfolding sum_over is_out
somebody c [] each = inl refl
somebody c (p ∷ ps) each = elim (each 0 p refl) [
  | inr step ↦ inr step
  | inl out ↦ elim (somebody c ps (λ w. each (suc w))) [
    | inr step ↦ inr step
    | inl rest ↦ inl (rw out (omega arith))
  ]
]

Step-length : {c d : Call} → Step c d → length d.workers ≡ length c.workers
Step-length {c} (wake w e) = length-set c.workers w claiming
Step-length {c} (claim w e l) = length-set c.workers w (running c.next)
Step-length {c} (drain w e l) = length-set c.workers w leaving
Step-length {c} (complete w t e) = length-set c.workers w claiming
Step-length {c} (throw w t x e) = length-set c.workers w leaving
Step-length {c} (count_out w e) = length-set c.workers w finished

start-length : (threads tasks : ℕ) → 0 < length (start threads tasks).workers
unfolding start
start-length threads tasks = omega arith

Reach-length : {c d : Call} → Reach c d → length d.workers ≡ length c.workers
Reach-length here = refl
Reach-length (after r s) = Step-length s ∙ Reach-length r

-- When the sum is 0 the caller has drained, and nobody of the pool is out.
all_out :
    (ps : List Phase)
    → 0 < length ps
    → sum_over is_out ps ≡ 0
    → (get_elem? ps 0 ≡ some finished) × (sum_over is_out (pool_workers ps) ≡ 0)
unfolding sum_over is_out
all_out [] l z = absurd (omega arith)
all_out (finished ∷ ps) l z = (refl, omega arith)
all_out (parked ∷ ps) l z = absurd (omega arith)
all_out (claiming ∷ ps) l z = absurd (omega arith)
all_out (leaving ∷ ps) l z = absurd (omega arith)
all_out (running u ∷ ps) l z = absurd (omega arith)

-- Whatever state its workers' steps have brought a call of Run to, a worker can step or nobody is out, and
-- every step leaves fewer of them; whether that worker is awake is what Wakes is about.
pub Run_goes_on :
    (threads tasks : ℕ) (c : Call)
    → Reach (start threads tasks) c
    → (IsReturned c ⊎ ((d : Call) × Step c d))
      × ((d : Call) → Step c d → steps_left d < steps_left c)
Run_goes_on threads tasks c r =
    let i = Reach-Inv (start-Inv threads tasks) r in
    let full : 0 < length c.workers = rw (Reach-length r) (start-length threads tasks) in
    (
      elim (somebody c c.workers (worker_moves c)) [
        | inr step ↦ inr step
        | inl out ↦
            let (caller, rest) = all_out c.workers full out in
            inl (record { caller = caller; none_out = i.out ∙ rest })
      ],
      λ d. Step-steps_left,
    )
