-- ===== src/Pool/Wakes/Returns.antt =====
-- A call of WorkPool::Run (src/work_pool.cc) returns: no wait of it is for ever.
use carta_zarr.Base.{
  ℕ, zero, suc, ◌+◌, ◌-◌, ◌*◌, ◌<◌, ◌≡◌, refl, sym, ◌∙◌, ◌⊎◌, inl, inr, Bool, true, false, List, [],
  ◌∷◌, some, if◌then◌else◌, ◌==◌, ==→eq, arith, Bool-cases, get_elem?, get_or, set,
}
use carta_zarr.Pool.{
  Phase, parked, claiming, running, leaving, finished, Call, start, Step, wake, claim, drain,
  complete, throw, count_out, Reach, IsReturned, leave,
}
use carta_zarr.Pool.{here as no_step, after as then_step}
use carta_zarr.Pool.Once.{sum_over, is_out, pool_workers, Reach-Inv, start-Inv}
use carta_zarr.Pool.Ends.{steps_left, Step-steps_left, Run_goes_on}
use carta_zarr.Pool.Wakes.{
  Waits, begin, actor, is_able, notify_all, notify_done, caller_after, Move, step, notify, sleep,
  give_back, Moves, here, after,
}

-- A step is made by a worker that is out.
Step-out :
    {c d : Call} (made : Step c d)
    → (p : Phase) × (get_elem? c.workers (actor made) ≡ some p) × (is_out p ≡ 1)
unfolding actor is_out
Step-out (wake w e) = (parked, e, refl)
Step-out (claim w e l) = (claiming, e, refl)
Step-out (drain w e l) = (claiming, e, refl)
Step-out (complete w t e) = (running t, e, refl)
Step-out (throw w t x e) = (running t, e, refl)
Step-out (count_out w e) = (leaving, e, refl)

out_of :
    (ps : List Phase) (w : ℕ) (p : Phase)
    → sum_over is_out ps ≡ 0
    → get_elem? ps w ≡ some p
    → is_out p ≡ 0
unfolding sum_over
out_of [] w p z e = absurd cc
out_of (q ∷ ps) zero p z e = let same : q ≡ p = cc in rw (← same) (omega arith)
out_of (q ∷ ps) (suc w) p z e = out_of ps w p (omega arith) e

-- The caller has drained its share: it makes no more steps.
caller_out :
    (ps : List Phase) (p : Phase)
    → get_elem? ps 0 ≡ some finished
    → get_elem? ps 0 ≡ some p
    → is_out p ≡ 0
unfolding is_out
caller_out ps p f e = let same : finished ≡ p = cc in rw (← same) refl

worker_out :
    (ps : List Phase) (w : ℕ) (p : Phase)
    → sum_over is_out (pool_workers ps) ≡ 0
    → get_elem? ps (suc w) ≡ some p
    → is_out p ≡ 0
worker_out [] w p z e = absurd cc
worker_out (q ∷ ps) w p z e = out_of ps w p z e

-- A call that has returned makes no step.
no_step_left :
    (c : Call) (w : ℕ) (p : Phase)
    → IsReturned c
    → c.out ≡ sum_over is_out (pool_workers c.workers)
    → get_elem? c.workers w ≡ some p
    → is_out p ≡ 0
no_step_left c zero p v o e = caller_out c.workers p v.caller e
no_step_left c (suc w) p v o e = worker_out c.workers w p (sym o ∙ v.none_out) e

set_other : (ps : List Phase) (w : ℕ) (q : Phase) → get_elem? (set ps (suc w) q) 0 ≡ get_elem? ps 0
set_other [] w q = refl
set_other (p ∷ ps) w q = refl

-- The caller, asleep on `_done`, has drained its share, and a worker is out.
record IsWaiting (c : Call) : Type 0 where
  drained : get_elem? c.workers 0 ≡ some finished
  some_out : (c.out == 0) ≡ false

clash :
    {A : Type 0} (ps : List Phase) (p : Phase)
    → get_elem? ps 0 ≡ some finished
    → get_elem? ps 0 ≡ some p
    → is_out p ≡ 1
    → A
clash ps p f e one = absurd (omega (arith, caller_out ps p f e, one))

-- A step leaves the caller asleep only while it has something to wait for.
waits_on :
    {c d : Call} (made : Step c d) (caller_asleep : Bool)
    → IsWaiting c
    → caller_after made caller_asleep ≡ true
    → IsWaiting d
unfolding caller_after is_out notify_done leave
waits_on {c} (wake zero e) b v h = clash c.workers parked v.drained e refl
waits_on {c} (wake (suc w) e) b v h = record {
  drained = set_other c.workers w _ ∙ v.drained;
  some_out = v.some_out;
}
waits_on {c} (claim zero e l) b v h = clash c.workers claiming v.drained e refl
waits_on {c} (claim (suc w) e l) b v h = record {
  drained = set_other c.workers w _ ∙ v.drained;
  some_out = v.some_out;
}
waits_on {c} (drain zero e l) b v h = clash c.workers claiming v.drained e refl
waits_on {c} (drain (suc w) e l) b v h = record {
  drained = set_other c.workers w _ ∙ v.drained;
  some_out = v.some_out;
}
waits_on {c} (complete zero t e) b v h = clash c.workers (running t) v.drained e refl
waits_on {c} (complete (suc w) t e) b v h = record {
  drained = set_other c.workers w _ ∙ v.drained;
  some_out = v.some_out;
}
waits_on {c} (throw zero t x e) b v h = clash c.workers (running t) v.drained e refl
waits_on {c} (throw (suc w) t x e) b v h = record {
  drained = set_other c.workers w _ ∙ v.drained;
  some_out = v.some_out;
}
waits_on {c} (count_out zero e) b v h = clash c.workers leaving v.drained e refl
waits_on {c} (count_out (suc w) e) b v h = record {
  drained = set_other c.workers w _ ∙ v.drained;
  some_out = elim (Bool-cases ((c.out - 1) == 0)) [
    | inl none_out ↦ absurd (let bad = (rw none_out at h) in cc)
    | inr more ↦ more
  ];
}

-- A step puts nobody to sleep.
stays_awake : {c d : Call} (made : Step c d) (b : Bool) → caller_after made b ≡ true → b ≡ true
unfolding caller_after notify_done
stays_awake (wake w e) b h = h
stays_awake (claim w e l) b h = h
stays_awake (drain w e l) b h = h
stays_awake (complete w t e) b h = h
stays_awake (throw w t x e) b h = h
stays_awake (count_out zero e) b h = h
stays_awake {c} (count_out (suc w) e) b h = elim (Bool-cases ((c.out - 1) == 0)) [
  | inl none_out ↦ absurd (let bad = (rw none_out at h) in cc)
  | inr more ↦ (rw more at h)
]

notify_all_awake : (asleep : List Bool) (w : ℕ) → get_or (notify_all asleep) w false ≡ false
unfolding notify_all
notify_all_awake [] w = refl
notify_all_awake (a ∷ asleep) zero = refl
notify_all_awake (a ∷ asleep) (suc w) = notify_all_awake asleep w

-- Once Run has notified, no started worker is asleep; the caller is asleep only while a worker is out; and
-- when Run has returned, the caller has drained its share and nobody is out.
record IsSound (threads tasks : ℕ) (s : Waits) : Type 0 where
  reached : Reach (start threads tasks) s.call
  woken : s.unnotified ≡ false → (w : ℕ) → get_or s.asleep w false ≡ false
  waiting : s.caller_asleep ≡ true → IsWaiting s.call
  over : s.returned ≡ true → IsReturned s.call

Move-IsSound :
    (threads tasks : ℕ) {s t : Waits} → Move s t → IsSound threads tasks s → IsSound threads tasks t
Move-IsSound threads tasks {s} (step made able) v = record {
  reached = then_step v.reached made;
  woken = v.woken;
  waiting = λ h. waits_on made s.caller_asleep (v.waiting (stays_awake made s.caller_asleep h)) h;
  over = λ r.
      let (p, e, one) = Step-out made in
      let i = Reach-Inv (start-Inv threads tasks) v.reached in
      absurd (omega (arith, no_step_left s.call (actor made) p (v.over r) i.out e, one));
}
Move-IsSound threads tasks {s} (notify u) v = record {
  reached = v.reached;
  woken = λ _. notify_all_awake s.asleep;
  waiting = v.waiting;
  over = v.over;
}
Move-IsSound threads tasks {s} (sleep f a r o) v = record {
  reached = v.reached;
  woken = v.woken;
  waiting = λ _. record { drained = f; some_out = o };
  over = v.over;
}
Move-IsSound threads tasks {s} (give_back f a r o) v = record {
  reached = v.reached;
  woken = v.woken;
  waiting = v.waiting;
  over = λ _. record { caller = f; none_out = ==→eq s.call.out 0 o };
}

Moves-IsSound :
    (threads tasks : ℕ) {s t : Waits}
    → Moves s t
    → IsSound threads tasks s
    → IsSound threads tasks t
Moves-IsSound threads tasks here v = v
Moves-IsSound threads tasks (after ms m) v =
    Move-IsSound threads tasks m (Moves-IsSound threads tasks ms v)

begin-IsSound :
    (threads tasks : ℕ) (asleep : List Bool) → IsSound threads tasks (begin threads tasks asleep)
unfolding begin
begin-IsSound threads tasks asleep = record {
  reached = no_step;
  woken = λ u. absurd cc;
  waiting = λ a. absurd cc;
  over = λ r. absurd cc;
}

-- The moves that are left, at most.
caller_left : Waits → ℕ
caller_left s = if s.returned then 0 else (if s.caller_asleep then 1 else 2)

pub moves_left : Waits → ℕ
unfolding caller_left
moves_left s = 4 * steps_left s.call + (if s.unnotified then 1 else 0) + caller_left s

caller_left_most :
    (returned a b : Bool)
    → (if returned then 0 else (if a then 1 else 2))
      < (if returned then 0 else (if b then 1 else 2)) + 4
caller_left_most true a b = omega arith
caller_left_most false true true = omega arith
caller_left_most false true false = omega arith
caller_left_most false false true = omega arith
caller_left_most false false false = omega arith

Move-moves_left : {s t : Waits} → Move s t → moves_left t < moves_left s
unfolding moves_left caller_left
Move-moves_left {s} (step made able) = omega (
  arith,
  Step-steps_left made,
  caller_left_most s.returned (caller_after made s.caller_asleep) s.caller_asleep,
)
Move-moves_left {s} (notify u) = rw u (omega arith)
Move-moves_left {s} (sleep f a r o) = rw (a, r) (omega arith)
Move-moves_left {s} (give_back f a r o) = rw (a, r) (omega arith)

able_to :
    (threads tasks : ℕ) (s : Waits) (w : ℕ) (p : Phase)
    → IsSound threads tasks s
    → s.unnotified ≡ false
    → get_elem? s.call.workers w ≡ some p
    → is_out p ≡ 1
    → is_able s w ≡ true
unfolding is_able
able_to threads tasks s zero p v u e one = elim (Bool-cases s.caller_asleep) [
  | inl a ↦ clash s.call.workers p (v.waiting a).drained e one
  | inr a ↦ rw (u, a) refl
]
able_to threads tasks s (suc w) p v u e one = rw (v.woken u w) refl

-- A call of Run, whichever of its workers were asleep on `_wake` when it began, in whatever state its
-- moves have brought it to, the return or the throw of a task's body among them: it has returned, its own
-- share drained and no worker still out, or a thread that is awake can go on; and every move leaves fewer
-- of them.
pub Run_returns :
    (threads tasks : ℕ) (asleep : List Bool) (s : Waits)
    → Moves (begin threads tasks asleep) s
    → (((s.returned ≡ true) × IsReturned s.call) ⊎ ((t : Waits) × Move s t))
      × ((t : Waits) → Move s t → moves_left t < moves_left s)
Run_returns threads tasks asleep s ms =
    let v = Moves-IsSound threads tasks ms (begin-IsSound threads tasks asleep) in
    (
      elim (Bool-cases s.returned) [
        | inl r ↦ inl (r, v.over r)
        | inr r ↦ elim (Bool-cases s.unnotified) [
          | inl u ↦ inr (_, notify u)
          | inr u ↦ elim (Run_goes_on threads tasks s.call v.reached).0 [
            | inr (d, made) ↦
                let (p, e, one) = Step-out made in
                inr (_, step made (able_to threads tasks s (actor made) p v u e one))
            | inl done ↦ elim (Bool-cases s.caller_asleep) [
              | inl a ↦ absurd (let bad = (rw done.none_out at ((v.waiting a).some_out)) in cc)
              | inr a ↦ inr (_, give_back done.caller a r (rw done.none_out refl))
            ]
          ]
        ]
      ],
      λ t. Move-moves_left,
    )
