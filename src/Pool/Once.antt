-- ===== src/Pool/Once.antt =====
-- One call of WorkPool::Run, whatever order its workers step in.
use carta_zarr.Base.{
  ℕ, zero, suc, ◌+◌, ◌-◌, ◌≤◌, ◌<◌, ◌≡◌, refl, ◌∙◌, List, [], ◌∷◌, Option, none, some, arith, ltb,
  ◌==◌, if◌then◌else◌, get_elem?, set, ltb→lt, ltb→le,
}
use carta_zarr.Pool.{
  Phase, parked, claiming, running, leaving, finished, Call, start, parked_workers, leave,
  keep_first, Step, wake, claim, drain, complete, throw, count_out, Reach, here, after, IsReturned,
}

-- How often `t` stands in a list, and how many workers are running it.
pub count : ℕ → List ℕ → ℕ
count t [] = 0
count t (x ∷ xs) = (if x == t then 1 else 0) + count t xs

pub runs_it : ℕ → Phase → ℕ
runs_it t (running u) = if u == t then 1 else 0
runs_it t _ = 0

unfoldable pub is_out : Phase → ℕ
is_out finished = 0
is_out _ = 1

-- Whether a worker has seen that no task is left.
pub is_done : Phase → ℕ
is_done leaving = 1
is_done finished = 1
is_done _ = 0

-- A sum over the workers.
unfoldable pub sum_over : (Phase → ℕ) → List Phase → ℕ
sum_over f [] = 0
sum_over f (p ∷ ps) = f p + sum_over f ps

pub sum_over-set :
    (f : Phase → ℕ) (ps : List Phase) (w : ℕ) (p q : Phase)
    → get_elem? ps w ≡ some p
    → sum_over f (set ps w q) + f p ≡ sum_over f ps + f q
unfolding sum_over
sum_over-set f [] w p q e = cc
sum_over-set f (x ∷ ps) zero p q e = let same : x ≡ p = ground arith in rw same (omega arith)
sum_over-set f (x ∷ ps) (suc w) p q e = omega (arith, sum_over-set f ps w p q e)

-- Every worker but the calling thread.
abbrev pub pool_workers : List Phase → List Phase
pool_workers [] = []
pool_workers (p ∷ ps) = ps

abbrev counted : ℕ → ℕ → ℕ
counted zero n = 0
counted (suc w) n = n

pool_workers-set :
    (ps : List Phase) (w : ℕ) (p q : Phase)
    → get_elem? ps w ≡ some p
    → sum_over is_out (pool_workers (set ps w q)) + counted w (is_out p)
      ≡ sum_over is_out (pool_workers ps) + counted w (is_out q)
pool_workers-set [] w p q e = cc
pool_workers-set (x ∷ ps) zero p q e = omega arith
pool_workers-set (x ∷ ps) (suc w) p q e = sum_over-set is_out ps w p q e

-- How often `t` has been taken: it was once if it is below `next`.
abbrev pub taken : ℕ → ℕ → ℕ
taken t next = if ltb t next then 1 else 0

taken_mono : (t m n : ℕ) → m ≤ n → taken t m ≤ taken t n
taken_mono t m n h = ground arith

keep_first-ne : (f : Option ℕ) (x : ℕ) → keep_first f x ≡ none → ⊥
unfolding keep_first
keep_first-ne none x e = cc
keep_first-ne (some y) x e = cc

leave-eq : (w out : ℕ) → leave w out ≡ out - counted w 1
unfolding leave
leave-eq zero out = omega arith
leave-eq (suc w) out = refl

counted-zero : (w : ℕ) → counted w 0 ≡ 0
counted-zero zero = refl
counted-zero (suc w) = refl

pub record Inv (c : Call) : Type 0 where
  pub bound : c.next ≤ c.tasks
  pub once : (t : ℕ) → count t c.done + sum_over (runs_it t) c.workers ≤ taken t c.next
  pub exact :
      c.failure ≡ none → (t : ℕ) → count t c.done + sum_over (runs_it t) c.workers ≡ taken t c.next
  pub ended : 0 < sum_over is_done c.workers → c.next ≡ c.tasks
  pub out : c.out ≡ sum_over is_out (pool_workers c.workers)

Step-Inv : {c d : Call} → Step c d → Inv c → Inv d
unfolding count runs_it is_out is_done
Step-Inv {c} (wake w e) i = record {
  bound = i.bound;
  once = λ t. omega (arith, i.once t, sum_over-set (runs_it t) c.workers w parked claiming e);
  exact = λ n t. omega (arith, i.exact n t, sum_over-set (runs_it t) c.workers w parked claiming e);
  ended = λ h. i.ended (omega (arith, sum_over-set is_done c.workers w parked claiming e));
  out = omega (arith, i.out, pool_workers-set c.workers w parked claiming e);
}
Step-Inv {c} (claim w e l) i = record {
  bound = omega (arith, ltb→lt c.next c.tasks l);
  once = λ t.
      ground (arith, i.once t, sum_over-set (runs_it t) c.workers w claiming (running c.next) e);
  exact = λ n t.
      ground (arith, i.exact n t, sum_over-set (runs_it t) c.workers w claiming (running c.next) e);
  ended = λ h. absurd (
      omega (
        arith,
        ltb→lt c.next c.tasks l,
        i.ended (omega (arith, sum_over-set is_done c.workers w claiming (running c.next) e)),
      ));
  out = omega (arith, i.out, pool_workers-set c.workers w claiming (running c.next) e);
}
Step-Inv {c} (drain w e l) i = record {
  bound = i.bound;
  once = λ t. omega (arith, i.once t, sum_over-set (runs_it t) c.workers w claiming leaving e);
  exact =
      λ n t. omega (arith, i.exact n t, sum_over-set (runs_it t) c.workers w claiming leaving e);
  ended = λ h. omega (arith, i.bound, ltb→le c.next c.tasks l);
  out = omega (arith, i.out, pool_workers-set c.workers w claiming leaving e);
}
Step-Inv {c} (complete w t' e) i = record {
  bound = i.bound;
  once = λ t. omega (arith, i.once t, sum_over-set (runs_it t) c.workers w (running t') claiming e);
  exact = λ n t.
      omega (arith, i.exact n t, sum_over-set (runs_it t) c.workers w (running t') claiming e);
  ended = λ h. i.ended (omega (arith, sum_over-set is_done c.workers w (running t') claiming e));
  out = omega (arith, i.out, pool_workers-set c.workers w (running t') claiming e);
}
Step-Inv {c} (throw w t' x e) i = record {
  bound = omega arith;
  once = λ t. omega (
    arith,
    i.once t,
    taken_mono t c.next c.tasks i.bound,
    sum_over-set (runs_it t) c.workers w (running t') leaving e,
  );
  exact = λ n. absurd (keep_first-ne c.failure x n);
  ended = λ h. refl;
  out = omega (arith, i.out, pool_workers-set c.workers w (running t') leaving e);
}
Step-Inv {c} (count_out w e) i = record {
  bound = i.bound;
  once = λ t. omega (arith, i.once t, sum_over-set (runs_it t) c.workers w leaving finished e);
  exact =
      λ n t. omega (arith, i.exact n t, sum_over-set (runs_it t) c.workers w leaving finished e);
  ended = λ h. i.ended (omega (arith, sum_over-set is_done c.workers w leaving finished e));
  out = omega (
    arith,
    i.out,
    leave-eq w c.out,
    counted-zero w,
    pool_workers-set c.workers w leaving finished e,
  );
}

parked-sums :
    (n : ℕ)
    → (sum_over is_out (parked_workers n) ≡ n)
      × (sum_over is_done (parked_workers n) ≡ 0)
      × ((t : ℕ) → sum_over (runs_it t) (parked_workers n) ≡ 0)
unfolding parked_workers sum_over is_out is_done runs_it
parked-sums zero = (refl, refl, λ t. refl)
parked-sums (suc n) =
    let (o, d, r) = parked-sums n in (omega arith, omega arith, λ t. omega (arith, r t))

pub start-Inv : (threads tasks : ℕ) → Inv (start threads tasks)
unfolding start count sum_over runs_it is_out is_done
start-Inv threads tasks =
    let (o, d, r) = parked-sums threads in
    record {
      bound = omega arith;
      once = λ t. ground (arith, r t);
      exact = λ _ t. ground (arith, r t);
      ended = λ h. absurd (omega arith);
      out = omega arith;
    }

pub Reach-Inv : {c d : Call} → Inv c → Reach c d → Inv d
Reach-Inv i here = i
Reach-Inv i (after r s) = Step-Inv s (Reach-Inv i r)

Step-tasks : {c d : Call} → Step c d → d.tasks ≡ c.tasks
Step-tasks (wake w e) = refl
Step-tasks (claim w e l) = refl
Step-tasks (drain w e l) = refl
Step-tasks (complete w t e) = refl
Step-tasks (throw w t x e) = refl
Step-tasks (count_out w e) = refl

Reach-tasks : {c d : Call} → Reach c d → d.tasks ≡ c.tasks
Reach-tasks here = refl
Reach-tasks (after r s) = Step-tasks s ∙ Reach-tasks r

tasks-start : (threads tasks : ℕ) → (start threads tasks).tasks ≡ tasks
unfolding start
tasks-start threads tasks = refl

idle : (ps : List Phase) (t : ℕ) → sum_over is_out ps ≡ 0 → sum_over (runs_it t) ps ≡ 0
unfolding sum_over runs_it is_out
idle [] t z = refl
idle (parked ∷ ps) t z = absurd (omega arith)
idle (claiming ∷ ps) t z = absurd (omega arith)
idle (leaving ∷ ps) t z = absurd (omega arith)
idle (running u ∷ ps) t z = absurd (omega arith)
idle (finished ∷ ps) t z = omega (arith, idle ps t (omega arith))

-- When nobody is out, no body is running.
none_running :
    (ps : List Phase) (t : ℕ)
    → get_elem? ps 0 ≡ some finished
    → sum_over is_out (pool_workers ps) ≡ 0
    → (sum_over (runs_it t) ps ≡ 0) × (0 < sum_over is_done ps)
unfolding sum_over runs_it is_done
none_running [] t e z = cc
none_running (p ∷ ps) t e z =
    let same : p ≡ finished = ground arith in rw same (omega (arith, idle ps t z), omega arith)

-- Whatever order the workers step in, when a call of Run over `tasks` tasks returns without a
-- failure each task has run exactly once, and nothing else has; and with one, no task has run twice.
pub Run_each_once :
    (threads tasks : ℕ) (c : Call)
    → Reach (start threads tasks) c
    → IsReturned c
    → (t : ℕ)
    → (count t c.done ≤ taken t tasks) × (c.failure ≡ none → count t c.done ≡ taken t tasks)
Run_each_once threads tasks c r v t =
    let i = Reach-Inv (start-Inv threads tasks) r in
    let (idle, over) = none_running c.workers t v.caller (omega (arith, v.none_out, i.out)) in
    let last : c.next ≡ tasks = i.ended over ∙ Reach-tasks r ∙ tasks-start threads tasks in
    (rw (← last) (omega (arith, i.once t)), λ n. rw (← last) (omega (arith, i.exact n t)))
