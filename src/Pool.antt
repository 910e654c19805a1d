-- ===== src/Pool.antt =====
-- The library's own threads: how rows are shared out among tasks (src/work_pool.cc and
-- src/reduce/task_split.h), and one call of WorkPool::Run as steps of its workers.
pub mod Rows
pub mod Ends
pub mod Once
pub mod Wakes
use carta_zarr.Base.{
  ℕ, zero, suc, ◌+◌, ◌-◌, ◌*◌, ◌/◌, min, max, Bool, true, false, ◌||◌, not, List, [], ◌∷◌, Option,
  none, some, if◌then◌else◌, ltb, leb, ◌==◌, ◌≡◌, get_elem?, set, add64, sub64, mul64,
}

-- PlanRowTasks
unfoldable pub plan_row_tasks : ℕ → ℕ → ℕ → ℕ → ℕ
plan_row_tasks row_pixels rows max_tasks least_pixels =
    let pixels = mul64 row_pixels rows in
    let affordable = max 1 (pixels / max 1 least_pixels) in
    if rows == 0 || row_pixels == 0 || leb max_tasks 1
    then (if rows == 0 then 0 else 1)
    else min (min max_tasks affordable) rows

-- struct RowRange
pub record RowRange : Type 0 where
  pub first : ℕ
  pub last : ℕ

-- TaskRows
unfoldable pub task_rows : ℕ → ℕ → ℕ → RowRange
task_rows task tasks rows =
    let per_task = sub64 (add64 rows tasks) 1 / tasks in
    let first = mul64 task per_task in
    record { first = min first rows; last = min (add64 first per_task) rows }

-- TaskSplit: the constructor's `_most`, and Tasks. kLeastPixelsPerTask is set by the build.
pub split_most : ℕ → ℕ → ℕ → ℕ
split_most workers budget_bytes accumulator_bytes =
    min workers (max 1 (budget_bytes / max 1 accumulator_bytes))

pub split_tasks : ℕ → ℕ → ℕ → ℕ → ℕ
unfolding plan_row_tasks
split_tasks most least_pixels_per_task unit_pixels units =
    plan_row_tasks unit_pixels units most least_pixels_per_task

-- TaskSplit::Run: the runs that its body is called on, by task, leaving out the empty ones.
pub share_calls : ℕ → ℕ → ℕ → List (ℕ × ℕ × ℕ)
share_calls zero tasks units = []
share_calls (suc left) tasks units =
    let task = tasks - suc left in
    let share = task_rows task tasks units in
    let rest = share_calls left tasks units in
    if share.first == share.last then rest else (task, share.first, share.last) ∷ rest

pub split_run : ℕ → ℕ → List (ℕ × ℕ × ℕ)
unfolding share_calls
split_run tasks units = if leb tasks 1 then (0, 0, units) ∷ [] else share_calls tasks tasks units

-- What a worker is doing during one call of Run: it has not seen the call yet; it is about to take a
-- task in DrainTasks; it is running one; DrainTasks has returned; or it has counted itself out.
pub data Phase : Type 0 where
  parked claiming leaving finished : Phase
  running : ℕ → Phase

-- The pool's fields during one call, its workers' phases (the calling thread is worker 0), and the
-- tasks whose body has returned.
pub record Call : Type 0 where
  pub tasks : ℕ
  pub next : ℕ
  pub out : ℕ
  pub failure : Option ℕ
  pub workers : List Phase
  pub done : List ℕ

unfoldable pub parked_workers : ℕ → List Phase
parked_workers zero = []
parked_workers (suc n) = parked ∷ parked_workers n

-- Run's first block: the fields set, each of the `threads` started workers counted, the caller
-- about to drain.
unfoldable pub start : ℕ → ℕ → Call
unfolding parked_workers
start threads tasks = record {
  tasks = tasks;
  next = 0;
  out = threads;
  failure = none;
  workers = claiming ∷ parked_workers threads;
  done = [];
}

-- Worker's last block, `--_running`; the caller, worker 0, is not counted there.
unfoldable pub leave : ℕ → ℕ → ℕ
leave zero out = out
leave (suc w) out = out - 1

unfoldable pub keep_first : Option ℕ → ℕ → Option ℕ
keep_first none e = some e
keep_first (some e') e = some e'

-- One step of worker `w`, as though it were awake whenever it has one to make: whether it is, and who
-- notifies it, is in Wakes, whose moves are these steps where they can be made.
pub data Step (c : Call) : Call → Type 0 where
  -- it sees the new generation
  wake :
      (w : ℕ)
      → get_elem? c.workers w ≡ some parked
      → Step c (record c { workers = set c.workers w claiming })
  -- it takes `_next++` under the lock
  claim :
      (w : ℕ)
      → get_elem? c.workers w ≡ some claiming
      → ltb c.next c.tasks ≡ true
      → Step c (record c { next = suc c.next; workers = set c.workers w (running c.next) })
  -- it finds no task left, and returns from DrainTasks
  drain :
      (w : ℕ)
      → get_elem? c.workers w ≡ some claiming
      → ltb c.next c.tasks ≡ false
      → Step c (record c { workers = set c.workers w leaving })
  -- its body returns
  complete :
      (w t : ℕ)
      → get_elem? c.workers w ≡ some (running t)
      → Step c (record c { workers = set c.workers w claiming; done = t ∷ c.done })
  -- its body throws `e`: the first failure is kept, every task not yet claimed given up
  throw :
      (w t e : ℕ)
      → get_elem? c.workers w ≡ some (running t)
      → Step c (record c {
        next = c.tasks;
        failure = keep_first c.failure e;
        workers = set c.workers w leaving;
      })
  -- it counts itself out under the lock, or, being the caller, goes on to wait
  count_out :
      (w : ℕ)
      → get_elem? c.workers w ≡ some leaving
      → Step c (record c { out = leave w c.out; workers = set c.workers w finished })

pub data Reach (c : Call) : Call → Type 0 where
  here : Reach c c
  after : {d e : Call} → Reach c d → Step d e → Reach c e

-- Run's wait: the caller has drained, and no started worker is still out.
pub record IsReturned (c : Call) : Type 0 where
  pub caller : get_elem? c.workers 0 ≡ some finished
  pub none_out : c.out ≡ 0
