-- ===== src/Pool/Rows.antt =====
-- The rows are shared out among the tasks, each row to one of them (PlanRowTasks and TaskRows in
-- src/work_pool.cc).
use carta_zarr.Base.{
  ℕ, suc, ◌+◌, ◌-◌, ◌*◌, ◌/◌, ◌≤◌, ◌<◌, ◌≡◌, min, max, arith, refl, add64_lem, sub64_lem, mul64_lem,
  u64_max,
}
use carta_zarr.Chunk.Grid.{div-bounds, le-div, div-lt}
use native.Mathlib.Nat.{mul-le-mul_right, mul-le-mul_left}
use carta_zarr.Pool.{RowRange, task_rows, plan_row_tasks}

-- The rows of one task when nothing is shared out evenly: ⌈rows / tasks⌉.
rows_per_task : ℕ → ℕ → ℕ
rows_per_task tasks rows = (rows + tasks - 1) / tasks

-- The row stands in the range.
pub record IsIn (r : RowRange) (row : ℕ) : Type 0 where
  pub low : r.first ≤ row
  pub high : row < r.last

-- What the words come to when nothing wraps around.
task_rows-eq :
    (task tasks rows : ℕ)
    → 0 < tasks
    → rows + tasks ≤ u64_max
    → task < tasks
    → (let p = rows_per_task tasks rows in
        ((task_rows task tasks rows).first ≡ min (task * p) rows)
        × ((task_rows task tasks rows).last ≡ min (task * p + p) rows))
unfolding task_rows rows_per_task
task_rows-eq task tasks rows some_tasks fits below =
    let p = (rows + tasks - 1) / tasks in
    let whole : p * tasks ≤ rows + tasks - 1 =
      omega (arith, div-bounds (rows + tasks - 1) tasks some_tasks) in
    let part : suc task * p ≤ tasks * p = mul-le-mul_right {m = suc task} {n = tasks} p below in
    let fit : task * p + p ≤ rows + tasks - 1 = omega arith in
    rw
      (
        add64_lem rows tasks (omega arith),
        sub64_lem (rows + tasks) 1 (omega arith) (omega arith),
        mul64_lem task p (omega arith),
        add64_lem (task * p) p (omega arith),
      )
      (refl, refl)

rows_per_task_lem :
    (tasks rows : ℕ)
    → 0 < tasks
    → 0 < rows
    → (0 < rows_per_task tasks rows) × (rows ≤ tasks * rows_per_task tasks rows)
unfolding rows_per_task
rows_per_task_lem tasks rows some_tasks some_rows = (
  le-div 1 tasks (rows + tasks - 1) some_tasks (omega arith),
  omega (arith, div-bounds (rows + tasks - 1) tasks some_tasks),
)

-- The task that a row goes to.
abbrev pub task_of : ℕ → ℕ → ℕ → ℕ
task_of tasks rows row = row / ((rows + tasks - 1) / tasks)

-- When nothing wraps around, TaskRows gives every row to one of the tasks, and to no other.
pub task_rows-partition :
    (tasks rows row : ℕ)
    → rows + tasks ≤ u64_max
    → 0 < tasks
    → row < rows
    → (t : ℕ) × (t < tasks)
      × IsIn (task_rows t tasks rows) row
      × ((u : ℕ) → u < tasks → IsIn (task_rows u tasks rows) row → u ≡ t)
task_rows-partition tasks rows row fits some_tasks in_rows =
    let p = rows_per_task tasks rows in
    let (some_each, enough) = rows_per_task_lem tasks rows some_tasks (omega arith) in
    let (above, under) = div-bounds row p some_each in
    let t = row / p in
    let t_ok : t < tasks = div-lt tasks p row some_each (omega arith) in
    let (f, l) = task_rows-eq t tasks rows some_tasks fits t_ok in
    (
      t,
      t_ok,
      record { low = rw f (omega arith); high = rw l (omega arith) },
      λ u u_ok r.
          let (g, h) = task_rows-eq u tasks rows some_tasks fits u_ok in
          let low : min (u * p) rows ≤ row = rw (← g) r.low in
          let high : row < min (u * p + p) rows = rw (← h) r.high in
          omega (
            arith,
            le-div u p row some_each (omega arith),
            div-lt (suc u) p row some_each (omega arith),
          ),
    )

afford : (n l x : ℕ) → n ≤ x / max 1 l → n * l ≤ x
afford n l x h = omega (
  arith,
  mul-le-mul_right {m = n} {n = x / max 1 l} l h,
  div-bounds x (max 1 l) (omega arith),
  mul-le-mul_left {m = l} {n = max 1 l} (x / max 1 l) (omega arith),
)

-- What PlanRowTasks promises for `n` tasks over rows of `row_pixels` pixels each.
pub record IsPlan (row_pixels rows max_tasks least_pixels n : ℕ) : Type 0 where
  -- nothing to run over when there are no rows, and somebody to run over them otherwise
  pub idle : rows ≡ 0 → n ≡ 0
  pub busy : 0 < rows → 0 < n
  -- no task without a row, and no more than there may be
  pub rowed : n ≤ rows
  pub most : n ≤ max 1 max_tasks
  -- when there are several, each has at least that many pixels to go over
  pub worth : 1 < n → n * least_pixels ≤ row_pixels * rows

-- When the pixel count fits in a word, PlanRowTasks plans a task for rows to run over when there are
-- any, no more tasks than rows or than it may, and several only when there are `least_pixels` for each.
pub plan_row_tasks-IsPlan :
    (row_pixels rows max_tasks least_pixels : ℕ)
    → row_pixels * rows ≤ u64_max
    → IsPlan row_pixels rows max_tasks least_pixels
        (plan_row_tasks row_pixels rows max_tasks least_pixels)
unfolding plan_row_tasks
plan_row_tasks-IsPlan row_pixels rows max_tasks least_pixels fits =
    rw (mul64_lem row_pixels rows (omega arith)) record {
      idle = λ z. ground arith;
      busy = λ z. ground arith;
      rowed = ground arith;
      most = ground arith;
      worth = λ m. afford _ least_pixels (row_pixels * rows) (ground arith);
    }
