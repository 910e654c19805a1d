-- ===== src/Pool/Wakes.antt =====
-- One call of WorkPool::Run (src/work_pool.cc) with its waits: who is asleep on a condition variable, and
-- what wakes them. A wait that finds its condition false sleeps until it is notified; one that is woken
-- without a notification would find the condition as it was, and sleep again, which is left out.
pub mod Returns
use carta_zarr.Base.{
  ℕ, zero, suc, ◌-◌, ◌≡◌, Bool, true, false, List, [], ◌∷◌, if◌then◌else◌, ◌==◌, some, get_elem?,
  get_or,
}
use carta_zarr.Pool.{Call, finished, start, Step, wake, claim, drain, complete, throw, count_out}

-- A call with what its threads wait for: whether Run has yet to call `_wake.notify_all`, which started
-- workers are asleep on `_wake`, whether the caller is asleep on `_done`, and whether Run has returned.
pub record Waits : Type 0 where
  pub call : Call
  pub unnotified : Bool
  pub asleep : List Bool
  pub caller_asleep : Bool
  pub returned : Bool

-- Run has set the fields; a started worker sleeps on `_wake`, or is about to look at the generation.
unfoldable pub begin : ℕ → ℕ → List Bool → Waits
begin threads tasks asleep = record {
  call = start threads tasks;
  unnotified = true;
  asleep = asleep;
  caller_asleep = false;
  returned = false;
}

-- Who makes a step.
unfoldable pub actor : {c d : Call} → Step c d → ℕ
actor (wake w e) = w
actor (claim w e l) = w
actor (drain w e l) = w
actor (complete w t e) = w
actor (throw w t x e) = w
actor (count_out w e) = w

-- The caller drains once it has notified; a worker does anything once it is awake.
unfoldable pub is_able : Waits → ℕ → Bool
is_able s zero = if s.unnotified then false else (if s.caller_asleep then false else true)
is_able s (suc w) = if get_or s.asleep w false then false else true

-- `_wake.notify_all()`, of every worker on it.
unfoldable pub notify_all : List Bool → List Bool
notify_all [] = []
notify_all (a ∷ asleep) = false ∷ notify_all asleep

-- `if (_running == 0) _done.notify_one()`, after a worker has counted itself out: whether the caller,
-- asleep or not, is asleep after it.
unfoldable pub notify_done : ℕ → ℕ → Bool → Bool
notify_done zero out caller_asleep = caller_asleep
notify_done (suc w) out caller_asleep = if (out - 1) == 0 then false else caller_asleep

unfoldable pub caller_after : {c d : Call} → Step c d → Bool → Bool
unfolding notify_done
caller_after {c} (count_out w e) caller_asleep = notify_done w c.out caller_asleep
caller_after (wake w e) caller_asleep = caller_asleep
caller_after (claim w e l) caller_asleep = caller_asleep
caller_after (drain w e l) caller_asleep = caller_asleep
caller_after (complete w t e) caller_asleep = caller_asleep
caller_after (throw w t x e) caller_asleep = caller_asleep

-- One move of the call.
pub data Move (s : Waits) : Waits → Type 0 where
  -- a thread that is awake makes its step
  step :
      {d : Call} (made : Step s.call d)
      → is_able s (actor made) ≡ true
      → Move s (record s { call = d; caller_asleep = caller_after made s.caller_asleep })
  -- Run calls `_wake.notify_all`
  notify :
      s.unnotified ≡ true → Move s (record s { unnotified = false; asleep = notify_all s.asleep })
  -- Run, its own share drained, finds a worker out, and sleeps on `_done`
  sleep :
      get_elem? s.call.workers 0 ≡ some finished
      → s.caller_asleep ≡ false
      → s.returned ≡ false
      → (s.call.out == 0) ≡ false
      → Move s (record s { caller_asleep = true })
  -- or finds none, and returns
  give_back :
      get_elem? s.call.workers 0 ≡ some finished
      → s.caller_asleep ≡ false
      → s.returned ≡ false
      → (s.call.out == 0) ≡ true
      → Move s (record s { returned = true })

pub data Moves (s : Waits) : Waits → Type 0 where
  here : Moves s s
  after : {t u : Waits} → Moves s t → Move t u → Moves s u
