-- ===== src/Tests/Waiting.antt =====
-- The result about a call of WorkPool::Run at a concrete one: two tasks, of which the caller has run both,
-- and a started worker, woken, that has yet to see that none is left. The caller is asleep.
use carta_zarr.Base.{◌<◌, ◌≡◌, refl, ◌⊎◌, true, false, [], ◌∷◌, none}
use carta_zarr.Pool.{
  parked, finished, start, parked_workers, leave, claim, drain, complete, count_out, IsReturned,
}
use carta_zarr.Pool.Wakes.{
  Waits, begin, actor, is_able, notify_all, notify_done, caller_after, Move, Moves, here, after,
  step, notify, sleep,
}
use carta_zarr.Pool.Wakes.Returns.{moves_left, Run_returns}

abbrev caller_waits : Waits
caller_waits = record {
  call = record {
    tasks = 2;
    next = 2;
    out = 1;
    failure = none;
    workers = finished ∷ parked ∷ [];
    done = 1 ∷ 0 ∷ [];
  };
  unnotified = false;
  asleep = false ∷ [];
  caller_asleep = true;
  returned = false;
}

to_waiting : Moves (begin 1 2 (true ∷ [])) caller_waits
unfolding begin start parked_workers leave is_able actor notify_all notify_done caller_after
to_waiting =
    after
      (after
        (after
          (after
            (after
              (after (after (after here (notify refl)) (step (claim 0 refl refl) refl))
                (step (complete 0 0 refl) refl))
              (step (claim 0 refl refl) refl))
            (step (complete 0 1 refl) refl))
          (step (drain 0 refl refl) refl))
        (step (count_out 0 refl) refl))
      (sleep refl refl refl refl)

Run_returns_example :
    (((caller_waits.returned ≡ true) × IsReturned caller_waits.call)
      ⊎ ((t : Waits) × Move caller_waits t))
    × ((t : Waits) → Move caller_waits t → moves_left t < moves_left caller_waits)
Run_returns_example = Run_returns 1 2 (true ∷ []) caller_waits to_waiting
