-- ===== src/ReadAhead/Player/Sound.antt =====
-- What holds of ReadingAhead (src/read_ahead.cc) after any steps of the thread that plays, of the
-- worker and of Cancel.
use carta_zarr.Base.{
  ℕ, ◌≡◌, refl, sym, ◌∙◌, ap, ◌⊎◌, inl, inr, Bool, true, false, ◌&&◌, ◌||◌, List, [], ◌∷◌, ◌++◌,
  Option, none, some, ◌==◌, Bool-cases, Option-cases, get_elem?, take,
}
use carta_zarr.Image.{ReadRequest}
use carta_zarr.ReadAhead.{Run, RunSource}
use carta_zarr.ReadAhead.Player.{
  AnimatedPlane, ReadingAhead, Worker, idle, starting, decoding, Work, reading_ahead, find_run,
  put_run, overlaps, note_late, note_catch, note_frame, next_plane, Picked, is_new, pick_plane,
  pick, pick_all, take_on, look_ahead, serve, end_prefetch, Step, Reach, upcoming_frames,
}

-- What a frame's first two tests leave alone.
record IsNoted (a b : ReadingAhead) : Type 0 where
  worker : b.worker ≡ a.worker
  under_way : b.under_way ≡ a.under_way
  prefetching : b.prefetching ≡ a.prefetching
  requested : b.requested ≡ a.requested
  prefetches : b.stats.prefetches ≡ a.stats.prefetches
  stopped : a.stats.stopped ≡ true → b.stats.stopped ≡ true

note_late-IsNoted : (late : Bool) (a : ReadingAhead) → IsNoted a (note_late late a)
unfolding note_late
note_late-IsNoted true a = record {
  worker = refl;
  under_way = refl;
  prefetching = refl;
  requested = refl;
  prefetches = refl;
  stopped = λ h. refl;
}
note_late-IsNoted false a = record {
  worker = refl;
  under_way = refl;
  prefetching = refl;
  requested = refl;
  prefetches = refl;
  stopped = λ h. h;
}

note_catch-IsNoted : (caught : Bool) (a : ReadingAhead) → IsNoted a (note_catch caught a)
unfolding note_catch
note_catch-IsNoted true a = record {
  worker = refl;
  under_way = refl;
  prefetching = refl;
  requested = refl;
  prefetches = refl;
  stopped = λ h. h;
}
note_catch-IsNoted false a = record {
  worker = refl;
  under_way = refl;
  prefetching = refl;
  requested = refl;
  prefetches = refl;
  stopped = λ h. h;
}

IsNoted-trans : (a b c : ReadingAhead) → IsNoted a b → IsNoted b c → IsNoted a c
IsNoted-trans a b c x y = record {
  worker = y.worker ∙ x.worker;
  under_way = y.under_way ∙ x.under_way;
  prefetching = y.prefetching ∙ x.prefetching;
  requested = y.requested ∙ x.requested;
  prefetches = y.prefetches ∙ x.prefetches;
  stopped = λ h. y.stopped (x.stopped h);
}

note_frame-IsNoted :
    (began : ℕ) (late : Bool) (shown : List AnimatedPlane) (a : ReadingAhead)
    → IsNoted a (note_frame began late shown a)
unfolding note_frame
note_frame-IsNoted began late shown a =
    IsNoted-trans a _ _ (note_late-IsNoted (late && overlaps a began) a) (note_catch-IsNoted _ _)

-- Reading ahead has stopped, and `b` has started no more than `a`.
pub record HasStopped (a b : ReadingAhead) : Type 0 where
  pub stopped : b.stats.stopped ≡ true
  pub prefetches : b.stats.prefetches ≡ a.stats.prefetches
  pub requested : b.requested ≡ a.requested

look_ahead-stopped :
    (now : ℕ) (shown : List AnimatedPlane) (upcoming : List (List AnimatedPlane)) (a : ReadingAhead)
    → a.stats.stopped ≡ true
    → look_ahead now shown upcoming a ≡ a
unfolding look_ahead
look_ahead-stopped now shown upcoming a h = rw h refl

Step-HasStopped : (a b : ReadingAhead) → Step a b → a.stats.stopped ≡ true → HasStopped a b
unfolding serve end_prefetch
Step-HasStopped a b (Step.frame began late shown upcoming now playing) h =
    let n = note_frame-IsNoted began late shown a in
    rw (look_ahead-stopped now shown upcoming (note_frame began late shown a) (n.stopped h))
      (record { stopped = n.stopped h; prefetches = n.prefetches; requested = n.requested })
Step-HasStopped a b (Step.launch work e) h = record {
  stopped = h;
  prefetches = refl;
  requested = refl;
}
Step-HasStopped a b (Step.no_thread work now e) h = record {
  stopped = refl;
  prefetches = refl;
  requested = refl;
}
Step-HasStopped a b (Step.decode source plane work e c) h = record {
  stopped = h;
  prefetches = refl;
  requested = refl;
}
Step-HasStopped a b (Step.throw source plane work now e) h = record {
  stopped = refl;
  prefetches = refl;
  requested = refl;
}
Step-HasStopped a b (Step.finish work now e d) h = record {
  stopped = h;
  prefetches = refl;
  requested = refl;
}
Step-HasStopped a b Step.cancel h = record { stopped = h; prefetches = refl; requested = refl }
Step-HasStopped a b (Step.cancel_stops c) h = record {
  stopped = refl;
  prefetches = refl;
  requested = refl;
}

-- Once reading ahead has stopped it stays stopped, whatever is shown, decoded or cancelled after it,
-- and no prefetch is counted and no run is asked for any more.
pub Reach-HasStopped : (a b : ReadingAhead) → a.stats.stopped ≡ true → Reach a b → HasStopped a b
Reach-HasStopped a b h Reach.here = record { stopped = h; prefetches = refl; requested = refl }
Reach-HasStopped a b h (Reach.after {a = c} r s) =
    let before = Reach-HasStopped a c h r in
    let more = Step-HasStopped c b s before.stopped in
    record {
      stopped = more.stopped;
      prefetches = more.prefetches ∙ before.prefetches;
      requested = more.requested ∙ before.requested;
    }

-- Whether there is a worker, started or about to be.
abbrev pub has_worker : Worker → Bool
has_worker idle = false
has_worker (starting work) = true
has_worker (decoding work) = true

-- Each entry of the one table is in the other.
abbrev pub AllIn : List (ℕ × Run) → List (ℕ × Run) → Type 0
AllIn runs requested =
    (i : ℕ) (run : Run) → find_run i runs ≡ some run → find_run i requested ≡ some run

-- A prefetch is under way exactly while there is a worker, and the runs that one is for, or the last one
-- was for, are the runs remembered as asked for.
pub record IsSound (a : ReadingAhead) : Type 0 where
  pub busy : a.under_way ≡ has_worker a.worker
  pub remembered : AllIn a.prefetching a.requested

-- What the picking has made of `_requested` and of `runs`.
record IsPicked (old : List (ℕ × Run)) (p : Picked) : Type 0 where
  unchanged : p.work ≡ [] → p.requested ≡ old
  together : AllIn p.runs p.requested

put_both :
    (i : ℕ) (run : Run) (runs requested : List (ℕ × Run))
    → AllIn runs requested
    → AllIn (put_run i run runs) (put_run i run requested)
unfolding find_run put_run
put_both i run runs requested all j r h = elim (Bool-cases (j == i)) [
  | inl e ↦ rw e (rw e at h)
  | inr e ↦ rw e (all j r (rw e at h))
]

snoc-ne : {A : Type 0} (xs : List A) (x : A) → ¬ (xs ++ (x ∷ []) ≡ [])
snoc-ne [] x h = absurd cc
snoc-ne (y ∷ ys) x h = absurd cc

pick_plane-IsPicked :
    (old : List (ℕ × Run)) (source : RunSource) (image : ℕ) (o : Option AnimatedPlane) (p : Picked)
    → IsPicked old p
    → IsPicked old (pick_plane source image o p)
unfolding pick_plane
pick_plane-IsPicked old source image none p v = v
pick_plane-IsPicked old source image (some plane) p v =
    let run = source.runs plane.request in
    elim (Bool-cases (is_new (find_run image p.requested) run)) [
      | inl new ↦ rw new (record {
        unchanged = λ nothing. absurd (snoc-ne p.work (source, plane.request) nothing);
        together = put_both image run p.runs p.requested v.together;
      })
      | inr known ↦ rw known v
    ]

pick-IsPicked :
    (old : List (ℕ × Run)) (sources : List RunSource) (frames : List (List AnimatedPlane))
    (now : AnimatedPlane) (p : Picked)
    → IsPicked old p
    → IsPicked old (pick sources frames now p)
unfolding pick
pick-IsPicked old sources frames now p v = elim (Option-cases (get_elem? sources now.image)) [
  | inl e ↦ rw (e, pick) v
  | inr (source, e) ↦ elim (Option-cases (find_run now.image p.runs)) [
    | inl f ↦
        rw (e, f, pick)
          (pick_plane-IsPicked old source now.image
            (next_plane source (source.runs now.request) now.image frames) p v)
    | inr (run, f) ↦ rw (e, f, pick) v
  ]
]

pick_all-IsPicked :
    (old : List (ℕ × Run)) (sources : List RunSource) (frames : List (List AnimatedPlane))
    (shown : List AnimatedPlane) (p : Picked)
    → IsPicked old p
    → IsPicked old (pick_all sources frames shown p)
unfolding pick_all
pick_all-IsPicked old sources frames [] p v = v
pick_all-IsPicked old sources frames (now ∷ shown) p v =
    pick_all-IsPicked old sources frames shown _ (pick-IsPicked old sources frames now p v)

work-cases :
    (work : Work) → (work ≡ []) ⊎ ((w : RunSource × ReadRequest) × (ws : Work) × (work ≡ w ∷ ws))
work-cases [] = inl refl
work-cases (w ∷ ws) = inr (w, ws, refl)

take_on-IsSound :
    (now : ℕ) (p : Picked) (a : ReadingAhead)
    → IsSound a
    → IsPicked a.requested p
    → IsSound (take_on now p a)
unfolding take_on
take_on-IsSound now p a v picked = elim (work-cases p.work) [
  | inl nothing ↦
      rw (nothing, take_on, picked.unchanged nothing)
        (record { busy = v.busy; remembered = v.remembered })
  | inr (w, ws, some_work) ↦
      rw (some_work, take_on) (record { busy = refl; remembered = picked.together })
]

look_ahead-IsSound :
    (now : ℕ) (shown : List AnimatedPlane) (upcoming : List (List AnimatedPlane)) (a : ReadingAhead)
    → IsSound a
    → IsSound (look_ahead now shown upcoming a)
unfolding look_ahead find_run
look_ahead-IsSound now shown upcoming a v =
    elim (Bool-cases (a.stats.stopped || (a.cancelled || a.under_way))) [
      | inl e ↦ rw e v
      | inr e ↦ rw e (
          take_on-IsSound now _ a v (
            pick_all-IsPicked a.requested a.sources (take upcoming_frames upcoming) shown _
              (record { unchanged = λ h. refl; together = λ i run h. absurd cc })))
    ]

IsNoted-IsSound : (a b : ReadingAhead) → IsNoted a b → IsSound a → IsSound b
IsNoted-IsSound a b n v = record {
  busy = n.under_way ∙ v.busy ∙ ap has_worker (sym n.worker);
  remembered = rw (n.prefetching, n.requested) v.remembered;
}

Step-IsSound : (a b : ReadingAhead) → Step a b → IsSound a → IsSound b
unfolding serve end_prefetch
Step-IsSound a b (Step.frame began late shown upcoming now playing) v =
    look_ahead-IsSound now shown upcoming _
      (IsNoted-IsSound a _ (note_frame-IsNoted began late shown a) v)
Step-IsSound a b (Step.launch work e) v = record {
  busy = v.busy ∙ ap has_worker e;
  remembered = v.remembered;
}
Step-IsSound a b (Step.no_thread work now e) v = record { busy = refl; remembered = v.remembered }
Step-IsSound a b (Step.decode source plane work e c) v = record {
  busy = v.busy ∙ ap has_worker e;
  remembered = v.remembered;
}
Step-IsSound a b (Step.throw source plane work now e) v = record {
  busy = refl;
  remembered = v.remembered;
}
Step-IsSound a b (Step.finish work now e d) v = record { busy = refl; remembered = v.remembered }
Step-IsSound a b Step.cancel v = record { busy = v.busy; remembered = v.remembered }
Step-IsSound a b (Step.cancel_stops c) v = record { busy = v.busy; remembered = v.remembered }

reading_ahead-IsSound : (sources : List RunSource) → IsSound (reading_ahead sources)
unfolding reading_ahead find_run
reading_ahead-IsSound sources = record { busy = refl; remembered = λ i run h. absurd cc }

-- Whatever is shown, decoded, thrown and cancelled, from a ReadingAhead just made: a prefetch is under
-- way exactly while there is a worker, started or about to be, and the runs that it is for, or that the
-- last one was for, are remembered as asked for, each for its image.
pub Reach-IsSound :
    (sources : List RunSource) (a : ReadingAhead) → Reach (reading_ahead sources) a → IsSound a
Reach-IsSound sources a Reach.here = reading_ahead-IsSound sources
Reach-IsSound sources a (Reach.after {a = c} r s) = Step-IsSound c a s (Reach-IsSound sources c r)
