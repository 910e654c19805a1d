-- ===== src/ReadAhead/Player.antt =====
-- ReadingAhead of src/read_ahead.h and src/read_ahead.cc: after each frame of an animation, what is to
-- be decoded ahead for the frames to come, by one worker at a time. Each block that a lock is held over
-- is one step. A time is a number, and what reads the clock is told the time.
pub mod Sound
pub mod Next
use carta_zarr.Base.{
  ℕ, zero, suc, ◌+◌, ◌%◌, ◌^◌, ◌≡◌, ◌⊎◌, Bool, true, false, not, ◌&&◌, ◌||◌, List, [], ◌∷◌, ◌++◌,
  Option, none, some, if◌then◌else◌, ltb, leb, ◌==◌, length, get_elem?, take,
}
use carta_zarr.Image.{ReadRequest}
use carta_zarr.ReadAhead.{Run, RunSource, same_run}

-- kUpcomingFrames
abbrev pub upcoming_frames : ℕ
upcoming_frames = 64

-- struct AnimatedPlane
pub record AnimatedPlane : Type 0 where
  pub image : ℕ
  pub request : ReadRequest

-- struct ReadAheadStats; its counts are 32 bits wide.
pub record ReadAheadStats : Type 0 where
  pub prefetches : ℕ
  pub caught_up : ℕ
  pub stopped : Bool
  pub under_way : Bool

-- What a prefetch has left to decode.
abbrev pub Work : Type 0
Work = List (RunSource × ReadRequest)

-- The worker: there is none, or it has returned; it is about to be started; it is decoding.
pub data Worker : Type 0 where
  idle : Worker
  starting decoding : Work → Worker

-- class ReadingAhead's fields; the under_way of `stats` is filled in by Stats.
pub record ReadingAhead : Type 0 where
  pub sources : List RunSource
  pub worker : Worker
  pub cancelled : Bool
  pub under_way : Bool
  pub started : ℕ
  pub finished : ℕ
  pub prefetching : List (ℕ × Run)
  pub counted_catch : Bool
  pub requested : List (ℕ × Run)
  pub stats : ReadAheadStats

unfoldable pub reading_ahead : List RunSource → ReadingAhead
reading_ahead sources = record {
  sources = sources;
  worker = idle;
  cancelled = false;
  under_way = false;
  started = 0;
  finished = 0;
  prefetching = [];
  counted_catch = false;
  requested = [];
  stats = record { prefetches = 0; caught_up = 0; stopped = false; under_way = false };
}

-- std::map's find, and its operator[] on the left of an assignment.
unfoldable pub find_run : ℕ → List (ℕ × Run) → Option Run
find_run image [] = none
find_run image ((i, run) ∷ runs) = if image == i then some run else find_run image runs

unfoldable pub put_run : ℕ → Run → List (ℕ × Run) → List (ℕ × Run)
put_run image run runs = (image, run) ∷ runs

-- Whether a frame shared the machine with a prefetch.
unfoldable pub overlaps : ReadingAhead → ℕ → Bool
overlaps ahead began = elim ahead.prefetching [
  | [] ↦ false
  | p ∷ ps ↦ leb ahead.started began && (ahead.under_way || ltb began ahead.finished)
]

-- Whether a plane shown is of the run that is decoded for its image.
unfoldable pub frame_reaches : ReadingAhead → AnimatedPlane → Bool
unfolding find_run
frame_reaches ahead plane = elim (find_run plane.image ahead.prefetching) [
  | none ↦ false
  | some run ↦ elim (get_elem? ahead.sources plane.image) [
    | none ↦ false
    | some source ↦ same_run (source.runs plane.request) run
  ]
]

unfoldable pub any_reached : ReadingAhead → List AnimatedPlane → Bool
unfolding frame_reaches
any_reached ahead [] = false
any_reached ahead (plane ∷ shown) = frame_reaches ahead plane || any_reached ahead shown

-- Served's first two tests.
unfoldable pub note_late : Bool → ReadingAhead → ReadingAhead
note_late late ahead =
    if late then record ahead { stats = record ahead.stats { stopped = true } } else ahead

unfoldable pub note_catch : Bool → ReadingAhead → ReadingAhead
note_catch caught ahead =
    if caught
    then record ahead {
      counted_catch = true;
      stats = record ahead.stats { caught_up = (ahead.stats.caught_up + 1) % 2 ^ 32 };
    }
    else ahead

unfoldable pub note_frame : ℕ → Bool → List AnimatedPlane → ReadingAhead → ReadingAhead
unfolding overlaps any_reached note_late note_catch
note_frame began late shown ahead =
    let overlapped = overlaps ahead began in
    note_catch (overlapped && (not ahead.counted_catch && any_reached ahead shown))
      (note_late (late && overlapped) ahead)

-- std::find_if for an image.
unfoldable pub find_plane : ℕ → List AnimatedPlane → Option AnimatedPlane
find_plane image [] = none
find_plane image (plane ∷ planes) =
    if plane.image == image then some plane else find_plane image planes

-- The loop over the frames to come, up to the plane that it breaks at.
unfoldable pub next_plane : RunSource → Run → ℕ → List (List AnimatedPlane) → Option AnimatedPlane
unfolding find_plane
next_plane source run_now image [] = none
next_plane source run_now image (planes ∷ frames) =
    let rest = next_plane source run_now image frames in
    elim (find_plane image planes) [
      | none ↦ rest
      | some plane ↦ if same_run (source.runs plane.request) run_now then rest else some plane
    ]

-- Served's `_requested`, `runs` and `work`.
pub record Picked : Type 0 where
  pub requested : List (ℕ × Run)
  pub runs : List (ℕ × Run)
  pub work : Work

-- `requested == end || requested->second != run`
unfoldable pub is_new : Option Run → Run → Bool
is_new none run = true
is_new (some run') run = not (same_run run' run)

unfoldable pub pick_plane : RunSource → ℕ → Option AnimatedPlane → Picked → Picked
unfolding is_new put_run
pick_plane source image none picked = picked
pick_plane source image (some plane) picked =
    let run = source.runs plane.request in
    if is_new (find_run image picked.requested) run
    then record {
      requested = put_run image run picked.requested;
      runs = put_run image run picked.runs;
      work = picked.work ++ ((source, plane.request) ∷ []);
    }
    else picked

-- The body of the loop over the planes shown.
unfoldable pub pick : List RunSource → List (List AnimatedPlane) → AnimatedPlane → Picked → Picked
unfolding pick_plane next_plane
pick sources looked_at now picked = elim (get_elem? sources now.image) [
  | none ↦ picked
  | some source ↦ elim (find_run now.image picked.runs) [
    | some run ↦ picked
    | none ↦
        pick_plane source now.image
          (next_plane source (source.runs now.request) now.image looked_at) picked
  ]
]

unfoldable pub pick_all :
    List RunSource → List (List AnimatedPlane) → List AnimatedPlane → Picked → Picked
unfolding pick
pick_all sources looked_at [] picked = picked
pick_all sources looked_at (now ∷ shown) picked =
    pick_all sources looked_at shown (pick sources looked_at now picked)

-- Served from `if (work.empty())` to the end of its block.
unfoldable pub take_on : ℕ → Picked → ReadingAhead → ReadingAhead
take_on now picked ahead = elim picked.work [
  | [] ↦ record ahead { requested = picked.requested }
  | w ∷ ws ↦ record ahead {
    requested = picked.requested;
    worker = starting picked.work;
    under_way = true;
    started = now;
    prefetching = picked.runs;
    counted_catch = false;
    stats = record ahead.stats {
      prefetches = (ahead.stats.prefetches + length picked.work) % 2 ^ 32;
    };
  }
]

unfoldable pub look_ahead :
    ℕ → List AnimatedPlane → List (List AnimatedPlane) → ReadingAhead → ReadingAhead
unfolding pick_all take_on
look_ahead now shown upcoming ahead =
    if ahead.stats.stopped || (ahead.cancelled || ahead.under_way)
    then ahead
    else take_on now
        (pick_all ahead.sources (take upcoming_frames upcoming) shown
          (record { requested = ahead.requested; runs = []; work = [] }))
        ahead

-- Served's block under the lock, of a frame that began at `began` and is over at `now`.
unfoldable pub serve :
    ℕ → Bool → List AnimatedPlane → List (List AnimatedPlane) → ℕ → ReadingAhead → ReadingAhead
unfolding note_frame look_ahead
serve began late shown upcoming now ahead =
    look_ahead now shown upcoming (note_frame began late shown ahead)

-- The blocks that end a prefetch: the worker's, and that of a thread that could not be started.
unfoldable pub end_prefetch : ℕ → Bool → ReadingAhead → ReadingAhead
end_prefetch now failed ahead = record ahead {
  worker = idle;
  under_way = false;
  finished = now;
  stats = if failed then record ahead.stats { stopped = true } else ahead.stats;
}

-- Stats
unfoldable pub stats_of : ReadingAhead → ReadAheadStats
stats_of ahead = record ahead.stats { under_way = ahead.under_way }

-- The thread that plays is not between Served's block and the worker's start.
unfoldable pub is_playing : Worker → Bool
is_playing idle = true
is_playing (decoding work) = true
is_playing (starting work) = false

pub data Step (ahead : ReadingAhead) : ReadingAhead → Type 0 where
  frame :
      (began : ℕ) (late : Bool) (shown : List AnimatedPlane) (upcoming : List (List AnimatedPlane))
      (now : ℕ)
      → is_playing ahead.worker ≡ true
      → Step ahead (serve began late shown upcoming now ahead)
  -- the worker is started, or cannot be
  launch :
      (work : Work)
      → ahead.worker ≡ starting work
      → Step ahead (record ahead { worker = decoding work })
  no_thread :
      (work : Work) (now : ℕ)
      → ahead.worker ≡ starting work
      → Step ahead (end_prefetch now true ahead)
  -- it is not cancelled, and a Prefetch returns, or throws
  decode :
      (source : RunSource) (plane : ReadRequest) (work : Work)
      → ahead.worker ≡ decoding ((source, plane) ∷ work)
      → ahead.cancelled ≡ false
      → Step ahead (record ahead { worker = decoding work })
  throw :
      (source : RunSource) (plane : ReadRequest) (work : Work) (now : ℕ)
      → ahead.worker ≡ decoding ((source, plane) ∷ work)
      → Step ahead (end_prefetch now true ahead)
  -- it has decoded all of its work, or finds itself cancelled
  finish :
      (work : Work) (now : ℕ)
      → ahead.worker ≡ decoding work
      → (work ≡ []) ⊎ (ahead.cancelled ≡ true)
      → Step ahead (end_prefetch now false ahead)
  -- Cancel, before and under its lock
  cancel : Step ahead (record ahead { cancelled = true })
  cancel_stops :
      ahead.cancelled ≡ true
      → Step ahead (record ahead { stats = record ahead.stats { stopped = true } })

pub data Reach (ahead : ReadingAhead) : ReadingAhead → Type 0 where
  here : Reach ahead ahead
  after : {a b : ReadingAhead} → Reach ahead a → Step a b → Reach ahead b
