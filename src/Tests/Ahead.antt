-- ===== src/Tests/Ahead.antt =====
-- The results about reading ahead at a concrete input: an animation over a cube of 8 by 6 pixels and
-- 20 channels in chunks of 4 by 2 by 4, whose cache holds two of its runs.
use carta_zarr.Base.{
  ℕ, ◌^◌, ◌<◌, ◌≤◌, ◌≡◌, ◌≢◌, refl, ◌↔◌, true, false, List, [], ◌∷◌, Option, some, ok, arith,
  String, add64, sub64, mul64,
}
use carta_zarr.Image.{
  AxisRole, AxisDescriptor, DataType, ImageDescriptor, ChunkGeometry, ReadRequest,
}
use carta_zarr.ReadAhead.{
  RunSource, run_of, run_request, for_sources, run_from, run_chunk, push_chunks, last_of, same_run,
  same_list,
}
use carta_zarr.ReadAhead.Runs.{AreWithin, AreCovered, run_request-Covers}
use carta_zarr.ReadAhead.Fits.{two_runs, said_size, AreReady, for_sources-Fits}
use carta_zarr.ReadAhead.Player.{
  AnimatedPlane, ReadingAhead, decoding, reading_ahead, serve, is_playing, next_plane, Step, Reach,
  starting, note_frame, look_ahead, pick_all, take_on, overlaps, any_reached, note_late, note_catch,
  pick, pick_plane, find_plane, is_new, put_run, find_run,
}
use carta_zarr.ReadAhead.Player.Sound.{HasStopped, Reach-HasStopped, IsSound, Reach-IsSound}

abbrev axis : String → AxisRole → ℕ → ℕ → AxisDescriptor
axis name role size at = record { name = name; role = role; length = size; storage_index = at }

abbrev cube : ImageDescriptor
cube = record {
  id = "sky";
  stored_type = DataType.float32;
  axes =
      axis "x" AxisRole.spatial_x 8 2
      ∷ axis "y" AxisRole.spatial_y 6 1
      ∷ axis "frequency" AxisRole.spectral 20 0
      ∷ [];
  has_pixel_mask = false;
}

abbrev chunks : ChunkGeometry
chunks = record {
  fastest_spatial_axis = AxisRole.spatial_x;
  chunk_shape = 4 ∷ 2 ∷ 4 ∷ [];
  shard_shape = [];
  grid_shape = [];
  sharded = false;
  compressor = "";
}

abbrev plane : ℕ → ReadRequest
plane channel = record {
  axes =
      record { start = 0; count = 8; stride = 1 }
      ∷ record { start = 1; count = 3; stride = 2 }
      ∷ record { start = channel; count = 1; stride = 1 }
      ∷ [];
}

plane-AreWithin : AreWithin cube.axes chunks.chunk_shape 0 (plane 6).axes
plane-AreWithin = (
  record { some_elements = omega arith; inside = omega arith; span = omega arith },
  (
    record { some_elements = omega arith; inside = omega arith; span = omega arith },
    (record { some_elements = omega arith; inside = omega arith; span = omega arith }, tt),
  ),
)

run_request-Covers_example :
    AreCovered cube.axes (plane 6).axes (run_request cube chunks (plane 6)).axes
    × (run_of chunks (run_request cube chunks (plane 6)) ≡ run_of chunks (plane 6))
run_request-Covers_example = run_request-Covers cube chunks (plane 6) plane-AreWithin

abbrev source : RunSource
source = record {
  runs = run_of chunks;
  run_bytes = 768;
  cache = record { identity = 5; bytes = 2000 };
  name = "sky";
}

abbrev sources : List (Option RunSource)
sources = some source ∷ some source ∷ []

few_bytes : (id : ℕ) → two_runs id sources < 2 ^ 64
few_bytes id = ground arith

for_sources-Fits_example : (for_sources sources ≡ ok tt) ↔ (
    ◌≢◌ {A = List (Option RunSource)} sources []
    × AreReady sources
    × ((id : ℕ) → two_runs id sources ≤ said_size id sources 0))
for_sources-Fits_example = for_sources-Fits sources few_bytes

abbrev shows : ℕ → AnimatedPlane
shows channel = record { image = 0; request = plane channel }

abbrev to_come : List (List AnimatedPlane)
to_come = (shows 3 ∷ []) ∷ (shows 4 ∷ []) ∷ (shows 5 ∷ []) ∷ []

-- A frame is shown, the prefetch for the run of channel 4 is started, and its worker is decoding.
abbrev shown_first : ReadingAhead
shown_first = serve 10 false (shows 2 ∷ []) to_come 20 (reading_ahead (source ∷ []))

abbrev decoding_ahead : ReadingAhead
decoding_ahead = record shown_first { worker = decoding ((source, plane 4) ∷ []) }

first_frame : Reach (reading_ahead (source ∷ [])) shown_first
unfolding is_playing reading_ahead
first_frame = Reach.after Reach.here (Step.frame 10 false (shows 2 ∷ []) to_come 20 refl)

first_work : shown_first.worker ≡ starting ((source, plane 4) ∷ [])
unfolding serve reading_ahead note_frame look_ahead pick_all take_on overlaps any_reached note_late
    note_catch pick pick_plane next_plane find_plane is_new put_run find_run run_of run_from
    run_chunk push_chunks last_of same_run same_list add64 sub64 mul64
first_work = refl

launched : Reach (reading_ahead (source ∷ [])) decoding_ahead
launched = Reach.after first_frame (Step.launch ((source, plane 4) ∷ []) first_work)

Reach-IsSound_example : IsSound decoding_ahead
Reach-IsSound_example = Reach-IsSound (source ∷ []) decoding_ahead launched

-- Cancelled while it is decoding, and a frame more.
abbrev cancelled_ahead : ReadingAhead
cancelled_ahead = record (reading_ahead (source ∷ [])) {
  cancelled = true;
  stats = record (reading_ahead (source ∷ [])).stats { stopped = true };
}

not_started : is_playing cancelled_ahead.worker ≡ true
unfolding is_playing reading_ahead
not_started = refl

Reach-HasStopped_example :
    HasStopped cancelled_ahead (serve 30 true (shows 2 ∷ []) to_come 40 cancelled_ahead)
Reach-HasStopped_example =
    Reach-HasStopped cancelled_ahead (serve 30 true (shows 2 ∷ []) to_come 40 cancelled_ahead) refl
      (Reach.after Reach.here (Step.frame 30 true (shows 2 ∷ []) to_come 40 not_started))
