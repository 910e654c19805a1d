-- ===== src/Lib.antt =====
-- A model of the carta-zarr library: reading and reducing radio-astronomy images kept as chunked
-- Zarr arrays.
--
-- A caller opens an image, whose descriptor gives its logical axes, and reads a request: a range of
-- each axis. The request is checked and put into the array's stored order; a large read is cut into
-- pieces along one axis, at chunk boundaries, each of about the memory that a read may hold; a
-- reduction walks the image's planes in slabs of whole chunks, and shares out rows of what was read
-- among the library's own threads; and an animation may have the chunks of the frames to come decoded
-- ahead.
--
-- Base.antt (Base/): what the modules share. Base.Word is 64-bit unsigned arithmetic with its
--   wrap-around (std::uint64_t, and std::size_t taken to be as wide); Base.Failure is
--   include/carta-zarr/error.h and result.h, a message kept as its parts.
-- Image.antt: the descriptors and requests of include/carta-zarr/descriptor.h and read.h, as far as
--   reads look at them.
-- Chunk.antt (Chunk/): src/chunk_blocks.h, src/zarr/data_type.h and AppliesPixelMask: the cost of a
--   read, block ends, chunks touched and sampled.
-- Memo.antt (Memo/): src/memo.h: what a table of remembered values answers, a history of it being the
--   list of the calls that took its lock.
-- Json.antt: what is read of a parsed JSON document, the values being a parameter; Metadata.antt
--   (Metadata/): src/zarr/array_metadata.h and array_metadata.cc, ParseArrayMetadata and
--   ParseStorageLayout included.
-- Read/Selection.antt (Read/Selection/): src/zarr/pixel_selection.cc, BuildSelection,
--   DestinationStrides and CheckReadControl.
-- Read/Pieces.antt (Read/Pieces/): src/read/pieces.cc, PlanPieces and OneElementPerChunk.
-- Read/InPieces.antt (Read/InPieces/): ReadInPieces of src/read/pieces_read.cc and ApplyPixelMask. The
--   PixelSource is a parameter: for each selection and buffer, what it leaves in the buffer and what it
--   answers. A read's outcome is the buffer with the answer; the progress callback is a function.
-- Planes.antt (Planes/): src/axis_map.h, src/reduce/plane_selection.h and src/schema/chunk_geometry.h:
--   which axis plays which role, which planes an image has, and its chunks in logical order.
-- Steps.antt (Steps/): loops of actions that stop at the first error, and what they go over.
-- Pass.antt (Pass/): src/reduce/pass_plan.h, pass.cc and footprint.h: what a pass decides before it
--   reads. Pass/Walk.antt: SlabWalk and Pass of src/reduce/pass.h with ReadSlab of pass_read.cc. What
--   the caller does with a slab, a block or a report is a function on the caller's own state, and the
--   read control is a function of that state, so a caller may cancel in any callback.
-- Occupancy.antt (Occupancy/): PlacedRegion::RowsWithin and ForEachSpan of src/reduce/occupancy.h, the occupied rows
--   of Occupancy::Of in occupancy.cc, and Footprints over them.
-- Histogram.antt (Histogram/): GrowingHistogram::Grow of src/reduce/growing_histogram.h.
-- ReadAhead.antt (ReadAhead/): src/read_ahead.h and read_ahead.cc: the runs of chunks that planes are
--   in, and ReadingAhead::For. ReadAhead/Player.antt: ReadingAhead's fields, with one step for each
--   block that the code holds its lock over and for each Prefetch that returns or throws.
-- Pool.antt (Pool/): src/work_pool.cc and src/reduce/task_split.h. One call of WorkPool::Run is a
--   step relation on the pool's fields and what each worker is doing, one step for each lock that
--   the code takes and each body that returns or throws. Pool/Wakes.antt adds who is asleep on which
--   condition variable, and the calls that notify them; a wait wakes only when it is notified.
-- Strings.antt (Strings/): src/zarr/string_array.cc as far as it decodes UTF-32 into UTF-8. A failure
--   that the source throws is a value.
-- Tests.antt (Tests/): the results at concrete inputs.
--
-- Loops whose end depends on arithmetic run on fuel: cut_pieces has one round for each element of the
-- cut axis and one to stop, and every piece holds an element; flag_walk has one for each element of
-- the axis, and its step is one at least; the walks of a pass have one for each channel, chunk row or
-- chunk column and one to stop. Out of fuel is `none`, and the results say where there is
-- none. BuildSelection gives `none` for the division by zero that it makes when two axes name one
-- stored dimension.
--
-- A fraction that the source divides out in floating point is the two numbers that it divides.
--
-- Not modelled: the codecs and files of string arrays; PrefetchChunks and its walk; how regions are
-- placed into chunks, and the encoding of their masks; TensorStore, the
-- file system and HTTP; the JSON parser; the schema's metadata; the floating-point work of the
-- reductions; starting and stopping threads, and two calls of Run, which the pool's own mutex keeps
-- apart.
pub mod Base
pub mod Chunk
pub mod Histogram
pub mod Image
pub mod Json
pub mod Memo
pub mod Metadata
pub mod Occupancy
pub mod Pass
pub mod Planes
pub mod Pool
pub mod Read
pub mod ReadAhead
pub mod Steps
pub mod Strings
pub mod Tests
