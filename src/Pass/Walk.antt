-- ===== src/Pass/Walk.antt =====
-- The walk of a pass over slabs, bands and blocks: src/reduce/pass.h, src/reduce/pass_read.cc and
-- src/reduce/slab.h.
pub mod Tiles
pub mod Held
pub mod Bands
use carta_zarr.Base.{
  ℕ, zero, suc, ◌+◌, ◌-◌, ◌*◌, min, max, Bool, true, false, List, [], ◌∷◌, ◌++◌, Option, none, some,
  String, ErrorCode, Part, text, Result, ok, err, fail, if◌then◌else◌, ltb, length, get_elem?,
  get_or, set, take, replicate, add64, sub64, mul64,
}
use carta_zarr.Image.{AxisDescriptor, ImageDescriptor, Range, ReadRequest}
use carta_zarr.Chunk.{chunks_sampled, sampled_chunk}
use carta_zarr.Read.Selection.{
  DestinationOrder, PixelSelection, ReadControl, build_selection, destination_strides,
  check_read_control,
}
use carta_zarr.Read.InPieces.{PixelSource, apply_pixel_mask}
use carta_zarr.Steps.{Action, resume, done, answer, in_steps, for_each, by_runs}
use carta_zarr.Pass.{
  PassPlan, channels_touched, chunks_covering, plan_units_affordable, slab_channels,
  aligned_slab_end, emit_channels, SlabFootprint, sampled_range,
}

-- struct Slab, over pixels `P`
pub record Slab (P : Type 0) : Type 0 where
  pub first_channel : ℕ
  pub channel_count : ℕ
  pub pixels : List P
  pub stride_u : ℕ
  pub stride_v : ℕ
  pub stride_z : ℕ
  pub u_count : ℕ
  pub v_count : ℕ

-- struct SlabRequest
pub record SlabRequest : Type 0 where
  pub footprint : SlabFootprint
  pub channel_index : ℕ
  pub channel_count : ℕ

-- struct SlabBuffers
pub record SlabBuffers (P : Type 0) : Type 0 where
  pub pixels : List P
  pub mask : List ℕ

-- std::vector::resize
resize : {A : Type 0} → ℕ → A → List A → List A
resize n a xs = take n xs ++ replicate (n - length xs) a

-- `descriptor.axes.at(i).storage_index`, of an axis that the image has.
storage_at : ImageDescriptor → ℕ → ℕ
storage_at descriptor i = elim (get_elem? descriptor.axes i) [
  | none ↦ 0
  | some axis ↦ axis.storage_index
]

-- ReadSlab's request. The plan's axes are axes of the image, as PlanPass and MapAxes find them: the
-- source's `at` throws at any other, and this writes nothing.
pub slab_request : PassPlan → SlabRequest → ReadRequest
slab_request plan request =
    let f = request.footprint in
    let spectral = plan.planes.spectral in
    let one : Range = record { start = 0; count = 1; stride = 1 } in
    let along_u : Range = record { start = f.u_start; count = f.u_count; stride = f.u_stride } in
    let along_v : Range = record { start = f.v_start; count = f.v_count; stride = f.v_stride } in
    let along_z : Range = record {
      start = add64 spectral.start (mul64 request.channel_index spectral.stride);
      count = request.channel_count;
      stride = spectral.stride;
    } in
    let whole = replicate (length plan.descriptor.axes) one in
    let placed =
      set (set (set whole plan.axis_u along_u) plan.axis_v along_v) plan.map.spectral along_z in
    let polarized =
      if plan.map.has_polarization
      then set placed plan.map.polarization (record one { start = plan.planes.polarization })
      else placed in
    record {
      axes =
          if plan.map.has_time
          then set polarized plan.map.time (record one { start = plan.planes.time })
          else polarized;
    }

module _ {P : Type 0} (nan nought : P) (source : PixelSource P) (plan : PassPlan) where
  -- The slab that has been read.
  slab_of : SlabRequest → PixelSelection → List P → Slab P
  slab_of request s pixels =
      let strides = destination_strides s in
      let stride_of = λ (axis : ℕ). get_or strides (storage_at plan.descriptor axis) 0 in
      record {
        first_channel = 0;
        channel_count = request.channel_count;
        pixels = pixels;
        stride_u = stride_of plan.axis_u;
        stride_v = stride_of plan.axis_v;
        stride_z = stride_of plan.map.spectral;
        u_count = request.footprint.u_count;
        v_count = request.footprint.v_count;
      }

  -- The pixels are there: the mask, if it is applied, and the slab.
  read_flagged :
      ReadControl → SlabRequest → PixelSelection → SlabBuffers P → SlabBuffers P × Result (Slab P)
  unfolding slab_of apply_pixel_mask
  read_flagged control request s buffers =
      let (mask, flagged) = source.read_mask s (resize s.elements 0 buffers.mask) control in
      let masked = apply_pixel_mask nan s.elements buffers.pixels mask in
      if plan.apply_mask
      then (elim flagged [
        | err e ↦ (record buffers { mask = mask }, err e)
        | ok _ ↦ (record { pixels = masked; mask = mask }, ok (slab_of request s masked))
      ])
      else (buffers, ok (slab_of request s buffers.pixels))

  read_chosen :
      ReadControl → SlabRequest → PixelSelection → SlabBuffers P → SlabBuffers P × Result (Slab P)
  unfolding read_flagged
  read_chosen control request s buffers =
      let (pixels, read) = source.read_pixels s (resize s.elements nought buffers.pixels) control in
      elim read [
        | err e ↦ (record buffers { pixels = pixels }, err e)
        | ok _ ↦ read_flagged control request s (record buffers { pixels = pixels })
      ]

  -- ReadSlab; `none` is BuildSelection's division by zero.
  pub read_slab :
      ReadControl → SlabRequest → SlabBuffers P → SlabBuffers P × Option (Result (Slab P))
  unfolding read_chosen slab_request
  read_slab control request buffers =
      elim (build_selection plan.descriptor (slab_request plan request) DestinationOrder.stored) [
        | none ↦ (buffers, none)
        | some (err e) ↦ (buffers, some (err e))
        | some (ok s) ↦
            let (buffers', slab) = read_chosen control request s buffers in (buffers', some slab)
      ]

-- What a walk works on: the caller's own state, the buffers, and the counts of reads and of chunks.
pub record Walked (S P : Type 0) : Type 0 where
  pub caller : S
  pub buffers : SlabBuffers P
  pub reads_done : ℕ
  pub chunks_done : ℕ

module _ {S P : Type 0} (nan nought : P) (source : PixelSource P) (plan : PassPlan)
    (control : S → ReadControl) where
  -- SlabWalk::Allowed, at the time that the caller's state stands for.
  pub allowed : Action (Walked S P)
  unfolding answer
  allowed w = answer (check_read_control (control w.caller) plan.descriptor.id) w

  module _ (report : ℕ → S → S × Result (Unit {0})) (visit : Slab P → S → S) where
    -- `if (reads_done > 0) report(chunks_done)`
    pub report_read : Action (Walked S P)
    unfolding done
    report_read w =
        let (caller, ready) = report w.chunks_done w.caller in
        if ltb 0 w.reads_done then (record w { caller = caller }, some ready) else done w

    pub count_read : Action (Walked S P)
    unfolding done
    count_read w = done (record w { reads_done = add64 w.reads_done 1 })

    -- The read of one slab, its visit, and its chunks counted.
    pub visit_slab : SlabFootprint → ℕ → ℕ → ℕ → Action (Walked S P)
    unfolding read_slab
    visit_slab footprint begin slab_begin slab_end w =
        let request : SlabRequest = record {
          footprint = footprint;
          channel_index = slab_begin;
          channel_count = sub64 slab_end slab_begin;
        } in
        let (buffers, slab) =
          read_slab nan nought source plan (control w.caller) request w.buffers in
        elim slab [
          | none ↦ (record w { buffers = buffers }, none)
          | some (err e) ↦ (record w { buffers = buffers }, some (err e))
          | some (ok read) ↦ (
            record w {
              caller = visit (record read { first_channel = sub64 slab_begin begin }) w.caller;
              buffers = buffers;
              chunks_done =
                  add64 w.chunks_done
                    (mul64 footprint.chunks (channels_touched plan slab_begin slab_end));
            },
            some (ok tt),
          )
        ]

    -- The body of Over's loop.
    pub slab_round : SlabFootprint → ℕ → ℕ → ℕ → Action (Walked S P)
    unfolding report_read count_read allowed visit_slab resume
    slab_round footprint begin slab_begin slab_end w = resume (report_read w) λ w1.
        resume (count_read w1)
          λ w2. resume (allowed w2) (visit_slab footprint begin slab_begin slab_end)

    -- SlabWalk::Over
    pub over : SlabFootprint → ℕ → ℕ → Action (Walked S P)
    unfolding in_steps slab_round
    over footprint begin end =
        let most = slab_channels plan footprint.chunks in
        in_steps (suc (end - begin)) (λ at. aligned_slab_end plan at (min most (sub64 end at)) end)
          end (slab_round footprint begin) begin

    -- The band of the sampled chunk rows [row, row_end), and the segment of it of the sampled chunk
    -- columns [column, column_end).
    pub band_of : ℕ → ℕ → ℕ → ℕ → SlabFootprint
    band_of row row_end column column_end =
        let rows = chunks_sampled plan.v_length plan.chunk_v plan.sample in
        let columns = chunks_sampled plan.u_length plan.chunk_u plan.sample in
        let (v_start, v_count) =
          sampled_range (mul64 (sampled_chunk rows row) plan.chunk_v)
            (min plan.v_length (mul64 (add64 (sampled_chunk rows (row_end - 1)) 1) plan.chunk_v))
            plan.sample in
        let (u_start, u_count) =
          sampled_range (mul64 (sampled_chunk columns column) plan.chunk_u)
            (min plan.u_length
              (mul64 (add64 (sampled_chunk columns (column_end - 1)) 1) plan.chunk_u))
            plan.sample in
        record {
          u_start = u_start;
          u_count = u_count;
          u_stride = plan.sample;
          v_start = v_start;
          v_count = v_count;
          v_stride = plan.sample;
          chunks = mul64 (column_end - column) (row_end - row);
        }

    -- SlabWalk::OverBands: the loop over the columns of one band, and the loop over the bands.
    pub over_segments : ℕ → ℕ → ℕ → ℕ → Action (Walked S P)
    unfolding in_steps over band_of
    over_segments begin end row row_end =
        let columns = (chunks_sampled plan.u_length plan.chunk_u plan.sample).size in
        let most = plan_units_affordable plan (row_end - row) in
        in_steps (suc columns) (by_runs most columns) columns
          (λ column column_end. over (band_of row row_end column column_end) begin end) 0

    pub over_bands : ℕ → ℕ → Action (Walked S P)
    unfolding in_steps over_segments
    over_bands begin end =
        let rows = (chunks_sampled plan.v_length plan.chunk_v plan.sample).size in
        in_steps (suc rows) (by_runs plan.band_rows rows) rows (over_segments begin end) 0

-- What a pass is over: the plane in bands, or a region set's footprints.
pub data Shape (F : Type 0) : Type 0 where
  plane_bands : Shape F
  footprints_of : List F → Shape F

-- A footprint of a pass: what the walk is handed, and for whom.
module _ {S P F : Type 0} (slab : F → SlabFootprint) (nan nought : P) (source : PixelSource P)
    (plan : PassPlan) (control : S → ReadControl) (shape : Shape F) (layer_chunks : ℕ)
    (cancelled : String) (visit : Option F → Slab P → S → S) where
  walk_shape : Shape F → (ℕ → S → S × Result (Unit {0})) → ℕ → ℕ → Action (Walked S P)
  unfolding over_bands for_each over
  walk_shape plane_bands report begin end =
      over_bands nan nought source plan control report (visit none) begin end
  walk_shape (footprints_of footprints) report begin end =
      for_each footprints
        λ f. over nan nought source plan control report (visit (some f)) (slab f) begin end

  -- Pass::Walk
  pub walk : (ℕ → S → S × Result (Unit {0})) → ℕ → ℕ → Action (Walked S P)
  unfolding walk_shape allowed resume
  walk report begin end w =
      resume (allowed nan nought source plan control w) (walk_shape shape report begin end)

  -- A callback's answer: false cancels.
  go_on : S × Bool → S × Result (Unit {0})
  go_on (s, true) = (s, ok tt)
  go_on (s, false) = (s, fail ErrorCode.cancelled (text cancelled ∷ []) plan.descriptor.id)

  module _ (reset : ℕ → S → S) (hand_over : ℕ → ℕ → Bool → ℕ × ℕ → S → S × Bool) where
    -- InBlocks' `deliver`. The completeness that the source divides out is handed over as the
    -- numbers that it divides.
    deliver : ℕ → ℕ → Bool → ℕ → S → S × Result (Unit {0})
    unfolding go_on
    deliver begin end complete chunks_done s =
        let total = chunks_covering plan (max 1 layer_chunks) begin end in
        go_on (
          hand_over begin (sub64 end begin) complete
            (if complete then total else chunks_done, total) s)

    deliver_block : ℕ → ℕ → Action (Walked S P)
    unfolding deliver
    deliver_block begin end w =
        let (caller, handed) = deliver begin end true w.chunks_done w.caller in
        (record w { caller = caller }, some handed)

    -- The body of InBlocks' loop.
    pub block_round : ℕ → ℕ → Action (Walked S P)
    unfolding walk deliver deliver_block resume
    block_round begin end w =
        resume
          (walk (deliver begin end false) begin end (record w {
            caller = reset (sub64 end begin) w.caller;
            reads_done = 0;
            chunks_done = 0;
          }))
          (deliver_block begin end)

    -- Pass::InBlocks
    pub in_blocks : ℕ → ℕ → Action (Walked S P)
    unfolding in_steps block_round
    in_blocks bytes_per_channel hint =
        let count = plan.planes.spectral.count in
        let most = emit_channels plan layer_chunks bytes_per_channel hint in
        in_steps (suc count) (λ at. aligned_slab_end plan at most count) count block_round 0

  -- Pass::Whole; a fraction is handed over as the numbers that the source divides.
  pub whole : (ℕ → ℕ → S → S × Bool) → Action (Walked S P)
  unfolding walk go_on
  whole progress w =
      let count = plan.planes.spectral.count in
      let total = chunks_covering plan (max 1 layer_chunks) 0 count in
      walk (λ chunks_done s. go_on (progress chunks_done total s)) 0 count
        (record w { reads_done = 0; chunks_done = 0 })

-- The layer that PassOverFootprints counts progress in.
pub layer_of : List SlabFootprint → ℕ
layer_of [] = 0
layer_of (f ∷ footprints) = add64 f.chunks (layer_of footprints)
