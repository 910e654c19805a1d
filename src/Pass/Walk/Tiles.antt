-- ===== src/Pass/Walk/Tiles.antt =====
-- The walks of src/reduce/pass.h go over what they are given from end to end, in whole chunks.
use carta_zarr.Base.{
  ℕ, suc, ◌+◌, ◌-◌, ◌*◌, ◌^◌, ◌≤◌, ◌<◌, ◌≡◌, min, max, List, [], ◌∷◌, arith, sub64, sub64_lem,
  Option, Result, Bool, String,
}
use carta_zarr.Chunk.Grid.{chunk_at}
use carta_zarr.Chunk.Align.{IsBlock, aligned_block_end-IsBlock}
use carta_zarr.Read.Selection.{ReadControl}
use carta_zarr.Read.InPieces.{PixelSource}
use carta_zarr.Steps.Tiling.{Advances, Tiling, over_runs, in_steps-Tiling}
use carta_zarr.Pass.{PassPlan, SlabFootprint, aligned_slab_end, slab_channels, emit_channels}
use carta_zarr.Pass.Walk.{Slab, Walked, Shape, slab_round, over, block_round, in_blocks}

-- The selected channels [0, end) of a plan, none of whose positions wrap.
pub record IsWalkable (plan : PassPlan) (end : ℕ) : Type 0 where
  pub short : end ≤ 2 ^ 63
  pub span :
      plan.planes.spectral.start + end * plan.planes.spectral.stride + plan.chunk_depth < 2 ^ 64
  pub deep : 0 < plan.chunk_depth
  pub strides : 0 < plan.planes.spectral.stride

-- The chunk along the spectrum that a selected channel is in.
abbrev pub channel_chunk : PassPlan → ℕ → ℕ
channel_chunk plan i =
    chunk_at plan.planes.spectral.start plan.planes.spectral.stride plan.chunk_depth i

-- A run that ends before `end` ends where a chunk does.
abbrev pub EndsChunks : PassPlan → ℕ → List (ℕ × ℕ) → Type 0
EndsChunks plan end [] = Unit
EndsChunks plan end ((first, last) ∷ runs) =
    (last < end → channel_chunk plan (last - 1) < channel_chunk plan last)
    × EndsChunks plan end runs

module _ (plan : PassPlan) (end : ℕ) (v : IsWalkable plan end) where
  slab_end-IsBlock :
      (at desired : ℕ)
      → at < end
      → desired ≤ 2 ^ 63
      → IsBlock at
          (min (at + max 1 desired) end)
          end
          plan.planes.spectral.start
          plan.planes.spectral.stride
          plan.chunk_depth
          (aligned_slab_end plan at desired end)
  unfolding aligned_slab_end
  slab_end-IsBlock at desired h few =
      aligned_block_end-IsBlock at desired end plan.planes.spectral.start
        plan.planes.spectral.stride plan.chunk_depth h (omega (arith, v.short))
        (omega (arith, v.short)) v.span

  pub slabs-Advance :
      (desired : ℕ → ℕ)
      → ((at : ℕ) → at < end → desired at ≤ 2 ^ 63)
      → Advances (λ at. aligned_slab_end plan at (desired at) end) end
  slabs-Advance desired few at h =
      let b = slab_end-IsBlock at (desired at) h (few at h) in (b.forward, b.within)

  pub Tiling-EndsChunks :
      (desired : ℕ → ℕ)
      → ((at : ℕ) → at < end → desired at ≤ 2 ^ 63)
      → (at : ℕ) (runs : List (ℕ × ℕ))
      → Tiling (λ at. aligned_slab_end plan at (desired at) end) at end runs
      → EndsChunks plan end runs
  Tiling-EndsChunks desired few at [] t = tt
  Tiling-EndsChunks desired few at ((first, last) ∷ runs) (ef, el, l, w, t) = (
    (λ short.
        let inside : at < end = omega arith in
        rw el (
          (slab_end-IsBlock at (desired at) inside (few at inside)).whole v.deep v.strides
            (rw el at short))),
    Tiling-EndsChunks desired few last runs t,
  )

module _ {S P : Type 0} (nan nought : P) (source : PixelSource P) (plan : PassPlan)
    (control : S → ReadControl) (report : ℕ → S → S × Result (Unit {0}))
    (visit : Slab P → S → S) where
  -- Over's step.
  abbrev pub next_slab : SlabFootprint → ℕ → ℕ → ℕ
  next_slab footprint end at =
      aligned_slab_end plan at (min (slab_channels plan footprint.chunks) (sub64 end at)) end

  -- Over a footprint whose channels do not wrap: its loop ends, and is its slabs read one after another
  -- until one fails; the slabs hold a channel or more each, lie end to end from `begin` to `end`, and
  -- no chunk along the spectrum is in two of them.
  pub over-Tiling :
      (footprint : SlabFootprint) (begin end : ℕ)
      → IsWalkable plan end
      → begin ≤ end
      → (slabs : List (ℕ × ℕ)) × Tiling (next_slab footprint end) begin end slabs
        × EndsChunks plan end slabs
        × ((w : Walked S P)
            → over nan nought source plan control report visit footprint begin end w
              ≡ over_runs slabs
                  (slab_round nan nought source plan control report visit footprint begin)
                  w)
  unfolding over
  over-Tiling footprint begin end v h =
      let desired = λ (at : ℕ). min (slab_channels plan footprint.chunks) (sub64 end at) in
      let few : (at : ℕ) → at < end → desired at ≤ 2 ^ 63 =
        λ at l. omega (arith, sub64_lem end at (omega arith) (omega (arith, v.short)), v.short) in
      let (slabs, t, same) =
        in_steps-Tiling (suc (end - begin)) (next_slab footprint end) end
          (slab_round nan nought source plan control report visit footprint begin) begin
          (slabs-Advance plan end v desired few) h (omega arith) in
      (slabs, t, Tiling-EndsChunks plan end v desired few begin slabs t, same)

emit_channels-le :
    (plan : PassPlan) (layer bytes hint : ℕ)
    → emit_channels plan layer bytes hint ≤ plan.planes.spectral.count
unfolding emit_channels
emit_channels-le plan layer bytes hint = omega arith

-- InBlocks' step.
abbrev pub next_block : PassPlan → ℕ → ℕ → ℕ → ℕ → ℕ
next_block plan layer_chunks bytes_per_channel hint at =
    aligned_slab_end plan at (emit_channels plan layer_chunks bytes_per_channel hint)
      plan.planes.spectral.count

module _ {S P F : Type 0} (slab : F → SlabFootprint) (nan nought : P) (source : PixelSource P)
    (plan : PassPlan) (control : S → ReadControl) (shape : Shape F) (layer_chunks : ℕ)
    (cancelled : String) (visit : Option F → Slab P → S → S) (reset : ℕ → S → S)
    (hand_over : ℕ → ℕ → Bool → ℕ × ℕ → S → S × Bool) where
  -- InBlocks over a selection whose channels do not wrap: its loop ends, and is its blocks walked and handed
  -- over one after another until one fails; the blocks hold a channel or more each, lie end to end over
  -- the whole selection, and no chunk along the spectrum is in two of them.
  pub in_blocks-Tiling :
      (bytes_per_channel hint : ℕ)
      → IsWalkable plan plan.planes.spectral.count
      → (blocks : List (ℕ × ℕ)) × Tiling
          (next_block plan layer_chunks bytes_per_channel hint)
          0
          plan.planes.spectral.count
          blocks
        × EndsChunks plan plan.planes.spectral.count blocks
        × ((w : Walked S P)
            → in_blocks slab nan nought source plan control shape layer_chunks cancelled visit reset
                hand_over bytes_per_channel hint w
              ≡ over_runs blocks
                  (block_round slab nan nought source plan control shape layer_chunks cancelled
                    visit reset hand_over)
                  w)
  unfolding in_blocks
  in_blocks-Tiling bytes_per_channel hint v =
      let count = plan.planes.spectral.count in
      let desired = λ (at : ℕ). emit_channels plan layer_chunks bytes_per_channel hint in
      let few : (at : ℕ) → at < count → desired at ≤ 2 ^ 63 =
        λ at l. omega (arith, emit_channels-le plan layer_chunks bytes_per_channel hint, v.short) in
      let (blocks, t, same) =
        in_steps-Tiling (suc count) (next_block plan layer_chunks bytes_per_channel hint) count
          (block_round slab nan nought source plan control shape layer_chunks cancelled visit reset
            hand_over)
          0 (slabs-Advance plan count v desired few) (omega arith) (omega arith) in
      (blocks, t, Tiling-EndsChunks plan count v desired few 0 blocks t, same)
