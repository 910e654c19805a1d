-- ===== src/Pass/Emits.antt =====
-- EmitChannels of src/reduce/pass.cc: how many spectral channels are handed over together.
use carta_zarr.Base.{ℕ, ◌*◌, ◌/◌, ◌≤◌, ◌≢◌, ◌⊎◌, inl, inr, max, arith, ne→==, dec_lt}
use carta_zarr.Chunk.Grid.{div-bounds}
use native.Mathlib.Nat.{mul-le-mul_right, mul-le-mul_left}
use carta_zarr.Pass.{PassPlan, emit_channels, spectral_emit_budget_bytes}

in_budget :
    (bytes channels : ℕ)
    → channels ≤ max 1 (spectral_emit_budget_bytes / max 1 bytes)
    → (channels * bytes ≤ spectral_emit_budget_bytes) ⊎ (channels ≤ 1)
in_budget bytes channels h = elim (dec_lt 1 channels) [
  | no one ↦ inr (omega arith)
  | yes several ↦ inl (
      omega (
        arith,
        div-bounds spectral_emit_budget_bytes (max 1 bytes) (omega arith),
        mul-le-mul_right {m = channels} {n = spectral_emit_budget_bytes / max 1 bytes} (max 1 bytes)
            (omega arith),
        mul-le-mul_left {m = bytes} {n = max 1 bytes} channels (omega arith),
      ))
]

-- EmitChannels of any plan: never more channels than the selection has, nor than a hint asks for; and
-- their partial results fit the emit budget, unless it is one channel alone whose results do not.
pub emit_channels-bounds :
    (plan : PassPlan) (layer_chunks bytes_per_channel hint : ℕ)
    → (emit_channels plan layer_chunks bytes_per_channel hint ≤ plan.planes.spectral.count)
      × (hint ≢ 0 → emit_channels plan layer_chunks bytes_per_channel hint ≤ hint)
      × ((emit_channels plan layer_chunks bytes_per_channel hint * bytes_per_channel
            ≤ spectral_emit_budget_bytes)
          ⊎ (emit_channels plan layer_chunks bytes_per_channel hint ≤ 1))
unfolding emit_channels
emit_channels-bounds plan layer_chunks bytes_per_channel hint = (
  omega arith,
  (λ some. rw (ne→== hint 0 some) (omega arith)),
  in_budget bytes_per_channel (emit_channels plan layer_chunks bytes_per_channel hint)
      (omega arith),
)
