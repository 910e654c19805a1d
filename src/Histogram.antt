-- ===== src/Histogram.antt =====
-- src/reduce/growing_histogram.h: the doubling of a histogram's range. A double, with its arithmetic, is a
-- parameter.
pub mod Keeps
use carta_zarr.Base.{
  ℕ, zero, suc, ◌+◌, ◌*◌, ◌/◌, Bool, if◌then◌else◌, List, length, get_or, set, replicate, add64,
}

-- The arithmetic of doubles that growing uses.
pub record Doubles (F : Type 0) : Type 0 where
  pub subtract : F → F → F
  pub multiply : F → F → F
  pub of_count : ℕ → F

-- class GrowingHistogram
pub record GrowingHistogram (F : Type 0) : Type 0 where
  pub counts : List ℕ
  pub lower : F
  pub width : F
  pub seeded : Bool

-- The loop of Grow, `n` rounds of it from bin `m` on.
unfoldable pub merge_bins : Bool → ℕ → List ℕ → ℕ → ℕ → List ℕ → List ℕ
merge_bins upward half counts zero m merged = merged
merge_bins upward half counts (suc n) m merged = merge_bins upward half counts n (m + 1) (
    set merged (if upward then m else half + m)
      (add64 (get_or counts (2 * m) 0) (get_or counts (2 * m + 1) 0)))

-- GrowingHistogram::Grow
unfoldable pub grow : {F : Type 0} → Doubles F → Bool → GrowingHistogram F → GrowingHistogram F
unfolding merge_bins
grow doubles upward h =
    let bins = length h.counts in
    let half = bins / 2 in
    record {
      counts = merge_bins upward half h.counts half 0 (replicate bins 0);
      lower =
          if upward
          then h.lower
          else doubles.subtract h.lower (doubles.multiply h.width (doubles.of_count bins));
      width = doubles.multiply h.width (doubles.of_count 2);
      seeded = h.seeded;
    }
