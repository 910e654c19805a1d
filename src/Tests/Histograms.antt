-- ===== src/Tests/Histograms.antt =====
-- The result about the growing histogram at a concrete one, of four bins, whole numbers for its doubles.
use carta_zarr.Base.{ℕ, ◌-◌, ◌*◌, refl, true, false, [], ◌∷◌, arith}
use carta_zarr.Histogram.{Doubles, GrowingHistogram, grow}
use carta_zarr.Histogram.Keeps.{IsGrown, grow-IsGrown}

abbrev whole_numbers : Doubles ℕ
whole_numbers = record { subtract = λ a b. a - b; multiply = λ a b. a * b; of_count = λ n. n }

abbrev four_bins : GrowingHistogram ℕ
four_bins = record { counts = 3 ∷ 1 ∷ 0 ∷ 5 ∷ []; lower = 20; width = 2; seeded = true }

grow-IsGrown_example : IsGrown whole_numbers false 2 four_bins (grow whole_numbers false four_bins)
grow-IsGrown_example = grow-IsGrown whole_numbers false four_bins 2 refl (omega arith)
