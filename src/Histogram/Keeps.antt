-- ===== src/Histogram/Keeps.antt =====
-- GrowingHistogram::Grow of src/reduce/growing_histogram.h: that it keeps every count.
use carta_zarr.Base.{
  ℕ, zero, suc, ◌+◌, ◌*◌, ◌/◌, ◌^◌, ◌<◌, ◌≤◌, ◌≡◌, ◌≢◌, refl, sym, ◌∙◌, Bool, true, false,
  if◌then◌else◌, List, [], ◌∷◌, arith, length, get_or, set, replicate, length-set, length-replicate,
  get_or-set_ne, get_or-set_self, ℕ_discrete, add64, add64_lem,
}
use carta_zarr.Histogram.{Doubles, GrowingHistogram, merge_bins, grow}

abbrev pub total : List ℕ → ℕ
total [] = 0
total (n ∷ counts) = n + total counts

-- The counts of `n` pairs of bins, from pair `m` on.
abbrev pairs_total : List ℕ → ℕ → ℕ → ℕ
pairs_total counts zero m = 0
pairs_total counts (suc n) m =
    get_or counts (2 * m) 0 + get_or counts (2 * m + 1) 0 + pairs_total counts n (m + 1)

total-set :
    (xs : List ℕ) (i v : ℕ) → i < length xs → total (set xs i v) + get_or xs i 0 ≡ total xs + v
total-set [] i v h = absurd (omega arith)
total-set (x ∷ xs) zero v h = omega arith
total-set (x ∷ xs) (suc i) v h = omega (arith, total-set xs i v (omega arith))

total-replicate : (n : ℕ) → total (replicate n 0) ≡ 0
total-replicate zero = refl
total-replicate (suc n) = omega (arith, total-replicate n)

get_or-replicate : (n i : ℕ) → get_or {A = ℕ} (replicate n 0) i 0 ≡ 0
get_or-replicate zero i = refl
get_or-replicate (suc n) zero = refl
get_or-replicate (suc n) (suc i) = get_or-replicate n i

-- The place of a merged bin.
place : Bool → ℕ → ℕ → ℕ
place upward half m = if upward then m else half + m

place_within : (upward : Bool) (half m : ℕ) → m < half → place upward half m < 2 * half
unfolding place
place_within true half m h = omega arith
place_within false half m h = omega arith

place_other : (upward : Bool) (half m j : ℕ) → m < j → place upward half m ≢ place upward half j
unfolding place
place_other true half m j h e = absurd (omega arith)
place_other false half m j h e = absurd (omega arith)

merge_bins-total :
    (upward : Bool) (half : ℕ) (counts : List ℕ) (n m : ℕ) (merged : List ℕ)
    → length merged ≡ 2 * half
    → n + m ≡ half
    → ((j : ℕ) → m ≤ j → j < half → get_or merged (place upward half j) 0 ≡ 0)
    → pairs_total counts n m < 2 ^ 64
    → total (merge_bins upward half counts n m merged) ≡ total merged + pairs_total counts n m
unfolding merge_bins place
merge_bins-total upward half counts zero m merged len sum free t = omega arith
merge_bins-total upward half counts (suc n) m merged len sum free t =
    let pair : ℕ = add64 (get_or counts (2 * m) 0) (get_or counts (2 * m + 1) 0) in
    let at : ℕ = place upward half m in
    let fits : pair ≡ get_or counts (2 * m) 0 + get_or counts (2 * m + 1) 0 =
      add64_lem (get_or counts (2 * m) 0) (get_or counts (2 * m + 1) 0) (omega arith) in
    let size : length (set merged at pair) ≡ 2 * half = length-set merged at pair ∙ len in
    let rest =
      merge_bins-total upward half counts n (m + 1) (set merged at pair) size (omega arith)
        (λ j l b.
          get_or-set_ne merged at (place upward half j) pair 0
            (place_other upward half m j (omega arith))
          ∙ free j (omega arith) b)
        (omega arith) in
    omega (
      arith,
      rest,
      total-set merged at pair (omega (arith, place_within upward half m (omega arith), len)),
      free m (omega arith) (omega arith),
      fits,
    )

pairs_total-shift :
    (a b : ℕ) (counts : List ℕ) (n m : ℕ)
    → pairs_total (a ∷ b ∷ counts) n (m + 1) ≡ pairs_total counts n m
pairs_total-shift a b counts zero m = refl
pairs_total-shift a b counts (suc n) m =
    let even : 2 * (m + 1) ≡ suc (suc (2 * m)) = omega arith in
    let odd : 2 * (m + 1) + 1 ≡ suc (suc (2 * m + 1)) = omega arith in
    rw (odd, even) (omega (arith, pairs_total-shift a b counts n (m + 1)))

pairs_total-total :
    (counts : List ℕ) (half : ℕ)
    → length counts ≡ 2 * half
    → pairs_total counts half 0 ≡ total counts
pairs_total-total [] zero e = refl
pairs_total-total [] (suc half) e = absurd (omega arith)
pairs_total-total (a ∷ []) half e = absurd (omega arith)
pairs_total-total (a ∷ b ∷ counts) zero e = absurd (omega arith)
pairs_total-total (a ∷ b ∷ counts) (suc half) e =
    omega (arith, pairs_total-shift a b counts half 0, pairs_total-total counts half (omega arith))

length-merge_bins :
    (upward : Bool) (half : ℕ) (counts : List ℕ) (n m : ℕ) (merged : List ℕ)
    → length (merge_bins upward half counts n m merged) ≡ length merged
unfolding merge_bins
length-merge_bins upward half counts zero m merged = refl
length-merge_bins upward half counts (suc n) m merged =
    length-merge_bins upward half counts n (m + 1) _ ∙ length-set merged _ _

-- What the rounds write at a place before theirs, and at theirs.
merge_bins-kept :
    (upward : Bool) (half : ℕ) (counts : List ℕ) (n m j : ℕ) (merged : List ℕ)
    → j < m
    → get_or (merge_bins upward half counts n m merged) (place upward half j) 0
      ≡ get_or merged (place upward half j) 0
unfolding merge_bins place
merge_bins-kept upward half counts zero m j merged h = refl
merge_bins-kept upward half counts (suc n) m j merged h =
    merge_bins-kept upward half counts n (m + 1) j _ (omega arith)
    ∙ get_or-set_ne merged (place upward half m) (place upward half j) _ 0
        (λ e. place_other upward half j m h (sym e))

merge_bins-pair :
    (upward : Bool) (half : ℕ) (counts : List ℕ) (n m j : ℕ) (merged : List ℕ)
    → length merged ≡ 2 * half
    → n + m ≡ half
    → m ≤ j
    → j < half
    → get_or (merge_bins upward half counts n m merged) (place upward half j) 0
      ≡ add64 (get_or counts (2 * j) 0) (get_or counts (2 * j + 1) 0)
unfolding merge_bins place
merge_bins-pair upward half counts zero m j merged len sum l b = absurd (omega arith)
merge_bins-pair upward half counts (suc n) m j merged len sum l b = elim (ℕ_discrete m j) [
  | no other ↦
      merge_bins-pair upward half counts n (m + 1) j _ (length-set merged _ _ ∙ len) (omega arith)
        (omega arith) b
  | yes same ↦
      let pair : ℕ = add64 (get_or counts (2 * m) 0) (get_or counts (2 * m + 1) 0) in
      let written : get_or
            (merge_bins upward half counts n (m + 1) (set merged (place upward half m) pair))
            (place upward half m) 0
          ≡ pair =
        merge_bins-kept upward half counts n (m + 1) m (set merged (place upward half m) pair)
          (omega arith)
        ∙ get_or-set_self merged (place upward half m) pair 0
            (omega (arith, place_within upward half m (omega arith), len)) in
      rw (← same) written
]

pair-le :
    (counts : List ℕ) (j half : ℕ)
    → length counts ≡ 2 * half
    → j < half
    → get_or counts (2 * j) 0 + get_or counts (2 * j + 1) 0 ≤ total counts
pair-le [] j zero e h = absurd (omega arith)
pair-le [] j (suc half) e h = absurd (omega arith)
pair-le (a ∷ []) j half e h = absurd (omega arith)
pair-le (a ∷ b ∷ counts) j zero e h = absurd (omega arith)
pair-le (a ∷ b ∷ counts) zero (suc half) e h = omega arith
pair-le (a ∷ b ∷ counts) (suc j) (suc half) e h =
    let even : 2 * suc j ≡ suc (suc (2 * j)) = omega arith in
    let odd : 2 * suc j + 1 ≡ suc (suc (2 * j + 1)) = omega arith in
    rw (odd, even) (omega (arith, pair-le counts j half (omega arith) (omega arith)))

-- The half of the bins that the old range becomes: the first, where the range grows upward, and the
-- second where it grows downward.
abbrev pub old_half : Bool → ℕ → ℕ
old_half true half = 0
old_half false half = half

place-old_half : (upward : Bool) (half m : ℕ) → place upward half m ≡ old_half upward half + m
unfolding place
place-old_half true half m = omega arith
place-old_half false half m = refl

-- A histogram grown out of another, of `half` pairs of bins.
pub record IsGrown {F : Type 0} (doubles : Doubles F) (upward : Bool) (half : ℕ)
    (before after : GrowingHistogram F) : Type 0 where
  pub bins : length after.counts ≡ 2 * half
  pub merged :
      (m : ℕ)
      → m < half
      → get_or after.counts (old_half upward half + m) 0
        ≡ get_or before.counts (2 * m) 0 + get_or before.counts (2 * m + 1) 0
  pub kept : total after.counts ≡ total before.counts
  pub lower : after.lower ≡ (
      if upward
      then before.lower
      else doubles.subtract before.lower
          (doubles.multiply before.width (doubles.of_count (2 * half))))
  pub width : after.width ≡ doubles.multiply before.width (doubles.of_count 2)

grow-total :
    {F : Type 0} (doubles : Doubles F) (upward : Bool) (h : GrowingHistogram F) (half : ℕ)
    → length h.counts ≡ 2 * half
    → total h.counts < 2 ^ 64
    → total (grow doubles upward h).counts ≡ total h.counts
unfolding grow
grow-total doubles upward h half even t =
    let bins : length h.counts / 2 ≡ half = omega arith in
    let pairs = pairs_total-total h.counts half even in
    rw bins (
      omega (
        arith,
        merge_bins-total upward half h.counts half 0 (replicate (length h.counts) 0)
            (length-replicate (length h.counts) 0 ∙ even) (omega arith)
            (λ j l b. get_or-replicate (length h.counts) (place upward half j))
            (omega (arith, pairs, t)),
        total-replicate (length h.counts),
        pairs,
      ))

-- Grow, of a histogram of an even number of bins that hold fewer than 2^64 in all: it has as many bins
-- after it; each two bins that stood side by side are one bin, in their order, in the first half of the
-- bins where the range grows upward and in the second where it grows downward, with the counts of both;
-- the counts add up to what they did; and the range's lower end is where it was, or lower by the whole
-- range, of bins twice as wide.
pub grow-IsGrown :
    {F : Type 0} (doubles : Doubles F) (upward : Bool) (h : GrowingHistogram F) (half : ℕ)
    → length h.counts ≡ 2 * half
    → total h.counts < 2 ^ 64
    → IsGrown doubles upward half h (grow doubles upward h)
unfolding grow
grow-IsGrown doubles upward h half even t =
    let bins : length h.counts / 2 ≡ half = omega arith in
    let blank : length (replicate {A = ℕ} (length h.counts) 0) ≡ 2 * half =
      length-replicate (length h.counts) 0 ∙ even in
    record {
      bins =
          length-merge_bins upward (length h.counts / 2) h.counts (length h.counts / 2) 0 _ ∙ blank;
      merged = λ m l.
          rw (bins, ← place-old_half upward half m)
            (merge_bins-pair upward half h.counts half 0 m _ blank (omega arith) (omega arith) l
              ∙ add64_lem (get_or h.counts (2 * m) 0) (get_or h.counts (2 * m + 1) 0)
                  (omega (arith, pair-le h.counts m half even l, t)));
      kept = grow-total doubles upward h half even t;
      lower = rw even refl;
      width = refl;
    }
