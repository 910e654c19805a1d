-- ===== src/Metadata/Order.antt =====
-- TransposeOrder of src/zarr/array_metadata.cc: the orders that it gives are permutations of the axes.
use carta_zarr.Base.{
  ℕ, zero, suc, ◌+◌, ◌-◌, ◌<◌, ◌≡◌, ◌≢◌, refl, sym, ap, ◌∙◌, Bool, true, false, ◌||◌, List, [], ◌∷◌,
  Option, none, some, String, arith, if◌then◌else◌, leb, ◌==◌, leb→lt, ==→eq, Bool-cases,
  Option-cases, inl, inr, length, get_or, set, replicate, length-set, length-replicate,
  get_or-set_ne, ℕ_discrete,
}
use carta_zarr.Json.{View, member, array_of, string_of, non_negative}
use carta_zarr.Metadata.Codecs.{
  axes_up, axes_down, read_order, spelled_order, listed_order, transpose_order,
}
use package.text.Mathlib.Text.{◌==◌ as ◌same_text◌}

-- A list of `rank` axes in which every axis below `rank` stands.
pub record IsOrder (rank : ℕ) (axes : List ℕ) : Type 0 where
  pub sized : length axes ≡ rank
  pub below : (i : ℕ) → i < rank → get_or axes i 0 < rank
  pub onto : (j : ℕ) → j < rank → (i : ℕ) × (i < rank) × (get_or axes i 0 ≡ j)

axes_up_at : (n at i : ℕ) → i < n → get_or (axes_up at n) i 0 ≡ at + i
unfolding axes_up
axes_up_at zero at i h = absurd (omega arith)
axes_up_at (suc n) at zero h = omega arith
axes_up_at (suc n) at (suc i) h = omega (arith, axes_up_at n (suc at) i (omega arith))

length-axes_up : (n at : ℕ) → length (axes_up at n) ≡ n
unfolding axes_up
length-axes_up zero at = refl
length-axes_up (suc n) at = ap suc (length-axes_up n (suc at))

pub axes_up-IsOrder : (rank : ℕ) → IsOrder rank (axes_up 0 rank)
axes_up-IsOrder rank = record {
  sized = length-axes_up rank 0;
  below = λ i h. omega (arith, axes_up_at rank 0 i h);
  onto = λ j h. (j, h, omega (arith, axes_up_at rank 0 j h));
}

axes_down_at : (n i : ℕ) → i < n → get_or (axes_down n) i 0 ≡ n - 1 - i
unfolding axes_down
axes_down_at zero i h = absurd (omega arith)
axes_down_at (suc n) zero h = omega arith
axes_down_at (suc n) (suc i) h = omega (arith, axes_down_at n i (omega arith))

length-axes_down : (n : ℕ) → length (axes_down n) ≡ n
unfolding axes_down
length-axes_down zero = refl
length-axes_down (suc n) = ap suc (length-axes_down n)

axes_down-IsOrder : (rank : ℕ) → IsOrder rank (axes_down rank)
axes_down-IsOrder rank = record {
  sized = length-axes_down rank;
  below = λ i h. omega (arith, axes_down_at rank i h);
  onto = λ j h.
      (rank - 1 - j, omega arith, omega (arith, axes_down_at rank (rank - 1 - j) (omega arith)));
}

-- How many axes have not been seen.
unseen : List Bool → ℕ
unseen [] = 0
unseen (b ∷ seen) = (if b then 0 else 1) + unseen seen

unseen-set :
    (seen : List Bool) (i : ℕ)
    → i < length seen
    → get_or seen i false ≡ false
    → unseen (set seen i true) + 1 ≡ unseen seen
unfolding unseen
unseen-set [] i h e = absurd (omega arith)
unseen-set (b ∷ seen) zero h e = rw e (omega arith)
unseen-set (b ∷ seen) (suc i) h e = omega (arith, unseen-set seen i (omega arith) e)

unseen_none :
    (seen : List Bool) (i : ℕ) → unseen seen ≡ 0 → i < length seen → get_or seen i false ≢ false
unfolding unseen
unseen_none [] i z h e = absurd (omega arith)
unseen_none (true ∷ seen) zero z h e = cc
unseen_none (false ∷ seen) zero z h e = absurd (omega arith)
unseen_none (b ∷ seen) (suc i) z h e = unseen_none seen i (omega arith) (omega arith) e

unseen-replicate : (n : ℕ) → unseen (replicate n false) ≡ n
unfolding unseen
unseen-replicate zero = refl
unseen-replicate (suc n) = omega (arith, unseen-replicate n)

get_or-replicate : (n i : ℕ) → get_or (replicate n false) i false ≡ false
get_or-replicate zero i = refl
get_or-replicate (suc n) zero = refl
get_or-replicate (suc n) (suc i) = get_or-replicate n i

fresh-cases :
    (rank axis : ℕ) (b : Bool) → (leb rank axis || b) ≡ false → (axis < rank) × (b ≡ false)
fresh-cases rank axis b e = elim (Bool-cases (leb rank axis)) [
  | inl f ↦ absurd (let bad = (rw f at e) in cc)
  | inr f ↦ (leb→lt rank axis f, (rw f at e))
]

module _ {J : Type 0} (view : J → View J) where
  -- What is read, of the axes that are still unseen.
  record IsRest (rank : ℕ) (seen : List Bool) (size : ℕ) (axes : List ℕ) : Type 0 where
    sized : length axes ≡ size
    below : (i : ℕ) → i < size → get_or axes i 0 < rank
    onto :
        (j : ℕ)
        → j < rank
        → get_or seen j false ≡ false
        → (i : ℕ) × (i < size) × (get_or axes i 0 ≡ j)

  IsRest-cons :
      (rank : ℕ) (seen : List Bool) (axis size : ℕ) (rest : List ℕ)
      → rank ≡ length seen
      → axis < rank
      → get_or seen axis false ≡ false
      → IsRest rank (set seen axis true) size rest
      → IsRest rank seen (suc size) (axis ∷ rest)
  IsRest-cons rank seen axis size rest len within fresh v = record {
    sized = ap suc v.sized;
    below = below;
    onto = onto;
  }
    where
      below : (i : ℕ) → i < suc size → get_or (axis ∷ rest) i 0 < rank
      below zero h = within
      below (suc i) h = v.below i (omega arith)

      onto :
          (j : ℕ)
          → j < rank
          → get_or seen j false ≡ false
          → (i : ℕ) × (i < suc size) × (get_or (axis ∷ rest) i 0 ≡ j)
      onto j h e = elim (ℕ_discrete axis j) [
        | yes same ↦ (0, omega arith, same)
        | no other ↦
            let (i, inside, at) = v.onto j h (get_or-set_ne seen axis j true false other ∙ e) in
            (suc i, omega arith, at)
      ]

  read_order-IsRest :
      (rank : ℕ) (seen : List Bool) (js : List J) (axes : List ℕ)
      → length seen ≡ rank
      → unseen seen ≡ length js
      → read_order view rank seen js ≡ some axes
      → IsRest rank seen (length js) axes
  unfolding read_order
  read_order-IsRest rank seen [] axes len z e =
      let one : axes ≡ [] = cc in
      rw one (record {
        sized = refl;
        below = λ i h. absurd (omega arith);
        onto = λ j h f. absurd (unseen_none seen j z (omega arith) f);
      })
  read_order-IsRest rank seen (j ∷ js) axes len z e = elim (Option-cases (non_negative view j)) [
    | inl gone ↦ absurd (let bad = (rw (gone, read_order) at e) in cc)
    | inr (axis, given) ↦ elim (Bool-cases (leb rank axis || get_or seen axis false)) [
      | inl refused ↦ absurd (let bad = (rw (given, refused, read_order) at e) in cc)
      | inr fresh ↦ elim (Option-cases (read_order view rank (set seen axis true) js)) [
        | inl gone ↦ absurd (let bad = (rw (given, fresh, gone, read_order) at e) in cc)
        | inr (rest, more) ↦
            let one : axes ≡ axis ∷ rest =
              (let both = (rw (given, fresh, more, read_order) at e) in cc) in
            let (within, unseen_axis) = fresh-cases rank axis (get_or seen axis false) fresh in
            rw one (
              IsRest-cons rank seen axis (length js) rest (omega arith) within unseen_axis (
                read_order-IsRest rank (set seen axis true) js rest
                  (length-set seen axis true ∙ len)
                  (omega (arith, unseen-set seen axis (omega arith) unseen_axis)) more))
      ]
    ]
  ]

  listed_order-IsOrder :
      (rank : ℕ) (js : Option (List J)) (axes : List ℕ)
      → listed_order view rank js ≡ some axes
      → IsOrder rank axes
  unfolding listed_order
  listed_order-IsOrder rank none axes e = absurd cc
  listed_order-IsOrder rank (some js) axes e = elim (Bool-cases (length js == rank)) [
    | inr f ↦ absurd (let bad = (rw f at e) in cc)
    | inl f ↦
        let size : length js ≡ rank = ==→eq (length js) rank f in
        let all : IsRest rank (replicate rank false) (length js) axes =
          read_order-IsRest rank (replicate rank false) js axes (length-replicate rank false)
            (unseen-replicate rank ∙ sym size) (rw f at e) in
        record {
          sized = all.sized ∙ size;
          below = λ i h. all.below i (omega arith);
          onto = λ j h.
              let (i, inside, at) = all.onto j h (get_or-replicate rank j) in (i, omega arith, at);
        }
  ]

  spelled_order-IsOrder :
      (rank : ℕ) (spelling : String) (axes : List ℕ)
      → spelled_order view rank spelling ≡ some axes
      → IsOrder rank axes
  unfolding spelled_order
  spelled_order-IsOrder rank spelling axes e = elim (Bool-cases (spelling same_text "C")) [
    | inl f ↦
        let one : axes ≡ axes_up 0 rank = (let same = (rw f at e) in cc) in
        rw one (axes_up-IsOrder rank)
    | inr f ↦ elim (Bool-cases (spelling same_text "F")) [
      | inl g ↦
          let one : axes ≡ axes_down rank = (let same = (rw (f, g) at e) in cc) in
          rw one (axes_down-IsOrder rank)
      | inr g ↦ absurd (let bad = (rw (f, g) at e) in cc)
    ]
  ]

  -- Every order that TransposeOrder gives for `rank` axes has `rank` entries, each an axis below `rank`, and
  -- every axis below `rank` stands among them.
  pub transpose_order-IsOrder :
      (codec : J) (rank : ℕ) (axes : List ℕ)
      → transpose_order view codec rank ≡ some axes
      → IsOrder rank axes
  unfolding transpose_order
  transpose_order-IsOrder codec rank axes e =
      elim (Option-cases (member view codec "configuration")) [
        | inl f ↦ absurd (let bad = (rw (f, transpose_order) at e) in cc)
        | inr (configuration, f) ↦ elim (Option-cases (member view configuration "order")) [
          | inl g ↦ absurd (let bad = (rw (f, g, transpose_order) at e) in cc)
          | inr (order, g) ↦ elim (Option-cases (string_of view order)) [
            | inr (spelling, h) ↦
                spelled_order-IsOrder rank spelling axes (rw (f, g, h, transpose_order) at e)
            | inl h ↦
                listed_order-IsOrder rank (array_of view order) axes
                  (rw (f, g, h, transpose_order) at e)
          ]
        ]
      ]
