-- ===== src/Base/Assign.antt =====
-- Writing a list of (index, value) pairs into a list, one after another.
use carta_zarr.Base.Tests.{◌==◌, if◌then◌else◌}
use carta_zarr.Base.Lists.{
  length, get_or, set, replicate, product, length-set, length-replicate, get_or-set_self,
  get_or-set_ne,
}
use Prim.Native.Nat.{ℕ, zero, suc, ◌+◌, ◌*◌, ◌<◌, max}
use mathlib.Core.Path.{◌≡◌, refl, sym, ◌∙◌}
use mathlib.Core.Logic.{◌≢◌, ◌⊎◌, inl, inr}
use mathlib.Core.List.{List, [], ◌∷◌}
use native.Mathlib.Omega.{arith}

unfoldable pub assign : List (ℕ × ℕ) → List ℕ → List ℕ
assign [] xs = xs
assign ((i, v) ∷ ps) xs = assign ps (set xs i v)

-- No pair writes index `i`; no two pairs write one index; every index is below `n`; every value is
-- positive; some pair writes `v` at `i`.
abbrev pub Avoids : ℕ → List (ℕ × ℕ) → Type 0
Avoids i [] = Unit
Avoids i ((j, v) ∷ ps) = (i ≢ j) × Avoids i ps

abbrev pub Distinct : List (ℕ × ℕ) → Type 0
Distinct [] = Unit
Distinct ((i, v) ∷ ps) = Avoids i ps × Distinct ps

abbrev pub Below : ℕ → List (ℕ × ℕ) → Type 0
Below n [] = Unit
Below n ((i, v) ∷ ps) = (i < n) × Below n ps

abbrev pub Positive : List (ℕ × ℕ) → Type 0
Positive [] = Unit
Positive ((i, v) ∷ ps) = (0 < v) × Positive ps

abbrev pub Has : ℕ → ℕ → List (ℕ × ℕ) → Type 0
Has i v [] = ⊥
Has i v ((j, w) ∷ ps) = ((i ≡ j) × (v ≡ w)) ⊎ Has i v ps

unfoldable pub values : List (ℕ × ℕ) → List ℕ
values [] = []
values ((i, v) ∷ ps) = v ∷ values ps

pub length-assign : (ps : List (ℕ × ℕ)) (xs : List ℕ) → length (assign ps xs) ≡ length xs
unfolding assign
length-assign [] xs = refl
length-assign ((i, v) ∷ ps) xs = length-assign ps (set xs i v) ∙ length-set xs i v

pub get_or-assign_avoided :
    (ps : List (ℕ × ℕ)) (xs : List ℕ) (i d : ℕ)
    → Avoids i ps
    → get_or (assign ps xs) i d ≡ get_or xs i d
unfolding assign
get_or-assign_avoided [] xs i d h = refl
get_or-assign_avoided ((j, v) ∷ ps) xs i d h =
    get_or-assign_avoided ps (set xs j v) i d h.1 ∙ get_or-set_ne xs j i v d (λ e. h.0 (sym e))

-- What is written is read back.
pub get_or-assign :
    (ps : List (ℕ × ℕ)) (xs : List ℕ) (i v d : ℕ)
    → Distinct ps
    → i < length xs
    → Has i v ps
    → get_or (assign ps xs) i d ≡ v
unfolding assign
get_or-assign [] xs i v d u b h = absurd h
get_or-assign ((j, w) ∷ ps) xs i v d u b (inl h) =
    rw (h.0, h.1)
      (get_or-assign_avoided ps (set xs j w) j d u.0
        ∙ get_or-set_self xs j w d (omega (arith, h.0)))
get_or-assign ((j, w) ∷ ps) xs i v d u b (inr h) =
    get_or-assign ps (set xs j w) i v d u.1 (omega (arith, length-set xs j w)) h

-- The pairs' indices are still unwritten.
abbrev Unset : List (ℕ × ℕ) → List ℕ → Type 0
Unset [] xs = Unit
Unset ((i, v) ∷ ps) xs = (i < length xs) × (0 < v) × (get_or xs i 0 ≡ 0) × Unset ps xs

Unset-set :
    (ps : List (ℕ × ℕ)) (xs : List ℕ) (i v : ℕ) → Avoids i ps → Unset ps xs → Unset ps (set xs i v)
Unset-set [] xs i v a u = tt
Unset-set ((j, w) ∷ ps) xs i v a u = (
  omega (arith, length-set xs i v),
  u.1,
  get_or-set_ne xs i j v 0 a.0 ∙ u.2,
  Unset-set ps xs i v a.1 u.3,
)

zeros : List ℕ → ℕ
zeros [] = 0
zeros (x ∷ xs) = (if x == 0 then 1 else 0) + zeros xs

filled : List ℕ → ℕ
filled [] = 1
filled (x ∷ xs) = max 1 x * filled xs

zeros-set :
    (xs : List ℕ) (i v : ℕ)
    → i < length xs
    → 0 < v
    → get_or xs i 0 ≡ 0
    → zeros (set xs i v) + 1 ≡ zeros xs
unfolding zeros
zeros-set [] i v h p z = absurd (omega arith)
zeros-set (x ∷ xs) zero v h p z = ground arith
zeros-set (x ∷ xs) (suc i) v h p z = omega (arith, zeros-set xs i v (omega arith) p z)

filled-set :
    (xs : List ℕ) (i v : ℕ)
    → i < length xs
    → 0 < v
    → get_or xs i 0 ≡ 0
    → filled (set xs i v) ≡ v * filled xs
unfolding filled
filled-set [] i v h p z = absurd (omega arith)
filled-set (x ∷ xs) zero v h p z =
    let e : max 1 v ≡ v = omega arith in
    let o : max 1 x ≡ 1 = omega arith in rw (e, o) (omega arith)
filled-set (x ∷ xs) (suc i) v h p z = rw (filled-set xs i v (omega arith) p z) (omega arith)

zeros-assign :
    (ps : List (ℕ × ℕ)) (xs : List ℕ)
    → Distinct ps
    → Unset ps xs
    → zeros (assign ps xs) + length ps ≡ zeros xs
unfolding assign
zeros-assign [] xs d u = omega arith
zeros-assign ((i, v) ∷ ps) xs d u = omega (
  arith,
  zeros-set xs i v u.0 u.1 u.2,
  zeros-assign ps (set xs i v) d.1 (Unset-set ps xs i v d.0 u.3),
)

filled-assign :
    (ps : List (ℕ × ℕ)) (xs : List ℕ)
    → Distinct ps
    → Unset ps xs
    → filled (assign ps xs) ≡ product (values ps) * filled xs
unfolding assign values
filled-assign [] xs d u = omega arith
filled-assign ((i, v) ∷ ps) xs d u =
    filled-assign ps (set xs i v) d.1 (Unset-set ps xs i v d.0 u.3)
    ∙ rw (filled-set xs i v u.0 u.1 u.2) (grind arith)

product-filled : (xs : List ℕ) → zeros xs ≡ 0 → product xs ≡ filled xs
unfolding zeros filled
product-filled [] z = refl
product-filled (x ∷ xs) z =
    let p : 0 < x = ground arith in
    let e : max 1 x ≡ x = omega arith in rw (e, product-filled xs (omega arith))

get_or-replicate : (n i : ℕ) → get_or {A = ℕ} (replicate n 0) i 0 ≡ 0
get_or-replicate zero i = refl
get_or-replicate (suc n) zero = refl
get_or-replicate (suc n) (suc i) = get_or-replicate n i

Unset-replicate : (n : ℕ) (ps : List (ℕ × ℕ)) → Below n ps → Positive ps → Unset ps (replicate n 0)
Unset-replicate n [] b p = tt
Unset-replicate n ((i, v) ∷ ps) b p = (
  omega (arith, b.0, length-replicate {A = ℕ} n 0),
  p.0,
  get_or-replicate n i,
  Unset-replicate n ps b.1 p.1,
)

zeros-replicate : (n : ℕ) → zeros (replicate n 0) ≡ n
unfolding zeros
zeros-replicate zero = refl
zeros-replicate (suc n) = omega (arith, zeros-replicate n)

filled-replicate : (n : ℕ) → filled (replicate n 0) ≡ 1
unfolding filled
filled-replicate zero = refl
filled-replicate (suc n) = omega (arith, filled-replicate n)

-- `n` distinct positive writes fill `n` zeros, and leave the product of what was written.
pub product-assign :
    (n : ℕ) (ps : List (ℕ × ℕ))
    → length ps ≡ n
    → Distinct ps
    → Below n ps
    → Positive ps
    → product (assign ps (replicate n 0)) ≡ product (values ps)
product-assign n ps len d b p =
    let u = Unset-replicate n ps b p in
    let z = zeros-assign ps (replicate n 0) d u in
    product-filled (assign ps (replicate n 0)) (omega (arith, z, zeros-replicate n))
    ∙ filled-assign ps (replicate n 0) d u
    ∙ rw (filled-replicate n) (omega arith)
