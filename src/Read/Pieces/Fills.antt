-- ===== src/Read/Pieces/Fills.antt =====
-- PlanPieces of src/read/pieces.cc as a whole: whatever the budget, the pieces fill the destination.
use carta_zarr.Base.{
  ℕ, zero, suc, ◌+◌, ◌*◌, ◌/◌, ◌^◌, ◌≤◌, ◌<◌, max, ◌≡◌, refl, sym, ◌∙◌, inl, inr, Bool, true, false,
  not, ◌&&◌, List, [], ◌∷◌, some, Option-cases, Bool-cases, arith, ltb, leb, ◌==◌, if◌then◌else◌,
  length, get_or, set, product, mul64, mul64_lem, mul64-lt, ltb→lt, ltb→le, dec_lt,
}
use carta_zarr.Image.{ImageDescriptor, ChunkGeometry, Range, ReadRequest, ReadOptions}
use carta_zarr.Chunk.{ReadCost, read_cost}
use carta_zarr.Read.Selection.Build.{counts}
use carta_zarr.Read.Pieces.{
  Piece, range_at, slowest_below, slowest_selected_axis, chunks_per_piece, units_per_piece,
  elements_below, cut_along, plan_pieces,
}
use carta_zarr.Read.Pieces.Tiles.{Tiles, IsCuttable, cut_pieces-Tiles}
use native.Mathlib.Nat.{div-le_self}

-- Pieces that land end to end from element `from` of the destination to element `total`.
abbrev pub Fills : ℕ → ℕ → List Piece → Type 0
Fills from total [] = from ≡ total
Fills from total (p ∷ pieces) =
    (p.first_element ≡ from) × Fills (from + product (counts p.request.axes)) total pieces

-- The elements that the axes below `axis` select together, and that every axis above it selects one.
abbrev below : ℕ → List Range → ℕ
below zero axes = 1
below (suc axis) [] = 1
below (suc axis) (r ∷ axes) = r.count * below axis axes

abbrev AllOne : List Range → Type 0
AllOne [] = Unit
AllOne (r ∷ axes) = (r.count ≡ 1) × AllOne axes

abbrev OneAbove : ℕ → List Range → Type 0
OneAbove axis [] = ⊥
OneAbove zero (r ∷ axes) = AllOne axes
OneAbove (suc axis) (r ∷ axes) = OneAbove axis axes

AllOne-product : (axes : List Range) → AllOne axes → product (counts axes) ≡ 1
AllOne-product [] h = refl
AllOne-product (r ∷ axes) h = rw (h.0, AllOne-product axes h.1)

product-set :
    (axis : ℕ) (axes : List Range) (r : Range)
    → OneAbove axis axes
    → product (counts (set axes axis r)) ≡ r.count * below axis axes
product-set axis [] r h = absurd h
product-set zero (x ∷ axes) r h = rw (AllOne-product axes h) refl
product-set (suc axis) (x ∷ axes) r h = rw (product-set axis axes r h) (grind arith)

product-below :
    (axis : ℕ) (axes : List Range)
    → OneAbove axis axes
    → product (counts axes) ≡ (range_at axes axis).count * below axis axes
product-below axis [] h = absurd h
product-below zero (x ∷ axes) h = rw (AllOne-product axes h) refl
product-below (suc axis) (x ∷ axes) h = rw (product-below axis axes h) (grind arith)

elements_below-eq :
    (axis : ℕ) (axes : List Range) (e : ℕ)
    → 0 < below axis axes
    → e * below axis axes < 2 ^ 64
    → elements_below axis axes e ≡ e * below axis axes
unfolding elements_below
elements_below-eq zero axes e pos fits = omega arith
elements_below-eq (suc axis) [] e pos fits = omega arith
elements_below-eq (suc axis) (r ∷ axes) e pos fits =
    let step : e * r.count * below axis axes ≡ e * (r.count * below axis axes) = omega arith in
    let rest : 0 < below axis axes = grind arith in
    let small : e * r.count ≤ e * r.count * below axis axes = grind arith in
    rw (mul64_lem e r.count (omega arith))
      (elements_below-eq axis axes (e * r.count) rest (omega arith) ∙ step)

abbrev pub AllSelect : List Range → Type 0
AllSelect [] = Unit
AllSelect (r ∷ axes) = (0 < r.count) × AllSelect axes

below-pos : (axis : ℕ) (axes : List Range) → AllSelect axes → 0 < below axis axes
below-pos zero axes h = omega arith
below-pos (suc axis) [] h = omega arith
below-pos (suc axis) (r ∷ axes) h =
    let rest = below-pos axis axes h.1 in let here = h.0 in grind arith

-- What SlowestSelectedAxis finds: the axis selects several elements, and those above it one each.
found-count :
    (axes : List Range) (n axis : ℕ)
    → slowest_below axes n ≡ some axis
    → (axis < n) × (1 < (range_at axes axis).count)
unfolding slowest_below
found-count axes zero axis e = cc
found-count axes (suc n) axis e = elim (Bool-cases (ltb 1 (range_at axes n).count)) [
  | inl hit ↦
      let same : n ≡ axis = ground (arith, rw hit at e) in rw (← same) (omega arith, ltb→lt _ _ hit)
  | inr miss ↦ let (h, c) = found-count axes n axis (rw miss at e) in (omega arith, c)
]

found-above :
    (axes : List Range) (n axis : ℕ)
    → slowest_below axes n ≡ some axis
    → (i : ℕ) → axis < i
    → i < n
    → (range_at axes i).count ≤ 1
unfolding slowest_below
found-above axes zero axis e i lo hi = absurd (omega arith)
found-above axes (suc n) axis e i lo hi = elim (Bool-cases (ltb 1 (range_at axes n).count)) [
  | inl hit ↦ let same : n ≡ axis = ground (arith, rw hit at e) in absurd (omega arith)
  | inr miss ↦ elim (dec_lt i n) [
    | yes h ↦ found-above axes n axis (rw miss at e) i lo h
    | no h ↦ let same : i ≡ n = omega arith in rw same (ltb→le _ _ miss)
  ]
]

AllOne-of :
    (axes : List Range)
    → AllSelect axes
    → ((i : ℕ) → i < length axes → (range_at axes i).count ≤ 1)
    → AllOne axes
AllOne-of [] s h = tt
AllOne-of (r ∷ axes) s h =
    (omega (arith, h 0 (omega arith), s.0), AllOne-of axes s.1 (λ i l. h (suc i) (omega arith)))

OneAbove-of :
    (axis : ℕ) (axes : List Range)
    → AllSelect axes
    → axis < length axes
    → ((i : ℕ) → axis < i → i < length axes → (range_at axes i).count ≤ 1)
    → OneAbove axis axes
OneAbove-of axis [] s b h = absurd (omega arith)
OneAbove-of zero (r ∷ axes) s b h =
    AllOne-of axes s.1 (λ i l. h (suc i) (omega arith) (omega arith))
OneAbove-of (suc axis) (r ∷ axes) s b h =
    OneAbove-of axis axes s.1 (omega arith) (λ i lo l. h (suc i) (omega arith) (omega arith))

slowest-OneAbove :
    (request : ReadRequest) (axis : ℕ)
    → AllSelect request.axes
    → slowest_selected_axis request ≡ some axis
    → OneAbove axis request.axes
unfolding slowest_selected_axis
slowest-OneAbove request axis s e =
    OneAbove-of axis request.axes s (found-count request.axes _ axis e).0
      (found-above request.axes _ axis e)

Tiles-Fills :
    (request : ReadRequest) (axis chunk begin : ℕ) (pieces : List Piece)
    → OneAbove axis request.axes
    → Tiles request axis chunk (below axis request.axes) begin pieces
    → Fills (begin * below axis request.axes) (product (counts request.axes)) pieces
Tiles-Fills request axis chunk begin [] o t = rw t (sym (product-below axis request.axes o))
Tiles-Fills request axis chunk begin (p ∷ pieces) o t =
    let (n, pos, r, at, cut, rest) = t in
    (
      at,
      rw (r, product-set axis request.axes _ o)
          (let e : begin * below axis request.axes + n * below axis request.axes
                ≡ (begin + n) * below axis request.axes =
              omega arith in
            rw e (Tiles-Fills request axis chunk (begin + n) pieces o rest)),
    )

if-lt : (b : Bool) (x y n : ℕ) → x < n → y < n → (if b then x else y) < n
if-lt true x y n h k = h
if-lt false x y n h k = k

chunks-lt :
    (request : ReadRequest) (geometry : ChunkGeometry) (axis : ℕ) (cost : ReadCost)
    → cost.budget_bytes < 2 ^ 64
    → chunks_per_piece request geometry axis cost < 2 ^ 64
unfolding chunks_per_piece
chunks-lt request geometry axis cost h = omega (arith, div-le_self)

units-lt :
    (request : ReadRequest) (geometry : ChunkGeometry) (axis : ℕ) (cost : ReadCost)
    → cost.budget_bytes < 2 ^ 64
    → units_per_piece request geometry axis cost < 2 ^ 64
unfolding units_per_piece
units-lt request geometry axis cost h =
    let chunks = chunks_per_piece request geometry axis cost in
    let chunk = get_or geometry.chunk_shape axis 0 in
    let stride = max 1 (range_at request.axes axis).stride in
    if-lt (not (chunk == 0) && leb chunk stride) chunks
      (max 1 (mul64 chunks (max 1 chunk) / stride)) (2 ^ 64)
      (chunks-lt request geometry axis cost h)
      (omega
        (arith, div-le_self (mul64 chunks (max 1 chunk)) stride, mul64-lt chunks (max 1 chunk)))

le-mul : (c x : ℕ) → 0 < c → x ≤ c * x
le-mul c x h = grind arith

-- A request whose ranges all select something, with no more elements than 64 bits count and with no
-- position along an axis, nor a chunk past it, that wraps.
abbrev pub NoWrap : List ℕ → List Range → Type 0
NoWrap shape [] = Unit
NoWrap [] (r ∷ axes) = (r.count ≤ 2 ^ 63) × (r.start + r.count * r.stride < 2 ^ 64) × NoWrap [] axes
NoWrap (c ∷ shape) (r ∷ axes) =
    (r.count ≤ 2 ^ 63) × (r.start + r.count * r.stride + c < 2 ^ 64) × NoWrap shape axes

pub record IsPlannable (geometry : ChunkGeometry) (request : ReadRequest) : Type 0 where
  pub selects : AllSelect request.axes
  pub counted : product (counts request.axes) < 2 ^ 64
  pub no_wrap : NoWrap geometry.chunk_shape request.axes

cuttable :
    (shape : List ℕ) (axes : List Range) (axis per_unit : ℕ)
    → NoWrap shape axes
    → axis < length axes
    → (range_at axes axis).count * per_unit < 2 ^ 64
    → IsCuttable (range_at axes axis) (get_or shape axis 0) per_unit
cuttable shape [] axis u w b t = absurd (omega arith)
cuttable [] (r ∷ axes) zero u w b t = record { short = w.0; span = omega (arith, w.1); total = t }
cuttable [] (r ∷ axes) (suc axis) u w b t = cuttable [] axes axis u w.2 (omega arith) t
cuttable (c ∷ shape) (r ∷ axes) zero u w b t = record { short = w.0; span = w.1; total = t }
cuttable (c ∷ shape) (r ∷ axes) (suc axis) u w b t = cuttable shape axes axis u w.2 (omega arith) t

-- PlanPieces' cut along the axis that SlowestSelectedAxis found, of a request that selects something
-- along every axis and with no position wrapping: it ends, and each piece is the request with one run
-- of that axis's elements, the runs one after another from the first element to the last; it lands
-- where the elements before it end; and two pieces share no chunk of that axis.
pub cut_along-Tiles :
    (geometry : ChunkGeometry) (request : ReadRequest) (axis : ℕ) (cost : ReadCost)
    → IsPlannable geometry request
    → slowest_selected_axis request ≡ some axis
    → cost.budget_bytes < 2 ^ 64
    → (pieces : List Piece) × (cut_along request geometry axis cost ≡ some pieces)
      × Tiles request axis (get_or geometry.chunk_shape axis 0) (below axis request.axes) 0 pieces
unfolding cut_along slowest_selected_axis
cut_along-Tiles geometry request axis cost v e h =
    let o = slowest-OneAbove request axis v.selects e in
    let total = product-below axis request.axes o in
    let inside : (axis < length request.axes) × (1 < (range_at request.axes axis).count) =
      found-count request.axes (length request.axes) axis e in
    let fits : below axis request.axes
        ≤ (range_at request.axes axis).count * below axis request.axes =
      le-mul (range_at request.axes axis).count (below axis request.axes)
        (omega (arith, inside.1)) in
    let one : 1 * below axis request.axes ≡ below axis request.axes = omega arith in
    rw
      (
        elements_below-eq axis request.axes 1 (below-pos axis request.axes v.selects)
            (omega (arith, v.counted)),
        one,
      )
      (cut_pieces-Tiles request axis (units_per_piece request geometry axis cost)
        (get_or geometry.chunk_shape axis 0) (below axis request.axes)
        (units-lt request geometry axis cost h)
        (cuttable geometry.chunk_shape request.axes axis _ v.no_wrap inside.0
          (omega (arith, v.counted)))
        (suc (range_at request.axes axis).count) 0 (omega arith) (omega arith) (λ _. inl refl))

-- PlanPieces, of a request that selects something along every axis and with no position wrapping,
-- once the cost of a chunk is known: the pieces fill the destination end to end, from its first
-- element to the last that the request selects, whether or not the read is cut.
pub plan_pieces-Fills :
    (d : ImageDescriptor) (geometry flag_geometry : ChunkGeometry) (request : ReadRequest)
    (options : ReadOptions) (watching : Bool) (cost : ReadCost)
    → IsPlannable geometry request
    → read_cost d geometry flag_geometry options ≡ some cost
    → cost.budget_bytes < 2 ^ 64
    → (pieces : List Piece) × (plan_pieces d geometry flag_geometry request options watching
        ≡ some pieces)
      × Fills 0 (product (counts request.axes)) pieces
unfolding plan_pieces
plan_pieces-Fills d geometry flag_geometry request options watching cost v c h =
    elim (Option-cases (slowest_selected_axis request)) [
      | inl none_found ↦ rw none_found (_, refl, (refl, omega arith))
      | inr (axis, found) ↦ elim (Bool-cases (not watching && options.read_budget_bytes == 0)) [
        | inl whole ↦ rw (found, whole) (_, refl, (refl, omega arith))
        | inr cut ↦
            let (pieces, run, tiles) = cut_along-Tiles geometry request axis cost v found h in
            let zero_times : 0 * below axis request.axes ≡ 0 = omega arith in
            rw (found, cut, c, run)
              (
                pieces,
                refl,
                rw zero_times at (
                    Tiles-Fills request axis _ 0 pieces
                      (slowest-OneAbove request axis v.selects found) tiles),
              )
      ]
    ]
