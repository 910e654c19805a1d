-- ===== src/Read/Pieces/Tiles.antt =====
-- PlanPieces of src/read/pieces.cc: the pieces of a read fill its destination end to end.
use carta_zarr.Base.{
  ℕ, zero, suc, ◌+◌, ◌-◌, ◌*◌, ◌^◌, ◌≤◌, ◌<◌, max, min, ◌≡◌, refl, ◌⊎◌, inl, inr, List, [], ◌∷◌,
  some, Bool-cases, arith, ltb, set, sub64, mul64, add64_lem, sub64_lem, mul64_lem, ltb→lt, ltb→le,
  dec_le,
}
use carta_zarr.Image.{Range, ReadRequest}
use carta_zarr.Chunk.{aligned_block_end}
use carta_zarr.Chunk.Grid.{chunk_at}
use carta_zarr.Chunk.Align.{IsBlock, aligned_block_end-IsBlock}
use carta_zarr.Read.Pieces.{Piece, range_at, narrow, cut_pieces}
use native.Mathlib.Nat.{mul-le-mul_right}

-- The request with `count` elements of its range along `axis`, from the `begin`-th on, over plain
-- numbers.
abbrev pub part_of : ReadRequest → ℕ → ℕ → ℕ → ReadRequest
part_of request axis begin count =
    let cut = range_at request.axes axis in
    record {
      axes =
          set request.axes axis
            (record { start = cut.start + begin * cut.stride; count = count; stride = cut.stride });
    }

-- Pieces that begin at the `begin`-th element of the cut axis and end with its last: each is the
-- request narrowed to a run of that axis's elements, one at least, and lands `per_unit` elements of
-- the destination for each element before it; and where another piece follows, no chunk is shared.
abbrev pub Tiles : ReadRequest → ℕ → ℕ → ℕ → ℕ → List Piece → Type 0
Tiles request axis chunk per_unit begin [] = begin ≡ (range_at request.axes axis).count
Tiles request axis chunk per_unit begin (p ∷ pieces) =
    (n : ℕ) × (0 < n)
    × (p.request ≡ part_of request axis begin n)
    × (p.first_element ≡ begin * per_unit)
    × (0 < chunk
        → 0 < (range_at request.axes axis).stride
        → begin + n < (range_at request.axes axis).count
        → chunk_at (range_at request.axes axis).start (range_at request.axes axis).stride chunk
            (begin + n - 1)
          < chunk_at (range_at request.axes axis).start (range_at request.axes axis).stride chunk
              (begin + n))
    × Tiles request axis chunk per_unit (begin + n) pieces

-- The cut axis, when nothing along it wraps.
pub record IsCuttable (cut : Range) (chunk per_unit : ℕ) : Type 0 where
  pub short : cut.count ≤ 2 ^ 63
  pub span : cut.start + cut.count * cut.stride + chunk < 2 ^ 64
  pub total : cut.count * per_unit < 2 ^ 64

module _ (request : ReadRequest) (axis units chunk per_unit : ℕ) (word : units < 2 ^ 64)
    (v : IsCuttable (range_at request.axes axis) chunk per_unit) where
  abbrev cut : Range
  cut = range_at request.axes axis

  abbrev block_end : ℕ → ℕ
  block_end begin = aligned_block_end begin units cut.count cut.start cut.stride chunk

  block :
      (begin : ℕ)
      → begin < cut.count
      → (begin ≡ 0) ⊎ (units < cut.count)
      → IsBlock begin
          (min (begin + max 1 units) cut.count)
          cut.count
          cut.start
          cut.stride
          chunk
          (block_end begin)
  block begin h (inl z) =
      aligned_block_end-IsBlock begin units cut.count cut.start cut.stride chunk h (omega arith)
        (omega (arith, v.short)) v.span
  block begin h (inr s) =
      aligned_block_end-IsBlock begin units cut.count cut.start cut.stride chunk h
        (omega (arith, v.short)) (omega (arith, v.short)) v.span

  -- A block that leaves something over was not wide enough for all of the axis.
  left_over :
      (begin : ℕ)
      → IsBlock begin
          (min (begin + max 1 units) cut.count)
          cut.count
          cut.start
          cut.stride
          chunk
          (block_end begin)
      → block_end begin < cut.count
      → (block_end begin ≡ 0) ⊎ (units < cut.count)
  left_over begin b short = elim (dec_le cut.count units) [
    | no h ↦ inr (omega arith)
    | yes h ↦ absurd (omega (arith, b.ends (omega arith)))
  ]

  narrow-eq :
      (begin n : ℕ) → begin < cut.count → narrow request axis begin n ≡ part_of request axis begin n
  unfolding narrow
  narrow-eq begin n h =
      let step : begin * cut.stride ≤ cut.count * cut.stride =
        mul-le-mul_right {m = begin} {n = cut.count} cut.stride (omega arith) in
      rw
        (
          mul64_lem begin cut.stride (omega (arith, v.span)),
          add64_lem cut.start (begin * cut.stride) (omega (arith, v.span)),
        )
        refl

  tile :
      (begin end : ℕ) (p : Piece) (pieces : List Piece)
      → begin < cut.count
      → IsBlock begin (min (begin + max 1 units) cut.count) cut.count cut.start cut.stride chunk end
      → p ≡ record {
        request = narrow request axis begin (sub64 end begin);
        first_element = mul64 begin per_unit;
      }
      → Tiles request axis chunk per_unit end pieces
      → Tiles request axis chunk per_unit begin (p ∷ pieces)
  tile begin end p pieces l b e rest =
      let n-eq : sub64 end begin ≡ end - begin =
        sub64_lem end begin (omega (arith, b.forward)) (omega (arith, b.within, v.short)) in
      let there : begin + (end - begin) ≡ end = omega (arith, b.forward) in
      (
        end - begin,
        omega (arith, b.forward),
        rw (e, n-eq, narrow-eq begin (end - begin) l) refl,
        rw e (
            mul64_lem begin per_unit (
              omega (
                arith,
                v.total,
                mul-le-mul_right {m = begin} {n = cut.count} per_unit (omega arith),
              ))),
        rw there b.whole,
        rw there rest,
      )

  pub cut_pieces-Tiles :
      (fuel begin : ℕ)
      → begin ≤ cut.count
      → cut.count < begin + fuel
      → (begin < cut.count → (begin ≡ 0) ⊎ (units < cut.count))
      → (pieces : List Piece) × (cut_pieces fuel request axis units chunk per_unit begin
          ≡ some pieces)
        × Tiles request axis chunk per_unit begin pieces
  unfolding cut_pieces
  cut_pieces-Tiles zero begin h enough i = absurd (omega arith)
  cut_pieces-Tiles (suc fuel) begin h enough i = elim (Bool-cases (ltb begin cut.count)) [
    | inr out ↦ rw out ([], refl, omega (arith, ltb→le begin cut.count out))
    | inl inside ↦
        let l : begin < cut.count = ltb→lt _ _ inside in
        let b = block begin l (i l) in
        let (pieces, run, t) =
          cut_pieces-Tiles fuel (block_end begin) b.within (omega (arith, b.forward))
            (left_over begin b) in
        rw (inside, run) (_, refl, tile begin (block_end begin) _ pieces l b refl t)
  ]
