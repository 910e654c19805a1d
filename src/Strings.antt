-- ===== src/Strings.antt =====
-- The strings of a fixed_length_utf32 array: src/zarr/string_array.cc.
pub mod Utf8
use carta_zarr.Base.{
  ℕ, zero, suc, ◌+◌, ◌*◌, ◌/◌, ◌%◌, ◌^◌, Bool, true, false, ◌&&◌, ◌||◌, List, [], ◌∷◌, ◌++◌, ◌⊎◌,
  inl, inr, String, ErrorCode, Part, text, if◌then◌else◌, ltb, leb, ◌==◌, length, get_or, drop,
  add64, mul64,
}

-- class DecodeFailure, which the source throws: a value is what was decoded, or the failure.
pub record DecodeFailure : Type 0 where
  pub code : ErrorCode
  pub message : List Part

abbrev pub Decoded : Type 0 → Type 0
Decoded A = DecodeFailure ⊎ A

abbrev pub failure : String → DecodeFailure
failure message = record { code = ErrorCode.decode_error; message = text message ∷ [] }

abbrev pub unicode_max : ℕ
unicode_max = 1114111

abbrev pub surrogate_min : ℕ
surrogate_min = 55296

abbrev pub surrogate_max : ℕ
surrogate_max = 57343

-- What AppendUtf8 appends. `x >> k` is `x / 2 ^ k` and `x & 0x3F` is `x % 64`; each `|` joins bits that
-- the other operand has clear, so it is a sum.
pub utf8_bytes : ℕ → List ℕ
utf8_bytes code_point =
    if ltb code_point 128
    then code_point ∷ []
    else if ltb code_point 2048
    then (192 + code_point / 64) ∷ (128 + code_point % 64) ∷ []
    else if ltb code_point 65536
    then (224 + code_point / 4096) ∷ (128 + code_point / 64 % 64) ∷ (128 + code_point % 64) ∷ []
    else (240 + code_point / 262144)
      ∷ (128 + code_point / 4096 % 64)
      ∷ (128 + code_point / 64 % 64)
      ∷ (128 + code_point % 64)
      ∷ []

-- AppendUtf8
pub append_utf8 : List ℕ → ℕ → Decoded (List ℕ)
unfolding utf8_bytes
append_utf8 out code_point =
    if ltb unicode_max code_point || (leb surrogate_min code_point && leb code_point surrogate_max)
    then inl (failure "Invalid Unicode code point")
    else inr (out ++ utf8_bytes code_point)

-- ReadUint32 of four bytes; the shifted bytes have no bit in common, so each `|` is a sum.
pub read_uint32 : List ℕ → Bool → ℕ
read_uint32 bytes little_endian =
    let at : ℕ → ℕ = λ i. get_or bytes i 0 in
    if little_endian
    then at 0 + at 1 * 2 ^ 8 + at 2 * 2 ^ 16 + at 3 * 2 ^ 24
    else at 3 + at 2 * 2 ^ 8 + at 1 * 2 ^ 16 + at 0 * 2 ^ 24

and_then : {A B : Type 0} → Decoded A → (A → Decoded B) → Decoded B
and_then (inl e) rest = inl e
and_then (inr a) rest = rest a

-- DecodeFixedLengthUtf32: the loop over the code points of the element at `base`, from the `index`-th
-- on.
pub decode_value : List ℕ → Bool → ℕ → ℕ → ℕ → List ℕ → Decoded (List ℕ)
unfolding append_utf8 read_uint32 and_then
decode_value bytes little_endian base zero index value = inr value
decode_value bytes little_endian base (suc left) index value =
    let offset = add64 base (mul64 index 4) in
    let code_point = read_uint32 (drop offset bytes) little_endian in
    if ltb (length bytes) (add64 offset 4)
    then inl (failure "String array chunk ended before the last element")
    else if code_point == 0
    then inr value
    else and_then (append_utf8 value code_point)
        (decode_value bytes little_endian base left (index + 1))

-- The loop over the elements from the `element`-th on.
pub decode_values : List ℕ → Bool → ℕ → ℕ → ℕ → Decoded (List (List ℕ))
unfolding decode_value and_then
decode_values bytes little_endian length_bytes zero element = inr []
decode_values bytes little_endian length_bytes (suc left) element =
    and_then (decode_value bytes little_endian (mul64 element length_bytes) (length_bytes / 4) 0 [])
      (λ value.
        and_then (decode_values bytes little_endian length_bytes left (element + 1))
          (λ rest. inr (value ∷ rest)))

-- The strings of a chunk, as UTF-8.
pub decode_fixed_length_utf32 : List ℕ → ℕ → ℕ → Bool → Decoded (List (List ℕ))
unfolding decode_values
decode_fixed_length_utf32 bytes num_elements length_bytes little_endian =
    decode_values bytes little_endian length_bytes num_elements 0
