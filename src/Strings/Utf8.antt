-- ===== src/Strings/Utf8.antt =====
-- AppendUtf8 of src/zarr/string_array.cc against a reader of UTF-8 as RFC 3629 describes it.
use carta_zarr.Base.{
  ℕ, zero, suc, ◌+◌, ◌-◌, ◌*◌, ◌/◌, ◌%◌, ◌≤◌, ◌<◌, ◌≡◌, refl, Bool, true, false, ◌&&◌, ◌||◌, List,
  [], ◌∷◌, ◌++◌, Option, none, some, inl, inr, if◌then◌else◌, ltb, leb, arith, tests, Bool-cases,
  le→leb, le→ltb, lt→ltb, lt→leb, ltb→le, dec_le,
}
use carta_zarr.Strings.{failure, append_utf8, utf8_bytes, unicode_max, surrogate_min, surrogate_max}

-- `n` more bytes of a sequence, each 10xxxxxx.
follow : ℕ → ℕ → List ℕ → Option (ℕ × List ℕ)
follow zero point rest = some (point, rest)
follow (suc n) point [] = none
follow (suc n) point (b ∷ rest) =
    let more = follow n (point * 64 + (b - 128)) rest in
    if leb 128 b && ltb b 192 then more else none

-- A code point that a sequence of its length may stand for: no shorter sequence does, and it is a
-- Unicode scalar value.
fits_sequence : ℕ → ℕ → Bool
fits_sequence least point =
    leb least point && (leb point 55295 || (leb 57344 point && leb point 1114111))

checked : ℕ → Option (ℕ × List ℕ) → Option (ℕ × List ℕ)
unfolding fits_sequence
checked least none = none
checked least (some (point, rest)) = if fits_sequence least point then some (point, rest) else none

-- The first code point of a text, and what follows it: 0xxxxxxx, 110xxxxx, 1110xxxx or 11110xxx and
-- the bytes that the first one announces; an overlong sequence is refused, and so is one that stands
-- for a surrogate or for a number past U+10FFFF.
pub read_utf8 : List ℕ → Option (ℕ × List ℕ)
unfolding follow checked
read_utf8 [] = none
read_utf8 (b ∷ rest) =
    if ltb b 128
    then some (b, rest)
    else if leb 192 b && ltb b 224
    then checked 128 (follow 1 (b - 192) rest)
    else if leb 224 b && ltb b 240
    then checked 2048 (follow 2 (b - 224) rest)
    else if leb 240 b && ltb b 248
    then checked 65536 (follow 3 (b - 240) rest)
    else none

-- A Unicode scalar value.
pub record IsScalar (n : ℕ) : Type 0 where
  pub within : n ≤ 1114111
  pub not_surrogate : 55296 ≤ n → n ≤ 57343 → ⊥

follow_tail :
    (n point b : ℕ) (rest : List ℕ)
    → b < 64
    → follow (suc n) point ((128 + b) ∷ rest) ≡ follow n (point * 64 + b) rest
unfolding follow
follow_tail n point b rest h =
    let same : 128 + b - 128 ≡ b = omega arith in
    rw (le→leb 128 (128 + b) (omega arith), lt→ltb (128 + b) 192 (omega arith), same) refl

-- What the first byte of a longer sequence announces.
lead_two :
    (x : ℕ) (rest : List ℕ) → x < 32 → read_utf8 ((192 + x) ∷ rest) ≡ checked 128 (follow 1 x rest)
unfolding read_utf8
lead_two x rest h =
    let same : 192 + x - 192 ≡ x = omega arith in
    rw
      (
        le→ltb (192 + x) 128 (omega arith),
        le→leb 192 (192 + x) (omega arith),
        lt→ltb (192 + x) 224 (omega arith),
        same,
      )
      refl

lead_three :
    (x : ℕ) (rest : List ℕ) → x < 16 → read_utf8 ((224 + x) ∷ rest) ≡ checked 2048 (follow 2 x rest)
unfolding read_utf8
lead_three x rest h =
    let same : 224 + x - 224 ≡ x = omega arith in
    rw
      (
        le→ltb (224 + x) 128 (omega arith),
        le→leb 192 (224 + x) (omega arith),
        le→ltb (224 + x) 224 (omega arith),
        le→leb 224 (224 + x) (omega arith),
        lt→ltb (224 + x) 240 (omega arith),
        same,
      )
      refl

lead_four :
    (x : ℕ) (rest : List ℕ) → x < 8 → read_utf8 ((240 + x) ∷ rest) ≡ checked 65536 (follow 3 x rest)
unfolding read_utf8
lead_four x rest h =
    let same : 240 + x - 240 ≡ x = omega arith in
    rw
      (
        le→ltb (240 + x) 128 (omega arith),
        le→leb 192 (240 + x) (omega arith),
        le→ltb (240 + x) 224 (omega arith),
        le→leb 224 (240 + x) (omega arith),
        le→ltb (240 + x) 240 (omega arith),
        le→leb 240 (240 + x) (omega arith),
        lt→ltb (240 + x) 248 (omega arith),
        same,
      )
      refl

lead_one : (n : ℕ) (rest : List ℕ) → ltb n 128 ≡ true → read_utf8 (n ∷ rest) ≡ some (n, rest)
unfolding read_utf8
lead_one n rest a = rw a refl

-- At its end a sequence of the least length for a Unicode scalar value stands for it.
checked_end :
    (least point : ℕ) (rest : List ℕ)
    → least ≤ point
    → IsScalar point
    → checked least (follow 0 point rest) ≡ some (point, rest)
unfolding checked follow fits_sequence
checked_end least point rest h v = elim (dec_le point 55295) [
  | yes low ↦ rw (le→leb least point h, le→leb point 55295 low) refl
  | no high ↦
      let past : 57343 < point = elim (dec_le point 57343) [
        | yes surrogate ↦ absurd (v.not_surrogate (omega arith) surrogate)
        | no past ↦ omega arith
      ] in
      rw
        (
          le→leb least point h,
          lt→leb point 55295 (omega arith),
          le→leb 57344 point (omega arith),
          le→leb point 1114111 v.within,
        )
        refl
]

utf8_bytes-read :
    (n : ℕ) (rest : List ℕ) → IsScalar n → read_utf8 (utf8_bytes n ++ rest) ≡ some (n, rest)
unfolding utf8_bytes
utf8_bytes-read n rest v = elim (Bool-cases (ltb n 128)) [
  | inl a ↦ rw a (lead_one n rest a)
  | inr a ↦ elim (Bool-cases (ltb n 2048)) [
    | inl b ↦
        let sum : n / 64 * 64 + n % 64 ≡ n = omega arith in
        rw
          (
            a,
            b,
            lead_two (n / 64) ((128 + n % 64) ∷ rest) (omega tests),
            follow_tail 0 (n / 64) (n % 64) rest (omega arith),
            sum,
          )
          (checked_end 128 n rest (ltb→le n 128 a) v)
    | inr b ↦ elim (Bool-cases (ltb n 65536)) [
      | inl c ↦
          let sum : (n / 4096 * 64 + n / 64 % 64) * 64 + n % 64 ≡ n = omega arith in
          rw
            (
              a,
              b,
              c,
              lead_three (n / 4096) ((128 + n / 64 % 64) ∷ (128 + n % 64) ∷ rest) (omega tests),
              follow_tail 1 (n / 4096) (n / 64 % 64) ((128 + n % 64) ∷ rest) (omega arith),
              follow_tail 0 (n / 4096 * 64 + n / 64 % 64) (n % 64) rest (omega arith),
              sum,
            )
            (checked_end 2048 n rest (ltb→le n 2048 b) v)
      | inr c ↦
          let h : n ≤ 1114111 = v.within in
          let sum : ((n / 262144 * 64 + n / 4096 % 64) * 64 + n / 64 % 64) * 64 + n % 64 ≡ n =
            omega arith in
          rw
            (
              a,
              b,
              c,
              lead_four (n / 262144)
                  ((128 + n / 4096 % 64) ∷ (128 + n / 64 % 64) ∷ (128 + n % 64) ∷ rest)
                  (omega arith),
              follow_tail 2 (n / 262144) (n / 4096 % 64)
                  ((128 + n / 64 % 64) ∷ (128 + n % 64) ∷ rest) (omega arith),
              follow_tail 1 (n / 262144 * 64 + n / 4096 % 64) (n / 64 % 64) ((128 + n % 64) ∷ rest)
                  (omega arith),
              follow_tail 0 ((n / 262144 * 64 + n / 4096 % 64) * 64 + n / 64 % 64) (n % 64) rest
                  (omega arith),
              sum,
            )
            (checked_end 65536 n rest (ltb→le n 65536 c) v)
    ]
  ]
]

abbrev refused_by : ℕ → Bool
refused_by n = ltb unicode_max n || (leb surrogate_min n && leb n surrogate_max)

refuses : (n : ℕ) → refused_by n ≡ true → IsScalar n → ⊥
refuses n e v = elim (Bool-cases (ltb unicode_max n)) [
  | inl high ↦ omega (tests, v.within)
  | inr low ↦ v.not_surrogate (ground (arith, e)) (ground (arith, e))
]

takes : (n : ℕ) → refused_by n ≡ false → IsScalar n
takes n e = record { within = ground (arith, e); not_surrogate = λ l h. ground (arith, e) }

-- AppendUtf8 appends, for a Unicode scalar value, bytes that a reader of UTF-8 reads as that value and
-- nothing more, whatever follows them; and it fails for any other number.
pub append_utf8_lem :
    (out : List ℕ) (n : ℕ)
    → (IsScalar n
        → (bytes : List ℕ) × (append_utf8 out n ≡ inr (out ++ bytes))
          × ((rest : List ℕ) → read_utf8 (bytes ++ rest) ≡ some (n, rest)))
      × ((IsScalar n → ⊥) → append_utf8 out n ≡ inl (failure "Invalid Unicode code point"))
unfolding append_utf8
append_utf8_lem out n =
    elim (Bool-cases (ltb unicode_max n || (leb surrogate_min n && leb n surrogate_max))) [
      | inl refused ↦ rw refused ((λ v. absurd (refuses n refused v)), λ _. refl)
      | inr taken ↦ rw taken (
        (λ v. (utf8_bytes n, refl, λ rest. utf8_bytes-read n rest v)),
        λ no. absurd (no (takes n taken)),
      )
    ]
