-- ===== src/Json.antt =====
-- What the library reads of a parsed JSON document. The documents are nlohmann::json's, which is not
-- part of the repository: they are a type `J`, with the kind of each value and what it holds.
use carta_zarr.Base.{
  ℕ, Bool, true, false, List, [], ◌∷◌, ◌&&◌, Option, none, some, String, if◌then◌else◌, ltb, length,
  ◌==◌,
}
use text.Mathlib.Text.{◌==◌ as ◌same_text◌}

-- The kinds of value. A number without a fraction is unsigned, or signed: below zero, -(n + 1), or not.
pub data View (J : Type 0) : Type 0 where
  null floating : View J
  boolean : Bool → View J
  unsigned signed_positive signed_negative : ℕ → View J
  string : String → View J
  array : List J → View J
  object : List (String × J) → View J

module _ {J : Type 0} (view : J → View J) where
  -- is_object with the members, is_array with the elements, is_string with the text.
  unfoldable pub object_of : J → Option (List (String × J))
  object_of j = elim (view j) [ View.object members ↦ some members | _ ↦ none ]

  unfoldable pub array_of : J → Option (List J)
  array_of j = elim (view j) [ View.array elements ↦ some elements | _ ↦ none ]

  unfoldable pub string_of : J → Option String
  string_of j = elim (view j) [ View.string text ↦ some text | _ ↦ none ]

  -- contains and at of an object
  unfoldable pub find_member : List (String × J) → String → Option J
  find_member [] key = none
  find_member ((k, j) ∷ members) key = if k same_text key then some j else find_member members key

  -- of any value: what is no object contains nothing
  unfoldable pub member : J → String → Option J
  unfolding object_of find_member
  member j key = elim (object_of j) [ none ↦ none | some members ↦ find_member members key ]

  -- `value.is_string() && value == text`
  unfoldable pub is_text : J → String → Bool
  unfolding string_of
  is_text j text = elim (string_of j) [ none ↦ false | some s ↦ s same_text text ]

  -- IsNonNegativeInteger, with the number.
  unfoldable pub non_negative : J → Option ℕ
  non_negative j = elim (view j) [
    | View.unsigned n ↦ some n
    | View.signed_positive n ↦ some n
    | _ ↦ none
  ]

  -- IsPositiveInteger, with the number.
  unfoldable pub positive_of : Option ℕ → Option ℕ
  positive_of none = none
  positive_of (some n) = if ltb 0 n then some n else none

  unfoldable pub positive : J → Option ℕ
  unfolding non_negative positive_of
  positive j = positive_of (non_negative j)

  -- The loops over an array that give up at the first element that is not one.
  unfoldable pub all_numbers : (J → Option ℕ) → List J → Option (List ℕ)
  all_numbers number [] = some []
  all_numbers number (j ∷ js) = elim (number j) [
    | none ↦ none
    | some n ↦ elim (all_numbers number js) [ none ↦ none | some ns ↦ some (n ∷ ns) ]
  ]

  -- is_number
  unfoldable pub is_number : J → Bool
  is_number j = elim (view j) [
    | View.unsigned n ↦ true
    | View.signed_positive n ↦ true
    | View.signed_negative n ↦ true
    | View.floating ↦ true
    | _ ↦ false
  ]

  unfoldable pub all_of : (J → Bool) → List J → Bool
  all_of test [] = true
  all_of test (j ∷ js) = test j && all_of test js

  -- IsNumericVector and IsNumericMatrix
  unfoldable pub is_numeric_vector : J → ℕ → Bool
  unfolding array_of is_number all_of
  is_numeric_vector j size = elim (array_of j) [
    | none ↦ false
    | some js ↦ length js == size && all_of is_number js
  ]

  unfoldable pub is_numeric_matrix : J → ℕ → ℕ → Bool
  unfolding array_of is_numeric_vector all_of
  is_numeric_matrix j rows columns = elim (array_of j) [
    | none ↦ false
    | some js ↦ length js == rows && all_of (λ row. is_numeric_vector row columns) js
  ]
