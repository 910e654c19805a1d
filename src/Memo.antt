-- ===== src/Memo.antt =====
-- src/memo.h: a table of values that are computed when they are first asked for, and remembered. Each
-- call holds the table's lock from end to end, so a table's history is a list of calls.
pub mod Remembers
use carta_zarr.Base.{
  ℕ, zero, suc, ◌+◌, ◌≡◌, Bool, true, false, ◌||◌, List, [], ◌∷◌, ◌++◌, Option, none, some,
  ErrorCode, Error, Result, ok, err, if◌then◌else◌,
}

-- AskAgain of a Result; of any other value it is false.
unfoldable pub is_no_answer : ErrorCode → Bool
is_no_answer ErrorCode.io_error = true
is_no_answer ErrorCode.cancelled = true
is_no_answer _ = false

unfoldable pub ask_again : {A : Type 0} → Result A → Bool
unfolding is_no_answer
ask_again (ok a) = false
ask_again (err e) = is_no_answer e.code

-- What a table is over: its values, when one is to be computed again, and its keys, told apart.
module _ {K V : Type 0} (ask : V → Bool) (same_key : K → K → Bool) where
  -- Lazy::GetOrCompute, of the answers in the order that they were computed, the last one first: what
  -- is left, and the value that is referred to.
  unfoldable pub get_lazy : V → List V → List V × V
  get_lazy computed [] = (computed ∷ [], computed)
  get_lazy computed (answer ∷ answers) =
      if ask answer then (computed ∷ answer ∷ answers, computed) else (answer ∷ answers, answer)

  -- `_entries[key]`, for a key that is there or not.
  unfoldable pub answers_of : K → List (K × List V) → List V
  answers_of key [] = []
  answers_of key ((k, answers) ∷ entries) =
      if same_key key k then answers else answers_of key entries

  unfoldable pub put_answers : K → List V → List (K × List V) → List (K × List V)
  put_answers key answers [] = (key, answers) ∷ []
  put_answers key answers ((k, old) ∷ entries) =
      if same_key key k then (k, answers) ∷ entries else (k, old) ∷ put_answers key answers entries

  -- Memo::GetOrCompute
  unfoldable pub get_or_compute : K → V → List (K × List V) → List (K × List V) × V
  unfolding get_lazy answers_of put_answers
  get_or_compute key computed entries =
      let (answers, value) = get_lazy computed (answers_of key entries) in
      (put_answers key answers entries, value)

  -- Memo::Insert
  unfoldable pub insert_into : V → List V → List V
  insert_into value [] = value ∷ []
  insert_into value (answer ∷ answers) = answer ∷ answers

  unfoldable pub insert : K → V → List (K × List V) → List (K × List V)
  unfolding insert_into answers_of put_answers
  insert key value entries = put_answers key (insert_into value (answers_of key entries)) entries

  -- A call on the table: of a computation, what it would give were it run.
  pub data Call : Type 0 where
    get put : K → V → Call

  unfoldable pub after_call : Call → List (K × List V) → List (K × List V)
  unfolding get_or_compute insert
  after_call (get key computed) entries = (get_or_compute key computed entries).0
  after_call (put key value) entries = insert key value entries

  unfoldable pub after_calls : List Call → List (K × List V) → List (K × List V)
  unfolding after_call
  after_calls [] entries = entries
  after_calls (call ∷ calls) entries = after_calls calls (after_call call entries)
