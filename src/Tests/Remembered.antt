-- ===== src/Tests/Remembered.antt =====
-- The results about a table of remembered values at a concrete input: three answers asked for by number.
use carta_zarr.Base.{
  ℕ, ◌≡◌, ◌↔◌, Bool, true, false, List, [], ◌∷◌, Result, ok, fail, ErrorCode, ◌==◌, ==→eq, ==_self,
  subst,
}
use carta_zarr.Memo.{ask_again, answers_of, get_or_compute, Call, get, put, after_calls}
use carta_zarr.Memo.Remembers.{Grows, after_calls-Grows}

abbrev same_number : ℕ → ℕ → Bool
same_number a b = a == b

same_number_lawful : (a b : ℕ) → (same_number a b ≡ true) ↔ (a ≡ b)
same_number_lawful a b = (==→eq a b, (λ e. subst (λ (x : ℕ). same_number a x ≡ true) e (==_self a)))

-- An answer to key 3, after a read that could not be made.
abbrev remembered : List (ℕ × List (Result ℕ))
remembered = (3, ok 7 ∷ fail ErrorCode.io_error [] "" ∷ []) ∷ []

abbrev calls : List (Call {K = ℕ} {V = Result ℕ} ask_again same_number)
calls = get 3 (ok 8) ∷ put 4 (ok 9) ∷ get 3 (fail ErrorCode.cancelled [] "") ∷ []

after_calls-Grows_example :
    Grows ask_again
      (answers_of ask_again same_number 3 remembered)
      (answers_of ask_again same_number 3 (after_calls ask_again same_number calls remembered))
    × ((answer computed : Result ℕ) (rest : List (Result ℕ))
        → answers_of ask_again same_number 3 remembered ≡ answer ∷ rest
        → ask_again answer ≡ false
        → (get_or_compute ask_again same_number 3 computed
            (after_calls ask_again same_number calls remembered)).1
          ≡ answer)
after_calls-Grows_example =
    after_calls-Grows ask_again same_number same_number_lawful calls 3 remembered
