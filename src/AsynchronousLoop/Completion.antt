-- ===== src/AsynchronousLoop/Completion.antt =====
-- The tests for completion, one behind each operation of a loop.
use libspinscale.Base.{
  ℕ, zero, suc, ◌+◌, ◌<◌, ◌≡◌, refl, Bool, true, false, List, [], ◌∷◌, ◌++◌, ◌==◌, arith, length,
}
use libspinscale.AsynchronousLoop.{
  AsynchronousLoop, modulus, new_loop, is_complete, increment_success_or_failure_due_to,
  increment_success_or_failure_and_test_for_completion_due_to,
}

-- What the tests answer, in the order of the operations.
abbrev pub tests : List Bool → AsynchronousLoop → List Bool
tests [] l = []
tests (b ∷ bs) l =
    let r = increment_success_or_failure_and_test_for_completion_due_to b l in r.0 ∷ tests bs r.1

abbrev pub falses : ℕ → List Bool
falses zero = []
falses (suc n) = false ∷ falses n

-- How many operations are counted.
abbrev counted : AsynchronousLoop → ℕ
counted l = l.n_succeeded + l.n_failed

increment-counted :
    (b : Bool) (l : AsynchronousLoop)
    → suc (counted l) < modulus
    → (counted (increment_success_or_failure_due_to b l) ≡ suc (counted l))
      × ((increment_success_or_failure_due_to b l).n_total ≡ l.n_total)
unfolding increment_success_or_failure_due_to
increment-counted true l h = (omega arith, refl)
increment-counted false l h = (omega arith, refl)

is_complete-counted :
    (l : AsynchronousLoop) → counted l < modulus → is_complete l ≡ (counted l == l.n_total)
unfolding is_complete
is_complete-counted l h = ground arith

tests-from :
    (m : ℕ) (bs : List Bool) (l : AsynchronousLoop)
    → length bs ≡ suc m
    → counted l + suc m ≡ l.n_total
    → l.n_total < modulus
    → tests bs l ≡ falses m ++ true ∷ []
unfolding increment_success_or_failure_and_test_for_completion_due_to
tests-from m [] l e k h = absurd (omega arith)
tests-from zero (b ∷ []) l e k h =
    let (c, t) = increment-counted b l (omega arith) in
    let l' = increment_success_or_failure_due_to b l in
    let done = is_complete-counted l' (omega arith) in ground arith
tests-from zero (b ∷ b' ∷ bs) l e k h = absurd (omega arith)
tests-from (suc m) (b ∷ bs) l e k h =
    let (c, t) = increment-counted b l (omega arith) in
    let l' = increment_success_or_failure_due_to b l in
    let done = is_complete-counted l' (omega arith) in
    let rest = tests-from m bs l' (omega arith) (omega arith) (omega arith) in ground arith

-- Of a loop over at least one and fewer than 2 ^ 32 operations that end one after another, each
-- counted and tested at once, the test behind the last operation answers true and no other does,
-- whichever operations succeeded.
pub tests_lem :
    (n : ℕ) (bs : List Bool)
    → length bs ≡ suc n
    → suc n < modulus
    → tests bs (new_loop (suc n)) ≡ falses n ++ true ∷ []
tests_lem n bs e h = tests-from n bs (new_loop (suc n)) e (omega arith) h
