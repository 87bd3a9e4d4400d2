-- ===== src/AsynchronousLoop/Examples.antt =====
-- Tests of the loop, and the theorem at three operations.
use libspinscale.Base.{◌≡◌, refl, true, false, [], ◌∷◌, arith}
use libspinscale.AsynchronousLoop.{
  new_loop, copy_loop, assign_loop, after, n_total_is_zero, is_complete,
  increment_success_or_failure_due_to,
}
use libspinscale.AsynchronousLoop.Completion.{tests, tests_lem}

empty_loop_is_complete : is_complete (new_loop 0) ≡ n_total_is_zero (new_loop 0)
unfolding is_complete n_total_is_zero
empty_loop_is_complete = refl

assignment_copies : assign_loop (new_loop 3) (new_loop 5) ≡ copy_loop (new_loop 5)
assignment_copies = refl

-- Two threads that both count before either tests would both be told that the loop is complete.
both_are_told : is_complete (after (true ∷ true ∷ []) (new_loop 2)) ≡ true
unfolding is_complete increment_success_or_failure_due_to
both_are_told = refl

tests_lem_example : tests (true ∷ false ∷ true ∷ []) (new_loop 3) ≡ false ∷ false ∷ true ∷ []
tests_lem_example = tests_lem 2 (true ∷ false ∷ true ∷ []) (omega arith) (omega arith)
