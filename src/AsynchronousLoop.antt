-- ===== src/AsynchronousLoop.antt =====
-- include/spinscale/asynchronousLoop.h: the counters of a loop of asynchronous operations.
pub mod Completion
mod Examples
use libspinscale.Base.{
  ℕ, suc, ◌+◌, ◌-◌, ◌≤◌, ◌<◌, ◌≡◌, refl, Bool, true, false, List, [], ◌∷◌, ◌==◌, arith, length, ◌%◌,
  ==_iff,
}

-- The range of an `unsigned int`.
abbrev pub modulus : ℕ
modulus = 4294967296

pub record AsynchronousLoop : Type 0 where
  pub n_total : ℕ
  pub n_succeeded : ℕ
  pub n_failed : ℕ

abbrev pub new_loop : ℕ → AsynchronousLoop
new_loop n = record { n_total = n; n_succeeded = 0; n_failed = 0 }

unfoldable pub is_complete : AsynchronousLoop → Bool
is_complete l = (l.n_succeeded + l.n_failed) % modulus == l.n_total

unfoldable pub increment_success_or_failure_due_to : Bool → AsynchronousLoop → AsynchronousLoop
increment_success_or_failure_due_to true l = record l { n_succeeded = suc l.n_succeeded % modulus }
increment_success_or_failure_due_to false l = record l { n_failed = suc l.n_failed % modulus }

unfoldable pub set_remaining_iterations_to_failure : AsynchronousLoop → AsynchronousLoop
set_remaining_iterations_to_failure l = record l {
  n_failed = (l.n_total + modulus - l.n_succeeded) % modulus;
}

-- The copy constructor, and the assignment of `other` to `l`; assigning a loop to itself, which the
-- code skips, changes nothing either.
abbrev pub copy_loop : AsynchronousLoop → AsynchronousLoop
copy_loop other = record {
  n_total = other.n_total;
  n_succeeded = other.n_succeeded;
  n_failed = other.n_failed;
}

abbrev pub assign_loop : AsynchronousLoop → AsynchronousLoop → AsynchronousLoop
assign_loop l other = record l {
  n_total = other.n_total;
  n_succeeded = other.n_succeeded;
  n_failed = other.n_failed;
}

unfoldable pub increment_success_or_failure_and_test_for_completion_due_to :
    Bool → AsynchronousLoop → Bool × AsynchronousLoop
unfolding increment_success_or_failure_due_to is_complete
increment_success_or_failure_and_test_for_completion_due_to success l =
    let l' = increment_success_or_failure_due_to success l in (is_complete l', l')

unfoldable pub n_total_is_zero : AsynchronousLoop → Bool
n_total_is_zero l = l.n_total == 0

-- The loop after some operations have ended, each with its success.
abbrev pub after : List Bool → AsynchronousLoop → AsynchronousLoop
after [] l = l
after (b ∷ bs) l = after bs (increment_success_or_failure_due_to b l)

after-counts :
    (bs : List Bool) (l : AsynchronousLoop)
    → l.n_succeeded + l.n_failed + length bs < modulus
    → ((after bs l).n_succeeded + (after bs l).n_failed ≡ l.n_succeeded + l.n_failed + length bs)
      × ((after bs l).n_total ≡ l.n_total)
unfolding increment_success_or_failure_due_to
after-counts [] l h = (omega arith, refl)
after-counts (true ∷ bs) l h =
    let l' = increment_success_or_failure_due_to true l in
    let small : suc l.n_succeeded % modulus ≡ suc l.n_succeeded = omega arith in
    let (counts, total) = after-counts bs l' (omega arith) in (omega arith, total)
after-counts (false ∷ bs) l h =
    let l' = increment_success_or_failure_due_to false l in
    let small : suc l.n_failed % modulus ≡ suc l.n_failed = omega arith in
    let (counts, total) = after-counts bs l' (omega arith) in (omega arith, total)

-- Of a loop over fewer than 2 ^ 32 operations, as long as no more end than there are, the loop is
-- complete exactly when all have ended, whichever of them succeeded.
pub is_complete-after :
    (n : ℕ) (bs : List Bool)
    → n < modulus
    → length bs ≤ n
    → is_complete (after bs (new_loop n)) ≡ (length bs == n)
unfolding is_complete
is_complete-after n bs h k =
    let (counts, total) = after-counts bs (new_loop n) (omega arith) in
    ground (arith, counts, total)

-- Whatever was counted, setting the rest to failures completes a loop whose counters are in range.
pub set_remaining-is_complete :
    (l : AsynchronousLoop)
    → l.n_total < modulus
    → l.n_succeeded < modulus
    → is_complete (set_remaining_iterations_to_failure l) ≡ true
unfolding is_complete set_remaining_iterations_to_failure
set_remaining-is_complete l h k =
    let e : (l.n_succeeded + (l.n_total + modulus - l.n_succeeded) % modulus) % modulus
        ≡ l.n_total =
      omega arith in
    (==_iff _ _).1 e
