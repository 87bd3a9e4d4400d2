-- ===== src/AsynchronousContinuation/Examples.antt =====
-- Tests of stored exceptions, and the walk along a chain of three continuations.
use libspinscale.Base.{
  Bool, ◌↔◌, ℕ, zero, suc, ◌≡◌, refl, true, false, none, some, List, [], ◌∷◌, arith,
}
use libspinscale.Outcome.{ok, throw, application_exception}
use libspinscale.DependencyGraph.{member}
use libspinscale.World.{LockSet, get_lock_usage_desc}
use libspinscale.AsynchronousContinuation.{
  AsynchronousContinuation, construct, next_of, check_exception, callee_setexc_callcb, trace_chain,
  collect_chain,
}
use libspinscale.AsynchronousContinuation.Chain.{CallersAreOlder, Requires, chain-Requires}

-- Continuation 2 was called by 1, and 1 by 0; 1 takes no locks.
abbrev called_in_turn : ℕ → AsynchronousContinuation
called_in_turn zero =
    construct (record { caller_continuation = none; callback_fn = some 0 }) (some 4)
called_in_turn (suc zero) =
    construct (record { caller_continuation = some 0; callback_fn = some 1 }) none
called_in_turn (suc (suc n)) =
    construct (record { caller_continuation = some (suc n); callback_fn = some 2 }) (some 4)

abbrev takes_lock_5 : ℕ → LockSet
takes_lock_5 c = record {
  locks = record { qutex = 5; iterator = 0; has_been_released = false } ∷ [];
  all_locks_acquired = false;
  registered_in_qutex_queues = true;
}

exception_is_rethrown :
    callee_setexc_callcb (λ f. check_exception) 9 (called_in_turn 0)
    ≡ throw (application_exception 9) (record (called_in_turn 0) { exception = some 9 })
unfolding callee_setexc_callcb check_exception construct
exception_is_rethrown = refl

no_exception_is_thrown : check_exception (called_in_turn 0) ≡ ok tt (called_in_turn 0)
unfolding check_exception construct
no_exception_is_thrown = refl

found_two_calls_up :
    trace_chain called_in_turn 4 takes_lock_5 5 2 (next_of called_in_turn 2) ≡ some true
unfolding trace_chain construct get_lock_usage_desc
found_two_calls_up = refl

called_in_turn-CallersAreOlder : CallersAreOlder called_in_turn
unfolding next_of construct
called_in_turn-CallersAreOlder zero b e = absurd (cc)
called_in_turn-CallersAreOlder (suc zero) b e = ground (arith, e)
called_in_turn-CallersAreOlder (suc (suc n)) b e = ground (arith, e)

chain-Requires_example :
    (found : Bool) × (held : List ℕ) × (trace_chain called_in_turn 4 takes_lock_5 5 2
        (next_of called_in_turn 2)
      ≡ some found)
    × (collect_chain called_in_turn 4 takes_lock_5 2 (next_of called_in_turn 2) [] ≡ some held)
    × (found ≡ true ↔ Requires 4 called_in_turn takes_lock_5 5 (next_of called_in_turn 2))
    × (member 5 held ≡ true ↔ Requires 4 called_in_turn takes_lock_5 5 (next_of called_in_turn 2))
unfolding next_of construct
chain-Requires_example =
    chain-Requires 4 called_in_turn takes_lock_5 called_in_turn-CallersAreOlder 2
      (next_of called_in_turn 2) (omega arith) 5

-- A caller with another callback type is not searched.
missed_with_other_type :
    trace_chain called_in_turn 9 takes_lock_5 5 2 (next_of called_in_turn 2) ≡ some false
unfolding trace_chain construct
missed_with_other_type = refl
