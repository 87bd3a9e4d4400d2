-- ===== src/LockSet/Stepwise/Examples.antt =====
-- Two continuations whose attempts on the same two locks are interleaved.
use mathlib.Core.Bool.{false≢true}
use libspinscale.Base.{
  ℕ, ◌⊎◌, ◌<◌, ◌≡◌, refl, inl, inr, Bool-cases, true, false, none, [], ◌∷◌, update, if◌then◌else◌,
  ◌==◌, arith,
}
use libspinscale.Outcome.{ok, stop, undefined}
use libspinscale.SpinLock.{unlocked}
use libspinscale.Qutex
use libspinscale.Qutex.{Entry, Qutex, find_node, scan_rear}
use libspinscale.World.{World, LockSet, lockvoker_for, get_lock_usage_desc}
use libspinscale.LockSet.Stepwise.{dangles, attempts, nothing, Phase, finished, begin, next_call}
use libspinscale.LockSet.Stepwise.Exclusion.{System, has, enters, calls, Separate, Steps-Separate}
use libspinscale.LockSet.Stepwise.Queues.{Healthy}
use libspinscale.LockSet.Stepwise.Enlisted.{AllNamed}
use libspinscale.LockSet.Stepwise.Progress.{calls_left}
use libspinscale.LockSet.Stepwise.Orderly.{
  OrderlySteps, here, after, OrderlySteps-Steps, Orderly, next_call-returns,
}
use libspinscale.LockSet.Stepwise.Standing.{Steps-Enrolled}
use libspinscale.LockSet.LookingUp.{LooksUp-self}
use libspinscale.LockSet.Taking.{DistinctLocks}

abbrev queue_of : ℕ → ℕ → Qutex
queue_of i j = record {
  lock = unlocked;
  queue = record { node = i; lockvoker = 70 } ∷ record { node = j; lockvoker = 80 } ∷ [];
  is_owned = false;
  curr_owner = none;
  next_node = 9;
}

abbrev locks_at : ℕ → ℕ → LockSet
locks_at i j = record {
  locks =
      record { qutex = 1; iterator = i; has_been_released = false }
      ∷ record { qutex = 2; iterator = j; has_been_released = false }
      ∷ [];
  all_locks_acquired = false;
  registered_in_qutex_queues = true;
}

-- The continuations 70 and 80 wait for the qutexes 1 and 2, with 70 in front.
abbrev pub both_wait : World
both_wait = record {
  qutex = λ a. if a == 1 then queue_of 1 2 else queue_of 5 6;
  lock_set = λ c. if c == 70 then locks_at 1 5 else locks_at 2 6;
  is_awake = λ _. true;
  is_live = λ _. true;
  target = λ _. 0;
  posted = [];
}

abbrev pub both_idle : System
both_idle = record { world = both_wait; phase = λ _. finished nothing }

both_idle-Separate : Separate true both_idle
both_idle-Separate = record {
  exclusive = record {
    apart = λ c d a x y. absurd (false≢true (ground (arith, x)));
    owned = λ c a x. absurd (false≢true (ground (arith, x)));
  };
  coherent = λ c. tt;
}

distinct : (i j : ℕ) → DistinctLocks (locks_at i j).locks
distinct i j = (((λ e. omega (arith, e)), tt), (tt, tt))

queue_of-Healthy : (i j : ℕ) → i < j → j < 9 → Healthy (queue_of i j)
queue_of-Healthy i j h k = record {
  unlocked = refl;
  well_formed = record {
    distinct = (((λ e. omega (arith, e)), tt), (tt, tt));
    below = (omega arith, (omega arith, tt));
  };
  distinct = (((λ e. omega (arith, e)), tt), (tt, tt));
}

both_wait-Healthy : (a : ℕ) → Healthy (both_wait.qutex a)
both_wait-Healthy a = elim (Bool-cases (a == 1)) [
  | inl first ↦ rw first (queue_of-Healthy 1 2 (omega arith) (omega arith))
  | inr second ↦ rw second (queue_of-Healthy 5 6 (omega arith) (omega arith))
]

both_idle-Orderly : Orderly true both_idle
both_idle-Orderly = record {
  exclusive = both_idle-Separate;
  healthy = both_wait-Healthy;
  enlisted = λ c. tt;
}

named_70 : AllNamed 70 (locks_at 1 5).locks both_wait.qutex
unfolding find_node
named_70 = (
  record { entry = record { node = 1; lockvoker = 70 }; found = refl; own = refl },
  (record { entry = record { node = 5; lockvoker = 70 }; found = refl; own = refl }, tt),
)

named_80 : AllNamed 80 (locks_at 2 6).locks both_wait.qutex
unfolding find_node
named_80 = (
  record { entry = record { node = 2; lockvoker = 80 }; found = refl; own = refl },
  (record { entry = record { node = 6; lockvoker = 80 }; found = refl; own = refl }, tt),
)

-- Both enter; 70 takes the first lock, which 80 is then refused, and 70 takes the second.
turns :
    (t : System) × OrderlySteps true both_idle t
    × (has t 70 2 ≡ true)
    × (has t 80 1 ≡ false)
    × (0 < calls_left (t.phase 80))
unfolding begin next_call Qutex.try_acquire lockvoker_for get_lock_usage_desc find_node scan_rear
turns = (
  _,
  after
      (after
        (after
          (after
            (after here (enters 70 attempts nothing refl (distinct 1 5) refl) (
              omega arith,
              refl,
              named_70,
              LooksUp-self (locks_at 1 5).locks (distinct 1 5),
              named_70,
              distinct 1 5,
            ))
            (enters 80 attempts nothing refl (distinct 2 6) refl)
            (
              omega arith,
              refl,
              named_80,
              LooksUp-self (locks_at 2 6).locks (distinct 2 6),
              named_80,
              distinct 2 6,
            ))
          (calls 70 refl) tt)
        (calls 80 refl) tt)
      (calls 70 refl) tt,
  refl,
  refl,
  omega arith,
)

Steps-Separate_example : Separate true (turns.0)
Steps-Separate_example = Steps-Separate true (OrderlySteps-Steps true turns.1) both_idle-Separate

next_call-returns_example :
    ((p' : Phase) × (w' : World) × (next_call true 80 (turns.0.phase 80) turns.0.world ≡ ok p' w')
      × (calls_left p' < calls_left (turns.0.phase 80))
      × Orderly true (record { world = w'; phase = update turns.0.phase 80 p' }))
    ⊎ ((dangles (turns.0.phase 80) turns.0.world ≡ true)
        × (next_call true 80 (turns.0.phase 80) turns.0.world ≡ stop undefined turns.0.world))
next_call-returns_example = next_call-returns true 80 turns.1 both_idle-Orderly turns.4

Steps-Enrolled_example : AllNamed 80 (turns.0.world.lock_set 80).locks turns.0.world.qutex
unfolding turns
Steps-Enrolled_example =
    Steps-Enrolled true 80 turns.1
      (((((tt, λ k e. absurd (omega (arith, k))), λ k e. absurd (ground (arith, e))), tt), tt), tt)
      both_idle-Orderly named_80
