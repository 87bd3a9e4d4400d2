-- ===== src/LockerAndInvoker/Crossing/Examples.antt =====
-- Two continuations that name the same two locks in opposite orders, and refuse each other.
use libspinscale.Base.{ℕ, ◌≡◌, refl, true, false, none, some, [], ◌∷◌, if◌then◌else◌, ◌==◌, arith}
use libspinscale.Outcome.{M, ok, ◌>>=◌, return}
use libspinscale.SpinLock.{unlocked}
use libspinscale.Qutex
use libspinscale.Qutex.{Entry, Qutex, find_node, scan_rear}
use libspinscale.World.{World, LockSet, LockUsageDesc, lockvoker_for, get_lock_usage_desc}
use libspinscale.LockSet.Taking.{IsWaiting}
use libspinscale.LockSet.Stepwise.{
  Phase, attempt, attempts, finished, backing_off, begin, next_call, run,
}
use libspinscale.LockerAndInvoker.{allow_awakening}
use libspinscale.LockerAndInvoker.Crossing.{Stuck, run-Stuck}

abbrev queue_of : ℕ → ℕ → Qutex
queue_of c d = record {
  lock = unlocked;
  queue = record { node = 1; lockvoker = c } ∷ record { node = 2; lockvoker = d } ∷ [];
  is_owned = false;
  curr_owner = none;
  next_node = 3;
}

abbrev lock_at : ℕ → ℕ → LockUsageDesc
lock_at a i = record { qutex = a; iterator = i; has_been_released = false }

abbrev locks_of : LockUsageDesc → LockUsageDesc → LockSet
locks_of l k = record {
  locks = l ∷ k ∷ [];
  all_locks_acquired = false;
  registered_in_qutex_queues = true;
}

-- 70 is in front for the qutex 1, and 80 for the qutex 2.
abbrev opposed : World
opposed = record {
  qutex = λ a. if a == 1 then queue_of 70 80 else queue_of 80 70;
  lock_set = λ c.
      if c == 70
      then locks_of (lock_at 1 1) (lock_at 2 2)
      else locks_of (lock_at 2 1) (lock_at 1 2);
  is_awake = λ _. true;
  is_live = λ _. true;
  target = λ c. c;
  posted = [];
}

abbrev refused_at : ℕ → ℕ → Phase
refused_at a b = backing_off 2 1 (lock_at a 1 ∷ lock_at b 2 ∷ []) (some b)

abbrev both : Phase → Phase → M World (Phase × Phase)
both r s = return (r, s)

-- Each takes its first lock, and is refused the second.
refused :
    (w : World) × ((do
      p ← begin 70 attempts
      q ← begin 80 attempts
      p' ← next_call true 70 p
      q' ← next_call true 80 q
      r ← run true 70 2 p'
      s ← run true 80 2 q'
      both r s)
        opposed
      ≡ ok (refused_at 1 2, refused_at 2 1) w)
unfolding begin next_call run Qutex.try_acquire lockvoker_for get_lock_usage_desc find_node
    scan_rear
refused = (_, refl)

waiting_70 : IsWaiting 70 (refused.0.lock_set 70) (refused.0.qutex 1) 1
unfolding refused find_node lockvoker_for get_lock_usage_desc
waiting_70 = record {
  unlocked = refl;
  distinct = omega arith;
  queued = omega arith;
  iterator = record {
    it = 1;
    entry = record { node = 1; lockvoker = 70 };
    stored = refl;
    found = refl;
    own = refl;
  };
}

waiting_80 : IsWaiting 80 (refused.0.lock_set 80) (refused.0.qutex 2) 2
unfolding refused find_node lockvoker_for get_lock_usage_desc
waiting_80 = record {
  unlocked = refl;
  distinct = omega arith;
  queued = omega arith;
  iterator = record {
    it = 1;
    entry = record { node = 1; lockvoker = 80 };
    stored = refl;
    found = refl;
    own = refl;
  };
}

run-Stuck_example :
    (w1 : World) × (w2 : World) × (run true 70 3 (refused_at 1 2) refused.0
      ≡ ok (finished (attempt false (some 2))) w1)
    × (run true 80 3 (refused_at 2 1) w1 ≡ ok (finished (attempt false (some 1))) w2)
    × Stuck 1 2 70 80 refused.0 (allow_awakening 80 (allow_awakening 70 w2))
unfolding refused
run-Stuck_example =
    run-Stuck true 70 80 2 2 (lock_at 1 1) (lock_at 2 1) (lock_at 2 2 ∷ []) (lock_at 1 2 ∷ [])
      (some 2) (some 1) refused.0 (omega arith) (omega arith) (λ e. absurd (omega (arith, e)))
      waiting_70 waiting_80 refl refl refl refl refl refl
