-- ===== src/LockSet/Examples.antt =====
-- Tests of the lock set, and its theorems for a continuation with two locks.
use libspinscale.Base.{
  ℕ, ◌≡◌, refl, sym, ◌∙◌, ◌⊎◌, Bool, true, false, Option, none, some, List, [], ◌∷◌, if◌then◌else◌,
  ◌==◌, arith,
}
use mathlib.Core.Bool.{false≢true}
use libspinscale.Outcome.{ok}
use libspinscale.SpinLock.{unlocked}
use libspinscale.Qutex
use libspinscale.Qutex.{Entry, Qutex, find_node}
use libspinscale.World.{World, LockSet, get_lock_usage_desc, lockvoker_for, awaken}
use libspinscale.LockSet.{
  try_acquire_or_back_off, acquire_locks, back_off_locks, finish_acquisition, awaken_front, release,
}
use libspinscale.LockSet.Taking.{IsWaiting}
use libspinscale.LockSet.Exclusion.{holds, Exclusive}
use libspinscale.LockSet.MutualExclusion.{
  Steps, here, after, attempted, awakened, Exclusive-release,
}
use libspinscale.LockSet.Attempt.{IsReady}
use libspinscale.LockSet.Releasing.{pending, Released}
use libspinscale.LockSet.AllOrNothing.{TookAll, TookNone, try_acquire_or_back_off-total}

abbrev queue_of : List Entry → Bool → Qutex
queue_of entries is_owned = record {
  lock = unlocked;
  queue = entries;
  is_owned = is_owned;
  curr_owner = none;
  next_node = 9;
}

abbrev pub at_front : Qutex
at_front =
    queue_of (record { node = 1; lockvoker = 70 } ∷ record { node = 2; lockvoker = 80 } ∷ []) false

abbrev pub alone : Bool → Qutex
alone is_owned = queue_of (record { node = 5; lockvoker = 70 } ∷ []) is_owned

-- Continuation 70 requires the qutexes 1 and 2.
abbrev pub two_locks : LockSet
two_locks = record {
  locks =
      record { qutex = 1; iterator = 1; has_been_released = false }
      ∷ record { qutex = 2; iterator = 5; has_been_released = false }
      ∷ [];
  all_locks_acquired = false;
  registered_in_qutex_queues = true;
}

-- The second qutex is owned by another, or not.
abbrev pub two_qutexes : Bool → World
two_qutexes is_owned = record {
  qutex = λ a. if a == 1 then at_front else alone is_owned;
  lock_set = λ _. two_locks;
  is_awake = λ _. false;
  is_live = λ _. true;
  target = λ _. 0;
  posted = [];
}

at_front-IsWaiting : IsWaiting 70 two_locks at_front 1
unfolding find_node lockvoker_for
at_front-IsWaiting = record {
  unlocked = refl;
  distinct = omega arith;
  queued = omega arith;
  iterator = record {
    it = 1;
    entry = record { node = 1; lockvoker = 70 };
    stored = refl;
    found = refl;
    own = refl;
  };
}

alone-IsWaiting : IsWaiting 70 two_locks (alone true) 2
unfolding find_node lockvoker_for
alone-IsWaiting = record {
  unlocked = refl;
  distinct = omega arith;
  queued = omega arith;
  iterator = record {
    it = 5;
    entry = record { node = 5; lockvoker = 70 };
    stored = refl;
    found = refl;
    own = refl;
  };
}

pub two_qutexes-IsReady : IsReady 70 (two_qutexes true)
two_qutexes-IsReady = record {
  registered = refl;
  not_acquired = refl;
  distinct = (((λ e. omega (arith, e)), tt), (tt, tt));
  waiting = (at_front-IsWaiting, (alone-IsWaiting, tt));
}

-- The first lock is taken and given back, so the waiter behind it goes to the front and is awakened.
second_lock_refused :
    (w' : World) × (try_acquire_or_back_off true 70 (two_qutexes true) ≡ ok (false, some 2) w')
    × (w'.posted ≡ (0, 80) ∷ [])
    × ((w'.qutex 1).is_owned ≡ false)
unfolding try_acquire_or_back_off acquire_locks back_off_locks finish_acquisition Qutex.try_acquire
    Qutex.backoff Qutex.backoff_from Qutex.give_back Qutex.rotate lockvoker_for get_lock_usage_desc
    awaken_front
second_lock_refused = (_, refl, refl, refl)

try_acquire_or_back_off-total_example :
    (r : Bool × Option ℕ) × (w' : World) × (try_acquire_or_back_off true 70 (two_qutexes true)
      ≡ ok r w')
    × (TookAll true 70 (two_qutexes true) r w' ⊎ TookNone true 70 (two_qutexes true) r w')
try_acquire_or_back_off-total_example =
    try_acquire_or_back_off-total true 70 (two_qutexes true) two_qutexes-IsReady (omega arith)

-- The two locks while they are held, the second of them released early.
abbrev both_held : World
both_held = record {
  qutex = λ a. record at_front { is_owned = true; curr_owner = some 60 };
  lock_set = λ _. record {
    locks =
        record { qutex = 1; iterator = 1; has_been_released = false }
        ∷ record { qutex = 2; iterator = 5; has_been_released = true }
        ∷ [];
    all_locks_acquired = true;
    registered_in_qutex_queues = true;
  };
  is_awake = λ _. false;
  is_live = λ _. true;
  target = λ _. 0;
  posted = [];
}

-- Nobody has acquired a lock set yet.
two_qutexes-Exclusive : Exclusive true (two_qutexes true)
two_qutexes-Exclusive = record {
  apart = λ c d a x y. absurd (false≢true x);
  owned = λ c a x. absurd (false≢true x);
}

-- Continuation 70 attempts, is refused, and 80 is awakened.
abbrev attempted_world : World
attempted_world =
    (try_acquire_or_back_off-total true 70 (two_qutexes true) two_qutexes-IsReady (omega arith)).1

abbrev attempted_steps : Steps true (two_qutexes true) (awaken 80 false attempted_world)
attempted_steps =
    let (r, w', ran, outcome) =
      try_acquire_or_back_off-total true 70 (two_qutexes true) two_qutexes-IsReady (omega arith) in
    after (after here (attempted 70 r two_qutexes-IsReady (omega arith) ran)) (awakened 80 false)

-- Continuation 60 holds the qutex 1, and nobody else holds any.
abbrev one_holder : World
one_holder = record both_held {
  lock_set = λ c. if c == 60 then both_held.lock_set 60 else two_locks;
}

held_by_60 : (c a : ℕ) → holds one_holder c a ≡ true → 60 ≡ c
held_by_60 c a x = ground (arith, x)

one_holder-Exclusive : Exclusive true one_holder
one_holder-Exclusive = record {
  apart = λ c d a x y. sym (held_by_60 c a x) ∙ held_by_60 d a y;
  owned = λ c a x. record { unlocked = refl; held = record { owned = refl; recorded = tt } };
}

Exclusive-release_example :
    (w' : World) × (release true 60 one_holder ≡ ok tt w')
    × Released true (pending (both_held.lock_set 60).locks) one_holder w'
Exclusive-release_example =
    Exclusive-release true one_holder here one_holder-Exclusive 60 refl refl
      (((λ e. omega (arith, e)), tt), (tt, tt))
