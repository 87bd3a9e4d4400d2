-- ===== src/LockerAndInvoker/Examples.antt =====
-- Tests of the lockvoker, and its theorems at concrete processes.
use libspinscale.Base.{
  ℕ, ◌≡◌, refl, ◌⊎◌, inl, true, false, some, List, [], ◌∷◌, arith, if◌then◌else◌, ◌==◌,
}
use libspinscale.Outcome.{ok}
use libspinscale.SpinLock.{unlocked}
use libspinscale.World.{World, LockSet, LockUsageDesc, awaken, lockvoker_for, get_lock_usage_desc}
use libspinscale.LockSet.Attempt.{IsReady}
use libspinscale.LockSet.Examples.{two_locks, two_qutexes, two_qutexes-IsReady, at_front, alone}
use libspinscale.LockerAndInvoker.{
  ChainLink, serialized, unserialized, Process, Verdict, call, first_wake, first_wake_statements,
  get_acquired_qutex_history, collect_locks, trace_for_deadlock_on, trace_for_deadlock,
}
use libspinscale.Qutex
use libspinscale.Qutex.{Entry, get_curr_owner}
use libspinscale.LockSet.{
  register_in_qutex_queues, register_locks, try_acquire_or_back_off, acquire_locks, back_off_locks,
  finish_acquisition, release_locks,
}
use libspinscale.LockerAndInvoker.{allow_awakening}
use libspinscale.LockerAndInvoker.Serving.{single}
use libspinscale.LockerAndInvoker.Lines.{IsLine}
use libspinscale.LockerAndInvoker.Draining.{run_all_posted, run_all_posted-IsLine}
use libspinscale.LockerAndInvoker.LostWakeUp.{Stalls, release_locks-Stalls}
use libspinscale.LockerAndInvoker.Awakening.{
  Wakes, is_waking, first_wake_began, first_wake_went, awakened, Steps, here, after, AllSingle,
  Steps-AllSingle,
}
use libspinscale.LockerAndInvoker.FirstWake.{IsOpen, first_wake-IsReady}
use libspinscale.LockerAndInvoker.Call.Outcomes.{CanRun, Ran, Sleeps, call-total}

-- The callers of a continuation; each serialized one requires the qutexes 1 and 2.
abbrev chain : List ChainLink
chain = unserialized ∷ serialized 5 ∷ []

abbrev sets : ℕ → LockSet
sets _ = two_locks

abbrev waiting : Process
waiting = record {
  world = two_qutexes true;
  tracker = record { lock = unlocked; history = [] };
  callers = λ _. chain;
  caller_thread = λ _. 0;
  has_callback = λ _. true;
  invoked = [];
  callbacks = [];
}

held_by_callers : get_acquired_qutex_history sets chain ≡ 2 ∷ 1 ∷ []
unfolding get_acquired_qutex_history collect_locks
held_by_callers = refl

required_again : trace_for_deadlock sets two_locks.locks chain ≡ some 1
unfolding trace_for_deadlock trace_for_deadlock_on get_lock_usage_desc
required_again = refl

waiting-CanRun : CanRun true true 0 70 waiting
waiting-CanRun = record {
  thread = refl;
  ready = two_qutexes-IsReady;
  some_lock = omega arith;
  consistent = record { unlocked = refl; distinct = tt };
}

call-total_example :
    (v : Verdict) × (p' : Process) × (call true (some 0) true 70 waiting ≡ ok v p')
    × (Ran true true 0 70 waiting v p' ⊎ Sleeps true true 0 70 waiting v p')
call-total_example = call-total true true 0 70 waiting waiting-CanRun

-- Continuation 60 before it is registered.
abbrev new_world : World
new_world = record (two_qutexes true) {
  lock_set = λ _. record two_locks { registered_in_qutex_queues = false };
}

at_front-IsOpen : IsOpen 60 at_front
at_front-IsOpen = record {
  unlocked = refl;
  well_formed = omega arith;
  distinct = omega arith;
  absent = omega arith;
}

alone-IsOpen : IsOpen 60 (alone true)
alone-IsOpen = record {
  unlocked = refl;
  well_formed = omega arith;
  distinct = omega arith;
  absent = omega arith;
}

first_wake-IsReady_example :
    (w' : World) × (first_wake 60 new_world ≡ ok tt w')
    × IsReady 60 w'
    × (w'.posted ≡ (0, 60) ∷ [])
    × (w'.is_awake 60 ≡ true)
first_wake-IsReady_example =
    first_wake-IsReady 60 new_world refl (((λ e. omega (arith, e)), tt), (tt, tt))
      (at_front-IsOpen, (alone-IsOpen, tt))

-- Continuation 70 waits alone on a qutex that another owns, and the second qutex is its only lock.
abbrev owned_lock : LockUsageDesc
owned_lock = record { qutex = 2; iterator = 5; has_been_released = false }

abbrev refused_world : World
refused_world = record (two_qutexes true) {
  lock_set = λ _. record {
    locks = owned_lock ∷ [];
    all_locks_acquired = false;
    registered_in_qutex_queues = true;
  };
  is_awake = λ _. true;
  is_live = λ _. true;
}

-- Its attempt is refused, and leaves the qutex as it was and the awake flag set.
refused_attempt :
    (w' : World) × (try_acquire_or_back_off false 70 refused_world ≡ ok (false, some 2) w')
    × (w'.qutex 2 ≡ refused_world.qutex 2)
    × (w'.is_awake 70 ≡ true)
    × (w'.posted ≡ [])
unfolding try_acquire_or_back_off acquire_locks back_off_locks finish_acquisition Qutex.try_acquire
    lockvoker_for get_lock_usage_desc
refused_attempt = (_, refl, refl, refl, refl)

release_locks-Stalls_example :
    (w1 : World) × (w2 : World) × (release_locks false 50 (owned_lock ∷ []) refused_world
      ≡ ok tt w1)
    × Stalls 2 70 refused_world (allow_awakening 70 w1)
    × (release_locks false 50 (owned_lock ∷ []) (allow_awakening 70 refused_world) ≡ ok tt w2)
    × (w2.posted ≡ (0, 70) ∷ [])
release_locks-Stalls_example =
    release_locks-Stalls false 50 owned_lock (record { node = 5; lockvoker = 70 }) [] refused_world
      refl refl refl (record { owned = refl; recorded = tt }) refl

abbrev at_rest : Wakes
at_rest = record { world = new_world; waking = λ _. []; attempting = λ _. 0 }

-- The first wake of 60, with an awakening by another thread after its first statement.
woken :
    (s : Wakes) × Steps at_rest s × (s.world.posted ≡ (0, 60) ∷ []) × (is_waking (s.waking 60) ≡ 0)
unfolding first_wake_statements register_in_qutex_queues register_locks Qutex.register_in_queue
    awaken
woken = (
  _,
  after
      (after (after (after here (first_wake_began 60 refl refl)) (awakened 60))
        (first_wake_went 60 refl refl))
      (first_wake_went 60 refl refl),
  refl,
  refl,
)

Steps-AllSingle_example : AllSingle woken.0
Steps-AllSingle_example =
    Steps-AllSingle {s = at_rest} woken.1
      (record { single = λ c. inl refl; on_way = λ c. inl refl })

-- The continuations 70 and 80 wait for the qutex 1 and nothing else.
abbrev two_in_line : List Entry
two_in_line = record { node = 1; lockvoker = 70 } ∷ record { node = 2; lockvoker = 80 } ∷ []

abbrev lined_up : Process
lined_up = record waiting {
  world = record {
    qutex = λ _. at_front;
    lock_set = λ c.
        if c == 70
        then single 1 (record { node = 1; lockvoker = 70 })
        else single 1 (record { node = 2; lockvoker = 80 });
    is_awake = λ c. c == 70;
    is_live = λ _. true;
    target = λ c. c;
    posted = (70, 70) ∷ [];
  };
}

lined_up-IsLine : IsLine 1 two_in_line lined_up.world
lined_up-IsLine = record {
  unlocked = refl;
  unowned = refl;
  queue = refl;
  distinct = (((λ e. omega (arith, e)), tt), (tt, tt));
  single_ = (refl, (refl, tt));
  posted = refl;
  asleep_ = (refl, tt);
}

run_all_posted-IsLine_example :
    (p' : Process) × (run_all_posted true 2 lined_up ≡ ok tt p')
    × (p'.invoked ≡ 70 ∷ 80 ∷ [])
    × IsLine 1 [] p'.world
run_all_posted-IsLine_example = run_all_posted-IsLine true 1 two_in_line lined_up lined_up-IsLine
