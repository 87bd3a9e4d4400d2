-- ===== src/Qutex/Examples.antt =====
-- Tests of the qutex operations, and the theorems at concrete queues.
use libspinscale.Base.{
  ℕ, suc, ◌≡◌, refl, min, true, false, Option, none, some, List, [], ◌∷◌, arith, ◌==◌,
  if◌then◌else◌, ◌≢◌, length,
}
use mathlib.Core.List.{Perm}
use libspinscale.Outcome.{ok, stop, throws, undefined, release_on_unowned_qutex}
use libspinscale.SpinLock.{unlocked}
use libspinscale.Qutex.{
  Entry, Lockvoker, Qutex, IsUnlocked, find_node, try_acquire, backoff, release, register_in_queue,
  unregister_from_queue, rotate, backoff_from, give_back,
}
use libspinscale.Qutex.Positions.{position, Distinct}
use libspinscale.Qutex.TryAcquire.{HasIterator, eligible, owned_by, try_acquire-eligible}
use libspinscale.Qutex.Backoff.{AwakensOther, backoff_yields}
use libspinscale.Qutex.Release.{Hangs, release_unowned-Hangs}
use libspinscale.Qutex.Nodes.{WellFormed, backoff-WellFormed}
use libspinscale.Qutex.Registration.{unregister_from_queue-WellFormed, register-unregister}

abbrev entry : ℕ → ℕ → Entry
entry it lv = record { node = it; lockvoker = lv }

abbrev three_waiters : List Entry
three_waiters = entry 1 70 ∷ entry 2 80 ∷ entry 3 90 ∷ []

abbrev free : Qutex
free = record {
  lock = unlocked;
  queue = three_waiters;
  is_owned = false;
  curr_owner = none;
  next_node = 4;
}

abbrev held : Qutex
held = record free { is_owned = true; curr_owner = some 60 }

abbrev deserted : Qutex
deserted = record free { queue = [] }

-- The lockvoker of continuation 80, and that of 70 in front.
abbrev second : Lockvoker
second = record { vaddr = 80; iterator = some 2 }

abbrev first : Lockvoker
first = record { vaddr = 70; iterator = some 1 }

second-HasIterator : HasIterator second three_waiters
unfolding find_node
second-HasIterator = record { it = 2; entry = entry 2 80; stored = refl; found = refl; own = refl }

first-HasIterator : HasIterator first three_waiters
unfolding find_node
first-HasIterator = record { it = 1; entry = entry 1 70; stored = refl; found = refl; own = refl }

-- Of three entries, a request for two locks scans one from the rear.
two_locks_in_the_middle : try_acquire true second 2 free ≡ ok true (owned_by true 80 free)
unfolding try_acquire
two_locks_in_the_middle = refl

two_locks_at_the_rear :
    try_acquire false (record { vaddr = 90; iterator = some 3 }) 2 free ≡ ok false free
unfolding try_acquire
two_locks_at_the_rear = refl

one_lock_behind_the_front : try_acquire false second 1 free ≡ ok false free
unfolding try_acquire
one_lock_behind_the_front = refl

-- A stored iterator to no node, in a debug build.
dead_iterator :
    try_acquire true (record { vaddr = 80; iterator = some 9 }) 2 free
    ≡ stop undefined (record free { lock = record { locked = true }; is_owned = true })
unfolding try_acquire
dead_iterator = refl

-- With two required locks the front goes behind one other, and the new front is awakened.
front_backs_off :
    backoff false first 2 held
    ≡ ok
        (some 80)
        (record held { queue = entry 2 80 ∷ entry 1 70 ∷ entry 3 90 ∷ []; is_owned = false })
unfolding backoff backoff_from give_back rotate
front_backs_off = refl

-- With five it goes to the back of three.
front_backs_off_to_the_back :
    backoff true first 5 held
    ≡ ok (some 80) (record held {
      queue = entry 2 80 ∷ entry 3 90 ∷ entry 1 70 ∷ [];
      is_owned = false;
      curr_owner = none;
    })
unfolding backoff backoff_from give_back rotate
front_backs_off_to_the_back = refl

try_acquire-eligible_example : try_acquire true second 2 free ≡ (
    if false
    then ok false free
    else if eligible 2 3 1
    then ok true (owned_by true 80 free)
    else ok false free)
try_acquire-eligible_example =
    try_acquire-eligible true second free refl 2 (omega arith) second-HasIterator (omega arith)
      (omega arith)

backoff_yields_example :
    (w : Option ℕ) × (q' : Qutex) × (backoff true first 2 held ≡ ok w q')
    × Perm q'.queue three_waiters
    × Distinct q'.queue
    × (position 70 q'.queue ≡ (if position 70 three_waiters == 0 then min 1 2 else 0))
    × (q'.is_owned ≡ false)
    × IsUnlocked q'
    × AwakensOther w 70 q'.queue
backoff_yields_example =
    backoff_yields true first 2 held refl (omega arith) (omega arith) (omega arith)

release_unowned-Hangs_example :
    (q' : Qutex) × (release false free ≡ stop (throws release_on_unowned_qutex) q') × Hangs false q'
release_unowned-Hangs_example = release_unowned-Hangs false free refl refl

free-WellFormed : WellFormed free
free-WellFormed = omega arith

backoff-WellFormed_example :
    (w : Option ℕ) × (q' : Qutex) × (backoff false first 3 free ≡ ok w q')
    × WellFormed q'
    × ((it : ℕ) → find_node it q'.queue ≡ find_node it three_waiters)
backoff-WellFormed_example =
    backoff-WellFormed false first 3 free refl (omega arith) (omega arith) (omega arith)
      free-WellFormed

unregister_from_queue-WellFormed_example :
    (q' : Qutex) × (unregister_from_queue 2 true free ≡ ok tt q')
    × WellFormed q'
    × (find_node 2 q'.queue ≡ none)
    × ((other : ℕ) → other ≢ 2 → find_node other q'.queue ≡ find_node other three_waiters)
    × (suc (length q'.queue) ≡ 3)
    × (q'.is_owned ≡ false)
    × IsUnlocked q'
unfolding find_node
unregister_from_queue-WellFormed_example =
    unregister_from_queue-WellFormed 2 true free {e = entry 2 80} refl free-WellFormed refl

register-unregister_example :
    (it : ℕ) × (q' : Qutex) × (register_in_queue 50 free ≡ ok it q')
    × (unregister_from_queue it true q' ≡ ok tt (record free { next_node = 5 }))
register-unregister_example = register-unregister 50 free refl free-WellFormed
