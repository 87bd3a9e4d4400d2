-- ===== src/LockSet/Stepwise.antt =====
-- include/spinscale/lockSet.h, one call of a qutex at a time.
--
-- A qutex runs each of its methods under its spin lock, and awakens a lockvoker after it has unlocked.
-- So other threads can run between two such calls of one LockSet method, and before the awakening. A
-- phase is where the method stands between them, with the local variables that are live there.
pub mod Holders
pub mod Calls
pub mod Locks
pub mod Moves
pub mod Attempts
pub mod Advances
pub mod Exclusion
pub mod Queues
pub mod Enlisted
pub mod Answered
pub mod Attempting
pub mod Enrolling
pub mod Served
pub mod Progress
pub mod Orderly
pub mod Standing
mod Examples
use libspinscale.Base.{
  ℕ, zero, suc, ◌≡◌, Bool, true, false, not, Option, none, some, List, [], ◌∷◌, ◌++◌, if◌then◌else◌,
  ltb, length,
}
use libspinscale.Outcome.{
  M, ok, stop, throws, undefined, ◌>>=◌, ◌>>◌, return, throw, not_registered_in_qutex_queues,
  all_locks_already_acquired, all_locks_not_acquired, qutex_not_in_lock_set,
}
use libspinscale.Qutex
use libspinscale.World.{World, LockSet, LockUsageDesc, on_qutex, get_lock_usage_desc, lockvoker_for}
use libspinscale.LockSet.{
  awaken_front, set_lock_set, mark_released, register_in_qutex_queues, unregister_from_qutex_queues,
  try_acquire_or_back_off, release, release_qutex_early,
}

pub data Operation : Type 0 where
  registers unregisters attempts releases : Operation
  releases_early : (qutex : ℕ) → Operation

-- What a method returns: `tryAcquireOrBackOff` its result and `firstFailedQutex`.
pub data Returned : Type 0 where
  nothing : Returned
  attempt : Bool → Option ℕ → Returned

pub data Phase : Type 0 where
  finished : Returned → Phase
  registering : (registered rest : List LockUsageDesc) → Phase
  unregistering : (rest : List LockUsageDesc) → Phase
  acquiring : (n_required_locks : ℕ) (rest : List LockUsageDesc) (n_acquired : ℕ) → Phase
  acquired : (n_required_locks n_acquired : ℕ) (first_failed : Option ℕ) → Phase
  backing_off :
      (n_required_locks i : ℕ) (rest : List LockUsageDesc) (first_failed : Option ℕ) → Phase
  releasing : (rest : List LockUsageDesc) → Phase
  releasing_early marking : (qutex : ℕ) → Phase
  awakening : (waiter : Option ℕ) → Phase → Phase

-- The lockvoker that was at the front when the spin lock was freed has been destroyed since.
abbrev pub is_dangling : Option ℕ → World → Bool
is_dangling none w = false
is_dangling (some v) w = not (w.is_live v)

-- What comes next dereferences a destroyed lockvoker.
abbrev pub dangles : Phase → World → Bool
dangles (awakening o p) w = is_dangling o w
dangles _ w = false

module _ (c : ℕ) where
  -- The guards, up to the first call of a qutex.
  unfoldable pub begin : Operation → M World Phase
  begin registers w = ok (registering [] (w.lock_set c).locks) w
  begin unregisters w =
      if not (w.lock_set c).registered_in_qutex_queues
      then throw not_registered_in_qutex_queues w
      else ok (unregistering (w.lock_set c).locks) w
  begin attempts w =
      let s = w.lock_set c in
      if not s.registered_in_qutex_queues
      then throw not_registered_in_qutex_queues w
      else if s.all_locks_acquired
      then throw all_locks_already_acquired w
      else ok (acquiring (length s.locks) s.locks 0) w
  begin releases w =
      let s = w.lock_set c in
      if not s.registered_in_qutex_queues
      then throw not_registered_in_qutex_queues w
      else if not s.all_locks_acquired
      then throw all_locks_not_acquired w
      else ok (releasing s.locks) w
  begin (releases_early a) w =
      if not (w.lock_set c).all_locks_acquired
      then throw all_locks_not_acquired w
      else elim (get_lock_usage_desc (w.lock_set c).locks a) [
        | none ↦ throw qutex_not_in_lock_set w
        | some d ↦ ok (if d.has_been_released then finished nothing else releasing_early a) w
      ]

module _ (debug_locks : Bool) (c : ℕ) where
  -- The next call, and where the method stands after it.
  unfoldable pub next_call : Phase → M World Phase
  next_call (finished r) w = ok (finished r) w
  next_call (registering registered []) w = ok (finished nothing) (
      set_lock_set c
        (record (w.lock_set c) { locks = registered; registered_in_qutex_queues = true }) w)
  next_call (registering registered (d ∷ ds)) w =
      (do
        it ← on_qutex d.qutex (Qutex.register_in_queue c)
        return (registering (registered ++ record d { iterator = it } ∷ []) ds))
        w
  next_call (unregistering []) w = ok (finished nothing) w
  next_call (unregistering (d ∷ ds)) w =
      (do on_qutex d.qutex (Qutex.unregister_from_queue d.iterator true); return (unregistering ds))
        w
  next_call (acquiring n [] n_acquired) w = ok (acquired n n_acquired none) w
  next_call (acquiring n (d ∷ ds) n_acquired) w =
      (do
        taken ←
            on_qutex d.qutex
              (Qutex.try_acquire debug_locks (lockvoker_for (w.lock_set c) c d.qutex) n)
        return (
            if taken
            then acquiring n ds (suc n_acquired)
            else acquired n n_acquired (some d.qutex)))
        w
  next_call (acquired n n_acquired first_failed) w =
      if ltb n_acquired n
      then ok (backing_off n n_acquired (w.lock_set c).locks first_failed) w
      else ok (finished (attempt true first_failed))
          (set_lock_set c (record (w.lock_set c) { all_locks_acquired = true }) w)
  next_call (backing_off n zero ds first_failed) w = ok (finished (attempt false first_failed)) w
  next_call (backing_off n (suc i) [] first_failed) w = stop undefined w
  next_call (backing_off n (suc i) (d ∷ ds) first_failed) w =
      (do
        woken ←
            on_qutex d.qutex (Qutex.backoff debug_locks (lockvoker_for (w.lock_set c) c d.qutex) n)
        return (awakening woken (backing_off n i ds first_failed)))
        w
  next_call (releasing []) w =
      ok (finished nothing)
        (set_lock_set c (record (w.lock_set c) { all_locks_acquired = false }) w)
  next_call (releasing (d ∷ ds)) w =
      if d.has_been_released
      then ok (releasing ds) w
      else (do
        woken ← on_qutex d.qutex (Qutex.release debug_locks)
        return (awakening woken (releasing ds)))
          w
  next_call (releasing_early a) w =
      (do woken ← on_qutex a (Qutex.release debug_locks); return (awakening woken (marking a))) w
  next_call (marking a) w = ok (finished nothing) (
      set_lock_set c
        (record (w.lock_set c) { locks = mark_released debug_locks c a (w.lock_set c).locks }) w)
  next_call (awakening woken p) w =
      if is_dangling woken w then stop undefined w else (do awaken_front woken; return p) w

  -- As many calls as the fuel, with nothing in between.
  unfoldable pub run : ℕ → Phase → M World Phase
  run zero p w = ok p w
  run (suc fuel) p w = (do p' ← next_call p; run fuel p') w
