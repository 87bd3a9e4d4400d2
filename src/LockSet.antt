-- ===== src/LockSet.antt =====
-- include/spinscale/lockSet.h: the locks that one continuation requires, taken together or not at all.
pub mod Taking
pub mod LookingUp
pub mod BackingOff
pub mod Attempt
pub mod AllOrNothing
pub mod Releasing
pub mod EarlyRelease
pub mod Exclusion
pub mod Queueing
pub mod MutualExclusion
pub mod Stepwise
pub mod Examples
use libspinscale.Base.{
  ℕ, zero, suc, ◌≡◌, Bool, true, false, not, Option, none, some, List, [], ◌∷◌, map, update,
  if◌then◌else◌, ◌==◌, ltb, length,
}
use libspinscale.Outcome.{
  M, ok, stop, throws, undefined, ◌>>=◌, ◌>>◌, return, throw, not_registered_in_qutex_queues,
  all_locks_already_acquired, all_locks_not_acquired, qutex_not_in_lock_set,
}
use libspinscale.Qutex
use libspinscale.World.{
  World, LockSet, LockUsageDesc, on_qutex, get_lock_usage_desc, lockvoker_for, awaken_waiter,
}

-- The constructor: iterators are filled in by the registration.
unfoldable pub construct : List ℕ → LockSet
construct qutexes = record {
  locks = map (λ a. record { qutex = a; iterator = 0; has_been_released = false }) qutexes;
  all_locks_acquired = false;
  registered_in_qutex_queues = false;
}

abbrev pub set_lock_set : ℕ → LockSet → World → World
set_lock_set c s w = record w { lock_set = update w.lock_set c s }

unfoldable pub awaken_front : Option ℕ → M World (Unit {0})
unfolding awaken_waiter
awaken_front o w = ok tt (awaken_waiter o w)

unfoldable pub register_locks : ℕ → List LockUsageDesc → M World (List LockUsageDesc)
register_locks c [] = return []
register_locks c (d ∷ ds) = do
  it ← on_qutex d.qutex (Qutex.register_in_queue c)
  rest ← register_locks c ds
  return (record d { iterator = it } ∷ rest)

unfoldable pub register_in_qutex_queues : ℕ → M World (Unit {0})
register_in_qutex_queues c w =
    (do
      locks ← register_locks c (w.lock_set c).locks
      λ w'. ok tt (
          set_lock_set c
            (record (w'.lock_set c) { locks = locks; registered_in_qutex_queues = true }) w'))
      w

unfoldable pub unregister_locks : List LockUsageDesc → M World (Unit {0})
unregister_locks [] = return tt
unregister_locks (d ∷ ds) = do
  on_qutex d.qutex (Qutex.unregister_from_queue d.iterator true)
  unregister_locks ds

unfoldable pub unregister_from_qutex_queues : ℕ → M World (Unit {0})
unregister_from_qutex_queues c w =
    if not (w.lock_set c).registered_in_qutex_queues
    then throw not_registered_in_qutex_queues w
    else unregister_locks (w.lock_set c).locks w

module _ (debug_locks : Bool) (c : ℕ) where
  -- Lines 151 to 164: the number of locks taken before the first refusal, and who refused.
  unfoldable pub acquire_locks : ℕ → List LockUsageDesc → ℕ → M World (ℕ × Option ℕ)
  acquire_locks n [] n_acquired w = ok (n_acquired, none) w
  acquire_locks n (d ∷ ds) n_acquired w =
      (do
        taken ←
            on_qutex d.qutex
              (Qutex.try_acquire debug_locks (lockvoker_for (w.lock_set c) c d.qutex) n)
        elim taken [
          | true ↦ acquire_locks n ds (suc n_acquired)
          | false ↦ return (n_acquired, some d.qutex)
        ])
        w

  -- Lines 169 to 171.
  unfoldable pub back_off_locks : ℕ → ℕ → List LockUsageDesc → M World (Unit {0})
  back_off_locks n zero ds w = ok tt w
  back_off_locks n (suc i) [] w = stop undefined w
  back_off_locks n (suc i) (d ∷ ds) w =
      (do
        woken ←
            on_qutex d.qutex (Qutex.backoff debug_locks (lockvoker_for (w.lock_set c) c d.qutex) n)
        awaken_front woken
        back_off_locks n i ds)
        w

  unfoldable pub finish_acquisition :
      ℕ → List LockUsageDesc → ℕ × Option ℕ → M World (Bool × Option ℕ)
  finish_acquisition n ds (n_acquired, first_failed) w =
      if ltb n_acquired n
      then (do back_off_locks n n_acquired ds; return (false, first_failed)) w
      else ok (true, first_failed)
          (set_lock_set c (record (w.lock_set c) { all_locks_acquired = true }) w)

  -- The result, and the output parameter `firstFailedQutex`.
  unfoldable pub try_acquire_or_back_off : M World (Bool × Option ℕ)
  try_acquire_or_back_off w =
      let s = w.lock_set c in
      if not s.registered_in_qutex_queues
      then throw not_registered_in_qutex_queues w
      else if s.all_locks_acquired
      then throw all_locks_already_acquired w
      else (do
        result ← acquire_locks (length s.locks) s.locks 0
        finish_acquisition (length s.locks) s.locks result)
          w

  unfoldable pub release_locks : List LockUsageDesc → M World (Unit {0})
  release_locks [] w = ok tt w
  release_locks (d ∷ ds) w =
      (do
        if d.has_been_released
            then return tt
            else (do woken ← on_qutex d.qutex (Qutex.release debug_locks); awaken_front woken)
        release_locks ds)
        w

  unfoldable pub release : M World (Unit {0})
  release w =
      let s = w.lock_set c in
      if not s.registered_in_qutex_queues
      then throw not_registered_in_qutex_queues w
      else if not s.all_locks_acquired
      then throw all_locks_not_acquired w
      else (do
        release_locks s.locks
        λ w'. ok tt (set_lock_set c (record (w'.lock_set c) { all_locks_acquired = false }) w'))
          w

  unfoldable pub mark_released : ℕ → List LockUsageDesc → List LockUsageDesc
  mark_released a [] = []
  mark_released a (d ∷ ds) =
      if d.qutex == a then record d { has_been_released = true } ∷ ds else d ∷ mark_released a ds

  unfoldable pub release_once : ℕ → LockUsageDesc → M World (Unit {0})
  release_once a d w =
      if d.has_been_released
      then ok tt w
      else (do
        woken ← on_qutex a (Qutex.release debug_locks)
        awaken_front woken
        λ w'. ok tt (
            set_lock_set c
              (record (w'.lock_set c) { locks = mark_released a (w'.lock_set c).locks }) w'))
          w

  unfoldable pub release_qutex_early : ℕ → M World (Unit {0})
  release_qutex_early a w =
      if not (w.lock_set c).all_locks_acquired
      then throw all_locks_not_acquired w
      else elim (get_lock_usage_desc (w.lock_set c).locks a) [
        | none ↦ throw qutex_not_in_lock_set w
        | some d ↦ release_once a d w
      ]
