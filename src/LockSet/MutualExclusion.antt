-- ===== src/LockSet/MutualExclusion.antt =====
-- In every sequence of operations of any continuations no two of them hold one qutex.
use libspinscale.Base.{
  ℕ, ◌≡◌, refl, subst, inl, inr, ◌<◌, Bool, true, false, Option, some, List, [], ◌∷◌, length, arith,
  ==_refl,
}
use libspinscale.Outcome.{Outcome, ok}
use libspinscale.Qutex.{Qutex}
use libspinscale.World.{World, LockUsageDesc, get_lock_usage_desc, awaken}
use libspinscale.LockSet.{
  register_in_qutex_queues, unregister_from_qutex_queues, try_acquire_or_back_off, release,
  release_qutex_early,
}
use libspinscale.LockSet.Taking.{DistinctLocks, names}
use libspinscale.LockSet.Attempt.{IsReady}
use libspinscale.LockSet.AllOrNothing.{try_acquire_or_back_off-total}
use libspinscale.LockSet.Releasing.{pending, AllHeld, Released, release-lock_set}
use libspinscale.LockSet.EarlyRelease.{
  get_lock_usage_desc-pending, release_qutex_early-ReleasedEarly,
}
use libspinscale.LockSet.Exclusion.{
  IsReleasable, holds, Exclusive, taken-Exclusive, none-Exclusive, release-Exclusive,
  early_release-Exclusive,
}
use libspinscale.LockSet.Queueing.{register-Exclusive, unregister-Exclusive, awaken-Exclusive}

module _ (debug_locks : Bool) where
  -- One operation of one continuation, called in the state that it asks for.
  pub data Step (w : World) : World → Type 0 where
    registered : {w' : World} (c : ℕ) → register_in_qutex_queues c w ≡ ok tt w' → Step w w'
    unregistered : {w' : World} (c : ℕ) → unregister_from_qutex_queues c w ≡ ok tt w' → Step w w'
    awakened : (c : ℕ) (force_awaken : Bool) → Step w (awaken c force_awaken w)
    attempted :
        {w' : World} (c : ℕ) (r : Bool × Option ℕ)
        → IsReady c w
        → 0 < length (w.lock_set c).locks
        → try_acquire_or_back_off debug_locks c w ≡ ok r w'
        → Step w w'
    released :
        {w' : World} (c : ℕ)
        → (w.lock_set c).registered_in_qutex_queues ≡ true
        → (w.lock_set c).all_locks_acquired ≡ true
        → DistinctLocks (w.lock_set c).locks
        → release debug_locks c w ≡ ok tt w'
        → Step w w'
    released_early :
        {w' : World} (c a : ℕ) (d : LockUsageDesc)
        → (w.lock_set c).all_locks_acquired ≡ true
        → DistinctLocks (w.lock_set c).locks
        → get_lock_usage_desc (w.lock_set c).locks a ≡ some d
        → d.has_been_released ≡ false
        → release_qutex_early debug_locks c a w ≡ ok tt w'
        → Step w w'

  pub data Steps (w : World) : World → Type 0 where
    here : Steps w w
    after : {w' w'' : World} → Steps w w' → Step w' w'' → Steps w w''

  -- A call has one outcome.
  ok-same :
      {A : Type 0} {x y : A} {v w : World} {r : Outcome World A} → r ≡ ok x v → r ≡ ok y w → v ≡ w
  ok-same e k = cc

  names-AllHeld :
      (ds : List LockUsageDesc) (f : ℕ → Qutex)
      → ((a : ℕ) → names ds a ≡ true → IsReleasable debug_locks (f a))
      → AllHeld debug_locks ds f
  names-AllHeld [] f h = tt
  names-AllHeld (d ∷ ds) f h =
      let q = h d.qutex (rw (==_refl d.qutex) refl) in
      ((q.unlocked, q.held), names-AllHeld ds f (λ a n. h a (ground (arith, n))))

  Exclusive-AllHeld :
      (c : ℕ) (w : World)
      → (w.lock_set c).all_locks_acquired ≡ true
      → Exclusive debug_locks w
      → AllHeld debug_locks (pending (w.lock_set c).locks) w.qutex
  Exclusive-AllHeld c w acquired h =
      names-AllHeld (pending (w.lock_set c).locks) w.qutex (λ a n. h.owned c a (rw (acquired, n)))

  step-Exclusive : {w w' : World} → Step w w' → Exclusive debug_locks w → Exclusive debug_locks w'
  step-Exclusive {w} {w'} (registered c e) h = register-Exclusive debug_locks c w w' e h
  step-Exclusive {w} {w'} (unregistered c e) h = unregister-Exclusive debug_locks c w w' e h
  step-Exclusive {w} (awakened c b) h = awaken-Exclusive debug_locks c b w h
  step-Exclusive {w} {w'} (attempted c r ready some_lock e) h =
      let (r', v, ran, outcome) = try_acquire_or_back_off-total debug_locks c w ready some_lock in
      subst (Exclusive debug_locks) (ok-same ran e) (elim outcome [
        | inl t ↦ taken-Exclusive debug_locks c w v r' ready t h
        | inr t ↦ none-Exclusive debug_locks c w v r' t h
      ])
  step-Exclusive {w} {w'} (released c registered_ acquired distinct e) h =
      let (v, ran, r, sets) =
        release-lock_set debug_locks c w registered_ acquired distinct
          (Exclusive-AllHeld c w acquired h) in
      subst (Exclusive debug_locks) (ok-same ran e)
        (release-Exclusive debug_locks c w v acquired r sets h)
  step-Exclusive {w} {w'} (released_early c a d acquired distinct found early e) h =
      let held : holds w c a ≡ true =
        rw (acquired, get_lock_usage_desc-pending (w.lock_set c).locks a d found early) in
      let q = h.owned c a held in
      let (v, ran, r) =
        release_qutex_early-ReleasedEarly debug_locks c a w d acquired found early q.unlocked
          q.held in
      subst (Exclusive debug_locks) (ok-same ran e)
        (early_release-Exclusive debug_locks c a w v d acquired distinct found early r h)

  -- Let no two continuations hold one qutex, by an acquired lock set that names it unreleased, and
  -- let every qutex that is held be owned, with a free spin lock and, in a debug build, a recorded
  -- owner. Then it is so after any sequence of registrations, unregistrations and awakenings, of
  -- attempts and releases, and of early releases, by any continuations, the attempts and releases
  -- each in a state that it asks for.
  pub Steps-Exclusive :
      {w w' : World} → Steps w w' → Exclusive debug_locks w → Exclusive debug_locks w'
  Steps-Exclusive here h = h
  Steps-Exclusive (after steps step) h = step-Exclusive step (Steps-Exclusive steps h)

  -- From a state in which no two continuations hold one qutex and every held qutex is owned, with
  -- a free spin lock and, in a debug build, a recorded owner, let any sequence of registrations,
  -- unregistrations, awakenings, attempts, releases and early releases, of any continuations, lead
  -- to one in which a lock set is registered and acquired and names no qutex twice. Then its
  -- release returns: it throws nothing and finds no spin lock locked. The qutexes that it had not
  -- released early are unowned with their queues as before, the others are as they were, and the
  -- front of each of these queues is awake. Posted are exactly the fronts that were asleep, once
  -- each, to their threads, in the order of the locks.
  pub Exclusive-release :
      {w : World} (w0 : World)
      → Steps w0 w
      → Exclusive debug_locks w0
      → (c : ℕ) → (w.lock_set c).registered_in_qutex_queues ≡ true
      → (w.lock_set c).all_locks_acquired ≡ true
      → DistinctLocks (w.lock_set c).locks
      → (w' : World) × (release debug_locks c w ≡ ok tt w')
        × Released debug_locks (pending (w.lock_set c).locks) w w'
  Exclusive-release {w} w0 steps h c registered_ acquired distinct =
      let (w', ran, r, sets) =
        release-lock_set debug_locks c w registered_ acquired distinct
          (Exclusive-AllHeld c w acquired (Steps-Exclusive steps h)) in
      (w', ran, r)
