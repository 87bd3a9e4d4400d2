-- ===== src/LockerAndInvoker/Call/Outcomes.antt =====
-- What one run of a lockvoker comes to.
use libspinscale.Base.{
  ℕ, ◌<◌, ◌≡◌, refl, ◌∙◌, subst, ap, ◌⊎◌, Bool, true, false, ◌&&◌, Option, none, some, List, [],
  ◌∷◌, ◌++◌, ◌==◌, arith, length, Option-cases, inl, inr, update_self, ==_refl, ==_iff,
}
use libspinscale.Outcome.{ok}
use libspinscale.Qutex.{Qutex}
use libspinscale.Qutex.Positions.{Absent}
use libspinscale.World.{World, LockSet, LockUsageDesc, get_lock_usage_desc}
use libspinscale.Tracker.{Tracker, find_entry}
use libspinscale.Tracker.Entries.{remove-find}
use libspinscale.LockSet
use libspinscale.LockSet.{try_acquire_or_back_off}
use libspinscale.LockSet.Taking.{names, DistinctLocks}
use libspinscale.LockSet.Attempt.{IsReady}
use libspinscale.LockSet.AllOrNothing.{TookAll, TookNone, try_acquire_or_back_off-total}
use libspinscale.LockerAndInvoker.{
  Process, Verdict, invoked_target, asleep, call, allow_awakening, get_acquired_qutex_history,
  trace_for_deadlock_on, run_target, fall_asleep,
}
use libspinscale.LockerAndInvoker.History.{
  required_by, names-get_lock_usage_desc, trace_for_deadlock_on-required_by,
}
use libspinscale.LockerAndInvoker.Unregistering.{unqueue_all, unqueue_all-at}
use libspinscale.LockerAndInvoker.Call.Tracing.{IsConsistent, Traced, trace_for_gridlock-Traced}
use libspinscale.LockerAndInvoker.Call.Running.{
  world_after, unregister-world_after, world_after-Absent,
}

module _ (debug_locks elapsed : Bool) (self c : ℕ) (p : Process) where
  abbrev locks : List LockUsageDesc
  locks = (p.world.lock_set c).locks

  -- The right thread, a lock set that may be attempted, and a tracker at rest.
  pub record CanRun : Type 0 where
    pub thread : self ≡ p.world.target c
    pub ready : IsReady c p.world
    pub some_lock : 0 < length locks
    pub consistent : IsConsistent p.tracker

  -- All locks are owned, the continuation is in no queue of theirs, and its target was invoked.
  pub record Ran (v : Verdict) (p' : Process) : Type 0 where
    pub verdict : v ≡ invoked_target
    pub invoked : p'.invoked ≡ p.invoked ++ c ∷ []
    pub owned : (a : ℕ) → names locks a ≡ true → (p'.world.qutex a).is_owned ≡ true
    pub left : (a : ℕ) → names locks a ≡ true → Absent c (p'.world.qutex a).queue
    pub outside : (a : ℕ) → names locks a ≡ false → p'.world.qutex a ≡ p.world.qutex a
    pub acquired : (p'.world.lock_set c).all_locks_acquired ≡ true
    pub forgotten : (debug_locks && elapsed) ≡ true → find_entry c p'.tracker.history ≡ none
    pub consistent : IsConsistent p'.tracker

  -- What is reported of the lock that was refused: nothing before the time limit.
  abbrev pub Reports : Bool → ℕ → Verdict → Tracker → Type 0
  Reports false a v t = (v ≡ asleep false false) × (t ≡ p.tracker)
  Reports true a v t =
      (found : Bool) × (v ≡ asleep (required_by p.world.lock_set a (p.callers c)) found)
      × Traced c a (get_acquired_qutex_history p.world.lock_set (p.callers c)) p.tracker found t

  -- No lock was kept, nothing was invoked, and the continuation may be awakened again.
  pub record Sleeps (v : Verdict) (p' : Process) : Type 0 where
    pub attempted : World
    pub attempt : Bool × Option ℕ
    pub refused : TookNone debug_locks c p.world attempt attempted
    pub world : p'.world ≡ allow_awakening c attempted
    pub invoked : p'.invoked ≡ p.invoked
    pub reports : Reports (debug_locks && elapsed) refused.refusing v p'.tracker

  unqueue_all-is_owned :
      (ds : List LockUsageDesc) (f : ℕ → Qutex) (a : ℕ)
      → DistinctLocks ds
      → (unqueue_all ds f a).is_owned ≡ (f a).is_owned
  unqueue_all-is_owned ds f a d =
      ap (λ (q : Qutex). q.is_owned) (unqueue_all-at ds f a d)
      ∙ elim (Option-cases (get_lock_usage_desc ds a)) [
        | inl missing ↦ rw missing
        | inr (e, found) ↦ rw found
      ]

  unqueue_all-outside :
      (ds : List LockUsageDesc) (f : ℕ → Qutex) (a : ℕ)
      → DistinctLocks ds
      → names ds a ≡ false
      → unqueue_all ds f a ≡ f a
  unqueue_all-outside ds f a d n =
      unqueue_all-at ds f a d ∙ elim (Option-cases (get_lock_usage_desc ds a)) [
        | inl missing ↦ rw missing
        | inr (e, found) ↦ ground (arith, names-get_lock_usage_desc ds a, found, n)
      ]

  -- The tracker after a run is without the continuation, if it can have been on record.
  run_target-forgets :
      (likely : Bool) (w1 w2 : World)
      → LockSet.unregister_from_qutex_queues c w1 ≡ ok tt w2
      → IsConsistent p.tracker
      → (t : Tracker) × (run_target debug_locks c likely (record p { world = w1 })
          ≡ ok invoked_target (record p { world = w2; tracker = t; invoked = p.invoked ++ c ∷ [] }))
        × (likely ≡ true → find_entry c t.history ≡ none)
        × IsConsistent t
  unfolding run_target
  run_target-forgets false w1 w2 h k = (p.tracker, ground (arith, h), λ e. cc, k)
  run_target-forgets true w1 w2 h k =
      let (b, t, removed, _, found, distinct, unlocked) =
        remove-find p.tracker k.unlocked k.distinct c in
      (
        t,
        ground (arith, h, removed),
        λ _. found c ∙ (rw (==_refl c)),
        record { unlocked = unlocked; distinct = distinct },
      )

  run_all :
      (r : Bool × Option ℕ) (w1 : World)
      → CanRun
      → try_acquire_or_back_off debug_locks c p.world ≡ ok r w1
      → TookAll debug_locks c p.world r w1
      → (v : Verdict) × (p' : Process) × (call debug_locks (some self) elapsed c p ≡ ok v p')
        × Ran v p'
  unfolding call
  run_all r w1 h ran took =
      let w2 = world_after debug_locks c p.world w1 r in
      let (t, run, forgotten, k) =
        run_target-forgets (debug_locks && elapsed) w1 w2
          (unregister-world_after debug_locks c p.world w1 r h.ready took) h.consistent in
      let same : (self == p.world.target c) ≡ true = (==_iff _ _).1 h.thread in
      (
        invoked_target,
        record p { world = w2; tracker = t; invoked = p.invoked ++ c ∷ [] },
        ground (arith, same, ran, took.result, run),
        record {
          verdict = refl;
          invoked = refl;
          owned = λ a n.
              unqueue_all-is_owned locks w1.qutex a h.ready.distinct
              ∙ ap (λ (q : Qutex). q.is_owned) (took.owned a)
              ∙ (rw n);
          left = λ a n. world_after-Absent debug_locks c p.world w1 r h.ready took a n;
          outside = λ a n.
              unqueue_all-outside locks w1.qutex a h.ready.distinct n ∙ took.owned a ∙ (rw n);
          acquired = rw (
            took.acquired,
            update_self p.world.lock_set c
                (record (p.world.lock_set c) { all_locks_acquired = true }),
          );
          forgotten = forgotten;
          consistent = k;
        },
      )

  fall_asleep-Reports :
      (likely : Bool) (a : ℕ) (w1 : World)
      → w1.lock_set ≡ p.world.lock_set
      → IsConsistent p.tracker
      → (v : Verdict) × (t : Tracker) × (fall_asleep debug_locks c likely
            (some a)
            (record p { world = w1 })
          ≡ ok v (record p { world = allow_awakening c w1; tracker = t }))
        × Reports likely a v t
  unfolding fall_asleep allow_awakening
  fall_asleep-Reports false a w1 same k =
      (asleep false false, p.tracker, ground arith, (refl, refl))
  fall_asleep-Reports true a w1 same k =
      let (found, t, traced, answer) =
        trace_for_gridlock-Traced debug_locks c a (record p { world = allow_awakening c w1 }) k in
      let deadlock : trace_for_deadlock_on w1.lock_set a (p.callers c)
          ≡ required_by p.world.lock_set a (p.callers c) =
        rw same (trace_for_deadlock_on-required_by p.world.lock_set a (p.callers c)) in
      (
        asleep (required_by p.world.lock_set a (p.callers c)) found,
        t,
        ground (arith, traced, deadlock),
        (
          found,
          refl,
          subst
              (λ (sets : ℕ → LockSet).
                Traced c a (get_acquired_qutex_history sets (p.callers c)) p.tracker found t)
              same answer,
        ),
      )

  sleep_on :
      (r : Bool × Option ℕ) (w1 : World)
      → CanRun
      → try_acquire_or_back_off debug_locks c p.world ≡ ok r w1
      → TookNone debug_locks c p.world r w1
      → (v : Verdict) × (p' : Process) × (call debug_locks (some self) elapsed c p ≡ ok v p')
        × Sleeps v p'
  unfolding call
  sleep_on r w1 h ran none_taken =
      let (v, t, slept, reports) =
        fall_asleep-Reports (debug_locks && elapsed) none_taken.refusing w1 none_taken.lock_sets
          h.consistent in
      let same : (self == p.world.target c) ≡ true = (==_iff _ _).1 h.thread in
      (
        v,
        record p { world = allow_awakening c w1; tracker = t },
        ground (arith, same, ran, none_taken.result, slept),
        record {
          attempted = w1;
          attempt = r;
          refused = none_taken;
          world = refl;
          invoked = refl;
          reports = reports;
        },
      )

  -- Let the lockvoker run on its target thread, with a lock set that is registered, not acquired,
  -- lists at least one qutex and none twice, and waits in each queue once under its stored
  -- iterator, and with a tracker at rest. Then the call returns. Either all locks are owned, the
  -- continuation is in none of their queues, its target was invoked once, and in a debug build
  -- that has passed the time limit the tracker has forgotten it; or a lock was refused, none is
  -- kept, nothing is invoked, the awake flag is off, and in such a build the continuation is on
  -- record, and a deadlock is reported exactly if a caller requires the refused lock, a gridlock
  -- exactly if another continuation on record holds it.
  pub call-total :
      CanRun
      → (v : Verdict) × (p' : Process) × (call debug_locks (some self) elapsed c p ≡ ok v p')
        × (Ran v p' ⊎ Sleeps v p')
  call-total h =
      let (r, w1, ran, outcome) =
        try_acquire_or_back_off-total debug_locks c p.world h.ready h.some_lock in
      elim outcome [
        | inl took ↦
            let (v, p', called, done) = run_all r w1 h ran took in (v, p', called, inl done)
        | inr none_taken ↦
            let (v, p', called, done) = sleep_on r w1 h ran none_taken in (v, p', called, inr done)
      ]
