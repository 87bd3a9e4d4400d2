-- ===== src/LockSet/EarlyRelease.antt =====
-- `LockSet::releaseQutexEarly`: one lock of an acquired set is given back before the others.
use libspinscale.Base.{
  ℕ, ◌≡◌, ◌≢◌, sym, ◌∙◌, ap, Bool, true, false, some, List, [], ◌∷◌, update, ◌==◌, arith,
  Bool-cases, inl, inr, ==_iff, ==_false,
}
use mathlib.Core.Bool.{false≢true}
use libspinscale.Outcome.{ok}
use libspinscale.Qutex.{IsUnlocked}
use libspinscale.Qutex.Release.{front?, IsHeld, release-front}
use libspinscale.World.{
  World, LockSet, LockUsageDesc, get_lock_usage_desc, awaken_waiter, awaken_waiter-qutex,
  awaken_waiter-lock_set,
}
use libspinscale.LockSet.{
  release_qutex_early, release_once, mark_released, awaken_front, set_lock_set,
}
use libspinscale.LockSet.Taking.{DistinctLocks, names}
use libspinscale.LockSet.BackingOff.{names-Unnamed}
use libspinscale.LockSet.Releasing.{pending, pending-Unnamed, freed}

pub names-pending :
    (ds : List LockUsageDesc) (a : ℕ) → names (pending ds) a ≡ true → names ds a ≡ true
names-pending [] a h = h
names-pending (d ∷ ds) a h = ground (arith, names-pending ds a)

-- A lock that is found and was not released is still to be released.
pub get_lock_usage_desc-pending :
    (ds : List LockUsageDesc) (a : ℕ) (d : LockUsageDesc)
    → get_lock_usage_desc ds a ≡ some d
    → d.has_been_released ≡ false
    → names (pending ds) a ≡ true
unfolding get_lock_usage_desc
get_lock_usage_desc-pending [] a d e r = absurd (cc)
get_lock_usage_desc-pending (x ∷ ds) a d e r = elim (Bool-cases (x.qutex == a)) [
  | inl here ↦ ground (arith, here, e, r)
  | inr other ↦
      let later : get_lock_usage_desc ds a ≡ some d = rw other at e in
      ground (arith, other, get_lock_usage_desc-pending ds a d later r)
]

-- What is still to be released after the mark: the same locks without that one.
pub mark_released-pending :
    (debug_locks : Bool) (c : ℕ) (ds : List LockUsageDesc) (a b : ℕ)
    → DistinctLocks ds
    → names (pending (mark_released debug_locks c a ds)) b ≡ true
    → (a ≢ b) × (names (pending ds) b ≡ true)
unfolding mark_released
mark_released-pending debug_locks c [] a b u h = absurd (cc)
mark_released-pending debug_locks c (x ∷ ds) a b u h =
    let rest = mark_released-pending debug_locks c ds a b u.1 in
    elim (Bool-cases (x.qutex == a)) [
      | inl here ↦
          let at : x.qutex ≡ a = (==_iff _ _).0 here in
          let later : names (pending ds) b ≡ true = ground (arith, here, h) in
          (
            λ e. false≢true (
                sym (names-Unnamed x.qutex (pending ds) (pending-Unnamed x.qutex ds u.0))
                ∙ ap (names (pending ds)) (at ∙ e)
                ∙ later),
            ground (arith, later),
          )
      | inr other ↦ elim (Bool-cases x.has_been_released) [
        | inl released ↦
            let (n, k) = rest (ground (arith, other, released, h)) in
            (n, ground (arith, released, k))
        | inr held ↦ elim (Bool-cases (x.qutex == b)) [
          | inl now ↦ (λ e. ==_false other ((==_iff _ _).0 now ∙ sym e), ground (arith, held, now))
          | inr later ↦
              let (n, k) = rest (ground (arith, other, held, later, h)) in
              (n, ground (arith, held, later, k))
        ]
      ]
    ]

module _ (debug_locks : Bool) (c a : ℕ) (w : World) (d : LockUsageDesc) where
  -- The named qutex is freed and the lock marked.
  pub record ReleasedEarly (w' : World) : Type 0 where
    pub qutex : w'.qutex ≡ update w.qutex a (freed debug_locks (w.qutex a))
    pub lock_set :
        w'.lock_set
        ≡ update w.lock_set c
            (record (w.lock_set c) { locks = mark_released debug_locks c a (w.lock_set c).locks })

  -- Let a lock set be acquired and list a lock that was not released early, whose qutex is owned,
  -- with a free spin lock and, in a debug build, a recorded owner. Then the early release of that
  -- qutex returns; it is freed with its queue as before, its lock is marked, and no other qutex or
  -- lock set is changed.
  pub release_qutex_early-ReleasedEarly :
      (w.lock_set c).all_locks_acquired ≡ true
      → get_lock_usage_desc (w.lock_set c).locks a ≡ some d
      → d.has_been_released ≡ false
      → IsUnlocked (w.qutex a)
      → IsHeld debug_locks (w.qutex a)
      → (w' : World) × (release_qutex_early debug_locks c a w ≡ ok tt w') × ReleasedEarly w'
  unfolding release_qutex_early release_once awaken_front
  release_qutex_early-ReleasedEarly acquired found early u h =
      let o = front? (w.qutex a).queue in
      let w0 : World = record w { qutex = update w.qutex a (freed debug_locks (w.qutex a)) } in
      let w1 = awaken_waiter o w0 in
      let s = record (w1.lock_set c) {
        locks = mark_released debug_locks c a (w1.lock_set c).locks;
      } in
      (
        set_lock_set c s w1,
        ground (arith, acquired, found, early, release-front debug_locks (w.qutex a) u h),
        record {
          qutex = awaken_waiter-qutex o w0;
          lock_set =
              ap
                (λ (f : ℕ → LockSet).
                  update f c (record (f c) { locks = mark_released debug_locks c a (f c).locks }))
                (awaken_waiter-lock_set o w0);
        },
      )
