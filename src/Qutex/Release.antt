-- ===== src/Qutex/Release.antt =====
-- `Qutex::release`, and the spin lock on the error paths.
use libspinscale.Base.{ℕ, ◌≡◌, refl, Bool, true, false, Option, none, some, List, [], ◌∷◌, arith}
use libspinscale.Outcome.{
  ok, stop, throws, hangs, release_on_unowned_qutex, try_acquire_on_empty_queue,
  backoff_on_empty_queue,
}
use libspinscale.Qutex.{
  Entry, Lockvoker, Qutex, IsUnlocked, try_acquire, backoff, release, register_in_queue,
  unregister_from_queue,
}
use libspinscale.Qutex.Backoff.{given_back}

abbrev pub front? : List Entry → Option ℕ
front? [] = none
front? (e ∷ es) = some e.lockvoker

-- What `release` asks for: an owned qutex, with a recorded owner in a debug build.
abbrev pub Recorded : Bool → Option ℕ → Type 0
Recorded false owner = Unit
Recorded true none = ⊥
Recorded true (some _) = Unit

pub record IsHeld (debug_locks : Bool) (q : Qutex) : Type 0 where
  pub owned : q.is_owned ≡ true
  pub recorded : Recorded debug_locks q.curr_owner

module _ (debug_locks : Bool) (q : Qutex) where
  -- Releasing an owned qutex with a free spin lock (in a debug build, one with a recorded owner)
  -- makes it unowned, keeps the queue, frees the spin lock, and awakens the front of the queue if
  -- there is one, whoever that is.
  pub release-front :
      IsUnlocked q
      → IsHeld debug_locks q
      → release debug_locks q ≡ ok (front? q.queue) (given_back debug_locks q.queue q)
  unfolding release
  release-front u h = ground arith

  -- A release of an unowned qutex throws, and leaves the spin lock locked.
  release-unowned :
      IsUnlocked q
      → q.is_owned ≡ false
      → release debug_locks q
        ≡ stop (throws release_on_unowned_qutex) (record q { lock = record { locked = true } })
  unfolding release
  release-unowned u h = ground arith

-- Every operation that takes the spin lock.
pub record Hangs (debug_locks : Bool) (q : Qutex) : Type 0 where
  pub on_try_acquire : (lv : Lockvoker) (n : ℕ) → try_acquire debug_locks lv n q ≡ stop hangs q
  pub on_backoff : (lv : Lockvoker) (n : ℕ) → backoff debug_locks lv n q ≡ stop hangs q
  pub on_release : release debug_locks q ≡ stop hangs q
  pub on_register : (lv : ℕ) → register_in_queue lv q ≡ stop hangs q
  pub on_unregister : (it : ℕ) → unregister_from_queue it true q ≡ stop hangs q

locked-Hangs : (debug_locks : Bool) (q : Qutex) → q.lock.locked ≡ true → Hangs debug_locks q
unfolding try_acquire backoff release register_in_queue unregister_from_queue
locked-Hangs debug_locks q h = record {
  on_try_acquire = λ lv n. ground arith;
  on_backoff = λ lv n. ground arith;
  on_release = ground arith;
  on_register = λ lv. ground arith;
  on_unregister = λ it. ground arith;
}

-- The release of an unowned qutex with a free spin lock throws, and in the state that it leaves
-- every operation that takes the spin lock spins for ever.
pub release_unowned-Hangs :
    (debug_locks : Bool) (q : Qutex)
    → IsUnlocked q
    → q.is_owned ≡ false
    → (q' : Qutex) × (release debug_locks q ≡ stop (throws release_on_unowned_qutex) q')
      × Hangs debug_locks q'
release_unowned-Hangs debug_locks q u h =
    let q' = record q { lock = record { locked = true } } in
    (q', release-unowned debug_locks q u h, locked-Hangs debug_locks q' refl)

-- On an empty queue with a free spin lock, `tryAcquire` and `backoff` throw and leave the qutex as
-- it was.
pub empty_queue_throws :
    (debug_locks : Bool) (lv : Lockvoker) (n : ℕ) (q : Qutex)
    → IsUnlocked q
    → q.queue ≡ []
    → (try_acquire debug_locks lv n q ≡ stop (throws try_acquire_on_empty_queue) q)
      × (backoff debug_locks lv n q ≡ stop (throws backoff_on_empty_queue) q)
unfolding try_acquire backoff
empty_queue_throws debug_locks lv n q u e = (ground arith, ground arith)
