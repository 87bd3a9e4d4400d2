-- ===== src/LockerAndInvoker/LostWakeUp.antt =====
-- The moment between a refusal and `allowAwakening` in `operator()`: another thread may release the
-- lock there.
use libspinscale.Base.{
  ℕ, ◌≡◌, refl, ◌∙◌, ap, Bool, true, false, some, List, [], ◌∷◌, ◌++◌, update, arith, update_self,
}
use libspinscale.Outcome.{ok}
use libspinscale.Qutex.{Entry, Qutex, IsUnlocked}
use libspinscale.Qutex.Backoff.{given_back}
use libspinscale.Qutex.Release.{IsHeld, release-front}
use libspinscale.World.{World, LockUsageDesc, awaken, awaken_waiter, awaken_waiter-qutex}
use libspinscale.LockSet.{release_locks, awaken_front}
use libspinscale.LockerAndInvoker.{allow_awakening}

-- The world after a release of the qutex at `a`, with the lockvoker of `c` at its front.
abbrev pub freed_at : Bool → ℕ → World → World
freed_at debug_locks a w = record w {
  qutex = update w.qutex a (given_back debug_locks (w.qutex a).queue (w.qutex a));
}

-- The qutex at `a` is free, `c` waits at its front, and nothing will wake it.
pub record Stalls (a c : ℕ) (w w' : World) : Type 0 where
  pub unowned : (w'.qutex a).is_owned ≡ false
  pub queue : (w'.qutex a).queue ≡ (w.qutex a).queue
  pub asleep : w'.is_awake c ≡ false
  pub posted : w'.posted ≡ w.posted

pub awaken-flagged :
    (c : ℕ) (w : World) → w.is_awake c ≡ true → (awaken c false w).posted ≡ w.posted
unfolding awaken
awaken-flagged c w h = rw h refl

awaken-asleep :
    (c : ℕ) (w : World)
    → w.is_awake c ≡ false
    → (awaken c false w).posted ≡ w.posted ++ (w.target c, c) ∷ []
unfolding awaken
awaken-asleep c w h = rw h refl

pub awaken-qutex : (c : ℕ) (w : World) → (awaken c false w).qutex ≡ w.qutex
unfolding awaken awaken_waiter
awaken-qutex c w = awaken_waiter-qutex (some c) w

module _ (debug_locks : Bool) (owner : ℕ) (d : LockUsageDesc) (e : Entry) (es : List Entry) where
  release_locks-awakens :
      (w : World)
      → d.has_been_released ≡ false
      → (w.qutex d.qutex).queue ≡ e ∷ es
      → IsUnlocked (w.qutex d.qutex)
      → IsHeld debug_locks (w.qutex d.qutex)
      → release_locks debug_locks owner (d ∷ []) w
        ≡ ok tt (awaken e.lockvoker false (freed_at debug_locks d.qutex w))
  unfolding release_locks awaken_front awaken_waiter
  release_locks-awakens w early front unlocked held =
      ground (arith, early, release-front debug_locks (w.qutex d.qutex) unlocked held, front)

  -- Let a lock that was not released early be held, with a free spin lock, and a lockvoker that is
  -- flagged awake be at the front of its queue, as it is between a refused attempt and
  -- `allowAwakening`. A release of the lock at that moment returns, and after the `allowAwakening`
  -- that follows the qutex is free, the lockvoker is in front and not flagged, and nothing was
  -- posted; a release after `allowAwakening` posts it.
  pub release_locks-Stalls :
      (w : World)
      → d.has_been_released ≡ false
      → (w.qutex d.qutex).queue ≡ e ∷ es
      → IsUnlocked (w.qutex d.qutex)
      → IsHeld debug_locks (w.qutex d.qutex)
      → w.is_awake e.lockvoker ≡ true
      → (w1 : World) × (w2 : World) × (release_locks debug_locks owner (d ∷ []) w ≡ ok tt w1)
        × Stalls d.qutex e.lockvoker w (allow_awakening e.lockvoker w1)
        × (release_locks debug_locks owner (d ∷ []) (allow_awakening e.lockvoker w) ≡ ok tt w2)
        × (w2.posted ≡ w.posted ++ (w.target e.lockvoker, e.lockvoker) ∷ [])
  unfolding allow_awakening
  release_locks-Stalls w early front unlocked held awake =
      let c = e.lockvoker in
      let a = d.qutex in
      let w1 = awaken c false (freed_at debug_locks a w) in
      let slept = allow_awakening c w in
      let at_a : w1.qutex a ≡ given_back debug_locks (w.qutex a).queue (w.qutex a) =
        ap (λ (f : ℕ → Qutex). f a) (awaken-qutex c (freed_at debug_locks a w))
        ∙ update_self w.qutex a (given_back debug_locks (w.qutex a).queue (w.qutex a)) in
      (
        w1,
        awaken c false (freed_at debug_locks a slept),
        release_locks-awakens w early front unlocked held,
        record {
          unowned = ap (λ (q : Qutex). q.is_owned) at_a;
          queue = ap (λ (q : Qutex). q.queue) at_a;
          asleep = update_self w1.is_awake c false;
          posted = awaken-flagged c (freed_at debug_locks a w) awake;
        },
        release_locks-awakens slept early front unlocked held,
        awaken-asleep c (freed_at debug_locks a slept) (update_self w.is_awake c false),
      )
