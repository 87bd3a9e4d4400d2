-- ===== src/LockSet/Stepwise/Served.antt =====
-- The next call of a LockSet method returns.
use libspinscale.Base.{
  ℕ, zero, suc, ◌≡◌, refl, inl, inr, Bool, true, false, Option, List, [], ◌∷◌, update, arith,
  Bool-cases,
}
use libspinscale.Qutex.Release.{front?, release-front}
use libspinscale.World.{
  World, LockUsageDesc, awaken_waiter, awaken_waiter-qutex, awaken_waiter-lock_set,
}
use libspinscale.LockSet.{awaken_front, mark_released}
use libspinscale.LockSet.Releasing.{freed}
use libspinscale.LockSet.Exclusion.{IsReleasable}
use libspinscale.LockSet.Stepwise.{
  Phase, finished, registering, unregistering, acquiring, acquired, backing_off, releasing,
  releasing_early, marking, awakening, is_dangling, dangles, next_call,
}
use libspinscale.LockSet.Stepwise.Holders.{has_in, Coherent}
use libspinscale.LockSet.Stepwise.Queues.{Healthy, kept}
use libspinscale.LockSet.Stepwise.Enlisted.{Enlisted, AllNamed-update, AllNamed-mark_released}
use libspinscale.LockSet.Stepwise.Answered.{none_moved, one_moved, Returns, set-Named}
use libspinscale.LockSet.Stepwise.Attempting.{
  acquiring-Returns, acquired-Returns, backing_off-Returns,
}
use libspinscale.LockSet.Stepwise.Enrolling.{registering-Returns, unregistering-Returns}

module _ (debug_locks : Bool) (c : ℕ) (w : World) (healthy : (a : ℕ) → Healthy (w.qutex a)) where
  releasing-Returns :
      (d : LockUsageDesc) (ds : List LockUsageDesc)
      → (d.has_been_released ≡ false → IsReleasable debug_locks (w.qutex d.qutex))
      → Returns debug_locks c w (releasing (d ∷ ds))
  unfolding next_call
  releasing-Returns d ds h = elim (Bool-cases d.has_been_released) [
    | inl early ↦ (
      releasing ds,
      w,
      ground (arith, early),
      record { queues = none_moved refl; enlisted = tt; enrolled = λ e. e },
    )
    | inr held ↦
        let q = w.qutex d.qutex in
        let k = h held in
        let q' = freed debug_locks q in
        (
          awakening (front? q.queue) (releasing ds),
          record w { qutex = update w.qutex d.qutex q' },
          ground (arith, held, release-front debug_locks q k.unlocked k.held),
          record {
            queues = one_moved d.qutex q' (kept k.unlocked refl refl) refl;
            enlisted = tt;
            enrolled = AllNamed-update c w.qutex d.qutex q' (w.lock_set c).locks (λ it x e _. e);
          },
        )
  ]

  early-Returns :
      (b : ℕ) → IsReleasable debug_locks (w.qutex b) → Returns debug_locks c w (releasing_early b)
  unfolding next_call
  early-Returns b k =
      let q = w.qutex b in
      let q' = freed debug_locks q in
      (
        awakening (front? q.queue) (marking b),
        record w { qutex = update w.qutex b q' },
        ground (arith, release-front debug_locks q k.unlocked k.held),
        record {
          queues = one_moved b q' (kept k.unlocked refl refl) refl;
          enlisted = tt;
          enrolled = AllNamed-update c w.qutex b q' (w.lock_set c).locks (λ it x e _. e);
        },
      )

  awakening-Returns :
      (o : Option ℕ) (p : Phase)
      → is_dangling o w ≡ false
      → Enlisted c (w.lock_set c) p w.qutex
      → Returns debug_locks c w (awakening o p)
  unfolding next_call awaken_front
  awakening-Returns o p live e = (
    p,
    awaken_waiter o w,
    ground (arith, live),
    record {
      queues = none_moved (awaken_waiter-qutex o w);
      enlisted = rw (awaken_waiter-qutex o w, awaken_waiter-lock_set o w) e;
      enrolled = λ k. rw (awaken_waiter-qutex o w, awaken_waiter-lock_set o w) k;
    },
  )

  pub next_call-Returns :
      (p : Phase)
      → dangles p w ≡ false
      → Enlisted c (w.lock_set c) p w.qutex
      → ((a : ℕ) → has_in (w.lock_set c) p a ≡ true → IsReleasable debug_locks (w.qutex a))
      → Coherent (w.lock_set c) p
      → Returns debug_locks c w p
  unfolding next_call
  next_call-Returns (finished r) live e held k =
      (finished r, w, refl, record { queues = none_moved refl; enlisted = tt; enrolled = λ k. k })
  next_call-Returns (registering xs []) live e held k = (
    _,
    _,
    refl,
    record {
      queues = none_moved refl;
      enlisted = tt;
      enrolled =
          set-Named c w (record (w.lock_set c) { locks = xs; registered_in_qutex_queues = true });
    },
  )
  next_call-Returns (registering xs (d ∷ ds)) live e held k =
      registering-Returns debug_locks c w healthy xs ds d e
  next_call-Returns (unregistering []) live e held k =
      (_, _, refl, record { queues = none_moved refl; enlisted = tt; enrolled = λ k. absurd k })
  next_call-Returns (unregistering (d ∷ ds)) live e held k =
      unregistering-Returns debug_locks c w healthy ds d e
  next_call-Returns (acquiring n [] i) live e held k = (
    _,
    _,
    refl,
    record {
      queues = none_moved refl;
      enlisted = (omega (arith, e.1), e.4, e.5);
      enrolled = λ k. k;
    },
  )
  next_call-Returns (acquiring n (d ∷ ds) i) live e held k =
      acquiring-Returns debug_locks c w healthy n d ds i e
  next_call-Returns (acquired n i o) live e held k =
      acquired-Returns debug_locks c w healthy n i o e
  next_call-Returns (backing_off n zero ds o) live e held k =
      (_, _, refl, record { queues = none_moved refl; enlisted = tt; enrolled = λ k. k })
  next_call-Returns (backing_off n (suc i) [] o) live e held k = absurd (omega (arith, e.1))
  next_call-Returns (backing_off n (suc i) (d ∷ ds) o) live e held k =
      backing_off-Returns debug_locks c w healthy n i d ds o e
  next_call-Returns (releasing []) live e held k = (
    _,
    _,
    refl,
    record {
      queues = none_moved refl;
      enlisted = tt;
      enrolled = set-Named c w (record (w.lock_set c) { all_locks_acquired = false });
    },
  )
  next_call-Returns (releasing (d ∷ ds)) live e held k =
      releasing-Returns d ds (λ r. held d.qutex (ground (arith, r)))
  next_call-Returns (releasing_early b) live e held k = early-Returns b (held b k.0)
  next_call-Returns (marking b) live e held k = (
    _,
    _,
    refl,
    record {
      queues = none_moved refl;
      enlisted = tt;
      enrolled = λ k.
          set-Named c w
            (record (w.lock_set c) { locks = mark_released debug_locks c b (w.lock_set c).locks })
            (AllNamed-mark_released debug_locks c b (w.lock_set c).locks w.qutex k);
    },
  )
  next_call-Returns (awakening o p) live e held k = awakening-Returns o p live e
