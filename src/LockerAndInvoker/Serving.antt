-- ===== src/LockerAndInvoker/Serving.antt =====
-- A continuation whose only lock is a qutex that it is in front of: it takes the lock, leaves the
-- queue, and gives the lock back.
use libspinscale.Base.{
  ℕ, ◌≡◌, refl, sym, subst, Bool, true, false, none, List, [], ◌∷◌, update, arith, update_self,
}
use libspinscale.Outcome.{ok}
use libspinscale.Qutex.{Entry, Qutex, IsUnlocked, find_node, erase_node}
use libspinscale.Qutex.Positions.{Distinct, position}
use libspinscale.Qutex.Registration.{unregister_lem}
use libspinscale.Qutex.Backoff.{given_back}
use libspinscale.Qutex.Release.{front?, IsHeld, release-front}
use libspinscale.Qutex.TryAcquire.{owned_by, HasIterator, front_acquires}
use libspinscale.World.{World, LockSet, get_lock_usage_desc, lockvoker_for, awaken_waiter}
use libspinscale.LockSet
use libspinscale.LockSet.{
  acquire_locks, finish_acquisition, try_acquire_or_back_off, set_lock_set, unregister_locks,
  unregister_from_qutex_queues, release_locks, awaken_front,
}

-- The lock set of a continuation that waits for the qutex at `a` with this entry.
abbrev pub single : ℕ → Entry → LockSet
single a e = record {
  locks = record { qutex = a; iterator = e.node; has_been_released = false } ∷ [];
  all_locks_acquired = false;
  registered_in_qutex_queues = true;
}

owned_by-IsHeld :
    (debug_locks : Bool) (c : ℕ) (es : List Entry) (q : Qutex)
    → IsHeld debug_locks (record (owned_by debug_locks c q) { queue = es })
owned_by-IsHeld true c es q = record { owned = refl; recorded = tt }
owned_by-IsHeld false c es q = record { owned = refl; recorded = tt }

module _ (debug_locks : Bool) (a : ℕ) (e : Entry) (es : List Entry) where
  iterator-front :
      (s : LockSet) (q : Qutex)
      → s ≡ single a e
      → q.queue ≡ e ∷ es
      → HasIterator (lockvoker_for s e.lockvoker a) q.queue
  unfolding lockvoker_for get_lock_usage_desc find_node
  iterator-front s q k h = record {
    it = e.node;
    entry = e;
    stored = ground (arith, k);
    found = ground (arith, h);
    own = refl;
  }

  abbrev pub owned_world : World → World
  owned_world w =
      set_lock_set e.lockvoker (record (single a e) { all_locks_acquired = true })
        (record w { qutex = update w.qutex a (owned_by debug_locks e.lockvoker (w.qutex a)) })

  module _ (w : World) (k : w.lock_set e.lockvoker ≡ single a e) (h : (w.qutex a).queue ≡ e ∷ es)
      (d : Distinct (e ∷ es)) (u : IsUnlocked (w.qutex a)) (o : (w.qutex a).is_owned ≡ false) where
    pub attempt-front :
        try_acquire_or_back_off debug_locks e.lockvoker w ≡ ok (true, none) (owned_world w)
    unfolding try_acquire_or_back_off acquire_locks finish_acquisition lockvoker_for
    attempt-front =
        let front : position e.lockvoker (w.qutex a).queue ≡ 0 = ground (arith, h) in
        let one =
          front_acquires debug_locks (lockvoker_for (w.lock_set e.lockvoker) e.lockvoker a)
            (w.qutex a) u 1 (omega arith) o
            (iterator-front (w.lock_set e.lockvoker) (w.qutex a) k h) (subst Distinct (sym h) d)
            (ground (arith, h)) front in
        ground (arith, k, one)

    abbrev pub left_qutex : Qutex
    left_qutex = record (owned_by debug_locks e.lockvoker (w.qutex a)) { queue = es }

    abbrev pub left_world : World
    left_world = record (owned_world w) { qutex = update (owned_world w).qutex a left_qutex }

    pub unregister-front :
        unregister_from_qutex_queues e.lockvoker (owned_world w) ≡ ok tt left_world
    unfolding unregister_from_qutex_queues unregister_locks find_node erase_node
    unregister-front =
        let taken = owned_by debug_locks e.lockvoker (w.qutex a) in
        let set =
          update_self w.lock_set e.lockvoker (record (single a e) { all_locks_acquired = true }) in
        let at = update_self w.qutex a taken in
        let left = unregister_lem e.node true taken {e = e} u (ground (arith, h)) in
        let gone : erase_node e.node taken.queue ≡ es = ground (arith, h) in
        ground (arith, set, at, left, gone)

    abbrev pub freed_world : World
    freed_world = awaken_waiter (front? es) (record left_world {
      qutex = update left_world.qutex a (given_back debug_locks es left_qutex);
    })

    abbrev pub done_world : World
    done_world =
        set_lock_set e.lockvoker
          (record (freed_world.lock_set e.lockvoker) { all_locks_acquired = false }) freed_world

    pub release-served : LockSet.release debug_locks e.lockvoker left_world ≡ ok tt done_world
    unfolding LockSet.release release_locks awaken_front
    release-served =
        let set =
          update_self w.lock_set e.lockvoker (record (single a e) { all_locks_acquired = true }) in
        let at = update_self (owned_world w).qutex a left_qutex in
        let front =
          release-front debug_locks left_qutex u
            (owned_by-IsHeld debug_locks e.lockvoker es (w.qutex a)) in
        ground (arith, set, at, front)
