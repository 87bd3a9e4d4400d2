-- ===== src/LockerAndInvoker/Call/Running.antt =====
-- The invocation of the target once all locks are taken.
use libspinscale.Base.{
  ℕ, ◌≡◌, sym, ◌∙◌, subst, ap, Bool, true, false, Option, List, [], ◌∷◌, if◌then◌else◌, update_self,
}
use libspinscale.Outcome.{ok}
use libspinscale.Qutex.{Qutex}
use libspinscale.Qutex.Positions.{Absent}
use libspinscale.Qutex.TryAcquire.{owned_by}
use libspinscale.World.{World, LockSet, LockUsageDesc}
use libspinscale.LockSet.{unregister_from_qutex_queues}
use libspinscale.LockSet.Taking.{names}
use libspinscale.LockSet.Attempt.{IsReady}
use libspinscale.LockSet.AllOrNothing.{TookAll}
use libspinscale.LockerAndInvoker.Unregistering.{
  IsRegistered, AllRegistered, AllRegistered-waiting, unqueue_all, unregister_locks-unqueue_all,
  unqueue_all-Absent,
}

IsRegistered-owned_by :
    (debug_locks b : Bool) (c : ℕ) (d : LockUsageDesc) (q : Qutex)
    → IsRegistered c d q
    → IsRegistered c d (if b then owned_by debug_locks c q else q)
IsRegistered-owned_by debug_locks false c d q h = h
IsRegistered-owned_by debug_locks true c d q h = record {
  unlocked = h.unlocked;
  distinct = h.distinct;
  entry = h.entry;
  found = h.found;
  own = h.own;
}

AllRegistered-owned :
    (debug_locks : Bool) (c : ℕ) (all ds : List LockUsageDesc) (f g : ℕ → Qutex)
    → ((a : ℕ) → g a ≡ (if names all a then owned_by debug_locks c (f a) else f a))
    → AllRegistered c ds f
    → AllRegistered c ds g
AllRegistered-owned debug_locks c all [] f g at h = tt
AllRegistered-owned debug_locks c all (d ∷ ds) f g at h = (
  subst (IsRegistered c d) (sym (at d.qutex))
      (IsRegistered-owned_by debug_locks (names all d.qutex) c d (f d.qutex) h.0),
  AllRegistered-owned debug_locks c all ds f g at h.1,
)

module _ (debug_locks : Bool) (c : ℕ) (w w1 : World) (r : Bool × Option ℕ) where
  abbrev pub locks_of : List LockUsageDesc
  locks_of = (w.lock_set c).locks

  abbrev pub world_after : World
  world_after = record w1 { qutex = unqueue_all locks_of w1.qutex }

  registered_after : IsReady c w → TookAll debug_locks c w r w1 → AllRegistered c locks_of w1.qutex
  registered_after h took =
      AllRegistered-owned debug_locks c locks_of locks_of w.qutex w1.qutex took.owned
        (AllRegistered-waiting c (w.lock_set c) w.qutex h.distinct h.waiting)

  pub unregister-world_after :
      IsReady c w
      → TookAll debug_locks c w r w1
      → unregister_from_qutex_queues c w1 ≡ ok tt world_after
  unfolding unregister_from_qutex_queues
  unregister-world_after h took =
      let set : w1.lock_set c ≡ record (w.lock_set c) { all_locks_acquired = true } =
        ap (λ (f : ℕ → LockSet). f c) took.acquired
        ∙ update_self w.lock_set c (record (w.lock_set c) { all_locks_acquired = true }) in
      rw (set, h.registered)
        (unregister_locks-unqueue_all c locks_of w1 h.distinct (registered_after h took))

  pub world_after-Absent :
      IsReady c w
      → TookAll debug_locks c w r w1
      → (a : ℕ) → names locks_of a ≡ true
      → Absent c (world_after.qutex a).queue
  world_after-Absent h took a n =
      unqueue_all-Absent c locks_of w1.qutex a h.distinct (registered_after h took) n
