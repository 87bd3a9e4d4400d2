-- ===== src/LockSet/Stepwise/Attempting.antt =====
-- The calls of an attempt return.
use libspinscale.Base.{
  ℕ, suc, refl, ◌∙◌, inl, inr, Bool, true, Option, some, List, ◌∷◌, update, arith, Bool-cases, ltb,
}
use libspinscale.Qutex.Backoff.{next_waiter, requeued}
use libspinscale.Qutex.Nodes.{find_node-requeued}
use libspinscale.Qutex.TryAcquire.{owned_by}
use libspinscale.World.{World, LockUsageDesc}
use libspinscale.LockSet.{set_lock_set}
use libspinscale.LockSet.LookingUp.{LooksUp-self}
use libspinscale.LockSet.Taking.{available, take_one}
use libspinscale.LockSet.BackingOff.{backed_off, give_one}
use libspinscale.LockSet.Stepwise.{
  attempt, finished, acquiring, acquired, backing_off, awakening, next_call,
}
use libspinscale.LockSet.Stepwise.Queues.{Healthy, kept, rotated}
use libspinscale.LockSet.Stepwise.Enlisted.{Enlisted, AllNamed-update}
use libspinscale.LockSet.Stepwise.Answered.{none_moved, one_moved, Returns, set-Named, waiting}

module _ (debug_locks : Bool) (c : ℕ) (w : World) (healthy : (a : ℕ) → Healthy (w.qutex a)) where
  pub acquiring-Returns :
      (n : ℕ) (d : LockUsageDesc) (ds : List LockUsageDesc) (k : ℕ)
      → Enlisted c (w.lock_set c) (acquiring n (d ∷ ds) k) w.qutex
      → Returns debug_locks c w (acquiring n (d ∷ ds) k)
  unfolding next_call
  acquiring-Returns n d ds k (positive, count, (named, rest), (found, others), all, distinct) =
      let s = w.lock_set c in
      let q = w.qutex d.qutex in
      let h = healthy d.qutex in
      let call =
        take_one debug_locks c n positive s q d.qutex (waiting c w healthy d named found) in
      elim (Bool-cases (available n c q)) [
        | inl free ↦
            let q' = owned_by debug_locks c q in
            (
              acquiring n ds (suc k),
              record w { qutex = update w.qutex d.qutex q' },
              ground (arith, call, free),
              record {
                queues = one_moved d.qutex q' (kept h.unlocked refl refl) refl;
                enlisted = (
                  positive,
                  omega (arith, count),
                  AllNamed-update c w.qutex d.qutex q' ds (λ it x e _. e) rest,
                  others,
                  AllNamed-update c w.qutex d.qutex q' s.locks (λ it x e _. e) all,
                  distinct,
                );
                enrolled = AllNamed-update c w.qutex d.qutex q' s.locks (λ it x e _. e);
              },
            )
        | inr refused ↦ (
          acquired n k (some d.qutex),
          record w { qutex = update w.qutex d.qutex q },
          ground (arith, call, refused),
          record {
            queues = one_moved d.qutex q (kept h.unlocked refl refl) refl;
            enlisted = (
              omega (arith, count),
              AllNamed-update c w.qutex d.qutex q s.locks (λ it x e _. e) all,
              distinct,
            );
            enrolled = AllNamed-update c w.qutex d.qutex q s.locks (λ it x e _. e);
          },
        )
      ]

  pub acquired-Returns :
      (n k : ℕ) (o : Option ℕ)
      → Enlisted c (w.lock_set c) (acquired n k o) w.qutex
      → Returns debug_locks c w (acquired n k o)
  unfolding next_call
  acquired-Returns n k o (le, all, distinct) =
      let s = w.lock_set c in
      elim (Bool-cases (ltb k n)) [
        | inl short ↦ (
          backing_off n k s.locks o,
          w,
          ground (arith, short),
          record {
            queues = none_moved refl;
            enlisted = (ground (arith, short), le, all, LooksUp-self s.locks distinct);
            enrolled = λ e. e;
          },
        )
        | inr enough ↦ (
          finished (attempt true o),
          set_lock_set c (record s { all_locks_acquired = true }) w,
          ground (arith, enough),
          record {
            queues = none_moved refl;
            enlisted = tt;
            enrolled = set-Named c w (record s { all_locks_acquired = true });
          },
        )
      ]

  pub backing_off-Returns :
      (n i : ℕ) (d : LockUsageDesc) (ds : List LockUsageDesc) (o : Option ℕ)
      → Enlisted c (w.lock_set c) (backing_off n (suc i) (d ∷ ds) o) w.qutex
      → Returns debug_locks c w (backing_off n (suc i) (d ∷ ds) o)
  unfolding next_call
  backing_off-Returns n i d ds o (lt, le, (named, rest), (found, others)) =
      let q = w.qutex d.qutex in
      let h = healthy d.qutex in
      let q' = backed_off debug_locks n c q in
      let woken = next_waiter (requeued n c q.queue) in
      let call =
        give_one debug_locks c n (omega arith) (w.lock_set c) q d.qutex
          (waiting c w healthy d named found) in
      (
        awakening woken (backing_off n i ds o),
        record w { qutex = update w.qutex d.qutex q' },
        ground (arith, call),
        record {
          queues = one_moved d.qutex q' (rotated n h.unlocked refl refl) refl;
          enlisted = (
            omega arith,
            omega arith,
            AllNamed-update c w.qutex d.qutex q' ds
                (λ it x e _. find_node-requeued it n c q.queue h.well_formed.distinct ∙ e) rest,
            others,
          );
          enrolled =
              AllNamed-update c w.qutex d.qutex q' (w.lock_set c).locks
                (λ it x e _. find_node-requeued it n c q.queue h.well_formed.distinct ∙ e);
        },
      )
