-- ===== src/LockSet/Stepwise/Answered.antt =====
-- What the next call of a LockSet method answers and leaves.
use libspinscale.Base.{ℕ, ◌≡◌, sym, subst, update_self, Bool, some, update, arith}
use libspinscale.Outcome.{ok}
use libspinscale.Qutex.{Qutex}
use libspinscale.Qutex.Positions.{InQueue}
use libspinscale.World.{World, LockSet, LockUsageDesc, get_lock_usage_desc, lockvoker_for}
use libspinscale.LockSet.{set_lock_set}
use libspinscale.LockSet.Taking.{IsWaiting}
use libspinscale.LockSet.Stepwise.{Phase, next_call}
use libspinscale.LockSet.Stepwise.Queues.{Healthy, QueueMove, find_node-InQueue}
use libspinscale.LockSet.Stepwise.Enlisted.{AllNamed, IsNamed, Enlisted, Enrolled}

-- One qutex at most is changed, as a call of `c` changes it.
pub data QueuesMove (c : ℕ) (f f' : ℕ → Qutex) : Type 0 where
  none_moved : f' ≡ f → QueuesMove c f f'
  one_moved : (b : ℕ) (q : Qutex) → QueueMove c (f b) q → f' ≡ update f b q → QueuesMove c f f'

pub record Served (c : ℕ) (w : World) (p : Phase) (w' : World) (p' : Phase) : Type 0 where
  pub queues : QueuesMove c w.qutex w'.qutex
  pub enlisted : Enlisted c (w'.lock_set c) p' w'.qutex
  pub enrolled : Enrolled c (w.lock_set c) p w.qutex → Enrolled c (w'.lock_set c) p' w'.qutex

module _ (debug_locks : Bool) (c : ℕ) (w : World) where
  abbrev pub Returns : Phase → Type 0
  Returns p =
      (p' : Phase) × (w' : World) × (next_call debug_locks c p w ≡ ok p' w') × Served c w p w' p'

module _ (c : ℕ) (w : World) where
  pub set-Named :
      (s' : LockSet)
      → AllNamed c s'.locks w.qutex
      → AllNamed c ((set_lock_set c s' w).lock_set c).locks (set_lock_set c s' w).qutex
  set-Named s' h =
      subst (λ (s : LockSet). AllNamed c s.locks w.qutex) (sym (update_self w.lock_set c s')) h

module _ (c : ℕ) (w : World) (healthy : (a : ℕ) → Healthy (w.qutex a)) where
  pub waiting :
      (d : LockUsageDesc)
      → IsNamed c d (w.qutex d.qutex)
      → get_lock_usage_desc (w.lock_set c).locks d.qutex ≡ some d
      → IsWaiting c (w.lock_set c) (w.qutex d.qutex) d.qutex
  unfolding lockvoker_for
  waiting d h l =
      let q = healthy d.qutex in
      record {
        unlocked = q.unlocked;
        distinct = q.distinct;
        queued =
            subst (λ (i : ℕ). InQueue i (w.qutex d.qutex).queue) h.own
              (find_node-InQueue d.iterator (w.qutex d.qutex).queue h.entry h.found);
        iterator = record {
          it = d.iterator;
          entry = h.entry;
          stored = ground (arith, l);
          found = h.found;
          own = h.own;
        };
      }
