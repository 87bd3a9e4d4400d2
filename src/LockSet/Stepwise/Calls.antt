-- ===== src/LockSet/Stepwise/Calls.antt =====
-- What one call of a qutex that returns does to its owner and its spin lock, whatever its queue is.
use libspinscale.Base.{
  ℕ, ◌≡◌, refl, Bool, true, false, arith, update, Option-cases, inl, inr, subst, sym,
}
use libspinscale.Outcome.{M, Outcome, ok, stop, ◌>>=◌, return}
use libspinscale.Qutex
use libspinscale.Qutex.{Qutex, Lockvoker, find_node, scan_rear}
use libspinscale.Qutex.Release.{Recorded}
use libspinscale.World.{World, on_qutex}
use libspinscale.LockSet.Exclusion.{IsReleasable}

-- The owner is recorded in a debug build.
try_acquire-Recorded :
    (debug_locks : Bool) (lv : Lockvoker) (n : ℕ) (q q' : Qutex)
    → Qutex.try_acquire debug_locks lv n q ≡ ok true q'
    → Recorded debug_locks q'.curr_owner
unfolding Qutex.try_acquire
try_acquire-Recorded false lv n q q' e = tt
try_acquire-Recorded true lv n q q' e = elim (Option-cases q'.curr_owner) [
  | inl unknown ↦ absurd (ground (arith, e, unknown))
  | inr (v, known) ↦ subst (Recorded true) (sym known) tt
]

module _ (debug_locks : Bool) where
  -- A lock that is granted was unowned, and can be released now.
  pub try_acquire-taken :
      (lv : Lockvoker) (n : ℕ) (q q' : Qutex)
      → Qutex.try_acquire debug_locks lv n q ≡ ok true q'
      → (q.is_owned ≡ false) × IsReleasable debug_locks q'
  unfolding Qutex.try_acquire
  try_acquire-taken lv n q q' e = (
    ground (arith, e),
    record {
      unlocked = ground (arith, e);
      held = record {
        owned = ground (arith, e);
        recorded = try_acquire-Recorded debug_locks lv n q q' e;
      };
    },
  )

  pub try_acquire-refused :
      (lv : Lockvoker) (n : ℕ) (q q' : Qutex)
      → Qutex.try_acquire debug_locks lv n q ≡ ok false q'
      → q' ≡ q
  unfolding Qutex.try_acquire
  try_acquire-refused lv n q q' e = ground (arith, e)

-- The last call of a qutex in a chain that returns.
outcome-cases :
    {A B : Type 0} (a : ℕ) (w w' : World) (r : Outcome Qutex A) (k : A → B) (b : B)
    → (on_qutex a (λ _. r) >>= λ x. return (k x)) w ≡ ok b w'
    → (x : A) × (q : Qutex) × (r ≡ ok x q)
      × (b ≡ k x)
      × (w' ≡ record w { qutex = update w.qutex a q })
outcome-cases a w w' (ok x q) k b e = (x, q, refl, cc, cc)
outcome-cases a w w' (stop x q) k b e = absurd (cc)

pub returns :
    {A B : Type 0} (a : ℕ) (m : M Qutex A) (k : A → B) (b : B) (w w' : World)
    → (on_qutex a m >>= λ x. return (k x)) w ≡ ok b w'
    → (x : A) × (q : Qutex) × (m (w.qutex a) ≡ ok x q)
      × (b ≡ k x)
      × (w' ≡ record w { qutex = update w.qutex a q })
returns a m k b w w' e = outcome-cases a w w' (m (w.qutex a)) k b e
