-- ===== src/LockSet/Stepwise/Attempts.antt =====
-- The calls of `tryAcquireOrBackOff`.
use libspinscale.Base.{
  ℕ, suc, ◌≡◌, refl, sym, subst, inl, inr, Bool, true, Option, some, List, ◌∷◌, take, arith,
  Bool-cases, if◌then◌else◌, ltb, ==_refl,
}
use libspinscale.Outcome.{ok}
use libspinscale.Qutex
use libspinscale.Qutex.{Qutex}
use libspinscale.World.{World, LockUsageDesc, lockvoker_for}
use libspinscale.LockSet.BackingOff.{Unnamed-take}
use libspinscale.LockSet.EarlyRelease.{names-pending}
use libspinscale.LockSet.Exclusion.{IsReleasable}
use libspinscale.LockSet.Stepwise.{
  attempt, Phase, finished, acquiring, acquired, backing_off, awakening, next_call,
}
use libspinscale.LockSet.Stepwise.Holders.{Coherent, touches, takes, gives}
use libspinscale.LockSet.Stepwise.Calls.{try_acquire-taken, try_acquire-refused, returns}
use libspinscale.LockSet.Stepwise.Locks.{names-suc, drop-suc, names-all, names-apart}
use libspinscale.LockSet.Stepwise.Moves.{Moved, moved, settled, stayed}

module _ (debug_locks : Bool) (c : ℕ) where
  pub acquiring-Moved :
      (n : ℕ) (d : LockUsageDesc) (ds : List LockUsageDesc) (k : ℕ) (w w' : World) (p' : Phase)
      → Coherent (w.lock_set c) (acquiring n (d ∷ ds) k)
      → next_call debug_locks c (acquiring n (d ∷ ds) k) w ≡ ok p' w'
      → Moved debug_locks c w (acquiring n (d ∷ ds) k) w' p'
  unfolding next_call
  acquiring-Moved n d ds k w w' p' coherent e =
      let locks = (w.lock_set c).locks in
      let lv = lockvoker_for (w.lock_set c) c d.qutex in
      let (taken, q, ran, at, now) =
        returns d.qutex (Qutex.try_acquire debug_locks lv n)
          (λ taken. if taken then acquiring n ds (suc k) else acquired n k (some d.qutex)) p' w w'
          e in
      elim (Bool-cases taken) [
        | inl granted ↦
            let (free, held) =
              try_acquire-taken debug_locks lv n (w.qutex d.qutex) q (rw granted at ran) in
            moved debug_locks c w w' (acquiring n (d ∷ ds) k) p' (acquiring n ds (suc k)) d.qutex q
              (rw granted at at) now
              (coherent.0, coherent.1, coherent.2, drop-suc k locks ds d coherent.3)
              (takes d.qutex q refl free held (λ a. names-suc k locks ds d a coherent.3))
        | inr refused ↦
            let same =
              try_acquire-refused debug_locks lv n (w.qutex d.qutex) q (rw refused at ran) in
            moved debug_locks c w w' (acquiring n (d ∷ ds) k) p' (acquired n k (some d.qutex))
              d.qutex q (rw refused at at) now (coherent.0, coherent.1, coherent.2)
              (touches d.qutex q refl (subst (IsReleasable debug_locks) (sym same)) (λ a h. h))
      ]

  pub acquired-Moved :
      (n k : ℕ) (o : Option ℕ) (w w' : World) (p' : Phase)
      → Coherent (w.lock_set c) (acquired n k o)
      → next_call debug_locks c (acquired n k o) w ≡ ok p' w'
      → Moved debug_locks c w (acquired n k o) w' p'
  unfolding next_call
  acquired-Moved n k o w w' p' coherent e =
      let s = w.lock_set c in
      elim (Bool-cases (ltb k n)) [
        | inl short ↦
            stayed debug_locks c w w' (acquired n k o) p' (backing_off n k s.locks o)
              (ground (arith, short, e)) (ground (arith, short, e)) (coherent.0, coherent.1)
              (λ a h. h)
        | inr enough ↦
            settled debug_locks c w w' (acquired n k o) p' (finished (attempt true o))
              (record s { all_locks_acquired = true }) (ground (arith, enough, e))
              (ground (arith, enough, e)) tt
              (λ a h.
                names-all k s.locks a (ground (arith, enough, coherent.2))
                  (names-pending s.locks a h))
      ]

  pub backing_off-Moved :
      (n i : ℕ) (d : LockUsageDesc) (ds : List LockUsageDesc) (o : Option ℕ) (w w' : World)
      (p' : Phase)
      → Coherent (w.lock_set c) (backing_off n (suc i) (d ∷ ds) o)
      → next_call debug_locks c (backing_off n (suc i) (d ∷ ds) o) w ≡ ok p' w'
      → Moved debug_locks c w (backing_off n (suc i) (d ∷ ds) o) w' p'
  unfolding next_call
  backing_off-Moved n i d ds o w w' p' coherent e =
      let lv = lockvoker_for (w.lock_set c) c d.qutex in
      let (woken, q, ran, at, now) =
        returns d.qutex (Qutex.backoff debug_locks lv n)
          (λ woken. awakening woken (backing_off n i ds o)) p' w w' e in
      moved debug_locks c w w' (backing_off n (suc i) (d ∷ ds) o) p'
        (awakening woken (backing_off n i ds o)) d.qutex q at now (coherent.0, coherent.1.1)
        (gives d.qutex q refl (rw (==_refl d.qutex) refl) (λ a h.
          let later =
            names-apart a d.qutex (take i ds) (Unnamed-take d.qutex i ds coherent.1.0) h in
          (later, ground (arith, h))))
