-- ===== src/LockSet/Stepwise/Moves.antt =====
-- What one call of a LockSet method may change.
use libspinscale.Base.{ℕ, ◌≡◌, refl, sym, ◌∙◌, ap, subst, Bool, true, update, update_same}
use libspinscale.Qutex.{Qutex}
use libspinscale.World.{World, LockSet}
use libspinscale.LockSet.{set_lock_set}
use libspinscale.LockSet.Stepwise.{Phase}
use libspinscale.LockSet.Stepwise.Holders.{has_in, Coherent, Effect, leaves}

module _ (debug_locks : Bool) (c : ℕ) where
  -- What a call of `c` may change: one qutex and the lock set of `c`.
  pub record Moved (w : World) (p : Phase) (w' : World) (p' : Phase) : Type 0 where
    pub after : LockSet
    pub lock_set : w'.lock_set ≡ update w.lock_set c after
    pub coherent : Coherent after p'
    pub effect : Effect debug_locks w.qutex w'.qutex (has_in (w.lock_set c) p) (has_in after p')

  -- A call of the qutex at `b` that leaves the lock sets alone.
  pub moved :
      (w w' : World) (p p' p0 : Phase) (b : ℕ) (q : Qutex)
      → p' ≡ p0
      → w' ≡ record w { qutex = update w.qutex b q }
      → Coherent (w.lock_set c) p0
      → Effect debug_locks w.qutex
          (update w.qutex b q)
          (has_in (w.lock_set c) p)
          (has_in (w.lock_set c) p0)
      → Moved w p w' p'
  moved w w' p p' p0 b q e k coherent effect =
      subst (λ (x : Phase). Moved w p w' x) (sym e)
        (subst (λ (x : World). Moved w p x p0) (sym k)
          (record {
            after = w.lock_set c;
            lock_set = sym (update_same w.lock_set c);
            coherent = coherent;
            effect = effect;
          }))

  -- No call, with the lock set of `c` written or not.
  pub settled :
      (w w' : World) (p p' p0 : Phase) (s : LockSet)
      → p' ≡ p0
      → w' ≡ set_lock_set c s w
      → Coherent s p0
      → ((a : ℕ) → has_in s p0 a ≡ true → has_in (w.lock_set c) p a ≡ true)
      → Moved w p w' p'
  settled w w' p p' p0 s e k coherent sub =
      subst (λ (x : Phase). Moved w p w' x) (sym e)
        (subst (λ (x : World). Moved w p x p0) (sym k)
          (record { after = s; lock_set = refl; coherent = coherent; effect = leaves refl sub }))

  pub stayed :
      (w w' : World) (p p' p0 : Phase)
      → p' ≡ p0
      → w' ≡ w
      → Coherent (w.lock_set c) p0
      → ((a : ℕ) → has_in (w.lock_set c) p0 a ≡ true → has_in (w.lock_set c) p a ≡ true)
      → Moved w p w' p'
  stayed w w' p p' p0 e k coherent sub =
      settled w w' p p' p0 (w.lock_set c) e
        (k ∙ ap (λ (f : ℕ → LockSet). record w { lock_set = f }) (sym (update_same w.lock_set c)))
        coherent sub
