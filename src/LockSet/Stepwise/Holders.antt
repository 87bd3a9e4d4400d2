-- ===== src/LockSet/Stepwise/Holders.antt =====
-- Who has which qutex while the methods of several lock sets are under way.
use libspinscale.Base.{
  ℕ, ◌≡◌, ◌≢◌, sym, ◌∙◌, ap, subst, inl, inr, ◌⊎◌, Bool, true, false, not, ◌&&◌, ◌++◌, ◌==◌, take,
  drop, update, update_self, update_ne, length,
}
use native.Mathlib.Decide.{ℕ_discrete}
use mathlib.Core.Bool.{false≢true}
use libspinscale.Qutex.{Qutex}
use libspinscale.World.{LockSet}
use libspinscale.LockSet.Taking.{names, DistinctLocks}
use libspinscale.LockSet.Releasing.{pending}
use libspinscale.LockSet.Exclusion.{IsReleasable, holds_in}
use libspinscale.LockSet.Stepwise.{
  Phase, finished, registering, unregistering, acquiring, acquired, backing_off, releasing,
  releasing_early, marking, awakening,
}

-- Between methods, the locks of an acquired set that were not released early; within one, those that
-- it has taken and not given back.
abbrev pub has_in : LockSet → Phase → ℕ → Bool
has_in s (finished _) a = holds_in s a
has_in s (registering registered rest) a =
    s.all_locks_acquired && names (pending (registered ++ rest)) a
has_in s (unregistering _) a = holds_in s a
has_in s (acquiring _ _ n_acquired) a = names (take n_acquired s.locks) a
has_in s (acquired _ n_acquired _) a = names (take n_acquired s.locks) a
has_in s (backing_off _ i rest _) a = names (take i rest) a
has_in s (releasing rest) a = names (pending rest) a
has_in s (releasing_early _) a = holds_in s a
has_in s (marking b) a = not (b == a) && holds_in s a
has_in s (awakening _ p) a = has_in s p a

-- What a method knows of its lock set at each phase.
abbrev pub Coherent : LockSet → Phase → Type 0
Coherent s (finished _) = Unit
Coherent s (registering _ _) = Unit
Coherent s (unregistering _) = Unit
Coherent s (acquiring n rest n_acquired) =
    (s.all_locks_acquired ≡ false)
    × DistinctLocks s.locks
    × (n ≡ length s.locks)
    × (drop n_acquired s.locks ≡ rest)
Coherent s (acquired n n_acquired _) =
    (s.all_locks_acquired ≡ false) × DistinctLocks s.locks × (n ≡ length s.locks)
Coherent s (backing_off _ _ rest _) = (s.all_locks_acquired ≡ false) × DistinctLocks rest
Coherent s (releasing rest) = DistinctLocks rest
Coherent s (releasing_early b) = (holds_in s b ≡ true) × DistinctLocks s.locks
Coherent s (marking b) = DistinctLocks s.locks
Coherent s (awakening _ p) = Coherent s p

module _ (debug_locks : Bool) where
  -- One continuation at most has a qutex, and a qutex that one has can be released.
  pub record Apart (has : ℕ → ℕ → Bool) (f : ℕ → Qutex) : Type 0 where
    pub apart : (c d a : ℕ) → has c a ≡ true → has d a ≡ true → c ≡ d
    pub owned : (c a : ℕ) → has c a ≡ true → IsReleasable debug_locks (f a)

  -- What one call of `c` does to the qutexes and to what `c` has, `had` before and `has` after.
  pub data Effect (f f' : ℕ → Qutex) (had has : ℕ → Bool) : Type 0 where
    leaves : f' ≡ f → ((a : ℕ) → has a ≡ true → had a ≡ true) → Effect f f' had has
    touches :
        (b : ℕ) (q : Qutex)
        → f' ≡ update f b q
        → (IsReleasable debug_locks (f b) → IsReleasable debug_locks q)
        → ((a : ℕ) → has a ≡ true → had a ≡ true)
        → Effect f f' had has
    takes :
        (b : ℕ) (q : Qutex)
        → f' ≡ update f b q
        → (f b).is_owned ≡ false
        → IsReleasable debug_locks q
        → ((a : ℕ) → has a ≡ true → (b ≡ a) ⊎ (had a ≡ true))
        → Effect f f' had has
    gives :
        (b : ℕ) (q : Qutex)
        → f' ≡ update f b q
        → had b ≡ true
        → ((a : ℕ) → has a ≡ true → (b ≢ a) × (had a ≡ true))
        → Effect f f' had has

  module _ (had has : ℕ → ℕ → Bool) (f f' : ℕ → Qutex) (c : ℕ) where
    -- A change of what `c` has: it is owned and nobody else's, and what others have stays owned.
    Apart-update :
        ((d : ℕ) → c ≢ d → has d ≡ had d)
        → Apart had f
        → ((a : ℕ)
            → has c a ≡ true
            → IsReleasable debug_locks (f' a) × ((d : ℕ) → c ≢ d → had d a ≡ true → ⊥))
        → ((d a : ℕ) → c ≢ d → had d a ≡ true → IsReleasable debug_locks (f' a))
        → Apart has f'
    Apart-update same h new old =
        let before : (d a : ℕ) → c ≢ d → has d a ≡ true → had d a ≡ true =
          λ d a n x. ap (λ (g : ℕ → Bool). g a) (sym (same d n)) ∙ x in
        let mine : (d a : ℕ) → c ≡ d → has d a ≡ true → has c a ≡ true =
          λ d a k x. subst (λ (i : ℕ). has i a ≡ true) (sym k) x in
        record {
          apart = λ d d' a x y. elim (ℕ_discrete c d) [
            | yes k ↦ elim (ℕ_discrete c d') [
              | yes k' ↦ sym k ∙ k'
              | no k' ↦ absurd ((new a (mine d a k x)).1 d' k' (before d' a k' y))
            ]
            | no k ↦ elim (ℕ_discrete c d') [
              | yes k' ↦ absurd ((new a (mine d' a k' y)).1 d k (before d a k x))
              | no k' ↦ h.apart d d' a (before d a k x) (before d' a k' y)
            ]
          ];
          owned = λ d a x. elim (ℕ_discrete c d) [
            | yes k ↦ (new a (mine d a k x)).0
            | no k ↦ old d a k (before d a k x)
          ];
        }

    IsReleasable-update :
        (b a : ℕ) (q : Qutex)
        → f' ≡ update f b q
        → (b ≡ a → IsReleasable debug_locks q)
        → (b ≢ a → IsReleasable debug_locks (f a))
        → IsReleasable debug_locks (f' a)
    IsReleasable-update b a q e here there =
        subst (λ (g : ℕ → Qutex). IsReleasable debug_locks (g a)) (sym e)
          (elim (ℕ_discrete b a) [
            | yes k ↦
                subst (λ (i : ℕ). IsReleasable debug_locks (update f b q i)) k
                  (subst (IsReleasable debug_locks) (sym (update_self f b q)) (here k))
            | no k ↦ subst (IsReleasable debug_locks) (sym (update_ne f b q a k)) (there k)
          ])

    pub Effect-Apart :
        ((d : ℕ) → c ≢ d → has d ≡ had d) → Effect f f' (had c) (has c) → Apart had f → Apart has f'
    Effect-Apart same (leaves e sub) h =
        let still : (d a : ℕ) → had d a ≡ true → IsReleasable debug_locks (f' a) = λ d a x.
          subst (λ (g : ℕ → Qutex). IsReleasable debug_locks (g a)) (sym e) (h.owned d a x) in
        Apart-update same h (λ a x. (still c a (sub a x), λ d n y. n (h.apart c d a (sub a x) y)))
          (λ d a n y. still d a y)
    Effect-Apart same (touches b q e keep sub) h =
        let still : (d a : ℕ) → had d a ≡ true → IsReleasable debug_locks (f' a) = λ d a x.
          IsReleasable-update b a q e
            (λ k. keep (h.owned d b (subst (λ (i : ℕ). had d i ≡ true) (sym k) x)))
            (λ _. h.owned d a x) in
        Apart-update same h (λ a x. (still c a (sub a x), λ d n y. n (h.apart c d a (sub a x) y)))
          (λ d a n y. still d a y)
    Effect-Apart same (takes b q e free held sub) h =
        let unowned : (d a : ℕ) → b ≡ a → had d a ≡ true → ⊥ = λ d a k y.
          let o = (h.owned d b (subst (λ (i : ℕ). had d i ≡ true) (sym k) y)).held in
          false≢true (sym free ∙ o.owned) in
        let still : (d a : ℕ) → had d a ≡ true → IsReleasable debug_locks (f' a) =
          λ d a x. IsReleasable-update b a q e (λ _. held) (λ _. h.owned d a x) in
        Apart-update same h
          (λ a x. elim (sub a x) [
            | inl k ↦ (
              IsReleasable-update b a q e (λ _. held) (λ n. absurd (n k)),
              λ d n y. unowned d a k y,
            )
            | inr x' ↦ (still c a x', λ d n y. n (h.apart c d a x' y))
          ])
          (λ d a n y. still d a y)
    Effect-Apart same (gives b q e mine sub) h =
        Apart-update same h
          (λ a x.
            let (n, x') = sub a x in
            (
              IsReleasable-update b a q e (λ k. absurd (n k)) (λ _. h.owned c a x'),
              λ d m y. m (h.apart c d a x' y),
            ))
          (λ d a n y.
            IsReleasable-update b a q e
              (λ k. absurd (n (h.apart c d a (subst (λ (i : ℕ). had c i ≡ true) k mine) y)))
              (λ _. h.owned d a y))
