-- ===== src/LockSet/Taking.antt =====
-- The first phase of `tryAcquireOrBackOff`: locks are taken in order up to the first refusal.
use libspinscale.Base.{
  ℕ, suc, ◌+◌, ◌<◌, ◌≡◌, refl, Bool, true, false, not, ◌&&◌, Option, none, some, List, [], ◌∷◌,
  take, update, ◌∙◌, update_ne, update_same, if◌then◌else◌, ◌==◌, length, arith, ◌≢◌, Bool-cases,
  inl, inr, subst, sym,
}
use libspinscale.Outcome.{ok}
use libspinscale.Qutex
use libspinscale.Qutex.{Qutex, IsUnlocked}
use libspinscale.Qutex.Positions.{position, InQueue, Distinct}
use libspinscale.Qutex.TryAcquire.{HasIterator, eligible, owned_by, try_acquire-eligible}
use libspinscale.World.{World, LockSet, LockUsageDesc, lockvoker_for}
use libspinscale.LockSet.{acquire_locks}

-- A lock that the continuation `c` is registered with, once and through a valid iterator.
pub record IsWaiting (c : ℕ) (s : LockSet) (q : Qutex) (a : ℕ) : Type 0 where
  pub unlocked : IsUnlocked q
  pub distinct : Distinct q.queue
  pub queued : InQueue c q.queue
  pub iterator : HasIterator (lockvoker_for s c a) q.queue

abbrev pub AllWaiting : ℕ → LockSet → (ℕ → Qutex) → List LockUsageDesc → Type 0
AllWaiting c s f [] = Unit
AllWaiting c s f (d ∷ ds) = IsWaiting c s (f d.qutex) d.qutex × AllWaiting c s f ds

abbrev pub Unnamed : ℕ → List LockUsageDesc → Type 0
Unnamed a [] = Unit
Unnamed a (d ∷ ds) = (d.qutex ≢ a) × Unnamed a ds

-- No qutex is listed twice.
abbrev pub DistinctLocks : List LockUsageDesc → Type 0
DistinctLocks [] = Unit
DistinctLocks (d ∷ ds) = Unnamed d.qutex ds × DistinctLocks ds

abbrev pub names : List LockUsageDesc → ℕ → Bool
names [] a = false
names (d ∷ ds) a = if d.qutex == a then true else names ds a

-- Unowned, and the caller is far enough to the front.
abbrev pub available : ℕ → ℕ → Qutex → Bool
available n c q = not q.is_owned && eligible n (length q.queue) (position c q.queue)

-- The locks before the first that is not available, and that one.
abbrev pub n_available : ℕ → ℕ → (ℕ → Qutex) → List LockUsageDesc → ℕ
n_available n c f [] = 0
n_available n c f (d ∷ ds) = if available n c (f d.qutex) then suc (n_available n c f ds) else 0

abbrev pub first_refusing : ℕ → ℕ → (ℕ → Qutex) → List LockUsageDesc → Option ℕ
first_refusing n c f [] = none
first_refusing n c f (d ∷ ds) =
    if available n c (f d.qutex) then first_refusing n c f ds else some d.qutex

abbrev pub own_all : Bool → ℕ → List LockUsageDesc → (ℕ → Qutex) → ℕ → Qutex
own_all debug_locks c [] f = f
own_all debug_locks c (d ∷ ds) f =
    own_all debug_locks c ds (update f d.qutex (owned_by debug_locks c (f d.qutex)))

-- A write at an address that the rest does not name is not seen there.
module _ (c : ℕ) (s : LockSet) (f : ℕ → Qutex) (a : ℕ) (q : Qutex) where
  pub AllWaiting-update :
      (ds : List LockUsageDesc)
      → Unnamed a ds
      → AllWaiting c s f ds
      → AllWaiting c s (update f a q) ds
  AllWaiting-update [] u h = tt
  AllWaiting-update (d ∷ ds) u h = (
    subst (λ (r : Qutex). IsWaiting c s r d.qutex)
        (sym (update_ne f a q d.qutex (λ e. u.0 (sym e)))) h.0,
    AllWaiting-update ds u.1 h.1,
  )

  n_available-update :
      (n : ℕ) (ds : List LockUsageDesc)
      → Unnamed a ds
      → n_available n c (update f a q) ds ≡ n_available n c f ds
  n_available-update n [] u = refl
  n_available-update n (d ∷ ds) u =
      rw (update_ne f a q d.qutex (λ e. u.0 (sym e)), n_available-update n ds u.1)

  first_refusing-update :
      (n : ℕ) (ds : List LockUsageDesc)
      → Unnamed a ds
      → first_refusing n c (update f a q) ds ≡ first_refusing n c f ds
  first_refusing-update n [] u = refl
  first_refusing-update n (d ∷ ds) u =
      rw (update_ne f a q d.qutex (λ e. u.0 (sym e)), first_refusing-update n ds u.1)

module _ (debug_locks : Bool) (c n : ℕ) (positive : 0 < n) where
  pub take_one :
      (s : LockSet) (q : Qutex) (a : ℕ)
      → IsWaiting c s q a
      → Qutex.try_acquire debug_locks (lockvoker_for s c a) n q
        ≡ (if available n c q then ok true (owned_by debug_locks c q) else ok false q)
  unfolding lockvoker_for
  take_one s q a h =
      rw
        (try_acquire-eligible debug_locks (lockvoker_for s c a) q h.unlocked n positive h.iterator
          h.distinct h.queued)
        (ground arith)

  acquire_locks-cons :
      (x : LockUsageDesc) (ds : List LockUsageDesc) (k : ℕ) (w : World) (taken : Bool) (q : Qutex)
      → Qutex.try_acquire debug_locks (lockvoker_for (w.lock_set c) c x.qutex) n (w.qutex x.qutex)
        ≡ ok taken q
      → acquire_locks debug_locks c n (x ∷ ds) k w ≡ (
          if taken
          then acquire_locks debug_locks c n ds
              (suc k)
              (record w { qutex = update w.qutex x.qutex q })
          else ok (k, some x.qutex) (record w { qutex = update w.qutex x.qutex q }))
  unfolding acquire_locks
  acquire_locks-cons x ds k w true q e = ground (arith, e)
  acquire_locks-cons x ds k w false q e = ground (arith, e)

  pub acquire_locks-available :
      (ds : List LockUsageDesc) (k : ℕ) (w : World)
      → DistinctLocks ds
      → AllWaiting c (w.lock_set c) w.qutex ds
      → acquire_locks debug_locks c n ds k w
        ≡ ok
            (k + n_available n c w.qutex ds, first_refusing n c w.qutex ds)
            (record w {
              qutex = own_all debug_locks c (take (n_available n c w.qutex ds) ds) w.qutex;
            })
  unfolding acquire_locks
  acquire_locks-available [] k w d h = ground arith
  acquire_locks-available (x ∷ ds) k w d h = elim (Bool-cases (available n c (w.qutex x.qutex))) [
    | inl free ↦
        let s = w.lock_set c in
        let q = owned_by debug_locks c (w.qutex x.qutex) in
        let taken : Qutex.try_acquire debug_locks (lockvoker_for s c x.qutex) n (w.qutex x.qutex)
            ≡ ok true q =
          take_one s (w.qutex x.qutex) x.qutex h.0 ∙ (rw free) in
        let rest =
          acquire_locks-available ds (suc k) (record w { qutex = update w.qutex x.qutex q }) d.1
            (AllWaiting-update c s w.qutex x.qutex q ds d.0 h.1) in
        let more : suc k + n_available n c w.qutex ds ≡ k + suc (n_available n c w.qutex ds) =
          omega arith in
        acquire_locks-cons x ds k w true q taken
        ∙ (rw
            (
              free,
              ← more,
              ← n_available-update c s w.qutex x.qutex q n ds d.0,
              ← first_refusing-update c s w.qutex x.qutex q n ds d.0,
            )
            rest)
    | inr refused ↦
        let q = w.qutex x.qutex in
        let none_more : k + 0 ≡ k = omega arith in
        acquire_locks-cons x ds k w false q (take_one (w.lock_set c) q x.qutex h.0 ∙ (rw refused))
        ∙ (rw (refused, update_same w.qutex x.qutex, none_more))
  ]
