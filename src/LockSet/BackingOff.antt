-- ===== src/LockSet/BackingOff.antt =====
-- The second phase of `tryAcquireOrBackOff`: the locks taken so far are given back.
use libspinscale.Base.{
  ℕ, zero, suc, ◌≤◌, ◌≡◌, refl, sym, ◌∙◌, subst, Bool, false, Option, List, [], ◌∷◌, take, update,
  update_self, update_ne, if◌then◌else◌, ◌==◌, length, arith, Bool-cases, inl, inr, ==_false,
  ==_iff, ==_refl,
}
use mathlib.Core.Path.{subst₂}
use libspinscale.Outcome.{ok}
use libspinscale.Qutex
use libspinscale.Qutex.{Qutex, Lockvoker}
use libspinscale.Qutex.Backoff.{next_waiter, requeued, given_back, backoff-requeued}
use libspinscale.Qutex.TryAcquire.{owned_by}
use libspinscale.World.{
  World, LockSet, LockUsageDesc, lockvoker_for, awaken_waiter, awaken_waiter-qutex,
  awaken_waiter-lock_set,
}
use libspinscale.LockSet.{back_off_locks, awaken_front}
use libspinscale.LockSet.Taking.{
  IsWaiting, AllWaiting, Unnamed, DistinctLocks, names, own_all, AllWaiting-update,
}

pub names-Unnamed : (a : ℕ) (ds : List LockUsageDesc) → Unnamed a ds → names ds a ≡ false
names-Unnamed a [] u = refl
names-Unnamed a (d ∷ ds) u = ground (arith, names-Unnamed a ds u.1)

pub Unnamed-take : (a i : ℕ) (ds : List LockUsageDesc) → Unnamed a ds → Unnamed a (take i ds)
Unnamed-take a zero ds u = tt
Unnamed-take a (suc i) [] u = tt
Unnamed-take a (suc i) (d ∷ ds) u = (u.0, Unnamed-take a i ds u.1)

pub DistinctLocks-take :
    (i : ℕ) (ds : List LockUsageDesc) → DistinctLocks ds → DistinctLocks (take i ds)
DistinctLocks-take zero ds u = tt
DistinctLocks-take (suc i) [] u = tt
DistinctLocks-take (suc i) (d ∷ ds) u = (Unnamed-take d.qutex i ds u.0, DistinctLocks-take i ds u.1)

-- One change `g` at the first name, and then at the others, is a change at all the names.
pub names-cons :
    (g : Qutex → Qutex) (f : ℕ → Qutex) (x : LockUsageDesc) (ds : List LockUsageDesc) (a : ℕ)
    → Unnamed x.qutex ds
    → (if names ds a
        then g (update f x.qutex (g (f x.qutex)) a)
        else update f x.qutex (g (f x.qutex)) a)
      ≡ (if names (x ∷ ds) a then g (f a) else f a)
names-cons g f x ds a u = elim (Bool-cases (x.qutex == a)) [
  | inl here ↦
      subst
        (λ (b : ℕ).
          (if names ds b
            then g (update f x.qutex (g (f x.qutex)) b)
            else update f x.qutex (g (f x.qutex)) b)
          ≡ (if names (x ∷ ds) b then g (f b) else f b))
        ((==_iff _ _).0 here)
        (rw (names-Unnamed x.qutex ds u, ==_refl x.qutex, update_self f x.qutex (g (f x.qutex))))
  | inr other ↦ rw (other, update_ne f x.qutex (g (f x.qutex)) a (==_false other))
]

pub own_all-names :
    (debug_locks : Bool) (c : ℕ) (ds : List LockUsageDesc) (f : ℕ → Qutex) (a : ℕ)
    → DistinctLocks ds
    → own_all debug_locks c ds f a ≡ (if names ds a then owned_by debug_locks c (f a) else f a)
own_all-names debug_locks c [] f a d = refl
own_all-names debug_locks c (x ∷ ds) f a d =
    own_all-names debug_locks c ds (update f x.qutex (owned_by debug_locks c (f x.qutex))) a d.1
    ∙ names-cons (owned_by debug_locks c) f x ds a d.0

abbrev pub backed_off : Bool → ℕ → ℕ → Qutex → Qutex
backed_off debug_locks n c q = given_back debug_locks (requeued n c q.queue) q

module _ (debug_locks : Bool) (c n : ℕ) (several : 2 ≤ n) where
  pub give_one :
      (s : LockSet) (q : Qutex) (a : ℕ)
      → IsWaiting c s q a
      → Qutex.backoff debug_locks (lockvoker_for s c a) n q
        ≡ ok (next_waiter (requeued n c q.queue)) (backed_off debug_locks n c q)
  unfolding lockvoker_for
  give_one s q a h =
      backoff-requeued debug_locks (lockvoker_for s c a) n q h.unlocked several h.distinct h.queued

  back_off_locks-cons :
      (i : ℕ) (x : LockUsageDesc) (ds : List LockUsageDesc) (w : World) (o : Option ℕ) (q : Qutex)
      → Qutex.backoff debug_locks (lockvoker_for (w.lock_set c) c x.qutex) n (w.qutex x.qutex)
        ≡ ok o q
      → back_off_locks debug_locks c n (suc i) (x ∷ ds) w
        ≡ back_off_locks debug_locks c n i ds
            (awaken_waiter o (record w { qutex = update w.qutex x.qutex q }))
  unfolding back_off_locks awaken_front
  back_off_locks-cons i x ds w o q e = ground (arith, e)

  pub back_off_locks-names :
      (i : ℕ) (ds : List LockUsageDesc) (w : World)
      → i ≤ length ds
      → DistinctLocks ds
      → AllWaiting c (w.lock_set c) w.qutex ds
      → (w' : World) × (back_off_locks debug_locks c n i ds w ≡ ok tt w')
        × (w'.lock_set ≡ w.lock_set)
        × ((a : ℕ)
            → w'.qutex a
              ≡ (if names (take i ds) a then backed_off debug_locks n c (w.qutex a) else w.qutex a))
  unfolding back_off_locks
  back_off_locks-names zero ds w le d h = (w, refl, refl, λ a. refl)
  back_off_locks-names (suc i) [] w le d h = absurd (omega arith)
  back_off_locks-names (suc i) (x ∷ ds) w le d h =
      let g = backed_off debug_locks n c in
      let woken = next_waiter (requeued n c (w.qutex x.qutex).queue) in
      let w0 = record w { qutex = update w.qutex x.qutex (g (w.qutex x.qutex)) } in
      let w1 = awaken_waiter woken w0 in
      let same_q : w1.qutex ≡ w0.qutex = awaken_waiter-qutex woken w0 in
      let same_s : w1.lock_set ≡ w.lock_set = awaken_waiter-lock_set woken w0 in
      let waiting : AllWaiting c (w1.lock_set c) w1.qutex ds =
        subst₂ (λ (s : ℕ → LockSet) (f : ℕ → Qutex). AllWaiting c (s c) f ds) (sym same_s)
          (sym same_q)
          (AllWaiting-update c (w.lock_set c) w.qutex x.qutex (g (w.qutex x.qutex)) ds d.0 h.1) in
      let (w', ran, sets, at) = back_off_locks-names i ds w1 (omega arith) d.1 waiting in
      (
        w',
        back_off_locks-cons i x ds w woken (g (w.qutex x.qutex))
              (give_one (w.lock_set c) (w.qutex x.qutex) x.qutex h.0)
            ∙ ran,
        sets ∙ same_s,
        λ a.
            at a
            ∙ (rw same_q (names-cons g w.qutex x (take i ds) a (Unnamed-take x.qutex i ds d.0))),
      )
