-- ===== src/LockSet/Attempt.antt =====
-- The parts of `LockSet::tryAcquireOrBackOff` put together.
use mathlib.Core.List.{Perm}
use mathlib.Core.List.Perm
use libspinscale.Base.{
  ℕ, zero, suc, ◌≤◌, ◌<◌, ◌≡◌, refl, ap, sym, ◌∙◌, subst, Bool, true, false, Option, none, some,
  List, [], ◌∷◌, take, if◌then◌else◌, ◌==◌, length, arith, Bool-cases, inl, inr, lt→ltb, ==_iff,
}
use mathlib.Core.Bool.{false≢true}
use libspinscale.Outcome.{ok, ◌>>=◌, ◌>>◌}
use libspinscale.Qutex.{Qutex}
use libspinscale.Qutex.Backoff.{requeued-perm}
use libspinscale.Qutex.TryAcquire.{owned_by}
use libspinscale.World.{World, LockSet, LockUsageDesc}
use libspinscale.LockSet.{
  acquire_locks, back_off_locks, finish_acquisition, try_acquire_or_back_off, set_lock_set,
}
use libspinscale.LockSet.Taking.{
  IsWaiting, AllWaiting, DistinctLocks, names, own_all, available, n_available, first_refusing,
}
use libspinscale.LockSet.BackingOff.{backed_off, own_all-names}

-- The state in which `operator()` calls: registered, not yet acquired, waiting for every lock.
pub record IsReady (c : ℕ) (w : World) : Type 0 where
  pub registered : (w.lock_set c).registered_in_qutex_queues ≡ true
  pub not_acquired : (w.lock_set c).all_locks_acquired ≡ false
  pub distinct : DistinctLocks (w.lock_set c).locks
  pub waiting : AllWaiting c (w.lock_set c) w.qutex (w.lock_set c).locks

pub IsWaiting-owned_by :
    (debug_locks b : Bool) (c : ℕ) (s : LockSet) (q : Qutex) (a : ℕ)
    → IsWaiting c s q a
    → IsWaiting c s (if b then owned_by debug_locks c q else q) a
IsWaiting-owned_by debug_locks false c s q a h = h
IsWaiting-owned_by debug_locks true c s q a h = record {
  unlocked = h.unlocked;
  distinct = h.distinct;
  queued = h.queued;
  iterator = h.iterator;
}

pub AllWaiting-own_all :
    (debug_locks : Bool) (c : ℕ) (s : LockSet) (f : ℕ → Qutex) (taken ds : List LockUsageDesc)
    → DistinctLocks taken
    → AllWaiting c s f ds
    → AllWaiting c s (own_all debug_locks c taken f) ds
AllWaiting-own_all debug_locks c s f taken [] d h = tt
AllWaiting-own_all debug_locks c s f taken (x ∷ ds) d h = (
  subst (λ (q : Qutex). IsWaiting c s q x.qutex)
      (sym (own_all-names debug_locks c taken f x.qutex d))
      (IsWaiting-owned_by debug_locks (names taken x.qutex) c s (f x.qutex) x.qutex h.0),
  AllWaiting-own_all debug_locks c s f taken ds d h.1,
)

pub n_available-le :
    (n c : ℕ) (f : ℕ → Qutex) (ds : List LockUsageDesc) → n_available n c f ds ≤ length ds
n_available-le n c f [] = omega arith
n_available-le n c f (x ∷ ds) = ground (arith, n_available-le n c f ds)

pub available-unowned : (n c : ℕ) (q : Qutex) → available n c q ≡ true → q.is_owned ≡ false
available-unowned n c q h = ground arith

pub suc-lt : {a b : ℕ} → suc a < suc b → a < b
suc-lt h = omega arith

-- The locks that are taken were unowned.
pub available-names :
    (n c : ℕ) (f : ℕ → Qutex) (ds : List LockUsageDesc) (a : ℕ)
    → names (take (n_available n c f ds) ds) a ≡ true
    → (f a).is_owned ≡ false
available-names n c f [] a h = cc
available-names n c f (x ∷ ds) a h = elim (Bool-cases (available n c (f x.qutex))) [
  | inl free ↦ elim (Bool-cases (x.qutex == a)) [
    | inl here ↦
        subst (λ (b : ℕ). (f b).is_owned ≡ false) ((==_iff _ _).0 here)
          (available-unowned n c (f x.qutex) free)
    | inr other ↦ available-names n c f ds a (rw (free, other) at h)
  ]
  | inr refused ↦ absurd (false≢true (rw refused at h))
]

-- The lock that is refused is the first that is not available.
pub record Refuses (n c : ℕ) (f : ℕ → Qutex) (ds : List LockUsageDesc) (a : ℕ) : Type 0 where
  pub listed : names ds a ≡ true
  pub refusing : available n c (f a) ≡ false

pub first_refusing-Refuses :
    (n c : ℕ) (f : ℕ → Qutex) (ds : List LockUsageDesc)
    → n_available n c f ds < length ds
    → (a : ℕ) × (first_refusing n c f ds ≡ some a) × Refuses n c f ds a
first_refusing-Refuses n c f [] h = absurd (omega arith)
first_refusing-Refuses n c f (x ∷ ds) h = elim (Bool-cases (available n c (f x.qutex))) [
  | inl free ↦
      let (a, found, r) = first_refusing-Refuses n c f ds (suc-lt (rw free at h)) in
      (a, rw free found, record { listed = ground arith; refusing = r.refusing })
  | inr refused ↦ (x.qutex, rw refused, record { listed = ground arith; refusing = refused })
]

pub take-length : {A : Type 0} (xs : List A) → take (length xs) xs ≡ xs
take-length [] = refl
take-length (x ∷ xs) = ap (◌∷◌ x) (take-length xs)

pub first_refusing-none :
    (n c : ℕ) (f : ℕ → Qutex) (ds : List LockUsageDesc)
    → n_available n c f ds ≡ length ds
    → first_refusing n c f ds ≡ none
first_refusing-none n c f [] h = refl
first_refusing-none n c f (x ∷ ds) h = ground (arith, first_refusing-none n c f ds)

-- What a failed attempt leaves: everywhere the same waiters, each owned or not as before, and every
-- qutex that was owned or is outside the set untouched.
pub record IsRestored (ds : List LockUsageDesc) (f f' : ℕ → Qutex) : Type 0 where
  pub ownership : (a : ℕ) → (f' a).is_owned ≡ (f a).is_owned
  pub waiters : (a : ℕ) → Perm (f' a).queue (f a).queue
  pub outside : (a : ℕ) → names ds a ≡ false → f' a ≡ f a
  pub owned : (a : ℕ) → (f a).is_owned ≡ true → f' a ≡ f a

module _ (debug_locks : Bool) (c : ℕ) where
  pub finish-enough :
      (n m : ℕ) (ds : List LockUsageDesc) (o : Option ℕ) (w : World)
      → n ≤ m
      → finish_acquisition debug_locks c n ds (m, o) w
        ≡ ok (true, o) (set_lock_set c (record (w.lock_set c) { all_locks_acquired = true }) w)
  unfolding finish_acquisition
  finish-enough n m ds o w h = ground arith

  pub finish-short :
      (n m : ℕ) (ds : List LockUsageDesc) (o : Option ℕ) (w w' : World)
      → m < n
      → back_off_locks debug_locks c n m ds w ≡ ok tt w'
      → finish_acquisition debug_locks c n ds (m, o) w ≡ ok (false, o) w'
  unfolding finish_acquisition
  finish-short n m ds o w w' h e = rw (lt→ltb m n h) (rw (e, ◌>>◌))

  pub attempt :
      (w : World) (r : ℕ × Option ℕ) (w1 : World)
      → IsReady c w
      → acquire_locks debug_locks c (length (w.lock_set c).locks) (w.lock_set c).locks 0 w ≡ ok r w1
      → try_acquire_or_back_off debug_locks c w
        ≡ finish_acquisition debug_locks c (length (w.lock_set c).locks) (w.lock_set c).locks r w1
  unfolding try_acquire_or_back_off
  attempt w r w1 h e = rw (h.registered, h.not_acquired) (rw (e, ◌>>=◌))

pub all_available :
    (n c : ℕ) (f : ℕ → Qutex) (ds : List LockUsageDesc)
    → n_available n c f ds ≡ length ds
    → (a : ℕ) → names ds a ≡ true
    → available n c (f a) ≡ true
all_available n c f [] e a h = cc
all_available n c f (x ∷ ds) e a h = elim (Bool-cases (x.qutex == a)) [
  | inl here ↦ subst (λ (b : ℕ). available n c (f b) ≡ true) ((==_iff _ _).0 here) (ground arith)
  | inr other ↦ all_available n c f ds (ground arith) a (rw other at h)
]

pub names-take :
    (i : ℕ) (ds : List LockUsageDesc) (a : ℕ) → names ds a ≡ false → names (take i ds) a ≡ false
names-take zero ds a h = refl
names-take (suc i) [] a h = refl
names-take (suc i) (x ∷ ds) a h = ground (arith, names-take i ds a)

pub backed_off-perm :
    (debug_locks b : Bool) (n c : ℕ) (q : Qutex)
    → Perm (if b then backed_off debug_locks n c (owned_by debug_locks c q) else q).queue q.queue
backed_off-perm debug_locks true n c q = requeued-perm n c q.queue
backed_off-perm debug_locks false n c q = Perm.refl q.queue

pub backed_off_unowned :
    (debug_locks b : Bool) (n c : ℕ) (q : Qutex)
    → (b ≡ true → q.is_owned ≡ false)
    → (if b then backed_off debug_locks n c (owned_by debug_locks c q) else q).is_owned ≡ q.is_owned
backed_off_unowned debug_locks true n c q h = sym (h refl)
backed_off_unowned debug_locks false n c q h = refl

pub backed_off-owned :
    (debug_locks b : Bool) (n c : ℕ) (q : Qutex)
    → (b ≡ true → q.is_owned ≡ false)
    → q.is_owned ≡ true
    → (if b then backed_off debug_locks n c (owned_by debug_locks c q) else q) ≡ q
backed_off-owned debug_locks true n c q h k = absurd (false≢true (sym (h refl) ∙ k))
backed_off-owned debug_locks false n c q h k = refl

-- Taking and giving back `m` locks.
pub taken_and_given :
    (debug_locks : Bool) (n c : ℕ) (taken : List LockUsageDesc) (f f' : ℕ → Qutex)
    → DistinctLocks taken
    → ((a : ℕ)
        → f' a ≡ (
            if names taken a
            then backed_off debug_locks n c (own_all debug_locks c taken f a)
            else own_all debug_locks c taken f a))
    → (a : ℕ)
    → f' a
      ≡ (if names taken a then backed_off debug_locks n c (owned_by debug_locks c (f a)) else f a)
taken_and_given debug_locks n c taken f f' d at a =
    at a ∙ rw (own_all-names debug_locks c taken f a d) (ground arith)
