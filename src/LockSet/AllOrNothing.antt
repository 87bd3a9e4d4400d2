-- ===== src/LockSet/AllOrNothing.antt =====
-- `LockSet::tryAcquireOrBackOff` takes all the locks or none.
use libspinscale.Base.{
  ℕ, zero, suc, ◌≤◌, ◌<◌, ◌≡◌, refl, ◌∙◌, Bool, true, false, Option, none, some, List, take,
  if◌then◌else◌, length, arith, inl, inr, update, ◌⊎◌,
}
use native.Mathlib.Nat.{zero-add}
use native.Mathlib.Decide.{dec_lt}
use libspinscale.Outcome.{ok}
use libspinscale.Qutex.TryAcquire.{owned_by}
use libspinscale.World.{World, LockUsageDesc}
use libspinscale.LockSet.{acquire_locks, back_off_locks, try_acquire_or_back_off, set_lock_set}
use libspinscale.LockSet.Taking.{
  AllWaiting, DistinctLocks, names, own_all, available, n_available, acquire_locks-available,
}
use libspinscale.LockSet.BackingOff.{
  backed_off, own_all-names, DistinctLocks-take, back_off_locks-names,
}
use libspinscale.LockSet.Attempt.{
  IsReady, AllWaiting-own_all, n_available-le, available-names, first_refusing-Refuses, take-length,
  first_refusing-none, IsRestored, finish-enough, finish-short, attempt, all_available, names-take,
  backed_off-perm, backed_off_unowned, backed_off-owned, taken_and_given,
}

module _ (debug_locks : Bool) (c : ℕ) (w : World) where
  abbrev locks_of : List LockUsageDesc
  locks_of = (w.lock_set c).locks

  -- Every lock was available, and every one is owned now.
  pub record TookAll (r : Bool × Option ℕ) (w' : World) : Type 0 where
    pub result : r ≡ (true, none)
    pub were_available :
        (a : ℕ) → names locks_of a ≡ true → available (length locks_of) c (w.qutex a) ≡ true
    pub owned :
        (a : ℕ)
        → w'.qutex a ≡ (if names locks_of a then owned_by debug_locks c (w.qutex a) else w.qutex a)
    pub acquired :
        w'.lock_set ≡ update w.lock_set c (record (w.lock_set c) { all_locks_acquired = true })

  -- A listed lock was not available; it is reported, and nothing is kept.
  pub record TookNone (r : Bool × Option ℕ) (w' : World) : Type 0 where
    pub refusing : ℕ
    pub result : r ≡ (false, some refusing)
    pub listed : names locks_of refusing ≡ true
    pub unavailable : available (length locks_of) c (w.qutex refusing) ≡ false
    pub restored : IsRestored locks_of w.qutex w'.qutex
    pub lock_sets : w'.lock_set ≡ w.lock_set

  take_all :
      IsReady c w
      → 0 < length locks_of
      → n_available (length locks_of) c w.qutex locks_of ≡ length locks_of
      → (r : Bool × Option ℕ) × (w' : World) × (try_acquire_or_back_off debug_locks c w ≡ ok r w')
        × TookAll r w'
  take_all h p all =
      let n = length locks_of in
      let w1 : World = record w { qutex = own_all debug_locks c locks_of w.qutex } in
      let took : acquire_locks debug_locks c n locks_of 0 w ≡ ok (n, none) w1 =
        acquire_locks-available debug_locks c n p locks_of 0 w h.distinct h.waiting
        ∙ (rw
            (all, first_refusing-none n c w.qutex locks_of all, take-length locks_of, zero-add)) in
      (
        (true, none),
        set_lock_set c (record (w.lock_set c) { all_locks_acquired = true }) w1,
        attempt debug_locks c w (n, none) w1 h took
            ∙ finish-enough debug_locks c n n locks_of none w1 (omega arith),
        record {
          result = refl;
          were_available = all_available n c w.qutex locks_of all;
          owned = λ a. own_all-names debug_locks c locks_of w.qutex a h.distinct;
          acquired = refl;
        },
      )

  -- Giving back `m` locks; a request for one lock has none to give back.
  give_back_some :
      (n m : ℕ) (w1 : World)
      → m < n
      → m ≤ length locks_of
      → DistinctLocks locks_of
      → AllWaiting c (w1.lock_set c) w1.qutex locks_of
      → (w' : World) × (back_off_locks debug_locks c n m locks_of w1 ≡ ok tt w')
        × (w'.lock_set ≡ w1.lock_set)
        × ((a : ℕ)
            → w'.qutex a ≡ (
                if names (take m locks_of) a
                then backed_off debug_locks n c (w1.qutex a)
                else w1.qutex a))
  unfolding back_off_locks
  give_back_some n zero w1 lt le d h = (w1, refl, refl, λ a. refl)
  give_back_some n (suc m) w1 lt le d h =
      back_off_locks-names debug_locks c n (omega arith) (suc m) locks_of w1 le d h

  take_none :
      IsReady c w
      → 0 < length locks_of
      → n_available (length locks_of) c w.qutex locks_of < length locks_of
      → (r : Bool × Option ℕ) × (w' : World) × (try_acquire_or_back_off debug_locks c w ≡ ok r w')
        × TookNone r w'
  take_none h p short =
      let n = length locks_of in
      let m = n_available n c w.qutex locks_of in
      let taken = take m locks_of in
      let d = DistinctLocks-take m locks_of h.distinct in
      let w1 : World = record w { qutex = own_all debug_locks c taken w.qutex } in
      let (refusing, first, r) = first_refusing-Refuses n c w.qutex locks_of short in
      let took : acquire_locks debug_locks c n locks_of 0 w ≡ ok (m, some refusing) w1 =
        acquire_locks-available debug_locks c n p locks_of 0 w h.distinct h.waiting
        ∙ (rw (first, zero-add)) in
      let (w', gave, sets, at) =
        give_back_some n m w1 short (omega arith) h.distinct
          (AllWaiting-own_all debug_locks c (w.lock_set c) w.qutex taken locks_of d h.waiting) in
      let after = taken_and_given debug_locks n c taken w.qutex w'.qutex d at in
      (
        (false, some refusing),
        w',
        attempt debug_locks c w (m, some refusing) w1 h took
            ∙ finish-short debug_locks c n m locks_of (some refusing) w1 w' short gave,
        record {
          refusing = refusing;
          result = refl;
          listed = r.listed;
          unavailable = r.refusing;
          restored = record {
            ownership = λ a. rw (after a) (
                backed_off_unowned debug_locks (names taken a) n c (w.qutex a)
                  (available-names n c w.qutex locks_of a));
            waiters =
                λ a. rw (after a) (backed_off-perm debug_locks (names taken a) n c (w.qutex a));
            outside = λ a out. after a ∙ (rw (names-take m locks_of a out));
            owned = λ a o.
                after a
                ∙ backed_off-owned debug_locks (names taken a) n c (w.qutex a)
                    (available-names n c w.qutex locks_of a) o;
          };
          lock_sets = sets;
        },
      )

  -- Let a continuation's lock set be registered and not acquired, list at least one qutex and none
  -- twice, and let each listed qutex have a free spin lock and queue the continuation once, under
  -- the stored iterator. Then the attempt returns. Either every lock was available and all are
  -- owned by the continuation now, or it reports a listed lock that was not available, and every
  -- qutex is owned or unowned as before, with the same waiters.
  pub try_acquire_or_back_off-total :
      IsReady c w
      → 0 < length locks_of
      → (r : Bool × Option ℕ) × (w' : World) × (try_acquire_or_back_off debug_locks c w ≡ ok r w')
        × (TookAll r w' ⊎ TookNone r w')
  try_acquire_or_back_off-total h p =
      elim (dec_lt (n_available (length locks_of) c w.qutex locks_of) (length locks_of)) [
        | yes short ↦
            let (r, w', ran, none_taken) = take_none h p short in (r, w', ran, inr none_taken)
        | no enough ↦
            let (r, w', ran, all_taken) =
              take_all h p (omega (arith, n_available-le (length locks_of) c w.qutex locks_of)) in
            (r, w', ran, inl all_taken)
      ]
