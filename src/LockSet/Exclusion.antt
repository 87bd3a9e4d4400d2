-- ===== src/LockSet/Exclusion.antt =====
-- What continuations hold, and what an attempt and the two releases do to it.
use libspinscale.Base.{
  ℕ, ◌≡◌, ◌≢◌, refl, List, [], ◌∷◌, ◌==◌, ==_iff, sym, ◌∙◌, ap, subst, inl, inr, Bool, true, false,
  ◌&&◌, Option, some, update, length, Bool-cases, update_ne, update_self,
}
use mathlib.Core.Bool.{false≢true}
use native.Mathlib.Decide.{ℕ_discrete}
use libspinscale.Qutex.{Qutex, IsUnlocked}
use libspinscale.Qutex.Release.{IsHeld}
use libspinscale.Qutex.TryAcquire.{owned_by}
use libspinscale.World.{World, LockSet, LockUsageDesc, get_lock_usage_desc}
use libspinscale.LockSet.{mark_released}
use libspinscale.LockSet.Taking.{names, DistinctLocks, AllWaiting}
use libspinscale.LockSet.Attempt.{IsReady, available-unowned}
use libspinscale.LockSet.AllOrNothing.{TookAll, TookNone}
use libspinscale.LockSet.EarlyRelease.{
  names-pending, get_lock_usage_desc-pending, mark_released-pending, ReleasedEarly,
}
use libspinscale.LockSet.Releasing.{pending, Released, freed}

-- The continuation `c` has acquired its lock set, which names the qutex at `a`, and has not released
-- that qutex early.
abbrev pub holds : World → ℕ → ℕ → Bool
holds w c a = (w.lock_set c).all_locks_acquired && names (pending (w.lock_set c).locks) a

-- A qutex that can be released: owned, in a debug build with a recorded owner, its spin lock free.
pub record IsReleasable (debug_locks : Bool) (q : Qutex) : Type 0 where
  pub unlocked : IsUnlocked q
  pub held : IsHeld debug_locks q

-- One continuation at most holds a qutex, and a qutex that is held can be released.
pub record Exclusive (debug_locks : Bool) (w : World) : Type 0 where
  pub apart : (c d a : ℕ) → holds w c a ≡ true → holds w d a ≡ true → c ≡ d
  pub owned : (c a : ℕ) → holds w c a ≡ true → IsReleasable debug_locks (w.qutex a)

-- The same for one lock set.
abbrev pub holds_in : LockSet → ℕ → Bool
holds_in s a = s.all_locks_acquired && names (pending s.locks) a

-- An operation of `c` that writes its own lock set: what `c` holds afterwards is owned and held by no
-- other, and what others hold stays owned.
pub Exclusive-update :
    (debug_locks : Bool) (w w' : World) (c : ℕ) (s : LockSet)
    → w'.lock_set ≡ update w.lock_set c s
    → Exclusive debug_locks w
    → ((a : ℕ)
        → holds_in s a ≡ true
        → IsReleasable debug_locks (w'.qutex a) × ((d : ℕ) → c ≢ d → holds w d a ≡ true → ⊥))
    → ((d a : ℕ) → c ≢ d → holds w d a ≡ true → IsReleasable debug_locks (w'.qutex a))
    → Exclusive debug_locks w'
Exclusive-update debug_locks w w' c s e h new old =
    let at : (d : ℕ) → w'.lock_set d ≡ update w.lock_set c s d =
      λ d. ap (λ (f : ℕ → LockSet). f d) e in
    let self : (a : ℕ) → holds w' c a ≡ holds_in s a =
      λ a. ap (λ (l : LockSet). holds_in l a) (at c ∙ update_self w.lock_set c s) in
    let other : (d a : ℕ) → c ≢ d → holds w' d a ≡ holds w d a =
      λ d a n. ap (λ (l : LockSet). holds_in l a) (at d ∙ update_ne w.lock_set c s d n) in
    record {
      apart = λ d d' a x y. elim (ℕ_discrete c d) [
        | yes k ↦ elim (ℕ_discrete c d') [
          | yes k' ↦ sym k ∙ k'
          | no k' ↦ absurd (
              (new a (sym (self a) ∙ subst (λ (i : ℕ). holds w' i a ≡ true) (sym k) x)).1 d' k'
                (sym (other d' a k') ∙ y))
        ]
        | no k ↦ elim (ℕ_discrete c d') [
          | yes k' ↦ absurd (
              (new a (sym (self a) ∙ subst (λ (i : ℕ). holds w' i a ≡ true) (sym k') y)).1 d k
                (sym (other d a k) ∙ x))
          | no k' ↦ h.apart d d' a (sym (other d a k) ∙ x) (sym (other d' a k') ∙ y)
        ]
      ];
      owned = λ d a x. elim (ℕ_discrete c d) [
        | yes k ↦ (new a (sym (self a) ∙ subst (λ (i : ℕ). holds w' i a ≡ true) (sym k) x)).0
        | no k ↦ old d a k (sym (other d a k) ∙ x)
      ];
    }

owned_by-IsReleasable :
    (debug_locks : Bool) (c : ℕ) (q : Qutex)
    → IsUnlocked q
    → IsReleasable debug_locks (owned_by debug_locks c q)
owned_by-IsReleasable true c q u = record {
  unlocked = u;
  held = record { owned = refl; recorded = tt };
}
owned_by-IsReleasable false c q u = record {
  unlocked = u;
  held = record { owned = refl; recorded = tt };
}

AllWaiting-unlocked :
    (c : ℕ) (s : LockSet) (f : ℕ → Qutex) (ds : List LockUsageDesc) (a : ℕ)
    → AllWaiting c s f ds
    → names ds a ≡ true
    → IsUnlocked (f a)
AllWaiting-unlocked c s f [] a h n = absurd (false≢true n)
AllWaiting-unlocked c s f (x ∷ ds) a h n = elim (Bool-cases (x.qutex == a)) [
  | inl here ↦ subst (λ (b : ℕ). IsUnlocked (f b)) ((==_iff _ _).0 here) h.0.unlocked
  | inr other ↦ AllWaiting-unlocked c s f ds a h.1 (rw other at n)
]

module _ (debug_locks : Bool) where
  pub taken-Exclusive :
      (c : ℕ) (w w' : World) (r : Bool × Option ℕ)
      → IsReady c w
      → TookAll debug_locks c w r w'
      → Exclusive debug_locks w
      → Exclusive debug_locks w'
  taken-Exclusive c w w' r ready t h =
      let locks = (w.lock_set c).locks in
      let s : LockSet = record (w.lock_set c) { all_locks_acquired = true } in
      let clash : (d a : ℕ) → names locks a ≡ true → holds w d a ≡ true → ⊥ = λ d a n y.
        let o = (h.owned d a y).held in
        false≢true
          (sym (available-unowned (length locks) c (w.qutex a) (t.were_available a n)) ∙ o.owned) in
      Exclusive-update debug_locks w w' c s t.acquired h
        (λ a x.
          let named = names-pending locks a x in
          let now : w'.qutex a ≡ owned_by debug_locks c (w.qutex a) = rw named at (t.owned a) in
          (
            subst (IsReleasable debug_locks) (sym now) (
                owned_by-IsReleasable debug_locks c (w.qutex a)
                  (AllWaiting-unlocked c (w.lock_set c) w.qutex locks a ready.waiting named)),
            λ d n y. clash d a named y,
          ))
        (λ d a n y. elim (Bool-cases (names locks a)) [
          | inl named ↦ absurd (clash d a named y)
          | inr unnamed ↦
              let same : w'.qutex a ≡ w.qutex a = rw unnamed at (t.owned a) in
              subst (IsReleasable debug_locks) (sym same) (h.owned d a y)
        ])

  pub none-Exclusive :
      (c : ℕ) (w w' : World) (r : Bool × Option ℕ)
      → TookNone debug_locks c w r w'
      → Exclusive debug_locks w
      → Exclusive debug_locks w'
  none-Exclusive c w w' r t h =
      let same : (d a : ℕ) → holds w' d a ≡ holds w d a = λ d a.
        ap (λ (f : ℕ → LockSet). (f d).all_locks_acquired && names (pending (f d).locks) a)
          t.lock_sets in
      record {
        apart = λ d e a x y. h.apart d e a (sym (same d a) ∙ x) (sym (same e a) ∙ y);
        owned = λ d a x.
            let before = h.owned d a (sym (same d a) ∙ x) in
            let o = before.held in
            subst (IsReleasable debug_locks) (sym (t.restored.owned a o.owned)) before;
      }

  pub release-Exclusive :
      (c : ℕ) (w w' : World)
      → (w.lock_set c).all_locks_acquired ≡ true
      → Released debug_locks (pending (w.lock_set c).locks) w w'
      → w'.lock_set ≡ update w.lock_set c (record (w.lock_set c) { all_locks_acquired = false })
      → Exclusive debug_locks w
      → Exclusive debug_locks w'
  release-Exclusive c w w' acquired r e h =
      let ds = pending (w.lock_set c).locks in
      Exclusive-update debug_locks w w' c (record (w.lock_set c) { all_locks_acquired = false }) e h
        (λ a x. absurd (false≢true x))
        (λ d a n y. elim (Bool-cases (names ds a)) [
          | inl named ↦ absurd (n (h.apart c d a (rw (acquired, named)) y))
          | inr unnamed ↦
              let same : w'.qutex a ≡ w.qutex a = rw unnamed at (r.freed_named a) in
              subst (IsReleasable debug_locks) (sym same) (h.owned d a y)
        ])

  pub early_release-Exclusive :
      (c a : ℕ) (w w' : World) (x : LockUsageDesc)
      → (w.lock_set c).all_locks_acquired ≡ true
      → DistinctLocks (w.lock_set c).locks
      → get_lock_usage_desc (w.lock_set c).locks a ≡ some x
      → x.has_been_released ≡ false
      → ReleasedEarly debug_locks c a w x w'
      → Exclusive debug_locks w
      → Exclusive debug_locks w'
  early_release-Exclusive c a w w' x acquired distinct found early r h =
      let ds = (w.lock_set c).locks in
      let held : holds w c a ≡ true =
        rw (acquired, get_lock_usage_desc-pending ds a x found early) in
      let kept : (b : ℕ) → a ≢ b → w'.qutex b ≡ w.qutex b = λ b n.
        ap (λ (f : ℕ → Qutex). f b) r.qutex
        ∙ update_ne w.qutex a (freed debug_locks (w.qutex a)) b n in
      Exclusive-update debug_locks w w' c
        (record (w.lock_set c) { locks = mark_released debug_locks c a ds }) r.lock_set h
        (λ b y.
          let (n, k) = mark_released-pending debug_locks c ds a b distinct (rw acquired at y) in
          let mine : holds w c b ≡ true = rw (acquired, k) in
          (
            subst (IsReleasable debug_locks) (sym (kept b n)) (h.owned c b mine),
            λ d o z. o (h.apart c d b mine z),
          ))
        (λ d b n y.
          subst (IsReleasable debug_locks)
            (sym (kept b (λ e. n (h.apart c d b (subst (λ (i : ℕ). holds w c i ≡ true) e held) y))))
            (h.owned d b y))
