-- ===== src/LockSet/Queueing.antt =====
-- Registering, unregistering and awakening change neither the owners of qutexes nor what is held.
use libspinscale.Base.{
  ℕ, ◌≡◌, refl, sym, ◌∙◌, ap, subst, Bool, true, ◌&&◌, List, [], ◌∷◌, update, arith, Bool-cases,
  inl, inr, update_ne, update_self,
}
use native.Mathlib.Decide.{ℕ_discrete}
use libspinscale.Outcome.{Outcome-cases, M, ok}
use libspinscale.Qutex
use libspinscale.Qutex.{Qutex, IsUnlocked}
use libspinscale.Qutex.Release.{Recorded}
use libspinscale.World.{World, LockSet, LockUsageDesc, on_qutex, awaken}
use libspinscale.LockSet.{
  register_locks, register_in_qutex_queues, unregister_locks, unregister_from_qutex_queues,
  set_lock_set,
}
use libspinscale.LockSet.Taking.{names}
use libspinscale.LockSet.Releasing.{pending}
use libspinscale.LockSet.Exclusion.{IsReleasable, holds, holds_in, Exclusive, Exclusive-update}

-- What is known of the owner of a qutex: a change of the queue keeps it.
pub record SameOwner (q q' : Qutex) : Type 0 where
  owned : q'.is_owned ≡ q.is_owned
  owner : q'.curr_owner ≡ q.curr_owner
  unlocked : IsUnlocked q'

pub SameOwner-IsReleasable :
    (debug_locks : Bool) {q q' : Qutex}
    → SameOwner q q'
    → IsReleasable debug_locks q
    → IsReleasable debug_locks q'
SameOwner-IsReleasable debug_locks s h =
    let k = h.held in
    record {
      unlocked = s.unlocked;
      held = record {
        owned = s.owned ∙ k.owned;
        recorded = subst (Recorded debug_locks) (sym s.owner) k.recorded;
      };
    }

-- What can be released still can be, and the lock sets are as before.
record Same (w w' : World) : Type 0 where
  owners :
      (debug_locks : Bool) (a : ℕ)
      → IsReleasable debug_locks (w.qutex a)
      → IsReleasable debug_locks (w'.qutex a)
  lock_set : w'.lock_set ≡ w.lock_set

Same-Same : {w w' w'' : World} → Same w w' → Same w' w'' → Same w w''
Same-Same h k = record {
  owners = λ b a x. k.owners b a (h.owners b a x);
  lock_set = k.lock_set ∙ h.lock_set;
}

pub register-owned :
    (lv : ℕ) (q q' : Qutex) (it : ℕ) → Qutex.register_in_queue lv q ≡ ok it q' → SameOwner q q'
unfolding Qutex.register_in_queue
register-owned lv q q' it e = record {
  owned = ground (arith, e);
  owner = ground (arith, e);
  unlocked = ground (arith, e);
}

pub unregister-owned :
    (it : ℕ) (q q' : Qutex) → Qutex.unregister_from_queue it true q ≡ ok tt q' → SameOwner q q'
unfolding Qutex.unregister_from_queue
unregister-owned it q q' e = record {
  owned = ground (arith, e);
  owner = ground (arith, e);
  unlocked = ground (arith, e);
}

update-owned :
    (debug_locks : Bool) (f : ℕ → Qutex) (a : ℕ) (q : Qutex)
    → SameOwner (f a) q
    → (b : ℕ) → IsReleasable debug_locks (f b)
    → IsReleasable debug_locks (update f a q b)
update-owned debug_locks f a q e b h = elim (ℕ_discrete a b) [
  | yes k ↦
      subst (λ (i : ℕ). IsReleasable debug_locks (update f a q i)) k
        (subst (IsReleasable debug_locks) (sym (update_self f a q)) (
          SameOwner-IsReleasable debug_locks e
            (subst (λ (i : ℕ). IsReleasable debug_locks (f i)) (sym k) h)))
  | no k ↦ subst (IsReleasable debug_locks) (sym (update_ne f a q b k)) h
]

on_qutex-Same :
    {A : Type 0} (a : ℕ) (m : M Qutex A) (w w' : World) (x : A)
    → ((q' : Qutex) → m (w.qutex a) ≡ ok x q' → SameOwner (w.qutex a) q')
    → on_qutex a m w ≡ ok x w'
    → Same w w'
on_qutex-Same {A = A} a m w w' x keeps e = elim (Outcome-cases (m (w.qutex a))) [
  | inl (y, q, r) ↦
      let now : w' ≡ record w { qutex = update w.qutex a q } = ground (arith, r, e) in
      let got : y ≡ x = ground (arith, r, e) in
      let kept = keeps q (r ∙ ap (λ (z : A). ok z q) got) in
      record {
        owners = λ k b h.
            subst (λ (v : World). IsReleasable k (v.qutex b)) (sym now)
              (update-owned k w.qutex a q kept b h);
        lock_set = ap (λ (v : World). v.lock_set) now;
      }
  | inr (k, q, r) ↦ absurd (ground (arith, r, e))
]

pending-iterator :
    (d : LockUsageDesc) (it : ℕ) (ds rest : List LockUsageDesc) (a : ℕ)
    → names (pending rest) a ≡ names (pending ds) a
    → names (pending (record d { iterator = it } ∷ rest)) a ≡ names (pending (d ∷ ds)) a
pending-iterator d it ds rest a h = ground (arith, h)

register_locks-Same :
    (c : ℕ) (ds ds' : List LockUsageDesc) (w w' : World)
    → register_locks c ds w ≡ ok ds' w'
    → Same w w' × ((a : ℕ) → names (pending ds') a ≡ names (pending ds) a)
unfolding register_locks
register_locks-Same c [] ds' w w' e =
    let now : w' ≡ w = ground (arith, e) in
    let none_left : ds' ≡ [] = ground (arith, e) in
    (
      record {
        owners = λ b a h. subst (λ (v : World). IsReleasable b (v.qutex a)) (sym now) h;
        lock_set = ap (λ (v : World). v.lock_set) now;
      },
      λ a. ap (λ (l : List LockUsageDesc). names (pending l) a) none_left,
    )
register_locks-Same c (d ∷ ds) ds' w w' e =
    elim (Outcome-cases (on_qutex d.qutex (Qutex.register_in_queue c) w)) [
      | inl (it, w1, r) ↦ elim (Outcome-cases (register_locks c ds w1)) [
        | inl (rest, w2, k) ↦
            let now : w' ≡ w2 = ground (arith, r, k, e) in
            let locks : ds' ≡ record d { iterator = it } ∷ rest = ground (arith, r, k, e) in
            let one =
              on_qutex-Same d.qutex (Qutex.register_in_queue c) w w1 it
                (λ q' h. register-owned c (w.qutex d.qutex) q' it h) r in
            let (later, same) = register_locks-Same c ds rest w1 w2 k in
            (
              subst (Same w) (sym now) (Same-Same one later),
              λ a.
                  ap (λ (l : List LockUsageDesc). names (pending l) a) locks
                  ∙ pending-iterator d it ds rest a (same a),
            )
        | inr (x, w2, k) ↦ absurd (ground (arith, r, k, e))
      ]
      | inr (x, w1, r) ↦ absurd (ground (arith, r, e))
    ]

unregister_locks-Same :
    (ds : List LockUsageDesc) (w w' : World) → unregister_locks ds w ≡ ok tt w' → Same w w'
unfolding unregister_locks
unregister_locks-Same [] w w' e =
    let now : w' ≡ w = ground (arith, e) in
    record {
      owners = λ b a h. subst (λ (v : World). IsReleasable b (v.qutex a)) (sym now) h;
      lock_set = ap (λ (v : World). v.lock_set) now;
    }
unregister_locks-Same (d ∷ ds) w w' e =
    elim (Outcome-cases (on_qutex d.qutex (Qutex.unregister_from_queue d.iterator true) w)) [
      | inl (x, w1, r) ↦
          let later : unregister_locks ds w1 ≡ ok tt w' = ground (arith, r, e) in
          Same-Same
            (on_qutex-Same d.qutex (Qutex.unregister_from_queue d.iterator true) w w1 tt
              (λ q' h. unregister-owned d.iterator (w.qutex d.qutex) q' h) r)
            (unregister_locks-Same ds w1 w' later)
      | inr (x, w1, r) ↦ absurd (ground (arith, r, e))
    ]

awaken-Same : (c : ℕ) (b : Bool) (w : World) → Same w (awaken c b w)
unfolding awaken
awaken-Same c b w =
    let qutexes : (awaken c b w).qutex ≡ w.qutex = ground arith in
    record {
      owners = λ k a h. subst (λ (f : ℕ → Qutex). IsReleasable k (f a)) (sym qutexes) h;
      lock_set = ground arith;
    }

Same-Exclusive :
    (debug_locks : Bool) {w w' : World}
    → Same w w'
    → Exclusive debug_locks w
    → Exclusive debug_locks w'
Same-Exclusive debug_locks {w} {w'} k h =
    let same : (d a : ℕ) → holds w' d a ≡ holds w d a =
      λ d a. ap (λ (f : ℕ → LockSet). holds_in (f d) a) k.lock_set in
    record {
      apart = λ d e a x y. h.apart d e a (sym (same d a) ∙ x) (sym (same e a) ∙ y);
      owned = λ d a x. k.owners debug_locks a (h.owned d a (sym (same d a) ∙ x));
    }

pub unregister-Exclusive :
    (debug_locks : Bool) (c : ℕ) (w w' : World)
    → unregister_from_qutex_queues c w ≡ ok tt w'
    → Exclusive debug_locks w
    → Exclusive debug_locks w'
unfolding unregister_from_qutex_queues
unregister-Exclusive debug_locks c w w' e h =
    elim (Bool-cases (w.lock_set c).registered_in_qutex_queues) [
      | inl r ↦
          Same-Exclusive debug_locks
            (unregister_locks-Same (w.lock_set c).locks w w' (ground (arith, r, e))) h
      | inr r ↦ absurd (ground (arith, r, e))
    ]

pub register-Exclusive :
    (debug_locks : Bool) (c : ℕ) (w w' : World)
    → register_in_qutex_queues c w ≡ ok tt w'
    → Exclusive debug_locks w
    → Exclusive debug_locks w'
unfolding register_in_qutex_queues
register-Exclusive debug_locks c w w' e h =
    elim (Outcome-cases (register_locks c (w.lock_set c).locks w)) [
      | inl (locks, w1, r) ↦
          let s : LockSet = record (w1.lock_set c) {
            locks = locks;
            registered_in_qutex_queues = true;
          } in
          let now : w' ≡ set_lock_set c s w1 = ground (arith, r, e) in
          let (k, same) = register_locks-Same c (w.lock_set c).locks locks w w1 r in
          let before = Same-Exclusive debug_locks k h in
          let as_before : (a : ℕ) → holds_in s a ≡ true → holds w1 c a ≡ true = λ a x.
            ap
              (λ (l : List LockUsageDesc).
                (w1.lock_set c).all_locks_acquired && names (pending l) a)
              (ap (λ (f : ℕ → LockSet). (f c).locks) k.lock_set)
            ∙ ap (λ (b : Bool). (w1.lock_set c).all_locks_acquired && b) (sym (same a))
            ∙ x in
          subst (Exclusive debug_locks) (sym now) (
            Exclusive-update debug_locks w1 (set_lock_set c s w1) c s refl before
              (λ a x.
                let mine = as_before a x in
                (before.owned c a mine, λ d n y. n (before.apart c d a mine y)))
              (λ d a n y. before.owned d a y))
      | inr (x, w1, r) ↦ absurd (ground (arith, r, e))
    ]

pub awaken-Exclusive :
    (debug_locks : Bool) (c : ℕ) (b : Bool) (w : World)
    → Exclusive debug_locks w
    → Exclusive debug_locks (awaken c b w)
unfolding awaken
awaken-Exclusive debug_locks c b w h = Same-Exclusive debug_locks (awaken-Same c b w) h
