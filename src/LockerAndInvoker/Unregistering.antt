-- ===== src/LockerAndInvoker/Unregistering.antt =====
-- A continuation that leaves the queues of all its qutexes.
use libspinscale.Base.{
  ℕ, ◌≡◌, refl, sym, ◌∙◌, ◌≢◌, ap, subst, true, none, some, List, [], ◌∷◌, update, ◌==◌, arith,
  Bool-cases, inl, inr, ==_iff, update_ne, update_self, ==_false,
}
use libspinscale.Outcome.{ok}
use libspinscale.Qutex.{Entry, Qutex, IsUnlocked, find_node, erase_node}
use libspinscale.Qutex.Positions.{Absent, Distinct}
use libspinscale.Qutex.Registration.{unregister_lem}
use libspinscale.World.{World, LockSet, LockUsageDesc, get_lock_usage_desc, lockvoker_for}
use libspinscale.LockSet.{unregister_locks}
use libspinscale.LockSet.LookingUp.{LooksUp, LooksUp-self}
use libspinscale.LockSet.Taking.{AllWaiting, Unnamed, DistinctLocks, names}

-- The queue without the entry of the iterator.
abbrev pub unqueued : ℕ → Qutex → Qutex
unqueued it q = record q { queue = erase_node it q.queue }

abbrev pub unqueue_all : List LockUsageDesc → (ℕ → Qutex) → ℕ → Qutex
unqueue_all [] f = f
unqueue_all (d ∷ ds) f = unqueue_all ds (update f d.qutex (unqueued d.iterator (f d.qutex)))

-- The stored iterator is that of the continuation's own entry.
pub record IsRegistered (c : ℕ) (d : LockUsageDesc) (q : Qutex) : Type 0 where
  pub unlocked : IsUnlocked q
  pub distinct : Distinct q.queue
  pub entry : Entry
  pub found : find_node d.iterator q.queue ≡ some entry
  pub own : entry.lockvoker ≡ c

abbrev pub AllRegistered : ℕ → List LockUsageDesc → (ℕ → Qutex) → Type 0
AllRegistered c [] f = Unit
AllRegistered c (d ∷ ds) f = IsRegistered c d (f d.qutex) × AllRegistered c ds f

AllRegistered-update :
    (c : ℕ) (ds : List LockUsageDesc) (f : ℕ → Qutex) (a : ℕ) (q : Qutex)
    → Unnamed a ds
    → AllRegistered c ds f
    → AllRegistered c ds (update f a q)
AllRegistered-update c [] f a q u h = tt
AllRegistered-update c (d ∷ ds) f a q u h = (
  subst (IsRegistered c d) (sym (update_ne f a q d.qutex (λ e. u.0 (sym e)))) h.0,
  AllRegistered-update c ds f a q u.1 h.1,
)

pub unregister_locks-unqueue_all :
    (c : ℕ) (ds : List LockUsageDesc) (w : World)
    → DistinctLocks ds
    → AllRegistered c ds w.qutex
    → unregister_locks ds w ≡ ok tt (record w { qutex = unqueue_all ds w.qutex })
unfolding unregister_locks
unregister_locks-unqueue_all c [] w d h = refl
unregister_locks-unqueue_all c (x ∷ ds) w d h =
    let q = unqueued x.iterator (w.qutex x.qutex) in
    let rest =
      unregister_locks-unqueue_all c ds (record w { qutex = update w.qutex x.qutex q }) d.1
        (AllRegistered-update c ds w.qutex x.qutex q d.0 h.1) in
    ground (arith, unregister_lem x.iterator true (w.qutex x.qutex) h.0.unlocked h.0.found, rest)

unqueue_all-Unnamed :
    (ds : List LockUsageDesc) (f : ℕ → Qutex) (a : ℕ) → Unnamed a ds → unqueue_all ds f a ≡ f a
unqueue_all-Unnamed [] f a u = refl
unqueue_all-Unnamed (d ∷ ds) f a u =
    unqueue_all-Unnamed ds (update f d.qutex (unqueued d.iterator (f d.qutex))) a u.1
    ∙ update_ne f d.qutex (unqueued d.iterator (f d.qutex)) a u.0

-- Each qutex is changed through its own iterator alone.
pub unqueue_all-at :
    (ds : List LockUsageDesc) (f : ℕ → Qutex) (a : ℕ)
    → DistinctLocks ds
    → unqueue_all ds f a
      ≡ (elim (get_lock_usage_desc ds a) [ none ↦ f a | some d ↦ unqueued d.iterator (f a) ])
unfolding get_lock_usage_desc
unqueue_all-at [] f a h = refl
unqueue_all-at (d ∷ ds) f a h = elim (Bool-cases (d.qutex == a)) [
  | inl here ↦
      let same = (==_iff _ _).0 here in
      let at =
        unqueue_all-Unnamed ds (update f d.qutex (unqueued d.iterator (f d.qutex))) d.qutex h.0 in
      rw here (
        subst
          (λ (x : ℕ).
            unqueue_all ds (update f d.qutex (unqueued d.iterator (f d.qutex))) x
            ≡ unqueued d.iterator (f x))
          same (at ∙ update_self f d.qutex (unqueued d.iterator (f d.qutex))))
  | inr elsewhere ↦ rw elsewhere (
      unqueue_all-at ds (update f d.qutex (unqueued d.iterator (f d.qutex))) a h.1
      ∙ ap
          (λ (q : Qutex). (elim (get_lock_usage_desc ds a) [
            | none ↦ q
            | some e ↦ unqueued e.iterator q
          ]))
          (update_ne f d.qutex (unqueued d.iterator (f d.qutex)) a (==_false elsewhere)))
]

AllWaiting-AllRegistered :
    (c : ℕ) (s : LockSet) (f : ℕ → Qutex) (ds : List LockUsageDesc)
    → LooksUp s.locks ds
    → AllWaiting c s f ds
    → AllRegistered c ds f
unfolding lockvoker_for
AllWaiting-AllRegistered c s f [] l h = tt
AllWaiting-AllRegistered c s f (d ∷ ds) l h = (
  record {
    unlocked = h.0.unlocked;
    distinct = h.0.distinct;
    entry = h.0.iterator.entry;
    found = ground (arith, l.0, h.0.iterator.stored, h.0.iterator.found);
    own = h.0.iterator.own;
  },
  AllWaiting-AllRegistered c s f ds l.1 h.1,
)

pub AllRegistered-waiting :
    (c : ℕ) (s : LockSet) (f : ℕ → Qutex)
    → DistinctLocks s.locks
    → AllWaiting c s f s.locks
    → AllRegistered c s.locks f
AllRegistered-waiting c s f d h = AllWaiting-AllRegistered c s f s.locks (LooksUp-self s.locks d) h

find_node-Absent :
    (it lv : ℕ) (es : List Entry) {e : Entry}
    → Absent lv es
    → find_node it es ≡ some e
    → e.lockvoker ≢ lv
unfolding find_node
find_node-Absent it lv [] a h = cc
find_node-Absent it lv (x ∷ es) {e} a h = elim (Bool-cases (x.node == it)) [
  | inl here ↦ λ same. a.0 (ground (arith, here, h, same))
  | inr elsewhere ↦ find_node-Absent it lv es a.1 (rw elsewhere at h)
]

erase_node-Absent :
    (it lv : ℕ) (es : List Entry) {e : Entry}
    → Distinct es
    → find_node it es ≡ some e
    → e.lockvoker ≡ lv
    → Absent lv (erase_node it es)
unfolding find_node erase_node
erase_node-Absent it lv [] d h own = tt
erase_node-Absent it lv (x ∷ es) {e} d h own = elim (Bool-cases (x.node == it)) [
  | inl here ↦
      let same : x.lockvoker ≡ lv = ground (arith, here, h, own) in
      rw here (subst (λ (v : ℕ). Absent v es) same d.0)
  | inr elsewhere ↦
      let later : find_node it es ≡ some e = rw elsewhere at h in
      rw elsewhere (
        (λ same. find_node-Absent it x.lockvoker es d.0 later (own ∙ sym same)),
        erase_node-Absent it lv es d.1 later own,
      )
]

-- Afterwards the continuation is in no queue of its own.
pub unqueue_all-Absent :
    (c : ℕ) (ds : List LockUsageDesc) (f : ℕ → Qutex) (a : ℕ)
    → DistinctLocks ds
    → AllRegistered c ds f
    → names ds a ≡ true
    → Absent c (unqueue_all ds f a).queue
unqueue_all-Absent c [] f a d h n = cc
unqueue_all-Absent c (x ∷ ds) f a d h n = elim (Bool-cases (x.qutex == a)) [
  | inl here ↦
      subst (λ (y : ℕ). Absent c (unqueue_all (x ∷ ds) f y).queue) ((==_iff _ _).0 here)
        (subst (λ (q : Qutex). Absent c q.queue)
          (sym (
            unqueue_all-Unnamed ds (update f x.qutex (unqueued x.iterator (f x.qutex))) x.qutex d.0
            ∙ update_self f x.qutex (unqueued x.iterator (f x.qutex))))
          (erase_node-Absent x.iterator c (f x.qutex).queue h.0.distinct h.0.found h.0.own))
  | inr elsewhere ↦
      unqueue_all-Absent c ds (update f x.qutex (unqueued x.iterator (f x.qutex))) a d.1
        (AllRegistered-update c ds f x.qutex (unqueued x.iterator (f x.qutex)) d.0 h.1)
        (rw elsewhere at n)
]
