-- ===== src/LockerAndInvoker/FirstWake.antt =====
-- The first wake of a lockvoker: it enters the queues of all its qutexes and is posted.
use libspinscale.Base.{
  ℕ, ◌≡◌, refl, sym, ◌∙◌, subst, true, false, some, List, [], ◌∷◌, ◌++◌, update, arith, update_ne,
  update_self,
}
use libspinscale.Outcome.{ok}
use libspinscale.Qutex.{Entry, Qutex, IsUnlocked}
use libspinscale.Qutex.Positions.{Absent, Distinct, InQueue, Distinct-concat}
use libspinscale.Qutex.Nodes.{WellFormed}
use libspinscale.Qutex.Registration.{registered, register_in_queue_lem, registered-found}
use libspinscale.World.{World, LockSet, LockUsageDesc, get_lock_usage_desc, lockvoker_for, awaken}
use libspinscale.LockSet.{register_locks, register_in_qutex_queues}
use libspinscale.LockSet.Taking.{IsWaiting, AllWaiting, Unnamed, DistinctLocks}
use libspinscale.LockSet.Attempt.{IsReady}
use libspinscale.LockerAndInvoker.{first_wake}
use libspinscale.LockSet.LookingUp.{LooksUp, LooksUp-self}

-- A qutex that the continuation may enter.
pub record IsOpen (c : ℕ) (q : Qutex) : Type 0 where
  pub unlocked : IsUnlocked q
  pub well_formed : WellFormed q
  pub distinct : Distinct q.queue
  pub absent : Absent c q.queue

abbrev pub AllOpen : ℕ → List LockUsageDesc → (ℕ → Qutex) → Type 0
AllOpen c [] f = Unit
AllOpen c (d ∷ ds) f = IsOpen c (f d.qutex) × AllOpen c ds f

abbrev pub stored : (ℕ → Qutex) → List LockUsageDesc → List LockUsageDesc
stored f [] = []
stored f (d ∷ ds) = record d { iterator = (f d.qutex).next_node } ∷ stored f ds

abbrev pub enqueue_all : ℕ → List LockUsageDesc → (ℕ → Qutex) → ℕ → Qutex
enqueue_all c [] f = f
enqueue_all c (d ∷ ds) f = enqueue_all c ds (update f d.qutex (registered c (f d.qutex)))

AllOpen-update :
    (c : ℕ) (ds : List LockUsageDesc) (f : ℕ → Qutex) (a : ℕ) (q : Qutex)
    → Unnamed a ds
    → AllOpen c ds f
    → AllOpen c ds (update f a q)
AllOpen-update c [] f a q u h = tt
AllOpen-update c (d ∷ ds) f a q u h = (
  subst (IsOpen c) (sym (update_ne f a q d.qutex (λ e. u.0 (sym e)))) h.0,
  AllOpen-update c ds f a q u.1 h.1,
)

stored-update :
    (ds : List LockUsageDesc) (f : ℕ → Qutex) (a : ℕ) (q : Qutex)
    → Unnamed a ds
    → stored (update f a q) ds ≡ stored f ds
stored-update [] f a q u = refl
stored-update (d ∷ ds) f a q u =
    rw (update_ne f a q d.qutex (λ e. u.0 (sym e)), stored-update ds f a q u.1)

register_locks-enqueue_all :
    (c : ℕ) (ds : List LockUsageDesc) (w : World)
    → DistinctLocks ds
    → AllOpen c ds w.qutex
    → register_locks c ds w ≡ ok (stored w.qutex ds) (record w { qutex = enqueue_all c ds w.qutex })
unfolding register_locks
register_locks-enqueue_all c [] w d h = refl
register_locks-enqueue_all c (x ∷ ds) w d h =
    let q = registered c (w.qutex x.qutex) in
    let rest =
      register_locks-enqueue_all c ds (record w { qutex = update w.qutex x.qutex q }) d.1
        (AllOpen-update c ds w.qutex x.qutex q d.0 h.1) in
    ground (
      arith,
      register_in_queue_lem c (w.qutex x.qutex) h.0.unlocked,
      rest,
      stored-update ds w.qutex x.qutex q d.0,
    )

enqueue_all-Unnamed :
    (c : ℕ) (ds : List LockUsageDesc) (f : ℕ → Qutex) (a : ℕ)
    → Unnamed a ds
    → enqueue_all c ds f a ≡ f a
enqueue_all-Unnamed c [] f a u = refl
enqueue_all-Unnamed c (d ∷ ds) f a u =
    enqueue_all-Unnamed c ds (update f d.qutex (registered c (f d.qutex))) a u.1
    ∙ update_ne f d.qutex (registered c (f d.qutex)) a u.0

enqueue_all-head :
    (c : ℕ) (d : LockUsageDesc) (ds : List LockUsageDesc) (f : ℕ → Qutex)
    → Unnamed d.qutex ds
    → enqueue_all c (d ∷ ds) f d.qutex ≡ registered c (f d.qutex)
enqueue_all-head c d ds f u =
    enqueue_all-Unnamed c ds (update f d.qutex (registered c (f d.qutex))) d.qutex u
    ∙ update_self f d.qutex (registered c (f d.qutex))

InQueue-concat : (c : ℕ) (es : List Entry) (e : Entry) → e.lockvoker ≡ c → InQueue c (es ++ e ∷ [])
InQueue-concat c [] e h = ground (arith, h)
InQueue-concat c (x ∷ es) e h = ground (arith, InQueue-concat c es e h)

registered-IsWaiting :
    (c : ℕ) (s : LockSet) (q : Qutex) (d : LockUsageDesc)
    → IsOpen c q
    → d.iterator ≡ q.next_node
    → get_lock_usage_desc s.locks d.qutex ≡ some d
    → IsWaiting c s (registered c q) d.qutex
unfolding lockvoker_for
registered-IsWaiting c s q d h i l =
    let e : Entry = record { node = q.next_node; lockvoker = c } in
    record {
      unlocked = h.unlocked;
      distinct = Distinct-concat q.queue e h.distinct h.absent;
      queued = InQueue-concat c q.queue e refl;
      iterator = record {
        it = q.next_node;
        entry = e;
        stored = ground (arith, l, i);
        found = registered-found c q h.well_formed;
        own = refl;
      };
    }

stored-Unnamed :
    (f : ℕ → Qutex) (a : ℕ) (ds : List LockUsageDesc) → Unnamed a ds → Unnamed a (stored f ds)
stored-Unnamed f a [] u = tt
stored-Unnamed f a (d ∷ ds) u = (u.0, stored-Unnamed f a ds u.1)

stored-DistinctLocks :
    (f : ℕ → Qutex) (ds : List LockUsageDesc) → DistinctLocks ds → DistinctLocks (stored f ds)
stored-DistinctLocks f [] d = tt
stored-DistinctLocks f (x ∷ ds) d = (stored-Unnamed f x.qutex ds d.0, stored-DistinctLocks f ds d.1)

module _ (c : ℕ) (s : LockSet) where
  AllWaiting-enqueue_all :
      (ds : List LockUsageDesc) (f : ℕ → Qutex)
      → DistinctLocks ds
      → AllOpen c ds f
      → LooksUp s.locks (stored f ds)
      → AllWaiting c s (enqueue_all c ds f) (stored f ds)
  AllWaiting-enqueue_all [] f d h l = tt
  AllWaiting-enqueue_all (x ∷ ds) f d h l =
      let q = registered c (f x.qutex) in
      let same : stored (update f x.qutex q) ds ≡ stored f ds = stored-update ds f x.qutex q d.0 in
      (
        subst (λ (r : Qutex). IsWaiting c s r x.qutex) (sym (enqueue_all-head c x ds f d.0))
            (registered-IsWaiting c s (f x.qutex) (record x { iterator = (f x.qutex).next_node })
              h.0 refl l.0),
        subst (λ (es : List LockUsageDesc). AllWaiting c s (enqueue_all c (x ∷ ds) f) es) same
            (AllWaiting-enqueue_all ds (update f x.qutex q) d.1
              (AllOpen-update c ds f x.qutex q d.0 h.1)
              (subst (λ (es : List LockUsageDesc). LooksUp s.locks es) (sym same) l.1)),
      )

-- Let a lock set not be acquired and name no qutex twice, and let each of its qutexes be
-- well-formed, with a free spin lock, no lockvoker queued twice, and the continuation not queued.
-- Then the first wake returns, the lock set can be attempted, one post of the lockvoker to its
-- thread was added, and the awake flag is on.
pub first_wake-IsReady :
    (c : ℕ) (w : World)
    → (w.lock_set c).all_locks_acquired ≡ false
    → DistinctLocks (w.lock_set c).locks
    → AllOpen c (w.lock_set c).locks w.qutex
    → (w' : World) × (first_wake c w ≡ ok tt w')
      × IsReady c w'
      × (w'.posted ≡ w.posted ++ (w.target c, c) ∷ [])
      × (w'.is_awake c ≡ true)
unfolding first_wake register_in_qutex_queues awaken
first_wake-IsReady c w a d h =
    let ds = (w.lock_set c).locks in
    let s : LockSet = record (w.lock_set c) {
      locks = stored w.qutex ds;
      registered_in_qutex_queues = true;
    } in
    let awake = update w.is_awake c true in
    let w1 : World = record w { is_awake = awake } in
    let entered = register_locks-enqueue_all c ds w1 d h in
    let set : update w.lock_set c s c ≡ s = update_self w.lock_set c s in
    let distinct = stored-DistinctLocks w.qutex ds d in
    (
      record w {
        qutex = enqueue_all c ds w.qutex;
        lock_set = update w.lock_set c s;
        is_awake = update awake c true;
        posted = w.posted ++ (w.target c, c) ∷ [];
      },
      ground (arith, entered),
      record {
        registered = rw set;
        not_acquired = rw set a;
        distinct = rw set distinct;
        waiting =
            rw set (
              AllWaiting-enqueue_all c s ds w.qutex d h
                (LooksUp-self (stored w.qutex ds) distinct));
      },
      refl,
      update_self awake c true,
    )
