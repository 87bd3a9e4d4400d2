-- ===== src/LockSet/Releasing.antt =====
-- `LockSet::release`: every lock that was not released early is given back.
use mathlib.Core.List.{append-nil, append_assoc}
use libspinscale.Base.{
  ℕ, ◌≡◌, refl, sym, ◌∙◌, ap, subst, Bool, true, false, Option, none, some, List, [], ◌∷◌, ◌++◌,
  update, if◌then◌else◌, ◌==◌, arith, Bool-cases, inl, inr, ==_iff, update_ne, update_self,
  ==_false, fun_ext,
}
use libspinscale.Outcome.{ok}
use libspinscale.Qutex.{Entry, Qutex, IsUnlocked}
use libspinscale.Qutex.Backoff.{given_back}
use libspinscale.Qutex.Release.{front?, IsHeld, release-front}
use libspinscale.World.{
  World, LockSet, LockUsageDesc, awaken, awaken_waiter, awaken_waiter-qutex, awaken_waiter-lock_set,
}
use libspinscale.LockSet.{release_locks, release, awaken_front, set_lock_set}
use libspinscale.LockSet.Taking.{Unnamed, DistinctLocks, names}
use libspinscale.LockSet.BackingOff.{names-cons}

-- The locks that were not released early.
abbrev pub pending : List LockUsageDesc → List LockUsageDesc
pending [] = []
pending (d ∷ ds) = if d.has_been_released then pending ds else d ∷ pending ds

abbrev pub AllHeld : Bool → List LockUsageDesc → (ℕ → Qutex) → Type 0
AllHeld debug_locks [] f = Unit
AllHeld debug_locks (d ∷ ds) f =
    (IsUnlocked (f d.qutex) × IsHeld debug_locks (f d.qutex)) × AllHeld debug_locks ds f

abbrev pub freed : Bool → Qutex → Qutex
freed debug_locks q = given_back debug_locks q.queue q

pub pending-Unnamed : (a : ℕ) (ds : List LockUsageDesc) → Unnamed a ds → Unnamed a (pending ds)
pending-Unnamed a [] u = tt
pending-Unnamed a (d ∷ ds) u = elim (Bool-cases d.has_been_released) [
  | inl released ↦ rw released (pending-Unnamed a ds u.1)
  | inr held ↦ rw held (u.0, pending-Unnamed a ds u.1)
]

AllHeld-update :
    (debug_locks : Bool) (ds : List LockUsageDesc) (f : ℕ → Qutex) (a : ℕ) (q : Qutex)
    → Unnamed a ds
    → AllHeld debug_locks ds f
    → AllHeld debug_locks ds (update f a q)
AllHeld-update debug_locks [] f a q u h = tt
AllHeld-update debug_locks (d ∷ ds) f a q u h = (
  subst (λ (r : Qutex). IsUnlocked r × IsHeld debug_locks r)
      (sym (update_ne f a q d.qutex (λ e. u.0 (sym e)))) h.0,
  AllHeld-update debug_locks ds f a q u.1 h.1,
)

awaken_waiter-keeps :
    (o : Option ℕ) (w : World) (v : ℕ) → w.is_awake v ≡ true → (awaken_waiter o w).is_awake v ≡ true
unfolding awaken_waiter awaken
awaken_waiter-keeps none w v h = h
awaken_waiter-keeps (some c) w v h = ground arith

awaken_waiter-awake : (c : ℕ) (w : World) → (awaken_waiter (some c) w).is_awake c ≡ true
unfolding awaken_waiter awaken
awaken_waiter-awake c w = ground arith

-- A front is posted to its thread if it was asleep, and is awake for what follows.
abbrev pub post_front : Option ℕ → (ℕ → Bool) → (ℕ → ℕ) → ((ℕ → Bool) → List (ℕ × ℕ)) → List (ℕ × ℕ)
post_front none is_awake target rest = rest is_awake
post_front (some v) is_awake target rest =
    if is_awake v
    then rest (update is_awake v true)
    else (target v, v) ∷ rest (update is_awake v true)

-- The fronts of the named qutexes that are asleep, each once, with their threads.
abbrev pub sleeping_fronts : List LockUsageDesc → (ℕ → Qutex) → (ℕ → Bool) → (ℕ → ℕ) → List (ℕ × ℕ)
sleeping_fronts [] f is_awake target = []
sleeping_fronts (d ∷ ds) f is_awake target =
    post_front (front? (f d.qutex).queue) is_awake target
      (λ awake. sleeping_fronts ds f awake target)

sleeping_fronts-update :
    (a : ℕ) (q : Qutex) (ds : List LockUsageDesc) (f : ℕ → Qutex) (is_awake : ℕ → Bool)
    (target : ℕ → ℕ)
    → Unnamed a ds
    → sleeping_fronts ds (update f a q) is_awake target ≡ sleeping_fronts ds f is_awake target
sleeping_fronts-update a q [] f is_awake target u = refl
sleeping_fronts-update a q (d ∷ ds) f is_awake target u =
    let same = update_ne f a q d.qutex (λ e. u.0 (sym e)) in
    ap
      (λ (r : Qutex).
        post_front (front? r.queue) is_awake target
          (λ awake. sleeping_fronts ds (update f a q) awake target))
      same
    ∙ ap (post_front (front? (f d.qutex).queue) is_awake target)
        (fun_ext (λ awake. sleeping_fronts-update a q ds f awake target u.1))

awaken_waiter-posts :
    (o : Option ℕ) (w : World) (rest : (ℕ → Bool) → List (ℕ × ℕ))
    → (awaken_waiter o w).posted ++ rest (awaken_waiter o w).is_awake
      ≡ w.posted ++ post_front o w.is_awake w.target rest
unfolding awaken_waiter awaken
awaken_waiter-posts none w rest = refl
awaken_waiter-posts (some v) w rest = elim (Bool-cases (w.is_awake v)) [
  | inl flagged ↦ rw flagged refl
  | inr asleep ↦
      rw asleep (append_assoc w.posted ((w.target v, v) ∷ []) (rest (update w.is_awake v true)))
]

awaken_waiter-target : (o : Option ℕ) (w : World) → (awaken_waiter o w).target ≡ w.target
unfolding awaken_waiter awaken
awaken_waiter-target none w = refl
awaken_waiter-target (some v) w = ground arith

module _ (debug_locks : Bool) where
  -- The named qutexes are free with their queues as before, and their fronts are awake, those
  -- that were asleep having been posted.
  pub record Released (held : List LockUsageDesc) (w w' : World) : Type 0 where
    pub freed_named :
        (a : ℕ) → w'.qutex a ≡ (if names held a then freed debug_locks (w.qutex a) else w.qutex a)
    pub fronts_awake :
        (a : ℕ) (e : Entry) (es : List Entry)
        → names held a ≡ true
        → (w.qutex a).queue ≡ e ∷ es
        → w'.is_awake e.lockvoker ≡ true
    pub posts : w'.posted ≡ w.posted ++ sleeping_fronts held w.qutex w.is_awake w.target
    pub still_awake : (v : ℕ) → w.is_awake v ≡ true → w'.is_awake v ≡ true

  -- The world after the release of the lock at `a`.
  abbrev after_one : ℕ → World → World
  after_one a w =
      awaken_waiter (front? (w.qutex a).queue)
        (record w { qutex = update w.qutex a (freed debug_locks (w.qutex a)) })

  front_awake :
      (a : ℕ) (w : World) (e : Entry) (es : List Entry)
      → (w.qutex a).queue ≡ e ∷ es
      → (after_one a w).is_awake e.lockvoker ≡ true
  front_awake a w e es h =
      let after = record w { qutex = update w.qutex a (freed debug_locks (w.qutex a)) } in
      subst
        (λ (queue : List Entry). (awaken_waiter (front? queue) after).is_awake e.lockvoker ≡ true)
        (sym h) (awaken_waiter-awake e.lockvoker after)

  posts-cons :
      (x : LockUsageDesc) (held : List LockUsageDesc) (w w' : World)
      → Unnamed x.qutex held
      → w'.posted
        ≡ (after_one x.qutex w).posted
          ++ sleeping_fronts held
              (after_one x.qutex w).qutex
              (after_one x.qutex w).is_awake
              (after_one x.qutex w).target
      → w'.posted ≡ w.posted ++ sleeping_fronts (x ∷ held) w.qutex w.is_awake w.target
  posts-cons x held w w' u e =
      let q = freed debug_locks (w.qutex x.qutex) in
      let f1 = update w.qutex x.qutex q in
      let o = front? (w.qutex x.qutex).queue in
      let w1 = awaken_waiter o (record w { qutex = f1 }) in
      e
      ∙ ap (λ (f : ℕ → Qutex). w1.posted ++ sleeping_fronts held f w1.is_awake w1.target)
          (awaken_waiter-qutex o (record w { qutex = f1 }))
      ∙ ap (λ (g : ℕ → ℕ). w1.posted ++ sleeping_fronts held f1 w1.is_awake g)
          (awaken_waiter-target o (record w { qutex = f1 }))
      ∙ ap (λ (l : List (ℕ × ℕ)). w1.posted ++ l)
          (sleeping_fronts-update x.qutex q held w.qutex w1.is_awake w.target u)
      ∙ awaken_waiter-posts o (record w { qutex = f1 })
          (λ awake. sleeping_fronts held w.qutex awake w.target)

  Released-cons :
      (x : LockUsageDesc) (held : List LockUsageDesc) (w w' : World)
      → Unnamed x.qutex held
      → Released held (after_one x.qutex w) w'
      → Released (x ∷ held) w w'
  Released-cons x held w w' u h =
      let f1 = update w.qutex x.qutex (freed debug_locks (w.qutex x.qutex)) in
      let same : (after_one x.qutex w).qutex ≡ f1 =
        awaken_waiter-qutex (front? (w.qutex x.qutex).queue) (record w { qutex = f1 }) in
      record {
        freed_named =
            λ a. h.freed_named a ∙ (rw same (names-cons (freed debug_locks) w.qutex x held a u));
        fronts_awake = λ a e es n q. elim (Bool-cases (x.qutex == a)) [
          | inl here ↦
              let at : (w.qutex x.qutex).queue ≡ e ∷ es =
                ap (λ (b : ℕ). (w.qutex b).queue) ((==_iff _ _).0 here) ∙ q in
              h.still_awake e.lockvoker (front_awake x.qutex w e es at)
          | inr other ↦ h.fronts_awake a e es (rw other at n) (
              rw same (
                ap (λ (r : Qutex). r.queue)
                  (update_ne w.qutex x.qutex (freed debug_locks (w.qutex x.qutex)) a
                    (==_false other))
                ∙ q))
        ];
        posts = posts-cons x held w w' u h.posts;
        still_awake = λ v awake. h.still_awake v (
            awaken_waiter-keeps (front? (w.qutex x.qutex).queue) (record w { qutex = f1 }) v awake);
      }

  release_locks-Released :
      (c : ℕ) (ds : List LockUsageDesc) (w : World)
      → DistinctLocks ds
      → AllHeld debug_locks (pending ds) w.qutex
      → (w' : World) × (release_locks debug_locks c ds w ≡ ok tt w')
        × (w'.lock_set ≡ w.lock_set)
        × Released (pending ds) w w'
  unfolding release_locks awaken_front
  release_locks-Released c [] w d h = (
    w,
    refl,
    refl,
    record {
      freed_named = λ a. refl;
      fronts_awake = λ a e es n q. cc;
      posts = sym (append-nil w.posted);
      still_awake = λ v k. k;
    },
  )
  release_locks-Released c (x ∷ ds) w d h = elim (Bool-cases x.has_been_released) [
    | inl released ↦
        let (w', ran, sets, r) = release_locks-Released c ds w d.1 (rw released at h) in
        (w', rw (released, release_locks) ran, sets, rw released r)
    | inr held ↦
        let e : pending (x ∷ ds) ≡ x ∷ pending ds = ground (arith, held) in
        let k : (IsUnlocked (w.qutex x.qutex) × IsHeld debug_locks (w.qutex x.qutex))
            × AllHeld debug_locks (pending ds) w.qutex =
          subst (λ (l : List LockUsageDesc). AllHeld debug_locks l w.qutex) e h in
        let one = release-front debug_locks (w.qutex x.qutex) k.0.0 k.0.1 in
        let f1 = update w.qutex x.qutex (freed debug_locks (w.qutex x.qutex)) in
        let o = front? (w.qutex x.qutex).queue in
        let same = awaken_waiter-qutex o (record w { qutex = f1 }) in
        let u = pending-Unnamed x.qutex ds d.0 in
        let (w', ran, sets, r) = release_locks-Released c ds (after_one x.qutex w) d.1 (
          subst (AllHeld debug_locks (pending ds)) (sym same) (
            AllHeld-update debug_locks (pending ds) w.qutex x.qutex
              (freed debug_locks (w.qutex x.qutex)) u k.1)) in
        (
          w',
          ground (arith, held, one, ran),
          sets ∙ awaken_waiter-lock_set o (record w { qutex = f1 }),
          subst (λ (l : List LockUsageDesc). Released l w w') (sym e)
              (Released-cons x (pending ds) w w' u r),
        )
  ]

  -- The release, with the lock sets of all continuations.
  pub release-lock_set :
      (c : ℕ) (w : World)
      → (w.lock_set c).registered_in_qutex_queues ≡ true
      → (w.lock_set c).all_locks_acquired ≡ true
      → DistinctLocks (w.lock_set c).locks
      → AllHeld debug_locks (pending (w.lock_set c).locks) w.qutex
      → (w' : World) × (release debug_locks c w ≡ ok tt w')
        × Released (pending (w.lock_set c).locks) w w'
        × (w'.lock_set ≡ update w.lock_set c (record (w.lock_set c) { all_locks_acquired = false }))
  unfolding release
  release-lock_set c w registered acquired d h =
      let (w1, ran, sets, r) = release_locks-Released c (w.lock_set c).locks w d h in
      let s = record (w1.lock_set c) { all_locks_acquired = false } in
      (
        set_lock_set c s w1,
        ground (arith, registered, acquired, ran),
        record {
          freed_named = r.freed_named;
          fronts_awake = r.fronts_awake;
          posts = r.posts;
          still_awake = r.still_awake;
        },
        ap (λ (f : ℕ → LockSet). update f c (record (f c) { all_locks_acquired = false })) sets,
      )

  -- Let a lock set be registered and acquired, name no qutex twice, and let every qutex that was
  -- not released early be owned, with a free spin lock and, in a debug build, a recorded owner.
  -- Then the release returns; these qutexes are unowned with their queues as before, and the
  -- others as they were; the front of each of these queues is awake, and was posted to its thread
  -- if it was asleep; and the lock set is not acquired any more.
  pub release-Released :
      (c : ℕ) (w : World)
      → (w.lock_set c).registered_in_qutex_queues ≡ true
      → (w.lock_set c).all_locks_acquired ≡ true
      → DistinctLocks (w.lock_set c).locks
      → AllHeld debug_locks (pending (w.lock_set c).locks) w.qutex
      → (w' : World) × (release debug_locks c w ≡ ok tt w')
        × Released (pending (w.lock_set c).locks) w w'
        × ((w'.lock_set c).all_locks_acquired ≡ false)
  release-Released c w registered acquired d h =
      let (w', ran, r, sets) = release-lock_set c w registered acquired d h in
      let s = record (w.lock_set c) { all_locks_acquired = false } in
      (
        w',
        ran,
        r,
        ap (λ (f : ℕ → LockSet). (f c).all_locks_acquired) sets
            ∙ ap (λ (l : LockSet). l.all_locks_acquired) (update_self w.lock_set c s),
      )
