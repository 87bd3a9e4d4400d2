-- ===== src/LockerAndInvoker/Draining.antt =====
-- Continuations that wait for one qutex only, run by their io_services one after another.
use libspinscale.Base.{
  ℕ, zero, suc, ◌≡◌, refl, sym, ◌∙◌, ap, subst, Bool, true, false, none, some, List, [], ◌∷◌, ◌++◌,
  map, update, ◌==◌, arith, length, update_self, update_ne, ==_refl, Bool-cases, inl, inr,
}
use mathlib.Core.List.{append_assoc, append-nil}
use libspinscale.Outcome.{M, ok, ◌>>=◌, ◌>>◌, return}
use libspinscale.Qutex.{Entry, Qutex, IsUnlocked}
use libspinscale.Qutex.Backoff.{given_back}
use libspinscale.Qutex.Release.{front?}
use libspinscale.World.{World, LockSet, awaken_waiter, awaken_waiter-qutex, awaken_waiter-lock_set}
use libspinscale.LockSet
use libspinscale.LockerAndInvoker.{
  Process, invoked_target, asleep, call, call_original_cb, run_target,
}
use libspinscale.LockerAndInvoker.Serving.{
  single, owned_world, left_world, done_world, left_qutex, attempt-front, unregister-front,
  release-served,
}
use libspinscale.LockerAndInvoker.Lines.{
  first_post, IsLine, AllSingle-update, awaken_waiter-target, awaken_front-posted,
  awaken_front-AllAsleep,
}

module _ (debug_locks : Bool) where
  -- An io_service runs the oldest posted lockvoker on its thread, before the time limit; a target that
  -- was invoked completes at once and calls back.
  unfoldable pub run_posted : M Process (Unit {0})
  run_posted p = elim p.world.posted [
    | [] ↦ ok tt p
    | job ∷ rest ↦
        (do
          verdict ← call debug_locks (some job.0) false job.1
          elim verdict [
            | invoked_target ↦ call_original_cb debug_locks job.1
            | asleep _ _ ↦ return tt
          ])
          (record p { world = record p.world { posted = rest } })
  ]

  pub run_all_posted : ℕ → M Process (Unit {0})
  run_all_posted zero p = ok tt p
  run_all_posted (suc n) p = (do run_posted; run_all_posted n) p

module _ (debug_locks : Bool) (a : ℕ) where
  call_original_cb-world :
      (c : ℕ) (p : Process) (w' : World)
      → LockSet.release debug_locks c p.world ≡ ok tt w'
      → (p' : Process) × (call_original_cb debug_locks c p ≡ ok tt p')
        × (p'.world ≡ w')
        × (p'.invoked ≡ p.invoked)
  unfolding call_original_cb
  call_original_cb-world c p w' e = elim (Bool-cases (p.has_callback c)) [
    | inl yes_ ↦ (
      record p { world = w'; callbacks = p.callbacks ++ (p.caller_thread c, c) ∷ [] },
      ground (arith, e, yes_),
      refl,
      refl,
    )
    | inr no_ ↦ (record p { world = w' }, ground (arith, e, no_), refl, refl)
  ]

  call-invoked :
      (c : ℕ) (p : Process) (w1 w2 : World)
      → LockSet.try_acquire_or_back_off debug_locks c p.world ≡ ok (true, none) w1
      → LockSet.unregister_from_qutex_queues c w1 ≡ ok tt w2
      → call debug_locks (some (p.world.target c)) false c p
        ≡ ok invoked_target (record p { world = w2; invoked = p.invoked ++ c ∷ [] })
  unfolding call run_target
  call-invoked c p w1 w2 e k =
      let same : (p.world.target c == p.world.target c) ≡ true = ==_refl (p.world.target c) in
      elim (Bool-cases debug_locks) [
        | inl b ↦ ground (arith, b, same, e, k)
        | inr b ↦ ground (arith, b, same, e, k)
      ]

  -- The world behind one continuation, given that its post was taken out.
  done-IsLine :
      (e : Entry) (es : List Entry) (w : World) (h : IsLine a (e ∷ es) w)
      → IsLine a es (
          done_world debug_locks a e es
            (record w { posted = [] })
            h.single_.0
            h.queue
            h.distinct
            h.unlocked
            h.unowned)
  done-IsLine e es w h =
      let c = e.lockvoker in
      let w0 : World = record w { posted = [] } in
      let q =
        left_qutex debug_locks a e es w0 h.single_.0 h.queue h.distinct h.unlocked h.unowned in
      let w2 =
        left_world debug_locks a e es w0 h.single_.0 h.queue h.distinct h.unlocked h.unowned in
      let o = front? es in
      let back = given_back debug_locks es q in
      let v : World = record w2 { qutex = update w2.qutex a back } in
      let at : (awaken_waiter o v).qutex a ≡ back =
        ap (λ (f : ℕ → Qutex). f a) (awaken_waiter-qutex o v) ∙ update_self w2.qutex a back in
      let acquired : LockSet = record (single a e) { all_locks_acquired = true } in
      record {
        unlocked = subst IsUnlocked (sym at) h.unlocked;
        unowned = ap (λ (r : Qutex). r.is_owned) at;
        queue = ap (λ (r : Qutex). r.queue) at;
        distinct = h.distinct.1;
        single_ =
            AllSingle-update c a w.lock_set
              (update (awaken_waiter o v).lock_set c
                (record ((awaken_waiter o v).lock_set c) { all_locks_acquired = false }))
              es
              (λ d n.
                update_ne (awaken_waiter o v).lock_set c
                  (record ((awaken_waiter o v).lock_set c) { all_locks_acquired = false }) d n
                ∙ ap (λ (f : ℕ → LockSet). f d) (awaken_waiter-lock_set o v)
                ∙ update_ne w.lock_set c acquired d n)
              h.distinct.0 h.single_.1;
        posted =
            awaken_front-posted es v refl h.asleep_
            ∙ ap (λ (t : ℕ → ℕ). first_post t es) (sym (awaken_waiter-target o v));
        asleep_ = awaken_front-AllAsleep es v h.distinct.1 h.asleep_;
      }

  run_posted-IsLine :
      (e : Entry) (es : List Entry) (p : Process)
      → IsLine a (e ∷ es) p.world
      → (p' : Process) × (run_posted debug_locks p ≡ ok tt p')
        × (p'.invoked ≡ p.invoked ++ e.lockvoker ∷ [])
        × IsLine a es p'.world
  unfolding run_posted
  run_posted-IsLine e es p h =
      let c = e.lockvoker in
      let w : World = record p.world { posted = [] } in
      let k = h.single_.0 in
      let w1 = owned_world debug_locks a e es w in
      let w2 = left_world debug_locks a e es w k h.queue h.distinct h.unlocked h.unowned in
      let w3 = done_world debug_locks a e es w k h.queue h.distinct h.unlocked h.unowned in
      let taken = attempt-front debug_locks a e es w k h.queue h.distinct h.unlocked h.unowned in
      let left = unregister-front debug_locks a e es w k h.queue h.distinct h.unlocked h.unowned in
      let done = release-served debug_locks a e es w k h.queue h.distinct h.unlocked h.unowned in
      let p0 : Process = record p { world = w } in
      let p1 : Process = record p { world = w2; invoked = p.invoked ++ c ∷ [] } in
      let called = call-invoked c p0 w1 w2 taken left in
      let (p2, back, world, invoked) = call_original_cb-world c p1 w3 done in
      (
        p2,
        ground (arith, h.posted, called, back),
        invoked,
        subst (IsLine a es) (sym world) (done-IsLine e es p.world h),
      )

  -- Let a free qutex with a free spin lock hold a queue of distinct continuations, each of which
  -- waits for that qutex and nothing else, with the front posted, nobody else posted and the
  -- others asleep. Let each posted lockvoker be run on its thread before the time limit, and each
  -- target that is invoked complete at once and call back. Then as many runs as there are waiters
  -- return, have invoked every waiter once and in the order of the queue, and leave the qutex
  -- free, its queue empty and nothing posted.
  pub run_all_posted-IsLine :
      (es : List Entry) (p : Process)
      → IsLine a es p.world
      → (p' : Process) × (run_all_posted debug_locks (length es) p ≡ ok tt p')
        × (p'.invoked ≡ p.invoked ++ map (λ (e : Entry). e.lockvoker) es)
        × IsLine a [] p'.world
  unfolding run_all_posted
  run_all_posted-IsLine [] p h = (p, refl, sym (append-nil p.invoked), h)
  run_all_posted-IsLine (e ∷ es) p h =
      let (p1, ran, one, line) = run_posted-IsLine e es p h in
      let (p2, all, invoked, empty) = run_all_posted-IsLine es p1 line in
      (
        p2,
        ground (arith, ran, all),
        invoked
            ∙ ap (λ (l : List ℕ). l ++ map (λ (x : Entry). x.lockvoker) es) one
            ∙ append_assoc p.invoked (e.lockvoker ∷ []) (map (λ (x : Entry). x.lockvoker) es),
        empty,
      )
