-- ===== src/LockSet/Stepwise/Advances.antt =====
-- Every call of a LockSet method.
use mathlib.Core.List.{append-nil}
use libspinscale.Base.{
  ℕ, zero, suc, ◌≡◌, refl, sym, ◌∙◌, ap, subst, inl, inr, Bool, true, false, Option, none, List, [],
  ◌∷◌, ◌++◌, update_same, arith, Bool-cases,
}
use libspinscale.Outcome.{ok}
use libspinscale.Qutex
use libspinscale.Qutex.{Qutex}
use libspinscale.World.{
  World, LockUsageDesc, awaken_waiter, awaken_waiter-qutex, awaken_waiter-lock_set,
}
use libspinscale.LockSet.{awaken_front, mark_released}
use libspinscale.LockSet.Releasing.{pending, pending-Unnamed}
use libspinscale.LockSet.EarlyRelease.{mark_released-pending}
use libspinscale.LockSet.Queueing.{SameOwner-IsReleasable, register-owned, unregister-owned}
use libspinscale.LockSet.Stepwise.{
  nothing, attempt, Phase, finished, registering, unregistering, acquiring, acquired, backing_off,
  releasing, releasing_early, marking, awakening, is_dangling, next_call,
}
use libspinscale.LockSet.Stepwise.Holders.{Coherent, leaves, touches, gives}
use libspinscale.LockSet.Stepwise.Calls.{returns}
use libspinscale.LockSet.Stepwise.Locks.{names-registered, names-apart}
use libspinscale.LockSet.Stepwise.Moves.{Moved, moved, settled, stayed}
use libspinscale.LockSet.Stepwise.Attempts.{acquiring-Moved, acquired-Moved, backing_off-Moved}

module _ (debug_locks : Bool) (c : ℕ) where
  releasing-Moved :
      (d : LockUsageDesc) (ds : List LockUsageDesc) (w w' : World) (p' : Phase)
      → Coherent (w.lock_set c) (releasing (d ∷ ds))
      → next_call debug_locks c (releasing (d ∷ ds)) w ≡ ok p' w'
      → Moved debug_locks c w (releasing (d ∷ ds)) w' p'
  unfolding next_call
  releasing-Moved d ds w w' p' coherent e = elim (Bool-cases d.has_been_released) [
    | inl early ↦
        stayed debug_locks c w w' (releasing (d ∷ ds)) p' (releasing ds) (ground (arith, early, e))
          (ground (arith, early, e)) coherent.1 (λ a h. rw early h)
    | inr held ↦
        let (woken, q, ran, at, now) =
          returns d.qutex (Qutex.release debug_locks) (λ woken. awakening woken (releasing ds)) p' w
            w' (rw held at e) in
        moved debug_locks c w w' (releasing (d ∷ ds)) p' (awakening woken (releasing ds)) d.qutex q
          at now coherent.1
          (gives d.qutex q refl (ground (arith, held)) (λ a h.
            let later =
              names-apart a d.qutex (pending ds) (pending-Unnamed d.qutex ds coherent.0) h in
            (later, ground (arith, held, h))))
  ]

  early-Moved :
      (b : ℕ) (w w' : World) (p' : Phase)
      → Coherent (w.lock_set c) (releasing_early b)
      → next_call debug_locks c (releasing_early b) w ≡ ok p' w'
      → Moved debug_locks c w (releasing_early b) w' p'
  unfolding next_call
  early-Moved b w w' p' coherent e =
      let (woken, q, ran, at, now) =
        returns b (Qutex.release debug_locks) (λ woken. awakening woken (marking b)) p' w w' e in
      moved debug_locks c w w' (releasing_early b) p' (awakening woken (marking b)) b q at now
        coherent.1 (gives b q refl coherent.0 (λ a h. (ground (arith, h), ground (arith, h))))

  marking-Moved :
      (b : ℕ) (w w' : World) (p' : Phase)
      → Coherent (w.lock_set c) (marking b)
      → next_call debug_locks c (marking b) w ≡ ok p' w'
      → Moved debug_locks c w (marking b) w' p'
  unfolding next_call
  marking-Moved b w w' p' coherent e =
      let s = w.lock_set c in
      settled debug_locks c w w' (marking b) p' (finished nothing)
        (record s { locks = mark_released debug_locks c b s.locks }) (ground (arith, e))
        (ground (arith, e)) tt
        (λ a h.
          let (n, k) =
            mark_released-pending debug_locks c s.locks b a coherent (ground (arith, h)) in
          ground (arith, n, k, h))

  registering-Moved :
      (xs ds : List LockUsageDesc) (d : LockUsageDesc) (w w' : World) (p' : Phase)
      → next_call debug_locks c (registering xs (d ∷ ds)) w ≡ ok p' w'
      → Moved debug_locks c w (registering xs (d ∷ ds)) w' p'
  unfolding next_call
  registering-Moved xs ds d w w' p' e =
      let (it, q, ran, at, now) =
        returns d.qutex (Qutex.register_in_queue c)
          (λ it. registering (xs ++ record d { iterator = it } ∷ []) ds) p' w w' e in
      moved debug_locks c w w' (registering xs (d ∷ ds)) p'
        (registering (xs ++ record d { iterator = it } ∷ []) ds) d.qutex q at now tt
        (touches d.qutex q refl
          (SameOwner-IsReleasable debug_locks (register-owned c (w.qutex d.qutex) q it ran))
          (λ a h. rw (← names-registered xs ds d it a) h))

  unregistering-Moved :
      (ds : List LockUsageDesc) (d : LockUsageDesc) (w w' : World) (p' : Phase)
      → next_call debug_locks c (unregistering (d ∷ ds)) w ≡ ok p' w'
      → Moved debug_locks c w (unregistering (d ∷ ds)) w' p'
  unfolding next_call
  unregistering-Moved ds d w w' p' e =
      let (_, q, ran, at, now) =
        returns d.qutex (Qutex.unregister_from_queue d.iterator true) (λ _. unregistering ds) p' w
          w' e in
      moved debug_locks c w w' (unregistering (d ∷ ds)) p' (unregistering ds) d.qutex q at now tt (
        touches d.qutex q refl
          (SameOwner-IsReleasable debug_locks (unregister-owned d.iterator (w.qutex d.qutex) q ran))
          (λ a h. h))

  awakening-Moved :
      (o : Option ℕ) (p : Phase) (w w' : World) (p' : Phase)
      → Coherent (w.lock_set c) p
      → next_call debug_locks c (awakening o p) w ≡ ok p' w'
      → Moved debug_locks c w (awakening o p) w' p'
  unfolding next_call awaken_front
  awakening-Moved o p w w' p' coherent e =
      let live : is_dangling o w ≡ false = elim (Bool-cases (is_dangling o w)) [
        | inl gone ↦ absurd (ground (arith, e, gone))
        | inr there ↦ there
      ] in
      let now : w' ≡ awaken_waiter o w = ground (arith, e, live) in
      let sets : w'.lock_set ≡ w.lock_set =
        ap (λ (v : World). v.lock_set) now ∙ awaken_waiter-lock_set o w in
      let at : p' ≡ p = ground (arith, e, live) in
      subst (λ (x : Phase). Moved debug_locks c w (awakening o p) w' x) (sym at)
        (record {
          after = w.lock_set c;
          lock_set = sets ∙ sym (update_same w.lock_set c);
          coherent = coherent;
          effect = leaves (ap (λ (v : World). v.qutex) now ∙ awaken_waiter-qutex o w) (λ a h. h);
        })

  pub next_call-Moved :
      (p : Phase) (w w' : World) (p' : Phase)
      → Coherent (w.lock_set c) p
      → next_call debug_locks c p w ≡ ok p' w'
      → Moved debug_locks c w p w' p'
  unfolding next_call
  next_call-Moved (finished r) w w' p' coherent e =
      stayed debug_locks c w w' (finished r) p' (finished r) (ground (arith, e)) (ground (arith, e))
        tt (λ a h. h)
  next_call-Moved (registering xs []) w w' p' coherent e =
      settled debug_locks c w w' (registering xs []) p' (finished nothing)
        (record (w.lock_set c) { locks = xs; registered_in_qutex_queues = true })
        (ground (arith, e)) (ground (arith, e)) tt (λ a h. rw (append-nil xs) h)
  next_call-Moved (registering xs (d ∷ ds)) w w' p' coherent e = registering-Moved xs ds d w w' p' e
  next_call-Moved (unregistering []) w w' p' coherent e =
      stayed debug_locks c w w' (unregistering []) p' (finished nothing) (ground (arith, e))
        (ground (arith, e)) tt (λ a h. h)
  next_call-Moved (unregistering (d ∷ ds)) w w' p' coherent e = unregistering-Moved ds d w w' p' e
  next_call-Moved (acquiring n [] k) w w' p' coherent e =
      stayed debug_locks c w w' (acquiring n [] k) p' (acquired n k none) (ground (arith, e))
        (ground (arith, e)) (coherent.0, coherent.1, coherent.2) (λ a h. h)
  next_call-Moved (acquiring n (d ∷ ds) k) w w' p' coherent e =
      acquiring-Moved debug_locks c n d ds k w w' p' coherent e
  next_call-Moved (acquired n k o) w w' p' coherent e =
      acquired-Moved debug_locks c n k o w w' p' coherent e
  next_call-Moved (backing_off n zero ds o) w w' p' coherent e =
      stayed debug_locks c w w' (backing_off n zero ds o) p' (finished (attempt false o))
        (ground (arith, e)) (ground (arith, e)) tt (λ a h. ground (arith, h, coherent.0))
  next_call-Moved (backing_off n (suc i) [] o) w w' p' coherent e = absurd (cc)
  next_call-Moved (backing_off n (suc i) (d ∷ ds) o) w w' p' coherent e =
      backing_off-Moved debug_locks c n i d ds o w w' p' coherent e
  next_call-Moved (releasing []) w w' p' coherent e =
      settled debug_locks c w w' (releasing []) p' (finished nothing)
        (record (w.lock_set c) { all_locks_acquired = false }) (ground (arith, e))
        (ground (arith, e)) tt (λ a h. h)
  next_call-Moved (releasing (d ∷ ds)) w w' p' coherent e = releasing-Moved d ds w w' p' coherent e
  next_call-Moved (releasing_early b) w w' p' coherent e = early-Moved b w w' p' coherent e
  next_call-Moved (marking b) w w' p' coherent e = marking-Moved b w w' p' coherent e
  next_call-Moved (awakening o p) w w' p' coherent e = awakening-Moved o p w w' p' coherent e
