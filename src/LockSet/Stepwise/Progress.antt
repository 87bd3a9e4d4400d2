-- ===== src/LockSet/Stepwise/Progress.antt =====
-- Each call of a LockSet method brings the method nearer to its end.
use libspinscale.Base.{
  ℕ, zero, suc, ◌+◌, ◌*◌, ◌<◌, ◌++◌, ◌≡◌, refl, Bool, true, some, [], ◌∷◌, length, arith,
  Bool-cases, inl, inr, if◌then◌else◌, ap,
}
use libspinscale.Outcome.{ok}
use libspinscale.Qutex
use libspinscale.World.{World, lockvoker_for}
use libspinscale.LockSet.Stepwise.{
  Returned, Phase, finished, registering, unregistering, acquiring, acquired, backing_off,
  releasing, releasing_early, marking, awakening, is_dangling, next_call,
}
use libspinscale.LockSet.Stepwise.Calls.{returns}

-- At most as many calls and awakenings as this are still to come.
abbrev pub calls_left : Phase → ℕ
calls_left (finished _) = 0
calls_left (registering _ rest) = length rest + 1
calls_left (unregistering rest) = length rest + 1
calls_left (acquiring _ rest k) = 2 * k + 3 * length rest + 3
calls_left (acquired _ k _) = 2 * k + 2
calls_left (backing_off _ i _ _) = 2 * i + 1
calls_left (releasing rest) = 2 * length rest + 1
calls_left (releasing_early _) = 3
calls_left (marking _) = 1
calls_left (awakening _ p) = calls_left p + 1

pub calls_left-finished : (p : Phase) → calls_left p ≡ 0 → (r : Returned) × (p ≡ finished r)
calls_left-finished (finished r) e = (r, refl)
calls_left-finished (registering _ rest) e = absurd (omega arith)
calls_left-finished (unregistering rest) e = absurd (omega arith)
calls_left-finished (acquiring _ rest k) e = absurd (omega arith)
calls_left-finished (acquired _ k _) e = absurd (omega arith)
calls_left-finished (backing_off _ i _ _) e = absurd (omega arith)
calls_left-finished (releasing rest) e = absurd (omega arith)
calls_left-finished (releasing_early _) e = absurd (omega arith)
calls_left-finished (marking _) e = absurd (omega arith)
calls_left-finished (awakening _ p) e = absurd (omega arith)

nearer : (p p' p0 : Phase) → p' ≡ p0 → calls_left p0 < calls_left p → calls_left p' < calls_left p
nearer p p' p0 e h = omega (arith, ap calls_left e)

module _ (debug_locks : Bool) (c : ℕ) where
  pub next_call-calls_left :
      (p p' : Phase) (w w' : World)
      → next_call debug_locks c p w ≡ ok p' w'
      → 0 < calls_left p
      → calls_left p' < calls_left p
  unfolding next_call
  next_call-calls_left (finished r) p' w w' e h = absurd (omega arith)
  next_call-calls_left (registering xs []) p' w w' e h = ground (arith, e)
  next_call-calls_left (registering xs (d ∷ ds)) p' w w' e h =
      let (it, q, ran, at, now) =
        returns d.qutex (Qutex.register_in_queue c)
          (λ it. registering (xs ++ record d { iterator = it } ∷ []) ds) p' w w' e in
      nearer (registering xs (d ∷ ds)) p' (registering (xs ++ record d { iterator = it } ∷ []) ds)
        at (omega arith)
  next_call-calls_left (unregistering []) p' w w' e h = ground (arith, e)
  next_call-calls_left (unregistering (d ∷ ds)) p' w w' e h =
      let (_, q, ran, at, now) =
        returns d.qutex (Qutex.unregister_from_queue d.iterator true) (λ _. unregistering ds) p' w
          w' e in
      nearer (unregistering (d ∷ ds)) p' (unregistering ds) at (omega arith)
  next_call-calls_left (acquiring n [] k) p' w w' e h = ground (arith, e)
  next_call-calls_left (acquiring n (d ∷ ds) k) p' w w' e h =
      let lv = lockvoker_for (w.lock_set c) c d.qutex in
      let (taken, q, ran, at, now) =
        returns d.qutex (Qutex.try_acquire debug_locks lv n)
          (λ taken. if taken then acquiring n ds (suc k) else acquired n k (some d.qutex)) p' w w'
          e in
      ground (arith, at)
  next_call-calls_left (acquired n k o) p' w w' e h = ground (arith, e)
  next_call-calls_left (backing_off n zero ds o) p' w w' e h = ground (arith, e)
  next_call-calls_left (backing_off n (suc i) [] o) p' w w' e h = absurd (cc)
  next_call-calls_left (backing_off n (suc i) (d ∷ ds) o) p' w w' e h =
      let lv = lockvoker_for (w.lock_set c) c d.qutex in
      let (woken, q, ran, at, now) =
        returns d.qutex (Qutex.backoff debug_locks lv n)
          (λ woken. awakening woken (backing_off n i ds o)) p' w w' e in
      nearer (backing_off n (suc i) (d ∷ ds) o) p' (awakening woken (backing_off n i ds o)) at
        (omega arith)
  next_call-calls_left (releasing []) p' w w' e h = ground (arith, e)
  next_call-calls_left (releasing (d ∷ ds)) p' w w' e h = elim (Bool-cases d.has_been_released) [
    | inl early ↦ ground (arith, early, e)
    | inr held ↦
        let (woken, q, ran, at, now) =
          returns d.qutex (Qutex.release debug_locks) (λ woken. awakening woken (releasing ds)) p' w
            w' (rw held at e) in
        nearer (releasing (d ∷ ds)) p' (awakening woken (releasing ds)) at (omega arith)
  ]
  next_call-calls_left (releasing_early b) p' w w' e h =
      let (woken, q, ran, at, now) =
        returns b (Qutex.release debug_locks) (λ woken. awakening woken (marking b)) p' w w' e in
      nearer (releasing_early b) p' (awakening woken (marking b)) at (omega arith)
  next_call-calls_left (marking b) p' w w' e h = ground (arith, e)
  next_call-calls_left (awakening o p) p' w w' e h = elim (Bool-cases (is_dangling o w)) [
    | inl gone ↦ absurd (ground (arith, e, gone))
    | inr there ↦ ground (arith, e, there)
  ]
