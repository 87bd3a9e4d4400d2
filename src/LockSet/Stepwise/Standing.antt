-- ===== src/LockSet/Stepwise/Standing.antt =====
-- A continuation that has registered stands in its queues until it unregisters.
use mathlib.Core.Path.{subst₂}
use native.Mathlib.Decide.{ℕ_discrete}
use libspinscale.Base.{
  ℕ, ◌≡◌, ◌≢◌, refl, sym, ◌∙◌, ap, subst, inl, inr, Bool, Bool-cases, Option-cases, length, update,
  update_self, update_ne, arith, [],
}
use libspinscale.Outcome.{ok}
use libspinscale.Qutex.{Qutex}
use libspinscale.World.{World, LockSet, get_lock_usage_desc}
use libspinscale.LockSet.Stepwise.{
  Operation, registers, unregisters, attempts, releases, releases_early, nothing, Phase, finished,
  registering, acquiring, releasing, releasing_early, begin,
}
use libspinscale.LockSet.Stepwise.Advances.{next_call-Moved}
use libspinscale.LockSet.Stepwise.Exclusion.{System, Step, enters, calls, awakens, lives}
use libspinscale.LockSet.Stepwise.Queues.{Healthy}
use libspinscale.LockSet.Stepwise.Enlisted.{AllNamed, Enrolled, Enrolled-other}
use libspinscale.LockSet.Stepwise.Answered.{QueuesMove, none_moved, one_moved}
use libspinscale.LockSet.Stepwise.Orderly.{
  OrderlySteps, here, after, Orderly, begin-same, awaken-same, call-Served, Steps-Orderly,
}

Enrolled-after :
    (c d : ℕ) (s : LockSet) (p : Phase) (f f' : ℕ → Qutex)
    → c ≢ d
    → QueuesMove c f f'
    → ((a : ℕ) → Healthy (f a))
    → Enrolled d s p f
    → Enrolled d s p f'
Enrolled-after c d s p f f' n (none_moved e) h k = subst (Enrolled d s p) (sym e) k
Enrolled-after c d s p f f' n (one_moved b q m e) h k =
    subst (Enrolled d s p) (sym e) (Enrolled-other c d s p f b q n m (h b) k)

-- A method other than `unregisterFromQutexQueues` begins where its continuation stands in the queues.
begin-Enrolled :
    (c : ℕ) (op : Operation) (w w' : World) (p : Phase)
    → op ≢ unregisters
    → begin c op w ≡ ok p w'
    → AllNamed c (w.lock_set c).locks w.qutex
    → Enrolled c (w.lock_set c) p w.qutex
unfolding begin
begin-Enrolled c registers w w' p n e k =
    let at : registering [] (w.lock_set c).locks ≡ p = ground (arith, e) in
    subst (λ (x : Phase). Enrolled c (w.lock_set c) x w.qutex) at tt
begin-Enrolled c unregisters w w' p n e k = absurd (n refl)
begin-Enrolled c attempts w w' p n e k =
    let s = w.lock_set c in
    let at : acquiring (length s.locks) s.locks 0 ≡ p = ground (arith, e) in
    subst (λ (x : Phase). Enrolled c s x w.qutex) at k
begin-Enrolled c releases w w' p n e k =
    let s = w.lock_set c in
    let at : releasing s.locks ≡ p = ground (arith, e) in
    subst (λ (x : Phase). Enrolled c s x w.qutex) at k
begin-Enrolled c (releases_early b) w w' p n e k =
    let s = w.lock_set c in
    elim (Option-cases (get_lock_usage_desc s.locks b)) [
      | inl missing ↦ absurd (ground (arith, e, missing))
      | inr (d, found) ↦ elim (Bool-cases d.has_been_released) [
        | inl early ↦
            let at : finished nothing ≡ p = ground (arith, e, found, early) in
            subst (λ (x : Phase). Enrolled c s x w.qutex) at k
        | inr held ↦
            let at : releasing_early b ≡ p = ground (arith, e, found, held) in
            subst (λ (x : Phase). Enrolled c s x w.qutex) at k
      ]
    ]

module _ (debug_locks : Bool) (c : ℕ) where
  -- The step does not let `c` enter `unregisterFromQutexQueues`.
  abbrev pub IsStaying : {s t : System} → Step debug_locks s t → Type 0
  IsStaying (enters d op r e distinct b) = d ≡ c → op ≢ unregisters
  IsStaying (calls d e) = Unit
  IsStaying (awakens d b) = Unit
  IsStaying (lives alive) = Unit

  abbrev pub Staying : {s t : System} → OrderlySteps debug_locks s t → Type 0
  Staying here = Unit
  Staying (after steps step asked) = Staying steps × IsStaying step

  abbrev pub IsEnrolled : System → Type 0
  IsEnrolled s = Enrolled c (s.world.lock_set c) (s.phase c) s.world.qutex

  -- The step of `d`, as `c` sees it.
  turned :
      (s : System) (d : ℕ) (w : World) (p : Phase)
      → (d ≡ c → Enrolled d (w.lock_set d) p w.qutex)
      → (d ≢ c → Enrolled c (w.lock_set c) (s.phase c) w.qutex)
      → IsEnrolled (record { world = w; phase = update s.phase d p })
  turned s d w p own other = elim (ℕ_discrete d c) [
    | yes k ↦
        subst (λ (i : ℕ). Enrolled i (w.lock_set i) (update s.phase d p i) w.qutex) k
          (subst (λ (x : Phase). Enrolled d (w.lock_set d) x w.qutex)
            (sym (update_self s.phase d p)) (own k))
    | no n ↦
        subst (λ (x : Phase). Enrolled c (w.lock_set c) x w.qutex) (sym (update_ne s.phase d p c n))
          (other n)
  ]

  step-Enrolled :
      {s t : System} (step : Step debug_locks s t)
      → IsStaying step
      → Orderly debug_locks s
      → IsEnrolled s
      → IsEnrolled t
  step-Enrolled {s} (enters {w} {p} d op r e distinct b) stays o k =
      let same = sym (begin-same debug_locks d op s.world w p b) in
      turned s d w p
        (λ i.
          let at : Enrolled d (s.world.lock_set d) (finished r) s.world.qutex =
            subst (λ (x : Phase). Enrolled d (s.world.lock_set d) x s.world.qutex) e
              (subst (λ (j : ℕ). Enrolled j (s.world.lock_set j) (s.phase j) s.world.qutex) (sym i)
                k) in
          subst (λ (v : World). Enrolled d (v.lock_set d) p v.qutex) same
            (begin-Enrolled d op s.world w p (stays i) b at))
        (λ n. subst (λ (v : World). Enrolled c (v.lock_set c) (s.phase c) v.qutex) same k)
  step-Enrolled {s} (calls {w} {p} d e) stays o k =
      let served = call-Served debug_locks s d w p o e in
      let moved =
        next_call-Moved debug_locks d (s.phase d) s.world w p (o.exclusive.coherent d) e in
      turned s d w p
        (λ i.
          served.enrolled (
            subst (λ (j : ℕ). Enrolled j (s.world.lock_set j) (s.phase j) s.world.qutex) (sym i) k))
        (λ n.
          let same : w.lock_set c ≡ s.world.lock_set c =
            ap (λ (f : ℕ → LockSet). f c) moved.lock_set
            ∙ update_ne s.world.lock_set d moved.after c n in
          subst (λ (l : LockSet). Enrolled c l (s.phase c) w.qutex) (sym same)
            (Enrolled-after d c (s.world.lock_set c) (s.phase c) s.world.qutex w.qutex n
              served.queues o.healthy k))
  step-Enrolled {s} (awakens d b) stays o k =
      let (q, l) = awaken-same debug_locks d b s.world in
      subst₂ (λ (f : ℕ → LockSet) (g : ℕ → Qutex). Enrolled c (f c) (s.phase c) g) (sym l) (sym q) k
  step-Enrolled (lives alive) stays o k = k

  -- Let every qutex have a free spin lock, a queue without a lockvoker twice, and distinct nodes
  -- that are not fresh; let no two continuations have one qutex; and let each method under way
  -- have in the queues what it relies on. Let methods be entered where they ask to be, make their
  -- calls of qutexes, and lockvokers be awakened, made and destroyed, in any order, but let the
  -- continuation `c` not enter its unregistration. If `c` stood at first in the queue of every
  -- lock of its set under the iterator that the set stores, or while it registers in those that it
  -- has entered so far, then it does so at the end: no method of any continuation, its own or
  -- another's, takes it out or makes a stored iterator invalid.
  pub Steps-Enrolled :
      {s t : System} (steps : OrderlySteps debug_locks s t)
      → Staying steps
      → Orderly debug_locks s
      → IsEnrolled s
      → IsEnrolled t
  Steps-Enrolled here stays o k = k
  Steps-Enrolled (after steps step asked) stays o k =
      step-Enrolled step stays.1 (Steps-Orderly debug_locks steps o)
        (Steps-Enrolled steps stays.0 o k)
