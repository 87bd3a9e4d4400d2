-- ===== src/LockSet/Stepwise/Orderly.antt =====
-- Interleaved methods that are entered in the states they ask for make no call that fails.
use mathlib.Core.Bool.{false≢true}
use mathlib.Core.Path.{subst₂}
use native.Mathlib.Decide.{ℕ_discrete}
use libspinscale.Base.{
  ℕ, ◌<◌, ◌≡◌, ◌≢◌, sym, ◌∙◌, ap, subst, ◌⊎◌, inl, inr, Bool, Bool-cases, true, false, update,
  update_self, update_ne, arith,
}
use libspinscale.Outcome.{Outcome, ok, stop, undefined}
use libspinscale.Qutex.{Qutex}
use libspinscale.World.{World, LockSet, awaken}
use libspinscale.LockSet.Stepwise.{
  Operation, registers, unregisters, attempts, releases, releases_early, Phase, finished,
  registering, unregistering, acquiring, acquired, backing_off, releasing, releasing_early, marking,
  awakening, dangles, begin, next_call,
}
use libspinscale.LockSet.Stepwise.Advances.{next_call-Moved}
use libspinscale.LockSet.Stepwise.Exclusion.{
  System, Step, Steps, enters, calls, awakens, lives, Separate, step-Separate,
}
use libspinscale.LockSet.Stepwise.Queues.{Healthy, QueueMove-Healthy}
use libspinscale.LockSet.Stepwise.Enlisted.{Enlisted, Enlisted-other}
use libspinscale.LockSet.Stepwise.Progress.{calls_left, next_call-calls_left}
use libspinscale.LockSet.Stepwise.Answered.{QueuesMove, none_moved, one_moved, Served}
use libspinscale.LockSet.Stepwise.Served.{next_call-Returns}

module _ (debug_locks : Bool) where
  -- The method is entered where it asks to be: an attempt and an unregistration while the continuation
  -- stands in the queues, a registration while it does not.
  abbrev pub IsAsked : {s t : System} → Step debug_locks s t → Type 0
  IsAsked {s} (enters {p = p} c op r e distinct b) = Enlisted c (s.world.lock_set c) p s.world.qutex
  IsAsked (calls c e) = Unit
  IsAsked (awakens c b) = Unit
  IsAsked (lives alive) = Unit

  pub data OrderlySteps (s : System) : System → Type 0 where
    here : OrderlySteps s s
    after :
        {t u : System}
        → OrderlySteps s t
        → (step : Step debug_locks t u) → IsAsked step
        → OrderlySteps s u

  pub OrderlySteps-Steps : {s t : System} → OrderlySteps s t → Steps debug_locks s t
  OrderlySteps-Steps here = Steps.here
  OrderlySteps-Steps (after steps step asked) = Steps.after (OrderlySteps-Steps steps) step

  -- Besides, every qutex is as it should be between calls, and each method has what it relies on.
  pub record Orderly (s : System) : Type 0 where
    pub exclusive : Separate debug_locks s
    pub healthy : (a : ℕ) → Healthy (s.world.qutex a)
    pub enlisted : (c : ℕ) → Enlisted c (s.world.lock_set c) (s.phase c) s.world.qutex

  Healthy-after :
      (c : ℕ) (f f' : ℕ → Qutex)
      → QueuesMove c f f'
      → ((a : ℕ) → Healthy (f a))
      → (a : ℕ) → Healthy (f' a)
  Healthy-after c f f' (none_moved e) h a = subst (λ (g : ℕ → Qutex). Healthy (g a)) (sym e) (h a)
  Healthy-after c f f' (one_moved b q m e) h a =
      subst (λ (g : ℕ → Qutex). Healthy (g a)) (sym e)
        (elim (ℕ_discrete b a) [
          | yes k ↦
              subst (λ (i : ℕ). Healthy (update f b q i)) k
                (subst Healthy (sym (update_self f b q)) (QueueMove-Healthy c m (h b)))
          | no k ↦ subst Healthy (sym (update_ne f b q a k)) (h a)
        ])

  Enlisted-after :
      (c d : ℕ) (s : LockSet) (p : Phase) (f f' : ℕ → Qutex)
      → c ≢ d
      → QueuesMove c f f'
      → ((a : ℕ) → Healthy (f a))
      → Enlisted d s p f
      → Enlisted d s p f'
  Enlisted-after c d s p f f' n (none_moved e) h k = subst (Enlisted d s p) (sym e) k
  Enlisted-after c d s p f f' n (one_moved b q m e) h k =
      subst (Enlisted d s p) (sym e) (Enlisted-other c d s p f b q n m (h b) k)

  -- The next call of `c` leads from an orderly state to one, whoever else is under way.
  Served-Orderly :
      (s : System) (c : ℕ) (w' : World) (p' : Phase)
      → Orderly s
      → Separate debug_locks (record { world = w'; phase = update s.phase c p' })
      → ((d : ℕ) → c ≢ d → w'.lock_set d ≡ s.world.lock_set d)
      → QueuesMove c s.world.qutex w'.qutex
      → Enlisted c (w'.lock_set c) p' w'.qutex
      → Orderly (record { world = w'; phase = update s.phase c p' })
  Served-Orderly s c w' p' o exclusive same queues enlisted = record {
    exclusive = exclusive;
    healthy = Healthy-after c s.world.qutex w'.qutex queues o.healthy;
    enlisted = λ d. elim (ℕ_discrete c d) [
      | yes k ↦
          subst (λ (i : ℕ). Enlisted i (w'.lock_set i) (update s.phase c p' i) w'.qutex) k
            (subst (λ (x : Phase). Enlisted c (w'.lock_set c) x w'.qutex)
              (sym (update_self s.phase c p')) enlisted)
      | no n ↦
          subst₂ (λ (l : LockSet) (x : Phase). Enlisted d l x w'.qutex) (sym (same d n))
            (sym (update_ne s.phase c p' d n))
            (Enlisted-after c d (s.world.lock_set d) (s.phase d) s.world.qutex w'.qutex n queues
              o.healthy (o.enlisted d))
    ];
  }

  ok-same :
      {x y : Phase} {v w : World} {r : Outcome World Phase}
      → r ≡ ok x v
      → r ≡ ok y w
      → (x ≡ y) × (v ≡ w)
  ok-same e k = (cc, cc)

  pub begin-same :
      (c : ℕ) (op : Operation) (w w' : World) (p : Phase) → begin c op w ≡ ok p w' → w' ≡ w
  unfolding begin
  begin-same c registers w w' p e = ground (arith, e)
  begin-same c unregisters w w' p e = ground (arith, e)
  begin-same c attempts w w' p e = ground (arith, e)
  begin-same c releases w w' p e = ground (arith, e)
  begin-same c (releases_early a) w w' p e = ground (arith, e)

  pub awaken-same :
      (c : ℕ) (b : Bool) (w : World)
      → ((awaken c b w).qutex ≡ w.qutex) × ((awaken c b w).lock_set ≡ w.lock_set)
  unfolding awaken
  awaken-same c b w = (ground arith, ground arith)

  pub next_call-Served :
      (s : System) (c : ℕ)
      → dangles (s.phase c) s.world ≡ false
      → Orderly s
      → (p' : Phase) × (w' : World) × (next_call debug_locks c (s.phase c) s.world ≡ ok p' w')
        × Served c s.world (s.phase c) w' p'
  next_call-Served s c live o =
      next_call-Returns debug_locks c s.world o.healthy (s.phase c) live (o.enlisted c)
        (o.exclusive.exclusive.owned c) (o.exclusive.coherent c)

  next_call-dangles :
      (c : ℕ) (p : Phase) (w : World)
      → dangles p w ≡ true
      → next_call debug_locks c p w ≡ stop undefined w
  unfolding next_call
  next_call-dangles c (awakening o p) w gone = ground (arith, gone)
  next_call-dangles c (finished _) w gone = absurd (false≢true gone)
  next_call-dangles c (registering _ _) w gone = absurd (false≢true gone)
  next_call-dangles c (unregistering _) w gone = absurd (false≢true gone)
  next_call-dangles c (acquiring _ _ _) w gone = absurd (false≢true gone)
  next_call-dangles c (acquired _ _ _) w gone = absurd (false≢true gone)
  next_call-dangles c (backing_off _ _ _ _) w gone = absurd (false≢true gone)
  next_call-dangles c (releasing _) w gone = absurd (false≢true gone)
  next_call-dangles c (releasing_early _) w gone = absurd (false≢true gone)
  next_call-dangles c (marking _) w gone = absurd (false≢true gone)

  -- A call that returned had a lockvoker to awaken.
  call-live :
      (c : ℕ) (p p' : Phase) (w w' : World)
      → next_call debug_locks c p w ≡ ok p' w'
      → dangles p w ≡ false
  call-live c p p' w w' e = elim (Bool-cases (dangles p w)) [
    | inl gone ↦ absurd (ground (arith, sym (next_call-dangles c p w gone) ∙ e))
    | inr there ↦ there
  ]

  -- The call that is made is the one that returns.
  pub call-Served :
      (s : System) (c : ℕ) (w : World) (p : Phase)
      → Orderly s
      → next_call debug_locks c (s.phase c) s.world ≡ ok p w
      → Served c s.world (s.phase c) w p
  call-Served s c w p o e =
      let live = call-live c (s.phase c) p s.world w e in
      let (p', w', ran, served) = next_call-Served s c live o in
      let (at, now) = ok-same ran e in
      subst₂ (λ (x : Phase) (v : World). Served c s.world (s.phase c) v x) at now served

  pub step-Orderly :
      {s t : System} (step : Step debug_locks s t) → IsAsked step → Orderly s → Orderly t
  step-Orderly {s} {t} (enters {w} {p} c op r e distinct b) asked o =
      let same = begin-same c op s.world w p b in
      Served-Orderly s c w p o (step-Separate debug_locks (enters c op r e distinct b) o.exclusive)
        (λ d n. ap (λ (v : World). v.lock_set d) same)
        (none_moved (ap (λ (v : World). v.qutex) same))
        (subst (λ (v : World). Enlisted c (v.lock_set c) p v.qutex) (sym same) asked)
  step-Orderly {s} (calls {w} {p} c e) asked o =
      let now = call-Served s c w p o e in
      let moved =
        next_call-Moved debug_locks c (s.phase c) s.world w p (o.exclusive.coherent c) e in
      Served-Orderly s c w p o (step-Separate debug_locks (calls c e) o.exclusive)
        (λ d n.
          ap (λ (f : ℕ → LockSet). f d) moved.lock_set
          ∙ update_ne s.world.lock_set c moved.after d n)
        now.queues now.enlisted
  step-Orderly {s} (awakens c b) asked o =
      let (q, l) = awaken-same c b s.world in
      record {
        exclusive = step-Separate debug_locks (awakens c b) o.exclusive;
        healthy = λ a. subst (λ (f : ℕ → Qutex). Healthy (f a)) (sym q) (o.healthy a);
        enlisted = λ d.
            subst₂ (λ (f : ℕ → LockSet) (g : ℕ → Qutex). Enlisted d (f d) (s.phase d) g) (sym l)
              (sym q) (o.enlisted d);
      }
  step-Orderly (lives alive) asked o = record {
    exclusive = step-Separate debug_locks (lives alive) o.exclusive;
    healthy = o.healthy;
    enlisted = o.enlisted;
  }

  pub Steps-Orderly : {s t : System} → OrderlySteps s t → Orderly s → Orderly t
  Steps-Orderly here o = o
  Steps-Orderly (after steps step asked) o = step-Orderly step asked (Steps-Orderly steps o)

  -- Let every qutex have a free spin lock, a queue without a lockvoker twice, and distinct nodes
  -- that are not fresh; let no two continuations have one qutex; and let each method under way
  -- have in the queues what it relies on. From there let methods of any continuations be entered
  -- and make their calls of qutexes, lockvokers be awakened, and lockvokers be made and destroyed,
  -- in any order, each method being entered with distinct locks, an attempt with at least one of
  -- them and while its continuation stands in the queues under the stored iterators, an
  -- unregistration while it stands there, a registration while it does not. Then the next call of
  -- every method that is not finished returns: it throws nothing, finds no spin lock locked and
  -- does nothing undefined; fewer calls are left of that method, and all of this holds afterwards.
  -- There is one exception: if the lockvoker that a backoff or a release found at the front of a
  -- queue has been destroyed after the spin lock was freed, then its awakening is undefined.
  pub next_call-returns :
      {s t : System} (c : ℕ)
      → OrderlySteps s t
      → Orderly s
      → 0 < calls_left (t.phase c)
      → ((p' : Phase) × (w' : World) × (next_call debug_locks c (t.phase c) t.world ≡ ok p' w')
          × (calls_left p' < calls_left (t.phase c))
          × Orderly (record { world = w'; phase = update t.phase c p' }))
        ⊎ ((dangles (t.phase c) t.world ≡ true)
            × (next_call debug_locks c (t.phase c) t.world ≡ stop undefined t.world))
  next_call-returns {t = t} c steps o under_way =
      let now = Steps-Orderly steps o in
      elim (Bool-cases (dangles (t.phase c) t.world)) [
        | inl gone ↦ inr (gone, next_call-dangles c (t.phase c) t.world gone)
        | inr there ↦
            let (p', w', ran, _) = next_call-Served t c there now in
            inl (
              p',
              w',
              ran,
              next_call-calls_left debug_locks c (t.phase c) p' t.world w' ran under_way,
              step-Orderly (calls c ran) tt now,
            )
      ]
