-- ===== src/LockSet/Stepwise/Exclusion.antt =====
-- Lock sets of several continuations whose calls of qutexes are interleaved in any order.
use mathlib.Core.Bool.{false≢true}
use mathlib.Core.Path.{subst₂}
use native.Mathlib.Decide.{ℕ_discrete}
use libspinscale.Base.{
  ℕ, ◌≡◌, ◌≢◌, refl, sym, ◌∙◌, ap, subst, inl, inr, Bool, [], update, update_self, update_ne,
  update_same, length, arith, Bool-cases, Option-cases,
}
use libspinscale.Outcome.{ok}
use libspinscale.World.{World, LockSet, get_lock_usage_desc, awaken}
use libspinscale.LockSet.Taking.{DistinctLocks}
use libspinscale.LockSet.EarlyRelease.{get_lock_usage_desc-pending}
use libspinscale.LockSet.Stepwise.{
  Operation, registers, unregisters, attempts, releases, releases_early, Returned, nothing, Phase,
  finished, registering, unregistering, acquiring, releasing, releasing_early, begin, next_call,
}
use libspinscale.LockSet.Stepwise.Holders.{has_in, Coherent, Apart, Effect, leaves, Effect-Apart}
use libspinscale.LockSet.Stepwise.Moves.{Moved, stayed}
use libspinscale.LockSet.Stepwise.Advances.{next_call-Moved}

-- The shared objects, and where each continuation's lock set stands. A continuation runs one method of
-- its lock set at a time.
pub record System : Type 0 where
  pub world : World
  pub phase : ℕ → Phase

-- The continuation `c` has the qutex at `a`.
abbrev pub has : System → ℕ → ℕ → Bool
has s c a = has_in (s.world.lock_set c) (s.phase c) a

module _ (debug_locks : Bool) where
  -- A continuation enters a method, or makes the next call of the one it is in; or any thread awakens
  -- any lockvoker.
  pub data Step (s : System) : System → Type 0 where
    enters :
        {w : World} {p : Phase} (c : ℕ) (op : Operation) (r : Returned)
        → s.phase c ≡ finished r
        → DistinctLocks (s.world.lock_set c).locks
        → begin c op s.world ≡ ok p w
        → Step s (record { world = w; phase = update s.phase c p })
    calls :
        {w : World} {p : Phase} (c : ℕ)
        → next_call debug_locks c (s.phase c) s.world ≡ ok p w
        → Step s (record { world = w; phase = update s.phase c p })
    awakens :
        (c : ℕ) (force_awaken : Bool) → Step s (record s { world = awaken c force_awaken s.world })
    -- Lockvokers are made and destroyed.
    lives : (alive : ℕ → Bool) → Step s (record s { world = record s.world { is_live = alive } })

  pub data Steps (s : System) : System → Type 0 where
    here : Steps s s
    after : {t u : System} → Steps s t → Step t u → Steps s u

  -- No two continuations have one qutex, a qutex that one has can be released, and each method stands
  -- where its lock set says.
  pub record Separate (s : System) : Type 0 where
    pub exclusive : Apart debug_locks (has s) s.world.qutex
    pub coherent : (c : ℕ) → Coherent (s.world.lock_set c) (s.phase c)

  begin-Moved :
      (c : ℕ) (op : Operation) (r : Returned) (w w' : World) (p' : Phase)
      → DistinctLocks (w.lock_set c).locks
      → begin c op w ≡ ok p' w'
      → Moved debug_locks c w (finished r) w' p'
  unfolding begin
  begin-Moved c registers r w w' p' distinct e =
      stayed debug_locks c w w' (finished r) p' (registering [] (w.lock_set c).locks)
        (ground (arith, e)) (ground (arith, e)) tt (λ a h. h)
  begin-Moved c unregisters r w w' p' distinct e =
      stayed debug_locks c w w' (finished r) p' (unregistering (w.lock_set c).locks)
        (ground (arith, e)) (ground (arith, e)) tt (λ a h. h)
  begin-Moved c attempts r w w' p' distinct e =
      let s = w.lock_set c in
      stayed debug_locks c w w' (finished r) p' (acquiring (length s.locks) s.locks 0)
        (ground (arith, e)) (ground (arith, e)) (ground (arith, e), distinct, refl, refl)
        (λ a h. absurd (false≢true h))
  begin-Moved c releases r w w' p' distinct e =
      let s = w.lock_set c in
      stayed debug_locks c w w' (finished r) p' (releasing s.locks) (ground (arith, e))
        (ground (arith, e)) distinct (λ a h. ground (arith, e, h))
  begin-Moved c (releases_early b) r w w' p' distinct e =
      let s = w.lock_set c in
      elim (Option-cases (get_lock_usage_desc s.locks b)) [
        | inl missing ↦ absurd (ground (arith, e, missing))
        | inr (d, found) ↦ elim (Bool-cases d.has_been_released) [
          | inl early ↦
              stayed debug_locks c w w' (finished r) p' (finished nothing)
                (ground (arith, e, found, early)) (ground (arith, e, found, early)) tt (λ a h. h)
          | inr held ↦
              stayed debug_locks c w w' (finished r) p' (releasing_early b)
                (ground (arith, e, found, held)) (ground (arith, e, found, held))
                (
                  ground
                      (arith, e, found, held, get_lock_usage_desc-pending s.locks b d found held),
                  distinct,
                )
                (λ a h. h)
        ]
      ]

  Moved-Separate :
      (s : System) (c : ℕ) (p p' : Phase) (w' : World)
      → s.phase c ≡ p
      → Moved debug_locks c s.world p w' p'
      → Separate s
      → Separate (record { world = w'; phase = update s.phase c p' })
  Moved-Separate s c p p' w' e m h =
      let t : System = record { world = w'; phase = update s.phase c p' } in
      let set : (d : ℕ) → w'.lock_set d ≡ update s.world.lock_set c m.after d =
        λ d. ap (λ (f : ℕ → LockSet). f d) m.lock_set in
      let set_c : w'.lock_set c ≡ m.after = set c ∙ update_self s.world.lock_set c m.after in
      let set_d : (d : ℕ) → c ≢ d → w'.lock_set d ≡ s.world.lock_set d =
        λ d n. set d ∙ update_ne s.world.lock_set c m.after d n in
      let phase_c : t.phase c ≡ p' = update_self s.phase c p' in
      let phase_d : (d : ℕ) → c ≢ d → t.phase d ≡ s.phase d = λ d n. update_ne s.phase c p' d n in
      let mine : has t c ≡ has_in m.after p' =
        ap (has_in (w'.lock_set c)) phase_c ∙ ap (λ (l : LockSet). has_in l p') set_c in
      let mine_before : has s c ≡ has_in (s.world.lock_set c) p =
        ap (has_in (s.world.lock_set c)) e in
      record {
        exclusive =
            Effect-Apart debug_locks (has s) (has t) s.world.qutex w'.qutex c
              (λ d n.
                ap (has_in (w'.lock_set d)) (phase_d d n)
                ∙ ap (λ (l : LockSet). has_in l (s.phase d)) (set_d d n))
              (subst₂ (Effect debug_locks s.world.qutex w'.qutex) (sym mine_before) (sym mine)
                m.effect)
              h.exclusive;
        coherent = λ d. elim (ℕ_discrete c d) [
          | yes k ↦
              subst (λ (i : ℕ). Coherent (w'.lock_set i) (t.phase i)) k
                (subst₂ Coherent (sym set_c) (sym phase_c) m.coherent)
          | no n ↦ subst₂ Coherent (sym (set_d d n)) (sym (phase_d d n)) (h.coherent d)
        ];
      }

  awaken-Moved :
      (c : ℕ) (b : Bool) (w : World) (p : Phase)
      → Coherent (w.lock_set c) p
      → Moved debug_locks c w p (awaken c b w) p
  unfolding awaken
  awaken-Moved c b w p coherent = record {
    after = w.lock_set c;
    lock_set = ground arith;
    coherent = coherent;
    effect = leaves (ground arith) (λ a h. h);
  }

  pub step-Separate : {s t : System} → Step s t → Separate s → Separate t
  step-Separate {s} (enters {w} {p} c op r e d b) h =
      Moved-Separate s c (finished r) p w e (begin-Moved c op r s.world w p d b) h
  step-Separate {s} (calls {w} {p} c e) h =
      Moved-Separate s c (s.phase c) p w refl
        (next_call-Moved debug_locks c (s.phase c) s.world w p (h.coherent c) e) h
  step-Separate {s} (awakens c b) h =
      subst (λ (f : ℕ → Phase). Separate (record { world = awaken c b s.world; phase = f }))
        (update_same s.phase c)
        (Moved-Separate s c (s.phase c) (s.phase c) (awaken c b s.world) refl
          (awaken-Moved c b s.world (s.phase c) (h.coherent c)) h)
  step-Separate {s} (lives alive) h = record {
    exclusive = record { apart = h.exclusive.apart; owned = h.exclusive.owned };
    coherent = h.coherent;
  }

  -- Let no two continuations have one qutex, by an acquired lock set that names it unreleased or
  -- within a method that has taken it and not given it back; let every qutex that one has be
  -- owned, with a free spin lock and, in a debug build, a recorded owner; and let each method
  -- under way stand where its lock set says. Then it is so after any interleaving of entries into
  -- methods, on lock sets that name no qutex twice, of their single calls of qutexes that return,
  -- and of awakenings, by any continuations, with lockvokers made and destroyed at any time.
  pub Steps-Separate : {s t : System} → Steps s t → Separate s → Separate t
  Steps-Separate here h = h
  Steps-Separate (after steps step) h = step-Separate step (Steps-Separate steps h)
