-- ===== src/LockerAndInvoker.antt =====
-- include/spinscale/serializedAsynchronousContinuation.h: the lockvoker of a continuation, which an
-- io_service runs until it has all the locks, and the walk along the chain of callers.
pub mod History
pub mod Unregistering
pub mod FirstWake
pub mod Call
pub mod LostWakeUp
pub mod Crossing
pub mod Quiet
pub mod Awakening
pub mod Serving
pub mod Lines
pub mod Draining
mod Examples
use libspinscale.Base.{
  ℕ, ◌≡◌, Bool, true, false, not, ◌&&◌, ◌||◌, Option, none, some, List, [], ◌∷◌, ◌++◌, map, update,
  if◌then◌else◌, ◌==◌,
}
use libspinscale.Outcome.{
  M, ok, stop, undefined, ◌>>=◌, ◌>>◌, return, throw, tls_not_initialized, bad_optional_access,
  wrong_component_thread, deadlock_detected,
}
use libspinscale.World.{World, LockSet, LockUsageDesc, get_lock_usage_desc, awaken}
use libspinscale.LockSet
use libspinscale.Tracker
use libspinscale.Tracker.{Tracker}

-- A link of the chain: a SerializedAsynchronousContinuation with the callback type of the continuation
-- that walks, by its address, or one of another class or of another callback type,
-- which the dynamic cast refuses.
pub data ChainLink : Type 0 where
  serialized : ℕ → ChainLink
  unserialized : ChainLink

-- `callers` lists what `getCallersContinuationShPtr` leads to, the nearest first, up to the null
-- pointer. `invoked` records the calls of invocation targets, `callbacks` the posts of original
-- callbacks with the thread that they are posted to.
pub record Process : Type 0 where
  pub world : World
  pub tracker : Tracker
  pub callers : ℕ → List ChainLink
  pub caller_thread : ℕ → ℕ
  pub has_callback : ℕ → Bool
  pub invoked : List ℕ
  pub callbacks : List (ℕ × ℕ)

abbrev pub on_world {ℓ} : {A : Type ℓ} → M World A → M Process A
on_world m p = elim (m p.world) [
  | ok x w ↦ ok x (record p { world = w })
  | stop e w ↦ stop e (record p { world = w })
]

abbrev pub on_tracker {ℓ} : {A : Type ℓ} → M Tracker A → M Process A
on_tracker m p = elim (m p.tracker) [
  | ok x t ↦ ok x (record p { tracker = t })
  | stop e t ↦ stop e (record p { tracker = t })
]

-- The inner loop of `getAcquiredQutexHistory`, with `push_front`.
abbrev pub push_locks : List LockUsageDesc → List ℕ → List ℕ
push_locks [] held = held
push_locks (d ∷ ds) held = push_locks ds (d.qutex ∷ held)

module _ (sets : ℕ → LockSet) where
  unfoldable pub collect_locks : List ChainLink → List ℕ → List ℕ
  collect_locks [] held = held
  collect_locks (serialized c ∷ chain) held = collect_locks chain (push_locks (sets c).locks held)
  collect_locks (unserialized ∷ chain) held = collect_locks chain held

  unfoldable pub get_acquired_qutex_history : List ChainLink → List ℕ
  unfolding collect_locks
  get_acquired_qutex_history chain = collect_locks chain []

  unfoldable pub trace_for_deadlock_on : ℕ → List ChainLink → Bool
  trace_for_deadlock_on a [] = false
  trace_for_deadlock_on a (serialized c ∷ chain) =
      let rest = trace_for_deadlock_on a chain in
      elim (get_lock_usage_desc (sets c).locks a) [ none ↦ rest | some _ ↦ true ]
  trace_for_deadlock_on a (unserialized ∷ chain) = trace_for_deadlock_on a chain

  -- The first required lock that some caller's lock set holds as well.
  unfoldable pub trace_for_deadlock : List LockUsageDesc → List ChainLink → Option ℕ
  unfolding trace_for_deadlock_on
  trace_for_deadlock [] chain = none
  trace_for_deadlock (d ∷ ds) chain =
      let rest = trace_for_deadlock ds chain in
      if trace_for_deadlock_on d.qutex chain then some d.qutex else rest

unfoldable pub allow_awakening : ℕ → World → World
allow_awakening c w = record w { is_awake = update w.is_awake c false }

-- The statements of `firstWake` one by one, between which other threads may run.
unfoldable pub first_wake_statements : ℕ → List (M World (Unit {0}))
unfolding awaken
first_wake_statements c =
    (λ w. ok tt (record w { is_awake = update w.is_awake c true }))
    ∷ LockSet.register_in_qutex_queues c
    ∷ (λ w. ok tt (awaken c true w))
    ∷ []

abbrev pub in_turn : List (M World (Unit {0})) → M World (Unit {0})
in_turn [] = return tt
in_turn (m ∷ ms) = m >> in_turn ms

unfoldable pub first_wake : ℕ → M World (Unit {0})
unfolding first_wake_statements
first_wake c = in_turn (first_wake_statements c)

-- What came of one run of a lockvoker: the target was invoked, or it sleeps on; then whether a
-- deadlock and a gridlock were reported.
pub data Verdict : Type 0 where
  invoked_target : Verdict
  asleep : Bool → Bool → Verdict

module _ (debug_locks : Bool) where
  -- The constructor.
  unfoldable pub construct : ℕ → M Process (Unit {0})
  unfolding trace_for_deadlock
  construct c p =
      let w = p.world in
      elim (if debug_locks
        then trace_for_deadlock w.lock_set (w.lock_set c).locks (p.callers c)
        else none) [ none ↦ on_world (first_wake c) p | some _ ↦ throw deadlock_detected p ]

  -- Lines 500 to 520: whether the heuristic or the complete search found a gridlock.
  unfoldable pub trace_for_gridlock : ℕ → ℕ → M Process Bool
  trace_for_gridlock c first_failed p =
      (do
        on_tracker (
            Tracker.add_if_not_exists c first_failed
              (some (get_acquired_qutex_history p.world.lock_set (p.callers c))))
        likely ← on_tracker (Tracker.heuristically_trace first_failed c)
        certain ←
            if likely
            then (do found ← on_tracker (Tracker.completely_trace first_failed); return found.0)
            else return false
        return (likely || certain))
        p

  -- Lines 482 to 532. `first_failed` is empty only if nothing failed.
  unfoldable pub fall_asleep : ℕ → Bool → Option ℕ → M Process Verdict
  unfolding allow_awakening
  fall_asleep c gridlock_likely first_failed p =
      let p' : Process = record p { world = allow_awakening c p.world } in
      if not gridlock_likely then ok (asleep false false) p' else elim first_failed [
        | none ↦ throw bad_optional_access p'
        | some a ↦
            (do
              is_gridlock ← trace_for_gridlock c a
              return (asleep (trace_for_deadlock_on p.world.lock_set a (p.callers c)) is_gridlock))
              p'
      ]

  -- Lines 552 to 583.
  unfoldable pub run_target : ℕ → Bool → M Process Verdict
  run_target c gridlock_likely = do
    on_world (LockSet.unregister_from_qutex_queues c)
    if gridlock_likely then (do _ ← on_tracker (Tracker.remove c); return tt) else return tt
    λ p. ok invoked_target (record p { invoked = p.invoked ++ c ∷ [] })

  -- `operator()` on the thread `self`, which `getSelf` finds if it has its TLS; `elapsed` says whether the time limit has passed.
  unfoldable pub call : Option ℕ → Bool → ℕ → M Process Verdict
  unfolding fall_asleep run_target
  call none elapsed c p = throw tls_not_initialized p
  call (some self) elapsed c p =
      if self == p.world.target c
      then (do
        result ← on_world (LockSet.try_acquire_or_back_off debug_locks c)
        if result.0
            then run_target c (debug_locks && elapsed)
            else fall_asleep c (debug_locks && elapsed) result.1)
          p
      else throw wrong_component_thread p

  -- `SerializedAsynchronousContinuation::callOriginalCb`.
  unfoldable pub call_original_cb : ℕ → M Process (Unit {0})
  call_original_cb c = do
    on_world (LockSet.release debug_locks c)
    λ p.
        if p.has_callback c
        then ok tt (record p { callbacks = p.callbacks ++ (p.caller_thread c, c) ∷ [] })
        else ok tt p
