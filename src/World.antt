-- ===== src/World.antt =====
-- The objects that the lock classes share, each store addressed by a number: the qutexes, the lock
-- set and the awake flag of each SerializedAsynchronousContinuation
-- (include/spinscale/serializedAsynchronousContinuation.h), and the io_service posts.
--
-- A lockvoker is known by its continuation's address, as `LockerAndInvokerBase::operator==` compares.
use libspinscale.Base.{
  ℕ, ◌≡◌, refl, Bool, true, false, not, ◌&&◌, Option, none, some, List, [], ◌∷◌, ◌++◌, update,
  if◌then◌else◌, ◌==◌, arith,
}
use libspinscale.Outcome.{M, ok, stop}
use libspinscale.Qutex.{Qutex, Lockvoker}

-- `iterator` is the node of the continuation's entry in the queue of `qutex`.
pub record LockUsageDesc : Type 0 where
  pub qutex : ℕ
  pub iterator : ℕ
  pub has_been_released : Bool

pub record LockSet : Type 0 where
  pub locks : List LockUsageDesc
  pub all_locks_acquired : Bool
  pub registered_in_qutex_queues : Bool

-- `is_live` tells whether the lockvoker's object still exists. `target` is the ComponentThread of a lockvoker. `posted` holds the (thread, lockvoker) pairs that
-- were given to `io_service::post` and not yet run, the oldest first.
pub record World : Type 0 where
  pub qutex : ℕ → Qutex
  pub lock_set : ℕ → LockSet
  pub is_awake : ℕ → Bool
  pub is_live : ℕ → Bool
  pub target : ℕ → ℕ
  pub posted : List (ℕ × ℕ)

-- A call of a method of the qutex at `a`.
abbrev pub on_qutex {ℓ} : {A : Type ℓ} → ℕ → M Qutex A → M World A
on_qutex a m w = elim (m (w.qutex a)) [
  | ok x q ↦ ok x (record w { qutex = update w.qutex a q })
  | stop e q ↦ stop e (record w { qutex = update w.qutex a q })
]

-- The loop of `getLockUsageDesc`; `none` is its exception.
unfoldable pub get_lock_usage_desc : List LockUsageDesc → ℕ → Option LockUsageDesc
get_lock_usage_desc [] a = none
get_lock_usage_desc (d ∷ ds) a = if d.qutex == a then some d else get_lock_usage_desc ds a

-- The lockvoker of continuation `c` as the qutex at `a` sees it.
unfoldable pub lockvoker_for : LockSet → ℕ → ℕ → Lockvoker
unfolding get_lock_usage_desc
lockvoker_for s c a = record {
  vaddr = c;
  iterator = elim (get_lock_usage_desc s.locks a) [ none ↦ none | some d ↦ some d.iterator ];
}

-- `awaken`: post unless the flag was set already, or always with `force_awaken`.
unfoldable pub awaken : ℕ → Bool → World → World
awaken c force_awaken w =
    if w.is_awake c && not force_awaken
    then record w { is_awake = update w.is_awake c true }
    else record w { is_awake = update w.is_awake c true; posted = w.posted ++ (w.target c, c) ∷ [] }

-- The call at the end of `Qutex::backoff` and `Qutex::release`.
unfoldable pub awaken_waiter : Option ℕ → World → World
unfolding awaken
awaken_waiter none w = w
awaken_waiter (some v) w = awaken v false w

pub awaken_waiter-qutex : (o : Option ℕ) (w : World) → (awaken_waiter o w).qutex ≡ w.qutex
unfolding awaken_waiter
awaken_waiter-qutex none w = refl
awaken_waiter-qutex (some v) w = ground arith

pub awaken_waiter-lock_set : (o : Option ℕ) (w : World) → (awaken_waiter o w).lock_set ≡ w.lock_set
unfolding awaken_waiter
awaken_waiter-lock_set none w = refl
awaken_waiter-lock_set (some v) w = ground arith
