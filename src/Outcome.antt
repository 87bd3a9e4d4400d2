-- ===== src/Outcome.antt =====
-- What a call of the C++ code comes to: it returns, or it stops. The state reached is kept in both
-- cases, since an exception does not undo what was done before it was thrown.
use Prim.Native.Nat.{ℕ}
use mathlib.Core.Path.{◌≡◌, refl}
use mathlib.Core.Logic.{◌⊎◌, inl, inr}

-- The `std::runtime_error`s of the source, one constructor for each message, and the exceptions that
-- application code stores in a continuation.
pub data Error : Type 0 where
  try_acquire_on_empty_queue backoff_on_empty_queue : Error
  front_acquirer_should_succeed failed_acquirer_at_front : Error
  release_on_unowned_qutex : Error
  not_registered_in_qutex_queues all_locks_already_acquired all_locks_not_acquired : Error
  qutex_not_in_lock_set : Error
  wrong_component_thread deadlock_detected bad_function_call bad_optional_access : Error
  tls_not_initialized invoked_on_mrntt_thread : Error
  cpu_count_failed invalid_cpu_id pin_failed : Error
  application_exception : ℕ → Error

-- `hangs`: `SpinLock::acquire` on a lock that its own thread left locked spins for ever.
-- `undefined`: C++ gives the operation no meaning (a dead iterator, a division by zero).
pub data Stop : Type 0 where
  throws : Error → Stop
  hangs undefined : Stop

pub data Outcome {ℓ κ} (S : Type ℓ) (A : Type κ) : Type (ℓ ⊔ κ) where
  ok : A → S → Outcome S A
  stop : Stop → S → Outcome S A

-- A stateful call.
abbrev pub M {ℓ κ} : Type ℓ → Type κ → Type (ℓ ⊔ κ)
M S A = S → Outcome S A

infixl 5 ◌>>=◌ ◌>>◌
abbrev pub ◌>>=◌ {ℓ κ μ} : {S : Type ℓ} {A : Type κ} {B : Type μ} → M S A → (A → M S B) → M S B
◌>>=◌ m f s = elim (m s) [ ok a s' ↦ f a s' | stop e s' ↦ stop e s' ]

abbrev pub ◌>>◌ {ℓ κ} : {S : Type ℓ} {B : Type κ} → M S (Unit {0}) → M S B → M S B
◌>>◌ m k s = elim (m s) [ ok a s' ↦ k s' | stop e s' ↦ stop e s' ]

abbrev pub return {ℓ κ} : {S : Type ℓ} {A : Type κ} → A → M S A
return a s = ok a s

abbrev pub throw {ℓ κ} : {S : Type ℓ} {A : Type κ} → Error → M S A
throw e s = stop (throws e) s

pub Outcome-cases :
    {S A : Type 0} (r : Outcome S A)
    → ((x : A) × (s : S) × (r ≡ ok x s)) ⊎ ((e : Stop) × (s : S) × (r ≡ stop e s))
Outcome-cases (ok x s) = inl (x, s, refl)
Outcome-cases (stop e s) = inr (e, s, refl)
