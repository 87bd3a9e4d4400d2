-- ===== src/AsynchronousContinuation.antt =====
-- include/spinscale/asynchronousContinuation.h, asynchronousContinuationChainLink.h and callback.h:
-- the base classes of a continuation, with the callback to its caller, the exception that a callee
-- leaves in it, and the pointer to its caller's continuation.
pub mod Chain
mod Examples
use libspinscale.Base.{
  ℕ, zero, suc, ◌≡◌, Bool, true, false, Option, none, some, List, [], ◌∷◌, ◌++◌, if◌then◌else◌,
  ◌==◌,
}
use libspinscale.Outcome.{M, ok, stop, ◌>>=◌, ◌>>◌, return, throw, application_exception}
use libspinscale.World.{LockSet, LockUsageDesc, get_lock_usage_desc}
use libspinscale.LockerAndInvoker.{push_locks}

-- `caller_continuation` is null for a callback without one; `callback_fn` may be empty.
pub record Callback : Type 0 where
  pub caller_continuation : Option ℕ
  pub callback_fn : Option ℕ

-- `exception` is empty until a callee sets it. `serialized_for` is the OriginalCbFnT, by a number, of a
-- SerializedAsynchronousContinuation, and empty for the other classes.
pub record AsynchronousContinuation : Type 0 where
  pub original_callback : Callback
  pub exception : Option ℕ
  pub serialized_for : Option ℕ

unfoldable pub construct : Callback → Option ℕ → AsynchronousContinuation
construct cb serialized_for = record {
  original_callback = cb;
  exception = none;
  serialized_for = serialized_for;
}

-- The dynamic cast to SerializedAsynchronousContinuation<OriginalCbFnT> succeeds.
abbrev pub casts_to : ℕ → AsynchronousContinuation → Bool
casts_to original_cb_fn_t k = elim k.serialized_for [
  | none ↦ false
  | some t ↦ t == original_cb_fn_t
]

unfoldable pub get_callers_continuation_sh_ptr : AsynchronousContinuation → Option ℕ
get_callers_continuation_sh_ptr k = k.original_callback.caller_continuation

unfoldable pub check_exception : M AsynchronousContinuation (Unit {0})
check_exception k = elim k.exception [ none ↦ ok tt k | some e ↦ throw (application_exception e) k ]

unfoldable pub callee_setexc : ℕ → M AsynchronousContinuation (Unit {0})
callee_setexc e k = ok tt (record k { exception = some e })

-- `NonPostedAsynchronousContinuation::callOriginalCb`; `run` is what a callback function does.
unfoldable pub call_original_cb :
    (ℕ → M AsynchronousContinuation (Unit {0})) → M AsynchronousContinuation (Unit {0})
call_original_cb run k = elim k.original_callback.callback_fn [ none ↦ ok tt k | some f ↦ run f k ]

-- CALLEE_SETEXC_CALLCB, which CALLEE_SETEXC_CALLCB_RET follows with a return.
unfoldable pub callee_setexc_callcb :
    (ℕ → M AsynchronousContinuation (Unit {0})) → ℕ → M AsynchronousContinuation (Unit {0})
unfolding callee_setexc call_original_cb
callee_setexc_callcb run e = do callee_setexc e; call_original_cb run

-- The continuations by address. A loop along the chain is at the continuation `curr`, and the number
-- bounds its rounds: `none` if it is not over by then.
module _ (store : ℕ → AsynchronousContinuation) where
  unfoldable pub next_of : ℕ → Option ℕ
  unfolding get_callers_continuation_sh_ptr
  next_of a = get_callers_continuation_sh_ptr (store a)

  -- `original_cb_fn_t` is the callback type of the continuation that walks.
  module _ (original_cb_fn_t : ℕ) (sets : ℕ → LockSet) where
    -- The loop of `traceContinuationHistoryForDeadlockOn`.
    unfoldable pub trace_chain : ℕ → ℕ → Option ℕ → Option Bool
    unfolding next_of
    trace_chain a fuel none = some false
    trace_chain a zero (some b) = none
    trace_chain a (suc fuel) (some b) =
        let rest = trace_chain a fuel (next_of b) in
        if casts_to original_cb_fn_t (store b)
        then elim (get_lock_usage_desc (sets b).locks a) [ none ↦ rest | some _ ↦ some true ]
        else rest

    -- The loop of `getAcquiredQutexHistory`.
    unfoldable pub collect_chain : ℕ → Option ℕ → List ℕ → Option (List ℕ)
    unfolding next_of
    collect_chain fuel none held = some held
    collect_chain zero (some b) held = none
    collect_chain (suc fuel) (some b) held =
        if casts_to original_cb_fn_t (store b)
        then collect_chain fuel (next_of b) (push_locks (sets b).locks held)
        else collect_chain fuel (next_of b) held
