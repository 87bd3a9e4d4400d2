-- ===== src/AsynchronousBridge.antt =====
-- include/spinscale/asynchronousBridge.h: a thread waits for an operation of others to complete, and
-- runs the handlers of its io_service meanwhile.
--
-- The setter's two effects, the store and the post, are separate steps, since other threads run
-- between them. A handler of application code is a function on the state of the bridge.
pub mod Waiting
pub mod Completing
mod Examples
use libspinscale.Base.{
  ℕ, zero, suc, ◌-◌, ◌+◌, ◌≡◌, Bool, true, false, ◌||◌, not, Option, none, some, List, [], ◌∷◌,
  ◌++◌,
}
use libspinscale.IoService.{IoService, RunOne, runs, returns, blocks}

-- `empty_handler` is the handler without a body that the setter posts.
pub data Handler : Type 0 where
  empty_handler : Handler
  application : ℕ → Handler

-- `waiting` is true until the wait returns, and `owed` counts the setters that have stored the flag
-- and not yet posted.
pub record AsynchronousBridge (I : IoService Handler) : Type 0 where
  pub is_async_operation_complete : Bool
  pub io_service : I.State
  pub waiting : Bool
  pub owed : ℕ

module _ {I : IoService Handler} where
  -- The bridge on a service, with its thread about to wait.
  abbrev pub new_bridge : I.State → AsynchronousBridge I
  new_bridge s = record {
    is_async_operation_complete = false;
    io_service = s;
    waiting = true;
    owed = 0;
  }

  -- The two effects of `setAsyncOperationComplete`.
  unfoldable pub store_complete : AsynchronousBridge I → AsynchronousBridge I
  store_complete b = record b { is_async_operation_complete = true; owed = suc b.owed }

  unfoldable pub post_empty : AsynchronousBridge I → AsynchronousBridge I
  post_empty b = record b { io_service = I.post empty_handler b.io_service; owed = b.owed - 1 }

  unfoldable pub set_async_operation_complete : AsynchronousBridge I → AsynchronousBridge I
  unfolding store_complete post_empty
  set_async_operation_complete b = post_empty (store_complete b)

  unfoldable pub exited_because_io_service_stopped : AsynchronousBridge I → Bool
  exited_because_io_service_stopped b = I.stopped b.io_service

  -- The test behind `run_one`.
  unfoldable pub check : AsynchronousBridge I → AsynchronousBridge I
  check b = record b { waiting = not (b.is_async_operation_complete || I.stopped b.io_service) }

  module _ (run_application : ℕ → AsynchronousBridge I → AsynchronousBridge I) where
    abbrev pub run_handler : Handler → AsynchronousBridge I → AsynchronousBridge I
    run_handler empty_handler b = b
    run_handler (application n) b = run_application n b

    -- One round of `waitForAsyncOperationCompleteOrIoServiceStopped`; `none` while `run_one` waits.
    unfoldable pub wait_round : AsynchronousBridge I → Option (AsynchronousBridge I)
    unfolding check
    wait_round b = elim (I.run_one b.io_service) [
      | runs h s ↦ some (check (run_handler h (record b { io_service = s })))
      | returns ↦ some (check b)
      | blocks ↦ none
    ]

    -- The wait alone, for at most a number of rounds; `none` if it is not over by then.
    unfoldable pub wait_for_async_operation_complete_or_io_service_stopped :
        ℕ → AsynchronousBridge I → Option (AsynchronousBridge I)
    unfolding wait_round
    wait_for_async_operation_complete_or_io_service_stopped zero b = none
    wait_for_async_operation_complete_or_io_service_stopped (suc fuel) b = elim (wait_round b) [
      | none ↦ none
      | some b' ↦ elim b'.waiting [
        | false ↦ some b'
        | true ↦ wait_for_async_operation_complete_or_io_service_stopped fuel b'
      ]
    ]
