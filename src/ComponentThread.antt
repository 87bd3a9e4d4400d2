-- ===== src/ComponentThread.antt =====
-- include/spinscale/componentThread.h and src/componentThread.cpp: a puppet thread with its two
-- io_services, the requests that other threads make of it, and the handlers that it runs for them.
--
-- A thread's services are known by the interface of IoService. The callbacks that a handler posts to
-- its caller's io_service are recorded. Application code supplies the body of a thread, which runs
-- the main service, and its own handlers, which leave both services alone.
pub mod Requests
pub mod Turns
pub mod Exited
pub mod Exiting
pub mod Executed
pub mod Pauses
pub mod Pausing
mod Examples
use libspinscale.Base.{
  ℕ, zero, suc, ◌≡◌, Bool, true, false, Option, none, some, List, [], ◌∷◌, ◌++◌, if◌then◌else◌,
  ◌==◌, ℤ, pos, negsuc,
}
use libspinscale.Outcome.{
  M, ok, stop, throws, ◌>>=◌, ◌>>◌, return, throw, tls_not_initialized, invoked_on_mrntt_thread,
  cpu_count_failed, invalid_cpu_id, pin_failed,
}
use libspinscale.IoService.{IoService, RunOne, runs, returns, blocks}

-- `target` is the thread that runs the handlers; `callback` is empty for one without a function.
pub record ThreadLifetimeMgmtOp : Type 0 where
  pub caller : ℕ
  pub callback : Option ℕ

-- What is posted to a puppet thread. `application` stands for a handler of application code.
pub data Handler : Type 0 where
  jolt_thread_req1_posted : ThreadLifetimeMgmtOp → Handler
  start_thread_req1_posted : ThreadLifetimeMgmtOp → Handler
  exit_thread_req1_main_queue_posted : ThreadLifetimeMgmtOp → Handler
  exit_thread_req1_pause_queue_posted : ThreadLifetimeMgmtOp → Handler
  pause_thread_req1_posted : ThreadLifetimeMgmtOp → Handler
  resume_thread_req1_posted : ThreadLifetimeMgmtOp → Handler
  application : ℕ → Handler

-- Where the thread is: in `io_service.run()`, in the `pause_io_service.run()` of a pause handler, or
-- behind the return of the first.
pub data Mode : Type 0 where
  running paused returned : Mode

pub record PuppetThread (I : IoService Handler) : Type 0 where
  pub id : ℕ
  pub keep_looping : Bool
  pub pinned_cpu_id : ℤ
  pub io_service : I.State
  pub pause_io_service : I.State
  pub mode : Mode
  pub callbacks : List (ℕ × ℕ)

-- `thisComponentThread` of the thread that calls, empty before `initializeTls`.
unfoldable pub tls_initialized : Option ℕ → Bool
tls_initialized self = elim self [ none ↦ false | some _ ↦ true ]

-- `PuppetThread::initializeTls` of the thread `id`, on what the TLS variable holds.
abbrev pub initialize_tls : ℕ → Option ℕ → Option ℕ
initialize_tls id self = some id

-- The global is set by application code before threads are made.
abbrev pub set_marionette_thread_id : ℕ → ℕ → ℕ
set_marionette_thread_id id marionette_thread_id = id

abbrev pub get_self {ℓ} : {S : Type ℓ} → Option ℕ → M S ℕ
get_self none s = throw tls_not_initialized s
get_self (some t) s = ok t s

module _ {I : IoService Handler} where
  -- A thread on two services. A `std::atomic<bool>` starts as false in C++20; its body then runs the
  -- main service.
  abbrev pub new_puppet_thread : ℕ → I.State → I.State → PuppetThread I
  new_puppet_thread id main pause = record {
    id = id;
    keep_looping = false;
    pinned_cpu_id = negsuc 0;
    io_service = main;
    pause_io_service = pause;
    mode = running;
    callbacks = [];
  }

  -- `PostedAsynchronousContinuation::callOriginalCb`.
  unfoldable pub call_original_cb : ThreadLifetimeMgmtOp → PuppetThread I → PuppetThread I
  call_original_cb op t = elim op.callback [
    | none ↦ t
    | some f ↦ record t { callbacks = t.callbacks ++ (op.caller, f) ∷ [] }
  ]

  unfoldable pub cleanup : PuppetThread I → PuppetThread I
  cleanup t = record t { keep_looping = false }

  abbrev pub stop_main : PuppetThread I → PuppetThread I
  stop_main t = record t { io_service = I.stop t.io_service }

  abbrev pub stop_pause : PuppetThread I → PuppetThread I
  stop_pause t = record t { pause_io_service = I.stop t.pause_io_service }

  -- A handler, up to the `run()` in which a pause handler stays.
  unfoldable pub handle : Handler → PuppetThread I → PuppetThread I
  unfolding call_original_cb cleanup
  handle (jolt_thread_req1_posted op) t = call_original_cb op (stop_main t)
  handle (start_thread_req1_posted op) t = call_original_cb op t
  handle (exit_thread_req1_main_queue_posted op) t = call_original_cb op (stop_main (cleanup t))
  handle (exit_thread_req1_pause_queue_posted op) t =
      call_original_cb op (stop_main (stop_pause (cleanup t)))
  handle (pause_thread_req1_posted op) t =
      let t' = call_original_cb op t in
      record t' { pause_io_service = I.reset t'.pause_io_service; mode = paused }
  handle (resume_thread_req1_posted op) t = call_original_cb op (stop_pause t)
  handle (application _) t = t

  -- One turn of the `run()` that the thread is in; `none` if it waits or has returned.
  unfoldable pub turn_in : Mode → PuppetThread I → Option (PuppetThread I)
  unfolding handle
  turn_in running t = elim (I.run_one t.io_service) [
    | runs h s ↦ some (handle h (record t { io_service = s }))
    | returns ↦ some (record t { mode = returned })
    | blocks ↦ none
  ]
  turn_in paused t = elim (I.run_one t.pause_io_service) [
    | runs h s ↦ some (handle h (record t { pause_io_service = s }))
    | returns ↦ some (record t { mode = running })
    | blocks ↦ none
  ]
  turn_in returned t = none

  abbrev pub turn : PuppetThread I → Option (PuppetThread I)
  turn t = turn_in t.mode t

  -- The body of a thread, which application code defines, runs the main service again after it has
  -- returned, as long as `keepLooping` is set.
  abbrev pub run_again : PuppetThread I → PuppetThread I
  run_again t = record t { io_service = I.reset t.io_service; mode = running }

  abbrev pub post_main : Handler → PuppetThread I → PuppetThread I
  post_main h t = record t { io_service = I.post h t.io_service }

  abbrev pub post_pause : Handler → PuppetThread I → PuppetThread I
  post_pause h t = record t { pause_io_service = I.post h t.pause_io_service }

  -- The requests, as the thread `self` makes them of this one. `mrntt_id` is `marionetteThreadId`.
  -- A jolt names the marionette thread `mrntt` as its caller, and is given this thread as `selfPtr`.
  unfoldable pub jolt_thread_req : ℕ → ℕ → Option ℕ → M (PuppetThread I) (Unit {0})
  jolt_thread_req mrntt_id mrntt f t =
      if t.id == mrntt_id
      then throw invoked_on_mrntt_thread t
      else ok tt (post_main (jolt_thread_req1_posted (record { caller = mrntt; callback = f })) t)

  unfoldable pub start_thread_req : Option ℕ → Option ℕ → M (PuppetThread I) (Unit {0})
  start_thread_req self f = do
    caller ← get_self self
    λ t. ok tt (post_main (start_thread_req1_posted (record { caller = caller; callback = f })) t)

  unfoldable pub exit_thread_req : Option ℕ → Option ℕ → M (PuppetThread I) (Unit {0})
  exit_thread_req self f = do
    caller ← get_self self
    λ t.
        let op : ThreadLifetimeMgmtOp = record { caller = caller; callback = f } in
        ok tt (
          post_pause (exit_thread_req1_pause_queue_posted op)
            (post_main (exit_thread_req1_main_queue_posted op) t))

  unfoldable pub pause_thread_req : ℕ → Option ℕ → Option ℕ → M (PuppetThread I) (Unit {0})
  pause_thread_req mrntt_id self f t =
      if t.id == mrntt_id
      then throw invoked_on_mrntt_thread t
      else (do
        caller ← get_self self
        λ t'.
            ok tt
              (post_main (pause_thread_req1_posted (record { caller = caller; callback = f })) t'))
          t

  unfoldable pub resume_thread_req : ℕ → Option ℕ → Option ℕ → M (PuppetThread I) (Unit {0})
  resume_thread_req mrntt_id self f t =
      if t.id == mrntt_id
      then throw invoked_on_mrntt_thread t
      else (do
        caller ← get_self self
        λ t'.
            ok tt (
              post_pause (resume_thread_req1_posted (record { caller = caller; callback = f })) t'))
          t

  -- `result` is what `pthread_setaffinity_np` returns for a CPU.
  unfoldable pub pin_to_cpu : (ℕ → ℕ) → ℤ → M (PuppetThread I) (Unit {0})
  pin_to_cpu result (negsuc _) t = throw invalid_cpu_id t
  pin_to_cpu result (pos cpu) t =
      if result cpu == 0 then ok tt (record t { pinned_cpu_id = pos cpu }) else throw pin_failed t

-- `online` is what `sysconf(_SC_NPROCESSORS_ONLN)` returns; the warning is left out.
unfoldable pub get_available_cpu_count {ℓ} : {S : Type ℓ} → ℤ → M S ℕ
get_available_cpu_count (negsuc _) s = throw cpu_count_failed s
get_available_cpu_count (pos zero) s = throw cpu_count_failed s
get_available_cpu_count (pos (suc n)) s = ok (suc n) s
