-- ===== src/PuppetApplication/Fleet/Examples.antt =====
-- Two threads that are asked to start, after the jolt.
use libspinscale.Base.{ℕ, ◌<◌, ◌≡◌, ◌⊎◌, refl, true, false, some, [], ◌∷◌, arith}
use libspinscale.Outcome.{ok}
use libspinscale.AsynchronousLoop.{is_complete, increment_success_or_failure_due_to}
use libspinscale.IoService.OneQueue.{one_queue, one_queue-IsLawful}
use libspinscale.ComponentThread.{
  Handler, PuppetThread, new_puppet_thread, start_thread_req, turn_in, handle,
}
use libspinscale.PuppetApplication.{
  start, PuppetApplication, PuppetThreadLifetimeMgmtOp, bound_method, request_all,
  execute_generic_op_on_all_puppet_threads_req1,
}
use libspinscale.PuppetApplication.Answers.{requested}
use libspinscale.PuppetApplication.Fleet.{
  request_thread, request_threads, Fleet, Steps, here, after, turned, answered,
}
use libspinscale.PuppetApplication.Fleet.Counting.{AllPosted}
use libspinscale.PuppetApplication.Fleet.Complete.{concluded, Steps-concluded}

abbrev two_threads : PuppetApplication
two_threads = record {
  component_threads = 7 ∷ 8 ∷ [];
  threads_have_been_jolted = true;
  sent = [];
  joined = [];
  called = [];
}

abbrev idle : ℕ → PuppetThread (one_queue Handler)
idle i =
    new_puppet_thread i (record { queue = []; is_stopped = false })
      (record { queue = []; is_stopped = false })

abbrev counter : PuppetThreadLifetimeMgmtOp
counter = record { loop = record { n_total = 2; n_succeeded = 0; n_failed = 0 }; callback = some 4 }

-- Thread 1 asks, with 50 as the bound method.
asked :
    (threads : ℕ → PuppetThread (one_queue Handler)) × (request_threads start 1 1
        (some 1)
        (some 50)
        (7 ∷ 8 ∷ [])
        idle
      ≡ ok tt threads)
unfolding request_threads request_thread start_thread_req
asked = (_, refl)

-- Both threads run their handlers, and both callbacks are run.
both_ran :
    (s : Fleet (one_queue Handler)) × Steps start 50
      (record {
        puppet_application = requested start two_threads;
        request = counter;
        threads = asked.0;
        n_answered = 0;
      })
      s
    × (s.n_answered ≡ 2)
unfolding asked turn_in handle bound_method execute_generic_op_on_all_puppet_threads_req1
    is_complete increment_success_or_failure_due_to
both_ran = (
  _,
  after (after (after (after here (turned 7 refl)) (answered (omega arith))) (turned 8 refl))
      (answered (omega arith)),
  refl,
)

Steps-concluded_example :
    ((both_ran.0.n_answered < 2) × (both_ran.0.puppet_application ≡ requested start two_threads))
    ⊎ ((both_ran.0.n_answered ≡ 2)
        × AllPosted 50 (7 ∷ 8 ∷ []) both_ran.0.threads
        × (both_ran.0.puppet_application ≡ concluded start (some 4) (requested start two_threads)))
unfolding request_all
Steps-concluded_example =
    Steps-concluded (one_queue-IsLawful Handler) 50 start (some 4) two_threads
      (requested start two_threads) counter (omega arith) (omega arith)
      (((λ e. omega (arith, e)), tt), (tt, tt)) (λ e. absurd (cc)) refl 1 1 (some 1) idle asked.0
      (λ i. refl) asked.1 both_ran.1
