-- ===== src/PuppetApplication/Examples.antt =====
-- Tests of the loop counters, of the requests to threads and of their distribution, and the theorems at three threads.
use libspinscale.Base.{
  ℕ, if◌then◌else◌, ◌==◌, pos, negsuc, ◌≡◌, refl, true, false, some, [], ◌∷◌, arith,
}
use libspinscale.Outcome.{ok, throw, pin_failed}
use libspinscale.AsynchronousLoop.{
  new_loop, after, is_complete, increment_success_or_failure_due_to,
}
use libspinscale.PuppetApplication.{
  jolt, exit_thread, PuppetApplication, PuppetThreadLifetimeMgmtOp, call_original_cb, bound_method,
  jolt_all_puppet_threads_req, exit_all_puppet_threads_req,
}
use libspinscale.IoService.OneQueue.{one_queue}
use libspinscale.ComponentThread.{
  Handler, PuppetThread, new_puppet_thread, get_available_cpu_count, pin_to_cpu,
}
use libspinscale.PuppetApplication.Pinning.{
  CpuOutcome, pin_threads, distribute_and_pin_threads_across_cpus, distribute-Distributed,
}
use libspinscale.PuppetApplication.Answers.{
  Answered, answers, requested, jolt_all-Answered, exit_all-joins_none,
}

abbrev three_threads : PuppetApplication
three_threads = record {
  component_threads = 7 ∷ 8 ∷ 9 ∷ [];
  threads_have_been_jolted = false;
  sent = [];
  joined = [];
  called = [];
}

one_of_two_failed : is_complete (after (true ∷ false ∷ []) (new_loop 2)) ≡ true
unfolding is_complete increment_success_or_failure_due_to
one_of_two_failed = refl

jolt_all-Answered_example :
    (op : PuppetThreadLifetimeMgmtOp) × (jolt_all_puppet_threads_req (some 4) three_threads
      ≡ ok (some op) (requested jolt three_threads))
    × Answered jolt (some 4) op three_threads (
        call_original_cb
          (some 4)
          (record (requested jolt three_threads) { threads_have_been_jolted = true }))
jolt_all-Answered_example =
    jolt_all-Answered (some 4) three_threads (omega arith) (omega arith) refl

exit_all-joins_none_example :
    (op : PuppetThreadLifetimeMgmtOp) × (exit_all_puppet_threads_req (some 4) three_threads
      ≡ ok (some op) (requested exit_thread three_threads))
    × ((answers (bound_method exit_thread) 3 (op, requested exit_thread three_threads)).1.joined
        ≡ [])
exit_all-joins_none_example = exit_all-joins_none (some 4) three_threads (omega arith) (omega arith)

abbrev fresh_threads : ℕ → PuppetThread (one_queue Handler)
fresh_threads i =
    new_puppet_thread i (record { queue = []; is_stopped = false })
      (record { queue = []; is_stopped = false })

-- The system refuses to pin the thread 9.
abbrev refuses_9 : ℕ → ℕ → ℕ
refuses_9 i cpu = if i == 9 then 22 else 0

distribute-Distributed_example :
    CpuOutcome refuses_9
      (pos 2)
      (7 ∷ 8 ∷ 9 ∷ [])
      fresh_threads
      (distribute_and_pin_threads_across_cpus refuses_9 (pos 2) (7 ∷ 8 ∷ 9 ∷ []) fresh_threads)
distribute-Distributed_example =
    distribute-Distributed refuses_9 (pos 2) (7 ∷ 8 ∷ 9 ∷ []) fresh_threads (
      ((λ e. omega (arith, e)), ((λ e. omega (arith, e)), tt)),
      (((λ e. omega (arith, e)), tt), (tt, tt)),
    )

third_is_refused :
    (threads : ℕ → PuppetThread (one_queue Handler)) × (distribute_and_pin_threads_across_cpus
        refuses_9
        (pos 2)
        (7 ∷ 8 ∷ 9 ∷ [])
        fresh_threads
      ≡ throw pin_failed threads)
    × ((threads 8).pinned_cpu_id ≡ pos 1)
    × ((threads 9).pinned_cpu_id ≡ negsuc 0)
unfolding distribute_and_pin_threads_across_cpus get_available_cpu_count pin_threads pin_to_cpu
third_is_refused = (_, refl, refl, refl)
