-- ===== src/ComponentThread/Examples.antt =====
-- Tests of a puppet thread on queues, and the theorems at one.
use libspinscale.Base.{
  ◌≡◌, inl, refl, true, false, none, some, List, [], ◌∷◌, arith, pos, negsuc, ◌+◌, ◌*◌, ◌&&◌, ◌==◌,
  ◌++◌,
}
use libspinscale.Outcome.{ok, throw, pin_failed}
use libspinscale.IoService.{IoService, IsLawful}
use libspinscale.IoService.OneQueue.{OneQueue, one_queue, one_queue-IsLawful}
use libspinscale.PuppetApplication.{pause}
use libspinscale.ComponentThread.{
  ThreadLifetimeMgmtOp, exit_thread_req1_main_queue_posted, handle, Handler, application,
  start_thread_req1_posted, pause_thread_req1_posted, resume_thread_req1_posted, running, paused,
  returned, PuppetThread, turn, turn_in, pin_to_cpu, pause_thread_req, resume_thread_req,
  exit_thread_req,
}
use libspinscale.ComponentThread.Requests.{
  request, Answer, caller_of, for_puppets_only, request-Answer,
}
use libspinscale.ComponentThread.Turns.{answer}
use libspinscale.ComponentThread.Exited.{
  HasExited, on_main, Steps, here, after, turned, exit-Silent,
}
use libspinscale.ComponentThread.Executed.{Executed, exit_thread_req-Executed}
use libspinscale.ComponentThread.Pauses.{IsIdle, IdlesAgain, post_all}
use libspinscale.ComponentThread.Pausing.{pause-resume, resume-pause}

abbrev queues : IoService Handler
queues = one_queue Handler

abbrev lawful : IsLawful queues
lawful = one_queue-IsLawful Handler

abbrev empty_queue : OneQueue Handler
empty_queue = record { queue = []; is_stopped = false }

abbrev stopped_queue : OneQueue Handler
stopped_queue = record { queue = application 1 ∷ []; is_stopped = true }

abbrev idle_thread : PuppetThread queues
idle_thread = record {
  id = 3;
  keep_looping = true;
  pinned_cpu_id = negsuc 0;
  io_service = empty_queue;
  pause_io_service = empty_queue;
  mode = running;
  callbacks = [];
}

abbrev exited_thread : PuppetThread queues
exited_thread = record idle_thread { keep_looping = false; io_service = stopped_queue }

abbrev busy_thread : PuppetThread queues
busy_thread = record idle_thread {
  io_service = record {
    queue =
        start_thread_req1_posted (record { caller = 0; callback = some 5 })
        ∷ pause_thread_req1_posted (record { caller = 0; callback = none })
        ∷ [];
    is_stopped = false;
  };
  pause_io_service = record {
    queue = resume_thread_req1_posted (record { caller = 0; callback = some 6 }) ∷ [];
    is_stopped = false;
  };
}

pins_on_success :
    pin_to_cpu (λ _. 0) (pos 2) idle_thread ≡ ok tt (record idle_thread { pinned_cpu_id = pos 2 })
unfolding pin_to_cpu
pins_on_success = refl

pin_fails : pin_to_cpu (λ _. 22) (pos 2) idle_thread ≡ throw pin_failed idle_thread
unfolding pin_to_cpu
pin_fails = refl

request-Answer_example :
    Answer
      (for_puppets_only pause && (3 == 9))
      (caller_of pause 9 (some 0))
      pause
      (some 5)
      idle_thread
      (request pause 9 9 (some 0) (some 5) idle_thread)
request-Answer_example = request-Answer lawful pause 9 9 (some 0) (some 5) idle_thread

idle_thread-IsIdle : IsIdle idle_thread
idle_thread-IsIdle = record { mode = refl; main_open = refl; main_empty = refl; pause_empty = refl }

abbrev exit_op : ThreadLifetimeMgmtOp
exit_op = record { caller = 1; callback = some 5 }

-- The exit handler runs on the main service, which then returns.
exited :
    (t : PuppetThread queues) × Steps
      (handle (exit_thread_req1_main_queue_posted exit_op) idle_thread)
      t
    × (t.mode ≡ returned)
unfolding handle turn_in
exited = (_, after here (turned refl), refl)

exit-Silent_example :
    HasExited exited.0 × (exited.0.callbacks ≡ idle_thread.callbacks ++ answer exit_op)
exit-Silent_example =
    exit-Silent lawful exit_op (exit_thread_req1_main_queue_posted exit_op) idle_thread
      (on_main refl) exited.1

exit_thread_req-Executed_example :
    (t' : PuppetThread queues) × (exit_thread_req (some 0) (some 7) busy_thread ≡ ok tt t')
    × Executed (record { caller = 0; callback = some 7 }) (2 * (2 + 1) + 2) t'
exit_thread_req-Executed_example =
    exit_thread_req-Executed lawful 0 (some 7) busy_thread (inl refl) refl tt tt

pause-resume_example :
    (t1 : PuppetThread queues) × (t2 : PuppetThread queues) × (t3 : PuppetThread queues)
    × (t4 : PuppetThread queues) × (t5 : PuppetThread queues) × (pause_thread_req 9
          (some 0)
          (some 5)
          idle_thread
        ≡ ok tt t1)
    × (turn t1 ≡ some t2)
    × ((hs : List Handler) → turn (post_all hs t2) ≡ none)
    × (resume_thread_req 9 (some 0) (some 6) t2 ≡ ok tt t3)
    × (turn t3 ≡ some t4)
    × (turn t4 ≡ some t5)
    × IdlesAgain idle_thread ((0, 5) ∷ (0, 6) ∷ []) t5
pause-resume_example =
    pause-resume lawful 9 0 (some 5) (some 6) idle_thread (omega arith) idle_thread-IsIdle

resume-pause_example :
    (t1 : PuppetThread queues) × (t2 : PuppetThread queues) × (t3 : PuppetThread queues)
    × (t4 : PuppetThread queues) × (t5 : PuppetThread queues) × (resume_thread_req 9
          (some 0)
          (some 6)
          idle_thread
        ≡ ok tt t1)
    × (pause_thread_req 9 (some 0) (some 5) t1 ≡ ok tt t2)
    × (turn t2 ≡ some t3)
    × (t3.mode ≡ paused)
    × (turn t3 ≡ some t4)
    × (turn t4 ≡ some t5)
    × IdlesAgain idle_thread ((0, 5) ∷ (0, 6) ∷ []) t5
resume-pause_example =
    resume-pause lawful 9 0 (some 5) (some 6) idle_thread (omega arith) idle_thread-IsIdle
