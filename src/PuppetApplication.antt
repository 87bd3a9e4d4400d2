-- ===== src/PuppetApplication.antt =====
-- include/spinscale/puppetApplication.h and src/puppetApplication.cpp: requests to all puppet threads.
--
-- A request sends one operation to each thread, with a continuation that counts the answers; the
-- threads answer by calling the bound `...Req1` method, once each.
pub mod Answers
pub mod Fleet
pub mod Pinning
mod Examples
use libspinscale.Base.{
  ℕ, zero, suc, ◌%◌, ◌≡◌, Bool, true, false, not, ◌&&◌, Option, none, some, List, [], ◌∷◌, ◌++◌,
  map, if◌then◌else◌, ◌==◌, length,
}
use libspinscale.Outcome.{M, ok, stop, undefined, ◌>>=◌, ◌>>◌, return, throw, bad_function_call}
use libspinscale.AsynchronousLoop.{
  AsynchronousLoop, new_loop, modulus, is_complete, increment_success_or_failure_due_to,
}

pub data ThreadOp : Type 0 where
  jolt start pause resume exit_thread : ThreadOp

-- `sent` records the operations sent to threads, `joined` the threads joined, `called` the callbacks
-- called, each the oldest first.
pub record PuppetApplication : Type 0 where
  pub component_threads : List ℕ
  pub threads_have_been_jolted : Bool
  pub sent : List (ThreadOp × ℕ)
  pub joined : List ℕ
  pub called : List ℕ

-- `callback` is empty for a callback without a function.
pub record PuppetThreadLifetimeMgmtOp : Type 0 where
  pub loop : AsynchronousLoop
  pub callback : Option ℕ

-- `NonPostedAsynchronousContinuation::callOriginalCb`.
abbrev pub call_original_cb : Option ℕ → PuppetApplication → PuppetApplication
call_original_cb none p = p
call_original_cb (some f) p = record p { called = p.called ++ f ∷ [] }

-- `callback.callbackFn()`.
call_function : Option ℕ → M PuppetApplication (Unit {0})
call_function none p = throw bad_function_call p
call_function (some f) p = ok tt (call_original_cb (some f) p)

-- What follows the last answer, for each of the three `...Req1` methods.
abbrev pub jolted : PuppetThreadLifetimeMgmtOp → PuppetApplication → PuppetApplication
jolted op p = call_original_cb op.callback (record p { threads_have_been_jolted = true })

abbrev pub executed : PuppetThreadLifetimeMgmtOp → PuppetApplication → PuppetApplication
executed op p = call_original_cb op.callback p

abbrev pub exited : PuppetThreadLifetimeMgmtOp → PuppetApplication → PuppetApplication
exited op p = call_original_cb op.callback (record p { joined = p.joined ++ p.component_threads })

abbrev pub Answer : Type 0
Answer =
    PuppetThreadLifetimeMgmtOp × PuppetApplication → PuppetThreadLifetimeMgmtOp × PuppetApplication

-- One answer is counted; the last one goes on.
abbrev pub count_answer :
    (PuppetThreadLifetimeMgmtOp → PuppetApplication → PuppetApplication) → Answer
count_answer finish (op, p) =
    let op' : PuppetThreadLifetimeMgmtOp = record op {
      loop = increment_success_or_failure_due_to true op.loop;
    } in
    if is_complete op'.loop then (op', finish op' p) else (op', p)

unfoldable pub jolt_all_puppet_threads_req1 : Answer
jolt_all_puppet_threads_req1 = count_answer jolted

unfoldable pub execute_generic_op_on_all_puppet_threads_req1 : Answer
execute_generic_op_on_all_puppet_threads_req1 = count_answer executed

unfoldable pub exit_all_puppet_threads_req1 : Answer
exit_all_puppet_threads_req1 = count_answer exited

-- The method that each request binds to its continuation.
unfoldable pub bound_method : ThreadOp → Answer
unfolding jolt_all_puppet_threads_req1 execute_generic_op_on_all_puppet_threads_req1
bound_method jolt = jolt_all_puppet_threads_req1
bound_method start = execute_generic_op_on_all_puppet_threads_req1
bound_method pause = execute_generic_op_on_all_puppet_threads_req1
bound_method resume = execute_generic_op_on_all_puppet_threads_req1
bound_method exit_thread = execute_generic_op_on_all_puppet_threads_req1

abbrev pub has_no_threads : PuppetApplication → Bool
has_no_threads p = elim p.component_threads [ [] ↦ true | _ ∷ _ ↦ false ]

abbrev pub has_function : Option ℕ → Bool
has_function f = elim f [ none ↦ false | some _ ↦ true ]

-- The continuation counts `componentThreads.size()` answers, as an `unsigned int`.
abbrev pub send_to_all :
    ThreadOp → Option ℕ → M PuppetApplication (Option PuppetThreadLifetimeMgmtOp)
send_to_all o f p =
    ok (some (record { loop = new_loop (length p.component_threads % modulus); callback = f }))
      (record p { sent = p.sent ++ map (λ (t : ℕ). (o, t)) p.component_threads })

-- The result is the continuation of the request, if there is one to wait for.
unfoldable pub jolt_all_puppet_threads_req :
    Option ℕ → M PuppetApplication (Option PuppetThreadLifetimeMgmtOp)
unfolding call_function
jolt_all_puppet_threads_req f p =
    if p.threads_have_been_jolted
    then (do call_function f; return none) p
    else if has_no_threads p && has_function f
    then (do call_function f; return none) (record p { threads_have_been_jolted = true })
    else send_to_all jolt f p

-- The start, pause, resume and exit requests, which differ in what they send.
unfoldable pub request_all :
    ThreadOp → Option ℕ → M PuppetApplication (Option PuppetThreadLifetimeMgmtOp)
unfolding call_function
request_all o f p =
    if has_no_threads p && has_function f
    then (do call_function f; return none) p
    else send_to_all o f p

abbrev pub start_all_puppet_threads_req :
    Option ℕ → M PuppetApplication (Option PuppetThreadLifetimeMgmtOp)
start_all_puppet_threads_req = request_all start

abbrev pub pause_all_puppet_threads_req :
    Option ℕ → M PuppetApplication (Option PuppetThreadLifetimeMgmtOp)
pause_all_puppet_threads_req = request_all pause

abbrev pub resume_all_puppet_threads_req :
    Option ℕ → M PuppetApplication (Option PuppetThreadLifetimeMgmtOp)
resume_all_puppet_threads_req = request_all resume

abbrev pub exit_all_puppet_threads_req :
    Option ℕ → M PuppetApplication (Option PuppetThreadLifetimeMgmtOp)
exit_all_puppet_threads_req = request_all exit_thread
