-- ===== src/PuppetApplication/Fleet.antt =====
-- src/puppetApplication.cpp with src/componentThread.cpp: a request to all puppet threads, the threads
-- that run its handlers, and the thread that made it.
--
-- The bound method of the request is the callback `r` of the operation that each thread is sent. The
-- thread that made the request runs a posted callback by a call of that method.
pub mod Tokens
pub mod Single
pub mod Counting
pub mod Sending
pub mod Complete
mod Examples
use libspinscale.Base.{
  ℕ, suc, ◌+◌, ◌<◌, ◌≡◌, ◌≢◌, Bool, true, false, Option, none, some, List, [], ◌∷◌, update, ◌==◌,
  if◌then◌else◌,
}
use libspinscale.Outcome.{M, ok, stop}
use libspinscale.IoService.{IoService}
use libspinscale.ComponentThread.{
  ThreadLifetimeMgmtOp, Handler, jolt_thread_req1_posted, start_thread_req1_posted,
  exit_thread_req1_main_queue_posted, exit_thread_req1_pause_queue_posted, pause_thread_req1_posted,
  resume_thread_req1_posted, application, returned, PuppetThread, turn, run_again, post_main,
  post_pause, jolt_thread_req, start_thread_req, exit_thread_req, pause_thread_req,
  resume_thread_req,
}
use libspinscale.PuppetApplication.{
  ThreadOp, jolt, start, pause, resume, exit_thread, PuppetApplication, PuppetThreadLifetimeMgmtOp,
  bound_method,
}

-- The operation that a handler of a request belongs to.
abbrev pub op_of : Handler → Option ThreadLifetimeMgmtOp
op_of (jolt_thread_req1_posted op) = some op
op_of (start_thread_req1_posted op) = some op
op_of (exit_thread_req1_main_queue_posted op) = some op
op_of (exit_thread_req1_pause_queue_posted op) = some op
op_of (pause_thread_req1_posted op) = some op
op_of (resume_thread_req1_posted op) = some op
op_of (application _) = none

abbrev pub is_callback : ℕ → Option ℕ → Bool
is_callback r none = false
is_callback r (some f) = f == r

-- The handler belongs to the request.
abbrev pub carries : ℕ → Handler → Bool
carries r h = elim (op_of h) [ none ↦ false | some op ↦ is_callback r op.callback ]

-- How often the callback was posted.
abbrev pub n_posted : ℕ → List (ℕ × ℕ) → ℕ
n_posted r [] = 0
n_posted r (c ∷ cs) = if c.1 == r then suc (n_posted r cs) else n_posted r cs

module _ {I : IoService Handler} where
  -- The request of each kind to one thread, made by the thread `self`; a jolt is made for `mrntt`.
  unfoldable pub request_thread :
      ThreadOp → ℕ → ℕ → Option ℕ → Option ℕ → M (PuppetThread I) (Unit {0})
  request_thread jolt mrntt_id mrntt self f = jolt_thread_req mrntt_id mrntt f
  request_thread start mrntt_id mrntt self f = start_thread_req self f
  request_thread pause mrntt_id mrntt self f = pause_thread_req mrntt_id self f
  request_thread resume mrntt_id mrntt self f = resume_thread_req mrntt_id self f
  request_thread exit_thread mrntt_id mrntt self f = exit_thread_req self f

  -- The loop over the threads.
  unfoldable pub request_threads :
      ThreadOp → ℕ → ℕ → Option ℕ → Option ℕ → List ℕ → M (ℕ → PuppetThread I) (Unit {0})
  request_threads o mrntt_id mrntt self f [] threads = ok tt threads
  request_threads o mrntt_id mrntt self f (i ∷ is) threads =
      elim (request_thread o mrntt_id mrntt self f (threads i)) [
        | ok _ t ↦ request_threads o mrntt_id mrntt self f is (update threads i t)
        | stop e t ↦ stop e (update threads i t)
      ]

-- `n_answered` counts the callbacks of the request that were run.
pub record Fleet (I : IoService Handler) : Type 0 where
  pub puppet_application : PuppetApplication
  pub request : PuppetThreadLifetimeMgmtOp
  pub threads : ℕ → PuppetThread I
  pub n_answered : ℕ

module _ {I : IoService Handler} where
  -- The callbacks of the request that the threads of the list have posted.
  abbrev pub n_posted_by : ℕ → List ℕ → (ℕ → PuppetThread I) → ℕ
  n_posted_by r [] threads = 0
  n_posted_by r (i ∷ is) threads = n_posted r (threads i).callbacks + n_posted_by r is threads

  -- A thread takes a turn, or runs its main service again; or it is posted a handler of something else; or the thread that made the
  -- request runs a callback of it that was posted.
  pub data Step (o : ThreadOp) (r : ℕ) (s : Fleet I) : Fleet I → Type 0 where
    turned :
        {t : PuppetThread I} (i : ℕ)
        → turn (s.threads i) ≡ some t
        → Step o r s (record s { threads = update s.threads i t })
    ran_again :
        (i : ℕ)
        → (s.threads i).mode ≡ returned
        → (s.threads i).keep_looping ≡ true
        → Step o r s (record s { threads = update s.threads i (run_again (s.threads i)) })
    posted_main :
        (i : ℕ) (h : Handler)
        → carries r h ≡ false
        → Step o r s (record s { threads = update s.threads i (post_main h (s.threads i)) })
    posted_pause :
        (i : ℕ) (h : Handler)
        → carries r h ≡ false
        → Step o r s (record s { threads = update s.threads i (post_pause h (s.threads i)) })
    answered :
        s.n_answered < n_posted_by r s.puppet_application.component_threads s.threads
        → Step o r s (record s {
          request = (bound_method o (s.request, s.puppet_application)).0;
          puppet_application = (bound_method o (s.request, s.puppet_application)).1;
          n_answered = suc s.n_answered;
        })

  pub data Steps (o : ThreadOp) (r : ℕ) (s : Fleet I) : Fleet I → Type 0 where
    here : Steps o r s s
    after : {t u : Fleet I} → Steps o r s t → Step o r t u → Steps o r s u
