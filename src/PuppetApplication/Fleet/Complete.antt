-- ===== src/PuppetApplication/Fleet/Complete.antt =====
-- A request to all threads is complete after every thread has run its handler, and not before.
use native.Mathlib.Decide.{dec_lt}
use libspinscale.Base.{
  ℕ, zero, suc, ◌<◌, ◌≤◌, ◌≡◌, refl, sym, ◌∙◌, ap, subst, ◌⊎◌, inl, inr, true, false, Option, none,
  some, List, update, arith,
}
use libspinscale.Outcome.{M, ok}
use libspinscale.AsynchronousLoop.{modulus}
use libspinscale.IoService.{IoService, IsLawful}
use libspinscale.ComponentThread.{Handler, PuppetThread, run_again, post_main, post_pause}
use libspinscale.PuppetApplication.{
  ThreadOp, jolt, start, pause, resume, exit_thread, PuppetApplication, PuppetThreadLifetimeMgmtOp,
  Answer, call_original_cb, bound_method, request_all, jolt_all_puppet_threads_req,
  jolt_all_puppet_threads_req1, execute_generic_op_on_all_puppet_threads_req1,
}
use libspinscale.PuppetApplication.Answers.{
  answers, requested, n_threads, Answered, request_all-Answered, jolt_all-Answered,
}
use libspinscale.PuppetApplication.Fleet.{
  n_posted, n_posted_by, request_threads, Fleet, Step, turned, ran_again, posted_main, posted_pause,
  answered, Steps, here, after,
}
use libspinscale.PuppetApplication.Fleet.Tokens.{tokens, n_posted-turn, turn_in-TurnOf}
use libspinscale.PuppetApplication.Fleet.Counting.{
  DistinctThreads, AllPosted, n_posted_by-le, n_posted_by-full, n_posted_by-update, update-Single,
}
use libspinscale.PuppetApplication.Fleet.Sending.{AllUnsent-every, request_threads-Single}
use libspinscale.PuppetApplication.Fleet.Single.{
  Single, by_token, Single-le, turn-Single, run_again-Single, post_main-Single, post_pause-Single,
}

-- The request that the application is asked for.
abbrev pub start_request :
    ThreadOp → Option ℕ → M PuppetApplication (Option PuppetThreadLifetimeMgmtOp)
start_request jolt f p = jolt_all_puppet_threads_req f p
start_request o f p = request_all o f p

-- The application after the last answer.
abbrev pub concluded : ThreadOp → Option ℕ → PuppetApplication → PuppetApplication
concluded jolt f p = call_original_cb f (record p { threads_have_been_jolted = true })
concluded o f p = call_original_cb f p

answers-suc :
    (a : Answer) (k : ℕ) (s : PuppetThreadLifetimeMgmtOp × PuppetApplication)
    → answers a (suc k) s ≡ a (answers a k s)
answers-suc a zero s = refl
answers-suc a (suc k) s = answers-suc a k (a s)

call_original_cb-threads :
    (f : Option ℕ) (p : PuppetApplication)
    → (call_original_cb f p).component_threads ≡ p.component_threads
call_original_cb-threads none p = refl
call_original_cb-threads (some g) p = refl

bound_method-threads :
    (o : ThreadOp) (op : PuppetThreadLifetimeMgmtOp) (p : PuppetApplication)
    → (bound_method o (op, p)).1.component_threads ≡ p.component_threads
unfolding bound_method jolt_all_puppet_threads_req1 execute_generic_op_on_all_puppet_threads_req1
bound_method-threads jolt op p =
    ground
      (arith, call_original_cb-threads op.callback (record p { threads_have_been_jolted = true }))
bound_method-threads o op p = ground (arith, call_original_cb-threads op.callback p)

start_request-Answered :
    (o : ThreadOp) (f : Option ℕ) (p : PuppetApplication)
    → 0 < n_threads p
    → n_threads p < modulus
    → (o ≡ jolt → p.threads_have_been_jolted ≡ false)
    → (op : PuppetThreadLifetimeMgmtOp) × (start_request o f p ≡ ok (some op) (requested o p))
      × Answered o f op p (concluded o f (requested o p))
start_request-Answered jolt f p n small fresh = jolt_all-Answered f p n small (fresh refl)
start_request-Answered start f p n small fresh = request_all-Answered f p n small start (λ e. cc)
start_request-Answered pause f p n small fresh = request_all-Answered f p n small pause (λ e. cc)
start_request-Answered resume f p n small fresh = request_all-Answered f p n small resume (λ e. cc)
start_request-Answered exit_thread f p n small fresh =
    request_all-Answered f p n small exit_thread (λ e. cc)

module _ {I : IoService Handler} (law : IsLawful I) (r : ℕ) where
  -- What holds of a request under way, from the application `p` and the counter `op` on.
  record UnderWay (o : ThreadOp) (op : PuppetThreadLifetimeMgmtOp) (p : PuppetApplication)
      (s : Fleet I) : Type 0 where
    single : (i : ℕ) → Single r (s.threads i)
    counted : (s.request, s.puppet_application) ≡ answers (bound_method o) s.n_answered (op, p)
    listed : s.puppet_application.component_threads ≡ p.component_threads
    bounded : s.n_answered ≤ n_posted_by r p.component_threads s.threads

  changed :
      (o : ThreadOp) (op : PuppetThreadLifetimeMgmtOp) (p : PuppetApplication) (s : Fleet I) (i : ℕ)
      (t : PuppetThread I)
      → UnderWay o op p s
      → Single r t
      → n_posted r (s.threads i).callbacks ≤ n_posted r t.callbacks
      → UnderWay o op p (record s { threads = update s.threads i t })
  changed o op p s i t h k le = record {
    single = update-Single r s.threads i t h.single k;
    counted = h.counted;
    listed = h.listed;
    bounded = omega (arith, h.bounded, n_posted_by-update r p.component_threads s.threads i t le);
  }

  step-UnderWay :
      (o : ThreadOp) (op : PuppetThreadLifetimeMgmtOp) (p : PuppetApplication) {s u : Fleet I}
      → Step o r s u
      → UnderWay o op p s
      → UnderWay o op p u
  step-UnderWay o op p {s} (turned {t} i e) h =
      changed o op p s i t h (turn-Single law r (s.threads i) t e (h.single i)) (
        n_posted-turn law r (s.threads i) t
          (turn_in-TurnOf law (s.threads i).mode (s.threads i) t refl e))
  step-UnderWay o op p {s} (ran_again i m k) h =
      changed o op p s i (run_again (s.threads i)) h
        (run_again-Single law r (s.threads i) m k (h.single i)) (omega arith)
  step-UnderWay o op p {s} (posted_main i k c) h =
      changed o op p s i (post_main k (s.threads i)) h
        (post_main-Single law r k (s.threads i) c (h.single i)) (omega arith)
  step-UnderWay o op p {s} (posted_pause i k c) h =
      changed o op p s i (post_pause k (s.threads i)) h
        (post_pause-Single law r k (s.threads i) c (h.single i)) (omega arith)
  step-UnderWay o op p {s} (answered lt) h = record {
    single = h.single;
    counted =
        ap (bound_method o) h.counted ∙ sym (answers-suc (bound_method o) s.n_answered (op, p));
    listed = bound_method-threads o s.request s.puppet_application ∙ h.listed;
    bounded =
        subst (λ (l : List ℕ). suc s.n_answered ≤ n_posted_by r l s.threads) h.listed
          (omega (arith, lt));
  }

  Steps-UnderWay :
      (o : ThreadOp) (op : PuppetThreadLifetimeMgmtOp) (p : PuppetApplication) {s u : Fleet I}
      → Steps o r s u
      → UnderWay o op p s
      → UnderWay o op p u
  Steps-UnderWay o op p here h = h
  Steps-UnderWay o op p (after steps step) h =
      step-UnderWay o op p step (Steps-UnderWay o op p steps h)

  -- The application after some of the answers.
  counted-concluded :
      (o : ThreadOp) (f : Option ℕ) (op : PuppetThreadLifetimeMgmtOp) (p : PuppetApplication)
      (s : Fleet I)
      → UnderWay o op (requested o p) s
      → Answered o f op p (concluded o f (requested o p))
      → ((s.n_answered < n_threads p) × (s.puppet_application ≡ requested o p))
        ⊎ ((s.n_answered ≡ n_threads p)
            × AllPosted r p.component_threads s.threads
            × (s.puppet_application ≡ concluded o f (requested o p)))
  counted-concluded o f op p s h a =
      let app : s.puppet_application
          ≡ (answers (bound_method o) s.n_answered (op, requested o p)).1 =
        ap (λ (x : PuppetThreadLifetimeMgmtOp × PuppetApplication). x.1) h.counted in
      let once : (i : ℕ) → n_posted r (s.threads i).callbacks ≤ 1 =
        λ i. Single-le r (s.threads i) (h.single i) in
      let few = n_posted_by-le r p.component_threads s.threads once in
      elim (dec_lt s.n_answered (n_threads p)) [
        | yes less ↦ inl (less, app ∙ a.early s.n_answered less)
        | no all ↦
            let full : s.n_answered ≡ n_threads p = omega (arith, few, h.bounded) in
            inr (
              full,
              n_posted_by-full r p.component_threads s.threads once (omega (arith, h.bounded)),
              app
                  ∙ ap (λ (k : ℕ). (answers (bound_method o) k (op, requested o p)).1) full
                  ∙ a.complete,
            )
      ]

  -- Let an application have at least one thread and fewer than 2 ^ 32, none listed twice, and, if
  -- the request is a jolt, no jolt completed before; let its request be sent to each of the
  -- threads, none of which has posted the callback of that request or been posted a handler of it.
  -- From there let the threads take turns, run their main service again after it has returned
  -- while `keepLooping` is set, be posted handlers of anything else, and let posted callbacks of
  -- the request be run, in any order. Then either some answer is missing and the application is as
  -- the request left it, or each thread has posted the callback exactly once and the request is
  -- concluded: its callback was called once, if there is one, and after a jolt the flag is set. It
  -- is so for all five requests, those to jolted threads and the exit included, which is posted to
  -- both services of a thread.
  pub Steps-concluded :
      (o : ThreadOp) (f : Option ℕ) (p p' : PuppetApplication) (op : PuppetThreadLifetimeMgmtOp)
      → 0 < n_threads p
      → n_threads p < modulus
      → DistinctThreads p.component_threads
      → (o ≡ jolt → p.threads_have_been_jolted ≡ false)
      → start_request o f p ≡ ok (some op) p'
      → (mrntt_id mrntt : ℕ) (self : Option ℕ) (threads threads' : ℕ → PuppetThread I)
      → ((i : ℕ) → tokens r (threads i) ≡ 0)
      → request_threads o mrntt_id mrntt self (some r) p.component_threads threads ≡ ok tt threads'
      → {s : Fleet I}
      → Steps o r
          (record { puppet_application = p'; request = op; threads = threads'; n_answered = 0 })
          s
      → ((s.n_answered < n_threads p) × (s.puppet_application ≡ p'))
        ⊎ ((s.n_answered ≡ n_threads p)
            × AllPosted r p.component_threads s.threads
            × (s.puppet_application ≡ concluded o f p'))
  Steps-concluded o f p p' op some_thread small distinct fresh started mrntt_id mrntt self threads
        threads' unsent sent {s} steps =
      let (op0, ran, a) = start_request-Answered o f p some_thread small fresh in
      let same : ok (some op0) (requested o p) ≡ ok (some op) p' = sym ran ∙ started in
      let same_op : op0 ≡ op = cc in
      let same_p : requested o p ≡ p' = cc in
      let single =
        request_threads-Single law r o mrntt_id mrntt self (some r) p.component_threads threads
          threads' distinct (AllUnsent-every law r p.component_threads threads unsent)
          (λ i. by_token (omega (arith, unsent i))) sent in
      let start : UnderWay o op p'
          (record { puppet_application = p'; request = op; threads = threads'; n_answered = 0 }) =
        record { single = single; counted = refl; listed = refl; bounded = omega arith } in
      let h = Steps-UnderWay o op p' steps start in
      subst
        (λ (q : PuppetApplication).
          ((s.n_answered < n_threads p) × (s.puppet_application ≡ q))
          ⊎ ((s.n_answered ≡ n_threads p)
              × AllPosted r p.component_threads s.threads
              × (s.puppet_application ≡ concluded o f q)))
        same_p
        (counted-concluded o f op p s
          (subst (λ (q : PuppetApplication). UnderWay o op q s) (sym same_p) h)
          (subst
            (λ (x : PuppetThreadLifetimeMgmtOp). Answered o f x p (concluded o f (requested o p)))
            same_op a))
