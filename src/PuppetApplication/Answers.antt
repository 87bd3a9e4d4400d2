-- ===== src/PuppetApplication/Answers.antt =====
-- The answers of the threads to a request.
use libspinscale.Base.{
  ℕ, zero, suc, ◌%◌, ◌+◌, ◌<◌, ◌≡◌, ◌≢◌, refl, ◌∙◌, ap, true, false, Option, none, some, List, [],
  ◌∷◌, ◌++◌, if◌then◌else◌, ◌==◌, arith, length, ==_ne, ==_refl, map,
}
use libspinscale.Outcome.{ok}
use libspinscale.AsynchronousLoop.{modulus, is_complete, increment_success_or_failure_due_to}
use libspinscale.PuppetApplication.{
  exit_all_puppet_threads_req, ThreadOp, jolt, start, pause, resume, exit_thread, PuppetApplication,
  PuppetThreadLifetimeMgmtOp, Answer, count_answer, call_original_cb, bound_method, jolted,
  executed, request_all, jolt_all_puppet_threads_req1,
  execute_generic_op_on_all_puppet_threads_req1, jolt_all_puppet_threads_req,
}

-- The state after `k` threads have answered.
abbrev pub answers : Answer → ℕ → Answer
answers answer zero s = s
answers answer (suc k) s = answers answer k (answer s)

-- The request of `n` threads after `k` answers.
abbrev pub counted : ℕ → ℕ → Option ℕ → PuppetThreadLifetimeMgmtOp
counted n k f = record {
  loop = record { n_total = n; n_succeeded = k; n_failed = 0 };
  callback = f;
}

module _ (finish : PuppetThreadLifetimeMgmtOp → PuppetApplication → PuppetApplication) (n : ℕ)
    (f : Option ℕ) (p : PuppetApplication) (small : n < modulus) where
  count_answer-counted :
      (j : ℕ)
      → j < n
      → count_answer finish (counted n j f, p)
        ≡ (counted n (suc j) f, if suc j == n then finish (counted n (suc j) f) p else p)
  unfolding is_complete increment_success_or_failure_due_to
  count_answer-counted j h =
      let e : suc j % modulus ≡ suc j = omega arith in
      let e' : (suc j + 0) % modulus ≡ suc j = omega arith in ground (arith, e, e')

  -- Before the last answer nothing follows.
  answers-before :
      (k j : ℕ)
      → j + k < n
      → answers (count_answer finish) k (counted n j f, p) ≡ (counted n (j + k) f, p)
  answers-before zero j h = let e : j + 0 ≡ j = omega arith in rw e
  answers-before (suc k) j h =
      let e : j + suc k ≡ suc j + k = omega arith in
      let more : (suc j == n) ≡ false = ==_ne _ _ (omega arith) in
      ap (answers (count_answer finish) k) (count_answer-counted j (omega arith))
      ∙ (rw (more, e) (answers-before k (suc j) (omega arith)))

  answers-last :
      (k j : ℕ)
      → j + suc k ≡ n
      → answers (count_answer finish) (suc k) (counted n j f, p)
        ≡ (counted n n f, finish (counted n n f) p)
  answers-last zero j h =
      let e : suc j ≡ n = omega arith in count_answer-counted j (omega arith) ∙ (rw (e, ==_refl n))
  answers-last (suc k) j h =
      let more : (suc j == n) ≡ false = ==_ne _ _ (omega arith) in
      ap (answers (count_answer finish) (suc k)) (count_answer-counted j (omega arith))
      ∙ (rw more (answers-last k (suc j) (omega arith)))

  answers-full :
      (m : ℕ)
      → m ≡ n
      → 0 < m
      → answers (count_answer finish) m (counted n 0 f, p)
        ≡ (counted n n f, finish (counted n n f) p)
  answers-full zero e h = absurd (omega arith)
  answers-full (suc k) e h = answers-last k 0 (omega arith)

abbrev pub n_threads : PuppetApplication → ℕ
n_threads p = length p.component_threads

-- The application after a request was sent to all its threads.
abbrev pub requested : ThreadOp → PuppetApplication → PuppetApplication
requested o p = record p { sent = p.sent ++ map (λ (t : ℕ). (o, t)) p.component_threads }

-- Nothing follows before the last answer, and `last` is the application after it.
pub record Answered (o : ThreadOp) (f : Option ℕ) (op : PuppetThreadLifetimeMgmtOp)
    (p last : PuppetApplication) : Type 0 where
  pub early :
      (k : ℕ) → k < n_threads p → (answers (bound_method o) k (op, requested o p)).1 ≡ requested o p
  pub complete : (answers (bound_method o) (n_threads p) (op, requested o p)).1 ≡ last

bound-executed : (o : ThreadOp) → o ≢ jolt → bound_method o ≡ count_answer executed
unfolding bound_method execute_generic_op_on_all_puppet_threads_req1
bound-executed jolt h = absurd (h refl)
bound-executed start h = refl
bound-executed pause h = refl
bound-executed resume h = refl
bound-executed exit_thread h = refl

has_no_threads-pos : (ts : List ℕ) → 0 < length ts → elim ts [ [] ↦ true | _ ∷ _ ↦ false ] ≡ false
has_no_threads-pos [] h = absurd (omega arith)
has_no_threads-pos (t ∷ ts) h = refl

call_original_cb-joined :
    (f : Option ℕ) (p : PuppetApplication) → (call_original_cb f p).joined ≡ p.joined
call_original_cb-joined none p = refl
call_original_cb-joined (some g) p = refl

module _ (f : Option ℕ) (p : PuppetApplication) (some_thread : 0 < n_threads p)
    (small : n_threads p < modulus) where
  -- Let there be at least one thread and fewer than 2 ^ 32. A start, pause, resume or exit request
  -- sends the operation to every thread; the application stays as it is until all threads but one
  -- have answered, and after the last answer the callback has been called once, if there is one,
  -- and nothing else has changed.
  pub request_all-Answered :
      (o : ThreadOp)
      → o ≢ jolt
      → (op : PuppetThreadLifetimeMgmtOp) × (request_all o f p ≡ ok (some op) (requested o p))
        × Answered o f op p (call_original_cb f (requested o p))
  unfolding request_all
  request_all-Answered o h =
      let n = n_threads p in
      let fits : n % modulus ≡ n = omega arith in
      (
        counted n 0 f,
        ground (arith, fits, has_no_threads-pos p.component_threads some_thread),
        record {
          early = λ k less. rw (bound-executed o h) (
              ap (λ (s : PuppetThreadLifetimeMgmtOp × PuppetApplication). s.1)
                (answers-before executed n f (requested o p) small k 0 (omega arith)));
          complete = rw (bound-executed o h) (
              ap (λ (s : PuppetThreadLifetimeMgmtOp × PuppetApplication). s.1)
                (answers-full executed n f (requested o p) small n refl some_thread));
        },
      )

  -- Let there be at least one thread and fewer than 2 ^ 32, and no jolt have been completed. A
  -- jolt request sends the operation to every thread; the application stays as it is until all
  -- threads but one have answered, and after the last answer the flag is set and the callback has
  -- been called once, if there is one.
  pub jolt_all-Answered :
      p.threads_have_been_jolted ≡ false
      → (op : PuppetThreadLifetimeMgmtOp) × (jolt_all_puppet_threads_req f p
          ≡ ok (some op) (requested jolt p))
        × Answered jolt f op p
            (call_original_cb f (record (requested jolt p) { threads_have_been_jolted = true }))
  unfolding jolt_all_puppet_threads_req bound_method jolt_all_puppet_threads_req1
  jolt_all-Answered h =
      let n = n_threads p in
      let fits : n % modulus ≡ n = omega arith in
      (
        counted n 0 f,
        ground (arith, h, fits, has_no_threads-pos p.component_threads some_thread),
        record {
          early = λ k less.
              ap (λ (s : PuppetThreadLifetimeMgmtOp × PuppetApplication). s.1)
                (answers-before jolted n f (requested jolt p) small k 0 (omega arith));
          complete =
              ap (λ (s : PuppetThreadLifetimeMgmtOp × PuppetApplication). s.1)
                (answers-full jolted n f (requested jolt p) small n refl some_thread);
        },
      )

  -- With at least one thread and fewer than 2 ^ 32, all answers to an exit request together join
  -- no thread.
  pub exit_all-joins_none :
      (op : PuppetThreadLifetimeMgmtOp) × (exit_all_puppet_threads_req f p
        ≡ ok (some op) (requested exit_thread p))
      × ((answers (bound_method exit_thread) (n_threads p) (op, requested exit_thread p)).1.joined
          ≡ p.joined)
  exit_all-joins_none =
      let (op, ran, a) = request_all-Answered exit_thread (λ e. cc) in
      (
        op,
        ran,
        ap (λ (q : PuppetApplication). q.joined) a.complete
            ∙ call_original_cb-joined f (requested exit_thread p),
      )
