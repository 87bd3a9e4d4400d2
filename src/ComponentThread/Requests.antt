-- ===== src/ComponentThread/Requests.antt =====
-- What a request does to the thread that it is made of, and when it is refused.
use libspinscale.Base.{
  ℕ, ◌≡◌, refl, sym, Bool, true, false, Option, none, some, List, [], ◌∷◌, ◌++◌, ◌==◌, Bool-cases,
  inl, inr, ◌&&◌,
}
use mathlib.Core.List.{append-nil}
use libspinscale.Outcome.{M, Outcome, ok, throw, tls_not_initialized, invoked_on_mrntt_thread}
use libspinscale.IoService.{IoService, IsLawful}
use libspinscale.PuppetApplication.{ThreadOp, jolt, start, pause, resume, exit_thread}
use libspinscale.ComponentThread.{
  ThreadLifetimeMgmtOp, Handler, jolt_thread_req1_posted, start_thread_req1_posted,
  exit_thread_req1_main_queue_posted, exit_thread_req1_pause_queue_posted, pause_thread_req1_posted,
  resume_thread_req1_posted, PuppetThread, jolt_thread_req, start_thread_req, exit_thread_req,
  pause_thread_req, resume_thread_req, post_main, post_pause,
}

-- The requests by name; `self` is the thread that calls and `mrntt` the marionette thread.
abbrev pub request :
    {I : IoService Handler} → ThreadOp → ℕ → ℕ → Option ℕ → Option ℕ → M (PuppetThread I) (Unit {0})
request jolt mrntt_id mrntt self f = jolt_thread_req mrntt_id mrntt f
request start mrntt_id mrntt self f = start_thread_req self f
request pause mrntt_id mrntt self f = pause_thread_req mrntt_id self f
request resume mrntt_id mrntt self f = resume_thread_req mrntt_id self f
request exit_thread mrntt_id mrntt self f = exit_thread_req self f

-- Which requests the marionette thread refuses.
abbrev pub for_puppets_only : ThreadOp → Bool
for_puppets_only jolt = true
for_puppets_only start = false
for_puppets_only pause = true
for_puppets_only resume = true
for_puppets_only exit_thread = false

-- Who is called back: the marionette thread for a jolt, and otherwise the thread that calls.
abbrev pub caller_of : ThreadOp → ℕ → Option ℕ → Option ℕ
caller_of jolt mrntt self = some mrntt
caller_of _ mrntt self = self

abbrev pub to_main : ThreadOp → ThreadLifetimeMgmtOp → List Handler
to_main jolt op = jolt_thread_req1_posted op ∷ []
to_main start op = start_thread_req1_posted op ∷ []
to_main pause op = pause_thread_req1_posted op ∷ []
to_main resume op = []
to_main exit_thread op = exit_thread_req1_main_queue_posted op ∷ []

abbrev pub to_pause : ThreadOp → ThreadLifetimeMgmtOp → List Handler
to_pause resume op = resume_thread_req1_posted op ∷ []
to_pause exit_thread op = exit_thread_req1_pause_queue_posted op ∷ []
to_pause _ op = []

module _ {I : IoService Handler} where
  -- `t'` is `t` with these handlers behind those that wait, and nothing else changed.
  pub record Posted (ms ps : List Handler) (t t' : PuppetThread I) : Type 0 where
    pub main : I.pending t'.io_service ≡ I.pending t.io_service ++ ms
    pub main_stopped : I.stopped t'.io_service ≡ I.stopped t.io_service
    pub pause : I.pending t'.pause_io_service ≡ I.pending t.pause_io_service ++ ps
    pub pause_stopped : I.stopped t'.pause_io_service ≡ I.stopped t.pause_io_service
    pub rest : t' ≡ record t { io_service = t'.io_service; pause_io_service = t'.pause_io_service }

  abbrev pub Accepts :
      ThreadOp
      → ThreadLifetimeMgmtOp
      → PuppetThread I
      → Outcome (PuppetThread I) (Unit {0})
      → Type 0
  Accepts o op t r =
      (t' : PuppetThread I) × (r ≡ ok tt t') × Posted (to_main o op) (to_pause o op) t t'

  -- What a request comes to, by whether it is refused for its target and by who is called back.
  abbrev pub Answer :
      Bool
      → Option ℕ
      → ThreadOp
      → Option ℕ
      → PuppetThread I
      → Outcome (PuppetThread I) (Unit {0})
      → Type 0
  Answer true c o f t r = r ≡ throw invoked_on_mrntt_thread t
  Answer false none o f t r = r ≡ throw tls_not_initialized t
  Answer false (some c) o f t r = Accepts o (record { caller = c; callback = f }) t r

module _ {I : IoService Handler} (law : IsLawful I) where
  post_main-Posted :
      (h : Handler) (t : PuppetThread I)
      → Posted (h ∷ []) [] t (record t { io_service = I.post h t.io_service })
  post_main-Posted h t = record {
    main = law.pending-post h t.io_service;
    main_stopped = law.stopped-post h t.io_service;
    pause = sym (append-nil (I.pending t.pause_io_service));
    pause_stopped = refl;
    rest = refl;
  }

  post_pause-Posted :
      (h : Handler) (t : PuppetThread I)
      → Posted [] (h ∷ []) t (record t { pause_io_service = I.post h t.pause_io_service })
  post_pause-Posted h t = record {
    main = sym (append-nil (I.pending t.io_service));
    main_stopped = refl;
    pause = law.pending-post h t.pause_io_service;
    pause_stopped = law.stopped-post h t.pause_io_service;
    rest = refl;
  }

  post_both-Posted :
      (h k : Handler) (t : PuppetThread I)
      → Posted (h ∷ []) (k ∷ []) t (record t {
        io_service = I.post h t.io_service;
        pause_io_service = I.post k t.pause_io_service;
      })
  post_both-Posted h k t = record {
    main = law.pending-post h t.io_service;
    main_stopped = law.stopped-post h t.io_service;
    pause = law.pending-post k t.pause_io_service;
    pause_stopped = law.stopped-post k t.pause_io_service;
    rest = refl;
  }

  -- Every request returns in one of three ways. A jolt, pause or resume of the marionette thread
  -- throws and changes nothing. Otherwise, a request other than a jolt from a thread without TLS
  -- throws and changes nothing. Otherwise it puts its handlers behind those that wait in each of
  -- the two services and changes nothing else, with the caller to call back: the marionette thread
  -- for a jolt, the thread that calls for the others.
  pub request-Answer :
      (o : ThreadOp) (mrntt_id mrntt : ℕ) (self f : Option ℕ) (t : PuppetThread I)
      → Answer
          (for_puppets_only o && (t.id == mrntt_id))
          (caller_of o mrntt self)
          o
          f
          t
          (request o mrntt_id mrntt self f t)
  unfolding jolt_thread_req start_thread_req exit_thread_req pause_thread_req resume_thread_req
  request-Answer jolt mrntt_id mrntt self f t =
      let op : ThreadLifetimeMgmtOp = record { caller = mrntt; callback = f } in
      elim (Bool-cases (t.id == mrntt_id)) [
        | inl e ↦ rw e refl
        | inr e ↦ rw e (
          post_main (jolt_thread_req1_posted op) t,
          refl,
          post_main-Posted (jolt_thread_req1_posted op) t,
        )
      ]
  request-Answer start mrntt_id mrntt none f t = refl
  request-Answer start mrntt_id mrntt (some c) f t =
      let op : ThreadLifetimeMgmtOp = record { caller = c; callback = f } in
      (
        post_main (start_thread_req1_posted op) t,
        refl,
        post_main-Posted (start_thread_req1_posted op) t,
      )
  request-Answer exit_thread mrntt_id mrntt none f t = refl
  request-Answer exit_thread mrntt_id mrntt (some c) f t =
      let op : ThreadLifetimeMgmtOp = record { caller = c; callback = f } in
      let h = exit_thread_req1_main_queue_posted op in
      let k = exit_thread_req1_pause_queue_posted op in
      (post_pause k (post_main h t), refl, post_both-Posted h k t)
  request-Answer pause mrntt_id mrntt none f t = elim (Bool-cases (t.id == mrntt_id)) [
    | inl e ↦ rw e refl
    | inr e ↦ rw e refl
  ]
  request-Answer pause mrntt_id mrntt (some c) f t =
      let op : ThreadLifetimeMgmtOp = record { caller = c; callback = f } in
      elim (Bool-cases (t.id == mrntt_id)) [
        | inl e ↦ rw e refl
        | inr e ↦ rw e (
          post_main (pause_thread_req1_posted op) t,
          refl,
          post_main-Posted (pause_thread_req1_posted op) t,
        )
      ]
  request-Answer resume mrntt_id mrntt none f t = elim (Bool-cases (t.id == mrntt_id)) [
    | inl e ↦ rw e refl
    | inr e ↦ rw e refl
  ]
  request-Answer resume mrntt_id mrntt (some c) f t =
      let op : ThreadLifetimeMgmtOp = record { caller = c; callback = f } in
      elim (Bool-cases (t.id == mrntt_id)) [
        | inl e ↦ rw e refl
        | inr e ↦ rw e (
          post_pause (resume_thread_req1_posted op) t,
          refl,
          post_pause-Posted (resume_thread_req1_posted op) t,
        )
      ]
