-- ===== src/PuppetApplication/Fleet/Single.antt =====
-- A thread posts the callback of a request once at most.
use libspinscale.Base.{
  ℕ, ◌+◌, ◌≤◌, ◌≡◌, refl, sym, subst, inl, inr, true, false, Option, some, List, [], ◌∷◌, ◌++◌,
  arith, if◌then◌else◌, Bool-cases, Option-cases,
}
use libspinscale.Outcome.{ok}
use libspinscale.IoService.{IoService, IsLawful}
use libspinscale.ComponentThread.{
  ThreadLifetimeMgmtOp, Handler, jolt_thread_req1_posted, start_thread_req1_posted,
  exit_thread_req1_main_queue_posted, exit_thread_req1_pause_queue_posted, pause_thread_req1_posted,
  resume_thread_req1_posted, returned, run_again, PuppetThread, handle, turn, post_main, post_pause,
  jolt_thread_req, start_thread_req, exit_thread_req, pause_thread_req, resume_thread_req,
}
use libspinscale.ComponentThread.Exited.{
  HasExited, exit_main-HasExited, exit_pause-HasExited, turned, ran_again, posted_main,
  posted_pause, step-Silent,
}
use libspinscale.PuppetApplication.{ThreadOp, jolt, start, pause, resume, exit_thread}
use libspinscale.PuppetApplication.Fleet.{carries, n_posted, request_thread}
use libspinscale.PuppetApplication.Fleet.Tokens.{
  n_carried, n_carried-append, reply, n_posted-append, n_posted-reply, handle-Handles, TurnOf, ends,
  runs_main, runs_pause, turn_in-TurnOf, tokens, turn-tokens,
}

-- The handlers of the request in a queue are exit handlers of one kind.
abbrev pub OnlyExits : (ThreadLifetimeMgmtOp → Handler) → ℕ → List Handler → Type 0
OnlyExits exits r [] = Unit
OnlyExits exits r (h ∷ hs) =
    (carries r h ≡ true → (op : ThreadLifetimeMgmtOp) × (h ≡ exits op)) × OnlyExits exits r hs

abbrev pub OnlyMainExits : ℕ → List Handler → Type 0
OnlyMainExits = OnlyExits exit_thread_req1_main_queue_posted

abbrev pub OnlyPauseExits : ℕ → List Handler → Type 0
OnlyPauseExits = OnlyExits exit_thread_req1_pause_queue_posted

module _ {I : IoService Handler} where
  -- The thread posts the callback once at most: since one handler or post of it is there, or since the
  -- first of its exit handlers to run is the last handler that runs.
  pub data Single (r : ℕ) (t : PuppetThread I) : Type 0 where
    by_token : tokens r t ≤ 1 → Single r t
    by_exit :
        n_posted r t.callbacks ≡ 0
        → OnlyMainExits r (I.pending t.io_service)
        → OnlyPauseExits r (I.pending t.pause_io_service)
        → Single r t
    by_end : HasExited t → n_posted r t.callbacks ≤ 1 → Single r t

  pub Single-le : (r : ℕ) (t : PuppetThread I) → Single r t → n_posted r t.callbacks ≤ 1
  Single-le r t (by_token h) = omega (arith, h)
  Single-le r t (by_exit e m p) = omega (arith, e)
  Single-le r t (by_end h e) = e

module _ (exits : ThreadLifetimeMgmtOp → Handler) (r : ℕ) where
  OnlyExits-append :
      (hs : List Handler) (h : Handler)
      → OnlyExits exits r hs
      → (carries r h ≡ true → (op : ThreadLifetimeMgmtOp) × (h ≡ exits op))
      → OnlyExits exits r (hs ++ h ∷ [])
  OnlyExits-append [] h a k = (k, tt)
  OnlyExits-append (x ∷ hs) h a k = (a.0, OnlyExits-append hs h a.1 k)

  OnlyExits-none : (hs : List Handler) → n_carried r hs ≡ 0 → OnlyExits exits r hs
  OnlyExits-none [] e = tt
  OnlyExits-none (h ∷ hs) e =
      (λ k. absurd (ground (arith, k, e)), OnlyExits-none hs (ground (arith, e)))

module _ {I : IoService Handler} (law : IsLawful I) (r : ℕ) where
  -- The callbacks after a handler that carries the request, or not.
  n_posted-handle :
      (h : Handler) (t : PuppetThread I)
      → n_posted r (handle h t).callbacks ≡ n_posted r t.callbacks + (if carries r h then 1 else 0)
  n_posted-handle h t =
      let k = handle-Handles law h t in
      rw k.callbacks (ground (arith, n_posted-append r t.callbacks (reply h), n_posted-reply r h))

  exit-Single :
      (t t' : PuppetThread I)
      → TurnOf t t'
      → n_posted r t.callbacks ≡ 0
      → OnlyMainExits r (I.pending t.io_service)
      → OnlyPauseExits r (I.pending t.pause_io_service)
      → Single r t'
  exit-Single t t' (ends c m p) e a b = by_exit (rw c e) (rw m a) (rw p b)
  exit-Single t t' (runs_main h s m q now) e a b =
      let t0 : PuppetThread I = record t { io_service = s } in
      let k = handle-Handles law h t0 in
      let n = n_posted-handle h t0 in
      let a' : OnlyMainExits r (h ∷ I.pending s) = subst (OnlyMainExits r) q a in
      rw now (elim (Bool-cases (carries r h)) [
        | inl ours ↦
            let (op, at) = a'.0 ours in
            by_end
              (subst (λ (x : Handler). HasExited (handle x t0)) (sym at)
                (exit_main-HasExited law op t0 m))
              (ground (arith, n, ours, e))
        | inr other ↦ by_exit (ground (arith, n, other, e)) (rw k.main a'.1) (rw k.pause b)
      ])
  exit-Single t t' (runs_pause h s m q now) e a b =
      let t0 : PuppetThread I = record t { pause_io_service = s } in
      let k = handle-Handles law h t0 in
      let n = n_posted-handle h t0 in
      let b' : OnlyPauseExits r (h ∷ I.pending s) = subst (OnlyPauseExits r) q b in
      rw now (elim (Bool-cases (carries r h)) [
        | inl ours ↦
            let (op, at) = b'.0 ours in
            by_end
              (subst (λ (x : Handler). HasExited (handle x t0)) (sym at)
                (exit_pause-HasExited law op t0))
              (ground (arith, n, ours, e))
        | inr other ↦ by_exit (ground (arith, n, other, e)) (rw k.main a) (rw k.pause b'.1)
      ])

  pub turn-Single : (t t' : PuppetThread I) → turn t ≡ some t' → Single r t → Single r t'
  turn-Single t t' e (by_token h) =
      by_token (rw (turn-tokens law r t t' (turn_in-TurnOf law t.mode t t' refl e)) h)
  turn-Single t t' e (by_exit n a b) =
      exit-Single t t' (turn_in-TurnOf law t.mode t t' refl e) n a b
  turn-Single t t' e (by_end h n) =
      let k = step-Silent law (turned e) h in by_end k.exited (rw k.callbacks n)

  pub run_again-Single :
      (t : PuppetThread I)
      → t.mode ≡ returned
      → t.keep_looping ≡ true
      → Single r t
      → Single r (run_again t)
  run_again-Single t m k (by_token h) = by_token (rw (law.pending-reset t.io_service) h)
  run_again-Single t m k (by_exit n a b) = by_exit n (rw (law.pending-reset t.io_service) a) b
  run_again-Single t m k (by_end h n) =
      let s = step-Silent law (ran_again m k) h in by_end s.exited n

  pub post_main-Single :
      (h : Handler) (t : PuppetThread I)
      → carries r h ≡ false
      → Single r t
      → Single r (post_main h t)
  post_main-Single h t c (by_token k) = by_token (
      rw (law.pending-post h t.io_service)
        (ground (arith, n_carried-append r (I.pending t.io_service) (h ∷ []), c, k)))
  post_main-Single h t c (by_exit n a b) =
      by_exit n
        (rw (law.pending-post h t.io_service) (
          OnlyExits-append exit_thread_req1_main_queue_posted r (I.pending t.io_service) h a
            (λ k. absurd (cc))))
        b
  post_main-Single h t c (by_end k n) =
      let s = step-Silent law (posted_main h) k in by_end s.exited n

  pub post_pause-Single :
      (h : Handler) (t : PuppetThread I)
      → carries r h ≡ false
      → Single r t
      → Single r (post_pause h t)
  post_pause-Single h t c (by_token k) = by_token (
      rw (law.pending-post h t.pause_io_service)
        (ground (arith, n_carried-append r (I.pending t.pause_io_service) (h ∷ []), c, k)))
  post_pause-Single h t c (by_exit n a b) = by_exit n a (
      rw (law.pending-post h t.pause_io_service) (
        OnlyExits-append exit_thread_req1_pause_queue_posted r (I.pending t.pause_io_service) h b
          (λ k. absurd (cc))))
  post_pause-Single h t c (by_end k n) =
      let s = step-Silent law (posted_pause h) k in by_end s.exited n

  main_exit :
      (op : ThreadLifetimeMgmtOp) (t : PuppetThread I)
      → tokens r t ≡ 0
      → Single r (
          post_pause
            (exit_thread_req1_pause_queue_posted op)
            (post_main (exit_thread_req1_main_queue_posted op) t))
  main_exit op t e =
      by_exit (omega (arith, e))
        (rw (law.pending-post (exit_thread_req1_main_queue_posted op) t.io_service) (
          OnlyExits-append exit_thread_req1_main_queue_posted r (I.pending t.io_service)
            (exit_thread_req1_main_queue_posted op)
            (OnlyExits-none exit_thread_req1_main_queue_posted r (I.pending t.io_service)
              (omega (arith, e)))
            (λ _. (op, refl))))
        (rw (law.pending-post (exit_thread_req1_pause_queue_posted op) t.pause_io_service) (
          OnlyExits-append exit_thread_req1_pause_queue_posted r (I.pending t.pause_io_service)
            (exit_thread_req1_pause_queue_posted op)
            (OnlyExits-none exit_thread_req1_pause_queue_posted r (I.pending t.pause_io_service)
              (omega (arith, e)))
            (λ _. (op, refl))))

  posted_one :
      (h : Handler) (t : PuppetThread I)
      → tokens r t ≡ 0
      → Single r (post_main h t) × Single r (post_pause h t)
  posted_one h t e = (
    by_token (
        rw (law.pending-post h t.io_service)
          (ground (arith, n_carried-append r (I.pending t.io_service) (h ∷ []), e))),
    by_token (
        rw (law.pending-post h t.pause_io_service)
          (ground (arith, n_carried-append r (I.pending t.pause_io_service) (h ∷ []), e))),
  )

  -- A request to a thread that has nothing of it yet.
  pub request_thread-Single :
      (o : ThreadOp) (mrntt_id mrntt : ℕ) (self : Option ℕ) (f : Option ℕ) (t t' : PuppetThread I)
      → tokens r t ≡ 0
      → request_thread o mrntt_id mrntt self f t ≡ ok tt t'
      → Single r t'
  unfolding request_thread jolt_thread_req start_thread_req exit_thread_req pause_thread_req
      resume_thread_req
  request_thread-Single jolt mrntt_id mrntt self f t t' e k =
      let h = jolt_thread_req1_posted (record { caller = mrntt; callback = f }) in
      let now : t' ≡ post_main h t = ground (arith, k) in rw now (posted_one h t e).0
  request_thread-Single start mrntt_id mrntt self f t t' e k = elim (Option-cases self) [
    | inl unset ↦ absurd (ground (arith, unset, k))
    | inr (c, set) ↦
        let h = start_thread_req1_posted (record { caller = c; callback = f }) in
        let now : t' ≡ post_main h t = ground (arith, set, k) in rw now (posted_one h t e).0
  ]
  request_thread-Single pause mrntt_id mrntt self f t t' e k = elim (Option-cases self) [
    | inl unset ↦ absurd (ground (arith, unset, k))
    | inr (c, set) ↦
        let h = pause_thread_req1_posted (record { caller = c; callback = f }) in
        let now : t' ≡ post_main h t = ground (arith, set, k) in rw now (posted_one h t e).0
  ]
  request_thread-Single resume mrntt_id mrntt self f t t' e k = elim (Option-cases self) [
    | inl unset ↦ absurd (ground (arith, unset, k))
    | inr (c, set) ↦
        let h = resume_thread_req1_posted (record { caller = c; callback = f }) in
        let now : t' ≡ post_pause h t = ground (arith, set, k) in rw now (posted_one h t e).1
  ]
  request_thread-Single exit_thread mrntt_id mrntt self f t t' e k = elim (Option-cases self) [
    | inl unset ↦ absurd (ground (arith, unset, k))
    | inr (c, set) ↦
        let op : ThreadLifetimeMgmtOp = record { caller = c; callback = f } in
        let now : t'
            ≡ post_pause (exit_thread_req1_pause_queue_posted op)
                (post_main (exit_thread_req1_main_queue_posted op) t) =
          ground (arith, set, k) in
        rw now (main_exit op t e)
  ]
