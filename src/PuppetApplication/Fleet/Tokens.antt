-- ===== src/PuppetApplication/Fleet/Tokens.antt =====
-- What a turn of a thread does to the handlers and the callbacks of a request.
use libspinscale.Base.{
  ℕ, suc, ◌+◌, ◌≤◌, ◌≡◌, refl, sym, ◌∙◌, ap, subst, inl, inr, none, some, List, [], ◌∷◌, ◌++◌,
  arith, if◌then◌else◌, Bool-cases, List-cases, Option-cases,
}
use mathlib.Core.List.{append-nil}
use libspinscale.IoService.{IoService, IsLawful, RunOne-cases, runs}
use libspinscale.ComponentThread.{
  ThreadLifetimeMgmtOp, Handler, jolt_thread_req1_posted, start_thread_req1_posted,
  exit_thread_req1_main_queue_posted, exit_thread_req1_pause_queue_posted, pause_thread_req1_posted,
  resume_thread_req1_posted, application, Mode, running, paused, returned, PuppetThread,
  call_original_cb, cleanup, stop_main, stop_pause, handle, turn_in,
}
use libspinscale.ComponentThread.Turns.{answer, call_original_cb-answer}
use libspinscale.PuppetApplication.Fleet.{op_of, is_callback, carries, n_posted}

-- The handlers of the request among those of a queue.
abbrev pub n_carried : ℕ → List Handler → ℕ
n_carried r [] = 0
n_carried r (h ∷ hs) = if carries r h then suc (n_carried r hs) else n_carried r hs

pub n_carried-append :
    (r : ℕ) (hs ks : List Handler) → n_carried r (hs ++ ks) ≡ n_carried r hs + n_carried r ks
n_carried-append r [] ks = omega arith
n_carried-append r (h ∷ hs) ks = ground (arith, n_carried-append r hs ks)

pub n_posted-append :
    (r : ℕ) (cs ds : List (ℕ × ℕ)) → n_posted r (cs ++ ds) ≡ n_posted r cs + n_posted r ds
n_posted-append r [] ds = omega arith
n_posted-append r (c ∷ cs) ds = ground (arith, n_posted-append r cs ds)

-- What a handler posts.
abbrev pub reply : Handler → List (ℕ × ℕ)
reply h = elim (op_of h) [ none ↦ [] | some op ↦ answer op ]

n_posted-answer :
    (r : ℕ) (op : ThreadLifetimeMgmtOp)
    → n_posted r (answer op) ≡ (if is_callback r op.callback then 1 else 0)
n_posted-answer r op = elim (Option-cases op.callback) [
  | inl empty ↦ ground (arith, empty)
  | inr (f, full) ↦ ground (arith, full)
]

pub n_posted-reply : (r : ℕ) (h : Handler) → n_posted r (reply h) ≡ (if carries r h then 1 else 0)
n_posted-reply r (jolt_thread_req1_posted op) = n_posted-answer r op
n_posted-reply r (start_thread_req1_posted op) = n_posted-answer r op
n_posted-reply r (exit_thread_req1_main_queue_posted op) = n_posted-answer r op
n_posted-reply r (exit_thread_req1_pause_queue_posted op) = n_posted-answer r op
n_posted-reply r (pause_thread_req1_posted op) = n_posted-answer r op
n_posted-reply r (resume_thread_req1_posted op) = n_posted-answer r op
n_posted-reply r (application n) = refl

module _ {I : IoService Handler} where
  -- A handler posts its reply and runs no other.
  pub record Handles (h : Handler) (t t' : PuppetThread I) : Type 0 where
    pub callbacks : t'.callbacks ≡ t.callbacks ++ reply h
    pub main : I.pending t'.io_service ≡ I.pending t.io_service
    pub pause : I.pending t'.pause_io_service ≡ I.pending t.pause_io_service

  -- A turn ends a `run()`, or runs the front handler of the service that the thread is in.
  pub data TurnOf (t t' : PuppetThread I) : Type 0 where
    ends :
        t'.callbacks ≡ t.callbacks
        → I.pending t'.io_service ≡ I.pending t.io_service
        → I.pending t'.pause_io_service ≡ I.pending t.pause_io_service
        → TurnOf t t'
    runs_main :
        (h : Handler) (s : I.State)
        → t.mode ≡ running
        → I.pending t.io_service ≡ h ∷ I.pending s
        → t' ≡ handle h (record t { io_service = s })
        → TurnOf t t'
    runs_pause :
        (h : Handler) (s : I.State)
        → t.mode ≡ paused
        → I.pending t.pause_io_service ≡ h ∷ I.pending s
        → t' ≡ handle h (record t { pause_io_service = s })
        → TurnOf t t'

  -- What the thread has still to post of the request, and has posted.
  abbrev pub tokens : ℕ → PuppetThread I → ℕ
  tokens r t =
      n_carried r (I.pending t.io_service)
      + n_carried r (I.pending t.pause_io_service)
      + n_posted r t.callbacks

module _ {I : IoService Handler} (law : IsLawful I) where
  replied :
      (h : Handler) (op : ThreadLifetimeMgmtOp) (t t0 : PuppetThread I)
      → reply h ≡ answer op
      → Handles h t (record t0 { callbacks = t.callbacks ++ reply h })
      → t0.callbacks ≡ t.callbacks
      → Handles h t (call_original_cb op t0)
  replied h op t t0 e k c =
      subst (Handles h t)
        (sym (
          call_original_cb-answer law op t0
          ∙ ap (λ (l : List (ℕ × ℕ)). record t0 { callbacks = l }) (rw (c, e) refl)))
        k

  pub handle-Handles : (h : Handler) (t : PuppetThread I) → Handles h t (handle h t)
  unfolding handle
  handle-Handles (jolt_thread_req1_posted op) t =
      replied (jolt_thread_req1_posted op) op t (stop_main t) refl
        (record { callbacks = refl; main = law.pending-stop t.io_service; pause = refl }) refl
  handle-Handles (start_thread_req1_posted op) t =
      replied (start_thread_req1_posted op) op t t refl
        (record { callbacks = refl; main = refl; pause = refl }) refl
  handle-Handles (exit_thread_req1_main_queue_posted op) t =
      replied (exit_thread_req1_main_queue_posted op) op t (stop_main (cleanup t)) refl
        (record { callbacks = refl; main = law.pending-stop t.io_service; pause = refl }) refl
  handle-Handles (exit_thread_req1_pause_queue_posted op) t =
      replied (exit_thread_req1_pause_queue_posted op) op t (stop_main (stop_pause (cleanup t)))
        refl
        (record {
          callbacks = refl;
          main = law.pending-stop t.io_service;
          pause = law.pending-stop t.pause_io_service;
        })
        refl
  handle-Handles (pause_thread_req1_posted op) t =
      let h =
        replied (pause_thread_req1_posted op) op t t refl
          (record { callbacks = refl; main = refl; pause = refl }) refl in
      record {
        callbacks = h.callbacks;
        main = h.main;
        pause = law.pending-reset (call_original_cb op t).pause_io_service ∙ h.pause;
      }
  handle-Handles (resume_thread_req1_posted op) t =
      replied (resume_thread_req1_posted op) op t (stop_pause t) refl
        (record { callbacks = refl; main = refl; pause = law.pending-stop t.pause_io_service }) refl
  handle-Handles (application n) t = record {
    callbacks = sym (append-nil t.callbacks);
    main = refl;
    pause = refl;
  }

  run_one-runs :
      (s s' : I.State) (h : Handler) → I.run_one s ≡ runs h s' → I.pending s ≡ h ∷ I.pending s'
  run_one-runs s s' h e = elim (Bool-cases (I.stopped s)) [
    | inl stopped ↦ absurd (ground (arith, law.run_one-stopped s stopped, e))
    | inr open_ ↦ elim (List-cases (I.pending s)) [
      | inl empty ↦ absurd (ground (arith, law.run_one-empty s open_ empty, e))
      | inr (k, ks, full) ↦
          let (s1, ran, rest, _) = law.run_one-pending s k ks open_ full in
          let same : runs k s1 ≡ runs h s' = sym ran ∙ e in
          let at : k ≡ h = cc in
          let left : s1 ≡ s' = cc in
          full ∙ (rw (at, ← left) (ap (λ (l : List Handler). h ∷ l) (sym rest)))
    ]
  ]

  pub turn_in-TurnOf :
      (m : Mode) (t t' : PuppetThread I) → t.mode ≡ m → turn_in m t ≡ some t' → TurnOf t t'
  unfolding turn_in
  turn_in-TurnOf running t t' m e = elim (RunOne-cases (I.run_one t.io_service)) [
    | inl (h, s, ran) ↦ runs_main h s m (run_one-runs t.io_service s h ran) (ground (arith, ran, e))
    | inr (inl ended) ↦
        let now : t' ≡ record t { mode = returned } = ground (arith, ended, e) in
        ends (ap (λ (x : PuppetThread I). x.callbacks) now)
          (ap (λ (x : PuppetThread I). I.pending x.io_service) now)
          (ap (λ (x : PuppetThread I). I.pending x.pause_io_service) now)
    | inr (inr waits) ↦ absurd (ground (arith, waits, e))
  ]
  turn_in-TurnOf paused t t' m e = elim (RunOne-cases (I.run_one t.pause_io_service)) [
    | inl (h, s, ran) ↦
        runs_pause h s m (run_one-runs t.pause_io_service s h ran) (ground (arith, ran, e))
    | inr (inl ended) ↦
        let now : t' ≡ record t { mode = running } = ground (arith, ended, e) in
        ends (ap (λ (x : PuppetThread I). x.callbacks) now)
          (ap (λ (x : PuppetThread I). I.pending x.io_service) now)
          (ap (λ (x : PuppetThread I). I.pending x.pause_io_service) now)
    | inr (inr waits) ↦ absurd (ground (arith, waits, e))
  ]
  turn_in-TurnOf returned t t' m e = absurd (cc)

  pub turn-tokens : (r : ℕ) (t t' : PuppetThread I) → TurnOf t t' → tokens r t' ≡ tokens r t
  turn-tokens r t t' (ends c m p) = rw (c, m, p)
  turn-tokens r t t' (runs_main h s m q e) =
      let k = handle-Handles h (record t { io_service = s }) in
      rw (e, k.callbacks, k.main, k.pause, q)
        (ground (arith, n_posted-append r t.callbacks (reply h), n_posted-reply r h))
  turn-tokens r t t' (runs_pause h s m q e) =
      let k = handle-Handles h (record t { pause_io_service = s }) in
      rw (e, k.callbacks, k.main, k.pause, q)
        (ground (arith, n_posted-append r t.callbacks (reply h), n_posted-reply r h))

  pub n_posted-turn :
      (r : ℕ) (t t' : PuppetThread I)
      → TurnOf t t'
      → n_posted r t.callbacks ≤ n_posted r t'.callbacks
  n_posted-turn r t t' (ends c m p) = rw c (omega arith)
  n_posted-turn r t t' (runs_main h s m q e) =
      let k = handle-Handles h (record t { io_service = s }) in
      rw (e, k.callbacks) (omega (arith, n_posted-append r t.callbacks (reply h)))
  n_posted-turn r t t' (runs_pause h s m q e) =
      let k = handle-Handles h (record t { pause_io_service = s }) in
      rw (e, k.callbacks) (omega (arith, n_posted-append r t.callbacks (reply h)))
