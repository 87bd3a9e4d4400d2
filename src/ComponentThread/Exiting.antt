-- ===== src/ComponentThread/Exiting.antt =====
-- A thread that was asked to exit: each turn brings it nearer to one of the two exit handlers.
use libspinscale.Base.{
  ℕ, ◌+◌, ◌*◌, ◌<◌, ◌≡◌, refl, sym, ◌∙◌, ap, subst, ◌⊎◌, inl, inr, true, false, Option, some, List,
  [], ◌∷◌, ◌++◌, arith, length, Bool-cases,
}
use mathlib.Core.List.{append-nil}
use libspinscale.IoService.{IoService, IsLawful}
use libspinscale.ComponentThread.{
  ThreadLifetimeMgmtOp, Handler, start_thread_req1_posted, pause_thread_req1_posted,
  resume_thread_req1_posted, exit_thread_req1_main_queue_posted, application,
  exit_thread_req1_pause_queue_posted, jolt_thread_req1_posted, Mode, running, paused, PuppetThread,
  handle, turn, turn_in,
}
use libspinscale.ComponentThread.Turns.{answer, call_original_cb-answer, turn-running, turn-paused}
use libspinscale.ComponentThread.Exited.{HasExited}

-- What may be in the main queue before an exit: no jolt, and no earlier exit.
abbrev pub PlainMain : List Handler → Type 0
PlainMain [] = Unit
PlainMain (start_thread_req1_posted op ∷ hs) = PlainMain hs
PlainMain (pause_thread_req1_posted op ∷ hs) = PlainMain hs
PlainMain (application n ∷ hs) = PlainMain hs
PlainMain _ = ⊥

-- The same for the pause queue, which gets resume requests only.
abbrev pub PlainPause : List Handler → Type 0
PlainPause [] = Unit
PlainPause (resume_thread_req1_posted op ∷ hs) = PlainPause hs
PlainPause (application n ∷ hs) = PlainPause hs
PlainPause _ = ⊥

abbrev pub weight : Mode → ℕ
weight m = elim m [ paused ↦ 1 | _ ↦ 0 ]

module _ {I : IoService Handler} where
  -- Both exit handlers wait behind what was posted before.
  pub record Awaits (op : ThreadLifetimeMgmtOp) (hs ks : List Handler) (t : PuppetThread I)
      : Type 0 where
    pub main : I.pending t.io_service ≡ hs ++ exit_thread_req1_main_queue_posted op ∷ []
    pub pause : I.pending t.pause_io_service ≡ ks ++ exit_thread_req1_pause_queue_posted op ∷ []
    pub plain_main : PlainMain hs
    pub plain_pause : PlainPause ks
    pub open_ : I.stopped t.io_service ≡ false

  -- One turn: another state that awaits the exit, nearer to it, or the exit.
  pub record Nearer (op : ThreadLifetimeMgmtOp) (n : ℕ) (t t' : PuppetThread I) : Type 0 where
    pub hs : List Handler
    pub ks : List Handler
    pub awaits : Awaits op hs ks t'
    pub going : (t'.mode ≡ running) ⊎ (t'.mode ≡ paused)
    pub fewer : 2 * (length hs + length ks) + weight t'.mode < n
    pub posted : List (ℕ × ℕ)
    pub callbacks : t'.callbacks ≡ t.callbacks ++ posted

  pub record ExitsAt (op : ThreadLifetimeMgmtOp) (t t' : PuppetThread I) : Type 0 where
    pub exited : HasExited t'
    pub callbacks : t'.callbacks ≡ t.callbacks ++ answer op

  abbrev pub After : ThreadLifetimeMgmtOp → ℕ → PuppetThread I → Option (PuppetThread I) → Type 0
  After op n t r = (t' : PuppetThread I) × (r ≡ some t') × (Nearer op n t t' ⊎ ExitsAt op t t')

module _ {I : IoService Handler} (law : IsLawful I) where
  nearer :
      (op : ThreadLifetimeMgmtOp) (hs ks : List Handler) (t t' : PuppetThread I)
      (posted : List (ℕ × ℕ)) {n : ℕ}
      → I.pending t'.io_service ≡ hs ++ exit_thread_req1_main_queue_posted op ∷ []
      → I.pending t'.pause_io_service ≡ ks ++ exit_thread_req1_pause_queue_posted op ∷ []
      → PlainMain hs
      → PlainPause ks
      → I.stopped t'.io_service ≡ false
      → (t'.mode ≡ running) ⊎ (t'.mode ≡ paused)
      → 2 * (length hs + length ks) + weight t'.mode < n
      → t'.callbacks ≡ t.callbacks ++ posted
      → Nearer op n t t'
  nearer op hs ks t t' posted main pause plain_main plain_pause open_ going fewer callbacks =
      record {
        hs = hs;
        ks = ks;
        awaits = record {
          main = main;
          pause = pause;
          plain_main = plain_main;
          plain_pause = plain_pause;
          open_ = open_;
        };
        going = going;
        fewer = fewer;
        posted = posted;
        callbacks = callbacks;
      }

  turn_running-After :
      (op : ThreadLifetimeMgmtOp) (hs ks : List Handler) (t : PuppetThread I)
      → Awaits op hs ks t
      → t.mode ≡ running
      → After op (2 * (length hs + length ks) + 0) t (turn_in running t)
  unfolding handle
  turn_running-After op [] ks t w m =
      let h = exit_thread_req1_main_queue_posted op in
      let (s, ran, rest, open_) = turn-running law t h [] w.open_ w.main in
      let t1 : PuppetThread I = record t { keep_looping = false; io_service = I.stop s } in
      (
        record t1 { callbacks = t.callbacks ++ answer op },
        ran ∙ ap some (call_original_cb-answer law op t1),
        inr record {
          exited = record {
            not_looping = refl;
            main_stopped = law.stopped-stop s;
            pause_stopped = λ e. cc;
          };
          callbacks = refl;
        },
      )
  turn_running-After op (start_thread_req1_posted o ∷ hs) ks t w m =
      let (s, ran, rest, open_) =
        turn-running law t (start_thread_req1_posted o) _ w.open_ w.main in
      let t1 : PuppetThread I = record t { io_service = s } in
      (
        record t1 { callbacks = t.callbacks ++ answer o },
        ran ∙ ap some (call_original_cb-answer law o t1),
        inl (
            nearer op hs ks t _ (answer o) rest w.pause w.plain_main w.plain_pause open_ (inl m)
              (rw m (omega arith)) refl),
      )
  turn_running-After op (pause_thread_req1_posted o ∷ hs) ks t w m =
      let (s, ran, rest, open_) =
        turn-running law t (pause_thread_req1_posted o) _ w.open_ w.main in
      let t1 : PuppetThread I = record t { io_service = s } in
      (
        record t1 {
          callbacks = t.callbacks ++ answer o;
          pause_io_service = I.reset t.pause_io_service;
          mode = paused;
        },
        ran
            ∙ ap
                (λ (t' : PuppetThread I).
                  some
                    (record t' { pause_io_service = I.reset t'.pause_io_service; mode = paused }))
                (call_original_cb-answer law o t1),
        inl (
            nearer op hs ks t _ (answer o) rest (law.pending-reset t.pause_io_service ∙ w.pause)
              w.plain_main w.plain_pause open_ (inr refl) (omega arith) refl),
      )
  turn_running-After op (application k ∷ hs) ks t w m =
      let (s, ran, rest, open_) = turn-running law t (application k) _ w.open_ w.main in
      (
        record t { io_service = s },
        ran,
        inl (
            nearer op hs ks t _ [] rest w.pause w.plain_main w.plain_pause open_ (inl m)
              (rw m (omega arith)) (sym (append-nil t.callbacks))),
      )
  turn_running-After op (jolt_thread_req1_posted o ∷ hs) ks t w m = absurd w.plain_main
  turn_running-After op (exit_thread_req1_main_queue_posted o ∷ hs) ks t w m = absurd w.plain_main
  turn_running-After op (exit_thread_req1_pause_queue_posted o ∷ hs) ks t w m = absurd w.plain_main
  turn_running-After op (resume_thread_req1_posted o ∷ hs) ks t w m = absurd w.plain_main

  turn_paused-After :
      (op : ThreadLifetimeMgmtOp) (hs ks : List Handler) (t : PuppetThread I)
      → Awaits op hs ks t
      → t.mode ≡ paused
      → I.stopped t.pause_io_service ≡ false
      → After op (2 * (length hs + length ks) + 1) t (turn_in paused t)
  unfolding handle
  turn_paused-After op hs [] t w m e =
      let h = exit_thread_req1_pause_queue_posted op in
      let (s, ran, rest, open_) = turn-paused law t h [] e w.pause in
      let t1 : PuppetThread I = record t {
        keep_looping = false;
        pause_io_service = I.stop s;
        io_service = I.stop t.io_service;
      } in
      (
        record t1 { callbacks = t.callbacks ++ answer op },
        ran ∙ ap some (call_original_cb-answer law op t1),
        inr record {
          exited = record {
            not_looping = refl;
            main_stopped = law.stopped-stop t.io_service;
            pause_stopped = λ _. law.stopped-stop s;
          };
          callbacks = refl;
        },
      )
  turn_paused-After op hs (resume_thread_req1_posted o ∷ ks) t w m e =
      let (s, ran, rest, open_) = turn-paused law t (resume_thread_req1_posted o) _ e w.pause in
      let t1 : PuppetThread I = record t { pause_io_service = I.stop s } in
      (
        record t1 { callbacks = t.callbacks ++ answer o },
        ran ∙ ap some (call_original_cb-answer law o t1),
        inl (
            nearer op hs ks t _ (answer o) w.main (law.pending-stop s ∙ rest) w.plain_main
              w.plain_pause w.open_ (inr m) (rw m (omega arith)) refl),
      )
  turn_paused-After op hs (application k ∷ ks) t w m e =
      let (s, ran, rest, open_) = turn-paused law t (application k) _ e w.pause in
      (
        record t { pause_io_service = s },
        ran,
        inl (
            nearer op hs ks t _ [] w.main rest w.plain_main w.plain_pause w.open_ (inr m)
              (rw m (omega arith)) (sym (append-nil t.callbacks))),
      )
  turn_paused-After op hs (jolt_thread_req1_posted o ∷ ks) t w m e = absurd w.plain_pause
  turn_paused-After op hs (start_thread_req1_posted o ∷ ks) t w m e = absurd w.plain_pause
  turn_paused-After op hs (pause_thread_req1_posted o ∷ ks) t w m e = absurd w.plain_pause
  turn_paused-After op hs (exit_thread_req1_main_queue_posted o ∷ ks) t w m e = absurd w.plain_pause
  turn_paused-After op hs (exit_thread_req1_pause_queue_posted o ∷ ks) t w m e =
      absurd w.plain_pause

  -- The `run()` of a pause returns once its service is stopped.
  turn_paused-stopped :
      (op : ThreadLifetimeMgmtOp) (hs ks : List Handler) (t : PuppetThread I)
      → Awaits op hs ks t
      → I.stopped t.pause_io_service ≡ true
      → After op (2 * (length hs + length ks) + 1) t (turn_in paused t)
  unfolding turn_in
  turn_paused-stopped op hs ks t w e = (
    record t { mode = running },
    rw (law.run_one-stopped t.pause_io_service e, turn_in),
    inl (
        nearer op hs ks t _ [] w.main w.pause w.plain_main w.plain_pause w.open_ (inl refl)
          (omega arith) (sym (append-nil t.callbacks))),
  )

  pub turn-After :
      (op : ThreadLifetimeMgmtOp) (hs ks : List Handler) (t : PuppetThread I)
      → Awaits op hs ks t
      → (t.mode ≡ running) ⊎ (t.mode ≡ paused)
      → After op (2 * (length hs + length ks) + weight t.mode) t (turn t)
  turn-After op hs ks t w (inl m) =
      subst (λ (k : Mode). After op (2 * (length hs + length ks) + weight k) t (turn_in k t))
        (sym m) (turn_running-After op hs ks t w m)
  turn-After op hs ks t w (inr m) =
      subst (λ (k : Mode). After op (2 * (length hs + length ks) + weight k) t (turn_in k t))
        (sym m)
        (elim (Bool-cases (I.stopped t.pause_io_service)) [
          | inl stopped ↦ turn_paused-stopped op hs ks t w stopped
          | inr open_ ↦ turn_paused-After op hs ks t w m open_
        ])
