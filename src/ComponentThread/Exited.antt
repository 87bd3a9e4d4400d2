-- ===== src/ComponentThread/Exited.antt =====
-- After an exit nothing runs on a thread any more.
use mathlib.Core.Bool.{false≢true}
use libspinscale.ComponentThread.Turns.{answer, call_original_cb-answer}
use libspinscale.Base.{◌++◌, ◌≡◌, refl, sym, ◌∙◌, ap, true, false, some, arith}
use libspinscale.IoService.{IoService, IsLawful}
use libspinscale.ComponentThread.{
  ThreadLifetimeMgmtOp, exit_thread_req1_main_queue_posted, exit_thread_req1_pause_queue_posted,
  cleanup, stop_main, stop_pause, handle, Handler, Mode, running, paused, returned, PuppetThread,
  turn, turn_in, run_again, post_main, post_pause,
}

module _ {I : IoService Handler} where
  -- The thread's main loop is over or about to end.
  pub record HasExited (t : PuppetThread I) : Type 0 where
    pub not_looping : t.keep_looping ≡ false
    pub main_stopped : I.stopped t.io_service ≡ true
    pub pause_stopped : t.mode ≡ paused → I.stopped t.pause_io_service ≡ true

  -- What can happen to a thread: a turn of its own, another run of its main service, or a post to one of its services, which is all
  -- that a request does.
  pub data Step : PuppetThread I → PuppetThread I → Type 0 where
    turned : {t t' : PuppetThread I} → turn t ≡ some t' → Step t t'
    ran_again :
        {t : PuppetThread I} → t.mode ≡ returned → t.keep_looping ≡ true → Step t (run_again t)
    posted_main : {t : PuppetThread I} (h : Handler) → Step t (post_main h t)
    posted_pause : {t : PuppetThread I} (h : Handler) → Step t (post_pause h t)

  pub data Steps (t : PuppetThread I) : PuppetThread I → Type 0 where
    here : Steps t t
    after : {t' t'' : PuppetThread I} → Steps t t' → Step t' t'' → Steps t t''

  -- No callback was posted, and the thread stays exited.
  pub record Silent (t t' : PuppetThread I) : Type 0 where
    pub exited : HasExited t'
    pub callbacks : t'.callbacks ≡ t.callbacks

-- An exit handler, run where its service is.
pub data IsExit {I : IoService Handler} (op : ThreadLifetimeMgmtOp) (t : PuppetThread I)
    : Handler → Type 0 where
  on_main : t.mode ≡ running → IsExit op t (exit_thread_req1_main_queue_posted op)
  on_pause : IsExit op t (exit_thread_req1_pause_queue_posted op)

module _ {I : IoService Handler} (law : IsLawful I) where
  turn_in-Silent :
      (m : Mode) (t : PuppetThread I) {t' : PuppetThread I}
      → t.mode ≡ m
      → HasExited t
      → turn_in m t ≡ some t'
      → Silent t t'
  unfolding turn_in
  turn_in-Silent running t {t'} e h r =
      let now : t' ≡ record t { mode = returned } =
        ground (arith, law.run_one-stopped t.io_service h.main_stopped, r) in
      record {
        exited = record {
          not_looping = rw now h.not_looping;
          main_stopped = rw now h.main_stopped;
          pause_stopped = λ k. cc (ap (λ (q : PuppetThread I). q.mode) now);
        };
        callbacks = ap (λ (q : PuppetThread I). q.callbacks) now;
      }
  turn_in-Silent paused t {t'} e h r =
      let now : t' ≡ record t { mode = running } =
        ground (arith, law.run_one-stopped t.pause_io_service (h.pause_stopped e), r) in
      record {
        exited = record {
          not_looping = rw now h.not_looping;
          main_stopped = rw now h.main_stopped;
          pause_stopped = λ k. cc (ap (λ (q : PuppetThread I). q.mode) now);
        };
        callbacks = ap (λ (q : PuppetThread I). q.callbacks) now;
      }
  turn_in-Silent returned t e h r = cc

  pub step-Silent : {t t' : PuppetThread I} → Step t t' → HasExited t → Silent t t'
  step-Silent {t} (turned r) h = turn_in-Silent t.mode t refl h r
  step-Silent {t} (ran_again m k) h = absurd (false≢true (sym h.not_looping ∙ k))
  step-Silent {t} (posted_main k) h = record {
    exited = record {
      not_looping = h.not_looping;
      main_stopped = law.stopped-post k t.io_service ∙ h.main_stopped;
      pause_stopped = h.pause_stopped;
    };
    callbacks = refl;
  }
  step-Silent {t} (posted_pause k) h = record {
    exited = record {
      not_looping = h.not_looping;
      main_stopped = h.main_stopped;
      pause_stopped = λ e. law.stopped-post k t.pause_io_service ∙ h.pause_stopped e;
    };
    callbacks = refl;
  }

  -- From an exited thread (not looping, its main service stopped, and its pause service too if it
  -- is in a pause), any sequence of its turns, of further runs of its main service by a body that
  -- asks `keepLooping` first, and of posts to its services leaves it exited, and it posts no
  -- callback.
  pub Steps-Silent : {t t' : PuppetThread I} → Steps t t' → HasExited t → Silent t t'
  Steps-Silent here h = record { exited = h; callbacks = refl }
  Steps-Silent (after steps step) h =
      let before = Steps-Silent steps h in
      let now = step-Silent step before.exited in
      record { exited = now.exited; callbacks = now.callbacks ∙ before.callbacks }

  pub exit_main-HasExited :
      (op : ThreadLifetimeMgmtOp) (t : PuppetThread I)
      → t.mode ≡ running
      → HasExited (handle (exit_thread_req1_main_queue_posted op) t)
  unfolding handle
  exit_main-HasExited op t m = rw (call_original_cb-answer law op (stop_main (cleanup t))) (record {
    not_looping = refl;
    main_stopped = law.stopped-stop t.io_service;
    pause_stopped = λ e. absurd (ground (arith, m, e));
  })

  pub exit_pause-HasExited :
      (op : ThreadLifetimeMgmtOp) (t : PuppetThread I)
      → HasExited (handle (exit_thread_req1_pause_queue_posted op) t)
  unfolding handle
  exit_pause-HasExited op t =
      rw (call_original_cb-answer law op (stop_main (stop_pause (cleanup t)))) (record {
        not_looping = refl;
        main_stopped = law.stopped-stop t.io_service;
        pause_stopped = λ e. law.stopped-stop t.pause_io_service;
      })

  -- Let an exit handler be run, by a thread that is in its main service if the handler was posted
  -- there, or by one that is in either if it was posted to the pause service. It posts the callback
  -- of its operation, if there is one, and after any sequence of turns of the thread, of further
  -- runs of its main service by a body that asks `keepLooping` first, and of posts to its services,
  -- the thread has posted nothing else and counts as exited: it is not looping and its main service
  -- is stopped, as is its pause service while it is in a pause.
  pub exit-Silent :
      (op : ThreadLifetimeMgmtOp) (h : Handler) (t : PuppetThread I) {u : PuppetThread I}
      → IsExit op t h
      → Steps (handle h t) u
      → HasExited u × (u.callbacks ≡ t.callbacks ++ answer op)
  unfolding handle
  exit-Silent op h t (on_main m) steps =
      let s = Steps-Silent steps (exit_main-HasExited op t m) in
      (
        s.exited,
        s.callbacks
            ∙ ap (λ (q : PuppetThread I). q.callbacks)
                (call_original_cb-answer law op (stop_main (cleanup t))),
      )
  exit-Silent op h t on_pause steps =
      let s = Steps-Silent steps (exit_pause-HasExited op t) in
      (
        s.exited,
        s.callbacks
            ∙ ap (λ (q : PuppetThread I). q.callbacks)
                (call_original_cb-answer law op (stop_main (stop_pause (cleanup t)))),
      )
