-- ===== src/ComponentThread/Pausing.antt =====
-- Pausing a thread and resuming it.
use libspinscale.Base.{ℕ, ◌≡◌, ◌≢◌, refl, ◌∙◌, Option, none, some, List, [], ◌++◌}
use mathlib.Core.List.{append_assoc}
use libspinscale.Outcome.{ok}
use libspinscale.IoService.{IoService, IsLawful}
use libspinscale.ComponentThread.{
  ThreadLifetimeMgmtOp, Handler, pause_thread_req1_posted, resume_thread_req1_posted, running,
  paused, PuppetThread, turn, pause_thread_req, resume_thread_req, post_main, post_pause,
}
use libspinscale.ComponentThread.Turns.{answer}
use libspinscale.ComponentThread.Pauses.{
  pause_thread_req_lem, resume_thread_req_lem, turn-pauses, turns-resume, post_all-blocks,
  pending-posted, IsIdle, IdlesAgain, post_all,
}

module _ {I : IoService Handler} (law : IsLawful I) where
  module _ (mrntt_id self : ℕ) (f g : Option ℕ) (t : PuppetThread I) (puppet : t.id ≢ mrntt_id)
      (idle : IsIdle t) where
    -- Let an idle puppet thread be asked to pause, by a thread with TLS. One turn later it is
    -- paused, and whatever is then posted to its main service, it waits. A resume request then
    -- brings it back in two turns: it idles as before, and has posted the callback of the pause
    -- and then that of the resume.
    pub pause-resume :
        (t1 : PuppetThread I) × (t2 : PuppetThread I) × (t3 : PuppetThread I) × (t4 : PuppetThread
          I)
        × (t5 : PuppetThread I) × (pause_thread_req mrntt_id (some self) f t ≡ ok tt t1)
        × (turn t1 ≡ some t2)
        × ((hs : List Handler) → turn (post_all hs t2) ≡ none)
        × (resume_thread_req mrntt_id (some self) g t2 ≡ ok tt t3)
        × (turn t3 ≡ some t4)
        × (turn t4 ≡ some t5)
        × IdlesAgain t
            (answer (record { caller = self; callback = f })
              ++ answer (record { caller = self; callback = g }))
            t5
    pause-resume =
        let op1 : ThreadLifetimeMgmtOp = record { caller = self; callback = f } in
        let op2 : ThreadLifetimeMgmtOp = record { caller = self; callback = g } in
        let h1 = pause_thread_req1_posted op1 in
        let h2 = resume_thread_req1_posted op2 in
        let t1 = post_main h1 t in
        let (s, paused_, rest, open_) =
          turn-pauses law op1 [] t1 idle.mode (law.stopped-post h1 t.io_service ∙ idle.main_open)
            (pending-posted law h1 t.io_service idle.main_empty) in
        let t2 : PuppetThread I = record t1 {
          io_service = s;
          callbacks = t.callbacks ++ answer op1;
          pause_io_service = I.reset t.pause_io_service;
          mode = paused;
        } in
        let fresh = law.stopped-reset t.pause_io_service in
        let none_left = law.pending-reset t.pause_io_service ∙ idle.pause_empty in
        let t3 = post_pause h2 t2 in
        let (r, t4, stopping, resumed, none_again, stopped) =
          turns-resume law op2 [] t3 refl (law.stopped-post h2 t2.pause_io_service ∙ fresh)
            (pending-posted law h2 t2.pause_io_service none_left) in
        (
          t1,
          t2,
          t3,
          t4,
          record t3 {
            pause_io_service = r;
            callbacks = t2.callbacks ++ answer op2;
            mode = running;
          },
          pause_thread_req_lem mrntt_id self f t puppet,
          paused_,
          λ hs. post_all-blocks law hs t2 refl fresh none_left,
          resume_thread_req_lem mrntt_id self g t2 puppet,
          stopping,
          resumed,
          record {
            idle = record {
              mode = refl;
              main_open = open_;
              main_empty = rest;
              pause_empty = none_again;
            };
            callbacks = append_assoc t.callbacks (answer op1) (answer op2);
            id = refl;
            keep_looping = refl;
          },
        )

    -- Let an idle puppet thread be asked to resume and then to pause, by a thread with TLS. One
    -- turn later it is paused, and two turns later it idles as before without any further request:
    -- the resume that came first has ended the pause.
    pub resume-pause :
        (t1 : PuppetThread I) × (t2 : PuppetThread I) × (t3 : PuppetThread I) × (t4 : PuppetThread
          I)
        × (t5 : PuppetThread I) × (resume_thread_req mrntt_id (some self) g t ≡ ok tt t1)
        × (pause_thread_req mrntt_id (some self) f t1 ≡ ok tt t2)
        × (turn t2 ≡ some t3)
        × (t3.mode ≡ paused)
        × (turn t3 ≡ some t4)
        × (turn t4 ≡ some t5)
        × IdlesAgain t
            (answer (record { caller = self; callback = f })
              ++ answer (record { caller = self; callback = g }))
            t5
    resume-pause =
        let op1 : ThreadLifetimeMgmtOp = record { caller = self; callback = f } in
        let op2 : ThreadLifetimeMgmtOp = record { caller = self; callback = g } in
        let h1 = pause_thread_req1_posted op1 in
        let h2 = resume_thread_req1_posted op2 in
        let t1 = post_pause h2 t in
        let t2 = post_main h1 t1 in
        let (s, paused_, rest, open_) =
          turn-pauses law op1 [] t2 idle.mode (law.stopped-post h1 t.io_service ∙ idle.main_open)
            (pending-posted law h1 t.io_service idle.main_empty) in
        let t3 : PuppetThread I = record t2 {
          io_service = s;
          callbacks = t.callbacks ++ answer op1;
          pause_io_service = I.reset t1.pause_io_service;
          mode = paused;
        } in
        let (r, t4, stopping, resumed, none_again, stopped) =
          turns-resume law op2 [] t3 refl (law.stopped-reset t1.pause_io_service) (
            law.pending-reset t1.pause_io_service
            ∙ pending-posted law h2 t.pause_io_service idle.pause_empty) in
        (
          t1,
          t2,
          t3,
          t4,
          record t3 {
            pause_io_service = r;
            callbacks = t3.callbacks ++ answer op2;
            mode = running;
          },
          resume_thread_req_lem mrntt_id self g t puppet,
          pause_thread_req_lem mrntt_id self f t1 puppet,
          paused_,
          refl,
          stopping,
          resumed,
          record {
            idle = record {
              mode = refl;
              main_open = open_;
              main_empty = rest;
              pause_empty = none_again;
            };
            callbacks = append_assoc t.callbacks (answer op1) (answer op2);
            id = refl;
            keep_looping = refl;
          },
        )
