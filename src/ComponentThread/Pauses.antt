-- ===== src/ComponentThread/Pauses.antt =====
-- The turns of a thread that is asked to pause or to resume.
use libspinscale.Base.{
  ℕ, ◌≡◌, ◌≢◌, sym, ◌∙◌, ap, subst, true, false, Option, none, some, List, [], ◌∷◌, ◌++◌, ==_ne,
}
use libspinscale.Outcome.{ok}
use libspinscale.IoService.{IoService, IsLawful}
use libspinscale.ComponentThread.{
  ThreadLifetimeMgmtOp, Handler, pause_thread_req1_posted, resume_thread_req1_posted, Mode, running,
  paused, PuppetThread, handle, turn, turn_in, pause_thread_req, resume_thread_req, post_main,
  post_pause,
}
use libspinscale.ComponentThread.Turns.{answer, call_original_cb-answer, turn-running, turn-paused}

module _ {I : IoService Handler} where
  -- A thread that waits: nothing is posted to it.
  pub record IsIdle (t : PuppetThread I) : Type 0 where
    pub mode : t.mode ≡ running
    pub main_open : I.stopped t.io_service ≡ false
    pub main_empty : I.pending t.io_service ≡ []
    pub pause_empty : I.pending t.pause_io_service ≡ []

  -- The thread idles as before, and `posted` are the callbacks that were posted meanwhile.
  pub record IdlesAgain (t : PuppetThread I) (posted : List (ℕ × ℕ)) (t' : PuppetThread I)
      : Type 0 where
    pub idle : IsIdle t'
    pub callbacks : t'.callbacks ≡ t.callbacks ++ posted
    pub id : t'.id ≡ t.id
    pub keep_looping : t'.keep_looping ≡ t.keep_looping

  -- Requests of other threads, posted one after another to the main service.
  abbrev pub post_all : List Handler → PuppetThread I → PuppetThread I
  post_all [] t = t
  post_all (h ∷ hs) t = post_all hs (post_main h t)

  pub turn-as :
      (m : Mode) (t : PuppetThread I) {r : Option (PuppetThread I)}
      → t.mode ≡ m
      → turn_in m t ≡ r
      → turn t ≡ r
  turn-as m t {r} e h = subst (λ (k : Mode). turn_in k t ≡ r) (sym e) h

  pub pause_thread_req_lem :
      (mrntt_id self : ℕ) (f : Option ℕ) (t : PuppetThread I)
      → t.id ≢ mrntt_id
      → pause_thread_req mrntt_id (some self) f t
        ≡ ok tt (post_main (pause_thread_req1_posted (record { caller = self; callback = f })) t)
  unfolding pause_thread_req
  pause_thread_req_lem mrntt_id self f t h = simp (==_ne _ _ h)

  pub resume_thread_req_lem :
      (mrntt_id self : ℕ) (f : Option ℕ) (t : PuppetThread I)
      → t.id ≢ mrntt_id
      → resume_thread_req mrntt_id (some self) f t
        ≡ ok tt (post_pause (resume_thread_req1_posted (record { caller = self; callback = f })) t)
  unfolding resume_thread_req
  resume_thread_req_lem mrntt_id self f t h = simp (==_ne _ _ h)

module _ {I : IoService Handler} (law : IsLawful I) where
  -- A running thread with a pause handler in front enters the pause.
  pub turn-pauses :
      (op : ThreadLifetimeMgmtOp) (hs : List Handler) (t : PuppetThread I)
      → t.mode ≡ running
      → I.stopped t.io_service ≡ false
      → I.pending t.io_service ≡ pause_thread_req1_posted op ∷ hs
      → (s : I.State) × (turn t
          ≡ some (record t {
            io_service = s;
            callbacks = t.callbacks ++ answer op;
            pause_io_service = I.reset t.pause_io_service;
            mode = paused;
          }))
        × (I.pending s ≡ hs)
        × (I.stopped s ≡ false)
  unfolding handle
  turn-pauses op hs t m e q =
      let (s, ran, rest, open_) = turn-running law t (pause_thread_req1_posted op) hs e q in
      (
        s,
        turn-as running t m (
            ran
            ∙ ap
                (λ (t' : PuppetThread I).
                  some
                    (record t' { pause_io_service = I.reset t'.pause_io_service; mode = paused }))
                (call_original_cb-answer law op (record t { io_service = s }))),
        rest,
        open_,
      )

  -- A paused thread with a resume handler in front leaves the pause in two turns.
  pub turns-resume :
      (op : ThreadLifetimeMgmtOp) (ks : List Handler) (t : PuppetThread I)
      → t.mode ≡ paused
      → I.stopped t.pause_io_service ≡ false
      → I.pending t.pause_io_service ≡ resume_thread_req1_posted op ∷ ks
      → (s : I.State) × (t' : PuppetThread I) × (turn t ≡ some t')
        × (turn t'
            ≡ some (record t {
              pause_io_service = s;
              callbacks = t.callbacks ++ answer op;
              mode = running;
            }))
        × (I.pending s ≡ ks)
        × (I.stopped s ≡ true)
  unfolding handle turn_in
  turns-resume op ks t m e q =
      let (s, ran, rest, open_) = turn-paused law t (resume_thread_req1_posted op) ks e q in
      let t1 : PuppetThread I = record t { pause_io_service = I.stop s } in
      let t2 : PuppetThread I = record t1 { callbacks = t.callbacks ++ answer op } in
      (
        I.stop s,
        t2,
        turn-as paused t m (ran ∙ ap some (call_original_cb-answer law op t1)),
        turn-as paused t2 m (rw (law.run_one-stopped (I.stop s) (law.stopped-stop s), turn_in)),
        law.pending-stop s ∙ rest,
        law.stopped-stop s,
      )

  -- Nothing of the main queue runs in a pause whose queue is empty.
  pause-blocks :
      (t : PuppetThread I)
      → t.mode ≡ paused
      → I.stopped t.pause_io_service ≡ false
      → I.pending t.pause_io_service ≡ []
      → turn t ≡ none
  unfolding turn_in
  pause-blocks t m e q = turn-as paused t m (rw (law.run_one-empty t.pause_io_service e q, turn_in))

  pub post_all-blocks :
      (hs : List Handler) (t : PuppetThread I)
      → t.mode ≡ paused
      → I.stopped t.pause_io_service ≡ false
      → I.pending t.pause_io_service ≡ []
      → turn (post_all hs t) ≡ none
  post_all-blocks [] t m e q = pause-blocks t m e q
  post_all-blocks (h ∷ hs) t m e q = post_all-blocks hs (post_main h t) m e q

  pub pending-posted :
      (h : Handler) (s : I.State) → I.pending s ≡ [] → I.pending (I.post h s) ≡ h ∷ []
  pending-posted h s e = rw (law.pending-post h s, e)
