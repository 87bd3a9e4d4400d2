-- ===== src/ComponentThread/Executed.antt =====
-- An exit request is executed after finitely many turns, whichever queue the thread runs.
use libspinscale.Base.{
  ℕ, zero, suc, ◌+◌, ◌*◌, ◌<◌, ◌≤◌, ◌≡◌, refl, sym, ◌∙◌, ap, subst, ◌⊎◌, inl, inr, false, Option,
  none, some, List, [], ◌++◌, arith, length,
}
use mathlib.Core.List.{append-nil, append_assoc}
use libspinscale.Outcome.{ok}
use libspinscale.IoService.{IoService, IsLawful}
use libspinscale.ComponentThread.{
  ThreadLifetimeMgmtOp, Handler, exit_thread_req1_main_queue_posted,
  exit_thread_req1_pause_queue_posted, Mode, running, paused, returned, PuppetThread, turn,
  exit_thread_req, post_main, post_pause,
}
use libspinscale.ComponentThread.Turns.{answer}
use libspinscale.ComponentThread.Exited.{HasExited}
use libspinscale.ComponentThread.Exiting.{PlainMain, PlainPause, Awaits, weight, turn-After}

weight-le : (m : Mode) → weight m ≤ 1
weight-le running = omega arith
weight-le paused = omega arith
weight-le returned = omega arith

module _ {I : IoService Handler} where
  -- At most `k` turns.
  pub advance : ℕ → PuppetThread I → PuppetThread I
  advance zero t = t
  advance (suc k) t = elim (turn t) [ none ↦ t | some t' ↦ advance k t' ]

  advance-some :
      (k : ℕ) (t t' : PuppetThread I) → turn t ≡ some t' → advance (suc k) t ≡ advance k t'
  unfolding advance
  advance-some k t t' e = rw (e, advance)

  one_turn : (t t' : PuppetThread I) → turn t ≡ some t' → advance 1 t ≡ t'
  unfolding advance
  one_turn t t' e = rw (e, advance)

  pub record Executed (op : ThreadLifetimeMgmtOp) (n : ℕ) (t : PuppetThread I) : Type 0 where
    pub turns : ℕ
    pub bound : turns ≤ n
    pub exited : HasExited (advance turns t)
    pub posted : List (ℕ × ℕ)
    pub callbacks : (advance turns t).callbacks ≡ t.callbacks ++ posted ++ answer op

module _ {I : IoService Handler} (law : IsLawful I) where
  Awaits-Executed :
      (n : ℕ) (op : ThreadLifetimeMgmtOp) (hs ks : List Handler) (t : PuppetThread I)
      → Awaits op hs ks t
      → (t.mode ≡ running) ⊎ (t.mode ≡ paused)
      → 2 * (length hs + length ks) + weight t.mode < n
      → Executed op n t
  Awaits-Executed zero op hs ks t w g h = absurd (omega arith)
  Awaits-Executed (suc n) op hs ks t w g h =
      let (t', ran, next) = turn-After law op hs ks t w g in
      elim next [
        | inl nearer ↦
            let fewer = nearer.fewer in
            let rest =
              Awaits-Executed n op nearer.hs nearer.ks t' nearer.awaits nearer.going
                (omega arith) in
            record {
              turns = suc rest.turns;
              bound = omega (arith, rest.bound);
              exited =
                  subst (HasExited {I = I}) (sym (advance-some rest.turns t t' ran)) rest.exited;
              posted = nearer.posted ++ rest.posted;
              callbacks =
                  ap (λ (q : PuppetThread I). q.callbacks) (advance-some rest.turns t t' ran)
                  ∙ rest.callbacks
                  ∙ ap (λ (l : List (ℕ × ℕ)). l ++ answer op)
                      (ap (λ (l : List (ℕ × ℕ)). l ++ rest.posted) nearer.callbacks
                        ∙ append_assoc t.callbacks nearer.posted rest.posted);
            }
        | inr exits ↦
            let one : advance 1 t ≡ t' = one_turn t t' ran in
            record {
              turns = 1;
              bound = omega arith;
              exited = subst (HasExited {I = I}) (sym one) exits.exited;
              posted = [];
              callbacks =
                  ap (λ (q : PuppetThread I). q.callbacks) one
                  ∙ exits.callbacks
                  ∙ ap (λ (l : List (ℕ × ℕ)). l ++ answer op) (sym (append-nil t.callbacks));
            }
      ]

  -- Let a thread run either of its services, with the main one not stopped, and let the queues
  -- hold no jolt and no earlier exit. Then an exit request from a thread with TLS returns, and
  -- after at most twice the number of waiting handlers and two turns more the thread has exited,
  -- and the callback of the request, if it has one, is the last that it posted.
  pub exit_thread_req-Executed :
      (self : ℕ) (f : Option ℕ) (t : PuppetThread I)
      → (t.mode ≡ running) ⊎ (t.mode ≡ paused)
      → I.stopped t.io_service ≡ false
      → PlainMain (I.pending t.io_service)
      → PlainPause (I.pending t.pause_io_service)
      → (t' : PuppetThread I) × (exit_thread_req (some self) f t ≡ ok tt t')
        × Executed
            (record { caller = self; callback = f })
            (2 * (length (I.pending t.io_service) + length (I.pending t.pause_io_service)) + 2)
            t'
  unfolding exit_thread_req
  exit_thread_req-Executed self f t g e p q =
      let op : ThreadLifetimeMgmtOp = record { caller = self; callback = f } in
      let t' =
        post_pause (exit_thread_req1_pause_queue_posted op)
          (post_main (exit_thread_req1_main_queue_posted op) t) in
      let awaits : Awaits op (I.pending t.io_service) (I.pending t.pause_io_service) t' = record {
        main = law.pending-post (exit_thread_req1_main_queue_posted op) t.io_service;
        pause = law.pending-post (exit_thread_req1_pause_queue_posted op) t.pause_io_service;
        plain_main = p;
        plain_pause = q;
        open_ = law.stopped-post (exit_thread_req1_main_queue_posted op) t.io_service ∙ e;
      } in
      (
        t',
        refl,
        Awaits-Executed _ op (I.pending t.io_service) (I.pending t.pause_io_service) t' awaits g
            (omega (arith, weight-le t.mode)),
      )
