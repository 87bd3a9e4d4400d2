-- ===== src/LockerAndInvoker/Crossing.antt =====
-- Two lockvokers that are refused at the same time, each by a lock that the other has taken.
mod Examples
use mathlib.Core.Path.{subst₂}
use libspinscale.Base.{
  ℕ, suc, ◌≤◌, ◌≡◌, ◌≢◌, refl, sym, ◌∙◌, ap, subst, Bool, true, false, Option, none, some, List,
  ◌∷◌, update, update_self, update_ne, arith,
}
use libspinscale.Outcome.{ok}
use libspinscale.Qutex
use libspinscale.Qutex.{Qutex}
use libspinscale.Qutex.Backoff.{next_waiter, requeued}
use libspinscale.World.{
  World, LockSet, LockUsageDesc, awaken, lockvoker_for, awaken_waiter, awaken_waiter-qutex,
  awaken_waiter-lock_set,
}
use libspinscale.LockSet.{awaken_front}
use libspinscale.LockSet.Taking.{IsWaiting}
use libspinscale.LockSet.BackingOff.{backed_off, give_one}
use libspinscale.LockSet.Stepwise.{Phase, awakening, attempt, finished, backing_off, next_call, run}
use libspinscale.LockerAndInvoker.LostWakeUp.{awaken-qutex, awaken-flagged}
use libspinscale.LockerAndInvoker.{allow_awakening}

-- The lockvokers of `c` and `d` sleep, both qutexes are free, and nothing was posted.
pub record Stuck (x y c d : ℕ) (w w' : World) : Type 0 where
  pub first_free : (w'.qutex x).is_owned ≡ false
  pub second_free : (w'.qutex y).is_owned ≡ false
  pub first_asleep : w'.is_awake c ≡ false
  pub second_asleep : w'.is_awake d ≡ false
  pub posted : w'.posted ≡ w.posted

awaken-awake : (c d : ℕ) (w : World) → w.is_awake d ≡ true → (awaken c false w).is_awake d ≡ true
unfolding awaken
awaken-awake c d w h = ground (arith, h)

awaken-live : (c : ℕ) (w : World) (d : ℕ) → (awaken c false w).is_live d ≡ w.is_live d
unfolding awaken
awaken-live c w d = ground arith

awaken-lock_set : (c : ℕ) (w : World) → (awaken c false w).lock_set ≡ w.lock_set
unfolding awaken awaken_waiter
awaken-lock_set c w = awaken_waiter-lock_set (some c) w

module _ (debug_locks : Bool) where
  abbrev given : ℕ → ℕ → ℕ → World → World
  given c n x w = record w { qutex = update w.qutex x (backed_off debug_locks n c (w.qutex x)) }

  run-suc :
      (c fuel : ℕ) (p p' : Phase) (w w' : World)
      → next_call debug_locks c p w ≡ ok p' w'
      → run debug_locks c (suc fuel) p w ≡ run debug_locks c fuel p' w'
  unfolding run
  run-suc c fuel p p' w w' e = ground (arith, e)

  -- A lockvoker that exists is awakened.
  awakening-ok :
      (c d : ℕ) (p : Phase) (w : World)
      → w.is_live d ≡ true
      → next_call debug_locks c (awakening (some d) p) w ≡ ok p (awaken d false w)
  unfolding next_call awaken_front awaken_waiter
  awakening-ok c d p w live = rw live refl

  -- `c` gives back the one lock that it has, and awakens `d`.
  give_back-awakens :
      (c d n : ℕ) (l : LockUsageDesc) (ds : List LockUsageDesc) (o : Option ℕ) (w : World)
      → 2 ≤ n
      → IsWaiting c (w.lock_set c) (w.qutex l.qutex) l.qutex
      → next_waiter (requeued n c (w.qutex l.qutex).queue) ≡ some d
      → w.is_live d ≡ true
      → run debug_locks c 3 (backing_off n 1 (l ∷ ds) o) w
        ≡ ok (finished (attempt false o)) (awaken d false (given c n l.qutex w))
  unfolding run next_call
  give_back-awakens c d n l ds o w several waiting next live =
      let q = w.qutex l.qutex in
      let call : Qutex.backoff debug_locks (lockvoker_for (w.lock_set c) c l.qutex) n q
          ≡ ok (some d) (backed_off debug_locks n c q) =
        give_one debug_locks c n several (w.lock_set c) q l.qutex waiting
        ∙ ap (λ (v : Option ℕ). ok v (backed_off debug_locks n c q)) next in
      let w1 = given c n l.qutex w in
      let first : next_call debug_locks c (backing_off n 1 (l ∷ ds) o) w
          ≡ ok (awakening (some d) (backing_off n 0 ds o)) w1 =
        ground (arith, call) in
      let second = awakening-ok c d (backing_off n 0 ds o) w1 live in
      let last = backing_off n 0 ds o in
      let w2 = awaken d false w1 in
      run-suc c 2 (backing_off n 1 (l ∷ ds) o) (awakening (some d) last) w w1 first
      ∙ run-suc c 1 (awakening (some d) last) last w1 w2 second
      ∙ run-suc c 0 last (finished (attempt false o)) w2 w2 refl

  -- Let `c` and `d` be about to give back one lock each after a refusal, each requiring at least
  -- two, the locks being different; let each wait in the queue of its lock once, under the stored
  -- iterator, and let the rotation that its backoff makes there put the other in front. Let both
  -- lockvokers exist and be flagged awake, as they are from the first wake until `allowAwakening`.
  -- If `c` gives its lock back and awakens the front, then `d` does so, and both then call
  -- `allowAwakening`, then both calls return their refusals, both locks are free, neither
  -- lockvoker is flagged, and nothing was posted, so neither will run again unless something else
  -- awakens it.
  pub run-Stuck :
      (c d n m : ℕ) (l k : LockUsageDesc) (ls ks : List LockUsageDesc) (o p : Option ℕ) (w : World)
      → 2 ≤ n
      → 2 ≤ m
      → l.qutex ≢ k.qutex
      → IsWaiting c (w.lock_set c) (w.qutex l.qutex) l.qutex
      → IsWaiting d (w.lock_set d) (w.qutex k.qutex) k.qutex
      → next_waiter (requeued n c (w.qutex l.qutex).queue) ≡ some d
      → next_waiter (requeued m d (w.qutex k.qutex).queue) ≡ some c
      → w.is_awake c ≡ true
      → w.is_awake d ≡ true
      → w.is_live c ≡ true
      → w.is_live d ≡ true
      → (w1 : World) × (w2 : World) × (run debug_locks c 3 (backing_off n 1 (l ∷ ls) o) w
          ≡ ok (finished (attempt false o)) w1)
        × (run debug_locks d 3 (backing_off m 1 (k ∷ ks) p) w1 ≡ ok (finished (attempt false p)) w2)
        × Stuck l.qutex k.qutex c d w (allow_awakening d (allow_awakening c w2))
  unfolding allow_awakening
  run-Stuck c d n m l k ls ks o p w several several' apart waits waits' next next' up up' live
        live' =
      let x = l.qutex in
      let y = k.qutex in
      let w0 = given c n x w in
      let w1 = awaken d false w0 in
      let w2 = awaken c false (given d m y w1) in
      let sets : w1.lock_set ≡ w.lock_set = awaken-lock_set d w0 in
      let queues : w1.qutex ≡ w0.qutex = awaken-qutex d w0 in
      let at_y : w1.qutex y ≡ w.qutex y =
        ap (λ (f : ℕ → Qutex). f y) queues
        ∙ update_ne w.qutex x (backed_off debug_locks n c (w.qutex x)) y apart in
      let at_x : w1.qutex x ≡ backed_off debug_locks n c (w.qutex x) =
        ap (λ (f : ℕ → Qutex). f x) queues
        ∙ update_self w.qutex x (backed_off debug_locks n c (w.qutex x)) in
      let last = backed_off debug_locks m d (w1.qutex y) in
      let queues2 : w2.qutex ≡ update w1.qutex y last = awaken-qutex c (given d m y w1) in
      let up1 : w1.is_awake c ≡ true = awaken-awake d c w0 up in
      (
        w1,
        w2,
        give_back-awakens c d n l ls o w several waits next live',
        give_back-awakens d c m k ks p w1 several'
            (subst₂ (λ (f : ℕ → LockSet) (q : Qutex). IsWaiting d (f d) q y) (sym sets) (sym at_y)
              waits')
            (ap (λ (q : Qutex). next_waiter (requeued m d q.queue)) at_y ∙ next')
            (awaken-live d w0 c ∙ live),
        record {
          first_free =
              ap (λ (f : ℕ → Qutex). (f x).is_owned) queues2
              ∙ ap (λ (q : Qutex). q.is_owned)
                  (update_ne w1.qutex y last x (λ e. apart (sym e)) ∙ at_x);
          second_free =
              ap (λ (f : ℕ → Qutex). (f y).is_owned) queues2
              ∙ ap (λ (q : Qutex). q.is_owned) (update_self w1.qutex y last);
          first_asleep = ground arith;
          second_asleep = update_self (update w2.is_awake c false) d false;
          posted = awaken-flagged c (given d m y w1) up1 ∙ awaken-flagged d w0 up';
        },
      )
