-- ===== src/LockerAndInvoker/Quiet.antt =====
-- What neither posts a lockvoker nor changes its awake flag.
use libspinscale.Base.{
  ℕ, ◌≡◌, ◌∙◌, ap, Bool, true, false, Option, none, some, List, [], ◌∷◌, update, arith, Bool-cases,
  inl, inr,
}
use libspinscale.Outcome.{Outcome-cases, M, ok}
use libspinscale.Qutex
use libspinscale.Qutex.{Qutex}
use libspinscale.World.{World, LockUsageDesc, on_qutex}
use libspinscale.LockSet
use libspinscale.LockSet.{
  register_locks, register_in_qutex_queues, unregister_locks, unregister_from_qutex_queues,
}
use libspinscale.Tracker
use libspinscale.Tracker.{Tracker}
use libspinscale.LockerAndInvoker.{
  Process, Verdict, on_tracker, allow_awakening, get_acquired_qutex_history, trace_for_gridlock,
  fall_asleep, run_target,
}

pub record Quiet (w w' : World) : Type 0 where
  pub posted : w'.posted ≡ w.posted
  pub is_awake : w'.is_awake ≡ w.is_awake

Quiet-Quiet : {w w' w'' : World} → Quiet w w' → Quiet w' w'' → Quiet w w''
Quiet-Quiet h k = record { posted = k.posted ∙ h.posted; is_awake = k.is_awake ∙ h.is_awake }

on_qutex-Quiet :
    {A : Type 0} (a : ℕ) (m : M Qutex A) (w w' : World) (x : A)
    → on_qutex a m w ≡ ok x w'
    → Quiet w w'
on_qutex-Quiet a m w w' x e = elim (Outcome-cases (m (w.qutex a))) [
  | inl (y, q, r) ↦
      let now : w' ≡ record w { qutex = update w.qutex a q } = ground (arith, r, e) in
      record {
        posted = ap (λ (v : World). v.posted) now;
        is_awake = ap (λ (v : World). v.is_awake) now;
      }
  | inr (k, q, r) ↦ absurd (ground (arith, r, e))
]

register_locks-Quiet :
    (c : ℕ) (ds ds' : List LockUsageDesc) (w w' : World)
    → register_locks c ds w ≡ ok ds' w'
    → Quiet w w'
unfolding register_locks
register_locks-Quiet c [] ds' w w' e =
    let now : w' ≡ w = ground (arith, e) in
    record {
      posted = ap (λ (v : World). v.posted) now;
      is_awake = ap (λ (v : World). v.is_awake) now;
    }
register_locks-Quiet c (d ∷ ds) ds' w w' e =
    elim (Outcome-cases (on_qutex d.qutex (Qutex.register_in_queue c) w)) [
      | inr (k, v, r) ↦ absurd (ground (arith, r, e))
      | inl (it, v, r) ↦ elim (Outcome-cases (register_locks c ds v)) [
        | inr (k, u, s) ↦ absurd (ground (arith, r, s, e))
        | inl (rest, u, s) ↦
            let now : w' ≡ u = ground (arith, r, s, e) in
            Quiet-Quiet (on_qutex-Quiet d.qutex (Qutex.register_in_queue c) w v it r) (
              Quiet-Quiet (register_locks-Quiet c ds rest v u s) (record {
                posted = ap (λ (x : World). x.posted) now;
                is_awake = ap (λ (x : World). x.is_awake) now;
              }))
      ]
    ]

pub register-Quiet : (c : ℕ) (w w' : World) → register_in_qutex_queues c w ≡ ok tt w' → Quiet w w'
unfolding register_in_qutex_queues
register-Quiet c w w' e = elim (Outcome-cases (register_locks c (w.lock_set c).locks w)) [
  | inr (k, v, r) ↦ absurd (ground (arith, r, e))
  | inl (ds, v, r) ↦
      let q = register_locks-Quiet c (w.lock_set c).locks ds w v r in
      Quiet-Quiet q (record { posted = ground (arith, r, e); is_awake = ground (arith, r, e) })
]

unregister_locks-Quiet :
    (ds : List LockUsageDesc) (w w' : World) → unregister_locks ds w ≡ ok tt w' → Quiet w w'
unfolding unregister_locks
unregister_locks-Quiet [] w w' e =
    let now : w' ≡ w = ground (arith, e) in
    record {
      posted = ap (λ (v : World). v.posted) now;
      is_awake = ap (λ (v : World). v.is_awake) now;
    }
unregister_locks-Quiet (d ∷ ds) w w' e =
    elim (Outcome-cases (on_qutex d.qutex (Qutex.unregister_from_queue d.iterator true) w)) [
      | inr (k, v, r) ↦ absurd (ground (arith, r, e))
      | inl (x, v, r) ↦
          Quiet-Quiet (on_qutex-Quiet d.qutex (Qutex.unregister_from_queue d.iterator true) w v x r)
            (unregister_locks-Quiet ds v w' (ground (arith, r, e)))
    ]

pub unregister-Quiet :
    (c : ℕ) (w w' : World) → unregister_from_qutex_queues c w ≡ ok tt w' → Quiet w w'
unfolding unregister_from_qutex_queues
unregister-Quiet c w w' e = elim (Bool-cases (w.lock_set c).registered_in_qutex_queues) [
  | inl there ↦ unregister_locks-Quiet (w.lock_set c).locks w w' (ground (arith, there, e))
  | inr gone ↦ absurd (ground (arith, gone, e))
]

on_tracker-world :
    {A : Type 0} (m : M Tracker A) (p p' : Process) (x : A)
    → on_tracker m p ≡ ok x p'
    → p'.world ≡ p.world
on_tracker-world m p p' x e = elim (Outcome-cases (m p.tracker)) [
  | inl (y, t, r) ↦ ground (arith, r, e)
  | inr (k, t, r) ↦ absurd (ground (arith, r, e))
]

module _ (debug_locks : Bool) (c : ℕ) where
  trace_for_gridlock-world :
      (a : ℕ) (p p' : Process) (b : Bool)
      → trace_for_gridlock debug_locks c a p ≡ ok b p'
      → p'.world ≡ p.world
  unfolding trace_for_gridlock
  trace_for_gridlock-world a p p' b e =
      let add = on_tracker (
        Tracker.add_if_not_exists c a
          (some (get_acquired_qutex_history p.world.lock_set (p.callers c)))) in
      let ask = on_tracker (Tracker.heuristically_trace a c) in
      let search = on_tracker (Tracker.completely_trace a) in
      elim (Outcome-cases (add p)) [
        | inr (k, q, r) ↦ absurd (ground (arith, r, e))
        | inl (_, q, r) ↦ elim (Outcome-cases (ask q)) [
          | inr (k, u, s) ↦ absurd (ground (arith, r, s, e))
          | inl (true, u, s) ↦ elim (Outcome-cases (search u)) [
            | inr (k, v, z) ↦ absurd (ground (arith, r, s, z, e))
            | inl (found, v, z) ↦
                let now : p' ≡ v = ground (arith, r, s, z, e) in
                ap (λ (x : Process). x.world) now
                ∙ on_tracker-world (Tracker.completely_trace a) u v found z
                ∙ on_tracker-world (Tracker.heuristically_trace a c) q u true s
                ∙ on_tracker-world
                    (Tracker.add_if_not_exists c a
                      (some (get_acquired_qutex_history p.world.lock_set (p.callers c))))
                    p q tt r
          ]
          | inl (false, u, s) ↦
              let now : p' ≡ u = ground (arith, r, s, e) in
              ap (λ (x : Process). x.world) now
              ∙ on_tracker-world (Tracker.heuristically_trace a c) q u false s
              ∙ on_tracker-world
                  (Tracker.add_if_not_exists c a
                    (some (get_acquired_qutex_history p.world.lock_set (p.callers c))))
                  p q tt r
        ]
      ]

  pub fall_asleep-world :
      (likely : Bool) (o : Option ℕ) (p p' : Process) (v : Verdict)
      → fall_asleep debug_locks c likely o p ≡ ok v p'
      → p'.world ≡ allow_awakening c p.world
  unfolding fall_asleep
  fall_asleep-world false o p p' v e = ground (arith, e)
  fall_asleep-world true none p p' v e = absurd (ground (arith, e))
  fall_asleep-world true (some a) p p' v e =
      let slept : Process = record p { world = allow_awakening c p.world } in
      elim (Outcome-cases (trace_for_gridlock debug_locks c a slept)) [
        | inr (k, q, r) ↦ absurd (ground (arith, r, e))
        | inl (b, q, r) ↦
            let now : p' ≡ q = ground (arith, r, e) in
            ap (λ (x : Process). x.world) now ∙ trace_for_gridlock-world a slept q b r
      ]

  pub run_target-Quiet :
      (likely : Bool) (p p' : Process) (v : Verdict)
      → run_target debug_locks c likely p ≡ ok v p'
      → Quiet p.world p'.world
  unfolding run_target
  run_target-Quiet likely p p' v e =
      elim (Outcome-cases (LockSet.unregister_from_qutex_queues c p.world)) [
        | inr (k, w, r) ↦ absurd (ground (arith, r, e))
        | inl (_, w, r) ↦
            let left = unregister-Quiet c p.world w r in
            let now : p'.world ≡ w = elim (Bool-cases likely) [
              | inr no_ ↦ ground (arith, no_, r, e)
              | inl yes_ ↦ elim (Outcome-cases (Tracker.remove c p.tracker)) [
                | inr (k, t, s) ↦ absurd (ground (arith, yes_, r, s, e))
                | inl (b, t, s) ↦ ground (arith, yes_, r, s, e)
              ]
            ] in
            Quiet-Quiet left (record {
              posted = ap (λ (x : World). x.posted) now;
              is_awake = ap (λ (x : World). x.is_awake) now;
            })
      ]
