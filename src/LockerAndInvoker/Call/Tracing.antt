-- ===== src/LockerAndInvoker/Call/Tracing.antt =====
-- The search for a gridlock after a failed attempt.
use libspinscale.Base.{ℕ, ◌≡◌, ◌↔◌, Bool, true, false, some, List, arith}
use libspinscale.Outcome.{ok}
use libspinscale.Tracker.{Tracker, find_entry}
use libspinscale.Tracker.Entries.{DistinctEntries, kept_or, add_if_not_exists-find}
use libspinscale.Tracker.Gridlock.{HeldByOther, heuristically_trace_iff, completely_trace_iff}
use libspinscale.LockerAndInvoker.{Process, get_acquired_qutex_history, trace_for_gridlock}

-- A tracker that is at rest.
pub record IsConsistent (t : Tracker) : Type 0 where
  pub unlocked : t.lock.locked ≡ false
  pub distinct : DistinctEntries t.history

-- The continuation is on record with what it wants and what its callers hold, and the search
-- answered for the new history.
pub record Traced (c wanted : ℕ) (held : List ℕ) (before : Tracker) (found : Bool) (t : Tracker)
    : Type 0 where
  pub consistent : IsConsistent t
  pub recorded :
      (x : ℕ)
      → find_entry x t.history
        ≡ kept_or c
            (record { continuation = c; wanted_lock = wanted; held_locks = some held })
            before.history
            x
  pub answer : found ≡ true ↔ HeldByOther wanted c t.history

pub trace_for_gridlock-Traced :
    (debug_locks : Bool) (c first_failed : ℕ) (p : Process)
    → IsConsistent p.tracker
    → (found : Bool) × (t : Tracker) × (trace_for_gridlock debug_locks c first_failed p
        ≡ ok found (record p { tracker = t }))
      × Traced c first_failed
          (get_acquired_qutex_history p.world.lock_set (p.callers c))
          p.tracker
          found
          t
unfolding trace_for_gridlock
trace_for_gridlock-Traced debug_locks c first_failed p h =
    let held = get_acquired_qutex_history p.world.lock_set (p.callers c) in
    let (t, added, recorded, distinct, unlocked) =
      add_if_not_exists-find p.tracker h.unlocked h.distinct c first_failed (some held) in
    let (likely, traced, answer) = heuristically_trace_iff t unlocked first_failed c in
    let (certain, cycles, searched, _, _, _) = completely_trace_iff t unlocked first_failed in
    (
      likely,
      t,
      ground (arith, added, traced, searched),
      record {
        consistent = record { unlocked = unlocked; distinct = distinct };
        recorded = recorded;
        answer = answer;
      },
    )
