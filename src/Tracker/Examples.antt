-- ===== src/Tracker/Examples.antt =====
-- Tests of the acquisition history, and its theorems at two continuations in a gridlock.
use libspinscale.Base.{◌≡◌, ◌↔◌, refl, Bool, true, false, some, [], ◌∷◌, arith}
use libspinscale.Outcome.{ok}
use libspinscale.SpinLock.{unlocked}
use libspinscale.DependencyGraph
use libspinscale.DependencyGraph.Walks.{Edge}
use libspinscale.Tracker.{
  HistoryEntry, Tracker, graph_of, heuristically_trace, completely_trace, report_cycles, add_nodes,
  add_all_edges, add_edges_from,
}
use libspinscale.Tracker.Entries.{DistinctEntries}
use libspinscale.Tracker.Waits.{WaitsFor, graph_of-WaitsFor}
use libspinscale.Tracker.Gridlock.{HeldByOther, heuristically_trace_iff}

-- Continuation 10 holds the qutex 2 and wants 1.
abbrev ten : HistoryEntry
ten = record { continuation = 10; wanted_lock = 1; held_locks = some (2 ∷ []) }

-- Continuation 20 holds the qutex 1 and wants 2.
abbrev twenty : HistoryEntry
twenty = record { continuation = 20; wanted_lock = 2; held_locks = some (1 ∷ []) }

abbrev gridlock : Tracker
gridlock = record { lock = unlocked; history = ten ∷ twenty ∷ [] }

abbrev one_entry : Tracker
one_entry = record { lock = unlocked; history = ten ∷ [] }

one_entry-DistinctEntries : DistinctEntries one_entry.history
one_entry-DistinctEntries = (tt, tt)

gridlock-DistinctEntries : DistinctEntries gridlock.history
gridlock-DistinctEntries = (((λ e. omega (arith, e)), tt), (tt, tt))

gridlock_reported : completely_trace 1 gridlock ≡ ok (true, (10 ∷ 20 ∷ 10 ∷ []) ∷ []) gridlock
unfolding completely_trace report_cycles graph_of add_nodes add_all_edges add_edges_from
    DependencyGraph.add_node DependencyGraph.add_edge DependencyGraph.has_cycles
    DependencyGraph.find_cycles
gridlock_reported = refl

one_entry_is_no_gridlock : completely_trace 1 one_entry ≡ ok (false, []) one_entry
unfolding completely_trace report_cycles graph_of add_nodes add_all_edges add_edges_from
    DependencyGraph.add_node DependencyGraph.add_edge DependencyGraph.has_cycles
    DependencyGraph.find_cycles
one_entry_is_no_gridlock = refl

graph_of-WaitsFor_example : Edge (graph_of gridlock.history) 10 20 ↔ WaitsFor gridlock.history 10 20
graph_of-WaitsFor_example = graph_of-WaitsFor gridlock.history 10 20

heuristically_trace_iff_example :
    (b : Bool) × (heuristically_trace 1 10 gridlock ≡ ok b gridlock)
    × (b ≡ true ↔ HeldByOther 1 10 gridlock.history)
heuristically_trace_iff_example = heuristically_trace_iff gridlock refl 1 10
