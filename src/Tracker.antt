-- ===== src/Tracker.antt =====
-- QutexAcquisitionHistoryTracker: include/spinscale/qutexAcquisitionHistoryTracker.h and the second
-- part of src/qutexAcquisitionHistoryTracker.cpp. Printing to std::cerr is left out.
pub mod Entries
pub mod Waits
pub mod Nodes
pub mod Gridlock
mod Examples
use libspinscale.Base.{
  ℕ, ◌≡◌, Bool, true, false, not, Option, none, some, List, [], ◌∷◌, ◌++◌, if◌then◌else◌, ◌==◌,
}
use libspinscale.Outcome.{M, ok, stop, undefined, ◌>>=◌, ◌>>◌, return}
use libspinscale.SpinLock
use libspinscale.SpinLock.{SpinLock}
use libspinscale.DependencyGraph
use libspinscale.DependencyGraph.{AdjacencyList, member}

-- One pair of the map: the continuation, the lock that it wants, and the locks held in its history
-- (`none` for a null unique_ptr).
pub record HistoryEntry : Type 0 where
  pub continuation : ℕ
  pub wanted_lock : ℕ
  pub held_locks : Option (List ℕ)

-- The acquisition history in the order of its iteration.
pub record Tracker : Type 0 where
  pub lock : SpinLock
  pub history : List HistoryEntry

lock_acquire : M Tracker (Unit {0})
unfolding SpinLock.acquire
lock_acquire t = elim (SpinLock.acquire t.lock) [
  | ok _ l ↦ ok tt (record t { lock = l })
  | stop e l ↦ stop e (record t { lock = l })
]

lock_release : M Tracker (Unit {0})
unfolding SpinLock.release
lock_release t = elim (SpinLock.release t.lock) [
  | ok _ l ↦ ok tt (record t { lock = l })
  | stop e l ↦ stop e (record t { lock = l })
]

-- `acquisitionHistory.find(continuation)`.
abbrev pub find_entry : ℕ → List HistoryEntry → Option HistoryEntry
find_entry c [] = none
find_entry c (e ∷ es) = if e.continuation == c then some e else find_entry c es

abbrev pub erase_entry : ℕ → List HistoryEntry → List HistoryEntry
erase_entry c [] = []
erase_entry c (e ∷ es) = if e.continuation == c then es else e ∷ erase_entry c es

unfoldable pub add_if_not_exists : ℕ → ℕ → Option (List ℕ) → M Tracker (Unit {0})
unfolding lock_acquire lock_release
add_if_not_exists c wanted_lock held_locks = do
  lock_acquire
  λ t. ok tt (elim (find_entry c t.history) [
    | some _ ↦ t
    | none ↦ record t {
      history =
          t.history
          ++ record { continuation = c; wanted_lock = wanted_lock; held_locks = held_locks } ∷ [];
    }
  ])
  lock_release

unfoldable pub remove : ℕ → M Tracker Bool
unfolding lock_acquire lock_release
remove c = do
  lock_acquire
  removed ← λ t. elim (find_entry c t.history) [
    | some _ ↦ ok true (record t { history = erase_entry c t.history })
    | none ↦ ok false t
  ]
  lock_release
  return removed

-- First pass of `generateGraph`.
pub add_nodes : List HistoryEntry → AdjacencyList → AdjacencyList
add_nodes [] g = g
add_nodes (e ∷ es) g = add_nodes es (DependencyGraph.add_node e.continuation g)

abbrev pub holds : HistoryEntry → ℕ → Bool
holds e a = elim e.held_locks [ none ↦ false | some locks ↦ member a locks ]

abbrev pub has_held_locks : HistoryEntry → Bool
has_held_locks e = elim e.held_locks [ none ↦ false | some _ ↦ true ]

-- Lines 144 to 165: the edges of one continuation.
pub add_edges_from : HistoryEntry → List HistoryEntry → AdjacencyList → AdjacencyList
add_edges_from e [] g = g
add_edges_from e (o ∷ os) g = add_edges_from e os (
    if e.continuation == o.continuation
    then g
    else if holds o e.wanted_lock
    then DependencyGraph.add_edge e.continuation o.continuation g
    else g)

-- Second pass.
pub add_all_edges : List HistoryEntry → List HistoryEntry → AdjacencyList → AdjacencyList
add_all_edges all [] g = g
add_all_edges all (e ∷ es) g =
    add_all_edges all es (if has_held_locks e then add_edges_from e all g else g)

unfoldable pub graph_of : List HistoryEntry → AdjacencyList
graph_of history = add_all_edges history history (add_nodes history [])

unfoldable pub generate_graph : Bool → M Tracker AdjacencyList
unfolding lock_acquire lock_release
generate_graph dont_acquire_lock = do
  if dont_acquire_lock then return tt else lock_acquire
  g ← λ t. ok (graph_of t.history) t
  if dont_acquire_lock then return tt else lock_release
  return g

-- Whether another continuation's history holds the lock.
pub held_by_other : ℕ → ℕ → List HistoryEntry → Bool
held_by_other a current [] = false
held_by_other a current (e ∷ es) =
    let rest = held_by_other a current es in
    if e.continuation == current then rest else if holds e a then true else rest

unfoldable pub heuristically_trace : ℕ → ℕ → M Tracker Bool
unfolding lock_acquire lock_release
heuristically_trace first_failed current = do
  lock_acquire
  found ← λ t. ok (held_by_other first_failed current t.history) t
  lock_release
  return found

-- The cycles that are reported; the result is whether there are any to report. `undefined` stands for
-- a search that runs out of its fuel.
unfoldable pub report_cycles : AdjacencyList → M Tracker (Bool × List (List ℕ))
report_cycles g t = elim (DependencyGraph.has_cycles g) [
  | none ↦ stop undefined t
  | some false ↦ ok (false, []) t
  | some true ↦ elim (DependencyGraph.find_cycles g) [
    | none ↦ stop undefined t
    | some cycles ↦ ok (true, cycles) t
  ]
]

-- The result, and the cycles printed.
unfoldable pub completely_trace : ℕ → M Tracker (Bool × List (List ℕ))
unfolding lock_acquire lock_release generate_graph
completely_trace first_failed = do
  lock_acquire
  g ← generate_graph true
  found ← report_cycles g
  lock_release
  return found
