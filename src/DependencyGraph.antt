-- ===== src/DependencyGraph.antt =====
-- include/spinscale/dependencyGraph.h and the first part of src/qutexAcquisitionHistoryTracker.cpp:
-- the directed graph of who waits for whom, and its search for cycles.
--
-- Nodes are continuations, known by their addresses. An unordered_map is an association list and an
-- unordered_set a list without repetition, in the order of their iteration. The standard leaves that
-- order open, so what is proved is proved of every list, not only of those that insertion makes.
pub mod Walks
pub mod Visits
pub mod Findings
pub mod Termination
pub mod Decides
mod Examples
pub mod Building
use libspinscale.Base.{
  ℕ, zero, suc, ◌≡◌, Bool, true, false, Option, none, some, List, [], ◌∷◌, ◌++◌, if◌then◌else◌,
  ◌==◌, length,
}

abbrev pub AdjacencyList : Type 0
AdjacencyList = List (ℕ × List ℕ)

-- Sets of nodes.
abbrev pub member : ℕ → List ℕ → Bool
member x [] = false
member x (y ∷ ys) = if y == x then true else member x ys

abbrev pub set_insert : ℕ → List ℕ → List ℕ
set_insert x xs = if member x xs then xs else x ∷ xs

abbrev pub set_erase : ℕ → List ℕ → List ℕ
set_erase x [] = []
set_erase x (y ∷ ys) = if y == x then ys else y ∷ set_erase x ys

-- `adjacencyList.find`.
abbrev pub find_node : ℕ → AdjacencyList → Option (List ℕ)
find_node x [] = none
find_node x ((y, adjacent) ∷ g) = if y == x then some adjacent else find_node x g

unfoldable pub add_node : ℕ → AdjacencyList → AdjacencyList
add_node x [] = (x, []) ∷ []
add_node x ((y, adjacent) ∷ g) = if y == x then (y, adjacent) ∷ g else (y, adjacent) ∷ add_node x g

insert_adjacent : ℕ → ℕ → AdjacencyList → AdjacencyList
insert_adjacent x t [] = []
insert_adjacent x t ((y, adjacent) ∷ g) =
    if y == x then (y, set_insert t adjacent) ∷ g else (y, adjacent) ∷ insert_adjacent x t g

unfoldable pub add_edge : ℕ → ℕ → AdjacencyList → AdjacencyList
unfolding add_node insert_adjacent
add_edge source target g = insert_adjacent source target (add_node target (add_node source g))

unfoldable pub get_node_count : AdjacencyList → ℕ
get_node_count g = length g

-- The four containers that `dfsCycleDetection` takes by reference.
pub record Search : Type 0 where
  pub visited : List ℕ
  pub recursion_stack : List ℕ
  pub path : List ℕ
  pub cycles : List (List ℕ)

-- `std::find(path.begin(), path.end(), x)`, as the rest of the path from there on.
abbrev pub from_node : ℕ → List ℕ → List ℕ
from_node x [] = []
from_node x (y ∷ ys) = if y == x then y ∷ ys else from_node x ys

-- Lines 93 to 100.
pub record_cycle : ℕ → Search → Search
record_cycle adjacent s = elim (from_node adjacent s.path) [
  | [] ↦ s
  | y ∷ ys ↦ record s { cycles = s.cycles ++ (y ∷ ys ++ adjacent ∷ []) ∷ [] }
]

-- `path.pop_back()`.
abbrev pub pop_back : List ℕ → List ℕ
pop_back [] = []
pop_back (x ∷ []) = []
pop_back (x ∷ y ∷ ys) = x ∷ pop_back (y ∷ ys)

abbrev pub enter : ℕ → Search → Search
enter node s = record s {
  visited = set_insert node s.visited;
  recursion_stack = set_insert node s.recursion_stack;
  path = s.path ++ node ∷ [];
}

abbrev pub leave : ℕ → Search → Search
leave node s = record s {
  recursion_stack = set_erase node s.recursion_stack;
  path = pop_back s.path;
}

-- The loop over the adjacent nodes; `dfs` is the recursive call.
pub visit_adjacent : (ℕ → Search → Option Search) → List ℕ → Search → Option Search
visit_adjacent dfs [] s = some s
visit_adjacent dfs (x ∷ xs) s = elim (member x s.recursion_stack) [
  | true ↦ visit_adjacent dfs xs (record_cycle x s)
  | false ↦ elim (member x s.visited) [
    | true ↦ visit_adjacent dfs xs s
    | false ↦ elim (dfs x s) [ none ↦ none | some s' ↦ visit_adjacent dfs xs s' ]
  ]
]

module _ (g : AdjacencyList) where
  abbrev pub adjacent_to : ℕ → List ℕ
  adjacent_to node = elim (find_node node g) [ none ↦ [] | some adjacent ↦ adjacent ]

  -- `none`: the fuel, which bounds the depth of the recursion, ran out.
  pub dfs_cycle_detection : ℕ → ℕ → Search → Option Search
  unfolding visit_adjacent record_cycle
  dfs_cycle_detection zero node s = none
  dfs_cycle_detection (suc fuel) node s =
      elim (visit_adjacent (dfs_cycle_detection fuel) (adjacent_to node) (enter node s)) [
        | none ↦ none
        | some s' ↦ some (leave node s')
      ]

  abbrev pub enough_fuel : ℕ
  enough_fuel = suc (length g)

  abbrev pub new_search : Search
  new_search = record { visited = []; recursion_stack = []; path = []; cycles = [] }

  pub find_cycles_from : List (ℕ × List ℕ) → Search → Option Search
  find_cycles_from [] s = some s
  find_cycles_from ((node, _) ∷ entries) s = elim (member node s.visited) [
    | true ↦ find_cycles_from entries s
    | false ↦ elim (dfs_cycle_detection enough_fuel node s) [
      | none ↦ none
      | some s' ↦ find_cycles_from entries s'
    ]
  ]

  unfoldable pub find_cycles : Option (List (List ℕ))
  unfolding find_cycles_from dfs_cycle_detection
  find_cycles = elim (find_cycles_from g new_search) [ none ↦ none | some s ↦ some s.cycles ]

  pub has_cycles_from : List (ℕ × List ℕ) → Search → Option Bool
  has_cycles_from [] s = some false
  has_cycles_from ((node, _) ∷ entries) s = elim (member node s.visited) [
    | true ↦ has_cycles_from entries s
    | false ↦ elim (dfs_cycle_detection enough_fuel node s) [
      | none ↦ none
      | some s' ↦ elim s'.cycles [ [] ↦ has_cycles_from entries s' | _ ∷ _ ↦ some true ]
    ]
  ]

  unfoldable pub has_cycles : Option Bool
  unfolding has_cycles_from dfs_cycle_detection
  has_cycles = has_cycles_from g new_search
