-- ===== src/DependencyGraph/Examples.antt =====
-- Tests of the dependency graph, and its theorems at a graph with one cycle.
use libspinscale.Base.{ℕ, ◌≡◌, ◌≢◌, ◌↔◌, refl, false, some, List, [], ◌∷◌}
use libspinscale.DependencyGraph.{AdjacencyList, add_edge, find_cycles, has_cycles, get_node_count}
use libspinscale.DependencyGraph.Walks.{HasCycle, AllCycles}
use libspinscale.DependencyGraph.Termination.{Closed}
use libspinscale.DependencyGraph.Building.{add_edge-Closed}
use libspinscale.DependencyGraph.Decides.{find_cycles_complete}

abbrev chain : AdjacencyList
chain = add_edge 2 3 (add_edge 1 2 [])

abbrev ring : AdjacencyList
ring = add_edge 3 1 chain

-- The ring is found once, however it is entered.
ring_found : find_cycles ring ≡ some ((1 ∷ 2 ∷ 3 ∷ 1 ∷ []) ∷ [])
unfolding find_cycles add_edge
ring_found = refl

no_ring : has_cycles chain ≡ some false
unfolding has_cycles add_edge
no_ring = refl

three_nodes : get_node_count ring ≡ 3
unfolding get_node_count add_edge
three_nodes = refl

chain-Closed : Closed chain
chain-Closed = add_edge-Closed 2 3 (add_edge 1 2 []) (add_edge-Closed 1 2 [] (λ u v e. cc))

ring-Closed : Closed ring
ring-Closed = add_edge-Closed 3 1 chain chain-Closed

find_cycles_complete_example :
    (cycles : List (List ℕ)) × (find_cycles ring ≡ some cycles)
    × AllCycles ring cycles
    × (cycles ≢ [] ↔ HasCycle ring)
find_cycles_complete_example = find_cycles_complete ring ring-Closed
