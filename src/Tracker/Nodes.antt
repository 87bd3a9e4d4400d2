-- ===== src/Tracker/Nodes.antt =====
-- Every edge of the generated graph leads to a node of it.
use libspinscale.Base.{List, [], ◌∷◌, ◌==◌, Bool-cases, inl, inr}
use libspinscale.DependencyGraph.{AdjacencyList, add_node, add_edge}
use libspinscale.DependencyGraph.Termination.{Closed}
use libspinscale.DependencyGraph.Building.{add_node-Closed, add_edge-Closed}
use libspinscale.Tracker.{
  HistoryEntry, holds, has_held_locks, add_nodes, add_edges_from, add_all_edges, graph_of,
}

add_nodes-Closed : (es : List HistoryEntry) (g : AdjacencyList) → Closed g → Closed (add_nodes es g)
unfolding add_nodes
add_nodes-Closed [] g c = c
add_nodes-Closed (e ∷ es) g c =
    add_nodes-Closed es (add_node e.continuation g) (add_node-Closed e.continuation g c)

add_edges_from-Closed :
    (e : HistoryEntry) (os : List HistoryEntry) (g : AdjacencyList)
    → Closed g
    → Closed (add_edges_from e os g)
unfolding add_edges_from
add_edges_from-Closed e [] g c = c
add_edges_from-Closed e (o ∷ os) g c = elim (Bool-cases (e.continuation == o.continuation)) [
  | inl self ↦ rw self (add_edges_from-Closed e os g c)
  | inr other ↦ elim (Bool-cases (holds o e.wanted_lock)) [
    | inl held ↦
        rw (other, held)
          (add_edges_from-Closed e os (add_edge e.continuation o.continuation g)
            (add_edge-Closed e.continuation o.continuation g c))
    | inr free ↦ rw (other, free) (add_edges_from-Closed e os g c)
  ]
]

add_all_edges-Closed :
    (all es : List HistoryEntry) (g : AdjacencyList) → Closed g → Closed (add_all_edges all es g)
unfolding add_all_edges
add_all_edges-Closed all [] g c = c
add_all_edges-Closed all (e ∷ es) g c = elim (Bool-cases (has_held_locks e)) [
  | inl listed ↦
      rw listed
        (add_all_edges-Closed all es (add_edges_from e all g) (add_edges_from-Closed e all g c))
  | inr null ↦ rw null (add_all_edges-Closed all es g c)
]

pub graph_of-Closed : (history : List HistoryEntry) → Closed (graph_of history)
unfolding graph_of
graph_of-Closed history =
    add_all_edges-Closed history history (add_nodes history [])
      (add_nodes-Closed history [] (λ u v e. cc))
