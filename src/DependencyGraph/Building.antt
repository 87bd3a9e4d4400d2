-- ===== src/DependencyGraph/Building.antt =====
-- What `addNode` and `addEdge` do to the edges, and that they keep the graph closed.
use libspinscale.Base.{
  ℕ, ◌≡◌, refl, ◌∙◌, subst, Bool, true, ◌&&◌, List, [], ◌∷◌, arith, if◌then◌else◌, ◌==◌, Bool-cases,
  inl, inr, ==_iff,
}
use libspinscale.DependencyGraph.{
  AdjacencyList, member, set_insert, adjacent_to, add_node, add_edge, insert_adjacent,
}
use libspinscale.DependencyGraph.Termination.{is_node, Closed}

abbrev pub edge? : AdjacencyList → ℕ → ℕ → Bool
edge? g u v = member v (adjacent_to g u)

-- A new node has no edges, and an old one keeps its own.
pub edge?-add_node : (x : ℕ) (g : AdjacencyList) (u v : ℕ) → edge? (add_node x g) u v ≡ edge? g u v
unfolding add_node
edge?-add_node x [] u v = ground arith
edge?-add_node x ((y, a) ∷ g) u v = ground (arith, edge?-add_node x g u v)

pub is_node-add_node :
    (x : ℕ) (g : AdjacencyList) (z : ℕ)
    → is_node z (add_node x g) ≡ (if x == z then true else is_node z g)
unfolding add_node
is_node-add_node x [] z = ground arith
is_node-add_node x ((y, a) ∷ g) z = ground (arith, is_node-add_node x g z)

member-set_insert :
    (v t : ℕ) (xs : List ℕ) → member v (set_insert t xs) ≡ (if t == v then true else member v xs)
member-set_insert v t xs = elim (Bool-cases (member t xs)) [
  | inl old ↦ elim (Bool-cases (t == v)) [
    | inl same ↦ rw (old, same) (subst (λ z. member z xs ≡ true) ((==_iff _ _).0 same) old)
    | inr other ↦ rw (old, other)
  ]
  | inr new ↦ rw new
]

edge?-insert_adjacent :
    (x t : ℕ) (g : AdjacencyList) (u v : ℕ)
    → is_node x g ≡ true
    → edge? (insert_adjacent x t g) u v ≡ (if (x == u) && (t == v) then true else edge? g u v)
unfolding insert_adjacent
edge?-insert_adjacent x t [] u v n = cc
edge?-insert_adjacent x t ((y, a) ∷ g) u v n =
    ground (arith, edge?-insert_adjacent x t g u v, member-set_insert v t a)

is_node-insert_adjacent :
    (x t : ℕ) (g : AdjacencyList) (z : ℕ) → is_node z (insert_adjacent x t g) ≡ is_node z g
unfolding insert_adjacent
is_node-insert_adjacent x t [] z = refl
is_node-insert_adjacent x t ((y, a) ∷ g) z = ground (arith, is_node-insert_adjacent x t g z)

-- After `addEdge` the graph has that edge and the edges that it had, and no other.
pub edge?-add_edge :
    (source target : ℕ) (g : AdjacencyList) (u v : ℕ)
    → edge? (add_edge source target g) u v
      ≡ (if (source == u) && (target == v) then true else edge? g u v)
unfolding add_edge
edge?-add_edge source target g u v = ground (
  arith,
  edge?-insert_adjacent source target (add_node target (add_node source g)) u v,
  is_node-add_node target (add_node source g) source,
  is_node-add_node source g source,
  edge?-add_node target (add_node source g) u v,
  edge?-add_node source g u v,
)

pub is_node-add_edge :
    (source target : ℕ) (g : AdjacencyList) (z : ℕ)
    → is_node z (add_edge source target g)
      ≡ (if target == z then true else if source == z then true else is_node z g)
unfolding add_edge
is_node-add_edge source target g z =
    is_node-insert_adjacent source target (add_node target (add_node source g)) z
    ∙ is_node-add_node target (add_node source g) z
    ∙ (rw (is_node-add_node source g z))

pub add_node-Closed : (x : ℕ) (g : AdjacencyList) → Closed g → Closed (add_node x g)
add_node-Closed x g c u v e = ground (arith, edge?-add_node x g u v, is_node-add_node x g v, c u v)

pub add_edge-Closed :
    (source target : ℕ) (g : AdjacencyList) → Closed g → Closed (add_edge source target g)
add_edge-Closed source target g c u v e =
    ground (arith, edge?-add_edge source target g u v, is_node-add_edge source target g v, c u v)
