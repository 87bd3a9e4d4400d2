-- ===== src/DependencyGraph/Termination.antt =====
-- The depth-first search ends: each nested call visits one more node of the graph.
use libspinscale.Base.{
  ℕ, zero, suc, ◌≡◌, ◌≤◌, ◌<◌, refl, ◌∙◌, Bool, true, false, Option, some, List, [], ◌∷◌, arith,
  if◌then◌else◌, ◌==◌, Bool-cases, List-cases, inl, inr, ==_iff, length,
}
use libspinscale.DependencyGraph.{
  AdjacencyList, member, set_insert, adjacent_to, from_node, Search, record_cycle, enter, leave,
  visit_adjacent, dfs_cycle_detection,
}
use libspinscale.DependencyGraph.Walks.{Edge}
use libspinscale.DependencyGraph.Visits.{
  Dfs, member-cons, visit_on_stack, visit_visited, visit_new, head_member, dfs_some,
}

abbrev pub is_node : ℕ → AdjacencyList → Bool
is_node x [] = false
is_node x ((y, _) ∷ g) = if y == x then true else is_node x g

-- Every edge leads to a node, as `addEdge` sees to.
abbrev pub Closed : AdjacencyList → Type 0
Closed g = (u v : ℕ) → Edge g u v → is_node v g ≡ true

abbrev pub unseen : List ℕ → AdjacencyList → ℕ
unseen visited [] = 0
unseen visited ((x, _) ∷ g) = if member x visited then unseen visited g else suc (unseen visited g)

abbrev pub Grows : List ℕ → List ℕ → Type 0
Grows v v' = (x : ℕ) → member x v ≡ true → member x v' ≡ true

unseen-Grows : (v v' : List ℕ) (g : AdjacencyList) → Grows v v' → unseen v' g ≤ unseen v g
unseen-Grows v v' [] h = omega arith
unseen-Grows v v' ((x, a) ∷ g) h = ground (arith, unseen-Grows v v' g h, h x)

unseen-pos :
    (x : ℕ) (v : List ℕ) (g : AdjacencyList)
    → member x v ≡ false
    → is_node x g ≡ true
    → unseen (x ∷ v) g < unseen v g
unseen-pos x v [] m k = cc
unseen-pos x v ((y, a) ∷ g) m k = elim (Bool-cases (y == x)) [
  | inl same ↦
      let e = (==_iff _ _).0 same in
      ground (arith, unseen-Grows v (x ∷ v) g (λ z h. member-cons z x v h), e)
  | inr other ↦ ground (arith, unseen-pos x v g)
]

record_cycle-visited : (x : ℕ) (s : Search) → (record_cycle x s).visited ≡ s.visited
unfolding record_cycle
record_cycle-visited x s = elim (List-cases (from_node x s.path)) [
  | inl e ↦ rw (e, record_cycle)
  | inr (y, ys, e) ↦ rw (e, record_cycle)
]

abbrev pub Ends : Option Search → Search → Type 0
Ends r s = (s' : Search) × (r ≡ some s') × Grows s.visited s'.visited

-- Within `fuel` nodes that are still to be visited, every call of `dfs` ends.
abbrev pub EndsWithin : AdjacencyList → ℕ → Dfs → Type 0
EndsWithin g fuel dfs =
    (x : ℕ) (s : Search)
    → is_node x g ≡ true
    → member x s.visited ≡ false
    → unseen s.visited g ≤ fuel
    → Ends (dfs x s) s

visit-Ends :
    (g : AdjacencyList) (fuel : ℕ) (dfs : Dfs)
    → EndsWithin g fuel dfs
    → (xs : List ℕ) (s : Search) → ((x : ℕ) → member x xs ≡ true → is_node x g ≡ true)
    → unseen s.visited g ≤ fuel
    → Ends (visit_adjacent dfs xs s) s
unfolding visit_adjacent
visit-Ends g fuel dfs ends [] s nodes few = (s, refl, λ x h. h)
visit-Ends g fuel dfs ends (x ∷ xs) s nodes few =
    let rest = λ (y : ℕ) (m : member y xs ≡ true). nodes y (member-cons y x xs m) in
    elim (Bool-cases (member x s.recursion_stack)) [
      | inl on_stack ↦
          let same = record_cycle-visited x s in
          let (s', ran, grows) =
            visit-Ends g fuel dfs ends xs (record_cycle x s) rest (rw same few) in
          (s', visit_on_stack dfs x xs s on_stack ∙ ran, λ y m. grows y (rw same m))
      | inr off_stack ↦ elim (Bool-cases (member x s.visited)) [
        | inl visited ↦
            let (s', ran, grows) = visit-Ends g fuel dfs ends xs s rest few in
            (s', visit_visited dfs x xs s off_stack visited ∙ ran, grows)
        | inr unvisited ↦
            let (s1, found, more) = ends x s (nodes x (head_member x xs)) unvisited few in
            let fewer = unseen-Grows s.visited s1.visited g more in
            let (s', ran, grows) = visit-Ends g fuel dfs ends xs s1 rest (omega arith) in
            (s', visit_new dfs x xs s off_stack unvisited found ∙ ran, λ y m. grows y (more y m))
      ]
    ]

-- As much fuel as there are nodes to visit is enough.
pub dfs-EndsWithin :
    (g : AdjacencyList) → Closed g → (fuel : ℕ) → EndsWithin g fuel (dfs_cycle_detection g fuel)
dfs-EndsWithin g closed zero x s node new few =
    absurd (omega (arith, unseen-pos x s.visited g new node))
dfs-EndsWithin g closed (suc fuel) x s node new few =
    let inserted : set_insert x s.visited ≡ x ∷ s.visited = rw new in
    let fewer : unseen (set_insert x s.visited) g ≤ fuel =
      rw inserted (omega (arith, unseen-pos x s.visited g new node)) in
    let (s1, found, grows) =
      visit-Ends g fuel (dfs_cycle_detection g fuel) (dfs-EndsWithin g closed fuel)
        (adjacent_to g x) (enter x s) (λ y e. closed x y e) fewer in
    (
      leave x s1,
      dfs_some g fuel x s found,
      λ y m. grows y (rw inserted (member-cons y x s.visited m)),
    )

pub unseen-le : (v : List ℕ) (g : AdjacencyList) → unseen v g ≤ length g
unseen-le v [] = omega arith
unseen-le v ((x, a) ∷ g) = ground (arith, unseen-le v g)
