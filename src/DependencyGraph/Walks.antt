-- ===== src/DependencyGraph/Walks.antt =====
-- Walks in a dependency graph, cycles, and nodes from which no walk is endless.
use libspinscale.Base.{
  ℕ, ◌≡◌, refl, sym, subst, ap, ◌⊎◌, inl, inr, true, List, [], ◌∷◌, ◌++◌, ◌==◌, Bool-cases, ==_iff,
}
use libspinscale.DependencyGraph.{AdjacencyList, member, adjacent_to, from_node}

-- `v` is among the nodes that `u` depends on.
abbrev pub Edge : AdjacencyList → ℕ → ℕ → Type 0
Edge g u v = member v (adjacent_to g u) ≡ true

-- A chain of one or more edges.
pub data Walk (g : AdjacencyList) (u : ℕ) : ℕ → Type 0 where
  edge : {v : ℕ} → Edge g u v → Walk g u v
  more : {v w : ℕ} → Walk g u v → Edge g v w → Walk g u w

-- A circular dependency.
abbrev pub HasCycle : AdjacencyList → Type 0
HasCycle g = (u : ℕ) × Walk g u u

pub data Safe (g : AdjacencyList) : ℕ → Type 0 where
  safe : {u : ℕ} → ((v : ℕ) → Edge g u v → Safe g v) → Safe g u

-- The first edge of a walk.
Walk-first :
    {g : AdjacencyList} {u w : ℕ} → Walk g u w → (v : ℕ) × Edge g u v × ((v ≡ w) ⊎ Walk g v w)
Walk-first (edge {v} e) = (v, e, inl refl)
Walk-first {g} (more {v} {w} p e) =
    let (first, e₀, rest) = Walk-first p in
    (
      first,
      e₀,
      elim rest [
        | inl same ↦ inr (edge (subst (λ x. Edge g x w) (sym same) e))
        | inr q ↦ inr (more q e)
      ],
    )

pub not-Safe_of_Walk : {g : AdjacencyList} (u : ℕ) → Safe g u → Walk g u u → ⊥
not-Safe_of_Walk {g} u (safe next) p =
    let (v, e, rest) = Walk-first p in
    elim rest [
      | inl same ↦ not-Safe_of_Walk v (next v e) (edge (subst (λ x. Edge g x v) (sym same) e))
      | inr q ↦ not-Safe_of_Walk v (next v e) (more q e)
    ]

-- Each node of the list has an edge to the next.
abbrev pub Chain : AdjacencyList → List ℕ → Type 0
Chain g [] = Unit
Chain g (x ∷ []) = Unit
Chain g (x ∷ y ∷ ys) = Edge g x y × Chain g (y ∷ ys)

-- `x … x` along edges, with at least one edge.
pub record IsCycle (g : AdjacencyList) (c : List ℕ) : Type 0 where
  pub start : ℕ
  pub inner : List ℕ
  pub closed : c ≡ start ∷ inner ++ start ∷ []
  pub chain : Chain g c

abbrev pub AllCycles : AdjacencyList → List (List ℕ) → Type 0
AllCycles g [] = Unit
AllCycles g (c ∷ cs) = IsCycle g c × AllCycles g cs

Chain-Walk :
    {g : AdjacencyList} {u x : ℕ} (ys : List ℕ) (z : ℕ)
    → Walk g u x
    → Chain g (x ∷ ys ++ z ∷ [])
    → Walk g u z
Chain-Walk [] z p c = more p c.0
Chain-Walk (y ∷ ys) z p c = Chain-Walk ys z (more p c.0) c.1

chain-Walk :
    {g : AdjacencyList} (x : ℕ) (ys : List ℕ) (z : ℕ) → Chain g (x ∷ ys ++ z ∷ []) → Walk g x z
chain-Walk x [] z c = edge c.0
chain-Walk x (y ∷ ys) z c = Chain-Walk ys z (edge c.0) c.1

pub IsCycle-HasCycle : {g : AdjacencyList} {c : List ℕ} → IsCycle g c → HasCycle g
IsCycle-HasCycle {g} h =
    (h.start, chain-Walk h.start h.inner h.start (subst (Chain g) h.closed h.chain))

pub Chain-tail : (g : AdjacencyList) (x : ℕ) (xs : List ℕ) → Chain g (x ∷ xs) → Chain g xs
Chain-tail g x [] c = tt
Chain-tail g x (y ∷ ys) c = c.1

-- What stands from a node on is a chain too, and begins with it.
pub Chain-from_node :
    (g : AdjacencyList) (x z : ℕ) (path : List ℕ)
    → member x path ≡ true
    → Chain g (path ++ z ∷ [])
    → (rest : List ℕ) × (from_node x path ≡ x ∷ rest) × Chain g (x ∷ rest ++ z ∷ [])
Chain-from_node g x z [] m c = cc
Chain-from_node g x z (y ∷ ys) m c = elim (Bool-cases (y == x)) [
  | inl here ↦
      let same = (==_iff _ _).0 here in
      (ys, rw here (ap (λ (v : ℕ). v ∷ ys) same), subst (λ v. Chain g (v ∷ ys ++ z ∷ [])) same c)
  | inr other ↦
      let (rest, e, chain) = Chain-from_node g x z ys (rw other at m) (Chain-tail g y _ c) in
      (rest, rw other e, chain)
]
