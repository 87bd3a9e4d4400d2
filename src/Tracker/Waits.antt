-- ===== src/Tracker/Waits.antt =====
-- The graph that `generateGraph` builds is the relation of who waits for whom.
use libspinscale.Base.{
  ℕ, ◌≡◌, refl, sym, ◌∙◌, ◌↔◌, ◌≢◌, ◌⊎◌, Bool, true, false, ◌&&◌, List, [], ◌∷◌, arith,
  if◌then◌else◌, ◌==◌, Bool-cases, inl, inr, ==_iff, ==_false, ==_ne,
}
use libspinscale.DependencyGraph.{AdjacencyList, add_node, add_edge}
use libspinscale.DependencyGraph.Walks.{Edge, Walk, edge, more, HasCycle}
use libspinscale.DependencyGraph.Building.{edge?, edge?-add_node, edge?-add_edge}
use libspinscale.Tracker.{
  HistoryEntry, holds, has_held_locks, add_nodes, add_edges_from, add_all_edges, graph_of,
}

abbrev pub Listed : HistoryEntry → List HistoryEntry → Type 0
Listed e [] = ⊥
Listed e (x ∷ xs) = (x ≡ e) ⊎ Listed e xs

-- Two different continuations; the first has a list of held locks, and the second's list holds what
-- the first wants.
pub record Waits (e o : HistoryEntry) : Type 0 where
  pub distinct : e.continuation ≢ o.continuation
  pub has_list : has_held_locks e ≡ true
  pub holding : holds o e.wanted_lock ≡ true

-- In the history, `u` wants a lock that is held by `v`.
pub record WaitsFor (history : List HistoryEntry) (u v : ℕ) : Type 0 where
  pub waiting : HistoryEntry
  pub holder : HistoryEntry
  pub waiting_listed : Listed waiting history
  pub holder_listed : Listed holder history
  pub waits : Waits waiting holder
  pub waiting_is : waiting.continuation ≡ u
  pub holder_is : holder.continuation ≡ v

pub data WaitChain (history : List HistoryEntry) (u : ℕ) : ℕ → Type 0 where
  one : {v : ℕ} → WaitsFor history u v → WaitChain history u v
  then_one : {v w : ℕ} → WaitChain history u v → WaitsFor history v w → WaitChain history u w

-- A gridlock: a chain of waits that leads back to where it starts.
abbrev pub CircularWait : List HistoryEntry → Type 0
CircularWait history = (u : ℕ) × WaitChain history u u

and_parts : (a b : Bool) → (a && b) ≡ true → (a ≡ true) × (b ≡ true)
and_parts a b h = ground arith

and_three_parts : (a b c : Bool) → (a && b && c) ≡ true → (a ≡ true) × (b ≡ true) × (c ≡ true)
and_three_parts a b c h = ground arith

-- `v` is one of the continuations that `e` waits for.
abbrev waits_for_one : HistoryEntry → List HistoryEntry → ℕ → Bool
waits_for_one e [] v = false
waits_for_one e (o ∷ os) v =
    if e.continuation == o.continuation
    then waits_for_one e os v
    else if holds o e.wanted_lock && o.continuation == v
    then true
    else waits_for_one e os v

edge?-add_edges_from :
    (e : HistoryEntry) (os : List HistoryEntry) (g : AdjacencyList) (u v : ℕ)
    → edge? (add_edges_from e os g) u v
      ≡ (if e.continuation == u && waits_for_one e os v then true else edge? g u v)
unfolding add_edges_from
edge?-add_edges_from e [] g u v = ground arith
edge?-add_edges_from e (o ∷ os) g u v = elim (Bool-cases (e.continuation == o.continuation)) [
  | inl self ↦ rw self (edge?-add_edges_from e os g u v)
  | inr other ↦ elim (Bool-cases (holds o e.wanted_lock)) [
    | inl held ↦
        rw (other, held)
          (ground (
            arith,
            edge?-add_edges_from e os (add_edge e.continuation o.continuation g) u v,
            edge?-add_edge e.continuation o.continuation g u v,
          ))
    | inr free ↦ rw (other, free) (edge?-add_edges_from e os g u v)
  ]
]

waits_for : List HistoryEntry → List HistoryEntry → ℕ → ℕ → Bool
waits_for all [] u v = false
waits_for all (e ∷ es) u v =
    if has_held_locks e && e.continuation == u && waits_for_one e all v
    then true
    else waits_for all es u v

edge?-add_all_edges :
    (all es : List HistoryEntry) (g : AdjacencyList) (u v : ℕ)
    → edge? (add_all_edges all es g) u v ≡ (if waits_for all es u v then true else edge? g u v)
unfolding add_all_edges waits_for
edge?-add_all_edges all [] g u v = refl
edge?-add_all_edges all (e ∷ es) g u v = elim (Bool-cases (has_held_locks e)) [
  | inl listed ↦ rw listed (
      ground (
        arith,
        edge?-add_all_edges all es (add_edges_from e all g) u v,
        edge?-add_edges_from e all g u v,
      ))
  | inr null ↦ rw null (edge?-add_all_edges all es g u v)
]

edge?-add_nodes :
    (es : List HistoryEntry) (g : AdjacencyList) (u v : ℕ)
    → edge? (add_nodes es g) u v ≡ edge? g u v
unfolding add_nodes
edge?-add_nodes [] g u v = refl
edge?-add_nodes (e ∷ es) g u v =
    edge?-add_nodes es (add_node e.continuation g) u v ∙ edge?-add_node e.continuation g u v

edge?-graph_of :
    (history : List HistoryEntry) (u v : ℕ)
    → edge? (graph_of history) u v ≡ waits_for history history u v
unfolding graph_of
edge?-graph_of history u v =
    edge?-add_all_edges history history (add_nodes history []) u v
    ∙ (rw (edge?-add_nodes history [] u v) (ground arith))

record WaitsForOne (e : HistoryEntry) (os : List HistoryEntry) (v : ℕ) : Type 0 where
  holder : HistoryEntry
  holder_listed : Listed holder os
  distinct : e.continuation ≢ holder.continuation
  holding : holds holder e.wanted_lock ≡ true
  holder_is : holder.continuation ≡ v

WaitsForOne-later :
    {e : HistoryEntry} {os : List HistoryEntry} {v : ℕ} (o : HistoryEntry)
    → WaitsForOne e os v
    → WaitsForOne e (o ∷ os) v
WaitsForOne-later o w = record {
  holder = w.holder;
  holder_listed = inr w.holder_listed;
  distinct = w.distinct;
  holding = w.holding;
  holder_is = w.holder_is;
}

waits_for_one_sound :
    (e : HistoryEntry) (os : List HistoryEntry) (v : ℕ)
    → waits_for_one e os v ≡ true
    → WaitsForOne e os v
waits_for_one_sound e [] v h = cc
waits_for_one_sound e (o ∷ os) v h = elim (Bool-cases (e.continuation == o.continuation)) [
  | inl self ↦ WaitsForOne-later o (waits_for_one_sound e os v (rw self at h))
  | inr other ↦ elim (Bool-cases (holds o e.wanted_lock && o.continuation == v)) [
    | inl here ↦
        let (held, is) = and_parts (holds o e.wanted_lock) (o.continuation == v) here in
        record {
          holder = o;
          holder_listed = inl refl;
          distinct = ==_false other;
          holding = held;
          holder_is = (==_iff _ _).0 is;
        }
    | inr elsewhere ↦ WaitsForOne-later o (waits_for_one_sound e os v (rw (other, elsewhere) at h))
  ]
]

waits_for_one_complete :
    (e o : HistoryEntry) (os : List HistoryEntry) (v : ℕ)
    → Listed o os
    → e.continuation ≢ o.continuation
    → holds o e.wanted_lock ≡ true
    → o.continuation ≡ v
    → waits_for_one e os v ≡ true
waits_for_one_complete e o [] v l d h c = absurd l
waits_for_one_complete e o (x ∷ os) v (inl same) d h c =
    rw same (rw (==_ne _ _ d, h, (==_iff _ _).1 c))
waits_for_one_complete e o (x ∷ os) v (inr later) d h c =
    ground (arith, waits_for_one_complete e o os v later d h c)

waits_for_sound :
    (all es : List HistoryEntry) (u v : ℕ)
    → waits_for all es u v ≡ true
    → (e : HistoryEntry) × Listed e es
      × (has_held_locks e ≡ true)
      × (e.continuation ≡ u)
      × WaitsForOne e all v
unfolding waits_for
waits_for_sound all [] u v h = cc
waits_for_sound all (e ∷ es) u v h =
    elim (Bool-cases (has_held_locks e && e.continuation == u && waits_for_one e all v)) [
      | inl here ↦
          let (listed, is, one_holder) =
            and_three_parts (has_held_locks e) (e.continuation == u) (waits_for_one e all v) here in
          (e, inl refl, listed, (==_iff _ _).0 is, waits_for_one_sound e all v one_holder)
      | inr elsewhere ↦
          let (e', l, r, c, w) = waits_for_sound all es u v (rw elsewhere at h) in
          (e', inr l, r, c, w)
    ]

waits_for_complete :
    (all es : List HistoryEntry) (e : HistoryEntry) (u v : ℕ)
    → Listed e es
    → has_held_locks e ≡ true
    → e.continuation ≡ u
    → waits_for_one e all v ≡ true
    → waits_for all es u v ≡ true
unfolding waits_for
waits_for_complete all [] e u v l h c w = absurd l
waits_for_complete all (x ∷ es) e u v (inl same) h c w = rw same (rw (h, (==_iff _ _).1 c, w))
waits_for_complete all (x ∷ es) e u v (inr later) h c w =
    ground (arith, waits_for_complete all es e u v later h c w)

-- The graph generated from a history has an edge from `u` to `v` exactly if, in the history, `u`
-- has a list of held locks and wants a lock that the list of `v`, another continuation, holds.
pub graph_of-WaitsFor :
    (history : List HistoryEntry) (u v : ℕ) → Edge (graph_of history) u v ↔ WaitsFor history u v
graph_of-WaitsFor history u v = (
  λ e.
      let (w, l, h, c, one_holder) =
        waits_for_sound history history u v (sym (edge?-graph_of history u v) ∙ e) in
      record {
        waiting = w;
        holder = one_holder.holder;
        waiting_listed = l;
        holder_listed = one_holder.holder_listed;
        waits = record {
          distinct = one_holder.distinct;
          has_list = h;
          holding = one_holder.holding;
        };
        waiting_is = c;
        holder_is = one_holder.holder_is;
      },
  λ w.
      edge?-graph_of history u v
      ∙ waits_for_complete history history w.waiting u v w.waiting_listed w.waits.has_list
          w.waiting_is
          (waits_for_one_complete w.waiting w.holder history v w.holder_listed w.waits.distinct
            w.waits.holding w.holder_is),
)

Walk-WaitChain :
    (history : List HistoryEntry) {u v : ℕ} → Walk (graph_of history) u v → WaitChain history u v
Walk-WaitChain history {u} (edge {v} e) = one ((graph_of-WaitsFor history u v).0 e)
Walk-WaitChain history (more {v} {w} p e) =
    then_one (Walk-WaitChain history p) ((graph_of-WaitsFor history v w).0 e)

WaitChain-Walk :
    (history : List HistoryEntry) {u v : ℕ} → WaitChain history u v → Walk (graph_of history) u v
WaitChain-Walk history {u} (one {v} w) = edge ((graph_of-WaitsFor history u v).1 w)
WaitChain-Walk history (then_one {v} {w} p s) =
    more (WaitChain-Walk history p) ((graph_of-WaitsFor history v w).1 s)

pub graph_of-CircularWait :
    (history : List HistoryEntry) → HasCycle (graph_of history) ↔ CircularWait history
graph_of-CircularWait history =
    (λ c. (c.0, Walk-WaitChain history c.1), λ c. (c.0, WaitChain-Walk history c.1))
