-- ===== src/Tracker/Gridlock.antt =====
-- The two deadlock detectors of the tracker.
use libspinscale.Base.{
  ℕ, ◌≡◌, refl, sym, ◌∙◌, ◌↔◌, ◌≢◌, Bool, true, false, List, [], ◌∷◌, arith, ◌==◌, Bool-cases, inl,
  inr, ==_false, ==_ne,
}
use libspinscale.Outcome.{ok}
use libspinscale.DependencyGraph.Decides.{has_cycles_iff, find_cycles_complete}
use libspinscale.DependencyGraph.Walks.{HasCycle, AllCycles}
use libspinscale.DependencyGraph.Termination.{Closed}
use libspinscale.DependencyGraph.{AdjacencyList}
use libspinscale.Tracker.{
  HistoryEntry, Tracker, holds, held_by_other, heuristically_trace, completely_trace,
  generate_graph, graph_of, report_cycles,
}
use libspinscale.Tracker.Waits.{Listed, CircularWait, graph_of-CircularWait}
use libspinscale.Tracker.Nodes.{graph_of-Closed}

-- Some other continuation of the history holds the lock.
pub record HeldByOther (a current : ℕ) (history : List HistoryEntry) : Type 0 where
  pub holder : HistoryEntry
  pub listed : Listed holder history
  pub other : holder.continuation ≢ current
  pub holding : holds holder a ≡ true

HeldByOther-later :
    {a current : ℕ} {history : List HistoryEntry} (e : HistoryEntry)
    → HeldByOther a current history
    → HeldByOther a current (e ∷ history)
HeldByOther-later e h = record {
  holder = h.holder;
  listed = inr h.listed;
  other = h.other;
  holding = h.holding;
}

held_by_other_sound :
    (a current : ℕ) (history : List HistoryEntry)
    → held_by_other a current history ≡ true
    → HeldByOther a current history
unfolding held_by_other
held_by_other_sound a current [] h = cc
held_by_other_sound a current (e ∷ es) h = elim (Bool-cases (e.continuation == current)) [
  | inl self ↦ HeldByOther-later e (held_by_other_sound a current es (rw self at h))
  | inr other ↦ elim (Bool-cases (holds e a)) [
    | inl held ↦ record { holder = e; listed = inl refl; other = ==_false other; holding = held }
    | inr free ↦ HeldByOther-later e (held_by_other_sound a current es (rw (other, free) at h))
  ]
]

held_by_other_complete :
    (a current : ℕ) (history : List HistoryEntry) (o : HistoryEntry)
    → Listed o history
    → o.continuation ≢ current
    → holds o a ≡ true
    → held_by_other a current history ≡ true
unfolding held_by_other
held_by_other_complete a current [] o l d h = absurd l
held_by_other_complete a current (e ∷ es) o (inl same) d h = rw same (rw (==_ne _ _ d, h))
held_by_other_complete a current (e ∷ es) o (inr later) d h =
    ground (arith, held_by_other_complete a current es o later d h)

-- The search of one graph returns within its fuel.
report_cycles-total :
    (g : AdjacencyList) (t : Tracker)
    → Closed g
    → (b : Bool) × (cycles : List (List ℕ)) × (report_cycles g t ≡ ok (b, cycles) t)
      × (b ≡ true ↔ HasCycle g)
      × AllCycles g cycles
      × (b ≡ true → cycles ≢ [])
unfolding report_cycles
report_cycles-total g t closed =
    let (b, answered, iff) = has_cycles_iff g closed in
    let (cycles, found, real, some_cycle) = find_cycles_complete g closed in
    elim (Bool-cases b) [
      | inl cyclic ↦ (
        true,
        cycles,
        rw (report_cycles, answered, cyclic, found),
        (λ _. iff.0 cyclic, λ _. refl),
        real,
        λ _. some_cycle.1 (iff.0 cyclic),
      )
      | inr acyclic ↦ (
        false,
        [],
        rw (report_cycles, answered, acyclic),
        (λ e. cc, λ c. sym acyclic ∙ iff.1 c),
        tt,
        λ e. cc,
      )
    ]

module _ (t : Tracker) (unlocked : t.lock.locked ≡ false) where
  -- On a tracker with a free spin lock the heuristic returns, leaves the tracker as it was, and
  -- answers whether some other continuation of the history holds the lock that could not be taken.
  pub heuristically_trace_iff :
      (first_failed current : ℕ)
      → (b : Bool) × (heuristically_trace first_failed current t ≡ ok b t)
        × (b ≡ true ↔ HeldByOther first_failed current t.history)
  unfolding heuristically_trace
  heuristically_trace_iff first_failed current = (
    held_by_other first_failed current t.history,
    ground arith,
    (
      held_by_other_sound first_failed current t.history,
      λ h.
          held_by_other_complete first_failed current t.history h.holder h.listed h.other h.holding,
    ),
  )

  pub completely_trace_iff :
      (first_failed : ℕ)
      → (b : Bool) × (cycles : List (List ℕ)) × (completely_trace first_failed t ≡ ok (b, cycles) t)
        × (b ≡ true ↔ CircularWait t.history)
        × AllCycles (graph_of t.history) cycles
        × (b ≡ true → cycles ≢ [])
  unfolding completely_trace generate_graph
  completely_trace_iff first_failed =
      let (b, cycles, ran, iff, real, reported) =
        report_cycles-total (graph_of t.history) (record t { lock = record { locked = true } })
          (graph_of-Closed t.history) in
      let (to, from) = graph_of-CircularWait t.history in
      (b, cycles, ground (arith, ran), (λ h. to (iff.0 h), λ h. iff.1 (from h)), real, reported)
