-- ===== src/DependencyGraph/Decides.antt =====
-- `findCycles` and `hasCycles` decide whether the graph has a circular dependency.
use libspinscale.Base.{
  ℕ, ◌≡◌, refl, ◌∙◌, subst, ◌↔◌, ◌≢◌, Bool, true, false, some, List, [], ◌∷◌, arith, ◌==◌,
  Bool-cases, List-cases, inl, inr, ==_iff,
}
use libspinscale.DependencyGraph.{
  AdjacencyList, member, Search, dfs_cycle_detection, find_cycles_from, has_cycles_from,
  enough_fuel, new_search, find_cycles, has_cycles,
}
use libspinscale.DependencyGraph.Walks.{
  Walk, edge, more, HasCycle, Safe, not-Safe_of_Walk, IsCycle, AllCycles, IsCycle-HasCycle,
}
use libspinscale.DependencyGraph.Visits.{FinishedSafe}
use libspinscale.DependencyGraph.Findings.{dfs-Post}
use libspinscale.DependencyGraph.Termination.{is_node, Closed, dfs-EndsWithin, unseen-le}

abbrev Entries : Type 0
Entries = List (ℕ × List ℕ)

-- The state between two calls from the outer loop.
record Between (g : AdjacencyList) (s : Search) : Type 0 where
  stack : s.recursion_stack ≡ []
  path : s.path ≡ []
  real : AllCycles g s.cycles
  finished : s.cycles ≡ [] → FinishedSafe g s

new_search-Between : (g : AdjacencyList) → Between g (new_search g)
new_search-Between g = record { stack = refl; path = refl; real = tt; finished = λ _ u v _. cc }

abbrev AllSafe : AdjacencyList → Entries → Type 0
AllSafe g entries = (x : ℕ) → is_node x entries ≡ true → Safe g x

AllSafe-cons :
    (g : AdjacencyList) (x : ℕ) (a : List ℕ) (entries : Entries)
    → Safe g x
    → AllSafe g entries
    → AllSafe g ((x, a) ∷ entries)
AllSafe-cons g x a entries first rest y m = elim (Bool-cases (x == y)) [
  | inl same ↦ subst (Safe g) ((==_iff _ _).0 same) first
  | inr other ↦ rest y (rw other at m)
]

is_node-cons :
    (x y : ℕ) (a : List ℕ) (g : AdjacencyList) → is_node x g ≡ true → is_node x ((y, a) ∷ g) ≡ true
is_node-cons x y a g h = ground arith

AllCycles-HasCycle :
    (g : AdjacencyList) (cs : List (List ℕ)) → AllCycles g cs → cs ≢ [] → HasCycle g
AllCycles-HasCycle g [] h ne = absurd (ne refl)
AllCycles-HasCycle g (c ∷ cs) h ne = IsCycle-HasCycle h.0

module _ (g : AdjacencyList) (closed : Closed g) where
  -- One call from the outer loop.
  record Called (x : ℕ) (s : Search) : Type 0 where
    after : Search
    ran : dfs_cycle_detection g (enough_fuel g) x s ≡ some after
    between : Between g after
    kept : after.cycles ≡ [] → s.cycles ≡ []
    safe_node : after.cycles ≡ [] → Safe g x

  call :
      (x : ℕ) (s : Search)
      → is_node x g ≡ true
      → member x s.visited ≡ false
      → Between g s
      → Called x s
  call x s node new b =
      let (s1, ran, _) =
        dfs-EndsWithin g closed (enough_fuel g) x s node new
          (omega (arith, unseen-le s.visited g)) in
      let post =
        dfs-Post g (enough_fuel g) x s s1
          (record {
            fresh = rw b.stack refl;
            unvisited = new;
            on_path = λ y m. cc (rw b.stack at m);
            chain = rw b.path tt;
            real = b.real;
          })
          ran in
      record {
        after = s1;
        ran = ran;
        between = record {
          stack = post.frame.stack ∙ b.stack;
          path = post.frame.path ∙ b.path;
          real = post.real;
          finished = λ e. post.finished e (b.finished (post.frame.cycles e));
        };
        kept = post.frame.cycles;
        safe_node = λ e. post.safe_node e (b.finished (post.frame.cycles e));
      }

  Safe-visited :
      (x : ℕ) (s : Search) → Between g s → s.cycles ≡ [] → member x s.visited ≡ true → Safe g x
  Safe-visited x s b e v = b.finished e x v (rw b.stack refl)

  -- The outer loop of `findCycles`.
  record Found (entries : Entries) (s : Search) : Type 0 where
    after : Search
    ran : find_cycles_from g entries s ≡ some after
    real : AllCycles g after.cycles
    kept : after.cycles ≡ [] → s.cycles ≡ []
    all_safe : after.cycles ≡ [] → AllSafe g entries

  find_cycles_from-Found :
      (entries : Entries) (s : Search)
      → ((x : ℕ) → is_node x entries ≡ true → is_node x g ≡ true)
      → Between g s
      → Found entries s
  unfolding find_cycles_from
  find_cycles_from-Found [] s nodes b = record {
    after = s;
    ran = refl;
    real = b.real;
    kept = λ e. e;
    all_safe = λ e x m. cc;
  }
  find_cycles_from-Found ((x, a) ∷ entries) s nodes b =
      let rest = λ (y : ℕ) (m : is_node y entries ≡ true). nodes y (is_node-cons y x a entries m) in
      elim (Bool-cases (member x s.visited)) [
        | inl visited ↦
            let f = find_cycles_from-Found entries s rest b in
            record {
              after = f.after;
              ran = rw (visited, find_cycles_from) f.ran;
              real = f.real;
              kept = f.kept;
              all_safe = λ e.
                  AllSafe-cons g x a entries (Safe-visited x s b (f.kept e) visited) (f.all_safe e);
            }
        | inr new ↦
            let c = call x s (nodes x (ground arith)) new b in
            let f = find_cycles_from-Found entries c.after rest c.between in
            record {
              after = f.after;
              ran = rw (new, find_cycles_from, c.ran) f.ran;
              real = f.real;
              kept = λ e. c.kept (f.kept e);
              all_safe = λ e. AllSafe-cons g x a entries (c.safe_node (f.kept e)) (f.all_safe e);
            }
      ]

  -- A cycle passes a node of the graph, which would not be safe.
  not-HasCycle_of_safe : AllSafe g g → HasCycle g → ⊥
  not-HasCycle_of_safe all (u, p) = not-Safe_of_Walk u (all u (walk_ends p)) p
    where
      walk_ends : {v : ℕ} → Walk g u v → is_node v g ≡ true
      walk_ends (edge {v} e) = closed u v e
      walk_ends (more {v} {w} p e) = closed v w e

  -- In a graph whose edges lead to nodes, `findCycles` returns within its fuel. What it reports are
  -- cycles of the graph, and it reports none only if there is none.
  pub find_cycles_complete :
      (cycles : List (List ℕ)) × (find_cycles g ≡ some cycles)
      × AllCycles g cycles
      × (cycles ≢ [] ↔ HasCycle g)
  unfolding find_cycles
  find_cycles_complete =
      let f = find_cycles_from-Found g (new_search g) (λ x m. m) (new_search-Between g) in
      (
        f.after.cycles,
        rw (f.ran, find_cycles),
        f.real,
        (AllCycles-HasCycle g f.after.cycles f.real, λ c e. not-HasCycle_of_safe (f.all_safe e) c),
      )

  -- The outer loop of `hasCycles`, which stops at the first cycle.
  record Answered (entries : Entries) (s : Search) : Type 0 where
    answer : Bool
    ran : has_cycles_from g entries s ≡ some answer
    sound : answer ≡ true → HasCycle g
    all_safe : answer ≡ false → AllSafe g entries

  has_cycles_from-Answered :
      (entries : Entries) (s : Search)
      → ((x : ℕ) → is_node x entries ≡ true → is_node x g ≡ true)
      → Between g s
      → s.cycles ≡ []
      → Answered entries s
  unfolding has_cycles_from
  has_cycles_from-Answered [] s nodes b e = record {
    answer = false;
    ran = refl;
    sound = λ h. cc;
    all_safe = λ _ x m. cc;
  }
  has_cycles_from-Answered ((x, a) ∷ entries) s nodes b e =
      let rest = λ (y : ℕ) (m : is_node y entries ≡ true). nodes y (is_node-cons y x a entries m) in
      elim (Bool-cases (member x s.visited)) [
        | inl visited ↦
            let f = has_cycles_from-Answered entries s rest b e in
            record {
              answer = f.answer;
              ran = rw (visited, has_cycles_from) f.ran;
              sound = f.sound;
              all_safe =
                  λ h. AllSafe-cons g x a entries (Safe-visited x s b e visited) (f.all_safe h);
            }
        | inr new ↦
            let c = call x s (nodes x (ground arith)) new b in
            elim (List-cases c.after.cycles) [
              | inl no_cycle ↦
                  let f = has_cycles_from-Answered entries c.after rest c.between no_cycle in
                  record {
                    answer = f.answer;
                    ran = rw (new, has_cycles_from, c.ran, no_cycle) f.ran;
                    sound = f.sound;
                    all_safe =
                        λ h. AllSafe-cons g x a entries (c.safe_node no_cycle) (f.all_safe h);
                  }
              | inr (cycle, more_cycles, found) ↦ record {
                answer = true;
                ran = rw (new, has_cycles_from, c.ran, found);
                sound = λ _. IsCycle-HasCycle (first_cycle c.after.cycles c.between.real found);
                all_safe = λ h. cc;
              }
            ]
      ]
    where
      first_cycle :
          {cycle : List ℕ} {rest : List (List ℕ)} (cs : List (List ℕ))
          → AllCycles g cs
          → cs ≡ cycle ∷ rest
          → IsCycle g cycle
      first_cycle {cycle} [] h e' = cc
      first_cycle {cycle} (d ∷ cs) h e' = subst (IsCycle g) (cc e') h.0

  -- In a graph whose edges lead to nodes, `hasCycles` returns within its fuel, and answers whether
  -- there is a cycle.
  pub has_cycles_iff : (b : Bool) × (has_cycles g ≡ some b) × (b ≡ true ↔ HasCycle g)
  unfolding has_cycles
  has_cycles_iff =
      let f = has_cycles_from-Answered g (new_search g) (λ x m. m) (new_search-Between g) refl in
      (
        f.answer,
        f.ran,
        (
          f.sound,
          λ c. elim (Bool-cases f.answer) [
            | inl found ↦ found
            | inr none_found ↦ absurd (not-HasCycle_of_safe (f.all_safe none_found) c)
          ],
        ),
      )
