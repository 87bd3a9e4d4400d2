-- ===== src/DependencyGraph/Visits.antt =====
-- What one visit of the depth-first search does to its four containers, whatever it finds.
use libspinscale.Base.{
  ℕ, suc, ◌≡◌, refl, ◌∙◌, true, false, Option, none, some, List, [], ◌∷◌, ◌++◌, arith,
}
use libspinscale.DependencyGraph.{
  AdjacencyList, member, adjacent_to, Search, record_cycle, enter, leave, visit_adjacent,
  dfs_cycle_detection,
}
use libspinscale.DependencyGraph.Walks.{Safe, Chain, IsCycle, AllCycles, Chain-from_node}

abbrev pub Dfs : Type 0
Dfs = ℕ → Search → Option Search

-- The stack and the path are put back; visited nodes stay visited, and found cycles stay found.
pub record Frame (s s' : Search) : Type 0 where
  pub stack : s'.recursion_stack ≡ s.recursion_stack
  pub path : s'.path ≡ s.path
  pub visited : (x : ℕ) → member x s.visited ≡ true → member x s'.visited ≡ true
  pub cycles : s'.cycles ≡ [] → s.cycles ≡ []

pub Frame-refl : (s : Search) → Frame s s
Frame-refl s = record { stack = refl; path = refl; visited = λ x h. h; cycles = λ h. h }

pub Frame-trans : {s t u : Search} → Frame s t → Frame t u → Frame s u
Frame-trans a b = record {
  stack = b.stack ∙ a.stack;
  path = b.path ∙ a.path;
  visited = λ x h. b.visited x (a.visited x h);
  cycles = λ h. a.cycles (b.cycles h);
}

-- Every node on the stack is on the path.
abbrev pub OnPath : Search → Type 0
OnPath s = (x : ℕ) → member x s.recursion_stack ≡ true → member x s.path ≡ true

-- No endless walk starts at a node that the search has finished.
abbrev pub FinishedSafe : AdjacencyList → Search → Type 0
FinishedSafe g s =
    (u : ℕ) → member u s.visited ≡ true → member u s.recursion_stack ≡ false → Safe g u

-- What holds where `dfsCycleDetection(x)` is called.
pub record Pre (g : AdjacencyList) (x : ℕ) (s : Search) : Type 0 where
  pub fresh : member x s.recursion_stack ≡ false
  pub unvisited : member x s.visited ≡ false
  pub on_path : OnPath s
  pub chain : Chain g (s.path ++ x ∷ [])
  pub real : AllCycles g s.cycles

-- What it leaves: real cycles only; if there is none, finished nodes are safe.
pub record Post (g : AdjacencyList) (x : ℕ) (s s' : Search) : Type 0 where
  pub frame : Frame s s'
  pub real : AllCycles g s'.cycles
  pub finished : s'.cycles ≡ [] → FinishedSafe g s → FinishedSafe g s'
  pub safe_node : s'.cycles ≡ [] → FinishedSafe g s → Safe g x

pub record LoopPre (g : AdjacencyList) (xs : List ℕ) (s : Search) : Type 0 where
  pub on_path : OnPath s
  pub chain : (x : ℕ) → member x xs ≡ true → Chain g (s.path ++ x ∷ [])
  pub real : AllCycles g s.cycles

pub record LoopPost (g : AdjacencyList) (xs : List ℕ) (s s' : Search) : Type 0 where
  pub frame : Frame s s'
  pub real : AllCycles g s'.cycles
  pub finished : s'.cycles ≡ [] → FinishedSafe g s → FinishedSafe g s'
  pub safe_nodes : s'.cycles ≡ [] → FinishedSafe g s → (x : ℕ) → member x xs ≡ true → Safe g x

pub append_single_ne_nil {ℓ} : {A : Type ℓ} (xs : List A) (x : A) → xs ++ x ∷ [] ≡ [] → ⊥
append_single_ne_nil [] x h = cc
append_single_ne_nil (y ∷ xs) x h = cc

pub AllCycles-append :
    (g : AdjacencyList) (cs : List (List ℕ)) (c : List ℕ)
    → AllCycles g cs
    → IsCycle g c
    → AllCycles g (cs ++ c ∷ [])
AllCycles-append g [] c h i = (i, tt)
AllCycles-append g (d ∷ cs) c h i = (h.0, AllCycles-append g cs c h.1 i)

-- A node on the stack closes a cycle, which is recorded.
pub record Recorded (g : AdjacencyList) (x : ℕ) (s : Search) : Type 0 where
  pub cycle : List ℕ
  pub result : record_cycle x s ≡ record s { cycles = s.cycles ++ cycle ∷ [] }
  pub real : IsCycle g cycle

pub record_cycle-Recorded :
    (g : AdjacencyList) (x : ℕ) (s : Search)
    → OnPath s
    → member x s.recursion_stack ≡ true
    → Chain g (s.path ++ x ∷ [])
    → Recorded g x s
unfolding record_cycle
record_cycle-Recorded g x s on m c =
    let (rest, e, chain) = Chain-from_node g x x s.path (on x m) c in
    record {
      cycle = x ∷ rest ++ x ∷ [];
      result = rw (e, record_cycle);
      real = record { start = x; inner = rest; closed = refl; chain = chain };
    }

pub member-cons : (x y : ℕ) (ys : List ℕ) → member x ys ≡ true → member x (y ∷ ys) ≡ true
member-cons x y ys h = ground arith

-- One round of the loop.
module _ (dfs : Dfs) (x : ℕ) (xs : List ℕ) (s : Search) where
  pub visit_on_stack :
      member x s.recursion_stack ≡ true
      → visit_adjacent dfs (x ∷ xs) s ≡ visit_adjacent dfs xs (record_cycle x s)
  unfolding visit_adjacent
  visit_on_stack h = rw (h, visit_adjacent)

  pub visit_visited :
      member x s.recursion_stack ≡ false
      → member x s.visited ≡ true
      → visit_adjacent dfs (x ∷ xs) s ≡ visit_adjacent dfs xs s
  unfolding visit_adjacent
  visit_visited h v = rw (h, visit_adjacent, v)

  pub visit_new :
      {s1 : Search}
      → member x s.recursion_stack ≡ false
      → member x s.visited ≡ false
      → dfs x s ≡ some s1
      → visit_adjacent dfs (x ∷ xs) s ≡ visit_adjacent dfs xs s1
  unfolding visit_adjacent
  visit_new h v e = rw (h, visit_adjacent, v, e)

  pub visit_none :
      member x s.recursion_stack ≡ false
      → member x s.visited ≡ false
      → dfs x s ≡ none
      → visit_adjacent dfs (x ∷ xs) s ≡ none
  unfolding visit_adjacent
  visit_none h v e = rw (h, visit_adjacent, v, e)

pub some_ne_none {ℓ} : {A : Type ℓ} {a : A} → some a ≡ none → ⊥
some_ne_none h = cc

pub head_member : (x : ℕ) (xs : List ℕ) → member x (x ∷ xs) ≡ true
head_member x xs = ground arith

pub some_inj {ℓ} : {A : Type ℓ} {a b : A} → some a ≡ some b → a ≡ b
some_inj h = cc

-- One call, from what the loop over the adjacent nodes gives.
module _ (g : AdjacencyList) (fuel x : ℕ) (s : Search) where
  abbrev visits : Option Search
  visits = visit_adjacent (dfs_cycle_detection g fuel) (adjacent_to g x) (enter x s)

  pub dfs_some :
      {s1 : Search} → visits ≡ some s1 → dfs_cycle_detection g (suc fuel) x s ≡ some (leave x s1)
  unfolding dfs_cycle_detection
  dfs_some e = rw (e, dfs_cycle_detection)

  pub dfs_none : visits ≡ none → dfs_cycle_detection g (suc fuel) x s ≡ none
  unfolding dfs_cycle_detection
  dfs_none e = rw (e, dfs_cycle_detection)
