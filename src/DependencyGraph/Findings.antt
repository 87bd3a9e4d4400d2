-- ===== src/DependencyGraph/Findings.antt =====
-- The depth-first search finds real cycles only, and leaves finished nodes safe if it finds none.
use libspinscale.Base.{
  ℕ, zero, suc, ◌≡◌, refl, sym, ◌∙◌, subst, ap, true, false, some, List, [], ◌∷◌, ◌++◌, arith, ◌==◌,
  Bool-cases, Option-cases, inl, inr, ==_iff, ==_refl,
}
use mathlib.Core.Bool.{false≢true}
use libspinscale.DependencyGraph.{
  AdjacencyList, member, set_insert, set_erase, adjacent_to, Search, pop_back, enter, leave,
  visit_adjacent, dfs_cycle_detection,
}
use libspinscale.DependencyGraph.Walks.{Edge, Safe, safe, Chain, AllCycles}
use libspinscale.DependencyGraph.Visits.{
  Dfs, Frame-refl, Frame-trans, FinishedSafe, Pre, Post, LoopPre, LoopPost, append_single_ne_nil,
  AllCycles-append, record_cycle-Recorded, member-cons, visit_on_stack, visit_visited, visit_new,
  visit_none, some_ne_none, some_inj, dfs_some, dfs_none, head_member,
}

LoopPre-tail :
    {g : AdjacencyList} {x : ℕ} {xs : List ℕ} {s : Search} (s1 : Search)
    → LoopPre g (x ∷ xs) s
    → s1.recursion_stack ≡ s.recursion_stack
    → s1.path ≡ s.path
    → AllCycles g s1.cycles
    → LoopPre g xs s1
LoopPre-tail {g} {x} {xs} s1 pre e p r = record {
  on_path = λ y m. rw p (pre.on_path y (rw e at m));
  chain = λ y m. rw p (pre.chain y (member-cons y x xs m));
  real = r;
}

-- One more safe node in front of the rest.
Safe-cons :
    {g : AdjacencyList} (x : ℕ) (xs : List ℕ)
    → Safe g x
    → ((y : ℕ) → member y xs ≡ true → Safe g y)
    → (y : ℕ) → member y (x ∷ xs) ≡ true
    → Safe g y
Safe-cons {g} x xs first rest y m = elim (Bool-cases (x == y)) [
  | inl same ↦ subst (Safe g) ((==_iff _ _).0 same) first
  | inr other ↦ rest y (rw other at m)
]

module _ (g : AdjacencyList) (dfs : Dfs)
    (good : (x : ℕ) (s s' : Search) → Pre g x s → dfs x s ≡ some s' → Post g x s s') where
  visit-LoopPost :
      (xs : List ℕ) (s s' : Search)
      → LoopPre g xs s
      → visit_adjacent dfs xs s ≡ some s'
      → LoopPost g xs s s'
  unfolding visit_adjacent
  visit-LoopPost [] s s' pre h =
      let e : s ≡ s' = some_inj h in
      subst (LoopPost g [] s) e (record {
        frame = Frame-refl s;
        real = pre.real;
        finished = λ _ f. f;
        safe_nodes = λ _ _ x m. cc;
      })
  visit-LoopPost (x ∷ xs) s s' pre h = elim (Bool-cases (member x s.recursion_stack)) [
    | inl on_stack ↦
        let r = record_cycle-Recorded g x s pre.on_path on_stack (pre.chain x (head_member x xs)) in
        let s1 = record s { cycles = s.cycles ++ r.cycle ∷ [] } in
        let h1 : visit_adjacent dfs xs s1 ≡ some s' =
          sym (visit_on_stack dfs x xs s on_stack ∙ ap (visit_adjacent dfs xs) r.result) ∙ h in
        let post =
          visit-LoopPost xs s1 s'
            (LoopPre-tail s1 pre refl refl (AllCycles-append g s.cycles r.cycle pre.real r.real))
            h1 in
        let none_left =
          λ (e : s'.cycles ≡ []). append_single_ne_nil s.cycles r.cycle (post.frame.cycles e) in
        record {
          frame = record {
            stack = post.frame.stack;
            path = post.frame.path;
            visited = post.frame.visited;
            cycles = λ e. absurd (none_left e);
          };
          real = post.real;
          finished = λ e f. absurd (none_left e);
          safe_nodes = λ e f y m. absurd (none_left e);
        }
    | inr off_stack ↦ elim (Bool-cases (member x s.visited)) [
      | inl visited ↦
          let h1 = sym (visit_visited dfs x xs s off_stack visited) ∙ h in
          let post = visit-LoopPost xs s s' (LoopPre-tail s pre refl refl pre.real) h1 in
          record {
            frame = post.frame;
            real = post.real;
            finished = post.finished;
            safe_nodes = λ e f. Safe-cons x xs (f x visited off_stack) (post.safe_nodes e f);
          }
      | inr unvisited ↦ elim (Option-cases (dfs x s)) [
        | inl ran_out ↦
            absurd (some_ne_none (sym h ∙ visit_none dfs x xs s off_stack unvisited ran_out))
        | inr (s1, found) ↦
            let one =
              good x s s1
                (record {
                  fresh = off_stack;
                  unvisited = unvisited;
                  on_path = pre.on_path;
                  chain = pre.chain x (head_member x xs);
                  real = pre.real;
                })
                found in
            let h1 = sym (visit_new dfs x xs s off_stack unvisited found) ∙ h in
            let post =
              visit-LoopPost xs s1 s' (LoopPre-tail s1 pre one.frame.stack one.frame.path one.real)
                h1 in
            record {
              frame = Frame-trans one.frame post.frame;
              real = post.real;
              finished = λ e f. post.finished e (one.finished (post.frame.cycles e) f);
              safe_nodes = λ e f.
                  let e1 = post.frame.cycles e in
                  Safe-cons x xs (one.safe_node e1 f) (post.safe_nodes e (one.finished e1 f));
            }
      ]
    ]
  ]

pop_back-concat : (xs : List ℕ) (x : ℕ) → pop_back (xs ++ x ∷ []) ≡ xs
pop_back-concat [] x = refl
pop_back-concat (y ∷ []) x = refl
pop_back-concat (y ∷ z ∷ ys) x = ap (◌∷◌ y) (pop_back-concat (z ∷ ys) x)

set_insert_new : (x : ℕ) (xs : List ℕ) → member x xs ≡ false → set_insert x xs ≡ x ∷ xs
set_insert_new x xs h = rw h

set_erase_head : (x : ℕ) (xs : List ℕ) → set_erase x (x ∷ xs) ≡ xs
set_erase_head x xs = rw (==_refl x)

member-concat_left :
    (y : ℕ) (xs : List ℕ) (x : ℕ) → member y xs ≡ true → member y (xs ++ x ∷ []) ≡ true
member-concat_left y [] x h = cc
member-concat_left y (z ∷ xs) x h = ground (arith, member-concat_left y xs x)

member-concat_self : (xs : List ℕ) (x : ℕ) → member x (xs ++ x ∷ []) ≡ true
member-concat_self [] x = ground arith
member-concat_self (z ∷ xs) x = ground (arith, member-concat_self xs x)

Chain-append_edge :
    (g : AdjacencyList) (path : List ℕ) (u x : ℕ)
    → Chain g (path ++ u ∷ [])
    → Edge g u x
    → Chain g ((path ++ u ∷ []) ++ x ∷ [])
Chain-append_edge g [] u x c e = (e, tt)
Chain-append_edge g (y ∷ []) u x c e = (c.0, (e, tt))
Chain-append_edge g (y ∷ z ∷ path) u x c e = (c.0, Chain-append_edge g (z ∷ path) u x c.1 e)

module _ (g : AdjacencyList) (x : ℕ) (s : Search) (pre : Pre g x s) where
  entered : Search
  entered = enter x s

  enter-LoopPre : LoopPre g (adjacent_to g x) (enter x s)
  enter-LoopPre = record {
    on_path = λ y m. elim (Bool-cases (x == y)) [
      | inl same ↦
          subst (λ z. member z (s.path ++ x ∷ []) ≡ true) ((==_iff _ _).0 same)
            (member-concat_self s.path x)
      | inr other ↦
          member-concat_left y s.path x
            (pre.on_path y (rw (set_insert_new x s.recursion_stack pre.fresh, other) at m))
    ];
    chain = λ y e. Chain-append_edge g s.path x y pre.chain e;
    real = pre.real;
  }

  enter-FinishedSafe : FinishedSafe g s → FinishedSafe g (enter x s)
  enter-FinishedSafe f u v o = elim (Bool-cases (x == u)) [
    | inl same ↦
        absurd (false≢true (sym (rw (set_insert_new x s.recursion_stack pre.fresh, same) at o)))
    | inr other ↦
        f u (rw (set_insert_new x s.visited pre.unvisited, other) at v)
          (rw (set_insert_new x s.recursion_stack pre.fresh, other) at o)
  ]

  leave-Post : (s1 : Search) → LoopPost g (adjacent_to g x) (enter x s) s1 → Post g x s (leave x s1)
  leave-Post s1 post =
      let popped : set_erase x s1.recursion_stack ≡ s.recursion_stack =
        ap (set_erase x) (post.frame.stack ∙ set_insert_new x s.recursion_stack pre.fresh)
        ∙ set_erase_head x s.recursion_stack in
      let safe_here = λ (e : s1.cycles ≡ []) (f : FinishedSafe g s).
        safe (post.safe_nodes e (enter-FinishedSafe f)) in
      record {
        frame = record {
          stack = popped;
          path = ap pop_back post.frame.path ∙ pop_back-concat s.path x;
          visited = λ y h.
              post.frame.visited y
                (rw (set_insert_new x s.visited pre.unvisited) (member-cons y x s.visited h));
          cycles = post.frame.cycles;
        };
        real = post.real;
        finished = λ e f u v o. elim (Bool-cases (x == u)) [
          | inl same ↦ subst (Safe g) ((==_iff _ _).0 same) (safe_here e f)
          | inr other ↦ post.finished e (enter-FinishedSafe f) u v (
              rw (post.frame.stack, set_insert_new x s.recursion_stack pre.fresh, other)
                (rw popped at o))
        ];
        safe_node = λ e f. safe_here e f;
      }

-- One call of `dfsCycleDetection`, at any depth of fuel.
pub dfs-Post :
    (g : AdjacencyList) (fuel x : ℕ) (s s' : Search)
    → Pre g x s
    → dfs_cycle_detection g fuel x s ≡ some s'
    → Post g x s s'
unfolding dfs_cycle_detection
dfs-Post g zero x s s' pre h = cc
dfs-Post g (suc fuel) x s s' pre h =
    elim (Option-cases
      (visit_adjacent (dfs_cycle_detection g fuel) (adjacent_to g x) (enter x s))) [
        | inl ran_out ↦ absurd (some_ne_none (sym h ∙ dfs_none g fuel x s ran_out))
        | inr (s1, found) ↦
            let post =
              visit-LoopPost g (dfs_cycle_detection g fuel) (dfs-Post g fuel) (adjacent_to g x)
                (enter x s) s1 (enter-LoopPre g x s pre) found in
            let left : leave x s1 ≡ s' = some_inj (sym (dfs_some g fuel x s found) ∙ h) in
            subst (Post g x s) left (leave-Post g x s pre s1 post)
      ]
