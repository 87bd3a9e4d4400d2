-- ===== src/AsynchronousContinuation/Chain.antt =====
-- The chain of callers ends, and the loops along it compute what the list of callers says.
use libspinscale.Base.{
  ℕ, zero, suc, ◌<◌, ◌≡◌, inl, inr, refl, sym, ◌∙◌, ◌↔◌, Bool, true, false, Option, none, some,
  List, [], ◌∷◌, arith, Bool-cases, Option-cases,
}
use mathlib.Core.Bool.{false≢true}
use libspinscale.DependencyGraph.{member}
use libspinscale.LockSet.Taking.{names}
use libspinscale.LockerAndInvoker.History.{
  required_by, trace_for_deadlock_on-required_by, member-collect_locks,
}
use libspinscale.World.{LockSet}
use libspinscale.LockerAndInvoker.{
  ChainLink, serialized, unserialized, trace_for_deadlock_on, collect_locks, push_locks,
}
use libspinscale.AsynchronousContinuation.{
  AsynchronousContinuation, casts_to, next_of, trace_chain, collect_chain,
}

-- A caller's continuation was made before the continuation, and an address is the time of making.
abbrev pub CallersAreOlder : (ℕ → AsynchronousContinuation) → Type 0
CallersAreOlder store = (a b : ℕ) → next_of store a ≡ some b → b < a

abbrev pub IsBelow : ℕ → Option ℕ → Type 0
IsBelow n none = Unit
IsBelow n (some b) = b < n

-- The list of callers that `curr` leads to.
data Callers (original_cb_fn_t : ℕ) (store : ℕ → AsynchronousContinuation)
    : Option ℕ → List ChainLink → Type 0 where
  null : Callers original_cb_fn_t store none []
  link_serialized :
      {b : ℕ} {chain : List ChainLink}
      → casts_to original_cb_fn_t (store b) ≡ true
      → Callers original_cb_fn_t store (next_of store b) chain
      → Callers original_cb_fn_t store (some b) (serialized b ∷ chain)
  link_unserialized :
      {b : ℕ} {chain : List ChainLink}
      → casts_to original_cb_fn_t (store b) ≡ false
      → Callers original_cb_fn_t store (next_of store b) chain
      → Callers original_cb_fn_t store (some b) (unserialized ∷ chain)

-- Some caller that `curr` leads to has the walker's callback type and names the qutex `a`.
pub data Requires (original_cb_fn_t : ℕ) (store : ℕ → AsynchronousContinuation) (sets : ℕ → LockSet)
    (a : ℕ) : Option ℕ → Type 0 where
  by_caller :
      {b : ℕ}
      → casts_to original_cb_fn_t (store b) ≡ true
      → names (sets b).locks a ≡ true
      → Requires original_cb_fn_t store sets a (some b)
  by_earlier :
      {b : ℕ}
      → Requires original_cb_fn_t store sets a (next_of store b)
      → Requires original_cb_fn_t store sets a (some b)

module _ (original_cb_fn_t : ℕ) (store : ℕ → AsynchronousContinuation) (sets : ℕ → LockSet) where
  -- Both loops end within the bound, with what they compute on the list.
  record Walks (n : ℕ) (curr : Option ℕ) (chain : List ChainLink) : Type 0 where
    callers : Callers original_cb_fn_t store curr chain
    traced :
        (a : ℕ)
        → trace_chain store original_cb_fn_t sets a n curr
          ≡ some (trace_for_deadlock_on sets a chain)
    collected :
        (held : List ℕ)
        → collect_chain store original_cb_fn_t sets n curr held
          ≡ some (collect_locks sets chain held)

  IsBelow-next : CallersAreOlder store → (n b : ℕ) → b < suc n → IsBelow n (next_of store b)
  IsBelow-next older n b h = elim (Option-cases (next_of store b)) [
    | inl e ↦ rw e tt
    | inr (c, e) ↦ let k : c < b = older b c e in rw e (omega (arith, k))
  ]

  -- If every caller's continuation was made before the continuation that it calls, both loops
  -- along the chain from a continuation made before `n` end within `n` rounds, and there is a list
  -- of the callers on which the search for a deadlock and the collection of locks give the same
  -- results as the loops.
  chain-Walks :
      CallersAreOlder store
      → (n : ℕ) (curr : Option ℕ) → IsBelow n curr
      → (chain : List ChainLink) × Walks n curr chain
  unfolding trace_chain collect_chain trace_for_deadlock_on collect_locks
  chain-Walks older zero none h =
      ([], record { callers = null; traced = λ a. refl; collected = λ held. refl })
  chain-Walks older (suc n) none h =
      ([], record { callers = null; traced = λ a. refl; collected = λ held. refl })
  chain-Walks older zero (some b) h = absurd (omega arith)
  chain-Walks older (suc n) (some b) h =
      let (chain, w) = chain-Walks older n (next_of store b) (IsBelow-next older n b h) in
      elim (Bool-cases (casts_to original_cb_fn_t (store b))) [
        | inl e ↦ (
          serialized b ∷ chain,
          record {
            callers = link_serialized e w.callers;
            traced = λ a. ground (arith, e, w.traced a);
            collected = λ held. ground (arith, e, w.collected (push_locks (sets b).locks held));
          },
        )
        | inr e ↦ (
          unserialized ∷ chain,
          record {
            callers = link_unserialized e w.callers;
            traced = λ a. ground (arith, e, w.traced a);
            collected = λ held. ground (arith, e, w.collected held);
          },
        )
      ]

  required-Requires :
      (a : ℕ) {curr : Option ℕ} {chain : List ChainLink}
      → Callers original_cb_fn_t store curr chain
      → required_by sets a chain ≡ true
      → Requires original_cb_fn_t store sets a curr
  required-Requires a null e = absurd (false≢true e)
  required-Requires a (link_serialized {b} {chain} s k) e =
      elim (Bool-cases (names (sets b).locks a)) [
        | inl here ↦ by_caller s here
        | inr other ↦ by_earlier (required-Requires a k (ground (arith, e, other)))
      ]
  required-Requires a (link_unserialized s k) e = by_earlier (required-Requires a k e)

  Requires-required :
      (a : ℕ) {curr : Option ℕ} {chain : List ChainLink}
      → Callers original_cb_fn_t store curr chain
      → Requires original_cb_fn_t store sets a curr
      → required_by sets a chain ≡ true
  Requires-required a null r = elim r [ ]
  Requires-required a (link_serialized s k) (by_caller c n) = ground (arith, n)
  Requires-required a (link_serialized s k) (by_earlier r) = ground (arith, Requires-required a k r)
  Requires-required a (link_unserialized s k) (by_caller c n) = absurd (false≢true (sym s ∙ c))
  Requires-required a (link_unserialized s k) (by_earlier r) = Requires-required a k r

  -- If every caller's continuation was made before the continuation that it calls, the two loops
  -- along the chain from a continuation made before `n` end within `n` rounds. The search for a
  -- deadlock on a qutex answers true exactly if some caller on the chain is a
  -- SerializedAsynchronousContinuation with the callback type of the one that walks and its lock
  -- set names the qutex; and exactly then the qutex is in the list of held locks.
  pub chain-Requires :
      CallersAreOlder store
      → (n : ℕ) (curr : Option ℕ) → IsBelow n curr
      → (a : ℕ)
      → (found : Bool) × (held : List ℕ) × (trace_chain store original_cb_fn_t sets a n curr
          ≡ some found)
        × (collect_chain store original_cb_fn_t sets n curr [] ≡ some held)
        × (found ≡ true ↔ Requires original_cb_fn_t store sets a curr)
        × (member a held ≡ true ↔ Requires original_cb_fn_t store sets a curr)
  chain-Requires older n curr below a =
      let (chain, w) = chain-Walks older n curr below in
      let found = trace_for_deadlock_on-required_by sets a chain in
      let held = member-collect_locks sets chain [] a in
      let only : (b : Bool)
          → b ≡ required_by sets a chain
          → b ≡ true ↔ Requires original_cb_fn_t store sets a curr =
        λ b e. (
          (λ x. required-Requires a w.callers (sym e ∙ x)),
          (λ r. e ∙ Requires-required a w.callers r),
        ) in
      (
        trace_for_deadlock_on sets a chain,
        collect_locks sets chain [],
        w.traced a,
        w.collected [],
        only (trace_for_deadlock_on sets a chain) found,
        only (member a (collect_locks sets chain [])) (ground (arith, held)),
      )
