-- ===== src/LockerAndInvoker/History.antt =====
-- The locks of the callers: the list that the tracker is given and the search for a deadlock.
use libspinscale.Base.{
  ℕ, ◌≡◌, refl, ◌⊎◌, ◌∙◌, Bool, true, false, ◌||◌, Option, none, some, List, [], ◌∷◌, arith,
  Bool-cases, inl, inr,
}
use libspinscale.World.{LockSet, LockUsageDesc, get_lock_usage_desc}
use libspinscale.DependencyGraph.{member}
use libspinscale.LockSet.Taking.{names}
use libspinscale.LockerAndInvoker.{
  ChainLink, serialized, unserialized, push_locks, collect_locks, trace_for_deadlock_on,
  trace_for_deadlock,
}

-- Some caller requires the qutex.
abbrev pub required_by : (ℕ → LockSet) → ℕ → List ChainLink → Bool
required_by sets a [] = false
required_by sets a (serialized c ∷ chain) = names (sets c).locks a || required_by sets a chain
required_by sets a (unserialized ∷ chain) = required_by sets a chain

pub names-get_lock_usage_desc :
    (ds : List LockUsageDesc) (a : ℕ)
    → names ds a ≡ (elim (get_lock_usage_desc ds a) [ none ↦ false | some _ ↦ true ])
unfolding get_lock_usage_desc
names-get_lock_usage_desc [] a = refl
names-get_lock_usage_desc (d ∷ ds) a = ground (arith, names-get_lock_usage_desc ds a)

member-push_locks :
    (ds : List LockUsageDesc) (held : List ℕ) (a : ℕ)
    → member a (push_locks ds held) ≡ (names ds a || member a held)
member-push_locks [] held a = refl
member-push_locks (d ∷ ds) held a = ground (arith, member-push_locks ds (d.qutex ∷ held) a)

module _ (sets : ℕ → LockSet) where
  pub member-collect_locks :
      (chain : List ChainLink) (held : List ℕ) (a : ℕ)
      → member a (collect_locks sets chain held) ≡ (required_by sets a chain || member a held)
  unfolding collect_locks
  member-collect_locks [] held a = refl
  member-collect_locks (serialized c ∷ chain) held a = ground (
    arith,
    member-collect_locks chain (push_locks (sets c).locks held) a,
    member-push_locks (sets c).locks held a,
  )
  member-collect_locks (unserialized ∷ chain) held a = member-collect_locks chain held a

  pub trace_for_deadlock_on-required_by :
      (a : ℕ) (chain : List ChainLink)
      → trace_for_deadlock_on sets a chain ≡ required_by sets a chain
  unfolding trace_for_deadlock_on
  trace_for_deadlock_on-required_by a [] = refl
  trace_for_deadlock_on-required_by a (serialized c ∷ chain) =
      ground (
        arith,
        trace_for_deadlock_on-required_by a chain,
        names-get_lock_usage_desc (sets c).locks a,
      )
  trace_for_deadlock_on-required_by a (unserialized ∷ chain) =
      trace_for_deadlock_on-required_by a chain

  -- The required locks are all free of the callers, or this is the first that is not.
  abbrev pub IsFirst : List ChainLink → List LockUsageDesc → Option ℕ → Type 0
  IsFirst chain [] found = found ≡ none
  IsFirst chain (d ∷ ds) found =
      ((required_by sets d.qutex chain ≡ true) × (found ≡ some d.qutex))
      ⊎ ((required_by sets d.qutex chain ≡ false) × IsFirst chain ds found)

  -- The search through the required locks gives the first that some serialized caller requires,
  -- and nothing if there is none.
  pub trace_for_deadlock-IsFirst :
      (ds : List LockUsageDesc) (chain : List ChainLink)
      → IsFirst chain ds (trace_for_deadlock sets ds chain)
  unfolding trace_for_deadlock
  trace_for_deadlock-IsFirst [] chain = refl
  trace_for_deadlock-IsFirst (d ∷ ds) chain =
      let traced = trace_for_deadlock_on-required_by d.qutex chain in
      elim (Bool-cases (required_by sets d.qutex chain)) [
        | inl required ↦ inl (required, rw (traced ∙ required, trace_for_deadlock))
        | inr free ↦
            inr (free, rw (traced ∙ free, trace_for_deadlock) (trace_for_deadlock-IsFirst ds chain))
      ]
