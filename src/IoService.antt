-- ===== src/IoService.antt =====
-- boost::asio::io_service, which the repository uses and does not contain: an interface with the
-- documented behaviour of a service that one thread runs and that a `work` object keeps from
-- running out.
pub mod OneQueue
use libspinscale.Base.{◌≡◌, refl, ◌⊎◌, inl, inr, Bool, true, false, List, [], ◌∷◌, ◌++◌}

-- What `run_one` comes to: it runs a handler, it returns at once, or it waits for a post.
pub data RunOne (H S : Type 0) : Type 0 where
  runs : H → S → RunOne H S
  returns : RunOne H S
  blocks : RunOne H S

pub RunOne-cases :
    {H S : Type 0} (r : RunOne H S)
    → ((h : H) × (s : S) × (r ≡ runs h s)) ⊎ (r ≡ returns) ⊎ (r ≡ blocks)
RunOne-cases (runs h s) = inl (h, s, refl)
RunOne-cases returns = inr (inl refl)
RunOne-cases blocks = inr (inr refl)

-- `pending` lists the handlers that were posted and not run yet, the oldest first.
pub record IoService (H : Type 0) : Type 1 where
  pub State : Type 0
  pub pending : State → List H
  pub stopped : State → Bool
  pub post : H → State → State
  pub stop : State → State
  pub reset : State → State
  pub run_one : State → RunOne H State

pub record IsLawful {H : Type 0} (I : IoService H) : Type 0 where
  pub pending-post : (h : H) (s : I.State) → I.pending (I.post h s) ≡ I.pending s ++ h ∷ []
  pub stopped-post : (h : H) (s : I.State) → I.stopped (I.post h s) ≡ I.stopped s
  pub pending-stop : (s : I.State) → I.pending (I.stop s) ≡ I.pending s
  pub stopped-stop : (s : I.State) → I.stopped (I.stop s) ≡ true
  pub pending-reset : (s : I.State) → I.pending (I.reset s) ≡ I.pending s
  pub stopped-reset : (s : I.State) → I.stopped (I.reset s) ≡ false
  pub run_one-stopped : (s : I.State) → I.stopped s ≡ true → I.run_one s ≡ returns
  pub run_one-empty : (s : I.State) → I.stopped s ≡ false → I.pending s ≡ [] → I.run_one s ≡ blocks
  -- One thread runs the handlers in the order of their posts.
  pub run_one-pending :
      (s : I.State) (h : H) (hs : List H)
      → I.stopped s ≡ false
      → I.pending s ≡ h ∷ hs
      → (s' : I.State) × (I.run_one s ≡ runs h s') × (I.pending s' ≡ hs) × (I.stopped s' ≡ false)
