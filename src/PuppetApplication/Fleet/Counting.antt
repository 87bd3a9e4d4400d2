-- ===== src/PuppetApplication/Fleet/Counting.antt =====
-- The callbacks of a request that a list of threads has posted.
use native.Mathlib.Decide.{ℕ_discrete}
use libspinscale.Base.{
  ℕ, ◌≤◌, ◌≡◌, ◌≢◌, sym, subst, List, [], ◌∷◌, update, update_self, update_ne, arith, length,
}
use libspinscale.IoService.{IoService}
use libspinscale.ComponentThread.{Handler, PuppetThread}
use libspinscale.PuppetApplication.Fleet.{n_posted, n_posted_by}
use libspinscale.PuppetApplication.Fleet.Tokens.{tokens}
use libspinscale.PuppetApplication.Fleet.Single.{Single}

abbrev pub NotListed : ℕ → List ℕ → Type 0
NotListed i [] = Unit
NotListed i (j ∷ js) = (j ≢ i) × NotListed i js

abbrev pub DistinctThreads : List ℕ → Type 0
DistinctThreads [] = Unit
DistinctThreads (i ∷ is) = NotListed i is × DistinctThreads is

module _ {I : IoService Handler} (r : ℕ) where
  -- Every thread of the list has posted the callback once.
  abbrev pub AllPosted : List ℕ → (ℕ → PuppetThread I) → Type 0
  AllPosted [] threads = Unit
  AllPosted (i ∷ is) threads = (n_posted r (threads i).callbacks ≡ 1) × AllPosted is threads

  pub n_posted_by-le :
      (is : List ℕ) (threads : ℕ → PuppetThread I)
      → ((i : ℕ) → n_posted r (threads i).callbacks ≤ 1)
      → n_posted_by r is threads ≤ length is
  n_posted_by-le [] threads h = omega arith
  n_posted_by-le (i ∷ is) threads h = omega (arith, h i, n_posted_by-le is threads h)

  pub n_posted_by-full :
      (is : List ℕ) (threads : ℕ → PuppetThread I)
      → ((i : ℕ) → n_posted r (threads i).callbacks ≤ 1)
      → length is ≤ n_posted_by r is threads
      → AllPosted is threads
  n_posted_by-full [] threads h le = tt
  n_posted_by-full (i ∷ is) threads h le = (
    omega (arith, h i, n_posted_by-le is threads h),
    n_posted_by-full is threads h (omega (arith, h i)),
  )

  pub n_posted_by-update :
      (is : List ℕ) (threads : ℕ → PuppetThread I) (i : ℕ) (t : PuppetThread I)
      → n_posted r (threads i).callbacks ≤ n_posted r t.callbacks
      → n_posted_by r is threads ≤ n_posted_by r is (update threads i t)
  n_posted_by-update [] threads i t h = omega arith
  n_posted_by-update (j ∷ js) threads i t h =
      let more : n_posted r (threads j).callbacks ≤ n_posted r (update threads i t j).callbacks =
        elim (ℕ_discrete i j) [
          | yes k ↦
              subst
                (λ (x : ℕ).
                  n_posted r (threads x).callbacks ≤ n_posted r (update threads i t x).callbacks)
                k (rw (update_self threads i t) h)
          | no k ↦ rw (update_ne threads i t j k) (omega arith)
        ] in
      omega (arith, more, n_posted_by-update js threads i t h)

  pub update-Single :
      (threads : ℕ → PuppetThread I) (i : ℕ) (t : PuppetThread I)
      → ((j : ℕ) → Single r (threads j))
      → Single r t
      → (j : ℕ) → Single r (update threads i t j)
  update-Single threads i t h k j = elim (ℕ_discrete i j) [
    | yes e ↦
        subst (λ (x : ℕ). Single r (update threads i t x)) e
          (subst (Single r) (sym (update_self threads i t)) k)
    | no n ↦ subst (Single r) (sym (update_ne threads i t j n)) (h j)
  ]

  abbrev pub AllUnsent : List ℕ → (ℕ → PuppetThread I) → Type 0
  AllUnsent [] threads = Unit
  AllUnsent (i ∷ is) threads = (tokens r (threads i) ≡ 0) × AllUnsent is threads
