-- ===== src/PuppetApplication/Fleet/Sending.antt =====
-- Each thread is sent a request once.
use libspinscale.Base.{
  ℕ, ◌≡◌, sym, subst, inl, inr, Option, List, [], ◌∷◌, update, update_ne, arith,
}
use libspinscale.Outcome.{ok, Outcome-cases}
use libspinscale.IoService.{IoService, IsLawful}
use libspinscale.ComponentThread.{Handler, PuppetThread}
use libspinscale.PuppetApplication.{ThreadOp}
use libspinscale.PuppetApplication.Fleet.{request_thread, request_threads}
use libspinscale.PuppetApplication.Fleet.Tokens.{tokens}
use libspinscale.PuppetApplication.Fleet.Counting.{
  NotListed, DistinctThreads, AllUnsent, update-Single,
}
use libspinscale.PuppetApplication.Fleet.Single.{Single, request_thread-Single}

module _ {I : IoService Handler} (law : IsLawful I) (r : ℕ) where
  AllUnsent-update :
      (is : List ℕ) (threads : ℕ → PuppetThread I) (i : ℕ) (t : PuppetThread I)
      → NotListed i is
      → AllUnsent r is threads
      → AllUnsent r is (update threads i t)
  AllUnsent-update [] threads i t n h = tt
  AllUnsent-update (j ∷ js) threads i t n h = (
    (rw (update_ne threads i t j (λ e. n.0 (sym e))) h.0),
    AllUnsent-update js threads i t n.1 h.1,
  )

  pub AllUnsent-every :
      (is : List ℕ) (threads : ℕ → PuppetThread I)
      → ((i : ℕ) → tokens r (threads i) ≡ 0)
      → AllUnsent r is threads
  AllUnsent-every [] threads h = tt
  AllUnsent-every (i ∷ is) threads h = (h i, AllUnsent-every is threads h)

  pub request_threads-Single :
      (o : ThreadOp) (mrntt_id mrntt : ℕ) (self f : Option ℕ) (is : List ℕ)
      (threads threads' : ℕ → PuppetThread I)
      → DistinctThreads is
      → AllUnsent r is threads
      → ((i : ℕ) → Single r (threads i))
      → request_threads o mrntt_id mrntt self f is threads ≡ ok tt threads'
      → (i : ℕ) → Single r (threads' i)
  unfolding request_threads
  request_threads-Single o mrntt_id mrntt self f [] threads threads' d u h e =
      let now : threads' ≡ threads = ground (arith, e) in
      λ i. subst (λ (g : ℕ → PuppetThread I). Single r (g i)) (sym now) (h i)
  request_threads-Single o mrntt_id mrntt self f (i ∷ is) threads threads' d u h e =
      elim (Outcome-cases (request_thread o mrntt_id mrntt self f (threads i))) [
        | inl (_, t, ran) ↦
            request_threads-Single o mrntt_id mrntt self f is (update threads i t) threads' d.1
              (AllUnsent-update is threads i t d.0 u.1)
              (update-Single r threads i t h
                (request_thread-Single law r o mrntt_id mrntt self f (threads i) t u.0 ran))
              (rw (ran, request_threads) at e)
        | inr (x, t, ran) ↦ absurd (ground (arith, ran, e))
      ]
