-- ===== src/IoService/OneQueue.antt =====
-- A service that behaves as the interface asks: a queue and a flag. Theorems about services are
-- applied to it.
use libspinscale.Base.{◌≡◌, refl, Bool, true, false, List, [], ◌∷◌, ◌++◌}
use libspinscale.IoService.{RunOne, runs, returns, blocks, IoService, IsLawful}

pub record OneQueue (H : Type 0) : Type 0 where
  pub queue : List H
  pub is_stopped : Bool

abbrev pub next : {H : Type 0} → OneQueue H → RunOne H (OneQueue H)
next s = elim s.is_stopped [
  | true ↦ returns
  | false ↦ elim s.queue [ [] ↦ blocks | h ∷ hs ↦ runs h (record s { queue = hs }) ]
]

module _ (H : Type 0) where
  abbrev pub one_queue : IoService H
  one_queue = record {
    State = OneQueue H;
    pending = λ s. s.queue;
    stopped = λ s. s.is_stopped;
    post = λ h s. record s { queue = s.queue ++ h ∷ [] };
    stop = λ s. record s { is_stopped = true };
    reset = λ s. record s { is_stopped = false };
    run_one = next;
  }

  next-stopped : (s : OneQueue H) → s.is_stopped ≡ true → next s ≡ returns
  next-stopped s e = rw e

  next-empty : (s : OneQueue H) → s.is_stopped ≡ false → s.queue ≡ [] → next s ≡ blocks
  next-empty s e q = rw (e, q)

  next-pending :
      (s : OneQueue H) (h : H) (hs : List H)
      → s.is_stopped ≡ false
      → s.queue ≡ h ∷ hs
      → (s' : OneQueue H) × (next s ≡ runs h s') × (s'.queue ≡ hs) × (s'.is_stopped ≡ false)
  next-pending s h hs e q = (record s { queue = hs }, rw (e, q), refl, e)

  pub one_queue-IsLawful : IsLawful one_queue
  one_queue-IsLawful = record {
    pending-post = λ h s. refl;
    stopped-post = λ h s. refl;
    pending-stop = λ s. refl;
    stopped-stop = λ s. refl;
    pending-reset = λ s. refl;
    stopped-reset = λ s. refl;
    run_one-stopped = next-stopped;
    run_one-empty = next-empty;
    run_one-pending = next-pending;
  }
