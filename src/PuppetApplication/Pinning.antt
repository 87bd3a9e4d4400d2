-- ===== src/PuppetApplication/Pinning.antt =====
-- src/puppetApplication.cpp, distributeAndPinThreadsAcrossCpus, with src/componentThread.cpp,
-- getAvailableCpuCount and pinToCpu.

use libspinscale.Base.{
  ℕ, zero, suc, ◌+◌, ◌%◌, ◌<◌, ◌≤◌, ◌≡◌, ◌≢◌, refl, ◌∙◌, ap, subst, ◌⊎◌, inl, inr, Bool-cases, List,
  [], ◌∷◌, length, get_elem?, some, update, update_self, update_ne, update_same, ℤ, pos, negsuc,
  ◌==◌, ==_iff, ==_false, arith,
}
use libspinscale.Outcome.{M, Outcome, ok, stop, throw, ◌>>=◌, pin_failed, cpu_count_failed}
use libspinscale.IoService.{IoService}
use libspinscale.ComponentThread.{Handler, PuppetThread, get_available_cpu_count, pin_to_cpu}
use libspinscale.PuppetApplication.Fleet.Counting.{NotListed, DistinctThreads}

-- `result` is what `pthread_setaffinity_np` returns for a thread and a CPU, and `online` what `sysconf`
-- returns. The threads are known by their numbers.
module _ {I : IoService Handler} (result : ℕ → ℕ → ℕ) where
  -- The loop, from the thread index on.
  unfoldable pub pin_threads : ℕ → ℕ → List ℕ → M (ℕ → PuppetThread I) (Unit {0})
  pin_threads cpu_count thread_index [] threads = ok tt threads
  pin_threads cpu_count thread_index (i ∷ is) threads =
      elim (pin_to_cpu (result i) (pos (thread_index % cpu_count)) (threads i)) [
        | ok _ t ↦ pin_threads cpu_count (suc thread_index) is (update threads i t)
        | stop e t ↦ stop e (update threads i t)
      ]

  unfoldable pub distribute_and_pin_threads_across_cpus :
      ℤ → List ℕ → M (ℕ → PuppetThread I) (Unit {0})
  unfolding pin_threads
  distribute_and_pin_threads_across_cpus online component_threads = do
    cpu_count ← get_available_cpu_count online
    pin_threads cpu_count 0 component_threads

abbrev pub on_cpu : {I : IoService Handler} → ℕ → PuppetThread I → PuppetThread I
on_cpu cpu t = record t { pinned_cpu_id = pos cpu }

-- The first `m` threads of the list are pinned, each to its index modulo `n`, and nothing else changed;
-- the indices count from `k`.
pub record Pins {I : IoService Handler} (result : ℕ → ℕ → ℕ) (n k m : ℕ) (is : List ℕ)
    (threads threads' : ℕ → PuppetThread I) : Type 0 where
  pub granted : (j i : ℕ) → j < m → get_elem? is j ≡ some i → result i ((k + j) % n) ≡ 0
  pub pinned :
      (j i : ℕ) → j < m → get_elem? is j ≡ some i → threads' i ≡ on_cpu ((k + j) % n) (threads i)
  pub kept : (j i : ℕ) → m ≤ j → get_elem? is j ≡ some i → threads' i ≡ threads i
  pub others : (a : ℕ) → NotListed a is → threads' a ≡ threads a

-- All the threads of the list are pinned, or the system refuses one and those before it are pinned.
abbrev pub Distributed :
    {I : IoService Handler}
    → (ℕ → ℕ → ℕ)
    → ℕ
    → ℕ
    → List ℕ
    → (ℕ → PuppetThread I)
    → Outcome (ℕ → PuppetThread I) (Unit {0})
    → Type 0
Distributed {I} result n k is threads r =
    (m : ℕ) × (threads' : ℕ → PuppetThread I) × Pins result n k m is threads threads'
    × (((m ≡ length is) × (r ≡ ok tt threads'))
        ⊎ ((i : ℕ) × (get_elem? is m ≡ some i)
            × (result i ((k + m) % n) ≢ 0)
            × (r ≡ throw pin_failed threads')))

-- Without CPUs, or if their number is not known, the distribution throws at once.
abbrev pub CpuOutcome :
    {I : IoService Handler}
    → (ℕ → ℕ → ℕ)
    → ℤ
    → List ℕ
    → (ℕ → PuppetThread I)
    → Outcome (ℕ → PuppetThread I) (Unit {0})
    → Type 0
CpuOutcome result (negsuc _) is threads r = r ≡ throw cpu_count_failed threads
CpuOutcome result (pos zero) is threads r = r ≡ throw cpu_count_failed threads
CpuOutcome result (pos (suc n)) is threads r = Distributed result (suc n) 0 is threads r

listed-ne : (i a : ℕ) (j : ℕ) (is : List ℕ) → NotListed i is → get_elem? is j ≡ some a → i ≢ a
listed-ne i a j [] u e = cc
listed-ne i a zero (x ∷ is) u e = λ k. u.0 (ground (arith, e, k))
listed-ne i a (suc j) (x ∷ is) u e = listed-ne i a j is u.1 e

module _ {I : IoService Handler} (result : ℕ → ℕ → ℕ) (n k i : ℕ)
    (threads : ℕ → PuppetThread I) where
  -- The threads after the first of a list, which is to be pinned.
  abbrev after_first : ℕ → PuppetThread I
  after_first = update threads i (on_cpu (k % n) (threads i))

  module _ (m : ℕ) (is : List ℕ) (threads' : ℕ → PuppetThread I) (u : NotListed i is)
      (h : Pins result n (suc k) m is after_first threads') where
    granted-cons :
        result i (k % n) ≡ 0
        → (j a : ℕ) → j < suc m
        → get_elem? (i ∷ is) j ≡ some a
        → result a ((k + j) % n) ≡ 0
    granted-cons e zero a l g =
        let start : k + 0 ≡ k = omega arith in
        let same : i ≡ a = ground (arith, g) in
        rw start (subst (λ (b : ℕ). result b (k % n) ≡ 0) same e)
    granted-cons e (suc j) a l g =
        let next : k + suc j ≡ suc k + j = omega arith in rw next (h.granted j a (omega arith) g)

    pinned-cons :
        (j a : ℕ)
        → j < suc m
        → get_elem? (i ∷ is) j ≡ some a
        → threads' a ≡ on_cpu ((k + j) % n) (threads a)
    pinned-cons zero a l g =
        let start : k + 0 ≡ k = omega arith in
        let same : i ≡ a = ground (arith, g) in
        rw start (
          subst (λ (b : ℕ). threads' b ≡ on_cpu (k % n) (threads b)) same
            (h.others i u ∙ update_self threads i (on_cpu (k % n) (threads i))))
    pinned-cons (suc j) a l g =
        let next : k + suc j ≡ suc k + j = omega arith in
        rw next (
          h.pinned j a (omega arith) g
          ∙ ap (on_cpu ((suc k + j) % n))
              (update_ne threads i (on_cpu (k % n) (threads i)) a (listed-ne i a j is u g)))

    kept-cons : (j a : ℕ) → suc m ≤ j → get_elem? (i ∷ is) j ≡ some a → threads' a ≡ threads a
    kept-cons zero a l g = absurd (omega arith)
    kept-cons (suc j) a l g =
        h.kept j a (omega arith) g
        ∙ update_ne threads i (on_cpu (k % n) (threads i)) a (listed-ne i a j is u g)

    Pins-cons : result i (k % n) ≡ 0 → Pins result n k (suc m) (i ∷ is) threads threads'
    Pins-cons e = record {
      granted = granted-cons e;
      pinned = pinned-cons;
      kept = kept-cons;
      others =
          λ a d. h.others a d.1 ∙ update_ne threads i (on_cpu (k % n) (threads i)) a (λ s. d.0 s);
    }

module _ {I : IoService Handler} (result : ℕ → ℕ → ℕ) where
  none-Pins :
      (n k : ℕ) (is : List ℕ) (threads : ℕ → PuppetThread I) → Pins result n k 0 is threads threads
  none-Pins n k is threads = record {
    granted = λ j i l. absurd (omega arith);
    pinned = λ j i l. absurd (omega arith);
    kept = λ j i l g. refl;
    others = λ a d. refl;
  }

  pin_threads-Distributed :
      (n k : ℕ) (is : List ℕ) (threads : ℕ → PuppetThread I)
      → DistinctThreads is
      → Distributed result n k is threads (pin_threads result n k is threads)
  unfolding pin_threads pin_to_cpu
  pin_threads-Distributed n k [] threads d =
      (0, threads, none-Pins n k [] threads, inl (refl, refl))
  pin_threads-Distributed n k (i ∷ is) threads d = elim (Bool-cases (result i (k % n) == 0)) [
    | inl yes_ ↦
        let e : result i (k % n) ≡ 0 = (==_iff _ _).0 yes_ in
        let rest = pin_threads-Distributed n (suc k) is (after_first result n k i threads) d.1 in
        (
          suc rest.0,
          rest.1,
          Pins-cons result n k i threads rest.0 is rest.1 d.0 rest.2 e,
          elim rest.3 [
            | inl (all, ran) ↦ inl (ap suc all, ground (arith, yes_, ran))
            | inr (a, at, refused, ran) ↦
                let next : k + suc rest.0 ≡ suc k + rest.0 = omega arith in
                inr (a, at, rw next refused, ground (arith, yes_, ran))
          ],
        )
    | inr no_ ↦
        let start : k + 0 ≡ k = omega arith in
        (
          0,
          threads,
          none-Pins n k (i ∷ is) threads,
          inr (i, refl, rw start (==_false no_), ground (arith, no_, update_same threads i)),
        )
  ]

  -- Let no thread be listed twice. If the system reports no CPU or an error, the distribution
  -- throws and pins nothing. Otherwise there is a number of threads, from the front of the list,
  -- that the system lets pin and that are pinned, each to its index modulo the number of CPUs,
  -- while all others are as they were. Either these are all the threads of the list and the
  -- distribution returns, or the system refuses the next one and it throws.
  pub distribute-Distributed :
      (online : ℤ) (is : List ℕ) (threads : ℕ → PuppetThread I)
      → DistinctThreads is
      → CpuOutcome result online is threads
          (distribute_and_pin_threads_across_cpus result online is threads)
  unfolding distribute_and_pin_threads_across_cpus get_available_cpu_count
  distribute-Distributed (negsuc n) is threads d = refl
  distribute-Distributed (pos zero) is threads d = refl
  distribute-Distributed (pos (suc n)) is threads d = pin_threads-Distributed (suc n) 0 is threads d
