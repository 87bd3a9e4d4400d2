-- ===== src/SpinLock/Threads.antt =====
-- Threads that share a spin lock, in every interleaving of their attempts.
use libspinscale.Base.{
  ℕ, ◌≤◌, ◌≡◌, refl, Bool, true, false, List, [], ◌∷◌, ◌++◌, arith, length, length-append, ap, ◌∙◌,
  ◌+◌, suc, ◌↔◌, Bool-cases, inl, inr,
}
use libspinscale.Outcome.{ok}
use libspinscale.SpinLock.{SpinLock, unlocked, try_acquire, release}

-- The lock, and the threads between an `acquire` that has returned and their `release`.
pub record Threads : Type 0 where
  pub lock : SpinLock
  pub inside : List ℕ

abbrev pub at_start : Threads
at_start = record { lock = unlocked; inside = [] }

-- One attempt by some thread, or the release by one that is inside. `acquire` repeats the attempt
-- until it succeeds.
pub data Step : Threads → Threads → Type 0 where
  enter :
      {s : Threads} (t : ℕ) (l : SpinLock)
      → try_acquire s.lock ≡ ok true l
      → Step s (record { lock = l; inside = t ∷ s.inside })
  spin :
      {s : Threads} (l : SpinLock)
      → try_acquire s.lock ≡ ok false l
      → Step s (record { lock = l; inside = s.inside })
  leave :
      {s : Threads} (before after : List ℕ) (t : ℕ) (l : SpinLock)
      → s.inside ≡ before ++ t ∷ after
      → release s.lock ≡ ok tt l
      → Step s (record { lock = l; inside = before ++ after })

pub data Reachable : Threads → Type 0 where
  started : Reachable at_start
  stepped : {s s' : Threads} → Reachable s → Step s s' → Reachable s'

-- A free lock has nobody inside, a locked one exactly one thread.
abbrev Excludes : Threads → Type 0
Excludes s = length s.inside ≡ (elim s.lock.locked [ true ↦ 1 | false ↦ 0 ])

step-Excludes : {s s' : Threads} → Step s s' → Excludes s → Excludes s'
unfolding try_acquire release
step-Excludes {s} (enter t l e) h = elim (Bool-cases s.lock.locked) [
  | inl locked ↦ ground (arith, locked, e)
  | inr free ↦ let now : l.locked ≡ true = ground (arith, free, e) in ground (arith, free, now, h)
]
step-Excludes {s} (spin l e) h = elim (Bool-cases s.lock.locked) [
  | inl locked ↦ let now : l ≡ s.lock = ground (arith, locked, e) in ground (arith, now, h)
  | inr free ↦ ground (arith, free, e)
]
step-Excludes {s} (leave before after t l i e) h =
    let n = length-append before (t ∷ after) in
    let m = length-append before after in
    let all : length s.inside ≡ length before + suc (length after) = ap length i ∙ n in
    let now : l.locked ≡ false = ground (arith, e) in
    elim (Bool-cases s.lock.locked) [
      | inl locked ↦ ground (arith, locked, now, all, m, h)
      | inr free ↦ ground (arith, free, all, h)
    ]

Reachable-Excludes : {s : Threads} → Reachable s → Excludes s
Reachable-Excludes started = refl
Reachable-Excludes (stepped r step) = step-Excludes step (Reachable-Excludes r)

-- In every state that any interleaving of attempts and releases reaches, at most one thread is
-- inside, and the next attempt of any thread succeeds exactly if none is.
pub at_most_one_inside :
    {s : Threads}
    → Reachable s
    → (length s.inside ≤ 1)
      × ((b : Bool) × (l : SpinLock) × (try_acquire s.lock ≡ ok b l) × (b ≡ true ↔ s.inside ≡ []))
unfolding try_acquire
at_most_one_inside {s} r =
    let h = Reachable-Excludes r in
    elim (Bool-cases s.lock.locked) [
      | inl locked ↦ (
        ground (arith, locked, h),
        (false, s.lock, ground (arith, locked), ((λ e. cc), λ e. ground (arith, locked, h, e))),
      )
      | inr free ↦ (
        ground (arith, free, h),
        (
          true,
          record s.lock { locked = true },
          ground (arith, free),
          ((λ _. empty_inside s.inside (ground (arith, free, h))), λ _. refl),
        ),
      )
    ]
  where
    empty_inside : (ts : List ℕ) → length ts ≡ 0 → ts ≡ []
    empty_inside [] e = refl
    empty_inside (t ∷ ts) e = absurd (omega arith)
