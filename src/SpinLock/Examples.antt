-- ===== src/SpinLock/Examples.antt =====
-- The spin lock's theorems at two threads.
use libspinscale.Base.{◌≤◌, ◌≡◌, ◌↔◌, refl, Bool, true, false, [], ◌∷◌, length}
use libspinscale.Outcome.{ok}
use libspinscale.SpinLock.{
  SpinLock, unlocked, Guard, construct_guard, unlock_prematurely, destroy_guard, try_acquire,
}
use libspinscale.SpinLock.Threads.{
  Threads, Reachable, started, stepped, enter, spin, at_most_one_inside,
}

-- Thread 1 is inside, and thread 2 has tried to follow it.
abbrev one_inside : Threads
one_inside = record { lock = record { locked = true }; inside = 1 ∷ [] }

one_inside-Reachable : Reachable one_inside
unfolding try_acquire
one_inside-Reachable =
    stepped (stepped started (enter 1 (record { locked = true }) refl))
      (spin (record { locked = true }) refl)

at_most_one_inside_example :
    (length one_inside.inside ≤ 1)
    × ((b : Bool) × (l : SpinLock) × (try_acquire one_inside.lock ≡ ok b l)
        × (b ≡ true ↔ one_inside.inside ≡ []))
at_most_one_inside_example = at_most_one_inside one_inside-Reachable

-- A guard made on a free lock takes it, and its destruction frees it. After a premature unlock the
-- lock is free, and neither a further unlock nor the destruction touches the lock, whatever became
-- of it.
guard_scoped :
    (g : Guard) × (construct_guard unlocked ≡ ok g (record { locked = true }))
    × (destroy_guard g (record { locked = true }) ≡ ok tt unlocked)
    × ((g' : Guard) × (unlock_prematurely g (record { locked = true }) ≡ ok g' unlocked)
        × ((l : SpinLock) → unlock_prematurely g' l ≡ ok g' l)
        × ((l : SpinLock) → destroy_guard g' l ≡ ok tt l))
unfolding construct_guard unlock_prematurely destroy_guard
guard_scoped = (
  record { unlocked = false },
  refl,
  refl,
  (record { unlocked = true }, refl, (λ l. refl), λ l. refl),
)
