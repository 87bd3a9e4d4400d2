-- ===== src/SpinLock.antt =====
-- include/spinscale/spinLock.h: the spin lock on one atomic flag, and its guard.
pub mod Threads
mod Examples
use libspinscale.Base.{Bool, true, false, not, if◌then◌else◌}
use libspinscale.Outcome.{M, ok, stop, hangs, ◌>>=◌, ◌>>◌, return}

pub record SpinLock : Type 0 where
  pub locked : Bool

abbrev pub unlocked : SpinLock
unlocked = record { locked = false }

-- `compare_exchange_strong(expected = false, true)`
unfoldable pub try_acquire : M SpinLock Bool
try_acquire s = elim s.locked [ true ↦ ok false s | false ↦ ok true (record s { locked = true }) ]

-- With no other thread at work a failed attempt fails again for ever.
unfoldable pub acquire : M SpinLock (Unit {0})
unfolding try_acquire
acquire = do won ← try_acquire; elim won [ true ↦ return tt | false ↦ λ s. stop hangs s ]

unfoldable pub release : M SpinLock (Unit {0})
release s = ok tt (record s { locked = false })

-- `SpinLock::Guard`, but for the reference to its lock.
pub record Guard : Type 0 where
  pub unlocked : Bool

unfoldable pub construct_guard : M SpinLock Guard
unfolding acquire
construct_guard = do acquire; return (record { unlocked = false })

unfoldable pub unlock_prematurely : Guard → M SpinLock Guard
unfolding release
unlock_prematurely g =
    if not g.unlocked then (do release; return (record g { unlocked = true })) else return g

unfoldable pub destroy_guard : Guard → M SpinLock (Unit {0})
unfolding release
destroy_guard g = if not g.unlocked then release else return tt
