-- ===== src/LockSet/LookingUp.antt =====
-- `LockSet::getLockUsageDesc` on a lock set that names no qutex twice.
use libspinscale.Base.{◌≡◌, some, List, [], ◌∷◌, arith}
use libspinscale.World.{LockUsageDesc, get_lock_usage_desc}
use libspinscale.LockSet.Taking.{Unnamed, DistinctLocks}

-- Every entry of `ds` is what `getLockUsageDesc` finds in `all`.
abbrev pub LooksUp : List LockUsageDesc → List LockUsageDesc → Type 0
LooksUp all [] = Unit
LooksUp all (d ∷ ds) = (get_lock_usage_desc all d.qutex ≡ some d) × LooksUp all ds

LooksUp-cons :
    (all ds : List LockUsageDesc) (x : LockUsageDesc)
    → Unnamed x.qutex ds
    → LooksUp all ds
    → LooksUp (x ∷ all) ds
unfolding get_lock_usage_desc
LooksUp-cons all [] x u h = tt
LooksUp-cons all (d ∷ ds) x u h = (ground (arith, h.0), LooksUp-cons all ds x u.1 h.1)

pub LooksUp-self : (ds : List LockUsageDesc) → DistinctLocks ds → LooksUp ds ds
unfolding get_lock_usage_desc
LooksUp-self [] h = tt
LooksUp-self (d ∷ ds) h = (ground arith, LooksUp-cons ds ds d h.0 (LooksUp-self ds h.1))
