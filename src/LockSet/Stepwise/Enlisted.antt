-- ===== src/LockSet/Stepwise/Enlisted.antt =====
-- Where a continuation stands in the queues while a method of its lock set is under way.
use libspinscale.Base.{
  Bool, Bool-cases, inl, inr, ◌==◌, ◌++◌, ℕ, ◌+◌, ◌<◌, ◌≤◌, ◌≡◌, ◌≢◌, sym, subst, some, List, [],
  ◌∷◌, update, update_self, update_ne, length,
}
use native.Mathlib.Decide.{ℕ_discrete}
use libspinscale.Qutex.{Entry, Qutex, find_node}
use libspinscale.Qutex.Positions.{Absent}
use libspinscale.World.{LockSet, LockUsageDesc}
use libspinscale.LockSet.{mark_released}
use libspinscale.LockSet.LookingUp.{LooksUp}
use libspinscale.LockSet.Taking.{Unnamed, DistinctLocks}
use libspinscale.LockSet.Stepwise.{
  Phase, finished, registering, unregistering, acquiring, acquired, backing_off, releasing,
  releasing_early, marking, awakening,
}
use libspinscale.LockSet.Stepwise.Queues.{Healthy, QueueMove, QueueMove-find_node, QueueMove-Absent}

-- The stored iterator is that of the continuation's own entry.
pub record IsNamed (c : ℕ) (d : LockUsageDesc) (q : Qutex) : Type 0 where
  pub entry : Entry
  pub found : find_node d.iterator q.queue ≡ some entry
  pub own : entry.lockvoker ≡ c

abbrev pub AllNamed : ℕ → List LockUsageDesc → (ℕ → Qutex) → Type 0
AllNamed c [] f = Unit
AllNamed c (d ∷ ds) f = IsNamed c d (f d.qutex) × AllNamed c ds f

abbrev pub AllAbsent : ℕ → List LockUsageDesc → (ℕ → Qutex) → Type 0
AllAbsent c [] f = Unit
AllAbsent c (d ∷ ds) f = Absent c (f d.qutex).queue × AllAbsent c ds f

-- What a method relies on for the calls that it has still to make: an attempt, that its continuation
-- stands in the queues of its locks under the stored iterators; a registration, that it does not.
abbrev pub Enlisted : ℕ → LockSet → Phase → (ℕ → Qutex) → Type 0
Enlisted c s (finished _) f = Unit
Enlisted c s (registering _ rest) f = DistinctLocks rest × AllAbsent c rest f
Enlisted c s (unregistering rest) f = DistinctLocks rest × AllNamed c rest f
Enlisted c s (acquiring n rest k) f =
    (0 < n)
    × (k + length rest ≡ length s.locks)
    × AllNamed c rest f
    × LooksUp s.locks rest
    × AllNamed c s.locks f
    × DistinctLocks s.locks
Enlisted c s (acquired n k _) f =
    (k ≤ length s.locks) × AllNamed c s.locks f × DistinctLocks s.locks
Enlisted c s (backing_off n i rest _) f =
    (i < n) × (i ≤ length rest) × AllNamed c rest f × LooksUp s.locks rest
Enlisted c s (releasing _) f = Unit
Enlisted c s (releasing_early _) f = Unit
Enlisted c s (marking _) f = Unit
Enlisted c s (awakening _ p) f = Enlisted c s p f

-- The continuation stands in the queues of all its locks, or of those that it has entered so far; it is
-- not about to leave them.
abbrev pub Enrolled : ℕ → LockSet → Phase → (ℕ → Qutex) → Type 0
Enrolled c s (registering registered _) f = AllNamed c registered f
Enrolled c s (unregistering _) f = ⊥
Enrolled c s (awakening _ p) f = Enrolled c s p f
Enrolled c s _ f = AllNamed c s.locks f

module _ (d : ℕ) (f : ℕ → Qutex) (b : ℕ) (q : Qutex) where
  -- A write that keeps the entries of `d`.
  pub AllNamed-update :
      (ds : List LockUsageDesc)
      → ((it : ℕ) (x : Entry)
          → find_node it (f b).queue ≡ some x
          → x.lockvoker ≡ d
          → find_node it q.queue ≡ some x)
      → AllNamed d ds f
      → AllNamed d ds (update f b q)
  AllNamed-update [] keep h = tt
  AllNamed-update (x ∷ ds) keep h = (
    (elim (ℕ_discrete b x.qutex) [
      | yes k ↦
          let before : IsNamed d x (f b) = subst (λ (i : ℕ). IsNamed d x (f i)) (sym k) h.0 in
          let now : IsNamed d x q = record {
            entry = before.entry;
            found = keep x.iterator before.entry before.found before.own;
            own = before.own;
          } in
          subst (λ (i : ℕ). IsNamed d x (update f b q i)) k
            (subst (IsNamed d x) (sym (update_self f b q)) now)
      | no k ↦ subst (IsNamed d x) (sym (update_ne f b q x.qutex k)) h.0
    ]),
    AllNamed-update ds keep h.1,
  )

  pub AllAbsent-update :
      (ds : List LockUsageDesc)
      → (Absent d (f b).queue → Absent d q.queue)
      → AllAbsent d ds f
      → AllAbsent d ds (update f b q)
  AllAbsent-update [] keep h = tt
  AllAbsent-update (x ∷ ds) keep h = (
    (elim (ℕ_discrete b x.qutex) [
      | yes k ↦
          let before = subst (λ (i : ℕ). Absent d (f i).queue) (sym k) h.0 in
          subst (λ (i : ℕ). Absent d (update f b q i).queue) k
            (subst (λ (r : Qutex). Absent d r.queue) (sym (update_self f b q)) (keep before))
      | no k ↦ subst (λ (r : Qutex). Absent d r.queue) (sym (update_ne f b q x.qutex k)) h.0
    ]),
    AllAbsent-update ds keep h.1,
  )

  -- A write at an address that is not named.
  pub AllNamed-Unnamed :
      (ds : List LockUsageDesc) → Unnamed b ds → AllNamed d ds f → AllNamed d ds (update f b q)
  AllNamed-Unnamed [] u h = tt
  AllNamed-Unnamed (x ∷ ds) u h = (
    subst (IsNamed d x) (sym (update_ne f b q x.qutex (λ e. u.0 (sym e)))) h.0,
    AllNamed-Unnamed ds u.1 h.1,
  )

  pub AllAbsent-Unnamed :
      (ds : List LockUsageDesc) → Unnamed b ds → AllAbsent d ds f → AllAbsent d ds (update f b q)
  AllAbsent-Unnamed [] u h = tt
  AllAbsent-Unnamed (x ∷ ds) u h = (
    subst (λ (r : Qutex). Absent d r.queue) (sym (update_ne f b q x.qutex (λ e. u.0 (sym e)))) h.0,
    AllAbsent-Unnamed ds u.1 h.1,
  )

-- A call of another continuation takes nothing that a method relies on.
pub Enlisted-other :
    (c d : ℕ) (s : LockSet) (p : Phase) (f : ℕ → Qutex) (b : ℕ) (q : Qutex)
    → c ≢ d
    → QueueMove c (f b) q
    → Healthy (f b)
    → Enlisted d s p f
    → Enlisted d s p (update f b q)
Enlisted-other c d s (finished _) f b q n m h e = tt
Enlisted-other c d s (registering _ rest) f b q n m h e =
    (e.0, AllAbsent-update d f b q rest (QueueMove-Absent c d n m) e.1)
Enlisted-other c d s (unregistering rest) f b q n m h e =
    (e.0, AllNamed-update d f b q rest (QueueMove-find_node c d n m h) e.1)
Enlisted-other c d s (acquiring k rest i) f b q n m h e =
    let keep = QueueMove-find_node c d n m h in
    (
      e.0,
      e.1,
      AllNamed-update d f b q rest keep e.2,
      e.3,
      AllNamed-update d f b q s.locks keep e.4,
      e.5,
    )
Enlisted-other c d s (acquired k i _) f b q n m h e =
    (e.0, AllNamed-update d f b q s.locks (QueueMove-find_node c d n m h) e.1, e.2)
Enlisted-other c d s (backing_off k i rest _) f b q n m h e =
    (e.0, e.1, AllNamed-update d f b q rest (QueueMove-find_node c d n m h) e.2, e.3)
Enlisted-other c d s (releasing _) f b q n m h e = tt
Enlisted-other c d s (releasing_early _) f b q n m h e = tt
Enlisted-other c d s (marking _) f b q n m h e = tt
Enlisted-other c d s (awakening _ p) f b q n m h e = Enlisted-other c d s p f b q n m h e

-- Nor does such a call take the continuation out of its queues.
pub Enrolled-other :
    (c d : ℕ) (s : LockSet) (p : Phase) (f : ℕ → Qutex) (b : ℕ) (q : Qutex)
    → c ≢ d
    → QueueMove c (f b) q
    → Healthy (f b)
    → Enrolled d s p f
    → Enrolled d s p (update f b q)
Enrolled-other c d s (registering xs _) f b q n m h e =
    AllNamed-update d f b q xs (QueueMove-find_node c d n m h) e
Enrolled-other c d s (unregistering _) f b q n m h e = e
Enrolled-other c d s (awakening _ p) f b q n m h e = Enrolled-other c d s p f b q n m h e
Enrolled-other c d s _ f b q n m h e =
    AllNamed-update d f b q s.locks (QueueMove-find_node c d n m h) e

pub AllNamed-snoc :
    (c : ℕ) (xs : List LockUsageDesc) (d : LockUsageDesc) (f : ℕ → Qutex)
    → AllNamed c xs f
    → IsNamed c d (f d.qutex)
    → AllNamed c (xs ++ d ∷ []) f
AllNamed-snoc c [] d f h k = (k, tt)
AllNamed-snoc c (x ∷ xs) d f h k = (h.0, AllNamed-snoc c xs d f h.1 k)

pub AllNamed-mark_released :
    (debug_locks : Bool) (c a : ℕ) (ds : List LockUsageDesc) (f : ℕ → Qutex)
    → AllNamed c ds f
    → AllNamed c (mark_released debug_locks c a ds) f
unfolding mark_released
AllNamed-mark_released debug_locks c a [] f h = tt
AllNamed-mark_released debug_locks c a (d ∷ ds) f h = elim (Bool-cases (d.qutex == a)) [
  | inl here ↦ rw here (record { entry = h.0.entry; found = h.0.found; own = h.0.own }, h.1)
  | inr other ↦ rw other (h.0, AllNamed-mark_released debug_locks c a ds f h.1)
]
