-- ===== src/LockSet/Stepwise/Locks.antt =====
-- Lists of locks, as the phases of a method cut them.
use mathlib.Core.Bool.{false≢true}
use libspinscale.Base.{
  ℕ, zero, suc, ◌≤◌, ◌≡◌, ◌≢◌, sym, ◌∙◌, ap, inl, inr, ◌⊎◌, true, List, [], ◌∷◌, ◌++◌, take, drop,
  length, arith, Bool-cases, ◌==◌,
}
use libspinscale.World.{LockUsageDesc}
use libspinscale.LockSet.Taking.{names, Unnamed}
use libspinscale.LockSet.BackingOff.{names-Unnamed}
use libspinscale.LockSet.Releasing.{pending}

pub names-registered :
    (xs ds : List LockUsageDesc) (d : LockUsageDesc) (it a : ℕ)
    → names (pending ((xs ++ record d { iterator = it } ∷ []) ++ ds)) a
      ≡ names (pending (xs ++ d ∷ ds)) a
names-registered [] ds d it a = ground arith
names-registered (x ∷ xs) ds d it a = ground (arith, names-registered xs ds d it a)

pub names-suc :
    (k : ℕ) (locks rest : List LockUsageDesc) (d : LockUsageDesc) (a : ℕ)
    → drop k locks ≡ d ∷ rest
    → names (take (suc k) locks) a ≡ true
    → (d.qutex ≡ a) ⊎ (names (take k locks) a ≡ true)
names-suc k [] rest d a e h = absurd (ground (arith, h))
names-suc zero (x ∷ locks) rest d a e h = inl (ground (arith, e, h))
names-suc (suc k) (x ∷ locks) rest d a e h = elim (Bool-cases (x.qutex == a)) [
  | inl here ↦ inr (ground (arith, here))
  | inr other ↦ elim (names-suc k locks rest d a e (ground (arith, h, other))) [
    | inl this ↦ inl this
    | inr before ↦ inr (ground (arith, other, before))
  ]
]

pub drop-suc :
    (k : ℕ) (locks rest : List LockUsageDesc) (d : LockUsageDesc)
    → drop k locks ≡ d ∷ rest
    → drop (suc k) locks ≡ rest
drop-suc zero [] rest d e = absurd (cc)
drop-suc (suc k) [] rest d e = absurd (cc)
drop-suc zero (x ∷ locks) rest d e = ground (arith, e)
drop-suc (suc k) (x ∷ locks) rest d e = drop-suc k locks rest d e

pub names-all :
    (k : ℕ) (locks : List LockUsageDesc) (a : ℕ)
    → length locks ≤ k
    → names locks a ≡ true
    → names (take k locks) a ≡ true
names-all zero [] a le h = h
names-all zero (x ∷ locks) a le h = absurd (omega arith)
names-all (suc k) [] a le h = h
names-all (suc k) (x ∷ locks) a le h = ground (arith, names-all k locks a)

-- What is left after the first of distinct locks is not the first.
pub names-apart : (a b : ℕ) (ds : List LockUsageDesc) → Unnamed b ds → names ds a ≡ true → b ≢ a
names-apart a b ds u h e = false≢true (sym (names-Unnamed b ds u) ∙ ap (names ds) e ∙ h)
