-- ===== src/Qutex/Backoff.antt =====
-- What `Qutex::backoff` does: it gives the qutex back, moves its caller from the front, and awakens
-- another waiter.
use mathlib.Core.List.{Perm}
use mathlib.Core.List.Perm
use libspinscale.Base.{
  ℕ, zero, suc, ◌-◌, ◌≤◌, ◌≡◌, refl, min, Bool, true, false, Option, none, some, List, [], ◌∷◌,
  arith, ◌==◌, if◌then◌else◌, length, Bool-cases, inl, inr, subst, ◌≢◌, ==_iff, ==_false,
}
use libspinscale.Outcome.{ok}
use libspinscale.Qutex.{Entry, Lockvoker, Qutex, IsUnlocked, give_back, backoff_from, backoff}
use libspinscale.Qutex.Positions.{position, InQueue, Absent, Distinct}
use libspinscale.Qutex.Rotation.{
  behind, rotate-behind, behind-perm, length-behind, Distinct-behind, position-behind,
}

-- Whom a qutex awakens that is given back: its front, unless that is the only waiter.
abbrev pub next_waiter : List Entry → Option ℕ
next_waiter [] = none
next_waiter (e ∷ []) = none
next_waiter (e ∷ f ∷ es) = some e.lockvoker

-- The queue after a caller with `n` required locks has backed off.
abbrev pub requeued : ℕ → ℕ → List Entry → List Entry
requeued n lv [] = []
requeued n lv (e ∷ es) = if e.lockvoker == lv then behind (n - 1) e es else e ∷ es

abbrev pub given_back : Bool → List Entry → Qutex → Qutex
given_back debug_locks queue q = record q {
  queue = queue;
  is_owned = false;
  curr_owner = if debug_locks then none else q.curr_owner;
}

abbrev with_lock_and_queue : Bool → List Entry → Qutex → Qutex
with_lock_and_queue b queue q = record q { lock = record { locked = b }; queue = queue }

-- A caller that is not in front of the queue, or alone in it, gives back without an exception.
abbrev Leaves : ℕ → List Entry → Type 0
Leaves lv [] = ⊥
Leaves lv (e ∷ []) = Unit
Leaves lv (e ∷ f ∷ es) = e.lockvoker ≢ lv

give_back-held :
    (debug_locks : Bool) (lv : Lockvoker) (q : Qutex) (queue : List Entry)
    → IsUnlocked q
    → Leaves lv.vaddr queue
    → give_back debug_locks lv (length queue) (with_lock_and_queue true queue q)
      ≡ ok (next_waiter queue) (given_back debug_locks queue q)
unfolding give_back
give_back-held debug_locks lv q [] u l = absurd l
give_back-held debug_locks lv q (e ∷ []) u l = ground arith
give_back-held debug_locks lv q (e ∷ f ∷ es) u l = ground arith

Leaves-behind :
    (n lv : ℕ) (e : Entry) (es : List Entry)
    → e.lockvoker ≡ lv
    → Absent lv es
    → Leaves lv (behind (suc n) e es)
Leaves-behind n lv e [] h a = tt
Leaves-behind zero lv e (x ∷ es) h a = a.0
Leaves-behind (suc n) lv e (x ∷ []) h a = a.0
Leaves-behind (suc n) lv e (x ∷ y ∷ es) h a = a.0

backoff_from-held :
    (debug_locks : Bool) (lv : Lockvoker) (q : Qutex) (n : ℕ) (queue : List Entry)
    → IsUnlocked q
    → Distinct queue
    → InQueue lv.vaddr queue
    → backoff_from debug_locks lv (suc (suc n)) queue (with_lock_and_queue true queue q)
      ≡ ok
          (next_waiter (requeued (suc (suc n)) lv.vaddr queue))
          (given_back debug_locks (requeued (suc (suc n)) lv.vaddr queue) q)
unfolding backoff_from
backoff_from-held debug_locks lv q n [] u d p = absurd (omega arith)
backoff_from-held debug_locks lv q n (e ∷ []) u d p =
    ground (arith, give_back-held debug_locks lv q (e ∷ []) u tt)
backoff_from-held debug_locks lv q n (e ∷ f ∷ es) u d p =
    elim (Bool-cases (e.lockvoker == lv.vaddr)) [
      | inl front ↦
          let pred : suc (suc n) - 1 ≡ suc n = omega arith in
          let same = (==_iff _ _).0 front in
          let moved = behind (suc n) e (f ∷ es) in
          let kept = give_back-held debug_locks lv q moved u (
            Leaves-behind n lv.vaddr e (f ∷ es) same
              (subst (λ (x : ℕ). Absent x (f ∷ es)) same d.0)) in
          rw (front, pred, rotate-behind (suc n) e (f ∷ es), ← length-behind (suc n) e (f ∷ es))
            (ground (arith, kept, length-behind (suc n) e (f ∷ es)))
      | inr other ↦
          rw other (give_back-held debug_locks lv q (e ∷ f ∷ es) u (λ same. ==_false other same))
    ]

module _ (debug_locks : Bool) (lv : Lockvoker) (n : ℕ) (q : Qutex) where
  -- A caller with two or more required locks, queued once, backs off without an exception: the qutex
  -- is unowned, the caller is moved only if it was in front, and the next waiter is awakened.
  pub backoff-requeued :
      IsUnlocked q
      → 2 ≤ n
      → Distinct q.queue
      → InQueue lv.vaddr q.queue
      → backoff debug_locks lv n q
        ≡ ok
            (next_waiter (requeued n lv.vaddr q.queue))
            (given_back debug_locks (requeued n lv.vaddr q.queue) q)
  unfolding backoff
  backoff-requeued u h d p =
      let e : suc (suc (n - 2)) ≡ n = omega arith in
      let held = backoff_from-held debug_locks lv q (n - 2) q.queue u d p in ground (arith, held, e)

pub requeued-perm : (n lv : ℕ) (queue : List Entry) → Perm (requeued n lv queue) queue
requeued-perm n lv [] = Perm.refl []
requeued-perm n lv (e ∷ es) = elim (Bool-cases (e.lockvoker == lv)) [
  | inl front ↦ rw front (behind-perm (n - 1) e es)
  | inr other ↦ rw other (Perm.refl (e ∷ es))
]

pub requeued-Distinct :
    (n lv : ℕ) (queue : List Entry) → Distinct queue → Distinct (requeued n lv queue)
requeued-Distinct n lv [] d = tt
requeued-Distinct n lv (e ∷ es) d = elim (Bool-cases (e.lockvoker == lv)) [
  | inl front ↦ rw front (Distinct-behind (n - 1) e es d)
  | inr other ↦ rw other d
]

position-requeued :
    (n lv : ℕ) (queue : List Entry)
    → Distinct queue
    → position lv (requeued n lv queue)
      ≡ (if position lv queue == 0 then min (n - 1) (length queue - 1) else position lv queue)
position-requeued n lv [] d = ground arith
position-requeued n lv (e ∷ es) d = elim (Bool-cases (e.lockvoker == lv)) [
  | inl front ↦
      let same = (==_iff _ _).0 front in
      let absent = subst (λ (x : ℕ). Absent x es) same d.0 in
      rw front (ground (arith, position-behind (n - 1) lv e es same absent))
  | inr other ↦ rw other (ground arith)
]

-- The awakened waiter is the new front, and not the caller.
pub record AwakensOther (w : Option ℕ) (lv : ℕ) (queue : List Entry) : Type 0 where
  pub other : w ≢ some lv
  pub some_waiter : 2 ≤ length queue → (v : ℕ) × (w ≡ some v) × (position v queue ≡ 0)

next_waiter-AwakensOther :
    (lv : ℕ) (queue : List Entry) → Leaves lv queue → AwakensOther (next_waiter queue) lv queue
next_waiter-AwakensOther lv [] l = absurd l
next_waiter-AwakensOther lv (e ∷ []) l = record {
  other = λ h. cc;
  some_waiter = λ h. absurd (omega arith);
}
next_waiter-AwakensOther lv (e ∷ f ∷ es) l = record {
  other = λ h. ground arith;
  some_waiter = λ h. (e.lockvoker, refl, ground arith);
}

Leaves-ne : (lv : ℕ) (e : Entry) (es : List Entry) → e.lockvoker ≢ lv → Leaves lv (e ∷ es)
Leaves-ne lv e [] h = tt
Leaves-ne lv e (f ∷ es) h = h

Leaves-requeued :
    (n lv : ℕ) (queue : List Entry)
    → Distinct queue
    → InQueue lv queue
    → Leaves lv (requeued (suc (suc n)) lv queue)
Leaves-requeued n lv [] d p = absurd (omega arith)
Leaves-requeued n lv (e ∷ es) d p = elim (Bool-cases (e.lockvoker == lv)) [
  | inl front ↦
      let pred : suc (suc n) - 1 ≡ suc n = omega arith in
      let same = (==_iff _ _).0 front in
      rw (front, pred) (Leaves-behind n lv e es same (subst (λ (x : ℕ). Absent x es) same d.0))
  | inr other ↦ rw other (Leaves-ne lv e es (==_false other))
]

-- Let the spin lock be free, two or more locks be required, and the queue hold the caller, with no
-- lockvoker twice. Then a backoff returns, and afterwards the same waiters are queued, each once;
-- the caller, if it was in front, stands behind `n - 1` others or last, and any other caller
-- stands where it stood; the qutex is unowned and its spin lock free; whoever is awakened is not
-- the caller, and with two waiters somebody is, the new front.
pub backoff_yields :
    (debug_locks : Bool) (lv : Lockvoker) (n : ℕ) (q : Qutex)
    → IsUnlocked q
    → 2 ≤ n
    → Distinct q.queue
    → InQueue lv.vaddr q.queue
    → (w : Option ℕ) × (q' : Qutex) × (backoff debug_locks lv n q ≡ ok w q')
      × Perm q'.queue q.queue
      × Distinct q'.queue
      × (position lv.vaddr q'.queue ≡ (
          if position lv.vaddr q.queue == 0
          then min (n - 1) (length q.queue - 1)
          else position lv.vaddr q.queue))
      × (q'.is_owned ≡ false)
      × IsUnlocked q'
      × AwakensOther w lv.vaddr q'.queue
backoff_yields debug_locks lv n q u h d p =
    let e : suc (suc (n - 2)) ≡ n = omega arith in
    (
      _,
      _,
      backoff-requeued debug_locks lv n q u h d p,
      requeued-perm n lv.vaddr q.queue,
      requeued-Distinct n lv.vaddr q.queue d,
      position-requeued n lv.vaddr q.queue d,
      refl,
      u,
      next_waiter-AwakensOther lv.vaddr _ (rw e at (Leaves-requeued (n - 2) lv.vaddr q.queue d p)),
    )
