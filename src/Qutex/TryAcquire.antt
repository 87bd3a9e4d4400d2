-- ===== src/Qutex/TryAcquire.antt =====
-- What `Qutex::tryAcquire` decides: which waiters may own an unowned qutex.
use libspinscale.Base.{
  ℕ, ◌-◌, ◌/◌, ◌<◌, ◌≡◌, Bool, true, false, some, List, [], ◌∷◌, arith, ltb, ◌==◌, if◌then◌else◌,
  length,
}
use native.Mathlib.Nat.{div-lt_self}
use native.Mathlib.Decide.{dec_lt}
use libspinscale.Outcome.{ok}
use libspinscale.Qutex.{
  Entry, Lockvoker, Qutex, IsUnlocked, find_node, try_acquire, own_by_iterator, fail_to_acquire,
  try_acquire_single, try_acquire_multi, try_acquire_unowned,
}
use libspinscale.Qutex.Positions.{position, InQueue, Distinct, scan_rear-reverse, contains-drop}

-- One lock: only the front. Otherwise: all but the rear `length / n` entries.
abbrev pub eligible : ℕ → ℕ → ℕ → Bool
eligible n len pos = if n == 1 then pos == 0 else ltb pos (len - len / n)

-- The lockvoker's stored iterator names its own entry.
pub record HasIterator (lv : Lockvoker) (queue : List Entry) : Type 0 where
  pub it : ℕ
  pub entry : Entry
  pub stored : lv.iterator ≡ some it
  pub found : find_node it queue ≡ some entry
  pub own : entry.lockvoker ≡ lv.vaddr

abbrev pub owned_by : Bool → ℕ → Qutex → Qutex
owned_by debug_locks lv q = record q {
  is_owned = true;
  curr_owner = if debug_locks then some lv else q.curr_owner;
}

abbrev with_lock : Bool → Qutex → Qutex
with_lock b q = record q { lock = record { locked = b } }

with_lock_self : (q : Qutex) → IsUnlocked q → with_lock false q ≡ q
with_lock_self q h = ground arith

eligible-front : (n len : ℕ) → 0 < n → 0 < len → eligible n len 0 ≡ true
eligible-front n len hn hl = elim (dec_lt 1 n) [
  | yes several ↦ let less : len / n < len = div-lt_self hl several in ground arith
  | no one ↦ ground arith
]

module _ (debug_locks : Bool) (lv : Lockvoker) (q : Qutex) (unlocked : IsUnlocked q) where
  own_by_iterator-held :
      HasIterator lv q.queue
      → own_by_iterator debug_locks lv (with_lock true q)
        ≡ ok true (owned_by debug_locks lv.vaddr q)
  unfolding own_by_iterator
  own_by_iterator-held i = ground arith

  fail_to_acquire-held : fail_to_acquire (with_lock true q) ≡ ok false q
  unfolding fail_to_acquire
  fail_to_acquire-held = ground arith

  try_acquire_single-held :
      (queue : List Entry)
      → InQueue lv.vaddr queue
      → try_acquire_single debug_locks lv queue (with_lock true q) ≡ (
          if position lv.vaddr queue == 0
          then ok true (owned_by debug_locks lv.vaddr q)
          else ok false q)
  unfolding try_acquire_single
  try_acquire_single-held [] p = absurd (omega arith)
  try_acquire_single-held (e ∷ es) p = ground (arith, fail_to_acquire-held)

  try_acquire_multi-held :
      HasIterator lv q.queue
      → Distinct q.queue
      → InQueue lv.vaddr q.queue
      → (k : ℕ)
      → try_acquire_multi debug_locks lv k (with_lock true q) ≡ (
          if ltb (position lv.vaddr q.queue) (length q.queue - k)
          then ok true (owned_by debug_locks lv.vaddr q)
          else ok false q)
  unfolding try_acquire_multi
  try_acquire_multi-held i d p k = ground (
    arith,
    scan_rear-reverse k q.queue lv.vaddr,
    contains-drop (length q.queue - k) q.queue lv.vaddr d p,
    own_by_iterator-held i,
    fail_to_acquire-held,
  )

  try_acquire_unowned-held :
      (n : ℕ)
      → 0 < n
      → HasIterator lv q.queue
      → Distinct q.queue
      → InQueue lv.vaddr q.queue
      → try_acquire_unowned debug_locks lv n
          (length q.queue)
          (length q.queue / n)
          (with_lock true q)
        ≡ (if eligible n (length q.queue) (position lv.vaddr q.queue)
            then ok true (owned_by debug_locks lv.vaddr q)
            else ok false q)
  unfolding try_acquire_unowned
  try_acquire_unowned-held n h i d p = ground (
    arith,
    own_by_iterator-held i,
    try_acquire_single-held q.queue p,
    try_acquire_multi-held i d p (length q.queue / n),
  )

  -- Let the spin lock be free, one or more locks be required, and the queue hold the caller under
  -- a valid iterator, with no lockvoker twice. Then `tryAcquire` returns: it refuses an owned
  -- qutex, and takes an unowned one exactly if the caller's position is eligible. It changes the
  -- owner and nothing else.
  pub try_acquire-eligible :
      (n : ℕ)
      → 0 < n
      → HasIterator lv q.queue
      → Distinct q.queue
      → InQueue lv.vaddr q.queue
      → try_acquire debug_locks lv n q ≡ (
          if q.is_owned
          then ok false q
          else if eligible n (length q.queue) (position lv.vaddr q.queue)
          then ok true (owned_by debug_locks lv.vaddr q)
          else ok false q)
  unfolding try_acquire
  try_acquire-eligible n h i d p =
      ground (arith, try_acquire_unowned-held n h i d p, fail_to_acquire-held)

  -- The lockvoker in front of an unowned qutex with a free spin lock takes it, however many locks
  -- it requires, if it requires one at least and its iterator is valid.
  pub front_acquires :
      (n : ℕ)
      → 0 < n
      → q.is_owned ≡ false
      → HasIterator lv q.queue
      → Distinct q.queue
      → InQueue lv.vaddr q.queue
      → position lv.vaddr q.queue ≡ 0
      → try_acquire debug_locks lv n q ≡ ok true (owned_by debug_locks lv.vaddr q)
  front_acquires n h unowned i d p front = rw (
    try_acquire-eligible n h i d p,
    unowned,
    front,
    eligible-front n (length q.queue) h (omega arith),
  )
