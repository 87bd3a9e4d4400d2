-- ===== src/Qutex.antt =====
-- include/spinscale/qutex.h and src/qutex.cpp: the queue-based mutex.
--
-- A queue entry is a node of the std::list: its identity, which a stored iterator names, and the
-- address of the continuation behind the lockvoker that it points to, by which lockvokers compare.
-- `int` casts of queue sizes are the identity, since a queue of 2 ^ 31 nodes does not fit in memory.
pub mod Positions
pub mod TryAcquire
pub mod Rotation
pub mod Backoff
pub mod Release
pub mod Nodes
pub mod Registration
mod Examples
use libspinscale.Base.{
  ℕ, zero, suc, ◌/◌, ◌≡◌, Bool, true, false, not, ◌&&◌, ◌||◌, Option, none, some, List, [], ◌∷◌,
  ◌++◌, reverse, ltb, ◌==◌, if◌then◌else◌, length, take, drop,
}
use libspinscale.Outcome.{
  M, ok, stop, throws, undefined, ◌>>=◌, ◌>>◌, return, throw, try_acquire_on_empty_queue,
  backoff_on_empty_queue, front_acquirer_should_succeed, failed_acquirer_at_front,
  release_on_unowned_qutex, qutex_not_in_lock_set,
}
use libspinscale.SpinLock
use libspinscale.SpinLock.{SpinLock, unlocked}

pub record Entry : Type 0 where
  pub node : ℕ
  pub lockvoker : ℕ

-- The `LockerAndInvokerBase` that calls: its continuation's address, and what its
-- `getLockvokerIteratorForQutex` returns for the qutex at hand (`none`: it throws).
pub record Lockvoker : Type 0 where
  pub vaddr : ℕ
  pub iterator : Option ℕ

-- `curr_owner` exists with CONFIG_ENABLE_DEBUG_LOCKS only; `next_node` is the next fresh node.
pub record Qutex : Type 0 where
  pub lock : SpinLock
  pub queue : List Entry
  pub is_owned : Bool
  pub curr_owner : Option ℕ
  pub next_node : ℕ

unfoldable pub get_curr_owner : Qutex → Option ℕ
get_curr_owner q = q.curr_owner

abbrev pub new_qutex : Qutex
new_qutex = record {
  lock = unlocked;
  queue = [];
  is_owned = false;
  curr_owner = none;
  next_node = 0;
}

abbrev pub IsUnlocked : Qutex → Type 0
IsUnlocked q = q.lock.locked ≡ false

lock_acquire : M Qutex (Unit {0})
unfolding SpinLock.acquire
lock_acquire q = elim (SpinLock.acquire q.lock) [
  | ok _ l ↦ ok tt (record q { lock = l })
  | stop e l ↦ stop e (record q { lock = l })
]

lock_release : M Qutex (Unit {0})
unfolding SpinLock.release
lock_release q = elim (SpinLock.release q.lock) [
  | ok _ l ↦ ok tt (record q { lock = l })
  | stop e l ↦ stop e (record q { lock = l })
]

unfoldable pub find_node : ℕ → List Entry → Option Entry
find_node it [] = none
find_node it (e ∷ es) = if e.node == it then some e else find_node it es

unfoldable pub erase_node : ℕ → List Entry → List Entry
erase_node it [] = []
erase_node it (e ∷ es) = if e.node == it then es else e ∷ erase_node it es

unfoldable pub register_in_queue : ℕ → M Qutex ℕ
unfolding lock_acquire lock_release
register_in_queue lv = do
  lock_acquire
  it ← λ q. ok q.next_node (record q {
    queue = q.queue ++ record { node = q.next_node; lockvoker = lv } ∷ [];
    next_node = suc q.next_node;
  })
  lock_release
  return it

-- `queue.erase(it)`: an iterator to no node of the list is undefined behaviour.
erase : ℕ → M Qutex (Unit {0})
erase it q = elim (find_node it q.queue) [
  | none ↦ stop undefined q
  | some _ ↦ ok tt (record q { queue = erase_node it q.queue })
]

unfoldable pub unregister_from_queue : ℕ → Bool → M Qutex (Unit {0})
unfolding lock_acquire lock_release erase
unregister_from_queue it should_lock =
    if should_lock then (do lock_acquire; erase it; lock_release) else erase it

-- `for (i = 0; i < n && rIt != rEndIt; ++rIt, ++i) if (**rIt == tryingLockvoker) ...`
unfoldable pub scan_rear : ℕ → List Entry → ℕ → Bool
scan_rear zero r_it lv = false
scan_rear (suc n) [] lv = false
scan_rear (suc n) (e ∷ r_it) lv = if e.lockvoker == lv then true else scan_rear n r_it lv

-- `for (i = 0; i < index && insertPos != queue.end(); ++i) ++insertPos`, as a distance from begin().
advance : ℕ → List Entry → ℕ → ℕ
advance zero rest pos = pos
advance (suc i) [] pos = pos
advance (suc i) (e ∷ rest) pos = advance i rest (suc pos)

-- `queue.splice(begin() + pos, queue, begin())`: the front node moves before the one at `pos`.
unfoldable pub splice_front : ℕ → List Entry → List Entry
splice_front pos [] = []
splice_front zero (e ∷ rest) = e ∷ rest
splice_front (suc pos) (e ∷ rest) = take pos rest ++ e ∷ drop pos rest

-- Lines 162 to 249: behind the first `n` entries, or at the back when there are no more than that.
unfoldable pub rotate : ℕ → List Entry → List Entry
unfolding advance splice_front
rotate n queue =
    splice_front (if ltb n (length queue) then advance n queue 0 else length queue) queue

fail_to_acquire : M Qutex Bool
unfolding lock_release
fail_to_acquire = do lock_release; return false

module _ (debug_locks : Bool) where
  -- `currOwner = *it` for the stored iterator, in a debug build.
  curr_owner_from_iterator : Lockvoker → M Qutex (Unit {0})
  unfolding find_node
  curr_owner_from_iterator lv q = elim lv.iterator [
    | none ↦ stop (throws qutex_not_in_lock_set) q
    | some it ↦ elim (find_node it q.queue) [
      | none ↦ stop undefined q
      | some e ↦ ok tt (record q { curr_owner = some e.lockvoker })
    ]
  ]

  own_by_iterator : Lockvoker → M Qutex Bool
  unfolding curr_owner_from_iterator lock_release
  own_by_iterator lv = do
    λ q. ok tt (record q { is_owned = true })
    if debug_locks then curr_owner_from_iterator lv else return tt
    lock_release
    return true

  -- A request for one lock must be at the front of the queue.
  try_acquire_single : Lockvoker → List Entry → M Qutex Bool
  unfolding lock_release fail_to_acquire
  try_acquire_single lv [] q = stop undefined q
  try_acquire_single lv (front ∷ _) q =
      if front.lockvoker == lv.vaddr
      then (do lock_release; return true)
          (record q {
            is_owned = true;
            curr_owner = if debug_locks then some front.lockvoker else q.curr_owner;
          })
      else fail_to_acquire q

  try_acquire_multi : Lockvoker → ℕ → M Qutex Bool
  unfolding own_by_iterator fail_to_acquire scan_rear
  try_acquire_multi lv n_rear_items_to_scan q =
      if scan_rear n_rear_items_to_scan (reverse q.queue) lv.vaddr
      then fail_to_acquire q
      else own_by_iterator lv q

  try_acquire_unowned : Lockvoker → ℕ → ℕ → ℕ → M Qutex Bool
  unfolding own_by_iterator try_acquire_single try_acquire_multi
  try_acquire_unowned lv n q_n_items n_rear q =
      if (q_n_items == 1) || ltb n_rear 1
      then own_by_iterator lv q
      else if n == 1
      then try_acquire_single lv q.queue q
      else try_acquire_multi lv n_rear q

  -- The division of line 39 by a count of 0 is undefined.
  unfoldable pub try_acquire : Lockvoker → ℕ → M Qutex Bool
  unfolding lock_acquire lock_release fail_to_acquire try_acquire_unowned
  try_acquire lv n_required_locks = do
    lock_acquire
    q_n_items ← λ q. ok (length q.queue) q
    if ltb q_n_items 1 then (do lock_release; throw try_acquire_on_empty_queue) else λ q.
        if q.is_owned
        then fail_to_acquire q
        else if n_required_locks == 0
        then stop undefined q
        else try_acquire_unowned lv n_required_locks q_n_items (q_n_items / n_required_locks) q

  -- Lines 252 to 308, from the state after the rotation. The result is the lockvoker to awaken.
  unfoldable pub give_back : Lockvoker → ℕ → M Qutex (Option ℕ)
  unfolding lock_release
  give_back lv n_q_items q = elim q.queue [
    | [] ↦ stop undefined q
    | new_front ∷ _ ↦
        (do
          lock_release
          if (new_front.lockvoker == lv.vaddr) && ltb 1 n_q_items
              then throw failed_acquirer_at_front
              else return (if ltb 1 n_q_items then some new_front.lockvoker else none))
          (record q { is_owned = false; curr_owner = if debug_locks then none else q.curr_owner })
  ]

  unfoldable pub backoff_from : Lockvoker → ℕ → List Entry → M Qutex (Option ℕ)
  unfolding lock_release
  backoff_from lv n [] q = (do lock_release; throw backoff_on_empty_queue) q
  backoff_from lv n (old_front ∷ rest) q =
      if (old_front.lockvoker == lv.vaddr) && (n == 1)
      then (do lock_release; throw front_acquirer_should_succeed) q
      else if (old_front.lockvoker == lv.vaddr) && ltb 1 (length q.queue)
      then give_back lv (length q.queue) (record q { queue = rotate n q.queue })
      else give_back lv (length q.queue) q

  -- The lockvoker that `backoff` awakens last, if any, is its result.
  unfoldable pub backoff : Lockvoker → ℕ → M Qutex (Option ℕ)
  unfolding lock_acquire backoff_from give_back
  backoff lv n_required_locks = do lock_acquire; λ q. backoff_from lv n_required_locks q.queue q

  -- The exception of line 327 leaves the spin lock held. The lockvoker to awaken is the result.
  unfoldable pub release : M Qutex (Option ℕ)
  unfolding lock_acquire lock_release
  release = do
    lock_acquire
    λ q.
        if not q.is_owned || (debug_locks && elim q.curr_owner [ none ↦ true | some _ ↦ false ])
        then stop (throws release_on_unowned_qutex) q
        else (do
          λ q. ok tt (record q {
            is_owned = false;
            curr_owner = if debug_locks then none else q.curr_owner;
          })
          front ← λ q. ok (elim q.queue [ [] ↦ none | e ∷ _ ↦ some e.lockvoker ]) q
          lock_release
          return front)
            q
