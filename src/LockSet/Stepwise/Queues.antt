-- ===== src/LockSet/Stepwise/Queues.antt =====
-- What one call of a continuation does to the queue of a qutex, and what stays for the others.
use libspinscale.Base.{
  ℕ, ◌-◌, ◌≡◌, ◌≢◌, sym, ◌∙◌, ap, subst, some, List, [], ◌∷◌, arith, Bool-cases, inl, inr, ◌==◌,
}
use libspinscale.Qutex.{Entry, Qutex, IsUnlocked, find_node, erase_node}
use libspinscale.Qutex.Positions.{InQueue, Absent, Distinct, Absent-concat, Distinct-concat}
use libspinscale.Qutex.Rotation.{Absent-behind}
use libspinscale.Qutex.Backoff.{requeued, requeued-Distinct}
use libspinscale.Qutex.Nodes.{WellFormed, find_node-requeued, requeued-WellFormed}
use libspinscale.Qutex.Registration.{
  registered, find_node-concat, find_node-erase_ne, DistinctNodes-erase, NodesBelow-erase,
  registered-WellFormed,
}

-- A qutex between calls: its spin lock free, its nodes distinct and not fresh, and no lockvoker queued
-- twice.
pub record Healthy (q : Qutex) : Type 0 where
  pub unlocked : IsUnlocked q
  pub well_formed : WellFormed q
  pub distinct : Distinct q.queue

-- What a call of `c` that returns does to the queue.
pub data QueueMove (c : ℕ) (q q' : Qutex) : Type 0 where
  kept : IsUnlocked q' → q'.queue ≡ q.queue → q'.next_node ≡ q.next_node → QueueMove c q q'
  rotated :
      (n : ℕ)
      → IsUnlocked q'
      → q'.queue ≡ requeued n c q.queue
      → q'.next_node ≡ q.next_node
      → QueueMove c q q'
  added : Absent c q.queue → q' ≡ registered c q → QueueMove c q q'
  erased :
      (it : ℕ) (e : Entry)
      → find_node it q.queue ≡ some e
      → e.lockvoker ≡ c
      → q' ≡ record q { queue = erase_node it q.queue }
      → QueueMove c q q'

Absent-erase : (it d : ℕ) (es : List Entry) → Absent d es → Absent d (erase_node it es)
unfolding erase_node
Absent-erase it d [] a = tt
Absent-erase it d (e ∷ es) a = elim (Bool-cases (e.node == it)) [
  | inl same ↦ rw same a.1
  | inr other ↦ rw other (a.0, Absent-erase it d es a.1)
]

Distinct-erase : (it : ℕ) (es : List Entry) → Distinct es → Distinct (erase_node it es)
unfolding erase_node
Distinct-erase it [] d = tt
Distinct-erase it (e ∷ es) d = elim (Bool-cases (e.node == it)) [
  | inl same ↦ rw same d.1
  | inr other ↦ rw other (Absent-erase it e.lockvoker es d.0, Distinct-erase it es d.1)
]

Absent-requeued : (n c d : ℕ) (es : List Entry) → Absent d es → Absent d (requeued n c es)
Absent-requeued n c d [] a = tt
Absent-requeued n c d (e ∷ es) a = elim (Bool-cases (e.lockvoker == c)) [
  | inl front ↦ rw front (Absent-behind (n - 1) d e es a.0 a.1)
  | inr other ↦ rw other a
]

pub find_node-InQueue :
    (it : ℕ) (es : List Entry) (e : Entry) → find_node it es ≡ some e → InQueue e.lockvoker es
unfolding find_node
find_node-InQueue it [] e h = absurd (cc)
find_node-InQueue it (x ∷ es) e h = elim (Bool-cases (x.node == it)) [
  | inl here ↦ ground (arith, here, h)
  | inr other ↦ ground (arith, find_node-InQueue it es e (rw other at h))
]

pub QueueMove-Healthy : (c : ℕ) {q q' : Qutex} → QueueMove c q q' → Healthy q → Healthy q'
QueueMove-Healthy c {q} {q'} (kept u e n) h = record {
  unlocked = u;
  well_formed = record {
    distinct = rw e h.well_formed.distinct;
    below = rw (e, n) h.well_formed.below;
  };
  distinct = rw e h.distinct;
}
QueueMove-Healthy c {q} {q'} (rotated n u e k) h =
    let (nodes, below) =
      requeued-WellFormed n c q.next_node q.queue h.well_formed.distinct h.well_formed.below in
    record {
      unlocked = u;
      well_formed = record { distinct = rw e nodes; below = rw (e, k) below };
      distinct = rw e (requeued-Distinct n c q.queue h.distinct);
    }
QueueMove-Healthy c {q} {q'} (added a e) h =
    let e0 : Entry = record { node = q.next_node; lockvoker = c } in
    let new : Healthy (registered c q) = record {
      unlocked = h.unlocked;
      well_formed = registered-WellFormed c q h.well_formed;
      distinct = Distinct-concat q.queue e0 h.distinct a;
    } in
    subst Healthy (sym e) new
QueueMove-Healthy c {q} {q'} (erased it e f own k) h =
    let new : Healthy (record q { queue = erase_node it q.queue }) = record {
      unlocked = h.unlocked;
      well_formed = record {
        distinct = DistinctNodes-erase it q.queue h.well_formed.distinct;
        below = NodesBelow-erase it q.next_node q.queue h.well_formed.below;
      };
      distinct = Distinct-erase it q.queue h.distinct;
    } in
    subst Healthy (sym k) new

-- The entries of other continuations stay where their iterators find them.
pub QueueMove-find_node :
    (c d : ℕ) {q q' : Qutex}
    → c ≢ d
    → QueueMove c q q'
    → Healthy q
    → (it : ℕ) (x : Entry) → find_node it q.queue ≡ some x
    → x.lockvoker ≡ d
    → find_node it q'.queue ≡ some x
QueueMove-find_node c d {q} {q'} n (kept u e k) h it x f own = rw e f
QueueMove-find_node c d {q} {q'} n (rotated m u e k) h it x f own =
    rw e (find_node-requeued it m c q.queue h.well_formed.distinct ∙ f)
QueueMove-find_node c d {q} {q'} n (added a e) h it x f own =
    let e0 : Entry = record { node = q.next_node; lockvoker = c } in
    rw e (ground (arith, find_node-concat it q.queue e0, f))
QueueMove-find_node c d {q} {q'} n (erased it' y g mine e) h it x f own =
    let apart : it ≢ it' = λ k.
      let same : some y ≡ some x = sym g ∙ ap (λ (i : ℕ). find_node i q.queue) (sym k) ∙ f in
      n (ground (arith, same, mine, own)) in
    rw e (find_node-erase_ne it' it q.queue apart ∙ f)

-- Nor does anybody else enter the queue.
pub QueueMove-Absent :
    (c d : ℕ) {q q' : Qutex} → c ≢ d → QueueMove c q q' → Absent d q.queue → Absent d q'.queue
QueueMove-Absent c d {q} n (kept u e k) a = rw e a
QueueMove-Absent c d {q} n (rotated m u e k) a = rw e (Absent-requeued m c d q.queue a)
QueueMove-Absent c d {q} n (added b e) a =
    let e0 : Entry = record { node = q.next_node; lockvoker = c } in
    rw e (Absent-concat d q.queue e0 a n)
QueueMove-Absent c d {q} n (erased it y g mine e) a = rw e (Absent-erase it d q.queue a)
