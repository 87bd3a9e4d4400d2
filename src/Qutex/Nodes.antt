-- ===== src/Qutex/Nodes.antt =====
-- The nodes of a queue: stored iterators stay valid until their own entry is erased.
use libspinscale.Base.{
  ℕ, zero, suc, ◌-◌, ◌<◌, ◌≤◌, ◌≡◌, refl, Bool, Option, List, [], ◌∷◌, arith, ◌==◌, ◌≢◌, sym,
  Bool-cases, inl, inr,
}
use libspinscale.Outcome.{ok}
use libspinscale.Qutex.{Lockvoker, backoff, Entry, Qutex, IsUnlocked, find_node}
use libspinscale.Qutex.Positions.{Distinct, InQueue}
use libspinscale.Qutex.Rotation.{behind}
use libspinscale.Qutex.Backoff.{requeued, backoff-requeued}

abbrev pub AbsentNode : ℕ → List Entry → Type 0
AbsentNode it [] = Unit
AbsentNode it (e ∷ es) = (e.node ≢ it) × AbsentNode it es

abbrev pub DistinctNodes : List Entry → Type 0
DistinctNodes [] = Unit
DistinctNodes (e ∷ es) = AbsentNode e.node es × DistinctNodes es

abbrev pub NodesBelow : ℕ → List Entry → Type 0
NodesBelow k [] = Unit
NodesBelow k (e ∷ es) = (e.node < k) × NodesBelow k es

pub record WellFormed (q : Qutex) : Type 0 where
  pub distinct : DistinctNodes q.queue
  pub below : NodesBelow q.next_node q.queue

find_node-behind :
    (it k : ℕ) (e : Entry) (es : List Entry)
    → AbsentNode e.node es
    → find_node it (behind k e es) ≡ find_node it (e ∷ es)
unfolding find_node
find_node-behind it zero e es a = refl
find_node-behind it (suc k) e [] a = refl
find_node-behind it (suc k) e (x ∷ es) a = ground (arith, find_node-behind it k e es a.1)

pub find_node-requeued :
    (it n lv : ℕ) (queue : List Entry)
    → DistinctNodes queue
    → find_node it (requeued n lv queue) ≡ find_node it queue
find_node-requeued it n lv [] d = refl
find_node-requeued it n lv (e ∷ es) d = ground (arith, find_node-behind it (n - 1) e es d.0)

AbsentNode-behind :
    (k it : ℕ) (e : Entry) (es : List Entry)
    → e.node ≢ it
    → AbsentNode it es
    → AbsentNode it (behind k e es)
AbsentNode-behind zero it e es h a = (h, a)
AbsentNode-behind (suc k) it e [] h a = (h, tt)
AbsentNode-behind (suc k) it e (x ∷ es) h a = (a.0, AbsentNode-behind k it e es h a.1)

DistinctNodes-behind :
    (k : ℕ) (e : Entry) (es : List Entry) → DistinctNodes (e ∷ es) → DistinctNodes (behind k e es)
DistinctNodes-behind zero e es d = d
DistinctNodes-behind (suc k) e [] d = d
DistinctNodes-behind (suc k) e (x ∷ es) (a, (b, d)) =
    (AbsentNode-behind k x.node e es (λ p. a.0 (sym p)) b, DistinctNodes-behind k e es (a.1, d))

NodesBelow-behind :
    (k bound : ℕ) (e : Entry) (es : List Entry)
    → NodesBelow bound (e ∷ es)
    → NodesBelow bound (behind k e es)
NodesBelow-behind zero bound e es b = b
NodesBelow-behind (suc k) bound e [] b = b
NodesBelow-behind (suc k) bound e (x ∷ es) (b, (c, d)) = (c, NodesBelow-behind k bound e es (b, d))

pub requeued-WellFormed :
    (n lv bound : ℕ) (queue : List Entry)
    → DistinctNodes queue
    → NodesBelow bound queue
    → DistinctNodes (requeued n lv queue) × NodesBelow bound (requeued n lv queue)
requeued-WellFormed n lv bound [] d b = (tt, tt)
requeued-WellFormed n lv bound (e ∷ es) d b = elim (Bool-cases (e.lockvoker == lv)) [
  | inl front ↦
      rw front (DistinctNodes-behind (n - 1) e es d, NodesBelow-behind (n - 1) bound e es b)
  | inr other ↦ rw other (d, b)
]

-- Let the spin lock be free, two or more locks be required, the queue hold the caller, with no
-- lockvoker twice, and the nodes of the queue be distinct and not fresh. Then a backoff keeps the
-- nodes so, and every iterator names the entry that it named before.
pub backoff-WellFormed :
    (debug_locks : Bool) (lv : Lockvoker) (n : ℕ) (q : Qutex)
    → IsUnlocked q
    → 2 ≤ n
    → Distinct q.queue
    → InQueue lv.vaddr q.queue
    → WellFormed q
    → (w : Option ℕ) × (q' : Qutex) × (backoff debug_locks lv n q ≡ ok w q')
      × WellFormed q'
      × ((it : ℕ) → find_node it q'.queue ≡ find_node it q.queue)
backoff-WellFormed debug_locks lv n q u h d p w =
    let (nodes, below) = requeued-WellFormed n lv.vaddr q.next_node q.queue w.distinct w.below in
    (
      _,
      _,
      backoff-requeued debug_locks lv n q u h d p,
      record { distinct = nodes; below = below },
      λ it. find_node-requeued it n lv.vaddr q.queue w.distinct,
    )
