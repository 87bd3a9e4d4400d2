-- ===== src/Qutex/Registration.antt =====
-- Registration and unregistration: one entry comes or goes, and the other iterators stay valid.
use libspinscale.Base.{
  ℕ, suc, ◌≡◌, refl, Bool, true, false, none, some, List, [], ◌∷◌, ◌++◌, arith, ◌==◌, if◌then◌else◌,
  ◌≢◌, sym, length, Bool-cases, inl, inr, subst, ==_iff,
}
use libspinscale.Outcome.{ok}
use libspinscale.Qutex.{
  Entry, Qutex, IsUnlocked, find_node, erase_node, register_in_queue, unregister_from_queue,
}
use libspinscale.Qutex.Nodes.{AbsentNode, DistinctNodes, NodesBelow, WellFormed}

abbrev pub registered : ℕ → Qutex → Qutex
registered lv q = record q {
  queue = q.queue ++ record { node = q.next_node; lockvoker = lv } ∷ [];
  next_node = suc q.next_node;
}

pub register_in_queue_lem :
    (lv : ℕ) (q : Qutex) → IsUnlocked q → register_in_queue lv q ≡ ok q.next_node (registered lv q)
unfolding register_in_queue
register_in_queue_lem lv q u = ground arith

AbsentNode-below : (k : ℕ) (es : List Entry) → NodesBelow k es → AbsentNode k es
AbsentNode-below k [] b = tt
AbsentNode-below k (e ∷ es) b = (λ h. omega arith, AbsentNode-below k es b.1)

AbsentNode-concat :
    (it : ℕ) (es : List Entry) (e : Entry)
    → AbsentNode it es
    → e.node ≢ it
    → AbsentNode it (es ++ e ∷ [])
AbsentNode-concat it [] e a h = (h, tt)
AbsentNode-concat it (x ∷ es) e a h = (a.0, AbsentNode-concat it es e a.1 h)

DistinctNodes-concat :
    (es : List Entry) (e : Entry)
    → DistinctNodes es
    → AbsentNode e.node es
    → DistinctNodes (es ++ e ∷ [])
DistinctNodes-concat [] e d a = (tt, tt)
DistinctNodes-concat (x ∷ es) e d a =
    (AbsentNode-concat x.node es e d.0 (λ h. a.0 (sym h)), DistinctNodes-concat es e d.1 a.1)

NodesBelow-concat :
    (k : ℕ) (es : List Entry) (e : Entry)
    → NodesBelow k es
    → e.node ≡ k
    → NodesBelow (suc k) (es ++ e ∷ [])
NodesBelow-concat k [] e b h = (omega arith, tt)
NodesBelow-concat k (x ∷ es) e b h = (omega arith, NodesBelow-concat k es e b.1 h)

pub find_node-concat :
    (it : ℕ) (es : List Entry) (e : Entry)
    → find_node it (es ++ e ∷ [])
      ≡ elim (find_node it es) [ none ↦ if e.node == it then some e else none | some x ↦ some x ]
unfolding find_node
find_node-concat it [] e = refl
find_node-concat it (x ∷ es) e = ground (arith, find_node-concat it es e)

find_node-Absent : (it : ℕ) (es : List Entry) → AbsentNode it es → find_node it es ≡ none
unfolding find_node
find_node-Absent it [] a = refl
find_node-Absent it (e ∷ es) a = ground (arith, find_node-Absent it es a.1)

erase_node-concat :
    (es : List Entry) (e : Entry) → AbsentNode e.node es → erase_node e.node (es ++ e ∷ []) ≡ es
unfolding erase_node
erase_node-concat [] e a = ground arith
erase_node-concat (x ∷ es) e a = ground (arith, erase_node-concat es e a.1)

pub registered-found :
    (lv : ℕ) (q : Qutex)
    → WellFormed q
    → find_node q.next_node (registered lv q).queue
      ≡ some (record { node = q.next_node; lockvoker = lv })
registered-found lv q w =
    let absent = AbsentNode-below q.next_node q.queue w.below in
    ground (
      arith,
      find_node-concat q.next_node q.queue (record { node = q.next_node; lockvoker = lv }),
      find_node-Absent q.next_node q.queue absent,
    )

pub registered-WellFormed : (lv : ℕ) (q : Qutex) → WellFormed q → WellFormed (registered lv q)
registered-WellFormed lv q w =
    let e : Entry = record { node = q.next_node; lockvoker = lv } in
    let absent = AbsentNode-below q.next_node q.queue w.below in
    record {
      distinct = DistinctNodes-concat q.queue e w.distinct absent;
      below = NodesBelow-concat q.next_node q.queue e w.below refl;
    }

-- On a well-formed qutex with a free spin lock, registration returns an iterator that names the
-- new entry, keeps what every other iterator names, and keeps the ownership.
pub register_in_queue-WellFormed :
    (lv : ℕ) (q : Qutex)
    → IsUnlocked q
    → WellFormed q
    → (it : ℕ) × (q' : Qutex) × (register_in_queue lv q ≡ ok it q')
      × WellFormed q'
      × (find_node it q'.queue ≡ some (record { node = it; lockvoker = lv }))
      × ((other : ℕ) → other ≢ it → find_node other q'.queue ≡ find_node other q.queue)
      × (q'.is_owned ≡ q.is_owned)
      × IsUnlocked q'
register_in_queue-WellFormed lv q u w =
    let e : Entry = record { node = q.next_node; lockvoker = lv } in
    (
      _,
      _,
      register_in_queue_lem lv q u,
      registered-WellFormed lv q w,
      registered-found lv q w,
      λ other h. ground (arith, find_node-concat other q.queue e),
      refl,
      u,
    )

pub unregister_lem :
    (it : ℕ) (should_lock : Bool) (q : Qutex) {e : Entry}
    → IsUnlocked q
    → find_node it q.queue ≡ some e
    → unregister_from_queue it should_lock q ≡ ok tt (record q { queue = erase_node it q.queue })
unfolding unregister_from_queue
unregister_lem it true q u h = ground arith
unregister_lem it false q u h = ground arith

AbsentNode-erase : (it x : ℕ) (es : List Entry) → AbsentNode x es → AbsentNode x (erase_node it es)
unfolding erase_node
AbsentNode-erase it x [] a = tt
AbsentNode-erase it x (e ∷ es) a = elim (Bool-cases (e.node == it)) [
  | inl same ↦ rw same a.1
  | inr other ↦ rw other (a.0, AbsentNode-erase it x es a.1)
]

pub DistinctNodes-erase :
    (it : ℕ) (es : List Entry) → DistinctNodes es → DistinctNodes (erase_node it es)
unfolding erase_node
DistinctNodes-erase it [] d = tt
DistinctNodes-erase it (e ∷ es) d = elim (Bool-cases (e.node == it)) [
  | inl same ↦ rw same d.1
  | inr other ↦ rw other (AbsentNode-erase it e.node es d.0, DistinctNodes-erase it es d.1)
]

pub NodesBelow-erase :
    (it k : ℕ) (es : List Entry) → NodesBelow k es → NodesBelow k (erase_node it es)
unfolding erase_node
NodesBelow-erase it k [] b = tt
NodesBelow-erase it k (e ∷ es) b = elim (Bool-cases (e.node == it)) [
  | inl same ↦ rw same b.1
  | inr other ↦ rw other (b.0, NodesBelow-erase it k es b.1)
]

find_node-erase_self :
    (it : ℕ) (es : List Entry) → DistinctNodes es → find_node it (erase_node it es) ≡ none
unfolding find_node erase_node
find_node-erase_self it [] d = refl
find_node-erase_self it (e ∷ es) d = elim (Bool-cases (e.node == it)) [
  | inl same ↦
      rw same
        (find_node-Absent it es (subst (λ (x : ℕ). AbsentNode x es) ((==_iff _ _).0 same) d.0))
  | inr other ↦ rw (other, other) (find_node-erase_self it es d.1)
]

pub find_node-erase_ne :
    (it other : ℕ) (es : List Entry)
    → other ≢ it
    → find_node other (erase_node it es) ≡ find_node other es
unfolding find_node erase_node
find_node-erase_ne it other [] h = refl
find_node-erase_ne it other (e ∷ es) h = ground (arith, find_node-erase_ne it other es h)

length-erase :
    (it : ℕ) (es : List Entry) {e : Entry}
    → find_node it es ≡ some e
    → suc (length (erase_node it es)) ≡ length es
unfolding find_node erase_node
length-erase it [] h = cc
length-erase it (x ∷ es) {e} h = ground (arith, length-erase it es {e = e})

-- On a well-formed qutex with a free spin lock, erasing through an iterator that names an entry
-- removes that entry alone: the iterator is dead, every other one names what it named, and the
-- ownership is kept.
pub unregister_from_queue-WellFormed :
    (it : ℕ) (should_lock : Bool) (q : Qutex) {e : Entry}
    → IsUnlocked q
    → WellFormed q
    → find_node it q.queue ≡ some e
    → (q' : Qutex) × (unregister_from_queue it should_lock q ≡ ok tt q')
      × WellFormed q'
      × (find_node it q'.queue ≡ none)
      × ((other : ℕ) → other ≢ it → find_node other q'.queue ≡ find_node other q.queue)
      × (suc (length q'.queue) ≡ length q.queue)
      × (q'.is_owned ≡ q.is_owned)
      × IsUnlocked q'
unregister_from_queue-WellFormed it should_lock q u w h = (
  _,
  unregister_lem it should_lock q u h,
  record {
    distinct = DistinctNodes-erase it q.queue w.distinct;
    below = NodesBelow-erase it q.next_node q.queue w.below;
  },
  find_node-erase_self it q.queue w.distinct,
  λ other k. find_node-erase_ne it other q.queue k,
  length-erase it q.queue h,
  refl,
  u,
)

-- On a well-formed qutex with a free spin lock, unregistering through the iterator that a
-- registration returned gives the qutex back, but for the fresh node that was used up.
pub register-unregister :
    (lv : ℕ) (q : Qutex)
    → IsUnlocked q
    → WellFormed q
    → (it : ℕ) × (q' : Qutex) × (register_in_queue lv q ≡ ok it q')
      × (unregister_from_queue it true q' ≡ ok tt (record q { next_node = suc q.next_node }))
register-unregister lv q u w =
    let e : Entry = record { node = q.next_node; lockvoker = lv } in
    let absent = AbsentNode-below q.next_node q.queue w.below in
    let found : find_node q.next_node (q.queue ++ e ∷ []) ≡ some e = ground (
      arith,
      find_node-concat q.next_node q.queue e,
      find_node-Absent q.next_node q.queue absent,
    ) in
    (
      _,
      _,
      register_in_queue_lem lv q u,
      rw (
        unregister_lem q.next_node true (registered lv q) u found,
        erase_node-concat q.queue e absent,
      ),
    )
