-- ===== src/Tracker/Entries.antt =====
-- The acquisition history as a map from continuations to what they want and hold.
use libspinscale.Base.{
  ℕ, ◌≡◌, refl, ◌≢◌, Bool, true, false, Option, none, some, List, [], ◌∷◌, ◌++◌, arith,
  if◌then◌else◌, ◌==◌, Option-cases, inl, inr, Bool-cases,
}
use libspinscale.Outcome.{ok}
use libspinscale.Tracker.{HistoryEntry, Tracker, find_entry, erase_entry, add_if_not_exists, remove}

abbrev pub Absent : ℕ → List HistoryEntry → Type 0
Absent c [] = Unit
Absent c (e ∷ es) = (e.continuation ≢ c) × Absent c es

-- One entry for each continuation, as in a map.
abbrev pub DistinctEntries : List HistoryEntry → Type 0
DistinctEntries [] = Unit
DistinctEntries (e ∷ es) = Absent e.continuation es × DistinctEntries es

-- What `find` gives afterwards: the entry that was there, or for `c` the new one.
abbrev pub kept_or : ℕ → HistoryEntry → List HistoryEntry → ℕ → Option HistoryEntry
kept_or c new history x = elim (find_entry x history) [
  | some e ↦ some e
  | none ↦ if c == x then some new else none
]

Absent-none : (c : ℕ) (es : List HistoryEntry) → find_entry c es ≡ none → Absent c es
Absent-none c [] h = tt
Absent-none c (e ∷ es) h = (ground arith, Absent-none c es (ground arith))

find_entry-Absent : (c : ℕ) (es : List HistoryEntry) → Absent c es → find_entry c es ≡ none
find_entry-Absent c [] a = refl
find_entry-Absent c (e ∷ es) a = ground (arith, find_entry-Absent c es a.1)

Absent-append :
    (c : ℕ) (es : List HistoryEntry) (e : HistoryEntry)
    → Absent c es
    → e.continuation ≢ c
    → Absent c (es ++ e ∷ [])
Absent-append c [] e a d = (d, tt)
Absent-append c (x ∷ es) e a d = (a.0, Absent-append c es e a.1 d)

DistinctEntries-append :
    (es : List HistoryEntry) (e : HistoryEntry)
    → DistinctEntries es
    → Absent e.continuation es
    → DistinctEntries (es ++ e ∷ [])
DistinctEntries-append [] e d a = (tt, tt)
DistinctEntries-append (x ∷ es) e d a =
    (Absent-append x.continuation es e d.0 (λ h. a.0 (cc h)), DistinctEntries-append es e d.1 a.1)

find_entry-append :
    (x : ℕ) (es : List HistoryEntry) (e : HistoryEntry)
    → find_entry x (es ++ e ∷ []) ≡ kept_or e.continuation e es x
find_entry-append x [] e = refl
find_entry-append x (y ∷ es) e = ground (arith, find_entry-append x es e)

Absent-erase : (c x : ℕ) (es : List HistoryEntry) → Absent c es → Absent c (erase_entry x es)
Absent-erase c x [] a = tt
Absent-erase c x (e ∷ es) a = elim (Bool-cases (e.continuation == x)) [
  | inl this ↦ rw this a.1
  | inr other ↦ rw other (a.0, Absent-erase c x es a.1)
]

DistinctEntries-erase :
    (x : ℕ) (es : List HistoryEntry) → DistinctEntries es → DistinctEntries (erase_entry x es)
DistinctEntries-erase x [] d = tt
DistinctEntries-erase x (e ∷ es) d = elim (Bool-cases (e.continuation == x)) [
  | inl this ↦ rw this d.1
  | inr other ↦ rw other (Absent-erase e.continuation x es d.0, DistinctEntries-erase x es d.1)
]

find_entry-erase :
    (x y : ℕ) (es : List HistoryEntry)
    → DistinctEntries es
    → find_entry y (erase_entry x es) ≡ (if x == y then none else find_entry y es)
find_entry-erase x y [] d = ground arith
find_entry-erase x y (e ∷ es) d =
    ground (arith, find_entry-erase x y es d.1, find_entry-Absent e.continuation es d.0)

module _ (t : Tracker) (unlocked : t.lock.locked ≡ false)
    (distinct : DistinctEntries t.history) where
  -- On a tracker with a free spin lock and one entry for each continuation, `addIfNotExists`
  -- returns with the spin lock free. Afterwards every entry that was there is as it was, the
  -- continuation has the given entry if it had none, and no continuation has two.
  pub add_if_not_exists-find :
      (c wanted_lock : ℕ) (held_locks : Option (List ℕ))
      → (t' : Tracker) × (add_if_not_exists c wanted_lock held_locks t ≡ ok tt t')
        × ((x : ℕ)
            → find_entry x t'.history
              ≡ kept_or c
                  (record { continuation = c; wanted_lock = wanted_lock; held_locks = held_locks })
                  t.history
                  x)
        × DistinctEntries t'.history
        × (t'.lock.locked ≡ false)
  unfolding add_if_not_exists
  add_if_not_exists-find c wanted_lock held_locks =
      let new : HistoryEntry = record {
        continuation = c;
        wanted_lock = wanted_lock;
        held_locks = held_locks;
      } in
      elim (Option-cases (find_entry c t.history)) [
        | inl missing ↦ (
          record t { history = t.history ++ new ∷ [] },
          ground (arith, missing),
          λ x. find_entry-append x t.history new,
          DistinctEntries-append t.history new distinct (Absent-none c t.history missing),
          unlocked,
        )
        | inr (e, present) ↦ (t, ground (arith, present), λ x. ground arith, distinct, unlocked)
      ]

  -- On a tracker with a free spin lock and one entry for each continuation, `remove` returns with
  -- the spin lock free, and answers whether the continuation had an entry. Afterwards it has none,
  -- the others have theirs, and no continuation has two.
  pub remove-find :
      (c : ℕ)
      → (b : Bool) × (t' : Tracker) × (remove c t ≡ ok b t')
        × (b ≡ (elim (find_entry c t.history) [ none ↦ false | some _ ↦ true ]))
        × ((x : ℕ) → find_entry x t'.history ≡ (if c == x then none else find_entry x t.history))
        × DistinctEntries t'.history
        × (t'.lock.locked ≡ false)
  unfolding remove
  remove-find c = elim (Option-cases (find_entry c t.history)) [
    | inl missing ↦ (
      false,
      t,
      ground (arith, missing),
      ground (arith, missing),
      λ x. ground arith,
      distinct,
      unlocked,
    )
    | inr (e, present) ↦ (
      true,
      record t { history = erase_entry c t.history },
      ground (arith, present),
      ground (arith, present),
      λ x. find_entry-erase c x t.history distinct,
      DistinctEntries-erase c t.history distinct,
      unlocked,
    )
  ]
