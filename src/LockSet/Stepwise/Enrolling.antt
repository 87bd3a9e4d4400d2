-- ===== src/LockSet/Stepwise/Enrolling.antt =====
-- The calls of a registration and of its end return.
use libspinscale.Base.{
  ℕ, ◌≡◌, refl, sym, subst, update_self, Bool, true, some, List, [], ◌∷◌, ◌++◌, update, arith,
}
use libspinscale.Qutex.{Entry, Qutex, erase_node, find_node}
use libspinscale.Qutex.Registration.{
  registered, registered-found, find_node-concat, register_in_queue_lem, unregister_lem,
}
use libspinscale.World.{World, LockUsageDesc}
use libspinscale.LockSet.Stepwise.{registering, unregistering, next_call}
use libspinscale.LockSet.Stepwise.Queues.{Healthy, added, erased}
use libspinscale.LockSet.Stepwise.Enlisted.{
  IsNamed, Enlisted, AllNamed-update, AllNamed-Unnamed, AllNamed-snoc, AllAbsent-Unnamed,
}
use libspinscale.LockSet.Stepwise.Answered.{one_moved, Returns}

registered-Named :
    (c : ℕ) (d : LockUsageDesc) (q : Qutex)
    → Healthy q
    → IsNamed c (record d { iterator = q.next_node }) (registered c q)
registered-Named c d q h = record {
  entry = record { node = q.next_node; lockvoker = c };
  found = registered-found c q h.well_formed;
  own = refl;
}

registered-kept :
    (c it : ℕ) (x : Entry) (q : Qutex)
    → find_node it q.queue ≡ some x
    → find_node it (registered c q).queue ≡ some x
registered-kept c it x q f =
    let e : Entry = record { node = q.next_node; lockvoker = c } in
    ground (arith, find_node-concat it q.queue e, f)

module _ (debug_locks : Bool) (c : ℕ) (w : World) (healthy : (a : ℕ) → Healthy (w.qutex a)) where
  pub registering-Returns :
      (xs ds : List LockUsageDesc) (d : LockUsageDesc)
      → Enlisted c (w.lock_set c) (registering xs (d ∷ ds)) w.qutex
      → Returns debug_locks c w (registering xs (d ∷ ds))
  unfolding next_call
  registering-Returns xs ds d ((u, distinct), (absent, rest)) =
      let q = w.qutex d.qutex in
      let q' = registered c q in
      let call = register_in_queue_lem c q (healthy d.qutex).unlocked in
      (
        registering (xs ++ record d { iterator = q.next_node } ∷ []) ds,
        record w { qutex = update w.qutex d.qutex q' },
        ground (arith, call),
        record {
          queues = one_moved d.qutex q' (added absent refl) refl;
          enlisted = (distinct, AllAbsent-Unnamed c w.qutex d.qutex q' ds u rest);
          enrolled = λ e.
              AllNamed-snoc c xs (record d { iterator = q.next_node }) (update w.qutex d.qutex q')
                (AllNamed-update c w.qutex d.qutex q' xs (λ it x k _. registered-kept c it x q k) e)
                (subst (IsNamed c (record d { iterator = q.next_node }))
                  (sym (update_self w.qutex d.qutex q'))
                  (registered-Named c d q (healthy d.qutex)));
        },
      )

  pub unregistering-Returns :
      (ds : List LockUsageDesc) (d : LockUsageDesc)
      → Enlisted c (w.lock_set c) (unregistering (d ∷ ds)) w.qutex
      → Returns debug_locks c w (unregistering (d ∷ ds))
  unfolding next_call
  unregistering-Returns ds d ((u, distinct), (named, rest)) =
      let q = w.qutex d.qutex in
      let q' : Qutex = record q { queue = erase_node d.iterator q.queue } in
      let call = unregister_lem d.iterator true q (healthy d.qutex).unlocked named.found in
      (
        unregistering ds,
        record w { qutex = update w.qutex d.qutex q' },
        ground (arith, call),
        record {
          queues =
              one_moved d.qutex q' (erased d.iterator named.entry named.found named.own refl) refl;
          enlisted = (distinct, AllNamed-Unnamed c w.qutex d.qutex q' ds u rest);
          enrolled = λ e. absurd e;
        },
      )
