-- ===== src/LockerAndInvoker/Awakening.antt =====
-- Posts of lockvokers to their io_services, in every interleaving of the threads: the first wake,
-- `awaken` by a qutex, the run of a posted lockvoker, and its two ends.
use native.Mathlib.Decide.{ℕ_discrete}
use libspinscale.Base.{
  ℕ, suc, ◌+◌, ◌-◌, ◌<◌, ◌≡◌, refl, sym, update_self, update_ne, subst, ap, ◌∙◌, ◌⊎◌, inl, inr,
  Bool, Option, true, false, List, [], ◌∷◌, ◌++◌, update, if◌then◌else◌, ◌==◌, arith,
}
use libspinscale.Outcome.{M, ok}
use libspinscale.Qutex.{Qutex}
use libspinscale.World.{World, LockSet, awaken}
use libspinscale.LockerAndInvoker.{
  Process, Verdict, first_wake_statements, allow_awakening, fall_asleep, run_target,
}
use libspinscale.LockerAndInvoker.Quiet.{Quiet, register-Quiet, fall_asleep-world, run_target-Quiet}

-- `waking` holds the statements that are left of a first wake under way, and `attempting` counts the
-- runs between their dequeueing and either `allowAwakening` or the invocation of the target.
pub record Wakes : Type 0 where
  pub world : World
  pub waking : ℕ → List (M World (Unit {0}))
  pub attempting : ℕ → ℕ

-- The next statement, and those behind it.
abbrev pub run_next : List (M World (Unit {0})) → M World (Unit {0})
run_next [] w = ok tt w
run_next (m ∷ ms) w = m w

abbrev pub tail : List (M World (Unit {0})) → List (M World (Unit {0}))
tail [] = []
tail (m ∷ ms) = ms

abbrev pub is_waking : List (M World (Unit {0})) → ℕ
is_waking [] = 0
is_waking (m ∷ ms) = 1

abbrev pub is_one : ℕ → ℕ → ℕ
is_one c d = if c == d then 1 else 0

abbrev pub count : ℕ → List (ℕ × ℕ) → ℕ
count c [] = 0
count c (p ∷ ps) = is_one c p.1 + count c ps

count-append : (c : ℕ) (ps qs : List (ℕ × ℕ)) → count c (ps ++ qs) ≡ count c ps + count c qs
count-append c [] qs = omega arith
count-append c (p ∷ ps) qs = omega (arith, count-append c ps qs)

-- How often the lockvoker of `c` is posted, about to be, or at an attempt.
abbrev pub at_work : ℕ → Wakes → ℕ
at_work c s = count c s.world.posted + is_waking (s.waking c) + s.attempting c

abbrev pub with_world : World → Wakes → Wakes
with_world w s = record s { world = w }

abbrev pub wake_on : ℕ → List (M World (Unit {0})) → World → Wakes → Wakes
wake_on c ms w s = record s { world = w; waking = update s.waking c ms }

abbrev pub dequeue : List (ℕ × ℕ) → ℕ → Wakes → Wakes
dequeue ps c s = record s {
  world = record s.world { posted = ps };
  attempting = update s.attempting c (suc (s.attempting c));
}

abbrev pub end_attempt : ℕ → Wakes → Wakes
end_attempt c s = record s { attempting = update s.attempting c (s.attempting c - 1) }

-- A first wake begins only when no lockvoker of the continuation is at work; other threads may run
-- between its statements. An attempt ends with `fall_asleep` after a refusal and otherwise with
-- `run_target`. The locks may change at any time.
pub data Step (s : Wakes) : Wakes → Type 0 where
  first_wake_began :
      {w : World} (c : ℕ)
      → at_work c s ≡ 0
      → run_next (first_wake_statements c) s.world ≡ ok tt w
      → Step s (wake_on c (tail (first_wake_statements c)) w s)
  first_wake_went :
      {w : World} (c : ℕ)
      → is_waking (s.waking c) ≡ 1
      → run_next (s.waking c) s.world ≡ ok tt w
      → Step s (wake_on c (tail (s.waking c)) w s)
  awakened : (c : ℕ) → Step s (with_world (awaken c false s.world) s)
  locks_changed :
      (f : ℕ → Qutex) (g : ℕ → LockSet)
      → Step s (with_world (record s.world { qutex = f; lock_set = g }) s)
  dequeued :
      (t c : ℕ) (ps qs : List (ℕ × ℕ))
      → s.world.posted ≡ ps ++ (t, c) ∷ qs
      → Step s (dequeue (ps ++ qs) c s)
  fell_asleep :
      (debug_locks likely : Bool) (c : ℕ) (o : Option ℕ) (p p' : Process) (v : Verdict)
      → 0 < s.attempting c
      → p.world ≡ s.world
      → fall_asleep debug_locks c likely o p ≡ ok v p'
      → Step s (end_attempt c (with_world p'.world s))
  invoked :
      (debug_locks likely : Bool) (c : ℕ) (p p' : Process) (v : Verdict)
      → 0 < s.attempting c
      → p.world ≡ s.world
      → run_target debug_locks c likely p ≡ ok v p'
      → Step s (end_attempt c (with_world p'.world s))

pub data Steps (s : Wakes) : Wakes → Type 0 where
  here : Steps s s
  after : {s' s'' : Wakes} → Steps s s' → Step s' s'' → Steps s s''

-- At rest, or at work once and flagged.
abbrev pub IsSingle : ℕ → Wakes → Type 0
IsSingle c s = (at_work c s ≡ 0) ⊎ ((at_work c s ≡ 1) × (s.world.is_awake c ≡ true))

-- No first wake is under way, or its first one or two statements are done.
abbrev pub IsOnWay : ℕ → List (M World (Unit {0})) → Type 0
IsOnWay c ms =
    (ms ≡ []) ⊎ (ms ≡ tail (first_wake_statements c)) ⊎ (ms ≡ tail (tail (first_wake_statements c)))

pub record AllSingle (s : Wakes) : Type 0 where
  pub single : (c : ℕ) → IsSingle c s
  pub on_way : (c : ℕ) → IsOnWay c (s.waking c)

stored :
    (c : ℕ) (w w' : World)
    → run_next (first_wake_statements c) w ≡ ok tt w'
    → w' ≡ record w { is_awake = update w.is_awake c true }
unfolding first_wake_statements
stored c w w' e = ground (arith, e)

entered :
    (c : ℕ) (w w' : World) → run_next (tail (first_wake_statements c)) w ≡ ok tt w' → Quiet w w'
unfolding first_wake_statements
entered c w w' e = register-Quiet c w w' e

forced :
    (c : ℕ) (w w' : World)
    → run_next (tail (tail (first_wake_statements c))) w ≡ ok tt w'
    → w' ≡ awaken c true w
unfolding first_wake_statements
forced c w w' e = ground (arith, e)

three_statements :
    (c : ℕ)
    → (is_waking (tail (first_wake_statements c)) ≡ 1)
      × (is_waking (tail (tail (first_wake_statements c))) ≡ 1)
      × (tail (tail (tail (first_wake_statements c))) ≡ [])
unfolding first_wake_statements
three_statements c = (refl, refl, refl)

-- A change of the world that neither posts nor flags.
Quiet-IsSingle :
    (c : ℕ) (s : Wakes) (w : World) → Quiet s.world w → IsSingle c s → IsSingle c (with_world w s)
Quiet-IsSingle c s w q h = ground (arith, q.posted, q.is_awake, h)

began-IsSingle :
    (c d : ℕ) (s : Wakes) (w : World)
    → at_work d s ≡ 0
    → run_next (first_wake_statements d) s.world ≡ ok tt w
    → IsSingle c s
    → IsSingle c (wake_on d (tail (first_wake_statements d)) w s)
began-IsSingle c d s w none_ e h =
    let now = stored d s.world w e in
    let one = (three_statements d).0 in ground (arith, now, one, none_, h)

went-IsSingle :
    (c d : ℕ) (s : Wakes) (w : World)
    → is_waking (s.waking d) ≡ 1
    → run_next (s.waking d) s.world ≡ ok tt w
    → IsOnWay d (s.waking d)
    → IsSingle c s
    → IsSingle c (wake_on d (tail (s.waking d)) w s)
unfolding awaken
went-IsSingle c d s w busy e (inl over) h = absurd (ground (arith, busy, over))
went-IsSingle c d s w busy e (inr (inl at)) h =
    let q =
      entered d s.world w
        (subst (λ (ms : List (M World (Unit {0}))). run_next ms s.world ≡ ok tt w) at e) in
    let one : is_waking (tail (s.waking d)) ≡ 1 =
      ap (λ (ms : List (M World (Unit {0}))). is_waking (tail ms)) at ∙ (three_statements d).1 in
    ground (arith, q.posted, q.is_awake, one, busy, h)
went-IsSingle c d s w busy e (inr (inr at)) h =
    let now =
      forced d s.world w
        (subst (λ (ms : List (M World (Unit {0}))). run_next ms s.world ≡ ok tt w) at e) in
    let over : tail (s.waking d) ≡ [] = ap tail at ∙ (three_statements d).2 in
    ground (arith, now, over, busy, h, count-append c s.world.posted ((s.world.target d, d) ∷ []))

step-IsSingle : (c : ℕ) (s s' : Wakes) → Step s s' → AllSingle s → IsSingle c s'
unfolding awaken allow_awakening
step-IsSingle c s s' (first_wake_began {w} d none_ e) all =
    began-IsSingle c d s w none_ e (all.single c)
step-IsSingle c s s' (first_wake_went {w} d busy e) all =
    went-IsSingle c d s w busy e (all.on_way d) (all.single c)
step-IsSingle c s s' (awakened d) all =
    let h = all.single c in
    ground (arith, h, count-append c s.world.posted ((s.world.target d, d) ∷ []))
step-IsSingle c s s' (locks_changed f g) all = all.single c
step-IsSingle c s s' (dequeued t d ps qs e) all =
    let h = all.single c in
    ground (arith, h, e, count-append c ps ((t, d) ∷ qs), count-append c ps qs)
step-IsSingle c s s' (fell_asleep b likely d o p p' v busy at e) all =
    let h = all.single c in
    let now = fall_asleep-world b d likely o p p' v e ∙ ap (allow_awakening d) at in
    ground (arith, h, now, busy)
step-IsSingle c s s' (invoked b likely d p p' v busy at e) all =
    let h = all.single c in
    let q = run_target-Quiet b d likely p p' v e in
    ground (arith, h, q.posted, q.is_awake, at, busy)

IsOnWay-tail : (c : ℕ) (ms : List (M World (Unit {0}))) → IsOnWay c ms → IsOnWay c (tail ms)
IsOnWay-tail c ms (inl over) = inl (ap tail over)
IsOnWay-tail c ms (inr (inl at)) = inr (inr (ap tail at))
IsOnWay-tail c ms (inr (inr at)) = inl (ap tail at ∙ (three_statements c).2)

IsOnWay-update :
    (c d : ℕ) (ms : List (M World (Unit {0}))) (f : ℕ → List (M World (Unit {0})))
    → ((i : ℕ) → IsOnWay i (f i))
    → IsOnWay d ms
    → IsOnWay c (update f d ms c)
IsOnWay-update c d ms f h k = elim (ℕ_discrete d c) [
  | yes same ↦
      subst (λ (i : ℕ). IsOnWay i (update f d ms i)) same
        (subst (IsOnWay d) (sym (update_self f d ms)) k)
  | no other ↦ subst (IsOnWay c) (sym (update_ne f d ms c other)) (h c)
]

step-IsOnWay : (c : ℕ) (s s' : Wakes) → Step s s' → AllSingle s → IsOnWay c (s'.waking c)
step-IsOnWay c s s' (first_wake_began d none_ e) all =
    IsOnWay-update c d (tail (first_wake_statements d)) s.waking all.on_way (inr (inl refl))
step-IsOnWay c s s' (first_wake_went d busy e) all =
    IsOnWay-update c d (tail (s.waking d)) s.waking all.on_way
      (IsOnWay-tail d (s.waking d) (all.on_way d))
step-IsOnWay c s s' (awakened d) all = all.on_way c
step-IsOnWay c s s' (locks_changed f g) all = all.on_way c
step-IsOnWay c s s' (dequeued t d ps qs e) all = all.on_way c
step-IsOnWay c s s' (fell_asleep b likely d o p p' v busy at e) all = all.on_way c
step-IsOnWay c s s' (invoked b likely d p p' v busy at e) all = all.on_way c

-- Let each lockvoker be at rest, or at work once with its awake flag set: posted, in its first
-- wake after the first statement, or at an attempt. Then it is so after any sequence of steps of
-- any threads: the statements of first wakes one at a time, each first wake begun only when that
-- continuation's lockvoker is at rest, awakenings, changes of the locks, dequeueings of posted
-- lockvokers, and attempts that end in `fall_asleep` after a refusal or else in `run_target`. So a
-- lockvoker is never posted twice, nor posted while its attempt is on.
pub Steps-AllSingle : {s s' : Wakes} → Steps s s' → AllSingle s → AllSingle s'
Steps-AllSingle here all = all
Steps-AllSingle (after {s'} {s''} steps step) all =
    let before = Steps-AllSingle steps all in
    record {
      single = λ c. step-IsSingle c s' s'' step before;
      on_way = λ c. step-IsOnWay c s' s'' step before;
    }
