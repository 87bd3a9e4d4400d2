-- ===== src/LockerAndInvoker/Lines.antt =====
-- A qutex with a line of continuations that wait for nothing else.
use libspinscale.Base.{
  ℕ, ◌≡◌, ◌≢◌, refl, sym, ◌∙◌, Bool, true, false, Option, none, some, List, [], ◌∷◌, arith,
  update_ne,
}
use libspinscale.Qutex.{Entry, IsUnlocked}
use libspinscale.Qutex.Positions.{Distinct, Absent}
use libspinscale.Qutex.Release.{front?}
use libspinscale.World.{World, LockSet, awaken, awaken_waiter}
use libspinscale.LockerAndInvoker.Serving.{single}

abbrev pub AllSingle : ℕ → (ℕ → LockSet) → List Entry → Type 0
AllSingle a f [] = Unit
AllSingle a f (e ∷ es) = (f e.lockvoker ≡ single a e) × AllSingle a f es

abbrev pub AllAsleep : (ℕ → Bool) → List Entry → Type 0
AllAsleep f [] = Unit
AllAsleep f (e ∷ es) = (f e.lockvoker ≡ false) × AllAsleep f es

-- Who is posted: the front of the queue.
abbrev pub first_post : (ℕ → ℕ) → List Entry → List (ℕ × ℕ)
first_post target [] = []
first_post target (e ∷ es) = (target e.lockvoker, e.lockvoker) ∷ []

abbrev pub rest_of : List Entry → List Entry
rest_of [] = []
rest_of (e ∷ es) = es

-- The qutex is free, its queue holds continuations that wait for nothing else, and the front is
-- posted while the others sleep.
pub record IsLine (a : ℕ) (es : List Entry) (w : World) : Type 0 where
  pub unlocked : IsUnlocked (w.qutex a)
  pub unowned : (w.qutex a).is_owned ≡ false
  pub queue : (w.qutex a).queue ≡ es
  pub distinct : Distinct es
  pub single_ : AllSingle a w.lock_set es
  pub posted : w.posted ≡ first_post w.target es
  pub asleep_ : AllAsleep w.is_awake (rest_of es)

module _ (c : ℕ) where
  pub AllSingle-update :
      (a : ℕ) (f f' : ℕ → LockSet) (es : List Entry)
      → ((d : ℕ) → c ≢ d → f' d ≡ f d)
      → Absent c es
      → AllSingle a f es
      → AllSingle a f' es
  AllSingle-update a f f' [] same n h = tt
  AllSingle-update a f f' (e ∷ es) same n h =
      (same e.lockvoker (λ k. n.0 (sym k)) ∙ h.0, AllSingle-update a f f' es same n.1 h.1)

  pub AllAsleep-update :
      (f f' : ℕ → Bool) (es : List Entry)
      → ((d : ℕ) → c ≢ d → f' d ≡ f d)
      → Absent c es
      → AllAsleep f es
      → AllAsleep f' es
  AllAsleep-update f f' [] same n h = tt
  AllAsleep-update f f' (e ∷ es) same n h =
      (same e.lockvoker (λ k. n.0 (sym k)) ∙ h.0, AllAsleep-update f f' es same n.1 h.1)

pub awaken_waiter-target : (o : Option ℕ) (w : World) → (awaken_waiter o w).target ≡ w.target
unfolding awaken awaken_waiter
awaken_waiter-target none w = refl
awaken_waiter-target (some v) w = ground arith

-- Awakening the front of a queue that sleeps posts it, and no other.
pub awaken_front-posted :
    (es : List Entry) (w : World)
    → w.posted ≡ []
    → AllAsleep w.is_awake es
    → (awaken_waiter (front? es) w).posted ≡ first_post w.target es
unfolding awaken awaken_waiter
awaken_front-posted [] w h k = h
awaken_front-posted (e ∷ es) w h k = ground (arith, h, k.0)

pub awaken_front-AllAsleep :
    (es : List Entry) (w : World)
    → Distinct es
    → AllAsleep w.is_awake es
    → AllAsleep (awaken_waiter (front? es) w).is_awake (rest_of es)
unfolding awaken awaken_waiter
awaken_front-AllAsleep [] w d k = tt
awaken_front-AllAsleep (e ∷ es) w d k =
    AllAsleep-update e.lockvoker w.is_awake (awaken_waiter (some e.lockvoker) w).is_awake es
      (λ c n. ground (arith, update_ne w.is_awake e.lockvoker true c n)) d.0 k.1
