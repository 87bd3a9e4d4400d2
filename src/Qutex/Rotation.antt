-- ===== src/Qutex/Rotation.antt =====
-- What the rotation of `Qutex::backoff` does to the queue.
use mathlib.Core.List.{Perm, perm_middle}
use libspinscale.Base.{
  ℕ, zero, suc, ◌+◌, ◌≤◌, ◌≡◌, refl, ap, min, List, [], ◌∷◌, ◌++◌, arith, ltb, length, take, drop,
  take-append-drop, Bool-cases, inl, inr, subst, sym, ◌≢◌,
}
use libspinscale.Qutex.{Entry, rotate, splice_front, advance}
use libspinscale.Qutex.Positions.{position, Absent, Distinct}

-- The front entry behind the next `k`.
abbrev pub behind {ℓ} : {A : Type ℓ} → ℕ → A → List A → List A
behind k e es = take k es ++ e ∷ drop k es

advance-le : (i : ℕ) (es : List Entry) (pos : ℕ) → i ≤ length es → advance i es pos ≡ pos + i
unfolding advance
advance-le zero es pos h = omega arith
advance-le (suc i) [] pos h = absurd (omega arith)
advance-le (suc i) (e ∷ es) pos h = omega (arith, advance-le i es (suc pos) (omega arith))

behind-length : (k : ℕ) (e : Entry) (es : List Entry) → length es ≤ k → behind k e es ≡ es ++ e ∷ []
behind-length zero e [] h = refl
behind-length (suc k) e [] h = refl
behind-length zero e (x ∷ es) h = absurd (omega arith)
behind-length (suc k) e (x ∷ es) h = ap (◌∷◌ x) (behind-length k e es (omega arith))

advance-begin : (i : ℕ) (es : List Entry) → i ≤ length es → advance i es 0 ≡ i
advance-begin i es h = omega (arith, advance-le i es 0 h)

-- The front entry moves behind the next `n - 1`, or to the back if there are not as many.
pub rotate-behind : (n : ℕ) (e : Entry) (es : List Entry) → rotate (suc n) (e ∷ es) ≡ behind n e es
unfolding rotate splice_front
rotate-behind n e es = elim (Bool-cases (ltb (suc n) (length (e ∷ es)))) [
  | inl inside ↦ rw (inside, advance-begin (suc n) (e ∷ es) (ground arith))
  | inr back ↦
      rw (back, behind-length n e es (ground arith), behind-length (length es) e es (omega arith))
]

pub behind-perm {ℓ} : {A : Type ℓ} (k : ℕ) (e : A) (es : List A) → Perm (behind k e es) (e ∷ es)
behind-perm k e es =
    subst (λ w. Perm (behind k e es) (e ∷ w)) (take-append-drop k es)
      (perm_middle (take k es) (drop k es))

pub length-behind : (k : ℕ) (e : Entry) (es : List Entry) → length (behind k e es) ≡ suc (length es)
length-behind zero e es = refl
length-behind (suc k) e [] = refl
length-behind (suc k) e (x ∷ es) = ap suc (length-behind k e es)

pub Absent-behind :
    (k lv : ℕ) (e : Entry) (es : List Entry)
    → e.lockvoker ≢ lv
    → Absent lv es
    → Absent lv (behind k e es)
Absent-behind zero lv e es h a = (h, a)
Absent-behind (suc k) lv e [] h a = (h, tt)
Absent-behind (suc k) lv e (x ∷ es) h a = (a.0, Absent-behind k lv e es h a.1)

pub Distinct-behind :
    (k : ℕ) (e : Entry) (es : List Entry) → Distinct (e ∷ es) → Distinct (behind k e es)
Distinct-behind zero e es d = d
Distinct-behind (suc k) e [] d = d
Distinct-behind (suc k) e (x ∷ es) (a, (b, d)) =
    (Absent-behind k x.lockvoker e es (λ p. a.0 (sym p)) b, Distinct-behind k e es (a.1, d))

-- The entry that was in front has the position at which it was put.
pub position-behind :
    (k lv : ℕ) (e : Entry) (es : List Entry)
    → e.lockvoker ≡ lv
    → Absent lv es
    → position lv (behind k e es) ≡ min k (length es)
position-behind zero lv e es h a = ground arith
position-behind (suc k) lv e [] h a = ground arith
position-behind (suc k) lv e (x ∷ es) h a = ground (arith, position-behind k lv e es h a.1)
