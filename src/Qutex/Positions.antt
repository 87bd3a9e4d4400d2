-- ===== src/Qutex/Positions.antt =====
-- Where a lockvoker stands in a queue, and what the scan of the rear entries sees.
use mathlib.Core.List.{reverse-cons}
use libspinscale.Base.{
  sym, ℕ, zero, suc, ◌-◌, ◌<◌, ◌≡◌, refl, ◌≢◌, Bool, true, false, ◌&&◌, List, [], ◌∷◌, ◌++◌,
  reverse, arith, ltb, leb, ◌==◌, if◌then◌else◌, length, drop, length-reverse, Bool-cases, ltb→lt,
  ==_iff, subst, inl, inr,
}
use libspinscale.Qutex.{Entry, scan_rear}

-- The number of entries before the lockvoker's; the length of the queue if it has none.
abbrev pub position : ℕ → List Entry → ℕ
position lv [] = 0
position lv (e ∷ es) = if e.lockvoker == lv then 0 else suc (position lv es)

abbrev pub InQueue : ℕ → List Entry → Type 0
InQueue lv es = position lv es < length es

abbrev pub Absent : ℕ → List Entry → Type 0
Absent lv [] = Unit
Absent lv (e ∷ es) = (e.lockvoker ≢ lv) × Absent lv es

-- Each lockvoker is registered once, as by one `registerInQutexQueues` per continuation.
abbrev pub Distinct : List Entry → Type 0
Distinct [] = Unit
Distinct (e ∷ es) = Absent e.lockvoker es × Distinct es

pub Absent-concat :
    (d : ℕ) (es : List Entry) (e : Entry) → Absent d es → e.lockvoker ≢ d → Absent d (es ++ e ∷ [])
Absent-concat d [] e a h = (h, tt)
Absent-concat d (x ∷ es) e a h = (a.0, Absent-concat d es e a.1 h)

pub Distinct-concat :
    (es : List Entry) (e : Entry) → Distinct es → Absent e.lockvoker es → Distinct (es ++ e ∷ [])
Distinct-concat [] e d a = (tt, tt)
Distinct-concat (x ∷ es) e d a =
    (Absent-concat x.lockvoker es e d.0 (λ h. a.0 (sym h)), Distinct-concat es e d.1 a.1)

abbrev pub contains : List Entry → ℕ → Bool
contains [] lv = false
contains (e ∷ es) lv = if e.lockvoker == lv then true else contains es lv

scan_rear-nil : (k lv : ℕ) → scan_rear k [] lv ≡ false
unfolding scan_rear
scan_rear-nil zero lv = refl
scan_rear-nil (suc k) lv = refl

scan_rear-concat :
    (k : ℕ) (es : List Entry) (e : Entry) (lv : ℕ)
    → scan_rear k (es ++ e ∷ []) lv
      ≡ (if scan_rear k es lv then true else ltb (length es) k && e.lockvoker == lv)
unfolding scan_rear
scan_rear-concat zero es e lv = ground arith
scan_rear-concat (suc k) [] e lv = ground (arith, scan_rear-nil k lv)
scan_rear-concat (suc k) (x ∷ es) e lv = ground (arith, scan_rear-concat k es e lv)

drop-sub_cons {ℓ} :
    {A : Type ℓ} (k : ℕ) (x : A) (xs : List A)
    → drop (length (x ∷ xs) - k) (x ∷ xs)
      ≡ (if ltb (length xs) k then x ∷ xs else drop (length xs - k) xs)
drop-sub_cons k x xs = elim (Bool-cases (ltb (length xs) k)) [
  | inl far ↦ let e : suc (length xs) - k ≡ 0 = omega (arith, ltb→lt _ _ far) in rw (far, e)
  | inr near ↦ let e : suc (length xs) - k ≡ suc (length xs - k) = ground arith in rw (near, e)
]

drop-sub_far {ℓ} : {A : Type ℓ} (k : ℕ) (xs : List A) → length xs < k → drop (length xs - k) xs ≡ xs
drop-sub_far k xs h = let e : length xs - k ≡ 0 = omega arith in rw e

-- The rear `k` entries are those behind the first `length - k`.
pub scan_rear-reverse :
    (k : ℕ) (es : List Entry) (lv : ℕ)
    → scan_rear k (reverse es) lv ≡ contains (drop (length es - k) es) lv
scan_rear-reverse k [] lv = let e : 0 - k ≡ 0 = omega arith in rw e (scan_rear-nil k lv)
scan_rear-reverse k (e ∷ es) lv =
    rw
      (
        reverse-cons e es,
        scan_rear-concat k (reverse es) e lv,
        length-reverse es,
        drop-sub_cons k e es,
      )
      (ground (arith, scan_rear-reverse k es lv, drop-sub_far k es))

position-Absent : (es : List Entry) (lv : ℕ) → Absent lv es → position lv es ≡ length es
position-Absent [] lv a = refl
position-Absent (e ∷ es) lv a = ground (arith, position-Absent es lv a.1)

contains-drop-Absent :
    (m : ℕ) (es : List Entry) (lv : ℕ) → Absent lv es → contains (drop m es) lv ≡ false
contains-drop-Absent zero [] lv a = refl
contains-drop-Absent zero (e ∷ es) lv a = ground (arith, contains-drop-Absent zero es lv a.1)
contains-drop-Absent (suc m) [] lv a = refl
contains-drop-Absent (suc m) (e ∷ es) lv a = contains-drop-Absent m es lv a.1

contains-InQueue : (es : List Entry) (lv : ℕ) → InQueue lv es → contains es lv ≡ true
contains-InQueue [] lv h = absurd (omega arith)
contains-InQueue (e ∷ es) lv h = ground (arith, contains-InQueue es lv)

-- With distinct entries, the part behind the first `m` holds the lockvoker exactly if it stands there.
pub contains-drop :
    (m : ℕ) (es : List Entry) (lv : ℕ)
    → Distinct es
    → InQueue lv es
    → contains (drop m es) lv ≡ leb m (position lv es)
contains-drop m [] lv d h = absurd (omega arith)
contains-drop zero (e ∷ es) lv d h = ground (arith, contains-InQueue (e ∷ es) lv h)
contains-drop (suc m) (e ∷ es) lv d h = elim (Bool-cases (e.lockvoker == lv)) [
  | inl same ↦
      let a = subst (λ (x : ℕ). Absent x es) ((==_iff _ _).0 same) d.0 in
      rw same (ground (arith, contains-drop-Absent m es lv a))
  | inr other ↦ ground (arith, contains-drop m es lv d.1)
]
