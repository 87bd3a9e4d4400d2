-- ===== src/Base/Maps.antt =====
-- A store addressed by numbers: a function, written at one address.
use Prim.Native.Nat.{ℕ, compare, Ordering}
use mathlib.Core.Path.{◌≡◌, fun_ext, subst}
use native.Mathlib.Decide.{ℕ_discrete}
use mathlib.Core.Logic.{◌≢◌}
use native.Mathlib.Omega.{arith}

abbrev pub update {ℓ} : {A : Type ℓ} → (ℕ → A) → ℕ → A → ℕ → A
update f a x b = elim (compare a b) [ Ordering.eq ↦ x | _ ↦ f b ]

pub update_self {ℓ} : {A : Type ℓ} (f : ℕ → A) (a : ℕ) (x : A) → update f a x a ≡ x
update_self f a x = ground arith

pub update_ne {ℓ} : {A : Type ℓ} (f : ℕ → A) (a : ℕ) (x : A) (b : ℕ) → a ≢ b → update f a x b ≡ f b
update_ne f a x b h = ground arith

update_at {ℓ} : {A : Type ℓ} (f : ℕ → A) (a b : ℕ) → update f a (f a) b ≡ f b
update_at f a b = elim (ℕ_discrete a b) [
  | yes e ↦ subst (λ (x : ℕ). update f a (f a) x ≡ f x) e (update_self f a (f a))
  | no h ↦ update_ne f a (f a) b h
]

pub update_same {ℓ} : {A : Type ℓ} (f : ℕ → A) (a : ℕ) → update f a (f a) ≡ f
update_same f a = fun_ext (λ b. update_at f a b)
