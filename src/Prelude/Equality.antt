-- ===== src/Prelude/Equality.antt =====
-- `==` of Rust's `Eq`, by instances.
use Prim.Native.Nat.{ℕ}
use Prim.Native.String.{String}
use mathlib.Core.Path.{◌≡◌, refl}
use mathlib.Core.Logic.{◌↔◌}
use mathlib.Core.Bool.{Bool, true, false, ◌&&◌, ◌||◌}
use mathlib.Core.List.{List, [], ◌∷◌}
use native.Mathlib.Omega.{arith}
use text.Mathlib.Text.{◌==◌ as str_eq}
use text.Mathlib.TextEquality.{eq_iff as str_eq_iff}
use ferri_sync.Prelude.Tests.{eqb, eqb_iff}

-- A type whose values the program compares.
pub record Eq {ℓ} (T : Type ℓ) : Type ℓ where
  pub same : T → T → Bool
  pub same_iff : (x y : T) → (same x y ≡ true) ↔ (x ≡ y)

module _ {ℓ} {T : Type ℓ} ⦃e : Eq T⦄ where
  infix 50 ◌==◌
  abbrev pub ◌==◌ : T → T → Bool
  x == y = e.same x y

  pub eq_iff : (x y : T) → ((x == y) ≡ true) ↔ (x ≡ y)
  eq_iff x y = e.same_iff x y

  pub eq_refl : (x : T) → (x == x) ≡ true
  eq_refl x = (e.same_iff x x).1 refl

instance abbrev pub string_eq : Eq String
string_eq = record { same = str_eq; same_iff = str_eq_iff }

instance abbrev pub nat_eq : Eq ℕ
nat_eq = record { same = eqb; same_iff = eqb_iff }

module _ {ℓ κ} {A : Type ℓ} {B : Type κ} ⦃e : Eq A⦄ ⦃d : Eq B⦄ where
  abbrev pair_same : A × B → A × B → Bool
  pair_same (a, b) (a', b') = (a == a') && (b == b')

  pub pair_same_iff : (x y : A × B) → (pair_same x y ≡ true) ↔ (x ≡ y)
  pair_same_iff (a, b) (a', b') = ground (arith, e.same_iff a a', d.same_iff b b')

  instance abbrev pub pair_eq : Eq (A × B)
  pair_eq = record { same = pair_same; same_iff = pair_same_iff }

module _ {ℓ} {A : Type ℓ} ⦃e : Eq A⦄ where
  abbrev list_same : List A → List A → Bool
  list_same [] [] = true
  list_same [] (y ∷ ys) = false
  list_same (x ∷ xs) [] = false
  list_same (x ∷ xs) (y ∷ ys) = (x == y) && list_same xs ys

  pub list_same_iff : (xs ys : List A) → (list_same xs ys ≡ true) ↔ (xs ≡ ys)
  list_same_iff [] [] = (λ _. refl, λ _. refl)
  list_same_iff [] (y ∷ ys) = ground arith
  list_same_iff (x ∷ xs) [] = ground arith
  list_same_iff (x ∷ xs) (y ∷ ys) = ground (arith, e.same_iff x y, list_same_iff xs ys)

  instance abbrev pub list_eq : Eq (List A)
  list_eq = record { same = list_same; same_iff = list_same_iff }

  -- `iter().any(|x| x == a)`, `contains`
  abbrev pub contains : A → List A → Bool
  contains a [] = false
  contains a (x ∷ xs) = (x == a) || contains a xs

  abbrev pub Distinct : List A → Type 0
  Distinct [] = Unit {0}
  Distinct (x ∷ xs) = (contains x xs ≡ false) × Distinct xs
