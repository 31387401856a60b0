-- ===== src/Prelude/Tests.antt =====
-- Boolean tests on numbers, options and finite types, and the conditional.
use Prim.Native.Nat.{ℕ, ◌≤◌, ◌<◌, compare, Ordering}
use Prim.Native.String.{String}
use text.Mathlib.Text.{◌==◌ as str_eq}
use text.Mathlib.TextEquality.{eq_iff}
use mathlib.Core.Path.{◌≡◌, refl}
use mathlib.Core.Logic.{◌↔◌, ◌⊎◌, inl, inr}
use mathlib.Core.Bool.{Bool, true, false, ◌&&◌}
use mathlib.Core.Option.{Option, none, some}
use native.Mathlib.Omega.{arith}

abbrev pub ltb : ℕ → ℕ → Bool
ltb a b = elim (compare a b) [ Ordering.lt ↦ true | _ ↦ false ]

abbrev pub leb : ℕ → ℕ → Bool
leb a b = elim (compare a b) [ Ordering.gt ↦ false | _ ↦ true ]

infix 50 ◌==◌
abbrev pub ◌==◌ : ℕ → ℕ → Bool
a == b = elim (compare a b) [ Ordering.eq ↦ true | _ ↦ false ]

infix 1 if◌then◌else◌
abbrev pub if◌then◌else◌ {ℓ} : {A : Type ℓ} → Bool → A → A → A
if true then x else y = x
if false then x else y = y

pub ltb→lt : (a b : ℕ) → ltb a b ≡ true → a < b
ltb→lt a b h = ground arith

pub lt→ltb : (a b : ℕ) → a < b → ltb a b ≡ true
lt→ltb a b h = ground arith

pub leb→le : (a b : ℕ) → leb a b ≡ true → a ≤ b
leb→le a b h = ground arith

pub ==_iff : (a b : ℕ) → ((a == b) ≡ true) ↔ (a ≡ b)
==_iff a b = ground arith

-- To split on a computed value and keep the equation.
pub Bool-cases : (b : Bool) → (b ≡ true) ⊎ (b ≡ false)
Bool-cases true = inl refl
Bool-cases false = inr refl

pub &&-eq-true : {a b : Bool} → (a && b) ≡ true → (a ≡ true) × (b ≡ true)
&&-eq-true h = ground arith

module _ {ℓ} {A : Type ℓ} where
  abbrev pub is_some : Option A → Bool
  is_some none = false
  is_some (some _) = true

  pub is_some-eq-true : (o : Option A) → is_some o ≡ true → (a : A) × (o ≡ some a)
  is_some-eq-true none h = cc
  is_some-eq-true (some a) h = (a, refl)

-- `column = ?` on a nullable column: NULL equals nothing.
abbrev pub has_num : Option ℕ → ℕ → Bool
has_num none k = false
has_num (some j) k = j == k

abbrev pub has_text : Option String → String → Bool
has_text none k = false
has_text (some j) k = str_eq j k

pub has_num-eq : (o : Option ℕ) (k : ℕ) → has_num o k ≡ true → o ≡ some k
has_num-eq none k h = cc
has_num-eq (some j) k h = ground arith

pub has_text-eq : (o : Option String) (k : String) → has_text o k ≡ true → o ≡ some k
has_text-eq none k h = cc
has_text-eq (some j) k h = ground (arith, eq_iff j k)

pub Option-cases {ℓ} : {A : Type ℓ} (o : Option A) → (o ≡ none) ⊎ ((a : A) × (o ≡ some a))
Option-cases none = inl refl
Option-cases (some a) = inr (a, refl)
