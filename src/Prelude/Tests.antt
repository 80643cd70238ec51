-- ===== src/Prelude/Tests.antt =====
-- Boolean tests on numbers, the conditional, and decidable equality as an interface.
use Prim.Native.Nat.{ℕ, compare, Ordering}
use Prim.Native.String.{String, ◌++◌ as ◌<>◌}
use mathlib.Core.Path.{◌≡◌, refl}
use mathlib.Core.Logic.{◌↔◌, ◌⊎◌, inl, inr}
use mathlib.Core.Bool.{Bool, true, false, ◌&&◌}
use mathlib.Core.Option.{Option, none, some}
use mathlib.Core.List.{List, [], ◌∷◌}
use native.Mathlib.Omega.{arith}
use text.Mathlib.Text.{◌==◌ as str_eq}
use text.Mathlib.TextEquality.{eq_iff}

abbrev pub ltb : ℕ → ℕ → Bool
ltb a b = elim (compare a b) [ Ordering.lt ↦ true | _ ↦ false ]

abbrev pub leb : ℕ → ℕ → Bool
leb a b = elim (compare a b) [ Ordering.gt ↦ false | _ ↦ true ]

abbrev pub nat_eq : ℕ → ℕ → Bool
nat_eq a b = elim (compare a b) [ Ordering.eq ↦ true | _ ↦ false ]

infix 1 if◌then◌else◌
abbrev pub if◌then◌else◌ {ℓ} : {A : Type ℓ} → Bool → A → A → A
if true then x else y = x
if false then x else y = y

pub nat_eq_iff : (a b : ℕ) → (nat_eq a b ≡ true) ↔ (a ≡ b)
nat_eq_iff a b = ground arith

-- To split on a computed value and keep the equation.
pub Bool-cases : (b : Bool) → (b ≡ true) ⊎ (b ≡ false)
Bool-cases true = inl refl
Bool-cases false = inr refl

pub Option-cases {ℓ} : {A : Type ℓ} (o : Option A) → (o ≡ none) ⊎ ((a : A) × (o ≡ some a))
Option-cases none = inl refl
Option-cases (some a) = inr (a, refl)

pub some-inj {ℓ} : {A : Type ℓ} {a b : A} → some a ≡ some b → a ≡ b
some-inj h = cc

-- A type whose Python `==` the model decides.
pub record Eq {ℓ} (V : Type ℓ) : Type ℓ where
  pub same : V → V → Bool
  pub same_iff : (v w : V) → (same v w ≡ true) ↔ (v ≡ w)

-- An f-string's parts, joined.
abbrev pub concat : String → String → String
concat = ◌<>◌

instance abbrev pub string_Eq : Eq String
string_Eq = record { same = str_eq; same_iff = eq_iff }

instance abbrev pub nat_Eq : Eq ℕ
nat_Eq = record { same = nat_eq; same_iff = nat_eq_iff }

infix 50 ◌==◌
abbrev pub ◌==◌ {κ} : {V : Type κ} ⦃equality : Eq V⦄ → V → V → Bool
◌==◌ ⦃equality⦄ v w = equality.same v w

abbrev pub bool_eq : Bool → Bool → Bool
bool_eq true b = b
bool_eq false true = false
bool_eq false false = true

pub bool_eq_iff : (a b : Bool) → (bool_eq a b ≡ true) ↔ (a ≡ b)
bool_eq_iff a b = ground arith

instance abbrev pub bool_Eq : Eq Bool
bool_Eq = record { same = bool_eq; same_iff = bool_eq_iff }

module _ {ℓ} {A : Type ℓ} ⦃e : Eq A⦄ where
  pub eq_refl : (a : A) → (a == a) ≡ true
  eq_refl a = (e.same_iff a a).1 refl

  pub eq→path : (a b : A) → (a == b) ≡ true → a ≡ b
  eq→path a b h = (e.same_iff a b).0 h

  pub eq_ne : (a b : A) → (a == b) ≡ false → ¬ (a ≡ b)
  eq_ne a b h p = cc ((e.same_iff a b).1 p)

  pub eq_sym : (a b : A) → (a == b) ≡ (b == a)
  eq_sym a b = ground (arith, e.same_iff a b, e.same_iff b a)

  abbrev pub option_eq : Option A → Option A → Bool
  option_eq none none = true
  option_eq none (some b) = false
  option_eq (some a) none = false
  option_eq (some a) (some b) = a == b

  pub option_eq_iff : (a b : Option A) → (option_eq a b ≡ true) ↔ (a ≡ b)
  option_eq_iff none none = ground arith
  option_eq_iff none (some b) = ground arith
  option_eq_iff (some a) none = ground arith
  option_eq_iff (some a) (some b) = ground (arith, e.same_iff a b)

  abbrev pub list_eq : List A → List A → Bool
  list_eq [] [] = true
  list_eq [] (y ∷ ys) = false
  list_eq (x ∷ xs) [] = false
  list_eq (x ∷ xs) (y ∷ ys) = (x == y) && list_eq xs ys

  pub list_eq_iff : (xs ys : List A) → (list_eq xs ys ≡ true) ↔ (xs ≡ ys)
  list_eq_iff [] [] = ground arith
  list_eq_iff [] (y ∷ ys) = ground arith
  list_eq_iff (x ∷ xs) [] = ground arith
  list_eq_iff (x ∷ xs) (y ∷ ys) = ground (arith, e.same_iff x y, list_eq_iff xs ys)

instance abbrev pub option_Eq {ℓ} : {A : Type ℓ} ⦃e : Eq A⦄ → Eq (Option A)
option_Eq = record { same = option_eq; same_iff = option_eq_iff }

instance abbrev pub list_Eq {ℓ} : {A : Type ℓ} ⦃e : Eq A⦄ → Eq (List A)
list_Eq = record { same = list_eq; same_iff = list_eq_iff }

pub string_discrete : Discrete String
string_discrete s t = elim (Bool-cases (str_eq s t)) [
  | inl y ↦ yes ((eq_iff s t).0 y)
  | inr n ↦ no (eq_ne s t n)
]

abbrev pub decides {ℓ} : {A : Type ℓ} → Dec A → Bool
decides (yes a) = true
decides (no n) = false

pub decides_iff {ℓ} : {A : Type ℓ} (d : Dec A) → (decides d ≡ true) ↔ A
decides_iff (yes a) = (λ h. a, λ a. refl)
decides_iff (no n) = (λ h. cc, λ a. absurd (n a))

-- Equality of the values of a data type, from a decision.
abbrev pub discrete_Eq {ℓ} : {A : Type ℓ} → Discrete A → Eq A
discrete_Eq d = record { same = λ a b. decides (d a b); same_iff = λ a b. decides_iff (d a b) }
