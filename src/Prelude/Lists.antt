-- ===== src/Prelude/Lists.antt =====
-- Lists measured by native numbers, and the tests of a Python list or set: `in`, `any`, `all`, `<=`.
use Prim.Native.Nat.{ℕ, suc, ◌+◌}
use mathlib.Core.Logic.{◌⊎◌, inl, inr}
use mathlib.Core.Path.{◌≡◌, refl}
use mathlib.Core.Bool.{Bool, true, false, not, ◌&&◌, ◌||◌}
use mathlib.Core.Option.{Option, none, some}
use mathlib.Core.List.{List, [], ◌∷◌, ◌++◌}
use native.Mathlib.Omega.{arith}
use trace_gate_framework.Prelude.Tests.{Eq, ◌==◌}

module _ {ℓ} {A : Type ℓ} where
  abbrev pub length : List A → ℕ
  length [] = 0
  length (x ∷ xs) = suc (length xs)

  pub length-append : (xs ys : List A) → length (xs ++ ys) ≡ length xs + length ys
  length-append [] ys = omega arith
  length-append (x ∷ xs) ys = omega (arith, length-append xs ys)

  unfoldable pub any : (A → Bool) → List A → Bool
  any p [] = false
  any p (x ∷ xs) = p x || any p xs

  unfoldable pub all : (A → Bool) → List A → Bool
  all p [] = true
  all p (x ∷ xs) = p x && all p xs

  abbrev pub is_empty : List A → Bool
  is_empty [] = true
  is_empty (x ∷ xs) = false

  -- `xs[0]` and `xs[-1]`
  abbrev pub head? : List A → Option A
  head? [] = none
  head? (x ∷ xs) = some x

  abbrev pub last? : List A → Option A
  last? [] = none
  last? (x ∷ []) = some x
  last? (x ∷ y ∷ xs) = last? (y ∷ xs)

  -- A predicate of every element, in a form that computes to tuples.
  abbrev pub All {κ} : (A → Type κ) → List A → Type κ
  All P [] = Unit
  All P (x ∷ xs) = P x × All P xs

-- `x` is an element of the list.
abbrev pub Among : {A : Type 0} → A → List A → Type 0
Among x [] = ⊥
Among x (y ∷ ys) = (x ≡ y) ⊎ Among x ys

pub Among-append :
    {A : Type 0} (x : A) (xs ys : List A) → Among x (xs ++ ys) → Among x xs ⊎ Among x ys
Among-append x [] ys m = inr m
Among-append x (z ∷ xs) ys (inl same) = inl (inl same)
Among-append x (z ∷ xs) ys (inr later) = elim (Among-append x xs ys later) [
  | inl m ↦ inl (inr m)
  | inr m ↦ inr m
]

pub All-Among :
    {A : Type 0} (xs ys : List A) → ((x : A) → Among x xs → Among x ys) → All (λ x. Among x ys) xs
All-Among [] ys h = tt
All-Among (x ∷ xs) ys h = (h x (inl refl), All-Among xs ys (λ z m. h z (inr m)))

module _ {ℓ κ} {A : Type ℓ} (P : A → Type κ) where
  pub All-append : (xs ys : List A) → All P xs → All P ys → All P (xs ++ ys)
  All-append [] ys hx hy = hy
  All-append (x ∷ xs) ys hx hy = (hx.0, All-append xs ys hx.1 hy)

module _ {ℓ} {A : Type ℓ} ⦃e : Eq A⦄ where
  -- `x in xs`
  unfoldable pub contains : A → List A → Bool
  contains a [] = false
  contains a (x ∷ xs) = (x == a) || contains a xs

  -- `set(xs) <= set(ys)`
  unfoldable pub subset : List A → List A → Bool
  subset [] ys = true
  subset (x ∷ xs) ys = contains x ys && subset xs ys

  -- `len(xs) == len(set(xs))`
  unfoldable pub is_unique : List A → Bool
  unfolding contains
  is_unique [] = true
  is_unique (x ∷ xs) = not (contains x xs) && is_unique xs

  pub contains-append :
      (a : A) (xs ys : List A) → contains a (xs ++ ys) ≡ (contains a xs || contains a ys)
  unfolding contains
  contains-append a [] ys = refl
  contains-append a (x ∷ xs) ys = ground (arith, contains-append a xs ys)

  pub subset_lem :
      (xs ys : List A) (a : A) → subset xs ys ≡ true → contains a xs ≡ true → contains a ys ≡ true
  unfolding subset contains
  subset_lem [] ys a s m = ground arith
  subset_lem (x ∷ xs) ys a s m = ground (arith, e.same_iff x a, subset_lem xs ys a)
