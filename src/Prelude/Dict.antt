-- ===== src/Prelude/Dict.antt =====
-- Python dictionaries with text keys: insertion order is kept, and a write to a key that is there
-- keeps its place.

use Prim.Native.String.{String}
use mathlib.Core.Path.{◌≡◌, refl, sym}
use mathlib.Core.Logic.{◌≢◌, ◌⊎◌, inl, inr}
use mathlib.Core.Bool.{Bool, true, false, ◌||◌}
use mathlib.Core.Option.{Option, none, some}
use mathlib.Core.List.{List, [], ◌∷◌}
use native.Mathlib.Omega.{arith}
use text.Mathlib.TextEquality.{eq_iff}
use trace_gate_framework.Prelude.Lists.{contains, is_unique}
use trace_gate_framework.Prelude.Tests.{some-inj, ◌==◌, string_Eq, if◌then◌else◌, Bool-cases, eq_ne}

abbrev pub Dict {ℓ} : Type ℓ → Type ℓ
Dict V = List (String × V)

module _ {ℓ} {V : Type ℓ} where
  -- `d.get(k)`
  unfoldable pub lookup : String → Dict V → Option V
  lookup k [] = none
  lookup k ((j, v) ∷ d) = if j == k then some v else lookup k d

  -- `k in d`
  unfoldable pub has_key : String → Dict V → Bool
  has_key k [] = false
  has_key k ((j, v) ∷ d) = (j == k) || has_key k d

  -- `d[k] = v`
  unfoldable pub insert : String → V → Dict V → Dict V
  insert k v [] = (k, v) ∷ []
  insert k v ((j, w) ∷ d) = let rest = insert k v d in if j == k then (j, v) ∷ d else (j, w) ∷ rest

  -- `del d[k]`, which leaves no entry of the key.
  unfoldable pub delete : String → Dict V → Dict V
  delete k [] = []
  delete k ((j, v) ∷ d) = let rest = delete k d in if j == k then rest else (j, v) ∷ rest

  abbrev pub keys : Dict V → List String
  keys [] = []
  keys ((j, v) ∷ d) = j ∷ keys d

  abbrev pub values : Dict V → List V
  values [] = []
  values ((j, v) ∷ d) = v ∷ values d

  pub lookup-insert :
      (k j : String) (v : V) (d : Dict V)
      → lookup j (insert k v d) ≡ (if k == j then some v else lookup j d)
  unfolding lookup insert
  lookup-insert k j v [] = refl
  lookup-insert k j v ((i, w) ∷ d) =
      ground (arith, eq_iff k j, eq_iff i k, eq_iff i j, lookup-insert k j v d)

  pub lookup-delete :
      (k j : String) (d : Dict V) → lookup j (delete k d) ≡ (if k == j then none else lookup j d)
  unfolding lookup delete
  lookup-delete k j [] = ground arith
  lookup-delete k j ((i, w) ∷ d) =
      ground (arith, eq_iff k j, eq_iff i k, eq_iff i j, lookup-delete k j d)

  pub has_key-lookup : (k : String) (d : Dict V) → has_key k d ≡ true → lookup k d ≢ none
  unfolding has_key lookup
  has_key-lookup k [] h = λ e. cc
  has_key-lookup k ((i, w) ∷ d) h = ground (arith, has_key-lookup k d)

  pub lookup-has_key : (k : String) (d : Dict V) → has_key k d ≡ false → lookup k d ≡ none
  unfolding has_key lookup
  lookup-has_key k [] h = refl
  lookup-has_key k ((i, w) ∷ d) h = ground (arith, lookup-has_key k d)

  pub contains-keys-insert :
      (k j : String) (v : V) (d : Dict V)
      → contains j (keys (insert k v d)) ≡ ((k == j) || contains j (keys d))
  unfolding insert contains
  contains-keys-insert k j v [] = refl
  contains-keys-insert k j v ((i, w) ∷ d) =
      ground (arith, eq_iff k j, eq_iff i k, eq_iff i j, contains-keys-insert k j v d)

  -- A dictionary has each key once.
  pub is_unique-insert :
      (k : String) (v : V) (d : Dict V)
      → is_unique (keys d) ≡ true
      → is_unique (keys (insert k v d)) ≡ true
  unfolding insert is_unique
  is_unique-insert k v [] h = refl
  is_unique-insert k v ((i, w) ∷ d) h =
      ground (arith, eq_iff i k, eq_iff k i, contains-keys-insert k i v d, is_unique-insert k v d)

  pub lookup-contains :
      (k : String) (d : Dict V) (v : V) → lookup k d ≡ some v → contains k (keys d) ≡ true
  unfolding lookup contains
  lookup-contains k [] v h = cc
  lookup-contains k ((i, w) ∷ d) v h = ground (arith, lookup-contains k d v)

  -- What an entry of a dictionary is, after a write.
  pub lookup-insert_cases :
      (k j : String) (v w : V) (d : Dict V)
      → lookup j (insert k v d) ≡ some w
      → ((j ≡ k) × (w ≡ v)) ⊎ ((j ≢ k) × (lookup j d ≡ some w))
  lookup-insert_cases k j v w d h = elim (Bool-cases (k == j)) [
    | inl y ↦ inl (sym ((eq_iff k j).0 y), sym (some-inj (rw (lookup-insert, y) at h)))
    | inr n ↦ inr (λ e. eq_ne k j n (sym e), (rw (lookup-insert, n) at h))
  ]
