-- ===== src/MultiAgent/Paths/Cover.antt =====
-- Lists of roots of multi_agent.py as sets of locations: no reported overlap means none shared.
use trace_gate_framework.Prelude.{
  ◌≡◌, ◌⊎◌, inl, inr, ◌||◌, false, Bool, List, [], ◌∷◌, ◌++◌, arith, any, refl, contains, subset,
  Bool-cases, ◌==◌, eq→path, sym, subst, true,
}
use trace_gate_framework.MultiAgent.Paths.{FilePath, path_Eq, overlaps}
use trace_gate_framework.MultiAgent.Paths.Overlap.{IsBelow, overlaps-IsBelow}

-- Location `c` is one of the roots or lies below one.
abbrev pub Covered : FilePath → List FilePath → Type 0
Covered c [] = ⊥
Covered c (x ∷ xs) = IsBelow c x ⊎ Covered c xs

abbrev pub Disjoint : List FilePath → List FilePath → Type 0
Disjoint xs ys = (c : FilePath) → Covered c xs → Covered c ys → ⊥

pub any-append {ℓ} :
    {A : Type ℓ} (p : A → Bool) (xs ys : List A) → any p (xs ++ ys) ≡ (any p xs || any p ys)
unfolding any
any-append p [] ys = refl
any-append p (x ∷ xs) ys = ground (arith, any-append p xs ys)

root-Disjoint :
    (a : FilePath) (ys : List FilePath)
    → any (λ b. overlaps a b) ys ≡ false
    → (c : FilePath) → IsBelow c a
    → Covered c ys
    → ⊥
unfolding any
root-Disjoint a (y ∷ ys) h c p (inl q) = overlaps-IsBelow a y c (ground arith) p q
root-Disjoint a (y ∷ ys) h c p (inr q) = root-Disjoint a ys (ground arith) c p q
root-Disjoint a [] h c p q = q

pub any-Disjoint :
    (xs ys : List FilePath) → any (λ a. any (λ b. overlaps a b) ys) xs ≡ false → Disjoint xs ys
unfolding any
any-Disjoint [] ys h c p q = p
any-Disjoint (x ∷ xs) ys h c (inl p) q = root-Disjoint x ys (ground arith) c p q
any-Disjoint (x ∷ xs) ys h c (inr p) q = any-Disjoint xs ys (ground arith) c p q

contains-Covered :
    (c x : FilePath) (ys : List FilePath) → contains x ys ≡ true → IsBelow c x → Covered c ys
unfolding contains
contains-Covered c x [] m p = cc
contains-Covered c x (y ∷ ys) m p = elim (Bool-cases (y == x)) [
  | inl e ↦ inl (subst (IsBelow c) (sym (eq→path y x e)) p)
  | inr n ↦ inr (contains-Covered c x ys (rw n at m) p)
]

-- Roots that are all among other roots cover no more than those.
pub subset-Covered :
    (c : FilePath) (xs ys : List FilePath) → subset xs ys ≡ true → Covered c xs → Covered c ys
unfolding subset
subset-Covered c [] ys s p = absurd p
subset-Covered c (x ∷ xs) ys s (inl p) = contains-Covered c x ys (ground arith) p
subset-Covered c (x ∷ xs) ys s (inr p) = subset-Covered c xs ys (ground arith) p
