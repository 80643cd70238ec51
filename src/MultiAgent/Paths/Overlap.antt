-- ===== src/MultiAgent/Paths/Overlap.antt =====
-- What `overlaps` of multi_agent.py decides: whether the subtrees of two paths share a location.
use mathlib.Core.List.{append-nil}
use trace_gate_framework.Prelude.{
  String, ◌≡◌, refl, sym, ◌∙◌, ◌↔◌, inl, inr, Bool, true, false, ◌&&◌, ◌||◌, List, [], ◌∷◌, ◌++◌,
  map, arith, ◌==◌, string_Eq, bool_Eq, list_Eq, list_eq, contains, Bool-cases, list_eq_iff,
  bool_eq_iff, string_eq_iff,
}
use trace_gate_framework.MultiAgent.Paths.{FilePath, path_Eq, proper_prefixes, parents, overlaps}

is_prefix : List String → List String → Bool
is_prefix [] ys = true
is_prefix (x ∷ xs) [] = false
is_prefix (x ∷ xs) (y ∷ ys) = (x == y) && is_prefix xs ys

-- Location `c` is `root` itself or lies below it.
pub record IsBelow (c root : FilePath) : Type 0 where
  pub anchor : c.absolute ≡ root.absolute
  pub rest : List String
  pub parts : c.parts ≡ root.parts ++ rest

IsBelow-self : (a : FilePath) → IsBelow a a
IsBelow-self a = record { anchor = refl; rest = []; parts = sym (append-nil a.parts) }

contains-map-cons :
    (x y : String) (ys : List String) (l : List (List String))
    → contains (y ∷ ys) (map (λ zs. x ∷ zs) l) ≡ ((x == y) && contains ys l)
unfolding contains
contains-map-cons x y ys [] = ground arith
contains-map-cons x y ys (z ∷ l) = ground (arith, contains-map-cons x y ys l)

contains-map-cons_nil :
    (x : String) (l : List (List String)) → contains [] (map (λ zs. x ∷ zs) l) ≡ false
unfolding contains
contains-map-cons_nil x [] = refl
contains-map-cons_nil x (z ∷ l) = contains-map-cons_nil x l

is_prefix_lem :
    (xs ys : List String) → is_prefix xs ys ≡ (list_eq xs ys || contains xs (proper_prefixes ys))
unfolding is_prefix contains proper_prefixes
is_prefix_lem [] [] = refl
is_prefix_lem [] (y ∷ ys) = refl
is_prefix_lem (x ∷ xs) [] = refl
is_prefix_lem (x ∷ xs) (y ∷ ys) = ground (
  arith,
  is_prefix_lem xs ys,
  contains-map-cons y x xs (proper_prefixes ys),
  string_eq_iff x y,
  string_eq_iff y x,
)

contains-map-path :
    (p : FilePath) (b : Bool) (l : List (List String))
    → contains p (map (λ xs. record { absolute = b; parts = xs }) l)
      ≡ ((b == p.absolute) && contains p.parts l)
unfolding contains
contains-map-path p b [] = ground arith
contains-map-path p b (z ∷ l) = ground (arith, contains-map-path p b l)

overlaps-is_prefix :
    (a b : FilePath)
    → overlaps a b
      ≡ ((a.absolute == b.absolute) && (is_prefix a.parts b.parts || is_prefix b.parts a.parts))
unfolding overlaps parents
overlaps-is_prefix a b = ground (
  arith,
  contains-map-path a b.absolute (proper_prefixes b.parts),
  contains-map-path b a.absolute (proper_prefixes a.parts),
  is_prefix_lem a.parts b.parts,
  is_prefix_lem b.parts a.parts,
  list_eq_iff a.parts b.parts,
  list_eq_iff b.parts a.parts,
)

is_prefix-common :
    (xs ys r s : List String) → xs ++ r ≡ ys ++ s → (is_prefix xs ys || is_prefix ys xs) ≡ true
unfolding is_prefix
is_prefix-common [] ys r s h = refl
is_prefix-common (x ∷ xs) [] r s h = refl
is_prefix-common (x ∷ xs) (y ∷ ys) r s h =
    ground (arith, string_eq_iff x y, string_eq_iff y x, is_prefix-common xs ys r s)

is_prefix-rest : (xs ys : List String) → is_prefix xs ys ≡ true → (r : List String) × (ys ≡ xs ++ r)
unfolding is_prefix
is_prefix-rest [] ys h = (ys, refl)
is_prefix-rest (x ∷ xs) [] h = cc
is_prefix-rest (x ∷ xs) (y ∷ ys) h =
    let (r, e) = is_prefix-rest xs ys (ground arith) in (r, ground (arith, string_eq_iff x y, e))

-- Two paths that do not overlap have no location in common.
pub overlaps-IsBelow : (a b c : FilePath) → overlaps a b ≡ false → IsBelow c a → IsBelow c b → ⊥
overlaps-IsBelow a b c h p q = ground (
  arith,
  overlaps-is_prefix a b,
  is_prefix-common a.parts b.parts p.rest q.rest (sym p.parts ∙ q.parts),
  bool_eq_iff a.absolute b.absolute,
  p.anchor,
  q.anchor,
)

-- Two paths overlap exactly when their subtrees have a location in common.
pub overlaps_iff :
    (a b : FilePath) → (overlaps a b ≡ true) ↔ ((c : FilePath) × IsBelow c a × IsBelow c b)
overlaps_iff a b = (
  shared,
  λ (c, p, q). elim (Bool-cases (overlaps a b)) [
    | inl h ↦ h
    | inr h ↦ absurd (overlaps-IsBelow a b c h p q)
  ],
)
  where
    anchors : overlaps a b ≡ true → a.absolute ≡ b.absolute
    anchors h = ground (arith, overlaps-is_prefix a b, bool_eq_iff a.absolute b.absolute)

    shared : overlaps a b ≡ true → (c : FilePath) × IsBelow c a × IsBelow c b
    shared h = elim (Bool-cases (is_prefix a.parts b.parts)) [
      | inl e ↦
          let (r, q) = is_prefix-rest a.parts b.parts e in
          (b, record { anchor = sym (anchors h); rest = r; parts = q }, IsBelow-self b)
      | inr e ↦
          let (r, q) = is_prefix-rest b.parts a.parts (ground (arith, overlaps-is_prefix a b)) in
          (a, IsBelow-self a, record { anchor = anchors h; rest = r; parts = q })
    ]

pub overlaps_comm : (a b : FilePath) → overlaps a b ≡ overlaps b a
overlaps_comm a b = ground (
  arith,
  overlaps-is_prefix a b,
  overlaps-is_prefix b a,
  bool_eq_iff a.absolute b.absolute,
  bool_eq_iff b.absolute a.absolute,
)
