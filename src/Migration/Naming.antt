-- ===== src/Migration/Naming.antt =====
-- migration.py: what an accepted path, and an accepted set of paths, is.
use trace_gate_framework.Prelude.{
  ℕ, option_Eq, nat_Eq, list_Eq, ◌≡◌, inl, inr, refl, sym, ap, ◌∙◌, true, false, not, ◌==◌, eq→path,
  List, [], ◌∷◌, any, all, contains, is_empty, arith, ok, Bool-cases,
}
use trace_gate_framework.Migration.{Text, require}
use trace_gate_framework.Migration.Paths.{
  Unicode, slash, dot, is_control, starts_with, split, join_parts, onto, relative_path, keep_named,
  is_named, is_plain, root_of, pure_path,
}
use trace_gate_framework.Migration.Checks.{check_parts, require_lem, and_parts, negated}

split_cons :
    (separator : ℕ) (text : Text)
    → (part : Text) × (parts : List Text) × (split separator text ≡ part ∷ parts)
unfolding split
split_cons separator [] = ([], [], refl)
split_cons separator (c ∷ text) =
    let (part, parts, same) = split_cons separator text in
    elim (Bool-cases (c == separator)) [
      | inl y ↦ ([], split separator text, rw y refl)
      | inr n ↦ (c ∷ part, parts, rw (n, same) refl)
    ]

join_parts-onto :
    (separator c : ℕ) (part : Text) (parts : List Text)
    → join_parts separator (onto c (part ∷ parts)) ≡ c ∷ join_parts separator (part ∷ parts)
unfolding join_parts
join_parts-onto separator c part [] = refl
join_parts-onto separator c part (next ∷ parts) = refl

-- The parts of a text, joined, are the text.
pub join_parts-split :
    (separator : ℕ) (text : Text) → join_parts separator (split separator text) ≡ text
unfolding split join_parts
join_parts-split separator [] = refl
join_parts-split separator (c ∷ text) =
    let (part, parts, same) = split_cons separator text in
    let rest : join_parts separator (part ∷ parts) ≡ text =
      rw (← same) (join_parts-split separator text) in
    elim (Bool-cases (c == separator)) [
      | inl y ↦
          rw (y, same)
            (ap (λ t. separator ∷ t) rest ∙ ap (λ k. k ∷ text) (sym (eq→path c separator y)))
      | inr n ↦ rw (n, same) (join_parts-onto separator c part parts ∙ ap (λ t. c ∷ t) rest)
    ]

plain_named : (part : Text) → is_plain part ≡ true → is_named part ≡ true
unfolding contains
plain_named part h = ground arith

all_named : (parts : List Text) → all is_plain parts ≡ true → keep_named parts ≡ parts
unfolding all keep_named
all_named [] h = refl
all_named (part ∷ parts) h =
    let (first, later) = and_parts (is_plain part) (all is_plain parts) h in
    rw (plain_named part first) (ap (λ t. part ∷ t) (all_named parts later))

not_double_dot : (part : Text) → is_plain part ≡ true → (part == dot ∷ dot ∷ []) ≡ false
unfolding contains
not_double_dot part h = ground arith

no_double_dot :
    (parts : List Text) → all is_plain parts ≡ true → contains (dot ∷ dot ∷ []) parts ≡ false
unfolding contains all
no_double_dot [] h = refl
no_double_dot (part ∷ parts) h =
    let (first, later) = and_parts (is_plain part) (all is_plain parts) h in
    rw (not_double_dot part first, no_double_dot parts later) refl

relative_root : (text : Text) → starts_with slash text ≡ false → root_of text ≡ 0
relative_root [] h = refl
relative_root (a ∷ []) h = ground arith
relative_root (a ∷ b ∷ []) h = ground arith
relative_root (a ∷ b ∷ c ∷ text) h = ground arith

module _ (unicode : Unicode) where
  -- An accepted path is relative, and PurePosixPath reads it as its components, none of which goes up
  -- and which joined by slashes are the path.
  pub relative_path_lem :
      (value : Text)
      → relative_path unicode value ≡ ok tt
      → ((pure_path value).root ≡ 0)
        × (contains (dot ∷ dot ∷ []) (pure_path value).parts ≡ false)
        × (join_parts slash (pure_path value).parts ≡ value)
  unfolding relative_path
  relative_path_lem value h =
      let (_, h1) = check_parts (require (not (is_empty value)) "empty path") _ tt h in
      let (_, h2) =
        check_parts (require (not (any is_control value)) "control character path") _ tt h1 in
      let (relative, h3) = check_parts _ _ tt h2 in
      let (_, h4) =
        check_parts (require (value == unicode.normalize value) "non-NFC path") _ tt h3 in
      let (plain, _) =
        check_parts (require (all is_plain (split slash value)) "unsafe path component") _ tt h4 in
      let (_, start) = and_parts _ (not (starts_with slash value)) (require_lem _ _ relative) in
      let every = require_lem (all is_plain (split slash value)) _ plain in
      let named = all_named (split slash value) every in
      (
        relative_root value (negated (starts_with slash value) start),
        rw named (no_double_dot (split slash value) every),
        rw named (join_parts-split slash value),
      )
