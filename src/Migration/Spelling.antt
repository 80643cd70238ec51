-- ===== src/Migration/Spelling.antt =====
-- migration.py: `unique_paths` accepts one spelling of every location.
use trace_gate_framework.Prelude.{
  option_Eq, nat_Eq, list_Eq, ◌≡◌, inl, inr, refl, sym, ap, ◌∙◌, subst, some-inj, true, not, ◌==◌,
  eq→path, eq_refl, some, List, [], ◌∷◌, contains, ok, Bool-cases, Among,
}
use trace_gate_framework.Migration.{Text, require}
use trace_gate_framework.Migration.Paths.{
  Unicode, slash, split, relative_path, fronts, Aliases, alias_of, spelled_alike, add_aliases,
  check_paths, unique_paths,
}
use trace_gate_framework.Migration.Checks.{bind_parts, check_parts, require_lem, ok_inj}

-- What an alias table has, a later one has too.
pub Extends : Aliases → Aliases → Type 0
Extends before after =
    (key value : Text) → alias_of key before ≡ some value → alias_of key after ≡ some value

-- Every one of the prefixes is the one that its folded form stands for.
pub Named : (Text → Text) → List Text → Aliases → Type 0
Named casefold prefixes table = (x : Text) → Among x prefixes → alias_of (casefold x) table ≡ some x

alias_of-head :
    (key value : Text) (table : Aliases) → alias_of key ((key, value) ∷ table) ≡ some value
unfolding alias_of
alias_of-head key value table = rw (eq_refl key) refl

alias_of-cons :
    (key value : Text) (table : Aliases)
    → spelled_alike value (alias_of key table) ≡ true
    → Extends table ((key, value) ∷ table)
unfolding Extends alias_of
alias_of-cons key value table h k v found = elim (Bool-cases (key == k)) [
  | inl y ↦
      let same : alias_of key table ≡ some v =
        subst (λ (t : Text). alias_of t table ≡ some v) (sym (eq→path key k y)) found in
      rw y (ap some (sym (eq→path v value (rw same at h))))
  | inr n ↦ rw n found
]

module _ (casefold : Text → Text) where
  Named-Extends :
      (prefixes : List Text) (before after : Aliases)
      → Named casefold prefixes before
      → Extends before after
      → Named casefold prefixes after
  unfolding Named Extends
  Named-Extends prefixes before after named grown x m = grown (casefold x) x (named x m)

  add_aliases_lem :
      (prefixes : List Text) (table after : Aliases)
      → add_aliases casefold prefixes table ≡ ok after
      → Extends table after × Named casefold prefixes after
  unfolding add_aliases Extends Named
  add_aliases_lem [] table after h = (
    λ k v found. subst (λ (t : Aliases). alias_of k t ≡ some v) (ok_inj table after h) found,
    λ x m. absurd m,
  )
  add_aliases_lem (prefix ∷ prefixes) table after h =
      let (agreed, rest) =
        check_parts _ (add_aliases casefold prefixes ((casefold prefix, prefix) ∷ table)) after h in
      let (grown, named) =
        add_aliases_lem prefixes ((casefold prefix, prefix) ∷ table) after rest in
      let first : Extends table ((casefold prefix, prefix) ∷ table) =
        alias_of-cons (casefold prefix) prefix table (require_lem _ _ agreed) in
      (
        λ k v found. grown k v (first k v found),
        λ x m. elim m [
          | inl same ↦
              subst (λ (t : Text). alias_of (casefold t) after ≡ some t) (sym same)
                (grown (casefold prefix) prefix (alias_of-head (casefold prefix) prefix table))
          | inr later ↦ named x later
        ],
      )

abbrev pub path_fronts : Text → List Text
path_fronts path = fronts [] (split slash path)

module _ (unicode : Unicode) where
  one_table :
      (paths explicit : List Text) (table : Aliases)
      → check_paths unicode paths explicit table ≡ ok tt
      → (after : Aliases) × Extends table after
        × ((p : Text) → Among p paths → Named unicode.casefold (path_fronts p) after)
  unfolding check_paths Extends
  one_table [] explicit table h = (table, λ k v found. found, λ p m. absurd m)
  one_table (path ∷ paths) explicit table h =
      let (_, h1) = check_parts (relative_path unicode path) _ tt h in
      let (_, h2) = check_parts (require (not (contains path explicit)) "duplicate path") _ tt h1 in
      let (grown, added, h3) =
        bind_parts (add_aliases unicode.casefold (path_fronts path) table)
          (λ t. check_paths unicode paths (path ∷ explicit) t) tt h2 in
      let (wider, named) = add_aliases_lem unicode.casefold (path_fronts path) table grown added in
      let (after, widest, others) = one_table paths (path ∷ explicit) grown h3 in
      (
        after,
        λ k v found. widest k v (wider k v found),
        λ p m. elim m [
          | inl same ↦
              subst (λ (t : Text). Named unicode.casefold (path_fronts t) after) (sym same)
                (Named-Extends unicode.casefold (path_fronts path) grown after named widest)
          | inr later ↦ others p later
        ],
      )

  -- In an accepted set of paths, two directories or files that agree up to case folding, among the
  -- paths and all that lie above them, are spelled alike.
  pub one_spelling :
      (paths : List Text) (p q x y : Text)
      → unique_paths unicode paths ≡ ok tt
      → Among p paths
      → Among q paths
      → Among x (path_fronts p)
      → Among y (path_fronts q)
      → unicode.casefold x ≡ unicode.casefold y
      → x ≡ y
  unfolding unique_paths Named
  one_spelling paths p q x y h mp mq mx my folded =
      let (table, _, named) = one_table paths [] [] h in
      some-inj (sym (named p mp x mx) ∙ ap (λ k. alias_of k table) folded ∙ named q mq y my)
