-- ===== src/Migration/Walk.antt =====
-- migration.py: what the walk over the parents of artifacts leaves.
use trace_gate_framework.Prelude.{
  ℕ, zero, suc, ◌<◌, String, string_Eq, string_eq_iff, ◌≡◌, ◌⊎◌, inl, inr, refl, sym, subst, true,
  false, ◌==◌, none, some, List, [], ◌∷◌, contains, Among, All, length, arith, Result, ok, err,
  Error, value_error, Bool-cases, Option-cases, ◌>>=◌,
}
use trace_gate_framework.Prelude.Dict.{Dict, lookup, keys}
use trace_gate_framework.Migration.Plans.{visit_each, visit, check_parents}
use trace_gate_framework.Migration.Depth.{free, free_bounded, free_drops}

abbrev cycle : Error
cycle = value_error "artifact parent cycle"

-- From an artifact up to one of its parents, of their parents, and so on.
pub data Ancestor (graph : Dict (List String)) (child : String) : String → Type 0 where
  parent :
      {up : String} (parents : List String)
      → lookup child graph ≡ some parents
      → Among up parents
      → Ancestor graph child up
  further :
      {middle up : String} (parents : List String)
      → Ancestor graph child middle
      → lookup middle graph ≡ some parents
      → Among up parents
      → Ancestor graph child up

-- Some artifact is an ancestor of its own.
abbrev pub Cycle : Dict (List String) → Type 0
Cycle graph = (node : String) × Ancestor graph node node

-- The artifact is done, or is not of the plan.
abbrev pub IsSettled : Dict (List String) → List String → String → Type 0
IsSettled graph done x = (contains x done ≡ true) ⊎ (lookup x graph ≡ none)

-- Every artifact that is done is of the plan, and its parents were settled before it.
abbrev pub IsOrdered : Dict (List String) → List String → Type 0
IsOrdered graph [] = Unit
IsOrdered graph (x ∷ done) =
    ((parents : List String) × (lookup x graph ≡ some parents)
      × All (λ p. IsSettled graph done p) parents)
    × IsOrdered graph done

module _ (graph : Dict (List String)) where
  -- What a part of the walk leaves: more artifacts done, in order, or a cycle.
  abbrev Walked : List String → List String → Result (List String) → Type 0
  Walked before nodes r =
      ((done : List String) × (r ≡ ok done)
        × IsOrdered graph done
        × ((x : String) → contains x before ≡ true → contains x done ≡ true)
        × All (λ x. IsSettled graph done x) nodes)
      ⊎ ((r ≡ err cycle) × Cycle graph)

  IsSettled-later :
      (before done : List String) (x : String)
      → ((y : String) → contains y before ≡ true → contains y done ≡ true)
      → IsSettled graph before x
      → IsSettled graph done x
  IsSettled-later before done x more (inl seen) = inl (more x seen)
  IsSettled-later before done x more (inr foreign) = inr foreign

  abbrev Visits : (List String → String → Result (List String)) → List String → Type 0
  Visits f nodes =
      (done : List String) (node : String)
      → Among node nodes
      → IsOrdered graph done
      → Walked done (node ∷ []) (f done node)

  visit_each-Walked :
      (f : List String → String → Result (List String)) (done nodes : List String)
      → Visits f nodes
      → IsOrdered graph done
      → Walked done nodes (visit_each f done nodes)
  unfolding visit_each
  visit_each-Walked f done [] p ordered = inl (done, refl, ordered, λ x seen. seen, tt)
  visit_each-Walked f done (node ∷ nodes) p ordered = elim (p done node (inl refl) ordered) [
    | inr (same, circle) ↦ inr (rw same refl, circle)
    | inl (next, same, later, more, (settled, _)) ↦
        elim (visit_each-Walked f next nodes (λ d n a. p d n (inr a)) later) [
          | inr (stopped, circle) ↦ inr (rw (same, stopped) refl, circle)
          | inl (last, went, ordered_last, more_last, rest) ↦ inl (
            last,
            rw (same, went) refl,
            ordered_last,
            λ x seen. more_last x (more x seen),
            (IsSettled-later next last node more_last settled, rest),
          )
        ]
  ]

  -- All artifacts on the way down have the node as an ancestor.
  abbrev Above : List String → String → Type 0
  Above visiting node = (v : String) → contains v visiting ≡ true → Ancestor graph v node

  Above-cons :
      (visiting parents : List String) (node p : String)
      → Above visiting node
      → lookup node graph ≡ some parents
      → Among p parents
      → Above (node ∷ visiting) p
  unfolding contains
  Above-cons visiting parents node p above found among v seen = elim (Bool-cases (node == v)) [
    | inl y ↦
        subst (λ (t : String). Ancestor graph t p) ((string_eq_iff node v).0 y)
          (parent parents found among)
    | inr n ↦ further parents (above v (rw n at seen)) found among
  ]

  more_done :
      (x : String) (done : List String) (y : String)
      → contains y done ≡ true
      → contains y (x ∷ done) ≡ true
  unfolding contains
  more_done x done y seen = ground (arith, seen)

  first_done : (x : String) (done : List String) → contains x (x ∷ done) ≡ true
  unfolding contains
  first_done x done = rw ((string_eq_iff x x).1 refl) refl

  -- The node is done after its parents.
  finish-Walked :
      (done parents : List String) (node : String) (r : Result (List String))
      → lookup node graph ≡ some parents
      → Walked done parents r
      → Walked done (node ∷ []) (r >>= λ next. ok (node ∷ next))
  finish-Walked done parents node r found (inr (same, circle)) = inr (rw same refl, circle)
  finish-Walked done parents node r found (inl (next, same, later, more, settled)) = inl (
    node ∷ next,
    rw same refl,
    ((parents, found, settled), later),
    λ x seen. more_done node next x (more x seen),
    (inl (first_done node next), tt),
  )

  visit_deeper :
      (depth : ℕ) (visiting done parents : List String) (node : String)
      → contains node visiting ≡ false
      → contains node done ≡ false
      → lookup node graph ≡ some parents
      → visit (suc depth) graph visiting done node ≡ (
          visit_each (visit depth graph (node ∷ visiting)) done parents >>= λ next.
          ok (node ∷ next))
  unfolding visit
  visit_deeper depth visiting done parents node fresh unseen found = rw (fresh, unseen, found) refl

  visit-Walked :
      (depth : ℕ) (visiting done : List String) (node : String)
      → free graph visiting < depth
      → Above visiting node
      → IsOrdered graph done
      → Walked done (node ∷ []) (visit depth graph visiting done node)
  unfolding visit
  visit-Walked zero visiting done node h above ordered = absurd (omega (arith, h))
  visit-Walked (suc depth) visiting done node h above ordered =
      elim (Bool-cases (contains node visiting)) [
        | inl y ↦ inr (rw y refl, (node, above node y))
        | inr n ↦ elim (Bool-cases (contains node done)) [
          | inl seen ↦ inl (done, rw (n, seen) refl, ordered, λ x s. s, (inl seen, tt))
          | inr unseen ↦ elim (Option-cases (lookup node graph)) [
            | inl missing ↦
                inl (done, rw (n, unseen, missing) refl, ordered, λ x s. s, (inr missing, tt))
            | inr (parents, found) ↦
                let lower = free_drops graph visiting parents node found n in
                subst (λ r. Walked done (node ∷ []) r)
                  (sym (visit_deeper depth visiting done parents node n unseen found))
                  (finish-Walked done parents node
                    (visit_each (visit depth graph (node ∷ visiting)) done parents) found
                    (visit_each-Walked (visit depth graph (node ∷ visiting)) done parents
                      (λ seen p among earlier.
                        visit-Walked depth (node ∷ visiting) seen p (omega (arith, h, lower))
                          (Above-cons visiting parents node p above found among) earlier)
                      ordered))
          ]
        ]
      ]

  nil-Above : (node : String) → Above [] node
  unfolding contains
  nil-Above node v seen = absurd (ground arith)

abbrev Entries : Dict (List String) → List String → Type 0
Entries graph ks =
    All (λ (x : String). (parents : List String) × (lookup x graph ≡ some parents)) ks

Entries-later :
    (k : String) (own : List String) (graph : Dict (List String)) (ks : List String)
    → Entries graph ks
    → Entries ((k, own) ∷ graph) ks
unfolding lookup
Entries-later k own graph [] found = tt
Entries-later k own graph (x ∷ ks) ((parents, here), rest) = (
  elim (Bool-cases (k == x)) [ inl y ↦ (own, rw y refl) | inr n ↦ (parents, rw n here) ],
  Entries-later k own graph ks rest,
)

keys_found : (graph : Dict (List String)) → Entries graph (keys graph)
unfolding lookup
keys_found [] = tt
keys_found ((k, own) ∷ graph) = (
  (own, rw ((string_eq_iff k k).1 refl) refl),
  Entries-later k own graph (keys graph) (keys_found graph),
)

settled_done :
    (graph : Dict (List String)) (done ks : List String)
    → Entries graph ks
    → All (λ x. IsSettled graph done x) ks
    → All (λ x. contains x done ≡ true) ks
settled_done graph done [] found settled = tt
settled_done graph done (x ∷ ks) (here, found) (inl seen, settled) =
    (seen, settled_done graph done ks found settled)
settled_done graph done (x ∷ ks) ((parents, here), found) (inr foreign, settled) =
    absurd (cc (here, foreign))

-- When fewer artifacts are planned than calls may be nested, the walk over the parents ends: either
-- every artifact of the plan is done, and each only after its parents that are of the plan, or the
-- walk refuses a cycle of parents, and some artifact of the plan is an ancestor of its own.
pub check_parents_decided :
    (limit : ℕ) (graph : Dict (List String))
    → length graph < limit
    → ((done : List String) × (check_parents limit graph ≡ ok done)
        × IsOrdered graph done
        × All (λ x. contains x done ≡ true) (keys graph))
      ⊎ ((check_parents limit graph ≡ err (value_error "artifact parent cycle")) × Cycle graph)
unfolding check_parents
check_parents_decided limit graph room =
    elim (visit_each-Walked graph (visit limit graph []) [] (keys graph)
      (λ seen node among earlier.
        visit-Walked graph limit [] seen node (omega (arith, free_bounded graph [], room))
          (nil-Above graph node) earlier)
      tt) [
        | inl (done, same, ordered, _, settled) ↦
            inl
              (done, same, ordered, settled_done graph done (keys graph) (keys_found graph) settled)
        | inr stopped ↦ inr stopped
      ]
