-- ===== src/MultiAgent/Coordinator/MergeLoop.antt =====
-- The loop of `AgentCoordinator.merge` over the artifacts of one task.
use mathlib.Core.Path.{fun_ext}
use trace_gate_framework.Prelude.{
  String, Bool, ◌≡◌, refl, sym, ap, ◌∙◌, ◌&&◌, ◌||◌, ◌≢◌, true, false, Option, none, some, List, [],
  ◌∷◌, ◌++◌, arith, string_Eq, option_Eq, all, is_empty, ◌==◌, Option-cases, Bool-cases, inl, inr,
  eq_refl, string_eq_iff, if◌then◌else◌,
}
use trace_gate_framework.Prelude.Dict.{Dict, lookup, lookup-insert, has_key, has_key-lookup}
use trace_gate_framework.MultiAgent.Coordinator.{Merge, merge_artifact, merge_artifacts}

abbrev pub or_else : Option String → Option String → Option String
or_else (some a) b = some a
or_else none b = b

pub or_else-none : (a : Option String) → a ≡ or_else a none
or_else-none none = refl
or_else-none (some a) = refl

or_else-if :
    (a : Option String) (b : Bool) (d : String) (c : Option String)
    → or_else (or_else a (if b then some d else none)) c ≡ or_else a (if b then some d else c)
or_else-if none true d c = refl
or_else-if none false d c = refl
or_else-if (some a) b d c = refl

pub and_true : (b : Bool) → b ≡ (b && true)
and_true b = ground arith

and_false : (b : Bool) → false ≡ (b && false)
and_false b = ground arith

or_true : (b : Bool) → (b || true) ≡ true
or_true b = ground arith

pub and_assoc : (a b c : Bool) → ((a && b) && c) ≡ (a && (b && c))
and_assoc a b c = ground arith

-- Every artifact has the digest that `view` gives its path.
unfoldable pub agrees : (String → Option String) → Dict String → Bool
agrees view es = all (λ (path, digest). view path == some digest) es

unfoldable pub view_after : Merge → Dict String → String → Option String
view_after m es path = or_else (lookup path m.artifacts) (lookup path es)

is_empty-snoc {ℓ} : {A : Type ℓ} (xs : List A) (x : A) → is_empty (xs ++ x ∷ []) ≡ false
is_empty-snoc [] x = refl
is_empty-snoc (y ∷ xs) x = refl

module _ (m : Merge) (id path digest : String) where
  abbrev merged_one : Merge
  merged_one = merge_artifact (lookup path m.artifacts) path digest id m

  lookup-merge_artifact :
      (q : String)
      → lookup q merged_one.artifacts
        ≡ or_else (lookup q m.artifacts) (if path == q then some digest else none)
  lookup-merge_artifact q = elim (Option-cases (lookup path m.artifacts)) [
    | inl e ↦
        rw (e, lookup-insert)
          (elim (Bool-cases (path == q)) [
            | inl y ↦ rw (y, ← (string_eq_iff path q).0 y, e)
            | inr n ↦ rw n (or_else-none (lookup q m.artifacts))
          ])
    | inr (seen, e) ↦ elim (Bool-cases (seen == digest)) [
      | inl z ↦
          rw (e, z, lookup-insert)
            (elim (Bool-cases (path == q)) [
              | inl y ↦
                  rw (y, ← (string_eq_iff path q).0 y, e)
                    (ap some (sym ((string_eq_iff seen digest).0 z)))
              | inr n ↦ rw n (or_else-none (lookup q m.artifacts))
            ])
      | inr z ↦
          rw (e, z)
            (elim (Bool-cases (path == q)) [
              | inl y ↦ rw (y, ← (string_eq_iff path q).0 y, e)
              | inr n ↦ rw n (or_else-none (lookup q m.artifacts))
            ])
    ]
  ]

  is_empty-merge_artifact :
      is_empty merged_one.conflicts
      ≡ (is_empty m.conflicts && (or_else (lookup path m.artifacts) (some digest) == some digest))
  is_empty-merge_artifact = elim (Option-cases (lookup path m.artifacts)) [
    | inl e ↦ rw (e, eq_refl digest) (and_true (is_empty m.conflicts))
    | inr (seen, e) ↦ elim (Bool-cases (seen == digest)) [
      | inl z ↦ rw (e, z) (and_true (is_empty m.conflicts))
      | inr z ↦ rw (e, z) (rw is_empty-snoc (and_false (is_empty m.conflicts)))
    ]
  ]

  evidence-merge_artifact : merged_one.evidence_refs ≡ m.evidence_refs
  evidence-merge_artifact = ground arith

  view_step : (es : Dict String) → view_after merged_one es ≡ view_after m ((path, digest) ∷ es)
  unfolding view_after lookup
  view_step es = fun_ext λ q.
      rw (lookup-merge_artifact q)
        (or_else-if (lookup q m.artifacts) (path == q) digest (lookup q es))

view_here :
    (m : Merge) (path digest : String) (es : Dict String)
    → or_else (lookup path m.artifacts) (some digest) ≡ view_after m ((path, digest) ∷ es) path
unfolding view_after lookup
view_here m path digest es = rw (eq_refl path)

pub lookup-merge_artifacts :
    (id : String) (es : Dict String) (m : Merge) (q : String)
    → lookup q (merge_artifacts id es m).artifacts ≡ view_after m es q
unfolding merge_artifacts view_after lookup
lookup-merge_artifacts id [] m q = or_else-none (lookup q m.artifacts)
lookup-merge_artifacts id ((path, digest) ∷ es) m q =
    lookup-merge_artifacts id es (merged_one m id path digest) q
    ∙ ap (λ (f : String → Option String). f q) (view_step m id path digest es)

pub evidence-merge_artifacts :
    (id : String) (es : Dict String) (m : Merge)
    → (merge_artifacts id es m).evidence_refs ≡ m.evidence_refs
unfolding merge_artifacts
evidence-merge_artifacts id [] m = refl
evidence-merge_artifacts id ((path, digest) ∷ es) m =
    evidence-merge_artifacts id es (merged_one m id path digest)
    ∙ evidence-merge_artifact m id path digest

pub is_empty-merge_artifacts :
    (id : String) (es : Dict String) (m : Merge)
    → is_empty (merge_artifacts id es m).conflicts
      ≡ (is_empty m.conflicts && agrees (view_after m es) es)
unfolding merge_artifacts agrees all
is_empty-merge_artifacts id [] m = and_true (is_empty m.conflicts)
is_empty-merge_artifacts id ((path, digest) ∷ es) m =
    rw
      (
        is_empty-merge_artifacts id es (merged_one m id path digest),
        is_empty-merge_artifact,
        view_step,
      )
      (rw (view_here m path digest es) (and_assoc (is_empty m.conflicts) _ _))

pub lookup-append :
    (q : String) (xs ys : Dict String) → lookup q (xs ++ ys) ≡ or_else (lookup q xs) (lookup q ys)
unfolding lookup
lookup-append q [] ys = refl
lookup-append q ((p, d) ∷ xs) ys = ground (arith, lookup-append q xs ys)

pub agrees-append :
    (f : String → Option String) (xs ys : Dict String)
    → agrees f (xs ++ ys) ≡ (agrees f xs && agrees f ys)
unfolding agrees all
agrees-append f [] ys = refl
agrees-append f ((p, d) ∷ xs) ys = ground (arith, agrees-append f xs ys)

agrees_cong :
    (f g : String → Option String) (es : Dict String)
    → ((q : String) → has_key q es ≡ true → f q ≡ g q)
    → agrees f es ≡ agrees g es
unfolding agrees all has_key
agrees_cong f g [] h = refl
agrees_cong f g ((p, d) ∷ es) h =
    rw (h p (rw (eq_refl p)))
      (ap (λ b. (g p == some d) && b) (agrees_cong f g es (λ q x. h q (rw x (or_true (p == q))))))

or_else-some : (o c : Option String) → o ≢ none → o ≡ or_else o c
or_else-some none c h = absurd (h refl)
or_else-some (some a) c h = refl

-- Later artifacts do not change whether those of one task agree.
pub agrees_view :
    (m : Merge) (es rest : Dict String)
    → agrees (view_after m es) es ≡ agrees (view_after m (es ++ rest)) es
unfolding view_after
agrees_view m es rest = agrees_cong _ _ es (λ q h. ap (or_else (lookup q m.artifacts)) (
    or_else-some (lookup q es) (lookup q rest) (has_key-lookup q es h)
    ∙ sym (lookup-append q es rest)))

pub or_else_assoc : (a b c : Option String) → or_else (or_else a b) c ≡ or_else a (or_else b c)
or_else_assoc none b c = refl
or_else_assoc (some a) b c = refl
