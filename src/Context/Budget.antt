-- ===== src/Context/Budget.antt =====
-- context.py: the limits that a context pack keeps, and what becomes of every artifact.
use mathlib.Core.List.{map-append}
use trace_gate_framework.Prelude.{
  ℕ, ◌+◌, ◌≤◌, ◌<◌, String, ◌≡◌, ◌≢◌, ◌↔◌, refl, ap, true, false, inl, inr, Option, none, List, [],
  ◌∷◌, ◌++◌, arith, ◌==◌, string_Eq, string_eq_iff, contains, contains-append, is_unique, length,
  length-append, ok, Result-cases, All, subst,
}
use trace_gate_framework.Documents.{AccessIntent, ReadProfile}
use trace_gate_framework.Context.{
  Time, Artifact, Item, Exclusion, PackBody, ContextPack, Platform, Request, Progress, Reason,
  exclude, include, item_ids, early_exclusion, apply_verdict, judge, select_all,
}
use trace_gate_framework.Context.Loop.{Includes, select_all_induction}
use trace_gate_framework.Context.Packing.{
  evaluation_time, request_of, select_context, nothing_selected, pack_body,
}
use trace_gate_framework.Context.Soundness.{Authorizes, request_of-Authorizes}

-- The bytes of the contents of the items.
unfoldable pub total_size : Platform → List Item → ℕ
total_size platform [] = 0
total_size platform (i ∷ items) = platform.encoded_size i.content + total_size platform items

total_size-append :
    (platform : Platform) (xs ys : List Item)
    → total_size platform (xs ++ ys) ≡ total_size platform xs + total_size platform ys
unfolding total_size
total_size-append platform [] ys = omega arith
total_size-append platform (x ∷ xs) ys = omega (arith, total_size-append platform xs ys)

is_unique-snoc :
    (xs : List String) (x : String)
    → is_unique xs ≡ true
    → contains x xs ≡ false
    → is_unique (xs ++ x ∷ []) ≡ true
unfolding is_unique contains
is_unique-snoc [] x u n = refl
is_unique-snoc (y ∷ ys) x u n = ground (
  arith,
  is_unique-snoc ys x,
  contains-append y ys (x ∷ []),
  string_eq_iff x y,
  string_eq_iff y x,
)

-- What the loop keeps.
record IsWithin (platform : Platform) (r : Request) (s : Progress) : Type 0 where
  used : s.used ≡ total_size platform s.selected
  fits : s.used ≤ r.budget
  records : length s.selected ≤ r.max_records
  distinct : is_unique (item_ids s.selected) ≡ true

early_room :
    (platform : Platform) (r : Request) (a : Artifact) (s : Progress)
    → early_exclusion platform r a s ≡ none
    → (contains a.artifact_id (item_ids s.selected) ≡ false) × (length s.selected < r.max_records)
unfolding early_exclusion
early_room platform r a s h = (ground arith, ground arith)

IsWithin-include :
    (platform : Platform) (r : Request) (a : Artifact) (s : Progress) (item : Item) (size : ℕ)
    → Includes platform r a s item size
    → IsWithin platform r s
    → IsWithin platform r (apply_verdict a s (include item size))
unfolding apply_verdict total_size
IsWithin-include platform r a s item size t v =
    let (unselected, room) = early_room platform r a s t.early in
    record {
      used =
          omega (arith, v.used, t.holds.sized, total_size-append platform s.selected (item ∷ []));
      fits = t.holds.fits;
      records = omega (arith, room, length-append s.selected (item ∷ []));
      distinct = rw map-append (
          is_unique-snoc (item_ids s.selected) item.artifact_id v.distinct
            (rw (← t.holds.identity) unselected));
    }

IsWithin-exclude :
    (platform : Platform) (r : Request) (a : Artifact) (s : Progress) (reason : Reason)
    → IsWithin platform r s
    → IsWithin platform r (apply_verdict a s (exclude reason))
unfolding apply_verdict
IsWithin-exclude platform r a s reason v = record {
  used = v.used;
  fits = v.fits;
  records = v.records;
  distinct = v.distinct;
}

units : {A : Type 0} (xs : List A) → All (λ (_ : A). Unit {0}) xs
units [] = tt
units (x ∷ xs) = (tt, units xs)

-- Every artifact is selected or excluded.
accounted :
    (platform : Platform) (r : Request) (artifacts : List Artifact) (s s' : Progress)
    → select_all platform r artifacts s ≡ ok s'
    → length s'.selected + length s'.excluded
      ≡ length s.selected + length s.excluded + length artifacts
unfolding select_all apply_verdict
accounted platform r [] s s' h =
    let same : s ≡ s' = ground arith in
    omega (arith, ap (λ (t : Progress). length t.selected + length t.excluded) same)
accounted platform r (a ∷ artifacts) s s' h = elim (Result-cases (judge platform r a s)) [
  | inl (e, y) ↦ absurd (ground arith)
  | inr (exclude reason, y) ↦ omega (
    arith,
    accounted platform r artifacts (apply_verdict a s (exclude reason)) s' (ground arith),
    length-append s.excluded (record { artifact_id = a.artifact_id; reason = reason } ∷ []),
  )
  | inr (include item size, y) ↦ omega (
    arith,
    accounted platform r artifacts (apply_verdict a s (include item size)) s' (ground arith),
    length-append s.selected (item ∷ []),
  )
]

decision_iff :
    (profile : ReadProfile) (items : List Item) (excluded : List Exclusion) (used : ℕ)
    → ((pack_body profile (record { selected = items; excluded = excluded; used = used })).decision
        ≡ "allow")
      ↔ (items ≢ [])
decision_iff profile [] excluded used =
    (λ h. absurd (ground (arith, ap (λ (t : String). t == "allow") h)), λ n. absurd (n refl))
decision_iff profile (i ∷ items) excluded used = (λ h. ground arith, λ n. refl)

-- The limits of a request that a pack keeps: it counts the bytes of its contents within the budget,
-- has no more records than allowed and no artifact twice, and leaves no artifact unaccounted.
pub record KeepsLimits (platform : Platform) (r : Request) (artifacts : List Artifact)
    (b : PackBody) : Type 0 where
  pub counted : b.bytes_used ≡ total_size platform b.items
  pub in_budget : b.bytes_used ≤ r.budget
  pub in_records : length b.items ≤ r.max_records
  pub distinct : is_unique (item_ids b.items) ≡ true
  pub accounted : length b.items + length b.excluded ≡ length artifacts
  pub decided : (b.decision ≡ "allow") ↔ (b.items ≢ [])

start-IsWithin : (platform : Platform) (r : Request) → IsWithin platform r nothing_selected
unfolding total_size is_unique
start-IsWithin platform r = record {
  used = refl;
  fits = omega arith;
  records = omega arith;
  distinct = refl;
}

select_all-KeepsLimits :
    (platform : Platform) (profile : ReadProfile) (r : Request) (artifacts : List Artifact)
    (s : Progress)
    → select_all platform r artifacts nothing_selected ≡ ok s
    → KeepsLimits platform r artifacts (pack_body profile s)
select_all-KeepsLimits platform profile r artifacts s h = record {
  counted = within.used;
  in_budget = within.fits;
  in_records = within.records;
  distinct = within.distinct;
  accounted = omega (arith, accounted platform r artifacts nothing_selected s h);
  decided = decision_iff profile s.selected s.excluded s.used;
}
  where
    within : IsWithin platform r s
    within =
        select_all_induction platform r (λ _. Unit {0}) (IsWithin platform r)
          (λ a t reason v. IsWithin-exclude platform r a t reason v)
          (λ a t item size x m v. IsWithin-include platform r a t item size x v) artifacts
          nothing_selected s h (units artifacts) (start-IsWithin platform r)

module _ (platform : Platform) (schema_messages_intent : AccessIntent → List String)
    (schema_messages_profile : ReadProfile → List String) (clock : Time) where
  -- A pack that is returned keeps the limits of an authorized request: its byte count is that of
  -- its contents and within the budget, it has at most the allowed number of records and no
  -- artifact twice, its items and exclusions are as many as the artifacts, and it is allowed
  -- exactly when it has an item.
  pub pack_within_limits :
      (intent : AccessIntent) (profile : ReadProfile) (artifacts : List Artifact)
      (evaluated_at : Option Time) (pack : ContextPack)
      → select_context platform schema_messages_intent schema_messages_profile clock intent profile
          artifacts evaluated_at
        ≡ ok pack
      → (r : Request) × Authorizes intent profile (evaluation_time evaluated_at clock) r
        × KeepsLimits platform r artifacts pack.body
  unfolding select_context
  pack_within_limits intent profile artifacts evaluated_at pack h =
      elim (Result-cases (
        request_of platform schema_messages_intent schema_messages_profile clock intent profile
          evaluated_at)) [
            | inl (e, y) ↦ absurd (ground arith)
            | inr (r, y) ↦ elim (Result-cases (select_all platform r artifacts nothing_selected)) [
              | inl (e, z) ↦ absurd (ground arith)
              | inr (s, z) ↦
                  let body : pack_body profile s ≡ pack.body = ground arith in
                  (
                    r,
                    request_of-Authorizes platform schema_messages_intent schema_messages_profile
                        clock intent profile evaluated_at r y,
                    subst (KeepsLimits platform r artifacts) body
                        (select_all-KeepsLimits platform profile r artifacts s z),
                  )
            ]
          ]
