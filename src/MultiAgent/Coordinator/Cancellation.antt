-- ===== src/MultiAgent/Coordinator/Cancellation.antt =====
-- `AgentCoordinator.cancel_parent`: its loop over the tasks, entry by entry.
use trace_gate_framework.Prelude.{
  String, ◌≡◌, ◌≢◌, refl, sym, ap, ◌∙◌, inl, inr, true, false, Option, none, some, [], ◌∷◌, arith,
  Bool-cases, string_Eq, ◌==◌, is_unique, string_eq_iff, eq_refl, if◌then◌else◌, eq_ne, contains,
  some-inj,
}
use trace_gate_framework.Prelude.Dict.{Dict, lookup, keys, lookup-contains, lookup-delete}
use trace_gate_framework.MultiAgent.Leases.{LeaseRegistry, is_held_by, release}
use trace_gate_framework.MultiAgent.Leases.Laws.{release_keeps}
use trace_gate_framework.MultiAgent.Coordinator.{
  TaskState, cancelled, writer, release_writer, is_cancelled_by, cancel_tasks,
}

abbrev pub cancelled_task : TaskState → TaskState
cancelled_task t = record t { status = cancelled }

-- What `cancel_parent` makes of one task.
abbrev pub cancel_task : String → TaskState → TaskState
cancel_task p t = if is_cancelled_by p t then cancelled_task t else t

pub release_writer_keeps :
    (o : Option String) (k w j : String) (l : LeaseRegistry)
    → j ≢ k
    → is_held_by j (lookup w l) ≡ true
    → is_held_by j (lookup w (release_writer o k l)) ≡ true
release_writer_keeps none k w j l n h = h
release_writer_keeps (some x) k w j l n h = release_keeps x k w j l n h

release_writer-none :
    (o : Option String) (k w : String) (l : LeaseRegistry)
    → lookup w l ≡ none
    → lookup w (release_writer o k l) ≡ none
unfolding release
release_writer-none none k w l h = h
release_writer-none (some x) k w l h = elim (Bool-cases (is_held_by k (lookup x l))) [
  | inr a ↦ rw a h
  | inl a ↦ rw (a, lookup-delete) (ground arith)
]

pub release-freed :
    (w k : String) (l : LeaseRegistry)
    → is_held_by k (lookup w l) ≡ true
    → lookup w (release w k l) ≡ none
unfolding release
release-freed w k l h = rw (h, lookup-delete, eq_refl w)

module _ (p : String) where
  pub keys-cancel_tasks :
      (d : Dict TaskState) (l : LeaseRegistry) → keys (cancel_tasks p d l).tasks ≡ keys d
  unfolding cancel_tasks
  keys-cancel_tasks [] l = refl
  keys-cancel_tasks ((j, u) ∷ d) l = ap (λ ks. j ∷ ks) (keys-cancel_tasks d _)

  -- A task is registered after the call exactly when it was before, cancelled if it was hit.
  pub lookup-cancel_tasks :
      (k : String) (d : Dict TaskState) (l : LeaseRegistry) (t : TaskState)
      → lookup k d ≡ some t
      → lookup k (cancel_tasks p d l).tasks ≡ some (cancel_task p t)
  unfolding cancel_tasks lookup
  lookup-cancel_tasks k [] l t h = cc
  lookup-cancel_tasks k ((j, u) ∷ d) l t h = elim (Bool-cases (j == k)) [
    | inl y ↦ rw y (ap (λ x. some (cancel_task p x)) (some-inj (rw y at h)))
    | inr n ↦ rw n (lookup-cancel_tasks k d _ t (rw n at h))
  ]

  pub lookup-cancel_tasks-none :
      (k : String) (d : Dict TaskState) (l : LeaseRegistry)
      → lookup k d ≡ none
      → lookup k (cancel_tasks p d l).tasks ≡ none
  unfolding cancel_tasks lookup
  lookup-cancel_tasks-none k [] l h = refl
  lookup-cancel_tasks-none k ((j, u) ∷ d) l h = elim (Bool-cases (j == k)) [
    | inl y ↦ absurd (ground arith)
    | inr n ↦ rw n (lookup-cancel_tasks-none k d _ (rw n at h))
  ]

  -- Leases that were free stay free.
  lease-none :
      (w : String) (d : Dict TaskState) (l : LeaseRegistry)
      → lookup w l ≡ none
      → lookup w (cancel_tasks p d l).leases ≡ none
  unfolding cancel_tasks
  lease-none w [] l h = h
  lease-none w ((j, u) ∷ d) l h = elim (Bool-cases (is_cancelled_by p u)) [
    | inl y ↦ rw y (lease-none w d _ (release_writer-none (writer u.contract.writer_key) j w l h))
    | inr n ↦ rw n (lease-none w d l h)
  ]

  -- A task that is not hit keeps its leases.
  pub lease_kept :
      (k w : String) (d : Dict TaskState) (l : LeaseRegistry)
      → is_unique (keys d) ≡ true
      → ((t : TaskState) → lookup k d ≡ some t → is_cancelled_by p t ≡ false)
      → is_held_by k (lookup w l) ≡ true
      → is_held_by k (lookup w (cancel_tasks p d l).leases) ≡ true
  unfolding cancel_tasks lookup is_unique
  lease_kept k w [] l q f h = h
  lease_kept k w ((j, u) ∷ d) l q f h = elim (Bool-cases (is_cancelled_by p u)) [
    | inl y ↦ rw y (
        lease_kept k w d _ (ground arith) rest
          (release_writer_keeps (writer u.contract.writer_key) j w k l (ne y) h))
    | inr n ↦ rw n (lease_kept k w d l (ground arith) rest h)
  ]
    where
      ne : is_cancelled_by p u ≡ true → k ≢ j
      ne y e = cc (y, f u (rw ((string_eq_iff j k).1 (sym e)) refl))

      rest : (t : TaskState) → lookup k d ≡ some t → is_cancelled_by p t ≡ false
      rest t e = elim (Bool-cases (j == k)) [
        | inl y ↦ absurd (ground (arith, lookup-contains k d t e, (string_eq_iff j k).0 y))
        | inr n ↦ f t (rw n e)
      ]

  ids-keys :
      (k : String) (d : Dict TaskState) (l : LeaseRegistry)
      → contains k (keys d) ≡ false
      → contains k (cancel_tasks p d l).ids ≡ false
  unfolding cancel_tasks contains
  ids-keys k [] l h = refl
  ids-keys k ((j, u) ∷ d) l h = elim (Bool-cases (is_cancelled_by p u)) [
    | inl c ↦ ground (arith, ids-keys k d (release_writer (writer u.contract.writer_key) j l))
    | inr c ↦ ground (arith, ids-keys k d l)
  ]

  -- The returned ids are those of the tasks that were hit.
  pub contains-ids :
      (k : String) (d : Dict TaskState) (l : LeaseRegistry) (t : TaskState)
      → is_unique (keys d) ≡ true
      → lookup k d ≡ some t
      → contains k (cancel_tasks p d l).ids ≡ is_cancelled_by p t
  unfolding cancel_tasks lookup is_unique contains
  contains-ids k [] l t q h = cc
  contains-ids k ((j, u) ∷ d) l t q h = elim (Bool-cases (j == k)) [
    | inl y ↦ elim (Bool-cases (is_cancelled_by p u)) [
      | inl c ↦ ground arith
      | inr c ↦ ground (arith, ids-keys k d l, (string_eq_iff j k).0 y)
    ]
    | inr n ↦ elim (Bool-cases (is_cancelled_by p u)) [
      | inl c ↦
          ground (arith, contains-ids k d (release_writer (writer u.contract.writer_key) j l) t)
      | inr c ↦ ground (arith, contains-ids k d l t)
    ]
  ]

  -- The lease of a task that was hit is free afterwards.
  pub lease_freed :
      (k w : String) (d : Dict TaskState) (l : LeaseRegistry) (t : TaskState)
      → lookup k d ≡ some t
      → is_cancelled_by p t ≡ true
      → writer t.contract.writer_key ≡ some w
      → is_held_by k (lookup w l) ≡ true
      → lookup w (cancel_tasks p d l).leases ≡ none
  unfolding cancel_tasks lookup
  lease_freed k w [] l t e c o h = cc
  lease_freed k w ((j, u) ∷ d) l t e c o h = elim (Bool-cases (j == k)) [
    | inl y ↦ rw (ap (is_cancelled_by p) (same y) ∙ c) (
        lease-none w d _ (
          rw (ap (λ (x : TaskState). writer x.contract.writer_key) (same y) ∙ o)
            (release-freed w j l (rw ((string_eq_iff j k).0 y) h))))
    | inr n ↦ elim (Bool-cases (is_cancelled_by p u)) [
      | inl x ↦ rw x (
          lease_freed k w d _ t (ground arith) c o (
            release_writer_keeps (writer u.contract.writer_key) j w k l (λ q. eq_ne j k n (sym q))
              h))
      | inr x ↦ rw x (lease_freed k w d l t (ground arith) c o h)
    ]
  ]
    where
      same : (j == k) ≡ true → u ≡ t
      same y = some-inj (rw y at e)
