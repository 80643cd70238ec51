-- ===== src/MultiAgent/Coordinator/Invariant.antt =====
-- The well-formedness of `AgentCoordinator`, kept by `delegate`, `complete` and
-- `register_parent_scope` (`cancel_parent` is in Coordinator/Cancellation.antt).
use trace_gate_framework.Prelude.{
  some-inj, subst, ◌∙◌, ℕ, String, ◌≡◌, ◌≢◌, refl, sym, ap, ◌⊎◌, inl, inr, true, false, Option,
  none, some, List, [], ◌∷◌, arith, any, ok, traverse, Result-cases, Option-cases, Bool-cases,
  string_Eq, ◌==◌, is_unique, string_eq_iff,
}
use trace_gate_framework.Prelude.Dict.{
  Dict, lookup, values, keys, lookup-insert, lookup-insert_cases, is_unique-insert,
}
use trace_gate_framework.MultiAgent.Paths.{FilePath, path_identity, overlaps}
use trace_gate_framework.MultiAgent.Paths.Cover.{Disjoint, any-append, any-Disjoint}
use trace_gate_framework.MultiAgent.Leases.{LeaseRegistry, is_held_by}
use trace_gate_framework.MultiAgent.Leases.Laws.{acquire-held, acquire_keeps}
use trace_gate_framework.MultiAgent.Coordinator.{
  TaskContract, TaskState, AgentCoordinator, delegate, writer, is_running, acquire_writer,
  check_reservations, new_task, new_coordinator,
}
use trace_gate_framework.MultiAgent.Coordinator.Delegation.{Delegates, delegate-Delegates}

-- Task `k` is registered as `t` and running.
pub record Active (s : AgentCoordinator) (k : String) (t : TaskState) : Type 0 where
  pub registered : lookup k s.tasks ≡ some t
  pub runs : is_running t.status ≡ true

-- Task `k` is running, with the resolved write roots `xs` reserved for it.
pub record Reserved (s : AgentCoordinator) (k : String) (xs : List FilePath) : Type 0 where
  pub task : TaskState
  pub active : Active s k task
  pub roots : lookup k s.task_write_roots ≡ some xs

pub record IsConsistent (s : AgentCoordinator) : Type 0 where
  -- the tasks are a dictionary, under the ids of their contracts
  pub distinct : is_unique (keys s.tasks) ≡ true
  pub named : (k : String) (t : TaskState) → lookup k s.tasks ≡ some t → t.contract.task_id ≡ k
  -- every registered task has its resolved write roots
  pub rooted :
      (k : String) (t : TaskState)
      → lookup k s.tasks ≡ some t
      → (xs : List FilePath) × (lookup k s.task_write_roots ≡ some xs)
  -- a running task holds the lease of its writer key
  pub leased :
      (k w : String) (t : TaskState)
      → Active s k t
      → writer t.contract.writer_key ≡ some w
      → is_held_by k (lookup w s.leases) ≡ true
  -- the reserved roots of two running tasks share no location
  pub separate :
      (k j : String) (xs ys : List FilePath)
      → k ≢ j
      → Reserved s k xs
      → Reserved s j ys
      → Disjoint xs ys

pub IsConsistent-new : IsConsistent new_coordinator
unfolding lookup is_unique
IsConsistent-new = record {
  distinct = refl;
  named = λ k t h. cc;
  rooted = λ k t h. absurd (cc);
  leased = λ k w t a h. absurd (ground (arith, a.registered));
  separate = λ k j xs ys n p q. absurd (ground (arith, p.active.registered));
}

-- The loop of `delegate` compares with the reserved roots of every running task.
check_reservations-Disjoint :
    (resolve : String → FilePath) (writes : List FilePath) (roots : Dict (List FilePath))
    (d : Dict TaskState) (k : String) (t : TaskState) (xs : List FilePath)
    → check_reservations resolve writes roots (values d) ≡ ok tt
    → lookup k d ≡ some t
    → is_running t.status ≡ true
    → lookup t.contract.task_id roots ≡ some xs
    → Disjoint xs writes
unfolding check_reservations lookup
check_reservations-Disjoint resolve writes roots [] k t xs h e r x = cc
check_reservations-Disjoint resolve writes roots ((j, u) ∷ d) k t xs h e r x =
    elim (Option-cases (lookup u.contract.task_id roots)) [
      | inl a ↦ absurd (ground arith)
      | inr (active, a) ↦
          elim (Result-cases (traverse (path_identity resolve) u.contract.write_roots)) [
            | inl (y, b) ↦ absurd (ground arith)
            | inr (aliases, b) ↦ elim (Bool-cases (j == k)) [
              | inl y ↦
                  any-Disjoint xs writes (
                    ground (arith, any-append (λ p. any (λ q. overlaps p q) writes) active aliases))
              | inr n ↦
                  check_reservations-Disjoint resolve writes roots d k t xs (ground arith)
                    (ground arith) r x
            ]
          ]
    ]

acquire_writer-held :
    (o : Option String) (c : TaskContract) (l l' : LeaseRegistry) (w : String)
    → acquire_writer o c l ≡ ok l'
    → o ≡ some w
    → is_held_by c.task_id (lookup w l') ≡ true
acquire_writer-held none c l l' w got e = cc
acquire_writer-held (some x) c l l' w got e =
    subst (λ y. is_held_by c.task_id (lookup y l') ≡ true) (some-inj e)
      (acquire-held x c.task_id c.expires_at l l' got)

acquire_writer_keeps :
    (o : Option String) (c : TaskContract) (l l' : LeaseRegistry)
    → acquire_writer o c l ≡ ok l'
    → (w j : String) → is_held_by j (lookup w l) ≡ true
    → is_held_by j (lookup w l') ≡ true
acquire_writer_keeps none c l l' got w j h = ground arith
acquire_writer_keeps (some x) c l l' got w j h =
    acquire_keeps x c.task_id c.expires_at l l' got w j h

pub key_ne : (k j : String) → j ≢ k → (k == j) ≡ false
key_ne k j n = ground (arith, string_eq_iff k j)

module _ (resolve : String → FilePath) (now : ℕ) (c : TaskContract) {s s' : AgentCoordinator}
    (v : IsConsistent s) (h : delegate resolve now c s ≡ ok s') where
  d : Delegates resolve now c s s'
  d = delegate-Delegates resolve now c s s' h

  task_cases :
      (k : String) (t : TaskState)
      → lookup k s'.tasks ≡ some t
      → ((k ≡ c.task_id) × (t ≡ new_task c)) ⊎ ((k ≢ c.task_id) × (lookup k s.tasks ≡ some t))
  task_cases k t e = lookup-insert_cases c.task_id k (new_task c) t s.tasks (rw d.tasks at e)

  roots_cases :
      (k : String) (xs : List FilePath)
      → lookup k s'.task_write_roots ≡ some xs
      → ((k ≡ c.task_id) × (xs ≡ d.writes))
        ⊎ ((k ≢ c.task_id) × (lookup k s.task_write_roots ≡ some xs))
  roots_cases k xs e =
      lookup-insert_cases c.task_id k d.writes xs s.task_write_roots (rw d.roots at e)

  Reserved-cases :
      (k : String) (xs : List FilePath)
      → Reserved s' k xs
      → ((k ≡ c.task_id) × (xs ≡ d.writes)) ⊎ ((k ≢ c.task_id) × Reserved s k xs)
  Reserved-cases k xs p = elim (task_cases k p.task p.active.registered) [
    | inl (here, _) ↦ elim (roots_cases k xs p.roots) [
      | inl (_, e) ↦ inl (here, e)
      | inr (n, _) ↦ absurd (n here)
    ]
    | inr (other, old) ↦ elim (roots_cases k xs p.roots) [
      | inl (e, _) ↦ absurd (other e)
      | inr (_, r) ↦ inr (
        other,
        record {
          task = p.task;
          active = record { registered = old; runs = p.active.runs };
          roots = r;
        },
      )
    ]
  ]

  Reserved-Disjoint : (k : String) (xs : List FilePath) → Reserved s k xs → Disjoint xs d.writes
  Reserved-Disjoint k xs p =
      check_reservations-Disjoint resolve d.writes s.task_write_roots s.tasks k p.task xs
        d.unreserved p.active.registered p.active.runs
        (rw (v.named k p.task p.active.registered) p.roots)

  delegate-leased :
      (k w : String) (t : TaskState)
      → Active s' k t
      → writer t.contract.writer_key ≡ some w
      → is_held_by k (lookup w s'.leases) ≡ true
  delegate-leased k w t a e = elim (task_cases k t a.registered) [
    | inl (here, new) ↦ rw here (
        acquire_writer-held (writer c.writer_key) c s.leases s'.leases w d.acquired
          (ap (λ (u : TaskState). writer u.contract.writer_key) (sym new) ∙ e))
    | inr (_, old) ↦
        acquire_writer_keeps (writer c.writer_key) c s.leases s'.leases d.acquired w k
          (v.leased k w t (record { registered = old; runs = a.runs }) e)
  ]

  delegate-rooted :
      (k : String) (t : TaskState)
      → lookup k s'.tasks ≡ some t
      → (xs : List FilePath) × (lookup k s'.task_write_roots ≡ some xs)
  delegate-rooted k t e = elim (task_cases k t e) [
    | inl (here, _) ↦
        (d.writes, rw (d.roots, lookup-insert, (string_eq_iff c.task_id k).1 (sym here)))
    | inr (n, old) ↦
        let (xs, r) = v.rooted k t old in (xs, rw (d.roots, lookup-insert, key_ne c.task_id k n) r)
  ]

  delegate-separate :
      (k j : String) (xs ys : List FilePath)
      → k ≢ j
      → Reserved s' k xs
      → Reserved s' j ys
      → Disjoint xs ys
  delegate-separate k j xs ys n p q l x y = elim (Reserved-cases k xs p) [
    | inl (a, e) ↦ elim (Reserved-cases j ys q) [
      | inl (b, f) ↦ n (a ∙ sym b)
      | inr (_, old) ↦ Reserved-Disjoint j ys old l y (rw e at x)
    ]
    | inr (_, old) ↦ elim (Reserved-cases j ys q) [
      | inl (b, f) ↦ Reserved-Disjoint k xs old l x (rw f at y)
      | inr (_, old') ↦ v.separate k j xs ys n old old' l x y
    ]
  ]

  pub delegate-IsConsistent : IsConsistent s'
  delegate-IsConsistent = record {
    distinct = rw d.tasks (is_unique-insert c.task_id (new_task c) s.tasks v.distinct);
    named = λ k t e. elim (task_cases k t e) [
      | inl (a, b) ↦ ap (λ (u : TaskState). u.contract.task_id) b ∙ sym a
      | inr (n, old) ↦ v.named k t old
    ];
    rooted = delegate-rooted;
    leased = delegate-leased;
    separate = delegate-separate;
  }
