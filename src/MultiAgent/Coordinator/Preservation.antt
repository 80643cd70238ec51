-- ===== src/MultiAgent/Coordinator/Preservation.antt =====
-- `complete`, `cancel_parent` and `register_parent_scope` of `AgentCoordinator` start no task and
-- keep the coordinator consistent.
use trace_gate_framework.Prelude.{
  ℕ, String, ◌≡◌, ◌≢◌, refl, sym, ap, ◌∙◌, inl, inr, Bool, true, false, some, List, ◌<◌, arith,
  Bool-cases, Option-cases, string_Eq, is_unique, some-inj, ok, Result-cases, traverse, subst,
}
use trace_gate_framework.Prelude.Dict.{
  Dict, lookup, keys, lookup-insert_cases, is_unique-insert, insert,
}
use trace_gate_framework.MultiAgent.Paths.{FilePath, path_identity}
use trace_gate_framework.MultiAgent.Leases.{is_held_by}
use trace_gate_framework.MultiAgent.Coordinator.{
  TaskContract, TaskState, AgentCoordinator, completed, writer, is_running, complete,
  register_parent_scope, release_writer, is_cancelled_by, cancel_tasks, cancel_parent,
}
use trace_gate_framework.MultiAgent.Coordinator.Invariant.{Active, Reserved, IsConsistent}
use trace_gate_framework.MultiAgent.Coordinator.Cancellation.{
  cancel_task, release_writer_keeps, keys-cancel_tasks, lookup-cancel_tasks,
  lookup-cancel_tasks-none, lease_kept,
}

abbrev pub done_task : Dict String → List String → TaskState → TaskState
done_task artifacts refs t = record t {
  status = completed;
  artifacts = artifacts;
  evidence_refs = refs;
}

module _ (now : ℕ) (k : String) (artifacts : Dict String) (refs : List String) (passed : Bool)
    (s s' : AgentCoordinator) where
  -- What a call of `complete` that returns has checked and written.
  pub record Completes : Type 0 where
    pub task : TaskState
    pub active : Active s k task
    pub unexpired : now < task.contract.expires_at
    pub verified : passed ≡ true
    pub written : s' ≡ record s {
      tasks = insert k (done_task artifacts refs task) s.tasks;
      leases = release_writer (writer task.contract.writer_key) k s.leases;
    }

  pub complete-Completes : complete now k artifacts refs passed s ≡ ok s' → Completes
  unfolding complete
  complete-Completes h = elim (Option-cases (lookup k s.tasks)) [
    | inl e ↦ absurd (ground arith)
    | inr (t, e) ↦ record {
      task = t;
      active = record { registered = e; runs = ground arith };
      unexpired = ground arith;
      verified = ground arith;
      written = ground arith;
    }
  ]

-- A call that starts no task, drops none, changes no contract and takes no lease of a task that
-- goes on running keeps the coordinator consistent.
pub record Winds (s s' : AgentCoordinator) : Type 0 where
  pub distinct : is_unique (keys s'.tasks) ≡ true
  pub roots : s'.task_write_roots ≡ s.task_write_roots
  pub origin :
      (k : String) (t : TaskState)
      → lookup k s'.tasks ≡ some t
      → (u : TaskState) × (lookup k s.tasks ≡ some u) × (t.contract ≡ u.contract)
  pub still : (k : String) (t : TaskState) → Active s' k t → Active s k t
  pub kept :
      (k w : String) (t : TaskState)
      → Active s' k t
      → is_held_by k (lookup w s.leases) ≡ true
      → is_held_by k (lookup w s'.leases) ≡ true

pub Winds-IsConsistent : {s s' : AgentCoordinator} → Winds s s' → IsConsistent s → IsConsistent s'
Winds-IsConsistent {s} {s'} m v = record {
  distinct = m.distinct;
  named = λ k t e.
      let (u, o, c) = m.origin k t e in ap (λ (x : TaskContract). x.task_id) c ∙ v.named k u o;
  rooted =
      λ k t e. let (u, o, c) = m.origin k t e in let (xs, r) = v.rooted k u o in (xs, rw m.roots r);
  leased = λ k w t a e. m.kept k w t a (v.leased k w t (m.still k t a) e);
  separate = λ k j xs ys n p q. v.separate k j xs ys n (before k xs p) (before j ys q);
}
  where
    before : (k : String) (xs : List FilePath) → Reserved s' k xs → Reserved s k xs
    before k xs p = record {
      task = p.task;
      active = m.still k p.task p.active;
      roots = rw (sym m.roots) p.roots;
    }

module _ (now : ℕ) (k : String) (artifacts : Dict String) (refs : List String) (passed : Bool)
    {s s' : AgentCoordinator} (v : IsConsistent s)
    (h : complete now k artifacts refs passed s ≡ ok s') where
  c : Completes now k artifacts refs passed s s'
  c = complete-Completes now k artifacts refs passed s s' h

  abbrev done : TaskState
  done = done_task artifacts refs c.task

  after_complete : AgentCoordinator
  after_complete = record s {
    tasks = insert k done s.tasks;
    leases = release_writer (writer c.task.contract.writer_key) k s.leases;
  }

  other : (j : String) (u : TaskState) → Active after_complete j u → (j ≢ k) × Active s j u
  unfolding after_complete
  other j u a = elim (lookup-insert_cases k j done u s.tasks a.registered) [
    | inl (_, e) ↦ absurd (cc a.runs)
    | inr (n, old) ↦ (n, record { registered = old; runs = a.runs })
  ]

  pub complete-Winds : Winds s s'
  unfolding after_complete
  complete-Winds = subst (Winds s) (sym c.written) (record {
    distinct = is_unique-insert k done s.tasks v.distinct;
    roots = refl;
    origin = λ j u e. elim (lookup-insert_cases k j done u s.tasks e) [
      | inl (here, new) ↦
          (c.task, rw here c.active.registered, ap (λ (x : TaskState). x.contract) new)
      | inr (_, old) ↦ (u, old, refl)
    ];
    still = λ j u a. (other j u a).1;
    kept = λ j w u a x.
        release_writer_keeps (writer c.task.contract.writer_key) k w j s.leases (other j u a).0 x;
  })

not_cancelled :
    (p : String) (u t : TaskState)
    → t ≡ cancel_task p u
    → is_running t.status ≡ true
    → (t ≡ u) × (is_cancelled_by p t ≡ false)
not_cancelled p u t e r = elim (Bool-cases (is_cancelled_by p u)) [
  | inl y ↦
      let stopped : false ≡ true =
        subst (λ (x : TaskState). is_running x.status ≡ true) (rw y at e) r in
      absurd (cc stopped)
  | inr n ↦
      let same : t ≡ u = (rw n at e) in
      (same, subst (λ (x : TaskState). is_cancelled_by p x ≡ false) (sym same) n)
]

module _ (p : String) {s : AgentCoordinator} (v : IsConsistent s) where
  cancel_origin :
      (k : String) (t : TaskState)
      → lookup k (cancel_tasks p s.tasks s.leases).tasks ≡ some t
      → (u : TaskState) × (lookup k s.tasks ≡ some u) × (t ≡ cancel_task p u)
  cancel_origin k t e = elim (Option-cases (lookup k s.tasks)) [
    | inl x ↦ absurd (cc (e, lookup-cancel_tasks-none p k s.tasks s.leases x))
    | inr (u, x) ↦ (u, x, some-inj (sym e ∙ lookup-cancel_tasks p k s.tasks s.leases u x))
  ]

  cancel_still :
      (k : String) (t : TaskState)
      → Active (cancel_parent p s).0 k t
      → (lookup k s.tasks ≡ some t) × (is_cancelled_by p t ≡ false)
  unfolding cancel_parent
  cancel_still k t a =
      let (u, x, e) = cancel_origin k t a.registered in
      let (same, n) = not_cancelled p u t e a.runs in (x ∙ ap some (sym same), n)

  pub cancel_parent-Winds : Winds s (cancel_parent p s).0
  unfolding cancel_parent
  cancel_parent-Winds = record {
    distinct = rw keys-cancel_tasks v.distinct;
    roots = refl;
    origin = λ k t e. let (u, x, y) = cancel_origin k t e in (u, x, contract_kept u t y);
    still = λ k t a. record { registered = (cancel_still k t a).0; runs = a.runs };
    kept = λ k w t a x.
        lease_kept p k w s.tasks s.leases v.distinct
          (λ u e. rw (some-inj (sym e ∙ (cancel_still k t a).0)) (cancel_still k t a).1) x;
  }
    where
      contract_kept : (u t : TaskState) → t ≡ cancel_task p u → t.contract ≡ u.contract
      contract_kept u t e = elim (Bool-cases (is_cancelled_by p u)) [
        | inl y ↦ ap (λ (x : TaskState). x.contract) e ∙ rw y
        | inr n ↦ ap (λ (x : TaskState). x.contract) e ∙ rw n
      ]

module _ (resolve : String → FilePath) (run : String) (reads writes tools : List String)
    (s s' : AgentCoordinator)
    (h : register_parent_scope resolve run reads writes tools s ≡ ok s') where
  register_fields :
      (s'.tasks ≡ s.tasks) × (s'.leases ≡ s.leases) × (s'.task_write_roots ≡ s.task_write_roots)
  unfolding register_parent_scope
  register_fields = elim (Result-cases (traverse (path_identity resolve) reads)) [
    | inl (x, r) ↦ absurd (ground arith)
    | inr (a, r) ↦ elim (Result-cases (traverse (path_identity resolve) writes)) [
      | inl (x, w) ↦ absurd (ground arith)
      | inr (b, w) ↦ ground arith
    ]
  ]

  pub register-Winds : IsConsistent s → Winds s s'
  register-Winds v = record {
    distinct = rw register_fields.0 v.distinct;
    roots = register_fields.2;
    origin = λ k t e. (t, rw register_fields.0 at e, refl);
    still = λ k t a. record { registered = rw register_fields.0 at a.registered; runs = a.runs };
    kept = λ k w t a x. rw register_fields.1 x;
  }
