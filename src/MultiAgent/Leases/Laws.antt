-- ===== src/MultiAgent/Leases/Laws.antt =====
-- The lease registry of multi_agent.py: who holds a writer key after `acquire` and `release`.
use trace_gate_framework.Prelude.{
  ℕ, String, ◌≡◌, ◌≢◌, ◌⊎◌, sym, true, inl, inr, Option, none, some, arith, string_eq_iff, ok,
  Bool-cases, ◌==◌, string_Eq, eq_refl, refl,
}
use trace_gate_framework.Prelude.Dict.{lookup, insert, lookup-insert, lookup-delete}
use trace_gate_framework.MultiAgent.Leases.{
  Lease, LeaseRegistry, is_held_by, acquire_over, acquire, release,
}

pub is_held_by_unique :
    (j k : String) (o : Option Lease) → is_held_by j o ≡ true → is_held_by k o ≡ true → j ≡ k
is_held_by_unique j k none p q = cc
is_held_by_unique j k (some c) p q =
    ground (arith, string_eq_iff c.holder j, string_eq_iff c.holder k)

module _ (w k : String) (e : ℕ) (l l' : LeaseRegistry) where
  acquire_over_cases :
      (o : Option Lease)
      → acquire_over o w k e l ≡ ok l'
      → (l' ≡ insert w (record { holder = k; expires_at = e }) l)
        × ((o ≡ none) ⊎ (is_held_by k o ≡ true))
  acquire_over_cases none h = (ground arith, inl refl)
  acquire_over_cases (some c) h = elim (Bool-cases (c.holder == k)) [
    | inl y ↦ (ground arith, inr y)
    | inr n ↦ absurd (ground arith)
  ]

  -- `acquire` returns exactly when the key is free or held by the task that asks.
  pub acquire_cases :
      acquire w k e l ≡ ok l'
      → (l' ≡ insert w (record { holder = k; expires_at = e }) l)
        × ((lookup w l ≡ none) ⊎ (is_held_by k (lookup w l) ≡ true))
  unfolding acquire
  acquire_cases = acquire_over_cases (lookup w l)

  module _ (got : acquire w k e l ≡ ok l') where
    -- `acquire` returns only with the key held by the task that asked.
    pub acquire-held : is_held_by k (lookup w l') ≡ true
    acquire-held = rw ((acquire_cases got).0, lookup-insert, eq_refl w) (eq_refl k)

    -- `acquire` takes no key away from the task that holds it.
    pub acquire_keeps :
        (v j : String) → is_held_by j (lookup v l) ≡ true → is_held_by j (lookup v l') ≡ true
    acquire_keeps v j h =
        rw ((acquire_cases got).0, lookup-insert)
          (elim (Bool-cases (w == v)) [
            | inr n ↦ rw n h
            | inl y ↦ rw y (kept ((string_eq_iff w v).0 y) (acquire_cases got).1)
          ])
      where
        kept : w ≡ v → (lookup w l ≡ none) ⊎ (is_held_by k (lookup w l) ≡ true) → (k == j) ≡ true
        kept p (inl free) = absurd (ground (arith, h, free, p))
        kept p (inr mine) = (string_eq_iff k j).1 (is_held_by_unique k j (lookup w l) mine (rw p h))

-- `release` takes away no key of another task.
pub release_keeps :
    (w k v j : String) (l : LeaseRegistry)
    → j ≢ k
    → is_held_by j (lookup v l) ≡ true
    → is_held_by j (lookup v (release w k l)) ≡ true
unfolding release
release_keeps w k v j l n h = elim (Bool-cases (is_held_by k (lookup w l))) [
  | inr other ↦ rw other h
  | inl mine ↦
      rw (mine, lookup-delete)
        (elim (Bool-cases (w == v)) [
          | inr e ↦ rw e h
          | inl e ↦
              absurd
                (n (is_held_by_unique j k (lookup v l) h (rw (sym ((string_eq_iff w v).0 e)) mine)))
        ])
]
