-- ===== src/Migration/Depth.antt =====
-- migration.py: how far down the walk over the parents of artifacts can go.
use trace_gate_framework.Prelude.{
  ℕ, suc, ◌≤◌, ◌<◌, String, string_Eq, string_eq_iff, ◌≡◌, inl, inr, sym, subst, true, false, ◌==◌,
  eq_sym, some, List, [], ◌∷◌, if◌then◌else◌, contains, length, arith, Bool-cases,
}
use trace_gate_framework.Prelude.Dict.{Dict, lookup}

-- How many artifacts are not on the way down.
unfoldable pub free : Dict (List String) → List String → ℕ
free [] visiting = 0
free ((k, parents) ∷ graph) visiting =
    let rest = free graph visiting in if contains k visiting then rest else suc rest

pub free_bounded :
    (graph : Dict (List String)) (visiting : List String) → free graph visiting ≤ length graph
unfolding free
free_bounded [] visiting = omega arith
free_bounded ((k, parents) ∷ graph) visiting = ground (arith, free_bounded graph visiting)

free_shrinks :
    (graph : Dict (List String)) (visiting : List String) (node : String)
    → free graph (node ∷ visiting) ≤ free graph visiting
unfolding free contains
free_shrinks [] visiting node = omega arith
free_shrinks ((k, parents) ∷ graph) visiting node = ground (arith, free_shrinks graph visiting node)

pub free_drops :
    (graph : Dict (List String)) (visiting parents : List String) (node : String)
    → lookup node graph ≡ some parents
    → contains node visiting ≡ false
    → free graph (node ∷ visiting) < free graph visiting
unfolding free contains lookup
free_drops [] visiting parents node found fresh = absurd (ground arith)
free_drops ((k, own) ∷ graph) visiting parents node found fresh = elim (Bool-cases (k == node)) [
  | inl y ↦
      let apart : contains k visiting ≡ false =
        subst (λ (t : String). contains t visiting ≡ false) (sym ((string_eq_iff k node).0 y))
          fresh in
      let same : (node == k) ≡ true = (string_eq_iff node k).1 (sym ((string_eq_iff k node).0 y)) in
      rw (same, apart) (omega (arith, free_shrinks graph visiting node))
  | inr n ↦
      ground (arith, eq_sym k node, free_drops graph visiting parents node (rw n at found) fresh)
]
