-- ===== src/Semantic/Order.antt =====
-- semantic.py: the candidates of the loop are those that were given.
use trace_gate_framework.Prelude.{
  ◌≡◌, ◌⊎◌, inl, inr, Bool, true, false, List, [], ◌∷◌, if◌then◌else◌, Among,
}
use trace_gate_framework.Semantic.{Candidate}
use trace_gate_framework.Semantic.Selecting.{by_score, place_candidate, less}

Among-if :
    {A : Type 0} (b : Bool) (x : A) (xs ys : List A)
    → Among x (if b then xs else ys)
    → Among x xs ⊎ Among x ys
Among-if true x xs ys m = inl m
Among-if false x xs ys m = inr m

Among-placed :
    (x c : Candidate) (ds : List Candidate) → Among x (place_candidate c ds) → (x ≡ c) ⊎ Among x ds
unfolding place_candidate
Among-placed x c [] m = m
Among-placed x c (d ∷ ds) m =
    elim (Among-if (less c.score d.score) x (d ∷ place_candidate c ds) (c ∷ d ∷ ds) m) [
      | inl (inl e) ↦ inr (inl e)
      | inl (inr n) ↦ elim (Among-placed x c ds n) [ inl e ↦ inl e | inr o ↦ inr (inr o) ]
      | inr n ↦ n
    ]

pub Among-by_score : (x : Candidate) (cs : List Candidate) → Among x (by_score cs) → Among x cs
unfolding by_score
Among-by_score x [] m = m
Among-by_score x (c ∷ cs) m = elim (Among-placed x c (by_score cs) m) [
  | inl e ↦ inl e
  | inr n ↦ inr (Among-by_score x cs n)
]
