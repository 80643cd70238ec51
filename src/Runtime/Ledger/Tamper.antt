-- ===== src/Runtime/Ledger/Tamper.antt =====
-- The hash chain of runtime.py: what a trusted head digest says of the whole ledger, and `append`.
use mathlib.Core.List.{reverse, reverse-cons, reverse-append, reverse-reverse}
use trace_gate_framework.Prelude.{
  String, ◌≡◌, ◌≢◌, ◌⊎◌, refl, sym, ap, ◌∙◌, inl, inr, Option, none, some, List, [], ◌∷◌, ◌++◌,
  last?, ok, some-inj, Among, Among-append, subst, string_discrete,
}
use trace_gate_framework.Runtime.Events.{Unsigned, Event, Unsigned-discrete}
use trace_gate_framework.Runtime.Ledger.{Scan, head_digest, digest_event, validate}
use trace_gate_framework.Runtime.Ledger.Scanning.{Scans, IsScanOf, validate_induction, last?-snoc}

event_of_parts : (e f : Event) → e.unsigned ≡ f.unsigned → e.digest ≡ f.digest → e ≡ f
event_of_parts e f p q = λ i. record { unsigned = p i; digest = q i }

abbrev newest : List Event → Option String
newest [] = none
newest (e ∷ es) = some e.digest

module _ (sha256 : String → String) (dumps : Unsigned → String) where
  -- Two different contents of which canonical JSON gives one text, or SHA-256 gives the two texts one
  -- digest.
  abbrev pub IsConfused : Unsigned → Unsigned → Type 0
  IsConfused u v =
      (u ≢ v)
      × ((dumps u ≡ dumps v)
          ⊎ ((dumps u ≢ dumps v) × (digest_event sha256 dumps u ≡ digest_event sha256 dumps v)))

  -- An event of the one ledger and one of the other that are confused.
  abbrev pub Collision : List Event → List Event → Type 0
  Collision es fs = (e f : Event) × Among e es × Among f fs × IsConfused e.unsigned f.unsigned

  confused :
      (u v : Unsigned)
      → u ≢ v
      → digest_event sha256 dumps u ≡ digest_event sha256 dumps v
      → IsConfused u v
  confused u v n h = (
    n,
    elim (string_discrete (dumps u) (dumps v)) [ yes same ↦ inl same | no apart ↦ inr (apart, h) ],
  )

  Among-reverse : (e : Event) (es : List Event) → Among e (reverse es) → Among e es
  Among-reverse e [] m = m
  Among-reverse e (x ∷ es) m =
      elim (Among-append e (reverse es) (x ∷ []) (subst (λ xs. Among e xs) (reverse-cons x es) m)) [
        | inl before ↦ inr (Among-reverse e es before)
        | inr (inl last) ↦ inl last
        | inr (inr none_left) ↦ absurd none_left
      ]

  -- A chain, newest event first.
  abbrev IsChain : List Event → Type 0
  IsChain [] = Unit
  IsChain (e ∷ es) =
      (e.digest ≡ digest_event sha256 dumps e.unsigned)
      × (e.previous_digest ≡ newest es)
      × IsChain es

  last?-reverse : (rs : List Event) → newest rs ≡ head_digest (last? (reverse rs))
  last?-reverse [] = refl
  last?-reverse (r ∷ rs) = rw (reverse-cons r rs, last?-snoc)

  newest-reverse : (es : List Event) → newest (reverse es) ≡ head_digest (last? es)
  newest-reverse es =
      last?-reverse (reverse es) ∙ ap (λ xs. head_digest (last? xs)) (reverse-reverse es)

  validate-IsChain : (es : List Event) → validate sha256 dumps es ≡ ok tt → IsChain (reverse es)
  validate-IsChain es h =
      (validate_induction sha256 dumps (λ done s. IsChain (reverse done)) step tt es h).2
    where
      step :
          (done : List Event) (e : Event) (s s' : Scan)
          → Scans sha256 dumps e s s'
          → IsScanOf sha256 dumps done s
          → IsChain (reverse done)
          → IsChain (reverse (done ++ e ∷ []))
      step done e s s' t v p =
          rw (reverse-append done (e ∷ []))
            (t.signed, t.previous ∙ v.previous ∙ sym (newest-reverse done), p)

  same_chain :
      (es fs : List Event)
      → IsChain es
      → IsChain fs
      → newest es ≡ newest fs
      → (es ≡ fs) ⊎ Collision es fs
  same_chain [] [] p q h = inl refl
  same_chain [] (f ∷ fs) p q h = cc
  same_chain (e ∷ es) [] p q h = cc
  same_chain (e ∷ es) (f ∷ fs) p q h = elim (Unsigned-discrete e.unsigned f.unsigned) [
    | no n ↦
        inr
          (e, f, inl refl, inl refl, confused e.unsigned f.unsigned n (sym p.0 ∙ some-inj h ∙ q.0))
    | yes y ↦
        elim (same_chain es fs p.2 q.2
          (sym p.1 ∙ ap (λ (u : Unsigned). u.previous_digest) y ∙ q.1)) [
            | inl same ↦ inl (cc (same, event_of_parts e f y (some-inj h)))
            | inr (x, y, mx, my, found) ↦ inr (x, y, inr mx, inr my, found)
          ]
  ]

  -- Two accepted ledgers with one head digest are one ledger, event by event, unless an event of the
  -- one and an event of the other differ in content and have one canonical text, or two texts to
  -- which SHA-256 gives one digest.
  pub head_digest_binds :
      (es fs : List Event)
      → validate sha256 dumps es ≡ ok tt
      → validate sha256 dumps fs ≡ ok tt
      → head_digest (last? es) ≡ head_digest (last? fs)
      → (es ≡ fs) ⊎ Collision es fs
  head_digest_binds es fs p q h =
      elim (same_chain (reverse es) (reverse fs) (validate-IsChain es p) (validate-IsChain fs q)
        (newest-reverse es ∙ h ∙ sym (newest-reverse fs))) [
          | inl e ↦ inl (sym (reverse-reverse es) ∙ ap reverse e ∙ reverse-reverse fs)
          | inr (e, f, me, mf, found) ↦
              inr (e, f, Among-reverse e es me, Among-reverse f fs mf, found)
        ]
