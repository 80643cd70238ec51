-- ===== src/Runtime/Ledger/Scanning.antt =====
-- What the loop of `EventStore.validate` has gathered after a prefix of the ledger.
use mathlib.Core.List.{append-nil, append_assoc}
use trace_gate_framework.Prelude.{
  ◌+◌, String, ◌≡◌, refl, sym, subst, ap, ◌∙◌, inl, inr, some, List, [], ◌∷◌, ◌++◌, arith, ◌==◌,
  string_Eq, string_eq_iff, nat_eq_iff, option_eq_iff, nat_Eq, option_Eq, Bool-cases, if◌then◌else◌,
  length, length-append, last?, ok, ◌>>=◌, Result-cases,
}
use trace_gate_framework.Prelude.Dict.{lookup, insert, lookup-insert}
use trace_gate_framework.Runtime.Events.{Unsigned, Event}
use trace_gate_framework.Runtime.Ledger.{
  Scan, scan_start, run_of, head_digest, digest_event, check_event, scan_event, scan, validate,
}

-- The events of one run, in order.
unfoldable pub events_of : String → List Event → List Event
events_of r [] = []
events_of r (e ∷ es) = let rest = events_of r es in if e.run_id == r then e ∷ rest else rest

pub events_of-append :
    (r : String) (xs ys : List Event) → events_of r (xs ++ ys) ≡ events_of r xs ++ events_of r ys
unfolding events_of
events_of-append r [] ys = refl
events_of-append r (x ∷ xs) ys = ground (arith, events_of-append r xs ys)

pub last?-snoc {ℓ} : {A : Type ℓ} (xs : List A) (x : A) → last? (xs ++ x ∷ []) ≡ some x
last?-snoc [] x = refl
last?-snoc (y ∷ []) x = refl
last?-snoc (y ∷ z ∷ xs) x = last?-snoc (z ∷ xs) x

module _ (sha256 : String → String) (dumps : Unsigned → String) where
  pub scan-append :
      (xs ys : List Event) (s : Scan)
      → scan sha256 dumps (xs ++ ys) s ≡ (scan sha256 dumps xs s >>= scan sha256 dumps ys)
  unfolding scan
  scan-append [] ys s = refl
  scan-append (x ∷ xs) ys s = elim (Result-cases (scan_event sha256 dumps x s)) [
    | inl (e, h) ↦ rw h
    | inr (t, h) ↦ rw h (scan-append xs ys t)
  ]

  -- What a round that returns has checked and gathered.
  pub record Scans (e : Event) (s s' : Scan) : Type 0 where
    pub sequence : e.sequence ≡ s.position
    pub previous : e.previous_digest ≡ s.previous
    pub signed : e.digest ≡ digest_event sha256 dumps e.unsigned
    pub checked : check_event sha256 dumps (run_of (lookup e.run_id s.per_run)) e.body ≡ ok tt
    pub position : s'.position ≡ s.position + 1
    pub head : s'.previous ≡ some e.digest
    pub runs : s'.per_run ≡ insert e.run_id (run_of (lookup e.run_id s.per_run) ++ e ∷ []) s.per_run

  pub scan_event-Scans :
      (e : Event) (s s' : Scan) → scan_event sha256 dumps e s ≡ ok s' → Scans e s s'
  unfolding scan_event
  scan_event-Scans e s s' h = record {
    sequence = ground (arith, nat_eq_iff e.sequence s.position);
    previous = ground (arith, option_eq_iff e.previous_digest s.previous);
    signed = ground (arith, string_eq_iff e.digest (digest_event sha256 dumps e.unsigned));
    checked = ground arith;
    position = ground arith;
    head = ground arith;
    runs = ground arith;
  }

  -- The scan of a ledger that was accepted so far.
  pub record IsScanOf (done : List Event) (s : Scan) : Type 0 where
    pub position : s.position ≡ length done + 1
    pub previous : s.previous ≡ head_digest (last? done)
    pub runs : (r : String) → run_of (lookup r s.per_run) ≡ events_of r done

  pub IsScanOf-start : IsScanOf [] scan_start
  unfolding events_of lookup
  IsScanOf-start = record { position = refl; previous = refl; runs = λ r. refl }

  pub Scans-IsScanOf :
      (done : List Event) (e : Event) (s s' : Scan)
      → Scans e s s'
      → IsScanOf done s
      → IsScanOf (done ++ e ∷ []) s'
  unfolding events_of
  Scans-IsScanOf done e s s' t v = record {
    position = omega (arith, t.position, v.position, length-append done (e ∷ []));
    previous = rw last?-snoc t.head;
    runs = λ r.
        rw (t.runs, lookup-insert, events_of-append)
          (elim (Bool-cases (e.run_id == r)) [
            | inl y ↦
                rw (y, ← (string_eq_iff e.run_id r).0 y) (ap (λ xs. xs ++ e ∷ []) (v.runs e.run_id))
            | inr n ↦ rw n (v.runs r ∙ sym (append-nil (events_of r done)))
          ]);
  }

  -- A property that every round keeps holds after the loop.
  pub scan_induction :
      (P : List Event → Scan → Type 0)
      → ((done : List Event) (e : Event) (s s' : Scan)
          → Scans e s s'
          → IsScanOf done s
          → P done s
          → P (done ++ e ∷ []) s')
      → (done es : List Event) (s s' : Scan) → scan sha256 dumps es s ≡ ok s'
      → IsScanOf done s
      → P done s
      → IsScanOf (done ++ es) s' × P (done ++ es) s'
  unfolding scan
  scan_induction P step done [] s s' h v p =
      let same : s ≡ s' = ground arith in
      rw append-nil (subst (λ x. IsScanOf done x × P done x) same (v, p))
  scan_induction P step done (e ∷ es) s s' h v p =
      elim (Result-cases (scan_event sha256 dumps e s)) [
        | inl (x, y) ↦ absurd (ground arith)
        | inr (t, y) ↦
            let round : Scans e s t = scan_event-Scans e s t y in
            let rest =
              scan_induction P step (done ++ e ∷ []) es t s' (ground arith)
                (Scans-IsScanOf done e s t round v) (step done e s t round v p) in
            subst (λ xs. IsScanOf xs s' × P xs s') (append_assoc done (e ∷ []) es) rest
      ]

  pub validate-scan :
      (es : List Event)
      → validate sha256 dumps es ≡ ok tt
      → (s : Scan) × (scan sha256 dumps es scan_start ≡ ok s)
  unfolding validate
  validate-scan es h = elim (Result-cases (scan sha256 dumps es scan_start)) [
    | inl (x, y) ↦ absurd (ground arith)
    | inr (s, y) ↦ (s, y)
  ]

  -- A property that every round keeps holds of an accepted ledger and its scan.
  pub validate_induction :
      (P : List Event → Scan → Type 0)
      → ((done : List Event) (e : Event) (s s' : Scan)
          → Scans e s s'
          → IsScanOf done s
          → P done s
          → P (done ++ e ∷ []) s')
      → P [] scan_start
      → (es : List Event) → validate sha256 dumps es ≡ ok tt
      → (s : Scan) × IsScanOf es s × P es s
  validate_induction P step p es h =
      let (s, y) = validate-scan es h in
      let both = scan_induction P step [] es scan_start s y IsScanOf-start p in (s, both.0, both.1)

  -- Where an accepted ledger is cut before an event, the front is accepted, and the scan of the
  -- front goes on with the event and then with the rest.
  pub validate-cut :
      (es fs : List Event) (e : Event)
      → validate sha256 dumps (es ++ e ∷ fs) ≡ ok tt
      → (s t u : Scan) × (validate sha256 dumps es ≡ ok tt)
        × IsScanOf es s
        × Scans e s t
        × (scan sha256 dumps fs t ≡ ok u)
  unfolding validate scan
  validate-cut es fs e h = elim (Result-cases (scan sha256 dumps es scan_start)) [
    | inl (x, y) ↦ absurd (ground (arith, scan-append es (e ∷ fs) scan_start))
    | inr (s, y) ↦ elim (Result-cases (scan_event sha256 dumps e s)) [
      | inl (x, z) ↦ absurd (ground (arith, scan-append es (e ∷ fs) scan_start))
      | inr (t, z) ↦ elim (Result-cases (scan sha256 dumps fs t)) [
        | inl (x, w) ↦ absurd (ground (arith, scan-append es (e ∷ fs) scan_start))
        | inr (u, w) ↦ (
          s,
          t,
          u,
          rw y,
          (scan_induction (λ _ _. Unit {0}) (λ _ _ _ _ _ _ _. tt) [] es scan_start s y
              IsScanOf-start tt).0,
          scan_event-Scans e s t z,
          w,
        )
      ]
    ]
  ]
