-- ===== src/Prelude/Exec.antt =====
-- Methods that change a state and may raise: what was changed before a raise stays changed.
use mathlib.Core.Path.{◌≡◌, refl}
use mathlib.Core.Bool.{Bool, true, false}
use trace_gate_framework.Prelude.Results.{Error, Result, ok, err}
use trace_gate_framework.Prelude.Tests.{if◌then◌else◌}

abbrev pub Exec : Type 0 → Type 0 → Type 0
Exec S A = S → Result A × S

module _ {S A : Type 0} where
  abbrev pub pure : A → Exec S A
  pure a s = (ok a, s)

  abbrev pub raise : Error → Exec S A
  raise e s = (err e, s)

  abbrev pub lift : Result A → Exec S A
  lift r s = (r, s)

module _ {S A B : Type 0} where
  abbrev pub then_do : Result A × S → (A → Exec S B) → Result B × S
  then_do (ok a, s) f = f a s
  then_do (err e, s) f = (err e, s)

  infixl 5 ◌>>=◌ ◌>>◌
  unfoldable pub ◌>>=◌ : Exec S A → (A → Exec S B) → Exec S B
  ◌>>=◌ m f s = then_do (m s) f

  abbrev pub ◌>>◌ : Exec S A → Exec S B → Exec S B
  m >> n = m >>= λ _. n

-- After `m`, whether it returns or raises, `Q` holds of the state if `P` did before.
abbrev pub Leads : {S A : Type 0} → (S → Type 0) → (S → Type 0) → Exec S A → Type 0
Leads {S} P Q m = (s : S) → P s → Q (m s).1

module _ {S A B : Type 0} (P Q R : S → Type 0) where
  then_do-Leads :
      (r : Result A × S) (f : A → Exec S B)
      → Q r.1
      → ((s : S) → Q s → R s)
      → ((a : A) → Leads Q R (f a))
      → R (then_do r f).1
  then_do-Leads (ok a, s) f q raised k = k a s q
  then_do-Leads (err e, s) f q raised k = raised s q

  -- The middle predicate has to give the last one, for the case that `m` raises.
  pub Leads-bind :
      (m : Exec S A) (f : A → Exec S B)
      → Leads P Q m
      → ((s : S) → Q s → R s)
      → ((a : A) → Leads Q R (f a))
      → Leads P R (m >>= f)
  unfolding ◌>>=◌
  Leads-bind m f first raised rest s p = then_do-Leads (m s) f (first s p) raised rest

module _ {S A : Type 0} (P Q : S → Type 0) where
  pub Leads-if :
      (b : Bool) (m n : Exec S A)
      → (b ≡ true → Leads P Q m)
      → (b ≡ false → Leads P Q n)
      → Leads P Q (if b then m else n)
  Leads-if true m n p q = p refl
  Leads-if false m n p q = q refl

-- What holds of the state, and of the value, after a call that returns, and of the state after a raise.
abbrev pub Post : {S A : Type 0} → (A → S → Type 0) → (S → Type 0) → Result A × S → Type 0
Post Q E (ok a, s) = Q a s
Post Q E (err e, s) = E s

abbrev pub Triple :
    {S A : Type 0} → (S → Type 0) → (A → S → Type 0) → (S → Type 0) → Exec S A → Type 0
Triple {S} P Q E m = (s : S) → P s → Post Q E (m s)

module _ {S A B : Type 0} (P : S → Type 0) (Q : A → S → Type 0) (R : B → S → Type 0)
    (E : S → Type 0) where
  then_do-Triple :
      (r : Result A × S) (f : A → Exec S B)
      → Post Q E r
      → ((a : A) → Triple (Q a) R E (f a))
      → Post R E (then_do r f)
  then_do-Triple (ok a, s) f q k = k a s q
  then_do-Triple (err e, s) f q k = q

  pub Triple-bind :
      (m : Exec S A) (f : A → Exec S B)
      → Triple P Q E m
      → ((a : A) → Triple (Q a) R E (f a))
      → Triple P R E (m >>= f)
  unfolding ◌>>=◌
  Triple-bind m f first rest s p = then_do-Triple (m s) f (first s p) rest
