-- ===== src/Migration/Checks.antt =====
-- What a check of migration.py that was passed says.
use trace_gate_framework.Prelude.{
  String, ◌≡◌, refl, Bool, true, false, not, ◌&&◌, arith, Result, ok, err, ◌>>=◌, ◌>>◌,
}
use trace_gate_framework.Migration.{require}

-- A check that a call went past.
pub check_parts :
    {V : Type 0} (check : Result (Unit {0})) (rest : Result V) (v : V)
    → (check >> rest) ≡ ok v
    → (check ≡ ok tt) × (rest ≡ ok v)
check_parts (ok done) rest v h = (refl, h)
check_parts (err e) rest v h = absurd (ground arith)

pub require_lem : (test : Bool) (reason : String) → require test reason ≡ ok tt → test ≡ true
require_lem true reason h = refl
require_lem false reason h = absurd (ground arith)

pub and_parts : (a b : Bool) → (a && b) ≡ true → (a ≡ true) × (b ≡ true)
and_parts true b h = (refl, h)
and_parts false b h = absurd (ground arith)

pub negated : (b : Bool) → not b ≡ true → b ≡ false
negated true h = absurd (ground arith)
negated false h = refl

pub ok_inj : {V : Type 0} (v w : V) → ok v ≡ ok w → v ≡ w
ok_inj v w h = cc

pub bind_parts :
    {V W : Type 0} (r : Result V) (f : V → Result W) (w : W)
    → (r >>= f) ≡ ok w
    → (v : V) × (r ≡ ok v) × (f v ≡ ok w)
bind_parts (ok v) f w h = (v, refl, h)
bind_parts (err e) f w h = absurd (ground arith)
