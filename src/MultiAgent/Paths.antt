-- ===== src/MultiAgent/Paths.antt =====
-- multi_agent.py: `path_identity` and `overlaps`, over a POSIX path as its anchor and its parts.
pub mod Cover
pub mod Overlap
use Prim.Native.Char.{code}
use trace_gate_framework.Prelude.{
  ℕ, String, ◌≡◌, refl, ap, ◌↔◌, ◌⊎◌, inl, inr, Bool, true, false, ◌&&◌, ◌||◌, List, [], ◌∷◌, ◌++◌,
  map, arith, Eq, ◌==◌, string_Eq, bool_Eq, list_Eq, contains, Result, ok, err, value_error, guard,
  ◌>>=◌, ◌>>◌, eq_refl, eq→path, if◌then◌else◌, nat_eq,
}

-- `/a/b` is `absolute = true`, `parts = a, b`.
pub record FilePath : Type 0 where
  pub absolute : Bool
  pub parts : List String

abbrev pub path_eq : FilePath → FilePath → Bool
path_eq p q = (p.absolute == q.absolute) && (p.parts == q.parts)

path_of_parts : (p q : FilePath) → p.absolute ≡ q.absolute → p.parts ≡ q.parts → p ≡ q
path_of_parts p q a b = λ i. record { absolute = a i; parts = b i }

pub path_eq_iff : (p q : FilePath) → (path_eq p q ≡ true) ↔ (p ≡ q)
path_eq_iff p q = (
  λ h.
      path_of_parts p q (eq→path p.absolute q.absolute (ground arith))
        (eq→path p.parts q.parts (ground arith)),
  λ h. ground (
    arith,
    ap (λ (r : FilePath). r.absolute) h,
    ap (λ (r : FilePath). r.parts) h,
    eq_refl p.absolute,
    eq_refl p.parts,
    h,
  ),
)

instance abbrev pub path_Eq : Eq FilePath
path_Eq = record { same = path_eq; same_iff = path_eq_iff }

-- The proper prefixes of a list of parts.
unfoldable pub proper_prefixes : List String → List (List String)
proper_prefixes [] = []
proper_prefixes (x ∷ xs) = [] ∷ map (λ ys. x ∷ ys) (proper_prefixes xs)

-- `p.parents`, which the code only asks for membership.
unfoldable pub parents : FilePath → List FilePath
unfolding proper_prefixes
parents p = map (λ xs. record { absolute = p.absolute; parts = xs }) (proper_prefixes p.parts)

unfoldable pub overlaps : FilePath → FilePath → Bool
overlaps left right =
    (left == right) || (contains left (parents right) || contains right (parents left))

has_nul : String → Bool
has_nul String.[] = false
has_nul (String.◌∷◌ c s) = nat_eq (code c) 0 || has_nul s

-- `resolve` stands for `Path(normalize("NFC", str(Path(value).resolve())).casefold())`: the
-- answer of the file system and of `unicodedata` at the time of the call.
unfoldable pub path_identity : (String → FilePath) → String → Result FilePath
unfolding has_nul
path_identity resolve value =
    if (value == "") || has_nul value
    then err (value_error "invalid scope path")
    else ok (resolve value)
