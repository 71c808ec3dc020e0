-- ===== src/Controllers/Strings/Split.antt =====
-- `strings.Split` at a dot undoes joining parts that have none.
use Prim.Native.Char.{Char, code}
use Prim.Native.String.{String, ◌++◌}
use text.Mathlib.TextLemmas.{nil-append, cons-append}
use ocp_efa_operator.Prelude.{Bool, true, ◌&&◌, not, [], ◌∷◌, ◌≡◌, refl, ap, ◌∙◌, arith, ◌==◌}
use ocp_efa_operator.Controllers.Strings.{split_dot}

abbrev pub is_dot : Char → Bool
is_dot c = code c == b'.'

abbrev pub is_dotless : String → Bool
is_dotless String.[] = true
is_dotless (String.◌∷◌ c s) = not (is_dot c) && is_dotless s

split_dot-dot : (b : String) → split_dot ("." ++ b) ≡ "" ∷ split_dot b
unfolding split_dot
split_dot-dot b = ap split_dot (cons-append _ "" b) ∙ rw nil-append refl

pub split_dot-join :
    (a b : String) → is_dotless a ≡ true → split_dot (a ++ "." ++ b) ≡ a ∷ split_dot b
unfolding split_dot
split_dot-join String.[] b h = rw nil-append (split_dot-dot b)
split_dot-join (String.◌∷◌ c a) b h = rw cons-append (ground (arith, split_dot-join a b))

pub split_dot-dotless : (a : String) → is_dotless a ≡ true → split_dot a ≡ a ∷ []
unfolding split_dot
split_dot-dotless String.[] h = refl
split_dot-dotless (String.◌∷◌ c a) h = ground (arith, split_dot-dotless a)
