-- ===== src/Controllers/Strings.antt =====
-- What the controllers use of Go's standard library: `strings.Split` at a dot, and the copy of a
-- map by a range loop.
pub mod Split
use Prim.Native.Char.{Char, code}
use Prim.Native.String.{String}
use ocp_efa_operator.Prelude.{List, [], ◌∷◌, ◌==◌, if◌then◌else◌, insert}
use ocp_efa_operator.Api.Driver.{Labels}

-- Put a character in front of the first part.
abbrev pub prefix_first : Char → List String → List String
prefix_first c [] = (String.◌∷◌ c String.[]) ∷ []
prefix_first c (part ∷ parts) = (String.◌∷◌ c part) ∷ parts

-- `strings.Split(s, ".")`
unfoldable pub split_dot : String → List String
split_dot String.[] = String.[] ∷ []
split_dot (String.◌∷◌ c s) =
    let rest = split_dot s in if code c == b'.' then String.[] ∷ rest else prefix_first c rest

-- `for key, value := range m { copy[key] = value }`
unfoldable pub copy_into : Labels → Labels → Labels
copy_into copy [] = copy
copy_into copy ((key, value) ∷ m) = copy_into (insert key value copy) m
