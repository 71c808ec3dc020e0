-- ===== src/Plugins/Samples/TextCases.antt =====
-- Numbers and lines on which the code runs.
use ocp_efa_operator.Prelude.{none, some, [], ◌∷◌, ◌++◌, ◌≡◌, refl}
use ocp_efa_operator.Plugins.Text.{codes, trim_suffix}
use ocp_efa_operator.Plugins.Decimal.{pos, negsuc, scan, parse_int, format_int, print_digits}
use ocp_efa_operator.Plugins.Gdrdrv.Major.{match_line, scan_lines}

largest : parse_int (codes "2147483647") ≡ some (pos 2147483647)
unfolding parse_int scan
largest = refl

too_large : parse_int (codes "2147483648") ≡ none
unfolding parse_int scan
too_large = refl

smallest : parse_int (codes "-2147483648") ≡ some (negsuc 2147483647)
unfolding parse_int scan
smallest = refl

lone_sign : parse_int (codes "+") ≡ none
unfolding parse_int scan
lone_sign = refl

printed : format_int (negsuc 41) ≡ codes "-42"
unfolding format_int print_digits
printed = refl

indented : match_line (codes "  242 gdrdrv") ≡ some (codes "242")
unfolding match_line
indented = refl

longer_name : match_line (codes "242 gdrdrv2") ≡ none
unfolding match_line
longer_name = refl

-- a carriage return in front of a line feed is dropped, and no line stands behind the last line feed
lines :
    scan_lines (codes "a" ++ (b'\r' ∷ b'\n' ∷ b'\n' ∷ codes "b" ++ (b'\n' ∷ [])))
    ≡ codes "a" ∷ [] ∷ codes "b" ∷ []
unfolding scan_lines trim_suffix
lines = refl
