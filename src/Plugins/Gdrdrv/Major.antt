-- ===== src/Plugins/Gdrdrv/Major.antt =====
-- `getGdrdrvMajor`: the major number of the kernel module in `/proc/devices`. Lines of up to 64 KiB,
-- which is what bufio.Scanner takes by default.

pub mod Grammar
pub mod Missing
use ocp_efa_operator.Prelude.{
  ℕ, Bool, true, false, ◌&&◌, ◌||◌, Option, none, some, List, [], ◌∷◌, ◌++◌, reverse, is_empty,
  ◌==◌, if◌then◌else◌,
}
use ocp_efa_operator.Plugins.Text.{Bytes, codes, same_bytes, trim_suffix}
use ocp_efa_operator.Plugins.Decimal.{ℤ, negsuc, is_digit, parse_int}
use ocp_efa_operator.Plugins.System.{Errno, enodev, num_error, Result, ok, err, System}
use ocp_efa_operator.Plugins.Ids.{is_minus_one}

-- `\s`
abbrev pub is_space : ℕ → Bool
is_space c = c == b'\t' || c == b'\n' || c == 12 || c == b'\r' || c == b' '

abbrev pub extend_span : Bool → ℕ → Bytes → Bytes × Bytes → Bytes × Bytes
extend_span true c s (first, rest) = (c ∷ first, rest)
extend_span false c s (first, rest) = ([], c ∷ s)

-- the longest prefix of bytes that pass the test, and the rest
unfoldable pub span : (ℕ → Bool) → Bytes → Bytes × Bytes
span test [] = ([], [])
span test (c ∷ s) = extend_span (test c) c s (span test s)

-- the first group of the match of `^\s*(\d+)\s+gdrdrv$`, if there is one
unfoldable pub match_line : Bytes → Option Bytes
unfolding span same_bytes
match_line line =
    let (indent, from_digits) = span is_space line in
    let (digits, from_gap) = span is_digit from_digits in
    let (gap, name) = span is_space from_gap in
    if is_empty digits || is_empty gap
    then none
    else if same_bytes name (codes "gdrdrv")
    then some digits
    else none

abbrev first_of_line : ℕ → List Bytes → List Bytes
first_of_line c [] = (c ∷ []) ∷ []
first_of_line c (line ∷ lines) = (c ∷ line) ∷ lines

-- the text between the line feeds; no line behind the last one if that ends the text
unfoldable pub raw_lines : Bytes → List Bytes
raw_lines [] = []
raw_lines (c ∷ s) =
    let lines = raw_lines s in if c == b'\n' then [] ∷ lines else first_of_line c lines

abbrev without_cr : List Bytes → List Bytes
without_cr [] = []
without_cr (line ∷ lines) = trim_suffix line (b'\r' ∷ []) ∷ without_cr lines

-- `bufio.ScanLines`
unfoldable pub scan_lines : Bytes → List Bytes
unfolding raw_lines
scan_lines s = without_cr (raw_lines s)

abbrev pub or_num_error : Option ℤ → Result ℤ
or_num_error none = err num_error
or_num_error (some i) = ok i

-- the value of `major` behind the loop; -1 where no line matches
abbrev pub or_next : Option Bytes → Result ℤ → Result ℤ
or_next none rest = rest
or_next (some digits) rest = or_num_error (parse_int digits)

unfoldable pub major_of_lines : List Bytes → Result ℤ
major_of_lines [] = ok (negsuc 0)
major_of_lines (line ∷ lines) = or_next (match_line line) (major_of_lines lines)

abbrev pub enodev_if_none : Result ℤ → Result ℤ
enodev_if_none (err e) = err e
enodev_if_none (ok major) = if is_minus_one major then err enodev else ok major

module _ (sys : System) where
  abbrev pub major_of_file : Result (Bytes × Option Errno) → Result ℤ
  major_of_file (err e) = err e
  major_of_file (ok (buf, _)) = enodev_if_none (major_of_lines (scan_lines buf))

  -- an error that ends the reading is not looked at
  unfoldable pub get_gdrdrv_major : Bytes → sys.World → Result ℤ
  unfolding match_line major_of_lines scan_lines
  get_gdrdrv_major devices_file w = major_of_file (sys.open_file devices_file w)
