-- ===== src/Plugins/Gdrdrv/Major/Missing.antt =====
-- What `getGdrdrvMajor` returns for a file that can be opened.
use ocp_efa_operator.Prelude.{
  ℕ, ◌<◌, Bool, true, false, true≢false, Option, none, some, none-ne-some, List, [], ◌∷◌, ◌++◌, ◌≡◌,
  ◌↔◌, ◌⊎◌, inl, inr, refl, sym, ap, ◌∙◌, arith, ◌==◌, if◌then◌else◌, All, is_empty, ltb,
}
use ocp_efa_operator.Plugins.Text.{Bytes}
use ocp_efa_operator.Plugins.Decimal.{
  ℤ, pos, negsuc, is_digit, cutoff, parse_uint, with_sign, parse_int, format_int,
}
use ocp_efa_operator.Plugins.Decimal.RoundTrip.{parse_int-format_int}
use ocp_efa_operator.Plugins.System.{
  Errno, enodev, eintr, eexist, enoent, num_error, other, Result, ok, err, System,
}
use ocp_efa_operator.Plugins.Gdrdrv.Major.{
  match_line, scan_lines, or_num_error, or_next, enodev_if_none, major_of_lines, get_gdrdrv_major,
}
use ocp_efa_operator.Plugins.Gdrdrv.Major.Grammar.{
  Passes, IsModuleLine, match_line_sound, match_line_complete,
}

-- no line is one of the module
abbrev pub NoModule : List Bytes → Type 0
NoModule lines = All (λ line. match_line line ≡ none) lines

-- a number, or the error of ParseInt
abbrev IsParsed : Result ℤ → Type 0
IsParsed (ok (pos n)) = Unit
IsParsed (ok (negsuc n)) = ⊥
IsParsed (err num_error) = Unit
IsParsed (err e) = ⊥

unsigned-IsParsed : (un : Option ℕ) → IsParsed (or_num_error (with_sign false un))
unsigned-IsParsed none = tt
unsigned-IsParsed (some n) = split (ltb n cutoff)
  where
    split : (b : Bool) → IsParsed (or_num_error (if b then some (pos n) else none))
    split true = tt
    split false = tt

digits-IsParsed :
    (digits : Bytes)
    → Passes is_digit digits
    → is_empty digits ≡ false
    → IsParsed (or_num_error (parse_int digits))
unfolding parse_int
digits-IsParsed [] all some_digit = absurd (true≢false some_digit)
digits-IsParsed (c ∷ s) (h, all) some_digit =
    rw (not_minus, not_plus) (unsigned-IsParsed (parse_uint (c ∷ s)))
  where
    not_minus : (c == b'-') ≡ false
    not_minus = ground arith

    not_plus : (c == b'+') ≡ false
    not_plus = ground arith

-- without a line of the module -1, else what a line of the module gives
major_of_lines-cases :
    (lines : List Bytes)
    → (NoModule lines × (major_of_lines lines ≡ ok (negsuc 0)))
      ⊎ (¬ NoModule lines × IsParsed (major_of_lines lines))
unfolding major_of_lines
major_of_lines-cases [] = inl (tt, refl)
major_of_lines-cases (line ∷ lines) = split (match_line line) refl (major_of_lines-cases lines)
  where
    split :
        (found : Option Bytes)
        → match_line line ≡ found
        → (NoModule lines × (major_of_lines lines ≡ ok (negsuc 0)))
          ⊎ (¬ NoModule lines × IsParsed (major_of_lines lines))
        → (((match_line line ≡ none) × NoModule lines)
            × (or_next found (major_of_lines lines) ≡ ok (negsuc 0)))
          ⊎ (¬ ((match_line line ≡ none) × NoModule lines)
              × IsParsed (or_next found (major_of_lines lines)))
    split none h (inl (all, e)) = inl ((h, all), e)
    split none h (inr (some_line, p)) = inr (λ all. some_line all.1, p)
    split (some digits) h rest =
        let m = match_line_sound line digits h in
        inr (
          λ all. none-ne-some digits (sym all.0 ∙ h),
          digits-IsParsed digits m.digits_only m.some_digit,
        )

parsed_not_enodev : (r : Result ℤ) → IsParsed r → ¬ (enodev_if_none r ≡ err enodev)
parsed_not_enodev (ok (pos n)) p h = cc
parsed_not_enodev (ok (negsuc n)) p h = p
parsed_not_enodev (err num_error) p h = cc
parsed_not_enodev (err enodev) p h = p
parsed_not_enodev (err eintr) p h = p
parsed_not_enodev (err eexist) p h = p
parsed_not_enodev (err enoent) p h = p
parsed_not_enodev (err (other n)) p h = p

enodev_exactly :
    (r : Result ℤ) (lines : List Bytes)
    → (NoModule lines × (r ≡ ok (negsuc 0))) ⊎ (¬ NoModule lines × IsParsed r)
    → (enodev_if_none r ≡ err enodev) ↔ NoModule lines
enodev_exactly r lines (inl (all, e)) = (λ h. all, λ h. ap enodev_if_none e)
enodev_exactly r lines (inr (some_line, p)) =
    (λ h. absurd (parsed_not_enodev r p h), λ all. absurd (some_line all))

-- the first line of the module decides
major_of_lines-first :
    (skipped rest : List Bytes) (line digits : Bytes)
    → NoModule skipped
    → match_line line ≡ some digits
    → major_of_lines (skipped ++ line ∷ rest) ≡ or_num_error (parse_int digits)
unfolding major_of_lines
major_of_lines-first [] rest line digits all h = rw h refl
major_of_lines-first (line1 ∷ skipped) rest line digits (e, all) h =
    rw e (major_of_lines-first skipped rest line digits all h)

module _ (sys : System) (devices_file : Bytes) (w : sys.World) (buf : Bytes)
    (end : Option Errno) where
  -- For a file that can be opened, also where an error ends the reading: the result is ENODEV, on
  -- which the caller polls again, exactly when no line that was read is one of the kernel module.
  pub get_gdrdrv_major-enodev :
      sys.open_file devices_file w ≡ ok (buf, end)
      → (get_gdrdrv_major sys devices_file w ≡ err enodev) ↔ NoModule (scan_lines buf)
  unfolding get_gdrdrv_major
  get_gdrdrv_major-enodev opened =
      rw opened (enodev_exactly _ _ (major_of_lines-cases (scan_lines buf)))

  -- For a file that can be opened, whose lines are some that are not of the module, one of the module
  -- with the digits of a number below 2^31, and any others: the result is this number.
  pub get_gdrdrv_major-first :
      (skipped rest : List Bytes) (line : Bytes) (n : ℕ)
      → sys.open_file devices_file w ≡ ok (buf, end)
      → scan_lines buf ≡ skipped ++ line ∷ rest
      → NoModule skipped
      → IsModuleLine line (format_int (pos n))
      → n < cutoff
      → get_gdrdrv_major sys devices_file w ≡ ok (pos n)
  unfolding get_gdrdrv_major
  get_gdrdrv_major-first skipped rest line n opened lines all m h = rw opened (
      rw lines (
        rw
          (major_of_lines-first skipped rest line (format_int (pos n)) all
            (match_line_complete line (format_int (pos n)) m))
          (rw (parse_int-format_int (pos n) h) refl)))
