-- ===== src/Plugins/Gdrdrv/Major/Grammar.antt =====
-- The lines that `match_line` takes are those of the regular expression.
use ocp_efa_operator.Prelude.{
  ℕ, Bool, true, false, true≢false, ◌||◌, none, some, some-injective, none-ne-some, [], ◌∷◌, ◌++◌,
  ◌≡◌, ◌↔◌, refl, sym, ap, ap₂, subst, ◌∙◌, arith, if◌then◌else◌, All, is_empty,
}
use ocp_efa_operator.Plugins.Text.{Bytes, codes, same_bytes, same_bytes_sound}
use ocp_efa_operator.Plugins.Decimal.{is_digit}
use ocp_efa_operator.Plugins.Gdrdrv.Major.{is_space, extend_span, span, match_line}

-- each byte passes the test
abbrev pub Passes : (ℕ → Bool) → Bytes → Type 0
Passes test s = All (λ c. test c ≡ true) s

-- the first byte, if there is one, does not pass the test
abbrev Stops : (ℕ → Bool) → Bytes → Type 0
Stops test [] = Unit
Stops test (c ∷ s) = test c ≡ false

-- `^\s*(\d+)\s+gdrdrv$`, where the group is `digits`
pub record IsModuleLine (line digits : Bytes) : Type 0 where
  pub indent : Bytes
  pub gap : Bytes
  pub parts : line ≡ indent ++ (digits ++ (gap ++ codes "gdrdrv"))
  pub indent_spaces : Passes is_space indent
  pub digits_only : Passes is_digit digits
  pub gap_spaces : Passes is_space gap
  pub some_digit : is_empty digits ≡ false
  pub some_gap : is_empty gap ≡ false

span-append :
    (test : ℕ → Bool) (a b : Bytes) → Passes test a → Stops test b → span test (a ++ b) ≡ (a, b)
unfolding span
span-append test [] [] all stop = refl
span-append test [] (c ∷ b) all stop = rw stop refl
span-append test (c ∷ a) b (h, all) stop = rw (span-append test a b all stop) (rw h refl)

span_parts : (test : ℕ → Bool) (s : Bytes) → s ≡ (span test s).0 ++ (span test s).1
unfolding span
span_parts test [] = refl
span_parts test (c ∷ s) = split (test c) (span_parts test s)
  where
    split :
        (b : Bool)
        → s ≡ (span test s).0 ++ (span test s).1
        → c ∷ s ≡ (extend_span b c s (span test s)).0 ++ (extend_span b c s (span test s)).1
    split true e = ap (λ l. c ∷ l) e
    split false e = refl

span-Passes : (test : ℕ → Bool) (s : Bytes) → Passes test (span test s).0
unfolding span
span-Passes test [] = tt
span-Passes test (c ∷ s) = split (test c) refl (span-Passes test s)
  where
    split :
        (b : Bool)
        → test c ≡ b
        → Passes test (span test s).0
        → Passes test (extend_span b c s (span test s)).0
    split true h all = (h, all)
    split false h all = tt

digits-Stops :
    (digits rest : Bytes)
    → Passes is_digit digits
    → is_empty digits ≡ false
    → Stops is_space (digits ++ rest)
digits-Stops [] rest all some_digit = absurd (true≢false some_digit)
digits-Stops (c ∷ digits) rest (h, all) some_digit = ground arith

gap-Stops :
    (gap rest : Bytes) → Passes is_space gap → is_empty gap ≡ false → Stops is_digit (gap ++ rest)
gap-Stops [] rest all some_gap = absurd (true≢false some_gap)
gap-Stops (c ∷ gap) rest (h, all) some_gap = ground arith

taken :
    (e e' g : Bool) (digits' digits : Bytes)
    → (if e || e' then none else if g then some digits' else none) ≡ some digits
    → (e ≡ false) × (e' ≡ false) × (g ≡ true) × (digits' ≡ digits)
taken true e' g digits' digits h = absurd (none-ne-some digits h)
taken false true g digits' digits h = absurd (none-ne-some digits h)
taken false false false digits' digits h = absurd (none-ne-some digits h)
taken false false true digits' digits h = (refl, refl, refl, some-injective digits' digits h)

module _ (line : Bytes) where
  pub match_line_complete :
      (digits : Bytes) → IsModuleLine line digits → match_line line ≡ some digits
  unfolding match_line
  match_line_complete digits m = rw m.parts (
      rw
        (span-append is_space m.indent _ m.indent_spaces
          (digits-Stops digits _ m.digits_only m.some_digit))
        (rw
          (span-append is_digit digits _ m.digits_only (gap-Stops m.gap _ m.gap_spaces m.some_gap))
          (rw (span-append is_space m.gap (codes "gdrdrv") m.gap_spaces refl)
            (rw (m.some_digit, m.some_gap) refl))))

  pub match_line_sound : (digits : Bytes) → match_line line ≡ some digits → IsModuleLine line digits
  unfolding match_line
  match_line_sound digits h =
      let (indent, from_digits) = span is_space line in
      let (digits', from_gap) = span is_digit from_digits in
      let (gap, name) = span is_space from_gap in
      let (some_digit, some_gap, gdrdrv, same) =
        taken (is_empty digits') (is_empty gap) (same_bytes name (codes "gdrdrv")) digits' digits
          h in
      record {
        indent = indent;
        gap = gap;
        parts =
            span_parts is_space line
            ∙ ap (λ l. indent ++ l)
                (span_parts is_digit from_digits
                  ∙ ap₂ (λ d l. d ++ l) same
                      (span_parts is_space from_gap
                        ∙ ap (λ l. gap ++ l) (same_bytes_sound name (codes "gdrdrv") gdrdrv)));
        indent_spaces = span-Passes is_space line;
        digits_only = subst (Passes is_digit) same (span-Passes is_digit from_digits);
        gap_spaces = span-Passes is_space from_gap;
        some_digit = ap is_empty (sym same) ∙ some_digit;
        some_gap = some_gap;
      }

  -- Whatever the line: it gives some digits exactly when it is spaces, if there are any, these
  -- digits, spaces and the word gdrdrv, with nothing in front and nothing behind, where there is at
  -- least one digit and at least one space behind them.
  pub match_line-IsModuleLine :
      (digits : Bytes) → (match_line line ≡ some digits) ↔ IsModuleLine line digits
  match_line-IsModuleLine digits = (match_line_sound digits, match_line_complete digits)
