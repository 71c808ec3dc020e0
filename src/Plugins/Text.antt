-- ===== src/Plugins/Text.antt =====
-- Texts as lists of bytes, and what the device plugins use of Go's package strings.
use Prim.Native.Char.{code}
use Prim.Native.String.{String}
use ocp_efa_operator.Prelude.{
  ℕ, Bool, true, false, ◌&&◌, List, [], ◌∷◌, ◌++◌, reverse, if◌then◌else◌, ◌≡◌, refl, arith, ◌==◌,
}

abbrev pub Bytes : Type 0
Bytes = List ℕ

-- the bytes of a literal, which is ASCII
abbrev pub codes : String → Bytes
codes String.[] = []
codes (String.◌∷◌ c s) = code c ∷ codes s

-- `a == b`
unfoldable pub same_bytes : Bytes → Bytes → Bool
same_bytes [] [] = true
same_bytes [] (d ∷ t) = false
same_bytes (c ∷ s) [] = false
same_bytes (c ∷ s) (d ∷ t) = c == d && same_bytes s t

-- `strings.HasPrefix(s, prefix)`
unfoldable pub has_prefix : Bytes → Bytes → Bool
has_prefix s [] = true
has_prefix [] (d ∷ prefix) = false
has_prefix (c ∷ s) (d ∷ prefix) = c == d && has_prefix s prefix

-- the text behind a prefix that it has
unfoldable pub after_prefix : Bytes → Bytes → Bytes
after_prefix s [] = s
after_prefix [] (d ∷ prefix) = []
after_prefix (c ∷ s) (d ∷ prefix) = after_prefix s prefix

-- `strings.TrimSuffix(s, suffix)`
unfoldable pub trim_suffix : Bytes → Bytes → Bytes
unfolding has_prefix after_prefix
trim_suffix s suffix =
    if has_prefix (reverse s) (reverse suffix)
    then reverse (after_prefix (reverse s) (reverse suffix))
    else s

pub same_bytes_refl : (s : Bytes) → same_bytes s s ≡ true
unfolding same_bytes
same_bytes_refl [] = refl
same_bytes_refl (c ∷ s) = ground (arith, same_bytes_refl s)

pub same_bytes_sound : (s t : Bytes) → same_bytes s t ≡ true → s ≡ t
unfolding same_bytes
same_bytes_sound [] [] h = refl
same_bytes_sound [] (d ∷ t) h = cc
same_bytes_sound (c ∷ s) [] h = cc
same_bytes_sound (c ∷ s) (d ∷ t) h = ground (arith, same_bytes_sound s t)

pub has_prefix-append : (prefix s : Bytes) → has_prefix (prefix ++ s) prefix ≡ true
unfolding has_prefix
has_prefix-append [] s = refl
has_prefix-append (c ∷ prefix) s = ground (arith, has_prefix-append prefix s)

pub after_prefix-append : (prefix s : Bytes) → after_prefix (prefix ++ s) prefix ≡ s
unfolding after_prefix
after_prefix-append [] s = refl
after_prefix-append (c ∷ prefix) s = after_prefix-append prefix s
