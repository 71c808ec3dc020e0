-- ===== src/Plugins/Path.antt =====
-- What the device plugins use of Go's packages path and filepath: `Clean`, `Join` of two elements,
-- `Dir` and `Base`, on Linux.
use ocp_efa_operator.Prelude.{
  ℕ, Bool, true, false, ◌||◌, List, [], ◌∷◌, ◌++◌, reverse, is_empty, ◌==◌, if◌then◌else◌, ◌≡◌,
  refl,
}
use ocp_efa_operator.Plugins.Text.{Bytes, codes, same_bytes, has_prefix}

abbrev pub is_slash : ℕ → Bool
is_slash c = c == b'/'

abbrev prefix_part : ℕ → List Bytes → List Bytes
prefix_part c [] = (c ∷ []) ∷ []
prefix_part c (part ∷ parts) = (c ∷ part) ∷ parts

-- the parts between the slashes
unfoldable pub split_slash : Bytes → List Bytes
split_slash [] = [] ∷ []
split_slash (c ∷ s) =
    let parts = split_slash s in if is_slash c then [] ∷ parts else prefix_part c parts

abbrev join_slash : List Bytes → Bytes
join_slash [] = []
join_slash (part ∷ []) = part
join_slash (part ∷ next ∷ parts) = part ++ codes "/" ++ join_slash (next ∷ parts)

-- `..` at the part before it, where the parts so far are in reverse
abbrev pop_part : Bool → List Bytes → List Bytes
pop_part true [] = []
pop_part false [] = codes ".." ∷ []
pop_part rooted (part ∷ parts) =
    if same_bytes part (codes "..") then codes ".." ∷ part ∷ parts else parts

abbrev push_part : Bool → Bytes → List Bytes → List Bytes
push_part rooted part parts =
    if is_empty part || same_bytes part (codes ".")
    then parts
    else if same_bytes part (codes "..")
    then pop_part rooted parts
    else part ∷ parts

unfoldable pub clean_parts : Bool → List Bytes → List Bytes → List Bytes
unfolding same_bytes
clean_parts rooted parts [] = reverse parts
clean_parts rooted parts (part ∷ rest) = clean_parts rooted (push_part rooted part parts) rest

abbrev or_dot : Bytes → Bytes
or_dot s = if is_empty s then codes "." else s

unfoldable pub clean : Bytes → Bytes
unfolding clean_parts split_slash has_prefix
clean s =
    let rooted = has_prefix s (codes "/") in
    let out = join_slash (clean_parts rooted [] (split_slash s)) in
    if rooted then codes "/" ++ out else or_dot out

unfoldable pub join : Bytes → Bytes → Bytes
unfolding clean
join dir name = if is_empty dir then clean name else clean (dir ++ codes "/" ++ name)

abbrev any_slash : Bytes → Bool
any_slash [] = false
any_slash (c ∷ s) = is_slash c || any_slash s

-- the text up to its last slash, and behind it
unfoldable pub up_to_slash : Bytes → Bytes
up_to_slash [] = []
up_to_slash (c ∷ s) = let rest = up_to_slash s in if is_slash c || any_slash s then c ∷ rest else []

unfoldable pub after_slash : Bytes → Bytes
after_slash [] = []
after_slash (c ∷ s) = let rest = after_slash s in if is_slash c || any_slash s then rest else c ∷ s

unfoldable pub dir : Bytes → Bytes
unfolding up_to_slash clean
dir s = clean (up_to_slash s)

abbrev skip_slashes : Bytes → Bytes
skip_slashes [] = []
skip_slashes (c ∷ s) = let rest = skip_slashes s in if is_slash c then rest else c ∷ s

abbrev or_root : Bytes → Bytes
or_root s = if is_empty s then codes "/" else s

unfoldable pub base : Bytes → Bytes
unfolding after_slash
base s =
    if is_empty s then codes "." else or_root (after_slash (reverse (skip_slashes (reverse s))))

cleaned : clean (codes "a//b/./../c/") ≡ codes "a/c"
unfolding clean
cleaned = refl

joined :
    join (codes "/var/lib/kubelet/device-plugins/") (codes "ocp-efa.sock")
    ≡ codes "/var/lib/kubelet/device-plugins/ocp-efa.sock"
unfolding join
joined = refl

parent : dir (codes "/dev/gdrdrv") ≡ codes "/dev"
unfolding dir
parent = refl

last_part : base (codes "/dev/gdrdrv/") ≡ codes "gdrdrv"
unfolding base
last_part = refl
