-- ===== src/Controllers/Owned/Needed.antt =====
-- Lists of objects that are to be put where there is none.
use ocp_efa_operator.Prelude.{
  Bool, true, false, Option, none, some, List, [], ◌∷◌, All, ◌≡◌, ◌⊎◌, inl, inr, refl, subst,
  if◌then◌else◌, Option-cases, some-injective, none-ne-some,
}
use ocp_efa_operator.Api.Objects.{Kind, ObjectKey, Object}
use ocp_efa_operator.Api.Laws.{is_at, drop}
use ocp_efa_operator.Controllers.Owned.Provides.{first_at, or_else}

pub first_at-All :
    (P : Object → Type 0) (os : List Object) (k : Kind) (key : ObjectKey) (x : Object)
    → All P os
    → first_at os k key ≡ some x
    → P x
first_at-All P [] k key x all h = absurd (none-ne-some x h)
first_at-All P (o ∷ os) k key x (p, all) h = split (is_at o k key) (first_at-All P os k key x all) h
  where
    split :
        (b : Bool)
        → (first_at os k key ≡ some x → P x)
        → (if b then some o else first_at os k key) ≡ some x
        → P x
    split true later e = subst P (some-injective o x e) p
    split false later e = later e

-- a place is as it was, or it was empty and has such an object now
pub or_else-All :
    (P : Object → Type 0) (os : List Object) (k : Kind) (key : ObjectKey) (old : Option Object)
    → All P os
    → (or_else old (first_at os k key) ≡ old)
      ⊎ ((old ≡ none) × (x : Object) × (or_else old (first_at os k key) ≡ some x) × P x)
or_else-All P os k key (some o) all = inl refl
or_else-All P os k key none all = elim (Option-cases (first_at os k key)) [
  | inl empty ↦ inl empty
  | inr (x, there) ↦ inr (refl, x, there, first_at-All P os k key x all there)
]

-- what was put there goes again
pub drop-or_else :
    (sweep : Object → Bool) (os : List Object) (k : Kind) (key : ObjectKey) (old : Option Object)
    → All (λ o. sweep o ≡ true) os
    → ((x : Object) → old ≡ some x → sweep x ≡ false)
    → drop sweep (or_else old (first_at os k key)) ≡ old
drop-or_else sweep os k key (some o) all clean = rw (clean o refl) refl
drop-or_else sweep os k key none all clean = elim (Option-cases (first_at os k key)) [
  | inl empty ↦ rw empty refl
  | inr (x, there) ↦ rw there (rw (first_at-All (λ o. sweep o ≡ true) os k key x all there) refl)
]
