-- ===== src/Controllers/Owned/Clears.antt =====
-- Code that deletes objects returns no error where the server answers.
use ocp_efa_operator.Prelude.{
  String, Bool, true, false, Option, none, some, ◌≡◌, refl, subst, sym, if◌then◌else◌, inl, inr,
  Option-cases,
}
use ocp_efa_operator.Api.Driver.{Labels}
use ocp_efa_operator.Api.Objects.{Kind, ObjectKey, kind_of, key_of}
use ocp_efa_operator.Api.Client.{ApiError}
use ocp_efa_operator.Api.Laws.{View, IsLawful, is_at_unique, is_at_self}
use ocp_efa_operator.Api.Responsive.{IsResponsive}
use ocp_efa_operator.Controllers.Action.{Action, pure, ◌▸◌}
use ocp_efa_operator.Controllers.Owned.{Reconciler, delete_found, remove, remove_all}

abbrev pub Clears : {W : Type 0} → Action W (Option ApiError) → Type 0
Clears {W} m = (w : W) → (m w).0 ≡ none

pub Clears-if :
    {W : Type 0} (b : Bool) (m : Action W (Option ApiError))
    → Clears m
    → Clears (if b then m else pure none)
Clears-if true m h = h
Clears-if false m h = λ w. refl

pub Clears-▸ :
    {W : Type 0} (m n : Action W (Option ApiError)) → Clears m → Clears n → Clears (m ▸ n)
Clears-▸ m n hm hn w = rw (hm w) (hn (m w).1)

module _ {Spec : Type 0} (r : Reconciler Spec) (v : View r.client) (laws : IsLawful r.client v)
    (up : IsResponsive r.client v) where
  pub Clears-remove : (kind : Kind) (key : ObjectKey) → Clears (remove r kind key)
  unfolding remove
  Clears-remove kind key w =
      subst (λ u. (delete_found r (r.client.get kind key w).0 u).0 ≡ none)
        (sym (laws.get_world w kind key))
        (elim (Option-cases (v.stored w kind key)) [
          | inl gone ↦
              let (e, failed, missing) = up.get_missing w kind key gone in
              rw failed (rw missing refl)
          | inr (x, there) ↦
              let (same_kind, same_key) =
                is_at_unique x kind (kind_of x) key (key_of x) (laws.stored_at w kind key x there)
                  (is_at_self x) in
              let held =
                subst (λ k. v.stored w k (key_of x) ≡ some x) same_kind
                  (subst (λ l. v.stored w kind l ≡ some x) same_key there) in
              rw (up.get_found w kind key x there) (rw (up.delete_found w x x held) refl)
        ])

  pub Clears-remove_all :
      (kind : Kind) (namespace : String) (labels : Labels)
      → Clears (remove_all r kind namespace labels)
  unfolding remove_all
  Clears-remove_all kind namespace labels w = rw (up.delete_all w kind namespace labels) refl
