-- ===== src/Controllers/Owned/Undo.antt =====
-- What a creation added is what a deletion drops.
use ocp_efa_operator.Prelude.{
  Bool, true, false, some, ◌≡◌, refl, sym, ◌∙◌, inl, inr, Option-cases, none-ne-some,
}
use ocp_efa_operator.Api.Objects.{Kind, Object, ObjectKey}
use ocp_efa_operator.Api.Laws.{View, drop}
use ocp_efa_operator.Controllers.Owned.{Reconciler}
use ocp_efa_operator.Controllers.Owned.Creates.{Grows}

module _ {Spec : Type 0} (r : Reconciler Spec) (v : View r.client) (sweep : Object → Bool) where
  pub drop-Grows :
      {w w' : r.client.World}
      → Grows r v (λ x. sweep x ≡ true) w w'
      → ((k : Kind) (key : ObjectKey) (x : Object) → v.stored w k key ≡ some x → sweep x ≡ false)
      → (k : Kind) (key : ObjectKey) → drop sweep (v.stored w' k key) ≡ v.stored w k key
  drop-Grows {w} {w'} g clean k key = elim (Option-cases (v.stored w k key)) [
    | inl empty ↦ elim (Option-cases (v.stored w' k key)) [
      | inl still ↦ rw (empty, still) refl
      | inr (x, p) ↦ elim (g.fresh k key x p) [
        | inl old ↦ absurd (none-ne-some x (sym empty ∙ old))
        | inr own ↦ rw (empty, p) (rw own refl)
      ]
    ]
    | inr (x, p) ↦ rw (p, g.keeps k key x p) (rw (clean k key x p) refl)
  ]
