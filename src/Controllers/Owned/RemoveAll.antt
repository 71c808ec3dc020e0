-- ===== src/Controllers/Owned/RemoveAll.antt =====
-- `remove_all` on a lawful server.
use ocp_efa_operator.Prelude.{String, Bool, Option, none, some, ◌≡◌, refl, sym, ◌∙◌}
use ocp_efa_operator.Api.Driver.{Labels}
use ocp_efa_operator.Api.Objects.{Kind, ObjectKey, Object}
use ocp_efa_operator.Api.Client.{ApiError}
use ocp_efa_operator.Api.Laws.{is_selected, drop, View, IsLawful}
use ocp_efa_operator.Controllers.Owned.{Reconciler, ignore_not_found, remove_all}
use ocp_efa_operator.Controllers.Owned.Ensure.{Frame}
use ocp_efa_operator.Controllers.Owned.Sweeps.{Shrinks, Sweeps}
use ocp_efa_operator.Controllers.Owned.Remove.{forgiven, Shrinks-of_drop, Shrinks-of_same}

module _ {Spec : Type 0} (r : Reconciler Spec) (v : View r.client)
    (laws : IsLawful r.client v) where
  module _ (kind : Kind) (ns : String) (selector : Labels) (w : r.client.World) where
    abbrev swept : Object → Bool
    swept = is_selected kind ns selector

    abbrev after : r.client.World
    after = (r.client.delete_all_of kind ns selector w).1

    all_framed : Frame r v w after
    all_framed = record {
      nodes = (laws.delete_all_frame w kind ns selector).0;
      drivers = (laws.delete_all_frame w kind ns selector).1;
    }

    abbrev AllEnds : Option ApiError → Type 0
    AllEnds e =
        Shrinks r v swept w after
        × (e ≡ none
            → (k : Kind) (key : ObjectKey) → v.stored after k key ≡ drop swept (v.stored w k key))

    after_delete_all :
        (e : Option ApiError)
        → (r.client.delete_all_of kind ns selector w).0 ≡ e
        → AllEnds (ignore_not_found e)
    after_delete_all none p =
        let left = λ (k : Kind) (key : ObjectKey). laws.delete_all_ok w kind ns selector k key p in
        (Shrinks-of_drop r v laws swept w after all_framed left, λ _. left)
    after_delete_all (some e) p =
        let same =
          λ (k : Kind) (key : ObjectKey). laws.delete_all_err w kind ns selector e k key p in
        (
          Shrinks-of_same r v laws swept w after all_framed same,
          λ h k key.
              same k key
              ∙ sym (laws.delete_all_not_found w kind ns selector e k key p (forgiven e h)),
        )

    remove_all_lem :
        Shrinks r v swept w (remove_all r kind ns selector w).1
        × ((remove_all r kind ns selector w).0 ≡ none
            → (k : Kind) (key : ObjectKey)
            → v.stored (remove_all r kind ns selector w).1 k key ≡ drop swept (v.stored w k key))
    unfolding remove_all
    remove_all_lem = after_delete_all (r.client.delete_all_of kind ns selector w).0 refl

  -- `remove_all` sweeps what its labels select.
  pub Sweeps-remove_all :
      (kind : Kind) (ns : String) (selector : Labels)
      → Sweeps r v (is_selected kind ns selector) (remove_all r kind ns selector)
  Sweeps-remove_all kind ns selector = record {
    shrinks = λ w. (remove_all_lem kind ns selector w).0;
    done = λ w. (remove_all_lem kind ns selector w).1;
  }
