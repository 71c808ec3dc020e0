-- ===== src/Controllers/Owned/Remove.antt =====
-- What `remove` does to the objects of a lawful server.
use ocp_efa_operator.Prelude.{
  Bool, true, false, Option, none, some, ◌≡◌, inl, inr, refl, sym, ◌∙◌, subst, ap₂, arith,
  if◌then◌else◌, Bool-cases, Option-cases, none-ne-some,
}
use ocp_efa_operator.Api.Objects.{Kind, ObjectKey, Object, kind_of, key_of}
use ocp_efa_operator.Api.Client.{ApiError, is_not_found, Result, ok, err}
use ocp_efa_operator.Api.Laws.{is_at, drop, View, IsLawful, is_at_unique, is_at_self}
use ocp_efa_operator.Controllers.Owned.{Reconciler, ignore_not_found, delete_found, remove}
use ocp_efa_operator.Controllers.Owned.Ensure.{Frame}
use ocp_efa_operator.Controllers.Owned.Sweeps.{Shrinks, Sweeps}

-- what is left where a place loses its object, seen from that object
drop-origin :
    (sweep : Object → Bool) (o : Option Object) (x : Object) → drop sweep o ≡ some x → o ≡ some x
drop-origin sweep none x h = h
drop-origin sweep (some o) x h = ground arith

drop_spares :
    (sweep : Object → Bool) (o : Option Object) (x : Object)
    → o ≡ some x
    → sweep x ≡ false
    → drop sweep o ≡ some x
drop_spares sweep o x p q = rw p (rw q refl)

pub forgiven : (e : ApiError) → ignore_not_found (some e) ≡ none → is_not_found e ≡ true
forgiven e h = ground arith

module _ {Spec : Type 0} (r : Reconciler Spec) (v : View r.client)
    (laws : IsLawful r.client v) where
  -- A state that is the old one less what `sweep` takes.
  pub Shrinks-of_drop :
      (sweep : Object → Bool) (w w' : r.client.World)
      → Frame r v w w'
      → ((k : Kind) (key : ObjectKey) → v.stored w' k key ≡ drop sweep (v.stored w k key))
      → Shrinks r v sweep w w'
  Shrinks-of_drop sweep w w' frame at = record {
    frame = frame;
    spares = λ k key x p q. at k key ∙ drop_spares sweep (v.stored w k key) x p q;
    origin = λ k key x p. drop-origin sweep (v.stored w k key) x (sym (at k key) ∙ p);
  }

  pub Shrinks-of_same :
      (sweep : Object → Bool) (w w' : r.client.World)
      → Frame r v w w'
      → ((k : Kind) (key : ObjectKey) → v.stored w' k key ≡ v.stored w k key)
      → Shrinks r v sweep w w'
  Shrinks-of_same sweep w w' frame at = record {
    frame = frame;
    spares = λ k key x p q. at k key ∙ p;
    origin = λ k key x p. sym (at k key) ∙ p;
  }

  module _ (kind : Kind) (key : ObjectKey) (w : r.client.World) where
    abbrev here : Object → Bool
    here o = is_at o kind key

    -- an object that stands at one place and belongs at another stands at both
    same_place :
        (k : Kind) (key' : ObjectKey) (y : Object)
        → v.stored w k key' ≡ some y
        → here y ≡ true
        → (k ≡ kind) × (key' ≡ key)
    same_place k key' y p at = is_at_unique y k kind key' key (laws.stored_at w k key' y p) at

    drop_gone :
        v.stored w kind key ≡ none
        → (k : Kind) (key' : ObjectKey) → v.stored w k key' ≡ drop here (v.stored w k key')
    drop_gone gone k key' = elim (Option-cases (v.stored w k key')) [
      | inl empty ↦ rw empty refl
      | inr (y, p) ↦ elim (Bool-cases (here y)) [
        | inl at ↦
            let (same_kind, same_key) = same_place k key' y p at in
            absurd (none-ne-some y (sym gone ∙ sym (ap₂ (v.stored w) same_kind same_key) ∙ p))
        | inr away ↦ rw p (rw away refl)
      ]
    ]

    -- an object at this place belongs here
    at_here :
        (k : Kind) (key' : ObjectKey) (y : Object)
        → (k ≡ kind) × (key' ≡ key)
        → v.stored w k key' ≡ some y
        → here y ≡ true
    at_here k key' y (same_kind, same_key) p =
        ap₂ (is_at y) (sym same_kind) (sym same_key) ∙ laws.stored_at w k key' y p

    module _ (x : Object) (at : here x ≡ true) where
      drop-some :
          (k : Kind) (key' : ObjectKey) (y : Object)
          → v.stored w k key' ≡ some y
          → (if is_at x k key' then none else some y) ≡ drop here (some y)
      drop-some k key' y p = elim (Bool-cases (is_at x k key')) [
        | inl there ↦ rw (there, at_here k key' y (is_at_unique x k kind key' key there at) p) refl
        | inr away ↦ elim (Bool-cases (here y)) [
          | inl yours ↦
              let (same_kind, same_key) = same_place k key' y p yours in
              cc (ap₂ (is_at x) same_kind same_key)
          | inr other ↦ rw (away, other) refl
        ]
      ]

      drop-here :
          (k : Kind) (key' : ObjectKey)
          → (if is_at x k key' then none else v.stored w k key') ≡ drop here (v.stored w k key')
      drop-here k key' = elim (Option-cases (v.stored w k key')) [
        | inl empty ↦ rw empty (ground arith)
        | inr (y, p) ↦ rw p (drop-some k key' y p)
      ]

    delete_framed : (x : Object) → Frame r v w (r.client.delete x w).1
    delete_framed x = record {
      nodes = (laws.delete_frame w x).0;
      drivers = (laws.delete_frame w x).1;
    }

    -- how a deletion ends: its error, and the state after it
    abbrev Ends : Option ApiError × r.client.World → Type 0
    Ends end =
        Shrinks r v here w end.1
        × (end.0 ≡ none
            → (k : Kind) (key' : ObjectKey) → v.stored end.1 k key' ≡ drop here (v.stored w k key'))

    unchanged : (e : Option ApiError) → (e ≡ none → v.stored w kind key ≡ none) → Ends (e, w)
    unchanged e gone = (
      Shrinks-of_same here w w (record { nodes = refl; drivers = refl }) (λ k key'. refl),
      λ p. drop_gone (gone p),
    )

    -- where the server does not find the object to delete, its place is empty
    absent :
        (x : Object) (e : ApiError)
        → v.stored w kind key ≡ some x
        → (r.client.delete x w).0 ≡ some e
        → is_not_found e ≡ true
        → v.stored w kind key ≡ none
    absent x e p q gone =
        let (same_kind, same_key) =
          is_at_unique x (kind_of x) kind (key_of x) key (is_at_self x)
            (laws.stored_at w kind key x p) in
        sym (ap₂ (v.stored w) same_kind same_key) ∙ laws.delete_not_found w x e q gone

    after_delete :
        (x : Object) (e : Option ApiError)
        → v.stored w kind key ≡ some x
        → (r.client.delete x w).0 ≡ e
        → Ends (ignore_not_found e, (r.client.delete x w).1)
    after_delete x none p q =
        let left = λ (k : Kind) (key' : ObjectKey).
          laws.delete_ok w x k key' q ∙ drop-here x (laws.stored_at w kind key x p) k key' in
        (Shrinks-of_drop here w (r.client.delete x w).1 (delete_framed x) left, λ _. left)
    after_delete x (some e) p q =
        let same = λ (k : Kind) (key' : ObjectKey). laws.delete_err w x e k key' q in
        (
          Shrinks-of_same here w (r.client.delete x w).1 (delete_framed x) same,
          λ h k key'. same k key' ∙ drop_gone (absent x e p q (forgiven e h)) k key',
        )

    after_get : (g : Result Object) → (r.client.get kind key w).0 ≡ g → Ends (delete_found r g w)
    after_get (ok x) p = after_delete x (r.client.delete x w).0 (laws.get_ok w kind key x p) refl
    after_get (err e) p =
        unchanged (ignore_not_found (some e))
          (λ q. laws.get_not_found w kind key e p (forgiven e q))

    remove_lem : Ends (remove r kind key w)
    unfolding remove
    remove_lem =
        subst (λ u. Ends (delete_found r (r.client.get kind key w).0 u))
          (sym (laws.get_world w kind key)) (after_get (r.client.get kind key w).0 refl)

  -- `remove` sweeps its place.
  pub Sweeps-remove :
      (kind : Kind) (key : ObjectKey) → Sweeps r v (λ o. is_at o kind key) (remove r kind key)
  Sweeps-remove kind key = record {
    shrinks = λ w. (remove_lem kind key w).0;
    done = λ w. (remove_lem kind key w).1;
  }
