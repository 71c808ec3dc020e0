-- ===== src/Controllers/Owned/Ensure.antt =====
-- What `ensure` does to the objects of a lawful server: the four ways in which it ends, and what
-- follows from them.
use ocp_efa_operator.Prelude.{
  Bool, true, false, Option, none, some, ◌≡◌, ◌≢◌, refl, sym, subst, if◌then◌else◌, Bool-cases, inl,
  inr,
}
use ocp_efa_operator.Api.Objects.{Kind, ObjectKey, Object, kind_of, key_of}
use ocp_efa_operator.Api.Client.{ApiError, is_not_found, is_already_exists, Result, ok, err}
use ocp_efa_operator.Api.Laws.{is_at, View, IsLawful}
use ocp_efa_operator.Controllers.Action.{Outcome}
use ocp_efa_operator.Controllers.Owned.{Reconciler, report, create_unless_found, ensure}

module _ {Spec : Type 0} (r : Reconciler Spec) (v : View r.client) where
  -- `w'` has the same nodes and drivers as `w`.
  pub record Frame (w w' : r.client.World) : Type 0 where
    pub nodes : v.nodes w' ≡ v.nodes w
    pub drivers : v.drivers w' ≡ v.drivers w

  -- ... and the same objects
  pub record Same (w w' : r.client.World) : Type 0 where
    pub frame : Frame w w'
    pub at : (k : Kind) (key : ObjectKey) → v.stored w' k key ≡ v.stored w k key

  pub data Ensured (reported : ApiError → Bool) (kind : Kind) (key : ObjectKey) (o : Object)
      (w : r.client.World) (out : Outcome) (w' : r.client.World) : Type 0 where
    found :
        (x : Object)
        → v.stored w kind key ≡ some x
        → out ≡ (false, none)
        → Same w w'
        → Ensured reported kind key o w out w'
    unreadable :
        (e : ApiError) → out ≡ (false, some e) → Same w w' → Ensured reported kind key o w out w'
    created :
        v.stored w kind key ≡ none
        → out ≡ (false, none)
        → Frame w w'
        → ((k : Kind) (key' : ObjectKey)
            → v.stored w' k key' ≡ (if is_at o k key' then some o else v.stored w k key'))
        → Ensured reported kind key o w out w'
    refused :
        (e : ApiError)
        → v.stored w kind key ≡ none
        → (is_already_exists e ≡ true → v.stored w (kind_of o) (key_of o) ≢ none)
        → out ≡ report reported (some e)
        → Same w w'
        → Ensured reported kind key o w out w'

module _ {Spec : Type 0} (r : Reconciler Spec) (v : View r.client)
    (laws : IsLawful r.client v) where
  module _ (reported : ApiError → Bool) (kind : Kind) (key : ObjectKey) (o : Object)
      (w : r.client.World) where
    -- how the result and the state are related
    abbrev Ends : Outcome × r.client.World → Type 0
    Ends end = Ensured r v reported kind key o w end.0 end.1

    same : Same r v w w
    same = record { frame = record { nodes = refl; drivers = refl }; at = λ k key'. refl }

    create_framed : Frame r v w (r.client.create o w).1
    create_framed = record {
      nodes = (laws.create_frame w o).0;
      drivers = (laws.create_frame w o).1;
    }

    after_create :
        (c : Option ApiError)
        → v.stored w kind key ≡ none
        → (r.client.create o w).0 ≡ c
        → Ends (report reported (r.client.create o w).0, (r.client.create o w).1)
    after_create none gone p =
        created gone (rw p) create_framed (λ k key'. laws.create_ok w o k key' p)
    after_create (some e) gone p =
        refused e gone (λ taken. laws.create_exists w o e p taken) (rw p)
          (record { frame = create_framed; at = λ k key'. laws.create_err w o e k key' p })

    after_get :
        (g : Result Object)
        → (r.client.get kind key w).0 ≡ g
        → Ends (create_unless_found r reported o g w)
    after_get (ok x) p = found x (laws.get_ok w kind key x p) refl same
    after_get (err e) p = elim (Bool-cases (is_not_found e)) [
      | inl gone ↦
          rw gone
            (after_create (r.client.create o w).0 (laws.get_not_found w kind key e p gone) refl)
      | inr other ↦ rw other (unreadable e refl same)
    ]

    -- Every run of `ensure` ends in one of the four ways.
    pub ensure-Ensured : Ends (ensure r reported kind key o w)
    unfolding ensure
    ensure-Ensured =
        subst (λ u. Ends (create_unless_found r reported o (r.client.get kind key w).0 u))
          (sym (laws.get_world w kind key)) (after_get (r.client.get kind key w).0 refl)
