-- ===== src/Controllers/Reconcile/Exclusive.antt =====
-- One active resource at a time: which requests make `Reconcile` touch the owned objects.
use Prim.Native.String.{◌++◌}
use ocp_efa_operator.Prelude.{
  String, Bool, true, false, ◌||◌, Option, none, some, List, [], ◌∷◌, ◌≡◌, ◌≢◌, ◌⊎◌, inl, inr, refl,
  sym, ap, ◌∙◌, subst, arith, str_eq, eq_iff, All, if◌then◌else◌, is_empty, Bool-cases,
}
use ocp_efa_operator.Api.Driver.{Driver}
use ocp_efa_operator.Api.Objects.{Kind, ObjectKey}
use ocp_efa_operator.Api.Client.{ApiError, is_not_found}
use ocp_efa_operator.Api.Laws.{View, IsLawful}
use ocp_efa_operator.Controllers.Action.{Action, Outcome}
use ocp_efa_operator.Controllers.Exec.{State, continue-return}
use ocp_efa_operator.Controllers.Owned.{Reconciler, Request}
use ocp_efa_operator.Controllers.Status.{no_requeue, with_status, ignored, find_driver}
use ocp_efa_operator.Controllers.Reconcile.{
  ignore_driver, reconcile_found, reconcile_listed, reconcile,
}

module _ {Spec : Type 0} where
  abbrev pub is_ignored : Driver Spec → Bool
  is_ignored d = str_eq d.status.condition ignored

  -- The first resource of the list that is not ignored has this name.
  unfoldable pub is_first_active : String → List (Driver Spec) → Bool
  is_first_active name [] = false
  is_first_active name (d ∷ ds) =
      let rest = is_first_active name ds in
      if is_ignored d then (if str_eq d.name name then false else rest) else str_eq d.name name

  -- Two requests for the first active resource are for the same one.
  pub is_first_active_unique :
      (a b : String) (ds : List (Driver Spec))
      → is_first_active a ds ≡ true
      → is_first_active b ds ≡ true
      → a ≡ b
  unfolding is_first_active
  is_first_active_unique a b [] h k = cc
  is_first_active_unique a b (d ∷ ds) h k =
      ground (arith, eq_iff d.name a, eq_iff d.name b, is_first_active_unique a b ds)

  abbrev pub IsNamed : Driver Spec → Type 0
  IsNamed d = d.name ≢ ""

  -- the loop's result lets the branches for the active resource alone
  abbrev pub IsPassive : Option (Driver Spec) × String → Type 0
  IsPassive (none, deployed) = Unit
  IsPassive (some efa, deployed) = (is_ignored efa ≡ true) ⊎ (str_eq deployed "" ≡ false)

  pub not_empty : (d : Driver Spec) → IsNamed d → str_eq d.name "" ≡ false
  not_empty d named = ground (arith, eq_iff d.name "")

  pub find_driver-blocked :
      (name : String) (ds : List (Driver Spec)) (deployed : String)
      → All IsNamed ds
      → str_eq deployed "" ≡ false
      → IsPassive (find_driver name ds deployed)
  unfolding find_driver
  find_driver-blocked name [] deployed named h = tt
  find_driver-blocked name (d ∷ ds) deployed named h = elim (Bool-cases (str_eq d.name name)) [
    | inl it ↦ rw it (inr h)
    | inr other ↦ elim (Bool-cases (is_ignored d)) [
      | inl off ↦ rw other (rw off (find_driver-blocked name ds deployed named.1 h))
      | inr on ↦ rw other (rw on (find_driver-blocked name ds d.name named.1 (not_empty d named.0)))
    ]
  ]

  find_driver-IsPassive :
      (name : String) (ds : List (Driver Spec))
      → All IsNamed ds
      → is_first_active name ds ≡ false
      → IsPassive (find_driver name ds "")
  unfolding find_driver is_first_active
  find_driver-IsPassive name [] named h = tt
  find_driver-IsPassive name (d ∷ ds) named h = elim (Bool-cases (is_ignored d)) [
    | inl off ↦ elim (Bool-cases (str_eq d.name name)) [
      | inl it ↦ rw it (inl off)
      | inr other ↦
          rw other (rw off (find_driver-IsPassive name ds named.1 (rw other at (rw off at h))))
    ]
    | inr on ↦
        let other : str_eq d.name name ≡ false = rw on at h in
        rw other (rw on (find_driver-blocked name ds d.name named.1 (not_empty d named.0)))
  ]

module _ {Spec : Type 0} (r : Reconciler Spec) (v : View r.client) (laws : IsLawful r.client v)
    (create_cluster : Driver Spec → Action r.client.World Outcome)
    (delete_cluster : Driver Spec → Action r.client.World (Option ApiError)) where
  -- the objects are the same in both states
  abbrev SameObjects : State r.client.World → State r.client.World → Type 0
  SameObjects s s' = (k : Kind) (key : ObjectKey) → v.stored s'.world k key ≡ v.stored s.world k key

  ignore_driver-same :
      (efa : Driver Spec) (deployed : String) (s : State r.client.World)
      → SameObjects s (ignore_driver r create_cluster delete_cluster efa deployed s).1
  unfolding ignore_driver
  ignore_driver-same efa deployed s = λ k key.
      let d =
        with_status efa ignored
          ("Ignored since an active resource is already deployed (" ++ deployed ++ ")") in
      ap (λ (u : State r.client.World). v.stored u.world k key)
        (continue-return (λ x. no_requeue) (r.client.update_status d s.world).0
          (record s { world = (r.client.update_status d s.world).1 }))
      ∙ laws.update_status_stored s.world d k key

  reconcile_found-passive :
      (req : Request) (found : Option (Driver Spec) × String)
      → IsPassive found
      → (s : State r.client.World)
      → SameObjects s (reconcile_found r create_cluster delete_cluster req found s).1
  unfolding reconcile_found ignore_driver
  reconcile_found-passive req (none, deployed) h s = λ k key. refl
  reconcile_found-passive req (some efa, deployed) (inl off) s = rw off (λ k key. refl)
  reconcile_found-passive req (some efa, deployed) (inr h) s = elim (Bool-cases (is_ignored efa)) [
    | inl off ↦ rw off (λ k key. refl)
    | inr on ↦ rw on (rw h (ignore_driver-same efa deployed s))
  ]

  reconcile_listed-passive :
      (req : Request) (items ds : List (Driver Spec)) (failed : Option ApiError)
      → (failed ≡ none → items ≡ ds)
      → All IsNamed ds
      → is_first_active req.name ds ≡ false
      → (s : State r.client.World)
      → SameObjects s (reconcile_listed r create_cluster delete_cluster req (items, failed) s).1
  unfolding reconcile_listed
  reconcile_listed-passive req items ds (some e) same named h s =
      elim (Bool-cases (is_not_found e || is_empty items)) [
        | inl gone ↦ rw gone (λ k key. refl)
        | inr other ↦ rw other (λ k key. refl)
      ]
  reconcile_listed-passive req [] ds none same named h s = λ k key. refl
  reconcile_listed-passive req (d ∷ items) ds none same named h s = rw (same refl) (
      reconcile_found-passive req (find_driver req.name ds "")
        (find_driver-IsPassive req.name ds named h) s)

  -- On a lawful server whose resources all have a name, a request for any other resource than the
  -- first in the list that is not ignored leaves every owned object as it is.
  pub reconcile-exclusive :
      (req : Request) (s : State r.client.World)
      → All IsNamed (v.drivers s.world)
      → is_first_active req.name (v.drivers s.world) ≡ false
      → SameObjects s (reconcile r create_cluster delete_cluster req s).1
  unfolding reconcile
  reconcile-exclusive req s named h =
      let listed = (r.client.list s.world).0 in
      subst
        (λ u.
          SameObjects s
            (reconcile_listed r create_cluster delete_cluster req listed
              (record s { world = u })).1)
        (sym (laws.list_world s.world))
        (reconcile_listed-passive req listed.0 (v.drivers s.world) listed.1 (laws.list_ok s.world)
          named h s)
