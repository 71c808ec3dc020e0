-- ===== src/Controllers/Efa/Beside.antt =====
-- A run of `Reconcile` for a driver that is not the active one does not disturb the active one.
use ocp_efa_operator.Prelude.{
  Bool, true, false, none, some, String, List, [], ◌∷◌, All, inl, inr, ◌≡◌, refl, sym, ap, ◌∙◌,
  subst, arith, str_eq, eq_iff, Bool-cases, true≢false,
}
use ocp_efa_operator.Api.Driver.{Driver, EfaDriver, EfaDriverSpec}
use ocp_efa_operator.Api.Client.{ok}
use ocp_efa_operator.Api.Objects.{Kind, ObjectKey, Object}
use ocp_efa_operator.Api.Laws.{View, IsLawful, replace}
use ocp_efa_operator.Api.Responsive.{IsResponsive}
use ocp_efa_operator.Controllers.Exec.{State}
use ocp_efa_operator.Controllers.Exec.Reaches.{Ends, Ends-weaken}
use ocp_efa_operator.Controllers.Owned.{Reconciler, Request, GroupVersionKind, owner_reference}
use ocp_efa_operator.Controllers.Status.{ignored, find_driver, ReconcileResult}
use ocp_efa_operator.Controllers.Owned.Provides.{first_at, or_else}
use ocp_efa_operator.Controllers.Reconcile.{reconcile}
use ocp_efa_operator.Controllers.Reconcile.Exclusive.{
  is_ignored, IsNamed, IsPassive, not_empty, find_driver-blocked,
}
use ocp_efa_operator.Controllers.Reconcile.Converges.{Settled, result_for, next_delay, delays_after}
use ocp_efa_operator.Controllers.Reconcile.Deferred.{deferred, Deferred, reconcile-Deferred}
use ocp_efa_operator.Controllers.Efa.Nodes.{node_status}
use ocp_efa_operator.Controllers.Efa.Create.{create_cluster}
use ocp_efa_operator.Controllers.Efa.Delete.{delete_cluster}
use ocp_efa_operator.Controllers.Efa.Provision.{needed}
use ocp_efa_operator.Controllers.Efa.Settles.{reconcile-settles}

module _ {Spec : Type 0} (name : String) (a d : Driver Spec) where
  -- behind a deployed resource none is found that is active
  blocked_absurd :
      (ds : List (Driver Spec)) (deployed : String)
      → All IsNamed ds
      → str_eq deployed "" ≡ false
      → is_ignored a ≡ false
      → find_driver name ds deployed ≡ (some a, "")
      → ⊥
  blocked_absurd ds deployed named occupied active h =
      elim (subst IsPassive h (find_driver-blocked name ds deployed named occupied)) [
        | inl off ↦ true≢false (sym off ∙ active)
        | inr other ↦ true≢false other
      ]

  -- the first active resource stays that where a resource of another name gets ignored
  find_driver_spared :
      (ds : List (Driver Spec))
      → All IsNamed ds
      → str_eq d.name name ≡ false
      → is_ignored d ≡ true
      → is_ignored a ≡ false
      → find_driver name ds "" ≡ (some a, "")
      → find_driver name (replace d ds) "" ≡ (some a, "")
  unfolding find_driver
  find_driver_spared [] named other off active h = h
  find_driver_spared (x ∷ xs) named other off active h = elim (Bool-cases (str_eq x.name name)) [
    | inl it ↦
        let differs : str_eq x.name d.name ≡ false =
          ground (arith, eq_iff x.name name, eq_iff x.name d.name, eq_iff d.name name) in
        rw differs (rw it (rw it at h))
    | inr away ↦ elim (Bool-cases (is_ignored x)) [
      | inr on ↦
          absurd (
            blocked_absurd xs x.name named.1 (not_empty x named.0) active (rw on at (rw away at h)))
      | inl gone ↦
          let rest = find_driver_spared xs named.1 other off active (rw gone at (rw away at h)) in
          elim (Bool-cases (str_eq x.name d.name)) [
            | inl same ↦ rw same (rw other (rw off rest))
            | inr differs ↦ rw differs (rw away (rw gone rest))
          ]
    ]
  ]

-- seen from a state with the same nodes, delays and objects
Settled-same :
    {Spec : Type 0} (r : Reconciler Spec) (v : View r.client) (key : String)
    (s s' t : State r.client.World) (efa : Driver Spec) (waits : Bool) (needed : List Object)
    (res : ReconcileResult)
    → v.nodes s'.world ≡ v.nodes s.world
    → s'.back_off_duration ≡ s.back_off_duration
    → ((k : Kind) (at : ObjectKey) → v.stored s'.world k at ≡ v.stored s.world k at)
    → Settled r v key s' efa waits needed res t
    → Settled r v key s efa waits needed res t
Settled-same r v key s s' t efa waits needed res nodes back_off stored settled =
    let (result, delays, driver, nodes', stored') = settled in
    (
      result ∙ ap (λ m. result_for waits (next_delay key m)) back_off,
      delays ∙ ap (delays_after waits key) back_off,
      driver,
      nodes' ∙ nodes,
      λ k at. stored' k at ∙ ap (λ o. or_else o (first_at needed k at)) (stored k at),
    )

module _ (r : Reconciler EfaDriverSpec) (v : View r.client) (laws : IsLawful r.client v)
    (up : IsResponsive r.client v) (gvk : GroupVersionKind)
    (known : (d : EfaDriver) → r.gvk_for_object d ≡ ok gvk) where
  -- On a lawful server that answers, where the kind of the drivers is known and all drivers have a
  -- name: let the driver of `req` be the first of its name, not being deleted, not marked as ignored,
  -- with none before it deployed, and that of `other`, of another name, be the first of its own, not
  -- marked as ignored and behind a deployed one. Then a run of `Reconcile` for `other` raises no error,
  -- and one for `req` after it has the result and leaves the delays, the driver (its finalizers
  -- and its status included), the nodes and the objects that it would without the run for `other`.
  pub reconcile_beside :
      (req other : Request) (s : State r.client.World) (efa rival : EfaDriver) (deployed : String)
      → All IsNamed (v.drivers s.world)
      → find_driver req.name (v.drivers s.world) "" ≡ (some efa, "")
      → str_eq efa.status.condition ignored ≡ false
      → efa.deletion_timestamp ≡ none
      → find_driver other.name (v.drivers s.world) "" ≡ (some rival, deployed)
      → str_eq rival.status.condition ignored ≡ false
      → str_eq deployed "" ≡ false
      → str_eq rival.name req.name ≡ false
      → Ends
          (λ _ s'.
            Ends
              (Settled r v
                (r.request_string req)
                s
                efa
                (node_status (v.nodes s.world)).0
                (needed r efa (owner_reference efa gvk) (v.nodes s.world)))
              (reconcile r (create_cluster r) (delete_cluster r) req s'))
          (reconcile r (create_cluster r) (delete_cluster r) other s)
  reconcile_beside req other s efa rival deployed named found active alive found' active' occupied
        differs =
      Ends-weaken (λ t. Unit)
        (Deferred r v laws up (create_cluster r) (delete_cluster r) s (deferred rival deployed)) _ _
        (λ res s' (result, drivers, nodes, back_off, stored).
          let still =
            ap (λ ds. find_driver req.name ds "") drivers
            ∙ find_driver_spared req.name efa (deferred rival deployed) (v.drivers s.world) named
                differs refl active found in
          let owner = owner_reference efa gvk in
          let key = r.request_string req in
          Ends-weaken (λ t. Unit)
            (Settled r v key s' efa (node_status (v.nodes s'.world)).0
              (needed r efa owner (v.nodes s'.world)))
            _ _
            (λ res' t settled.
              Settled-same r v key s s' t efa _ (needed r efa owner (v.nodes s.world)) res' nodes
                back_off stored
                (subst (λ n. Settled r v key s' efa (node_status n).0 (needed r efa owner n) res' t)
                  nodes settled))
            (reconcile-settles r v laws up gvk known req s' efa still active alive))
        (reconcile-Deferred r v laws up (create_cluster r) (delete_cluster r) other s rival deployed
          found' active' occupied)
