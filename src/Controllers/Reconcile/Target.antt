-- ===== src/Controllers/Reconcile/Target.antt =====
-- The active resource as a run of `Reconcile` leaves it, where the server answers.
use Prim.Native.String.{String}
use ocp_efa_operator.Prelude.{
  Bool, true, false, List, ◌≡◌, refl, sym, ap, ◌∙◌, str_eq, eq_iff, if◌then◌else◌, true≢false, ℕ,
  Option, none, some, ◌&&◌, Bool-cases, inl, inr, ◌⊎◌,
}
use ocp_efa_operator.Api.Driver.{Driver, DriverStatus}
use ocp_efa_operator.Controllers.Owned.{Reconciler}
use ocp_efa_operator.Controllers.Status.{creating, ready, error, discovery, is_none, is_fresh}

-- the condition, and the description for one that is new, where nodes are waited for and where not
abbrev pub condition_for : Bool → String
condition_for true = discovery
condition_for false = ready

abbrev pub description_for : Bool → String
description_for true = "Waiting for Node Disocvery to create fms.io labels at all the workers"
description_for false = ready

abbrev pub status_for : Bool → DriverStatus → DriverStatus
status_for waits status =
    if str_eq status.condition (condition_for waits)
    then status
    else record { condition = condition_for waits; description = description_for waits }

status_for-condition :
    (waits : Bool) (status : DriverStatus)
    → (status_for waits status).condition ≡ condition_for waits
status_for-condition waits status =
    elim (Bool-cases (str_eq status.condition (condition_for waits))) [
      | inl same ↦ rw same ((eq_iff status.condition (condition_for waits)).0 same)
      | inr other ↦ rw other refl
    ]

module _ {Spec : Type 0} (r : Reconciler Spec) where
  abbrev pub finalizers_for : List String → List String
  finalizers_for finalizers =
      if r.contains_finalizer finalizers then finalizers else r.add_finalizer finalizers

  -- with the finalizer and the status that says whether nodes are waited for
  abbrev pub settled_driver : Bool → Driver Spec → Driver Spec
  settled_driver waits start = record start {
    finalizers = finalizers_for start.finalizers;
    status = status_for waits start.status;
  }

  pub settled_driver-condition :
      (waits : Bool) (start : Driver Spec)
      → (settled_driver waits start).status.condition ≡ condition_for waits
  settled_driver-condition waits start = status_for-condition waits start.status

  pub settled_driver-like :
      (waits : Bool) (start d : Driver Spec)
      → d ≡ record start { finalizers = d.finalizers; status = d.status }
      → d.finalizers ≡ finalizers_for start.finalizers
      → d.status ≡ status_for waits start.status
      → d ≡ settled_driver waits start
  settled_driver-like waits start d like finalizers status =
      like
      ∙ ap (λ fs. record start { finalizers = fs; status = d.status }) finalizers
      ∙ ap (λ st. record start { finalizers = finalizers_for start.finalizers; status = st }) status

-- a status that does not say so yet may become another that does not either
abbrev pub Keeps : DriverStatus → DriverStatus → Type 0
Keeps from to =
    (b : Bool)
    → (str_eq to.condition (condition_for b) ≡ str_eq from.condition (condition_for b))
      × (str_eq from.condition (condition_for b) ≡ true → to ≡ from)

pub Keeps-refl : (status : DriverStatus) → Keeps status status
Keeps-refl status b = (refl, λ h. refl)

pub Keeps-trans : (a b c : DriverStatus) → Keeps a b → Keeps b c → Keeps a c
Keeps-trans a b c h g target =
    ((g target).0 ∙ (h target).0, λ e. (g target).1 ((h target).0 ∙ e) ∙ (h target).1 e)

not_target : (c : String) → (c ≡ "") ⊎ (c ≡ error) → (b : Bool) → str_eq c (condition_for b) ≡ false
not_target c (inl e) true = ap (λ x. str_eq x discovery) e
not_target c (inl e) false = ap (λ x. str_eq x ready) e
not_target c (inr e) true = ap (λ x. str_eq x discovery) e
not_target c (inr e) false = ap (λ x. str_eq x ready) e

creating_not_target : (b : Bool) → str_eq creating (condition_for b) ≡ false
creating_not_target true = refl
creating_not_target false = refl

creating-Keeps :
    (from : DriverStatus) (description : String)
    → (from.condition ≡ "") ⊎ (from.condition ≡ error)
    → Keeps from (record { condition = creating; description = description })
creating-Keeps from description early b =
    let off = not_target from.condition early b in
    (creating_not_target b ∙ sym off, λ h. absurd (true≢false (sym h ∙ off)))

fresh_condition : (t : Option ℕ) (c : String) → (is_none t && str_eq c "") ≡ true → c ≡ ""
fresh_condition none c h = (eq_iff c "").0 h
fresh_condition (some t) c h = absurd (true≢false (sym h))

pub fresh-Keeps :
    {Spec : Type 0} (d : Driver Spec)
    → is_fresh d ≡ true
    → Keeps d.status (record { condition = creating; description = d.status.description })
fresh-Keeps d h =
    creating-Keeps d.status d.status.description
      (inl (fresh_condition d.deletion_timestamp d.status.condition h))

pub failed-Keeps :
    {Spec : Type 0} (d : Driver Spec)
    → str_eq d.status.condition error ≡ true
    → Keeps d.status (record { condition = creating; description = creating })
failed-Keeps d h = creating-Keeps d.status creating (inr ((eq_iff d.status.condition error).0 h))
