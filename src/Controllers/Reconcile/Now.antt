-- ===== src/Controllers/Reconcile/Now.antt =====
-- Where the active resource stands between two steps of `Reconcile`, if nobody else writes.
use ocp_efa_operator.Prelude.{
  ℕ, String, Bool, true, false, Option, none, some, List, [], ◌∷◌, ◌≡◌, refl, sym, ap, subst, ◌∙◌,
  str_eq, eq_iff, eq_refl, if◌then◌else◌, none-ne-some, is_empty, some-injective, Bool-cases, inl,
  inr,
}
use ocp_efa_operator.Api.Driver.{Driver}
use ocp_efa_operator.Api.Objects.{Kind, ObjectKey, Object, Node}
use ocp_efa_operator.Api.Laws.{View, IsLawful, first_named, replace}
use ocp_efa_operator.Api.Responsive.{IsResponsive}
use ocp_efa_operator.Controllers.Exec.{State, call}
use ocp_efa_operator.Controllers.Exec.Reaches.{Reaches}
use ocp_efa_operator.Controllers.Owned.{Reconciler}
use ocp_efa_operator.Controllers.Status.{find_driver, ignored}

module _ {Spec : Type 0} where
  pub find_driver-name :
      (name : String) (ds : List (Driver Spec)) (d : Driver Spec) (deployed before : String)
      → find_driver name ds deployed ≡ (some d, before)
      → d.name ≡ name
  unfolding find_driver
  find_driver-name name [] d deployed before h = absurd (none-ne-some d (ap (λ p. p.0) h))
  find_driver-name name (x ∷ xs) d deployed before h =
      split (str_eq x.name name) refl _ (find_driver-name name xs d _ before) h
    where
      split :
          (b : Bool)
          → str_eq x.name name ≡ b
          → (later : Option (Driver Spec) × String) → (later ≡ (some d, before) → d.name ≡ name)
          → (if b then (some x, deployed) else later) ≡ (some d, before)
          → d.name ≡ name
      split true e later rec h =
          ap (λ (y : Driver Spec). y.name) (sym (some-injective x d (ap (λ p. p.0) h)))
          ∙ (eq_iff x.name name).0 e
      split false e later rec h = rec h

  pub find_driver_not_empty :
      (name : String) (ds : List (Driver Spec)) (d : Driver Spec) (deployed before : String)
      → find_driver name ds deployed ≡ (some d, before)
      → is_empty ds ≡ false
  unfolding find_driver
  find_driver_not_empty name [] d deployed before h = absurd (none-ne-some d (ap (λ p. p.0) h))
  find_driver_not_empty name (x ∷ xs) d deployed before h = refl

  pub find_driver-first_named :
      (name : String) (ds : List (Driver Spec)) (d : Driver Spec) (deployed before : String)
      → find_driver name ds deployed ≡ (some d, before)
      → first_named name ds ≡ some d
  unfolding find_driver
  find_driver-first_named name [] d deployed before h = absurd (none-ne-some d (ap (λ p. p.0) h))
  find_driver-first_named name (x ∷ xs) d deployed before h =
      elim (Bool-cases (str_eq x.name name)) [
        | inl it ↦ rw it (ap (λ p. p.0) (rw it at h))
        | inr other ↦ rw other (find_driver-first_named name xs d _ before (rw other at h))
      ]

  -- a new version of the first resource of its name stands where the old one did
  pub find_driver-replace :
      (ds : List (Driver Spec)) (old d : Driver Spec) (deployed before : String)
      → find_driver d.name ds deployed ≡ (some old, before)
      → find_driver d.name (replace d ds) deployed ≡ (some d, before)
  unfolding find_driver
  find_driver-replace [] old d deployed before h = absurd (none-ne-some old (ap (λ p. p.0) h))
  find_driver-replace (x ∷ xs) old d deployed before h =
      split (str_eq x.name d.name) refl _ (find_driver d.name (replace d xs)) h
        (find_driver-replace xs old d _ before)
    where
      split :
          (b : Bool)
          → str_eq x.name d.name ≡ b
          → (earlier : Option (Driver Spec) × String)
          → (later : String → Option (Driver Spec) × String)
          → (if b then (some x, deployed) else earlier) ≡ (some old, before)
          → (earlier ≡ (some old, before)
              → later (if str_eq x.status.condition ignored then deployed else x.name)
                ≡ (some d, before))
          → (if str_eq (if b then d else x).name d.name
              then (some (if b then d else x), deployed)
              else later (
                  if str_eq (if b then d else x).status.condition ignored
                  then deployed
                  else (if b then d else x).name))
            ≡ (some d, before)
      split true e earlier later h rec = rw (eq_refl d.name) (ap (λ p. (some d, p.1)) h)
      split false e earlier later h rec = rw e (rec h)

module _ {Spec : Type 0} (r : Reconciler Spec) (v : View r.client) (laws : IsLawful r.client v)
    (up : IsResponsive r.client v) (start : Driver Spec) (ns : List Node)
    (delays : List (String × ℕ)) where
  -- the resource is `start`, but for its finalizers and its status
  abbrev pub IsLike : Driver Spec → Type 0
  IsLike d = d ≡ record start { finalizers = d.finalizers; status = d.status }

  -- The list has this resource under the name, and the nodes, the delays and the objects are these.
  pub record Now (objects : Kind → ObjectKey → Option Object) (d : Driver Spec)
      (s : State r.client.World) : Type 0 where
    pub like : IsLike d
    pub listed : find_driver start.name (v.drivers s.world) "" ≡ (some d, "")
    pub nodes : v.nodes s.world ≡ ns
    pub back_off : s.back_off_duration ≡ delays
    pub stored : (k : Kind) (key : ObjectKey) → v.stored s.world k key ≡ objects k key

  Now-replaced :
      (objects : Kind → ObjectKey → Option Object) (old d : Driver Spec) (s : State r.client.World)
      (w : r.client.World)
      → Now objects old s
      → IsLike d
      → v.drivers w ≡ replace d (v.drivers s.world)
      → v.nodes w ≡ v.nodes s.world
      → ((k : Kind) (key : ObjectKey) → v.stored w k key ≡ v.stored s.world k key)
      → Now objects d (record s { world = w })
  Now-replaced objects old d s w now like drivers nodes stored = record {
    like = like;
    listed =
        ap (λ ds. find_driver start.name ds "") drivers
        ∙ subst (λ name. find_driver name (replace d (v.drivers s.world)) "" ≡ (some d, ""))
            same_name
            (find_driver-replace (v.drivers s.world) old d "" ""
              (ap (λ name. find_driver name (v.drivers s.world) "") same_name ∙ now.listed));
    nodes = nodes ∙ now.nodes;
    back_off = now.back_off;
    stored = λ k key. stored k key ∙ now.stored k key;
  }
    where
      same_name : d.name ≡ start.name
      same_name = ap (λ (x : Driver Spec). x.name) like

  pub Now-first_named :
      (objects : Kind → ObjectKey → Option Object) (old : Driver Spec) (s : State r.client.World)
      (name : String)
      → Now objects old s
      → name ≡ old.name
      → first_named name (v.drivers s.world) ≡ some old
  Now-first_named objects old s name now same =
      ap (λ n. first_named n (v.drivers s.world)) (same ∙ ap (λ (x : Driver Spec). x.name) now.like)
      ∙ find_driver-first_named start.name (v.drivers s.world) old "" "" now.listed

  -- a write of the status puts the resource into the list
  pub update_status-Now :
      (objects : Kind → ObjectKey → Option Object) (old d : Driver Spec)
      → IsLike d
      → d ≡ record old { status = d.status }
      → Reaches
          (Now objects old)
          (λ x s. (x ≡ d) × Now objects d s)
          (call (r.client.update_status d))
  update_status-Now objects old d like only_status = record {
    at = λ s now.
        let first =
          Now-first_named objects old s d.name now (ap (λ (x : Driver Spec). x.name) only_status) in
        let accepted = up.update_status s.world d old first only_status in
        rw accepted (
          refl,
          Now-replaced objects old d s (r.client.update_status d s.world).1 now like
              (laws.update_status_ok s.world d d accepted).1 (up.update_status_nodes s.world d)
              (laws.update_status_stored s.world d),
        );
  }

  -- and so does one of the finalizers of a resource that is not being deleted
  pub update-Now :
      start.deletion_timestamp ≡ none
      → (objects : Kind → ObjectKey → Option Object) (old : Driver Spec) (finalizers : List String)
      → IsLike old
      → Reaches
          (Now objects old)
          (λ x s.
            (x ≡ record old { finalizers = finalizers })
            × Now objects (record old { finalizers = finalizers }) s)
          (call (r.client.update (record old { finalizers = finalizers })))
  update-Now alive objects old finalizers like = record {
    at = λ s now.
        let d = record old { finalizers = finalizers } in
        let first = Now-first_named objects old s old.name now refl in
        rw (up.update s.world d old first refl) (
          refl,
          Now-replaced objects old d s (r.client.update d s.world).1 now
              (ap (λ (x : Driver Spec). record x { finalizers = finalizers; status = old.status })
                like)
              (up.update_drivers s.world d old first refl
                (ap (λ (x : Driver Spec). x.deletion_timestamp) like ∙ alive))
              (up.update_nodes s.world d) (laws.update_stored s.world d),
        );
  }
