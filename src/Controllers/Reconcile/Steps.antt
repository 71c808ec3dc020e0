-- ===== src/Controllers/Reconcile/Steps.antt =====
-- The steps of `Reconcile` before `CreateCluster` that write the resource, where the server answers.
use ocp_efa_operator.Prelude.{
  ℕ, String, false, Option, none, some, List, ◌≡◌, refl, sym, ap, subst, ◌∙◌, str_eq,
}
use ocp_efa_operator.Api.Driver.{Driver, DriverStatus}
use ocp_efa_operator.Api.Objects.{Kind, ObjectKey, Object, Node}
use ocp_efa_operator.Api.Client.{ApiError}
use ocp_efa_operator.Api.Laws.{View, IsLawful}
use ocp_efa_operator.Api.Responsive.{IsResponsive}
use ocp_efa_operator.Controllers.Action.{Action, Outcome}
use ocp_efa_operator.Controllers.Exec.{State, Exec, return, call, run}
use ocp_efa_operator.Controllers.Exec.Reaches.{
  Reaches, Ends, Reaches-return, Reaches-if, Reaches-bind, Reaches-weaken,
}
use ocp_efa_operator.Controllers.Owned.{Reconciler, Request}
use ocp_efa_operator.Controllers.Status.{
  creating, error, ignored, find_driver, with_status, is_fresh, ReconcileResult,
}
use ocp_efa_operator.Controllers.Reconcile.{
  mark_creating, claim, retry_creating, reconcile_active, reconcile_found, reconcile_listed,
  reconcile,
}
use ocp_efa_operator.Controllers.Reconcile.Target.{
  Keeps, Keeps-refl, fresh-Keeps, failed-Keeps, finalizers_for,
}
use ocp_efa_operator.Controllers.Reconcile.Now.{
  find_driver-name, find_driver_not_empty, IsLike, Now, update_status-Now, update-Now,
}

abbrev pub Objects : Type 0
Objects = Kind → ObjectKey → Option Object

module _ {Spec : Type 0} (r : Reconciler Spec) (v : View r.client) (laws : IsLawful r.client v)
    (up : IsResponsive r.client v) (create_cluster : Driver Spec → Action r.client.World Outcome)
    (delete_cluster : Driver Spec → Action r.client.World (Option ApiError)) (start : Driver Spec)
    (ns : List Node) (delays : List (String × ℕ)) where
  abbrev At : Objects → Driver Spec → State r.client.World → Type 0
  At = Now r v laws up start ns delays

  pub write_status_of :
      (objects : Objects) (old d : Driver Spec)
      → IsLike r v laws up start ns delays d
      → d ≡ record old { status = d.status }
      → Reaches (At objects old) (At objects) (call (r.client.update_status d))
  write_status_of objects old d like only_status =
      Reaches-weaken _ _ _ _ (λ x s h. subst (λ y. At objects y s) (sym h.0) h.1)
        (update_status-Now r v laws up start ns delays objects old d like only_status)

  changed :
      (d : Driver Spec) (finalizers : List String) (status : DriverStatus)
      → IsLike r v laws up start ns delays d
      → IsLike r v laws up start ns delays (record d { finalizers = finalizers; status = status })
  changed d finalizers status like =
      ap (λ (x : Driver Spec). record x { finalizers = finalizers; status = status }) like

  -- with another status
  pub marked :
      (d : Driver Spec) (condition description : String)
      → IsLike r v laws up start ns delays d
      → IsLike r v laws up start ns delays (with_status d condition description)
  marked d condition description =
      changed d d.finalizers (record { condition = condition; description = description })

  -- A step from a resource in the list to another: the status keeps what it says at the end.
  abbrev pub Stepped : Objects → Driver Spec → Driver Spec → State r.client.World → Type 0
  Stepped objects d x s = (x.finalizers ≡ d.finalizers) × Keeps d.status x.status × At objects x s

  abbrev pub Steps : Objects → Driver Spec → Exec r.client.World (Driver Spec) → Type 0
  Steps objects d m = Reaches (At objects d) (Stepped objects d) m

  stays-Steps : (objects : Objects) (d : Driver Spec) → Steps objects d (return d)
  stays-Steps objects d = Reaches-return _ _ d (λ s h. (refl, Keeps-refl d.status, h))

  marks-Steps :
      (objects : Objects) (d : Driver Spec) (condition description : String)
      → IsLike r v laws up start ns delays d
      → Keeps d.status (record { condition = condition; description = description })
      → Steps objects d (call (r.client.update_status (with_status d condition description)))
  marks-Steps objects d condition description like keeps =
      Reaches-weaken _ _ _ _
        (λ x s h. subst (λ y. Stepped objects d y s) (sym h.0) (refl, keeps, h.1))
        (update_status-Now r v laws up start ns delays objects d
          (with_status d condition description) (marked d condition description like) refl)

  mark_creating-Steps :
      (objects : Objects) (d : Driver Spec)
      → IsLike r v laws up start ns delays d
      → Steps objects d (mark_creating r create_cluster delete_cluster d)
  unfolding mark_creating
  mark_creating-Steps objects d like =
      Reaches-if _ _ (is_fresh d) _ _
        (λ fresh. marks-Steps objects d creating d.status.description like (fresh-Keeps d fresh))
        (λ old. stays-Steps objects d)

  pub retry_creating-Steps :
      (objects : Objects) (d : Driver Spec)
      → IsLike r v laws up start ns delays d
      → Steps objects d (retry_creating r create_cluster delete_cluster d)
  unfolding retry_creating
  retry_creating-Steps objects d like =
      Reaches-if _ _ (str_eq d.status.condition error) _ _
        (λ failed. marks-Steps objects d creating creating like (failed-Keeps d failed))
        (λ good. stays-Steps objects d)

  -- `Reconcile` comes to the resource, if that is the first of its name and none before it is deployed
  pub reconcile-first :
      (req : Request) (s : State r.client.World)
      (Q : ReconcileResult → State r.client.World → Type 0)
      → find_driver req.name (v.drivers s.world) "" ≡ (some start, "")
      → str_eq start.status.condition ignored ≡ false
      → v.nodes s.world ≡ ns
      → s.back_off_duration ≡ delays
      → Reaches
          (At (v.stored s.world) start)
          Q
          (reconcile_active r create_cluster delete_cluster req start)
      → Ends Q (reconcile r create_cluster delete_cluster req s)
  unfolding reconcile reconcile_listed reconcile_found
  reconcile-first req s Q found active nodes back_off run =
      let name = find_driver-name req.name (v.drivers s.world) start "" "" found in
      rw (up.list s.world, laws.list_world s.world)
        (rw (find_driver_not_empty req.name (v.drivers s.world) start "" "" found) (
          rw found (
            rw active (
              run.at s (record {
                like = refl;
                listed = ap (λ n. find_driver n (v.drivers s.world) "") name ∙ found;
                nodes = nodes;
                back_off = back_off;
                stored = λ k key. refl;
              })))))

module _ {Spec : Type 0} (r : Reconciler Spec) (v : View r.client) (laws : IsLawful r.client v)
    (up : IsResponsive r.client v) (create_cluster : Driver Spec → Action r.client.World Outcome)
    (delete_cluster : Driver Spec → Action r.client.World (Option ApiError)) (start : Driver Spec)
    (ns : List Node) (delays : List (String × ℕ)) (alive : start.deletion_timestamp ≡ none) where
  abbrev At' : Objects → Driver Spec → State r.client.World → Type 0
  At' = Now r v laws up start ns delays

  -- the resource has the finalizer
  abbrev pub Claimed : Objects → Driver Spec → State r.client.World → Type 0
  Claimed objects x s =
      (x.finalizers ≡ finalizers_for r start.finalizers)
      × Keeps start.status x.status
      × At' objects x s

  abbrev claimed : Driver Spec
  claimed = record start { finalizers = r.add_finalizer start.finalizers }

  mark_creating-Claimed :
      (objects : Objects)
      → r.contains_finalizer start.finalizers ≡ false
      → Reaches
          (At' objects claimed)
          (Claimed objects)
          (mark_creating r create_cluster delete_cluster claimed)
  mark_creating-Claimed objects missing =
      Reaches-weaken _ _ _ _
        (λ x s (finalizers, keeps, now). (finalizers ∙ rw missing refl, keeps, now))
        (mark_creating-Steps r v laws up create_cluster delete_cluster start ns delays objects
          claimed refl)

  -- and one that is not being deleted takes a finalizer
  pub claim-Claimed :
      (objects : Objects)
      → Reaches (At' objects start) (Claimed objects) (claim r create_cluster delete_cluster start)
  unfolding claim
  claim-Claimed objects =
      Reaches-if _ _ (r.contains_finalizer start.finalizers) _ _
        (λ there. Reaches-return _ _ start (λ s h. (rw there refl, Keeps-refl start.status, h)))
        (λ missing.
          Reaches-bind _ (λ x s. (x ≡ claimed) × At' objects claimed s) _ _ _
            (update-Now r v laws up start ns delays alive objects start
              (r.add_finalizer start.finalizers) refl)
            (λ x. record {
              at = λ s h.
                  subst
                    (λ y.
                      Ends (Claimed objects) (mark_creating r create_cluster delete_cluster y s))
                    (sym h.0) ((mark_creating-Claimed objects missing).at s h.1);
            }))
