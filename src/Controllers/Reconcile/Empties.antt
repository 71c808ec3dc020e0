-- ===== src/Controllers/Reconcile/Empties.antt =====
-- One run of `Reconcile` for a resource that is being deleted, where the server answers.
use ocp_efa_operator.Prelude.{
  erase, ℕ, String, Bool, true, false, Option, none, some, List, ◌≡◌, refl, sym, ap, subst, ◌∙◌,
  str_eq,
}
use ocp_efa_operator.Api.Driver.{Driver}
use ocp_efa_operator.Api.Objects.{Kind, ObjectKey, Object, Node}
use ocp_efa_operator.Api.Client.{ApiError}
use ocp_efa_operator.Api.Laws.{View, IsLawful, first_named, drop}
use ocp_efa_operator.Api.Responsive.{IsResponsive}
use ocp_efa_operator.Controllers.Action.{Action, Outcome}
use ocp_efa_operator.Controllers.Exec.{State, ◌>>=◌}
use ocp_efa_operator.Controllers.Exec.Reaches.{
  Reaches, Ends, Reaches-return, Reaches-run, Reaches-if, Reaches-bind,
}
use ocp_efa_operator.Controllers.Owned.{Reconciler, Request}
use ocp_efa_operator.Controllers.Status.{
  deleting, ignored, find_driver, with_status, Progress, ReconcileResult, no_requeue,
}
use ocp_efa_operator.Controllers.Reconcile.{
  clear_back_off, claim, mark_deleting, drop_finalizer, after_delete, reconcile_deletion, branch,
  write_status, finish, reconcile_active, reconcile,
}
use ocp_efa_operator.Controllers.Reconcile.Now.{IsLike, Now, Now-first_named}
use ocp_efa_operator.Controllers.Reconcile.Steps.{Objects, marked, write_status_of, reconcile-first}

module _ {Spec : Type 0} (r : Reconciler Spec) (v : View r.client) (laws : IsLawful r.client v)
    (up : IsResponsive r.client v) (create_cluster : Driver Spec → Action r.client.World Outcome)
    (delete_cluster : Driver Spec → Action r.client.World (Option ApiError)) (start : Driver Spec)
    (ns : List Node) (delays : List (String × ℕ)) (sweep : Object → Bool)
    (clears : (d : Driver Spec)
      → d ≡ record start { finalizers = d.finalizers; status = d.status }
      → (w : r.client.World)
      → ((delete_cluster d w).0 ≡ none)
        × ((k : Kind) (key : ObjectKey)
            → v.stored (delete_cluster d w).1 k key ≡ drop sweep (v.stored w k key)))
    (frame : (d : Driver Spec) (w : r.client.World)
      → v.drivers (delete_cluster d w).1 ≡ v.drivers w) where
  abbrev At : Objects → Driver Spec → State r.client.World → Type 0
  At = Now r v laws up start ns delays

  -- the objects that stay
  abbrev Emptied : Objects → State r.client.World → Type 0
  Emptied objects s =
      (s.back_off_duration ≡ delays)
      × ((k : Kind) (key : ObjectKey) → v.stored s.world k key ≡ drop sweep (objects k key))

  -- and the resource, which is still stored
  abbrev Left : Objects → Driver Spec → State r.client.World → Type 0
  Left objects d s = (first_named d.name (v.drivers s.world) ≡ some d) × Emptied objects s

  -- what holds at the end
  abbrev Ended : Objects → Request → ReconcileResult → State r.client.World → Type 0
  Ended objects req res s =
      (res ≡ no_requeue)
      × (s.back_off_duration ≡ erase (r.request_string req) delays)
      × ((k : Kind) (key : ObjectKey) → v.stored s.world k key ≡ drop sweep (objects k key))

  -- nothing is left to be done
  abbrev Done : Objects → Progress Spec → State r.client.World → Type 0
  Done objects p s =
      (p.update_status ≡ false) × (p.requeue ≡ false) × (p.error ≡ none) × Emptied objects s

  mark_deleting-Steps :
      (objects : Objects) (d : Driver Spec)
      → IsLike r v laws up start ns delays d
      → Reaches (At objects d) (At objects) (mark_deleting r create_cluster delete_cluster d)
  unfolding mark_deleting
  mark_deleting-Steps objects d like =
      Reaches-if _ _ (str_eq d.status.condition deleting) _ _
        (λ seen. Reaches-return _ _ d (λ s h. h))
        (λ unseen.
          write_status_of r v laws up create_cluster delete_cluster start ns delays objects d
            (with_status d deleting deleting)
            (marked r v laws up create_cluster delete_cluster start ns delays d deleting deleting
              like)
            refl)

  drop_finalizer-Done :
      (objects : Objects) (d : Driver Spec) (left : List String × Bool)
      → Reaches
          (Left objects d)
          (Done objects)
          (drop_finalizer r create_cluster delete_cluster d left)
  unfolding drop_finalizer
  drop_finalizer-Done objects d (finalizers, false) =
      Reaches-return _ _ _ (λ s h. (refl, refl, refl, h.1))
  drop_finalizer-Done objects d (finalizers, true) =
      let d' = record d { finalizers = finalizers } in
      Reaches-bind _ (λ x s. Emptied objects s) _ _ _
        (record {
          at = λ s h.
              rw (up.update s.world d' d h.0 refl)
                (h.1.0, λ k key. laws.update_stored s.world d' k key ∙ h.1.1 k key);
        })
        (λ x. Reaches-return _ _ _ (λ s h. (refl, refl, refl, h)))

  reconcile_deletion-Done :
      (objects : Objects) (d : Driver Spec)
      → IsLike r v laws up start ns delays d
      → r.contains_finalizer d.finalizers ≡ true
      → Reaches (At objects d) (Done objects) (reconcile_deletion r create_cluster delete_cluster d)
  unfolding reconcile_deletion after_delete
  reconcile_deletion-Done objects d like held = rw held (
      Reaches-bind _ (At objects) _ _ _ (mark_deleting-Steps objects d like) λ x.
        Reaches-bind _ (λ e s. (e ≡ none) × Left objects x s) _ _ _
          (Reaches-run _ _ (delete_cluster x) λ s h.
            let (outcome, dropped) = clears x h.like s.world in
            (
              outcome,
              (
                ap (first_named x.name) (frame x s.world)
                    ∙ Now-first_named r v laws up start ns delays objects x s x.name h refl,
                (h.back_off, λ k key. dropped k key ∙ ap (drop sweep) (h.stored k key)),
              ),
            ))
          (λ e. record {
            at = λ s h.
                subst
                  (λ y. Ends (Done objects) (after_delete r create_cluster delete_cluster x y s))
                  (sym h.0)
                  ((drop_finalizer-Done objects x (r.remove_finalizer x.finalizers)).at s h.1);
          }))

  finish-Emptied :
      (objects : Objects) (req : Request) (p : Progress Spec)
      → Reaches (Done objects p) (Ended objects req) (do
        p' ← write_status r create_cluster delete_cluster p
        finish r create_cluster delete_cluster req p')
  unfolding write_status finish clear_back_off
  finish-Emptied objects req p = record {
    at = λ s (same, ended, good, h).
        rw same (rw ended (rw good (refl, ap (erase (r.request_string req)) h.0, h.1)));
  }

  -- a resource that has the finalizer is not changed
  claim-Held :
      (objects : Objects)
      → r.contains_finalizer start.finalizers ≡ true
      → Reaches
          (At objects start)
          (λ d s. (d ≡ start) × At objects start s)
          (claim r create_cluster delete_cluster start)
  unfolding claim
  claim-Held objects held = rw held (Reaches-return _ _ start (λ s h. (refl, h)))

  branch-Done :
      (objects : Objects) (t : ℕ) (d : Driver Spec)
      → start.deletion_timestamp ≡ some t
      → r.contains_finalizer start.finalizers ≡ true
      → d ≡ start
      → Reaches
          (At objects start)
          (Done objects)
          (branch r create_cluster delete_cluster d.deletion_timestamp d)
  unfolding branch
  branch-Done objects t d dying held same =
      subst
        (λ x.
          Reaches (At objects start) (Done objects)
            (branch r create_cluster delete_cluster x.deletion_timestamp x))
        (sym same)
        (subst
          (λ o.
            Reaches (At objects start) (Done objects)
              (branch r create_cluster delete_cluster o start))
          (sym dying) (reconcile_deletion-Done objects start refl held))

  reconcile_active-Emptied :
      (objects : Objects) (req : Request) (t : ℕ)
      → start.deletion_timestamp ≡ some t
      → r.contains_finalizer start.finalizers ≡ true
      → Reaches
          (At objects start)
          (Ended objects req)
          (reconcile_active r create_cluster delete_cluster req start)
  unfolding reconcile_active
  reconcile_active-Emptied objects req t dying held =
      Reaches-bind _ (λ d s. (d ≡ start) × At objects start s) _ _ _ (claim-Held objects held)
        λ d.
          Reaches-bind _ (Done objects) _ _ _
            (record { at = λ s h. (branch-Done objects t d dying held h.0).at s h.1 })
            λ p. finish-Emptied objects req p

  pub reconcile-Emptied :
      (req : Request) (s : State r.client.World) (t : ℕ)
      → find_driver req.name (v.drivers s.world) "" ≡ (some start, "")
      → str_eq start.status.condition ignored ≡ false
      → start.deletion_timestamp ≡ some t
      → r.contains_finalizer start.finalizers ≡ true
      → v.nodes s.world ≡ ns
      → s.back_off_duration ≡ delays
      → Ends (Ended (v.stored s.world) req) (reconcile r create_cluster delete_cluster req s)
  reconcile-Emptied req s t found active dying held nodes back_off =
      reconcile-first r v laws up create_cluster delete_cluster start ns delays req s
        (Ended (v.stored s.world) req) found active nodes back_off
        (reconcile_active-Emptied (v.stored s.world) req t dying held)
