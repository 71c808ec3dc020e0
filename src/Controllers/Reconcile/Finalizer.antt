-- ===== src/Controllers/Reconcile/Finalizer.antt =====
-- The finalizer goes last.
use ocp_efa_operator.Prelude.{
  true≢false, String, Bool, true, false, Option, none, some, List, ◌≡◌, inl, inr, refl, sym, ap,
  ◌∙◌, subst, arith, str_eq, Bool-cases,
}
use ocp_efa_operator.Api.Driver.{Driver}
use ocp_efa_operator.Api.Objects.{Kind, ObjectKey, Object}
use ocp_efa_operator.Api.Client.{ApiError, Result, ok, err, ok-injective}
use ocp_efa_operator.Api.Laws.{View, IsLawful, drop}
use ocp_efa_operator.Controllers.Action.{Action, Outcome}
use ocp_efa_operator.Controllers.Exec.{State, Exec, continue, ◌>>=◌, run, continue-return}
use ocp_efa_operator.Controllers.Owned.{Reconciler}
use ocp_efa_operator.Controllers.Owned.Sweeps.{Sweeps}
use ocp_efa_operator.Controllers.Status.{deleting, with_status, Progress, settled}
use ocp_efa_operator.Controllers.Reconcile.{
  mark_deleting, drop_finalizer, after_delete, reconcile_deletion,
}

drop-false :
    (sweep : Object → Bool) (o : Option Object) (x : Object)
    → drop sweep o ≡ some x
    → sweep x ≡ false
drop-false sweep none x h = cc
drop-false sweep (some o) x h = ground (arith, ap sweep)

module _ {Spec : Type 0} (r : Reconciler Spec) (v : View r.client) (laws : IsLawful r.client v)
    (create_cluster : Driver Spec → Action r.client.World Outcome)
    (delete_cluster : Driver Spec → Action r.client.World (Option ApiError))
    (belongs : Driver Spec → Object → Bool)
    (belongs_status : (d : Driver Spec) (c t : String) → belongs (with_status d c t) ≡ belongs d)
    (sweeps : (d : Driver Spec) → Sweeps r v (belongs d) (delete_cluster d)) where
  -- no object of the driver is stored
  abbrev pub IsClean : Driver Spec → State r.client.World → Type 0
  IsClean efa s =
      (k : Kind) (key : ObjectKey) (x : Object)
      → v.stored s.world k key ≡ some x
      → belongs efa x ≡ false

  -- `m`, if it returns without the finalizer, leaves none of the driver's objects
  abbrev IsSafe : Driver Spec → Result (Progress Spec) × State r.client.World → Type 0
  IsSafe efa end =
      (p : Progress Spec)
      → end.0 ≡ ok p
      → r.contains_finalizer p.efa.finalizers ≡ false
      → IsClean efa end.1

  drop_finalizer-IsSafe :
      (efa d : Driver Spec) (left : List String × Bool) (s : State r.client.World)
      → IsClean efa s
      → IsSafe efa (drop_finalizer r create_cluster delete_cluster d left s)
  unfolding drop_finalizer
  drop_finalizer-IsSafe efa d (finalizers, false) s clean p h gone = clean
  drop_finalizer-IsSafe efa d (finalizers, true) s clean p h gone = λ k key x q.
      let e = record d { finalizers = finalizers } in
      let w = (r.client.update e s.world).1 in
      clean k key x (
        sym (laws.update_stored s.world e k key)
        ∙ sym (
            ap (λ (u : State r.client.World). v.stored u.world k key)
              (continue-return settled (r.client.update e s.world).0 (record s { world = w })))
        ∙ q)

  after_delete-IsSafe :
      (efa d : Driver Spec) (failed : Option ApiError) (s : State r.client.World)
      → r.contains_finalizer d.finalizers ≡ true
      → (failed ≡ none → IsClean efa s)
      → IsSafe efa (after_delete r create_cluster delete_cluster d failed s)
  unfolding after_delete
  after_delete-IsSafe efa d none s has clean p h gone =
      drop_finalizer-IsSafe efa d (r.remove_finalizer d.finalizers) s (clean refl) p h gone
  after_delete-IsSafe efa d (some e) s has clean p h gone =
      let kept : d.finalizers ≡ p.efa.finalizers =
        ap (λ (q : Progress Spec). q.efa.finalizers) (ok-injective _ _ h) in
      absurd (true≢false (sym has ∙ ap r.contains_finalizer kept ∙ gone))

  after_mark-IsSafe :
      (efa d : Driver Spec) (s : State r.client.World)
      → d.finalizers ≡ efa.finalizers
      → belongs d ≡ belongs efa
      → r.contains_finalizer efa.finalizers ≡ true
      → IsSafe efa (
          (run (delete_cluster d) >>= λ failed.
          after_delete r create_cluster delete_cluster d failed)
            s)
  after_mark-IsSafe efa d s same_list same has =
      after_delete-IsSafe efa d (delete_cluster d s.world).0
        (record s { world = (delete_cluster d s.world).1 })
        (ap r.contains_finalizer same_list ∙ has)
        (λ none_left k key x p.
          subst (λ (b : Object → Bool). b x ≡ false) same
            (drop-false (belongs d) (v.stored s.world k key) x
              (sym ((sweeps d).done s.world none_left k key) ∙ p)))

  after_call-IsSafe :
      (efa : Driver Spec) (s : State r.client.World)
      (f : Driver Spec → Exec r.client.World (Progress Spec)) (a : Result (Driver Spec))
      → ((d : Driver Spec) → a ≡ ok d → IsSafe efa (f d s))
      → IsSafe efa (continue f a s)
  after_call-IsSafe efa s f (ok d) safe = safe d refl
  after_call-IsSafe efa s f (err e) safe = λ p h gone. cc

  reconcile_deletion-IsSafe :
      (efa : Driver Spec) (s : State r.client.World)
      → r.contains_finalizer efa.finalizers ≡ true
      → IsSafe efa (reconcile_deletion r create_cluster delete_cluster efa s)
  unfolding reconcile_deletion mark_deleting
  reconcile_deletion-IsSafe efa s has =
      rw has (elim (Bool-cases (str_eq efa.status.condition deleting)) [
        | inl marked ↦ rw marked (after_mark-IsSafe efa efa s refl refl has)
        | inr other ↦ rw other (
            let marked = with_status efa deleting deleting in
            let call = r.client.update_status marked s.world in
            after_call-IsSafe efa (record s { world = call.1 }) _ call.0
              (λ d is_ok.
                let as_marked = (laws.update_status_ok s.world marked d is_ok).0 in
                after_mark-IsSafe efa d (record s { world = call.1 })
                  (ap (λ (x : Driver Spec). x.finalizers) as_marked)
                  (ap belongs as_marked ∙ belongs_status efa deleting deleting) has))
      ])

  -- On a lawful server, with a `delete_cluster` that removes the objects that belong to the resource:
  -- if the branch for a resource that is being deleted, which came with the finalizer, returns the
  -- resource without it, then no object that is stored at the end belongs to the resource. So the
  -- finalizer stays through every failed deletion.
  pub reconcile_deletion-safe :
      (efa : Driver Spec) (s : State r.client.World)
      → r.contains_finalizer efa.finalizers ≡ true
      → (p : Progress Spec) → (reconcile_deletion r create_cluster delete_cluster efa s).0 ≡ ok p
      → r.contains_finalizer p.efa.finalizers ≡ false
      → (k : Kind) (key : ObjectKey) (x : Object)
      → v.stored (reconcile_deletion r create_cluster delete_cluster efa s).1.world k key ≡ some x
      → belongs efa x ≡ false
  reconcile_deletion-safe efa s has = reconcile_deletion-IsSafe efa s has
