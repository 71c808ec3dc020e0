-- ===== src/Controllers/Reconcile/Ready.antt =====
-- What the branch for a resource that is not being deleted says of the run of `CreateCluster`.
use ocp_efa_operator.Prelude.{
  String, true, false, Option, none, some, ◌≡◌, ◌≢◌, ◌⊎◌, inl, inr, refl, ap, sym, ◌∙◌, true≢false,
  arith, str_eq, eq_iff, Bool-cases,
}
use ocp_efa_operator.Api.Driver.{Driver}
use ocp_efa_operator.Api.Client.{ApiError, Result, ok, err, ok-injective}
use ocp_efa_operator.Api.Laws.{View, IsLawful}
use ocp_efa_operator.Controllers.Action.{Action, Outcome}
use ocp_efa_operator.Controllers.Exec.{State, Exec, continue, ◌>>=◌, return, run}
use ocp_efa_operator.Controllers.Owned.{Reconciler}
use ocp_efa_operator.Controllers.Status.{creating, ready, error, discovery, with_status, Progress}
use ocp_efa_operator.Controllers.Reconcile.{retry_creating, after_create, reconcile_creation}

-- the condition that stands for an outcome
abbrev pub condition_of : Outcome → String
condition_of (requeue, some e) = error
condition_of (true, none) = discovery
condition_of (false, none) = ready

pub only_ready : (o : Outcome) → condition_of o ≡ ready → o ≡ (false, none)
only_ready (requeue, some e) h = cc (ap (λ s. str_eq s ready) h)
only_ready (true, none) h = cc (ap (λ s. str_eq s ready) h)
only_ready (false, none) h = refl

module _ {Spec : Type 0} (r : Reconciler Spec) (v : View r.client) (laws : IsLawful r.client v)
    (create_cluster : Driver Spec → Action r.client.World Outcome)
    (delete_cluster : Driver Spec → Action r.client.World (Option ApiError)) where
  -- `create_cluster` gets this resource at this server: those of the state `s`, or else, where the
  -- condition is "Error", the resource with "Creating" for it and the server after that write.
  abbrev pub Prepared : Driver Spec → State r.client.World → Driver Spec → r.client.World → Type 0
  Prepared efa s used before =
      ((efa.status.condition ≢ error) × (used ≡ efa) × (before ≡ s.world))
      ⊎ ((efa.status.condition ≡ error)
          × (used ≡ with_status efa creating creating)
          × (before ≡ (r.client.update_status (with_status efa creating creating) s.world).1))

  pub Prepared-used :
      (efa used : Driver Spec) (s : State r.client.World) (before : r.client.World)
      → Prepared efa s used before
      → (used ≡ efa) ⊎ (used ≡ with_status efa creating creating)
  Prepared-used efa used s before (inl (other, same, here)) = inl same
  Prepared-used efa used s before (inr (failed, same, here)) = inr same

  -- From the state `s`, `end` is what one run of `create_cluster` leaves, and `p` reports its outcome.
  pub record Reports (efa : Driver Spec) (s : State r.client.World) (p : Progress Spec)
      (end : r.client.World) : Type 0 where
    pub used : Driver Spec
    pub before : r.client.World
    pub prepared : Prepared efa s used before
    pub ended : end ≡ (create_cluster used before).1
    pub condition : p.efa.status.condition ≡ condition_of (create_cluster used before).0
    pub requeue : p.requeue ≡ (create_cluster used before).0.0
    pub failure : p.error ≡ (create_cluster used before).0.1

  after_create-condition :
      (d : Driver Spec) (o : Outcome)
      → ((after_create r create_cluster delete_cluster d o).efa.status.condition ≡ condition_of o)
        × ((after_create r create_cluster delete_cluster d o).requeue ≡ o.0)
        × ((after_create r create_cluster delete_cluster d o).error ≡ o.1)
  unfolding after_create
  after_create-condition d (requeue, some e) = (refl, refl, refl)
  after_create-condition d (true, none) = elim (Bool-cases (str_eq d.status.condition discovery)) [
    | inl seen ↦ rw seen (ground (arith, eq_iff d.status.condition discovery), refl, refl)
    | inr unseen ↦ rw unseen (refl, refl, refl)
  ]
  after_create-condition d (false, none) = elim (Bool-cases (str_eq d.status.condition ready)) [
    | inl seen ↦ rw seen (ground (arith, eq_iff d.status.condition ready), refl, refl)
    | inr unseen ↦ rw unseen (refl, refl, refl)
  ]

  abbrev IsReported :
      Driver Spec → State r.client.World → Result (Progress Spec) × State r.client.World → Type 0
  IsReported efa s end = (p : Progress Spec) → end.0 ≡ ok p → Reports efa s p end.1.world

  abbrev create_step : Driver Spec → Exec r.client.World (Progress Spec)
  create_step d =
      run (create_cluster d) >>= λ o. return (after_create r create_cluster delete_cluster d o)

  create_step-IsReported :
      (efa d : Driver Spec) (from s : State r.client.World)
      → Prepared efa from d s.world
      → IsReported efa from (create_step d s)
  create_step-IsReported efa d from s prepared p h =
      let o = (create_cluster d s.world).0 in
      let said = after_create-condition d o in
      let made = ok-injective (after_create r create_cluster delete_cluster d o) p h in
      record {
        used = d;
        before = s.world;
        prepared = prepared;
        ended = refl;
        condition = cc (ap (λ (q : Progress Spec). q.efa.status.condition) made, said.0);
        requeue = cc (ap (λ (q : Progress Spec). q.requeue) made, said.1);
        failure = cc (ap (λ (q : Progress Spec). q.error) made, said.2);
      }

  after_call-IsReported :
      (efa : Driver Spec) (from s : State r.client.World) (a : Result (Driver Spec))
      → ((d : Driver Spec) → a ≡ ok d → Prepared efa from d s.world)
      → IsReported efa from (continue create_step a s)
  after_call-IsReported efa from s (ok d) prepared =
      create_step-IsReported efa d from s (prepared d refl)
  after_call-IsReported efa from s (err e) prepared = λ p h. cc

  -- On a lawful server, if the branch for a resource that is not being deleted returns, then it leaves
  -- the server as one run of `create_cluster` leaves it, on the resource and from the server as they
  -- were or, where the condition was "Error", on the resource with the condition "Creating" and from
  -- the server after the write of that status. Its result reports the outcome of the run: the condition
  -- is "Error" if there was an error, "DeviceDiscovery" if the nodes are waited for and "Ready" else,
  -- and `requeue` and `err` are those of the outcome.
  pub reconcile_creation-Reports :
      (efa : Driver Spec) (s : State r.client.World) (p : Progress Spec)
      → (reconcile_creation r create_cluster delete_cluster efa s).0 ≡ ok p
      → Reports efa s p (reconcile_creation r create_cluster delete_cluster efa s).1.world
  unfolding reconcile_creation retry_creating
  reconcile_creation-Reports efa s = elim (Bool-cases (str_eq efa.status.condition error)) [
    | inl failed ↦ rw failed (
        let marked = with_status efa creating creating in
        let call = r.client.update_status marked s.world in
        after_call-IsReported efa s (record s { world = call.1 }) call.0
          (λ d is_ok. inr (
            (eq_iff efa.status.condition error).0 failed,
            (laws.update_status_ok s.world marked d is_ok).0,
            refl,
          )))
    | inr other ↦ rw other (
        create_step-IsReported efa efa s s (
          inl
            (λ e. true≢false (sym ((eq_iff efa.status.condition error).1 e) ∙ other), refl, refl)))
  ]
