-- ===== src/Controllers/Reconcile/Reported.antt =====
-- What the branch of `Reconcile` that creates a resource's objects reports, where the server answers.
use ocp_efa_operator.Prelude.{
  ℕ, String, Bool, true, false, Option, none, List, ◌≡◌, refl, sym, ap, subst, ◌∙◌, str_eq,
  Bool-cases, inl, inr, true≢false,
}
use ocp_efa_operator.Api.Driver.{Driver}
use ocp_efa_operator.Api.Objects.{Object, Node}
use ocp_efa_operator.Api.Client.{ApiError}
use ocp_efa_operator.Api.Laws.{View, IsLawful}
use ocp_efa_operator.Api.Responsive.{IsResponsive}
use ocp_efa_operator.Controllers.Action.{Action, Outcome}
use ocp_efa_operator.Controllers.Exec.{State, ◌>>=◌, return, run}
use ocp_efa_operator.Controllers.Exec.Reaches.{
  Reaches, Ends, Reaches-return, Reaches-run, Reaches-bind,
}
use ocp_efa_operator.Controllers.Owned.{Reconciler}
use ocp_efa_operator.Controllers.Owned.Provides.{first_at, or_else, Filled}
use ocp_efa_operator.Controllers.Status.{ready, discovery, find_driver, with_status, Progress}
use ocp_efa_operator.Controllers.Reconcile.{after_create, reconcile_creation, branch}
use ocp_efa_operator.Controllers.Reconcile.Steps.{Objects, marked, retry_creating-Steps, Claimed}
use ocp_efa_operator.Controllers.Reconcile.Target.{
  condition_for, description_for, finalizers_for, settled_driver, settled_driver-like, Keeps,
  Keeps-trans,
}
use ocp_efa_operator.Controllers.Reconcile.Now.{IsLike, Now}

module _ {Spec : Type 0} (r : Reconciler Spec) (v : View r.client) (laws : IsLawful r.client v)
    (up : IsResponsive r.client v) (create_cluster : Driver Spec → Action r.client.World Outcome)
    (delete_cluster : Driver Spec → Action r.client.World (Option ApiError)) (start : Driver Spec)
    (ns : List Node) (delays : List (String × ℕ)) (waits : Bool) (needed : List Object)
    (provides : (d : Driver Spec)
      → d ≡ record start { finalizers = d.finalizers; status = d.status }
      → (w : r.client.World) → v.nodes w ≡ ns
      → ((create_cluster d w).0 ≡ (waits, none)) × Filled r v needed w (create_cluster d w).1)
    (alive : start.deletion_timestamp ≡ none) where
  abbrev At : Objects → Driver Spec → State r.client.World → Type 0
  At = Now r v laws up start ns delays

  -- the objects behind the run
  abbrev pub with_needed : Objects → Objects
  with_needed objects k key = or_else (objects k key) (first_at needed k key)

  -- behind the run of `create_cluster`: `p` reports it, and is in the list where it needs no update
  pub record Reported (objects : Objects) (p : Progress Spec) (s : State r.client.World)
      : Type 0 where
    pub current : Driver Spec
    pub now : At objects current s
    pub like : IsLike r v laws up start ns delays p.efa
    pub only_status : p.efa ≡ record current { status = p.efa.status }
    pub kept : p.update_status ≡ false → current ≡ p.efa
    pub final : p.efa ≡ settled_driver r waits start
    pub requeue : p.requeue ≡ waits
    pub no_error : p.error ≡ none

  module _ (objects : Objects) (d : Driver Spec) (s : State r.client.World)
      (claimed : d.finalizers ≡ finalizers_for r start.finalizers)
      (keeps : Keeps start.status d.status) (now : At objects d s) (b : Bool) (e : waits ≡ b) where
    stays :
        str_eq d.status.condition (condition_for b) ≡ true
        → Reported objects (record { efa = d; update_status = false; requeue = b; error = none }) s
    stays seen =
        let same = sym (keeps b).0 ∙ seen in
        record {
          current = d;
          now = now;
          like = now.like;
          only_status = refl;
          kept = λ h. refl;
          final =
              settled_driver-like r b start d now.like claimed ((keeps b).1 same ∙ rw same refl)
              ∙ ap (λ x. settled_driver r x start) (sym e);
          requeue = sym e;
          no_error = refl;
        }

    changes :
        str_eq d.status.condition (condition_for b) ≡ false
        → Reported objects
            (record {
              efa = with_status d (condition_for b) (description_for b);
              update_status = true;
              requeue = b;
              error = none;
            })
            s
    changes unseen =
        let other = sym (keeps b).0 ∙ unseen in
        let like =
          marked r v laws up create_cluster delete_cluster start ns delays d (condition_for b)
            (description_for b) now.like in
        record {
          current = d;
          now = now;
          like = like;
          only_status = refl;
          kept = λ h. absurd (true≢false h);
          final =
              settled_driver-like r b start (with_status d (condition_for b) (description_for b))
                like claimed (rw other refl)
              ∙ ap (λ x. settled_driver r x start) (sym e);
          requeue = sym e;
          no_error = refl;
        }

  after_create-Reported :
      (objects : Objects) (d : Driver Spec) (s : State r.client.World)
      → d.finalizers ≡ finalizers_for r start.finalizers
      → Keeps start.status d.status
      → At objects d s
      → Reported objects (after_create r create_cluster delete_cluster d (waits, none)) s
  unfolding after_create
  after_create-Reported objects d s claimed keeps now = by_case waits refl
    where
      by_case :
          (b : Bool)
          → waits ≡ b
          → Reported objects (after_create r create_cluster delete_cluster d (b, none)) s
      by_case true e = elim (Bool-cases (str_eq d.status.condition discovery)) [
        | inl seen ↦ rw seen (stays objects d s claimed keeps now true e seen)
        | inr unseen ↦ rw unseen (changes objects d s claimed keeps now true e unseen)
      ]
      by_case false e = elim (Bool-cases (str_eq d.status.condition ready)) [
        | inl seen ↦ rw seen (stays objects d s claimed keeps now false e seen)
        | inr unseen ↦ rw unseen (changes objects d s claimed keeps now false e unseen)
      ]

  create_run :
      (objects : Objects) (d : Driver Spec)
      → Reaches
          (At objects d)
          (λ o s. (o ≡ (waits, none)) × At (with_needed objects) d s)
          (run (create_cluster d))
  create_run objects d = Reaches-run _ _ (create_cluster d) λ s h.
      let (outcome, filled) = provides d h.like s.world h.nodes in
      (
        outcome,
        record {
          like = h.like;
          listed = ap (λ ds. find_driver start.name ds "") filled.frame.drivers ∙ h.listed;
          nodes = filled.frame.nodes ∙ h.nodes;
          back_off = h.back_off;
          stored = λ k key.
              filled.at k key ∙ ap (λ o. or_else o (first_at needed k key)) (h.stored k key);
        },
      )

  create_step-Reported :
      (objects : Objects) (d : Driver Spec)
      → d.finalizers ≡ finalizers_for r start.finalizers
      → Keeps start.status d.status
      → Reaches (At objects d) (Reported (with_needed objects)) (
          run (create_cluster d) >>= λ o. return (after_create r create_cluster delete_cluster d o))
  create_step-Reported objects d claimed keeps = Reaches-bind _ _ _ _ _ (create_run objects d) λ o.
      Reaches-return _ _ _ λ s h.
        subst
          (λ y. Reported (with_needed objects) (after_create r create_cluster delete_cluster d y) s)
          (sym h.0) (after_create-Reported (with_needed objects) d s claimed keeps h.1)

  reconcile_creation-Reported :
      (objects : Objects) (d : Driver Spec)
      → IsLike r v laws up start ns delays d
      → d.finalizers ≡ finalizers_for r start.finalizers
      → Keeps start.status d.status
      → Reaches
          (At objects d)
          (Reported (with_needed objects))
          (reconcile_creation r create_cluster delete_cluster d)
  unfolding reconcile_creation
  reconcile_creation-Reported objects d like claimed keeps =
      Reaches-bind _ _ _ _ _
        (retry_creating-Steps r v laws up create_cluster delete_cluster start ns delays objects d
          like)
        λ x. record {
          at = λ s (same, kept, now).
              (create_step-Reported objects x (same ∙ claimed)
                  (Keeps-trans start.status d.status x.status keeps kept)).at
                s now;
        }

  -- a resource that is like the first one is not being deleted either
  pub branch-Reported :
      (objects : Objects) (d : Driver Spec)
      → Reaches
          (Claimed r v laws up create_cluster delete_cluster start ns delays alive objects d)
          (Reported (with_needed objects))
          (branch r create_cluster delete_cluster d.deletion_timestamp d)
  unfolding branch
  branch-Reported objects d = record {
    at = λ s (claimed, keeps, now).
        subst
          (λ t.
            Ends (Reported (with_needed objects)) (branch r create_cluster delete_cluster t d s))
          (sym (ap (λ (x : Driver Spec). x.deletion_timestamp) now.like ∙ alive))
          ((reconcile_creation-Reported objects d now.like claimed keeps).at s now);
  }
