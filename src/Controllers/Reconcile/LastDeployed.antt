-- ===== src/Controllers/Reconcile/LastDeployed.antt =====
-- Which resource `Reconcile` names as the deployed one, where the server answers.
use ocp_efa_operator.Prelude.{
  String, false, Option, some, List, [], ◌∷◌, ◌++◌, append_assoc, All, ◌≡◌, ◌≢◌, refl, sym, ap,
  subst, ◌∙◌, arith, str_eq, eq_iff, eq_refl, if◌then◌else◌,
}
use ocp_efa_operator.Api.Driver.{Driver}
use ocp_efa_operator.Api.Objects.{Kind, ObjectKey}
use ocp_efa_operator.Api.Client.{ApiError}
use ocp_efa_operator.Api.Laws.{View, IsLawful, replace}
use ocp_efa_operator.Api.Responsive.{IsResponsive}
use ocp_efa_operator.Controllers.Action.{Action, Outcome}
use ocp_efa_operator.Controllers.Exec.{State}
use ocp_efa_operator.Controllers.Exec.Reaches.{Ends, Ends-weaken}
use ocp_efa_operator.Controllers.Owned.{Reconciler, Request}
use ocp_efa_operator.Controllers.Status.{ignored, find_driver, no_requeue}
use ocp_efa_operator.Controllers.Reconcile.{reconcile}
use ocp_efa_operator.Controllers.Reconcile.Deferred.{deferred, Deferred, reconcile-Deferred}

All-parts :
    {A : Type 0} (P : A → Type 0) (xs : List A) (y : A) (ys : List A)
    → All P (xs ++ (y ∷ ys))
    → All P xs × P y × All P ys
All-parts P [] y ys (q, all) = (tt, q, all)
All-parts P (x ∷ xs) y ys (p, all) =
    let (front, here, back) = All-parts P xs y ys all in ((p, front), here, back)

module _ {Spec : Type 0} where
  -- the resource is not of this name
  abbrev pub IsOther : String → Driver Spec → Type 0
  IsOther name d = d.name ≢ name

  abbrev pub IsIgnored : Driver Spec → Type 0
  IsIgnored d = d.status.condition ≡ ignored

  other_false : (name : String) (d : Driver Spec) → IsOther name d → str_eq d.name name ≡ false
  other_false name d other = ground (arith, eq_iff d.name name)

  -- resources of other names only change the variable of the loop
  find_driver-skip :
      (name : String) (ds rest : List (Driver Spec)) (deployed : String)
      → All (IsOther name) ds
      → (last : String) × (find_driver name (ds ++ rest) deployed ≡ find_driver name rest last)
  unfolding find_driver
  find_driver-skip name [] rest deployed others = (deployed, refl)
  find_driver-skip name (x ∷ ds) rest deployed (other, others) =
      let (last, same) =
        find_driver-skip name ds rest
          (if str_eq x.status.condition ignored then deployed else x.name) others in
      (last, rw (other_false name x other) same)

  -- and ignored ones not even that
  find_driver-ignored :
      (name : String) (ds rest : List (Driver Spec)) (deployed : String)
      → All (IsOther name) ds
      → All IsIgnored ds
      → find_driver name (ds ++ rest) deployed ≡ find_driver name rest deployed
  unfolding find_driver
  find_driver-ignored name [] rest deployed others off = refl
  find_driver-ignored name (x ∷ ds) rest deployed (other, others) (gone, off) =
      rw (other_false name x other) (
        rw ((eq_iff x.status.condition ignored).1 gone)
          (find_driver-ignored name ds rest deployed others off))

  -- the loop keeps the last resource that is deployed
  find_driver-last :
      (older newer after : List (Driver Spec)) (d efa : Driver Spec)
      → All (IsOther efa.name) older
      → IsOther efa.name d
      → All (IsOther efa.name) newer
      → All IsIgnored newer
      → str_eq d.status.condition ignored ≡ false
      → find_driver efa.name (older ++ (d ∷ (newer ++ (efa ∷ after)))) "" ≡ (some efa, d.name)
  unfolding find_driver
  find_driver-last older newer after d efa others other others' off on =
      let rest = d ∷ (newer ++ (efa ∷ after)) in
      let (last, same) = find_driver-skip efa.name older rest "" others in
      subst (λ p. p ≡ (some efa, d.name)) (sym same)
        (rw (other_false efa.name d other) (
          rw on (
            find_driver-ignored efa.name newer (efa ∷ after) d.name others' off
            ∙ rw (eq_refl efa.name) refl)))

  replace-skip :
      (d : Driver Spec) (ds rest : List (Driver Spec))
      → All (IsOther d.name) ds
      → replace d (ds ++ rest) ≡ ds ++ replace d rest
  replace-skip d [] rest others = refl
  replace-skip d (x ∷ ds) rest (other, others) =
      rw (other_false d.name x other) (ap (λ ys. x ∷ ys) (replace-skip d ds rest others))

  replace-others :
      (d : Driver Spec) (ds : List (Driver Spec)) → All (IsOther d.name) ds → replace d ds ≡ ds
  replace-others d [] others = refl
  replace-others d (x ∷ ds) (other, others) =
      rw (other_false d.name x other) (ap (λ ys. x ∷ ys) (replace-others d ds others))

  replace-here :
      (before after : List (Driver Spec)) (efa d : Driver Spec)
      → d.name ≡ efa.name
      → All (IsOther efa.name) before
      → All (IsOther efa.name) after
      → replace d (before ++ (efa ∷ after)) ≡ before ++ (d ∷ after)
  replace-here before after efa d same others others' =
      replace-skip d before (efa ∷ after) (subst (λ n. All (IsOther n) before) (sym same) others)
      ∙ ap (λ ys. before ++ ys)
          (rw ((eq_iff efa.name d.name).1 (sym same)) (
            ap (λ ys. d ∷ ys)
              (replace-others d after (subst (λ n. All (IsOther n) after) (sym same) others'))))

module _ {Spec : Type 0} (r : Reconciler Spec) (v : View r.client) (laws : IsLawful r.client v)
    (up : IsResponsive r.client v) (create_cluster : Driver Spec → Action r.client.World Outcome)
    (delete_cluster : Driver Spec → Action r.client.World (Option ApiError)) where
  -- On a lawful server that answers: let `efa` be the only resource of the request's name, not marked
  -- as ignored, and `d` a resource before it that is not marked as ignored either and has a name,
  -- while all those between the two are marked as ignored. Then `Reconcile` raises no error and asks
  -- for no other run; in the list nothing changes but the status of `efa`, which has the condition
  -- `Ignored` and a description with the name of `d`; and the nodes, the delays and every place are
  -- as they were.
  pub reconcile-deferred :
      (req : Request) (s : State r.client.World) (older newer after : List (Driver Spec))
      (d efa : Driver Spec)
      → v.drivers s.world ≡ older ++ (d ∷ (newer ++ (efa ∷ after)))
      → req.name ≡ efa.name
      → All (IsOther efa.name) (older ++ (d ∷ newer))
      → All (IsOther efa.name) after
      → All IsIgnored newer
      → str_eq d.status.condition ignored ≡ false
      → str_eq d.name "" ≡ false
      → str_eq efa.status.condition ignored ≡ false
      → Ends
          (λ res s'.
            (res ≡ no_requeue)
            × (v.drivers s'.world ≡ older ++ (d ∷ (newer ++ (deferred efa d.name ∷ after))))
            × (v.nodes s'.world ≡ v.nodes s.world)
            × (s'.back_off_duration ≡ s.back_off_duration)
            × ((k : Kind) (key : ObjectKey) → v.stored s'.world k key ≡ v.stored s.world k key))
          (reconcile r create_cluster delete_cluster req s)
  reconcile-deferred req s older newer after d efa listed asked others others' off on named active =
      let (front, other, back) = All-parts (IsOther efa.name) older d newer others in
      let found =
        ap (λ n. find_driver n (v.drivers s.world) "") asked
        ∙ ap (λ ds. find_driver efa.name ds "") listed
        ∙ find_driver-last older newer after d efa front other back off on in
      let new = deferred efa d.name in
      let replaced =
        ap (replace new) (listed ∙ sym (append_assoc older (d ∷ newer) (efa ∷ after)))
        ∙ replace-here (older ++ (d ∷ newer)) after efa new refl others others'
        ∙ append_assoc older (d ∷ newer) (new ∷ after) in
      Ends-weaken (λ t. Unit) (Deferred r v laws up create_cluster delete_cluster s new) _ _
        (λ res s' (result, drivers, nodes, back_off, stored).
          (result, drivers ∙ replaced, nodes, back_off, stored))
        (reconcile-Deferred r v laws up create_cluster delete_cluster req s efa d.name found active
          named)
