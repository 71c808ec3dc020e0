-- ===== src/Controllers/Samples/LoopCases.antt =====
-- The theorems on the shared loop at concrete servers, drivers and requests.
use ocp_efa_operator.Prelude.{
  true≢false, ap, sym, str_eq, String, false, lookup, ◌≡◌, ◌≢◌, ◌∙◌, refl, ◌*◌,
}
use ocp_efa_operator.Api.Driver.{EfaDriverSpec}
use ocp_efa_operator.Api.Objects.{daemon_set}
use ocp_efa_operator.Api.Client.{ok}
use ocp_efa_operator.Api.Memory.{stored}
use ocp_efa_operator.Api.Memory.Steady.{steady_client, steady_view, steady-IsLawful}
use ocp_efa_operator.Controllers.Exec.Total.{Returns}
use ocp_efa_operator.Controllers.Status.{second}
use ocp_efa_operator.Controllers.Owned.{Reconciler}
use ocp_efa_operator.Controllers.Efa.Create.{create_cluster}
use ocp_efa_operator.Controllers.Efa.Delete.{delete_cluster}
use ocp_efa_operator.Controllers.Reconcile.{reconcile, get_requeue_after}
use ocp_efa_operator.Controllers.Reconcile.BackOff.{requeue_times, get_requeue_after-linear}
use ocp_efa_operator.Controllers.Reconcile.Errors.{reconcile_never_fails, Anything}
use ocp_efa_operator.Controllers.Reconcile.Exclusive.{is_first_active, reconcile-exclusive}
use ocp_efa_operator.Controllers.Samples.{request}
use ocp_efa_operator.Controllers.Samples.EfaCases.{r, v, laws, w, s, plugin_key}

pub named : (name : String) → str_eq name "" ≡ false → name ≢ ""
named name h e = true≢false (sym (ap (λ x. str_eq x "") e) ∙ h)

reconcile-exclusive_example :
    stored
      (reconcile r (create_cluster r) (delete_cluster r) (request "b") s).1.world
      daemon_set
      plugin_key
    ≡ stored w daemon_set plugin_key
unfolding is_first_active
reconcile-exclusive_example =
    reconcile-exclusive r v laws (create_cluster r) (delete_cluster r) (request "b") s
      (named "a" refl, (named "b" refl, tt)) refl daemon_set plugin_key

abbrev steady : Reconciler EfaDriverSpec
steady = record r { client = steady_client EfaDriverSpec }

reconcile_never_fails_example :
    Returns Anything
      (reconcile steady (create_cluster steady) (delete_cluster steady) (request "a") s).0
reconcile_never_fails_example =
    reconcile_never_fails steady (steady_view EfaDriverSpec) (steady-IsLawful EfaDriverSpec)
      (create_cluster steady) (delete_cluster steady) (λ d u. tt) (λ d u. tt) (request "a") s

get_requeue_after-linear_example :
    (get_requeue_after r
      (create_cluster r)
      (delete_cluster r)
      (request "a")
      (requeue_times r (create_cluster r) (delete_cluster r) (request "a") 2 s)).0
    ≡ ok (3 * second)
unfolding lookup
get_requeue_after-linear_example =
    get_requeue_after-linear r (create_cluster r) (delete_cluster r) (request "a") 2 s refl
