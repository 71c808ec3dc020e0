-- ===== src/Plugins/Samples/LoopCases.antt =====
-- The theorems on the two loops that react to events.
use ocp_efa_operator.Prelude.{true, List, [], ◌∷◌, refl, replicate, ◌+◌, true≢false}
use ocp_efa_operator.Plugins.Text.{Bytes, codes, has_prefix}
use ocp_efa_operator.Plugins.Server.{efa_kind}
use ocp_efa_operator.Plugins.Loop.{file_event, signal, sighup, Moment, dp_loop}
use ocp_efa_operator.Plugins.Loop.OneServer.{Settled, request, restarts, dp_loop-Settled}
use ocp_efa_operator.Plugins.Watch.{WatchEvent, changed, list_and_watch}
use ocp_efa_operator.Plugins.Watch.UpToDate.{Informed, list_and_watch-Informed}
use ocp_efa_operator.Plugins.Efa.{get_devices, is_device_name}
use ocp_efa_operator.Plugins.Samples.{host, machine}
use ocp_efa_operator.Plugins.Samples.DeviceCases.{efa}
use ocp_efa_operator.Plugins.Samples.Laws.{servers, replies, host-IsServing, host-IsStream}

abbrev kubelet_sock : Bytes
kubelet_sock = codes "/plugins/kubelet.sock"

-- the kubelet starts anew, another file is made, and a signal asks for a restart
abbrev moments : List (Moment host)
moments =
    (λ w. w, file_event kubelet_sock true)
    ∷ (λ w. w, file_event (codes "/plugins/other.sock") true)
    ∷ (λ w. w, signal sighup)
    ∷ []

dp_loop-Settled_example :
    Settled host servers host-IsServing efa_kind
      (codes "/plugins")
      kubelet_sock
      efa.device_path
      (replicate (1 + restarts host kubelet_sock moments) (
        request host servers host-IsServing efa_kind
          (codes "/plugins")
          kubelet_sock
          efa.device_path))
      (dp_loop host efa_kind (codes "/plugins") kubelet_sock efa.device_path moments machine)
dp_loop-Settled_example =
    dp_loop-Settled host servers host-IsServing efa_kind (codes "/plugins") kubelet_sock
      efa.device_path moments machine
      (
        λ w. record { live = refl; registered = refl },
        (
          λ w. record { live = refl; registered = refl },
          (λ w. record { live = refl; registered = refl }, tt),
        ),
      )
      refl refl

-- a device comes, and another file is changed
abbrev events : List (WatchEvent host efa.device_path (get_devices host efa) (is_device_name efa))
events =
    changed (codes "/dev/infiniband/uverbs2")
      (λ w. record w { entries = codes "uverbs2" ∷ w.entries })
    ∷ changed (codes "/dev/infiniband/rdma_cm") (λ w. w)
    ∷ []

list_and_watch-Informed_example :
    Informed host replies efa.device_path
      (get_devices host efa)
      (is_device_name efa)
      (host-IsStream efa)
      (list_and_watch host efa.device_path
        (get_devices host efa)
        (is_device_name efa)
        events
        machine)
unfolding is_device_name has_prefix
list_and_watch-Informed_example =
    list_and_watch-Informed host replies efa.device_path (get_devices host efa) (is_device_name efa)
      (host-IsStream efa) events
      ((λ told w. absurd (true≢false told), λ w. refl), ((λ told w. refl, λ w. refl), tt)) machine
