-- ===== src/Plugins/Samples/Laws.antt =====
-- The machine meets the laws.
use ocp_efa_operator.Prelude.{Bool, true, false, none, ◌≡◌, refl, sym, none-ne-some}
use ocp_efa_operator.Plugins.Text.{Bytes}
use ocp_efa_operator.Plugins.System.{eexist}
use ocp_efa_operator.Plugins.Loop.Laws.{Servers, Leaves, IsServing}
use ocp_efa_operator.Plugins.Loop.Kept.{IsKept}
use ocp_efa_operator.Plugins.Watch.UpToDate.{Replies, IsStream}
use ocp_efa_operator.Plugins.Server.{Plugin}
use ocp_efa_operator.Plugins.Efa.{get_devices, devices_of, device, read_sys_file}
use ocp_efa_operator.Plugins.Gdrdrv.Node.Tracking.{Nodes, made, gone, SameNodes, IsNode}
use ocp_efa_operator.Plugins.Samples.{Machine, host, machine_mknod, machine_unlink}

abbrev pub servers : Servers host
servers = record { live = λ w. w.running; registered = λ w. w.requests }

abbrev pub replies : Replies host
replies = record { last = λ w. w.last_reply }

abbrev pub nodes : Nodes host
nodes = record { exists = λ w. w.nodes }

unchanged : (w : Machine) → Leaves host servers w w
unchanged w = record { live = refl; registered = refl }

pub host-IsServing : IsServing host servers
host-IsServing = record {
  new_server = λ w. record { live = refl; registered = refl };
  serve_live = λ h socket w. refl;
  serve_registered = λ h socket w. refl;
  stop_live = λ h w. refl;
  stop_registered = λ h w. refl;
  remove = λ name w. unchanged w;
  listen = λ socket w. unchanged w;
  dial = λ target w. unchanged w;
  new_watcher = λ w. unchanged w;
  watch = λ name w. unchanged w;
  register_live = λ sock req w. refl;
  register_registered = λ sock req w. refl;
}

pub host-IsStream : (dp : Plugin) → IsStream host replies (get_devices host dp)
unfolding get_devices devices_of device read_sys_file
host-IsStream dp = record { sent = λ devs w h. refl; same_devices = λ devs w. refl }

host-IsKept : (own_socket : Bytes) (w0 : Machine) → IsKept host own_socket (SameNodes host nodes w0)
host-IsKept own_socket w0 = record {
  new_server = λ w p. p;
  serve = λ h socket w p. p;
  stop_server = λ h w p. p;
  remove = λ w p. p;
  listen = λ w p. p;
  dial = λ target w p. p;
  register = λ sock req w p. p;
  new_watcher = λ w p. p;
  watch = λ name w p. p;
}

-- for each answer to whether there is a node
mknod_made :
    (name : Bytes) (w : Machine) (other : Bytes) (b : Bool)
    → w.nodes name ≡ b
    → (machine_mknod name w).1.nodes other
      ≡ made (machine_mknod name w).0 name other (w.nodes other)
mknod_made name w other true h = rw h refl
mknod_made name w other false h = rw h refl

mknod_fresh :
    (name : Bytes) (w : Machine) (b : Bool)
    → w.nodes name ≡ b
    → (machine_mknod name w).0 ≡ none
    → w.nodes name ≡ false
mknod_fresh name w true h e = absurd (none-ne-some eexist (sym (rw h at e)))
mknod_fresh name w false h e = h

unlink_gone :
    (name : Bytes) (w : Machine) (other : Bytes) (b : Bool)
    → w.nodes name ≡ b
    → (machine_unlink name w).1.nodes other
      ≡ gone (machine_unlink name w).0 name other (w.nodes other)
unlink_gone name w other true h = rw h refl
unlink_gone name w other false h = rw h refl

pub host-IsNode : (own_socket : Bytes) → IsNode host nodes own_socket
host-IsNode own_socket = record {
  made_node = λ name mode dev w other. mknod_made name w other (w.nodes name) refl;
  fresh = λ name mode dev w h. mknod_fresh name w (w.nodes name) refl h;
  gone_node = λ name w other. unlink_gone name w other (w.nodes name) refl;
  unlinks = λ name w there. rw there refl;
  calls = host-IsKept own_socket;
}
