-- ===== src/Plugins/Samples/NodeCases.antt =====
-- The theorems on the device node at a machine whose kernel module is loaded while the code waits.
use ocp_efa_operator.Prelude.{some, none, List, [], ◌∷◌, ◌≡◌, ◌↔◌, refl}
use ocp_efa_operator.Plugins.Text.{Bytes, codes, same_bytes}
use ocp_efa_operator.Plugins.Decimal.{pos, format_int, print_digits}
use ocp_efa_operator.Plugins.System.{enodev, err}
use ocp_efa_operator.Plugins.Loop.{signal, sigterm, sighup, Moment}
use ocp_efa_operator.Plugins.Gdrdrv.Major.{match_line, scan_lines, get_gdrdrv_major}
use ocp_efa_operator.Plugins.Gdrdrv.Major.Grammar.{IsModuleLine, match_line-IsModuleLine}
use ocp_efa_operator.Plugins.Gdrdrv.Major.Missing.{NoModule, get_gdrdrv_major-enodev}
use ocp_efa_operator.Plugins.Gdrdrv.Node.{Poll, asleep, polling, create_gdrdrv_loop, gdrdrv_main}
use ocp_efa_operator.Plugins.Gdrdrv.Node.Tracking.{Restored}
use ocp_efa_operator.Plugins.Gdrdrv.Node.Lifecycle.{gdrdrv_main-Restored}
use ocp_efa_operator.Plugins.Gdrdrv.Node.Waiting.{StillMissing, create_gdrdrv_loop-StillMissing}
use ocp_efa_operator.Plugins.Samples.{host, machine, loaded}
use ocp_efa_operator.Plugins.Samples.Laws.{nodes, host-IsNode}

abbrev line : Bytes
line = codes "242 gdrdrv"

match_line-IsModuleLine_example :
    (match_line line ≡ some (codes "242")) ↔ IsModuleLine line (codes "242")
match_line-IsModuleLine_example = match_line-IsModuleLine line (codes "242")

line-IsModuleLine : IsModuleLine line (format_int (pos 242))
unfolding format_int print_digits
line-IsModuleLine = record {
  indent = [];
  gap = codes " ";
  parts = refl;
  indent_spaces = tt;
  digits_only = (refl, (refl, (refl, tt)));
  gap_spaces = (refl, tt);
  some_digit = refl;
  some_gap = refl;
}

abbrev proc_devices : Bytes
proc_devices = codes "/proc/devices"

get_gdrdrv_major-enodev_example :
    (get_gdrdrv_major host proc_devices machine ≡ err enodev)
    ↔ NoModule (scan_lines (codes "  1 mem"))
unfolding same_bytes
get_gdrdrv_major-enodev_example =
    get_gdrdrv_major-enodev host proc_devices machine (codes "  1 mem") none refl

-- the module is loaded while the code sleeps for the second time
abbrev polls : List (Poll host)
polls = asleep (λ w. w) ∷ asleep loaded ∷ []

create_gdrdrv_loop-StillMissing_example :
    ((create_gdrdrv_loop host proc_devices
        (codes "/dev/gdrdrv")
        polls
        (record { created_dev_file = []; world = machine })).0
      ≡ polling)
    ↔ StillMissing host proc_devices (codes "/dev/gdrdrv") polls machine
create_gdrdrv_loop-StillMissing_example =
    create_gdrdrv_loop-StillMissing host proc_devices (codes "/dev/gdrdrv") polls
      (record { created_dev_file = []; world = machine })

-- and then two signals come
abbrev moments : List (Moment host)
moments = (λ w. w, signal sighup) ∷ (λ w. w, signal sigterm) ∷ []

gdrdrv_main-Restored_example :
    Restored host nodes machine
      (gdrdrv_main host (codes "/plugins") (codes "/plugins/kubelet.sock") polls moments machine)
gdrdrv_main-Restored_example =
    gdrdrv_main-Restored host nodes (codes "/plugins") (codes "/plugins/kubelet.sock")
      (host-IsNode _) polls moments machine (λ w name. refl, (λ w name. refl, tt))
      (λ w name. refl, (λ w name. refl, tt))
