-- ===== src/Lib.antt =====
-- Verification of the OCP EFA operator (a Kubernetes operator in Go) and of its two device plugins.
--
-- The operator has two custom resources, EfaDriver and GdrdrvDriver, and a reconciler for each. A
-- reconciler makes one resource of its kind the active one, creates the cluster objects that the
-- driver needs, waits for the labels of the nodes, reports a condition in the resource's status, and
-- removes the objects again before it takes its finalizer off a resource that is being deleted.
--
-- A device plugin is a program of its own that runs on each node: it serves a gRPC interface to the
-- kubelet, registers with it, reports the devices that it finds and hands out their device files. The
-- one for GDRCOPY also makes the device node of its kernel module before, and removes it behind.
--
-- Parts and files:
--   Prelude                 names of the libraries, tests on numbers, lists and association lists
--   Api.Driver              api/v1alpha1/efadriver_types.go and gdrdrv_types.go
--   Api.Objects             the objects that the reconcilers create, with the fields that they set
--   Api.Client, Api.Laws    the client of the API server as an interface over an unknown state, and
--                           what its calls are documented to do (`IsLawful`); every call may fail
--   Api.Responsive          the assumption that no call fails and nobody else writes (`IsResponsive`),
--                           where `Update` leaves the status and `Status().Update` all else
--   Api.Memory              servers in memory that meet the laws, and one that refuses nothing
--   Controllers.Action, Exec  code that changes a state, and such code that may stop with an error
--   Controllers.Owned       what every Create... and Delete... function does with its object; Sweeps,
--                           Creates and Provides say what sequences of them do
--   Controllers.Status, Reconcile
--                           `Reconcile` and `GetRequeueAfter`, which controllers/efadriver_controller.go
--                           and controllers/gdrdrv_controller.go share word for word, with
--                           `CreateCluster` and `DeleteCluster` as parameters; Steps, Reported,
--                           Converges, Empties, Deferred, LastDeployed and Stable follow a run
--                           from its first call to its last; Target is the resource that it leaves
--   Controllers.Efa         the rest of controllers/efadriver_controller.go: Nodes (`GetNodeStatus`),
--                           Manifests, Kmm and DevicePlugin (the objects), Create (`CreateCluster` and
--                           the functions that it calls), Delete (`DeleteCluster`), Loop (`Reconcile`).
--                           Provision has the list of objects that a driver needs, against which
--                           Settles, Removal, LifeCycle and Beside state what whole runs leave
--   Controllers.Gdrdrv      the same for controllers/gdrdrv_controller.go
--   Startup                 main.go and the two functions `SetupWithManager`; Watches relates what
--                           these ask for to what the reconcilers create; Scheme is `init` of
--                           main.go with api/v1alpha1/groupversion_info.go
--   Controllers.Strings     `strings.Split` at a dot and the copy of a map
--   Controllers.Samples     reconcilers and servers on which the theorems are applied, in EfaCases,
--                           GdrdrvCases, LoopCases, NodeCases, FaultCases, SettleCases and
--                           GdrdrvSettleCases
--   Plugins.Text, Decimal, Path
--                           texts as lists of bytes; ParseInt at 32 bits and printing; `Join`, `Dir`
--                           and `Base` of Go's path packages
--   Plugins.System          the operating system, gRPC, the file watcher and the kubelet as an
--                           interface over an unknown state
--   Plugins.Ids, Server, Loop, Watch
--                           what cmd/ocp-efa-device-plugin/dp.go and cmd/ocp-gdrdrv-device-plugin/dp.go
--                           share: device ids, `Serve` and `Stop`, `dpLoop`, `ListAndWatch`
--   Plugins.Efa             the rest of cmd/ocp-efa-device-plugin/dp.go: `GetDevices`, `Allocate`
--   Plugins.Gdrdrv          the rest of cmd/ocp-gdrdrv-device-plugin/dp.go: `GetDevices`, `Allocate`,
--                           Major (`getGdrdrvMajor`), Node (`createGdrDrv`, `deleteGdrDrv`,
--                           `createGdrDrvLoop`, `main`)
--   Plugins.Samples         a machine on which the theorems are applied, in DeviceCases, NodeCases,
--                           LoopCases and TextCases
--
-- How the code is rendered: a function that calls the server is a function of the server's state into
-- its result and the new state. `if requeue, err = f(); requeue || err != nil { return }` is `▹`, and
-- `if err = f(); err != nil { return }` is `▸`. In `Reconcile` a returned error is the bind of `Exec`.
-- Where the code takes a decision by an early return the model has a conditional or a clause for each
-- case. A Go map is an association list; the order of a range loop over a map is the parameter
-- `range`, any one order, but the same for all the loops that a theorem speaks of. A duration is a number of nanoseconds modulo 2^64. Names are those of the Go code.
-- Helpers of controller-runtime (`GVKForObject`, the finalizer functions, `Request.String`) are fields
-- of `Reconciler`.
--
-- In the device plugins an endless loop with a `select` is a recursion over the list of what the
-- `select` receives, each with what has happened to the world before; a loop that is over with its
-- list still waits. A regular expression is a function that matches it, with a theorem that it does.
-- All loops are structural recursions over lists, but the one that prints a number, whose fuel is one
-- more than the number, which has fewer digits than that.
--
-- Not modelled: logging, the generated deep copies. Of the
-- device plugins: the closing of connections and watchers, the waiting times, lines of more than 64 KiB
-- in /proc/devices, and the health of a device, which is always the same. Reading a number at any base
-- (`parse_any`), `mkdev` and the directories of the kubelet are parameters. Concurrency: a reconciler
-- handles one request at a time, and the theorems speak of one reconciliation against a server that
-- nobody else writes to; in a device plugin the calls of gRPC that run beside `dpLoop` share with it
-- only the channel `stop`, whose closing is an event of `ListAndWatch`.
pub mod Prelude
pub mod Api
pub mod Controllers
pub mod Plugins
pub mod Startup
