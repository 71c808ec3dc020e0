-- ===== src/Plugins/Loop/OneServer.antt =====
-- What `dpLoop` leaves: one running server while it waits, and a registration for each start.
use ocp_efa_operator.Prelude.{
  ℕ, suc, ◌+◌, Option, none, some, List, [], ◌∷◌, ◌++◌, append-nil, ◌≡◌, inl, refl, ◌∙◌, arith,
  replicate, replicate-append, All,
}
use native.Mathlib.Nat.{zero-add}
use ocp_efa_operator.Plugins.Text.{Bytes}
use ocp_efa_operator.Plugins.Path.{join, base}
use ocp_efa_operator.Plugins.System.{Errno, RegisterRequest, System}
use ocp_efa_operator.Plugins.Server.{Kind, Plugin, get_device_plugin_options, new_plugin, stop}
use ocp_efa_operator.Plugins.Loop.Laws.{Servers, Leaves, IsServing}
use ocp_efa_operator.Plugins.Loop.Serving.{
  Idle, Busy, AtMostOne, Ended, serve-Ensures, stop-Idle, Busy-Leaves,
}
use ocp_efa_operator.Plugins.Loop.{
  Moment, Reaction, stay, restart, quit, reaction, LoopEnd, returned, waiting, start_plugin,
  restart_plugin, after_serve, react, dp_rounds, if_watching, dp_loop, Rounds,
}

abbrev pub is_restart : Reaction → ℕ
is_restart restart = 1
is_restart stay = 0
is_restart quit = 0

-- how many of the events ask for a restart
abbrev pub restarts : (sys : System) → Bytes → List (Moment sys) → ℕ
restarts sys kubelet_sock [] = 0
restarts sys kubelet_sock ((env, wake) ∷ moments) =
    is_restart (reaction kubelet_sock wake) + restarts sys kubelet_sock moments

one-add : (n : ℕ) → 1 + n ≡ suc n
one-add n = omega arith

module _ (sys : System) (s : Servers sys) (laws : IsServing sys s) (kind : Kind)
    (plugin_dir kubelet_sock device_path : Bytes) where
  -- the registration of this plugin
  abbrev pub request : RegisterRequest
  request = record {
    endpoint = base (join plugin_dir kind.socket_name);
    resource_name = kind.resource_name;
    options = get_device_plugin_options;
  }

  abbrev Idle' : List RegisterRequest → Plugin × sys.World → Type 0
  Idle' = Idle sys s laws request

  abbrev Busy' : List RegisterRequest → Plugin × sys.World → Type 0
  Busy' = Busy sys s laws request

  -- what holds at the end of the loop, with these registrations if it still waits
  abbrev pub Settled : List RegisterRequest → LoopEnd × sys.World → Type 0
  Settled log (waiting dp, w) =
      (h : ℕ) × (dp.server ≡ some h) × (s.live w ≡ h ∷ []) × (s.registered w ≡ log)
  Settled log (returned none, w) = s.live w ≡ []
  Settled log (returned (some e), w) = AtMostOne sys s laws request w

  start_plugin-Ended :
      (log : List RegisterRequest) (w : sys.World)
      → s.live w ≡ []
      → s.registered w ≡ log
      → Ended sys s laws request
          (Busy' (request ∷ log))
          (start_plugin sys kind plugin_dir kubelet_sock device_path w)
  unfolding start_plugin new_plugin
  start_plugin-Ended log w live registered =
      (serve-Ensures sys s laws request log kubelet_sock).at
        (new_plugin sys kind plugin_dir device_path w, w)
        (record { server = refl; live = live; registered = registered; request = refl })

  restart_plugin-Ended :
      (log : List RegisterRequest) (dp : Plugin) (w : sys.World)
      → Busy' log (dp, w)
      → Ended sys s laws request
          (Busy' (request ∷ log))
          (restart_plugin sys kind plugin_dir kubelet_sock device_path dp w)
  unfolding restart_plugin
  restart_plugin-Ended log dp w p =
      let stopped = stop-Idle sys s laws request log (dp, w) p in
      start_plugin-Ended log (stop sys (dp, w)).1.1 stopped.live stopped.registered

  after_serve-Settled :
      (log log' : List RegisterRequest) (next : Rounds sys kind plugin_dir kubelet_sock device_path)
      → ((dp : Plugin) (w : sys.World) → Busy' log (dp, w) → Settled log' (next dp w))
      → (end : Option Errno × (Plugin × sys.World)) → Ended sys s laws request (Busy' log) end
      → Settled log' (after_serve sys kind plugin_dir kubelet_sock device_path next end)
  after_serve-Settled log log' next keep (none, (dp, w)) p = keep dp w p
  after_serve-Settled log log' next keep (some e, (dp, w)) one = one

  react-Settled :
      (log log' : List RegisterRequest) (r : Reaction)
      (next : Rounds sys kind plugin_dir kubelet_sock device_path)
      → ((dp : Plugin) (w : sys.World)
          → Busy' (replicate (is_restart r) request ++ log) (dp, w)
          → Settled log' (next dp w))
      → (dp : Plugin) (w : sys.World) → Busy' log (dp, w)
      → Settled log' (react sys kind plugin_dir kubelet_sock device_path r next dp w)
  react-Settled log log' stay next keep dp w p = keep dp w p
  react-Settled log log' restart next keep dp w p =
      after_serve-Settled (request ∷ log) log' next keep
        (restart_plugin sys kind plugin_dir kubelet_sock device_path dp w)
        (restart_plugin-Ended log dp w p)
  react-Settled log log' quit next keep dp w p = (stop-Idle sys s laws request log (dp, w) p).live

  add-registrations :
      (r : Reaction) (n : ℕ) (log : List RegisterRequest)
      → replicate n request ++ (replicate (is_restart r) request ++ log)
        ≡ replicate (is_restart r + n) request ++ log
  add-registrations stay n log = rw zero-add refl
  add-registrations quit n log = rw zero-add refl
  add-registrations restart n log = rw (one-add n) (replicate-append n request log)

  -- what happens before the event starts or stops no server of the plugin and registers nothing
  abbrev pub Undisturbed : Moment sys → Type 0
  Undisturbed (env, wake) = (w : sys.World) → Leaves sys s w (env w)

  dp_rounds-Settled :
      (moments : List (Moment sys)) (log : List RegisterRequest) (dp : Plugin) (w : sys.World)
      → All Undisturbed moments
      → Busy' log (dp, w)
      → Settled
          (replicate (restarts sys kubelet_sock moments) request ++ log)
          (dp_rounds sys kind plugin_dir kubelet_sock device_path moments dp w)
  unfolding dp_rounds
  dp_rounds-Settled [] log dp w all p = (p.handle, p.server, p.live, p.registered)
  dp_rounds-Settled ((env, wake) ∷ moments) log dp w (same, all) p =
      let r = reaction kubelet_sock wake in
      react-Settled log _ r (dp_rounds sys kind plugin_dir kubelet_sock device_path moments)
        (λ dp' w' q.
          rw (← add-registrations r (restarts sys kubelet_sock moments) log)
            (dp_rounds-Settled moments (replicate (is_restart r) request ++ log) dp' w' all q))
        dp (env w) (Busy-Leaves sys s laws request log dp w (env w) (same w) p)

  -- from the one registration of the start
  first_rounds-Settled :
      (moments : List (Moment sys)) (dp : Plugin) (w : sys.World)
      → All Undisturbed moments
      → Busy' (request ∷ []) (dp, w)
      → Settled
          (replicate (1 + restarts sys kubelet_sock moments) request)
          (dp_rounds sys kind plugin_dir kubelet_sock device_path moments dp w)
  first_rounds-Settled moments dp w all p =
      rw (one-add (restarts sys kubelet_sock moments))
        (rw all_alike at (dp_rounds-Settled moments (request ∷ []) dp w all p))
    where
      all_alike :
          replicate (restarts sys kubelet_sock moments) request ++ request ∷ []
          ≡ request ∷ replicate (restarts sys kubelet_sock moments) request
      all_alike = replicate-append (restarts sys kubelet_sock moments) request [] ∙ append-nil _

  if_watching-Settled :
      (log : List RegisterRequest) (w0 : sys.World) (end : Option Errno × sys.World)
      (next : sys.World → LoopEnd × sys.World)
      → s.live w0 ≡ []
      → Leaves sys s w0 end.1
      → ((w : sys.World) → Leaves sys s w0 w → Settled log (next w))
      → Settled log (if_watching sys kind plugin_dir kubelet_sock device_path end next)
  if_watching-Settled log w0 (none, w) next live same keep = keep w same
  if_watching-Settled log w0 (some e, w) next live same keep = inl (same.live ∙ live)

  -- On lawful libraries, where no server runs and nothing is registered at first and only the loop
  -- starts and stops servers and registers: while `dpLoop`
  -- waits, exactly one server runs, the plugin's own, and the kubelet has one registration of it for
  -- the start and one for each event since then that asked for a restart; where it has returned on a
  -- signal no server runs, and where it has returned with an error one does at most.
  pub dp_loop-Settled :
      (moments : List (Moment sys)) (w : sys.World)
      → All Undisturbed moments
      → s.live w ≡ []
      → s.registered w ≡ []
      → Settled
          (replicate (1 + restarts sys kubelet_sock moments) request)
          (dp_loop sys kind plugin_dir kubelet_sock device_path moments w)
  unfolding dp_loop
  dp_loop-Settled moments w all live registered =
      if_watching-Settled _ w (sys.new_watcher w) _ live (laws.new_watcher w) λ w1 same1.
        if_watching-Settled _ w1 (sys.watch plugin_dir w1) _ (same1.live ∙ live)
          (laws.watch plugin_dir w1)
          λ w2 same2.
            after_serve-Settled (request ∷ []) _
              (dp_rounds sys kind plugin_dir kubelet_sock device_path moments)
              (λ dp' w' p. first_rounds-Settled moments dp' w' all p)
              (start_plugin sys kind plugin_dir kubelet_sock device_path w2)
              (start_plugin-Ended [] w2 (same2.live ∙ same1.live ∙ live)
                (same2.registered ∙ same1.registered ∙ registered))
