-- ===== src/Plugins/Loop/Laws.antt =====
-- What the loop relies on of the gRPC library and of the kubelet: which servers run, and what has
-- been registered.
use ocp_efa_operator.Prelude.{ℕ, Option, none, some, List, [], ◌∷◌, ◌≡◌, ◌==◌, if◌then◌else◌}
use ocp_efa_operator.Plugins.Text.{Bytes}
use ocp_efa_operator.Plugins.System.{Errno, RegisterRequest, System}

abbrev pub without : ℕ → List ℕ → List ℕ
without h [] = []
without h (x ∷ xs) = if x == h then without h xs else x ∷ without h xs

pub record Servers (sys : System) : Type 0 where
  pub live : sys.World → List ℕ
  pub registered : sys.World → List RegisterRequest

-- the call leaves both views alone
pub record Leaves (sys : System) (s : Servers sys) (w w' : sys.World) : Type 0 where
  pub live : s.live w' ≡ s.live w
  pub registered : s.registered w' ≡ s.registered w

abbrev pub log_if_none :
    Option Errno → RegisterRequest → List RegisterRequest → List RegisterRequest
log_if_none none req log = req ∷ log
log_if_none (some e) req log = log

-- a server runs from `Serve` to `Stop`, and the kubelet has the registrations that it accepted
pub record IsServing (sys : System) (s : Servers sys) : Type 0 where
  pub new_server : (w : sys.World) → Leaves sys s w (sys.new_server w).1
  pub serve_live :
      (h : ℕ) (socket : Bytes) (w : sys.World) → s.live (sys.serve h socket w) ≡ h ∷ s.live w
  pub serve_registered :
      (h : ℕ) (socket : Bytes) (w : sys.World)
      → s.registered (sys.serve h socket w) ≡ s.registered w
  pub stop_live : (h : ℕ) (w : sys.World) → s.live (sys.stop_server h w) ≡ without h (s.live w)
  pub stop_registered :
      (h : ℕ) (w : sys.World) → s.registered (sys.stop_server h w) ≡ s.registered w
  pub remove : (name : Bytes) (w : sys.World) → Leaves sys s w (sys.remove name w).1
  pub listen : (socket : Bytes) (w : sys.World) → Leaves sys s w (sys.listen socket w).1
  pub dial : (target : Bytes) (w : sys.World) → Leaves sys s w (sys.dial target w).1
  pub new_watcher : (w : sys.World) → Leaves sys s w (sys.new_watcher w).1
  pub watch : (name : Bytes) (w : sys.World) → Leaves sys s w (sys.watch name w).1
  pub register_live :
      (sock : Bytes) (req : RegisterRequest) (w : sys.World)
      → s.live (sys.register sock req w).1 ≡ s.live w
  pub register_registered :
      (sock : Bytes) (req : RegisterRequest) (w : sys.World)
      → s.registered (sys.register sock req w).1
        ≡ log_if_none (sys.register sock req w).0 req (s.registered w)
