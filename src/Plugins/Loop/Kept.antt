-- ===== src/Plugins/Loop/Kept.antt =====
-- What each call of the loop keeps, the loop keeps.
use ocp_efa_operator.Prelude.{ℕ, true, Option, none, some, List, [], ◌∷◌, ◌++◌, ◌≡◌, refl, All}
use ocp_efa_operator.Plugins.Text.{Bytes, codes}
use ocp_efa_operator.Plugins.Path.{join}
use ocp_efa_operator.Plugins.System.{Errno, RegisterRequest, System, after_error, ◌▸◌}
use ocp_efa_operator.Plugins.Server.{
  Kind, Plugin, new_plugin, Run, system_call, delete_socket, start_server, register_request, serve,
  stop_at, stop,
}
use ocp_efa_operator.Plugins.Loop.{
  Moment, Reaction, stay, restart, quit, reaction, LoopEnd, start_plugin, restart_plugin,
  after_serve, react, dp_rounds, if_watching, dp_loop, Rounds,
}

-- each call that the loop makes keeps `P`, with its own socket
pub record IsKept (sys : System) (own_socket : Bytes) (P : sys.World → Type 0) : Type 0 where
  pub new_server : (w : sys.World) → P w → P (sys.new_server w).1
  pub serve : (h : ℕ) (socket : Bytes) (w : sys.World) → P w → P (sys.serve h socket w)
  pub stop_server : (h : ℕ) (w : sys.World) → P w → P (sys.stop_server h w)
  pub remove : (w : sys.World) → P w → P (sys.remove own_socket w).1
  pub listen : (w : sys.World) → P w → P (sys.listen own_socket w).1
  pub dial : (target : Bytes) (w : sys.World) → P w → P (sys.dial target w).1
  pub register :
      (sock : Bytes) (req : RegisterRequest) (w : sys.World) → P w → P (sys.register sock req w).1
  pub new_watcher : (w : sys.World) → P w → P (sys.new_watcher w).1
  pub watch : (name : Bytes) (w : sys.World) → P w → P (sys.watch name w).1

module _ (sys : System) (own_socket : Bytes) (P : sys.World → Type 0)
    (kept : IsKept sys own_socket P) where
  -- the plugin has the socket, and `P` holds
  abbrev Good : Plugin × sys.World → Type 0
  Good st = (st.0.socket ≡ own_socket) × P st.1

  record Keeps (m : Run sys (Option Errno)) : Type 0 where
    at : (st : Plugin × sys.World) → Good st → Good (m st).1

  Keeps-▸ : (m n : Run sys (Option Errno)) → Keeps m → Keeps n → Keeps (m ▸ n)
  Keeps-▸ m n first second = record { at = λ st p. after (m st).0 (m st).1 (first.at st p) }
    where
      after : (e : Option Errno) (st : Plugin × sys.World) → Good st → Good (after_error e n st).1
      after none st q = second.at st q
      after (some e) st q = q

  delete_socket-Keeps : Keeps (delete_socket sys)
  unfolding delete_socket
  delete_socket-Keeps = record { at = λ st p. (p.0, rw p.0 (kept.remove st.1 p.1)) }

  serve-Keeps : (kubelet_sock : Bytes) → Keeps (serve sys kubelet_sock)
  unfolding serve
  serve-Keeps kubelet_sock = Keeps-▸ _ _ delete_socket-Keeps (
      Keeps-▸ _ _ listening (
        Keeps-▸ _ _ starting (
          Keeps-▸ _ _ (dialling (λ dp. codes "unix://" ++ dp.socket))
            (Keeps-▸ _ _ (dialling (λ dp. codes "unix://" ++ kubelet_sock)) registering))))
    where
      listening : Keeps (system_call sys (λ dp. sys.listen dp.socket))
      listening = record { at = λ st p. (p.0, rw p.0 (kept.listen st.1 p.1)) }

      starting : Keeps (start_server sys)
      starting = record {
        at = λ st p.
            (p.0, kept.serve (sys.new_server st.1).0 st.0.socket _ (kept.new_server st.1 p.1));
      }

      dialling : (target : Plugin → Bytes) → Keeps (system_call sys (λ dp. sys.dial (target dp)))
      dialling target = record { at = λ st p. (p.0, kept.dial (target st.0) st.1 p.1) }

      registering :
          Keeps (system_call sys (λ dp. sys.register kubelet_sock (register_request sys dp)))
      registering = record {
        at = λ st p. (p.0, kept.register kubelet_sock (register_request sys st.0) st.1 p.1);
      }

  stop-Keeps : Keeps (stop sys)
  unfolding stop
  stop-Keeps = record { at = λ st p. stopped st.0.server st p }
    where
      stopped :
          (server : Option ℕ) (st : Plugin × sys.World) → Good st → Good (stop_at sys server st).1
      stopped none st p = p
      stopped (some h) st p =
          delete_socket-Keeps.at
            (record st.0 { server = none; stopped = true }, sys.stop_server h st.1)
            (p.0, kept.stop_server h st.1 p.1)

module _ (sys : System) (kind : Kind) (plugin_dir kubelet_sock device_path : Bytes)
    (P : sys.World → Type 0) (kept : IsKept sys (join plugin_dir kind.socket_name) P) where
  abbrev Good' : Plugin × sys.World → Type 0
  Good' = Good sys (join plugin_dir kind.socket_name) P kept

  start_plugin-Good :
      (w : sys.World) → P w → Good' (start_plugin sys kind plugin_dir kubelet_sock device_path w).1
  unfolding start_plugin new_plugin
  start_plugin-Good w p =
      (serve-Keeps sys (join plugin_dir kind.socket_name) P kept kubelet_sock).at
        (new_plugin sys kind plugin_dir device_path w, w) (refl, p)

  stop-Good : (st : Plugin × sys.World) → Good' st → Good' (stop sys st).1
  stop-Good = (stop-Keeps sys (join plugin_dir kind.socket_name) P kept).at

  Keeping : Rounds sys kind plugin_dir kubelet_sock device_path → Type 0
  Keeping next = (dp : Plugin) (w : sys.World) → Good' (dp, w) → P (next dp w).1

  after_serve_kept :
      (next : Rounds sys kind plugin_dir kubelet_sock device_path)
      → Keeping next
      → (end : Option Errno × (Plugin × sys.World)) → Good' end.1
      → P (after_serve sys kind plugin_dir kubelet_sock device_path next end).1
  unfolding Keeping
  after_serve_kept next keep (none, (dp, w)) p = keep dp w p
  after_serve_kept next keep (some e, (dp, w)) p = p.1

  react_kept :
      (r : Reaction) (next : Rounds sys kind plugin_dir kubelet_sock device_path)
      → Keeping next
      → Keeping (react sys kind plugin_dir kubelet_sock device_path r next)
  unfolding Keeping restart_plugin
  react_kept stay next keep dp w p = keep dp w p
  react_kept restart next keep dp w p =
      after_serve_kept next keep
        (start_plugin sys kind plugin_dir kubelet_sock device_path (stop sys (dp, w)).1.1)
        (start_plugin-Good (stop sys (dp, w)).1.1 (stop-Good (dp, w) p).1)
  react_kept quit next keep dp w p = (stop-Good (dp, w) p).1

  -- what happens before the event keeps `P`
  abbrev pub KeptBefore : Moment sys → Type 0
  KeptBefore (env, wake) = (w : sys.World) → P w → P (env w)

  dp_rounds_kept :
      (moments : List (Moment sys))
      → All KeptBefore moments
      → Keeping (dp_rounds sys kind plugin_dir kubelet_sock device_path moments)
  unfolding Keeping dp_rounds
  dp_rounds_kept [] all dp w p = p.1
  dp_rounds_kept ((env, wake) ∷ moments) (keep, all) dp w p =
      react_kept (reaction kubelet_sock wake)
        (dp_rounds sys kind plugin_dir kubelet_sock device_path moments)
        (dp_rounds_kept moments all) dp (env w) (p.0, keep w p.1)

  if_watching_kept :
      (end : Option Errno × sys.World) (next : sys.World → LoopEnd × sys.World)
      → P end.1
      → ((w : sys.World) → P w → P (next w).1)
      → P (if_watching sys kind plugin_dir kubelet_sock device_path end next).1
  if_watching_kept (none, w) next p keep = keep w p
  if_watching_kept (some e, w) next p keep = p

  pub dp_loop_kept :
      (moments : List (Moment sys)) (w : sys.World)
      → All KeptBefore moments
      → P w
      → P (dp_loop sys kind plugin_dir kubelet_sock device_path moments w).1
  unfolding dp_loop
  dp_loop_kept moments w all p =
      if_watching_kept (sys.new_watcher w) _ (kept.new_watcher w p) λ w1 p1.
        if_watching_kept (sys.watch plugin_dir w1) _ (kept.watch plugin_dir w1 p1) λ w2 p2.
          after_serve_kept (dp_rounds sys kind plugin_dir kubelet_sock device_path moments)
            (dp_rounds_kept moments all)
            (start_plugin sys kind plugin_dir kubelet_sock device_path w2) (start_plugin-Good w2 p2)
