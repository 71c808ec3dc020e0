-- ===== src/Plugins/Loop/Serving.antt =====
-- `Serve` and `Stop` start and stop one server.
use ocp_efa_operator.Prelude.{
  ℕ, Option, none, some, List, [], ◌∷◌, ◌++◌, ◌≡◌, ◌⊎◌, inl, inr, refl, ap, ◌∙◌, arith,
}
use ocp_efa_operator.Plugins.Text.{Bytes, codes}
use ocp_efa_operator.Plugins.System.{Errno, RegisterRequest, System, after_error, ◌▸◌}
use ocp_efa_operator.Plugins.Server.{
  Plugin, ignore_enoent, Run, system_call, start_server, delete_socket, register_request, serve,
  stop,
}
use ocp_efa_operator.Plugins.Loop.Laws.{Servers, Leaves, IsServing, log_if_none}

module _ (sys : System) (s : Servers sys) (laws : IsServing sys s) (req : RegisterRequest) where
  -- no server runs, and the kubelet has these registrations
  pub record Idle (log : List RegisterRequest) (st : Plugin × sys.World) : Type 0 where
    pub server : st.0.server ≡ none
    pub live : s.live st.1 ≡ []
    pub registered : s.registered st.1 ≡ log
    pub request : register_request sys st.0 ≡ req

  -- the plugin's server runs, and no other
  pub record Busy (log : List RegisterRequest) (st : Plugin × sys.World) : Type 0 where
    pub handle : ℕ
    pub server : st.0.server ≡ some handle
    pub live : s.live st.1 ≡ handle ∷ []
    pub registered : s.registered st.1 ≡ log
    pub request : register_request sys st.0 ≡ req

  -- one server runs at most
  abbrev pub AtMostOne : sys.World → Type 0
  AtMostOne w = (s.live w ≡ []) ⊎ ((h : ℕ) × (s.live w ≡ h ∷ []))

  abbrev pub Ended : (Plugin × sys.World → Type 0) → Option Errno × (Plugin × sys.World) → Type 0
  Ended Q (none, st) = Q st
  Ended Q (some e, st) = AtMostOne st.1

  -- from `P` the code ends in `Q`, or returns an error and leaves one server at most
  pub record Ensures (P Q : Plugin × sys.World → Type 0) (m : Run sys (Option Errno)) : Type 0 where
    pub at : (st : Plugin × sys.World) → P st → Ended Q (m st)

  Ensures-▸ :
      (P Q R : Plugin × sys.World → Type 0) (m n : Run sys (Option Errno))
      → Ensures P Q m
      → Ensures Q R n
      → Ensures P R (m ▸ n)
  Ensures-▸ P Q R m n first second = record { at = λ st p. after (m st).0 (m st).1 (first.at st p) }
    where
      after :
          (e : Option Errno) (st : Plugin × sys.World)
          → Ended Q (e, st)
          → Ended R (after_error e n st)
      after none st q = second.at st q
      after (some e) st one = one

  Idle-Leaves :
      (log : List RegisterRequest) (dp : Plugin) (w w' : sys.World)
      → Leaves sys s w w'
      → Idle log (dp, w)
      → Idle log (dp, w')
  Idle-Leaves log dp w w' same p = record {
    server = p.server;
    live = same.live ∙ p.live;
    registered = same.registered ∙ p.registered;
    request = p.request;
  }

  pub Busy-Leaves :
      (log : List RegisterRequest) (dp : Plugin) (w w' : sys.World)
      → Leaves sys s w w'
      → Busy log (dp, w)
      → Busy log (dp, w')
  Busy-Leaves log dp w w' same p = record {
    handle = p.handle;
    server = p.server;
    live = same.live ∙ p.live;
    registered = same.registered ∙ p.registered;
    request = p.request;
  }

  Idle-Ended :
      (log : List RegisterRequest) (e : Option Errno) (st : Plugin × sys.World)
      → Idle log st
      → Ended (Idle log) (e, st)
  Idle-Ended log none st p = p
  Idle-Ended log (some e) st p = inl p.live

  Busy-Ended :
      (log : List RegisterRequest) (e : Option Errno) (st : Plugin × sys.World)
      → Busy log st
      → Ended (Busy log) (e, st)
  Busy-Ended log none st p = p
  Busy-Ended log (some e) st p = inr (p.handle, p.live)

  module _ (log : List RegisterRequest) where
    delete_socket-Ensures : Ensures (Idle log) (Idle log) (delete_socket sys)
    unfolding delete_socket
    delete_socket-Ensures = record {
      at = λ st p.
          let removed = sys.remove st.0.socket st.1 in
          Idle-Ended log (ignore_enoent removed.0) (st.0, removed.1)
            (Idle-Leaves log st.0 st.1 removed.1 (laws.remove st.0.socket st.1) p);
    }

    listen-Ensures : Ensures (Idle log) (Idle log) (system_call sys (λ dp. sys.listen dp.socket))
    listen-Ensures = record {
      at = λ st p.
          let listening = sys.listen st.0.socket st.1 in
          Idle-Ended log listening.0 (st.0, listening.1)
            (Idle-Leaves log st.0 st.1 listening.1 (laws.listen st.0.socket st.1) p);
    }

    start_server-Ensures : Ensures (Idle log) (Busy log) (start_server sys)
    start_server-Ensures = record {
      at = λ st p.
          let new = sys.new_server st.1 in
          record {
            handle = new.0;
            server = refl;
            live =
                laws.serve_live new.0 st.0.socket new.1
                ∙ ap (λ l. new.0 ∷ l) ((laws.new_server st.1).live ∙ p.live);
            registered =
                laws.serve_registered new.0 st.0.socket new.1
                ∙ (laws.new_server st.1).registered
                ∙ p.registered;
            request = p.request;
          };
    }

    dial-Ensures :
        (target : Plugin → Bytes)
        → Ensures (Busy log) (Busy log) (system_call sys (λ dp. sys.dial (target dp)))
    dial-Ensures target = record {
      at = λ st p.
          let dialled = sys.dial (target st.0) st.1 in
          Busy-Ended log dialled.0 (st.0, dialled.1)
            (Busy-Leaves log st.0 st.1 dialled.1 (laws.dial (target st.0) st.1) p);
    }

    register-Ensures :
        (sock : Bytes)
        → Ensures
            (Busy log)
            (Busy (req ∷ log))
            (system_call sys (λ dp. sys.register sock (register_request sys dp)))
    register-Ensures sock = record {
      at = λ st p.
          let request = register_request sys st.0 in
          let answer = sys.register sock request st.1 in
          registered_by p answer.0 answer.1 (laws.register_live sock request st.1 ∙ p.live)
            (laws.register_registered sock request st.1);
    }
      where
        registered_by :
            {st : Plugin × sys.World}
            → (p : Busy log st) (e : Option Errno) (w' : sys.World) → s.live w' ≡ p.handle ∷ []
            → s.registered w' ≡ log_if_none e (register_request sys st.0) (s.registered st.1)
            → Ended (Busy (req ∷ log)) (e, (st.0, w'))
        registered_by p none w' live logged = record {
          handle = p.handle;
          server = p.server;
          live = live;
          registered = cc (p.registered, p.request);
          request = p.request;
        }
        registered_by p (some e) w' live logged = inr (p.handle, live)

    pub serve-Ensures :
        (kubelet_sock : Bytes) → Ensures (Idle log) (Busy (req ∷ log)) (serve sys kubelet_sock)
    unfolding serve
    serve-Ensures kubelet_sock = Ensures-▸ _ _ _ _ _ delete_socket-Ensures (
        Ensures-▸ _ _ _ _ _ listen-Ensures (
          Ensures-▸ _ _ _ _ _ start_server-Ensures (
            Ensures-▸ _ _ _ _ _ (dial-Ensures (λ dp. codes "unix://" ++ dp.socket)) (
              Ensures-▸ _ _ _ _ _ (dial-Ensures (λ dp. codes "unix://" ++ kubelet_sock))
                (register-Ensures kubelet_sock)))))

    -- `Stop` stops the server; its error is not looked at
    pub stop-Idle : (st : Plugin × sys.World) → Busy log st → Idle log (stop sys st).1
    unfolding stop delete_socket
    stop-Idle st p = rw p.server (
        let w = sys.stop_server p.handle st.1 in
        let removed = laws.remove st.0.socket w in
        record {
          server = refl;
          live = removed.live ∙ laws.stop_live p.handle st.1 ∙ rw p.live (ground arith);
          registered = removed.registered ∙ laws.stop_registered p.handle st.1 ∙ p.registered;
          request = p.request;
        })
