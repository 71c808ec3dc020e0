-- ===== src/Controllers/Reconcile/Converges.antt =====
-- One run of `Reconcile` for the active resource, where the server answers.
use ocp_efa_operator.Prelude.{
  ◌+◌, ◌%◌, ◌^◌, lookup, insert, erase, String, Bool, true, false, Option, none, some, List, ◌≡◌,
  refl, sym, ap, subst, ◌∙◌, str_eq, ℕ,
}
use ocp_efa_operator.Api.Driver.{Driver}
use ocp_efa_operator.Api.Objects.{Kind, ObjectKey, Object, Node}
use ocp_efa_operator.Api.Client.{ApiError}
use ocp_efa_operator.Api.Laws.{View, IsLawful}
use ocp_efa_operator.Api.Responsive.{IsResponsive}
use ocp_efa_operator.Controllers.Action.{Action, Outcome}
use ocp_efa_operator.Controllers.Exec.{State, call}
use ocp_efa_operator.Controllers.Exec.Reaches.{
  Reaches, Ends, Reaches-return, Reaches-if, Reaches-bind, Ends-weaken, Reaches-weaken,
}
use ocp_efa_operator.Controllers.Owned.{Reconciler, Request}
use ocp_efa_operator.Controllers.Owned.Provides.{first_at, or_else, Filled}
use ocp_efa_operator.Controllers.Status.{
  ignored, find_driver, Progress, ReconcileResult, no_requeue, seconds_or_zero, second,
}
use ocp_efa_operator.Controllers.Reconcile.{
  get_requeue_after, clear_back_off, write_status, finish, reconcile_active, reconcile,
}
use ocp_efa_operator.Controllers.Reconcile.Steps.{Objects, Claimed, claim-Claimed, reconcile-first}
use ocp_efa_operator.Controllers.Reconcile.Now.{Now, update_status-Now}
use ocp_efa_operator.Controllers.Reconcile.Target.{settled_driver}
use ocp_efa_operator.Controllers.Reconcile.Reported.{with_needed, Reported, branch-Reported}

-- its result
abbrev pub result_for : Bool → ℕ → ReconcileResult
result_for true after = record { requeue = true; requeue_after = after }
result_for false after = no_requeue

-- the delay behind one of the request
abbrev pub next_delay : String → List (String × ℕ) → ℕ
next_delay key delays = (seconds_or_zero (lookup key delays) + second) % 2 ^ 64

-- the delays behind the run
abbrev pub delays_after : Bool → String → List (String × ℕ) → List (String × ℕ)
delays_after true key delays = insert key (next_delay key delays) delays
delays_after false key delays = erase key delays

-- What a run of `Reconcile` for `start` leaves, from the state `s` on, where `key` is the text of the
-- request: the result, the delays, the driver in the list, the nodes and the objects.
abbrev pub Settled :
    {Spec : Type 0} (r : Reconciler Spec)
    → View r.client
    → String
    → State r.client.World
    → Driver Spec
    → Bool
    → List Object
    → ReconcileResult
    → State r.client.World
    → Type 0
Settled r v key s start waits needed res s' =
    (res ≡ result_for waits (next_delay key s.back_off_duration))
    × (s'.back_off_duration ≡ delays_after waits key s.back_off_duration)
    × (find_driver start.name (v.drivers s'.world) "" ≡ (some (settled_driver r waits start), ""))
    × (v.nodes s'.world ≡ v.nodes s.world)
    × ((k : Kind) (at : ObjectKey)
        → v.stored s'.world k at ≡ or_else (v.stored s.world k at) (first_at needed k at))

module _ {Spec : Type 0} (r : Reconciler Spec) (v : View r.client) (laws : IsLawful r.client v)
    (up : IsResponsive r.client v) (create_cluster : Driver Spec → Action r.client.World Outcome)
    (delete_cluster : Driver Spec → Action r.client.World (Option ApiError)) (start : Driver Spec)
    (ns : List Node) (delays : List (String × ℕ)) (waits : Bool) (needed : List Object)
    (provides : (d : Driver Spec)
      → d ≡ record start { finalizers = d.finalizers; status = d.status }
      → (w : r.client.World) → v.nodes w ≡ ns
      → ((create_cluster d w).0 ≡ (waits, none)) × Filled r v needed w (create_cluster d w).1)
    (alive : start.deletion_timestamp ≡ none) where
  abbrev At : Objects → Driver Spec → State r.client.World → Type 0
  At = Now r v laws up start ns delays

  -- behind the update of the status
  pub record Written (objects : Objects) (p : Progress Spec) (s : State r.client.World)
      : Type 0 where
    pub now : At objects p.efa s
    pub final : p.efa ≡ settled_driver r waits start
    pub requeue : p.requeue ≡ waits
    pub no_error : p.error ≡ none

  -- behind the call itself
  abbrev Put : Objects → Progress Spec → Driver Spec → State r.client.World → Type 0
  Put objects p x s =
      (x ≡ p.efa)
      × At objects p.efa s
      × (p.efa ≡ settled_driver r waits start)
      × (p.requeue ≡ waits)

  update_status-Put :
      (objects : Objects) (p : Progress Spec)
      → Reaches
          (Reported r v laws up create_cluster delete_cluster start ns delays waits needed provides
            alive objects p)
          (Put objects p)
          (call (r.client.update_status p.efa))
  update_status-Put objects p = record {
    at = λ s h.
        Ends-weaken (At objects h.current) (λ x t. (x ≡ p.efa) × At objects p.efa t) (Put objects p)
          _ (λ x t q. (q.0, q.1, h.final, h.requeue))
          ((update_status-Now r v laws up start ns delays objects h.current p.efa h.like
              h.only_status).at
            s h.now);
  }

  write_status-Written :
      (objects : Objects) (p : Progress Spec)
      → Reaches
          (Reported r v laws up create_cluster delete_cluster start ns delays waits needed provides
            alive objects p)
          (Written objects)
          (write_status r create_cluster delete_cluster p)
  unfolding write_status
  write_status-Written objects p =
      Reaches-if _ _ p.update_status _ _
        (λ differs. Reaches-bind _ (Put objects p) _ _ _ (update_status-Put objects p) λ x.
          Reaches-return _ _ _ λ s h. record {
            now = subst (λ d. At objects d s) (sym h.0) h.1;
            final = h.0 ∙ h.2;
            requeue = h.3;
            no_error = refl;
          })
        (λ same. Reaches-return _ _ p (λ s h. record {
          now = subst (λ d. At objects d s) (h.kept same) h.now;
          final = h.final;
          requeue = h.requeue;
          no_error = h.no_error;
        }))

  -- what holds at the end
  pub record Finished (objects : Objects) (req : Request) (res : ReconcileResult)
      (s : State r.client.World) : Type 0 where
    pub result : res ≡ result_for waits (next_delay (r.request_string req) delays)
    pub back_off : s.back_off_duration ≡ delays_after waits (r.request_string req) delays
    pub listed :
        find_driver start.name (v.drivers s.world) "" ≡ (some (settled_driver r waits start), "")
    pub nodes : v.nodes s.world ≡ ns
    pub stored : (k : Kind) (at : ObjectKey) → v.stored s.world k at ≡ objects k at

  finish-Finished :
      (objects : Objects) (req : Request) (p : Progress Spec)
      → Reaches
          (Written objects p)
          (Finished objects req)
          (finish r create_cluster delete_cluster req p)
  unfolding finish get_requeue_after clear_back_off
  finish-Finished objects req p =
      Reaches-if _ _ p.requeue _ _
        (λ again. record {
          at = λ s h.
              let e = sym again ∙ h.requeue in
              finished s _ _ h
                (ap (λ m. record { requeue = true; requeue_after = next_delay key m })
                    h.now.back_off
                  ∙ ap (λ b. result_for b (next_delay key delays)) e)
                (ap (λ m. insert key (next_delay key m) m) h.now.back_off
                  ∙ ap (λ b. delays_after b key delays) e);
        })
        (λ done. record {
          at = λ s h.
              let e = sym done ∙ h.requeue in
              rw h.no_error (
                finished s _ _ h (ap (λ b. result_for b (next_delay key delays)) e)
                  (ap (erase key) h.now.back_off ∙ ap (λ b. delays_after b key delays) e));
        })
    where
      key : String
      key = r.request_string req

      finished :
          (s : State r.client.World) (res : ReconcileResult) (map : List (String × ℕ))
          → Written objects p s
          → res ≡ result_for waits (next_delay (r.request_string req) delays)
          → map ≡ delays_after waits (r.request_string req) delays
          → Finished objects req res (record s { back_off_duration = map })
      finished s res map h result back_off = record {
        result = result;
        back_off = back_off;
        listed = h.now.listed ∙ ap (λ d. (some d, "")) h.final;
        nodes = h.now.nodes;
        stored = h.now.stored;
      }

  abbrev filled : Objects → Objects
  filled =
      with_needed r v laws up create_cluster delete_cluster start ns delays waits needed provides
        alive

  reconcile_active-Finished :
      (objects : Objects) (req : Request)
      → Reaches
          (At objects start)
          (Finished (filled objects) req)
          (reconcile_active r create_cluster delete_cluster req start)
  unfolding reconcile_active
  reconcile_active-Finished objects req =
      Reaches-bind _
        (Claimed r v laws up create_cluster delete_cluster start ns delays alive objects) _ _ _
        (claim-Claimed r v laws up create_cluster delete_cluster start ns delays alive objects)
        λ d.
          Reaches-bind _
            (Reported r v laws up create_cluster delete_cluster start ns delays waits needed
              provides alive (filled objects))
            _ _ _
            (branch-Reported r v laws up create_cluster delete_cluster start ns delays waits needed
              provides alive objects d)
            λ p.
              Reaches-bind _ (Written (filled objects)) _ _ _
                (write_status-Written (filled objects) p)
                λ p'. finish-Finished (filled objects) req p'

  -- the whole of `Reconcile`, where the list has the resource and none before it that is deployed
  pub reconcile-Settled :
      (req : Request) (s : State r.client.World)
      → find_driver req.name (v.drivers s.world) "" ≡ (some start, "")
      → str_eq start.status.condition ignored ≡ false
      → (same : v.nodes s.world ≡ ns) → (back_off : s.back_off_duration ≡ delays)
      → Ends
          (Settled r v (r.request_string req) s start waits needed)
          (reconcile r create_cluster delete_cluster req s)
  reconcile-Settled req s found active same back_off =
      let key = r.request_string req in
      reconcile-first r v laws up create_cluster delete_cluster start ns delays req s
        (Settled r v key s start waits needed) found active same back_off
        (Reaches-weaken (At (v.stored s.world) start) (Finished (filled (v.stored s.world)) req) _ _
          (λ res t h. (
            h.result ∙ ap (λ m. result_for waits (next_delay key m)) (sym back_off),
            h.back_off ∙ ap (delays_after waits key) (sym back_off),
            h.listed,
            h.nodes ∙ sym same,
            h.stored,
          ))
          (reconcile_active-Finished (v.stored s.world) req))
