-- ===== src/Controllers/Owned/Sweeps.antt =====
-- Code that deletes objects: what holds of it on a lawful server, and that sequences keep it.
use ocp_efa_operator.Prelude.{
  Bool, true, false, ◌&&◌, ◌||◌, Option, none, some, ◌≡◌, ◌⊎◌, inl, inr, refl, sym, ◌∙◌, ap, arith,
  if◌then◌else◌, Bool-cases,
}
use ocp_efa_operator.Api.Objects.{Kind, ObjectKey, Object}
use ocp_efa_operator.Api.Client.{ApiError}
use ocp_efa_operator.Api.Laws.{drop, View}
use ocp_efa_operator.Controllers.Action.{Action, pure, continue_ok, ◌▸◌}
use ocp_efa_operator.Controllers.Owned.{Reconciler}
use ocp_efa_operator.Controllers.Owned.Ensure.{Frame}

abbrev pub either : (Object → Bool) → (Object → Bool) → Object → Bool
either s t o = s o || t o

pub drop-drop : (s t : Object → Bool) (o : Option Object) → drop t (drop s o) ≡ drop (either s t) o
drop-drop s t none = refl
drop-drop s t (some o) = ground arith

module _ {Spec : Type 0} (r : Reconciler Spec) (v : View r.client) where
  -- From `w` to `w'` nothing was added, and what `sweep` does not allow to be removed is there.
  pub record Shrinks (sweep : Object → Bool) (w w' : r.client.World) : Type 0 where
    pub frame : Frame r v w w'
    pub spares :
        (k : Kind) (key : ObjectKey) (x : Object)
        → v.stored w k key ≡ some x
        → sweep x ≡ false
        → v.stored w' k key ≡ some x
    pub origin :
        (k : Kind) (key : ObjectKey) (x : Object)
        → v.stored w' k key ≡ some x
        → v.stored w k key ≡ some x

  -- `m` removes only what `sweep` allows, and all of that if it returns no error.
  pub record Sweeps (sweep : Object → Bool) (m : Action r.client.World (Option ApiError))
      : Type 0 where
    pub shrinks : (w : r.client.World) → Shrinks sweep w (m w).1
    pub done :
        (w : r.client.World)
        → (m w).0 ≡ none
        → (k : Kind) (key : ObjectKey) → v.stored (m w).1 k key ≡ drop sweep (v.stored w k key)

module _ {Spec : Type 0} (r : Reconciler Spec) (v : View r.client) where
  pub Sweeps-pure : Sweeps r v (λ o. false) (pure none)
  Sweeps-pure = record {
    shrinks = λ w. record {
      frame = record { nodes = refl; drivers = refl };
      spares = λ k key x p q. p;
      origin = λ k key x p. p;
    };
    done = λ w e k key. kept (v.stored w k key);
  }
    where
      kept : (o : Option Object) → o ≡ drop (λ x. false) o
      kept none = refl
      kept (some o) = refl

  module _ (s t : Object → Bool) where
    Shrinks-left : {w w' : r.client.World} → Shrinks r v s w w' → Shrinks r v (either s t) w w'
    Shrinks-left h = record {
      frame = h.frame;
      spares = λ k key x p q. h.spares k key x p (ground (arith, q));
      origin = h.origin;
    }

    Shrinks-trans :
        {a b c : r.client.World}
        → Shrinks r v s a b
        → Shrinks r v t b c
        → Shrinks r v (either s t) a c
    Shrinks-trans g h = record {
      frame = record {
        nodes = h.frame.nodes ∙ g.frame.nodes;
        drivers = h.frame.drivers ∙ g.frame.drivers;
      };
      spares = λ k key x p q.
          h.spares k key x (g.spares k key x p (ground (arith, q))) (ground (arith, q));
      origin = λ k key x p. g.origin k key x (h.origin k key x p);
    }

    module _ (m n : Action r.client.World (Option ApiError)) where
      Shrinks-after :
          (e : Option ApiError) {w w' : r.client.World}
          → Shrinks r v s w w'
          → ((u : r.client.World) → Shrinks r v t u (n u).1)
          → Shrinks r v (either s t) w (continue_ok e n w').1
      Shrinks-after none {w' = w'} g h = Shrinks-trans g (h w')
      Shrinks-after (some e) g h = Shrinks-left g

      done_after :
          (e : Option ApiError) (w : r.client.World)
          → (continue_ok e n w).0 ≡ none
          → (e ≡ none) × ((n w).0 ≡ none) × ((continue_ok e n w).1 ≡ (n w).1)
      done_after none w h = (refl, h, refl)
      done_after (some e) w h = absurd (cc)

      -- A sequence sweeps what either part sweeps.
      pub Sweeps-▸ : Sweeps r v s m → Sweeps r v t n → Sweeps r v (either s t) (m ▸ n)
      Sweeps-▸ sm sn = record {
        shrinks = λ w. Shrinks-after (m w).0 (sm.shrinks w) sn.shrinks;
        done = λ w e k key.
            let (first, second, end) = done_after (m w).0 (m w).1 e in
            ap (λ u. v.stored u k key) end
            ∙ sn.done (m w).1 second k key
            ∙ ap (drop t) (sm.done w first k key)
            ∙ drop-drop s t (v.stored w k key);
      }

  pub Sweeps-if :
      (b : Bool) (sweep : Object → Bool) (m : Action r.client.World (Option ApiError))
      → Sweeps r v sweep m
      → Sweeps r v (λ o. b && sweep o) (if b then m else pure none)
  Sweeps-if true sweep m s = s
  Sweeps-if false sweep m s = Sweeps-pure

-- What it means for one place that objects were removed.
module _ {Spec : Type 0} (r : Reconciler Spec) (v : View r.client) (sweep : Object → Bool) where
  pub Shrinks-removes :
      {w w' : r.client.World}
      → Shrinks r v sweep w w'
      → (k : Kind) (key : ObjectKey)
      → (v.stored w' k key ≡ v.stored w k key)
        ⊎ ((v.stored w' k key ≡ none)
            × (x : Object) × (v.stored w k key ≡ some x)
            × (sweep x ≡ true))
  Shrinks-removes {w} {w'} g k key =
      at_place (v.stored w k key) (v.stored w' k key) (g.spares k key) (g.origin k key)
    where
      at_place :
          (a b : Option Object)
          → ((x : Object) → a ≡ some x → sweep x ≡ false → b ≡ some x)
          → ((x : Object) → b ≡ some x → a ≡ some x)
          → (b ≡ a) ⊎ ((b ≡ none) × (x : Object) × (a ≡ some x) × (sweep x ≡ true))
      at_place a (some x) spares origin = inl (sym (origin x refl))
      at_place none none spares origin = inl refl
      at_place (some x) none spares origin = elim (Bool-cases (sweep x)) [
        | inl own ↦ inr (refl, x, refl, own)
        | inr other ↦ inl (spares x refl other)
      ]
