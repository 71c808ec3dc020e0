-- ===== src/Controllers/Owned/Provides.antt =====
-- Code that makes sure of objects, against its abstract meaning: where nothing fails, each place that
-- is empty gets the first object of a list that belongs there, and all others stay as they are.
use ocp_efa_operator.Prelude.{
  Bool, false, Option, none, some, List, [], ◌∷◌, ◌++◌, ◌≡◌, refl, sym, ◌∙◌, ap, ap₂, subst,
  if◌then◌else◌, Bool-cases, Option-cases, inl, inr,
}
use ocp_efa_operator.Api.Objects.{Kind, ObjectKey, Object, Node, kind_of, key_of}
use ocp_efa_operator.Api.Client.{ApiError, Result, ok}
use ocp_efa_operator.Api.Laws.{is_at, View, IsLawful, is_at_unique, is_at_self}
use ocp_efa_operator.Api.Responsive.{IsResponsive}
use ocp_efa_operator.Controllers.Action.{Action, Outcome, pure, ◌▹◌}
use ocp_efa_operator.Controllers.Owned.{Reconciler, report, ensure, create_unless_found}
use ocp_efa_operator.Controllers.Owned.Ensure.{Frame}

-- the first object of the list that belongs at the place
abbrev pub first_at : List Object → Kind → ObjectKey → Option Object
first_at [] k key = none
first_at (o ∷ os) k key = if is_at o k key then some o else first_at os k key

abbrev pub or_else : Option Object → Option Object → Option Object
or_else none b = b
or_else (some x) b = some x

pub or_else_assoc : (a b c : Option Object) → or_else (or_else a b) c ≡ or_else a (or_else b c)
or_else_assoc none b c = refl
or_else_assoc (some x) b c = refl

pub or_else-none : (a : Option Object) → or_else a none ≡ a
or_else-none none = refl
or_else-none (some x) = refl

pub or_else_twice : (a b : Option Object) → or_else (or_else a b) b ≡ or_else a b
or_else_twice none none = refl
or_else_twice none (some x) = refl
or_else_twice (some x) b = refl

first_at-append :
    (os ps : List Object) (k : Kind) (key : ObjectKey)
    → first_at (os ++ ps) k key ≡ or_else (first_at os k key) (first_at ps k key)
first_at-append [] ps k key = refl
first_at-append (o ∷ os) ps k key = elim (Bool-cases (is_at o k key)) [
  | inl here ↦ rw here refl
  | inr there ↦ rw there (first_at-append os ps k key)
]

module _ {Spec : Type 0} (r : Reconciler Spec) (v : View r.client) where
  -- from `w` to `w'` these objects were put where there was none
  pub record Filled (needed : List Object) (w w' : r.client.World) : Type 0 where
    pub frame : Frame r v w w'
    pub at :
        (k : Kind) (key : ObjectKey)
        → v.stored w' k key ≡ or_else (v.stored w k key) (first_at needed k key)

  -- with these nodes `m` ends like this, whatever else the server holds
  pub record Provides (ns : List Node) (needed : List Object) (out : Outcome)
      (m : Action r.client.World Outcome) : Type 0 where
    pub outcome : (w : r.client.World) → v.nodes w ≡ ns → (m w).0 ≡ out
    pub filled : (w : r.client.World) → v.nodes w ≡ ns → Filled needed w (m w).1

module _ {Spec : Type 0} (r : Reconciler Spec) (v : View r.client) where
  pub Filled-nothing : (w : r.client.World) → Filled r v [] w w
  Filled-nothing w = record {
    frame = record { nodes = refl; drivers = refl };
    at = λ k key. sym (or_else-none (v.stored w k key));
  }

  pub Filled-append :
      (os ps : List Object) (a b c : r.client.World)
      → Filled r v os a b
      → Filled r v ps b c
      → Filled r v (os ++ ps) a c
  Filled-append os ps a b c f g = record {
    frame = record {
      nodes = g.frame.nodes ∙ f.frame.nodes;
      drivers = g.frame.drivers ∙ f.frame.drivers;
    };
    at = λ k key.
        g.at k key
        ∙ ap (λ x. or_else x (first_at ps k key)) (f.at k key)
        ∙ or_else_assoc (v.stored a k key) (first_at os k key) (first_at ps k key)
        ∙ ap (or_else (v.stored a k key)) (sym (first_at-append os ps k key));
  }

  pub Provides-pure : (ns : List Node) (out : Outcome) → Provides r v ns [] out (pure out)
  Provides-pure ns out = record { outcome = λ w h. refl; filled = λ w h. Filled-nothing w }

  pub Provides-▹ :
      (ns : List Node) (os ps : List Object) (out : Outcome) (m n : Action r.client.World Outcome)
      → Provides r v ns os (false, none) m
      → Provides r v ns ps out n
      → Provides r v ns (os ++ ps) out (m ▹ n)
  Provides-▹ ns os ps out m n f g = record {
    outcome = λ w h.
        let inner = (f.filled w h).frame.nodes ∙ h in rw (f.outcome w h) (g.outcome (m w).1 inner);
    filled = λ w h.
        let inner = (f.filled w h).frame.nodes ∙ h in
        rw (f.outcome w h) (Filled-append os ps _ _ _ (f.filled w h) (g.filled (m w).1 inner));
  }

  module _ (laws : IsLawful r.client v) (up : IsResponsive r.client v) where
    pub Provides-list_nodes :
        (ns : List Node) (os : List Object) (out : Outcome)
        (f : Result (List Node) → Action r.client.World Outcome)
        → Provides r v ns os out (f (ok ns))
        → Provides r v ns os out (λ w. f (r.client.list_nodes w).0 (r.client.list_nodes w).1)
    Provides-list_nodes ns os out f p = record {
      outcome = λ w h. rw (up.list_nodes w, laws.list_nodes_world w) (rw h (p.outcome w h));
      filled = λ w h. rw (up.list_nodes w, laws.list_nodes_world w) (rw h (p.filled w h));
    }

    module _ (reported : ApiError → Bool) (o : Object) where
      -- an object that is there stays
      found_already :
          (w : r.client.World) (x : Object)
          → v.stored w (kind_of o) (key_of o) ≡ some x
          → (k : Kind) (key : ObjectKey)
          → v.stored w k key ≡ or_else (v.stored w k key) (first_at (o ∷ []) k key)
      found_already w x h k key = elim (Bool-cases (is_at o k key)) [
        | inl here ↦
            let (same_kind, same_key) =
              is_at_unique o (kind_of o) k (key_of o) key (is_at_self o) here in
            let held = sym (ap₂ (v.stored w) same_kind same_key) ∙ h in rw held refl
        | inr there ↦ rw there (sym (or_else-none (v.stored w k key)))
      ]

      -- how the result and the state are related
      abbrev Ends : r.client.World → Outcome × r.client.World → Type 0
      Ends w end = (end.0 ≡ (false, none)) × Filled r v (o ∷ []) w end.1

      created :
          (w : r.client.World)
          → v.stored w (kind_of o) (key_of o) ≡ none
          → Ends w (report reported (r.client.create o w).0, (r.client.create o w).1)
      created w gone =
          let made = up.create_missing w o gone in
          (
            rw made refl,
            record {
              frame = record {
                nodes = (laws.create_frame w o).0;
                drivers = (laws.create_frame w o).1;
              };
              at = λ k key. laws.create_ok w o k key made ∙ put_at k key;
            },
          )
        where
          put_at :
              (k : Kind) (key : ObjectKey)
              → (if is_at o k key then some o else v.stored w k key)
                ≡ or_else (v.stored w k key) (first_at (o ∷ []) k key)
          put_at k key = elim (Bool-cases (is_at o k key)) [
            | inl here ↦
                let (same_kind, same_key) =
                  is_at_unique o (kind_of o) k (key_of o) key (is_at_self o) here in
                let empty = sym (ap₂ (v.stored w) same_kind same_key) ∙ gone in
                rw here (rw empty refl)
            | inr there ↦ rw there (sym (or_else-none (v.stored w k key)))
          ]

      ensure-Ends : (w : r.client.World) → Ends w (ensure r reported (kind_of o) (key_of o) o w)
      unfolding ensure
      ensure-Ends w =
          subst
            (λ u.
              Ends w (create_unless_found r reported o (r.client.get (kind_of o) (key_of o) w).0 u))
            (sym (laws.get_world w (kind_of o) (key_of o)))
            (elim (Option-cases (v.stored w (kind_of o) (key_of o))) [
              | inl gone ↦
                  let (e, failed, missing) = up.get_missing w (kind_of o) (key_of o) gone in
                  rw failed (rw missing (created w gone))
              | inr (x, there) ↦ rw (up.get_found w (kind_of o) (key_of o) x there) (
                refl,
                record {
                  frame = record { nodes = refl; drivers = refl };
                  at = found_already w x there;
                },
              )
            ])

      pub Provides-ensure :
          (ns : List Node)
          → Provides r v ns (o ∷ []) (false, none) (ensure r reported (kind_of o) (key_of o) o)
      Provides-ensure ns = record {
        outcome = λ w h. (ensure-Ends w).0;
        filled = λ w h. (ensure-Ends w).1;
      }
