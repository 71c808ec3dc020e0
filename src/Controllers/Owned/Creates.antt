-- ===== src/Controllers/Owned/Creates.antt =====
-- Code that creates objects: what holds of it on a lawful server, and that sequences keep it.
use ocp_efa_operator.Prelude.{
  Bool, true, false, Option, none, some, ◌≡◌, ◌≢◌, ◌⊎◌, inl, inr, refl, sym, ◌∙◌, subst,
  if◌then◌else◌, Bool-cases, some-injective, none-ne-some, ap₂,
}
use ocp_efa_operator.Api.Objects.{Kind, ObjectKey, Object, kind_of, key_of}
use ocp_efa_operator.Api.Client.{ApiError, is_already_exists}
use ocp_efa_operator.Api.Laws.{is_at, View, IsLawful, is_at_unique, is_at_self}
use ocp_efa_operator.Controllers.Action.{Action, Outcome, pure, continue, ◌▹◌}
use ocp_efa_operator.Controllers.Owned.{Reconciler, unless_exists, ensure}
use ocp_efa_operator.Controllers.Owned.Ensure.{
  Frame, Same, Ensured, found, unreadable, created, refused, ensure-Ensured,
}

module _ {Spec : Type 0} (r : Reconciler Spec) (v : View r.client) where
  -- The place holds an object.
  abbrev pub Holds : Kind → ObjectKey → r.client.World → Type 0
  Holds k key w = (x : Object) × (v.stored w k key ≡ some x)

  -- From `w` to `w'` objects were added, all of them such as `Own` allows, and none was changed.
  pub record Grows (Own : Object → Type 0) (w w' : r.client.World) : Type 0 where
    pub frame : Frame r v w w'
    pub keeps :
        (k : Kind) (key : ObjectKey) (x : Object)
        → v.stored w k key ≡ some x
        → v.stored w' k key ≡ some x
    pub fresh :
        (k : Kind) (key : ObjectKey) (x : Object)
        → v.stored w' k key ≡ some x
        → (v.stored w k key ≡ some x) ⊎ Own x

  -- `m` only adds objects that `Own` allows, and leaves `P` if it returns `(false, nil)`.
  pub record Creates (Own : Object → Type 0) (P : r.client.World → Type 0)
      (m : Action r.client.World Outcome) : Type 0 where
    pub grows : (w : r.client.World) → Grows Own w (m w).1
    pub done : (w : r.client.World) → (m w).0 ≡ (false, none) → P (m w).1

module _ {Spec : Type 0} (r : Reconciler Spec) (v : View r.client) (Own : Object → Type 0) where
  pub Grows-refl : (w : r.client.World) → Grows r v Own w w
  Grows-refl w = record {
    frame = record { nodes = refl; drivers = refl };
    keeps = λ k key x h. h;
    fresh = λ k key x h. inl h;
  }

  pub Same-Grows : {w w' : r.client.World} → Same r v w w' → Grows r v Own w w'
  Same-Grows same = record {
    frame = same.frame;
    keeps = λ k key x p. same.at k key ∙ p;
    fresh = λ k key x p. inl (sym (same.at k key) ∙ p);
  }

  pub Grows-trans :
      {a b c : r.client.World} → Grows r v Own a b → Grows r v Own b c → Grows r v Own a c
  Grows-trans g h = record {
    frame = record {
      nodes = h.frame.nodes ∙ g.frame.nodes;
      drivers = h.frame.drivers ∙ g.frame.drivers;
    };
    keeps = λ k key x p. h.keeps k key x (g.keeps k key x p);
    fresh = λ k key x p. earlier g (h.fresh k key x p);
  }
    where
      earlier :
          {a b : r.client.World}
          → Grows r v Own a b
          → {k : Kind} {key : ObjectKey} {x : Object} → (v.stored b k key ≡ some x) ⊎ Own x
          → (v.stored a k key ≡ some x) ⊎ Own x
      earlier g {k} {key} {x} (inl p) = g.fresh k key x p
      earlier g (inr o) = inr o

  pub Creates-pure :
      (o : Outcome) (P : r.client.World → Type 0)
      → ((w : r.client.World) → P w)
      → Creates r v Own P (pure o)
  Creates-pure o P p = record { grows = λ w. Grows-refl w; done = λ w e. p w }

  pub Creates-weaken :
      {P Q : r.client.World → Type 0} {m : Action r.client.World Outcome}
      → ((w : r.client.World) → P w → Q w)
      → Creates r v Own P m
      → Creates r v Own Q m
  Creates-weaken {m = m} f c = record { grows = c.grows; done = λ w e. f (m w).1 (c.done w e) }

  module _ (P Q : r.client.World → Type 0) (m n : Action r.client.World Outcome) where
    -- what the sequence does, once the outcome of `m` is known
    Grows-after :
        (o : Outcome) {w w' : r.client.World}
        → Grows r v Own w w'
        → ((u : r.client.World) → Grows r v Own u (n u).1)
        → Grows r v Own w (continue o n w').1
    Grows-after (false, none) {w} {w'} g h = Grows-trans g (h w')
    Grows-after (false, some e) g h = g
    Grows-after (true, e) g h = g

    done_after :
        (o : Outcome) (w : r.client.World)
        → (continue o n w).0 ≡ (false, none)
        → (o ≡ (false, none)) × ((n w).0 ≡ (false, none)) × ((continue o n w).1 ≡ (n w).1)
    done_after (false, none) w h = (refl, h, refl)
    done_after (false, some e) w h = absurd (cc)
    done_after (true, e) w h = absurd (cc)

    -- A sequence leaves what both parts leave, where growing keeps what the first part leaves.
    pub Creates-▹ :
        Creates r v Own P m
        → Creates r v Own Q n
        → ((a b : r.client.World) → Grows r v Own a b → P a → P b)
        → Creates r v Own (λ w. P w × Q w) (m ▹ n)
    Creates-▹ cm cn stable = record {
      grows = λ w. Grows-after (m w).0 (cm.grows w) cn.grows;
      done = λ w e.
          let (first, second, end) = done_after (m w).0 (m w).1 e in
          subst (λ u. P u × Q u) (sym end)
            (
              stable (m w).1 (n (m w).1).1 (cn.grows (m w).1) (cm.done w first),
              cn.done (m w).1 second,
            );
    }

-- Growing keeps a place filled.
pub Holds-Grows :
    {Spec : Type 0} (r : Reconciler Spec) (v : View r.client) (Own : Object → Type 0) (k : Kind)
    (key : ObjectKey) (a b : r.client.World)
    → Grows r v Own a b
    → Holds r v k key a
    → Holds r v k key b
Holds-Grows r v Own k key a b g (x, h) = (x, g.keeps k key x h)

module _ {Spec : Type 0} (r : Reconciler Spec) (v : View r.client) (laws : IsLawful r.client v)
    (Own : Object → Type 0) (kind : Kind) (key : ObjectKey) (o : Object)
    (here : is_at o kind key ≡ true) (own : Own o) where
  added :
      (k : Kind) (key' : ObjectKey) (old : Option Object) (x : Object)
      → (if is_at o k key' then some o else old) ≡ some x
      → (old ≡ some x) ⊎ Own x
  added k key' old x p = elim (Bool-cases (is_at o k key')) [
    | inl at ↦ inr (subst Own (some-injective o x (rw at at p)) own)
    | inr away ↦ inl (rw away at p)
  ]

  kept :
      (w : r.client.World) (k : Kind) (key' : ObjectKey) (x : Object)
      → v.stored w kind key ≡ none
      → v.stored w k key' ≡ some x
      → (if is_at o k key' then some o else v.stored w k key') ≡ some x
  kept w k key' x gone p = elim (Bool-cases (is_at o k key')) [
    | inl at ↦
        let (same_kind, same_key) = is_at_unique o kind k key key' here at in
        absurd (none-ne-some x (sym gone ∙ ap₂ (v.stored w) same_kind same_key ∙ p))
    | inr away ↦ rw away p
  ]

  -- where the server refuses an object because it is there, it is there
  not_taken :
      (w : r.client.World)
      → v.stored w kind key ≡ none
      → ¬ (v.stored w (kind_of o) (key_of o) ≢ none)
  not_taken w gone taken =
      let (same_kind, same_key) =
        is_at_unique o (kind_of o) kind (key_of o) key (is_at_self o) here in
      taken (ap₂ (v.stored w) same_kind same_key ∙ gone)

  Ensured-Grows :
      {reported : ApiError → Bool} {w w' : r.client.World} {out : Outcome}
      → Ensured r v reported kind key o w out w'
      → Grows r v Own w w'
  Ensured-Grows (found x p e same) = Same-Grows r v Own same
  Ensured-Grows (unreadable e p same) = Same-Grows r v Own same
  Ensured-Grows {w = w} (created gone e frame at) = record {
    frame = frame;
    keeps = λ k key' x p. at k key' ∙ kept w k key' x gone p;
    fresh = λ k key' x p. added k key' (v.stored w k key') x (sym (at k key') ∙ p);
  }
  Ensured-Grows (refused e gone taken p same) = Same-Grows r v Own same

  Ensured-Holds :
      {w w' : r.client.World} {out : Outcome}
      → Ensured r v unless_exists kind key o w out w'
      → out ≡ (false, none)
      → Holds r v kind key w'
  Ensured-Holds (found x p e same) h = (x, same.at kind key ∙ p)
  Ensured-Holds (unreadable e p same) h = absurd (cc)
  Ensured-Holds (created gone e frame at) h = (o, at kind key ∙ rw here refl)
  Ensured-Holds {w = w} (refused e gone taken p same) h = elim (Bool-cases (is_already_exists e)) [
    | inl exists ↦ absurd (not_taken w gone (taken exists))
    | inr other ↦ cc (rw other at (sym p ∙ h))
  ]

  -- A creation that reports every error but AlreadyExists fills its place when it succeeds.
  pub Creates-ensure : Creates r v Own (Holds r v kind key) (ensure r unless_exists kind key o)
  Creates-ensure = record {
    grows = λ w. Ensured-Grows (ensure-Ensured r v laws unless_exists kind key o w);
    done = λ w e. Ensured-Holds (ensure-Ensured r v laws unless_exists kind key o w) e;
  }

  pub Creates-ensure_any :
      (reported : ApiError → Bool) → Creates r v Own (λ w. Unit {0}) (ensure r reported kind key o)
  Creates-ensure_any reported = record {
    grows = λ w. Ensured-Grows (ensure-Ensured r v laws reported kind key o w);
    done = λ w e. tt;
  }

-- What it means for one place that objects were added.
module _ {Spec : Type 0} (r : Reconciler Spec) (v : View r.client) (own : Object → Bool) where
  pub Grows-adds :
      {w w' : r.client.World}
      → Grows r v (λ x. own x ≡ true) w w'
      → (k : Kind) (key : ObjectKey)
      → (v.stored w' k key ≡ v.stored w k key)
        ⊎ ((v.stored w k key ≡ none) × (x : Object) × (v.stored w' k key ≡ some x) × (own x ≡ true))
  Grows-adds {w} {w'} g k key =
      at_place (v.stored w k key) (v.stored w' k key) (g.keeps k key) (g.fresh k key)
    where
      at_place :
          (a b : Option Object)
          → ((x : Object) → a ≡ some x → b ≡ some x)
          → ((x : Object) → b ≡ some x → (a ≡ some x) ⊎ (own x ≡ true))
          → (b ≡ a) ⊎ ((a ≡ none) × (x : Object) × (b ≡ some x) × (own x ≡ true))
      at_place (some x) b keeps fresh = inl (keeps x refl)
      at_place none none keeps fresh = inl refl
      at_place none (some x) keeps fresh = elim (fresh x refl) [
        | inl e ↦ inl (sym e)
        | inr o ↦ inr (refl, x, refl, o)
      ]
