-- ===== src/Api/Laws.antt =====
-- What the controllers rely on of the API server. A `View` says what a state of the server holds;
-- `IsLawful` is the documented meaning of the calls, each of which may fail at any time.
use ocp_efa_operator.Prelude.{
  String, Bool, true, false, ◌&&◌, Option, none, some, List, [], ◌∷◌, lookup, str_eq, eq_iff,
  eq_refl, refl, arith, ◌≡◌, ◌≢◌, if◌then◌else◌,
}
use ocp_efa_operator.Api.Driver.{Labels, Driver}
use ocp_efa_operator.Api.Objects.{
  Kind, node_feature_rule, config_map, kmm_module, security_context_constraints, daemon_set,
  ObjectKey, Object, kind_of, meta_of, key_of, kind_eq, key_eq, Node,
}
use ocp_efa_operator.Api.Client.{ApiError, is_not_found, is_already_exists, ok, err, Client}

-- The object has this kind and key.
abbrev pub is_at : Object → Kind → ObjectKey → Bool
is_at o kind key = kind_eq (kind_of o) kind && key_eq (key_of o) key

abbrev pub label_is : Option String → String → Bool
label_is none v = false
label_is (some u) v = str_eq u v

-- A label selector asks for each of its labels.
abbrev pub has_labels : Labels → Labels → Bool
has_labels [] labels = true
has_labels ((k, v) ∷ selector) labels = label_is (lookup k labels) v && has_labels selector labels

abbrev pub is_selected : Kind → String → Labels → Object → Bool
is_selected kind namespace selector o =
    kind_eq (kind_of o) kind
    && str_eq (meta_of o).namespace namespace
    && has_labels selector (meta_of o).labels

-- what is left of a place whose object is taken away if `sweep` says so
abbrev pub drop : (Object → Bool) → Option Object → Option Object
drop sweep none = none
drop sweep (some o) = if sweep o then none else some o

module _ {Spec : Type 0} where
  abbrev pub replace : Driver Spec → List (Driver Spec) → List (Driver Spec)
  replace d [] = []
  replace d (x ∷ xs) = (if str_eq x.name d.name then d else x) ∷ replace d xs

  -- the first of this name
  abbrev pub first_named : String → List (Driver Spec) → Option (Driver Spec)
  first_named name [] = none
  first_named name (x ∷ xs) = if str_eq x.name name then some x else first_named name xs

  pub record View (c : Client Spec) : Type 0 where
    pub stored : c.World → Kind → ObjectKey → Option Object
    pub drivers : c.World → List (Driver Spec)
    pub nodes : c.World → List Node

  pub record IsLawful (c : Client Spec) (v : View c) : Type 0 where
    pub stored_at :
        (w : c.World) (k : Kind) (key : ObjectKey) (o : Object)
        → v.stored w k key ≡ some o
        → is_at o k key ≡ true
    pub get_world : (w : c.World) (k : Kind) (key : ObjectKey) → (c.get k key w).1 ≡ w
    pub get_ok :
        (w : c.World) (k : Kind) (key : ObjectKey) (o : Object)
        → (c.get k key w).0 ≡ ok o
        → v.stored w k key ≡ some o
    pub get_not_found :
        (w : c.World) (k : Kind) (key : ObjectKey) (e : ApiError)
        → (c.get k key w).0 ≡ err e
        → is_not_found e ≡ true
        → v.stored w k key ≡ none
    pub create_ok :
        (w : c.World) (o : Object) (k : Kind) (key : ObjectKey)
        → (c.create o w).0 ≡ none
        → v.stored (c.create o w).1 k key ≡ (if is_at o k key then some o else v.stored w k key)
    pub create_err :
        (w : c.World) (o : Object) (e : ApiError) (k : Kind) (key : ObjectKey)
        → (c.create o w).0 ≡ some e
        → v.stored (c.create o w).1 k key ≡ v.stored w k key
    pub create_exists :
        (w : c.World) (o : Object) (e : ApiError)
        → (c.create o w).0 ≡ some e
        → is_already_exists e ≡ true
        → v.stored w (kind_of o) (key_of o) ≢ none
    pub create_frame :
        (w : c.World) (o : Object)
        → (v.nodes (c.create o w).1 ≡ v.nodes w) × (v.drivers (c.create o w).1 ≡ v.drivers w)
    pub delete_ok :
        (w : c.World) (o : Object) (k : Kind) (key : ObjectKey)
        → (c.delete o w).0 ≡ none
        → v.stored (c.delete o w).1 k key ≡ (if is_at o k key then none else v.stored w k key)
    pub delete_err :
        (w : c.World) (o : Object) (e : ApiError) (k : Kind) (key : ObjectKey)
        → (c.delete o w).0 ≡ some e
        → v.stored (c.delete o w).1 k key ≡ v.stored w k key
    pub delete_not_found :
        (w : c.World) (o : Object) (e : ApiError)
        → (c.delete o w).0 ≡ some e
        → is_not_found e ≡ true
        → v.stored w (kind_of o) (key_of o) ≡ none
    pub delete_all_ok :
        (w : c.World) (kind : Kind) (ns : String) (selector : Labels) (k : Kind) (key : ObjectKey)
        → (c.delete_all_of kind ns selector w).0 ≡ none
        → v.stored (c.delete_all_of kind ns selector w).1 k key
          ≡ drop (is_selected kind ns selector) (v.stored w k key)
    pub delete_all_err :
        (w : c.World) (kind : Kind) (ns : String) (selector : Labels) (e : ApiError) (k : Kind)
        (key : ObjectKey)
        → (c.delete_all_of kind ns selector w).0 ≡ some e
        → v.stored (c.delete_all_of kind ns selector w).1 k key ≡ v.stored w k key
    pub delete_all_not_found :
        (w : c.World) (kind : Kind) (ns : String) (selector : Labels) (e : ApiError) (k : Kind)
        (key : ObjectKey)
        → (c.delete_all_of kind ns selector w).0 ≡ some e
        → is_not_found e ≡ true
        → drop (is_selected kind ns selector) (v.stored w k key) ≡ v.stored w k key
    pub delete_frame :
        (w : c.World) (o : Object)
        → (v.nodes (c.delete o w).1 ≡ v.nodes w) × (v.drivers (c.delete o w).1 ≡ v.drivers w)
    pub delete_all_frame :
        (w : c.World) (kind : Kind) (ns : String) (selector : Labels)
        → (v.nodes (c.delete_all_of kind ns selector w).1 ≡ v.nodes w)
          × (v.drivers (c.delete_all_of kind ns selector w).1 ≡ v.drivers w)
    pub list_nodes_world : (w : c.World) → (c.list_nodes w).1 ≡ w
    pub list_nodes_ok : (w : c.World) (ns : List Node) → (c.list_nodes w).0 ≡ ok ns → ns ≡ v.nodes w
    pub list_world : (w : c.World) → (c.list w).1 ≡ w
    pub list_ok : (w : c.World) → (c.list w).0.1 ≡ none → (c.list w).0.0 ≡ v.drivers w
    pub list_err : (w : c.World) (e : ApiError) → (c.list w).0.1 ≡ some e → (c.list w).0.0 ≡ []
    pub update_stored :
        (w : c.World) (d : Driver Spec) (k : Kind) (key : ObjectKey)
        → v.stored (c.update d w).1 k key ≡ v.stored w k key
    pub update_status_stored :
        (w : c.World) (d : Driver Spec) (k : Kind) (key : ObjectKey)
        → v.stored (c.update_status d w).1 k key ≡ v.stored w k key
    pub update_ok :
        (w : c.World) (d d' : Driver Spec)
        → (c.update d w).0 ≡ ok d'
        → (d'.name ≡ d.name)
          × (d'.spec ≡ d.spec)
          × (d'.finalizers ≡ d.finalizers)
          × (d'.deletion_timestamp ≡ d.deletion_timestamp)
    pub update_status_ok :
        (w : c.World) (d d' : Driver Spec)
        → (c.update_status d w).0 ≡ ok d'
        → (d' ≡ d) × (v.drivers (c.update_status d w).1 ≡ replace d (v.drivers w))

-- Two texts, kinds and keys that are tested equal are equal.
pub kind_eq_sound : (a b : Kind) → kind_eq a b ≡ true → a ≡ b
kind_eq_sound node_feature_rule b h = ground arith
kind_eq_sound config_map b h = ground arith
kind_eq_sound kmm_module b h = ground arith
kind_eq_sound security_context_constraints b h = ground arith
kind_eq_sound daemon_set b h = ground arith

pub kind_eq_refl : (a : Kind) → kind_eq a a ≡ true
kind_eq_refl node_feature_rule = refl
kind_eq_refl config_map = refl
kind_eq_refl kmm_module = refl
kind_eq_refl security_context_constraints = refl
kind_eq_refl daemon_set = refl

pub key_eq_sound : (a b : ObjectKey) → key_eq a b ≡ true → a ≡ b
key_eq_sound a b h = ground (arith, eq_iff a.name b.name, eq_iff a.namespace b.namespace)

pub key_eq_refl : (a : ObjectKey) → key_eq a a ≡ true
key_eq_refl a = rw (eq_refl a.name, eq_refl a.namespace)

-- An object stands at one place.
pub is_at_unique :
    (o : Object) (k k' : Kind) (key key' : ObjectKey)
    → is_at o k key ≡ true
    → is_at o k' key' ≡ true
    → (k ≡ k') × (key ≡ key')
is_at_unique o k k' key key' h h' = ground (
  arith,
  kind_eq_sound (kind_of o) k,
  kind_eq_sound (kind_of o) k',
  key_eq_sound (key_of o) key,
  key_eq_sound (key_of o) key',
)

pub is_at_self : (o : Object) → is_at o (kind_of o) (key_of o) ≡ true
is_at_self o = rw (kind_eq_refl (kind_of o), key_eq_refl (key_of o))
