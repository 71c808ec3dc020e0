-- ===== src/Startup/Scheme/Known.antt =====
-- The scheme knows every type that the controllers use.
use ocp_efa_operator.Prelude.{
  Option, none, some, List, [], ◌∷◌, ◌++◌, All, Has, ◌≡◌, ◌⊎◌, inl, inr, refl, sym, subst,
  none-ne-some,
}
use ocp_efa_operator.Api.Objects.{
  node_feature_rule, config_map, kmm_module, security_context_constraints, daemon_set,
}
use ocp_efa_operator.Controllers.Action.{Action, pure}
use ocp_efa_operator.Startup.{object, node, efa_setup, gdrdrv_setup}
use ocp_efa_operator.Startup.Scheme.{
  GoType, watched, efa_driver, efa_driver_list, gdrdrv_driver, gdrdrv_driver_list, node_feature,
  node_feature_list, node_feature_rule_list, node_list, GroupVersion, group_version, SchemeLibrary,
  add_known_types, or_panic, must, init,
}

Has-append : {A : Type 0} (x : A) (xs ys : List A) → Has x (xs ++ ys) → Has x xs ⊎ Has x ys
Has-append x [] ys h = inr h
Has-append x (y ∷ xs) ys (inl e) = inl (inl e)
Has-append x (y ∷ xs) ys (inr h) = elim (Has-append x xs ys h) [
  | inl left ↦ inl (inr left)
  | inr right ↦ inr right
]

module _ (lib : SchemeLibrary) (knows : lib.Scheme → GoType → Type 0) where
  -- if `m` returns no error, then the scheme knows these types behind it and all that it knew
  pub record Adds (ts : List GoType) (m : Action lib.Scheme (Option lib.Error)) : Type 0 where
    pub at : (s : lib.Scheme) (t : GoType) → (m s).0 ≡ none → Has t ts ⊎ knows s t → knows (m s).1 t

  -- what the libraries document
  pub record IsSchemeLibrary : Type 0 where
    pub known_types :
        (gv : GroupVersion) (ts : List GoType) (s : lib.Scheme) (t : GoType)
        → Has t ts ⊎ knows s t
        → knows (lib.scheme_add_known_types gv ts s) t
    pub group_version_keeps :
        (gv : GroupVersion) (s : lib.Scheme) (t : GoType)
        → knows s t
        → knows (lib.add_to_group_version gv s) t
    pub builder_adds : (gv : GroupVersion) (ts : List GoType) → Adds ts (lib.builder gv ts)
    pub scheme_builder_runs :
        (m : Action lib.Scheme (Option lib.Error)) (s : lib.Scheme) → lib.scheme_builder m s ≡ m s
    pub client_go_adds :
        Adds
          (watched (object config_map)
            ∷ watched (object daemon_set)
            ∷ watched node
            ∷ node_list
            ∷ [])
          lib.client_go
    pub security_adds : Adds (watched (object security_context_constraints) ∷ []) lib.security
    pub kmm_adds : Adds (watched (object kmm_module) ∷ []) lib.kmm

  Adds-pure : Adds [] (pure none)
  Adds-pure = record {
    at = λ s t e h. elim h [ inl none_there ↦ absurd none_there | inr old ↦ old ];
  }

  Adds-must :
      (ts us : List GoType) (m n : Action lib.Scheme (Option lib.Error))
      → Adds ts m
      → Adds us n
      → Adds (ts ++ us) (must lib m n)
  Adds-must ts us m n hm hn = record { at = λ s t e h. must_adds s t h (m s).0 refl e }
    where
      must_adds :
          (s : lib.Scheme) (t : GoType)
          → Has t (ts ++ us) ⊎ knows s t
          → (o : Option lib.Error) → (m s).0 ≡ o
          → (or_panic lib o n (m s).1).0 ≡ none
          → knows (or_panic lib o n (m s).1).1 t
      must_adds s t (inl here) none good e = elim (Has-append t ts us here) [
        | inl first ↦ hn.at (m s).1 t e (inr (hm.at s t good (inl first)))
        | inr later ↦ hn.at (m s).1 t e (inl later)
      ]
      must_adds s t (inr old) none good e = hn.at (m s).1 t e (inr (hm.at s t good (inr old)))
      must_adds s t h (some failure) bad e = absurd (none-ne-some failure (sym e))

  module _ (laws : IsSchemeLibrary) where
    abbrev ours : List GoType
    ours =
        node_feature
        ∷ node_feature_list
        ∷ watched (object node_feature_rule)
        ∷ node_feature_rule_list
        ∷ []

    add_known_types-Adds : Adds ours (lib.scheme_builder (add_known_types lib))
    add_known_types-Adds = record {
      at = λ s t e h.
          subst (λ end. knows end.1 t) (sym (laws.scheme_builder_runs (add_known_types lib) s))
            (laws.group_version_keeps lib.nfd_group_version _ t
              (laws.known_types lib.nfd_group_version ours s t h));
    }

    abbrev resources : List GoType
    resources = efa_driver ∷ efa_driver_list ∷ gdrdrv_driver ∷ gdrdrv_driver_list ∷ []

    abbrev others : List GoType
    others =
        watched (object security_context_constraints) ∷ watched (object kmm_module) ∷ ours ++ []

    abbrev registered : List GoType
    registered =
        watched (object config_map)
          ∷ watched (object daemon_set)
          ∷ watched node
          ∷ node_list
          ∷ resources
        ++ others

    -- Where `AddToScheme` of client-go, of the two packages for OpenShift and kernel modules and of a
    -- scheme builder add their types, and nothing forgets a type: if `init` does not panic, then the
    -- scheme knows the kinds that the two controllers own, the resources, the lists of them and the
    -- list of nodes.
    pub init-knows :
        (s : lib.Scheme)
        → (init lib s).0 ≡ none
        → All (λ k. knows (init lib s).1 (watched k)) efa_setup.owns
          × All (λ k. knows (init lib s).1 (watched k)) gdrdrv_setup.owns
          × All
              (knows (init lib s).1)
              (efa_driver ∷ efa_driver_list ∷ gdrdrv_driver ∷ gdrdrv_driver_list ∷ node_list ∷ [])
    unfolding init
    init-knows s good =
        let adds = Adds-must _ _ _ _ laws.client_go_adds (
          Adds-must _ _ _ _ (laws.builder_adds group_version _) (
            Adds-must _ _ _ _ laws.security_adds (
              Adds-must _ _ _ _ laws.kmm_adds
                (Adds-must _ _ _ _ add_known_types-Adds Adds-pure)))) in
        let known : (t : GoType) → Has t registered → knows (init lib s).1 t =
          λ t h. adds.at s t good (inl h) in
        let config_maps = known (watched (object config_map)) (inl refl) in
        let daemon_sets = known (watched (object daemon_set)) (inr (inl refl)) in
        let nodes = known (watched node) (inr (inr (inl refl))) in
        let node_lists = known node_list (inr (inr (inr (inl refl)))) in
        let drivers : (t : GoType) → Has t (resources ++ others) → knows (init lib s).1 t =
          λ t h. known t (inr (inr (inr (inr h)))) in
        let rest : (t : GoType) → Has t others → knows (init lib s).1 t =
          λ t h. drivers t (inr (inr (inr (inr h)))) in
        let sccs = rest (watched (object security_context_constraints)) (inl refl) in
        let modules = rest (watched (object kmm_module)) (inr (inl refl)) in
        let rules = rest (watched (object node_feature_rule)) (inr (inr (inr (inr (inl refl))))) in
        (
          (config_maps, (modules, (daemon_sets, (sccs, (rules, (nodes, tt)))))),
          (config_maps, (modules, (daemon_sets, (sccs, (nodes, tt))))),
          (
            drivers efa_driver (inl refl),
            (
              drivers efa_driver_list (inr (inl refl)),
              (
                drivers gdrdrv_driver (inr (inr (inl refl))),
                (drivers gdrdrv_driver_list (inr (inr (inr (inl refl)))), (node_lists, tt)),
              ),
            ),
          ),
        )
