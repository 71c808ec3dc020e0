-- ===== src/Controllers/Owned/Faults.antt =====
-- Which errors `ensure` returns.
use ocp_efa_operator.Prelude.{
  Bool, true, Option, none, some, ◌≡◌, ◌⊎◌, inl, inr, sym, ap, ◌∙◌, Bool-cases, some-injective,
  none-ne-some,
}
use ocp_efa_operator.Api.Objects.{Kind, ObjectKey, Object}
use ocp_efa_operator.Api.Client.{ApiError, is_not_found, Result, ok, err}
use ocp_efa_operator.Controllers.Owned.{Reconciler, report, create_unless_found, ensure}

-- an error that is reported is one that `reported` lets through
report-some :
    (reported : ApiError → Bool) (f : Option ApiError) (e : ApiError)
    → (report reported f).1 ≡ some e
    → reported e ≡ true
report-some reported none e h = cc
report-some reported (some f) e h = elim (Bool-cases (reported f)) [
  | inl on ↦ ap reported (sym (some-injective _ _ (rw on at h))) ∙ on
  | inr off ↦ absurd (none-ne-some e (rw off at h))
]

module _ {Spec : Type 0} (r : Reconciler Spec) where
  created-faults :
      (reported : ApiError → Bool) (o : Object) (found : Result Object) (w : r.client.World)
      (e : ApiError)
      → (create_unless_found r reported o found w).0.1 ≡ some e
      → (found ≡ err e) ⊎ (reported e ≡ true)
  created-faults reported o (ok x) w e h = cc
  created-faults reported o (err f) w e h = elim (Bool-cases (is_not_found f)) [
    | inl gone ↦ inr (report-some reported (r.client.create o w).0 e (rw gone at h))
    | inr other ↦ inl (ap err (some-injective _ _ (rw other at h)))
  ]

  pub ensure-faults :
      (reported : ApiError → Bool) (kind : Kind) (key : ObjectKey) (o : Object) (w : r.client.World)
      (e : ApiError)
      → (ensure r reported kind key o w).0.1 ≡ some e
      → ((r.client.get kind key w).0 ≡ err e) ⊎ (reported e ≡ true)
  unfolding ensure
  ensure-faults reported kind key o w e h =
      created-faults reported o (r.client.get kind key w).0 (r.client.get kind key w).1 e h
