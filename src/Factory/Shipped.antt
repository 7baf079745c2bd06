-- ===== src/Factory/Shipped.antt =====
-- Which controller each block of a configuration becomes (cmd/nacp/nacp.go).
use nacp.Common.{
  ◌≡◌, refl, ap, ◌⊎◌, String, Option, none, some, List, [], ◌∷◌, Bool-cases, inl, inr, ◌==◌, eq_iff,
}
use nacp.Common.Text.{is_empty}
use nacp.GoError.{ok, >>=-eq-ok}
use nacp.Config.{Validator, Mutator, OpaRule, OpaSdkRule, Webhook}
use nacp.Admission.{JobMutator, JobValidator}
use nacp.Http.{Url}
use nacp.Notation.{ImageVerifier}
use nacp.Opa.{OpaQuery, create_query}
use nacp.Payloads.{mutate_by, validate_by}
use nacp.Remote.{parse_endpoint}
use nacp.Mutator.OpaBundle.{check_bundle, OpaSdkClient, evaluate as bundle_mutation}
use nacp.Mutator.OpaJsonPatch.{evaluate as opa_mutation}
use nacp.Mutator.JsonPatchWebhook.{evaluate as webhook_mutation}
use nacp.Validator.Opa.{evaluate as opa_verdict}
use nacp.Validator.OpaBundle.{evaluate as bundle_verdict}
use nacp.Validator.Webhook.{evaluate as webhook_verdict}
use nacp.Validator.Notation.{evaluate as notation_verdict}
use nacp.Factory.{
  Platform, build_verifier, build_verifier_if_enabled, create_opa_mutator, create_patch_mutator,
  create_bundle_mutator, create_mutator, create_opa_validator, create_bundle_validator,
  create_webhook_validator, create_notation_validator, create_validator,
}

-- Each entry of a list, with the entry of the other list at its position.
abbrev pub Each : {A B : Type 0} → (A → B → Type 0) → List A → List B → Type 0
Each P [] [] = Unit
Each P (a ∷ as') (b ∷ bs) = P a b × Each P as' bs
Each P [] (b ∷ bs) = ⊥
Each P (a ∷ as') [] = ⊥

check_bundle-eq-ok :
    {J : Type 0} (sdk : Option (OpaSdkClient J)) (path : String) (opa : OpaSdkClient J)
    → check_bundle sdk path ≡ ok opa
    → sdk ≡ some opa
check_bundle-eq-ok none path opa h = cc
check_bundle-eq-ok (some s) path opa h = elim (Bool-cases (is_empty path)) [
  | inl e ↦ absurd (cc (rw e at h))
  | inr e ↦ ap some (cc (rw e at h))
]

module _ {J : Type 0} (L : Platform J) (sdk : Option (OpaSdkClient J)) where
  -- A rule in a file, with its query over the verifier of a notation block, if there is one.
  abbrev IsRegoMutator : Mutator → JobMutator J → Type 0
  IsRegoMutator m made =
      (rule : OpaRule) × (m.opa_rule ≡ some rule)
      × (verifier : Option ImageVerifier) × (build_verifier_if_enabled L rule.notation
          ≡ ok verifier)
      × (query : OpaQuery J) × (create_query L.read_file L.prepare rule.filename rule.query verifier
          ≡ ok query)
      × (made ≡ record {
        name = m.name;
        mutate = mutate_by (opa_mutation L.multierror L.format L.codec L.json_patch m.name query);
      })

  -- A webhook at the endpoint of its block, called with the method of that block.
  abbrev IsHookMutator : Mutator → JobMutator J → Type 0
  IsHookMutator m made =
      (hook : Webhook) × (m.webhook ≡ some hook)
      × (u : Url) × (parse_endpoint L.format L.parse_url hook.endpoint ≡ ok u)
      × (made ≡ record {
        name = m.name;
        mutate = mutate_by (
            webhook_mutation L.multierror L.codec L.json_patch L.web L.unmarshal_patch m.name u.text
              hook.method);
      })

  -- A decision of the SDK at the path of its block.
  abbrev IsBundleMutator : Mutator → JobMutator J → Type 0
  IsBundleMutator m made =
      (rule : OpaSdkRule) × (m.opa_sdk_rule ≡ some rule)
      × (opa : OpaSdkClient J) × (sdk ≡ some opa)
      × (made ≡ record {
        name = m.name;
        mutate =
            mutate_by
              (bundle_mutation L.multierror L.format L.codec L.json_patch m.name rule.path opa);
      })

  abbrev pub IsShippedMutator : Mutator → JobMutator J → Type 0
  IsShippedMutator m made =
      ((m.type ≡ "opa_json_patch") × IsRegoMutator m made)
      ⊎ ((m.type ≡ "json_patch_webhook") × IsHookMutator m made)
      ⊎ ((m.type ≡ "opa_bundle_json_patch") × IsBundleMutator m made)

  -- A rule in a file, with its query over the verifier of the block beside it, if there is one.
  abbrev IsRegoValidator : Validator → JobValidator J → Type 0
  IsRegoValidator v made =
      (rule : OpaRule) × (v.opa_rule ≡ some rule)
      × (verifier : Option ImageVerifier) × (build_verifier_if_enabled L v.notation ≡ ok verifier)
      × (query : OpaQuery J) × (create_query L.read_file L.prepare rule.filename rule.query verifier
          ≡ ok query)
      × (made ≡ record {
        name = v.name;
        validate = validate_by (opa_verdict L.multierror L.format v.name query);
      })

  abbrev IsBundleValidator : Validator → JobValidator J → Type 0
  IsBundleValidator v made =
      (rule : OpaSdkRule) × (v.opa_sdk_rule ≡ some rule)
      × (opa : OpaSdkClient J) × (sdk ≡ some opa)
      × (made ≡ record {
        name = v.name;
        validate = validate_by (bundle_verdict L.multierror L.format v.name rule.path opa);
      })

  abbrev IsHookValidator : Validator → JobValidator J → Type 0
  IsHookValidator v made =
      (hook : Webhook) × (v.webhook ≡ some hook)
      × (u : Url) × (parse_endpoint L.format L.parse_url hook.endpoint ≡ ok u)
      × (made ≡ record {
        name = v.name;
        validate =
            validate_by
              (webhook_verdict L.multierror L.web L.unmarshal_verdict v.name u.text hook.method);
      })

  abbrev IsImageValidator : Validator → JobValidator J → Type 0
  IsImageValidator v made =
      (verifier : ImageVerifier) × (build_verifier L v.notation ≡ ok verifier)
      × (made ≡ record {
        name = v.name;
        validate = validate_by (notation_verdict L.task_groups verifier v.name);
      })

  abbrev pub IsShippedValidator : Validator → JobValidator J → Type 0
  IsShippedValidator v made =
      ((v.type ≡ "opa") × IsRegoValidator v made)
      ⊎ ((v.type ≡ "opa_bundle") × IsBundleValidator v made)
      ⊎ ((v.type ≡ "webhook") × IsHookValidator v made)
      ⊎ ((v.type ≡ "notation") × IsImageValidator v made)

  create_opa_mutator-IsRegoMutator :
      (m : Mutator) (made : JobMutator J) (r : Option OpaRule)
      → m.opa_rule ≡ r
      → create_opa_mutator L m.name r ≡ ok made
      → IsRegoMutator m made
  unfolding create_opa_mutator
  create_opa_mutator-IsRegoMutator m made none is e = absurd (cc e)
  create_opa_mutator-IsRegoMutator m made (some rule) is e =
      let (verifier, v, e₁) = >>=-eq-ok (build_verifier_if_enabled L rule.notation) _ e in
      let (query, q, e₂) =
        >>=-eq-ok (create_query L.read_file L.prepare rule.filename rule.query verifier) _ e₁ in
      (rule, is, verifier, v, query, q, cc e₂)

  create_patch_mutator-IsHookMutator :
      (m : Mutator) (made : JobMutator J) (r : Option Webhook)
      → m.webhook ≡ r
      → create_patch_mutator L m.name r ≡ ok made
      → IsHookMutator m made
  unfolding create_patch_mutator
  create_patch_mutator-IsHookMutator m made none is e = absurd (cc e)
  create_patch_mutator-IsHookMutator m made (some hook) is e =
      let (u, parsed, e₁) = >>=-eq-ok (parse_endpoint L.format L.parse_url hook.endpoint) _ e in
      (hook, is, u, parsed, cc e₁)

  create_bundle_mutator-IsBundleMutator :
      (m : Mutator) (made : JobMutator J) (r : Option OpaSdkRule)
      → m.opa_sdk_rule ≡ r
      → create_bundle_mutator L m.name r sdk ≡ ok made
      → IsBundleMutator m made
  unfolding create_bundle_mutator
  create_bundle_mutator-IsBundleMutator m made none is e = absurd (cc e)
  create_bundle_mutator-IsBundleMutator m made (some rule) is e =
      let (opa, c, e₁) = >>=-eq-ok (check_bundle sdk rule.path) _ e in
      (rule, is, opa, check_bundle-eq-ok sdk rule.path opa c, cc e₁)

  pub create_mutator-IsShippedMutator :
      (m : Mutator) (made : JobMutator J)
      → create_mutator L sdk m ≡ ok made
      → IsShippedMutator m made
  unfolding create_mutator
  create_mutator-IsShippedMutator m made h = elim (Bool-cases (m.type == "opa_json_patch")) [
    | inl a ↦ inl (
      (eq_iff m.type "opa_json_patch").0 a,
      create_opa_mutator-IsRegoMutator m made m.opa_rule refl (rw (a, create_mutator) at h),
    )
    | inr a ↦ elim (Bool-cases (m.type == "json_patch_webhook")) [
      | inl b ↦ inr (
          inl (
            (eq_iff m.type "json_patch_webhook").0 b,
            create_patch_mutator-IsHookMutator m made m.webhook refl
                (rw (a, b, create_mutator) at h),
          ))
      | inr b ↦ elim (Bool-cases (m.type == "opa_bundle_json_patch")) [
        | inl c ↦ inr (
            inr (
              (eq_iff m.type "opa_bundle_json_patch").0 c,
              create_bundle_mutator-IsBundleMutator m made m.opa_sdk_rule refl
                  (rw (a, b, c, create_mutator) at h),
            ))
        | inr c ↦ absurd (cc (rw (a, b, c, create_mutator) at h))
      ]
    ]
  ]

  create_opa_validator-IsRegoValidator :
      (v : Validator) (made : JobValidator J) (r : Option OpaRule)
      → v.opa_rule ≡ r
      → create_opa_validator L v.name r v.notation ≡ ok made
      → IsRegoValidator v made
  unfolding create_opa_validator
  create_opa_validator-IsRegoValidator v made none is e = absurd (cc e)
  create_opa_validator-IsRegoValidator v made (some rule) is e =
      let (verifier, f, e₁) = >>=-eq-ok (build_verifier_if_enabled L v.notation) _ e in
      let (query, q, e₂) =
        >>=-eq-ok (create_query L.read_file L.prepare rule.filename rule.query verifier) _ e₁ in
      (rule, is, verifier, f, query, q, cc e₂)

  create_bundle_validator-IsBundleValidator :
      (v : Validator) (made : JobValidator J) (r : Option OpaSdkRule)
      → v.opa_sdk_rule ≡ r
      → create_bundle_validator L v.name r sdk ≡ ok made
      → IsBundleValidator v made
  unfolding create_bundle_validator
  create_bundle_validator-IsBundleValidator v made none is e = absurd (cc e)
  create_bundle_validator-IsBundleValidator v made (some rule) is e =
      let (opa, c, e₁) = >>=-eq-ok (check_bundle sdk rule.path) _ e in
      (rule, is, opa, check_bundle-eq-ok sdk rule.path opa c, cc e₁)

  create_webhook_validator-IsHookValidator :
      (v : Validator) (made : JobValidator J) (r : Option Webhook)
      → v.webhook ≡ r
      → create_webhook_validator L v.name r ≡ ok made
      → IsHookValidator v made
  unfolding create_webhook_validator
  create_webhook_validator-IsHookValidator v made none is e = absurd (cc e)
  create_webhook_validator-IsHookValidator v made (some hook) is e =
      let (u, parsed, e₁) = >>=-eq-ok (parse_endpoint L.format L.parse_url hook.endpoint) _ e in
      (hook, is, u, parsed, cc e₁)

  create_notation_validator-IsImageValidator :
      (v : Validator) (made : JobValidator J)
      → create_notation_validator L v.name v.notation ≡ ok made
      → IsImageValidator v made
  unfolding create_notation_validator
  create_notation_validator-IsImageValidator v made e =
      let (verifier, f, e₁) = >>=-eq-ok (build_verifier L v.notation) _ e in (verifier, f, cc e₁)

  pub create_validator-IsShippedValidator :
      (v : Validator) (made : JobValidator J)
      → create_validator L sdk v ≡ ok made
      → IsShippedValidator v made
  unfolding create_validator
  create_validator-IsShippedValidator v made h = elim (Bool-cases (v.type == "opa")) [
    | inl a ↦ inl (
      (eq_iff v.type "opa").0 a,
      create_opa_validator-IsRegoValidator v made v.opa_rule refl (rw (a, create_validator) at h),
    )
    | inr a ↦ elim (Bool-cases (v.type == "opa_bundle")) [
      | inl b ↦ inr (
          inl (
            (eq_iff v.type "opa_bundle").0 b,
            create_bundle_validator-IsBundleValidator v made v.opa_sdk_rule refl
                (rw (a, b, create_validator) at h),
          ))
      | inr b ↦ elim (Bool-cases (v.type == "webhook")) [
        | inl c ↦ inr (
            inr (
              inl (
                (eq_iff v.type "webhook").0 c,
                create_webhook_validator-IsHookValidator v made v.webhook refl
                    (rw (a, b, c, create_validator) at h),
              )))
        | inr c ↦ elim (Bool-cases (v.type == "notation")) [
          | inl d ↦ inr (
              inr (
                inr (
                  (eq_iff v.type "notation").0 d,
                  create_notation_validator-IsImageValidator v made
                      (rw (a, b, c, d, create_validator) at h),
                )))
          | inr d ↦ absurd (cc (rw (a, b, c, d, create_validator) at h))
        ]
      ]
    ]
  ]
