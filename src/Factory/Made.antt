-- ===== src/Factory/Made.antt =====
-- Each controller that is built of a configuration is one of those that are shipped, under its name
-- in the configuration (cmd/nacp/nacp.go).
use nacp.Common.{String, ◌≡◌, Option, none, some, Bool-cases, inl, inr, ◌==◌}
use nacp.GoError.{ok, >>=-eq-ok}
use nacp.Config.{Validator, Mutator, OpaRule, OpaSdkRule, Webhook}
use nacp.Admission.{JobMutator, JobValidator}
use nacp.Mutator.OpaBundle.{check_bundle, OpaSdkClient}
use nacp.Opa.{create_query}
use nacp.Remote.{parse_endpoint}
use nacp.Factory.{
  Platform, build_verifier, build_verifier_if_enabled, create_opa_mutator, create_patch_mutator,
  create_bundle_mutator, create_mutator, create_opa_validator, create_bundle_validator,
  create_webhook_validator, create_notation_validator, create_validator,
}
use nacp.Payloads.{Input, Ending, mutate_by, validate_by}
use nacp.Admission.{Validated}
use nacp.Mutator.OpaJsonPatch.{evaluate as opa_mutation}
use nacp.Mutator.JsonPatchWebhook.{evaluate as webhook_mutation}
use nacp.Mutator.OpaBundle.{evaluate as bundle_mutation}
use nacp.Validator.Opa.{evaluate as opa_verdict}
use nacp.Validator.OpaBundle.{evaluate as bundle_verdict}
use nacp.Validator.Webhook.{evaluate as webhook_verdict}
use nacp.Validator.Notation.{evaluate as notation_verdict}

-- A mutator that computes a function of the job and the request context.
abbrev pub IsMadeMutator : {J : Type 0} → String → JobMutator J → Type 0
IsMadeMutator {J = J} name made =
    (f : Input J → Ending J) × (made ≡ record { name = name; mutate = mutate_by f })

-- A validator that judges the job and the request context.
abbrev pub IsMadeValidator : {J : Type 0} → String → JobValidator J → Type 0
IsMadeValidator {J = J} name made =
    (f : Input J → Validated) × (made ≡ record { name = name; validate = validate_by f })

module _ {J : Type 0} (L : Platform J) (sdk : Option (OpaSdkClient J)) where
  create_opa_mutator-made :
      (m : Mutator) (made : JobMutator J)
      → (r : Option OpaRule) → create_opa_mutator L m.name r ≡ ok made
      → IsMadeMutator m.name made
  unfolding create_opa_mutator
  create_opa_mutator-made m made none e = cc
  create_opa_mutator-made m made (some rule) e =
      let (verifier, _, e₁) = >>=-eq-ok (build_verifier_if_enabled L rule.notation) _ e in
      let (query, _, e₂) =
        >>=-eq-ok (create_query L.read_file L.prepare rule.filename rule.query verifier) _ e₁ in
      (opa_mutation L.multierror L.format L.codec L.json_patch m.name query, cc e₂)

  create_patch_mutator-made :
      (m : Mutator) (made : JobMutator J)
      → (r : Option Webhook) → create_patch_mutator L m.name r ≡ ok made
      → IsMadeMutator m.name made
  unfolding create_patch_mutator
  create_patch_mutator-made m made none e = cc
  create_patch_mutator-made m made (some hook) e =
      let (u, _, e₁) = >>=-eq-ok (parse_endpoint L.format L.parse_url hook.endpoint) _ e in
      (
        webhook_mutation L.multierror L.codec L.json_patch L.web L.unmarshal_patch m.name u.text
            hook.method,
        cc e₁,
      )

  create_bundle_mutator-made :
      (m : Mutator) (made : JobMutator J)
      → (r : Option OpaSdkRule) → create_bundle_mutator L m.name r sdk ≡ ok made
      → IsMadeMutator m.name made
  unfolding create_bundle_mutator
  create_bundle_mutator-made m made none e = cc
  create_bundle_mutator-made m made (some rule) e =
      let (opa, _, e₁) = >>=-eq-ok (check_bundle sdk rule.path) _ e in
      (bundle_mutation L.multierror L.format L.codec L.json_patch m.name rule.path opa, cc e₁)

  pub create_mutator-made :
      (m : Mutator) (made : JobMutator J)
      → create_mutator L sdk m ≡ ok made
      → IsMadeMutator m.name made
  unfolding create_mutator
  create_mutator-made m made h = elim (Bool-cases (m.type == "opa_json_patch")) [
    | inl a ↦ create_opa_mutator-made m made m.opa_rule (rw (a, create_mutator) at h)
    | inr a ↦ elim (Bool-cases (m.type == "json_patch_webhook")) [
      | inl b ↦ create_patch_mutator-made m made m.webhook (rw (a, b, create_mutator) at h)
      | inr b ↦ elim (Bool-cases (m.type == "opa_bundle_json_patch")) [
        | inl c ↦
            create_bundle_mutator-made m made m.opa_sdk_rule (rw (a, b, c, create_mutator) at h)
        | inr c ↦ absurd (cc (rw (a, b, c, create_mutator) at h))
      ]
    ]
  ]

  create_opa_validator-made :
      (v : Validator) (made : JobValidator J)
      → (r : Option OpaRule) → create_opa_validator L v.name r v.notation ≡ ok made
      → IsMadeValidator v.name made
  unfolding create_opa_validator
  create_opa_validator-made v made none e = cc
  create_opa_validator-made v made (some rule) e =
      let (verifier, _, e₁) = >>=-eq-ok (build_verifier_if_enabled L v.notation) _ e in
      let (query, _, e₂) =
        >>=-eq-ok (create_query L.read_file L.prepare rule.filename rule.query verifier) _ e₁ in
      (opa_verdict L.multierror L.format v.name query, cc e₂)

  create_bundle_validator-made :
      (v : Validator) (made : JobValidator J)
      → (r : Option OpaSdkRule) → create_bundle_validator L v.name r sdk ≡ ok made
      → IsMadeValidator v.name made
  unfolding create_bundle_validator
  create_bundle_validator-made v made none e = cc
  create_bundle_validator-made v made (some rule) e =
      let (opa, _, e₁) = >>=-eq-ok (check_bundle sdk rule.path) _ e in
      (bundle_verdict L.multierror L.format v.name rule.path opa, cc e₁)

  create_webhook_validator-made :
      (v : Validator) (made : JobValidator J)
      → (r : Option Webhook) → create_webhook_validator L v.name r ≡ ok made
      → IsMadeValidator v.name made
  unfolding create_webhook_validator
  create_webhook_validator-made v made none e = cc
  create_webhook_validator-made v made (some hook) e =
      let (u, _, e₁) = >>=-eq-ok (parse_endpoint L.format L.parse_url hook.endpoint) _ e in
      (webhook_verdict L.multierror L.web L.unmarshal_verdict v.name u.text hook.method, cc e₁)

  create_notation_validator-made :
      (v : Validator) (made : JobValidator J)
      → create_notation_validator L v.name v.notation ≡ ok made
      → IsMadeValidator v.name made
  unfolding create_notation_validator
  create_notation_validator-made v made e =
      let (verifier, _, e₁) = >>=-eq-ok (build_verifier L v.notation) _ e in
      (notation_verdict L.task_groups verifier v.name, cc e₁)

  pub create_validator-made :
      (v : Validator) (made : JobValidator J)
      → create_validator L sdk v ≡ ok made
      → IsMadeValidator v.name made
  unfolding create_validator
  create_validator-made v made h = elim (Bool-cases (v.type == "opa")) [
    | inl a ↦ create_opa_validator-made v made v.opa_rule (rw (a, create_validator) at h)
    | inr a ↦ elim (Bool-cases (v.type == "opa_bundle")) [
      | inl b ↦
          create_bundle_validator-made v made v.opa_sdk_rule (rw (a, b, create_validator) at h)
      | inr b ↦ elim (Bool-cases (v.type == "webhook")) [
        | inl c ↦
            create_webhook_validator-made v made v.webhook (rw (a, b, c, create_validator) at h)
        | inr c ↦ elim (Bool-cases (v.type == "notation")) [
          | inl d ↦ create_notation_validator-made v made (rw (a, b, c, d, create_validator) at h)
          | inr d ↦ absurd (cc (rw (a, b, c, d, create_validator) at h))
        ]
      ]
    ]
  ]
