-- ===== src/Factory.antt =====
-- cmd/nacp/nacp.go: the controllers of a configuration.
pub mod Made
pub mod Shipped
pub mod Order
pub mod Lawful
pub mod Valid
pub mod Completes
use nacp.Common.{
  String, ◌<>◌, Bool, true, false, ◌||◌, Option, none, some, List, [], ◌∷◌, ◌==◌, if◌then◌else◌,
}
use nacp.Common.Text.{is_empty}
use nacp.GoError.{GoError, message, Multierror, Result, ok, err, ◌>>=◌, wrapping}
use nacp.Config.{NotationVerifierConfig, Webhook, OpaRule, OpaSdkRule, Validator, Mutator, Config}
use nacp.Admission.{JobMutator, JobValidator, JobHandler, JobCodec}
use nacp.Http.{Bytes, Url}
use nacp.Value.{Value, Format}
use nacp.Payloads.{Web}
use nacp.Patcher.{JsonPatch}
use nacp.Notation.{
  ImageVerifier, NotationLibrary, load_trust_policy_document, new_image_verifier, image_verifier,
}
use nacp.Opa.{OpaQuery, create_query}
use nacp.Remote.{parse_endpoint}
use nacp.Mutator.OpaJsonPatch.{new_opa_json_patch_mutator}
use nacp.Mutator.JsonPatchWebhook.{JsonPatchWebhookResponse, new_json_patch_webhook_mutator}
use nacp.Mutator.OpaBundle.{OpaSdkClient, new_opa_bundle_mutator}
use nacp.Validator.Opa.{new_opa_validator}
use nacp.Validator.OpaBundle.{new_opa_bundle_validator}
use nacp.Validator.Webhook.{ValidationWebhookResponse, new_webhook_validator}
use nacp.Validator.Notation.{Task, notation_validator}

-- The libraries that the controllers run on, and those that their construction calls.
pub record Platform (J : Type 0) : Type 1 where
  pub multierror : Multierror
  pub format : Format
  pub codec : JobCodec J
  pub json_patch : JsonPatch
  pub web : Web J
  pub unmarshal_patch : Bytes → Result JsonPatchWebhookResponse
  pub unmarshal_verdict : Bytes → Result ValidationWebhookResponse
  pub task_groups : J → List (List Task)
  pub parse_url : String → Result Url
  pub read_file : String → Result Bytes
  pub prepare : String → Bytes → String → Option (Value → Bool) → Result (OpaQuery J)
  pub notation : NotationLibrary

-- `buildVerifier`
unfoldable pub build_verifier :
    {J : Type 0} → Platform J → Option NotationVerifierConfig → Result ImageVerifier
build_verifier L none = err (message "notation verifier config is nil")
build_verifier L (some c) = load_trust_policy_document L.notation c.trust_policy_file >>= λ policy.
    new_image_verifier L.notation policy c.trust_store_dir c.repo_plain_http c.max_sig_attempts
      c.credential_store_file
    >>= λ iv. ok (image_verifier L.notation iv)

-- `buildVerifierIfEnabled`
unfoldable pub build_verifier_if_enabled :
    {J : Type 0} → Platform J → Option NotationVerifierConfig → Result (Option ImageVerifier)
build_verifier_if_enabled L none = ok none
build_verifier_if_enabled L (some c) = build_verifier L (some c) >>= λ v. ok (some v)

module _ {J : Type 0} (L : Platform J) where
  open L use {multierror, format, codec, json_patch, web, parse_url, read_file, prepare}

  -- `… %q requires a … block`
  requires : String → String → String → GoError
  requires kind name block =
      message (kind <> " " <> format.quote name <> " requires " <> block <> " block")

  pub create_opa_mutator : String → Option OpaRule → Result (JobMutator J)
  create_opa_mutator name none = err (requires "mutator" name "an opa_rule")
  create_opa_mutator name (some rule) =
      build_verifier_if_enabled L rule.notation
      >>= new_opa_json_patch_mutator multierror format codec json_patch read_file prepare name
          rule.filename rule.query

  pub create_patch_mutator : String → Option Webhook → Result (JobMutator J)
  create_patch_mutator name none = err (requires "mutator" name "a webhook")
  create_patch_mutator name (some hook) =
      new_json_patch_webhook_mutator multierror format codec json_patch web L.unmarshal_patch
        parse_url name hook.endpoint hook.method

  pub create_bundle_mutator :
      String → Option OpaSdkRule → Option (OpaSdkClient J) → Result (JobMutator J)
  create_bundle_mutator name none sdk = err (requires "mutator" name "an opa_sdk_rule")
  create_bundle_mutator name (some rule) sdk =
      new_opa_bundle_mutator multierror format codec json_patch name rule.path sdk

  -- `createMutator`
  unfoldable pub create_mutator : Option (OpaSdkClient J) → Mutator → Result (JobMutator J)
  unfolding requires create_opa_mutator create_patch_mutator create_bundle_mutator
  create_mutator sdk m =
      if m.type == "opa_json_patch"
      then create_opa_mutator m.name m.opa_rule
      else if m.type == "json_patch_webhook"
      then create_patch_mutator m.name m.webhook
      else if m.type == "opa_bundle_json_patch"
      then create_bundle_mutator m.name m.opa_sdk_rule sdk
      else err (message ("unknown mutator type " <> m.type))

  pub create_opa_validator :
      String → Option OpaRule → Option NotationVerifierConfig → Result (JobValidator J)
  create_opa_validator name none notation = err (requires "validator" name "an opa_rule")
  create_opa_validator name (some rule) notation =
      build_verifier_if_enabled L notation
      >>= new_opa_validator multierror format read_file prepare name rule.filename rule.query

  pub create_bundle_validator :
      String → Option OpaSdkRule → Option (OpaSdkClient J) → Result (JobValidator J)
  create_bundle_validator name none sdk = err (requires "validator" name "an opa_sdk_rule")
  create_bundle_validator name (some rule) sdk =
      new_opa_bundle_validator multierror format name rule.path sdk

  pub create_webhook_validator : String → Option Webhook → Result (JobValidator J)
  create_webhook_validator name none = err (requires "validator" name "a webhook")
  create_webhook_validator name (some hook) =
      new_webhook_validator multierror format web L.unmarshal_verdict parse_url name hook.endpoint
        hook.method

  create_notation_validator : String → Option NotationVerifierConfig → Result (JobValidator J)
  create_notation_validator name notation =
      build_verifier L notation >>= λ verifier. ok (notation_validator L.task_groups verifier name)

  -- `createValidator`
  unfoldable pub create_validator : Option (OpaSdkClient J) → Validator → Result (JobValidator J)
  unfolding requires create_opa_validator create_bundle_validator create_webhook_validator
      create_notation_validator
  create_validator sdk v =
      if v.type == "opa"
      then create_opa_validator v.name v.opa_rule v.notation
      else if v.type == "opa_bundle"
      then create_bundle_validator v.name v.opa_sdk_rule sdk
      else if v.type == "webhook"
      then create_webhook_validator v.name v.webhook
      else if v.type == "notation"
      then create_notation_validator v.name v.notation
      else err (message ("unknown validator type " <> v.type))

  -- `createMutators`: the mutators so far, and whether one of them asks for the token.
  unfoldable pub create_mutators :
      Option (OpaSdkClient J) → Bool → List Mutator → Result (List (JobMutator J) × Bool)
  create_mutators sdk resolve [] = ok ([], resolve)
  create_mutators sdk resolve (m ∷ ms) = create_mutator sdk m >>= λ made.
      create_mutators sdk (resolve || m.resolve_token) ms >>= λ rest. ok (made ∷ rest.0, rest.1)

  -- `createValidators`
  unfoldable pub create_validators :
      Option (OpaSdkClient J) → Bool → List Validator → Result (List (JobValidator J) × Bool)
  create_validators sdk resolve [] = ok ([], resolve)
  create_validators sdk resolve (v ∷ vs) = create_validator sdk v >>= λ made.
      create_validators sdk (resolve || v.resolve_token) vs >>= λ rest. ok (made ∷ rest.0, rest.1)

  -- The part of `buildServer` that makes the job handler.
  unfoldable pub build_handler : Option (OpaSdkClient J) → Config → Result (JobHandler J)
  build_handler sdk c =
      wrapping "failed to create mutators" (create_mutators sdk false c.mutators) >>= λ ms.
      wrapping "failed to create validators" (create_validators sdk false c.validators) >>= λ vs.
      ok (record { mutators = ms.0; validators = vs.0; resolve_token = ms.1 || vs.1 })
