-- ===== src/Factory/Valid.antt =====
-- The controllers of each kind, of a block that `Validate` accepts (cmd/nacp/nacp.go,
-- pkg/config/config.go).
use mathlib.Core.Path.{subst}
use nacp.Common.{◌<>◌, ◌≡◌, refl, String, Bool, true, false, not, Option, none, some}
use nacp.Common.Text.{is_empty-trim_space}
use nacp.GoError.{GoError, ok}
use nacp.Config.{NotationVerifierConfig, OpaRule, OpaSdkRule, Webhook, Validator, Mutator}
use nacp.Config.Validate.{
  UrlLibrary, is_blank, refuse_if, ◌then_check◌, wrap_some, validate_opa_rule,
  validate_opa_sdk_rule, validate_webhook, validate_http_url,
}
use nacp.Config.Validate.Controllers.{refuse_if-eq-none, then_check-eq-none}
use nacp.Http.{Url}
use nacp.Admission.{JobMutator, JobValidator}
use nacp.Notation.{ImageVerifier}
use nacp.Opa.{OpaQuery, create_query}
use nacp.Remote.{parse_endpoint}
use nacp.Remote.Endpoints.{validate_http_url-parse_endpoint}
use nacp.Mutator.OpaBundle.{check_bundle, OpaSdkClient, opa_bundle_mutator}
use nacp.Mutator.OpaJsonPatch.{opa_json_patch_mutator}
use nacp.Mutator.JsonPatchWebhook.{json_patch_webhook_mutator}
use nacp.Validator.Opa.{opa_validator}
use nacp.Validator.OpaBundle.{opa_bundle_validator}
use nacp.Validator.Webhook.{webhook_validator}
use nacp.Factory.{
  Platform, build_verifier, build_verifier_if_enabled, create_opa_mutator, create_patch_mutator,
  create_bundle_mutator, create_opa_validator, create_bundle_validator, create_webhook_validator,
}

wrap_some-eq-none : (s : String) (o : Option GoError) → wrap_some s o ≡ none → o ≡ none
wrap_some-eq-none s none h = refl
wrap_some-eq-none s (some e) h = cc

module _ {J : Type 0} (L : Platform J) where
  -- The rule, if there is one, can be read and prepared, with the verifier of the notation block.
  abbrev pub Prepares : Option OpaRule → Option NotationVerifierConfig → Type 0
  Prepares o n =
      (rule : OpaRule)
      → o ≡ some rule
      → (v : Option ImageVerifier) × (build_verifier_if_enabled L n ≡ ok v)
        × (q : OpaQuery J) × (create_query L.read_file L.prepare rule.filename rule.query v ≡ ok q)

  -- The notation block of a rule.
  abbrev pub notation_of : Option OpaRule → Option NotationVerifierConfig
  notation_of none = none
  notation_of (some rule) = rule.notation

  -- The files that a controller needs are in order.
  abbrev pub HasMutatorFiles : Mutator → Type 0
  HasMutatorFiles m = m.type ≡ "opa_json_patch" → Prepares m.opa_rule (notation_of m.opa_rule)

  abbrev pub HasValidatorFiles : Validator → Type 0
  HasValidatorFiles v =
      (v.type ≡ "opa" → Prepares v.opa_rule v.notation)
      × (v.type ≡ "notation"
          → (verifier : ImageVerifier) × (build_verifier L v.notation ≡ ok verifier))

module _ {J : Type 0} (L : Platform J) (U : UrlLibrary) (same : U.parse_url ≡ L.parse_url) where
  pub opa_mutator_made :
      (kind name : String) (r : Option OpaRule)
      → Prepares L r (notation_of L r)
      → validate_opa_rule U kind name r ≡ none
      → (made : JobMutator J) × (create_opa_mutator L name r ≡ ok made)
  unfolding validate_opa_rule create_opa_mutator
  opa_mutator_made kind name none files h = absurd (cc h)
  opa_mutator_made kind name (some rule) files h =
      let (v, verified, q, prepared) = files rule refl in
      (
        opa_json_patch_mutator L.multierror L.format L.codec L.json_patch name q,
        rw (verified, prepared) refl,
      )

  pub opa_validator_made :
      (kind name : String) (r : Option OpaRule) (n : Option NotationVerifierConfig)
      → Prepares L r n
      → validate_opa_rule U kind name r ≡ none
      → (made : JobValidator J) × (create_opa_validator L name r n ≡ ok made)
  unfolding validate_opa_rule create_opa_validator
  opa_validator_made kind name none n files h = absurd (cc h)
  opa_validator_made kind name (some rule) n files h =
      let (v, verified, q, prepared) = files rule refl in
      (opa_validator L.multierror L.format name q, rw (verified, prepared) refl)

  endpoint_parses :
      (kind name : String) (hook : Webhook)
      → validate_webhook U kind name (some hook) ≡ none
      → (u : Url) × (parse_endpoint L.format L.parse_url hook.endpoint ≡ ok u)
  unfolding validate_webhook
  endpoint_parses kind name hook h =
      let title = kind <> " " <> U.quote name in
      let valid =
        ((then_check-eq-none
            (wrap_some title (validate_http_url U "webhook endpoint" hook.endpoint))
            (refuse_if (is_blank hook.method) (title <> " requires a webhook method")
              then_check wrap_some (title <> " has an invalid webhook method")
                  (U.new_request_error hook.method hook.endpoint))).0
          h).0 in
      let (u, made) =
        (validate_http_url-parse_endpoint U L.format "webhook endpoint" hook.endpoint).0
          (wrap_some-eq-none _ _ valid) in
      (u, subst (λ p. parse_endpoint L.format p hook.endpoint ≡ ok u) same made)

  pub patch_mutator_made :
      (kind name : String) (o : Option Webhook)
      → validate_webhook U kind name o ≡ none
      → (made : JobMutator J) × (create_patch_mutator L name o ≡ ok made)
  unfolding validate_webhook create_patch_mutator
  patch_mutator_made kind name none h = absurd (cc h)
  patch_mutator_made kind name (some hook) h =
      let (u, parsed) = endpoint_parses kind name hook h in
      (
        json_patch_webhook_mutator L.multierror L.codec L.json_patch L.web L.unmarshal_patch name
            u.text hook.method,
        rw parsed refl,
      )

  pub webhook_validator_made :
      (kind name : String) (o : Option Webhook)
      → validate_webhook U kind name o ≡ none
      → (made : JobValidator J) × (create_webhook_validator L name o ≡ ok made)
  unfolding validate_webhook create_webhook_validator
  webhook_validator_made kind name none h = absurd (cc h)
  webhook_validator_made kind name (some hook) h =
      let (u, parsed) = endpoint_parses kind name hook h in
      (
        webhook_validator L.multierror L.web L.unmarshal_verdict name u.text hook.method,
        rw parsed refl,
      )

  is_true_of_negation : (b : Bool) → not b ≡ false → b ≡ true
  is_true_of_negation true h = refl
  is_true_of_negation false h = absurd (cc h)

  missing :
      (kind name : String) (has : Bool) → ¬ (validate_opa_sdk_rule U kind name none has ≡ none)
  unfolding validate_opa_sdk_rule
  missing kind name true h = cc h
  missing kind name false h = cc h

  module _ (sdk : Option (OpaSdkClient J)) (has : Bool)
      (given : has ≡ true → (opa : OpaSdkClient J) × (sdk ≡ some opa)) where
    -- A valid decision path is accepted by the constructors.
    bundle_accepted :
        (kind name : String) (rule : OpaSdkRule)
        → validate_opa_sdk_rule U kind name (some rule) has ≡ none
        → (opa : OpaSdkClient J) × (check_bundle sdk rule.path ≡ ok opa)
    unfolding validate_opa_sdk_rule
    bundle_accepted kind name rule h =
        let (asked, path) = (then_check-eq-none _ _).0 h in
        let (opa, found) =
          given (is_true_of_negation has ((refuse_if-eq-none (not has) _).0 asked)) in
        let full =
          is_empty-trim_space rule.path ((refuse_if-eq-none (is_blank rule.path) _).0 path) in
        (opa, rw (found, full) refl)

    pub bundle_mutator_made :
        (kind name : String) (o : Option OpaSdkRule)
        → validate_opa_sdk_rule U kind name o has ≡ none
        → (made : JobMutator J) × (create_bundle_mutator L name o sdk ≡ ok made)
    unfolding create_bundle_mutator
    bundle_mutator_made kind name none h = absurd (missing kind name has h)
    bundle_mutator_made kind name (some rule) h =
        let (opa, accepted) = bundle_accepted kind name rule h in
        (
          opa_bundle_mutator L.multierror L.format L.codec L.json_patch name rule.path opa,
          rw accepted refl,
        )

    pub bundle_validator_made :
        (kind name : String) (o : Option OpaSdkRule)
        → validate_opa_sdk_rule U kind name o has ≡ none
        → (made : JobValidator J) × (create_bundle_validator L name o sdk ≡ ok made)
    unfolding create_bundle_validator
    bundle_validator_made kind name none h = absurd (missing kind name has h)
    bundle_validator_made kind name (some rule) h =
        let (opa, accepted) = bundle_accepted kind name rule h in
        (opa_bundle_validator L.multierror L.format name rule.path opa, rw accepted refl)
