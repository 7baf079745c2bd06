-- ===== src/Examples/Factory.antt =====
-- The handler of the configuration of `Config`, on the libraries of `Controllers`.
use nacp.Common.{eq_iff, ℕ, ◌≡◌, refl, String, false, none, some, [], ◌∷◌}
use nacp.Common.Int.{pos}
use nacp.GoError.{message, Result, ok}
use nacp.Config.{Validator, Mutator, Config, OpaRule}
use nacp.Admission.{JobHandler}
use nacp.Http.{Bytes, Url}
use nacp.Notation.{NotationLibrary}
use nacp.Remote.{parse_endpoint}
use nacp.Mutator.JsonPatchWebhook.{json_patch_webhook_mutator}
use nacp.Validator.Webhook.{webhook_validator}
use nacp.Factory.{
  build_verifier_if_enabled, Platform, create_mutator, create_mutators, create_validator,
  create_validators, build_handler,
}
use nacp.Factory.Shipped.{Each, IsShippedMutator, IsShippedValidator}
use nacp.Factory.Order.{asks, build_handler-Each, create_validator-ignores}
use nacp.Examples.Data.{multierror, format, codec}
use nacp.Common.Text.{trim_space}
use nacp.Config.Validate.{
  validate, found, validate_http_url, validate_webhook, validate_opa_rule, validate_listener,
  validate_nomad_config, validate_controllers, validate_validator, validate_mutator,
  validate_validators, validate_mutators,
}
use nacp.Factory.Valid.{HasMutatorFiles, HasValidatorFiles}
use nacp.Factory.Completes.{build_handler_of_valid}
use nacp.Opa.{create_query}
use nacp.Examples.Config.{config, checker, patcher, urls}
use nacp.Examples.Controllers.{patches, web, patch_answer, verdict_answer, groups, answers, silence}

abbrev parse : String → Result Url
parse s = urls.parse_url s

-- A notation library that finds no signature.
abbrev notary : NotationLibrary
notary = record {
  Document = Bytes;
  Verifier = Bytes;
  Store = String;
  Repository = String;
  read_file = λ name. ok [];
  unmarshal_document = λ b. ok b;
  new_verifier = λ d dir. ok d;
  new_file_store = λ path. ok path;
  new_repository = λ image. ok image;
  set_plain_http = λ plain r. r;
  set_client = λ store r. r;
  verify = λ v r image attempts. some (message "no signature");
}

abbrev pub platform : Platform ℕ
platform = record {
  multierror = multierror;
  format = format;
  codec = codec;
  json_patch = patches;
  web = web;
  unmarshal_patch = patch_answer;
  unmarshal_verdict = verdict_answer;
  task_groups = groups;
  parse_url = parse;
  read_file = λ name. ok [];
  prepare = λ file source query builtin. ok (answers silence);
  notation = notary;
}

abbrev pub built : JobHandler ℕ
built = record {
  mutators =
      json_patch_webhook_mutator multierror codec patches web patch_answer "policy"
        "http://localhost/policy" "POST"
      ∷ [];
  validators =
      webhook_validator multierror web verdict_answer "policy" "http://localhost/policy" "POST"
      ∷ [];
  resolve_token = false;
}

pub config_builds : build_handler platform none config ≡ ok built
unfolding build_handler create_mutators create_mutator create_validators create_validator
    parse_endpoint
config_builds = refl

build_handler-Each_example :
    Each (IsShippedMutator platform none) config.mutators built.mutators
    × Each (IsShippedValidator platform none) config.validators built.validators
    × (built.resolve_token ≡ asks config.mutators config.validators)
build_handler-Each_example = build_handler-Each platform none config built config_builds

abbrev rule : OpaRule
rule = record { query = "q"; filename = "policy.rego"; notation = none }

abbrev opa_checker : Validator
opa_checker = record checker { type = "opa"; opa_rule = some rule }

create_validator-ignores_example :
    create_validator platform none (record opa_checker {
      opa_rule = some (record rule {
        notation = some (record {
          trust_policy_file = "policy.json";
          trust_store_dir = "store";
          repo_plain_http = false;
          max_sig_attempts = pos 50;
          credential_store_file = "";
        });
      });
    })
    ≡ create_validator platform none opa_checker
create_validator-ignores_example =
    create_validator-ignores platform none opa_checker rule
      (some (record {
        trust_policy_file = "policy.json";
        trust_store_dir = "store";
        repo_plain_http = false;
        max_sig_attempts = pos 50;
        credential_store_file = "";
      }))
      refl

-- A configuration whose mutator asks a policy.
abbrev opa_patcher : Mutator
opa_patcher = record patcher { type = "opa_json_patch"; opa_rule = some rule; webhook = none }

abbrev ruled : Config
ruled = record config { mutators = opa_patcher ∷ [] }

ruled_valid : validate urls (some ruled) ≡ none
unfolding validate validate_listener validate_nomad_config validate_http_url validate_controllers
    validate_mutators validate_validators found validate_mutator validate_validator validate_webhook
    validate_opa_rule trim_space
ruled_valid = refl

ruled_files : HasMutatorFiles platform opa_patcher
unfolding create_query build_verifier_if_enabled
ruled_files is_opa r same = (none, refl, answers silence, refl)

checker_files : HasValidatorFiles platform checker
checker_files = (
  λ is_opa. absurd (cc ((eq_iff "webhook" "opa").1 is_opa)),
  λ is_notation. absurd (cc ((eq_iff "webhook" "notation").1 is_notation)),
)

build_handler_of_valid_example : (h : JobHandler ℕ) × (build_handler platform none ruled ≡ ok h)
build_handler_of_valid_example =
    build_handler_of_valid platform urls refl ruled none ruled_valid (λ h. absurd (cc h))
      (ruled_files, tt) (checker_files, tt)
