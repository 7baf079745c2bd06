-- ===== src/Examples/Config.antt =====
-- A configuration with two controllers.
use nacp.Common.{String, ◌≡◌, ◌↔◌, refl, ◌<>◌, false, none, some, [], ◌∷◌, map, All}
use nacp.Common.Text.{trim_space}
use nacp.Common.Int.{pos}
use nacp.GoError.{Result, ok, returns, panicked, nil_dereference}
use nacp.Config.{Webhook, Validator, Mutator, Config}
use nacp.Config.Load.{default_config, set_defaults, check_outs, load_config, slog_of}
use nacp.Config.Load.Laws.{HasOuts, LacksOut, load_config_iff}
use nacp.Config.Validate.{
  UrlLibrary, is_blank, validate, found, validate_http_url, validate_webhook, validate_listener,
  validate_nomad_config, validate_controllers, validate_validator, validate_mutator,
  validate_validators, validate_mutators,
}
use nacp.Config.Validate.Names.{Distinct}
use nacp.Config.Validate.Controllers.{IsValidMutator, IsValidValidator, validate_controllers_iff}
use nacp.Config.Validate.Listener.{IsPort, HasKeyPair, HasOpaSdk, validate_iff}

abbrev pub urls : UrlLibrary
urls = record {
  parse_url = λ s. ok (record { scheme = "http"; host = "localhost"; path = ""; text = s });
  new_request_error = λ method url. none;
  quote = λ s. "'" <> s <> "'";
}

abbrev webhook : Webhook
webhook = record { endpoint = "http://localhost/policy"; method = "POST" }

abbrev pub checker : Validator
checker = record {
  type = "webhook";
  name = "policy";
  opa_rule = none;
  opa_sdk_rule = none;
  webhook = some webhook;
  resolve_token = false;
  notation = none;
}

abbrev pub patcher : Mutator
patcher = record {
  type = "json_patch_webhook";
  name = "policy";
  opa_rule = none;
  opa_sdk_rule = none;
  webhook = some webhook;
  resolve_token = false;
}

abbrev pub config : Config
config = record {
  port = pos 6464;
  bind = "0.0.0.0";
  tls = none;
  nomad = some (record { address = "http://localhost:4646"; tls = none });
  validators = checker ∷ [];
  mutators = patcher ∷ [];
  telemetry = none;
  opa_sdk = none;
}

validate_iff_example : (validate urls (some config) ≡ none) ↔ (
    IsPort config.port
    × (is_blank config.bind ≡ false)
    × HasKeyPair config.tls
    × HasOpaSdk config.opa_sdk
    × (validate_nomad_config urls config.nomad ≡ none)
    × (validate_controllers urls config ≡ none))
validate_iff_example = validate_iff urls config

validate_controllers_iff_example : (validate_controllers urls config ≡ none) ↔ (
    All (IsValidMutator urls false) config.mutators
    × All (IsValidValidator urls false) config.validators
    × Distinct (map (λ m. m.name) config.mutators)
    × Distinct (map (λ v. v.name) config.validators))
validate_controllers_iff_example = validate_controllers_iff urls config

-- The mutator and the validator have one name, and the configuration passes.
pub config_test : validate urls (some config) ≡ none
unfolding validate validate_listener validate_nomad_config validate_http_url validate_controllers
    validate_mutators validate_validators found validate_mutator validate_validator validate_webhook
    trim_space
config_test = refl

abbrev pub decode_file : String → Config → Result Config
decode_file name c = ok c

pub default_loads : load_config urls decode_file "nacp.hcl" ≡ returns (ok default_config)
unfolding load_config set_defaults check_outs validate validate_listener validate_nomad_config
    validate_http_url validate_controllers validate_mutators validate_validators trim_space
default_loads = refl

load_config_iff_example :
    ((load_config urls decode_file "nacp.hcl" ≡ returns (ok default_config)) ↔ (
      (decoded : Config) × (decode_file "nacp.hcl" default_config ≡ ok decoded)
      × (set_defaults decoded ≡ default_config)
      × HasOuts (slog_of default_config)
      × (validate urls (some default_config) ≡ none)))
    × ((load_config urls decode_file "nacp.hcl" ≡ panicked nil_dereference) ↔ (
        (decoded : Config) × (decode_file "nacp.hcl" default_config ≡ ok decoded)
        × LacksOut (slog_of (set_defaults decoded))))
load_config_iff_example = load_config_iff urls decode_file "nacp.hcl" default_config
