-- ===== src/Examples/Startup.antt =====
-- A server with client certificates, and requests to it.
use nacp.Common.{ℕ, ◌≡◌, ◌↔◌, refl, ◌<>◌, true, false, none, some, [], ◌∷◌, if◌then◌else◌, ◌==◌}
use nacp.Common.Text.{trim_space}
use nacp.GoError.{message, ok, err}
use nacp.Config.{Config, NomadServer}
use nacp.Config.Validate.{
  validate, found, validate_http_url, validate_webhook, validate_listener, validate_nomad_config,
  validate_controllers, validate_validator, validate_mutator, validate_validators,
  validate_mutators,
}
use nacp.Http.{Url}
use nacp.Factory.{
  create_mutator, create_mutators, create_validator, create_validators, build_handler,
}
use nacp.Remote.{parse_endpoint}
use nacp.Instruments.{
  Metrics, Meter, recorded, new_metrics, new_nacp_validator_warning_count,
  new_nacp_validator_error_count, new_nacp_mutator_warning_count, new_nacp_mutator_error_count,
  new_nacp_mutator_mutation_count,
}
use nacp.Admission.{Metric}
use nacp.Instruments.Laws.{Accepts, measurement, new_metrics-records}
use nacp.Startup.{
  build_server, build_parts, build_listener, returns, build_behind, new_server, transport_tls,
  listener_tls, create_tls_config, Network, Server, TlsConfig, version_tls12, require_and_verify,
}
use nacp.Startup.Tls.{Demands, build_server-Demands}
use nacp.Examples.Config.{urls, config}
use nacp.Examples.Factory.{platform, built}
use nacp.Examples.Traffic.{codecs, tokens, answers, responder}

abbrev pub network : Network ℕ (Unit {0}) (Unit {0})
network = record {
  platform = platform;
  urls = urls;
  certificates = record {
    read_file = λ name. ok (1 ∷ []);
    append_certs = λ pem. true;
    load_key_pair = λ cert key. ok (2 ∷ []);
    quote = λ s. "'" <> s <> "'";
  };
  codecs = codecs;
  responder = responder;
  token_service = λ u t. tokens;
  round_trip = λ u t. answers;
  meter = record { refusal = λ c. none };
}

-- The configuration of `Config`, on a listener that knows the CA of its clients.
abbrev pub secure : Config
secure = record config {
  tls = some (record {
    cert_file = "cert.pem";
    key_file = "key.pem";
    ca_file = "ca.pem";
    no_client_cert = false;
  });
}

abbrev pub backend : Url
backend = record { scheme = "http"; host = "localhost"; path = ""; text = "http://localhost:4646" }

abbrev pub strict : TlsConfig
strict = record {
  min_version = version_tls12;
  insecure_skip_verify = false;
  certificates = [];
  root_cas = none;
  client_cas = some (1 ∷ []);
  client_auth = require_and_verify;
}

abbrev pub server : Server ℕ
server = new_server network secure backend none (some strict) built

secure_valid : validate urls (some secure) ≡ none
unfolding validate validate_listener validate_nomad_config validate_http_url validate_controllers
    validate_mutators validate_validators found validate_mutator validate_validator validate_webhook
    trim_space
secure_valid = refl

pub secure_listener : listener_tls network.certificates secure.tls ≡ ok (some strict)
unfolding listener_tls create_tls_config
secure_listener = refl

pub secure_transport : transport_tls network.certificates none ≡ ok none
unfolding transport_tls
secure_transport = refl

pub secure_handler : build_handler platform none secure ≡ ok built
unfolding build_handler create_mutators create_mutator create_validators create_validator
    parse_endpoint
secure_handler = refl

abbrev pub nomad : NomadServer
nomad = record { address = "http://localhost:4646"; tls = none }

secure_parts : build_parts network secure nomad none ≡ ok (backend, none, built)
unfolding build_parts
secure_parts = rw (secure_transport, secure_handler, build_parts) refl

pub meter_takes : (m : Metrics) × (new_metrics network.meter ≡ ok m)
unfolding new_metrics new_nacp_validator_warning_count new_nacp_validator_error_count
    new_nacp_mutator_warning_count new_nacp_mutator_error_count new_nacp_mutator_mutation_count
meter_takes = (_, refl)

new_metrics-records_example :
    (((made : Metrics) × (new_metrics network.meter ≡ ok made)) ↔ Accepts network.meter)
    × ((made : Metrics) (e : Metric)
        → new_metrics network.meter ≡ ok made
        → recorded made e ≡ measurement e)
new_metrics-records_example = new_metrics-records network.meter

-- A meter that has no counter of mutations, as one that refuses a name.
abbrev pub fussy : Meter
fussy = record {
  refusal = λ c. if c.name == "nacp.mutator.mutation.count" then some (message "refused") else none;
}

pub fussy_panics : new_metrics fussy ≡ err (message "refused")
unfolding new_metrics new_nacp_validator_warning_count new_nacp_validator_error_count
    new_nacp_mutator_warning_count new_nacp_mutator_error_count new_nacp_mutator_mutation_count
fussy_panics = refl

pub secure_builds : build_server network secure none ≡ returns (ok server)
unfolding build_server build_behind build_listener
secure_builds =
    rw (secure_valid, secure_parts, meter_takes.1, build_server, build_behind)
      (rw (secure_listener, build_listener) refl)

build_server-Demands_example :
    (validate urls (some secure) ≡ none) × Demands network.certificates secure.tls (some strict)
build_server-Demands_example = build_server-Demands network secure none server secure_builds
