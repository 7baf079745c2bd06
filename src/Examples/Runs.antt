-- ===== src/Examples/Runs.antt =====
-- Runs of the program from start to end, with OPA and tracing.
use nacp.Common.{String, ℕ, ◌≡◌, ◌↔◌, refl, true, false, none, some, [], ◌∷◌}
use nacp.Common.Text.{trim_space}
use nacp.GoError.{message, multi, of_errors, Result, ok}
use nacp.Config.{Config}
use nacp.Config.Validate.{
  validate, found, validate_http_url, validate_webhook, validate_listener, validate_nomad_config,
  validate_controllers, validate_validator, validate_mutator, validate_validators,
  validate_mutators,
}
use nacp.Mutator.OpaBundle.{OpaSdkClient}
use nacp.Value.{null}
use nacp.Logging.{
  LoggerFactory, Leveler, new_leveler, convert, factory_of, writer_of, logging_of,
  new_logger_factory_from_config,
}
use nacp.Effects.{
  IsBalanced, tracer_provider, opa_config, opa_engine, started, stopped, applied, propagator_set,
  signals_caught, signals_restored, served, server_shut_down,
}
use nacp.Telemetry.{TelemetryLibrary, set_up_otel_sdk, set_up_provider, shutdown, apply_providers}
use nacp.Factory.{
  create_mutator, create_mutators, create_validator, create_validators, build_handler,
}
use nacp.Remote.{parse_endpoint}
use nacp.Startup.{
  build_config, build_server, build_parts, build_listener, returns, panicked, build_behind,
  new_server,
}
use nacp.Startup.Engine.{build_opa_sdk, await_opa}
use nacp.Startup.Run.{
  exit_status, main, Machine, signalled, exits, panics, run, run_telemetry, with_telemetry, run_opa,
  set_up_opa_sdk, run_server, await_server, otel_flags,
}
use nacp.Startup.Releases.{run-IsBalanced}
use nacp.Startup.Endings.{Succeeds, main_iff}
use nacp.Config.Load.{load_config, set_defaults, check_outs, set_notation_defaults}
use nacp.Examples.Config.{urls}
use nacp.Examples.Factory.{platform, built}
use nacp.Examples.Logging.{default_logging, upper, joiner, joiner-IsJoining}
use nacp.Examples.Startup.{
  network, secure, backend, strict, secure_listener, secure_transport, nomad, meter_takes, fussy,
  fussy_panics,
}

-- Telemetry that complains when it is shut down.
abbrev complaining : TelemetryLibrary
complaining = record {
  errors = joiner;
  exporter_error = λ r. none;
  shutdown_error = λ r. some (message "timeout");
  flush_error = λ r. none;
}

abbrev opa : OpaSdkClient ℕ
opa = record { decision = λ path input. ok null }

-- A machine whose server runs until a signal arrives, and then shuts down in time.
abbrev machine : Machine ℕ (Unit {0}) (Unit {0})
machine = record {
  network = network;
  engine = record { open_error = λ path. none; new_opa = λ c. ok opa; awaited = none };
  telemetry = complaining;
  to_upper = upper;
  serve = λ keys s. signalled none;
  is_server_closed = λ e. false;
}

abbrev traced : Config
traced = record secure {
  telemetry = some (record {
    logging = some default_logging;
    metrics = some (record { enabled = false });
    tracing = some (record { enabled = true });
  });
  opa_sdk = some (record { id = "nacp"; config_path = "opa.yaml" });
}

run-IsBalanced_example : IsBalanced (run machine traced).events
run-IsBalanced_example = run-IsBalanced machine joiner-IsJoining traced

traced_valid : validate urls (some traced) ≡ none
unfolding validate validate_listener validate_nomad_config validate_http_url validate_controllers
    validate_mutators validate_validators found validate_mutator validate_validator validate_webhook
    trim_space
traced_valid = refl

traced_handler : build_handler platform (some opa) traced ≡ ok built
unfolding build_handler create_mutators create_mutator create_validators create_validator
    parse_endpoint
traced_handler = refl

traced_parts : build_parts network traced nomad (some opa) ≡ ok (backend, none, built)
unfolding build_parts
traced_parts = rw (secure_transport, traced_handler, build_parts) refl

traced_builds :
    build_server network traced (some opa)
    ≡ returns (ok (new_server network traced backend none (some strict) built))
unfolding build_server build_behind build_listener
traced_builds =
    rw (traced_valid, traced_parts, meter_takes.1, build_server, build_behind)
      (rw (secure_listener, build_listener) refl)

traced_logger :
    (f : LoggerFactory × Leveler) × (new_logger_factory_from_config upper (logging_of traced)
      ≡ some f)
unfolding new_logger_factory_from_config new_leveler convert factory_of writer_of
traced_logger = (_, refl)

-- Shutting down goes in the order that is the reverse of starting up, and the complaint of telemetry
-- stays in the variable of its block.
traced_ends : run machine traced ≡ record {
  events =
      signals_caught
      ∷ started tracer_provider
      ∷ propagator_set
      ∷ applied tracer_provider
      ∷ started opa_config
      ∷ started opa_engine
      ∷ stopped opa_config
      ∷ served
      ∷ signals_restored
      ∷ server_shut_down
      ∷ stopped opa_engine
      ∷ stopped tracer_provider
      ∷ signals_restored
      ∷ [];
  exit = exits none;
  block_err = some (multi (of_errors (multi (of_errors (message "timeout" ∷ [])) ∷ [])));
}
unfolding run run_telemetry with_telemetry run_opa set_up_opa_sdk run_server await_server otel_flags
    build_opa_sdk await_opa set_up_otel_sdk set_up_provider shutdown apply_providers
traced_ends =
    rw (traced_logger.1, traced_builds, run, run_telemetry, with_telemetry, run_opa, run_server)
      refl

abbrev traced_decode : String → Config → Result Config
traced_decode name c = ok traced

main_iff_example : (main machine traced_decode "nacp.hcl" ≡ 0) ↔ (
    (c : Config) × (build_config urls traced_decode "nacp.hcl" ≡ returns (ok c))
    × Succeeds machine joiner-IsJoining c)
main_iff_example = main_iff machine joiner-IsJoining traced_decode "nacp.hcl"

traced_built : build_config urls traced_decode "nacp.hcl" ≡ returns (ok traced)
unfolding build_config load_config set_defaults check_outs set_notation_defaults
traced_built = rw (traced_valid) refl

-- The process ends with status 0, although telemetry complains.
traced_passes : main machine traced_decode "nacp.hcl" ≡ 0
unfolding main exit_status
traced_passes = rw (traced_built, traced_ends, main, exit_status) refl

-- A configuration without telemetry: `LoadConfig` reads a nil pointer, and the process panics.
untraced_panics : main machine (λ name c. ok (record traced { telemetry = none })) "nacp.hcl" ≡ 2
unfolding main exit_status build_config load_config set_defaults check_outs set_notation_defaults
untraced_panics = refl

-- The same machine, where the meter refuses an instrument.
abbrev refused : Machine ℕ (Unit {0}) (Unit {0})
refused = record machine { network = record network { meter = fussy } }

refused_parts : build_parts refused.network traced nomad (some opa) ≡ ok (backend, none, built)
unfolding build_parts
refused_parts = rw (secure_transport, traced_handler, build_parts) refl

refused_builds : build_server refused.network traced (some opa) ≡ panicked (message "refused")
unfolding build_server build_behind build_listener
refused_builds =
    rw (traced_valid, refused_parts, fussy_panics, build_server, build_behind, build_listener) refl

-- The panic of `newMetrics` passes through `run`, whose deferred calls stop OPA and telemetry.
refused_ends :
    ((run refused traced).exit ≡ panics)
    × ((run refused traced).events
        ≡ signals_caught
          ∷ started tracer_provider
          ∷ propagator_set
          ∷ applied tracer_provider
          ∷ started opa_config
          ∷ started opa_engine
          ∷ stopped opa_config
          ∷ stopped opa_engine
          ∷ stopped tracer_provider
          ∷ signals_restored
          ∷ [])
unfolding run run_telemetry with_telemetry run_opa set_up_opa_sdk run_server otel_flags
    build_opa_sdk await_opa set_up_otel_sdk set_up_provider shutdown apply_providers
refused_ends =
    rw (traced_logger.1, refused_builds, run, run_telemetry, with_telemetry, run_opa, run_server)
      (refl, refl)
