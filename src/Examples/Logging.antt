-- ===== src/Examples/Logging.antt =====
-- The loggers of the default configuration, and telemetry of which one exporter fails.
use nacp.Common.{
  ◌↔◌, ◌≡◌, refl, String, true, false, Option, none, some, [], ◌∷◌, ◌==◌, if◌then◌else◌,
}
use nacp.GoError.{GoError, message, multi, of_errors, Joiner, IsJoining, ok, returns}
use nacp.Config.{Telemetry, Logging, SlogLogging}
use nacp.Config.Load.{default_config, load_config}
use nacp.Effects.{
  Resource, tracer_provider, meter_provider, started, stopped, propagator_set, applied, flushed,
}
use nacp.Telemetry.{
  TelemetryLibrary, set_up_otel_sdk, shutdown, set_up_otel_sdk_with, apply_providers, flush,
}
use nacp.Telemetry.Laws.{enabled, Sets, set_up_otel_sdk-Sets}
use nacp.Logging.{
  convert, level_info, level_debug, severity_info, severity_debug, Leveler, new_leveler, set_level,
  logging_of, new_logger_factory_from_config,
}
use nacp.Logging.Levels.{leveler-agrees, last_level, set_all, severity_of}
use nacp.Logging.Loggers.{load_config-level, with_level}
use nacp.Examples.Config.{urls, default_loads}

-- As far as the examples need it.
abbrev pub upper : String → String
upper s = if s == "info" then "INFO" else s

abbrev leveler : Leveler
leveler = record { slog_var = level_info; minsev_var = severity_info }

abbrev first_leveler : Leveler
first_leveler = record { slog_var = level_debug; minsev_var = severity_debug }

made_leveler : new_leveler "DEBUG" ≡ some first_leveler
unfolding new_leveler convert
made_leveler = refl

levels_set : set_all ("ERROR" ∷ "INFO" ∷ []) first_leveler ≡ some leveler
unfolding set_level convert
levels_set = refl

levels_kept :
    (convert (last_level "DEBUG" ("ERROR" ∷ "INFO" ∷ [])) ≡ some (level_info, severity_info))
    × (severity_of level_info ≡ severity_info)
levels_kept =
    leveler-agrees "DEBUG" ("ERROR" ∷ "INFO" ∷ []) first_leveler leveler made_leveler levels_set

verbose_unknown : convert (upper "verbose") ≡ none
unfolding convert
verbose_unknown = refl

default_decoded :
    load_config urls (λ n base. ok default_config) "nacp.hcl" ≡ returns (ok default_config)
unfolding load_config
default_decoded = default_loads

load_config-level_example :
    (load_config urls (λ n base. ok (with_level "verbose" default_config)) "nacp.hcl"
      ≡ returns (ok (with_level "verbose" default_config)))
    × (new_logger_factory_from_config upper (logging_of (with_level "verbose" default_config))
        ≡ none)
load_config-level_example =
    load_config-level urls upper "nacp.hcl" "verbose" default_config default_config default_decoded
      verbose_unknown

abbrev pub default_slog : SlogLogging
default_slog = record {
  text = some true;
  text_out = some "stdout";
  json = some false;
  json_out = some "stdout";
}

abbrev pub default_logging : Logging
default_logging = record {
  level = "info";
  slog_logging = some default_slog;
  otel_logging = some (record { enabled = some false });
}

abbrev default_telemetry : Telemetry
default_telemetry = record {
  logging = some default_logging;
  metrics = some (record { enabled = false });
  tracing = some (record { enabled = false });
}

info_known : convert (upper "info") ≡ some (level_info, severity_info)
unfolding convert
info_known = refl

-- Two errors make a list.
abbrev join : Option GoError → Option GoError → Option GoError
join none none = none
join none (some f) = some (multi (of_errors (f ∷ [])))
join (some e) none = some (multi (of_errors (e ∷ [])))
join (some e) (some f) = some (multi (of_errors (e ∷ f ∷ [])))

join-eq-none : (e f : Option GoError) → (join e f ≡ none) ↔ ((e ≡ none) × (f ≡ none))
join-eq-none none none = (λ h. (refl, refl), λ h. refl)
join-eq-none none (some f) = (λ h. absurd (cc h), λ h. absurd (cc (h.1)))
join-eq-none (some e) none = (λ h. absurd (cc h), λ h. absurd (cc (h.0)))
join-eq-none (some e) (some f) = (λ h. absurd (cc h), λ h. absurd (cc (h.0)))

abbrev pub joiner : Joiner
joiner = record { join = join }

pub joiner-IsJoining : IsJoining joiner
joiner-IsJoining = record { join-eq-none = join-eq-none }

abbrev no_meter : Resource → Option GoError
no_meter meter_provider = some (message "no exporter")
no_meter r = none

-- The exporter of metrics cannot be made, and providers complain when they are shut down.
abbrev pub failing : TelemetryLibrary
failing = record {
  errors = joiner;
  exporter_error = no_meter;
  shutdown_error = λ r. some (message "timeout");
  flush_error = λ r. none;
}

set_up_otel_sdk-Sets_example :
    Sets failing (enabled true true true) (set_up_otel_sdk failing true true true)
set_up_otel_sdk-Sets_example = set_up_otel_sdk-Sets failing joiner-IsJoining true true true

-- What is done there: the tracer is stopped, once, and nothing is put in use.
failing_events :
    (set_up_otel_sdk failing true true true).events
    ≡ started tracer_provider ∷ stopped tracer_provider ∷ []
unfolding set_up_otel_sdk shutdown
failing_events = refl

-- `SetupOTelSDKWith` puts both of its providers in use; the trace exporter of the caller is shut down
-- last.
with_events :
    (set_up_otel_sdk_with none).events
    ≡ started tracer_provider
      ∷ started meter_provider
      ∷ propagator_set
      ∷ applied tracer_provider
      ∷ applied meter_provider
      ∷ []
unfolding set_up_otel_sdk_with apply_providers
with_events = refl

flush_events : (flush failing).events ≡ flushed tracer_provider ∷ flushed meter_provider ∷ []
unfolding flush
flush_events = refl
