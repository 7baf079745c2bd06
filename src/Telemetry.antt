-- ===== src/Telemetry.antt =====
-- pkg/otel/otel.go: the set-up of OpenTelemetry. The exporters and the providers are a parameter: which
-- exporters can be made, and the errors of `Shutdown` and `ForceFlush`. Contexts, and the attributes
-- and options of the providers, are left out.
pub mod Laws
use nacp.Common.{Bool, true, false, Option, none, some, List, [], ◌∷◌, ◌++◌}
use nacp.GoError.{GoError, Joiner}
use nacp.Effects.{
  Resource, tracer_provider, meter_provider, logger_provider, trace_exporter, Event, started,
  stopped, flushed, propagator_set, applied, Called, returned, continues, Flow, done, behind,
  ◌and_then◌,
}

pub record TelemetryLibrary : Type 0 where
  pub errors : Joiner
  -- The error of `otlptracehttp.New`, `otlpmetrichttp.New` or `otlploghttp.New`, by the provider that
  -- the exporter is for.
  pub exporter_error : Resource → Option GoError
  pub shutdown_error : Resource → Option GoError
  pub flush_error : Resource → Option GoError

-- What `SetupOTelSDK` returns. Its shutdown function is the list of what it shuts down.
pub record Setup : Type 0 where
  pub shutdown_funcs : Option (List Resource)
  pub error : Option GoError

-- The error of a series of calls, and what they do.
pub record Calls : Type 0 where
  pub events : List Event
  pub error : Option GoError
  pub shutdown_funcs : List Resource

-- `shutdownFnAppender`
abbrev pub append_shutdown : List Resource → Resource → List Resource
append_shutdown fs f = fs ++ f ∷ []

abbrev apply_some : Option Resource → List Event
apply_some none = []
apply_some (some r) = applied r ∷ []

-- `ApplyProviders`
unfoldable pub apply_providers : Option Resource → Option Resource → Option Resource → List Event
apply_providers tp mp lp = propagator_set ∷ apply_some tp ++ apply_some mp ++ apply_some lp

module _ (L : TelemetryLibrary) where
  open L use {errors, exporter_error, shutdown_error, flush_error}

  -- The loop of `shutdown` in `cleanupConfig`, which forgets the functions at its end.
  run_shutdowns : Option GoError → List Resource → Calls
  run_shutdowns e [] = record { events = []; error = e; shutdown_funcs = [] }
  run_shutdowns e (f ∷ fs) =
      let rest = run_shutdowns (errors.join e (shutdown_error f)) fs in
      record rest { events = stopped f ∷ rest.events }

  -- `shutdown`
  unfoldable pub shutdown : List Resource → Calls
  unfolding run_shutdowns
  shutdown fs = run_shutdowns none fs

  -- `handleErr`
  unfoldable pub handle_err : GoError → List Resource → Calls
  handle_err e fs = let c = shutdown fs in record c { error = errors.join (some e) c.error }

  -- The block of `SetupOTelSDK` for one provider: the provider, if it is enabled, and the shutdown
  -- functions behind it. It returns early, with the error of `handleErr`, if the exporter fails.
  unfoldable pub set_up_provider :
      Bool → Resource → List Resource → Flow Setup (Option Resource × List Resource)
  unfolding handle_err
  set_up_provider false r fs = record { events = []; progress = continues (none, fs) }
  set_up_provider true r fs = elim (exporter_error r) [
    | some e ↦
        let c = handle_err e fs in
        record {
          events = c.events;
          progress = returned (record { shutdown_funcs = none; error = c.error });
        }
    | none ↦ record { events = started r ∷ []; progress = continues (some r, append_shutdown fs r) }
  ]

  -- `SetupOTelSDK`
  unfoldable pub set_up_otel_sdk : Bool → Bool → Bool → Called Setup
  unfolding set_up_provider
  set_up_otel_sdk logging metrics tracing = set_up_provider tracing tracer_provider [] and_then λ t.
      set_up_provider metrics meter_provider t.1 and_then λ m.
      set_up_provider logging logger_provider m.1 and_then λ l.
      behind (apply_providers t.0 m.0 l.0)
        (done (record { shutdown_funcs = some l.1; error = none }))

  -- The function `flush` of `SetupOTelSDKWith`.
  run_flushes : Option GoError → List Resource → Calls
  run_flushes e [] = record { events = []; error = e; shutdown_funcs = [] }
  run_flushes e (f ∷ fs) =
      let rest = run_flushes (errors.join e (flush_error f)) fs in
      record rest { events = flushed f ∷ rest.events }

  unfoldable pub flush : Calls
  unfolding run_flushes
  flush = run_flushes none (tracer_provider ∷ meter_provider ∷ [])

-- `SetupOTelSDKWith`, for a logger provider of the caller.
unfoldable pub set_up_otel_sdk_with : Option Resource → Called Setup
set_up_otel_sdk_with logger =
    behind
      (started tracer_provider
        ∷ started meter_provider
        ∷ apply_providers (some tracer_provider) (some meter_provider) logger)
      (done (record {
        shutdown_funcs = some (
            append_shutdown (append_shutdown (append_shutdown [] tracer_provider) meter_provider)
              trace_exporter);
        error = none;
      }))
