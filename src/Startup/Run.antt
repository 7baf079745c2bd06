-- ===== src/Startup/Run.antt =====
-- cmd/nacp/nacp.go: `setupOpaSDK` and `run`, as the events from start to end. What the server meets is a
-- parameter: the error that it ends with, or a signal and the error of its shutdown.
use nacp.Common.{ℕ, String, Bool, ◌||◌, Option, none, some, List, [], ◌∷◌, ◌++◌, if◌then◌else◌}
use nacp.GoError.{GoError, wrap, Result, ok, err}
use nacp.Config.{Config, OpaSdk}
use nacp.Mutator.OpaBundle.{OpaSdkClient}
use nacp.Effects.{
  Resource, opa_engine, Event, stopped, signals_caught, signals_restored, served, server_shut_down,
  returned, continues, Called, Flow, done, behind, ◌and_then◌, deferring,
}
use nacp.Logging.{logging_of, new_logger_factory_from_config}
use nacp.Telemetry.{TelemetryLibrary, Setup, set_up_otel_sdk, shutdown}
use nacp.Startup.Engine.{OpaEngine, build_opa_sdk}
use nacp.Startup.{build_config, Network, Server, Built, panicked, returns, build_server}

-- How serving ends: the server stops by itself, with an error that is never nil, or a signal arrives,
-- and `Shutdown` returns.
pub data Served : Type 0 where
  stopped_with : GoError → Served
  signalled : Option GoError → Served

pub record Machine (J R S : Type 0) : Type 1 where
  pub network : Network J R S
  pub engine : OpaEngine J
  pub telemetry : TelemetryLibrary
  pub to_upper : String → String
  -- `ListenAndServeTLS` with a certificate and a key, or `ListenAndServe`.
  pub serve : Option (String × String) → Server J → Served
  -- `errors.Is(err, http.ErrServerClosed)`
  pub is_server_closed : GoError → Bool

-- How `run` ends: with an error that may be nil, or by a panic.
pub data Exit : Type 0 where
  panics : Exit
  exits : Option GoError → Exit

-- A run: what happens, how it ends, and the value at its end of the `err` that the block of the
-- telemetry set-up declares, which is not the `err` that `run` returns.
pub record Run : Type 0 where
  pub events : List Event
  pub exit : Exit
  pub block_err : Option GoError

-- The values of `OtelLogging.Enabled`, `Metrics.Enabled` and `Tracing.Enabled`: none if a pointer is
-- nil, since all three are read before anything else is done.
unfoldable pub otel_flags : Config → Option (Bool × Bool × Bool)
otel_flags c = elim c.telemetry [
  | none ↦ none
  | some t ↦ elim t.logging [
    | none ↦ none
    | some l ↦ elim l.otel_logging [
      | none ↦ none
      | some o ↦ elim o.enabled [
        | none ↦ none
        | some logging ↦ elim t.metrics [
          | none ↦ none
          | some m ↦ elim t.tracing [ none ↦ none | some r ↦ some (logging, m.enabled, r.enabled) ]
        ]
      ]
    ]
  ]
]

-- The functions that a returned shutdown function calls; one is returned where there is no error.
abbrev pub shutdown_list : Setup → List Resource
shutdown_list s = elim s.shutdown_funcs [ none ↦ [] | some fs ↦ fs ]

-- `c.Tls.CertFile` and `c.Tls.KeyFile`, if `c.Tls` is not nil.
abbrev pub key_files : Config → Option (String × String)
key_files c = elim c.tls [ none ↦ none | some t ↦ some (t.cert_file, t.key_file) ]

module _ {J R S : Type 0} (M : Machine J R S) where
  -- `setupOpaSDK`, and `run` up to the deferred `stopOPA`: the SDK, and what the deferred call does.
  unfoldable pub set_up_opa_sdk : Option OpaSdk → Flow Exit (Option (OpaSdkClient J) × List Event)
  set_up_opa_sdk none = record { events = []; progress = continues (none, []) }
  set_up_opa_sdk (some c) =
      let built = build_opa_sdk M.engine c in
      record {
        events = built.events;
        progress = elim built.result [
          | err e ↦ returned (exits (some (wrap "failed to build OPA SDK" e)))
          | ok opa ↦ continues (some opa, stopped opa_engine ∷ [])
        ];
      }

  -- `run` behind the start of the server.
  unfoldable pub await_server : Served → Called Exit
  await_server (stopped_with e) =
      behind (served ∷ []) (done (exits (if M.is_server_closed e then none else some e)))
  await_server (signalled none) =
      behind (served ∷ signals_restored ∷ server_shut_down ∷ []) (done (exits none))
  await_server (signalled (some e)) =
      behind (served ∷ signals_restored ∷ server_shut_down ∷ [])
        (done (exits (some (wrap "failed to shut down server" e))))

  -- `run` behind `buildServer`.
  unfoldable pub serve_built : Config → Built (Server J) → Called Exit
  unfolding await_server
  serve_built c (panicked e) = done panics
  serve_built c (returns (err e)) = done (exits (some (wrap "failed to build server" e)))
  serve_built c (returns (ok server)) = await_server (M.serve (key_files c) server)

  -- `run` behind the set-up of the OPA SDK.
  unfoldable pub run_server : Config → Option (OpaSdkClient J) → Called Exit
  unfolding serve_built
  run_server c sdk = serve_built c (build_server M.network c sdk)

  -- `run` behind the set-up of telemetry.
  unfoldable pub run_opa : Config → Called Exit
  unfolding set_up_opa_sdk run_server
  run_opa c = set_up_opa_sdk c.opa_sdk and_then λ o. deferring (run_server c o.0) o.1

  -- `run` behind the set-up of telemetry, which has returned: the error, or the shutdown function
  -- that is deferred. The deferred function joins its error onto the `err` of the block, which is nil.
  unfoldable pub with_telemetry : Config → Called Setup → Run
  unfolding run_opa
  with_telemetry c s = elim s.result.error [
    | some e ↦ record {
      events = s.events;
      exit = exits (some (wrap "failed to setup OpenTelemetry" e));
      block_err = some e;
    }
    | none ↦
        let rest = run_opa c in
        let closed = shutdown M.telemetry (shutdown_list s.result) in
        record {
          events = s.events ++ rest.events ++ closed.events;
          exit = rest.result;
          block_err = M.telemetry.errors.join none closed.error;
        }
  ]

  -- `run` behind the logger factory.
  unfoldable pub run_telemetry : Config → Option (Bool × Bool × Bool) → Run
  unfolding with_telemetry run_opa
  run_telemetry c none = record { events = []; exit = panics; block_err = none }
  run_telemetry c (some (logging, metrics, tracing)) =
      let rest = run_opa c in
      if logging || metrics || tracing
      then with_telemetry c (set_up_otel_sdk M.telemetry logging metrics tracing)
      else record { events = rest.events; exit = rest.result; block_err = none }

  -- `run`
  unfoldable pub run : Config → Run
  unfolding run_telemetry
  run c = elim (new_logger_factory_from_config M.to_upper (logging_of c)) [
    | none ↦ record {
      events = signals_caught ∷ signals_restored ∷ [];
      exit = panics;
      block_err = none;
    }
    | some f ↦
        let rest = run_telemetry c (otel_flags c) in
        record rest { events = signals_caught ∷ rest.events ++ signals_restored ∷ [] }
  ]

-- The status that the process exits with: 2 is that of a panic.
abbrev pub status_of : Exit → ℕ
status_of panics = 2
status_of (exits none) = 0
status_of (exits (some e)) = 1

-- `main` behind `buildConfig`, where a nil pointer panics.
unfoldable pub exit_status : {J R S : Type 0} → Machine J R S → Built Config → ℕ
exit_status M (panicked e) = 2
exit_status M (returns (err e)) = 1
exit_status M (returns (ok c)) = status_of (run M c).exit

-- `main`, for the path that the flag `-config` gives.
unfoldable pub main :
    {J R S : Type 0} → Machine J R S → (String → Config → Result Config) → String → ℕ
unfolding exit_status
main M decode_file path = exit_status M (build_config M.network.urls decode_file path)
