-- ===== src/Lib.antt =====
-- NACP, the Nomad admission control proxy: a model of the program and what is proved of it.
--
-- NACP stands between clients and the Nomad API. A request that registers, plans or validates a job
-- passes the configured controllers: mutators change the job one after another, validators judge the
-- result. The request with the mutated job goes on to Nomad, and warnings and errors are put into
-- Nomad's response. All other traffic is proxied.
--
-- The parts, from the request inwards:
--   * Proxy (cmd/nacp/nacp.go). Routes: isRegister, isPlan, isValidate and the two regular expressions,
--     written as matchers on code points. Context: getClientIP, resolveTokenAccessor and
--     resolveRequestContext; a request carries its context values as a record. Handlers:
--     handleRegister and handlePlan (one definition, `admit`), handleValidate and applyAdmission.
--     Responses: the three response handlers, with their common part as `transform_body`. Serve: the
--     handler that newProxyHandler returns. Laws stand in Routes/Laws, Tokens, Admits, Agreement,
--     Framing, Verdicts, Replies, Bypass and Sequences, which is about requests one after another;
--     Passing and Refusals say which requests are refused.
--     Routes/Matching relates the matchers to the regular expressions.
--   * Proxy/Concurrent: requests at the same time, as tasks whose steps mix. Reference is what the proxy
--     answers with no heap and no state; Finishes bounds the steps of a task, Adequate ties the steps
--     to the handlers of Proxy, Tracks and Serves hold the tasks against the reference. Events says
--     which metric events a request makes; Weights, Counts and Totals hold the tasks against that.
--   * Admission (pkg/admissionctrl/controller.go, pkg/admissionctrl/types). A *api.Job is an index into
--     a heap of jobs, so that copies and shared jobs are told apart; the state is that heap and the
--     list of metric events. Spec is the same without pointers; Transforms, Judges and Refines relate
--     the two, Isolation says what the copies are for, Counting is about metrics.
--   * Mutator, Validator (pkg/admissionctrl/mutator, pkg/admissionctrl/validator): a module for each
--     controller that is shipped, with `evaluate` for what its method computes. Payloads turns that
--     into a method over the heap; Webhooks has what the webhook controllers share (an HTTP exchange)
--     and the loops of multierror.Append; Patcher is jsonpatcher.PatchJob; Opa is
--     pkg/admissionctrl/opa; Notation is pkg/admissionctrl/notation; Value is Go's interface{} as
--     JSON and OPA fill it.
--   * Remote (pkg/admissionctrl/remoteutil): context headers, endpoints and the bounded decoding of
--     webhook answers. Endpoints relates the endpoints of the clients to those that
--     Validate accepts, Projection says which headers the context becomes.
--   * Config (pkg/config/config.go): the configuration tree, SanitizeACLToken; Config.Validate with
--     all it calls in Config/Validate; defaults and LoadConfig, with its panic at a nil pointer, in
--     Config/Load, and what it loads in Config/Load/Laws.
--   * Factory (cmd/nacp/nacp.go): createMutators and createValidators, which call the constructors
--     that stand with each controller, and the job handler that buildServer makes of a configuration.
--     Shipped says which controller comes of each block, Made that it is a function of the job,
--     Order in which order they come, Lawful that they obey the laws that Admission asks for. Valid
--     says what construction still needs of the outside where the configuration is valid, Completes
--     that it then comes to an end with a handler.
--   * Startup (cmd/nacp/nacp.go): TLS configurations, buildServer and buildConfig; the OPA SDK in
--     Startup/Engine; run and main in Startup/Run, as the list of what happens and how it ends. Steps,
--     Releases, Endings, Tls and Serving hold the laws; Serving, Validating and Crowds join start-up,
--     construction, proxy and admission.
--   * Telemetry (pkg/otel/otel.go): the set-up of providers and the functions that shut them down.
--     Instruments (pkg/o11y/metric.go): the counters, and newMetrics, whose panic `build_server` has.
--     Logging (pkg/logutil/logutil.go): levels and the handlers of a logger. Effects: events, early
--     returns and deferred calls, and the resources that are held behind a list of events.
--   * GoError: Go's errors, results with errors, and go-multierror. Http: headers, readers, messages.
--   * Common: names of the libraries passed on, tests on numbers, lists, texts, a signed integer.
--   * Examples: small instances of the libraries, and runs of the program on them.
--
-- Parameters. Code outside of the repository is never defined: JSON codecs of jobs, requests and
-- responses, go-multierror (`IsFlattening` is what it documents of Append), errors.Join
-- (`IsJoining`), evanphx/json-patch, OPA, notation, OpenTelemetry, certificates and files, HCL,
-- net/http clients and transports, url.Parse, gzip, formatting verbs, and the copied
-- helper.MergeMultierrorWarnings are records that the definitions take.
--
-- Bounds. Loops recurse on the lists that they run through; no fuel is used but in decimal printing,
-- where n + 1 steps are more than n has digits. The sizes of bodies are natural numbers that are far
-- below 2^63. A Go int of the configuration is only compared with small numbers. A header has one
-- value, under its canonical key. The address of Nomad is taken to have no path of its own, so that
-- the reverse proxy keeps the path of a request, which the response handlers look at again.
--
-- Concurrency. In Proxy/Concurrent the steps of requests mix in any order; a call of a controller, with
-- all that it reads and writes, is one step, and so is a request to Nomad. Nomad, the webhooks and OPA
-- answer the same request in the same way each time. Of the goroutines of start-up only the one that
-- serves is modelled: `run` waits for its end or for a signal, and which comes first is a parameter.
--
-- Not modelled: log lines, trace spans, timeouts and the settings of dialers, the attributes of
-- telemetry, pkg/helper, which is another project's code, and the fixtures of the tests (testutil).
pub mod Common
pub mod GoError
pub mod Value
pub mod Http
pub mod Config
pub mod Remote
pub mod Admission
pub mod Payloads
pub mod Patcher
pub mod Opa
pub mod Webhooks
pub mod Mutator
pub mod Validator
pub mod Proxy
pub mod Notation
pub mod Effects
pub mod Logging
pub mod Telemetry
pub mod Instruments
pub mod Factory
pub mod Startup
pub mod Examples
