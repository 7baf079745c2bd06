-- ===== src/Examples/Serving.antt =====
-- Requests to the server of `Startup`, one at a time and together.
use nacp.Common.{◌+◌, map, ◌≡◌, refl, true, false, none, some, [], ◌∷◌, inl}
use nacp.GoError.{Result, ok}
use nacp.Http.{max_bytes_reader}
use nacp.Admission.Spec.{transform_all}
use nacp.Factory.Lawful.{transform_of, policy_of}
use nacp.Proxy.Context.{
  Request, get_client_ip, resolve_request_context, limit_body, with_request_context,
  request_context, is_actionable,
}
use nacp.Proxy.Routes.{
  is_register, is_create, is_update, is_plan, is_validate, job_path_regex, job_plan_path_regex,
  strip_prefix,
}
use nacp.Proxy.Admits.{Forwards}
use nacp.Startup.Serving.{answer_to, server-Forwards}
use nacp.Proxy.Agreement.{is_forwarded, passes}
use nacp.Startup.Validating.{IsValidation, server-passes}
use nacp.Startup.Crowds.{weigh_each, server-run, server-counts}
use nacp.Proxy.Concurrent.Events.{weigh}
use nacp.Proxy.Concurrent.{finished, waiting, run as run_crowd}
use nacp.Examples.Crowds.{crowd, alternate, alternate_fair}
use nacp.Examples.Data.{multierror, flat, codec, faithful, world}
use nacp.Examples.Factory.{built}
use nacp.Examples.Traffic.{envelopes, codecs, request, tokens, answers, responder}
use nacp.Examples.Proxy.{can_encode}
use nacp.Examples.Startup.{
  network, secure, backend, server, secure_transport, secure_handler, secure_builds, nomad,
}

-- A job that the proxy is asked to register.
abbrev job : Request
job = request "/v1/jobs" (7 ∷ [])

abbrev job_resolved : Request
job_resolved = with_request_context job (request_context tokens false job none)

job_actionable : is_actionable job ≡ true
unfolding is_actionable is_register is_create
job_actionable = refl

job_limited : limit_body job ≡ job
unfolding limit_body max_bytes_reader
job_limited = rw (job_actionable, limit_body) refl

resolved_job : resolve_request_context tokens false job ≡ ok job_resolved
unfolding resolve_request_context
resolved_job = rw (job_actionable, job_limited, resolve_request_context) refl

job_registers : is_register job_resolved.method job_resolved.path ≡ true
unfolding is_register is_create
job_registers = refl

server-Forwards_example :
    (result : Result Request) × ((server.handler job world).0
      ≡ answer_to network backend none built result)
    × Forwards multierror codec flat faithful transform_of policy_of envelopes built job_resolved
        (record { job = some 7; rest = tt })
        (transform_all transform_of job_resolved.values.request_context built.mutators 7 [])
        result
server-Forwards_example =
    server-Forwards network flat faithful secure none server nomad backend none built envelopes job
      job_resolved (record { job = some 7; rest = tt }) 7 world secure_builds refl refl
      secure_transport secure_handler resolved_job (inl (job_registers, refl)) refl refl

-- The same job, to be validated.
abbrev inquiry : Request
inquiry = request "/v1/validate/job" (7 ∷ [])

abbrev inquiry_resolved : Request
inquiry_resolved = with_request_context inquiry (request_context tokens false inquiry none)

inquiry_actionable : is_actionable inquiry ≡ true
unfolding is_actionable is_register is_create is_update is_plan is_validate job_path_regex
    job_plan_path_regex strip_prefix
inquiry_actionable = refl

inquiry_limited : limit_body inquiry ≡ inquiry
unfolding limit_body max_bytes_reader
inquiry_limited = rw (inquiry_actionable, limit_body) refl

resolved_inquiry : resolve_request_context tokens false inquiry ≡ ok inquiry_resolved
unfolding resolve_request_context
resolved_inquiry = rw (inquiry_actionable, inquiry_limited, resolve_request_context) refl

inquiry_validates : IsValidation network inquiry_resolved
unfolding is_register is_create is_update is_plan is_validate job_path_regex job_plan_path_regex
    strip_prefix
inquiry_validates = (refl, refl, refl)

same_context : job_resolved.values.request_context ≡ inquiry_resolved.values.request_context
unfolding request_context get_client_ip
same_context = refl

server-passes_example :
    (a : Result Request) × (b : Result Request) × ((server.handler job world).0
      ≡ answer_to network backend none built a)
    × ((server.handler inquiry world).0 ≡ answer_to network backend none built b)
    × (is_forwarded a ≡ passes b)
server-passes_example =
    server-passes network flat faithful secure none server nomad backend none built envelopes job
      job_resolved inquiry inquiry_resolved (record { job = some 7; rest = tt })
      (record { job = some 7; rest = tt }) 7 world world secure_builds refl refl secure_transport
      secure_handler resolved_job resolved_inquiry same_context (inl (job_registers, refl))
      inquiry_validates can_encode can_encode refl refl refl refl

server-run_example :
    (run_crowd codec codecs responder tokens built answers (alternate 7) (waiting crowd) world).0
    ≡ map (λ r. finished (server.handler r world).0) crowd
server-run_example =
    server-run network faithful secure none server nomad backend none built (alternate 7) crowd
      world world secure_builds refl refl secure_transport secure_handler (alternate_fair 7)

server-counts_example :
    weigh
      (λ e. e.increment)
      (run_crowd codec codecs responder tokens built answers
        (alternate 7)
        (waiting crowd)
        world).1.metrics
    ≡ weigh (λ e. e.increment) world.metrics + weigh_each (λ e. e.increment) server.handler crowd
server-counts_example =
    server-counts (λ e. e.increment) network faithful secure none server nomad backend none built
      (alternate 7) crowd world secure_builds refl refl secure_transport secure_handler
      (alternate_fair 7)
