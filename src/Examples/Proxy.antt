-- ===== src/Examples/Proxy.antt =====
-- Requests to register, to plan and to validate a job, and others.
use nacp.Common.{
  Option-cases, inl, inr, ◌≡◌, ◌↔◌, ◌⊎◌, ap, refl, String, true, false, none, some, [], ◌∷◌,
}
use mathlib.Core.List.{flat_map}
use nacp.Common.Text.{itoa, codes}
use nacp.GoError.{GoError, wrap, message, multi, of_errors, Result, ok, err, ◌>>=◌}
use nacp.Http.{
  max_bytes_reader, get_header, lookup_header, set_header, Bytes, Reader, buffer, Response,
}
use nacp.Payloads.{mutate_by, validate_by}
use nacp.Admission.{
  apply_admission_controllers, admission_mutators, mutate_all, run_mutator, judge, conclude,
  admission_validators, validate_all, run_validator, copy_job, duplicate, run_copied, tally,
}
use nacp.Admission.Spec.{transform_all}
use nacp.Proxy.Routes.{
  is_register, is_plan, is_validate, is_create, is_update, job_path_regex, job_plan_path_regex,
  strip_prefix,
}
use nacp.Proxy.Routes.Matching.{IsJobPath, IsJobPlanPath}
use nacp.Proxy.Routes.Laws.{IsWrite, routes_iff, slash_id_skipped}
use nacp.Proxy.Context.{
  accept_token, Request, max_admission_body_size, is_actionable, limit_body, with_request_context,
  request_context, resolve_token_accessor, resolve_request_context,
}
use nacp.Proxy.Handlers.{handle_register, admit, handle_validate, apply_admission}
use nacp.Proxy.Agreement.{CanEncode, is_forwarded, passes, admit-passes}
use nacp.Proxy.Admits.{IsLawful, Forwards, Validates, admit-Forwards, handle_validate-Validates}
use nacp.Proxy.Responses.{
  rewrite_as, rewrite_response, is_successful_response, handle_register_response, add_warnings,
  plain_reader, transform_body, modify_proxy_response,
}
use nacp.Proxy.Framing.{IsSound, modify_proxy_response-IsSound, transform_body-plain_reader}
use nacp.Proxy.Tokens.{
  IsLimited, forget, resolve_request_context_bounds, resolve_request_context-forget,
}
use nacp.Proxy.Serve.{nacp_handler}
use nacp.Proxy.Bypass.{relayed, nacp_handler_bypass}
use nacp.Examples.Traffic.{
  envelopes, codecs, request, token, nomad_response, tokens, answers, responder,
}
use nacp.Examples.Data.{
  multierror, flat, codec, faithful, transforms, policies, handler, mutators_lawful,
  validators_lawful, validators-IsPrivate, world,
}

pub lawful :
    IsLawful {R = Unit {0}} multierror codec flat faithful transforms policies envelopes handler
lawful = record {
  mutators = mutators_lawful;
  validators = validators_lawful;
  isolated = validators-IsPrivate;
}

admit-Forwards_example :
    Forwards multierror codec flat faithful transforms policies envelopes handler
      (request "/v1/jobs" (7 ∷ []))
      (record { job = some 7; rest = tt })
      (transform_all transforms none handler.mutators 7 [])
      (admit multierror codec envelopes handler (request "/v1/jobs" (7 ∷ [])) world).0
admit-Forwards_example =
    admit-Forwards multierror codec flat faithful transforms policies envelopes handler
      (request "/v1/jobs" (7 ∷ [])) (record { job = some 7; rest = tt }) 7 world lawful refl refl

handle_validate-Validates_example :
    Validates multierror codec flat faithful transforms policies envelopes handler
      (request "/v1/validate/job" (2 ∷ []))
      (record { job = some 2; rest = tt })
      (transform_all transforms none handler.mutators 2 [])
      (handle_validate multierror codec envelopes handler
        (request "/v1/validate/job" (2 ∷ []))
        world).0
handle_validate-Validates_example =
    handle_validate-Validates multierror codec flat faithful transforms policies envelopes handler
      (request "/v1/validate/job" (2 ∷ [])) (record { job = some 2; rest = tt }) 2 world lawful refl
      refl

other_request : is_actionable (request "/v1/nodes" []) ≡ false
unfolding is_actionable is_register is_plan is_validate is_create is_update job_path_regex
    job_plan_path_regex strip_prefix
other_request = refl

nacp_handler_bypass_example :
    let r' =
      with_request_context
        (request "/v1/nodes" [])
        (request_context tokens true (request "/v1/nodes" []) none) in
    nacp_handler codec codecs responder tokens handler answers (request "/v1/nodes" []) world
    ≡ (relayed codec codecs responder tokens handler answers r' (answers r'), world)
nacp_handler_bypass_example =
    nacp_handler_bypass codec codecs responder tokens handler answers (request "/v1/nodes" []) world
      other_request

-- A job that a validator refuses, and a token that is resolved.
abbrev small_job : Request
small_job = request "/v1/jobs" (2 ∷ [])

abbrev small_job_resolved : Request
small_job_resolved =
    with_request_context (limit_body small_job) (request_context tokens true small_job (some token))

small_job_actionable : is_actionable small_job ≡ true
unfolding is_actionable is_register is_create
small_job_actionable = refl

resolved_token :
    resolve_token_accessor tokens (get_header "X-Nomad-Token" small_job.headers) ≡ ok (some token)
unfolding resolve_token_accessor accept_token get_header lookup_header
resolved_token = refl

resolved_small_job : resolve_request_context tokens true small_job ≡ ok small_job_resolved
unfolding resolve_request_context
resolved_small_job = rw (small_job_actionable, resolve_request_context) (rw resolved_token refl)

abbrev refusal : GoError
refusal =
    wrap "admission controllers send an error, returning error"
      (multi (of_errors (message "too small" ∷ [])))

refused_small_job :
    apply_admission multierror codec codecs handler small_job_resolved world
    ≡ (err refusal, (apply_admission multierror codec codecs handler small_job_resolved world).1)
unfolding apply_admission is_register is_create handle_register admit limit_body is_actionable
    max_bytes_reader apply_admission_controllers admission_mutators mutate_all run_mutator judge
    mutate_by conclude admission_validators validate_all run_validator copy_job duplicate run_copied
    tally validate_by flat_map
refused_small_job = refl

abbrev web_path : String
web_path = "/v1/job/web"

routes_iff_example :
    ((is_register "PUT" web_path ≡ true)
      ↔ (IsWrite "PUT" × ((web_path ≡ "/v1/jobs") ⊎ IsJobPath (codes web_path))))
    × ((is_plan "PUT" web_path ≡ true) ↔ (IsWrite "PUT" × IsJobPlanPath (codes web_path)))
    × ((is_validate "PUT" web_path ≡ true) ↔ (IsWrite "PUT" × (web_path ≡ "/v1/validate/job")))
routes_iff_example = routes_iff "PUT" web_path

slash_id_skipped_example :
    (is_register "PUT" "/v1/job/a/b" ≡ false)
    × (is_plan "PUT" "/v1/job/a/b" ≡ false)
    × (is_validate "PUT" "/v1/job/a/b" ≡ false)
slash_id_skipped_example =
    slash_id_skipped "PUT" "/v1/job/a/b" (codes "a") (codes "b") refl ((λ e. cc), tt) (λ e. cc)

resolve_request_context_bounds_example :
    (small_job_resolved.method ≡ small_job.method)
    × (small_job_resolved.path ≡ small_job.path)
    × (small_job_resolved.headers ≡ small_job.headers)
    × IsLimited
        (is_actionable small_job)
        max_admission_body_size
        small_job.body
        small_job_resolved.body
resolve_request_context_bounds_example =
    resolve_request_context_bounds tokens true small_job small_job_resolved resolved_small_job

resolve_request_context-forget_example :
    resolve_request_context (forget tokens) true small_job
    ≡ resolve_request_context tokens true small_job
resolve_request_context-forget_example = resolve_request_context-forget tokens true small_job

-- A request with warnings, whose response is rewritten.
abbrev warned_request : Request
warned_request = record small_job {
  values = record (small_job.values) { warnings = some (message "careful" ∷ []) };
}

abbrev rewritten : Response
rewritten = record nomad_response {
  headers = ("Content-Length", "2") ∷ [];
  content_length = some 2;
  body = buffer (1 ∷ 2 ∷ []);
}

modified_response : modify_proxy_response responder warned_request nomad_response ≡ ok rewritten
unfolding modify_proxy_response is_register is_create handle_register_response add_warnings
    is_successful_response transform_body plain_reader rewrite_as rewrite_response get_header
    lookup_header set_header itoa
modified_response = refl

modify_proxy_response-IsSound_example : IsSound responder nomad_response rewritten
modify_proxy_response-IsSound_example =
    modify_proxy_response-IsSound responder warned_request nomad_response rewritten
      modified_response

abbrev decode_body : Reader → Result Bytes
decode_body r = ok r.bytes

abbrev marshal_body : Bytes → Result Bytes
marshal_body b = ok b

transformed :
    transform_body responder decode_body marshal_body (λ b. 1 ∷ 2 ∷ []) nomad_response
    ≡ ok rewritten
unfolding transform_body plain_reader rewrite_as rewrite_response get_header lookup_header
    set_header itoa
transformed = refl

transform_body-plain_reader_example :
    (a : Bytes) × (bytes : Bytes) × ((plain_reader responder.gzip nomad_response >>= decode_body)
      ≡ ok a)
    × (marshal_body (1 ∷ 2 ∷ []) ≡ ok bytes)
    × (plain_reader responder.gzip rewritten ≡ ok (buffer bytes))
transform_body-plain_reader_example =
    transform_body-plain_reader responder decode_body marshal_body (λ b. 1 ∷ 2 ∷ []) nomad_response
      rewritten (λ b c e. ap ok (ap buffer (cc e))) transformed

pub can_encode : CanEncode envelopes
can_encode e = elim (Option-cases e.job) [
  | inl none_given ↦ ([], rw none_given refl)
  | inr (n, given) ↦ (n ∷ [], rw given refl)
]

admit-passes_example :
    is_forwarded (admit multierror codec envelopes handler (request "/v1/jobs" (2 ∷ [])) world).0
    ≡ passes
        (handle_validate multierror codec envelopes handler
          (request "/v1/validate/job" (2 ∷ []))
          world).0
admit-passes_example =
    admit-passes multierror codec flat faithful transforms policies envelopes envelopes handler
      (request "/v1/jobs" (2 ∷ [])) (request "/v1/validate/job" (2 ∷ []))
      (record { job = some 2; rest = tt }) (record { job = some 2; rest = tt }) 2 world world lawful
      can_encode can_encode refl refl refl refl refl
