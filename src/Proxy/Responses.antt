-- ===== src/Proxy/Responses.antt =====
-- cmd/nacp/nacp.go: Nomad's responses, and what admission adds to them. `compress/gzip`, the JSON of
-- the responses and the vendored `MergeMultierrorWarnings` are parameters.
use nacp.Common.{
  String, Bool, not, ◌&&◌, ◌||◌, none, some, List, [], ◌∷◌, map, length, is_nil, is_none, leb, ltb,
  ◌==◌, if◌then◌else◌,
}
use nacp.Common.Text.{is_empty, itoa}
use nacp.GoError.{GoError, message, multi, nil, errors, Multierror, text, Result, ok, ◌>>=◌}
use nacp.Http.{Bytes, get_header, set_header, Reader, buffer, Response}
use nacp.Proxy.Routes.{is_register, is_plan, is_validate}
use nacp.Proxy.Context.{ContextValues, Request}

-- nomad's `api.JobRegisterResponse` and `api.JobPlanResponse`, with the fields that are not read.
pub record WarningResponse (S : Type 0) : Type 0 where
  pub warnings : String
  pub rest : S

-- nomad's `api.JobValidateResponse`
pub record ValidateResponse (S : Type 0) : Type 0 where
  pub validation_errors : List String
  pub error : String
  pub warnings : String
  pub rest : S

pub record ResponseCodec (A : Type 0) : Type 0 where
  pub decode : Reader → Result A
  pub marshal : A → Result Bytes

pub record Gzip : Type 0 where
  pub new_reader : Reader → Result Reader
  pub compress : Bytes → Result Bytes

-- The libraries that the response handlers call.
pub record Responder (S : Type 0) : Type 0 where
  pub multierror : Multierror
  -- `helper.MergeMultierrorWarnings`
  pub merge_warnings : List GoError → String
  pub gzip : Gzip
  pub register : ResponseCodec (WarningResponse S)
  pub plan : ResponseCodec (WarningResponse S)
  pub validate : ResponseCodec (ValidateResponse S)

unfoldable pub is_successful_response : Response → Bool
is_successful_response resp = leb 200 resp.status_code && ltb resp.status_code 300

-- `rewriteResponse`
unfoldable pub rewrite_response : Response → Bytes → Response
rewrite_response resp bytes = record resp {
  headers = set_header "Content-Length" (itoa (length bytes)) resp.headers;
  content_length = some (length bytes);
  body = buffer bytes;
}

abbrev pub is_gzip : Response → Bool
is_gzip resp = get_header "Content-Encoding" resp.headers == "gzip"

-- `checkIfGzipAndTransformReader`
unfoldable pub plain_reader : Gzip → Response → Result Reader
plain_reader G resp = if is_gzip resp then G.new_reader resp.body else ok resp.body

-- `rewriteResponseGzip`, or `rewriteResponse`.
unfoldable pub rewrite_as : Gzip → Response → Bytes → Result Response
rewrite_as G resp bytes =
    if is_gzip resp
    then (G.compress bytes >>= λ compressed. ok (rewrite_response resp compressed))
    else ok (rewrite_response resp bytes)

module _ {S : Type 0} (T : Responder S) where
  open T use {multierror, merge_warnings, gzip}

  -- `buildFullWarningMsg`. `Append` on `allWarnings` also changes what that pointer leads to, so the
  -- result of the first call, which the code drops, is what the second one appends to.
  unfoldable pub build_full_warning_msg : String → List GoError → String
  build_full_warning_msg upstream warnings =
      let all_warnings =
        if is_empty upstream
        then multi nil
        else multierror.append (some (multi nil)) (message upstream ∷ []) in
      merge_warnings (multierror.append (some all_warnings) warnings ∷ [])

  -- Decode, change, encode: the common part of the three handlers.
  unfoldable pub transform_body {ℓ} :
      {A : Type ℓ} → (Reader → Result A) → (A → Result Bytes) → (A → A) → Response → Result Response
  transform_body decode marshal change resp = plain_reader gzip resp >>= λ reader.
      decode reader >>= λ a. marshal (change a) >>= λ bytes. rewrite_as gzip resp bytes

  -- `ctx.Value(ctxWarnings).([]error)`, as far as it matters: no value is like an empty slice.
  abbrev pub warnings_of : ContextValues → List GoError
  warnings_of values = elim values.warnings [ none ↦ [] | some ws ↦ ws ]

  -- `handRegisterResponse` and `handleJobPlanResponse`
  unfoldable pub add_warnings :
      ResponseCodec (WarningResponse S) → ContextValues → Response → Result Response
  add_warnings K values resp =
      if is_nil (warnings_of values) || not (is_successful_response resp)
      then ok resp
      else transform_body K.decode K.marshal
          (λ a. record a { warnings = build_full_warning_msg a.warnings (warnings_of values) }) resp

  unfoldable pub handle_register_response : ContextValues → Response → Result Response
  handle_register_response = add_warnings T.register

  unfoldable pub handle_job_plan_response : ContextValues → Response → Result Response
  handle_job_plan_response = add_warnings T.plan

  abbrev pub put_error : GoError → ValidateResponse S → ValidateResponse S
  put_error (multi es) a = record a {
    validation_errors = map (text multierror) (errors es);
    error = text multierror (multi es);
  }
  put_error e a = record a { validation_errors = text multierror e ∷ []; error = text multierror e }

  -- What `handleJobValdidateResponse` makes of Nomad's verdict.
  unfoldable pub merge_verdict : ContextValues → ValidateResponse S → ValidateResponse S
  merge_verdict values a =
      let b : ValidateResponse S = elim values.validation_error [
        | none ↦ a
        | some e ↦ put_error e a
      ] in
      if is_nil (warnings_of values)
      then b
      else record b { warnings = build_full_warning_msg b.warnings (warnings_of values) }

  unfoldable pub handle_job_validate_response : ContextValues → Response → Result Response
  handle_job_validate_response values resp =
      if (is_none values.validation_error && is_none values.warnings)
        || not (is_successful_response resp)
      then ok resp
      else transform_body T.validate.decode T.validate.marshal (merge_verdict values) resp

  -- `modifyProxyResponse`
  unfoldable pub modify_proxy_response : Request → Response → Result Response
  modify_proxy_response r resp =
      if is_register r.method r.path
      then handle_register_response r.values resp
      else if is_plan r.method r.path
      then handle_job_plan_response r.values resp
      else if is_validate r.method r.path
      then handle_job_validate_response r.values resp
      else ok resp
