-- ===== src/Proxy/Handlers.antt =====
-- cmd/nacp/nacp.go: admission of a request, before it is forwarded.
use nacp.Common.{String, Option, none, some, List, [], ◌∷◌, ◌++◌, length, is_nil, if◌then◌else◌}
use nacp.GoError.{GoError, Multierror, Result, ok, wrapping, ◌>>=◌}
use nacp.Admission.{
  Ref, Validated, JobCodec, JobHandler, World, next, deref, admission_mutators,
  admission_validators, apply_admission_controllers,
}
use nacp.Http.{Bytes, Reader, buffer}
use nacp.Proxy.Routes.{is_register, is_plan, is_validate}
use nacp.Proxy.Context.{Request}

-- nomad's `api.JobRegisterRequest`, `api.JobPlanRequest` and `api.JobValidateRequest`: a job, and other
-- fields that the program passes on.
pub record Envelope (J R : Type 0) : Type 0 where
  pub job : Option J
  pub rest : R

-- Their JSON.
pub record EnvelopeCodec (J R : Type 0) : Type 0 where
  pub decode : Reader → Result (Envelope J R)
  pub marshal : Envelope J R → Result Bytes

pub record Codecs (J R : Type 0) : Type 0 where
  pub register : EnvelopeCodec J R
  pub plan : EnvelopeCodec J R
  pub validate : EnvelopeCodec J R

-- `rewriteRequest`
unfoldable pub rewrite_request : Request → Bytes → Request
rewrite_request r bytes = record r { content_length = some (length bytes); body = buffer bytes }

abbrev pub with_warnings : List GoError → Request → Request
with_warnings warnings r =
    if is_nil warnings
    then r
    else record r { values = record (r.values) { warnings = some warnings } }

-- The context and the warnings that `handleValidate` leaves.
abbrev pub with_verdict : Validated → List GoError → Request → Request
with_verdict verdict mutate_warnings r =
    with_warnings (verdict.warnings ++ mutate_warnings)
      (record r { values = record (r.values) { validation_error = verdict.error } })

module _ {J : Type 0} where
  -- The decoded job, as an object of the heap.
  abbrev pub place : Option J → World J → Option Ref × World J
  place none w = (none, w)
  place (some j) w = (some (length w.heap), record w { heap = w.heap ++ j ∷ [] })

  -- `return r, fmt.Errorf("…: %w", err)`
  abbrev pub wrapping_next {ℓ} : {A : Type ℓ} → String → Result A × World J → Result A × World J
  wrapping_next s (r, w) = (wrapping s r, w)

module _ {J R : Type 0} where
  -- The envelope with the job that the pointer leads to.
  unfoldable pub encode : EnvelopeCodec J R → Envelope J R → Ref → World J → Result Bytes
  encode K envelope job w = K.marshal (record envelope { job = deref w.heap (some job) })

  module _ (M : Multierror) (C : JobCodec J) (K : EnvelopeCodec J R) (h : JobHandler J) where
    -- `handleRegister` and `handlePlan`, behind the decoding.
    pub admit_envelope : Request → Envelope J R → World J → Result Request × World J
    admit_envelope r envelope w =
        let (job, w') = place envelope.job w in
        next
          (wrapping_next "admission controllers send an error, returning error" (
            apply_admission_controllers M C h
              (some (record { job = job; context = r.values.request_context })) w'))
          λ admitted w''. (
            (wrapping "error marshalling job" (encode K envelope admitted.0 w'') >>= λ bytes.
                ok (rewrite_request (with_warnings admitted.1 r) bytes)),
            w'',
          )

    unfoldable pub admit : Request → World J → Result Request × World J
    unfolding admit_envelope
    admit r w =
        next (wrapping "failed decoding job, skipping admission controller" (K.decode r.body), w)
          (admit_envelope r)

    -- `handleValidate`, behind the decoding.
    validate_envelope : Request → Envelope J R → World J → Result Request × World J
    validate_envelope r envelope w =
        let (job, w') = place envelope.job w in
        let ctx = r.values.request_context in
        next (admission_mutators h (some (record { job = job; context = ctx })) w') λ mutated w''.
          let (verdict, w₃) =
            admission_validators M C h (some (record { job = some mutated.0; context = ctx }))
              w'' in
          (
            (encode K envelope mutated.0 w₃ >>= λ bytes.
                ok (rewrite_request (with_verdict verdict mutated.1 r) bytes)),
            w₃,
          )

    unfoldable pub handle_validate : Request → World J → Result Request × World J
    unfolding validate_envelope
    handle_validate r w = next (K.decode r.body, w) (validate_envelope r)

  module _ (M : Multierror) (C : JobCodec J) (K : Codecs J R) (h : JobHandler J) where
    unfoldable pub handle_register : Request → World J → Result Request × World J
    handle_register = admit M C K.register h

    unfoldable pub handle_plan : Request → World J → Result Request × World J
    handle_plan = admit M C K.plan h

    -- `applyAdmission`
    unfoldable pub apply_admission : Request → World J → Result Request × World J
    apply_admission r w =
        if is_register r.method r.path
        then handle_register r w
        else if is_plan r.method r.path
        then handle_plan r w
        else if is_validate r.method r.path
        then handle_validate M C K.validate h r w
        else (ok r, w)
