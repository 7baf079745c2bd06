-- ===== src/Proxy/Concurrent/Reference.antt =====
-- What the proxy answers to a request, with no heap, no pointers and no other requests: the specification
-- that the tasks of `Concurrent` are held against.
use nacp.Common.{Option, none, some, List, [], ◌∷◌, ◌++◌, All}
use nacp.Config.{RequestContext}
use nacp.GoError.{GoError, Multierror, Result, ok, err}
use nacp.Admission.{Validated, JobMutator, JobValidator, JobCodec, JobHandler}
use nacp.Admission.Spec.{Transform, Policy, IsMutatorOf, IsValidatorOf, transform_all}
use nacp.Admission.Isolation.{IsAdditive, IsPrivate}
use nacp.Http.{Response}
use nacp.Proxy.Context.{Request, TokenService, resolve_request_context}
use nacp.Proxy.Handlers.{Envelope, EnvelopeCodec, Codecs}
use nacp.Proxy.Responses.{Responder}
use nacp.Proxy.Serve.{Answer, write_error}
use nacp.Proxy.Concurrent.{
  Purpose, Ticket, no_verdict, no_job, context_of, controller_error, decoding_error,
  conclude_ticket, routed, settle,
}

-- A verdict, after one more validator.
abbrev pub joined : Multierror → Validated → Validated → Validated
joined M s r = record {
  warnings = s.warnings ++ r.warnings;
  error = elim r.error [ none ↦ s.error | some e ↦ some (M.append s.error (e ∷ [])) ];
}

-- The verdict of validators on a job, behind an earlier verdict.
unfoldable pub judge_all :
    {J : Type 0}
    → Multierror
    → (JobValidator J → Policy J)
    → Option RequestContext
    → J
    → List (JobValidator J)
    → Validated
    → Validated
judge_all M policy ctx j [] s = s
judge_all M policy ctx j (v ∷ vs) s = judge_all M policy ctx j vs (joined M s (policy v ctx j))

module _ {J : Type 0} (transform : JobMutator J → Transform J)
    (policy : JobValidator J → Policy J) where
  -- Mutators that do to a job what `transform` says and write to no job that is there, and validators
  -- that judge as `policy` says and write to no job but their own.
  pub record IsSharable (h : JobHandler J) : Type 0 where
    pub mutators : All (λ m. IsMutatorOf (transform m) m × IsAdditive m) h.mutators
    pub validators : All (λ v. IsValidatorOf (policy v) v × IsPrivate v) h.validators

  module _ {R S : Type 0} (C : JobCodec J) (K : Codecs J R) (T : Responder S) (N : TokenService)
      (h : JobHandler J) (round_trip : Request → Result Response) where
    -- Behind the mutators: what is left of a handler, for the job itself.
    abbrev pub validated_to :
        Ticket J R → List (JobValidator J) → J → List GoError → Validated → Result Request
    validated_to t vs j ws s =
        conclude_ticket t ws (judge_all T.multierror policy (context_of t) j vs s)
          (t.codec.marshal (record (t.envelope) { job = some j }))

    abbrev pub mutated_to : Ticket J R → Result (J × List GoError) → Result Request
    mutated_to t (err e) = err (controller_error t.purpose e)
    mutated_to t (ok (j, ws)) = validated_to t h.validators j ws no_verdict

    abbrev pub opened_to :
        Purpose → EnvelopeCodec J R → Request → Envelope J R → Option J → Result Request
    opened_to p L r e none = err (controller_error p no_job)
    opened_to p L r e (some j) =
        let t : Ticket J R = record { purpose = p; codec = L; request = r; envelope = e } in
        mutated_to t (transform_all transform r.values.request_context h.mutators j [])

    abbrev pub decoded_to :
        Purpose → EnvelopeCodec J R → Request → Result (Envelope J R) → Result Request
    decoded_to p L r (err e) = err (decoding_error p e)
    decoded_to p L r (ok e) = opened_to p L r e e.job

    -- The request that goes on to Nomad, or the error.
    abbrev pub begun_to : Request → Option (Purpose × EnvelopeCodec J R) → Result Request
    begun_to r none = ok r
    begun_to r (some (p, L)) = decoded_to p L r (L.decode r.body)

    abbrev pub arrived_to : Result Request → Answer
    arrived_to (err e) = write_error C K T N h round_trip e
    arrived_to (ok r) = settle C K T N h round_trip (begun_to r (routed C K T N h round_trip r))

    -- The answer to a request.
    unfoldable pub reference : Request → Answer
    reference r = arrived_to (resolve_request_context N h.resolve_token r)
