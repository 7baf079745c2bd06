-- ===== src/Proxy/Admits.antt =====
-- What a request that is admitted becomes (cmd/nacp/nacp.go), for a handler whose controllers do what
-- `Admission.Spec` asks of them.
use nacp.Common.{
  ◌≡◌, refl, ◌∙◌, ap, true, false, none, some, is_none, List, [], ◌∷◌, ◌++◌, length, arith, All,
  get_elem?-append_length, length-append,
}
use nacp.GoError.{GoError, Multierror, IsFlattening, parts?, Result, ok, err, wrapping, ◌>>=◌}
use nacp.Admission.{
  Ref, Validated, JobMutator, JobValidator, JobCodec, JobHandler, World, next, validate_all,
  admission_mutators, admission_validators,
}
use nacp.Admission.Spec.{
  Transform, Policy, IsMutatorOf, IsValidatorOf, IsFaithful, transform_all, all_warnings,
  all_errors, all_accept,
}
use nacp.Admission.Isolation.{IsPrivate, validate_all-Extends}
use nacp.Admission.Judges.{validate_all-Joins}
use nacp.Admission.Transforms.{Agrees, mutate_all-Agrees}
use nacp.Admission.Refines.{Admits, apply-Admits}
use nacp.Proxy.Context.{Request}
use nacp.Proxy.Handlers.{
  Envelope, EnvelopeCodec, wrapping_next, with_warnings, rewrite_request, with_verdict, encode,
  admit, handle_validate,
}

module _ {J R : Type 0} (M : Multierror) (C : JobCodec J) (flat : IsFlattening M)
    (faithful : IsFaithful C) (transform : JobMutator J → Transform J)
    (policy : JobValidator J → Policy J) (K : EnvelopeCodec J R) (h : JobHandler J) where
  -- The controllers of the handler do what the transformations and the policies say.
  pub record IsLawful : Type 0 where
    pub mutators : All (λ m. IsMutatorOf (transform m) m) h.mutators
    pub validators : All (λ v. IsValidatorOf (policy v) v) h.validators
    pub isolated : All IsPrivate h.validators

  -- The request that goes to Nomad, or the error: from what the mutators make of the job.
  abbrev pub Forwards : Request → Envelope J R → Result (J × List GoError) → Result Request → Type 0
  Forwards r envelope (err e) result = (f : GoError) × (result ≡ err f)
  Forwards r envelope (ok (j, ws)) result =
      let ctx = r.values.request_context in
      (all_accept policy ctx j h.validators ≡ true
        → result ≡ (
            wrapping "error marshalling job" (K.marshal (record envelope { job = some j }))
            >>= λ bytes. ok (
                rewrite_request (with_warnings (ws ++ all_warnings policy ctx j h.validators) r)
                  bytes)))
      × (all_accept policy ctx j h.validators ≡ false → (f : GoError) × (result ≡ err f))

  admitted-Forwards :
      (r : Request) (envelope : Envelope J R) (s : Result (J × List GoError))
      (a : Result (Ref × List GoError) × World J)
      → Admits policy r.values.request_context h.validators s a
      → Forwards r envelope s
          (next
            (wrapping_next "admission controllers send an error, returning error" a)
            λ admitted w. (
              (wrapping "error marshalling job" (encode K envelope admitted.0 w) >>= λ bytes.
                  ok (rewrite_request (with_warnings admitted.1 r) bytes)),
              w,
            )).0
  unfolding encode
  admitted-Forwards r envelope (ok (j, ws)) (ok (out, all), w) (accepted, l, found, e) =
      (λ _. rw (found, e, encode), λ b. absurd (cc (accepted, b)))
  admitted-Forwards r envelope (ok (j, ws)) (err f, w) (refused, e) =
      (λ b. absurd (cc (refused, b)), λ _. (_, refl))
  admitted-Forwards r envelope (err e) (ok a, w) b = absurd b
  admitted-Forwards r envelope (err e) (err f, w) b = (_, refl)

  -- For lawful controllers, a JSON round trip that gives a job back, `Append` as go-multierror documents
  -- it, and a body that decodes to an envelope with a job:
  -- a request to register or to plan that job is refused if a mutator fails or a validator does not
  -- accept, and otherwise forwarded, if the result can be encoded. All validators judge what the
  -- mutators make of the job. Nomad then gets the other fields as they came, and the mutated job; and
  -- the response handler gets the warnings of the mutators and then those of the validators.
  pub admit-Forwards :
      (r : Request) (envelope : Envelope J R) (j : J) (w : World J)
      → IsLawful
      → K.decode r.body ≡ ok envelope
      → envelope.job ≡ some j
      → Forwards r envelope
          (transform_all transform r.values.request_context h.mutators j [])
          (admit M C K h r w).0
  unfolding admit
  admit-Forwards r envelope j w lawful decoded found =
      rw (decoded, found)
        (admitted-Forwards r (record envelope { job = some j }) _ _
          (apply-Admits M C flat faithful transform policy h r.values.request_context
            (length w.heap) j (record w { heap = w.heap ++ j ∷ [] }) lawful.mutators
            lawful.validators lawful.isolated (omega (arith, length-append w.heap (j ∷ [])))
            (get_elem?-append_length w.heap j)))

  -- The request that a validation becomes: the validators' verdict is attached to it, and the mutated
  -- job is forwarded whatever that verdict is.
  abbrev pub Validates :
      Request → Envelope J R → Result (J × List GoError) → Result Request → Type 0
  Validates r envelope (err e) result = result ≡ err e
  Validates r envelope (ok (j, ws)) result =
      let ctx = r.values.request_context in
      (verdict : Validated) × (verdict.warnings ≡ all_warnings policy ctx j h.validators)
      × (parts? verdict.error ≡ all_errors policy ctx j h.validators)
      × (is_none verdict.error ≡ all_accept policy ctx j h.validators)
      × (result ≡ (
          K.marshal (record envelope { job = some j }) >>= λ bytes.
          ok (rewrite_request (with_verdict verdict ws r) bytes)))

  mutated-Validates :
      (r : Request) (envelope : Envelope J R) (s : Result (J × List GoError))
      (a : Result (Ref × List GoError) × World J)
      → IsLawful
      → Agrees s a
      → Validates r envelope s
          (next a λ mutated w.
            let (verdict, w') =
              admission_validators M C h
                (some (record { job = some mutated.0; context = r.values.request_context }))
                w in
            (
              (encode K envelope mutated.0 w' >>= λ bytes.
                  ok (rewrite_request (with_verdict verdict mutated.1 r) bytes)),
              w',
            )).0
  unfolding encode admission_validators
  mutated-Validates r envelope (ok (j, ws)) (ok (out, vs), w) lawful (l, found, e) =
      let ctx = r.values.request_context in
      let start : Validated = record { warnings = []; error = none } in
      let t = validate_all M C h.validators ctx out (start, w) in
      let (joined, errs, accepts) =
        validate_all-Joins M flat C faithful policy ctx out j h.validators _ w lawful.validators
          lawful.isolated l found in
      let kept = validate_all-Extends M C h.validators ctx out start w lawful.isolated in
      (t.0, joined, errs, accepts, rw (kept.same out l ∙ found, e, encode))
  mutated-Validates r envelope (ok (j, ws)) (err f, w) lawful a = absurd a
  mutated-Validates r envelope (err e) (ok b, w) lawful a = absurd a
  mutated-Validates r envelope (err e) (err f, w) lawful a = ap err a

  -- For lawful controllers, a JSON round trip that gives a job back, `Append` as go-multierror documents
  -- it, and a body that decodes to an envelope with a job:
  -- a request to validate that job fails only if a mutator or the encoding fails. The errors of the
  -- validators do not stop it: Nomad gets the mutated job, and the response handler their warnings and
  -- errors, those of all validators in configuration order.
  pub handle_validate-Validates :
      (r : Request) (envelope : Envelope J R) (j : J) (w : World J)
      → IsLawful
      → K.decode r.body ≡ ok envelope
      → envelope.job ≡ some j
      → Validates r envelope
          (transform_all transform r.values.request_context h.mutators j [])
          (handle_validate M C K h r w).0
  unfolding handle_validate admission_mutators
  handle_validate-Validates r envelope j w lawful decoded found =
      rw (decoded, found)
        (mutated-Validates r (record envelope { job = some j }) _ _ lawful
          (mutate_all-Agrees transform r.values.request_context h.mutators (length w.heap) j []
            (record w { heap = w.heap ++ j ∷ [] }) lawful.mutators
            (omega (arith, length-append w.heap (j ∷ []))) (get_elem?-append_length w.heap j)))

-- The laws of the controllers do not depend on the codec of a request.
pub lawful_for :
    {J R : Type 0} (M : Multierror) (C : JobCodec J) (flat : IsFlattening M)
    (faithful : IsFaithful C) (transform : JobMutator J → Transform J)
    (policy : JobValidator J → Policy J) (K L : EnvelopeCodec J R) (h : JobHandler J)
    → IsLawful M C flat faithful transform policy K h
    → IsLawful M C flat faithful transform policy L h
lawful_for M C flat faithful transform policy K L h lawful = record {
  mutators = lawful.mutators;
  validators = lawful.validators;
  isolated = lawful.isolated;
}
