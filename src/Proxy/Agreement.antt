-- ===== src/Proxy/Agreement.antt =====
-- A validation and a registration of one job (cmd/nacp/nacp.go).
use mathlib.Core.Path.{subst}
use nacp.Common.{
  ◌≡◌, refl, ◌∙◌, sym, ap, Bool, true, false, some, is_none, List, [], ◌∷◌, ◌++◌, Bool-cases, inl,
  inr,
}
use nacp.GoError.{GoError, Multierror, IsFlattening, Result, ok, err}
use nacp.Admission.{JobMutator, JobValidator, JobCodec, JobHandler, World}
use nacp.Admission.Spec.{Transform, Policy, IsFaithful, transform_all, all_accept}
use nacp.Http.{Bytes}
use nacp.Proxy.Context.{Request}
use nacp.Proxy.Handlers.{
  Envelope, EnvelopeCodec, with_warnings, rewrite_request, admit, handle_validate,
}
use nacp.Proxy.Admits.{
  IsLawful, lawful_for, Forwards, Validates, admit-Forwards, handle_validate-Validates,
}

-- Whether a request is forwarded.
abbrev pub is_forwarded : Result Request → Bool
is_forwarded (ok r) = true
is_forwarded (err e) = false

-- Whether a validation is forwarded with no error of a validator attached.
abbrev pub passes : Result Request → Bool
passes (ok r) = is_none r.values.validation_error
passes (err e) = false

-- Every envelope has an encoding.
abbrev pub CanEncode : {J R : Type 0} → EnvelopeCodec J R → Type 0
CanEncode {J = J} {R = R} K = (e : Envelope J R) → (bytes : Bytes) × (K.marshal e ≡ ok bytes)

with_warnings_keeps :
    (ws : List GoError) (r : Request)
    → (with_warnings ws r).values.validation_error ≡ r.values.validation_error
with_warnings_keeps [] r = refl
with_warnings_keeps (w ∷ ws) r = refl

module _ {J R : Type 0} (M : Multierror) (C : JobCodec J) (flat : IsFlattening M)
    (faithful : IsFaithful C) (transform : JobMutator J → Transform J)
    (policy : JobValidator J → Policy J) (K L : EnvelopeCodec J R) (h : JobHandler J) where
  forwarded-accepts :
      (r : Request) (e : Envelope J R) (j : J) (ws : List GoError) (a : Result Request)
      → CanEncode K
      → Forwards M C flat faithful transform policy K h r e (ok (j, ws)) a
      → is_forwarded a ≡ all_accept policy r.values.request_context j h.validators
  forwarded-accepts r e j ws a can (accepted, refused) =
      let (bytes, encoded) = can (record e { job = some j }) in
      elim (Bool-cases (all_accept policy r.values.request_context j h.validators)) [
        | inl all ↦ rw (accepted all, encoded, all) refl
        | inr some_not ↦ let (f, failed) = refused some_not in rw (failed, some_not) refl
      ]

  passes-accepts :
      (q : Request) (f : Envelope J R) (j : J) (ws : List GoError) (b : Result Request)
      → CanEncode L
      → Validates M C flat faithful transform policy L h q f (ok (j, ws)) b
      → passes b ≡ all_accept policy q.values.request_context j h.validators
  unfolding rewrite_request
  passes-accepts q f j ws b can (verdict, _, _, accepts, whole) =
      let (bytes, encoded) = can (record f { job = some j }) in
      let kept =
        with_warnings_keeps (verdict.warnings ++ ws)
          (record q { values = record (q.values) { validation_error = verdict.error } }) in
      rw (whole, encoded) (ap is_none kept ∙ accepts)

  -- Both results come of what the mutators make of the job.
  agree :
      (r q : Request) (e f : Envelope J R) (s : Result (J × List GoError)) (a b : Result Request)
      → CanEncode K
      → CanEncode L
      → r.values.request_context ≡ q.values.request_context
      → Forwards M C flat faithful transform policy K h r e s a
      → Validates M C flat faithful transform policy L h q f s b
      → is_forwarded a ≡ passes b
  agree r q e f (err x) a b can_k can_l same (y, refused) failed = rw (refused, failed) refl
  agree r q e f (ok (j, ws)) a b can_k can_l same forwards validates =
      forwarded-accepts r e j ws a can_k forwards
      ∙ ap (λ ctx. all_accept policy ctx j h.validators) same
      ∙ sym (passes-accepts q f j ws b can_l validates)

  -- For lawful controllers, a JSON round trip that gives a job back, `Append` as go-multierror documents
  -- it, codecs that can encode every request, and two requests with one request context whose bodies
  -- decode to envelopes with the same job:
  -- a request to register or to plan the job is forwarded to Nomad exactly if a request to validate it
  -- is forwarded and carries no error of a validator. So a validation tells what admission would say.
  pub admit-passes :
      (r q : Request) (e f : Envelope J R) (j : J) (w x : World J)
      → IsLawful M C flat faithful transform policy K h
      → CanEncode K
      → CanEncode L
      → K.decode r.body ≡ ok e
      → L.decode q.body ≡ ok f
      → e.job ≡ some j
      → f.job ≡ some j
      → r.values.request_context ≡ q.values.request_context
      → is_forwarded (admit M C K h r w).0 ≡ passes (handle_validate M C L h q x).0
  admit-passes r q e f j w x lawful can_k can_l decoded_k decoded_l found_k found_l same =
      agree r q e f (transform_all transform r.values.request_context h.mutators j []) _ _ can_k
        can_l same
        (admit-Forwards M C flat faithful transform policy K h r e j w lawful decoded_k found_k)
        (subst
          (λ ctx.
            Validates M C flat faithful transform policy L h q f
              (transform_all transform ctx h.mutators j []) (handle_validate M C L h q x).0)
          (sym same)
          (handle_validate-Validates M C flat faithful transform policy L h q f j x
            (lawful_for M C flat faithful transform policy K L h lawful) decoded_l found_l))
