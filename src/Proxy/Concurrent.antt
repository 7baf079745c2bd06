-- ===== src/Proxy/Concurrent.antt =====
-- cmd/nacp/nacp.go: many requests at a time, as `net/http` serves them, each on a goroutine of its own. A
-- request is a task that takes one step after another; the steps of the tasks mix in any order, over
-- one heap of jobs. A call of a controller is one step.
pub mod Reference
pub mod Finishes
pub mod Adequate
pub mod Tracks
pub mod Serves
pub mod Events
pub mod Weights
pub mod Counts
pub mod Totals
use nacp.Common.{
  ℕ, zero, suc, ◌+◌, String, Option, none, some, List, [], ◌∷◌, ◌++◌, length, eqb, if◌then◌else◌,
}
use nacp.GoError.{GoError, message, wrap, wrapping, Result, ok, err, ◌>>=◌}
use nacp.Config.{RequestContext}
use nacp.Admission.{
  Ref, Validated, JobMutator, JobValidator, JobCodec, JobHandler, World, run_mutator, run_validator,
}
use nacp.Http.{Bytes, Response}
use nacp.Proxy.Routes.{is_register, is_plan, is_validate}
use nacp.Proxy.Context.{Request, TokenService, resolve_request_context}
use nacp.Proxy.Handlers.{
  Envelope, EnvelopeCodec, Codecs, rewrite_request, with_warnings, with_verdict, encode,
}
use nacp.Proxy.Responses.{Responder}
use nacp.Proxy.Serve.{Answer, write_error, proxy}

-- `handleRegister` and `handlePlan`, or `handleValidate`.
pub data Purpose : Type 0 where
  admission validation : Purpose

-- The local variables of a handler that do not change behind the decoding.
pub record Ticket (J R : Type 0) : Type 0 where
  pub purpose : Purpose
  pub codec : EnvelopeCodec J R
  pub request : Request
  pub envelope : Envelope J R

-- Where the goroutine of a request stands.
pub data Task (J R : Type 0) : Type 0 where
  arrived : Request → Task J R
  resolved : Request → Task J R
  -- The mutators that are left, the job, and the warnings so far.
  mutating : Ticket J R → List (JobMutator J) → Ref → List GoError → Task J R
  -- The validators that are left, the job, the warnings of the mutators, and the verdict so far.
  validating : Ticket J R → List (JobValidator J) → Ref → List GoError → Validated → Task J R
  applied : Result Request → Task J R
  finished : Answer → Task J R

abbrev pub waiting : {J R : Type 0} → List Request → List (Task J R)
waiting [] = []
waiting (r ∷ rs) = arrived r ∷ waiting rs

abbrev pub no_verdict : Validated
no_verdict = record { warnings = []; error = none }

-- What a handler returns where the body does not decode, and where a mutator or a validator fails.
abbrev pub decoding_error : Purpose → GoError → GoError
decoding_error admission e = wrap "failed decoding job, skipping admission controller" e
decoding_error validation e = e

abbrev pub controller_error : Purpose → GoError → GoError
controller_error admission e = wrap "admission controllers send an error, returning error" e
controller_error validation e = e

abbrev pub no_job : GoError
no_job = message "admission payload must contain a job"

module _ {J R : Type 0} where
  -- The end of `handleRegister` and `handlePlan`: from the warnings of the mutators, the verdict, and
  -- the encoded job.
  abbrev pub conclude_admission :
      Ticket J R → List GoError → Validated → Result Bytes → Result Request
  conclude_admission t ws v bytes = elim v.error [
    | some e ↦ err (controller_error admission e)
    | none ↦ wrapping "error marshalling job" bytes >>= λ b.
        ok (rewrite_request (with_warnings (ws ++ v.warnings) t.request) b)
  ]

  -- The end of `handleValidate`.
  abbrev pub conclude_validation :
      Ticket J R → List GoError → Validated → Result Bytes → Result Request
  conclude_validation t ws v bytes =
      bytes >>= λ b. ok (rewrite_request (with_verdict v ws t.request) b)

  unfoldable pub conclude_ticket :
      Ticket J R → List GoError → Validated → Result Bytes → Result Request
  conclude_ticket t ws v bytes = elim t.purpose [
    | admission ↦ conclude_admission t ws v bytes
    | validation ↦ conclude_validation t ws v bytes
  ]

  abbrev pub context_of : Ticket J R → Option RequestContext
  context_of t = t.request.values.request_context

  unfoldable pub mutated :
      Ticket J R
      → List (JobMutator J)
      → List GoError
      → Result (Ref × List GoError) × World J
      → Task J R × World J
  mutated t ms ws (ok (job, vs), w) = (mutating t ms job (ws ++ vs), w)
  mutated t ms ws (err e, w) = (applied (err (controller_error t.purpose e)), w)

  unfoldable pub validated :
      Ticket J R
      → List (JobValidator J)
      → Ref
      → List GoError
      → Validated × World J
      → Task J R × World J
  validated t vs job ws (s, w) = (validating t vs job ws s, w)

module _ {J R S : Type 0} (C : JobCodec J) (K : Codecs J R) (T : Responder S) (N : TokenService)
    (h : JobHandler J) (round_trip : Request → Result Response) where
  unfoldable pub opened :
      Purpose → EnvelopeCodec J R → Request → Envelope J R → Option J → World J → Task J R × World J
  opened p L r e none w = (applied (err (controller_error p no_job)), w)
  opened p L r e (some j) w = (
    mutating (record { purpose = p; codec = L; request = r; envelope = e }) h.mutators
        (length w.heap) [],
    record w { heap = w.heap ++ j ∷ [] },
  )

  unfoldable pub decoded :
      Purpose → EnvelopeCodec J R → Request → Result (Envelope J R) → World J → Task J R × World J
  unfolding opened
  decoded p L r (err e) w = (applied (err (decoding_error p e)), w)
  decoded p L r (ok e) w = opened p L r e e.job w

  -- The handler that `applyAdmission` chooses.
  unfoldable pub routed : Request → Option (Purpose × EnvelopeCodec J R)
  routed r =
      if is_register r.method r.path
      then some (admission, K.register)
      else if is_plan r.method r.path
      then some (admission, K.plan)
      else if is_validate r.method r.path
      then some (validation, K.validate)
      else none

  unfoldable pub begin :
      Request → Option (Purpose × EnvelopeCodec J R) → World J → Task J R × World J
  unfolding decoded
  begin r none w = (applied (ok r), w)
  begin r (some (p, L)) w = decoded p L r (L.decode r.body) w

  unfoldable pub arrive : Result Request → Task J R
  arrive (err e) = finished (write_error C K T N h round_trip e)
  arrive (ok r) = resolved r

  unfoldable pub settle : Result Request → Answer
  settle (ok r) = proxy C K T N h round_trip r
  settle (err e) = write_error C K T N h round_trip e

  -- One step of a task.
  unfoldable pub step : Task J R → World J → Task J R × World J
  unfolding begin routed mutated validated conclude_ticket settle arrive
  step (arrived r) w = (arrive (resolve_request_context N h.resolve_token r), w)
  step (resolved r) w = begin r (routed r) w
  step (mutating t [] job ws) w = (validating t h.validators job ws no_verdict, w)
  step (mutating t (m ∷ ms) job ws) w = mutated t ms ws (run_mutator m (context_of t) job w)
  step (validating t [] job ws s) w =
      (applied (conclude_ticket t ws s (encode t.codec t.envelope job w)), w)
  step (validating t (v ∷ vs) job ws s) w =
      validated t vs job ws (run_validator T.multierror C v (context_of t) job (s, w))
  step (applied a) w = (finished (settle a), w)
  step (finished a) w = (finished a, w)

  -- The task at a position takes a step; at no task's position nothing happens.
  unfoldable pub turn : ℕ → List (Task J R) → World J → List (Task J R) × World J
  unfolding step
  turn i [] w = ([], w)
  turn zero (t ∷ ts) w = let (t', w') = step t w in (t' ∷ ts, w')
  turn (suc i) (t ∷ ts) w = let (ts', w') = turn i ts w in (t ∷ ts', w')

  -- The tasks take steps in the order of a schedule.
  unfoldable pub run : List ℕ → List (Task J R) → World J → List (Task J R) × World J
  unfolding turn
  run [] ts w = (ts, w)
  run (i ∷ is) ts w = let (ts', w') = turn i ts w in run is ts' w'

-- How often a position has its turn.
unfoldable pub turns : ℕ → List ℕ → ℕ
turns k [] = 0
turns k (i ∷ is) = (if eqb i k then 1 else 0) + turns k is
