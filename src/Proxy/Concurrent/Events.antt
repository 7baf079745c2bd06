-- ===== src/Proxy/Concurrent/Events.antt =====
-- The metric events of a request, with no heap and no other requests: what `Counts` holds the tasks of
-- `Concurrent` against.
use nacp.Common.{ℕ, ◌+◌, String, Option, none, some, List, [], ◌∷◌, ◌++◌, length, if◌then◌else◌}
use nacp.GoError.{GoError, Result, ok, err}
use nacp.Config.{RequestContext}
use nacp.Admission.{
  Validated, JobMutator, JobValidator, JobCodec, JobHandler, Metric, Counter, validator_warning,
  validator_error, mutator_warning, mutator_error, mutator_mutation,
}
use nacp.Admission.Spec.{Mutation, Transform, Policy, accept}
use nacp.Http.{Response}
use nacp.Proxy.Context.{Request, TokenService, resolve_request_context}
use nacp.Proxy.Handlers.{Envelope, EnvelopeCodec, Codecs}
use nacp.Proxy.Responses.{Responder}
use nacp.Proxy.Concurrent.{Purpose, routed}

-- The weight of events, for a weight of each.
unfoldable pub weigh : (Metric → ℕ) → List Metric → ℕ
weigh f [] = 0
weigh f (e ∷ es) = f e + weigh f es

abbrev event : Counter → ℕ → String → Metric
event c n name = record { counter = c; increment = n; controller = name }

-- Of the results of a validator.
abbrev pub verdict_events : String → Validated → List Metric
verdict_events name r =
    event validator_warning (length r.warnings) name
    ∷ elim r.error [ none ↦ [] | some e ↦ event validator_error 1 name ∷ [] ]

module _ {J : Type 0} where
  -- Of the results of a mutator.
  abbrev pub mutation_events : String → Mutation J → List Metric
  mutation_events name r = elim r.error [
    | some e ↦ event mutator_error 1 name ∷ []
    | none ↦ elim r.job [
      | none ↦ event mutator_error 1 name ∷ []
      | some j ↦
          (if r.mutated then event mutator_mutation 1 name ∷ [] else [])
          ++ event mutator_warning (length r.warnings) name ∷ []
    ]
  ]

  -- Of what runs behind a mutator.
  abbrev pub next_events : (J → List Metric) → Result (J × List GoError) → List Metric
  next_events f (err e) = []
  next_events f (ok (j, ws)) = f j

  -- Validators judge the same job.
  unfoldable pub judge_events :
      (JobValidator J → Policy J) → Option RequestContext → List (JobValidator J) → J → List Metric
  judge_events policy ctx [] j = []
  judge_events policy ctx (v ∷ vs) j =
      verdict_events v.name (policy v ctx j) ++ judge_events policy ctx vs j

  -- Mutators change a job one after another, up to the first failure; without one, validators follow.
  unfoldable pub transform_events :
      (JobMutator J → Transform J)
      → (JobValidator J → Policy J)
      → List (JobValidator J)
      → Option RequestContext
      → List (JobMutator J)
      → J
      → List Metric
  transform_events transform policy vs ctx [] j = judge_events policy ctx vs j
  transform_events transform policy vs ctx (m ∷ ms) j =
      let r = transform m ctx j in
      mutation_events m.name r
      ++ next_events (transform_events transform policy vs ctx ms) (accept m.name r)

module _ {J R S : Type 0} (transform : JobMutator J → Transform J)
    (policy : JobValidator J → Policy J) (C : JobCodec J) (K : Codecs J R) (T : Responder S)
    (N : TokenService) (h : JobHandler J) (round_trip : Request → Result Response) where
  abbrev pub opened_events : Option RequestContext → Option J → List Metric
  opened_events ctx none = []
  opened_events ctx (some j) = transform_events transform policy h.validators ctx h.mutators j

  abbrev pub decoded_events : Option RequestContext → Result (Envelope J R) → List Metric
  decoded_events ctx (err e) = []
  decoded_events ctx (ok e) = opened_events ctx e.job

  abbrev pub begun_events : Request → Option (Purpose × EnvelopeCodec J R) → List Metric
  begun_events r none = []
  begun_events r (some (p, L)) = decoded_events r.values.request_context (L.decode r.body)

  abbrev pub arrived_events : Result Request → List Metric
  arrived_events (err e) = []
  arrived_events (ok r) = begun_events r (routed C K T N h round_trip r)

  -- The events of a request.
  unfoldable pub request_events : Request → List Metric
  request_events r = arrived_events (resolve_request_context N h.resolve_token r)

  -- The events of requests, one after another.
  unfoldable pub all_events : List Request → List Metric
  all_events [] = []
  all_events (r ∷ rs) = request_events r ++ all_events rs
