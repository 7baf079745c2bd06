-- ===== src/Proxy/Concurrent/Counts.antt =====
-- What many requests at a time count (cmd/nacp/nacp.go, pkg/admissionctrl/controller.go).
use nacp.Common.{
  ℕ, ◌+◌, ◌<◌, ◌≡◌, refl, ◌∙◌, Option, none, some, List, [], ◌∷◌, length, get_elem?,
  get_elem?-append_length, length-append, All, arith,
}
use nacp.GoError.{GoError, Result, ok, err}
use nacp.Admission.{Ref, JobMutator, JobValidator, JobCodec, JobHandler, World, Metric, run_mutator}
use nacp.Admission.Spec.{Transform, Policy, IsMutatorOf, IsValidatorOf, IsFaithful, accept}
use nacp.Admission.Isolation.{
  IsAdditive, IsPrivate, Extends, Extends-refl, Extends-append, run_validator-Extends,
}
use nacp.Admission.Transforms.{Agrees, run_mutator-Agrees}
use nacp.Http.{Response}
use nacp.Proxy.Context.{Request, TokenService, resolve_request_context}
use nacp.Proxy.Handlers.{Envelope, EnvelopeCodec, Codecs}
use nacp.Proxy.Responses.{Responder}
use nacp.Proxy.Concurrent.{
  Purpose, Ticket, Task, arrived, resolved, mutating, validating, applied, finished, context_of,
  mutated, validated, opened, decoded, routed, begin, arrive, step,
}
use nacp.Proxy.Concurrent.Reference.{IsSharable}
use nacp.Proxy.Concurrent.Tracks.{run_mutator-Extends}
use nacp.Proxy.Concurrent.Events.{
  weigh, verdict_events, mutation_events, next_events, judge_events, transform_events,
  opened_events, decoded_events, begun_events, arrived_events,
}
use nacp.Proxy.Concurrent.Weights.{weigh-append, run_mutator_weight, run_validator_weight}

module _ (f : Metric → ℕ) {J R S : Type 0} (C : JobCodec J) (K : Codecs J R) (T : Responder S)
    (N : TokenService) (h : JobHandler J) (round_trip : Request → Result Response)
    (faithful : IsFaithful C) (transform : JobMutator J → Transform J)
    (policy : JobValidator J → Policy J) (lawful : IsSharable transform policy h) where
  -- A task that is still to count events of weight `n`.
  abbrev pub Owes : ℕ → Task J R → World J → Type 0
  Owes n (arrived r) w =
      weigh f (
        arrived_events transform policy C K T N h round_trip
          (resolve_request_context N h.resolve_token r))
      ≡ n
  Owes n (resolved r) w =
      weigh f (begun_events transform policy C K T N h round_trip r (routed C K T N h round_trip r))
      ≡ n
  Owes n (mutating t ms job ws) w =
      (j : J) × (job < length w.heap)
      × (get_elem? w.heap job ≡ some j)
      × All (λ m. IsMutatorOf (transform m) m × IsAdditive m) ms
      × (weigh f (transform_events transform policy h.validators (context_of t) ms j) ≡ n)
  Owes n (validating t vs job ws s) w =
      (j : J) × (job < length w.heap)
      × (get_elem? w.heap job ≡ some j)
      × All (λ v. IsValidatorOf (policy v) v × IsPrivate v) vs
      × (weigh f (judge_events policy (context_of t) vs j) ≡ n)
  Owes n (applied b) w = 0 ≡ n
  Owes n (finished b) w = 0 ≡ n

  pub Owes-Extends :
      (n : ℕ) (t : Task J R) (w x : World J) → Extends w.heap x.heap → Owes n t w → Owes n t x
  Owes-Extends n (arrived r) w x e owes = owes
  Owes-Extends n (resolved r) w x e owes = owes
  Owes-Extends n (mutating t ms job ws) w x e (j, l, found, laws, owes) =
      (j, omega (arith, e.longer), e.same job l ∙ found, laws, owes)
  Owes-Extends n (validating t vs job ws s) w x e (j, l, found, laws, owes) =
      (j, omega (arith, e.longer), e.same job l ∙ found, laws, owes)
  Owes-Extends n (applied b) w x e owes = owes
  Owes-Extends n (finished b) w x e owes = owes

  -- What is counted, and what is still to be, make up what was to be.
  abbrev pub Balances : ℕ → World J → ℕ → World J → Type 0
  Balances n w k x = Extends w.heap x.heap × (weigh f x.metrics + k ≡ weigh f w.metrics + n)

  abbrev pub Pays : ℕ → World J → Task J R × World J → Type 0
  Pays n w (t, x) = (k : ℕ) × Owes k t x × Balances n w k x

  pub idle : (n : ℕ) (w : World J) → Balances n w n w
  idle n w = (Extends-refl w.heap, refl)

  arrive-Pays :
      (n : ℕ) (r : Result Request) (w : World J)
      → weigh f (arrived_events transform policy C K T N h round_trip r) ≡ n
      → Pays n w (arrive C K T N h round_trip r, w)
  unfolding arrive weigh
  arrive-Pays n (ok r) w owes = (n, owes, idle n w)
  arrive-Pays n (err e) w owes = (n, owes, idle n w)

  opened-Pays :
      (n : ℕ) (p : Purpose) (L : EnvelopeCodec J R) (r : Request) (e : Envelope J R) (o : Option J)
      (w : World J)
      → weigh f (opened_events transform policy C K T N h round_trip r.values.request_context o) ≡ n
      → Pays n w (opened C K T N h round_trip p L r e o w)
  unfolding opened weigh
  opened-Pays n p L r e none w owes = (n, owes, idle n w)
  opened-Pays n p L r e (some j) w owes = (
    n,
    (
      j,
      omega (arith, length-append w.heap (j ∷ [])),
      get_elem?-append_length w.heap j,
      lawful.mutators,
      owes,
    ),
    (Extends-append w.heap j, refl),
  )

  decoded-Pays :
      (n : ℕ) (p : Purpose) (L : EnvelopeCodec J R) (r : Request) (d : Result (Envelope J R))
      (w : World J)
      → weigh f (decoded_events transform policy C K T N h round_trip r.values.request_context d)
        ≡ n
      → Pays n w (decoded C K T N h round_trip p L r d w)
  unfolding decoded weigh
  decoded-Pays n p L r (err e) w owes = (n, owes, idle n w)
  decoded-Pays n p L r (ok e) w owes = opened-Pays n p L r e e.job w owes

  begin-Pays :
      (n : ℕ) (r : Request) (route : Option (Purpose × EnvelopeCodec J R)) (w : World J)
      → weigh f (begun_events transform policy C K T N h round_trip r route) ≡ n
      → Pays n w (begin C K T N h round_trip r route w)
  unfolding begin weigh
  begin-Pays n r none w owes = (n, owes, idle n w)
  begin-Pays n r (some (p, L)) w owes = decoded-Pays n p L r (L.decode r.body) w owes

  mutated-Pays :
      (n a : ℕ) (t : Ticket J R) (ms : List (JobMutator J)) (ws : List GoError) (w : World J)
      (s : Result (J × List GoError)) (r : Result (Ref × List GoError) × World J)
      → All (λ m. IsMutatorOf (transform m) m × IsAdditive m) ms
      → Agrees s r
      → Extends w.heap r.1.heap
      → weigh f r.1.metrics ≡ weigh f w.metrics + a
      → a
          + weigh f
              (next_events (transform_events transform policy h.validators (context_of t) ms) s)
        ≡ n
      → Pays n w (mutated t ms ws r)
  unfolding mutated weigh
  mutated-Pays n a t ms ws w (ok (j, vs)) (ok (job, us), x) laws (l, found, same) kept paid owes = (
    weigh f (transform_events transform policy h.validators (context_of t) ms j),
    (j, l, found, laws, refl),
    (kept, omega arith),
  )
  mutated-Pays n a t ms ws w (err e) (err g, x) laws same kept paid owes =
      (0, refl, (kept, omega arith))
  mutated-Pays n a t ms ws w (ok b) (err g, x) laws e kept paid owes = absurd e
  mutated-Pays n a t ms ws w (err e) (ok b, x) laws g kept paid owes = absurd g

  pub step-Pays :
      (n : ℕ) (t : Task J R) (w : World J) → Owes n t w → Pays n w (step C K T N h round_trip t w)
  unfolding step validated transform_events judge_events weigh
  step-Pays n (arrived r) w owes =
      arrive-Pays n (resolve_request_context N h.resolve_token r) w owes
  step-Pays n (resolved r) w owes = begin-Pays n r (routed C K T N h round_trip r) w owes
  step-Pays n (mutating t [] job ws) w (j, l, found, laws, owes) =
      (n, (j, l, found, lawful.validators, owes), idle n w)
  step-Pays n (mutating t (m ∷ ms) job ws) w (j, l, found, ((is, additive), laws), owes) =
      mutated-Pays n (weigh f (mutation_events m.name (transform m (context_of t) j))) t ms ws w
        (accept m.name (transform m (context_of t) j)) (run_mutator m (context_of t) job w) laws
        (run_mutator-Agrees transform (context_of t) m job j w is found)
        (run_mutator-Extends m (context_of t) job w additive)
        (run_mutator_weight f (transform m) m (context_of t) job j w is found)
        (omega (arith, owes, weigh-append f))
  step-Pays n (validating t [] job ws s) w (j, l, found, laws, owes) = (n, owes, idle n w)
  step-Pays n (validating t (v ∷ vs) job ws s) w (j, l, found, ((is, private), laws), owes) =
      let kept = run_validator-Extends T.multierror C v (context_of t) job s w private in
      let paid =
        run_validator_weight f T.multierror C faithful (policy v) v (context_of t) job j s w is
          found in
      (
        weigh f (judge_events policy (context_of t) vs j),
        (j, omega (arith, kept.longer), kept.same job l ∙ found, laws, refl),
        (kept, omega (arith, paid, owes, weigh-append f (verdict_events v.name _))),
      )
  step-Pays n (applied b) w owes = (n, owes, idle n w)
  step-Pays n (finished b) w owes = (n, owes, idle n w)
