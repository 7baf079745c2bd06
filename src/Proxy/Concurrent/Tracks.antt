-- ===== src/Proxy/Concurrent/Tracks.antt =====
-- Requests whose steps mix are answered as the reference says (cmd/nacp/nacp.go).
use nacp.Common.{
  String, ◌<◌, ◌≡◌, refl, ◌∙◌, Option, none, some, List, [], ◌∷◌, ◌++◌, length, get_elem?,
  get_elem?-append_length, length-append, All, arith, Option-cases, inl, inr,
}
use nacp.GoError.{GoError, Result, ok, err, ◌>>=◌}
use nacp.Config.{RequestContext}
use nacp.Admission.{
  Ref, Payload, Mutated, Validated, JobMutator, JobValidator, JobCodec, JobHandler, World, judge,
  run_mutator, run_validator, tally, run_copied, duplicate,
}
use nacp.Admission.Spec.{
  Transform, Policy, IsMutatorOf, IsValidatorOf, IsFaithful, accept, transform_all,
}
use nacp.Admission.Isolation.{
  IsAdditive, IsPrivate, Extends, Extends-refl, Extends-append, copy_job_of_ok,
  run_validator-Extends,
}
use nacp.Admission.Transforms.{Agrees, run_mutator-Agrees}
use nacp.Http.{Response}
use nacp.Proxy.Context.{Request, TokenService, resolve_request_context}
use nacp.Proxy.Handlers.{Envelope, EnvelopeCodec, Codecs, encode}
use nacp.Proxy.Responses.{Responder}
use nacp.Proxy.Serve.{Answer}
use nacp.Proxy.Concurrent.{
  Purpose, Ticket, Task, arrived, resolved, mutating, validating, applied, finished, context_of,
  mutated, validated, opened, decoded, routed, begin, arrive, settle, step,
}
use nacp.Proxy.Concurrent.Reference.{
  joined, judge_all, IsSharable, validated_to, mutated_to, opened_to, decoded_to, begun_to,
  arrived_to,
}

module _ {J : Type 0} where
  judge_heap : (name : String) (r : Mutated) (w : World J) → (judge name r w).1.heap ≡ w.heap
  unfolding judge
  judge_heap name r w = ground arith

  pub run_mutator-Extends :
      (m : JobMutator J) (ctx : Option RequestContext) (job : Ref) (w : World J)
      → IsAdditive m
      → Extends w.heap (run_mutator m ctx job w).1.heap
  unfolding run_mutator
  run_mutator-Extends m ctx job w additive =
      let p : Payload = record { job = some job; context = ctx } in
      rw (judge_heap m.name (m.mutate p w.heap).0 (record w { heap = (m.mutate p w.heap).1 }))
        (additive p w.heap)

encode_at :
    {J R : Type 0} (L : EnvelopeCodec J R) (e : Envelope J R) (job : Ref) (j : J) (w : World J)
    → get_elem? w.heap job ≡ some j
    → encode L e job w ≡ L.marshal (record e { job = some j })
unfolding encode
encode_at L e job j w found = rw (found, encode) refl

module _ {J S : Type 0} (C : JobCodec J) (T : Responder S) (faithful : IsFaithful C)
    (policy : JobValidator J → Policy J) where
  tally-joined :
      (name : String) (r s : Validated) (w : World J)
      → (tally T.multierror name r (s, w)).0 ≡ joined T.multierror s r
  unfolding tally
  tally-joined name r s w = elim (Option-cases r.error) [
    | inl e ↦ rw (e, tally) refl
    | inr (f, e) ↦ rw (e, tally) refl
  ]

  run_validator-joined :
      (v : JobValidator J) (ctx : Option RequestContext) (job : Ref) (j : J) (s : Validated)
      (w : World J)
      → IsValidatorOf (policy v) v
      → get_elem? w.heap job ≡ some j
      → (run_validator T.multierror C v ctx job (s, w)).0 ≡ joined T.multierror s (policy v ctx j)
  unfolding run_validator run_copied duplicate
  run_validator-joined v ctx job j s w judges found =
      rw (copy_job_of_ok C w.heap (some job) j (rw found (faithful j))) (
        rw
          (← judges (record { job = some (length w.heap); context = ctx }) (w.heap ++ j ∷ []) j
            (get_elem?-append_length w.heap j))
          (tally-joined v.name _ s _))

module _ {J R S : Type 0} (C : JobCodec J) (K : Codecs J R) (T : Responder S) (N : TokenService)
    (h : JobHandler J) (round_trip : Request → Result Response) (faithful : IsFaithful C)
    (transform : JobMutator J → Transform J) (policy : JobValidator J → Policy J)
    (lawful : IsSharable transform policy h) where
  -- The job at a place of the heap.
  abbrev pub IsAt : Ref → J → World J → Type 0
  IsAt job j w = (job < length w.heap) × (get_elem? w.heap job ≡ some j)

  -- The answer that a task is to come to.
  abbrev pub OnTrack : Answer → Task J R → World J → Type 0
  OnTrack a (arrived r) w =
      arrived_to transform policy C K T N h round_trip (resolve_request_context N h.resolve_token r)
      ≡ a
  OnTrack a (resolved r) w =
      settle C K T N h round_trip
        (begun_to transform policy C K T N h round_trip r (routed C K T N h round_trip r))
      ≡ a
  OnTrack a (mutating t ms job ws) w =
      (j : J) × IsAt job j w
      × All (λ m. IsMutatorOf (transform m) m × IsAdditive m) ms
      × (settle C K T N h round_trip (
            mutated_to transform policy C K T N h round_trip t
              (transform_all transform (context_of t) ms j ws))
          ≡ a)
  OnTrack a (validating t vs job ws s) w =
      (j : J) × IsAt job j w
      × All (λ v. IsValidatorOf (policy v) v × IsPrivate v) vs
      × (settle C K T N h round_trip
            (validated_to transform policy C K T N h round_trip t vs j ws s)
          ≡ a)
  OnTrack a (applied b) w = settle C K T N h round_trip b ≡ a
  OnTrack a (finished b) w = b ≡ a

  IsAt-Extends :
      (job : Ref) (j : J) (w x : World J) → Extends w.heap x.heap → IsAt job j w → IsAt job j x
  IsAt-Extends job j w x e (l, found) = (omega (arith, e.longer), e.same job l ∙ found)

  -- Other tasks do not lead a task astray.
  pub OnTrack-Extends :
      (a : Answer) (t : Task J R) (w x : World J)
      → Extends w.heap x.heap
      → OnTrack a t w
      → OnTrack a t x
  OnTrack-Extends a (arrived r) w x e on = on
  OnTrack-Extends a (resolved r) w x e on = on
  OnTrack-Extends a (mutating t ms job ws) w x e (j, at_job, laws, to) =
      (j, IsAt-Extends job j w x e at_job, laws, to)
  OnTrack-Extends a (validating t vs job ws s) w x e (j, at_job, laws, to) =
      (j, IsAt-Extends job j w x e at_job, laws, to)
  OnTrack-Extends a (applied b) w x e on = on
  OnTrack-Extends a (finished b) w x e on = on

  -- A step that stays on track, and keeps the jobs that are there.
  abbrev pub Keeps : Answer → World J → Task J R × World J → Type 0
  Keeps a w (t, x) = OnTrack a t x × Extends w.heap x.heap

  arrive-Keeps :
      (a : Answer) (r : Result Request) (w : World J)
      → arrived_to transform policy C K T N h round_trip r ≡ a
      → Keeps a w (arrive C K T N h round_trip r, w)
  unfolding arrive
  arrive-Keeps a (ok r) w to = (to, Extends-refl w.heap)
  arrive-Keeps a (err e) w to = (to, Extends-refl w.heap)

  opened-Keeps :
      (a : Answer) (p : Purpose) (L : EnvelopeCodec J R) (r : Request) (e : Envelope J R)
      (o : Option J) (w : World J)
      → settle C K T N h round_trip (opened_to transform policy C K T N h round_trip p L r e o) ≡ a
      → Keeps a w (opened C K T N h round_trip p L r e o w)
  unfolding opened
  opened-Keeps a p L r e none w to = (to, Extends-refl w.heap)
  opened-Keeps a p L r e (some j) w to = (
    (
      j,
      (omega (arith, length-append w.heap (j ∷ [])), get_elem?-append_length w.heap j),
      lawful.mutators,
      to,
    ),
    Extends-append w.heap j,
  )

  begin-Keeps :
      (a : Answer) (r : Request) (route : Option (Purpose × EnvelopeCodec J R)) (w : World J)
      → settle C K T N h round_trip (begun_to transform policy C K T N h round_trip r route) ≡ a
      → Keeps a w (begin C K T N h round_trip r route w)
  unfolding begin
  begin-Keeps a r none w to = (to, Extends-refl w.heap)
  begin-Keeps a r (some (p, L)) w to = go (L.decode r.body) to
    where
      go :
          (d : Result (Envelope J R))
          → settle C K T N h round_trip (decoded_to transform policy C K T N h round_trip p L r d)
            ≡ a
          → Keeps a w (decoded C K T N h round_trip p L r d w)
      go (err e) to = (to, Extends-refl w.heap)
      go (ok e) to = opened-Keeps a p L r e e.job w to

  mutated-Keeps :
      (a : Answer) (t : Ticket J R) (ms : List (JobMutator J)) (ws : List GoError) (w : World J)
      (s : Result (J × List GoError)) (r : Result (Ref × List GoError) × World J)
      → All (λ m. IsMutatorOf (transform m) m × IsAdditive m) ms
      → Agrees s r
      → Extends w.heap r.1.heap
      → settle C K T N h round_trip (
          mutated_to transform policy C K T N h round_trip t
            (s >>= λ x. transform_all transform (context_of t) ms x.0 (ws ++ x.1)))
        ≡ a
      → Keeps a w (mutated t ms ws r)
  unfolding mutated
  mutated-Keeps a t ms ws w (ok (j, vs)) (ok (job, us), x) laws (l, found, same) kept to =
      ((j, (l, found), laws, rw same to), kept)
  mutated-Keeps a t ms ws w (err e) (err f, x) laws same kept to = (rw same to, kept)
  mutated-Keeps a t ms ws w (ok b) (err f, x) laws e kept to = absurd e
  mutated-Keeps a t ms ws w (err e) (ok b, x) laws f kept to = absurd f

  pub step-Keeps :
      (a : Answer) (t : Task J R) (w : World J)
      → OnTrack a t w
      → Keeps a w (step C K T N h round_trip t w)
  unfolding step transform_all judge_all validated
  step-Keeps a (arrived r) w on = arrive-Keeps a (resolve_request_context N h.resolve_token r) w on
  step-Keeps a (resolved r) w on = begin-Keeps a r (routed C K T N h round_trip r) w on
  step-Keeps a (mutating t [] job ws) w (j, at_job, laws, to) =
      ((j, at_job, lawful.validators, to), Extends-refl w.heap)
  step-Keeps a (mutating t (m ∷ ms) job ws) w (j, (l, found), ((is, additive), laws), to) =
      mutated-Keeps a t ms ws w (accept m.name (transform m (context_of t) j))
        (run_mutator m (context_of t) job w) laws
        (run_mutator-Agrees transform (context_of t) m job j w is found)
        (run_mutator-Extends m (context_of t) job w additive) to
  step-Keeps a (validating t [] job ws s) w (j, (l, found), laws, to) =
      (rw (encode_at t.codec t.envelope job j w found) to, Extends-refl w.heap)
  step-Keeps a (validating t (v ∷ vs) job ws s) w (j, (l, found), ((is, private), laws), to) =
      let kept = run_validator-Extends T.multierror C v (context_of t) job s w private in
      (
        (
          j,
          IsAt-Extends job j w (run_validator T.multierror C v (context_of t) job (s, w)).1 kept
              (l, found),
          laws,
          rw (run_validator-joined C T faithful policy v (context_of t) job j s w is found) to,
        ),
        kept,
      )
  step-Keeps a (applied b) w on = (on, Extends-refl w.heap)
  step-Keeps a (finished b) w on = (on, Extends-refl w.heap)
