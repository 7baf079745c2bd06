-- ===== src/Proxy/Passing.antt =====
-- What a request needs to be sent to Nomad (cmd/nacp/nacp.go).
use nacp.Common.{
  arith, ◌≡◌, refl, ◌∙◌, sym, ap, ◌⊎◌, ◌↔◌, Bool, true, false, ◌&&◌, String, Option, none, some,
  is_none, List, [], ◌∷◌, Bool-cases, Option-cases, inl, inr,
}
use nacp.GoError.{GoError, Multierror, Result, ok, err, wrapping, Result-cases}
use nacp.Config.{RequestContext}
use nacp.Http.{Bytes, Response}
use nacp.Admission.{Validated, JobMutator, JobValidator, JobCodec, JobHandler}
use nacp.Admission.Spec.{Transform, Policy, IsFaithful, transform_all, all_accept}
use nacp.Proxy.Routes.{is_register, is_plan, is_validate}
use nacp.Proxy.Context.{Request, TokenService}
use nacp.Proxy.Handlers.{Envelope, EnvelopeCodec, Codecs}
use nacp.Proxy.Responses.{Responder}
use nacp.Proxy.Concurrent.{
  Purpose, admission, validation, Ticket, conclude_admission, conclude_validation, no_verdict,
  conclude_ticket, routed,
}
use nacp.Proxy.Concurrent.Reference.{
  joined, judge_all, IsSharable, validated_to, mutated_to, opened_to, decoded_to, begun_to,
}

-- A result with no error.
abbrev pub Succeeds : {A : Type 0} → Result A → Type 0
Succeeds (ok a) = Unit
Succeeds (err e) = ⊥

Succeeds-wrapping : {A : Type 0} (s : String) (r : Result A) → Succeeds (wrapping s r) ↔ Succeeds r
Succeeds-wrapping s (ok a) = (λ u. u, λ u. u)
Succeeds-wrapping s (err e) = (λ u. u, λ u. u)

pub Succeeds-cases : {A : Type 0} (r : Result A) → Succeeds r ⊎ (¬ Succeeds r)
Succeeds-cases (ok a) = inl tt
Succeeds-cases (err e) = inr (λ u. u)

judge_all-accepts :
    {J : Type 0} (M : Multierror) (policy : JobValidator J → Policy J) (ctx : Option RequestContext)
    (j : J) (vs : List (JobValidator J)) (s : Validated)
    → is_none (judge_all M policy ctx j vs s).error
      ≡ (is_none s.error && all_accept policy ctx j vs)
unfolding judge_all all_accept
judge_all-accepts M policy ctx j [] s = ground arith
judge_all-accepts M policy ctx j (v ∷ vs) s = elim (Option-cases (policy v ctx j).error) [
  | inl e ↦ judge_all-accepts M policy ctx j vs (joined M s (policy v ctx j)) ∙ rw e refl
  | inr (f, e) ↦
      judge_all-accepts M policy ctx j vs (joined M s (policy v ctx j)) ∙ rw e (ground arith)
]

module _ {J R S : Type 0} (C : JobCodec J) (K : Codecs J R) (T : Responder S) (N : TokenService)
    (h : JobHandler J) (round_trip : Request → Result Response) (faithful : IsFaithful C)
    (transform : JobMutator J → Transform J) (policy : JobValidator J → Policy J)
    (lawful : IsSharable transform policy h) where
  abbrev judged : Purpose → Bool
  judged admission = true
  judged validation = false

  abbrev ticket : Purpose → EnvelopeCodec J R → Request → Envelope J R → Ticket J R
  ticket p L r e = record { purpose = p; codec = L; request = r; envelope = e }

  -- What is left to ask behind the mutators.
  abbrev Ends : Purpose → EnvelopeCodec J R → Request → Envelope J R → J → Type 0
  Ends p L r e j =
      (judged p ≡ true → all_accept policy r.values.request_context j h.validators ≡ true)
      × (bytes : Bytes) × (L.marshal (record e { job = some j }) ≡ ok bytes)

  -- A body that decodes to an envelope with a job, of which the mutators make a job that can be
  -- encoded; to register or to plan it, all validators accept that job.
  abbrev pub Admissible : Purpose → EnvelopeCodec J R → Request → Type 0
  Admissible p L r =
      (e : Envelope J R) × (L.decode r.body ≡ ok e)
      × (j : J) × (e.job ≡ some j)
      × (j' : J) × (ws : List GoError) × (transform_all transform r.values.request_context
            h.mutators j []
          ≡ ok (j', ws))
      × Ends p L r e j'

  -- What a request needs to be sent to Nomad, once its context is resolved: nothing, unless it
  -- registers, plans or validates a job.
  abbrev pub MayPass : Request → Type 0
  MayPass r =
      ((is_register r.method r.path ≡ true) → Admissible admission K.register r)
      × ((is_register r.method r.path ≡ false)
          → (is_plan r.method r.path ≡ true)
          → Admissible admission K.plan r)
      × ((is_register r.method r.path ≡ false)
          → (is_plan r.method r.path ≡ false)
          → (is_validate r.method r.path ≡ true)
          → Admissible validation K.validate r)

  admission_passes :
      (t : Ticket J R) (ws : List GoError) (v : Validated) (bytes : Result Bytes)
      → Succeeds (conclude_admission t ws v bytes)
        ↔ ((is_none v.error ≡ true) × (b : Bytes) × (bytes ≡ ok b))
  admission_passes t ws v bytes = elim (Option-cases v.error) [
    | inr (e, x) ↦ (λ u. absurd (rw x at u), λ (fine, b, z). absurd (cc (x, fine)))
    | inl x ↦ elim (Result-cases bytes) [
      | inl (f, y) ↦ (λ u. absurd (rw (x, y) at u), λ (fine, b, z). absurd (cc (y, z)))
      | inr (b, y) ↦ (λ u. (rw x refl, b, y), λ _. rw (x, y) tt)
    ]
  ]

  validation_passes :
      (t : Ticket J R) (ws : List GoError) (v : Validated) (bytes : Result Bytes)
      → Succeeds (conclude_validation t ws v bytes) ↔ ((b : Bytes) × (bytes ≡ ok b))
  validation_passes t ws v (ok b) = (λ u. (b, refl), λ _. tt)
  validation_passes t ws v (err e) = (λ u. absurd u, λ (b, x). absurd (cc x))

  validated_passes :
      (p : Purpose) (L : EnvelopeCodec J R) (r : Request) (e : Envelope J R) (j : J)
      (ws : List GoError)
      → Succeeds (
          validated_to transform policy C K T N h round_trip
            (ticket p L r e)
            h.validators
            j
            ws
            no_verdict)
        ↔ Ends p L r e j
  unfolding conclude_ticket
  validated_passes admission L r e j ws =
      let v = judge_all T.multierror policy r.values.request_context j h.validators no_verdict in
      let accepts =
        judge_all-accepts T.multierror policy r.values.request_context j h.validators no_verdict in
      let (to, from) =
        admission_passes (ticket admission L r e) ws v (L.marshal (record e { job = some j })) in
      (
        λ u. let (fine, b, encoded) = to u in (λ _. sym accepts ∙ fine, b, encoded),
        λ (fine, b, encoded). from (accepts ∙ fine refl, b, encoded),
      )
  validated_passes validation L r e j ws =
      let v = judge_all T.multierror policy r.values.request_context j h.validators no_verdict in
      let (to, from) =
        validation_passes (ticket validation L r e) ws v (L.marshal (record e { job = some j })) in
      (
        λ u. let (b, encoded) = to u in (λ x. absurd (cc x), b, encoded),
        λ (fine, b, encoded). from (b, encoded),
      )

  mutated_passes :
      (p : Purpose) (L : EnvelopeCodec J R) (r : Request) (e : Envelope J R)
      (s : Result (J × List GoError))
      → Succeeds (mutated_to transform policy C K T N h round_trip (ticket p L r e) s)
        ↔ ((j : J) × (ws : List GoError) × (s ≡ ok (j, ws)) × Ends p L r e j)
  mutated_passes p L r e (err f) = (λ u. absurd u, λ (j, ws, x, _). absurd (cc x))
  mutated_passes p L r e (ok (j, ws)) = (
    λ u. (j, ws, refl, (validated_passes p L r e j ws).0 u),
    λ (j', ws', x, ends).
        let same : j' ≡ j = cc x in (validated_passes p L r e j ws).1 (rw same at ends),
  )

  decoded_passes :
      (p : Purpose) (L : EnvelopeCodec J R) (r : Request) (d : Result (Envelope J R))
      → L.decode r.body ≡ d
      → Succeeds (decoded_to transform policy C K T N h round_trip p L r d) ↔ Admissible p L r
  decoded_passes p L r (err f) at_d =
      (λ u. absurd u, λ (e, x, j, y, j', ws, made, ends). absurd (cc (at_d, x)))
  decoded_passes p L r (ok e) at_d = opened e.job refl
    where
      opened :
          (o : Option J)
          → e.job ≡ o
          → Succeeds (opened_to transform policy C K T N h round_trip p L r e o) ↔ Admissible p L r
      opened none at_o = (
        λ u. absurd u,
        λ (e', x, j, y, j', ws, made, ends).
            let same : e ≡ e' = cc (at_d, x) in absurd (cc (at_o, ap (λ z. z.job) same, y)),
      )
      opened (some j) at_o =
          let (to, from) = mutated_passes p L r e _ in
          (
            λ u. let (j', ws, made, ends) = to u in (e, at_d, j, at_o, j', ws, made, ends),
            λ (e', x, i, y, j', ws, made, ends).
                let same : e' ≡ e = cc (at_d, x) in
                let same_job : i ≡ j = cc (at_o, ap (λ z. z.job) same, y) in
                from (j', ws, rw same_job at made, rw same at ends),
          )

  pub begun_passes :
      (r : Request)
      → Succeeds (begun_to transform policy C K T N h round_trip r (routed C K T N h round_trip r))
        ↔ MayPass r
  unfolding routed
  begun_passes r = elim (Bool-cases (is_register r.method r.path)) [
    | inl a ↦
        let (to, from) = decoded_passes admission K.register r _ refl in
        (
          λ u. (
            λ _. to (rw (a, routed) at u),
            λ b c. absurd (cc (a, b)),
            λ b c d. absurd (cc (a, b)),
          ),
          λ (x, y, z). rw (a, routed) (from (x a)),
        )
    | inr a ↦ elim (Bool-cases (is_plan r.method r.path)) [
      | inl b ↦
          let (to, from) = decoded_passes admission K.plan r _ refl in
          (
            λ u. (
              λ c. absurd (cc (a, c)),
              λ c d. to (rw (a, b, routed) at u),
              λ c d e. absurd (cc (b, d)),
            ),
            λ (x, y, z). rw (a, b, routed) (from (y a b)),
          )
      | inr b ↦ elim (Bool-cases (is_validate r.method r.path)) [
        | inl c ↦
            let (to, from) = decoded_passes validation K.validate r _ refl in
            (
              λ u. (
                λ d. absurd (cc (a, d)),
                λ d e. absurd (cc (b, e)),
                λ d e f. to (rw (a, b, c, routed) at u),
              ),
              λ (x, y, z). rw (a, b, c, routed) (from (z a b c)),
            )
        | inr c ↦ (
          λ u. (λ d. absurd (cc (a, d)), λ d e. absurd (cc (b, e)), λ d e f. absurd (cc (c, f))),
          λ _. rw (a, b, c, routed) tt,
        )
      ]
    ]
  ]
