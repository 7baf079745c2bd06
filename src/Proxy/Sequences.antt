-- ===== src/Proxy/Sequences.antt =====
-- Requests one after another (cmd/nacp/nacp.go), over one heap of jobs and one list of metrics.
use nacp.Common.{
  ◌≡◌, refl, ◌∙◌, sym, ap, Option, none, some, List, [], ◌∷◌, ◌++◌, map, Bool-cases, Option-cases,
  inl, inr,
}
use nacp.GoError.{GoError, Multierror, IsFlattening, Result, ok, err, ◌>>=◌, Result-cases}
use nacp.Admission.{
  Validated, JobMutator, JobValidator, JobCodec, JobHandler, World, admission_mutators,
  apply_admission_controllers,
}
use nacp.Admission.Spec.{Transform, Policy, IsFaithful, all_accept}
use nacp.Http.{Bytes, Response}
use nacp.Proxy.Routes.{is_register, is_plan, is_validate}
use nacp.Proxy.Context.{Request, TokenService, resolve_request_context}
use nacp.Proxy.Handlers.{
  Envelope, EnvelopeCodec, Codecs, rewrite_request, with_warnings, with_verdict, admit,
  handle_validate, handle_register, handle_plan, apply_admission,
}
use nacp.Proxy.Responses.{Responder, modify_proxy_response}
use nacp.Proxy.Admits.{
  IsLawful, lawful_for, Forwards, Validates, admit-Forwards, handle_validate-Validates,
}
use nacp.Proxy.Serve.{Answer, forwarded, write_error, modified, proxy, admitted, nacp_handler}

-- What goes over the wire: a request less the values of its Go context.
abbrev pub on_wire : Request → Request
on_wire r = record r {
  values = record { warnings = none; validation_error = none; request_context = none };
}

abbrev pub sent : Result Request → Option Request
sent (ok r) = some (on_wire r)
sent (err e) = none

-- What Nomad sees of the request that an answer belongs to.
abbrev pub seen : Answer → Option Request
seen a = elim (forwarded a) [ none ↦ none | some r ↦ some (on_wire r) ]

-- A server's handler, called for one request after another.
unfoldable pub serve_all :
    {J : Type 0}
    → (Request → World J → Answer × World J)
    → List Request
    → World J
    → List Answer × World J
serve_all handler [] w = ([], w)
serve_all handler (r ∷ rs) w =
    let (a, w') = handler r w in let (rest, w'') = serve_all handler rs w' in (a ∷ rest, w'')

-- What Nomad sees of a request does not depend on the state that it meets.
abbrev pub IsSteady : {J : Type 0} → (Request → World J → Answer × World J) → Type 0
IsSteady {J = J} handler =
    (r : Request) (w x : World J) → seen (handler r w).0 ≡ seen (handler r x).0

-- Then it does not depend on the requests before, either.
pub serve_all-seen :
    {J : Type 0} (handler : Request → World J → Answer × World J) (rs : List Request) (w : World J)
    → IsSteady handler
    → map seen (serve_all handler rs w).0
      ≡ map (λ r. seen (handler r (record { heap = []; metrics = [] })).0) rs
unfolding serve_all
serve_all-seen handler [] w steady = refl
serve_all-seen handler (r ∷ rs) w steady =
    rw
      (
        steady r w (record { heap = []; metrics = [] }),
        serve_all-seen handler rs (handler r w).1 steady,
      )
      refl

module _ {J R S : Type 0} (C : JobCodec J) (K : Codecs J R) (T : Responder S) (N : TokenService)
    (h : JobHandler J) (round_trip : Request → Result Response) where
  forwarded-proxy : (r : Request) → forwarded (proxy C K T N h round_trip r) ≡ some r
  unfolding proxy modified
  forwarded-proxy r = elim (Result-cases (round_trip r)) [
    | inl (e, failed) ↦ rw (failed, proxy) refl
    | inr (resp, came) ↦
        rw (came, proxy)
          (elim (Result-cases (modify_proxy_response T r resp)) [
            | inl (e, failed) ↦ rw (failed, modified) refl
            | inr (changed, fine) ↦ rw (fine, modified) refl
          ])
  ]

  seen-admitted :
      (a : Result Request × World J) → seen (admitted C K T N h round_trip a).0 ≡ sent a.0
  unfolding admitted write_error
  seen-admitted (ok r, w) = rw (forwarded-proxy r, seen) refl
  seen-admitted (err e, w) = refl

on_wire-with_warnings :
    (ws : List GoError) (r : Request) (bytes : Bytes)
    → on_wire (rewrite_request (with_warnings ws r) bytes) ≡ on_wire (rewrite_request r bytes)
unfolding rewrite_request
on_wire-with_warnings [] r bytes = refl
on_wire-with_warnings (w ∷ ws) r bytes = refl

-- A verdict is not on the wire.
sent-with_verdict :
    (m : Result Bytes) (v : Validated) (ws : List GoError) (r : Request)
    → sent (m >>= λ bytes. ok (rewrite_request (with_verdict v ws r) bytes))
      ≡ sent (m >>= λ bytes. ok (rewrite_request r bytes))
unfolding rewrite_request
sent-with_verdict (err e) v ws r = refl
sent-with_verdict (ok bytes) v ws r = ap some (on_wire-with_warnings (v.warnings ++ ws) _ bytes)

module _ {J R : Type 0} (M : Multierror) (C : JobCodec J) (flat : IsFlattening M)
    (faithful : IsFaithful C) (transform : JobMutator J → Transform J)
    (policy : JobValidator J → Policy J) (h : JobHandler J) where
  module _ (K : EnvelopeCodec J R) where
    Forwards-sent :
        (r : Request) (e : Envelope J R) (s : Result (J × List GoError)) (a b : Result Request)
        → Forwards M C flat faithful transform policy K h r e s a
        → Forwards M C flat faithful transform policy K h r e s b
        → sent a ≡ sent b
    Forwards-sent r e (err x) a b (_, p) (_, q) = rw (p, q) refl
    Forwards-sent r e (ok (j, ws)) a b (p, p') (q, q') =
        elim (Bool-cases (all_accept policy r.values.request_context j h.validators)) [
          | inl all ↦ ap sent (p all ∙ sym (q all))
          | inr some_not ↦
              let (_, failed) = p' some_not in
              let (_, failed') = q' some_not in ap sent failed ∙ sym (ap sent failed')
        ]

    Validates-sent :
        (r : Request) (e : Envelope J R) (s : Result (J × List GoError)) (a b : Result Request)
        → Validates M C flat faithful transform policy K h r e s a
        → Validates M C flat faithful transform policy K h r e s b
        → sent a ≡ sent b
    Validates-sent r e (err x) a b p q = ap sent (p ∙ sym q)
    Validates-sent r e (ok (j, ws)) a b (v, _, _, _, p) (v', _, _, _, q) =
        let bytes = K.marshal (record e { job = some j }) in
        ap sent p
        ∙ sent-with_verdict bytes v ws r
        ∙ sym (ap sent q ∙ sent-with_verdict bytes v' ws r)

    admit-sent :
        (r : Request) (w x : World J)
        → IsLawful M C flat faithful transform policy K h
        → sent (admit M C K h r w).0 ≡ sent (admit M C K h r x).0
    unfolding admit apply_admission_controllers
    admit-sent r w x lawful = elim (Result-cases (K.decode r.body)) [
      | inl (e, failed) ↦ rw (failed, admit) refl
      | inr (envelope, decoded) ↦ elim (Option-cases envelope.job) [
        | inl empty ↦ rw (decoded, empty, admit) refl
        | inr (j, found) ↦
            Forwards-sent r envelope _ _ _
              (admit-Forwards M C flat faithful transform policy K h r envelope j w lawful decoded
                found)
              (admit-Forwards M C flat faithful transform policy K h r envelope j x lawful decoded
                found)
      ]
    ]

    handle_validate-sent :
        (r : Request) (w x : World J)
        → IsLawful M C flat faithful transform policy K h
        → sent (handle_validate M C K h r w).0 ≡ sent (handle_validate M C K h r x).0
    unfolding handle_validate admission_mutators
    handle_validate-sent r w x lawful = elim (Result-cases (K.decode r.body)) [
      | inl (e, failed) ↦ rw (failed, handle_validate) refl
      | inr (envelope, decoded) ↦ elim (Option-cases envelope.job) [
        | inl empty ↦ rw (decoded, empty, handle_validate) refl
        | inr (j, found) ↦
            Validates-sent r envelope _ _ _
              (handle_validate-Validates M C flat faithful transform policy K h r envelope j w
                lawful decoded found)
              (handle_validate-Validates M C flat faithful transform policy K h r envelope j x
                lawful decoded found)
      ]
    ]

  module _ (K : Codecs J R) where
    -- What the laws of the controllers say does not depend on the codec.
    apply_admission-sent :
        (r : Request) (w x : World J)
        → IsLawful M C flat faithful transform policy K.register h
        → sent (apply_admission M C K h r w).0 ≡ sent (apply_admission M C K h r x).0
    unfolding apply_admission handle_register handle_plan
    apply_admission-sent r w x lawful = elim (Bool-cases (is_register r.method r.path)) [
      | inl registers ↦ rw (registers, apply_admission) (admit-sent K.register r w x lawful)
      | inr not_register ↦ elim (Bool-cases (is_plan r.method r.path)) [
        | inl plans ↦
            rw (not_register, plans, apply_admission)
              (admit-sent K.plan r w x
                (lawful_for M C flat faithful transform policy K.register K.plan h lawful))
        | inr not_plan ↦ elim (Bool-cases (is_validate r.method r.path)) [
          | inl validates ↦
              rw (not_register, not_plan, validates, apply_admission)
                (handle_validate-sent K.validate r w x
                  (lawful_for M C flat faithful transform policy K.register K.validate h lawful))
          | inr other ↦ rw (not_register, not_plan, other, apply_admission) refl
        ]
      ]
    ]

module _ {J R S : Type 0} (C : JobCodec J) (K : Codecs J R) (T : Responder S) (N : TokenService)
    (h : JobHandler J) (round_trip : Request → Result Response) (flat : IsFlattening T.multierror)
    (faithful : IsFaithful C) (transform : JobMutator J → Transform J)
    (policy : JobValidator J → Policy J) where
  -- For lawful controllers, a JSON round trip that gives a job back and `Append` as go-multierror
  -- documents it.
  pub nacp_handler-IsSteady :
      IsLawful T.multierror C flat faithful transform policy K.register h
      → IsSteady (nacp_handler C K T N h round_trip)
  unfolding nacp_handler write_error
  nacp_handler-IsSteady lawful r w x =
      elim (Result-cases (resolve_request_context N h.resolve_token r)) [
        | inl (e, failed) ↦ rw (failed, nacp_handler) refl
        | inr (r', resolved) ↦
            rw (resolved, nacp_handler)
              (seen-admitted C K T N h round_trip (apply_admission T.multierror C K h r' w)
                ∙ apply_admission-sent T.multierror C flat faithful transform policy h K r' w x
                    lawful
                ∙ sym
                    (seen-admitted C K T N h round_trip (apply_admission T.multierror C K h r' x)))
      ]
