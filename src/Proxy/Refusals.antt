-- ===== src/Proxy/Refusals.antt =====
-- When a request is refused (cmd/nacp/nacp.go), for a handler whose controllers do what
-- `Admission.Spec` asks of them.
use nacp.Common.{◌≡◌, refl, ◌⊎◌, ◌↔◌, String, some, inl, inr}
use nacp.GoError.{text, Result, ok, err, Result-cases}
use nacp.Http.{Response}
use nacp.Admission.{JobMutator, JobValidator, JobCodec, JobHandler, World}
use nacp.Admission.Spec.{Transform, Policy, IsFaithful}
use nacp.Proxy.Context.{Request, TokenService, resolve_request_context}
use nacp.Proxy.Handlers.{Codecs}
use nacp.Proxy.Responses.{Responder, modify_proxy_response}
use nacp.Proxy.Serve.{Answer, refused, forwarded, write_error, modified, proxy, nacp_handler}
use nacp.Proxy.Concurrent.{routed, settle}
use nacp.Proxy.Concurrent.Reference.{IsSharable, begun_to, arrived_to, reference}
use nacp.Proxy.Concurrent.Serves.{nacp_handler-reference}
use nacp.Proxy.Passing.{Succeeds, Succeeds-cases, MayPass, begun_passes}

module _ {J R S : Type 0} (C : JobCodec J) (K : Codecs J R) (T : Responder S) (N : TokenService)
    (h : JobHandler J) (round_trip : Request → Result Response) (faithful : IsFaithful C)
    (transform : JobMutator J → Transform J) (policy : JobValidator J → Policy J)
    (lawful : IsSharable transform policy h) where
  proxy-forwarded : (r : Request) → forwarded (proxy C K T N h round_trip r) ≡ some r
  unfolding proxy modified
  proxy-forwarded r = elim (Result-cases (round_trip r)) [
    | inl (e, x) ↦ rw (x, proxy) refl
    | inr (resp, x) ↦ elim (Result-cases (modify_proxy_response T r resp)) [
      | inl (e, y) ↦ rw (x, proxy) (rw (y, modified) refl)
      | inr (changed, y) ↦ rw (x, proxy) (rw (y, modified) refl)
    ]
  ]

  -- Nomad is sent a request.
  abbrev pub IsSent : Answer → Type 0
  IsSent a = (q : Request) × (forwarded a ≡ some q)

  -- The client is told of an error, and Nomad sees nothing.
  abbrev pub IsRefusal : Answer → Type 0
  IsRefusal a = (body : String) × (a ≡ refused 500 body)

  settle-IsSent :
      (b : Result Request)
      → (Succeeds b → IsSent (settle C K T N h round_trip b))
        × (¬ Succeeds b → IsRefusal (settle C K T N h round_trip b))
  unfolding settle write_error
  settle-IsSent (ok r) = (λ u. (r, proxy-forwarded r), λ f. absurd (f tt))
  settle-IsSent (err e) = (λ u. absurd u, λ f. (text T.multierror e, refl))

  -- The context is resolved, and what then remains to be asked is so.
  abbrev pub Passes : Request → Type 0
  Passes r =
      (r' : Request) × (resolve_request_context N h.resolve_token r ≡ ok r')
      × MayPass C K T N h round_trip faithful transform policy lawful r'

  -- One of the two ways, according to whether the request passes.
  abbrev Goes : Request → Answer → Type 0
  Goes r a = (Passes r × IsSent a) ⊎ ((¬ Passes r) × IsRefusal a)

  arrived-Goes :
      (r : Request) (b : Result Request)
      → resolve_request_context N h.resolve_token r ≡ b
      → Goes r (arrived_to transform policy C K T N h round_trip b)
  unfolding write_error
  arrived-Goes r (err e) at_b =
      inr (λ (r', x, may). absurd (cc (at_b, x)), (text T.multierror e, refl))
  arrived-Goes r (ok r') at_b =
      let begun =
        begun_to transform policy C K T N h round_trip r' (routed C K T N h round_trip r') in
      let (sends, refuses) = settle-IsSent begun in
      let (to, from) = begun_passes C K T N h round_trip faithful transform policy lawful r' in
      elim (Succeeds-cases begun) [
        | inl u ↦ inl ((r', at_b, to u), sends u)
        | inr n ↦ inr (
          λ (q, x, may). let same : q ≡ r' = cc (at_b, x) in n (from (rw same at may)),
          refuses n,
        )
      ]

  paths_iff :
      (r : Request) (a : Answer) → Goes r a → (IsSent a ↔ Passes r) × (IsRefusal a ↔ (¬ Passes r))
  paths_iff r a (inl (passes, sent)) =
      ((λ _. passes, λ _. sent), (λ (body, x). absurd (cc (x, sent.1)), λ n. absurd (n passes)))
  paths_iff r a (inr (stays, (body, x))) = (
    (λ (q, y). absurd (cc (x, y)), λ passes. absurd (stays passes)),
    (λ _. stays, λ _. (body, x)),
  )

  -- For a JSON round trip that gives a job back, mutators that do what `transform` says and write to
  -- no job that is there, and validators that judge as `policy` says and write to no job but their
  -- own, whatever state the request meets: Nomad is sent a request exactly if the request passes, and
  -- the client is answered with status 500 and a text, with nothing sent, exactly if it does not. A
  -- request passes if its context can be resolved and, to register, plan or validate a job, its body
  -- decodes and holds a job, no mutator fails, and the mutated job can be encoded; to register or to
  -- plan it, all validators must accept the mutated job too.
  pub nacp_handler-Passes :
      (r : Request) (w : World J)
      → (IsSent (nacp_handler C K T N h round_trip r w).0 ↔ Passes r)
        × (IsRefusal (nacp_handler C K T N h round_trip r w).0 ↔ (¬ Passes r))
  unfolding reference
  nacp_handler-Passes r w =
      rw
        (
          nacp_handler-reference C K T N h round_trip faithful transform policy lawful r w,
          reference,
        )
        (paths_iff r _ (arrived-Goes r (resolve_request_context N h.resolve_token r) refl))
