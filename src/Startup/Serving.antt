-- ===== src/Startup/Serving.antt =====
-- What the server of a configuration does with a job (cmd/nacp/nacp.go).
use mathlib.Core.Path.{subst}
use nacp.Common.{
  List, map, ◌≡◌, ◌⊎◌, inl, inr, refl, ap, ◌∙◌, sym, true, false, Option, some, [], Option-cases,
}
use nacp.GoError.{text, IsFlattening, Result, ok, err, >>=-eq-ok}
use nacp.Config.{NomadServer, Config}
use nacp.Config.Validate.{validate}
use nacp.Http.{Url}
use nacp.Admission.{JobHandler, World}
use nacp.Admission.Spec.{IsFaithful, transform_all}
use nacp.Mutator.OpaBundle.{OpaSdkClient}
use nacp.Factory.{build_handler}
use nacp.Factory.Lawful.{transform_of, policy_of, build_handler-IsLawful}
use nacp.Proxy.Routes.{is_register, is_plan}
use nacp.Proxy.Context.{Request, resolve_request_context}
use nacp.Proxy.Handlers.{
  Envelope, EnvelopeCodec, admit, apply_admission, handle_register, handle_plan,
}
use nacp.Proxy.Admits.{Forwards, admit-Forwards}
use nacp.Proxy.Sequences.{seen, serve_all, IsSteady, serve_all-seen, nacp_handler-IsSteady}
use nacp.Proxy.Serve.{Answer, refused, proxy, write_error, admitted, nacp_handler}
use nacp.Instruments.{Metrics, new_metrics}
use nacp.Startup.{
  TlsConfig, transport_tls, listener_tls, Network, Server, new_server, build_parts, build_listener,
  build_behind, build_server, returns,
}

module _ {J R S : Type 0} (N : Network J R S) where
  -- The codec of a request to register or to plan a job.
  abbrev pub IsAdmitted : Request → EnvelopeCodec J R → Type 0
  IsAdmitted r K =
      ((is_register r.method r.path ≡ true) × (N.codecs.register ≡ K))
      ⊎ ((is_register r.method r.path ≡ false)
          × (is_plan r.method r.path ≡ true)
          × (N.codecs.plan ≡ K))

  apply_admission_of_IsAdmitted :
      (K : EnvelopeCodec J R) (h : JobHandler J) (r : Request) (w : World J)
      → IsAdmitted r K
      → apply_admission N.responder.multierror N.platform.codec N.codecs h r w
        ≡ admit N.responder.multierror N.platform.codec K h r w
  unfolding apply_admission handle_register handle_plan
  apply_admission_of_IsAdmitted K h r w (inl (e, same)) = rw (e, same)
  apply_admission_of_IsAdmitted K h r w (inr (e, f, same)) = rw (e, f, same)

  module _ (backend : Url) (transport : Option TlsConfig) (h : JobHandler J) where
    -- The refusal, or what the reverse proxy makes of the request that is sent to Nomad.
    abbrev pub answer_to : Result Request → Answer
    answer_to (err e) = refused 500 (text N.responder.multierror e)
    answer_to (ok r) =
        proxy N.platform.codec N.codecs N.responder (N.token_service backend transport) h
          (N.round_trip backend transport) r

    pub admitted-answer_to :
        (a : Result Request × World J)
        → (admitted N.platform.codec N.codecs N.responder
            (N.token_service backend transport)
            h
            (N.round_trip backend transport)
            a).0
          ≡ answer_to a.0
    unfolding admitted write_error
    admitted-answer_to (ok r, w) = refl
    admitted-answer_to (err e, w) = refl

    pub handler-answer_to :
        (K : EnvelopeCodec J R) (r r' : Request) (w : World J)
        → resolve_request_context (N.token_service backend transport) h.resolve_token r ≡ ok r'
        → IsAdmitted r' K
        → (nacp_handler N.platform.codec N.codecs N.responder
            (N.token_service backend transport)
            h
            (N.round_trip backend transport)
            r
            w).0
          ≡ answer_to (admit N.responder.multierror N.platform.codec K h r' w).0
    unfolding nacp_handler
    handler-answer_to K r r' w resolved is =
        rw (resolved, apply_admission_of_IsAdmitted K h r' w is, nacp_handler)
          (admitted-answer_to (admit N.responder.multierror N.platform.codec K h r' w))

  module _ (c : Config) (sdk : Option (OpaSdkClient J)) (s : Server J) (nomad : NomadServer)
      (backend : Url) (transport : Option TlsConfig) (h : JobHandler J) where
    build_listener-handler :
        (metrics : Result Metrics)
        → build_listener N c (backend, transport, h) metrics ≡ returns (ok s)
        → s.handler
          ≡ nacp_handler N.platform.codec N.codecs N.responder
              (N.token_service backend transport)
              h
              (N.round_trip backend transport)
    unfolding build_listener
    build_listener-handler (err e) built = absurd (cc built)
    build_listener-handler (ok metrics) built =
        let (listener, made, rest) =
          >>=-eq-ok (listener_tls N.certificates c.tls)
            (λ listener. ok (new_server N c backend transport listener h)) {c = s} (cc built) in
        let same : new_server N c backend transport listener h ≡ s = cc rest in
        sym (ap (λ z. z.handler) same)

    pub server-handler :
        build_server N c sdk ≡ returns (ok s)
        → c.nomad ≡ some nomad
        → N.urls.parse_url nomad.address ≡ ok backend
        → transport_tls N.certificates nomad.tls ≡ ok transport
        → build_handler N.platform sdk c ≡ ok h
        → s.handler
          ≡ nacp_handler N.platform.codec N.codecs N.responder
              (N.token_service backend transport)
              h
              (N.round_trip backend transport)
    unfolding build_server build_behind build_parts
    server-handler built en eb et eh = elim (Option-cases (validate N.urls (some c))) [
      | inr (e, x) ↦ absurd (cc (rw (x, build_server) at built))
      | inl x ↦
          build_listener-handler (new_metrics N.meter)
            (rw (x, en, eb, et, eh, build_server, build_behind, build_parts) at built)
    ]

  module _ (flat : IsFlattening N.responder.multierror) (faithful : IsFaithful N.platform.codec)
      (c : Config) (sdk : Option (OpaSdkClient J)) (s : Server J) (nomad : NomadServer)
      (backend : Url) (transport : Option TlsConfig) (h : JobHandler J) where
    -- The server of a configuration that is built, with `Append` as go-multierror documents it and a
    -- JSON round trip that gives a job back: a request to register or to plan a job, whose context
    -- can be resolved and whose body decodes, is answered with status 500 and the error, without a
    -- request to Nomad, if a mutator fails or a validator does not accept. Otherwise, if the result
    -- can be encoded, Nomad gets the job that the configured mutators make of it, one after another,
    -- and the client gets what comes back, with the warnings of all controllers handed to the
    -- response handler. Each controller does what it does to that job on its own.
    pub server-Forwards :
        (K : EnvelopeCodec J R) (r r' : Request) (envelope : Envelope J R) (j : J) (w : World J)
        → build_server N c sdk ≡ returns (ok s)
        → c.nomad ≡ some nomad
        → N.urls.parse_url nomad.address ≡ ok backend
        → transport_tls N.certificates nomad.tls ≡ ok transport
        → build_handler N.platform sdk c ≡ ok h
        → resolve_request_context (N.token_service backend transport) h.resolve_token r ≡ ok r'
        → IsAdmitted r' K
        → K.decode r'.body ≡ ok envelope
        → envelope.job ≡ some j
        → (result : Result Request) × ((s.handler r w).0 ≡ answer_to backend transport h result)
          × Forwards N.responder.multierror N.platform.codec flat faithful transform_of policy_of K
              h r' envelope
              (transform_all transform_of r'.values.request_context h.mutators j [])
              result
    server-Forwards K r r' envelope j w built en eb et eh resolved is decoded found = (
      (admit N.responder.multierror N.platform.codec K h r' w).0,
      ap (λ f. (f r w).0) (server-handler c sdk s nomad backend transport h built en eb et eh)
          ∙ handler-answer_to backend transport h K r r' w resolved is,
      admit-Forwards N.responder.multierror N.platform.codec flat faithful transform_of policy_of K
          h r' envelope j w
          (build_handler-IsLawful N.platform sdk N.responder.multierror flat faithful K c h eh)
          decoded found,
    )

    -- The server of a configuration that is built, with `Append` as go-multierror documents it and a
    -- JSON round trip that gives a job back, and requests that come one after another, where Nomad,
    -- webhooks and OPA answer the same request in the same way each time: what Nomad sees of each
    -- request on the wire, and which of them it does not see at all, is what a server that has served
    -- nothing else makes of that request.
    pub server-keeps_apart :
        (rs : List Request) (w : World J)
        → build_server N c sdk ≡ returns (ok s)
        → c.nomad ≡ some nomad
        → N.urls.parse_url nomad.address ≡ ok backend
        → transport_tls N.certificates nomad.tls ≡ ok transport
        → build_handler N.platform sdk c ≡ ok h
        → map seen (serve_all s.handler rs w).0
          ≡ map (λ r. seen (s.handler r (record { heap = []; metrics = [] })).0) rs
    server-keeps_apart rs w built en eb et eh = serve_all-seen s.handler rs w (
        subst IsSteady (sym (server-handler c sdk s nomad backend transport h built en eb et eh)) (
          nacp_handler-IsSteady N.platform.codec N.codecs N.responder
            (N.token_service backend transport) h (N.round_trip backend transport) flat faithful
            transform_of policy_of
            (build_handler-IsLawful N.platform sdk N.responder.multierror flat faithful
              N.codecs.register c h eh)))
