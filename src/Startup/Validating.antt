-- ===== src/Startup/Validating.antt =====
-- What the server of a configuration says of a job that is validated, and of the same job when it is
-- registered (cmd/nacp/nacp.go).
use nacp.Common.{◌≡◌, ◌∙◌, ap, true, false, Option, some}
use nacp.GoError.{IsFlattening, Result, ok}
use nacp.Config.{NomadServer, Config}
use nacp.Http.{Url}
use nacp.Admission.{JobHandler, World}
use nacp.Admission.Spec.{IsFaithful}
use nacp.Mutator.OpaBundle.{OpaSdkClient}
use nacp.Factory.{build_handler}
use nacp.Factory.Lawful.{transform_of, policy_of, build_handler-IsLawful}
use nacp.Proxy.Routes.{is_register, is_plan, is_validate}
use nacp.Proxy.Context.{Request, resolve_request_context}
use nacp.Proxy.Handlers.{Envelope, EnvelopeCodec, admit, apply_admission, handle_validate}
use nacp.Proxy.Agreement.{is_forwarded, passes, CanEncode, admit-passes}
use nacp.Proxy.Serve.{nacp_handler}
use nacp.Startup.{TlsConfig, transport_tls, Network, Server, build_server, returns}
use nacp.Startup.Serving.{
  IsAdmitted, answer_to, handler-answer_to, admitted-answer_to, server-handler,
}

module _ {J R S : Type 0} (N : Network J R S) where
  -- A request to validate a job.
  abbrev pub IsValidation : Request → Type 0
  IsValidation r =
      (is_register r.method r.path ≡ false)
      × (is_plan r.method r.path ≡ false)
      × (is_validate r.method r.path ≡ true)

  apply_admission_of_IsValidation :
      (h : JobHandler J) (r : Request) (w : World J)
      → IsValidation r
      → apply_admission N.responder.multierror N.platform.codec N.codecs h r w
        ≡ handle_validate N.responder.multierror N.platform.codec N.codecs.validate h r w
  unfolding apply_admission
  apply_admission_of_IsValidation h r w (a, b, c) = rw (a, b, c)

  module _ (backend : Url) (transport : Option TlsConfig) (h : JobHandler J) where
    validation-answer_to :
        (r r' : Request) (w : World J)
        → resolve_request_context (N.token_service backend transport) h.resolve_token r ≡ ok r'
        → IsValidation r'
        → (nacp_handler N.platform.codec N.codecs N.responder
            (N.token_service backend transport)
            h
            (N.round_trip backend transport)
            r
            w).0
          ≡ answer_to N backend transport h
              (handle_validate N.responder.multierror N.platform.codec N.codecs.validate h r' w).0
    unfolding nacp_handler
    validation-answer_to r r' w resolved is =
        rw (resolved, apply_admission_of_IsValidation h r' w is, nacp_handler)
          (admitted-answer_to N backend transport h
            (handle_validate N.responder.multierror N.platform.codec N.codecs.validate h r' w))

  module _ (flat : IsFlattening N.responder.multierror) (faithful : IsFaithful N.platform.codec)
      (c : Config) (sdk : Option (OpaSdkClient J)) (s : Server J) (nomad : NomadServer)
      (backend : Url) (transport : Option TlsConfig) (h : JobHandler J) where
    -- The server of a configuration that is built, with `Append` as go-multierror documents it, a
    -- JSON round trip that gives a job back, and codecs that can encode every request: of a request to
    -- register or to plan a job, and a request to validate it, whose contexts are resolved to the
    -- same, whose bodies decode, and which may meet different states, the first is forwarded to
    -- Nomad exactly if the second is forwarded and carries no error of a validator; and the client
    -- gets what the reverse proxy makes of what is forwarded, or else status 500 and the error.
    pub server-passes :
        (K : EnvelopeCodec J R) (r r' q q' : Request) (e f : Envelope J R) (j : J) (w x : World J)
        → build_server N c sdk ≡ returns (ok s)
        → c.nomad ≡ some nomad
        → N.urls.parse_url nomad.address ≡ ok backend
        → transport_tls N.certificates nomad.tls ≡ ok transport
        → build_handler N.platform sdk c ≡ ok h
        → resolve_request_context (N.token_service backend transport) h.resolve_token r ≡ ok r'
        → resolve_request_context (N.token_service backend transport) h.resolve_token q ≡ ok q'
        → r'.values.request_context ≡ q'.values.request_context
        → IsAdmitted N r' K
        → IsValidation q'
        → CanEncode K
        → CanEncode N.codecs.validate
        → K.decode r'.body ≡ ok e
        → N.codecs.validate.decode q'.body ≡ ok f
        → e.job ≡ some j
        → f.job ≡ some j
        → (a : Result Request) × (b : Result Request) × ((s.handler r w).0
            ≡ answer_to N backend transport h a)
          × ((s.handler q x).0 ≡ answer_to N backend transport h b)
          × (is_forwarded a ≡ passes b)
    server-passes K r r' q q' e f j w x built en eb et eh resolved_r resolved_q same is_r is_q can_k
          can_v decoded_r decoded_q found_r found_q =
        (
          (admit N.responder.multierror N.platform.codec K h r' w).0,
          (handle_validate N.responder.multierror N.platform.codec N.codecs.validate h q' x).0,
          ap (λ g. (g r w).0) (server-handler N c sdk s nomad backend transport h built en eb et eh)
              ∙ handler-answer_to N backend transport h K r r' w resolved_r is_r,
          ap (λ g. (g q x).0) (server-handler N c sdk s nomad backend transport h built en eb et eh)
              ∙ validation-answer_to backend transport h q q' x resolved_q is_q,
          admit-passes N.responder.multierror N.platform.codec flat faithful transform_of policy_of
              K N.codecs.validate h r' q' e f j w x
              (build_handler-IsLawful N.platform sdk N.responder.multierror flat faithful K c h eh)
              can_k can_v decoded_r decoded_q found_r found_q same,
        )
