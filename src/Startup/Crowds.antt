-- ===== src/Startup/Crowds.antt =====
-- The server of a configuration, with many requests at a time (cmd/nacp/nacp.go).
use mathlib.Core.Path.{fun_ext}
use nacp.Common.{
  ℕ, ◌+◌, ◌≤◌, ◌<◌, ◌≡◌, ◌∙◌, sym, ap, Option, some, List, [], ◌∷◌, map, length, refl, arith,
}
use nacp.GoError.{ok}
use nacp.Config.{NomadServer, Config}
use nacp.Http.{Url}
use nacp.Admission.{JobHandler, World, Metric}
use nacp.Admission.Spec.{IsFaithful}
use nacp.Mutator.OpaBundle.{OpaSdkClient}
use nacp.Factory.{build_handler}
use nacp.Factory.Lawful.{transform_of, policy_of, build_handler-IsSharable}
use nacp.Proxy.Context.{Request}
use nacp.Proxy.Serve.{Answer, nacp_handler}
use nacp.Proxy.Concurrent.{finished, waiting, run, turns}
use nacp.Proxy.Concurrent.Reference.{IsSharable}
use nacp.Proxy.Concurrent.Events.{weigh, request_events, all_events}
use nacp.Proxy.Concurrent.Weights.{weigh-append}
use nacp.Proxy.Concurrent.Totals.{run-all_events, nacp_handler-request_events}
use nacp.Proxy.Concurrent.Serves.{run-reference, nacp_handler-reference}
use nacp.Startup.{TlsConfig, transport_tls, Network, Server, returns, build_server}
use nacp.Startup.Serving.{server-handler}

module _ {J R S : Type 0} (N : Network J R S) (faithful : IsFaithful N.platform.codec) (c : Config)
    (sdk : Option (OpaSdkClient J)) (s : Server J) (nomad : NomadServer) (backend : Url)
    (transport : Option TlsConfig) (h : JobHandler J) where
  -- The server of a configuration that is built, with a JSON round trip that gives a job back, and
  -- requests that are handled at once, on one heap, where a call of a controller is one step and
  -- Nomad, webhooks and OPA answer the same request in the same way each time: in whatever order the
  -- requests take their steps, once each has had a turn for each controller and five more, all are
  -- answered, and each with the answer that the server's handler gives to this request alone.
  pub server-run :
      (is : List ℕ) (rs : List Request) (w x : World J)
      → build_server N c sdk ≡ returns (ok s)
      → c.nomad ≡ some nomad
      → N.urls.parse_url nomad.address ≡ ok backend
      → transport_tls N.certificates nomad.tls ≡ ok transport
      → build_handler N.platform sdk c ≡ ok h
      → ((k : ℕ) → k < length rs → length h.mutators + length h.validators + 5 ≤ turns k is)
      → (run N.platform.codec N.codecs N.responder
          (N.token_service backend transport)
          h
          (N.round_trip backend transport)
          is
          (waiting rs)
          w).0
        ≡ map (λ r. finished (s.handler r x).0) rs
  server-run is rs w x built en eb et eh enough =
      let tokens = N.token_service backend transport in
      let trip = N.round_trip backend transport in
      let laws = build_handler-IsSharable N.platform sdk c h eh in
      run-reference N.platform.codec N.codecs N.responder tokens h trip faithful transform_of
        policy_of laws is rs w enough
      ∙ ap (λ f. map f rs)
          (fun_ext λ r. ap finished (
            sym (
              ap (λ f. (f r x).0)
                (server-handler N c sdk s nomad backend transport h built en eb et eh)
              ∙ nacp_handler-reference N.platform.codec N.codecs N.responder tokens h trip faithful
                  transform_of policy_of laws r x)))

-- The weight of what a handler counts for each of the requests alone, in a state of its own.
unfoldable pub weigh_each :
    {J : Type 0} → (Metric → ℕ) → (Request → World J → Answer × World J) → List Request → ℕ
weigh_each f handler [] = 0
weigh_each f handler (r ∷ rs) =
    weigh f (handler r (record { heap = []; metrics = [] })).1.metrics + weigh_each f handler rs

module _ {J R S : Type 0} (f : Metric → ℕ) (N : Network J R S)
    (faithful : IsFaithful N.platform.codec) (backend : Url) (transport : Option TlsConfig)
    (h : JobHandler J) (lawful : IsSharable transform_of policy_of h) where
  weigh_each-all_events :
      (rs : List Request)
      → weigh_each f
          (nacp_handler N.platform.codec N.codecs N.responder
            (N.token_service backend transport)
            h
            (N.round_trip backend transport))
          rs
        ≡ weigh f (
            all_events transform_of policy_of N.platform.codec N.codecs N.responder
              (N.token_service backend transport)
              h
              (N.round_trip backend transport)
              rs)
  unfolding weigh_each all_events weigh
  weigh_each-all_events [] = refl
  weigh_each-all_events (r ∷ rs) =
      let tokens = N.token_service backend transport in
      let trip = N.round_trip backend transport in
      omega (
        arith,
        weigh_each-all_events rs,
        nacp_handler-request_events f N.platform.codec N.codecs N.responder tokens h trip faithful
            transform_of policy_of lawful r (record { heap = []; metrics = [] }),
        weigh-append f (
            request_events transform_of policy_of N.platform.codec N.codecs N.responder tokens h
              trip r),
      )

module _ {J R S : Type 0} (f : Metric → ℕ) (N : Network J R S)
    (faithful : IsFaithful N.platform.codec) (c : Config) (sdk : Option (OpaSdkClient J))
    (s : Server J) (nomad : NomadServer) (backend : Url) (transport : Option TlsConfig)
    (h : JobHandler J) where
  -- The server of a configuration that is built, with a JSON round trip that gives a job back, and
  -- requests that are handled at once, as in `server-run`: whatever weight each call of a counter is
  -- given, those of all the requests weigh together as much as those that the server's handler makes
  -- for each of the requests alone, in whatever order they take their steps, once each has had a
  -- turn for each controller and five more. So no call of a counter is lost, or made twice.
  pub server-counts :
      (is : List ℕ) (rs : List Request) (w : World J)
      → build_server N c sdk ≡ returns (ok s)
      → c.nomad ≡ some nomad
      → N.urls.parse_url nomad.address ≡ ok backend
      → transport_tls N.certificates nomad.tls ≡ ok transport
      → build_handler N.platform sdk c ≡ ok h
      → ((k : ℕ) → k < length rs → length h.mutators + length h.validators + 5 ≤ turns k is)
      → weigh f
          (run N.platform.codec N.codecs N.responder
            (N.token_service backend transport)
            h
            (N.round_trip backend transport)
            is
            (waiting rs)
            w).1.metrics
        ≡ weigh f w.metrics + weigh_each f s.handler rs
  server-counts is rs w built en eb et eh enough =
      let laws = build_handler-IsSharable N.platform sdk c h eh in
      rw
        (
          server-handler N c sdk s nomad backend transport h built en eb et eh,
          weigh_each-all_events f N faithful backend transport h laws rs,
        )
        (run-all_events f N.platform.codec N.codecs N.responder (N.token_service backend transport)
          h (N.round_trip backend transport) faithful transform_of policy_of laws is rs w enough)
