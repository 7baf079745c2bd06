-- ===== src/Startup.antt =====
-- cmd/nacp/nacp.go: TLS configurations and the server. The file system, certificates, the
-- OPA SDK and what runs behind the server are parameters. Log lines are left out.
pub mod Engine
pub mod Run
pub mod Steps
pub mod Tls
pub mod Releases
pub mod Endings
pub mod Serving
pub mod Validating
pub mod Crowds
use nacp.Common.{
  ℕ, ◌+◌, String, ◌<>◌, Bool, true, false, Option, none, some, List, [], ◌∷◌, ◌++◌, if◌then◌else◌,
}
use nacp.Common.Int.{ℤ, pos, negsuc}
use nacp.Common.Text.{is_empty, itoa}
pub use nacp.GoError.{Built, panicked, returns}
use nacp.GoError.{
  nil_dereference, wrapping_built, GoError, message, wrap, Result, ok, err, ◌>>=◌, wrapping,
}
use nacp.Config.{ProxyTls, NomadServer, NomadServerTls, OpaSdk, Config}
use nacp.Config.Validate.{UrlLibrary, validate}
use nacp.Config.Load.{default_config, load_config}
use nacp.Http.{Bytes, Url, Response}
use nacp.Admission.{JobHandler, World}
use nacp.Mutator.OpaBundle.{OpaSdkClient}
use nacp.Factory.{Platform, build_handler}
use nacp.Instruments.{Meter, Metrics, new_metrics}
use nacp.Effects.{opa_config, opa_engine, started, stopped, Called, done, behind, deferring}
use nacp.Proxy.Context.{Request, TokenService}
use nacp.Proxy.Handlers.{Codecs}
use nacp.Proxy.Responses.{Responder}
use nacp.Proxy.Serve.{Answer, nacp_handler}

-- `buildConfig`, for a configuration file that is named, and for none.
unfoldable pub build_config : UrlLibrary → (String → Config → Result Config) → String → Built Config
build_config L decode_file path =
    if is_empty path
    then returns (elim (validate L (some default_config)) [
      | some e ↦ err (wrap "invalid default config" e)
      | none ↦ ok default_config
    ])
    else wrapping_built "failed to load config" (load_config L decode_file path)

-- `tls.ClientAuthType`, as far as it is used. `no_client_cert` is its zero.
pub data ClientAuth : Type 0 where
  no_client_cert require_and_verify : ClientAuth

-- `tls.Config`: an `x509.CertPool` is the bytes that were read into it, a `tls.Certificate` what its
-- files hold.
pub record TlsConfig : Type 0 where
  pub min_version : ℕ
  pub insecure_skip_verify : Bool
  pub certificates : List Bytes
  pub root_cas : Option Bytes
  pub client_cas : Option Bytes
  pub client_auth : ClientAuth

-- `tls.VersionTLS12`
abbrev pub version_tls12 : ℕ
version_tls12 = 0x0303

-- `&tls.Config{MinVersion: tls.VersionTLS12}`
abbrev pub plain_tls : TlsConfig
plain_tls = record {
  min_version = version_tls12;
  insecure_skip_verify = false;
  certificates = [];
  root_cas = none;
  client_cas = none;
  client_auth = no_client_cert;
}

-- Certificates in files.
pub record CertificateLibrary : Type 0 where
  pub read_file : String → Result Bytes
  -- Whether `AppendCertsFromPEM` finds a certificate.
  pub append_certs : Bytes → Bool
  -- `tls.LoadX509KeyPair`
  pub load_key_pair : String → String → Result Bytes
  pub quote : String → String

module _ (L : CertificateLibrary) where
  open L use {read_file, append_certs, load_key_pair, quote}

  -- The certificates of a CA file.
  read_pool : String → Result Bytes
  read_pool ca_file = read_file ca_file >>= λ pem.
      if append_certs pem
      then ok pem
      else err (message ("CA file " <> quote ca_file <> " does not contain a valid certificate"))

  -- `createTlsConfig`
  unfoldable pub create_tls_config : String → Bool → Result TlsConfig
  unfolding read_pool
  create_tls_config ca_file no_cert = read_pool ca_file >>= λ pool. ok (record plain_tls {
    client_cas = some pool;
    client_auth = if no_cert then no_client_cert else require_and_verify;
  })

  -- The certificate that NACP shows to Nomad, if one is configured.
  with_certificate : NomadServerTls → TlsConfig → Result TlsConfig
  with_certificate c t =
      if is_empty c.cert_file
      then ok t
      else load_key_pair c.cert_file c.key_file >>= λ cert.
          ok (record t { certificates = cert ∷ [] })

  with_roots : NomadServerTls → TlsConfig → Result TlsConfig
  with_roots c t =
      if is_empty c.ca_file
      then ok t
      else read_pool c.ca_file >>= λ pool. ok (record t { root_cas = some pool })

  -- `buildTlsConfig`
  unfoldable pub build_tls_config : NomadServerTls → Result TlsConfig
  unfolding with_certificate with_roots read_pool
  build_tls_config c =
      with_certificate c (record plain_tls { insecure_skip_verify = c.insecure_skip_verify })
      >>= with_roots c

  -- The TLS configuration of the proxy's transport, if Nomad is reached by TLS.
  unfoldable pub transport_tls : Option NomadServerTls → Result (Option TlsConfig)
  transport_tls none = ok none
  transport_tls (some c) =
      wrapping "failed to create custom transport" (build_tls_config c) >>= λ t. ok (some t)

  -- The TLS configuration of the listener.
  unfoldable pub listener_tls : Option ProxyTls → Result (Option TlsConfig)
  listener_tls none = ok none
  listener_tls (some c) =
      if is_empty c.ca_file
      then ok (some plain_tls)
      else wrapping "failed to create tls config" (create_tls_config c.ca_file c.no_client_cert)
        >>= λ t. ok (some t)

-- `%d`
abbrev decimal : ℤ → String
decimal (pos n) = itoa n
decimal (negsuc n) = "-" <> itoa (n + 1)

-- `http.Server`; times are in seconds.
pub record Server (J : Type 0) : Type 0 where
  pub addr : String
  pub tls_config : Option TlsConfig
  pub handler : Request → World J → Answer × World J
  pub read_header_timeout : ℕ
  pub read_timeout : ℕ
  pub write_timeout : ℕ
  pub idle_timeout : ℕ

-- `nomadTimeout`
abbrev pub nomad_timeout : ℕ
nomad_timeout = 310

-- What the server runs on: the libraries of the controllers and of the proxy, and the connection to
-- Nomad under a TLS configuration.
pub record Network (J R S : Type 0) : Type 1 where
  pub platform : Platform J
  pub urls : UrlLibrary
  pub certificates : CertificateLibrary
  pub codecs : Codecs J R
  pub responder : Responder S
  pub token_service : Url → Option TlsConfig → TokenService
  pub round_trip : Url → Option TlsConfig → Request → Result Response
  -- `otel.Meter("nacp.controller")`
  pub meter : Meter

module _ {J R S : Type 0} (N : Network J R S) where
  -- The server, of its parts.
  abbrev pub new_server :
      Config → Url → Option TlsConfig → Option TlsConfig → JobHandler J → Server J
  new_server c backend transport listener handler = record {
    addr = c.bind <> ":" <> decimal c.port;
    tls_config = listener;
    handler =
        nacp_handler N.platform.codec N.codecs N.responder (N.token_service backend transport)
          handler (N.round_trip backend transport);
    read_header_timeout = 15;
    read_timeout = nomad_timeout;
    write_timeout = nomad_timeout;
    idle_timeout = 120;
  }

  -- `buildServer` between `Validate` and `NewJobHandler`.
  unfoldable pub build_parts :
      Config
      → NomadServer
      → Option (OpaSdkClient J)
      → Result (Url × Option TlsConfig × JobHandler J)
  build_parts c nomad sdk =
      wrapping "failed to parse nomad address" (N.urls.parse_url nomad.address) >>= λ backend.
      transport_tls N.certificates nomad.tls >>= λ transport.
      build_handler N.platform sdk c >>= λ handler. ok (backend, transport, handler)

  -- `buildServer` behind `newMetrics`.
  unfoldable pub build_listener :
      Config → Url × Option TlsConfig × JobHandler J → Result Metrics → Built (Server J)
  build_listener c parts (err e) = panicked e
  build_listener c (backend, transport, handler) (ok metrics) = returns (
      listener_tls N.certificates c.tls >>= λ listener.
      ok (new_server c backend transport listener handler))

  -- `buildServer` behind `Validate`.
  unfoldable pub build_behind : Config → NomadServer → Option (OpaSdkClient J) → Built (Server J)
  unfolding build_parts build_listener
  build_behind c nomad sdk = elim (build_parts c nomad sdk) [
    | err e ↦ returns (err e)
    | ok parts ↦ build_listener c parts (new_metrics N.meter)
  ]

  -- `buildServer`
  unfoldable pub build_server : Config → Option (OpaSdkClient J) → Built (Server J)
  unfolding build_behind
  build_server c sdk = elim (validate N.urls (some c)) [
    | some e ↦ returns (err (wrap "invalid config" e))
    | none ↦ elim c.nomad [
      | none ↦ panicked nil_dereference
      | some nomad ↦ build_behind c nomad sdk
    ]
  ]
