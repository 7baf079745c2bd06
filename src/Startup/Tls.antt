-- ===== src/Startup/Tls.antt =====
-- The TLS of the server that `buildServer` makes (cmd/nacp/nacp.go).
use nacp.Common.{
  String, ◌≡◌, refl, ap, ◌↔◌, Bool, true, false, Option, none, some, Option-cases, Bool-cases, inl,
  inr, if◌then◌else◌,
}
use nacp.Common.Text.{is_empty}
use nacp.GoError.{ok, err, >>=-eq-ok, wrapping, wrapping-eq-ok, Result, Result-cases}
use nacp.Config.{ProxyTls, NomadServer, Config}
use nacp.Config.Validate.{validate}
use nacp.Http.{Bytes, Url}
use nacp.Mutator.OpaBundle.{OpaSdkClient}
use nacp.Instruments.{Metrics, new_metrics}
use nacp.Admission.{JobHandler}
use nacp.Startup.{
  no_client_cert, require_and_verify, TlsConfig, version_tls12, plain_tls, CertificateLibrary,
  read_pool, create_tls_config, listener_tls, Network, Server, new_server, build_parts,
  build_listener, build_behind, build_server, returns,
}

module _ (L : CertificateLibrary) where
  read_pool-eq-ok :
      (file : String) (pool : Bytes)
      → read_pool L file ≡ ok pool
      → (L.read_file file ≡ ok pool) × (L.append_certs pool ≡ true)
  unfolding read_pool
  read_pool-eq-ok file pool h =
      let (pem, read, rest) = >>=-eq-ok (L.read_file file) _ h in
      elim (Bool-cases (L.append_certs pem)) [
        | inl good ↦
            let same : pem ≡ pool = cc (rw good at rest) in (rw same at read, rw same at good)
        | inr bad ↦ absurd (cc (rw bad at rest))
      ]

  -- What clients must show to a listener with the TLS block `t`, under the configuration `o`.
  abbrev pub Demands : Option ProxyTls → Option TlsConfig → Type 0
  Demands none o = o ≡ none
  Demands (some t) o =
      (cfg : TlsConfig) × (o ≡ some cfg)
      × (cfg.min_version ≡ version_tls12)
      × ((cfg.client_auth ≡ require_and_verify)
          ↔ ((is_empty t.ca_file ≡ false) × (t.no_client_cert ≡ false)))
      × (is_empty t.ca_file ≡ false
          → (pem : Bytes) × (L.read_file t.ca_file ≡ ok pem)
            × (L.append_certs pem ≡ true)
            × (cfg.client_cas ≡ some pem))

  auth_iff :
      (b : Bool)
      → ((if b then no_client_cert else require_and_verify) ≡ require_and_verify) ↔ (b ≡ false)
  auth_iff true = (λ h. absurd (cc h), λ h. absurd (cc h))
  auth_iff false = (λ h. refl, λ h. refl)

  abbrev with_pool : Bytes → Bool → TlsConfig
  with_pool pool no_cert = record plain_tls {
    client_cas = some pool;
    client_auth = if no_cert then no_client_cert else require_and_verify;
  }

  create_tls_config-eq-ok :
      (file : String) (no_cert : Bool) (cfg : TlsConfig)
      → create_tls_config L file no_cert ≡ ok cfg
      → (pool : Bytes) × (L.read_file file ≡ ok pool)
        × (L.append_certs pool ≡ true)
        × (cfg ≡ with_pool pool no_cert)
  unfolding create_tls_config
  create_tls_config-eq-ok file no_cert cfg h =
      let (pool, made, rest) = >>=-eq-ok (read_pool L file) _ h in
      let (read, good) = read_pool-eq-ok file pool made in (pool, read, good, cc rest)

  listener_tls-Demands :
      (t : Option ProxyTls) (o : Option TlsConfig) → listener_tls L t ≡ ok o → Demands t o
  unfolding listener_tls create_tls_config
  listener_tls-Demands none o h = cc
  listener_tls-Demands (some t) o h = elim (Bool-cases (is_empty t.ca_file)) [
    | inl e ↦ (
      plain_tls,
      cc (rw (e, listener_tls) at h),
      refl,
      (λ h. absurd (cc h), λ (full, _). absurd (cc (e, full))),
      λ full. absurd (cc (e, full)),
    )
    | inr e ↦
        let (cfg, made, rest) =
          >>=-eq-ok
            (wrapping "failed to create tls config"
              (create_tls_config L t.ca_file t.no_client_cert))
            _ (rw (e, listener_tls) at h) in
        let (pool, read, good, same) =
          create_tls_config-eq-ok t.ca_file t.no_client_cert cfg
            (wrapping-eq-ok "failed to create tls config" _ made) in
        (
          with_pool pool t.no_client_cert,
          cc (rest, same),
          refl,
          (
            λ strict. (e, (auth_iff t.no_client_cert).0 strict),
            λ (_, asked). (auth_iff t.no_client_cert).1 asked,
          ),
          λ _. (pool, read, good, refl),
        )
  ]

module _ {J R S : Type 0} (N : Network J R S) where
  build_listener-Demands :
      (c : Config) (parts : Url × Option TlsConfig × JobHandler J) (metrics : Result Metrics)
      (s : Server J)
      → build_listener N c parts metrics ≡ returns (ok s)
      → Demands N.certificates c.tls s.tls_config
  unfolding build_listener
  build_listener-Demands c parts (err e) s h = absurd (cc h)
  build_listener-Demands c (backend, transport, handler) (ok metrics) s h =
      let (listener, made, h') =
        >>=-eq-ok (listener_tls N.certificates c.tls)
          (λ listener. ok (new_server N c backend transport listener handler)) {c = s} (cc h) in
      let same : new_server N c backend transport listener handler ≡ s = cc h' in
      rw (ap (λ z. z.tls_config) same) at (listener_tls-Demands N.certificates c.tls listener made)

  build_behind-Demands :
      (c : Config) (nomad : NomadServer) (sdk : Option (OpaSdkClient J)) (s : Server J)
      → build_behind N c nomad sdk ≡ returns (ok s)
      → Demands N.certificates c.tls s.tls_config
  unfolding build_behind
  build_behind-Demands c nomad sdk s h = elim (Result-cases (build_parts N c nomad sdk)) [
    | inl (e, x) ↦ absurd (cc (rw (x, build_behind) at h))
    | inr (parts, x) ↦
        build_listener-Demands c parts (new_metrics N.meter) s (rw (x, build_behind) at h)
  ]

  -- A server that `buildServer` makes has a valid configuration. It has no TLS configuration exactly if
  -- the configuration has no tls block. With one, it speaks TLS 1.2 at least; it demands a client
  -- certificate, and verifies it, exactly if a CA file is named and no_client_cert is not set; and
  -- with a CA file named, it knows the certificates of that file, which holds at least one.
  pub build_server-Demands :
      (c : Config) (sdk : Option (OpaSdkClient J)) (s : Server J)
      → build_server N c sdk ≡ returns (ok s)
      → (validate N.urls (some c) ≡ none) × Demands N.certificates c.tls s.tls_config
  unfolding build_server
  build_server-Demands c sdk s h = elim (Option-cases (validate N.urls (some c))) [
    | inr (e, x) ↦ absurd (cc (rw (x, build_server) at h))
    | inl x ↦ elim (Option-cases c.nomad) [
      | inl y ↦ absurd (cc (rw (x, y, build_server) at h))
      | inr (nomad, y) ↦ (x, build_behind-Demands c nomad sdk s (rw (x, y, build_server) at h))
    ]
  ]
