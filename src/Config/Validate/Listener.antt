-- ===== src/Config/Validate/Listener.antt =====
-- Which listeners and which configurations `Validate` accepts (pkg/config/config.go).
use nacp.Common.{or-eq-false, ℕ, ◌≡◌, refl, ◌≤◌, ◌↔◌, false, ◌||◌, Option, none, some, arith, ltb}
use nacp.Common.Int.{ℤ, pos, negsuc, lt_ℕ, gt_ℕ}
use nacp.Common.Text.{is_empty}
use nacp.Config.{ProxyTls, OpaSdk, Config}
use nacp.Config.Validate.{
  UrlLibrary, is_blank, validate_listener, validate_nomad_config, validate_controllers, validate,
}
use nacp.Config.Validate.Controllers.{refuse_if-eq-none, three_checks, then_check-eq-none}

-- A port that a TCP listener can be bound to, but for 0.
abbrev pub IsPort : ℤ → Type 0
IsPort p = (n : ℕ) × (p ≡ pos n) × (1 ≤ n) × (n ≤ 65535)

abbrev pub HasKeyPair : Option ProxyTls → Type 0
HasKeyPair none = Unit
HasKeyPair (some t) = (is_empty t.cert_file ≡ false) × (is_empty t.key_file ≡ false)

in_range : (n : ℕ) → 1 ≤ n → n ≤ 65535 → (ltb n 1 || ltb 65535 n) ≡ false
in_range n l u = ground arith

IsPort-iff : (p : ℤ) → ((lt_ℕ p 1 || gt_ℕ p 65535) ≡ false) ↔ IsPort p
IsPort-iff (pos n) = (
  λ h. (n, refl, ground arith, ground arith),
  λ (m, e, l, u).
      let same : n ≡ m = cc e in in_range n (omega (arith, same, l)) (omega (arith, same, u)),
)
IsPort-iff (negsuc n) = (λ h. absurd (cc h), λ (m, e, l, u). absurd (cc e))

key_pair_iff :
    (o : Option ProxyTls)
    → (elim o [ none ↦ false | some t ↦ is_empty t.cert_file || is_empty t.key_file ] ≡ false)
      ↔ HasKeyPair o
key_pair_iff none = (λ h. tt, λ h. refl)
key_pair_iff (some t) = or-eq-false (is_empty t.cert_file) (is_empty t.key_file)

abbrev pub HasOpaSdk : Option OpaSdk → Type 0
HasOpaSdk none = Unit
HasOpaSdk (some s) = (is_blank s.id ≡ false) × (is_blank s.config_path ≡ false)

opa_sdk_iff :
    (o : Option OpaSdk)
    → (elim o [ none ↦ false | some s ↦ is_blank s.id || is_blank s.config_path ] ≡ false)
      ↔ HasOpaSdk o
opa_sdk_iff none = (λ h. tt, λ h. refl)
opa_sdk_iff (some s) = or-eq-false (is_blank s.id) (is_blank s.config_path)

module _ (L : UrlLibrary) where
  listener_iff :
      (c : Config)
      → (validate_listener L c ≡ none)
        ↔ (IsPort c.port × (is_blank c.bind ≡ false) × HasKeyPair c.tls)
  unfolding validate_listener
  listener_iff c =
      let port =
        refuse_if-eq-none (lt_ℕ c.port 1 || gt_ℕ c.port 65535) "port must be between 1 and 65535" in
      let bind = refuse_if-eq-none (is_blank c.bind) "bind address is required" in
      let tls =
        refuse_if-eq-none
          (elim c.tls [ none ↦ false | some t ↦ is_empty t.cert_file || is_empty t.key_file ])
          "listener TLS requires cert_file and key_file" in
      let checks = three_checks _ _ _ in
      (
        λ h.
            let (p, b, t) = checks.0 h in
            ((IsPort-iff c.port).0 (port.0 p), bind.0 b, (key_pair_iff c.tls).0 (tls.0 t)),
        λ (p, b, t).
            checks.1 (port.1 ((IsPort-iff c.port).1 p), bind.1 b, tls.1 ((key_pair_iff c.tls).1 t)),
      )

  -- `Validate` returns nil exactly for a configuration whose port lies between 1 and 65535, whose
  -- bind address is not blank, whose listener TLS and opa_sdk blocks, where given, are filled in,
  -- and whose nomad block and controllers pass their own checks.
  pub validate_iff :
      (c : Config)
      → (validate L (some c) ≡ none) ↔ (
          IsPort c.port
          × (is_blank c.bind ≡ false)
          × HasKeyPair c.tls
          × HasOpaSdk c.opa_sdk
          × (validate_nomad_config L c.nomad ≡ none)
          × (validate_controllers L c ≡ none))
  unfolding validate
  validate_iff c =
      let outer = then_check-eq-none (validate_listener L c) _ in
      let inner = three_checks (validate_nomad_config L c.nomad) _ (validate_controllers L c) in
      let sdk =
        refuse_if-eq-none
          (elim c.opa_sdk [ none ↦ false | some s ↦ is_blank s.id || is_blank s.config_path ])
          "opa_sdk requires a non-empty id and config_path" in
      (
        λ h.
            let (l, r) = outer.0 h in
            let (n, o, k) = inner.0 r in
            let (p, b, t) = (listener_iff c).0 l in
            (p, b, t, (opa_sdk_iff c.opa_sdk).0 (sdk.0 o), n, k),
        λ (p, b, t, o, n, k).
            outer.1
              ((listener_iff c).1 (p, b, t), inner.1 (n, sdk.1 ((opa_sdk_iff c.opa_sdk).1 o), k)),
      )
