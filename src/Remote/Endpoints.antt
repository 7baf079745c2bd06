-- ===== src/Remote/Endpoints.antt =====
-- Webhook endpoints: what `Validate` accepts, and what the constructors of the controllers accept
-- (pkg/config/config.go, pkg/admissionctrl/remoteutil/remoteutil.go).
use nacp.Common.{
  ◌<>◌, ◌≡◌, ◌↔◌, ◌⊎◌, inl, inr, String, false, not, ◌&&◌, ◌||◌, none, ◌==◌, arith, eq_iff,
}
use nacp.Common.Text.{is_empty}
use nacp.GoError.{ok, Result-cases}
use nacp.Http.{Url}
use nacp.Value.{Format}
use nacp.Config.Validate.{UrlLibrary, validate_http_url}
use nacp.Config.Validate.Controllers.{refuse_if-eq-none}
use nacp.Remote.{parse_endpoint}
use nacp.Remote.Laws.{parse_endpoint_iff}

-- The two conditions on a URL.
schemes_agree :
    (u : Url)
    → (((not (u.scheme == "http") && not (u.scheme == "https")) || is_empty u.host) ≡ false)
      ↔ (((u.scheme ≡ "http") ⊎ (u.scheme ≡ "https")) × (is_empty u.host ≡ false))
schemes_agree u = (
  λ h. ground (arith, eq_iff u.scheme "http", eq_iff u.scheme "https"),
  λ (scheme, host). ground (arith, eq_iff u.scheme "http", eq_iff u.scheme "https"),
)

module _ (U : UrlLibrary) (F : Format) where
  -- `Validate` accepts the endpoint of a webhook exactly if the constructor of the controller does, so
  -- no endpoint that has passed validation fails when the controllers are created.
  pub validate_http_url-parse_endpoint :
      (what endpoint : String)
      → (validate_http_url U what endpoint ≡ none)
        ↔ ((u : Url) × (parse_endpoint F U.parse_url endpoint ≡ ok u))
  unfolding validate_http_url
  validate_http_url-parse_endpoint what endpoint = elim (Result-cases (U.parse_url endpoint)) [
    | inl (e, failed) ↦ (
      λ h. absurd (cc (rw (failed, validate_http_url) at h)),
      λ (u, made). absurd (cc ((parse_endpoint_iff F U.parse_url endpoint u).0 made).0),
    )
    | inr (u, parsed) ↦
        let checks =
          refuse_if-eq-none
            ((not (u.scheme == "http") && not (u.scheme == "https")) || is_empty u.host)
            (what <> " must be an absolute HTTP(S) URL") in
        (
          λ h.
              let (scheme, host) =
                (schemes_agree u).0 (checks.0 (rw (parsed, validate_http_url) at h)) in
              (u, (parse_endpoint_iff F U.parse_url endpoint u).1 (parsed, scheme, host)),
          λ (v, made).
              let (again, scheme, host) = (parse_endpoint_iff F U.parse_url endpoint v).0 made in
              let same : v ≡ u = cc (parsed, again) in
              rw (parsed, validate_http_url)
                (checks.1 ((schemes_agree u).1 (rw same at scheme, rw same at host))),
        )
  ]
