-- ===== src/Proxy/Bypass.antt =====
-- Requests that are not admitted (cmd/nacp/nacp.go).
use nacp.Common.{◌≡◌, ap, false, arith, none, inl, inr}
use nacp.GoError.{Result, ok, err, Result-cases}
use nacp.Admission.{JobCodec, JobHandler, World}
use nacp.Http.{Response}
use nacp.Proxy.Routes.{is_register, is_plan, is_validate}
use nacp.Proxy.Context.{
  Request, TokenService, is_actionable, limit_body, with_request_context, request_context,
  resolve_request_context,
}
use nacp.Proxy.Handlers.{Codecs, apply_admission}
use nacp.Proxy.Responses.{Responder, modify_proxy_response}
use nacp.Proxy.Serve.{Answer, bad_gateway, answered, modified, proxy, admitted, nacp_handler}

module _ {J R S : Type 0} (C : JobCodec J) (K : Codecs J R) (T : Responder S) (N : TokenService)
    (h : JobHandler J) (round_trip : Request → Result Response) where
  -- Nomad's response to a request, or 502, as it came.
  abbrev pub relayed : Request → Result Response → Answer
  relayed r (ok resp) = answered r resp
  relayed r (err e) = bad_gateway r

  -- Neither of the three tests holds.
  abbrev IsOther : Request → Type 0
  IsOther r =
      (is_register r.method r.path ≡ false)
      × (is_plan r.method r.path ≡ false)
      × (is_validate r.method r.path ≡ false)

  IsOther-of_not_actionable : (r : Request) → is_actionable r ≡ false → IsOther r
  unfolding is_actionable
  IsOther-of_not_actionable r e = (ground arith, ground arith, ground arith)

  apply_admission_other :
      (r : Request) (w : World J) → IsOther r → apply_admission T.multierror C K h r w ≡ (ok r, w)
  unfolding apply_admission
  apply_admission_other r w (a, b, c) = rw (a, b, c)

  proxy_other : (r : Request) → IsOther r → proxy C K T N h round_trip r ≡ relayed r (round_trip r)
  unfolding proxy modified modify_proxy_response
  proxy_other r (a, b, c) = elim (Result-cases (round_trip r)) [
    | inl (e, failed) ↦ rw (failed, proxy)
    | inr (resp, came) ↦ rw (came, proxy) (rw (a, b, c))
  ]

  resolve_other :
      (r : Request)
      → is_actionable r ≡ false
      → resolve_request_context N h.resolve_token r
        ≡ ok (with_request_context r (request_context N h.resolve_token r none))
  unfolding resolve_request_context limit_body
  resolve_other r e = rw (e, limit_body)

  -- Other traffic is proxied with no admission: Nomad gets the request as it came (but for the context
  -- value that is attached to it), the client gets Nomad's response as it came, no job is touched and
  -- no token is resolved.
  pub nacp_handler_bypass :
      (r : Request) (w : World J)
      → is_actionable r ≡ false
      → let r' = with_request_context r (request_context N h.resolve_token r none) in
        nacp_handler C K T N h round_trip r w ≡ (relayed r' (round_trip r'), w)
  unfolding nacp_handler admitted
  nacp_handler_bypass r w other =
      let r' = with_request_context r (request_context N h.resolve_token r none) in
      rw (resolve_other r other, nacp_handler)
        (rw (apply_admission_other r' w (IsOther-of_not_actionable r other))
          (ap (λ a. (a, w)) (proxy_other r' (IsOther-of_not_actionable r other))))
