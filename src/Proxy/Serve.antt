-- ===== src/Proxy/Serve.antt =====
-- cmd/nacp/nacp.go: a request from its arrival to the answer. `httputil.ReverseProxy` forwards the
-- request; it answers 502 if the transport or `ModifyResponse` fails.
use nacp.Common.{ℕ, String, Option, none, some}
use nacp.GoError.{GoError, text, Result, ok, err}
use nacp.Admission.{JobCodec, JobHandler, World}
use nacp.Http.{Response}
use nacp.Proxy.Context.{Request, TokenService, resolve_request_context}
use nacp.Proxy.Handlers.{Codecs, apply_admission}
use nacp.Proxy.Responses.{Responder, modify_proxy_response}

-- What the client sees, and the request that Nomad saw, if one was sent.
pub data Answer : Type 0 where
  -- `writeError`: the status and the text.
  refused : ℕ → String → Answer
  bad_gateway : Request → Answer
  answered : Request → Response → Answer

abbrev pub forwarded : Answer → Option Request
forwarded (refused status body) = none
forwarded (bad_gateway r) = some r
forwarded (answered r resp) = some r

module _ {J R S : Type 0} (C : JobCodec J) (K : Codecs J R) (T : Responder S) (N : TokenService)
    (h : JobHandler J) (round_trip : Request → Result Response) where
  -- `writeError`
  unfoldable pub write_error : GoError → Answer
  write_error e = refused 500 (text T.multierror e)

  unfoldable pub modified : Request → Result Response → Answer
  modified r (ok resp) = answered r resp
  modified r (err e) = bad_gateway r

  -- The reverse proxy, with `ModifyResponse`.
  unfoldable pub proxy : Request → Answer
  proxy r = elim (round_trip r) [
    | err e ↦ bad_gateway r
    | ok resp ↦ modified r (modify_proxy_response T r resp)
  ]

  unfoldable pub admitted : Result Request × World J → Answer × World J
  admitted (ok r, w) = (proxy r, w)
  admitted (err e, w) = (write_error e, w)

  -- The handler that `newProxyHandler` returns.
  unfoldable pub nacp_handler : Request → World J → Answer × World J
  nacp_handler r w = elim (resolve_request_context N h.resolve_token r) [
    | err e ↦ (write_error e, w)
    | ok r' ↦ admitted (apply_admission T.multierror C K h r' w)
  ]
