-- ===== src/Webhooks/Told.antt =====
-- What a webhook is told in the headers of its request (pkg/admissionctrl/mutator and
-- pkg/admissionctrl/validator).
use nacp.Common.{◌≡◌, ◌∙◌, ap, String, Option, [], ◌==◌, if◌then◌else◌}
use nacp.Config.{RequestContext}
use nacp.Http.{Bytes, get_header, set_header, get_header-set_header}
use nacp.Payloads.{Input, Web}
use nacp.Remote.{apply_context_headers}
use nacp.Remote.Projection.{projected, get_header-apply_context_headers}
use nacp.Webhooks.{webhook_request, webhook_headers}

-- The value that a header of a request to a webhook has.
abbrev pub told : Option RequestContext → String → String
told ctx k =
    if "Accept" == k
    then "application/json"
    else if "Content-Type" == k
    then "application/json"
    else projected ctx k

module _ {J : Type 0} (W : Web J) where
  -- Besides its JSON types, a request to a webhook has the client's address in the headers
  -- X-Forwarded-For and NACP-Client-IP and the id of the token's accessor in NACP-Accessor-ID. Every
  -- other header reads as the empty text, as a header does that is not set; so do all three without a
  -- request context.
  pub webhook_request-told :
      (method endpoint : String) (input : Input J) (body : Bytes) (k : String)
      → get_header k (webhook_request W method endpoint input body).headers ≡ told input.context k
  unfolding webhook_request webhook_headers
  webhook_request-told method endpoint input body k =
      let hs = apply_context_headers input.context [] in
      get_header-set_header "Accept" k "application/json"
        (set_header "Content-Type" "application/json" hs)
      ∙ ap (λ s. if "Accept" == k then "application/json" else s)
          (get_header-set_header "Content-Type" k "application/json" hs
            ∙ ap (λ s. if "Content-Type" == k then "application/json" else s)
                (get_header-apply_context_headers input.context k))
