-- ===== src/Validator/Webhook/Verdict.antt =====
-- What a `WebhookValidator` reports (pkg/admissionctrl/validator/webhook_validator.go).
use nacp.Common.{◌≡◌, refl, String, some, List, [], ◌∷◌, map}
use nacp.GoError.{GoError, message, multi, nil, parts, Multierror, IsFlattening, Result, ok}
use nacp.Http.{Bytes}
use nacp.Payloads.{Input, Web}
use nacp.Webhooks.{exchange, append_onto}
use nacp.Webhooks.Errors.{parts-append_onto-messages}
use nacp.Validator.Webhook.{ValidationWebhookResponse, judge_response, evaluate}

module _ {J : Type 0} (M : Multierror) (W : Web J)
    (unmarshal : Bytes → Result ValidationWebhookResponse) (name endpoint method : String) where
  -- With `Append` as go-multierror documents it, a response with errors gives an error that holds exactly these messages, in their order, and no
  -- warning.
  pub evaluate-reports :
      (L : IsFlattening M) (input : Input J) (r : ValidationWebhookResponse) (e : String)
      (es : List String)
      → exchange W method endpoint unmarshal input ≡ ok r
      → r.errors ≡ e ∷ es
      → (x : GoError) × (evaluate M W unmarshal name endpoint method input
          ≡ record { warnings = []; error = some x })
        × (parts x ≡ map message (e ∷ es))
  unfolding evaluate judge_response
  evaluate-reports L input r e es found errors = (
    append_onto M (multi nil) (map message (e ∷ es)),
    rw (found, evaluate) (rw (errors, judge_response) refl),
    parts-append_onto-messages M L (λ s. s) (e ∷ es) (multi nil) refl,
  )
