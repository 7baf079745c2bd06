-- ===== src/Validator/Webhook.antt =====
-- pkg/admissionctrl/validator/webhook_validator.go
pub mod Verdict
use nacp.Common.{String, Option, none, some, List, [], ◌∷◌, map}
use nacp.GoError.{GoError, message, Multierror, multi, nil, Result, ok, err, ◌>>=◌}
use nacp.Admission.{Validated, JobValidator}
use nacp.Http.{Bytes, Url}
use nacp.Remote.{parse_endpoint}
use nacp.Value.{Format}
use nacp.Payloads.{Input, Web, validate_by}
use nacp.Webhooks.{exchange, append_onto}

-- `validationWebhookResponse`
pub record ValidationWebhookResponse : Type 0 where
  pub errors : List String
  pub warnings : List String

module _ {J : Type 0} (M : Multierror) (W : Web J)
    (unmarshal : Bytes → Result ValidationWebhookResponse) (name endpoint method : String) where
  -- `Validate`, behind the exchange: with errors the warnings are not returned.
  judge_response : ValidationWebhookResponse → Validated
  judge_response r = elim (map message r.errors) [
    | [] ↦ record { warnings = map message r.warnings; error = none }
    | e ∷ es ↦ record { warnings = []; error = some (append_onto M (multi nil) (e ∷ es)) }
  ]

  pub evaluate : Input J → Validated
  unfolding judge_response
  evaluate input = elim (exchange W method endpoint unmarshal input) [
    | err e ↦ record { warnings = []; error = some e }
    | ok r ↦ judge_response r
  ]

  -- `WebhookValidator`
  abbrev pub webhook_validator : JobValidator J
  webhook_validator = record { name = name; validate = validate_by evaluate }

-- `NewWebhookValidator`
abbrev pub new_webhook_validator :
    {J : Type 0}
    → Multierror
    → Format
    → Web J
    → (Bytes → Result ValidationWebhookResponse)
    → (String → Result Url)
    → String
    → String
    → String
    → Result (JobValidator J)
new_webhook_validator M F W unmarshal parse_url name endpoint method =
    parse_endpoint F parse_url endpoint >>= λ u.
    ok (webhook_validator M W unmarshal name u.text method)
