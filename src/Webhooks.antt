-- ===== src/Webhooks.antt =====
-- The exchange that `JsonPatchWebhookMutator.Mutate`, `WebhookMutator.Mutate` and
-- `WebhookValidator.Validate` each begin with, and the collecting of errors that the controllers share.
pub mod Errors
pub mod Told
use nacp.Common.{String, Option, none, some, List, [], ◌∷◌}
use nacp.GoError.{GoError, Multierror, Result, ok, err, ◌>>=◌}
use nacp.Config.{RequestContext}
use nacp.Http.{Bytes, Headers, set_header, OutRequest}
use nacp.Remote.{apply_context_headers, decode_json_response}
use nacp.Payloads.{Input, Web, Ending, fail}

webhook_headers : Option RequestContext → Headers
webhook_headers ctx =
    set_header "Accept" "application/json"
      (set_header "Content-Type" "application/json" (apply_context_headers ctx []))

abbrev reject : Option GoError → Result (Unit {0})
reject none = ok tt
reject (some e) = err e

module _ {J : Type 0} (W : Web J) (method endpoint : String) where
  -- The request: the payload as JSON, with the context in its headers.
  pub webhook_request : Input J → Bytes → OutRequest
  unfolding webhook_headers
  webhook_request input body = record {
    method = method;
    url = endpoint;
    headers = webhook_headers input.context;
    body = body;
  }

  unfoldable pub exchange {ℓ} : {A : Type ℓ} → (Bytes → Result A) → Input J → Result A
  unfolding webhook_request
  exchange unmarshal input = W.marshal_input input >>= λ body.
      reject (W.check_request (webhook_request input body)) >>= λ _.
      W.send (webhook_request input body) >>= decode_json_response unmarshal

-- `return nil, false, nil, err` on the error path.
abbrev pub or_fail {ℓ} : {A : Type ℓ} {J : Type 0} → Result A → (A → Ending J) → Ending J
or_fail (ok a) f = f a
or_fail (err e) f = fail e

module _ (M : Multierror) where
  -- `for … { errs = multierror.Append(errs, …) }`
  unfoldable pub append_each : Option GoError → List GoError → Option GoError
  append_each errs [] = errs
  append_each errs (e ∷ es) = append_each (some (M.append errs (e ∷ []))) es

  -- The same loop, where the variable is never nil.
  unfoldable pub append_onto : GoError → List GoError → GoError
  append_onto errs [] = errs
  append_onto errs (e ∷ es) = append_onto (M.append (some errs) (e ∷ [])) es
