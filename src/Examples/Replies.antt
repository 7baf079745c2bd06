-- ===== src/Examples/Replies.antt =====
-- What a client reads of a validation that one validator refuses.
use nacp.Common.{[], ◌∷◌}
use nacp.GoError.{GoError}
use nacp.Proxy.Context.{Request}
use nacp.Proxy.Responses.{ValidateResponse}
use nacp.Examples.Traffic.{request}

-- Nomad's answer.
abbrev upstream : ValidateResponse (Unit {0})
upstream = record {
  validation_errors = "no datacenter" ∷ [];
  error = "no datacenter";
  warnings = "";
  rest = tt;
}

abbrev small : Request
small = request "/v1/validate/job" (2 ∷ [])
