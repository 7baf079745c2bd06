-- ===== src/Examples/Remote.antt =====
-- Webhook answers and endpoints.
use nacp.Common.{◌≤◌, ◌<◌, ◌≡◌, ◌↔◌, none, some, [], ◌∷◌, length}
use nacp.GoError.{ok}
use nacp.Http.{Response, buffer}
use nacp.Remote.{max_response_body_bytes, decode_json_response}
use nacp.Remote.Laws.{decode_json_response_iff}
use nacp.Examples.Data.{unmarshal_job}

abbrev answer : Response
answer = record {
  status_code = 200;
  status = "200 OK";
  headers = [];
  body = buffer (3 ∷ []);
  content_length = some 1;
}

decode_json_response_iff_example : (decode_json_response unmarshal_job answer ≡ ok 3) ↔ (
    (answer.body.ending ≡ none)
    × (length answer.body.bytes ≤ max_response_body_bytes)
    × (200 ≤ answer.status_code)
    × (answer.status_code < 300)
    × (unmarshal_job answer.body.bytes ≡ ok 3))
decode_json_response_iff_example = decode_json_response_iff unmarshal_job answer 3
