-- ===== src/Examples/Controllers.antt =====
-- The controllers that ask a policy, with a policy that answers at once.
use nacp.Http.{get_header}
use nacp.Webhooks.{webhook_request}
use nacp.Webhooks.Told.{told, webhook_request-told}
use nacp.Config.{RequestContext}
use nacp.Common.{ℕ, ◌≡◌, ◌↔◌, refl, true, none, some, List, [], ◌∷◌, map, All}
use nacp.GoError.{message, Result, ok}
use nacp.Http.{Bytes, buffer, limit_reader}
use nacp.Payloads.{Input, Web, replace}
use nacp.Patcher.{JsonPatch, patch_job}
use nacp.Notation.{ImageVerifier}
use nacp.Opa.{OpaQuery, OpaQueryResult, run_query, get_warnings, get_errors, get_patch}
use nacp.Value.{null, Value, str, arr, obj, or_null, index, Items, Fields, end, field}
use nacp.Remote.{check_response, decode_json_response}
use nacp.Webhooks.{exchange}
use nacp.Mutator.OpaJsonPatch as OpaJsonPatch
use nacp.Mutator.OpaJsonPatch.{labelled}
use nacp.Mutator.OpaJsonPatch.Accepts.{evaluate-replaces_iff}
use nacp.Mutator.JsonPatchWebhook as JsonPatchWebhook
use nacp.Mutator.JsonPatchWebhook.{JsonPatchWebhookResponse}
use nacp.Mutator.JsonPatchWebhook.Accepts.{evaluate-patches_iff}
use nacp.Validator.Webhook.{ValidationWebhookResponse}
use nacp.Validator.Notation as NotationValidator
use nacp.Validator.Notation.{Task}
use nacp.Validator.Notation.Verdict.{IsVerified, evaluate-warns}
use nacp.Examples.Data.{multierror, format, codec}

abbrev pub input : Input ℕ
input = record { job = 7; context = none }

-- A patch is a text that replaces the job.
abbrev pub patches : JsonPatch
patches = record {
  Patch = Bytes;
  size = λ p. 1;
  decode = λ b. ok b;
  apply = λ p b. ok p;
  marshal_ops = λ ops. ok (8 ∷ []);
}

abbrev refusal : Fields
refusal = field "errors" (arr (Items.cons (str "no") Items.nil)) end

abbrev pub silence : Fields
silence = end

abbrev pub answers : Fields → OpaQuery ℕ
answers fields = record { eval = λ i. ok (fields ∷ []) }

abbrev result : Fields → OpaQueryResult
result fields = record { first = fields; others = [] }

abbrev pub web : Web ℕ
web = record {
  marshal_input = λ i. ok (i.job ∷ []);
  check_request = λ r. none;
  send = λ r. ok (record {
    status_code = 200;
    status = "200 OK";
    headers = [];
    body = buffer (1 ∷ []);
    content_length = some 1;
  });
}

evaluate-replaces_iff_example :
    (OpaJsonPatch.evaluate multierror format codec patches "opa" (answers silence) input
      ≡ replace 8 true [])
    ↔ ((r : OpaQueryResult) × (run_query (answers silence) input ≡ ok r)
        × (get_errors r ≡ [])
        × (patch_job codec patches input.job (some (get_patch r)) ≡ ok (8, true))
        × (map (labelled format "opa") (get_warnings r) ≡ []))
evaluate-replaces_iff_example =
    evaluate-replaces_iff multierror format codec patches "opa" (answers silence) input 8 true []

run_refusal : run_query (answers refusal) input ≡ ok (result refusal)
unfolding run_query
run_refusal = refl

errors_refusal : get_errors (result refusal) ≡ str "no" ∷ []
unfolding get_errors nacp.Value.index
errors_refusal = refl

abbrev pub patch_answer : Bytes → Result JsonPatchWebhookResponse
patch_answer b = ok (record { patch = none; warnings = "watch" ∷ []; errors = [] })

evaluate-patches_iff_example :
    (JsonPatchWebhook.evaluate multierror codec patches web patch_answer "hook" "http://p/" "POST"
        input
      ≡ replace 8 true (message "watch" ∷ []))
    ↔ ((r : JsonPatchWebhookResponse) × (exchange web "POST" "http://p/" patch_answer input ≡ ok r)
        × (r.errors ≡ [])
        × (patch_job codec patches input.job r.patch ≡ ok (8, true))
        × (map message r.warnings ≡ message "watch" ∷ []))
evaluate-patches_iff_example =
    evaluate-patches_iff multierror codec patches web patch_answer "hook" "http://p/" "POST" input 8
      true (message "watch" ∷ [])

abbrev verdict : ValidationWebhookResponse
verdict = record { errors = "no" ∷ []; warnings = "watch" ∷ [] }

abbrev pub verdict_answer : Bytes → Result ValidationWebhookResponse
verdict_answer b = ok verdict

exchange-verdict : exchange web "POST" "http://p/" verdict_answer input ≡ ok verdict
unfolding exchange decode_json_response check_response limit_reader
exchange-verdict = refl

-- A verifier that finds no signature.
abbrev pub verifier : ImageVerifier
verifier = record { verify_image = λ image. some (message "no signature") }

abbrev docker_task : Task
docker_task = record { driver = "docker"; config = field "image" (str "busybox") end }

abbrev pub groups : ℕ → List (List Task)
groups n = (docker_task ∷ []) ∷ []

evaluate-warns_example :
    ((NotationValidator.evaluate groups verifier "notation" input).error ≡ none)
    × (((NotationValidator.evaluate groups verifier "notation" input).warnings ≡ [])
        ↔ All (All (IsVerified verifier)) (groups input.job))
evaluate-warns_example = evaluate-warns groups verifier "notation" input

abbrev caller : RequestContext
caller = record {
  client_ip = "10.0.0.1";
  accessor_id = "accessor";
  resolve_token = true;
  token_info = none;
}

webhook_request-told_example :
    get_header "Nacp-Accessor-Id"
      (webhook_request web "POST" "http://p/" (record input { context = some caller }) []).headers
    ≡ told (some caller) "Nacp-Accessor-Id"
webhook_request-told_example =
    webhook_request-told web "POST" "http://p/" (record input { context = some caller }) []
      "Nacp-Accessor-Id"

-- The header that the witness is about.
accessor_header : told (some caller) "Nacp-Accessor-Id" ≡ "accessor"
accessor_header = refl
