-- ===== src/Mutator/JsonPatchWebhook.antt =====
-- pkg/admissionctrl/mutator/json_patch_webhook.go
pub mod Accepts
use nacp.Common.{String, Option, none, some, List, [], ◌∷◌, map}
use nacp.GoError.{GoError, message, Multierror, Result, ok, ◌>>=◌}
use nacp.Admission.{JobMutator, JobCodec}
use nacp.Http.{Bytes, Url}
use nacp.Remote.{parse_endpoint}
use nacp.Payloads.{Input, Web, Ending, refuse, replace, mutate_by}
use nacp.Patcher.{JsonPatch, patch_job}
use nacp.Value.{Value, Format}
use nacp.Webhooks.{exchange, or_fail, append_onto}

-- `jsonPatchWebhookResponse`; a patch that is left out is a nil slice.
pub record JsonPatchWebhookResponse : Type 0 where
  pub patch : Option (List Value)
  pub warnings : List String
  pub errors : List String

module _ {J : Type 0} (M : Multierror) (C : JobCodec J) (P : JsonPatch) (W : Web J)
    (unmarshal : Bytes → Result JsonPatchWebhookResponse) (name endpoint method : String) where
  -- `Mutate`, behind the exchange. `policyErr` starts as nil.
  judge_response : Input J → JsonPatchWebhookResponse → Ending J
  judge_response input r = elim (map message r.errors) [
    | [] ↦
        or_fail (patch_job C P input.job r.patch)
          λ patched. replace patched.0 patched.1 (map message r.warnings)
    | e ∷ es ↦ refuse (map message r.warnings) (append_onto M (M.append none (e ∷ [])) es)
  ]

  pub evaluate : Input J → Ending J
  unfolding judge_response
  evaluate input = or_fail (exchange W method endpoint unmarshal input) (judge_response input)

  -- `JsonPatchWebhookMutator`
  abbrev pub json_patch_webhook_mutator : JobMutator J
  json_patch_webhook_mutator = record { name = name; mutate = mutate_by evaluate }

-- `NewJsonPatchWebhookMutator`
abbrev pub new_json_patch_webhook_mutator :
    {J : Type 0}
    → Multierror
    → Format
    → JobCodec J
    → JsonPatch
    → Web J
    → (Bytes → Result JsonPatchWebhookResponse)
    → (String → Result Url)
    → String
    → String
    → String
    → Result (JobMutator J)
new_json_patch_webhook_mutator M F C P W unmarshal parse_url name endpoint method =
    parse_endpoint F parse_url endpoint >>= λ u.
    ok (json_patch_webhook_mutator M C P W unmarshal name u.text method)
