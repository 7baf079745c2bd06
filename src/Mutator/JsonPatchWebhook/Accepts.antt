-- ===== src/Mutator/JsonPatchWebhook/Accepts.antt =====
-- When a `JsonPatchWebhookMutator` patches a job (pkg/admissionctrl/mutator/json_patch_webhook.go).
use nacp.Common.{◌≡◌, refl, sym, ◌∙◌, ◌↔◌, inl, inr, String, Bool, List, [], map}
use nacp.GoError.{GoError, message, Result, ok, Multierror}
use nacp.Admission.{JobCodec}
use nacp.Http.{Bytes}
use nacp.Payloads.{Input, Web, replace}
use nacp.Patcher.{JsonPatch, patch_job}
use nacp.Webhooks.{exchange, or_fail}
use nacp.Webhooks.Errors.{or_fail-eq-replace, List-cases}
use nacp.Mutator.JsonPatchWebhook.{JsonPatchWebhookResponse, judge_response, evaluate}

module _ {J : Type 0} (M : Multierror) (C : JobCodec J) (P : JsonPatch) (W : Web J)
    (unmarshal : Bytes → Result JsonPatchWebhookResponse) (name endpoint method : String) where
  without_errors :
      (input : Input J) (r : JsonPatchWebhookResponse)
      → r.errors ≡ []
      → judge_response M C P W unmarshal name endpoint method input r
        ≡ or_fail
            (patch_job C P input.job r.patch)
            (λ patched. replace patched.0 patched.1 (map message r.warnings))
  unfolding judge_response
  without_errors input r e = rw (e, judge_response) refl

  -- The mutator ends with a job exactly when the exchange yields a response without errors and the
  -- patch of that response applies; the job is the patched one, and the warnings are those of the
  -- response.
  pub evaluate-patches_iff :
      (input : Input J) (job : J) (mutated : Bool) (warnings : List GoError)
      → (evaluate M C P W unmarshal name endpoint method input ≡ replace job mutated warnings) ↔ (
          (r : JsonPatchWebhookResponse) × (exchange W method endpoint unmarshal input ≡ ok r)
          × (r.errors ≡ [])
          × (patch_job C P input.job r.patch ≡ ok (job, mutated))
          × (map message r.warnings ≡ warnings))
  unfolding evaluate judge_response
  evaluate-patches_iff input job mutated warnings = (
    λ h.
        let (r, found, judged) =
          or_fail-eq-replace (exchange W method endpoint unmarshal input) _ h in
        elim (List-cases r.errors) [
          | inr (e, es, some_) ↦ absurd (cc (judged, some_))
          | inl none_ ↦
              let opened =
                or_fail-eq-replace (patch_job C P input.job r.patch) _
                  (sym (without_errors input r none_) ∙ judged) in
              (r, found, none_, cc (opened.1, opened.2), cc opened.2)
        ],
    λ (r, found, none_, patched, same).
        rw found (rw (none_, judge_response) (rw patched (rw same refl))),
  )
