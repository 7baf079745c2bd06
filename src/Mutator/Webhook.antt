-- ===== src/Mutator/Webhook.antt =====
-- pkg/admissionctrl/mutator/webhook_mutator.go
use nacp.Common.{String, Bool, not, []}
use nacp.Admission.{JobMutator, JobCodec}
use nacp.Payloads.{Input, Web, Ending, replace, mutate_by}
use nacp.Webhooks.{exchange, or_fail}

-- `reflect.DeepEqual` on jobs is a parameter.
module _ {J : Type 0} (C : JobCodec J) (W : Web J) (deep_equal : J → J → Bool)
    (name endpoint method : String) where
  abbrev pub evaluate : Input J → Ending J
  evaluate input =
      or_fail (exchange W method endpoint C.unmarshal input)
        λ new_job. replace new_job (not (deep_equal new_job input.job)) []

  -- `NewWebhookMutator`, whose endpoint is parsed already.
  abbrev pub webhook_mutator : JobMutator J
  webhook_mutator = record { name = name; mutate = mutate_by evaluate }
