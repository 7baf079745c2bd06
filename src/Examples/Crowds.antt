-- ===== src/Examples/Crowds.antt =====
-- Two requests at a time, of which one is refused; their steps alternate.
use nacp.Common.{map, ◌↔◌, ◌+◌, ℕ, zero, suc, ◌≤◌, ◌<◌, ◌≡◌, List, [], ◌∷◌, arith}
use nacp.Payloads.{
  mutate_by-IsMutatorOf, mutate_by-IsAdditive, validate_by-IsValidatorOf, validate_by-IsPrivate,
}
use nacp.Proxy.Context.{Request}
use nacp.Proxy.Serve.{nacp_handler}
use nacp.Proxy.Concurrent.{finished, waiting, run, turns}
use nacp.Proxy.Concurrent.Reference.{IsSharable, reference}
use nacp.Proxy.Concurrent.Events.{weigh, request_events}
use nacp.Proxy.Concurrent.Totals.{nacp_handler-request_events}
use nacp.Proxy.Concurrent.Serves.{run-reference, nacp_handler-reference}
use nacp.Proxy.Refusals.{IsSent, IsRefusal, Passes, nacp_handler-Passes}
use nacp.Examples.Traffic.{codecs, request, tokens, answers, responder}
use nacp.Examples.Data.{codec, faithful, bump, warn, at_least, handler, transforms, policies, world}

abbrev pub crowd : List Request
crowd = request "/v1/jobs" (7 ∷ []) ∷ request "/v1/jobs" (2 ∷ []) ∷ []

-- The two positions by turns.
unfoldable pub alternate : ℕ → List ℕ
alternate zero = []
alternate (suc n) = 0 ∷ 1 ∷ alternate n

pub alternate_fair : (n k : ℕ) → k < 2 → n ≤ turns k (alternate n)
unfolding alternate turns
alternate_fair zero k l = omega arith
alternate_fair (suc n) zero l = ground (arith, alternate_fair n 0)
alternate_fair (suc n) (suc zero) l = ground (arith, alternate_fair n 1)
alternate_fair (suc n) (suc (suc k)) l = absurd (omega arith)

sharable : IsSharable transforms policies handler
sharable = record {
  mutators = ((mutate_by-IsMutatorOf "bump" bump, mutate_by-IsAdditive "bump" bump), tt);
  validators = (
    (validate_by-IsValidatorOf "warn" warn, validate_by-IsPrivate "warn" warn),
    (
      (validate_by-IsValidatorOf "limit" (at_least 5), validate_by-IsPrivate "limit" (at_least 5)),
      tt,
    ),
  );
}

run-reference_example :
    (run codec codecs responder tokens handler answers (alternate 8) (waiting crowd) world).0
    ≡ map
        (λ r.
          finished (reference transforms policies codec codecs responder tokens handler answers r))
        crowd
run-reference_example =
    run-reference codec codecs responder tokens handler answers faithful transforms policies
      sharable (alternate 8) crowd world (alternate_fair 8)

nacp_handler-reference_example :
    (nacp_handler codec codecs responder tokens handler answers
      (request "/v1/jobs" (2 ∷ []))
      world).0
    ≡ reference transforms policies codec codecs responder tokens handler answers
        (request "/v1/jobs" (2 ∷ []))
nacp_handler-reference_example =
    nacp_handler-reference codec codecs responder tokens handler answers faithful transforms
      policies sharable (request "/v1/jobs" (2 ∷ [])) world

nacp_handler-request_events_example :
    weigh
      (λ e. e.increment)
      (nacp_handler codec codecs responder tokens handler answers
        (request "/v1/jobs" (2 ∷ []))
        world).1.metrics
    ≡ weigh (λ e. e.increment) world.metrics
      + weigh
          (λ e. e.increment)
          (request_events transforms policies codec codecs responder tokens handler answers
            (request "/v1/jobs" (2 ∷ [])))
nacp_handler-request_events_example =
    nacp_handler-request_events (λ e. e.increment) codec codecs responder tokens handler answers
      faithful transforms policies sharable (request "/v1/jobs" (2 ∷ [])) world

-- A job that is too small to be registered.
abbrev small : Request
small = request "/v1/jobs" (2 ∷ [])

nacp_handler-Passes_example :
    (IsSent codec codecs responder tokens handler answers faithful transforms policies sharable
        (nacp_handler codec codecs responder tokens handler answers small world).0
      ↔ Passes codec codecs responder tokens handler answers faithful transforms policies sharable
          small)
    × (IsRefusal codec codecs responder tokens handler answers faithful transforms policies sharable
          (nacp_handler codec codecs responder tokens handler answers small world).0
        ↔ (¬ Passes codec codecs responder tokens handler answers faithful transforms policies
            sharable small))
nacp_handler-Passes_example =
    nacp_handler-Passes codec codecs responder tokens handler answers faithful transforms policies
      sharable small world
