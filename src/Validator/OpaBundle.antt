-- ===== src/Validator/OpaBundle.antt =====
-- pkg/admissionctrl/validator/opa_bundle_validator.go
pub mod Verdict
pub mod Accepts
use nacp.Common.{String, ◌<>◌, Option, none, some, List, [], ◌∷◌}
use nacp.GoError.{GoError, message, wrap, Multierror, Result, ok, err, ◌>>=◌}
use nacp.Admission.{Validated, JobValidator}
use nacp.Payloads.{Input, validate_by}
use nacp.Value.{Value, null, arr, str, elements, Fields, index, or_null, as_map, as_string, Format}
use nacp.Mutator.OpaBundle.{OpaSdkClient, check_bundle}
use nacp.Webhooks.{append_each}

module _ (F : Format) (kind : String) where
  -- The loop of `parseBundleMessages`.
  parse_entries : List Value → Result (List GoError)
  parse_entries [] = ok []
  parse_entries (v ∷ vs) = elim (as_string v) [
    | none ↦ err (message ("policy yielded an invalid " <> kind <> " value: " <> F.verb_v v))
    | some s ↦ parse_entries vs >>= λ messages. ok (message s ∷ messages)
  ]

  unfoldable pub parse_bundle_messages : Value → Result (List GoError)
  unfolding parse_entries
  parse_bundle_messages null = ok []
  parse_bundle_messages (arr entries) = parse_entries (elements entries)
  parse_bundle_messages raw =
      err (message ("policy yielded an invalid " <> kind <> "s value: " <> F.verb_v raw))

module _ {J : Type 0} (M : Multierror) (F : Format) (name path : String)
    (opa : OpaSdkClient J) where
  -- `Validate`, behind the decision.
  judge_result : Fields → Validated
  judge_result result =
      elim (parse_bundle_messages F "warning" (or_null (index "warnings" result))) [
        | err e ↦ record { warnings = []; error = some e }
        | ok warnings ↦ elim (parse_bundle_messages F "error" (or_null (index "errors" result))) [
          | err e ↦ record { warnings = warnings; error = some e }
          | ok errors ↦ record { warnings = warnings; error = append_each M none errors }
        ]
      ]

  pub evaluate : Input J → Validated
  unfolding judge_result
  evaluate input = elim (opa.decision path input) [
    | err e ↦ record { warnings = []; error = some (wrap "failed to perform policy decision" e) }
    | ok result ↦ elim (as_map result) [
      | none ↦ record {
        warnings = [];
        error = some (message ("policy yielded an invalid decision value: " <> F.verb_v result));
      }
      | some fields ↦ judge_result fields
    ]
  ]

  -- `OpaBundleValidator`
  abbrev pub opa_bundle_validator : JobValidator J
  opa_bundle_validator = record { name = name; validate = validate_by evaluate }

-- `NewOpaBundleValidator`
abbrev pub new_opa_bundle_validator :
    {J : Type 0}
    → Multierror
    → Format
    → String
    → String
    → Option (OpaSdkClient J)
    → Result (JobValidator J)
new_opa_bundle_validator M F name path sdk =
    check_bundle sdk path >>= λ opa. ok (opa_bundle_validator M F name path opa)
