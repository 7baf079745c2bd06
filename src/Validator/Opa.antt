-- ===== src/Validator/Opa.antt =====
-- pkg/admissionctrl/validator/opa_validator.go
pub mod Verdict
use nacp.Common.{Bool, String, Option, none, some, List, [], ◌∷◌, map}
use nacp.GoError.{GoError, Multierror, multi, nil, Result, ok, err, ◌>>=◌}
use nacp.Http.{Bytes}
use nacp.Notation.{ImageVerifier}
use nacp.Admission.{Validated, JobValidator}
use nacp.Payloads.{Input, validate_by}
use nacp.Opa.{create_query, OpaQuery, OpaQueryResult, run_query, get_warnings, get_errors}
use nacp.Value.{Value, Format}
use nacp.Mutator.OpaJsonPatch.{labelled}
use nacp.Webhooks.{append_onto}

module _ {J : Type 0} (M : Multierror) (F : Format) (name : String) (query : OpaQuery J) where
  -- `Validate`, behind the query. The errors of the rule are collected on their own, and then
  -- appended to those of all rules, which are none.
  judge_result : OpaQueryResult → Validated
  judge_result r = elim (get_errors r) [
    | [] ↦ record { warnings = map (labelled F name) (get_warnings r); error = none }
    | e ∷ es ↦ record {
      warnings = map (labelled F name) (get_warnings r);
      error = some (
          M.append (some (multi nil))
            (append_onto M (multi nil) (map (labelled F name) (e ∷ es)) ∷ []));
    }
  ]

  pub evaluate : Input J → Validated
  unfolding judge_result
  evaluate input = elim (run_query query input) [
    | err e ↦ record { warnings = []; error = some e }
    | ok r ↦ judge_result r
  ]

  -- `OpaValidator`
  abbrev pub opa_validator : JobValidator J
  opa_validator = record { name = name; validate = validate_by evaluate }

-- `NewOpaValidator`
abbrev pub new_opa_validator :
    {J : Type 0}
    → Multierror
    → Format
    → (String → Result Bytes)
    → (String → Bytes → String → Option (Value → Bool) → Result (OpaQuery J))
    → String
    → String
    → String
    → Option ImageVerifier
    → Result (JobValidator J)
new_opa_validator M F read_file prepare name filename query verifier =
    create_query read_file prepare filename query verifier >>= λ prepared.
    ok (opa_validator M F name prepared)
