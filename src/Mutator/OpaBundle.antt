-- ===== src/Mutator/OpaBundle.antt =====
-- pkg/admissionctrl/mutator/opa_bundle_json_patch.go
pub mod Vetoes
pub mod Types
use nacp.Common.Text.{is_empty}
use nacp.Common.{if◌then◌else◌, String, ◌<>◌, Bool, Option, none, some, List, [], ◌∷◌, ◌++◌}
use nacp.GoError.{GoError, message, wrap, Multierror, Result, ok, err, wrapping, ◌>>=◌}
use nacp.Admission.{JobMutator, JobCodec}
use nacp.Payloads.{Input, Ending, fail, refuse, keep, replace, mutate_by}
use nacp.Patcher.{JsonPatch, patch_job}
use nacp.Value.{
  Value, null, str, arr, elements, Fields, index, or_null, as_slice, as_map, as_string, Format,
}
use nacp.Webhooks.{or_fail}

-- `sdk.OPA`: the decision at a path, for an input.
pub record OpaSdkClient (J : Type 0) : Type 0 where
  pub decision : String → Input J → Result Value

module _ (F : Format) where
  -- `policy yielded an invalid … value: %v`
  invalid : String → Value → GoError
  invalid what raw = message ("policy yielded an invalid " <> what <> " value: " <> F.verb_v raw)

  -- The loop of `parseDecisionErrors`.
  parse_errors : Multierror → Option GoError → List Value → Option GoError
  parse_errors M result [] = result
  parse_errors M result (null ∷ vs) = parse_errors M result vs
  parse_errors M result (str s ∷ vs) = parse_errors M (some (M.append result (message s ∷ []))) vs
  parse_errors M result (v ∷ vs) = some (invalid "error entry" v)

  unfoldable pub parse_decision_errors : Multierror → Value → Option GoError
  unfolding parse_errors invalid
  parse_decision_errors M null = none
  parse_decision_errors M (arr vs) = parse_errors M none (elements vs)
  parse_decision_errors M raw = some (invalid "errors" raw)

  -- The loop of `parseDecisionWarnings`: the warnings so far come back with an error too.
  parse_warnings : List GoError → List Value → List GoError × Option GoError
  parse_warnings warnings [] = (warnings, none)
  parse_warnings warnings (null ∷ vs) = parse_warnings warnings vs
  parse_warnings warnings (str s ∷ vs) = parse_warnings (warnings ++ message s ∷ []) vs
  parse_warnings warnings (v ∷ vs) = (warnings, some (invalid "warning entry" v))

  unfoldable pub parse_decision_warnings : Value → List GoError × Option GoError
  unfolding parse_warnings invalid
  parse_decision_warnings null = ([], none)
  parse_decision_warnings (arr vs) = parse_warnings [] (elements vs)
  parse_decision_warnings raw = ([], some (invalid "warnings" raw))

  module _ {J : Type 0} (C : JobCodec J) (P : JsonPatch) where
    unfoldable pub apply_decision_patch : J → Value → Result (J × Bool)
    unfolding invalid
    apply_decision_patch job (arr operations) =
        wrapping "policy yielded patch failed" (patch_job C P job (some (elements operations)))
    apply_decision_patch job raw = err (invalid "patch" raw)

module _ {J : Type 0} (M : Multierror) (F : Format) (C : JobCodec J) (P : JsonPatch)
    (name path : String) (opa : OpaSdkClient J) where
  -- The patch of the decision: nothing to do if there is none.
  apply_patch : Input J → List GoError → Value → Ending J
  apply_patch input warnings null = keep warnings
  apply_patch input warnings patch = elim (apply_decision_patch F C P input.job patch) [
    | ok (job, mutated) ↦ replace job mutated warnings
    | err e ↦ refuse warnings e
  ]

  -- The decision's errors, then its warnings, then its patch.
  judge_decision : Input J → Fields → Ending J
  unfolding apply_patch
  judge_decision input result = elim (parse_decision_errors F M (or_null (index "errors" result))) [
    | some e ↦ fail e
    | none ↦
        let (warnings, invalid) = parse_decision_warnings F (or_null (index "warnings" result)) in
        elim invalid [
          | some e ↦ refuse warnings e
          | none ↦ apply_patch input warnings (or_null (index "patch" result))
        ]
  ]

  pub evaluate : Input J → Ending J
  unfolding judge_decision invalid
  evaluate input =
      or_fail (wrapping "failed to perform policy decision" (opa.decision path input)) λ result.
        elim (as_map result) [
          | none ↦ fail (invalid F "decision" result)
          | some fields ↦ judge_decision input fields
        ]

  -- `OpaBundleMutator`
  abbrev pub opa_bundle_mutator : JobMutator J
  opa_bundle_mutator = record { name = name; mutate = mutate_by evaluate }

-- The tests of `NewOpaBundleMutator` and of `NewOpaBundleValidator`.
abbrev pub check_bundle : {J : Type 0} → Option (OpaSdkClient J) → String → Result (OpaSdkClient J)
check_bundle none path = err (message "OPA SDK is required")
check_bundle (some sdk) path =
    if is_empty path then err (message "OPA decision path is required") else ok sdk

-- `NewOpaBundleMutator`
abbrev pub new_opa_bundle_mutator :
    {J : Type 0}
    → Multierror
    → Format
    → JobCodec J
    → JsonPatch
    → String
    → String
    → Option (OpaSdkClient J)
    → Result (JobMutator J)
new_opa_bundle_mutator M F C P name path sdk =
    check_bundle sdk path >>= λ opa. ok (opa_bundle_mutator M F C P name path opa)
