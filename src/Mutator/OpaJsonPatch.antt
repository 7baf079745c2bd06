-- ===== src/Mutator/OpaJsonPatch.antt =====
-- pkg/admissionctrl/mutator/opa_json_patch.go
pub mod Accepts
use nacp.Common.{Bool, String, ◌<>◌, Option, none, some, List, [], ◌∷◌, map}
use nacp.GoError.{GoError, message, Multierror, Result, ok, err, ◌>>=◌}
use nacp.Http.{Bytes}
use nacp.Notation.{ImageVerifier}
use nacp.Admission.{JobMutator, JobCodec}
use nacp.Payloads.{Input, Ending, fail, replace, mutate_by}
use nacp.Patcher.{JsonPatch, patch_job}
use nacp.Opa.{
  create_query, OpaQuery, OpaQueryResult, run_query, get_warnings, get_errors, get_patch,
}
use nacp.Value.{Value, Format}
use nacp.Webhooks.{or_fail, append_onto}

-- `fmt.Errorf("%s (%s)", warn, j.Name())`
abbrev pub labelled : Format → String → Value → GoError
labelled F name v = message (F.verb_s v <> " (" <> name <> ")")

module _ {J : Type 0} (M : Multierror) (F : Format) (C : JobCodec J) (P : JsonPatch) (name : String)
    (query : OpaQuery J) where
  -- `Mutate`, behind the query.
  judge_result : Input J → OpaQueryResult → Ending J
  judge_result input r = elim (get_errors r) [
    | [] ↦
        or_fail (patch_job C P input.job (some (get_patch r)))
          λ patched. replace patched.0 patched.1 (map (labelled F name) (get_warnings r))
    | e ∷ es ↦ fail (append_onto M (M.append none []) (map (labelled F name) (e ∷ es)))
  ]

  pub evaluate : Input J → Ending J
  unfolding judge_result
  evaluate input = or_fail (run_query query input) (judge_result input)

  -- `OpaJsonPatchMutator`
  abbrev pub opa_json_patch_mutator : JobMutator J
  opa_json_patch_mutator = record { name = name; mutate = mutate_by evaluate }

-- `NewOpaJsonPatchMutator`
abbrev pub new_opa_json_patch_mutator :
    {J : Type 0}
    → Multierror
    → Format
    → JobCodec J
    → JsonPatch
    → (String → Result Bytes)
    → (String → Bytes → String → Option (Value → Bool) → Result (OpaQuery J))
    → String
    → String
    → String
    → Option ImageVerifier
    → Result (JobMutator J)
new_opa_json_patch_mutator M F C P read_file prepare name filename query verifier =
    create_query read_file prepare filename query verifier >>= λ prepared.
    ok (opa_json_patch_mutator M F C P name prepared)
