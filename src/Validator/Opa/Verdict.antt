-- ===== src/Validator/Opa/Verdict.antt =====
-- What an `OpaValidator` reports (pkg/admissionctrl/validator/opa_validator.go).
use mathlib.Core.List.{flat_map}
use nacp.Common.{◌≡◌, refl, ◌∙◌, String, ◌<>◌, some, List, [], ◌∷◌, map, append-nil}
use nacp.GoError.{GoError, multi, nil, parts, Multierror, IsFlattening, ok}
use nacp.Payloads.{Input}
use nacp.Opa.{OpaQuery, OpaQueryResult, run_query, get_warnings, get_errors}
use nacp.Value.{Value, Format}
use nacp.Mutator.OpaJsonPatch.{labelled}
use nacp.Webhooks.{append_onto}
use nacp.Webhooks.Errors.{parts-append, parts-append_onto-messages}
use nacp.Validator.Opa.{judge_result, evaluate}

module _ {J : Type 0} (M : Multierror) (F : Format) (name : String) (query : OpaQuery J) where
  -- With `Append` as go-multierror documents it, a rule that reports errors gives an error that holds exactly these, in their order and each
  -- labelled with the validator's name, beside all of the rule's warnings.
  pub evaluate-collects :
      (L : IsFlattening M) (input : Input J) (r : OpaQueryResult) (e : Value) (es : List Value)
      → run_query query input ≡ ok r
      → get_errors r ≡ e ∷ es
      → (x : GoError) × (evaluate M F name query input
          ≡ record { warnings = map (labelled F name) (get_warnings r); error = some x })
        × (parts x ≡ map (labelled F name) (e ∷ es))
  unfolding evaluate judge_result flat_map
  evaluate-collects L input r e es found errors =
      let inner = append_onto M (multi nil) (map (labelled F name) (e ∷ es)) in
      (
        M.append (some (multi nil)) (inner ∷ []),
        rw (found, evaluate) (rw (errors, judge_result) refl),
        parts-append M L (some (multi nil)) (inner ∷ [])
            ∙ append-nil (parts inner)
            ∙ parts-append_onto-messages M L (λ v. F.verb_s v <> " (" <> name <> ")") (e ∷ es)
                (multi nil) refl,
      )
