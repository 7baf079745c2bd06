-- ===== src/Mutator/OpaJsonPatch/Accepts.antt =====
-- When an `OpaJsonPatchMutator` patches a job (pkg/admissionctrl/mutator/opa_json_patch.go).
use nacp.Common.{
  inl, inr, ◌≡◌, refl, sym, ◌∙◌, ◌↔◌, String, ◌<>◌, Bool, none, some, List, [], ◌∷◌, map,
}
use nacp.GoError.{GoError, parts, ok, Multierror, IsFlattening}
use nacp.Admission.{JobCodec}
use nacp.Payloads.{Input, fail, replace}
use nacp.Patcher.{JsonPatch, patch_job}
use nacp.Opa.{OpaQuery, OpaQueryResult, run_query, get_warnings, get_errors, get_patch}
use nacp.Value.{Value, Format}
use nacp.Webhooks.{append_onto, or_fail}
use nacp.Webhooks.Errors.{
  or_fail-eq-replace, List-cases, parts-append-nil, parts-append_onto-messages,
}
use nacp.Mutator.OpaJsonPatch.{labelled, judge_result, evaluate}

module _ {J : Type 0} (M : Multierror) (F : Format) (C : JobCodec J) (P : JsonPatch) (name : String)
    (query : OpaQuery J) where
  without_errors :
      (input : Input J) (r : OpaQueryResult)
      → get_errors r ≡ []
      → judge_result M F C P name query input r
        ≡ or_fail
            (patch_job C P input.job (some (get_patch r)))
            (λ patched. replace patched.0 patched.1 (map (labelled F name) (get_warnings r)))
  unfolding judge_result
  without_errors input r e = rw (e, judge_result) refl

  -- The mutator ends with a job exactly when the query has a result without errors and the patch of
  -- that result applies; the job is the patched one, and the warnings are those of the result, each
  -- labelled with the mutator's name.
  pub evaluate-replaces_iff :
      (input : Input J) (job : J) (mutated : Bool) (warnings : List GoError)
      → (evaluate M F C P name query input ≡ replace job mutated warnings) ↔ (
          (r : OpaQueryResult) × (run_query query input ≡ ok r)
          × (get_errors r ≡ [])
          × (patch_job C P input.job (some (get_patch r)) ≡ ok (job, mutated))
          × (map (labelled F name) (get_warnings r) ≡ warnings))
  unfolding evaluate judge_result
  evaluate-replaces_iff input job mutated warnings = (
    λ h.
        let (r, found, judged) = or_fail-eq-replace (run_query query input) _ h in
        elim (List-cases (get_errors r)) [
          | inr (e, es, some_) ↦ absurd (cc (judged, some_))
          | inl none_ ↦
              let opened =
                or_fail-eq-replace (patch_job C P input.job (some (get_patch r))) _
                  (sym (without_errors input r none_) ∙ judged) in
              (r, found, none_, cc (opened.1, opened.2), cc opened.2)
        ],
    λ (r, found, none_, patched, same).
        rw found (rw (none_, judge_result) (rw patched (rw same refl))),
  )

  -- With `Append` as go-multierror documents it, a rule that reports errors refuses the job, with exactly those errors, in their order, each
  -- labelled with the mutator's name.
  pub evaluate-refuses :
      (L : IsFlattening M) (input : Input J) (r : OpaQueryResult) (e : Value) (es : List Value)
      → run_query query input ≡ ok r
      → get_errors r ≡ e ∷ es
      → (x : GoError) × (evaluate M F C P name query input ≡ fail x)
        × (parts x ≡ map (labelled F name) (e ∷ es))
  unfolding evaluate judge_result
  evaluate-refuses L input r e es found errors = (
    append_onto M (M.append none []) (map (labelled F name) (e ∷ es)),
    rw found (rw (errors, judge_result) refl),
    parts-append_onto-messages M L (λ v. F.verb_s v <> " (" <> name <> ")") (e ∷ es)
        (M.append none []) (parts-append-nil M L),
  )
