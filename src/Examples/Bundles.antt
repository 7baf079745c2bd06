-- ===== src/Examples/Bundles.antt =====
-- Decisions of OPA bundles, for the mutator and for the validator.
use nacp.Common.{◌≢◌, String, ℕ, ◌≡◌, ◌↔◌, refl, none, List, [], ◌∷◌, map}
use nacp.GoError.{message, parts?, ok}
use nacp.Payloads.{keep}
use nacp.Value.{null, Value, str, arr, obj, index, Items, end, field}
use nacp.Mutator.OpaBundle as OpaBundleMutator
use nacp.Mutator.OpaBundle.{OpaSdkClient}
use nacp.Mutator.OpaBundle.Types.{Decides, evaluate-Decides}
use nacp.Validator.OpaBundle as OpaBundleValidator
use nacp.Validator.OpaBundle.Accepts.{IsTyped, evaluate-IsTyped}
use nacp.Examples.Data.{multierror, flat, format, codec}
use nacp.Examples.Controllers.{input, patches}

abbrev decides : Value → OpaSdkClient ℕ
decides v = record { decision = λ path i. ok v }

-- A decision with a warning and a null, and neither errors nor a patch.
abbrev lenient : Value
lenient = obj (field "warnings" (arr (Items.cons null (Items.cons (str "watch") Items.nil))) end)

evaluate-Decides_example :
    (OpaBundleMutator.evaluate multierror format codec patches "bundle" "/p" (decides lenient) input
      ≡ keep (message "watch" ∷ []))
    ↔ Decides multierror format codec patches "bundle" "/p"
        (decides lenient)
        input
        lenient
        (keep (message "watch" ∷ []))
evaluate-Decides_example =
    evaluate-Decides multierror format codec patches "bundle" "/p" (decides lenient) input lenient
      (keep (message "watch" ∷ [])) refl tt

lenient_passes :
    OpaBundleMutator.evaluate multierror format codec patches "bundle" "/p" (decides lenient) input
    ≡ keep (message "watch" ∷ [])
unfolding index
lenient_passes =
    (evaluate-Decides multierror format codec patches "bundle" "/p" (decides lenient) input lenient
        (keep (message "watch" ∷ [])) refl tt).1
      (tt, "watch" ∷ [], ([], refl, refl), (refl, refl))

-- A null among the errors is not an error to the mutator, and makes the validator refuse.
abbrev hesitant : Value
hesitant = obj (field "errors" (arr (Items.cons null Items.nil)) end)

evaluate-IsTyped_example :
    (((OpaBundleValidator.evaluate multierror format "bundle" "/p" (decides hesitant) input).error
        ≡ none)
      ↔ ((ss : List String) × IsTyped hesitant ss []))
    × ((ws es : List String)
        → IsTyped hesitant ws es
        → ((OpaBundleValidator.evaluate multierror format "bundle" "/p"
              (decides hesitant)
              input).warnings
            ≡ map message ws)
          × (parts?
                (OpaBundleValidator.evaluate multierror format "bundle" "/p"
                  (decides hesitant)
                  input).error
              ≡ map message es))
evaluate-IsTyped_example =
    evaluate-IsTyped multierror format "bundle" "/p" (decides hesitant) flat input hesitant refl

hesitant_refused :
    (OpaBundleValidator.evaluate multierror format "bundle" "/p" (decides hesitant) input).error
    ≢ none
unfolding index
hesitant_refused h =
    let (ss, (_, failed)) =
      (evaluate-IsTyped multierror format "bundle" "/p" (decides hesitant) flat input hesitant
          refl).0.0
        h in
    cc failed

hesitant_passes :
    OpaBundleMutator.evaluate multierror format codec patches "bundle" "/p" (decides hesitant) input
    ≡ keep []
unfolding index
hesitant_passes =
    (evaluate-Decides multierror format codec patches "bundle" "/p" (decides hesitant) input
        hesitant (keep []) refl tt).1
      ((refl, tt), [], refl, (refl, refl))
