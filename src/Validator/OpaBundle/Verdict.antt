-- ===== src/Validator/OpaBundle/Verdict.antt =====
-- What an `OpaBundleValidator` reports (pkg/admissionctrl/validator/opa_bundle_validator.go).
use nacp.Common.{◌≡◌, refl, ◌∙◌, String, none, List, [], ◌∷◌, map}
use nacp.GoError.{message, parts?, Multierror, IsFlattening, ok}
use nacp.Payloads.{Input}
use nacp.Value.{Value, null, bool, num, str, arr, obj, elements, Fields, index, or_null, Format}
use nacp.Webhooks.Errors.{parts-append_each, flat_map-messages}
use nacp.Mutator.OpaBundle.{OpaSdkClient}
use nacp.Validator.OpaBundle.{parse_entries, parse_bundle_messages, judge_result, evaluate}

-- A field of the decision that is missing or null, or an array of these texts and nothing else.
abbrev pub Says : Value → List String → Type 0
Says null ss = ss ≡ []
Says (arr vs) ss = elements vs ≡ map str ss
Says _ ss = ⊥

module _ (F : Format) (kind : String) where
  parse_texts : (ss : List String) → parse_entries F kind (map str ss) ≡ ok (map message ss)
  unfolding parse_entries
  parse_texts [] = refl
  parse_texts (s ∷ ss) = rw (parse_texts ss) refl

  -- A field that says texts is read as exactly these.
  pub parse_Says :
      (v : Value) (ss : List String)
      → Says v ss
      → parse_bundle_messages F kind v ≡ ok (map message ss)
  unfolding parse_bundle_messages
  parse_Says null ss e = rw e refl
  parse_Says (arr vs) ss e = rw e (parse_texts ss)
  parse_Says (bool b) ss e = absurd e
  parse_Says (num n) ss e = absurd e
  parse_Says (str s) ss e = absurd e
  parse_Says (obj fs) ss e = absurd e

module _ {J : Type 0} (M : Multierror) (F : Format) (name path : String)
    (opa : OpaSdkClient J) where
  -- With `Append` as go-multierror documents it, a decision whose warnings and errors are lists of texts, or missing, gives a verdict with exactly
  -- these warnings and errors, in their order.
  pub evaluate-decides :
      (flat : IsFlattening M) (input : Input J) (result : Fields) (warnings errors : List String)
      → opa.decision path input ≡ ok (obj result)
      → Says (or_null (index "warnings" result)) warnings
      → Says (or_null (index "errors" result)) errors
      → ((evaluate M F name path opa input).warnings ≡ map message warnings)
        × (parts? (evaluate M F name path opa input).error ≡ map message errors)
  unfolding evaluate judge_result
  evaluate-decides flat input result warnings errors decided warned failed =
      rw (decided, evaluate)
        (rw (parse_Says F "warning" _ warnings warned, judge_result)
          (rw (parse_Says F "error" _ errors failed, judge_result)
            (
              refl,
              parts-append_each M flat none (map message errors)
                  ∙ flat_map-messages (λ s. s) errors,
            )))
