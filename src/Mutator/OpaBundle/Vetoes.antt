-- ===== src/Mutator/OpaBundle/Vetoes.antt =====
-- When an `OpaBundleMutator` lets a job pass (pkg/admissionctrl/mutator/opa_bundle_json_patch.go).
use nacp.Common.{
  ◌≡◌, refl, ◌↔◌, ◌≢◌, String, none, some, List, [], ◌∷◌, All, inl, inr, Option-cases,
}
use nacp.GoError.{GoError, message, Multierror, ok}
use nacp.Admission.{JobCodec}
use nacp.Patcher.{JsonPatch}
use nacp.Payloads.{Input, Ending, refuse}
use nacp.Value.{Value, null, bool, num, str, arr, obj, elements, Fields, index, or_null, Format}
use nacp.Mutator.OpaBundle.{
  OpaSdkClient, parse_errors, parse_decision_errors, judge_decision, evaluate,
}

-- No errors: the field is missing or null, or an array of nulls.
abbrev pub IsSilent : Value → Type 0
IsSilent null = Unit
IsSilent (arr vs) = All (λ v. v ≡ null) (elements vs)
IsSilent _ = ⊥

module _ (F : Format) (M : Multierror) where
  parse_errors_keeps : (e : GoError) (vs : List Value) → parse_errors F M (some e) vs ≢ none
  unfolding parse_errors
  parse_errors_keeps e [] h = cc
  parse_errors_keeps e (null ∷ vs) h = parse_errors_keeps e vs h
  parse_errors_keeps e (str s ∷ vs) h = parse_errors_keeps (M.append (some e) (message s ∷ [])) vs h
  parse_errors_keeps e (bool b ∷ vs) h = cc
  parse_errors_keeps e (num n ∷ vs) h = cc
  parse_errors_keeps e (arr a ∷ vs) h = cc
  parse_errors_keeps e (obj o ∷ vs) h = cc

  parse_errors_iff : (vs : List Value) → (parse_errors F M none vs ≡ none) ↔ All (λ v. v ≡ null) vs
  unfolding parse_errors
  parse_errors_iff [] = (λ h. tt, λ h. refl)
  parse_errors_iff (null ∷ vs) =
      let rest = parse_errors_iff vs in (λ h. (refl, rest.0 h), λ h. rest.1 h.1)
  parse_errors_iff (str s ∷ vs) = (λ h. absurd (parse_errors_keeps _ vs h), λ h. absurd (cc h.0))
  parse_errors_iff (bool b ∷ vs) = (λ h. absurd (cc h), λ h. absurd (cc h.0))
  parse_errors_iff (num n ∷ vs) = (λ h. absurd (cc h), λ h. absurd (cc h.0))
  parse_errors_iff (arr a ∷ vs) = (λ h. absurd (cc h), λ h. absurd (cc h.0))
  parse_errors_iff (obj o ∷ vs) = (λ h. absurd (cc h), λ h. absurd (cc h.0))

  pub parse_decision_errors_iff :
      (raw : Value) → (parse_decision_errors F M raw ≡ none) ↔ IsSilent raw
  unfolding parse_decision_errors
  parse_decision_errors_iff null = (λ h. tt, λ h. refl)
  parse_decision_errors_iff (arr vs) = parse_errors_iff (elements vs)
  parse_decision_errors_iff (bool b) = (λ h. absurd (cc h), λ h. absurd h)
  parse_decision_errors_iff (num n) = (λ h. absurd (cc h), λ h. absurd h)
  parse_decision_errors_iff (str s) = (λ h. absurd (cc h), λ h. absurd h)
  parse_decision_errors_iff (obj o) = (λ h. absurd (cc h), λ h. absurd h)

abbrev pub IsRefused : {J : Type 0} → Ending J → Type 0
IsRefused e = (ws : List GoError) × (f : GoError) × (e ≡ refuse ws f)

module _ {J : Type 0} (M : Multierror) (F : Format) (C : JobCodec J) (P : JsonPatch)
    (name path : String) (opa : OpaSdkClient J) where
  judge_vetoes :
      (input : Input J) (fields : Fields)
      → ¬ IsSilent (or_null (index "errors" fields))
      → IsRefused (judge_decision M F C P name path opa input fields)
  unfolding judge_decision
  judge_vetoes input fields loud =
      elim (Option-cases (parse_decision_errors F M (or_null (index "errors" fields)))) [
        | inl none_ ↦ absurd (loud ((parse_decision_errors_iff F M _).0 none_))
        | inr (e, found) ↦ ([], e, rw (found, judge_decision) refl)
      ]

  -- A decision refuses the job unless it is an object whose `errors` are missing, null or an array of
  -- nulls: errors of any other shape, and decisions of any other shape, refuse it as well.
  pub evaluate-vetoes :
      (input : Input J) (decision : Value)
      → opa.decision path input ≡ ok decision
      → ((fields : Fields) → decision ≡ obj fields → ¬ IsSilent (or_null (index "errors" fields)))
      → IsRefused (evaluate M F C P name path opa input)
  unfolding evaluate
  evaluate-vetoes input (obj fields) decided loud =
      rw (decided, evaluate) (judge_vetoes input fields (loud fields refl))
  evaluate-vetoes input null decided loud = rw (decided, evaluate) ([], _, refl)
  evaluate-vetoes input (bool b) decided loud = rw (decided, evaluate) ([], _, refl)
  evaluate-vetoes input (num n) decided loud = rw (decided, evaluate) ([], _, refl)
  evaluate-vetoes input (str s) decided loud = rw (decided, evaluate) ([], _, refl)
  evaluate-vetoes input (arr vs) decided loud = rw (decided, evaluate) ([], _, refl)
