-- ===== src/Validator/OpaBundle/Accepts.antt =====
-- The type of the decisions that an `OpaBundleValidator` accepts
-- (pkg/admissionctrl/validator/opa_bundle_validator.go).
use nacp.Common.{◌≡◌, refl, ◌↔◌, ◌≢◌, String, none, some, List, [], ◌∷◌, map, inl, inr}
use nacp.GoError.{GoError, message, parts?, Multierror, IsFlattening, ok, Result-cases, >>=-eq-ok}
use nacp.Payloads.{Input}
use nacp.Value.{Value, null, bool, num, str, arr, obj, elements, Fields, index, or_null, Format}
use nacp.Webhooks.{append_each}
use nacp.Mutator.OpaBundle.{OpaSdkClient}
use nacp.Validator.OpaBundle.{parse_entries, parse_bundle_messages, judge_result, evaluate}
use nacp.Validator.OpaBundle.Verdict.{Says, parse_Says, evaluate-decides}

append_each_keeps :
    (M : Multierror) (e : GoError) (es : List GoError) → append_each M (some e) es ≢ none
unfolding append_each
append_each_keeps M e [] h = cc
append_each_keeps M e (f ∷ es) h = append_each_keeps M (M.append (some e) (f ∷ [])) es h

append_each_of_none : (M : Multierror) (es : List GoError) → append_each M none es ≡ none → es ≡ []
unfolding append_each
append_each_of_none M [] h = refl
append_each_of_none M (e ∷ es) h = absurd (append_each_keeps M (M.append none (e ∷ [])) es h)

module _ (F : Format) (kind : String) where
  entries_read :
      (vs : List Value) (es : List GoError)
      → parse_entries F kind vs ≡ ok es
      → (ss : List String) × (vs ≡ map str ss) × (es ≡ map message ss)
  unfolding parse_entries
  entries_read [] es h = ([], refl, cc h)
  entries_read (str s ∷ vs) es h =
      let (ms, read, rest) =
        >>=-eq-ok (parse_entries F kind vs) (λ ms. ok (message s ∷ ms)) {c = es} h in
      let (ss, e, f) = entries_read vs ms read in
      let same : message s ∷ ms ≡ es = cc rest in (s ∷ ss, rw e refl, rw (← same, f) refl)
  entries_read (null ∷ vs) es h = absurd (cc h)
  entries_read (bool b ∷ vs) es h = absurd (cc h)
  entries_read (num n ∷ vs) es h = absurd (cc h)
  entries_read (arr a ∷ vs) es h = absurd (cc h)
  entries_read (obj o ∷ vs) es h = absurd (cc h)

  Says-parse_bundle_messages :
      (v : Value) (es : List GoError)
      → parse_bundle_messages F kind v ≡ ok es
      → (ss : List String) × Says v ss × (es ≡ map message ss)
  unfolding parse_bundle_messages
  Says-parse_bundle_messages null es h = ([], refl, cc h)
  Says-parse_bundle_messages (arr vs) es h = entries_read (elements vs) es h
  Says-parse_bundle_messages (bool b) es h = absurd (cc h)
  Says-parse_bundle_messages (num n) es h = absurd (cc h)
  Says-parse_bundle_messages (str s) es h = absurd (cc h)
  Says-parse_bundle_messages (obj o) es h = absurd (cc h)

-- A decision that is an object with these warnings and errors.
abbrev pub IsTyped : Value → List String → List String → Type 0
IsTyped (obj result) warnings errors =
    Says (or_null (index "warnings" result)) warnings
    × Says (or_null (index "errors" result)) errors
IsTyped _ warnings errors = ⊥

no_texts : (ss : List String) → map message ss ≡ [] → ss ≡ []
no_texts [] h = refl
no_texts (s ∷ ss) h = cc

module _ {J : Type 0} (M : Multierror) (F : Format) (name path : String)
    (opa : OpaSdkClient J) where
  judge_result-IsTyped :
      (result : Fields)
      → (judge_result M F name path opa result).error ≡ none
      → (ss : List String) × IsTyped (obj result) ss []
  unfolding judge_result
  judge_result-IsTyped result h =
      let warnings = or_null (index "warnings" result) in
      let errors = or_null (index "errors" result) in
      elim (Result-cases (parse_bundle_messages F "warning" warnings)) [
        | inl (e, x) ↦ absurd (cc (rw (x, judge_result) at h))
        | inr (ws, x) ↦ elim (Result-cases (parse_bundle_messages F "error" errors)) [
          | inl (e, y) ↦ absurd (cc (rw (x, y, judge_result) at h))
          | inr (es, y) ↦
              let (ss, warned, _) = Says-parse_bundle_messages F "warning" warnings ws x in
              let (ts, failed, read) = Says-parse_bundle_messages F "error" errors es y in
              let none_ : es ≡ [] = append_each_of_none M es (rw (x, y, judge_result) at h) in
              (ss, (warned, rw (no_texts ts (rw read at none_)) at failed))
        ]
      ]

  accepted-IsTyped :
      (input : Input J) (decision : Value)
      → opa.decision path input ≡ ok decision
      → (evaluate M F name path opa input).error ≡ none
      → (ss : List String) × IsTyped decision ss []
  unfolding evaluate
  accepted-IsTyped input (obj result) decided h =
      judge_result-IsTyped result (rw (decided, evaluate) at h)
  accepted-IsTyped input null decided h = absurd (cc (rw (decided, evaluate) at h))
  accepted-IsTyped input (bool b) decided h = absurd (cc (rw (decided, evaluate) at h))
  accepted-IsTyped input (num n) decided h = absurd (cc (rw (decided, evaluate) at h))
  accepted-IsTyped input (str s) decided h = absurd (cc (rw (decided, evaluate) at h))
  accepted-IsTyped input (arr vs) decided h = absurd (cc (rw (decided, evaluate) at h))

  typed_accepts :
      (input : Input J) (decision : Value) (ss : List String)
      → opa.decision path input ≡ ok decision
      → IsTyped decision ss []
      → (evaluate M F name path opa input).error ≡ none
  unfolding evaluate judge_result append_each
  typed_accepts input (obj result) ss decided (warned, failed) =
      rw (decided, evaluate)
        (rw (parse_Says F "warning" _ ss warned, judge_result)
          (rw (parse_Says F "error" _ [] failed, judge_result) refl))
  typed_accepts input null ss decided t = absurd t
  typed_accepts input (bool b) ss decided t = absurd t
  typed_accepts input (num n) ss decided t = absurd t
  typed_accepts input (str s) ss decided t = absurd t
  typed_accepts input (arr vs) ss decided t = absurd t

  typed_decides :
      (flat : IsFlattening M) (input : Input J) (decision : Value) (ws es : List String)
      → opa.decision path input ≡ ok decision
      → IsTyped decision ws es
      → ((evaluate M F name path opa input).warnings ≡ map message ws)
        × (parts? (evaluate M F name path opa input).error ≡ map message es)
  typed_decides flat input (obj result) ws es decided (warned, failed) =
      evaluate-decides M F name path opa flat input result ws es decided warned failed
  typed_decides flat input null ws es decided t = absurd t
  typed_decides flat input (bool b) ws es decided t = absurd t
  typed_decides flat input (num n) ws es decided t = absurd t
  typed_decides flat input (str s) ws es decided t = absurd t
  typed_decides flat input (arr vs) ws es decided t = absurd t

  -- With `Append` as go-multierror documents it: a decision is accepted exactly if it is an object
  -- whose `warnings` and `errors` are each missing, null or an array of nothing but texts, and there
  -- is no error among them. Of an object whose warnings and errors are of that type, the verdict has
  -- exactly these, in their order.
  pub evaluate-IsTyped :
      (flat : IsFlattening M) (input : Input J) (decision : Value)
      → opa.decision path input ≡ ok decision
      → (((evaluate M F name path opa input).error ≡ none)
          ↔ ((ss : List String) × IsTyped decision ss []))
        × ((ws es : List String)
            → IsTyped decision ws es
            → ((evaluate M F name path opa input).warnings ≡ map message ws)
              × (parts? (evaluate M F name path opa input).error ≡ map message es))
  evaluate-IsTyped flat input decision decided = (
    (
      λ h. accepted-IsTyped input decision decided h,
      λ (ss, t). typed_accepts input decision ss decided t,
    ),
    λ ws es t. typed_decides flat input decision ws es decided t,
  )
