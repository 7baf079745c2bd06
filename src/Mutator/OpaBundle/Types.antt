-- ===== src/Mutator/OpaBundle/Types.antt =====
-- The type of the decisions of an `OpaBundleMutator`
-- (pkg/admissionctrl/mutator/opa_bundle_json_patch.go): what passes, and as what.
use nacp.Common.{
  ◌≡◌, refl, ◌∙◌, sym, ap, ◌↔◌, String, none, some, List, [], ◌∷◌, ◌++◌, map, inl, inr,
  Option-cases, append_assoc, append-nil,
}
use nacp.GoError.{GoError, message, Multierror, Result-cases, ok}
use nacp.Admission.{JobCodec}
use nacp.Patcher.{JsonPatch, patch_job}
use nacp.Payloads.{Input, Ending, refuse, keep, replace}
use nacp.Value.{
  Value, null, bool, num, str, arr, obj, elements, Items, Fields, index, or_null, Format,
}
use nacp.Mutator.OpaBundle.{
  OpaSdkClient, parse_warnings, parse_decision_errors, parse_decision_warnings,
  apply_decision_patch, apply_patch, judge_decision, evaluate,
}
use nacp.Mutator.OpaBundle.Vetoes.{IsSilent, parse_decision_errors_iff}

-- A list of texts, between which nulls may stand.
abbrev pub Texts : List Value → List String → Type 0
Texts [] ss = ss ≡ []
Texts (null ∷ vs) ss = Texts vs ss
Texts (str s ∷ vs) ss = (ts : List String) × (ss ≡ s ∷ ts) × Texts vs ts
Texts (bool b ∷ vs) ss = ⊥
Texts (num n ∷ vs) ss = ⊥
Texts (arr a ∷ vs) ss = ⊥
Texts (obj o ∷ vs) ss = ⊥

-- A field that is missing or null, or an array of these texts.
abbrev pub HoldsTexts : Value → List String → Type 0
HoldsTexts null ss = ss ≡ []
HoldsTexts (arr vs) ss = Texts (elements vs) ss
HoldsTexts _ ss = ⊥

-- A mutator that ends with a job.
abbrev pub Passes : {J : Type 0} → Ending J → Type 0
Passes (refuse ws e) = ⊥
Passes (keep ws) = Unit
Passes (replace j b ws) = Unit

module _ (F : Format) where
  parse_warnings-Texts :
      (pre : List GoError) (vs : List Value) (ss : List String)
      → Texts vs ss
      → parse_warnings F pre vs ≡ (pre ++ map message ss, none)
  unfolding parse_warnings
  parse_warnings-Texts pre [] ss e = rw e (ap (λ l. (l, none)) (sym (append-nil pre)))
  parse_warnings-Texts pre (null ∷ vs) ss t = parse_warnings-Texts pre vs ss t
  parse_warnings-Texts pre (str s ∷ vs) ss (ts, e, t) =
      rw (e, ← append_assoc pre (message s ∷ []) (map message ts))
        (parse_warnings-Texts (pre ++ message s ∷ []) vs ts t)
  parse_warnings-Texts pre (bool b ∷ vs) ss t = absurd t
  parse_warnings-Texts pre (num n ∷ vs) ss t = absurd t
  parse_warnings-Texts pre (arr a ∷ vs) ss t = absurd t
  parse_warnings-Texts pre (obj o ∷ vs) ss t = absurd t

  Texts-parse_warnings :
      (pre : List GoError) (vs : List Value)
      → (parse_warnings F pre vs).1 ≡ none
      → (ss : List String) × Texts vs ss
  unfolding parse_warnings
  Texts-parse_warnings pre [] h = ([], refl)
  Texts-parse_warnings pre (null ∷ vs) h = Texts-parse_warnings pre vs h
  Texts-parse_warnings pre (str s ∷ vs) h =
      let (ts, t) = Texts-parse_warnings (pre ++ message s ∷ []) vs h in (s ∷ ts, (ts, refl, t))
  Texts-parse_warnings pre (bool b ∷ vs) h = absurd (cc h)
  Texts-parse_warnings pre (num n ∷ vs) h = absurd (cc h)
  Texts-parse_warnings pre (arr a ∷ vs) h = absurd (cc h)
  Texts-parse_warnings pre (obj o ∷ vs) h = absurd (cc h)

  parse_decision_warnings-HoldsTexts :
      (v : Value) (ss : List String)
      → HoldsTexts v ss
      → parse_decision_warnings F v ≡ (map message ss, none)
  unfolding parse_decision_warnings
  parse_decision_warnings-HoldsTexts null ss e = rw e refl
  parse_decision_warnings-HoldsTexts (arr vs) ss t = parse_warnings-Texts [] (elements vs) ss t
  parse_decision_warnings-HoldsTexts (bool b) ss t = absurd t
  parse_decision_warnings-HoldsTexts (num n) ss t = absurd t
  parse_decision_warnings-HoldsTexts (str s) ss t = absurd t
  parse_decision_warnings-HoldsTexts (obj o) ss t = absurd t

  HoldsTexts-parse_decision_warnings :
      (v : Value) → (parse_decision_warnings F v).1 ≡ none → (ss : List String) × HoldsTexts v ss
  unfolding parse_decision_warnings
  HoldsTexts-parse_decision_warnings null h = ([], refl)
  HoldsTexts-parse_decision_warnings (arr vs) h = Texts-parse_warnings [] (elements vs) h
  HoldsTexts-parse_decision_warnings (bool b) h = absurd (cc h)
  HoldsTexts-parse_decision_warnings (num n) h = absurd (cc h)
  HoldsTexts-parse_decision_warnings (str s) h = absurd (cc h)
  HoldsTexts-parse_decision_warnings (obj o) h = absurd (cc h)

module _ {J : Type 0} (M : Multierror) (F : Format) (C : JobCodec J) (P : JsonPatch)
    (name path : String) (opa : OpaSdkClient J) where
  -- What a patch makes of the job: the job as it was, or the patched one.
  abbrev pub Patches : Input J → Value → List GoError → Ending J → Type 0
  Patches input v ws (refuse us e) = ⊥
  Patches input v ws (keep us) = (us ≡ ws) × (v ≡ null)
  Patches input v ws (replace j b us) =
      (us ≡ ws)
      × (ops : Items) × (v ≡ arr ops)
      × (patch_job C P input.job (some (elements ops)) ≡ ok (j, b))

  -- The decisions with which the mutator ends so: objects whose errors are missing, null or an array
  -- of nulls, whose warnings are texts, and whose patch is missing, null or an array that applies.
  abbrev pub Decides : Input J → Value → Ending J → Type 0
  Decides input (obj fields) e =
      IsSilent (or_null (index "errors" fields))
      × (ss : List String) × HoldsTexts (or_null (index "warnings" fields)) ss
      × Patches input (or_null (index "patch" fields)) (map message ss) e
  Decides input _ e = ⊥

  apply_patch_of_Patches :
      (input : Input J) (v : Value) (ws : List GoError) (e : Ending J)
      → Patches input v ws e
      → apply_patch M F C P name path opa input ws v ≡ e
  unfolding apply_patch apply_decision_patch
  apply_patch_of_Patches input v ws (refuse us f) p = absurd p
  apply_patch_of_Patches input v ws (keep us) (same, n) = rw (n, same, apply_patch) refl
  apply_patch_of_Patches input v ws (replace j b us) (same, ops, n, made) =
      rw (n, same, made, apply_patch, apply_decision_patch) refl

  apply_array-Patches :
      (input : Input J) (ops : Items) (ws : List GoError) (e : Ending J)
      → Passes e
      → apply_patch M F C P name path opa input ws (arr ops) ≡ e
      → Patches input (arr ops) ws e
  unfolding apply_patch apply_decision_patch
  apply_array-Patches input ops ws (refuse us f) p h = absurd p
  apply_array-Patches input ops ws (keep us) p h =
      elim (Result-cases (patch_job C P input.job (some (elements ops)))) [
        | inl (f, x) ↦ absurd (cc (rw (x, apply_patch, apply_decision_patch) at h))
        | inr ((j, b), x) ↦ absurd (cc (rw (x, apply_patch, apply_decision_patch) at h))
      ]
  apply_array-Patches input ops ws (replace j b us) p h =
      elim (Result-cases (patch_job C P input.job (some (elements ops)))) [
        | inl (f, x) ↦ absurd (cc (rw (x, apply_patch, apply_decision_patch) at h))
        | inr ((j', b'), x) ↦
            let same : replace j' b' ws ≡ replace j b us =
              rw (x, apply_patch, apply_decision_patch) at h in
            (cc same, ops, refl, x ∙ cc same)
      ]

  apply_patch-Patches :
      (input : Input J) (v : Value) (ws : List GoError) (e : Ending J)
      → Passes e
      → apply_patch M F C P name path opa input ws v ≡ e
      → Patches input v ws e
  unfolding apply_patch apply_decision_patch
  apply_patch-Patches input (arr ops) ws e p h = apply_array-Patches input ops ws e p h
  apply_patch-Patches input null ws (refuse us f) p h = absurd p
  apply_patch-Patches input null ws (keep us) p h = (cc h, refl)
  apply_patch-Patches input null ws (replace j b us) p h = absurd (cc h)
  apply_patch-Patches input (bool v) ws e p h = absurd (rw (← h) at p)
  apply_patch-Patches input (num v) ws e p h = absurd (rw (← h) at p)
  apply_patch-Patches input (str v) ws e p h = absurd (rw (← h) at p)
  apply_patch-Patches input (obj v) ws e p h = absurd (rw (← h) at p)

  judge_decision-Decides :
      (input : Input J) (fields : Fields) (e : Ending J)
      → Passes e
      → judge_decision M F C P name path opa input fields ≡ e
      → Decides input (obj fields) e
  unfolding judge_decision
  judge_decision-Decides input fields e p h =
      let errors = or_null (index "errors" fields) in
      let warnings = or_null (index "warnings" fields) in
      elim (Option-cases (parse_decision_errors F M errors)) [
        | inr (f, x) ↦ absurd (rw (← (rw (x, judge_decision) at h)) at p)
        | inl x ↦ elim (Option-cases (parse_decision_warnings F warnings).1) [
          | inr (f, y) ↦ absurd (rw (← (rw (x, y, judge_decision) at h)) at p)
          | inl y ↦
              let (ss, t) = HoldsTexts-parse_decision_warnings F warnings y in
              (
                (parse_decision_errors_iff F M errors).0 x,
                ss,
                t,
                apply_patch-Patches input (or_null (index "patch" fields)) (map message ss) e p (
                    rw (ap (λ z. z.0) (parse_decision_warnings-HoldsTexts F warnings ss t)) at
                      (rw (x, y, judge_decision) at h)),
              )
        ]
      ]

  judge_decision_of_Decides :
      (input : Input J) (fields : Fields) (e : Ending J)
      → Decides input (obj fields) e
      → judge_decision M F C P name path opa input fields ≡ e
  unfolding judge_decision
  judge_decision_of_Decides input fields e (silent, ss, t, patches) =
      let read = parse_decision_warnings-HoldsTexts F (or_null (index "warnings" fields)) ss t in
      rw
        (
          (parse_decision_errors_iff F M (or_null (index "errors" fields))).1 silent,
          ap (λ z. z.1) read,
          judge_decision,
        )
        (rw (ap (λ z. z.0) read) (
          apply_patch_of_Patches input (or_null (index "patch" fields)) (map message ss) e patches))

  -- A decision lets the job pass exactly if it is well typed and has no errors: it is an object whose
  -- `errors` are missing, null or an array of nulls, whose `warnings` are missing, null or an array of
  -- texts and nulls, and whose `patch` is missing or null, or an array of operations that apply to
  -- the job. The warnings are then these texts, in their order. Without a patch the job stays as it
  -- is; with one it becomes the patched job, and counts as mutated exactly if the patch has an
  -- operation.
  pub evaluate-Decides :
      (input : Input J) (decision : Value) (e : Ending J)
      → opa.decision path input ≡ ok decision
      → Passes e
      → (evaluate M F C P name path opa input ≡ e) ↔ Decides input decision e
  unfolding evaluate
  evaluate-Decides input (obj fields) e decided p = (
    λ h. judge_decision-Decides input fields e p (rw (decided, evaluate) at h),
    λ d. rw (decided, evaluate) (judge_decision_of_Decides input fields e d),
  )
  evaluate-Decides input null e decided p =
      (λ h. absurd (rw (← (rw (decided, evaluate) at h)) at p), λ d. absurd d)
  evaluate-Decides input (bool b) e decided p =
      (λ h. absurd (rw (← (rw (decided, evaluate) at h)) at p), λ d. absurd d)
  evaluate-Decides input (num n) e decided p =
      (λ h. absurd (rw (← (rw (decided, evaluate) at h)) at p), λ d. absurd d)
  evaluate-Decides input (str s) e decided p =
      (λ h. absurd (rw (← (rw (decided, evaluate) at h)) at p), λ d. absurd d)
  evaluate-Decides input (arr vs) e decided p =
      (λ h. absurd (rw (← (rw (decided, evaluate) at h)) at p), λ d. absurd d)
