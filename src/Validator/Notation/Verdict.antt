-- ===== src/Validator/Notation/Verdict.antt =====
-- What a `NotationValidator` reports (pkg/admissionctrl/validator/notation_validator.go).
use nacp.Common.{
  ◌≡◌, refl, ◌↔◌, ◌∙◌, sym, String, Option, none, some, List, [], ◌∷◌, All, Option-cases, inl, inr,
}
use nacp.Payloads.{Input}
use nacp.Notation.{ImageVerifier}
use nacp.Validator.Notation.{Task, image_of, verify_tasks, verify_groups, evaluate}

-- A task that names no image of docker, or one that the verifier accepts.
abbrev IsSigned : ImageVerifier → Option String → Type 0
IsSigned verifier none = Unit
IsSigned verifier (some image) = verifier.verify_image image ≡ none

module _ (verifier : ImageVerifier) where
  abbrev pub IsVerified : Task → Type 0
  IsVerified task = IsSigned verifier (image_of task)

  verify_image_iff :
      (image : Option String) (tasks : List Task)
      → (elim image [
        | none ↦ verify_tasks verifier tasks
        | some i ↦ elim (verifier.verify_image i) [
          | some e ↦ some e
          | none ↦ verify_tasks verifier tasks
        ]
      ]
          ≡ none)
        ↔ (IsSigned verifier image × (verify_tasks verifier tasks ≡ none))
  verify_image_iff none tasks = (λ h. (tt, h), λ h. h.1)
  verify_image_iff (some i) tasks = elim (Option-cases (verifier.verify_image i)) [
    | inl e ↦ (λ h. (e, sym (rw e refl) ∙ h), λ h. rw e h.1)
    | inr (x, e) ↦ (λ h. absurd (cc (e, h)), λ h. absurd (cc (e, h.0)))
  ]

  verify_tasks_iff :
      (tasks : List Task) → (verify_tasks verifier tasks ≡ none) ↔ All IsVerified tasks
  unfolding verify_tasks
  verify_tasks_iff [] = (λ h. tt, λ h. refl)
  verify_tasks_iff (task ∷ tasks) =
      let here = verify_image_iff (image_of task) tasks in
      (
        λ h. let (a, b) = here.0 h in (a, (verify_tasks_iff tasks).0 b),
        λ (a, b). here.1 (a, (verify_tasks_iff tasks).1 b),
      )

  verify_groups_iff :
      (groups : List (List Task))
      → (verify_groups verifier groups ≡ none) ↔ All (All IsVerified) groups
  unfolding verify_groups
  verify_groups_iff [] = (λ h. tt, λ h. refl)
  verify_groups_iff (tasks ∷ groups) = elim (Option-cases (verify_tasks verifier tasks)) [
    | inl e ↦ (
      λ h. (
        (verify_tasks_iff tasks).0 e,
        (verify_groups_iff groups).0 (sym (rw (e, verify_groups) refl) ∙ h),
      ),
      λ h. rw (e, verify_groups) ((verify_groups_iff groups).1 h.1),
    )
    | inr (x, e) ↦ (λ h. absurd (cc (e, h)), λ h. absurd (cc (e, (verify_tasks_iff tasks).1 h.0)))
  ]

module _ {J : Type 0} (task_groups : J → List (List Task)) (verifier : ImageVerifier)
    (name : String) where
  -- A notation validator never returns an error: where the verifier refuses the image of a docker
  -- task, that is a warning, and there is no warning exactly when every image is verified.
  pub evaluate-warns :
      (input : Input J)
      → ((evaluate task_groups verifier name input).error ≡ none)
        × (((evaluate task_groups verifier name input).warnings ≡ [])
            ↔ All (All (IsVerified verifier)) (task_groups input.job))
  unfolding evaluate
  evaluate-warns input = elim (Option-cases (verify_groups verifier (task_groups input.job))) [
    | inl e ↦
        rw (e, evaluate)
          (refl, (λ _. (verify_groups_iff verifier (task_groups input.job)).0 e, λ _. refl))
    | inr (x, e) ↦
        rw (e, evaluate)
          (
            refl,
            (
              λ h. absurd (cc h),
              λ h. absurd (cc (e, (verify_groups_iff verifier (task_groups input.job)).1 h)),
            ),
          )
  ]
