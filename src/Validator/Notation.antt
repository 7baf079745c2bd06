-- ===== src/Validator/Notation.antt =====
-- pkg/admissionctrl/validator/notation_validator.go
pub mod Verdict
use nacp.Common.{String, Option, none, some, List, [], ◌∷◌, ◌==◌, if◌then◌else◌}
use nacp.GoError.{GoError}
use nacp.Admission.{Validated, JobValidator}
use nacp.Payloads.{Input, validate_by}
use nacp.Notation.{ImageVerifier}
use nacp.Value.{Value, Fields, index, or_null, as_string}

-- nomad's `api.Task`, as far as it is read.
pub record Task : Type 0 where
  pub driver : String
  pub config : Fields

-- `continue`, or the image to verify.
unfoldable pub image_of : Task → Option String
image_of task =
    if task.driver == "docker" then as_string (or_null (index "image" task.config)) else none

module _ (verifier : ImageVerifier) where
  -- The inner loop: the first error, if any.
  verify_tasks : List Task → Option GoError
  verify_tasks [] = none
  verify_tasks (task ∷ tasks) = elim (image_of task) [
    | none ↦ verify_tasks tasks
    | some image ↦ elim (verifier.verify_image image) [
      | some e ↦ some e
      | none ↦ verify_tasks tasks
    ]
  ]

  -- The outer loop, over the tasks of each group.
  unfoldable pub verify_groups : List (List Task) → Option GoError
  unfolding verify_tasks
  verify_groups [] = none
  verify_groups (tasks ∷ groups) = elim (verify_tasks tasks) [
    | some e ↦ some e
    | none ↦ verify_groups groups
  ]

-- The tasks of a job, by group, are a parameter.
module _ {J : Type 0} (task_groups : J → List (List Task)) (verifier : ImageVerifier)
    (name : String) where
  pub evaluate : Input J → Validated
  evaluate input = elim (verify_groups verifier (task_groups input.job)) [
    | some e ↦ record { warnings = e ∷ []; error = none }
    | none ↦ record { warnings = []; error = none }
  ]

  -- `NewNotationValidator`
  abbrev pub notation_validator : JobValidator J
  notation_validator = record { name = name; validate = validate_by evaluate }
