-- ===== src/Examples/Data.antt =====
-- Instances of the libraries, and a handler with a mutator and two validators.
use mathlib.Core.List.{flat_map}
use nacp.Common.{
  ℕ, ◌+◌, refl, ◌++◌, ◌<>◌, true, Option, none, some, List, [], ◌∷◌, ◌==◌, ltb, All, if◌then◌else◌,
}
use nacp.GoError.{
  message, multi, of_errors, parts, parts?, Multierror, IsFlattening, Result, ok, err,
}
use nacp.Admission.{JobMutator, JobValidator, JobHandler, JobCodec, Validated, World}
use nacp.Admission.Spec.{Transform, Policy, IsFaithful, IsMutatorOf, IsValidatorOf}
use nacp.Admission.Isolation.{IsPrivate}
use nacp.Payloads.{
  Input, Ending, replace, mutate_by, transform_by, validate_by, policy_by, mutate_by-IsMutatorOf,
  validate_by-IsValidatorOf, validate_by-IsPrivate,
}
use nacp.Value.{Format}

abbrev pub multierror : Multierror
multierror = record {
  append = λ e es. multi (of_errors (parts? e ++ flat_map parts es));
  format = λ es. "errors occurred";
}

abbrev pub flat : IsFlattening multierror
flat = record { append-eq = λ e es. refl }

abbrev pub unmarshal_job : List ℕ → Result ℕ
unmarshal_job [] = err (message "unexpected end of JSON input")
unmarshal_job (n ∷ ns) = ok n

abbrev pub marshal_job : Option ℕ → Result (List ℕ)
marshal_job none = ok []
marshal_job (some n) = ok (n ∷ [])

abbrev pub codec : JobCodec ℕ
codec = record { marshal = marshal_job; unmarshal = unmarshal_job }

abbrev pub faithful : IsFaithful codec
faithful = λ j. refl

abbrev pub format : Format
format = record { quote = λ s. "'" <> s <> "'"; verb_s = λ v. "v"; verb_v = λ v. "v" }

-- A mutator that adds one to the job, with a warning.
abbrev pub bump : Input ℕ → Ending ℕ
bump i = replace (i.job + 1) true (message "bumped" ∷ [])

-- A validator that warns, and one that refuses jobs below a limit.
abbrev pub warn : Input ℕ → Validated
warn i = record { warnings = message "careful" ∷ []; error = none }

abbrev pub at_least : ℕ → Input ℕ → Validated
at_least n i = record {
  warnings = [];
  error = if ltb i.job n then some (message "too small") else none;
}

abbrev pub bumper : JobMutator ℕ
bumper = record { name = "bump"; mutate = mutate_by bump }

abbrev pub warner : JobValidator ℕ
warner = record { name = "warn"; validate = validate_by warn }

abbrev pub limiter : JobValidator ℕ
limiter = record { name = "limit"; validate = validate_by (at_least 5) }

abbrev pub handler : JobHandler ℕ
handler = record {
  mutators = bumper ∷ [];
  validators = warner ∷ limiter ∷ [];
  resolve_token = true;
}

abbrev pub transforms : JobMutator ℕ → Transform ℕ
transforms m = transform_by bump

abbrev pub policies : JobValidator ℕ → Policy ℕ
policies v = if v.name == "warn" then policy_by warn else policy_by (at_least 5)

pub mutators_lawful : All (λ m. IsMutatorOf (transforms m) m) handler.mutators
mutators_lawful = (mutate_by-IsMutatorOf "bump" bump, tt)

pub validators_lawful : All (λ v. IsValidatorOf (policies v) v) handler.validators
validators_lawful =
    (validate_by-IsValidatorOf "warn" warn, (validate_by-IsValidatorOf "limit" (at_least 5), tt))

pub validators-IsPrivate : All IsPrivate handler.validators
validators-IsPrivate =
    (validate_by-IsPrivate "warn" warn, (validate_by-IsPrivate "limit" (at_least 5), tt))

-- A heap with one job and no metrics.
abbrev pub world : World ℕ
world = record { heap = 7 ∷ []; metrics = [] }
