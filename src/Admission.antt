-- ===== src/Admission.antt =====
-- pkg/admissionctrl/controller.go and pkg/admissionctrl/types/opa_payload.go. A `*api.Job` is an index into a heap of
-- jobs, so that controllers which share a job, and copies that keep them apart, are told apart.
-- Log lines and trace spans are not modelled; the metrics that the controller adds are a list of events.
pub mod Isolation
pub mod Spec
pub mod Judges
pub mod Transforms
pub mod Refines
pub mod Counting
use nacp.Common.{
  ℕ, String, ◌<>◌, Bool, Option, none, some, List, [], ◌∷◌, ◌++◌, length, get_elem?, if◌then◌else◌,
}
use nacp.GoError.{GoError, message, wrap, Multierror, Result, ok, err, ◌>>=◌}
use nacp.Config.{RequestContext}

-- A `*api.Job` that is not nil.
abbrev pub Ref : Type 0
Ref = ℕ

-- `types.Payload`
pub record Payload : Type 0 where
  pub job : Option Ref
  pub context : Option RequestContext

-- What `Mutate` returns.
pub record Mutated : Type 0 where
  pub job : Option Ref
  pub mutated : Bool
  pub warnings : List GoError
  pub error : Option GoError

-- What `Validate` returns.
pub record Validated : Type 0 where
  pub warnings : List GoError
  pub error : Option GoError

-- The interface `JobMutator`, over a heap of jobs of type `J`.
pub record JobMutator (J : Type 0) : Type 0 where
  pub name : String
  pub mutate : Payload → List J → Mutated × List J

-- The interface `JobValidator`.
pub record JobValidator (J : Type 0) : Type 0 where
  pub name : String
  pub validate : Payload → List J → Validated × List J

-- The counters of `Metrics`.
pub data Counter : Type 0 where
  validator_warning validator_error mutator_warning mutator_error mutator_mutation : Counter

-- One call of `Add`.
pub record Metric : Type 0 where
  pub counter : Counter
  pub increment : ℕ
  pub controller : String

pub record World (J : Type 0) : Type 0 where
  pub heap : List J
  pub metrics : List Metric

pub record JobHandler (J : Type 0) : Type 0 where
  pub mutators : List (JobMutator J)
  pub validators : List (JobValidator J)
  pub resolve_token : Bool

-- `encoding/json` on `*api.Job`; a nil pointer is written too, as `null`.
pub record JobCodec (J : Type 0) : Type 0 where
  pub marshal : Option J → Result (List ℕ)
  pub unmarshal : List ℕ → Result J

module _ {J : Type 0} where
  abbrev pub count : Counter → ℕ → String → World J → World J
  count c n name w = record w {
    metrics = w.metrics ++ record { counter = c; increment = n; controller = name } ∷ [];
  }

  abbrev pub deref : List J → Option Ref → Option J
  deref h none = none
  deref h (some r) = get_elem? h r

  -- What the closure in `AdmissionMutators` does with the results of `Mutate`.
  unfoldable pub judge : String → Mutated → World J → Result (Ref × List GoError) × World J
  judge name r w = elim r.error [
    | some e ↦ (err (wrap ("error in job mutator " <> name) e), count mutator_error 1 name w)
    | none ↦ elim r.job [
      | none ↦ (
        err (message ("job mutator " <> name <> " returned nil job")),
        count mutator_error 1 name w,
      )
      | some job ↦ (
        ok (job, r.warnings),
        count mutator_warning (length r.warnings) name
            (if r.mutated then count mutator_mutation 1 name w else w),
      )
    ]
  ]

  -- One round of the loop of `AdmissionMutators`.
  unfoldable pub run_mutator :
      JobMutator J → Option RequestContext → Ref → World J → Result (Ref × List GoError) × World J
  unfolding judge
  run_mutator m ctx job w =
      let (r, heap) = m.mutate (record { job = some job; context = ctx }) w.heap in
      judge m.name r (record w { heap = heap })

  -- The rest of a computation that may have failed; the world survives the failure.
  abbrev pub next {ℓ κ} :
      {A : Type ℓ} {B : Type κ}
      → Result A × World J
      → (A → World J → Result B × World J)
      → Result B × World J
  next (ok a, w) f = f a w
  next (err e, w) f = (err e, w)

  -- The loop of `AdmissionMutators`.
  unfoldable pub mutate_all :
      List (JobMutator J)
      → Option RequestContext
      → Ref
      → List GoError
      → World J
      → Result (Ref × List GoError) × World J
  mutate_all [] ctx job warnings w = (ok (job, warnings), w)
  mutate_all (m ∷ ms) ctx job warnings w =
      next (run_mutator m ctx job w) λ r w'. mutate_all ms ctx r.0 (warnings ++ r.1) w'

  unfoldable pub admission_mutators :
      JobHandler J → Option Payload → World J → Result (Ref × List GoError) × World J
  admission_mutators h none w = (err (message "admission payload must contain a job"), w)
  admission_mutators h (some p) w = elim p.job [
    | none ↦ (err (message "admission payload must contain a job"), w)
    | some job ↦ mutate_all h.mutators p.context job [] w
  ]

  -- The part of `ApplyAdmissionControllers` behind the validators.
  unfoldable pub conclude :
      Ref → List GoError → Validated × World J → Result (Ref × List GoError) × World J
  conclude out warnings (r, w) = elim r.error [
    | some e ↦ (err e, w)
    | none ↦ (ok (out, warnings ++ r.warnings), w)
  ]

module _ {J : Type 0} (C : JobCodec J) where
  -- What `copyJob` computes: the JSON round trip of a job.
  unfoldable pub duplicate : Option J → Result J
  duplicate none = err (message "job is nil")
  duplicate (some j) = C.marshal (some j) >>= C.unmarshal

  -- `copyJob`, whose result is a job of its own.
  unfoldable pub copy_job : Option Ref → List J → Result Ref × List J
  copy_job job h = elim (duplicate (deref h job)) [
    | err e ↦ (err e, h)
    | ok j ↦ (ok (length h), h ++ j ∷ [])
  ]

module _ {J : Type 0} (M : Multierror) where
  -- What the closure in `AdmissionValidators` does with the results of `Validate`.
  unfoldable pub tally : String → Validated → Validated × World J → Validated × World J
  tally name r (sofar, w) =
      let counted = count validator_warning (length r.warnings) name w in
      let warnings = sofar.warnings ++ r.warnings in
      elim r.error [
        | none ↦ (record sofar { warnings = warnings }, counted)
        | some e ↦ (
          record { warnings = warnings; error = some (M.append sofar.error (e ∷ [])) },
          count validator_error 1 name counted,
        )
      ]

  -- The closure in `AdmissionValidators`, behind `copyJob`.
  unfoldable pub run_copied :
      JobValidator J
      → Option RequestContext
      → Validated × World J
      → Result Ref × List J
      → Validated × World J
  run_copied v ctx (s, w) (err e, heap) = (
    record s {
      error = some (M.append s.error (wrap ("failed to copy job for validator " <> v.name) e ∷ []));
    },
    record w { heap = heap },
  )
  run_copied v ctx (s, w) (ok own, heap) =
      let (r, heap') = v.validate (record { job = some own; context = ctx }) heap in
      tally v.name r (s, record w { heap = heap' })

module _ {J : Type 0} (M : Multierror) (C : JobCodec J) where
  -- One round of the loop of `AdmissionValidators`.
  unfoldable pub run_validator :
      JobValidator J → Option RequestContext → Ref → Validated × World J → Validated × World J
  run_validator v ctx job (s, w) = run_copied M v ctx (s, w) (copy_job C (some job) w.heap)

  -- The loop of `AdmissionValidators`.
  unfoldable pub validate_all :
      List (JobValidator J)
      → Option RequestContext
      → Ref
      → Validated × World J
      → Validated × World J
  validate_all [] ctx job s = s
  validate_all (v ∷ vs) ctx job s = validate_all vs ctx job (run_validator v ctx job s)

  unfoldable pub admission_validators :
      JobHandler J → Option Payload → World J → Validated × World J
  admission_validators h none w =
      (record { warnings = []; error = some (message "admission payload must contain a job") }, w)
  admission_validators h (some p) w = elim p.job [
    | none ↦
        (record { warnings = []; error = some (message "admission payload must contain a job") }, w)
    | some job ↦ validate_all h.validators p.context job (record { warnings = []; error = none }, w)
  ]

  unfoldable pub apply_admission_controllers :
      JobHandler J → Option Payload → World J → Result (Ref × List GoError) × World J
  apply_admission_controllers h none w = (err (message "admission payload must contain a job"), w)
  apply_admission_controllers h (some p) w = elim p.job [
    | none ↦ (err (message "admission payload must contain a job"), w)
    | some _ ↦ next (admission_mutators h (some p) w) λ r w'.
        conclude r.0 r.1
          (admission_validators h (some (record { job = some r.0; context = p.context })) w')
  ]
