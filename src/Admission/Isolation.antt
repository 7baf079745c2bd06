-- ===== src/Admission/Isolation.antt =====
-- Validators and the heap: what `copyJob` keeps apart (pkg/admissionctrl/controller.go).
use nacp.Common.{
  String, ◌≤◌, ◌<◌, ◌≡◌, refl, ◌∙◌, ◌≢◌, inl, inr, Option, some, List, [], ◌∷◌, ◌++◌, arith, length,
  get_elem?, length-append, get_elem?-append_left, All, Option-cases,
}
use nacp.GoError.{GoError, Multierror, ok, err, Result-cases}
use nacp.Config.{RequestContext}
use nacp.Admission.{
  Ref, Payload, JobMutator, JobValidator, Validated, JobCodec, World, deref, copy_job, duplicate,
  run_copied, admission_validators, JobHandler, run_validator, tally, validate_all,
}

module _ {J : Type 0} where
  -- A validator that writes to no job but the one that it is handed, and to those it allocates.
  pub record IsPrivate (v : JobValidator J) : Type 0 where
    pub keeps :
        (p : Payload) (h : List J) (r : Ref)
        → r < length h
        → p.job ≢ some r
        → get_elem? (v.validate p h).1 r ≡ get_elem? h r
    pub grows : (p : Payload) (h : List J) → length h ≤ length (v.validate p h).1

  -- A later heap that still holds each job of an earlier one.
  pub record Extends (h h' : List J) : Type 0 where
    pub same : (r : Ref) → r < length h → get_elem? h' r ≡ get_elem? h r
    pub longer : length h ≤ length h'

  -- A mutator that writes to no job that is there: a job that it changes is a new one.
  abbrev pub IsAdditive : JobMutator J → Type 0
  IsAdditive m = (p : Payload) (h : List J) → Extends h (m.mutate p h).1

  pub Extends-refl : (h : List J) → Extends h h
  Extends-refl h = record { same = λ r l. refl; longer = omega arith }

  pub Extends-trans : {h k l : List J} → Extends h k → Extends k l → Extends h l
  Extends-trans a b = record {
    same = λ r x. b.same r (omega (arith, a.longer)) ∙ a.same r x;
    longer = omega (arith, a.longer, b.longer);
  }

  pub Extends-append : (h : List J) (j : J) → Extends h (h ++ j ∷ [])
  Extends-append h j = record {
    same = λ r l. get_elem?-append_left h (j ∷ []) r l;
    longer = omega (arith, length-append h (j ∷ []));
  }

  module _ (C : JobCodec J) (h : List J) (job : Option Ref) where
    -- `copyJob` fails and leaves the heap alone, or returns a pointer to a new job.
    pub copy_job_of_err :
        (e : GoError) → duplicate C (deref h job) ≡ err e → copy_job C job h ≡ (err e, h)
    unfolding copy_job
    copy_job_of_err e failed = rw (failed, copy_job)

    pub copy_job_of_ok :
        (j : J) → duplicate C (deref h job) ≡ ok j → copy_job C job h ≡ (ok (length h), h ++ j ∷ [])
    unfolding copy_job
    copy_job_of_ok j made = rw (made, copy_job)

module _ {J : Type 0} (M : Multierror) where
  pub tally_heap :
      (name : String) (r : Validated) (s : Validated × World J)
      → (tally M name r s).1.heap ≡ s.1.heap
  unfolding tally
  tally_heap name r s = ground arith

  -- A private validator that is run on a new job leaves the earlier jobs as they were.
  run_copied-Extends :
      (v : JobValidator J) (ctx : Option RequestContext) (s : Validated) (w : World J) (j : J)
      → IsPrivate v
      → Extends w.heap (run_copied M v ctx (s, w) (ok (length w.heap), w.heap ++ j ∷ [])).1.heap
  unfolding run_copied
  run_copied-Extends v ctx s w j own = rw tally_heap (record {
    same = λ r l.
        own.keeps _ _ r (omega (arith, length-append w.heap (j ∷ []))) (grind arith)
        ∙ get_elem?-append_left w.heap (j ∷ []) r l;
    longer = omega (arith, length-append w.heap (j ∷ []), own.grows _ (w.heap ++ j ∷ []));
  })

module _ {J : Type 0} (M : Multierror) (C : JobCodec J) where
  -- One validator that is private to its copy leaves every job of the heap as it was.
  pub run_validator-Extends :
      (v : JobValidator J) (ctx : Option RequestContext) (job : Ref) (s : Validated) (w : World J)
      → IsPrivate v
      → Extends w.heap (run_validator M C v ctx job (s, w)).1.heap
  unfolding run_validator run_copied
  run_validator-Extends v ctx job s w own =
      elim (Result-cases (duplicate C (deref w.heap (some job)))) [
        | inl (e, failed) ↦ rw (copy_job_of_err C w.heap (some job) e failed) (Extends-refl _)
        | inr (j, made) ↦
            rw (copy_job_of_ok C w.heap (some job) j made) (run_copied-Extends M v ctx s w j own)
      ]

  pub validate_all-Extends :
      (vs : List (JobValidator J)) (ctx : Option RequestContext) (job : Ref) (s : Validated)
      (w : World J)
      → All IsPrivate vs
      → Extends w.heap (validate_all M C vs ctx job (s, w)).1.heap
  unfolding validate_all
  validate_all-Extends [] ctx job s w own = Extends-refl w.heap
  validate_all-Extends (v ∷ vs) ctx job s w (own, rest) =
      Extends-trans (run_validator-Extends v ctx job s w own)
        (validate_all-Extends vs ctx job _ _ rest)

  -- Whatever private validators do to the jobs that they are handed, `AdmissionValidators` leaves
  -- each job of the heap as it was, the one under admission among them.
  pub admission_validators-Extends :
      (h : JobHandler J) (p : Payload) (w : World J)
      → All IsPrivate h.validators
      → Extends w.heap (admission_validators M C h (some p) w).1.heap
  unfolding admission_validators
  admission_validators-Extends h p w own = elim (Option-cases p.job) [
    | inl missing ↦ rw (missing, admission_validators) (Extends-refl w.heap)
    | inr (job, found) ↦
        rw (found, admission_validators) (validate_all-Extends h.validators p.context job _ w own)
  ]
