-- ===== src/Proxy/Concurrent/Weights.antt =====
-- What one call of a controller counts (pkg/admissionctrl/controller.go).
use nacp.Common.{
  ℕ, ◌+◌, String, ◌<◌, ◌≡◌, Option, some, List, [], ◌∷◌, ◌++◌, length, get_elem?, get_elem?_of_lt,
  get_elem?-append_length, arith, Option-cases, Bool-cases, inl, inr,
}
use nacp.GoError.{Multierror}
use nacp.Config.{RequestContext}
use nacp.Admission.{
  Ref, Payload, Mutated, Validated, JobMutator, JobValidator, JobCodec, World, Metric, deref, judge,
  run_mutator, run_validator, tally, run_copied, duplicate,
}
use nacp.Admission.Spec.{Transform, Policy, IsMutatorOf, IsValidatorOf, IsFaithful}
use nacp.Admission.Isolation.{copy_job_of_ok}
use nacp.Proxy.Concurrent.Events.{weigh, verdict_events, mutation_events}

module _ (f : Metric → ℕ) where
  pub weigh-append : (es ds : List Metric) → weigh f (es ++ ds) ≡ weigh f es + weigh f ds
  unfolding weigh
  weigh-append [] ds = omega arith
  weigh-append (e ∷ es) ds = omega (arith, weigh-append es ds)

  module _ {J : Type 0} where
    judge_weight :
        (name : String) (r : Mutated) (w : World J)
        → ((job : Ref) → r.job ≡ some job → job < length w.heap)
        → weigh f (judge name r w).1.metrics
          ≡ weigh f w.metrics
            + weigh f (
                mutation_events name (record {
                  job = deref w.heap r.job;
                  mutated = r.mutated;
                  warnings = r.warnings;
                  error = r.error;
                }))
    unfolding judge weigh
    judge_weight name r w points = elim (Option-cases r.error) [
      | inr (e, failed) ↦ rw (failed, judge) (weigh-append w.metrics _)
      | inl fine ↦ elim (Option-cases r.job) [
        | inl missing ↦ rw (fine, missing, judge) (weigh-append w.metrics _)
        | inr (job, found) ↦
            let (j, at_job) = get_elem?_of_lt w.heap job (points job found) in
            elim (Bool-cases r.mutated) [
              | inl b ↦ rw (fine, found, at_job, judge, b) (omega (arith, weigh-append))
              | inr b ↦ rw (fine, found, at_job, judge, b) (omega (arith, weigh-append))
            ]
      ]
    ]

    pub run_mutator_weight :
        (t : Transform J) (m : JobMutator J) (ctx : Option RequestContext) (job : Ref) (j : J)
        (w : World J)
        → IsMutatorOf t m
        → get_elem? w.heap job ≡ some j
        → weigh f (run_mutator m ctx job w).1.metrics
          ≡ weigh f w.metrics + weigh f (mutation_events m.name (t ctx j))
    unfolding run_mutator
    run_mutator_weight t m ctx job j w is found =
        let p : Payload = record { job = some job; context = ctx } in
        rw (is.computes p w.heap j found) (
          judge_weight m.name (m.mutate p w.heap).0 (record w { heap = (m.mutate p w.heap).1 })
            (is.points p w.heap))

    tally_weight :
        (M : Multierror) (name : String) (r s : Validated) (w : World J)
        → weigh f (tally M name r (s, w)).1.metrics
          ≡ weigh f w.metrics + weigh f (verdict_events name r)
    unfolding tally weigh
    tally_weight M name r s w = elim (Option-cases r.error) [
      | inl e ↦ rw (e, tally) (weigh-append w.metrics _)
      | inr (g, e) ↦ rw (e, tally) (omega (arith, weigh-append))
    ]

    pub run_validator_weight :
        (M : Multierror) (C : JobCodec J)
        → IsFaithful C
        → (q : Policy J) (v : JobValidator J) (ctx : Option RequestContext) (job : Ref) (j : J)
          (s : Validated) (w : World J)
        → IsValidatorOf q v
        → get_elem? w.heap job ≡ some j
        → weigh f (run_validator M C v ctx job (s, w)).1.metrics
          ≡ weigh f w.metrics + weigh f (verdict_events v.name (q ctx j))
    unfolding run_validator run_copied duplicate
    run_validator_weight M C faithful q v ctx job j s w judges found =
        rw (copy_job_of_ok C w.heap (some job) j (rw found (faithful j))) (
          rw
            (← judges (record { job = some (length w.heap); context = ctx }) (w.heap ++ j ∷ []) j
              (get_elem?-append_length w.heap j))
            (tally_weight M v.name _ s _))
