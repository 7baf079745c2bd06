-- ===== src/Admission/Refines.antt =====
-- `ApplyAdmissionControllers` (pkg/admissionctrl/controller.go) does what `Spec` says.
use nacp.Common.{
  ◌≡◌, ◌∙◌, ap, true, false, Option, none, some, List, [], ◌++◌, length, ◌<◌, arith, All,
  Option-cases, inl, inr, sym, get_elem?,
}
use nacp.GoError.{GoError, Multierror, IsFlattening, parts, Result, ok, err}
use nacp.Config.{RequestContext}
use nacp.Admission.{
  Ref, Validated, JobMutator, JobValidator, JobCodec, JobHandler, World, mutate_all, next, conclude,
  admission_mutators, admission_validators, apply_admission_controllers,
}
use nacp.Admission.Spec.{
  Transform, Policy, IsMutatorOf, IsValidatorOf, IsFaithful, transform_all, all_warnings,
  all_errors, all_accept,
}
use nacp.Admission.Isolation.{Extends, IsPrivate, validate_all-Extends}
use nacp.Admission.Judges.{Joins, validate_all-Joins}
use nacp.Admission.Transforms.{Agrees, mutate_all-Agrees}

module _ {J : Type 0} (policy : JobValidator J → Policy J) (ctx : Option RequestContext) where
  -- From the transformed job and its warnings, or the error of a mutator: what admission returns.
  abbrev pub Admits :
      List (JobValidator J)
      → Result (J × List GoError)
      → Result (Ref × List GoError) × World J
      → Type 0
  Admits vs (ok (j, ws)) (ok (out, all), w) =
      (all_accept policy ctx j vs ≡ true)
      × (out < length w.heap)
      × (get_elem? w.heap out ≡ some j)
      × (all ≡ ws ++ all_warnings policy ctx j vs)
  Admits vs (ok (j, ws)) (err e, w) =
      (all_accept policy ctx j vs ≡ false) × (parts e ≡ all_errors policy ctx j vs)
  Admits vs (err e) (ok r, w) = ⊥
  Admits vs (err e) (err f, w) = f ≡ e

  conclude-Admits :
      (vs : List (JobValidator J)) (j : J) (ws : List GoError) (out : Ref) (r : Validated)
      (w w' : World J)
      → Joins
          (record { warnings = []; error = none })
          (all_warnings policy ctx j vs)
          (all_errors policy ctx j vs)
          (all_accept policy ctx j vs)
          r
      → Extends w.heap w'.heap
      → out < length w.heap
      → get_elem? w.heap out ≡ some j
      → Admits vs (ok (j, ws)) (conclude out ws (r, w'))
  unfolding conclude
  conclude-Admits vs j ws out r w w' (joined, errs, accepts) kept l found =
      elim (Option-cases r.error) [
        | inl fine ↦
            rw (fine, conclude)
              (
                sym (rw fine at accepts),
                omega (arith, kept.longer),
                kept.same out l ∙ found,
                ap (λ l. ws ++ l) joined,
              )
        | inr (e, failed) ↦ rw (failed, conclude) (sym (rw failed at accepts), rw failed at errs)
      ]

module _ {J : Type 0} (M : Multierror) (C : JobCodec J) (flat : IsFlattening M)
    (faithful : IsFaithful C) (transform : JobMutator J → Transform J)
    (policy : JobValidator J → Policy J) where
  -- For a job of the heap, controllers that compute what `transform` and `policy` say, validators that
  -- write to their own copy alone, a JSON round trip that gives a job back, and `Append` as
  -- go-multierror documents it:
  -- admission runs the mutators in order, each on the result of the one before it, and stops at the
  -- first error; then every validator judges the mutated job, whatever the others did to their
  -- copies. It succeeds exactly if all of them accept, returns a pointer to the mutated job, which no
  -- validator has changed, and returns the mutators' warnings before the validators'; otherwise its
  -- error holds the errors of all validators.
  pub apply-Admits :
      (h : JobHandler J) (ctx : Option RequestContext) (job : Ref) (j : J) (w : World J)
      → All (λ m. IsMutatorOf (transform m) m) h.mutators
      → All (λ v. IsValidatorOf (policy v) v) h.validators
      → All IsPrivate h.validators
      → job < length w.heap
      → get_elem? w.heap job ≡ some j
      → Admits policy ctx h.validators
          (transform_all transform ctx h.mutators j [])
          (apply_admission_controllers M C h (some (record { job = some job; context = ctx })) w)
  unfolding apply_admission_controllers admission_mutators admission_validators
  apply-Admits h ctx job j w ts js own l found =
      go (transform_all transform ctx h.mutators j []) (mutate_all h.mutators ctx job [] w)
        (mutate_all-Agrees transform ctx h.mutators job j [] w ts l found)
    where
      go :
          (s : Result (J × List GoError)) (r : Result (Ref × List GoError) × World J)
          → Agrees s r
          → Admits policy ctx h.validators s (
              next r λ r w'.
                conclude r.0 r.1
                  (admission_validators M C h (some (record { job = some r.0; context = ctx })) w'))
      go (ok (j', ws)) (ok (out, vs), w') (l', found', e) = rw e (
          conclude-Admits policy ctx h.validators j' ws out _ w' _
            (validate_all-Joins M flat C faithful policy ctx out j' h.validators _ w' js own l'
              found')
            (validate_all-Extends M C h.validators ctx out _ w' own) l' found')
      go (ok r) (err e, w') a = absurd a
      go (err e) (ok r, w') a = absurd a
      go (err e) (err f, w') a = a
