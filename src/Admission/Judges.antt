-- ===== src/Admission/Judges.antt =====
-- `AdmissionValidators` computes the verdict of `Spec` (pkg/admissionctrl/controller.go).
use mathlib.Core.List.{flat_map}
use mathlib.Core.Bool.{and_assoc}
use nacp.Common.{
  String, ◌≡◌, refl, ◌∙◌, ap, Bool, ◌&&◌, Option, some, is_none, List, [], ◌∷◌, ◌++◌, length, ◌<◌,
  arith, All, Option-cases, inl, inr, sym, get_elem?, get_elem?-append_length, append_assoc,
  append-nil,
}
use nacp.GoError.{GoError, parts, parts?, Multierror, IsFlattening, errors-of_errors}
use nacp.Config.{RequestContext}
use nacp.Admission.{
  Ref, Validated, JobValidator, JobCodec, World, tally, run_copied, run_validator, validate_all,
  duplicate,
}
use nacp.Admission.Spec.{Policy, IsValidatorOf, IsFaithful, all_warnings, all_errors, all_accept}
use nacp.Admission.Isolation.{IsPrivate, copy_job_of_ok, run_validator-Extends}

module _ (M : Multierror) (flat : IsFlattening M) where
  -- Appending an error adds its parts behind those that are there.
  pub parts-append :
      (e : Option GoError) (f : GoError) → parts (M.append e (f ∷ [])) ≡ parts? e ++ parts f
  unfolding flat_map
  parts-append e f =
      rw flat.append-eq (errors-of_errors _ ∙ ap (λ l. parts? e ++ l) (append-nil (parts f)))

-- `t` is the verdict `s` with more warnings and errors behind it.
abbrev pub Joins : Validated → List GoError → List GoError → Bool → Validated → Type 0
Joins s warnings more accepts t =
    (t.warnings ≡ s.warnings ++ warnings)
    × (parts? t.error ≡ parts? s.error ++ more)
    × (is_none t.error ≡ (is_none s.error && accepts))

Joins-trans :
    (ws vs es fs : List GoError) (a b : Bool) (s t u : Validated)
    → Joins s ws es a t
    → Joins t vs fs b u
    → Joins s (ws ++ vs) (es ++ fs) (a && b) u
Joins-trans ws vs es fs a b s t u (p, q, r) (p', q', r') = (
  p' ∙ rw p (append_assoc s.warnings ws vs),
  q' ∙ rw q (append_assoc (parts? s.error) es fs),
  r' ∙ rw r (and_assoc (is_none s.error) _ _),
)

module _ {J : Type 0} (M : Multierror) (flat : IsFlattening M) where
  tally-Joins :
      (name : String) (r s : Validated) (w : World J)
      → Joins s r.warnings (parts? r.error) (is_none r.error) (tally M name r (s, w)).0
  unfolding tally
  tally-Joins name r s w = elim (Option-cases r.error) [
    | inl e ↦ rw (e, tally) (refl, sym (append-nil _), ground arith)
    | inr (f, e) ↦ rw (e, tally) (refl, parts-append M flat s.error f, ground arith)
  ]

  module _ (C : JobCodec J) (faithful : IsFaithful C) (policy : JobValidator J → Policy J)
      (ctx : Option RequestContext) (job : Ref) (j : J) where
    run_validator-Joins :
        (v : JobValidator J) (s : Validated) (w : World J)
        → IsValidatorOf (policy v) v
        → get_elem? w.heap job ≡ some j
        → let r = policy v ctx j in
          Joins s r.warnings
            (parts? r.error)
            (is_none r.error)
            (run_validator M C v ctx job (s, w)).0
    unfolding run_validator run_copied duplicate
    run_validator-Joins v s w judges found =
        rw (copy_job_of_ok C w.heap (some job) j (rw found (faithful j))) (
          rw
            (← judges (record { job = some (length w.heap); context = ctx }) (w.heap ++ j ∷ []) j
              (get_elem?-append_length w.heap j))
            (tally-Joins v.name _ s _))

    -- Each validator judges the job under admission, whatever those before it did to their copies.
    pub validate_all-Joins :
        (vs : List (JobValidator J)) (s : Validated) (w : World J)
        → All (λ v. IsValidatorOf (policy v) v) vs
        → All IsPrivate vs
        → job < length w.heap
        → get_elem? w.heap job ≡ some j
        → Joins s
            (all_warnings policy ctx j vs)
            (all_errors policy ctx j vs)
            (all_accept policy ctx j vs)
            (validate_all M C vs ctx job (s, w)).0
    unfolding validate_all all_warnings all_errors all_accept
    validate_all-Joins [] s w _ _ _ _ = (sym (append-nil _), sym (append-nil _), ground arith)
    validate_all-Joins (v ∷ vs) s w (judges, js) (own, os) l found =
        let e = run_validator-Extends M C v ctx job s w own in
        let t = run_validator M C v ctx job (s, w) in
        Joins-trans _ (all_warnings policy ctx j vs) _ (all_errors policy ctx j vs) _
          (all_accept policy ctx j vs) s t.0 _ (run_validator-Joins v s w judges found)
          (validate_all-Joins vs t.0 t.1 js os (omega (arith, e.longer)) (e.same job l ∙ found))
