-- ===== src/Admission/Counting.antt =====
-- The metrics of the controller agree with what it returns (pkg/admissionctrl/controller.go).
use nacp.Common.{
  ℕ, String, ◌+◌, ◌≡◌, refl, ◌∙◌, Bool, true, false, Option, some, List, [], ◌∷◌, ◌++◌, length,
  length-append, arith, Bool-cases, Option-cases, inl, inr, sym, if◌then◌else◌,
}
use nacp.GoError.{GoError, Multierror, Result, ok, err}
use nacp.Config.{RequestContext}
use nacp.Admission.{
  Ref, Mutated, Validated, JobMutator, JobValidator, JobCodec, World, Metric, Counter,
  validator_warning, validator_error, mutator_warning, mutator_error, mutator_mutation, judge,
  run_mutator, next, mutate_all, tally, run_copied, run_validator, validate_all, copy_job,
}

abbrev pub is_same : Counter → Counter → Bool
is_same validator_warning validator_warning = true
is_same validator_error validator_error = true
is_same mutator_warning mutator_warning = true
is_same mutator_error mutator_error = true
is_same mutator_mutation mutator_mutation = true
is_same _ _ = false

-- What a counter shows after a list of calls of `Add`.
unfoldable pub total : Counter → List Metric → ℕ
total c [] = 0
total c (m ∷ ms) = (if is_same c m.counter then m.increment else 0) + total c ms

total-append :
    (c : Counter) (ms : List Metric) (m : Metric)
    → total c (ms ++ m ∷ []) ≡ total c ms + (if is_same c m.counter then m.increment else 0)
unfolding total
total-append c [] m = omega arith
total-append c (n ∷ ms) m = omega (arith, total-append c ms m)

module _ {J : Type 0} where
  -- Of a run of mutators: a failure adds one to the error counter, and a success adds nothing to it and
  -- counts each warning that it returns.
  abbrev pub Counted : ℕ → World J → Result (Ref × List GoError) × World J → Type 0
  Counted n w (err e, w') = total mutator_error w'.metrics ≡ total mutator_error w.metrics + 1
  Counted n w (ok (out, ws), w') =
      (total mutator_error w'.metrics ≡ total mutator_error w.metrics)
      × (total mutator_warning w'.metrics + n ≡ total mutator_warning w.metrics + length ws)

  judge-Counted : (name : String) (r : Mutated) (w : World J) → Counted 0 w (judge name r w)
  unfolding judge
  judge-Counted name r w = elim (Option-cases r.error) [
    | inr (e, failed) ↦ rw (failed, judge) (omega (arith, total-append))
    | inl fine ↦ elim (Option-cases r.job) [
      | inl missing ↦ rw (fine, missing, judge) (omega (arith, total-append))
      | inr (job, found) ↦ elim (Bool-cases r.mutated) [
        | inl b ↦ rw (fine, found, b, judge) (omega (arith, total-append))
        | inr b ↦ rw (fine, found, b, judge) (omega (arith, total-append))
      ]
    ]
  ]

  shift-Counted :
      (n m k : ℕ) (w w' : World J) (r : Result (Ref × List GoError) × World J)
      → total mutator_error w'.metrics ≡ total mutator_error w.metrics
      → total mutator_warning w'.metrics + 0 ≡ total mutator_warning w.metrics + k
      → m ≡ n + k
      → Counted m w' r
      → Counted n w r
  shift-Counted n m k w w' (ok (out, ws), w'') c d e (c', d') = (c' ∙ c, omega arith)
  shift-Counted n m k w w' (err e, w'') c d l c' = rw (sym c) c'

  next-Counted :
      (n : ℕ) (ws : List GoError) (w : World J) (r : Result (Ref × List GoError) × World J)
      (f : Ref × List GoError → World J → Result (Ref × List GoError) × World J)
      → length ws ≡ n
      → Counted 0 w r
      → ((out : Ref) (vs : List GoError) (w' : World J)
          → Counted (length (ws ++ vs)) w' (f (out, vs) w'))
      → Counted n w (next r f)
  next-Counted n ws w (err e, w') f l c go = c
  next-Counted n ws w (ok (out, vs), w') f l (c, d) go =
      shift-Counted n _ (length vs) w w' _ c d (omega (arith, length-append ws vs)) (go out vs w')

  -- A run of the mutators that fails adds one to the error counter. A run that succeeds adds nothing
  -- to it, and counts each warning that it returns behind those that it was given.
  pub mutate_all-Counted :
      (ms : List (JobMutator J)) (ctx : Option RequestContext) (job : Ref) (ws : List GoError)
      (w : World J)
      → Counted (length ws) w (mutate_all ms ctx job ws w)
  unfolding mutate_all run_mutator
  mutate_all-Counted [] ctx job ws w = omega arith
  mutate_all-Counted (m ∷ ms) ctx job ws w =
      next-Counted (length ws) ws w (run_mutator m ctx job w) _ refl (judge-Counted m.name _ _)
        λ out vs w'. mutate_all-Counted ms ctx out (ws ++ vs) w'

module _ {J : Type 0} where
  -- Of a run of validators: the warning counter grows by the warnings that were added.
  abbrev pub Warned : Validated × World J → Validated × World J → Type 0
  Warned (s, w) (t, w') =
      total validator_warning w'.metrics + length s.warnings
      ≡ total validator_warning w.metrics + length t.warnings

module _ {J : Type 0} (M : Multierror) where
  tally-Warned :
      (name : String) (r s : Validated) (w : World J) → Warned (s, w) (tally M name r (s, w))
  unfolding tally
  tally-Warned name r s w = elim (Option-cases r.error) [
    | inl fine ↦ rw (fine, tally) (omega (arith, total-append, length-append s.warnings r.warnings))
    | inr (e, failed) ↦
        rw (failed, tally) (omega (arith, total-append, length-append s.warnings r.warnings))
  ]

  run_copied-Warned :
      (v : JobValidator J) (ctx : Option RequestContext) (s : Validated × World J)
      (c : Result Ref × List J)
      → Warned s (run_copied M v ctx s c)
  unfolding run_copied
  run_copied-Warned v ctx (s, w) (err e, h) = omega arith
  run_copied-Warned v ctx (s, w) (ok own, h) = tally-Warned v.name _ s _

module _ {J : Type 0} (M : Multierror) (C : JobCodec J) where
  -- The validators count each warning that they return, and no other.
  pub validate_all-Warned :
      (vs : List (JobValidator J)) (ctx : Option RequestContext) (job : Ref)
      (s : Validated × World J)
      → Warned s (validate_all M C vs ctx job s)
  unfolding validate_all run_validator
  validate_all-Warned [] ctx job s = omega arith
  validate_all-Warned (v ∷ vs) ctx job (s, w) = omega (
    arith,
    run_copied-Warned M v ctx (s, w) (copy_job C (some job) w.heap),
    validate_all-Warned vs ctx job (run_validator M C v ctx job (s, w)),
  )
