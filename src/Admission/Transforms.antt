-- ===== src/Admission/Transforms.antt =====
-- `AdmissionMutators` computes the transformation of `Spec` (pkg/admissionctrl/controller.go).
use nacp.Common.{
  String, ◌≡◌, refl, Option, some, List, [], ◌∷◌, ◌++◌, length, ◌<◌, All, Bool-cases, Option-cases,
  inl, inr, get_elem?, get_elem?_of_lt,
}
use nacp.GoError.{GoError, Result, ok, err, ◌>>=◌}
use nacp.Config.{RequestContext}
use nacp.Admission.{
  Ref, Payload, Mutated, JobMutator, World, deref, judge, run_mutator, mutate_all, next,
}
use nacp.Admission.Spec.{Transform, IsMutatorOf, accept, transform_all}

module _ {J : Type 0} where
  -- The pointer that a computation returns leads to the job that the specification gives, with the
  -- same warnings; or both fail, with the same error.
  abbrev pub Agrees : Result (J × List GoError) → Result (Ref × List GoError) × World J → Type 0
  Agrees (ok (j, ws)) (ok (job, vs), w) =
      (job < length w.heap) × (get_elem? w.heap job ≡ some j) × (vs ≡ ws)
  Agrees (ok r) (err e, w) = ⊥
  Agrees (err e) (ok r, w) = ⊥
  Agrees (err e) (err f, w) = f ≡ e

  judge-Agrees :
      (name : String) (r : Mutated) (w : World J)
      → ((job : Ref) → r.job ≡ some job → job < length w.heap)
      → Agrees
          (accept name (record {
            job = deref w.heap r.job;
            mutated = r.mutated;
            warnings = r.warnings;
            error = r.error;
          }))
          (judge name r w)
  unfolding judge
  judge-Agrees name r w points = elim (Option-cases r.error) [
    | inr (e, failed) ↦ rw (failed, judge) refl
    | inl fine ↦ elim (Option-cases r.job) [
      | inl missing ↦ rw (fine, missing, judge) refl
      | inr (job, found) ↦
          let l = points job found in
          let (j, at_job) = get_elem?_of_lt w.heap job l in
          elim (Bool-cases r.mutated) [
            | inl b ↦ rw (fine, found, b, at_job, judge) (l, at_job, refl)
            | inr b ↦ rw (fine, found, b, at_job, judge) (l, at_job, refl)
          ]
    ]
  ]

  module _ (transform : JobMutator J → Transform J) (ctx : Option RequestContext) where
    pub run_mutator-Agrees :
        (m : JobMutator J) (job : Ref) (j : J) (w : World J)
        → IsMutatorOf (transform m) m
        → get_elem? w.heap job ≡ some j
        → Agrees (accept m.name (transform m ctx j)) (run_mutator m ctx job w)
    unfolding run_mutator
    run_mutator-Agrees m job j w t found =
        let p : Payload = record { job = some job; context = ctx } in
        rw (t.computes p w.heap j found) (
          judge-Agrees m.name (m.mutate p w.heap).0 (record w { heap = (m.mutate p w.heap).1 })
            (t.points p w.heap))

    next-Agrees :
        (s : Result (J × List GoError)) (r : Result (Ref × List GoError) × World J)
        (f : J × List GoError → Result (J × List GoError))
        (g : Ref × List GoError → World J → Result (Ref × List GoError) × World J)
        → Agrees s r
        → ((j : J) (job : Ref) (ws : List GoError) (w : World J)
            → job < length w.heap
            → get_elem? w.heap job ≡ some j
            → Agrees (f (j, ws)) (g (job, ws) w))
        → Agrees (s >>= f) (next r g)
    next-Agrees (ok (j, ws)) (ok (job, vs), w) f g (l, found, e) go =
        rw (← e) (go j job vs w l found)
    next-Agrees (ok r) (err e, w) f g a go = absurd a
    next-Agrees (err e) (ok r, w) f g a go = absurd a
    next-Agrees (err e) (err e', w) f g a go = a

    -- The loop over the mutators, on a heap, does what the specification does on jobs.
    pub mutate_all-Agrees :
        (ms : List (JobMutator J)) (job : Ref) (j : J) (ws : List GoError) (w : World J)
        → All (λ m. IsMutatorOf (transform m) m) ms
        → job < length w.heap
        → get_elem? w.heap job ≡ some j
        → Agrees (transform_all transform ctx ms j ws) (mutate_all ms ctx job ws w)
    unfolding mutate_all transform_all
    mutate_all-Agrees [] job j ws w _ l found = (l, found, refl)
    mutate_all-Agrees (m ∷ ms) job j ws w (t, ts) l found =
        next-Agrees (accept m.name (transform m ctx j)) (run_mutator m ctx job w) _ _
          (run_mutator-Agrees m job j w t found)
          λ j' job' ws' w' l' found'. mutate_all-Agrees ms job' j' (ws ++ ws') w' ts l' found'
