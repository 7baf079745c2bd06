-- ===== src/Admission/Spec.antt =====
-- What admission control means, with no pointers: a mutator is a function on jobs, a validator a
-- function that judges a job, and both depend on nothing else than the job and the request context.
use nacp.Common.{
  String, ◌<>◌, ◌≡◌, Bool, true, ◌&&◌, Option, none, some, is_none, List, [], ◌∷◌, ◌++◌, length,
  ◌<◌,
}
use nacp.GoError.{GoError, message, wrap, Result, ok, err, ◌>>=◌, parts?}
use nacp.Config.{RequestContext}
use nacp.Admission.{Ref, Payload, Validated, JobMutator, JobValidator, JobCodec, deref}

-- The results of `Mutate`, with the job itself in place of the pointer.
pub record Mutation (J : Type 0) : Type 0 where
  pub job : Option J
  pub mutated : Bool
  pub warnings : List GoError
  pub error : Option GoError

abbrev pub Transform : Type 0 → Type 0
Transform J = Option RequestContext → J → Mutation J

abbrev pub Policy : Type 0 → Type 0
Policy J = Option RequestContext → J → Validated

module _ {J : Type 0} where
  -- `m` computes `t`, wherever its job lies, and returns no dangling pointer.
  pub record IsMutatorOf (t : Transform J) (m : JobMutator J) : Type 0 where
    pub computes :
        (p : Payload) (h : List J) (j : J)
        → deref h p.job ≡ some j
        → let (r, h') = m.mutate p h in
          t p.context j ≡ record {
            job = deref h' r.job;
            mutated = r.mutated;
            warnings = r.warnings;
            error = r.error;
          }
    pub points :
        (p : Payload) (h : List J) (r : Ref)
        → (m.mutate p h).0.job ≡ some r
        → r < length (m.mutate p h).1

  -- `v` judges as `p` does, wherever its job lies.
  abbrev pub IsValidatorOf : Policy J → JobValidator J → Type 0
  IsValidatorOf q v =
      (p : Payload) (h : List J) (j : J)
      → deref h p.job ≡ some j
      → (v.validate p h).0 ≡ q p.context j

  -- A round of the mutators on a job.
  abbrev pub accept : String → Mutation J → Result (J × List GoError)
  accept name r = elim r.error [
    | some e ↦ err (wrap ("error in job mutator " <> name) e)
    | none ↦ elim r.job [
      | none ↦ err (message ("job mutator " <> name <> " returned nil job"))
      | some j ↦ ok (j, r.warnings)
    ]
  ]

  module _ (transform : JobMutator J → Transform J) (ctx : Option RequestContext) where
    -- The mutators in configuration order, each on the job that the one before it gave; the first
    -- error ends it.
    unfoldable pub transform_all :
        List (JobMutator J) → J → List GoError → Result (J × List GoError)
    transform_all [] j warnings = ok (j, warnings)
    transform_all (m ∷ ms) j warnings =
        accept m.name (transform m ctx j) >>= λ r. transform_all ms r.0 (warnings ++ r.1)

  module _ (policy : JobValidator J → Policy J) (ctx : Option RequestContext) (j : J) where
    -- All validators on one job: their warnings and their errors, in configuration order.
    unfoldable pub all_warnings : List (JobValidator J) → List GoError
    all_warnings [] = []
    all_warnings (v ∷ vs) = (policy v ctx j).warnings ++ all_warnings vs

    unfoldable pub all_errors : List (JobValidator J) → List GoError
    all_errors [] = []
    all_errors (v ∷ vs) = parts? (policy v ctx j).error ++ all_errors vs

    unfoldable pub all_accept : List (JobValidator J) → Bool
    all_accept [] = true
    all_accept (v ∷ vs) = is_none (policy v ctx j).error && all_accept vs

  -- The JSON round trip gives the job back.
  abbrev pub IsFaithful : JobCodec J → Type 0
  IsFaithful C = (j : J) → (C.marshal (some j) >>= C.unmarshal) ≡ ok j
