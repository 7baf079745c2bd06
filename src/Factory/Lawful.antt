-- ===== src/Factory/Lawful.antt =====
-- The controllers of a configuration obey the laws that admission asks of its controllers
-- (cmd/nacp/nacp.go, pkg/admissionctrl).
use mathlib.Core.Path.{subst}
use nacp.Common.{
  String, All-map, ◌≡◌, refl, sym, ◌∙◌, Bool, false, ◌||◌, Option, some, List, [], ◌∷◌, All,
}
use nacp.GoError.{Multierror, IsFlattening, ok, >>=-eq-ok, wrapping, wrapping-eq-ok}
use nacp.Config.{Validator, Mutator, Config}
use nacp.Admission.{JobMutator, JobValidator, JobHandler, deref}
use nacp.Admission.Spec.{Transform, Policy, IsMutatorOf, IsValidatorOf, IsFaithful}
use nacp.Admission.Isolation.{IsAdditive, IsPrivate}
use nacp.Payloads.{
  mutate_by, validate_by, mutate_by-IsMutatorOf, mutate_by-IsAdditive, validate_by-IsValidatorOf,
  validate_by-IsPrivate, transform_by, policy_by,
}
use nacp.Mutator.OpaBundle.{OpaSdkClient}
use nacp.Factory.{
  Platform, create_mutator, create_validator, create_mutators, create_validators, build_handler,
}
use nacp.Factory.Made.{IsMadeMutator, IsMadeValidator, create_mutator-made, create_validator-made}
use nacp.Proxy.Handlers.{EnvelopeCodec}
use nacp.Proxy.Admits.{IsLawful}
use nacp.Proxy.Concurrent.Reference.{IsSharable}

module _ {J : Type 0} where
  -- What a mutator does to a job that lies alone on the heap.
  abbrev pub transform_of : JobMutator J → Transform J
  transform_of m ctx j =
      let (r, h) = m.mutate (record { job = some 0; context = ctx }) (j ∷ []) in
      record { job = deref h r.job; mutated = r.mutated; warnings = r.warnings; error = r.error }

  -- What a validator says of a job that lies alone on the heap.
  abbrev pub policy_of : JobValidator J → Policy J
  policy_of v ctx j = (v.validate (record { job = some 0; context = ctx }) (j ∷ [])).0

  IsMutatorOf-transform_of :
      (t : Transform J) (m : JobMutator J) → IsMutatorOf t m → IsMutatorOf (transform_of m) m
  IsMutatorOf-transform_of t m is = record {
    computes = λ p h j found.
        sym (is.computes (record { job = some 0; context = p.context }) (j ∷ []) j refl)
        ∙ is.computes p h j found;
    points = is.points;
  }

  IsValidatorOf-policy_of :
      (q : Policy J) (v : JobValidator J) → IsValidatorOf q v → IsValidatorOf (policy_of v) v
  IsValidatorOf-policy_of q v is p h j found =
      is p h j found ∙ sym (is (record { job = some 0; context = p.context }) (j ∷ []) j refl)

  IsMutatorOf-IsMadeMutator :
      (name : String) (m : JobMutator J)
      → IsMadeMutator name m
      → IsMutatorOf (transform_of m) m × IsAdditive m
  IsMutatorOf-IsMadeMutator name m (f, e) = rw e (
    IsMutatorOf-transform_of (transform_by f) (record { name = name; mutate = mutate_by f })
        (mutate_by-IsMutatorOf name f),
    mutate_by-IsAdditive name f,
  )

  IsValidatorOf-IsMadeValidator :
      (name : String) (v : JobValidator J)
      → IsMadeValidator name v
      → IsValidatorOf (policy_of v) v × IsPrivate v
  IsValidatorOf-IsMadeValidator name v (f, e) =
      let made : JobValidator J = record { name = name; validate = validate_by f } in
      let judges : IsValidatorOf (policy_of made) made =
        IsValidatorOf-policy_of (policy_by f) made (validate_by-IsValidatorOf name f) in
      let private : IsPrivate made = validate_by-IsPrivate name f in
      (
        subst (λ x. IsValidatorOf (policy_of x) x) (sym e) judges,
        subst (λ x. IsPrivate x) (sym e) private,
      )

module _ {J : Type 0} (L : Platform J) (sdk : Option (OpaSdkClient J)) where
  create_mutators-lawful :
      (resolve : Bool) (ms : List Mutator) (made : List (JobMutator J)) (flag : Bool)
      → create_mutators L sdk resolve ms ≡ ok (made, flag)
      → All (λ m. IsMutatorOf (transform_of m) m × IsAdditive m) made
  unfolding create_mutators
  create_mutators-lawful resolve [] made flag h = let e : [] ≡ made = cc h in rw (← e) tt
  create_mutators-lawful resolve (m ∷ ms) made flag h =
      let (first, h₁, e₁) = >>=-eq-ok (create_mutator L sdk m) _ h in
      let (rest, h₂, e₂) = >>=-eq-ok (create_mutators L sdk (resolve || m.resolve_token) ms) _ e₁ in
      let whole : first ∷ rest.0 ≡ made = cc e₂ in
      rw (← whole) (
        IsMutatorOf-IsMadeMutator m.name first (create_mutator-made L sdk m first h₁),
        create_mutators-lawful (resolve || m.resolve_token) ms rest.0 rest.1 h₂,
      )

  create_validators-lawful :
      (resolve : Bool) (vs : List Validator) (made : List (JobValidator J)) (flag : Bool)
      → create_validators L sdk resolve vs ≡ ok (made, flag)
      → All (λ v. IsValidatorOf (policy_of v) v × IsPrivate v) made
  unfolding create_validators
  create_validators-lawful resolve [] made flag h = let e : [] ≡ made = cc h in rw (← e) tt
  create_validators-lawful resolve (v ∷ vs) made flag h =
      let (first, h₁, e₁) = >>=-eq-ok (create_validator L sdk v) _ h in
      let (rest, h₂, e₂) =
        >>=-eq-ok (create_validators L sdk (resolve || v.resolve_token) vs) _ e₁ in
      let whole : first ∷ rest.0 ≡ made = cc e₂ in
      rw (← whole) (
        IsValidatorOf-IsMadeValidator v.name first (create_validator-made L sdk v first h₁),
        create_validators-lawful (resolve || v.resolve_token) vs rest.0 rest.1 h₂,
      )

  -- A handler that is built of a configuration obeys the laws, with what its controllers do to a
  -- lone job.
  pub build_handler-IsSharable :
      (c : Config) (h : JobHandler J)
      → build_handler L sdk c ≡ ok h
      → IsSharable transform_of policy_of h
  unfolding build_handler
  build_handler-IsSharable c h built =
      let (ms, h₁, e₁) =
        >>=-eq-ok (wrapping "failed to create mutators" (create_mutators L sdk false c.mutators)) _
          built in
      let (vs, h₂, e₂) =
        >>=-eq-ok
          (wrapping "failed to create validators" (create_validators L sdk false c.validators)) _
          e₁ in
      let made : record { mutators = ms.0; validators = vs.0; resolve_token = ms.1 || vs.1 } ≡ h =
        cc e₂ in
      rw (← made) (record {
        mutators = create_mutators-lawful false c.mutators ms.0 ms.1 (wrapping-eq-ok _ _ h₁);
        validators = create_validators-lawful false c.validators vs.0 vs.1 (wrapping-eq-ok _ _ h₂);
      })

  pub build_handler-IsLawful :
      {R : Type 0} (M : Multierror) (flat : IsFlattening M) (faithful : IsFaithful L.codec)
      (K : EnvelopeCodec J R) (c : Config) (h : JobHandler J)
      → build_handler L sdk c ≡ ok h
      → IsLawful M L.codec flat faithful transform_of policy_of K h
  build_handler-IsLawful M flat faithful K c h built =
      let laws = build_handler-IsSharable c h built in
      record {
        mutators = All-map h.mutators (λ m p. p.0) laws.mutators;
        validators = All-map h.validators (λ v p. p.0) laws.validators;
        isolated = All-map h.validators (λ v p. p.1) laws.validators;
      }
