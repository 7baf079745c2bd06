-- ===== src/Factory/Completes.antt =====
-- Every configuration that is valid can be built, as far as files and policies allow
-- (cmd/nacp/nacp.go, pkg/config/config.go).
use nacp.Common.{
  eq_iff, ◌≡◌, refl, Bool, true, false, ◌||◌, Option, none, some, is_some, List, [], ◌∷◌, ◌==◌, All,
  Bool-cases, inl, inr,
}
use nacp.GoError.{ok}
use nacp.Config.{Validator, Mutator, Config}
use nacp.Config.Validate.{
  UrlLibrary, is_blank, refuse_if, validate_optional_notation, validate_opa_rule, validate_mutator,
  validate_validator, validate,
}
use nacp.Config.Validate.Controllers.{
  then_check-eq-none, IsValidMutator, IsValidValidator, validate_controllers_iff,
}
use nacp.Config.Validate.Listener.{validate_iff}
use nacp.Admission.{JobMutator, JobValidator, JobHandler}
use nacp.Mutator.OpaBundle.{OpaSdkClient}
use nacp.Validator.Notation.{notation_validator}
use nacp.Factory.{
  Platform, create_mutator, create_notation_validator, create_validator, create_mutators,
  create_validators, build_handler,
}
use nacp.Factory.Valid.{
  HasMutatorFiles, HasValidatorFiles, opa_mutator_made, opa_validator_made, patch_mutator_made,
  webhook_validator_made, bundle_mutator_made, bundle_validator_made,
}

module _ {J : Type 0} (L : Platform J) (U : UrlLibrary) (same : U.parse_url ≡ L.parse_url) where
  module _ (sdk : Option (OpaSdkClient J)) (has : Bool)
      (given : has ≡ true → (opa : OpaSdkClient J) × (sdk ≡ some opa)) where
    -- A valid mutator can be created.
    create_mutator_of_valid :
        (m : Mutator)
        → HasMutatorFiles L m
        → validate_mutator U m has ≡ none
        → (made : JobMutator J) × (create_mutator L sdk m ≡ ok made)
    unfolding validate_mutator create_mutator
    create_mutator_of_valid m files h =
        let valid = ((then_check-eq-none (refuse_if (is_blank m.name) _) _).0 h).1 in
        elim (Bool-cases (m.type == "opa_json_patch")) [
          | inl a ↦
              rw (a, create_mutator)
                (opa_mutator_made L U same "mutator" m.name m.opa_rule
                  (files ((eq_iff m.type "opa_json_patch").0 a)) (rw a at valid))
          | inr a ↦ elim (Bool-cases (m.type == "json_patch_webhook")) [
            | inl b ↦
                rw (a, b, create_mutator)
                  (patch_mutator_made L U same "mutator" m.name m.webhook (rw (a, b) at valid))
            | inr b ↦ elim (Bool-cases (m.type == "opa_bundle_json_patch")) [
              | inl c ↦
                  rw (a, b, c, create_mutator)
                    (bundle_mutator_made L U same sdk has given "mutator" m.name m.opa_sdk_rule
                      (rw (a, b, c) at valid))
              | inr c ↦ absurd (cc (rw (a, b, c) at valid))
            ]
          ]
        ]

    -- A valid validator can be created.
    create_validator_of_valid :
        (v : Validator)
        → HasValidatorFiles L v
        → validate_validator U v has ≡ none
        → (made : JobValidator J) × (create_validator L sdk v ≡ ok made)
    unfolding validate_validator create_validator create_notation_validator
    create_validator_of_valid v files h =
        let valid = ((then_check-eq-none (refuse_if (is_blank v.name) _) _).0 h).1 in
        elim (Bool-cases (v.type == "opa")) [
          | inl a ↦
              let (rule, _) =
                (then_check-eq-none (validate_opa_rule U "validator" v.name v.opa_rule)
                    (validate_optional_notation U "validator" v.name v.notation)).0
                  (rw a at valid) in
              rw (a, create_validator)
                (opa_validator_made L U same "validator" v.name v.opa_rule v.notation
                  (files.0 ((eq_iff v.type "opa").0 a)) rule)
          | inr a ↦ elim (Bool-cases (v.type == "opa_bundle")) [
            | inl b ↦
                rw (a, b, create_validator)
                  (bundle_validator_made L U same sdk has given "validator" v.name v.opa_sdk_rule
                    (rw (a, b) at valid))
            | inr b ↦ elim (Bool-cases (v.type == "webhook")) [
              | inl c ↦
                  rw (a, b, c, create_validator)
                    (webhook_validator_made L U same "validator" v.name v.webhook
                      (rw (a, b, c) at valid))
              | inr c ↦ elim (Bool-cases (v.type == "notation")) [
                | inl d ↦
                    let (verifier, verified) = files.1 ((eq_iff v.type "notation").0 d) in
                    rw (a, b, c, d, create_validator)
                      (
                        notation_validator L.task_groups verifier v.name,
                        rw (verified, create_notation_validator) refl,
                      )
                | inr d ↦ absurd (cc (rw (a, b, c, d) at valid))
              ]
            ]
          ]
        ]

    create_mutators_of_valid :
        (resolve : Bool) (ms : List Mutator)
        → All (HasMutatorFiles L) ms
        → All (IsValidMutator U has) ms
        → (made : List (JobMutator J) × Bool) × (create_mutators L sdk resolve ms ≡ ok made)
    unfolding create_mutators
    create_mutators_of_valid resolve [] files valid = (([], resolve), refl)
    create_mutators_of_valid resolve (m ∷ ms) (f, files) (v, valid) =
        let (first, made) = create_mutator_of_valid m f v in
        let (rest, others) = create_mutators_of_valid (resolve || m.resolve_token) ms files valid in
        ((first ∷ rest.0, rest.1), rw (made, others) refl)

    create_validators_of_valid :
        (resolve : Bool) (vs : List Validator)
        → All (HasValidatorFiles L) vs
        → All (IsValidValidator U has) vs
        → (made : List (JobValidator J) × Bool) × (create_validators L sdk resolve vs ≡ ok made)
    unfolding create_validators
    create_validators_of_valid resolve [] files valid = (([], resolve), refl)
    create_validators_of_valid resolve (v ∷ vs) (f, files) (w, valid) =
        let (first, made) = create_validator_of_valid v f w in
        let (rest, others) =
          create_validators_of_valid (resolve || v.resolve_token) vs files valid in
        ((first ∷ rest.0, rest.1), rw (made, others) refl)

  -- Of a configuration that passes `Validate`, the job handler can always be built, if the policy files
  -- and the notation blocks of its rule-based controllers can be read and used, and OPA runs where
  -- the configuration has an opa_sdk block: no controller is of an unknown type, lacks its block, or
  -- has an endpoint or a decision path that its constructor refuses. Both sides parse URLs alike.
  pub build_handler_of_valid :
      (c : Config) (sdk : Option (OpaSdkClient J))
      → validate U (some c) ≡ none
      → (is_some c.opa_sdk ≡ true → (opa : OpaSdkClient J) × (sdk ≡ some opa))
      → All (HasMutatorFiles L) c.mutators
      → All (HasValidatorFiles L) c.validators
      → (h : JobHandler J) × (build_handler L sdk c ≡ ok h)
  unfolding build_handler
  build_handler_of_valid c sdk valid given m_files v_files =
      let (_, _, _, _, _, controllers) = (validate_iff U c).0 valid in
      let (ms, vs, _, _) = (validate_controllers_iff U c).0 controllers in
      let (mutators, made) =
        create_mutators_of_valid sdk (is_some c.opa_sdk) given false c.mutators m_files ms in
      let (validators, others) =
        create_validators_of_valid sdk (is_some c.opa_sdk) given false c.validators v_files vs in
      (
        record {
          mutators = mutators.0;
          validators = validators.0;
          resolve_token = mutators.1 || validators.1;
        },
        rw (made, others) refl,
      )
