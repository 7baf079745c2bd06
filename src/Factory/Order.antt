-- ===== src/Factory/Order.antt =====
-- The handler that `buildServer` makes of a configuration (cmd/nacp/nacp.go).
use mathlib.Core.Bool.{or_assoc}
use nacp.Common.{
  ◌≡◌, refl, sym, ap, ◌∙◌, Bool, false, ◌||◌, Option, some, List, [], ◌∷◌, map, arith,
}
use nacp.GoError.{ok, >>=-eq-ok, wrapping, wrapping-eq-ok}
use nacp.Config.{Validator, Mutator, Config, OpaRule, NotationVerifierConfig}
use nacp.Admission.{JobMutator, JobValidator, JobHandler}
use nacp.Mutator.OpaBundle.{OpaSdkClient}
use nacp.Factory.{
  Platform, create_mutator, create_opa_validator, create_validator, create_mutators,
  create_validators, build_handler,
}
use nacp.Factory.Shipped.{
  Each, IsShippedMutator, IsShippedValidator, create_mutator-IsShippedMutator,
  create_validator-IsShippedValidator,
}
use nacp.Factory.Made.{create_mutator-made, create_validator-made}

-- Whether a controller of the lists asks for the token.
abbrev pub asks : List Mutator → List Validator → Bool
asks [] [] = false
asks [] (v ∷ vs) = v.resolve_token || asks [] vs
asks (m ∷ ms) vs = m.resolve_token || asks ms vs

module _ {J : Type 0} (L : Platform J) (sdk : Option (OpaSdkClient J)) where
  create_mutator-name :
      (m : Mutator) (made : JobMutator J) → create_mutator L sdk m ≡ ok made → made.name ≡ m.name
  create_mutator-name m made h = ap (λ m. m.name) (create_mutator-made L sdk m made h).1

  create_validator-name :
      (v : Validator) (made : JobValidator J)
      → create_validator L sdk v ≡ ok made
      → made.name ≡ v.name
  create_validator-name v made h = ap (λ v. v.name) (create_validator-made L sdk v made h).1

  create_validators-names :
      (resolve : Bool) (vs : List Validator) (made : List (JobValidator J)) (flag : Bool)
      → create_validators L sdk resolve vs ≡ ok (made, flag)
      → (map (λ v. v.name) made ≡ map (λ v. v.name) vs) × (flag ≡ (resolve || asks [] vs))
  unfolding create_validators
  create_validators-names resolve [] made flag h = (cc, ground arith)
  create_validators-names resolve (v ∷ vs) made flag h =
      let (first, h₁, e₁) = >>=-eq-ok (create_validator L sdk v) _ h in
      let (rest, h₂, e₂) =
        >>=-eq-ok (create_validators L sdk (resolve || v.resolve_token) vs) _ e₁ in
      let (names, asked) =
        create_validators-names (resolve || v.resolve_token) vs rest.0 rest.1 h₂ in
      let whole : first ∷ rest.0 ≡ made = cc e₂ in
      let flagged : rest.1 ≡ flag = cc e₂ in
      (
        ap (λ l. map (λ v. v.name) l) (sym whole)
            ∙ (λ i. create_validator-name v first h₁ i ∷ names i),
        sym flagged ∙ asked ∙ or_assoc resolve v.resolve_token (asks [] vs),
      )

  create_mutators-names :
      (resolve : Bool) (ms : List Mutator) (made : List (JobMutator J)) (flag : Bool)
      → create_mutators L sdk resolve ms ≡ ok (made, flag)
      → (map (λ m. m.name) made ≡ map (λ m. m.name) ms) × (flag ≡ (resolve || asks ms []))
  unfolding create_mutators
  create_mutators-names resolve [] made flag h = (cc, ground arith)
  create_mutators-names resolve (m ∷ ms) made flag h =
      let (first, h₁, e₁) = >>=-eq-ok (create_mutator L sdk m) _ h in
      let (rest, h₂, e₂) = >>=-eq-ok (create_mutators L sdk (resolve || m.resolve_token) ms) _ e₁ in
      let (names, asked) = create_mutators-names (resolve || m.resolve_token) ms rest.0 rest.1 h₂ in
      let whole : first ∷ rest.0 ≡ made = cc e₂ in
      let flagged : rest.1 ≡ flag = cc e₂ in
      (
        ap (λ l. map (λ m. m.name) l) (sym whole)
            ∙ (λ i. create_mutator-name m first h₁ i ∷ names i),
        sym flagged ∙ asked ∙ or_assoc resolve m.resolve_token (asks ms []),
      )

  asks-append : (ms : List Mutator) (vs : List Validator) → asks ms vs ≡ (asks ms [] || asks [] vs)
  asks-append [] vs = refl
  asks-append (m ∷ ms) vs =
      ap (λ b. m.resolve_token || b) (asks-append ms vs)
      ∙ sym (or_assoc m.resolve_token (asks ms []) (asks [] vs))

  -- A handler that is built has the mutators and the validators of the configuration, in its order
  -- and under its names, and resolves tokens exactly if one of them asks for it.
  pub build_handler-names :
      (c : Config) (h : JobHandler J)
      → build_handler L sdk c ≡ ok h
      → (map (λ m. m.name) h.mutators ≡ map (λ m. m.name) c.mutators)
        × (map (λ v. v.name) h.validators ≡ map (λ v. v.name) c.validators)
        × (h.resolve_token ≡ asks c.mutators c.validators)
  unfolding build_handler
  build_handler-names c h built =
      let (ms, h₁, e₁) =
        >>=-eq-ok (wrapping "failed to create mutators" (create_mutators L sdk false c.mutators)) _
          built in
      let (vs, h₂, e₂) =
        >>=-eq-ok
          (wrapping "failed to create validators" (create_validators L sdk false c.validators)) _
          e₁ in
      let (m_names, m_asks) =
        create_mutators-names false c.mutators ms.0 ms.1 (wrapping-eq-ok _ _ h₁) in
      let (v_names, v_asks) =
        create_validators-names false c.validators vs.0 vs.1 (wrapping-eq-ok _ _ h₂) in
      let made : record { mutators = ms.0; validators = vs.0; resolve_token = ms.1 || vs.1 } ≡ h =
        cc e₂ in
      rw (← made)
        (m_names, v_names, rw (m_asks, v_asks) (sym (asks-append c.mutators c.validators)))

module _ {J : Type 0} (L : Platform J) (sdk : Option (OpaSdkClient J)) where
  create_mutators-Each :
      (resolve : Bool) (ms : List Mutator) (made : List (JobMutator J)) (flag : Bool)
      → create_mutators L sdk resolve ms ≡ ok (made, flag)
      → Each (IsShippedMutator L sdk) ms made
  unfolding create_mutators
  create_mutators-Each resolve [] made flag h =
      let none_made : [] ≡ made = cc h in rw (← none_made) tt
  create_mutators-Each resolve (m ∷ ms) made flag h =
      let (first, h₁, e₁) = >>=-eq-ok (create_mutator L sdk m) _ h in
      let (rest, h₂, e₂) = >>=-eq-ok (create_mutators L sdk (resolve || m.resolve_token) ms) _ e₁ in
      let whole : first ∷ rest.0 ≡ made = cc e₂ in
      rw (← whole) (
        create_mutator-IsShippedMutator L sdk m first h₁,
        create_mutators-Each (resolve || m.resolve_token) ms rest.0 rest.1 h₂,
      )

  create_validators-Each :
      (resolve : Bool) (vs : List Validator) (made : List (JobValidator J)) (flag : Bool)
      → create_validators L sdk resolve vs ≡ ok (made, flag)
      → Each (IsShippedValidator L sdk) vs made
  unfolding create_validators
  create_validators-Each resolve [] made flag h =
      let none_made : [] ≡ made = cc h in rw (← none_made) tt
  create_validators-Each resolve (v ∷ vs) made flag h =
      let (first, h₁, e₁) = >>=-eq-ok (create_validator L sdk v) _ h in
      let (rest, h₂, e₂) =
        >>=-eq-ok (create_validators L sdk (resolve || v.resolve_token) vs) _ e₁ in
      let whole : first ∷ rest.0 ≡ made = cc e₂ in
      rw (← whole) (
        create_validator-IsShippedValidator L sdk v first h₁,
        create_validators-Each (resolve || v.resolve_token) vs rest.0 rest.1 h₂,
      )

  -- A handler that is built has one mutator for each mutator block of the configuration and one
  -- validator for each validator block, in the order of the blocks. Each is of the kind that the
  -- block's `type` names, has the block's name, and runs what the block says: the query of the file of
  -- its rule, over the verifier of its notation block, which is that of the rule for a mutator and
  -- that of the block itself for a validator; the webhook at its endpoint, with its method; the
  -- decision of the OPA SDK at its path; or the verifier of its notation block. The handler resolves
  -- tokens exactly if a block asks for it.
  pub build_handler-Each :
      (c : Config) (h : JobHandler J)
      → build_handler L sdk c ≡ ok h
      → Each (IsShippedMutator L sdk) c.mutators h.mutators
        × Each (IsShippedValidator L sdk) c.validators h.validators
        × (h.resolve_token ≡ asks c.mutators c.validators)
  unfolding build_handler
  build_handler-Each c h built =
      let (ms, h₁, e₁) =
        >>=-eq-ok (wrapping "failed to create mutators" (create_mutators L sdk false c.mutators)) _
          built in
      let (vs, h₂, e₂) =
        >>=-eq-ok
          (wrapping "failed to create validators" (create_validators L sdk false c.validators)) _
          e₁ in
      let made : record { mutators = ms.0; validators = vs.0; resolve_token = ms.1 || vs.1 } ≡ h =
        cc e₂ in
      (
        rw (ap (λ h. h.mutators) made) at
            (create_mutators-Each false c.mutators ms.0 ms.1 (wrapping-eq-ok _ _ h₁)),
        rw (ap (λ h. h.validators) made) at
            (create_validators-Each false c.validators vs.0 vs.1 (wrapping-eq-ok _ _ h₂)),
        (build_handler-names L sdk c h built).2,
      )

module _ {J : Type 0} (L : Platform J) (sdk : Option (OpaSdkClient J)) where
  -- The notation block inside the `opa_rule` of a validator has no effect on the validator that is
  -- built, whatever it says.
  pub create_validator-ignores :
      (v : Validator) (rule : OpaRule) (notation : Option NotationVerifierConfig)
      → v.opa_rule ≡ some rule
      → create_validator L sdk (record v { opa_rule = some (record rule { notation = notation }) })
        ≡ create_validator L sdk v
  unfolding create_validator create_opa_validator
  create_validator-ignores v rule notation found = rw (found, create_validator) refl
