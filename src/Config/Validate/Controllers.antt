-- ===== src/Config/Validate/Controllers.antt =====
-- Which controllers `validateControllers` accepts (pkg/config/config.go).
use nacp.Common.{
  ◌≡◌, refl, ◌↔◌, String, ◌<>◌, Bool, true, false, Option, none, some, is_some, List, [], ◌∷◌, ◌++◌,
  map, All,
}
use nacp.GoError.{GoError}
use nacp.Config.{Validator, Mutator, Config}
use nacp.Config.Validate.{
  UrlLibrary, refuse_if, ◌then_check◌, found, validate_mutator, validate_validator,
  validate_mutators, validate_validators, validate_controllers,
}
use nacp.Config.Validate.Names.{Distinct, New, found_iff, New-nil_iff, keys_iff}

pub then_check-eq-none :
    (a b : Option GoError) → ((a then_check b) ≡ none) ↔ ((a ≡ none) × (b ≡ none))
then_check-eq-none (some e) b = (λ h. absurd (cc h), λ (h, _). h)
then_check-eq-none none b = (λ h. (refl, h), λ (_, h). h)

pub refuse_if-eq-none : (b : Bool) (s : String) → (refuse_if b s ≡ none) ↔ (b ≡ false)
refuse_if-eq-none true s = (λ h. absurd (cc h), λ h. absurd (cc h))
refuse_if-eq-none false s = (λ h. refl, λ h. refl)

pub three_checks :
    (a b c : Option GoError)
    → ((a then_check b then_check c) ≡ none) ↔ ((a ≡ none) × (b ≡ none) × (c ≡ none))
three_checks (some e) b c = (λ h. absurd (cc h), λ h. h.0)
three_checks none b c = (
  λ h. let (p, q) = (then_check-eq-none b c).0 h in (refl, p, q),
  λ (_, p, q). (then_check-eq-none b c).1 (p, q),
)

module _ (L : UrlLibrary) where
  abbrev pub IsValidValidator : Bool → Validator → Type 0
  IsValidValidator has v = validate_validator L v has ≡ none

  abbrev pub IsValidMutator : Bool → Mutator → Type 0
  IsValidMutator has m = validate_mutator L m has ≡ none

  validate_validators_iff :
      (has : Bool) (seen : List String) (vs : List Validator)
      → (validate_validators L has seen vs ≡ none) ↔ (
          All (IsValidValidator has) vs
          × New seen (map (λ n. "validator:" <> n) (map (λ v. v.name) vs)))
  unfolding validate_validators
  validate_validators_iff has seen [] = (λ h. (tt, tt), λ h. refl)
  validate_validators_iff has seen (v ∷ vs) =
      let checks =
        three_checks (validate_validator L v has)
          (refuse_if (found ("validator:" <> v.name) seen)
            ("duplicate validator name " <> L.quote v.name))
          (validate_validators L has (("validator:" <> v.name) ∷ seen) vs) in
      let fresh = found_iff ("validator:" <> v.name) seen in
      let named =
        refuse_if-eq-none (found ("validator:" <> v.name) seen)
          ("duplicate validator name " <> L.quote v.name) in
      let rest = validate_validators_iff has (("validator:" <> v.name) ∷ seen) vs in
      (
        λ h.
            let (a, b, c) = checks.0 h in
            let (d, e) = rest.0 c in ((a, d), (fresh.0 (named.0 b), e)),
        λ ((a, d), (f, e)). checks.1 (a, named.1 (fresh.1 f), rest.1 (d, e)),
      )

  validate_mutators_iff :
      (has : Bool) (seen : List String) (ms : List Mutator) (vs : List Validator)
      → (validate_mutators L has seen ms vs ≡ none) ↔ (
          All (IsValidMutator has) ms
          × All (IsValidValidator has) vs
          × New seen (
              map (λ n. "mutator:" <> n) (map (λ m. m.name) ms)
              ++ map (λ n. "validator:" <> n) (map (λ v. v.name) vs)))
  unfolding validate_mutators
  validate_mutators_iff has seen [] vs =
      let q = validate_validators_iff has seen vs in
      (λ h. let (a, n) = q.0 h in (tt, a, n), λ (_, a, n). q.1 (a, n))
  validate_mutators_iff has seen (m ∷ ms) vs =
      let checks =
        three_checks (validate_mutator L m has)
          (refuse_if (found ("mutator:" <> m.name) seen)
            ("duplicate mutator name " <> L.quote m.name))
          (validate_mutators L has (("mutator:" <> m.name) ∷ seen) ms vs) in
      let fresh = found_iff ("mutator:" <> m.name) seen in
      let named =
        refuse_if-eq-none (found ("mutator:" <> m.name) seen)
          ("duplicate mutator name " <> L.quote m.name) in
      let rest = validate_mutators_iff has (("mutator:" <> m.name) ∷ seen) ms vs in
      (
        λ h.
            let (a, b, c) = checks.0 h in
            let (d, e, n) = rest.0 c in ((a, d), e, (fresh.0 (named.0 b), n)),
        λ ((a, d), e, (f, n)). checks.1 (a, named.1 (fresh.1 f), rest.1 (d, e, n)),
      )

  -- `validateControllers` passes exactly the configurations in which each mutator and each
  -- validator passes its own check and no two of one kind have the same name; a mutator and a
  -- validator may share theirs.
  pub validate_controllers_iff :
      (c : Config)
      → (validate_controllers L c ≡ none) ↔ (
          All (IsValidMutator (is_some c.opa_sdk)) c.mutators
          × All (IsValidValidator (is_some c.opa_sdk)) c.validators
          × Distinct (map (λ m. m.name) c.mutators)
          × Distinct (map (λ v. v.name) c.validators))
  unfolding validate_controllers
  validate_controllers_iff c =
      let run = validate_mutators_iff (is_some c.opa_sdk) [] c.mutators c.validators in
      let ms = map (λ m. m.name) c.mutators in
      let vs = map (λ v. v.name) c.validators in
      let new = New-nil_iff (map (λ n. "mutator:" <> n) ms ++ map (λ n. "validator:" <> n) vs) in
      let keys = keys_iff ms vs in
      (
        λ h. let (a, b, n) = run.0 h in let (d, e) = keys.0 (new.0 n) in (a, b, d, e),
        λ (a, b, d, e). run.1 (a, b, new.1 (keys.1 (d, e))),
      )
