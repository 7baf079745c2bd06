-- ===== src/Config/Validate.antt =====
-- pkg/config/config.go: `Config.Validate`. An error that is nil is `none`. `url.Parse`, the error of
-- `http.NewRequest` and `%q` are parameters.
pub mod Names
pub mod Controllers
pub mod Listener
use nacp.Common.{
  ℕ, String, ◌<>◌, Bool, true, false, not, ◌&&◌, ◌||◌, Option, none, some, is_some, is_none, List,
  [], ◌∷◌, ◌==◌, if◌then◌else◌,
}
use nacp.Common.Int.{ℤ, lt_ℕ, gt_ℕ}
use nacp.Common.Text.{is_empty, trim_space}
use nacp.GoError.{GoError, message, wrap, Result, ok, err}
use nacp.Http.{Url}
use nacp.Config.{
  NotationVerifierConfig, Webhook, OpaRule, OpaSdkRule, Validator, Mutator, ProxyTls, NomadServer,
  NomadServerTls, OpaSdk, Config,
}

-- `if … { return fmt.Errorf(…) }`
abbrev pub refuse_if : Bool → String → Option GoError
refuse_if true s = some (message s)
refuse_if false s = none

-- `if err := …; err != nil { return err }`, and then the rest.
infixr 20 ◌then_check◌
abbrev pub ◌then_check◌ : Option GoError → Option GoError → Option GoError
some e then_check k = some e
none then_check k = k

-- `fmt.Errorf("…: %w", err)` of an error that may be nil.
abbrev pub wrap_some : String → Option GoError → Option GoError
wrap_some s none = none
wrap_some s (some e) = some (wrap s e)

abbrev pub is_blank : String → Bool
is_blank s = is_empty (trim_space s)

-- `_, found := seen[key]`
unfoldable pub found : String → List String → Bool
found key [] = false
found key (k ∷ seen) = k == key || found key seen

pub record UrlLibrary : Type 0 where
  pub parse_url : String → Result Url
  -- The error of `http.NewRequest` for a method and a URL.
  pub new_request_error : String → String → Option GoError
  pub quote : String → String

module _ (L : UrlLibrary) where
  open L use {parse_url, new_request_error, quote}

  -- `kind "name"`
  abbrev titled : String → String → String
  titled kind name = kind <> " " <> quote name

  unfoldable pub validate_http_url : String → String → Option GoError
  validate_http_url name value = elim (parse_url value) [
    | err e ↦ some (wrap ("invalid " <> name) e)
    | ok u ↦
        refuse_if ((not (u.scheme == "http") && not (u.scheme == "https")) || is_empty u.host)
          (name <> " must be an absolute HTTP(S) URL")
  ]

  unfoldable pub validate_notation :
      String → String → Option NotationVerifierConfig → Option GoError
  validate_notation kind name none =
      some
        (message (titled kind name <> " requires notation trust_policy_file and trust_store_dir"))
  validate_notation kind name (some n) =
      refuse_if (is_empty n.trust_policy_file || is_empty n.trust_store_dir)
        (titled kind name <> " requires notation trust_policy_file and trust_store_dir")
      then_check refuse_if (lt_ℕ n.max_sig_attempts 1)
          (titled kind name <> " max_sig_attempts must be positive")

  -- A notation block that may be left out.
  abbrev pub validate_optional_notation :
      String → String → Option NotationVerifierConfig → Option GoError
  validate_optional_notation kind name none = none
  validate_optional_notation kind name (some n) = validate_notation kind name (some n)

  unfoldable pub validate_opa_rule : String → String → Option OpaRule → Option GoError
  validate_opa_rule kind name none =
      some (message (titled kind name <> " requires an opa_rule block with filename and query"))
  validate_opa_rule kind name (some rule) =
      refuse_if (is_blank rule.filename || is_blank rule.query)
        (titled kind name <> " requires an opa_rule block with filename and query")
      then_check validate_optional_notation kind name rule.notation

  unfoldable pub validate_opa_sdk_rule : String → String → Option OpaSdkRule → Bool → Option GoError
  validate_opa_sdk_rule kind name rule has_opa_sdk =
      refuse_if (not has_opa_sdk) (titled kind name <> " requires an opa_sdk block")
      then_check refuse_if (elim rule [ none ↦ true | some r ↦ is_blank r.path ])
          (titled kind name <> " requires an opa_sdk_rule block with path")

  unfoldable pub validate_webhook : String → String → Option Webhook → Option GoError
  validate_webhook kind name none = some (message (titled kind name <> " requires a webhook block"))
  validate_webhook kind name (some webhook) =
      wrap_some (titled kind name) (validate_http_url "webhook endpoint" webhook.endpoint)
      then_check refuse_if (is_blank webhook.method)
          (titled kind name <> " requires a webhook method")
      then_check wrap_some (titled kind name <> " has an invalid webhook method")
          (new_request_error webhook.method webhook.endpoint)

  unfoldable pub validate_mutator : Mutator → Bool → Option GoError
  validate_mutator m has_opa_sdk =
      refuse_if (is_blank m.name) "mutator name is required"
      then_check (if m.type == "opa_json_patch"
          then validate_opa_rule "mutator" m.name m.opa_rule
          else if m.type == "json_patch_webhook"
          then validate_webhook "mutator" m.name m.webhook
          else if m.type == "opa_bundle_json_patch"
          then validate_opa_sdk_rule "mutator" m.name m.opa_sdk_rule has_opa_sdk
          else some (message ("unknown mutator type " <> quote m.type)))

  unfoldable pub validate_validator : Validator → Bool → Option GoError
  validate_validator v has_opa_sdk =
      refuse_if (is_blank v.name) "validator name is required"
      then_check (if v.type == "opa"
          then (validate_opa_rule "validator" v.name v.opa_rule
              then_check validate_optional_notation "validator" v.name v.notation)
          else if v.type == "opa_bundle"
          then validate_opa_sdk_rule "validator" v.name v.opa_sdk_rule has_opa_sdk
          else if v.type == "webhook"
          then validate_webhook "validator" v.name v.webhook
          else if v.type == "notation"
          then validate_notation "validator" v.name v.notation
          else some (message ("unknown validator type " <> quote v.type)))

  -- The second loop of `validateControllers`.
  unfoldable pub validate_validators : Bool → List String → List Validator → Option GoError
  validate_validators has_opa_sdk seen [] = none
  validate_validators has_opa_sdk seen (v ∷ vs) =
      let rest = validate_validators has_opa_sdk (("validator:" <> v.name) ∷ seen) vs in
      validate_validator v has_opa_sdk
      then_check refuse_if (found ("validator:" <> v.name) seen)
          ("duplicate validator name " <> quote v.name)
      then_check rest

  -- The first loop, which goes on with the second.
  unfoldable pub validate_mutators :
      Bool → List String → List Mutator → List Validator → Option GoError
  validate_mutators has_opa_sdk seen [] vs = validate_validators has_opa_sdk seen vs
  validate_mutators has_opa_sdk seen (m ∷ ms) vs =
      let rest = validate_mutators has_opa_sdk (("mutator:" <> m.name) ∷ seen) ms vs in
      validate_mutator m has_opa_sdk
      then_check refuse_if (found ("mutator:" <> m.name) seen)
          ("duplicate mutator name " <> quote m.name)
      then_check rest

  unfoldable pub validate_controllers : Config → Option GoError
  unfolding validate_mutators validate_validators found
  validate_controllers c = validate_mutators (is_some c.opa_sdk) [] c.mutators c.validators

  unfoldable pub validate_listener : Config → Option GoError
  validate_listener c =
      refuse_if (lt_ℕ c.port 1 || gt_ℕ c.port 65535) "port must be between 1 and 65535"
      then_check refuse_if (is_blank c.bind) "bind address is required"
      then_check refuse_if
          (elim c.tls [ none ↦ false | some t ↦ is_empty t.cert_file || is_empty t.key_file ])
          "listener TLS requires cert_file and key_file"

  abbrev pub half_pair : Option NomadServerTls → Bool
  half_pair none = false
  half_pair (some t) =
      if is_empty t.cert_file then not (is_empty t.key_file) else is_empty t.key_file

  unfoldable pub validate_nomad_config : Option NomadServer → Option GoError
  validate_nomad_config none = some (message "nomad block is required")
  validate_nomad_config (some nomad) =
      validate_http_url "nomad address" nomad.address
      then_check refuse_if (half_pair nomad.tls)
          "nomad TLS cert_file and key_file must be configured together"

  -- `Config.Validate`
  unfoldable pub validate : Option Config → Option GoError
  validate none = some (message "config is nil")
  validate (some c) =
      validate_listener c
      then_check validate_nomad_config c.nomad
      then_check refuse_if
          (elim c.opa_sdk [ none ↦ false | some s ↦ is_blank s.id || is_blank s.config_path ])
          "opa_sdk requires a non-empty id and config_path"
      then_check validate_controllers c
