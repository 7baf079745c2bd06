-- ===== src/Config.antt =====
-- pkg/config/config.go: the configuration tree, and the request context that policies receive.
-- A pointer to a struct is an `Option`; an `int` is a `ℤ`.
pub mod Validate
pub mod Load
use nacp.Common.{ℕ, String, Bool, Option, none, some, List}
use nacp.Common.Int.{ℤ}

pub record NotationVerifierConfig : Type 0 where
  pub trust_policy_file : String
  pub trust_store_dir : String
  pub repo_plain_http : Bool
  pub max_sig_attempts : ℤ
  pub credential_store_file : String

pub record Webhook : Type 0 where
  pub endpoint : String
  pub method : String

pub record OpaRule : Type 0 where
  pub query : String
  pub filename : String
  pub notation : Option NotationVerifierConfig

pub record OpaSdkRule : Type 0 where
  pub path : String

pub record Validator : Type 0 where
  pub type : String
  pub name : String
  pub opa_rule : Option OpaRule
  pub opa_sdk_rule : Option OpaSdkRule
  pub webhook : Option Webhook
  pub resolve_token : Bool
  pub notation : Option NotationVerifierConfig

pub record Mutator : Type 0 where
  pub type : String
  pub name : String
  pub opa_rule : Option OpaRule
  pub opa_sdk_rule : Option OpaSdkRule
  pub webhook : Option Webhook
  pub resolve_token : Bool

-- A `time.Time`, which the program only copies.
abbrev pub Time : Type 0
Time = ℕ

-- nomad's `api.ACLTokenRoleLink`.
pub record RoleLink : Type 0 where
  pub id : String
  pub name : String

-- nomad's `api.ACLToken`, the fields that the program reads and the secret that it must not pass on.
pub record AclToken : Type 0 where
  pub accessor_id : String
  pub secret_id : String
  pub name : String
  pub type : String
  pub policies : List String
  pub roles : List RoleLink
  pub global : Bool
  pub create_time : Time
  pub expiration_time : Option Time
  pub create_index : ℕ
  pub modify_index : ℕ

pub record AclTokenContext : Type 0 where
  pub accessor_id : String
  pub name : String
  pub type : String
  pub policies : List String
  pub roles : List RoleLink
  pub global : Bool
  pub create_time : Time
  pub expiration_time : Option Time
  pub create_index : ℕ
  pub modify_index : ℕ

pub record RequestContext : Type 0 where
  pub client_ip : String
  pub accessor_id : String
  pub resolve_token : Bool
  pub token_info : Option AclTokenContext

-- `slices.Clone` gives an equal slice.
sanitize_token : AclToken → AclTokenContext
sanitize_token token = record {
  accessor_id = token.accessor_id;
  name = token.name;
  type = token.type;
  policies = token.policies;
  roles = token.roles;
  global = token.global;
  create_time = token.create_time;
  expiration_time = token.expiration_time;
  create_index = token.create_index;
  modify_index = token.modify_index;
}

-- `SanitizeACLToken`
unfoldable pub sanitize_acl_token : Option AclToken → Option AclTokenContext
unfolding sanitize_token
sanitize_acl_token none = none
sanitize_acl_token (some token) = some (sanitize_token token)

pub record NomadServerTls : Type 0 where
  pub ca_file : String
  pub cert_file : String
  pub key_file : String
  pub insecure_skip_verify : Bool

pub record NomadServer : Type 0 where
  pub address : String
  pub tls : Option NomadServerTls

pub record ProxyTls : Type 0 where
  pub cert_file : String
  pub key_file : String
  pub ca_file : String
  pub no_client_cert : Bool

pub record SlogLogging : Type 0 where
  pub text : Option Bool
  pub text_out : Option String
  pub json : Option Bool
  pub json_out : Option String

pub record OtelLogging : Type 0 where
  pub enabled : Option Bool

pub record Logging : Type 0 where
  pub level : String
  pub slog_logging : Option SlogLogging
  pub otel_logging : Option OtelLogging

pub record Metrics : Type 0 where
  pub enabled : Bool

pub record Tracing : Type 0 where
  pub enabled : Bool

pub record Telemetry : Type 0 where
  pub logging : Option Logging
  pub metrics : Option Metrics
  pub tracing : Option Tracing

pub record OpaSdk : Type 0 where
  pub id : String
  pub config_path : String

pub record Config : Type 0 where
  pub port : ℤ
  pub bind : String
  pub tls : Option ProxyTls
  pub nomad : Option NomadServer
  pub validators : List Validator
  pub mutators : List Mutator
  pub telemetry : Option Telemetry
  pub opa_sdk : Option OpaSdk
