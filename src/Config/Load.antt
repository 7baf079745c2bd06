-- ===== src/Config/Load.antt =====
-- pkg/config/config.go: `DefaultConfig`, `setNotationDefaults` and `LoadConfig`. The decoding of an HCL
-- file onto a configuration is a parameter.
pub mod Laws
use nacp.Common.{String, ◌<>◌, true, false, ◌||◌, Option, none, some, [], map, ◌==◌, if◌then◌else◌}
use nacp.Common.Int.{pos, is_zero}
use nacp.GoError.{
  GoError, message, Result, ok, err, Built, panicked, returns, nil_dereference, ◌and_on◌,
}
use nacp.Config.{NotationVerifierConfig, OpaRule, Validator, Mutator, SlogLogging, Config}
use nacp.Config.Validate.{UrlLibrary, validate}

abbrev pub default_config : Config
default_config = record {
  port = pos 6464;
  bind = "0.0.0.0";
  tls = none;
  nomad = some (record { address = "http://localhost:4646"; tls = none });
  validators = [];
  mutators = [];
  telemetry = some (record {
    logging = some (record {
      level = "info";
      slog_logging = some (record {
        text = some true;
        text_out = some "stdout";
        json = some false;
        json_out = some "stdout";
      });
      otel_logging = some (record { enabled = some false });
    });
    metrics = some (record { enabled = false });
    tracing = some (record { enabled = false });
  });
  opa_sdk = none;
}

-- `setNotationDefaults`
unfoldable pub set_notation_defaults : Option NotationVerifierConfig → Option NotationVerifierConfig
set_notation_defaults none = none
set_notation_defaults (some n) =
    some (if is_zero n.max_sig_attempts then record n { max_sig_attempts = pos 50 } else n)

set_rule_defaults : Option OpaRule → Option OpaRule
set_rule_defaults none = none
set_rule_defaults (some rule) =
    some (record rule { notation = set_notation_defaults rule.notation })

validator_defaults : Validator → Validator
validator_defaults v = record v {
  notation = set_notation_defaults v.notation;
  opa_rule = set_rule_defaults v.opa_rule;
}

mutator_defaults : Mutator → Mutator
mutator_defaults m = record m { opa_rule = set_rule_defaults m.opa_rule }

-- The two loops of `LoadConfig`.
unfoldable pub set_defaults : Config → Config
unfolding set_rule_defaults validator_defaults mutator_defaults
set_defaults c = record c {
  validators = map validator_defaults c.validators;
  mutators = map mutator_defaults c.mutators;
}

-- `c.Telemetry.Logging.SlogLogging`, which panics where one of the pointers is nil.
abbrev pub slog_of : Config → Option SlogLogging
slog_of c = elim c.telemetry [
  | none ↦ none
  | some t ↦ elim t.logging [ none ↦ none | some l ↦ l.slog_logging ]
]

-- `slices.Contains(validOuts, out)`, of a pointer that is dereferenced.
unfoldable pub check_out : String → Option String → Built Unit
check_out what none = panicked nil_dereference
check_out what (some out) =
    if out == "stdout" || out == "stderr"
    then returns (ok tt)
    else returns (err (message ("invalid slog " <> what <> " output: " <> out)))

-- The test of both outputs.
unfoldable pub check_outs : Option SlogLogging → Built Unit
unfolding check_out
check_outs none = panicked nil_dereference
check_outs (some s) = check_out "text" s.text_out and_on λ u. check_out "json" s.json_out

abbrev pub unless : Option GoError → Config → Result Config
unless none c = ok c
unless (some e) c = err e

module _ (L : UrlLibrary) (decode_file : String → Config → Result Config) where
  -- `LoadConfig`
  unfoldable pub load_config : String → Built Config
  unfolding check_outs
  load_config name = returns (decode_file name default_config) and_on λ decoded.
      check_outs (slog_of (set_defaults decoded)) and_on λ u.
      returns (unless (validate L (some (set_defaults decoded))) (set_defaults decoded))
