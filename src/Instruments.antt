-- ===== src/Instruments.antt =====
-- pkg/o11y/metric.go: the instruments, one for each counter of the admission controller, and
-- `newMetrics` of pkg/admissionctrl/controller.go. An increment is a natural number: the program only
-- adds one, and lengths.
pub mod Laws
use nacp.Common.{ℕ, String, Option, none, some}
use nacp.GoError.{GoError, Result, ok, err, ◌>>=◌}
use nacp.Admission.{
  Metric, validator_warning, validator_error, mutator_warning, mutator_error, mutator_mutation,
}

-- `metric.Float64Counter`, with what it was made of.
pub record Float64Counter : Type 0 where
  pub name : String
  pub description : String
  pub unit : String

-- `metric.Meter`: the error of `Float64Counter`.
pub record Meter : Type 0 where
  pub refusal : Float64Counter → Option GoError

abbrev float64_counter : Meter → Float64Counter → Result Float64Counter
float64_counter m c = elim (m.refusal c) [ none ↦ ok c | some e ↦ err e ]

-- One call of `Add` of an instrument: its attribute has a key and a value.
pub record Measurement : Type 0 where
  pub counter : Float64Counter
  pub increment : ℕ
  pub key : String
  pub value : String

pub record NacpValidatorErrorCount : Type 0 where
  pub inst : Float64Counter

-- `NewNacpValidatorErrorCount`
unfoldable pub new_nacp_validator_error_count : Meter → Result NacpValidatorErrorCount
new_nacp_validator_error_count m =
    float64_counter m (record {
      name = "nacp.validator.error.count";
      description = "Count of all validation errors produced by the NACP.";
      unit = "{validation_error}";
    })
    >>= λ i. ok (record { inst = i })

-- `NacpValidatorErrorCount.Add`
abbrev pub add_validator_error_count : NacpValidatorErrorCount → ℕ → String → Measurement
add_validator_error_count m inc validator_name = record {
  counter = m.inst;
  increment = inc;
  key = "validator.name";
  value = validator_name;
}

pub record NacpValidatorWarningCount : Type 0 where
  pub inst : Float64Counter

-- `NewNacpValidatorWarningCount`
unfoldable pub new_nacp_validator_warning_count : Meter → Result NacpValidatorWarningCount
new_nacp_validator_warning_count m =
    float64_counter m (record {
      name = "nacp.validator.warning.count";
      description = "Count of all validation warnings produced by the NACP.";
      unit = "{validation_warning}";
    })
    >>= λ i. ok (record { inst = i })

-- `NacpValidatorWarningCount.Add`
abbrev pub add_validator_warning_count : NacpValidatorWarningCount → ℕ → String → Measurement
add_validator_warning_count m inc validator_name = record {
  counter = m.inst;
  increment = inc;
  key = "validator.name";
  value = validator_name;
}

pub record NacpMutatorErrorCount : Type 0 where
  pub inst : Float64Counter

-- `NewNacpMutatorErrorCount`
unfoldable pub new_nacp_mutator_error_count : Meter → Result NacpMutatorErrorCount
new_nacp_mutator_error_count m =
    float64_counter m (record {
      name = "nacp.mutator.error.count";
      description = "Count of all mutation errors produced by the NACP.";
      unit = "{mutation_error}";
    })
    >>= λ i. ok (record { inst = i })

-- `NacpMutatorErrorCount.Add`
abbrev pub add_mutator_error_count : NacpMutatorErrorCount → ℕ → String → Measurement
add_mutator_error_count m inc mutator_name = record {
  counter = m.inst;
  increment = inc;
  key = "mutator.name";
  value = mutator_name;
}

pub record NacpMutatorWarningCount : Type 0 where
  pub inst : Float64Counter

-- `NewNacpMutatorWarningCount`
unfoldable pub new_nacp_mutator_warning_count : Meter → Result NacpMutatorWarningCount
new_nacp_mutator_warning_count m =
    float64_counter m (record {
      name = "nacp.mutator.warning.count";
      description = "Count of all mutation warnings produced by the NACP.";
      unit = "{mutation_warning}";
    })
    >>= λ i. ok (record { inst = i })

-- `NacpMutatorWarningCount.Add`
abbrev pub add_mutator_warning_count : NacpMutatorWarningCount → ℕ → String → Measurement
add_mutator_warning_count m inc mutator_name = record {
  counter = m.inst;
  increment = inc;
  key = "mutator.name";
  value = mutator_name;
}

pub record NacpMutatorMutationCount : Type 0 where
  pub inst : Float64Counter

-- `NewNacpMutatorMutationCount`
unfoldable pub new_nacp_mutator_mutation_count : Meter → Result NacpMutatorMutationCount
new_nacp_mutator_mutation_count m =
    float64_counter m (record {
      name = "nacp.mutator.mutation.count";
      description = "Count of all mutations produced by the NACP.";
      unit = "{mutation}";
    })
    >>= λ i. ok (record { inst = i })

-- `NacpMutatorMutationCount.Add`
abbrev pub add_mutator_mutation_count : NacpMutatorMutationCount → ℕ → String → Measurement
add_mutator_mutation_count m inc mutator_name = record {
  counter = m.inst;
  increment = inc;
  key = "mutator.name";
  value = mutator_name;
}

-- `Metrics`
pub record Metrics : Type 0 where
  pub validator_warning_count : NacpValidatorWarningCount
  pub validator_error_count : NacpValidatorErrorCount
  pub mutator_warning_count : NacpMutatorWarningCount
  pub mutator_error_count : NacpMutatorErrorCount
  pub mutator_mutation_count : NacpMutatorMutationCount

-- `newMetrics`, with the error that it panics with.
unfoldable pub new_metrics : Meter → Result Metrics
new_metrics m = new_nacp_validator_warning_count m >>= λ validator_warnings.
    new_nacp_validator_error_count m >>= λ validator_errors.
    new_nacp_mutator_warning_count m >>= λ mutator_warnings.
    new_nacp_mutator_error_count m >>= λ mutator_errors.
    new_nacp_mutator_mutation_count m >>= λ mutations. ok (record {
      validator_warning_count = validator_warnings;
      validator_error_count = validator_errors;
      mutator_warning_count = mutator_warnings;
      mutator_error_count = mutator_errors;
      mutator_mutation_count = mutations;
    })

-- The call of `Add` that an event of the admission controller is.
abbrev pub recorded : Metrics → Metric → Measurement
recorded m e = elim e.counter [
  | validator_warning ↦
      add_validator_warning_count m.validator_warning_count e.increment e.controller
  | validator_error ↦ add_validator_error_count m.validator_error_count e.increment e.controller
  | mutator_warning ↦ add_mutator_warning_count m.mutator_warning_count e.increment e.controller
  | mutator_error ↦ add_mutator_error_count m.mutator_error_count e.increment e.controller
  | mutator_mutation ↦ add_mutator_mutation_count m.mutator_mutation_count e.increment e.controller
]
