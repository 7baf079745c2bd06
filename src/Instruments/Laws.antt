-- ===== src/Instruments/Laws.antt =====
-- The instruments against their registry, pkg/o11y/nacp.yaml.
use nacp.Common.{ℕ, String, ◌<>◌, ◌≡◌, refl, ◌↔◌, none, Option-cases, inl, inr}
use nacp.GoError.{ok, >>=-eq-ok, ◌>>=◌}
use nacp.Admission.{
  Counter, Metric, validator_warning, validator_error, mutator_warning, mutator_error,
  mutator_mutation,
}
use nacp.Instruments.{
  Float64Counter, Meter, Measurement, Metrics, float64_counter, new_nacp_validator_warning_count,
  new_nacp_validator_error_count, new_nacp_mutator_warning_count, new_nacp_mutator_error_count,
  new_nacp_mutator_mutation_count, new_metrics, recorded,
}

-- Which controllers a counter is about, what it counts, and what it calls that.
abbrev subject : Counter → String
subject validator_warning = "validator"
subject validator_error = "validator"
subject mutator_warning = "mutator"
subject mutator_error = "mutator"
subject mutator_mutation = "mutator"

abbrev topic : Counter → String
topic validator_warning = "warning"
topic validator_error = "error"
topic mutator_warning = "warning"
topic mutator_error = "error"
topic mutator_mutation = "mutation"

abbrev plural : Counter → String
plural validator_warning = "validation warnings"
plural validator_error = "validation errors"
plural mutator_warning = "mutation warnings"
plural mutator_error = "mutation errors"
plural mutator_mutation = "mutations"

abbrev singular : Counter → String
singular validator_warning = "validation_warning"
singular validator_error = "validation_error"
singular mutator_warning = "mutation_warning"
singular mutator_error = "mutation_error"
singular mutator_mutation = "mutation"

-- The entry of the registry.
abbrev pub registered : Counter → Float64Counter
registered c = record {
  name = "nacp." <> subject c <> "." <> topic c <> ".count";
  description = "Count of all " <> plural c <> " produced by the NACP.";
  unit = "{" <> singular c <> "}";
}

-- What an event is to record: it has the name of the controller as its attribute.
abbrev pub measurement : Metric → Measurement
measurement e = record {
  counter = registered e.counter;
  increment = e.increment;
  key = subject e.counter <> ".name";
  value = e.controller;
}

abbrev instruments : Metrics
instruments = record {
  validator_warning_count = record { inst = registered validator_warning };
  validator_error_count = record { inst = registered validator_error };
  mutator_warning_count = record { inst = registered mutator_warning };
  mutator_error_count = record { inst = registered mutator_error };
  mutator_mutation_count = record { inst = registered mutator_mutation };
}

-- A meter that takes all of them.
abbrev pub Accepts : Meter → Type 0
Accepts m = (c : Counter) → m.refusal (registered c) ≡ none

made_of_accepted :
    (m : Meter) (c : Float64Counter) → m.refusal c ≡ none → float64_counter m c ≡ ok c
made_of_accepted m c fine = rw (fine, float64_counter) refl

new_metrics_of_Accepts : (m : Meter) → Accepts m → new_metrics m ≡ ok instruments
unfolding new_metrics new_nacp_validator_warning_count new_nacp_validator_error_count
    new_nacp_mutator_warning_count new_nacp_mutator_error_count new_nacp_mutator_mutation_count
new_metrics_of_Accepts m a =
    rw
      (
        made_of_accepted m (registered validator_warning) (a validator_warning),
        made_of_accepted m (registered validator_error) (a validator_error),
        made_of_accepted m (registered mutator_warning) (a mutator_warning),
        made_of_accepted m (registered mutator_error) (a mutator_error),
        made_of_accepted m (registered mutator_mutation) (a mutator_mutation),
        new_metrics,
        new_nacp_validator_warning_count,
        new_nacp_validator_error_count,
        new_nacp_mutator_warning_count,
        new_nacp_mutator_error_count,
        new_nacp_mutator_mutation_count,
      )
      refl

accepted :
    {A : Type 0} (m : Meter) (c : Float64Counter) (f : Float64Counter → A) {a : A}
    → (float64_counter m c >>= λ i. ok (f i)) ≡ ok a
    → m.refusal c ≡ none
accepted m c f h = elim (Option-cases (m.refusal c)) [
  | inl fine ↦ fine
  | inr (x, refused) ↦ absurd (cc (rw (refused, float64_counter) at h))
]

Accepts-new_metrics : (m : Meter) (made : Metrics) → new_metrics m ≡ ok made → Accepts m
unfolding new_metrics new_nacp_validator_warning_count new_nacp_validator_error_count
    new_nacp_mutator_warning_count new_nacp_mutator_error_count new_nacp_mutator_mutation_count
Accepts-new_metrics m made h =
    let (a, a', h₁) = >>=-eq-ok (new_nacp_validator_warning_count m) _ h in
    let (b, b', h₂) = >>=-eq-ok (new_nacp_validator_error_count m) _ h₁ in
    let (c, c', h₃) = >>=-eq-ok (new_nacp_mutator_warning_count m) _ h₂ in
    let (d, d', h₄) = >>=-eq-ok (new_nacp_mutator_error_count m) _ h₃ in
    let (e, e', _) = >>=-eq-ok (new_nacp_mutator_mutation_count m) _ h₄ in
    λ counter. elim counter as (λ k. m.refusal (registered k) ≡ none) [
      | validator_warning ↦ accepted m (registered validator_warning) (λ i. record { inst = i }) a'
      | validator_error ↦ accepted m (registered validator_error) (λ i. record { inst = i }) b'
      | mutator_warning ↦ accepted m (registered mutator_warning) (λ i. record { inst = i }) c'
      | mutator_error ↦ accepted m (registered mutator_error) (λ i. record { inst = i }) d'
      | mutator_mutation ↦ accepted m (registered mutator_mutation) (λ i. record { inst = i }) e'
    ]

instruments_record :
    (c : Counter) (n : ℕ) (name : String)
    → let e : Metric = record { counter = c; increment = n; controller = name } in
      recorded instruments e ≡ measurement e
instruments_record validator_warning n name = refl
instruments_record validator_error n name = refl
instruments_record mutator_warning n name = refl
instruments_record mutator_error n name = refl
instruments_record mutator_mutation n name = refl

-- `newMetrics` returns exactly if the meter takes the five counters of the registry, and panics
-- otherwise. Then each event of the admission controller is recorded on the counter that the registry
-- has for it, by its name, description and unit, with the attribute that the registry asks for.
pub new_metrics-records :
    (m : Meter)
    → (((made : Metrics) × (new_metrics m ≡ ok made)) ↔ Accepts m)
      × ((made : Metrics) (e : Metric) → new_metrics m ≡ ok made → recorded made e ≡ measurement e)
new_metrics-records m = (
  (λ (made, h). Accepts-new_metrics m made h, λ a. (instruments, new_metrics_of_Accepts m a)),
  λ made e h.
      let same : instruments ≡ made =
        cc (new_metrics_of_Accepts m (Accepts-new_metrics m made h), h) in
      rw (← same) (instruments_record e.counter e.increment e.controller),
)
