-- ===== src/Telemetry/Laws.antt =====
-- What the set-up of telemetry leaves running (pkg/otel/otel.go).
use nacp.Common.{
  ◌≡◌, refl, Bool, true, false, Option, none, some, List, [], ◌∷◌, ◌++◌, Option-cases, inl, inr,
}
use nacp.GoError.{GoError, Joiner, IsJoining}
use nacp.Effects.{
  Resource, tracer_provider, meter_provider, logger_provider, same, held, applications, Called,
}
use nacp.Telemetry.{
  TelemetryLibrary, Setup, set_up_otel_sdk, set_up_provider, handle_err, shutdown, apply_providers,
}

abbrev pick : Bool → Resource → List Resource
pick true r = r ∷ []
pick false r = []

-- The providers that are asked for, in the order in which they are made.
abbrev pub enabled : Bool → Bool → Bool → List Resource
enabled logging metrics tracing =
    pick tracing tracer_provider ++ pick metrics meter_provider ++ pick logging logger_provider

join_of_some :
    (E : Joiner)
    → IsJoining E
    → (e : GoError) (f : Option GoError) → (g : GoError) × (E.join (some e) f ≡ some g)
join_of_some E joining e f = elim (Option-cases (E.join (some e) f)) [
  | inl nothing ↦ absurd (cc ((joining.join-eq-none (some e) f).0 nothing).0)
  | inr found ↦ found
]

module _ (L : TelemetryLibrary) where
  -- The first of the providers whose exporter cannot be made.
  abbrev pub first_failure : List Resource → Option GoError
  first_failure [] = none
  first_failure (r ∷ rs) =
      let rest = first_failure rs in elim (L.exporter_error r) [ some e ↦ some e | none ↦ rest ]

  -- The set-up has failed: it returns an error, nothing that it started runs, and no provider is in use.
  abbrev pub HasFailed : Called Setup → Type 0
  HasFailed s =
      ((e : GoError) × (s.result ≡ record { shutdown_funcs = none; error = some e }))
      × ((h : List Resource) → held h s.events ≡ some h)
      × (applications s.events ≡ [])

  -- The set-up has made the providers `rs`: they are in use, its shutdown function stops them, each
  -- once, and nothing else runs.
  abbrev pub HasMade : List Resource → Called Setup → Type 0
  HasMade rs s =
      (s.result ≡ record { shutdown_funcs = some rs; error = none })
      × (applications s.events ≡ rs)
      × ((h : List Resource)
          → (k : List Resource) × (held h s.events ≡ some k)
            × (held k (shutdown L rs).events ≡ some h))
      × ((shutdown L rs).shutdown_funcs ≡ [])

  abbrev pub Sets : List Resource → Called Setup → Type 0
  Sets rs s = elim (first_failure rs) [ some e ↦ HasFailed s | none ↦ HasMade rs s ]

  module _ (joining : IsJoining L.errors) where
    -- By the providers that are asked for and the exporters that cannot be made.
    sets :
        (t : Bool) (a : Option GoError) (m : Bool) (b : Option GoError) (l : Bool)
        (c : Option GoError)
        → L.exporter_error tracer_provider ≡ a
        → L.exporter_error meter_provider ≡ b
        → L.exporter_error logger_provider ≡ c
        → Sets (enabled l m t) (set_up_otel_sdk L l m t)
    unfolding set_up_otel_sdk set_up_provider handle_err shutdown apply_providers same
    sets true (some e) m b l c p q r =
        let (f, joined) = join_of_some L.errors joining e (shutdown L ([])).error in
        rw p (rw (p, set_up_otel_sdk, set_up_provider) ((f, rw joined), λ h. refl, refl))
    sets true none true (some e) l c p q r =
        let (f, joined) =
          join_of_some L.errors joining e (shutdown L (tracer_provider ∷ [])).error in
        rw (p, q) (rw (p, q, set_up_otel_sdk, set_up_provider) ((f, rw joined), λ h. refl, refl))
    sets false a true (some e) l c p q r =
        let (f, joined) = join_of_some L.errors joining e (shutdown L ([])).error in
        rw q (rw (q, set_up_otel_sdk, set_up_provider) ((f, rw joined), λ h. refl, refl))
    sets true none true none true (some e) p q r =
        let (f, joined) =
          join_of_some L.errors joining e
            (shutdown L (tracer_provider ∷ meter_provider ∷ [])).error in
        rw (p, q, r)
          (rw (p, q, r, set_up_otel_sdk, set_up_provider) ((f, rw joined), λ h. refl, refl))
    sets true none false b true (some e) p q r =
        let (f, joined) =
          join_of_some L.errors joining e (shutdown L (tracer_provider ∷ [])).error in
        rw (p, r) (rw (p, r, set_up_otel_sdk, set_up_provider) ((f, rw joined), λ h. refl, refl))
    sets false a true none true (some e) p q r =
        let (f, joined) =
          join_of_some L.errors joining e (shutdown L (meter_provider ∷ [])).error in
        rw (q, r) (rw (q, r, set_up_otel_sdk, set_up_provider) ((f, rw joined), λ h. refl, refl))
    sets false a false b true (some e) p q r =
        let (f, joined) = join_of_some L.errors joining e (shutdown L ([])).error in
        rw r (rw (r, set_up_otel_sdk, set_up_provider) ((f, rw joined), λ h. refl, refl))
    sets true none true none true none p q r =
        rw (p, q, r)
          (rw (p, q, r, set_up_otel_sdk, set_up_provider) (refl, refl, λ h. (_, refl, refl), refl))
    sets true none true none false c p q r =
        rw (p, q)
          (rw (p, q, set_up_otel_sdk, set_up_provider) (refl, refl, λ h. (_, refl, refl), refl))
    sets true none false b true none p q r =
        rw (p, r)
          (rw (p, r, set_up_otel_sdk, set_up_provider) (refl, refl, λ h. (_, refl, refl), refl))
    sets true none false b false c p q r =
        rw p (rw (p, set_up_otel_sdk, set_up_provider) (refl, refl, λ h. (_, refl, refl), refl))
    sets false a true none true none p q r =
        rw (q, r)
          (rw (q, r, set_up_otel_sdk, set_up_provider) (refl, refl, λ h. (_, refl, refl), refl))
    sets false a true none false c p q r =
        rw q (rw (q, set_up_otel_sdk, set_up_provider) (refl, refl, λ h. (_, refl, refl), refl))
    sets false a false b true none p q r =
        rw r (rw (r, set_up_otel_sdk, set_up_provider) (refl, refl, λ h. (_, refl, refl), refl))
    sets false a false b false c p q r = (refl, refl, λ h. (_, refl, refl), refl)

    -- With `errors.Join` as its documentation says:
    -- the set-up makes the providers of tracing, metrics and logging that are asked for, in this order.
    -- If no exporter fails, it puts exactly these in use and returns a function that shuts each of
    -- them down once and is then empty; nothing else is left running. If an exporter cannot be made,
    -- it returns an error, has shut down each provider that it had started, once, and puts none in use.
    pub set_up_otel_sdk-Sets :
        (logging metrics tracing : Bool)
        → Sets (enabled logging metrics tracing) (set_up_otel_sdk L logging metrics tracing)
    set_up_otel_sdk-Sets l m t = sets t _ m _ l _ refl refl refl
