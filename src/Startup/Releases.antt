-- ===== src/Startup/Releases.antt =====
-- What `run` acquires it lets go (cmd/nacp/nacp.go).
use nacp.Common.{
  refl, ap, ◌∙◌, Bool, ◌||◌, Option, none, some, List, [], ◌∷◌, ◌++◌, Option-cases, Bool-cases, inl,
  inr,
}
use nacp.GoError.{IsJoining, ok, err}
use nacp.Config.{Config, OpaSdk}
use nacp.Mutator.OpaBundle.{OpaSdkClient}
use nacp.Effects.{
  signals_restored, Resource, Event, Called, opa_engine, same, held, held-append, IsBalanced,
  append-IsBalanced, stopped,
}
use nacp.Telemetry.{set_up_otel_sdk, shutdown, Setup}
use nacp.Telemetry.Laws.{enabled, first_failure, HasMade, HasFailed, Sets, set_up_otel_sdk-Sets}
use nacp.Logging.{logging_of, new_logger_factory_from_config}
use nacp.Startup.{Server, Built, panicked, returns, build_server}
use nacp.Startup.Steps.{opa_starts, opa_stops, set_up_opa_sdk-cases, set_up_opa_sdk_of_HasOpa}
use nacp.Startup.Run.{
  Served, stopped_with, signalled, Machine, otel_flags, key_files, await_server, serve_built,
  run_server, run_opa, shutdown_list, with_telemetry, run_telemetry, run,
}

module _ {J R S : Type 0} (M : Machine J R S) where
  await_server-IsBalanced : (s : Served) → IsBalanced (await_server M s).events
  unfolding await_server
  await_server-IsBalanced (stopped_with e) h = refl
  await_server-IsBalanced (signalled none) h = refl
  await_server-IsBalanced (signalled (some e)) h = refl

  serve_built-IsBalanced :
      (c : Config) (b : Built (Server J)) → IsBalanced (serve_built M c b).events
  unfolding serve_built
  serve_built-IsBalanced c (panicked e) h = refl
  serve_built-IsBalanced c (returns (err e)) h = refl
  serve_built-IsBalanced c (returns (ok server)) h =
      await_server-IsBalanced (M.serve (key_files c) server) h

  run_server-IsBalanced :
      (c : Config) (sdk : Option (OpaSdkClient J)) → IsBalanced (run_server M c sdk).events
  unfolding run_server
  run_server-IsBalanced c sdk = serve_built-IsBalanced c (build_server M.network c sdk)

  opa_starts_stops :
      (o : Option OpaSdk) (es : List Event)
      → IsBalanced es
      → IsBalanced (opa_starts M o ++ (es ++ opa_stops M o))
  unfolding same
  opa_starts_stops none es b h = append-IsBalanced es [] b (λ k. refl) h
  opa_starts_stops (some c) es b h =
      held-append es (stopped opa_engine ∷ []) (opa_engine ∷ h) (opa_engine ∷ h)
        (b (opa_engine ∷ h))

  run_opa-IsBalanced : (c : Config) → IsBalanced (run_opa M c).events
  unfolding run_opa
  run_opa-IsBalanced c = elim (set_up_opa_sdk-cases M c.opa_sdk) [
    | inl (e, es, x, balanced) ↦ rw (x, run_opa) balanced
    | inr (sdk, has) ↦
        rw (set_up_opa_sdk_of_HasOpa M c.opa_sdk sdk has, run_opa)
          (opa_starts_stops c.opa_sdk (run_server M c sdk).events (run_server-IsBalanced c sdk))
  ]

  with_telemetry_of_HasFailed :
      (c : Config) (s : Called Setup)
      → HasFailed M.telemetry s
      → IsBalanced (with_telemetry M c s).events
  unfolding with_telemetry
  with_telemetry_of_HasFailed c s ((e, failed), balanced, _) = rw (failed, with_telemetry) balanced

  with_telemetry_of_HasMade :
      (c : Config) (rs : List Resource) (s : Called Setup)
      → HasMade M.telemetry rs s
      → IsBalanced (with_telemetry M c s).events
  unfolding with_telemetry
  with_telemetry_of_HasMade c rs s (made, _, runs, _) =
      rw (made, with_telemetry)
        λ h.
          let (k, starts, stops) = runs h in
          let rest = run_opa M c in
          held-append (s.events ++ rest.events) _ h k
            (held-append s.events rest.events h k starts ∙ run_opa-IsBalanced c k)
          ∙ ap (λ r. held k (shutdown M.telemetry (shutdown_list r)).events) made
          ∙ stops

  with_telemetry-IsBalanced :
      IsJoining M.telemetry.errors
      → (c : Config) (l m t : Bool)
      → IsBalanced (with_telemetry M c (set_up_otel_sdk M.telemetry l m t)).events
  with_telemetry-IsBalanced joining c l m t =
      let sets = set_up_otel_sdk-Sets M.telemetry joining l m t in
      elim (Option-cases (first_failure M.telemetry (enabled l m t))) [
        | inr (e, x) ↦ with_telemetry_of_HasFailed c _ (rw (x, Sets) at sets)
        | inl x ↦ with_telemetry_of_HasMade c (enabled l m t) _ (rw (x, Sets) at sets)
      ]

  run_telemetry-IsBalanced :
      IsJoining M.telemetry.errors
      → (c : Config) (flags : Option (Bool × Bool × Bool))
      → IsBalanced (run_telemetry M c flags).events
  unfolding run_telemetry
  run_telemetry-IsBalanced joining c none = λ h. refl
  run_telemetry-IsBalanced joining c (some (l, m, t)) = elim (Bool-cases (l || m || t)) [
    | inl x ↦ rw (x, run_telemetry) (with_telemetry-IsBalanced joining c l m t)
    | inr x ↦ rw (x, run_telemetry) (run_opa-IsBalanced c)
  ]

  -- With `errors.Join` as its documentation says:
  -- whatever fails on the way, be it the loggers, an exporter of telemetry, OPA or its configuration
  -- file, an instrument, the server, or a shutdown function, `run` lets go of each provider, of the file and of OPA
  -- exactly once after it has acquired it, and of nothing that it does not hold.
  pub run-IsBalanced : IsJoining M.telemetry.errors → (c : Config) → IsBalanced (run M c).events
  unfolding run
  run-IsBalanced joining c =
      elim (Option-cases (new_logger_factory_from_config M.to_upper (logging_of c))) [
        | inl x ↦ rw (x, run) (λ h. refl)
        | inr (f, x) ↦
            rw (x, run)
              (append-IsBalanced (run_telemetry M c (otel_flags c)).events (signals_restored ∷ [])
                (run_telemetry-IsBalanced joining c (otel_flags c)) (λ h. refl))
      ]
