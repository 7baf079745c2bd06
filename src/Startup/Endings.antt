-- ===== src/Startup/Endings.antt =====
-- When `run` returns nil (cmd/nacp/nacp.go).
use nacp.Common.{
  String, arith, List, ◌≡◌, refl, ◌↔◌, Bool, true, false, Option, none, some, Option-cases, inl,
  inr, if◌then◌else◌,
}
use nacp.GoError.{GoError, IsJoining, Result, ok, err}
use nacp.Config.{Config}
use nacp.Mutator.OpaBundle.{OpaSdkClient}
use nacp.Effects.{Called, Resource}
use nacp.Telemetry.{set_up_otel_sdk, Setup}
use nacp.Telemetry.Laws.{enabled, first_failure, HasMade, HasFailed, Sets, set_up_otel_sdk-Sets}
use nacp.Logging.{LoggerFactory, Leveler, logging_of, new_logger_factory_from_config}
use nacp.Startup.{build_config, Server, Built, panicked, returns, build_server}
use nacp.Startup.Steps.{HasOpa, set_up_opa_sdk-cases, set_up_opa_sdk_of_HasOpa}
use nacp.Startup.Run.{
  Served, stopped_with, signalled, Machine, Exit, panics, exits, otel_flags, key_files,
  await_server, serve_built, run_server, run_opa, with_telemetry, run_telemetry, run, status_of,
  exit_status, main,
}

module _ {J R S : Type 0} (M : Machine J R S) where
  -- The server has been closed, or a signal has arrived and its shutdown has succeeded.
  abbrev pub HasServed : Served → Type 0
  HasServed (stopped_with e) = M.is_server_closed e ≡ true
  HasServed (signalled e) = e ≡ none

  abbrev pub Serves : Config → Option (OpaSdkClient J) → Type 0
  Serves c sdk =
      (server : Server J) × (build_server M.network c sdk ≡ returns (ok server))
      × HasServed (M.serve (key_files c) server)

  abbrev pub ServesWithOpa : Config → Type 0
  ServesWithOpa c = (sdk : Option (OpaSdkClient J)) × HasOpa M.engine c.opa_sdk sdk × Serves c sdk

  closes : (b : Bool) (e : GoError) → exits (if b then none else some e) ≡ exits none → b ≡ true
  closes true e h = refl
  closes false e h = absurd (cc h)

  await_server_iff : (s : Served) → ((await_server M s).result ≡ exits none) ↔ HasServed s
  unfolding await_server
  await_server_iff (stopped_with e) = (closes (M.is_server_closed e) e, λ h. rw h refl)
  await_server_iff (signalled none) = (λ h. refl, λ h. refl)
  await_server_iff (signalled (some e)) = (λ h. absurd (cc h), λ h. absurd (cc h))

  serve_built_iff :
      (c : Config) (b : Built (Server J))
      → ((serve_built M c b).result ≡ exits none) ↔ (
          (server : Server J) × (b ≡ returns (ok server))
          × HasServed (M.serve (key_files c) server))
  unfolding serve_built
  serve_built_iff c (panicked e) = (λ h. absurd (cc h), λ (server, made, _). absurd (cc made))
  serve_built_iff c (returns (err e)) = (λ h. absurd (cc h), λ (server, made, _). absurd (cc made))
  serve_built_iff c (returns (ok server)) = (
    λ h. (server, refl, (await_server_iff (M.serve (key_files c) server)).0 h),
    λ (other, made, fine).
        let same : server ≡ other = cc made in
        (await_server_iff (M.serve (key_files c) server)).1 (rw same fine),
  )

  run_server_iff :
      (c : Config) (sdk : Option (OpaSdkClient J))
      → ((run_server M c sdk).result ≡ exits none) ↔ Serves c sdk
  unfolding run_server
  run_server_iff c sdk = serve_built_iff c (build_server M.network c sdk)

  run_opa_iff : (c : Config) → ((run_opa M c).result ≡ exits none) ↔ ServesWithOpa c
  unfolding run_opa
  run_opa_iff c = (
    λ h. elim (set_up_opa_sdk-cases M c.opa_sdk) [
      | inl (e, es, x, _) ↦ absurd (cc (rw (x, run_opa) at h))
      | inr (sdk, has) ↦ (
        sdk,
        has,
        (run_server_iff c sdk).0 (rw (set_up_opa_sdk_of_HasOpa M c.opa_sdk sdk has, run_opa) at h),
      )
    ],
    λ (sdk, has, serves).
        rw (set_up_opa_sdk_of_HasOpa M c.opa_sdk sdk has, run_opa)
          ((run_server_iff c sdk).1 serves),
  )

  abbrev Exits : Config → Called Setup → Type 0
  Exits c s = (with_telemetry M c s).exit ≡ exits none

  with_telemetry_of_HasFailed :
      (c : Config) (s : Called Setup) → HasFailed M.telemetry s → ¬ Exits c s
  unfolding with_telemetry
  with_telemetry_of_HasFailed c s ((e, failed), _, _) h = cc (rw (failed, with_telemetry) at h)

  with_telemetry_of_HasMade :
      (c : Config) (rs : List Resource) (s : Called Setup)
      → HasMade M.telemetry rs s
      → (with_telemetry M c s).exit ≡ (run_opa M c).result
  unfolding with_telemetry
  with_telemetry_of_HasMade c rs s (made, _, _, _) = rw (made, with_telemetry) refl

  module _ (joining : IsJoining M.telemetry.errors) where
    with_telemetry_iff :
        (c : Config) (l m t : Bool)
        → Exits c (set_up_otel_sdk M.telemetry l m t)
          ↔ ((first_failure M.telemetry (enabled l m t) ≡ none) × ServesWithOpa c)
    with_telemetry_iff c l m t =
        let s = set_up_otel_sdk M.telemetry l m t in
        let sets = set_up_otel_sdk-Sets M.telemetry joining l m t in
        elim (Option-cases (first_failure M.telemetry (enabled l m t))) [
          | inr (e, x) ↦ (
            λ h. absurd (with_telemetry_of_HasFailed c s (rw (x, Sets) at sets) h),
            λ (fine, _). absurd (cc (fine, x)),
          )
          | inl x ↦
              let same = with_telemetry_of_HasMade c (enabled l m t) s (rw (x, Sets) at sets) in
              (λ h. (x, (run_opa_iff c).0 (rw same at h)), λ (_, w). rw same ((run_opa_iff c).1 w))
        ]

    -- Without an enabled provider nothing can fail.
    run_telemetry_iff :
        (c : Config) (l m t : Bool)
        → ((run_telemetry M c (some (l, m, t))).exit ≡ exits none)
          ↔ ((first_failure M.telemetry (enabled l m t) ≡ none) × ServesWithOpa c)
    unfolding run_telemetry
    run_telemetry_iff c false false false =
        (λ h. (refl, (run_opa_iff c).0 h), λ (_, w). (run_opa_iff c).1 w)
    run_telemetry_iff c true m t = with_telemetry_iff c true m t
    run_telemetry_iff c false true t = with_telemetry_iff c false true t
    run_telemetry_iff c false false true = with_telemetry_iff c false false true

    abbrev pub Succeeds : Config → Type 0
    Succeeds c =
        (f : LoggerFactory × Leveler) × (new_logger_factory_from_config M.to_upper (logging_of c)
          ≡ some f)
        × (l : Bool) × (m : Bool) × (t : Bool) × (otel_flags c ≡ some (l, m, t))
        × (first_failure M.telemetry (enabled l m t) ≡ none)
        × ServesWithOpa c

    run_iff : (c : Config) → ((run M c).exit ≡ exits none) ↔ Succeeds c
    unfolding run run_telemetry
    run_iff c = (
      λ h. elim (Option-cases (new_logger_factory_from_config M.to_upper (logging_of c))) [
        | inl x ↦ absurd (cc (rw (x, run) at h))
        | inr (f, x) ↦ elim (Option-cases (otel_flags c)) [
          | inl y ↦ absurd (cc (rw (x, y, run, run_telemetry) at h))
          | inr ((l, m, t), y) ↦
              let (fine, served) = (run_telemetry_iff c l m t).0 (rw (x, y, run) at h) in
              (f, x, l, m, t, y, fine, served)
        ]
      ],
      λ (f, x, l, m, t, y, fine, served).
          rw (x, y, run) ((run_telemetry_iff c l m t).1 (fine, served)),
    )

    status_iff : (e : Exit) → (status_of e ≡ 0) ↔ (e ≡ exits none)
    status_iff panics = (λ h. absurd (omega (arith, h)), λ h. absurd (cc h))
    status_iff (exits none) = (λ h. refl, λ h. refl)
    status_iff (exits (some e)) = (λ h. absurd (omega (arith, h)), λ h. absurd (cc h))

    exit_status_iff :
        (b : Built Config)
        → (exit_status M b ≡ 0) ↔ ((c : Config) × (b ≡ returns (ok c)) × Succeeds c)
    unfolding exit_status
    exit_status_iff (panicked e) =
        (λ h. absurd (omega (arith, h)), λ (c, made, _). absurd (cc made))
    exit_status_iff (returns (err e)) =
        (λ h. absurd (omega (arith, h)), λ (c, made, _). absurd (cc made))
    exit_status_iff (returns (ok c)) = (
      λ h. (c, refl, (run_iff c).0 ((status_iff (run M c).exit).0 h)),
      λ (d, made, fine).
          let same : c ≡ d = cc made in
          rw same ((status_iff (run M d).exit).1 ((run_iff d).1 fine)),
    )

    -- With `errors.Join` as its documentation says:
    -- the process ends with status 0 exactly if its configuration can be built and is then run to a
    -- good end: the loggers can be made, no pointer to a telemetry block is nil, no exporter that is
    -- asked for fails, OPA is ready in time if it is configured, the server can be built, for which
    -- the meter takes the instruments of admission, and it is
    -- then closed, or a signal arrives and it shuts down without an error. What the shutdown
    -- functions of telemetry return has no part in this: their errors are lost.
    pub main_iff :
        (decode_file : String → Config → Result Config) (path : String)
        → (main M decode_file path ≡ 0) ↔ (
            (c : Config) × (build_config M.network.urls decode_file path ≡ returns (ok c))
            × Succeeds c)
    unfolding main
    main_iff decode_file path = exit_status_iff (build_config M.network.urls decode_file path)
