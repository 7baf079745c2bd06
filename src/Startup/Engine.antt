-- ===== src/Startup/Engine.antt =====
-- cmd/nacp/nacp.go: the OPA SDK that `run` starts. Log lines are left out.
use nacp.Common.{String, Option, none, some, [], ◌∷◌}
use nacp.GoError.{GoError, wrap, Result, ok, err}
use nacp.Config.{OpaSdk}
use nacp.Mutator.OpaBundle.{OpaSdkClient}
use nacp.Effects.{opa_config, opa_engine, started, stopped, Called, done, behind, deferring}

-- The OPA SDK and the files that configure it.
pub record OpaEngine (J : Type 0) : Type 0 where
  -- The error of `os.Open`.
  pub open_error : String → Option GoError
  -- `sdk.New`
  pub new_opa : OpaSdk → Result (OpaSdkClient J)
  -- Which comes first: none if the SDK is ready, or the error of the context that has ended.
  pub awaited : Option GoError

module _ {J : Type 0} (E : OpaEngine J) where
  -- `buildOpaSdkWithTimeout`, behind `os.Open`.
  unfoldable pub await_opa : OpaSdk → Called (Result (OpaSdkClient J))
  await_opa c = elim (E.new_opa c) [
    | err e ↦ done (err (wrap "failed to create OPA SDK" e))
    | ok opa ↦ elim E.awaited [
      | none ↦ behind (started opa_engine ∷ []) (done (ok opa))
      | some e ↦
          behind (started opa_engine ∷ stopped opa_engine ∷ [])
            (done (err (wrap "OPA SDK did not become ready in time" e)))
    ]
  ]

  -- `buildOpaSdkWithTimeout`: the file is closed, by a deferred call, however the function returns.
  unfoldable pub build_opa_sdk : OpaSdk → Called (Result (OpaSdkClient J))
  unfolding await_opa
  build_opa_sdk c = elim (E.open_error c.config_path) [
    | some e ↦ done (err e)
    | none ↦ behind (started opa_config ∷ []) (deferring (await_opa c) (stopped opa_config ∷ []))
  ]
