-- ===== src/Startup/Steps.antt =====
-- How the set-up of the OPA SDK returns (cmd/nacp/nacp.go).
use nacp.Common.{◌≡◌, refl, ◌⊎◌, inl, inr, Option, none, some, List, [], ◌∷◌, Option-cases}
use nacp.GoError.{GoError, wrap, ok, err, Result-cases}
use nacp.Config.{OpaSdk}
use nacp.Mutator.OpaBundle.{OpaSdkClient}
use nacp.Effects.{
  Event, returned, continues, opa_engine, opa_config, same, IsBalanced, started, stopped,
}
use nacp.Startup.Engine.{OpaEngine, await_opa, build_opa_sdk}
use nacp.Startup.Run.{Machine, exits, set_up_opa_sdk}

-- The SDK is made of its configuration file, and becomes ready in time.
abbrev pub IsReady : {J : Type 0} → OpaEngine J → OpaSdk → OpaSdkClient J → Type 0
IsReady E c opa = (E.open_error c.config_path ≡ none) × (E.new_opa c ≡ ok opa) × (E.awaited ≡ none)

-- The SDK of the configuration, if it has one.
abbrev pub HasOpa : {J : Type 0} → OpaEngine J → Option OpaSdk → Option (OpaSdkClient J) → Type 0
HasOpa E none sdk = sdk ≡ none
HasOpa {J = J} E (some c) sdk = (opa : OpaSdkClient J) × (sdk ≡ some opa) × IsReady E c opa

build_opa_sdk_of_ready :
    {J : Type 0} (E : OpaEngine J) (c : OpaSdk) (opa : OpaSdkClient J)
    → IsReady E c opa
    → build_opa_sdk E c ≡ record {
      events = started opa_config ∷ started opa_engine ∷ stopped opa_config ∷ [];
      result = ok opa;
    }
unfolding build_opa_sdk await_opa
build_opa_sdk_of_ready E c opa (x, y, z) = rw (x, y, z, build_opa_sdk, await_opa) refl

-- Nothing is left behind on an error, and otherwise the SDK is ready.
build_opa_sdk-cases :
    {J : Type 0} (E : OpaEngine J) (c : OpaSdk)
    → ((e : GoError) × (es : List Event) × (build_opa_sdk E c
          ≡ record { events = es; result = err e })
        × IsBalanced es)
      ⊎ ((opa : OpaSdkClient J) × IsReady E c opa)
unfolding build_opa_sdk await_opa same
build_opa_sdk-cases E c = elim (Option-cases (E.open_error c.config_path)) [
  | inr (e, x) ↦ inl (e, [], rw (x, build_opa_sdk) refl, λ h. refl)
  | inl x ↦ elim (Result-cases (E.new_opa c)) [
    | inl (e, y) ↦ inl (
      wrap "failed to create OPA SDK" e,
      started opa_config ∷ stopped opa_config ∷ [],
      rw (x, y, build_opa_sdk, await_opa) refl,
      λ h. refl,
    )
    | inr (opa, y) ↦ elim (Option-cases E.awaited) [
      | inl z ↦ inr (opa, (x, y, z))
      | inr (e, z) ↦ inl (
        wrap "OPA SDK did not become ready in time" e,
        started opa_config ∷ started opa_engine ∷ stopped opa_engine ∷ stopped opa_config ∷ [],
        rw (x, y, z, build_opa_sdk, await_opa) refl,
        λ h. refl,
      )
    ]
  ]
]

module _ {J R S : Type 0} (M : Machine J R S) where
  pub set_up_opa_sdk-fails :
      (c : OpaSdk) (e : GoError) (es : List Event)
      → build_opa_sdk M.engine c ≡ record { events = es; result = err e }
      → set_up_opa_sdk M (some c) ≡ record {
        events = es;
        progress = returned (exits (some (wrap "failed to build OPA SDK" e)));
      }
  unfolding set_up_opa_sdk
  set_up_opa_sdk-fails c e es x = rw x

  -- What runs once OPA is set up, and what its deferred call stops.
  abbrev pub opa_starts : Option OpaSdk → List Event
  opa_starts none = []
  opa_starts (some c) = started opa_config ∷ started opa_engine ∷ stopped opa_config ∷ []

  abbrev pub opa_stops : Option OpaSdk → List Event
  opa_stops none = []
  opa_stops (some c) = stopped opa_engine ∷ []

  pub set_up_opa_sdk_of_HasOpa :
      (o : Option OpaSdk) (sdk : Option (OpaSdkClient J))
      → HasOpa M.engine o sdk
      → set_up_opa_sdk M o
        ≡ record { events = opa_starts o; progress = continues (sdk, opa_stops o) }
  unfolding set_up_opa_sdk
  set_up_opa_sdk_of_HasOpa none sdk e = rw e
  set_up_opa_sdk_of_HasOpa (some c) sdk (opa, e, ready) =
      rw (e, build_opa_sdk_of_ready M.engine c opa ready)

  pub set_up_opa_sdk-cases :
      (o : Option OpaSdk)
      → ((e : GoError) × (es : List Event) × (set_up_opa_sdk M o
            ≡ record { events = es; progress = returned (exits (some e)) })
          × IsBalanced es)
        ⊎ ((sdk : Option (OpaSdkClient J)) × HasOpa M.engine o sdk)
  set_up_opa_sdk-cases none = inr (none, refl)
  set_up_opa_sdk-cases (some c) = elim (build_opa_sdk-cases M.engine c) [
    | inl (e, es, x, balanced) ↦
        inl (wrap "failed to build OPA SDK" e, es, set_up_opa_sdk-fails c e es x, balanced)
    | inr (opa, ready) ↦ inr (some opa, (opa, refl, ready))
  ]
