-- ===== src/Proxy/Verdicts.antt =====
-- What clients read of warnings (cmd/nacp/nacp.go).
use mathlib.Core.List.{flat_map}
use nacp.Common.{◌≡◌, refl, String, some, List, [], ◌∷◌, ◌++◌, Bool-cases, inl, inr, if◌then◌else◌}
use nacp.Common.Text.{is_empty}
use nacp.GoError.{GoError, message, multi, nil, parts, of_errors, IsFlattening}
use nacp.Proxy.Responses.{Responder, build_full_warning_msg}

module _ {S : Type 0} (T : Responder S) where
  -- With `Append` as go-multierror documents it, the warning text of a response is made from a single error that holds Nomad's own warning, if it
  -- has one, and then the warnings of admission, in their order.
  pub build_full_warning_msg-eq :
      (flat : IsFlattening T.multierror) (upstream : String) (warnings : List GoError)
      → build_full_warning_msg T upstream warnings
        ≡ T.merge_warnings (
            multi (
              of_errors (
                (if is_empty upstream then [] else (message upstream ∷ []))
                ++ flat_map parts warnings))
            ∷ [])
  unfolding build_full_warning_msg flat_map
  build_full_warning_msg-eq flat upstream warnings = elim (Bool-cases (is_empty upstream)) [
    | inl e ↦ rw (e, build_full_warning_msg) (rw (flat.append-eq (some (multi nil)) warnings) refl)
    | inr e ↦
        rw (e, build_full_warning_msg)
          (rw (flat.append-eq (some (multi nil)) (message upstream ∷ []))
            (rw (flat.append-eq (some (multi (of_errors (message upstream ∷ [])))) warnings) refl))
  ]
