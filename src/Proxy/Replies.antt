-- ===== src/Proxy/Replies.antt =====
-- What a client reads of a validation (cmd/nacp/nacp.go): the controllers' warnings and errors in
-- Nomad's response.
use mathlib.Core.List.{flat_map}
use nacp.Common.{
  ◌≡◌, Bool, true, false, Option, none, some, List, [], ◌∷◌, ◌++◌, map, is_nil, if◌then◌else◌,
}
use nacp.Common.Text.{is_empty}
use nacp.GoError.{GoError, message, multi, parts, of_errors, IsFlattening, text}
use nacp.Proxy.Responses.{Responder, ValidateResponse, put_error}

-- What the context of a validation holds: the warnings, and the errors of a verdict, if it has one.
module _ {S : Type 0} (T : Responder S) (flat : IsFlattening T.multierror) where
  -- The response `b` that a client gets, for Nomad's response `a`, the warnings and the errors of the
  -- controllers, and whether all of them accept.
  pub record Answers (a : ValidateResponse S) (warnings errors : List GoError) (accepts : Bool)
      (b : ValidateResponse S) : Type 0 where
    pub accepted :
        accepts ≡ true → (b.validation_errors ≡ a.validation_errors) × (b.error ≡ a.error)
    pub rejected :
        accepts ≡ false
        → (b.validation_errors ≡ map (text T.multierror) errors)
          × (e : GoError) × (parts e ≡ errors)
          × (b.error ≡ text T.multierror e)
    pub silent : warnings ≡ [] → b.warnings ≡ a.warnings
    pub warned :
        is_nil warnings ≡ false
        → b.warnings
          ≡ T.merge_warnings (
              multi (
                of_errors (
                  (if is_empty a.warnings then [] else (message a.warnings ∷ []))
                  ++ flat_map parts warnings))
              ∷ [])
    pub others : b.rest ≡ a.rest

  -- The response with the errors, before the warnings.
  abbrev IsBlamed : List GoError → Bool → ValidateResponse S → ValidateResponse S → Type 0
  IsBlamed errors accepts a b =
      (accepts ≡ true → (b.validation_errors ≡ a.validation_errors) × (b.error ≡ a.error))
      × (accepts ≡ false
          → (b.validation_errors ≡ map (text T.multierror) errors)
            × (e : GoError) × (parts e ≡ errors)
            × (b.error ≡ text T.multierror e))
      × (b.warnings ≡ a.warnings)
      × (b.rest ≡ a.rest)

  abbrev blamed : Option GoError → ValidateResponse S → ValidateResponse S
  blamed none a = a
  blamed (some e) a = put_error T e a
