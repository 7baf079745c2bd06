-- ===== src/Opa.antt =====
-- pkg/admissionctrl/opa/opa.go. The OPA engine and the file system are parameters.
use nacp.Common.{String, Bool, false, is_none, Option, none, some, List, [], ◌∷◌}
use nacp.GoError.{message, Result, ok, err, ◌>>=◌}
use nacp.Http.{Bytes}
use nacp.Notation.{ImageVerifier}
use nacp.Payloads.{Input}
use nacp.Value.{Value, str, Fields, index, or_null, as_slice}

-- `rego.Vars`, the bindings of one result.
abbrev pub Bindings : Type 0
Bindings = Fields

-- A prepared query.
pub record OpaQuery (J : Type 0) : Type 0 where
  pub eval : Input J → Result (List Bindings)

-- A result set that is not empty, which is all that `Query` returns.
pub record OpaQueryResult : Type 0 where
  pub first : Bindings
  pub others : List Bindings

-- The function `notation_verify_image` that a policy may call.
unfoldable pub verify_image_builtin : ImageVerifier → Value → Bool
verify_image_builtin verifier (str image) = is_none (verifier.verify_image image)
verify_image_builtin verifier _ = false

-- The test of `Query` on the result set.
refuse_empty : List Bindings → Result OpaQueryResult
refuse_empty [] = err (message "no result set returned, maybe the query is wrong?")
refuse_empty (b ∷ bs) = ok (record { first = b; others = bs })

module _ {J : Type 0} where
  -- `CreateQuery`: `prepare` is `rego.New(…).PrepareForEval`, with the builtin if there is a verifier.
  unfoldable pub create_query :
      (String → Result Bytes)
      → (String → Bytes → String → Option (Value → Bool) → Result (OpaQuery J))
      → String
      → String
      → Option ImageVerifier
      → Result (OpaQuery J)
  create_query read_file prepare filename query none =
      read_file filename >>= λ source. prepare filename source query none
  create_query read_file prepare filename query (some verifier) = read_file filename >>= λ source.
      prepare filename source query (some (verify_image_builtin verifier))

  -- `OpaQuery.Query`
  unfoldable pub run_query : OpaQuery J → Input J → Result OpaQueryResult
  unfolding refuse_empty
  run_query q input = q.eval input >>= refuse_empty

-- The slice that a binding holds, or an empty one.
slice_of : String → OpaQueryResult → List Value
slice_of k r = elim (as_slice (or_null (index k r.first))) [ none ↦ [] | some vs ↦ vs ]

unfoldable pub get_warnings : OpaQueryResult → List Value
unfolding slice_of
get_warnings r = slice_of "warnings" r

unfoldable pub get_errors : OpaQueryResult → List Value
unfolding slice_of
get_errors r = slice_of "errors" r

unfoldable pub get_patch : OpaQueryResult → List Value
unfolding slice_of
get_patch r = slice_of "patch" r
