-- ===== src/Value.antt =====
-- Go's `interface{}` as `encoding/json` and the OPA packages fill it.
use nacp.Common.{String, Bool, Option, none, some, List, [], ◌∷◌, ◌==◌, if◌then◌else◌}

mutual
  pub data Value : Type 0 where
    null : Value
    bool : Bool → Value
    num : String → Value
    str : String → Value
    obj : Fields → Value
    arr : Items → Value

  pub data Items : Type 0 where
    cons : Value → Items → Items
    nil : Items

  pub data Fields : Type 0 where
    field : String → Value → Fields → Fields
    end : Fields

abbrev pub elements : Items → List Value
elements nil = []
elements (cons v vs) = v ∷ elements vs

-- `m[k]` of a `map[string]interface{}`, with its second result as an `Option`.
unfoldable pub index : String → Fields → Option Value
index k end = none
index k (field j v fs) = if j == k then some v else index k fs

-- `m[k]` with one result: nil if the key is missing.
abbrev pub or_null : Option Value → Value
or_null none = null
or_null (some v) = v

-- `v.([]interface{})`
abbrev pub as_slice : Value → Option (List Value)
as_slice (arr vs) = some (elements vs)
as_slice _ = none

-- `v.(map[string]interface{})`
abbrev pub as_map : Value → Option Fields
as_map (obj fs) = some fs
as_map _ = none

-- `v.(string)`
abbrev pub as_string : Value → Option String
as_string (str s) = some s
as_string _ = none

-- The verbs of `fmt` whose text depends on more than the program: `%q` of a string, `%s` and `%v` of a
-- dynamic value.
pub record Format : Type 0 where
  pub quote : String → String
  pub verb_s : Value → String
  pub verb_v : Value → String
