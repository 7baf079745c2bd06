-- ===== src/Patcher.antt =====
-- pkg/admissionctrl/mutator/jsonpatcher/jsonpatcher.go. evanphx/json-patch and the JSON of patch
-- operations are parameters.
use nacp.Common.{ℕ, Bool, ltb, Option, some, List}
use nacp.GoError.{Result, ok, wrapping, ◌>>=◌}
use nacp.Admission.{JobCodec}
use nacp.Http.{Bytes}
use nacp.Value.{Value}

pub record JsonPatch : Type 1 where
  -- `jsonpatch.Patch`, with its number of operations.
  pub Patch : Type 0
  pub size : Patch → ℕ
  pub decode : Bytes → Result Patch
  pub apply : Patch → Bytes → Result Bytes
  -- `json.Marshal` of the operations; a slice that is nil is not written as an empty one.
  pub marshal_ops : Option (List Value) → Result Bytes

module _ {J : Type 0} (C : JobCodec J) (P : JsonPatch) where
  open P use {size, decode, apply, marshal_ops}

  -- `PatchJob`: the patched job, and whether the patch has an operation.
  unfoldable pub patch_job : J → Option (List Value) → Result (J × Bool)
  patch_job job ops = do
    job_json ← wrapping "failed to marshal job" (C.marshal (some job))
    ops_data ← wrapping "failed to marshal patch data" (marshal_ops ops)
    patch ← decode ops_data
    patched_json ← wrapping "failed to apply patch" (apply patch job_json)
    patched ← C.unmarshal patched_json
    ok (patched, ltb 0 (size patch))
