-- ===== src/Proxy/Context.antt =====
-- cmd/nacp/nacp.go: incoming requests, and the context that is attached to them.
use nacp.Common.{
  ℕ, String, ◌<>◌, Bool, ◌&&◌, ◌||◌, Option, none, some, List, [], ◌∷◌, eqb, if◌then◌else◌,
}
use nacp.Common.Text.{is_empty, trim_space, before_comma}
use nacp.GoError.{GoError, message, Result, ok, err, ◌>>=◌}
use nacp.Config.{AclToken, RequestContext, sanitize_acl_token}
use nacp.Http.{Headers, get_header, Reader, max_bytes_reader, OutRequest, Response}
use nacp.Proxy.Routes.{is_register, is_plan, is_validate}

-- The values that a `context.Context` carries. A nil validation error is stored too, but a type
-- assertion does not find it.
pub record ContextValues : Type 0 where
  pub warnings : Option (List GoError)
  pub validation_error : Option GoError
  pub request_context : Option RequestContext

-- `http.Request`
pub record Request : Type 0 where
  pub method : String
  pub path : String
  pub headers : Headers
  pub remote_addr : String
  pub body : Reader
  pub content_length : Option ℕ
  pub values : ContextValues

-- Nomad, as `resolveTokenAccessor` reaches it, and `net.SplitHostPort`.
pub record TokenService : Type 0 where
  -- The Nomad address with the path /v1/acl/token/self.
  pub self_url : String
  pub send : OutRequest → Result Response
  pub decode_token : Reader → Result AclToken
  pub split_host_port : String → Result String

-- `maxAdmissionBodySize`
abbrev pub max_admission_body_size : ℕ
max_admission_body_size = 33554432

-- `isAdmissionActionable`
unfoldable pub is_actionable : Request → Bool
is_actionable r =
    is_register r.method r.path || is_plan r.method r.path || is_validate r.method r.path

-- The body of a request that is admitted is limited.
unfoldable pub limit_body : Request → Request
limit_body r =
    if is_actionable r
    then record r { body = max_bytes_reader max_admission_body_size r.body }
    else r

abbrev pub accessor : Option AclToken → String
accessor none = ""
accessor (some token) = token.accessor_id

abbrev pub with_request_context : Request → RequestContext → Request
with_request_context r c = record r { values = record (r.values) { request_context = some c } }

module _ (N : TokenService) where
  host_of : String → String
  host_of remote_addr = elim (N.split_host_port remote_addr) [ ok ip ↦ ip | err e ↦ remote_addr ]

  -- `getClientIP`
  unfoldable pub get_client_ip : Request → String
  unfolding host_of
  get_client_ip r =
      let forwarded = get_header "X-Forwarded-For" r.headers in
      if is_empty forwarded then host_of r.remote_addr else trim_space (before_comma forwarded)

  token_request : String → OutRequest
  token_request token = record {
    method = "GET";
    url = N.self_url;
    headers = ("X-Nomad-Token", token) ∷ [];
    body = [];
  }

  unfoldable pub accept_token : Response → Result (Option AclToken)
  accept_token resp =
      if eqb resp.status_code 200
      then (N.decode_token resp.body >>= λ token. ok (some token))
      else err (message ("failed to resolve token: " <> resp.status))

  -- `resolveTokenAccessor`
  unfoldable pub resolve_token_accessor : String → Result (Option AclToken)
  unfolding token_request
  resolve_token_accessor token =
      if is_empty token then ok none else N.send (token_request token) >>= accept_token

  -- The context, with the token's accessor and what may be passed on of the token.
  unfoldable pub request_context : Bool → Request → Option AclToken → RequestContext
  request_context resolve_token r token = record {
    client_ip = get_client_ip r;
    accessor_id = accessor token;
    resolve_token = resolve_token;
    token_info = sanitize_acl_token token;
  }

  -- `resolveRequestContext`. The flag is `jobHandler.ResolveToken()`.
  unfoldable pub resolve_request_context : Bool → Request → Result Request
  resolve_request_context resolve_token r =
      let attach = λ (token : Option AclToken).
        with_request_context (limit_body r) (request_context resolve_token r token) in
      if is_actionable r && resolve_token
      then (resolve_token_accessor (get_header "X-Nomad-Token" r.headers) >>= λ token.
          ok (attach token))
      else ok (attach none)
