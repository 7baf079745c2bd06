-- ===== src/Remote.antt =====
-- pkg/admissionctrl/remoteutil/remoteutil.go: the client side of webhooks. Transports and their
-- instrumentation are not modelled.
pub mod Laws
pub mod Endpoints
pub mod Projection
use nacp.Common.{
  ℕ, ◌+◌, String, ◌<>◌, Bool, not, ◌&&◌, ◌||◌, Option, none, some, ◌==◌, ltb, leb, length,
  if◌then◌else◌,
}
use nacp.Common.Text.{is_empty, itoa}
use nacp.GoError.{message, Result, ok, err, wrapping, ◌>>=◌}
use nacp.Config.{RequestContext}
use nacp.Http.{Bytes, Headers, set_header, Url, Response, read_all, limit_reader}
use nacp.Value.{Format}

-- `MaxResponseBodyBytes`
abbrev pub max_response_body_bytes : ℕ
max_response_body_bytes = 10485760

-- `ApplyContextHeaders`. "NACP-Client-IP" and "NACP-Accessor-ID" stand in their canonical form.
apply_client_ip : RequestContext → Headers → Headers
apply_client_ip c hs =
    if is_empty c.client_ip
    then hs
    else set_header "Nacp-Client-Ip" c.client_ip (set_header "X-Forwarded-For" c.client_ip hs)

apply_accessor_id : RequestContext → Headers → Headers
apply_accessor_id c hs =
    if is_empty c.accessor_id then hs else set_header "Nacp-Accessor-Id" c.accessor_id hs

unfoldable pub apply_context_headers : Option RequestContext → Headers → Headers
unfolding apply_client_ip apply_accessor_id
apply_context_headers none hs = hs
apply_context_headers (some c) hs = apply_accessor_id c (apply_client_ip c hs)

-- `url.Parse` is a parameter.
module _ (F : Format) (parse_url : String → Result Url) where
  unfoldable pub parse_endpoint : String → Result Url
  parse_endpoint endpoint = parse_url endpoint >>= λ u.
      if (not (u.scheme == "http") && not (u.scheme == "https")) || is_empty u.host
      then err (message ("webhook endpoint must be an absolute HTTP(S) URL: " <> F.quote endpoint))
      else ok u

-- The tests of `DecodeJSONResponse` between the reading and the decoding.
unfoldable pub check_response : Response → Bytes → Result Bytes
check_response resp body =
    if ltb max_response_body_bytes (length body)
    then err (message ("webhook response exceeds " <> itoa max_response_body_bytes <> " bytes"))
    else if ltb resp.status_code 200 || leb 300 resp.status_code
    then err (message ("webhook returned unexpected HTTP status " <> resp.status))
    else ok body

-- `DecodeJSONResponse`, with `json.Unmarshal` into the target as a parameter.
unfoldable pub decode_json_response {ℓ} : {A : Type ℓ} → (Bytes → Result A) → Response → Result A
decode_json_response unmarshal resp =
    wrapping "failed to read webhook response"
      (read_all (limit_reader (max_response_body_bytes + 1) resp.body))
    >>= λ body. check_response resp body >>= λ accepted.
        wrapping "failed to decode webhook response" (unmarshal accepted)
