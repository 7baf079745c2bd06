-- ===== src/Proxy/Tokens.antt =====
-- The body limit and the token (cmd/nacp/nacp.go).
use nacp.Common.{
  ℕ, ◌≡◌, ◌≢◌, ◌<◌, ◌≤◌, refl, String, Bool, true, false, ◌&&◌, Option, none, some, length, ltb,
  length-take_of_le, arith, eqb, Bool-cases, inl, inr, if◌then◌else◌,
}
use nacp.Common.Text.{is_empty}
use nacp.GoError.{Result, ok, err, ◌>>=◌, >>=-eq-ok, Result-cases}
use nacp.Config.{AclToken, sanitize_acl_token}
use nacp.Http.{get_header, Reader, max_bytes_reader, Response}
use nacp.Proxy.Context.{
  Request, TokenService, max_admission_body_size, is_actionable, limit_body, with_request_context,
  request_context, resolve_token_accessor, resolve_request_context, get_client_ip, accept_token,
}

max_bytes_reader_bound : (n : ℕ) (r : Reader) → length (max_bytes_reader n r).bytes ≤ n
unfolding max_bytes_reader
max_bytes_reader_bound n r = elim (Bool-cases (ltb n (length r.bytes))) [
  | inl over ↦
      rw (over, max_bytes_reader) (omega (arith, length-take_of_le n r.bytes (ground arith)))
  | inr fits ↦ rw (fits, max_bytes_reader) (ground arith)
]

max_bytes_reader_over :
    (n : ℕ) (r : Reader) → n < length r.bytes → (max_bytes_reader n r).ending ≢ none
unfolding max_bytes_reader
max_bytes_reader_over n r l = ground arith

max_bytes_reader_fits : (n : ℕ) (r : Reader) → length r.bytes ≤ n → max_bytes_reader n r ≡ r
unfolding max_bytes_reader
max_bytes_reader_fits n r l = ground arith

-- How the limited body of a request relates to its body.
abbrev pub IsLimited : Bool → ℕ → Reader → Reader → Type 0
IsLimited actionable n body limited =
    (actionable ≡ true → length limited.bytes ≤ n)
    × (actionable ≡ true → n < length body.bytes → limited.ending ≢ none)
    × (actionable ≡ false → limited ≡ body)
    × (length body.bytes ≤ n → limited ≡ body)

limit-IsLimited :
    (actionable : Bool) (n : ℕ) (body : Reader)
    → IsLimited actionable n body (if actionable then max_bytes_reader n body else body)
limit-IsLimited true n body = (
  λ _. max_bytes_reader_bound n body,
  λ _ l. max_bytes_reader_over n body l,
  λ e. absurd (cc e),
  max_bytes_reader_fits n body,
)
limit-IsLimited false n body = (λ e. absurd (cc e), λ e l. absurd (cc e), λ _. refl, λ _. refl)

limit_body_lem :
    (r : Request)
    → ((limit_body r).method ≡ r.method)
      × ((limit_body r).path ≡ r.path)
      × ((limit_body r).headers ≡ r.headers)
      × ((limit_body r).body
          ≡ (if is_actionable r then max_bytes_reader max_admission_body_size r.body else r.body))
unfolding limit_body
limit_body_lem r = elim (Bool-cases (is_actionable r)) [
  | inl b ↦ rw (b, limit_body) (refl, refl, refl, refl)
  | inr b ↦ rw (b, limit_body) (refl, refl, refl, refl)
]

module _ (N : TokenService) (resolve_token : Bool) (r : Request) where
  -- What `resolveRequestContext` attaches: a token is resolved only for a request that is admitted, and
  -- only if a controller asks for it.
  resolved :
      (r' : Request)
      → resolve_request_context N resolve_token r ≡ ok r'
      → (token : Option AclToken) × (r'
          ≡ with_request_context (limit_body r) (request_context N resolve_token r token))
        × ((is_actionable r && resolve_token) ≡ false → token ≡ none)
  unfolding resolve_request_context
  resolved r' h = elim (Bool-cases (is_actionable r && resolve_token)) [
    | inl asked ↦
        let (token, _, e) =
          >>=-eq-ok (resolve_token_accessor N (get_header "X-Nomad-Token" r.headers)) _
            (rw (asked, resolve_request_context) at h) in
        (token, cc e, λ b. absurd (cc (asked, b)))
    | inr plain ↦ (none, cc (rw (plain, resolve_request_context) at h), λ b. refl)
  ]

  -- The handlers of an admitted request see at most `maxAdmissionBodySize` bytes, all of the body if it
  -- fits and otherwise an error behind its beginning; any other body is passed on as it is. Method,
  -- path and headers stay.
  pub resolve_request_context_bounds :
      (r' : Request)
      → resolve_request_context N resolve_token r ≡ ok r'
      → (r'.method ≡ r.method)
        × (r'.path ≡ r.path)
        × (r'.headers ≡ r.headers)
        × IsLimited (is_actionable r) max_admission_body_size r.body r'.body
  resolve_request_context_bounds r' h =
      let (token, e, _) = resolved r' h in
      let (m, p, hs, b) = limit_body_lem r in
      rw e (m, p, hs, rw b (limit-IsLimited (is_actionable r) max_admission_body_size r.body))

-- The token that Nomad returns, without its secret.
abbrev pub without_secret : AclToken → AclToken
without_secret t = record t { secret_id = "" }

abbrev pub forget : TokenService → TokenService
forget N = record N { decode_token = λ b. N.decode_token b >>= λ t. ok (without_secret t) }

module _ (N : TokenService) where
  request_context-without_secret :
      (resolve_token : Bool) (r : Request) (t : AclToken)
      → request_context (forget N) resolve_token r (some (without_secret t))
        ≡ request_context N resolve_token r (some t)
  unfolding request_context sanitize_acl_token get_client_ip
  request_context-without_secret resolve_token r t = refl

  module _ (f g : Option AclToken → Result Request) (at_none : f none ≡ g none)
      (at_some : (t : AclToken) → f (some (without_secret t)) ≡ g (some t)) where
    accept_token-forget :
        (resp : Response) → (accept_token (forget N) resp >>= f) ≡ (accept_token N resp >>= g)
    unfolding accept_token
    accept_token-forget resp = elim (Bool-cases (eqb resp.status_code 200)) [
      | inr other ↦ rw (other, accept_token)
      | inl fine ↦ elim (Result-cases (N.decode_token resp.body)) [
        | inl (e, failed) ↦ rw (fine, failed, accept_token)
        | inr (t, decoded) ↦ rw (fine, decoded, accept_token) (at_some t)
      ]
    ]

    resolve_token_accessor-forget :
        (token : String)
        → (resolve_token_accessor (forget N) token >>= f) ≡ (resolve_token_accessor N token >>= g)
    unfolding resolve_token_accessor
    resolve_token_accessor-forget token = elim (Bool-cases (is_empty token)) [
      | inl b ↦ rw (b, resolve_token_accessor) at_none
      | inr b ↦ rw (b, resolve_token_accessor) (sent (N.send _))
    ]
      where
        sent :
            (r : Result Response)
            → ((r >>= accept_token (forget N)) >>= f) ≡ ((r >>= accept_token N) >>= g)
        sent (ok resp) = accept_token-forget resp
        sent (err e) = refl

  -- The secret of the resolved token has no effect on the request that policies and Nomad see: the
  -- outcome is the one that a Nomad would lead to which returns tokens without their secrets.
  pub resolve_request_context-forget :
      (resolve_token : Bool) (r : Request)
      → resolve_request_context (forget N) resolve_token r
        ≡ resolve_request_context N resolve_token r
  unfolding resolve_request_context request_context sanitize_acl_token get_client_ip
  resolve_request_context-forget resolve_token r =
      elim (Bool-cases (is_actionable r && resolve_token)) [
        | inl asked ↦
            rw (asked, resolve_request_context)
              (resolve_token_accessor-forget _ _ refl (λ t. refl)
                (get_header "X-Nomad-Token" r.headers))
        | inr plain ↦ rw (plain, resolve_request_context)
      ]
