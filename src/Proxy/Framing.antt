-- ===== src/Proxy/Framing.antt =====
-- The responses that the proxy rewrites (cmd/nacp/nacp.go).
use nacp.Common.{
  ◌≡◌, ◌≢◌, refl, ◌∙◌, sym, ap, String, Bool, true, false, none, some, length, ◌⊎◌, inl, inr,
  Bool-cases, arith, eq_iff, if◌then◌else◌,
}
use nacp.Common.Text.{itoa}
use nacp.GoError.{Result, ok, ◌>>=◌, >>=-eq-ok}
use nacp.Http.{
  Bytes, lookup_header, lookup_header-set_header, get_header-set_header, Reader, buffer, Response,
}
use nacp.Proxy.Routes.{is_register, is_plan, is_validate}
use nacp.Proxy.Context.{ContextValues, Request}
use nacp.Proxy.Responses.{
  Responder, ResponseCodec, WarningResponse, Gzip, rewrite_response, rewrite_as, plain_reader,
  is_gzip, transform_body, add_warnings, handle_register_response, handle_job_plan_response,
  handle_job_validate_response, modify_proxy_response,
}

-- The response has the length that it says, in the header and in the field, and is read to its end;
-- status and all other headers are those of `resp`.
pub record IsReframed (resp resp' : Response) : Type 0 where
  pub announced :
      lookup_header "Content-Length" resp'.headers ≡ some (itoa (length resp'.body.bytes))
  pub measured : resp'.content_length ≡ some (length resp'.body.bytes)
  pub complete : resp'.body.ending ≡ none
  pub status : resp'.status_code ≡ resp.status_code
  pub others :
      (k : String)
      → k ≢ "Content-Length"
      → lookup_header k resp'.headers ≡ lookup_header k resp.headers

rewrite_response-IsReframed :
    (resp : Response) (bytes : Bytes) → IsReframed resp (rewrite_response resp bytes)
unfolding rewrite_response
rewrite_response-IsReframed resp bytes = record {
  announced =
      lookup_header-set_header "Content-Length" "Content-Length" (itoa (length bytes)) resp.headers;
  measured = refl;
  complete = refl;
  status = refl;
  others = λ k other.
      lookup_header-set_header "Content-Length" k (itoa (length bytes)) resp.headers
      ∙ ground (arith, eq_iff "Content-Length" k);
}

rewrite_as-IsReframed :
    (G : Gzip) (resp resp' : Response) (bytes : Bytes)
    → rewrite_as G resp bytes ≡ ok resp'
    → IsReframed resp resp'
unfolding rewrite_as
rewrite_as-IsReframed G resp resp' bytes h = elim (Bool-cases (is_gzip resp)) [
  | inl zipped ↦
      let (compressed, _, e) = >>=-eq-ok (G.compress bytes) _ (rw (zipped, rewrite_as) at h) in
      reframed compressed e
  | inr plain ↦ reframed bytes (rw (plain, rewrite_as) at h)
]
  where
    reframed : (b : Bytes) → ok (rewrite_response resp b) ≡ ok resp' → IsReframed resp resp'
    reframed b e =
        let same : rewrite_response resp b ≡ resp' = cc in
        rw (sym same) (rewrite_response-IsReframed resp b)

module _ {S : Type 0} (T : Responder S) where
  transform_body-IsReframed {ℓ} :
      {A : Type ℓ} (decode : Reader → Result A) (marshal : A → Result Bytes) (change : A → A)
      (resp resp' : Response)
      → transform_body T decode marshal change resp ≡ ok resp'
      → IsReframed resp resp'
  unfolding transform_body
  transform_body-IsReframed decode marshal change resp resp' h =
      let (reader, _, h₁) = >>=-eq-ok (plain_reader T.gzip resp) _ h in
      let (a, _, h₂) = >>=-eq-ok (decode reader) _ h₁ in
      let (bytes, _, h₃) = >>=-eq-ok (marshal (change a)) _ h₂ in
      rewrite_as-IsReframed T.gzip resp resp' bytes h₃

  -- A response is passed on as it came, or it is reframed.
  abbrev pub IsSound : Response → Response → Type 0
  IsSound resp resp' = (resp' ≡ resp) ⊎ IsReframed resp resp'

  branch-IsSound :
      (keep : Bool) (resp resp' : Response) (m : Result Response)
      → (if keep then ok resp else m) ≡ ok resp'
      → (m ≡ ok resp' → IsReframed resp resp')
      → IsSound resp resp'
  branch-IsSound true resp resp' m h f = inl cc
  branch-IsSound false resp resp' m h f = inr (f h)

  add_warnings-IsSound :
      (K : ResponseCodec (WarningResponse S)) (values : ContextValues) (resp resp' : Response)
      → add_warnings T K values resp ≡ ok resp'
      → IsSound resp resp'
  unfolding add_warnings
  add_warnings-IsSound K values resp resp' h =
      branch-IsSound _ resp resp' _ h (transform_body-IsReframed K.decode K.marshal _ resp resp')

  handle_job_validate_response-IsSound :
      (values : ContextValues) (resp resp' : Response)
      → handle_job_validate_response T values resp ≡ ok resp'
      → IsSound resp resp'
  unfolding handle_job_validate_response
  handle_job_validate_response-IsSound values resp resp' h =
      branch-IsSound _ resp resp' _ h
        (transform_body-IsReframed T.validate.decode T.validate.marshal _ resp resp')

  -- Whatever the request, a response that the proxy returns is the one that came from Nomad, or one
  -- whose length header and length field agree with its body, with Nomad's status and Nomad's other
  -- headers.
  pub modify_proxy_response-IsSound :
      (r : Request) (resp resp' : Response)
      → modify_proxy_response T r resp ≡ ok resp'
      → IsSound resp resp'
  unfolding modify_proxy_response handle_register_response handle_job_plan_response
  modify_proxy_response-IsSound r resp resp' h =
      go (is_register r.method r.path) (is_plan r.method r.path) (is_validate r.method r.path) h
    where
      go :
          (a b c : Bool)
          → (if a
              then add_warnings T T.register r.values resp
              else if b
              then add_warnings T T.plan r.values resp
              else if c
              then handle_job_validate_response T r.values resp
              else ok resp)
            ≡ ok resp'
          → IsSound resp resp'
      go true b c e = add_warnings-IsSound T.register r.values resp resp' e
      go false true c e = add_warnings-IsSound T.plan r.values resp resp' e
      go false false true e = handle_job_validate_response-IsSound r.values resp resp' e
      go false false false e = inl cc

  plain_reader-rewrite_response :
      (resp : Response) (bytes : Bytes)
      → plain_reader T.gzip (rewrite_response resp bytes)
        ≡ (if is_gzip resp then T.gzip.new_reader (buffer bytes) else ok (buffer bytes))
  unfolding plain_reader rewrite_response
  plain_reader-rewrite_response resp bytes =
      rw (
        get_header-set_header "Content-Length" "Content-Encoding" (itoa (length bytes))
          resp.headers)

  rewrite_as-plain_reader :
      (resp resp' : Response) (bytes : Bytes)
      → ((b c : Bytes) → T.gzip.compress b ≡ ok c → T.gzip.new_reader (buffer c) ≡ ok (buffer b))
      → rewrite_as T.gzip resp bytes ≡ ok resp'
      → plain_reader T.gzip resp' ≡ ok (buffer bytes)
  unfolding rewrite_as
  rewrite_as-plain_reader resp resp' bytes law h = elim (Bool-cases (is_gzip resp)) [
    | inl zipped ↦
        let (c, made, e) = >>=-eq-ok (T.gzip.compress bytes) _ (rw (zipped, rewrite_as) at h) in
        let same : rewrite_response resp c ≡ resp' = cc e in
        rw (sym same) (rw (plain_reader-rewrite_response, zipped) (law bytes c made))
    | inr plain ↦
        let same : rewrite_response resp bytes ≡ resp' = cc (rw (plain, rewrite_as) at h) in
        rw (sym same) (rw (plain_reader-rewrite_response, plain) refl)
  ]

  -- A rewritten response, decompressed as its header says, is the JSON of the changed response, whether
  -- or not Nomad compressed its own; where decompressing undoes compressing.
  pub transform_body-plain_reader {ℓ} :
      {A : Type ℓ} (decode : Reader → Result A) (marshal : A → Result Bytes) (change : A → A)
      (resp resp' : Response)
      → ((b c : Bytes) → T.gzip.compress b ≡ ok c → T.gzip.new_reader (buffer c) ≡ ok (buffer b))
      → transform_body T decode marshal change resp ≡ ok resp'
      → (a : A) × (bytes : Bytes) × ((plain_reader T.gzip resp >>= decode) ≡ ok a)
        × (marshal (change a) ≡ ok bytes)
        × (plain_reader T.gzip resp' ≡ ok (buffer bytes))
  unfolding transform_body
  transform_body-plain_reader decode marshal change resp resp' law h =
      let (reader, h₀, h₁) = >>=-eq-ok (plain_reader T.gzip resp) _ h in
      let (a, decoded, h₂) = >>=-eq-ok (decode reader) _ h₁ in
      let (bytes, encoded, h₃) = >>=-eq-ok (marshal (change a)) _ h₂ in
      (
        a,
        bytes,
        ap (λ m. m >>= decode) h₀ ∙ decoded,
        encoded,
        rewrite_as-plain_reader resp resp' bytes law h₃,
      )
