-- ===== src/Remote/Laws.antt =====
-- Which webhook answers are decoded, and which endpoints are accepted.
use nacp.Common.{
  ℕ, ◌+◌, ◌≤◌, ◌<◌, ◌≡◌, refl, ◌∙◌, String, false, none, ◌↔◌, ◌⊎◌, inl, inr, arith, eq_iff, length,
  ap, take, length-take_of_le, Bool-cases, ltb,
}
use nacp.Common.Text.{is_empty}
use nacp.GoError.{Result, ok, >>=-eq-ok, wrapping-eq-ok}
use nacp.Http.{Bytes, Reader, Url, Response, read_all, limit_reader}
use nacp.Remote.{max_response_body_bytes, parse_endpoint, decode_json_response, check_response}
use nacp.Value.{Format}

-- What `check_response` lets through.
check_response_iff :
    (resp : Response) (body accepted : Bytes)
    → (check_response resp body ≡ ok accepted) ↔ (
        (length body ≤ max_response_body_bytes)
        × (200 ≤ resp.status_code)
        × (resp.status_code < 300)
        × (body ≡ accepted))
unfolding check_response
check_response_iff resp body accepted =
    (λ h. (ground arith, ground arith, ground arith, ground arith), λ (p, q, r, s). ground arith)

limit_reader_of_lt : (n : ℕ) (r : Reader) → length r.bytes < n → limit_reader n r ≡ r
unfolding limit_reader
limit_reader_of_lt n r l = ground arith

read_all_of_lt :
    (n : ℕ) (r : Reader)
    → length r.bytes < n
    → r.ending ≡ none
    → read_all (limit_reader n r) ≡ ok r.bytes
read_all_of_lt n r l e = rw (limit_reader_of_lt n r l) (ground arith)

-- A limited body that is shorter than the limit is the whole body, read to its end.
read_all-limit_reader :
    (n : ℕ) (r : Reader) (body : Bytes)
    → read_all (limit_reader n r) ≡ ok body
    → length body < n
    → (r.ending ≡ none) × (r.bytes ≡ body)
unfolding limit_reader
read_all-limit_reader n r body h l = elim (Bool-cases (ltb (length r.bytes) n)) [
  | inl short ↦ whole (rw (short, limit_reader) at h)
  | inr long ↦ absurd (
      omega (
        arith,
        ap length (cut (rw (long, limit_reader) at h)),
        length-take_of_le n r.bytes (ground arith),
      ))
]
  where
    whole : read_all r ≡ ok body → (r.ending ≡ none) × (r.bytes ≡ body)
    whole e = ground arith

    cut : ok (take n r.bytes) ≡ ok body → take n r.bytes ≡ body
    cut e = cc

-- A value is decoded from a webhook's answer exactly if the body is read to its end, has at most
-- `MaxResponseBodyBytes` bytes, the status is a success, and the whole body decodes to the value.
pub decode_json_response_iff {ℓ} :
    {A : Type ℓ} (unmarshal : Bytes → Result A) (resp : Response) (a : A)
    → (decode_json_response unmarshal resp ≡ ok a) ↔ (
        (resp.body.ending ≡ none)
        × (length resp.body.bytes ≤ max_response_body_bytes)
        × (200 ≤ resp.status_code)
        × (resp.status_code < 300)
        × (unmarshal resp.body.bytes ≡ ok a))
unfolding decode_json_response
decode_json_response_iff unmarshal resp a = (accepted, decoded)
  where
    max : ℕ
    max = max_response_body_bytes

    accepted :
        decode_json_response unmarshal resp ≡ ok a
        → (resp.body.ending ≡ none)
          × (length resp.body.bytes ≤ max)
          × (200 ≤ resp.status_code)
          × (resp.status_code < 300)
          × (unmarshal resp.body.bytes ≡ ok a)
    accepted h =
        let (body, read, rest) = >>=-eq-ok _ _ h in
        let (same, checked, decoded) = >>=-eq-ok (check_response resp body) _ rest in
        let (short, low, high, e) = (check_response_iff resp body same).0 checked in
        let (ended, whole) =
          read_all-limit_reader (max + 1) resp.body body (wrapping-eq-ok _ _ read) (omega arith) in
        (ended, rw whole short, low, high, rw (whole, e) (wrapping-eq-ok _ _ decoded))

    decoded :
        (resp.body.ending ≡ none)
          × (length resp.body.bytes ≤ max)
          × (200 ≤ resp.status_code)
          × (resp.status_code < 300)
          × (unmarshal resp.body.bytes ≡ ok a)
        → decode_json_response unmarshal resp ≡ ok a
    decoded (ended, short, low, high, e) =
        rw (read_all_of_lt (max + 1) resp.body (omega arith) ended) (
          rw ((check_response_iff resp resp.body.bytes resp.body.bytes).1 (short, low, high, refl))
            (rw e))

-- An endpoint is accepted exactly if it parses, its scheme is http or https, and it names a host.
pub parse_endpoint_iff :
    (F : Format) (parse_url : String → Result Url) (endpoint : String) (u : Url)
    → (parse_endpoint F parse_url endpoint ≡ ok u) ↔ (
        (parse_url endpoint ≡ ok u)
        × ((u.scheme ≡ "http") ⊎ (u.scheme ≡ "https"))
        × (is_empty u.host ≡ false))
unfolding parse_endpoint
parse_endpoint_iff F parse_url endpoint u = (
  λ h.
      let (v, parsed, rest) = >>=-eq-ok (parse_url endpoint) _ h in
      let same : v ≡ u = ground arith in
      (
        parsed ∙ ap ok same,
        rw (← same) (ground (arith, eq_iff v.scheme "http", eq_iff v.scheme "https")),
        rw (← same) (ground arith),
      ),
  λ (parsed, scheme, host).
      rw parsed (ground (arith, eq_iff u.scheme "http", eq_iff u.scheme "https")),
)
