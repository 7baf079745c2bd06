-- ===== src/Http.antt =====
-- What the program uses of `net/http`, `net/url` and `io`: headers, bodies, messages.
use nacp.Common.{
  ℕ, ◌≡◌, refl, String, Option, none, some, List, [], ◌∷◌, arith, ◌==◌, eq_iff, ltb, length, take,
  if◌then◌else◌, Bool-cases, inl, inr,
}
use nacp.GoError.{GoError, message, Result, ok, err}

abbrev pub Bytes : Type 0
Bytes = List ℕ

-- A header has one value here. Keys are in the canonical form that `net/http` gives them.
abbrev pub Headers : Type 0
Headers = List (String × String)

unfoldable pub lookup_header : String → Headers → Option String
lookup_header k [] = none
lookup_header k ((j, v) ∷ hs) = if j == k then some v else lookup_header k hs

-- `Header.Get`: the empty text if there is none.
unfoldable pub get_header : String → Headers → String
unfolding lookup_header
get_header k hs = elim (lookup_header k hs) [ none ↦ "" | some v ↦ v ]

-- `Header.Set`
unfoldable pub set_header : String → String → Headers → Headers
set_header k v [] = (k, v) ∷ []
set_header k v ((j, w) ∷ hs) = if j == k then (k, v) ∷ hs else (j, w) ∷ set_header k v hs

pub lookup_header-set_header :
    (k j v : String) (hs : Headers)
    → lookup_header j (set_header k v hs) ≡ (if k == j then some v else lookup_header j hs)
unfolding lookup_header set_header
lookup_header-set_header k j v [] = refl
lookup_header-set_header k j v ((i, w) ∷ hs) =
    ground (arith, eq_iff k j, eq_iff i k, eq_iff i j, lookup_header-set_header k j v hs)

pub get_header-set_header :
    (k j v : String) (hs : Headers)
    → get_header j (set_header k v hs) ≡ (if k == j then v else get_header j hs)
unfolding get_header
get_header-set_header k j v hs = elim (Bool-cases (k == j)) [
  | inl same ↦ rw (rw same at (lookup_header-set_header k j v hs), same, get_header)
  | inr other ↦ rw (rw other at (lookup_header-set_header k j v hs), other, get_header)
]

-- An `io.Reader`: the bytes that it gives, and the error that it ends with (`none` is `io.EOF`).
pub record Reader : Type 0 where
  pub bytes : Bytes
  pub ending : Option GoError

abbrev pub buffer : Bytes → Reader
buffer bytes = record { bytes = bytes; ending = none }

-- `io.ReadAll`
abbrev pub read_all : Reader → Result Bytes
read_all r = elim r.ending [ none ↦ ok r.bytes | some e ↦ err e ]

-- `io.LimitReader`: after n bytes it ends as if the body did.
unfoldable pub limit_reader : ℕ → Reader → Reader
limit_reader n r =
    if ltb (length r.bytes) n then r else record { bytes = take n r.bytes; ending = none }

-- `http.MaxBytesReader`: a body of more than n bytes ends with an error behind the n-th.
unfoldable pub max_bytes_reader : ℕ → Reader → Reader
max_bytes_reader n r =
    if ltb n (length r.bytes)
    then record { bytes = take n r.bytes; ending = some (message "http: request body too large") }
    else r

-- `url.URL`, with the text that its `String()` gives.
pub record Url : Type 0 where
  pub scheme : String
  pub host : String
  pub path : String
  pub text : String

-- A request that the program sends.
pub record OutRequest : Type 0 where
  pub method : String
  pub url : String
  pub headers : Headers
  pub body : Bytes

pub record Response : Type 0 where
  pub status_code : ℕ
  pub status : String
  pub headers : Headers
  pub body : Reader
  -- `none` is -1, an unknown length.
  pub content_length : Option ℕ
