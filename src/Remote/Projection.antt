-- ===== src/Remote/Projection.antt =====
-- What of a request context stands in the headers of a request to a webhook.
use mathlib.Core.Path.{subst}
use nacp.Common.{
  ◌≡◌, refl, ◌∙◌, ap, String, Option, none, some, [], ◌==◌, if◌then◌else◌, arith, eq_iff,
  Bool-cases, inl, inr,
}
use nacp.Common.Text.{is_empty, empty_of_is_empty}
use nacp.Config.{RequestContext}
use nacp.Http.{Headers, get_header, lookup_header, set_header, get_header-set_header}
use nacp.Remote.{apply_context_headers, apply_client_ip, apply_accessor_id}

abbrev pub client_ip? : Option RequestContext → String
client_ip? none = ""
client_ip? (some c) = c.client_ip

abbrev pub accessor_id? : Option RequestContext → String
accessor_id? none = ""
accessor_id? (some c) = c.accessor_id

-- The value that a header gets; the empty text is that of a header that is not set.
abbrev pub projected : Option RequestContext → String → String
projected ctx k =
    if "Nacp-Accessor-Id" == k
    then accessor_id? ctx
    else if "Nacp-Client-Ip" == k
    then client_ip? ctx
    else if "X-Forwarded-For" == k
    then client_ip? ctx
    else ""

two_ways :
    (k v : String)
    → get_header k (
        if is_empty v
        then []
        else set_header "Nacp-Client-Ip" v (set_header "X-Forwarded-For" v []))
      ≡ (if "Nacp-Client-Ip" == k then v else if "X-Forwarded-For" == k then v else "")
unfolding get_header lookup_header
two_ways k v = elim (Bool-cases (is_empty v)) [
  | inl empty ↦ rw empty (rw (empty_of_is_empty v empty) (ground arith))
  | inr present ↦ rw present (
      get_header-set_header "Nacp-Client-Ip" k v (set_header "X-Forwarded-For" v [])
      ∙ ap (λ s. if "Nacp-Client-Ip" == k then v else s)
          (get_header-set_header "X-Forwarded-For" k v []))
]

-- A header that is only set to texts that are not empty, over headers without it.
set_if_present :
    (j k v : String) (hs : Headers)
    → get_header j hs ≡ ""
    → get_header k (if is_empty v then hs else set_header j v hs)
      ≡ (if j == k then v else get_header k hs)
set_if_present j k v hs absent = elim (Bool-cases (is_empty v)) [
  | inr present ↦ rw present (get_header-set_header j k v hs)
  | inl empty ↦ rw empty (
      rw (empty_of_is_empty v empty) (elim (Bool-cases (j == k)) [
        | inl same ↦ rw same (subst (λ i. get_header i hs ≡ "") ((eq_iff j k).0 same) absent)
        | inr other ↦ rw other refl
      ]))
]

pub get_header-apply_context_headers :
    (ctx : Option RequestContext) (k : String)
    → get_header k (apply_context_headers ctx []) ≡ projected ctx k
unfolding apply_context_headers apply_client_ip apply_accessor_id get_header lookup_header
get_header-apply_context_headers none k = ground arith
get_header-apply_context_headers (some c) k =
    set_if_present "Nacp-Accessor-Id" k c.accessor_id (apply_client_ip c [])
      (two_ways "Nacp-Accessor-Id" c.client_ip)
    ∙ ap (λ s. if "Nacp-Accessor-Id" == k then c.accessor_id else s) (two_ways k c.client_ip)
