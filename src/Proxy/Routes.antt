-- ===== src/Proxy/Routes.antt =====
-- cmd/nacp/nacp.go: which requests are admitted. The two regular expressions are written as matchers
-- on the code points of the path.
pub mod Matching
pub mod Laws
use nacp.Common.{
  ℕ, ◌≡◌, refl, String, Bool, true, false, not, ◌&&◌, ◌||◌, Option, none, some, List, [], ◌∷◌, ◌==◌,
  eqb, is_nil, is_some, if◌then◌else◌,
}
use nacp.Common.Text.{codes}

abbrev pub job_prefix : List ℕ
job_prefix = codes "/v1/job/"

abbrev pub plan_suffix : List ℕ
plan_suffix = codes "/plan"

unfoldable pub strip_prefix : List ℕ → List ℕ → Option (List ℕ)
strip_prefix [] s = some s
strip_prefix (p ∷ ps) [] = none
strip_prefix (p ∷ ps) (c ∷ s) = let rest = strip_prefix ps s in if eqb p c then rest else none

-- The longest beginning with no slash, and the rest.
pub segment : List ℕ → List ℕ × List ℕ
segment [] = ([], [])
segment (c ∷ s) = let (seg, rest) = segment s in if eqb c b'/' then ([], c ∷ s) else (c ∷ seg, rest)

-- `^/v1/job/[^/]+$`
job_path_rest : List ℕ → Bool
job_path_rest s = let (seg, rest) = segment s in not (is_nil seg) && is_nil rest

unfoldable pub job_path_regex : List ℕ → Bool
unfolding job_path_rest
job_path_regex s = elim (strip_prefix job_prefix s) [
  | none ↦ false
  | some rest ↦ job_path_rest rest
]

-- What is left when a text is the given one.
abbrev pub is_text : List ℕ → List ℕ → Bool
is_text t s = elim (strip_prefix t s) [ none ↦ false | some rest ↦ is_nil rest ]

-- `^/v1/job/[^/]+/plan$`
job_plan_rest : List ℕ → Bool
job_plan_rest s = let (seg, rest) = segment s in not (is_nil seg) && is_text plan_suffix rest

unfoldable pub job_plan_path_regex : List ℕ → Bool
unfolding job_plan_rest
job_plan_path_regex s = elim (strip_prefix job_prefix s) [
  | none ↦ false
  | some rest ↦ job_plan_rest rest
]

abbrev pub is_write : String → Bool
is_write method = method == "PUT" || method == "POST"

unfoldable pub is_create : String → String → Bool
is_create method path = is_write method && path == "/v1/jobs"

unfoldable pub is_update : String → String → Bool
is_update method path = is_write method && job_path_regex (codes path)

unfoldable pub is_register : String → String → Bool
is_register method path = is_create method path || is_update method path

unfoldable pub is_plan : String → String → Bool
is_plan method path = is_write method && job_plan_path_regex (codes path)

unfoldable pub is_validate : String → String → Bool
is_validate method path = is_write method && path == "/v1/validate/job"

routes_test :
    (is_register "PUT" "/v1/job/web" ≡ true)
    × (is_plan "POST" "/v1/job/web/plan" ≡ true)
    × (is_register "POST" "/v1/job/web/plan" ≡ false)
    × (is_plan "PUT" "/v1/job//plan" ≡ false)
unfolding is_register is_plan is_create is_update job_path_regex job_plan_path_regex strip_prefix
    segment
routes_test = (refl, refl, refl, refl)
