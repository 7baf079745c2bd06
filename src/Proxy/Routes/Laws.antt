-- ===== src/Proxy/Routes/Laws.antt =====
-- The requests that are admitted are those that the regular expressions describe, and no request is
-- of two kinds (cmd/nacp/nacp.go).
use mathlib.Core.List.{tail-eq_of_cons-eq}
use nacp.Common.{
  and_iff, or_iff, and-or, sym, ℕ, ◌≡◌, refl, ◌≢◌, ◌⊎◌, ◌↔◌, inl, inr, ap, ◌∙◌, String, Bool, true,
  false, not, ◌&&◌, ◌||◌, some, List, [], ◌∷◌, ◌++◌, ◌==◌, eq_iff, is_nil, arith, Option-cases,
  Bool-cases,
}
use nacp.Common.Text.{codes}
use nacp.Proxy.Routes.{
  job_prefix, plan_suffix, strip_prefix, segment, job_path_rest, job_path_regex, is_text,
  job_plan_rest, job_plan_path_regex, is_write, is_create, is_update, is_register, is_plan,
  is_validate,
}
use nacp.Proxy.Routes.Matching.{
  NoSlash, IsJobPath, IsJobPlanPath, strip_prefix_iff, segment_of, job_path_regex_iff,
  job_plan_path_regex_iff,
}

abbrev pub IsWrite : String → Type 0
IsWrite method = (method ≡ "PUT") ⊎ (method ≡ "POST")

is_write_iff : (method : String) → (is_write method ≡ true) ↔ IsWrite method
is_write_iff method = ground (arith, eq_iff method "PUT", eq_iff method "POST")

-- Admission runs for PUT and POST alone: a registration is a write to /v1/jobs or to /v1/job/<id>, a
-- plan one to /v1/job/<id>/plan and a validation one to /v1/validate/job, where an id is any text
-- that is not empty and has no slash.
pub routes_iff :
    (method path : String)
    → ((is_register method path ≡ true)
        ↔ (IsWrite method × ((path ≡ "/v1/jobs") ⊎ IsJobPath (codes path))))
      × ((is_plan method path ≡ true) ↔ (IsWrite method × IsJobPlanPath (codes path)))
      × ((is_validate method path ≡ true) ↔ (IsWrite method × (path ≡ "/v1/validate/job")))
unfolding is_register is_plan is_validate is_create is_update
routes_iff method path = (
  rw (and-or (is_write method) (path == "/v1/jobs") (job_path_regex (codes path))) (
      and_iff (is_write method) _ write
        (or_iff (path == "/v1/jobs") _ (eq_iff path _) (job_path_regex_iff (codes path)))),
  and_iff (is_write method) _ write (job_plan_path_regex_iff (codes path)),
  and_iff (is_write method) _ write (eq_iff path _),
)
  where
    write : (is_write method ≡ true) ↔ IsWrite method
    write = is_write_iff method

job_rests_exclude : (s : List ℕ) → job_path_rest s ≡ true → job_plan_rest s ≡ false
unfolding job_path_rest job_plan_rest strip_prefix
job_rests_exclude s h = go (segment s).0 (segment s).1 h
  where
    go :
        (seg rest : List ℕ)
        → (not (is_nil seg) && is_nil rest) ≡ true
        → (not (is_nil seg) && is_text plan_suffix rest) ≡ false
    go [] rest t = cc
    go (c ∷ seg) [] t = refl
    go (c ∷ seg) (d ∷ rest) t = cc

job_regexes_exclude : (s : List ℕ) → job_path_regex s ≡ true → job_plan_path_regex s ≡ false
unfolding job_path_regex job_plan_path_regex
job_regexes_exclude s h = elim (Option-cases (strip_prefix job_prefix s)) [
  | inl other ↦ rw (other, job_plan_path_regex)
  | inr (rest, found) ↦
      rw (found, job_plan_path_regex) (job_rests_exclude rest (rw (found, job_path_regex) at h))
]

fixed_paths :
    (path : String)
    → ((path == "/v1/jobs") ≡ true
        → (job_plan_path_regex (codes path) ≡ false) × ((path == "/v1/validate/job") ≡ false))
      × ((path == "/v1/validate/job") ≡ true
          → (job_path_regex (codes path) ≡ false) × (job_plan_path_regex (codes path) ≡ false))
unfolding job_path_regex job_plan_path_regex strip_prefix
fixed_paths path = (
  λ e. rw ((eq_iff path "/v1/jobs").0 e) (refl, refl),
  λ e. rw ((eq_iff path "/v1/validate/job").0 e) (refl, refl),
)

tests_exclude :
    (write create update plan validate : Bool)
    → (create ≡ true → (plan ≡ false) × (validate ≡ false))
    → (validate ≡ true → (update ≡ false) × (plan ≡ false))
    → (update ≡ true → plan ≡ false)
    → (((write && create) || (write && update)) ≡ true
        → ((write && plan) ≡ false) × ((write && validate) ≡ false))
      × ((write && plan) ≡ true → (write && validate) ≡ false)
tests_exclude false create update plan validate f g h = (λ e. (refl, refl), λ e. refl)
tests_exclude true true update plan validate f g h = (λ e. f refl, λ e. (f refl).1)
tests_exclude true false false plan validate f g h = (λ e. cc, λ e. ground arith)
tests_exclude true false true plan false f g h = (λ e. (h refl, refl), λ e. refl)
tests_exclude true false true plan true f g h = absurd (cc (g refl).0)

-- No request is of two kinds, so the order in which the handlers ask does not matter.
pub routes_exclude :
    (method path : String)
    → ((is_register method path ≡ true)
        → (is_plan method path ≡ false) × (is_validate method path ≡ false))
      × ((is_plan method path ≡ true) → is_validate method path ≡ false)
unfolding is_register is_plan is_validate is_create is_update
routes_exclude method path =
    tests_exclude (is_write method) _ _ _ _ (fixed_paths path).0 (fixed_paths path).1
      (job_regexes_exclude (codes path))

slash_found : (id rest : List ℕ) → ¬ NoSlash (id ++ (b'/' ∷ rest))
slash_found [] rest h = h.0 refl
slash_found (c ∷ id) rest h = slash_found id rest h.1

-- A job whose id has a slash is written to without admission: the path of such an update is of no
-- kind. Here the id is split at its first slash, and does not end in `/plan` there.
pub slash_id_skipped :
    (method path : String) (id rest : List ℕ)
    → codes path ≡ job_prefix ++ (id ++ (b'/' ∷ rest))
    → NoSlash id
    → rest ≢ codes "plan"
    → (is_register method path ≡ false)
      × (is_plan method path ≡ false)
      × (is_validate method path ≡ false)
unfolding strip_prefix
slash_id_skipped method path id rest e clean other = (
  not_true λ h. elim ((routes_iff method path).0.0 h).1 [
    | inl jobs ↦ cc (rw jobs at found)
    | inr (id', e', t) ↦ slash_found id rest (rw (same e') at t.0)
  ],
  not_true λ h. planned ((routes_iff method path).1.0 h).1,
  not_true λ h. cc (rw ((routes_iff method path).2.0 h).1 at found),
)
  where
    not_true : {b : Bool} → ¬ (b ≡ true) → b ≡ false
    not_true {b} f = elim (Bool-cases b) [ inl t ↦ absurd (f t) | inr t ↦ t ]

    found : strip_prefix job_prefix (codes path) ≡ some (id ++ (b'/' ∷ rest))
    found = (strip_prefix_iff job_prefix (codes path) _).1 e

    same : {s : List ℕ} → codes path ≡ job_prefix ++ s → s ≡ id ++ (b'/' ∷ rest)
    same {s} e' = cc (found, (strip_prefix_iff job_prefix (codes path) s).1 e')

    planned : ¬ IsJobPlanPath (codes path)
    planned (id', e', t) =
        let a = segment_of id' plan_suffix t.0 refl in
        let b = segment_of id (b'/' ∷ rest) clean refl in
        let c : (id', plan_suffix) ≡ (id, b'/' ∷ rest) = sym a ∙ ap segment (same e') ∙ b in
        other (tail-eq_of_cons-eq (sym (ap (λ t. t.1) c)))
