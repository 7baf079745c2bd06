-- ===== src/Proxy/Routes/Matching.antt =====
-- The matchers of Proxy/Routes, and the texts that the regular expressions of cmd/nacp/nacp.go
-- describe.
use nacp.Common.{
  sym, append-nil, ℕ, ◌≡◌, refl, ◌≢◌, ◌⊎◌, ◌↔◌, inl, inr, ap, ◌∙◌, true, false, not, ◌&&◌, some,
  List, [], ◌∷◌, ◌++◌, eqb, is_nil, All, arith, Option-cases, Bool-cases,
}
use nacp.Proxy.Routes.{
  job_prefix, plan_suffix, strip_prefix, segment, job_path_rest, job_path_regex, is_text,
  job_plan_rest, job_plan_path_regex,
}

pub strip_prefix_iff : (p s rest : List ℕ) → (strip_prefix p s ≡ some rest) ↔ (s ≡ p ++ rest)
unfolding strip_prefix
strip_prefix_iff [] s rest = (λ h. cc, λ h. ap some h)
strip_prefix_iff (p ∷ ps) [] rest = (λ h. cc, λ h. cc)
strip_prefix_iff (p ∷ ps) (c ∷ s) rest = (
  λ h. ground (arith, (strip_prefix_iff ps s rest).0),
  λ h. ground (arith, (strip_prefix_iff ps s rest).1),
)

abbrev pub NoSlash : List ℕ → Type 0
NoSlash = All (λ c. c ≢ b'/')

-- A text is its first segment, which has no slash, and a rest that is empty or begins with a slash.
segment_lem :
    (s : List ℕ)
    → (s ≡ (segment s).0 ++ (segment s).1)
      × NoSlash (segment s).0
      × (((segment s).1 ≡ []) ⊎ ((r : List ℕ) × ((segment s).1 ≡ b'/' ∷ r)))
unfolding segment
segment_lem [] = (refl, tt, inl refl)
segment_lem (c ∷ s) = elim (Bool-cases (eqb c b'/')) [
  | inl slash ↦ rw (slash, segment) (refl, tt, inr (s, ap (λ d. d ∷ s) (ground arith)))
  | inr other ↦
      let (whole, clean, border) = segment_lem s in
      rw (other, segment) (ap (λ l. c ∷ l) whole, (ground arith, clean), border)
]

-- A text that is empty or begins with a slash.
abbrev pub Border : List ℕ → Type 0
Border [] = Unit
Border (c ∷ s) = c ≡ b'/'

pub segment_of :
    (seg rest : List ℕ) → NoSlash seg → Border rest → segment (seg ++ rest) ≡ (seg, rest)
unfolding segment
segment_of [] [] _ _ = refl
segment_of [] (c ∷ s) _ e = ground arith
segment_of (c ∷ seg) rest (n, clean) b = rw (segment_of seg rest clean b) (ground arith)

-- `^/v1/job/[^/]+$`
abbrev pub IsJobPath : List ℕ → Type 0
IsJobPath s = (id : List ℕ) × (s ≡ job_prefix ++ id) × (NoSlash id × (is_nil id ≡ false))

-- `^/v1/job/[^/]+/plan$`
abbrev pub IsJobPlanPath : List ℕ → Type 0
IsJobPlanPath s =
    (id : List ℕ) × (s ≡ job_prefix ++ (id ++ plan_suffix)) × (NoSlash id × (is_nil id ≡ false))

whole_segment :
    (s seg rest : List ℕ)
    → s ≡ seg ++ rest
    → NoSlash seg
    → (not (is_nil seg) && is_nil rest) ≡ true
    → NoSlash s × (is_nil s ≡ false)
whole_segment s [] rest e clean t = cc
whole_segment s (c ∷ seg) (d ∷ rest) e clean t = cc
whole_segment s (c ∷ seg) [] e clean t = rw (e, append-nil) (clean, refl)

job_path_rest_iff : (s : List ℕ) → (job_path_rest s ≡ true) ↔ (NoSlash s × (is_nil s ≡ false))
unfolding job_path_rest
job_path_rest_iff s = (
  λ t. let (e, clean, _) = segment_lem s in whole_segment s (segment s).0 (segment s).1 e clean t,
  λ (clean, full).
      let e : segment s ≡ (s, []) = rw (append-nil s) at (segment_of s [] clean tt) in
      rw e (ground arith),
)

is_text_iff : (t s : List ℕ) → (is_text t s ≡ true) ↔ (s ≡ t)
is_text_iff t s = elim (Option-cases (strip_prefix t s)) [
  | inl other ↦ (
    λ h. absurd (cc (rw (other, is_text) at h)),
    λ e. absurd (cc (other, (strip_prefix_iff t s []).1 (e ∙ sym (append-nil t)))),
  )
  | inr (rest, found) ↦ (
    λ h. (strip_prefix_iff t s rest).0 found ∙ whole rest (rw (found, is_text) at h),
    λ e. rw ((strip_prefix_iff t s []).1 (e ∙ sym (append-nil t)), is_text),
  )
]
  where
    whole : (rest : List ℕ) → is_nil rest ≡ true → t ++ rest ≡ t
    whole [] _ = append-nil t
    whole (c ∷ rest) h = cc

job_plan_rest_iff :
    (s : List ℕ)
    → (job_plan_rest s ≡ true)
      ↔ ((id : List ℕ) × (s ≡ id ++ plan_suffix) × (NoSlash id × (is_nil id ≡ false)))
unfolding job_plan_rest
job_plan_rest_iff s = (
  λ t.
      let (e, clean, _) = segment_lem s in
      let suffix : (segment s).1 ≡ plan_suffix = (is_text_iff plan_suffix _).0 (ground arith) in
      ((segment s).0, e ∙ ap (λ l. (segment s).0 ++ l) suffix, (clean, ground arith)),
  λ (id, e, t).
      let clean = t.0 in
      let full = t.1 in
      let split : segment s ≡ (id, plan_suffix) = rw e (segment_of id plan_suffix clean refl) in
      rw (split, full) ((is_text_iff plan_suffix plan_suffix).1 refl),
)

pub job_path_regex_iff : (s : List ℕ) → (job_path_regex s ≡ true) ↔ IsJobPath s
unfolding job_path_regex
job_path_regex_iff s = (matched, matches)
  where
    matched : job_path_regex s ≡ true → IsJobPath s
    matched h = elim (Option-cases (strip_prefix job_prefix s)) [
      | inl other ↦ absurd (cc (rw (other, job_path_regex) at h))
      | inr (rest, found) ↦ (
        rest,
        (strip_prefix_iff job_prefix s rest).0 found,
        (job_path_rest_iff rest).0 (rw (found, job_path_regex) at h),
      )
    ]

    matches : IsJobPath s → job_path_regex s ≡ true
    matches (id, e, t) =
        rw ((strip_prefix_iff job_prefix s id).1 e, job_path_regex) ((job_path_rest_iff id).1 t)

pub job_plan_path_regex_iff : (s : List ℕ) → (job_plan_path_regex s ≡ true) ↔ IsJobPlanPath s
unfolding job_plan_path_regex
job_plan_path_regex_iff s = (matched, matches)
  where
    matched : job_plan_path_regex s ≡ true → IsJobPlanPath s
    matched h = elim (Option-cases (strip_prefix job_prefix s)) [
      | inl other ↦ absurd (cc (rw (other, job_plan_path_regex) at h))
      | inr (rest, found) ↦
          let (id, e, t) = (job_plan_rest_iff rest).0 (rw (found, job_plan_path_regex) at h) in
          (id, (strip_prefix_iff job_prefix s rest).0 found ∙ ap (λ l. job_prefix ++ l) e, t)
    ]

    matches : IsJobPlanPath s → job_plan_path_regex s ≡ true
    matches (id, e, t) =
        rw ((strip_prefix_iff job_prefix s _).1 e, job_plan_path_regex)
          ((job_plan_rest_iff _).1 (id, refl, t))
