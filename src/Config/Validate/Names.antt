-- ===== src/Config/Validate/Names.antt =====
-- The keys of `seen` in `validateControllers` (pkg/config/config.go) and the names they stand for.
use text.Mathlib.TextLemmas.{append_cancel_left, cons-append, head-eq_of_cons-eq}
use Prim.Native.String.{◌∷◌ as ◌∷ᶜ◌}
use nacp.Common.{
  or-eq-false, ◌≡◌, ◌≢◌, refl, ◌∙◌, sym, ap, ◌↔◌, inl, inr, String, ◌<>◌, false, List, [], ◌∷◌,
  ◌++◌, map, ◌==◌, eq_iff, All, All-append, All-append_left, All-map, All-zip, Bool-cases,
}
use nacp.Config.Validate.{found}

-- No text of a list is `key`.
abbrev pub Fresh : String → List String → Type 0
Fresh key = All (λ k. k ≢ key)

-- The texts of a list differ from one another.
abbrev pub Distinct : List String → Type 0
Distinct [] = Unit
Distinct (k ∷ ks) = All (λ x. k ≢ x) ks × Distinct ks

-- Every text of a list differs from the earlier ones and from those of `seen`.
abbrev pub New : List String → List String → Type 0
New seen [] = Unit
New seen (k ∷ ks) = Fresh k seen × New (k ∷ seen) ks

eq-false_iff : (k key : String) → ((k == key) ≡ false) ↔ (k ≢ key)
eq-false_iff k key = elim (Bool-cases (k == key)) [
  | inl e ↦ (λ h. absurd (cc (e, h)), λ h. absurd (h ((eq_iff k key).0 e)))
  | inr e ↦ (λ h q. absurd (cc (e, (eq_iff k key).1 q)), λ h. e)
]

pub found_iff : (key : String) (seen : List String) → (found key seen ≡ false) ↔ Fresh key seen
unfolding found
found_iff key [] = (λ _. tt, λ _. refl)
found_iff key (k ∷ seen) = (
  λ h.
      let (l, r) = (or-eq-false (k == key) (found key seen)).0 h in
      ((eq-false_iff k key).0 l, (found_iff key seen).0 r),
  λ h.
      (or-eq-false (k == key) (found key seen)).1
        ((eq-false_iff k key).1 h.0, (found_iff key seen).1 h.1),
)

mutator_key : (a b : String) → ("mutator:" <> a) ≢ ("validator:" <> b)
mutator_key a b e =
    let same : ("m" == "v") ≡ ("v" == "v") =
      ap (λ c. (c ∷ᶜ "") == "v")
        (head-eq_of_cons-eq {x = "m"} {y = "v"} {xs = "utator:" <> a} {ys = "alidator:" <> b}
          (sym (cons-append "m" "utator:" a) ∙ e ∙ cons-append "v" "alidator:" b)) in
    cc same

-- No text of `seen` is one of `ks`.
abbrev Apart : List String → List String → Type 0
Apart seen ks = All (λ k. Fresh k seen) ks

New-iff : (seen ks : List String) → New seen ks ↔ (Apart seen ks × Distinct ks)
New-iff seen [] = (λ _. (tt, tt), λ _. tt)
New-iff seen (k ∷ ks) = (
  λ (f, n).
      let (a, d) = (New-iff (k ∷ seen) ks).0 n in
      ((f, All-map ks (λ x h. h.1) a), (All-map ks (λ x h. h.0) a, d)),
  λ ((f, a), (q, d)). (f, (New-iff (k ∷ seen) ks).1 (All-zip _ _ ks q a, d)),
)

Apart-nil : (ks : List String) → Apart [] ks
Apart-nil [] = tt
Apart-nil (k ∷ ks) = (tt, Apart-nil ks)

pub New-nil_iff : (ks : List String) → New [] ks ↔ Distinct ks
New-nil_iff ks = (λ n. ((New-iff [] ks).0 n).1, λ d. (New-iff [] ks).1 (Apart-nil ks, d))

-- A prefix keeps texts apart.
Distinct-map_iff : (p : String) (ns : List String) → Distinct (map (λ n. p <> n) ns) ↔ Distinct ns
Distinct-map_iff p [] = (λ h. tt, λ h. tt)
Distinct-map_iff p (n ∷ ns) = (
  λ (f, d). (here ns f, (Distinct-map_iff p ns).0 d),
  λ (f, d). (there ns f, (Distinct-map_iff p ns).1 d),
)
  where
    here : (xs : List String) → All (λ x. (p <> n) ≢ x) (map (λ x. p <> x) xs) → All (λ x. n ≢ x) xs
    here [] h = tt
    here (x ∷ xs) (h, hs) = (λ e. h (ap (λ t. p <> t) e), here xs hs)

    there :
        (xs : List String) → All (λ x. n ≢ x) xs → All (λ x. (p <> n) ≢ x) (map (λ x. p <> x) xs)
    there [] h = tt
    there (x ∷ xs) (h, hs) = (λ e. h (append_cancel_left p n x e), there xs hs)

-- Two lists of texts without a common one.
Distinct-append_iff :
    (xs ys : List String)
    → All (λ x. All (λ y. x ≢ y) ys) xs
    → Distinct (xs ++ ys) ↔ (Distinct xs × Distinct ys)
Distinct-append_iff [] ys h = (λ d. (tt, d), λ d. d.1)
Distinct-append_iff (x ∷ xs) ys (a, h) = (
  λ (f, d). let (l, r) = (Distinct-append_iff xs ys h).0 d in ((All-append_left _ xs ys f, l), r),
  λ ((f, l), r). (All-append _ xs ys f a, (Distinct-append_iff xs ys h).1 (l, r)),
)

kinds_apart :
    (ms vs : List String)
    → All (λ x. All (λ y. x ≢ y) (map (λ n. "validator:" <> n) vs)) (map (λ n. "mutator:" <> n) ms)
kinds_apart [] vs = tt
kinds_apart (m ∷ ms) vs = (go vs, kinds_apart ms vs)
  where
    go : (vs : List String) → All (λ y. ("mutator:" <> m) ≢ y) (map (λ n. "validator:" <> n) vs)
    go [] = tt
    go (v ∷ vs) = (mutator_key m v, go vs)

-- The keys of the two kinds differ exactly when the names of each kind do.
pub keys_iff :
    (ms vs : List String)
    → Distinct (map (λ n. "mutator:" <> n) ms ++ map (λ n. "validator:" <> n) vs)
      ↔ (Distinct ms × Distinct vs)
keys_iff ms vs =
    let both =
      Distinct-append_iff (map (λ n. "mutator:" <> n) ms) (map (λ n. "validator:" <> n) vs)
        (kinds_apart ms vs) in
    (
      λ d. (
        (Distinct-map_iff "mutator:" ms).0 (both.0 d).0,
        (Distinct-map_iff "validator:" vs).0 (both.0 d).1,
      ),
      λ (l, r).
          both.1 ((Distinct-map_iff "mutator:" ms).1 l, (Distinct-map_iff "validator:" vs).1 r),
    )
