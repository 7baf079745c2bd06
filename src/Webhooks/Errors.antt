-- ===== src/Webhooks/Errors.antt =====
-- What the loops of `multierror.Append` in pkg/admissionctrl collect.
use mathlib.Core.List.{flat_map}
use nacp.Common.{
  Bool, ◌⊎◌, inl, inr, ◌≡◌, refl, sym, ap, ◌∙◌, String, Option, none, some, List, [], ◌∷◌, ◌++◌,
  map, append_assoc, append-nil,
}
use nacp.GoError.{
  GoError, message, parts, parts?, errors-of_errors, Result, ok, err, Multierror, IsFlattening,
}
use nacp.Payloads.{Ending, replace}
use nacp.Webhooks.{or_fail, append_each, append_onto}

pub flat_map-messages :
    {A : Type 0} (f : A → String) (xs : List A)
    → flat_map parts (map (λ x. message (f x)) xs) ≡ map (λ x. message (f x)) xs
unfolding flat_map
flat_map-messages f [] = refl
flat_map-messages f (x ∷ xs) = λ i. message (f x) ∷ flat_map-messages f xs i

regroup : {A : Type 0} (xs ys zs : List A) → (xs ++ (ys ++ [])) ++ zs ≡ xs ++ (ys ++ zs)
regroup xs ys zs = rw (append-nil ys) (append_assoc xs ys zs)

module _ (M : Multierror) (L : IsFlattening M) where
  pub parts-append :
      (e : Option GoError) (es : List GoError)
      → parts (M.append e es) ≡ parts? e ++ flat_map parts es
  parts-append e es = rw (L.append-eq e es) (errors-of_errors (parts? e ++ flat_map parts es))

  pub parts-append_onto :
      (e : GoError) (es : List GoError) → parts (append_onto M e es) ≡ parts e ++ flat_map parts es
  unfolding append_onto flat_map
  parts-append_onto e [] = sym (append-nil (parts e))
  parts-append_onto e (x ∷ es) =
      parts-append_onto (M.append (some e) (x ∷ [])) es
      ∙ ap (λ t. t ++ flat_map parts es) (parts-append (some e) (x ∷ []))
      ∙ regroup (parts e) (parts x) (flat_map parts es)

  -- The messages of a loop that starts with an empty error are the error's parts.
  pub parts-append_onto-messages :
      {A : Type 0} (f : A → String) (xs : List A) (e : GoError)
      → parts e ≡ []
      → parts (append_onto M e (map (λ x. message (f x)) xs)) ≡ map (λ x. message (f x)) xs
  parts-append_onto-messages f xs e empty =
      parts-append_onto e (map (λ x. message (f x)) xs) ∙ rw empty (flat_map-messages f xs)

  pub parts-append-nil : parts (M.append none []) ≡ []
  unfolding flat_map
  parts-append-nil = parts-append none []

  pub parts-append_each :
      (o : Option GoError) (es : List GoError)
      → parts? (append_each M o es) ≡ parts? o ++ flat_map parts es
  unfolding append_each flat_map
  parts-append_each o [] = sym (append-nil (parts? o))
  parts-append_each o (x ∷ es) =
      parts-append_each (some (M.append o (x ∷ []))) es
      ∙ ap (λ t. t ++ flat_map parts es) (parts-append o (x ∷ []))
      ∙ regroup (parts? o) (parts x) (flat_map parts es)

-- Inversion of the error path.
pub or_fail-eq-replace :
    {A : Type 0} {J : Type 0} (r : Result A) (f : A → Ending J) {j : J} {b : Bool}
    {ws : List GoError}
    → or_fail r f ≡ replace j b ws
    → (a : A) × (r ≡ ok a) × (f a ≡ replace j b ws)
or_fail-eq-replace (ok a) f h = (a, refl, h)
or_fail-eq-replace (err e) f h = cc

pub List-cases : {A : Type 0} (xs : List A) → (xs ≡ []) ⊎ ((x : A) × (ys : List A) × (xs ≡ x ∷ ys))
List-cases [] = inl refl
List-cases (x ∷ xs) = inr (x, xs, refl)
