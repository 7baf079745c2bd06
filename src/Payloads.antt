-- ===== src/Payloads.antt =====
-- How the controllers of pkg/admissionctrl read their payload, and hand back a job.
use nacp.Common.{
  String, lt_of_get_elem?, ◌≡◌, refl, ◌<◌, Bool, false, Option, none, some, List, [], ◌∷◌, ◌++◌,
  length, length-append, get_elem?, get_elem?-append_length, arith,
}
use nacp.GoError.{GoError, message, Result}
use nacp.Config.{RequestContext}
use nacp.Admission.{Ref, Payload, Mutated, Validated, deref}
use nacp.Admission.Spec.{Mutation, Transform, Policy, IsMutatorOf, IsValidatorOf}
use nacp.Admission.Isolation.{IsPrivate, IsAdditive, Extends, Extends-refl, Extends-append}
use nacp.Http.{Bytes, OutRequest, Response}

-- A payload with its job in place of the pointer: what is sent to a policy.
pub record Input (J : Type 0) : Type 0 where
  pub job : J
  pub context : Option RequestContext

-- `encoding/json`, `net/http` and the network, for webhooks. `check_request` is the error of
-- `http.NewRequestWithContext`, `send` is `Client.Do`.
pub record Web (J : Type 0) : Type 0 where
  pub marshal_input : Input J → Result Bytes
  pub check_request : OutRequest → Option GoError
  pub send : OutRequest → Result Response

-- How a mutator ends: with an error, with the job that it was given, or with a new job.
pub data Ending (J : Type 0) : Type 0 where
  refuse : List GoError → GoError → Ending J
  keep : List GoError → Ending J
  replace : J → Bool → List GoError → Ending J

abbrev pub fail : {J : Type 0} → GoError → Ending J
fail e = refuse [] e

-- The controller never passes a nil job, at which these would panic.
abbrev pub nil_job : GoError
nil_job = message "runtime error: invalid memory address or nil pointer dereference"

module _ {J : Type 0} where
  -- The results of `Mutate`. A new job is a new object; an unchanged one is the payload's pointer.
  give : Ending J → Ref → List J → Mutated × List J
  give (refuse ws e) r h =
      (record { job = none; mutated = false; warnings = ws; error = some e }, h)
  give (keep ws) r h = (record { job = some r; mutated = false; warnings = ws; error = none }, h)
  give (replace j b ws) r h =
      (record { job = some (length h); mutated = b; warnings = ws; error = none }, h ++ j ∷ [])

  mutate_with : (Input J → Ending J) → Payload → List J → Option Ref → Option J → Mutated × List J
  mutate_with f p h (some r) (some j) = give (f (record { job = j; context = p.context })) r h
  mutate_with f p h _ _ = give (fail nil_job) 0 h

  -- A `Mutate` method, from what it computes.
  unfoldable pub mutate_by : (Input J → Ending J) → Payload → List J → Mutated × List J
  unfolding give mutate_with
  mutate_by f p h = mutate_with f p h p.job (deref h p.job)

  abbrev pub ending : J → Ending J → Mutation J
  ending j (refuse ws e) = record { job = none; mutated = false; warnings = ws; error = some e }
  ending j (keep ws) = record { job = some j; mutated = false; warnings = ws; error = none }
  ending j (replace j' b ws) = record { job = some j'; mutated = b; warnings = ws; error = none }

  -- What such a method does to a job, whatever the heap.
  abbrev pub transform_by : (Input J → Ending J) → Transform J
  transform_by f ctx j = ending j (f (record { job = j; context = ctx }))

  give-ending :
      (e : Ending J) (r : Ref) (h : List J) (j : J)
      → get_elem? h r ≡ some j
      → ending j e ≡ record {
        job = deref (give e r h).1 (give e r h).0.job;
        mutated = (give e r h).0.mutated;
        warnings = (give e r h).0.warnings;
        error = (give e r h).0.error;
      }
  unfolding give
  give-ending (refuse ws e) r h j found = refl
  give-ending (keep ws) r h j found = rw found
  give-ending (replace j' b ws) r h j found = rw (get_elem?-append_length h j')

  give_points :
      (e : Ending J) (r : Ref) (h : List J) (job : Ref)
      → r < length h
      → (give e r h).0.job ≡ some job
      → job < length (give e r h).1
  unfolding give
  give_points (refuse ws e) r h job l found = cc
  give_points (keep ws) r h job l found = ground arith
  give_points (replace j b ws) r h job l found = ground (arith, length-append h (j ∷ []))

  mutate_with_points :
      (f : Input J → Ending J) (p : Payload) (h : List J) (job : Ref) (r : Option Ref)
      (j : Option J)
      → deref h r ≡ j
      → (mutate_with f p h r j).0.job ≡ some job
      → job < length (mutate_with f p h r j).1
  unfolding mutate_with give
  mutate_with_points f p h job (some r) (some j) e found =
      give_points (f (record { job = j; context = p.context })) r h job (lt_of_get_elem? h r e)
        found
  mutate_with_points f p h job (some r) none e found = cc
  mutate_with_points f p h job none j e found = cc

  mutate_with-ending :
      (f : Input J → Ending J) (p : Payload) (h : List J) (r : Option Ref) (j : J)
      → deref h r ≡ some j
      → let t = mutate_with f p h r (some j) in
        transform_by f p.context j ≡ record {
          job = deref t.1 t.0.job;
          mutated = t.0.mutated;
          warnings = t.0.warnings;
          error = t.0.error;
        }
  unfolding mutate_with
  mutate_with-ending f p h (some r) j e =
      give-ending (f (record { job = j; context = p.context })) r h j e
  mutate_with-ending f p h none j e = cc

  -- Such a method depends on the job and the context alone, and returns a job of the heap.
  pub mutate_by-IsMutatorOf :
      (name : String) (f : Input J → Ending J)
      → IsMutatorOf (transform_by f) (record { name = name; mutate = mutate_by f })
  unfolding mutate_by
  mutate_by-IsMutatorOf name f = record {
    computes = λ p h j found. rw found (mutate_with-ending f p h p.job j found);
    points = λ p h r found. mutate_with_points f p h r p.job (deref h p.job) refl found;
  }

  give-Extends : (e : Ending J) (r : Ref) (h : List J) → Extends h (give e r h).1
  unfolding give
  give-Extends (refuse ws e) r h = Extends-refl h
  give-Extends (keep ws) r h = Extends-refl h
  give-Extends (replace j b ws) r h = Extends-append h j

  mutate_with-Extends :
      (f : Input J → Ending J) (p : Payload) (h : List J) (r : Option Ref) (j : Option J)
      → Extends h (mutate_with f p h r j).1
  unfolding mutate_with
  mutate_with-Extends f p h (some r) (some j) =
      give-Extends (f (record { job = j; context = p.context })) r h
  mutate_with-Extends f p h (some r) none = give-Extends (fail nil_job) 0 h
  mutate_with-Extends f p h none j = give-Extends (fail nil_job) 0 h

  -- Such a method writes to no job that is there.
  pub mutate_by-IsAdditive :
      (name : String) (f : Input J → Ending J)
      → IsAdditive (record { name = name; mutate = mutate_by f })
  unfolding mutate_by
  mutate_by-IsAdditive name f p h = mutate_with-Extends f p h p.job (deref h p.job)

  validate_with : (Input J → Validated) → Payload → Option J → Validated
  validate_with f p (some j) = f (record { job = j; context = p.context })
  validate_with f p none = record { warnings = []; error = some nil_job }

  -- A `Validate` method, from what it computes. It writes to no job.
  unfoldable pub validate_by : (Input J → Validated) → Payload → List J → Validated × List J
  unfolding validate_with
  validate_by f p h = (validate_with f p (deref h p.job), h)

  abbrev pub policy_by : (Input J → Validated) → Policy J
  policy_by f ctx j = f (record { job = j; context = ctx })

  pub validate_by-IsValidatorOf :
      (name : String) (f : Input J → Validated)
      → IsValidatorOf (policy_by f) (record { name = name; validate = validate_by f })
  unfolding validate_by
  validate_by-IsValidatorOf name f p h j found = rw found

  pub validate_by-IsPrivate :
      (name : String) (f : Input J → Validated)
      → IsPrivate {J = J} (record { name = name; validate = validate_by f })
  unfolding validate_by
  validate_by-IsPrivate name f = record {
    keeps = λ p h r l other. refl;
    grows = λ p h. omega arith;
  }
