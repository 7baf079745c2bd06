-- ===== src/Effects.antt =====
-- What start-up acquires and lets go, as a list of events, with early returns and deferred calls.
use nacp.Common.{
  ℕ, ◌≡◌, ◌∙◌, Bool, Option, none, some, List, [], ◌∷◌, ◌++◌, eqb, if◌then◌else◌, inl, inr,
  Option-cases,
}

-- What must be let go again: the providers of telemetry, the exporter that a caller hands over, the
-- file that configures OPA, and OPA.
pub data Resource : Type 0 where
  tracer_provider meter_provider logger_provider trace_exporter opa_config opa_engine : Resource

pub data Event : Type 0 where
  started : Resource → Event
  stopped : Resource → Event
  flushed : Resource → Event
  -- `otel.SetTextMapPropagator`, and the setters of the global providers.
  propagator_set : Event
  applied : Resource → Event
  -- `signal.NotifyContext`, and the function that it returns.
  signals_caught : Event
  signals_restored : Event
  -- `ListenAndServe` or `ListenAndServeTLS`, and `Shutdown`.
  served : Event
  server_shut_down : Event

-- A call that has returned.
pub record Called (R : Type 0) : Type 0 where
  pub events : List Event
  pub result : R

-- A part of a function that may have returned early.
pub data Progress (R A : Type 0) : Type 0 where
  returned : R → Progress R A
  continues : A → Progress R A

pub record Flow (R A : Type 0) : Type 0 where
  pub events : List Event
  pub progress : Progress R A

module _ {R : Type 0} where
  abbrev pub done : R → Called R
  done r = record { events = []; result = r }

  -- The events `es`, and then the call.
  abbrev pub behind : List Event → Called R → Called R
  behind es c = record c { events = es ++ c.events }

  -- A deferred call, which runs however the function has returned.
  abbrev pub deferring : Called R → List Event → Called R
  deferring c es = record c { events = c.events ++ es }

-- A part of a function, and then the rest, unless it has returned.
infixl 5 ◌and_then◌
abbrev pub ◌and_then◌ : {R A : Type 0} → Flow R A → (A → Called R) → Called R
f and_then rest = elim f.progress [
  | returned r ↦ record { events = f.events; result = r }
  | continues a ↦ behind f.events (rest a)
]

index : Resource → ℕ
index tracer_provider = 0
index meter_provider = 1
index logger_provider = 2
index trace_exporter = 3
index opa_config = 4
index opa_engine = 5

unfoldable pub same : Resource → Resource → Bool
unfolding index
same r s = eqb (index r) (index s)

-- The resources without one that is let go: none if it is not there.
abbrev pub release : Resource → List Resource → Option (List Resource)
release r [] = none
release r (x ∷ xs) =
    let rest = release r xs in
    if same r x then some xs else elim rest [ none ↦ none | some ys ↦ some (x ∷ ys) ]

-- The resources held behind the events, from those held before them: none if a resource is let go
-- that is not held, as when it is let go twice.
abbrev pub held : List Resource → List Event → Option (List Resource)
held h [] = some h
held h (started r ∷ es) = held (r ∷ h) es
held h (stopped r ∷ es) = elim (release r h) [ none ↦ none | some h' ↦ held h' es ]
held h (flushed r ∷ es) = held h es
held h (propagator_set ∷ es) = held h es
held h (applied r ∷ es) = held h es
held h (signals_caught ∷ es) = held h es
held h (signals_restored ∷ es) = held h es
held h (served ∷ es) = held h es
held h (server_shut_down ∷ es) = held h es

-- All that is acquired is let go, once.
abbrev pub IsBalanced : List Event → Type 0
IsBalanced es = (h : List Resource) → held h es ≡ some h

pub held-append :
    (es fs : List Event) (h k : List Resource) → held h es ≡ some k → held h (es ++ fs) ≡ held k fs
held-append [] fs h k e = cc
held-append (started r ∷ es) fs h k e = held-append es fs (r ∷ h) k e
held-append (stopped r ∷ es) fs h k e = elim (Option-cases (release r h)) [
  | inl gone ↦ absurd (cc (rw (gone, held) at e))
  | inr (h', left) ↦ rw (left, held) (held-append es fs h' k (rw (left, held) at e))
]
held-append (flushed r ∷ es) fs h k e = held-append es fs h k e
held-append (propagator_set ∷ es) fs h k e = held-append es fs h k e
held-append (applied r ∷ es) fs h k e = held-append es fs h k e
held-append (signals_caught ∷ es) fs h k e = held-append es fs h k e
held-append (signals_restored ∷ es) fs h k e = held-append es fs h k e
held-append (served ∷ es) fs h k e = held-append es fs h k e
held-append (server_shut_down ∷ es) fs h k e = held-append es fs h k e

pub append-IsBalanced : (es fs : List Event) → IsBalanced es → IsBalanced fs → IsBalanced (es ++ fs)
append-IsBalanced es fs b c h = held-append es fs h h (b h) ∙ c h

-- What the events apply globally.
abbrev pub applications : List Event → List Resource
applications [] = []
applications (applied r ∷ es) = r ∷ applications es
applications (started r ∷ es) = applications es
applications (stopped r ∷ es) = applications es
applications (flushed r ∷ es) = applications es
applications (propagator_set ∷ es) = applications es
applications (signals_caught ∷ es) = applications es
applications (signals_restored ∷ es) = applications es
applications (served ∷ es) = applications es
applications (server_shut_down ∷ es) = applications es
