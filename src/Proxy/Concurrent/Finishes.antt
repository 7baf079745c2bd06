-- ===== src/Proxy/Concurrent/Finishes.antt =====
-- How many steps a request takes (cmd/nacp/nacp.go), whatever its controllers do.
use native.Mathlib.Decide.{dec_lt}
use nacp.Common.{
  ℕ, zero, suc, ◌+◌, ◌-◌, ◌≤◌, ◌<◌, ◌≡◌, refl, List, [], ◌∷◌, length, eqb, arith, All, Option, none,
  some, if◌then◌else◌,
}
use nacp.GoError.{Result, ok, err, GoError}
use nacp.Admission.{Ref, JobMutator, JobCodec, JobHandler, World, run_mutator}
use nacp.Http.{Response}
use nacp.Proxy.Context.{Request, TokenService, resolve_request_context}
use nacp.Proxy.Handlers.{Envelope, EnvelopeCodec, Codecs}
use nacp.Proxy.Responses.{Responder}
use nacp.Proxy.Concurrent.{
  Purpose, Ticket, Task, waiting, arrived, resolved, mutating, validating, applied, finished,
  mutated, opened, decoded, routed, begin, arrive, step, turn, run, turns,
}

module _ {J R : Type 0} where
  -- A bound on the steps that a task still takes.
  abbrev pub remaining : JobHandler J → Task J R → ℕ
  remaining h (arrived r) = length h.mutators + length h.validators + 5
  remaining h (resolved r) = length h.mutators + length h.validators + 4
  remaining h (mutating t ms job ws) = length ms + length h.validators + 3
  remaining h (validating t vs job ws s) = length vs + 2
  remaining h (applied a) = 1
  remaining h (finished a) = 0

  -- The same of the task at a position.
  abbrev pub left : JobHandler J → List (Task J R) → ℕ → ℕ
  left h [] k = 0
  left h (t ∷ ts) zero = remaining h t
  left h (t ∷ ts) (suc k) = left h ts k

  abbrev pub IsFinished : Task J R → Type 0
  IsFinished (finished a) = Unit
  IsFinished _ = ⊥

  All-IsFinished :
      (h : JobHandler J) (ts : List (Task J R)) → ((k : ℕ) → left h ts k ≡ 0) → All IsFinished ts
  All-IsFinished h [] none_left = tt
  All-IsFinished h (t ∷ ts) none_left =
      (is_finished t (none_left 0), All-IsFinished h ts (λ k. none_left (suc k)))
    where
      is_finished : (t : Task J R) → remaining h t ≡ 0 → IsFinished t
      is_finished (arrived r) e = absurd (omega arith)
      is_finished (resolved r) e = absurd (omega arith)
      is_finished (mutating t ms job ws) e = absurd (omega arith)
      is_finished (validating t vs job ws s) e = absurd (omega arith)
      is_finished (applied a) e = absurd (omega arith)
      is_finished (finished a) e = tt

module _ {J : Type 0} (R : Type 0) where
  left_arrived :
      (h : JobHandler J) (rs : List Request) (k : ℕ)
      → left h (waiting {R = R} rs) k ≤ length h.mutators + length h.validators + 5
  left_arrived h [] k = omega arith
  left_arrived h (r ∷ rs) zero = omega arith
  left_arrived h (r ∷ rs) (suc k) = left_arrived h rs k

  left_beyond :
      (h : JobHandler J) (rs : List Request) (k : ℕ)
      → length rs ≤ k
      → left h (waiting {R = R} rs) k ≡ 0
  left_beyond h [] k l = refl
  left_beyond h (r ∷ rs) zero l = absurd (omega arith)
  left_beyond h (r ∷ rs) (suc k) l = left_beyond h rs k (omega arith)

module _ {J R S : Type 0} (C : JobCodec J) (K : Codecs J R) (T : Responder S) (N : TokenService)
    (h : JobHandler J) (round_trip : Request → Result Response) where
  arrive_bound :
      (a : Result Request)
      → remaining h (arrive C K T N h round_trip a) ≤ length h.mutators + length h.validators + 4
  unfolding arrive
  arrive_bound (ok r) = omega arith
  arrive_bound (err e) = omega arith

  decoded_bound :
      (p : Purpose) (L : EnvelopeCodec J R) (r : Request) (e : Result (Envelope J R)) (w : World J)
      → remaining h (decoded C K T N h round_trip p L r e w).0
        ≤ length h.mutators + length h.validators + 3
  unfolding decoded opened
  decoded_bound p L r (err e) w = omega arith
  decoded_bound p L r (ok e) w = ground arith

  begin_bound :
      (r : Request) (route : Option (Purpose × EnvelopeCodec J R)) (w : World J)
      → remaining h (begin C K T N h round_trip r route w).0
        ≤ length h.mutators + length h.validators + 3
  unfolding begin
  begin_bound r none w = omega arith
  begin_bound r (some (p, L)) w = decoded_bound p L r (L.decode r.body) w

  mutated_bound :
      (t : Ticket J R) (ms : List (JobMutator J)) (ws : List GoError)
      (r : Result (Ref × List GoError) × World J)
      → remaining h (mutated t ms ws r).0 ≤ length ms + length h.validators + 3
  unfolding mutated
  mutated_bound t ms ws (ok a, w) = omega arith
  mutated_bound t ms ws (err e, w) = omega arith

  step_bound :
      (t : Task J R) (w : World J)
      → remaining h (step C K T N h round_trip t w).0 ≤ remaining h t - 1
  unfolding step
  step_bound (arrived r) w =
      omega (arith, arrive_bound (resolve_request_context N h.resolve_token r))
  step_bound (resolved r) w = omega (arith, begin_bound r (routed C K T N h round_trip r) w)
  step_bound (mutating t [] job ws) w = omega arith
  step_bound (mutating t (m ∷ ms) job ws) w =
      omega (arith, mutated_bound t ms ws (run_mutator m t.request.values.request_context job w))
  step_bound (validating t [] job ws s) w = omega arith
  step_bound (validating t (v ∷ vs) job ws s) w = omega arith
  step_bound (applied a) w = omega arith
  step_bound (finished a) w = omega arith

  turn_bound :
      (i : ℕ) (ts : List (Task J R)) (w : World J) (k : ℕ)
      → left h (turn C K T N h round_trip i ts w).0 k ≤ left h ts k - (if eqb i k then 1 else 0)
  unfolding turn
  turn_bound i [] w k = omega arith
  turn_bound zero (t ∷ ts) w zero = omega (arith, step_bound t w)
  turn_bound zero (t ∷ ts) w (suc k) = ground arith
  turn_bound (suc i) (t ∷ ts) w zero = ground arith
  turn_bound (suc i) (t ∷ ts) w (suc k) = ground (arith, turn_bound i ts w k)

  run_bound :
      (is : List ℕ) (ts : List (Task J R)) (w : World J) (k : ℕ)
      → left h (run C K T N h round_trip is ts w).0 k ≤ left h ts k - turns k is
  unfolding run turns
  run_bound [] ts w k = omega arith
  run_bound (i ∷ is) ts w k =
      let (ts', w') = turn C K T N h round_trip i ts w in
      omega (arith, turn_bound i ts w k, run_bound is ts' w' k)

  -- Whatever the controllers do, and in whatever order requests take their steps: each is answered
  -- once every request has had five turns, and one for each mutator and each validator.
  pub run-IsFinished :
      (is : List ℕ) (rs : List Request) (w : World J)
      → ((k : ℕ) → k < length rs → length h.mutators + length h.validators + 5 ≤ turns k is)
      → All IsFinished (run C K T N h round_trip is (waiting {R = R} rs) w).0
  run-IsFinished is rs w enough =
      All-IsFinished h (run C K T N h round_trip is (waiting {R = R} rs) w).0 λ k.
        elim (dec_lt k (length rs)) [
          | yes l ↦
              omega
                (arith, run_bound is (waiting {R = R} rs) w k, left_arrived R h rs k, enough k l)
          | no l ↦
              omega
                (arith, run_bound is (waiting {R = R} rs) w k, left_beyond R h rs k (omega arith))
        ]
