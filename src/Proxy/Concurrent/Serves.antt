-- ===== src/Proxy/Concurrent/Serves.antt =====
-- Many requests at a time (cmd/nacp/nacp.go): all are answered as the reference says.
use mathlib.Core.Path.{subst}
use nacp.Common.{ℕ, zero, suc, ◌+◌, ◌≤◌, ◌<◌, ◌≡◌, refl, List, [], ◌∷◌, length, map, All}
use nacp.GoError.{Result}
use nacp.Admission.{JobMutator, JobValidator, JobCodec, JobHandler, World}
use nacp.Admission.Spec.{Transform, Policy, IsFaithful}
use nacp.Admission.Isolation.{Extends, Extends-refl}
use nacp.Http.{Response}
use nacp.Proxy.Context.{Request, TokenService}
use nacp.Proxy.Handlers.{Codecs}
use nacp.Proxy.Responses.{Responder}
use nacp.Proxy.Serve.{Answer, nacp_handler}
use nacp.Proxy.Concurrent.{
  Task, arrived, resolved, mutating, validating, applied, finished, waiting, turn, step, run, turns,
}
use nacp.Proxy.Concurrent.Reference.{IsSharable, reference}
use nacp.Proxy.Concurrent.Adequate.{alone, Reaches-nacp_handler}
use nacp.Proxy.Concurrent.Tracks.{OnTrack, OnTrack-Extends, step-Keeps}
use nacp.Proxy.Concurrent.Finishes.{IsFinished, run-IsFinished}

module _ {J R S : Type 0} (C : JobCodec J) (K : Codecs J R) (T : Responder S) (N : TokenService)
    (h : JobHandler J) (round_trip : Request → Result Response) (faithful : IsFaithful C)
    (transform : JobMutator J → Transform J) (policy : JobValidator J → Policy J)
    (lawful : IsSharable transform policy h) where
  -- All tasks are on track to the answers to their requests.
  abbrev AllOnTrack : List Request → List (Task J R) → World J → Type 0
  AllOnTrack [] [] w = Unit
  AllOnTrack (r ∷ rs) (t ∷ ts) w =
      OnTrack C K T N h round_trip faithful transform policy lawful
        (reference transform policy C K T N h round_trip r) t w
      × AllOnTrack rs ts w
  AllOnTrack [] (t ∷ ts) w = ⊥
  AllOnTrack (r ∷ rs) [] w = ⊥

  AllOnTrack-Extends :
      (rs : List Request) (ts : List (Task J R)) (w x : World J)
      → Extends w.heap x.heap
      → AllOnTrack rs ts w
      → AllOnTrack rs ts x
  AllOnTrack-Extends [] [] w x e on = on
  AllOnTrack-Extends (r ∷ rs) (t ∷ ts) w x e (on, rest) = (
    OnTrack-Extends C K T N h round_trip faithful transform policy lawful _ t w x e on,
    AllOnTrack-Extends rs ts w x e rest,
  )
  AllOnTrack-Extends [] (t ∷ ts) w x e on = absurd on
  AllOnTrack-Extends (r ∷ rs) [] w x e on = absurd on

  AllOnTrack-waiting : (rs : List Request) (w : World J) → AllOnTrack rs (waiting rs) w
  unfolding reference
  AllOnTrack-waiting [] w = tt
  AllOnTrack-waiting (r ∷ rs) w = (refl, AllOnTrack-waiting rs w)

  abbrev AllKeep : List Request → World J → List (Task J R) × World J → Type 0
  AllKeep rs w (ts, x) = AllOnTrack rs ts x × Extends w.heap x.heap

  turn-AllKeep :
      (i : ℕ) (rs : List Request) (ts : List (Task J R)) (w : World J)
      → AllOnTrack rs ts w
      → AllKeep rs w (turn C K T N h round_trip i ts w)
  unfolding turn
  turn-AllKeep i [] [] w on = (on, Extends-refl w.heap)
  turn-AllKeep zero (r ∷ rs) (t ∷ ts) w (on, rest) =
      let (on', kept) =
        step-Keeps C K T N h round_trip faithful transform policy lawful
          (reference transform policy C K T N h round_trip r) t w on in
      ((on', AllOnTrack-Extends rs ts w _ kept rest), kept)
  turn-AllKeep (suc i) (r ∷ rs) (t ∷ ts) w (on, rest) =
      let (rest', kept) = turn-AllKeep i rs ts w rest in
      (
        (
          OnTrack-Extends C K T N h round_trip faithful transform policy lawful _ t w _ kept on,
          rest',
        ),
        kept,
      )
  turn-AllKeep i [] (t ∷ ts) w on = absurd on
  turn-AllKeep i (r ∷ rs) [] w on = absurd on

  run-AllOnTrack :
      (is : List ℕ) (rs : List Request) (ts : List (Task J R)) (w : World J)
      → AllOnTrack rs ts w
      → let (ts', w') = run C K T N h round_trip is ts w in AllOnTrack rs ts' w'
  unfolding run
  run-AllOnTrack [] rs ts w on = on
  run-AllOnTrack (i ∷ is) rs ts w on =
      let (ts', w') = turn C K T N h round_trip i ts w in
      run-AllOnTrack is rs ts' w' (turn-AllKeep i rs ts w on).0

  answered :
      (rs : List Request) (ts : List (Task J R)) (w : World J)
      → AllOnTrack rs ts w
      → All IsFinished ts
      → ts ≡ map (λ r. finished (reference transform policy C K T N h round_trip r)) rs
  answered [] [] w on done = refl
  answered (r ∷ rs) (finished a ∷ ts) w (on, rest) (_, done) =
      rw (on, answered rs ts w rest done) refl
  answered (r ∷ rs) (arrived q ∷ ts) w on (d, done) = absurd d
  answered (r ∷ rs) (resolved q ∷ ts) w on (d, done) = absurd d
  answered (r ∷ rs) (mutating t ms job ws ∷ ts) w on (d, done) = absurd d
  answered (r ∷ rs) (validating t vs job ws s ∷ ts) w on (d, done) = absurd d
  answered (r ∷ rs) (applied b ∷ ts) w on (d, done) = absurd d
  answered [] (t ∷ ts) w on done = absurd on
  answered (r ∷ rs) [] w on done = absurd on

  -- For a JSON round trip that gives a job back, mutators that do what `transform` says and write to
  -- no job that is there, and validators that judge as `policy` says and write to no job but their
  -- own: of requests that are handled at once, in whatever order they take their steps, each comes to
  -- an end once it has had one turn for each controller and five more, and its answer is the one that
  -- `reference` gives to it, which knows no heap and no other requests.
  pub run-reference :
      (is : List ℕ) (rs : List Request) (w : World J)
      → ((k : ℕ) → k < length rs → length h.mutators + length h.validators + 5 ≤ turns k is)
      → (run C K T N h round_trip is (waiting {R = R} rs) w).0
        ≡ map (λ r. finished (reference transform policy C K T N h round_trip r)) rs
  run-reference is rs w enough =
      let (ts, x) = run C K T N h round_trip is (waiting {R = R} rs) w in
      answered rs ts x (run-AllOnTrack is rs (waiting rs) w (AllOnTrack-waiting rs w))
        (run-IsFinished C K T N h round_trip is rs w enough)

  alone-OnTrack :
      (n : ℕ) (a : Answer) (t : Task J R) (w : World J)
      → OnTrack C K T N h round_trip faithful transform policy lawful a t w
      → let (t', w') = alone C K T N h round_trip n t w in
        OnTrack C K T N h round_trip faithful transform policy lawful a t' w'
  unfolding alone
  alone-OnTrack zero a t w on = on
  alone-OnTrack (suc n) a t w on =
      let (t', w') = step C K T N h round_trip t w in
      alone-OnTrack n a t' w'
        (step-Keeps C K T N h round_trip faithful transform policy lawful a t w on).0

  -- For a JSON round trip that gives a job back, mutators that do what `transform` says and write to
  -- no job that is there, and validators that judge as `policy` says and write to no job but their
  -- own: the handler answers a request as `reference` does, which knows no heap and no pointers,
  -- whatever state it meets.
  pub nacp_handler-reference :
      (r : Request) (w : World J)
      → (nacp_handler C K T N h round_trip r w).0
        ≡ reference transform policy C K T N h round_trip r
  unfolding reference
  nacp_handler-reference r w =
      let (n, e) = Reaches-nacp_handler C K T N h round_trip r w in
      let a = reference transform policy C K T N h round_trip r in
      let on = alone-OnTrack n a (arrived r) w refl in
      subst (λ s. OnTrack C K T N h round_trip faithful transform policy lawful a s.0 s.1) e on
