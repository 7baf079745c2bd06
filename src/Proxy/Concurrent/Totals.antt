-- ===== src/Proxy/Concurrent/Totals.antt =====
-- The counters behind many requests at a time (cmd/nacp/nacp.go, pkg/admissionctrl/controller.go).
use mathlib.Core.Path.{subst}
use nacp.Common.{ℕ, zero, suc, ◌+◌, ◌≤◌, ◌<◌, ◌≡◌, refl, List, [], ◌∷◌, length, All, arith}
use nacp.GoError.{Result}
use nacp.Admission.{JobMutator, JobValidator, JobCodec, JobHandler, World, Metric}
use nacp.Admission.Spec.{Transform, Policy, IsFaithful}
use nacp.Admission.Isolation.{Extends, Extends-trans}
use nacp.Http.{Response}
use nacp.Proxy.Context.{Request, TokenService}
use nacp.Proxy.Handlers.{Codecs}
use nacp.Proxy.Responses.{Responder}
use nacp.Proxy.Serve.{nacp_handler}
use nacp.Proxy.Concurrent.{
  Task, arrived, resolved, mutating, validating, applied, finished, waiting, step, turn, run, turns,
}
use nacp.Proxy.Concurrent.Reference.{IsSharable}
use nacp.Proxy.Concurrent.Finishes.{IsFinished, run-IsFinished}
use nacp.Proxy.Concurrent.Events.{weigh, request_events, all_events}
use nacp.Proxy.Concurrent.Weights.{weigh-append}
use nacp.Proxy.Concurrent.Counts.{Owes, Owes-Extends, Balances, Pays, idle, step-Pays}
use nacp.Proxy.Concurrent.Adequate.{alone, Reaches-nacp_handler}

module _ (f : Metric → ℕ) {J R S : Type 0} (C : JobCodec J) (K : Codecs J R) (T : Responder S)
    (N : TokenService) (h : JobHandler J) (round_trip : Request → Result Response)
    (faithful : IsFaithful C) (transform : JobMutator J → Transform J)
    (policy : JobValidator J → Policy J) (lawful : IsSharable transform policy h) where
  -- Tasks that are together still to count events of weight `n`.
  abbrev AllOwe : ℕ → List (Task J R) → World J → Type 0
  AllOwe n [] w = 0 ≡ n
  AllOwe n (t ∷ ts) w =
      (k : ℕ) × (m : ℕ) × Owes f C K T N h round_trip faithful transform policy lawful k t w
      × AllOwe m ts w
      × (k + m ≡ n)

  AllOwe-Extends :
      (n : ℕ) (ts : List (Task J R)) (w x : World J)
      → Extends w.heap x.heap
      → AllOwe n ts w
      → AllOwe n ts x
  AllOwe-Extends n [] w x e owe = owe
  AllOwe-Extends n (t ∷ ts) w x e (k, m, owes, owe, sum) = (
    k,
    m,
    Owes-Extends f C K T N h round_trip faithful transform policy lawful k t w x e owes,
    AllOwe-Extends m ts w x e owe,
    sum,
  )

  abbrev AllPay : ℕ → World J → List (Task J R) × World J → Type 0
  AllPay n w (ts, x) =
      (k : ℕ) × AllOwe k ts x
      × Balances f C K T N h round_trip faithful transform policy lawful n w k x

  turn-AllPay :
      (i n : ℕ) (ts : List (Task J R)) (w : World J)
      → AllOwe n ts w
      → AllPay n w (turn C K T N h round_trip i ts w)
  unfolding turn
  turn-AllPay i n [] w owe =
      (n, owe, idle f C K T N h round_trip faithful transform policy lawful n w)
  turn-AllPay zero n (t ∷ ts) w (k, m, owes, owe, sum) =
      let (k', owes', (kept, paid)) =
        step-Pays f C K T N h round_trip faithful transform policy lawful k t w owes in
      let (t', x) = step C K T N h round_trip t w in
      (k' + m, (k', m, owes', AllOwe-Extends m ts w x kept owe, refl), (kept, omega arith))
  turn-AllPay (suc i) n (t ∷ ts) w (k, m, owes, owe, sum) =
      let (m', owe', (kept, paid)) = turn-AllPay i m ts w owe in
      let (ts', x) = turn C K T N h round_trip i ts w in
      (
        k + m',
        (
          k,
          m',
          Owes-Extends f C K T N h round_trip faithful transform policy lawful k t w x kept owes,
          owe',
          refl,
        ),
        (kept, omega arith),
      )

  run-AllPay :
      (is : List ℕ) (n : ℕ) (ts : List (Task J R)) (w : World J)
      → AllOwe n ts w
      → AllPay n w (run C K T N h round_trip is ts w)
  unfolding run
  run-AllPay [] n ts w owe =
      (n, owe, idle f C K T N h round_trip faithful transform policy lawful n w)
  run-AllPay (i ∷ is) n ts w owe =
      let (k, owe', (kept, paid)) = turn-AllPay i n ts w owe in
      let (ts', x) = turn C K T N h round_trip i ts w in
      let (l, owe'', (kept', paid')) = run-AllPay is k ts' x owe' in
      (l, owe'', (Extends-trans kept kept', omega arith))

  AllOwe-waiting :
      (rs : List Request) (w : World J)
      → AllOwe (weigh f (all_events transform policy C K T N h round_trip rs)) (waiting rs) w
  unfolding all_events request_events weigh
  AllOwe-waiting [] w = refl
  AllOwe-waiting (r ∷ rs) w = (
    weigh f (request_events transform policy C K T N h round_trip r),
    weigh f (all_events transform policy C K T N h round_trip rs),
    refl,
    AllOwe-waiting rs w,
    omega (arith, weigh-append f (request_events transform policy C K T N h round_trip r)),
  )

  owe_nothing :
      (n : ℕ) (ts : List (Task J R)) (w : World J) → AllOwe n ts w → All IsFinished ts → n ≡ 0
  owe_nothing n [] w owe done = omega (arith, owe)
  owe_nothing n (finished a ∷ ts) w (k, m, owes, owe, sum) (_, done) =
      omega (arith, owes, sum, owe_nothing m ts w owe done)
  owe_nothing n (arrived q ∷ ts) w owe (d, done) = absurd d
  owe_nothing n (resolved q ∷ ts) w owe (d, done) = absurd d
  owe_nothing n (mutating t ms job ws ∷ ts) w owe (d, done) = absurd d
  owe_nothing n (validating t vs job ws s ∷ ts) w owe (d, done) = absurd d
  owe_nothing n (applied b ∷ ts) w owe (d, done) = absurd d

  -- For a JSON round trip that gives a job back, mutators that do what `transform` says and write to
  -- no job that is there, and validators that judge as `policy` says and write to no job but their
  -- own: whatever weight each event is given, the events of requests that are handled at once weigh
  -- as much as the events of these requests alone, by a specification that knows no heap and no
  -- other requests; in whatever order they take their steps, once each has had enough turns.
  pub run-all_events :
      (is : List ℕ) (rs : List Request) (w : World J)
      → ((k : ℕ) → k < length rs → length h.mutators + length h.validators + 5 ≤ turns k is)
      → weigh f (run C K T N h round_trip is (waiting {R = R} rs) w).1.metrics
        ≡ weigh f w.metrics + weigh f (all_events transform policy C K T N h round_trip rs)
  run-all_events is rs w enough =
      let (k, owe, (kept, paid)) = run-AllPay is _ (waiting rs) w (AllOwe-waiting rs w) in
      let (ts, x) = run C K T N h round_trip is (waiting {R = R} rs) w in
      omega
        (arith, paid, owe_nothing k ts x owe (run-IsFinished C K T N h round_trip is rs w enough))

  alone-Pays :
      (i n : ℕ) (t : Task J R) (w : World J)
      → Owes f C K T N h round_trip faithful transform policy lawful n t w
      → Pays f C K T N h round_trip faithful transform policy lawful n w
          (alone C K T N h round_trip i t w)
  unfolding alone
  alone-Pays zero n t w owes =
      (n, owes, idle f C K T N h round_trip faithful transform policy lawful n w)
  alone-Pays (suc i) n t w owes =
      let (k, owes', (kept, paid)) =
        step-Pays f C K T N h round_trip faithful transform policy lawful n t w owes in
      let (t', x) = step C K T N h round_trip t w in
      let (l, owes'', (kept', paid')) = alone-Pays i k t' x owes' in
      (l, owes'', (Extends-trans kept kept', omega arith))

  -- For a JSON round trip that gives a job back, mutators that do what `transform` says and write to
  -- no job that is there, and validators that judge as `policy` says and write to no job but their
  -- own: whatever weight each event is given, the events that the handler counts for a request weigh
  -- as much as those that `request_events` lists, whatever state it meets. These are, up to the
  -- first mutator that fails, its warnings with their number, and a mutation if it reports one; one
  -- error for the mutator that fails; and then, if none does, of each validator its warnings, and an
  -- error if it has one. A request that does not decode, that has no job, or that is not to be
  -- admitted counts nothing.
  pub nacp_handler-request_events :
      (r : Request) (w : World J)
      → weigh f (nacp_handler C K T N h round_trip r w).1.metrics
        ≡ weigh f w.metrics + weigh f (request_events transform policy C K T N h round_trip r)
  unfolding request_events
  nacp_handler-request_events r w =
      let n = weigh f (request_events transform policy C K T N h round_trip r) in
      let (i, e) = Reaches-nacp_handler C K T N h round_trip r w in
      let (k, owes, (kept, paid)) =
        subst (λ s. Pays f C K T N h round_trip faithful transform policy lawful n w s) e
          (alone-Pays i n (arrived r) w refl) in
      omega (arith, paid, owes)
