-- ===== src/Proxy/Concurrent/Adequate.antt =====
-- A request that is alone takes its steps to where the handler of cmd/nacp/nacp.go ends.
use nacp.Common.{
  ℕ, zero, suc, ◌≡◌, refl, some, List, [], ◌∷◌, ◌++◌, length, Bool-cases, Option-cases, inl, inr,
}
use nacp.GoError.{GoError, Result, ok, err, Result-cases, ◌>>=◌, wrapping}
use nacp.Admission.{
  Ref, Validated, JobMutator, JobValidator, JobCodec, JobHandler, World, next, conclude,
  run_mutator, run_validator, mutate_all, validate_all, admission_mutators, admission_validators,
  apply_admission_controllers,
}
use nacp.Http.{Response}
use nacp.Proxy.Routes.{is_register, is_plan, is_validate}
use nacp.Proxy.Context.{Request, TokenService, resolve_request_context}
use nacp.Proxy.Handlers.{
  Envelope, EnvelopeCodec, Codecs, rewrite_request, with_warnings, with_verdict, wrapping_next,
  encode, admit, handle_validate, handle_register, handle_plan, apply_admission,
}
use nacp.Proxy.Responses.{Responder}
use nacp.Proxy.Serve.{admitted, nacp_handler}
use nacp.Proxy.Concurrent.{
  admission, validation, Ticket, Task, arrived, resolved, mutating, validating, applied, finished,
  no_verdict, context_of, controller_error, conclude_ticket, conclude_admission, mutated, validated,
  opened, decoded, routed, begin, arrive, settle, step,
}

module _ {J R S : Type 0} (C : JobCodec J) (K : Codecs J R) (T : Responder S) (N : TokenService)
    (h : JobHandler J) (round_trip : Request → Result Response) where
  -- The steps of a task that is alone.
  unfoldable pub alone : ℕ → Task J R → World J → Task J R × World J
  alone zero t w = (t, w)
  alone (suc n) t w = let (t', w') = step C K T N h round_trip t w in alone n t' w'

  abbrev pub Reaches : Task J R → World J → Task J R × World J → Type 0
  Reaches t w end = (n : ℕ) × (alone n t w ≡ end)

  pub Reaches-step :
      (t : Task J R) (w : World J) (end : Task J R × World J)
      → Reaches (step C K T N h round_trip t w).0 (step C K T N h round_trip t w).1 end
      → Reaches t w end
  unfolding alone
  Reaches-step t w end (n, e) = (suc n, e)

  -- The task that has the answer to what a handler returns.
  abbrev answered_by : Result Request × World J → Task J R × World J
  answered_by (a, w) = (finished (settle C K T N h round_trip a), w)

  Reaches-applied : (a : Result Request) (w : World J) → Reaches (applied a) w (answered_by (a, w))
  unfolding alone step
  Reaches-applied a w = (1, refl)

  abbrev judged_by :
      Ticket J R → Ref → List GoError → Validated × World J → Result Request × World J
  judged_by t job ws (v, w) = (conclude_ticket t ws v (encode t.codec t.envelope job w), w)

  Reaches-validating :
      (t : Ticket J R) (vs : List (JobValidator J)) (job : Ref) (ws : List GoError) (s : Validated)
      (w : World J)
      → Reaches (validating t vs job ws s) w (
          answered_by
            (judged_by t job ws (validate_all T.multierror C vs (context_of t) job (s, w))))
  unfolding step validate_all validated
  Reaches-validating t [] job ws s w =
      Reaches-step (validating t [] job ws s) w _ (Reaches-applied _ w)
  Reaches-validating t (v ∷ vs) job ws s w =
      let (s', w') = run_validator T.multierror C v (context_of t) job (s, w) in
      Reaches-step (validating t (v ∷ vs) job ws s) w _ (Reaches-validating t vs job ws s' w')

  -- The rest of a handler behind the mutators.
  abbrev rest_of : Ticket J R → Result (Ref × List GoError) × World J → Result Request × World J
  rest_of t (err e, w) = (err (controller_error t.purpose e), w)
  rest_of t (ok (job, ws), w) =
      judged_by t job ws
        (validate_all T.multierror C h.validators (context_of t) job (no_verdict, w))

  Reaches-mutating :
      (t : Ticket J R) (ms : List (JobMutator J)) (job : Ref) (ws : List GoError) (w : World J)
      → Reaches
          (mutating t ms job ws)
          w
          (answered_by (rest_of t (mutate_all ms (context_of t) job ws w)))
  unfolding step mutate_all
  Reaches-mutating t [] job ws w =
      Reaches-step (mutating t [] job ws) w _
        (Reaches-validating t h.validators job ws no_verdict w)
  Reaches-mutating t (m ∷ ms) job ws w =
      Reaches-step (mutating t (m ∷ ms) job ws) w _
        (go (run_mutator m (context_of t) job w) (Reaches-mutating t ms))
    where
      go :
          (r : Result (Ref × List GoError) × World J)
          → ((job : Ref) (ws : List GoError) (w : World J)
              → Reaches
                  (mutating t ms job ws)
                  w
                  (answered_by (rest_of t (mutate_all ms (context_of t) job ws w))))
          → Reaches (mutated t ms ws r).0 (mutated t ms ws r).1 (
              answered_by
                (rest_of t (next r λ r w'. mutate_all ms (context_of t) r.0 (ws ++ r.1) w')))
      go (ok (job', vs), w') rest = rest job' (ws ++ vs) w'
      go (err e, w') rest = Reaches-applied _ w'

  -- What `admit` and `handle_validate` do behind the mutators is what a ticket says.
  admission_rest :
      (L : EnvelopeCodec J R) (r : Request) (e : Envelope J R)
      (x : Result (Ref × List GoError) × World J)
      → let ctx = r.values.request_context in
        next
          (wrapping_next "admission controllers send an error, returning error" (
            next x λ m w'.
              conclude m.0 m.1 (validate_all T.multierror C h.validators ctx m.0 (no_verdict, w'))))
          (λ a w'. (
            (wrapping "error marshalling job" (encode L e a.0 w') >>= λ bytes.
                ok (rewrite_request (with_warnings a.1 r) bytes)),
            w',
          ))
        ≡ rest_of (record { purpose = admission; codec = L; request = r; envelope = e }) x
  unfolding conclude conclude_ticket
  admission_rest L r e (err f, w) = refl
  admission_rest L r e (ok (job, ws), w) =
      let (v, w') =
        validate_all T.multierror C h.validators r.values.request_context job (no_verdict, w) in
      elim (Option-cases v.error) [
        | inl fine ↦ rw (fine, conclude, conclude_admission) refl
        | inr (f, failed) ↦ rw (failed, conclude, conclude_admission) refl
      ]

  validation_rest :
      (L : EnvelopeCodec J R) (r : Request) (e : Envelope J R)
      (x : Result (Ref × List GoError) × World J)
      → let ctx = r.values.request_context in
        next x (λ m w'.
          let (verdict, w'') = validate_all T.multierror C h.validators ctx m.0 (no_verdict, w') in
          (
            (encode L e m.0 w'' >>= λ bytes.
                ok (rewrite_request (with_verdict verdict m.1 r) bytes)),
            w'',
          ))
        ≡ rest_of (record { purpose = validation; codec = L; request = r; envelope = e }) x
  unfolding conclude_ticket
  validation_rest L r e (err f, w) = refl
  validation_rest L r e (ok m, w) = refl

  Reaches-admit :
      (L : EnvelopeCodec J R) (r : Request) (w : World J)
      → let (t, w') = decoded C K T N h round_trip admission L r (L.decode r.body) w in
        Reaches t w' (answered_by (admit T.multierror C L h r w))
  unfolding admit decoded opened apply_admission_controllers admission_mutators admission_validators
  Reaches-admit L r w = elim (Result-cases (L.decode r.body)) [
    | inl (e, failed) ↦ rw (failed, admit, decoded) (Reaches-applied _ w)
    | inr (e, fine) ↦ elim (Option-cases e.job) [
      | inl empty ↦ rw (fine, empty, admit, decoded) (Reaches-applied _ w)
      | inr (j, found) ↦
          let e' : Envelope J R = record e { job = some j } in
          let t : Ticket J R = record {
            purpose = admission;
            codec = L;
            request = r;
            envelope = e';
          } in
          let w' : World J = record w { heap = w.heap ++ j ∷ [] } in
          rw (fine, found, admit, decoded)
            (rw
              (admission_rest L r e'
                (mutate_all h.mutators r.values.request_context (length w.heap) [] w'))
              (Reaches-mutating t h.mutators (length w.heap) [] w'))
    ]
  ]

  Reaches-validate :
      (L : EnvelopeCodec J R) (r : Request) (w : World J)
      → let (t, w') = decoded C K T N h round_trip validation L r (L.decode r.body) w in
        Reaches t w' (answered_by (handle_validate T.multierror C L h r w))
  unfolding handle_validate decoded opened admission_mutators admission_validators
  Reaches-validate L r w = elim (Result-cases (L.decode r.body)) [
    | inl (e, failed) ↦ rw (failed, handle_validate, decoded) (Reaches-applied _ w)
    | inr (e, fine) ↦ elim (Option-cases e.job) [
      | inl empty ↦ rw (fine, empty, handle_validate, decoded) (Reaches-applied _ w)
      | inr (j, found) ↦
          let e' : Envelope J R = record e { job = some j } in
          let t : Ticket J R = record {
            purpose = validation;
            codec = L;
            request = r;
            envelope = e';
          } in
          let w' : World J = record w { heap = w.heap ++ j ∷ [] } in
          rw (fine, found, handle_validate, decoded)
            (rw
              (validation_rest L r e'
                (mutate_all h.mutators r.values.request_context (length w.heap) [] w'))
              (Reaches-mutating t h.mutators (length w.heap) [] w'))
    ]
  ]

  Reaches-begin :
      (r : Request) (w : World J)
      → let (t, w') = begin C K T N h round_trip r (routed C K T N h round_trip r) w in
        Reaches t w' (answered_by (apply_admission T.multierror C K h r w))
  unfolding apply_admission handle_register handle_plan begin routed
  Reaches-begin r w = elim (Bool-cases (is_register r.method r.path)) [
    | inl a ↦ rw (a, begin, routed, apply_admission) (Reaches-admit K.register r w)
    | inr a ↦ elim (Bool-cases (is_plan r.method r.path)) [
      | inl b ↦ rw (a, b, begin, routed, apply_admission) (Reaches-admit K.plan r w)
      | inr b ↦ elim (Bool-cases (is_validate r.method r.path)) [
        | inl c ↦ rw (a, b, c, begin, routed, apply_admission) (Reaches-validate K.validate r w)
        | inr c ↦ rw (a, b, c, begin, routed, apply_admission) (Reaches-applied _ w)
      ]
    ]
  ]

  answered_by-admitted :
      (a : Result Request × World J)
      → answered_by a
        ≡ (finished (admitted C K T N h round_trip a).0, (admitted C K T N h round_trip a).1)
  unfolding settle admitted
  answered_by-admitted (ok r, w) = refl
  answered_by-admitted (err e, w) = refl

  -- A request that is alone takes its steps to the answer of the handler, and leaves the jobs and the
  -- metrics that the handler leaves.
  pub Reaches-nacp_handler :
      (r : Request) (w : World J)
      → Reaches (arrived r) w (
        finished (nacp_handler C K T N h round_trip r w).0,
        (nacp_handler C K T N h round_trip r w).1,
      )
  unfolding nacp_handler step arrive alone
  Reaches-nacp_handler r w = elim (Result-cases (resolve_request_context N h.resolve_token r)) [
    | inl (e, failed) ↦ (1, rw (failed, nacp_handler, alone, step, arrive) refl)
    | inr (r', fine) ↦ Reaches-step (arrived r) w _ (
        rw (fine, nacp_handler, step, arrive)
          (Reaches-step (resolved r') w _ (
            rw (← answered_by-admitted (apply_admission T.multierror C K h r' w))
              (Reaches-begin r' w))))
  ]
