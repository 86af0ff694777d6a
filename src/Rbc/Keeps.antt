-- ===== src/Rbc/Keeps.antt =====
-- rbc/rbc.go: a predicate that obeys the rules of Rbc/Rules.antt holds after every history.
use cleisthenes.Base.{
  ℕ, ◌≡◌, ◌⊎◌, inl, inr, refl, ap, ◌∙◌, All, All-always, not, List, [], ◌∷◌, ◌==◌, length, if_rule,
  Option-cases,
}
use cleisthenes.Base.Go.{Outcome, done, fail, block, panic, final, after-final}
use cleisthenes.Member.{Member}
use cleisthenes.Rbc.Merkle.{Bytes}
use cleisthenes.Rbc.State.{
  ValRequest, echo, Error, Result, ok, err, RbcMessage, Rbc, set_content_length,
}
use cleisthenes.Rbc.Handlers.{handle_value_request, process_message, handle_request, handle_message}
use cleisthenes.Rbc.Decode.{Env}
use cleisthenes.Rbc.Input.{
  shard, make_request, messages_for, distribute_message, input_requests, handle_input,
}
use cleisthenes.Rbc.Run.{Event, message, input, ignored, step, run}
use cleisthenes.Rbc.Rules.{
  Anything, Writes, Rules, Ends, handle_value_request-keeps, mux_request-keeps,
}

pub Result-cases :
    {A : Type 0} (r : Result A) → ((e : Error) × (r ≡ err e)) ⊎ ((a : A) × (r ≡ ok a))
Result-cases (ok a) = inr (a, refl)
Result-cases (err e) = inl (e, refl)

pub final-ignored :
    (P : Rbc → Type 0) (o : Outcome Error Rbc (Unit {0})) → P (final o) → P (final (ignored o))
final-ignored P (done a s) h = h
final-ignored P (fail e s) h = h
final-ignored P (block s) h = h
final-ignored P (panic s) h = h

module _ {env : Env} {Known : Member → ValRequest → Type 0} {P : Rbc → Type 0}
    (W : Writes env Known P) where
  distribute_message-keeps :
      (s : Rbc) (proposer : Member) (reqs : List ValRequest)
      → P s
      → Ends W (distribute_message env proposer reqs s)
  unfolding distribute_message
  distribute_message-keeps s proposer [] h = h
  distribute_message-keeps s proposer (req ∷ reqs) h =
      elim (Option-cases (messages_for env proposer s (req ∷ reqs))) [
        | inl bad ↦ rw (bad, distribute_message) h
        | inr (msgs, good) ↦
            rw (good, distribute_message) (W.distribute s proposer (req ∷ reqs) good h)
      ]

  input_requests-keeps :
      (s : Rbc) (size : ℕ) (reqs : List ValRequest) → P s → Ends W (input_requests env size reqs s)
  unfolding input_requests
  input_requests-keeps s size [] h = W.take_length s size h
  input_requests-keeps s size (req ∷ reqs) h =
      let t = set_content_length size s in
      after-final P (handle_value_request env t.proposer req t) _
        (handle_value_request-keeps W t t.proposer req (W.take_length s size h))
        (λ _ u k. distribute_message-keeps u t.proposer reqs k)

  pub handle_input-keeps : (s : Rbc) (bytes : Bytes) → P s → Ends W (handle_input env bytes s)
  unfolding handle_input
  handle_input-keeps s bytes h = elim (Result-cases (shard env bytes)) [
    | inl (e, bad) ↦ rw (bad, handle_input) h
    | inr (shards, good) ↦ elim (Result-cases (make_request env shards)) [
      | inl (e, bad) ↦ rw (good, bad, handle_input) h
      | inr (reqs, good') ↦
          rw (good, good', handle_input) (input_requests-keeps s (length bytes) reqs h)
    ]
  ]

module _ {env : Env} {Known : Member → ValRequest → Type 0} {P : Rbc → Type 0}
    (R : Rules env Known P) where
  -- The ECHO that an event brings is known.
  abbrev pub KnownEvent : Event → Type 0
  KnownEvent (message sender msg) =
      (r : ValRequest) → process_message env msg ≡ ok (echo r) → Known sender r
  KnownEvent (input bytes) = Unit

  pub handle_message-keeps :
      (s : Rbc) (sender : Member) (msg : RbcMessage)
      → KnownEvent (message sender msg)
      → P s
      → Ends R.writes (handle_message env sender msg s)
  unfolding handle_message handle_request
  handle_message-keeps s sender msg known h = elim (Result-cases (process_message env msg)) [
    | inl (e, bad) ↦ rw (bad, handle_message) h
    | inr (req, good) ↦
        rw (good, handle_message)
          (let t = set_content_length msg.content_length s in
            let k = R.writes.take_length s msg.content_length h in
            if_rule (Ends R.writes) (not (t.content_length == msg.content_length)) (λ _. k)
              (λ _. mux_request-keeps R t sender req (λ r e. known r (good ∙ ap ok e)) k))
  ]

  pub step-keeps : (e : Event) (s : Rbc) → KnownEvent e → P s → Ends R.writes (step env e s)
  unfolding step
  step-keeps (message sender msg) s known h =
      final-ignored P (handle_message env sender msg s) (handle_message-keeps s sender msg known h)
  step-keeps (input bytes) s known h =
      final-ignored P (handle_input env bytes s) (handle_input-keeps R.writes s bytes h)

  pub run-keeps :
      (es : List Event) (s : Rbc) → All KnownEvent es → P s → Ends R.writes (run env es s)
  unfolding run
  run-keeps [] s known h = h
  run-keeps (e ∷ es) s known h =
      after-final P (step env e s) _ (step-keeps e s known.0 h) (λ _ t k. run-keeps es t known.1 k)

module _ {env : Env} {P : Rbc → Type 0} (R : Rules env Anything P) where
  event-Known : (e : Event) → KnownEvent R e
  event-Known (message sender msg) = λ r e. tt
  event-Known (input bytes) = tt

  pub run_any-keeps : (es : List Event) (s : Rbc) → P s → P (final (run env es s))
  run_any-keeps es s h = run-keeps R es s (All-always event-Known es) h

  pub step_any-keeps : (e : Event) (s : Rbc) → P s → P (final (step env e s))
  step_any-keeps e s h = step-keeps R e s (event-Known e) h
