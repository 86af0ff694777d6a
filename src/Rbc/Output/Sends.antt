-- ===== src/Rbc/Output/Sends.antt =====
-- rbc/rbc.go: what one call adds to the values that an instance has sent its owner.
use cleisthenes.Base.{
  ◌≤◌, ◌≡◌, ◌∙◌, inl, inr, refl, ap, sym, true, false, not, ◌&&◌, leb, some, List, [], ◌∷◌, ◌++◌,
  values, ◌==◌, if_rule, Option-cases, arith,
}
use mathlib.Core.List.{append-nil}
use cleisthenes.Base.Go.{Outcome, final}
use cleisthenes.Base.History.{Grown}
use cleisthenes.Member.{Member, address_eq}
use cleisthenes.Rbc.Merkle.{Bytes, validate_path}
use cleisthenes.Rbc.State.{
  ValRequest, Request, val, echo, ready, other, Error, ok, find, RbcMessage, DataMessage, Rbc,
  set_content_length,
}
use cleisthenes.Rbc.Handlers.{
  type_of, share_message, decode_success, count_echos, count_readys, echo_threshold,
  output_threshold, try_decode_value, try_output, handle_value_request, handle_echo_request,
  handle_ready_request, mux_request, process_message, handle_request, handle_message,
}
use cleisthenes.Rbc.Decode.{Env, decode}
use cleisthenes.Rbc.Input.{handle_input}
use cleisthenes.Rbc.Run.{Event, message, input, step, run}
use cleisthenes.Rbc.Rules.{
  Anything, Writes, with_value, Decoded-cases, Valid-cases, send_ready-keeps,
  handle_value_request-keeps,
}
use cleisthenes.Rbc.Keeps.{Result-cases, final-ignored, handle_input-keeps}

module _ (env : Env) where
  -- The value passed the tests of `try_output` in the state, and is what it decoded.
  abbrev pub Tested : Rbc → DataMessage → Type 0
  Tested s msg =
      (root : Bytes) × (output_threshold s ≤ count_readys root s)
      × (echo_threshold s ≤ count_echos root s)
      × (decode env root (values s.echo_req_repo) s.num_data_shards s.num_parity_shards
            s.content_length
          ≡ some (ok msg.bytes))

  abbrev pub SendsTested : List DataMessage → Rbc → Type 0
  SendsTested = Grown (step env) (run env) (λ (s : Rbc). s.data_sent) Tested

  abbrev Ends : List DataMessage → Outcome Error Rbc (Unit {0}) → Type 0
  Ends old o = SendsTested old (final o)

  abbrev Same : List DataMessage → Rbc → Type 0
  Same old s = s.data_sent ≡ old

  share-Same :
      (old : List DataMessage) (s : Rbc) (req : Request)
      → Same old s
      → Same old (share_message env req s)
  unfolding share_message
  share-Same old s req h = elim (Option-cases (type_of req)) [
    | inl bad ↦ rw (bad, share_message) h
    | inr (typ, good) ↦ elim (Option-cases (env.marshal req)) [
      | inl bad ↦ rw (good, bad, share_message) h
      | inr (p, good') ↦ rw (good, good', share_message) h
    ]
  ]

  Same-Writes : (old : List DataMessage) → Writes env Anything (Same old)
  unfolding set_content_length
  Same-Writes old = record {
    take_length = λ s k h. if_rule (Same old) (s.content_length == 0) (λ _. h) (λ _. h);
    take_value = λ s req fresh h. share-Same old (with_value req s) (echo req) h;
    save_echo = λ s sender req absent known h. h;
    save_ready = λ s sender hash absent h. h;
    share_ready = λ s hash unsent h.
        share-Same old (record s { ready_sent = record { value = true; undefined = false } })
          (ready hash) h;
    distribute = λ s proposer reqs made h. h;
  }

  Same-SendsTested : (old : List DataMessage) (s : Rbc) → Same old s → SendsTested old s
  Same-SendsTested old s h = ([], h ∙ sym (append-nil old), tt)

  try_output-SendsTested :
      (old : List DataMessage) (s : Rbc) (hash : Bytes)
      → Same old s
      → Ends old (try_output env hash s)
  unfolding try_output try_decode_value decode_success
  try_output-SendsTested old s hash h =
      let quiet = Same-SendsTested old s h in
      if_rule (Ends old)
        (not s.done.value
          && (leb (output_threshold s) (count_readys hash s)
              && leb (echo_threshold s) (count_echos hash s)))
        (λ e.
          elim (Decoded-cases (
            decode env hash (values s.echo_req_repo) s.num_data_shards s.num_parity_shards
              s.content_length)) [
                | inl crash ↦ rw (crash, try_decode_value) quiet
                | inr (inl (x, bad)) ↦ rw (bad, try_decode_value) quiet
                | inr (inr (value, good)) ↦
                    rw (good, try_decode_value, decode_success)
                      (
                        record { member = s.proposer; bytes = value } ∷ [],
                        ap (λ l. l ++ record { member = s.proposer; bytes = value } ∷ []) h,
                        ((hash, ground arith, ground arith, good), tt),
                      )
              ])
        (λ _. quiet)

  handle_echo_request-SendsTested :
      (old : List DataMessage) (s : Rbc) (sender : Member) (req : ValRequest)
      → Same old s
      → Ends old (handle_echo_request env sender req s)
  unfolding handle_echo_request
  handle_echo_request-SendsTested old s sender req h =
      let quiet = Same-SendsTested old s h in
      if_rule (Ends old) (find sender.address s.echo_req_repo) (λ _. quiet)
        (λ absent.
          elim (Valid-cases
            (validate_path env.hash req.shard req.root_hash req.root_path req.indexes)) [
              | inl crash ↦ rw (crash, handle_echo_request) quiet
              | inr (inl bad) ↦ rw (bad, handle_echo_request) quiet
              | inr (inr good) ↦
                  rw (good, handle_echo_request)
                    (try_output-SendsTested old _ req.root_hash
                      (send_ready-keeps (Same-Writes old) _ _ req.root_hash h))
            ])

  handle_ready_request-SendsTested :
      (old : List DataMessage) (s : Rbc) (sender : Member) (hash : Bytes)
      → Same old s
      → Ends old (handle_ready_request env sender hash s)
  unfolding handle_ready_request
  handle_ready_request-SendsTested old s sender hash h =
      if_rule (Ends old) (find sender.address s.ready_req_repo) (λ _. Same-SendsTested old s h)
        (λ absent.
          try_output-SendsTested old _ hash (send_ready-keeps (Same-Writes old) _ _ hash h))

  mux_request-SendsTested :
      (old : List DataMessage) (s : Rbc) (sender : Member) (req : Request)
      → Same old s
      → Ends old (mux_request env sender req s)
  unfolding mux_request
  mux_request-SendsTested old s sender (val req) h =
      Same-SendsTested old (final (handle_value_request env sender req s))
        (handle_value_request-keeps (Same-Writes old) s sender req h)
  mux_request-SendsTested old s sender (echo req) h =
      handle_echo_request-SendsTested old s sender req h
  mux_request-SendsTested old s sender (ready hash) h =
      handle_ready_request-SendsTested old s sender hash h
  mux_request-SendsTested old s sender other h = Same-SendsTested old s h

  handle_message-SendsTested :
      (s : Rbc) (sender : Member) (msg : RbcMessage)
      → Ends s.data_sent (handle_message env sender msg s)
  unfolding handle_message handle_request
  handle_message-SendsTested s sender msg = elim (Result-cases (process_message env msg)) [
    | inl (e, bad) ↦ rw (bad, handle_message) (Same-SendsTested s.data_sent s refl)
    | inr (req, good) ↦
        rw (good, handle_message)
          (let t = set_content_length msg.content_length s in
            let k : Same s.data_sent t =
              (Same-Writes s.data_sent).take_length s msg.content_length refl in
            if_rule (Ends s.data_sent) (not (t.content_length == msg.content_length))
              (λ _. Same-SendsTested s.data_sent t k)
              (λ _. mux_request-SendsTested s.data_sent t sender req k))
  ]

  pub step-SendsTested : (e : Event) (s : Rbc) → SendsTested s.data_sent (final (step env e s))
  unfolding step
  step-SendsTested (message sender msg) s =
      final-ignored (SendsTested s.data_sent) (handle_message env sender msg s)
        (handle_message-SendsTested s sender msg)
  step-SendsTested (input bytes) s =
      final-ignored (SendsTested s.data_sent) (handle_input env bytes s) (
        Same-SendsTested s.data_sent (final (handle_input env bytes s))
          (handle_input-keeps (Same-Writes s.data_sent) s bytes refl))
