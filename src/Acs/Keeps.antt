-- ===== src/Acs/Keeps.antt =====
-- A rule for invariants of acs/acs.go: what obeys the record of Acs/Rules holds after every history,
-- however its last event ends.
use cleisthenes.Base.{
  ℕ, zero, suc, inl, inr, not, ◌&&◌, ◌||◌, List, [], ◌∷◌, lookup, insert, length, ◌==◌, if_rule,
  Option-cases, arith,
}
use cleisthenes.Base.Go.{done, after, after-final}
use cleisthenes.Binary
use cleisthenes.Binary.{Binary, BinaryState}
use cleisthenes.Member.{Member, member_eq, address_eq, member, members}
use cleisthenes.Rbc.Merkle.{Bytes}
use cleisthenes.Acs.State.{
  RbcOps, BbaOps, Payload, message_rbc, message_bba, message_other, Message, item, Acs,
}
use cleisthenes.Acs.Handlers.{
  ignored, place_bba, process_data, process_agreement, count_done_agreement, agreed_node_list,
  collect, try_complete_agreement, try_agreement_start, send_zero, send_zero_to_idle_bba,
  handle_bba_message, handle_rbc_message, handle_input, mux_message, handle_message,
}
use cleisthenes.Acs.Run.{
  Event, request, data_output, agreement, binary_output, input, close, on_data, on_agreement,
  on_binary, step, run,
}
use cleisthenes.Acs.Rules.{
  Writes, Rules, Ends, ignored-keeps, place_bba-keeps, call_bba-keeps, place_rbc-keeps,
  process_data-keeps, process_agreement-keeps,
}

module _ {P : Acs → Type 0} (R : Writes P) where
  module _ (bba_ops : BbaOps) where
    pub try_agreement_start-keeps :
        (m : Member) (s : Acs) → P s → Ends R (try_agreement_start bba_ops m s)
    unfolding try_agreement_start
    try_agreement_start-keeps m s h = elim (Option-cases (lookup m s.bba_repo)) [
      | inl absent ↦ rw (absent, try_agreement_start) h
      | inr (b, there) ↦ elim (Option-cases (lookup m s.agreement_started)) [
        | inl absent ↦ rw (there, absent, try_agreement_start) h
        | inr (state, there') ↦
            rw (there, there', try_agreement_start)
              (if_rule (Ends R) state.value (λ _. h)
                (λ _.
                  after-final P (ignored (place_bba m (bba_ops.handle_input Binary.one b) s))
                    (λ _ t. done tt (record t {
                      agreement_started =
                          insert m (Binary.set state Binary.one) t.agreement_started;
                    }))
                    (call_bba-keeps R m (bba_ops.handle_input Binary.one b) s h)
                    (λ _ t k. R.set_agreement_started t _ k)))
      ]
    ]

    send_zero-keeps : (ms : List Member) (s : Acs) → P s → Ends R (send_zero bba_ops ms s)
    unfolding send_zero
    send_zero-keeps [] s h = h
    send_zero-keeps (m ∷ ms) s h =
        if_rule (Ends R) (not (item m s.agreement_started).undefined) (λ _. send_zero-keeps ms s h)
          (λ _. elim (Option-cases (lookup m s.bba_repo)) [
            | inl absent ↦ rw absent h
            | inr (b, there) ↦ rw there (
                if_rule (Ends R) (bba_ops.idle b)
                  (λ _.
                    after-final P (ignored (place_bba m (bba_ops.handle_input Binary.zero b) s))
                      (λ _. send_zero bba_ops ms)
                      (call_bba-keeps R m (bba_ops.handle_input Binary.zero b) s h)
                      (λ _ t k. send_zero-keeps ms t k))
                  (λ _. send_zero-keeps ms s h))
          ])

    handle_bba_message-keeps :
        (m sender : Member) (msg : _) (s : Acs)
        → P s
        → Ends R (handle_bba_message bba_ops m sender msg s)
    unfolding handle_bba_message
    handle_bba_message-keeps m sender msg s h = elim (Option-cases (lookup m s.bba_repo)) [
      | inl absent ↦ rw (absent, handle_bba_message) h
      | inr (b, there) ↦
          rw (there, handle_bba_message)
            (place_bba-keeps R m (bba_ops.handle_message sender msg b) s h)
    ]

  module _ (rbc_ops : RbcOps) where
    handle_rbc_message-keeps :
        (m sender : Member) (msg : _) (s : Acs)
        → P s
        → Ends R (handle_rbc_message rbc_ops m sender msg s)
    unfolding handle_rbc_message
    handle_rbc_message-keeps m sender msg s h = elim (Option-cases (lookup m s.rbc_repo)) [
      | inl absent ↦ rw (absent, handle_rbc_message) h
      | inr (r, there) ↦
          rw (there, handle_rbc_message)
            (place_rbc-keeps R m (rbc_ops.handle_message sender msg r) s h)
    ]

    pub handle_input-keeps : (bytes : Bytes) (s : Acs) → P s → Ends R (handle_input rbc_ops bytes s)
    unfolding handle_input
    handle_input-keeps bytes s h = elim (Option-cases (lookup s.owner s.rbc_repo)) [
      | inl absent ↦ rw (absent, handle_input) h
      | inr (r, there) ↦
          rw (there, handle_input) (place_rbc-keeps R s.owner (rbc_ops.handle_input bytes r) s h)
    ]

  module _ (rbc_ops : RbcOps) (bba_ops : BbaOps) where
    mux_message-keeps :
        (m sender : Member) (p : Payload) (s : Acs)
        → P s
        → Ends R (mux_message rbc_ops bba_ops m sender p s)
    unfolding mux_message
    mux_message-keeps m sender (message_rbc msg) s h =
        handle_rbc_message-keeps rbc_ops m sender msg s h
    mux_message-keeps m sender (message_bba msg) s h =
        handle_bba_message-keeps bba_ops m sender msg s h
    mux_message-keeps m sender message_other s h = h

    pub handle_message-keeps :
        (sender : Member) (msg : Message) (s : Acs)
        → P s
        → Ends R (handle_message rbc_ops bba_ops sender msg s)
    unfolding handle_message member
    handle_message-keeps sender msg s h = elim (Option-cases msg.proposer) [
      | inl absent ↦ rw (absent, handle_message) h
      | inr (addr, there) ↦ elim (Option-cases (lookup addr s.member_map)) [
        | inl absent ↦ rw (there, absent, handle_message) h
        | inr (proposer, found) ↦
            rw (there, found, handle_message) (mux_message-keeps proposer sender msg.payload s h)
      ]
    ]

    pub on_agreement-keeps : (k : ℕ) (s : Acs) → P s → Ends R (on_agreement rbc_ops bba_ops k s)
    unfolding on_agreement send_zero_to_idle_bba
    on_agreement-keeps zero s h = h
    on_agreement-keeps (suc k) s h =
        send_zero-keeps bba_ops (members s.member_map) _ (R.set_agreement_chan s k h)

module _ {P : Acs → Type 0} (R : Rules P) where
  try_complete_agreement-keeps : (s : Acs) → P s → P (try_complete_agreement s)
  unfolding try_complete_agreement
  try_complete_agreement-keeps s h =
      let agreed = agreed_node_list s.agreement_result in
      let result = collect s.broadcast_result agreed [] in
      if_rule P (s.dec.value || not (count_done_agreement s.agreement_result == s.n)) (λ _. h)
        (λ undone.
          if_rule P (length agreed == length result && not (length result == 0))
            (λ full. R.send_batch s (ground arith) (ground arith) (ground arith) (ground arith) h)
            (λ _. h))

  module _ (rbc_ops : RbcOps) (bba_ops : BbaOps) where
    step-keeps : (e : Event) (s : Acs) → P s → Ends R.writes (step rbc_ops bba_ops e s)
    unfolding step on_data on_binary
    step-keeps (request sender msg) s h =
        if_rule (Ends R.writes) s.stop_flag (λ _. h)
          (λ _.
            ignored-keeps R.writes (handle_message rbc_ops bba_ops sender msg s)
              (handle_message-keeps R.writes rbc_ops bba_ops sender msg s h))
    step-keeps (data_output m bytes) s h =
        if_rule (Ends R.writes) s.stop_flag (λ _. h)
          (λ _.
            after-final P (process_data m bytes s)
              (λ _ t.
                after (try_agreement_start bba_ops m t) λ _ u. done tt (try_complete_agreement u))
              (process_data-keeps R.writes m bytes s h)
              (λ _ t k.
                after-final P (try_agreement_start bba_ops m t)
                  (λ _ u. done tt (try_complete_agreement u))
                  (try_agreement_start-keeps R.writes bba_ops m t k)
                  (λ _ u j. try_complete_agreement-keeps u j)))
    step-keeps agreement s h =
        if_rule (Ends R.writes) s.stop_flag (λ _. h)
          (λ _. on_agreement-keeps R.writes rbc_ops bba_ops s.agreement_chan s h)
    step-keeps (binary_output m bin) s h =
        if_rule (Ends R.writes) s.stop_flag (λ _. h)
          (λ _.
            after-final P (process_agreement m bin s) (λ _ t. done tt (try_complete_agreement t))
              (process_agreement-keeps R.writes m bin s h)
              (λ _ t k. try_complete_agreement-keeps t k))
    step-keeps (input bytes) s h =
        ignored-keeps R.writes (handle_input rbc_ops bytes s)
          (handle_input-keeps R.writes rbc_ops bytes s h)
    step-keeps close s h = R.writes.set_stop_flag s h

    pub run-keeps : (es : List Event) (s : Acs) → P s → Ends R.writes (run rbc_ops bba_ops es s)
    unfolding run
    run-keeps [] s h = h
    run-keeps (e ∷ es) s h =
        after-final P (step rbc_ops bba_ops e s) (λ _. run rbc_ops bba_ops es) (step-keeps e s h)
          (λ _ t k. run-keeps es t k)
