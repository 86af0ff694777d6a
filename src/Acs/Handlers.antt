-- ===== src/Acs/Handlers.antt =====
-- acs/acs.go: the handlers of an `ACS`.
use cleisthenes.Base.{
  ℕ, suc, ◌-◌, true, false, not, ◌&&◌, ◌||◌, none, some, List, [], ◌∷◌, ◌++◌, values, lookup,
  insert, length, count_if, ltb, ◌==◌, if◌then◌else◌,
}
use cleisthenes.Base.Go.{Outcome, Go, done, fail, block, panic, after}
use cleisthenes.Binary
use cleisthenes.Binary.{Binary, BinaryState}
use cleisthenes.Member.{Member, address_eq, member_eq, member, members}
use cleisthenes.Rbc.Merkle.{Bytes}
use cleisthenes.Bba.Request.{Error as BbaError}
use cleisthenes.Bba.State.{Bba, BbaMessage}
use cleisthenes.Rbc.State.{Rbc, RbcMessage, Error as RbcError}
use cleisthenes.Acs.State.{
  save_rbc, find_rbc, save_bba, find_bba, RbcOps, BbaOps, Payload, message_rbc, message_bba,
  message_other, Message, Error, no_member_matching_request, bad_address, no_match,
  undefined_request_type, rbc_error, bba_error, BinaryStateMap, BroadcastDataMap, item, data_item,
  Acs,
}

-- `countSuccessDoneAgreement`
abbrev pub count_success_done_agreement : BinaryStateMap → ℕ
count_success_done_agreement results = count_if (λ state. state.value) (values results)

-- `countDoneAgreement`
abbrev pub count_done_agreement : BinaryStateMap → ℕ
count_done_agreement results = count_if (λ state. not state.undefined) (values results)

-- The loop of `tryCompleteAgreement` that makes `agreedNodeList`
unfoldable pub agreed_node_list : BinaryStateMap → List Member
agreed_node_list [] = []
agreed_node_list ((m, state) ∷ results) =
    let rest = agreed_node_list results in if state.value then m ∷ rest else rest

-- The loop of `tryCompleteAgreement` that makes `bcResult`
unfoldable pub collect : BroadcastDataMap → List Member → BroadcastDataMap → BroadcastDataMap
collect items [] bc_result = bc_result
collect items (m ∷ ms) bc_result =
    let bytes = data_item m items in
    collect items ms (if not (length bytes == 0) then insert m bytes bc_result else bc_result)

abbrev pub AcsGo : Type 0 → Type 0
AcsGo A = Go Error Acs A

-- A call whose error result is dropped
abbrev pub ignored : Outcome Error Acs (Unit {0}) → Outcome Error Acs (Unit {0})
ignored (done a s) = done a s
ignored (fail e s) = done tt s
ignored (block s) = block s
ignored (panic s) = panic s

-- How a call of a member's broadcast ends for the `ACS`, which keeps it by pointer
abbrev pub place_rbc : Member → Outcome RbcError Rbc (Unit {0}) → AcsGo (Unit {0})
place_rbc m (done _ r) s = done tt (record s { rbc_repo = save_rbc m r s.rbc_repo })
place_rbc m (fail e r) s = fail (rbc_error e) (record s { rbc_repo = save_rbc m r s.rbc_repo })
place_rbc m (block r) s = block (record s { rbc_repo = save_rbc m r s.rbc_repo })
place_rbc m (panic r) s = panic (record s { rbc_repo = save_rbc m r s.rbc_repo })

-- The same for a binary agreement
abbrev pub place_bba : Member → Outcome BbaError Bba (Unit {0}) → AcsGo (Unit {0})
place_bba m (done _ b) s = done tt (record s { bba_repo = save_bba m b s.bba_repo })
place_bba m (fail e b) s = fail (bba_error e) (record s { bba_repo = save_bba m b s.bba_repo })
place_bba m (block b) s = block (record s { bba_repo = save_bba m b s.bba_repo })
place_bba m (panic b) s = panic (record s { bba_repo = save_bba m b s.bba_repo })

-- `processData`
unfoldable pub process_data : Member → Bytes → AcsGo (Unit {0})
process_data sender bytes s = elim (lookup sender s.broadcast_result) [
  | none ↦ done tt s
  | some old ↦
      if not (length old == 0)
      then done tt s
      else done tt (record s { broadcast_result = insert sender bytes s.broadcast_result })
]

-- `acs.agreementChan <- struct{}{}`
unfoldable pub signal_agreement : AcsGo (Unit {0})
signal_agreement s =
    if ltb s.agreement_chan s.n
    then done tt (record s { agreement_chan = suc s.agreement_chan })
    else block s

-- `agreementThreshold`: a count that is no more than `n` equals this difference, cut off at 0,
-- where it equals Go's, if `f` is at most `n`.
abbrev pub agreement_threshold : Acs → ℕ
agreement_threshold s = s.n - s.f

-- `processAgreement`
unfoldable pub process_agreement : Member → Binary → AcsGo (Unit {0})
unfolding Binary.set
process_agreement sender bin s = elim (lookup sender s.agreement_result) [
  | none ↦ done tt s
  | some state ↦
      let t = record s {
        agreement_result = insert sender (Binary.set state bin) s.agreement_result;
      } in
      if state.value
      then done tt s
      else if count_success_done_agreement t.agreement_result == agreement_threshold t
      then signal_agreement t
      else done tt t
]

-- `agreementSuccess`; the epoch of the message is not set. The send of the batch can block in the
-- source; here it ends and is logged.
unfoldable pub agreement_success : BroadcastDataMap → Acs → Acs
unfolding Binary.set
agreement_success result s = record s {
  batches = s.batches ++ record { epoch = 0; batch = result } ∷ [];
  dec = Binary.set s.dec true;
}

-- `tryCompleteAgreement`; `agreementDoneThreshold` is `n`.
unfoldable pub try_complete_agreement : Acs → Acs
try_complete_agreement s =
    let agreed = agreed_node_list s.agreement_result in
    let result = collect s.broadcast_result agreed [] in
    if s.dec.value || not (count_done_agreement s.agreement_result == s.n)
    then s
    else if length agreed == length result && not (length result == 0)
    then agreement_success result s
    else s

module _ (ops : BbaOps) where
  -- `tryAgreementStart`; the error of `HandleInput` is dropped.
  unfoldable pub try_agreement_start : Member → AcsGo (Unit {0})
  unfolding Binary.set
  try_agreement_start sender s = elim (find_bba sender s.bba_repo) [
    | none ↦ done tt s
    | some b ↦ elim (lookup sender s.agreement_started) [
      | none ↦ done tt s
      | some state ↦
          if state.value
          then done tt s
          else after (ignored (place_bba sender (ops.handle_input Binary.one b) s)) λ _ t.
            let started = insert sender (Binary.set state Binary.one) t.agreement_started in
            done tt (record t { agreement_started = started })
    ]
  ]

  -- The loop of `sendZeroToIdleBba`: without an instance, `b.Idle()` is a call of nil.
  unfoldable pub send_zero : List Member → AcsGo (Unit {0})
  send_zero [] s = done tt s
  send_zero (m ∷ ms) s =
      let rest = send_zero ms in
      if not (item m s.agreement_started).undefined then rest s else elim (find_bba m s.bba_repo) [
        | none ↦ panic s
        | some b ↦
            if ops.idle b
            then after (ignored (place_bba m (ops.handle_input Binary.zero b) s)) (λ _. rest)
            else rest s
      ]

  -- `sendZeroToIdleBba`
  unfoldable pub send_zero_to_idle_bba : AcsGo (Unit {0})
  unfolding members
  send_zero_to_idle_bba s = send_zero (members s.member_map) s

  -- `handleBbaMessage`
  unfoldable pub handle_bba_message : Member → Member → BbaMessage → AcsGo (Unit {0})
  handle_bba_message proposer sender msg s = elim (find_bba proposer s.bba_repo) [
    | none ↦ fail no_match s
    | some b ↦ place_bba proposer (ops.handle_message sender msg b) s
  ]

module _ (rbc_ops : RbcOps) where
  -- `handleRbcMessage`
  unfoldable pub handle_rbc_message : Member → Member → RbcMessage → AcsGo (Unit {0})
  handle_rbc_message proposer sender msg s = elim (find_rbc proposer s.rbc_repo) [
    | none ↦ fail no_match s
    | some r ↦ place_rbc proposer (rbc_ops.handle_message sender msg r) s
  ]

  -- `HandleInput`
  unfoldable pub handle_input : Bytes → AcsGo (Unit {0})
  handle_input bytes s = elim (find_rbc s.owner s.rbc_repo) [
    | none ↦ fail no_match s
    | some r ↦ place_rbc s.owner (rbc_ops.handle_input bytes r) s
  ]

module _ (rbc_ops : RbcOps) (bba_ops : BbaOps) where
  -- `muxMessage`
  unfoldable pub mux_message : Member → Member → Payload → AcsGo (Unit {0})
  mux_message proposer sender (message_rbc msg) = handle_rbc_message rbc_ops proposer sender msg
  mux_message proposer sender (message_bba msg) = handle_bba_message bba_ops proposer sender msg
  mux_message proposer sender message_other = λ s. fail undefined_request_type s

  -- `HandleMessage`, with the `case` of `run` that answers it
  unfoldable pub handle_message : Member → Message → AcsGo (Unit {0})
  unfolding member
  handle_message sender msg s = elim msg.proposer [
    | none ↦ fail bad_address s
    | some addr ↦ elim (member {E = Error} addr s.member_map) [
      | done (proposer, true) _ ↦ mux_message proposer sender msg.payload s
      | done (proposer, false) _ ↦ fail no_member_matching_request s
      | fail e _ ↦ fail e s
      | block _ ↦ block s
      | panic _ ↦ panic s
    ]
  ]
