-- ===== src/Bba/Handlers.antt =====
-- bba/bba.go: the handlers of a `BBA`. JSON is the standard library's and enters as a parameter.
-- The payloads of a BVAL and of an AUX have the same form, an object with the one field `Value`.
use cleisthenes.Base.{
  ℕ, true, not, List, [], ◌∷◌, ◌++◌, Option, none, some, ◌&&◌, ltb, ◌==◌, if◌then◌else◌, bool_eq,
}
use cleisthenes.Base.Go.{Outcome, ◌>>=◌, ◌>>◌, after, pure, throw, get, done, fail, block, panic}
use cleisthenes.Binary.{Binary, BinaryState}
use cleisthenes.Binary
use cleisthenes.Member.{Member}
use cleisthenes.Bba.BinarySet.{new_binary_set, exist, union, to_list}
use cleisthenes.Bba.Request.{
  Request, bval, aux, other, Error, undefined_request_type, invalid_broadcast_type,
  invalid_message_type, json_error, Result, ok, err, new_req_repository, new_aux_req_repository,
  IncomingRequest, find_incoming,
}
use cleisthenes.Bba.State.{
  BbaRequest, BbaType, bval_type, aux_type, unknown_type, BbaMessage, Bba, BbaGo, send_req,
  send_bin_value, send_tryout_agreement, inc, bval_broadcast_threshold, bin_value_set_threshold,
  tryout_agreement_threshold,
}
use cleisthenes.Bba.Local.{
  count_by_value, save_bval_if_not_exist, save_aux_if_not_exist, save_incoming_request,
}

pub record Json : Type 0 where
  pub marshal : Binary → Option (List ℕ)
  pub unmarshal : List ℕ → Option Binary

-- A call whose error result is dropped.
abbrev pub ignored : Outcome Error Bba (Unit {0}) → Outcome Error Bba (Unit {0})
ignored (done a s) = done a s
ignored (fail e s) = done tt s
ignored (block s) = block s
ignored (panic s) = panic s

abbrev pub ignore : BbaGo (Unit {0}) → BbaGo (Unit {0})
ignore m s = ignored (m s)

-- `handleAuxRequest`
unfoldable pub handle_aux_request : Member → Binary → BbaGo (Unit {0})
handle_aux_request sender v = do
  save_aux_if_not_exist sender v
  s ← get
  if ltb (count_by_value v s.aux_repo) (tryout_agreement_threshold s)
      then pure tt
      else send_tryout_agreement s.round

-- `processMessage`, `processBvalMessage` and `processAuxMessage`, given the decoded payload
unfoldable pub process_payload : ℕ → BbaType → Option Binary → Result (Request × ℕ)
process_payload round bval_type none = err json_error
process_payload round bval_type (some v) = ok (bval v, round)
process_payload round aux_type none = err json_error
process_payload round aux_type (some v) = ok (aux v, round)
process_payload round (unknown_type _) _ = err invalid_message_type

-- The first `switch` of `broadcast`
unfoldable pub type_of : Request → Option BbaType
type_of (bval _) = some bval_type
type_of (aux _) = some aux_type
type_of other = none

-- `json.Marshal` of a request
unfoldable pub marshal : Json → Request → Option (List ℕ)
marshal json (bval v) = json.marshal v
marshal json (aux v) = json.marshal v
marshal json other = none

module _ (json : Json) where
  -- `HandleMessage`
  unfoldable pub handle_message : Member → BbaMessage → BbaGo (Unit {0})
  handle_message sender msg =
      elim (process_payload msg.round msg.type (json.unmarshal msg.payload)) [
        | err e ↦ throw e
        | ok (req, round) ↦ send_req (record { sender = sender; payload = req; round = round })
      ]

  -- `bba.broadcaster.ShareMessage`. The call can block in the source; here it ends and is logged.
  unfoldable pub share : BbaMessage → BbaGo (Unit {0})
  share msg s = done tt (record s {
    shared = s.shared ++ record { proposer = s.proposer; sender = s.owner; body = msg } ∷ [];
  })

  -- `broadcast`: the instance also handles its own message, and drops the error of that.
  unfoldable pub broadcast : Request → BbaGo (Unit {0})
  broadcast req s = elim (type_of req) [
    | none ↦ fail invalid_broadcast_type s
    | some typ ↦ elim (marshal json req) [
      | none ↦ fail json_error s
      | some payload ↦
          let msg : BbaMessage = record { round = s.round; type = typ; payload = payload } in
          (ignore (handle_message s.owner msg) >> share msg) s
    ]
  ]

  -- `HandleInput`. In the source it runs on the goroutine of its caller, next to `run`; here the call
  -- is one step.
  unfoldable pub handle_input : Binary → BbaGo (Unit {0})
  unfolding Binary.set
  handle_input v s =
      let t = record s { est = Binary.set s.est v } in
      let req : BbaRequest = record { sender = t.owner; payload = bval v; round = t.round } in
      (broadcast (bval v) >> send_req req) t

  -- `handleBvalRequest` after `saveBvalIfNotExist`
  unfoldable pub after_bval : Binary → BbaGo (Unit {0})
  after_bval v s =
      let count = count_by_value v s.bval_repo in
      if count == bin_value_set_threshold s
      then send_bin_value s.round (record s { bin_value_set = union v s.bin_value_set })
      else if count == bval_broadcast_threshold s && not (exist v s.broadcasted_bval_set)
      then broadcast (bval v) (record s { broadcasted_bval_set = union v s.broadcasted_bval_set })
      else done tt s

  -- `handleBvalRequest`
  unfoldable pub handle_bval_request : Member → Binary → BbaGo (Unit {0})
  handle_bval_request sender v = do save_bval_if_not_exist sender v; after_bval v

  -- The `switch` of `muxMessage`
  unfoldable pub mux_request : Member → Request → BbaGo (Unit {0})
  mux_request sender (bval v) = handle_bval_request sender v
  mux_request sender (aux v) = handle_aux_request sender v
  mux_request sender other = throw undefined_request_type

  -- `muxMessage`
  unfoldable pub mux_message : Member → ℕ → Request → BbaGo (Unit {0})
  mux_message sender round req s =
      if ltb round s.round
      then done tt s
      else if ltb s.round round
      then save_incoming_request round sender req s
      else mux_request sender req s

  -- The loops of `handleDelayedBvalRequest` and `handleDelayedAuxRequest`
  unfoldable pub send_delayed : List IncomingRequest → BbaGo (Unit {0})
  send_delayed [] s = done tt s
  send_delayed (ir ∷ irs) s =
      let rest = send_delayed irs in
      let sender : Member = record { address = ir.addr } in
      let r : BbaRequest = record { sender = sender; payload = ir.req; round = ir.round } in
      if not (ir.round == s.round) then rest s else after (send_req r s) (λ _. rest)

  -- `handleDelayedBvalRequest`
  unfoldable pub handle_delayed_bval_request : BbaGo (Unit {0})
  unfolding find_incoming
  handle_delayed_bval_request s = send_delayed (find_incoming s.round s.incoming_bval_repo) s

  -- `handleDelayedAuxRequest`
  unfoldable pub handle_delayed_aux_request : BbaGo (Unit {0})
  unfolding find_incoming
  handle_delayed_aux_request s = send_delayed (find_incoming s.round s.incoming_aux_repo) s

  -- The loop of `broadcastAuxOnceForRound`
  unfoldable pub broadcast_aux : List Binary → BbaGo (Unit {0})
  broadcast_aux [] = pure tt
  broadcast_aux (b ∷ bs) = ignore (broadcast (aux b)) >> broadcast_aux bs

  -- `broadcastAuxOnceForRound`
  unfoldable pub broadcast_aux_once_for_round : BbaGo (Unit {0})
  unfolding Binary.set
  broadcast_aux_once_for_round s =
      if s.aux_broadcasted.value
      then done tt s
      else after (broadcast_aux (to_list s.bin_value_set) s)
          (λ _ t. done tt (record t { aux_broadcasted = Binary.set t.aux_broadcasted true }))

  -- `advanceRound`; the error of `HandleInput` is dropped.
  unfoldable pub advance_round : BbaGo (Unit {0})
  unfolding Binary.new
  advance_round s =
      let t = record s {
        bval_repo = new_req_repository;
        aux_repo = new_aux_req_repository;
        bin_value_set = new_binary_set;
        broadcasted_bval_set = new_binary_set;
        aux_broadcasted = Binary.new;
        round = inc s.round;
      } in
      after (handle_delayed_bval_request t) (λ _ u. ignore (handle_input u.est.value) u)
