-- ===== src/Rbc/Handlers.antt =====
-- rbc/rbc.go: the handlers of an `RBC`. The goroutine of `run` serves one message at a time and
-- hands its error back, so a message is handled by a call. What is
-- third-party is in the parameter `Env`.
use cleisthenes.Base.{
  ℕ, ◌+◌, ◌*◌, ◌-◌, Bool, true, false, not, ◌&&◌, Option, none, some, [], ◌∷◌, ◌++◌, count_if, leb,
  ◌==◌, bytes_beq, if◌then◌else◌,
}
use cleisthenes.Base.Go.{after, done, fail, panic}
use cleisthenes.Binary
use cleisthenes.Member.{Member, address_eq}
use cleisthenes.Rbc.Merkle.{Bytes, validate_path}
use cleisthenes.Rbc.State.{
  ValRequest, Request, val, echo, ready, other, invalid_rbc_type, invalid_message_type, json_error,
  already_received_val, already_sent_echo, invalid_val, already_received_echo, invalid_echo,
  already_received_ready, invalid_content_length, Result, ok, err, save_echo, save_ready, find,
  find_ready, find_all_echo, find_all_ready, RbcType, val_type, echo_type, ready_type, unknown_type,
  RbcMessage, Rbc, RbcGo, set_content_length,
}
use cleisthenes.Rbc.Decode.{Env, decode}

-- `countEchos`
abbrev pub count_echos : Bytes → Rbc → ℕ
count_echos hash s = count_if (λ req. bytes_beq hash req.root_hash) (find_all_echo s.echo_req_repo)

-- `countReadys`
abbrev pub count_readys : Bytes → Rbc → ℕ
count_readys hash s = count_if (bytes_beq hash) (find_all_ready s.ready_req_repo)

-- `echoThreshold`: a count reaches `n - f` in Go's integers if and only if it reaches this
-- difference, which stops at 0.
abbrev pub echo_threshold : Rbc → ℕ
echo_threshold s = s.n - s.f

-- `readyThreshold`
abbrev pub ready_threshold : Rbc → ℕ
ready_threshold s = s.f + 1

-- `outputThreshold`
abbrev pub output_threshold : Rbc → ℕ
output_threshold s = 2 * s.f + 1

-- `decodeSuccess`. The send to the owner's channel can block in the source; here it ends and is
-- logged, as is what `ShareMessage` is given.
unfoldable pub decode_success : Bytes → Rbc → Rbc
unfolding Binary.set
decode_success value s = record s {
  output = [];
  done = Binary.set s.done true;
  data_sent = s.data_sent ++ record { member = s.proposer; bytes = value } ∷ [];
}

-- The conversion of a message's type for `shareMessage`
unfoldable pub type_of : Request → Option RbcType
type_of (echo _) = some echo_type
type_of (ready _) = some ready_type
type_of _ = none

-- A decoded payload, or the error of `json.Unmarshal`.
unfoldable pub decoded : {A : Type 0} → (A → Request) → Option A → Result Request
decoded make none = err json_error
decoded make (some a) = ok (make a)

module _ (env : Env) where
  -- `shareMessage`, whose error no caller looks at: then nothing is shared.
  unfoldable pub share_message : Request → Rbc → Rbc
  unfolding type_of
  share_message req s = elim (type_of req) [
    | none ↦ s
    | some typ ↦ elim (env.marshal req) [
      | none ↦ s
      | some payload ↦
          let body : RbcMessage = record {
            payload = payload;
            content_length = s.content_length;
            type = typ;
          } in
          record s {
            shared =
                s.shared ++ record { proposer = s.proposer; sender = s.owner; body = body } ∷ [];
          }
    ]
  ]

  -- `tryDecodeValue`
  unfoldable pub try_decode_value : Bytes → RbcGo Bytes
  try_decode_value hash s =
      elim (decode env hash (find_all_echo s.echo_req_repo) s.num_data_shards s.num_parity_shards
        s.content_length) [
          | none ↦ panic s
          | some (err e) ↦ fail e s
          | some (ok value) ↦ done value s
        ]

  -- The end of `handleEchoRequest` and of `handleReadyRequest`
  unfoldable pub try_output : Bytes → RbcGo (Unit {0})
  unfolding decode_success
  try_output hash s =
      if not s.done.value
        && (leb (output_threshold s) (count_readys hash s)
            && leb (echo_threshold s) (count_echos hash s))
      then after (try_decode_value hash s) (λ value. λ s'. done tt (decode_success value s'))
      else done tt s

  -- `readySent.Set(true)` and the READY for the root, unless one was sent
  unfoldable pub send_ready : Bool → Bytes → Rbc → Rbc
  unfolding Binary.set share_message
  send_ready enough hash s =
      if enough && not s.ready_sent.value
      then share_message (ready hash) (record s { ready_sent = Binary.set s.ready_sent true })
      else s

  -- `handleValueRequest`
  unfoldable pub handle_value_request : Member → ValRequest → RbcGo (Unit {0})
  unfolding Binary.set share_message save_echo save_ready
  handle_value_request sender req s =
      if s.val_received.value
      then fail already_received_val s
      else if s.echo_sent.value
      then fail already_sent_echo s
      else elim (validate_path env.hash req.shard req.root_hash req.root_path req.indexes) [
        | none ↦ panic s
        | some false ↦ fail invalid_val s
        | some true ↦ elim (save_echo s.owner.address (echo req) s.echo_req_repo) [
          | err e ↦ fail e s
          | ok echos ↦
              let t = record s { echo_req_repo = echos } in
              elim (save_ready s.owner.address (ready req.root_hash) s.ready_req_repo) [
                | err e ↦ fail e t
                | ok readys ↦
                    let u = record t {
                      ready_req_repo = readys;
                      val_received = Binary.set t.val_received true;
                      echo_sent = Binary.set t.echo_sent true;
                    } in
                    done tt (share_message (echo req) u)
              ]
        ]
      ]

  -- `handleEchoRequest`
  unfoldable pub handle_echo_request : Member → ValRequest → RbcGo (Unit {0})
  unfolding save_echo
  handle_echo_request sender req s =
      if find sender.address s.echo_req_repo
      then fail already_received_echo s
      else elim (validate_path env.hash req.shard req.root_hash req.root_path req.indexes) [
        | none ↦ panic s
        | some false ↦ fail invalid_echo s
        | some true ↦ elim (save_echo sender.address (echo req) s.echo_req_repo) [
          | err e ↦ fail e s
          | ok echos ↦
              let t = record s { echo_req_repo = echos } in
              try_output req.root_hash
                (send_ready (leb (echo_threshold t) (count_echos req.root_hash t)) req.root_hash t)
        ]
      ]

  -- `handleReadyRequest`
  unfoldable pub handle_ready_request : Member → Bytes → RbcGo (Unit {0})
  unfolding save_ready
  handle_ready_request sender hash s =
      if find_ready sender.address s.ready_req_repo
      then fail already_received_ready s
      else elim (save_ready sender.address (ready hash) s.ready_req_repo) [
        | err e ↦ fail e s
        | ok readys ↦
            let t = record s { ready_req_repo = readys } in
            try_output hash (send_ready (leb (ready_threshold t) (count_readys hash t)) hash t)
      ]

  -- `muxRequest`
  unfoldable pub mux_request : Member → Request → RbcGo (Unit {0})
  mux_request sender (val req) = handle_value_request sender req
  mux_request sender (echo req) = handle_echo_request sender req
  mux_request sender (ready hash) = handle_ready_request sender hash
  mux_request sender other = λ s. fail invalid_rbc_type s

  -- `processValueMessage`, `processEchoMessage` and `processReadyMessage`
  unfoldable pub process : RbcType → Bytes → Result Request
  unfolding decoded
  process val_type payload = decoded val (env.unmarshal_val payload)
  process echo_type payload = decoded echo (env.unmarshal_echo payload)
  process ready_type payload = decoded ready (env.unmarshal_ready payload)
  process (unknown_type _) payload = err invalid_message_type

  -- `processMessage`
  unfoldable pub process_message : RbcMessage → Result Request
  unfolding process
  process_message msg = process msg.type msg.payload

  -- `HandleMessage` after `processMessage`
  unfoldable pub handle_request : Member → ℕ → Request → RbcGo (Unit {0})
  unfolding set_content_length
  handle_request sender received req s =
      let t = set_content_length received s in
      if not (t.content_length == received)
      then fail (invalid_content_length t.content_length received) t
      else mux_request sender req t

  -- `HandleMessage`
  unfoldable pub handle_message : Member → RbcMessage → RbcGo (Unit {0})
  unfolding process_message
  handle_message sender msg s = elim (process_message msg) [
    | err e ↦ fail e s
    | ok req ↦ handle_request sender msg.content_length req s
  ]
