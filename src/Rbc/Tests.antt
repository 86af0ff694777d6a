-- ===== src/Rbc/Tests.antt =====
-- rbc/: a run of one broadcast of four nodes that gives its value, and the theorems at it. The
-- hash is constant, and reconstruction finds nothing to repair.
use cleisthenes.Base.{
  ℕ, ◌≡◌, refl, Option, none, some, List, [], ◌∷◌, ◌++◌, ◌==◌, if◌then◌else◌, All, lookup, insert,
  arith,
}
use cleisthenes.Base.Go.{fail, final}
use cleisthenes.Binary
use cleisthenes.Member.{address_eq}
use cleisthenes.Rbc.Merkle.{
  Bytes, index_zero, index_one, validate_path, walk, order_of_data, order_from,
}
use cleisthenes.Rbc.State.{
  ValRequest, ready, invalid_content_length, save_echo, save_ready, find, RbcType, echo_type,
  ready_type, Rbc, new, set_content_length,
}
use cleisthenes.Rbc.Handlers.{
  decode_success, type_of, decoded, share_message, try_decode_value, try_output, send_ready,
  handle_value_request, handle_echo_request, handle_ready_request, mux_request, process,
  process_message, handle_request, handle_message,
}
use cleisthenes.Rbc.Decode.{Env, place_shards, join, decode}
use cleisthenes.Rbc.Run.{Event, message, step, run}
use cleisthenes.Rbc.Samples.{node, accepts, start}
use cleisthenes.Rbc.Once.{Once, run-Once}
use cleisthenes.Rbc.Length.{length_poisoned}
use cleisthenes.Rbc.Output.{Backed, run-Backed}

abbrev unmarshal_shard : Bytes → Option ValRequest
unmarshal_shard [] = none
unmarshal_shard (order ∷ content) = some (record {
  root_hash = [];
  shard = record { content = content };
  root_path = [];
  indexes = if order == 0 then index_one ∷ [] else index_zero ∷ [];
})

abbrev env : Env
env = record {
  hash = λ bytes. [];
  split = λ bytes. none;
  encode = λ shards. some shards;
  reconstruct = λ shards. some shards;
  tree = λ shards. none;
  marshal = λ req. some [];
  unmarshal_val = unmarshal_shard;
  unmarshal_echo = unmarshal_shard;
  unmarshal_ready = λ payload. some payload;
  spare = λ bytes. [];
}

abbrev message_of : RbcType → ℕ → Bytes → Event
message_of type port payload =
    message (node port) (record { payload = payload; content_length = 2; type = type })

abbrev schedule : List Event
schedule =
    message_of echo_type 1 (0 ∷ 10 ∷ [])
    ∷ message_of echo_type 2 (1 ∷ 20 ∷ [])
    ∷ message_of ready_type 1 []
    ∷ message_of ready_type 2 []
    ∷ message_of ready_type 3 []
    ∷ message_of echo_type 3 (2 ∷ 20 ∷ [])
    ∷ []

start-new : new accepts 4 1 (node 0) (node 1) ≡ some start
unfolding new
start-new = refl

abbrev ended : Rbc
ended = final (run env schedule start)

ended-data_sent : ended.data_sent ≡ record { member = node 1; bytes = 10 ∷ 20 ∷ [] } ∷ []
unfolding run step handle_message handle_request process_message process mux_request
    handle_value_request handle_echo_request handle_ready_request send_ready try_output
    try_decode_value decode share_message decoded type_of decode_success join place_shards
    set_content_length find save_ready save_echo order_from order_of_data walk validate_path
    Binary.new Binary.set lookup insert
ended-data_sent = refl

run-Backed_example :
    All
      (λ msg.
        (before : List Event) × (later : List Event) × (before ++ later ≡ schedule)
        × Backed env 4 1 (final (run env before start)) msg.bytes)
      ended.data_sent
run-Backed_example = run-Backed env accepts 4 1 (node 0) (node 1) schedule start-new

run-Once_example : Once ended
run-Once_example = run-Once env accepts 4 1 (node 0) (node 1) schedule start-new

abbrev learned : Rbc
learned = record start { content_length = 2 }

length_poisoned_example :
    handle_message env
      (node 2)
      (record { payload = []; content_length = 5; type = ready_type })
      (final (run env schedule learned))
    ≡ fail (invalid_content_length 2 5) (final (run env schedule learned))
length_poisoned_example =
    length_poisoned env 1 learned schedule (node 2)
      (record { payload = []; content_length = 5; type = ready_type }) (ready []) refl
      (ground arith) (unfold process_message process decoded in refl)
