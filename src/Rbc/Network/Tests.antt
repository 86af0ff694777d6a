-- ===== src/Rbc/Network/Tests.antt =====
-- rbc/: a run of four nodes in the network. The erasure code is two bytes and their sum; the hash is
-- constant.
use cleisthenes.Base.{
  ℕ, ◌≡◌, refl, Option, none, some, List, [], ◌∷◌, map, lookup, insert, GoMap, arith,
}
use cleisthenes.Base.Go.{done, final}
use cleisthenes.Binary
use cleisthenes.Member.{Address, address_eq}
use cleisthenes.Rbc.Merkle.{Bytes, validate_path, walk, order_of_data, order_from}
use cleisthenes.Rbc.State.{save_echo, save_ready, find, DataMessage, new, set_content_length}
use cleisthenes.Rbc.Handlers.{
  decode_success, type_of, decoded, share_message, try_decode_value, try_output, send_ready,
  handle_value_request, handle_echo_request, handle_ready_request, mux_request, process,
  process_message, handle_request, handle_message,
}
use cleisthenes.Rbc.Decode.{place_shards, join, decode}
use cleisthenes.Rbc.Run.{step, run}
use cleisthenes.Network.{run_network, carries}
use cleisthenes.Rbc.Samples.{node, accepts, start}
use cleisthenes.Rbc.Network.{Node, rbc_protocol, started}
use cleisthenes.Rbc.Network.Votes.{chosen}
use cleisthenes.Rbc.Network.Tally.{DecodedFrom}
use cleisthenes.Rbc.Network.Agreement.{agreed_root}
use cleisthenes.Rbc.Network.Samples.{env, env-EchoTrips, split, correct}

abbrev split_nodes : GoMap Address Node
split_nodes =
    elim (run_network (rbc_protocol env) ((node 3).address ∷ []) split
      (started accepts 4 1 (node 3) correct)) [ none ↦ [] | some nodes ↦ nodes ]

abbrev state_of : ℕ → Option Node
state_of port = lookup (node port).address split_nodes

abbrev values_of : Option Node → List Bytes
values_of none = []
values_of (some x) = map (λ (m : DataMessage). m.bytes) (final x).data_sent

-- Two nodes that are not faulty give out different values.
split-values :
    (values_of (state_of 0) ≡ (10 ∷ 20 ∷ []) ∷ []) × (values_of (state_of 1) ≡ (79 ∷ 20 ∷ []) ∷ [])
unfolding run_network carries run step handle_message handle_request process_message process
    mux_request handle_value_request handle_echo_request handle_ready_request send_ready try_output
    try_decode_value decode share_message decoded type_of decode_success join place_shards
    set_content_length find save_ready save_echo order_from order_of_data walk validate_path
    Binary.new Binary.set lookup insert new
split-values = (refl, refl)

abbrev node_at : ℕ → Node
node_at port = elim (state_of port) [ none ↦ done tt start | some x ↦ x ]

split-ran :
    run_network
      (rbc_protocol env)
      ((node 3).address ∷ [])
      split
      (started accepts 4 1 (node 3) correct)
    ≡ some split_nodes
unfolding run_network carries run step handle_message handle_request process_message process
    mux_request handle_value_request handle_echo_request handle_ready_request send_ready try_output
    try_decode_value decode share_message decoded type_of decode_success join place_shards
    set_content_length find save_ready save_echo order_from order_of_data walk validate_path
    Binary.new Binary.set lookup insert new
split-ran = refl

split-nodes : (state_of 0 ≡ some (node_at 0)) × (state_of 1 ≡ some (node_at 1))
unfolding run_network carries run step handle_message handle_request process_message process
    mux_request handle_value_request handle_echo_request handle_ready_request send_ready try_output
    try_decode_value decode share_message decoded type_of decode_success join place_shards
    set_content_length find save_ready save_echo order_from order_of_data walk validate_path
    Binary.new Binary.set lookup insert new
split-nodes = (refl, refl)

split-sent :
    ((final (node_at 0)).data_sent ≡ record { member = node 3; bytes = 10 ∷ 20 ∷ [] } ∷ [])
    × ((final (node_at 1)).data_sent ≡ record { member = node 3; bytes = 79 ∷ 20 ∷ [] } ∷ [])
unfolding run_network carries run step handle_message handle_request process_message process
    mux_request handle_value_request handle_echo_request handle_ready_request send_ready try_output
    try_decode_value decode share_message decoded type_of decode_success join place_shards
    set_content_length find save_ready save_echo order_from order_of_data walk validate_path
    Binary.new Binary.set lookup insert new
split-sent = (refl, refl)

agreed_root_example :
    (root : Bytes) × DecodedFrom env 4 1
      ((node 3).address ∷ [])
      split_nodes
      (node 0).address
      (chosen (final (node_at 0)))
      root
      (10 ∷ 20 ∷ [])
    × DecodedFrom env 4 1
        ((node 3).address ∷ [])
        split_nodes
        (node 1).address
        (chosen (final (node_at 1)))
        root
        (79 ∷ 20 ∷ [])
agreed_root_example =
    agreed_root env env-EchoTrips accepts 4 1 (node 3) ((node 3).address ∷ []) correct split
      (node 0).address (node 1).address (ground arith) (ground arith) (ground arith) split-ran
      split-nodes.0 split-nodes.1 split-sent.0 split-sent.1

-- The same messages, while node 0, which is not faulty and has no input, is the proposer: the VALs are
-- the faulty node's.
abbrev impersonated_nodes : GoMap Address Node
impersonated_nodes =
    elim (run_network (rbc_protocol env) ((node 3).address ∷ []) split
      (started accepts 4 1 (node 0) correct)) [ none ↦ [] | some nodes ↦ nodes ]

impersonated-values :
    (values_of (lookup (node 0).address impersonated_nodes) ≡ (10 ∷ 20 ∷ []) ∷ [])
    × (values_of (lookup (node 1).address impersonated_nodes) ≡ (79 ∷ 20 ∷ []) ∷ [])
unfolding run_network carries run step handle_message handle_request process_message process
    mux_request handle_value_request handle_echo_request handle_ready_request send_ready try_output
    try_decode_value decode share_message decoded type_of decode_success join place_shards
    set_content_length find save_ready save_echo order_from order_of_data walk validate_path
    Binary.new Binary.set lookup insert new
impersonated-values = (refl, refl)
