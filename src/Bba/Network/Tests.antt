-- ===== src/Bba/Network/Tests.antt =====
-- bba/: runs of several nodes in the network.
use cleisthenes.Base.{
  ℕ, ◌≡◌, refl, Bool, true, false, Option, none, some, List, [], ◌∷◌, ◌++◌, map, replicate, lookup,
  insert, GoMap, arith, if◌then◌else◌,
}
use cleisthenes.Base.Go.{done, final}
use cleisthenes.Network.{run_network, carries}
use cleisthenes.Bba.Network.{Node, bba_protocol, given}
use cleisthenes.Bba.Network.Validity.{validity}
use cleisthenes.Bba.Samples.{json, json-RoundTrips, node, coin}
use cleisthenes.Binary
use cleisthenes.Binary.{Binary}
use cleisthenes.Member.{Address, Member, address_eq}
use cleisthenes.Bba.BinarySet.{exist, union, to_list}
use cleisthenes.Bba.Request.{save_bval, save_aux, find, save_incoming, find_incoming}
use cleisthenes.Bba.State.{
  Bba, BbaType, bval_type, aux_type, new, send_req, send_bin_value, send_tryout_agreement,
  send_advance_round, inc,
}
use cleisthenes.Bba.Handlers.{
  handle_aux_request, process_payload, type_of, marshal, handle_message, share, broadcast,
  handle_input, after_bval, handle_bval_request, mux_request, mux_message, send_delayed,
  handle_delayed_bval_request, handle_delayed_aux_request, broadcast_aux,
  broadcast_aux_once_for_round, advance_round,
}
use cleisthenes.Bba.Local.{
  save_bval_if_not_exist, save_aux_if_not_exist, save_incoming_request, agreement_failed,
  agreement_success, tryout_with, tryout_agreement,
}
use cleisthenes.Bba.Run.{
  take_advance_round, Event, take_req, take_bin_value, take_tryout_agreement, message, on_req,
  on_bin_value, on_tryout_agreement, on_advance_round, step, run, stop,
}

abbrev says : BbaType → ℕ → Binary → ℕ → Event
says type round v sender =
    message (node sender)
      (record { round = round; type = type; payload = (if v then 1 else 0) ∷ [] })

abbrev at_node : ℕ → List Event → List (Address × Event)
at_node port es = map (λ e. ((node port).address, e)) es

-- A round of votes at a node, and what it then says of them.
abbrev votes : ℕ → List Event → List (Address × Event)
votes port es = at_node port (es ++ replicate 10 take_req ++ replicate 4 take_bin_value)

abbrev supports : ℕ → ℕ → Binary → List ℕ → List (Address × Event)
supports port round v senders = at_node port (
    map (says aux_type round v) senders
    ++ replicate 6 take_req
    ++ take_tryout_agreement ∷ take_advance_round ∷ [])

abbrev split : List (Address × Event)
split =
    votes 0 (
      says bval_type 1 true 1
      ∷ says bval_type 1 true 4
      ∷ says bval_type 1 false 2
      ∷ says bval_type 1 false 3
      ∷ [])
    ++ votes 1 (
        says bval_type 1 true 0
        ∷ says bval_type 1 false 2
        ∷ says bval_type 1 false 3
        ∷ says bval_type 1 false 4
        ∷ [])
    ++ votes 2 (
        says bval_type 1 false 3
        ∷ says bval_type 1 false 4
        ∷ says bval_type 1 true 0
        ∷ says bval_type 1 true 1
        ∷ [])
    ++ votes 3 (
        says bval_type 1 false 2
        ∷ says bval_type 1 false 4
        ∷ says bval_type 1 true 0
        ∷ says bval_type 1 true 1
        ∷ [])
    ++ supports 0 1 false (1 ∷ 2 ∷ 3 ∷ 4 ∷ [])
    ++ supports 1 1 false (2 ∷ 3 ∷ 4 ∷ [])
    ++ supports 2 1 false (1 ∷ 3 ∷ 4 ∷ [])
    ++ supports 3 1 false (1 ∷ 2 ∷ 4 ∷ [])
    ++ votes 1 (says bval_type 2 false 2 ∷ says bval_type 2 false 3 ∷ [])
    ++ votes 2 (says bval_type 2 false 1 ∷ says bval_type 2 false 3 ∷ [])
    ++ votes 3 (says bval_type 2 false 1 ∷ says bval_type 2 false 2 ∷ [])
    ++ supports 1 2 false (2 ∷ 3 ∷ 4 ∷ [])
    ++ supports 2 2 false (1 ∷ 3 ∷ 4 ∷ [])

abbrev split_inputs : List (Member × Binary)
split_inputs = (node 0, true) ∷ (node 1, true) ∷ (node 2, false) ∷ (node 3, false) ∷ []

abbrev decisions : Option (GoMap Address Node) → List (Bool × Binary)
decisions none = []
decisions (some nodes) =
    map (λ (x : Address × Node). let s : Bba = final x.1 in (s.done.value, s.dec.value)) nodes

-- Of five nodes one is faulty. Node 0 decides One in the first round, nodes 1 and 2 decide Zero in
-- the second.
split-decisions :
    decisions (
      run_network
        (bba_protocol json)
        ((node 4).address ∷ [])
        split
        (given json 5 1 coin (node 0) split_inputs))
    ≡ (true, true) ∷ (true, false) ∷ (true, false) ∷ (false, false) ∷ []
unfolding exist union to_list save_bval save_aux find save_incoming find_incoming new send_req
    send_bin_value send_tryout_agreement send_advance_round inc save_bval_if_not_exist
    save_aux_if_not_exist save_incoming_request agreement_failed agreement_success tryout_with
    tryout_agreement handle_aux_request process_payload type_of marshal handle_message share
    broadcast handle_input after_bval handle_bval_request mux_request mux_message send_delayed
    handle_delayed_bval_request handle_delayed_aux_request broadcast_aux
    broadcast_aux_once_for_round advance_round on_req on_bin_value on_tryout_agreement
    on_advance_round step run stop Binary.new Binary.set lookup insert run_network carries
split-decisions = refl

-- Of four nodes one is faulty, the others are given One.
abbrev unanimous : List (Address × Event)
unanimous =
    votes 0 (says bval_type 1 true 1 ∷ says bval_type 1 true 2 ∷ says bval_type 1 false 3 ∷ [])
    ++ votes 1 (says bval_type 1 true 0 ∷ says bval_type 1 true 2 ∷ [])
    ++ supports 0 1 true (1 ∷ 3 ∷ [])

abbrev unanimous_start : GoMap Address Node
unanimous_start =
    given json 4 1 coin (node 0) (map (λ m. (m, true)) (node 0 ∷ node 1 ∷ node 2 ∷ []))

abbrev unanimous_nodes : GoMap Address Node
unanimous_nodes =
    elim (run_network (bba_protocol json) ((node 3).address ∷ []) unanimous unanimous_start) [
      | none ↦ []
      | some nodes ↦ nodes
    ]

abbrev first_node : Node
first_node = elim (lookup (node 0).address unanimous_nodes) [
  | none ↦ done tt (new 4 1 (node 0) (node 0) coin)
  | some s ↦ s
]

unanimous-ran :
    run_network (bba_protocol json) ((node 3).address ∷ []) unanimous unanimous_start
    ≡ some unanimous_nodes
unfolding exist union to_list save_bval save_aux find save_incoming find_incoming new send_req
    send_bin_value send_tryout_agreement send_advance_round inc save_bval_if_not_exist
    save_aux_if_not_exist save_incoming_request agreement_failed agreement_success tryout_with
    tryout_agreement handle_aux_request process_payload type_of marshal handle_message share
    broadcast handle_input after_bval handle_bval_request mux_request mux_message send_delayed
    handle_delayed_bval_request handle_delayed_aux_request broadcast_aux
    broadcast_aux_once_for_round advance_round on_req on_bin_value on_tryout_agreement
    on_advance_round step run stop Binary.new Binary.set lookup insert run_network carries
unanimous-ran = refl

first_node-here : lookup (node 0).address unanimous_nodes ≡ some first_node
unfolding exist union to_list save_bval save_aux find save_incoming find_incoming new send_req
    send_bin_value send_tryout_agreement send_advance_round inc save_bval_if_not_exist
    save_aux_if_not_exist save_incoming_request agreement_failed agreement_success tryout_with
    tryout_agreement handle_aux_request process_payload type_of marshal handle_message share
    broadcast handle_input after_bval handle_bval_request mux_request mux_message send_delayed
    handle_delayed_bval_request handle_delayed_aux_request broadcast_aux
    broadcast_aux_once_for_round advance_round on_req on_bin_value on_tryout_agreement
    on_advance_round step run stop Binary.new Binary.set lookup insert run_network carries
first_node-here = refl

first_node-done : (final first_node).done.value ≡ true
unfolding exist union to_list save_bval save_aux find save_incoming find_incoming new send_req
    send_bin_value send_tryout_agreement send_advance_round inc save_bval_if_not_exist
    save_aux_if_not_exist save_incoming_request agreement_failed agreement_success tryout_with
    tryout_agreement handle_aux_request process_payload type_of marshal handle_message share
    broadcast handle_input after_bval handle_bval_request mux_request mux_message send_delayed
    handle_delayed_bval_request handle_delayed_aux_request broadcast_aux
    broadcast_aux_once_for_round advance_round on_req on_bin_value on_tryout_agreement
    on_advance_round step run stop Binary.new Binary.set lookup insert run_network carries
first_node-done = refl

validity_example : (final first_node).dec.value ≡ true
validity_example =
    validity json json-RoundTrips true ((node 3).address ∷ []) 4 1 coin (node 0)
      (node 0 ∷ node 1 ∷ node 2 ∷ []) unanimous (node 0).address (ground arith) (ground arith)
      (ground arith) unanimous-ran first_node-here first_node-done
