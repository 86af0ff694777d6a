-- ===== src/Bba/Tests.antt =====
-- bba/: a run of one instance of four nodes that decides, and the theorems at it.
use cleisthenes.Base.{
  ℕ, ◌+◌, ◌*◌, ◌≤◌, Distinct, keys, arith, ◌≡◌, refl, true, false, some, List, [], ◌∷◌, ◌++◌,
  replicate, length, lookup, insert,
}
use cleisthenes.Base.Go.{done, block, final}
use cleisthenes.Binary
use cleisthenes.Binary.{Binary}
use cleisthenes.Member.{address_eq}
use cleisthenes.Bba.BinarySet.{exist, union, to_list}
use cleisthenes.Bba.Request.{bval, save_bval, save_aux, find, save_incoming, find_incoming}
use cleisthenes.Bba.State.{
  BbaMessage, Bba, BbaType, bval_type, aux_type, new, send_req, send_bin_value,
  send_tryout_agreement, send_advance_round, inc,
}
use cleisthenes.Bba.Handlers.{
  handle_aux_request, process_payload, type_of, marshal, handle_message, share, broadcast,
  handle_input, after_bval, handle_bval_request, mux_request, mux_message, send_delayed,
  handle_delayed_bval_request, handle_delayed_aux_request, broadcast_aux,
  broadcast_aux_once_for_round, advance_round,
}
use cleisthenes.Bba.Local.{
  count_by_value, save_bval_if_not_exist, save_aux_if_not_exist, save_incoming_request,
  agreement_failed, agreement_success, tryout_with, tryout_agreement,
}
use cleisthenes.Bba.Run.{
  Event, take_req, take_bin_value, take_tryout_agreement, message, on_req, on_bin_value,
  on_tryout_agreement, on_advance_round, step, run, stop,
}
use cleisthenes.Bba.Support.{AgreesWithCoin, decides_unsupported, decided_votes_against}
use cleisthenes.Bba.Repeats.{Repeats, bval_of, repeated_bval_blocks}
use cleisthenes.Bba.Samples.{json, json-RoundTrips, node, coin}
use cleisthenes.Bba.Transport.{Ready, broadcast_delivered}
use cleisthenes.Bba.Quorum.{bin_value_quorum}
use cleisthenes.Bba.Decision.{run-Settled, Settled, decision_final}
use cleisthenes.Bba.Provenance.{delivered}
use cleisthenes.Bba.Provenance.Schedules.{OtherVotes, bin_value_justified, decision_justified}

abbrev message_of : BbaType → ℕ → Event
message_of type port = message (node port) (record { round = 1; type = type; payload = 1 ∷ [] })

abbrev schedule : List Event
schedule =
    message_of bval_type 1
    ∷ message_of bval_type 2
    ∷ message_of bval_type 3
    ∷ take_req
    ∷ take_req
    ∷ take_req
    ∷ take_bin_value
    ∷ message_of aux_type 1
    ∷ message_of aux_type 2
    ∷ take_req
    ∷ take_req
    ∷ take_req
    ∷ take_req
    ∷ take_tryout_agreement
    ∷ []

abbrev start : Bba
start = new 4 1 (node 0) (node 0) coin

abbrev decided : Bba
decided = final (run json schedule start)

decided-done : decided.done.value ≡ true
unfolding exist union to_list save_bval save_aux find save_incoming find_incoming new send_req
    send_bin_value send_tryout_agreement send_advance_round inc save_bval_if_not_exist
    save_aux_if_not_exist save_incoming_request agreement_failed agreement_success tryout_with
    tryout_agreement handle_aux_request process_payload type_of marshal handle_message share
    broadcast handle_input after_bval handle_bval_request mux_request mux_message send_delayed
    handle_delayed_bval_request handle_delayed_aux_request broadcast_aux
    broadcast_aux_once_for_round advance_round on_req on_bin_value on_tryout_agreement
    on_advance_round step run stop Binary.new Binary.set lookup insert
decided-done = refl

decided-bin_value : exist true decided.bin_value_set ≡ true
unfolding exist union to_list save_bval save_aux find save_incoming find_incoming new send_req
    send_bin_value send_tryout_agreement send_advance_round inc save_bval_if_not_exist
    save_aux_if_not_exist save_incoming_request agreement_failed agreement_success tryout_with
    tryout_agreement handle_aux_request process_payload type_of marshal handle_message share
    broadcast handle_input after_bval handle_bval_request mux_request mux_message send_delayed
    handle_delayed_bval_request handle_delayed_aux_request broadcast_aux
    broadcast_aux_once_for_round advance_round on_req on_bin_value on_tryout_agreement
    on_advance_round step run stop Binary.new Binary.set lookup insert
decided-bin_value = refl

bin_value_quorum_example :
    (2 * decided.f + 1 ≤ count_by_value true decided.bval_repo) × Distinct (keys decided.bval_repo)
bin_value_quorum_example =
    bin_value_quorum json 4 1 (node 0) (node 0) coin schedule true decided-bin_value

run-Settled_example : Settled decided
run-Settled_example = run-Settled json 4 1 (node 0) (node 0) coin schedule

decision_final_example :
    ((final (run json schedule decided)).done.value ≡ true)
    × ((final (run json schedule decided)).dec ≡ decided.dec)
    × ((final (run json schedule decided)).bin_input ≡ decided.bin_input)
decision_final_example = decision_final json decided schedule decided-done

bin_value_justified_example : OtherVotes (node 0) (delivered json schedule) 1 decided.round true
bin_value_justified_example =
    bin_value_justified json 4 1 (node 0) (node 0) coin schedule true decided-bin_value

decision_justified_example :
    (round : ℕ) × (decided.dec.value ≡ coin round)
    × OtherVotes (node 0) (delivered json schedule) 1 round decided.dec.value
decision_justified_example =
    decision_justified json 4 1 (node 0) (node 0) coin schedule decided-done

start-Ready : Ready start
unfolding new
start-Ready = record { open_chan = refl; free = ground arith }

broadcast_delivered_example :
    (msg : BbaMessage) × (broadcast json (bval true) start
      ≡ done tt (record start {
        req_chan =
            start.req_chan
            ++ record { sender = start.owner; payload = bval true; round = start.round } ∷ [];
        shared =
            start.shared
            ++ record { proposer = start.proposer; sender = start.owner; body = msg } ∷ [];
      }))
    × (handle_message json (node 0) msg start
        ≡ done tt (record start {
          req_chan =
              start.req_chan
              ++ record { sender = node 0; payload = bval true; round = start.round } ∷ [];
        }))
broadcast_delivered_example =
    broadcast_delivered json json-RoundTrips start start (node 0) (bval true) (ground arith)
      start-Ready start-Ready

-- One node's own BVAL, repeated until `binValueChan` is full.
abbrev flooded : Bba
flooded = record (new 1 0 (node 0) (node 0) coin) {
  bval_repo = ((node 0).address, true) ∷ [];
  req_chan = replicate 5 (bval_of (node 0) 1 true);
}

flooded-Repeats : Repeats flooded (node 0) true true
unfolding new lookup
flooded-Repeats = record { running = refl; saved = refl; count = refl }

flooded-full : length flooded.bin_value_chan + 4 ≡ flooded.n * 4
unfolding new
flooded-full = refl

repeated_bval_blocks_example : (t : Bba) × (run json (replicate 5 take_req) flooded ≡ block t)
repeated_bval_blocks_example =
    repeated_bval_blocks json 4 flooded (node 0) true true [] flooded-Repeats flooded-full
      (unfold new in refl)

-- Five nodes, one of them faulty: three addresses have sent an AUX for Zero.
abbrev supported : Bba
supported = record (new 5 1 (node 0) (node 0) coin) {
  est = record { value = false; undefined = false };
  bin_value_set = (true, true) ∷ [];
  aux_repo = ((node 1).address, false) ∷ ((node 2).address, false) ∷ ((node 3).address, false) ∷ [];
}

supported-AgreesWithCoin : AgreesWithCoin supported true
unfolding new to_list Binary.new
supported-AgreesWithCoin = record {
  undecided = refl;
  single = refl;
  coin = refl;
  free = ground arith;
}

decides_unsupported_example :
    (t : Bba) × (u : Bba) × (handle_aux_request (node 4) false supported ≡ done tt t)
    × (t.tryout_agreement_chan ≡ supported.tryout_agreement_chan ++ supported.round ∷ [])
    × (tryout_agreement t ≡ done tt u)
    × (u.done.value ≡ true)
    × (u.dec.value ≡ true)
    × (count_by_value true u.aux_repo ≡ count_by_value true supported.aux_repo)
decides_unsupported_example =
    decides_unsupported supported (node 4) true supported-AgreesWithCoin (unfold lookup in refl)
      (unfold new insert in ground arith) (unfold new in ground arith)

decided_votes_against_example :
    let t = final (tryout_agreement supported) in
    (t.done.value ≡ true)
    × (t.dec.value ≡ true)
    × ((p : List ℕ) × (json.marshal false ≡ some p)
        × ((final (advance_round json t)).shared
            ≡ supported.shared
              ++ record {
                proposer = supported.proposer;
                sender = supported.owner;
                body = record { round = inc supported.round; type = bval_type; payload = p };
              }
                ∷ []))
decided_votes_against_example =
    decided_votes_against json supported true json-RoundTrips supported-AgreesWithCoin refl
      (unfold new in refl) (unfold new in refl) (unfold new in refl) (unfold new in ground arith)
