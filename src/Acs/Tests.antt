-- ===== src/Acs/Tests.antt =====
-- acs/: a common subset of two nodes that sends a batch, and the theorems at it. The instances
-- answer nothing: their results arrive as events.
use cleisthenes.Base.{
  ℕ, ◌≡◌, refl, true, false, Option, none, some, List, [], ◌∷◌, ◌++◌, length, lookup, insert, All,
  if◌then◌else◌, arith,
}
use cleisthenes.Base.Go.{done, final}
use cleisthenes.Binary
use cleisthenes.Binary.{Binary}
use cleisthenes.Member.{Member, MemberMap, member_eq, address_eq, members}
use cleisthenes.Rbc.State.{Rbc}
use cleisthenes.Bba.State.{Bba, new as new_bba}
use cleisthenes.Honeybadger.{BatchMessage}
use cleisthenes.Acs.State.{RbcOps, BbaOps, Acs, add_members, new, item, data_item}
use cleisthenes.Acs.Handlers.{
  process_data, process_agreement, signal_agreement, agreement_success, agreed_node_list, collect,
  try_complete_agreement, try_agreement_start,
}
use cleisthenes.Acs.Run.{Event, data_output, binary_output, on_data, on_binary, step, run}
use cleisthenes.Acs.Completion.{BatchOf, try_complete_agreement-sends}
use cleisthenes.Acs.Final.{agreed_final}
use cleisthenes.Acs.Instances.{rbc_instances, bba_instances}
use cleisthenes.Bba.Handlers.{Json}
use cleisthenes.Rbc.Decode.{Env}
use cleisthenes.Acs.Members.{too_few_members}
use cleisthenes.Acs.History.{run-Complete}

abbrev rbc_ops : RbcOps
rbc_ops = record { handle_input = λ bytes s. done tt s; handle_message = λ sender msg s. done tt s }

abbrev bba_ops : BbaOps
bba_ops = record {
  handle_input = λ bin s. done tt s;
  handle_message = λ sender msg s. done tt s;
  idle = λ s. true;
}

abbrev env : Env
env = record {
  hash = λ bytes. bytes;
  split = λ bytes. some (bytes ∷ []);
  encode = λ shards. some shards;
  reconstruct = λ shards. some shards;
  tree = λ shards. none;
  marshal = λ req. none;
  unmarshal_val = λ payload. none;
  unmarshal_echo = λ payload. none;
  unmarshal_ready = λ payload. some payload;
  spare = λ bytes. [];
}

abbrev json : Json
json = record { marshal = λ bin. some (if bin then 1 ∷ [] else []); unmarshal = λ payload. none }

abbrev node : ℕ → Member
node port = record { address = record { ip = "localhost"; port = port } }

abbrev member_map : MemberMap
member_map = ((node 0).address, node 0) ∷ ((node 1).address, node 1) ∷ []

abbrev rbc_of : Member → Rbc
rbc_of m = record {
  n = 2;
  f = 0;
  owner = node 0;
  proposer = m;
  output = [];
  content_length = 0;
  num_data_shards = 2;
  num_parity_shards = 0;
  echo_req_repo = [];
  ready_req_repo = [];
  val_received = Binary.new;
  echo_sent = Binary.new;
  ready_sent = Binary.new;
  done = Binary.new;
  shared = [];
  distributed = [];
  data_sent = [];
}

abbrev make_rbc : Member → Option Rbc
make_rbc m = some (rbc_of m)

abbrev make_bba : Member → Bba
make_bba m = new_bba 2 0 (node 0) m (λ round. true)

abbrev start : Acs
start = record {
  n = 2;
  f = 0;
  owner = node 0;
  member_map = member_map;
  rbc_repo = (node 0, rbc_of (node 0)) ∷ (node 1, rbc_of (node 1)) ∷ [];
  bba_repo = (node 0, make_bba (node 0)) ∷ (node 1, make_bba (node 1)) ∷ [];
  broadcast_result = (node 0, []) ∷ (node 1, []) ∷ [];
  agreement_result = (node 0, Binary.new) ∷ (node 1, Binary.new) ∷ [];
  agreement_started = (node 0, Binary.new) ∷ (node 1, Binary.new) ∷ [];
  dec = record { value = false; undefined = false };
  agreement_chan = 0;
  stop_flag = false;
  batches = [];
}

abbrev schedule : List Event
schedule =
    data_output (node 0) (7 ∷ []) ∷ binary_output (node 0) true ∷ binary_output (node 1) false ∷ []

-- The batch has the data of the node that was agreed on.
ended-batches :
    (final (run rbc_ops bba_ops schedule start)).batches
    ≡ record { epoch = 0; batch = (node 0, 7 ∷ []) ∷ [] } ∷ []
unfolding run step on_data on_binary process_data process_agreement signal_agreement
    agreement_success agreed_node_list collect try_complete_agreement try_agreement_start Binary.new
    Binary.set lookup insert data_item item
ended-batches = refl

start-new : new make_rbc make_bba 2 0 (node 0) member_map ≡ some start
unfolding new add_members members insert
start-new = refl

run-Complete_example :
    let t = final (run (rbc_instances env) (bba_instances json) schedule start) in
    (length t.batches ≡ (if t.dec.value then 1 else 0))
    × All
        (λ msg.
          (before : List Event) × (later : List Event) × (before ++ later ≡ schedule)
          × BatchOf 2 (final (run (rbc_instances env) (bba_instances json) before start)) msg.batch)
        t.batches
run-Complete_example =
    run-Complete (rbc_instances env) (bba_instances json) make_rbc make_bba 2 0 (node 0) member_map
      schedule start-new

abbrev ready : Acs
ready = record start {
  broadcast_result = (node 0, 7 ∷ []) ∷ (node 1, []) ∷ [];
  agreement_result =
      (node 0, record { value = true; undefined = false })
      ∷ (node 1, record { value = false; undefined = false })
      ∷ [];
}

try_complete_agreement-sends_example :
    (msg : BatchMessage) × ((try_complete_agreement ready).batches ≡ [] ++ msg ∷ [])
    × ((try_complete_agreement ready).dec.value ≡ true)
    × ((k : Member)
        → lookup k msg.batch ≡ (
            if (item k ready.agreement_result).value
            then some (data_item k ready.broadcast_result)
            else none))
try_complete_agreement-sends_example =
    try_complete_agreement-sends ready refl (refl, (refl, tt)) (ground arith)
      (unfold agreed_node_list in ground arith)
      (unfold agreed_node_list data_item lookup in (ground arith, tt))

agreed_final_example :
    (item (node 0) (final (run rbc_ops bba_ops schedule ready)).agreement_result).value ≡ true
agreed_final_example =
    agreed_final rbc_ops bba_ops ready schedule (node 0) (unfold item lookup in refl)

abbrev larger : Acs
larger = record start { n = 3 }

larger-new : new make_rbc make_bba 3 0 (node 0) member_map ≡ some larger
unfolding new add_members members insert
larger-new = refl

too_few_members_example : (final (run rbc_ops bba_ops schedule larger)).batches ≡ []
too_few_members_example =
    too_few_members make_rbc make_bba 3 0 (node 0) member_map rbc_ops bba_ops schedule
      (unfold members in ground arith) larger-new
