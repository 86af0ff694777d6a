-- ===== src/Rbc/Samples.antt =====
-- Data for the runs of instances in Tests and Network/Tests.
use cleisthenes.Base.{ℕ, Bool, true, []}
use cleisthenes.Binary
use cleisthenes.Member.{Member}
use cleisthenes.Rbc.State.{Rbc}

abbrev pub node : ℕ → Member
node port = record { address = record { ip = "localhost"; port = port } }

abbrev pub accepts : ℕ → ℕ → Bool
accepts k parity = true

abbrev pub start : Rbc
start = record {
  n = 4;
  f = 1;
  owner = node 0;
  proposer = node 1;
  output = [];
  content_length = 0;
  num_data_shards = 2;
  num_parity_shards = 2;
  echo_req_repo = [];
  ready_req_repo = [];
  val_received = Binary.new;
  echo_sent = Binary.new;
  ready_sent = Binary.new;
  done = Binary.new;
  shared = [];
  distributed = [];
  data_sent = [];
}
