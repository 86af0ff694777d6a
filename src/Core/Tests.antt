-- ===== src/Core/Tests.antt =====
-- core/core.go: a node that connects to a peer, and the theorems at it.
use cleisthenes.Base.{
  ℕ, suc, ◌≡◌, refl, true, Option, none, some, [], ◌∷◌, insert, if◌then◌else◌, arith,
}
use text.Mathlib.Text.{◌==◌ as str_eq}
use cleisthenes.Base.Go.{done, fail, panic, final}
use cleisthenes.Member.{Address, MemberMap, new_member_map, new_member_with_address, address_eq}
use cleisthenes.Member
use cleisthenes.Honeybadger.{HoneyBadger, Message, AcsOps, Tpke}
use cleisthenes.Honeybadger
use cleisthenes.Queue.{new_manager}
use cleisthenes.Connection.Pool
use cleisthenes.Config.{Config, default_config}
use cleisthenes.Core.{bad_target, Outside, Node, new, connect_all, serve}
use cleisthenes.Core.Connecting.{Reached, joined, connect_all-prefix}
use cleisthenes.Core.Peers.{peer_message_panics}

abbrev at : ℕ → Address
at port = record { ip = "localhost"; port = port }

abbrev outside : Outside ℕ
outside = record {
  to_address = λ s.
      if str_eq s "node" then some (at 5000) else if str_eq s "peer" then some (at 8080) else none;
  dial = λ addr. some addr.port;
  ip = at;
}

abbrev conf : Config
conf = record default_config { identity = record { address = "node" } }

abbrev counter : AcsOps ℕ
counter = record {
  handle_input = λ bytes calls. (suc calls, none);
  handle_message = λ sender msg calls. (suc calls, none);
}

abbrev mock_tpke : Tpke
mock_tpke = record { encrypt = λ txs. some []; decrypt = λ enc. some enc }

abbrev factory : MemberMap → ℕ → Option ℕ
factory members i = some i

abbrev started : Node ℕ ℕ ℕ
started =
    let known = Member.add (new_member_with_address (at 5000)) new_member_map in
    record {
      addr = at 5000;
      tx_queue_manager = new_manager [] 3 3 (λ tx. true);
      message_endpoint = Honeybadger.new known (factory known) mock_tpke;
      conn_pool = [];
      member_map = [];
    }

started-new : new outside conf factory mock_tpke (λ tx. true) ≡ some started
unfolding new new_member_map new_member_with_address Member.add Pool.new_connection_pool insert
    Member.members
started-new = refl

abbrev reached : Reached outside
reached = record { target = "peer"; addr = at 8080; conn = 8080; parsed = refl; dialled = refl }

connect_all-prefix_example :
    (connect_all outside ("peer" ∷ "nowhere" ∷ "peer" ∷ []) started
      ≡ fail bad_target (joined outside (reached ∷ []) started))
    × (connect_all outside ("peer" ∷ []) started ≡ done tt (joined outside (reached ∷ []) started))
connect_all-prefix_example =
    connect_all-prefix outside (reached ∷ []) started "nowhere" ("peer" ∷ []) bad_target refl

abbrev hello : Message
hello = record { epoch = 0; sender = some (at 8080); payload = [] }

peer_message_panics_example :
    (t : Node ℕ ℕ ℕ) × (serve outside counter hello
        (final (connect_all outside ("peer" ∷ []) started))
      ≡ panic t)
peer_message_panics_example =
    peer_message_panics outside conf factory mock_tpke (λ tx. true) counter ("peer" ∷ []) hello
      (at 5000) (at 8080) refl (λ m. (0, refl)) refl (ground arith) started-new
