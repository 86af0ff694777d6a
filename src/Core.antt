-- ===== src/Core.antt =====
-- core/core.go: a node, put together from the queue manager, the HoneyBadger and the connections. The
-- gRPC server and client and the parsing of addresses are third-party: they enter as the parameter
-- `Outside`.
pub mod Connecting
pub mod Peers
mod Tests
use cleisthenes.Base.{
  ℕ, ◌*◌, String, Bool, Option, none, some, List, [], ◌∷◌, GoMap, map, values, length,
}
use cleisthenes.Base.Go.{Outcome, Go, done, fail, block, panic, after}
use cleisthenes.Member.{
  Address, Member, MemberMap, address_eq, members, new_member_map, new_member_with_address,
}
use cleisthenes.Member
use cleisthenes.Honeybadger.{HoneyBadger, Message, AcsOps, Tpke}
use cleisthenes.Honeybadger
use cleisthenes.Queue.{Manager, new_manager, new_tx_queue}
use cleisthenes.Queue
use cleisthenes.Config.{Config}
use cleisthenes.Connection.Pool.{new_connection_pool, get_all}
use cleisthenes.Connection.Pool

pub data Error : Type 0 where
  bad_target dial_failed : Error

-- `ToAddress`, and `Dial` for an address that it can connect to.
pub record Outside (C : Type 0) : Type 0 where
  pub to_address : String → Option Address
  pub dial : Address → Option C
  pub ip : C → Address

-- `Node`. `conn_pool` holds a `C` for each connection; `server` and `client` have no state here.
pub record Node (C Acs Tx : Type 0) : Type 0 where
  pub addr : Address
  pub tx_queue_manager : Manager Tx
  pub message_endpoint : HoneyBadger Acs
  pub conn_pool : GoMap Address C
  pub member_map : MemberMap

module _ {C Acs Tx : Type 0} (outside : Outside C) where
  -- `New`: the factory, which `NewDefaultACSFactory` makes, gets the same member map as the
  -- HoneyBadger; the node keeps another one.
  unfoldable pub new :
      Config → (MemberMap → ℕ → Option Acs) → Tpke → (Tx → Bool) → Option (Node C Acs Tx)
  unfolding Member.add
  new conf factory tpk tx_validator = elim (outside.to_address conf.identity.address) [
    | none ↦ none
    | some addr ↦
        let member_map = Member.add (new_member_with_address addr) new_member_map in
        some (record {
          addr = addr;
          tx_queue_manager =
              new_manager new_tx_queue conf.honey_badger.batch_size
                (conf.honey_badger.batch_size * length (members member_map)) tx_validator;
          message_endpoint = Honeybadger.new member_map (factory member_map) tpk;
          conn_pool = new_connection_pool;
          member_map = new_member_map;
        })
  ]

  -- `connect`
  unfoldable pub connect_address : Address → Go Error (Node C Acs Tx) (Unit {0})
  unfolding Member.add Pool.add
  connect_address addr n = elim (outside.dial addr) [
    | none ↦ fail dial_failed n
    | some conn ↦ done tt (record n {
      conn_pool = Pool.add addr conn n.conn_pool;
      member_map = Member.add (new_member_with_address addr) n.member_map;
    })
  ]

  -- `Connect`
  unfoldable pub connect : String → Go Error (Node C Acs Tx) (Unit {0})
  connect target n = elim (outside.to_address target) [
    | none ↦ fail bad_target n
    | some addr ↦ connect_address addr n
  ]

  -- `ConnectAll`
  unfoldable pub connect_all : List String → Go Error (Node C Acs Tx) (Unit {0})
  connect_all [] n = done tt n
  connect_all (target ∷ targets) n = after (connect target n) (λ _. connect_all targets)

  -- `ConnectionList`
  unfoldable pub connection_list : Node C Acs Tx → List Address
  connection_list n = map outside.ip (get_all n.conn_pool)

  -- The handler of `Run`: errors are printed.
  unfoldable pub serve : AcsOps Acs → Message → Go Error (Node C Acs Tx) (Unit {0})
  serve ops msg n = elim (Honeybadger.handle_message ops msg n.message_endpoint) [
    | done _ hb ↦ done tt (record n { message_endpoint = hb })
    | fail _ hb ↦ done tt (record n { message_endpoint = hb })
    | block hb ↦ block (record n { message_endpoint = hb })
    | panic hb ↦ panic (record n { message_endpoint = hb })
  ]

  -- `Close`, given `Close` of a connection; the server, which is stopped first, has no state here.
  unfoldable pub close : (C → C) → Node C Acs Tx → Node C Acs Tx
  close close_connection n = record n {
    conn_pool = map (λ (entry : Address × C). (entry.0, close_connection entry.1)) n.conn_pool;
  }

  -- `Submit`
  unfoldable pub submit : Tx → Go Queue.Error (Node C Acs Tx) (Unit {0})
  submit tx n = elim (Queue.add_transaction tx n.tx_queue_manager) [
    | done _ m ↦ done tt (record n { tx_queue_manager = m })
    | fail e m ↦ fail e (record n { tx_queue_manager = m })
    | block m ↦ block (record n { tx_queue_manager = m })
    | panic m ↦ panic (record n { tx_queue_manager = m })
  ]
