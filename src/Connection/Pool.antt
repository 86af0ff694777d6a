-- ===== src/Connection/Pool.antt =====
-- conn.go: `ConnectionPool`, the connections to the other nodes, and the two kinds of broadcast. The
-- lock is left out. A `range` over the pool visits the connections in the order of the list.
use cleisthenes.Base.{
  ◌<◌, ◌≡◌, refl, false, none, List, [], ◌∷◌, ◌++◌, GoMap, values, insert, delete, length, map, All,
  arith,
}
use cleisthenes.Base.Go.{Outcome, done, fail, block, panic}
use cleisthenes.Member.{Address, address_eq}
use cleisthenes.Connection.{
  Error, InnerMessage, GrpcConnection, chan_size, send_message, close_connection,
}

module _ {C : Type 0} where
  -- `NewConnectionPool`
  unfoldable pub new_connection_pool : GoMap Address C
  new_connection_pool = []

  -- `GetAll`
  unfoldable pub get_all : GoMap Address C → List C
  get_all p = values p

  -- `Add`
  unfoldable pub add : Address → C → GoMap Address C → GoMap Address C
  add addr conn p = insert addr conn p

  -- `Remove`
  unfoldable pub remove : Address → GoMap Address C → GoMap Address C
  remove addr p = delete addr p

module _ {M : Type 0} where
  -- The call of a loop for one connection: the state of the others stays.
  abbrev pub beside :
      GrpcConnection M
      → Outcome Error (List (GrpcConnection M)) (Unit {0})
      → Outcome Error (List (GrpcConnection M)) (Unit {0})
  beside c (done a cs) = done a (c ∷ cs)
  beside c (fail e cs) = fail e (c ∷ cs)
  beside c (block cs) = block (c ∷ cs)
  beside c (panic cs) = panic (c ∷ cs)

  abbrev pub plain : M → InnerMessage M
  plain msg = record { message = msg; on_err = false; on_success = false }

  -- `ShareMessage`, over what `GetAll` gives
  unfoldable pub share_message :
      M → List (GrpcConnection M) → Outcome Error (List (GrpcConnection M)) (Unit {0})
  share_message msg [] = done tt []
  share_message msg (c ∷ cs) =
      let rest = share_message msg cs in
      elim (send_message (plain msg) c) [
        | done _ d ↦ beside d rest
        | fail e d ↦ fail e (d ∷ cs)
        | block d ↦ block (d ∷ cs)
        | panic d ↦ panic (d ∷ cs)
      ]

  -- `DistributeMessage`, over what `GetAll` gives
  unfoldable pub distribute_message :
      List M → List (GrpcConnection M) → Outcome Error (List (GrpcConnection M)) (Unit {0})
  distribute_message msgs [] = done tt []
  distribute_message [] (c ∷ cs) = done tt (c ∷ cs)
  distribute_message (msg ∷ msgs) (c ∷ cs) =
      let rest = distribute_message msgs cs in
      elim (send_message (plain msg) c) [
        | done _ d ↦ beside d rest
        | fail e d ↦ fail e (d ∷ cs)
        | block d ↦ block (d ∷ cs)
        | panic d ↦ panic (d ∷ cs)
      ]

  -- The loop of `Close` of core/core.go
  unfoldable pub close_all :
      List (GrpcConnection M) → Outcome Error (List (GrpcConnection M)) (Unit {0})
  close_all [] = done tt []
  close_all (c ∷ cs) =
      let rest = close_all cs in
      elim (close_connection c) [
        | done _ d ↦ beside d rest
        | fail e d ↦ fail e (d ∷ cs)
        | block d ↦ block (d ∷ cs)
        | panic d ↦ panic (d ∷ cs)
      ]

  -- The connection can take a message at once.
  pub record Ready (c : GrpcConnection M) : Type 0 where
    pub free : c.waiting ≡ none
    pub room : length c.out_chan < chan_size

  abbrev pub queued : M → GrpcConnection M → GrpcConnection M
  queued msg c = record c { out_chan = c.out_chan ++ plain msg ∷ [] }

  send_message-Ready :
      (msg : M) (c : GrpcConnection M)
      → Ready c
      → send_message (plain msg) c ≡ done tt (queued msg c)
  unfolding send_message
  send_message-Ready msg c h = ground (arith, h.free, h.room)

  -- Of two lists, what one gives to the other, element by element.
  abbrev pub dealt : List M → List (GrpcConnection M) → List (GrpcConnection M)
  dealt msgs [] = []
  dealt [] (c ∷ cs) = c ∷ cs
  dealt (msg ∷ msgs) (c ∷ cs) = queued msg c ∷ dealt msgs cs

  -- If every connection can take a message, `DistributeMessage` gives the i-th message to the i-th
  -- connection. Messages without a connection and connections without a message are left out.
  pub distribute_message-dealt :
      (msgs : List M) (cs : List (GrpcConnection M))
      → All Ready cs
      → distribute_message msgs cs ≡ done tt (dealt msgs cs)
  unfolding distribute_message
  distribute_message-dealt msgs [] h = refl
  distribute_message-dealt [] (c ∷ cs) h = refl
  distribute_message-dealt (msg ∷ msgs) (c ∷ cs) h =
      ground (arith, send_message-Ready msg c h.0, distribute_message-dealt msgs cs h.1)

  share_message-queued :
      (msg : M) (cs : List (GrpcConnection M))
      → All Ready cs
      → share_message msg cs ≡ done tt (map (queued msg) cs)
  unfolding share_message
  share_message-queued msg [] h = refl
  share_message-queued msg (c ∷ cs) h =
      ground (arith, send_message-Ready msg c h.0, share_message-queued msg cs h.1)
