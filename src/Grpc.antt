-- ===== src/Grpc.antt =====
-- comm.go and stream.go: the server that takes connections in, the client that makes them, and the
-- wrappers of the streams under them. gRPC, the sockets and the numbers of google/uuid are third-party:
-- what their calls answer enters as the parameter `Library` and as arguments.
mod Tests
use cleisthenes.Base.{ℕ, String, Bool, true, false, Option, none, some, List, [], ◌∷◌, ◌++◌}
use cleisthenes.Base.Go.{Go, done, fail, panic}
use cleisthenes.Member.{Address}
use cleisthenes.Connection.{GrpcConnection, new_connection}

-- A message that a stream takes or gives, and the calls of a stream: each may fail.
pub record Library (C S M L : Type 0) : Type 0 where
  -- `grpc.DialContext`, which opens a client connection
  pub dial_context : Address → Option C
  -- `MessageStream` of the generated client
  pub message_stream : C → Option S
  pub send : M → S → S × Bool
  pub recv : S → S × Option M
  pub close_send : S → S
  -- `peer.FromContext`, whose address may be nil
  pub peer_of : S → Option (Option String)
  -- `net.Listen`
  pub net_listen : Address → Option L

-- `CStreamWrapper`, with whether its connection is closed and its context cancelled
pub record CStreamWrapper (C S : Type 0) : Type 0 where
  pub conn : C
  pub client_stream : S
  pub conn_closed : Bool
  pub cancelled : Bool

-- `SStreamWrapper`, with whether the context made for it is cancelled: the stream has another one.
pub record SStreamWrapper (S : Type 0) : Type 0 where
  pub server_stream : S
  pub cancelled : Bool

-- The two types behind the interface `StreamWrapper`
pub data StreamWrapper (C S : Type 0) : Type 0 where
  client : CStreamWrapper C S → StreamWrapper C S
  server : SStreamWrapper S → StreamWrapper C S

-- `GrpcServer`. `lis` is the listener and whether it is closed, and the handlers are any.
pub record GrpcServer (L H K : Type 0) : Type 0 where
  pub addr : Address
  pub conn_handler : Option H
  pub err_handler : Option K
  pub lis : Option (L × Bool)

pub data Error : Type 0 where
  dial_error stream_error no_connection : Error

-- What `NewConnection` makes of a wrapper: the connection and the wrapper under it.
pub record Made (C S M : Type 0) : Type 0 where
  pub connection : GrpcConnection M
  pub wrapper : StreamWrapper C S

module _ {C S M L : Type 0} (lib : Library C S M L) where
  -- `NewClientStreamWrapper`
  unfoldable pub new_client_stream_wrapper : C → Option (CStreamWrapper C S)
  new_client_stream_wrapper conn = elim (lib.message_stream conn) [
    | none ↦ none
    | some stream ↦
        some
          (record { conn = conn; client_stream = stream; conn_closed = false; cancelled = false })
  ]

  -- `NewServerStreamWrapper`
  unfoldable pub new_server_stream_wrapper : S → SStreamWrapper S
  new_server_stream_wrapper stream = record { server_stream = stream; cancelled = false }

  -- `GetStream` of both wrappers
  unfoldable pub get_stream : StreamWrapper C S → S
  get_stream (client w) = w.client_stream
  get_stream (server w) = w.server_stream

  -- `Send` of both wrappers, with whether it succeeds
  unfoldable pub send_stream : M → StreamWrapper C S → StreamWrapper C S × Bool
  send_stream msg (client w) =
      let (stream, sent) = lib.send msg w.client_stream in
      (client (record w { client_stream = stream }), sent)
  send_stream msg (server w) =
      let (stream, sent) = lib.send msg w.server_stream in
      (server (record w { server_stream = stream }), sent)

  -- `Recv` of both wrappers
  unfoldable pub recv_stream : StreamWrapper C S → StreamWrapper C S × Option M
  recv_stream (client w) =
      let (stream, msg) = lib.recv w.client_stream in
      (client (record w { client_stream = stream }), msg)
  recv_stream (server w) =
      let (stream, msg) = lib.recv w.server_stream in
      (server (record w { server_stream = stream }), msg)

  -- `(*CStreamWrapper).Close`
  unfoldable pub close_client : CStreamWrapper C S → CStreamWrapper C S
  close_client w = record w {
    conn_closed = true;
    client_stream = lib.close_send w.client_stream;
    cancelled = true;
  }

  -- `(*SStreamWrapper).Close`
  unfoldable pub close_server : SStreamWrapper S → SStreamWrapper S
  close_server w = record w { cancelled = true }

  -- `Close` of both wrappers
  unfoldable pub close_stream : StreamWrapper C S → StreamWrapper C S
  unfolding close_client close_server
  close_stream (client w) = client (close_client w)
  close_stream (server w) = server (close_server w)

  -- `extractRemoteAddr`
  unfoldable pub extract_remote_addr : S → String
  extract_remote_addr stream = elim (lib.peer_of stream) [
    | none ↦ ""
    | some addr ↦ elim addr [ none ↦ "" | some text ↦ text ]
  ]

  module _ {H K : Type 0} where
    -- `NewServer`
    unfoldable pub new_server : Address → GrpcServer L H K
    new_server addr = record { addr = addr; conn_handler = none; err_handler = none; lis = none }

    -- `MessageStream`: the error, or the call of the handler, if there is one, with the connection
    unfoldable pub message_stream :
        String → S → GrpcServer L H K → Go Error (List (H × Made C S M)) (Unit {0})
    unfolding extract_remote_addr new_server_stream_wrapper new_connection
    message_stream uuid stream s calls =
        let ip : Address = record { ip = extract_remote_addr stream; port = 0 } in
        let wrapper = server (new_server_stream_wrapper stream) in
        elim (new_connection ip uuid true) [
          | none ↦ fail no_connection calls
          | some conn ↦ elim s.conn_handler [
            | none ↦ done tt calls
            | some handler ↦
                done tt (calls ++ (handler, record { connection = conn; wrapper = wrapper }) ∷ [])
          ]
        ]

    -- `OnConn`; nil is no handler.
    unfoldable pub on_conn : Option H → GrpcServer L H K → GrpcServer L H K
    on_conn none s = s
    on_conn (some handler) s = record s { conn_handler = some handler }

    -- `OnErr`
    unfoldable pub on_err : Option K → GrpcServer L H K → GrpcServer L H K
    on_err none s = s
    on_err (some handler) s = record s { err_handler = some handler }

    -- `Listen` up to `Serve`; `Fatalf` ends the process.
    unfoldable pub listen : Go Error (GrpcServer L H K) (Unit {0})
    listen s = elim (lib.net_listen s.addr) [
      | none ↦ panic s
      | some l ↦ done tt (record s { lis = some (l, false) })
    ]

    -- `Stop`, and what `Listen` does when `Serve` has returned
    unfoldable pub stop : GrpcServer L H K → GrpcServer L H K
    stop s = elim s.lis [ none ↦ s | some (l, closed) ↦ record s { lis = some (l, true) } ]

  -- `Dial`, on the client connections that are open
  unfoldable pub dial : String → Address → Go Error (List C) (Made C S M)
  unfolding new_client_stream_wrapper new_connection
  dial uuid addr conns = elim (lib.dial_context addr) [
    | none ↦ fail dial_error conns
    | some gconn ↦
        let opened = conns ++ gconn ∷ [] in
        elim (new_client_stream_wrapper gconn) [
          | none ↦ fail stream_error opened
          | some w ↦ elim (new_connection addr uuid true) [
            | none ↦ fail no_connection opened
            | some conn ↦ done (record { connection = conn; wrapper = client w }) opened
          ]
        ]
  ]
