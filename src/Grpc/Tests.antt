-- ===== src/Grpc/Tests.antt =====
-- comm.go and stream.go at a library whose streams are numbers.
use cleisthenes.Base.{ℕ, ◌+◌, ◌≡◌, refl, true, false, Option, none, some, [], ◌∷◌}
use cleisthenes.Base.Go.{done, fail}
use cleisthenes.Member.{Address}
use cleisthenes.Grpc.{
  Library, GrpcServer, stream_error, server, new_server, new_server_stream_wrapper, close_stream,
  close_server, get_stream, stop, listen, dial, new_client_stream_wrapper,
}

abbrev library : Option ℕ → Library ℕ ℕ ℕ ℕ
library stream = record {
  dial_context = λ addr. some 9;
  message_stream = λ conn. stream;
  send = λ msg s. (s + msg, true);
  recv = λ s. (s, some s);
  close_send = λ s. 0;
  peer_of = λ s. some (some "10.0.0.7:40312");
  net_listen = λ addr. some 1;
}

abbrev home : Address
home = record { ip = "localhost"; port = 5000 }

-- A client connection whose stream cannot be opened stays open.
dial-stream_error : dial (library none) "id" home [] ≡ fail stream_error (9 ∷ [])
unfolding dial new_client_stream_wrapper
dial-stream_error = refl

-- `Close` of a wrapper on the server's side leaves the stream as it is.
close_stream-server :
    get_stream
      (library none)
      (close_stream (library none) (server (new_server_stream_wrapper (library none) 5)))
    ≡ 5
unfolding close_stream close_server get_stream new_server_stream_wrapper
close_stream-server = refl

-- `Stop` before `Listen` has its listener does not stop the server.
abbrev fresh : GrpcServer ℕ ℕ ℕ
fresh = new_server (library none) home

stop-listen :
    listen (library none) (stop (library none) fresh)
    ≡ done tt (record fresh { lis = some (1, false) })
unfolding listen stop new_server
stop-listen = refl
