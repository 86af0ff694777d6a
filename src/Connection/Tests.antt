-- ===== src/Connection/Tests.antt =====
-- conn.go: runs of a connection, and the theorems at them.
use cleisthenes.Base.{ℕ, ◌≡◌, refl, true, false, none, some, List, [], ◌∷◌, ◌++◌, arith}
use cleisthenes.Base.Go.{done, block}
use cleisthenes.Member.{Address}
use cleisthenes.Connection.{
  InnerMessage, GrpcConnection, Event, send, close, handle, write_test, write_message, read_test,
  receive, start_test, start_message, new_connection, send_message, close_connection, refill,
  write_next, received, serve_next, step, run,
}
use cleisthenes.Connection.Fifo.{queue_of, actions, act_all, puts, refines_queue}
use cleisthenes.Connection.Stuck.{close_never_ends}
use cleisthenes.Connection.Pool.{
  Ready, plain, queued, dealt, distribute_message, distribute_message-dealt,
}

abbrev peer : Address
peer = record { ip = "localhost"; port = 8080 }

abbrev fresh : GrpcConnection ℕ
fresh = record {
  id = "a";
  ip = peer;
  stop_flag = false;
  handler = false;
  out_chan = [];
  read_chan = [];
  stop_chan = 0;
  err_chan = 0;
  waiting = none;
  writing = false;
  reading = false;
  serving = false;
  failed = false;
  stream_closed = false;
  written = [];
  called_back = [];
  served = [];
}

fresh-new : new_connection {M = ℕ} peer "a" true ≡ some fresh
unfolding new_connection
fresh-new = refl

abbrev history : List (Event ℕ)
history =
    send (plain 1)
    ∷ send (plain 2)
    ∷ handle
    ∷ write_test
    ∷ write_message true
    ∷ read_test
    ∷ receive (some 9)
    ∷ start_test
    ∷ start_message
    ∷ close
    ∷ send (plain 3)
    ∷ []

-- The first message is written, the one that was received is served.
history-logs :
    ((run history fresh).written ≡ plain 1 ∷ [])
    × ((run history fresh).served ≡ 9 ∷ [])
    × ((run history fresh).out_chan ≡ plain 2 ∷ plain 3 ∷ [])
    × ((run history fresh).stream_closed ≡ true)
unfolding run step send_message close_connection refill write_next received serve_next
history-logs = (refl, refl, refl, refl)

refines_queue_example :
    (queue_of (run history fresh)
      ≡ act_all (actions history fresh) (record { taken = []; queued = [] }))
    × ((run history fresh).written ++ (queue_of (run history fresh)).queued
        ≡ puts (actions history fresh))
refines_queue_example = refines_queue peer "a" history fresh-new

abbrev clogged : GrpcConnection ℕ
clogged = record fresh { waiting = some (plain 5) }

close_never_ends_example :
    (d : GrpcConnection ℕ) × (close_connection clogged ≡ block d)
    × ((w : InnerMessage ℕ) → send_message w (run history d) ≡ block (run history d))
    × ((run history d).stream_closed ≡ false)
close_never_ends_example = close_never_ends clogged (plain 5) history refl refl refl refl refl

fresh-Ready : Ready fresh
fresh-Ready = record { free = refl; room = ground arith }

distribute_message-dealt_example :
    distribute_message (1 ∷ 2 ∷ 3 ∷ []) (fresh ∷ fresh ∷ [])
    ≡ done tt (dealt (1 ∷ 2 ∷ 3 ∷ []) (fresh ∷ fresh ∷ []))
distribute_message-dealt_example =
    distribute_message-dealt (1 ∷ 2 ∷ 3 ∷ []) (fresh ∷ fresh ∷ []) (fresh-Ready, (fresh-Ready, tt))
