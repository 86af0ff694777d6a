-- ===== src/Connection.antt =====
-- conn.go: a connection to a peer, with its channels and the loops of its goroutines. The stream
-- under it is third-party: what it answers to each call comes with the event that makes the call.
pub mod Fifo
pub mod Bounds
pub mod Stuck
pub mod Pool
mod Tests
use cleisthenes.Base.{
  ℕ, suc, String, Bool, true, false, not, Option, none, some, List, [], ◌∷◌, ◌++◌, length, ltb,
  ◌==◌, ◌&&◌, if◌then◌else◌,
}
use cleisthenes.Base.Go.{Outcome, Go, done, fail, block, final}
use cleisthenes.Member.{Address}

pub data Error : Type 0 where
  stream_is_nil stream_error : Error

-- `innerMessage`, with whether each callback is given
pub record InnerMessage (M : Type 0) : Type 0 where
  pub message : M
  pub on_err : Bool
  pub on_success : Bool

-- `GrpcConnection`. `waiting` is the message of a `Send` that holds the lock while `outChan` is
-- full. `writing` is whether `writeStream` has passed the test of its loop; `serving` and
-- `reading` say so of `Start` and `readStream`. `err_chan` counts the errors that `readStream` has
-- sent, after which it has returned, and `failed` is whether `Start` has returned one. `written`,
-- `called_back` and `served` log what the stream, the callbacks and the handler are given; `written`
-- has the messages whose `Send` on the stream failed, too.
pub record GrpcConnection (M : Type 0) : Type 0 where
  pub id : String
  pub ip : Address
  pub stop_flag : Bool
  pub handler : Bool
  pub out_chan : List (InnerMessage M)
  pub read_chan : List M
  pub stop_chan : ℕ
  pub err_chan : ℕ
  pub waiting : Option (InnerMessage M)
  pub writing : Bool
  pub reading : Bool
  pub serving : Bool
  pub failed : Bool
  pub stream_closed : Bool
  pub written : List (InnerMessage M)
  pub called_back : List M
  pub served : List M

abbrev pub chan_size : ℕ
chan_size = 200

-- What happens to a connection: the calls of other goroutines, and the parts of its own loops,
-- each up to the next operation on a channel. The stream's answer comes with the event.
pub data Event (M : Type 0) : Type 0 where
  send : InnerMessage M → Event M
  close : Event M
  handle : Event M
  write_test write_stop : Event M
  write_message : (sent : Bool) → Event M
  read_test : Event M
  receive : Option M → Event M
  start_test start_stop start_error start_message : Event M

module _ {M : Type 0} where
  -- `NewConnection`, given whether there is a stream
  unfoldable pub new_connection : Address → String → Bool → Option (GrpcConnection M)
  new_connection ip id has_stream =
      if has_stream
      then some (record {
        id = id;
        ip = ip;
        stop_flag = false;
        handler = false;
        out_chan = [];
        read_chan = [];
        stop_chan = 0;
        err_chan = 0;
        waiting = none;
        writing = false;
        reading = false;
        serving = false;
        failed = false;
        stream_closed = false;
        written = [];
        called_back = [];
        served = [];
      })
      else none

  -- `Send`: it waits for the lock, or holds it and waits for a place in the channel.
  unfoldable pub send_message : InnerMessage M → Go Error (GrpcConnection M) (Unit {0})
  send_message m c = elim c.waiting [
    | some _ ↦ block c
    | none ↦
        if ltb (length c.out_chan) chan_size
        then done tt (record c { out_chan = c.out_chan ++ m ∷ [] })
        else block (record c { waiting = some m })
  ]

  -- `Close`: only the first call gets past the flag. `stopChan` has one place.
  unfoldable pub close_connection : Go Error (GrpcConnection M) (Unit {0})
  close_connection c =
      if c.stop_flag
      then done tt c
      else if ltb c.stop_chan 1
      then (let d = record c { stop_flag = true; stop_chan = suc c.stop_chan } in
          elim c.waiting [ some _ ↦ block d | none ↦ done tt (record d { stream_closed = true }) ])
      else block (record c { stop_flag = true })

  -- `outChan` once its first message is taken: a `Send` that waits gets the place and returns.
  unfoldable pub refill : List (InnerMessage M) → GrpcConnection M → GrpcConnection M
  refill rest c = elim c.waiting [
    | none ↦ record c { out_chan = rest }
    | some w ↦ record c { out_chan = rest ++ w ∷ []; waiting = none }
  ]

  -- The `case` of `writeStream` that takes a message, with the callback that it starts
  unfoldable pub write_next : Bool → List (InnerMessage M) → GrpcConnection M → GrpcConnection M
  unfolding refill
  write_next sent [] c = c
  write_next sent (m ∷ rest) c =
      let called = if sent then m.on_success else m.on_err in
      refill rest (record c {
        writing = false;
        written = c.written ++ m ∷ [];
        called_back = if called then c.called_back ++ m.message ∷ [] else c.called_back;
      })

  -- `readStream` after `Recv`: it looks at the flag again, and an error ends it. While `readChan` is
  -- full it waits with the message.
  unfoldable pub received : Option M → GrpcConnection M → GrpcConnection M
  received envelope c =
      let d = record c { reading = false } in
      if c.stop_flag then d else elim envelope [
        | none ↦ record d { err_chan = suc c.err_chan }
        | some m ↦
            if ltb (length c.read_chan) chan_size
            then record d { read_chan = c.read_chan ++ m ∷ [] }
            else c
      ]

  -- The `case` of `Start` that takes a message: without a handler it is dropped.
  unfoldable pub serve_next : List M → GrpcConnection M → GrpcConnection M
  serve_next [] c = c
  serve_next (m ∷ rest) c = record c {
    serving = false;
    read_chan = rest;
    served = if c.handler then c.served ++ m ∷ [] else c.served;
  }

  -- An event that a goroutine cannot have where it stands changes nothing.
  unfoldable pub step : Event M → GrpcConnection M → GrpcConnection M
  unfolding send_message close_connection write_next received serve_next
  step (send m) c = final (send_message m c)
  step close c = final (close_connection c)
  step handle c = record c { handler = true }
  step write_test c = record c { writing = not c.stop_flag }
  step write_stop c = if ltb 0 c.stop_chan then record c { writing = false } else c
  step (write_message sent) c = if c.writing then write_next sent c.out_chan c else c
  step read_test c = record c { reading = not c.stop_flag && c.err_chan == 0 }
  step (receive envelope) c = if c.reading then received envelope c else c
  step start_test c = record c { serving = not c.stop_flag && not c.failed }
  step start_stop c = if ltb 0 c.stop_chan then record c { serving = false } else c
  step start_error c =
      if c.serving && ltb 0 c.err_chan then record c { serving = false; failed = true } else c
  step start_message c = if c.serving then serve_next c.read_chan c else c

  unfoldable pub run : List (Event M) → GrpcConnection M → GrpcConnection M
  run [] c = c
  run (e ∷ es) c = run es (step e c)
