-- ===== src/Channel.antt =====
-- batch_channel.go, binary_channel.go and data_channel.go: the four channels between the components,
-- each a buffered Go channel. Nothing closes one.
mod Tests
use cleisthenes.Base.{ℕ, Option, none, some, List, [], ◌∷◌, ◌++◌, length, ltb, if◌then◌else◌}
use cleisthenes.Base.Go.{Outcome, done, block}
use cleisthenes.Honeybadger.{BatchMessage}
use cleisthenes.Bba.State.{BinaryMessage}
use cleisthenes.Rbc.State.{DataMessage}

-- The buffer of a channel, oldest message first, and its size
pub record Channel (A : Type 0) : Type 0 where
  pub size : ℕ
  pub buffer : List A

module _ {A : Type 0} where
  -- `make(chan A, size)`
  abbrev pub make : ℕ → Channel A
  make size = record { size = size; buffer = [] }

  -- `c <- msg`: a send on a full channel waits.
  abbrev pub put : A → Channel A → Outcome (Unit {0}) (Channel A) (Unit {0})
  put msg c =
      if ltb (length c.buffer) c.size
      then done tt (record c { buffer = c.buffer ++ msg ∷ [] })
      else block c

  -- `<-c`: a receive from an empty channel waits.
  abbrev pub get : Channel A → Outcome (Unit {0}) (Channel A) A
  get c = elim c.buffer [ [] ↦ block c | msg ∷ rest ↦ done msg (record c { buffer = rest }) ]

-- `BatchChannel`
abbrev pub BatchChannel : Type 0
BatchChannel = Channel BatchMessage

-- `NewBatchChannel`
unfoldable pub new_batch_channel : ℕ → BatchChannel
new_batch_channel size = make size

-- `(*BatchChannel).Send`
unfoldable pub send_batch : BatchMessage → BatchChannel → Outcome (Unit {0}) BatchChannel (Unit {0})
send_batch msg c = put msg c

-- A receive from what `(*BatchChannel).Receive` returns
unfoldable pub receive_batch : BatchChannel → Outcome (Unit {0}) BatchChannel BatchMessage
receive_batch c = get c

-- `ResultChannel`: a `ResultMessage` has the fields of a `BatchMessage`.
abbrev pub ResultChannel : Type 0
ResultChannel = Channel BatchMessage

-- `NewResultChannel`
unfoldable pub new_result_channel : ℕ → ResultChannel
new_result_channel size = make size

-- `(*ResultChannel).Send`
unfoldable pub send_result :
    BatchMessage → ResultChannel → Outcome (Unit {0}) ResultChannel (Unit {0})
send_result msg c = put msg c

-- A receive from what `(*ResultChannel).Receive` returns
unfoldable pub receive_result : ResultChannel → Outcome (Unit {0}) ResultChannel BatchMessage
receive_result c = get c

-- `BinaryChannel`
abbrev pub BinaryChannel : Type 0
BinaryChannel = Channel BinaryMessage

-- `NewBinaryChannel`
unfoldable pub new_binary_channel : ℕ → BinaryChannel
new_binary_channel size = make size

-- `(*BinaryChannel).Send`
unfoldable pub send_binary :
    BinaryMessage → BinaryChannel → Outcome (Unit {0}) BinaryChannel (Unit {0})
send_binary msg c = put msg c

-- A receive from what `(*BinaryChannel).Receive` returns
unfoldable pub receive_binary : BinaryChannel → Outcome (Unit {0}) BinaryChannel BinaryMessage
receive_binary c = get c

-- `DataChannel`
abbrev pub DataChannel : Type 0
DataChannel = Channel DataMessage

-- `NewDataChannel`
unfoldable pub new_data_channel : ℕ → DataChannel
new_data_channel size = make size

-- `(*DataChannel).Send`
unfoldable pub send_data : DataMessage → DataChannel → Outcome (Unit {0}) DataChannel (Unit {0})
send_data msg c = put msg c

-- A receive from what `(*DataChannel).Receive` returns
unfoldable pub receive_data : DataChannel → Outcome (Unit {0}) DataChannel DataMessage
receive_data c = get c
