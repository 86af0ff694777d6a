-- ===== src/Rbc/Run.antt =====
-- rbc/rbc.go: a history of an `RBC`, the messages and inputs that it is given one after another.
-- A call that returns an error leaves the instance running; a panic ends the node.
use cleisthenes.Base.{List, [], ◌∷◌}
use cleisthenes.Base.Go.{Outcome, after, done, fail, block, panic}
use cleisthenes.Member.{Member}
use cleisthenes.Rbc.Merkle.{Bytes}
use cleisthenes.Rbc.State.{Error, RbcMessage, Rbc, RbcGo}
use cleisthenes.Rbc.Handlers.{handle_message}
use cleisthenes.Rbc.Decode.{Env}
use cleisthenes.Rbc.Input.{handle_input}

pub data Event : Type 0 where
  message : Member → RbcMessage → Event
  input : Bytes → Event

-- The error is handed to the caller, and the instance goes on.
abbrev pub ignored : Outcome Error Rbc (Unit {0}) → Outcome Error Rbc (Unit {0})
ignored (done a s) = done a s
ignored (fail e s) = done tt s
ignored (block s) = block s
ignored (panic s) = panic s

module _ (env : Env) where
  unfoldable pub step : Event → RbcGo (Unit {0})
  step (message sender msg) s = ignored (handle_message env sender msg s)
  step (input bytes) s = ignored (handle_input env bytes s)

  unfoldable pub run : List Event → RbcGo (Unit {0})
  run [] s = done tt s
  run (e ∷ es) s = after (step e s) (λ _. run es)
