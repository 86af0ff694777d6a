-- ===== src/Acs/Run.antt =====
-- acs/acs.go: the goroutine of `run`, one `case` of its `select` at a time, and the calls of other
-- goroutines. What the instances send to the data and binary channels arrives as an event.
use cleisthenes.Base.{ℕ, zero, suc, true, List, [], ◌∷◌, if◌then◌else◌}
use cleisthenes.Base.Go.{done, after}
use cleisthenes.Binary.{Binary}
use cleisthenes.Member.{Member}
use cleisthenes.Rbc.Merkle.{Bytes}
use cleisthenes.Acs.State.{RbcOps, BbaOps, Message}
use cleisthenes.Acs.Handlers.{
  AcsGo, ignored, process_data, process_agreement, try_complete_agreement, try_agreement_start,
  send_zero_to_idle_bba, handle_input, handle_message,
}

pub data Event : Type 0 where
  request : Member → Message → Event
  data_output : Member → Bytes → Event
  agreement : Event
  binary_output : Member → Binary → Event
  input : Bytes → Event
  close : Event

module _ (rbc_ops : RbcOps) (bba_ops : BbaOps) where
  -- `case output := <-acs.dataReceiver.Receive()`
  unfoldable pub on_data : Member → Bytes → AcsGo (Unit {0})
  on_data m bytes s =
      after (process_data m bytes s)
        λ _ t. after (try_agreement_start bba_ops m t) λ _ u. done tt (try_complete_agreement u)

  -- `case <-acs.agreementChan`, which is not ready while the channel is empty
  unfoldable pub on_agreement : ℕ → AcsGo (Unit {0})
  on_agreement zero s = done tt s
  on_agreement (suc signals) s =
      send_zero_to_idle_bba bba_ops (record s { agreement_chan = signals })

  -- `case output := <-acs.binaryReceiver.Receive()`
  unfoldable pub on_binary : Member → Binary → AcsGo (Unit {0})
  on_binary m bin s = after (process_agreement m bin s) λ _ t. done tt (try_complete_agreement t)

  -- One event. The goroutine of `run` ends once the stop flag is up, and then answers no request.
  unfoldable pub step : Event → AcsGo (Unit {0})
  step (request sender msg) s =
      if s.stop_flag then done tt s else ignored (handle_message rbc_ops bba_ops sender msg s)
  step (data_output m bytes) s = if s.stop_flag then done tt s else on_data m bytes s
  step agreement s = if s.stop_flag then done tt s else on_agreement s.agreement_chan s
  step (binary_output m bin) s = if s.stop_flag then done tt s else on_binary m bin s
  step (input bytes) s = ignored (handle_input rbc_ops bytes s)
  step close s = done tt (record s { stop_flag = true })

  unfoldable pub run : List Event → AcsGo (Unit {0})
  run [] s = done tt s
  run (e ∷ es) s = after (step e s) (λ _. run es)
