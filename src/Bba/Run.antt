-- ===== src/Bba/Run.antt =====
-- bba/bba.go: the goroutine of `run`, one `case` of its `select` at a time, interleaved with
-- whole calls that other goroutines make. A schedule is a list of events: it picks the `case` that
-- `select` takes, and a `case` whose channel is empty is not ready and changes nothing.
use cleisthenes.Base.{ℕ, true, List, [], ◌∷◌, if◌then◌else◌}
use cleisthenes.Base.Go.{◌>>◌, done}
use cleisthenes.Binary.{Binary}
use cleisthenes.Member.{Member}
use cleisthenes.Bba.State.{BbaRequest, BbaMessage, BbaGo}
use cleisthenes.Bba.Handlers.{
  Json, ignore, handle_message, handle_input, mux_message, handle_delayed_aux_request,
  broadcast_aux_once_for_round, advance_round,
}
use cleisthenes.Bba.Local.{match_with_current_round, tryout_agreement}

pub data Event : Type 0 where
  take_req take_bin_value take_tryout_agreement take_advance_round : Event
  message : Member → BbaMessage → Event
  input : Binary → Event
  close : Event

-- `Close`, after its first line: the stop flag goes up, and the request channel is closed.
unfoldable pub stop : BbaGo (Unit {0})
stop s =
    if s.stop_flag
    then done tt s
    else done tt (record s { stop_flag = true; req_chan_closed = true })

module _ (json : Json) where
  -- `case req := <-bba.reqChan`; the error of `muxMessage` is dropped.
  unfoldable pub on_req : List BbaRequest → BbaGo (Unit {0})
  on_req [] s = done tt s
  on_req (r ∷ rs) s =
      ignore (mux_message json r.sender r.round r.payload) (record s { req_chan = rs })

  -- `case r := <-bba.binValueChan`
  unfoldable pub on_bin_value : List ℕ → BbaGo (Unit {0})
  on_bin_value [] s = done tt s
  on_bin_value (r ∷ rs) s =
      let t = record s { bin_value_chan = rs } in
      if match_with_current_round r t
      then (broadcast_aux_once_for_round json >> handle_delayed_aux_request json) t
      else done tt t

  -- `case r := <-bba.tryoutAgreementChan`
  unfoldable pub on_tryout_agreement : List ℕ → BbaGo (Unit {0})
  on_tryout_agreement [] s = done tt s
  on_tryout_agreement (r ∷ rs) s =
      let t = record s { tryout_agreement_chan = rs } in
      if match_with_current_round r t then tryout_agreement t else done tt t

  -- `case r := <-bba.advanceRoundChan`
  unfoldable pub on_advance_round : List ℕ → BbaGo (Unit {0})
  on_advance_round [] s = done tt s
  on_advance_round (r ∷ rs) s =
      let t = record s { advance_round_chan = rs } in
      if match_with_current_round r t then advance_round json t else done tt t

  -- One event. The goroutine of `run` ends once the stop flag is up.
  unfoldable pub step : Event → BbaGo (Unit {0})
  step take_req s = if s.stop_flag then done tt s else on_req s.req_chan s
  step take_bin_value s = if s.stop_flag then done tt s else on_bin_value s.bin_value_chan s
  step take_tryout_agreement s =
      if s.stop_flag then done tt s else on_tryout_agreement s.tryout_agreement_chan s
  step take_advance_round s =
      if s.stop_flag then done tt s else on_advance_round s.advance_round_chan s
  step (message sender msg) s = ignore (handle_message json sender msg) s
  step (input v) s = ignore (handle_input json v) s
  step close s = stop s

  -- A schedule, as far as it goes: it ends at an event that blocks or panics.
  unfoldable pub run : List Event → BbaGo (Unit {0})
  run [] s = done tt s
  run (e ∷ es) s = (step e >> run es) s
